-- ===== src/FailureSignal.antt =====
-- bazaar_compute_node/core/lifecycle.py: `TaskFailureSignal`, by which the owner of a long-lived
-- task hears that it ended. `E` is what an exception of such a task carries.
use bazaar_compute_node.Prelude.{Bool, true, false, Option, none, some, if◌then◌else◌, ◌||◌, not}

-- How a task ended: `cancelled()`, `exception()` or a plain return.
pub data TaskEnd {ℓ} (E : Type ℓ) : Type ℓ where
  cancelled : TaskEnd E
  failed : E → TaskEnd E
  returned : TaskEnd E

-- The two `RuntimeError`s that the signal makes up, or the error of the task.
pub data Failure {ℓ} (E : Type ℓ) : Type ℓ where
  canceled_unexpectedly stopped_unexpectedly : Failure E
  given : E → Failure E

pub record FailureSignal {ℓ} (E : Type ℓ) : Type ℓ where
  pub event : Bool
  pub error : Option (Failure E)
  pub enabled : Bool

module _ {ℓ} {E : Type ℓ} where
  unfoldable pub new_signal : FailureSignal E
  new_signal = record { event = false; error = none; enabled = false }

  unfoldable pub reset : FailureSignal E → FailureSignal E
  reset s = record { event = false; error = none; enabled = true }

  unfoldable pub disable : FailureSignal E → FailureSignal E
  disable s = record s { enabled = false }

  -- What `complete` stores for each way in which the task ends.
  unfoldable pub failure_of : TaskEnd E → Failure E
  failure_of cancelled = canceled_unexpectedly
  failure_of (failed e) = given e
  failure_of returned = stopped_unexpectedly

  -- `complete`, the callback that `observe` adds to the task.
  unfoldable pub complete : TaskEnd E → FailureSignal E → FailureSignal E
  unfolding failure_of
  complete end s =
      if not s.enabled then s else record s { error = some (failure_of end); event = true }

  unfoldable pub fail : E → FailureSignal E → FailureSignal E
  fail e s =
      if not s.enabled || s.event then s else record s { error = some (given e); event = true }
