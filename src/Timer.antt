-- ===== src/Timer.antt =====
-- bazaar_compute_node/core/timerwheel.py: `Timer`, one resettable timer with at most one waiter, and
-- what it does without its wheel. The future that `wait` blocks on is a value of `Future`.
use bazaar_compute_node.Prelude.{
  ℕ, Bool, true, false, Option, none, some, not, ◌||◌, ◌==◌, if◌then◌else◌,
}

-- The exceptions that the module raises, one for each message.
pub data Exn : Type 0 where
  timer_cancelled wheel_closed not_started only_active : Exn
  has_waiter already_consumed negative_delay beyond_horizon : Exn
  -- the task that waits was cancelled
  task_cancelled : Exn

pub data Reply {ℓ} (A : Type ℓ) : Type ℓ where
  returned : A → Reply A
  raised : Exn → Reply A

-- `asyncio.Future[None]`
pub data Future : Type 0 where
  pending : Future
  result : Future
  exception : Exn → Future

pub record Timer : Type 0 where
  pub deadline_tick : ℕ
  pub generation : ℕ
  pub active : Bool
  pub cancelled : Bool
  pub closed : Bool
  pub waiting : Bool
  pub waiter : Option Future
  pub expired_generation : Option ℕ
  pub expiry_consumed : Bool

-- `Timer.__init__`
unfoldable pub new_timer : ℕ → Timer
new_timer deadline = record {
  deadline_tick = deadline;
  generation = 1;
  active = true;
  cancelled = false;
  closed = false;
  waiting = false;
  waiter = none;
  expired_generation = none;
  expiry_consumed = false;
}

-- `if waiter is not None and not waiter.done(): waiter.set_result(None)`, or `set_exception`.
unfoldable pub settle : Future → Option Future → Option Future
settle f none = none
settle f (some pending) = some f
settle f (some done) = some done

-- `Timer._expire`
unfoldable pub expire : ℕ → Timer → Timer
unfolding settle
expire generation t = if not t.active || not (generation == t.generation) then t else record t {
  active = false;
  expired_generation = some generation;
  waiter = settle result t.waiter;
}

-- `Timer._close`
unfoldable pub close : Timer → Timer
unfolding settle
close t = record t {
  active = false;
  closed = true;
  waiter = settle (exception wheel_closed) t.waiter;
}

-- `Timer.cancel` on the timer itself, past its early return and the wheel's `_remove`.
unfoldable pub mark_cancelled : Timer → Timer
unfolding settle
mark_cancelled t = record t {
  active = false;
  cancelled = true;
  waiter = settle (exception timer_cancelled) t.waiter;
}

-- Whether `wait` came back at once or blocks on its future.
pub data Wait : Type 0 where
  finished blocked : Wait

-- `wait` past its guards: the expiry is consumed, or a new future awaited.
unfoldable pub wait_expiry : Option ℕ → Timer → Reply Wait × Timer
wait_expiry none t = (returned blocked, record t { waiting = true; waiter = some pending })
wait_expiry (some g) t =
    if t.expiry_consumed
    then (raised already_consumed, t)
    else (returned finished, record t { expiry_consumed = true })

-- `Timer.wait` up to `await waiter`.
unfoldable pub wait_begin : Timer → Reply Wait × Timer
unfolding wait_expiry
wait_begin t =
    if t.waiting
    then (raised has_waiter, t)
    else if t.closed
    then (raised wheel_closed, t)
    else if t.cancelled
    then (raised timer_cancelled, t)
    else wait_expiry t.expired_generation t
