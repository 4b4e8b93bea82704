-- ===== src/Agent.antt =====
-- bazaar_compute_node/core/actor.py and core/agent.py: who answers for a conversation, and the
-- condition of the agent. The dict of states is a function.
pub mod Laws
mod Tests
use Prim.Native.String.{String}
use text.Mathlib.Text
use bazaar_compute_node.Prelude.{Bool, true, false, not, Option, none, some, if◌then◌else◌}
use bazaar_compute_node.Prelude.Result.{Result, ok, err}

pub data Mode : Type 0 where
  session dangerous_individual : Mode

-- The two dataclasses of core/actor.py, each with its id.
pub data Actor : Type 0 where
  whole : (agent_id : String) → Actor
  thread : (thread_id : String) → Actor

abbrev pub id_of : Actor → String
id_of (whole i) = i
id_of (thread i) = i

-- `==` of two dataclass values.
unfoldable pub same_actor : Actor → Actor → Bool
same_actor (whole i) (whole j) = Text.◌==◌ i j
same_actor (whole i) (thread j) = false
same_actor (thread i) (whole j) = false
same_actor (thread i) (thread j) = Text.◌==◌ i j

pub record Actors : Type 0 where
  pub agent_id : String
  pub mode : Mode

unfoldable pub for_mode : Mode → String → String → Actor
for_mode session agent_id thread_id = thread thread_id
for_mode dangerous_individual agent_id thread_id = whole agent_id

-- `Actors.for_thread`
unfoldable pub for_thread : Actors → String → Actor
for_thread a thread_id = for_mode a.mode a.agent_id thread_id

-- The one `ValueError` of `resolve`.
pub data UnknownActor : Type 0 where
  unknown_actor : String → UnknownActor

unfoldable pub resolve_mode : Mode → String → String → Result UnknownActor Actor
resolve_mode session agent_id actor_id = ok (thread actor_id)
resolve_mode dangerous_individual agent_id actor_id =
    if not (Text.◌==◌ actor_id agent_id) then err (unknown_actor actor_id) else ok (whole actor_id)

-- `Actors.resolve`
unfoldable pub resolve : Actors → String → Result UnknownActor Actor
resolve a actor_id = resolve_mode a.mode a.agent_id actor_id

-- `State` of core/agent.py.
pub data State : Type 0 where
  init terminated idle working recovering failed : State

pub record Agent : Type 0 where
  pub states : Actor → Option State
  pub lifecycle : State

-- `Agent.__init__`
unfoldable pub new_agent : (Actor → Option State) → Agent
new_agent states = record { states = states; lifecycle = init }

-- `lifecycle is State.IDLE`, and `is State.TERMINATED`
abbrev pub is_idle : State → Bool
is_idle idle = true
is_idle init = false
is_idle terminated = false
is_idle working = false
is_idle recovering = false
is_idle failed = false

abbrev pub is_terminated : State → Bool
is_terminated terminated = true
is_terminated init = false
is_terminated idle = false
is_terminated working = false
is_terminated recovering = false
is_terminated failed = false

-- `dict.get(actor, State.IDLE)`
abbrev pub or_idle : Option State → State
or_idle none = idle
or_idle (some s) = s

-- `Agent.get`
unfoldable pub get : Actor → Agent → State
get a g = if not (is_idle g.lifecycle) then g.lifecycle else or_idle (g.states a)

-- The `RuntimeError` of `started`.
pub data Terminated : Type 0 where
  agent_is_terminated : Terminated

-- `Agent.started`
unfoldable pub started : Agent → Result Terminated Agent
started g =
    if is_terminated g.lifecycle
    then err agent_is_terminated
    else ok (record g { lifecycle = idle })

-- `Agent.terminated`
unfoldable pub terminate : Agent → Agent
terminate g = record g { lifecycle = terminated }

-- `Agent._enter`
unfoldable pub enter : Actor → State → Agent → Agent
enter a s g = record g { states = λ b. if same_actor a b then some s else g.states b }

unfoldable pub started_turn : Actor → Agent → Agent
unfolding enter
started_turn a = enter a working

unfoldable pub finished_turn : Actor → Agent → Agent
unfolding enter
finished_turn a = enter a idle

unfoldable pub lost_runtime : Actor → Agent → Agent
unfolding enter
lost_runtime a = enter a recovering

unfoldable pub refused_runtime : Actor → Agent → Agent
unfolding enter
refused_runtime a = enter a failed
