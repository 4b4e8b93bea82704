-- ===== src/Turn.antt =====
-- bazaar_compute_node/core/models/entities.py and core/orchestration/turn.py: a turn of the runtime and
-- how the events of its stream change it. Audit, log and metadata are left out. `str.casefold` of a
-- character that is not ASCII is a parameter.
pub mod Stream
mod Steps
pub mod Settles
pub mod Endings
mod Tests
use Prim.Native.String.{String}
use text.Mathlib.Text
use bazaar_compute_node.Prelude.{
  ℕ, ◌+◌, Bool, true, false, not, ◌&&◌, ◌||◌, Option, none, some, is_none, List, [], ◌∷◌, ◌++◌, ltb,
  leb, ◌==◌, if◌then◌else◌,
}
use bazaar_compute_node.Prelude.Texts.{codes, or_keep}
use bazaar_compute_node.Prelude.Result.{Result, ok, err}
use bazaar_compute_node.Agent.{Actor, Agent, started_turn, finished_turn, lost_runtime}

-- `RuntimeTurnState`
pub data RuntimeTurnState : Type 0 where
  starting running completed failed cancelled unknown : RuntimeTurnState

-- `RuntimeTurn`
pub record RuntimeTurn : Type 0 where
  pub turn_id : String
  pub session_id : String
  pub state : RuntimeTurnState
  pub started_at_ms : ℕ
  pub provider_turn_id : Option String
  pub client_user_message_id : Option String
  pub completed_at_ms : Option ℕ
  pub latest_event_name : Option String
  pub error_kind : Option String
  pub error_message : Option String

-- The states in which a turn is over.
unfoldable pub is_terminal : RuntimeTurnState → Bool
is_terminal starting = false
is_terminal running = false
is_terminal completed = true
is_terminal failed = true
is_terminal cancelled = true
is_terminal unknown = true

abbrev pub number : RuntimeTurnState → ℕ
number starting = 0
number running = 1
number completed = 2
number failed = 3
number cancelled = 4
number unknown = 5

-- `state is self.state`
unfoldable pub same_state : RuntimeTurnState → RuntimeTurnState → Bool
same_state s t = number s == number t

-- The state, the error and the name of the event that a transition is given.
pub record Transition : Type 0 where
  pub to : RuntimeTurnState
  pub at_ms : ℕ
  pub kind : Option String
  pub message : Option String
  pub event_name : Option String

-- `RuntimeTurn.transition_to`
unfoldable pub transition_to : Transition → RuntimeTurn → RuntimeTurn
transition_to x t = if same_state x.to t.state then t else record t {
  state = x.to;
  completed_at_ms = if is_terminal x.to then some x.at_ms else t.completed_at_ms;
  latest_event_name = or_keep x.event_name t.latest_event_name;
  error_kind = or_keep x.kind t.error_kind;
  error_message = or_keep x.message t.error_message;
}

-- `TurnPayload`: the name of the event, and the kind and the message of an error.
pub data TurnPayload : Type 0 where
  turn_started turn_completed turn_cancelled : String → TurnPayload
  turn_failed : String → String → Option String → TurnPayload
  turn_unknown : String → Option String → Option String → TurnPayload

unfoldable pub name_of : TurnPayload → String
name_of (turn_started name) = name
name_of (turn_completed name) = name
name_of (turn_cancelled name) = name
name_of (turn_failed name kind message) = name
name_of (turn_unknown name kind message) = name

-- `RuntimeEventState`
pub data RuntimeEventState : Type 0 where
  event_started event_completed event_failed event_cancelled event_unknown : RuntimeEventState

unfoldable pub event_state : TurnPayload → RuntimeEventState
event_state (turn_started name) = event_started
event_state (turn_completed name) = event_completed
event_state (turn_cancelled name) = event_cancelled
event_state (turn_failed name kind message) = event_failed
event_state (turn_unknown name kind message) = event_unknown

-- `_EVENTS[state].turn_state`
unfoldable pub turn_state : RuntimeEventState → RuntimeTurnState
turn_state event_started = running
turn_state event_completed = completed
turn_state event_failed = failed
turn_state event_cancelled = cancelled
turn_state event_unknown = unknown

-- `_EVENTS[state].advance`
unfoldable pub advance_of : RuntimeEventState → Actor → Agent → Agent
advance_of event_started = started_turn
advance_of event_completed = finished_turn
advance_of event_failed = finished_turn
advance_of event_cancelled = finished_turn
advance_of event_unknown = lost_runtime

unfoldable pub is_bad : RuntimeEventState → Bool
is_bad event_started = false
is_bad event_completed = false
is_bad event_failed = true
is_bad event_cancelled = false
is_bad event_unknown = true

-- The error kind and message that an event brings.
unfoldable pub kind_of : TurnPayload → Option String
kind_of (turn_started name) = none
kind_of (turn_completed name) = none
kind_of (turn_cancelled name) = some "cancelled"
kind_of (turn_failed name kind message) = some kind
kind_of (turn_unknown name none message) = some "provider_unknown"
kind_of (turn_unknown name (some kind) message) = some kind

unfoldable pub message_of : TurnPayload → Option String
message_of (turn_started name) = none
message_of (turn_completed name) = none
message_of (turn_cancelled name) = none
message_of (turn_failed name kind message) = message
message_of (turn_unknown name kind message) = message

-- `_with_a_reason`
unfoldable pub with_a_reason : TurnPayload → TurnPayload
with_a_reason (turn_started name) = turn_started name
with_a_reason (turn_completed name) = turn_completed name
with_a_reason (turn_cancelled name) = turn_cancelled name
with_a_reason (turn_failed name kind none) = turn_failed name kind (some "Turn failed")
with_a_reason (turn_failed name kind (some message)) = turn_failed name kind (some message)
with_a_reason (turn_unknown name kind none) =
    turn_unknown name kind (some "Turn outcome is unknown")
with_a_reason (turn_unknown name kind (some message)) = turn_unknown name kind (some message)

-- Whether `part` begins `s`, and whether it occurs in it.
unfoldable pub begins : List ℕ → List ℕ → Bool
begins [] s = true
begins (c ∷ cs) [] = false
begins (c ∷ cs) (d ∷ ds) = c == d && begins cs ds

unfoldable pub occurs : List ℕ → List ℕ → Bool
occurs part [] = begins part []
occurs part (c ∷ cs) = begins part (c ∷ cs) || occurs part cs

module _ (fold : ℕ → List ℕ) where
  -- `str.casefold`, one character after another.
  unfoldable pub casefold : List ℕ → List ℕ
  casefold [] = []
  casefold (c ∷ cs) =
      (if leb 128 c then fold c else if leb 65 c && leb c 90 then (c + 32) ∷ [] else c ∷ [])
      ++ casefold cs

  -- `_is_turn_event`
  unfoldable pub is_turn_event : String → Bool
  is_turn_event name = occurs (codes "turn") (casefold (codes name))

  unfoldable pub is_error_event : String → Bool
  is_error_event name = occurs (codes "error") (casefold (codes name))

  -- `_runtime_event_advance`
  unfoldable pub runtime_event_advance : TurnPayload → Actor → Agent → Agent
  runtime_event_advance p =
      if is_turn_event (name_of p)
      then advance_of (event_state p)
      else if is_bad (event_state p) || is_error_event (name_of p)
      then lost_runtime
      else started_turn

  -- `_is_terminal_turn_event`
  unfoldable pub is_terminal_turn_event : TurnPayload → Bool
  is_terminal_turn_event (turn_started name) = false
  is_terminal_turn_event (turn_completed name) = is_turn_event name
  is_terminal_turn_event (turn_cancelled name) = is_turn_event name
  is_terminal_turn_event (turn_failed name kind message) = is_turn_event name
  is_terminal_turn_event (turn_unknown name kind message) = is_turn_event name
