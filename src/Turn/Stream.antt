-- ===== src/Turn/Stream.antt =====
-- bazaar_compute_node/core/orchestration/turn.py: how the stream of a turn is read to its end. What the
-- coordinator keeps is its dict of the turns that run, the agent, and what it has given to the channel,
-- once for each event (the threads that follow a turn are left out). The clock of an ending is an
-- argument. A task may be cancelled, and another exception raised, where it waits: for the stream, for
-- the audit, for the lock of an ending, and for the stream to be closed.
use Prim.Native.String.{String}
use text.Mathlib.Text
use bazaar_compute_node.Prelude.{
  ℕ, Bool, true, false, not, ◌&&◌, Option, none, some, List, [], ◌∷◌, if◌then◌else◌,
}
use bazaar_compute_node.Prelude.Texts.{append}
use bazaar_compute_node.Prelude.Result.{Result, ok, err}
use bazaar_compute_node.Agent.{Actor, same_actor, Agent, finished_turn, lost_runtime}
use bazaar_compute_node.Turn.{
  RuntimeTurnState, starting, running, completed, failed, cancelled, unknown, RuntimeTurn,
  is_terminal, transition_to, TurnPayload, turn_started, turn_completed, turn_failed,
  turn_cancelled, turn_unknown, name_of, event_state, turn_state, kind_of, message_of,
  with_a_reason, is_turn_event, runtime_event_advance, is_terminal_turn_event,
}

-- `RuntimeEventEnvelope`
pub record Envelope : Type 0 where
  pub actor : Actor
  pub turn_id : String
  pub provider_turn_id : Option String
  pub occurred_at_ms : ℕ

-- An event of the turn, or another one, which is only shown.
pub data Payload : Type 0 where
  turn_event : TurnPayload → Payload
  other_event : ℕ → Payload

-- What an `await` comes to: it goes on, raises an exception by the name of its type, or the task is
-- cancelled in it.
pub data Await : Type 0 where
  goes_on : Await
  throws : String → Await
  stops : Await

-- `RuntimeOutputEvent`, with what the await of its audit comes to; it goes on where there is none.
pub record Event : Type 0 where
  pub envelope : Envelope
  pub payload : Payload
  pub audit : Await

pub record Coordinator : Type 0 where
  pub turns : String → Option RuntimeTurn
  pub agent : Agent
  pub shown : List Payload

-- `self._turns[turn_id] = turn`, and `self._turns.pop(turn_id, None)` with `none`.
unfoldable pub set_turn : String → Option RuntimeTurn → Coordinator → Coordinator
set_turn turn_id o c = record c { turns = λ i. if Text.◌==◌ turn_id i then o else c.turns i }

-- `_forward`, and the end of `_notify_channel_terminal`.
unfoldable pub show : Payload → Coordinator → Coordinator
show p c = record c { shown = p ∷ c.shown }

-- The `ValueError`s of `_apply_runtime_event`.
pub data TurnError : Type 0 where
  turn_mismatch provider_turn_invalid provider_turn_mismatch : TurnError

-- `_TERMINALS[state].payload`. The states in which a turn is not over are no keys of `_TERMINALS`;
-- nothing ends a turn with one.
unfoldable pub terminal_payload : RuntimeTurnState → Option String → Option String → TurnPayload
terminal_payload completed kind message = turn_completed "bcn.turn.completed"
terminal_payload cancelled kind message = turn_cancelled "bcn.turn.cancelled"
terminal_payload failed none message = turn_failed "bcn.turn.failed" "provider_failed" message
terminal_payload failed (some kind) message = turn_failed "bcn.turn.failed" kind message
terminal_payload unknown kind message = turn_unknown "bcn.turn.unknown" kind message
terminal_payload starting kind message = turn_unknown "bcn.turn.unknown" kind message
terminal_payload running kind message = turn_unknown "bcn.turn.unknown" kind message

-- `_TERMINALS[state].advance`
unfoldable pub terminal_advance : RuntimeTurnState → Actor → Agent → Agent
terminal_advance completed = finished_turn
terminal_advance cancelled = finished_turn
terminal_advance failed = finished_turn
terminal_advance unknown = lost_runtime
terminal_advance starting = lost_runtime
terminal_advance running = lost_runtime

-- `_TERMINALS[state].retryable`
unfoldable pub is_retryable : RuntimeTurnState → Bool
is_retryable completed = false
is_retryable cancelled = false
is_retryable failed = true
is_retryable unknown = true
is_retryable starting = false
is_retryable running = false

-- How a turn is ended that has not ended by itself.
pub record Finish : Type 0 where
  pub state : RuntimeTurnState
  pub kind : Option String
  pub message : Option String

-- What `finish_turn` does before its audit.
unfoldable pub finish_state :
    RuntimeTurn → Finish → Actor → Bool → ℕ → Coordinator → RuntimeTurn × Coordinator
finish_state turn f actor retry now c =
    let current =
      transition_to
        (record {
          to = f.state;
          at_ms = now;
          kind = f.kind;
          message = f.message;
          event_name = none;
        })
        turn in
    let popped = set_turn turn.turn_id none c in
    let ended = record popped { agent = terminal_advance f.state actor c.agent } in
    if is_terminal turn.state
    then (turn, c)
    else if retry && is_retryable f.state
    then (current, ended)
    else (current, show (turn_event (terminal_payload f.state f.kind f.message)) ended)

-- How a call ends: it returns the turn, raises an exception by the name of its type, or
-- `CancelledError`.
pub data Exit : Type 0 where
  returns : RuntimeTurn → Exit
  throws_out : String → Exit
  cancels_out : Exit

-- What follows an `await`, over the state that the await leaves.
unfoldable pub after_await : Await → Exit × Coordinator → Coordinator → Exit × Coordinator
after_await goes_on r c = r
after_await (throws name) r c = (throws_out name, c)
after_await stops r c = (cancels_out, c)

-- `finish_turn`, with what the awaits of its lock and of its audit come to. A turn that is over is not
-- audited.
unfoldable pub finish_turn :
    RuntimeTurn → Finish → Actor → Bool → ℕ → Await → Await → Coordinator → Exit × Coordinator
finish_turn turn f actor retry now lock audit c =
    let (current, ended) = finish_state turn f actor retry now c in
    after_await lock
      (after_await (if is_terminal turn.state then goes_on else audit) (returns current, ended)
        ended)
      c

-- The checks of the provider's id of a turn.
unfoldable pub provider_error : Option String → Option String → Option TurnError
provider_error none held = none
provider_error (some String.[]) held = some provider_turn_invalid
provider_error (some (String.◌∷◌ c s)) none = none
provider_error (some (String.◌∷◌ c s)) (some held) =
    if Text.◌==◌ held (String.◌∷◌ c s) then none else some provider_turn_mismatch

-- A value, unless there is an error.
unfoldable pub unless : {A : Type 0} → Option TurnError → A → Result TurnError A
unless none a = ok a
unless (some x) a = err x

unfoldable pub with_provider : Option String → RuntimeTurn → RuntimeTurn
with_provider none t = t
with_provider (some i) t = record t { provider_turn_id = some i }

-- What the read of a stream has come to: a terminal event, its end, an exception by the name of its
-- type, or the cancellation of the task.
pub data Consumed : Type 0 where
  reached : RuntimeTurn → Coordinator → Consumed
  exhausted : RuntimeTurn → Coordinator → Consumed
  raised : String → Coordinator → Consumed
  interrupted : Coordinator → Consumed

-- What follows the last event of a stream.
pub data Ending : Type 0 where
  ends : Ending
  raises : String → Ending
  is_cancelled : Ending

-- What the awaits of `_consume_turn_stream` come to, but for those of the events: the lock and the
-- audit of the ending in the `try`, the stream closed in a handler, the lock and the audit of the
-- ending there, and the stream closed in the end.
pub record Awaits : Type 0 where
  pub lock : Await
  pub audit : Await
  pub first_close : Await
  pub handler_lock : Await
  pub handler_audit : Await
  pub last_close : Await

-- The endings of `_consume_turn_stream`.
abbrev pub unfinished : Finish
unfinished = record {
  state = unknown;
  kind = some "provider_unknown";
  message = some "runtime stream ended without a terminal event";
}

abbrev pub broken : String → Finish
broken name = record {
  state = failed;
  kind = some "provider_failed";
  message = some (append "runtime turn failed: " name);
}

abbrev pub stopped : Finish
stopped = record {
  state = cancelled;
  kind = some "cancelled";
  message = some "runtime turn cancelled";
}

module _ (fold : ℕ → List ℕ) where
  unfoldable pub updated_turn : Envelope → TurnPayload → RuntimeTurn → RuntimeTurn
  updated_turn e p turn = with_provider e.provider_turn_id (
      transition_to
        (record {
          to = if is_turn_event fold (name_of p) then turn_state (event_state p) else turn.state;
          at_ms = e.occurred_at_ms;
          kind = kind_of p;
          message = message_of p;
          event_name = some (name_of p);
        })
        turn)

  -- `_apply_runtime_event`
  unfoldable pub apply_runtime_event :
      Actor
      → Envelope
      → TurnPayload
      → RuntimeTurn
      → Coordinator
      → Result TurnError (RuntimeTurn × Coordinator)
  apply_runtime_event actor e p turn c =
      let updated = updated_turn e p turn in
      let kept =
        set_turn turn.turn_id (if is_terminal_turn_event fold p then none else some updated) c in
      if not (Text.◌==◌ e.turn_id turn.turn_id)
      then err turn_mismatch
      else unless (provider_error e.provider_turn_id turn.provider_turn_id)
          (updated, record kept { agent = runtime_event_advance fold p actor c.agent })

  -- Whether an event of the turn is held back from the channel.
  unfoldable pub is_withheld : Bool → TurnPayload → Bool
  is_withheld retry (turn_started name) = false
  is_withheld retry (turn_completed name) = false
  is_withheld retry (turn_cancelled name) = false
  is_withheld retry (turn_failed name kind message) = retry
  is_withheld retry (turn_unknown name kind message) = true

  unfoldable pub forward : Bool → TurnPayload → Coordinator → Coordinator
  forward retry p c = if is_withheld retry p then c else show (turn_event p) c

  -- What follows the audit of an event.
  unfoldable pub audited : Await → Coordinator → Consumed → Consumed
  audited goes_on c r = r
  audited (throws name) c r = raised name c
  audited stops c r = interrupted c

  -- What follows an event of the turn that has been applied; `rest` reads on.
  unfoldable pub after_event :
      Bool
      → TurnPayload
      → Await
      → Result TurnError (RuntimeTurn × Coordinator)
      → (RuntimeTurn → Coordinator → Consumed)
      → Coordinator
      → Consumed
  after_event retry p audit (err x) rest c = raised "ValueError" c
  after_event retry p audit (ok (turn, next)) rest c = audited audit next (
      if is_terminal_turn_event fold p
      then reached turn (forward retry p next)
      else rest turn (forward retry p next))

  unfoldable pub on_payload :
      Actor
      → Bool
      → Envelope
      → Payload
      → Await
      → (RuntimeTurn → Coordinator → Consumed)
      → RuntimeTurn
      → Coordinator
      → Consumed
  on_payload actor retry e (other_event n) audit rest turn c =
      audited audit c (rest turn (show (other_event n) c))
  on_payload actor retry e (turn_event p) audit rest turn c =
      after_event retry (with_a_reason p) audit
        (apply_runtime_event actor e (with_a_reason p) turn c) rest c

  -- `_consume_events`
  unfoldable pub consume_events :
      Actor → Bool → List Event → Ending → RuntimeTurn → Coordinator → Consumed
  consume_events actor retry [] ends turn c = exhausted turn c
  consume_events actor retry [] (raises name) turn c = raised name c
  consume_events actor retry [] is_cancelled turn c = interrupted c
  consume_events actor retry (event ∷ events) ending turn c =
      let rest = consume_events actor retry events ending in
      if not (same_actor event.envelope.actor actor)
      then rest turn c
      else on_payload actor retry event.envelope event.payload event.audit rest turn c

  -- What `turn` is when a handler is entered: an exception in the read of the stream leaves it as it
  -- was.
  unfoldable pub turn_of : RuntimeTurn → Consumed → RuntimeTurn
  turn_of turn (reached last c) = last
  turn_of turn (exhausted last c) = last
  turn_of turn (raised name c) = turn
  turn_of turn (interrupted c) = turn

  -- The end of the `try`.
  unfoldable pub tried : Actor → Bool → ℕ → Awaits → Consumed → Exit × Coordinator
  tried actor retry now a (reached last c) = (returns last, c)
  tried actor retry now a (exhausted last c) =
      finish_turn last unfinished actor retry now a.lock a.audit c
  tried actor retry now a (raised name c) = (throws_out name, c)
  tried actor retry now a (interrupted c) = (cancels_out, c)

  -- `raise` at the end of a handler.
  unfoldable pub raise_again : Exit × Coordinator → Exit × Coordinator
  raise_again (returns t, c) = (cancels_out, c)
  raise_again (throws_out name, c) = (throws_out name, c)
  raise_again (cancels_out, c) = (cancels_out, c)

  -- The two handlers.
  unfoldable pub handled :
      Actor → Bool → ℕ → Awaits → RuntimeTurn → Exit × Coordinator → Exit × Coordinator
  handled actor retry now a turn (returns t, c) = (returns t, c)
  handled actor retry now a turn (throws_out name, c) =
      after_await a.first_close
        (finish_turn turn (broken name) actor retry now a.handler_lock a.handler_audit c) c
  handled actor retry now a turn (cancels_out, c) =
      after_await a.first_close
        (raise_again (finish_turn turn stopped actor false now a.handler_lock a.handler_audit c)) c

  -- The rest of `_consume_turn_stream`, with the `finally`.
  unfoldable pub settle : Actor → Bool → ℕ → Awaits → RuntimeTurn → Consumed → Exit × Coordinator
  settle actor retry now a turn r =
      let done = handled actor retry now a (turn_of turn r) (tried actor retry now a r) in
      after_await a.last_close done done.1

  -- `_consume_turn_stream`
  unfoldable pub consume_turn_stream :
      Actor
      → Bool
      → ℕ
      → Awaits
      → List Event
      → Ending
      → RuntimeTurn
      → Coordinator
      → Exit × Coordinator
  consume_turn_stream actor retry now a events ending turn c =
      settle actor retry now a turn (consume_events actor retry events ending turn c)
