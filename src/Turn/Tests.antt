-- ===== src/Turn/Tests.antt =====
-- Streams of a turn: one that completes, one that breaks off, one of another actor.
use bazaar_compute_node.Prelude.{ℕ, ◌≡◌, refl, true, false, none, some, List, [], ◌∷◌}
use bazaar_compute_node.Agent.{Actor, thread, idle, working, same_actor}
use bazaar_compute_node.Turn.{
  RuntimeTurn, starting, completed, failed, is_terminal, TurnPayload, turn_started, turn_completed,
  turn_failed, is_turn_event, casefold, occurs, begins, transition_to, same_state, name_of,
  event_state, turn_state, kind_of, message_of, with_a_reason, is_terminal_turn_event,
}
use bazaar_compute_node.Prelude.Texts.{or_keep, append}
use bazaar_compute_node.Turn.Stream.{
  Event, turn_event, Coordinator, ends, raises, consume_turn_stream, consume_events, on_payload,
  after_event, forward, is_withheld, apply_runtime_event, updated_turn, with_provider,
  provider_error, unless, settle, finish_turn, set_turn, finish_state, handled, tried, turn_of,
  after_await, raise_again, audited, Awaits, goes_on, stops, returns, show, terminal_payload,
}
use bazaar_compute_node.Turn.Settles.{Rests, consume_turn_stream-Settled}
use bazaar_compute_node.Turn.Endings.{Hears, endings, calm, consume_turn_stream-Told}

-- Characters that are not ASCII stay as they are.
abbrev ascii : ℕ → List ℕ
ascii c = c ∷ []

abbrev owner : Actor
owner = thread "t"

abbrev turn : RuntimeTurn
turn = record {
  turn_id = "u";
  session_id = "s";
  state = starting;
  started_at_ms = 5;
  provider_turn_id = none;
  client_user_message_id = none;
  completed_at_ms = none;
  latest_event_name = none;
  error_kind = none;
  error_message = none;
}

abbrev coordinator : Coordinator
coordinator = record {
  turns = λ i. some turn;
  agent = record { states = λ a. some working; lifecycle = idle };
  shown = [];
}

abbrev event_of : Actor → ℕ → TurnPayload → Event
event_of a at p = record {
  envelope = record { actor = a; turn_id = "u"; provider_turn_id = some "p"; occurred_at_ms = at };
  payload = turn_event p;
  audit = goes_on;
}

-- An event of another actor stands in between.
abbrev whole_stream : List Event
whole_stream =
    event_of owner 6 (turn_started "Turn/started")
    ∷ event_of (thread "x") 7 (turn_failed "turn/failed" "k" none)
    ∷ event_of owner 8 (turn_completed "turn/completed")
    ∷ []

abbrev broken_stream : List Event
broken_stream = event_of owner 6 (turn_started "turn/started") ∷ []

whole_completes :
    (consume_turn_stream ascii owner true 20 calm whole_stream ends turn coordinator).0
    ≡ returns (record turn {
      state = completed;
      provider_turn_id = some "p";
      completed_at_ms = some 8;
      latest_event_name = some "turn/completed";
    })
unfolding consume_turn_stream consume_events on_payload after_event forward is_withheld
    apply_runtime_event updated_turn with_provider provider_error unless settle handled tried
    turn_of after_await audited is_turn_event casefold occurs begins transition_to same_state
    name_of event_state turn_state kind_of message_of with_a_reason is_terminal_turn_event or_keep
    is_terminal same_actor
whole_completes = refl

-- The turn that breaks off has lost what its events told: the coordinator still holds the turn that it
-- was called with.
broken_fails :
    (consume_turn_stream ascii owner false 20 calm broken_stream
      (raises "OSError")
      turn
      coordinator).0
    ≡ returns (record turn {
      state = failed;
      completed_at_ms = some 20;
      error_kind = some "provider_failed";
      error_message = some "runtime turn failed: OSError";
    })
unfolding consume_turn_stream consume_events on_payload after_event forward is_withheld
    apply_runtime_event updated_turn with_provider provider_error unless settle handled tried
    turn_of after_await audited is_turn_event casefold occurs begins transition_to same_state
    name_of event_state turn_state kind_of message_of with_a_reason is_terminal_turn_event or_keep
    is_terminal same_actor finish_turn finish_state append
broken_fails = refl

-- A stream that runs out, and a task that is cancelled in the audit of the ending: the handler ends
-- the turn again, and the channel is told twice.
abbrev cut_short : Awaits
cut_short = record calm { audit = stops }

told_twice :
    endings ascii
      (consume_turn_stream ascii owner false 20 cut_short [] ends turn coordinator).1.shown
    ≡ 2
unfolding consume_turn_stream consume_events settle handled tried turn_of after_await raise_again
    finish_turn finish_state set_turn show is_terminal endings is_terminal_turn_event is_turn_event
    casefold occurs begins terminal_payload
told_twice = refl

still_runs : is_terminal turn.state ≡ false
unfolding is_terminal
still_runs = refl

consume_turn_stream-Settled_example :
    Rests ascii "u" owner
      (consume_turn_stream ascii owner true 20 cut_short whole_stream ends turn coordinator)
consume_turn_stream-Settled_example =
    consume_turn_stream-Settled ascii owner true 20 cut_short whole_stream ends turn coordinator
      refl refl still_runs

consume_turn_stream-Told_example : Hears ascii false (endings ascii []) (
    consume_turn_stream ascii owner false 20 calm broken_stream (raises "OSError") turn coordinator)
consume_turn_stream-Told_example =
    consume_turn_stream-Told ascii owner false 20 broken_stream (raises "OSError") turn coordinator
      still_runs
