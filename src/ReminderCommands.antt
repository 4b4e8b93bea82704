-- ===== src/ReminderCommands.antt =====
-- bazaar_compute_node/core/orchestration/commands/reminders.py, with the writes of its commands in
-- contrib/sqlite/repository/reminders.py. The audit is left out, and with it the second look for the
-- anchor. Ids are canonical already, as the requests make them. A command looks for the reminder,
-- waits for its conversation, and reads it again; what others do in between is `meanwhile`. While the
-- conversation is held nobody else changes its reminders.
mod Writes
mod Requests
pub mod Runs
pub mod Create
mod Created
mod Tests
use Prim.Native.String.{String}
use text.Mathlib.Text
use bazaar_compute_node.Prelude.{
  ℕ, ◌+◌, Bool, true, false, not, ◌&&◌, ◌||◌, Option, none, some, is_none, List, [], ◌∷◌, ltb, ◌==◌,
  if◌then◌else◌,
}
use bazaar_compute_node.Prelude.Result.{Result, ok, err}
use bazaar_compute_node.Agent.{Actor, whole, thread}
use bazaar_compute_node.Reminder.{
  Reminder, ReminderState, scheduled, fired, canceled, ReminderError, is_scheduled, snooze,
  update_title, update_next_fire, update_cadence, cancel,
}
use bazaar_compute_node.Scheduler.{Key, Store, update_row}

-- The store, the conversations that it lists, those it knows, and how often the scheduler has been poked.
pub record Node : Type 0 where
  pub store : Store
  pub thread_ids : List String
  pub has_thread : String → Bool
  pub pokes : ℕ

-- `threads_in_reach` of core/orchestration/services.py.
unfoldable pub threads_in_reach : Actor → Node → List String
threads_in_reach (whole i) n = n.thread_ids
threads_in_reach (thread i) n = i ∷ []

-- The `ValueError`s of `save_reminder_transition`.
pub data TransitionError : Type 0 where
  unknown_reminder revision_conflict identity_changed revision_skips : TransitionError
  updated_backwards history_changed canceled_moves : TransitionError
  fires_without_message fired_moves : TransitionError

-- `ReminderCommandFailure` by its code, the `AssertionError`, and what the store raises.
pub data CommandFailure : Type 0 where
  reminder_not_found reminder_not_scheduled reminder_update_failed no_field : CommandFailure
  refused : TransitionError → CommandFailure

-- `_validate_reminder_identity`
unfoldable pub keeps_identity : Reminder → Reminder → Bool
keeps_identity existing incoming =
    Text.◌==◌ existing.reminder_id incoming.reminder_id
    && Text.◌==◌ existing.owner_thread_id incoming.owner_thread_id
    && Text.◌==◌ existing.anchor_message_id incoming.anchor_message_id
    && Text.◌==◌ existing.timezone incoming.timezone
    && existing.created_at_ms == incoming.created_at_ms

abbrev pub same_time : Option ℕ → Option ℕ → Bool
same_time none none = true
same_time none (some j) = false
same_time (some i) none = false
same_time (some i) (some j) = i == j

-- The checks on the two states.
unfoldable pub state_error : ReminderState → ReminderState → Option TransitionError
state_error canceled incoming = some canceled_moves
state_error fired scheduled = none
state_error fired fired = some fires_without_message
state_error fired canceled = some fired_moves
state_error scheduled scheduled = none
state_error scheduled fired = some fires_without_message
state_error scheduled canceled = none

-- The checks over the row that is there.
unfoldable pub transition_error : Reminder → ℕ → Reminder → Option TransitionError
transition_error existing expected incoming =
    if not (existing.revision == expected)
    then some revision_conflict
    else if not (keeps_identity existing incoming)
    then some identity_changed
    else if not (incoming.revision == expected + 1)
    then some revision_skips
    else if ltb incoming.updated_at_ms existing.updated_at_ms
    then some updated_backwards
    else if not (incoming.last_occurrence_no == existing.last_occurrence_no)
        || not (same_time incoming.last_fired_at_ms existing.last_fired_at_ms)
    then some history_changed
    else state_error existing.state incoming.state

abbrev pub reminder_key : String → String → String → Key
reminder_key agent_id owner_id reminder_id = record {
  agent_id = agent_id;
  owner_thread_id = owner_id;
  reminder_id = reminder_id;
}

unfoldable pub write_or :
    Option TransitionError → Key → Reminder → Store → Result TransitionError Reminder × Store
write_or none k incoming s = (ok incoming, update_row k incoming s)
write_or (some e) k incoming s = (err e, s)

unfoldable pub write_over :
    Option Reminder → ℕ → Key → Reminder → Store → Result TransitionError Reminder × Store
write_over none expected k incoming s = (err unknown_reminder, s)
write_over (some existing) expected k incoming s =
    write_or (transition_error existing expected incoming) k incoming s

-- `save_reminder_transition`
unfoldable pub save_reminder_transition :
    String → ℕ → Reminder → Store → Result TransitionError Reminder × Store
save_reminder_transition agent_id expected incoming s =
    let k = reminder_key agent_id incoming.owner_thread_id incoming.reminder_id in
    write_over (s.reminders k) expected k incoming s

-- The three requests that change a reminder, with their ids.
pub data ChangeRequest : Type 0 where
  snooze_request : (reminder_id : String) → (duration_ms evaluated_at_ms : ℕ) → ChangeRequest
  update_request :
      (reminder_id : String)
      → (evaluated_at_ms : ℕ) → (title : Option String) → (next_fire_at_ms : Option ℕ)
      → (repeat_rule : Option String) → ChangeRequest
  cancel_request : (reminder_id : String) → (evaluated_at_ms : ℕ) → ChangeRequest

abbrev pub requested_id : ChangeRequest → String
requested_id (snooze_request i d t) = i
requested_id (update_request i t title next rule) = i
requested_id (cancel_request i t) = i

-- `except ValueError`
unfoldable pub or_fail :
    CommandFailure → Result ReminderError Reminder → Result CommandFailure Reminder
or_fail f (ok r) = ok r
or_fail f (err e) = err f

-- The one field that `update_reminder` takes.
unfoldable pub update_field :
    Option String → Option ℕ → Option String → ℕ → Reminder → Result CommandFailure Reminder
update_field (some title) next rule t r = or_fail reminder_update_failed (update_title title t r)
update_field none (some next) rule t r = or_fail reminder_update_failed (update_next_fire next t r)
update_field none none (some rule) t r = or_fail reminder_update_failed (update_cadence rule t r)
update_field none none none t r = err no_field

-- What each command makes of the reminder that it holds.
unfoldable pub updated_reminder : ChangeRequest → Reminder → Result CommandFailure Reminder
updated_reminder (snooze_request i d t) r = or_fail reminder_not_scheduled (snooze d t r)
updated_reminder (update_request i t title next rule) r =
    if not (is_scheduled r.state)
    then err reminder_update_failed
    else update_field title next rule t r
updated_reminder (cancel_request i t) r =
    if not (is_scheduled r.state)
    then err reminder_not_scheduled
    else or_fail reminder_not_scheduled (cancel t r)

-- How a command ends.
abbrev pub ChangeEnd : Type 0
ChangeEnd = Result CommandFailure Reminder × Node

-- The answer of the store, and the poke where it is good.
unfoldable pub answer : Result TransitionError Reminder × Store → Node → ChangeEnd
answer (ok r, s) n = (ok r, record n { store = s; pokes = n.pokes + 1 })
answer (err e, s) n = (err (refused e), record n { store = s })

unfoldable pub save_updated : String → ℕ → Result CommandFailure Reminder → Node → ChangeEnd
save_updated agent_id expected (err f) n = (err f, n)
save_updated agent_id expected (ok r) n =
    answer (save_reminder_transition agent_id expected r n.store) n

-- From `_held_reminder` on.
unfoldable pub change_held : String → ChangeRequest → Option Reminder → Node → ChangeEnd
change_held agent_id q none n = (err reminder_not_found, n)
change_held agent_id q (some r) n = save_updated agent_id r.revision (updated_reminder q r) n

unfoldable pub owner_or : Option Reminder → String → Option String → Option String
owner_or none owner_id later = later
owner_or (some r) owner_id later = some owner_id

-- `_resolve_reminder`: the first conversation that has it.
unfoldable pub resolve_reminder : String → String → List String → Store → Option String
resolve_reminder agent_id reminder_id [] s = none
resolve_reminder agent_id reminder_id (t ∷ ts) s =
    owner_or (s.reminders (reminder_key agent_id t reminder_id)) t
      (resolve_reminder agent_id reminder_id ts s)

unfoldable pub change_in : String → ChangeRequest → (Node → Node) → Option String → Node → ChangeEnd
change_in agent_id q meanwhile none n = (err reminder_not_found, n)
change_in agent_id q meanwhile (some owner_id) n =
    let held = meanwhile n in
    change_held agent_id q (held.store.reminders (reminder_key agent_id owner_id (requested_id q)))
      held

-- `snooze_reminder`, `update_reminder` and `cancel_reminder`
unfoldable pub change_reminder : String → Actor → ChangeRequest → (Node → Node) → Node → ChangeEnd
change_reminder agent_id actor q meanwhile n =
    change_in agent_id q meanwhile
      (resolve_reminder agent_id (requested_id q) (threads_in_reach actor n) n.store) n
