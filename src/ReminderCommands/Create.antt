-- ===== src/ReminderCommands/Create.antt =====
-- bazaar_compute_node/core/orchestration/commands/reminders.py, `schedule_reminder`, and
-- contrib/sqlite/repository/reminders.py, `save_new_reminder`. The id of the new row is a parameter;
-- uuid7 gives no id twice, so that the row is a new one.
use Prim.Native.String.{String}
use bazaar_compute_node.Prelude.{
  ℕ, ◌+◌, not, ◌||◌, Option, none, some, is_none, is_some, List, [], ◌∷◌, ◌==◌, if◌then◌else◌,
}
use bazaar_compute_node.Prelude.Result.{Result, ok, err}
use bazaar_compute_node.Agent.{Actor}
use bazaar_compute_node.Reminder.{Reminder, ReminderError, scheduled, is_scheduled, construct}
use bazaar_compute_node.Scheduler.{Anchor, Store, update_row}
use bazaar_compute_node.ReminderCommands.{Node, threads_in_reach, reminder_key}

-- `ReminderScheduleRequest`
pub record ScheduleRequest : Type 0 where
  pub title : String
  pub message_id : String
  pub next_fire_at_ms : ℕ
  pub repeat_rule : Option String
  pub timezone : String

-- The `ValueError`s of `save_new_reminder`.
pub data NewError : Type 0 where
  not_scheduled_first not_first_revision has_history unknown_thread foreign_anchor : NewError

-- What `schedule_reminder` raises: its own failure, and those of the reminder and of the store.
pub data ScheduleFailure : Type 0 where
  anchor_not_found : ScheduleFailure
  not_a_reminder : ReminderError → ScheduleFailure
  not_saved : NewError → ScheduleFailure

unfoldable pub thread_or : Option Anchor → String → Option String → Option String
thread_or none thread_id later = later
thread_or (some a) thread_id later = some thread_id

-- `_resolve_anchor`
unfoldable pub resolve_anchor : String → String → List String → Store → Option String
resolve_anchor agent_id message_id [] s = none
resolve_anchor agent_id message_id (t ∷ ts) s =
    thread_or (s.inbound agent_id t message_id) t (resolve_anchor agent_id message_id ts s)

-- The fields of the new reminder.
unfoldable pub new_reminder : String → ScheduleRequest → ℕ → String → Reminder
new_reminder owner_id q now reminder_id = record {
  reminder_id = reminder_id;
  owner_thread_id = owner_id;
  anchor_message_id = q.message_id;
  title = q.title;
  state = scheduled;
  next_fire_at_ms = some q.next_fire_at_ms;
  repeat_rule = q.repeat_rule;
  timezone = q.timezone;
  revision = 1;
  last_occurrence_no = 0;
  created_at_ms = now;
  updated_at_ms = now;
  last_fired_at_ms = none;
  canceled_at_ms = none;
}

-- The checks of `save_new_reminder`.
unfoldable pub new_error : String → Reminder → Node → Option NewError
new_error agent_id r n =
    if not (is_scheduled r.state)
    then some not_scheduled_first
    else if not (r.revision == 1) || not (r.last_occurrence_no == 0)
    then some not_first_revision
    else if is_some r.last_fired_at_ms || is_some r.canceled_at_ms
    then some has_history
    else if not (n.has_thread r.owner_thread_id)
    then some unknown_thread
    else if is_none (n.store.inbound agent_id r.owner_thread_id r.anchor_message_id)
    then some foreign_anchor
    else none

-- How `schedule_reminder` ends.
abbrev pub Creation : Type 0
Creation = Result ScheduleFailure Reminder × Node

-- The `INSERT`, and the poke after it.
unfoldable pub insert_row : String → Result ReminderError Reminder → Node → Creation
insert_row agent_id (err e) n = (err (not_a_reminder e), n)
insert_row agent_id (ok r) n = (
  ok r,
  record n {
    store = update_row (reminder_key agent_id r.owner_thread_id r.reminder_id) r n.store;
    pokes = n.pokes + 1;
  },
)

unfoldable pub save_checked : Option NewError → String → String → Reminder → Node → Creation
save_checked (some e) agent_id new_id r n = (err (not_saved e), n)
save_checked none agent_id new_id r n =
    insert_row agent_id (construct (record r { reminder_id = new_id })) n

-- `save_new_reminder`
unfoldable pub save_new_reminder : String → String → Result ReminderError Reminder → Node → Creation
save_new_reminder agent_id new_id (err e) n = (err (not_a_reminder e), n)
save_new_reminder agent_id new_id (ok r) n =
    save_checked (new_error agent_id r n) agent_id new_id r n

unfoldable pub schedule_in :
    String → ScheduleRequest → String → ℕ → (Node → Node) → Option String → Node → Creation
schedule_in agent_id q new_id now meanwhile none n = (err anchor_not_found, n)
schedule_in agent_id q new_id now meanwhile (some owner_id) n =
    save_new_reminder agent_id new_id (construct (new_reminder owner_id q now "pending"))
      (meanwhile n)

-- `schedule_reminder`, with the time that the clock gives once the conversation is held.
unfoldable pub schedule_reminder :
    String → Actor → ScheduleRequest → String → ℕ → (Node → Node) → Node → Creation
schedule_reminder agent_id actor q new_id now meanwhile n =
    schedule_in agent_id q new_id now meanwhile
      (resolve_anchor agent_id q.message_id (threads_in_reach actor n) n.store) n
