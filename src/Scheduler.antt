-- ===== src/Scheduler.antt =====
-- bazaar_compute_node/core/orchestration/reminder.py: how the scheduler turns a due reminder into
-- a message, with the two writes of contrib/sqlite/repository/reminders.py that it rests on, and the
-- save of a system message of contrib/sqlite/repository/messages.py. A
-- materialisation runs under the lock of its thread, as one step; what happens between the listing
-- of a snapshot and its step is any change of the store. The recurrence and the new id are
-- parameters, and so is the clock, an argument. The audit and the log are left out.
pub mod Laws
pub mod Writes
pub mod Cases
pub mod Ends
mod Accepted
pub mod Once
pub mod Moves
pub mod Rings
pub mod Calendar
mod Tests
use Prim.Native.String.{String}
use text.Mathlib.Text
use bazaar_compute_node.Prelude.{
  ℕ, ◌+◌, Bool, true, false, not, ◌&&◌, ◌||◌, Option, none, some, is_none, List, [], ◌∷◌, ◌++◌, ltb,
  ◌==◌, if◌then◌else◌,
}
use bazaar_compute_node.Prelude.Result.{Result, ok, err}
use bazaar_compute_node.Reminder.Render.{RenderError, render_reminder_fire_body}
use bazaar_compute_node.Reminder.{
  Reminder, ReminderError, is_scheduled, is_canceled, cancel, record_fire,
}

-- `OwnedReminder` of core/models/reminder_owner.py.
pub record OwnedReminder : Type 0 where
  pub agent_id : String
  pub reminder : Reminder

-- What the statements select a row of `reminders` by.
pub record Key : Type 0 where
  pub agent_id : String
  pub owner_thread_id : String
  pub reminder_id : String

unfoldable pub key_of : OwnedReminder → Key
key_of o = record {
  agent_id = o.agent_id;
  owner_thread_id = o.reminder.owner_thread_id;
  reminder_id = o.reminder.reminder_id;
}

unfoldable pub same_key : Key → Key → Bool
same_key j k =
    Text.◌==◌ j.agent_id k.agent_id
    && Text.◌==◌ j.owner_thread_id k.owner_thread_id
    && Text.◌==◌ j.reminder_id k.reminder_id

-- What a message and the session of its thread have to agree on.
pub record Binding : Type 0 where
  pub channel_session_id : String
  pub channel : Option String
  pub provider_thread_id : Option String
  pub target_kind : String

-- The fields of the inbound message that a reminder was set against, which its own message copies.
pub record Anchor : Type 0 where
  pub binding : Binding
  pub target : String

-- The system message of a fired reminder, without its constant fields.
pub record SystemMessage : Type 0 where
  pub message_id : String
  pub agent_id : String
  pub thread_id : String
  pub anchor : Anchor
  pub received_at_ms : ℕ
  pub body : String
  pub reminder_id : String

-- The rows of `reminders`, the inbound messages by agent, thread and id, the bindings of the threads by
-- agent and thread, the ids of all messages, and the system messages in the order in which they were
-- saved.
pub record Store : Type 0 where
  pub reminders : Key → Option Reminder
  pub inbound : String → String → String → Option Anchor
  pub bindings : String → String → Option Binding
  pub message_ids : String → Bool
  pub messages : List SystemMessage

-- `next_recurrence_ms` and `format_utc_timestamp`, with `none` where they raise, `json.dumps`, and the id
-- that uuid7 gives.
pub record Env : Type 0 where
  pub next_recurrence_ms : ℕ → String → String → Option ℕ
  pub format_utc_timestamp : ℕ → Option String
  pub dumps : String → String
  pub new_id : String

-- The `UPDATE` of one row.
unfoldable pub update_row : Key → Reminder → Store → Store
update_row k r s = record s { reminders = λ j. if same_key k j then some r else s.reminders j }

unfoldable pub save_over : Option Reminder → ℕ → Key → Reminder → Store → Option Reminder × Store
save_over none expected k incoming s = (none, s)
save_over (some existing) expected k incoming s =
    if not (existing.revision == expected)
    then (none, s)
    else if is_canceled existing.state
    then (none, s)
    else (some incoming, update_row k incoming s)

-- `save_owned_reminder_transition`
unfoldable pub save_owned_reminder_transition : ℕ → OwnedReminder → Store → Option Reminder × Store
save_owned_reminder_transition expected o s =
    save_over (s.reminders (key_of o)) expected (key_of o) o.reminder s

-- The `ValueError`s of `_save_system_message_for_agent`.
pub data SystemError : Type 0 where
  unknown_thread other_binding used_id : SystemError

abbrev pub same_text : Option String → Option String → Bool
same_text none none = true
same_text none (some b) = false
same_text (some a) none = false
same_text (some a) (some b) = Text.◌==◌ a b

unfoldable pub same_binding : Binding → Binding → Bool
same_binding a b =
    Text.◌==◌ a.channel_session_id b.channel_session_id
    && same_text a.channel b.channel
    && same_text a.provider_thread_id b.provider_thread_id
    && Text.◌==◌ a.target_kind b.target_kind

-- The checks over the binding of the message's thread.
unfoldable pub system_error : Option Binding → Bool → SystemMessage → Option SystemError
system_error none used m = some unknown_thread
system_error (some b) used m =
    if not (same_binding m.anchor.binding b)
    then some other_binding
    else if used
    then some used_id
    else none

-- The message among the others.
unfoldable pub add_message : SystemMessage → Store → Store
add_message m s = record s {
  messages = s.messages ++ (m ∷ []);
  message_ids = λ i. if Text.◌==◌ m.message_id i then true else s.message_ids i;
}

unfoldable pub insert_unless :
    Option SystemError → SystemMessage → Store → Result SystemError (Option SystemMessage) × Store
insert_unless none m s = (ok (some m), add_message m s)
insert_unless (some e) m s = (err e, s)

-- `_save_system_message_for_agent`
unfoldable pub save_system_message :
    SystemMessage → Store → Result SystemError (Option SystemMessage) × Store
save_system_message m s =
    insert_unless (system_error (s.bindings m.agent_id m.thread_id) (s.message_ids m.message_id) m)
      m s

-- What is left of an operation of `_TRANSACTIONAL_WRITE_OPERATIONS`: an exception rolls back what it
-- has written.
unfoldable pub rolled_back :
    Store
    → Result SystemError (Option SystemMessage) × Store
    → Result SystemError (Option SystemMessage) × Store
rolled_back s (ok o, t) = (ok o, t)
rolled_back s (err e, t) = (err e, s)

unfoldable pub fire_over :
    Option Reminder
    → Option Anchor
    → ℕ
    → Key
    → Reminder
    → SystemMessage
    → Store
    → Result SystemError (Option SystemMessage) × Store
fire_over none anchor expected k incoming m s = (ok none, s)
fire_over (some existing) anchor expected k incoming m s =
    if not (existing.revision == expected)
    then (ok none, s)
    else if not (is_scheduled existing.state)
    then (ok none, s)
    else if is_none anchor
    then (ok none, s)
    else save_system_message m (update_row k incoming s)

-- `materialize_owned_reminder_message`
unfoldable pub materialize_owned_reminder_message :
    ℕ → OwnedReminder → SystemMessage → Store → Result SystemError (Option SystemMessage) × Store
materialize_owned_reminder_message expected o m s = rolled_back s (
    fire_over (s.reminders (key_of o))
      (s.inbound o.agent_id o.reminder.owner_thread_id o.reminder.anchor_message_id) expected
      (key_of o) o.reminder m s)

-- The exceptions of a materialisation.
pub data FireError : Type 0 where
  reminder_raises : ReminderError → FireError
  render_raises : RenderError → FireError
  save_raises : SystemError → FireError

-- How a materialisation ends: an exception, `None`, or the message.
abbrev pub Outcome : Type 0
Outcome = Result FireError (Option SystemMessage) × Store

-- `_cancel_unusable_reminder`
unfoldable pub cancel_unusable : Result ReminderError Reminder → ℕ → String → Store → Outcome
cancel_unusable (err e) expected agent_id s = (err (reminder_raises e), s)
cancel_unusable (ok canceled) expected agent_id s = (
  ok none,
  (save_owned_reminder_transition expected (record { agent_id = agent_id; reminder = canceled })
      s).1,
)

-- `next_recurrence_ms(...) if current.repeat_rule is not None else None`: the outer option says
-- whether that went well.
unfoldable pub recurrence : Env → ℕ → Option String → String → Option (Option ℕ)
recurrence env slot none timezone = some none
recurrence env slot (some rule) timezone = elim (env.next_recurrence_ms slot rule timezone) [
  | none ↦ none
  | some next ↦ some (some next)
]

unfoldable pub saved_as : Result SystemError (Option SystemMessage) × Store → Outcome
saved_as (ok o, s) = (ok o, s)
saved_as (err e, s) = (err (save_raises e), s)

abbrev pub message_with : Env → String → Reminder → Anchor → ℕ → String → SystemMessage
message_with env agent_id current anchor now body = record {
  message_id = env.new_id;
  agent_id = agent_id;
  thread_id = current.owner_thread_id;
  anchor = anchor;
  received_at_ms = now;
  body = body;
  reminder_id = current.reminder_id;
}

-- From the text of the message on.
unfoldable pub fire_rendered :
    Env → Result RenderError String → Anchor → String → Reminder → Reminder → ℕ → Store → Outcome
fire_rendered env (err e) anchor agent_id current fired now s = (err (render_raises e), s)
fire_rendered env (ok body) anchor agent_id current fired now s = saved_as (
    materialize_owned_reminder_message current.revision
      (record { agent_id = agent_id; reminder = fired })
      (message_with env agent_id current anchor now body) s)

-- From the anchor on.
unfoldable pub fire_anchored :
    Env → Option Anchor → String → Reminder → Reminder → ℕ → Option ℕ → Store → Outcome
fire_anchored env none agent_id current fired now next s =
    cancel_unusable (cancel now current) current.revision agent_id s
fire_anchored env (some anchor) agent_id current fired now next s =
    fire_rendered env
      (render_reminder_fire_body env.dumps env.format_utc_timestamp fired anchor.target next) anchor
      agent_id current fired now s

unfoldable pub fire_recorded :
    Env → Result ReminderError Reminder → String → Reminder → ℕ → Option ℕ → Store → Outcome
fire_recorded env (err e) agent_id current now next s = (err (reminder_raises e), s)
fire_recorded env (ok fired) agent_id current now next s =
    fire_anchored env (s.inbound agent_id current.owner_thread_id current.anchor_message_id)
      agent_id current fired now next s

unfoldable pub fire_next : Env → Option (Option ℕ) → String → Reminder → ℕ → ℕ → Store → Outcome
fire_next env none agent_id current slot now s =
    cancel_unusable (cancel now current) current.revision agent_id s
fire_next env (some next) agent_id current slot now s =
    fire_recorded env (record_fire slot now next current) agent_id current now next s

-- `current.next_fire_at_ms != snapshot.reminder.next_fire_at_ms`
abbrev pub slots_differ : Option ℕ → Option ℕ → Bool
slots_differ none none = false
slots_differ none (some b) = true
slots_differ (some a) none = true
slots_differ (some a) (some b) = not (a == b)

unfoldable pub fire_slot : Env → Option ℕ → String → Reminder → ℕ → Store → Outcome
fire_slot env none agent_id current now s = (ok none, s)
fire_slot env (some slot) agent_id current now s =
    if ltb now slot
    then (ok none, s)
    else fire_next env (recurrence env slot current.repeat_rule current.timezone) agent_id current
        slot now s

unfoldable pub fire_current : Env → Option Reminder → OwnedReminder → ℕ → Store → Outcome
fire_current env none snapshot now s = (ok none, s)
fire_current env (some current) snapshot now s =
    if not (is_scheduled current.state)
      || not (current.revision == snapshot.reminder.revision)
      || slots_differ current.next_fire_at_ms snapshot.reminder.next_fire_at_ms
    then (ok none, s)
    else fire_slot env current.next_fire_at_ms snapshot.agent_id current now s

-- `_materialize_due_reminder`
unfoldable pub materialize_due_reminder : Env → OwnedReminder → ℕ → Store → Outcome
materialize_due_reminder env snapshot now s =
    fire_current env (s.reminders (key_of snapshot)) snapshot now s
