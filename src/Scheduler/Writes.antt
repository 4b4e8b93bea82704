-- ===== src/Scheduler/Writes.antt =====
-- The two writes of the store, over the row that a materialisation has read.
use text.Mathlib.TextEquality.{eq_iff}
use bazaar_compute_node.Prelude.{
  ℕ, ◌≡◌, refl, ◌∙◌, ap, true, false, not, Option, none, some, ◌==◌, ==_refl,
}
use bazaar_compute_node.Prelude.Result.{ok, err}
use bazaar_compute_node.Reminder.{Reminder, ReminderState, scheduled, is_scheduled, is_canceled}
use bazaar_compute_node.Scheduler.{
  OwnedReminder, Key, key_of, same_key, Anchor, SystemMessage, Store, update_row, save_over,
  save_owned_reminder_transition, fire_over, materialize_owned_reminder_message, Outcome,
  SystemError, save_raises, system_error, insert_unless, add_message, rolled_back,
  save_system_message, saved_as,
}
use bazaar_compute_node.Scheduler.Laws.{Keyed}

same_key_refl : (k : Key) → same_key k k ≡ true
unfolding same_key
same_key_refl k =
    rw
      (
        (eq_iff k.agent_id k.agent_id).1 refl,
        (eq_iff k.owner_thread_id k.owner_thread_id).1 refl,
        (eq_iff k.reminder_id k.reminder_id).1 refl,
      )
      refl

pub is_scheduled_pass : (st : ReminderState) → st ≡ scheduled → not (is_scheduled st) ≡ false
is_scheduled_pass st h = rw h refl

is_canceled_pass : (st : ReminderState) → st ≡ scheduled → is_canceled st ≡ false
is_canceled_pass st h = rw h refl

pub number_pass : (a : ℕ) → not (a == a) ≡ false
number_pass a = rw ==_refl refl

-- The key of what is written is the key of the snapshot.
written_key :
    (s : Store) (current changed : Reminder) (snapshot : OwnedReminder)
    → Keyed s
    → s.reminders (key_of snapshot) ≡ some current
    → changed.owner_thread_id ≡ current.owner_thread_id
    → changed.reminder_id ≡ current.reminder_id
    → key_of (record { agent_id = snapshot.agent_id; reminder = changed }) ≡ key_of snapshot
unfolding key_of
written_key s current changed snapshot keyed row p q =
    let (o, i) = keyed (key_of snapshot) current row in rw (p ∙ o, q ∙ i) refl

save_over_pass :
    (current : Reminder) (k : Key) (r : Reminder) (s : Store)
    → current.state ≡ scheduled
    → (save_over (some current) current.revision k r s).1 ≡ update_row k r s
unfolding save_over
save_over_pass current k r s st =
    rw (number_pass current.revision, is_canceled_pass current.state st) refl

fire_over_pass :
    (current : Reminder) (anchor : Anchor) (k : Key) (r : Reminder) (m : SystemMessage) (s : Store)
    → current.state ≡ scheduled
    → fire_over (some current) (some anchor) current.revision k r m s
      ≡ save_system_message m (update_row k r s)
unfolding fire_over
fire_over_pass current anchor k r m s st =
    rw (number_pass current.revision, is_scheduled_pass current.state st) refl

-- What the checks of a system message leave of the two writes.
abbrev pub ended : Option SystemError → SystemMessage → Store → Store → Outcome
ended none m t s = (ok (some m), add_message m t)
ended (some e) m t s = (err (save_raises e), s)

rolled_ended :
    (o : Option SystemError) (m : SystemMessage) (t s : Store)
    → saved_as (rolled_back s (insert_unless o m t)) ≡ ended o m t s
unfolding saved_as rolled_back insert_unless
rolled_ended none m t s = refl
rolled_ended (some e) m t s = refl

save-ended :
    (o : Option SystemError) (m : SystemMessage) (k : Key) (r : Reminder) (s : Store)
    → system_error (s.bindings m.agent_id m.thread_id) (s.message_ids m.message_id) m ≡ o
    → saved_as (rolled_back s (save_system_message m (update_row k r s)))
      ≡ ended o m (update_row k r s) s
unfolding save_system_message update_row
save-ended o m k r s h =
    ap (λ x. saved_as (rolled_back s (insert_unless x m (update_row k r s)))) h
    ∙ rolled_ended o m (update_row k r s) s

-- The two writes over the row that the snapshot's key has.
pub saved :
    (snapshot : OwnedReminder) (s : Store) (current changed : Reminder)
    → Keyed s
    → s.reminders (key_of snapshot) ≡ some current
    → current.state ≡ scheduled
    → changed.owner_thread_id ≡ current.owner_thread_id
    → changed.reminder_id ≡ current.reminder_id
    → (save_owned_reminder_transition current.revision
        (record { agent_id = snapshot.agent_id; reminder = changed })
        s).1
      ≡ update_row (key_of snapshot) changed s
unfolding save_owned_reminder_transition
saved snapshot s current changed keyed row st p q =
    ap (λ k. (save_over (s.reminders k) current.revision k changed s).1)
      (written_key s current changed snapshot keyed row p q)
    ∙ ap (λ o. (save_over o current.revision (key_of snapshot) changed s).1) row
    ∙ save_over_pass current (key_of snapshot) changed s st

pub materialized :
    (snapshot : OwnedReminder) (s : Store) (current changed : Reminder) (m : SystemMessage)
    (anchor : Anchor)
    → Keyed s
    → s.reminders (key_of snapshot) ≡ some current
    → current.state ≡ scheduled
    → changed.owner_thread_id ≡ current.owner_thread_id
    → changed.reminder_id ≡ current.reminder_id
    → changed.anchor_message_id ≡ current.anchor_message_id
    → s.inbound snapshot.agent_id current.owner_thread_id current.anchor_message_id ≡ some anchor
    → (o : Option SystemError)
    → system_error (s.bindings m.agent_id m.thread_id) (s.message_ids m.message_id) m ≡ o
    → saved_as (
        materialize_owned_reminder_message current.revision
          (record { agent_id = snapshot.agent_id; reminder = changed })
          m
          s)
      ≡ ended o m (update_row (key_of snapshot) changed s) s
unfolding materialize_owned_reminder_message
materialized snapshot s current changed m anchor keyed row st p q a there o h =
    ap
      (λ k. saved_as (
        rolled_back s (
          fire_over (s.reminders k)
            (s.inbound snapshot.agent_id changed.owner_thread_id changed.anchor_message_id)
            current.revision k changed m s)))
      (written_key s current changed snapshot keyed row p q)
    ∙ ap
        (λ x. saved_as (
          rolled_back s (
            fire_over x
              (s.inbound snapshot.agent_id changed.owner_thread_id changed.anchor_message_id)
              current.revision (key_of snapshot) changed m s)))
        row
    ∙ ap
        (λ x. saved_as (
          rolled_back s
            (fire_over (some current) x current.revision (key_of snapshot) changed m s)))
        (ap (λ x. s.inbound snapshot.agent_id x changed.anchor_message_id) p
          ∙ ap (λ x. s.inbound snapshot.agent_id current.owner_thread_id x) a
          ∙ there)
    ∙ ap (λ x. saved_as (rolled_back s x))
        (fire_over_pass current anchor (key_of snapshot) changed m s st)
    ∙ save-ended o m (key_of snapshot) changed s h

pub updated : (k : Key) (r : Reminder) (s : Store) → (update_row k r s).reminders k ≡ some r
unfolding update_row
updated k r s = rw (same_key_refl k) refl
