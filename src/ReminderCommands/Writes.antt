-- ===== src/ReminderCommands/Writes.antt =====
-- The write of a change that is no firing: no check of the store refuses it.
use Prim.Native.String.{String}
use text.Mathlib.Text
use text.Mathlib.TextEquality.{eq_iff}
use bazaar_compute_node.Prelude.{
  ℕ, ◌+◌, ◌≤◌, ◌≡◌, ◌≢◌, refl, ◌∙◌, ap, arith, true, Option, none, some, ==_refl, le→ltb_false,
}
use bazaar_compute_node.Prelude.Result.{ok}
use bazaar_compute_node.Reminder.{Reminder, ReminderState, scheduled, fired, canceled}
use bazaar_compute_node.Reminder.Commands.{
  Command, snoozes, retitles, reschedules, repeats, cancels, fires, Allowed, time_of, Follows,
}
use bazaar_compute_node.Scheduler.{Store, update_row}
use bazaar_compute_node.Scheduler.Laws.{Keyed}
use bazaar_compute_node.ReminderCommands.{
  keeps_identity, same_time, state_error, transition_error, reminder_key, write_or, write_over,
  save_reminder_transition,
}

-- The commands that the agent gives: all but the firings.
abbrev pub IsGiven : Command → Type 0
IsGiven (snoozes d t) = Unit
IsGiven (retitles title t) = Unit
IsGiven (reschedules n t) = Unit
IsGiven (repeats rule t) = Unit
IsGiven (cancels t) = Unit
IsGiven (fires slot t next) = ⊥

same_time_refl : (o : Option ℕ) → same_time o o ≡ true
same_time_refl none = refl
same_time_refl (some i) = ==_refl i

text_refl : (a : String) → Text.◌==◌ a a ≡ true
text_refl a = (eq_iff a a).1 refl

keeps_identity-Follows : (c : Command) {r s : Reminder} → Follows c r s → keeps_identity r s ≡ true
unfolding keeps_identity
keeps_identity-Follows c {r} {s} f =
    rw
      (
        f.same_id,
        f.same_owner,
        f.same_anchor,
        f.same_timezone,
        f.same_created,
        text_refl r.reminder_id,
        text_refl r.owner_thread_id,
        text_refl r.anchor_message_id,
        text_refl r.timezone,
        ==_refl r.created_at_ms,
      )
      refl

stays_open : (st : ReminderState) → st ≢ canceled → state_error st scheduled ≡ none
unfolding state_error
stays_open scheduled h = refl
stays_open fired h = refl
stays_open canceled h = absurd (h refl)

state_error-Follows :
    (c : Command) {r s : Reminder}
    → IsGiven c
    → Allowed c r
    → Follows c r s
    → state_error r.state s.state ≡ none
unfolding state_error
state_error-Follows (snoozes d t) {r} g a f = rw f.lands.0 (stays_open r.state a)
state_error-Follows (retitles title t) g a f = rw (a, f.lands.0) refl
state_error-Follows (reschedules n t) g a f = rw (a.0, f.lands.0) refl
state_error-Follows (repeats rule t) g a f = rw (a, f.lands.0) refl
state_error-Follows (cancels t) g a f = rw (a, f.lands.0) refl
state_error-Follows (fires slot t next) g a f = absurd g

keeps_history :
    (c : Command) {r s : Reminder}
    → IsGiven c
    → Follows c r s
    → (s.last_occurrence_no ≡ r.last_occurrence_no) × (s.last_fired_at_ms ≡ r.last_fired_at_ms)
keeps_history (snoozes d t) g f = (f.counted ∙ omega arith, f.last_fired)
keeps_history (retitles title t) g f = (f.counted ∙ omega arith, f.last_fired)
keeps_history (reschedules n t) g f = (f.counted ∙ omega arith, f.last_fired)
keeps_history (repeats rule t) g f = (f.counted ∙ omega arith, f.last_fired)
keeps_history (cancels t) g f = (f.counted ∙ omega arith, f.last_fired)
keeps_history (fires slot t next) g f = absurd g

transition_error-none :
    (c : Command) {r s : Reminder}
    → IsGiven c
    → r.updated_at_ms ≤ time_of c
    → Allowed c r
    → Follows c r s
    → transition_error r r.revision s ≡ none
unfolding transition_error
transition_error-none c {r} {s} g le a f =
    let (occurrences, last) = keeps_history c g f in
    rw
      (
        ==_refl r.revision,
        keeps_identity-Follows c f,
        f.revised,
        ==_refl (r.revision + 1),
        f.stamped,
        le→ltb_false r.updated_at_ms (time_of c) le,
        occurrences,
        ==_refl r.last_occurrence_no,
        last,
        same_time_refl r.last_fired_at_ms,
      )
      (state_error-Follows c g a f)

written_under :
    (agent_id : String) {owner j reminder_id k : String}
    → owner ≡ j
    → reminder_id ≡ k
    → reminder_key agent_id owner reminder_id ≡ reminder_key agent_id j k
written_under agent_id p q = rw (p, q) refl

-- The write over the row that the command has read.
pub save-Follows :
    (c : Command) {r s : Reminder} (agent_id owner_id reminder_id : String) (store : Store)
    → Keyed store
    → store.reminders (reminder_key agent_id owner_id reminder_id) ≡ some r
    → IsGiven c
    → r.updated_at_ms ≤ time_of c
    → Allowed c r
    → Follows c r s
    → save_reminder_transition agent_id r.revision s store
      ≡ (ok s, update_row (reminder_key agent_id owner_id reminder_id) s store)
unfolding save_reminder_transition write_over write_or
save-Follows c {r} {s} agent_id owner_id reminder_id store keyed row g le a f =
    let (o, i) = keyed (reminder_key agent_id owner_id reminder_id) r row in
    ap (λ k. write_over (store.reminders k) r.revision k s store)
      (written_under agent_id (f.same_owner ∙ o) (f.same_id ∙ i))
    ∙ ap (λ x. write_over x r.revision (reminder_key agent_id owner_id reminder_id) s store) row
    ∙ ap (λ x. write_or x (reminder_key agent_id owner_id reminder_id) s store)
        (transition_error-none c g le a f)
