-- ===== src/Reminder/Steps.antt =====
-- What a transition that goes through has made of the reminder.
use Prim.Native.String.{String}
use bazaar_compute_node.Prelude.{
  ℕ, ◌≤◌, ◌≡◌, ◌≢◌, refl, sym, ◌∙◌, arith, Bool, true, false, not, Option, none, some, ltb, leb,
  if◌then◌else◌, ltb_false→le, leb_false→lt, some_inj,
}
use bazaar_compute_node.Prelude.Result.{Result, ok, err}
use bazaar_compute_node.Reminder.{
  Reminder, ReminderState, scheduled, fired, canceled, is_scheduled, is_canceled, ReminderError,
  in_order, require_scheduled, snooze_from, snooze, update_title, update_next_fire, update_cadence,
  cancel, fire_target, fire_into, other_slot, record_fire, not_scheduled, not_in_future,
  snooze_canceled, wrong_slot, fired_early,
}
use bazaar_compute_node.Reminder.Laws.{construct_ok}
use bazaar_compute_node.Reminder.Commands.{
  Command, snoozes, retitles, reschedules, repeats, cancels, fires, apply, time_of, NextSlot,
  Allowed, Follows,
}

in_order_ok :
    (a b : ℕ) (next : Result ReminderError Reminder) (s : Reminder)
    → in_order a b next ≡ ok s
    → (a ≤ b) × (next ≡ ok s)
in_order_ok a b next s h = ground arith

require_ok :
    (r : Reminder) (next : Result ReminderError Reminder) (s : Reminder)
    → require_scheduled r next ≡ ok s
    → (r.state ≡ scheduled) × (next ≡ ok s)
require_ok r next s h = go r.state h
  where
    go :
        (st : ReminderState)
        → (if not (is_scheduled st) then err not_scheduled else next) ≡ ok s
        → (st ≡ scheduled) × (next ≡ ok s)
    go scheduled h = (refl, h)
    go fired h = absurd (cc h)
    go canceled h = absurd (cc h)

guarded_ok :
    (b : Bool) (e : ReminderError) (next : Result ReminderError Reminder) (s : Reminder)
    → (if b then err e else next) ≡ ok s
    → (b ≡ false) × (next ≡ ok s)
guarded_ok true e next s h = absurd (cc h)
guarded_ok false e next s h = (refl, h)

-- Soundness: what each transition returned.
update_title_sound :
    (title : String) (t : ℕ) {r s : Reminder}
    → update_title title t r ≡ ok s
    → (r.updated_at_ms ≤ t) × Allowed (retitles title t) r × Follows (retitles title t) r s
unfolding update_title
update_title_sound title t {r} {s} h =
    let (st, h1) = require_ok r _ s h in
    let (le, h2) = in_order_ok r.updated_at_ms t _ s h1 in
    let (v, same) = construct_ok h2 in
    (
      le,
      st,
      record {
        valid = v;
        lands = rw same (st, refl, refl);
        revised = rw same refl;
        stamped = rw same refl;
        counted = rw same (omega arith);
        same_id = rw same refl;
        same_owner = rw same refl;
        same_anchor = rw same refl;
        same_created = rw same refl;
        same_timezone = rw same refl;
        last_fired = rw same refl;
        rule = rw same refl;
      },
    )

update_next_fire_sound :
    (n t : ℕ) {r s : Reminder}
    → update_next_fire n t r ≡ ok s
    → (r.updated_at_ms ≤ t) × Allowed (reschedules n t) r × Follows (reschedules n t) r s
unfolding update_next_fire
update_next_fire_sound n t {r} {s} h =
    let (st, h1) = require_ok r _ s h in
    let (le, h2) = in_order_ok r.updated_at_ms t _ s h1 in
    let (later, h3) = guarded_ok (leb n t) not_in_future _ s h2 in
    let (v, same) = construct_ok h3 in
    (
      le,
      (st, leb_false→lt n t later),
      record {
        valid = v;
        lands = rw same (st, refl);
        revised = rw same refl;
        stamped = rw same refl;
        counted = rw same (omega arith);
        same_id = rw same refl;
        same_owner = rw same refl;
        same_anchor = rw same refl;
        same_created = rw same refl;
        same_timezone = rw same refl;
        last_fired = rw same refl;
        rule = rw same refl;
      },
    )

update_cadence_sound :
    (rule : String) (t : ℕ) {r s : Reminder}
    → update_cadence rule t r ≡ ok s
    → (r.updated_at_ms ≤ t) × Allowed (repeats rule t) r × Follows (repeats rule t) r s
unfolding update_cadence
update_cadence_sound rule t {r} {s} h =
    let (st, h1) = require_ok r _ s h in
    let (le, h2) = in_order_ok r.updated_at_ms t _ s h1 in
    let (v, same) = construct_ok h2 in
    (
      le,
      st,
      record {
        valid = v;
        lands = rw same (st, refl, refl);
        revised = rw same refl;
        stamped = rw same refl;
        counted = rw same (omega arith);
        same_id = rw same refl;
        same_owner = rw same refl;
        same_anchor = rw same refl;
        same_created = rw same refl;
        same_timezone = rw same refl;
        last_fired = rw same refl;
        rule = rw same refl;
      },
    )

cancel_sound :
    (t : ℕ) {r s : Reminder}
    → cancel t r ≡ ok s
    → (r.updated_at_ms ≤ t) × Allowed (cancels t) r × Follows (cancels t) r s
unfolding cancel
cancel_sound t {r} {s} h =
    let (st, h1) = require_ok r _ s h in
    let (le, h2) = in_order_ok r.updated_at_ms t _ s h1 in
    let (v, same) = construct_ok h2 in
    (
      le,
      st,
      record {
        valid = v;
        lands = rw same (refl, refl);
        revised = rw same refl;
        stamped = rw same refl;
        counted = rw same (omega arith);
        same_id = rw same refl;
        same_owner = rw same refl;
        same_anchor = rw same refl;
        same_created = rw same refl;
        same_timezone = rw same refl;
        last_fired = rw same refl;
        rule = rw same refl;
      },
    )

-- The base time of `snooze`.
base_of : ReminderState → Option ℕ → ℕ → Option ℕ
base_of st next t = if is_scheduled st then next else some t

base_scheduled :
    (st : ReminderState) (next : Option ℕ) (t base b : ℕ)
    → base_of st next t ≡ some b
    → next ≡ some base
    → st ≡ scheduled
    → b ≡ base
unfolding base_of
base_scheduled st next t base b h p q = some_inj (sym (rw q at h) ∙ p)

base_fired :
    (st : ReminderState) (next : Option ℕ) (t b : ℕ)
    → base_of st next t ≡ some b
    → st ≡ fired
    → b ≡ t
unfolding base_of
base_fired st next t b h q = some_inj (sym (rw q at h))

not_canceled : (st : ReminderState) → is_canceled st ≡ false → st ≢ canceled
not_canceled st h p = cc (rw p at h)

snooze_from_ok :
    (o : Option ℕ) (d t : ℕ) (r s : Reminder)
    → snooze_from o d t r ≡ ok s
    → (b : ℕ) × (o ≡ some b) × (snooze_from (some b) d t r ≡ ok s)
snooze_from_ok none d t r s h = absurd (unfold snooze_from in cc)
snooze_from_ok (some b) d t r s h = (b, refl, h)

snooze_sound :
    (d t : ℕ) {r s : Reminder}
    → snooze d t r ≡ ok s
    → (r.updated_at_ms ≤ t) × Allowed (snoozes d t) r × Follows (snoozes d t) r s
unfolding snooze snooze_from base_of
snooze_sound d t {r} {s} h =
    let (le, h1) = in_order_ok r.updated_at_ms t _ s h in
    let (open_, h2) = guarded_ok (is_canceled r.state) snooze_canceled _ s h1 in
    let (b, at_b, h3) = snooze_from_ok (base_of r.state r.next_fire_at_ms t) d t r s h2 in
    let (v, same) = construct_ok h3 in
    (
      le,
      not_canceled r.state open_,
      record {
        valid = v;
        lands = rw same (
          refl,
          (λ base p q. rw (base_scheduled r.state r.next_fire_at_ms t base b at_b p q) refl),
          λ q. rw (base_fired r.state r.next_fire_at_ms t b at_b q) refl,
        );
        revised = rw same refl;
        stamped = rw same refl;
        counted = rw same (omega arith);
        same_id = rw same refl;
        same_owner = rw same refl;
        same_anchor = rw same refl;
        same_created = rw same refl;
        same_timezone = rw same refl;
        last_fired = rw same refl;
        rule = rw same refl;
      },
    )

fire_into_ok :
    (o : Result ReminderError ReminderState) (t : ℕ) (next : Option ℕ) (r s : Reminder)
    → fire_into o t next r ≡ ok s
    → (st : ReminderState) × (o ≡ ok st) × (fire_into (ok st) t next r ≡ ok s)
fire_into_ok (err e) t next r s h = absurd (unfold fire_into in cc)
fire_into_ok (ok st) t next r s h = (st, refl, h)

fire_target_sound :
    (slot : ℕ) (rule : Option String) (next : Option ℕ) (st : ReminderState)
    → fire_target slot rule next ≡ ok st
    → NextSlot slot rule next × (rule ≡ none → st ≡ fired) × (rule ≢ none → st ≡ scheduled)
unfolding fire_target
fire_target_sound slot rule next st h = ground arith

this_slot : (slot : ℕ) (next : Option ℕ) → other_slot slot next ≡ false → next ≡ some slot
this_slot slot next h = ground arith

record_fire_sound :
    (slot t : ℕ) (next : Option ℕ) {r s : Reminder}
    → record_fire slot t next r ≡ ok s
    → (r.updated_at_ms ≤ t) × Allowed (fires slot t next) r × Follows (fires slot t next) r s
unfolding record_fire fire_into
record_fire_sound slot t next {r} {s} h =
    let (st, h1) = require_ok r _ s h in
    let (le, h2) = in_order_ok r.updated_at_ms t _ s h1 in
    let (at_slot, h3) = guarded_ok (other_slot slot r.next_fire_at_ms) wrong_slot _ s h2 in
    let (due, h4) = guarded_ok (ltb t slot) fired_early _ s h3 in
    let (target, is_target, h5) =
      fire_into_ok (fire_target slot r.repeat_rule next) t next r s h4 in
    let (later, once, again) = fire_target_sound slot r.repeat_rule next target is_target in
    let (v, same) = construct_ok h5 in
    (
      le,
      (st, this_slot slot r.next_fire_at_ms at_slot, ltb_false→le t slot due, later),
      record {
        valid = v;
        lands = rw same (refl, refl, once, again);
        revised = rw same refl;
        stamped = rw same refl;
        counted = rw same refl;
        same_id = rw same refl;
        same_owner = rw same refl;
        same_anchor = rw same refl;
        same_created = rw same refl;
        same_timezone = rw same refl;
        last_fired = rw same refl;
        rule = rw same refl;
      },
    )

-- A command that goes through was allowed, at a time that is not before the last one; it leaves a
-- valid reminder, at the next revision.
pub apply_sound :
    (c : Command) {r s : Reminder}
    → apply c r ≡ ok s
    → (r.updated_at_ms ≤ time_of c) × Allowed c r × Follows c r s
unfolding apply
apply_sound (snoozes d t) h = snooze_sound d t h
apply_sound (retitles title t) h = update_title_sound title t h
apply_sound (reschedules n t) h = update_next_fire_sound n t h
apply_sound (repeats rule t) h = update_cadence_sound rule t h
apply_sound (cancels t) h = cancel_sound t h
apply_sound (fires slot t next) h = record_fire_sound slot t next h
