-- ===== src/Reminder/History.antt =====
-- A reminder over a sequence of transitions.
use native.Mathlib.Nat.{le_refl}
use bazaar_compute_node.Prelude.{ℕ, ◌+◌, ◌≤◌, ◌≡◌, refl, ◌∙◌, subst, arith, List, [], ◌∷◌, length}
use bazaar_compute_node.Prelude.Result.{Result, ok, err, and_then}
use bazaar_compute_node.Reminder.{Reminder, canceled, ReminderError}
use bazaar_compute_node.Reminder.Laws.{IsValid}
use bazaar_compute_node.Reminder.Commands.{
  Command, snoozes, retitles, reschedules, repeats, cancels, fires, apply, Allowed, fire_count,
}
use bazaar_compute_node.Reminder.Steps.{apply_sound}

-- The calls in their order, until one raises.
unfoldable pub run : List Command → Reminder → Result ReminderError Reminder
run [] r = ok r
run (c ∷ cs) r = and_then (apply c r) (run cs)

abbrev pub occurrences : List Command → ℕ
occurrences [] = 0
occurrences (c ∷ cs) = fire_count c + occurrences cs

and_then_ok :
    (o : Result ReminderError Reminder) (f : Reminder → Result ReminderError Reminder)
    (s : Reminder)
    → and_then o f ≡ ok s
    → (r : Reminder) × (o ≡ ok r) × (f r ≡ ok s)
and_then_ok (ok r) f s h = (r, refl, h)
and_then_ok (err e) f s h = absurd (cc h)

-- What a whole run leaves.
pub record History (cs : List Command) (r s : Reminder) : Type 0 where
  pub valid : IsValid s
  pub revised : s.revision ≡ r.revision + length cs
  pub counted : s.last_occurrence_no ≡ r.last_occurrence_no + occurrences cs
  pub forward : r.updated_at_ms ≤ s.updated_at_ms
  pub same_id : s.reminder_id ≡ r.reminder_id
  pub same_owner : s.owner_thread_id ≡ r.owner_thread_id

-- After a sequence of transitions that all go through a valid reminder is valid; its revision has
-- grown by their number and its occurrence number by the firings among them; its last change is not
-- before the one it began with, and its id and its owner are the same.
pub run-History :
    (cs : List Command) {r s : Reminder} → IsValid r → run cs r ≡ ok s → History cs r s
unfolding run
run-History [] {r} {s} v h = subst (History [] r) r_is_s (record {
  valid = v;
  revised = omega arith;
  counted = omega arith;
  forward = le_refl r.updated_at_ms;
  same_id = refl;
  same_owner = refl;
})
  where
    r_is_s : r ≡ s
    r_is_s = cc h
run-History (c ∷ cs) {r} {s} v h =
    let (m, first, rest) = and_then_ok (apply c r) (run cs) s h in
    let (le, allowed, f) = apply_sound c first in
    let after = run-History cs f.valid rest in
    record {
      valid = after.valid;
      revised = omega (arith, f.revised, after.revised);
      counted = omega (arith, f.counted, after.counted);
      forward = omega (arith, f.stamped, after.forward);
      same_id = after.same_id ∙ f.same_id;
      same_owner = after.same_owner ∙ f.same_owner;
    }

not-Allowed : (c : Command) (r : Reminder) → r.state ≡ canceled → ¬ Allowed c r
not-Allowed (snoozes d t) r st h = h st
not-Allowed (retitles title t) r st h = cc (st, h)
not-Allowed (reschedules n t) r st h = cc (st, h.0)
not-Allowed (repeats rule t) r st h = cc (st, h)
not-Allowed (cancels t) r st h = cc (st, h)
not-Allowed (fires slot t next) r st h = cc (st, h.0)

-- Every transition of a canceled reminder raises, whatever its arguments.
pub canceled_final :
    (c : Command) (r : Reminder) → r.state ≡ canceled → (e : ReminderError) × (apply c r ≡ err e)
canceled_final c r st = go (apply c r) refl
  where
    go : (o : Result ReminderError Reminder) → apply c r ≡ o → (e : ReminderError) × (o ≡ err e)
    go (ok s) h = absurd (not-Allowed c r st (apply_sound c h).1)
    go (err e) h = (e, refl)
