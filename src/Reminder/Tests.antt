-- ===== src/Reminder/Tests.antt =====
-- Reminders on concrete inputs.
use bazaar_compute_node.Prelude.{◌≤◌, ◌≡◌, ◌↔◌, refl, arith, none, some, [], ◌∷◌}
use bazaar_compute_node.Prelude.Result.{ok, err}
use bazaar_compute_node.Reminder.{
  Reminder, scheduled, fired, canceled, ReminderError, construct, snooze, cancel, record_fire,
  fire_target, fire_into, snooze_from, post_init_error, shape_error, history_error, first_error,
  raise_or, wrong_slot,
}
use bazaar_compute_node.Reminder.Laws.{IsValid, construct-IsValid}
use bazaar_compute_node.Reminder.Commands.{snoozes, fires, cancels, apply, Allowed, Follows}
use bazaar_compute_node.Reminder.Steps.{apply_sound}
use bazaar_compute_node.Reminder.Progress.{apply_complete}
use bazaar_compute_node.Reminder.History.{History, run, run-History, canceled_final}

-- A new reminder that is due at 500.
abbrev fresh : Reminder
fresh = record {
  reminder_id = "r";
  owner_thread_id = "o";
  anchor_message_id = "m";
  title = "water";
  state = scheduled;
  next_fire_at_ms = some 500;
  repeat_rule = none;
  timezone = "UTC";
  revision = 1;
  last_occurrence_no = 0;
  created_at_ms = 100;
  updated_at_ms = 100;
  last_fired_at_ms = none;
  canceled_at_ms = none;
}

abbrev snoozed : Reminder
snoozed = record fresh { next_fire_at_ms = some 560; revision = 2; updated_at_ms = 200 }

abbrev done : Reminder
done = record snoozed {
  state = fired;
  next_fire_at_ms = none;
  revision = 3;
  last_occurrence_no = 1;
  updated_at_ms = 600;
  last_fired_at_ms = some 600;
}

abbrev gone : Reminder
gone = record fresh {
  state = canceled;
  next_fire_at_ms = none;
  revision = 2;
  updated_at_ms = 200;
  canceled_at_ms = some 200;
}

fresh-IsValid : IsValid fresh
fresh-IsValid = record {
  created_first = omega arith;
  fired_within = tt;
  canceled_within = tt;
  shape = ((λ h. cc h), refl);
  history = ((λ h. refl), λ h. refl);
  revisions = omega arith;
}

construct-IsValid_example : (construct fresh ≡ ok fresh) ↔ IsValid fresh
construct-IsValid_example = construct-IsValid fresh

snooze_fresh : apply (snoozes 60 200) fresh ≡ ok snoozed
unfolding apply snooze snooze_from construct post_init_error shape_error history_error first_error
    raise_or
snooze_fresh = refl

fire_then : run (snoozes 60 200 ∷ fires 560 600 none ∷ []) fresh ≡ ok done
unfolding run apply snooze snooze_from record_fire fire_target fire_into construct post_init_error
    shape_error history_error first_error raise_or
fire_then = refl

cancel_fresh : apply (cancels 200) fresh ≡ ok gone
unfolding apply cancel construct post_init_error shape_error history_error first_error raise_or
cancel_fresh = refl

wrong_slot_raises : apply (fires 501 600 none) fresh ≡ err wrong_slot
unfolding apply record_fire
wrong_slot_raises = refl

apply_sound_example :
    (fresh.updated_at_ms ≤ 200)
    × Allowed (snoozes 60 200) fresh
    × Follows (snoozes 60 200) fresh snoozed
apply_sound_example = apply_sound (snoozes 60 200) snooze_fresh

apply_complete_example : (s : Reminder) × (apply (cancels 200) fresh ≡ ok s)
apply_complete_example = apply_complete (cancels 200) fresh-IsValid (omega arith) refl

run-History_example : History (snoozes 60 200 ∷ fires 560 600 none ∷ []) fresh done
run-History_example = run-History (snoozes 60 200 ∷ fires 560 600 none ∷ []) fresh-IsValid fire_then

canceled_final_example : (e : ReminderError) × (apply (snoozes 60 300) gone ≡ err e)
canceled_final_example = canceled_final (snoozes 60 300) gone refl
