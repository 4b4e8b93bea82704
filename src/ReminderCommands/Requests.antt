-- ===== src/ReminderCommands/Requests.antt =====
-- What the requests ask for, and the failures that they have.
use Prim.Native.String.{String}
use bazaar_compute_node.Prelude.{
  ℕ, ◌≡◌, refl, subst, Bool, true, false, not, Option, none, some, if◌then◌else◌,
}
use bazaar_compute_node.Prelude.Result.{Result, ok, err}
use bazaar_compute_node.Reminder.{Reminder, scheduled, ReminderError, is_scheduled}
use bazaar_compute_node.Reminder.Commands.{
  Command, snoozes, retitles, reschedules, repeats, cancels, Allowed, apply,
}
use bazaar_compute_node.ReminderCommands.{
  CommandFailure, reminder_not_found, ChangeRequest, snooze_request, update_request, cancel_request,
  or_fail, update_field, updated_reminder, reminder_not_scheduled, reminder_update_failed, no_field,
  refused,
}
use bazaar_compute_node.ReminderCommands.Writes.{IsGiven}

-- The transition that a request asks for: of an update that has several fields, the first.
pub data Asks : ChangeRequest → Command → Type 0 where
  asks_snooze : (i : String) (d t : ℕ) → Asks (snooze_request i d t) (snoozes d t)
  asks_title :
      (i : String) (t : ℕ) (title : String) (next : Option ℕ) (rule : Option String)
      → Asks (update_request i t (some title) next rule) (retitles title t)
  asks_next :
      (i : String) (t next : ℕ) (rule : Option String)
      → Asks (update_request i t none (some next) rule) (reschedules next t)
  asks_rule :
      (i : String) (t : ℕ) (rule : String)
      → Asks (update_request i t none none (some rule)) (repeats rule t)
  asks_cancel : (i : String) (t : ℕ) → Asks (cancel_request i t) (cancels t)

or_fail_ok :
    (f : CommandFailure) (x : Result ReminderError Reminder) (s : Reminder)
    → or_fail f x ≡ ok s
    → x ≡ ok s
unfolding or_fail
or_fail_ok f (ok r) s h = cc
or_fail_ok f (err e) s h = absurd (cc h)

guarded :
    (b : Bool) (f : CommandFailure) (x : Result CommandFailure Reminder) (s : Reminder)
    → (if b then err f else x) ≡ ok s
    → x ≡ ok s
guarded true f x s h = absurd (cc h)
guarded false f x s h = h

-- What a request makes of a reminder is what its transition makes of it.
pub updated_sound :
    (q : ChangeRequest) (r s : Reminder)
    → updated_reminder q r ≡ ok s
    → (c : Command) × Asks q c × IsGiven c × (apply c r ≡ ok s)
unfolding updated_reminder update_field apply
updated_sound (snooze_request i d t) r s h =
    (snoozes d t, asks_snooze i d t, tt, or_fail_ok _ _ s h)
updated_sound (update_request i t (some title) next rule) r s h =
    (retitles title t, asks_title i t title next rule, tt, or_fail_ok _ _ s (guarded _ _ _ s h))
updated_sound (update_request i t none (some next) rule) r s h =
    (reschedules next t, asks_next i t next rule, tt, or_fail_ok _ _ s (guarded _ _ _ s h))
updated_sound (update_request i t none none (some rule)) r s h =
    (repeats rule t, asks_rule i t rule, tt, or_fail_ok _ _ s (guarded _ _ _ s h))
updated_sound (update_request i t none none none) r s h =
    let stuck : err no_field ≡ ok s =
      guarded (not (is_scheduled r.state)) reminder_update_failed (err no_field) s h in
    absurd (cc stuck)
updated_sound (cancel_request i t) r s h =
    (cancels t, asks_cancel i t, tt, or_fail_ok _ _ s (guarded _ _ _ s h))

passed :
    (r s : Reminder) (f g : CommandFailure) (x : Result ReminderError Reminder)
    → r.state ≡ scheduled
    → x ≡ ok s
    → (if not (is_scheduled r.state) then err f else or_fail g x) ≡ ok s
unfolding or_fail
passed r s f g x st h = rw (st, h) refl

pub updated_complete :
    {q : ChangeRequest} {c : Command} (r s : Reminder)
    → Asks q c
    → Allowed c r
    → apply c r ≡ ok s
    → updated_reminder q r ≡ ok s
unfolding updated_reminder update_field apply or_fail
updated_complete r s (asks_snooze i d t) a h = rw h refl
updated_complete r s (asks_title i t title next rule) a h = passed r s _ _ _ a h
updated_complete r s (asks_next i t next rule) a h = passed r s _ _ _ a.0 h
updated_complete r s (asks_rule i t rule) a h = passed r s _ _ _ a h
updated_complete r s (asks_cancel i t) a h = passed r s _ _ _ a h

pub given : {q : ChangeRequest} {c : Command} → Asks q c → IsGiven c
given (asks_snooze i d t) = tt
given (asks_title i t title next rule) = tt
given (asks_next i t next rule) = tt
given (asks_rule i t rule) = tt
given (asks_cancel i t) = tt

-- The failures that the commands raise themselves, the store none.
abbrev pub IsOwn : CommandFailure → Type 0
IsOwn reminder_not_found = Unit
IsOwn reminder_not_scheduled = Unit
IsOwn reminder_update_failed = Unit
IsOwn no_field = Unit
IsOwn (refused e) = ⊥

or_fail-IsOwn :
    (f g : CommandFailure) (x : Result ReminderError Reminder)
    → IsOwn g
    → or_fail g x ≡ err f
    → IsOwn f
unfolding or_fail
or_fail-IsOwn f g (ok r) own h = absurd (cc h)
or_fail-IsOwn f g (err e) own h = let same : g ≡ f = cc in subst IsOwn same own

guarded-IsOwn :
    (b : Bool) (f g : CommandFailure) (x : Result CommandFailure Reminder)
    → IsOwn g
    → (x ≡ err f → IsOwn f)
    → (if b then err g else x) ≡ err f
    → IsOwn f
guarded-IsOwn true f g x own k h = let same : g ≡ f = cc in subst IsOwn same own
guarded-IsOwn false f g x own k h = k h

update_field-IsOwn :
    (title : Option String) (next : Option ℕ) (rule : Option String) (t : ℕ) (r : Reminder)
    (f : CommandFailure)
    → update_field title next rule t r ≡ err f
    → IsOwn f
unfolding update_field
update_field-IsOwn (some title) next rule t r f h = or_fail-IsOwn f _ _ tt h
update_field-IsOwn none (some next) rule t r f h = or_fail-IsOwn f _ _ tt h
update_field-IsOwn none none (some rule) t r f h = or_fail-IsOwn f _ _ tt h
update_field-IsOwn none none none t r f h = let same : no_field ≡ f = cc in subst IsOwn same tt

pub updated-IsOwn :
    (q : ChangeRequest) (r : Reminder) (f : CommandFailure) → updated_reminder q r ≡ err f → IsOwn f
unfolding updated_reminder
updated-IsOwn (snooze_request i d t) r f h = or_fail-IsOwn f _ _ tt h
updated-IsOwn (update_request i t title next rule) r f h =
    guarded-IsOwn _ f _ _ tt (update_field-IsOwn title next rule t r f) h
updated-IsOwn (cancel_request i t) r f h = guarded-IsOwn _ f _ _ tt (or_fail-IsOwn f _ _ tt) h
