-- ===== src/Schedule/Resolve.antt =====
-- bazaar_compute_node/core/reminder_schedule.py: the schedule of a new reminder, and the next time of
-- an old one. `fromisoformat` is the parser of `datetime`, a parameter: the moment of a text, counted
-- from 1970, `none` in the place of the moment where the text has no offset.
pub mod Future
use bazaar_compute_node.Prelude.{
  ℕ, zero, suc, ◌+◌, ◌-◌, ◌*◌, Bool, true, false, not, ◌&&◌, ◌||◌, Option, none, some, is_none,
  List, [], ◌∷◌, ◌++◌, ltb, ◌==◌, ℤ, pos, negsuc, if◌then◌else◌,
}
use bazaar_compute_node.Prelude.Result.{Result, ok, err, and_then}
use bazaar_compute_node.Schedule.{
  Chars, ReminderRecurrence, ScheduleError, same, is_empty, raise_or, ms_per_second,
  timezone_invalid, fire_at_invalid, fire_at_naive, both_given, none_given, no_recurrence,
  not_in_future, rule_empty, rule_not_canonical, timezone_not_canonical,
}
use bazaar_compute_node.Schedule.Rules.{parse_repeat_rule}
use bazaar_compute_node.Schedule.Slots.{Zone, load_timezone, first_after, next_after}

-- `ReminderSchedule`
pub record ReminderSchedule : Type 0 where
  pub next_fire_at_ms : ℤ
  pub repeat_rule : Option Chars
  pub timezone : Chars

abbrev pub utc : Chars
utc = b'U' ∷ b'T' ∷ b'C' ∷ []

unfoldable pub has : ℕ → Chars → Bool
has c [] = false
has c (d ∷ ds) = c == d || has c ds

-- A "Z" at the end becomes "+00:00".
unfoldable pub normalized : Chars → Chars
normalized [] = []
normalized (c ∷ []) = if c == b'Z' then b'+' ∷ b'0' ∷ b'0' ∷ b':' ∷ b'0' ∷ b'0' ∷ [] else c ∷ []
normalized (c ∷ d ∷ ds) = c ∷ normalized (d ∷ ds)

-- A number of milliseconds behind a moment.
unfoldable pub shifted : ℕ → ℤ → ℤ
shifted n (pos m) = pos (n + m)
shifted n (negsuc m) = if ltb n (suc m) then negsuc (m - n) else pos (n - suc m)

-- `delay_seconds * _MILLISECONDS_PER_SECOND`
unfoldable pub times_second : ℤ → ℤ
times_second (pos m) = pos (m * ms_per_second)
times_second (negsuc m) = negsuc (suc m * ms_per_second - 1)

-- `next_fire_at_ms > evaluated_at_ms`
unfoldable pub is_future : ℕ → ℤ → Bool
is_future now (pos n) = ltb now n
is_future now (negsuc n) = false

unfoldable pub moment_of : Option (Option ℤ) → Result ScheduleError ℤ
moment_of none = err fire_at_invalid
moment_of (some none) = err fire_at_naive
moment_of (some (some at)) = ok at

unfoldable pub or_utc : Option Chars → Chars
or_utc none = utc
or_utc (some name) = name

-- A text that has to be the form that it is read to.
unfoldable pub form_error :
    ScheduleError → Chars → Result ScheduleError Chars → Option ScheduleError
form_error wrong given (err e) = some e
form_error wrong given (ok form) = if same form given then none else some wrong

unfoldable pub either_error : Option ScheduleError → Option ScheduleError → Option ScheduleError
either_error (some e) next = some e
either_error none next = next

-- The checks of a rule in `ReminderSchedule.__post_init__`.
unfoldable pub rule_error : Option Chars → Option ScheduleError
rule_error none = none
rule_error (some []) = some rule_empty
rule_error (some (c ∷ cs)) =
    form_error rule_not_canonical (c ∷ cs)
      (and_then (parse_repeat_rule (c ∷ cs)) (λ r. ok r.canonical))

unfoldable pub parse_optional : Option Chars → Result ScheduleError (Option ReminderRecurrence)
parse_optional none = ok none
parse_optional (some rule) = and_then (parse_repeat_rule rule) (λ r. ok (some r))

abbrev pub canonical_of : Option ReminderRecurrence → Option Chars
canonical_of none = none
canonical_of (some r) = some r.canonical

module _ (zones : Chars → Option Zone) where
  -- `canonical_timezone`; the key of a zone is the name that it was loaded by.
  unfoldable pub canonical_timezone : Option Chars → Result ScheduleError Chars
  canonical_timezone value =
      and_then (load_timezone zones (or_utc value)) (λ zone. ok (or_utc value))

  unfoldable pub timezone_error : Chars → Option ScheduleError
  timezone_error name = form_error timezone_not_canonical name (canonical_timezone (some name))

  -- `ReminderSchedule.__post_init__`
  unfoldable pub schedule_error : ReminderSchedule → Option ScheduleError
  schedule_error s = either_error (rule_error s.repeat_rule) (timezone_error s.timezone)

  -- A call of the constructor of `ReminderSchedule`.
  unfoldable pub schedule : ReminderSchedule → Result ScheduleError ReminderSchedule
  schedule s = raise_or (schedule_error s) s

  unfoldable pub repeat_first : Option ReminderRecurrence → ℕ → Chars → Result ScheduleError ℤ
  repeat_first none now name = err no_recurrence
  repeat_first (some r) now name = and_then (first_after zones r now name) (λ n. ok (pos n))

  -- `next_recurrence_ms`
  unfoldable pub next_recurrence_ms : ℕ → Chars → Chars → Result ScheduleError ℕ
  next_recurrence_ms scheduled_for repeat_rule timezone =
      and_then (parse_repeat_rule repeat_rule)
        (λ r. and_then (canonical_timezone (some timezone)) (next_after zones r scheduled_for))

  -- The last check, and the schedule.
  unfoldable pub checked :
      ℕ → Option ReminderRecurrence → Chars → ℤ → Result ScheduleError ReminderSchedule
  checked now recurrence name at =
      if is_future now at
      then schedule
          (record { next_fire_at_ms = at; repeat_rule = canonical_of recurrence; timezone = name })
      else err not_in_future

module _ (zones : Chars → Option Zone) (fromisoformat : Chars → Option (Option ℤ)) where
  -- `parse_fire_at`
  unfoldable pub parse_fire_at : Chars → Result ScheduleError ℤ
  parse_fire_at value =
      if has b'T' value then moment_of (fromisoformat (normalized value)) else err fire_at_invalid

  -- The branches that choose `next_fire_at_ms`.
  unfoldable pub fire_time :
      ℕ → Option ℤ → Option Chars → Option ReminderRecurrence → Chars → Result ScheduleError ℤ
  fire_time now (some delay) fire_at recurrence name = ok (shifted now (times_second delay))
  fire_time now none (some fire_at) recurrence name = parse_fire_at fire_at
  fire_time now none none recurrence name = repeat_first zones recurrence now name

  -- `resolve_schedule`
  unfoldable pub resolve_schedule :
      ℕ
      → Option ℤ
      → Option Chars
      → Option Chars
      → Option Chars
      → Result ScheduleError ReminderSchedule
  resolve_schedule now delay fire_at repeat_rule timezone =
      if not (is_none delay) && not (is_none fire_at)
      then err both_given
      else if is_none delay && is_none fire_at && is_none repeat_rule
      then err none_given
      else and_then (canonical_timezone zones timezone) (λ name.
        and_then (parse_optional repeat_rule) (λ recurrence.
          and_then (fire_time now delay fire_at recurrence name)
            (checked zones now recurrence name)))
