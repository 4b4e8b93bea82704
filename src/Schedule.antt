-- ===== src/Schedule.antt =====
-- bazaar_compute_node/core/reminder_schedule.py: when a reminder fires, and when it fires again. A
-- text is the list of its code points. The type checks of the parsers are those of the model, and
-- Python's bounds on the digits of `int` and on the years of `datetime` are left out.
pub mod Rules
pub mod Slots
pub mod Resolve
mod Digits
mod Names
pub mod RoundTrip
mod Tests
use bazaar_compute_node.Prelude.{
  ℕ, ◌*◌, Bool, true, false, not, ◌&&◌, ◌||◌, Option, none, some, is_none, List, [], ◌∷◌, ltb, ◌==◌,
  if◌then◌else◌,
}
use bazaar_compute_node.Prelude.Result.{Result, ok, err}

abbrev pub Chars : Type 0
Chars = List ℕ

abbrev pub ms_per_second : ℕ
ms_per_second = 1000

abbrev pub ms_per_minute : ℕ
ms_per_minute = 60000

abbrev pub ms_per_hour : ℕ
ms_per_hour = 3600000

abbrev pub ms_per_day : ℕ
ms_per_day = 86400000

-- `RecurrenceKind`
pub data RecurrenceKind : Type 0 where
  every daily weekly : RecurrenceKind

-- `datetime.time` of an hour and a minute.
pub record LocalTime : Type 0 where
  pub hour : ℕ
  pub minute : ℕ

-- `ReminderDuration`
pub record ReminderDuration : Type 0 where
  pub milliseconds : ℕ
  pub canonical : Chars

-- `ReminderRecurrence`
pub record ReminderRecurrence : Type 0 where
  pub kind : RecurrenceKind
  pub canonical : Chars
  pub interval_ms : Option ℕ
  pub local_time : Option LocalTime
  pub weekdays : List ℕ

-- The exceptions, by their messages.
pub data ScheduleError : Type 0 where
  every_without_interval every_with_calendar daily_without_time daily_with_fields : ScheduleError
  weekly_without_calendar weekly_with_interval weekday_invalid weekdays_unordered : ScheduleError
  duration_invalid duration_not_positive interval_not_positive rule_invalid name_invalid :
      ScheduleError
  no_weekday time_invalid timezone_invalid no_interval no_local_time gap_too_long no_slot :
      ScheduleError
  fire_at_invalid fire_at_naive both_given none_given no_recurrence not_in_future : ScheduleError
  rule_empty rule_not_canonical timezone_not_canonical : ScheduleError

abbrev pub is_empty {ℓ} : {A : Type ℓ} → List A → Bool
is_empty [] = true
is_empty (x ∷ xs) = false

-- Equality of two tuples of numbers, and of two texts.
unfoldable pub same : List ℕ → List ℕ → Bool
same [] [] = true
same [] (y ∷ ys) = false
same (x ∷ xs) [] = false
same (x ∷ xs) (y ∷ ys) = x == y && same xs ys

-- One number into a sorted list of distinct ones.
unfoldable pub insert_day : ℕ → List ℕ → List ℕ
insert_day d [] = d ∷ []
insert_day d (e ∷ es) =
    let rest = insert_day d es in
    if ltb d e then d ∷ e ∷ es else if d == e then e ∷ es else e ∷ rest

-- `tuple(sorted(set(...)))`
unfoldable pub sorted_set : List ℕ → List ℕ
sorted_set [] = []
sorted_set (d ∷ ds) = insert_day d (sorted_set ds)

-- `any(weekday > 6 ...)`; no number here is below zero.
unfoldable pub any_beyond : List ℕ → Bool
any_beyond [] = false
any_beyond (d ∷ ds) = ltb 6 d || any_beyond ds

abbrev pub every_error : ReminderRecurrence → Option ScheduleError
every_error r =
    if is_none r.interval_ms
    then some every_without_interval
    else if not (is_none r.local_time) || not (is_empty r.weekdays)
    then some every_with_calendar
    else none

abbrev pub daily_error : ReminderRecurrence → Option ScheduleError
daily_error r =
    if is_none r.local_time
    then some daily_without_time
    else if not (is_none r.interval_ms) || not (is_empty r.weekdays)
    then some daily_with_fields
    else none

abbrev pub weekly_error : ReminderRecurrence → Option ScheduleError
weekly_error r =
    if is_none r.local_time || is_empty r.weekdays
    then some weekly_without_calendar
    else if not (is_none r.interval_ms)
    then some weekly_with_interval
    else if any_beyond r.weekdays
    then some weekday_invalid
    else if not (same (sorted_set r.weekdays) r.weekdays)
    then some weekdays_unordered
    else none

-- The checks of one kind.
abbrev pub kind_error : RecurrenceKind → ReminderRecurrence → Option ScheduleError
kind_error every r = every_error r
kind_error daily r = daily_error r
kind_error weekly r = weekly_error r

-- `ReminderRecurrence.__post_init__`
unfoldable pub recurrence_error : ReminderRecurrence → Option ScheduleError
recurrence_error r = kind_error r.kind r

unfoldable pub raise_or : {A : Type 0} → Option ScheduleError → A → Result ScheduleError A
raise_or none a = ok a
raise_or (some e) a = err e

-- A call of the constructor of `ReminderRecurrence`.
unfoldable pub construct : ReminderRecurrence → Result ScheduleError ReminderRecurrence
construct r = raise_or (recurrence_error r) r
