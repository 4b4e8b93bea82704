-- ===== src/Schedule/Slots.antt =====
-- bazaar_compute_node/core/reminder_schedule.py: the next time of a recurrence. A moment is the
-- number of milliseconds since the day of ordinal 0 of `datetime`, in UTC or, where it is naive, on
-- the clock of a zone; a timestamp counts from 1970, which is `epoch_ms`. The time zone database is a
-- parameter: `zones` gives the zone of a name, where there is one.
pub mod Later
pub mod First
pub mod Found
use bazaar_compute_node.Prelude.{
  ℕ, zero, suc, ◌+◌, ◌-◌, ◌*◌, ◌/◌, ◌%◌, Bool, true, false, not, ◌&&◌, ◌||◌, Option, none, some,
  List, [], ◌∷◌, ltb, ◌==◌, if◌then◌else◌,
}
use bazaar_compute_node.Prelude.Result.{Result, ok, err, and_then}
use bazaar_compute_node.Schedule.{
  Chars, RecurrenceKind, every, daily, weekly, LocalTime, ReminderRecurrence, ScheduleError,
  timezone_invalid, no_interval, no_local_time, gap_too_long, no_slot, is_empty, ms_per_minute,
  ms_per_hour, ms_per_day,
}

-- A `ZoneInfo`: the naive time that it shows at a moment, and the moment of a naive time with
-- `fold=0`.
pub record Zone : Type 0 where
  pub local : ℕ → ℕ
  pub instant : ℕ → ℕ

-- `_EPOCH`: 1970-01-01 is the day of ordinal 719163.
abbrev pub epoch_ms : ℕ
epoch_ms = 719163 * ms_per_day

-- `date.weekday`
unfoldable pub weekday : ℕ → ℕ
weekday date = (date + 6) % 7

-- `datetime.combine`
abbrev pub combine : ℕ → LocalTime → ℕ
combine date t = date * ms_per_day + (t.hour * ms_per_hour + t.minute * ms_per_minute)

-- `_roundtrips_to`
abbrev pub roundtrips_to : Zone → ℕ → Bool
roundtrips_to zone naive = zone.local (zone.instant naive) == naive

-- The loop of `_resolve_local_datetime`, with the minutes that are left to probe.
unfoldable pub probe_from : Zone → ℕ → ℕ → Result ScheduleError ℕ
probe_from zone zero probe = err gap_too_long
probe_from zone (suc left) probe =
    let next = probe + ms_per_minute in
    let later = probe_from zone left next in if roundtrips_to zone next then ok next else later

-- `_resolve_local_datetime`
unfoldable pub resolve_local_datetime : Zone → ℕ → Result ScheduleError ℕ
resolve_local_datetime zone value =
    if roundtrips_to zone value then ok value else probe_from zone 1440 value

unfoldable pub mem : ℕ → List ℕ → Bool
mem d [] = false
mem d (e ∷ es) = d == e || mem d es

abbrev pub is_weekly : RecurrenceKind → Bool
is_weekly weekly = true
is_weekly every = false
is_weekly daily = false

-- Whether the loop passes over a date.
unfoldable pub is_skipped : ReminderRecurrence → ℕ → Bool
is_skipped r date = is_weekly r.kind && not (mem (weekday date) r.weekdays)

-- A candidate that lies behind the timestamp, else what the later dates give.
unfoldable pub take_later :
    Zone → ℕ → Result ScheduleError ℕ → Result ScheduleError ℕ → Result ScheduleError ℕ
take_later zone timestamp (err e) later = err e
take_later zone timestamp (ok naive) later =
    if ltb (timestamp + epoch_ms) (zone.instant naive)
    then ok (zone.instant naive - epoch_ms)
    else later

-- The loop of `_next_calendar_slot`, over the `left` dates from `date` on.
unfoldable pub slot_from :
    ReminderRecurrence → LocalTime → Zone → ℕ → ℕ → ℕ → Result ScheduleError ℕ
slot_from r t zone timestamp zero date = err no_slot
slot_from r t zone timestamp (suc left) date =
    let later = slot_from r t zone timestamp left (suc date) in
    if is_skipped r date
    then later
    else take_later zone timestamp (resolve_local_datetime zone (combine date t)) later

-- `current.date()`
abbrev pub local_date : Zone → ℕ → ℕ
local_date zone timestamp = zone.local (timestamp + epoch_ms) / ms_per_day

unfoldable pub slot_at : ReminderRecurrence → Option LocalTime → Zone → ℕ → Result ScheduleError ℕ
slot_at r none zone timestamp = err no_local_time
slot_at r (some t) zone timestamp = slot_from r t zone timestamp 8 (local_date zone timestamp)

-- `_next_calendar_slot`
abbrev pub next_calendar_slot : ReminderRecurrence → ℕ → Zone → Result ScheduleError ℕ
next_calendar_slot r timestamp zone = slot_at r r.local_time zone timestamp

unfoldable pub add_interval : Option ℕ → ℕ → Result ScheduleError ℕ
add_interval none timestamp = err no_interval
add_interval (some ms) timestamp = ok (timestamp + ms)

unfoldable pub first_of : RecurrenceKind → ReminderRecurrence → ℕ → Zone → Result ScheduleError ℕ
first_of every r timestamp zone = add_interval r.interval_ms timestamp
first_of daily r timestamp zone = next_calendar_slot r timestamp zone
first_of weekly r timestamp zone = next_calendar_slot r timestamp zone

unfoldable pub zone_of : Option Zone → Result ScheduleError Zone
zone_of none = err timezone_invalid
zone_of (some zone) = ok zone

-- `_load_timezone`
unfoldable pub load_timezone : (Chars → Option Zone) → Chars → Result ScheduleError Zone
load_timezone zones name = if is_empty name then err timezone_invalid else zone_of (zones name)

-- `ReminderRecurrence.first_after`
unfoldable pub first_after :
    (Chars → Option Zone) → ReminderRecurrence → ℕ → Chars → Result ScheduleError ℕ
first_after zones r timestamp name =
    and_then (load_timezone zones name) (first_of r.kind r timestamp)

-- `ReminderRecurrence.next_after`
abbrev pub next_after :
    (Chars → Option Zone) → ReminderRecurrence → ℕ → Chars → Result ScheduleError ℕ
next_after = first_after
