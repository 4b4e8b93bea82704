-- ===== src/Schedule/Tests.antt =====
-- Tests of Schedule.antt and its children: rules in many forms, in a zone five hours behind UTC.
use bazaar_compute_node.Prelude.{
  inr, ℕ, ◌+◌, ◌-◌, ◌*◌, ◌≤◌, ◌<◌, ◌≡◌, refl, arith, ◌==◌, ==_iff, ◌↔◌, [], ◌∷◌, Option, none, some,
  true, ℤ, pos,
}
use bazaar_compute_node.Prelude.Result.{ok, err}
use bazaar_compute_node.Schedule.{
  Chars, LocalTime, ReminderRecurrence, time_invalid, not_in_future, construct, recurrence_error,
  raise_or, sorted_set, insert_day, any_beyond, same, ms_per_hour,
}
use bazaar_compute_node.Schedule.Rules.{
  parse_repeat_rule, parse_duration, weekly_rule, rule_of, on_rest, behind, every_of, daily_of,
  weekly_of, match_duration, match_unit, take_while, drop_while, match_clock, match_weekdays,
  with_names, at_clock, split_comma, extend_first, all_words, all_of, is_digit, is_lower, is_unit,
  int_from, show_from, canonical_count, unit_ms, parse_local_time, weekday_numbers, number_from,
  number_onto, weekday_name, join_names, format_clock, duration_of,
}
use bazaar_compute_node.Schedule.RoundTrip.Parsed.{parse-canonical}
use bazaar_compute_node.Schedule.Slots.{
  Zone, epoch_ms, weekday, combine, resolve_local_datetime, mem, is_skipped, take_later, slot_from,
  slot_at, local_date, next_calendar_slot, first_of, zone_of, load_timezone, first_after,
}
use bazaar_compute_node.Schedule.Slots.First.{
  Allowed, Slot, IsOrdered, next_calendar_slot-Slot, next_calendar_slot-least,
}
use bazaar_compute_node.Schedule.Slots.Found.{IsRegular, first_after-found}
use bazaar_compute_node.Schedule.Resolve.{
  ReminderSchedule, utc, canonical_timezone, next_recurrence_ms, resolve_schedule, or_utc,
  parse_optional, fire_time, checked, is_future, shifted, times_second,
}
use bazaar_compute_node.Schedule.Resolve.Future.{
  again, in_seconds, Plan, next_recurrence-later, resolve_schedule-Plan,
}

-- "weekly:wed,mon,wed@09:30"
abbrev weekly_text : Chars
weekly_text =
    b'w' ∷ b'e' ∷ b'e' ∷ b'k' ∷ b'l' ∷ b'y' ∷ b':' ∷ b'w' ∷ b'e' ∷ b'd' ∷ b',' ∷ b'm' ∷ b'o' ∷ b'n'
    ∷ b',' ∷ b'w' ∷ b'e' ∷ b'd' ∷ b'@' ∷ b'0' ∷ b'9' ∷ b':' ∷ b'3' ∷ b'0' ∷ []

-- "daily@24:00"
abbrev late_text : Chars
late_text = b'd' ∷ b'a' ∷ b'i' ∷ b'l' ∷ b'y' ∷ b'@' ∷ b'2' ∷ b'4' ∷ b':' ∷ b'0' ∷ b'0' ∷ []

-- "090m"
abbrev duration_text : Chars
duration_text = b'0' ∷ b'9' ∷ b'0' ∷ b'm' ∷ []

abbrev half_past_nine : LocalTime
half_past_nine = record { hour = 9; minute = 30 }

abbrev mondays : ReminderRecurrence
mondays = weekly_rule (0 ∷ 2 ∷ []) half_past_nine

weekly_parsed : parse_repeat_rule weekly_text ≡ ok mondays
unfolding parse_repeat_rule rule_of on_rest behind every_of daily_of weekly_of construct
    recurrence_error raise_or sorted_set insert_day any_beyond same match_duration match_unit
    match_clock match_weekdays with_names at_clock split_comma extend_first all_words all_of
    take_while drop_while is_digit is_lower is_unit int_from parse_local_time weekday_numbers
    number_from number_onto weekday_name join_names format_clock
weekly_parsed = refl

late_rejected : parse_repeat_rule late_text ≡ err time_invalid
unfolding parse_repeat_rule rule_of on_rest behind every_of daily_of weekly_of construct
    recurrence_error raise_or sorted_set insert_day any_beyond same match_duration match_unit
    match_clock match_weekdays with_names at_clock split_comma extend_first all_words all_of
    take_while drop_while is_digit is_lower is_unit int_from parse_local_time weekday_numbers
    number_from number_onto weekday_name join_names format_clock
late_rejected = refl

duration_parsed :
    parse_duration duration_text
    ≡ ok (record { milliseconds = 5400000; canonical = b'9' ∷ b'0' ∷ b'm' ∷ [] })
unfolding duration_of match_duration match_unit take_while drop_while is_digit is_unit int_from
    show_from canonical_count unit_ms
duration_parsed = refl

parse-canonical_example : parse_repeat_rule mondays.canonical ≡ ok mondays
parse-canonical_example = parse-canonical weekly_text mondays weekly_parsed

-- Five hours behind UTC.
abbrev west : Zone
west = record { local = λ u. u - 5 * ms_per_hour; instant = λ v. v + 5 * ms_per_hour }

-- 1970-01-01 is a Thursday, so that the next Monday is the fifth of January.
monday_slot : next_calendar_slot mondays 0 west ≡ ok 397800000
unfolding slot_at slot_from is_skipped weekday mem take_later resolve_local_datetime
monday_slot = refl

next_calendar_slot-Slot_example :
    (t : LocalTime) × (mondays.local_time ≡ some t)
    × Slot mondays t west 0 (local_date west 0) 8 397800000
next_calendar_slot-Slot_example = next_calendar_slot-Slot mondays 0 west 397800000 monday_slot

west_resolves : (value v : ℕ) → resolve_local_datetime west value ≡ ok v → value ≡ v
unfolding resolve_local_datetime
west_resolves value v h =
    let back : value + 5 * ms_per_hour - 5 * ms_per_hour ≡ value = omega arith in
    let shown : (value + 5 * ms_per_hour - 5 * ms_per_hour == value) ≡ true = (==_iff _ _).1 back in
    cc (rw shown at h)

west-IsOrdered : (t : LocalTime) → IsOrdered west t
west-IsOrdered t d e v w order first second =
    omega (arith, west_resolves (combine d t) v first, west_resolves (combine e t) w second)

-- Monday the twelfth comes after Monday the fifth.
next_calendar_slot-least_example :
    397800000 + epoch_ms ≤ combine 719174 half_past_nine + 5 * ms_per_hour
next_calendar_slot-least_example =
    next_calendar_slot-least mondays half_past_nine west 0 (west-IsOrdered half_past_nine) 719174
      397800000 (combine 719174 half_past_nine) refl monday_slot (omega arith) twelfth_kept
      twelfth_resolved (omega arith)
  where
    twelfth_kept : Allowed mondays 719174
    twelfth_kept = inr (unfold weekday mem in refl)

    twelfth_resolved :
        resolve_local_datetime west (combine 719174 half_past_nine)
        ≡ ok (combine 719174 half_past_nine)
    twelfth_resolved = unfold resolve_local_datetime in refl

west-IsRegular : (timestamp : ℕ) → IsRegular west timestamp
west-IsRegular timestamp = record { shows = λ v h. omega arith; onward = λ v h. omega arith }

-- A database of one zone, whatever its name.
abbrev one_zone : Chars → Option Zone
one_zone name = some west

first_after-found_example : (n : ℕ) × (first_after one_zone mondays 0 utc ≡ ok n)
first_after-found_example =
    first_after-found one_zone mondays 0 utc west mondays_valid refl refl (west-IsRegular 0)
  where
    mondays_valid : recurrence_error mondays ≡ none
    mondays_valid = unfold recurrence_error any_beyond sorted_set insert_day same in refl

monday_recurs : next_recurrence_ms one_zone 0 weekly_text utc ≡ ok 397800000
unfolding next_recurrence_ms canonical_timezone first_after first_of load_timezone zone_of or_utc
monday_recurs = rw (weekly_parsed, monday_slot) refl

next_recurrence-later_example : 0 < 397800000
next_recurrence-later_example =
    next_recurrence-later one_zone 0 weekly_text utc 397800000 monday_recurs

-- No text is a time of the ISO.
abbrev no_time : Chars → Option (Option ℤ)
no_time value = none

-- In ninety seconds, and then on Mondays and Wednesdays.
abbrev planned : ReminderSchedule
planned = record {
  next_fire_at_ms = pos 90005;
  repeat_rule = some mondays.canonical;
  timezone = utc;
}

resolve_schedule-Plan_example :
    (resolve_schedule one_zone no_time 5 (some (pos 90)) none (some weekly_text) none ≡ ok planned)
    ↔ Plan one_zone no_time 5 (some (pos 90)) none (some weekly_text) none planned
resolve_schedule-Plan_example =
    resolve_schedule-Plan one_zone no_time 5 (some (pos 90)) none (some weekly_text) none planned

planned_resolved :
    resolve_schedule one_zone no_time 5 (some (pos 90)) none (some weekly_text) none ≡ ok planned
planned_resolved =
    (resolve_schedule-Plan one_zone no_time 5 (some (pos 90)) none (some weekly_text) none
        planned).1
      (record {
        named = unfold or_utc in refl;
        zone = west;
        zone_known = unfold load_timezone zone_of in refl;
        recurrence = some mondays;
        repeats = again weekly_text mondays weekly_parsed;
        first = 90005;
        fires = refl;
        when = in_seconds 90 (some mondays) utc;
        future = omega arith;
      })

-- A delay of no time is not in the future.
at_once_rejected :
    resolve_schedule one_zone no_time 5 (some (pos 0)) none none none ≡ err not_in_future
unfolding resolve_schedule canonical_timezone load_timezone zone_of or_utc parse_optional fire_time
    shifted times_second checked is_future
at_once_rejected = refl
