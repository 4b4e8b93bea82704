-- ===== src/Schedule/RoundTrip.antt =====
-- A parsed rule is written in a form that is parsed to the same rule.
pub mod Parsed
use bazaar_compute_node.Prelude.{
  ℕ, zero, suc, ◌+◌, ◌-◌, ◌*◌, ◌/◌, ◌%◌, ◌≤◌, ◌<◌, ◌≡◌, ◌≢◌, refl, sym, ◌∙◌, ap, subst, arith, Bool,
  true, false, not, ◌&&◌, ◌||◌, Option, none, some, Option-cases, List, [], ◌∷◌, ◌++◌, ltb,
  ltb_false→le, leb, ◌==◌, ==_iff, ==_refl, Bool-cases, inl, inr, if◌then◌else◌, append_assoc,
}
use bazaar_compute_node.Prelude.Result.{Result, ok, err}
use bazaar_compute_node.Schedule.{
  Chars, LocalTime, ReminderDuration, ReminderRecurrence, ScheduleError, same, is_empty, any_beyond,
  sorted_set, recurrence_error, raise_or, construct,
}
use bazaar_compute_node.Schedule.Rules.{
  is_digit, is_unit, is_not_at, all_of, take_while, drop_while, int_from, show, CountMatch,
  ClockMatch, WeeklyMatch, match_unit, match_duration, behind, on_rest, match_every, match_clock,
  match_daily, parse_local_time, split_comma, all_words, with_names, at_clock, match_weekdays,
  match_weekly, weekday_numbers, join_names, format_clock, every_rule, daily_rule, weekly_rule,
  every_of, daily_of, weekly_of, rule_of, canonical_count, parse_repeat_rule, duration_of,
  parse_duration,
}
use bazaar_compute_node.Schedule.Digits.{
  take_while-span, drop_while-span, int_from-show, show-digits, show-filled, digit-IsDigit,
}
use bazaar_compute_node.Schedule.Names.{
  names_of, join_names-not_at, split_comma-join, all_words-names, weekday_numbers-names,
}

-- What the parser can return.
pub data IsRule : ReminderRecurrence → Type 0 where
  every_IsRule : (count unit : ℕ) → count ≢ 0 → is_unit unit ≡ true → IsRule (every_rule count unit)
  daily_IsRule : (t : LocalTime) → t.hour ≤ 23 → t.minute ≤ 59 → IsRule (daily_rule t)
  weekly_IsRule :
      (d : ℕ) (ds : List ℕ) (t : LocalTime)
      → any_beyond (d ∷ ds) ≡ false
      → sorted_set (d ∷ ds) ≡ d ∷ ds
      → t.hour ≤ 23
      → t.minute ≤ 59
      → IsRule (weekly_rule (d ∷ ds) t)

pub same_refl : (xs : List ℕ) → same xs xs ≡ true
unfolding same
same_refl [] = refl
same_refl (x ∷ xs) = simp (==_refl x, same_refl xs)

pub same-path : (xs ys : List ℕ) → same xs ys ≡ true → xs ≡ ys
unfolding same
same-path [] [] h = refl
same-path [] (y ∷ ys) h = absurd (cc h)
same-path (x ∷ xs) [] h = absurd (cc h)
same-path (x ∷ xs) (y ∷ ys) h = elim (Bool-cases (x == y)) [
  | inl e ↦
      let first : x ≡ y = (==_iff x y).0 e in
      let rest : xs ≡ ys = same-path xs ys (rw e at h) in cc (first, rest)
  | inr other ↦ absurd (cc (rw other at h))
]

unit-not_digit : (u : ℕ) → is_unit u ≡ true → is_digit u ≡ false
unfolding is_unit is_digit
unit-not_digit u h = ground arith

match_duration-show :
    (count unit : ℕ)
    → is_unit unit ≡ true
    → match_duration (canonical_count count unit)
      ≡ some (record { count = show count; unit = unit })
unfolding match_duration canonical_count
match_duration-show count unit h =
    let front : take_while is_digit (show count ++ unit ∷ []) ≡ show count =
      take_while-span is_digit unit [] (unit-not_digit unit h) (show count) (show-digits count) in
    let back : drop_while is_digit (show count ++ unit ∷ []) ≡ unit ∷ [] =
      drop_while-span is_digit unit [] (unit-not_digit unit h) (show count) (show-digits count) in
    rw (front, back) (unfold match_unit in simp (h, show-filled count) refl)

every-parse :
    (count unit : ℕ)
    → count ≢ 0
    → is_unit unit ≡ true
    → parse_repeat_rule (every_rule count unit).canonical ≡ ok (every_rule count unit)
unfolding parse_repeat_rule on_rest behind rule_of every_of construct recurrence_error raise_or
every-parse count unit positive h =
    let zero_test : (count == 0) ≡ false = ground arith in
    rw (match_duration-show count unit h) (simp (int_from-show count, zero_test) refl)

match_clock-format :
    (t : LocalTime)
    → t.hour ≤ 23
    → t.minute ≤ 59
    → match_clock (format_clock t)
      ≡ some (record {
        hour = (48 + t.hour / 10) ∷ (48 + t.hour % 10) ∷ [];
        minute = (48 + t.minute / 10) ∷ (48 + t.minute % 10) ∷ [];
      })
unfolding match_clock format_clock
match_clock-format t h m =
    simp
      (
        digit-IsDigit (t.hour / 10) (omega arith),
        digit-IsDigit (t.hour % 10) (omega arith),
        digit-IsDigit (t.minute / 10) (omega arith),
        digit-IsDigit (t.minute % 10) (omega arith),
      )
      refl

parse_local_time-format :
    (t : LocalTime)
    → t.hour ≤ 23
    → t.minute ≤ 59
    → parse_local_time (record {
      hour = (48 + t.hour / 10) ∷ (48 + t.hour % 10) ∷ [];
      minute = (48 + t.minute / 10) ∷ (48 + t.minute % 10) ∷ [];
    })
      ≡ ok t
unfolding parse_local_time
parse_local_time-format t h m =
    let hour_digits : int_from 0 ((48 + t.hour / 10) ∷ (48 + t.hour % 10) ∷ []) ≡ t.hour =
      unfold int_from in omega arith in
    let minute_digits : int_from 0 ((48 + t.minute / 10) ∷ (48 + t.minute % 10) ∷ []) ≡ t.minute =
      unfold int_from in omega arith in
    let hour_test : ltb 23 t.hour ≡ false = ground arith in
    let minute_test : ltb 59 t.minute ≡ false = ground arith in
    simp (hour_digits, minute_digits, hour_test, minute_test) refl

daily-parse :
    (t : LocalTime)
    → t.hour ≤ 23
    → t.minute ≤ 59
    → parse_repeat_rule (daily_rule t).canonical ≡ ok (daily_rule t)
unfolding parse_repeat_rule on_rest behind rule_of daily_of construct recurrence_error raise_or
daily-parse t h m = rw (match_clock-format t h m) (rw (parse_local_time-format t h m) refl)

match_weekdays-format :
    (d : ℕ) (ds : List ℕ) (t : LocalTime) (m : ClockMatch)
    → match_clock (format_clock t) ≡ some m
    → match_weekdays (join_names (d ∷ ds) ++ b'@' ∷ format_clock t)
      ≡ some (record { names = names_of (d ∷ ds); clock = m })
unfolding match_weekdays
match_weekdays-format d ds t m h =
    let front : take_while is_not_at (join_names (d ∷ ds) ++ b'@' ∷ format_clock t)
        ≡ join_names (d ∷ ds) =
      take_while-span is_not_at b'@' (format_clock t) refl (join_names (d ∷ ds))
        (join_names-not_at (d ∷ ds)) in
    let back : drop_while is_not_at (join_names (d ∷ ds) ++ b'@' ∷ format_clock t)
        ≡ b'@' ∷ format_clock t =
      drop_while-span is_not_at b'@' (format_clock t) refl (join_names (d ∷ ds))
        (join_names-not_at (d ∷ ds)) in
    rw (front, back)
      (rw (split_comma-join d ds)
        (unfold at_clock with_names in simp (h, all_words-names (d ∷ ds)) refl))

weekly-parse :
    (d : ℕ) (ds : List ℕ) (t : LocalTime)
    → any_beyond (d ∷ ds) ≡ false
    → sorted_set (d ∷ ds) ≡ d ∷ ds
    → t.hour ≤ 23
    → t.minute ≤ 59
    → parse_repeat_rule (weekly_rule (d ∷ ds) t).canonical ≡ ok (weekly_rule (d ∷ ds) t)
unfolding parse_repeat_rule on_rest behind rule_of weekly_of construct recurrence_error raise_or
weekly-parse d ds t valid sorted h m =
    let matched = match_weekdays-format d ds t _ (match_clock-format t h m) in
    rw matched (
      rw (parse_local_time-format t h m)
        (rw (weekday_numbers-names (d ∷ ds) valid) (simp (sorted, valid, same_refl (d ∷ ds)) refl)))

-- The canonical form of a rule that the parser can return is parsed to that rule.
pub IsRule-parse : (r : ReminderRecurrence) → IsRule r → parse_repeat_rule r.canonical ≡ ok r
IsRule-parse _ (every_IsRule count unit positive h) = every-parse count unit positive h
IsRule-parse _ (daily_IsRule t h m) = daily-parse t h m
IsRule-parse _ (weekly_IsRule d ds t valid sorted h m) = weekly-parse d ds t valid sorted h m
