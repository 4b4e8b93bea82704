-- ===== src/Schedule/RoundTrip/Parsed.antt =====
-- What the parser returns, and the round trip of its canonical form.
use bazaar_compute_node.Prelude.{
  ℕ, ◌≤◌, ◌≡◌, refl, ap, subst, arith, true, false, not, ◌&&◌, ◌||◌, Option, none, some, some_inj,
  List, [], ◌∷◌, ltb, ◌==◌, Bool-cases, inl, inr,
}
use bazaar_compute_node.Prelude.Result.{Result, ok, err}
use bazaar_compute_node.Schedule.{
  Chars, LocalTime, ReminderRecurrence, ScheduleError, is_empty, sorted_set, recurrence_error,
  raise_or, construct,
}
use bazaar_compute_node.Schedule.Rules.{
  is_digit, is_unit, take_while, drop_while, int_from, CountMatch, ClockMatch, WeeklyMatch,
  match_unit, match_duration, on_rest, match_every, match_daily, parse_local_time, match_weekly,
  weekday_numbers, every_rule, daily_rule, weekly_rule, every_of, daily_of, weekly_of, rule_of,
  parse_repeat_rule,
}
use bazaar_compute_node.Schedule.RoundTrip.{
  IsRule, every_IsRule, daily_IsRule, weekly_IsRule, IsRule-parse, same-path,
}

match_unit-unit :
    (count s : Chars) (m : CountMatch) → match_unit count s ≡ some m → is_unit m.unit ≡ true
unfolding match_unit
match_unit-unit count [] m h = absurd (cc h)
match_unit-unit count (u ∷ []) m h = elim (Bool-cases (is_unit u && not (is_empty count))) [
  | inl good ↦
      let whole : record { count = count; unit = u } ≡ m = some_inj (rw good at h) in
      let unit_of : u ≡ m.unit = ap (λ (x : CountMatch). x.unit) whole in ground arith
  | inr bad ↦ absurd (cc (rw bad at h))
]
match_unit-unit count (u ∷ v ∷ vs) m h = absurd (cc h)

match_every-unit :
    (o : Option Chars) (m : CountMatch) → on_rest match_duration o ≡ some m → is_unit m.unit ≡ true
unfolding on_rest match_duration
match_every-unit none m h = absurd (cc h)
match_every-unit (some s) m h = match_unit-unit (take_while is_digit s) (drop_while is_digit s) m h

every_of-IsRule :
    (m : CountMatch) (r : ReminderRecurrence) → is_unit m.unit ≡ true → every_of m ≡ ok r → IsRule r
unfolding every_of construct recurrence_error raise_or
every_of-IsRule m r unit h = elim (Bool-cases (int_from 0 m.count == 0)) [
  | inl zero_count ↦ absurd (cc (rw zero_count at h))
  | inr positive ↦
      let built : every_rule (int_from 0 m.count) m.unit ≡ r = cc (rw positive at h) in
      subst IsRule built (every_IsRule (int_from 0 m.count) m.unit (ground arith) unit)
]

-- The hours of a day and the minutes of an hour.
abbrev IsClock : LocalTime → Type 0
IsClock t = (t.hour ≤ 23) × (t.minute ≤ 59)

parse_local_time-IsClock : (m : ClockMatch) (t : LocalTime) → parse_local_time m ≡ ok t → IsClock t
unfolding parse_local_time
parse_local_time-IsClock m t h =
    elim (Bool-cases (ltb 23 (int_from 0 m.hour) || ltb 59 (int_from 0 m.minute))) [
      | inl beyond ↦ absurd (cc (rw beyond at h))
      | inr inside ↦
          let whole : record { hour = int_from 0 m.hour; minute = int_from 0 m.minute } ≡ t =
            cc (rw inside at h) in
          subst IsClock whole (ground arith, ground arith)
    ]

daily_of-IsRule :
    (o : Result ScheduleError LocalTime) (r : ReminderRecurrence)
    → ((t : LocalTime) → o ≡ ok t → IsClock t)
    → daily_of o ≡ ok r
    → IsRule r
unfolding daily_of construct recurrence_error raise_or
daily_of-IsRule (err e) r clock h = absurd (cc h)
daily_of-IsRule (ok t) r clock h =
    let built : daily_rule t ≡ r = cc h in
    subst IsRule built (daily_IsRule t (clock t refl).0 (clock t refl).1)

construct-ok :
    (s r : ReminderRecurrence) → construct s ≡ ok r → (recurrence_error s ≡ none) × (s ≡ r)
unfolding construct
construct-ok s r = go (recurrence_error s)
  where
    go : (o : Option ScheduleError) → raise_or o s ≡ ok r → (o ≡ none) × (s ≡ r)
    go none h = (refl, unfold raise_or in cc h)
    go (some e) h = absurd (unfold raise_or in cc h)

weekly_rule-IsRule :
    (days : List ℕ) (t : LocalTime) (r : ReminderRecurrence)
    → IsClock t
    → is_empty days ≡ false
    → construct (weekly_rule days t) ≡ ok r
    → IsRule r
weekly_rule-IsRule [] t r clock filled h = absurd (cc filled)
weekly_rule-IsRule (d ∷ ds) t r clock filled h =
    let built = construct-ok (weekly_rule (d ∷ ds) t) r h in
    subst IsRule built.1 (
      weekly_IsRule d ds t (unfold recurrence_error in ground arith)
        (same-path (sorted_set (d ∷ ds)) (d ∷ ds) (unfold recurrence_error in ground arith)) clock.0
        clock.1)

weekly_of-IsRule :
    (o : Result ScheduleError LocalTime) (numbers : Option (List ℕ)) (r : ReminderRecurrence)
    → ((t : LocalTime) → o ≡ ok t → IsClock t)
    → weekly_of o numbers ≡ ok r
    → IsRule r
unfolding weekly_of
weekly_of-IsRule (err e) numbers r clock h = absurd (cc h)
weekly_of-IsRule (ok t) none r clock h = absurd (cc h)
weekly_of-IsRule (ok t) (some numbers) r clock h =
    elim (Bool-cases (is_empty (sorted_set numbers))) [
      | inl no_day ↦ absurd (cc (rw no_day at h))
      | inr filled ↦
          weekly_rule-IsRule (sorted_set numbers) t r (clock t refl) filled (rw filled at h)
    ]

rule_of-IsRule :
    (e : Option CountMatch) (d : Option ClockMatch) (w : Option WeeklyMatch)
    (r : ReminderRecurrence)
    → ((m : CountMatch) → e ≡ some m → is_unit m.unit ≡ true)
    → rule_of e d w ≡ ok r
    → IsRule r
unfolding rule_of
rule_of-IsRule (some m) d w r unit h = every_of-IsRule m r (unit m refl) h
rule_of-IsRule none (some m) w r unit h =
    daily_of-IsRule (parse_local_time m) r (parse_local_time-IsClock m) h
rule_of-IsRule none none (some m) r unit h =
    weekly_of-IsRule (parse_local_time m.clock) (weekday_numbers m.names) r
      (parse_local_time-IsClock m.clock) h
rule_of-IsRule none none none r unit h = absurd (cc h)

pub parse-IsRule :
    (value : Chars) (r : ReminderRecurrence) → parse_repeat_rule value ≡ ok r → IsRule r
unfolding parse_repeat_rule
parse-IsRule value r h =
    rule_of-IsRule (match_every value) (match_daily value) (match_weekly value) r
      (match_every-unit _) h

-- Where `parse_repeat_rule` accepts a text, it accepts the canonical form of the rule that it
-- returns, and returns the same rule for it.
pub parse-canonical :
    (value : Chars) (r : ReminderRecurrence)
    → parse_repeat_rule value ≡ ok r
    → parse_repeat_rule r.canonical ≡ ok r
parse-canonical value r h = IsRule-parse r (parse-IsRule value r h)
