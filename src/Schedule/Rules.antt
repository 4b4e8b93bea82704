-- ===== src/Schedule/Rules.antt =====
-- bazaar_compute_node/core/reminder_schedule.py: the parsing of durations and of repeat rules. Each
-- regular expression is a function that gives the groups of a text that matches in full.
use bazaar_compute_node.Prelude.{
  ℕ, zero, suc, ◌+◌, ◌-◌, ◌*◌, ◌/◌, ◌%◌, Bool, true, not, ◌&&◌, ◌||◌, Option, none, some, List, [],
  ◌∷◌, ◌++◌, ltb, leb, ◌==◌, if◌then◌else◌,
}
use bazaar_compute_node.Prelude.Result.{Result, ok, err}
use bazaar_compute_node.Schedule.{
  Chars, every, daily, weekly, LocalTime, ReminderDuration, ReminderRecurrence, ScheduleError,
  duration_invalid, duration_not_positive, interval_not_positive, rule_invalid, name_invalid,
  no_weekday, time_invalid, is_empty, same, sorted_set, construct, ms_per_minute, ms_per_hour,
  ms_per_day,
}

-- `[0-9]`
unfoldable pub is_digit : ℕ → Bool
is_digit c = leb 48 c && leb c 57

-- `[a-z]`
unfoldable pub is_lower : ℕ → Bool
is_lower c = leb 97 c && leb c 122

-- `[mhd]`
unfoldable pub is_unit : ℕ → Bool
is_unit c = c == b'm' || c == b'h' || c == b'd'

unfoldable pub all_of : (ℕ → Bool) → Chars → Bool
all_of p [] = true
all_of p (c ∷ cs) = p c && all_of p cs

-- The first characters that satisfy `p`, and the rest behind them.
unfoldable pub take_while : (ℕ → Bool) → Chars → Chars
take_while p [] = []
take_while p (c ∷ cs) = let rest = take_while p cs in if p c then c ∷ rest else []

unfoldable pub drop_while : (ℕ → Bool) → Chars → Chars
drop_while p [] = []
drop_while p (c ∷ cs) = let rest = drop_while p cs in if p c then rest else c ∷ cs

-- `int` of decimal digits, behind those already read.
unfoldable pub int_from : ℕ → Chars → ℕ
int_from acc [] = acc
int_from acc (c ∷ cs) = int_from (acc * 10 + (c - 48)) cs

-- `f"{n}"`, on fuel.
unfoldable pub show_from : ℕ → ℕ → Chars
show_from zero n = (48 + n % 10) ∷ []
show_from (suc fuel) n =
    let above = show_from fuel (n / 10) in
    if ltb n 10 then (48 + n) ∷ [] else above ++ ((48 + n % 10) ∷ [])

-- A number has no more digits than its value.
abbrev pub show : ℕ → Chars
show n = show_from n n

-- The groups `count` and `unit`.
pub record CountMatch : Type 0 where
  pub count : Chars
  pub unit : ℕ

-- The end of `_DURATION_PATTERN`: one unit and nothing else.
unfoldable pub match_unit : Chars → Chars → Option CountMatch
match_unit count [] = none
match_unit count (u ∷ []) =
    if is_unit u && not (is_empty count) then some (record { count = count; unit = u }) else none
match_unit count (u ∷ v ∷ vs) = none

-- `_DURATION_PATTERN`
unfoldable pub match_duration : Chars → Option CountMatch
match_duration value = match_unit (take_while is_digit value) (drop_while is_digit value)

unfoldable pub unit_ms : ℕ → ℕ
unit_ms u = if u == b'm' then ms_per_minute else if u == b'h' then ms_per_hour else ms_per_day

unfoldable pub canonical_count : ℕ → ℕ → Chars
canonical_count count unit = show count ++ (unit ∷ [])

unfoldable pub duration_of : Option CountMatch → Result ScheduleError ReminderDuration
duration_of none = err duration_invalid
duration_of (some m) =
    let count = int_from 0 m.count in
    if count == 0
    then err duration_not_positive
    else ok
        (record { milliseconds = count * unit_ms m.unit; canonical = canonical_count count m.unit })

-- `parse_duration`
abbrev pub parse_duration : Chars → Result ScheduleError ReminderDuration
parse_duration value = duration_of (match_duration value)

-- The text behind a prefix.
unfoldable pub behind : Chars → Chars → Option Chars
behind [] value = some value
behind (p ∷ ps) [] = none
behind (p ∷ ps) (c ∷ cs) = let rest = behind ps cs in if p == c then rest else none

abbrev pub every_prefix : Chars
every_prefix = b'e' ∷ b'v' ∷ b'e' ∷ b'r' ∷ b'y' ∷ b':' ∷ []

abbrev pub daily_prefix : Chars
daily_prefix = b'd' ∷ b'a' ∷ b'i' ∷ b'l' ∷ b'y' ∷ b'@' ∷ []

abbrev pub weekly_prefix : Chars
weekly_prefix = b'w' ∷ b'e' ∷ b'e' ∷ b'k' ∷ b'l' ∷ b'y' ∷ b':' ∷ []

unfoldable pub on_rest : {A : Type 0} → (Chars → Option A) → Option Chars → Option A
on_rest f none = none
on_rest f (some rest) = f rest

-- `_EVERY_PATTERN`
abbrev pub match_every : Chars → Option CountMatch
match_every value = on_rest match_duration (behind every_prefix value)

-- The groups `hour` and `minute`.
pub record ClockMatch : Type 0 where
  pub hour : Chars
  pub minute : Chars

-- `[0-9]{2}:[0-9]{2}`
unfoldable pub match_clock : Chars → Option ClockMatch
match_clock (a ∷ b ∷ c ∷ d ∷ e ∷ []) =
    if is_digit a && is_digit b && c == b':' && is_digit d && is_digit e
    then some (record { hour = a ∷ b ∷ []; minute = d ∷ e ∷ [] })
    else none
match_clock _ = none

-- `_DAILY_PATTERN`
abbrev pub match_daily : Chars → Option ClockMatch
match_daily value = on_rest match_clock (behind daily_prefix value)

-- `_parse_local_time`
unfoldable pub parse_local_time : ClockMatch → Result ScheduleError LocalTime
parse_local_time m =
    let hour_value = int_from 0 m.hour in
    let minute_value = int_from 0 m.minute in
    if ltb 23 hour_value || ltb 59 minute_value
    then err time_invalid
    else ok (record { hour = hour_value; minute = minute_value })

-- A character in front of the first part.
unfoldable pub extend_first : ℕ → List Chars → List Chars
extend_first c [] = (c ∷ []) ∷ []
extend_first c (part ∷ parts) = (c ∷ part) ∷ parts

-- `split(",")`
unfoldable pub split_comma : Chars → List Chars
split_comma [] = [] ∷ []
split_comma (c ∷ cs) =
    let rest = split_comma cs in if c == b',' then [] ∷ rest else extend_first c rest

-- `[a-z]+` for every part.
unfoldable pub all_words : List Chars → Bool
all_words [] = true
all_words (w ∷ ws) = not (is_empty w) && all_of is_lower w && all_words ws

abbrev pub is_not_at : ℕ → Bool
is_not_at c = not (c == b'@')

-- The groups of `_WEEKLY_PATTERN`, `weekdays` split at its commas.
pub record WeeklyMatch : Type 0 where
  pub names : List Chars
  pub clock : ClockMatch

unfoldable pub with_names : List Chars → Option ClockMatch → Option WeeklyMatch
with_names names none = none
with_names names (some clock) =
    if all_words names then some (record { names = names; clock = clock }) else none

unfoldable pub at_clock : Chars → Option ClockMatch
at_clock [] = none
at_clock (c ∷ cs) = if c == b'@' then match_clock cs else none

-- What follows "weekly:"; no name contains an "@".
unfoldable pub match_weekdays : Chars → Option WeeklyMatch
match_weekdays value =
    with_names (split_comma (take_while is_not_at value)) (at_clock (drop_while is_not_at value))

-- `_WEEKLY_PATTERN`
abbrev pub match_weekly : Chars → Option WeeklyMatch
match_weekly value = on_rest match_weekdays (behind weekly_prefix value)

-- `_WEEKDAY_NAMES`
unfoldable pub weekday_name : ℕ → Chars
weekday_name zero = b'm' ∷ b'o' ∷ b'n' ∷ []
weekday_name (suc zero) = b't' ∷ b'u' ∷ b'e' ∷ []
weekday_name (suc (suc zero)) = b'w' ∷ b'e' ∷ b'd' ∷ []
weekday_name (suc (suc (suc zero))) = b't' ∷ b'h' ∷ b'u' ∷ []
weekday_name (suc (suc (suc (suc zero)))) = b'f' ∷ b'r' ∷ b'i' ∷ []
weekday_name (suc (suc (suc (suc (suc zero))))) = b's' ∷ b'a' ∷ b't' ∷ []
weekday_name _ = b's' ∷ b'u' ∷ b'n' ∷ []

-- `_WEEKDAY_NUMBERS`, searched from `day` on.
unfoldable pub number_from : ℕ → ℕ → Chars → Option ℕ
number_from zero day name = none
number_from (suc left) day name =
    let later = number_from left (suc day) name in
    if same name (weekday_name day) then some day else later

abbrev pub weekday_number : Chars → Option ℕ
weekday_number name = number_from 7 0 name

unfoldable pub number_onto : Option ℕ → Option (List ℕ) → Option (List ℕ)
number_onto (some d) (some ds) = some (d ∷ ds)
number_onto (some d) none = none
number_onto none ds = none

-- The numbers of the names, where each name has one.
unfoldable pub weekday_numbers : List Chars → Option (List ℕ)
weekday_numbers [] = some []
weekday_numbers (name ∷ names) = number_onto (weekday_number name) (weekday_numbers names)

-- `",".join(_WEEKDAY_NAMES[weekday] for weekday in weekdays)`
unfoldable pub join_names : List ℕ → Chars
join_names [] = []
join_names (d ∷ []) = weekday_name d
join_names (d ∷ e ∷ ds) = weekday_name d ++ b',' ∷ join_names (e ∷ ds)

-- `f"{local_time:%H:%M}"`
unfoldable pub format_clock : LocalTime → Chars
format_clock t =
    (48 + t.hour / 10)
    ∷ (48 + t.hour % 10)
    ∷ b':'
    ∷ (48 + t.minute / 10)
    ∷ (48 + t.minute % 10)
    ∷ []

abbrev pub every_rule : ℕ → ℕ → ReminderRecurrence
every_rule count unit = record {
  kind = every;
  canonical = every_prefix ++ canonical_count count unit;
  interval_ms = some (count * unit_ms unit);
  local_time = none;
  weekdays = [];
}

abbrev pub daily_rule : LocalTime → ReminderRecurrence
daily_rule t = record {
  kind = daily;
  canonical = daily_prefix ++ format_clock t;
  interval_ms = none;
  local_time = some t;
  weekdays = [];
}

abbrev pub weekly_rule : List ℕ → LocalTime → ReminderRecurrence
weekly_rule days t = record {
  kind = weekly;
  canonical = weekly_prefix ++ join_names days ++ b'@' ∷ format_clock t;
  interval_ms = none;
  local_time = some t;
  weekdays = days;
}

-- The branch of each pattern in `parse_repeat_rule`.
unfoldable pub every_of : CountMatch → Result ScheduleError ReminderRecurrence
every_of m =
    let count = int_from 0 m.count in
    if count == 0 then err interval_not_positive else construct (every_rule count m.unit)

unfoldable pub daily_of : Result ScheduleError LocalTime → Result ScheduleError ReminderRecurrence
daily_of (err e) = err e
daily_of (ok t) = construct (daily_rule t)

unfoldable pub weekly_of :
    Result ScheduleError LocalTime → Option (List ℕ) → Result ScheduleError ReminderRecurrence
weekly_of (err e) numbers = err e
weekly_of (ok t) none = err name_invalid
weekly_of (ok t) (some numbers) =
    let days = sorted_set numbers in
    if is_empty days then err no_weekday else construct (weekly_rule days t)

unfoldable pub rule_of :
    Option CountMatch
    → Option ClockMatch
    → Option WeeklyMatch
    → Result ScheduleError ReminderRecurrence
rule_of (some m) d w = every_of m
rule_of none (some m) w = daily_of (parse_local_time m)
rule_of none none (some m) = weekly_of (parse_local_time m.clock) (weekday_numbers m.names)
rule_of none none none = err rule_invalid

-- `parse_repeat_rule`
unfoldable pub parse_repeat_rule : Chars → Result ScheduleError ReminderRecurrence
parse_repeat_rule value = rule_of (match_every value) (match_daily value) (match_weekly value)
