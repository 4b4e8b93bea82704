-- ===== src/Schedule/Resolve/Future.antt =====
-- Schedules lie in the future, their rules and time zones in canonical form.
use bazaar_compute_node.Prelude.{
  ℕ, ◌+◌, ◌*◌, ◌<◌, ltb, ltb→lt, pos, negsuc, ◌≡◌, ◌≢◌, refl, sym, ◌∙◌, ap, subst, arith, true,
  false, not, ◌&&◌, ◌↔◌, Option, none, some, some_inj, is_none, [], ◌∷◌, ℤ, Bool-cases, inl, inr,
}
use bazaar_compute_node.Prelude.Result.{Result, ok, err, and_then}
use bazaar_compute_node.Schedule.{Chars, ReminderRecurrence, ScheduleError, raise_or}
use bazaar_compute_node.Schedule.Rules.{parse_repeat_rule, unit_ms, rule_of, on_rest, behind}
use bazaar_compute_node.Schedule.Slots.{Zone, load_timezone, first_after}
use bazaar_compute_node.Schedule.Slots.Later.{Advances, first_after-later}
use bazaar_compute_node.Schedule.RoundTrip.{
  IsRule, every_IsRule, daily_IsRule, weekly_IsRule, same_refl,
}
use bazaar_compute_node.Schedule.RoundTrip.Parsed.{parse-IsRule, parse-canonical}
use bazaar_compute_node.Schedule.Resolve.{
  ReminderSchedule, is_future, or_utc, canonical_timezone, rule_error, timezone_error,
  schedule_error, schedule, parse_optional, canonical_of, next_recurrence_ms, fire_time, checked,
  form_error, either_error, resolve_schedule, has, normalized, shifted, times_second, moment_of,
  parse_fire_at, repeat_first,
}

interval_filled : (count unit : ℕ) → count ≢ 0 → count * unit_ms unit ≢ 0
unfolding unit_ms
interval_filled count unit positive h = ground arith

-- A parsed rule has no empty interval.
IsRule-Advances : (r : ReminderRecurrence) → IsRule r → Advances r
IsRule-Advances _ (every_IsRule count unit positive h) e =
    interval_filled count unit positive (some_inj e)
IsRule-Advances _ (daily_IsRule t h m) e = absurd (cc e)
IsRule-Advances _ (weekly_IsRule d ds t valid sorted h m) e = absurd (cc e)

lt→ltb : (a b : ℕ) → a < b → ltb a b ≡ true
lt→ltb a b h = ground arith

ok_inj : {A : Type 0} {a b : A} → (let x : Result ScheduleError A = ok a in x ≡ ok b) → a ≡ b
ok_inj h = cc

pos_inj : {m n : ℕ} → pos m ≡ pos n → m ≡ n
pos_inj h = cc

-- A step of a chain of results that came to its end.
module _ {E A B : Type 0} where
  and_then-ok :
      (o : Result E A) (f : A → Result E B) (b : B)
      → and_then o f ≡ ok b
      → (a : A) × (o ≡ ok a) × (f a ≡ ok b)
  and_then-ok (ok a) f b h = (a, refl, h)
  and_then-ok (err e) f b h = absurd (cc h)

rule_error-canonical :
    (rule : Chars) (r : ReminderRecurrence)
    → parse_repeat_rule rule ≡ ok r
    → r.canonical ≡ rule
    → rule_error (some rule) ≡ none
unfolding rule_error form_error parse_repeat_rule rule_of on_rest behind
rule_error-canonical [] r parsed same_form = absurd (cc parsed)
rule_error-canonical (c ∷ cs) r parsed same_form = simp (parsed, same_form, same_refl (c ∷ cs)) refl

raise_or-ok : {A : Type 0} (o : Option ScheduleError) (a b : A) → raise_or o a ≡ ok b → a ≡ b
unfolding raise_or
raise_or-ok none a b h = cc h
raise_or-ok (some e) a b h = absurd (cc h)

module _ (zones : Chars → Option Zone) where
  -- The time at which a reminder recurs comes after the one that it was scheduled for, whatever its
  -- rule and its time zone are.
  pub next_recurrence-later :
      (scheduled_for : ℕ) (rule timezone : Chars) (n : ℕ)
      → next_recurrence_ms zones scheduled_for rule timezone ≡ ok n
      → scheduled_for < n
  unfolding next_recurrence_ms
  next_recurrence-later scheduled_for rule timezone n h =
      let parsed = and_then-ok (parse_repeat_rule rule) _ n h in
      let named = and_then-ok (canonical_timezone zones (some timezone)) _ n parsed.2 in
      first_after-later zones parsed.0 scheduled_for named.0 n
        (IsRule-Advances parsed.0 (parse-IsRule rule parsed.0 parsed.1)) named.2

  -- The rule of a schedule, in its canonical form, by the text that is given for it.
  pub data Repeats : Option Chars → Option ReminderRecurrence → Option Chars → Type 0 where
    once : Repeats none none none
    again :
        (rule : Chars) (r : ReminderRecurrence)
        → parse_repeat_rule rule ≡ ok r
        → Repeats (some rule) (some r) (some r.canonical)

  -- The moment at which a reminder fires first: so many seconds from now, at a given time, or at the
  -- first time of its rule.
  pub data When (fromisoformat : Chars → Option (Option ℤ)) (now : ℕ)
      : Option ℤ → Option Chars → Option ReminderRecurrence → Chars → ℕ → Type 0 where
    in_seconds :
        (seconds : ℕ) (r : Option ReminderRecurrence) (name : Chars)
        → When fromisoformat now (some (pos seconds)) none r name (now + seconds * 1000)
    at_moment :
        (text : Chars) (r : Option ReminderRecurrence) (name : Chars) (n : ℕ)
        → has b'T' text ≡ true
        → fromisoformat (normalized text) ≡ some (some (pos n))
        → When fromisoformat now none (some text) r name n
    by_rule :
        (r : ReminderRecurrence) (name : Chars) (n : ℕ)
        → first_after zones r now name ≡ ok n
        → When fromisoformat now none none (some r) name n

  -- The schedule that `resolve_schedule` is asked for: its zone and its rule are known, and it fires
  -- first at a moment in the future that is given in one of three ways.
  pub record Plan (fromisoformat : Chars → Option (Option ℤ)) (now : ℕ) (delay : Option ℤ)
      (fire_at repeat_rule timezone : Option Chars) (s : ReminderSchedule) : Type 0 where
    pub named : s.timezone ≡ or_utc timezone
    pub zone : Zone
    pub zone_known : load_timezone zones s.timezone ≡ ok zone
    pub recurrence : Option ReminderRecurrence
    pub repeats : Repeats repeat_rule recurrence s.repeat_rule
    pub first : ℕ
    pub fires : s.next_fire_at_ms ≡ pos first
    pub when : When fromisoformat now delay fire_at recurrence s.timezone first
    pub future : now < first

  is_future-pos : (now : ℕ) (at : ℤ) → is_future now at ≡ true → (n : ℕ) × (at ≡ pos n) × (now < n)
  unfolding is_future
  is_future-pos now (pos n) h = (n, refl, ltb→lt now n h)
  is_future-pos now (negsuc n) h = absurd (cc h)

  not_back : (now m : ℕ) → is_future now (shifted now (times_second (negsuc m))) ≢ true
  unfolding is_future shifted times_second
  not_back now m h = ground arith

  moment-ok : (o : Option (Option ℤ)) (at : ℤ) → moment_of o ≡ ok at → o ≡ some (some at)
  unfolding moment_of
  moment-ok none at h = absurd (cc h)
  moment-ok (some none) at h = absurd (cc h)
  moment-ok (some (some x)) at h = let same : x ≡ at = cc in ap (λ y. some (some y)) same

  module _ (fromisoformat : Chars → Option (Option ℤ)) (now : ℕ) where
    fire_time-When :
        (delay : Option ℤ) (fire_at : Option Chars) (r : Option ReminderRecurrence) (name : Chars)
        (n : ℕ)
        → (not (is_none delay) && not (is_none fire_at)) ≡ false
        → fire_time zones fromisoformat now delay fire_at r name ≡ ok (pos n)
        → now < n
        → When fromisoformat now delay fire_at r name n
    unfolding fire_time shifted times_second parse_fire_at repeat_first
    fire_time-When (some d) (some t) r name n one h later = absurd (cc one)
    fire_time-When (some (pos m)) none r name n one h later =
        let same : now + m * 1000 ≡ n = pos_inj (ok_inj h) in
        subst (When fromisoformat now (some (pos m)) none r name) same (in_seconds m r name)
    fire_time-When (some (negsuc m)) none r name n one h later =
        absurd
          (not_back now m (ap (is_future now) (ok_inj h) ∙ unfold is_future in lt→ltb now n later))
    fire_time-When none (some t) r name n one h later = elim (Bool-cases (has b'T' t)) [
      | inl with_time ↦
          at_moment t r name n with_time
            (moment-ok (fromisoformat (normalized t)) (pos n) (rw with_time at h))
      | inr without ↦ absurd (cc (rw without at h))
    ]
    fire_time-When none none none name n one h later = absurd (cc h)
    fire_time-When none none (some r) name n one h later =
        let first = and_then-ok (first_after zones r now name) _ (pos n) h in
        let same : first.0 ≡ n = pos_inj (ok_inj first.2) in by_rule r name n (first.1 ∙ ap ok same)

    When-fire_time :
        {delay : Option ℤ} {fire_at : Option Chars} {r : Option ReminderRecurrence} {name : Chars}
        {n : ℕ}
        → When fromisoformat now delay fire_at r name n
        → (fire_time zones fromisoformat now delay fire_at r name ≡ ok (pos n))
          × ((not (is_none delay) && not (is_none fire_at)) ≡ false)
    unfolding fire_time shifted times_second parse_fire_at repeat_first moment_of
    When-fire_time (in_seconds m r name) = (refl, refl)
    When-fire_time (at_moment t r name n with_time there) = (simp (with_time, there) refl, refl)
    When-fire_time (by_rule r name n there) = (simp there refl, refl)

  parse-Repeats :
      (rule : Option Chars) (r : Option ReminderRecurrence)
      → parse_optional rule ≡ ok r
      → Repeats rule r (canonical_of r)
  unfolding parse_optional
  parse-Repeats none r h =
      let same : none ≡ r = ok_inj h in subst (λ x. Repeats none x (canonical_of x)) same once
  parse-Repeats (some rule) r h =
      let parsed = and_then-ok (parse_repeat_rule rule) _ r h in
      let same : some parsed.0 ≡ r = ok_inj parsed.2 in
      subst (λ x. Repeats (some rule) x (canonical_of x)) same (again rule parsed.0 parsed.1)

  Repeats-parse :
      {rule : Option Chars} {r : Option ReminderRecurrence} {form : Option Chars}
      → Repeats rule r form
      → (parse_optional rule ≡ ok r) × (form ≡ canonical_of r)
  unfolding parse_optional
  Repeats-parse once = (refl, refl)
  Repeats-parse (again rule r parsed) = (simp parsed refl, refl)

  -- A schedule that is asked for is asked for by something.
  When-given :
      {fromisoformat : Chars → Option (Option ℤ)} {now : ℕ} {delay : Option ℤ}
      {fire_at rule form : Option Chars} {r : Option ReminderRecurrence} {name : Chars} {n : ℕ}
      → When fromisoformat now delay fire_at r name n
      → Repeats rule r form
      → (is_none delay && is_none fire_at && is_none rule) ≡ false
  When-given (in_seconds m r name) p = refl
  When-given (at_moment t r name n with_time there) p = refl
  When-given (by_rule r name n there) (again rule _ parsed) = refl

  canonical_timezone-again :
      (timezone : Option Chars) (name : Chars)
      → canonical_timezone zones timezone ≡ ok name
      → timezone_error zones name ≡ none
  unfolding canonical_timezone timezone_error form_error or_utc
  canonical_timezone-again timezone name h =
      let loaded = and_then-ok (load_timezone zones (or_utc timezone)) _ name h in
      let key : or_utc timezone ≡ name = cc loaded.2 in
      let again : load_timezone zones name ≡ ok loaded.0 =
        subst (λ k. load_timezone zones k ≡ ok loaded.0) key loaded.1 in
      simp (again, same_refl name) refl

  parse_optional-canonical :
      (repeat_rule : Option Chars) (recurrence : Option ReminderRecurrence)
      → parse_optional repeat_rule ≡ ok recurrence
      → rule_error (canonical_of recurrence) ≡ none
  unfolding parse_optional
  parse_optional-canonical none recurrence h =
      let no_rule : none ≡ recurrence = cc h in
      subst (λ x. rule_error (canonical_of x) ≡ none) no_rule (unfold rule_error in refl)
  parse_optional-canonical (some rule) recurrence h =
      let parsed = and_then-ok (parse_repeat_rule rule) _ recurrence h in
      let this : some parsed.0 ≡ recurrence = cc parsed.2 in
      subst (λ x. rule_error (canonical_of x) ≡ none) this
        (rule_error-canonical parsed.0.canonical parsed.0 (parse-canonical rule parsed.0 parsed.1)
          refl)

  checked-ok :
      (now : ℕ) (recurrence : Option ReminderRecurrence) (name : Chars) (at : ℤ)
      (s : ReminderSchedule)
      → checked zones now recurrence name at ≡ ok s
      → (is_future now at ≡ true)
        × (record { next_fire_at_ms = at; repeat_rule = canonical_of recurrence; timezone = name }
            ≡ s)
  unfolding checked schedule
  checked-ok now recurrence name at s h = elim (Bool-cases (is_future now at)) [
    | inl future ↦ (future, raise_or-ok (schedule_error zones _) _ s (rw future at h))
    | inr past ↦ absurd (cc (rw past at h))
  ]

  checked_complete :
      (now : ℕ) (recurrence : Option ReminderRecurrence) (name : Chars) (at : ℤ)
      → is_future now at ≡ true
      → rule_error (canonical_of recurrence) ≡ none
      → timezone_error zones name ≡ none
      → checked zones now recurrence name at
        ≡ ok (record {
          next_fire_at_ms = at;
          repeat_rule = canonical_of recurrence;
          timezone = name;
        })
  unfolding checked schedule schedule_error either_error raise_or
  checked_complete now recurrence name at future rule zone = simp (future, rule, zone) refl

module _ (zones : Chars → Option Zone) (fromisoformat : Chars → Option (Option ℤ)) (now : ℕ)
    (delay : Option ℤ) (fire_at repeat_rule timezone : Option Chars) (s : ReminderSchedule) where
  resolve-Plan :
      resolve_schedule zones fromisoformat now delay fire_at repeat_rule timezone ≡ ok s
      → Plan zones fromisoformat now delay fire_at repeat_rule timezone s
  unfolding resolve_schedule canonical_timezone
  resolve-Plan h = elim (Bool-cases (not (is_none delay) && not (is_none fire_at))) [
    | inl both ↦ absurd (cc (rw both at h))
    | inr one ↦ elim (Bool-cases (is_none delay && is_none fire_at && is_none repeat_rule)) [
      | inl nothing ↦ absurd (cc (simp (one, nothing) at h))
      | inr something ↦
          let named =
            and_then-ok (canonical_timezone zones timezone) _ s (simp (one, something) at h) in
          let ruled = and_then-ok (parse_optional repeat_rule) _ s named.2 in
          let timed =
            and_then-ok (fire_time zones fromisoformat now delay fire_at ruled.0 named.0) _ s
              ruled.2 in
          let made = checked-ok zones now ruled.0 named.0 timed.0 s timed.2 in
          let loaded = and_then-ok (load_timezone zones (or_utc timezone)) _ named.0 named.1 in
          let key : or_utc timezone ≡ named.0 = ok_inj loaded.2 in
          let (n, at_n, later) = is_future-pos zones now timed.0 made.0 in
          subst (Plan zones fromisoformat now delay fire_at repeat_rule timezone) made.1 (record {
            named = sym key;
            zone = loaded.0;
            zone_known = subst (λ k. load_timezone zones k ≡ ok loaded.0) key loaded.1;
            recurrence = ruled.0;
            repeats = parse-Repeats zones repeat_rule ruled.0 ruled.1;
            first = n;
            fires = at_n;
            when =
                fire_time-When zones fromisoformat now delay fire_at ruled.0 named.0 n one
                  (timed.1 ∙ ap ok at_n) later;
            future = later;
          })
    ]
  ]

  Plan-resolve :
      Plan zones fromisoformat now delay fire_at repeat_rule timezone s
      → resolve_schedule zones fromisoformat now delay fire_at repeat_rule timezone ≡ ok s
  unfolding resolve_schedule canonical_timezone
  Plan-resolve plan =
      let (timed, one) = When-fire_time zones fromisoformat now plan.when in
      let (ruled, form) = Repeats-parse zones plan.repeats in
      let zone : load_timezone zones (or_utc timezone) ≡ ok plan.zone =
        subst (λ k. load_timezone zones k ≡ ok plan.zone) plan.named plan.zone_known in
      let named : canonical_timezone zones timezone ≡ ok s.timezone =
        unfold canonical_timezone in simp zone (ap ok (sym plan.named)) in
      let future : is_future now (pos plan.first) ≡ true =
        unfold is_future in lt→ltb now plan.first plan.future in
      let made =
        checked_complete zones now plan.recurrence s.timezone (pos plan.first) future
          (parse_optional-canonical zones repeat_rule plan.recurrence ruled)
          (canonical_timezone-again zones timezone s.timezone named) in
      simp (one, When-given zones plan.when plan.repeats, named, ruled, timed)
        (made
          ∙ ap
              (λ (x : Option Chars).
                ok (record s { next_fire_at_ms = pos plan.first; repeat_rule = x }))
              (sym form)
          ∙ ap (λ (x : ℤ). ok (record s { next_fire_at_ms = x })) (sym plan.fires))

  -- `resolve_schedule` returns a schedule exactly where it is the one asked for: the zone, UTC if none
  -- is given, and the rule are known, and it fires first at a moment after now. That is so many
  -- seconds from now if a delay is given, the given time if that is one with an offset, not both, and
  -- else the first time of the rule. The schedule has the name of the zone and the rule in its
  -- canonical form, which the checks of `ReminderSchedule` never reject.
  pub resolve_schedule-Plan :
      (resolve_schedule zones fromisoformat now delay fire_at repeat_rule timezone ≡ ok s)
      ↔ Plan zones fromisoformat now delay fire_at repeat_rule timezone s
  resolve_schedule-Plan = (resolve-Plan, Plan-resolve)
