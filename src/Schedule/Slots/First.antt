-- ===== src/Schedule/Slots/First.antt =====
-- What the slot of a calendar rule is: the time of the rule on a date that the rule allows.
use bazaar_compute_node.Prelude.{
  ℕ, zero, suc, ◌+◌, ◌-◌, ◌*◌, ◌≤◌, ◌<◌, ◌≡◌, ◌≢◌, refl, sym, ap, subst, arith, true, false, ◌⊎◌,
  Option, none, some, some_inj, ltb, ltb→lt, ltb_false→le, ==_iff, Bool-cases, inl, inr,
}
use bazaar_compute_node.Prelude.Result.{Result, ok, err}
use bazaar_compute_node.Schedule.{
  LocalTime, ReminderRecurrence, ScheduleError, ms_per_minute, ms_per_day,
}
use bazaar_compute_node.Schedule.Slots.{
  weekday, mem, is_weekly, Zone, epoch_ms, combine, roundtrips_to, probe_from,
  resolve_local_datetime, is_skipped, take_later, slot_from, slot_at, next_calendar_slot,
  local_date,
}

-- What a naive time is resolved to: a time that the zone shows, the same one where it shows it, else
-- one less than a day and a minute behind it.
pub record Resolved (zone : Zone) (value shown : ℕ) : Type 0 where
  pub shows : zone.local (zone.instant shown) ≡ shown
  pub from : value ≤ shown
  pub near : shown ≤ value + ms_per_day
  pub exact : (shown ≡ value) ⊎ (roundtrips_to zone value ≡ false)

probe_from-shows :
    (zone : Zone) (left probe shown : ℕ)
    → probe_from zone left probe ≡ ok shown
    → (zone.local (zone.instant shown) ≡ shown)
      × (probe ≤ shown)
      × (shown ≤ probe + left * ms_per_minute)
unfolding probe_from
probe_from-shows zone zero probe shown h = absurd (cc h)
probe_from-shows zone (suc left) probe shown h =
    elim (Bool-cases (roundtrips_to zone (probe + ms_per_minute))) [
      | inl same ↦
          let next : probe + ms_per_minute ≡ shown = cc (rw same at h) in
          (
            subst (λ v. zone.local (zone.instant v) ≡ v) next ((==_iff _ _).0 same),
            omega arith,
            omega arith,
          )
      | inr other ↦
          let below : (zone.local (zone.instant shown) ≡ shown)
              × (probe + ms_per_minute ≤ shown)
              × (shown ≤ probe + ms_per_minute + left * ms_per_minute) =
            probe_from-shows zone left (probe + ms_per_minute) shown (rw other at h) in
          (below.0, omega (arith, below.1), omega (arith, below.2))
    ]

pub resolve-Resolved :
    (zone : Zone) (value shown : ℕ)
    → resolve_local_datetime zone value ≡ ok shown
    → Resolved zone value shown
unfolding resolve_local_datetime
resolve-Resolved zone value shown h = elim (Bool-cases (roundtrips_to zone value)) [
  | inl same ↦
      let first : value ≡ shown = cc (rw same at h) in
      record {
        shows = subst (λ v. zone.local (zone.instant v) ≡ v) first ((==_iff _ _).0 same);
        from = omega arith;
        near = omega arith;
        exact = inl (sym first);
      }
  | inr other ↦
      let below = probe_from-shows zone 1440 value shown (rw other at h) in
      record { shows = below.0; from = below.1; near = omega (arith, below.2); exact = inr other }
]

-- The rule allows a date: it is not weekly, or the day of the week is one of its days.
abbrev pub Allowed : ReminderRecurrence → ℕ → Type 0
Allowed r date = (is_weekly r.kind ≡ false) ⊎ (mem (weekday date) r.weekdays ≡ true)

kept-Allowed : (r : ReminderRecurrence) (date : ℕ) → is_skipped r date ≡ false → Allowed r date
unfolding is_skipped
kept-Allowed r date h = ground arith

Allowed-kept : (r : ReminderRecurrence) (date : ℕ) → Allowed r date → is_skipped r date ≡ false
unfolding is_skipped
Allowed-kept r date h = ground arith

-- `n` is the time `t` on one of the `left` dates from `start` on, a date that the rule allows, and
-- comes after the timestamp.
pub record Slot (r : ReminderRecurrence) (t : LocalTime) (zone : Zone) (timestamp start left n : ℕ)
    : Type 0 where
  pub date : ℕ
  pub from : start ≤ date
  pub within : date < start + left
  pub allowed : Allowed r date
  pub shown : ℕ
  pub resolved : Resolved zone (combine date t) shown
  pub at : zone.instant shown ≡ n + epoch_ms
  pub later : timestamp < n

widen :
    {r : ReminderRecurrence} {t : LocalTime} {zone : Zone} {timestamp date left n : ℕ}
    → Slot r t zone timestamp (suc date) left n
    → Slot r t zone timestamp date (suc left) n
widen s = record {
  date = s.date;
  from = omega (arith, s.from);
  within = omega (arith, s.within);
  allowed = s.allowed;
  shown = s.shown;
  resolved = s.resolved;
  at = s.at;
  later = s.later;
}

take_later-Slot :
    (r : ReminderRecurrence) (t : LocalTime) (zone : Zone) (timestamp date left n : ℕ)
    (o later : Result ScheduleError ℕ)
    → is_skipped r date ≡ false
    → resolve_local_datetime zone (combine date t) ≡ o
    → (later ≡ ok n → Slot r t zone timestamp (suc date) left n)
    → take_later zone timestamp o later ≡ ok n
    → Slot r t zone timestamp date (suc left) n
unfolding take_later
take_later-Slot r t zone timestamp date left n (err e) later kept same below h = absurd (cc h)
take_later-Slot r t zone timestamp date left n (ok naive) later kept same below h =
    elim (Bool-cases (ltb (timestamp + epoch_ms) (zone.instant naive))) [
      | inl behind ↦
          let behind_lt : timestamp + epoch_ms < zone.instant naive = ltb→lt _ _ behind in
          let result : zone.instant naive - epoch_ms ≡ n = cc (rw behind at h) in
          record {
            date = date;
            from = omega arith;
            within = omega arith;
            allowed = kept-Allowed r date kept;
            shown = naive;
            resolved = resolve-Resolved zone (combine date t) naive same;
            at = omega arith;
            later = omega arith;
          }
      | inr before ↦ widen (below (rw before at h))
    ]

slot_from-Slot :
    (r : ReminderRecurrence) (t : LocalTime) (zone : Zone) (timestamp left date n : ℕ)
    → slot_from r t zone timestamp left date ≡ ok n
    → Slot r t zone timestamp date left n
unfolding slot_from
slot_from-Slot r t zone timestamp zero date n h = absurd (cc h)
slot_from-Slot r t zone timestamp (suc left) date n h = elim (Bool-cases (is_skipped r date)) [
  | inl skipped ↦ widen (slot_from-Slot r t zone timestamp left (suc date) n (rw skipped at h))
  | inr kept ↦
      take_later-Slot r t zone timestamp date left n (resolve_local_datetime zone (combine date t))
        _ kept refl (slot_from-Slot r t zone timestamp left (suc date) n) (rw kept at h)
]

slot_at-Slot :
    (r : ReminderRecurrence) (o : Option LocalTime) (zone : Zone) (timestamp n : ℕ)
    → slot_at r o zone timestamp ≡ ok n
    → (t : LocalTime) × (o ≡ some t) × Slot r t zone timestamp (local_date zone timestamp) 8 n
unfolding slot_at
slot_at-Slot r none zone timestamp n h = absurd (cc h)
slot_at-Slot r (some t) zone timestamp n h =
    (t, refl, slot_from-Slot r t zone timestamp 8 (local_date zone timestamp) n h)

-- The next slot of a calendar rule is the time of the rule on a date that the rule allows, one of the
-- eight from the date that the zone shows at the timestamp. The zone shows that time at the slot;
-- where it passes over the time on that date, it shows one that is a day later at most. The slot comes
-- after the timestamp.
pub next_calendar_slot-Slot :
    (r : ReminderRecurrence) (timestamp : ℕ) (zone : Zone) (n : ℕ)
    → next_calendar_slot r timestamp zone ≡ ok n
    → (t : LocalTime) × (r.local_time ≡ some t)
      × Slot r t zone timestamp (local_date zone timestamp) 8 n
next_calendar_slot-Slot r timestamp zone n h = slot_at-Slot r r.local_time zone timestamp n h

-- Later dates are not resolved to earlier moments.
abbrev pub IsOrdered : Zone → LocalTime → Type 0
IsOrdered zone t =
    (d e v w : ℕ)
    → d ≤ e
    → resolve_local_datetime zone (combine d t) ≡ ok v
    → resolve_local_datetime zone (combine e t) ≡ ok w
    → zone.instant v ≤ zone.instant w

module _ (r : ReminderRecurrence) (t : LocalTime) (zone : Zone) (timestamp : ℕ)
    (ordered : IsOrdered zone t) where
  take_later-least :
      (date d n v : ℕ) (o later : Result ScheduleError ℕ)
      → resolve_local_datetime zone (combine date t) ≡ o
      → take_later zone timestamp o later ≡ ok n
      → (suc date ≤ d → later ≡ ok n → n + epoch_ms ≤ zone.instant v)
      → date ≤ d
      → resolve_local_datetime zone (combine d t) ≡ ok v
      → timestamp + epoch_ms < zone.instant v
      → n + epoch_ms ≤ zone.instant v
  unfolding take_later
  take_later-least date d n v (err e) later same h below from found behind = absurd (cc h)
  take_later-least date d n v (ok naive) later same h below from found behind =
      let order : zone.instant naive ≤ zone.instant v = ordered date d naive v from same found in
      elim (Bool-cases (ltb (timestamp + epoch_ms) (zone.instant naive))) [
        | inl after ↦
            let after_lt : timestamp + epoch_ms < zone.instant naive = ltb→lt _ _ after in
            let result : zone.instant naive - epoch_ms ≡ n = cc (rw after at h) in omega arith
        | inr before ↦
            let before_le : zone.instant naive ≤ timestamp + epoch_ms = ltb_false→le _ _ before in
            elim (Bool-cases (ltb date d)) [
              | inl next ↦ below (ltb→lt date d next) (rw before at h)
              | inr only ↦
                  let back : zone.instant v ≤ zone.instant naive =
                    ordered d date v naive (ltb_false→le date d only) found same in
                  absurd (omega arith)
            ]
      ]

  slot_from-least :
      (left date d n v : ℕ)
      → slot_from r t zone timestamp left date ≡ ok n
      → date ≤ d
      → is_skipped r d ≡ false
      → resolve_local_datetime zone (combine d t) ≡ ok v
      → timestamp + epoch_ms < zone.instant v
      → n + epoch_ms ≤ zone.instant v
  unfolding slot_from
  slot_from-least zero date d n v h from kept found behind = absurd (cc h)
  slot_from-least (suc left) date d n v h from kept found behind =
      elim (Bool-cases (is_skipped r date)) [
        | inl skipped ↦
            let apart : date ≢ d = λ e. absurd (cc (skipped, ap (is_skipped r) e, kept)) in
            slot_from-least left (suc date) d n v (rw skipped at h) (omega arith) kept found behind
        | inr allowed ↦
            take_later-least date d n v (resolve_local_datetime zone (combine date t)) _ refl
              (rw allowed at h)
              (λ next rest. slot_from-least left (suc date) d n v rest next kept found behind) from
              found behind
      ]

  slot_at-least :
      (o : Option LocalTime) (d n v : ℕ)
      → o ≡ some t
      → slot_at r o zone timestamp ≡ ok n
      → local_date zone timestamp ≤ d
      → is_skipped r d ≡ false
      → resolve_local_datetime zone (combine d t) ≡ ok v
      → timestamp + epoch_ms < zone.instant v
      → n + epoch_ms ≤ zone.instant v
  unfolding slot_at
  slot_at-least none d n v same h from kept found behind = absurd (cc same)
  slot_at-least (some t2) d n v same h from kept found behind =
      let times : t2 ≡ t = some_inj same in
      slot_from-least 8 _ d n v
        (subst (λ x. slot_from r x zone timestamp 8 (local_date zone timestamp) ≡ ok n) times h)
        from kept found behind

  -- In a zone where later dates are not resolved to earlier moments, the next slot of a calendar rule
  -- is not behind any other: not behind the time of the rule on any date that it allows, from the date
  -- that the zone shows at the timestamp on, whose moment comes after the timestamp.
  pub next_calendar_slot-least :
      (d n v : ℕ)
      → r.local_time ≡ some t
      → next_calendar_slot r timestamp zone ≡ ok n
      → local_date zone timestamp ≤ d
      → Allowed r d
      → resolve_local_datetime zone (combine d t) ≡ ok v
      → timestamp + epoch_ms < zone.instant v
      → n + epoch_ms ≤ zone.instant v
  next_calendar_slot-least d n v same h from allowed found behind =
      slot_at-least r.local_time d n v same h from (Allowed-kept r d allowed) found behind
