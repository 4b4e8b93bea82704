-- ===== src/Schedule/Slots/Found.antt =====
-- A calendar rule always has a next slot, where the zone passes over no time.
use bazaar_compute_node.Prelude.{
  ℕ, zero, suc, ◌+◌, ◌-◌, ◌*◌, ◌%◌, ◌≤◌, ◌<◌, ◌≡◌, ◌≢◌, refl, ap, subst, arith, Bool, true, false,
  not, ◌&&◌, ◌⊎◌, Option, none, some, is_none, List, [], ◌∷◌, ltb, ltb→lt, ltb_false→le, ==_iff,
  ==_refl, Bool-cases, inl, inr,
}
use bazaar_compute_node.Prelude.Result.{Result, ok}
use bazaar_compute_node.Schedule.{
  Chars, LocalTime, RecurrenceKind, every, daily, weekly, ReminderRecurrence, ScheduleError,
  kind_error, ms_per_day, is_empty, any_beyond, recurrence_error,
}
use bazaar_compute_node.Schedule.Slots.{
  Zone, epoch_ms, weekday, combine, mem, roundtrips_to, resolve_local_datetime, is_skipped,
  take_later, slot_from, slot_at, add_interval, first_of, zone_of, load_timezone, first_after,
  local_date,
}

-- From the date of the timestamp on, the zone shows every time, and later times at later moments than
-- the timestamp.
pub record IsRegular (zone : Zone) (timestamp : ℕ) : Type 0 where
  pub shows : (v : ℕ) → local_date zone timestamp * ms_per_day ≤ v → zone.local (zone.instant v) ≡ v
  pub onward :
      (v : ℕ) → zone.local (timestamp + epoch_ms) < v → timestamp + epoch_ms < zone.instant v

module _ (r : ReminderRecurrence) (t : LocalTime) (zone : Zone) (timestamp : ℕ)
    (regular : IsRegular zone timestamp) where
  resolves :
      (date : ℕ)
      → local_date zone timestamp ≤ date
      → resolve_local_datetime zone (combine date t) ≡ ok (combine date t)
  unfolding resolve_local_datetime
  resolves date from =
      let shown : zone.local (zone.instant (combine date t)) ≡ combine date t =
        regular.shows (combine date t) (omega arith) in
      let same : roundtrips_to zone (combine date t) ≡ true = (==_iff _ _).1 shown in rw same refl

  take_later-found :
      (naive : ℕ) (later : Result ScheduleError ℕ)
      → (timestamp + epoch_ms < zone.instant naive) ⊎ ((n : ℕ) × (later ≡ ok n))
      → (n : ℕ) × (take_later zone timestamp (ok naive) later ≡ ok n)
  unfolding take_later
  take_later-found naive later found =
      elim (Bool-cases (ltb (timestamp + epoch_ms) (zone.instant naive))) [
        | inl behind ↦ (zone.instant naive - epoch_ms, rw behind refl)
        | inr before ↦ elim found [
          | inl after ↦ absurd (omega (arith, ltb_false→le _ _ before))
          | inr rest ↦ (rest.0, rw before rest.1)
        ]
      ]

  slot_from-found :
      (left date d : ℕ)
      → local_date zone timestamp ≤ date
      → date ≤ d
      → d < date + left
      → is_skipped r d ≡ false
      → timestamp + epoch_ms < zone.instant (combine d t)
      → (n : ℕ) × (slot_from r t zone timestamp left date ≡ ok n)
  unfolding slot_from
  slot_from-found zero date d start from within kept behind = absurd (omega arith)
  slot_from-found (suc left) date d start from within kept behind =
      elim (Bool-cases (is_skipped r date)) [
        | inl skipped ↦
            let apart : date ≢ d = λ e. absurd (cc (skipped, ap (is_skipped r) e, kept)) in
            let rest =
              slot_from-found left (suc date) d (omega arith) (omega arith) (omega arith) kept
                behind in
            (rest.0, rw skipped rest.1)
        | inr allowed ↦
            let rest : (timestamp + epoch_ms < zone.instant (combine date t))
                ⊎ ((n : ℕ) × (slot_from r t zone timestamp left (suc date) ≡ ok n)) =
              elim (Bool-cases (ltb date d)) [
                | inl next ↦ inr (
                    slot_from-found left (suc date) d (omega arith) (ltb→lt date d next)
                      (omega arith) kept behind)
                | inr only ↦
                    let same : d ≡ date = omega (arith, ltb_false→le date d only) in
                    inl (subst (λ x. timestamp + epoch_ms < zone.instant (combine x t)) same behind)
              ] in
            let this = take_later-found (combine date t) _ rest in
            (this.0, rw (allowed, resolves date start) this.1)
      ]

  -- A date of the week that begins tomorrow is allowed.
  slot-found :
      (d : ℕ)
      → local_date zone timestamp < d
      → d < local_date zone timestamp + 8
      → is_skipped r d ≡ false
      → (n : ℕ) × (slot_from r t zone timestamp 8 (local_date zone timestamp) ≡ ok n)
  slot-found d from within kept =
      slot_from-found 8 (local_date zone timestamp) d (omega arith) (omega arith) within kept
        (regular.onward (combine d t) (omega arith))

-- The date of a day of the week among the seven from tomorrow on.
abbrev day_on : ℕ → ℕ → ℕ
day_on today w = today + 1 + (w + 7 - (today + 7) % 7) % 7

weekday-day_on : (today w : ℕ) → w ≤ 6 → weekday (day_on today w) ≡ w
unfolding weekday
weekday-day_on today w h = omega arith

allowed_day : (b m : Bool) → m ≡ true → (b && not m) ≡ false
allowed_day true m h = rw h refl
allowed_day false m h = refl

first_allowed :
    (days : List ℕ)
    → is_empty days ≡ false
    → any_beyond days ≡ false
    → (w : ℕ) × (w ≤ 6) × (mem w days ≡ true)
unfolding any_beyond mem
first_allowed [] filled valid = absurd (cc filled)
first_allowed (d ∷ ds) filled valid = elim (Bool-cases (ltb 6 d)) [
  | inl beyond ↦ absurd (cc (rw beyond at valid))
  | inr inside ↦ (d, ltb_false→le 6 d inside, rw (==_refl d) refl)
]

weekly-found :
    (r : ReminderRecurrence) (zone : Zone) (timestamp : ℕ) (t : LocalTime)
    → IsRegular zone timestamp
    → is_empty r.weekdays ≡ false
    → any_beyond r.weekdays ≡ false
    → (n : ℕ) × (slot_from r t zone timestamp 8 (local_date zone timestamp) ≡ ok n)
weekly-found r zone timestamp t regular filled valid =
    let day = first_allowed r.weekdays filled valid in
    let date = day_on (local_date zone timestamp) day.0 in
    let listed : mem (weekday date) r.weekdays ≡ true =
      rw (weekday-day_on (local_date zone timestamp) day.0 day.1) day.2 in
    slot-found r t zone timestamp regular date (omega arith) (omega arith)
      (unfold is_skipped in allowed_day _ _ listed)

daily-found :
    (r : ReminderRecurrence) (zone : Zone) (timestamp : ℕ) (t : LocalTime)
    → IsRegular zone timestamp
    → r.kind ≡ daily
    → (n : ℕ) × (slot_from r t zone timestamp 8 (local_date zone timestamp) ≡ ok n)
daily-found r zone timestamp t regular same =
    let kept : is_skipped r (suc (local_date zone timestamp)) ≡ false =
      unfold is_skipped in simp same refl in
    slot-found r t zone timestamp regular (suc (local_date zone timestamp)) (omega arith)
      (omega arith) kept

add_interval-found :
    (o : Option ℕ) (timestamp : ℕ) → is_none o ≡ false → (n : ℕ) × (add_interval o timestamp ≡ ok n)
unfolding add_interval
add_interval-found none timestamp h = absurd (cc h)
add_interval-found (some ms) timestamp h = (timestamp + ms, refl)

slot_at-found :
    (r : ReminderRecurrence) (o : Option LocalTime) (zone : Zone) (timestamp : ℕ)
    → is_none o ≡ false
    → ((t : LocalTime)
        → (n : ℕ) × (slot_from r t zone timestamp 8 (local_date zone timestamp) ≡ ok n))
    → (n : ℕ) × (slot_at r o zone timestamp ≡ ok n)
unfolding slot_at
slot_at-found r none zone timestamp h found = absurd (cc h)
slot_at-found r (some t) zone timestamp h found = found t

first_of-found :
    (k : RecurrenceKind) (r : ReminderRecurrence) (timestamp : ℕ) (zone : Zone)
    → IsRegular zone timestamp
    → r.kind ≡ k
    → kind_error k r ≡ none
    → (n : ℕ) × (first_of k r timestamp zone ≡ ok n)
unfolding first_of
first_of-found every r timestamp zone regular same valid =
    add_interval-found r.interval_ms timestamp (ground arith)
first_of-found daily r timestamp zone regular same valid =
    slot_at-found r r.local_time zone timestamp (ground arith)
      (λ t. daily-found r zone timestamp t regular same)
first_of-found weekly r timestamp zone regular same valid =
    slot_at-found r r.local_time zone timestamp (ground arith)
      (λ t. weekly-found r zone timestamp t regular (ground arith) (ground arith))

-- A recurrence that its constructor accepts has a next time in every zone that the database knows and
-- that is regular at the timestamp: from the date that it shows then on it passes over no time, and it
-- shows later times at later moments than the timestamp.
pub first_after-found :
    (zones : Chars → Option Zone) (r : ReminderRecurrence) (timestamp : ℕ) (name : Chars)
    (zone : Zone)
    → recurrence_error r ≡ none
    → is_empty name ≡ false
    → zones name ≡ some zone
    → IsRegular zone timestamp
    → (n : ℕ) × (first_after zones r timestamp name ≡ ok n)
unfolding recurrence_error first_after load_timezone zone_of
first_after-found zones r timestamp name zone valid named known regular =
    simp (named, known) (first_of-found r.kind r timestamp zone regular refl valid)
