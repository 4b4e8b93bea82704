-- ===== src/Schedule/Slots/Later.antt =====
-- A next time lies behind the timestamp.
use bazaar_compute_node.Prelude.{
  ℕ, zero, suc, ◌+◌, ◌-◌, ◌<◌, ◌≡◌, ◌≢◌, refl, arith, Option, none, some, ltb, ltb→lt, Bool-cases,
  inl, inr,
}
use bazaar_compute_node.Prelude.Result.{Result, ok, err, and_then}
use bazaar_compute_node.Schedule.{
  Chars, LocalTime, RecurrenceKind, every, daily, weekly, ReminderRecurrence, ScheduleError,
}
use bazaar_compute_node.Schedule.Slots.{
  Zone, epoch_ms, combine, resolve_local_datetime, is_skipped, take_later, slot_from, slot_at,
  add_interval, first_of, first_after, load_timezone,
}

-- The interval of a recurrence, where it has one, is not zero.
abbrev pub Advances : ReminderRecurrence → Type 0
Advances r = r.interval_ms ≢ some 0

take_later-later :
    (zone : Zone) (timestamp n : ℕ) (o later : Result ScheduleError ℕ)
    → (later ≡ ok n → timestamp < n)
    → take_later zone timestamp o later ≡ ok n
    → timestamp < n
unfolding take_later
take_later-later zone timestamp n (err e) later below h = absurd (cc h)
take_later-later zone timestamp n (ok naive) later below h =
    elim (Bool-cases (ltb (timestamp + epoch_ms) (zone.instant naive))) [
      | inl behind ↦
          let behind_lt : timestamp + epoch_ms < zone.instant naive = ltb→lt _ _ behind in
          let same : zone.instant naive - epoch_ms ≡ n = cc (rw behind at h) in omega arith
      | inr before ↦ below (rw before at h)
    ]

slot_from-later :
    (r : ReminderRecurrence) (t : LocalTime) (zone : Zone) (timestamp left date n : ℕ)
    → slot_from r t zone timestamp left date ≡ ok n
    → timestamp < n
unfolding slot_from
slot_from-later r t zone timestamp zero date n h = absurd (cc h)
slot_from-later r t zone timestamp (suc left) date n h = elim (Bool-cases (is_skipped r date)) [
  | inl skipped ↦ slot_from-later r t zone timestamp left (suc date) n (rw skipped at h)
  | inr kept ↦
      take_later-later zone timestamp n (resolve_local_datetime zone (combine date t)) _
        (slot_from-later r t zone timestamp left (suc date) n) (rw kept at h)
]

slot_at-later :
    (r : ReminderRecurrence) (o : Option LocalTime) (zone : Zone) (timestamp n : ℕ)
    → slot_at r o zone timestamp ≡ ok n
    → timestamp < n
unfolding slot_at
slot_at-later r none zone timestamp n h = absurd (cc h)
slot_at-later r (some t) zone timestamp n h = slot_from-later r t zone timestamp 8 _ n h

add_interval-later :
    (o : Option ℕ) (timestamp n : ℕ) → o ≢ some 0 → add_interval o timestamp ≡ ok n → timestamp < n
unfolding add_interval
add_interval-later none timestamp n advances h = absurd (cc h)
add_interval-later (some zero) timestamp n advances h = absurd (advances refl)
add_interval-later (some (suc ms)) timestamp n advances h =
    let same : timestamp + suc ms ≡ n = cc h in omega arith

first_of-later :
    (k : RecurrenceKind) (r : ReminderRecurrence) (timestamp : ℕ) (zone : Zone) (n : ℕ)
    → Advances r
    → first_of k r timestamp zone ≡ ok n
    → timestamp < n
unfolding first_of
first_of-later every r timestamp zone n advances h =
    add_interval-later r.interval_ms timestamp n advances h
first_of-later daily r timestamp zone n advances h = slot_at-later r r.local_time zone timestamp n h
first_of-later weekly r timestamp zone n advances h =
    slot_at-later r r.local_time zone timestamp n h

-- The time that a recurrence gives for a timestamp comes after it, in any zone, where the interval of
-- the recurrence, if it has one, is not zero.
pub first_after-later :
    (zones : Chars → Option Zone) (r : ReminderRecurrence) (timestamp : ℕ) (name : Chars) (n : ℕ)
    → Advances r
    → first_after zones r timestamp name ≡ ok n
    → timestamp < n
unfolding first_after
first_after-later zones r timestamp name n advances = go (load_timezone zones name)
  where
    go :
        (o : Result ScheduleError Zone)
        → and_then o (first_of r.kind r timestamp) ≡ ok n
        → timestamp < n
    go (err e) h = absurd (cc h)
    go (ok zone) h = first_of-later r.kind r timestamp zone n advances h
