-- ===== src/TimerWheel/Inv.antt =====
-- The invariant of the wheel between its calls and inside its loops.
use bazaar_compute_node.Prelude.{
  ℕ, ◌+◌, ◌/◌, ◌%◌, ◌^◌, ◌≤◌, ◌<◌, ◌≡◌, ◌≢◌, ◌⊎◌, true, false, Option, none, some, [],
}
use bazaar_compute_node.Prelude.Dict.{get, Distinct}
use bazaar_compute_node.Timer.{Timer, expire}
use bazaar_compute_node.TimerWheel.{
  TimerWheel, Entry, Bucket, Level, near, upper, bucket, shift, level_slot, near_size, level_count,
}

-- An entry with deadline `d` may stand in slot `s` of a level at tick `t`: the slot is the one that
-- the deadline names, and it is not behind the wheel. In the near array the deadline is `lo` or
-- later. Below level `k`, and wherever `t` does not begin a block, the deadline's block is a later
-- one than the block of `t`.
abbrev pub Fits : ℕ → ℕ → ℕ → ℕ → Level → ℕ → Type 0
Fits lo k t d near s = (lo ≤ d) × (s ≡ d % near_size)
Fits lo k t d (upper l) s =
    (l < level_count)
    × (s ≡ level_slot l d)
    × (t ≤ d)
    × ((l < k) ⊎ (t % 2 ^ shift l ≢ 0) → t / 2 ^ shift l < d / 2 ^ shift l)

-- An entry and the timer object under its id: exactly the active timers have one, with their
-- deadline and their generation.
abbrev pub Linked : Option Entry → Option Timer → Type 0
Linked none none = Unit
Linked none (some t) = t.active ≡ false
Linked (some e) none = ⊥
Linked (some e) (some t) =
    (t.active ≡ true) × (e.deadline_tick ≡ t.deadline_tick) × (e.generation ≡ t.generation)

-- A timer that has expired was due, and is not active. A cancelled or closed one is not active.
pub record TimerIsValid (now : ℕ) (t : Timer) : Type 0 where
  pub due : t.expired_generation ≢ none → t.deadline_tick ≤ now
  pub idle : t.expired_generation ≢ none → t.active ≡ false
  pub cancelled_idle : t.cancelled ≡ true → t.active ≡ false
  pub closed_idle : t.closed ≡ true → t.active ≡ false

-- The first of two entries that is there.
abbrev pub either : Option Entry → Option Entry → Option Entry
either none f = f
either (some e) f = some e

-- The invariant inside a loop over the entries `rest`, which stand in no bucket any more. `heap` is
-- the timers before the tick began.
pub record Inv (heap : ℕ → Option Timer) (lo k : ℕ) (rest : Bucket) (w : TimerWheel) : Type 0 where
  pub placed :
      (l : Level) (s i : ℕ) (e : Entry)
      → get i (bucket w l s) ≡ some e
      → (get i w.entries ≡ some e)
        × (e.level ≡ l)
        × (e.slot ≡ s)
        × (e.timer ≡ i)
        × Fits lo k w.current_tick e.deadline_tick l s
  pub indexed :
      (i : ℕ) (e : Entry)
      → get i rest ≡ none
      → get i w.entries ≡ some e
      → get i (bucket w e.level e.slot) ≡ some e
  pub loose :
      (i : ℕ) (e : Entry)
      → get i rest ≡ some e
      → (e.timer ≡ i) × ((l : Level) (s : ℕ) → get i (bucket w l s) ≡ none)
  pub rest_distinct : Distinct rest
  pub entries_distinct : Distinct w.entries
  pub buckets_distinct : (l : Level) (s : ℕ) → Distinct (bucket w l s)
  pub linked : (i : ℕ) → Linked (either (get i rest) (get i w.entries)) (w.timers i)
  pub fresh : (i : ℕ) → w.next_timer_id ≤ i → w.timers i ≡ none
  pub timers_valid : (i : ℕ) (t : Timer) → w.timers i ≡ some t → TimerIsValid w.current_tick t
  -- What the tick has done so far: a timer is as it was, or it was due and has expired.
  pub progress :
      (i : ℕ)
      → (w.timers i ≡ heap i)
        ⊎ ((t : Timer) × (heap i ≡ some t)
            × (t.active ≡ true)
            × (t.deadline_tick ≤ w.current_tick)
            × (w.timers i ≡ some (expire t.generation t)))

-- Between calls: no loop runs, every entry is strictly ahead of the wheel.
pub record IsValid (w : TimerWheel) : Type 0 where
  pub inv : Inv w.timers (w.current_tick + 1) level_count [] w
