-- ===== src/TimerWheel/Advance.antt =====
-- `_advance_to` does to the timers what it should: those that are due expire, the others are left
-- alone. Both ways that it takes, tick by tick and by a rebuild, come to that.
use native.Mathlib.Nat.{le_refl}
use bazaar_compute_node.Prelude.{
  ℕ, zero, suc, ◌+◌, ◌-◌, ◌%◌, ◌≤◌, ◌≡◌, inl, inr, refl, sym, ◌∙◌, subst, arith, ◌&&◌, Option, ◌==◌,
  leb, ltb, [], length, max, Bool-cases,
}
use bazaar_compute_node.Prelude.Dict.{values, get-nil}
use bazaar_compute_node.Timer.{Timer}
use bazaar_compute_node.TimerWheel.{
  TimerWheel, Entry, near, select, set_bucket, near_size, clear_all, expire_near, tick, ticks,
  rebuild, advance_to,
}
use bazaar_compute_node.TimerWheel.Inv.{Inv}
use bazaar_compute_node.TimerWheel.Loops.{
  expire_all-Inv, tick-expire_all, rebuild_all-Inv, tick-rebuild_all,
}
use bazaar_compute_node.TimerWheel.Stages.{retick-Inv, emptied-Inv, cleared-Inv}
use bazaar_compute_node.TimerWheel.Tick.{Fits-next, Fits-near, Fits-within, cascade-Inv, ne_of_test}

-- The invariant at rest, with the timers `heap` that the call began with.
abbrev pub Ahead : (ℕ → Option Timer) → TimerWheel → Type 0
Ahead heap w = Inv heap (w.current_tick + 1) 4 [] w

tick-expire_near : (s : ℕ) (w : TimerWheel) → (expire_near s w).current_tick ≡ w.current_tick
unfolding expire_near set_bucket
tick-expire_near s w = tick-expire_all (values (w.near_buckets s)) (set_bucket near s [] w)

expire_near_now :
    {heap : ℕ → Option Timer} {w : TimerWheel}
    → Inv heap w.current_tick 4 [] w
    → Inv heap (w.current_tick + 1) 4 [] (expire_near (w.current_tick % near_size) w)
unfolding expire_near select set_bucket
expire_near_now {w = w} inv =
    expire_all-Inv (w.near_buckets (w.current_tick % near_size))
      (emptied-Inv inv near (w.current_tick % near_size) (Fits-near w.current_tick)) refl

-- `_expire_near` of the slot of the tick.
expire_near-Ahead :
    {heap : ℕ → Option Timer} {t : ℕ} {w : TimerWheel}
    → Inv heap t 4 [] w
    → w.current_tick ≡ t
    → Ahead heap (expire_near (t % near_size) w)
      × ((expire_near (t % near_size) w).current_tick ≡ t)
expire_near-Ahead {heap} {t} {w} inv p = (
  subst (λ n. Inv heap (n + 1) 4 [] (expire_near (t % near_size) w)) (sym (same_tick))
      (subst (λ n. Inv heap (n + 1) 4 [] (expire_near (n % near_size) w)) p
        (expire_near_now (subst (λ n. Inv heap n 4 [] w) (sym p) inv))),
  same_tick,
)
  where
    same_tick : (expire_near (t % near_size) w).current_tick ≡ t
    same_tick = tick-expire_near (t % near_size) w ∙ p

-- One round of the loop of `_advance_to`.
tick-Ahead :
    {heap : ℕ → Option Timer} {w : TimerWheel}
    → Ahead heap w
    → Ahead heap (tick w) × ((tick w).current_tick ≡ w.current_tick + 1)
unfolding tick
tick-Ahead {heap} {w} inv = elim (Bool-cases ((w.current_tick + 1) % near_size == 0)) [
  | inl begins ↦
      let (cascaded, same_tick) = cascade-Inv 3 0 refl moved refl in
      rw begins (expire_near-Ahead cascaded same_tick)
  | inr within ↦ rw within (
      expire_near-Ahead
        (retick-Inv (w.current_tick + 1) moved (le_refl (w.current_tick + 1)) (λ m r d.
          Fits-within (w.current_tick + 1) m r d
            (ne_of_test ((w.current_tick + 1) % near_size) within)))
        refl)
]
  where
    moved : Inv heap (w.current_tick + 1) 0 [] (record w { current_tick = w.current_tick + 1 })
    moved = retick-Inv (w.current_tick + 1) inv (omega arith) (Fits-next w.current_tick)

ticks-Ahead :
    {heap : ℕ → Option Timer} (n : ℕ) {w : TimerWheel}
    → Ahead heap w
    → Ahead heap (ticks n w) × ((ticks n w).current_tick ≡ w.current_tick + n)
unfolding ticks
ticks-Ahead zero inv = (inv, omega arith)
ticks-Ahead (suc n) {w} inv =
    let (ahead, next) = tick-Ahead inv in
    let (ahead', later) = ticks-Ahead n ahead in (ahead', omega arith)

-- `_rebuild` to a later tick.
rebuild-Ahead :
    {heap : ℕ → Option Timer} (target : ℕ) {w : TimerWheel}
    → Ahead heap w
    → w.current_tick ≤ target
    → Ahead heap (rebuild target w) × ((rebuild target w).current_tick ≡ target)
unfolding rebuild clear_all
rebuild-Ahead {heap} target {w} inv h = (
  subst (λ n. Inv heap (n + 1) 4 [] (rebuild target w)) (sym same_tick)
      (rebuild_all-Inv target w.entries cleared (λ i e p. get-nil {V = Entry} i) refl refl),
  same_tick,
)
  where
    same_tick : (rebuild target w).current_tick ≡ target
    same_tick =
        tick-rebuild_all target (values w.entries) (record (clear_all w) { current_tick = target })

    cleared : Inv heap (target + 1) 4 w.entries (record (clear_all w) { current_tick = target })
    cleared = cleared-Inv target inv h

-- `_advance_to` keeps the wheel strictly behind its entries, and ends at the later of the two ticks.
pub advance_to-Ahead :
    {heap : ℕ → Option Timer} (target : ℕ) {w : TimerWheel}
    → Ahead heap w
    → Ahead heap (advance_to target w)
      × ((advance_to target w).current_tick ≡ max w.current_tick target)
unfolding advance_to
advance_to-Ahead target {w} inv = elim (Bool-cases (target - w.current_tick == 0)) [
  | inl none_elapsed ↦ rw none_elapsed (inv, ground arith)
  | inr elapsed ↦
      elim (Bool-cases (
        leb near_size (target - w.current_tick)
        && ltb (length w.entries) (target - w.current_tick))) [
          | inl far ↦
              let (ahead, same_tick) = rebuild-Ahead target inv (ground arith) in
              rw (elapsed, far) (ahead, ground arith)
          | inr close ↦
              let (ahead, later) = ticks-Ahead (target - w.current_tick) inv in
              rw (elapsed, close) (ahead, ground arith)
        ]
]
