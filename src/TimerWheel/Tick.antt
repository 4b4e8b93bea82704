-- ===== src/TimerWheel/Tick.antt =====
-- One tick: the cascade brings the entries of the blocks that begin down, and the near slot of the
-- tick is emptied. The wheel is then strictly behind every entry that it holds.
use native.Mathlib.Decide.{dec_lt}
use native.Mathlib.Nat.{le_refl}
use bazaar_compute_node.Prelude.{
  ℕ, zero, suc, ◌+◌, ◌/◌, ◌%◌, ◌^◌, ◌≤◌, ◌<◌, ◌≡◌, ◌≢◌, inl, inr, sym, ◌∙◌, subst, arith, false,
  Option, ◌==◌, ==_iff, [], Bool-cases,
}
use bazaar_compute_node.Prelude.Dict.{values}
use bazaar_compute_node.Timer.{Timer}
use bazaar_compute_node.TimerWheel.{
  TimerWheel, Level, near, upper, select, set_bucket, shift, level_slot, near_size, cascade_level,
  cascade,
}
use bazaar_compute_node.TimerWheel.Places.{same_place}
use bazaar_compute_node.TimerWheel.Bits.{lt_of_block, block_mono}
use bazaar_compute_node.TimerWheel.Inv.{Fits, Inv}
use bazaar_compute_node.TimerWheel.Loops.{reinsert_all-Inv, tick-reinsert_all}
use bazaar_compute_node.TimerWheel.Stages.{retick-Inv, emptied-Inv}

-- No block begins at the next tick: it stands in the block of this one.
same_block : (l t : ℕ) → l < 4 → (t + 1) % 2 ^ shift l ≢ 0 → (t + 1) / 2 ^ shift l ≡ t / 2 ^ shift l
same_block zero t h p = omega arith
same_block (suc zero) t h p = omega arith
same_block (suc (suc zero)) t h p = omega arith
same_block (suc (suc (suc zero))) t h p = omega arith
same_block (suc (suc (suc (suc l)))) t h p = absurd (omega arith)

-- The next tick, before its cascade.
pub Fits-next :
    (t : ℕ) (l : Level) (s d : ℕ) → Fits (t + 1) 4 t d l s → Fits (t + 1) 0 (t + 1) d l s
Fits-next t near s d h = h
Fits-next t (upper l) s d (l_lt, slot, le, strict) =
    let block = strict (inl l_lt) in
    (
      l_lt,
      slot,
      omega (arith, lt_of_block (2 ^ shift l) t d block),
      λ c. elim c [
        | inl below ↦ absurd (omega arith)
        | inr within ↦ rw (same_block l t l_lt within) block
      ],
    )

-- A deadline that is not behind, in another slot than the tick's, stands in a later block.
later_block :
    (k t d r : ℕ)
    → r ≡ level_slot k d
    → (level_slot k t == r) ≡ false
    → t ≤ d
    → t / 2 ^ shift k < d / 2 ^ shift k
later_block k t d r slot ne le = ground (arith, block_mono (2 ^ shift k) t d le)

-- A level is strict once its current slot is empty.
Fits-level :
    (t k : ℕ) (m : Level) (r d : ℕ)
    → same_place (upper k) (level_slot k t) m r ≡ false
    → Fits t k t d m r
    → Fits t (k + 1) t d m r
Fits-level t k near r d ne h = h
Fits-level t k (upper l) r d ne (l_lt, slot, le, strict) = elim (Bool-cases (k == l)) [
  | inl same ↦
      let k_is_l : k ≡ l = (==_iff k l).0 same in
      let other : (level_slot k t == r) ≡ false = ground arith in
      let block : t / 2 ^ shift k < d / 2 ^ shift k =
        later_block k t d r (rw k_is_l slot) other le in
      (l_lt, slot, le, λ _. rw k_is_l at block)
  | inr differ ↦ (
    l_lt,
    slot,
    le,
    λ c. elim c [ inl below ↦ strict (inl (ground arith)) | inr within ↦ strict (inr within) ],
  )
]

-- Inside a round of level `k` no block of a higher level begins.
not_begins : (k l t : ℕ) → k < l → l < 4 → level_slot k t ≢ 0 → t % 2 ^ shift l ≢ 0
not_begins zero (suc zero) t h p ne = omega arith
not_begins zero (suc (suc zero)) t h p ne = omega arith
not_begins zero (suc (suc (suc zero))) t h p ne = omega arith
not_begins (suc zero) (suc (suc zero)) t h p ne = omega arith
not_begins (suc zero) (suc (suc (suc zero))) t h p ne = omega arith
not_begins (suc (suc zero)) (suc (suc (suc zero))) t h p ne = omega arith
not_begins (suc (suc (suc k))) (suc (suc (suc zero))) t h p ne = absurd (omega arith)
not_begins (suc (suc k)) (suc (suc zero)) t h p ne = absurd (omega arith)
not_begins (suc k) (suc zero) t h p ne = absurd (omega arith)
not_begins k zero t h p ne = absurd (omega arith)
not_begins k (suc (suc (suc (suc l)))) t h p ne = absurd (omega arith)

-- Below a slot that is not the first of its round, no further block begins.
Fits-rest :
    (t k : ℕ) (m : Level) (r d : ℕ)
    → k < 4
    → level_slot k t ≢ 0
    → Fits t (k + 1) t d m r
    → Fits t 4 t d m r
Fits-rest t k near r d k_lt ne h = h
Fits-rest t k (upper l) r d k_lt ne (l_lt, slot, le, strict) = (
  l_lt,
  slot,
  le,
  λ _. elim (dec_lt k l) [
    | yes above ↦ strict (inr (not_begins k l t above l_lt ne))
    | no below ↦ strict (inl (omega arith))
  ],
)

-- Where no block begins at all, every level is strict.
within_blocks : (l t : ℕ) → l < 4 → t % near_size ≢ 0 → t % 2 ^ shift l ≢ 0
within_blocks zero t h ne = omega arith
within_blocks (suc zero) t h ne = omega arith
within_blocks (suc (suc zero)) t h ne = omega arith
within_blocks (suc (suc (suc zero))) t h ne = omega arith
within_blocks (suc (suc (suc (suc l)))) t h ne = absurd (omega arith)

pub Fits-within :
    (t : ℕ) (m : Level) (r d : ℕ) → t % near_size ≢ 0 → Fits t 0 t d m r → Fits t 4 t d m r
Fits-within t near r d ne h = h
Fits-within t (upper l) r d ne (l_lt, slot, le, strict) =
    (l_lt, slot, le, λ _. strict (inr (within_blocks l t l_lt ne)))

-- The near array is strict once its current slot is empty.
pub Fits-near :
    (t : ℕ) (m : Level) (r d : ℕ)
    → same_place near (t % near_size) m r ≡ false
    → Fits t 4 t d m r
    → Fits (t + 1) 4 t d m r
Fits-near t near r d ne (le, slot) = (ground arith, slot)
Fits-near t (upper l) r d ne h = h

-- `_cascade` but for its recursive call makes one more level strict.
cascade_level_now :
    {heap : ℕ → Option Timer} (k : ℕ) {w : TimerWheel}
    → Inv heap w.current_tick k [] w
    → Inv heap w.current_tick (k + 1) [] (cascade_level k w)
unfolding cascade_level select set_bucket
cascade_level_now k {w} inv =
    reinsert_all-Inv (w.levels k slot)
      (emptied-Inv inv (upper k) slot (Fits-level w.current_tick k)) (le_refl w.current_tick)
      (λ i e h. let (a, b, c, d, fit) = inv.placed (upper k) slot i e h in fit.2)
  where
    slot : ℕ
    slot = level_slot k w.current_tick

tick-cascade_level : (k : ℕ) (w : TimerWheel) → (cascade_level k w).current_tick ≡ w.current_tick
unfolding cascade_level set_bucket
tick-cascade_level k w =
    tick-reinsert_all (values (w.levels k (level_slot k w.current_tick)))
      (set_bucket (upper k) (level_slot k w.current_tick) [] w)

cascade_level-Inv :
    {heap : ℕ → Option Timer} {t : ℕ} (k : ℕ) {w : TimerWheel}
    → Inv heap t k [] w
    → w.current_tick ≡ t
    → Inv heap t (k + 1) [] (cascade_level k w)
cascade_level-Inv {heap} k {w} inv p =
    subst (λ n. Inv heap n (k + 1) [] (cascade_level k w)) p
      (cascade_level_now k (subst (λ n. Inv heap n k [] w) (sym p) inv))

pub ne_of_test : (n : ℕ) → (n == 0) ≡ false → n ≢ 0
ne_of_test n h = ground arith

-- Where no further block begins, the other levels are strict already.
rest-Inv :
    {heap : ℕ → Option Timer} {t : ℕ} (k : ℕ) {w : TimerWheel}
    → k < 4
    → Inv heap t (k + 1) [] w
    → w.current_tick ≡ t
    → level_slot k t ≢ 0
    → Inv heap t 4 [] w
rest-Inv k {w} k_lt inv p ne =
    retick-Inv w.current_tick inv (le_refl w.current_tick)
      (λ m r d fit. rw p (Fits-rest _ k m r d k_lt ne (rw p at fit)))

-- `_cascade` makes every level strict.
pub cascade-Inv :
    {heap : ℕ → Option Timer} {t : ℕ} (above k : ℕ) {w : TimerWheel}
    → above + k ≡ 3
    → Inv heap t k [] w
    → w.current_tick ≡ t
    → Inv heap t 4 [] (cascade above k w) × ((cascade above k w).current_tick ≡ t)
unfolding cascade
cascade-Inv {heap} {t} zero k {w} q inv p = (
  subst (λ n. Inv heap t n [] (cascade_level k w)) (omega arith) (cascade_level-Inv k inv p),
  tick-cascade_level k w ∙ p,
)
cascade-Inv {heap} {t} (suc above) k {w} q inv p =
    elim (Bool-cases (level_slot k w.current_tick == 0)) [
      | inl first ↦ rw first (
          cascade-Inv above (k + 1) (omega arith) (cascade_level-Inv k inv p)
            (tick-cascade_level k w ∙ p))
      | inr inside ↦ rw inside (
        rest-Inv k (omega arith) (cascade_level-Inv k inv p) (tick-cascade_level k w ∙ p)
            (subst (λ n. level_slot k n ≢ 0) p (ne_of_test (level_slot k w.current_tick) inside)),
        tick-cascade_level k w ∙ p,
      )
    ]
