-- ===== src/TimerWheel/Bits.antt =====
-- Arithmetic of the slots: the length of a number in bits, and blocks of ticks.
use native.Mathlib.Nat.{pow-le-pow_right, one-le-pow, two-pow-succ}
use native.Mathlib.Decide.{dec_lt}
use bazaar_compute_node.Prelude.{
  ==_iff, ℕ, zero, suc, ◌-◌, ◌*◌, ◌/◌, ◌%◌, ◌^◌, ◌≤◌, ◌<◌, min, ◌≡◌, inl, inr, refl, arith, ◌==◌,
  Bool-cases,
}
use bazaar_compute_node.TimerWheel.{near, upper, bits, bit_length, shift, level_slot, place_of}

bits_zero : (fuel : ℕ) → bits fuel 0 ≡ 0
unfolding bits
bits_zero zero = refl
bits_zero (suc f) = refl

bits-suc : (fuel n : ℕ) → 0 < n → bits (suc fuel) n ≡ suc (bits fuel (n / 2))
unfolding bits
bits-suc fuel n h = ground arith

-- The length in bits, from both sides.
pow-bits-le : (fuel n : ℕ) → n ≤ fuel → 0 < n → 2 ^ bits fuel n ≤ 2 * n
pow-bits-le zero n h p = absurd (omega arith)
pow-bits-le (suc f) n h p = elim (Bool-cases (n / 2 == 0)) [
  | inl e ↦ rw (bits-suc f n p, (==_iff (n / 2) 0).0 e, bits_zero f) (omega arith)
  | inr e ↦
      rw (bits-suc f n p, two-pow-succ)
        (omega (arith, pow-bits-le f (n / 2) (omega arith) (ground arith)))
]

lt-pow-bits : (fuel n : ℕ) → n ≤ fuel → n < 2 ^ bits fuel n
lt-pow-bits zero (suc n) h = absurd (omega arith)
lt-pow-bits fuel zero h = rw (bits_zero fuel) (omega arith)
lt-pow-bits (suc f) (suc n) h =
    rw (bits-suc f (suc n) (omega arith), two-pow-succ)
      (omega (arith, lt-pow-bits f (suc n / 2) (omega arith)))

nine_bits : (n b : ℕ) → 256 ≤ n → n < 2 ^ b → 9 ≤ b
nine_bits n b h k = elim (dec_lt b 9) [
  | yes p ↦
      absurd (omega (arith, pow-le-pow_right {n = 2} (omega arith) {i = b} {j = 8} (omega arith)))
  | no p ↦ omega arith
]

pow_shift_le :
    (delta level : ℕ) → 256 ≤ delta → level ≤ (bit_length delta - 9) / 6 → 2 ^ shift level ≤ delta
unfolding bit_length
pow_shift_le delta level h k = omega (
  arith,
  two-pow-succ (shift level),
  pow-le-pow_right {n = 2} (omega arith) {i = suc (shift level)} {j = bits delta delta}
      (omega (arith, nine_bits delta (bits delta delta) h (lt-pow-bits delta delta (omega arith)))),
  pow-bits-le delta delta (omega arith) (omega arith),
)

-- A tick in a later block is later.
pub lt_of_block : (m t d : ℕ) → t / m < d / m → t < d
lt_of_block m t d h = grind arith

-- Ticks one block's length apart stand in different blocks.
block_of_far : (m t d : ℕ) → 0 < m → t ≤ d → m ≤ d - t → t / m < d / m
block_of_far m t d p h k = grind arith

pub block_mono : (m t d : ℕ) → t ≤ d → t / m ≤ d / m
block_mono m t d h = grind arith

-- Where `_insert` puts an entry.
pub place_near : (t d : ℕ) → d - t < 256 → place_of t d ≡ (near, d % 256)
unfolding place_of
place_near t d h = ground arith

-- The level that `_insert` picks for an entry that is too far for the near array.
pub far_level : ℕ → ℕ → ℕ
far_level t d = min ((bit_length (d - t) - 9) / 6) 3

pub place_far :
    (t d : ℕ) → 256 ≤ d - t → place_of t d ≡ (upper (far_level t d), level_slot (far_level t d) d)
unfolding place_of far_level
place_far t d h = ground arith

pub far_level-lt : (t d : ℕ) → far_level t d < 4
unfolding far_level
far_level-lt t d = omega arith

pub far_level-block :
    (t d : ℕ) → 256 ≤ d - t → t / 2 ^ shift (far_level t d) < d / 2 ^ shift (far_level t d)
unfolding far_level
far_level-block t d h =
    block_of_far (2 ^ shift (far_level t d)) t d
      (one-le-pow (shift (far_level t d)) 2 (omega arith)) (omega arith)
      (pow_shift_le (d - t) (far_level t d) h (omega arith))
