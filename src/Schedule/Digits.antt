-- ===== src/Schedule/Digits.antt =====
-- Spans of characters, and numbers as their decimal digits.
use bazaar_compute_node.Prelude.{
  ℕ, zero, suc, ◌+◌, ◌-◌, ◌*◌, ◌/◌, ◌%◌, ◌≤◌, ◌≡◌, refl, ◌∙◌, ap, arith, Bool, true, false, [], ◌∷◌,
  ◌++◌, ltb, ltb→lt, Bool-cases, inl, inr,
}
use bazaar_compute_node.Schedule.{Chars, is_empty}
use bazaar_compute_node.Schedule.Rules.{
  is_digit, all_of, take_while, drop_while, int_from, show_from, show,
}

-- What `take_while` and `drop_while` make of a span and a character that ends it.
module _ (p : ℕ → Bool) (c : ℕ) (rest : Chars) (stops : p c ≡ false) where
  pub take_while-span : (s : Chars) → all_of p s ≡ true → take_while p (s ++ c ∷ rest) ≡ s
  unfolding take_while all_of
  take_while-span [] h = rw stops refl
  take_while-span (d ∷ ds) h = elim (Bool-cases (p d)) [
    | inl yes_d ↦ simp yes_d (ap (λ (xs : Chars). d ∷ xs) (take_while-span ds (rw yes_d at h)))
    | inr no_d ↦ absurd (cc (rw no_d at h))
  ]

  pub drop_while-span : (s : Chars) → all_of p s ≡ true → drop_while p (s ++ c ∷ rest) ≡ c ∷ rest
  unfolding drop_while all_of
  drop_while-span [] h = rw stops refl
  drop_while-span (d ∷ ds) h = elim (Bool-cases (p d)) [
    | inl yes_d ↦ simp yes_d (drop_while-span ds (rw yes_d at h))
    | inr no_d ↦ absurd (cc (rw no_d at h))
  ]

pub all_of-append :
    (p : ℕ → Bool) (s u : Chars) → all_of p s ≡ true → all_of p u ≡ true → all_of p (s ++ u) ≡ true
unfolding all_of
all_of-append p [] u h k = k
all_of-append p (c ∷ cs) u h k = elim (Bool-cases (p c)) [
  | inl yes_c ↦ simp yes_c (all_of-append p cs u (rw yes_c at h) k)
  | inr no_c ↦ absurd (cc (rw no_c at h))
]

-- A digit of a number is a digit.
pub digit-IsDigit : (k : ℕ) → k ≤ 9 → is_digit (48 + k) ≡ true
unfolding is_digit
digit-IsDigit k h = ground arith

int_from-append :
    (acc k : ℕ) (s : Chars) → int_from acc (s ++ ((48 + k) ∷ [])) ≡ int_from acc s * 10 + k
unfolding int_from
int_from-append acc k [] = omega arith
int_from-append acc k (c ∷ cs) = int_from-append (acc * 10 + (c - 48)) k cs

-- Reading the digits of a number gives the number.
int_from-show_from : (fuel n : ℕ) → n ≤ fuel → int_from 0 (show_from fuel n) ≡ n
unfolding show_from
int_from-show_from zero n h = unfold int_from in omega arith
int_from-show_from (suc fuel) n h = elim (Bool-cases (ltb n 10)) [
  | inl small ↦ rw small (unfold int_from in omega arith)
  | inr large ↦ rw large (
      int_from-append 0 (n % 10) (show_from fuel (n / 10))
      ∙ omega (arith, int_from-show_from fuel (n / 10) (omega arith)))
]

pub int_from-show : (n : ℕ) → int_from 0 (show n) ≡ n
int_from-show n = int_from-show_from n n (omega arith)

show_from-digits : (fuel n : ℕ) → n ≤ fuel → all_of is_digit (show_from fuel n) ≡ true
unfolding show_from
show_from-digits zero n h = unfold all_of in rw (digit-IsDigit (n % 10) (omega arith)) refl
show_from-digits (suc fuel) n h = elim (Bool-cases (ltb n 10)) [
  | inl small ↦
      rw small (unfold all_of in rw (digit-IsDigit n (omega (arith, ltb→lt n 10 small))) refl)
  | inr large ↦ rw large (
      all_of-append is_digit (show_from fuel (n / 10)) ((48 + n % 10) ∷ [])
        (show_from-digits fuel (n / 10) (omega arith))
        (unfold all_of in rw (digit-IsDigit (n % 10) (omega arith)) refl))
]

pub show-digits : (n : ℕ) → all_of is_digit (show n) ≡ true
show-digits n = show_from-digits n n (omega arith)

append-filled : (s : Chars) (c : ℕ) → is_empty (s ++ (c ∷ [])) ≡ false
append-filled [] c = refl
append-filled (d ∷ ds) c = refl

show_from-filled : (fuel n : ℕ) → is_empty (show_from fuel n) ≡ false
unfolding show_from
show_from-filled zero n = refl
show_from-filled (suc fuel) n = elim (Bool-cases (ltb n 10)) [
  | inl small ↦ rw small refl
  | inr large ↦ rw large (append-filled (show_from fuel (n / 10)) (48 + n % 10))
]

pub show-filled : (n : ℕ) → is_empty (show n) ≡ false
show-filled n = show_from-filled n n
