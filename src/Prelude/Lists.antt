-- ===== src/Prelude/Lists.antt =====
-- Lists measured by native numbers, under the library's names.
use Prim.Native.Nat.{ℕ, zero, suc, ◌+◌}
use mathlib.Core.Path.{◌≡◌, refl, subst}
use mathlib.Core.List.{List, [], ◌∷◌, ◌++◌}
use native.Mathlib.Omega.{arith}

module _ {ℓ} {A : Type ℓ} where
  abbrev pub length : List A → ℕ
  length [] = 0
  length (x ∷ xs) = suc (length xs)

  pub length-append : (xs ys : List A) → length (xs ++ ys) ≡ length xs + length ys
  length-append [] ys = omega arith
  length-append (x ∷ xs) ys = omega (arith, length-append xs ys)

succ_eq : (n : ℕ) → suc n ≡ n + 1
succ_eq n = omega arith

module _ {ℓ} {A : Type ℓ} where
  unfoldable pub take : ℕ → List A → List A
  take zero xs = []
  take (suc n) [] = []
  take (suc n) (x ∷ xs) = x ∷ take n xs

  unfoldable pub drop : ℕ → List A → List A
  drop zero xs = xs
  drop (suc n) [] = []
  drop (suc n) (x ∷ xs) = drop n xs

  pub take-cons : (n : ℕ) (x : A) (xs : List A) → take (n + 1) (x ∷ xs) ≡ x ∷ take n xs
  unfolding take
  take-cons n x xs = subst (λ m. take m (x ∷ xs) ≡ x ∷ take n xs) (succ_eq n) refl

  pub drop-cons : (n : ℕ) (x : A) (xs : List A) → drop (n + 1) (x ∷ xs) ≡ drop n xs
  unfolding drop
  drop-cons n x xs = subst (λ m. drop m (x ∷ xs) ≡ drop n xs) (succ_eq n) refl

  pub take-zero : (xs : List A) → take 0 xs ≡ []
  unfolding take
  take-zero xs = refl

  pub drop-zero : (xs : List A) → drop 0 xs ≡ xs
  unfolding drop
  drop-zero xs = refl
