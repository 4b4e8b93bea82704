-- ===== src/Markdown/Slices.antt =====
-- Slices of a text, and where a preferred boundary lies.
use bazaar_compute_node.Prelude.{
  ℕ, zero, suc, ◌+◌, ◌-◌, ◌≤◌, ◌<◌, ◌≡◌, ◌≢◌, refl, sym, ◌∙◌, ap, arith, Option, none, some,
  some_inj, [], ◌∷◌, ◌++◌, take, drop, length,
}
use bazaar_compute_node.Markdown.{
  Text, slice, rfind_from, rfind, last_space, boundary_of, preferred_boundary,
}

take-drop : (n : ℕ) (xs : Text) → take n xs ++ drop n xs ≡ xs
unfolding take drop
take-drop zero xs = refl
take-drop (suc n) [] = refl
take-drop (suc n) (x ∷ xs) = ap (λ (ys : Text). x ∷ ys) (take-drop n xs)

drop_nil : (n : ℕ) → drop {A = ℕ} n [] ≡ []
unfolding drop
drop_nil zero = refl
drop_nil (suc n) = refl

drop-drop : (n c : ℕ) (xs : Text) → drop n (drop c xs) ≡ drop (c + n) xs
unfolding drop
drop-drop n zero xs = ap (λ m. drop m xs) (omega arith)
drop-drop n (suc c) [] = drop_nil n ∙ sym (drop_nil (suc c + n))
drop-drop n (suc c) (x ∷ xs) =
    let next : suc (c + n) ≡ suc c + n = omega arith in
    drop-drop n c xs ∙ ap (λ m. drop m (x ∷ xs)) next

-- A slice and the rest behind it.
pub slice_rest :
    (start end : ℕ) (xs : Text) → start ≤ end → slice start end xs ++ drop end xs ≡ drop start xs
slice_rest start end xs h =
    let back : start + (end - start) ≡ end = omega arith in
    ap (λ m. slice start end xs ++ drop m xs) (sym back)
    ∙ ap (λ (ys : Text). slice start end xs ++ ys) (sym (drop-drop (end - start) start xs))
    ∙ take-drop (end - start) (drop start xs)

pub drop_all : (n : ℕ) (xs : Text) → length xs ≤ n → drop n xs ≡ []
unfolding drop
drop_all zero [] h = refl
drop_all (suc n) [] h = refl
drop_all zero (x ∷ xs) h = absurd (omega arith)
drop_all (suc n) (x ∷ xs) h = drop_all n xs (omega arith)

pub length-drop : (n : ℕ) (xs : Text) → length (drop n xs) ≡ length xs - n
unfolding drop
length-drop zero xs = omega arith
length-drop (suc n) [] = omega arith
length-drop (suc n) (x ∷ xs) = omega (arith, length-drop n xs)

pub take_all : (n : ℕ) (xs : Text) → length xs ≤ n → take n xs ≡ xs
unfolding take
take_all zero [] h = refl
take_all (suc n) [] h = refl
take_all zero (x ∷ xs) h = absurd (omega arith)
take_all (suc n) (x ∷ xs) h = ap (λ (ys : Text). x ∷ ys) (take_all n xs (omega arith))

take_filled : (n : ℕ) (xs : Text) → 0 < n → 0 < length xs → take n xs ≢ []
unfolding take
take_filled zero xs some_taken inside h = absurd (omega arith)
take_filled (suc n) [] some_taken inside h = absurd (omega arith)
take_filled (suc n) (x ∷ xs) some_taken inside h = absurd (cc h)

-- A slice that starts inside the text and ends behind its start is not empty.
pub slice_filled :
    (start end : ℕ) (xs : Text) → start < end → start < length xs → slice start end xs ≢ []
slice_filled start end xs onward inside =
    take_filled (end - start) (drop start xs) (omega arith) (omega (arith, length-drop start xs))

-- What the searches find is not before the minimum.
rfind_from_lower :
    (separator content : Text) (minimum k i : ℕ)
    → rfind_from separator content minimum k ≡ some i
    → minimum ≤ i
unfolding rfind_from
rfind_from_lower separator content minimum zero i h = ground arith
rfind_from_lower separator content minimum (suc k) i h =
    ground (arith, rfind_from_lower separator content minimum k i)

rfind_lower :
    (separator content : Text) (minimum end i : ℕ)
    → rfind separator content minimum end ≡ some i
    → minimum ≤ i
unfolding rfind
rfind_lower separator content minimum end i h =
    ground (arith, rfind_from_lower separator content minimum (end - length separator - minimum) i)

last_space_lower :
    (content : Text) (minimum k i : ℕ) → last_space content minimum k ≡ some i → minimum < i
unfolding last_space
last_space_lower content minimum zero i h = absurd (cc h)
last_space_lower content minimum (suc k) i h = ground (arith, last_space_lower content minimum k i)

boundary_of_lower :
    (a b c : Option ℕ) (minimum i : ℕ)
    → boundary_of a b c ≡ some i
    → ((j : ℕ) → a ≡ some j → minimum ≤ j)
    → ((j : ℕ) → b ≡ some j → minimum ≤ j)
    → ((j : ℕ) → c ≡ some j → minimum < j)
    → minimum < i
unfolding boundary_of
boundary_of_lower (some j) b c minimum i h p q r = omega (arith, some_inj h, p j refl)
boundary_of_lower none (some j) c minimum i h p q r = omega (arith, some_inj h, q j refl)
boundary_of_lower none none c minimum i h p q r = r i h

pub preferred_boundary_lower :
    (content : Text) (minimum end i : ℕ)
    → preferred_boundary content minimum end ≡ some i
    → minimum < i
unfolding preferred_boundary
preferred_boundary_lower content minimum end i h =
    boundary_of_lower _ _ _ minimum i h (rfind_lower (10 ∷ 10 ∷ []) content minimum end)
      (rfind_lower (10 ∷ []) content minimum end) (last_space_lower content minimum (end - minimum))
