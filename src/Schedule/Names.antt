-- ===== src/Schedule/Names.antt =====
-- The names of the days of the week: reading a joined list of them gives their numbers.
use bazaar_compute_node.Prelude.{
  ℕ, zero, suc, ◌≤◌, ◌<◌, ◌≡◌, refl, ◌∙◌, ap, subst, arith, true, false, some, List, [], ◌∷◌, ◌++◌,
  ltb, ltb_false→le, ◌==◌, Bool-cases, inl, inr,
}
use bazaar_compute_node.Schedule.{Chars, is_empty, same, any_beyond}
use bazaar_compute_node.Schedule.Rules.{
  is_lower, is_not_at, all_of, extend_first, split_comma, all_words, weekday_name, number_from,
  weekday_number, number_onto, weekday_numbers, join_names,
}
use bazaar_compute_node.Schedule.Digits.{all_of-append}

abbrev pub names_of : List ℕ → List Chars
names_of [] = []
names_of (d ∷ ds) = weekday_name d ∷ names_of ds

weekday_name-lower : (d : ℕ) → all_of is_lower (weekday_name d) ≡ true
unfolding weekday_name all_of is_lower
weekday_name-lower zero = refl
weekday_name-lower (suc zero) = refl
weekday_name-lower (suc (suc zero)) = refl
weekday_name-lower (suc (suc (suc zero))) = refl
weekday_name-lower (suc (suc (suc (suc zero)))) = refl
weekday_name-lower (suc (suc (suc (suc (suc zero))))) = refl
weekday_name-lower (suc (suc (suc (suc (suc (suc d)))))) = refl

weekday_name-filled : (d : ℕ) → is_empty (weekday_name d) ≡ false
unfolding weekday_name
weekday_name-filled zero = refl
weekday_name-filled (suc zero) = refl
weekday_name-filled (suc (suc zero)) = refl
weekday_name-filled (suc (suc (suc zero))) = refl
weekday_name-filled (suc (suc (suc (suc zero)))) = refl
weekday_name-filled (suc (suc (suc (suc (suc zero))))) = refl
weekday_name-filled (suc (suc (suc (suc (suc (suc d)))))) = refl

weekday_number-name : (d : ℕ) → d ≤ 6 → weekday_number (weekday_name d) ≡ some d
unfolding weekday_name number_from same
weekday_number-name zero h = refl
weekday_number-name (suc zero) h = refl
weekday_number-name (suc (suc zero)) h = refl
weekday_number-name (suc (suc (suc zero))) h = refl
weekday_number-name (suc (suc (suc (suc zero)))) h = refl
weekday_number-name (suc (suc (suc (suc (suc zero))))) h = refl
weekday_number-name (suc (suc (suc (suc (suc (suc d)))))) h =
    let last : 0 ≡ d = omega arith in
    subst
      (λ k.
        weekday_number (weekday_name (suc (suc (suc (suc (suc (suc k)))))))
        ≡ some (suc (suc (suc (suc (suc (suc k)))))))
      last refl

lower_apart : (c k : ℕ) → is_lower c ≡ true → k < 97 → (c == k) ≡ false
unfolding is_lower
lower_apart c k h small = ground arith

lower-not_at : (s : Chars) → all_of is_lower s ≡ true → all_of is_not_at s ≡ true
unfolding all_of
lower-not_at [] h = refl
lower-not_at (c ∷ cs) h = elim (Bool-cases (is_lower c)) [
  | inl low ↦ simp (lower_apart c b'@' low (omega arith)) (lower-not_at cs (rw low at h))
  | inr other ↦ absurd (cc (rw other at h))
]

pub join_names-not_at : (ds : List ℕ) → all_of is_not_at (join_names ds) ≡ true
unfolding join_names all_of
join_names-not_at [] = refl
join_names-not_at (d ∷ []) = lower-not_at (weekday_name d) (weekday_name-lower d)
join_names-not_at (d ∷ e ∷ ds) =
    all_of-append is_not_at (weekday_name d) (b',' ∷ join_names (e ∷ ds))
      (lower-not_at (weekday_name d) (weekday_name-lower d)) (join_names-not_at (e ∷ ds))

-- A word in front of a part, and one in front of a comma.
split_comma-word : (s : Chars) → all_of is_lower s ≡ true → split_comma s ≡ s ∷ []
unfolding split_comma all_of extend_first
split_comma-word [] h = refl
split_comma-word (c ∷ cs) h = elim (Bool-cases (is_lower c)) [
  | inl low ↦ simp (lower_apart c b',' low (omega arith), split_comma-word cs (rw low at h))
  | inr other ↦ absurd (cc (rw other at h))
]

split_comma-comma :
    (s rest : Chars)
    → all_of is_lower s ≡ true
    → split_comma (s ++ b',' ∷ rest) ≡ s ∷ split_comma rest
unfolding split_comma all_of extend_first
split_comma-comma [] rest h = refl
split_comma-comma (c ∷ cs) rest h = elim (Bool-cases (is_lower c)) [
  | inl low ↦ simp (lower_apart c b',' low (omega arith), split_comma-comma cs rest (rw low at h))
  | inr other ↦ absurd (cc (rw other at h))
]

pub split_comma-join : (d : ℕ) (ds : List ℕ) → split_comma (join_names (d ∷ ds)) ≡ names_of (d ∷ ds)
unfolding join_names
split_comma-join d [] = split_comma-word (weekday_name d) (weekday_name-lower d)
split_comma-join d (e ∷ ds) =
    split_comma-comma (weekday_name d) (join_names (e ∷ ds)) (weekday_name-lower d)
    ∙ ap (λ (xs : List Chars). weekday_name d ∷ xs) (split_comma-join e ds)

pub all_words-names : (ds : List ℕ) → all_words (names_of ds) ≡ true
unfolding all_words
all_words-names [] = refl
all_words-names (d ∷ ds) = simp (weekday_name-filled d, weekday_name-lower d, all_words-names ds)

pub weekday_numbers-names :
    (ds : List ℕ) → any_beyond ds ≡ false → weekday_numbers (names_of ds) ≡ some ds
unfolding weekday_numbers any_beyond number_onto
weekday_numbers-names [] h = refl
weekday_numbers-names (d ∷ ds) h = elim (Bool-cases (ltb 6 d)) [
  | inl beyond ↦ absurd (cc (rw beyond at h))
  | inr inside ↦
      simp
        (weekday_number-name d (ltb_false→le 6 d inside), weekday_numbers-names ds (rw inside at h))
]
