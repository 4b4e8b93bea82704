-- ===== src/Markdown/Fits.antt =====
-- Every chunk fits the limit, and the splitting comes to an end.
use bazaar_compute_node.Prelude.{
  ℕ, zero, suc, ◌+◌, ◌≤◌, ◌<◌, ◌≡◌, ◌≢◌, refl, subst, arith, true, Option, none, some, length, drop,
  ltb, leb→le, Bool-cases, inl, inr,
}
use bazaar_compute_node.Prelude.Result.{Result, ok, err}
use bazaar_compute_node.Markdown.{
  Text, Fence, Cut, SplitError, overhead_exceeds, out_of_rounds, prefix_of, fitting, cut_at,
  chunk_of, cut_fits, shrink, prefer_at, prefer, prefer_ok, round,
}
use bazaar_compute_node.Markdown.Slices.{preferred_boundary_lower}

module _ (measure : Text → ℕ) (limit : ℕ) (content : Text) where
  -- A cut that a round may choose: it moves on, it is what `cut_at` gives, and its chunk fits.
  pub record Good (cursor : ℕ) (fence : Option Fence) (cut : Cut) : Type 0 where
    pub onward : cursor < cut.end
    pub from : cut ≡ cut_at measure limit content cursor fence cut.end
    pub fits : measure (chunk_of measure limit content cursor fence cut) ≤ limit

  cut_at-Good :
      (cursor : ℕ) (fence : Option Fence) (end : ℕ)
      → cursor < end
      → cut_fits measure limit content cursor fence (cut_at measure limit content cursor fence end)
        ≡ true
      → Good cursor fence (cut_at measure limit content cursor fence end)
  cut_at-Good cursor fence end h fits = record {
    onward = unfold cut_at in h;
    from = unfold cut_at in refl;
    fits = leb→le _ limit fits;
  }

  shrink-Good :
      (cursor : ℕ) (fence : Option Fence) (n : ℕ) (cut : Cut)
      → shrink measure limit content cursor fence n ≡ ok cut
      → Good cursor fence cut
  unfolding shrink
  shrink-Good cursor fence zero cut h = absurd (cc h)
  shrink-Good cursor fence (suc n) cut h =
      elim (Bool-cases (
        cut_fits measure limit content cursor fence
          (cut_at measure limit content cursor fence (cursor + suc n)))) [
            | inl fits ↦
                let same : cut_at measure limit content cursor fence (cursor + suc n) ≡ cut =
                  cc (rw fits at h) in
                subst (Good cursor fence) same
                  (cut_at-Good cursor fence (cursor + suc n) (omega arith) fits)
            | inr over ↦ shrink-Good cursor fence n cut (rw over at h)
          ]

  prefer_at-Good :
      (cursor : ℕ) (fence : Option Fence) (o : Option ℕ) (cut : Cut)
      → ((p : ℕ) → o ≡ some p → cursor < p)
      → Good cursor fence cut
      → Good cursor fence (prefer_at measure limit content cursor fence o cut)
  unfolding prefer_at
  prefer_at-Good cursor fence none cut lower good = good
  prefer_at-Good cursor fence (some p) cut lower good =
      elim (Bool-cases (
        cut_fits measure limit content cursor fence
          (cut_at measure limit content cursor fence p))) [
            | inl fits ↦ rw fits (cut_at-Good cursor fence p (lower p refl) fits)
            | inr over ↦ rw over good
          ]

  prefer-Good :
      (cursor : ℕ) (fence : Option Fence) (cut : Cut)
      → Good cursor fence cut
      → Good cursor fence (prefer measure limit content cursor fence cut)
  unfolding prefer
  prefer-Good cursor fence cut good = elim (Bool-cases (ltb cut.end (length content))) [
    | inl inside ↦ simp inside (
        prefer_at-Good cursor fence _ cut
          (λ p h. omega (arith, preferred_boundary_lower content _ cut.end p h)) good)
    | inr last ↦ simp last good
  ]

  prefer_ok-Good :
      (cursor : ℕ) (fence : Option Fence) (o : Result SplitError Cut) (cut : Cut)
      → ((c : Cut) → o ≡ ok c → Good cursor fence c)
      → prefer_ok measure limit content cursor fence o ≡ ok cut
      → Good cursor fence cut
  unfolding prefer_ok
  prefer_ok-Good cursor fence (err e) cut good h = absurd (cc h)
  prefer_ok-Good cursor fence (ok c) cut good h =
      let same : prefer measure limit content cursor fence c ≡ cut = cc h in
      subst (Good cursor fence) same (prefer-Good cursor fence c (good c refl))

  pub round-Good :
      (cursor : ℕ) (fence : Option Fence) (cut : Cut)
      → round measure limit content cursor fence ≡ ok cut
      → Good cursor fence cut
  unfolding round
  round-Good cursor fence cut =
      go (fitting measure limit (measure (prefix_of fence)) (drop cursor content))
    where
      go :
          (n : ℕ)
          → elim n as (λ _. Result SplitError Cut) [
            | zero ↦ err overhead_exceeds
            | suc n ↦
                prefer_ok measure limit content cursor fence
                  (shrink measure limit content cursor fence (suc n))
          ]
            ≡ ok cut
          → Good cursor fence cut
      go zero h = absurd (cc h)
      go (suc n) h = prefer_ok-Good cursor fence _ cut (shrink-Good cursor fence (suc n)) h

  shrink-runs :
      (cursor : ℕ) (fence : Option Fence) (n : ℕ)
      → shrink measure limit content cursor fence n ≢ err out_of_rounds
  unfolding shrink
  shrink-runs cursor fence zero h = absurd (cc h)
  shrink-runs cursor fence (suc n) h = ground (arith, shrink-runs cursor fence n)

  prefer_ok-runs :
      (cursor : ℕ) (fence : Option Fence) (o : Result SplitError Cut)
      → o ≢ err out_of_rounds
      → prefer_ok measure limit content cursor fence o ≢ err out_of_rounds
  unfolding prefer_ok
  prefer_ok-runs cursor fence (err e) runs h = runs (cc h)
  prefer_ok-runs cursor fence (ok c) runs h = absurd (cc h)

  pub round-runs :
      (cursor : ℕ) (fence : Option Fence)
      → round measure limit content cursor fence ≢ err out_of_rounds
  unfolding round
  round-runs cursor fence =
      go (fitting measure limit (measure (prefix_of fence)) (drop cursor content))
    where
      go :
          (n : ℕ)
          → elim n as (λ _. Result SplitError Cut) [
            | zero ↦ err overhead_exceeds
            | suc n ↦
                prefer_ok measure limit content cursor fence
                  (shrink measure limit content cursor fence (suc n))
          ]
            ≢ err out_of_rounds
      go zero h = absurd (cc h)
      go (suc n) h = prefer_ok-runs cursor fence _ (shrink-runs cursor fence (suc n)) h
