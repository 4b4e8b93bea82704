-- ===== src/Markdown/Limits.antt =====
-- No chunk measures more than the limit, and the loop of `split_markdown` comes to its end.
use bazaar_compute_node.Prelude.{
  ℕ, zero, suc, ◌+◌, ◌≤◌, ◌<◌, ◌≡◌, ◌≢◌, refl, ◌∙◌, ap, arith, false, Option, none, List, [], ◌∷◌,
  length, ltb, ◌==◌, Bool-cases, inl, inr,
}
use bazaar_compute_node.Prelude.Result.{Result, ok, err}
use bazaar_compute_node.Markdown.{
  Text, Fence, Cut, SplitError, out_of_rounds, chunk_of, round, prepend, split_from, split_markdown,
  is_nil,
}
use bazaar_compute_node.Markdown.Fits.{Good, round-Good, round-runs}
use bazaar_compute_node.Markdown.Pieces.{Splits, done, more, split_from-Splits}

-- Every text of a list measures `limit` at most.
pub data Within (measure : Text → ℕ) (limit : ℕ) : List Text → Type 0 where
  no_chunk : Within measure limit []
  one_more :
      (chunk : Text) (chunks : List Text)
      → measure chunk ≤ limit
      → Within measure limit chunks
      → Within measure limit (chunk ∷ chunks)

module _ (measure : Text → ℕ) (limit : ℕ) (content : Text) where
  Splits-Within :
      (cursor : ℕ) (fence : Option Fence) (chunks : List Text)
      → Splits measure limit content cursor fence chunks
      → Within measure limit chunks
  Splits-Within cursor fence _ (done _ _ h) = no_chunk
  Splits-Within cursor fence _ (more _ _ cut chunks inside good below) =
      one_more _ chunks good.fits (Splits-Within cut.end cut.next_fence chunks below)

  -- Whatever the measure, each chunk that `split_markdown` returns for a text that is not empty
  -- measures `limit` at most, the fences that it opens and closes again included.
  pub split_markdown-Within :
      (chunks : List Text)
      → is_nil content ≡ false
      → split_markdown measure limit content ≡ ok chunks
      → Within measure limit chunks
  unfolding split_markdown
  split_markdown-Within chunks filled h = elim (Bool-cases (limit == 0)) [
    | inl zero_limit ↦ absurd (cc (rw zero_limit at h))
    | inr positive ↦ Splits-Within 0 none chunks (
        split_from-Splits measure limit content (length content) 0 none chunks
          (simp (positive, filled) at h))
  ]

  prepend-runs :
      (chunk : Text) (rest : Result SplitError (List Text))
      → rest ≢ err out_of_rounds
      → prepend measure limit chunk rest ≢ err out_of_rounds
  unfolding prepend
  prepend-runs chunk (err e) runs h = runs (cc h)
  prepend-runs chunk (ok cs) runs h = absurd (cc h)

  split_from-runs :
      (rounds cursor : ℕ) (fence : Option Fence)
      → length content ≤ cursor + rounds
      → split_from measure limit rounds content cursor fence ≢ err out_of_rounds
  unfolding split_from
  split_from-runs zero cursor fence enough h = ground arith
  split_from-runs (suc rounds) cursor fence enough h =
      elim (Bool-cases (ltb cursor (length content))) [
        | inl inside ↦
            go (split_from-runs rounds) (round measure limit content cursor fence) refl
              (rw inside at h)
        | inr outside ↦ absurd (cc (rw outside at h))
      ]
    where
      go :
          ((c : ℕ) (f : Option Fence)
            → length content ≤ c + rounds
            → split_from measure limit rounds content c f ≢ err out_of_rounds)
          → (r : Result SplitError Cut) → round measure limit content cursor fence ≡ r
          → elim r as (λ _. Result SplitError (List Text)) [
            | err e ↦ err e
            | ok cut ↦
                prepend measure limit
                  (chunk_of measure limit content cursor fence cut)
                  (split_from measure limit rounds content cut.end cut.next_fence)
          ]
            ≢ err out_of_rounds
      go below (err e) same h =
          let stopped : e ≡ out_of_rounds = cc h in
          round-runs measure limit content cursor fence (same ∙ ap (λ x. err x) stopped)
      go below (ok cut) same h =
          let good : Good measure limit content cursor fence cut =
            round-Good measure limit content cursor fence cut same in
          let onward : cursor < cut.end = good.onward in
          prepend-runs _ _ (below cut.end cut.next_fence (omega arith)) h

  -- As many rounds as the text has characters are enough for the loop of `split_markdown`, whatever
  -- the measure and the limit are: it returns chunks or one of the source's three errors.
  pub split_markdown-terminates : split_markdown measure limit content ≢ err out_of_rounds
  unfolding split_markdown
  split_markdown-terminates h = ground (arith, split_from-runs (length content) 0 none)
