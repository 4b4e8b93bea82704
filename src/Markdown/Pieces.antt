-- ===== src/Markdown/Pieces.antt =====
-- The chunks of a whole text: what `split_markdown` returns, as a relation, and what follows for
-- every chunk.
use bazaar_compute_node.Prelude.{
  ℕ, zero, suc, ◌≤◌, ◌<◌, ◌≡◌, ◌≢◌, refl, sym, subst, arith, Bool, false, Option, none, List, [],
  ◌∷◌, ◌++◌, length, drop, ltb, ltb→lt, ltb_false→le, ◌==◌, Bool-cases, inl, inr,
}
use bazaar_compute_node.Prelude.Result.{Result, ok, err}
use bazaar_compute_node.Markdown.{
  Text, Fence, Cut, SplitError, slice, prefix_of, cut_at, chunk_of, round, prepend, split_from,
  split_markdown, is_nil, advance_fence, closing_suffix, line_complete, line_start,
}
use bazaar_compute_node.Markdown.Slices.{slice_rest, drop_all, slice_filled}
use bazaar_compute_node.Markdown.Fits.{Good, round-Good}

module _ (measure : Text → ℕ) (limit : ℕ) (content : Text) where
  -- `chunks` are what the outer loop appends from `cursor` on, behind an open `fence`.
  pub data Splits : ℕ → Option Fence → List Text → Type 0 where
    done : (cursor : ℕ) (fence : Option Fence) → length content ≤ cursor → Splits cursor fence []
    more :
        (cursor : ℕ) (fence : Option Fence) (cut : Cut) (chunks : List Text)
        → cursor < length content
        → Good measure limit content cursor fence cut
        → Splits cut.end cut.next_fence chunks
        → Splits cursor fence (chunk_of measure limit content cursor fence cut ∷ chunks)

  prepend-Splits :
      (cursor : ℕ) (fence : Option Fence) (cut : Cut) (rest : Result SplitError (List Text))
      (chunks : List Text)
      → cursor < length content
      → Good measure limit content cursor fence cut
      → ((cs : List Text) → rest ≡ ok cs → Splits cut.end cut.next_fence cs)
      → prepend measure limit (chunk_of measure limit content cursor fence cut) rest ≡ ok chunks
      → Splits cursor fence chunks
  unfolding prepend
  prepend-Splits cursor fence cut (err e) chunks h good below e1 = absurd (cc e1)
  prepend-Splits cursor fence cut (ok cs) chunks h good below e1 =
      let same : chunk_of measure limit content cursor fence cut ∷ cs ≡ chunks = cc e1 in
      subst (Splits cursor fence) same (more cursor fence cut cs h good (below cs refl))

  pub split_from-Splits :
      (rounds cursor : ℕ) (fence : Option Fence) (chunks : List Text)
      → split_from measure limit rounds content cursor fence ≡ ok chunks
      → Splits cursor fence chunks
  unfolding split_from
  split_from-Splits zero cursor fence chunks h = elim (Bool-cases (ltb cursor (length content))) [
    | inl inside ↦ absurd (cc (rw inside at h))
    | inr outside ↦
        let empty : [] ≡ chunks = cc (rw outside at h) in
        subst (Splits cursor fence) empty (done cursor fence (ltb_false→le _ _ outside))
  ]
  split_from-Splits (suc rounds) cursor fence chunks h =
      elim (Bool-cases (ltb cursor (length content))) [
        | inl inside ↦
            go (split_from-Splits rounds) (ltb→lt _ _ inside)
              (round measure limit content cursor fence) refl (rw inside at h)
        | inr outside ↦
            let empty : [] ≡ chunks = cc (rw outside at h) in
            subst (Splits cursor fence) empty (done cursor fence (ltb_false→le _ _ outside))
      ]
    where
      go :
          ((c : ℕ) (f : Option Fence) (cs : List Text)
            → split_from measure limit rounds content c f ≡ ok cs
            → Splits c f cs)
          → cursor < length content
          → (r : Result SplitError Cut) → round measure limit content cursor fence ≡ r
          → elim r as (λ _. Result SplitError (List Text)) [
            | err e ↦ err e
            | ok cut ↦
                prepend measure limit
                  (chunk_of measure limit content cursor fence cut)
                  (split_from measure limit rounds content cut.end cut.next_fence)
          ]
            ≡ ok chunks
          → Splits cursor fence chunks
      go below inside (err e) same h = absurd (cc h)
      go below inside (ok cut) same h =
          prepend-Splits cursor fence cut _ chunks inside
            (round-Good measure limit content cursor fence cut same) (below cut.end cut.next_fence)
            h

-- `chunks` put together again: each is a piece of the text between the opening of the fence that is
-- open there and the suffix that closes the one open behind it; the pieces in order are the text.
pub data Reassembles : Option Fence → Text → List Text → Type 0 where
  nothing : (fence : Option Fence) → Reassembles fence [] []
  piece :
      (fence : Option Fence) (part rest : Text) (initial : Bool) (chunks : List Text)
      → part ≢ []
      → Reassembles (advance_fence fence part initial (line_complete rest)) rest chunks
      → Reassembles fence (part ++ rest) (
          (prefix_of fence
            ++ part
            ++ closing_suffix
                (prefix_of fence ++ part)
                (advance_fence fence part initial (line_complete rest)))
          ∷ chunks)

module _ (measure : Text → ℕ) (limit : ℕ) (content : Text) where
  cut_at-Reassembles :
      (cursor : ℕ) (fence : Option Fence) (end : ℕ) (chunks : List Text)
      → cursor < end
      → cursor < length content
      → Reassembles
          (cut_at measure limit content cursor fence end).next_fence
          (drop end content)
          chunks
      → Reassembles fence (drop cursor content) (
          chunk_of measure limit content cursor fence
            (cut_at measure limit content cursor fence end)
          ∷ chunks)
  unfolding cut_at
  cut_at-Reassembles cursor fence end chunks onward inside below =
      subst
        (λ (t : Text). Reassembles fence t (
          chunk_of measure limit content cursor fence
            (cut_at measure limit content cursor fence end)
          ∷ chunks))
        (slice_rest cursor end content (omega arith))
        (piece fence (slice cursor end content) (drop end content) (line_start fence cursor content)
          chunks (slice_filled cursor end content onward inside) below)

  Splits-Reassembles :
      (cursor : ℕ) (fence : Option Fence) (chunks : List Text)
      → Splits measure limit content cursor fence chunks
      → Reassembles fence (drop cursor content) chunks
  Splits-Reassembles cursor fence _ (done _ _ h) =
      subst (λ (t : Text). Reassembles fence t []) (sym (drop_all cursor content h)) (nothing fence)
  Splits-Reassembles cursor fence _ (more _ _ cut chunks inside good below) =
      let Grows : Cut → Type 0 = λ c.
        Reassembles c.next_fence (drop cut.end content) chunks
        → Reassembles fence (drop cursor content)
            (chunk_of measure limit content cursor fence c ∷ chunks) in
      subst Grows (sym good.from)
        (cut_at-Reassembles cursor fence cut.end chunks good.onward inside)
        (Splits-Reassembles cut.end cut.next_fence chunks below)

  -- The chunks of a text that is not empty are its pieces in order, none of them empty, each between
  -- the opening of the fence that is open there and the suffix that closes the one open behind it.
  pub split_markdown-Reassembles :
      (chunks : List Text)
      → is_nil content ≡ false
      → split_markdown measure limit content ≡ ok chunks
      → Reassembles none content chunks
  unfolding split_markdown
  split_markdown-Reassembles chunks filled h = elim (Bool-cases (limit == 0)) [
    | inl zero_limit ↦ absurd (cc (rw zero_limit at h))
    | inr positive ↦
        unfold drop in
        Splits-Reassembles 0 none chunks (
          split_from-Splits measure limit content (length content) 0 none chunks
            (simp (positive, filled) at h))
  ]
