-- ===== src/TimerWheel/Modify.antt =====
-- One timer object changes: the invariant, with what has to be known of the changed timer.
use bazaar_compute_node.Prelude.{
  ℕ, ◌≤◌, ◌≡◌, inl, inr, refl, sym, ◌∙◌, ap, subst, false, Option, none, some, some_inj, ◌==◌,
  ==_iff, ==_refl, Bool-cases,
}
use bazaar_compute_node.Prelude.Dict.{get, Distinct}
use bazaar_compute_node.Timer.{Timer}
use bazaar_compute_node.TimerWheel.{TimerWheel, Entry, Bucket, Level, bucket, modify}
use bazaar_compute_node.TimerWheel.Inv.{Linked, TimerIsValid, either, Inv}

-- The timer under one id changes, and with it what is loose of that id.
module _ {heap : ℕ → Option Timer} {lo k : ℕ} {rest : Bucket} {w : TimerWheel} (rest' : Bucket)
    (i : ℕ) (f : Timer → Timer) (t : Timer) (inv : Inv heap lo k rest w)
    (at_i : w.timers i ≡ some t)
    (tighter : (j : ℕ) (e : Entry)
      → get j rest' ≡ none
      → get j w.entries ≡ some e
      → get j rest ≡ none)
    (loose : (j : ℕ) (e : Entry)
      → get j rest' ≡ some e
      → (e.timer ≡ j) × ((l : Level) (s : ℕ) → get j (bucket w l s) ≡ none))
    (distinct : Distinct rest') (others : (j : ℕ) → (i == j) ≡ false → get j rest' ≡ get j rest)
    (link : Linked (either (get i rest') (get i w.entries)) (some (f t)))
    (valid : TimerIsValid w.current_tick (f t)) where
  modified_at : (modify i f w).timers i ≡ some (f t)
  unfolding modify
  modified_at = rw (==_refl, at_i)

  modified_ne : (j : ℕ) → (i == j) ≡ false → (modify i f w).timers j ≡ w.timers j
  unfolding modify
  modified_ne j ne = rw ne

  modified-Linked :
      (j : ℕ) → Linked (either (get j rest') (get j w.entries)) ((modify i f w).timers j)
  modified-Linked j = elim (Bool-cases (i == j)) [
    | inl same ↦
        subst (λ n. Linked (either (get n rest') (get n w.entries)) ((modify i f w).timers n))
          ((==_iff i j).0 same) (rw modified_at link)
    | inr ne ↦ rw (others j ne, modified_ne j ne) (inv.linked j)
  ]

  modified_valid :
      (j : ℕ) (u : Timer) → (modify i f w).timers j ≡ some u → TimerIsValid w.current_tick u
  modified_valid j u h = elim (Bool-cases (i == j)) [
    | inl same ↦
        subst (TimerIsValid w.current_tick)
          (some_inj (sym modified_at ∙ ap (modify i f w).timers ((==_iff i j).0 same) ∙ h)) valid
    | inr ne ↦ inv.timers_valid j u (sym (modified_ne j ne) ∙ h)
  ]

  modified_fresh : (j : ℕ) → w.next_timer_id ≤ j → (modify i f w).timers j ≡ none
  modified_fresh j h = elim (Bool-cases (i == j)) [
    | inl same ↦ absurd (cc (inv.fresh j h, (==_iff i j).0 same, at_i))
    | inr ne ↦ modified_ne j ne ∙ inv.fresh j h
  ]

  pub modify-Inv : Inv (modify i f w).timers lo k rest' (modify i f w)
  unfolding modify
  modify-Inv = record {
    placed = inv.placed;
    indexed = λ j e r h. inv.indexed j e (tighter j e r h) h;
    loose = loose;
    rest_distinct = distinct;
    entries_distinct = inv.entries_distinct;
    buckets_distinct = inv.buckets_distinct;
    linked = modified-Linked;
    fresh = modified_fresh;
    timers_valid = modified_valid;
    progress = λ j. inl refl;
  }
