-- ===== src/TimerWheel/Loose.antt =====
-- What the bodies of the wheel's loops do with one loose entry: it leaves `_entries`, goes back
-- into a bucket, or expires its timer.
use mathlib.Core.Option
use bazaar_compute_node.Prelude.{
  ℕ, ◌≤◌, ◌≡◌, ◌⊎◌, inl, inr, refl, sym, ap, ◌∙◌, subst, arith, true, false, Option, none, some,
  ◌==◌, ==_iff, ==_refl, if◌then◌else◌, ◌∷◌, Bool-cases, some_inj,
}
use bazaar_compute_node.Prelude.Dict.{get, get-pop, Distinct-pop}
use bazaar_compute_node.Timer.{Timer, expire}
use bazaar_compute_node.TimerWheel.{
  TimerWheel, Entry, Bucket, Level, bucket, insert, modify, put_back, forget, fire,
}
use bazaar_compute_node.TimerWheel.Places.{get-head}
use bazaar_compute_node.TimerWheel.Insert.{insert-Inv}
use bazaar_compute_node.TimerWheel.Inv.{Linked, TimerIsValid, either, Inv}

-- The timer object of an entry.
pub Linked-some :
    (e : Entry) (o : Option Timer)
    → Linked (some e) o
    → (t : Timer) × (o ≡ some t)
      × (t.active ≡ true)
      × (e.deadline_tick ≡ t.deadline_tick)
      × (e.generation ≡ t.generation)
Linked-some e none h = absurd h
Linked-some e (some t) h = (t, refl, h.0, h.1, h.2)

-- An active timer that its own generation expires.
expire-idle : (g : ℕ) (t : Timer) → t.active ≡ true → g ≡ t.generation → (expire g t).active ≡ false
unfolding expire
expire-idle g t a p = ground arith

expire-valid :
    (now g : ℕ) (t : Timer)
    → t.active ≡ true
    → g ≡ t.generation
    → t.deadline_tick ≤ now
    → TimerIsValid now (expire g t)
unfolding expire
expire-valid now g t a p d = record {
  due = λ _. ground arith;
  idle = λ _. ground arith;
  cancelled_idle = λ _. ground arith;
  closed_idle = λ _. ground arith;
}

module _ {heap : ℕ → Option Timer} {lo k i : ℕ} {e : Entry} {rest : Bucket} {w : TimerWheel}
    (inv : Inv heap lo k ((i, e) ∷ rest) w) where
  pub head_loose : (e.timer ≡ i) × ((l : Level) (s : ℕ) → get i (bucket w l s) ≡ none)
  head_loose = inv.loose i e (rw (get-head, ==_refl))

  pub other : (l : Level) (s j : ℕ) (f : Entry) → get j (bucket w l s) ≡ some f → (i == j) ≡ false
  other l s j f h = elim (Bool-cases (i == j)) [
    | inl same ↦ cc ((==_iff i j).0 same, head_loose.1 l s, h)
    | inr ne ↦ ne
  ]

  pub other_rest : (j : ℕ) (f : Entry) → get j rest ≡ some f → (i == j) ≡ false
  other_rest j f h = elim (Bool-cases (i == j)) [
    | inl same ↦ cc ((==_iff i j).0 same, inv.rest_distinct.0, h)
    | inr ne ↦ ne
  ]

  -- `_entries.pop` of a loose entry.
  pub get-forget : (j : ℕ) → (i == j) ≡ false → get j (forget e w).entries ≡ get j w.entries
  get-forget j ne = rw (get-pop, head_loose.0, ne)

  forget-Linked :
      (j : ℕ) → Linked (either (get j ((i, e) ∷ rest)) (get j (forget e w).entries)) (w.timers j)
  forget-Linked j = elim (Bool-cases (i == j)) [
    | inl same ↦ rw (get-head, same) (rw (get-head, same) at (inv.linked j))
    | inr ne ↦ rw (get-forget j ne) (inv.linked j)
  ]

  forget_indexed :
      (j : ℕ) (f : Entry)
      → get j ((i, e) ∷ rest) ≡ none
      → get j (forget e w).entries ≡ some f
      → get j (bucket w f.level f.slot) ≡ some f
  forget_indexed j f r h = elim (Bool-cases (i == j)) [
    | inl same ↦ absurd (cc (get-head i j e rest, same, r))
    | inr ne ↦ inv.indexed j f r (rw (get-forget j ne) at h)
  ]

  pub forget-Inv : Inv heap lo k ((i, e) ∷ rest) (forget e w)
  forget-Inv = record {
    placed = λ l s j f h.
        let (a, b, c, d, fit) = inv.placed l s j f h in
        (rw (get-forget j (other l s j f h)) a, b, c, d, fit);
    indexed = forget_indexed;
    loose = inv.loose;
    rest_distinct = inv.rest_distinct;
    entries_distinct = Distinct-pop e.timer w.entries inv.entries_distinct;
    buckets_distinct = inv.buckets_distinct;
    linked = forget-Linked;
    fresh = inv.fresh;
    timers_valid = inv.timers_valid;
    progress = inv.progress;
  }

  pub put_back-Inv : w.current_tick ≤ lo → lo ≤ e.deadline_tick → Inv heap lo k rest (put_back e w)
  put_back-Inv ahead later =
      subst (λ n. Inv heap lo k rest (insert n e.deadline_tick e.generation w)) (sym head_loose.0)
        (insert-Inv inv ahead later)

-- A loose entry that is due, and no longer in `_entries`.
module _ {heap : ℕ → Option Timer} {lo k i : ℕ} {e : Entry} {rest : Bucket} {w : TimerWheel}
    (inv : Inv heap lo k ((i, e) ∷ rest) w) (gone : get i w.entries ≡ none)
    (due : e.deadline_tick ≤ w.current_tick) where
  abbrev pub fired : TimerWheel
  fired = modify i (expire e.generation) w

  owner :
      (t : Timer) × (w.timers i ≡ some t)
      × (t.active ≡ true)
      × (e.deadline_tick ≡ t.deadline_tick)
      × (e.generation ≡ t.generation)
  owner = Linked-some e (w.timers i) (rw (get-head, ==_refl) at (inv.linked i))

  timers-fired :
      (j : ℕ)
      → fired.timers j
        ≡ (if i == j then Option.map (expire e.generation) (w.timers j) else w.timers j)
  unfolding modify
  timers-fired j = refl

  fired_at : fired.timers i ≡ some (expire e.generation owner.0)
  fired_at = rw (timers-fired i, ==_refl, owner.1)

  fired-Linked_at : Linked (either (get i rest) (get i w.entries)) (fired.timers i)
  fired-Linked_at =
      rw (inv.rest_distinct.0, gone, fired_at) (expire-idle e.generation owner.0 owner.2 owner.4)

  fired-Linked : (j : ℕ) → Linked (either (get j rest) (get j fired.entries)) (fired.timers j)
  unfolding modify
  fired-Linked j = elim (Bool-cases (i == j)) [
    | inl same ↦
        subst (λ n. Linked (either (get n rest) (get n w.entries)) (fired.timers n))
          ((==_iff i j).0 same) fired-Linked_at
    | inr ne ↦ rw ne (rw (get-head, ne) at (inv.linked j))
  ]

  fired_valid : (j : ℕ) (t : Timer) → fired.timers j ≡ some t → TimerIsValid w.current_tick t
  fired_valid j t h = elim (Bool-cases (i == j)) [
    | inl same ↦
        let at_i : fired.timers i ≡ some t = ap fired.timers ((==_iff i j).0 same) ∙ h in
        let is_t : expire e.generation owner.0 ≡ t = some_inj (sym fired_at ∙ at_i) in
        rw (← is_t)
          (expire-valid w.current_tick e.generation owner.0 owner.2 owner.4 (rw (← owner.3) due))
    | inr ne ↦ inv.timers_valid j t (rw (timers-fired, ne) at h)
  ]

  fired_progress_at :
      (fired.timers i ≡ heap i)
      ⊎ ((t : Timer) × (heap i ≡ some t)
          × (t.active ≡ true)
          × (t.deadline_tick ≤ w.current_tick)
          × (fired.timers i ≡ some (expire t.generation t)))
  fired_progress_at = elim (inv.progress i) [
    | inl as_before ↦ inr (
      owner.0,
      sym as_before ∙ owner.1,
      owner.2,
      rw (← owner.3) due,
      fired_at ∙ ap (λ g. some (expire g owner.0)) owner.4,
    )
    | inr (t, p, a, d, q) ↦
        let is_t : expire t.generation t ≡ owner.0 = some_inj (sym q ∙ owner.1) in
        cc (expire-idle t.generation t a refl, ap (λ (s : Timer). s.active) is_t, owner.2)
  ]

  fired_progress :
      (j : ℕ)
      → (fired.timers j ≡ heap j)
        ⊎ ((t : Timer) × (heap j ≡ some t)
            × (t.active ≡ true)
            × (t.deadline_tick ≤ w.current_tick)
            × (fired.timers j ≡ some (expire t.generation t)))
  fired_progress j = elim (Bool-cases (i == j)) [
    | inl same ↦ rw (← (==_iff i j).0 same) fired_progress_at
    | inr ne ↦ rw (timers-fired, ne) (inv.progress j)
  ]

  fired_fresh : (j : ℕ) → w.next_timer_id ≤ j → fired.timers j ≡ none
  fired_fresh j h = elim (Bool-cases (i == j)) [
    | inl same ↦ rw (timers-fired, same, inv.fresh j h)
    | inr ne ↦ rw (timers-fired, ne) (inv.fresh j h)
  ]

  pub fired-Inv : Inv heap lo k rest fired
  unfolding modify
  fired-Inv = record {
    placed = inv.placed;
    indexed = λ j f r h. inv.indexed j f (rw (get-head, ne_of j f h) r) h;
    loose = λ j f r. inv.loose j f (rw (get-head, other_rest inv j f r) r);
    rest_distinct = inv.rest_distinct.1;
    entries_distinct = inv.entries_distinct;
    buckets_distinct = inv.buckets_distinct;
    linked = fired-Linked;
    fresh = fired_fresh;
    timers_valid = fired_valid;
    progress = fired_progress;
  }
    where
      ne_of : (j : ℕ) (f : Entry) → get j w.entries ≡ some f → (i == j) ≡ false
      ne_of j f h = elim (Bool-cases (i == j)) [
        | inl same ↦ cc ((==_iff i j).0 same, gone, h)
        | inr ne ↦ ne
      ]

  pub fire-Inv : Inv heap lo k rest (fire e w)
  fire-Inv =
      subst (λ n. Inv heap lo k rest (modify n (expire e.generation) w)) (sym (head_loose inv).0)
        fired-Inv
