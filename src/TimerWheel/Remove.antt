-- ===== src/TimerWheel/Remove.antt =====
-- `_remove` takes an entry out of `_entries` and of its bucket, and leaves it loose.
use bazaar_compute_node.Prelude.{
  ℕ, ◌≡◌, inl, inr, sym, ◌∙◌, ap, subst, false, Option, none, some, some_inj, ◌==◌, ==_iff,
  if◌then◌else◌, [], ◌∷◌, Bool-cases, Option-cases,
}
use bazaar_compute_node.Prelude.Dict.{get, Distinct, get-nil, get-pop, Distinct-pop}
use bazaar_compute_node.Timer.{Timer}
use bazaar_compute_node.TimerWheel.{
  TimerWheel, Entry, Level, bucket, set_bucket, remove, remove_entry,
}
use bazaar_compute_node.TimerWheel.Places.{
  same_place, same_place-true, same_place_self, bucket-set_bucket, get-head,
}
use bazaar_compute_node.TimerWheel.Inv.{Fits, Linked, either, Inv}

module _ {heap : ℕ → Option Timer} {lo k : ℕ} {w : TimerWheel} (i : ℕ) (e : Entry)
    (inv : Inv heap lo k [] w) (there : get i w.entries ≡ some e) where
  abbrev pub removed : TimerWheel
  removed = remove_entry i (some e) w

  pub remove-eq : remove i w ≡ removed
  unfolding remove
  remove-eq = rw there

  not_elsewhere :
      (l : Level) (s : ℕ) → same_place e.level e.slot l s ≡ false → get i (bucket w l s) ≡ none
  not_elsewhere l s ne = elim (Option-cases (get i (bucket w l s))) [
    | inl absent ↦ absent
    | inr (f, found) ↦
        let (a, b, c, d, fit) = inv.placed l s i f found in
        let is_f : f ≡ e = some_inj (sym a ∙ there) in
        let p : e.level ≡ l = ap (λ (x : Entry). x.level) (sym is_f) ∙ b in
        let q : e.slot ≡ s = ap (λ (x : Entry). x.slot) (sym is_f) ∙ c in
        cc (rw (p, q) at (same_place_self e.level e.slot), rw (p, q) at ne)
  ]

  removed-bucket :
      (l : Level) (s j : ℕ)
      → get j (bucket removed l s) ≡ (if i == j then none else get j (bucket w l s))
  unfolding remove_entry
  removed-bucket l s j = elim (Bool-cases (same_place e.level e.slot l s)) [
    | inl same ↦
        let (p, q) = same_place-true e.level e.slot l s same in
        rw (bucket-set_bucket, same, get-pop, p, q)
    | inr ne ↦
        rw (bucket-set_bucket, ne)
          (elim (Bool-cases (i == j)) [
            | inl at_i ↦ rw at_i (rw (← (==_iff i j).0 at_i) (not_elsewhere l s ne))
            | inr other ↦ rw other
          ])
  ]

  pub removed_entries : (j : ℕ) → get j removed.entries ≡ (if i == j then none else get j w.entries)
  unfolding remove_entry set_bucket
  removed_entries j = get-pop i j w.entries

  removed_buckets : (l : Level) (s : ℕ) → Distinct (bucket removed l s)
  unfolding remove_entry
  removed_buckets l s = elim (Bool-cases (same_place e.level e.slot l s)) [
    | inl same ↦ rw (bucket-set_bucket, same) (Distinct-pop i _ (inv.buckets_distinct _ _))
    | inr ne ↦ rw (bucket-set_bucket, ne) (inv.buckets_distinct l s)
  ]

  removed_placed :
      (l : Level) (s j : ℕ) (f : Entry)
      → get j (bucket removed l s) ≡ some f
      → (get j removed.entries ≡ some f)
        × (f.level ≡ l)
        × (f.slot ≡ s)
        × (f.timer ≡ j)
        × Fits lo k w.current_tick f.deadline_tick l s
  removed_placed l s j f h = elim (Bool-cases (i == j)) [
    | inl same ↦ absurd (cc (removed-bucket l s j, same, h))
    | inr ne ↦
        let (a, b, c, d, fit) = inv.placed l s j f (rw (removed-bucket l s j, ne) at h) in
        (rw (removed_entries j, ne) a, b, c, d, fit)
  ]

  removed_indexed :
      (j : ℕ) (f : Entry)
      → get j ((i, e) ∷ []) ≡ none
      → get j removed.entries ≡ some f
      → get j (bucket removed f.level f.slot) ≡ some f
  removed_indexed j f r h = elim (Bool-cases (i == j)) [
    | inl same ↦ absurd (cc (removed_entries j, same, h))
    | inr ne ↦
        rw (removed-bucket, ne) (inv.indexed j f (get-nil j) (rw (removed_entries j, ne) at h))
  ]

  removed_loose :
      (j : ℕ) (f : Entry)
      → get j ((i, e) ∷ []) ≡ some f
      → (f.timer ≡ j) × ((l : Level) (s : ℕ) → get j (bucket removed l s) ≡ none)
  removed_loose j f r = elim (Bool-cases (i == j)) [
    | inl same ↦
        let (a, b, c, d, fit) = inv.placed e.level e.slot i e (inv.indexed i e (get-nil i) there) in
        let is_f : e ≡ f = some_inj (rw (get-head, same) at r) in
        (rw (← is_f, ← (==_iff i j).0 same) d, λ l s. rw (removed-bucket, same))
    | inr ne ↦ absurd (cc (get-nil {V = Entry} j, get-head i j e [], ne, r))
  ]

  removed-Linked :
      (j : ℕ) → Linked (either (get j ((i, e) ∷ [])) (get j removed.entries)) (w.timers j)
  removed-Linked j = elim (Bool-cases (i == j)) [
    | inl same ↦
        rw (get-head, same)
          (subst (λ n. Linked (some e) (w.timers n)) ((==_iff i j).0 same)
            (rw (get-nil, there) at (inv.linked i)))
    | inr ne ↦ rw (get-head, removed_entries j, ne) (inv.linked j)
  ]

  pub removed-Inv : Inv heap lo k ((i, e) ∷ []) removed
  unfolding remove_entry set_bucket
  removed-Inv = record {
    placed = removed_placed;
    indexed = removed_indexed;
    loose = removed_loose;
    rest_distinct = (get-nil i, tt);
    entries_distinct = Distinct-pop i w.entries inv.entries_distinct;
    buckets_distinct = removed_buckets;
    linked = removed-Linked;
    fresh = inv.fresh;
    timers_valid = inv.timers_valid;
    progress = inv.progress;
  }
