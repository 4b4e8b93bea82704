-- ===== src/TimerWheel/Insert.antt =====
-- An entry that stands in no bucket goes back into one: `_insert` keeps the invariant.
use native.Mathlib.Nat.{le_trans}
use bazaar_compute_node.Prelude.{
  ℕ, ◌≤◌, ◌≡◌, inl, inr, refl, sym, ◌∙◌, arith, true, false, ◌&&◌, Option, none, some, ◌==◌, ==_iff,
  ==_refl, some_inj, ◌∷◌, Bool-cases,
}
use bazaar_compute_node.Prelude.Dict.{get, Distinct, get-put, Distinct-put}
use bazaar_compute_node.Timer.{Timer}
use bazaar_compute_node.TimerWheel.{
  TimerWheel, Entry, Bucket, Level, bucket, set_bucket, new_entry, insert,
}
use bazaar_compute_node.TimerWheel.Places.{
  same_place, same_place-true, same_place_self, place-Fits, bucket-insert, get-bucket-insert,
  get-entries-insert, get-head,
}
use bazaar_compute_node.TimerWheel.Inv.{Fits, Linked, either, Inv}

-- Only the deadline and the generation of an entry matter to its timer.
Linked-eq :
    (e f : Entry) (o : Option Timer)
    → e.deadline_tick ≡ f.deadline_tick
    → e.generation ≡ f.generation
    → Linked (some e) o
    → Linked (some f) o
Linked-eq e f none p q h = h
Linked-eq e f (some t) p q h = (h.0, sym p ∙ h.1, sym q ∙ h.2)

-- A loose entry goes back into a bucket.
module _ {heap : ℕ → Option Timer} {lo k i : ℕ} {e : Entry} {rest : Bucket} {w : TimerWheel}
    (inv : Inv heap lo k ((i, e) ∷ rest) w) (ahead : w.current_tick ≤ lo)
    (later : lo ≤ e.deadline_tick) where
  abbrev after : TimerWheel
  after = insert i e.deadline_tick e.generation w

  abbrev stored : Entry
  stored = new_entry w.current_tick i e.deadline_tick e.generation

  in_no_bucket : (l : Level) (s : ℕ) → get i (bucket w l s) ≡ none
  in_no_bucket = (inv.loose i e (ground (arith, get-head i i e rest))).1

  other : (l : Level) (s j : ℕ) (f : Entry) → get j (bucket w l s) ≡ some f → (i == j) ≡ false
  other l s j f h = elim (Bool-cases (i == j)) [
    | inl e ↦ cc ((==_iff i j).0 e, in_no_bucket l s, h)
    | inr ne ↦ ne
  ]

  stored_placed :
      (get i after.entries ≡ some stored)
      × (stored.level ≡ stored.level)
      × (stored.slot ≡ stored.slot)
      × (stored.timer ≡ i)
      × Fits lo k w.current_tick stored.deadline_tick stored.level stored.slot
  stored_placed = (
    rw (get-entries-insert, ==_refl),
    refl,
    refl,
    refl,
    place-Fits lo k w.current_tick e.deadline_tick later (le_trans ahead later),
  )

  insert_placed :
      (l : Level) (s j : ℕ) (f : Entry)
      → get j (bucket after l s) ≡ some f
      → (get j after.entries ≡ some f)
        × (f.level ≡ l)
        × (f.slot ≡ s)
        × (f.timer ≡ j)
        × Fits lo k w.current_tick f.deadline_tick l s
  insert_placed l s j f h =
      elim (Bool-cases (same_place stored.level stored.slot l s && (i == j))) [
        | inl here ↦
            let same : same_place stored.level stored.slot l s ≡ true = ground arith in
            let (p, q) = same_place-true stored.level stored.slot l s same in
            let at_i : i ≡ j = ground arith in
            let is_f : stored ≡ f =
              some_inj (rw (get-bucket-insert i e.deadline_tick e.generation w l s j, here) at h) in
            rw (← p, ← q, ← at_i, ← is_f) stored_placed
        | inr away ↦
            let old : get j (bucket w l s) ≡ some f =
              rw (get-bucket-insert i e.deadline_tick e.generation w l s j, away) at h in
            let ne : (i == j) ≡ false = other l s j f old in
            let (a, b, c, d, fit) = inv.placed l s j f old in
            (rw (get-entries-insert, ne) a, b, c, d, fit)
      ]

  insert_indexed :
      (j : ℕ) (f : Entry)
      → get j rest ≡ none
      → get j after.entries ≡ some f
      → get j (bucket after f.level f.slot) ≡ some f
  insert_indexed j f r h = elim (Bool-cases (i == j)) [
    | inl e ↦
        let at_i : i ≡ j = (==_iff i j).0 e in
        let is_f : stored ≡ f = some_inj (rw (get-entries-insert, e) at h) in
        rw (← at_i, ← is_f, get-bucket-insert, same_place_self, ==_refl)
    | inr ne ↦ ground (
      arith,
      get-bucket-insert i e.deadline_tick e.generation w f.level f.slot j,
      inv.indexed j f (rw (get-head, ne) r) (rw (get-entries-insert, ne) at h),
    )
  ]

  insert_loose :
      (j : ℕ) (f : Entry)
      → get j rest ≡ some f
      → (f.timer ≡ j) × ((l : Level) (s : ℕ) → get j (bucket after l s) ≡ none)
  insert_loose j f r = elim (Bool-cases (i == j)) [
    | inl e ↦ cc ((==_iff i j).0 e, inv.rest_distinct.0, r)
    | inr ne ↦
        let (t, n) = inv.loose j f (rw (get-head, ne) r) in
        (t, λ l s. ground (arith, get-bucket-insert i e.deadline_tick e.generation w l s j, n l s))
  ]

  insert-Linked : (j : ℕ) → Linked (either (get j rest) (get j after.entries)) (after.timers j)
  unfolding insert set_bucket
  insert-Linked j = elim (Bool-cases (i == j)) [
    | inl same ↦
        let at_i : i ≡ j = (==_iff i j).0 same in
        rw (← at_i, inv.rest_distinct.0, get-put, ==_refl)
          (Linked-eq e stored (w.timers i) refl refl (rw (get-head, ==_refl) at (inv.linked i)))
    | inr ne ↦ rw (get-put, ne) (rw (get-head, ne) at (inv.linked j))
  ]

  insert_buckets : (l : Level) (s : ℕ) → Distinct (bucket after l s)
  insert_buckets l s = elim (Bool-cases (same_place stored.level stored.slot l s)) [
    | inl e ↦ rw (bucket-insert, e) (Distinct-put i stored _ (inv.buckets_distinct _ _))
    | inr ne ↦ rw (bucket-insert, ne) (inv.buckets_distinct l s)
  ]

  pub insert-Inv : Inv heap lo k rest after
  unfolding insert set_bucket
  insert-Inv = record {
    placed = insert_placed;
    indexed = insert_indexed;
    loose = insert_loose;
    rest_distinct = inv.rest_distinct.1;
    entries_distinct = Distinct-put i stored w.entries inv.entries_distinct;
    buckets_distinct = insert_buckets;
    linked = insert-Linked;
    fresh = inv.fresh;
    timers_valid = inv.timers_valid;
    progress = inv.progress;
  }
