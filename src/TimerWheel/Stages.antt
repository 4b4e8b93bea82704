-- ===== src/TimerWheel/Stages.antt =====
-- Between the loops of a tick: the wheel's tick moves on, and a bucket is taken out to be emptied.
use native.Mathlib.Nat.{le_trans}
use bazaar_compute_node.Prelude.{
  ℕ, ◌≤◌, ◌≡◌, inl, inr, refl, sym, ap, ◌∙◌, true, false, Option, none, some, [], Bool-cases,
  Option-cases, some_inj,
}
use bazaar_compute_node.Prelude.Dict.{get, Distinct, get-nil}
use bazaar_compute_node.Timer.{Timer}
use bazaar_compute_node.TimerWheel.{
  TimerWheel, Entry, Bucket, Level, near, upper, bucket, select, set_bucket, clear_all,
}
use bazaar_compute_node.TimerWheel.Places.{
  same_place, same_place-true, same_place_self, bucket-set_bucket,
}
use bazaar_compute_node.TimerWheel.Inv.{Fits, Linked, TimerIsValid, either, Inv}

TimerIsValid-mono :
    {now now' : ℕ} {t : Timer} → now ≤ now' → TimerIsValid now t → TimerIsValid now' t
TimerIsValid-mono h v = record {
  due = λ x. le_trans (v.due x) h;
  idle = v.idle;
  cancelled_idle = v.cancelled_idle;
  closed_idle = v.closed_idle;
}

-- The wheel moves to a later tick at which every entry still fits.
pub retick-Inv :
    {heap : ℕ → Option Timer} {lo k lo' k' : ℕ} {rest : Bucket} {w : TimerWheel} (t : ℕ)
    → Inv heap lo k rest w
    → w.current_tick ≤ t
    → ((l : Level) (s d : ℕ) → Fits lo k w.current_tick d l s → Fits lo' k' t d l s)
    → Inv heap lo' k' rest (record w { current_tick = t })
retick-Inv t inv h refit = record {
  placed = λ l s i e p.
      let (a, b, c, d, fit) = inv.placed l s i e p in (a, b, c, d, refit l s e.deadline_tick fit);
  indexed = inv.indexed;
  loose = inv.loose;
  rest_distinct = inv.rest_distinct;
  entries_distinct = inv.entries_distinct;
  buckets_distinct = inv.buckets_distinct;
  linked = inv.linked;
  fresh = inv.fresh;
  timers_valid = λ i x p. TimerIsValid-mono h (inv.timers_valid i x p);
  progress = λ i. elim (inv.progress i) [
    | inl same ↦ inl same
    | inr (x, p, a, d, q) ↦ inr (x, p, a, le_trans d h, q)
  ];
}

-- One bucket is emptied, and its entries are loose.
module _ {heap : ℕ → Option Timer} {lo k lo' k' : ℕ} {w : TimerWheel} (inv : Inv heap lo k [] w)
    (l : Level) (s : ℕ)
    (refit : (m : Level) (r d : ℕ)
      → same_place l s m r ≡ false
      → Fits lo k w.current_tick d m r
      → Fits lo' k' w.current_tick d m r) where
  abbrev emptied : TimerWheel
  emptied = set_bucket l s [] w

  elsewhere :
      (m : Level) (r i : ℕ) (e : Entry)
      → get i (bucket emptied m r) ≡ some e
      → (same_place l s m r ≡ false) × (get i (bucket w m r) ≡ some e)
  elsewhere m r i e h = elim (Bool-cases (same_place l s m r)) [
    | inl same ↦ cc (get-nil {V = Entry} i, rw (bucket-set_bucket l s [] w m r, same) at h)
    | inr ne ↦ (ne, rw (bucket-set_bucket l s [] w m r, ne) at h)
  ]

  emptied_indexed :
      (i : ℕ) (e : Entry)
      → get i (bucket w l s) ≡ none
      → get i w.entries ≡ some e
      → get i (bucket emptied e.level e.slot) ≡ some e
  emptied_indexed i e r h = elim (Bool-cases (same_place l s e.level e.slot)) [
    | inl same ↦
        let (p, q) = same_place-true l s e.level e.slot same in
        cc (p, q, r, inv.indexed i e (get-nil i) h)
    | inr ne ↦ rw (bucket-set_bucket, ne) (inv.indexed i e (get-nil i) h)
  ]

  -- An entry stands in one bucket only.
  one_place :
      (m : Level) (r i : ℕ) (e f : Entry)
      → get i (bucket w l s) ≡ some e
      → get i (bucket w m r) ≡ some f
      → same_place l s m r ≡ true
  one_place m r i e f h h' =
      let (a, b, c, d, fit) = inv.placed l s i e h in
      let (a', b', c', d', fit') = inv.placed m r i f h' in
      let is_f : e ≡ f = some_inj (sym a ∙ a') in
      let p : l ≡ m = sym b ∙ ap (λ (x : Entry). x.level) is_f ∙ b' in
      let q : s ≡ r = sym c ∙ ap (λ (x : Entry). x.slot) is_f ∙ c' in
      rw (← p, ← q) (same_place_self l s)

  emptied_loose :
      (i : ℕ) (e : Entry)
      → get i (bucket w l s) ≡ some e
      → (e.timer ≡ i) × ((m : Level) (r : ℕ) → get i (bucket emptied m r) ≡ none)
  emptied_loose i e h =
      let (a, b, c, d, fit) = inv.placed l s i e h in
      (
        d,
        λ m r. elim (Option-cases (get i (bucket emptied m r))) [
          | inl absent ↦ absent
          | inr (f, found) ↦
              let (ne, old) = elsewhere m r i f found in cc (one_place m r i e f h old, ne)
        ],
      )

  emptied-Linked : (i : ℕ) → Linked (either (get i (bucket w l s)) (get i w.entries)) (w.timers i)
  emptied-Linked i = elim (Option-cases (get i (bucket w l s))) [
    | inl no_entry ↦ rw no_entry (rw get-nil at (inv.linked i))
    | inr (e, at_l) ↦
        let (a, b, c, d, fit) = inv.placed l s i e at_l in
        rw at_l (rw (get-nil, a) at (inv.linked i))
  ]

  emptied_buckets : (m : Level) (r : ℕ) → Distinct (bucket emptied m r)
  emptied_buckets m r = elim (Bool-cases (same_place l s m r)) [
    | inl same ↦ rw (bucket-set_bucket, same) tt
    | inr ne ↦ rw (bucket-set_bucket, ne) (inv.buckets_distinct m r)
  ]

  pub emptied-Inv : Inv heap lo' k' (bucket w l s) emptied
  unfolding set_bucket
  emptied-Inv = record {
    placed = λ m r i e h.
        let (ne, old) = elsewhere m r i e h in
        let (a, b, c, d, fit) = inv.placed m r i e old in
        (a, b, c, d, refit m r e.deadline_tick ne fit);
    indexed = emptied_indexed;
    loose = emptied_loose;
    rest_distinct = inv.buckets_distinct l s;
    entries_distinct = inv.entries_distinct;
    buckets_distinct = emptied_buckets;
    linked = emptied-Linked;
    fresh = inv.fresh;
    timers_valid = inv.timers_valid;
    progress = inv.progress;
  }

bucket-clear_all : (w : TimerWheel) (l : Level) (s : ℕ) → bucket (clear_all w) l s ≡ []
unfolding clear_all select
bucket-clear_all w near s = refl
bucket-clear_all w (upper l) s = refl

get-clear_all : (w : TimerWheel) (l : Level) (s i : ℕ) → get i (bucket (clear_all w) l s) ≡ none
get-clear_all w l s i = rw (bucket-clear_all w l s, get-nil)

-- Every bucket and `_entries` are emptied, and all entries are loose.
pub cleared-Inv :
    {heap : ℕ → Option Timer} {lo k lo' k' : ℕ} {w : TimerWheel} (t : ℕ)
    → Inv heap lo k [] w
    → w.current_tick ≤ t
    → Inv heap lo' k' w.entries (record (clear_all w) { current_tick = t })
unfolding clear_all
cleared-Inv {w = w} t inv h = record {
  placed = λ l s i e p. absurd (cc (get-clear_all w l s i, p));
  indexed = λ i e r p. absurd (cc (get-nil {V = Entry} i, p));
  loose = λ i e p.
      let (a, b, c, d, fit) = inv.placed e.level e.slot i e (inv.indexed i e (get-nil i) p) in
      (d, λ l s. get-clear_all w l s i);
  rest_distinct = inv.entries_distinct;
  entries_distinct = tt;
  buckets_distinct = λ l s. rw (bucket-clear_all w l s) tt;
  linked = λ i. elim (Option-cases (get i w.entries)) [
    | inl absent ↦ rw (absent, get-nil) (rw (get-nil, absent) at (inv.linked i))
    | inr (e, there) ↦ rw there (rw (get-nil, there) at (inv.linked i))
  ];
  fresh = inv.fresh;
  timers_valid = λ i x p. TimerIsValid-mono h (inv.timers_valid i x p);
  progress = λ i. elim (inv.progress i) [
    | inl same ↦ inl same
    | inr (x, p, a, d, q) ↦ inr (x, p, a, le_trans d h, q)
  ];
}
