-- ===== src/Send/Staging.antt =====
-- What the loop that stages finds: a hold in one conversation, or nothing new in any.
use Prim.Native.String.{String}
use bazaar_compute_node.Prelude.{
  ℕ, ◌≤◌, ◌≡◌, ◌≢◌, refl, sym, ◌∙◌, ap, arith, Bool, true, ◌||◌, ◌⊎◌, inl, inr, Option, none, some,
  List, [], ◌∷◌, ◌++◌, ◌==◌, ==_iff, leb, leb→le, append_assoc, append-nil, Bool-cases,
}
use bazaar_compute_node.Send.{
  Target, Draft, Hold, Freshness, passes, holds, Commands, is_seen, check_outbound_freshness,
  hold_at,
}
use bazaar_compute_node.Send.Deliver.{Staged}
use bazaar_compute_node.Send.Command.{
  or_first, payload_of, Others, at_look, Stage, stage_one, stage_all,
}

-- The caller has seen all that stands in a conversation: nothing, or what the snapshot covers.
abbrev pub Seen : Option ℕ → ℕ → Type 0
Seen snapshot seq = (seq ≡ 0) ⊎ ((n : ℕ) × (snapshot ≡ some n) × (seq ≤ n))

-- Every target of a list satisfies `P`.
pub data Every (P : Target → Type 0) : List Target → Type 0 where
  none_left : Every P []
  and_next : {t : Target} {ts : List Target} → P t → Every P ts → Every P (t ∷ ts)

pub Every-map :
    {P Q : Target → Type 0} {ts : List Target}
    → Every P ts
    → ((t : Target) → P t → Q t)
    → Every Q ts
Every-map none_left f = none_left
Every-map (and_next {t = t} p ps) f = and_next (f t p) (Every-map ps f)

-- The freshness check passes exactly what has been seen.
pub check-passes :
    (snapshot : Option ℕ) (seq expected : ℕ) (target : String) (replaced : Bool)
    → check_outbound_freshness snapshot seq target replaced ≡ passes expected
    → Seen snapshot seq × (expected ≡ seq)
unfolding check_outbound_freshness is_seen
check-passes none seq expected target replaced h = elim (Bool-cases (seq == 0)) [
  | inl empty ↦
      let same : seq ≡ expected = cc (rw empty at h) in (inl ((==_iff seq 0).0 empty), sym same)
  | inr filled ↦ absurd (cc (rw filled at h))
]
check-passes (some n) seq expected target replaced h = elim (Bool-cases (seq == 0 || leb seq n)) [
  | inl seen ↦
      let same : seq ≡ expected = cc (rw seen at h) in
      (
        elim (Bool-cases (seq == 0)) [
          | inl empty ↦ inl ((==_iff seq 0).0 empty)
          | inr filled ↦ inr (n, refl, leb→le seq n (rw filled at seen))
        ],
        sym same,
      )
  | inr new_one ↦ absurd (cc (rw new_one at h))
]

pub check-Seen :
    (snapshot : Option ℕ) (seq : ℕ) (target : String) (replaced : Bool)
    → Seen snapshot seq
    → check_outbound_freshness snapshot seq target replaced ≡ passes seq
unfolding check_outbound_freshness is_seen
check-Seen snapshot seq target replaced (inl empty) =
    let test : (seq == 0) ≡ true = ground arith in simp test refl
check-Seen snapshot seq target replaced (inr (n, covered, le)) =
    let test : leb seq n ≡ true = ground arith in
    elim (Bool-cases (seq == 0)) [
      | inl empty ↦ simp empty refl
      | inr filled ↦ simp (filled, covered, test) refl
    ]

module _ (look : String → ℕ) (d : Draft) (replaced : Bool) where
  -- The targets staged, each with what its look has shown.
  abbrev pub staged_of : List Target → List Staged
  staged_of [] = []
  staged_of (t ∷ ts) =
      record { target = t; payload = payload_of d t; expected_seq = look t.thread_id }
      ∷ staged_of ts

  module _ (others : Others) where
    -- What the caller had seen of each conversation when it was looked at covers what stood there.
    abbrev pub Sees : List Target → Commands → Type 0
    Sees [] s = Unit
    Sees (t ∷ ts) s =
        Seen ((others.before_look t.thread_id s).snapshots t.thread_id) (look t.thread_id)
        × Sees ts (others.before_look t.thread_id s)

    -- The loop has found no hold: nothing is new in any conversation.
    pub record Passed (ts : List Target) (x y : Stage) : Type 0 where
      pub from_none : x.hold ≡ none
      pub seen : Sees ts x.commands
      pub all_staged : y.staged ≡ x.staged ++ staged_of ts

    Passed-step :
        (t : Target) (ts : List Target) (x y : Stage) (f : Freshness)
        → check_outbound_freshness
            ((at_look look d replaced others t x).commands.snapshots t.thread_id)
            (look t.thread_id)
            t.canonical_target
            replaced
          ≡ f
        → Passed ts (stage_one look d replaced t f (at_look look d replaced others t x)) y
        → Passed (t ∷ ts) x y
    unfolding stage_one
    Passed-step t ts x y (holds h) same p = absurd (go x.hold p.from_none)
      where
        go :
            (o : Option Hold)
            → or_first o (hold_at t h (at_look look d replaced others t x).commands).0 ≢ none
        go none e = absurd (cc e)
        go (some first) e = absurd (cc e)
    Passed-step t ts x y (passes seq) same p =
        let (seen_here, is_look) =
          check-passes ((at_look look d replaced others t x).commands.snapshots t.thread_id)
            (look t.thread_id) seq t.canonical_target replaced same in
        record {
          from_none = p.from_none;
          seen = (seen_here, p.seen);
          all_staged =
              p.all_staged
              ∙ append_assoc x.staged _ (staged_of ts)
              ∙ ap
                  (λ n.
                    x.staged
                    ++ record { target = t; payload = payload_of d t; expected_seq = n }
                      ∷ staged_of ts)
                  is_look;
        }

    pub stage_all-Passed :
        (ts : List Target) (x : Stage)
        → (stage_all look d replaced others ts x).hold ≡ none
        → Passed ts x (stage_all look d replaced others ts x)
    unfolding stage_all
    stage_all-Passed [] x h = record {
      from_none = h;
      seen = tt;
      all_staged = sym (append-nil x.staged);
    }
    stage_all-Passed (t ∷ ts) x h =
        Passed-step t ts x _
          (check_outbound_freshness
            ((at_look look d replaced others t x).commands.snapshots t.thread_id) (look t.thread_id)
            t.canonical_target replaced)
          refl (stage_all-Passed ts _ h)
