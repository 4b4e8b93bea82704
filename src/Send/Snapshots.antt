-- ===== src/Send/Snapshots.antt =====
-- After a look at every conversation its caller has seen what is new, and holds the draft.
use Prim.Native.String.{String}
use text.Mathlib.Text
use text.Mathlib.TextPositions.{eq_refl}
use bazaar_compute_node.Prelude.{
  ℕ, suc, ◌≤◌, ◌≡◌, ◌≢◌, refl, sym, ◌∙◌, ap, subst, arith, Bool, true, false, ◌||◌, inl, inr,
  Option, none, some, some_inj, List, [], ◌∷◌, ◌==◌, ltb, ltb→lt, ltb_false→le, le→ltb_false,
  Bool-cases,
}
use bazaar_compute_node.Prelude.Result.{ok}
use bazaar_compute_node.Agent.{Actor}
use bazaar_compute_node.Send.{
  Target, Draft, Hold, Freshness, passes, holds, Commands, is_seen, check_outbound_freshness,
  newest, observe_freshness, hold_at, refusal, shares_bot, draft_key, same_key, set_draft,
}
use bazaar_compute_node.Send.Deliver.{last_check, ready, halted, prepare, prepare_all}
use bazaar_compute_node.Send.Command.{
  Request, new_draft, held_draft, find_draft, Others, at_look, payload_of, Stage, stage_one,
  stage_all,
}
use bazaar_compute_node.Send.Staging.{
  Seen, Every, none_left, and_next, Every-map, check-passes, check-Seen, staged_of,
}

-- Every conversation that one map of snapshots has seen, another has seen too.
abbrev pub Covers : (String → Option ℕ) → (String → Option ℕ) → Type 0
Covers f g = (i : String) (n : ℕ) → Seen (f i) n → Seen (g i) n

-- Other commands that leave the draft of a key in its place, and forget nothing that has been seen.
pub record Kind (others : Others) (key : List String) : Type 0 where
  pub covers : (i : String) (s : Commands) → Covers s.snapshots (others.before_look i s).snapshots
  pub keeps : (i : String) (s : Commands) → (others.before_look i s).drafts key ≡ s.drafts key

newest-Seen : (o : Option ℕ) (seq n : ℕ) → Seen o n → Seen (some (newest o seq)) n
unfolding newest
newest-Seen o seq n (inl empty) = inl empty
newest-Seen none seq n (inr (m, covered, le)) = absurd (cc covered)
newest-Seen (some m) seq n (inr (k, covered, le)) = elim (Bool-cases (ltb m seq)) [
  | inl newer ↦ rw newer (inr (seq, refl, omega (arith, some_inj covered, ltb→lt m seq newer)))
  | inr old ↦ rw old (inr (m, refl, omega (arith, some_inj covered)))
]

newest-covers : (o : Option ℕ) (seq : ℕ) → Seen (some (newest o seq)) seq
unfolding newest
newest-covers none seq = inr (seq, refl, omega arith)
newest-covers (some m) seq = elim (Bool-cases (ltb m seq)) [
  | inl newer ↦ rw newer (inr (seq, refl, omega arith))
  | inr old ↦ rw old (inr (m, refl, ltb_false→le m seq old))
]

observe-Covers :
    (thread_id : String) (seq : ℕ) (s : Commands)
    → Covers s.snapshots (observe_freshness thread_id seq s).snapshots
unfolding observe_freshness
observe-Covers thread_id seq s i n seen = elim (Bool-cases (Text.◌==◌ thread_id i)) [
  | inl here ↦ rw here (newest-Seen (s.snapshots i) seq n seen)
  | inr there ↦ rw there seen
]

observe-here :
    (thread_id : String) (seq : ℕ) (s : Commands)
    → Seen ((observe_freshness thread_id seq s).snapshots thread_id) seq
unfolding observe_freshness
observe-here thread_id seq s = rw (eq_refl thread_id) (newest-covers (s.snapshots thread_id) seq)

check-holds :
    (snapshot : Option ℕ) (seq : ℕ) (target : String) (replaced : Bool) (h : Hold)
    → check_outbound_freshness snapshot seq target replaced ≡ holds h
    → h.current_inbound_seq ≡ seq
unfolding check_outbound_freshness
check-holds snapshot seq target replaced h e =
    elim (Bool-cases (seq == 0 || is_seen snapshot seq)) [
      | inl seen ↦ absurd (cc (rw seen at e))
      | inr fresh ↦
          let same : record {
            target = target;
            snapshot_seq = snapshot;
            current_inbound_seq = seq;
            draft_replaced = replaced;
          }
              ≡ h =
            cc (rw fresh at e) in
          ap (λ (x : Hold). x.current_inbound_seq) (sym same)
    ]

module _ (look : String → ℕ) (d : Draft) (replaced : Bool) where
  stage_one-Covers :
      (t : Target) (f : Freshness) (x : Stage)
      → Covers x.commands.snapshots (stage_one look d replaced t f x).commands.snapshots
  unfolding stage_one hold_at
  stage_one-Covers t (passes seq) x i n seen = seen
  stage_one-Covers t (holds h) x i n seen =
      observe-Covers t.thread_id h.current_inbound_seq x.commands i n seen

  stage_one-Seen :
      (t : Target) (f : Freshness) (x : Stage)
      → check_outbound_freshness
          (x.commands.snapshots t.thread_id)
          (look t.thread_id)
          t.canonical_target
          replaced
        ≡ f
      → Seen ((stage_one look d replaced t f x).commands.snapshots t.thread_id) (look t.thread_id)
  unfolding stage_one hold_at
  stage_one-Seen t (passes seq) x same =
      (check-passes (x.commands.snapshots t.thread_id) (look t.thread_id) seq t.canonical_target
        replaced same).0
  stage_one-Seen t (holds h) x same =
      let current =
        check-holds (x.commands.snapshots t.thread_id) (look t.thread_id) t.canonical_target
          replaced h same in
      subst
        (λ n.
          Seen
            ((observe_freshness t.thread_id h.current_inbound_seq x.commands).snapshots t.thread_id)
            n)
        current (observe-here t.thread_id h.current_inbound_seq x.commands)

  stage_one-drafts :
      (t : Target) (f : Freshness) (x : Stage)
      → (stage_one look d replaced t f x).commands.drafts ≡ x.commands.drafts
  unfolding stage_one hold_at observe_freshness
  stage_one-drafts t (passes seq) x = refl
  stage_one-drafts t (holds h) x = refl

  stage_one-passes :
      (t : Target) (f : Freshness) (seq : ℕ) (x : Stage)
      → f ≡ passes seq
      → ((stage_one look d replaced t f x).hold ≡ x.hold)
        × ((stage_one look d replaced t f x).commands ≡ x.commands)
  unfolding stage_one
  stage_one-passes t f seq x e = (
    ap (λ (g : Freshness). (stage_one look d replaced t g x).hold) e,
    ap (λ (g : Freshness). (stage_one look d replaced t g x).commands) e,
  )

  module _ (others : Others) (key : List String) (kind : Kind others key) where
    stage_all-Covers :
        (ts : List Target) (x : Stage)
        → Covers x.commands.snapshots (stage_all look d replaced others ts x).commands.snapshots
    unfolding stage_all
    stage_all-Covers [] x i n seen = seen
    stage_all-Covers (t ∷ ts) x i n seen = stage_all-Covers ts _ i n (
        stage_one-Covers t _ (at_look look d replaced others t x) i n
          (kind.covers t.thread_id x.commands i n seen))

    -- When the loop has looked at every conversation, the caller has seen what stood in each.
    pub stage_all-Seen :
        (ts : List Target) (x : Stage)
        → Every
            (λ t.
              Seen
                ((stage_all look d replaced others ts x).commands.snapshots t.thread_id)
                (look t.thread_id))
            ts
    unfolding stage_all
    stage_all-Seen [] x = none_left
    stage_all-Seen (t ∷ ts) x =
        and_next
          (stage_all-Covers ts _ t.thread_id (look t.thread_id)
            (stage_one-Seen t _ (at_look look d replaced others t x) refl))
          (stage_all-Seen ts _)

    pub stage_all-drafts :
        (ts : List Target) (x : Stage)
        → (stage_all look d replaced others ts x).commands.drafts key ≡ x.commands.drafts key
    unfolding stage_all
    stage_all-drafts [] x = refl
    stage_all-drafts (t ∷ ts) x =
        stage_all-drafts ts _
        ∙ ap (λ (f : List String → Option Draft). f key)
            (stage_one-drafts t _ (at_look look d replaced others t x))
        ∙ kind.keeps t.thread_id x.commands

    -- Where all has been seen, the loop finds no hold.
    pub stage_all-passes :
        (ts : List Target) (x : Stage)
        → x.hold ≡ none
        → Every (λ t. Seen (x.commands.snapshots t.thread_id) (look t.thread_id)) ts
        → (stage_all look d replaced others ts x).hold ≡ none
    unfolding stage_all
    stage_all-passes [] x h seen = h
    stage_all-passes (t ∷ ts) x h (and_next here rest) =
        let x' = at_look look d replaced others t x in
        let f =
          check_outbound_freshness (x'.commands.snapshots t.thread_id) (look t.thread_id)
            t.canonical_target replaced in
        let kept = stage_one-passes t f (look t.thread_id) x' (
          check-Seen (x'.commands.snapshots t.thread_id) (look t.thread_id) t.canonical_target
            replaced (kind.covers t.thread_id x.commands t.thread_id (look t.thread_id) here)) in
        stage_all-passes ts (stage_one look d replaced t f x') (kept.0 ∙ h) (
          Every-map rest (λ u seen.
            subst (λ (c : Commands). Seen (c.snapshots u.thread_id) (look u.thread_id)) (sym kept.1)
              (kind.covers t.thread_id x.commands u.thread_id (look u.thread_id) seen)))

  -- No newer message, and a draft that was created before: the first loop lets all pass.
  pub prepare_all-still :
      (now : ℕ) (last_look : String → ℕ) (ts : List Target)
      → Every (λ t. last_look t.thread_id ≤ look t.thread_id) ts
      → d.created_at_ms ≤ now
      → prepare_all now last_look (staged_of look d replaced ts) ≡ ready
  unfolding prepare_all prepare last_check payload_of
  prepare_all-still now last_look [] none_left after = refl
  prepare_all-still now last_look (t ∷ ts) (and_next here rest) after =
      simp (le→ltb_false _ _ here, le→ltb_false _ _ after)
        (prepare_all-still now last_look ts rest after)

  -- Without the second it holds none.
  pub prepare_all-no_hold :
      (now : ℕ) (last_look : String → ℕ) (ts : List Target) (t : Target) (h : Hold)
      → Every (λ t. last_look t.thread_id ≤ look t.thread_id) ts
      → prepare_all now last_look (staged_of look d replaced ts) ≢ halted t h
  prepare_all-no_hold now last_look ts t h still e = elim (Bool-cases (ltb now d.created_at_ms)) [
    | inl early ↦ early_stops ts still early e
    | inr fine ↦
        cc (prepare_all-still now last_look ts still (ltb_false→le now d.created_at_ms fine), e)
  ]
    where
      early_stops :
          (ts : List Target)
          → Every (λ t. last_look t.thread_id ≤ look t.thread_id) ts
          → ltb now d.created_at_ms ≡ true
          → prepare_all now last_look (staged_of look d replaced ts) ≢ halted t h
      early_stops [] none_left early e = unfold prepare_all in absurd (cc e)
      early_stops (u ∷ us) (and_next here rest) early e =
          unfold prepare_all prepare last_check payload_of in
          absurd (cc (simp (le→ltb_false _ _ here, early) at e))

same_key_refl : (k : List String) → same_key k k ≡ true
unfolding same_key
same_key_refl [] = refl
same_key_refl (i ∷ is) = simp (eq_refl i, same_key_refl is) refl

-- What the second attempt finds: the actor may speak, the draft is there, and all has been seen.
pub record Ready (actor : Actor) (look : String → ℕ) (ts : List Target) (s : Commands)
    : Type 0 where
  pub may : refusal actor ts ≡ none
  pub apart : shares_bot ts ≡ false
  pub draft : Draft
  pub kept : s.drafts (draft_key ts) ≡ some draft
  pub seen : Every (λ t. Seen (s.snapshots t.thread_id) (look t.thread_id)) ts

held_draft-kept :
    (o : Option Draft) (s : Commands) (d : Draft) (replaced : Bool) (next : Commands)
    → held_draft o s ≡ ok (d, replaced, next)
    → (o ≡ some d) × (next ≡ s)
unfolding held_draft
held_draft-kept none s d replaced next h = absurd (cc h)
held_draft-kept (some e) s d replaced next h = (cc h, cc h)

pub find_draft-kept :
    (r : Request) (ts : List Target) (s : Commands) (d : Draft) (replaced : Bool) (next : Commands)
    → find_draft r ts s ≡ ok (d, replaced, next)
    → next.drafts (draft_key ts) ≡ some d
unfolding find_draft set_draft
find_draft-kept r ts s d replaced next h = elim (Bool-cases r.send_draft) [
  | inl again ↦
      let there = held_draft-kept (s.drafts (draft_key ts)) s d replaced next (rw again at h) in
      ap (λ (c : Commands). c.drafts (draft_key ts)) there.1 ∙ there.0
  | inr fresh ↦
      let same : set_draft (draft_key ts) (some (new_draft r ts s))
            (record s { next_object = suc s.next_object })
          ≡ next =
        cc (rw fresh at h) in
      let new_one : new_draft r ts s ≡ d = cc (rw fresh at h) in
      ap (λ (c : Commands). c.drafts (draft_key ts)) (sym same)
      ∙ rw (same_key_refl (draft_key ts)) (ap some new_one)
]
