-- ===== src/Send/Fresh.antt =====
-- A message goes to the channel only where nobody has said anything new, in any conversation.
use Prim.Native.String.{String}
use bazaar_compute_node.Prelude.{
  ℕ, suc, ◌≤◌, ◌<◌, ◌≡◌, ◌≢◌, refl, sym, ◌∙◌, ap, subst, arith, Bool, true, false, ◌⊎◌, inl, inr,
  Option, none, some, some_inj, List, [], ◌∷◌, ◌++◌, ltb, ltb→lt, ltb_false→le, Bool-cases,
  if◌then◌else◌,
}
use bazaar_compute_node.Prelude.Result.{Result, ok, err}
use bazaar_compute_node.Agent.{Actor}
use bazaar_compute_node.Delivery.{OutboundDeliveryResult, pending}
use bazaar_compute_node.Send.{
  Target, Draft, Hold, Freshness, passes, holds, Commands, SendError, ambiguous, approved,
  undecided, denied, is_approved, in_reach, refusal, shares_bot, draft_key, set_draft, Review,
}
use bazaar_compute_node.Send.Deliver.{
  Outbound, Staged, Traffic, outbound_of, last_check, Prepared, ready, precedes, halted, prepare,
  prepare_all, deliver_one, deliver_each, reached_the_peer,
}
use bazaar_compute_node.Send.Command.{
  Request, request_error, new_draft, held_draft, find_draft, Others, payload_of, Stage, stage_all,
  refused, delivered, Sent, deliver_or_hold, after_stage, send_draft_of, or_refused, send,
}
use bazaar_compute_node.Send.Staging.{
  Every, none_left, and_next, check-passes, staged_of, Sees, Passed, stage_all-Passed,
}

last_check-passes :
    (i : Staged) (current seq : ℕ) → last_check i current ≡ passes seq → current ≤ i.expected_seq
unfolding last_check
last_check-passes i current seq h = elim (Bool-cases (ltb i.expected_seq current)) [
  | inl newer ↦
      let newer_lt : i.expected_seq < current = ltb→lt _ _ newer in
      elim (check-passes (some i.expected_seq) current seq i.payload.target false
        (rw newer at h)).0 [
          | inl empty ↦ absurd (omega arith)
          | inr (n, covered, le) ↦
              let same : i.expected_seq ≡ n = some_inj covered in absurd (omega arith)
        ]
  | inr old ↦ ltb_false→le _ _ old
]

prepare-ready :
    (i : Staged) (now : ℕ) (f : Freshness) (later : Prepared)
    → prepare i now f later ≡ ready
    → (seq : ℕ) × (f ≡ passes seq) × (i.payload.created_at_ms ≤ now) × (later ≡ ready)
unfolding prepare
prepare-ready i now (passes seq) later h = elim (Bool-cases (ltb now i.payload.created_at_ms)) [
  | inl early ↦ absurd (cc (rw early at h))
  | inr fine ↦ (seq, refl, ltb_false→le now i.payload.created_at_ms fine, rw fine at h)
]
prepare-ready i now (holds x) later h = absurd (cc h)

prepare_all-ready :
    (now : ℕ) (look last_look : String → ℕ) (d : Draft) (replaced : Bool) (ts : List Target)
    → prepare_all now last_look (staged_of look d replaced ts) ≡ ready
    → Every (λ t. (last_look t.thread_id ≤ look t.thread_id) × (d.created_at_ms ≤ now)) ts
unfolding prepare_all payload_of
prepare_all-ready now look last_look d replaced [] h = none_left
prepare_all-ready now look last_look d replaced (t ∷ ts) h =
    let (seq, passed, after, rest) = prepare-ready _ now _ _ h in
    and_next (last_check-passes _ (last_look t.thread_id) seq passed, after)
      (prepare_all-ready now look last_look d replaced ts rest)

-- The actor may speak in a conversation.
abbrev pub May : Actor → Target → Type 0
May actor t = (in_reach actor t.thread_id ≡ true) × (t.review ≡ approved)

is_approved-path : (r : Review) → is_approved r ≡ true → r ≡ approved
unfolding is_approved
is_approved-path undecided h = absurd (cc h)
is_approved-path approved h = refl
is_approved-path denied h = absurd (cc h)

refusal-May : (actor : Actor) (ts : List Target) → refusal actor ts ≡ none → Every (May actor) ts
unfolding refusal
refusal-May actor [] h = none_left
refusal-May actor (t ∷ ts) h = elim (Bool-cases (in_reach actor t.thread_id)) [
  | inl reach ↦ elim (Bool-cases (is_approved t.review)) [
    | inl good ↦
        and_next (reach, is_approved-path t.review good)
          (refusal-May actor ts (simp (reach, good) at h))
    | inr bad ↦ absurd (cc (simp (reach, bad) at h))
  ]
  | inr other ↦ absurd (cc (rw other at h))
]

-- The message of a draft for one conversation, as it goes to the channel.
abbrev pub message_to : ℕ → Draft → Target → Outbound
message_to now d t = record {
  thread_id = t.thread_id;
  target = t.canonical_target;
  body = d.body;
  attachments = d.attachments;
  delivery_state = pending;
  created_at_ms = d.created_at_ms;
  provider_attempted_at_ms = now;
  provider_message_id = none;
  provider_receipt_ref = none;
  completed_at_ms = none;
  error_kind = none;
  error_message = none;
}

-- What has been given to the channel, the last first, after the messages for some conversations.
abbrev pub given_to : ℕ → Draft → List Target → List Outbound → List Outbound
given_to now d [] given = given
given_to now d (t ∷ ts) given = given_to now d ts (message_to now d t ∷ given)

module _ (channel : Outbound → OutboundDeliveryResult) (now : ℕ) where
  deliver_one-given :
      (i : Staged) (traffic : Traffic)
      → (deliver_one channel now i traffic).1.given ≡ outbound_of i now ∷ traffic.given
  unfolding deliver_one
  deliver_one-given i traffic = elim (Bool-cases (reached_the_peer (channel (outbound_of i now)))) [
    | inl there ↦ simp there refl
    | inr lost ↦ simp lost refl
  ]

  pub deliver_each-given :
      (look : String → ℕ) (d : Draft) (replaced : Bool) (ts : List Target) (traffic : Traffic)
      → (deliver_each channel now (staged_of look d replaced ts) traffic).1.given
        ≡ given_to now d ts traffic.given
  unfolding deliver_each outbound_of
  deliver_each-given look d replaced [] traffic = refl
  deliver_each-given look d replaced (t ∷ ts) traffic =
      let i : Staged = record {
        target = t;
        payload = payload_of d t;
        expected_seq = look t.thread_id;
      } in
      deliver_each-given look d replaced ts (deliver_one channel now i traffic).1
      ∙ ap (given_to now d ts) (unfold payload_of in deliver_one-given i traffic)

-- Nothing has been given to the channel, and nothing delivered.
abbrev pub Quiet : Traffic → Sent → Type 0
Quiet traffic x = (x.traffic ≡ traffic) × ((ms : List Outbound) → x.outcome ≢ delivered ms)

-- The draft of a request: the one that is kept, or a new one with what the request says.
pub record IsDraft (r : Request) (ts : List Target) (s : Commands) (d : Draft) : Type 0 where
  pub kept : r.send_draft ≡ true → s.drafts (draft_key ts) ≡ some d
  pub body : r.send_draft ≡ false → d.body ≡ r.body
  pub attachments : r.send_draft ≡ false → d.attachments ≡ r.attachments
  pub created : r.send_draft ≡ false → d.created_at_ms ≡ r.created_at_ms

-- The message of the draft, and nothing else, has been given to the channel for each conversation, in
-- their order, after the draft was created. The actor may speak in all of them, had seen what stood
-- in each when it was looked at, and no newer message stood in one at the last look.
pub record Goes (look : String → ℕ) (others : Others) (actor : Actor) (now : ℕ)
    (last_look : String → ℕ) (r : Request) (ts : List Target) (s : Commands) (traffic : Traffic)
    (x : Sent) : Type 0 where
  pub draft : Draft
  pub is_draft : IsDraft r ts s draft
  pub replaced : Bool
  pub start : Commands
  pub same_snapshots : start.snapshots ≡ s.snapshots
  pub may : Every (May actor) ts
  pub seen : Sees look draft replaced others ts start
  pub still :
      Every (λ t. (last_look t.thread_id ≤ look t.thread_id) × (draft.created_at_ms ≤ now)) ts
  pub given : x.traffic.given ≡ given_to now draft ts traffic.given

held_draft-snapshots :
    (o : Option Draft) (s : Commands) (d : Draft) (replaced : Bool) (next : Commands)
    → held_draft o s ≡ ok (d, replaced, next)
    → next.snapshots ≡ s.snapshots
unfolding held_draft
held_draft-snapshots none s d replaced next h = absurd (cc h)
held_draft-snapshots (some e) s d replaced next h =
    let same : s ≡ next = cc h in ap (λ (c : Commands). c.snapshots) (sym same)

held_draft-kept :
    (o : Option Draft) (s : Commands) (d : Draft) (replaced : Bool) (next : Commands)
    → held_draft o s ≡ ok (d, replaced, next)
    → o ≡ some d
unfolding held_draft
held_draft-kept none s d replaced next h = absurd (cc h)
held_draft-kept (some e) s d replaced next h = cc h

find_draft-snapshots :
    (r : Request) (ts : List Target) (s : Commands) (d : Draft) (replaced : Bool) (next : Commands)
    → find_draft r ts s ≡ ok (d, replaced, next)
    → next.snapshots ≡ s.snapshots
unfolding find_draft set_draft
find_draft-snapshots r ts s d replaced next h = elim (Bool-cases r.send_draft) [
  | inl again ↦ held_draft-snapshots (s.drafts (draft_key ts)) s d replaced next (rw again at h)
  | inr fresh ↦
      let same : set_draft (draft_key ts) (some (new_draft r ts s))
            (record s { next_object = suc s.next_object })
          ≡ next =
        cc (rw fresh at h) in
      ap (λ (c : Commands). c.snapshots) (sym same)
]

find_draft-IsDraft :
    (r : Request) (ts : List Target) (s : Commands) (d : Draft) (replaced : Bool) (next : Commands)
    → find_draft r ts s ≡ ok (d, replaced, next)
    → IsDraft r ts s d
unfolding find_draft new_draft
find_draft-IsDraft r ts s d replaced next h = elim (Bool-cases r.send_draft) [
  | inl again ↦ record {
    kept = λ e. held_draft-kept (s.drafts (draft_key ts)) s d replaced next (rw again at h);
    body = λ e. absurd (cc (again, e));
    attachments = λ e. absurd (cc (again, e));
    created = λ e. absurd (cc (again, e));
  }
  | inr fresh ↦
      let same : new_draft r ts s ≡ d = cc (rw fresh at h) in
      record {
        kept = λ e. absurd (cc (fresh, e));
        body = λ e. ap (λ (x : Draft). x.body) (sym same);
        attachments = λ e. ap (λ (x : Draft). x.attachments) (sym same);
        created = λ e. ap (λ (x : Draft). x.created_at_ms) (sym same);
      }
]

module _ (channel : Outbound → OutboundDeliveryResult) (now : ℕ) (last_look : String → ℕ)
    (look : String → ℕ) (others : Others) (actor : Actor) (raw : String) (r : Request)
    (ts : List Target) (s : Commands) (traffic : Traffic) where
  abbrev EndsWell : Sent → Type 0
  EndsWell x = Quiet traffic x ⊎ Goes look others actor now last_look r ts s traffic x

  deliver_or_hold-Goes :
      (o : Prepared) (d : Draft) (replaced : Bool) (start s2 : Commands) (staged : List Staged)
      → prepare_all now last_look staged ≡ o
      → staged ≡ staged_of look d replaced ts
      → IsDraft r ts s d
      → start.snapshots ≡ s.snapshots
      → Every (May actor) ts
      → Sees look d replaced others ts start
      → EndsWell (deliver_or_hold channel now last_look others o raw ts d staged s2 traffic)
  unfolding deliver_or_hold
  deliver_or_hold-Goes (halted t h) d replaced start s2 staged found all is same may seen =
      inl (refl, λ ms e. absurd (cc e))
  deliver_or_hold-Goes precedes d replaced start s2 staged found all is same may seen =
      inl (refl, λ ms e. absurd (cc e))
  deliver_or_hold-Goes ready d replaced start s2 staged found all is same may seen = inr (record {
    draft = d;
    is_draft = is;
    replaced = replaced;
    start = start;
    same_snapshots = same;
    may = may;
    seen = seen;
    still =
        prepare_all-ready now look last_look d replaced ts
          (subst (λ x. prepare_all now last_look x ≡ ready) all found);
    given =
        ap (λ x. (deliver_each channel now x traffic).1.given) all
        ∙ deliver_each-given channel now look d replaced ts traffic;
  })

  after_stage-Goes :
      (o : Option Hold) (d : Draft) (replaced : Bool) (x y : Stage)
      → y.hold ≡ o
      → (y.hold ≡ none → Passed look d replaced others ts x y)
      → x.staged ≡ []
      → IsDraft r ts s d
      → x.commands.snapshots ≡ s.snapshots
      → Every (May actor) ts
      → EndsWell (after_stage channel now last_look others raw ts d o y.staged y.commands traffic)
  unfolding after_stage
  after_stage-Goes (some h) d replaced x y found passed start is same may =
      inl (refl, λ ms e. absurd (cc e))
  after_stage-Goes none d replaced x y found passed start is same may =
      let p = passed found in
      let all : y.staged ≡ staged_of look d replaced ts =
        p.all_staged ∙ ap (λ l. l ++ staged_of look d replaced ts) start in
      deliver_or_hold-Goes (prepare_all now last_look y.staged) d replaced x.commands
        (others.before_delivery y.commands) y.staged refl all is same may p.seen

  send_draft-Goes :
      (o : Result SendError (Draft × Bool × Commands))
      → find_draft r ts s ≡ o
      → Every (May actor) ts
      → EndsWell (send_draft_of channel now last_look look others raw ts s traffic o)
  unfolding send_draft_of
  send_draft-Goes (err e) found may = inl (refl, λ ms x. absurd (cc x))
  send_draft-Goes (ok (d, replaced, next)) found may =
      let x : Stage = record { hold = none; staged = []; commands = next } in
      after_stage-Goes (stage_all look d replaced others ts x).hold d replaced x
        (stage_all look d replaced others ts x) refl (stage_all-Passed look d replaced others ts x)
        refl (find_draft-IsDraft r ts s d replaced next found)
        (find_draft-snapshots r ts s d replaced next found) may

  or_refused-Goes :
      (o : Option SendError) (x : Sent)
      → (o ≡ none → EndsWell x)
      → EndsWell (or_refused channel now last_look o s traffic x)
  unfolding or_refused
  or_refused-Goes none x goes = goes refl
  or_refused-Goes (some e) x goes = inl (refl, λ ms h. absurd (cc h))

  sharing-Goes :
      (x : Sent)
      → EndsWell x
      → EndsWell (
          if shares_bot ts
          then record { outcome = refused ambiguous; commands = s; traffic = traffic }
          else x)
  sharing-Goes x goes = elim (Bool-cases (shares_bot ts)) [
    | inl shared ↦ rw shared (inl (refl, λ ms h. absurd (cc h)))
    | inr apart ↦ rw apart goes
  ]

  -- Whatever a command to send a message does, it either gives nothing to the channel and delivers
  -- nothing, or it gives the message of its draft once for each conversation of its target and nothing
  -- else. The draft is the one that is kept, or has the body, the attachments and the time of the
  -- request. Then the actor may speak in all conversations, and had seen what stood in each when it was
  -- looked at first; in none of them stood anything newer at the last look, and the draft was not
  -- created later than the attempt. Other commands may do anything whenever the command waits.
  pub send-Goes :
      Quiet traffic (send channel now last_look look others actor raw r ts s traffic)
      ⊎ Goes look others actor now last_look r ts s traffic
          (send channel now last_look look others actor raw r ts s traffic)
  unfolding send
  send-Goes = or_refused-Goes (request_error r) _ (λ valid.
      or_refused-Goes (refusal actor ts) _ (λ may.
        sharing-Goes _ (send_draft-Goes (find_draft r ts s) refl (refusal-May actor ts may))))
