-- ===== src/Send/Retry.antt =====
-- A held send shows its caller what was new, and the next attempt goes out.
use Prim.Native.String.{String}
use bazaar_compute_node.Prelude.{
  ℕ, ◌≤◌, ◌≡◌, ◌≢◌, refl, sym, ◌∙◌, ap, subst, Bool, true, false, inl, inr, Option, none, some,
  List, [], ◌++◌, Bool-cases, if◌then◌else◌,
}
use bazaar_compute_node.Prelude.Result.{Result, ok, err}
use bazaar_compute_node.Agent.{Actor}
use bazaar_compute_node.Delivery.{OutboundDeliveryResult}
use bazaar_compute_node.Send.{
  Target, Draft, Hold, Commands, SendError, ambiguous, refusal, shares_bot, draft_key,
}
use bazaar_compute_node.Send.Deliver.{
  Outbound, Staged, Traffic, Prepared, ready, precedes, halted, prepare_all, deliver_each,
}
use bazaar_compute_node.Send.Command.{
  Request, request_error, held_draft, find_draft, Others, Stage, stage_all, refused, held,
  delivered, Sent, deliver_or_hold, after_stage, send_draft_of, or_refused, send,
}
use bazaar_compute_node.Send.Staging.{Every, Every-map, staged_of, Passed, stage_all-Passed}
use bazaar_compute_node.Send.Fresh.{given_to, deliver_each-given}
use bazaar_compute_node.Send.Snapshots.{
  Covers, Kind, Ready, stage_all-Seen, stage_all-drafts, stage_all-passes, prepare_all-still,
  prepare_all-no_hold, find_draft-kept,
}

module _ (channel : Outbound → OutboundDeliveryResult) (now : ℕ) (last_look : String → ℕ)
    (look : String → ℕ) (actor : Actor) (raw : String) (ts : List Target) where
  or_refused-held :
      (o : Option SendError) (s : Commands) (traffic : Traffic) (x : Sent) (h : Hold)
      → (or_refused channel now last_look o s traffic x).outcome ≡ held h
      → (o ≡ none) × (or_refused channel now last_look o s traffic x ≡ x)
  unfolding or_refused
  or_refused-held none s traffic x h e = (refl, refl)
  or_refused-held (some y) s traffic x h e = absurd (cc e)

  sharing-held :
      (s : Commands) (traffic : Traffic) (x : Sent) (h : Hold)
      → (if shares_bot ts
          then record { outcome = refused ambiguous; commands = s; traffic = traffic }
          else x).outcome
        ≡ held h
      → (shares_bot ts ≡ false)
        × ((if shares_bot ts
              then record { outcome = refused ambiguous; commands = s; traffic = traffic }
              else x)
            ≡ x)
  sharing-held s traffic x h e = elim (Bool-cases (shares_bot ts)) [
    | inl shared ↦ absurd (cc (rw shared at e))
    | inr apart ↦ (apart, rw apart refl)
  ]

  deliver_or_hold-unheld :
      (others : Others) (o : Prepared) (d : Draft) (staged : List Staged) (s : Commands)
      (traffic : Traffic) (h : Hold)
      → ((t : Target) (g : Hold) → o ≢ halted t g)
      → (deliver_or_hold channel now last_look others o raw ts d staged s traffic).outcome ≢ held h
  unfolding deliver_or_hold
  deliver_or_hold-unheld others ready d staged s traffic h free e = absurd (cc e)
  deliver_or_hold-unheld others precedes d staged s traffic h free e = absurd (cc e)
  deliver_or_hold-unheld others (halted t g) d staged s traffic h free e = free t g refl

  -- A hold that the loop over the targets has found leaves the state of the loop.
  after_stage-held :
      (others : Others) (d : Draft) (replaced : Bool) (o : Option Hold) (x y : Stage)
      (traffic : Traffic) (h : Hold)
      → y.hold ≡ o
      → (y.hold ≡ none → Passed look d replaced others ts x y)
      → x.staged ≡ []
      → Every (λ t. last_look t.thread_id ≤ look t.thread_id) ts
      → (after_stage channel now last_look others raw ts d o y.staged y.commands traffic).outcome
        ≡ held h
      → (after_stage channel now last_look others raw ts d o y.staged y.commands traffic).commands
        ≡ y.commands
  unfolding after_stage
  after_stage-held others d replaced (some g) x y traffic h found passed start still e = refl
  after_stage-held others d replaced none x y traffic h found passed start still e =
      let p = passed found in
      let all : y.staged ≡ staged_of look d replaced ts =
        p.all_staged ∙ ap (λ l. l ++ staged_of look d replaced ts) start in
      absurd (
        deliver_or_hold-unheld others (prepare_all now last_look y.staged) d y.staged
          (others.before_delivery y.commands) traffic h
          (λ t g stop.
            prepare_all-no_hold look d replaced now last_look ts t g still
              (ap (prepare_all now last_look) (sym all) ∙ stop))
          e)

  send_draft-Ready :
      (others : Others) (s : Commands) (traffic : Traffic)
      (o : Result SendError (Draft × Bool × Commands)) (h : Hold)
      → Kind others (draft_key ts)
      → ((d : Draft) (replaced : Bool) (next : Commands)
          → o ≡ ok (d, replaced, next)
          → next.drafts (draft_key ts) ≡ some d)
      → Every (λ t. last_look t.thread_id ≤ look t.thread_id) ts
      → refusal actor ts ≡ none
      → shares_bot ts ≡ false
      → (send_draft_of channel now last_look look others raw ts s traffic o).outcome ≡ held h
      → Ready actor look ts
          (send_draft_of channel now last_look look others raw ts s traffic o).commands
  unfolding send_draft_of
  send_draft-Ready others s traffic (err e) h kind draft still may apart outcome =
      absurd (cc outcome)
  send_draft-Ready others s traffic (ok (d, replaced, next)) h kind draft still may apart outcome =
      let x : Stage = record { hold = none; staged = []; commands = next } in
      let y : Stage = stage_all look d replaced others ts x in
      let left =
        after_stage-held others d replaced y.hold x y traffic h refl
          (stage_all-Passed look d replaced others ts x) refl still outcome in
      let here : Ready actor look ts y.commands = record {
        may = may;
        apart = apart;
        draft = d;
        kept =
            stage_all-drafts look d replaced others (draft_key ts) kind ts x
            ∙ draft d replaced next refl;
        seen = stage_all-Seen look d replaced others (draft_key ts) kind ts x;
      } in
      subst (Ready actor look ts) (sym left) here

  send-Ready :
      (others : Others) (r : Request) (s : Commands) (traffic : Traffic) (h : Hold)
      → Kind others (draft_key ts)
      → Every (λ t. last_look t.thread_id ≤ look t.thread_id) ts
      → (send channel now last_look look others actor raw r ts s traffic).outcome ≡ held h
      → Ready actor look ts
          (send channel now last_look look others actor raw r ts s traffic).commands
  unfolding send
  send-Ready others r s traffic h kind still outcome =
      let first = or_refused-held (request_error r) s traffic _ h outcome in
      let second =
        or_refused-held (refusal actor ts) s traffic _ h
          (ap (λ (x : Sent). x.outcome) (sym first.1) ∙ outcome) in
      let third = sharing-held s traffic _ h (
        ap (λ (x : Sent). x.outcome) (sym second.1)
        ∙ ap (λ (x : Sent). x.outcome) (sym first.1)
        ∙ outcome) in
      let whole = first.1 ∙ second.1 ∙ third.1 in
      let inner : Ready actor look ts
          (send_draft_of channel now last_look look others raw ts s traffic
            (find_draft r ts s)).commands =
        send_draft-Ready others s traffic (find_draft r ts s) h kind (find_draft-kept r ts s) still
          second.0 third.0 (ap (λ (x : Sent). x.outcome) (sym whole) ∙ outcome) in
      subst (λ (x : Sent). Ready actor look ts x.commands) (sym whole) inner

  -- The draft of a key has been delivered, and nothing else given to the channel.
  abbrev pub Delivers : Draft → Traffic → Sent → Type 0
  Delivers d traffic x =
      ((ms : List Outbound) × (x.outcome ≡ delivered ms))
      × (x.traffic.given ≡ given_to now d ts traffic.given)

  -- With no newer message at the last look, the targets that all passed are delivered.
  after_stage-Delivers :
      (others : Others) (d : Draft) (replaced : Bool) (x y : Stage) (traffic : Traffic)
      → y.hold ≡ none
      → Passed look d replaced others ts x y
      → x.staged ≡ []
      → Every (λ t. last_look t.thread_id ≤ look t.thread_id) ts
      → d.created_at_ms ≤ now
      → Delivers d traffic
          (after_stage channel now last_look others raw ts d y.hold y.staged y.commands traffic)
  unfolding after_stage deliver_or_hold
  after_stage-Delivers others d replaced x y traffic no_hold p start still after =
      let all : y.staged ≡ staged_of look d replaced ts =
        p.all_staged ∙ ap (λ l. l ++ staged_of look d replaced ts) start in
      let free : prepare_all now last_look y.staged ≡ ready =
        ap (prepare_all now last_look) all
        ∙ prepare_all-still look d replaced now last_look ts still after in
      rw no_hold (
        rw free (
          ((deliver_each channel now y.staged traffic).0, refl),
          ap (λ z. (deliver_each channel now z traffic).1.given) all
              ∙ deliver_each-given channel now look d replaced ts traffic,
        ))

  pub send-Delivers :
      (others : Others) (r : Request) (s : Commands) (traffic : Traffic)
      → Kind others (draft_key ts)
      → Every (λ t. last_look t.thread_id ≤ look t.thread_id) ts
      → r.send_draft ≡ true
      → request_error r ≡ none
      → (ready_ : Ready actor look ts s) → ready_.draft.created_at_ms ≤ now
      → Delivers ready_.draft traffic
          (send channel now last_look look others actor raw r ts s traffic)
  unfolding send or_refused send_draft_of
  send-Delivers others r s traffic kind still again valid ready_ after =
      let x : Stage = record { hold = none; staged = []; commands = s } in
      let y : Stage = stage_all look ready_.draft false others ts x in
      let no_hold : y.hold ≡ none =
        stage_all-passes look ready_.draft false others (draft_key ts) kind ts x refl ready_.seen in
      let found : find_draft r ts s ≡ ok (ready_.draft, false, s) =
        unfold find_draft held_draft in simp (again, ready_.kept) refl in
      let done =
        after_stage-Delivers others ready_.draft false x y traffic no_hold
          (stage_all-Passed look ready_.draft false others ts x no_hold) refl still after in
      simp (valid, ready_.may, ready_.apart, found) done

-- What was ready is so after other commands that keep the draft and forget nothing.
pause-Ready :
    (actor : Actor) (look : String → ℕ) (ts : List Target) (s t : Commands)
    → Covers s.snapshots t.snapshots
    → t.drafts (draft_key ts) ≡ s.drafts (draft_key ts)
    → Ready actor look ts s
    → Ready actor look ts t
pause-Ready actor look ts s t covers keeps r = record {
  may = r.may;
  apart = r.apart;
  draft = r.draft;
  kept = keeps ∙ r.kept;
  seen = Every-map r.seen (λ u seen. covers u.thread_id (look u.thread_id) seen);
}

-- Where a send is held and no newer message comes in, the draft can be sent at the next attempt: in
-- `later`, the state that other commands have made of the one that the first attempt left, there is a
-- draft, and a request to send the draft, with neither body, reply nor attachments, by the same actor
-- into the same conversations, at a time at which the draft has been created, delivers that draft and
-- gives its messages and nothing else to the channel. The other commands, before the looks of both
-- attempts and between them, keep the draft of these conversations and forget nothing that has been
-- seen; in all else they do what they want.
pub held_then_delivered :
    (channel : Outbound → OutboundDeliveryResult) (now next_now : ℕ) (last_look look : String → ℕ)
    (actor : Actor) (raw : String) (ts : List Target) (others next_others : Others)
    (r next : Request) (s later : Commands) (traffic next_traffic : Traffic) (h : Hold)
    → Kind others (draft_key ts)
    → Kind next_others (draft_key ts)
    → Every (λ t. last_look t.thread_id ≤ look t.thread_id) ts
    → (send channel now last_look look others actor raw r ts s traffic).outcome ≡ held h
    → Covers
        (send channel now last_look look others actor raw r ts s traffic).commands.snapshots
        later.snapshots
    → later.drafts (draft_key ts)
      ≡ (send channel now last_look look others actor raw r ts s traffic).commands.drafts
          (draft_key ts)
    → ((d : Draft) → later.drafts (draft_key ts) ≡ some d → d.created_at_ms ≤ next_now)
    → next.send_draft ≡ true
    → request_error next ≡ none
    → (d : Draft) × (later.drafts (draft_key ts) ≡ some d)
      × Delivers channel next_now last_look look actor raw ts d next_traffic
          (send channel next_now last_look look next_others actor raw next ts later next_traffic)
held_then_delivered channel now next_now last_look look actor raw ts others next_others r next s
      later traffic next_traffic h kind next_kind still outcome covers keeps created again valid =
    let after = pause-Ready actor look ts _ later covers keeps (
      send-Ready channel now last_look look actor raw ts others r s traffic h kind still outcome) in
    (
      after.draft,
      after.kept,
      send-Delivers channel next_now last_look look actor raw ts next_others next later next_traffic
          next_kind still again valid after (created after.draft after.kept),
    )
