-- ===== src/Send/Command.antt =====
-- bazaar_compute_node/core/orchestration/commands/messages.py: `send_message`, from the targets on that
-- the store resolves. A direct message to somebody new, `_open_dm`, is left out.
use Prim.Native.String.{String}
use bazaar_compute_node.Prelude.{
  ℕ, suc, Bool, true, false, not, ◌&&◌, ◌||◌, Option, none, some, is_none, List, [], ◌∷◌, ◌++◌,
  ◌==◌, if◌then◌else◌,
}
use bazaar_compute_node.Prelude.Texts.{codes, is_blank}
use bazaar_compute_node.Prelude.Result.{Result, ok, err}
use bazaar_compute_node.Agent.{Actor}
use bazaar_compute_node.Markdown.{strip, is_nil}
use bazaar_compute_node.Delivery.{
  OutboundDeliveryState, pending, queued, sent, partial, failed, unknown, OutboundDeliveryResult,
}
use bazaar_compute_node.Send.{
  Target, Draft, Hold, Freshness, passes, holds, Commands, SendError, draft_with_content,
  empty_message, ambiguous, no_draft, precedes_creation, check_outbound_freshness, hold_at, refusal,
  shares_bot, draft_key, set_draft,
}
use bazaar_compute_node.Send.Deliver.{
  Outbound, Staged, Traffic, Prepared, ready, precedes, halted, prepare_all, deliver_each,
}

-- What the caller of `send_message` says.
pub record Request : Type 0 where
  pub body : String
  pub attachments : List String
  pub reply_to_message_id : Option String
  pub created_at_ms : ℕ
  pub send_draft : Bool

-- The checks of `send_message`.
unfoldable pub request_error : Request → Option SendError
request_error r =
    if r.send_draft
      && (not (is_blank (some r.body))
          || not (is_nil r.attachments)
          || not (is_none r.reply_to_message_id))
    then some draft_with_content
    else if not r.send_draft && is_nil (strip (codes r.body)) && is_nil r.attachments
    then some empty_message
    else none

-- `targets[0]`, of targets that are never none.
unfoldable pub first_target : List Target → String × String
first_target [] = ("", "")
first_target (t ∷ ts) = (t.canonical_target, t.thread_id)

-- The draft of a new message.
unfoldable pub new_draft : Request → List Target → Commands → Draft
new_draft r ts s = record {
  object_id = s.next_object;
  target = (first_target ts).0;
  target_id = (first_target ts).1;
  body = r.body;
  attachments = r.attachments;
  reply_to_message_id = r.reply_to_message_id;
  created_at_ms = r.created_at_ms;
}

unfoldable pub held_draft : Option Draft → Commands → Result SendError (Draft × Bool × Commands)
held_draft none s = err no_draft
held_draft (some d) s = ok (d, false, s)

-- What comes before the loop that stages: the draft, and whether it replaces another.
unfoldable pub find_draft :
    Request → List Target → Commands → Result SendError (Draft × Bool × Commands)
find_draft r ts s =
    if r.send_draft
    then held_draft (s.drafts (draft_key ts)) s
    else ok (
      new_draft r ts s,
      not (is_none (s.drafts (draft_key ts))),
      set_draft (draft_key ts) (some (new_draft r ts s))
          (record s { next_object = suc s.next_object }),
    )

abbrev pub or_first : Option Hold → Hold → Option Hold
or_first none h = some h
or_first (some first) h = some first

-- The payload of one target.
unfoldable pub payload_of : Draft → Target → Draft
payload_of d t = record d { target = t.canonical_target; target_id = t.thread_id }

-- What other commands do while a send waits: before it looks at a conversation, before it holds all of
-- them, and while the channel delivers.
pub record Others : Type 0 where
  pub before_look : String → Commands → Commands
  pub before_delivery : Commands → Commands
  pub during_delivery : Commands → Commands

-- What the loop has come to: the first hold, and the targets that passed.
pub record Stage : Type 0 where
  pub hold : Option Hold
  pub staged : List Staged
  pub commands : Commands

module _ (look : String → ℕ) (d : Draft) (replaced : Bool) where
  -- `_stage_draft`, and what the loop makes of its result.
  unfoldable pub stage_one : Target → Freshness → Stage → Stage
  stage_one t (passes seq) x = record x {
    staged = x.staged ++ (record { target = t; payload = payload_of d t; expected_seq = seq } ∷ []);
  }
  stage_one t (holds h) x = record x {
    hold = or_first x.hold (hold_at t h x.commands).0;
    commands = (hold_at t h x.commands).1;
  }

  module _ (others : Others) where
    -- The state in which a conversation is looked at.
    abbrev pub at_look : Target → Stage → Stage
    at_look t x = record x { commands = others.before_look t.thread_id x.commands }

    -- The loop over the targets.
    unfoldable pub stage_all : List Target → Stage → Stage
    stage_all [] x = x
    stage_all (t ∷ ts) x = stage_all ts (
        stage_one t
          (check_outbound_freshness ((at_look t x).commands.snapshots t.thread_id)
            (look t.thread_id) t.canonical_target replaced)
          (at_look t x))

-- `_named_as_called`
unfoldable pub named_as_called : Hold → String → List Target → Hold
named_as_called h raw (t ∷ []) = h
named_as_called h raw [] = record h { target = raw }
named_as_called h raw (t ∷ u ∷ ts) = record h { target = raw }

-- How a send ends.
pub data Outcome : Type 0 where
  refused : SendError → Outcome
  held : Hold → Outcome
  delivered : List Outbound → Outcome

unfoldable pub went_out : OutboundDeliveryState → Bool
went_out pending = false
went_out queued = true
went_out sent = true
went_out partial = false
went_out failed = false
went_out unknown = false

unfoldable pub all_went_out : List Outbound → Bool
all_went_out [] = true
all_went_out (m ∷ ms) = went_out m.delivery_state && all_went_out ms

unfoldable pub is_draft : Option Draft → Draft → Bool
is_draft none d = false
is_draft (some e) d = e.object_id == d.object_id

-- The draft goes once it has gone out everywhere, unless another has taken its place.
unfoldable pub drop_draft : List String → Draft → List Outbound → Commands → Commands
drop_draft key d messages s =
    if is_draft (s.drafts key) d && all_went_out messages then set_draft key none s else s

-- What a send leaves: its outcome, the commands' state and the traffic.
pub record Sent : Type 0 where
  pub outcome : Outcome
  pub commands : Commands
  pub traffic : Traffic

module _ (channel : Outbound → OutboundDeliveryResult) (now : ℕ) (last_look : String → ℕ) where
  -- `_deliver` of the targets that all passed, by its first loop, and what follows it.
  unfoldable pub deliver_or_hold :
      Others → Prepared → String → List Target → Draft → List Staged → Commands → Traffic → Sent
  deliver_or_hold others (halted t h) raw ts d staged s traffic = record {
    outcome = held (named_as_called (hold_at t h s).0 raw ts);
    commands = (hold_at t h s).1;
    traffic = traffic;
  }
  deliver_or_hold others ready raw ts d staged s traffic = record {
    outcome = delivered (deliver_each channel now staged traffic).0;
    commands =
        drop_draft (draft_key ts) d (deliver_each channel now staged traffic).0
          (others.during_delivery s);
    traffic = (deliver_each channel now staged traffic).1;
  }
  deliver_or_hold others precedes raw ts d staged s traffic = record {
    outcome = refused precedes_creation;
    commands = s;
    traffic = traffic;
  }

  -- What follows the loop that stages, by the hold that it has found.
  unfoldable pub after_stage :
      Others → String → List Target → Draft → Option Hold → List Staged → Commands → Traffic → Sent
  after_stage others raw ts d (some h) staged s traffic = record {
    outcome = held (named_as_called h raw ts);
    commands = s;
    traffic = traffic;
  }
  after_stage others raw ts d none staged s traffic =
      deliver_or_hold others (prepare_all now last_look staged) raw ts d staged
        (others.before_delivery s) traffic

  -- `_send` with its draft.
  unfoldable pub send_draft_of :
      (String → ℕ)
      → Others
      → String
      → List Target
      → Commands
      → Traffic
      → Result SendError (Draft × Bool × Commands)
      → Sent
  send_draft_of look others raw ts s traffic (err e) = record {
    outcome = refused e;
    commands = s;
    traffic = traffic;
  }
  send_draft_of look others raw ts s traffic (ok (d, replaced, next)) =
      let x =
        stage_all look d replaced others ts
          (record { hold = none; staged = []; commands = next }) in
      after_stage others raw ts d x.hold x.staged x.commands traffic

  unfoldable pub or_refused : Option SendError → Commands → Traffic → Sent → Sent
  or_refused none s traffic x = x
  or_refused (some e) s traffic x = record { outcome = refused e; commands = s; traffic = traffic }

  -- `send_message` and `_send`
  unfoldable pub send :
      (String → ℕ) → Others → Actor → String → Request → List Target → Commands → Traffic → Sent
  send look others actor raw r ts s traffic = or_refused (request_error r) s traffic (
      or_refused (refusal actor ts) s traffic (
        if shares_bot ts
        then record { outcome = refused ambiguous; commands = s; traffic = traffic }
        else send_draft_of look others raw ts s traffic (find_draft r ts s)))
