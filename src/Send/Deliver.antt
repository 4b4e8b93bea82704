-- ===== src/Send/Deliver.antt =====
-- bazaar_compute_node/core/orchestration/commands/messages.py and core/models/entities.py: the last look
-- at every conversation, what goes to the channel, and what its answer makes of the message.
use Prim.Native.String.{String}
use bazaar_compute_node.Prelude.{
  ℕ, Bool, true, false, not, ◌||◌, Option, none, some, is_none, List, [], ◌∷◌, ltb, ◌==◌,
  if◌then◌else◌,
}
use bazaar_compute_node.Prelude.Texts.{or_keep}
use bazaar_compute_node.Delivery.{
  OutboundDeliveryState, pending, queued, sent, partial, failed, unknown, OutboundDeliveryResult,
}
use bazaar_compute_node.Send.{
  Target, Draft, Hold, Freshness, passes, holds, check_outbound_freshness,
}

-- The fields of an outbound `Message` that a delivery sets or reads. Its reply is what the store could
-- resolve, its id is random; both are left out.
pub record Outbound : Type 0 where
  pub thread_id : String
  pub target : String
  pub body : String
  pub attachments : List String
  pub delivery_state : OutboundDeliveryState
  pub created_at_ms : ℕ
  pub provider_attempted_at_ms : ℕ
  pub provider_message_id : Option String
  pub provider_receipt_ref : Option String
  pub completed_at_ms : Option ℕ
  pub error_kind : Option String
  pub error_message : Option String

abbrev pub state_number : OutboundDeliveryState → ℕ
state_number pending = 0
state_number queued = 1
state_number sent = 2
state_number partial = 3
state_number failed = 4
state_number unknown = 5

-- The states with a time of completion.
unfoldable pub completes : OutboundDeliveryState → Bool
completes pending = false
completes queued = false
completes sent = true
completes partial = true
completes failed = true
completes unknown = true

-- `Message.transition_to` of an outbound message, with what `_answered` gives it.
unfoldable pub answered : OutboundDeliveryResult → ℕ → Outbound → Outbound
answered r at_ms m = if state_number r.state == state_number m.delivery_state then m else record m {
  delivery_state = r.state;
  provider_message_id = or_keep r.provider_message_id m.provider_message_id;
  provider_receipt_ref = or_keep r.provider_receipt_ref m.provider_receipt_ref;
  completed_at_ms = if completes r.state then some at_ms else m.completed_at_ms;
  error_kind = or_keep r.error_kind m.error_kind;
  error_message = or_keep r.error_message m.error_message;
}

-- The membership in `_DELIVERED_STATES`.
unfoldable pub is_delivered : OutboundDeliveryState → Bool
is_delivered pending = false
is_delivered queued = true
is_delivered sent = true
is_delivered partial = true
is_delivered failed = false
is_delivered unknown = false

-- `_reached_the_peer`
unfoldable pub reached_the_peer : OutboundDeliveryResult → Bool
reached_the_peer r =
    is_delivered r.state
    || not (is_none r.provider_message_id)
    || not (is_none r.provider_thread_id)

-- `item` of `staged`: a target, its payload and the sequence number that its first look has passed.
pub record Staged : Type 0 where
  pub target : Target
  pub payload : Draft
  pub expected_seq : ℕ

-- What has been given to the channel, and what has been written down as said, the last first.
pub record Traffic : Type 0 where
  pub given : List Outbound
  pub saved : List Outbound

-- The message of `materialize_outbound_if_fresh`.
unfoldable pub outbound_of : Staged → ℕ → Outbound
outbound_of i now = record {
  thread_id = i.target.thread_id;
  target = i.payload.target;
  body = i.payload.body;
  attachments = i.payload.attachments;
  delivery_state = pending;
  created_at_ms = i.payload.created_at_ms;
  provider_attempted_at_ms = now;
  provider_message_id = none;
  provider_receipt_ref = none;
  completed_at_ms = none;
  error_kind = none;
  error_message = none;
}

-- `materialize_outbound_if_fresh`: a hold, or nothing that stands in the way.
unfoldable pub last_check : Staged → ℕ → Freshness
last_check i current =
    if ltb i.expected_seq current
    then check_outbound_freshness (some i.expected_seq) current i.payload.target false
    else passes current

-- What the first loop of `_deliver` comes to: every message is ready, one conversation holds, or one
-- message would be attempted before it was created, which `Message.__post_init__` refuses.
pub data Prepared : Type 0 where
  ready precedes : Prepared
  halted : Target → Hold → Prepared

-- One round of it; the later ones follow.
unfoldable pub prepare : Staged → ℕ → Freshness → Prepared → Prepared
prepare i now (holds h) later = halted i.target h
prepare i now (passes seq) later = if ltb now i.payload.created_at_ms then precedes else later

-- The first loop: every conversation is looked at before anything goes out.
unfoldable pub prepare_all : ℕ → (String → ℕ) → List Staged → Prepared
prepare_all now last_look [] = ready
prepare_all now last_look (i ∷ is) =
    let later = prepare_all now last_look is in
    prepare i now (last_check i (last_look i.target.thread_id)) later

module _ (channel : Outbound → OutboundDeliveryResult) (now : ℕ) where
  -- `_deliver_one`
  unfoldable pub deliver_one : Staged → Traffic → Outbound × Traffic
  deliver_one i traffic =
      let outgoing = outbound_of i now in
      let answer = channel outgoing in
      let message = answered answer now outgoing in
      let given = record traffic { given = outgoing ∷ traffic.given } in
      if reached_the_peer answer
      then (message, record given { saved = message ∷ traffic.saved })
      else (message, given)

  -- The deliveries, which the code starts side by side, one after another.
  unfoldable pub deliver_each : List Staged → Traffic → List Outbound × Traffic
  deliver_each [] traffic = ([], traffic)
  deliver_each (i ∷ is) traffic =
      let (message, next) = deliver_one i traffic in
      let (messages, last) = deliver_each is next in (message ∷ messages, last)
