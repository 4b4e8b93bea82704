-- ===== src/Delivery.antt =====
-- bazaar_compute_node/core/outcomes.py and core/orchestration/delivery.py: what a provider answers
-- to an outbound message, and the delivery result that it is mapped to. The channel is a
-- parameter: a call of `send` returns a provider result or raises. A mapping is a function of its
-- keys.
pub mod Laws
mod Tests
use Prim.Native.String.{String}
use bazaar_compute_node.Prelude.{
  Bool, true, false, not, ◌&&◌, ◌||◌, Option, none, some, is_none, is_some, if◌then◌else◌,
}
use bazaar_compute_node.Prelude.Result.{Result, ok, err}

-- `OutboundDeliveryState` of core/models/states.py.
pub data OutboundDeliveryState : Type 0 where
  pending queued sent partial failed unknown : OutboundDeliveryState

pub data ProviderCallStatus : Type 0 where
  confirmed queued partial failed unknown : ProviderCallStatus

-- A value of a receipt mapping: a `str`, or anything else.
pub data Value : Type 0 where
  str : String → Value
  other : Value

abbrev pub Receipt : Type 0
Receipt = String → Option Value

-- The `ValueError`s, by message.
pub data OutcomeError : Type 0 where
  value_required error_forbidden partial_value_required partial_kind_required : OutcomeError
  value_forbidden kind_required : OutcomeError
  no_provider_outcome success_with_error unconfirmed_without_kind : OutcomeError
  confirmed_without_receipt queued_without_receipt partial_without_receipt : OutcomeError
  no_identifier : OutcomeError

-- `ChannelDeliveryReceipt` of core/channel.py.
pub record DeliveryReceipt : Type 0 where
  pub provider_message_id : Option String
  pub provider_receipt_ref : Option String
  pub provider_thread_id : Option String

pub record ProviderCallResult : Type 0 where
  pub status : ProviderCallStatus
  pub value : Option DeliveryReceipt
  pub error_kind : Option String
  pub error_message : Option String
  pub receipt : Receipt

pub record OutboundDeliveryResult : Type 0 where
  pub state : OutboundDeliveryState
  pub provider_message_id : Option String
  pub provider_receipt_ref : Option String
  pub provider_thread_id : Option String
  pub error_kind : Option String
  pub error_message : Option String
  pub next_action : Option String
  pub receipt : Receipt

abbrev pub is_empty : String → Bool
is_empty String.[] = true
is_empty (String.◌∷◌ c s) = false

-- Whether `not value`, for a string or `None`.
abbrev pub falsy : Option String → Bool
falsy none = true
falsy (some s) = is_empty s

-- `value or default`
abbrev pub or_else : Option String → String → String
or_else none d = d
or_else (some s) d = if is_empty s then d else s

-- The error that `ProviderCallResult.__post_init__` raises, by status.
unfoldable pub provider_error_of : ProviderCallStatus → ProviderCallResult → Option OutcomeError
provider_error_of confirmed r =
    if is_none r.value
    then some value_required
    else if is_some r.error_kind || is_some r.error_message
    then some error_forbidden
    else none
provider_error_of queued r =
    if is_none r.value
    then some value_required
    else if is_some r.error_kind || is_some r.error_message
    then some error_forbidden
    else none
provider_error_of partial r =
    if is_none r.value
    then some partial_value_required
    else if falsy r.error_kind
    then some partial_kind_required
    else none
provider_error_of failed r =
    if is_some r.value
    then some value_forbidden
    else if falsy r.error_kind
    then some kind_required
    else none
provider_error_of unknown r =
    if is_some r.value
    then some value_forbidden
    else if falsy r.error_kind
    then some kind_required
    else none

unfoldable pub provider_error : ProviderCallResult → Option OutcomeError
provider_error r = provider_error_of r.status r

-- `ChannelDeliveryReceipt.__post_init__`
unfoldable pub receipt_error : DeliveryReceipt → Option OutcomeError
receipt_error r =
    if is_none r.provider_message_id && is_none r.provider_receipt_ref
    then some no_identifier
    else none

abbrev pub succeeded : OutboundDeliveryState → Bool
succeeded sent = true
succeeded queued = true
succeeded pending = false
succeeded partial = false
succeeded failed = false
succeeded unknown = false

-- The membership in `terminal_states`.
abbrev pub terminal : OutboundDeliveryState → Bool
terminal pending = false
terminal sent = true
terminal queued = true
terminal partial = true
terminal failed = true
terminal unknown = true

-- The error that `OutboundDeliveryResult.__post_init__` raises.
unfoldable pub delivery_error : OutboundDeliveryResult → Option OutcomeError
delivery_error r =
    if not (terminal r.state)
    then some no_provider_outcome
    else if succeeded r.state
    then if is_some r.error_kind || is_some r.error_message then some success_with_error else none
    else if is_none r.error_kind
    then some unconfirmed_without_kind
    else none

unfoldable pub raise_or :
    Option OutcomeError → OutboundDeliveryResult → Result OutcomeError OutboundDeliveryResult
raise_or none r = ok r
raise_or (some e) r = err e

-- `OutboundDeliveryResult(...)`
unfoldable pub construct : OutboundDeliveryResult → Result OutcomeError OutboundDeliveryResult
construct r = raise_or (delivery_error r) r

-- `if not isinstance(value, str) or not value: value = None`
unfoldable pub identifier : Option Value → Option String
identifier none = none
identifier (some other) = none
identifier (some (str s)) = if is_empty s then none else some s

-- What is read out of the receipt mapping of a result that was not confirmed.
unfoldable pub salvage :
    OutboundDeliveryState → String → Option String → ProviderCallResult → OutboundDeliveryResult
salvage state kind next_action r = record {
  state = state;
  provider_message_id = identifier (r.receipt "provider_message_id");
  provider_receipt_ref = identifier (r.receipt "provider_receipt_ref");
  provider_thread_id = identifier (r.receipt "provider_thread_id");
  error_kind = some (or_else r.error_kind kind);
  error_message = r.error_message;
  next_action = next_action;
  receipt = r.receipt;
}

-- The three results that hold a receipt.
unfoldable pub with_receipt :
    OutboundDeliveryState
    → Option String
    → Option String
    → Option String
    → DeliveryReceipt
    → ProviderCallResult
    → OutboundDeliveryResult
with_receipt state error_kind error_message next_action v r = record {
  state = state;
  provider_message_id = v.provider_message_id;
  provider_receipt_ref = v.provider_receipt_ref;
  provider_thread_id = v.provider_thread_id;
  error_kind = error_kind;
  error_message = error_message;
  next_action = next_action;
  receipt = r.receipt;
}

-- `_map_provider_result`, by the status and the value of the result.
unfoldable pub map_status :
    ProviderCallStatus
    → Option DeliveryReceipt
    → ProviderCallResult
    → Result OutcomeError OutboundDeliveryResult
map_status confirmed none r = err confirmed_without_receipt
map_status confirmed (some v) r = construct (with_receipt sent none none none v r)
map_status queued none r = err queued_without_receipt
map_status queued (some v) r = construct (with_receipt queued none none none v r)
map_status partial none r = err partial_without_receipt
map_status partial (some v) r = construct (
    with_receipt partial (some (or_else r.error_kind "provider_partial")) r.error_message
      (some "do not retry the complete message automatically") v r)
map_status failed v r = construct (salvage failed "provider_failed" none r)
map_status unknown v r =
    construct
      (salvage unknown "provider_unknown" (some "reconcile channel delivery before retrying") r)

unfoldable pub map_provider_result : ProviderCallResult → Result OutcomeError OutboundDeliveryResult
map_provider_result r = map_status r.status r.value r

-- What `send` of the channel comes to: it returns, or it raises an `Exception`, of which the text
-- and the name of its type are used.
pub data SendOutcome : Type 0 where
  answered : ProviderCallResult → SendOutcome
  raised : (message type_name : String) → SendOutcome

-- `OutboundDeliveryService.deliver`
unfoldable pub deliver : SendOutcome → Result OutcomeError OutboundDeliveryResult
deliver (answered r) = map_provider_result r
deliver (raised message type_name) = construct (record {
  state = unknown;
  provider_message_id = none;
  provider_receipt_ref = none;
  provider_thread_id = none;
  error_kind = some "provider_unknown";
  error_message = some (or_else (some message) type_name);
  next_action = some "reconcile channel delivery before retrying";
  receipt = λ key. none;
})
