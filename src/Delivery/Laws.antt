-- ===== src/Delivery/Laws.antt =====
-- The contract of a delivery: it always comes to a result, and nothing that was not confirmed is
-- reported as sent.
use Prim.Native.String.{String}
use bazaar_compute_node.Prelude.{
  ◌≡◌, ◌⊎◌, inl, inr, refl, sym, ◌∙◌, ap, arith, true, false, Option, none, some, Option-cases,
  Bool-cases,
}
use bazaar_compute_node.Prelude.Result.{ok}
use bazaar_compute_node.Delivery.{
  ProviderCallStatus, OutboundDeliveryState, OutcomeError, DeliveryReceipt, ProviderCallResult,
  OutboundDeliveryResult, provider_error, provider_error_of, delivery_error, raise_or, construct,
  salvage, with_receipt, map_status, map_provider_result, SendOutcome, answered, raised, deliver,
  is_empty, succeeded, or_else,
}

-- The channel answers with a result that its own constructor accepts.
abbrev pub Sound : SendOutcome → Type 0
Sound (answered r) = provider_error r ≡ none
Sound (raised message type_name) = Unit

-- The delivery state that a channel's answer stands for.
abbrev pub state_of : ProviderCallStatus → OutboundDeliveryState
state_of ProviderCallStatus.confirmed = OutboundDeliveryState.sent
state_of ProviderCallStatus.queued = OutboundDeliveryState.queued
state_of ProviderCallStatus.partial = OutboundDeliveryState.partial
state_of ProviderCallStatus.failed = OutboundDeliveryState.failed
state_of ProviderCallStatus.unknown = OutboundDeliveryState.unknown

abbrev pub expected_state : SendOutcome → OutboundDeliveryState
expected_state (answered r) = state_of r.status
expected_state (raised message type_name) = OutboundDeliveryState.unknown

value_there :
    (st : ProviderCallStatus) (r : ProviderCallResult)
    → succeeded (state_of st) ≡ true ⊎ (st ≡ ProviderCallStatus.partial)
    → provider_error_of st r ≡ none
    → (v : DeliveryReceipt) × (r.value ≡ some v)
unfolding provider_error_of
value_there st r k h = elim (Option-cases r.value) [
  | inr there ↦ there
  | inl missing ↦ ground (arith, missing)
]

map_status-total :
    (st : ProviderCallStatus) (r : ProviderCallResult)
    → provider_error_of st r ≡ none
    → (d : OutboundDeliveryResult) × (map_status st r.value r ≡ ok d) × (d.state ≡ state_of st)
unfolding map_status construct raise_or delivery_error with_receipt salvage
map_status-total ProviderCallStatus.confirmed r h =
    let (v, there) = value_there ProviderCallStatus.confirmed r (inl refl) h in
    (_, ap (λ o. map_status ProviderCallStatus.confirmed o r) there, refl)
map_status-total ProviderCallStatus.queued r h =
    let (v, there) = value_there ProviderCallStatus.queued r (inl refl) h in
    (_, ap (λ o. map_status ProviderCallStatus.queued o r) there, refl)
map_status-total ProviderCallStatus.partial r h =
    let (v, there) = value_there ProviderCallStatus.partial r (inr refl) h in
    (_, ap (λ o. map_status ProviderCallStatus.partial o r) there, refl)
map_status-total ProviderCallStatus.failed r h = (_, refl, refl)
map_status-total ProviderCallStatus.unknown r h = (_, refl, refl)

-- Where the channel raises, or returns a result that the constructor of such results accepts,
-- `deliver` comes to a delivery result, in the state that the channel's answer stands for.
pub deliver-total :
    (o : SendOutcome)
    → Sound o
    → (d : OutboundDeliveryResult) × (deliver o ≡ ok d) × (d.state ≡ expected_state o)
unfolding deliver map_provider_result provider_error construct raise_or delivery_error
deliver-total (answered r) h = map_status-total r.status r h
deliver-total (raised message type_name) h = (_, refl, refl)

-- Soundness of one construction.
construct_ok :
    {r d : OutboundDeliveryResult} → construct r ≡ ok d → (delivery_error r ≡ none) × (r ≡ d)
unfolding construct
construct_ok {r} {d} h = go (delivery_error r) h
  where
    go : (e : Option OutcomeError) → raise_or e r ≡ ok d → (e ≡ none) × (r ≡ d)
    go none h = (refl, unfold raise_or in cc)
    go (some x) h = absurd (unfold raise_or in cc)

-- The status of a provider result that was mapped to a delivery result.
map_status-state :
    (st : ProviderCallStatus) (o : Option DeliveryReceipt) (r : ProviderCallResult)
    (d : OutboundDeliveryResult)
    → map_status st o r ≡ ok d
    → d.state ≡ state_of st
unfolding map_status construct raise_or delivery_error with_receipt salvage
map_status-state ProviderCallStatus.confirmed none r d h = absurd (cc h)
map_status-state ProviderCallStatus.confirmed (some v) r d h = cc h
map_status-state ProviderCallStatus.queued none r d h = absurd (cc h)
map_status-state ProviderCallStatus.queued (some v) r d h = cc h
map_status-state ProviderCallStatus.partial none r d h = absurd (cc h)
map_status-state ProviderCallStatus.partial (some v) r d h = cc h
map_status-state ProviderCallStatus.failed o r d h = cc h
map_status-state ProviderCallStatus.unknown o r d h = cc h

state_sent :
    (st : ProviderCallStatus)
    → state_of st ≡ OutboundDeliveryState.sent
    → st ≡ ProviderCallStatus.confirmed
state_sent ProviderCallStatus.confirmed h = refl
state_sent ProviderCallStatus.queued h = absurd (cc h)
state_sent ProviderCallStatus.partial h = absurd (cc h)
state_sent ProviderCallStatus.failed h = absurd (cc h)
state_sent ProviderCallStatus.unknown h = absurd (cc h)

-- A delivery is reported as sent only where the channel returned a confirmed result.
pub sent_confirmed :
    (o : SendOutcome) (d : OutboundDeliveryResult)
    → deliver o ≡ ok d
    → d.state ≡ OutboundDeliveryState.sent
    → (r : ProviderCallResult) × (o ≡ answered r) × (r.status ≡ ProviderCallStatus.confirmed)
unfolding deliver map_provider_result construct raise_or delivery_error
sent_confirmed (answered r) d h s =
    (r, refl, state_sent r.status (sym (map_status-state r.status r.value r d h) ∙ s))
sent_confirmed (raised message type_name) d h s = absurd (cc (h, s))

-- A string that is there and not empty.
abbrev pub Named : Option String → Type 0
Named none = ⊥
Named (some s) = is_empty s ≡ false

or_else-Named : (o : Option String) (d : String) → is_empty d ≡ false → Named (some (or_else o d))
or_else-Named none d h = h
or_else-Named (some s) d h = elim (Bool-cases (is_empty s)) [
  | inl yes_ ↦ rw yes_ h
  | inr no_ ↦ rw no_ no_
]

map_status-kind :
    (st : ProviderCallStatus) (o : Option DeliveryReceipt) (r : ProviderCallResult)
    (d : OutboundDeliveryResult)
    → map_status st o r ≡ ok d
    → succeeded d.state ≡ false
    → Named d.error_kind
unfolding map_status with_receipt salvage
map_status-kind ProviderCallStatus.confirmed none r d h s = absurd (cc h)
map_status-kind ProviderCallStatus.confirmed (some v) r d h s =
    absurd (cc (rw (← (construct_ok h).1) at s))
map_status-kind ProviderCallStatus.queued none r d h s = absurd (cc h)
map_status-kind ProviderCallStatus.queued (some v) r d h s =
    absurd (cc (rw (← (construct_ok h).1) at s))
map_status-kind ProviderCallStatus.partial none r d h s = absurd (cc h)
map_status-kind ProviderCallStatus.partial (some v) r d h s =
    rw (← (construct_ok h).1) (or_else-Named r.error_kind "provider_partial" refl)
map_status-kind ProviderCallStatus.failed o r d h s =
    rw (← (construct_ok h).1) (or_else-Named r.error_kind "provider_failed" refl)
map_status-kind ProviderCallStatus.unknown o r d h s =
    rw (← (construct_ok h).1) (or_else-Named r.error_kind "provider_unknown" refl)

-- A delivery that neither went through nor was queued names the kind of its error.
pub unconfirmed-Named :
    (o : SendOutcome) (d : OutboundDeliveryResult)
    → deliver o ≡ ok d
    → succeeded d.state ≡ false
    → Named d.error_kind
unfolding deliver map_provider_result
unconfirmed-Named (answered r) d h s = map_status-kind r.status r.value r d h s
unconfirmed-Named (raised message type_name) d h s = rw (← (construct_ok h).1) refl
