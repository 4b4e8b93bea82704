-- ===== src/Delivery/Tests.antt =====
-- Deliveries on concrete answers of a channel.
use bazaar_compute_node.Prelude.{◌≡◌, refl, none, some}
use bazaar_compute_node.Prelude.Result.{ok}
use bazaar_compute_node.Delivery.{
  ProviderCallStatus, OutboundDeliveryState, ProviderCallResult, OutboundDeliveryResult,
  provider_error, provider_error_of, delivery_error, raise_or, construct, with_receipt, map_status,
  map_provider_result, answered, raised, deliver,
}
use bazaar_compute_node.Delivery.Laws.{
  expected_state, deliver-total, sent_confirmed, Named, unconfirmed-Named,
}

abbrev accepted : ProviderCallResult
accepted = record {
  status = ProviderCallStatus.confirmed;
  value = some (record {
    provider_message_id = some "42";
    provider_receipt_ref = none;
    provider_thread_id = none;
  });
  error_kind = none;
  error_message = none;
  receipt = λ key. none;
}

abbrev delivered : OutboundDeliveryResult
delivered = record {
  state = OutboundDeliveryState.sent;
  provider_message_id = some "42";
  provider_receipt_ref = none;
  provider_thread_id = none;
  error_kind = none;
  error_message = none;
  next_action = none;
  receipt = λ key. none;
}

abbrev lost : OutboundDeliveryResult
lost = record {
  state = OutboundDeliveryState.unknown;
  provider_message_id = none;
  provider_receipt_ref = none;
  provider_thread_id = none;
  error_kind = some "provider_unknown";
  error_message = some "TimeoutError";
  next_action = some "reconcile channel delivery before retrying";
  receipt = λ key. none;
}

deliver-accepted : deliver (answered accepted) ≡ ok delivered
unfolding deliver map_provider_result map_status construct raise_or delivery_error with_receipt
deliver-accepted = refl

deliver_raised : deliver (raised "" "TimeoutError") ≡ ok lost
unfolding deliver construct raise_or delivery_error
deliver_raised = refl

deliver-total_example :
    (d : OutboundDeliveryResult) × (deliver (answered accepted) ≡ ok d)
    × (d.state ≡ expected_state (answered accepted))
unfolding provider_error provider_error_of
deliver-total_example = deliver-total (answered accepted) refl

sent_confirmed_example :
    (r : ProviderCallResult) × (answered accepted ≡ answered r)
    × (r.status ≡ ProviderCallStatus.confirmed)
sent_confirmed_example = sent_confirmed (answered accepted) delivered deliver-accepted refl

unconfirmed-Named_example : Named lost.error_kind
unconfirmed-Named_example = unconfirmed-Named (raised "" "TimeoutError") lost deliver_raised refl
