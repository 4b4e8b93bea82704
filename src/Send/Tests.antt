-- ===== src/Send/Tests.antt =====
-- A message for one person on two bots, who has said something that the agent has not seen.
use Prim.Native.String.{String}
use bazaar_compute_node.Prelude.{
  ℕ, ◌≤◌, ◌≡◌, refl, ap, some_inj, arith, ◌⊎◌, true, false, none, some, List, [], ◌∷◌,
}
use bazaar_compute_node.Agent.{whole}
use bazaar_compute_node.Delivery.{OutboundDeliveryResult, sent}
use bazaar_compute_node.Markdown.{lstrip, rstrip, is_space}
use bazaar_compute_node.Send.{
  Target, Commands, approved, check_outbound_freshness, is_seen, observe_freshness, hold_at,
  in_reach, is_approved, same_bot, has_bot, shares_bot, refusal, insert_key, sorted, set_draft,
  Hold, Draft, draft_key, same_key,
}
use bazaar_compute_node.Send.Deliver.{Outbound, Traffic}
use bazaar_compute_node.Send.Command.{
  Request, request_error, find_draft, new_draft, Others, stage_one, stage_all, named_as_called,
  held, after_stage, send_draft_of, or_refused, send,
}
use bazaar_compute_node.Send.Staging.{Every, none_left, and_next}
use bazaar_compute_node.Send.Fresh.{Quiet, Goes, send-Goes}
use bazaar_compute_node.Send.Retry.{Delivers, held_then_delivered}
use bazaar_compute_node.Send.Snapshots.{Kind}

abbrev on_bot : String → String → Target
on_bot thread_id channel = record {
  thread_id = thread_id;
  canonical_target = "dm:x";
  display_target = "dm:@ada";
  review = approved;
  channel = channel;
  channel_identity = none;
}

abbrev both : List Target
both = on_bot "b" "telegram" ∷ on_bot "a" "lark" ∷ []

abbrev hello : Request
hello = record {
  body = "hello";
  attachments = [];
  reply_to_message_id = none;
  created_at_ms = 1;
  send_draft = false;
}

abbrev the_draft : Request
the_draft = record {
  body = "";
  attachments = [];
  reply_to_message_id = none;
  created_at_ms = 2;
  send_draft = true;
}

abbrev empty_commands : Commands
empty_commands = record { drafts = λ k. none; snapshots = λ i. none; next_object = 0 }

abbrev no_traffic : Traffic
no_traffic = record { given = []; saved = [] }

-- A message stands in both conversations.
abbrev five : String → ℕ
five thread_id = 5

-- No other command does anything.
abbrev nobody : Others
nobody = record { before_look = λ i s. s; before_delivery = λ s. s; during_delivery = λ s. s }

nobody-Kind : (key : List String) → Kind nobody key
nobody-Kind key = record { covers = λ i s j n seen. seen; keeps = λ i s. refl }

abbrev takes_all : Outbound → OutboundDeliveryResult
takes_all m = record {
  state = sent;
  provider_message_id = some "p";
  provider_receipt_ref = none;
  provider_thread_id = none;
  error_kind = none;
  error_message = none;
  next_action = none;
  receipt = λ k. none;
}

abbrev first_hold_shown : Hold
first_hold_shown = record {
  target = "dm:@ada";
  snapshot_seq = none;
  current_inbound_seq = 5;
  draft_replaced = false;
}

hello_held :
    (send takes_all 9 five five nobody
      (whole "g")
      "dm:@ada"
      hello
      both
      empty_commands
      no_traffic).outcome
    ≡ held first_hold_shown
unfolding send or_refused request_error lstrip rstrip is_space refusal in_reach is_approved
    shares_bot has_bot same_bot send_draft_of find_draft stage_all stage_one
    check_outbound_freshness is_seen hold_at after_stage named_as_called sorted insert_key set_draft
    observe_freshness
hello_held = refl

-- Nothing has been given to the channel, and the draft is kept for the next attempt.
hello_quiet :
    (send takes_all 9 five five nobody
      (whole "g")
      "dm:@ada"
      hello
      both
      empty_commands
      no_traffic).traffic
    ≡ no_traffic
unfolding send or_refused request_error lstrip rstrip is_space refusal in_reach is_approved
    shares_bot has_bot same_bot send_draft_of find_draft stage_all stage_one
    check_outbound_freshness is_seen hold_at after_stage named_as_called sorted insert_key set_draft
    observe_freshness
hello_quiet = refl

send-Goes_example :
    Quiet no_traffic
      (send takes_all 9 five five nobody (whole "g") "dm:@ada" hello both empty_commands no_traffic)
    ⊎ Goes five nobody (whole "g") 9 five hello both empty_commands no_traffic (
        send takes_all 9 five five nobody
          (whole "g")
          "dm:@ada"
          hello
          both
          empty_commands
          no_traffic)
send-Goes_example =
    send-Goes takes_all 9 five five nobody (whole "g") "dm:@ada" hello both empty_commands
      no_traffic

-- What the first attempt leaves.
abbrev left : Commands
left =
    (send takes_all 9 five five nobody (whole "g") "dm:@ada" hello both empty_commands
      no_traffic).commands

created_before : (d : Draft) → left.drafts (draft_key both) ≡ some d → d.created_at_ms ≤ 12
unfolding send or_refused request_error lstrip rstrip is_space refusal in_reach is_approved
    shares_bot has_bot same_bot send_draft_of find_draft new_draft stage_all stage_one
    check_outbound_freshness is_seen hold_at after_stage sorted insert_key set_draft
    observe_freshness same_key
created_before d h = omega (arith, ap (λ (x : Draft). x.created_at_ms) (some_inj h))

held_then_delivered_example :
    (d : Draft) × (left.drafts (draft_key both) ≡ some d)
    × Delivers takes_all 12 five five
        (whole "g")
        "dm:@ada"
        both
        d
        no_traffic
        (send takes_all 12 five five nobody (whole "g") "dm:@ada" the_draft both left no_traffic)
held_then_delivered_example =
    held_then_delivered takes_all 9 12 five five (whole "g") "dm:@ada" both nobody nobody hello
      the_draft empty_commands left no_traffic no_traffic first_hold_shown
      (nobody-Kind (draft_key both)) (nobody-Kind (draft_key both)) all_still hello_held
      (λ i n seen. seen) refl created_before refl draft_valid
  where
    all_still : Every (λ t. five t.thread_id ≤ five t.thread_id) both
    all_still = and_next (omega arith) (and_next (omega arith) none_left)

    draft_valid : request_error the_draft ≡ none
    draft_valid = unfold request_error in refl
