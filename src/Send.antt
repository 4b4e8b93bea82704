-- ===== src/Send.antt =====
-- bazaar_compute_node/core/orchestration/commands/messages.py with core/storage.py: how a message is
-- sent into the conversations that a target resolves to, once nobody has said anything new in any of
-- them. Audit and log are left out, and so are the checks of the store that its own targets always
-- pass. What the store says of the newest message of a thread is asked twice, in `look` and in
-- `last_look`; what other commands do wherever a send waits is `Others`. The channel is a parameter.
pub mod Deliver
pub mod Command
pub mod Staging
pub mod Fresh
mod Snapshots
pub mod Retry
mod Tests
use Prim.Native.String.{String, compare}
use text.Mathlib.Text
use bazaar_compute_node.Prelude.{
  ℕ, ◌+◌, Bool, true, false, not, ◌&&◌, ◌||◌, Option, none, some, is_none, List, [], ◌∷◌, length,
  ltb, leb, ◌==◌, if◌then◌else◌,
}
use bazaar_compute_node.Agent.{Actor, whole, thread}

-- `Review`
pub data Review : Type 0 where
  undecided approved denied : Review

-- `ResolvedInboxTarget`: of its session the review and the bot, the channel with its identity.
pub record Target : Type 0 where
  pub thread_id : String
  pub canonical_target : String
  pub display_target : String
  pub review : Review
  pub channel : String
  pub channel_identity : Option String

-- `MessageDraft`. Two drafts with the same fields are not the same object, which `object_id` tells.
pub record Draft : Type 0 where
  pub object_id : ℕ
  pub target : String
  pub target_id : String
  pub body : String
  pub attachments : List String
  pub reply_to_message_id : Option String
  pub created_at_ms : ℕ

-- `MessageSendFreshnessHold`, without the messages that it shows.
pub record Hold : Type 0 where
  pub target : String
  pub snapshot_seq : Option ℕ
  pub current_inbound_seq : ℕ
  pub draft_replaced : Bool

-- `OutboundFreshnessPass | MessageSendFreshnessHold`
pub data Freshness : Type 0 where
  passes : ℕ → Freshness
  holds : Hold → Freshness

-- `self._drafts` and `self._freshness_snapshots`, with the next number of an object.
pub record Commands : Type 0 where
  pub drafts : List String → Option Draft
  pub snapshots : String → Option ℕ
  pub next_object : ℕ

unfoldable pub is_seen : Option ℕ → ℕ → Bool
is_seen none current = false
is_seen (some seen) current = leb current seen

-- `check_outbound_freshness`
unfoldable pub check_outbound_freshness : Option ℕ → ℕ → String → Bool → Freshness
check_outbound_freshness snapshot current target replaced =
    if current == 0 || is_seen snapshot current
    then passes current
    else holds (record {
      target = target;
      snapshot_seq = snapshot;
      current_inbound_seq = current;
      draft_replaced = replaced;
    })

-- The newest sequence number that the caller has seen.
unfoldable pub newest : Option ℕ → ℕ → ℕ
newest none seq = seq
newest (some previous) seq = if ltb previous seq then seq else previous

-- `_observe_freshness`
unfoldable pub observe_freshness : String → ℕ → Commands → Commands
observe_freshness thread_id seq s = record s {
  snapshots =
      λ i. if Text.◌==◌ thread_id i then some (newest (s.snapshots i) seq) else s.snapshots i;
}

-- `_hold`
unfoldable pub hold_at : Target → Hold → Commands → Hold × Commands
hold_at t h s =
    (record h { target = t.display_target }, observe_freshness t.thread_id h.current_inbound_seq s)

-- `_require_in_reach`, and whether it lets pass.
unfoldable pub in_reach : Actor → String → Bool
in_reach (whole i) thread_id = true
in_reach (thread i) thread_id = Text.◌==◌ i thread_id

unfoldable pub is_approved : Review → Bool
is_approved undecided = false
is_approved approved = true
is_approved denied = false

unfoldable pub same_identity : Option String → Option String → Bool
same_identity none none = true
same_identity none (some j) = false
same_identity (some i) none = false
same_identity (some i) (some j) = Text.◌==◌ i j

-- Whether two targets are on one bot.
unfoldable pub same_bot : Target → Target → Bool
same_bot t u = Text.◌==◌ t.channel u.channel && same_identity t.channel_identity u.channel_identity

unfoldable pub has_bot : Target → List Target → Bool
has_bot t [] = false
has_bot t (u ∷ us) = same_bot t u || has_bot t us

-- `len(bots) != len(targets)`
unfoldable pub shares_bot : List Target → Bool
shares_bot [] = false
shares_bot (t ∷ ts) = has_bot t ts || shares_bot ts

-- The exceptions.
pub data SendError : Type 0 where
  draft_with_content empty_message not_in_reach not_approved ambiguous no_draft precedes_creation :
      SendError

-- The loop over the targets that refuses one.
unfoldable pub refusal : Actor → List Target → Option SendError
refusal actor [] = none
refusal actor (t ∷ ts) =
    if not (in_reach actor t.thread_id)
    then some not_in_reach
    else if not (is_approved t.review)
    then some not_approved
    else refusal actor ts

-- A text into a sorted list, and the sorted list.
unfoldable pub insert_key : String → List String → List String
insert_key k [] = k ∷ []
insert_key k (j ∷ js) =
    let rest = insert_key k js in if Text.is_le (compare k j) then k ∷ j ∷ js else j ∷ rest

unfoldable pub sorted : List String → List String
sorted [] = []
sorted (k ∷ ks) = insert_key k (sorted ks)

abbrev pub thread_ids : List Target → List String
thread_ids [] = []
thread_ids (t ∷ ts) = t.thread_id ∷ thread_ids ts

-- `draft_key`
abbrev pub draft_key : List Target → List String
draft_key ts = sorted (thread_ids ts)

unfoldable pub same_key : List String → List String → Bool
same_key [] [] = true
same_key [] (j ∷ js) = false
same_key (i ∷ is) [] = false
same_key (i ∷ is) (j ∷ js) = Text.◌==◌ i j && same_key is js

-- `self._drafts[key] = draft`, and `pop` with `none`.
unfoldable pub set_draft : List String → Option Draft → Commands → Commands
set_draft key o s = record s { drafts = λ k. if same_key key k then o else s.drafts k }
