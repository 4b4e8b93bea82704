-- ===== src/Reminder.antt =====
-- bazaar_compute_node/core/models/reminder.py: `Reminder` and its transitions, with `ReminderState`
-- of core/models/states.py. Times are in milliseconds, from the epoch on. `replace` builds a new
-- object, so that `__post_init__` checks the outcome of every transition.
pub mod Laws
mod Tests
pub mod Commands
pub mod Steps
pub mod Render
pub mod Progress
pub mod History
use Prim.Native.String.{String}
use bazaar_compute_node.Prelude.{
  ℕ, ◌+◌, Bool, true, false, not, ◌&&◌, Option, none, some, is_none, is_some, ltb, leb, ◌==◌,
  if◌then◌else◌,
}
use bazaar_compute_node.Prelude.Result.{Result, ok, err}

pub data ReminderState : Type 0 where
  scheduled fired canceled : ReminderState

abbrev pub is_scheduled : ReminderState → Bool
is_scheduled scheduled = true
is_scheduled fired = false
is_scheduled canceled = false

abbrev pub is_canceled : ReminderState → Bool
is_canceled scheduled = false
is_canceled fired = false
is_canceled canceled = true

-- The `ValueError`s, by message, and the one `AssertionError`.
pub data ReminderError : Type 0 where
  updated_before_created last_fired_ahead canceled_ahead : ReminderError
  scheduled_without_next scheduled_with_canceled : ReminderError
  fired_with_next fired_recurring fired_without_last fired_with_canceled : ReminderError
  canceled_with_next canceled_without_time : ReminderError
  history_mismatch revision_behind : ReminderError
  moved_backwards snooze_canceled no_next_fire not_scheduled not_in_future : ReminderError
  wrong_slot fired_early one_time_with_next recurring_without_next next_not_later : ReminderError

pub record Reminder : Type 0 where
  pub reminder_id : String
  pub owner_thread_id : String
  pub anchor_message_id : String
  pub title : String
  pub state : ReminderState
  pub next_fire_at_ms : Option ℕ
  pub repeat_rule : Option String
  pub timezone : String
  pub revision : ℕ
  pub last_occurrence_no : ℕ
  pub created_at_ms : ℕ
  pub updated_at_ms : ℕ
  pub last_fired_at_ms : Option ℕ
  pub canceled_at_ms : Option ℕ

-- `value is not None and value > limit`
abbrev pub exceeds : Option ℕ → ℕ → Bool
exceeds none limit = false
exceeds (some v) limit = ltb limit v

-- The branches of `__post_init__` on the state: the error that each raises.
unfoldable pub shape_error : ReminderState → Reminder → Option ReminderError
shape_error scheduled r =
    if is_none r.next_fire_at_ms
    then some scheduled_without_next
    else if is_some r.canceled_at_ms
    then some scheduled_with_canceled
    else none
shape_error fired r =
    if is_some r.next_fire_at_ms
    then some fired_with_next
    else if is_some r.repeat_rule
    then some fired_recurring
    else if is_none r.last_fired_at_ms
    then some fired_without_last
    else if is_some r.canceled_at_ms
    then some fired_with_canceled
    else none
shape_error canceled r =
    if is_some r.next_fire_at_ms
    then some canceled_with_next
    else if is_none r.canceled_at_ms
    then some canceled_without_time
    else none

-- `a != b`
abbrev pub differ : Bool → Bool → Bool
differ true b = not b
differ false b = b

unfoldable pub history_error : Reminder → Option ReminderError
history_error r =
    if differ (r.last_occurrence_no == 0) (is_none r.last_fired_at_ms)
    then some history_mismatch
    else if ltb r.revision (r.last_occurrence_no + 1)
    then some revision_behind
    else none

unfoldable pub first_error : Option ReminderError → Option ReminderError → Option ReminderError
first_error none e = e
first_error (some e) f = some e

-- The error of `__post_init__`, if it raises one.
unfoldable pub post_init_error : Reminder → Option ReminderError
post_init_error r =
    if ltb r.updated_at_ms r.created_at_ms
    then some updated_before_created
    else if exceeds r.last_fired_at_ms r.updated_at_ms
    then some last_fired_ahead
    else if exceeds r.canceled_at_ms r.updated_at_ms
    then some canceled_ahead
    else first_error (shape_error r.state r) (history_error r)

unfoldable pub raise_or : Option ReminderError → Reminder → Result ReminderError Reminder
raise_or none r = ok r
raise_or (some e) r = err e

-- `Reminder(...)`, and `replace(self, ...)`.
unfoldable pub construct : Reminder → Result ReminderError Reminder
construct r = raise_or (post_init_error r) r

-- `_validate_transition_time`, before what its caller goes on with.
abbrev pub in_order : ℕ → ℕ → Result ReminderError Reminder → Result ReminderError Reminder
in_order current incoming next = if ltb incoming current then err moved_backwards else next

-- `_require_scheduled`, before what its caller goes on with.
abbrev pub require_scheduled :
    Reminder → Result ReminderError Reminder → Result ReminderError Reminder
require_scheduled r next = if not (is_scheduled r.state) then err not_scheduled else next

-- `snooze` past its guards, from the base time.
unfoldable pub snooze_from : Option ℕ → ℕ → ℕ → Reminder → Result ReminderError Reminder
snooze_from none duration_ms at_ms r = err no_next_fire
snooze_from (some base_ms) duration_ms at_ms r = construct (record r {
  state = scheduled;
  next_fire_at_ms = some (base_ms + duration_ms);
  revision = r.revision + 1;
  updated_at_ms = at_ms;
  canceled_at_ms = none;
})

unfoldable pub snooze : ℕ → ℕ → Reminder → Result ReminderError Reminder
snooze duration_ms at_ms r = in_order r.updated_at_ms at_ms (
    if is_canceled r.state
    then err snooze_canceled
    else snooze_from (if is_scheduled r.state then r.next_fire_at_ms else some at_ms) duration_ms
        at_ms r)

unfoldable pub update_title : String → ℕ → Reminder → Result ReminderError Reminder
update_title title at_ms r = require_scheduled r (
    in_order r.updated_at_ms at_ms
      (construct (record r { title = title; revision = r.revision + 1; updated_at_ms = at_ms })))

unfoldable pub update_next_fire : ℕ → ℕ → Reminder → Result ReminderError Reminder
update_next_fire next_fire_at_ms at_ms r = require_scheduled r (
    in_order r.updated_at_ms at_ms (
      if leb next_fire_at_ms at_ms
      then err not_in_future
      else construct (record r {
        next_fire_at_ms = some next_fire_at_ms;
        revision = r.revision + 1;
        updated_at_ms = at_ms;
      })))

unfoldable pub update_cadence : String → ℕ → Reminder → Result ReminderError Reminder
update_cadence repeat_rule at_ms r = require_scheduled r (
    in_order r.updated_at_ms at_ms (
      construct (record r {
        repeat_rule = some repeat_rule;
        revision = r.revision + 1;
        updated_at_ms = at_ms;
      })))

unfoldable pub cancel : ℕ → Reminder → Result ReminderError Reminder
cancel at_ms r = require_scheduled r (
    in_order r.updated_at_ms at_ms (
      construct (record r {
        state = canceled;
        next_fire_at_ms = none;
        revision = r.revision + 1;
        updated_at_ms = at_ms;
        canceled_at_ms = some at_ms;
      })))

-- The target state of `record_fire`, by the rule and the next fire time that are given.
unfoldable pub fire_target : ℕ → Option String → Option ℕ → Result ReminderError ReminderState
fire_target slot none none = ok fired
fire_target slot none (some next) = err one_time_with_next
fire_target slot (some rule) none = err recurring_without_next
fire_target slot (some rule) (some next) =
    if leb next slot then err next_not_later else ok scheduled

-- The `replace` of `record_fire`.
unfoldable pub fire_into :
    Result ReminderError ReminderState → ℕ → Option ℕ → Reminder → Result ReminderError Reminder
fire_into (err e) fired_at_ms next r = err e
fire_into (ok target) fired_at_ms next r = construct (record r {
  state = target;
  next_fire_at_ms = next;
  revision = r.revision + 1;
  last_occurrence_no = r.last_occurrence_no + 1;
  updated_at_ms = fired_at_ms;
  last_fired_at_ms = some fired_at_ms;
})

-- `scheduled_for_ms != self.next_fire_at_ms`
abbrev pub other_slot : ℕ → Option ℕ → Bool
other_slot slot none = true
other_slot slot (some next) = not (slot == next)

unfoldable pub record_fire : ℕ → ℕ → Option ℕ → Reminder → Result ReminderError Reminder
record_fire scheduled_for_ms fired_at_ms next r = require_scheduled r (
    in_order r.updated_at_ms fired_at_ms (
      if other_slot scheduled_for_ms r.next_fire_at_ms
      then err wrong_slot
      else if ltb fired_at_ms scheduled_for_ms
      then err fired_early
      else fire_into (fire_target scheduled_for_ms r.repeat_rule next) fired_at_ms next r))
