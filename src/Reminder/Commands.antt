-- ===== src/Reminder/Commands.antt =====
-- The transitions of a reminder as one type of commands, and when each is allowed.
use Prim.Native.String.{String}
use bazaar_compute_node.Prelude.{ℕ, ◌+◌, ◌≤◌, ◌<◌, ◌≡◌, ◌≢◌, Option, none, some}
use bazaar_compute_node.Prelude.Result.{Result}
use bazaar_compute_node.Reminder.{
  Reminder, scheduled, fired, canceled, ReminderError, snooze, update_title, update_next_fire,
  update_cadence, cancel, record_fire,
}
use bazaar_compute_node.Reminder.Laws.{IsValid}

pub data Command : Type 0 where
  snoozes : (duration_ms at_ms : ℕ) → Command
  retitles : (title : String) → (at_ms : ℕ) → Command
  reschedules : (next_fire_at_ms at_ms : ℕ) → Command
  repeats : (repeat_rule : String) → (at_ms : ℕ) → Command
  cancels : (at_ms : ℕ) → Command
  fires : (scheduled_for_ms fired_at_ms : ℕ) → (next : Option ℕ) → Command

-- The call that a command stands for.
unfoldable pub apply : Command → Reminder → Result ReminderError Reminder
apply (snoozes d t) r = snooze d t r
apply (retitles title t) r = update_title title t r
apply (reschedules n t) r = update_next_fire n t r
apply (repeats rule t) r = update_cadence rule t r
apply (cancels t) r = cancel t r
apply (fires slot t next) r = record_fire slot t next r

abbrev pub time_of : Command → ℕ
time_of (snoozes d t) = t
time_of (retitles title t) = t
time_of (reschedules n t) = t
time_of (repeats rule t) = t
time_of (cancels t) = t
time_of (fires slot t next) = t

-- The next slot that a firing may leave: a later one if the reminder repeats, else none.
abbrev pub NextSlot : ℕ → Option String → Option ℕ → Type 0
NextSlot slot none none = Unit
NextSlot slot none (some n) = ⊥
NextSlot slot (some rule) none = ⊥
NextSlot slot (some rule) (some n) = slot < n

abbrev pub Allowed : Command → Reminder → Type 0
Allowed (snoozes d t) r = r.state ≢ canceled
Allowed (retitles title t) r = r.state ≡ scheduled
Allowed (reschedules n t) r = (r.state ≡ scheduled) × (t < n)
Allowed (repeats rule t) r = r.state ≡ scheduled
Allowed (cancels t) r = r.state ≡ scheduled
Allowed (fires slot t next) r =
    (r.state ≡ scheduled)
    × (r.next_fire_at_ms ≡ some slot)
    × (slot ≤ t)
    × NextSlot slot r.repeat_rule next

-- The occurrences that a command adds.
abbrev pub fire_count : Command → ℕ
fire_count (snoozes d t) = 0
fire_count (retitles title t) = 0
fire_count (reschedules n t) = 0
fire_count (repeats rule t) = 0
fire_count (cancels t) = 0
fire_count (fires slot t next) = 1

-- The rule after a command.
abbrev pub rule_of : Command → Reminder → Option String
rule_of (snoozes d t) r = r.repeat_rule
rule_of (retitles title t) r = r.repeat_rule
rule_of (reschedules n t) r = r.repeat_rule
rule_of (repeats rule t) r = some rule
rule_of (cancels t) r = r.repeat_rule
rule_of (fires slot t next) r = r.repeat_rule

-- The time of the last firing after a command.
abbrev pub last_fire : Command → Reminder → Option ℕ
last_fire (snoozes d t) r = r.last_fired_at_ms
last_fire (retitles title t) r = r.last_fired_at_ms
last_fire (reschedules n t) r = r.last_fired_at_ms
last_fire (repeats rule t) r = r.last_fired_at_ms
last_fire (cancels t) r = r.last_fired_at_ms
last_fire (fires slot t next) r = some t

-- The state and the next slot after a command that is allowed.
abbrev pub Lands : Command → Reminder → Reminder → Type 0
Lands (snoozes d t) r s =
    (s.state ≡ scheduled)
    × ((base : ℕ)
        → r.next_fire_at_ms ≡ some base
        → r.state ≡ scheduled
        → s.next_fire_at_ms ≡ some (base + d))
    × (r.state ≡ fired → s.next_fire_at_ms ≡ some (t + d))
Lands (retitles title t) r s =
    (s.state ≡ scheduled) × (s.next_fire_at_ms ≡ r.next_fire_at_ms) × (s.title ≡ title)
Lands (reschedules n t) r s = (s.state ≡ scheduled) × (s.next_fire_at_ms ≡ some n)
Lands (repeats rule t) r s =
    (s.state ≡ scheduled) × (s.next_fire_at_ms ≡ r.next_fire_at_ms) × (s.repeat_rule ≡ some rule)
Lands (cancels t) r s = (s.state ≡ canceled) × (s.canceled_at_ms ≡ some t)
Lands (fires slot t next) r s =
    (s.next_fire_at_ms ≡ next)
    × (s.last_fired_at_ms ≡ some t)
    × (r.repeat_rule ≡ none → s.state ≡ fired)
    × (r.repeat_rule ≢ none → s.state ≡ scheduled)

-- What a command makes of a reminder.
pub record Follows (c : Command) (r s : Reminder) : Type 0 where
  pub valid : IsValid s
  pub lands : Lands c r s
  pub revised : s.revision ≡ r.revision + 1
  pub stamped : s.updated_at_ms ≡ time_of c
  pub counted : s.last_occurrence_no ≡ r.last_occurrence_no + fire_count c
  pub same_id : s.reminder_id ≡ r.reminder_id
  pub same_owner : s.owner_thread_id ≡ r.owner_thread_id
  pub same_anchor : s.anchor_message_id ≡ r.anchor_message_id
  pub same_created : s.created_at_ms ≡ r.created_at_ms
  pub same_timezone : s.timezone ≡ r.timezone
  pub last_fired : s.last_fired_at_ms ≡ last_fire c r
  pub rule : s.repeat_rule ≡ rule_of c r
