-- ===== src/Scheduler/Laws.antt =====
-- What one materialisation can come to, and what it needs of the store.
use Prim.Native.String.{String}
use bazaar_compute_node.Prelude.{ℕ, ◌≤◌, ◌<◌, ◌≡◌, ◌≢◌, false, Option, none, some, List, [], ◌∷◌}
use bazaar_compute_node.Prelude.Result.{Result, ok, err}
use bazaar_compute_node.Reminder.{Reminder, ReminderError, scheduled, cancel, record_fire}
use bazaar_compute_node.Prelude.Texts.{is_blank}
use bazaar_compute_node.Reminder.Render.{RenderError, render_reminder_fire_body}
use bazaar_compute_node.Scheduler.{
  OwnedReminder, Key, key_of, Anchor, SystemMessage, Store, Env, update_row, Outcome, recurrence,
  FireError, reminder_raises, render_raises, save_raises, SystemError, system_error, add_message,
  message_with,
}

-- A row stands under the key that its own fields make.
abbrev pub Keyed : Store → Type 0
Keyed s =
    (k : Key) (r : Reminder)
    → s.reminders k ≡ some r
    → (r.owner_thread_id ≡ k.owner_thread_id) × (r.reminder_id ≡ k.reminder_id)

-- The snapshot is what the store still holds, and its slot has come.
pub record Due (snapshot : OwnedReminder) (now : ℕ) (s : Store) (current : Reminder) (slot : ℕ)
    : Type 0 where
  pub row : s.reminders (key_of snapshot) ≡ some current
  pub state : current.state ≡ scheduled
  pub revision : current.revision ≡ snapshot.reminder.revision
  pub same_slot : snapshot.reminder.next_fire_at_ms ≡ some slot
  pub at_slot : current.next_fire_at_ms ≡ some slot
  pub come : slot ≤ now

-- Why a due reminder is canceled and not fired: its rule gives no next time, or its anchor is gone.
pub data Unusable (env : Env) (snapshot : OwnedReminder) (now : ℕ) (s : Store) (current : Reminder)
    (slot : ℕ) : Type 0 where
  bad_rule :
      recurrence env slot current.repeat_rule current.timezone ≡ none
      → Unusable env snapshot now s current slot
  lost_anchor :
      (next : Option ℕ) (rung : Reminder)
      → recurrence env slot current.repeat_rule current.timezone ≡ some next
      → record_fire slot now next current ≡ ok rung
      → s.inbound snapshot.agent_id current.owner_thread_id current.anchor_message_id ≡ none
      → Unusable env snapshot now s current slot

-- A due reminder that fires as `rung`, at its anchor.
pub record Fires (env : Env) (snapshot : OwnedReminder) (now : ℕ) (s : Store) (current : Reminder)
    (slot : ℕ) (next : Option ℕ) (rung : Reminder) (anchor : Anchor) : Type 0 where
  pub recurs : recurrence env slot current.repeat_rule current.timezone ≡ some next
  pub fire : record_fire slot now next current ≡ ok rung
  pub there :
      s.inbound snapshot.agent_id current.owner_thread_id current.anchor_message_id ≡ some anchor

-- The text of its message.
abbrev pub text_of : Env → Reminder → Anchor → Option ℕ → Result RenderError String
text_of env rung anchor next =
    render_reminder_fire_body env.dumps env.format_utc_timestamp rung anchor.target next

-- Why a materialisation raises.
pub data Fails (env : Env) (snapshot : OwnedReminder) (now : ℕ) (s : Store) (current : Reminder)
    (slot : ℕ) : FireError → Type 0 where
  cannot_cancel :
      (e : ReminderError)
      → Unusable env snapshot now s current slot
      → cancel now current ≡ err e
      → Fails env snapshot now s current slot (reminder_raises e)
  cannot_fire :
      (e : ReminderError) (next : Option ℕ)
      → recurrence env slot current.repeat_rule current.timezone ≡ some next
      → record_fire slot now next current ≡ err e
      → Fails env snapshot now s current slot (reminder_raises e)
  cannot_render :
      (e : RenderError) (next : Option ℕ) (rung : Reminder) (anchor : Anchor)
      → Fires env snapshot now s current slot next rung anchor
      → text_of env rung anchor next ≡ err e
      → Fails env snapshot now s current slot (render_raises e)
  cannot_save :
      (e : SystemError) (next : Option ℕ) (rung : Reminder) (anchor : Anchor) (body : String)
      → Fires env snapshot now s current slot next rung anchor
      → text_of env rung anchor next ≡ ok body
      → system_error
          (s.bindings snapshot.agent_id current.owner_thread_id)
          (s.message_ids env.new_id)
          (message_with env snapshot.agent_id current anchor now body)
        ≡ some e
      → Fails env snapshot now s current slot (save_raises e)

-- The four ends of a materialisation.
pub data Ends (env : Env) (snapshot : OwnedReminder) (now : ℕ) (s : Store) : Outcome → Type 0 where
  skips :
      ((current : Reminder) (slot : ℕ) → ¬ Due snapshot now s current slot)
      → Ends env snapshot now s (ok none, s)
  raises :
      {current : Reminder} {slot : ℕ} (e : FireError)
      → Due snapshot now s current slot
      → Fails env snapshot now s current slot e
      → Ends env snapshot now s (err e, s)
  retires :
      {current over : Reminder} {slot : ℕ}
      → Due snapshot now s current slot
      → Unusable env snapshot now s current slot
      → cancel now current ≡ ok over
      → Ends env snapshot now s (ok none, update_row (key_of snapshot) over s)
  materializes :
      {current rung : Reminder} {slot : ℕ} (next : Option ℕ) (anchor : Anchor) (body : String)
      → Due snapshot now s current slot
      → Fires env snapshot now s current slot next rung anchor
      → text_of env rung anchor next ≡ ok body
      → Ends env snapshot now s (
        ok (some (message_with env snapshot.agent_id current anchor now body)),
        add_message
            (message_with env snapshot.agent_id current anchor now body)
            (update_row (key_of snapshot) rung s),
      )

-- The store takes the message of a reminder at its anchor: the anchor names a target and stands in
-- the session that its thread is bound to, and the new id is not in use.
pub record Accepts (env : Env) (agent_id thread_id : String) (anchor : Anchor) (s : Store)
    : Type 0 where
  pub has_target : is_blank (some anchor.target) ≡ false
  pub bound : s.bindings agent_id thread_id ≡ some anchor.binding
  pub fresh : s.message_ids env.new_id ≡ false

-- The snapshot is not what the store still holds, or its slot has not come.
abbrev pub NotDue : OwnedReminder → ℕ → Store → Type 0
NotDue snapshot now s = (current : Reminder) (slot : ℕ) → ¬ Due snapshot now s current slot

-- The messages that an outcome stands for.
abbrev pub sent : Result FireError (Option SystemMessage) → List SystemMessage
sent (ok (some m)) = m ∷ []
sent (ok none) = []
sent (err e) = []

-- The recurrence of a reminder, where there is one, comes after its slot.
abbrev pub Recurs : Env → Reminder → ℕ → Type 0
Recurs env current slot =
    (rule : String) (n : ℕ)
    → current.repeat_rule ≡ some rule
    → env.next_recurrence_ms slot rule current.timezone ≡ some n
    → slot < n

-- The next time can be written.
abbrev pub Formats : Env → Option ℕ → Type 0
Formats env none = Unit
Formats env (some n) = env.format_utc_timestamp n ≢ none

-- What the batch leaves of a due reminder: no longer the same slot.
abbrev pub Moved : Store → Key → ℕ → Type 0
Moved s k slot =
    (r : Reminder) × (s.reminders k ≡ some r)
    × ¬ ((r.state ≡ scheduled) × (r.next_fire_at_ms ≡ some slot))
