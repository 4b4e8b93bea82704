-- ===== src/Scheduler/Calendar.antt =====
-- The scheduler with the recurrence of core/reminder_schedule.py: no hypothesis on it is left.
mod Tests
use Prim.Native.String.{String}
use bazaar_compute_node.Prelude.{
  ℕ, ◌≤◌, ◌<◌, ◌≡◌, refl, List, [], ◌∷◌, Option, none, some, some_inj,
}
use bazaar_compute_node.Prelude.Texts.{codes}
use bazaar_compute_node.Prelude.Result.{Result, ok, err}
use bazaar_compute_node.Reminder.{Reminder}
use bazaar_compute_node.Reminder.Laws.{IsValid}
use bazaar_compute_node.Schedule.{Chars, ScheduleError}
use bazaar_compute_node.Schedule.Slots.{Zone}
use bazaar_compute_node.Schedule.Resolve.{next_recurrence_ms}
use bazaar_compute_node.Schedule.Resolve.Future.{next_recurrence-later}
use bazaar_compute_node.Scheduler.{
  OwnedReminder, SystemMessage, Store, Env, Anchor, recurrence, key_of, materialize_due_reminder,
}
use bazaar_compute_node.Scheduler.Laws.{Keyed, Due, Recurs, Moved, Accepts, Formats}
use bazaar_compute_node.Scheduler.Moves.{Due-moves}

-- The scheduler catches the exceptions of the recurrence.
unfoldable pub caught : Result ScheduleError ℕ → Option ℕ
caught (ok n) = some n
caught (err e) = none

module _ (zones : Chars → Option Zone) (format_utc_timestamp : ℕ → Option String)
    (dumps : String → String) (new_id : String) where
  -- What the scheduler of the program is built with.
  abbrev pub calendar_env : Env
  calendar_env = record {
    next_recurrence_ms = λ scheduled_for rule timezone.
        caught (next_recurrence_ms zones scheduled_for (codes rule) (codes timezone));
    format_utc_timestamp = format_utc_timestamp;
    dumps = dumps;
    new_id = new_id;
  }

  caught-ok : (o : Result ScheduleError ℕ) (n : ℕ) → caught o ≡ some n → o ≡ ok n
  unfolding caught
  caught-ok (ok m) n h = cc h
  caught-ok (err e) n h = absurd (cc h)

  calendar-Recurs : (current : Reminder) (slot : ℕ) → Recurs calendar_env current slot
  calendar-Recurs current slot rule n _ next =
      next_recurrence-later zones slot (codes rule) (codes current.timezone) n (caught-ok _ n next)

  -- With the recurrence of the program, in any zones, on a store whose rows stand under their own keys:
  -- a due snapshot whose row is valid, at a time that is not before the row's last change and with a
  -- next time that can be written, is materialised without an exception, where the anchor, if it is
  -- there, names a target and stands in the session of its thread, and the new id is not in use.
  -- Afterwards the row is not scheduled for that slot any more.
  pub Due-moves_calendar :
      (snapshot : OwnedReminder) (now : ℕ) (s : Store) (current : Reminder) (slot : ℕ)
      → Keyed s
      → Due snapshot now s current slot
      → IsValid current
      → current.updated_at_ms ≤ now
      → ((next : Option ℕ)
          → recurrence calendar_env slot current.repeat_rule current.timezone ≡ some next
          → Formats calendar_env next)
      → ((anchor : Anchor)
          → s.inbound snapshot.agent_id current.owner_thread_id current.anchor_message_id
            ≡ some anchor
          → Accepts calendar_env snapshot.agent_id current.owner_thread_id anchor s)
      → (o : Option SystemMessage) × ((materialize_due_reminder calendar_env snapshot now s).0
          ≡ ok o)
        × Moved (materialize_due_reminder calendar_env snapshot now s).1 (key_of snapshot) slot
  Due-moves_calendar snapshot now s current slot keyed due valid in_order formats accepts =
      Due-moves calendar_env snapshot now s current slot keyed due (record {
        valid = valid;
        in_order = in_order;
        recurs = calendar-Recurs current slot;
        formats = formats;
        accepts = accepts;
      })
