-- ===== src/Reminder/Render.antt =====
-- bazaar_compute_node/core/reminder.py, `render_reminder_fire_body`: the text of a reminder that fires.
-- `json.dumps` is a parameter, and so is `format_utc_timestamp`, which is `datetime.isoformat` and
-- raises past the last year of `datetime`: it is `none` there.
use Prim.Native.String.{String}
use bazaar_compute_node.Prelude.{ℕ, zero, suc, Option, none, some, if◌then◌else◌}
use bazaar_compute_node.Prelude.Texts.{append, is_blank}
use bazaar_compute_node.Prelude.Result.{Result, ok, err}
use bazaar_compute_node.Reminder.{Reminder}

-- The `ValueError`s, and the `OverflowError` of the time.
pub data RenderError : Type 0 where
  no_target one_time_goes_on recurring_ends no_timestamp : RenderError

-- `text[:n]`
unfoldable pub first_chars : ℕ → String → String
first_chars zero t = ""
first_chars (suc n) String.[] = ""
first_chars (suc n) (String.◌∷◌ c s) = String.◌∷◌ c (first_chars n s)

module _ (dumps : String → String) (format_utc_timestamp : ℕ → Option String) where
  abbrev prefix : Reminder → String
  prefix r = append "🔔 Reminder #" (first_chars 8 r.reminder_id)

  unfoldable pub one_time_body : Reminder → String → String
  one_time_body r target =
      append (prefix r) (append " (one-time) — " (append target (append " — " (dumps r.title))))

  unfoldable pub recurring_body :
      Reminder → String → String → Option String → Result RenderError String
  recurring_body r target rule none = err no_timestamp
  recurring_body r target rule (some at) = ok (
      append (prefix r) (
        append " (recurring · " (
          append rule (
            append ") — " (
              append target
                (append " — " (append (dumps r.title) (append "\nNext iteration: " at))))))))

  unfoldable pub body_for : Reminder → String → Option String → Option ℕ → Result RenderError String
  body_for r target none none = ok (one_time_body r target)
  body_for r target none (some next) = err one_time_goes_on
  body_for r target (some rule) none = err recurring_ends
  body_for r target (some rule) (some next) =
      recurring_body r target rule (format_utc_timestamp next)

  unfoldable pub render_reminder_fire_body :
      Reminder → String → Option ℕ → Result RenderError String
  render_reminder_fire_body r target next =
      if is_blank (some target) then err no_target else body_for r target r.repeat_rule next
