-- ===== src/Scheduler/Accepted.antt =====
-- A due reminder whose message the store accepts: its text can be written and its message saved.
use Prim.Native.String.{String}
use text.Mathlib.Text
use text.Mathlib.TextEquality.{eq_iff}
use bazaar_compute_node.Prelude.{ℕ, ◌≡◌, ◌≢◌, refl, sym, subst, true, Option, none, some}
use bazaar_compute_node.Prelude.Result.{ok}
use bazaar_compute_node.Reminder.{Reminder}
use bazaar_compute_node.Reminder.Commands.{fires, apply, NextSlot}
use bazaar_compute_node.Reminder.Steps.{apply_sound}
use bazaar_compute_node.Reminder.Render.{
  one_time_body, recurring_body, body_for, render_reminder_fire_body,
}
use bazaar_compute_node.Scheduler.{
  OwnedReminder, Anchor, Binding, Store, Env, same_text, same_binding, system_error, message_with,
}
use bazaar_compute_node.Scheduler.Laws.{Fires, text_of, Accepts, Formats}

text_refl : (a : String) → Text.◌==◌ a a ≡ true
text_refl a = (eq_iff a a).1 refl

same_text_refl : (o : Option String) → same_text o o ≡ true
same_text_refl none = refl
same_text_refl (some a) = text_refl a

same_binding_refl : (b : Binding) → same_binding b b ≡ true
unfolding same_binding
same_binding_refl b =
    rw
      (
        text_refl b.channel_session_id,
        same_text_refl b.channel,
        same_text_refl b.provider_thread_id,
        text_refl b.target_kind,
      )
      refl

recurring-ok :
    (dumps : String → String) (f : ℕ → Option String) (r : Reminder) (target rule : String)
    (o : Option String)
    → o ≢ none
    → (body : String) × (recurring_body dumps f r target rule o ≡ ok body)
unfolding recurring_body
recurring-ok dumps f r target rule none h = absurd (h refl)
recurring-ok dumps f r target rule (some at) h = (_, refl)

body-ok :
    (env : Env) (r : Reminder) (target : String) (slot : ℕ) (rule : Option String) (next : Option ℕ)
    → NextSlot slot rule next
    → Formats env next
    → (body : String) × (body_for env.dumps env.format_utc_timestamp r target rule next ≡ ok body)
unfolding body_for
body-ok env r target slot none none h f =
    (one_time_body env.dumps env.format_utc_timestamp r target, refl)
body-ok env r target slot none (some n) h f = absurd h
body-ok env r target slot (some rule) none h f = absurd h
body-ok env r target slot (some rule) (some n) h f =
    recurring-ok env.dumps env.format_utc_timestamp r target rule (env.format_utc_timestamp n) f

-- The text of a firing that goes through.
pub text-ok :
    (env : Env) (snapshot : OwnedReminder) (now : ℕ) (s : Store) (current : Reminder) (slot : ℕ)
    (next : Option ℕ) (rung : Reminder) (anchor : Anchor)
    → Fires env snapshot now s current slot next rung anchor
    → Accepts env snapshot.agent_id current.owner_thread_id anchor s
    → Formats env next
    → (body : String) × (text_of env rung anchor next ≡ ok body)
unfolding render_reminder_fire_body apply
text-ok env snapshot now s current slot next rung anchor f a format =
    let (le, allowed, follows) =
      apply_sound (fires slot now next) {r = current} {s = rung} f.fire in
    let (body, done) =
      body-ok env rung anchor.target slot rung.repeat_rule next
        (subst (λ x. NextSlot slot x next) (sym follows.rule) allowed.3) format in
    (body, rw a.has_target done)

-- The checks of its message.
pub system_error-none :
    (env : Env) (agent_id : String) (current : Reminder) (anchor : Anchor) (now : ℕ) (body : String)
    (s : Store)
    → Accepts env agent_id current.owner_thread_id anchor s
    → system_error
        (s.bindings agent_id current.owner_thread_id)
        (s.message_ids env.new_id)
        (message_with env agent_id current anchor now body)
      ≡ none
unfolding system_error
system_error-none env agent_id current anchor now body s a =
    rw (a.bound, a.fresh, same_binding_refl anchor.binding) refl
