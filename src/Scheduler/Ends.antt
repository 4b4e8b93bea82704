-- ===== src/Scheduler/Ends.antt =====
-- Every materialisation has one of the four ends.
use bazaar_compute_node.Prelude.{ℕ, ◌≡◌, inl, inr, refl, sym, ap, subst, Option, none, some}
use bazaar_compute_node.Prelude.Result.{Result, ok, err}
use bazaar_compute_node.Reminder.{Reminder, ReminderError, cancel, record_fire}
use bazaar_compute_node.Reminder.Commands.{cancels, fires, apply}
use bazaar_compute_node.Reminder.Steps.{apply_sound}
use Prim.Native.String.{String}
use bazaar_compute_node.Reminder.Render.{RenderError}
use bazaar_compute_node.Scheduler.{
  OwnedReminder, Anchor, Store, Env, cancel_unusable, recurrence, fire_anchored, fire_recorded,
  fire_next, materialize_due_reminder, fire_rendered, message_with, SystemError, system_error,
  reminder_raises, render_raises, save_raises, key_of, update_row,
}
use bazaar_compute_node.Scheduler.Laws.{
  Keyed, Due, Ends, skips, raises, retires, materializes, Unusable, bad_rule, lost_anchor, Fires,
  text_of, cannot_cancel, cannot_fire, cannot_render, cannot_save,
}
use bazaar_compute_node.Scheduler.Writes.{saved, materialized, ended}
use bazaar_compute_node.Scheduler.Cases.{Due-or_skip}

-- The row that is retired.
cancel-Ends :
    (env : Env) (snapshot : OwnedReminder) (now : ℕ) (s : Store) {current : Reminder} {slot : ℕ}
    → Keyed s
    → Due snapshot now s current slot
    → Unusable env snapshot now s current slot
    → Ends env snapshot now s
        (cancel_unusable (cancel now current) current.revision snapshot.agent_id s)
unfolding cancel_unusable
cancel-Ends env snapshot now s {current} {slot} keyed due why = go (cancel now current) refl
  where
    go :
        (o : Result ReminderError Reminder)
        → cancel now current ≡ o
        → Ends env snapshot now s (cancel_unusable o current.revision snapshot.agent_id s)
    go (err e) p = raises (reminder_raises e) due (cannot_cancel e why p)
    go (ok over) p =
        let (le, allowed, f) =
          apply_sound (cancels now) {r = current} {s = over} (unfold apply in p) in
        subst (Ends env snapshot now s)
          (ap (λ (x : Store). (ok none, x))
            (sym (saved snapshot s current over keyed due.row due.state f.same_owner f.same_id)))
          (retires due why p)

rendered-Ends :
    (env : Env) (snapshot : OwnedReminder) (now : ℕ) (s : Store) {current rung : Reminder}
    {slot : ℕ} (next : Option ℕ) (anchor : Anchor)
    → Keyed s
    → Due snapshot now s current slot
    → Fires env snapshot now s current slot next rung anchor
    → (o : Result RenderError String) → text_of env rung anchor next ≡ o
    → Ends env snapshot now s (fire_rendered env o anchor snapshot.agent_id current rung now s)
unfolding fire_rendered
rendered-Ends env snapshot now s {current} {rung} next anchor keyed due fires_ (err e) p =
    raises (render_raises e) due (cannot_render e next rung anchor fires_ p)
rendered-Ends env snapshot now s {current} {rung} {slot} next anchor keyed due fires_ (ok body) p =
    let m = message_with env snapshot.agent_id current anchor now body in
    let (le, allowed, f) =
      apply_sound (fires slot now next) {r = current} {s = rung} (unfold apply in fires_.fire) in
    subst (Ends env snapshot now s)
      (sym (
        materialized snapshot s current rung m anchor keyed due.row due.state f.same_owner f.same_id
          f.same_anchor fires_.there _ refl))
      (go _ refl)
  where
    go :
        (o : Option SystemError)
        → system_error
            (s.bindings snapshot.agent_id current.owner_thread_id)
            (s.message_ids env.new_id)
            (message_with env snapshot.agent_id current anchor now body)
          ≡ o
        → Ends env snapshot now s (
            ended o
              (message_with env snapshot.agent_id current anchor now body)
              (update_row (key_of snapshot) rung s)
              s)
    go none h = materializes next anchor body due fires_ p
    go (some e) h = raises (save_raises e) due (cannot_save e next rung anchor body fires_ p h)

anchored-Ends :
    (env : Env) (snapshot : OwnedReminder) (now : ℕ) (s : Store) {current rung : Reminder}
    {slot : ℕ} (next : Option ℕ)
    → Keyed s
    → Due snapshot now s current slot
    → recurrence env slot current.repeat_rule current.timezone ≡ some next
    → record_fire slot now next current ≡ ok rung
    → (o : Option Anchor)
    → s.inbound snapshot.agent_id current.owner_thread_id current.anchor_message_id ≡ o
    → Ends env snapshot now s (fire_anchored env o snapshot.agent_id current rung now next s)
unfolding fire_anchored
anchored-Ends env snapshot now s {current} {rung} next keyed due rec fire none p =
    cancel-Ends env snapshot now s keyed due (lost_anchor next rung rec fire p)
anchored-Ends env snapshot now s next keyed due rec fire (some anchor) p =
    rendered-Ends env snapshot now s next anchor keyed due
      (record { recurs = rec; fire = fire; there = p }) _ refl

recorded-Ends :
    (env : Env) (snapshot : OwnedReminder) (now : ℕ) (s : Store) {current : Reminder} {slot : ℕ}
    (next : Option ℕ)
    → Keyed s
    → Due snapshot now s current slot
    → recurrence env slot current.repeat_rule current.timezone ≡ some next
    → (o : Result ReminderError Reminder) → record_fire slot now next current ≡ o
    → Ends env snapshot now s (fire_recorded env o snapshot.agent_id current now next s)
unfolding fire_recorded
recorded-Ends env snapshot now s {current} {slot} next keyed due rec (err e) p =
    raises (reminder_raises e) due (cannot_fire e next rec p)
recorded-Ends env snapshot now s next keyed due rec (ok rung) p =
    anchored-Ends env snapshot now s next keyed due rec p _ refl

next-Ends :
    (env : Env) (snapshot : OwnedReminder) (now : ℕ) (s : Store) {current : Reminder} {slot : ℕ}
    → Keyed s
    → Due snapshot now s current slot
    → (o : Option (Option ℕ)) → recurrence env slot current.repeat_rule current.timezone ≡ o
    → Ends env snapshot now s (fire_next env o snapshot.agent_id current slot now s)
unfolding fire_next
next-Ends env snapshot now s keyed due none p =
    cancel-Ends env snapshot now s keyed due (bad_rule p)
next-Ends env snapshot now s keyed due (some next) p =
    recorded-Ends env snapshot now s next keyed due p _ refl

-- Every materialisation, on a store whose rows stand under their own keys, ends in one of four
-- ways: the snapshot is not due and nothing happens; an exception leaves the store as it is, where
-- the transition, the text or the save of the message raises; the row is canceled, where its rule
-- gives no next time or its anchor is gone; or the row holds the reminder that has fired and its
-- message is saved.
pub materialize-Ends :
    (env : Env) (snapshot : OwnedReminder) (now : ℕ) (s : Store)
    → Keyed s
    → Ends env snapshot now s (materialize_due_reminder env snapshot now s)
materialize-Ends env snapshot now s keyed = elim (Due-or_skip env snapshot now s) [
  | inl (skip, not_due) ↦ subst (Ends env snapshot now s) (sym skip) (skips not_due)
  | inr (current, slot, due, step) ↦
      subst (Ends env snapshot now s) (sym step) (next-Ends env snapshot now s keyed due _ refl)
]
