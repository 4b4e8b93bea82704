-- ===== src/Scheduler/Rings.antt =====
-- A reminder that is due and can recur as its rule says gives its message.
use Prim.Native.String.{String}
use bazaar_compute_node.Prelude.{none, ℕ, ◌≤◌, ◌≡◌, sym, ◌∙◌, ap, Option, some, some_inj, inl, inr}
use bazaar_compute_node.Prelude.Result.{ok}
use bazaar_compute_node.Reminder.{Reminder, record_fire}
use bazaar_compute_node.Reminder.Laws.{IsValid}
use bazaar_compute_node.Reminder.Commands.{fires, apply, NextSlot}
use bazaar_compute_node.Reminder.Steps.{apply_sound}
use bazaar_compute_node.Reminder.Progress.{apply_complete}
use bazaar_compute_node.Scheduler.{
  OwnedReminder, key_of, Anchor, Store, Env, update_row, recurrence, materialize_due_reminder,
  fire_next, fire_recorded, fire_anchored, fire_rendered, message_with, add_message, key_of,
  update_row,
}
use bazaar_compute_node.Scheduler.Laws.{Keyed, Due, Fires, text_of, Accepts, Formats}
use bazaar_compute_node.Scheduler.Cases.{Due-or_skip}
use bazaar_compute_node.Scheduler.Accepted.{text-ok, system_error-none}
use bazaar_compute_node.Scheduler.Writes.{materialized}

module _ (env : Env) (snapshot : OwnedReminder) (now : ℕ) (s : Store) where
  fire_next-rings :
      (current rung : Reminder) (slot : ℕ) (next : Option ℕ) (anchor : Anchor) (body : String)
      → Keyed s
      → Due snapshot now s current slot
      → Fires env snapshot now s current slot next rung anchor
      → text_of env rung anchor next ≡ ok body
      → Accepts env snapshot.agent_id current.owner_thread_id anchor s
      → fire_next env (some next) snapshot.agent_id current slot now s ≡ (
        ok (some (message_with env snapshot.agent_id current anchor now body)),
        add_message
            (message_with env snapshot.agent_id current anchor now body)
            (update_row (key_of snapshot) rung s),
      )
  unfolding fire_next fire_recorded fire_anchored fire_rendered apply
  fire_next-rings current rung slot next anchor body keyed due fs text a =
      let (le, allowed, f) = apply_sound (fires slot now next) {r = current} {s = rung} fs.fire in
      ap (λ x. fire_recorded env x snapshot.agent_id current now next s) fs.fire
      ∙ ap (λ o. fire_anchored env o snapshot.agent_id current rung now next s) fs.there
      ∙ ap (λ o. fire_rendered env o anchor snapshot.agent_id current rung now s) text
      ∙ materialized snapshot s current rung
          (message_with env snapshot.agent_id current anchor now body) anchor keyed due.row
          due.state f.same_owner f.same_id f.same_anchor fs.there none
          (system_error-none env snapshot.agent_id current anchor now body s a)

  pub Due-rings :
      (current : Reminder) (slot : ℕ) (next : Option ℕ) (anchor : Anchor)
      → Keyed s
      → Due snapshot now s current slot
      → IsValid current
      → current.updated_at_ms ≤ now
      → recurrence env slot current.repeat_rule current.timezone ≡ some next
      → NextSlot slot current.repeat_rule next
      → Formats env next
      → s.inbound snapshot.agent_id current.owner_thread_id current.anchor_message_id ≡ some anchor
      → Accepts env snapshot.agent_id current.owner_thread_id anchor s
      → (rung : Reminder) × (body : String) × (record_fire slot now next current ≡ ok rung)
        × (text_of env rung anchor next ≡ ok body)
        × (materialize_due_reminder env snapshot now s ≡ (
          ok (some (message_with env snapshot.agent_id current anchor now body)),
          add_message
              (message_with env snapshot.agent_id current anchor now body)
              (update_row (key_of snapshot) rung s),
        ))
  unfolding apply
  Due-rings current slot next anchor keyed due v le rec later format there a =
      let (rung, fire) =
        apply_complete (fires slot now next) {r = current} v le
          (due.state, due.at_slot, due.come, later) in
      let fs : Fires env snapshot now s current slot next rung anchor = record {
        recurs = rec;
        fire = fire;
        there = there;
      } in
      let (body, text) = text-ok env snapshot now s current slot next rung anchor fs a format in
      (
        rung,
        body,
        fire,
        text,
        elim (Due-or_skip env snapshot now s) [
          | inl (skip, not_due) ↦ absurd (not_due current slot due)
          | inr (c, m, d, step) ↦
              let slots : m ≡ slot = some_inj (sym d.same_slot ∙ due.same_slot) in
              let rows : c ≡ current = some_inj (sym d.row ∙ due.row) in
              step
              ∙ ap
                  (λ x.
                    fire_next env (recurrence env x c.repeat_rule c.timezone) snapshot.agent_id c x
                      now s)
                  slots
              ∙ ap
                  (λ (x : Reminder).
                    fire_next env (recurrence env slot x.repeat_rule x.timezone) snapshot.agent_id x
                      slot now s)
                  rows
              ∙ ap (λ o. fire_next env o snapshot.agent_id current slot now s) rec
              ∙ fire_next-rings current rung slot next anchor body keyed due fs text a
        ],
      )
