-- ===== src/ReminderCommands/Created.antt =====
-- A reminder that is scheduled is stored as asked, and fires once its time has come.
use Prim.Native.String.{String}
use text.Mathlib.TextEquality.{eq_iff}
use bazaar_compute_node.Prelude.{
  ℕ, ◌≤◌, ◌≡◌, refl, sym, ◌∙◌, ap, arith, Bool, true, false, ◌&&◌, Bool-cases, inl, inr, Option,
  none, some, some_inj, [], ◌∷◌, ◌++◌,
}
use bazaar_compute_node.Prelude.Result.{ok}
use bazaar_compute_node.Agent.{Actor}
use bazaar_compute_node.Reminder.{Reminder, record_fire}
use bazaar_compute_node.Reminder.Laws.{IsValid, construct-IsValid}
use bazaar_compute_node.Reminder.Commands.{NextSlot}
use bazaar_compute_node.Scheduler.{
  OwnedReminder, Key, same_key, Outcome, key_of, Anchor, Store, Env, update_row, add_message,
  message_with, recurrence, materialize_due_reminder,
}
use bazaar_compute_node.Scheduler.Laws.{Keyed, Due, Accepts, Formats, text_of}
use bazaar_compute_node.Scheduler.Writes.{updated}
use bazaar_compute_node.Scheduler.Rings.{Due-rings}
use bazaar_compute_node.ReminderCommands.{Node, threads_in_reach, reminder_key}
use bazaar_compute_node.ReminderCommands.Runs.{after_change}
use bazaar_compute_node.ReminderCommands.Create.{
  ScheduleRequest, resolve_anchor, new_reminder, new_error, insert_row, save_checked,
  save_new_reminder, schedule_in, schedule_reminder, Creation,
}

new_reminder-IsValid :
    (owner_id : String) (q : ScheduleRequest) (now : ℕ) (reminder_id : String)
    → IsValid (new_reminder owner_id q now reminder_id)
unfolding new_reminder
new_reminder-IsValid owner_id q now reminder_id = record {
  created_first = omega arith;
  fired_within = tt;
  canceled_within = tt;
  shape = (λ h. cc h, refl);
  history = (λ h. refl, λ h. refl);
  revisions = omega arith;
}

new_error-none :
    (agent_id owner_id : String) (q : ScheduleRequest) (now : ℕ) (anchor : Anchor) (n : Node)
    → n.has_thread owner_id ≡ true
    → n.store.inbound agent_id owner_id q.message_id ≡ some anchor
    → new_error agent_id (new_reminder owner_id q now "pending") n ≡ none
unfolding new_error new_reminder
new_error-none agent_id owner_id q now anchor n known there = simp (known, there) refl

same_key-parts :
    (j k : Key)
    → same_key j k ≡ true
    → (j.owner_thread_id ≡ k.owner_thread_id) × (j.reminder_id ≡ k.reminder_id)
unfolding same_key
same_key-parts j k h =
    let (a, b) = and_true _ _ h in
    let (c, d) = and_true _ _ a in
    ((eq_iff j.owner_thread_id k.owner_thread_id).0 d, (eq_iff j.reminder_id k.reminder_id).0 b)
  where
    and_true : (a b : Bool) → (a && b) ≡ true → (a ≡ true) × (b ≡ true)
    and_true true b h = (refl, h)
    and_true false b h = absurd (cc h)

-- A new row stands under the key that its fields make, and so do the others.
Keyed-insert :
    (agent_id : String) (r : Reminder) (s : Store)
    → Keyed s
    → Keyed (update_row (reminder_key agent_id r.owner_thread_id r.reminder_id) r s)
unfolding update_row
Keyed-insert agent_id r s keyed k x row =
    elim (Bool-cases (same_key (reminder_key agent_id r.owner_thread_id r.reminder_id) k)) [
      | inl same ↦
          let (o, i) = same_key-parts _ k same in
          let is_new : r ≡ x = some_inj (rw same at row) in
          (
            ap (λ (y : Reminder). y.owner_thread_id) (sym is_new) ∙ o,
            ap (λ (y : Reminder). y.reminder_id) (sym is_new) ∙ i,
          )
      | inr other ↦ keyed k x (rw other at row)
    ]

module _ (agent_id : String) (actor : Actor) (q : ScheduleRequest) (new_id : String) (now : ℕ)
    (meanwhile : Node → Node) (n : Node) (owner_id : String) (anchor : Anchor) where
  -- A message that is found in a conversation in reach, and is still there when the conversation is
  -- held, can have a reminder: `schedule_reminder` returns what the request asks for, valid and at
  -- its first revision, whatever time it asks for; that row is stored and the scheduler is poked.
  pub schedule_reminder-creates :
      resolve_anchor agent_id q.message_id (threads_in_reach actor n) n.store ≡ some owner_id
      → (meanwhile n).has_thread owner_id ≡ true
      → (meanwhile n).store.inbound agent_id owner_id q.message_id ≡ some anchor
      → IsValid (new_reminder owner_id q now new_id)
        × (schedule_reminder agent_id actor q new_id now meanwhile n ≡ (
          ok (new_reminder owner_id q now new_id),
          after_change
              (reminder_key agent_id owner_id new_id)
              (new_reminder owner_id q now new_id)
              (meanwhile n),
        ))
  unfolding schedule_reminder schedule_in save_new_reminder save_checked insert_row new_reminder
  schedule_reminder-creates found known there =
      let v = new_reminder-IsValid owner_id q now new_id in
      (
        v,
        ap (λ o. schedule_in agent_id q new_id now meanwhile o n) found
            ∙ ap (λ x. save_new_reminder agent_id new_id x (meanwhile n))
                ((construct-IsValid _).1 (new_reminder-IsValid owner_id q now "pending"))
            ∙ ap
                (λ o.
                  save_checked o agent_id new_id (new_reminder owner_id q now "pending")
                    (meanwhile n))
                (new_error-none agent_id owner_id q now anchor (meanwhile n) known there)
            ∙ ap (λ x. insert_row agent_id x (meanwhile n)) ((construct-IsValid _).1 v),
      )

  -- Where the message of a request is found in a conversation in reach, and that conversation and the
  -- message in it are still there when it is held, `schedule_reminder` returns a reminder. If the
  -- rows stand under the keys that their fields make, the message names a target and stands in the
  -- session of its thread, and the request's rule, where it has one, gives a time after the first that
  -- can be written, then the scheduler that reads the new row at any time from the clock's and the
  -- request's on, with an id that is not in use, fires it: that one materialisation returns the
  -- message, at the anchor and with the text of the reminder that has fired, and saves it behind all
  -- others.
  pub schedule_then_fire :
      (env : Env) (later : ℕ) (next : Option ℕ)
      → resolve_anchor agent_id q.message_id (threads_in_reach actor n) n.store ≡ some owner_id
      → (meanwhile n).has_thread owner_id ≡ true
      → (meanwhile n).store.inbound agent_id owner_id q.message_id ≡ some anchor
      → Keyed (meanwhile n).store
      → Accepts env agent_id owner_id anchor (meanwhile n).store
      → now ≤ later
      → q.next_fire_at_ms ≤ later
      → recurrence env q.next_fire_at_ms q.repeat_rule q.timezone ≡ some next
      → NextSlot q.next_fire_at_ms q.repeat_rule next
      → Formats env next
      → (r rung : Reminder) × (body : String) × ((schedule_reminder agent_id actor q new_id now
            meanwhile n).0
          ≡ ok r)
        × (record_fire q.next_fire_at_ms later next r ≡ ok rung)
        × (text_of env rung anchor next ≡ ok body)
        × ((materialize_due_reminder env
              (record { agent_id = agent_id; reminder = r })
              later
              (schedule_reminder agent_id actor q new_id now meanwhile n).1.store).0
            ≡ ok (some (message_with env agent_id r anchor later body)))
        × ((materialize_due_reminder env
              (record { agent_id = agent_id; reminder = r })
              later
              (schedule_reminder agent_id actor q new_id now meanwhile n).1.store).1.messages
            ≡ (meanwhile n).store.messages ++ (message_with env agent_id r anchor later body ∷ []))
  unfolding update_row key_of new_reminder add_message
  schedule_then_fire env later next found known there keyed accepts after come rec slots format =
      let r : Reminder = new_reminder owner_id q now new_id in
      let owned : OwnedReminder = record { agent_id = agent_id; reminder = r } in
      let (v, done) = schedule_reminder-creates found known there in
      let stored : Store =
        update_row (reminder_key agent_id owner_id new_id) r (meanwhile n).store in
      let due : Due owned later stored r q.next_fire_at_ms = record {
        row = updated (reminder_key agent_id owner_id new_id) r (meanwhile n).store;
        state = refl;
        revision = refl;
        same_slot = refl;
        at_slot = refl;
        come = come;
      } in
      let takes : Accepts env agent_id owner_id anchor stored = record {
        has_target = accepts.has_target;
        bound = accepts.bound;
        fresh = accepts.fresh;
      } in
      let (rung, body, fire, text, rings) =
        Due-rings env owned later stored r q.next_fire_at_ms next anchor
          (Keyed-insert agent_id r (meanwhile n).store keyed) due v after rec slots format there
          takes in
      (
        r,
        rung,
        body,
        ap (λ x. x.0) done,
        fire,
        text,
        ap (λ (x : Creation). (materialize_due_reminder env owned later x.1.store).0) done
            ∙ ap (λ (x : Outcome). x.0) rings,
        ap (λ (x : Creation). (materialize_due_reminder env owned later x.1.store).1.messages) done
            ∙ ap (λ (x : Outcome). x.1.messages) rings,
      )
