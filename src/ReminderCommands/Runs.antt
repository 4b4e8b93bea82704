-- ===== src/ReminderCommands/Runs.antt =====
-- What a command on a reminder leaves, and when it goes through.
use Prim.Native.String.{String}
use bazaar_compute_node.Prelude.{
  ◌+◌, ◌≤◌, ◌≡◌, refl, sym, ◌∙◌, ap, subst, Option, none, some, List, [], ◌∷◌,
}
use bazaar_compute_node.Prelude.Result.{Result, ok, err}
use bazaar_compute_node.Agent.{Actor}
use bazaar_compute_node.Reminder.{Reminder}
use bazaar_compute_node.Reminder.Laws.{IsValid}
use bazaar_compute_node.Reminder.Commands.{Command, Allowed, time_of, Follows}
use bazaar_compute_node.Reminder.Steps.{apply_sound}
use bazaar_compute_node.Reminder.Progress.{apply_complete}
use bazaar_compute_node.Scheduler.{Key, Store, update_row}
use bazaar_compute_node.Scheduler.Laws.{Keyed}
use bazaar_compute_node.ReminderCommands.{
  Node, threads_in_reach, CommandFailure, reminder_not_found, reminder_key, ChangeRequest,
  requested_id, updated_reminder, ChangeEnd, answer, save_updated, change_held, owner_or,
  resolve_reminder, change_in, change_reminder,
}
use bazaar_compute_node.ReminderCommands.Writes.{save-Follows}
use bazaar_compute_node.ReminderCommands.Requests.{
  Asks, updated_sound, updated_complete, given, IsOwn, updated-IsOwn,
}

-- One of the conversations of a list.
pub data Among (t : String) : List String → Type 0 where
  at_head : {ts : List String} → Among t (t ∷ ts)
  further : {u : String} {ts : List String} → Among t ts → Among t (u ∷ ts)

resolve_reminder-Among :
    (agent_id reminder_id : String) (ts : List String) (s : Store) (owner_id : String)
    → resolve_reminder agent_id reminder_id ts s ≡ some owner_id
    → Among owner_id ts
unfolding resolve_reminder owner_or
resolve_reminder-Among agent_id reminder_id [] s owner_id h = absurd (cc h)
resolve_reminder-Among agent_id reminder_id (t ∷ ts) s owner_id h =
    go (s.reminders (reminder_key agent_id t reminder_id)) h
      (resolve_reminder-Among agent_id reminder_id ts s owner_id)
  where
    go :
        (o : Option Reminder)
        → owner_or o t (resolve_reminder agent_id reminder_id ts s) ≡ some owner_id
        → (resolve_reminder agent_id reminder_id ts s ≡ some owner_id → Among owner_id ts)
        → Among owner_id (t ∷ ts)
    go none h ih = further (ih h)
    go (some r) h ih = let same : t ≡ owner_id = cc in subst (λ x. Among x (t ∷ ts)) same at_head

-- The node after a reminder has been changed: one row is written, and the scheduler is poked.
abbrev pub after_change : Key → Reminder → Node → Node
after_change k s n = record n { store = update_row k s n.store; pokes = n.pokes + 1 }

-- How a command on a reminder can end, over the node at its start and the node that it finds when it
-- holds the conversation.
pub data Ran (agent_id : String) (actor : Actor) (q : ChangeRequest) (n held : Node)
    : ChangeEnd → Type 0 where
  out_of_reach : Ran agent_id actor q n held (err reminder_not_found, n)
  fails : (f : CommandFailure) → IsOwn f → Ran agent_id actor q n held (err f, held)
  changes :
      (owner_id : String) (r s : Reminder) (c : Command)
      → Among owner_id (threads_in_reach actor n)
      → held.store.reminders (reminder_key agent_id owner_id (requested_id q)) ≡ some r
      → Asks q c
      → Allowed c r
      → Follows c r s
      → Ran agent_id actor q n held
          (ok s, after_change (reminder_key agent_id owner_id (requested_id q)) s held)

module _ (agent_id : String) (actor : Actor) (q : ChangeRequest) where
  save_updated-Ran :
      (n held : Node) (owner_id : String) (r : Reminder) (x : Result CommandFailure Reminder)
      → Keyed held.store
      → Among owner_id (threads_in_reach actor n)
      → held.store.reminders (reminder_key agent_id owner_id (requested_id q)) ≡ some r
      → updated_reminder q r ≡ x
      → Ran agent_id actor q n held (save_updated agent_id r.revision x held)
  unfolding save_updated answer
  save_updated-Ran n held owner_id r (err f) keyed near row h = fails f (updated-IsOwn q r f h)
  save_updated-Ran n held owner_id r (ok s) keyed near row h =
      let (c, asks, g, done) = updated_sound q r s h in
      let (le, a, f) = apply_sound c done in
      let stored =
        save-Follows c agent_id owner_id (requested_id q) held.store keyed row g le a f in
      subst (λ x. Ran agent_id actor q n held (answer x held)) (sym stored)
        (changes owner_id r s c near row asks a f)

  change_held-Ran :
      (n held : Node) (owner_id : String) (o : Option Reminder)
      → Keyed held.store
      → Among owner_id (threads_in_reach actor n)
      → held.store.reminders (reminder_key agent_id owner_id (requested_id q)) ≡ o
      → Ran agent_id actor q n held (change_held agent_id q o held)
  unfolding change_held
  change_held-Ran n held owner_id none keyed near row = fails reminder_not_found tt
  change_held-Ran n held owner_id (some r) keyed near row =
      save_updated-Ran n held owner_id r (updated_reminder q r) keyed near row refl

  module _ (meanwhile : Node → Node) (n : Node) where
    change_in-Ran :
        (o : Option String)
        → Keyed (meanwhile n).store
        → resolve_reminder agent_id (requested_id q) (threads_in_reach actor n) n.store ≡ o
        → Ran agent_id actor q n (meanwhile n) (change_in agent_id q meanwhile o n)
    unfolding change_in
    change_in-Ran none keyed h = out_of_reach
    change_in-Ran (some owner_id) keyed h =
        change_held-Ran n (meanwhile n) owner_id _ keyed
          (resolve_reminder-Among agent_id (requested_id q) (threads_in_reach actor n) n.store
            owner_id h)
          refl

    -- Whatever others do before the command holds the conversation, over a store whose rows then
    -- stand under the keys that their fields make: a command that snoozes, updates or cancels a
    -- reminder either fails, and then the store has refused nothing and the command has written
    -- nothing, or it has written one row and poked once. That row
    -- is in a conversation that the actor answers for, the transition is the one that is asked for,
    -- it was allowed, and the row is what the transition makes of the one that was held.
    pub change_reminder-Ran :
        Keyed (meanwhile n).store
        → Ran agent_id actor q n (meanwhile n) (change_reminder agent_id actor q meanwhile n)
    unfolding change_reminder
    change_reminder-Ran keyed = change_in-Ran _ keyed refl

    -- A command on a reminder that is found in reach, and is then held as a valid row, in a store
    -- whose rows stand under the keys that their fields make, goes through where its transition is
    -- allowed, at a time that is not before the last change: nothing in the reminder and nothing in
    -- the store refuses it. The row is then what the command returns, and the scheduler is poked.
    pub change_reminder-succeeds :
        (owner_id : String) (r : Reminder) (c : Command)
        → Keyed (meanwhile n).store
        → resolve_reminder agent_id (requested_id q) (threads_in_reach actor n) n.store
          ≡ some owner_id
        → (meanwhile n).store.reminders (reminder_key agent_id owner_id (requested_id q)) ≡ some r
        → IsValid r
        → Asks q c
        → Allowed c r
        → r.updated_at_ms ≤ time_of c
        → (s : Reminder) × Follows c r s
          × (change_reminder agent_id actor q meanwhile n ≡ (
            ok s,
            after_change (reminder_key agent_id owner_id (requested_id q)) s (meanwhile n),
          ))
    unfolding change_reminder change_in change_held save_updated answer
    change_reminder-succeeds owner_id r c keyed found row v asks a le =
        let (s, done) = apply_complete c v le a in
        let (le_too, allowed, f) = apply_sound c done in
        let stored =
          save-Follows c agent_id owner_id (requested_id q) (meanwhile n).store keyed row
            (given asks) le a f in
        (
          s,
          f,
          ap (λ o. change_in agent_id q meanwhile o n) found
              ∙ ap (λ o. change_held agent_id q o (meanwhile n)) row
              ∙ ap (λ x. save_updated agent_id r.revision x (meanwhile n))
                  (updated_complete r s asks a done)
              ∙ ap (λ x. answer x (meanwhile n)) stored,
        )
