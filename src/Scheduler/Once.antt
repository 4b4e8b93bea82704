-- ===== src/Scheduler/Once.antt =====
-- What is saved is what is returned, and no slot of a reminder fires twice.
use bazaar_compute_node.Prelude.{
  ℕ, ◌+◌, ◌≤◌, ◌≡◌, ◌≢◌, inl, inr, sym, ◌∙◌, ap, arith, none, some, some_inj,
}
use bazaar_compute_node.Prelude.Result.{ok}
use bazaar_compute_node.Reminder.{Reminder}
use bazaar_compute_node.Reminder.Commands.{fires, apply}
use bazaar_compute_node.Reminder.Steps.{apply_sound}
use bazaar_compute_node.Scheduler.{
  OwnedReminder, key_of, SystemMessage, Store, Env, Outcome, add_message, materialize_due_reminder,
}
use bazaar_compute_node.Scheduler.Laws.{Keyed, Ends, skips, raises, retires, materializes}
use bazaar_compute_node.Scheduler.Writes.{updated}
use bazaar_compute_node.Scheduler.Cases.{Due-or_skip}
use bazaar_compute_node.Scheduler.Ends.{materialize-Ends}

-- What the row of a reminder that has fired looks like.
fired_row :
    {env : Env} {snapshot : OwnedReminder} {now : ℕ} {s : Store} {out : Outcome} {m : SystemMessage}
    → Ends env snapshot now s out
    → out.0 ≡ ok (some m)
    → (r : Reminder) × (out.1.reminders (key_of snapshot) ≡ some r)
      × (r.revision ≡ snapshot.reminder.revision + 1)
fired_row (skips not_due) h = absurd (cc h)
fired_row (raises e due why) h = absurd (cc h)
fired_row (retires due why p) h = absurd (cc h)
fired_row {now = now} (materializes {current} {rung} {slot} next anchor body due fires_ text) h =
    let (le, allowed, f) =
      apply_sound (fires slot now next) {r = current} {s = rung} (unfold apply in fires_.fire) in
    (rung, unfold add_message in updated _ rung _, f.revised ∙ ap (λ n. n + 1) due.revision)

-- A snapshot whose row has another revision fires nothing and changes nothing.
stale_skips :
    (env : Env) (snapshot : OwnedReminder) (now : ℕ) (s : Store) (r : Reminder)
    → s.reminders (key_of snapshot) ≡ some r
    → r.revision ≢ snapshot.reminder.revision
    → materialize_due_reminder env snapshot now s ≡ (ok none, s)
stale_skips env snapshot now s r row other = elim (Due-or_skip env snapshot now s) [
  | inl (skip, not_due) ↦ skip
  | inr (current, slot, due, step) ↦
      absurd
        (other (ap (λ (x : Reminder). x.revision) (some_inj (sym row ∙ due.row)) ∙ due.revision))
]

-- A snapshot fires at most once: once it has, on a store whose rows stand under their own keys, it
-- fires nothing and changes nothing in any later state of the store in which the row is there and
-- its revision has not gone back.
pub at_most_once :
    (env : Env) (snapshot : OwnedReminder) (now later : ℕ) (s t : Store) (m : SystemMessage)
    (r : Reminder)
    → Keyed s
    → (materialize_due_reminder env snapshot now s).0 ≡ ok (some m)
    → t.reminders (key_of snapshot) ≡ some r
    → ((x : Reminder)
        → (materialize_due_reminder env snapshot now s).1.reminders (key_of snapshot) ≡ some x
        → x.revision ≤ r.revision)
    → materialize_due_reminder env snapshot later t ≡ (ok none, t)
at_most_once env snapshot now later s t m r keyed fired_once row forward =
    let (x, at_x, next_revision) =
      fired_row (materialize-Ends env snapshot now s keyed) fired_once in
    stale_skips env snapshot later t r row
      (λ same. absurd (omega (arith, forward x at_x, next_revision, same)))
