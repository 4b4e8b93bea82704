-- ===== src/Scheduler/Moves.antt =====
-- A due reminder does not stay due.
use Prim.Native.String.{String}
use bazaar_compute_node.Prelude.{
  ℕ, ◌≤◌, ◌<◌, ◌≡◌, ◌≢◌, refl, sym, ◌∙◌, ap, subst, arith, Option, none, some, some_inj,
}
use bazaar_compute_node.Prelude.Result.{ok}
use bazaar_compute_node.Reminder.{Reminder, ReminderState, scheduled, fired}
use bazaar_compute_node.Reminder.Commands.{cancels, fires, apply, NextSlot}
use bazaar_compute_node.Reminder.Laws.{IsValid}
use bazaar_compute_node.Reminder.Steps.{apply_sound}
use bazaar_compute_node.Reminder.Progress.{apply_complete}
use bazaar_compute_node.Scheduler.{
  OwnedReminder, key_of, SystemMessage, Store, Env, Outcome, recurrence, materialize_due_reminder,
  FireError, add_message, Anchor,
}
use bazaar_compute_node.Scheduler.Laws.{
  Keyed, Due, Ends, Recurs, Moved, Fails, cannot_cancel, cannot_fire, cannot_render, cannot_save,
  Accepts, Formats, skips, raises, retires, materializes,
}
use bazaar_compute_node.Scheduler.Writes.{updated}
use bazaar_compute_node.Scheduler.Cases.{same_row}
use bazaar_compute_node.Scheduler.Accepted.{text-ok, system_error-none}
use bazaar_compute_node.Scheduler.Ends.{materialize-Ends}

-- The next slot that the recurrence gives.
next-NextSlot :
    (env : Env) (slot : ℕ) (rule : Option String) (timezone : String) (next : Option ℕ)
    → recurrence env slot rule timezone ≡ some next
    → ((x : String) (n : ℕ)
        → rule ≡ some x
        → env.next_recurrence_ms slot x timezone ≡ some n
        → slot < n)
    → NextSlot slot rule next
unfolding recurrence
next-NextSlot env slot none timezone none h later = tt
next-NextSlot env slot none timezone (some n) h later = absurd (cc h)
next-NextSlot env slot (some rule) timezone next h later =
    go (env.next_recurrence_ms slot rule timezone) refl h
  where
    go :
        (o : Option ℕ)
        → env.next_recurrence_ms slot rule timezone ≡ o
        → elim o as (λ _. Option (Option ℕ)) [ none ↦ none | some n ↦ some (some n) ] ≡ some next
        → NextSlot slot (some rule) next
    go none p q = absurd (cc q)
    go (some n) p q = subst (NextSlot slot (some rule)) (some_inj q) (later rule n refl p)

slot_moves :
    (slot : ℕ) (rule : Option String) (next : Option ℕ) (st : ReminderState)
    → NextSlot slot rule next
    → (rule ≡ none → st ≡ fired)
    → st ≡ scheduled
    → next ≢ some slot
slot_moves slot none next st h once p q = absurd (cc (once refl, p))
slot_moves slot (some rule) none st h once p q = absurd h
slot_moves slot (some rule) (some n) st h once p q = absurd (omega (arith, h, some_inj q))

slot_eq :
    {snapshot : OwnedReminder} {now : ℕ} {s : Store} {c d : Reminder} {n m : ℕ}
    → Due snapshot now s c n
    → Due snapshot now s d m
    → m ≡ n
slot_eq x y = some_inj (sym y.same_slot ∙ x.same_slot)

-- What lets a due reminder fire: its row is valid, the time is not before its last change, its next
-- time comes after the slot and can be written, and the store takes its message where its anchor is
-- there.
pub record Deliverable (env : Env) (snapshot : OwnedReminder) (now : ℕ) (s : Store)
    (current : Reminder) (slot : ℕ) : Type 0 where
  pub valid : IsValid current
  pub in_order : current.updated_at_ms ≤ now
  pub recurs : Recurs env current slot
  pub formats :
      (next : Option ℕ)
      → recurrence env slot current.repeat_rule current.timezone ≡ some next
      → Formats env next
  pub accepts :
      (anchor : Anchor)
      → s.inbound snapshot.agent_id current.owner_thread_id current.anchor_message_id ≡ some anchor
      → Accepts env snapshot.agent_id current.owner_thread_id anchor s

-- Nothing raises then.
never-Fails :
    (env : Env) (snapshot : OwnedReminder) (now : ℕ) (s : Store) (current : Reminder) (slot : ℕ)
    (e : FireError)
    → Deliverable env snapshot now s current slot
    → Due snapshot now s current slot
    → ¬ Fails env snapshot now s current slot e
unfolding apply
never-Fails env snapshot now s current slot _ d due (cannot_cancel e why p) =
    let (x, went) = apply_complete (cancels now) d.valid d.in_order due.state in cc (p, went)
never-Fails env snapshot now s current slot _ d due (cannot_fire e next rec p) =
    let (x, went) = apply_complete (fires slot now next) d.valid d.in_order (
      due.state,
      due.at_slot,
      due.come,
      next-NextSlot env slot current.repeat_rule current.timezone next rec d.recurs,
    ) in
    cc (p, went)
never-Fails env snapshot now s current slot _ d due (cannot_render e next rung anchor f p) =
    let (body, done) =
      text-ok env snapshot now s current slot next rung anchor f (d.accepts anchor f.there)
        (d.formats next f.recurs) in
    cc (p, done)
never-Fails env snapshot now s current slot _ d due (cannot_save e next rung anchor body f text p) =
    cc (
      p,
      system_error-none env snapshot.agent_id current anchor now body s (d.accepts anchor f.there),
    )

Moved-Ends :
    {env : Env} {snapshot : OwnedReminder} {now : ℕ} {s : Store} {out : Outcome}
    (current : Reminder) (slot : ℕ)
    → Deliverable env snapshot now s current slot
    → Due snapshot now s current slot
    → Ends env snapshot now s out
    → (o : Option SystemMessage) × (out.0 ≡ ok o) × Moved out.1 (key_of snapshot) slot
unfolding apply
Moved-Ends current slot d due (skips not_due) = absurd (not_due current slot due)
Moved-Ends {env} {snapshot} {now} {s} current slot d due (raises {current = c} {slot = n} e x why) =
    absurd (
      never-Fails env snapshot now s current slot e d due (
        subst (λ m. Fails env snapshot now s current m e) (slot_eq due x)
          (subst (λ (y : Reminder). Fails env snapshot now s y n e) (same_row c x.row due) why)))
Moved-Ends {now = now} current slot dv due (retires {current = c} {over = over} d why p) =
    let (at_time, allowed, f) = apply_sound (cancels now) {r = c} {s = over} p in
    (none, refl, (over, updated _ over _, λ h. cc (h.0, f.lands.0)))
Moved-Ends {now = now} current slot dv due
      (materializes {current = c} {rung = rung} {slot = n} next anchor body d fs text) =
    let (at_time, allowed, f) = apply_sound (fires n now next) {r = c} {s = rung} fs.fire in
    (
      _,
      refl,
      (
        rung,
        unfold add_message in updated _ rung _,
        λ h.
            slot_moves n c.repeat_rule next rung.state allowed.3 f.lands.2 h.0
              (sym f.lands.0 ∙ h.1 ∙ ap some (slot_eq d due)),
      ),
    )

-- On a store whose rows stand under their own keys, a due snapshot whose row is valid, at a time
-- that is not before the row's last change, with a recurrence that comes after the slot and a next
-- time that can be written: where the anchor, if it is there, names a target and stands in the
-- session of its thread, and the new id is not in use, the materialisation does not raise, and
-- afterwards the row is not scheduled for that slot any more.
pub Due-moves :
    (env : Env) (snapshot : OwnedReminder) (now : ℕ) (s : Store) (current : Reminder) (slot : ℕ)
    → Keyed s
    → Due snapshot now s current slot
    → Deliverable env snapshot now s current slot
    → (o : Option SystemMessage) × ((materialize_due_reminder env snapshot now s).0 ≡ ok o)
      × Moved (materialize_due_reminder env snapshot now s).1 (key_of snapshot) slot
Due-moves env snapshot now s current slot keyed due d =
    Moved-Ends current slot d due (materialize-Ends env snapshot now s keyed)
