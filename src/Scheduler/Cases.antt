-- ===== src/Scheduler/Cases.antt =====
-- When `_materialize_due_reminder` goes on past its early returns.
use bazaar_compute_node.Prelude.{
  ℕ, ◌≡◌, ◌⊎◌, inl, inr, refl, sym, ◌∙◌, ap, arith, Bool, false, not, ◌||◌, Option, none, some,
  some_inj, ltb, ltb→lt, ltb_false→le, ◌==◌, Bool-cases,
}
use bazaar_compute_node.Prelude.Result.{ok}
use bazaar_compute_node.Reminder.{Reminder, ReminderState, scheduled, fired, canceled, is_scheduled}
use bazaar_compute_node.Scheduler.{
  OwnedReminder, key_of, Store, Env, recurrence, fire_next, slots_differ, fire_slot, fire_current,
  materialize_due_reminder,
}
use bazaar_compute_node.Scheduler.Laws.{Due, NotDue}
use bazaar_compute_node.Scheduler.Writes.{is_scheduled_pass, number_pass}

is_scheduled_eq : (st : ReminderState) → not (is_scheduled st) ≡ false → st ≡ scheduled
is_scheduled_eq scheduled h = refl
is_scheduled_eq fired h = absurd (cc h)
is_scheduled_eq canceled h = absurd (cc h)

slots_same : (a b : Option ℕ) → slots_differ a b ≡ false → a ≡ b
slots_same none none h = refl
slots_same none (some b) h = absurd (cc h)
slots_same (some a) none h = absurd (cc h)
slots_same (some a) (some b) h = ground arith

same_number : (a b : ℕ) → not (a == b) ≡ false → a ≡ b
same_number a b h = ground arith

guards : (a b c : Bool) → (a || b || c) ≡ false → (a ≡ false) × (b ≡ false) × (c ≡ false)
guards a b c h = ground arith

-- What `_materialize_due_reminder` tests of the row.
abbrev stale : Reminder → OwnedReminder → Bool
stale current snapshot =
    not (is_scheduled current.state)
    || not (current.revision == snapshot.reminder.revision)
    || slots_differ current.next_fire_at_ms snapshot.reminder.next_fire_at_ms

same_slots : (a b : Option ℕ) (n : ℕ) → a ≡ some n → b ≡ some n → slots_differ a b ≡ false
same_slots a b n p q = rw (p, q) (number_pass n)

same_numbers : (a b : ℕ) → a ≡ b → not (a == b) ≡ false
same_numbers a b h = ground arith

none_of : (a b c : Bool) → a ≡ false → b ≡ false → c ≡ false → (a || b || c) ≡ false
none_of a b c p q r = ground arith

not_stale :
    {snapshot : OwnedReminder} {now : ℕ} {s : Store} {current : Reminder} {slot : ℕ}
    → Due snapshot now s current slot
    → stale current snapshot ≡ false
not_stale {snapshot} {now} {s} {current} {slot} due =
    none_of _ _ _ (is_scheduled_pass current.state due.state)
      (same_numbers current.revision snapshot.reminder.revision due.revision)
      (same_slots current.next_fire_at_ms snapshot.reminder.next_fire_at_ms slot due.at_slot
        due.same_slot)

pub same_row :
    {snapshot : OwnedReminder} {now : ℕ} {s : Store} {current : Reminder} {slot : ℕ} (r : Reminder)
    → s.reminders (key_of snapshot) ≡ some r
    → Due snapshot now s current slot
    → r ≡ current
same_row r row due = some_inj (sym row ∙ due.row)

-- The step of a row that is not stale, from its slot on.
slot_step :
    (env : Env) (snapshot : OwnedReminder) (now : ℕ) (s : Store) (current : Reminder)
    → s.reminders (key_of snapshot) ≡ some current
    → stale current snapshot ≡ false
    → (o : Option ℕ) → current.next_fire_at_ms ≡ o
    → ((fire_slot env o snapshot.agent_id current now s ≡ (ok none, s)) × NotDue snapshot now s)
      ⊎ ((slot : ℕ) × Due snapshot now s current slot
          × (fire_slot env o snapshot.agent_id current now s
              ≡ fire_next env
                  (recurrence env slot current.repeat_rule current.timezone)
                  snapshot.agent_id
                  current
                  slot
                  now
                  s))
unfolding fire_slot
slot_step env snapshot now s current row fine none p = inl (
  refl,
  λ c n d.
      absurd (cc (ap (λ (x : Reminder). x.next_fire_at_ms) (same_row current row d), p, d.at_slot)),
)
slot_step env snapshot now s current row fine (some slot) p = elim (Bool-cases (ltb now slot)) [
  | inl early ↦ inl (
    rw early refl,
    λ c n d. absurd (
        omega (
          arith,
          ltb→lt now slot early,
          d.come,
          some_inj (
              sym p
              ∙ ap (λ (x : Reminder). x.next_fire_at_ms) (same_row current row d)
              ∙ d.at_slot),
        )),
  )
  | inr come ↦
      let (a, b, c) = guards _ _ _ fine in
      inr (
        slot,
        record {
          row = row;
          state = is_scheduled_eq current.state a;
          revision = same_number _ _ b;
          same_slot =
              sym (slots_same current.next_fire_at_ms snapshot.reminder.next_fire_at_ms c) ∙ p;
          at_slot = p;
          come = ltb_false→le now slot come;
        },
        rw come refl,
      )
]

-- A due snapshot, with its step from there on; or nothing happens.
pub Due-or_skip :
    (env : Env) (snapshot : OwnedReminder) (now : ℕ) (s : Store)
    → ((materialize_due_reminder env snapshot now s ≡ (ok none, s)) × NotDue snapshot now s)
      ⊎ ((current : Reminder) × (slot : ℕ) × Due snapshot now s current slot
          × (materialize_due_reminder env snapshot now s
              ≡ fire_next env
                  (recurrence env slot current.repeat_rule current.timezone)
                  snapshot.agent_id
                  current
                  slot
                  now
                  s))
unfolding materialize_due_reminder
Due-or_skip env snapshot now s = go (s.reminders (key_of snapshot)) refl
  where
    go :
        (o : Option Reminder)
        → s.reminders (key_of snapshot) ≡ o
        → ((fire_current env o snapshot now s ≡ (ok none, s)) × NotDue snapshot now s)
          ⊎ ((current : Reminder) × (slot : ℕ) × Due snapshot now s current slot
              × (fire_current env o snapshot now s
                  ≡ fire_next env
                      (recurrence env slot current.repeat_rule current.timezone)
                      snapshot.agent_id
                      current
                      slot
                      now
                      s))
    go none p = inl (unfold fire_current in refl, λ c n d. absurd (cc (p, d.row)))
    go (some current) p = elim (Bool-cases (stale current snapshot)) [
      | inl old ↦ inl (
        unfold fire_current in rw old refl,
        λ c n d.
            absurd (
              cc
                (ap (λ (x : Reminder). stale x snapshot) (same_row current p d), old, not_stale d)),
      )
      | inr fine ↦ elim (slot_step env snapshot now s current p fine current.next_fire_at_ms refl) [
        | inl (skip, not_due) ↦ inl (unfold fire_current in rw fine skip, not_due)
        | inr (slot, due, step) ↦ inr (current, slot, due, unfold fire_current in rw fine step)
      ]
    ]
