-- ===== src/Reminder/Progress.antt =====
-- A transition that is allowed goes through: `__post_init__` never refuses what it makes of a valid
-- reminder.
use Prim.Native.String.{String}
use bazaar_compute_node.Prelude.{
  ℕ, ◌+◌, ◌≤◌, ◌<◌, ◌≡◌, ◌≢◌, inl, inr, refl, sym, ◌∙◌, ap, subst, arith, Bool, false, not, Option,
  none, some, if◌then◌else◌, le→ltb_false, lt→leb_false, Option-cases,
}
use bazaar_compute_node.Prelude.Result.{Result, ok, err}
use bazaar_compute_node.Reminder.{
  Reminder, ReminderState, scheduled, fired, canceled, is_scheduled, is_canceled, ReminderError,
  in_order, require_scheduled, snooze_from, snooze, update_title, update_next_fire, update_cadence,
  cancel, fire_target, fire_into, other_slot, record_fire, not_scheduled,
}
use bazaar_compute_node.Reminder.Laws.{IsValid, Within, Shape, construct-IsValid}
use bazaar_compute_node.Reminder.Commands.{
  Command, snoozes, retitles, reschedules, repeats, cancels, fires, apply, time_of, NextSlot,
  Allowed,
}

Within-mono : (o : Option ℕ) {l m : ℕ} → l ≤ m → Within o l → Within o m
Within-mono none le h = tt
Within-mono (some v) le h = omega arith

-- The guards, where they let pass.
in_order_pass : {a b : ℕ} (next : Result ReminderError Reminder) → a ≤ b → in_order a b next ≡ next
in_order_pass {a} {b} next h = rw (le→ltb_false a b h) refl

require_pass :
    (r : Reminder) (next : Result ReminderError Reminder)
    → r.state ≡ scheduled
    → require_scheduled r next ≡ next
require_pass r next h = go r.state h
  where
    go :
        (st : ReminderState)
        → st ≡ scheduled
        → (if not (is_scheduled st) then err not_scheduled else next) ≡ next
    go scheduled h = refl
    go fired h = absurd (cc h)
    go canceled h = absurd (cc h)

if_pass :
    {b : Bool} (e : ReminderError) (next : Result ReminderError Reminder)
    → b ≡ false
    → (if b then err e else next) ≡ next
if_pass e next h = rw h refl

-- The facts that a change of neither the state nor the history keeps.
module _ {r : Reminder} (v : IsValid r) (t : ℕ) (le : r.updated_at_ms ≤ t) where
  -- What the transitions other than `record_fire` build.
  abbrev changed : ReminderState → String → Option ℕ → Option String → Option ℕ → Reminder
  changed st title next rule at = record r {
    state = st;
    title = title;
    next_fire_at_ms = next;
    repeat_rule = rule;
    canceled_at_ms = at;
    revision = r.revision + 1;
    updated_at_ms = t;
  }

  changed_valid :
      (st : ReminderState) (title : String) (next : Option ℕ) (rule : Option String) (at : Option ℕ)
      → Within at t
      → Shape st (changed st title next rule at)
      → IsValid (changed st title next rule at)
  changed_valid st title next rule at within shape = record {
    created_first = omega (arith, v.created_first);
    fired_within = Within-mono r.last_fired_at_ms le v.fired_within;
    canceled_within = within;
    shape = shape;
    history = v.history;
    revisions = omega (arith, v.revisions);
  }

  -- What `record_fire` builds.
  abbrev rung : ReminderState → Option ℕ → Reminder
  rung st next = record r {
    state = st;
    next_fire_at_ms = next;
    revision = r.revision + 1;
    last_occurrence_no = r.last_occurrence_no + 1;
    updated_at_ms = t;
    last_fired_at_ms = some t;
  }

  rung_valid :
      (st : ReminderState) (next : Option ℕ)
      → r.canceled_at_ms ≡ none
      → Shape st (rung st next)
      → IsValid (rung st next)
  rung_valid st next p shape = record {
    created_first = omega (arith, v.created_first);
    fired_within = omega arith;
    canceled_within = rw p tt;
    shape = shape;
    history = (λ h. absurd (omega arith), λ h. absurd (cc h));
    revisions = omega (arith, v.revisions);
  }

  -- What a scheduled reminder has.
  scheduled-Shape : r.state ≡ scheduled → Shape scheduled r
  scheduled-Shape st = subst (λ x. Shape x r) st v.shape

  canceled_none : r.state ≡ scheduled → r.canceled_at_ms ≡ none
  canceled_none st = (scheduled-Shape st).1

  -- A target with the state and the slot as they stand.
  same_place :
      (title : String) (rule : Option String)
      → r.state ≡ scheduled
      → IsValid (changed r.state title r.next_fire_at_ms rule r.canceled_at_ms)
  same_place title rule st =
      changed_valid r.state title r.next_fire_at_ms rule r.canceled_at_ms (rw (canceled_none st) tt)
        (subst (λ x. Shape x (changed r.state title r.next_fire_at_ms rule r.canceled_at_ms))
          (sym st) (scheduled-Shape st))

  pub update_title_complete :
      (title : String) → r.state ≡ scheduled → (s : Reminder) × (update_title title t r ≡ ok s)
  unfolding update_title
  update_title_complete title st = (
    changed r.state title r.next_fire_at_ms r.repeat_rule r.canceled_at_ms,
    require_pass r _ st
        ∙ in_order_pass _ le
        ∙ (construct-IsValid _).1 (same_place title r.repeat_rule st),
  )

  pub update_cadence_complete :
      (rule : String) → r.state ≡ scheduled → (s : Reminder) × (update_cadence rule t r ≡ ok s)
  unfolding update_cadence
  update_cadence_complete rule st = (
    changed r.state r.title r.next_fire_at_ms (some rule) r.canceled_at_ms,
    require_pass r _ st
        ∙ in_order_pass _ le
        ∙ (construct-IsValid _).1 (same_place r.title (some rule) st),
  )

  pub update_next_fire_complete :
      (n : ℕ) → r.state ≡ scheduled → t < n → (s : Reminder) × (update_next_fire n t r ≡ ok s)
  unfolding update_next_fire
  update_next_fire_complete n st later = (
    changed r.state r.title (some n) r.repeat_rule r.canceled_at_ms,
    require_pass r _ st
        ∙ in_order_pass _ le
        ∙ if_pass _ _ (lt→leb_false t n later)
        ∙ (construct-IsValid _).1 (
            changed_valid r.state r.title (some n) r.repeat_rule r.canceled_at_ms
              (rw (canceled_none st) tt)
              (subst
                (λ x. Shape x (changed r.state r.title (some n) r.repeat_rule r.canceled_at_ms))
                (sym st) ((λ h. cc h), canceled_none st))),
  )

  pub cancel_complete : r.state ≡ scheduled → (s : Reminder) × (cancel t r ≡ ok s)
  unfolding cancel
  cancel_complete st = (
    changed canceled r.title none r.repeat_rule (some t),
    require_pass r _ st
        ∙ in_order_pass _ le
        ∙ (construct-IsValid _).1 (
            changed_valid canceled r.title none r.repeat_rule (some t) (omega arith)
              (refl, λ h. cc h)),
  )

  -- From either state that can be snoozed there is a base time.
  snooze_base :
      (st : ReminderState)
      → r.state ≡ st
      → st ≢ canceled
      → (b : ℕ) × ((if is_scheduled st then r.next_fire_at_ms else some t) ≡ some b)
        × (is_canceled st ≡ false)
  snooze_base scheduled p h = elim (Option-cases r.next_fire_at_ms) [
    | inl missing ↦ absurd ((scheduled-Shape p).0 missing)
    | inr (b, there) ↦ (b, there, refl)
  ]
  snooze_base fired p h = (t, refl, refl)
  snooze_base canceled p h = absurd (h refl)

  pub snooze_complete : (d : ℕ) → r.state ≢ canceled → (s : Reminder) × (snooze d t r ≡ ok s)
  unfolding snooze snooze_from
  snooze_complete d h =
      let (b, at_b, open_) = snooze_base r.state refl h in
      (
        changed scheduled r.title (some (b + d)) r.repeat_rule none,
        in_order_pass _ le
            ∙ if_pass _ _ open_
            ∙ ap (λ o. snooze_from o d t r) at_b
            ∙ (construct-IsValid _).1 (
                changed_valid scheduled r.title (some (b + d)) r.repeat_rule none tt
                  ((λ q. cc q), refl)),
      )

  rung_from :
      (slot : ℕ) (rule : Option String) (next : Option ℕ)
      → r.repeat_rule ≡ rule
      → r.canceled_at_ms ≡ none
      → NextSlot slot rule next
      → (st : ReminderState) × (fire_target slot rule next ≡ ok st) × IsValid (rung st next)
  unfolding fire_target
  rung_from slot none none p q h = (fired, refl, rung_valid fired none q (refl, p, (λ x. cc x), q))
  rung_from slot none (some n) p q h = absurd h
  rung_from slot (some rule) none p q h = absurd h
  rung_from slot (some rule) (some n) p q h =
      (scheduled, rw (lt→leb_false slot n h) refl, rung_valid scheduled (some n) q ((λ x. cc x), q))

  pub record_fire_complete :
      (slot : ℕ) (next : Option ℕ)
      → Allowed (fires slot t next) r
      → (s : Reminder) × (record_fire slot t next r ≡ ok s)
  unfolding record_fire fire_into
  record_fire_complete slot next (st, at_slot, due, later) =
      let (target, is_target, valid) =
        rung_from slot r.repeat_rule next refl (canceled_none st) later in
      (
        rung target next,
        require_pass r _ st
            ∙ in_order_pass _ le
            ∙ if_pass {b = other_slot slot r.next_fire_at_ms} _ _ (rw at_slot (ground arith))
            ∙ if_pass _ _ (le→ltb_false slot t due)
            ∙ ap (λ o. fire_into o t next r) is_target
            ∙ (construct-IsValid _).1 valid,
      )

-- On a valid reminder a command that is allowed goes through, at any time that is not before the
-- last change: no check of `__post_init__` refuses the outcome.
pub apply_complete :
    (c : Command) {r : Reminder}
    → IsValid r
    → r.updated_at_ms ≤ time_of c
    → Allowed c r
    → (s : Reminder) × (apply c r ≡ ok s)
unfolding apply
apply_complete (snoozes d t) v le h = snooze_complete v t le d h
apply_complete (retitles title t) v le h = update_title_complete v t le title h
apply_complete (reschedules n t) v le (h, k) = update_next_fire_complete v t le n h k
apply_complete (repeats rule t) v le h = update_cadence_complete v t le rule h
apply_complete (cancels t) v le h = cancel_complete v t le h
apply_complete (fires slot t next) v le h = record_fire_complete v t le slot next h
