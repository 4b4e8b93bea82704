-- ===== src/Reminder/Laws.antt =====
-- What a reminder has to satisfy, said apart from `__post_init__`.
use bazaar_compute_node.Prelude.{
  ℕ, ◌≤◌, ◌<◌, ◌≡◌, ◌≢◌, ◌↔◌, refl, arith, false, Option, none, some, le→ltb_false, ltb_false→le,
  ltb, sym, subst,
}
use bazaar_compute_node.Prelude.Result.{ok}
use bazaar_compute_node.Reminder.{
  Reminder, ReminderState, scheduled, fired, canceled, ReminderError, shape_error, history_error,
  first_error, post_init_error, raise_or, construct, exceeds,
}

-- A time that is there is not after the limit.
abbrev pub Within : Option ℕ → ℕ → Type 0
Within none limit = Unit
Within (some v) limit = v ≤ limit

-- The fields that each state has and has not.
abbrev pub Shape : ReminderState → Reminder → Type 0
Shape scheduled r = (r.next_fire_at_ms ≢ none) × (r.canceled_at_ms ≡ none)
Shape fired r =
    (r.next_fire_at_ms ≡ none)
    × (r.repeat_rule ≡ none)
    × (r.last_fired_at_ms ≢ none)
    × (r.canceled_at_ms ≡ none)
Shape canceled r = (r.next_fire_at_ms ≡ none) × (r.canceled_at_ms ≢ none)

pub record IsValid (r : Reminder) : Type 0 where
  pub created_first : r.created_at_ms ≤ r.updated_at_ms
  pub fired_within : Within r.last_fired_at_ms r.updated_at_ms
  pub canceled_within : Within r.canceled_at_ms r.updated_at_ms
  pub shape : Shape r.state r
  pub history : (r.last_occurrence_no ≡ 0) ↔ (r.last_fired_at_ms ≡ none)
  pub revisions : r.last_occurrence_no < r.revision

Shape-sound : (st : ReminderState) (r : Reminder) → shape_error st r ≡ none → Shape st r
unfolding shape_error
Shape-sound scheduled r h = ground arith
Shape-sound fired r h = ground arith
Shape-sound canceled r h = ground arith

Shape-complete : (st : ReminderState) (r : Reminder) → Shape st r → shape_error st r ≡ none
unfolding shape_error
Shape-complete scheduled r h = ground arith
Shape-complete fired r h = ground arith
Shape-complete canceled r h = ground arith

Within-exceeds : (o : Option ℕ) (l : ℕ) → exceeds o l ≡ false → Within o l
Within-exceeds none l h = tt
Within-exceeds (some v) l h = ground arith

exceeds-Within : (o : Option ℕ) (l : ℕ) → Within o l → exceeds o l ≡ false
exceeds-Within none l h = refl
exceeds-Within (some v) l h = ground arith

history_sound :
    (r : Reminder)
    → history_error r ≡ none
    → ((r.last_occurrence_no ≡ 0) ↔ (r.last_fired_at_ms ≡ none))
      × (r.last_occurrence_no < r.revision)
unfolding history_error
history_sound r h = ground arith

history_complete :
    (r : Reminder)
    → ((r.last_occurrence_no ≡ 0) ↔ (r.last_fired_at_ms ≡ none))
    → r.last_occurrence_no < r.revision
    → history_error r ≡ none
unfolding history_error
history_complete r h k = ground arith

first_error-none : (e f : Option ReminderError) → first_error e f ≡ none → (e ≡ none) × (f ≡ none)
unfolding first_error
first_error-none none f h = (refl, h)
first_error-none (some e) f h = cc

post_init_parts :
    (r : Reminder)
    → post_init_error r ≡ none
    → (ltb r.updated_at_ms r.created_at_ms ≡ false)
      × (exceeds r.last_fired_at_ms r.updated_at_ms ≡ false)
      × (exceeds r.canceled_at_ms r.updated_at_ms ≡ false)
      × (first_error (shape_error r.state r) (history_error r) ≡ none)
unfolding post_init_error
post_init_parts r h = ground arith

post_init_sound : (r : Reminder) → post_init_error r ≡ none → IsValid r
post_init_sound r h =
    let (a, b, c, d) = post_init_parts r h in
    let (shape_ok, history_ok) = first_error-none (shape_error r.state r) (history_error r) d in
    let (history, revisions) = history_sound r history_ok in
    record {
      created_first = ltb_false→le r.updated_at_ms r.created_at_ms a;
      fired_within = Within-exceeds r.last_fired_at_ms r.updated_at_ms b;
      canceled_within = Within-exceeds r.canceled_at_ms r.updated_at_ms c;
      shape = Shape-sound r.state r shape_ok;
      history = history;
      revisions = revisions;
    }

post_init_complete : (r : Reminder) → IsValid r → post_init_error r ≡ none
unfolding post_init_error first_error
post_init_complete r v =
    rw
      (
        le→ltb_false r.created_at_ms r.updated_at_ms v.created_first,
        exceeds-Within r.last_fired_at_ms r.updated_at_ms v.fired_within,
        exceeds-Within r.canceled_at_ms r.updated_at_ms v.canceled_within,
        Shape-complete r.state r v.shape,
      )
      (history_complete r v.history v.revisions)

-- The constructor accepts exactly the reminders that satisfy `IsValid`, and returns them as they
-- are.
pub construct-IsValid : (r : Reminder) → (construct r ≡ ok r) ↔ IsValid r
unfolding construct raise_or
construct-IsValid r =
    (λ h. post_init_sound r (ground (arith, h)), λ v. rw (post_init_complete r v) refl)

pub construct_ok : {r s : Reminder} → construct r ≡ ok s → IsValid s × (s ≡ r)
unfolding construct
construct_ok {r} {s} h = go (post_init_error r) refl h
  where
    go :
        (o : Option ReminderError)
        → post_init_error r ≡ o
        → raise_or o r ≡ ok s
        → IsValid s × (s ≡ r)
    go none p h =
        let same : r ≡ s = unfold raise_or in cc in
        (subst IsValid same (post_init_sound r p), sym same)
    go (some e) p h = absurd (unfold raise_or in cc)
