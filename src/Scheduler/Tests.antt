-- ===== src/Scheduler/Tests.antt =====
-- Materialisations on a concrete store.
use mathlib.Core.Option
use bazaar_compute_node.Prelude.Texts.{append}
use bazaar_compute_node.Reminder.Render.{
  render_reminder_fire_body, body_for, one_time_body, first_chars,
}
use bazaar_compute_node.Prelude.{
  ℕ, subst, false, true, ◌≤◌, ◌≡◌, refl, sym, ◌∙◌, ap, arith, Option, none, some, some_inj, [],
}
use bazaar_compute_node.Prelude.Result.{ok, err}
use bazaar_compute_node.Reminder.{
  Reminder, scheduled, fired, canceled, construct, cancel, record_fire, fire_target, fire_into,
  post_init_error, shape_error, history_error, first_error, raise_or,
}
use bazaar_compute_node.Reminder.Laws.{IsValid}
use bazaar_compute_node.Scheduler.{
  OwnedReminder, Key, key_of, same_key, Anchor, SystemMessage, Store, Env, update_row,
  materialize_due_reminder, fire_current, fire_slot, fire_next, fire_recorded, fire_anchored,
  recurrence, materialize_owned_reminder_message, fire_over, cancel_unusable,
  save_owned_reminder_transition, save_over, fire_rendered, save_system_message, system_error,
  same_binding, insert_unless, add_message, rolled_back, saved_as, save_raises, used_id,
}
use bazaar_compute_node.Scheduler.Laws.{Keyed, Due, Ends, Recurs, Moved, Accepts, Formats}
use bazaar_compute_node.Scheduler.Ends.{materialize-Ends}
use bazaar_compute_node.Scheduler.Once.{at_most_once}
use bazaar_compute_node.Scheduler.Moves.{Due-moves, Deliverable}

abbrev row_of : Key → Reminder
row_of k = record {
  reminder_id = k.reminder_id;
  owner_thread_id = k.owner_thread_id;
  anchor_message_id = "m";
  title = "water";
  state = scheduled;
  next_fire_at_ms = some 500;
  repeat_rule = none;
  timezone = "UTC";
  revision = 1;
  last_occurrence_no = 0;
  created_at_ms = 100;
  updated_at_ms = 100;
  last_fired_at_ms = none;
  canceled_at_ms = none;
}

abbrev key : Key
key = record { agent_id = "a"; owner_thread_id = "o"; reminder_id = "r" }

abbrev snapshot : OwnedReminder
snapshot = record { agent_id = "a"; reminder = row_of key }

abbrev human : Anchor
human = record {
  binding = record {
    channel_session_id = "c";
    channel = some "telegram";
    provider_thread_id = none;
    target_kind = "dm";
  };
  target = "t";
}

-- Every key has a row; there is an inbound message for every reminder, or for none.
abbrev store : Store
store = record {
  reminders = λ k. some (row_of k);
  inbound = λ a t m. some human;
  bindings = λ a t. some human.binding;
  message_ids = λ i. false;
  messages = [];
}

abbrev without_anchor : Store
without_anchor = record store { inbound = λ a t m. none }

abbrev env : Env
env = record {
  next_recurrence_ms = λ slot rule timezone. none;
  format_utc_timestamp = λ t. none;
  dumps = λ t. t;
  new_id = "n";
}

store-Keyed : Keyed store
store-Keyed k r h = (
  ap (λ (x : Reminder). x.owner_thread_id) (sym (some_inj h)),
  ap (λ (x : Reminder). x.reminder_id) (sym (some_inj h)),
)

abbrev message : SystemMessage
message = record {
  message_id = "n";
  agent_id = "a";
  thread_id = "o";
  anchor = human;
  received_at_ms = 600;
  body = "🔔 Reminder #r (one-time) — t — water";
  reminder_id = "r";
}

fires_in_time : (materialize_due_reminder env snapshot 600 store).0 ≡ ok (some message)
unfolding materialize_due_reminder fire_current fire_slot recurrence fire_next record_fire
    fire_target fire_into construct post_init_error shape_error history_error first_error raise_or
    fire_recorded fire_anchored fire_rendered render_reminder_fire_body body_for one_time_body
    first_chars append materialize_owned_reminder_message fire_over save_system_message system_error
    same_binding insert_unless add_message rolled_back saved_as update_row key_of
fires_in_time = refl

early_skips : materialize_due_reminder env snapshot 499 store ≡ (ok none, store)
unfolding materialize_due_reminder fire_current fire_slot
early_skips = refl

no_anchor_cancels :
    Option.map
      (λ r. r.state)
      ((materialize_due_reminder env snapshot 600 without_anchor).1.reminders key)
    ≡ some canceled
unfolding materialize_due_reminder fire_current fire_slot recurrence fire_next record_fire
    fire_target fire_into construct post_init_error shape_error history_error first_error raise_or
    fire_recorded fire_anchored cancel_unusable cancel save_owned_reminder_transition save_over
    key_of update_row same_key
no_anchor_cancels = refl

materialize-Ends_example :
    Ends env snapshot 600 store (materialize_due_reminder env snapshot 600 store)
materialize-Ends_example = materialize-Ends env snapshot 600 store store-Keyed

-- The store after the reminder has fired, and the row in it.
abbrev fired_store : Store
fired_store = (materialize_due_reminder env snapshot 600 store).1

abbrev rung : Reminder
rung = record (row_of key) {
  state = fired;
  next_fire_at_ms = none;
  revision = 2;
  last_occurrence_no = 1;
  updated_at_ms = 600;
  last_fired_at_ms = some 600;
}

rung_row : fired_store.reminders (key_of snapshot) ≡ some rung
unfolding materialize_due_reminder fire_current fire_slot recurrence fire_next record_fire
    fire_target fire_into construct post_init_error shape_error history_error first_error raise_or
    fire_recorded fire_anchored fire_rendered render_reminder_fire_body body_for one_time_body
    first_chars append materialize_owned_reminder_message fire_over save_system_message system_error
    same_binding insert_unless add_message rolled_back saved_as key_of update_row same_key
rung_row = refl

not_back :
    (x : Reminder) → fired_store.reminders (key_of snapshot) ≡ some x → x.revision ≤ rung.revision
not_back x h = omega (arith, ap (λ (r : Reminder). r.revision) (some_inj (sym rung_row ∙ h)))

at_most_once_example :
    materialize_due_reminder env snapshot 700 fired_store ≡ (ok none, fired_store)
at_most_once_example =
    at_most_once env snapshot 600 700 store fired_store message rung store-Keyed fires_in_time
      rung_row not_back

row-Due : Due snapshot 600 store (row_of key) 500
unfolding key_of
row-Due = record {
  row = refl;
  state = refl;
  revision = refl;
  same_slot = refl;
  at_slot = refl;
  come = omega arith;
}

row-IsValid : IsValid (row_of key)
row-IsValid = record {
  created_first = omega arith;
  fired_within = tt;
  canceled_within = tt;
  shape = ((λ h. cc h), refl);
  history = ((λ h. refl), λ h. refl);
  revisions = omega arith;
}

no_rule : Recurs env (row_of key) 500
no_rule rule n h = absurd (cc h)

accepted : Accepts env "a" "o" human store
accepted = record { has_target = refl; bound = refl; fresh = refl }

no_next : (next : Option ℕ) → recurrence env 500 none "UTC" ≡ some next → Formats env next
unfolding recurrence
no_next none h = tt
no_next (some n) h = absurd (cc h)

row-Deliverable : Deliverable env snapshot 600 store (row_of key) 500
row-Deliverable = record {
  valid = row-IsValid;
  in_order = omega arith;
  recurs = no_rule;
  formats = no_next;
  accepts = λ anchor there. subst (λ a. Accepts env "a" "o" a store) (some_inj there) accepted;
}

-- The id of the message is taken: the save raises, and the row stays as it is.
used_raises :
    materialize_due_reminder env snapshot 600 (record store { message_ids = λ i. true })
    ≡ (err (save_raises used_id), record store { message_ids = λ i. true })
unfolding materialize_due_reminder fire_current fire_slot recurrence fire_next record_fire
    fire_target fire_into construct post_init_error shape_error history_error first_error raise_or
    fire_recorded fire_anchored fire_rendered render_reminder_fire_body body_for one_time_body
    first_chars append materialize_owned_reminder_message fire_over save_system_message system_error
    same_binding insert_unless rolled_back saved_as update_row key_of
used_raises = refl

Due-moves_example :
    (o : Option SystemMessage) × ((materialize_due_reminder env snapshot 600 store).0 ≡ ok o)
    × Moved (materialize_due_reminder env snapshot 600 store).1 (key_of snapshot) 500
Due-moves_example =
    Due-moves env snapshot 600 store (row_of key) 500 store-Keyed row-Due row-Deliverable
