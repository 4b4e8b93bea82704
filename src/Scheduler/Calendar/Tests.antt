-- ===== src/Scheduler/Calendar/Tests.antt =====
-- An hourly reminder that is due, with the recurrence of core/reminder_schedule.py.
use Prim.Native.String.{String}
use bazaar_compute_node.Prelude.{
  ℕ, ◌≡◌, refl, sym, ap, arith, Option, none, some, some_inj, [], subst, false,
}
use bazaar_compute_node.Prelude.Result.{ok}
use bazaar_compute_node.Reminder.{Reminder, scheduled}
use bazaar_compute_node.Reminder.Laws.{IsValid}
use bazaar_compute_node.Schedule.{Chars}
use bazaar_compute_node.Schedule.Slots.{Zone}
use bazaar_compute_node.Scheduler.{
  OwnedReminder, Key, key_of, Anchor, SystemMessage, Store, recurrence, materialize_due_reminder,
}
use bazaar_compute_node.Scheduler.Laws.{Keyed, Due, Moved, Accepts, Formats}
use bazaar_compute_node.Scheduler.Calendar.{calendar_env, Due-moves_calendar}

abbrev row_of : Key → Reminder
row_of k = record {
  reminder_id = k.reminder_id;
  owner_thread_id = k.owner_thread_id;
  anchor_message_id = "m";
  title = "stretch";
  state = scheduled;
  next_fire_at_ms = some 500;
  repeat_rule = some "every:1h";
  timezone = "UTC";
  revision = 1;
  last_occurrence_no = 0;
  created_at_ms = 100;
  updated_at_ms = 100;
  last_fired_at_ms = none;
  canceled_at_ms = none;
}

abbrev hourly : Key
hourly = record { agent_id = "a"; owner_thread_id = "o"; reminder_id = "r" }

abbrev listed : OwnedReminder
listed = record { agent_id = "a"; reminder = row_of hourly }

abbrev asked : Anchor
asked = record {
  binding = record {
    channel_session_id = "c";
    channel = some "telegram";
    provider_thread_id = none;
    target_kind = "dm";
  };
  target = "t";
}

abbrev store : Store
store = record {
  reminders = λ k. some (row_of k);
  inbound = λ a t m. some asked;
  bindings = λ a t. some asked.binding;
  message_ids = λ i. false;
  messages = [];
}

-- The zone of UTC, whatever its name.
abbrev only_utc : Chars → Option Zone
only_utc name = some (record { local = λ u. u; instant = λ v. v })

-- No matter what the times look like.
abbrev some_time : ℕ → Option String
some_time t = some "then"

abbrev as_is : String → String
as_is t = t

store-Keyed : Keyed store
store-Keyed k r h = (
  ap (λ (x : Reminder). x.owner_thread_id) (sym (some_inj h)),
  ap (λ (x : Reminder). x.reminder_id) (sym (some_inj h)),
)

listed-Due : Due listed 600 store (row_of hourly) 500
unfolding key_of
listed-Due = record {
  row = refl;
  state = refl;
  revision = refl;
  same_slot = refl;
  at_slot = refl;
  come = omega arith;
}

hourly-IsValid : IsValid (row_of hourly)
hourly-IsValid = record {
  created_first = omega arith;
  fired_within = tt;
  canceled_within = tt;
  shape = ((λ h. cc h), refl);
  history = ((λ h. refl), λ h. refl);
  revisions = omega arith;
}

accepted : Accepts (calendar_env only_utc some_time as_is "n") "a" "o" asked store
accepted = record { has_target = refl; bound = refl; fresh = refl }

all_written :
    (next : Option ℕ)
    → recurrence (calendar_env only_utc some_time as_is "n") 500 (some "every:1h") "UTC" ≡ some next
    → Formats (calendar_env only_utc some_time as_is "n") next
all_written none h = tt
all_written (some n) h = λ e. cc e

Due-moves_calendar_example :
    (o : Option SystemMessage) × ((materialize_due_reminder
        (calendar_env only_utc some_time as_is "n")
        listed
        600
        store).0
      ≡ ok o)
    × Moved
        (materialize_due_reminder (calendar_env only_utc some_time as_is "n") listed 600 store).1
        (key_of listed)
        500
Due-moves_calendar_example =
    Due-moves_calendar only_utc some_time as_is "n" listed 600 store (row_of hourly) 500 store-Keyed
      listed-Due hourly-IsValid (omega arith) all_written
      (λ anchor there.
        subst (λ a. Accepts (calendar_env only_utc some_time as_is "n") "a" "o" a store)
          (some_inj there) accepted)
