-- ===== src/ReminderCommands/Tests.antt =====
-- Reminder commands on a concrete node.
use Prim.Native.String.{String}
use bazaar_compute_node.Prelude.{
  ◌≡◌, refl, sym, ap, arith, none, some, some_inj, [], ◌∷◌, ◌++◌, true, false,
}
use bazaar_compute_node.Prelude.Result.{ok}
use bazaar_compute_node.Agent.{thread}
use bazaar_compute_node.Reminder.{Reminder, fired, record_fire}
use bazaar_compute_node.Reminder.Laws.{IsValid}
use bazaar_compute_node.Reminder.Commands.{snoozes, Follows}
use bazaar_compute_node.Scheduler.{
  Key, Anchor, Env, recurrence, message_with, materialize_due_reminder,
}
use bazaar_compute_node.Scheduler.Laws.{Keyed, Accepts, text_of}
use bazaar_compute_node.ReminderCommands.{
  Node, threads_in_reach, ChangeRequest, snooze_request, change_reminder, reminder_key,
  resolve_reminder, owner_or,
}
use bazaar_compute_node.ReminderCommands.Requests.{asks_snooze}
use bazaar_compute_node.ReminderCommands.Runs.{
  Ran, after_change, change_reminder-Ran, change_reminder-succeeds,
}
use bazaar_compute_node.ReminderCommands.Create.{
  ScheduleRequest, resolve_anchor, thread_or, schedule_reminder,
}
use bazaar_compute_node.ReminderCommands.Created.{schedule_then_fire}

-- Every key has a row, a reminder that has fired once.
abbrev row_of : Key → Reminder
row_of k = record {
  reminder_id = k.reminder_id;
  owner_thread_id = k.owner_thread_id;
  anchor_message_id = "m";
  title = "water";
  state = fired;
  next_fire_at_ms = none;
  repeat_rule = none;
  timezone = "UTC";
  revision = 2;
  last_occurrence_no = 1;
  created_at_ms = 100;
  updated_at_ms = 500;
  last_fired_at_ms = some 500;
  canceled_at_ms = none;
}

abbrev human : Anchor
human = record {
  binding = record {
    channel_session_id = "c";
    channel = some "telegram";
    provider_thread_id = none;
    target_kind = "dm";
  };
  target = "t";
}

abbrev node : Node
node = record {
  store = record {
    reminders = λ k. some (row_of k);
    inbound = λ a t m. some human;
    bindings = λ a t. some human.binding;
    message_ids = λ i. false;
    messages = [];
  };
  thread_ids = "o" ∷ [];
  has_thread = λ t. true;
  pokes = 0;
}

-- Somebody else pokes while the command waits.
abbrev poked : Node → Node
poked n = record n { pokes = 1 }

node-Keyed : Keyed (poked node).store
node-Keyed k r h = (
  ap (λ (x : Reminder). x.owner_thread_id) (sym (some_inj h)),
  ap (λ (x : Reminder). x.reminder_id) (sym (some_inj h)),
)

row-IsValid : (k : Key) → IsValid (row_of k)
row-IsValid k = record {
  created_first = omega arith;
  fired_within = omega arith;
  canceled_within = tt;
  shape = (refl, refl, (λ h. cc h), refl);
  history = (λ h. absurd (omega (arith, h)), λ h. absurd (cc h));
  revisions = omega arith;
}

abbrev snooze_it : ChangeRequest
snooze_it = snooze_request "r" 60 700

abbrev request : ScheduleRequest
request = record {
  title = "tea";
  message_id = "m";
  next_fire_at_ms = 900;
  repeat_rule = none;
  timezone = "UTC";
}

abbrev env : Env
env = record {
  next_recurrence_ms = λ slot rule timezone. none;
  format_utc_timestamp = λ t. none;
  dumps = λ t. t;
  new_id = "n";
}

found_row : resolve_reminder "a" "r" (threads_in_reach (thread "o") node) node.store ≡ some "o"
unfolding resolve_reminder threads_in_reach owner_or
found_row = refl

found_anchor : resolve_anchor "a" "m" (threads_in_reach (thread "o") node) node.store ≡ some "o"
unfolding resolve_anchor threads_in_reach thread_or
found_anchor = refl

no_recurrence : recurrence env 900 none "UTC" ≡ some none
unfolding recurrence
no_recurrence = refl

change_reminder-Ran_example :
    Ran "a"
      (thread "o")
      snooze_it
      node
      (poked node)
      (change_reminder "a" (thread "o") snooze_it poked node)
change_reminder-Ran_example = change_reminder-Ran "a" (thread "o") snooze_it poked node node-Keyed

change_reminder-succeeds_example :
    (s : Reminder) × Follows (snoozes 60 700) (row_of (reminder_key "a" "o" "r")) s
    × (change_reminder "a" (thread "o") snooze_it poked node
        ≡ (ok s, after_change (reminder_key "a" "o" "r") s (poked node)))
change_reminder-succeeds_example =
    change_reminder-succeeds "a" (thread "o") snooze_it poked node "o"
      (row_of (reminder_key "a" "o" "r")) (snoozes 60 700) node-Keyed found_row refl
      (row-IsValid (reminder_key "a" "o" "r")) (asks_snooze "r" 60 700) (λ h. cc h) (omega arith)

accepted : Accepts env "a" "o" human (poked node).store
accepted = record { has_target = refl; bound = refl; fresh = refl }

schedule_then_fire_example :
    (r rung : Reminder) × (body : String) × ((schedule_reminder "a"
        (thread "o")
        request
        "new"
        800
        poked
        node).0
      ≡ ok r)
    × (record_fire 900 950 none r ≡ ok rung)
    × (text_of env rung human none ≡ ok body)
    × ((materialize_due_reminder env
          (record { agent_id = "a"; reminder = r })
          950
          (schedule_reminder "a" (thread "o") request "new" 800 poked node).1.store).0
        ≡ ok (some (message_with env "a" r human 950 body)))
    × ((materialize_due_reminder env
          (record { agent_id = "a"; reminder = r })
          950
          (schedule_reminder "a" (thread "o") request "new" 800 poked node).1.store).1.messages
        ≡ [] ++ (message_with env "a" r human 950 body ∷ []))
schedule_then_fire_example =
    schedule_then_fire "a" (thread "o") request "new" 800 poked node "o" human env 950 none
      found_anchor refl refl node-Keyed accepted (omega arith) (omega arith) no_recurrence tt tt
