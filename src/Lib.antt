-- ===== src/Lib.antt =====
-- Bazaar Compute Node: a program that runs an agent (a coding runtime such as Codex or Claude) on a
-- machine and lets people talk to it through chat channels. Its core, bazaar_compute_node/core in
-- the folder src of the repository, is free of any channel, runtime or database. This library models
-- parts of the core and proves what makes them correct. All paths below are under
-- src/bazaar_compute_node.
--
-- The parts, and the files that model them:
-- - TimerWheel and Timer: core/timerwheel.py. A hierarchical timing wheel on which the rest of the
--   program waits: a near array of 256 buckets of one tick of 10 ms and four levels of 64 buckets.
--   `Timer` has the timer object, `TimerWheel` the wheel's state and its inner loops, and
--   `TimerWheel.Methods` the methods of both classes. A timer object lives in the heap `timers` of
--   the wheel under its id, so that the buckets, `_entries` and the callers share it. A coroutine is
--   cut where it waits: `wait`, `wait_resume` and `wait_cancelled` are `Timer.wait`, `close_begin` and
--   `close_end` are `TimerWheel.close`, and `run_step` is one step of the task that drives the wheel.
--   The monotonic clock is an argument of each method that reads it. `TimerWheel.Runs.Step` is one
--   call of any method, `Reach` the states that calls in any order lead to.
-- - FailureSignal: `TaskFailureSignal` of core/lifecycle.py, which the wheel resets and disables.
-- - Agent: core/actor.py, who answers for a conversation, and core/agent.py, the condition of the
--   agent as its runtime and its owner drive it.
-- - Reminder: core/models/reminder.py, the durable reminders of the agent. Each transition builds a
--   new object, whose `__post_init__` checks it again; `Reminder.Commands` names the transitions,
--   `Reminder.Laws` says what a reminder has to satisfy, apart from the checks of the code.
-- - Scheduler: `_materialize_due_reminder` of core/orchestration/reminder.py, by which a due reminder
--   becomes a system message, with the two guarded writes of contrib/sqlite/repository/reminders.py
--   and `_save_system_message_for_agent` of contrib/sqlite/repository/messages.py as functions on a
--   store; an exception rolls a firing back. A snapshot is listed first and materialised later, under
--   the lock of its thread: any change of the store may lie between. The clock, the recurrence and the
--   new id are parameters. `Scheduler.Laws.Ends` lists the four ways in which it can end.
--   `Reminder.Render` is the text of the message, `render_reminder_fire_body` of core/reminder.py.
-- - Delivery: core/outcomes.py and core/orchestration/delivery.py, how the answer of a channel
--   becomes the result of an outbound message. The channel is a parameter.
-- - LineReader: core/utils/line_reader.py, how the output of a child process is cut into lines. The
--   stream is a parameter, the list of the chunks that it still brings.
-- - Markdown: core/utils/markdown.py, how a long text is cut to a channel's limit, with the code
--   fence that a cut falls into closed and opened again. Any measure of a text may be given.
-- - Schedule: core/reminder_schedule.py. `Schedule.Rules` parses durations and repeat rules, with a
--   function for each regular expression; `Schedule.Slots` finds the next time of a recurrence, its
--   zone a function from moments to what the zone shows and back; `Schedule.Resolve` makes the schedule
--   of a new reminder. The time zone database and `datetime.fromisoformat` are parameters.
--   `Scheduler.Calendar` puts the recurrence and the scheduler together.
-- - Turn: `RuntimeTurn` of core/models/entities.py and, of core/orchestration/turn.py, how a turn is
--   brought to its end: `Turn` has the turn, the events and the tables of the states, `Turn.Stream`
--   `_consume_turn_stream` with what it calls. A stream is the list of its events with what follows the
--   last one: its end, an exception or the cancellation of the task. What the other awaits come to, of
--   audits, locks and the closing of the stream, is given with the events and in `Awaits`.
-- - Send: core/orchestration/commands/messages.py with the two freshness checks of core/storage.py: a
--   message goes into every conversation of its target, or waits as a draft where something new has been
--   said. `Send.Deliver` has the last look and the deliveries, `Send.Command` the command. What stands
--   in a conversation is a function of its thread, one for each of the two looks; `Others` is what other
--   commands do wherever a send waits.
-- - ReminderCommands: core/orchestration/commands/reminders.py, how the agent sets, snoozes, changes and
--   cancels its reminders, with `save_new_reminder` and `save_reminder_transition` of the storage on the
--   store of `Scheduler`, and the transitions of `Reminder`. `ReminderCommands.Create` has
--   `schedule_reminder`. The code waits for the lock of a conversation after it has found what it looks
--   for: a function on the node stands for all that others do meanwhile.
-- - Prelude: shared names, Boolean tests, lists, Python's dict with integer keys, results.
--
-- Numbers: ticks, times in milliseconds and counters are natural numbers, which Python does not
-- bound; only a delay in `create` and `reset` may be negative, and is an integer. Differences of
-- ticks are taken where the code has made sure that they are not negative, or tests for it. The bit
-- operations of the wheel are written as division and remainder by powers of two.
--
-- Fuel: `int.bit_length` recurs on the number itself, which has no more bits than its value. The
-- loop of `_advance_to` recurs on the rounds that are left, the recursion of `_cascade` on the levels
-- above. `readlines`, the loop of a client of the line reader, has fuel: each of its rounds but the
-- last reads a byte, so that one round more than there are bytes is enough. The loop of
-- `split_markdown` has as many rounds as the text has characters, since each takes one at least.
-- Decimal digits are written with as much fuel as the number.
--
-- Not modelled: the channels, the runtimes, the SQLite storage but for the writes named above and their transaction,
-- the application shell, the command line and the server, which are input and output; of the core,
-- the orchestrator, the listing of reminders and the other commands, the start and the steering of turns, and the loop of the
-- scheduler. Python's bounds on
-- the digits of `int` and on the years of `datetime` are left out. Cancellation of a task in the middle of a call that has no await is not possible in
-- Python's asyncio, and not modelled. `wait_failure` only blocks on its event.
mod Prelude
pub mod FailureSignal
pub mod Timer
pub mod Agent
pub mod Reminder
pub mod Scheduler
pub mod Delivery
pub mod LineReader
pub mod Markdown
pub mod Schedule
pub mod Turn
pub mod Send
pub mod ReminderCommands
pub mod TimerWheel
