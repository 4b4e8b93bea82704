-- ===== src/TimerWheel/Methods.antt =====
-- bazaar_compute_node/core/timerwheel.py: the methods that a client of the wheel calls, and the task
-- that drives it. Where a coroutine waits, its method is cut in two: what other tasks do in between
-- are other calls.
use bazaar_compute_node.Prelude.{
  ℕ, ◌+◌, ◌-◌, ◌/◌, max, Bool, true, false, not, ◌||◌, Option, none, some, List, [], ◌∷◌, ℤ, pos,
  negsuc, ltb, ◌==◌, if◌then◌else◌,
}
use bazaar_compute_node.Prelude.Dict.{values}
use bazaar_compute_node.FailureSignal
use bazaar_compute_node.FailureSignal.{disable}
use bazaar_compute_node.Timer.{
  Timer, Reply, returned, raised, wheel_closed, not_started, only_active, negative_delay,
  beyond_horizon, task_cancelled, new_timer, close, mark_cancelled, Wait, finished, wait_begin,
  Future, pending, result, exception,
}
use bazaar_compute_node.TimerWheel.{
  TimerWheel, Entry, absent, looping, asleep, parked, tick_ms, tick_of, max_delay_ticks, insert,
  remove, advance_to, modify, clear_all,
}

-- `TimerWheel._require_running`, with the value that its caller goes on with.
unfoldable pub require_running : TimerWheel → Reply ℕ → Reply ℕ
require_running w next =
    if w.closed then raised wheel_closed else if not w.started then raised not_started else next

-- `TimerWheel._delay_ticks`; the type rules out what the source answers by `TypeError`.
unfoldable pub delay_ticks : ℤ → Reply ℕ
delay_ticks (negsuc n) = raised negative_delay
delay_ticks (pos n) =
    let ticks = max 1 ((n + tick_ms - 1) / tick_ms) in
    if ltb max_delay_ticks ticks then raised beyond_horizon else returned ticks

-- A new timer object and its entry.
unfoldable pub add_timer : ℕ → TimerWheel → TimerWheel
add_timer deadline w =
    let id = w.next_timer_id in
    insert id deadline 1 (record w {
      next_timer_id = id + 1;
      timers = λ j. if id == j then some (new_timer deadline) else w.timers j;
    })

unfoldable pub create_after : ℕ → Reply ℕ → TimerWheel → Reply ℕ × TimerWheel
create_after ns (raised x) w = (raised x, w)
create_after ns (returned delay) w =
    let w' = advance_to (tick_of ns) w in
    let w'' = add_timer (w'.current_tick + delay) w' in
    (returned w'.next_timer_id, record w'' { poke = w''.waiting_poke || w''.poke })

-- `TimerWheel.create`, which returns the id of the timer.
unfoldable pub create : ℕ → ℤ → TimerWheel → Reply ℕ × TimerWheel
create ns delay w = create_after ns (require_running w (delay_ticks delay)) w

-- Whether the timer object under an id is active. No caller holds an id that was not given out.
unfoldable pub is_active : ℕ → TimerWheel → Bool
is_active i w = elim (w.timers i) [ none ↦ false | some t ↦ t.active ]

-- The assignments of `_reschedule` to the timer.
unfoldable pub rearm : ℕ → Timer → Timer
rearm deadline t = record t {
  deadline_tick = deadline;
  generation = t.generation + 1;
  expired_generation = none;
  expiry_consumed = false;
}

-- `timer.generation`
unfoldable pub generation_of : Option Timer → ℕ
generation_of none = 0
generation_of (some t) = t.generation

unfoldable pub reschedule_after : ℕ → ℕ → Reply ℕ → TimerWheel → Reply Wait × TimerWheel
reschedule_after i ns (raised x) w = (raised x, w)
reschedule_after i ns (returned delay) w =
    let w' = advance_to (tick_of ns) w in
    let deadline = w'.current_tick + delay in
    let w'' = modify i (rearm deadline) (remove i w') in
    if not (is_active i w')
    then (raised only_active, w')
    else (returned finished, insert i deadline (generation_of (w''.timers i)) w'')

-- `Timer.reset`, with `TimerWheel._reschedule`.
unfoldable pub reset : ℕ → ℕ → ℤ → TimerWheel → Reply Wait × TimerWheel
reset i ns delay w =
    if not (is_active i w)
    then (raised only_active, w)
    else reschedule_after i ns (require_running w (delay_ticks delay)) w

unfoldable pub cancel_timer : ℕ → Option Timer → TimerWheel → TimerWheel
cancel_timer i none w = w
cancel_timer i (some t) w =
    if t.cancelled || t.closed
    then w
    else modify i mark_cancelled (if t.active then remove i w else w)

-- `Timer.cancel`
unfoldable pub cancel : ℕ → TimerWheel → TimerWheel
cancel i w = cancel_timer i (w.timers i) w

unfoldable pub wait_start : ℕ → Option Timer → TimerWheel → Reply Wait × TimerWheel
wait_start i none w = (raised only_active, w)
wait_start i (some t) w = ((wait_begin t).0, modify i (λ s. (wait_begin s).1) w)

-- `Timer.wait`, up to `await waiter`.
unfoldable pub wait : ℕ → TimerWheel → Reply Wait × TimerWheel
wait i w = wait_start i (w.timers i) w

-- The `finally` block.
unfoldable pub end_wait : Timer → Timer
end_wait t = record t { waiting = false; waiter = none }

unfoldable pub consume : Timer → Timer
consume t = record t { expiry_consumed = true }

-- `wait` when the future is done: `none` for one that is not. An exception cancels an active timer.
unfoldable pub wait_resume : ℕ → Future → TimerWheel → Option (Reply Wait) × TimerWheel
wait_resume i pending w = (none, w)
wait_resume i result w = (some (returned finished), modify i end_wait (modify i consume w))
wait_resume i (exception x) w =
    (some (raised x), modify i end_wait (if is_active i w then cancel i w else w))

-- The task that waits is cancelled.
unfoldable pub wait_cancelled : ℕ → TimerWheel → Reply Wait × TimerWheel
wait_cancelled i w =
    (raised task_cancelled, modify i end_wait (if is_active i w then cancel i w else w))

-- `TimerWheel.start`
unfoldable pub start : ℕ → TimerWheel → Reply Wait × TimerWheel
start ns w =
    if w.started then (returned finished, w) else if w.closed then (raised wheel_closed, w) else (
      returned finished,
      record w {
        started = true;
        failure = FailureSignal.reset w.failure;
        current_tick = tick_of ns;
        driver = looping;
      },
    )

-- `TimerWheel.close` up to the wait for the driver that it cancels.
unfoldable pub close_begin : TimerWheel → TimerWheel
close_begin w = if w.closed then w else record w {
  failure = disable w.failure;
  closed = true;
  started = false;
  driver = absent;
  waiting_poke = false;
  poke = false;
}

unfoldable pub close_timers : List Entry → TimerWheel → TimerWheel
close_timers [] w = w
close_timers (e ∷ es) w = close_timers es (modify e.timer close w)

-- The rest of `TimerWheel.close`.
unfoldable pub close_end : TimerWheel → TimerWheel
close_end w = close_timers (values w.entries) (clear_all w)

-- The head of the loop of `_run`.
unfoldable pub loop_head : List (ℕ × Entry) → TimerWheel → TimerWheel
loop_head [] w = record w { driver = parked; waiting_poke = true; poke = false }
loop_head (e ∷ es) w = record w { driver = asleep }

-- One step of `_run`: at the head of its loop it parks on `_poke` or goes to sleep for a tick; it
-- wakes from the sleep, or from the poke.
unfoldable pub run_step : ℕ → TimerWheel → TimerWheel
run_step ns w = elim w.driver [
  | absent ↦ w
  | looping ↦ loop_head w.entries w
  | asleep ↦ record (advance_to (tick_of ns) w) { driver = looping }
  | parked ↦ if w.poke then record w { driver = looping; waiting_poke = false; poke = false } else w
]
