-- ===== src/TimerWheel/Tests.antt =====
-- The wheel on concrete inputs.
use mathlib.Core.Option
use bazaar_compute_node.Prelude.{
  [], ℕ, ◌+◌, ◌≤◌, ◌≢◌, max, ◌≡◌, refl, arith, Bool, true, false, Option, none, some, pos, negsuc,
  if◌then◌else◌, ◌==◌,
}
use bazaar_compute_node.Prelude.Dict.{get, put, pop, values}
use bazaar_compute_node.Timer.{
  returned, raised, finished, only_active, negative_delay, new_timer, expire, settle, close,
}
use bazaar_compute_node.TimerWheel.{
  TimerWheel, near, upper, clear_all, new_wheel, advance_to, ticks, tick, cascade, cascade_level,
  expire_near, expire_all, expire_or_reinsert, rebuild, reinsert_all, insert, set_bucket, set_near,
  set_upper, select, modify, place_of, bit_length, bits,
}
use bazaar_compute_node.TimerWheel.Methods.{
  create, create_after, add_timer, require_running, delay_ticks, start, reset, cancel, close_begin,
  close_end, close_timers, run_step, loop_head,
}
use bazaar_compute_node.TimerWheel.Inv.{IsValid}
use bazaar_compute_node.TimerWheel.Due.{expire_due, timers-advance_to}
use bazaar_compute_node.TimerWheel.Runs.{
  Reach, new, after, starts, creates, Reach-IsValid, never_early, drives,
}
use bazaar_compute_node.TimerWheel.Wakeups.{no_lost_wakeup}
use bazaar_compute_node.TimerWheel.Effects.{
  now, create-timers, reset-timers, reset_late, cancel_stops,
}

-- The place of a deadline: in the near array, at a level by its distance, and at the last level.
place_near : place_of 250 300 ≡ (near, 44)
unfolding place_of bit_length bits
place_near = refl

place_upper : place_of 0 70000 ≡ (upper 1, 4)
unfolding place_of bit_length bits
place_upper = refl

delay_rounds_up : delay_ticks (pos 101) ≡ returned 11
unfolding delay_ticks
delay_rounds_up = refl

delay_zero : delay_ticks (pos 0) ≡ returned 1
unfolding delay_ticks
delay_zero = refl

delay_negative : delay_ticks (negsuc 0) ≡ raised negative_delay
unfolding delay_ticks
delay_negative = refl

-- A wheel that runs, and one with a timer that is due at tick 10 under the id 1.
abbrev running_wheel : TimerWheel
running_wheel = (start 0 (new_wheel 0)).1

abbrev one_timer : TimerWheel
one_timer = (create 0 (pos 100) running_wheel).1

running-Reach : Reach running_wheel
running-Reach = after (new 0) (starts 0 (new_wheel 0))

one_timer-Reach : Reach one_timer
one_timer-Reach = after running-Reach (creates 0 (pos 100) running_wheel)

one_timer-IsValid : IsValid one_timer
one_timer-IsValid = Reach-IsValid one_timer-Reach

abbrev state_at : ℕ → Option (Bool × Option ℕ)
state_at t = Option.map (λ x. (x.active, x.expired_generation)) ((advance_to t one_timer).timers 1)

not_yet : state_at 9 ≡ some (true, none)
unfolding start new_wheel create create_after add_timer require_running delay_ticks insert
    set_bucket set_near set_upper place_of bit_length bits advance_to ticks tick cascade
    cascade_level reinsert_all expire_near expire_all expire_or_reinsert modify expire settle select
    get put pop values rebuild new_timer
not_yet = refl

on_time : state_at 10 ≡ some (false, some 1)
unfolding start new_wheel create create_after add_timer require_running delay_ticks insert
    set_bucket set_near set_upper place_of bit_length bits advance_to ticks tick cascade
    cascade_level reinsert_all expire_near expire_all expire_or_reinsert modify expire settle select
    get put pop values rebuild new_timer
on_time = refl

-- The driver goes to sleep and wakes at 200 ms.
abbrev fired_wheel : TimerWheel
fired_wheel = run_step 200000000 (run_step 0 one_timer)

fired-Reach : Reach fired_wheel
fired-Reach =
    after (after one_timer-Reach (drives 0 one_timer)) (drives 200000000 (run_step 0 one_timer))

fired_timer : fired_wheel.timers 1 ≡ some (expire 1 (new_timer 10))
unfolding start new_wheel create create_after add_timer require_running delay_ticks insert
    set_bucket set_near set_upper place_of bit_length bits advance_to ticks tick cascade
    cascade_level reinsert_all expire_near expire_all expire_or_reinsert modify expire settle select
    get put pop values rebuild new_timer run_step loop_head
fired_timer = refl

has_expired : (expire 1 (new_timer 10)).expired_generation ≢ none
unfolding expire new_timer settle
has_expired h = cc h

never_early_example : (expire 1 (new_timer 10)).deadline_tick ≤ fired_wheel.current_tick
never_early_example = never_early 1 (expire 1 (new_timer 10)) fired-Reach fired_timer has_expired

timers-advance_to_example :
    (advance_to 20 one_timer).timers 1
    ≡ Option.map (expire_due (max one_timer.current_tick 20)) (one_timer.timers 1)
timers-advance_to_example = timers-advance_to 20 1 one_timer-IsValid

Reach-IsValid_example : IsValid one_timer
Reach-IsValid_example = Reach-IsValid one_timer-Reach

running-IsValid : IsValid running_wheel
running-IsValid = Reach-IsValid running-Reach

create-timers_example :
    ((create 0 (pos 100) running_wheel).0 ≡ returned running_wheel.next_timer_id)
    × ((i : ℕ)
        → (create 0 (pos 100) running_wheel).1.timers i ≡ (
            if running_wheel.next_timer_id == i
            then some (new_timer (now 0 running_wheel + 10))
            else Option.map (expire_due (now 0 running_wheel)) (running_wheel.timers i)))
unfolding start new_wheel delay_ticks
create-timers_example = create-timers 0 (pos 100) 10 running-IsValid refl refl refl

cancel_stops_example : (advance_to 20 (cancel 1 one_timer)).timers 1 ≡ (cancel 1 one_timer).timers 1
cancel_stops_example = cancel_stops 1 20 one_timer-IsValid

-- At 50 ms the timer is reset; at 200 ms it is too late.
reset-timers_example :
    ((reset 1 50000000 (pos 500) one_timer).0 ≡ returned finished)
    × ((reset 1 50000000 (pos 500) one_timer).1.timers 1
        ≡ some (record (new_timer 10) {
          deadline_tick = now 50000000 one_timer + 50;
          generation = (new_timer 10).generation + 1;
          expired_generation = none;
          expiry_consumed = false;
        }))
unfolding start new_wheel create create_after add_timer require_running delay_ticks insert
    set_bucket set_near set_upper place_of bit_length bits advance_to new_timer
reset-timers_example =
    reset-timers 1 50000000 (pos 500) 50 (new_timer 10) one_timer-IsValid refl refl refl refl refl
      (omega arith)

reset_late_example :
    ((reset 1 200000000 (pos 500) one_timer).0 ≡ raised only_active)
    × ((reset 1 200000000 (pos 500) one_timer).1.timers 1
        ≡ some (expire_due (now 200000000 one_timer) (new_timer 10)))
unfolding start new_wheel create create_after add_timer require_running delay_ticks insert
    set_bucket set_near set_upper place_of bit_length bits advance_to new_timer
reset_late_example =
    reset_late 1 200000000 (pos 500) 50 (new_timer 10) one_timer-IsValid refl refl refl refl refl
      (omega arith)

-- The wheel with its one timer is closed.
abbrev closed_wheel : TimerWheel
closed_wheel = close_end (close_begin one_timer)

closed_timer : closed_wheel.timers 1 ≡ some (close (new_timer 10))
unfolding start new_wheel create create_after add_timer require_running delay_ticks insert
    set_bucket set_near set_upper place_of bit_length bits advance_to modify select get put pop
    values close_begin close_end close_timers clear_all new_timer close
closed_timer = refl

-- The driver of a wheel without timers parks.
abbrev parked_wheel : TimerWheel
parked_wheel = run_step 0 running_wheel

no_lost_wakeup_example : (parked_wheel.waiting_poke ≡ true) × (parked_wheel.entries ≡ [])
unfolding start new_wheel run_step loop_head
no_lost_wakeup_example = no_lost_wakeup (after running-Reach (drives 0 running_wheel)) refl refl
