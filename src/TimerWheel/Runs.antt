-- ===== src/TimerWheel/Runs.antt =====
-- The states of a wheel that its clients and its driver can bring about, call by call.
use bazaar_compute_node.Prelude.{
  ℕ, ◌≤◌, ◌≡◌, ◌≢◌, inl, inr, refl, sym, ◌∙◌, arith, Bool, true, false, ◌||◌, Option, none, some,
  List, [], ◌∷◌, Bool-cases, ℤ, if◌then◌else◌,
}
use bazaar_compute_node.Prelude.Dict.{get, values}
use bazaar_compute_node.Timer.{
  Timer, Wait, finished, wheel_closed, Future, pending, result, exception, Reply, returned, raised,
  close, mark_cancelled, wait_begin,
}
use bazaar_compute_node.TimerWheel.{
  TimerWheel, Entry, Driver, absent, looping, asleep, parked, new_wheel, modify, remove, insert,
  remove_entry, set_bucket, advance_to, tick_of, clear_all,
}
use bazaar_compute_node.TimerWheel.Methods.{
  create, create_after, add_timer, require_running, delay_ticks, is_active, reschedule_after, reset,
  cancel_timer, cancel, wait_start, wait, end_wait, consume, wait_resume, wait_cancelled, start,
  close_begin, close_timers, close_end, loop_head, run_step,
}
use bazaar_compute_node.TimerWheel.Inv.{IsValid}
use bazaar_compute_node.TimerWheel.Due.{timers-advance_to}
use bazaar_compute_node.TimerWheel.Flags.{flags-advance_to}
use bazaar_compute_node.FailureSignal
use bazaar_compute_node.FailureSignal.{disable}
use bazaar_compute_node.TimerWheel.Create.{create-IsValid, require_running_returned}
use bazaar_compute_node.TimerWheel.Touch.{wait-IsValid}
use bazaar_compute_node.TimerWheel.Cancel.{
  cancel-IsValid, wait_resume-IsValid, wait_cancelled-IsValid,
}
use bazaar_compute_node.TimerWheel.Reset.{reset-IsValid}
use bazaar_compute_node.TimerWheel.Lifecycle.{
  IsUnused, new_wheel-IsValid, start-IsValid, close_begin-IsValid, close_end-IsValid,
  run_step-IsValid,
}

-- One call of a method, or one step of the driver. The clock and the timer's id are any numbers.
pub data Step : TimerWheel → TimerWheel → Type 0 where
  starts : (ns : ℕ) (w : TimerWheel) → Step w (start ns w).1
  creates : (ns : ℕ) (delay : ℤ) (w : TimerWheel) → Step w (create ns delay w).1
  resets : (i ns : ℕ) (delay : ℤ) (w : TimerWheel) → Step w (reset i ns delay w).1
  cancels : (i : ℕ) (w : TimerWheel) → Step w (cancel i w)
  waits : (i : ℕ) (w : TimerWheel) → Step w (wait i w).1
  resumes : (i : ℕ) (f : Future) (w : TimerWheel) → Step w (wait_resume i f w).1
  abandons : (i : ℕ) (w : TimerWheel) → Step w (wait_cancelled i w).1
  drives : (ns : ℕ) (w : TimerWheel) → Step w (run_step ns w)
  begins_close : (w : TimerWheel) → Step w (close_begin w)
  ends_close : (w : TimerWheel) → w.closed ≡ true → Step w (close_end w)

pub data Reach : TimerWheel → Type 0 where
  new : (ns : ℕ) → Reach (new_wheel ns)
  after : {v w : TimerWheel} → Reach v → Step v w → Reach w

-- A change that makes no timer, and leaves the two flags alone.
record Quiet (v w : TimerWheel) : Type 0 where
  still_none : (i : ℕ) → v.timers i ≡ none → w.timers i ≡ none
  same_started : w.started ≡ v.started
  same_closed : w.closed ≡ v.closed

Quiet-refl : (w : TimerWheel) → Quiet w w
Quiet-refl w = record { still_none = λ i h. h; same_started = refl; same_closed = refl }

Quiet-trans : {u v w : TimerWheel} → Quiet u v → Quiet v w → Quiet u w
Quiet-trans p q = record {
  still_none = λ i h. q.still_none i (p.still_none i h);
  same_started = q.same_started ∙ p.same_started;
  same_closed = q.same_closed ∙ p.same_closed;
}

Quiet-IsUnused : {v w : TimerWheel} → Quiet v w → IsUnused v → IsUnused w
Quiet-IsUnused q u s c i = q.still_none i (u (sym q.same_started ∙ s) (sym q.same_closed ∙ c) i)

modify-Quiet : (i : ℕ) (f : Timer → Timer) (w : TimerWheel) → Quiet w (modify i f w)
unfolding modify
modify-Quiet i f w = record {
  still_none = λ j h. ground (arith, h);
  same_started = refl;
  same_closed = refl;
}

remove-Quiet : (i : ℕ) (w : TimerWheel) → Quiet w (remove i w)
unfolding remove remove_entry set_bucket
remove-Quiet i w = go (get i w.entries)
  where
    go : (o : Option Entry) → Quiet w (remove_entry i o w)
    go none = Quiet-refl w
    go (some e) = record { still_none = λ j h. h; same_started = refl; same_closed = refl }

insert-Quiet : (i d g : ℕ) (w : TimerWheel) → Quiet w (insert i d g w)
unfolding insert set_bucket
insert-Quiet i d g w = record { still_none = λ j h. h; same_started = refl; same_closed = refl }

advance_to-Quiet : {w : TimerWheel} (t : ℕ) → IsValid w → Quiet w (advance_to t w)
advance_to-Quiet {w} t v = record {
  still_none = λ i h. timers-advance_to t i v ∙ rw h refl;
  same_started = cc (flags-advance_to t w);
  same_closed = cc (flags-advance_to t w);
}

if-Quiet : {u v w : TimerWheel} (b : Bool) → Quiet u v → Quiet u w → Quiet u (if b then v else w)
if-Quiet true p q = p
if-Quiet false p q = q

cancel-Quiet : (i : ℕ) (w : TimerWheel) → Quiet w (cancel i w)
unfolding cancel cancel_timer
cancel-Quiet i w = go (w.timers i)
  where
    go : (o : Option Timer) → Quiet w (cancel_timer i o w)
    go none = Quiet-refl w
    go (some t) = if-Quiet (t.cancelled || t.closed) (Quiet-refl w) (
        Quiet-trans (if-Quiet t.active (remove-Quiet i w) (Quiet-refl w))
          (modify-Quiet i mark_cancelled _))

wait-Quiet : (i : ℕ) (w : TimerWheel) → Quiet w (wait i w).1
unfolding wait wait_start
wait-Quiet i w = go (w.timers i)
  where
    go : (o : Option Timer) → Quiet w (wait_start i o w).1
    go none = Quiet-refl w
    go (some t) = modify-Quiet i (λ s. (wait_begin s).1) w

cancel_if_active-Quiet :
    (i : ℕ) (w : TimerWheel) → Quiet w (if is_active i w then cancel i w else w)
cancel_if_active-Quiet i w = if-Quiet (is_active i w) (cancel-Quiet i w) (Quiet-refl w)

wait_resume-Quiet : (i : ℕ) (f : Future) (w : TimerWheel) → Quiet w (wait_resume i f w).1
unfolding wait_resume
wait_resume-Quiet i pending w = Quiet-refl w
wait_resume-Quiet i result w =
    Quiet-trans (modify-Quiet i consume w) (modify-Quiet i end_wait (modify i consume w))
wait_resume-Quiet i (exception x) w =
    Quiet-trans (cancel_if_active-Quiet i w) (modify-Quiet i end_wait _)

wait_cancelled-Quiet : (i : ℕ) (w : TimerWheel) → Quiet w (wait_cancelled i w).1
unfolding wait_cancelled
wait_cancelled-Quiet i w = Quiet-trans (cancel_if_active-Quiet i w) (modify-Quiet i end_wait _)

close_timers-Quiet : (es : List Entry) (w : TimerWheel) → Quiet w (close_timers es w)
unfolding close_timers
close_timers-Quiet [] w = Quiet-refl w
close_timers-Quiet (e ∷ es) w =
    Quiet-trans (modify-Quiet e.timer close w) (close_timers-Quiet es (modify e.timer close w))

reschedule_after-Quiet :
    {w : TimerWheel} (i ns : ℕ) (r : Reply ℕ) → IsValid w → Quiet w (reschedule_after i ns r w).1
unfolding reschedule_after
reschedule_after-Quiet {w} i ns (raised x) v = Quiet-refl w
reschedule_after-Quiet {w} i ns (returned n) v = elim (Bool-cases (is_active i x)) [
  | inl active ↦ rw active (
      Quiet-trans (advance_to-Quiet (tick_of ns) v) (
        Quiet-trans (remove-Quiet i x)
          (Quiet-trans (modify-Quiet i _ (remove i x)) (insert-Quiet i _ _ _))))
  | inr idle ↦ rw idle (advance_to-Quiet (tick_of ns) v)
]
  where
    x : TimerWheel
    x = advance_to (tick_of ns) w

reset-Quiet : {w : TimerWheel} (i ns : ℕ) (delay : ℤ) → IsValid w → Quiet w (reset i ns delay w).1
unfolding reset
reset-Quiet {w} i ns delay v = elim (Bool-cases (is_active i w)) [
  | inl active ↦ rw active (reschedule_after-Quiet i ns (require_running w (delay_ticks delay)) v)
  | inr idle ↦ rw idle (Quiet-refl w)
]

-- One step of the driver.
loop_head-Quiet : (es : List (ℕ × Entry)) (w : TimerWheel) → Quiet w (loop_head es w)
unfolding loop_head
loop_head-Quiet [] w = record { still_none = λ j h. h; same_started = refl; same_closed = refl }
loop_head-Quiet (e ∷ es) w = record {
  still_none = λ j h. h;
  same_started = refl;
  same_closed = refl;
}

woken-Quiet : (w : TimerWheel) → Quiet w (record w { driver = looping })
woken-Quiet w = record { still_none = λ j h. h; same_started = refl; same_closed = refl }

run_step-Quiet : {w : TimerWheel} (ns : ℕ) → IsValid w → Quiet w (run_step ns w)
unfolding run_step loop_head
run_step-Quiet {w} ns v = go w.driver
  where
    go :
        (d : Driver)
        → Quiet w (elim d [
          | absent ↦ w
          | looping ↦ loop_head w.entries w
          | asleep ↦ record (advance_to (tick_of ns) w) { driver = looping }
          | parked ↦
              if w.poke
              then record w { driver = looping; waiting_poke = false; poke = false }
              else w
        ])
    go absent = Quiet-refl w
    go looping = loop_head-Quiet w.entries w
    go asleep =
        Quiet-trans (advance_to-Quiet (tick_of ns) v) (woken-Quiet (advance_to (tick_of ns) w))
    go parked =
        if-Quiet w.poke (record { still_none = λ j h. h; same_started = refl; same_closed = refl })
          (Quiet-refl w)

-- `start`, `create` and `close` are not quiet.
start-IsUnused : (ns : ℕ) (w : TimerWheel) → IsUnused w → IsUnused (start ns w).1
unfolding start
start-IsUnused ns w u = go w.started w.closed
  where
    go :
        (b c : Bool)
        → IsUnused
            (if◌then◌else◌ {A = Reply Wait × TimerWheel} b
              (returned finished, w)
              (if c then (raised wheel_closed, w) else (
                returned finished,
                record w {
                  started = true;
                  failure = FailureSignal.reset w.failure;
                  current_tick = tick_of ns;
                  driver = looping;
                },
              ))).1
    go true c = u
    go false true = u
    go false false = λ s c i. absurd (cc s)

create-flags : (ns : ℕ) (r : Reply ℕ) (w : TimerWheel) → (create_after ns r w).1.started ≡ w.started
unfolding create_after add_timer insert set_bucket
create-flags ns (raised x) w = refl
create-flags ns (returned n) w = cc (flags-advance_to (tick_of ns) w)

create_after-IsUnused :
    (ns : ℕ) (r : Reply ℕ) (w : TimerWheel)
    → ((n : ℕ) → r ≡ returned n → w.started ≡ true)
    → IsUnused w
    → IsUnused (create_after ns r w).1
create_after-IsUnused ns (raised x) w h u = unfold create_after in u
create_after-IsUnused ns (returned n) w h u =
    λ s c i. absurd (cc (create-flags ns (returned n) w, h n refl, s))

create-IsUnused :
    (ns : ℕ) (delay : ℤ) (w : TimerWheel) → IsUnused w → IsUnused (create ns delay w).1
unfolding create
create-IsUnused ns delay w =
    create_after-IsUnused ns (require_running w (delay_ticks delay)) w
      (λ n h. (require_running_returned w (delay_ticks delay) n h).1)

close_begin-IsUnused : (w : TimerWheel) → IsUnused w → IsUnused (close_begin w)
unfolding close_begin
close_begin-IsUnused w u = go w.closed
  where
    go :
        (b : Bool)
        → IsUnused (
            if b then w else record w {
              failure = disable w.failure;
              closed = true;
              started = false;
              driver = absent;
              waiting_poke = false;
              poke = false;
            })
    go true = u
    go false = λ s c i. absurd (cc c)

clear_all-Quiet : (w : TimerWheel) → Quiet w (clear_all w)
unfolding clear_all
clear_all-Quiet w = record { still_none = λ j h. h; same_started = refl; same_closed = refl }

close_end-Quiet : (w : TimerWheel) → Quiet w (close_end w)
unfolding close_end
close_end-Quiet w =
    Quiet-trans (clear_all-Quiet w) (close_timers-Quiet (values w.entries) (clear_all w))

new_wheel-IsUnused : (ns : ℕ) → IsUnused (new_wheel ns)
unfolding new_wheel
new_wheel-IsUnused ns s c i = refl

Step-IsValid : {v w : TimerWheel} → Step v w → IsValid v → IsUnused v → IsValid w
Step-IsValid (starts ns w) v u = start-IsValid ns v u
Step-IsValid (creates ns delay w) v u = create-IsValid ns delay v
Step-IsValid (resets i ns delay w) v u = reset-IsValid i ns delay v
Step-IsValid (cancels i w) v u = cancel-IsValid i v
Step-IsValid (waits i w) v u = wait-IsValid i v
Step-IsValid (resumes i f w) v u = wait_resume-IsValid i f v
Step-IsValid (abandons i w) v u = wait_cancelled-IsValid i v
Step-IsValid (drives ns w) v u = run_step-IsValid ns v
Step-IsValid (begins_close w) v u = close_begin-IsValid v
Step-IsValid (ends_close w shut) v u = close_end-IsValid v

Step-IsUnused : {v w : TimerWheel} → Step v w → IsValid v → IsUnused v → IsUnused w
Step-IsUnused (starts ns w) v u = start-IsUnused ns w u
Step-IsUnused (creates ns delay w) v u = create-IsUnused ns delay w u
Step-IsUnused (resets i ns delay w) v u = Quiet-IsUnused (reset-Quiet i ns delay v) u
Step-IsUnused (cancels i w) v u = Quiet-IsUnused (cancel-Quiet i w) u
Step-IsUnused (waits i w) v u = Quiet-IsUnused (wait-Quiet i w) u
Step-IsUnused (resumes i f w) v u = Quiet-IsUnused (wait_resume-Quiet i f w) u
Step-IsUnused (abandons i w) v u = Quiet-IsUnused (wait_cancelled-Quiet i w) u
Step-IsUnused (drives ns w) v u = Quiet-IsUnused (run_step-Quiet ns v) u
Step-IsUnused (begins_close w) v u = close_begin-IsUnused w u
Step-IsUnused (ends_close w shut) v u = Quiet-IsUnused (close_end-Quiet w) u

Reach-both : {w : TimerWheel} → Reach w → IsValid w × IsUnused w
Reach-both (new ns) = (new_wheel-IsValid ns, new_wheel-IsUnused ns)
Reach-both (after r s) = let (v, u) = Reach-both r in (Step-IsValid s v u, Step-IsUnused s v u)

-- Every state of the wheel that calls of its methods and steps of its driver bring about, in any
-- order, from a new one is valid.
pub Reach-IsValid : {w : TimerWheel} → Reach w → IsValid w
Reach-IsValid r = (Reach-both r).0

-- In every state of the wheel that calls and steps of its driver bring about from a new one, a timer
-- that has expired was due: its deadline is not after the tick of the wheel.
pub never_early :
    {w : TimerWheel} (i : ℕ) (t : Timer)
    → Reach w
    → w.timers i ≡ some t
    → t.expired_generation ≢ none
    → t.deadline_tick ≤ w.current_tick
never_early i t r at_i expired = ((Reach-IsValid r).inv.timers_valid i t at_i).due expired
