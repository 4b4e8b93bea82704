-- ===== src/TimerWheel/Wakeups.antt =====
-- The driver that waits for its poke: it does not sleep through a timer.
use bazaar_compute_node.Prelude.{
  ℕ, ◌≡◌, ◌≢◌, inl, inr, refl, sym, ◌∙◌, Bool, true, false, ◌||◌, Option, none, some, List, [], ◌∷◌,
  Bool-cases, ℤ, if◌then◌else◌,
}
use bazaar_compute_node.Prelude.Dict.{get, values}
use bazaar_compute_node.Timer.{
  Timer, Wait, finished, wheel_closed, Future, pending, result, exception, Reply, returned, raised,
  close, mark_cancelled, wait_begin,
}
use bazaar_compute_node.TimerWheel.{
  Bucket, TimerWheel, Entry, Driver, absent, looping, asleep, parked, new_wheel, modify, remove,
  insert, remove_entry, set_bucket, advance_to, tick_of, clear_all,
}
use bazaar_compute_node.TimerWheel.Methods.{
  create, create_after, add_timer, require_running, delay_ticks, is_active, reschedule_after, reset,
  cancel_timer, cancel, wait_start, wait, end_wait, consume, wait_resume, wait_cancelled, start,
  close_begin, close_timers, close_end, loop_head, run_step,
}
use bazaar_compute_node.TimerWheel.Inv.{IsValid}
use bazaar_compute_node.TimerWheel.Flags.{flags-advance_to}
use bazaar_compute_node.FailureSignal
use bazaar_compute_node.FailureSignal.{disable}
use bazaar_compute_node.TimerWheel.Runs.{
  Step, starts, creates, resets, cancels, waits, resumes, abandons, drives, begins_close,
  ends_close, Reach, new, after, Reach-IsValid,
}
use bazaar_compute_node.TimerWheel.Due.{entry_of_active}
use bazaar_compute_node.Prelude.Dict.{Dict, pop, get-nil}
use bazaar_compute_node.TimerWheel.Flags.{flags-advance_to}

-- Where the driver is parked, its event is the one that `create` sets, and it is set if there is an
-- entry.
abbrev pub IsAwake : TimerWheel → Type 0
IsAwake w = w.driver ≡ parked → (w.waiting_poke ≡ true) × (w.poke ≡ false → w.entries ≡ [])

-- A change that adds no entry to a wheel that has none, and leaves alone the driver and its event.
record Calm (v w : TimerWheel) : Type 0 where
  still_empty : v.entries ≡ [] → w.entries ≡ []
  same_driver : w.driver ≡ v.driver
  same_waiting : w.waiting_poke ≡ v.waiting_poke
  same_poke : w.poke ≡ v.poke

Calm-refl : (w : TimerWheel) → Calm w w
Calm-refl w = record {
  still_empty = λ h. h;
  same_driver = refl;
  same_waiting = refl;
  same_poke = refl;
}

Calm-trans : {u v w : TimerWheel} → Calm u v → Calm v w → Calm u w
Calm-trans p q = record {
  still_empty = λ h. q.still_empty (p.still_empty h);
  same_driver = q.same_driver ∙ p.same_driver;
  same_waiting = q.same_waiting ∙ p.same_waiting;
  same_poke = q.same_poke ∙ p.same_poke;
}

Calm-IsAwake : {v w : TimerWheel} → Calm v w → IsAwake v → IsAwake w
Calm-IsAwake q a d =
    let x = a (sym q.same_driver ∙ d) in
    (q.same_waiting ∙ x.0, λ p. q.still_empty (x.1 (sym q.same_poke ∙ p)))

modify-Calm : (i : ℕ) (f : Timer → Timer) (w : TimerWheel) → Calm w (modify i f w)
unfolding modify
modify-Calm i f w = record {
  still_empty = λ h. h;
  same_driver = refl;
  same_waiting = refl;
  same_poke = refl;
}

pop-empty : (i : ℕ) (d : Dict Entry) → d ≡ [] → pop i d ≡ []
unfolding pop
pop-empty i d h = rw h refl

remove-Calm : (i : ℕ) (w : TimerWheel) → Calm w (remove i w)
unfolding remove remove_entry set_bucket
remove-Calm i w = go (get i w.entries)
  where
    go : (o : Option Entry) → Calm w (remove_entry i o w)
    go none = Calm-refl w
    go (some e) = record {
      still_empty = λ h. pop-empty i w.entries h;
      same_driver = refl;
      same_waiting = refl;
      same_poke = refl;
    }

if-Calm : {u v w : TimerWheel} (b : Bool) → Calm u v → Calm u w → Calm u (if b then v else w)
if-Calm true p q = p
if-Calm false p q = q

cancel-Calm : (i : ℕ) (w : TimerWheel) → Calm w (cancel i w)
unfolding cancel cancel_timer
cancel-Calm i w = go (w.timers i)
  where
    go : (o : Option Timer) → Calm w (cancel_timer i o w)
    go none = Calm-refl w
    go (some t) = if-Calm (t.cancelled || t.closed) (Calm-refl w) (
        Calm-trans (if-Calm t.active (remove-Calm i w) (Calm-refl w))
          (modify-Calm i mark_cancelled _))

wait-Calm : (i : ℕ) (w : TimerWheel) → Calm w (wait i w).1
unfolding wait wait_start
wait-Calm i w = go (w.timers i)
  where
    go : (o : Option Timer) → Calm w (wait_start i o w).1
    go none = Calm-refl w
    go (some t) = modify-Calm i (λ s. (wait_begin s).1) w

cancel_if_active-Calm : (i : ℕ) (w : TimerWheel) → Calm w (if is_active i w then cancel i w else w)
cancel_if_active-Calm i w = if-Calm (is_active i w) (cancel-Calm i w) (Calm-refl w)

wait_resume-Calm : (i : ℕ) (f : Future) (w : TimerWheel) → Calm w (wait_resume i f w).1
unfolding wait_resume
wait_resume-Calm i pending w = Calm-refl w
wait_resume-Calm i result w =
    Calm-trans (modify-Calm i consume w) (modify-Calm i end_wait (modify i consume w))
wait_resume-Calm i (exception x) w =
    Calm-trans (cancel_if_active-Calm i w) (modify-Calm i end_wait _)

wait_cancelled-Calm : (i : ℕ) (w : TimerWheel) → Calm w (wait_cancelled i w).1
unfolding wait_cancelled
wait_cancelled-Calm i w = Calm-trans (cancel_if_active-Calm i w) (modify-Calm i end_wait _)

close_timers-Calm : (es : List Entry) (w : TimerWheel) → Calm w (close_timers es w)
unfolding close_timers
close_timers-Calm [] w = Calm-refl w
close_timers-Calm (e ∷ es) w =
    Calm-trans (modify-Calm e.timer close w) (close_timers-Calm es (modify e.timer close w))

clear_all-Calm : (w : TimerWheel) → Calm w (clear_all w)
unfolding clear_all
clear_all-Calm w = record {
  still_empty = λ h. refl;
  same_driver = refl;
  same_waiting = refl;
  same_poke = refl;
}

close_end-Calm : (w : TimerWheel) → Calm w (close_end w)
unfolding close_end
close_end-Calm w =
    Calm-trans (clear_all-Calm w) (close_timers-Calm (values w.entries) (clear_all w))

-- The driver, its event and what it waits for.
abbrev signs : TimerWheel → Bool × Bool × Driver
signs w = (w.poke, w.waiting_poke, w.driver)

signs-remove : (i : ℕ) (w : TimerWheel) → signs (remove i w) ≡ signs w
signs-remove i w = let c = remove-Calm i w in cc (c.same_poke, c.same_waiting, c.same_driver)

signs-reinsert :
    (i d g : ℕ) (f : Timer → Timer) (w : TimerWheel)
    → signs (insert i d g (modify i f (remove i w))) ≡ signs w
unfolding insert set_bucket modify
signs-reinsert i d g f w = signs-remove i w

signs-advance_to : (t : ℕ) (w : TimerWheel) → signs (advance_to t w) ≡ signs w
signs-advance_to t w = cc (flags-advance_to t w)

signs-reschedule_after :
    (i ns : ℕ) (r : Reply ℕ) (w : TimerWheel) → signs (reschedule_after i ns r w).1 ≡ signs w
unfolding reschedule_after
signs-reschedule_after i ns (raised x) w = refl
signs-reschedule_after i ns (returned n) w =
    elim (Bool-cases (is_active i (advance_to (tick_of ns) w))) [
      | inl active ↦
          rw active
            (signs-reinsert i _ _ _ (advance_to (tick_of ns) w) ∙ signs-advance_to (tick_of ns) w)
      | inr idle ↦ rw idle (signs-advance_to (tick_of ns) w)
    ]

-- A wheel with an active timer has an entry.
active_entry : {w : TimerWheel} (i : ℕ) → IsValid w → is_active i w ≡ true → w.entries ≢ []
unfolding is_active
active_entry {w} i v = go (w.timers i) refl
  where
    go :
        (o : Option Timer)
        → w.timers i ≡ o
        → elim o as (λ _. Bool) [ none ↦ false | some t ↦ t.active ] ≡ true
        → w.entries ≢ []
    go none p h = λ _. cc h
    go (some t) p h =
        let (e, there, d, g) = entry_of_active i t v.inv p h in
        λ empty. cc (there, empty, get-nil {V = Entry} i)

reset-IsAwake :
    {w : TimerWheel} (i ns : ℕ) (delay : ℤ) → IsValid w → IsAwake w → IsAwake (reset i ns delay w).1
unfolding reset
reset-IsAwake {w} i ns delay v a = elim (Bool-cases (is_active i w)) [
  | inl active ↦ rw active (after_reset active)
  | inr idle ↦ rw idle a
]
  where
    after_reset :
        is_active i w ≡ true
        → IsAwake (reschedule_after i ns (require_running w (delay_ticks delay)) w).1
    after_reset active d =
        let same = signs-reschedule_after i ns (require_running w (delay_ticks delay)) w in
        let x = a (cc (same, d)) in
        (cc (same, x.0), λ p. absurd (active_entry i v active (x.1 (cc (same, p)))))

create-IsAwake : (ns : ℕ) (delay : ℤ) (w : TimerWheel) → IsAwake w → IsAwake (create ns delay w).1
unfolding create
create-IsAwake ns delay w a = go (require_running w (delay_ticks delay))
  where
    set : (b c : Bool) → b ≡ true → (b || c) ≢ false
    set b c h q = cc (rw h at q)

    go : (r : Reply ℕ) → IsAwake (create_after ns r w).1
    go (raised x) = unfold create_after in a
    go (returned n) =
        unfold create_after add_timer insert set_bucket in
        λ d.
          let same = signs-advance_to (tick_of ns) w in
          let waiting = (a (cc (same, d))).0 in
          let there : (advance_to (tick_of ns) w).waiting_poke ≡ true = cc (same, waiting) in
          (there, λ p. absurd (set _ _ there p))

start-IsAwake : (ns : ℕ) (w : TimerWheel) → IsAwake w → IsAwake (start ns w).1
unfolding start
start-IsAwake ns w a = go w.started w.closed
  where
    go :
        (b c : Bool)
        → IsAwake
            (if◌then◌else◌ {A = Reply Wait × TimerWheel} b
              (returned finished, w)
              (if c then (raised wheel_closed, w) else (
                returned finished,
                record w {
                  started = true;
                  failure = FailureSignal.reset w.failure;
                  current_tick = tick_of ns;
                  driver = looping;
                },
              ))).1
    go true c = a
    go false true = a
    go false false = λ d. absurd (cc d)

close_begin-IsAwake : (w : TimerWheel) → IsAwake w → IsAwake (close_begin w)
unfolding close_begin
close_begin-IsAwake w a = go w.closed
  where
    go :
        (b : Bool)
        → IsAwake (
            if b then w else record w {
              failure = disable w.failure;
              closed = true;
              started = false;
              driver = absent;
              waiting_poke = false;
              poke = false;
            })
    go true = a
    go false = λ d. absurd (cc d)

run_step-IsAwake : (ns : ℕ) (w : TimerWheel) → IsAwake w → IsAwake (run_step ns w)
unfolding run_step
run_step-IsAwake ns w a = go w.driver refl
  where
    head : (es : Bucket) → w.entries ≡ es → IsAwake (loop_head es w)
    head [] p = unfold loop_head in λ d. (refl, λ _. p)
    head (e ∷ es) p = unfold loop_head in λ d. absurd (cc d)

    woken :
        (b : Bool)
        → IsAwake
            (if b then record w { driver = looping; waiting_poke = false; poke = false } else w)
    woken true = λ d. absurd (cc d)
    woken false = a

    go :
        (d : Driver)
        → w.driver ≡ d
        → IsAwake (elim d [
          | absent ↦ w
          | looping ↦ loop_head w.entries w
          | asleep ↦ record (advance_to (tick_of ns) w) { driver = looping }
          | parked ↦
              if w.poke
              then record w { driver = looping; waiting_poke = false; poke = false }
              else w
        ])
    go absent p = a
    go looping p = head w.entries refl
    go asleep p = λ d. absurd (cc d)
    go parked p = woken w.poke

Step-IsAwake : {v w : TimerWheel} → Step v w → IsValid v → IsAwake v → IsAwake w
Step-IsAwake (starts ns w) v a = start-IsAwake ns w a
Step-IsAwake (creates ns delay w) v a = create-IsAwake ns delay w a
Step-IsAwake (resets i ns delay w) v a = reset-IsAwake i ns delay v a
Step-IsAwake (cancels i w) v a = Calm-IsAwake (cancel-Calm i w) a
Step-IsAwake (waits i w) v a = Calm-IsAwake (wait-Calm i w) a
Step-IsAwake (resumes i f w) v a = Calm-IsAwake (wait_resume-Calm i f w) a
Step-IsAwake (abandons i w) v a = Calm-IsAwake (wait_cancelled-Calm i w) a
Step-IsAwake (drives ns w) v a = run_step-IsAwake ns w a
Step-IsAwake (begins_close w) v a = close_begin-IsAwake w a
Step-IsAwake (ends_close w shut) v a = Calm-IsAwake (close_end-Calm w) a

new_wheel-IsAwake : (ns : ℕ) → IsAwake (new_wheel ns)
unfolding new_wheel
new_wheel-IsAwake ns d = absurd (cc d)

Reach-IsAwake : {w : TimerWheel} → Reach w → IsAwake w
Reach-IsAwake (new ns) = new_wheel-IsAwake ns
Reach-IsAwake (after r s) = Step-IsAwake s (Reach-IsValid r) (Reach-IsAwake r)

-- In every state that calls and steps of the driver bring about, in any order: a driver that waits
-- for an event that is not set waits for the one that `create` sets, and the wheel has no entry.
pub no_lost_wakeup :
    {w : TimerWheel}
    → Reach w
    → w.driver ≡ parked
    → w.poke ≡ false
    → (w.waiting_poke ≡ true) × (w.entries ≡ [])
no_lost_wakeup r d p = let x = Reach-IsAwake r d in (x.0, x.1 p)
