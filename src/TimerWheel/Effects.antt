-- ===== src/TimerWheel/Effects.antt =====
-- What `create`, `reset` and `cancel` do to the timers, seen with the passage of time.
use mathlib.Core.Option
use bazaar_compute_node.Prelude.{
  ℕ, ◌+◌, ◌≤◌, ◌<◌, max, ◌≡◌, inl, inr, refl, sym, ◌∙◌, ap, subst, Bool, true, false, ◌||◌, Option,
  none, some, some_inj, ◌==◌, ==_refl, Bool-cases, Option-cases, ℤ, if◌then◌else◌,
}
use bazaar_compute_node.Prelude.Dict.{get}
use bazaar_compute_node.Timer.{
  Timer, Reply, returned, raised, finished, only_active, new_timer, mark_cancelled,
}
use bazaar_compute_node.TimerWheel.{
  TimerWheel, Entry, insert, set_bucket, modify, remove, remove_entry, advance_to, tick_of,
}
use bazaar_compute_node.TimerWheel.Methods.{
  create, create_after, add_timer, require_running, delay_ticks, is_active, rearm, reschedule_after,
  reset, cancel_timer, cancel,
}
use bazaar_compute_node.TimerWheel.Inv.{IsValid, TimerIsValid}
use bazaar_compute_node.TimerWheel.Flags.{flags-advance_to}
use bazaar_compute_node.TimerWheel.Due.{
  expire_due, timers-advance_to, advance_to-IsValid, not_due, due_idle,
}
use bazaar_compute_node.TimerWheel.Cancel.{cancel-IsValid}

-- The tick of a wheel after it has caught up with the clock.
abbrev pub now : ℕ → TimerWheel → ℕ
now ns w = max w.current_tick (tick_of ns)

running :
    (w : TimerWheel) (r : Reply ℕ) → w.started ≡ true → w.closed ≡ false → require_running w r ≡ r
unfolding require_running
running w r s c = rw (s, c)

timers-add_timer :
    (deadline : ℕ) (w : TimerWheel) (i : ℕ)
    → (add_timer deadline w).timers i
      ≡ (if w.next_timer_id == i then some (new_timer deadline) else w.timers i)
unfolding add_timer insert set_bucket
timers-add_timer deadline w i = refl

create_after_timers :
    (ns n : ℕ) (w : TimerWheel) (i : ℕ)
    → (create_after ns (returned n) w).1.timers i
      ≡ (add_timer
            ((advance_to (tick_of ns) w).current_tick + n)
            (advance_to (tick_of ns) w)).timers
          i
unfolding create_after
create_after_timers ns n w i = refl

create_after_id :
    (ns n : ℕ) (w : TimerWheel)
    → (create_after ns (returned n) w).0 ≡ returned (advance_to (tick_of ns) w).next_timer_id
unfolding create_after
create_after_id ns n w = refl

next_id : (t : ℕ) (w : TimerWheel) → (advance_to t w).next_timer_id ≡ w.next_timer_id
next_id t w = cc (flags-advance_to t w)

-- `create` on a valid wheel that runs, with a delay that is accepted as `n` ticks: it returns a
-- fresh id, under which there is an active timer that is due `n` ticks from now; every other timer
-- is as the passage of time leaves it.
pub create-timers :
    {w : TimerWheel} (ns : ℕ) (delay : ℤ) (n : ℕ)
    → IsValid w
    → w.started ≡ true
    → w.closed ≡ false
    → delay_ticks delay ≡ returned n
    → ((create ns delay w).0 ≡ returned w.next_timer_id)
      × ((i : ℕ)
          → (create ns delay w).1.timers i ≡ (
              if w.next_timer_id == i
              then some (new_timer (now ns w + n))
              else Option.map (expire_due (now ns w)) (w.timers i)))
unfolding create
create-timers {w} ns delay n v s c d =
    rw (running w (delay_ticks delay) s c, d)
      (
        create_after_id ns n w ∙ ap returned (next_id (tick_of ns) w),
        λ i.
            create_after_timers ns n w i
            ∙ timers-add_timer ((advance_to (tick_of ns) w).current_tick + n)
                (advance_to (tick_of ns) w) i
            ∙ rw
                (next_id, (advance_to-IsValid (tick_of ns) v).1, timers-advance_to (tick_of ns) i v)
                refl,
      )

-- The timers under one id after the last three lines of `_reschedule`.
timers-remove : (i j : ℕ) (w : TimerWheel) → (remove i w).timers j ≡ w.timers j
unfolding remove
timers-remove i j w = go (get i w.entries)
  where
    go : (o : Option Entry) → (remove_entry i o w).timers j ≡ w.timers j
    go none = unfold remove_entry in refl
    go (some e) = unfold remove_entry set_bucket in refl

timers-insert : (i d g : ℕ) (w : TimerWheel) (j : ℕ) → (insert i d g w).timers j ≡ w.timers j
unfolding insert set_bucket
timers-insert i d g w j = refl

timers-modify :
    (i : ℕ) (f : Timer → Timer) (w : TimerWheel)
    → (modify i f w).timers i ≡ Option.map f (w.timers i)
unfolding modify
timers-modify i f w = rw ==_refl

is_active_eq : (i : ℕ) (t : Timer) (w : TimerWheel) → w.timers i ≡ some t → is_active i w ≡ t.active
unfolding is_active
is_active_eq i t w h = rw (is_active, h)

advanced_timer :
    {w : TimerWheel} (ns i : ℕ) (t : Timer)
    → IsValid w
    → w.timers i ≡ some t
    → (advance_to (tick_of ns) w).timers i ≡ some (expire_due (now ns w) t)
advanced_timer ns i t v h = timers-advance_to (tick_of ns) i v ∙ rw h refl

reset-eq :
    (w : TimerWheel) (i ns : ℕ) (delay : ℤ) (n : ℕ)
    → is_active i w ≡ true
    → require_running w (delay_ticks delay) ≡ returned n
    → reset i ns delay w ≡ reschedule_after i ns (returned n) w
unfolding reset
reset-eq w i ns delay n a r = rw (a, r)

-- `reset` on a valid wheel that runs, of an active timer that is not yet due, with a delay that is
-- accepted as `n` ticks: it returns, and the timer has the next generation, has not expired in it, is
-- due `n` ticks from now, and is as it was in all else.
pub reset-timers :
    {w : TimerWheel} (i ns : ℕ) (delay : ℤ) (n : ℕ) (t : Timer)
    → IsValid w
    → w.started ≡ true
    → w.closed ≡ false
    → delay_ticks delay ≡ returned n
    → w.timers i ≡ some t
    → t.active ≡ true
    → now ns w < t.deadline_tick
    → ((reset i ns delay w).0 ≡ returned finished)
      × ((reset i ns delay w).1.timers i
          ≡ some (record t {
            deadline_tick = now ns w + n;
            generation = t.generation + 1;
            expired_generation = none;
            expiry_consumed = false;
          }))
unfolding rearm
reset-timers {w} i ns delay n t v s c d at_i a early =
    rw
      (reset-eq w i ns delay n (is_active_eq i t w at_i ∙ a)
        (running w (delay_ticks delay) s c ∙ d))
      (unfold reschedule_after in
        rw (is_active_eq i t x still ∙ a) (
          refl,
          timers-insert i _ _ _ i
              ∙ timers-modify i _ _
              ∙ rw (timers-remove, still, (advance_to-IsValid (tick_of ns) v).1) refl,
        ))
  where
    x : TimerWheel
    x = advance_to (tick_of ns) w

    still : (advance_to (tick_of ns) w).timers i ≡ some t
    still = advanced_timer ns i t v at_i ∙ ap some (not_due (now ns w) t (λ _. early))

-- `reset` on a valid wheel that runs, with a delay that is accepted, of a timer that is still active
-- but due by now: it raises, and the timer has expired.
pub reset_late :
    {w : TimerWheel} (i ns : ℕ) (delay : ℤ) (n : ℕ) (t : Timer)
    → IsValid w
    → w.started ≡ true
    → w.closed ≡ false
    → delay_ticks delay ≡ returned n
    → w.timers i ≡ some t
    → t.active ≡ true
    → t.deadline_tick ≤ now ns w
    → ((reset i ns delay w).0 ≡ raised only_active)
      × ((reset i ns delay w).1.timers i ≡ some (expire_due (now ns w) t))
reset_late {w} i ns delay n t v s c d at_i a due =
    rw
      (reset-eq w i ns delay n (is_active_eq i t w at_i ∙ a)
        (running w (delay_ticks delay) s c ∙ d))
      (unfold reschedule_after in
        rw (is_active_eq i _ x over ∙ due_idle (now ns w) t due) (refl, over))
  where
    x : TimerWheel
    x = advance_to (tick_of ns) w

    over : (advance_to (tick_of ns) w).timers i ≡ some (expire_due (now ns w) t)
    over = advanced_timer ns i t v at_i

over_idle :
    (n : ℕ) (t : Timer) → TimerIsValid n t → (t.cancelled || t.closed) ≡ true → t.active ≡ false
over_idle n t v h = elim (Bool-cases t.cancelled) [
  | inl gone ↦ v.cancelled_idle gone
  | inr kept ↦ v.closed_idle (rw kept at h)
]

timers-removed_if :
    (b : Bool) (i : ℕ) (w : TimerWheel) → (if b then remove i w else w).timers i ≡ w.timers i
timers-removed_if true i w = timers-remove i i w
timers-removed_if false i w = refl

mark_cancelled-idle : (t : Timer) → (mark_cancelled t).active ≡ false
unfolding mark_cancelled
mark_cancelled-idle t = refl

-- A timer that was cancelled is not active.
cancel_timer-idle :
    {w : TimerWheel} (i : ℕ) (t u : Timer)
    → IsValid w
    → w.timers i ≡ some t
    → (cancel_timer i (some t) w).timers i ≡ some u
    → u.active ≡ false
unfolding cancel_timer
cancel_timer-idle {w} i t u v at_i h = elim (Bool-cases (t.cancelled || t.closed)) [
  | inl over ↦
      subst (λ (x : Timer). x.active ≡ false) (some_inj (sym at_i ∙ rw over at h))
        (over_idle w.current_tick t (v.inv.timers_valid i t at_i) over)
  | inr open_ ↦
      subst (λ (x : Timer). x.active ≡ false)
        (some_inj (
          sym (
            timers-modify i mark_cancelled _
            ∙ ap (Option.map mark_cancelled) (timers-removed_if t.active i w ∙ at_i))
          ∙ rw open_ at h))
        (mark_cancelled-idle t)
]

cancel-idle :
    {w : TimerWheel} (i : ℕ) (u : Timer)
    → IsValid w
    → (cancel i w).timers i ≡ some u
    → u.active ≡ false
unfolding cancel cancel_timer
cancel-idle {w} i u v h = elim (Option-cases (w.timers i)) [
  | inl missing ↦ absurd (cc (missing, rw missing at h))
  | inr (t, at_i) ↦ cancel_timer-idle i t u v at_i (rw at_i at h)
]

-- After `cancel` on a valid wheel no passage of time changes the timer under that id.
pub cancel_stops :
    {w : TimerWheel} (i target : ℕ)
    → IsValid w
    → (advance_to target (cancel i w)).timers i ≡ (cancel i w).timers i
cancel_stops {w} i target v =
    timers-advance_to target i (cancel-IsValid i v) ∙ elim (Option-cases ((cancel i w).timers i)) [
      | inl missing ↦ rw missing
      | inr (u, at_i) ↦
          rw at_i (ap some (not_due _ u (λ a. absurd (cc (a, cancel-idle i u v at_i)))))
    ]
