-- ===== src/TimerWheel/Create.antt =====
-- `TimerWheel.create`: a new timer object and its entry, and the invariant.
use native.Mathlib.Nat.{le_refl}
use bazaar_compute_node.Prelude.{
  ℕ, ◌+◌, ◌≤◌, ◌<◌, ◌≡◌, inl, inr, refl, arith, Bool, true, false, ◌||◌, Option, none, some,
  some_inj, ◌==◌, ==_iff, if◌then◌else◌, [], ◌∷◌, Bool-cases, Option-cases, ℤ, pos, negsuc,
}
use bazaar_compute_node.Prelude.Dict.{get, get-nil}
use bazaar_compute_node.FailureSignal.{FailureSignal}
use bazaar_compute_node.Timer.{Timer, Exn, Reply, returned, raised, new_timer}
use bazaar_compute_node.TimerWheel.{
  TimerWheel, Entry, Level, near, Driver, bucket, insert, set_bucket, advance_to, max_delay_ticks,
  tick_of,
}
use bazaar_compute_node.TimerWheel.Methods.{
  require_running, delay_ticks, add_timer, create_after, create,
}
use bazaar_compute_node.TimerWheel.Places.{get-head}
use bazaar_compute_node.TimerWheel.Inv.{Linked, TimerIsValid, either, Inv, IsValid}
use bazaar_compute_node.TimerWheel.Insert.{insert-Inv}
use bazaar_compute_node.TimerWheel.Due.{advance_to-IsValid}

-- The invariant does not read the poke, the driver, the signal and the flags.
pub frame-Inv :
    {heap : ℕ → Option Timer} {lo k : ℕ} {w : TimerWheel} (poke waiting started closed : Bool)
    (driver : Driver) (failure : FailureSignal Exn)
    → Inv heap lo k [] w
    → Inv heap lo k [] (record w {
      poke = poke;
      waiting_poke = waiting;
      started = started;
      closed = closed;
      driver = driver;
      failure = failure;
    })
frame-Inv poke waiting started closed driver failure inv = record {
  placed = inv.placed;
  indexed = inv.indexed;
  loose = inv.loose;
  rest_distinct = inv.rest_distinct;
  entries_distinct = inv.entries_distinct;
  buckets_distinct = inv.buckets_distinct;
  linked = inv.linked;
  fresh = inv.fresh;
  timers_valid = inv.timers_valid;
  progress = inv.progress;
}

-- A delay that is accepted is at least one tick and within the horizon.
pub delay_ticks_bounds :
    (delay : ℤ) (n : ℕ) → delay_ticks delay ≡ returned n → (1 ≤ n) × (n ≤ max_delay_ticks)
unfolding delay_ticks
delay_ticks_bounds (pos d) n h = ground arith
delay_ticks_bounds (negsuc d) n h = cc

pub require_running_returned :
    (w : TimerWheel) (r : Reply ℕ) (n : ℕ)
    → require_running w r ≡ returned n
    → (w.closed ≡ false) × (w.started ≡ true) × (r ≡ returned n)
unfolding require_running
require_running_returned w r n h = ground arith

-- A fresh id stands nowhere.
module _ {heap : ℕ → Option Timer} {lo k : ℕ} {w : TimerWheel} (inv : Inv heap lo k [] w) where
  fresh_entry : (i : ℕ) → w.timers i ≡ none → get i w.entries ≡ none
  fresh_entry i h = elim (Option-cases (get i w.entries)) [
    | inl absent ↦ absent
    | inr (e, there) ↦ absurd (rw (get-nil, there, h) at (inv.linked i))
  ]

  pub fresh_bucket : (i : ℕ) (l : Level) (s : ℕ) → w.timers i ≡ none → get i (bucket w l s) ≡ none
  fresh_bucket i l s h = elim (Option-cases (get i (bucket w l s))) [
    | inl absent ↦ absent
    | inr (e, there) ↦ let (a, b, c, d, fit) = inv.placed l s i e there in cc (a, fresh_entry i h)
  ]

new_timer-valid : (now deadline : ℕ) → TimerIsValid now (new_timer deadline)
unfolding new_timer
new_timer-valid now deadline = record {
  due = λ h. absurd (h refl);
  idle = λ h. absurd (h refl);
  cancelled_idle = λ h. cc;
  closed_idle = λ h. cc;
}

-- The new timer object, its entry not yet stored.
module _ {heap : ℕ → Option Timer} {lo k : ℕ} {w : TimerWheel} (deadline : ℕ) (e : Entry)
    (inv : Inv heap lo k [] w) where
  abbrev id : ℕ
  id = w.next_timer_id

  abbrev added : TimerWheel
  added = record w {
    next_timer_id = id + 1;
    timers = λ j. if id == j then some (new_timer deadline) else w.timers j;
  }

  added_loose :
      e.timer ≡ id
      → (j : ℕ) (f : Entry) → get j ((id, e) ∷ []) ≡ some f
      → (f.timer ≡ j) × ((l : Level) (s : ℕ) → get j (bucket w l s) ≡ none)
  added_loose p j f h = elim (Bool-cases (id == j)) [
    | inl same ↦
        let at_j : id ≡ j = (==_iff id j).0 same in
        let is_f : e ≡ f = some_inj (rw (get-head, same) at h) in
        (
          rw (← is_f, ← at_j) p,
          λ l s. rw (← at_j) (fresh_bucket inv id l s (inv.fresh id (le_refl id))),
        )
    | inr ne ↦ absurd (cc (get-nil {V = Entry} j, get-head id j e [], ne, h))
  ]

  added-Linked :
      e.deadline_tick ≡ deadline
      → e.generation ≡ 1
      → (j : ℕ) → Linked (either (get j ((id, e) ∷ [])) (get j w.entries)) (added.timers j)
  unfolding new_timer
  added-Linked q r j = elim (Bool-cases (id == j)) [
    | inl same ↦ rw (get-head, same) (refl, q, r)
    | inr ne ↦ rw (get-head, ne) (inv.linked j)
  ]

  added_fresh : (j : ℕ) → id + 1 ≤ j → added.timers j ≡ none
  added_fresh j h = elim (Bool-cases (id == j)) [
    | inl same ↦ absurd (omega (arith, (==_iff id j).0 same))
    | inr ne ↦ rw ne (inv.fresh j (omega arith))
  ]

  added_valid : (j : ℕ) (t : Timer) → added.timers j ≡ some t → TimerIsValid w.current_tick t
  added_valid j t h = elim (Bool-cases (id == j)) [
    | inl same ↦ rw (← some_inj (rw same at h)) (new_timer-valid w.current_tick deadline)
    | inr ne ↦ inv.timers_valid j t (rw ne at h)
  ]

  added-Inv :
      e.timer ≡ id
      → e.deadline_tick ≡ deadline
      → e.generation ≡ 1
      → Inv added.timers lo k ((id, e) ∷ []) added
  unfolding new_timer
  added-Inv p q r = record {
    placed = inv.placed;
    indexed = λ j f absent there. inv.indexed j f (get-nil j) there;
    loose = added_loose p;
    rest_distinct = (get-nil id, tt);
    entries_distinct = inv.entries_distinct;
    buckets_distinct = inv.buckets_distinct;
    linked = added-Linked q r;
    fresh = added_fresh;
    timers_valid = added_valid;
    progress = λ j. inl refl;
  }

-- Storing the entry of the new timer.
add_timer-Inv :
    {heap : ℕ → Option Timer} {w : TimerWheel} (deadline : ℕ)
    → Inv heap (w.current_tick + 1) 4 [] w
    → w.current_tick < deadline
    → Inv
        (add_timer deadline w).timers
        ((add_timer deadline w).current_tick + 1)
        4
        []
        (add_timer deadline w)
unfolding add_timer insert set_bucket
add_timer-Inv {w = w} deadline inv h =
    insert-Inv (added-Inv deadline e inv refl refl refl) (omega arith) (omega arith)
  where
    e : Entry
    e = record {
      timer = w.next_timer_id;
      deadline_tick = deadline;
      generation = 1;
      level = near;
      slot = 0;
    }

create_after-IsValid :
    {w : TimerWheel} (ns : ℕ) (r : Reply ℕ)
    → ((n : ℕ) → r ≡ returned n → 1 ≤ n)
    → IsValid w
    → IsValid (create_after ns r w).1
unfolding create_after
create_after-IsValid ns (raised x) h v = v
create_after-IsValid {w} ns (returned n) h v =
    let ahead = (advance_to-IsValid (tick_of ns) v).0 in
    let n_pos = h n refl in
    let x = add_timer ((advance_to (tick_of ns) w).current_tick + n) (advance_to (tick_of ns) w) in
    record {
      inv =
          frame-Inv (x.waiting_poke || x.poke) x.waiting_poke x.started x.closed x.driver x.failure
            (add_timer-Inv ((advance_to (tick_of ns) w).current_tick + n) ahead.inv (omega arith));
    }

-- What `_require_running` and `_delay_ticks` let through is a positive number of ticks.
pub guarded_delay :
    (w : TimerWheel) (delay : ℤ) (n : ℕ)
    → require_running w (delay_ticks delay) ≡ returned n
    → (1 ≤ n) × (n ≤ max_delay_ticks)
guarded_delay w delay n h =
    delay_ticks_bounds delay n (require_running_returned w (delay_ticks delay) n h).2

-- `create` keeps the invariant, also where it raises.
pub create-IsValid :
    {w : TimerWheel} (ns : ℕ) (delay : ℤ) → IsValid w → IsValid (create ns delay w).1
unfolding create
create-IsValid {w} ns delay v =
    create_after-IsValid ns (require_running w (delay_ticks delay))
      (λ n h. (guarded_delay w delay n h).0) v
