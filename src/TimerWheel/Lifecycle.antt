-- ===== src/TimerWheel/Lifecycle.antt =====
-- Starting, driving and closing the wheel, and the states that its clients can reach.
use bazaar_compute_node.FailureSignal
use native.Mathlib.Nat.{le_refl}
use bazaar_compute_node.Prelude.{
  ◌∙◌, some, ℕ, ◌+◌, ◌≡◌, inl, inr, refl, sym, ap, subst, Bool, true, false, Option, none, List,
  ==_refl, if◌then◌else◌, [], ◌∷◌, Bool-cases, Option-cases,
}
use bazaar_compute_node.FailureSignal.{disable}
use bazaar_compute_node.Prelude.Dict.{get, values, get-nil}
use bazaar_compute_node.Timer.{Timer, Reply, Wait, returned, raised, wheel_closed, finished, close}
use bazaar_compute_node.TimerWheel.{
  TimerWheel, Entry, Bucket, Level, near, upper, Driver, absent, looping, asleep, parked, bucket,
  modify, advance_to, tick_of,
}
use bazaar_compute_node.TimerWheel.Places.{get-head}
use bazaar_compute_node.TimerWheel.Inv.{TimerIsValid, Inv, IsValid}
use bazaar_compute_node.TimerWheel.Stages.{cleared-Inv}
use bazaar_compute_node.TimerWheel.Loose.{head_loose, other_rest}
use bazaar_compute_node.TimerWheel.Due.{rebase-Inv, advance_to-IsValid}
use bazaar_compute_node.TimerWheel.Modify.{modify-Inv}
use bazaar_compute_node.TimerWheel.Create.{frame-Inv}
use bazaar_compute_node.TimerWheel.Methods.{
  start, close_begin, close_end, close_timers, loop_head, run_step,
}
use bazaar_compute_node.TimerWheel.Create.{fresh_bucket}
use bazaar_compute_node.FailureSignal.{FailureSignal}
use bazaar_compute_node.TimerWheel.{new_wheel, clear_all, select}

empty_bucket : (ns : ℕ) (l : Level) (s : ℕ) → bucket (new_wheel ns) l s ≡ []
unfolding new_wheel select
empty_bucket ns near s = refl
empty_bucket ns (upper l) s = refl

pub new_wheel-IsValid : (ns : ℕ) → IsValid (new_wheel ns)
unfolding new_wheel
new_wheel-IsValid ns = record {
  inv = record {
    placed = λ l s i e h. absurd (cc (get-nil {V = Entry} i, ap (get i) (empty_bucket ns l s), h));
    indexed = λ i e r h. absurd (cc (get-nil {V = Entry} i, h));
    loose = λ i e h. absurd (cc (get-nil {V = Entry} i, h));
    rest_distinct = tt;
    entries_distinct = tt;
    buckets_distinct = λ l s. rw (empty_bucket ns l s) tt;
    linked = λ i. rw get-nil tt;
    fresh = λ i h. refl;
    timers_valid = λ i t h. cc;
    progress = λ i. inl refl;
  };
}

-- Setting the tick of a wheel that has no timers.
no_timers-Inv :
    {heap : ℕ → Option Timer} {lo k : ℕ} {w : TimerWheel} (t : ℕ)
    → Inv heap lo k [] w
    → ((i : ℕ) → w.timers i ≡ none)
    → Inv w.timers (t + 1) 4 [] (record w { current_tick = t })
no_timers-Inv {w = w} t inv nothing = record {
  placed = λ l s i e h. cc (fresh_bucket inv i l s (nothing i), h);
  indexed = inv.indexed;
  loose = inv.loose;
  rest_distinct = tt;
  entries_distinct = inv.entries_distinct;
  buckets_distinct = inv.buckets_distinct;
  linked = inv.linked;
  fresh = inv.fresh;
  timers_valid = λ i x h. absurd (cc (nothing i, h));
  progress = λ i. inl refl;
}

-- No timer is there before the wheel has started.
abbrev pub IsUnused : TimerWheel → Type 0
IsUnused w = w.started ≡ false → w.closed ≡ false → (i : ℕ) → w.timers i ≡ none

-- `start` past its early return.
started_wheel-IsValid :
    {w : TimerWheel} (t : ℕ)
    → IsValid w
    → ((i : ℕ) → w.timers i ≡ none)
    → IsValid (record w {
      started = true;
      failure = FailureSignal.reset w.failure;
      current_tick = t;
      driver = looping;
    })
started_wheel-IsValid {w} t v nothing = record {
  inv =
      frame-Inv w.poke w.waiting_poke true w.closed looping (FailureSignal.reset w.failure)
        (no_timers-Inv t v.inv nothing);
}

pub start-IsValid : {w : TimerWheel} (ns : ℕ) → IsValid w → IsUnused w → IsValid (start ns w).1
unfolding start
start-IsValid {w} ns v u = go w.started w.closed u
  where
    go :
        (b c : Bool)
        → (b ≡ false → c ≡ false → (i : ℕ) → w.timers i ≡ none)
        → IsValid
            (if◌then◌else◌ {A = Reply Wait × TimerWheel} b
              (returned finished, w)
              (if c then (raised wheel_closed, w) else (
                returned finished,
                record w {
                  started = true;
                  failure = FailureSignal.reset w.failure;
                  current_tick = tick_of ns;
                  driver = looping;
                },
              ))).1
    go true c nothing = v
    go false true nothing = v
    go false false nothing = started_wheel-IsValid (tick_of ns) v (nothing refl refl)

pub close_begin-IsValid : {w : TimerWheel} → IsValid w → IsValid (close_begin w)
unfolding close_begin
close_begin-IsValid {w} v = elim (Bool-cases w.closed) [
  | inl over ↦ simp over v
  | inr open_ ↦
      simp open_
        (record { inv = frame-Inv false false false true absent (disable w.failure) v.inv })
]

loop_head-IsValid : {w : TimerWheel} (es : Bucket) → IsValid w → IsValid (loop_head es w)
unfolding loop_head
loop_head-IsValid {w} [] v = record {
  inv = frame-Inv false true w.started w.closed parked w.failure v.inv;
}
loop_head-IsValid {w} (e ∷ es) v = record {
  inv = frame-Inv w.poke w.waiting_poke w.started w.closed asleep w.failure v.inv;
}

unpark-IsValid :
    {w : TimerWheel}
    → IsValid w
    → IsValid
        (if w.poke then record w { driver = looping; waiting_poke = false; poke = false } else w)
unpark-IsValid {w} v = elim (Bool-cases w.poke) [
  | inl up ↦
      simp up (record { inv = frame-Inv false false w.started w.closed looping w.failure v.inv })
  | inr down ↦ simp down v
]

woken-IsValid :
    {w : TimerWheel} (t : ℕ) → IsValid w → IsValid (record (advance_to t w) { driver = looping })
woken-IsValid {w} t v =
    let x = advance_to t w in
    record {
      inv =
          frame-Inv x.poke x.waiting_poke x.started x.closed looping x.failure
            (advance_to-IsValid t v).0.inv;
    }

pub run_step-IsValid : {w : TimerWheel} (ns : ℕ) → IsValid w → IsValid (run_step ns w)
unfolding run_step
run_step-IsValid {w} ns v = go w.driver
  where
    go :
        (d : Driver)
        → IsValid (elim d [
          | absent ↦ w
          | looping ↦ loop_head w.entries w
          | asleep ↦ record (advance_to (tick_of ns) w) { driver = looping }
          | parked ↦
              if w.poke
              then record w { driver = looping; waiting_poke = false; poke = false }
              else w
        ])
    go absent = v
    go looping = loop_head-IsValid w.entries v
    go asleep = woken-IsValid (tick_of ns) v
    go parked = unpark-IsValid v

close-idle : (t : Timer) → (close t).active ≡ false
unfolding close
close-idle t = refl

close-valid : (now : ℕ) (t : Timer) → TimerIsValid now t → TimerIsValid now (close t)
unfolding close
close-valid now t v = record {
  due = v.due;
  idle = λ _. refl;
  cancelled_idle = λ _. refl;
  closed_idle = λ _. refl;
}

-- The loop of `close` over the entries that it took out: each closes a timer object.
closed_one-Inv :
    {heap : ℕ → Option Timer} {lo k i : ℕ} {e : Entry} {rest : Bucket} {w : TimerWheel}
    → Inv heap lo k ((i, e) ∷ rest) w
    → w.entries ≡ []
    → Inv (modify e.timer close w).timers lo k rest (modify e.timer close w)
closed_one-Inv {i = i} {e = e} {rest = rest} {w = w} inv none_left =
    elim (Option-cases (w.timers i)) [
      | inl missing ↦ absurd (rw (get-head, ==_refl, missing) at (inv.linked i))
      | inr (t, at_i) ↦ rw (head_loose inv).0 (
          modify-Inv rest i close t inv at_i
            (λ j f r there. absurd (cc (get-nil {V = Entry} j, none_left, there)))
            (λ j f r. inv.loose j f (rw (get-head, other_rest inv j f r) r)) inv.rest_distinct.1
            (λ j ne. rw (get-head, ne))
            (rw (inv.rest_distinct.0, none_left, get-nil) (close-idle t))
            (close-valid w.current_tick t (inv.timers_valid i t at_i)))
    ]

close_timers-Inv :
    (rest : Bucket) {heap : ℕ → Option Timer} {lo k : ℕ} {w : TimerWheel}
    → Inv heap lo k rest w
    → w.entries ≡ []
    → Inv (close_timers (values rest) w).timers lo k [] (close_timers (values rest) w)
unfolding close_timers values modify
close_timers-Inv [] inv none_left = rebase-Inv inv
close_timers-Inv ((i, e) ∷ rest) inv none_left =
    close_timers-Inv rest (closed_one-Inv inv none_left) none_left

tick-close_timers :
    (es : List Entry) (w : TimerWheel) → (close_timers es w).current_tick ≡ w.current_tick
unfolding close_timers modify
tick-close_timers [] w = refl
tick-close_timers (e ∷ es) w = tick-close_timers es (modify e.timer close w)

-- The rest of `close` keeps the invariant.
pub close_end-IsValid : {w : TimerWheel} → IsValid w → IsValid (close_end w)
unfolding close_end clear_all
close_end-IsValid {w} v = record {
  inv =
      subst (λ n. Inv (close_end w).timers (n + 1) 4 [] (close_end w))
        (sym (tick-close_timers (values w.entries) (clear_all w)))
        (close_timers-Inv w.entries
          (cleared-Inv {lo' = w.current_tick + 1} {k' = 4} w.current_tick v.inv
            (le_refl w.current_tick))
          refl);
}

entries-close_timers : (es : List Entry) (w : TimerWheel) → (close_timers es w).entries ≡ w.entries
unfolding close_timers modify
entries-close_timers [] w = refl
entries-close_timers (e ∷ es) w = entries-close_timers es (modify e.timer close w)

nothing_left : (w : TimerWheel) → (close_end w).entries ≡ []
unfolding close_end clear_all
nothing_left w = entries-close_timers (values w.entries) (clear_all w)

-- After the rest of `close` no timer of a valid wheel is active, and none has an entry.
pub close_end-idle :
    {w : TimerWheel} (i : ℕ) (t : Timer)
    → IsValid w
    → (close_end w).timers i ≡ some t
    → (t.active ≡ false) × (get i (close_end w).entries ≡ none)
close_end-idle {w} i t v h =
    let gone : get i (close_end w).entries ≡ none = ap (get i) (nothing_left w) ∙ get-nil i in
    (rw (get-nil, gone, h) at ((close_end-IsValid v).inv.linked i), gone)
