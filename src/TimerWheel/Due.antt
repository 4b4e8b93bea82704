-- ===== src/TimerWheel/Due.antt =====
-- What the passage of time does to the timers: `_advance_to` against a description that knows
-- nothing of buckets.
use mathlib.Core.Option
use bazaar_compute_node.Prelude.{
  ℕ, ◌+◌, ◌≤◌, ◌<◌, ◌^◌, max, ◌≡◌, inl, inr, refl, sym, ◌∙◌, ap, arith, true, false, ◌&&◌, Option,
  some, leb, if◌then◌else◌, [], Option-cases,
}
use bazaar_compute_node.Prelude.Dict.{get, get-nil}
use bazaar_compute_node.Timer.{Timer, expire, settle, result}
use bazaar_compute_node.TimerWheel.{TimerWheel, Entry, Level, near, upper, shift, advance_to}
use bazaar_compute_node.TimerWheel.Bits.{lt_of_block}
use bazaar_compute_node.TimerWheel.Inv.{Fits, Inv, IsValid}
use bazaar_compute_node.TimerWheel.Advance.{Ahead, advance_to-Ahead}

-- A timer that has been left to itself until tick `now`.
pub expire_due : ℕ → Timer → Timer
expire_due now t =
    if t.active && leb t.deadline_tick now
    then record t {
      active = false;
      expired_generation = some t.generation;
      waiter = settle result t.waiter;
    }
    else t

Fits-ahead : (t : ℕ) (l : Level) (s d : ℕ) → Fits (t + 1) 4 t d l s → t < d
Fits-ahead t near s d h = omega arith
Fits-ahead t (upper l) s d (l_lt, slot, le, strict) =
    lt_of_block (2 ^ shift l) t d (strict (inl l_lt))

pub entry-Ahead :
    {heap : ℕ → Option Timer} {w : TimerWheel} (i : ℕ) (e : Entry)
    → Ahead heap w
    → get i w.entries ≡ some e
    → w.current_tick < e.deadline_tick
entry-Ahead {w = w} i e inv p =
    let (a, b, c, d, fit) = inv.placed e.level e.slot i e (inv.indexed i e (get-nil i) p) in
    Fits-ahead w.current_tick e.level e.slot e.deadline_tick fit

-- An active timer has an entry.
pub entry_of_active :
    {heap : ℕ → Option Timer} {w : TimerWheel} (i : ℕ) (t : Timer)
    → Ahead heap w
    → w.timers i ≡ some t
    → t.active ≡ true
    → (e : Entry) × (get i w.entries ≡ some e)
      × (e.deadline_tick ≡ t.deadline_tick)
      × (e.generation ≡ t.generation)
entry_of_active {w = w} i t inv p a = elim (Option-cases (get i w.entries)) [
  | inl absent ↦ absurd (cc (rw (get-nil, absent, p) at (inv.linked i), a))
  | inr (e, there) ↦
      let link = rw (get-nil, there, p) at (inv.linked i) in (e, there, link.1, link.2)
]

pub active-Ahead :
    {heap : ℕ → Option Timer} {w : TimerWheel} (i : ℕ) (t : Timer)
    → Ahead heap w
    → w.timers i ≡ some t
    → t.active ≡ true
    → w.current_tick < t.deadline_tick
active-Ahead i t inv p a =
    let (e, there, deadline, gen) = entry_of_active i t inv p a in
    rw deadline at (entry-Ahead i e inv there)

expire-eq :
    (now : ℕ) (t : Timer)
    → t.active ≡ true
    → t.deadline_tick ≤ now
    → expire t.generation t ≡ expire_due now t
unfolding expire expire_due
expire-eq now t a h = ground arith

pub not_due :
    (now : ℕ) (t : Timer) → (t.active ≡ true → now < t.deadline_tick) → expire_due now t ≡ t
unfolding expire_due
not_due now t h = ground arith

pub due_idle : (now : ℕ) (t : Timer) → t.deadline_tick ≤ now → (expire_due now t).active ≡ false
unfolding expire_due
due_idle now t h = ground arith

expire_due_later :
    {w : TimerWheel} (target i : ℕ)
    → Ahead w.timers w
    → (advance_to target w).timers i
      ≡ Option.map (expire_due (advance_to target w).current_tick) (w.timers i)
expire_due_later {w} target i inv =
    let (ahead, now) = advance_to-Ahead target inv in
    elim (ahead.progress i) [
      | inl same ↦ elim (Option-cases (w.timers i)) [
        | inl absent ↦ rw (same, absent)
        | inr (t, p) ↦
            rw (same, p)
              (ap some (
                sym (
                  not_due (advance_to target w).current_tick t
                    (active-Ahead i t ahead (same ∙ p)))))
      ]
      | inr (t, p, a, d, q) ↦
          rw (q, p) (ap some (expire-eq (advance_to target w).current_tick t a d))
    ]

-- The invariant with the timers of the wheel itself as those that the call began with.
pub rebase-Inv :
    {heap : ℕ → Option Timer} {lo k : ℕ} {w : TimerWheel}
    → Inv heap lo k [] w
    → Inv w.timers lo k [] w
rebase-Inv inv = record {
  placed = inv.placed;
  indexed = inv.indexed;
  loose = inv.loose;
  rest_distinct = tt;
  entries_distinct = inv.entries_distinct;
  buckets_distinct = inv.buckets_distinct;
  linked = inv.linked;
  fresh = inv.fresh;
  timers_valid = inv.timers_valid;
  progress = λ i. inl refl;
}

-- After `_advance_to` a valid wheel has the same timers, at the later of its tick and the target;
-- exactly those that were active with a deadline up to that tick have expired, for the generation
-- that they had.
pub timers-advance_to :
    {w : TimerWheel} (target i : ℕ)
    → IsValid w
    → (advance_to target w).timers i
      ≡ Option.map (expire_due (max w.current_tick target)) (w.timers i)
timers-advance_to {w} target i v =
    rw (← (advance_to-Ahead target v.inv).1) (expire_due_later target i v.inv)

-- `_advance_to` on a valid wheel keeps the invariant and ends at the later of the wheel's tick and
-- the target.
pub advance_to-IsValid :
    {w : TimerWheel} (target : ℕ)
    → IsValid w
    → IsValid (advance_to target w)
      × ((advance_to target w).current_tick ≡ max w.current_tick target)
advance_to-IsValid target v =
    let (ahead, now) = advance_to-Ahead target v.inv in (record { inv = rebase-Inv ahead }, now)
