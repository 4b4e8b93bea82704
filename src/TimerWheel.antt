-- ===== src/TimerWheel.antt =====
-- bazaar_compute_node/core/timerwheel.py: `TimerWheel`, a hierarchical timing wheel, and the methods
-- of `Timer` that reach into it. The timer objects live in the heap `timers`, under their ids: an id
-- is given out once. An array of buckets is a function of its index. The monotonic clock, in
-- nanoseconds, is an argument of each method that reads it.
mod Bits
pub mod Inv
mod Places
mod Insert
mod Loose
mod Loops
mod Stages
mod Tick
mod Advance
pub mod Due
mod Modify
mod Remove
pub mod Create
mod Flags
pub mod Runs
pub mod Effects
pub mod Wakeups
mod Tests
mod Touch
pub mod Cancel
pub mod Reset
pub mod Lifecycle
pub mod Methods
use mathlib.Core.Option
use bazaar_compute_node.Prelude.{
  ℕ, zero, suc, ◌+◌, ◌-◌, ◌*◌, ◌/◌, ◌%◌, ◌^◌, min, Bool, false, ◌&&◌, Option, none, some, List, [],
  ◌∷◌, length, ltb, leb, ◌==◌, if◌then◌else◌,
}
use bazaar_compute_node.Prelude.Dict.{Dict, get, put, pop, values}
use bazaar_compute_node.FailureSignal.{FailureSignal, new_signal}
use bazaar_compute_node.Timer.{Exn, Timer, expire}

abbrev pub near_bits : ℕ
near_bits = 8

abbrev pub near_size : ℕ
near_size = 2 ^ near_bits

abbrev pub level_bits : ℕ
level_bits = 6

abbrev pub level_size : ℕ
level_size = 2 ^ level_bits

abbrev pub level_count : ℕ
level_count = 4

abbrev pub max_delay_ticks : ℕ
max_delay_ticks = 2 ^ (near_bits + level_bits * level_count) - 1

abbrev pub tick_ms : ℕ
tick_ms = 10

-- `_TimerEntry.level`: `near` is the source's -1.
pub data Level : Type 0 where
  near : Level
  upper : ℕ → Level

-- `_TimerEntry`. Its `timer` is the id of the timer object.
pub record Entry : Type 0 where
  pub timer : ℕ
  pub deadline_tick : ℕ
  pub generation : ℕ
  pub level : Level
  pub slot : ℕ

abbrev pub Bucket : Type 0
Bucket = Dict Entry

-- Where the task that drives the wheel stands in `_run`.
pub data Driver : Type 0 where
  absent looping asleep parked : Driver

pub record TimerWheel : Type 0 where
  pub current_tick : ℕ
  pub near_buckets : ℕ → Bucket
  pub levels : ℕ → ℕ → Bucket
  pub entries : Bucket
  pub next_timer_id : ℕ
  -- `_poke`, and whether `_waiting_poke` is that event or `None`
  pub poke : Bool
  pub waiting_poke : Bool
  pub driver : Driver
  pub failure : FailureSignal Exn
  pub started : Bool
  pub closed : Bool
  pub timers : ℕ → Option Timer

-- `time.monotonic_ns() // (self._tick_ms * 1_000_000)`
abbrev pub tick_of : ℕ → ℕ
tick_of ns = ns / (tick_ms * 1000000)

-- `TimerWheel.__init__`
unfoldable pub new_wheel : ℕ → TimerWheel
new_wheel ns = record {
  current_tick = tick_of ns;
  near_buckets = λ s. [];
  levels = λ l s. [];
  entries = [];
  next_timer_id = 1;
  poke = false;
  waiting_poke = false;
  driver = absent;
  failure = new_signal;
  started = false;
  closed = false;
  timers = λ i. none;
}

-- Buckets by place.

pub select : (ℕ → Bucket) → (ℕ → ℕ → Bucket) → Level → ℕ → Bucket
select near_buckets levels near s = near_buckets s
select near_buckets levels (upper l) s = levels l s

abbrev pub bucket : TimerWheel → Level → ℕ → Bucket
bucket w = select w.near_buckets w.levels

set_near : Level → ℕ → Bucket → (ℕ → Bucket) → ℕ → Bucket
set_near near s b f j = if s == j then b else f j
set_near (upper l) s b f j = f j

set_upper : Level → ℕ → Bucket → (ℕ → ℕ → Bucket) → ℕ → ℕ → Bucket
set_upper near s b f k j = f k j
set_upper (upper l) s b f k j = if (l == k) && (s == j) then b else f k j

pub set_bucket : Level → ℕ → Bucket → TimerWheel → TimerWheel
set_bucket l s b w = record w {
  near_buckets = set_near l s b w.near_buckets;
  levels = set_upper l s b w.levels;
}

-- Each bucket of `_near` and `_levels` cleared, and `_entries`.
pub clear_all : TimerWheel → TimerWheel
clear_all w = record w { entries = []; near_buckets = λ s. []; levels = λ l s. [] }

-- An assignment to the timer object under an id.
pub modify : ℕ → (Timer → Timer) → TimerWheel → TimerWheel
modify i f w = record w { timers = λ j. if i == j then Option.map f (w.timers j) else w.timers j }

-- `int.bit_length`, with the number itself as fuel.
pub bits : ℕ → ℕ → ℕ
bits zero n = 0
bits (suc fuel) n = let rest = bits fuel (n / 2) in if n == 0 then 0 else suc rest

pub bit_length : ℕ → ℕ
bit_length n = bits n n

-- The shift of a level: the bits of a deadline below its slot.
abbrev pub shift : ℕ → ℕ
shift level = near_bits + level * level_bits

abbrev pub level_slot : ℕ → ℕ → ℕ
level_slot level tick = (tick / 2 ^ shift level) % level_size

pub place_of : ℕ → ℕ → Level × ℕ
place_of current deadline =
    let delta = deadline - current in
    let level = min ((bit_length delta - near_bits - 1) / level_bits) (level_count - 1) in
    if ltb delta near_size
    then (near, deadline % near_size)
    else (upper level, level_slot level deadline)

-- The entry that `_insert` makes at a tick, and the place that it picks.
abbrev pub new_entry : ℕ → ℕ → ℕ → ℕ → Entry
new_entry current timer deadline generation =
    let (level, slot) = place_of current deadline in
    record {
      timer = timer;
      deadline_tick = deadline;
      generation = generation;
      level = level;
      slot = slot;
    }

-- `TimerWheel._insert`
pub insert : ℕ → ℕ → ℕ → TimerWheel → TimerWheel
insert timer deadline generation w =
    let e = new_entry w.current_tick timer deadline generation in
    let w' = set_bucket e.level e.slot (put timer e (bucket w e.level e.slot)) w in
    record w' { entries = put timer e w'.entries }

-- `TimerWheel._remove`
pub remove_entry : ℕ → Option Entry → TimerWheel → TimerWheel
remove_entry timer none w = w
remove_entry timer (some e) w =
    set_bucket e.level e.slot (pop timer (bucket w e.level e.slot))
      (record w { entries = pop timer w.entries })

pub remove : ℕ → TimerWheel → TimerWheel
remove timer w = remove_entry timer (get timer w.entries) w

-- `self._entries.pop(entry.timer.id, None)`
abbrev pub forget : Entry → TimerWheel → TimerWheel
forget e w = record w { entries = pop e.timer w.entries }

abbrev pub put_back : Entry → TimerWheel → TimerWheel
put_back e w = insert e.timer e.deadline_tick e.generation w

-- `entry.timer._expire(entry.generation)`
abbrev pub fire : Entry → TimerWheel → TimerWheel
fire e w = modify e.timer (expire e.generation) w

-- The body of the loop of `_cascade`, and the loop.
pub reinsert_all : List Entry → TimerWheel → TimerWheel
reinsert_all [] w = w
reinsert_all (e ∷ es) w = reinsert_all es (put_back e (forget e w))

-- `_cascade` but for its recursive call.
pub cascade_level : ℕ → TimerWheel → TimerWheel
cascade_level level w =
    let slot = level_slot level w.current_tick in
    reinsert_all (values (w.levels level slot)) (set_bucket (upper level) slot [] w)

-- `TimerWheel._cascade`; the first argument counts the levels above this one, so that it is 0
-- exactly when `level_index + 1 < _LEVEL_COUNT` fails.
pub cascade : ℕ → ℕ → TimerWheel → TimerWheel
cascade zero level w = cascade_level level w
cascade (suc above) level w =
    let w' = cascade_level level w in
    let rest = cascade above (level + 1) w' in
    if level_slot level w.current_tick == 0 then rest else w'

pub expire_or_reinsert : Entry → TimerWheel → TimerWheel
expire_or_reinsert e w =
    let w' = forget e w in if leb e.deadline_tick w'.current_tick then fire e w' else put_back e w'

pub expire_all : List Entry → TimerWheel → TimerWheel
expire_all [] w = w
expire_all (e ∷ es) w = expire_all es (expire_or_reinsert e w)

-- `TimerWheel._expire_near`
pub expire_near : ℕ → TimerWheel → TimerWheel
expire_near slot w = expire_all (values (w.near_buckets slot)) (set_bucket near slot [] w)

-- One round of the loop of `_advance_to`.
pub tick : TimerWheel → TimerWheel
tick w =
    let now = w.current_tick + 1 in
    let w' = record w { current_tick = now } in
    expire_near (now % near_size) (if now % near_size == 0 then cascade 3 0 w' else w')

-- The loop, by the rounds that are left.
pub ticks : ℕ → TimerWheel → TimerWheel
ticks zero w = w
ticks (suc n) w = ticks n (tick w)

pub rebuild_entry : ℕ → Entry → TimerWheel → TimerWheel
rebuild_entry target e w = if leb e.deadline_tick target then fire e w else put_back e w

pub rebuild_all : ℕ → List Entry → TimerWheel → TimerWheel
rebuild_all target [] w = w
rebuild_all target (e ∷ es) w = rebuild_all target es (rebuild_entry target e w)

-- `TimerWheel._rebuild`
pub rebuild : ℕ → TimerWheel → TimerWheel
rebuild target w =
    rebuild_all target (values w.entries) (record (clear_all w) { current_tick = target })

-- `TimerWheel._advance_to`
pub advance_to : ℕ → TimerWheel → TimerWheel
advance_to target w =
    let elapsed = target - w.current_tick in
    if elapsed == 0
    then w
    else if leb near_size elapsed && ltb (length w.entries) elapsed
    then rebuild target w
    else ticks elapsed w
