-- ===== src/TimerWheel/Flags.antt =====
-- `_advance_to` leaves alone what is not a bucket, an entry, a timer or the tick.
use bazaar_compute_node.Prelude.{
  ℕ, zero, suc, ◌+◌, ◌-◌, ◌%◌, ◌≡◌, refl, ◌∙◌, arith, Bool, inl, inr, List, [], ◌∷◌, ◌==◌,
  Bool-cases,
}
use bazaar_compute_node.Prelude.Dict.{values}
use bazaar_compute_node.TimerWheel.{
  TimerWheel, Entry, Driver, near, upper, insert, set_bucket, put_back, forget, modify,
  reinsert_all, cascade_level, cascade, expire_or_reinsert, expire_all, expire_near, tick, ticks,
  rebuild_entry, rebuild_all, rebuild, clear_all, advance_to, level_slot, near_size,
}

-- `_poke`, `_waiting_poke`, the driver, `_started`, `_closed` and `_next_timer_id`.
abbrev pub Flags : Type 0
Flags = Bool × Bool × Driver × Bool × Bool × ℕ

abbrev pub flags : TimerWheel → Flags
flags w = (w.poke, w.waiting_poke, w.driver, w.started, w.closed, w.next_timer_id)

flags-put_back : (e : Entry) (w : TimerWheel) → flags (put_back e w) ≡ flags w
unfolding insert set_bucket
flags-put_back e w = refl

flags-reinsert_all : (es : List Entry) (w : TimerWheel) → flags (reinsert_all es w) ≡ flags w
unfolding reinsert_all
flags-reinsert_all [] w = refl
flags-reinsert_all (e ∷ es) w =
    flags-reinsert_all es (put_back e (forget e w)) ∙ flags-put_back e (forget e w)

flags-cascade_level : (k : ℕ) (w : TimerWheel) → flags (cascade_level k w) ≡ flags w
unfolding cascade_level set_bucket
flags-cascade_level k w =
    flags-reinsert_all (values (w.levels k (level_slot k w.current_tick)))
      (set_bucket (upper k) (level_slot k w.current_tick) [] w)

flags-cascade : (above k : ℕ) (w : TimerWheel) → flags (cascade above k w) ≡ flags w
unfolding cascade
flags-cascade zero k w = flags-cascade_level k w
flags-cascade (suc above) k w = elim (Bool-cases (level_slot k w.current_tick == 0)) [
  | inl first ↦ rw first (flags-cascade above (k + 1) (cascade_level k w) ∙ flags-cascade_level k w)
  | inr inside ↦ rw inside (flags-cascade_level k w)
]

flags-expire_or_reinsert : (e : Entry) (w : TimerWheel) → flags (expire_or_reinsert e w) ≡ flags w
unfolding expire_or_reinsert insert set_bucket modify
flags-expire_or_reinsert e w = ground arith

flags-expire_all : (es : List Entry) (w : TimerWheel) → flags (expire_all es w) ≡ flags w
unfolding expire_all
flags-expire_all [] w = refl
flags-expire_all (e ∷ es) w =
    flags-expire_all es (expire_or_reinsert e w) ∙ flags-expire_or_reinsert e w

flags-expire_near : (s : ℕ) (w : TimerWheel) → flags (expire_near s w) ≡ flags w
unfolding expire_near set_bucket
flags-expire_near s w = flags-expire_all (values (w.near_buckets s)) (set_bucket near s [] w)

flags-tick : (w : TimerWheel) → flags (tick w) ≡ flags w
unfolding tick
flags-tick w = elim (Bool-cases ((w.current_tick + 1) % near_size == 0)) [
  | inl begins ↦ rw begins (
      flags-expire_near ((w.current_tick + 1) % near_size) (cascade 3 0 moved)
      ∙ flags-cascade 3 0 moved)
  | inr within ↦ rw within (flags-expire_near ((w.current_tick + 1) % near_size) moved)
]
  where
    moved : TimerWheel
    moved = record w { current_tick = w.current_tick + 1 }

flags-ticks : (n : ℕ) (w : TimerWheel) → flags (ticks n w) ≡ flags w
unfolding ticks
flags-ticks zero w = refl
flags-ticks (suc n) w = flags-ticks n (tick w) ∙ flags-tick w

flags-rebuild_entry : (t : ℕ) (e : Entry) (w : TimerWheel) → flags (rebuild_entry t e w) ≡ flags w
unfolding rebuild_entry insert set_bucket modify
flags-rebuild_entry t e w = ground arith

flags-rebuild_all :
    (t : ℕ) (es : List Entry) (w : TimerWheel) → flags (rebuild_all t es w) ≡ flags w
unfolding rebuild_all
flags-rebuild_all t [] w = refl
flags-rebuild_all t (e ∷ es) w =
    flags-rebuild_all t es (rebuild_entry t e w) ∙ flags-rebuild_entry t e w

flags-rebuild : (t : ℕ) (w : TimerWheel) → flags (rebuild t w) ≡ flags w
unfolding rebuild clear_all
flags-rebuild t w =
    flags-rebuild_all t (values w.entries) (record (clear_all w) { current_tick = t })

pub flags-advance_to : (t : ℕ) (w : TimerWheel) → flags (advance_to t w) ≡ flags w
unfolding advance_to
flags-advance_to t w = ground (arith, flags-rebuild t w, flags-ticks (t - w.current_tick) w)
