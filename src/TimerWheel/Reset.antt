-- ===== src/TimerWheel/Reset.antt =====
-- `Timer.reset`: the invariant.
use bazaar_compute_node.Prelude.{
  ℕ, ◌+◌, ◌≤◌, ◌<◌, ◌≡◌, inl, inr, refl, arith, true, false, Option, none, some, some_inj, ◌==◌,
  ==_iff, ==_refl, [], ◌∷◌, Bool-cases, ℤ,
}
use bazaar_compute_node.Prelude.Dict.{get, get-nil}
use bazaar_compute_node.Timer.{Timer, Reply, returned, raised}
use bazaar_compute_node.TimerWheel.{
  TimerWheel, Entry, Level, bucket, insert, modify, remove, remove_entry, set_bucket, advance_to,
  tick_of,
}
use bazaar_compute_node.TimerWheel.Methods.{
  is_active, require_running, delay_ticks, rearm, generation_of, reschedule_after, reset,
}
use bazaar_compute_node.TimerWheel.Places.{get-head}
use bazaar_compute_node.TimerWheel.Inv.{TimerIsValid, Inv, IsValid}
use bazaar_compute_node.TimerWheel.Insert.{insert-Inv}
use bazaar_compute_node.TimerWheel.Due.{rebase-Inv, advance_to-IsValid, entry_of_active}
use bazaar_compute_node.TimerWheel.Modify.{modify-Inv}
use bazaar_compute_node.TimerWheel.Remove.{remove-eq, removed-Inv}
use bazaar_compute_node.TimerWheel.Create.{guarded_delay}
use bazaar_compute_node.TimerWheel.Cancel.{removed_tighter}

-- The timer under an id that is active.
pub active_timer :
    (w : TimerWheel) (i : ℕ)
    → is_active i w ≡ true
    → (t : Timer) × (w.timers i ≡ some t) × (t.active ≡ true)
unfolding is_active
active_timer w i h = go (w.timers i) refl h
  where
    go :
        (o : Option Timer)
        → w.timers i ≡ o
        → (elim o [ none ↦ false | some t ↦ t.active ]) ≡ true
        → (t : Timer) × (w.timers i ≡ some t) × (t.active ≡ true)
    go none p a = cc
    go (some t) p a = (t, p, a)

module _ {w : TimerWheel} (i deadline : ℕ) (e : Entry) (t : Timer) (v : IsValid w)
    (at_i : w.timers i ≡ some t) (active : t.active ≡ true) (there : get i w.entries ≡ some e)
    (ahead : w.current_tick < deadline) where
  abbrev moved : Entry
  moved = record e { deadline_tick = deadline; generation = t.generation + 1 }

  abbrev rearmed : TimerWheel
  rearmed = modify i (rearm deadline) (remove_entry i (some e) w)

  moved_loose :
      (j : ℕ) (g : Entry)
      → get j ((i, moved) ∷ []) ≡ some g
      → (g.timer ≡ j)
        × ((l : Level) (s : ℕ) → get j (bucket (remove_entry i (some e) w) l s) ≡ none)
  moved_loose j g h = elim (Bool-cases (i == j)) [
    | inl same ↦
        let at_j : i ≡ j = (==_iff i j).0 same in
        let is_g : moved ≡ g = some_inj (rw (get-head, same) at h) in
        let (p, q) = (removed-Inv i e v.inv there).loose i e (rw (get-head, ==_refl)) in
        (rw (← is_g, ← at_j) p, λ l s. rw (← at_j) (q l s))
    | inr ne ↦ absurd (cc (get-nil {V = Entry} j, get-head i j moved [], ne, h))
  ]

  rearm-valid : TimerIsValid w.current_tick (rearm deadline t)
  unfolding rearm
  rearm-valid =
      let old = v.inv.timers_valid i t at_i in
      record {
        due = λ h. absurd (h refl);
        idle = λ h. absurd (h refl);
        cancelled_idle = old.cancelled_idle;
        closed_idle = old.closed_idle;
      }

  rearmed-Inv : Inv rearmed.timers (w.current_tick + 1) 4 ((i, moved) ∷ []) rearmed
  unfolding remove_entry set_bucket rearm
  rearmed-Inv =
      modify-Inv ((i, moved) ∷ []) i (rearm deadline) t (removed-Inv i e v.inv there) at_i
        (λ j g r. removed_tighter i e (rearm deadline) t v at_i there j g) moved_loose
        (get-nil i, tt) (λ j ne. cc (ne, get-head i j moved [], get-head i j e []))
        (rw (get-head, ==_refl) (active, refl, refl)) rearm-valid

  generation_rearmed : generation_of (rearmed.timers i) ≡ t.generation + 1
  unfolding remove_entry set_bucket modify rearm generation_of
  generation_rearmed = rw (==_refl, at_i)

  reset_entry-IsValid : IsValid (insert i deadline (generation_of (rearmed.timers i)) rearmed)
  unfolding remove_entry set_bucket modify insert
  reset_entry-IsValid =
      rw generation_rearmed
        (record { inv = rebase-Inv (insert-Inv rearmed-Inv (omega arith) (omega arith)) })

rearm_active-IsValid :
    {w : TimerWheel} (i deadline : ℕ)
    → IsValid w
    → is_active i w ≡ true
    → w.current_tick < deadline
    → IsValid (
        insert i deadline
          (generation_of ((modify i (rearm deadline) (remove i w)).timers i))
          (modify i (rearm deadline) (remove i w)))
rearm_active-IsValid {w} i deadline v h ahead =
    let (t, at_i, active) = active_timer w i h in
    let (e, there, d, g) = entry_of_active i t v.inv at_i active in
    rw (remove-eq i e v.inv there) (reset_entry-IsValid i deadline e t v at_i active there ahead)

reschedule_after-IsValid :
    {w : TimerWheel} (i ns : ℕ) (r : Reply ℕ)
    → ((n : ℕ) → r ≡ returned n → 1 ≤ n)
    → IsValid w
    → IsValid (reschedule_after i ns r w).1
unfolding reschedule_after
reschedule_after-IsValid i ns (raised x) h v = v
reschedule_after-IsValid {w} i ns (returned n) h v =
    elim (Bool-cases (is_active i (advance_to (tick_of ns) w))) [
      | inl active ↦
          let n_pos = h n refl in
          rw active (
            rearm_active-IsValid i ((advance_to (tick_of ns) w).current_tick + n)
              (advance_to-IsValid (tick_of ns) v).0 active (omega arith))
      | inr idle ↦ rw idle (advance_to-IsValid (tick_of ns) v).0
    ]

-- `Timer.reset` keeps the invariant, also where it raises.
pub reset-IsValid :
    {w : TimerWheel} (i ns : ℕ) (delay : ℤ) → IsValid w → IsValid (reset i ns delay w).1
unfolding reset
reset-IsValid {w} i ns delay v = elim (Bool-cases (is_active i w)) [
  | inl active ↦ rw active (
      reschedule_after-IsValid i ns (require_running w (delay_ticks delay))
        (λ n h. (guarded_delay w delay n h).0) v)
  | inr idle ↦ rw idle v
]
