-- ===== src/TimerWheel/Touch.antt =====
-- Changes of a timer object that leave alone what the wheel reads of it; `wait` up to its pause.
use mathlib.Core.Option
use bazaar_compute_node.Prelude.{
  ℕ, ◌+◌, ◌≡◌, inl, inr, refl, sym, ◌∙◌, ap, subst, fun_ext, arith, Option, none, some, ◌==◌,
  ==_iff, if◌then◌else◌, [], Bool-cases, Option-cases,
}
use bazaar_compute_node.Prelude.Dict.{get, get-nil}
use bazaar_compute_node.Timer.{Timer, wait_begin, wait_expiry}
use bazaar_compute_node.TimerWheel.{TimerWheel, Entry, modify}
use bazaar_compute_node.TimerWheel.Methods.{wait, wait_start, end_wait, consume}
use bazaar_compute_node.TimerWheel.Inv.{Linked, TimerIsValid, Inv, IsValid}
use bazaar_compute_node.TimerWheel.Modify.{modify-Inv}

pub TimerIsValid-same :
    (now : ℕ) (t u : Timer)
    → u.expired_generation ≡ t.expired_generation
    → u.deadline_tick ≡ t.deadline_tick
    → u.active ≡ t.active
    → u.cancelled ≡ t.cancelled
    → u.closed ≡ t.closed
    → TimerIsValid now t
    → TimerIsValid now u
TimerIsValid-same now t u g d a c k v = record {
  due = λ h. rw d (v.due (rw g at h));
  idle = λ h. a ∙ v.idle (rw g at h);
  cancelled_idle = λ h. a ∙ v.cancelled_idle (sym c ∙ h);
  closed_idle = λ h. a ∙ v.closed_idle (sym k ∙ h);
}

-- A change of a timer that leaves alone what the wheel reads of it.
pub record Harmless (f : Timer → Timer) : Type 0 where
  same_active : (t : Timer) → (f t).active ≡ t.active
  same_deadline : (t : Timer) → (f t).deadline_tick ≡ t.deadline_tick
  same_generation : (t : Timer) → (f t).generation ≡ t.generation
  still_valid : (now : ℕ) (t : Timer) → TimerIsValid now t → TimerIsValid now (f t)

pub relink :
    (o : Option Entry) (t u : Timer)
    → u.active ≡ t.active
    → u.deadline_tick ≡ t.deadline_tick
    → u.generation ≡ t.generation
    → Linked o (some t)
    → Linked o (some u)
relink none t u a d g h = a ∙ h
relink (some e) t u a d g h = (a ∙ h.0, h.1 ∙ sym d, h.2 ∙ sym g)

modify_absent : {w : TimerWheel} (i : ℕ) (f : Timer → Timer) → w.timers i ≡ none → modify i f w ≡ w
unfolding modify
modify_absent {w} i f h =
    ap (λ (heap : ℕ → Option Timer). record w { timers = heap }) (fun_ext same)
  where
    same : (j : ℕ) → (if i == j then Option.map f (w.timers j) else w.timers j) ≡ w.timers j
    same j = elim (Bool-cases (i == j)) [
      | inl at_i ↦ rw (at_i, ← (==_iff i j).0 at_i, h)
      | inr ne ↦ rw ne
    ]

-- The timer under an id changes, and nothing is loose before or after.
pub modify-IsValid :
    {heap : ℕ → Option Timer} {w : TimerWheel} (i : ℕ) (f : Timer → Timer) (t : Timer)
    → Inv heap (w.current_tick + 1) 4 [] w
    → w.timers i ≡ some t
    → Linked (get i w.entries) (some (f t))
    → TimerIsValid w.current_tick (f t)
    → IsValid (modify i f w)
unfolding modify
modify-IsValid {w = w} i f t inv at_i link valid = record {
  inv =
      modify-Inv [] i f t inv at_i (λ j e r there. r) (λ j e r. inv.loose j e r) tt (λ j ne. refl)
        (rw get-nil link) valid;
}

pub harmless-IsValid :
    {w : TimerWheel} (i : ℕ) (f : Timer → Timer) → Harmless f → IsValid w → IsValid (modify i f w)
harmless-IsValid {w} i f c v = elim (Option-cases (w.timers i)) [
  | inl absent ↦ subst IsValid (sym (modify_absent i f absent)) v
  | inr (t, at_i) ↦
      modify-IsValid i f t v.inv at_i
        (relink (get i w.entries) t (f t) (c.same_active t) (c.same_deadline t)
          (c.same_generation t) (rw (get-nil, at_i) at (v.inv.linked i)))
        (c.still_valid w.current_tick t (v.inv.timers_valid i t at_i))
]

pub end_wait-Harmless : Harmless end_wait
unfolding end_wait
end_wait-Harmless = record {
  same_active = λ t. refl;
  same_deadline = λ t. refl;
  same_generation = λ t. refl;
  still_valid = λ now t. TimerIsValid-same now t _ refl refl refl refl refl;
}

pub consume-Harmless : Harmless consume
unfolding consume
consume-Harmless = record {
  same_active = λ t. refl;
  same_deadline = λ t. refl;
  same_generation = λ t. refl;
  still_valid = λ now t. TimerIsValid-same now t _ refl refl refl refl refl;
}

wait_begin-Harmless : Harmless (λ t. (wait_begin t).1)
unfolding wait_begin wait_expiry
wait_begin-Harmless = record {
  same_active = λ t. ground arith;
  same_deadline = λ t. ground arith;
  same_generation = λ t. ground arith;
  still_valid = λ now t v.
      TimerIsValid-same now t (wait_begin t).1 (ground arith) (ground arith) (ground arith)
        (ground arith) (ground arith) v;
}

-- `wait` keeps the invariant.
pub wait-IsValid : {w : TimerWheel} (i : ℕ) → IsValid w → IsValid (wait i w).1
unfolding wait
wait-IsValid {w} i v = go (w.timers i)
  where
    go : (o : Option Timer) → IsValid (wait_start i o w).1
    go none = unfold wait_start in v
    go (some t) =
        unfold wait_start in harmless-IsValid i (λ t. (wait_begin t).1) wait_begin-Harmless v
