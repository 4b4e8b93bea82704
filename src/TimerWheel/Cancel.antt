-- ===== src/TimerWheel/Cancel.antt =====
-- `Timer.cancel`, and the end of a `wait`, which may cancel: the invariant.
use bazaar_compute_node.Prelude.{
  ℕ, ◌≡◌, inl, inr, refl, sym, ◌∙◌, false, ◌||◌, none, some, ◌==◌, ==_iff, ==_refl, if◌then◌else◌,
  [], ◌∷◌, Bool-cases, Option-cases,
}
use bazaar_compute_node.Prelude.Dict.{get, get-nil}
use bazaar_compute_node.Timer.{Timer, mark_cancelled, Future, pending, result, exception}
use bazaar_compute_node.TimerWheel.{TimerWheel, Entry, modify, remove, remove_entry, set_bucket}
use bazaar_compute_node.TimerWheel.Methods.{
  is_active, cancel_timer, cancel, end_wait, consume, wait_resume, wait_cancelled,
}
use bazaar_compute_node.TimerWheel.Places.{get-head}
use bazaar_compute_node.TimerWheel.Inv.{TimerIsValid, IsValid}
use bazaar_compute_node.TimerWheel.Due.{entry_of_active}
use bazaar_compute_node.TimerWheel.Modify.{modify-Inv}
use bazaar_compute_node.TimerWheel.Remove.{remove-eq, removed_entries, removed-Inv}
use bazaar_compute_node.TimerWheel.Touch.{
  relink, modify-IsValid, harmless-IsValid, end_wait-Harmless, consume-Harmless,
}

mark_cancelled-valid :
    (now : ℕ) (t : Timer) → TimerIsValid now t → TimerIsValid now (mark_cancelled t)
unfolding mark_cancelled
mark_cancelled-valid now t v = record {
  due = v.due;
  idle = λ _. refl;
  cancelled_idle = λ _. refl;
  closed_idle = λ _. refl;
}

mark_cancelled-fields :
    (t : Timer)
    → ((mark_cancelled t).deadline_tick ≡ t.deadline_tick)
      × ((mark_cancelled t).generation ≡ t.generation)
unfolding mark_cancelled
mark_cancelled-fields t = (refl, refl)

mark_cancelled-idle : (t : Timer) → (mark_cancelled t).active ≡ false
unfolding mark_cancelled
mark_cancelled-idle t = refl

-- The entry of a timer goes, and the timer is no longer active.
module _ {w : TimerWheel} (i : ℕ) (e : Entry) (f : Timer → Timer) (t : Timer) (v : IsValid w)
    (at_i : w.timers i ≡ some t) (there : get i w.entries ≡ some e) where
  pub removed_absent : get i (remove_entry i (some e) w).entries ≡ none
  removed_absent = rw (removed_entries i e v.inv there i, ==_refl)

  pub removed_tighter :
      (j : ℕ) (g : Entry)
      → get j (remove_entry i (some e) w).entries ≡ some g
      → get j ((i, e) ∷ []) ≡ none
  removed_tighter j g h = elim (Bool-cases (i == j)) [
    | inl same ↦ absurd (cc ((==_iff i j).0 same, removed_absent, h))
    | inr ne ↦ rw (get-head, ne, get-nil)
  ]

  drop_entry :
      (f t).active ≡ false
      → TimerIsValid w.current_tick (f t)
      → IsValid (modify i f (remove_entry i (some e) w))
  unfolding remove_entry set_bucket modify
  drop_entry idle valid = record {
    inv =
        modify-Inv [] i f t (removed-Inv i e v.inv there) at_i (λ j g r. removed_tighter j g)
          (λ j g r. absurd (cc (get-nil {V = Entry} j, r))) tt (λ j ne. rw (get-head, ne))
          (rw (get-nil, removed_absent) idle) valid;
  }

-- Cancelling a timer that has an entry.
cancel_active :
    {w : TimerWheel} (i : ℕ) (t : Timer) (e : Entry)
    → IsValid w
    → w.timers i ≡ some t
    → get i w.entries ≡ some e
    → IsValid (modify i mark_cancelled (remove i w))
unfolding remove_entry set_bucket
cancel_active {w} i t e v at_i there = rw (remove-eq i e v.inv there) (
    drop_entry i e mark_cancelled t v at_i there (mark_cancelled-idle t)
      (mark_cancelled-valid w.current_tick t (v.inv.timers_valid i t at_i)))

-- Cancelling a timer that has none.
cancel_idle :
    {w : TimerWheel} (i : ℕ) (t : Timer)
    → IsValid w
    → w.timers i ≡ some t
    → t.active ≡ false
    → IsValid (modify i mark_cancelled w)
cancel_idle {w} i t v at_i idle =
    modify-IsValid i mark_cancelled t v.inv at_i
      (relink (get i w.entries) t (mark_cancelled t) (mark_cancelled-idle t ∙ sym idle)
        (mark_cancelled-fields t).0 (mark_cancelled-fields t).1
        (rw (get-nil, at_i) at (v.inv.linked i)))
      (mark_cancelled-valid w.current_tick t (v.inv.timers_valid i t at_i))

cancel_timer-IsValid :
    {w : TimerWheel} (i : ℕ) (t : Timer)
    → IsValid w
    → w.timers i ≡ some t
    → IsValid (cancel_timer i (some t) w)
unfolding cancel_timer
cancel_timer-IsValid {w} i t v at_i = elim (Bool-cases (t.cancelled || t.closed)) [
  | inl over ↦ rw over v
  | inr open_ ↦ elim (Bool-cases t.active) [
    | inl active ↦
        let (e, there, d, g) = entry_of_active i t v.inv at_i active in
        rw (open_, active) (cancel_active i t e v at_i there)
    | inr idle ↦ rw (open_, idle) (cancel_idle i t v at_i idle)
  ]
]

-- `Timer.cancel` keeps the invariant.
pub cancel-IsValid : {w : TimerWheel} (i : ℕ) → IsValid w → IsValid (cancel i w)
unfolding cancel
cancel-IsValid {w} i v = elim (Option-cases (w.timers i)) [
  | inl absent ↦ rw absent (unfold cancel_timer in v)
  | inr (t, at_i) ↦ rw at_i (cancel_timer-IsValid i t v at_i)
]

-- What `wait` does when it is resumed or cancelled keeps the invariant.
cancel_if_active-IsValid :
    {w : TimerWheel} (i : ℕ) → IsValid w → IsValid (if is_active i w then cancel i w else w)
cancel_if_active-IsValid {w} i v = elim (Bool-cases (is_active i w)) [
  | inl active ↦ rw active (cancel-IsValid i v)
  | inr idle ↦ rw idle v
]

pub wait_resume-IsValid :
    {w : TimerWheel} (i : ℕ) (f : Future) → IsValid w → IsValid (wait_resume i f w).1
unfolding wait_resume
wait_resume-IsValid i pending v = v
wait_resume-IsValid i result v =
    harmless-IsValid i end_wait end_wait-Harmless (harmless-IsValid i consume consume-Harmless v)
wait_resume-IsValid i (exception x) v =
    harmless-IsValid i end_wait end_wait-Harmless (cancel_if_active-IsValid i v)

pub wait_cancelled-IsValid : {w : TimerWheel} (i : ℕ) → IsValid w → IsValid (wait_cancelled i w).1
unfolding wait_cancelled
wait_cancelled-IsValid i v =
    harmless-IsValid i end_wait end_wait-Harmless (cancel_if_active-IsValid i v)
