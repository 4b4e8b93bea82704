-- ===== src/TimerWheel/Loops.antt =====
-- The loops over a bucket and over all entries keep the invariant, and leave no entry loose.
use bazaar_compute_node.Prelude.{
  ℕ, ◌+◌, ◌≤◌, ◌≡◌, inl, inr, refl, ◌∙◌, arith, false, Option, none, some, List, ◌==◌, ==_refl, [],
  ◌∷◌, Bool-cases, leb, leb→le, leb_false→lt,
}
use bazaar_compute_node.Prelude.Dict.{get, values, get-pop}
use bazaar_compute_node.Timer.{Timer}
use bazaar_compute_node.TimerWheel.{
  TimerWheel, Entry, Bucket, insert, modify, set_bucket, put_back, forget, reinsert_all,
  expire_or_reinsert, expire_all, rebuild_entry, rebuild_all,
}
use bazaar_compute_node.TimerWheel.Places.{get-head, get-entries-insert}
use bazaar_compute_node.TimerWheel.Loose.{
  put_back-Inv, forget-Inv, fire-Inv, head_loose, other_rest,
}
use bazaar_compute_node.TimerWheel.Inv.{Inv}

pub reinsert_all-Inv :
    {heap : ℕ → Option Timer} {lo k : ℕ} (rest : Bucket) {w : TimerWheel}
    → Inv heap lo k rest w
    → w.current_tick ≤ lo
    → ((i : ℕ) (e : Entry) → get i rest ≡ some e → lo ≤ e.deadline_tick)
    → Inv heap lo k [] (reinsert_all (values rest) w)
unfolding reinsert_all values insert set_bucket
reinsert_all-Inv [] inv ahead later = inv
reinsert_all-Inv ((i, e) ∷ rest) inv ahead later =
    reinsert_all-Inv rest (put_back-Inv (forget-Inv inv) ahead (later i e (rw (get-head, ==_refl))))
      ahead (λ j f h. later j f (rw (get-head, other_rest inv j f h) h))

pub tick-reinsert_all :
    (es : List Entry) (w : TimerWheel) → (reinsert_all es w).current_tick ≡ w.current_tick
unfolding reinsert_all insert set_bucket
tick-reinsert_all [] w = refl
tick-reinsert_all (e ∷ es) w = tick-reinsert_all es (put_back e (forget e w))

-- One round of the loop of `_expire_near`.
expire_or_reinsert-Inv :
    {heap : ℕ → Option Timer} {lo k i : ℕ} {e : Entry} {rest : Bucket} {w : TimerWheel}
    → Inv heap lo k ((i, e) ∷ rest) w
    → lo ≡ w.current_tick + 1
    → Inv heap lo k rest (expire_or_reinsert e w)
unfolding expire_or_reinsert
expire_or_reinsert-Inv {i = i} {e = e} {w = w} inv p =
    elim (Bool-cases (leb e.deadline_tick w.current_tick)) [
      | inl due ↦ rw due (
          fire-Inv (forget-Inv inv) (rw (get-pop, (head_loose inv).0, ==_refl))
            (leb→le e.deadline_tick w.current_tick due))
      | inr early ↦ rw early (
          put_back-Inv (forget-Inv inv) (omega arith)
            (omega (arith, leb_false→lt e.deadline_tick w.current_tick early)))
    ]

tick-expire_or_reinsert :
    (e : Entry) (w : TimerWheel) → (expire_or_reinsert e w).current_tick ≡ w.current_tick
unfolding expire_or_reinsert insert set_bucket modify
tick-expire_or_reinsert e w = ground arith

pub tick-expire_all :
    (es : List Entry) (w : TimerWheel) → (expire_all es w).current_tick ≡ w.current_tick
unfolding expire_all
tick-expire_all [] w = refl
tick-expire_all (e ∷ es) w =
    tick-expire_all es (expire_or_reinsert e w) ∙ tick-expire_or_reinsert e w

pub expire_all-Inv :
    {heap : ℕ → Option Timer} {lo k : ℕ} (rest : Bucket) {w : TimerWheel}
    → Inv heap lo k rest w
    → lo ≡ w.current_tick + 1
    → Inv heap lo k [] (expire_all (values rest) w)
unfolding expire_all values
expire_all-Inv [] inv p = inv
expire_all-Inv ((i, e) ∷ rest) {w} inv p =
    expire_all-Inv rest (expire_or_reinsert-Inv inv p) (rw tick-expire_or_reinsert p)

-- One round of the loop of `_rebuild`, which has cleared `_entries`.
abbrev pub Gone : Bucket → TimerWheel → Type 0
Gone rest w = (i : ℕ) (e : Entry) → get i rest ≡ some e → get i w.entries ≡ none

rebuild_entry-Inv :
    {heap : ℕ → Option Timer} {lo k i : ℕ} {e : Entry} {rest : Bucket} {w : TimerWheel} (t : ℕ)
    → Inv heap lo k ((i, e) ∷ rest) w
    → Gone ((i, e) ∷ rest) w
    → t ≡ w.current_tick
    → lo ≡ t + 1
    → Inv heap lo k rest (rebuild_entry t e w)
unfolding rebuild_entry
rebuild_entry-Inv {i = i} {e = e} {w = w} t inv gone q p =
    elim (Bool-cases (leb e.deadline_tick t)) [
      | inl due ↦ rw due (
          fire-Inv inv (gone i e (rw (get-head, ==_refl)))
            (omega (arith, leb→le e.deadline_tick t due)))
      | inr early ↦
          rw early
            (put_back-Inv inv (omega arith) (omega (arith, leb_false→lt e.deadline_tick t early)))
    ]

tick-rebuild_entry :
    (target : ℕ) (e : Entry) (w : TimerWheel)
    → (rebuild_entry target e w).current_tick ≡ w.current_tick
unfolding rebuild_entry insert set_bucket modify
tick-rebuild_entry target e w = ground arith

pub tick-rebuild_all :
    (target : ℕ) (es : List Entry) (w : TimerWheel)
    → (rebuild_all target es w).current_tick ≡ w.current_tick
unfolding rebuild_all
tick-rebuild_all target [] w = refl
tick-rebuild_all target (e ∷ es) w =
    tick-rebuild_all target es (rebuild_entry target e w) ∙ tick-rebuild_entry target e w

get-entries-rebuild_entry :
    (target : ℕ) (e : Entry) (w : TimerWheel) (j : ℕ)
    → (e.timer == j) ≡ false
    → get j (rebuild_entry target e w).entries ≡ get j w.entries
unfolding rebuild_entry modify
get-entries-rebuild_entry target e w j ne =
    ground (arith, get-entries-insert e.timer e.deadline_tick e.generation w j)

pub rebuild_all-Inv :
    {heap : ℕ → Option Timer} {lo k : ℕ} (t : ℕ) (rest : Bucket) {w : TimerWheel}
    → Inv heap lo k rest w
    → Gone rest w
    → t ≡ w.current_tick
    → lo ≡ t + 1
    → Inv heap lo k [] (rebuild_all t (values rest) w)
unfolding rebuild_all values
rebuild_all-Inv t [] inv gone q p = inv
rebuild_all-Inv t ((i, e) ∷ rest) {w} inv gone q p =
    rebuild_all-Inv t rest (rebuild_entry-Inv t inv gone q p)
      (λ j f h.
        get-entries-rebuild_entry t e w j (rw (head_loose inv).0 (other_rest inv j f h))
        ∙ gone j f (rw (get-head, other_rest inv j f h) h))
      (rw tick-rebuild_entry q) p
