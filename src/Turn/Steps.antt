-- ===== src/Turn/Steps.antt =====
-- What one event, and one transition, makes of a turn.
use Prim.Native.String.{String}
use text.Mathlib.Text
use text.Mathlib.TextPositions.{eq_refl}
use bazaar_compute_node.Prelude.{
  ℕ, zero, suc, ◌≡◌, refl, sym, ◌∙◌, ap, true, false, not, inl, inr, Option, none, some, is_none,
  List, ==_iff, Bool-cases, if◌then◌else◌,
}
use bazaar_compute_node.Prelude.Result.{ok}
use bazaar_compute_node.Agent.{Actor, whole, thread, same_actor}
use bazaar_compute_node.Turn.{
  RuntimeTurnState, starting, running, completed, failed, cancelled, unknown, number, RuntimeTurn,
  is_terminal, same_state, Transition, transition_to, TurnPayload, turn_started, turn_completed,
  turn_failed, turn_cancelled, turn_unknown, name_of, event_state, turn_state, is_turn_event,
  runtime_event_advance, is_terminal_turn_event,
}
use bazaar_compute_node.Turn.Stream.{
  Envelope, Coordinator, set_turn, TurnError, provider_error, unless, with_provider, updated_turn,
  apply_runtime_event,
}

abbrev of_number : ℕ → RuntimeTurnState
of_number zero = starting
of_number (suc zero) = running
of_number (suc (suc zero)) = completed
of_number (suc (suc (suc zero))) = failed
of_number (suc (suc (suc (suc zero)))) = cancelled
of_number (suc (suc (suc (suc (suc n))))) = unknown

of_number-number : (s : RuntimeTurnState) → of_number (number s) ≡ s
of_number-number starting = refl
of_number-number running = refl
of_number-number completed = refl
of_number-number failed = refl
of_number-number cancelled = refl
of_number-number unknown = refl

same_state-path : (s t : RuntimeTurnState) → same_state s t ≡ true → s ≡ t
unfolding same_state
same_state-path s t h =
    sym (of_number-number s)
    ∙ ap of_number ((==_iff (number s) (number t)).0 h)
    ∙ of_number-number t

pub same_actor_refl : (a : Actor) → same_actor a a ≡ true
unfolding same_actor
same_actor_refl (whole i) = eq_refl i
same_actor_refl (thread i) = eq_refl i

-- A transition leads to its state, and into a state in which the turn is over with its time.
pub transition-state : (x : Transition) (t : RuntimeTurn) → (transition_to x t).state ≡ x.to
unfolding transition_to
transition-state x t = elim (Bool-cases (same_state x.to t.state)) [
  | inl same ↦ simp same (sym (same_state-path x.to t.state same))
  | inr other ↦ simp other refl
]

transition-id : (x : Transition) (t : RuntimeTurn) → (transition_to x t).turn_id ≡ t.turn_id
unfolding transition_to
transition-id x t = elim (Bool-cases (same_state x.to t.state)) [
  | inl same ↦ simp same refl
  | inr other ↦ simp other refl
]

pub transition-completed :
    (x : Transition) (t : RuntimeTurn)
    → is_terminal t.state ≡ false
    → is_terminal x.to ≡ true
    → is_none (transition_to x t).completed_at_ms ≡ false
unfolding transition_to
transition-completed x t active over = elim (Bool-cases (same_state x.to t.state)) [
  | inl same ↦ absurd (cc (active, over, ap is_terminal (same_state-path x.to t.state same)))
  | inr other ↦ simp (other, over) refl
]

with_provider-same :
    (o : Option String) (t : RuntimeTurn)
    → ((with_provider o t).state ≡ t.state)
      × ((with_provider o t).turn_id ≡ t.turn_id)
      × ((with_provider o t).completed_at_ms ≡ t.completed_at_ms)
unfolding with_provider
with_provider-same none t = (refl, refl, refl)
with_provider-same (some i) t = (refl, refl, refl)

unless-ok : {A : Type 0} (o : Option TurnError) (a b : A) → unless o a ≡ ok b → a ≡ b
unfolding unless
unless-ok none a b h = cc h
unless-ok (some x) a b h = absurd (cc h)

module _ (fold : ℕ → List ℕ) where
  -- The turn and the coordinator that an event of the turn leads to.
  abbrev pub next_coordinator :
      Actor → TurnPayload → RuntimeTurn → RuntimeTurn → Coordinator → Coordinator
  next_coordinator actor p turn updated c =
      record (set_turn turn.turn_id (if is_terminal_turn_event fold p then none else some updated)
        c) { agent = runtime_event_advance fold p actor c.agent }

  pub apply-next :
      (actor : Actor) (e : Envelope) (p : TurnPayload) (turn : RuntimeTurn) (c : Coordinator)
      (x : RuntimeTurn × Coordinator)
      → apply_runtime_event fold actor e p turn c ≡ ok x
      → (updated_turn fold e p turn, next_coordinator actor p turn (updated_turn fold e p turn) c)
        ≡ x
  unfolding apply_runtime_event
  apply-next actor e p turn c x h = elim (Bool-cases (not (Text.◌==◌ e.turn_id turn.turn_id))) [
    | inl other ↦ absurd (cc (rw other at h))
    | inr same ↦
        unless-ok (provider_error e.provider_turn_id turn.provider_turn_id) _ x (rw same at h)
  ]

  pub terminal_event-over :
      (p : TurnPayload)
      → is_terminal_turn_event fold p ≡ true
      → (is_turn_event fold (name_of p) ≡ true) × (is_terminal (turn_state (event_state p)) ≡ true)
  unfolding is_terminal_turn_event name_of event_state turn_state is_terminal
  terminal_event-over (turn_started name) h = absurd (cc h)
  terminal_event-over (turn_completed name) h = (h, refl)
  terminal_event-over (turn_cancelled name) h = (h, refl)
  terminal_event-over (turn_failed name kind message) h = (h, refl)
  terminal_event-over (turn_unknown name kind message) h = (h, refl)

  pub other_event-active :
      (p : TurnPayload) (s : RuntimeTurnState)
      → is_terminal_turn_event fold p ≡ false
      → is_terminal s ≡ false
      → is_terminal (if is_turn_event fold (name_of p) then turn_state (event_state p) else s)
        ≡ false
  unfolding is_terminal_turn_event name_of event_state turn_state is_terminal
  other_event-active (turn_started name) s h active = elim (Bool-cases (is_turn_event fold name)) [
    | inl turn ↦ rw turn refl
    | inr other ↦ rw other active
  ]
  other_event-active (turn_completed name) s h active = rw h active
  other_event-active (turn_cancelled name) s h active = rw h active
  other_event-active (turn_failed name kind message) s h active = rw h active
  other_event-active (turn_unknown name kind message) s h active = rw h active

  pub updated-state :
      (e : Envelope) (p : TurnPayload) (turn : RuntimeTurn)
      → (updated_turn fold e p turn).state
        ≡ (if is_turn_event fold (name_of p) then turn_state (event_state p) else turn.state)
  unfolding updated_turn
  updated-state e p turn =
      (with_provider-same e.provider_turn_id (transition_to _ turn)).0 ∙ transition-state _ turn

  pub updated-id :
      (e : Envelope) (p : TurnPayload) (turn : RuntimeTurn)
      → (updated_turn fold e p turn).turn_id ≡ turn.turn_id
  unfolding updated_turn
  updated-id e p turn =
      (with_provider-same e.provider_turn_id (transition_to _ turn)).1 ∙ transition-id _ turn

  pub updated-timed :
      (e : Envelope) (p : TurnPayload) (turn : RuntimeTurn)
      → is_terminal turn.state ≡ false
      → is_terminal_turn_event fold p ≡ true
      → is_none (updated_turn fold e p turn).completed_at_ms ≡ false
  unfolding updated_turn
  updated-timed e p turn active over =
      let (named, ended) = terminal_event-over p over in
      ap is_none (with_provider-same e.provider_turn_id (transition_to _ turn)).2
      ∙ transition-completed _ turn active (rw named ended)
