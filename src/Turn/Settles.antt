-- ===== src/Turn/Settles.antt =====
-- However a stream goes, its turn is over when it has been read.
use Prim.Native.String.{String}
use text.Mathlib.TextPositions.{eq_refl}
use bazaar_compute_node.Prelude.{
  ℕ, ◌≡◌, refl, ap, subst, Bool, true, false, ◌&&◌, ◌⊎◌, inl, inr, none, some, is_none,
  if◌then◌else◌, List, [], ◌∷◌, Bool-cases,
}
use bazaar_compute_node.Prelude.Result.{Result, ok, err}
use bazaar_compute_node.Agent.{
  Actor, same_actor, Agent, idle, recovering, enter, finished_turn, lost_runtime,
}
use bazaar_compute_node.Turn.{
  RuntimeTurnState, starting, running, completed, failed, cancelled, unknown, RuntimeTurn,
  is_terminal, TurnPayload, turn_started, turn_completed, turn_failed, turn_cancelled, turn_unknown,
  name_of, event_state, advance_of, runtime_event_advance, is_terminal_turn_event, with_a_reason,
}
use bazaar_compute_node.Turn.Stream.{
  Envelope, Payload, turn_event, other_event, Event, Coordinator, set_turn, show, TurnError,
  terminal_advance, is_retryable, unfinished, broken, stopped, Finish, finish_turn, Consumed,
  reached, exhausted, raised, interrupted, Ending, ends, raises, is_cancelled, updated_turn,
  apply_runtime_event, is_withheld, forward, after_event, on_payload, consume_events, settle,
  consume_turn_stream, finish_state, Await, goes_on, throws, stops, Exit, returns, throws_out,
  cancels_out, after_await, audited, Awaits, tried, turn_of, raise_again, handled,
}
use bazaar_compute_node.Turn.Steps.{
  same_actor_refl, transition-state, transition-completed, next_coordinator, apply-next,
  terminal_event-over, other_event-active, updated-state, updated-id, updated-timed,
}

-- The turn is over since some time, it is not among those that run, and the actor does not work on it.
pub record Settled (turn_id : String) (actor : Actor) (t : RuntimeTurn) (c : Coordinator)
    : Type 0 where
  pub over : is_terminal t.state ≡ true
  pub timed : is_none t.completed_at_ms ≡ false
  pub gone : c.turns turn_id ≡ none
  pub at_rest : (c.agent.states actor ≡ some idle) ⊎ (c.agent.states actor ≡ some recovering)

terminal_advance-rests :
    (s : RuntimeTurnState) (actor : Actor) (g : Agent)
    → ((terminal_advance s actor g).states actor ≡ some idle)
      ⊎ ((terminal_advance s actor g).states actor ≡ some recovering)
unfolding terminal_advance finished_turn lost_runtime enter
terminal_advance-rests starting actor g = inr (simp (same_actor_refl actor) refl)
terminal_advance-rests running actor g = inr (simp (same_actor_refl actor) refl)
terminal_advance-rests completed actor g = inl (simp (same_actor_refl actor) refl)
terminal_advance-rests failed actor g = inl (simp (same_actor_refl actor) refl)
terminal_advance-rests cancelled actor g = inl (simp (same_actor_refl actor) refl)
terminal_advance-rests unknown actor g = inr (simp (same_actor_refl actor) refl)

finish-Settled :
    (turn : RuntimeTurn) (f : Finish) (actor : Actor) (retry : Bool) (now : ℕ) (c : Coordinator)
    → is_terminal turn.state ≡ false
    → is_terminal f.state ≡ true
    → Settled turn.turn_id actor
        (finish_state turn f actor retry now c).0
        (finish_state turn f actor retry now c).1
unfolding finish_state set_turn show
finish-Settled turn f actor retry now c active over =
    elim (Bool-cases (retry && is_retryable f.state)) [
      | inl quiet ↦
          simp (active, quiet)
            (record {
              over =
                  rw
                    (transition-state
                      (record {
                        to = f.state;
                        at_ms = now;
                        kind = f.kind;
                        message = f.message;
                        event_name = none;
                      })
                      turn)
                    over;
              timed = transition-completed _ turn active over;
              gone = simp (eq_refl turn.turn_id) refl;
              at_rest = terminal_advance-rests f.state actor c.agent;
            })
      | inr loud ↦
          simp (active, loud)
            (record {
              over =
                  rw
                    (transition-state
                      (record {
                        to = f.state;
                        at_ms = now;
                        kind = f.kind;
                        message = f.message;
                        event_name = none;
                      })
                      turn)
                    over;
              timed = transition-completed _ turn active over;
              gone = simp (eq_refl turn.turn_id) refl;
              at_rest = terminal_advance-rests f.state actor c.agent;
            })
    ]

returns_inj : {t u : RuntimeTurn} → returns t ≡ returns u → t ≡ u
returns_inj h = cc

module _ (fold : ℕ → List ℕ) where
  event_advance-rests :
      (p : TurnPayload) (actor : Actor) (g : Agent)
      → is_terminal_turn_event fold p ≡ true
      → ((runtime_event_advance fold p actor g).states actor ≡ some idle)
        ⊎ ((runtime_event_advance fold p actor g).states actor ≡ some recovering)
  unfolding runtime_event_advance is_terminal_turn_event name_of event_state advance_of
      finished_turn lost_runtime enter
  event_advance-rests (turn_started name) actor g h = absurd (cc h)
  event_advance-rests (turn_completed name) actor g h = inl (simp (h, same_actor_refl actor) refl)
  event_advance-rests (turn_cancelled name) actor g h = inl (simp (h, same_actor_refl actor) refl)
  event_advance-rests (turn_failed name kind message) actor g h =
      inl (simp (h, same_actor_refl actor) refl)
  event_advance-rests (turn_unknown name kind message) actor g h =
      inr (simp (h, same_actor_refl actor) refl)

  -- What is known when the events have been read: the turn is over, or still the one that runs.
  abbrev Read : String → Actor → Consumed → Type 0
  Read turn_id actor (reached t c) = Settled turn_id actor t c
  Read turn_id actor (exhausted t c) = (is_terminal t.state ≡ false) × (t.turn_id ≡ turn_id)
  Read turn_id actor (raised name c) = Unit
  Read turn_id actor (interrupted c) = Unit

  next-Settled :
      (actor : Actor) (e : Envelope) (p : TurnPayload) (turn : RuntimeTurn) (c : Coordinator)
      → is_terminal turn.state ≡ false
      → is_terminal_turn_event fold p ≡ true
      → Settled turn.turn_id actor
          (updated_turn fold e p turn)
          (next_coordinator fold actor p turn (updated_turn fold e p turn) c)
  unfolding set_turn
  next-Settled actor e p turn c active over =
      let (named, ended) = terminal_event-over fold p over in
      record {
        over = rw (updated-state fold e p turn) (rw named ended);
        timed = updated-timed fold e p turn active over;
        gone = simp (eq_refl turn.turn_id, over) refl;
        at_rest = event_advance-rests p actor c.agent over;
      }

  Settled-path :
      (turn_id : String) (actor : Actor) (x y : RuntimeTurn × Coordinator)
      → x ≡ y
      → Settled turn_id actor x.0 x.1
      → Settled turn_id actor y.0 y.1
  Settled-path turn_id actor x y same s =
      subst (λ (z : RuntimeTurn × Coordinator). Settled turn_id actor z.0 z.1) same s

  forward-Settled :
      (retry : Bool) (p : TurnPayload) (turn_id : String) (actor : Actor) (t : RuntimeTurn)
      (c : Coordinator)
      → Settled turn_id actor t c
      → Settled turn_id actor t (forward fold retry p c)
  unfolding forward show
  forward-Settled retry p turn_id actor t c s = elim (Bool-cases (is_withheld fold retry p)) [
    | inl held ↦ rw held s
    | inr given ↦
        rw given (record { over = s.over; timed = s.timed; gone = s.gone; at_rest = s.at_rest })
  ]

  audited-Read :
      (turn_id : String) (actor : Actor) (audit : Await) (c : Coordinator) (r : Consumed)
      → Read turn_id actor r
      → Read turn_id actor (audited fold audit c r)
  unfolding audited
  audited-Read turn_id actor goes_on c r read = read
  audited-Read turn_id actor (throws name) c r read = tt
  audited-Read turn_id actor stops c r read = tt

  after_event-Read :
      (actor : Actor) (retry : Bool) (e : Envelope) (p : TurnPayload) (audit : Await)
      (turn : RuntimeTurn) (c : Coordinator) (o : Result TurnError (RuntimeTurn × Coordinator))
      (rest : RuntimeTurn → Coordinator → Consumed)
      → is_terminal turn.state ≡ false
      → apply_runtime_event fold actor e p turn c ≡ o
      → ((t : RuntimeTurn) (d : Coordinator)
          → is_terminal t.state ≡ false
          → t.turn_id ≡ turn.turn_id
          → Read turn.turn_id actor (rest t d))
      → Read turn.turn_id actor (after_event fold retry p audit o rest c)
  unfolding after_event
  after_event-Read actor retry e p audit turn c (err x) rest active same below = tt
  after_event-Read actor retry e p audit turn c (ok (t, d)) rest active same below =
      let x : RuntimeTurn × Coordinator = (
        updated_turn fold e p turn,
        next_coordinator fold actor p turn (updated_turn fold e p turn) c,
      ) in
      let y : RuntimeTurn × Coordinator = (t, d) in
      let next : x ≡ y = apply-next fold actor e p turn c (t, d) same in
      let turn_next : updated_turn fold e p turn ≡ t =
        ap (λ (z : RuntimeTurn × Coordinator). z.0) next in
      audited-Read turn.turn_id actor audit d _ (elim (Bool-cases (is_terminal_turn_event fold p)) [
        | inl over ↦
            let settled : Settled turn.turn_id actor t d =
              Settled-path turn.turn_id actor x y next
                (next-Settled actor e p turn c active over) in
            simp over (forward-Settled retry p turn.turn_id actor t d settled)
        | inr other ↦ simp other (
            below t (forward fold retry p d)
              (subst (λ (x : RuntimeTurn). is_terminal x.state ≡ false) turn_next
                (rw (updated-state fold e p turn)
                  (other_event-active fold p turn.state other active)))
              (subst (λ (x : RuntimeTurn). x.turn_id ≡ turn.turn_id) turn_next
                (updated-id fold e p turn)))
      ])

  on_payload-Read :
      (actor : Actor) (retry : Bool) (e : Envelope) (p : Payload) (audit : Await)
      (turn : RuntimeTurn) (c : Coordinator) (rest : RuntimeTurn → Coordinator → Consumed)
      → is_terminal turn.state ≡ false
      → ((t : RuntimeTurn) (d : Coordinator)
          → is_terminal t.state ≡ false
          → t.turn_id ≡ turn.turn_id
          → Read turn.turn_id actor (rest t d))
      → Read turn.turn_id actor (on_payload fold actor retry e p audit rest turn c)
  unfolding on_payload
  on_payload-Read actor retry e (other_event n) audit turn c rest active below =
      audited-Read turn.turn_id actor audit c _ (below turn (show (other_event n) c) active refl)
  on_payload-Read actor retry e (turn_event p) audit turn c rest active below =
      after_event-Read actor retry e (with_a_reason p) audit turn c _ rest active refl below

  consume-Read :
      (actor : Actor) (retry : Bool) (events : List Event) (ending : Ending) (turn_id : String)
      (turn : RuntimeTurn) (c : Coordinator)
      → is_terminal turn.state ≡ false
      → turn.turn_id ≡ turn_id
      → Read turn_id actor (consume_events fold actor retry events ending turn c)
  unfolding consume_events
  consume-Read actor retry [] ends turn_id turn c active same = (active, same)
  consume-Read actor retry [] (raises name) turn_id turn c active same = tt
  consume-Read actor retry [] is_cancelled turn_id turn c active same = tt
  consume-Read actor retry (event ∷ events) ending turn_id turn c active same =
      elim (Bool-cases (same_actor event.envelope.actor actor)) [
        | inl ours ↦
            let seen : Read turn.turn_id actor (
                on_payload fold actor retry event.envelope event.payload event.audit
                  (consume_events fold actor retry events ending) turn c) =
              on_payload-Read actor retry event.envelope event.payload event.audit turn c
                (consume_events fold actor retry events ending) active
                (λ t d still id.
                  consume-Read actor retry events ending turn.turn_id t d still id) in
            rw ours (
              subst
                (λ i. Read i actor (
                  on_payload fold actor retry event.envelope event.payload event.audit
                    (consume_events fold actor retry events ending) turn c))
                same seen)
        | inr other ↦ rw other (consume-Read actor retry events ending turn_id turn c active same)
      ]

  -- The turn does not run any more, and what is returned is a turn that is over.
  pub record Rests (turn_id : String) (actor : Actor) (x : Exit × Coordinator) : Type 0 where
    pub gone : x.1.turns turn_id ≡ none
    pub at_rest : (x.1.agent.states actor ≡ some idle) ⊎ (x.1.agent.states actor ≡ some recovering)
    pub over :
        (t : RuntimeTurn)
        → x.0 ≡ returns t
        → (is_terminal t.state ≡ true) × (is_none t.completed_at_ms ≡ false)

  Settled-Rests :
      (turn_id : String) (actor : Actor) (t : RuntimeTurn) (c : Coordinator)
      → Settled turn_id actor t c
      → Rests turn_id actor (returns t, c)
  Settled-Rests turn_id actor t c s = record {
    gone = s.gone;
    at_rest = s.at_rest;
    over = λ u e.
        let same : t ≡ u = returns_inj e in
        subst
          (λ (x : RuntimeTurn). (is_terminal x.state ≡ true) × (is_none x.completed_at_ms ≡ false))
          same (s.over, s.timed);
  }

  -- An exception after that does not take it back.
  after-Rests :
      (turn_id : String) (actor : Actor) (a : Await) (x : Exit × Coordinator)
      → Rests turn_id actor x
      → Rests turn_id actor (after_await a x x.1)
  unfolding after_await
  after-Rests turn_id actor goes_on x r = r
  after-Rests turn_id actor (throws name) x r = record {
    gone = r.gone;
    at_rest = r.at_rest;
    over = λ t e. absurd (cc e);
  }
  after-Rests turn_id actor stops x r = record {
    gone = r.gone;
    at_rest = r.at_rest;
    over = λ t e. absurd (cc e);
  }

  again-Rests :
      (turn_id : String) (actor : Actor) (x : Exit × Coordinator)
      → Rests turn_id actor x
      → Rests turn_id actor (raise_again fold x)
  unfolding raise_again
  again-Rests turn_id actor (returns t, c) r = record {
    gone = r.gone;
    at_rest = r.at_rest;
    over = λ t e. absurd (cc e);
  }
  again-Rests turn_id actor (throws_out name, c) r = r
  again-Rests turn_id actor (cancels_out, c) r = r

  finish-Rests :
      (turn : RuntimeTurn) (f : Finish) (actor : Actor) (retry : Bool) (now : ℕ) (audit : Await)
      (c : Coordinator)
      → is_terminal turn.state ≡ false
      → is_terminal f.state ≡ true
      → Rests turn.turn_id actor (finish_turn turn f actor retry now goes_on audit c)
  unfolding finish_turn after_await
  finish-Rests turn f actor retry now audit c active over =
      let x = finish_state turn f actor retry now c in
      after-Rests turn.turn_id actor (if is_terminal turn.state then goes_on else audit)
        (returns x.0, x.1)
        (Settled-Rests turn.turn_id actor x.0 x.1
          (finish-Settled turn f actor retry now c active over))

  module _ (actor : Actor) (retry : Bool) (now : ℕ) (a : Awaits) where
    throws-Rests :
        (t : RuntimeTurn) (name : String) (c : Coordinator)
        → a.first_close ≡ goes_on
        → a.handler_lock ≡ goes_on
        → is_terminal t.state ≡ false
        → Rests t.turn_id actor (handled fold actor retry now a t (throws_out name, c))
    unfolding handled after_await is_terminal
    throws-Rests t name c closes locks active =
        rw (closes, locks)
          (finish-Rests t (broken name) actor retry now a.handler_audit c active refl)

    cancels-Rests :
        (t : RuntimeTurn) (c : Coordinator)
        → a.first_close ≡ goes_on
        → a.handler_lock ≡ goes_on
        → is_terminal t.state ≡ false
        → Rests t.turn_id actor (handled fold actor retry now a t (cancels_out, c))
    unfolding handled after_await is_terminal
    cancels-Rests t c closes locks active =
        rw (closes, locks)
          (again-Rests t.turn_id actor _
            (finish-Rests t stopped actor false now a.handler_audit c active refl))

    -- The ending in the `try`, whose lock may be cancelled.
    tried_finish-Rests :
        (t : RuntimeTurn) (c : Coordinator) (lock : Await)
        → a.first_close ≡ goes_on
        → a.handler_lock ≡ goes_on
        → is_terminal t.state ≡ false
        → Rests t.turn_id actor (
            handled fold actor retry now a t
              (finish_turn t unfinished actor retry now lock a.audit c))
    unfolding is_terminal
    tried_finish-Rests t c goes_on closes locks active =
        go (finish_turn t unfinished actor retry now goes_on a.audit c)
          (finish-Rests t unfinished actor retry now a.audit c active refl)
      where
        go :
            (x : Exit × Coordinator)
            → Rests t.turn_id actor x
            → Rests t.turn_id actor (handled fold actor retry now a t x)
        go (returns u, d) r = unfold handled in r
        go (throws_out name, d) r = throws-Rests t name d closes locks active
        go (cancels_out, d) r = cancels-Rests t d closes locks active
    tried_finish-Rests t c (throws name) closes locks active =
        unfold finish_turn after_await in throws-Rests t name c closes locks active
    tried_finish-Rests t c stops closes locks active =
        unfold finish_turn after_await in cancels-Rests t c closes locks active

    settle-Rests :
        (turn : RuntimeTurn) (r : Consumed)
        → a.first_close ≡ goes_on
        → a.handler_lock ≡ goes_on
        → is_terminal turn.state ≡ false
        → Read turn.turn_id actor r
        → Rests turn.turn_id actor (settle fold actor retry now a turn r)
    unfolding settle
    settle-Rests turn r closes locks active read =
        after-Rests turn.turn_id actor a.last_close _ (go r read)
      where
        go :
            (r : Consumed)
            → Read turn.turn_id actor r
            → Rests turn.turn_id actor (
                handled fold actor retry now a
                  (turn_of fold turn r)
                  (tried fold actor retry now a r))
        go (reached t c) read =
            unfold tried turn_of handled in Settled-Rests turn.turn_id actor t c read
        go (exhausted t c) read =
            unfold tried turn_of in
            subst
              (λ i. Rests i actor (
                handled fold actor retry now a t
                  (finish_turn t unfinished actor retry now a.lock a.audit c)))
              read.1 (tried_finish-Rests t c a.lock closes locks read.0)
        go (raised name c) read =
            unfold tried turn_of in throws-Rests turn name c closes locks active
        go (interrupted c) read = unfold tried turn_of in cancels-Rests turn c closes locks active

    -- Whatever the events of a stream are, whether it ends, raises or is cancelled, and whatever the
    -- awaits of the audit, of the lock in the `try` and of the last closing come to: where the turn is
    -- not over when its stream is read, and a handler that is entered can close the stream and take
    -- its lock, the turn is not among those that run afterwards, and its actor is idle or recovering.
    -- If a turn is returned, it is over, with the time at which it ended.
    pub consume_turn_stream-Settled :
        (events : List Event) (ending : Ending) (turn : RuntimeTurn) (c : Coordinator)
        → a.first_close ≡ goes_on
        → a.handler_lock ≡ goes_on
        → is_terminal turn.state ≡ false
        → Rests turn.turn_id actor (consume_turn_stream fold actor retry now a events ending turn c)
    unfolding consume_turn_stream
    consume_turn_stream-Settled events ending turn c closes locks active =
        settle-Rests turn (consume_events fold actor retry events ending turn c) closes locks active
          (consume-Read actor retry events ending turn.turn_id turn c active refl)
