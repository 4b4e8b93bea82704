-- ===== src/Turn/Endings.antt =====
-- How often the channel hears that a turn is over.
use Prim.Native.String.{String}
use bazaar_compute_node.Prelude.{
  ℕ, ◌+◌, ◌≡◌, refl, sym, ◌∙◌, ap, subst, arith, Bool, true, false, ◌&&◌, ◌⊎◌, inl, inr, Option,
  none, some, List, [], ◌∷◌, Bool-cases, if◌then◌else◌,
}
use bazaar_compute_node.Prelude.Result.{Result, ok, err}
use bazaar_compute_node.Agent.{Actor, same_actor}
use bazaar_compute_node.Turn.{
  RuntimeTurnState, starting, running, completed, failed, cancelled, unknown, RuntimeTurn,
  is_terminal, TurnPayload, turn_started, turn_completed, turn_failed, turn_cancelled, turn_unknown,
  event_state, turn_state, begins, occurs, casefold, is_turn_event, is_terminal_turn_event,
  with_a_reason,
}
use bazaar_compute_node.Turn.Stream.{
  Envelope, Payload, turn_event, other_event, Event, Coordinator, set_turn, show, TurnError,
  terminal_payload, is_retryable, Finish, finish_turn, Consumed, reached, exhausted, raised,
  interrupted, Ending, ends, raises, is_cancelled, updated_turn, unfinished, broken, stopped,
  apply_runtime_event, is_withheld, forward, after_event, on_payload, consume_events, settle,
  consume_turn_stream, finish_state, Await, goes_on, throws, stops, Exit, returns, cancels_out,
  after_await, audited, Awaits, tried, turn_of, raise_again, handled,
}
use bazaar_compute_node.Turn.Steps.{
  next_coordinator, apply-next, terminal_event-over, other_event-active, updated-state,
  transition-state,
}

-- The ending of the turn and the closing of the stream go on.
abbrev pub calm : Awaits
calm = record {
  lock = goes_on;
  audit = goes_on;
  first_close = goes_on;
  handler_lock = goes_on;
  handler_audit = goes_on;
  last_close = goes_on;
}

and_left : (b x : Bool) → (b && x) ≡ true → b ≡ true
and_left true x h = refl
and_left false x h = absurd (cc h)

quiet-why :
    (retry : Bool) (st : RuntimeTurnState)
    → (retry && is_retryable st) ≡ true
    → ((retry ≡ true) × (st ≡ failed)) ⊎ (st ≡ unknown)
unfolding is_retryable
quiet-why retry failed h = inl (and_left retry true h, refl)
quiet-why retry unknown h = inr refl
quiet-why false starting h = absurd (cc h)
quiet-why true starting h = absurd (cc h)
quiet-why false running h = absurd (cc h)
quiet-why true running h = absurd (cc h)
quiet-why false completed h = absurd (cc h)
quiet-why true completed h = absurd (cc h)
quiet-why false cancelled h = absurd (cc h)
quiet-why true cancelled h = absurd (cc h)

module _ (fold : ℕ → List ℕ) where
  -- How many of the payloads end a turn.
  unfoldable pub endings : List Payload → ℕ
  endings [] = 0
  endings (other_event n ∷ ps) = endings ps
  endings (turn_event p ∷ ps) = (if is_terminal_turn_event fold p then 1 else 0) + endings ps

  -- Of a turn that has come to a state the channel has heard once that it is over; or it has not heard
  -- it, of one that has failed and may be tried again, or whose state is unknown.
  abbrev pub Told : Bool → RuntimeTurnState → ℕ → ℕ → Type 0
  Told retry st before after =
      (after ≡ before + 1)
      ⊎ ((after ≡ before) × (((retry ≡ true) × (st ≡ failed)) ⊎ (st ≡ unknown)))

  terminal_payload-ends :
      (s : RuntimeTurnState) (kind message : Option String)
      → is_terminal s ≡ true
      → is_terminal_turn_event fold (terminal_payload s kind message) ≡ true
  unfolding terminal_payload is_terminal_turn_event is_turn_event occurs begins casefold is_terminal
  terminal_payload-ends starting kind message h = absurd (cc h)
  terminal_payload-ends running kind message h = absurd (cc h)
  terminal_payload-ends completed kind message h = refl
  terminal_payload-ends cancelled kind message h = refl
  terminal_payload-ends failed none message h = refl
  terminal_payload-ends failed (some kind) message h = refl
  terminal_payload-ends unknown kind message h = refl

  finish-state :
      (turn : RuntimeTurn) (f : Finish) (actor : Actor) (retry : Bool) (now : ℕ) (c : Coordinator)
      → is_terminal turn.state ≡ false
      → (finish_state turn f actor retry now c).0.state ≡ f.state
  unfolding finish_state
  finish-state turn f actor retry now c active = elim (Bool-cases (retry && is_retryable f.state)) [
    | inl quiet ↦ simp (active, quiet) (transition-state _ turn)
    | inr loud ↦ simp (active, loud) (transition-state _ turn)
  ]

  finish-Told :
      (turn : RuntimeTurn) (f : Finish) (actor : Actor) (retry : Bool) (now : ℕ) (c : Coordinator)
      → is_terminal turn.state ≡ false
      → is_terminal f.state ≡ true
      → Told retry f.state
          (endings c.shown)
          (endings (finish_state turn f actor retry now c).1.shown)
  unfolding finish_state set_turn show endings
  finish-Told turn f actor retry now c active over =
      elim (Bool-cases (retry && is_retryable f.state)) [
        | inl quiet ↦ simp (active, quiet) (inr (refl, quiet-why retry f.state quiet))
        | inr loud ↦
            simp (active, loud, terminal_payload-ends f.state f.kind f.message over)
              (inl (omega arith))
      ]

  withheld-why :
      (retry : Bool) (p : TurnPayload)
      → is_withheld fold retry p ≡ true
      → ((retry ≡ true) × (turn_state (event_state p) ≡ failed))
        ⊎ (turn_state (event_state p) ≡ unknown)
  unfolding is_withheld turn_state event_state
  withheld-why retry (turn_started name) h = absurd (cc h)
  withheld-why retry (turn_completed name) h = absurd (cc h)
  withheld-why retry (turn_cancelled name) h = absurd (cc h)
  withheld-why retry (turn_failed name kind message) h = inl (h, refl)
  withheld-why retry (turn_unknown name kind message) h = inr refl

  forward-other :
      (retry : Bool) (p : TurnPayload) (c : Coordinator)
      → is_terminal_turn_event fold p ≡ false
      → endings (forward fold retry p c).shown ≡ endings c.shown
  unfolding forward show endings
  forward-other retry p c h = elim (Bool-cases (is_withheld fold retry p)) [
    | inl held ↦ simp held refl
    | inr given ↦ simp (given, h) (omega arith)
  ]

  forward-Told :
      (retry : Bool) (p : TurnPayload) (t : RuntimeTurn) (c : Coordinator)
      → is_terminal_turn_event fold p ≡ true
      → t.state ≡ turn_state (event_state p)
      → Told retry t.state (endings c.shown) (endings (forward fold retry p c).shown)
  unfolding forward show endings
  forward-Told retry p t c h state = elim (Bool-cases (is_withheld fold retry p)) [
    | inl held ↦ simp held (
        inr (
          refl,
          elim (withheld-why retry p held) [
            | inl (again, fails) ↦ inl (again, state ∙ fails)
            | inr lost ↦ inr (state ∙ lost)
          ],
        ))
    | inr given ↦ simp (given, h) (inl (omega arith))
  ]

  -- What the channel has heard when the events have been read, which was `before` at the start.
  abbrev Heard : Bool → ℕ → Consumed → Type 0
  Heard retry before (reached t c) = Told retry t.state before (endings c.shown)
  Heard retry before (exhausted t c) = (endings c.shown ≡ before) × (is_terminal t.state ≡ false)
  Heard retry before (raised name c) = endings c.shown ≡ before
  Heard retry before (interrupted c) = endings c.shown ≡ before

  audited-Heard :
      (retry : Bool) (before : ℕ) (audit : Await) (c : Coordinator) (r : Consumed)
      → endings c.shown ≡ before
      → Heard retry before r
      → Heard retry before (audited fold audit c r)
  unfolding audited
  audited-Heard retry before goes_on c r same heard = heard
  audited-Heard retry before (throws name) c r same heard = same
  audited-Heard retry before stops c r same heard = same

  after_event-Heard :
      (actor : Actor) (retry : Bool) (e : Envelope) (p : TurnPayload) (audit : Await)
      (turn : RuntimeTurn) (c : Coordinator) (o : Result TurnError (RuntimeTurn × Coordinator))
      (rest : RuntimeTurn → Coordinator → Consumed)
      → is_terminal turn.state ≡ false
      → apply_runtime_event fold actor e p turn c ≡ o
      → ((t : RuntimeTurn) (d : Coordinator)
          → is_terminal t.state ≡ false
          → endings d.shown ≡ endings c.shown
          → Heard retry (endings c.shown) (rest t d))
      → Heard retry (endings c.shown) (after_event fold retry p audit o rest c)
  unfolding after_event set_turn
  after_event-Heard actor retry e p audit turn c (err x) rest active same below = refl
  after_event-Heard actor retry e p audit turn c (ok (t, d)) rest active same below =
      let x : RuntimeTurn × Coordinator = (
        updated_turn fold e p turn,
        next_coordinator fold actor p turn (updated_turn fold e p turn) c,
      ) in
      let y : RuntimeTurn × Coordinator = (t, d) in
      let next : x ≡ y = apply-next fold actor e p turn c (t, d) same in
      let turn_next : updated_turn fold e p turn ≡ t =
        ap (λ (z : RuntimeTurn × Coordinator). z.0) next in
      let shown_next : endings c.shown ≡ endings d.shown =
        ap (λ (z : RuntimeTurn × Coordinator). endings z.1.shown) next in
      let state_next : (updated_turn fold e p turn).state ≡ t.state =
        ap (λ (z : RuntimeTurn). z.state) turn_next in
      audited-Heard retry (endings c.shown) audit d _ (sym shown_next)
        (elim (Bool-cases (is_terminal_turn_event fold p)) [
          | inl over ↦
              let named = (terminal_event-over fold p over).0 in
              let state : t.state ≡ turn_state (event_state p) =
                sym state_next ∙ updated-state fold e p turn ∙ simp named refl in
              let told : Told retry t.state (endings d.shown)
                  (endings (forward fold retry p d).shown) =
                forward-Told retry p t d over state in
              simp over (
                subst (λ n. Told retry t.state n (endings (forward fold retry p d).shown))
                  (sym shown_next) told)
          | inr other ↦ simp other (
              below t (forward fold retry p d)
                (ap is_terminal (sym state_next ∙ updated-state fold e p turn)
                  ∙ other_event-active fold p turn.state other active)
                (forward-other retry p d other ∙ sym shown_next))
        ])

  on_payload-Heard :
      (actor : Actor) (retry : Bool) (e : Envelope) (p : Payload) (audit : Await)
      (turn : RuntimeTurn) (c : Coordinator) (rest : RuntimeTurn → Coordinator → Consumed)
      → is_terminal turn.state ≡ false
      → ((t : RuntimeTurn) (d : Coordinator)
          → is_terminal t.state ≡ false
          → endings d.shown ≡ endings c.shown
          → Heard retry (endings c.shown) (rest t d))
      → Heard retry (endings c.shown) (on_payload fold actor retry e p audit rest turn c)
  unfolding on_payload
  on_payload-Heard actor retry e (other_event n) audit turn c rest active below =
      audited-Heard retry (endings c.shown) audit c _ refl
        (below turn (show (other_event n) c) active (unfold show endings in refl))
  on_payload-Heard actor retry e (turn_event p) audit turn c rest active below =
      after_event-Heard actor retry e (with_a_reason p) audit turn c _ rest active refl below

  consume-Heard :
      (actor : Actor) (retry : Bool) (events : List Event) (ending : Ending) (before : ℕ)
      (turn : RuntimeTurn) (c : Coordinator)
      → is_terminal turn.state ≡ false
      → endings c.shown ≡ before
      → Heard retry before (consume_events fold actor retry events ending turn c)
  unfolding consume_events
  consume-Heard actor retry [] ends before turn c active same = (same, active)
  consume-Heard actor retry [] (raises name) before turn c active same = same
  consume-Heard actor retry [] is_cancelled before turn c active same = same
  consume-Heard actor retry (event ∷ events) ending before turn c active same =
      elim (Bool-cases (same_actor event.envelope.actor actor)) [
        | inl ours ↦
            let seen : Heard retry (endings c.shown) (
                on_payload fold actor retry event.envelope event.payload event.audit
                  (consume_events fold actor retry events ending) turn c) =
              on_payload-Heard actor retry event.envelope event.payload event.audit turn c
                (consume_events fold actor retry events ending) active
                (λ t d still kept.
                  consume-Heard actor retry events ending (endings c.shown) t d still kept) in
            rw ours (
              subst
                (λ n. Heard retry n (
                  on_payload fold actor retry event.envelope event.payload event.audit
                    (consume_events fold actor retry events ending) turn c))
                same seen)
        | inr other ↦ rw other (consume-Heard actor retry events ending before turn c active same)
      ]

  -- What the channel has heard where `_consume_turn_stream` ends with a turn or is cancelled.
  pub data Hears (retry : Bool) (before : ℕ) : Exit × Coordinator → Type 0 where
    hears_returned :
        (t : RuntimeTurn) (c : Coordinator)
        → Told retry t.state before (endings c.shown)
        → Hears retry before (returns t, c)
    hears_cancelled :
        (c : Coordinator) → endings c.shown ≡ before + 1 → Hears retry before (cancels_out, c)

  finish-returns :
      (turn : RuntimeTurn) (f : Finish) (actor : Actor) (retry : Bool) (now : ℕ) (c : Coordinator)
      → is_terminal turn.state ≡ false
      → finish_turn turn f actor retry now goes_on goes_on c ≡ (
        returns (finish_state turn f actor retry now c).0,
        (finish_state turn f actor retry now c).1,
      )
  unfolding finish_turn after_await
  finish-returns turn f actor retry now c active = rw active refl

  -- The ending of a turn, told for a coordinator that had been told of `before` of them.
  finish_state-Told :
      (turn : RuntimeTurn) (f : Finish) (actor : Actor) (retry : Bool) (now before : ℕ)
      (c : Coordinator)
      → is_terminal turn.state ≡ false
      → is_terminal f.state ≡ true
      → endings c.shown ≡ before
      → Told retry
          (finish_state turn f actor retry now c).0.state
          before
          (endings (finish_state turn f actor retry now c).1.shown)
  finish_state-Told turn f actor retry now before c active over same =
      let x = finish_state turn f actor retry now c in
      subst (λ st. Told retry st before (endings x.1.shown))
        (sym (finish-state turn f actor retry now c active))
        (subst (λ n. Told retry f.state n (endings x.1.shown)) same
          (finish-Told turn f actor retry now c active over))

  stop-Hears :
      (turn : RuntimeTurn) (actor : Actor) (retry : Bool) (now before : ℕ) (c : Coordinator)
      → is_terminal turn.state ≡ false
      → endings c.shown ≡ before
      → Hears retry before
          (raise_again fold (finish_turn turn stopped actor false now goes_on goes_on c))
  unfolding finish_turn after_await raise_again is_terminal
  stop-Hears turn actor retry now before c active same =
      let told = finish-Told turn stopped actor false now c active refl in
      rw active (
        hears_cancelled _ (elim told [
          | inl once ↦ once ∙ ap (λ n. n + 1) same
          | inr (kept, inl (again, fails)) ↦ absurd (cc fails)
          | inr (kept, inr lost) ↦ absurd (cc lost)
        ]))

  settle-Hears :
      (actor : Actor) (retry : Bool) (now before : ℕ) (turn : RuntimeTurn) (r : Consumed)
      → is_terminal turn.state ≡ false
      → Heard retry before r
      → Hears retry before (settle fold actor retry now calm turn r)
  unfolding settle handled tried turn_of after_await is_terminal
  settle-Hears actor retry now before turn (reached t c) active heard = hears_returned t c heard
  settle-Hears actor retry now before turn (exhausted t c) active heard =
      let x = finish_state t unfinished actor retry now c in
      subst (λ y. Hears retry before (handled fold actor retry now calm t y))
        (sym (finish-returns t unfinished actor retry now c heard.1))
        (hears_returned x.0 x.1
          (finish_state-Told t unfinished actor retry now before c heard.1 refl heard.0))
  settle-Hears actor retry now before turn (raised name c) active heard =
      let x = finish_state turn (broken name) actor retry now c in
      subst (Hears retry before) (sym (finish-returns turn (broken name) actor retry now c active))
        (hears_returned x.0 x.1
          (finish_state-Told turn (broken name) actor retry now before c active refl heard))
  settle-Hears actor retry now before turn (interrupted c) active heard =
      stop-Hears turn actor retry now before c active heard

  -- While the stream of a turn that is not over is read, whatever its events are and however it ends,
  -- the awaits of their audits included: where the ending of the turn and the closing of the stream
  -- are not themselves cut short, the call returns a turn or is cancelled. The channel is told once
  -- that a cancelled turn is over. It is told once of a turn that is returned, unless that has failed
  -- and may be tried again, or its state is unknown: then once or not at all.
  pub consume_turn_stream-Told :
      (actor : Actor) (retry : Bool) (now : ℕ) (events : List Event) (ending : Ending)
      (turn : RuntimeTurn) (c : Coordinator)
      → is_terminal turn.state ≡ false
      → Hears retry
          (endings c.shown)
          (consume_turn_stream fold actor retry now calm events ending turn c)
  unfolding consume_turn_stream
  consume_turn_stream-Told actor retry now events ending turn c active =
      settle-Hears actor retry now (endings c.shown) turn
        (consume_events fold actor retry events ending turn c) active
        (consume-Heard actor retry events ending (endings c.shown) turn c active refl)
