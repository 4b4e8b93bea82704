-- ===== src/Agent/Laws.antt =====
-- What `get` says after any sequence of calls, and that an actor's id reads back as the actor.
use Prim.Native.String.{String}
use text.Mathlib.TextEquality.{eq_iff}
use bazaar_compute_node.Prelude.{
  ◌≡◌, refl, ◌∙◌, ap, arith, Bool, true, false, not, ◌||◌, Option, some, List, [], ◌∷◌,
  if◌then◌else◌,
}
use bazaar_compute_node.Prelude.Result.{Result, ok, err}
use bazaar_compute_node.Agent.{
  Mode, session, dangerous_individual, Actor, id_of, same_actor, Actors, for_mode, for_thread,
  resolve_mode, resolve, State, init, terminated, idle, working, recovering, failed, Agent,
  new_agent, is_idle, is_terminated, or_idle, get, Terminated, agent_is_terminated, started,
  terminate, enter, started_turn, finished_turn, lost_runtime, refused_runtime,
}

-- The id of the actor that answers for a thread, taken across a process boundary, is resolved to
-- that actor.
pub resolve-for_thread :
    (a : Actors) (thread_id : String)
    → resolve a (id_of (for_thread a thread_id)) ≡ ok (for_thread a thread_id)
unfolding resolve for_thread resolve_mode for_mode
resolve-for_thread a thread_id = go a.mode
  where
    go :
        (m : Mode)
        → resolve_mode m a.agent_id (id_of (for_mode m a.agent_id thread_id))
          ≡ ok (for_mode m a.agent_id thread_id)
    go session = refl
    go dangerous_individual = rw ((eq_iff a.agent_id a.agent_id).1 refl) refl

pub data Call : Type 0 where
  starts terminates : Call
  starts_turn finishes_turn loses_runtime refuses_runtime : Actor → Call

-- A call that raises leaves the agent as it is.
abbrev kept : Agent → Result Terminated Agent → Agent
kept g (ok h) = h
kept g (err e) = g

unfoldable pub step : Call → Agent → Agent
step starts g = kept g (started g)
step terminates g = terminate g
step (starts_turn a) g = started_turn a g
step (finishes_turn a) g = finished_turn a g
step (loses_runtime a) g = lost_runtime a g
step (refuses_runtime a) g = refused_runtime a g

unfoldable pub run : List Call → Agent → Agent
run [] g = g
run (c ∷ cs) g = run cs (step c g)

abbrev pub any_terminates : List Call → Bool
any_terminates [] = false
any_terminates (terminates ∷ cs) = true
any_terminates (starts ∷ cs) = any_terminates cs
any_terminates (starts_turn a ∷ cs) = any_terminates cs
any_terminates (finishes_turn a ∷ cs) = any_terminates cs
any_terminates (loses_runtime a ∷ cs) = any_terminates cs
any_terminates (refuses_runtime a ∷ cs) = any_terminates cs

abbrev pub any_starts : List Call → Bool
any_starts [] = false
any_starts (starts ∷ cs) = true
any_starts (terminates ∷ cs) = any_starts cs
any_starts (starts_turn a ∷ cs) = any_starts cs
any_starts (finishes_turn a ∷ cs) = any_starts cs
any_starts (loses_runtime a ∷ cs) = any_starts cs
any_starts (refuses_runtime a ∷ cs) = any_starts cs

-- The state that the last call about an actor names, or one from before.
abbrev pub last_named : Actor → List Call → Option State → Option State
last_named b [] o = o
last_named b (starts ∷ cs) o = last_named b cs o
last_named b (terminates ∷ cs) o = last_named b cs o
last_named b (starts_turn a ∷ cs) o = last_named b cs (if same_actor a b then some working else o)
last_named b (finishes_turn a ∷ cs) o = last_named b cs (if same_actor a b then some idle else o)
last_named b (loses_runtime a ∷ cs) o =
    last_named b cs (if same_actor a b then some recovering else o)
last_named b (refuses_runtime a ∷ cs) o =
    last_named b cs (if same_actor a b then some failed else o)

states_kept :
    (b : Bool) (g : Agent) (a : Actor)
    → (kept g (if b then err agent_is_terminated else ok (record g { lifecycle = idle }))).states a
      ≡ g.states a
states_kept true g a = refl
states_kept false g a = refl

states-run :
    (cs : List Call) (g : Agent) (a : Actor) → (run cs g).states a ≡ last_named a cs (g.states a)
unfolding run step started terminate started_turn finished_turn lost_runtime refused_runtime enter
states-run [] g a = refl
states-run (starts ∷ cs) g a =
    states-run cs (kept g (started g)) a
    ∙ ap (last_named a cs) (states_kept (is_terminated g.lifecycle) g a)
states-run (terminates ∷ cs) g a = states-run cs (terminate g) a
states-run (starts_turn b ∷ cs) g a = states-run cs (started_turn b g) a
states-run (finishes_turn b ∷ cs) g a = states-run cs (finished_turn b g) a
states-run (loses_runtime b ∷ cs) g a = states-run cs (lost_runtime b g) a
states-run (refuses_runtime b ∷ cs) g a = states-run cs (refused_runtime b g) a

-- The lifecycle after a sequence of calls.
abbrev pub life : Bool → Bool → State → State
life ends begins l = if ends || is_terminated l then terminated else if begins then idle else l

life_started :
    (l : State) (ends begins : Bool)
    → life ends begins (if is_terminated l then l else idle) ≡ life ends true l
life_started init ends begins = ground arith
life_started terminated ends begins = ground arith
life_started idle ends begins = ground arith
life_started working ends begins = ground arith
life_started recovering ends begins = ground arith
life_started failed ends begins = ground arith

lifecycle_kept :
    (b : Bool) (g : Agent)
    → (kept g (if b then err agent_is_terminated else ok (record g { lifecycle = idle }))).lifecycle
      ≡ (if b then g.lifecycle else idle)
lifecycle_kept true g = refl
lifecycle_kept false g = refl

life_ended : (ends begins : Bool) (l : State) → life ends begins terminated ≡ life true begins l
life_ended ends begins l = ground arith

life_none : (l : State) → l ≡ life false false l
life_none init = refl
life_none terminated = refl
life_none idle = refl
life_none working = refl
life_none recovering = refl
life_none failed = refl

lifecycle-run :
    (cs : List Call) (g : Agent)
    → (run cs g).lifecycle ≡ life (any_terminates cs) (any_starts cs) g.lifecycle
unfolding run step started terminate started_turn finished_turn lost_runtime refused_runtime enter
lifecycle-run [] g = life_none g.lifecycle
lifecycle-run (starts ∷ cs) g =
    lifecycle-run cs (kept g (started g))
    ∙ ap (life (any_terminates cs) (any_starts cs)) (lifecycle_kept (is_terminated g.lifecycle) g)
    ∙ life_started g.lifecycle (any_terminates cs) (any_starts cs)
lifecycle-run (terminates ∷ cs) g =
    lifecycle-run cs (terminate g) ∙ life_ended (any_terminates cs) (any_starts cs) g.lifecycle
lifecycle-run (starts_turn b ∷ cs) g = lifecycle-run cs (started_turn b g)
lifecycle-run (finishes_turn b ∷ cs) g = lifecycle-run cs (finished_turn b g)
lifecycle-run (loses_runtime b ∷ cs) g = lifecycle-run cs (lost_runtime b g)
lifecycle-run (refuses_runtime b ∷ cs) g = lifecycle-run cs (refused_runtime b g)

-- After any sequence of calls on a new agent an actor sees: that the agent is terminated, if it ever
-- was, also where a later start was refused; else that it is not up, if it was never started; else
-- what the last call about that actor said, and rest before any such call.
pub get-run :
    (cs : List Call) (states : Actor → Option State) (a : Actor)
    → get a (run cs (new_agent states)) ≡ (
        if any_terminates cs
        then terminated
        else if any_starts cs
        then or_idle (last_named a cs (states a))
        else init)
unfolding get new_agent
get-run cs states a =
    rw (lifecycle-run, states-run)
      (seen (any_terminates cs) (any_starts cs) (or_idle (last_named a cs (states a))))
  where
    seen :
        (ends begins : Bool) (s : State)
        → (if not (is_idle (life ends begins init)) then life ends begins init else s)
          ≡ (if ends then terminated else if begins then s else init)
    seen true begins s = refl
    seen false true s = refl
    seen false false s = refl
