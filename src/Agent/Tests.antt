-- ===== src/Agent/Tests.antt =====
-- The agent on a concrete run.
use bazaar_compute_node.Prelude.{◌≡◌, refl, none, List, [], ◌∷◌, if◌then◌else◌}
use bazaar_compute_node.Prelude.Result.{err}
use bazaar_compute_node.Agent.{
  dangerous_individual, thread, same_actor, Actors, resolve, resolve_mode, unknown_actor, init,
  terminated, working, new_agent, get, or_idle, started, enter, started_turn, finished_turn,
}
use bazaar_compute_node.Agent.Laws.{
  Call, starts, starts_turn, finishes_turn, step, run, any_terminates, any_starts, last_named,
  get-run,
}

abbrev actors : Actors
actors = record { agent_id = "a"; mode = dangerous_individual }

stranger : resolve actors "b" ≡ err (unknown_actor "b")
unfolding resolve resolve_mode
stranger = refl

abbrev calls : List Call
calls = starts ∷ starts_turn (thread "t") ∷ finishes_turn (thread "u") ∷ []

at_work : get (thread "t") (run calls (new_agent (λ a. none))) ≡ working
unfolding get run step started new_agent started_turn finished_turn enter same_actor
at_work = refl

get-run_example : get (thread "t") (run calls (new_agent (λ a. none))) ≡ (
    if any_terminates calls
    then terminated
    else if any_starts calls
    then or_idle (last_named (thread "t") calls none)
    else init)
get-run_example = get-run calls (λ a. none) (thread "t")
