-- ===== src/Graph/Joins.antt =====
-- The nodes that fan out and in, of app/infrastructure/orchestration/yaml_graph.py: `parallel`, `join` and
-- `proceed_or` with its router. The clock of a join is a parameter: how long ago it started, where the
-- state says so.
use ai_agents_carrier.Base.{
  String, ℕ, suc, Bool, true, false, not, ◌&&◌, Option, none, some, [], ◌∷◌, str_eq, opt_eq, ltb,
  ◌==◌, is_set, if◌then◌else◌,
}
use ai_agents_carrier.Base.Json.{Json}
use ai_agents_carrier.Graph.Model.{Latch, State, Output, no_output, latch_of}
use ai_agents_carrier.Graph.Guards.{Step, Result, raised, returned, Raised}
use Prim.Native.String

-- `_parallel_node`; a limit is a number with its text
unfoldable pub parallel_node : Option (Bool × String) → Step → State → Result Output
parallel_node none step state = returned no_output
parallel_node (some limit) step state =
    if limit.0
    then returned (record no_output {
      values = (String.◌++◌ "_parallel_limit_" step.id, Json.num limit.0 limit.1) ∷ [];
    })
    else returned no_output

abbrev times_out : Option ℕ → Option ℕ → Bool
times_out (some max_timeout) (some elapsed) = not (max_timeout == 0) && ltb max_timeout elapsed
times_out _ _ = false

abbrev pub and_policy : Step → Bool
and_policy step = elim step.failure_policy [ none ↦ true | some policy ↦ str_eq policy "and" ]

-- `_join_node`
unfoldable pub join_node : Option ℕ → Option ℕ → Step → State → Result Output
join_node max_timeout elapsed step state =
    if times_out max_timeout elapsed
    then raised (Raised.other "the join timed out")
    else if is_set state.failed_step && and_policy step
    then returned (record no_output {
      failed_step = some (some step.id);
      error = some "branch failed (AND policy)";
    })
    else returned no_output

-- the latch that `_proceed_or_node` writes on an arrival with this sentinel
unfoldable pub next_latch : String → Option String → Latch → Latch
next_latch id failed latch =
    if is_set failed && not (opt_eq failed (some id))
    then record { arrivals = suc latch.arrivals; won = latch.won; last_won = false }
    else record { arrivals = suc latch.arrivals; won = true; last_won = not latch.won }

-- `_proceed_or_node`
unfoldable pub proceed_or_node : Step → State → Result Output
unfolding next_latch latch_of
proceed_or_node step state =
    let latch = latch_of step.id state.latches in
    let late_failure =
      is_set state.failed_step && not (opt_eq state.failed_step (some step.id)) && latch.won in
    returned (record no_output {
      latch = some (step.id, next_latch step.id state.failed_step latch);
      failed_step = if late_failure then some none else none;
    })

-- where a node leads: to a step, or to `END`
pub data Destination : Type 0 where
  end_of_run : Destination
  to_step : String → Destination

-- `_make_proceed_or_router`
unfoldable pub proceed_or_router : String → String → State → Destination
unfolding latch_of
proceed_or_router id dest state =
    if (latch_of id state.latches).last_won then to_step dest else end_of_run
