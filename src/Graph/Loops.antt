-- ===== src/Graph/Loops.antt =====
-- How often the loop guard of app/infrastructure/orchestration/yaml_graph.py lets a step run.
use ai_agents_carrier.Base.{
  ℕ, ◌+◌, ◌≤◌, true, none, some, List, [], ◌∷◌, ◌≡◌, refl, inl, inr, all, str_eq, arith, Bool-cases,
  and_parts,
}
use ai_agents_carrier.Graph.Model.{State, count_of}
use ai_agents_carrier.Graph.Guards.{loop_guarded, Step, raised, returned, loops_of}
use ai_agents_carrier.Graph.Runs.{
  Visit, find_step, updates, merge_updates, superstep, run, Result-cases,
}
use ai_agents_carrier.Graph.Merging.{count_in}
use ai_agents_carrier.Graph.Working.{worked, merged_last, work-bound, merge-count}

-- the same in a run, up to and with the superstep in which a node raises
unfoldable pub completions : Step → ℕ → List Step → List (List Visit) → State → ℕ
unfolding worked superstep
completions step max_iterations steps [] state = 0
completions step max_iterations steps (visits ∷ later) state =
    worked step max_iterations steps visits state
    + (elim (superstep max_iterations steps visits state) [
      | raised e ↦ 0
      | returned next ↦ completions step max_iterations steps later next
    ])

-- a superstep of one node, as all are in a graph without parallel branches
merged_last-one :
    (step : Step) (steps : List Step) (v : Visit) → merged_last step steps (v ∷ []) ≡ true
merged_last-one step steps v = elim (Bool-cases (str_eq v.id step.id)) [
  | inl t ↦ rw t refl
  | inr f ↦ rw f refl
]

module _ (max_iterations : ℕ) (steps : List Step) (step : Step)
    (known : find_step step.id steps ≡ some step) (guarded : loop_guarded step ≡ true) where
  completions-bound :
      (run : List (List Visit)) (state : State)
      → all (merged_last step steps) run ≡ true
      → count_in step.id state ≤ loops_of max_iterations step
      → completions step max_iterations steps run state + count_in step.id state
        ≤ loops_of max_iterations step
  unfolding completions superstep
  completions-bound [] state last h = omega (arith, h)
  completions-bound (visits ∷ run) state last h =
      let both = and_parts (merged_last step steps visits) last in
      let bound = work-bound max_iterations steps step known guarded state visits both.0 h in
      elim (Result-cases (updates max_iterations steps visits state)) [
        | inl e ↦ rw (e.1, completions, superstep) (omega (arith, bound))
        | inr made ↦
            let next = merge_updates made.0 state in
            let grown =
              merge-count max_iterations steps step known guarded state visits state both.0 made.1
                refl in
            rw (made.1, completions, superstep)
              (omega
                (arith, grown, completions-bound run next both.1 (omega (arith, grown, bound))))
      ]

-- In a run of supersteps that starts without counts, a step that the loop guard watches does work that
-- counts at most `max_loops` times, or as often as the graph's limit where it sets none, whatever the bodies
-- return, as long as in no superstep a node with the loop guard is merged after the step.
pub completions_bounded :
    (max_iterations : ℕ) (steps : List Step) (step : Step) (run : List (List Visit)) (state : State)
    → find_step step.id steps ≡ some step
    → loop_guarded step ≡ true
    → all (merged_last step steps) run ≡ true
    → state.visit_counts ≡ none
    → completions step max_iterations steps run state ≤ loops_of max_iterations step
unfolding count_of
completions_bounded max_iterations steps step run state known guarded last fresh =
    let zero_count : count_in step.id state ≡ 0 = rw fresh refl in
    omega (
      arith,
      completions-bound max_iterations steps step known guarded run state last
          (omega (arith, zero_count)),
    )
