-- ===== src/Graph/Tests.antt =====
-- Runs of small graphs.
use ai_agents_carrier.Base.{
  String, ◌≤◌, Bool, true, false, not, Option, none, some, List, [], ◌∷◌, ◌≡◌, refl, arith, all,
  any, map, str_eq, Memᴰ, is_space, if◌then◌else◌,
}
use ai_agents_carrier.Base.Json.{Json}
use ai_agents_carrier.Graph.Model.{State, Output, no_output, apply_update, count_of, latch_of}
use ai_agents_carrier.Graph.Guards.{Route, Step, Body, returned, counted}
use ai_agents_carrier.Graph.Runs.{Visit, run}
use ai_agents_carrier.Graph.Merging.{count_in}
use ai_agents_carrier.Graph.Loops.{completions, completions_bounded}
use ai_agents_carrier.Graph.Halting.{IsHonest, marks_own, failure_sticks}
use ai_agents_carrier.Graph.FirstWins.{passages, fails, passages_once}
use ai_agents_carrier.Graph.Joins.{Destination, end_of_run, to_step}
use ai_agents_carrier.Graph.Building
use ai_agents_carrier.Graph.Building.{Graph, Exit, build, follow, route_map, id_of, exits_from}
use ai_agents_carrier.Graph.Closed.{is_inside}
use ai_agents_carrier.Graph.Arriving.{follow-build, router_settles}
use ai_agents_carrier.Graph.Normalizing.{normalize_edges, implicit_edges, declared_edges, same_edge}
use ai_agents_carrier.Graph.SameGraph.{build-normalize_edges}
use ai_agents_carrier.Graph.Falling.{FallsThrough}
use ai_agents_carrier.Graph.Implicit.{implicit_edges_iff}
use ai_agents_carrier.Graph.Branches.{earlier_branch_uncounted}

abbrev step : String → String → List Route → Step
step id type routes = record {
  id = id;
  type = type;
  when = none;
  max_loops = some 2;
  failure_policy = none;
  targets = [];
  next = none;
  routes = routes;
}

abbrev again : Route
again = record { next = some "work"; when = some (some "!done"); has_wait = false; wait = 0 }

abbrev out : Route
out = record { next = some "nowhere"; when = some none; has_wait = false; wait = 0 }

abbrev steps : List Step
steps = step "work" "python" [] ∷ step "check" "switch" (again ∷ out ∷ []) ∷ []

abbrev fresh : State
fresh = record { failed_step = none; error = none; visit_counts = none; latches = []; values = [] }

abbrev failed : State
failed = record fresh { failed_step = some "work" }

abbrev seen : State
seen = record fresh { visit_counts = some (("work", 1) ∷ []) }

abbrev result : Output
result = record no_output { values = ("out", Json.string "ok") ∷ [] }

abbrev works_fine : Body
works_fine state = returned result

abbrev work_again : Visit
work_again = record { id = "work"; body = works_fine }

abbrev no_eval : String → State → Option Bool
no_eval expr state = none

abbrev branching : List Step
branching = step "work" "python" [] ∷ step "b" "python" [] ∷ []

abbrev work_beside : Visit
work_beside = record { id = "b"; body = works_fine }

-- two branches of one superstep, of which `work` is merged last
abbrev in_time : List (List Visit)
in_time = (work_beside ∷ work_again ∷ []) ∷ (work_again ∷ []) ∷ (work_again ∷ []) ∷ []

completions_bounded_example : completions (step "work" "python" []) 10 branching in_time fresh ≤ 2
completions_bounded_example =
    completions_bounded 10 branching (step "work" "python" []) in_time fresh refl refl refl refl

-- merged before the other branch, `work` loops past its limit of 2
past_the_limit :
    completions
      (step "work" "python" [])
      10
      branching
      ((work_again ∷ work_beside ∷ [])
        ∷ (work_again ∷ work_beside ∷ [])
        ∷ (work_again ∷ work_beside ∷ [])
        ∷ [])
      fresh
    ≡ 3
unfolding completions count_of
past_the_limit = refl

work_again-IsHonest : IsHonest work_again
unfolding marks_own
work_again-IsHonest = record { honest = λ state. refl }

failure_sticks_example :
    (all (all (λ v. str_eq v.id "work")) ((work_again ∷ []) ∷ []) ≡ true)
    × ((record failed {
      visit_counts = some (("work", 1) ∷ []);
      values = ("out", Json.string "ok") ∷ [];
    }).failed_step
        ≡ some "work")
unfolding run
failure_sticks_example =
    failure_sticks 10 steps ((work_again ∷ []) ∷ []) "work" failed
      (record failed {
        visit_counts = some (("work", 1) ∷ []);
        values = ("out", Json.string "ok") ∷ [];
      })
      refl refl refl ((work_again-IsHonest, tt), tt) refl

passages_once_example :
    passages (step "first" "proceed_or" []) "work" (some "slow" ∷ none ∷ none ∷ []) fresh ≡ (
      if any (λ f. not (fails (step "first" "proceed_or" []) f)) (some "slow" ∷ none ∷ none ∷ [])
      then 1
      else 0)
unfolding latch_of
passages_once_example =
    passages_once (step "first" "proceed_or" []) "work" (some "slow" ∷ none ∷ none ∷ []) fresh refl

abbrev check_exit : String × Exit
check_exit = (
  "check",
  Building.routed (again ∷ out ∷ []) (("work", to_step "work") ∷ ("nowhere", end_of_run) ∷ []),
)

abbrev built : Graph
built = record {
  entry = to_step "work";
  exits = ("work", Building.direct (to_step "check" ∷ [])) ∷ check_exit ∷ [];
}

follow-build_example : all (is_inside (map id_of steps)) (to_step "work" ∷ []) ≡ true
unfolding build follow is_space
follow-build_example =
    follow-build no_eval steps built check_exit fresh (to_step "work" ∷ []) refl
      (Memᴰ.tail (Memᴰ.head refl)) refl

router_settles_example :
    (d : Destination) × (follow no_eval
        (Building.routed (again ∷ out ∷ []) (route_map (map id_of steps) (again ∷ out ∷ [])))
        fresh
      ≡ some (d ∷ []))
    × (is_inside (map id_of steps) d ≡ true)
router_settles_example = router_settles no_eval (map id_of steps) (again ∷ out ∷ []) fresh refl refl

earlier_branch_uncounted_example :
    count_in "work" (
      apply_update
        (record { output = result; visit_counts = some (("b", 1) ∷ ("work", 1) ∷ []) })
        (apply_update
          (record { output = result; visit_counts = some (("work", 2) ∷ ("work", 1) ∷ []) })
          seen))
    ≡ count_in "work" seen
unfolding count_of counted
earlier_branch_uncounted_example =
    earlier_branch_uncounted 10 "work" (step "b" "python" []) seen result
      (record { output = result; visit_counts = some (("work", 2) ∷ ("work", 1) ∷ []) })
      (record { output = result; visit_counts = some (("b", 1) ∷ ("work", 1) ∷ []) }) refl refl
      (omega arith) refl refl

abbrev straight : List Step
straight = step "plan" "llm" [] ∷ step "fan" "parallel" [] ∷ step "end" "proceed_or" [] ∷ []

build-normalize_edges_example : build (normalize_edges straight) ≡ build straight
build-normalize_edges_example = build-normalize_edges straight refl refl

implicit_edges_iff_example :
    (Memᴰ ("fan", "end") (implicit_edges straight)
      → FallsThrough ("fan", "end") straight
        × (any (same_edge ("fan", "end")) (declared_edges straight) ≡ false))
    × (FallsThrough ("fan", "end") straight
          × (any (same_edge ("fan", "end")) (declared_edges straight) ≡ false)
        → Memᴰ ("fan", "end") (implicit_edges straight))
implicit_edges_iff_example = implicit_edges_iff straight ("fan", "end") refl refl

implicit_in_straight : implicit_edges straight ≡ ("plan", "fan") ∷ ("fan", "end") ∷ []
unfolding implicit_edges
implicit_in_straight = refl

-- a step that is called "END": written out, the last step leads back to it
abbrev named_end : List Step
named_end = step "END" "python" [] ∷ step "b" "python" [] ∷ []

abbrev exits_in : Option Graph → Option (List (String × Exit))
exits_in none = none
exits_in (some graph) = some graph.exits

ends_after_b :
    exits_in (build named_end)
    ≡ some (
        ("END", Building.direct (to_step "b" ∷ [])) ∷ ("b", Building.direct (end_of_run ∷ [])) ∷ [])
unfolding build
ends_after_b = refl

loops_when_written_out :
    exits_in (build (normalize_edges named_end))
    ≡ some (
        ("END", Building.direct (to_step "b" ∷ []))
        ∷ ("b", Building.direct (to_step "END" ∷ []))
        ∷ [])
unfolding build normalize_edges
loops_when_written_out = refl
