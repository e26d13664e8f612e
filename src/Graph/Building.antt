-- ===== src/Graph/Building.antt =====
-- The edges of a workflow: `_build` of app/infrastructure/orchestration/yaml_graph.py, and where they lead
-- from a node, as LangGraph documents edges and routers. `none` is an exception.
use ai_agents_carrier.Base.{
  String, ltb, length, Bool, true, false, not, ◌&&◌, Option, none, some, List, [], ◌∷◌, map, all,
  contains, is_empty, truthy, or_else, str_eq, if◌then◌else◌,
}
use ai_agents_carrier.Base.Options.{◌>>=◌}
use ai_agents_carrier.Graph.Model.{State}
use ai_agents_carrier.Graph.Guards.{Route, Step}
use ai_agents_carrier.Graph.Joins.{Destination, end_of_run, to_step, proceed_or_router}
use ai_agents_carrier.Graph.Routing.{Evaluate, router}

-- the types for which `_make_node` has a node; it raises for any other
abbrev pub node_types : List String
node_types =
    "langgraph-agent" ∷ "claude-agent" ∷ "llm" ∷ "mcp" ∷ "ask_context" ∷ "human_approval"
    ∷ "execute" ∷ "workflow" ∷ "cron" ∷ "http" ∷ "pubsub" ∷ "http_call" ∷ "data_source"
    ∷ "combined_datasource" ∷ "data" ∷ "python" ∷ "parallel" ∷ "join" ∷ "proceed_or" ∷ "storage"
    ∷ "slack" ∷ "switch" ∷ "dynamic" ∷ []

-- `_MULTI_OUTPUT_TYPES`
abbrev pub multi_output_types : List String
multi_output_types = "switch" ∷ "langgraph-agent" ∷ "claude-agent" ∷ "human_approval" ∷ []

-- What leads out of a node: edges, a router with the map of its targets, or the router of `proceed_or`.
pub data Exit : Type 0 where
  direct : List Destination → Exit
  routed : List Route → List (String × Destination) → Exit
  first_wins : String → String → Exit

pub record Graph : Type 0 where
  pub entry : Destination
  pub exits : List (String × Exit)

-- `t if t in all_ids else END`
abbrev pub target : List String → String → Destination
target ids t = if contains ids t then to_step t else end_of_run

-- the step after this one, or `END`
abbrev pub following : List Step → Destination
following [] = end_of_run
following (step ∷ steps) = to_step step.id

abbrev pub following_id : List Step → Option String
following_id [] = none
following_id (step ∷ steps) = some step.id

abbrev pub first_next : List Route → Option String
first_next [] = none
first_next (route ∷ routes) = route.next

abbrev pub is_known : List String → Option String → Bool
is_known ids none = false
is_known ids (some id) = truthy id && contains ids id

abbrev pub first_exit : List String → Step → Option String → Exit
first_exit ids step none = direct (end_of_run ∷ [])
first_exit ids step (some dest) =
    if is_known ids (some dest) then first_wins step.id dest else direct (end_of_run ∷ [])

unfoldable pub proceed_or_exit : List String → Step → List Step → Exit
proceed_or_exit ids step later =
    let dest = or_else step.next (first_next step.routes) in
    if is_known ids dest then first_exit ids step dest else first_exit ids step (following_id later)

-- `route_map`
unfoldable pub route_map : List String → List Route → List (String × Destination)
route_map ids [] = []
route_map ids (route ∷ routes) = elim route.next [
  | none ↦ route_map ids routes
  | some next ↦ (next, target ids next) ∷ route_map ids routes
]

abbrev pub plain_route : Route → Bool
plain_route route = (elim route.when [ none ↦ true | some when ↦ false ]) && not route.has_wait

-- a step with routes
unfoldable pub routes_exit : List String → List Route → Option Exit
unfolding route_map
routes_exit ids [] = none
routes_exit ids (route ∷ []) =
    if plain_route route
    then (route.next >>= λ next. some (direct (target ids next ∷ [])))
    else some (routed (route ∷ []) (route_map ids (route ∷ [])))
routes_exit ids (route ∷ other ∷ routes) =
    some (routed (route ∷ other ∷ routes) (route_map ids (route ∷ other ∷ routes)))

-- a `parallel` step
unfoldable pub parallel_exit : List String → Step → List Step → Exit
parallel_exit ids step later =
    direct (if is_empty step.targets then following later ∷ [] else map (target ids) step.targets)

-- a step without routes
unfoldable pub next_exit : List String → Step → List Step → Exit
next_exit ids step later = elim step.next [
  | none ↦ direct (following later ∷ [])
  | some next ↦ direct ((if truthy next then target ids next else following later) ∷ [])
]

abbrev pub too_many_routes : Step → Bool
too_many_routes step = not (contains multi_output_types step.type) && ltb 1 (length step.routes)

-- what leads out of a step, before the steps that follow it
unfoldable pub exit_of : List String → Step → List Step → Option Exit
unfolding proceed_or_exit routes_exit parallel_exit next_exit
exit_of ids step later =
    if str_eq step.type "parallel"
    then some (parallel_exit ids step later)
    else if str_eq step.type "proceed_or"
    then some (proceed_or_exit ids step later)
    else if is_empty step.routes
    then some (next_exit ids step later)
    else if too_many_routes step
    then none
    else routes_exit ids step.routes

unfoldable pub exits_from : List String → List Step → Option (List (String × Exit))
unfolding exit_of
exits_from ids [] = some []
exits_from ids (step ∷ steps) = exit_of ids step steps >>= λ exit.
    (exits_from ids steps >>= λ exits. some ((step.id, exit) ∷ exits))

abbrev pub id_of : Step → String
id_of step = step.id

-- `_build`
unfoldable pub build : List Step → Option Graph
unfolding exits_from
build steps =
    if all (λ step. contains node_types step.type) steps
    then (exits_from (map id_of steps) steps >>= λ exits.
        some record { entry = following steps; exits = exits })
    else none

-- ─── where a node leads ───

unfoldable pub look_up : String → List (String × Destination) → Option Destination
look_up key [] = none
look_up key (entry ∷ entries) =
    let later = look_up key entries in if str_eq entry.0 key then some entry.1 else later

-- The nodes that come after a node in a state; `none` where the router raises.
unfoldable pub follow : Evaluate → Exit → State → Option (List Destination)
unfolding router look_up
follow evaluate (direct destinations) state = some destinations
follow evaluate (routed routes targets) state = router evaluate routes state >>= λ chosen.
    (look_up chosen.0 targets >>= λ destination. some (destination ∷ []))
follow evaluate (first_wins id dest) state = some (proceed_or_router id dest state ∷ [])
