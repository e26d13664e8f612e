-- ===== src/Graph/Normalizing.antt =====
-- app/application/step_normalization.py: the edges that a list of steps leaves to the order of its entries are
-- written out. The entries are steps with a text as id; what is no such entry is skipped in the source.
use ai_agents_carrier.Base.{
  String, Bool, not, ◌&&◌, ◌||◌, Option, none, some, List, [], ◌∷◌, ◌++◌, map, filter, any,
  contains, is_empty, is_set, truthy, str_eq, if◌then◌else◌,
}
use ai_agents_carrier.Graph.Guards.{Route, Step}

-- `END_MARKER`
abbrev pub end_marker : String
end_marker = "END"

abbrev pub is_parallel : Step → Bool
is_parallel step = str_eq step.type "parallel"

-- `_declares_an_edge`
unfoldable pub declares_an_edge : Step → Bool
declares_an_edge step =
    if is_parallel step
    then not (is_empty step.targets)
    else is_set step.next || not (is_empty step.routes)

-- the id of the next step
unfoldable pub neighbour : List Step → Option String
neighbour [] = none
neighbour (step ∷ steps) =
    let later = neighbour steps in if truthy step.id then some step.id else later

unfoldable pub destination : List Step → String
unfolding neighbour
destination later = elim (neighbour later) [ none ↦ end_marker | some id ↦ id ]

-- one step, before the steps that follow it
unfoldable pub normalized : Step → List Step → Step
unfolding declares_an_edge destination
normalized step later =
    if not (truthy step.id) || declares_an_edge step
    then step
    else if is_parallel step
    then record step { targets = destination later ∷ [] }
    else record step { next = some (destination later) }

-- `normalize_edges`
unfoldable pub normalize_edges : List Step → List Step
unfolding normalized
normalize_edges [] = []
normalize_edges (step ∷ steps) = normalized step steps ∷ normalize_edges steps

-- ─── the edges that are stated ───

abbrev pub edge_to : List String → String → Option String → List (String × String)
edge_to ids id none = []
edge_to ids id (some dest) = if contains ids dest then (id, dest) ∷ [] else []

unfoldable pub routes_to : List String → String → List Route → List (String × String)
routes_to ids id [] = []
routes_to ids id (route ∷ routes) = edge_to ids id route.next ++ routes_to ids id routes

unfoldable pub targets_to : List String → String → List String → List (String × String)
targets_to ids id [] = []
targets_to ids id (t ∷ ts) = edge_to ids id (some t) ++ targets_to ids id ts

unfoldable pub edges_of : List String → Step → List (String × String)
unfolding routes_to targets_to
edges_of ids step =
    if not (truthy step.id)
    then []
    else if is_parallel step
    then targets_to ids step.id step.targets
    else routes_to ids step.id step.routes ++ edge_to ids step.id step.next

unfoldable pub edges_from : List String → List Step → List (String × String)
unfolding edges_of
edges_from ids [] = []
edges_from ids (step ∷ steps) = edges_of ids step ++ edges_from ids steps

abbrev pub step_ids : List Step → List String
step_ids steps = filter (λ id. truthy id) (map (λ s. s.id) steps)

-- `declared_edges`, as a list in which an edge may stand twice
unfoldable pub declared_edges : List Step → List (String × String)
unfolding edges_from
declared_edges steps = edges_from (step_ids steps) steps

abbrev pub same_edge : String × String → String × String → Bool
same_edge a b = str_eq a.0 b.0 && str_eq a.1 b.1

-- `implicit_edges`, in no particular order
unfoldable pub implicit_edges : List Step → List (String × String)
unfolding declared_edges normalize_edges
implicit_edges steps =
    filter (λ e. not (any (same_edge e) (declared_edges steps)))
      (declared_edges (normalize_edges steps))
