-- ===== src/Graph/Closed.antt =====
-- The edges that app/infrastructure/orchestration/yaml_graph.py builds stay in the graph, and a router with
-- a default route never raises.
use ai_agents_carrier.Base.{
  String, Bool, true, ◌&&◌, Option, none, some, List, [], ◌∷◌, ◌≡◌, refl, subst, inl, inr, map, all,
  contains, is_empty, or_else, truthy, str_eq, Bool-cases, Option-cases, and_parts, eq_of_some,
}
use ai_agents_carrier.Base.Options.{>>=-eq-some}
use ai_agents_carrier.Graph.Guards.{Route, Step}
use ai_agents_carrier.Graph.Joins.{Destination, end_of_run, to_step}
use ai_agents_carrier.Graph.Building
use ai_agents_carrier.Graph.Building.{
  Exit, Graph, target, following, route_map, routes_exit, proceed_or_exit, exit_of, exits_from,
  build, look_up, follow, first_exit, parallel_exit, next_exit, too_many_routes, is_known,
  first_next, following_id, plain_route, multi_output_types, id_of,
}

-- the end of the run, or a step of the graph
unfoldable pub is_inside : List String → Destination → Bool
is_inside ids end_of_run = true
is_inside ids (to_step id) = contains ids id

abbrev pub targets_inside : List String → List (String × Destination) → Bool
targets_inside ids targets = all (λ entry. is_inside ids entry.1) targets

-- every edge and every target of a router leads inside
unfoldable pub exit_inside : List String → Exit → Bool
exit_inside ids (Building.direct destinations) = all (is_inside ids) destinations
exit_inside ids (Building.routed routes targets) = targets_inside ids targets
exit_inside ids (Building.first_wins id dest) = contains ids dest

pub target-inside : (ids : List String) (t : String) → is_inside ids (target ids t) ≡ true
unfolding is_inside
target-inside ids t = elim (Bool-cases (contains ids t)) [ inl h ↦ rw h h | inr h ↦ rw h refl ]

targets-inside :
    (ids : List String) (ts : List String) → all (is_inside ids) (map (target ids) ts) ≡ true
targets-inside ids [] = refl
targets-inside ids (t ∷ ts) = rw (target-inside ids t) (targets-inside ids ts)

route_map-inside :
    (ids : List String) (routes : List Route) → targets_inside ids (route_map ids routes) ≡ true
unfolding route_map
route_map-inside ids [] = refl
route_map-inside ids (route ∷ routes) = elim (Option-cases route.next) [
  | inl n ↦ rw n (route_map-inside ids routes)
  | inr next ↦ rw next.1 (rw (target-inside ids next.0) (route_map-inside ids routes))
]

-- the ids of the steps after a step are ids of the graph
abbrev pub Known : List String → List Step → Type 0
Known ids steps = all (λ step. contains ids step.id) steps ≡ true

pub following-inside :
    (ids : List String) (later : List Step)
    → Known ids later
    → is_inside ids (following later) ≡ true
unfolding is_inside
following-inside ids [] h = refl
following-inside ids (step ∷ steps) h = (and_parts (contains ids step.id) h).0

first_exit-inside :
    (ids : List String) (step : Step) (dest : Option String)
    → exit_inside ids (first_exit ids step dest) ≡ true
unfolding exit_inside is_inside
first_exit-inside ids step none = refl
first_exit-inside ids step (some dest) = elim (Bool-cases (truthy dest && contains ids dest)) [
  | inl h ↦ rw h (and_parts (truthy dest) h).1
  | inr h ↦ rw h refl
]

proceed_or_exit-inside :
    (ids : List String) (step : Step) (later : List Step)
    → exit_inside ids (proceed_or_exit ids step later) ≡ true
unfolding proceed_or_exit
proceed_or_exit-inside ids step later =
    elim (Bool-cases (is_known ids (or_else step.next (first_next step.routes)))) [
      | inl h ↦ rw h (first_exit-inside ids step (or_else step.next (first_next step.routes)))
      | inr h ↦ rw h (first_exit-inside ids step (following_id later))
    ]

routes_exit-inside :
    (ids : List String) (routes : List Route) {exit : Exit}
    → routes_exit ids routes ≡ some exit
    → exit_inside ids exit ≡ true
unfolding routes_exit exit_inside
routes_exit-inside ids [] h = cc
routes_exit-inside ids (route ∷ []) {exit} h = elim (Bool-cases (plain_route route)) [
  | inl t ↦
      let r =
        >>=-eq-some route.next (λ next. some (Building.direct (target ids next ∷ [])))
          (rw t at h) in
      subst (λ e. exit_inside ids e ≡ true) (eq_of_some r.2) (rw (target-inside ids r.0) refl)
  | inr f ↦
      subst (λ e. exit_inside ids e ≡ true) (eq_of_some (rw f at h))
        (route_map-inside ids (route ∷ []))
]
routes_exit-inside ids (route ∷ other ∷ routes) {exit} h =
    subst (λ e. exit_inside ids e ≡ true) (eq_of_some h)
      (route_map-inside ids (route ∷ other ∷ routes))

parallel_exit-inside :
    (ids : List String) (step : Step) (later : List Step)
    → Known ids later
    → exit_inside ids (parallel_exit ids step later) ≡ true
unfolding parallel_exit exit_inside
parallel_exit-inside ids step later known = elim (Bool-cases (is_empty step.targets)) [
  | inl t ↦ rw t (rw (following-inside ids later known) refl)
  | inr f ↦ rw f (targets-inside ids step.targets)
]

next_exit-inside :
    (ids : List String) (step : Step) (later : List Step)
    → Known ids later
    → exit_inside ids (next_exit ids step later) ≡ true
unfolding next_exit exit_inside
next_exit-inside ids step later known = elim (Option-cases step.next) [
  | inl n ↦ rw n (rw (following-inside ids later known) refl)
  | inr next ↦ elim (Bool-cases (truthy next.0)) [
    | inl t ↦ rw next.1 (rw t (rw (target-inside ids next.0) refl))
    | inr f ↦ rw next.1 (rw f (rw (following-inside ids later known) refl))
  ]
]

pub exit_of-inside :
    (ids : List String) (step : Step) (later : List Step) {exit : Exit}
    → Known ids later
    → exit_of ids step later ≡ some exit
    → exit_inside ids exit ≡ true
unfolding exit_of
exit_of-inside ids step later {exit} known h = elim (Bool-cases (str_eq step.type "parallel")) [
  | inl t ↦
      at_exit (parallel_exit ids step later) (rw t at h) (parallel_exit-inside ids step later known)
  | inr f ↦ elim (Bool-cases (str_eq step.type "proceed_or")) [
    | inl t ↦
        at_exit (proceed_or_exit ids step later) (rw (f, t) at h)
          (proceed_or_exit-inside ids step later)
    | inr g ↦ elim (Bool-cases (is_empty step.routes)) [
      | inl t ↦
          at_exit (next_exit ids step later) (rw (f, g, t) at h)
            (next_exit-inside ids step later known)
      | inr e ↦ elim (Bool-cases (too_many_routes step)) [
        | inl t ↦ cc (rw (f, g, e, t) at h)
        | inr r ↦ routes_exit-inside ids step.routes (rw (f, g, e, r) at h)
      ]
    ]
  ]
]
  where
    at_exit :
        (made : Exit)
        → some made ≡ some exit
        → exit_inside ids made ≡ true
        → exit_inside ids exit ≡ true
    at_exit made e inside = subst (λ x. exit_inside ids x ≡ true) (eq_of_some e) inside
