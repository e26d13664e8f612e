-- ===== src/Graph/Arriving.antt =====
-- Where a node of a graph that app/infrastructure/orchestration/yaml_graph.py built leads.
use ai_agents_carrier.Base.{
  String, Bool, true, false, none, some, List, [], ◌∷◌, ◌≡◌, refl, subst, inl, inr, ap, map, all,
  all-mem, any, contains, str_eq, Memᴰ, eq_iff, Bool-cases, Option-cases, and_parts, or_true,
  eq_of_some,
}
use ai_agents_carrier.Base.Options.{>>=-eq-some}
use ai_agents_carrier.Graph.Model.{State, latch_of}
use ai_agents_carrier.Graph.Guards.{Route, Step}
use ai_agents_carrier.Graph.Joins.{Destination, proceed_or_router}
use ai_agents_carrier.Graph.Routing.{Evaluate, router, select, eval_condition, condition}
use ai_agents_carrier.Graph.Building
use ai_agents_carrier.Graph.Building.{
  Exit, Graph, target, following, route_map, exit_of, exits_from, build, look_up, follow, id_of,
  node_types,
}
use ai_agents_carrier.Graph.Closed.{
  is_inside, targets_inside, exit_inside, Known, exit_of-inside, target-inside,
}
use text.Mathlib.TextPositions.{eq_refl}

exits_from-inside :
    (ids : List String) (steps : List Step) {exits : List (String × Exit)}
    → Known ids steps
    → exits_from ids steps ≡ some exits
    → all (λ e. exit_inside ids e.1) exits ≡ true
unfolding exits_from
exits_from-inside ids [] known h =
    subst (λ e. all (λ x. exit_inside ids x.1) e ≡ true) (eq_of_some h) refl
exits_from-inside ids (step ∷ steps) known h =
    let k = and_parts (contains ids step.id) known in
    let r = >>=-eq-some (exit_of ids step steps) _ h in
    let q = >>=-eq-some (exits_from ids steps) _ r.2 in
    subst (λ e. all (λ x. exit_inside ids x.1) e ≡ true) (eq_of_some q.2)
      (rw (exit_of-inside ids step steps k.1 r.1) (exits_from-inside ids steps k.1 q.1))

cons-Known :
    (x : String) (ids : List String) (steps : List Step) → Known ids steps → Known (x ∷ ids) steps
cons-Known x ids [] h = refl
cons-Known x ids (step ∷ steps) h =
    let k = and_parts (contains ids step.id) h in
    rw k.0 (rw (or_true (str_eq x step.id)) (cons-Known x ids steps k.1))

pub ids-Known : (steps : List Step) → Known (map id_of steps) steps
ids-Known [] = refl
ids-Known (step ∷ steps) =
    rw (eq_refl step.id) (cons-Known step.id (map id_of steps) steps (ids-Known steps))

build-exits :
    (steps : List Step) {graph : Graph}
    → build steps ≡ some graph
    → all (λ e. exit_inside (map id_of steps) e.1) graph.exits ≡ true
unfolding build
build-exits steps {graph} h =
    elim (Bool-cases (all (λ step. contains node_types step.type) steps)) [
      | inr f ↦ cc (rw f at h)
      | inl t ↦
          let r = >>=-eq-some (exits_from (map id_of steps) steps) _ (rw t at h) in
          subst (λ g. all (λ e. exit_inside (map id_of steps) e.1) g.exits ≡ true) (eq_of_some r.2)
            (exits_from-inside (map id_of steps) steps (ids-Known steps) r.1)
    ]

look_up-inside :
    (ids : List String) (key : String) (targets : List (String × Destination)) {d : Destination}
    → targets_inside ids targets ≡ true
    → look_up key targets ≡ some d
    → is_inside ids d ≡ true
unfolding look_up
look_up-inside ids key [] h e = cc
look_up-inside ids key (entry ∷ targets) {d} h e =
    let k = and_parts (is_inside ids entry.1) h in
    elim (Bool-cases (str_eq entry.0 key)) [
      | inl t ↦ subst (λ x. is_inside ids x ≡ true) (eq_of_some (rw t at e)) k.0
      | inr f ↦ look_up-inside ids key targets k.1 (rw f at e)
    ]

first_wins-inside :
    (ids : List String) (id dest : String) (state : State)
    → contains ids dest ≡ true
    → is_inside ids (proceed_or_router id dest state) ≡ true
unfolding proceed_or_router is_inside
first_wins-inside ids id dest state h = elim (Bool-cases (latch_of id state.latches).last_won) [
  | inl t ↦ rw t h
  | inr f ↦ rw f refl
]

follow-inside :
    (evaluate : Evaluate) (ids : List String) (exit : Exit) (state : State)
    {next : List Destination}
    → exit_inside ids exit ≡ true
    → follow evaluate exit state ≡ some next
    → all (is_inside ids) next ≡ true
unfolding follow exit_inside
follow-inside evaluate ids (Building.direct destinations) state h e =
    subst (λ ds. all (is_inside ids) ds ≡ true) (eq_of_some e) h
follow-inside evaluate ids (Building.routed routes targets) state h e =
    let r = >>=-eq-some (router evaluate routes state) _ e in
    let q = >>=-eq-some (look_up r.0.0 targets) _ r.2 in
    subst (λ ds. all (is_inside ids) ds ≡ true) (eq_of_some q.2)
      (rw (look_up-inside ids r.0.0 targets h q.1) refl)
follow-inside evaluate ids (Building.first_wins id dest) state h e =
    subst (λ ds. all (is_inside ids) ds ≡ true) (eq_of_some e)
      (rw (first_wins-inside ids id dest state h) refl)

-- In a graph that is built, every node that a node leads to in any state is a step of the graph or the end
-- of the run.
pub follow-build :
    (evaluate : Evaluate) (steps : List Step) (graph : Graph) (exit : String × Exit) (state : State)
    (next : List Destination)
    → build steps ≡ some graph
    → Memᴰ exit graph.exits
    → follow evaluate exit.1 state ≡ some next
    → all (is_inside (map id_of steps)) next ≡ true
follow-build evaluate steps graph exit state next built m e =
    follow-inside evaluate (map id_of steps) exit.1 state
      (all-mem _ graph.exits (build-exits steps built) m) e

-- ─── a default route ───

abbrev pub has_default : List Route → Bool
has_default routes =
    any (λ route. (elim (condition route) [ none ↦ true | some when ↦ false ])) routes

abbrev pub has_next : Route → Bool
has_next route = elim route.next [ none ↦ false | some next ↦ true ]

select-default :
    (evaluate : Evaluate) (routes : List Route) (state : State)
    → has_default routes ≡ true
    → (route : Route) × (select evaluate routes state ≡ some route) × Memᴰ route routes
unfolding select
select-default evaluate [] state h = cc
select-default evaluate (route ∷ routes) state h = elim (Option-cases (condition route)) [
  | inl n ↦ (route, rw (n, select) refl, Memᴰ.head refl)
  | inr when ↦ elim (Bool-cases (eval_condition evaluate when.0 state)) [
    | inl t ↦ (route, rw (when.1, select) (rw t refl), Memᴰ.head refl)
    | inr f ↦
        let r = select-default evaluate routes state (rw when.1 at h) in
        (r.0, rw (when.1, select) (rw f r.1), Memᴰ.tail r.2)
  ]
]

look_up-route_map :
    (ids : List String) (routes : List Route) (route : Route) {next : String}
    → Memᴰ route routes
    → route.next ≡ some next
    → look_up next (route_map ids routes) ≡ some (target ids next)
unfolding look_up route_map
look_up-route_map ids [] route m h = elim m [ ]
look_up-route_map ids (other ∷ routes) route {next} (Memᴰ.head e) h =
    let n : other.next ≡ some next = subst (λ r. r.next ≡ some next) e h in
    rw n (rw (eq_refl next) refl)
look_up-route_map ids (other ∷ routes) route {next} (Memᴰ.tail m) h =
    elim (Option-cases other.next) [
      | inl n ↦ rw n (look_up-route_map ids routes route m h)
      | inr o ↦ elim (Bool-cases (str_eq o.0 next)) [
        | inl t ↦ rw o.1 (rw t (ap (λ i. some (target ids i)) ((eq_iff o.0 next).0 t)))
        | inr f ↦ rw o.1 (rw f (look_up-route_map ids routes route m h))
      ]
    ]

-- A router one of whose routes has no condition, and all of whose routes name a step, settles on one
-- destination in every state, whatever Python makes of the conditions: a step of the graph, or the end
-- of the run.
pub router_settles :
    (evaluate : Evaluate) (ids : List String) (routes : List Route) (state : State)
    → has_default routes ≡ true
    → all has_next routes ≡ true
    → (d : Destination) × (follow evaluate (Building.routed routes (route_map ids routes)) state
        ≡ some (d ∷ []))
      × (is_inside ids d ≡ true)
unfolding follow router
router_settles evaluate ids routes state default named =
    let chosen = select-default evaluate routes state default in
    elim (Option-cases chosen.0.next) [
      | inl n ↦
          let some_next : has_next chosen.0 ≡ true = all-mem has_next routes named chosen.2 in
          cc (rw (n, has_next) at some_next)
      | inr next ↦ (
        target ids next.0,
        rw chosen.1 (rw next.1 (rw (look_up-route_map ids routes chosen.0 chosen.2 next.1) refl)),
        target-inside ids next.0,
      )
    ]
