-- ===== src/Graph/SameExits.antt =====
-- The exit that the graph builder of app/infrastructure/orchestration/yaml_graph.py gives to a step, before
-- and after app/application/step_normalization.py has written the step out.
use ai_agents_carrier.Base.{
  String, Bool, true, false, not, ◌||◌, Option, none, some, List, [], ◌∷◌, ◌≡◌, refl, sym, subst,
  inl, inr, ◌∙◌, ap, all, contains, is_empty, is_set, truthy, str_eq, Bool-cases, Option-cases,
  and_parts, if◌then◌else◌,
}
use ai_agents_carrier.Graph.Guards.{Route, Step}
use ai_agents_carrier.Graph.Joins.{to_step}
use ai_agents_carrier.Graph.Building
use ai_agents_carrier.Graph.Building.{
  Exit, Graph, node_types, target, following, following_id, first_exit, first_next, is_known,
  proceed_or_exit, parallel_exit, next_exit, too_many_routes, routes_exit, exit_of, exits_from,
  id_of, build,
}
use ai_agents_carrier.Graph.Closed.{Known}
use ai_agents_carrier.Graph.Normalizing.{
  is_parallel, declares_an_edge, neighbour, destination, normalized, normalize_edges,
}

-- the ids of the steps are no empty texts
abbrev pub all_named : List Step → Bool
all_named steps = all (λ step. truthy step.id) steps

pub normalized-same :
    (step : Step) (later : List Step)
    → ((normalized step later).id ≡ step.id) × ((normalized step later).type ≡ step.type)
unfolding normalized
normalized-same step later = elim (Bool-cases (not (truthy step.id) || declares_an_edge step)) [
  | inl t ↦ (rw t refl, rw t refl)
  | inr f ↦ elim (Bool-cases (is_parallel step)) [
    | inl t ↦ (rw f (rw t refl), rw f (rw t refl))
    | inr g ↦ (rw f (rw g refl), rw f (rw g refl))
  ]
]

-- the exit of a step depends on the id of the step that follows only
pub exit-later :
    (ids : List String) (step : Step) (later : List Step)
    → exit_of ids step (normalize_edges later) ≡ exit_of ids step later
unfolding exit_of normalize_edges normalized proceed_or_exit parallel_exit next_exit
exit-later ids step [] = refl
exit-later ids step (s ∷ later) = elim (Bool-cases (not (truthy s.id) || declares_an_edge s)) [
  | inl t ↦ rw t refl
  | inr f ↦ elim (Bool-cases (is_parallel s)) [
    | inl t ↦ rw f (rw t refl)
    | inr g ↦ rw f (rw g refl)
  ]
]

pub destination-cons :
    (s : Step) (later : List Step) → truthy s.id ≡ true → destination (s ∷ later) ≡ s.id
unfolding destination neighbour
destination-cons s later t = rw (t, destination, neighbour) refl

truthy-destination :
    (later : List Step) → all_named later ≡ true → truthy (destination later) ≡ true
unfolding destination
truthy-destination [] n = refl
truthy-destination (s ∷ later) n =
    let t : truthy s.id ≡ true = (and_parts (truthy s.id) n).0 in
    subst (λ d. truthy d ≡ true) (sym (destination-cons s later t)) t

same_branches : (b : Bool) (x : Exit) → (if b then x else x) ≡ x
same_branches true x = refl
same_branches false x = refl

first_exit-next :
    (ids : List String) (step : Step) (next dest : Option String)
    → first_exit ids (record step { next = next }) dest ≡ first_exit ids step dest
first_exit-next ids step next none = refl
first_exit-next ids step next (some dest) = refl

next_exit-unset :
    (ids : List String) (step : Step) (later : List Step)
    → is_set step.next ≡ false
    → next_exit ids step later ≡ Building.direct (following later ∷ [])
unfolding next_exit
next_exit-unset ids step later h = elim (Option-cases step.next) [
  | inl n ↦ rw n refl
  | inr next ↦ let f : truthy next.0 ≡ false = rw next.1 at h in rw next.1 (rw f refl)
]

first_next-empty : (routes : List Route) → is_empty routes ≡ true → first_next routes ≡ none
first_next-empty [] h = refl
first_next-empty (route ∷ routes) h = cc

module _ (ids : List String) (no_end : contains ids "END" ≡ false) where
  target-destination :
      (later : List Step)
      → all_named later ≡ true
      → Known ids later
      → target ids (destination later) ≡ following later
  unfolding destination
  target-destination [] n k = rw no_end refl
  target-destination (s ∷ later) n k =
      subst (λ d. target ids d ≡ to_step s.id)
        (sym (destination-cons s later (and_parts (truthy s.id) n).0))
        (rw ((and_parts (contains ids s.id) k).0) refl)

  first_exit-destination :
      (step : Step) (later : List Step)
      → all_named later ≡ true
      → (if is_known ids (some (destination later))
          then first_exit ids step (some (destination later))
          else first_exit ids step (following_id later))
        ≡ first_exit ids step (following_id later)
  unfolding destination
  first_exit-destination step [] n = rw no_end refl
  first_exit-destination step (s ∷ later) n =
      let t : truthy s.id ≡ true = (and_parts (truthy s.id) n).0 in
      subst
        (λ d.
          (if is_known ids (some d)
            then first_exit ids step (some d)
            else first_exit ids step (some s.id))
          ≡ first_exit ids step (some s.id))
        (sym (destination-cons s later t))
        (same_branches (is_known ids (some s.id)) (first_exit ids step (some s.id)))

  proceed_or-destination :
      (step : Step) (later : List Step)
      → all_named later ≡ true
      → is_set step.next ≡ false
      → is_empty step.routes ≡ true
      → proceed_or_exit ids (record step { next = some (destination later) }) later
        ≡ proceed_or_exit ids step later
  unfolding proceed_or_exit
  proceed_or-destination step later n e r = rw (truthy-destination later n) (
      rw e (
        rw (first_next-empty step.routes r) (
          first_exit-destination (record step { next = some (destination later) }) later n
          ∙ first_exit-next ids step (some (destination later)) (following_id later))))

  -- a step that states no edge
  exit-parallel :
      (step : Step) (later : List Step)
      → all_named later ≡ true
      → Known ids later
      → is_parallel step ≡ true
      → is_empty step.targets ≡ true
      → exit_of ids (record step { targets = destination later ∷ [] }) later
        ≡ exit_of ids step later
  unfolding exit_of parallel_exit
  exit-parallel step later n k p e = rw p (rw e (rw (target-destination later n k) refl))

  exit-next :
      (step : Step) (later : List Step)
      → all_named later ≡ true
      → Known ids later
      → is_parallel step ≡ false
      → is_set step.next ≡ false
      → is_empty step.routes ≡ true
      → exit_of ids (record step { next = some (destination later) }) later ≡ exit_of ids step later
  unfolding exit_of next_exit
  exit-next step later n k p e r = elim (Bool-cases (str_eq step.type "proceed_or")) [
    | inl t ↦ rw p (rw t (ap some (proceed_or-destination step later n e r)))
    | inr f ↦ rw p (
        rw f (
          rw r (
            rw (truthy-destination later n) (
              rw (target-destination later n k)
                (ap some (sym (next_exit-unset ids step later e)))))))
  ]

  pub exit-normalized :
      (step : Step) (later : List Step)
      → all_named (step ∷ later) ≡ true
      → Known ids later
      → exit_of ids (normalized step later) later ≡ exit_of ids step later
  unfolding normalized declares_an_edge
  exit-normalized step later n k = elim (Bool-cases (is_parallel step)) [
    | inl p ↦ elim (Bool-cases (is_empty step.targets)) [
      | inl e ↦
          rw ((and_parts (truthy step.id) n).0)
            (rw p (rw e (exit-parallel step later (and_parts (truthy step.id) n).1 k p e)))
      | inr f ↦ rw ((and_parts (truthy step.id) n).0) (rw p (rw f refl))
    ]
    | inr p ↦ elim (Bool-cases (is_set step.next)) [
      | inl e ↦ rw ((and_parts (truthy step.id) n).0) (rw p (rw e refl))
      | inr e ↦ elim (Bool-cases (is_empty step.routes)) [
        | inl r ↦
            rw ((and_parts (truthy step.id) n).0)
              (rw p (rw e (rw r (exit-next step later (and_parts (truthy step.id) n).1 k p e r))))
        | inr r ↦ rw ((and_parts (truthy step.id) n).0) (rw p (rw e (rw r refl)))
      ]
    ]
  ]
