-- ===== src/Graph/Runs.antt =====
-- A run of a graph of app/infrastructure/orchestration/yaml_graph.py as LangGraph documents it: a sequence of
-- supersteps, whose nodes all see the same state and whose updates are merged in some order when all of
-- them have returned. Which nodes a superstep holds and what their bodies do is left open.
use ai_agents_carrier.Base.{
  String, ℕ, Option, none, some, List, [], ◌∷◌, ◌≡◌, refl, ◌⊎◌, inl, inr, find?, str_eq,
}
use ai_agents_carrier.Graph.Model.{State, Update, apply_update}
use ai_agents_carrier.Graph.Guards.{
  Step, Body, Result, raised, returned, Raised, after_body, make_node,
}

-- a node that is visited, and what its body does this time
pub record Visit : Type 0 where
  pub id : String
  pub body : Body

-- `next((s for s in steps if s["id"] == node_name), None)`
abbrev pub find_step : String → List Step → Option Step
find_step id steps = find? (λ s. str_eq s.id id) steps

unfoldable pub visit : ℕ → List Step → Visit → State → Result Update
unfolding make_node
visit max_iterations steps v state = elim (find_step v.id steps) [
  | none ↦ raised (Raised.other "no such node")
  | some step ↦ make_node max_iterations step v.body state
]

-- the updates of the nodes of one superstep, which all see the state before it
unfoldable pub updates : ℕ → List Step → List Visit → State → Result (List Update)
unfolding visit
updates max_iterations steps [] state = returned []
updates max_iterations steps (v ∷ visits) state =
    after_body (visit max_iterations steps v state) (λ update.
      after_body (updates max_iterations steps visits state) (λ later. returned (update ∷ later)))

-- the reducers take them one after another
unfoldable pub merge_updates : List Update → State → State
unfolding apply_update
merge_updates [] state = state
merge_updates (update ∷ later) state = merge_updates later (apply_update update state)

-- the state after a superstep; where a node raises, nothing of the superstep is merged
unfoldable pub superstep : ℕ → List Step → List Visit → State → Result State
unfolding updates merge_updates
superstep max_iterations steps visits state =
    after_body (updates max_iterations steps visits state)
      (λ made. returned (merge_updates made state))

-- the state after the supersteps, unless one raises
unfoldable pub run : ℕ → List Step → List (List Visit) → State → Result State
unfolding superstep
run max_iterations steps [] state = returned state
run max_iterations steps (visits ∷ later) state =
    after_body (superstep max_iterations steps visits state)
      (λ next. run max_iterations steps later next)

pub Result-cases {ℓ} :
    {A : Type ℓ} (m : Result A) → ((e : Raised) × (m ≡ raised e)) ⊎ ((a : A) × (m ≡ returned a))
Result-cases (raised e) = inl (e, refl)
Result-cases (returned a) = inr (a, refl)

pub returned_inj {ℓ} : {A : Type ℓ} {a b : A} → returned a ≡ returned b → a ≡ b
returned_inj h = cc

pub after_body-returned {ℓ κ} :
    {A : Type ℓ} {B : Type κ} (m : Result A) (f : A → Result B) {b : B}
    → after_body m f ≡ returned b
    → (a : A) × (m ≡ returned a) × (f a ≡ returned b)
after_body-returned (raised e) f h = cc
after_body-returned (returned a) f h = (a, refl, h)
