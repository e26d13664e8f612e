-- ===== src/Graph/Halting.antt =====
-- The sentinel `__failed_step__` of app/infrastructure/orchestration/yaml_graph.py: what runs after a node
-- has recorded that it failed.
use ai_agents_carrier.Base.{
  String, ℕ, suc, Bool, true, false, not, ◌&&◌, Option, none, some, List, [], ◌∷◌, ◌≡◌, refl, sym,
  subst, ◌⊎◌, inl, inr, ◌∙◌, ap, All, all, find?-some, str_eq, is_set, truthy, eq_iff, ltb,
  Bool-cases, Option-cases, and_parts, true_of_not,
}
use ai_agents_carrier.Graph.Model.{
  State, Output, Update, no_output, absent, is_skipped, written, count_of, or_empty, last_wins,
  apply_update,
}
use ai_agents_carrier.Graph.Guards.{
  Step, Body, Result, raised, returned, loop_guarded, loops_of, fail_guarded, skips, blocks,
  counted, with_loop_guard, with_when, cleared, with_fail_guard, make_node,
}
use ai_agents_carrier.Graph.Runs.{
  updates, merge_updates, superstep, Visit, find_step, visit, run, after_body-returned,
  returned_inj,
}

-- a write of the sentinel names the step itself, as every write in the source does
unfoldable pub marks_own : String → Result Output → Bool
marks_own id (raised e) = true
marks_own id (returned output) = elim output.failed_step [
  | none ↦ true
  | some value ↦ elim value [ none ↦ true | some own ↦ str_eq own id ]
]

pub record IsHonest (v : Visit) : Type 0 where
  pub honest : (state : State) → marks_own v.id (v.body state) ≡ true

-- whether a visit is of a node that has the fail guard
abbrev pub is_guarded : List Step → Visit → Bool
is_guarded steps v = elim (find_step v.id steps) [ none ↦ true | some step ↦ fail_guarded step ]

-- the sentinel is left alone, or set to this id
unfoldable Own : String → Option (Option String) → Type 0
Own id value = (written value ≡ none) ⊎ (written value ≡ some id)

output-Own :
    (id : String) (output : Output)
    → marks_own id (returned output) ≡ true
    → Own id output.failed_step
unfolding marks_own Own
output-Own id output h = elim (Option-cases output.failed_step) [
  | inl n ↦ inl (rw n refl)
  | inr value ↦ elim (Option-cases value.0) [
    | inl n ↦ inl (rw value.1 n)
    | inr own ↦
        let t : str_eq own.0 id ≡ true = rw (value.1, own.1) at h in
        inr (rw value.1 (own.1 ∙ ap some ((eq_iff own.0 id).0 t)))
  ]
]

last_wins-Own :
    (f : String) (value : Option (Option String))
    → Own f value
    → last_wins (some f) (written value) ≡ some f
unfolding Own last_wins
last_wins-Own f value (inl e) = rw e refl
last_wins-Own f value (inr e) = rw e refl

module _ (max_iterations : ℕ) (step : Step) (state : State) (body : Body) where
  -- an update holds what the body returned, or nothing
  abbrev Holds : Output → Type 0
  Holds output = (output ≡ no_output) ⊎ (body state ≡ returned output)

  counted-output :
      (output : Output) {update : Update}
      → counted max_iterations step state output ≡ returned update
      → output ≡ update.output
  unfolding counted
  counted-output output {update} h = elim (Bool-cases (is_skipped output)) [
    | inl t ↦ ap (λ u. u.output) (returned_inj (rw t at h))
    | inr f ↦
        elim (Bool-cases (
          ltb (loops_of max_iterations step)
            (suc (count_of step.id (or_empty state.visit_counts))))) [
              | inl t ↦ cc (rw (f, t) at h)
              | inr g ↦ ap (λ u. u.output) (returned_inj (rw (f, g) at h))
            ]
  ]

  when-Holds :
      {update : Update}
      → with_when step (with_loop_guard max_iterations step body) state ≡ returned update
      → Holds update.output
  unfolding with_when with_loop_guard
  when-Holds {update} h = elim (Bool-cases (skips step state)) [
    | inl t ↦ inl (sym (ap (λ u. u.output) (returned_inj (rw t at h))))
    | inr f ↦
        let r = after_body-returned (body state) _ (rw f at h) in
        elim (Bool-cases (loop_guarded step)) [
          | inl t ↦ inr (r.1 ∙ ap returned (counted-output r.0 (rw t at r.2)))
          | inr g ↦ inr (r.1 ∙ ap returned (ap (λ u. u.output) (returned_inj (rw g at r.2))))
        ]
  ]

  Holds-Own :
      {output : Output}
      → marks_own step.id (body state) ≡ true
      → Holds output
      → Own step.id output.failed_step
  unfolding Own
  Holds-Own {output} own (inl e) = inl (rw e refl)
  Holds-Own {output} own (inr e) =
      output-Own step.id output (subst (λ r. marks_own step.id r ≡ true) e own)

  cleared-Own :
      (update : Update)
      → Own step.id update.output.failed_step
      → Own step.id (cleared state update).output.failed_step
  unfolding cleared Own
  cleared-Own update h =
      elim (Bool-cases (is_set state.failed_step && absent update.output.failed_step)) [
        | inl t ↦ inl (rw t refl)
        | inr f ↦ rw f h
      ]

  -- a guarded node that returns while a sentinel is set is the node that the sentinel names, and leaves it
  make_node-Own :
      (f : String) {update : Update}
      → state.failed_step ≡ some f
      → truthy f ≡ true
      → fail_guarded step ≡ true
      → marks_own step.id (body state) ≡ true
      → make_node max_iterations step body state ≡ returned update
      → (step.id ≡ f) × Own f update.output.failed_step
  unfolding make_node with_fail_guard
  make_node-Own f {update} failed set guarded own h = elim (Bool-cases (blocks step state)) [
    | inl b ↦ cc (rw (guarded, b) at h)
    | inr unblocked ↦
        let r =
          after_body-returned (with_when step (with_loop_guard max_iterations step body) state) _
            (rw (guarded, unblocked) at h) in
        let differs : (truthy f && not (str_eq f step.id)) ≡ false = rw failed at unblocked in
        let e : step.id ≡ f =
          sym ((eq_iff f step.id).0 (true_of_not (str_eq f step.id) (rw set at differs))) in
        (
          e,
          subst (λ i. Own i update.output.failed_step) e
              (subst (λ u. Own step.id u.output.failed_step) (returned_inj r.2)
                (cleared-Own r.0 (Holds-Own own (when-Holds r.1)))),
        )
  ]

module _ (max_iterations : ℕ) (steps : List Step) where
  visit-Own :
      (v : Visit) (f : String) (state : State) {update : Update}
      → state.failed_step ≡ some f
      → truthy f ≡ true
      → is_guarded steps v ≡ true
      → IsHonest v
      → visit max_iterations steps v state ≡ returned update
      → (v.id ≡ f) × Own f update.output.failed_step
  unfolding visit
  visit-Own v f state {update} failed set guarded lawful h =
      elim (Option-cases (find_step v.id steps)) [
        | inl n ↦ cc (rw (n, visit) at h)
        | inr found ↦
            let named : found.0.id ≡ v.id =
              (eq_iff found.0.id v.id).0 (find?-some (λ s. str_eq s.id v.id) steps found.1).1 in
            let r =
              make_node-Own max_iterations found.0 state v.body f failed set
                (rw (found.1, is_guarded) at guarded)
                (subst (λ i. marks_own i (v.body state) ≡ true) (sym named) (lawful.honest state))
                (rw (found.1, visit) at h) in
            (sym named ∙ r.0, r.1)
      ]

  -- a superstep that starts with the sentinel set holds the node that it names alone, and leaves it
  updates-Own :
      (visits : List Visit) (f : String) (state now : State) {made : List Update}
      → state.failed_step ≡ some f
      → now.failed_step ≡ some f
      → truthy f ≡ true
      → all (is_guarded steps) visits ≡ true
      → All IsHonest visits
      → updates max_iterations steps visits state ≡ returned made
      → (all (λ v. str_eq v.id f) visits ≡ true) × ((merge_updates made now).failed_step ≡ some f)
  unfolding updates merge_updates apply_update
  updates-Own [] f state now failed kept set guarded lawful h = (refl, rw (← returned_inj h) kept)
  updates-Own (v ∷ visits) f state now failed kept set guarded lawful h =
      let (update, e, h₁) = after_body-returned (visit max_iterations steps v state) _ h in
      let (more, e₁, h₂) = after_body-returned (updates max_iterations steps visits state) _ h₁ in
      let g = and_parts (is_guarded steps v) guarded in
      let own = visit-Own v f state failed set g.0 lawful.0 e in
      let next : (apply_update update now).failed_step ≡ some f =
        rw kept (last_wins-Own f update.output.failed_step own.1) in
      let later =
        updates-Own visits f state (apply_update update now) failed next set g.1 lawful.1 e₁ in
      (rw ((eq_iff v.id f).1 own.0) later.0, rw (← returned_inj h₂) later.1)

-- Once a step has recorded that it failed, a run that raises nothing visits this step alone in every later
-- superstep, however often the step is restarted and succeeds: what is written to clear the sentinel never
-- reaches the state, as `_last_wins` drops a `None`. Joins and `proceed_or` steps, which have no fail
-- guard, are not among the visits.
pub failure_sticks :
    (max_iterations : ℕ) (steps : List Step) (visits : List (List Visit)) (f : String)
    (state last : State)
    → state.failed_step ≡ some f
    → truthy f ≡ true
    → all (all (is_guarded steps)) visits ≡ true
    → All (All IsHonest) visits
    → run max_iterations steps visits state ≡ returned last
    → (all (all (λ v. str_eq v.id f)) visits ≡ true) × (last.failed_step ≡ some f)
unfolding run superstep
failure_sticks max_iterations steps [] f state last failed set guarded lawful h =
    (refl, subst (λ s. s.failed_step ≡ some f) (returned_inj h) failed)
failure_sticks max_iterations steps (visits ∷ later) f state last failed set guarded lawful h =
    let (next, e, h₁) = after_body-returned (superstep max_iterations steps visits state) _ h in
    let (made, e₁, h₂) = after_body-returned (updates max_iterations steps visits state) _ e in
    let g = and_parts (all (is_guarded steps) visits) guarded in
    let own =
      updates-Own max_iterations steps visits f state state failed failed set g.0 lawful.0 e₁ in
    let kept = subst (λ s. s.failed_step ≡ some f) (returned_inj h₂) own.1 in
    let rest = failure_sticks max_iterations steps later f next last kept set g.1 lawful.1 h₁ in
    (rw own.0 rest.0, rest.1)
