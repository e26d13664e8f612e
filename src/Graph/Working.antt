-- ===== src/Graph/Working.antt =====
-- How often a step works in one superstep, and what this does to its count under the loop guard of
-- app/infrastructure/orchestration/yaml_graph.py.
use ai_agents_carrier.Base.{
  ℕ, suc, ◌+◌, ◌≤◌, Bool, true, false, ◌&&◌, none, some, List, [], ◌∷◌, ◌≡◌, refl, sym, subst, inl,
  inr, ◌∙◌, all, str_eq, eq_iff, arith, Bool-cases, and_parts, eq_of_some, if◌then◌else◌,
}
use ai_agents_carrier.Graph.Model.{State, Update, apply_update}
use ai_agents_carrier.Graph.Guards.{loop_guarded, Step, raised, returned, loops_of}
use ai_agents_carrier.Graph.Runs.{
  Visit, find_step, visit, updates, merge_updates, after_body-returned, returned_inj, Result-cases,
}
use ai_agents_carrier.Graph.Counting.{
  works, IsCounted, IsCounting, left_alone, one_more, visit-IsVisited,
}
use text.Mathlib.TextPositions.{eq_refl}
use ai_agents_carrier.Graph.Merging.{
  is_uncounted, count_in, unmarked-kept, marked-count, other-kept, uncounted-none, uncounted-other,
}

-- whether a visit is of the step, and does work that counts
abbrev counts_for : Step → Visit → State → ℕ
counts_for step v state = if str_eq v.id step.id && works step v.body state then 1 else 0

-- how often the step does such work in a superstep, in visits that return
unfoldable pub worked : Step → ℕ → List Step → List Visit → State → ℕ
unfolding visit
worked step max_iterations steps [] state = 0
worked step max_iterations steps (v ∷ visits) state =
    (elim (visit max_iterations steps v state) [
      | raised e ↦ 0
      | returned update ↦ counts_for step v state
    ])
    + worked step max_iterations steps visits state

-- No node with the loop guard is merged after the step in a superstep; so it is visited once there at most.
abbrev pub merged_last : Step → List Step → List Visit → Bool
merged_last step steps [] = true
merged_last step steps (v ∷ visits) =
    let later = merged_last step steps visits in
    if str_eq v.id step.id then all (is_uncounted steps) visits else later

module _ (max_iterations : ℕ) (steps : List Step) (step : Step)
    (known : find_step step.id steps ≡ some step) (guarded : loop_guarded step ≡ true)
    (state : State) where
  abbrev limit : ℕ
  limit = loops_of max_iterations step

  abbrev work_of : List Visit → ℕ
  work_of visits = worked step max_iterations steps visits state

  -- what a visit of the step itself does
  data IsOwn (v : Visit) (update : Update) : Type 0 where
    idle : update.visit_counts ≡ none → counts_for step v state ≡ 0 → IsOwn v update
    busy :
        IsCounted max_iterations step state update.visit_counts
        → counts_for step v state ≡ 1
        → IsOwn v update

  visit-IsOwn :
      (v : Visit) {update : Update}
      → str_eq v.id step.id ≡ true
      → visit max_iterations steps v state ≡ returned update
      → IsOwn v update
  visit-IsOwn v {update} t h =
      let it = visit-IsVisited max_iterations steps v state h in
      let same : it.found ≡ step = eq_of_some (
        sym it.known
        ∙ subst (λ i. find_step i steps ≡ some step) (sym ((eq_iff v.id step.id).0 t)) known) in
      own (
        subst (λ s. IsCounting max_iterations s (works s v.body state) state update.visit_counts)
          same it.counting)
    where
      own :
          IsCounting max_iterations step (works step v.body state) state update.visit_counts
          → IsOwn v update
      own (left_alone e lazy) =
          let w : works step v.body state ≡ false = rw guarded at lazy in idle e (rw t (rw w refl))
      own (one_more counted work) =
          let w : works step v.body state ≡ true = rw guarded at work in
          busy counted (rw t (rw w refl))

  -- nodes without the loop guard do no work of the step, and leave its count
  uncounted-work :
      (visits : List Visit) → all (is_uncounted steps) visits ≡ true → work_of visits ≡ 0
  unfolding worked
  uncounted-work [] free = refl
  uncounted-work (v ∷ visits) free =
      let both = and_parts (is_uncounted steps v) free in
      let other = uncounted-other max_iterations steps step known guarded v both.0 in
      elim (Result-cases (visit max_iterations steps v state)) [
        | inl e ↦ rw (e.1, worked) (omega (arith, uncounted-work visits both.1))
        | inr u ↦ rw (u.1, worked) (rw other (omega (arith, uncounted-work visits both.1)))
      ]

  uncounted-merge :
      (visits : List Visit) (now : State) {made : List Update}
      → all (is_uncounted steps) visits ≡ true
      → updates max_iterations steps visits state ≡ returned made
      → count_in step.id (merge_updates made now) ≡ count_in step.id now
  unfolding updates merge_updates
  uncounted-merge [] now {made} free h = rw (← returned_inj h) refl
  uncounted-merge (v ∷ visits) now {made} free h =
      let both = and_parts (is_uncounted steps v) free in
      let (update, e, h₁) = after_body-returned (visit max_iterations steps v state) _ h in
      let (later, e₁, h₂) = after_body-returned (updates max_iterations steps visits state) _ h₁ in
      rw (← returned_inj h₂) (
        uncounted-merge visits (apply_update update now) both.1 e₁
        ∙ unmarked-kept max_iterations steps step known guarded update now
            (uncounted-none max_iterations steps step known guarded v state e both.0))

  pub work-bound :
      (visits : List Visit)
      → merged_last step steps visits ≡ true
      → count_in step.id state ≤ limit
      → work_of visits + count_in step.id state ≤ limit
  unfolding worked
  work-bound [] last h = omega (arith, h)
  work-bound (v ∷ visits) last h = elim (Bool-cases (str_eq v.id step.id)) [
    | inr f ↦
        let later = work-bound visits (rw f at last) h in
        elim (Result-cases (visit max_iterations steps v state)) [
          | inl e ↦ rw (e.1, worked) (omega (arith, later))
          | inr u ↦ rw (u.1, worked) (rw f (omega (arith, later)))
        ]
    | inl t ↦
        let none_later = uncounted-work visits (rw t at last) in
        elim (Result-cases (visit max_iterations steps v state)) [
          | inl e ↦ rw (e.1, worked) (omega (arith, none_later, h))
          | inr u ↦ elim (visit-IsOwn v t u.1) [
            | idle _ zero_work ↦ rw (u.1, worked) (omega (arith, zero_work, none_later, h))
            | busy counted one_work ↦
                rw (u.1, worked) (omega (arith, one_work, none_later, counted.within))
          ]
        ]
  ]

  pub merge-count :
      (visits : List Visit) (now : State) {made : List Update}
      → merged_last step steps visits ≡ true
      → updates max_iterations steps visits state ≡ returned made
      → count_in step.id now ≡ count_in step.id state
      → count_in step.id (merge_updates made now) ≡ work_of visits + count_in step.id state
  unfolding updates merge_updates worked
  merge-count [] now {made} last h agree = rw (← returned_inj h) (omega (arith, agree))
  merge-count (v ∷ visits) now {made} last h agree =
      let (update, e, h₁) = after_body-returned (visit max_iterations steps v state) _ h in
      let (later, e₁, h₂) = after_body-returned (updates max_iterations steps visits state) _ h₁ in
      elim (Bool-cases (str_eq v.id step.id)) [
        | inr f ↦ rw (← returned_inj h₂) (
            rw (e, worked)
              (rw f (
                omega (
                  arith,
                  merge-count visits (apply_update update now) (rw f at last) e₁
                      (other-kept max_iterations steps step known guarded v state now e f agree),
                ))))
        | inl t ↦
            let rest = uncounted-merge visits (apply_update update now) (rw t at last) e₁ in
            let none_later = uncounted-work visits (rw t at last) in
            rw (← returned_inj h₂) (
              rw (e, worked)
                (elim (visit-IsOwn v t e) [
                  | idle unmarked zero_work ↦
                      let kept =
                        unmarked-kept max_iterations steps step known guarded update now unmarked in
                      omega (arith, rest, none_later, zero_work, kept, agree)
                  | busy counted one_work ↦
                      let grown : count_in step.id (apply_update update now)
                          ≡ suc (count_in step.id state) =
                        rw (eq_refl step.id) at (
                          marked-count max_iterations steps step known guarded update step.id _
                            state now counted.counts agree) in
                      omega (arith, rest, none_later, one_work, grown)
                ]))
      ]
