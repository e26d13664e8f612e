-- ===== src/Graph/Counting.antt =====
-- What one visit of a node of app/infrastructure/orchestration/yaml_graph.py writes to the visit counts.
use ai_agents_carrier.Base.{
  ℕ, suc, ◌≤◌, Bool, true, false, not, ◌&&◌, Option, none, some, List, ◌∷◌, ◌≡◌, refl, sym, subst,
  inl, inr, ap, str_eq, is_set, ltb, arith, Bool-cases, Option-cases, eq_iff, find?-some,
}
use ai_agents_carrier.Graph.Model.{
  Counts, State, Output, Update, absent, is_skipped, count_of, or_empty,
}
use ai_agents_carrier.Graph.Guards.{
  Step, Body, Result, raised, returned, loop_guarded, loops_of, skips, blocks, fail_guarded,
  counted, with_loop_guard, with_when, cleared, with_fail_guard, make_node,
}
use ai_agents_carrier.Graph.Runs.{after_body-returned, returned_inj, Visit, find_step, visit}

abbrev pub gives_output : Result Output → Bool
gives_output (raised e) = false
gives_output (returned output) = not (is_skipped output)

-- whether a step is not skipped and its body returns an output that is not empty
abbrev pub works : Step → Body → State → Bool
works step body state = not (skips step state) && gives_output (body state)

pub record IsCounted (max_iterations : ℕ) (step : Step) (state : State) (written : Option Counts)
    : Type 0 where
  pub counts :
      written
      ≡ some (
          (step.id, suc (count_of step.id (or_empty state.visit_counts)))
          ∷ or_empty state.visit_counts)
  pub within : suc (count_of step.id (or_empty state.visit_counts)) ≤ loops_of max_iterations step

-- A visit leaves the counts alone, or, where a guarded step does work, writes the counts that it sees with
-- one more of its own, which the limit allows.
pub data IsCounting (max_iterations : ℕ) (step : Step) (work : Bool) (state : State)
    (written : Option Counts) : Type 0 where
  left_alone :
      written ≡ none
      → (loop_guarded step && work) ≡ false
      → IsCounting max_iterations step work state written
  one_more :
      IsCounted max_iterations step state written
      → (loop_guarded step && work) ≡ true
      → IsCounting max_iterations step work state written

and_false : (b : Bool) → (b && false) ≡ false
and_false true = refl
and_false false = refl

module _ (max_iterations : ℕ) (step : Step) (state : State) where
  pub counted-IsCounting :
      (output : Output) {update : Update}
      → loop_guarded step ≡ true
      → counted max_iterations step state output ≡ returned update
      → IsCounting max_iterations step (not (is_skipped output)) state update.visit_counts
  unfolding counted
  counted-IsCounting output {update} guarded h = elim (Bool-cases (is_skipped output)) [
    | inl t ↦
        left_alone (sym (ap (λ u. u.visit_counts) (returned_inj (rw t at h))))
          (rw t (and_false (loop_guarded step)))
    | inr f ↦
        elim (Bool-cases (
          ltb (loops_of max_iterations step)
            (suc (count_of step.id (or_empty state.visit_counts))))) [
              | inl t ↦ cc (rw (f, t) at h)
              | inr g ↦
                  one_more
                    record {
                      counts = sym (ap (λ u. u.visit_counts) (returned_inj (rw (f, g) at h)));
                      within = ground arith;
                    }
                    (rw guarded (rw f refl))
            ]
  ]

  loop_guard-IsCounting :
      (body : Body) {update : Update}
      → with_loop_guard max_iterations step body state ≡ returned update
      → IsCounting max_iterations step (gives_output (body state)) state update.visit_counts
  unfolding with_loop_guard
  loop_guard-IsCounting body {update} h =
      let r = after_body-returned (body state) _ h in
      elim (Bool-cases (loop_guarded step)) [
        | inl t ↦ rw r.1 (counted-IsCounting r.0 t (rw t at r.2))
        | inr f ↦
            left_alone (sym (ap (λ u. u.visit_counts) (returned_inj (rw f at r.2)))) (rw f refl)
      ]

  when-IsCounting :
      (body : Body) {update : Update}
      → with_when step (with_loop_guard max_iterations step body) state ≡ returned update
      → IsCounting max_iterations step (works step body state) state update.visit_counts
  unfolding with_when
  when-IsCounting body {update} h = elim (Bool-cases (skips step state)) [
    | inl t ↦
        left_alone (sym (ap (λ u. u.visit_counts) (returned_inj (rw t at h))))
          (rw t (and_false (loop_guarded step)))
    | inr f ↦ rw f (loop_guard-IsCounting body (rw f at h))
  ]

  cleared-counts : (update : Update) → (cleared state update).visit_counts ≡ update.visit_counts
  unfolding cleared
  cleared-counts update =
      elim (Bool-cases (is_set state.failed_step && absent update.output.failed_step)) [
        | inl t ↦ rw t refl
        | inr f ↦ rw f refl
      ]

  pub make_node-IsCounting :
      (body : Body) {update : Update}
      → make_node max_iterations step body state ≡ returned update
      → IsCounting max_iterations step (works step body state) state update.visit_counts
  unfolding make_node with_fail_guard
  make_node-IsCounting body {update} h = elim (Bool-cases (fail_guarded step)) [
    | inr f ↦ when-IsCounting body (rw f at h)
    | inl t ↦ elim (Bool-cases (blocks step state)) [
      | inl b ↦ cc (rw (t, b) at h)
      | inr f ↦
          let r =
            after_body-returned (with_when step (with_loop_guard max_iterations step body) state) _
              (rw (t, f) at h) in
          subst (λ u. IsCounting max_iterations step (works step body state) state u.visit_counts)
            (returned_inj r.2)
            (subst (IsCounting max_iterations step (works step body state) state)
              (sym (cleared-counts r.0)) (when-IsCounting body r.1))
    ]
  ]

module _ (max_iterations : ℕ) (steps : List Step) where
  -- the step of a node that returns, and what it writes
  pub record IsVisited (v : Visit) (state : State) (update : Update) : Type 0 where
    pub found : Step
    pub known : find_step v.id steps ≡ some found
    pub named : found.id ≡ v.id
    pub counting :
        IsCounting max_iterations found (works found v.body state) state update.visit_counts

  pub visit-IsVisited :
      (v : Visit) (state : State) {update : Update}
      → visit max_iterations steps v state ≡ returned update
      → IsVisited v state update
  unfolding visit
  visit-IsVisited v state {update} e = elim (Option-cases (find_step v.id steps)) [
    | inl n ↦ cc (rw (n, visit) at e)
    | inr found ↦ record {
      found = found.0;
      known = found.1;
      named = (eq_iff found.0.id v.id).0 (find?-some (λ s. str_eq s.id v.id) steps found.1).1;
      counting =
          make_node-IsCounting max_iterations found.0 state v.body (rw (found.1, visit) at e);
    }
  ]
