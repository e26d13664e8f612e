-- ===== src/Graph/Merging.antt =====
-- What the updates of a superstep make of the visit counts of app/infrastructure/orchestration/yaml_graph.py
-- when they are merged one after another.
use ai_agents_carrier.Base.{
  String, ℕ, Bool, true, false, not, Option, none, some, List, [], ◌∷◌, ◌++◌, ◌≡◌, refl, sym, subst,
  ◌⊎◌, inl, inr, ◌∙◌, str_eq, eq_iff, arith, Bool-cases, false_of_not, if◌then◌else◌,
}
use ai_agents_carrier.Graph.Model.{
  Counts, State, Update, count_of, or_empty, merge_dicts, apply_update,
}
use ai_agents_carrier.Graph.Guards.{loop_guarded, Step, returned}
use ai_agents_carrier.Graph.Runs.{Visit, find_step, visit}
use ai_agents_carrier.Graph.Counting.{left_alone, one_more, visit-IsVisited}

-- a visit of a node without the loop guard, which writes no counts
abbrev pub is_uncounted : List Step → Visit → Bool
is_uncounted steps v = elim (find_step v.id steps) [
  | none ↦ true
  | some step ↦ not (loop_guarded step)
]

count_of-append_self :
    (id : String) (counts : Counts) (rest : Counts)
    → (count_of id (counts ++ rest) ≡ count_of id counts)
      ⊎ (count_of id (counts ++ rest) ≡ count_of id rest)
unfolding count_of
count_of-append_self id [] rest = inr refl
count_of-append_self id (entry ∷ counts) rest = ground (arith, count_of-append_self id counts rest)

-- the counts of a state, with one changed, over counts that agree with them for an id
count_of-merge :
    (id own : String) (n : ℕ) (old seen : Option Counts)
    → count_of id (or_empty old) ≡ count_of id (or_empty seen)
    → count_of id (or_empty (merge_dicts old (some ((own, n) ∷ or_empty seen))))
      ≡ (if str_eq own id then n else count_of id (or_empty seen))
unfolding count_of merge_dicts
count_of-merge id own n none seen agree = refl
count_of-merge id own n (some counts) seen agree = elim (Bool-cases (str_eq own id)) [
  | inl t ↦ rw t refl
  | inr f ↦
      rw f (elim (count_of-append_self id (or_empty seen) counts) [ inl e ↦ e | inr e ↦ e ∙ agree ])
]

-- the count of a step in a state
abbrev pub count_in : String → State → ℕ
count_in id state = count_of id (or_empty state.visit_counts)

module _ (max_iterations : ℕ) (steps : List Step) (step : Step)
    (known : find_step step.id steps ≡ some step) (guarded : loop_guarded step ≡ true) where
  -- merging an update of the superstep that saw `state` into `now`, while the two agree on the step's count
  pub unmarked-kept :
      (update : Update) (now : State)
      → update.visit_counts ≡ none
      → count_in step.id (apply_update update now) ≡ count_in step.id now
  unfolding apply_update merge_dicts
  unmarked-kept update now e = rw e refl

  pub marked-count :
      (update : Update) (own : String) (n : ℕ) (state now : State)
      → update.visit_counts ≡ some ((own, n) ∷ or_empty state.visit_counts)
      → count_in step.id now ≡ count_in step.id state
      → count_in step.id (apply_update update now)
        ≡ (if str_eq own step.id then n else count_in step.id state)
  unfolding apply_update
  marked-count update own n state now e agree =
      rw e (count_of-merge step.id own n now.visit_counts state.visit_counts agree)

  -- a visit of another node
  pub other-kept :
      (v : Visit) (state now : State) {update : Update}
      → visit max_iterations steps v state ≡ returned update
      → str_eq v.id step.id ≡ false
      → count_in step.id now ≡ count_in step.id state
      → count_in step.id (apply_update update now) ≡ count_in step.id state
  other-kept v state now {update} h f agree =
      let it = visit-IsVisited max_iterations steps v state h in
      elim it.counting [
        | left_alone e _ ↦ unmarked-kept update now e ∙ agree
        | one_more counted _ ↦
            let apart : str_eq it.found.id step.id ≡ false =
              subst (λ i. str_eq i step.id ≡ false) (sym it.named) f in
            marked-count update it.found.id _ state now counted.counts agree ∙ rw apart refl
      ]

  -- a visit of a node without the loop guard
  pub uncounted-none :
      (v : Visit) (state : State) {update : Update}
      → visit max_iterations steps v state ≡ returned update
      → is_uncounted steps v ≡ true
      → update.visit_counts ≡ none
  uncounted-none v state h free =
      let it = visit-IsVisited max_iterations steps v state h in
      let plain : not (loop_guarded it.found) ≡ true = rw (it.known, is_uncounted) at free in
      elim it.counting [
        | left_alone e _ ↦ e
        | one_more _ busy ↦ cc (rw (false_of_not (loop_guarded it.found) plain) at busy)
      ]

  pub uncounted-other : (v : Visit) → is_uncounted steps v ≡ true → str_eq v.id step.id ≡ false
  uncounted-other v free = elim (Bool-cases (str_eq v.id step.id)) [
    | inr f ↦ f
    | inl t ↦
        let same : find_step v.id steps ≡ some step =
          subst (λ i. find_step i steps ≡ some step) (sym ((eq_iff v.id step.id).0 t)) known in
        cc (rw guarded at (rw (same, is_uncounted) at free))
  ]
