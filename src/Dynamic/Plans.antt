-- ===== src/Dynamic/Plans.antt =====
-- What a decision that the checks accept makes of the DAG: `decide` of
-- app/infrastructure/orchestration/dynamic/meta_agent.py with `validate` of engine.py beside it.
use ai_agents_carrier.Base.{
  String, ℕ, ◌≤◌, ◌≡◌, refl, ap, ◌∙◌, subst, inl, inr, Bool, true, false, not, Option, none, some,
  List, [], ◌∷◌, ◌++◌, map, Memᴰ, length, is_empty, contains, leb, ltb, arith, Bool-cases,
  eq_of_some, if◌then◌else◌,
}
use ai_agents_carrier.Dynamic.Model.{
  JobCategory, planning, execution, validation, integration, PoolAgent, JobSpec, DynamicConfig,
  Problem, no_actions, raised, too_many, unknown_dependency, cycle, too_many_jobs, Situation,
  MetaDecision,
}
use ai_agents_carrier.Dynamic.Record.{pool_entry, slot_of}
use ai_agents_carrier.Dynamic.Dispatcher.{
  report, gather, may_fill, check_agent, check_assignment, check_slots, of_category, categories,
  has_cycle, put_nodes,
}
use ai_agents_carrier.Dynamic.Dag.{JobDag}
use ai_agents_carrier.Dynamic.Meta.{
  Ask, decide, validate, check_action, apply_actions, structure_errors, check_situations,
  check_dependencies, check_job, active_specs, errors_of, accepted,
}

-- The agent of a job is in the pool and may fill its category, and the step enables its data sources.
pub record IsAssigned (config : DynamicConfig) (job : JobSpec) : Type 0 where
  pub entry :
      (entry : PoolAgent) × (pool_entry config job.agent_id ≡ some entry)
      × (may_fill entry job.category ≡ true)
  pub enabled :
      (source : String) → Memᴰ source job.datasources → contains config.datasources source ≡ true

-- The jobs that are still in the DAG depend on each other only, without a cycle, are assigned as the
-- step allows, and keep to its numbers.
pub record IsSound (dag : JobDag) : Type 0 where
  pub closed :
      (job : JobSpec)
      → Memᴰ job (active_specs dag.state)
      → (dep : String) → Memᴰ dep job.depends_on
      → contains (map (λ j. j.id) (active_specs dag.state)) dep ≡ true
  pub assigned : (job : JobSpec) → Memᴰ job (active_specs dag.state) → IsAssigned dag.config job
  pub acyclic : has_cycle (put_nodes (active_specs dag.state) []) ≡ false
  pub slots :
      (c : JobCategory) → of_category c (active_specs dag.state) ≤ (slot_of dag.config c).max
  pub total : length dag.state.jobs ≤ dag.config.limits.max_total_jobs

nothing : {A : Type 0} (xs : List A) → is_empty xs ≡ true → xs ≡ []
nothing [] h = refl
nothing (x ∷ xs) h = cc

nothing-append : {A : Type 0} (xs ys : List A) → xs ++ ys ≡ [] → (xs ≡ []) × (ys ≡ [])
nothing-append [] ys h = (refl, h)
nothing-append (x ∷ xs) ys h = cc

report-none : (b : Bool) (e : Problem) → report b e ≡ [] → b ≡ false
unfolding report
report-none true e h = cc
report-none false e h = refl

gather-none :
    {A : Type 0} (f : A → List Problem) (xs : List A)
    → gather f xs ≡ []
    → {x : A} → Memᴰ x xs
    → f x ≡ []
unfolding gather
gather-none f [] h m = elim m [ ]
gather-none f (x ∷ xs) h (Memᴰ.head e) = ap f e ∙ (nothing-append (f x) (gather f xs) h).0
gather-none f (x ∷ xs) h (Memᴰ.tail m) = gather-none f xs (nothing-append (f x) (gather f xs) h).1 m

of_not : (b : Bool) → not b ≡ false → b ≡ true
of_not b h = ground arith

check_agent-none :
    (id : String) (c : JobCategory) (o : Option PoolAgent)
    → check_agent id c o ≡ []
    → (entry : PoolAgent) × (o ≡ some entry) × (may_fill entry c ≡ true)
unfolding check_agent
check_agent-none id c none h = cc
check_agent-none id c (some entry) h = (entry, refl, of_not (may_fill entry c) (report-none _ _ h))

check_assignment-IsAssigned :
    (config : DynamicConfig) (job : JobSpec)
    → check_assignment job config ≡ []
    → IsAssigned config job
unfolding check_assignment
check_assignment-IsAssigned config job h =
    let r = nothing-append (check_agent job.id job.category (pool_entry config job.agent_id)) _ h in
    record {
      entry = check_agent-none job.id job.category (pool_entry config job.agent_id) r.0;
      enabled = λ source m. of_not _ (report-none _ _ (gather-none _ job.datasources r.1 m));
    }

of_leb : (a b : ℕ) → leb a b ≡ true → a ≤ b
of_leb a b h = ground (arith, h)

of_ltb : (a b : ℕ) → ltb b a ≡ false → a ≤ b
of_ltb a b h = ground (arith, h)

every-category : (c : JobCategory) → Memᴰ c categories
every-category planning = Memᴰ.head refl
every-category execution = Memᴰ.tail (Memᴰ.head refl)
every-category validation = Memᴰ.tail (Memᴰ.tail (Memᴰ.head refl))
every-category integration = Memᴰ.tail (Memᴰ.tail (Memᴰ.tail (Memᴰ.head refl)))

check_slots-keeps :
    (config : DynamicConfig) (jobs : List JobSpec)
    → check_slots config jobs ≡ []
    → (c : JobCategory) → of_category c jobs ≤ (slot_of config c).max
unfolding check_slots
check_slots-keeps config jobs h c = of_leb _ _ (
    of_not _ (
      report-none _ _ (
        gather-none
          (λ k. report (not (leb (of_category k jobs) (slot_of config k).max)) (too_many k))
          categories h (every-category c))))

check_dependencies-closed :
    (ids : List String) (job : JobSpec)
    → check_dependencies ids job ≡ []
    → (dep : String) → Memᴰ dep job.depends_on
    → contains ids dep ≡ true
unfolding check_dependencies
check_dependencies-closed ids job h dep m = of_not _ (
    report-none _ _ (
      gather-none (λ d. report (not (contains ids d)) (unknown_dependency job.id d)) job.depends_on
        h m))

structure_errors-IsSound : (dag : JobDag) → structure_errors dag ≡ [] → IsSound dag
unfolding structure_errors check_job
structure_errors-IsSound dag h =
    let specs = active_specs dag.state in
    let jobs =
      report (ltb dag.config.limits.max_total_jobs (length dag.state.jobs)) too_many_jobs in
    let slots = check_slots dag.config specs in
    let loops = report (has_cycle (put_nodes specs [])) cycle in
    let each = gather (check_job dag.config specs) specs in
    let one = nothing-append ((each ++ loops) ++ slots) jobs h in
    let two = nothing-append (each ++ loops) slots one.0 in
    let three = nothing-append each loops two.0 in
    record {
      closed = λ job m.
          check_dependencies-closed (map (λ s. s.id) specs) job
            (nothing-append (check_dependencies (map (λ s. s.id) specs) job) _
              (gather-none (check_job dag.config specs) specs three.0 m)).0;
      assigned = λ job m.
          check_assignment-IsAssigned dag.config job
            (nothing-append (check_dependencies (map (λ s. s.id) specs) job) _
              (gather-none (check_job dag.config specs) specs three.0 m)).1;
      acyclic = report-none _ _ three.1;
      slots = check_slots-keeps dag.config specs two.1;
      total = of_ltb _ _ (report-none _ _ one.1);
    }

-- ─── the decision ───

errors-validated :
    (dag : JobDag) (situations : List Situation) (o : Option MetaDecision) {d : MetaDecision}
    → errors_of dag situations o ≡ []
    → o ≡ some d
    → validate dag situations d ≡ []
errors-validated dag situations none h e = cc
errors-validated dag situations (some x) h e =
    subst (λ y. validate dag situations y ≡ []) (eq_of_some e) h

accepted-errors :
    (errors : List Problem) (o : Option MetaDecision) {d : MetaDecision}
    → accepted errors o ≡ some d
    → (errors ≡ []) × (o ≡ some d)
accepted-errors [] o h = (refl, h)
accepted-errors (e ∷ errors) o h = cc

decide-validated :
    (ask : Ask) (dag : JobDag) (situations : List Situation) {d : MetaDecision}
    → decide ask dag situations ≡ some d
    → validate dag situations d ≡ []
unfolding decide
decide-validated ask dag situations h =
    let first = ask dag situations [] in
    let errors = errors_of dag situations first in
    elim (Bool-cases (is_empty errors)) [
      | inl t ↦ errors-validated dag situations first (nothing errors t) (rw t at h)
      | inr f ↦
          let r = accepted-errors _ (ask dag situations errors) (rw f at h) in
          errors-validated dag situations (ask dag situations errors) r.0 r.1
    ]

chosen :
    (b : Bool) (errors found : List Problem)
    → (if b then no_actions ∷ [] else (if not (is_empty errors) then errors else found)) ≡ []
    → found ≡ []
chosen true errors found h = cc
chosen false [] found h = h
chosen false (e ∷ errors) found h = cc

trial-IsSound :
    (trial : Option JobDag) (others : JobDag → List Problem)
    → (elim trial [ none ↦ raised ∷ [] | some after ↦ structure_errors after ++ others after ]) ≡ []
    → (after : JobDag) × (trial ≡ some after) × IsSound after
trial-IsSound none others h = cc
trial-IsSound (some after) others h = (
  after,
  refl,
  structure_errors-IsSound after (nothing-append (structure_errors after) (others after) h).0,
)

validate-IsSound :
    (dag : JobDag) (situations : List Situation) (d : MetaDecision)
    → validate dag situations d ≡ []
    → (after : JobDag) × (apply_actions d dag ≡ some after) × IsSound after
unfolding validate
validate-IsSound dag situations d h =
    trial-IsSound (apply_actions d dag) (λ after. check_situations dag d situations)
      (chosen (is_empty d.actions) (gather (check_action dag) d.actions) _ h)

-- Whenever the meta-agent's answer is taken as a decision, its actions apply to the DAG without an
-- error, and in the DAG they leave every dependency is a job that is still there, `has_cycle` finds no
-- cycle, every job has an agent of the pool that may fill its category and data sources that the step
-- enables, no category has more jobs than its slot, and the jobs are no more than the limit.
pub decide-IsSound :
    (ask : Ask) (dag : JobDag) (situations : List Situation) {d : MetaDecision}
    → decide ask dag situations ≡ some d
    → (after : JobDag) × (apply_actions d dag ≡ some after) × IsSound after
decide-IsSound ask dag situations {d} h =
    validate-IsSound dag situations d (decide-validated ask dag situations h)
