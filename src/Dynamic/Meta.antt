-- ===== src/Dynamic/Meta.antt =====
-- The checks of a decision of the meta-agent in app/infrastructure/orchestration/dynamic/engine.py, and
-- how `decide` of app/infrastructure/orchestration/dynamic/meta_agent.py repairs an answer once. The
-- model that answers is a parameter.
use ai_agents_carrier.Base.{
  String, Bool, true, false, not, ◌&&◌, ◌||◌, Option, none, some, List, [], ◌∷◌, ◌++◌, map, any,
  all, filter, length, contains, is_empty, is_set, truthy, strip, ltb, if◌then◌else◌,
}
use ai_agents_carrier.Dynamic.Model.{
  Job, JobSpec, Situation, About, Change, MetaAction, MetaDecision, ActionKind, add_jobs,
  update_job, rewind, remove, answer, message, ask_human, finish, AutomationMode, DecisionKind,
  DynamicConfig, DynamicRunState, Problem, field_required, nobody_answers, no_job, cannot_change,
  is_running, no_actions, no_phase, raised, not_parsed, unsettled, cycle, unknown_dependency,
  too_many_jobs, RunStatus,
}
use ai_agents_carrier.Dynamic.Record.{active, active_jobs, is_finished}
use ai_agents_carrier.Dynamic.Record
use ai_agents_carrier.Dynamic.Dispatcher.{
  report, gather, check_assignment, check_slots, has_cycle, put_nodes,
}
use ai_agents_carrier.Dynamic.Dag.{JobDag, on_state}
use ai_agents_carrier.Dynamic.Actions.{act_each}

-- ─── kinds of actions ───

abbrev pub same_kind : ActionKind → ActionKind → Bool
same_kind add_jobs add_jobs = true
same_kind update_job update_job = true
same_kind rewind rewind = true
same_kind remove remove = true
same_kind answer answer = true
same_kind message message = true
same_kind ask_human ask_human = true
same_kind finish finish = true
same_kind ActionKind.fail ActionKind.fail = true
same_kind _ _ = false

abbrev pub kind_in : List ActionKind → MetaAction → Bool
kind_in kinds a = any (same_kind a.kind) kinds

-- `kinds & {…}` and `kinds <= {…}`
abbrev pub has_kind : List ActionKind → MetaDecision → Bool
has_kind kinds decision = any (kind_in kinds) decision.actions

abbrev only_kinds : List ActionKind → MetaDecision → Bool
only_kinds kinds decision = all (kind_in kinds) decision.actions

-- `_BLOCKING`, `_PHASE`, and the reactions of a human
abbrev is_blocking : About → Bool
is_blocking (About.question questions) = true
is_blocking (About.live_question child question) = true
is_blocking About.needs_help = true
is_blocking (About.failure error attempts) = true
is_blocking _ = false

abbrev is_phase : About → Bool
is_phase About.start = true
is_phase About.phase_done = true
is_phase _ = false

abbrev is_human : About → Bool
is_human (About.rejected reason) = true
is_human (About.human_answer question text) = true
is_human _ = false

-- ─── one action ───

-- `[a.job_id] if a.job_id else []`, then `a.job_ids`
abbrev pub named_by : MetaAction → List String
named_by a = elim a.job_id [
  | none ↦ a.job_ids
  | some id ↦ if truthy id then id ∷ a.job_ids else a.job_ids
]

abbrev found_active : Option Job → Bool
found_active none = false
found_active (some job) = active job

abbrev pub is_active_id : DynamicRunState → String → Bool
is_active_id state id = found_active (Record.job state id)

abbrev found_running : Option Job → Bool
found_running none = false
found_running (some job) = Record.is_running job.status

abbrev id_or_empty : Option String → String
id_or_empty none = ""
id_or_empty (some id) = id

unfoldable pub check_change : Change → List Problem
check_change (Change.unknown key) = cannot_change key ∷ []
check_change _ = []

-- whether the action lacks a field that its kind needs
unfoldable pub lacks_field : MetaAction → Bool
lacks_field a =
    kind_in (update_job ∷ answer ∷ message ∷ []) a && not (is_set a.job_id)
    || kind_in (rewind ∷ remove ∷ []) a && is_empty a.job_ids
    || kind_in (add_jobs ∷ []) a && is_empty a.jobs
    || kind_in (answer ∷ message ∷ ask_human ∷ ActionKind.fail ∷ []) a
      && not (truthy (strip a.text))

abbrev asks_nobody : DynamicConfig → MetaAction → Bool
asks_nobody config a =
    kind_in (ask_human ∷ []) a
    && (elim config.automation [ AutomationMode.bypass ↦ true | _ ↦ false ])

unfoldable pub check_target : DynamicRunState → String → List Problem
unfolding report
check_target state id = report (not (is_active_id state id)) (no_job id)

unfoldable pub check_update : DynamicRunState → MetaAction → List Problem
unfolding gather check_change report
check_update state a =
    if kind_in (update_job ∷ []) a
    then gather check_change a.changes
      ++ report (found_running (Record.job state (id_or_empty a.job_id)))
          (is_running (id_or_empty a.job_id))
    else []

unfoldable pub check_action : JobDag → MetaAction → List Problem
unfolding lacks_field check_target check_update gather
check_action dag a =
    if lacks_field a
    then field_required a.kind ∷ []
    else (if asks_nobody dag.config a
        then nobody_answers ∷ []
        else gather (check_target dag.state) (named_by a) ++ check_update dag.state a)

-- ─── the result ───

abbrev pub active_specs : DynamicRunState → List JobSpec
active_specs state = map (λ j. j.spec) (active_jobs state)

unfoldable pub check_dependencies : List String → JobSpec → List Problem
unfolding gather report
check_dependencies ids job =
    gather (λ dep. report (not (contains ids dep)) (unknown_dependency job.id dep)) job.depends_on

unfoldable pub check_job : DynamicConfig → List JobSpec → JobSpec → List Problem
unfolding check_dependencies check_assignment
check_job config specs job =
    check_dependencies (map (λ s. s.id) specs) job ++ check_assignment job config

unfoldable pub structure_errors : JobDag → List Problem
unfolding gather report check_job has_cycle put_nodes check_slots
structure_errors dag =
    let specs = active_specs dag.state in
    gather (check_job dag.config specs) specs
    ++ report (has_cycle (put_nodes specs [])) cycle
    ++ check_slots dag.config specs
    ++ report (ltb dag.config.limits.max_total_jobs (length dag.state.jobs)) too_many_jobs

-- the jobs that an action of the decision names
unfoldable pub settled : List MetaAction → List String
settled [] = []
settled (a ∷ actions) = named_by a ++ settled actions

unfoldable pub check_settled : JobDag → List String → Situation → List Problem
unfolding report
check_settled dag ids s = elim s.job_id [
  | none ↦ []
  | some id ↦
      report
        (is_blocking s.about && truthy id && not (contains ids id) && is_active_id dag.state id)
        (unsettled id)
]

abbrev plans : MetaDecision → Bool
plans decision = has_kind (add_jobs ∷ ask_human ∷ rewind ∷ update_job ∷ []) decision

unfoldable pub check_situations : JobDag → MetaDecision → List Situation → List Problem
unfolding gather check_settled settled report
check_situations dag decision situations =
    if has_kind (finish ∷ ActionKind.fail ∷ []) decision
    then []
    else gather (check_settled dag (settled decision.actions)) situations
      ++ report (any (λ s. is_phase s.about) situations && not (plans decision)) no_phase

-- `_apply` with `dry_run`: what follows the actions
unfoldable pub leave_planning : DynamicRunState → DynamicRunState
leave_planning state = elim state.status [
  | RunStatus.planning ↦
      if is_empty state.jobs then state else record state { status = RunStatus.running }
  | _ ↦ state
]

abbrev left_planning : Option JobDag → Option JobDag
left_planning none = none
left_planning (some dag) = some (on_state leave_planning dag)

unfoldable pub apply_actions : MetaDecision → JobDag → Option JobDag
unfolding act_each leave_planning
apply_actions decision dag = left_planning (act_each decision.actions dag)

unfoldable pub validate : JobDag → List Situation → MetaDecision → List Problem
unfolding gather check_action apply_actions structure_errors check_situations
validate dag situations decision =
    let errors = gather (check_action dag) decision.actions in
    if is_empty decision.actions
    then no_actions ∷ []
    else (if not (is_empty errors) then errors else (elim (apply_actions decision dag) [
      | none ↦ raised ∷ []
      | some trial ↦ structure_errors trial ++ check_situations dag decision situations
    ]))

-- ─── the answer ───

-- What the model answers to a view of the run, when it is told what was wrong with its previous
-- answer; `none` is an answer that is no decision.
abbrev pub Ask : Type 0
Ask = JobDag → List Situation → List Problem → Option MetaDecision

abbrev pub errors_of : JobDag → List Situation → Option MetaDecision → List Problem
errors_of dag situations none = not_parsed ∷ []
errors_of dag situations (some decision) = validate dag situations decision

abbrev pub accepted : List Problem → Option MetaDecision → Option MetaDecision
accepted [] decision = decision
accepted (e ∷ errors) decision = none

-- `none` stands for `DispatcherError`
unfoldable pub decide : Ask → JobDag → List Situation → Option MetaDecision
unfolding validate
decide ask dag situations =
    let first = ask dag situations [] in
    let second = ask dag situations (errors_of dag situations first) in
    if is_empty (errors_of dag situations first)
    then first
    else accepted (errors_of dag situations second) second

-- ─── its approval ───

-- a decision that drops work that is not finished
abbrev drops_work : JobDag → MetaDecision → Bool
drops_work dag decision =
    has_kind (finish ∷ []) decision && any (λ j. not (is_finished j.status)) (active_jobs dag.state)

unfoldable pub kind_of : JobDag → MetaDecision → List Situation → Option DecisionKind
kind_of dag decision situations =
    let about = filter (λ s. not (is_human s.about)) situations in
    let phase = all (λ s. is_phase s.about) about && only_kinds (add_jobs ∷ finish ∷ []) decision in
    if has_kind (rewind ∷ remove ∷ update_job ∷ add_jobs ∷ []) decision || drops_work dag decision
    then some (if phase then DecisionKind.plan else DecisionKind.rearrange)
    else none
