-- ===== src/Dynamic/Ending.antt =====
-- `_phase_over` and `_finish_or_fail` of app/infrastructure/orchestration/dynamic/engine.py: how a run
-- ends. The summary of the jobs, which only people read, is left out.
use ai_agents_carrier.Base.{
  String, Bool, true, false, not, ◌&&◌, ◌||◌, Option, none, some, List, [], ◌∷◌, map, any, all,
  filter, is_empty, if◌then◌else◌,
}
use ai_agents_carrier.Dynamic.Model.{
  Job, JobSpec, JobStatus, DynamicRunState, RunStatus, Failure, Problem,
}
use ai_agents_carrier.Dynamic.Record.{is_pending, is_done, is_lost, active, active_jobs, log}
use ai_agents_carrier.Dynamic.Record
use ai_agents_carrier.Dynamic.Dispatcher.{check_minimums}
use ai_agents_carrier.Dynamic.Dag.{JobDag, on_state, set_status, fail}

-- what the graph does next
pub data StepStatus : Type 0 where
  run gate completed failed : StepStatus

abbrev specified : Option (List JobSpec) → Bool
specified none = false
specified (some specs) = true

unfoldable pub phase_over : JobDag → Bool
phase_over dag =
    dag.state.finished
    || (specified dag.config.plan && all (λ j. is_done j.status) (active_jobs dag.state))

-- a dependency that is missing or lost
unfoldable pub is_broken : DynamicRunState → String → Bool
is_broken state id = elim (Record.job state id) [ none ↦ true | some job ↦ is_lost job.status ]

-- The loop over the jobs. A job that is skipped breaks none of those that depend on it, so each is
-- looked at with the statuses of the beginning.
unfoldable pub skipped : DynamicRunState → Job → Job
unfolding is_broken
skipped state job =
    if is_pending job.status && any (is_broken state) job.spec.depends_on
    then set_status JobStatus.skipped job
    else job

unfoldable pub log_skipped : List Job → DynamicRunState → DynamicRunState
unfolding log is_broken
log_skipped [] state = state
log_skipped (job ∷ jobs) state =
    let rest = log_skipped jobs state in
    let logged = log_skipped jobs (log "skipped" (some job.spec.id) state) in
    if is_pending job.status && any (is_broken state) job.spec.depends_on then logged else rest

unfoldable pub skip_broken : DynamicRunState → DynamicRunState
unfolding skipped log_skipped
skip_broken state = record (log_skipped state.jobs state) { jobs = map (skipped state) state.jobs }

abbrev pub unfinished : DynamicRunState → List Job
unfinished state = filter (λ j. not (is_done j.status)) (active_jobs state)

abbrev pub missing : JobDag → List Problem
missing dag = check_minimums (map (λ j. j.spec) (active_jobs dag.state)) dag.config

unfoldable pub conclude : JobDag → JobDag × StepStatus
unfolding check_minimums fail log
conclude dag =
    if not (is_empty (unfinished dag.state))
    then (fail (Failure.unfinished (map (λ j. j.spec.id) (unfinished dag.state))) dag, failed)
    else (if not (is_empty (missing dag))
        then (fail (Failure.minimums (missing dag)) dag, failed)
        else (
          on_state (λ s. log "completed" none (record s { status = RunStatus.completed })) dag,
          completed,
        ))

unfoldable pub finish_or_fail : JobDag → JobDag × StepStatus
unfolding skip_broken conclude
finish_or_fail dag = conclude (on_state skip_broken dag)
