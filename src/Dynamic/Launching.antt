-- ===== src/Dynamic/Launching.antt =====
-- `_ready` and `_launch_ready` of app/infrastructure/orchestration/dynamic/engine.py. The feedback of an
-- attempt and the payload of a launch, texts that only the agent reads, are left out.
use ai_agents_carrier.Base.{
  String, ℕ, suc, Bool, false, ◌&&◌, Option, none, some, List, [], ◌∷◌, ◌++◌, map, length, all,
  count, filter, leb, str_eq, if◌then◌else◌,
}
use ai_agents_carrier.Dynamic.Model.{
  DynamicConfig, Job, JobAttempt, JobStatus, AttemptStatus, Reason, DynamicRunState, RunStatus,
}
use ai_agents_carrier.Dynamic.Record.{is_pending, is_done, pool_entry, log, running}
use ai_agents_carrier.Dynamic.Record
use ai_agents_carrier.Dynamic.Dag.{JobDag, on_job, on_state, record_event}

abbrev pub done_in : DynamicRunState → String → Bool
done_in state id = elim (Record.job state id) [ none ↦ false | some job ↦ is_done job.status ]

-- pending, and all it depends on is done
unfoldable pub is_ready : DynamicRunState → Job → Bool
is_ready state job = is_pending job.status && all (done_in state) job.spec.depends_on

abbrev pub ready : DynamicRunState → List Job
ready state = filter (is_ready state) state.jobs

-- `entry.max_instances if entry else 1`
unfoldable pub cap : DynamicConfig → String → ℕ
cap config agent_id = elim (pool_entry config agent_id) [
  | none ↦ 1
  | some entry ↦ entry.max_instances
]

abbrev reason_of : Option Reason → Reason
reason_of none = Reason.initial
reason_of (some r) = r

abbrev pub new_attempt : Job → JobAttempt
new_attempt job = record {
  n = suc (length job.attempts);
  child_run_id = none;
  status = AttemptStatus.running;
  reason = reason_of job.pending_reason;
  output = none;
  error = none;
  questions = [];
}

abbrev pub started : Job → Job
started job = record job {
  attempts = job.attempts ++ (new_attempt job ∷ []);
  status = JobStatus.running;
  pending_reason = none;
  pending_answers = none;
}

unfoldable pub launch : Job → JobDag → JobDag
unfolding on_job log
launch job dag =
    let begun =
      record_event "attempt_started" (some job.spec.id) (
        on_state (λ s. record s { status = RunStatus.running }) (on_job job.spec.id started dag)) in
    record begun {
      launches = dag.launches ++ (record { job = started job; attempt = new_attempt job } ∷ []);
    }

-- `per_agent.get(agent_id, 0)`, where the dict of counts is a list that holds an agent once for each
-- job that it runs
abbrev pub tally : String → List String → ℕ
tally agent_id busy = count (λ a. str_eq a agent_id) busy

-- The loop of `_launch_ready`. `busy` holds the agent of every job that runs or was launched, so its
-- length is `len(running) + len(launches)`.
unfoldable pub launch_each : List String → List Job → JobDag → JobDag
unfolding launch cap
launch_each busy [] dag = dag
launch_each busy (job ∷ jobs) dag =
    let next = launch_each (job.spec.agent_id ∷ busy) jobs (launch job dag) in
    let same = launch_each busy jobs dag in
    if leb dag.config.limits.max_parallel (length busy)
    then dag
    else (if leb (cap dag.config job.spec.agent_id) (tally job.spec.agent_id busy)
        then same
        else next)

unfoldable pub launch_ready : JobDag → JobDag
unfolding launch_each is_ready
launch_ready dag =
    launch_each (map (λ j. j.spec.agent_id) (running dag.state)) (ready dag.state) dag
