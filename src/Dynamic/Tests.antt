-- ===== src/Dynamic/Tests.antt =====
-- A run of two jobs, on which the theorems about the DAG of jobs are tried.
use ai_agents_carrier.Base.{
  String, strip, is_space, ◌≡◌, ◌↔◌, refl, ◌⊎◌, true, false, none, some, List, [], ◌∷◌, Memᴰ,
  length, ◌≤◌, arith,
}
use ai_agents_carrier.Dynamic.Model.{
  JobCategory, AutomationMode, JobSpec, DynamicConfig, Job, RunStatus, MetaDecision, ActionKind,
}
use ai_agents_carrier.Dynamic.Record.{running, newest, log}
use ai_agents_carrier.Dynamic.Cyclic.{HasLoop, has_cycle_iff}
use ai_agents_carrier.Dynamic.Dispatcher.{
  has_cycle, report, gather, is_id, check_agent, check_assignment, put_node, put_nodes, visit,
  visit_roots, has_cycle, check_new, check_each_new, check_dependency, check_slots, validate_jobs,
}
use ai_agents_carrier.Dynamic.Dag.{JobDag, on_job, change_job}
use ai_agents_carrier.Dynamic.Events.{Event, finished, result, lost, ingest, ingest_all}
use ai_agents_carrier.Dynamic.Actions.{new_job, add_each, add_job, do_add_jobs, act, act_each}
use ai_agents_carrier.Dynamic.Meta.{
  Ask, decide, validate, check_action, lacks_field, check_target, check_update, structure_errors,
  apply_actions, check_situations, check_settled, settled, leave_planning, check_job,
  check_dependencies,
}
use ai_agents_carrier.Dynamic.Launching.{
  launch, launch_each, launch_ready, is_ready, cap, new_attempt, started,
}
use ai_agents_carrier.Dynamic.Ending.{run}
use ai_agents_carrier.Dynamic.Schedule.{
  outcome, schedule_open, decide_next, rounds, resolve, start, load_live, load_each,
  gated_situations,
}
use ai_agents_carrier.Dynamic.Outcome.{Fits, schedule_open-Fits}
use ai_agents_carrier.Dynamic.Caps.{launch_ready-cap, launch_ready-ready}
use ai_agents_carrier.Dynamic.Reports.{ingest-once}
use ai_agents_carrier.Dynamic.Retry.{is_stuck, reset_for_retry, reset_for_retry_lem}
use ai_agents_carrier.Base.{all, not, is_empty}
use ai_agents_carrier.Dynamic.Record.{open_decisions}
use ai_agents_carrier.Dynamic.Plans.{decide-IsSound, IsSound}

abbrev config : DynamicConfig
config = record {
  agent_pool = record { agent_id = "coder"; max_instances = 2; categories = [] } ∷ [];
  jobs = record {
    planning = record { min = 0; max = 5 };
    execution = record { min = 0; max = 8 };
    validation = record { min = 0; max = 4 };
    integration = record { min = 0; max = 1 };
  };
  plan = none;
  datasources = [];
  automation = AutomationMode.bypass;
  limits = record {
    max_total_jobs = 30;
    max_retries = 2;
    max_rearrangements = 10;
    max_replans = 2;
    max_parallel = 4;
  };
}

abbrev spec_of : String → List String → JobSpec
spec_of id deps = record {
  id = id;
  category = JobCategory.execution;
  agent_id = "coder";
  title = "";
  prompt = "do it";
  depends_on = deps;
  owns = [];
  datasources = [];
}

abbrev first_job : Job
first_job = new_job (spec_of "a" [])

abbrev second_job : Job
second_job = new_job (spec_of "b" ("a" ∷ []))

abbrev dag_of : List Job → RunStatus → JobDag
dag_of jobs status = record {
  config = config;
  state = record {
    status = status;
    jobs = jobs;
    decisions = [];
    events = [];
    situations = [];
    replans = 0;
    rearrangements = 0;
    finished = false;
    summary = none;
    error = none;
  };
  live = [];
  launches = [];
  cancels = [];
  deliveries = [];
  messages = [];
}

abbrev two_jobs : JobDag
two_jobs = dag_of (first_job ∷ second_job ∷ []) RunStatus.running

-- a meta-agent that adds the two jobs
abbrev plan_both : MetaDecision
plan_both = record {
  summary = "two parts";
  actions =
      record {
        kind = ActionKind.add_jobs;
        jobs = spec_of "a" [] ∷ spec_of "b" ("a" ∷ []) ∷ [];
        job_id = none;
        job_ids = [];
        text = "";
        interrupt = false;
        restart = false;
        changes = [];
      }
      ∷ [];
}

abbrev planner : Ask
planner dag situations errors = some plan_both

launch_ready-cap_example : length (running (launch_ready two_jobs).state) ≤ 4
launch_ready-cap_example = launch_ready-cap two_jobs (omega arith)

launch_ready-ready_example :
    Memᴰ (record { job = started first_job; attempt = new_attempt first_job }) two_jobs.launches
    ⊎ ((job : Job) × Memᴰ job two_jobs.state.jobs
        × (is_ready two_jobs.state job ≡ true)
        × (started first_job ≡ started job))
unfolding launch_ready launch_each launch is_ready cap on_job change_job log newest
launch_ready-ready_example =
    launch_ready-ready two_jobs
      (record { job = started first_job; attempt = new_attempt first_job }) (Memᴰ.head refl)

schedule_open-Fits_example :
    Fits run (outcome (launch_ready two_jobs)).0.state (outcome (launch_ready two_jobs)).0
unfolding schedule_open decide_next load_live load_each gated_situations ingest_all resolve start
    rounds outcome launch_ready launch_each launch is_ready cap on_job change_job log newest
schedule_open-Fits_example = schedule_open-Fits planner [] none false two_jobs refl

abbrev in_flight_dag : JobDag
in_flight_dag = dag_of (started first_job ∷ second_job ∷ []) RunStatus.running

abbrev first_done : Event
first_done = record {
  job_id = "a";
  attempt = 1;
  report = result (record {
    status = finished;
    output = none;
    error = none;
    questions = [];
    unread_messages = [];
    child_run_id = none;
  });
}

abbrev first_lost : Event
first_lost = record { job_id = "a"; attempt = 1; report = lost }

ingest-once_example :
    ingest first_lost (ingest first_done in_flight_dag) ≡ ingest first_done in_flight_dag
ingest-once_example = ingest-once first_done first_lost in_flight_dag refl refl refl

abbrev empty_dag : JobDag
empty_dag = dag_of [] RunStatus.planning

decide-IsSound_example :
    (after : JobDag) × (apply_actions plan_both empty_dag ≡ some after) × IsSound after
unfolding decide validate check_action lacks_field check_target check_update structure_errors
    apply_actions check_situations check_settled settled leave_planning check_job check_dependencies
    act_each act do_add_jobs add_each add_job log newest report gather is_id check_agent
    check_assignment put_node put_nodes visit visit_roots has_cycle check_new check_each_new
    check_dependency check_slots validate_jobs strip is_space
decide-IsSound_example = decide-IsSound planner empty_dag [] refl

reset_for_retry_lem_example :
    (all (λ j. not (is_stuck j.status)) (reset_for_retry in_flight_dag.state).jobs ≡ true)
    × (is_empty (open_decisions (reset_for_retry in_flight_dag.state)) ≡ true)
reset_for_retry_lem_example = reset_for_retry_lem in_flight_dag.state

has_cycle_iff_example :
    (has_cycle (("a", "b" ∷ []) ∷ ("b", "a" ∷ []) ∷ []) ≡ true)
    ↔ HasLoop (("a", "b" ∷ []) ∷ ("b", "a" ∷ []) ∷ [])
has_cycle_iff_example = has_cycle_iff (("a", "b" ∷ []) ∷ ("b", "a" ∷ []) ∷ [])
