-- ===== src/Dynamic/Outcome.antt =====
-- What the status that `schedule` of app/infrastructure/orchestration/dynamic/engine.py returns says of
-- the run it leaves behind.
use ai_agents_carrier.Base.{
  ◌≡◌, refl, sym, subst, Bool, true, false, Option, some, List, [], ◌∷◌, map, filter, is_empty, inl,
  inr, arith, Bool-cases, eq_of_some,
}
use ai_agents_carrier.Base.Options.{◌>>=◌, >>=-eq-some}
use ai_agents_carrier.Dynamic.Model.{Job, DynamicRunState, RunStatus}
use ai_agents_carrier.Dynamic.Record.{running, open_decisions, log, is_running}
use ai_agents_carrier.Dynamic.Dag.{JobDag, stop_all, halted, fail, on_state}
use ai_agents_carrier.Dynamic.Events.{Event, ingest_all}
use ai_agents_carrier.Dynamic.Meta.{Ask}
use ai_agents_carrier.Dynamic.Ending.{
  StepStatus, run, gate, completed, failed, unfinished, missing, conclude, finish_or_fail,
  skip_broken, skipped, log_skipped,
}
use ai_agents_carrier.Dynamic.Deciding.{Resolution}
use ai_agents_carrier.Dynamic.Schedule.{
  outcome, schedule_open, decide_next, rounds, resolve, start, load_live, is_failed,
}

-- What a run is when `schedule` returns a status.
pub Fits : StepStatus → DynamicRunState → JobDag → Type 0
Fits run state dag =
    (state.status ≡ RunStatus.running)
    × (is_empty (running state) ≡ false)
    × (is_empty (open_decisions state) ≡ true)
Fits gate state dag =
    (state.status ≡ RunStatus.waiting_approval) × (is_empty (open_decisions state) ≡ false)
Fits completed state dag =
    (state.status ≡ RunStatus.completed)
    × (is_empty (running state) ≡ true)
    × (is_empty (open_decisions state) ≡ true)
    × (is_empty (unfinished state) ≡ true)
    × (is_empty (missing dag) ≡ true)
Fits failed state dag = (state.status ≡ RunStatus.failed) × (is_empty (running state) ≡ true)

runs : List Job → List Job
runs jobs = filter (λ j. is_running j.status) jobs

halted-rests : (job : Job) → is_running (halted job).status ≡ false
unfolding halted
halted-rests job = elim (Bool-cases (is_running job.status)) [
  | inl t ↦ rw t refl
  | inr f ↦ rw f (ground arith)
]

halted-all : (jobs : List Job) → is_empty (runs (map halted jobs)) ≡ true
unfolding runs
halted-all [] = refl
halted-all (j ∷ jobs) = rw (halted-rests j) (halted-all jobs)

stop_all-rests : (dag : JobDag) → is_empty (running (stop_all dag).state) ≡ true
unfolding stop_all runs
stop_all-rests dag = halted-all dag.state.jobs

skipped-rests :
    (state : DynamicRunState) (job : Job)
    → is_running job.status ≡ false
    → is_running (skipped state job).status ≡ false
unfolding skipped
skipped-rests state job h = ground arith

skipped-all :
    (state : DynamicRunState) (jobs : List Job)
    → is_empty (runs jobs) ≡ true
    → is_empty (runs (map (skipped state) jobs)) ≡ true
unfolding runs
skipped-all state [] h = refl
skipped-all state (j ∷ jobs) h = elim (Bool-cases (is_running j.status)) [
  | inl t ↦ let e : true ≡ false = sym (rw t at h) in cc
  | inr f ↦ rw (skipped-rests state j f) (skipped-all state jobs (rw f at h))
]

log_skipped-decisions :
    (jobs : List Job) (state : DynamicRunState)
    → (log_skipped jobs state).decisions ≡ state.decisions
unfolding log_skipped log
log_skipped-decisions [] state = refl
log_skipped-decisions (j ∷ jobs) state = ground (
  arith,
  log_skipped-decisions jobs state,
  log_skipped-decisions jobs (log "skipped" (some j.spec.id) state),
)

conclude-Fits :
    (dag : JobDag)
    → is_empty (running dag.state) ≡ true
    → is_empty (open_decisions dag.state) ≡ true
    → Fits (conclude dag).1 (conclude dag).0.state (conclude dag).0
unfolding conclude fail log Fits
conclude-Fits dag h d = elim (Bool-cases (is_empty (unfinished dag.state))) [
  | inr f ↦ rw f (refl, h)
  | inl t ↦ elim (Bool-cases (is_empty (missing dag))) [
    | inr f ↦ rw (t, f) (refl, h)
    | inl m ↦ rw (t, m) (refl, h, d, t, m)
  ]
]

finish_or_fail-Fits :
    (dag : JobDag)
    → is_empty (running dag.state) ≡ true
    → is_empty (open_decisions dag.state) ≡ true
    → Fits (finish_or_fail dag).1 (finish_or_fail dag).0.state (finish_or_fail dag).0
unfolding finish_or_fail skip_broken runs
finish_or_fail-Fits dag h d =
    conclude-Fits (on_state skip_broken dag) (skipped-all dag.state dag.state.jobs h)
      (rw (log_skipped-decisions dag.state.jobs dag.state) d)

failed_status : (s : RunStatus) → is_failed s ≡ true → s ≡ RunStatus.failed
failed_status s h = ground arith

outcome-Fits : (dag : JobDag) → Fits (outcome dag).1 (outcome dag).0.state (outcome dag).0
unfolding outcome fail log Fits
outcome-Fits dag = elim (Bool-cases (is_failed dag.state.status)) [
  | inl t ↦ rw t (failed_status dag.state.status t, stop_all-rests dag)
  | inr f ↦ elim (Bool-cases (is_empty (open_decisions dag.state))) [
    | inr o ↦ rw (f, o) (refl, o)
    | inl o ↦ elim (Bool-cases (is_empty (running dag.state))) [
      | inr r ↦ rw (f, o, r) (refl, r, o)
      | inl r ↦ elim (Bool-cases (is_empty dag.state.situations)) [
        | inr s ↦ rw (f, o, r, s) (refl, r)
        | inl s ↦ rw (f, o, r, s) (finish_or_fail-Fits dag r o)
      ]
    ]
  ]
]

-- Whenever `_schedule` returns on a run that is not over, the status it returns describes the run:
-- "run" says that a job is running and no decision is open, "gate" that a decision is open, "completed"
-- that no job runs, no decision is open, every job that is still in the DAG is finished or skipped and
-- every category has its minimum of jobs, and "failed" that no job runs. The stored status agrees.
pub schedule_open-Fits :
    (ask : Ask) (events : List Event) (resolution : Option Resolution) (halt : Bool) (dag : JobDag)
    {r : JobDag × StepStatus}
    → schedule_open ask events resolution halt dag ≡ some r
    → Fits r.1 r.0.state r.0
unfolding schedule_open decide_next fail log Fits
schedule_open-Fits ask events resolution true dag h =
    subst (λ r. Fits r.1 r.0.state r.0) (eq_of_some h)
      (refl, stop_all-rests (ingest_all events (load_live dag)))
schedule_open-Fits ask events resolution false dag h =
    let seen = ingest_all events (load_live dag) in
    let resolved =
      >>=-eq-some (resolve ask resolution seen)
        (λ d. rounds ask 4 (start d) >>= λ done. some (outcome done)) h in
    let done = >>=-eq-some (rounds ask 4 (start resolved.0)) (λ d. some (outcome d)) resolved.2 in
    subst (λ r. Fits r.1 r.0.state r.0) (eq_of_some done.2) (outcome-Fits done.0)
