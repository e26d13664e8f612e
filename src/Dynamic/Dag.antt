-- ===== src/Dynamic/Dag.antt =====
-- The state of `JobDag` in app/infrastructure/orchestration/dynamic/engine.py, and its helpers on the
-- jobs. A job is found by its id, as `DynamicRunState.job` does. The payload of a launch, which only
-- the agent reads, is left out.
use ai_agents_carrier.Base.{
  String, ℕ, zero, suc, Bool, true, false, not, ◌&&◌, ◌||◌, Option, none, some, List, [], ◌∷◌, ◌++◌,
  map, filter, find?, length, contains, str_eq, opt_eq, if◌then◌else◌,
}
use ai_agents_carrier.Dynamic.Model.{
  DynamicConfig, Job, JobAttempt, JobStatus, AttemptStatus, Reason, Situation, About,
  DynamicRunState, Failure, RunStatus,
}
use ai_agents_carrier.Dynamic.Record.{
  is_running, is_pending, is_waiting, in_flight, last, active, job, log,
}

pub record Launch : Type 0 where
  pub job : Job
  pub attempt : JobAttempt

pub record AttemptRef : Type 0 where
  pub job_id : String
  pub attempt : ℕ

pub record Delivery : Type 0 where
  pub job_id : String
  pub attempt : ℕ
  pub child_run_id : Option String
  pub text : String

pub record AgentMessage : Type 0 where
  pub job_id : String
  pub attempt : ℕ
  pub text : String
  pub interrupt : Bool

-- an entry of `_live`: the job, its attempt and the child run
pub record Live : Type 0 where
  pub job_id : String
  pub attempt : ℕ
  pub child_run_id : Option String

-- `config`, `state` and `_live`, and the lists of `_step`
pub record JobDag : Type 0 where
  pub config : DynamicConfig
  pub state : DynamicRunState
  pub live : List Live
  pub launches : List Launch
  pub cancels : List AttemptRef
  pub deliveries : List Delivery
  pub messages : List AgentMessage

-- ─── jobs ───

-- the change of the job that `DynamicRunState.job` finds
unfoldable pub change_job : String → (Job → Job) → List Job → List Job
change_job id change [] = []
change_job id change (j ∷ jobs) =
    let later = change_job id change jobs in
    if str_eq j.spec.id id then change j ∷ jobs else j ∷ later

unfoldable pub on_job : String → (Job → Job) → JobDag → JobDag
unfolding change_job
on_job id change dag = record dag {
  state = record dag.state { jobs = change_job id change dag.state.jobs };
}

abbrev pub on_state : (DynamicRunState → DynamicRunState) → JobDag → JobDag
on_state change dag = record dag { state = change dag.state }

abbrev pub record_event : String → Option String → JobDag → JobDag
record_event kind job_id dag = on_state (log kind job_id) dag

abbrev pub set_status : JobStatus → Job → Job
set_status status job = record job { status = status }

-- `job.status, job.pending_reason = "pending", reason`
abbrev pub requeue : Reason → Job → Job
requeue reason job = record job { status = JobStatus.pending; pending_reason = some reason }

-- `self._live[job_id] = …` and `self._live.pop(job_id, None)`
unfoldable pub forget_live : String → List Live → List Live
forget_live id live = filter (λ l. not (str_eq l.job_id id)) live

unfoldable pub put_live : Live → List Live → List Live
put_live l [] = l ∷ []
put_live l (x ∷ live) =
    let later = put_live l live in if str_eq x.job_id l.job_id then l ∷ live else x ∷ later

abbrev pub live_of : JobDag → String → Option Live
live_of dag id = find? (λ l. str_eq l.job_id id) dag.live

abbrev pub is_live : JobDag → String → Bool
is_live dag id = elim (live_of dag id) [ none ↦ false | some _ ↦ true ]

-- the situations without the live questions of a job, and without anything about it
abbrev pub is_live_question : About → Bool
is_live_question (About.live_question child question) = true
is_live_question _ = false

unfoldable pub drop_live_questions : String → List Situation → List Situation
drop_live_questions id situations =
    filter (λ s. not (is_live_question s.about && opt_eq s.job_id (some id))) situations

unfoldable pub drop_situations : String → List Situation → List Situation
drop_situations id situations = filter (λ s. not (opt_eq s.job_id (some id))) situations

-- `f"situation:{kind}"`
abbrev event_of : About → String
event_of About.start = "situation:start"
event_of About.phase_done = "situation:phase_done"
event_of (About.change_request output) = "situation:change_request"
event_of (About.question questions) = "situation:question"
event_of (About.live_question child question) = "situation:live_question"
event_of About.needs_help = "situation:needs_help"
event_of (About.failure error attempts) = "situation:failure"
event_of (About.rejected reason) = "situation:rejected"
event_of (About.human_answer question answer) = "situation:human_answer"

unfoldable pub situation : About → Option String → Option ℕ → JobDag → JobDag
unfolding log
situation about job_id attempt dag = on_state (log (event_of about) job_id) (
    on_state
      (λ s. record s {
        situations =
            s.situations ++ (record { about = about; job_id = job_id; attempt = attempt } ∷ []);
      })
      dag)

unfoldable pub fail : Failure → JobDag → JobDag
unfolding log
fail error dag =
    on_state (λ s. log "failed" none (record s { status = RunStatus.failed; error = some error }))
      dag

-- ─── stopping ───

unfoldable pub change_last {ℓ} : {A : Type ℓ} → (A → A) → List A → List A
change_last change [] = []
change_last change (x ∷ []) = change x ∷ []
change_last change (x ∷ y ∷ xs) = x ∷ change_last change (y ∷ xs)

abbrev pub cancel_attempt : JobAttempt → JobAttempt
cancel_attempt a = record a { status = AttemptStatus.cancelled }

-- the last attempt, if the job runs it
unfoldable pub stoppable : Job → Option JobAttempt
stoppable job = elim (last job) [
  | none ↦ none
  | some a ↦ if is_running job.status && in_flight a then some a else none
]

-- what `_stop` makes of the job, and whom it cancels
unfoldable pub stopped : Job → Job
unfolding stoppable change_last
stopped job = elim (stoppable job) [
  | none ↦ job
  | some a ↦ record job { attempts = change_last cancel_attempt job.attempts }
]

unfoldable pub cancelled : Job → List AttemptRef
unfolding stoppable
cancelled job = elim (stoppable job) [
  | none ↦ []
  | some a ↦ record { job_id = job.spec.id; attempt = a.n } ∷ []
]

unfoldable pub stop : Job → JobDag → JobDag
unfolding on_job stopped cancelled forget_live
stop job dag = record (on_job job.spec.id stopped dag) {
  cancels = dag.cancels ++ cancelled job;
  live = forget_live job.spec.id dag.live;
}

unfoldable pub reset : Reason → Job → JobDag → JobDag
unfolding stop on_job drop_situations
reset reason job dag =
    on_state (λ s. record s { situations = drop_situations job.spec.id s.situations })
      (on_job job.spec.id (requeue reason) (stop job dag))

-- what `_stop_all` makes of one job
unfoldable pub halted : Job → Job
unfolding stopped
halted job =
    if is_running job.status
    then set_status JobStatus.cancelled (stopped job)
    else (if is_pending job.status || is_waiting job.status
        then set_status JobStatus.cancelled job
        else job)

abbrev pub join {ℓ κ} : {A : Type ℓ} {B : Type κ} → (A → List B) → List A → List B
join f [] = []
join f (x ∷ xs) = f x ++ join f xs

-- `_stop` of the running jobs forgets their live questions
unfoldable pub stop_all : JobDag → JobDag
unfolding halted cancelled
stop_all dag =
    let halting = map (λ j. j.spec.id) (filter (λ j. is_running j.status) dag.state.jobs) in
    record dag {
      state = record dag.state { jobs = map halted dag.state.jobs };
      cancels = dag.cancels ++ join cancelled dag.state.jobs;
      live = filter (λ l. not (contains halting l.job_id)) dag.live;
    }

-- ─── what is downstream ───

-- One turn of the loop of `_dependents`: the active jobs that depend on `current` and are new.
unfoldable pub next_dependents : String → List String → List Job → List Job
next_dependents current seen [] = []
next_dependents current seen (j ∷ jobs) =
    let fresh = next_dependents current (j.spec.id ∷ seen) jobs in
    let same = next_dependents current seen jobs in
    if active j && contains j.spec.depends_on current && not (contains seen j.spec.id)
    then j ∷ fresh
    else same

abbrev pub ids : List Job → List String
ids jobs = map (λ j. j.spec.id) jobs

-- the elements appended one by one to a list that is kept in reverse
abbrev pub push {ℓ} : {A : Type ℓ} → List A → List A → List A
push [] ys = ys
push (x ∷ xs) ys = push xs (x ∷ ys)

-- The frontier is a stack, its last element first. Every turn but the first takes a job that an
-- earlier one added, and no job is added twice, so there is one turn more than there are jobs.
unfoldable pub dependents_from : ℕ → List Job → List String → List String → List Job
unfolding next_dependents
dependents_from zero jobs frontier seen = []
dependents_from (suc fuel) jobs [] seen = []
dependents_from (suc fuel) jobs (current ∷ frontier) seen =
    let found = next_dependents current seen jobs in
    found ++ dependents_from fuel jobs (push (ids found) frontier) (push (ids found) seen)

unfoldable pub dependents : JobDag → String → List Job
unfolding dependents_from
dependents dag job_id =
    dependents_from (suc (length dag.state.jobs)) dag.state.jobs (job_id ∷ []) (job_id ∷ [])
