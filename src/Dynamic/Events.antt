-- ===== src/Dynamic/Events.antt =====
-- `_ingest` and `_record` of app/infrastructure/orchestration/dynamic/engine.py: what the DAG makes of
-- the report of an attempt.
use ai_agents_carrier.Base.{
  String, ℕ, suc, ◌+◌, Bool, true, false, not, ◌&&◌, ◌||◌, Option, none, some, List, [], ◌∷◌,
  length, count, find?, is_empty, ltb, ◌==◌, opt_eq, or_else, strip, if◌then◌else◌,
}
use ai_agents_carrier.Base.Json.{Fields, get, truth, to_text}
use ai_agents_carrier.Auth.Principal.{codes, codes_eq}
use ai_agents_carrier.Auth.Sandbox.{lower}
use ai_agents_carrier.Dynamic.Model.{
  Job, JobAttempt, JobStatus, AttemptStatus, Reason, Source, NoteText, About, Decision,
  DecisionKind, validation,
}
use ai_agents_carrier.Dynamic.Record.{same_category, is_running, in_flight, note}
use ai_agents_carrier.Dynamic.Record
use ai_agents_carrier.Dynamic.Dag.{
  JobDag, on_job, on_state, record_event, set_status, requeue, forget_live, put_live,
  drop_live_questions, situation,
}

pub data Outcome : Type 0 where
  finished failed needs_input : Outcome

pub record AttemptResult : Type 0 where
  pub status : Outcome
  pub output : Option Fields
  pub error : Option String
  pub questions : List String
  pub unread_messages : List String
  pub child_run_id : Option String

-- what is reported of an attempt of a job
pub data Report : Type 0 where
  result : AttemptResult → Report
  live_question : Option String → String → Report
  lost : Report

pub record Event : Type 0 where
  pub job_id : String
  pub attempt : ℕ
  pub report : Report

abbrev pub outcome_status : Outcome → AttemptStatus
outcome_status finished = AttemptStatus.finished
outcome_status failed = AttemptStatus.failed
outcome_status needs_input = AttemptStatus.needs_input

-- `output.get("verdict", "pass")`: the text "none" of a missing value is no verdict of failure either
unfoldable pub verdict_failed : Option Fields → Bool
verdict_failed none = false
verdict_failed (some output) =
    let verdict = lower (strip (to_text (get "verdict" output))) in
    codes_eq (codes "fail") verdict
    || codes_eq (codes "failed") verdict
    || codes_eq (codes "reject") verdict
    || codes_eq (codes "rejected") verdict
    || codes_eq (codes "no") verdict

-- whether `_help_request` gives a text that is not empty
unfoldable pub asks_help : Option Fields → Bool
asks_help none = false
asks_help (some output) = truth (get "delegate" output)

-- ─── retries ───

abbrev is_retry : JobAttempt → Bool
is_retry a = elim a.reason [ Reason.retry ↦ true | _ ↦ false ]

-- the retries at the end of a list of attempts, `so_far` of them right before it
unfoldable pub retries_from : ℕ → List JobAttempt → ℕ
retries_from so_far [] = so_far
retries_from so_far (a ∷ attempts) = retries_from (if is_retry a then suc so_far else 0) attempts

abbrev rest {ℓ} : {A : Type ℓ} → List A → List A
rest [] = []
rest (x ∷ xs) = xs

unfoldable pub retries : Job → ℕ
unfolding retries_from
retries job = retries_from 0 (rest job.attempts)

abbrev is_escalation : Decision → Bool
is_escalation d = elim d.kind [ DecisionKind.escalation ↦ true | _ ↦ false ]

abbrev pub is_approved : Decision → Bool
is_approved d = elim d.approved [ some b ↦ b | none ↦ false ]

abbrev is_about : String → Decision → Bool
is_about id d = elim d.job_id [ none ↦ false | some job ↦ opt_eq job (some id) ]

abbrev pub granted_to : String → Decision → Bool
granted_to id d = is_escalation d && is_approved d && is_about id d

-- an escalation of the run, not of one job
abbrev pub granted_run : Decision → Bool
granted_run d = is_escalation d && is_approved d && (elim d.job_id [ none ↦ true | some _ ↦ false ])

unfoldable pub retries_left : JobDag → Job → Bool
unfolding retries
retries_left dag job =
    ltb (retries job)
      (dag.config.limits.max_retries + count (granted_to job.spec.id) dag.state.decisions)

-- ─── events ───

unfoldable pub change_attempt : ℕ → (JobAttempt → JobAttempt) → List JobAttempt → List JobAttempt
change_attempt n change [] = []
change_attempt n change (a ∷ attempts) =
    let later = change_attempt n change attempts in
    if a.n == n then change a ∷ attempts else a ∷ later

abbrev pub find_attempt : ℕ → Job → Option JobAttempt
find_attempt n job = find? (λ a. a.n == n) job.attempts

abbrev pub settle : AttemptResult → JobAttempt → JobAttempt
settle r a = record a {
  child_run_id = or_else r.child_run_id a.child_run_id;
  output = r.output;
  error = r.error;
  questions = r.questions;
  status = outcome_status r.status;
}

abbrev pub with_attempt : ℕ → (JobAttempt → JobAttempt) → Job → Job
with_attempt n change job = record job { attempts = change_attempt n change job.attempts }

-- `_record`, once the attempt holds the result and the job was running: `job` is the job before
unfoldable pub conclude_finished : String → Job → ℕ → AttemptResult → JobDag → JobDag
unfolding on_job situation Record.log asks_help verdict_failed
conclude_finished id job n r dag =
    let ended =
      record_event "attempt_finished" (some id) (on_job id (set_status JobStatus.finished) dag) in
    if not (is_empty r.unread_messages)
    then record_event "messages_unread" (some id) (on_job id (requeue Reason.message) ended)
    else (if asks_help r.output
        then situation About.needs_help (some id) (some n)
            (on_job id (set_status JobStatus.waiting) ended)
        else (if same_category job.spec.category validation && verdict_failed r.output
            then situation (About.change_request r.output) (some id) (some n) ended
            else ended))

unfoldable pub conclude_failed : String → Job → ℕ → AttemptResult → JobDag → JobDag
unfolding on_job situation Record.log retries_left note
conclude_failed id job n r dag =
    let seen = record_event "attempt_failed" (some id) dag in
    if retries_left dag job
    then on_job id (λ j. note Source.system (NoteText.failed_with r.error) (requeue Reason.retry j))
        seen
    else situation (About.failure r.error (length job.attempts)) (some id) (some n)
        (on_job id (set_status JobStatus.waiting) seen)

unfoldable pub conclude : String → Job → ℕ → AttemptResult → Outcome → JobDag → JobDag
unfolding on_job situation conclude_failed conclude_finished
conclude id job n r needs_input dag =
    situation (About.question r.questions) (some id) (some n)
      (on_job id (set_status JobStatus.waiting) dag)
conclude id job n r failed dag = conclude_failed id job n r dag
conclude id job n r finished dag = conclude_finished id job n r dag

unfoldable pub record_result : String → Job → ℕ → AttemptResult → JobDag → JobDag
unfolding on_job forget_live drop_live_questions conclude change_attempt
record_result id job n r dag =
    let settled = on_job id (with_attempt n (settle r)) dag in
    let quiet =
      record (on_state (λ s. record s { situations = drop_live_questions id s.situations })
        settled) { live = forget_live id dag.live } in
    if is_running job.status then conclude id job n r r.status quiet else quiet

abbrev pub lose_job : ℕ → Job → Job
lose_job n job =
    let ended = with_attempt n (λ a. record a { status = AttemptStatus.cancelled }) job in
    if is_running job.status then requeue Reason.restart ended else ended

unfoldable pub lose : String → ℕ → JobDag → JobDag
unfolding on_job Record.log change_attempt
lose id n dag = record_event "attempt_lost" (some id) (on_job id (lose_job n) dag)

-- a result that reports a cancellation from outside
unfoldable pub is_lost_result : AttemptResult → Bool
is_lost_result r = elim r.status [ failed ↦ opt_eq r.error (some "cancelled") | _ ↦ false ]

abbrev pub take_result : String → Job → JobAttempt → AttemptResult → JobDag → JobDag
take_result id job a r dag =
    if is_lost_result r then lose id a.n dag else record_result id job a.n r dag

unfoldable pub take_report : String → Job → JobAttempt → Report → JobDag → JobDag
unfolding situation put_live lose is_lost_result record_result
take_report id job a (live_question child text) dag =
    if is_running job.status && in_flight a
    then record (situation (About.live_question child text) (some id) (some a.n) dag) {
      live = put_live (record { job_id = id; attempt = a.n; child_run_id = child }) dag.live;
    }
    else dag
take_report id job a lost dag = if in_flight a then lose id a.n dag else dag
take_report id job a (result r) dag = if in_flight a then take_result id job a r dag else dag

unfoldable pub take_attempt : String → Job → Option JobAttempt → Report → JobDag → JobDag
unfolding take_report
take_attempt id job none report dag = dag
take_attempt id job (some a) report dag = take_report id job a report dag

unfoldable pub take_job : String → ℕ → Option Job → Report → JobDag → JobDag
unfolding take_attempt
take_job id n none report dag = dag
take_job id n (some job) report dag = take_attempt id job (find_attempt n job) report dag

unfoldable pub ingest : Event → JobDag → JobDag
unfolding take_job
ingest event dag =
    take_job event.job_id event.attempt (Record.job dag.state event.job_id) event.report dag

unfoldable pub ingest_all : List Event → JobDag → JobDag
unfolding ingest
ingest_all [] dag = dag
ingest_all (event ∷ events) dag = ingest_all events (ingest event dag)
