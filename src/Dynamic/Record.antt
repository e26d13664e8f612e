-- ===== src/Dynamic/Record.antt =====
-- The methods of the models of app/domain/models/dynamic.py, and the tests on their literals.
use ai_agents_carrier.Base.{
  String, ℕ, suc, Bool, true, false, not, Option, none, some, List, [], ◌∷◌, ◌++◌, length, filter,
  find?, last?, leb, str_eq, if◌then◌else◌,
}
use ai_agents_carrier.Base.Json.{Fields}
use ai_agents_carrier.Dynamic.Model.{
  JobCategory, planning, execution, validation, integration, AutomationMode, DecisionKind,
  PoolAgent, JobSlot, DynamicConfig, JobStatus, JobAttempt, AttemptStatus, Source, NoteText, Job,
  Decision, DynamicRunState,
}

abbrev pub same_category : JobCategory → JobCategory → Bool
same_category planning planning = true
same_category execution execution = true
same_category validation validation = true
same_category integration integration = true
same_category _ _ = false

abbrev pub slot_of : DynamicConfig → JobCategory → JobSlot
slot_of config planning = config.jobs.planning
slot_of config execution = config.jobs.execution
slot_of config validation = config.jobs.validation
slot_of config integration = config.jobs.integration

-- `APPROVAL_POLICY[self.automation]`
abbrev pub policy : AutomationMode → DecisionKind → Bool
policy AutomationMode.ask DecisionKind.answer = false
policy AutomationMode.ask _ = true
policy AutomationMode.plan DecisionKind.plan = true
policy AutomationMode.plan DecisionKind.question = true
policy AutomationMode.plan DecisionKind.escalation = true
policy AutomationMode.plan _ = false
policy AutomationMode.auto DecisionKind.question = true
policy AutomationMode.auto DecisionKind.escalation = true
policy AutomationMode.auto _ = false
policy AutomationMode.bypass _ = false

abbrev pub needs_approval : DynamicConfig → DecisionKind → Bool
needs_approval config kind = policy config.automation kind

abbrev pub pool_entry : DynamicConfig → String → Option PoolAgent
pool_entry config agent_id = find? (λ a. str_eq a.agent_id agent_id) config.agent_pool

-- the tests `status == …`
abbrev pub is_running : JobStatus → Bool
is_running JobStatus.running = true
is_running _ = false

abbrev pub is_pending : JobStatus → Bool
is_pending JobStatus.pending = true
is_pending _ = false

abbrev pub is_waiting : JobStatus → Bool
is_waiting JobStatus.waiting = true
is_waiting _ = false

abbrev pub is_finished : JobStatus → Bool
is_finished JobStatus.finished = true
is_finished _ = false

-- `status in ("finished", "skipped")`
abbrev pub is_done : JobStatus → Bool
is_done JobStatus.finished = true
is_done JobStatus.skipped = true
is_done _ = false

-- `status in ("failed", "cancelled", "removed")`
abbrev pub is_lost : JobStatus → Bool
is_lost JobStatus.failed = true
is_lost JobStatus.cancelled = true
is_lost JobStatus.removed = true
is_lost _ = false

-- `status in ("finished", "failed", "skipped", "waiting")`
abbrev pub is_at_rest : JobStatus → Bool
is_at_rest JobStatus.finished = true
is_at_rest JobStatus.failed = true
is_at_rest JobStatus.skipped = true
is_at_rest JobStatus.waiting = true
is_at_rest _ = false

abbrev pub in_flight : JobAttempt → Bool
in_flight a = elim a.status [ AttemptStatus.running ↦ true | _ ↦ false ]

abbrev pub last : Job → Option JobAttempt
last job = last? job.attempts

abbrev finished_output : JobAttempt → Option Fields → Option Fields
finished_output a older = elim a.status [
  | AttemptStatus.finished ↦ elim a.output [ some o ↦ some o | none ↦ older ]
  | _ ↦ older
]

-- the output of the newest finished attempt that has one
unfoldable pub output_of : List JobAttempt → Option Fields → Option Fields
output_of [] older = older
output_of (a ∷ attempts) older = output_of attempts (finished_output a older)

abbrev pub output : Job → Option Fields
output job = output_of job.attempts none

abbrev pub active : Job → Bool
active job = elim job.status [ JobStatus.removed ↦ false | JobStatus.cancelled ↦ false | _ ↦ true ]

-- `xs[-count:]`, where `count` is not 0
unfoldable pub newest {ℓ} : {A : Type ℓ} → ℕ → List A → List A
newest count [] = []
newest count (x ∷ xs) =
    let rest = newest count xs in if leb (suc (length xs)) count then x ∷ xs else rest

-- the cut of a text at 4,000 characters is left out
unfoldable pub note : Source → NoteText → Job → Job
unfolding newest
note source text job = record job {
  notes = newest 50 (
      job.notes
      ++ (record { source = source; text = text; after_attempt = length job.attempts } ∷ []));
}

abbrev pub job : DynamicRunState → String → Option Job
job state job_id = find? (λ j. str_eq j.spec.id job_id) state.jobs

abbrev pub active_jobs : DynamicRunState → List Job
active_jobs state = filter active state.jobs

abbrev pub running : DynamicRunState → List Job
running state = filter (λ j. is_running j.status) state.jobs

abbrev pub open_decisions : DynamicRunState → List Decision
open_decisions state = filter (λ d. not d.resolved) state.decisions

-- `detail` is left out
unfoldable pub log : String → Option String → DynamicRunState → DynamicRunState
unfolding newest
log kind job_id state = record state {
  events = newest 500 (state.events ++ (record { kind = kind; job_id = job_id } ∷ []));
}
