-- ===== src/Dynamic/Model.antt =====
-- The configuration of a dynamic step and what it stores about its run: app/domain/models/dynamic.py,
-- and the actions of app/infrastructure/orchestration/dynamic/meta_agent.py. Times, random ids of
-- decisions, token usage, prompts' overrides and the legacy fields are left out; the text of an error
-- is a value that names it.
use ai_agents_carrier.Base.{String, ℕ, Bool, Option, List}
use ai_agents_carrier.Base.Json.{Fields}

pub data JobCategory : Type 0 where
  planning execution validation integration : JobCategory

pub data AutomationMode : Type 0 where
  ask plan auto bypass : AutomationMode

pub data DecisionKind : Type 0 where
  plan rearrange answer question escalation : DecisionKind

pub record PoolAgent : Type 0 where
  pub agent_id : String
  pub max_instances : ℕ
  pub categories : List JobCategory

pub record JobSlot : Type 0 where
  pub min : ℕ
  pub max : ℕ

-- a slot of each category: `_fill_slots` leaves none out
pub record Slots : Type 0 where
  pub planning : JobSlot
  pub execution : JobSlot
  pub validation : JobSlot
  pub integration : JobSlot

pub record DynamicLimits : Type 0 where
  pub max_total_jobs : ℕ
  pub max_retries : ℕ
  pub max_rearrangements : ℕ
  pub max_replans : ℕ
  pub max_parallel : ℕ

pub record JobSpec : Type 0 where
  pub id : String
  pub category : JobCategory
  pub agent_id : String
  pub title : String
  pub prompt : String
  pub depends_on : List String
  pub owns : List String
  pub datasources : List String

-- `datasources` lists the ids of the data sources that the step enables
pub record DynamicConfig : Type 0 where
  pub agent_pool : List PoolAgent
  pub jobs : Slots
  pub plan : Option (List JobSpec)
  pub datasources : List String
  pub automation : AutomationMode
  pub limits : DynamicLimits

pub data JobStatus : Type 0 where
  pending running finished failed waiting skipped cancelled removed : JobStatus

pub data AttemptStatus : Type 0 where
  running finished failed cancelled needs_input : AttemptStatus

-- why an attempt exists
pub data Reason : Type 0 where
  initial retry rewind upstream_changed answer restart message : Reason

pub record JobAttempt : Type 0 where
  pub n : ℕ
  pub child_run_id : Option String
  pub status : AttemptStatus
  pub reason : Reason
  pub output : Option Fields
  pub error : Option String
  pub questions : List String

pub data Source : Type 0 where
  meta human system : Source

-- what a note says: a text, or the sentence that the engine builds from one
pub data NoteText : Type 0 where
  plain : String → NoteText
  answered : String → NoteText
  failed_with : Option String → NoteText
  redone : String → String → NoteText
  removed_for : String → NoteText
  dropped : NoteText

pub record JobNote : Type 0 where
  pub source : Source
  pub text : NoteText
  pub after_attempt : ℕ

pub record Job : Type 0 where
  pub spec : JobSpec
  pub status : JobStatus
  pub attempts : List JobAttempt
  pub notes : List JobNote
  pub pending_reason : Option Reason
  pub pending_answers : Option (List (String × String))

-- what a situation is about, with its kind; a text that only the meta-agent reads is left out
pub data About : Type 0 where
  start phase_done : About
  change_request : Option Fields → About
  question : List String → About
  live_question : Option String → String → About
  needs_help : About
  failure : Option String → ℕ → About
  rejected : Option String → About
  human_answer : Option String → String → About

pub record Situation : Type 0 where
  pub about : About
  pub job_id : Option String
  pub attempt : Option ℕ

-- One entry of an update's `changes`. `unknown` is a key outside `_UPDATABLE`, `malformed` a key of it
-- with a value that the model of a job rejects.
pub data Change : Type 0 where
  prompt title agent_id : String → Change
  depends_on owns datasources : List String → Change
  unknown malformed : String → Change

pub data ActionKind : Type 0 where
  add_jobs update_job rewind remove answer message ask_human finish fail : ActionKind

pub record MetaAction : Type 0 where
  pub kind : ActionKind
  pub jobs : List JobSpec
  pub job_id : Option String
  pub job_ids : List String
  pub text : String
  pub interrupt : Bool
  pub restart : Bool
  pub changes : List Change

pub record MetaDecision : Type 0 where
  pub summary : String
  pub actions : List MetaAction

-- The payload is `proposal` with its situations, and the keys `question` and `job_id`: `job_id` is
-- `none` where the payload lacks the key.
pub record Decision : Type 0 where
  pub kind : DecisionKind
  pub proposal : MetaDecision
  pub situations : List Situation
  pub question : Option String
  pub job_id : Option (Option String)
  pub resolved : Bool
  pub approved : Option Bool
  pub reason : Option String

pub record DagEvent : Type 0 where
  pub kind : String
  pub job_id : Option String

pub data RunStatus : Type 0 where
  planning running waiting_approval completed failed : RunStatus

-- what the checks of a plan report
pub data Problem : Type 0 where
  bad_id used_id empty_prompt no_agent wrong_category depends_on_itself : String → Problem
  not_enabled unknown_dependency : String → String → Problem
  cycle too_many_jobs no_actions no_phase nobody_answers raised not_parsed : Problem
  too_many too_few : JobCategory → Problem
  field_required : ActionKind → Problem
  no_job : String → Problem
  cannot_change : String → Problem
  is_running : String → Problem
  unsettled : String → Problem

-- why a run failed
pub data Failure : Type 0 where
  stopped dispatcher budget : Failure
  rejections : Failure
  escalation : Failure
  not_settled : Failure
  given : String → Failure
  invalid_plan : List Problem → Failure
  unfinished : List String → Failure
  minimums : List Problem → Failure

pub record DynamicRunState : Type 0 where
  pub status : RunStatus
  pub jobs : List Job
  pub decisions : List Decision
  pub events : List DagEvent
  pub situations : List Situation
  pub replans : ℕ
  pub rearrangements : ℕ
  pub finished : Bool
  pub summary : Option String
  pub error : Option Failure
