-- ===== src/Dynamic/Deciding.antt =====
-- `_consult`, `_resolve` and `_reject` of app/infrastructure/orchestration/dynamic/engine.py: the
-- meta-agent's decisions, and a human's answers to them.
use ai_agents_carrier.Base.{
  String, ℕ, suc, ◌+◌, ◌*◌, Bool, true, false, not, ◌&&◌, Option, none, some, List, [], ◌∷◌, ◌++◌,
  filter, count, is_empty, is_set, leb, ◌==◌, if◌then◌else◌,
}
use ai_agents_carrier.Dynamic.Model.{
  Job, JobSpec, Situation, About, MetaAction, MetaDecision, ActionKind, AutomationMode, Decision,
  DecisionKind, Failure, DynamicRunState, Source, Reason,
}
use ai_agents_carrier.Dynamic.Record.{needs_approval, active, log}
use ai_agents_carrier.Dynamic.Record
use ai_agents_carrier.Dynamic.Dag.{JobDag, on_job, on_state, requeue, situation, fail}
use ai_agents_carrier.Dynamic.Events.{granted_run}
use ai_agents_carrier.Dynamic.Actions.{give_answer}
use ai_agents_carrier.Dynamic.Meta.{Ask, decide, kind_of, kind_in, apply_actions, validate}

-- ─── applying ───

abbrev is_rearrange : Option DecisionKind → Bool
is_rearrange (some DecisionKind.rearrange) = true
is_rearrange _ = false

unfoldable pub count_rearrangement : MetaDecision → List Situation → JobDag → JobDag
unfolding kind_of
count_rearrangement decision situations dag =
    if is_rearrange (kind_of dag decision situations)
    then on_state (λ s. record s { rearrangements = suc s.rearrangements }) dag
    else dag

-- `_apply`; `none` stands for the `ValueError` of an action
unfoldable pub apply : MetaDecision → List Situation → JobDag → Option JobDag
unfolding count_rearrangement apply_actions
apply decision situations dag = apply_actions decision (count_rearrangement decision situations dag)

-- ─── the record of a decision ───

abbrev event_of : DecisionKind → String
event_of DecisionKind.plan = "decision:plan"
event_of DecisionKind.rearrange = "decision:rearrange"
event_of DecisionKind.answer = "decision:answer"
event_of DecisionKind.question = "decision:question"
event_of DecisionKind.escalation = "decision:escalation"

-- the record as it is made, and as it is once it was applied
abbrev made : DecisionKind → MetaDecision → List Situation → Bool → Decision
made kind decision situations applied = record {
  kind = kind;
  proposal = decision;
  situations = situations;
  question = none;
  job_id = none;
  resolved = applied;
  approved = if applied then some true else none;
  reason = if applied then some "auto" else none;
}

unfoldable pub record_decision :
    DecisionKind → MetaDecision → List Situation → Bool → JobDag → JobDag
unfolding log
record_decision kind decision situations applied dag =
    on_state
      (λ s.
        log (event_of kind) none
          (record s { decisions = s.decisions ++ (made kind decision situations applied ∷ []) }))
      dag

-- `self.config.limits.max_rearrangements or 1`, for each escalation of the run that was approved
unfoldable pub granted_rearrangements : JobDag → ℕ
granted_rearrangements dag =
    let each = dag.config.limits.max_rearrangements in
    let granted = count granted_run dag.state.decisions in (if each == 0 then 1 else each) * granted

unfoldable pub budget_spent : JobDag → Bool
unfolding granted_rearrangements
budget_spent dag =
    leb (dag.config.limits.max_rearrangements + granted_rearrangements dag) dag.state.rearrangements

abbrev is_bypass : AutomationMode → Bool
is_bypass AutomationMode.bypass = true
is_bypass _ = false

abbrev kind_or_answer : Option DecisionKind → DecisionKind
kind_or_answer none = DecisionKind.answer
kind_or_answer (some kind) = kind

abbrev gated : JobDag → Option DecisionKind → Bool
gated dag none = false
gated dag (some kind) = needs_approval dag.config kind

-- what follows a decision that was accepted, with no situation open
unfoldable pub settle : MetaDecision → List Situation → Option DecisionKind → JobDag → Option JobDag
unfolding budget_spent record_decision fail apply
settle decision situations kind dag =
    if is_rearrange kind && budget_spent dag
    then some (
        if is_bypass dag.config.automation
        then fail Failure.budget dag
        else record_decision DecisionKind.escalation decision situations false dag)
    else (if gated dag kind
        then some (record_decision (kind_or_answer kind) decision situations false dag)
        else apply decision situations
            (record_decision (kind_or_answer kind) decision situations true dag))

abbrev pub quiet : JobDag → JobDag
quiet dag = on_state (λ s. record s { situations = [] }) dag

-- `situations` are the open ones, and a rejection if there was one
unfoldable pub consult : Ask → List Situation → JobDag → Option JobDag
unfolding decide fail settle kind_of
consult ask situations dag = elim (decide ask dag situations) [
  | none ↦ some (fail Failure.dispatcher dag)
  | some decision ↦ settle decision situations (kind_of (quiet dag) decision situations) (quiet dag)
]

-- ─── a human's resolution ───

-- `corrections` are the edited jobs and the answers; the edited jobs are a list that the model accepts
pub record Resolution : Type 0 where
  pub approved : Bool
  pub reason : Option String
  pub jobs : List JobSpec
  pub answers : List (String × String)
  -- the answers as one text, `"; ".join(…)`
  pub answers_text : String

unfoldable pub reject : Ask → Option String → List Situation → JobDag → Option JobDag
unfolding fail consult
reject ask reason situations dag =
    if leb dag.config.limits.max_replans dag.state.replans
    then some (fail Failure.rejections dag)
    else consult ask
        (situations
          ++ (record { about = About.rejected reason; job_id = none; attempt = none } ∷ []))
        (on_state (λ s. record s { replans = suc s.replans; situations = situations }) dag)

abbrev text_of : Option String → String
text_of none = ""
text_of (some text) = text

-- the answer to a question, with a sentence for the agent where nobody can answer
abbrev human_text : Resolution → String
human_text r =
    let text = if is_empty r.answers then text_of r.reason else r.answers_text in
    if not r.approved && not (is_set (some text))
    then "Nobody can answer this. Proceed with your best judgement and state your assumptions."
    else text

abbrev answers_given : Resolution → Option (List (String × String))
answers_given r = if is_empty r.answers then none else some r.answers

abbrev job_named : DynamicRunState → Option (Option String) → Option Job
job_named state none = none
job_named state (some none) = none
job_named state (some (some id)) = if is_set (some id) then Record.job state id else none

abbrev nobody_to_tell : Decision → Resolution → JobDag → JobDag
nobody_to_tell d r dag = situation (About.human_answer d.question (human_text r)) none none dag

unfoldable pub human_answered : Decision → Resolution → JobDag → JobDag
unfolding give_answer situation
human_answered d r dag = elim (job_named dag.state d.job_id) [
  | none ↦ nobody_to_tell d r dag
  | some job ↦
      if active job
      then give_answer job (human_text r) Source.human (answers_given r) dag
      else nobody_to_tell d r dag
]

abbrev names_job : Option (Option String) → Bool
names_job none = false
names_job (some id) = is_set id

-- an escalation; `payload.get("job_id")` tells whether it is about one job
unfoldable pub resolve_escalation : Decision → Resolution → JobDag → Option JobDag
unfolding fail on_job apply
resolve_escalation d r dag =
    if not r.approved
    then some (fail Failure.escalation dag)
    else (if names_job d.job_id
        then some (elim (job_named dag.state d.job_id) [
          | none ↦ dag
          | some job ↦ on_job job.spec.id (requeue Reason.retry) dag
        ])
        else apply d.proposal d.situations dag)

-- `_with_corrected_jobs`
abbrev adding : List JobSpec → MetaAction
adding jobs = record {
  kind = ActionKind.add_jobs;
  jobs = jobs;
  job_id = none;
  job_ids = [];
  text = "";
  interrupt = false;
  restart = false;
  changes = [];
}

unfoldable pub with_corrected_jobs : MetaDecision → List JobSpec → MetaDecision
with_corrected_jobs decision jobs = record decision {
  actions = adding jobs ∷ filter (λ a. not (kind_in (ActionKind.add_jobs ∷ []) a)) decision.actions;
}

unfoldable pub resolve_plan : Ask → Decision → Resolution → JobDag → Option JobDag
unfolding reject apply validate with_corrected_jobs
resolve_plan ask d r dag =
    let corrected = with_corrected_jobs d.proposal r.jobs in
    if not r.approved
    then reject ask r.reason d.situations dag
    else (if is_empty r.jobs
        then apply d.proposal d.situations dag
        else (if is_empty (validate dag d.situations corrected)
            then apply corrected d.situations dag
            else reject ask (some "the edited plan breaks the rules") d.situations dag))

unfoldable pub resolve_one : Ask → Decision → Resolution → DecisionKind → JobDag → Option JobDag
unfolding human_answered resolve_escalation resolve_plan
resolve_one ask d r DecisionKind.question dag = some (human_answered d r dag)
resolve_one ask d r DecisionKind.escalation dag = resolve_escalation d r dag
resolve_one ask d r _ dag = resolve_plan ask d r dag
