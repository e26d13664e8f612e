-- ===== src/Approvals/Opening.antt =====
-- How `ApprovalService` of app/application/approval_service.py opens a case: the streak, the probation
-- of generated writes, the meta-LLM's verdict and what it decides alone. The settings, the model, the
-- flag of the workflow and whether the operation is a generated write are parameters. The posts to
-- Slack are left out.
use ai_agents_carrier.Base.{
  String, ℕ, suc, ◌+◌, ◌*◌, Bool, true, false, not, ◌&&◌, ◌||◌, Option, none, some, List, [], ◌∷◌,
  filter, count, is_empty, length, leb, ltb, ◌==◌, str_eq, truthy, if◌then◌else◌,
}
use ai_agents_carrier.Approvals.Case.{
  ApprovalStatus, pending, approved, rejected, DecisionSource, CallSurface, MetaDecision, approve,
  reject, MetaLlmVerdict, ApprovalCase, history_key_for, same_status, is_answered, by_meta_llm,
}
use ai_agents_carrier.Approvals.Backend.{Backend, store, list, history}

-- `ask` is the model: it sees the case, the history, and whether it decides alone.
pub record Service : Type 0 where
  pub auto_decide_threshold : ℕ
  pub veto_window_seconds : ℕ
  pub probation_runs : ℕ
  pub meta_llm_enabled : String → Bool
  pub ask : ApprovalCase → List ApprovalCase → Bool → Option MetaLlmVerdict

-- The length of the run of decisions that are like `value`, at the head of the history.
unfoldable pub streak_of : ApprovalStatus → List ApprovalCase → ℕ
streak_of value [] = 0
streak_of value (case ∷ history) =
    let longer = suc (streak_of value history) in
    if not (by_meta_llm case) && same_status case.status value then longer else 0

-- `_streak`
unfoldable pub streak : List ApprovalCase → Option ApprovalStatus × ℕ
unfolding streak_of
streak [] = (none, 0)
streak (case ∷ history) =
    if not (by_meta_llm case) && is_answered case
    then (some case.status, suc (streak_of case.status history))
    else (none, 0)

-- ─── the verdict ───

-- `int(… or 10)`
unfoldable pub threshold : Service → ℕ
threshold service = if service.auto_decide_threshold == 0 then 10 else service.auto_decide_threshold

abbrev pub is_some {ℓ} : {A : Type ℓ} → Option A → Bool
is_some none = false
is_some (some a) = true

unfoldable pub may_decide : Service → List ApprovalCase → Bool
unfolding threshold streak
may_decide service history =
    is_some (streak history).0 && leb (threshold service) (streak history).1

-- `verdict.decision == expected`
abbrev pub agrees : MetaDecision → Option ApprovalStatus → Bool
agrees approve (some approved) = true
agrees reject (some approved) = false
agrees reject _ = true
agrees _ _ = false

abbrev pub weigh : Bool → Option ApprovalStatus → ℕ → Option MetaLlmVerdict → Option MetaLlmVerdict
weigh may value size none = none
weigh may value size (some verdict) =
    some (record verdict { history_size = size; autonomous = may && agrees verdict.decision value })

unfoldable pub consult_meta_llm : Service → ApprovalCase → List ApprovalCase → Option MetaLlmVerdict
unfolding may_decide
consult_meta_llm service case history =
    if is_empty history
      || not (truthy case.workflow_id && service.meta_llm_enabled case.workflow_id)
    then none
    else weigh (may_decide service history) (streak history).0 (length history)
        (service.ask case history (may_decide service history))

-- ─── probation ───

abbrev max : ℕ → ℕ → ℕ
max a b = if leb a b then b else a

-- The approvals that count. No backend's `list` takes `operation`, so the call that passes it raises
-- `TypeError` and the filter is applied afterwards.
unfoldable pub human_approvals : Service → String → String → Backend → ℕ
unfolding list
human_approvals service datasource_id operation backend =
    count (λ c. not (by_meta_llm c))
      (filter (λ c. str_eq c.operation operation)
        (list approved datasource_id (max (service.probation_runs * 8) 100) backend))

-- whether a generated write is still held for people
unfoldable pub on_probation : Service → Bool → String → String → Backend → Bool
unfolding human_approvals
on_probation service generated_write datasource_id operation backend =
    generated_write
    && ltb (human_approvals service datasource_id operation backend) service.probation_runs

-- ─── the case ───

-- what a caller asks for
pub record Request : Type 0 where
  pub id : String
  pub now : ℕ
  pub workflow_id : String
  pub run_id : String
  pub step_id : Option String
  pub surface : CallSurface
  pub datasource_id : String
  pub operation : String
  pub affected_rows : ℕ
  pub generated_write : Bool

abbrev pub new_case : Request → ApprovalCase
new_case request = record {
  id = request.id;
  status = pending;
  workflow_id = request.workflow_id;
  run_id = request.run_id;
  step_id = request.step_id;
  surface = request.surface;
  datasource_id = request.datasource_id;
  operation = request.operation;
  affected_rows = request.affected_rows;
  history_key = history_key_for request.workflow_id request.datasource_id request.operation;
  meta_llm = none;
  decision_source = none;
  decided_by_name = "";
  decided_by_id = "";
  decided_at = none;
  reason = "";
  veto_deadline = none;
  vetoed_by = "";
  created_at = request.now;
}

abbrev pub verdict_status : MetaDecision → ApprovalStatus
verdict_status approve = approved
verdict_status _ = rejected

-- `_apply_autonomous_decision`; the name of the model is left out
unfoldable pub apply_autonomous_decision :
    Service → ℕ → MetaLlmVerdict → ApprovalCase → ApprovalCase
apply_autonomous_decision service now verdict case = record case {
  status = verdict_status verdict.decision;
  decision_source = some DecisionSource.meta_llm;
  decided_by_name = "meta-LLM";
  decided_at = some now;
  reason = verdict.reason;
  veto_deadline =
      if service.veto_window_seconds == 0 then none else some (now + service.veto_window_seconds);
}

-- what becomes of the case once the verdict is known; the note on probation in the reason is left out
unfoldable pub with_verdict :
    Service → ℕ → Bool → Option MetaLlmVerdict → ApprovalCase → ApprovalCase
unfolding apply_autonomous_decision
with_verdict service now held none case = case
with_verdict service now held (some verdict) case =
    if verdict.autonomous
    then (if held
        then record case { meta_llm = some (record verdict { autonomous = false }) }
        else apply_autonomous_decision service now verdict
            (record case { meta_llm = some verdict }))
    else record case { meta_llm = some verdict }

-- `_HISTORY_WINDOW`
abbrev pub history_window : ℕ
history_window = 25

abbrev pub past : Request → Backend → List ApprovalCase
past request backend = history (new_case request).history_key history_window backend

unfoldable pub decide_case : Service → Request → Backend → ApprovalCase
unfolding with_verdict consult_meta_llm on_probation
decide_case service request backend =
    with_verdict service request.now
      (on_probation service request.generated_write request.datasource_id request.operation backend)
      (consult_meta_llm service (new_case request) (past request backend)) (new_case request)

unfoldable pub open_case : Service → Request → Backend → ApprovalCase × Backend
unfolding decide_case store
open_case service request backend =
    (decide_case service request backend, store (decide_case service request backend) backend)

-- `record_confirmed`
unfoldable pub record_confirmed : Request → String → String → Backend → ApprovalCase × Backend
unfolding store
record_confirmed request by_name by_id backend =
    let case = record (new_case request) {
      workflow_id = "";
      run_id = "";
      step_id = none;
      status = approved;
      history_key = history_key_for "" request.datasource_id request.operation;
      decision_source = some DecisionSource.ui;
      decided_by_name = by_name;
      decided_by_id = by_id;
      decided_at = some request.now;
      reason = "Confirmed in the data source editor's try run";
    } in
    (case, store case backend)
