-- ===== src/Approvals/Deciding.antt =====
-- How `ApprovalService` of app/application/approval_service.py closes a case: an answer, a veto, the
-- timeout, and what is abandoned with a run. An operation gives the case it closed and the backend, or
-- `none` where it closes nothing; then the backend is as before.
use ai_agents_carrier.Base.{
  String, ℕ, zero, suc, Bool, false, Option, none, some, List, [], ◌∷◌, ◌++◌, leb, length, truthy,
  if◌then◌else◌,
}
use ai_agents_carrier.Base.Options.{◌>>=◌}
use ai_agents_carrier.Approvals.Case.{
  ApprovalStatus, approved, rejected, expired, cancelled, DecisionSource, ApprovalCase,
}
use ai_agents_carrier.Approvals.Backend.{
  Backend, store, get, claim_for_decision, find_pending_for_run,
}

-- the claim, and the case as it is written
unfoldable pub close_as :
    (ApprovalCase → ApprovalCase) → String → Backend → Option (ApprovalCase × Backend)
unfolding claim_for_decision store
close_as write case_id backend = claim_for_decision case_id backend >>= λ claim.
    some (write claim.0, store (write claim.0) claim.1)

-- an answer of a person
pub record Answer : Type 0 where
  pub now : ℕ
  pub approved : Bool
  pub source : DecisionSource
  pub by_name : String
  pub by_id : String
  pub reason : String

abbrev pub answered : Answer → ApprovalCase → ApprovalCase
answered a case = record case {
  status = if a.approved then approved else rejected;
  decision_source = some a.source;
  decided_by_name = a.by_name;
  decided_by_id = a.by_id;
  decided_at = some a.now;
  reason = a.reason;
}

unfoldable pub decide : Answer → String → Backend → Option (ApprovalCase × Backend)
unfolding close_as
decide a case_id backend = close_as (answered a) case_id backend

abbrev ended : ApprovalStatus → DecisionSource → ℕ → String → ApprovalCase → ApprovalCase
ended status source now reason case = record case {
  status = status;
  decision_source = some source;
  decided_at = some now;
  reason = reason;
}

-- `reason or "…"`
abbrev or_text : String → String → String
or_text a b = if truthy a then a else b

unfoldable pub expire : ℕ → String → String → Backend → Option (ApprovalCase × Backend)
unfolding close_as
expire now reason case_id backend =
    close_as
      (ended expired DecisionSource.timeout now
        (or_text reason "No decision within the approval timeout"))
      case_id backend

unfoldable pub abandon : ℕ → String → String → Backend → Option (ApprovalCase × Backend)
unfolding close_as
abandon now reason case_id backend =
    close_as (ended cancelled DecisionSource.api now reason) case_id backend

-- `now <= case.veto_deadline`
abbrev pub in_window : ℕ → ApprovalCase → Bool
in_window now case = elim case.veto_deadline [ none ↦ false | some deadline ↦ leb now deadline ]

abbrev pub vetoed : ℕ → String → ApprovalCase → ApprovalCase
vetoed now by case = record case {
  status = cancelled;
  vetoed_by = by;
  reason = or_text by "a reviewer";
  decided_at = some now;
}

-- the sentence round the name in the reason is left out
unfoldable pub veto : ℕ → String → String → Backend → Option (ApprovalCase × Backend)
unfolding get store
veto now by case_id backend = get case_id backend >>= λ case.
    if in_window now case
    then some (vetoed now by case, store (vetoed now by case) backend)
    else none

-- ─── with a run ───

-- `find_open_case`
unfoldable pub find_open_case : String → Option String → Backend → Option ApprovalCase
unfolding find_pending_for_run
find_open_case run_id step_id backend =
    if truthy run_id then find_pending_for_run run_id step_id backend else none

-- The loop of `cancel_open_for_run`, with the cases closed so far; `none` is a loop cut short.
unfoldable pub cancel_from :
    ℕ → ℕ → String → String → List ApprovalCase → Backend → Option (List ApprovalCase × Backend)
unfolding find_open_case abandon
cancel_from zero now run_id reason closed backend = none
cancel_from (suc fuel) now run_id reason closed backend =
    elim (find_open_case run_id none backend) [
      | none ↦ some (closed, backend)
      | some case ↦ elim (abandon now reason case.id backend) [
        | none ↦ some (closed, backend)
        | some done ↦ cancel_from fuel now run_id reason (closed ++ (done.0 ∷ [])) done.1
      ]
    ]

-- Each round closes one more case of the run, so there is one round more than there are cases.
unfoldable pub cancel_open_for_run :
    ℕ → String → String → Backend → Option (List ApprovalCase × Backend)
unfolding cancel_from
cancel_open_for_run now run_id reason backend =
    cancel_from (suc (length backend.cases)) now run_id reason [] backend
