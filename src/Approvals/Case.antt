-- ===== src/Approvals/Case.antt =====
-- A case of app/domain/models/approval_case.py. Times count seconds. The fields that only people and
-- prompts read, such as the sample and the details, are left out.
use ai_agents_carrier.Base.{String, ℕ, Bool, true, false, Option, none, some}
use Prim.Native.String

pub data ApprovalStatus : Type 0 where
  pending approved rejected expired cancelled : ApprovalStatus

pub data DecisionSource : Type 0 where
  ui slack meta_llm timeout api mcp : DecisionSource

pub data CallSurface : Type 0 where
  workflow mcp try_run : CallSurface

pub data MetaDecision : Type 0 where
  approve reject abstain : MetaDecision

pub record MetaLlmVerdict : Type 0 where
  pub decision : MetaDecision
  pub reason : String
  pub model : String
  pub autonomous : Bool
  pub history_size : ℕ

pub record ApprovalCase : Type 0 where
  pub id : String
  pub status : ApprovalStatus
  pub workflow_id : String
  pub run_id : String
  pub step_id : Option String
  pub surface : CallSurface
  pub datasource_id : String
  pub operation : String
  pub affected_rows : ℕ
  pub history_key : String
  pub meta_llm : Option MetaLlmVerdict
  pub decision_source : Option DecisionSource
  pub decided_by_name : String
  pub decided_by_id : String
  pub decided_at : Option ℕ
  pub reason : String
  pub veto_deadline : Option ℕ
  pub vetoed_by : String
  pub created_at : ℕ

-- `f"{workflow_id or '-'}|{datasource_id}|{operation}"`
unfoldable pub history_key_for : String → String → String → String
history_key_for String.[] datasource_id operation =
    String.◌++◌ "-|" (String.◌++◌ datasource_id (String.◌++◌ "|" operation))
history_key_for (String.◌∷◌ c s) datasource_id operation =
    String.◌++◌ (String.◌∷◌ c s)
      (String.◌++◌ "|" (String.◌++◌ datasource_id (String.◌++◌ "|" operation)))

-- the tests `status == …`
abbrev pub same_status : ApprovalStatus → ApprovalStatus → Bool
same_status pending pending = true
same_status approved approved = true
same_status rejected rejected = true
same_status expired expired = true
same_status cancelled cancelled = true
same_status _ _ = false

abbrev pub is_pending : ApprovalCase → Bool
is_pending case = same_status case.status pending

-- `decided`
abbrev pub decided : ApprovalCase → Bool
decided case = elim case.status [ pending ↦ false | _ ↦ true ]

-- `status in ("approved", "rejected")`
abbrev pub is_answered : ApprovalCase → Bool
is_answered case = elim case.status [ approved ↦ true | rejected ↦ true | _ ↦ false ]

-- `decision_source == "meta_llm"`
abbrev pub by_meta_llm : ApprovalCase → Bool
by_meta_llm case = elim case.decision_source [
  | none ↦ false
  | some source ↦ elim source [ meta_llm ↦ true | _ ↦ false ]
]

abbrev pub is_try_run : ApprovalCase → Bool
is_try_run case = elim case.surface [ try_run ↦ true | _ ↦ false ]
