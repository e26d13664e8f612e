-- ===== src/Approvals/Streak.antt =====
-- When `ApprovalService.open_case` of app/application/approval_service.py lets the meta-LLM decide alone.
use ai_agents_carrier.Base.{
  ℕ, zero, suc, ◌≤◌, ◌<◌, Bool, true, false, not, Option, none, some, List, [], ◌∷◌, ◌≡◌, refl, sym,
  subst, ◌⊎◌, inl, inr, ◌||◌, ◌&&◌, all, length, leb, arith, is_empty, truthy, leb_sound, and_parts,
  Bool-cases, Option-cases, eq_of_some,
}
use ai_agents_carrier.Approvals.Case.{
  ApprovalStatus, pending, approved, rejected, expired, cancelled, ApprovalCase, MetaLlmVerdict,
  MetaDecision, approve, reject, abstain, DecisionSource, is_pending, is_answered, by_meta_llm,
  same_status,
}
use ai_agents_carrier.Approvals.Backend.{Backend, take, history}
use ai_agents_carrier.Approvals.Opening.{
  Service, Request, new_case, streak_of, streak, threshold, may_decide, is_some, verdict_status,
  weigh, consult_meta_llm, agrees, past, on_probation, with_verdict, apply_autonomous_decision,
  decide_case,
}

-- a person's decision for `value`
unfoldable pub is_like : ApprovalStatus → ApprovalCase → Bool
is_like value case = not (by_meta_llm case) && same_status case.status value

streak_of-alike :
    (value : ApprovalStatus) (n : ℕ) (cases : List ApprovalCase)
    → n ≤ streak_of value cases
    → (n ≤ length cases) × (all (is_like value) (take n cases) ≡ true)
unfolding streak_of take is_like
streak_of-alike value zero cases h = (omega arith, refl)
streak_of-alike value (suc n) [] h = absurd (omega (arith, h))
streak_of-alike value (suc n) (case ∷ cases) h =
    elim (Bool-cases (not (by_meta_llm case) && same_status case.status value)) [
      | inr f ↦ absurd (omega (arith, rw f at h))
      | inl t ↦
          let longer : suc n ≤ suc (streak_of value cases) = rw t at h in
          let r = streak_of-alike value n cases (omega arith) in (omega (arith, r.0), rw t r.1)
    ]

-- whether a decision was made, and for what
pub record IsStreak (cases : List ApprovalCase) (value : ApprovalStatus) : Type 0 where
  is_value : (streak cases).0 ≡ some value
  answer : (value ≡ approved) ⊎ (value ≡ rejected)
  run : streak_of value cases ≡ (streak cases).1

answered_value :
    (value : ApprovalStatus)
    → (elim value [ approved ↦ true | rejected ↦ true | _ ↦ false ]) ≡ true
    → (value ≡ approved) ⊎ (value ≡ rejected)
answered_value pending h = cc
answered_value approved h = inl refl
answered_value rejected h = inr refl
answered_value expired h = cc
answered_value cancelled h = cc

same_status_refl : (value : ApprovalStatus) → same_status value value ≡ true
same_status_refl pending = refl
same_status_refl approved = refl
same_status_refl rejected = refl
same_status_refl expired = refl
same_status_refl cancelled = refl

streak-IsStreak :
    (cases : List ApprovalCase) {value : ApprovalStatus}
    → (streak cases).0 ≡ some value
    → IsStreak cases value
unfolding streak streak_of
streak-IsStreak [] h = cc
streak-IsStreak (case ∷ cases) {value} h = elim (Bool-cases (not (by_meta_llm case))) [
  | inr f ↦ cc (rw f at h)
  | inl t ↦ elim (Bool-cases (is_answered case)) [
    | inr f ↦ cc (rw (t, f) at h)
    | inl a ↦
        let e : case.status ≡ value = eq_of_some (rw (t, a) at h) in
        subst (IsStreak (case ∷ cases)) e record {
          is_value = rw t (rw a refl);
          answer = answered_value case.status a;
          run = rw t (rw a (rw (same_status_refl case.status) refl));
        }
  ]
]

-- What stands behind a case that is decided when it is opened: the workflow lets the meta-LLM judge, no
-- probation holds the write, and as many decisions as the threshold asks for, at the head of the history,
-- were made by people and are all the decision that the case has now.
pub record IsBacked (service : Service) (request : Request) (backend : Backend) : Type 0 where
  enabled : (truthy request.workflow_id && service.meta_llm_enabled request.workflow_id) ≡ true
  off_probation :
      on_probation service request.generated_write request.datasource_id request.operation backend
      ≡ false
  enough : threshold service ≤ length (past request backend)
  alike :
      all
        (is_like (decide_case service request backend).status)
        (take (threshold service) (past request backend))
      ≡ true
  source : (decide_case service request backend).decision_source ≡ some DecisionSource.meta_llm

weigh-autonomous :
    (may : Bool) (value : Option ApprovalStatus) (size : ℕ) (answer : Option MetaLlmVerdict)
    {verdict : MetaLlmVerdict}
    → weigh may value size answer ≡ some verdict
    → verdict.autonomous ≡ true
    → (may ≡ true) × (agrees verdict.decision value ≡ true)
weigh-autonomous may value size none h t = cc
weigh-autonomous may value size (some given) {verdict} h t =
    subst (λ v. v.autonomous ≡ true → (may ≡ true) × (agrees v.decision value ≡ true))
      (eq_of_some h) (λ both. and_parts may both) t

verdict-autonomous :
    (service : Service) (case : ApprovalCase) (cases : List ApprovalCase) {verdict : MetaLlmVerdict}
    → consult_meta_llm service case cases ≡ some verdict
    → verdict.autonomous ≡ true
    → ((truthy case.workflow_id && service.meta_llm_enabled case.workflow_id) ≡ true)
      × (may_decide service cases ≡ true)
      × (agrees verdict.decision (streak cases).0 ≡ true)
unfolding consult_meta_llm
verdict-autonomous service case cases {verdict} h t =
    elim (Bool-cases (
      is_empty cases
      || not (truthy case.workflow_id && service.meta_llm_enabled case.workflow_id))) [
        | inl n ↦ cc (rw n at h)
        | inr f ↦
            let w =
              weigh-autonomous (may_decide service cases) (streak cases).0 (length cases)
                (service.ask case cases (may_decide service cases)) (rw f at h) t in
            (ground arith, w.0, w.1)
      ]

-- ─── the decision ───

decided_status :
    (value : ApprovalStatus) (decision : MetaDecision)
    → (value ≡ approved) ⊎ (value ≡ rejected)
    → agrees decision (some value) ≡ true
    → verdict_status decision ≡ value
decided_status value approve (inl e) h = sym e
decided_status value approve (inr e) h = cc (rw e at h)
decided_status value reject (inl e) h = cc (rw e at h)
decided_status value reject (inr e) h = sym e
decided_status value abstain answer h = cc

not_pending-autonomous :
    (service : Service) (now : ℕ) (held : Bool) (answer : Option MetaLlmVerdict)
    (case : ApprovalCase)
    → is_pending case ≡ true
    → is_pending (with_verdict service now held answer case) ≡ false
    → (verdict : MetaLlmVerdict) × (answer ≡ some verdict)
      × (verdict.autonomous ≡ true)
      × (held ≡ false)
      × ((with_verdict service now held answer case).status ≡ verdict_status verdict.decision)
      × ((with_verdict service now held answer case).decision_source ≡ some DecisionSource.meta_llm)
unfolding with_verdict apply_autonomous_decision
not_pending-autonomous service now held none case p h = cc
not_pending-autonomous service now held (some verdict) case p h =
    elim (Bool-cases verdict.autonomous) [
      | inr f ↦ cc (rw f at h)
      | inl t ↦ elim (Bool-cases held) [
        | inl u ↦ cc (rw (t, u) at h)
        | inr f ↦ (verdict, refl, t, f, rw t (rw f refl), rw t (rw f refl))
      ]
    ]

backing :
    (service : Service) (cases : List ApprovalCase) (decision : MetaDecision)
    → may_decide service cases ≡ true
    → agrees decision (streak cases).0 ≡ true
    → (threshold service ≤ length cases)
      × (all (is_like (verdict_status decision)) (take (threshold service) cases) ≡ true)
unfolding may_decide
backing service cases decision may agree = elim (Option-cases (streak cases).0) [
  | inl n ↦ cc (rw n at may)
  | inr value ↦
      let s = streak-IsStreak cases value.1 in
      let enough : leb (threshold service) (streak cases).1 ≡ true =
        (and_parts (is_some (streak cases).0) may).1 in
      let status : verdict_status decision ≡ value.0 =
        decided_status value.0 decision s.answer
          (subst (λ v. agrees decision v ≡ true) value.1 agree) in
      rw status (
        streak_of-alike value.0 (threshold service) cases (
          subst (λ n. threshold service ≤ n) (sym s.run)
            (leb_sound (threshold service) (streak cases).1 enough)))
]

-- A case that is not pending when it is opened was decided by the meta-LLM, which the case's workflow lets
-- judge, of an operation that is not on probation; at the head of the history stand as many decisions as
-- the threshold asks for, all made by people and all for the same answer as the case's.
pub decide_case-IsBacked :
    (service : Service) (request : Request) (backend : Backend)
    → is_pending (decide_case service request backend) ≡ false
    → IsBacked service request backend
unfolding decide_case
decide_case-IsBacked service request backend h =
    let r =
      not_pending-autonomous service request.now
        (on_probation service request.generated_write request.datasource_id request.operation
          backend)
        (consult_meta_llm service (new_case request) (past request backend)) (new_case request) refl
        h in
    let v = verdict-autonomous service (new_case request) (past request backend) r.1 r.2 in
    let b = backing service (past request backend) r.0.decision v.1 v.2 in
    record { enabled = v.0; off_probation = r.3; enough = b.0; alike = rw r.4 b.1; source = r.5 }

length-take : (n : ℕ) (cases : List ApprovalCase) → length (take n cases) ≤ n
unfolding take
length-take zero cases = omega arith
length-take (suc n) [] = omega arith
length-take (suc n) (case ∷ cases) = omega (arith, length-take n cases)

-- A threshold above the 25 cases that the history gives leaves every case to people: no streak is as long.
pub threshold_beyond_window :
    (service : Service) (request : Request) (backend : Backend)
    → 25 < threshold service
    → is_pending (decide_case service request backend) ≡ true
unfolding history
threshold_beyond_window service request backend h =
    elim (Bool-cases (is_pending (decide_case service request backend))) [
      | inl t ↦ t
      | inr f ↦
          let b = decide_case-IsBacked service request backend f in
          absurd (omega (arith, h, b.enough, length-take 25 _))
    ]
