-- ===== src/Approvals/Once.antt =====
-- A case is closed once: the claim of `ApprovalService` in app/application/approval_service.py under any
-- history of moves.
use ai_agents_carrier.Base.{
  String, ℕ, ◌+◌, ◌≤◌, true, false, some, List, [], ◌∷◌, ◌≡◌, refl, subst, inl, inr, contains,
  str_eq, eq_iff, arith, Bool-cases, Option-cases, eq_of_some, if◌then◌else◌,
}
use ai_agents_carrier.Base.Options.{>>=-eq-some}
use ai_agents_carrier.Approvals.Case.{ApprovalCase, is_pending}
use ai_agents_carrier.Approvals.Backend.{Backend, put, store, get, claim_for_decision}
use ai_agents_carrier.Approvals.Opening.{decide_case, record_confirmed}
use ai_agents_carrier.Approvals.Deciding.{close_as, decide, expire, abandon, in_window, veto}
use ai_agents_carrier.Approvals.Moves.{
  Move, kept, after, names, closings_of, closings, claim_for_decision-IsClaim,
}

-- 1 once a case of this id has been claimed
unfoldable claims : String → Backend → ℕ
claims id backend = if contains backend.claimed id then 1 else 0

module _ (write : ApprovalCase → ApprovalCase) where
  -- a case that is closed was found, pending and unclaimed
  pub record IsClosing (id : String) (backend : Backend) (done : ApprovalCase × Backend)
      : Type 0 where
    pub case : ApprovalCase
    pub found : get id backend ≡ some case
    pub was_pending : is_pending case ≡ true
    pub unclaimed : contains backend.claimed id ≡ false
    pub written : done.0 ≡ write case
    pub cases : done.1.cases ≡ put (write case) backend.cases
    pub claimed : done.1.claimed ≡ id ∷ backend.claimed

  pub close_as-IsClosing :
      (id : String) (backend : Backend) {done : ApprovalCase × Backend}
      → close_as write id backend ≡ some done
      → IsClosing id backend done
  unfolding close_as store
  close_as-IsClosing id backend {done} h =
      let r =
        >>=-eq-some (claim_for_decision id backend) (λ c. some (write c.0, store (write c.0) c.1))
          h in
      let claim = claim_for_decision-IsClaim id backend r.1 in
      let e : (write r.0.0, store (write r.0.0) r.0.1) ≡ done = eq_of_some r.2 in
      subst (IsClosing id backend) e record {
        case = r.0.0;
        found = claim.found;
        was_pending = claim.was_pending;
        unclaimed = claim.unclaimed;
        written = refl;
        cases = rw claim.same_cases refl;
        claimed = claim.now_claimed;
      }

  close_as-claims :
      (id asked : String) (backend : Backend)
      → names id (close_as write asked backend) asked + claims id backend
        ≤ claims id (kept backend (close_as write asked backend))
  unfolding claims
  close_as-claims id asked backend = elim (Option-cases (close_as write asked backend)) [
    | inl n ↦ rw n (omega arith)
    | inr done ↦
        let closing = close_as-IsClosing asked backend done.1 in
        elim (Bool-cases (str_eq asked id)) [
          | inl t ↦
              let f : contains backend.claimed id ≡ false =
                subst (λ i. contains backend.claimed i ≡ false) ((eq_iff asked id).0 t)
                  closing.unclaimed in
              rw done.1 (rw closing.claimed (rw (t, f) (omega arith)))
          | inr f ↦ rw done.1 (rw closing.claimed (rw f (omega arith)))
        ]
  ]

claims-bound : (id : String) (backend : Backend) → claims id backend ≤ 1
unfolding claims
claims-bound id backend = ground arith

claims-store :
    (id : String) (case : ApprovalCase) (backend : Backend)
    → claims id (store case backend) ≡ claims id backend
unfolding claims store
claims-store id case backend = refl

claims-veto :
    (id : String) (now : ℕ) (by asked : String) (backend : Backend)
    → claims id (kept backend (veto now by asked backend)) ≡ claims id backend
unfolding veto claims store
claims-veto id now by asked backend = elim (Option-cases (get asked backend)) [
  | inl n ↦ rw n refl
  | inr found ↦ elim (Bool-cases (in_window now found.0)) [
    | inl t ↦ rw found.1 (rw t refl)
    | inr f ↦ rw found.1 (rw f refl)
  ]
]

after-claims :
    (id : String) (move : Move) (backend : Backend)
    → closings_of id move backend + claims id backend ≤ claims id (after move backend)
unfolding closings_of after decide expire abandon record_confirmed
after-claims id (Move.hold service request) backend =
    omega (arith, claims-store id (decide_case service request backend) backend)
after-claims id (Move.confirm request by_name by_id) backend =
    omega (arith, claims-store id (record_confirmed request by_name by_id backend).0 backend)
after-claims id (Move.answer a asked) backend = close_as-claims _ id asked backend
after-claims id (Move.time_out now reason asked) backend = close_as-claims _ id asked backend
after-claims id (Move.drop now reason asked) backend = close_as-claims _ id asked backend
after-claims id (Move.take_back now by asked) backend =
    omega (arith, claims-veto id now by asked backend)

closings-claims :
    (id : String) (moves : List Move) (backend : Backend)
    → closings id moves backend + claims id backend ≤ 1
unfolding closings
closings-claims id [] backend = omega (arith, claims-bound id backend)
closings-claims id (move ∷ moves) backend =
    omega (arith, after-claims id move backend, closings-claims id moves (after move backend))

-- In every history of openings, answers, timeouts, abandonments and vetoes, a case is closed by at most
-- one answer, timeout or abandonment, whatever the backend held before.
pub closed_once :
    (id : String) (moves : List Move) (backend : Backend) → closings id moves backend ≤ 1
closed_once id moves backend = omega (arith, closings-claims id moves backend)
