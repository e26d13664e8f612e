-- ===== src/Approvals/Stays.antt =====
-- What becomes of a closed case, under the moves of app/application/approval_service.py.
use ai_agents_carrier.Base.{
  String, ℕ, Bool, true, false, Option, none, some, ◌≡◌, refl, sym, subst, ◌⊎◌, inl, inr, ◌∙◌, ap,
  str_eq, eq_iff, Bool-cases, Option-cases, one_value, find?-some, eq_of_some,
}
use ai_agents_carrier.Approvals.Case.{ApprovalCase, MetaLlmVerdict, is_pending}
use ai_agents_carrier.Approvals.Backend.{Backend, put, store, get}
use ai_agents_carrier.Approvals.Opening.{
  Service, Request, new_case, apply_autonomous_decision, with_verdict, decide_case, open_case,
  record_confirmed,
}
use ai_agents_carrier.Approvals.Deciding.{
  close_as, decide, expire, abandon, in_window, vetoed, veto,
}
use ai_agents_carrier.Approvals.Moves
use ai_agents_carrier.Approvals.Moves.{Move, kept, after, get-store_same, get-store_other}
use ai_agents_carrier.Approvals.Once.{close_as-IsClosing}

-- whether a move puts a new case under this id
unfoldable pub opens : String → Move → Bool
opens id (Moves.hold service request) = str_eq request.id id
opens id (Moves.confirm request by_name by_id) = str_eq request.id id
opens id _ = false

-- the move is a veto of the case before its deadline, and the case is cancelled
pub record IsVetoed (id : String) (move : Move) (backend : Backend) (case : ApprovalCase)
    : Type 0 where
  now : ℕ
  by : String
  is_veto : move ≡ Moves.take_back now by id
  in_time : in_window now case ≡ true
  cancelled : get id (after move backend) ≡ some (vetoed now by case)

pub get-id :
    (id : String) (backend : Backend) {case : ApprovalCase}
    → get id backend ≡ some case
    → case.id ≡ id
unfolding get
get-id id backend {case} h =
    (eq_iff case.id id).0 (find?-some (λ c. str_eq c.id id) backend.cases h).1

with_verdict-id :
    (service : Service) (now : ℕ) (held : Bool) (verdict : Option MetaLlmVerdict)
    (case : ApprovalCase)
    → (with_verdict service now held verdict case).id ≡ case.id
unfolding with_verdict apply_autonomous_decision
with_verdict-id service now held none case = refl
with_verdict-id service now held (some verdict) case = elim (Bool-cases verdict.autonomous) [
  | inr f ↦ rw f refl
  | inl t ↦ elim (Bool-cases held) [ inl h ↦ rw t (rw h refl) | inr h ↦ rw t (rw h refl) ]
]

decide_case-id :
    (service : Service) (request : Request) (backend : Backend)
    → (decide_case service request backend).id ≡ request.id
unfolding decide_case
decide_case-id service request backend = with_verdict-id service request.now _ _ (new_case request)

get-stored :
    (id : String) (case stored : ApprovalCase) (backend : Backend)
    → get id backend ≡ some case
    → str_eq stored.id id ≡ false
    → get id (store stored backend) ≡ some case
get-stored id case stored backend h other = get-store_other stored id backend other ∙ h

get-written :
    (id : String) (backend later : Backend) (case : ApprovalCase)
    → later.cases ≡ put case backend.cases
    → get id later ≡ get id (store case backend)
unfolding get store
get-written id backend later case h = rw h refl

module _ (write : ApprovalCase → ApprovalCase)
    (write-id : (c : ApprovalCase) → (write c).id ≡ c.id) where
  -- an answer, a timeout or an abandonment leaves a closed case alone
  close_as-stays :
      (id asked : String) (backend : Backend) {case : ApprovalCase}
      → get id backend ≡ some case
      → is_pending case ≡ false
      → get id (kept backend (close_as write asked backend)) ≡ some case
  close_as-stays id asked backend {case} h closed =
      elim (Option-cases (close_as write asked backend)) [
        | inl n ↦ rw n h
        | inr done ↦
            let closing = close_as-IsClosing write asked backend done.1 in
            let named : closing.case.id ≡ asked = get-id asked backend closing.found in
            elim (Bool-cases (str_eq asked id)) [
              | inl t ↦
                  let same : some closing.case ≡ some case =
                    sym closing.found
                    ∙ subst (λ i. get i backend ≡ some case) (sym ((eq_iff asked id).0 t)) h in
                  elim (one_value
                    (subst (λ c. is_pending c ≡ true) (eq_of_some same) closing.was_pending)
                    closed) [ ]
              | inr f ↦
                  let other : str_eq (write closing.case).id id ≡ false =
                    subst (λ i. str_eq i id ≡ false) (sym (write-id closing.case ∙ named)) f in
                  rw done.1 (
                    get-written id backend done.0.1 (write closing.case) closing.cases
                    ∙ get-stored id case (write closing.case) backend h other)
            ]
      ]

get-vetoed :
    (id : String) (now : ℕ) (by : String) (backend : Backend) {case : ApprovalCase}
    → get id backend ≡ some case
    → in_window now case ≡ true
    → get id (after (Moves.take_back now by id) backend) ≡ some (vetoed now by case)
unfolding after veto
get-vetoed id now by backend {case} h t = rw h (
    rw t (
      subst (λ i. get i (store (vetoed now by case) backend) ≡ some (vetoed now by case))
        (get-id id backend h) (get-store_same (vetoed now by case) backend)))

veto-stays :
    (id : String) (now : ℕ) (by asked : String) (backend : Backend) {case : ApprovalCase}
    → get id backend ≡ some case
    → (get id (after (Moves.take_back now by asked) backend) ≡ some case)
      ⊎ IsVetoed id (Moves.take_back now by asked) backend case
unfolding after veto
veto-stays id now by asked backend {case} h = elim (Option-cases (get asked backend)) [
  | inl n ↦ inl (rw n h)
  | inr found ↦ elim (Bool-cases (in_window now found.0)) [
    | inr f ↦ inl (rw found.1 (rw f h))
    | inl t ↦ elim (Bool-cases (str_eq asked id)) [
      | inl same ↦
          let e : asked ≡ id = (eq_iff asked id).0 same in
          let c : found.0 ≡ case =
            eq_of_some (sym found.1 ∙ subst (λ i. get i backend ≡ some case) (sym e) h) in
          let in_time : in_window now case ≡ true = subst (λ c. in_window now c ≡ true) c t in
          inr record {
            now = now;
            by = by;
            is_veto = ap (Moves.take_back now by) e;
            in_time = in_time;
            cancelled =
                subst
                  (λ i.
                    get id (after (Moves.take_back now by i) backend) ≡ some (vetoed now by case))
                  (sym e) (get-vetoed id now by backend h in_time);
          }
      | inr f ↦
          let other : str_eq found.0.id id ≡ false =
            subst (λ i. str_eq i id ≡ false) (sym (get-id asked backend found.1)) f in
          inl (rw found.1 (rw t (get-stored id case (vetoed now by found.0) backend h other)))
    ]
  ]
]

-- A case that is no longer pending is left as it is by every move that puts no new case under its id,
-- but for a veto of it before its deadline, which cancels it.
pub closed_stays :
    (id : String) (move : Move) (backend : Backend) (case : ApprovalCase)
    → get id backend ≡ some case
    → is_pending case ≡ false
    → opens id move ≡ false
    → (get id (after move backend) ≡ some case) ⊎ IsVetoed id move backend case
unfolding after opens open_case record_confirmed decide expire abandon
closed_stays id (Moves.hold service request) backend case h closed other = inl (
    get-stored id case (decide_case service request backend) backend h
      (subst (λ i. str_eq i id ≡ false) (sym (decide_case-id service request backend)) other))
closed_stays id (Moves.confirm request by_name by_id) backend case h closed other =
    inl (get-stored id case (record_confirmed request by_name by_id backend).0 backend h other)
closed_stays id (Moves.answer a asked) backend case h closed other =
    inl (close_as-stays _ (λ c. refl) id asked backend h closed)
closed_stays id (Moves.time_out now reason asked) backend case h closed other =
    inl (close_as-stays _ (λ c. refl) id asked backend h closed)
closed_stays id (Moves.drop now reason asked) backend case h closed other =
    inl (close_as-stays _ (λ c. refl) id asked backend h closed)
closed_stays id (Moves.take_back now by asked) backend case h closed other =
    veto-stays id now by asked backend h
