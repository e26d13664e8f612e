-- ===== src/Approvals/Moves.antt =====
-- The operations of app/application/approval_service.py on one backend, as the moves of a history: each
-- request that the service takes, in the order in which the backend serves them.
use ai_agents_carrier.Base.{
  String, ℕ, ◌+◌, true, false, Option, none, some, List, [], ◌∷◌, ◌≡◌, refl, sym, subst, inl, inr,
  contains, find?, str_eq, eq_iff, Bool-cases, Option-cases, eq_of_some, if◌then◌else◌,
}
use ai_agents_carrier.Approvals.Case.{ApprovalCase, is_pending}
use ai_agents_carrier.Approvals.Backend.{Backend, put, store, get, claimable, claim_for_decision}
use ai_agents_carrier.Approvals.Opening.{Service, Request, open_case, record_confirmed}
use ai_agents_carrier.Approvals.Deciding.{Answer, decide, expire, abandon, veto}
use text.Mathlib.TextPositions.{eq_refl}

pub data Move : Type 0 where
  hold : Service → Request → Move
  confirm : Request → String → String → Move
  answer : Answer → String → Move
  time_out : ℕ → String → String → Move
  drop : ℕ → String → String → Move
  take_back : ℕ → String → String → Move

-- the backend after an operation that may refuse
abbrev pub kept : Backend → Option (ApprovalCase × Backend) → Backend
kept backend none = backend
kept backend (some closed) = closed.1

unfoldable pub after : Move → Backend → Backend
unfolding open_case record_confirmed decide expire abandon veto
after (hold service request) backend = (open_case service request backend).1
after (confirm request by_name by_id) backend = (record_confirmed request by_name by_id backend).1
after (answer a id) backend = kept backend (decide a id backend)
after (time_out now reason id) backend = kept backend (expire now reason id backend)
after (drop now reason id) backend = kept backend (abandon now reason id backend)
after (take_back now by id) backend = kept backend (veto now by id backend)

-- whether the move closes a pending case under this id
abbrev pub names : String → Option (ApprovalCase × Backend) → String → ℕ
names id none asked = 0
names id (some closed) asked = if str_eq asked id then 1 else 0

unfoldable pub closings_of : String → Move → Backend → ℕ
unfolding decide expire abandon
closings_of id (answer a asked) backend = names id (decide a asked backend) asked
closings_of id (time_out now reason asked) backend =
    names id (expire now reason asked backend) asked
closings_of id (drop now reason asked) backend = names id (abandon now reason asked backend) asked
closings_of id _ backend = 0

-- how often a case of this id is closed in a history
unfoldable pub closings : String → List Move → Backend → ℕ
unfolding closings_of after
closings id [] backend = 0
closings id (move ∷ moves) backend =
    closings_of id move backend + closings id moves (after move backend)

-- ─── the store ───

find-put_same :
    (case : ApprovalCase) (cases : List ApprovalCase)
    → find? (λ c. str_eq c.id case.id) (put case cases) ≡ some case
unfolding put
find-put_same case [] = rw (eq_refl case.id) refl
find-put_same case (c ∷ cases) = elim (Bool-cases (str_eq c.id case.id)) [
  | inl t ↦ rw t (rw (eq_refl case.id) refl)
  | inr f ↦ rw f (rw f (find-put_same case cases))
]

find-put_other :
    (case : ApprovalCase) (id : String) (cases : List ApprovalCase)
    → str_eq case.id id ≡ false
    → find? (λ c. str_eq c.id id) (put case cases) ≡ find? (λ c. str_eq c.id id) cases
unfolding put
find-put_other case id [] h = rw h refl
find-put_other case id (c ∷ cases) h = elim (Bool-cases (str_eq c.id case.id)) [
  | inl t ↦
      let g : str_eq c.id id ≡ false =
        subst (λ i. str_eq i id ≡ false) (sym ((eq_iff c.id case.id).0 t)) h in
      rw t (rw h (rw g refl))
  | inr f ↦ rw f (rw (find-put_other case id cases h) refl)
]

pub get-store_same :
    (case : ApprovalCase) (backend : Backend) → get case.id (store case backend) ≡ some case
unfolding get store
get-store_same case backend = find-put_same case backend.cases

pub get-store_other :
    (case : ApprovalCase) (id : String) (backend : Backend)
    → str_eq case.id id ≡ false
    → get id (store case backend) ≡ get id backend
unfolding get store
get-store_other case id backend h = find-put_other case id backend.cases h

-- ─── the claim ───

pub record IsClaim (id : String) (backend : Backend) (claim : ApprovalCase × Backend) : Type 0 where
  pub found : get id backend ≡ some claim.0
  pub was_pending : is_pending claim.0 ≡ true
  pub unclaimed : contains backend.claimed id ≡ false
  pub same_cases : claim.1.cases ≡ backend.cases
  pub now_claimed : claim.1.claimed ≡ id ∷ backend.claimed

claimed-IsClaim :
    (id : String) (backend : Backend) (case : ApprovalCase) {claim : ApprovalCase × Backend}
    → get id backend ≡ some case
    → (if claimable id backend case
        then some (case, record backend { claimed = id ∷ backend.claimed })
        else none)
      ≡ some claim
    → IsClaim id backend claim
unfolding claimable
claimed-IsClaim id backend case {claim} found h = elim (Bool-cases (is_pending case)) [
  | inr f ↦ cc (rw f at h)
  | inl t ↦ elim (Bool-cases (contains backend.claimed id)) [
    | inl u ↦ cc (rw (t, u) at h)
    | inr f ↦
        let e : (case, record backend { claimed = id ∷ backend.claimed }) ≡ claim =
          eq_of_some (rw (t, f) at h) in
        subst (IsClaim id backend) e record {
          found = found;
          was_pending = t;
          unclaimed = f;
          same_cases = refl;
          now_claimed = refl;
        }
  ]
]

pub claim_for_decision-IsClaim :
    (id : String) (backend : Backend) {claim : ApprovalCase × Backend}
    → claim_for_decision id backend ≡ some claim
    → IsClaim id backend claim
unfolding claim_for_decision
claim_for_decision-IsClaim id backend {claim} h = elim (Option-cases (get id backend)) [
  | inl n ↦ cc (rw (n, claim_for_decision) at h)
  | inr found ↦ claimed-IsClaim id backend found.0 found.1 (rw (found.1, claim_for_decision) at h)
]
