-- ===== src/Approvals/Backend.antt =====
-- `InMemoryApprovalBackend` of app/infrastructure/persistence/approval_backend.py. The dict of cases is
-- the list of its values, in the order of insertion, each of which holds its key. `touch`, and the copies
-- without bulky fields, are left out.
use ai_agents_carrier.Base.{
  String, ℕ, zero, suc, Bool, true, not, ◌&&◌, Option, none, some, List, [], ◌∷◌, filter, find?,
  contains, leb, str_eq, opt_eq, if◌then◌else◌,
}
use ai_agents_carrier.Approvals.Case.{
  ApprovalStatus, ApprovalCase, same_status, is_pending, is_answered, is_try_run,
}

pub record Backend : Type 0 where
  pub cases : List ApprovalCase
  pub claimed : List String

-- `self._cases[case.id] = case`
unfoldable pub put : ApprovalCase → List ApprovalCase → List ApprovalCase
put case [] = case ∷ []
put case (c ∷ cases) =
    let later = put case cases in if str_eq c.id case.id then case ∷ cases else c ∷ later

-- `create`, and `update`
unfoldable pub store : ApprovalCase → Backend → Backend
unfolding put
store case backend = record backend { cases = put case backend.cases }

unfoldable pub get : String → Backend → Option ApprovalCase
get id backend = find? (λ c. str_eq c.id id) backend.cases

-- `case.status != "pending" or case_id in self._claimed`
unfoldable pub claimable : String → Backend → ApprovalCase → Bool
claimable id backend case = is_pending case && not (contains backend.claimed id)

-- the case and the backend in which it is claimed
unfoldable pub claim_for_decision : String → Backend → Option (ApprovalCase × Backend)
unfolding get claimable
claim_for_decision id backend = elim (get id backend) [
  | none ↦ none
  | some case ↦
      if claimable id backend case
      then some (case, record backend { claimed = id ∷ backend.claimed })
      else none
]

-- `sort(key=…, reverse=True)`, which keeps the order of equal keys
unfoldable pub insert_newest :
    (ApprovalCase → ℕ) → ApprovalCase → List ApprovalCase → List ApprovalCase
insert_newest key case [] = case ∷ []
insert_newest key case (c ∷ cases) =
    let later = insert_newest key case cases in
    if leb (key c) (key case) then case ∷ c ∷ cases else c ∷ later

unfoldable pub newest_first : (ApprovalCase → ℕ) → List ApprovalCase → List ApprovalCase
unfolding insert_newest
newest_first key [] = []
newest_first key (case ∷ cases) = insert_newest key case (newest_first key cases)

-- `rows[:limit]`
unfoldable pub take {ℓ} : {A : Type ℓ} → ℕ → List A → List A
take zero xs = []
take (suc n) [] = []
take (suc n) (x ∷ xs) = x ∷ take n xs

-- `list`, for the filters that the service uses
unfoldable pub list : ApprovalStatus → String → ℕ → Backend → List ApprovalCase
unfolding newest_first take
list status datasource_id limit backend = take limit (
    newest_first (λ c. c.created_at)
      (filter (λ c. same_status c.status status && str_eq c.datasource_id datasource_id)
        backend.cases))

abbrev decided_or_created : ApprovalCase → ℕ
decided_or_created case = elim case.decided_at [ none ↦ case.created_at | some at ↦ at ]

abbrev counts_for : String → ApprovalCase → Bool
counts_for history_key case =
    str_eq case.history_key history_key && is_answered case && not (is_try_run case)

unfoldable pub history : String → ℕ → Backend → List ApprovalCase
unfolding newest_first take
history history_key limit backend =
    take limit (newest_first decided_or_created (filter (counts_for history_key) backend.cases))

abbrev pub is_open_for : String → Option String → ApprovalCase → Bool
is_open_for run_id step_id case =
    str_eq case.run_id run_id
    && is_pending case
    && (elim step_id [ none ↦ true | some step ↦ opt_eq case.step_id (some step) ])

abbrev pub first : List ApprovalCase → Option ApprovalCase
first [] = none
first (case ∷ cases) = some case

unfoldable pub find_pending_for_run : String → Option String → Backend → Option ApprovalCase
unfolding newest_first
find_pending_for_run run_id step_id backend =
    first (newest_first (λ c. c.created_at) (filter (is_open_for run_id step_id) backend.cases))
