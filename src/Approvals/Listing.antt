-- ===== src/Approvals/Listing.antt =====
-- `list` and `count` of `InMemoryApprovalBackend` in app/infrastructure/persistence/approval_backend.py with all
-- their filters, and what app/application/visibility.py hides of the cases. The copies without bulky fields
-- are left out, and `limit` and `offset` are no negative numbers.
use ai_agents_carrier.Base.{
  String, ℕ, zero, suc, length, Bool, true, false, not, ◌&&◌, ◌||◌, Option, none, some, List, [],
  ◌∷◌, map, filter, contains, is_empty, truthy, str_eq, if◌then◌else◌,
}
use ai_agents_carrier.Auth.Principal.{Subject}
use ai_agents_carrier.Visibility.Model.{Resource}
use ai_agents_carrier.Visibility.Predicates.{can_see}
use ai_agents_carrier.Visibility.Guard.{Store, Platform, get}
use ai_agents_carrier.Approvals.Case.{ApprovalStatus, ApprovalCase, same_status}
use ai_agents_carrier.Approvals.Backend.{Backend, newest_first, take}

-- the filters that a caller asks for
pub record Query : Type 0 where
  pub status : Option ApprovalStatus
  pub workflow_id : Option String
  pub datasource_id : Option String
  pub run_id : Option String
  pub operation : Option String

-- the filters that visibility adds: `exclude_workflow_ids` and `exclude_datasource_ids`
pub record Exclusions : Type 0 where
  pub workflow_ids : Option (List String)
  pub datasource_ids : Option (List String)

abbrev wanted : Option String → String → Bool
wanted none value = true
wanted (some asked) value = str_eq value asked

-- `_match`
unfoldable pub matches : Query → ApprovalCase → Bool
matches query case =
    (elim query.status [ none ↦ true | some status ↦ same_status case.status status ])
    && (wanted query.workflow_id case.workflow_id
        && (wanted query.datasource_id case.datasource_id && wanted query.run_id case.run_id))

abbrev pub is_excluded : Option (List String) → String → Bool
is_excluded none id = false
is_excluded (some ids) id = not (is_empty ids) && contains ids id

-- `_not_excluded`
unfoldable pub not_excluded : Exclusions → ApprovalCase → Bool
not_excluded exclusions case =
    not (is_excluded exclusions.workflow_ids case.workflow_id)
    && not (is_excluded exclusions.datasource_ids case.datasource_id)

unfoldable pub drop {ℓ} : {A : Type ℓ} → ℕ → List A → List A
drop zero xs = xs
drop (suc n) [] = []
drop (suc n) (x ∷ xs) = drop n xs

-- `list`
unfoldable pub list_cases : Query → Exclusions → ℕ → ℕ → Backend → List ApprovalCase
unfolding matches not_excluded newest_first take drop
list_cases query exclusions limit offset backend = take limit (
    drop offset (
      newest_first (λ c. c.created_at)
        (filter (λ c. matches query c && not_excluded exclusions c) backend.cases)))

abbrev pub of_operation : Query → ApprovalCase → Bool
of_operation query case = elim query.operation [
  | none ↦ true
  | some operation ↦ not (truthy operation) || str_eq case.operation operation
]

-- `count`
unfoldable pub count : Query → Exclusions → Backend → ℕ
unfolding matches not_excluded
count query exclusions backend = length (
    filter (λ c. matches query c && (of_operation query c && not_excluded exclusions c))
      backend.cases)

-- ─── what visibility hides ───

-- `hidden_ids`
unfoldable pub hidden_ids : Option Store → Option Subject → List String
unfolding can_see
hidden_ids none who = []
hidden_ids (some store) none = []
hidden_ids (some store) (some subject) =
    map (λ r. r.id) (filter (λ r. not (can_see (some subject) r)) store)

-- a filter is set only where something is hidden
abbrev pub unless_empty : List String → Option (List String)
unless_empty ids = if is_empty ids then none else some ids

-- `approval_exclusions`
unfoldable pub approval_exclusions : Platform → Option Subject → Exclusions
unfolding hidden_ids
approval_exclusions p who = record {
  workflow_ids = unless_empty (hidden_ids p.workflows who);
  datasource_ids = unless_empty (hidden_ids p.datasources who);
}

-- what is not stored any more is no secret
abbrev pub sees_found : Option Subject → Option Resource → Bool
sees_found who none = true
sees_found who (some r) = can_see who r

-- `workflow_visible`
unfoldable pub workflow_visible : Option Store → Option Subject → String → Bool
unfolding get can_see
workflow_visible none who id = true
workflow_visible (some store) none id = true
workflow_visible (some store) (some subject) id =
    if truthy id then sees_found (some subject) (get store id) else true

-- the data source of a case: `source is not None and not can_see(source)`
unfoldable pub source_hidden : Option Store → Option Subject → String → Bool
unfolding get can_see
source_hidden none who id = false
source_hidden (some store) who id =
    if truthy id
    then (elim (get store id) [ none ↦ false | some r ↦ not (can_see who r) ])
    else false

-- `approval_case_visible`
unfoldable pub approval_case_visible : Platform → Option Subject → ApprovalCase → Bool
unfolding workflow_visible source_hidden
approval_case_visible p none case = true
approval_case_visible p (some subject) case =
    if not (workflow_visible p.workflows (some subject) case.workflow_id)
    then false
    else not (source_hidden p.datasources (some subject) case.datasource_id)
