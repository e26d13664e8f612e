-- ===== src/Visibility/Guard.antt =====
-- `ReferenceGuard` of app/application/visibility.py over the four raw backends. A backend is the list
-- of what it stores, `none` where none is configured; `get`, `create`, `update` and `delete` are those
-- of the Mongo backends under app/infrastructure/persistence. The awaits of one request are taken
-- without another request between them.
use ai_agents_carrier.Base.{
  String, Bool, not, ◌&&◌, Option, none, some, List, [], ◌∷◌, str_eq, opt_eq, any, filter, find?,
  ltb, if◌then◌else◌,
}
use ai_agents_carrier.Base.Json.{Json}
use ai_agents_carrier.Auth.Principal.{Subject}
use ai_agents_carrier.Teams.Directory.{Directory, team_of}
use ai_agents_carrier.Visibility.Model.{
  public, team, private, Access, GranteeType, ResourceGrant, Kind, agent, datasource, script,
  workflow, same_kind, same_grantee, Resource, Violation, too_narrow, other_team, owner_not_in_team,
  private_to_other, Error, still_referenced, reference_not_found, reference_violates,
  operation_not_granted, malformed, Result, ok, err, ◌>>=◌, ◌>>◌, raise_if, lift_option,
}
use ai_agents_carrier.Visibility.Predicates.{team_of_resource, rank, can_see, grant_access, present}
use ai_agents_carrier.Visibility.References.{
  Reference, same_reference, references, datasource_operations, operation_denied,
}

abbrev pub Store : Type 0
Store = List Resource

-- The raw backends, the team directory, and the test of a GraphQL document.
pub record Platform : Type 0 where
  pub agents : Option Store
  pub datasources : Option Store
  pub scripts : Option Store
  pub workflows : Option Store
  pub directory : Option Directory
  pub graphql_writes : Json → Bool

abbrev pub resolve : Platform → Kind → Option Store
resolve p agent = p.agents
resolve p datasource = p.datasources
resolve p script = p.scripts
resolve p workflow = p.workflows

-- `backend.get(id)`
unfoldable pub get : Store → String → Option Resource
get store id = find? (λ r. str_eq r.id id) store

-- why the scope rules keep a referrer from a resource
unfoldable pub scope_rules : Option Directory → Resource → Resource → Option Violation
unfolding team_of_resource team_of
scope_rules directory referrer used =
    if ltb (rank used.visibility) (rank referrer.visibility)
    then some too_narrow
    else elim used.visibility [
      | public ↦ none
      | team ↦ elim referrer.visibility [
        | public ↦ none
        | team ↦
            if not (opt_eq (team_of_resource referrer) (team_of_resource used))
            then some other_team
            else none
        | private ↦
            if not (opt_eq (team_of directory referrer.owner_id) (team_of_resource used))
            then some owner_not_in_team
            else none
      ]
      | private ↦
          if not (opt_eq used.owner_id referrer.owner_id) then some private_to_other else none
    ]

-- `_scope_violation`
unfoldable pub scope_violation : Platform → Resource → Resource → Option Violation
unfolding scope_rules
scope_violation p referrer used = scope_rules p.directory referrer used

-- a violation stands unless a grant opens the resource
abbrev pub excused : Option Violation → Bool → Option Violation
excused none granted = none
excused (some problem) granted = if granted then none else some problem

-- `_violation`: the scope rules, then the grants
unfoldable pub violation : Platform → Resource → Kind → Resource → Option Violation
violation p referrer referrer_kind used =
    excused (scope_violation p referrer used) (present (grant_access referrer referrer_kind used))

unfoldable pub access_through_grant : Platform → Resource → Kind → Resource → Option Access
access_through_grant p referrer referrer_kind used = elim (scope_violation p referrer used) [
  | none ↦ none
  | some problem ↦ grant_access referrer referrer_kind used
]

-- the loop over the operations that the referrer calls
unfoldable pub check_operations :
    Platform → Resource → List String → Option Access → Result (Unit {0})
check_operations p target [] access = ok tt
check_operations p target (operation ∷ operations) access = do
  raise_if (operation_denied p.graphql_writes target operation access) operation_not_granted
  check_operations p target operations access

-- the operations that a definition calls on a target that is a data source
unfoldable pub check_calls : Platform → Kind → Resource → Reference → Resource → Result (Unit {0})
check_calls p kind resource ref target =
    if same_kind ref.0 datasource
    then (do
      operations ← lift_option (datasource_operations resource ref.1) malformed
      check_operations p target operations (access_through_grant p resource kind target))
    else ok tt

-- `if problem: raise …`
abbrev pub refuse : Option Violation → (Violation → Error) → Result (Unit {0})
refuse none e = ok tt
refuse (some problem) e = err (e problem)

-- a target that the caller cannot see, that no grant opens and that the stored version did not use
unfoldable pub out_of_sight :
    Option Subject → Kind → Resource → List Reference → Reference → Resource → Bool
out_of_sight who kind resource kept ref target =
    not (can_see who target)
    && not (present (grant_access resource kind target))
    && not (any (same_reference ref) kept)

-- what `check_references` demands of one target that it finds
unfoldable pub check_target :
    Platform
    → Option Subject
    → Kind
    → Resource
    → List Reference
    → Reference
    → Resource
    → Result (Unit {0})
check_target p who kind resource kept ref target = do
  raise_if (out_of_sight who kind resource kept ref target) (reference_not_found ref.0 ref.1)
  refuse (violation p resource kind target) reference_violates
  check_calls p kind resource ref target

abbrev pub check_found :
    Platform
    → Option Subject
    → Kind
    → Resource
    → List Reference
    → Reference
    → Option Resource
    → Result (Unit {0})
check_found p who kind resource kept ref none = ok tt
check_found p who kind resource kept ref (some target) =
    check_target p who kind resource kept ref target

abbrev pub stored : Option Store → Store
stored none = []
stored (some store) = store

-- one round of the loop; a kind with no backend has nothing stored
unfoldable pub check_reference :
    Platform → Option Subject → Kind → Resource → List Reference → Reference → Result (Unit {0})
check_reference p who kind resource kept ref =
    if same_reference ref (kind, resource.id)
    then ok tt
    else check_found p who kind resource kept ref (get (stored (resolve p ref.0)) ref.1)

-- the loop over the references; one that is met again is checked again, to the same end
unfoldable pub check_each :
    Platform
    → Option Subject
    → Kind
    → Resource
    → List Reference
    → List Reference
    → Result (Unit {0})
check_each p who kind resource kept [] = ok tt
check_each p who kind resource kept (ref ∷ refs) = do
  check_reference p who kind resource kept ref
  check_each p who kind resource kept refs

abbrev pub kept_references : Option Resource → Option (List Reference)
kept_references none = some []
kept_references (some existing) = references existing

unfoldable pub check_references :
    Platform → Option Subject → Kind → Resource → Option Resource → Result (Unit {0})
check_references p who kind resource existing = do
  kept ← lift_option (kept_references existing) malformed
  refs ← lift_option (references resource) malformed
  check_each p who kind resource kept refs

-- ─── narrowing ───

-- one round of the loop over the referrers
unfoldable pub blocks : Platform → Kind → Resource → Kind → Resource → Result (Unit {0})
blocks p kind resource referrer_kind referrer =
    if same_reference (kind, resource.id) (referrer_kind, referrer.id) then ok tt else do
      refs ← lift_option (references referrer) malformed
      if not (any (same_reference (kind, resource.id)) refs)
          then ok tt
          else refuse (violation p referrer referrer_kind resource) (λ problem. still_referenced)

unfoldable pub blocks_any : Platform → Kind → Resource → Kind → List Resource → Result (Unit {0})
blocks_any p kind resource referrer_kind [] = ok tt
blocks_any p kind resource referrer_kind (referrer ∷ referrers) = do
  blocks p kind resource referrer_kind referrer
  blocks_any p kind resource referrer_kind referrers

-- the kinds that refer to a kind: workflows, and agents to data sources
unfoldable pub check_narrowing : Platform → Kind → Resource → Result (Unit {0})
check_narrowing p kind resource = do
  blocks_any p kind resource workflow (stored p.workflows)
  if same_kind kind datasource then blocks_any p kind resource agent (stored p.agents) else ok tt

-- ─── the grants of a deleted workflow ───

abbrev is_grant_to : String → ResourceGrant → Bool
is_grant_to workflow_id g =
    same_grantee g.grantee_type GranteeType.workflow && str_eq g.grantee_id workflow_id

unfoldable pub drop_grants : String → Store → Store
drop_grants workflow_id [] = []
drop_grants workflow_id (r ∷ store) =
    record r { grants = filter (λ g. not (is_grant_to workflow_id g)) r.grants }
    ∷ drop_grants workflow_id store

abbrev map_store : (Store → Store) → Option Store → Option Store
map_store f none = none
map_store f (some store) = some (f store)

unfoldable pub drop_workflow_grants : Platform → String → Platform
unfolding drop_grants
drop_workflow_grants p workflow_id = record p {
  datasources = map_store (drop_grants workflow_id) p.datasources;
  agents = map_store (drop_grants workflow_id) p.agents;
  workflows = map_store (drop_grants workflow_id) p.workflows;
}
