-- ===== src/Visibility/Sharing.antt =====
-- app/application/grants.py: granting a resource to a user or a workflow, and taking a grant back. The
-- backends are the scoped ones, so there is a guard; grants are written to the raw ones. The e-mail
-- address that stands in for a missing name, the time of a grant and the rebuilt runner are left out.
use ai_agents_carrier.Base.{
  String, Bool, true, false, not, ◌&&◌, ◌||◌, Option, none, some, List, [], ◌∷◌, ◌++◌, filter,
  find?, str_eq, opt_eq, truthy, strip, if◌then◌else◌,
}
use ai_agents_carrier.Auth.Principal.{Subject}
use ai_agents_carrier.Teams.Directory.{Directory, UserRecord, get_user}
use ai_agents_carrier.Visibility.Model.{
  Access, GranteeType, user, ResourceGrant, Kind, datasource, script, workflow, same_kind,
  same_grantee, Resource, not_owner, resource_not_found, grant_invalid, grant_conflict, Result, ok,
  err, ◌>>=◌, ◌>>◌, raise_if, lift_option,
}
use ai_agents_carrier.Visibility.Predicates.{
  team_of_resource, is_public, grants_of, is_read_write, can_see, can_change_visibility,
}
use ai_agents_carrier.Visibility.Guard.{Store, Platform, resolve, get, stored, scope_violation}
use ai_agents_carrier.Visibility.Scoped.{upsert, with_store, list}

abbrev pub is_script : Kind → Bool
is_script script = true
is_script _ = false

-- `_backend`, unwrapped
unfoldable pub backend : Platform → Kind → Result Store
backend p kind =
    if is_script kind then err grant_invalid else lift_option (resolve p kind) resource_not_found

-- `resource is None or not can_see(resource)`
unfoldable pub visible : Option Subject → Option Resource → Result Resource
unfolding can_see
visible who none = err resource_not_found
visible who (some r) = if can_see who r then ok r else err resource_not_found

unfoldable pub shareable : Option Subject → Resource → Result Resource
unfolding can_change_visibility
shareable who r =
    raise_if (not (can_change_visibility who r)) not_owner
    >> (raise_if r.readonly grant_invalid >> ok r)

-- `_resource_to_share`
unfoldable pub resource_to_share : Platform → Option Subject → Kind → String → Result Resource
unfolding backend visible shareable
resource_to_share p who kind id =
    backend p kind >>= λ store. (visible who (get store id) >>= λ r. shareable who r)

unfoldable pub list_grants : Platform → Option Subject → Kind → String → Result (List ResourceGrant)
unfolding resource_to_share
list_grants p who kind id = resource_to_share p who kind id >>= λ r. ok (grants_of r)

-- ─── who may be granted to ───

abbrev pub in_its_team : Resource → UserRecord → Bool
in_its_team r u = elim (team_of_resource r) [ none ↦ false | some t ↦ opt_eq u.team_id (some t) ]

unfoldable pub known_user : Resource → Option Directory → String → Result (Option String)
unfolding get_user team_of_resource
known_user r none user_id = ok none
known_user r (some directory) user_id =
    lift_option (get_user directory user_id) grant_invalid >>= λ u.
    (raise_if (in_its_team r u) grant_conflict >> ok u.name)

-- `_check_user_grantee`
unfoldable pub check_user_grantee : Platform → Resource → String → Result (Option String)
unfolding known_user
check_user_grantee p r user_id =
    raise_if (opt_eq r.owner_id (some user_id)) grant_conflict >> known_user r p.directory user_id

abbrev pub covered : Platform → Resource → Resource → Bool
covered p w r = elim (scope_violation p w r) [ none ↦ true | some v ↦ false ]

abbrev pub name_of : Resource → String
name_of w = if truthy w.name then w.name else w.id

-- `_check_workflow_grantee`
unfoldable pub check_workflow_grantee :
    Platform → Option Subject → Kind → Resource → String → Result (Option String)
unfolding scope_violation can_see
check_workflow_grantee p who kind r workflow_id =
    raise_if (same_kind kind workflow && str_eq workflow_id r.id) grant_conflict
    >> (lift_option (get (stored p.workflows) workflow_id) grant_invalid >>= λ w.
        (raise_if (covered p w r) grant_conflict
          >> ok (if can_see who w then some (name_of w) else none)))

-- a workflow is granted the use of an agent or a workflow only
abbrev pub edits_too_much : Kind → Access → Bool
edits_too_much kind access = not (same_kind kind datasource) && is_read_write (some access)

unfoldable pub check_grantee :
    Platform
    → Option Subject
    → Kind
    → Resource
    → GranteeType
    → String
    → Access
    → Result (Option String)
unfolding check_user_grantee check_workflow_grantee
check_grantee p who kind r user grantee_id access = check_user_grantee p r grantee_id
check_grantee p who kind r GranteeType.workflow grantee_id access =
    raise_if (edits_too_much kind access) grant_invalid
    >> check_workflow_grantee p who kind r grantee_id

-- ─── granting ───

abbrev pub is_for : GranteeType → String → ResourceGrant → Bool
is_for type id g = same_grantee g.grantee_type type && str_eq g.grantee_id id

abbrev subject_id : Option Subject → Option String
subject_id none = none
subject_id (some s) = s.id

abbrev subject_name : Option Subject → Option String
subject_name none = none
subject_name (some s) = s.name

-- the id of the grant that is replaced, or a fresh one
abbrev pub grant_id : String → Option ResourceGrant → String
grant_id fresh none = fresh
grant_id fresh (some g) = g.id

abbrev pub new_grant :
    Option Subject
    → String
    → List ResourceGrant
    → GranteeType
    → String
    → Option String
    → Access
    → ResourceGrant
new_grant who fresh grants type id name access = record {
  id = grant_id fresh (find? (is_for type id) grants);
  grantee_type = type;
  grantee_id = id;
  grantee_name = name;
  access = access;
  granted_by = subject_id who;
  granted_by_name = subject_name who;
}

-- `[g for g in grants if g not in existing] + [record]`
abbrev pub with_grant : ResourceGrant → List ResourceGrant → List ResourceGrant
with_grant g grants =
    filter (λ other. not (is_for g.grantee_type g.grantee_id other)) grants ++ (g ∷ [])

-- `_save`
abbrev pub save : Platform → Kind → Resource → List ResourceGrant → Platform
save p kind r grants = with_store p kind (upsert (record r { grants = grants }))

unfoldable pub grant :
    Platform
    → Option Subject
    → Kind
    → String
    → GranteeType
    → String
    → Access
    → String
    → Result (Platform × ResourceGrant)
unfolding resource_to_share check_grantee strip upsert
grant p who kind id type asked access fresh =
    let grantee_id = strip asked in
    resource_to_share p who kind id >>= λ r.
    (raise_if (not (truthy grantee_id)) grant_invalid
      >> (raise_if (is_public r.visibility) grant_conflict
          >> (check_grantee p who kind r type grantee_id access >>= λ name.
              (let g = new_grant who fresh (grants_of r) type grantee_id name access in
                ok (save p kind r (with_grant g (grants_of r)), g)))))

unfoldable pub revoke :
    Platform → Option Subject → Kind → String → String → Result (Platform × ResourceGrant)
unfolding resource_to_share upsert
revoke p who kind id grant_id = resource_to_share p who kind id >>= λ r.
    (lift_option (find? (λ g. str_eq g.id grant_id) (grants_of r)) resource_not_found >>= λ gone.
    ok (save p kind r (filter (λ g. not (str_eq g.id grant_id)) (grants_of r)), gone))

unfoldable pub find_grant :
    Platform → Option Subject → Kind → String → GranteeType → String → Result (Option ResourceGrant)
unfolding list_grants
find_grant p who kind id type grantee_id =
    list_grants p who kind id >>= λ grants. ok (find? (is_for type grantee_id) grants)

-- ─── for a picker ───

abbrev pub may_be_granted : Resource → UserRecord → Bool
may_be_granted r u = not (opt_eq r.owner_id (some u.sub) || in_its_team r u)

abbrev users_of : Option Directory → List UserRecord
users_of none = []
users_of (some directory) = directory.users

abbrev picks : Platform → Kind → Resource → Resource → Bool
picks p kind r w = not (w.readonly || same_kind kind workflow && str_eq w.id r.id || covered p w r)

-- the users and the workflows that are offered, in no particular order
unfoldable pub candidates :
    Platform → Option Subject → Kind → String → Result (List UserRecord × List Resource)
unfolding resource_to_share scope_violation list
candidates p who kind id = resource_to_share p who kind id >>= λ r. ok (
  filter (may_be_granted r) (users_of p.directory),
  filter (picks p kind r) (list who (stored p.workflows)),
)
