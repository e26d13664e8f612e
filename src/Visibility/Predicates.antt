-- ===== src/Visibility/Predicates.antt =====
-- The predicates of app/application/visibility.py. The ambient subject is the first argument: `none`
-- is a task to which nothing is bound.
use ai_agents_carrier.Base.{
  ℕ, String, Bool, true, false, not, ◌&&◌, ◌||◌, Option, none, some, List, [], ◌∷◌, str_eq, opt_eq,
  is_set, truthy, is_empty, if◌then◌else◌,
}
use ai_agents_carrier.Auth.Principal.{Subject}
use ai_agents_carrier.Visibility.Model.{
  Visibility, public, team, private, Access, read, read_write, GranteeType, user, ResourceGrant,
  Kind, Resource, team_editable, grant_edits, has_grants, same_grantee, same_visibility, same_kind,
}

-- `_team`: the team of a resource that is shared with one
unfoldable pub team_of_resource : Resource → Option String
team_of_resource r = elim r.visibility [ team ↦ r.team_id | _ ↦ none ]

abbrev pub rank : Visibility → ℕ
rank private = 0
rank team = 1
rank public = 2

abbrev pub is_public : Visibility → Bool
is_public public = true
is_public _ = false

unfoldable pub in_team : Subject → Resource → Bool
unfolding team_of_resource
in_team subject resource = elim (team_of_resource resource) [
  | none ↦ false
  | some t ↦ opt_eq subject.team_id (some t)
]

-- `grants_of`: a script has no grants
abbrev pub grants_of : Resource → List ResourceGrant
grants_of r = if has_grants r.kind then r.grants else []

-- the loop of `_grant`
unfoldable pub find_grant : List ResourceGrant → GranteeType → String → Option Access
find_grant [] type id = none
find_grant (grant ∷ grants) type id =
    let later = find_grant grants type id in
    if same_grantee grant.grantee_type type && str_eq grant.grantee_id id
    then some grant.access
    else later

unfoldable pub grant_of : Resource → GranteeType → Option String → Option Access
unfolding find_grant
grant_of resource type none = none
grant_of resource type (some id) =
    if truthy id then find_grant (grants_of resource) type id else none

abbrev pub user_grant : Resource → Option String → Option Access
user_grant resource id = grant_of resource user id

abbrev pub workflow_grant : Resource → Option String → Option Access
workflow_grant resource id = grant_of resource GranteeType.workflow id

-- `_best` of two levels
abbrev pub best : Option Access → Option Access → Option Access
best none b = b
best (some a) none = some a
best (some read) (some b) = some b
best (some read_write) (some b) = some read_write

abbrev pub present : Option Access → Bool
present none = false
present (some a) = true

abbrev pub is_read_write : Option Access → Bool
is_read_write (some read_write) = true
is_read_write _ = false

unfoldable pub caller_grant : Option Subject → Resource → Option Access
unfolding grant_of
caller_grant none resource = none
caller_grant (some subject) resource = user_grant resource subject.id

unfoldable pub grant_access : Resource → Kind → Resource → Option Access
unfolding grant_of
grant_access referrer referrer_kind used =
    if is_empty (grants_of used)
    then none
    else best
        (if same_kind referrer_kind Kind.workflow
          then workflow_grant used (some referrer.id)
          else none)
        (if same_visibility referrer.visibility private
          then user_grant used referrer.owner_id
          else none)

-- `subject.id is not None and owner == subject.id`
abbrev pub owns : Subject → Resource → Bool
owns subject resource = elim subject.id [
  | none ↦ false
  | some id ↦ opt_eq resource.owner_id (some id)
]

-- what `can_see` tests once somebody is bound
unfoldable pub subject_sees : Subject → Resource → Bool
unfolding grant_of in_team
subject_sees subject resource =
    if is_public resource.visibility || subject.is_super_admin
    then true
    else if owns subject resource
    then true
    else if present (user_grant resource subject.id)
    then true
    else in_team subject resource

unfoldable pub can_see : Option Subject → Resource → Bool
unfolding subject_sees
can_see none resource = true
can_see (some subject) resource = subject_sees subject resource

unfoldable pub can_see_natively : Option Subject → Resource → Bool
unfolding can_see
can_see_natively none resource = true
can_see_natively (some subject) resource =
    if not (is_set subject.id) || not (present (user_grant resource subject.id))
    then can_see (some subject) resource
    else if is_public resource.visibility || subject.is_super_admin
    then true
    else opt_eq resource.owner_id subject.id || in_team subject resource

unfoldable pub can_manage : Option Subject → Resource → Bool
can_manage none resource = true
can_manage (some subject) resource =
    if subject.is_super_admin then true else elim resource.owner_id [
      | none ↦ is_public resource.visibility
      | some owner ↦ opt_eq subject.id (some owner)
    ]

-- `can_edit` at given values of `team_editable` and `grant_edits`
unfoldable pub can_edit_as : Bool → Bool → Option Subject → Resource → Bool
unfolding can_manage in_team grant_of
can_edit_as by_team by_grant none resource = can_manage none resource
can_edit_as by_team by_grant (some subject) resource =
    if can_manage (some subject) resource
    then true
    else if by_team && in_team subject resource
    then true
    else by_grant && is_read_write (user_grant resource subject.id)

unfoldable pub can_edit : Option Subject → Resource → Bool
unfolding can_edit_as
can_edit who resource =
    can_edit_as (team_editable resource.kind) (grant_edits resource.kind) who resource

unfoldable pub can_change_visibility : Option Subject → Resource → Bool
unfolding can_manage in_team
can_change_visibility none resource = can_manage none resource
can_change_visibility (some subject) resource =
    if can_manage (some subject) resource
    then true
    else opt_eq subject.team_role (some "admin") && in_team subject resource

unfoldable pub default_visibility : Option Subject → Visibility
default_visibility none = public
default_visibility (some subject) = if is_set subject.id then private else public
