-- ===== src/Visibility/Scoped.antt =====
-- `VisibilityScopedBackend` of app/application/visibility.py. An operation that writes gives the
-- platform with the write, or the error that it raises; what it raises before it has written nothing.
use Prim.Native.String.{String}
use ai_agents_carrier.Base.{
  Bool, true, false, not, ◌&&◌, ◌||◌, Option, none, some, List, [], ◌∷◌, str_eq, opt_eq, is_set,
  or_else, filter, find?, ltb, if◌then◌else◌,
}
use ai_agents_carrier.Base.Json.{obj}
use ai_agents_carrier.Auth.Principal.{Subject}
use ai_agents_carrier.Teams.Directory.{Directory, get_team}
use ai_agents_carrier.Visibility.Model.{
  team, Kind, agent, datasource, script, workflow, has_grants, same_visibility, same_kind, Resource,
  not_owner, resource_not_found, id_taken, team_required, team_not_found, not_in_team, Result, ok,
  err, ◌>>=◌, ◌>>◌, raise_if,
}
use ai_agents_carrier.Visibility.Predicates.{
  team_of_resource, rank, is_public, can_see, can_edit, can_manage, can_change_visibility,
  default_visibility,
}
use ai_agents_carrier.Visibility.Guard.{
  Store, Platform, resolve, get, stored, check_references, check_narrowing, drop_workflow_grants,
}
use ai_agents_carrier.Visibility.Equality.{json_eq}

-- ─── the raw backend's writes ───

-- `replace_one({"_id": id}, doc, upsert=True)`
unfoldable pub upsert : Resource → Store → Store
upsert r [] = r ∷ []
upsert r (x ∷ store) =
    let later = upsert r store in if str_eq x.id r.id then r ∷ store else x ∷ later

unfoldable pub remove : String → Store → Store
remove id store = filter (λ r. not (str_eq r.id id)) store

abbrev change_store : (Store → Store) → Option Store → Option Store
change_store f none = none
change_store f (some store) = some (f store)

abbrev pub with_store : Platform → Kind → (Store → Store) → Platform
with_store p agent f = record p { agents = change_store f p.agents }
with_store p datasource f = record p { datasources = change_store f p.datasources }
with_store p script f = record p { scripts = change_store f p.scripts }
with_store p workflow f = record p { workflows = change_store f p.workflows }

-- ─── reads ───

unfoldable pub list : Option Subject → Store → List Resource
list who store = filter (can_see who) store

unfoldable pub get_visible : Option Subject → Store → String → Option Resource
unfolding get can_see
get_visible who store id = elim (get store id) [
  | none ↦ none
  | some r ↦ if can_see who r then some r else none
]

-- `get_by_name`, of scripts
unfoldable pub get_by_name : Option Subject → Store → String → Option Resource
unfolding can_see
get_by_name who store name = elim (find? (λ r. str_eq r.name name) store) [
  | none ↦ none
  | some r ↦
      if can_see who r then some r else find? (λ c. str_eq c.name name && can_see who c) store
]

-- ─── writes ───

abbrev stored_team : Option Resource → Option String
stored_team none = none
stored_team (some existing) = team_of_resource existing

abbrev pub requested_team : Resource → Option String
requested_team r = if r.team_id_set then r.team_id else none

-- what a super admin's choice of a team must pass
unfoldable pub check_team : Option Directory → Option String → Result (Option String)
unfolding get_team
check_team directory none = err team_required
check_team none (some t) = if is_set (some t) then ok (some t) else err team_required
check_team (some directory) (some t) =
    if is_set (some t)
    then elim (get_team directory t) [ none ↦ err team_not_found | some found ↦ ok (some t) ]
    else err team_required

unfoldable pub resolve_team :
    Platform → Option Subject → Resource → Option Resource → Result (Option String)
unfolding check_team team_of_resource
resolve_team p who resource existing =
    let requested = requested_team resource in
    let kept = stored_team existing in
    if is_set requested && opt_eq requested kept then ok kept else elim who [
      | none ↦ ok (or_else requested kept)
      | some subject ↦
          if subject.is_super_admin
          then check_team p.directory (or_else (or_else requested kept) subject.team_id)
          else if is_set requested && not (opt_eq requested subject.team_id)
          then err not_owner
          else if is_set kept && not (is_set requested)
          then ok kept
          else if not (is_set subject.team_id)
          then err not_in_team
          else ok subject.team_id
    ]

-- who a save is by: the id and name that become the owner's
abbrev caller_id : Option Subject → Option String
caller_id none = none
caller_id (some subject) = if is_set subject.id then subject.id else none

abbrev caller_name : Option Subject → Option String
caller_name none = none
caller_name (some subject) = if is_set subject.id then subject.name else none

-- the owner, grants and visibility that a save stamps on a new resource
unfoldable pub stamp_new : Option Subject → Resource → Resource
unfolding default_visibility
stamp_new who resource = record resource {
  visibility = if resource.visibility_set then resource.visibility else default_visibility who;
  owner_id = caller_id who;
  owner_name = caller_name who;
  grants = if has_grants resource.kind then [] else resource.grants;
}

-- an ownerless resource that is narrowed gets the caller as its owner
abbrev adopt : Option Subject → Resource → Resource
adopt who resource =
    if not (is_public resource.visibility)
      && opt_eq resource.owner_id none
      && is_set (caller_id who)
    then record resource { owner_id = caller_id who; owner_name = caller_name who }
    else resource

unfoldable pub stamp_old : Option Subject → Resource → Resource → Resource
stamp_old who resource existing = adopt who (record resource {
  grants = if has_grants resource.kind then existing.grants else resource.grants;
  owner_id = existing.owner_id;
  owner_name = existing.owner_name;
  visibility = if resource.visibility_set then resource.visibility else existing.visibility;
})

unfoldable pub stamp : Option Subject → Resource → Option Resource → Resource
unfolding stamp_new stamp_old
stamp who resource none = stamp_new who resource
stamp who resource (some existing) = stamp_old who resource existing

unfoldable pub team_for :
    Platform → Option Subject → Resource → Option Resource → Result (Option String)
unfolding resolve_team
team_for p who resource existing = elim resource.visibility [
  | team ↦ resolve_team p who resource existing
  | _ ↦ ok none
]

-- whether a save changes who can see the stored resource
abbrev pub rescopes : Resource → Resource → Bool
rescopes resource existing =
    not (same_visibility resource.visibility existing.visibility)
    || not (opt_eq resource.team_id (team_of_resource existing))

abbrev pub may_rescope : Option Subject → Resource → Option Resource → Bool
may_rescope who resource none = true
may_rescope who resource (some existing) =
    not (rescopes resource existing) || can_change_visibility who existing

unfoldable pub narrowed : Resource → Option Resource → Bool
unfolding team_of_resource
narrowed resource none = not (is_public resource.visibility)
narrowed resource (some existing) =
    ltb (rank resource.visibility) (rank existing.visibility)
    || same_visibility resource.visibility team
      && not (opt_eq resource.team_id (team_of_resource existing))

-- the checks at the end of `_prepare`, made when somebody is bound
unfoldable pub check_save :
    Platform → Option Subject → Kind → Resource → Option Resource → Result (Unit {0})
check_save p none kind resource existing = ok tt
check_save p (some subject) kind resource existing = do
  check_references p (some subject) kind resource existing
  if narrowed resource existing then check_narrowing p kind resource else ok tt

-- the end of `_prepare`, once the team is known
unfoldable pub finish_save :
    Platform → Option Subject → Kind → Option Resource → Resource → Result Resource
finish_save p who kind existing saved = do
  raise_if (not (may_rescope who saved existing)) not_owner
  check_save p who kind saved existing
  ok saved

unfoldable pub prepare :
    Platform → Option Subject → Kind → Resource → Option Resource → Result Resource
prepare p who kind resource existing = do
  team_id ← team_for p who (stamp who resource existing) existing
  finish_save p who kind existing (record (stamp who resource existing) { team_id = team_id })

unfoldable pub check_editable : Option Subject → Resource → Result (Unit {0})
check_editable who existing = do
  raise_if (not (can_see who existing)) resource_not_found
  raise_if (not (can_edit who existing)) not_owner

abbrev pub creatable : Option Subject → Option Resource → Result (Unit {0})
creatable who none = ok tt
creatable who (some existing) = do
  raise_if (not (can_see who existing)) id_taken
  check_editable who existing

unfoldable pub create : Platform → Option Subject → Kind → Resource → Result Platform
create p who kind resource = do
  let existing = get (stored (resolve p kind)) resource.id
  creatable who existing
  saved ← prepare p who kind resource existing
  ok (with_store p kind (upsert saved))

-- what may differ in a change of scope alone: the fields of `_SCOPE_FIELDS` and the timestamps
unfoldable pub only_scope_changed : Resource → Resource → Bool
unfolding json_eq
only_scope_changed existing resource =
    str_eq existing.id resource.id
    && str_eq existing.name resource.name
    && (existing.readonly && resource.readonly || not existing.readonly && not resource.readonly)
    && json_eq (obj "" existing.body) (obj "" resource.body)

abbrev pub updatable : Option Subject → Resource → Option Resource → Result (Unit {0})
updatable who resource none = ok tt
updatable who resource (some existing) =
    if can_see who existing
      && not (can_edit who existing)
      && can_change_visibility who existing
      && only_scope_changed existing resource
    then ok tt
    else check_editable who existing

unfoldable pub update : Platform → Option Subject → Kind → String → Resource → Result Platform
update p who kind id resource = do
  let existing = get (stored (resolve p kind)) id
  updatable who resource existing
  saved ← prepare p who kind resource existing
  ok (with_store p kind (upsert (record saved { id = id })))

abbrev pub deletable : Option Subject → Option Resource → Result (Unit {0})
deletable who none = ok tt
deletable who (some existing) = do
  raise_if (not (can_see who existing)) resource_not_found
  raise_if (not (can_manage who existing)) not_owner

abbrev is_some : Option Resource → Bool
is_some none = false
is_some (some r) = true

unfoldable pub delete : Platform → Option Subject → Kind → String → Result Platform
delete p who kind id = do
  let existing = get (stored (resolve p kind)) id
  deletable who existing
  let removed = with_store p kind (remove id)
  ok (
      if same_kind kind workflow && is_some existing
      then drop_workflow_grants removed id
      else removed)
