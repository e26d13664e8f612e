-- ===== src/Visibility/Tests.antt =====
-- Resources of two people and a team, on which the theorems about visibility are tried.
use ai_agents_carrier.Base.{
  String, ◌≡◌, refl, true, false, Option, none, some, [], ◌∷◌, Memᴰ, str_eq, is_space,
  if◌then◌else◌,
}
use ai_agents_carrier.Base.Json.{Fields, string, arr, obj, nil, cons, end, field}
use ai_agents_carrier.Auth.Principal.{Subject}
use ai_agents_carrier.Teams.Directory.{Directory}
use ai_agents_carrier.Visibility.Model.{
  Visibility, team, Kind, agent, datasource, Resource, resource_not_found, id_taken, ok, err,
  Access, GranteeType, ResourceGrant,
}
use ai_agents_carrier.Visibility.Predicates
use ai_agents_carrier.Visibility.Predicates.{
  can_see, can_see_natively, can_manage, can_edit, can_change_visibility,
}
use ai_agents_carrier.Visibility.References
use ai_agents_carrier.Visibility.References.{Reference}
use ai_agents_carrier.Visibility.Guard
use ai_agents_carrier.Visibility.Guard.{
  Store, Platform, scope_violation, violation, out_of_sight, check_references, get, stored, resolve,
}
use ai_agents_carrier.Visibility.Scoped
use ai_agents_carrier.Base.{ap}
use ai_agents_carrier.Visibility.Model.{private}
use ai_agents_carrier.Visibility.Sources.{get_source, new_workflow-finds}
use ai_agents_carrier.Visibility.Scoped.{get_visible, create, update, delete}
use ai_agents_carrier.Visibility.Sight.{change_needs_sight}
use ai_agents_carrier.Visibility.Scope.{scope_violation_sound, former_member}
use ai_agents_carrier.Visibility.Checks.{lookup, check_references_sound}
use ai_agents_carrier.Visibility.Saving.{IsRightful, update-IsRightful, hidden-refused}
use ai_agents_carrier.Visibility.Sharing.{grant, revoke, find_grant, save}
use ai_agents_carrier.Visibility.Granted.{holds_kind, find_grant-grant, revoke-grant}
use ai_agents_carrier.Visibility.Grantees.{IsFair, grant-IsFair}

abbrev ann : Subject
ann = record {
  id = some "ann";
  name = none;
  is_super_admin = false;
  team_id = some "red";
  team_role = none;
}

abbrev bob : Subject
bob = record {
  id = some "bob";
  name = none;
  is_super_admin = false;
  team_id = none;
  team_role = none;
}

abbrev resource_of : String → Kind → Visibility → Option String → Option String → Fields → Resource
resource_of id kind visibility owner team_id body = record {
  id = id;
  name = id;
  kind = kind;
  readonly = false;
  visibility = visibility;
  visibility_set = true;
  owner_id = owner;
  owner_name = none;
  team_id = team_id;
  team_id_set = true;
  grants = [];
  body = body;
}

abbrev sales : Resource
sales = resource_of "sales" datasource team (some "ann") (some "red") end

abbrev addon : Fields
addon = field "type" (string "datasource") (field "source_id" (string "sales") end)

abbrev analyst : Resource
analyst =
    resource_of "analyst" agent team (some "ann") (some "red")
      (field "addons" (arr "[…]" (cons (obj "{…}" addon) nil)) end)

abbrev directory : Directory
directory = record {
  users = record { sub = "ann"; name = none; team_id = some "red"; team_role = none } ∷ [];
  teams = [];
}

abbrev platform : Platform
platform = record {
  agents = some (analyst ∷ []);
  datasources = some (sales ∷ []);
  scripts = some [];
  workflows = some [];
  directory = some directory;
  graphql_writes = λ v. false;
}

change_needs_sight_example : can_see (some ann) sales ≡ true
unfolding Predicates.can_manage Predicates.can_edit Predicates.can_change_visibility
change_needs_sight_example = change_needs_sight (some ann) sales refl

scope_violation_sound_example : can_see_natively (some ann) sales ≡ true
unfolding scope_violation can_see_natively
scope_violation_sound_example =
    scope_violation_sound platform ann analyst sales refl refl (λ e. refl) (λ o e. refl) refl

former_member_example :
    (scope_violation platform analyst (record sales { owner_id = none }) ≡ none)
    × (can_see_natively (some (record ann { team_id = none })) analyst ≡ true)
    × (can_see_natively (some (record ann { team_id = none })) (record sales { owner_id = none })
        ≡ false)
former_member_example =
    former_member platform (record ann { team_id = none }) analyst
      (record sales { owner_id = none }) "red" refl refl refl refl refl refl refl refl

check_references_sound_example :
    (violation platform analyst agent sales ≡ none)
    × (out_of_sight (some ann) agent analyst [] (datasource, "sales") sales ≡ false)
unfolding check_references References.references Guard.check_each Guard.check_reference get
    Guard.check_target out_of_sight can_see violation scope_violation Guard.check_calls
    References.datasource_operations Guard.check_operations lookup
check_references_sound_example =
    check_references_sound platform (some ann) agent analyst none ((datasource, "sales") ∷ []) []
      (datasource, "sales") sales refl refl refl (Memᴰ.head refl) refl refl

hidden-refused_example :
    (get_visible (some bob) (analyst ∷ []) "analyst" ≡ none)
    × (update platform (some bob) agent "analyst" analyst ≡ err resource_not_found)
    × (delete platform (some bob) agent "analyst" ≡ err resource_not_found)
    × (create platform (some bob) agent analyst ≡ err id_taken)
unfolding can_see get
hidden-refused_example =
    hidden-refused platform (some bob) agent analyst analyst (analyst ∷ []) refl refl refl

update-IsRightful_example :
    (saved : Resource) × (get (stored (resolve platform agent)) "analyst" ≡ some saved)
    × IsRightful (some ann) analyst analyst saved
    × ((other : String)
        → get (stored (resolve platform agent)) other
          ≡ (if str_eq "analyst" other then some saved else get (analyst ∷ []) other))
unfolding update get can_see can_edit Scoped.check_editable Scoped.prepare Scoped.team_for
    Scoped.stamp Scoped.finish_save Scoped.check_save check_references References.references
    Guard.check_each Guard.check_reference Guard.check_target out_of_sight violation scope_violation
    Guard.check_calls References.datasource_operations Guard.check_operations lookup Scoped.narrowed
    Scoped.upsert Scoped.resolve_team Scoped.check_team Scoped.stamp_old Scoped.stamp_new
    can_change_visibility
update-IsRightful_example =
    update-IsRightful platform (some ann) agent "analyst" analyst platform (analyst ∷ []) analyst
      refl refl refl

-- ann opens her team's sheet to bob, who is in no team
abbrev workshop : Platform
workshop = record platform {
  directory = some (record directory {
    users =
        record { sub = "bob"; name = some "Bob"; team_id = none; team_role = none }
        ∷ directory.users;
  });
}

abbrev for_bob : ResourceGrant
for_bob = record {
  id = "g1";
  grantee_type = GranteeType.user;
  grantee_id = "bob";
  grantee_name = some "Bob";
  access = Access.read;
  granted_by = some "ann";
  granted_by_name = none;
}

abbrev opened : Platform × ResourceGrant
opened = (save workshop datasource sales (for_bob ∷ []), for_bob)

find_grant-grant_example :
    (find_grant opened.0 (some ann) datasource "sales" GranteeType.user "bob" ≡ ok (some for_bob))
    × (for_bob.access ≡ Access.read)
unfolding grant holds_kind get is_space
find_grant-grant_example =
    find_grant-grant workshop (some ann) datasource "sales" GranteeType.user " bob" Access.read "g1"
      opened refl refl

revoke-grant_example :
    (gone : Platform × ResourceGrant) × (revoke opened.0 (some ann) datasource "sales" "g1"
      ≡ ok gone)
    × (find_grant gone.0 (some ann) datasource "sales" GranteeType.user "bob" ≡ ok none)
unfolding grant holds_kind get is_space
revoke-grant_example =
    revoke-grant workshop (some ann) datasource "sales" GranteeType.user " bob" Access.read "g1"
      opened refl refl

grant-IsFair_example :
    IsFair workshop
      (some ann)
      datasource
      "sales"
      GranteeType.user
      " bob"
      Access.read
      opened
      "stock"
      (GranteeType.workflow, "nightly")
unfolding grant get is_space
grant-IsFair_example =
    grant-IsFair workshop (some ann) datasource "sales" GranteeType.user " bob" Access.read "g1"
      opened "stock" (GranteeType.workflow, "nightly") refl refl refl

-- a workflow that uses a data source of somebody else, which is granted to it
abbrev report : Resource
report = resource_of "report" Kind.workflow private (some "ann") (some "red") (
    field "steps"
      (arr "[…]" (
        cons
          (obj "{…}" (field "type" (string "data_source") (field "source" (string "payroll") end)))
          nil))
      end)

abbrev payroll : Resource
payroll = record (resource_of "payroll" datasource private (some "carl") (some "red") end) {
  grants = record for_bob { grantee_type = GranteeType.workflow; grantee_id = "report" } ∷ [];
}

abbrev owner_of : Option Subject → Option String
owner_of none = some "ann"
owner_of (some subject) = subject.id

new_workflow-finds_example :
    get_source (some ann) (payroll ∷ []) (some "report") "payroll" ≡ some payroll
unfolding check_references References.references Guard.check_each Guard.check_reference get
    Guard.check_target out_of_sight can_see violation scope_violation Guard.check_calls
    References.datasource_operations Guard.check_operations lookup Predicates.grant_access
new_workflow-finds_example =
    new_workflow-finds (record platform { datasources = some (payroll ∷ []) }) (some ann) report
      ((datasource, "payroll") ∷ []) (datasource, "payroll") payroll refl
      (λ subject e. ap owner_of e) refl refl (Memᴰ.head refl) refl refl
