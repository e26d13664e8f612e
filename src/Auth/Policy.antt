-- ===== src/Auth/Policy.antt =====
-- `Permission` and `AuthorizationPolicy` of app/infrastructure/auth/authorization.py. A
-- `frozenset[Permission]` is its test for membership, a set of role names the list of its elements.
-- The log lines of `warn_if_misconfigured` are the warnings that it returns.
use ai_agents_carrier.Base.{
  String, Bool, true, false, not, ◌&&◌, ◌||◌, Option, none, some, List, [], ◌∷◌, truthy, contains,
  meets, strip, filter, map, is_empty, if◌then◌else◌,
}

pub data Permission : Type 0 where
  access read write delete admin super_admin : Permission

abbrev pub same : Permission → Permission → Bool
same access access = true
same read read = true
same write write = true
same delete delete = true
same admin admin = true
same super_admin super_admin = true
same _ _ = false

abbrev pub PermissionSet : Type 0
PermissionSet = Permission → Bool

abbrev pub nothing : PermissionSet
nothing p = false

-- `frozenset(Permission)`
abbrev pub everything : PermissionSet
everything p = true

abbrev pub set_of : List Permission → PermissionSet
set_of [] p = false
set_of (q ∷ qs) p = same q p || set_of qs p

abbrev pub minus : PermissionSet → PermissionSet → PermissionSet
minus a b p = a p && not (b p)

abbrev pub add : Permission → PermissionSet → PermissionSet
add q granted p = same q p || granted p

-- _KEY_FORBIDDEN_PERMISSIONS
abbrev pub key_forbidden_permissions : PermissionSet
key_forbidden_permissions = set_of (admin ∷ super_admin ∷ [])

pub record AuthorizationPolicy : Type 0 where
  pub enforce : Bool
  pub project_id : Option String
  pub access_roles : List String
  pub read_roles : List String
  pub write_roles : List String
  pub delete_roles : List String
  pub admin_roles : List String
  pub super_admin_roles : List String
  pub deny_roles : List String

-- `self.super_admin_roles or self.admin_roles`
unfoldable pub effective_super_admin_roles : AuthorizationPolicy → List String
effective_super_admin_roles policy =
    if is_empty policy.super_admin_roles then policy.admin_roles else policy.super_admin_roles

-- `_norm`: an entry that is empty or white space is dropped, the others are stripped
unfoldable pub norm : Option (List String) → List String
norm none = []
norm (some roles) = map strip (filter (λ r. truthy r && truthy (strip r)) roles)

-- The settings that the policy reads; a field that is not configured is `none`.
pub record Settings : Type 0 where
  pub auth_enforce_permissions : Bool
  pub auth_project_id : Option String
  pub auth_access_roles : Option (List String)
  pub auth_read_roles : Option (List String)
  pub auth_write_roles : Option (List String)
  pub auth_delete_roles : Option (List String)
  pub auth_admin_roles : Option (List String)
  pub auth_super_admin_roles : Option (List String)
  pub auth_deny_roles : Option (List String)

pub data Warning : Type 0 where
  not_enforced no_access_roles no_admin_roles : Warning

unfoldable pub warn_if_misconfigured : AuthorizationPolicy → List Warning
warn_if_misconfigured policy =
    if not policy.enforce
    then not_enforced ∷ []
    else let later = if is_empty policy.admin_roles then no_admin_roles ∷ [] else [] in
      if is_empty policy.access_roles then no_access_roles ∷ later else later

unfoldable pub from_settings : Settings → AuthorizationPolicy × List Warning
unfolding norm warn_if_misconfigured
from_settings settings =
    let policy : AuthorizationPolicy = record {
      enforce = settings.auth_enforce_permissions;
      project_id = settings.auth_project_id;
      access_roles = norm settings.auth_access_roles;
      read_roles = norm settings.auth_read_roles;
      write_roles = norm settings.auth_write_roles;
      delete_roles = norm settings.auth_delete_roles;
      admin_roles = norm settings.auth_admin_roles;
      super_admin_roles = norm settings.auth_super_admin_roles;
      deny_roles = norm settings.auth_deny_roles;
    } in
    (policy, warn_if_misconfigured policy)

-- the loop over the pairs of a permission and its roles
unfoldable pub grant_each :
    List (Permission × List String) → List String → PermissionSet → PermissionSet
grant_each [] roles granted = granted
grant_each ((permission, allowed) ∷ rest) roles granted =
    grant_each rest roles (if meets roles allowed then add permission granted else granted)

abbrev pub role_pairs : AuthorizationPolicy → List (Permission × List String)
role_pairs policy =
    (read, policy.read_roles)
    ∷ (write, policy.write_roles)
    ∷ (delete, policy.delete_roles)
    ∷ (admin, policy.admin_roles)
    ∷ (super_admin, effective_super_admin_roles policy)
    ∷ []

unfoldable pub permissions_for_roles_strict : AuthorizationPolicy → List String → PermissionSet
unfolding grant_each effective_super_admin_roles
permissions_for_roles_strict policy roles =
    if meets roles policy.deny_roles || not (meets roles policy.access_roles)
    then nothing
    else grant_each (role_pairs policy) roles (set_of (access ∷ []))

unfoldable pub permissions_for_roles : AuthorizationPolicy → List String → PermissionSet
unfolding permissions_for_roles_strict
permissions_for_roles policy roles =
    if not policy.enforce then everything else permissions_for_roles_strict policy roles

unfoldable pub denied_roles : AuthorizationPolicy → List String → List String
denied_roles policy roles = filter (contains policy.deny_roles) roles

unfoldable pub permissions_for_api_key : AuthorizationPolicy → PermissionSet
permissions_for_api_key policy =
    if not policy.enforce
    then minus everything key_forbidden_permissions
    else minus (set_of (access ∷ read ∷ write ∷ delete ∷ [])) key_forbidden_permissions
