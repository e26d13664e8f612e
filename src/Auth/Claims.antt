-- ===== src/Auth/Claims.antt =====
-- `extract_roles` of app/infrastructure/auth/authorization.py, and the methods of the policy that
-- read a token's claims. Keys and elements are the texts that `str` makes of them.
use Prim.Native.String
use text.Mathlib.Text.{starts_with}
use ai_agents_carrier.Base.{
  String, not, ◌&&◌, Option, none, some, List, [], ◌∷◌, ◌++◌, truthy, str_eq, split, ends_with,
  is_empty, if◌then◌else◌,
}
use ai_agents_carrier.Auth.Policy.{
  AuthorizationPolicy, PermissionSet, permissions_for_roles, permissions_for_roles_strict,
}

-- The value of a claim, as JSON gives it: only its shape and its names matter here.
pub data Claim : Type 0 where
  dict : List String → Claim
  sequence : List String → Claim
  string : String → Claim
  other : Claim

abbrev pub Claims : Type 0
Claims = List (String × Claim)

-- `_names`; an absent claim is `None`, which has none
unfoldable pub names : Option Claim → List String
names none = []
names (some (dict keys)) = keys
names (some (sequence values)) = values
names (some (string value)) = split value
names (some other) = []

-- `claims.get(key)`
unfoldable pub get : String → Claims → Option Claim
get key [] = none
get key ((k, value) ∷ claims) = if str_eq k key then some value else get key claims

abbrev pub roles_key : String → String
roles_key project_id = String.◌++◌ "urn:zitadel:iam:org:project:" (String.◌++◌ project_id ":roles")

-- the loop over every project's roles
unfoldable pub all_project_roles : Claims → List String
unfolding names ends_with
all_project_roles [] = []
all_project_roles ((key, value) ∷ claims) =
    let rest = all_project_roles claims in
    if starts_with key "urn:zitadel:iam:org:project" && ends_with key ":roles"
    then names (some value) ++ rest
    else rest

unfoldable pub project_roles : Claims → Option String → List String
unfolding get names
project_roles claims none = []
project_roles claims (some project_id) =
    if truthy project_id then names (get (roles_key project_id) claims) else []

unfoldable pub extract_roles : Claims → Option String → List String
unfolding get names project_roles all_project_roles
extract_roles claims project_id =
    let flat = names (get "roles" claims) in
    let own = project_roles claims project_id in
    if not (is_empty flat)
    then flat
    else if not (is_empty own)
    then own
    else all_project_roles claims

unfoldable pub roles_of : AuthorizationPolicy → Claims → List String
unfolding extract_roles
roles_of policy claims = extract_roles claims policy.project_id

unfoldable pub permissions_for_claims : AuthorizationPolicy → Claims → PermissionSet
unfolding permissions_for_roles extract_roles
permissions_for_claims policy claims =
    permissions_for_roles policy (extract_roles claims policy.project_id)

unfoldable pub evaluate_shadow : AuthorizationPolicy → Claims → PermissionSet
unfolding permissions_for_roles_strict roles_of
evaluate_shadow policy claims = permissions_for_roles_strict policy (roles_of policy claims)
