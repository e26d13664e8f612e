-- ===== src/Auth/Tests.antt =====
-- Definitions, tokens and a policy on which the theorems about authorization are tried.
use ai_agents_carrier.Base.{
  String, ◌≡◌, refl, ◌↔◌, ◌⊎◌, ◌≢◌, true, false, none, some, List, [], ◌∷◌, Memᴰ, All, strip,
  is_space, arith,
}
use ai_agents_carrier.Base.Json
use ai_agents_carrier.Base.Json.{
  Json, Items, Fields, null, bool, string, arr, obj, nil, cons, end, field,
}
use ai_agents_carrier.Combined.{iter_parts}
use ai_agents_carrier.Auth.Policy.{
  read, write, admin, super_admin, PermissionSet, AuthorizationPolicy, Settings, from_settings,
  permissions_for_roles_strict, permissions_for_roles, permissions_for_api_key, grant_each,
  effective_super_admin_roles,
}
use ai_agents_carrier.Auth.Claims.{
  Claim, Claims, extract_roles, names, project_roles, all_project_roles,
}
use ai_agents_carrier.Auth.Claims
use ai_agents_carrier.Auth.Sandbox.{
  Definition, raw, steps_of, steps_in, step_list, nested_parts, each_part, runtime_of,
  isolated_runtime, lower, lower_char, problem, admin_only_from, find_admin_only_python_steps,
  assert_sandbox_allowed, generated_code_permitted,
}
use ai_agents_carrier.Auth.Grants.{
  IsGranted, permissions_for_roles_strict_iff, permissions_mono, api_key_capped,
}
use ai_agents_carrier.Auth.Gate.{IsIsolated, assert_sandbox_allowed_iff, api_key_gated}
use ai_agents_carrier.Auth.Inspection.{
  allowed-parts, levels, levels_items, levels_part, levels_nested,
}
use ai_agents_carrier.Auth.Roles.{
  IsClaimed, extract_roles-IsClaimed, IsClean, from_settings-IsClean,
}

abbrev policy : AuthorizationPolicy
policy = record {
  enforce = true;
  project_id = none;
  access_roles = "user" ∷ [];
  read_roles = "reader" ∷ [];
  write_roles = "writer" ∷ [];
  delete_roles = [];
  admin_roles = "boss" ∷ [];
  super_admin_roles = [];
  deny_roles = "banned" ∷ [];
}

abbrev reader : List String
reader = "user" ∷ "reader" ∷ []

abbrev writer : List String
writer = "user" ∷ "reader" ∷ "writer" ∷ []

reader_held : (a : String) → Memᴰ a reader → Memᴰ a writer
reader_held a (Memᴰ.head e) = Memᴰ.head e
reader_held a (Memᴰ.tail (Memᴰ.head e)) = Memᴰ.tail (Memᴰ.head e)
reader_held a (Memᴰ.tail (Memᴰ.tail m)) = elim m [ ]

permissions_for_roles_strict_iff_example :
    (permissions_for_roles_strict policy reader read ≡ true) ↔ IsGranted policy reader read
permissions_for_roles_strict_iff_example = permissions_for_roles_strict_iff policy reader read

permissions_mono_example : permissions_for_roles policy writer read ≡ true
unfolding permissions_for_roles permissions_for_roles_strict grant_each effective_super_admin_roles
permissions_mono_example = permissions_mono policy reader writer read reader_held refl refl

api_key_capped_example :
    (permissions_for_api_key policy write ≡ true) ↔ ((write ≢ admin) × (write ≢ super_admin))
api_key_capped_example = api_key_capped policy write

-- ─── tokens and settings ───

abbrev token : Claims
token = ("roles", Claim.sequence ("reader" ∷ [])) ∷ ("groups", Claim.sequence ("boss" ∷ [])) ∷ []

extract_roles-IsClaimed_example : IsClaimed token none "reader"
unfolding extract_roles names Claims.get
extract_roles-IsClaimed_example = extract_roles-IsClaimed token none "reader" (Memᴰ.head refl)

abbrev settings : Settings
settings = record {
  auth_enforce_permissions = true;
  auth_project_id = none;
  auth_access_roles = some (" user " ∷ "" ∷ []);
  auth_read_roles = some ("reader" ∷ []);
  auth_write_roles = none;
  auth_delete_roles = none;
  auth_admin_roles = some ("boss" ∷ []);
  auth_super_admin_roles = none;
  auth_deny_roles = none;
}

from_settings-IsClean_example :
    let policy = (from_settings settings).0 in
    All IsClean policy.access_roles
    × All IsClean policy.read_roles
    × All IsClean policy.write_roles
    × All IsClean policy.delete_roles
    × All IsClean policy.admin_roles
    × All IsClean policy.super_admin_roles
    × All IsClean policy.deny_roles
from_settings-IsClean_example = from_settings-IsClean settings

-- ─── definitions ───

abbrev docker_step : Fields
docker_step =
    field "id" (string "calc")
      (field "type" (string "python") (field "sandbox_runtime" (string "docker") end))

abbrev both : Fields
both = field "id" (string "both") (
    field "type" (string "combined_datasource")
      (field "parts" (arr "[…]" (cons (obj "{…}" docker_step) nil)) end))

abbrev steps : Items
steps = cons (obj "{…}" both) nil

abbrev definition : Definition
definition = raw (arr "[…]" steps)

abbrev plain_caller : PermissionSet
plain_caller = permissions_for_roles_strict policy writer

assert_sandbox_allowed_iff_example :
    (assert_sandbox_allowed definition plain_caller ≡ none)
    ↔ ((plain_caller admin ≡ true) ⊎ All IsIsolated (steps_of definition))
assert_sandbox_allowed_iff_example = assert_sandbox_allowed_iff definition plain_caller

api_key_gated_example :
    All IsIsolated (steps_of definition)
    × (generated_code_permitted (some (permissions_for_api_key policy)) ≡ false)
unfolding assert_sandbox_allowed find_admin_only_python_steps permissions_for_api_key steps_of
    steps_in step_list nested_parts each_part admin_only_from problem runtime_of isolated_runtime
    lower lower_char strip is_space
api_key_gated_example = api_key_gated policy definition refl

allowed-parts_example : IsIsolated (obj "{…}" both) × All IsIsolated (obj "{…}" docker_step ∷ [])
unfolding permissions_for_roles_strict grant_each effective_super_admin_roles assert_sandbox_allowed
    find_admin_only_python_steps steps_of steps_in step_list nested_parts each_part admin_only_from
    problem runtime_of isolated_runtime lower lower_char strip is_space iter_parts Json.get levels
    levels_items levels_part levels_nested
allowed-parts_example =
    allowed-parts "[…]" "{…}" "" steps both plain_caller (("calc", obj "{…}" docker_step) ∷ []) refl
      refl (Memᴰ.head refl) refl (omega arith) refl
