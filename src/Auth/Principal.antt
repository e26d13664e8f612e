-- ===== src/Auth/Principal.antt =====
-- What app/infrastructure/auth/authorization.py requires of an HTTP method, and the principal and
-- the subject that it binds to a task. A context variable is an argument: `none` is unbound.
use Prim.Native.Char.{code}
use ai_agents_carrier.Base.{
  ℕ, ◌-◌, String, Bool, true, false, ◌&&◌, Option, none, some, List, [], ◌∷◌, ◌++◌, is_set, or_else,
  leb, ◌==◌, if◌then◌else◌,
}
use ai_agents_carrier.Auth.Policy.{Permission, read, write, delete, PermissionSet, nothing}

-- `str.upper` of one character, exact as far as a comparison with ASCII text goes: besides a to z,
-- only these characters have upper case forms of ASCII letters alone; every other keeps a
-- character that is not ASCII.
unfoldable pub upper_char : ℕ → List ℕ
upper_char c =
    if leb 97 c && leb c 122
    then (c - 32) ∷ []
    else if c == 0xdf
    then b'S' ∷ b'S' ∷ []
    else if c == 0x131
    then b'I' ∷ []
    else if c == 0x17f
    then b'S' ∷ []
    else if c == 0xfb00
    then b'F' ∷ b'F' ∷ []
    else if c == 0xfb01
    then b'F' ∷ b'I' ∷ []
    else if c == 0xfb02
    then b'F' ∷ b'L' ∷ []
    else if c == 0xfb03
    then b'F' ∷ b'F' ∷ b'I' ∷ []
    else if c == 0xfb04
    then b'F' ∷ b'F' ∷ b'L' ∷ []
    else if c == 0xfb05
    then b'S' ∷ b'T' ∷ []
    else if c == 0xfb06
    then b'S' ∷ b'T' ∷ []
    else c ∷ []

unfoldable pub upper : String → List ℕ
unfolding upper_char
upper String.[] = []
upper (String.◌∷◌ c s) = upper_char (code c) ++ upper s

abbrev pub codes : String → List ℕ
codes String.[] = []
codes (String.◌∷◌ c s) = code c ∷ codes s

abbrev pub codes_eq : List ℕ → List ℕ → Bool
codes_eq [] [] = true
codes_eq (x ∷ xs) (y ∷ ys) = x == y && codes_eq xs ys
codes_eq _ _ = false

-- `_METHOD_PERMISSIONS.get(method, default)`
unfoldable pub lookup_method : List (String × Permission) → List ℕ → Permission → Permission
lookup_method [] method default = default
lookup_method ((name, permission) ∷ rest) method default =
    if codes_eq (codes name) method then permission else lookup_method rest method default

abbrev pub method_permissions : List (String × Permission)
method_permissions =
    ("GET", read)
    ∷ ("HEAD", read)
    ∷ ("OPTIONS", read)
    ∷ ("POST", write)
    ∷ ("PUT", write)
    ∷ ("PATCH", write)
    ∷ ("DELETE", delete)
    ∷ []

unfoldable pub permission_for_method : String → Permission
unfolding lookup_method upper
permission_for_method method = lookup_method method_permissions (upper method) write

-- `get_current_permissions`: an unbound principal holds nothing
unfoldable pub get_current_permissions : Option PermissionSet → PermissionSet
get_current_permissions none = nothing
get_current_permissions (some permissions) = permissions

-- `missing_permission`: an unbound principal lacks nothing
unfoldable pub missing_permission : Option PermissionSet → Permission → Option Permission
missing_permission none required = none
missing_permission (some permissions) required =
    if permissions required then none else some required

-- `Subject`, without the display fields `email` and `roles`, which nothing here reads
pub record Subject : Type 0 where
  pub id : Option String
  pub name : Option String
  pub is_super_admin : Bool
  pub team_id : Option String
  pub team_role : Option String

-- The claims of a token that `subject_from_claims` reads, each the text that `str` makes of it.
pub record IdentityClaims : Type 0 where
  pub sub : Option String
  pub name : Option String
  pub preferred_username : Option String
  pub email : Option String

-- `str(x) if x else None`
abbrev nonempty : Option String → Option String
nonempty x = if is_set x then x else none

unfoldable pub subject_from_claims : IdentityClaims → Bool → Subject
subject_from_claims claims is_super_admin = record {
  id = nonempty claims.sub;
  name = nonempty (or_else claims.name (or_else claims.preferred_username claims.email));
  is_super_admin = is_super_admin;
  team_id = none;
  team_role = none;
}
