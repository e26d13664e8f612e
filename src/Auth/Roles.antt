-- ===== src/Auth/Roles.antt =====
-- Where the roles of a caller come from: a token's claims, and the lists of the settings.
use text.Mathlib.Text.{starts_with}
use ai_agents_carrier.Base.{
  String, ◌≡◌, refl, sym, ap₂, ◌⊎◌, inl, inr, true, ◌&&◌, Option, none, some, List, [], ◌∷◌, ◌++◌,
  Memᴰ, arith, truthy, strip, strip_idem, filter, map, All, is_empty, ends_with, str_eq, eq_iff,
  eq_of_some, Bool-cases, Option-cases,
}
use ai_agents_carrier.Auth.Policy.{norm, Settings, from_settings}
use ai_agents_carrier.Auth.Claims.{
  Claim, Claims, names, get, roles_key, all_project_roles, project_roles, extract_roles,
}

-- A key whose claim may carry roles.
abbrev pub CarriesRoles : Option String → String → Type 0
CarriesRoles project_id key =
    (key ≡ "roles")
    ⊎ (((id : String) × (project_id ≡ some id) × (key ≡ roles_key id))
        ⊎ ((starts_with key "urn:zitadel:iam:org:project" && ends_with key ":roles") ≡ true))

-- The claim that a role was read from.
pub record IsClaimed (claims : Claims) (project_id : Option String) (role : String) : Type 0 where
  pub key : String
  pub value : Claim
  pub claimed : Memᴰ (key, value) claims
  pub carries : CarriesRoles project_id key
  pub named : Memᴰ role (names (some value))

get-mem :
    (key : String) (claims : Claims) (v : Claim) → get key claims ≡ some v → Memᴰ (key, v) claims
unfolding get
get-mem key [] v h = cc
get-mem key ((k, value) ∷ claims) v h = elim (Bool-cases (str_eq k key)) [
  | inl t ↦
      Memᴰ.head (ap₂ (λ a b. (a, b)) (sym ((eq_iff k key).0 t)) (sym (eq_of_some (rw t at h))))
  | inr f ↦ Memᴰ.tail (get-mem key claims v (rw f at h))
]

names-get :
    (key : String) (claims : Claims) (project_id : Option String) {r : String}
    → CarriesRoles project_id key
    → Memᴰ r (names (get key claims))
    → IsClaimed claims project_id r
names-get key claims project_id {r} carries m = elim (Option-cases (get key claims)) [
  | inl e ↦ absurd (not_nil (rw e at m))
  | inr (v, e) ↦ record {
    key = key;
    value = v;
    claimed = get-mem key claims v e;
    carries = carries;
    named = rw e at m;
  }
]
  where
    not_nil : Memᴰ r (names none) → ⊥
    not_nil n = unfold names in elim n [ ]

mem_append_split {ℓ} :
    {A : Type ℓ} (xs ys : List A) {a : A} → Memᴰ a (xs ++ ys) → Memᴰ a xs ⊎ Memᴰ a ys
mem_append_split [] ys m = inr m
mem_append_split (x ∷ xs) ys (Memᴰ.head e) = inl (Memᴰ.head e)
mem_append_split (x ∷ xs) ys (Memᴰ.tail m) = elim (mem_append_split xs ys m) [
  | inl l ↦ inl (Memᴰ.tail l)
  | inr r ↦ inr r
]

IsClaimed-cons :
    (claims : Claims) (project_id : Option String) (role : String) (claim : String × Claim)
    → IsClaimed claims project_id role
    → IsClaimed (claim ∷ claims) project_id role
IsClaimed-cons claims project_id role claim c = record {
  key = c.key;
  value = c.value;
  claimed = Memᴰ.tail c.claimed;
  carries = c.carries;
  named = c.named;
}

all_project_roles-IsClaimed :
    (claims : Claims) (project_id : Option String) {r : String}
    → Memᴰ r (all_project_roles claims)
    → IsClaimed claims project_id r
unfolding all_project_roles
all_project_roles-IsClaimed [] project_id m = elim m [ ]
all_project_roles-IsClaimed ((key, value) ∷ claims) project_id {r} m =
    elim (Bool-cases (starts_with key "urn:zitadel:iam:org:project" && ends_with key ":roles")) [
      | inr f ↦
          IsClaimed-cons claims project_id r (key, value)
            (all_project_roles-IsClaimed claims project_id (rw f at m))
      | inl t ↦
          elim (mem_append_split (names (some value)) (all_project_roles claims) (rw t at m)) [
            | inl here ↦ record {
              key = key;
              value = value;
              claimed = Memᴰ.head refl;
              carries = inr (inr t);
              named = here;
            }
            | inr later ↦
                IsClaimed-cons claims project_id r (key, value)
                  (all_project_roles-IsClaimed claims project_id later)
          ]
    ]

project_roles-IsClaimed :
    (claims : Claims) (project_id : Option String) {r : String}
    → Memᴰ r (project_roles claims project_id)
    → IsClaimed claims project_id r
unfolding project_roles
project_roles-IsClaimed claims none m = elim m [ ]
project_roles-IsClaimed claims (some id) {r} m = elim (Bool-cases (truthy id)) [
  | inl t ↦ names-get (roles_key id) claims (some id) (inr (inl (id, refl, refl))) (rw t at m)
  | inr f ↦ absurd (Memᴰ_nil (rw f at m))
]
  where
    Memᴰ_nil : Memᴰ r [] → ⊥
    Memᴰ_nil n = elim n [ ]

-- Every role that is read from a token stands in one of its claims, and that claim is `roles`, the
-- configured project's or some project's: no other claim can give a role.
pub extract_roles-IsClaimed :
    (claims : Claims) (project_id : Option String) (r : String)
    → Memᴰ r (extract_roles claims project_id)
    → IsClaimed claims project_id r
unfolding extract_roles
extract_roles-IsClaimed claims project_id r m =
    elim (Bool-cases (is_empty (names (get "roles" claims)))) [
      | inr f ↦ names-get "roles" claims project_id (inl refl) (rw f at m)
      | inl t ↦ elim (Bool-cases (is_empty (project_roles claims project_id))) [
        | inr f ↦ project_roles-IsClaimed claims project_id (rw (t, f) at m)
        | inl u ↦ all_project_roles-IsClaimed claims project_id (rw (t, u) at m)
      ]
    ]

-- A role as the policy keeps it: not blank, and with no white space at its ends.
abbrev pub IsClean : String → Type 0
IsClean r = (truthy r ≡ true) × (strip r ≡ r)

norm_list-IsClean :
    (roles : List String)
    → All IsClean (map strip (filter (λ r. truthy r && truthy (strip r)) roles))
norm_list-IsClean [] = tt
norm_list-IsClean (r ∷ roles) = elim (Bool-cases (truthy r && truthy (strip r))) [
  | inl t ↦ rw t ((ground arith, strip_idem r), norm_list-IsClean roles)
  | inr f ↦ rw f (norm_list-IsClean roles)
]

norm-IsClean : (roles : Option (List String)) → All IsClean (norm roles)
unfolding norm
norm-IsClean none = tt
norm-IsClean (some roles) = norm_list-IsClean roles

-- Whatever the settings hold, every role list of the policy made from them holds clean names only.
pub from_settings-IsClean :
    (settings : Settings)
    → let policy = (from_settings settings).0 in
      All IsClean policy.access_roles
      × All IsClean policy.read_roles
      × All IsClean policy.write_roles
      × All IsClean policy.delete_roles
      × All IsClean policy.admin_roles
      × All IsClean policy.super_admin_roles
      × All IsClean policy.deny_roles
unfolding from_settings
from_settings-IsClean settings = (
  norm-IsClean settings.auth_access_roles,
  norm-IsClean settings.auth_read_roles,
  norm-IsClean settings.auth_write_roles,
  norm-IsClean settings.auth_delete_roles,
  norm-IsClean settings.auth_admin_roles,
  norm-IsClean settings.auth_super_admin_roles,
  norm-IsClean settings.auth_deny_roles,
)
