-- ===== src/Auth/Grants.antt =====
-- What the role mapping of `AuthorizationPolicy` grants, for every policy and every set of roles.
use ai_agents_carrier.Base.{
  String, ◌≡◌, refl, ◌≢◌, inl, inr, ◌↔◌, Bool, true, false, not, ◌&&◌, ◌||◌, List, [], ◌∷◌, Memᴰ,
  arith, meets, mem_of_meets, meets_of_mem, Bool-cases, if◌then◌else◌,
}
use ai_agents_carrier.Auth.Policy.{
  Permission, access, read, write, delete, admin, super_admin, same, add, set_of, role_pairs,
  PermissionSet, nothing, AuthorizationPolicy, effective_super_admin_roles, grant_each,
  permissions_for_roles_strict, permissions_for_roles, permissions_for_api_key,
}
use ai_agents_carrier.Auth.Claims.{Claims, permissions_for_claims, evaluate_shadow}

-- The roles that give a permission, once the caller is let in at all.
abbrev pub roles_for : AuthorizationPolicy → Permission → List String
roles_for policy access = policy.access_roles
roles_for policy read = policy.read_roles
roles_for policy write = policy.write_roles
roles_for policy delete = policy.delete_roles
roles_for policy admin = policy.admin_roles
roles_for policy super_admin = effective_super_admin_roles policy

-- The specification: no denied role, a role that opens the API, and a role for the permission.
pub record IsGranted (policy : AuthorizationPolicy) (roles : List String) (p : Permission)
    : Type 0 where
  pub not_denied : meets roles policy.deny_roles ≡ false
  pub let_in : meets roles policy.access_roles ≡ true
  pub has_role : meets roles (roles_for policy p) ≡ true

-- what the loop over the pairs gives
gives : List (Permission × List String) → List String → Permission → Bool
gives [] roles p = false
gives ((q, allowed) ∷ rest) roles p = gives rest roles p || meets roles allowed && same q p

add_if :
    (b : Bool) (q p : Permission) (granted : PermissionSet)
    → (if b then add q granted else granted) p ≡ (b && same q p || granted p)
add_if true q p granted = refl
add_if false q p granted = refl

grant_each-gives :
    (l : List (Permission × List String)) (roles : List String) (g : PermissionSet) (p : Permission)
    → grant_each l roles g p ≡ (gives l roles p || g p)
unfolding grant_each gives
grant_each-gives [] roles g p = refl
grant_each-gives ((q, allowed) ∷ rest) roles g p =
    rw (grant_each-gives rest roles _ p) (rw (add_if (meets roles allowed) q p g) (ground arith))

nothing_if :
    (b : Bool) (g : PermissionSet) (p : Permission) → (if b then nothing else g) p ≡ (not b && g p)
nothing_if true g p = refl
nothing_if false g p = refl

strict-gives :
    (policy : AuthorizationPolicy) (roles : List String) (p : Permission)
    → permissions_for_roles_strict policy roles p ≡ (
        not (meets roles policy.deny_roles || not (meets roles policy.access_roles))
        && (gives (role_pairs policy) roles p || set_of (access ∷ []) p))
unfolding permissions_for_roles_strict
strict-gives policy roles p = rw nothing_if (rw grant_each-gives)

strict-IsGranted :
    (policy : AuthorizationPolicy) (roles : List String) (p : Permission)
    → permissions_for_roles_strict policy roles p ≡ true
    → IsGranted policy roles p
unfolding gives
strict-IsGranted policy roles access h = ground (arith, strict-gives policy roles access)
strict-IsGranted policy roles p h = ground (arith, strict-gives policy roles p)

IsGranted-strict :
    (policy : AuthorizationPolicy) (roles : List String) (p : Permission)
    → IsGranted policy roles p
    → permissions_for_roles_strict policy roles p ≡ true
unfolding gives
IsGranted-strict policy roles access g = ground (arith, strict-gives policy roles access)
IsGranted-strict policy roles p g = ground (arith, strict-gives policy roles p)

-- The strict mapping grants a permission exactly when the caller holds no denied role, some access
-- role, and some role of that permission.
pub permissions_for_roles_strict_iff :
    (policy : AuthorizationPolicy) (roles : List String) (p : Permission)
    → (permissions_for_roles_strict policy roles p ≡ true) ↔ IsGranted policy roles p
permissions_for_roles_strict_iff policy roles p =
    (strict-IsGranted policy roles p, IsGranted-strict policy roles p)

-- With enforcement on, a caller who holds a denied role holds no permission, whatever else it holds.
denied-nothing :
    (policy : AuthorizationPolicy) (roles : List String) (r : String) (p : Permission)
    → policy.enforce ≡ true
    → Memᴰ r roles
    → Memᴰ r policy.deny_roles
    → permissions_for_roles policy roles p ≡ false
unfolding permissions_for_roles
denied-nothing policy roles r p on held denied =
    rw (on, meets_of_mem roles policy.deny_roles held denied)

Subset : List String → List String → Type 0
Subset xs ys = (a : String) → Memᴰ a xs → Memᴰ a ys

meets_mono : (xs ys zs : List String) → Subset xs ys → meets xs zs ≡ true → meets ys zs ≡ true
unfolding Subset
meets_mono xs ys zs sub h =
    let (a, in_xs, in_zs) = mem_of_meets xs zs h in meets_of_mem ys zs (sub a in_xs) in_zs

-- More roles never take a permission away, as long as none of them is denied.
pub permissions_mono :
    (policy : AuthorizationPolicy) (roles more : List String) (p : Permission)
    → ((a : String) → Memᴰ a roles → Memᴰ a more)
    → meets more policy.deny_roles ≡ false
    → permissions_for_roles policy roles p ≡ true
    → permissions_for_roles policy more p ≡ true
unfolding permissions_for_roles Subset
permissions_mono policy roles more p sub clean h = elim (Bool-cases policy.enforce) [
  | inr off ↦ rw off
  | inl on ↦
      let g = (permissions_for_roles_strict_iff policy roles p).0 (rw on at h) in
      rw on (
        (permissions_for_roles_strict_iff policy more p).1 (record {
          not_denied = clean;
          let_in = meets_mono roles more policy.access_roles sub g.let_in;
          has_role = meets_mono roles more (roles_for policy p) sub g.has_role;
        }))
]

-- The static key never holds ADMIN or SUPER_ADMIN, and holds the four others, under every policy.
pub api_key_capped :
    (policy : AuthorizationPolicy) (p : Permission)
    → (permissions_for_api_key policy p ≡ true) ↔ ((p ≢ admin) × (p ≢ super_admin))
unfolding permissions_for_api_key
api_key_capped policy access = (λ h. (λ e. cc, λ e. cc), λ h. ground arith)
api_key_capped policy read = (λ h. (λ e. cc, λ e. cc), λ h. ground arith)
api_key_capped policy write = (λ h. (λ e. cc, λ e. cc), λ h. ground arith)
api_key_capped policy delete = (λ h. (λ e. cc, λ e. cc), λ h. ground arith)
api_key_capped policy admin = (λ h. ground arith, λ h. absurd (h.0 refl))
api_key_capped policy super_admin = (λ h. ground arith, λ h. absurd (h.1 refl))

-- What the shadow evaluation grants is granted, and under enforcement the two are the same.
pub shadow-permissions :
    (policy : AuthorizationPolicy) (claims : Claims) (p : Permission)
    → (evaluate_shadow policy claims p ≡ true → permissions_for_claims policy claims p ≡ true)
      × (policy.enforce ≡ true
          → evaluate_shadow policy claims p ≡ permissions_for_claims policy claims p)
unfolding evaluate_shadow permissions_for_claims
shadow-permissions policy claims p = (λ h. ground arith, λ on. rw on)
