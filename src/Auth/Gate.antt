-- ===== src/Auth/Gate.antt =====
-- What the gate of sandbox_guard.py lets through.
use ai_agents_carrier.Base.{
  String, ◌≡◌, refl, ◌↔◌, ◌⊎◌, inl, inr, true, false, none, some, List, [], ◌∷◌, arith, All,
  is_empty, Bool-cases, Option-cases, one_value,
}
use ai_agents_carrier.Base.Json.{Json, is_text, is_false}
use ai_agents_carrier.Auth.Policy.{
  PermissionSet, admin, AuthorizationPolicy, permissions_for_api_key,
}
use ai_agents_carrier.Auth.Sandbox.{
  Definition, Reason, steps_of, step_field, step_id, isolated_runtime, runtime_of, problem, note,
  put, admin_only_from, find_admin_only_python_steps, assert_sandbox_allowed,
  generated_code_permitted,
}

-- What WRITE alone may submit: no python step, or one that keeps the sandbox and names a runtime
-- that isolates.
abbrev pub IsIsolated : Json → Type 0
IsIsolated step =
    is_text (step_field "type" step) "python" ≡ true
    → (is_false (step_field "sandbox" step) ≡ false) × (isolated_runtime (runtime_of step) ≡ true)

problem-none : (step : Json) → problem step ≡ none → IsIsolated step
unfolding problem
problem-none step h python = ground arith

IsIsolated-problem : (step : Json) → IsIsolated step → problem step ≡ none
unfolding problem
IsIsolated-problem step h = elim (Bool-cases (is_text (step_field "type" step) "python")) [
  | inl t ↦ let (kept, known) = h t in rw (t, kept, known)
  | inr f ↦ rw f
]

put-nonempty : (k : String) (r : Reason) (l : List (String × Reason)) → is_empty (put k r l) ≡ false
unfolding put
put-nonempty k r [] = refl
put-nonempty k r ((j, q) ∷ l) = ground arith

admin_only_from-nonempty :
    (steps : List Json) (l : List (String × Reason))
    → is_empty l ≡ false
    → is_empty (admin_only_from steps l) ≡ false
unfolding admin_only_from
admin_only_from-nonempty [] l h = h
admin_only_from-nonempty (step ∷ steps) l h = elim (Option-cases (problem step)) [
  | inl e ↦ rw e (admin_only_from-nonempty steps l h)
  | inr (r, e) ↦ rw e (admin_only_from-nonempty steps _ (put-nonempty _ r l))
]

admin_only_from-empty :
    (steps : List Json) → is_empty (admin_only_from steps []) ≡ true → All IsIsolated steps
unfolding admin_only_from
admin_only_from-empty [] h = tt
admin_only_from-empty (step ∷ steps) h = elim (Option-cases (problem step)) [
  | inl e ↦ (problem-none step e, admin_only_from-empty steps (rw e at h))
  | inr (r, e) ↦ absurd (
      one_value (rw e at h)
        (admin_only_from-nonempty steps (note step (some r) []) (put-nonempty (step_id step) r [])))
]

All-admin_only_from :
    (steps : List Json) → All IsIsolated steps → is_empty (admin_only_from steps []) ≡ true
unfolding admin_only_from
All-admin_only_from [] h = refl
All-admin_only_from (step ∷ steps) h =
    rw (IsIsolated-problem step h.0) (All-admin_only_from steps h.1)

pub assert_sandbox_allowed-cases :
    (d : Definition) (permissions : PermissionSet)
    → (permissions admin ≡ false
        → (assert_sandbox_allowed d permissions ≡ none) ↔ All IsIsolated (steps_of d))
      × (permissions admin ≡ true → assert_sandbox_allowed d permissions ≡ none)
unfolding assert_sandbox_allowed find_admin_only_python_steps
assert_sandbox_allowed-cases d permissions = (
  λ no_admin. (
    λ h. admin_only_from-empty (steps_of d) (ground arith),
    λ h. rw (no_admin, All-admin_only_from (steps_of d) h),
  ),
  λ is_admin. rw is_admin,
)

-- The gate lets a definition be saved exactly when the caller holds ADMIN, or every step that the gate
-- inspects keeps the sandbox and names a runtime that isolates.
pub assert_sandbox_allowed_iff :
    (d : Definition) (permissions : PermissionSet)
    → (assert_sandbox_allowed d permissions ≡ none)
      ↔ ((permissions admin ≡ true) ⊎ All IsIsolated (steps_of d))
assert_sandbox_allowed_iff d permissions =
    let (plain, trusted) = assert_sandbox_allowed-cases d permissions in
    (
      λ h. elim (Bool-cases (permissions admin)) [ inl t ↦ inl t | inr f ↦ inr ((plain f).0 h) ],
      λ c. elim c [
        | inl t ↦ trusted t
        | inr all_steps ↦ elim (Bool-cases (permissions admin)) [
          | inl t ↦ trusted t
          | inr f ↦ (plain f).1 all_steps
        ]
      ],
    )

key_not_admin : (policy : AuthorizationPolicy) → permissions_for_api_key policy admin ≡ false
unfolding permissions_for_api_key
key_not_admin policy = ground arith

-- A definition that the gate lets the static key of the management surface save has only inspected
-- steps that are isolated, and the key can store no generated code, under every policy.
pub api_key_gated :
    (policy : AuthorizationPolicy) (d : Definition)
    → assert_sandbox_allowed d (permissions_for_api_key policy) ≡ none
    → All IsIsolated (steps_of d)
      × (generated_code_permitted (some (permissions_for_api_key policy)) ≡ false)
unfolding generated_code_permitted
api_key_gated policy d h = (
  ((assert_sandbox_allowed-cases d _).0 (key_not_admin policy)).0 h,
  rw (generated_code_permitted, key_not_admin policy),
)
