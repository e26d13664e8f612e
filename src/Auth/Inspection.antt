-- ===== src/Auth/Inspection.antt =====
-- The gate of sandbox_guard.py stops at a depth, the walk that runs the parts does not: where the
-- nesting stays within the limit, the gate inspects every part.
use Prim.Native.Nat.{max}
use Prim.Native.String
use mathlib.Core.List.{map-append}
use ai_agents_carrier.Base.{
  ℕ, zero, suc, ◌≤◌, String, ◌≡◌, refl, ◌∙◌, ap, ap₂, eq_of_some, inl, inr, Bool, true, false, none,
  some, List, [], ◌∷◌, ◌++◌, map, Memᴰ, arith, All, All-mem, str_eq, Bool-cases, if◌then◌else◌,
}
use ai_agents_carrier.Base.Json.{
  Json, null, bool, num, string, arr, obj, Items, nil, cons, Fields, end, field, get, is_dict,
  elements,
}
use ai_agents_carrier.Base.Options.{◌>>=◌, >>=-eq-some}
use ai_agents_carrier.Combined.{
  Parts, is_combined, part_path, iter_parts, iter_items, iter_part, iter_nested,
}
use ai_agents_carrier.Auth.Policy.{PermissionSet, admin}
use ai_agents_carrier.Auth.Sandbox.{
  raw, each_part, nested_parts, depth_limit, steps_in, steps_of, assert_sandbox_allowed,
}
use ai_agents_carrier.Auth.Gate.{IsIsolated, assert_sandbox_allowed-cases}

-- how many lists of parts stand inside one another
unfoldable mutual
  unfolding get

  pub levels : Json → ℕ
  levels (arr s items) = suc (levels_items items)
  levels null = 0
  levels (bool b) = 0
  levels (num nonzero s) = 0
  levels (string s) = 0
  levels (obj s fields) = 0

  pub levels_items : Items → ℕ
  levels_items nil = 0
  levels_items (cons v items) = max (levels_part v) (levels_items items)

  pub levels_part : Json → ℕ
  levels_part (obj s fields) =
      let inner = levels_nested fields in if is_combined fields then inner else 0
  levels_part null = 0
  levels_part (bool b) = 0
  levels_part (num nonzero s) = 0
  levels_part (string s) = 0
  levels_part (arr s items) = 0

  pub levels_nested : Fields → ℕ
  levels_nested end = 0
  levels_nested (field k v fields) =
      let this = levels v in
      let later = levels_nested fields in if str_eq k "parts" then this else later

abbrev pub parts_of : Parts → List Json
parts_of = map (λ p. p.1)

-- what one part adds
one_part : (Json → List Json) → Json → List Json
unfolding get
one_part deeper (obj s fields) =
    obj s fields ∷ (if is_combined fields then deeper (get "parts" fields) else [])
one_part deeper _ = []

each_part-cons :
    (deeper : Json → List Json) (v : Json) (items : Items)
    → each_part deeper (cons v items) ≡ one_part deeper v ++ each_part deeper items
unfolding each_part one_part
each_part-cons deeper (obj s fields) items = refl
each_part-cons deeper _ items = refl

abbrev is_list : Json → Bool
is_list (arr s items) = true
is_list _ = false

nested_parts-scalar : (n : ℕ) (v : Json) → is_list v ≡ false → nested_parts n v ≡ []
unfolding nested_parts
nested_parts-scalar zero (arr s items) h = cc
nested_parts-scalar zero _ h = refl
nested_parts-scalar (suc n) (arr s items) h = cc
nested_parts-scalar (suc n) _ h = refl

iter_parts-scalar :
    (v : Json) (prefix : String) (l : Parts)
    → is_list v ≡ false
    → iter_parts v prefix ≡ some l
    → [] ≡ parts_of l
unfolding iter_parts
iter_parts-scalar (arr s items) prefix l h e = cc
iter_parts-scalar _ prefix l h e = ground arith

scalar-iter :
    (v : Json) (n : ℕ) (prefix : String) (l : Parts)
    → is_list v ≡ false
    → iter_parts v prefix ≡ some l
    → nested_parts n v ≡ parts_of l
scalar-iter v n prefix l h e = nested_parts-scalar n v h ∙ iter_parts-scalar v prefix l h e

parts_of-append : (a b : Parts) → parts_of (a ++ b) ≡ parts_of a ++ parts_of b
parts_of-append a b = map-append (λ p. p.1) a b

each-nil :
    (deeper : Json → List Json) (prefix : String) (l : Parts)
    → iter_items nil prefix ≡ some l
    → each_part deeper nil ≡ parts_of l
unfolding iter_items each_part
each-nil deeper prefix l e = ground arith

part-scalar :
    (v : Json) (deeper : Json → List Json) (prefix : String) (l : Parts)
    → is_dict v ≡ false
    → iter_part v prefix ≡ some l
    → one_part deeper v ≡ parts_of l
unfolding iter_part one_part
part-scalar (obj s fields) deeper prefix l h e = cc
part-scalar _ deeper prefix l h e = ground arith

module _ (s : String) (fields : Fields) (deeper : Json → List Json) (prefix : String)
    (l : Parts) where
  part-plain :
      is_combined fields ≡ false
      → iter_part (obj s fields) prefix ≡ some l
      → one_part deeper (obj s fields) ≡ parts_of l
  unfolding iter_part one_part parts_of
  part-plain f e = rw f (rw (← eq_of_some (rw f at e)))

  part-combined :
      is_combined fields ≡ true
      → iter_part (obj s fields) prefix ≡ some l
      → ((inner : Parts)
          → iter_nested fields (String.◌++◌ (part_path prefix fields) ".") ≡ some inner
          → deeper (get "parts" fields) ≡ parts_of inner)
      → one_part deeper (obj s fields) ≡ parts_of l
  unfolding iter_part one_part parts_of
  part-combined t e below =
      let e' = rw t at e in
      let (inner, e₁, e₂) =
        >>=-eq-some (iter_nested fields (String.◌++◌ (part_path prefix fields) "."))
          (λ (inner : Parts). some ((part_path prefix fields, obj s fields) ∷ inner)) e' in
      rw t (rw (← eq_of_some e₂) (ap (λ r. obj s fields ∷ r) (below inner e₁)))

mutual
  unfolding levels iter_parts nested_parts one_part

  nested-iter :
      (v : Json) (n : ℕ) (prefix : String) (l : Parts)
      → levels v ≤ n
      → iter_parts v prefix ≡ some l
      → nested_parts n v ≡ parts_of l
  nested-iter (arr s items) zero prefix l h e = absurd (omega arith)
  nested-iter (arr s items) (suc n) prefix l h e = each-iter items n prefix l (omega arith) e
  nested-iter null n prefix l h e = scalar-iter null n prefix l refl e
  nested-iter (bool b) n prefix l h e = scalar-iter (bool b) n prefix l refl e
  nested-iter (num b s) n prefix l h e = scalar-iter (num b s) n prefix l refl e
  nested-iter (string s) n prefix l h e = scalar-iter (string s) n prefix l refl e
  nested-iter (obj s fields) n prefix l h e = scalar-iter (obj s fields) n prefix l refl e

  each-iter :
      (items : Items) (n : ℕ) (prefix : String) (l : Parts)
      → levels_items items ≤ n
      → iter_items items prefix ≡ some l
      → each_part (nested_parts n) items ≡ parts_of l
  each-iter nil n prefix l h e = each-nil (nested_parts n) prefix l e
  each-iter (cons v items) n prefix l h e =
      let (here, e₁, rest) =
        >>=-eq-some (iter_part v prefix)
          (λ here. do later ← iter_items items prefix; some (here ++ later)) e in
      let (later, e₂, e₃) =
        >>=-eq-some (iter_items items prefix) (λ later. some (here ++ later)) rest in
      rw each_part-cons (
        rw (← eq_of_some e₃) (
          rw parts_of-append (
            ap₂ ◌++◌ (part-iter v n prefix here (omega arith) e₁)
              (each-iter items n prefix later (omega arith) e₂))))

  part-iter :
      (v : Json) (n : ℕ) (prefix : String) (l : Parts)
      → levels_part v ≤ n
      → iter_part v prefix ≡ some l
      → one_part (nested_parts n) v ≡ parts_of l
  part-iter (obj s fields) n prefix l h e = elim (Bool-cases (is_combined fields)) [
    | inr f ↦ part-plain s fields (nested_parts n) prefix l f e
    | inl t ↦
        part-combined s fields (nested_parts n) prefix l t e
          (λ (inner : Parts)
              (e' : iter_nested fields (String.◌++◌ (part_path prefix fields) ".") ≡ some inner).
            fields-iter fields n (String.◌++◌ (part_path prefix fields) ".") inner (rw t at h) e')
  ]
  part-iter null n prefix l h e = part-scalar null (nested_parts n) prefix l refl e
  part-iter (bool b) n prefix l h e = part-scalar (bool b) (nested_parts n) prefix l refl e
  part-iter (num b s) n prefix l h e = part-scalar (num b s) (nested_parts n) prefix l refl e
  part-iter (string s) n prefix l h e = part-scalar (string s) (nested_parts n) prefix l refl e
  part-iter (arr s items) n prefix l h e =
      part-scalar (arr s items) (nested_parts n) prefix l refl e

  fields-iter :
      (fields : Fields) (n : ℕ) (prefix : String) (l : Parts)
      → levels_nested fields ≤ n
      → iter_nested fields prefix ≡ some l
      → nested_parts n (get "parts" fields) ≡ parts_of l
  fields-iter end n prefix l h e = scalar-iter null n prefix l refl e
  fields-iter (field k v fields) n prefix l h e = elim (Bool-cases (str_eq k "parts")) [
    | inl t ↦ rw t (nested-iter v n prefix l (rw t at h) (rw t at e))
    | inr f ↦ rw f (fields-iter fields n prefix l (rw f at h) (rw f at e))
  ]

abbrev Checked : Json → Type 0
Checked (obj s fields) =
    IsIsolated (obj s fields)
    × (is_combined fields ≡ true → All IsIsolated (nested_parts depth_limit (get "parts" fields)))
Checked _ = Unit

All-append_left {ℓ κ} : {A : Type ℓ} (P : A → Type κ) (xs ys : List A) → All P (xs ++ ys) → All P xs
All-append_left P [] ys h = tt
All-append_left P (x ∷ xs) ys h = (h.0, All-append_left P xs ys h.1)

All-append_right {ℓ κ} :
    {A : Type ℓ} (P : A → Type κ) (xs ys : List A) → All P (xs ++ ys) → All P ys
All-append_right P [] ys h = h
All-append_right P (x ∷ xs) ys h = All-append_right P xs ys h.1

Checked-steps_in : (items : Items) → All IsIsolated (steps_in items) → All Checked (elements items)
unfolding steps_in
Checked-steps_in nil h = tt
Checked-steps_in (cons (obj s fields) items) h =
    let nested = nested_parts depth_limit (get "parts" fields) in
    (
      (h.0, λ t. All-append_left IsIsolated nested (steps_in items) (rw t at h.1)),
      Checked-steps_in items (All-append_right IsIsolated _ (steps_in items) h.1),
    )
Checked-steps_in (cons null items) h = (tt, Checked-steps_in items h)
Checked-steps_in (cons (bool b) items) h = (tt, Checked-steps_in items h)
Checked-steps_in (cons (num b s) items) h = (tt, Checked-steps_in items h)
Checked-steps_in (cons (string s) items) h = (tt, Checked-steps_in items h)
Checked-steps_in (cons (arr s i) items) h = (tt, Checked-steps_in items h)

-- A list of steps that the gate lets a caller without ADMIN save has, in each combined step whose
-- parts nest at most 17 deep, no part that leaves the sandbox or names a runtime that does not
-- isolate: neither the step itself nor any part that the walk over its parts finds, at any depth.
pub allowed-parts :
    (text s prefix : String) (items : Items) (fields : Fields) (permissions : PermissionSet)
    (parts : Parts)
    → permissions admin ≡ false
    → assert_sandbox_allowed (raw (arr text items)) permissions ≡ none
    → Memᴰ (obj s fields) (elements items)
    → is_combined fields ≡ true
    → levels (get "parts" fields) ≤ depth_limit
    → iter_parts (get "parts" fields) prefix ≡ some parts
    → IsIsolated (obj s fields) × All IsIsolated (parts_of parts)
allowed-parts text s prefix items fields permissions parts no_admin allowed step combined shallow
      walk =
    let all_steps : All IsIsolated (steps_in items) =
      unfold steps_of in
      ((assert_sandbox_allowed-cases (raw (arr text items)) permissions).0 no_admin).0 allowed in
    let (own, nested) = All-mem Checked (elements items) (Checked-steps_in items all_steps) step in
    (
      own,
      rw (← nested-iter (get "parts" fields) depth_limit prefix parts shallow walk)
          (nested combined),
    )
