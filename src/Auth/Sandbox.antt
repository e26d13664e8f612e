-- ===== src/Auth/Sandbox.antt =====
-- The gate for python steps that run unsandboxed: app/infrastructure/auth/sandbox_guard.py.
-- A definition is a raw value or a model whose `to_raw_dict()` gives one (`none`: it raises).
use Prim.Native.Char.{code}
use ai_agents_carrier.Base.{
  ℕ, suc, ◌+◌, String, Bool, true, false, not, ◌&&◌, ◌||◌, Option, none, some, List, [], ◌∷◌, ◌++◌,
  str_eq, strip, all, is_empty, leb, ◌==◌, if◌then◌else◌,
}
use ai_agents_carrier.Base.Json.{
  Json, arr, obj, string, Items, nil, cons, get, to_text, is_text, is_dict, is_false, values,
  or_json,
}
use ai_agents_carrier.Combined.{is_combined}
use ai_agents_carrier.Auth.Policy.{admin, PermissionSet}
use ai_agents_carrier.Auth.Principal.{codes, codes_eq, missing_permission}

pub data Definition : Type 0 where
  raw : Json → Definition
  model : Option Json → Definition

-- the body of the loop of `_nested_parts`; `deeper` is its recursive call
unfoldable pub each_part : (Json → List Json) → Items → List Json
unfolding get
each_part deeper nil = []
each_part deeper (cons (obj s fields) items) =
    obj s fields
    ∷ ((if is_combined fields then deeper (get "parts" fields) else []) ++ each_part deeper items)
each_part deeper (cons part items) = each_part deeper items

-- `_nested_parts`: the number counts down from 17 where the source's depth counts up to 16
unfoldable pub nested_parts : ℕ → Json → List Json
unfolding each_part
nested_parts (suc left) (arr s items) = each_part (nested_parts left) items
nested_parts _ _ = []

abbrev pub depth_limit : ℕ
depth_limit = 17

-- the last loop of `_steps_of`
unfoldable pub steps_in : Items → List Json
unfolding nested_parts get
steps_in nil = []
steps_in (cons (obj s fields) items) =
    obj s fields
    ∷ ((if is_combined fields then nested_parts depth_limit (get "parts" fields) else [])
        ++ steps_in items)
steps_in (cons step items) = steps_in items

-- The list of steps of a mapping: at the first of the three keys that holds a list, or else its
-- values, if there are any and all are mappings.
abbrev as_list : Json → Option Items
as_list (arr s items) = some items
as_list _ = none

abbrev items_of : List Json → Items
items_of [] = nil
items_of (v ∷ vs) = cons v (items_of vs)

unfoldable pub step_list : Json → Option Items
unfolding get
step_list (arr s items) = some items
step_list (obj s fields) = elim (as_list (get "steps" fields)) [
  | some items ↦ some items
  | none ↦ elim (as_list (get "nodes" fields)) [
    | some items ↦ some items
    | none ↦ elim (as_list (get "graph" fields)) [
      | some items ↦ some items
      | none ↦
          if all is_dict (values fields) && not (is_empty (values fields))
          then some (items_of (values fields))
          else none
    ]
  ]
]
step_list _ = none

abbrev read_steps : Option Items → List Json
read_steps none = []
read_steps (some items) = steps_in items

unfoldable pub steps_of : Definition → List Json
unfolding steps_in step_list
steps_of (raw value) = read_steps (step_list value)
steps_of (model (some value)) = read_steps (step_list value)
steps_of (model none) = []

-- A field of a step; `_steps_of` yields mappings only.
abbrev pub step_field : String → Json → Json
step_field key (obj s fields) = get key fields
step_field key _ = Json.null

abbrev pub step_id : Json → String
step_id step =
    to_text (or_json (step_field "id" step) (or_json (step_field "name" step) (string "<unnamed>")))

-- `str.lower` of one character, exact as far as a comparison with ASCII text goes
unfoldable pub lower_char : ℕ → ℕ
lower_char c = if leb 65 c && leb c 90 then c + 32 else if c == 0x212a then b'k' else c

unfoldable pub lower : String → List ℕ
unfolding lower_char
lower String.[] = []
lower (String.◌∷◌ c s) = lower_char (code c) ∷ lower s

unfoldable pub isolated_runtime : List ℕ → Bool
isolated_runtime runtime =
    codes_eq (codes "local") runtime
    || codes_eq (codes "docker") runtime
    || codes_eq (codes "k8s") runtime

unfoldable pub runtime_of : Json → List ℕ
unfolding lower
runtime_of step =
    lower (strip (to_text (or_json (step_field "sandbox_runtime" step) (string "local"))))

pub data Reason : Type 0 where
  unsandboxed : Reason
  unknown_runtime : List ℕ → Reason

-- `offending[key] = reason`
unfoldable pub put : String → Reason → List (String × Reason) → List (String × Reason)
put key reason [] = (key, reason) ∷ []
put key reason ((k, r) ∷ rest) =
    let later = put key reason rest in if str_eq k key then (k, reason) ∷ rest else (k, r) ∷ later

-- `find_unsandboxed_python_steps`
unfoldable pub find_unsandboxed_python_steps : List Json → List String
find_unsandboxed_python_steps [] = []
find_unsandboxed_python_steps (step ∷ steps) =
    let later = find_unsandboxed_python_steps steps in
    if is_text (step_field "type" step) "python" && is_false (step_field "sandbox" step)
    then step_id step ∷ later
    else later

-- what one step adds to `offending`
unfoldable pub problem : Json → Option Reason
unfolding runtime_of isolated_runtime get to_text
problem step =
    if not (is_text (step_field "type" step) "python")
    then none
    else if is_false (step_field "sandbox" step)
    then some unsandboxed
    else if not (isolated_runtime (runtime_of step))
    then some (unknown_runtime (runtime_of step))
    else none

abbrev pub note : Json → Option Reason → List (String × Reason) → List (String × Reason)
note step none offending = offending
note step (some reason) offending = put (step_id step) reason offending

unfoldable pub admin_only_from : List Json → List (String × Reason) → List (String × Reason)
unfolding problem put
admin_only_from [] offending = offending
admin_only_from (step ∷ steps) offending =
    admin_only_from steps (note step (problem step) offending)

unfoldable pub find_admin_only_python_steps : Definition → List (String × Reason)
unfolding admin_only_from steps_of
find_admin_only_python_steps definition = admin_only_from (steps_of definition) []

-- `none` where it returns, or the steps and reasons of the SandboxNotPermittedError that it raises
unfoldable pub assert_sandbox_allowed : Definition → PermissionSet → Option (List (String × Reason))
unfolding find_admin_only_python_steps
assert_sandbox_allowed definition permissions =
    if permissions admin
    then none
    else let offending = find_admin_only_python_steps definition in
      if is_empty offending then none else some offending

-- `true` where the ambient caller may store generated code
unfoldable pub generated_code_permitted : Option PermissionSet → Bool
unfolding missing_permission
generated_code_permitted bound = elim (missing_permission bound admin) [
  | none ↦ true
  | some p ↦ false
]
