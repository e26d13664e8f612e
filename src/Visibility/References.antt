-- ===== src/Visibility/References.antt =====
-- Which resources a definition uses, from app/application/visibility.py, and which operations write,
-- from app/infrastructure/datasources/destructive.py. `graphql_writes` decides by regular expressions,
-- which are not modelled: it is an argument. `none` is a Python error in the walk over the parts.
use ai_agents_carrier.Base.{
  ℕ, String, Bool, false, not, ◌&&◌, ◌||◌, Option, none, some, List, [], ◌∷◌, ◌++◌, str_eq,
  if◌then◌else◌,
}
use ai_agents_carrier.Base.Json.{
  Json, null, bool, num, string, arr, obj, get, truth, to_text, is_text, or_json, elements,
}
use ai_agents_carrier.Base.Options.{◌>>=◌}
use ai_agents_carrier.Combined.{Parts, iter_parts}
use ai_agents_carrier.Auth.Principal.{upper, codes, codes_eq}
use ai_agents_carrier.Visibility.Model.{
  Access, read, Kind, agent, datasource, script, workflow, same_kind, Resource,
}

abbrev pub Reference : Type 0
Reference = Kind × String

abbrev pub same_reference : Reference → Reference → Bool
same_reference a b = same_kind a.0 b.0 && str_eq a.1 b.1

-- `(kind, str(value))` where the value is true
abbrev pub refer : Kind → Json → List Reference
refer kind value = if truth value then (kind, to_text value) ∷ [] else []

-- the references of one part of a combined step
unfoldable pub part_references : Json → List Reference
unfolding get to_text
part_references (obj s part) =
    if is_text (get "type" part) "data_source" && truth (get "source" part)
    then refer datasource (get "source" part)
    else if is_text (get "type" part) "python"
    then refer script (get "script_id" part)
    else []
part_references _ = []

unfoldable pub parts_references : Parts → List Reference
unfolding part_references
parts_references [] = []
parts_references ((path, part) ∷ parts) = part_references part ++ parts_references parts

-- the values of `x or []` for a field that holds a list
abbrev pub listed : Json → List Json
listed (arr s items) = elements items
listed _ = []

-- `for x in value or []` over a value of any shape: only a list can hold a mapping
abbrev iterated : Json → Option (List Json)
iterated (arr s items) = some (elements items)
iterated (bool b) = if b then none else some []
iterated (num nonzero s) = if nonzero then none else some []
iterated _ = some []

unfoldable pub pool_references : List Json → List Reference
unfolding get to_text
pool_references [] = []
pool_references (obj s entry ∷ pool) = refer agent (get "agent_id" entry) ++ pool_references pool
pool_references (_ ∷ pool) = pool_references pool

unfoldable pub step_references : Json → Option (List Reference)
unfolding get to_text iter_parts parts_references pool_references
step_references (obj s step) =
    let type = get "type" step in
    if (is_text type "langgraph-agent" || is_text type "claude-agent")
      && truth (get "agent_id" step)
    then some (refer agent (get "agent_id" step))
    else if is_text type "data_source" && truth (get "source" step)
    then some (refer datasource (get "source" step))
    else if is_text type "python" && truth (get "script_id" step)
    then some (refer script (get "script_id" step))
    else if is_text type "workflow" && truth (get "workflow_id" step)
    then some (refer workflow (get "workflow_id" step))
    else if is_text type "combined_datasource"
    then (do parts ← iter_parts (get "parts" step) ""; some (parts_references parts))
    else if is_text type "dynamic"
    then (do pool ← iterated (get "agent_pool" step); some (pool_references pool))
    else some []
step_references _ = some []

unfoldable pub steps_references : List Json → Option (List Reference)
unfolding step_references
steps_references [] = some []
steps_references (step ∷ steps) = do
  here ← step_references step
  later ← steps_references steps
  some (here ++ later)

unfoldable pub addons_references : List Json → List Reference
unfolding get to_text
addons_references [] = []
addons_references (obj s addon ∷ addons) =
    (if is_text (get "type" addon) "datasource"
      then refer datasource (get "source_id" addon)
      else [])
    ++ addons_references addons
addons_references (_ ∷ addons) = addons_references addons

unfoldable pub references : Resource → Option (List Reference)
unfolding get steps_references addons_references
references resource = elim resource.kind [
  | workflow ↦ steps_references (listed (get "steps" resource.body))
  | agent ↦ some (addons_references (listed (get "addons" resource.body)))
  | datasource ↦ some []
  | script ↦ some []
]

-- ─── the operations that a definition calls on one data source ───

abbrev call : String → Json → Json → List String
call source_id source operation =
    if truth source && truth operation && str_eq (to_text source) source_id
    then to_text operation ∷ []
    else []

unfoldable pub parts_operations : String → Parts → List String
unfolding get to_text
parts_operations source_id [] = []
parts_operations source_id ((path, obj s part) ∷ parts) =
    (if is_text (get "type" part) "data_source"
      then call source_id (get "source" part) (get "operation" part)
      else [])
    ++ parts_operations source_id parts
parts_operations source_id (_ ∷ parts) = parts_operations source_id parts

unfoldable pub step_operations : String → Json → Option (List String)
unfolding get to_text iter_parts parts_operations
step_operations source_id (obj s step) =
    if is_text (get "type" step) "data_source"
    then some (call source_id (get "source" step) (get "operation" step))
    else if is_text (get "type" step) "combined_datasource"
    then (do parts ← iter_parts (get "parts" step) ""; some (parts_operations source_id parts))
    else some []
step_operations source_id _ = some []

unfoldable pub steps_operations : String → List Json → Option (List String)
unfolding step_operations
steps_operations source_id [] = some []
steps_operations source_id (step ∷ steps) = do
  here ← step_operations source_id step
  later ← steps_operations source_id steps
  some (here ++ later)

abbrev calls : String → Json → List Json → List String
calls source_id source [] = []
calls source_id source (operation ∷ operations) =
    call source_id source operation ++ calls source_id source operations

unfoldable pub addons_operations : String → List Json → List String
unfolding get to_text
addons_operations source_id [] = []
addons_operations source_id (obj s addon ∷ addons) =
    (if is_text (get "type" addon) "datasource"
      then calls source_id (get "source_id" addon) (listed (get "allowed_operations" addon))
      else [])
    ++ addons_operations source_id addons
addons_operations source_id (_ ∷ addons) = addons_operations source_id addons

-- `datasource_operations(kind, resource).get(source_id, ())`
unfoldable pub datasource_operations : Resource → String → Option (List String)
unfolding get steps_operations addons_operations
datasource_operations resource source_id = elim resource.kind [
  | workflow ↦ steps_operations source_id (listed (get "steps" resource.body))
  | agent ↦ some (addons_operations source_id (listed (get "addons" resource.body)))
  | datasource ↦ some []
  | script ↦ some []
]

-- ─── operations that write ───

unfoldable pub get_operation : List Json → String → Option Json
unfolding get
get_operation [] name = none
get_operation (obj s op ∷ ops) name =
    let later = get_operation ops name in
    if is_text (get "name" op) name then some (obj s op) else later
get_operation (_ ∷ ops) name = get_operation ops name

abbrev op_field : String → Json → Json
op_field key (obj s op) = get key op
op_field key _ = null

unfoldable pub is_read_method : List ℕ → Bool
is_read_method method =
    codes_eq (codes "GET") method
    || codes_eq (codes "HEAD") method
    || codes_eq (codes "OPTIONS") method

module _ (graphql_writes : Json → Bool) where
  -- `operation_writes`; the operation's own `destructive`, when stated, decides
  unfoldable pub operation_writes : Json → Resource → Bool
  unfolding get is_read_method upper to_text
  operation_writes op source =
      let verb = op_field "method" op in
      let by_kind : Bool =
        if is_text (get "kind" source.body) "bigquery"
        then false
        else if is_text (get "kind" source.body) "graphql"
        then graphql_writes (op_field "query" op)
        else not (is_read_method (upper (to_text (or_json verb (string "GET"))))) in
      elim (op_field "destructive" op) [ null ↦ by_kind | other ↦ truth other ]

  -- `operation_denied`, as a test
  unfoldable pub operation_denied : Resource → String → Option Access → Bool
  unfolding get_operation operation_writes
  operation_denied source operation (some read) =
      elim (get_operation (listed (get "operations" source.body)) operation) [
        | none ↦ false
        | some op ↦ operation_writes op source
      ]
  operation_denied source operation _ = false
