-- ===== src/Combined.antt =====
-- The walk over the parts of a `combined_datasource` step:
-- `iter_parts` of app/infrastructure/orchestration/combined_datasource.py. `none` is the TypeError of a
-- `for` over a number or `True`. Running the parts and the checks of their templates are not modelled.
use Prim.Native.String
use ai_agents_carrier.Base.{
  String, Bool, Option, none, some, List, [], ◌∷◌, ◌++◌, str_eq, if◌then◌else◌,
}
use ai_agents_carrier.Base.Json.{
  Json, null, bool, num, string, arr, obj, Items, nil, cons, Fields, end, field, get, is_text,
  to_text,
}
use ai_agents_carrier.Base.Options.{◌>>=◌}

-- the parts with their dotted paths
abbrev pub Parts : Type 0
Parts = List (String × Json)

abbrev pub is_combined : Fields → Bool
is_combined fields = is_text (get "type" fields) "combined_datasource"

abbrev pub part_path : String → Fields → String
part_path prefix fields = String.◌++◌ prefix (to_text (get "id" fields))

-- A part's nested parts are taken at the key `parts` by walking the fields, so that the recursion is
-- on the value itself.
unfoldable mutual
  unfolding get to_text

  pub iter_parts : Json → String → Option Parts
  iter_parts null prefix = some []
  iter_parts (bool b) prefix = if b then none else some []
  iter_parts (num nonzero s) prefix = if nonzero then none else some []
  iter_parts (string s) prefix = some []
  iter_parts (arr s items) prefix = iter_items items prefix
  iter_parts (obj s fields) prefix = some []

  pub iter_items : Items → String → Option Parts
  iter_items nil prefix = some []
  iter_items (cons v items) prefix = do
    here ← iter_part v prefix
    later ← iter_items items prefix
    some (here ++ later)

  pub iter_part : Json → String → Option Parts
  iter_part (obj s fields) prefix =
      let nested = iter_nested fields (String.◌++◌ (part_path prefix fields) ".") in
      let found : Option Parts = if is_combined fields then nested else some [] in
      do inner ← found; some ((part_path prefix fields, obj s fields) ∷ inner)
  iter_part null prefix = some []
  iter_part (bool b) prefix = some []
  iter_part (num nonzero s) prefix = some []
  iter_part (string s) prefix = some []
  iter_part (arr s items) prefix = some []

  pub iter_nested : Fields → String → Option Parts
  iter_nested end prefix = some []
  iter_nested (field k v fields) prefix =
      let this = iter_parts v prefix in
      let later = iter_nested fields prefix in if str_eq k "parts" then this else later
