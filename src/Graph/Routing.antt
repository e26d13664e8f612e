-- ===== src/Graph/Routing.antt =====
-- The routers of app/infrastructure/orchestration/yaml_graph.py: `_make_router_fn`. Python's parser and
-- `eval` are a parameter, which gives nothing where they raise; the marks on the run while it waits, and
-- the log, are left out.
use ai_agents_carrier.Base.{
  String, ℕ, zero, suc, ◌-◌, Bool, true, false, not, Option, none, some, List, [], ◌∷◌, ltb, strip,
  str_eq, if◌then◌else◌,
}
use ai_agents_carrier.Base.Options.{◌>>=◌}
use ai_agents_carrier.Graph.Model.{State, truth_of}
use ai_agents_carrier.Graph.Guards.{Route}
use Prim.Native.Char.{Char}
use Prim.Native.String

-- what Python makes of an expression in a state
abbrev pub Evaluate : Type 0
Evaluate = String → State → Option Bool

abbrev same_char : Char → Char → Bool
same_char a b = str_eq (String.◌∷◌ a String.[]) (String.◌∷◌ b String.[])

starts_with : String → String → Bool
starts_with String.[] s = true
starts_with (String.◌∷◌ a old) String.[] = false
starts_with (String.◌∷◌ a old) (String.◌∷◌ c s) =
    let rest = starts_with old s in if same_char a c then rest else false

abbrev len : String → ℕ
len String.[] = 0
len (String.◌∷◌ c s) = suc (len s)

-- The rest of a replacement; the characters of a match that was replaced are skipped.
replace_from : ℕ → String → String → String → String
replace_from skip old new String.[] = String.[]
replace_from (suc skip) old new (String.◌∷◌ c s) = replace_from skip old new s
replace_from zero old new (String.◌∷◌ c s) =
    let matched = String.◌++◌ new (replace_from (len old - 1) old new s) in
    let kept = String.◌∷◌ c (replace_from zero old new s) in
    if starts_with old (String.◌∷◌ c s) then matched else kept

-- `s.replace(old, new)`
unfoldable pub replace : String → String → String → String
unfolding replace_from starts_with
replace old new s = replace_from zero old new s

unfoldable pub rewritten : String → String
unfolding replace
rewritten when =
    replace "===" " == " (replace "!==" " != " (replace "||" " or " (replace "&&" " and " when)))

-- `s.strip()[1:].strip()` of a text that starts with `!`
abbrev negated : String → Option String
negated String.[] = none
negated (String.◌∷◌ c s) = if same_char c "!" then some (strip s) else none

-- the look-up that is tried where Python raises
unfoldable pub fallback : String → State → Bool
unfolding truth_of strip
fallback expr state = elim (negated (strip expr)) [
  | some key ↦ not (truth_of key state)
  | none ↦ truth_of (strip expr) state
]

-- `_eval_condition`
unfoldable pub eval_condition : Evaluate → String → State → Bool
unfolding fallback rewritten
eval_condition evaluate when state = elim (evaluate (rewritten when) state) [
  | some value ↦ value
  | none ↦ fallback (rewritten when) state
]

-- `route.get("when")`
abbrev pub condition : Route → Option String
condition route = elim route.when [ none ↦ none | some when ↦ when ]

-- `_select`, which raises where no route matches
unfoldable pub select : Evaluate → List Route → State → Option Route
unfolding eval_condition
select evaluate [] state = none
select evaluate (route ∷ routes) state =
    let later = select evaluate routes state in
    elim (condition route) [
      | none ↦ some route
      | some when ↦ if eval_condition evaluate when state then some route else later
    ]

-- `_MAX_ROUTE_WAIT_SECONDS`
abbrev pub max_route_wait : ℕ
max_route_wait = 3600000

-- how long a route waits
unfoldable pub delay : Route → ℕ
delay route = if ltb max_route_wait route.wait then max_route_wait else route.wait

-- the step that a router names, and the wait before it; a route without `next` raises
unfoldable pub router : Evaluate → List Route → State → Option (String × ℕ)
unfolding select delay
router evaluate routes state =
    select evaluate routes state >>= λ route. (route.next >>= λ next. some (next, delay route))
