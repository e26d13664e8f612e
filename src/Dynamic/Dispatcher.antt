-- ===== src/Dynamic/Dispatcher.antt =====
-- The checks of a plan of app/infrastructure/orchestration/dynamic/dispatcher.py. Every call leaves
-- `allowed_categories` at all categories, so a category is always allowed.
use Prim.Native.Char.{Char, code}
use Prim.Native.String.{String}
use ai_agents_carrier.Base.{
  ℕ, zero, suc, ◌+◌, Bool, true, false, not, ◌&&◌, ◌||◌, Option, none, some, List, [], ◌∷◌, ◌++◌,
  map, length, any, filter, count, contains, is_empty, leb, ltb, ◌==◌, str_eq, truthy, strip,
  if◌then◌else◌,
}
use ai_agents_carrier.Dynamic.Model.{
  JobCategory, planning, execution, validation, integration, PoolAgent, JobSpec, Job, DynamicConfig,
  Problem, bad_id, used_id, empty_prompt, no_agent, wrong_category, depends_on_itself, not_enabled,
  unknown_dependency, cycle, too_many_jobs, too_many, too_few,
}
use ai_agents_carrier.Dynamic.Record.{same_category, slot_of, pool_entry, active}

unfoldable pub report : Bool → Problem → List Problem
report true e = e ∷ []
report false e = []

unfoldable pub gather {ℓ} : {A : Type ℓ} → (A → List Problem) → List A → List Problem
gather f [] = []
gather f (x ∷ xs) = f x ++ gather f xs

id_char : Char → Bool
id_char ch = let c = code ch in leb 97 c && leb c 122 || leb 48 c && leb c 57 || c == 95 || c == 45

-- what `[a-z0-9_-]{0,limit}$` matches: `$` also matches before a line feed that ends the text
id_rest : ℕ → String → Bool
unfolding id_char
id_rest limit String.[] = true
id_rest zero (String.◌∷◌ c s) = code c == 10 && not (truthy s)
id_rest (suc limit) (String.◌∷◌ c s) =
    let later = id_rest limit s in (code c == 10 && not (truthy s)) || (id_char c && later)

-- `_ID_RE.match(job_id)`
unfoldable pub is_id : String → Bool
unfolding id_rest
is_id String.[] = false
is_id (String.◌∷◌ c s) = leb 97 (code c) && leb (code c) 122 && id_rest 47 s

abbrev pub may_fill : PoolAgent → JobCategory → Bool
may_fill entry category =
    is_empty entry.categories || any (λ c. same_category c category) entry.categories

unfoldable pub check_agent : String → JobCategory → Option PoolAgent → List Problem
unfolding report
check_agent job_id category none = no_agent job_id ∷ []
check_agent job_id category (some entry) =
    report (not (may_fill entry category)) (wrong_category job_id)

unfoldable pub check_assignment : JobSpec → DynamicConfig → List Problem
unfolding check_agent gather report
check_assignment job config =
    check_agent job.id job.category (pool_entry config job.agent_id)
    ++ gather
        (λ source. report (not (contains config.datasources source)) (not_enabled job.id source))
        job.datasources

-- ─── cycles ───

abbrev pub Graph : Type 0
Graph = List (String × List String)

-- `graph[key] = value`
unfoldable pub put_node : String → List String → Graph → Graph
put_node key deps [] = (key, deps) ∷ []
put_node key deps (node ∷ graph) =
    let later = put_node key deps graph in
    if str_eq node.0 key then (key, deps) ∷ graph else node ∷ later

unfoldable pub put_nodes : List JobSpec → Graph → Graph
unfolding put_node
put_nodes [] graph = graph
put_nodes (j ∷ jobs) graph = put_nodes jobs (put_node j.id j.depends_on graph)

abbrev pub neighbours : Graph → String → Option (List String)
neighbours [] key = none
neighbours (node ∷ graph) key =
    let later = neighbours graph key in if str_eq node.0 key then some node.1 else later

-- the nodes that are being visited, and those that are done
pub record Colours : Type 0 where
  pub visiting : List String
  pub done : List String

-- one successor; `none` stands for a cycle
abbrev pub follow : Graph → (String → Colours → Option Colours) → String → Colours → Option Colours
follow graph visit next colours = elim (neighbours graph next) [
  | none ↦ some colours
  | some _ ↦
      if contains colours.done next
      then some colours
      else (if contains colours.visiting next then none else visit next colours)
]

abbrev pub follow_each :
    Graph → (String → Colours → Option Colours) → List String → Colours → Option Colours
follow_each graph visit [] colours = some colours
follow_each graph visit (next ∷ nodes) colours = elim (follow graph visit next colours) [
  | none ↦ none
  | some later ↦ follow_each graph visit nodes later
]

abbrev pub deps_of : Option (List String) → List String
deps_of none = []
deps_of (some deps) = deps

-- `_visit`. A call inside another one opens a node of the graph that was not open, so the depth is
-- at most the number of nodes; past it the answer would be that there is a cycle.
unfoldable pub visit : ℕ → Graph → String → Colours → Option Colours
visit zero graph node colours = none
visit (suc fuel) graph node colours =
    elim (follow_each graph (visit fuel graph) (deps_of (neighbours graph node))
      (record colours { visiting = node ∷ colours.visiting })) [
        | none ↦ none
        | some later ↦ some (record later { done = node ∷ later.done })
      ]

unfoldable pub visit_roots : Graph → List (String × List String) → Colours → Option Colours
unfolding visit
visit_roots graph [] colours = some colours
visit_roots graph (node ∷ nodes) colours =
    elim (if contains colours.done node.0 || contains colours.visiting node.0
      then some colours
      else visit (suc (length graph)) graph node.0 colours) [
        | none ↦ none
        | some later ↦ visit_roots graph nodes later
      ]

abbrev pub no_colours : Colours
no_colours = record { visiting = []; done = [] }

unfoldable pub has_cycle : Graph → Bool
unfolding visit_roots
has_cycle graph = elim (visit_roots graph graph no_colours) [ none ↦ true | some _ ↦ false ]

-- ─── a plan ───

abbrev pub categories : List JobCategory
categories = planning ∷ execution ∷ validation ∷ integration ∷ []

abbrev specs : List Job → List JobSpec
specs jobs = map (λ j. j.spec) jobs

abbrev pub of_category : JobCategory → List JobSpec → ℕ
of_category category jobs = count (λ j. same_category j.category category) jobs

-- the checks of one job; `used` are the ids before it
unfoldable pub check_new : DynamicConfig → List String → JobSpec → List Problem
unfolding report check_assignment
check_new config used job =
    report (not (is_id job.id)) (bad_id job.id)
    ++ report (contains used job.id) (used_id job.id)
    ++ check_assignment job config
    ++ report (not (truthy (strip job.prompt))) (empty_prompt job.id)

unfoldable pub check_each_new : DynamicConfig → List String → List JobSpec → List Problem
unfolding check_new
check_each_new config used [] = []
check_each_new config used (job ∷ jobs) =
    check_new config used job ++ check_each_new config (job.id ∷ used) jobs

unfoldable pub check_dependency : List String → String → String → List Problem
unfolding report
check_dependency known job_id dep =
    if str_eq dep job_id
    then depends_on_itself job_id ∷ []
    else report (not (contains known dep)) (unknown_dependency job_id dep)

unfoldable pub check_slots : DynamicConfig → List JobSpec → List Problem
unfolding report gather
check_slots config jobs =
    gather (λ c. report (not (leb (of_category c jobs) (slot_of config c).max)) (too_many c))
      categories

unfoldable pub validate_jobs : List JobSpec → DynamicConfig → List Job → List Problem
unfolding report gather check_each_new check_dependency check_slots put_nodes has_cycle
validate_jobs proposed config existing =
    let kept = specs (filter active existing) in
    let known = map (λ j. j.id) (kept ++ proposed) in
    check_each_new config (map (λ j. j.spec.id) existing) proposed
    ++ gather (λ j. gather (check_dependency known j.id) j.depends_on) proposed
    ++ report (has_cycle (put_nodes (kept ++ proposed) [])) cycle
    ++ check_slots config (kept ++ proposed)
    ++ report (ltb config.limits.max_total_jobs (length existing + length proposed)) too_many_jobs

-- `jobs` are the active ones
unfoldable pub check_minimums : List JobSpec → DynamicConfig → List Problem
unfolding report gather
check_minimums jobs config =
    gather (λ c. report (ltb (of_category c jobs) (slot_of config c).min) (too_few c)) categories
