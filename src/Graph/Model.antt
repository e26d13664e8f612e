-- ===== src/Graph/Model.antt =====
-- The state of a run of a workflow and what a node returns, as app/infrastructure/orchestration/yaml_graph.py
-- declares them in `_build_state_schema`. The channels that steer the run have a field each; `values` are
-- the others, whose keys are declared and none of which steers the run.
use ai_agents_carrier.Base.{
  String, ℕ, Bool, true, false, not, ◌&&◌, ◌||◌, Option, none, some, List, [], ◌∷◌, ◌++◌, is_empty,
  is_set, str_eq, if◌then◌else◌,
}
use ai_agents_carrier.Base.Json.{Json, null, truth}
use Prim.Native.String

-- a dict, of which the first entry of a key counts
abbrev pub Counts : Type 0
Counts = List (String × ℕ)

-- what `proceed_or` keeps under `_proceed_or_<id>`
pub record Latch : Type 0 where
  pub arrivals : ℕ
  pub won : Bool
  pub last_won : Bool

pub record State : Type 0 where
  pub failed_step : Option String
  pub error : Option String
  pub visit_counts : Option Counts
  pub latches : List (String × Latch)
  pub values : List (String × Json)

-- What the body of a node returns. `failed_step` is `none` where the key is missing, and `some none`
-- where it is written as `None`.
pub record Output : Type 0 where
  pub failed_step : Option (Option String)
  pub error : Option String
  pub latch : Option (String × Latch)
  pub values : List (String × Json)

-- what the guards make of it
pub record Update : Type 0 where
  pub output : Output
  pub visit_counts : Option Counts

abbrev pub no_output : Output
no_output = record { failed_step = none; error = none; latch = none; values = [] }

abbrev pub absent {ℓ} : {A : Type ℓ} → Option A → Bool
absent none = true
absent (some a) = false

-- `not result`
abbrev pub is_skipped : Output → Bool
is_skipped o = absent o.failed_step && absent o.error && absent o.latch && is_empty o.values

-- ─── reading ───

-- `counts.get(step_id, 0)`
unfoldable pub count_of : String → Counts → ℕ
count_of id [] = 0
count_of id (entry ∷ counts) =
    let later = count_of id counts in if str_eq entry.0 id then entry.1 else later

-- `state.get(key) or {}`
unfoldable pub latch_of : String → List (String × Latch) → Latch
latch_of id [] = record { arrivals = 0; won = false; last_won = false }
latch_of id (entry ∷ latches) =
    let later = latch_of id latches in if str_eq entry.0 id then entry.1 else later

unfoldable pub value_of : String → List (String × Json) → Json
value_of key [] = null
value_of key (entry ∷ values) =
    let later = value_of key values in if str_eq entry.0 key then entry.1 else later

abbrev pub or_empty : Option Counts → Counts
or_empty none = []
or_empty (some counts) = counts

abbrev has_latch : String → List (String × Latch) → Bool
has_latch key [] = false
has_latch key (entry ∷ latches) =
    str_eq key (String.◌++◌ "_proceed_or_" entry.0) || has_latch key latches

-- the truth value of `state.get(key)`
unfoldable pub truth_of : String → State → Bool
unfolding value_of
truth_of key state =
    if str_eq key "__failed_step__"
    then is_set state.failed_step
    else if str_eq key "error"
    then is_set state.error
    else if str_eq key "_visit_counts"
    then not (is_empty (or_empty state.visit_counts))
    else has_latch key state.latches || truth (value_of key state.values)

-- ─── writing ───

-- `_last_wins`
unfoldable pub last_wins {ℓ} : {A : Type ℓ} → Option A → Option A → Option A
last_wins a none = a
last_wins a (some b) = some b

-- `_merge_dicts`
unfoldable pub merge_dicts {ℓ} : {A : Type ℓ} → Option (List A) → Option (List A) → Option (List A)
merge_dicts a none = a
merge_dicts none (some b) = some b
merge_dicts (some a) (some b) = some (b ++ a)

abbrev pub written : Option (Option String) → Option String
written none = none
written (some value) = value

abbrev latched : Option (String × Latch) → List (String × Latch) → List (String × Latch)
latched none latches = latches
latched (some entry) latches = entry ∷ latches

-- The state after a node has returned: each channel is what its reducer makes of the value in the state
-- and the value written. To `_last_wins`, a key written as `None` is as good as missing.
unfoldable pub apply_update : Update → State → State
unfolding last_wins merge_dicts
apply_update update state = record {
  failed_step = last_wins state.failed_step (written update.output.failed_step);
  error = last_wins state.error update.output.error;
  visit_counts = merge_dicts state.visit_counts update.visit_counts;
  latches = latched update.output.latch state.latches;
  values = update.output.values ++ state.values;
}
