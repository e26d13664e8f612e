-- ===== src/Graph/Guards.antt =====
-- The wrappers that `_make_node` of app/infrastructure/orchestration/yaml_graph.py puts round the body of a
-- node: the loop guard, `when` and the fail guard. The marks that a step is running are left out.
use ai_agents_carrier.Base.{
  String, ℕ, suc, Bool, false, not, ◌&&◌, Option, none, some, List, [], ◌∷◌, contains, is_set,
  truthy, opt_eq, ltb, if◌then◌else◌,
}
use ai_agents_carrier.Graph.Model.{
  State, Output, Update, no_output, absent, is_skipped, count_of, truth_of, or_empty,
}

-- A route. `when` is `none` where the key is missing. `has_wait` is the truth value of `wait_seconds`, and
-- `wait` is the number that it is, in thousandths of a second, or 0 where it is negative or no number.
pub record Route : Type 0 where
  pub next : Option String
  pub when : Option (Option String)
  pub has_wait : Bool
  pub wait : ℕ

pub record Step : Type 0 where
  pub id : String
  pub type : String
  pub when : Option String
  pub max_loops : Option ℕ
  pub failure_policy : Option String
  pub targets : List String
  pub next : Option String
  pub routes : List Route

-- how a node raises; `other` is what its body raises
pub data Raised : Type 0 where
  aborted : String → Raised
  exceeded : ℕ → Raised
  other : String → Raised

pub data Result {ℓ} (A : Type ℓ) : Type ℓ where
  raised : Raised → Result A
  returned : A → Result A

abbrev pub Body : Type 0
Body = State → Result Output

-- `_NO_LOOP_GUARD_TYPES`
abbrev pub no_loop_guard_types : List String
no_loop_guard_types =
    "ask_context" ∷ "human_approval" ∷ "cron" ∷ "http" ∷ "pubsub" ∷ "parallel" ∷ "join"
    ∷ "proceed_or" ∷ "switch" ∷ "langgraph-agent" ∷ "claude-agent" ∷ "dynamic" ∷ []

-- `_NO_FAIL_GUARD_TYPES`
abbrev pub no_fail_guard_types : List String
no_fail_guard_types = "join" ∷ "proceed_or" ∷ []

abbrev pub loop_guarded : Step → Bool
loop_guarded step = not (contains no_loop_guard_types step.type)

abbrev pub fail_guarded : Step → Bool
fail_guarded step = not (contains no_fail_guard_types step.type)

-- `step.get("max_loops", self._max_iterations)`
abbrev pub loops_of : ℕ → Step → ℕ
loops_of max_iterations step = elim step.max_loops [ none ↦ max_iterations | some n ↦ n ]

abbrev pub plain : Output → Update
plain output = record { output = output; visit_counts = none }

-- what the loop guard makes of an output
unfoldable pub counted : ℕ → Step → State → Output → Result Update
unfolding count_of
counted max_iterations step state output =
    let counts = or_empty state.visit_counts in
    let n = suc (count_of step.id counts) in
    if is_skipped output
    then returned (plain output)
    else if ltb (loops_of max_iterations step) n
    then raised (exceeded n)
    else returned record { output = output; visit_counts = some ((step.id, n) ∷ counts) }

abbrev pub after_body {ℓ κ} : {A : Type ℓ} {B : Type κ} → Result A → (A → Result B) → Result B
after_body (raised e) f = raised e
after_body (returned a) f = f a

-- `_wrap_with_loop_guard`
unfoldable pub with_loop_guard : ℕ → Step → Body → State → Result Update
unfolding counted
with_loop_guard max_iterations step body state = after_body (body state) (λ output.
    if loop_guarded step then counted max_iterations step state output else returned (plain output))

-- `when_key` is set, and the state has nothing true under it
abbrev pub skips : Step → State → Bool
skips step state = elim step.when [
  | none ↦ false
  | some key ↦ truthy key && not (truth_of key state)
]

-- `_wrap_with_when`
unfoldable pub with_when : Step → (State → Result Update) → State → Result Update
unfolding truth_of
with_when step node state = if skips step state then returned (plain no_output) else node state

-- `if failed and failed != step_id`
abbrev pub blocks : Step → State → Bool
blocks step state = is_set state.failed_step && not (opt_eq state.failed_step (some step.id))

-- The stale sentinel of the step itself is written as `None`, where the body left the key alone.
unfoldable pub cleared : State → Update → Update
cleared state update =
    if is_set state.failed_step && absent update.output.failed_step
    then record update { output = record update.output { failed_step = some none } }
    else update

abbrev named : Option String → String
named none = ""
named (some id) = id

-- `_wrap_with_fail_guard`
unfoldable pub with_fail_guard : Step → (State → Result Update) → State → Result Update
unfolding cleared
with_fail_guard step node state =
    if fail_guarded step
    then (if blocks step state
        then raised (aborted (named state.failed_step))
        else after_body (node state) (λ update. returned (cleared state update)))
    else node state

-- the node of a step, round the body that its type has
unfoldable pub make_node : ℕ → Step → Body → State → Result Update
unfolding with_loop_guard with_when with_fail_guard
make_node max_iterations step body state =
    with_fail_guard step (with_when step (with_loop_guard max_iterations step body)) state

-- `step_status_from_output`
pub data StepStatus : Type 0 where
  finished skipped failed : StepStatus

unfoldable pub step_status_from_output : String → Option String → Bool → Output → StepStatus
step_status_from_output node_name step_type ran output =
    if is_skipped output
    then (if ran && opt_eq step_type (some "data") then finished else skipped)
    else elim output.failed_step [
      | none ↦ finished
      | some id ↦ if opt_eq id (some node_name) then failed else finished
    ]
