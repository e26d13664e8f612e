-- ===== src/Dynamic/Schedule.antt =====
-- `schedule` of app/infrastructure/orchestration/dynamic/engine.py: it takes in what happened, decides,
-- and says what the graph does next.
use ai_agents_carrier.Base.{
  ℕ, zero, suc, Bool, true, false, not, ◌&&◌, ◌||◌, Option, none, some, List, [], ◌∷◌, ◌++◌, map,
  length, is_empty, is_set, ltb, if◌then◌else◌,
}
use ai_agents_carrier.Base.Options.{◌>>=◌}
use ai_agents_carrier.Dynamic.Model.{JobSpec, Situation, About, Decision, RunStatus, Failure}
use ai_agents_carrier.Dynamic.Record.{running, open_decisions, log}
use ai_agents_carrier.Dynamic.Dispatcher.{validate_jobs, check_minimums}
use ai_agents_carrier.Dynamic.Dag.{JobDag, on_state, put_live, situation, fail, stop_all}
use ai_agents_carrier.Dynamic.Events.{Event, ingest_all}
use ai_agents_carrier.Dynamic.Actions.{new_job}
use ai_agents_carrier.Dynamic.Meta.{Ask}
use ai_agents_carrier.Dynamic.Launching.{launch_ready}
use ai_agents_carrier.Dynamic.Ending.{
  StepStatus, run, gate, completed, failed, phase_over, finish_or_fail,
}
use ai_agents_carrier.Dynamic.Deciding.{Resolution, consult, resolve_one}

-- the tests on the status of a run
abbrev pub is_failed : RunStatus → Bool
is_failed RunStatus.failed = true
is_failed _ = false

abbrev pub is_planning : RunStatus → Bool
is_planning RunStatus.planning = true
is_planning _ = false

-- ─── live questions ───

abbrev number : Option ℕ → ℕ
number none = 0
number (some n) = n

unfoldable pub load_situation : Situation → JobDag → JobDag
unfolding put_live
load_situation s dag = elim s.about [
  | About.live_question child question ↦ elim s.job_id [
    | none ↦ dag
    | some id ↦
        if is_set (some id)
        then record dag {
          live =
              put_live (record { job_id = id; attempt = number s.attempt; child_run_id = child })
                dag.live;
        }
        else dag
  ]
  | _ ↦ dag
]

unfoldable pub load_each : List Situation → JobDag → JobDag
unfolding load_situation
load_each [] dag = dag
load_each (s ∷ situations) dag = load_each situations (load_situation s dag)

unfoldable pub gated_situations : List Decision → List Situation
gated_situations [] = []
gated_situations (d ∷ decisions) = d.situations ++ gated_situations decisions

unfoldable pub load_live : JobDag → JobDag
unfolding load_each gated_situations
load_live dag = load_each (dag.state.situations ++ gated_situations (open_decisions dag.state)) dag

-- ─── resolutions ───

-- the open decisions with their places
unfoldable pub open_from : ℕ → List Decision → List (ℕ × Decision)
open_from n [] = []
open_from n (d ∷ decisions) =
    let later = open_from (suc n) decisions in if d.resolved then later else (n, d) ∷ later

abbrev resolved_as : Resolution → Decision → Decision
resolved_as r d = record d { resolved = true; approved = some r.approved; reason = r.reason }

unfoldable pub change_at {ℓ} : {A : Type ℓ} → ℕ → (A → A) → List A → List A
change_at n change [] = []
change_at zero change (x ∷ xs) = change x ∷ xs
change_at (suc n) change (x ∷ xs) = x ∷ change_at n change xs

abbrev mark : ℕ → Resolution → JobDag → JobDag
mark n r dag = on_state (λ s. record s { decisions = change_at n (resolved_as r) s.decisions }) dag

unfoldable pub resolve_each : Ask → Resolution → List (ℕ × Decision) → JobDag → Option JobDag
unfolding change_at resolve_one
resolve_each ask r [] dag = some dag
resolve_each ask r (d ∷ decisions) dag =
    resolve_one ask d.1 r d.1.kind (mark d.0 r dag) >>= resolve_each ask r decisions

unfoldable pub resolve : Ask → Option Resolution → JobDag → Option JobDag
unfolding resolve_each open_from
resolve ask none dag = some dag
resolve ask (some r) dag = resolve_each ask r (open_from 0 dag.state.decisions) dag

-- ─── the start ───

unfoldable pub start_authored : List JobSpec → JobDag → JobDag
unfolding validate_jobs check_minimums fail log
start_authored specs dag =
    let errors = validate_jobs specs dag.config [] ++ check_minimums specs dag.config in
    if is_empty errors
    then on_state
        (λ s.
          log "plan_authored" none
            (record s { jobs = s.jobs ++ map new_job specs; status = RunStatus.running }))
        dag
    else fail (Failure.invalid_plan errors) dag

abbrev begin : Option (List JobSpec) → JobDag → JobDag
begin (some specs) dag = start_authored specs dag
begin none dag = situation About.start none none dag

unfoldable pub start : JobDag → JobDag
unfolding start_authored situation
start dag =
    if is_empty dag.state.jobs && is_empty dag.state.situations && is_planning dag.state.status
    then begin dag.config.plan dag
    else dag

-- ─── the rounds ───

abbrev pub is_held : JobDag → Bool
is_held dag = is_failed dag.state.status || not (is_empty (open_decisions dag.state))

-- The loop, with its `else` when no round breaks it. `_schedule` allows four rounds.
unfoldable pub rounds : Ask → ℕ → JobDag → Option JobDag
unfolding consult launch_ready phase_over situation
rounds ask zero dag =
    some (if is_held dag || not (is_empty dag.state.situations) then dag else launch_ready dag)
rounds ask (suc left) dag =
    let consulted = consult ask dag.state.situations dag >>= rounds ask left in
    let launched = launch_ready dag in
    let next_phase = rounds ask left (situation About.phase_done none none launched) in
    if is_held dag
    then some dag
    else (if not (is_empty dag.state.situations)
        then consulted
        else (if ltb (length dag.launches) (length launched.launches)
              || not (is_empty (running launched.state))
              || phase_over launched
            then some launched
            else next_phase))

-- what the run is after the rounds
unfoldable pub outcome : JobDag → JobDag × StepStatus
unfolding stop_all fail finish_or_fail
outcome dag =
    if is_failed dag.state.status
    then (stop_all dag, failed)
    else (if not (is_empty (open_decisions dag.state))
        then (on_state (λ s. record s { status = RunStatus.waiting_approval }) dag, gate)
        else (if not (is_empty (running dag.state))
            then (on_state (λ s. record s { status = RunStatus.running }) dag, run)
            else (if not (is_empty dag.state.situations)
                then (fail Failure.not_settled dag, failed)
                else finish_or_fail dag)))

unfoldable pub decide_next : Ask → Option Resolution → JobDag → Option (JobDag × StepStatus)
unfolding resolve start rounds outcome
decide_next ask resolution dag = resolve ask resolution dag >>= λ resolved.
    rounds ask 4 (start resolved) >>= λ done. some (outcome done)

-- `_schedule` of a run that is not over
unfoldable pub schedule_open :
    Ask → List Event → Option Resolution → Bool → JobDag → Option (JobDag × StepStatus)
unfolding load_live ingest_all stop_all fail decide_next
schedule_open ask events resolution stopped dag =
    let seen = ingest_all events (load_live dag) in
    if stopped
    then some (fail Failure.stopped (stop_all seen), failed)
    else decide_next ask resolution seen

abbrev clear_step : JobDag → JobDag
clear_step dag = record dag { launches = []; cancels = []; deliveries = []; messages = [] }

-- `schedule`; `none` stands for the `ValueError` of an action that nobody checked
unfoldable pub schedule :
    Ask → List Event → Option Resolution → Bool → JobDag → Option (JobDag × StepStatus)
unfolding schedule_open
schedule ask events resolution stopped dag = elim dag.state.status [
  | RunStatus.completed ↦ some (clear_step dag, completed)
  | RunStatus.failed ↦ some (clear_step dag, failed)
  | _ ↦ schedule_open ask events resolution stopped (clear_step dag)
]
