-- ===== src/Dynamic/Retry.antt =====
-- `reset_for_retry` of app/infrastructure/orchestration/dynamic/engine.py: a failed run is made runnable
-- again. The legacy field `awaiting` is left out.
use ai_agents_carrier.Base.{
  ◌≡◌, refl, inl, inr, Bool, true, false, not, none, some, List, [], ◌∷◌, ◌++◌, map, filter, all,
  is_empty, Bool-cases, if◌then◌else◌,
}
use ai_agents_carrier.Dynamic.Model.{
  Job, JobStatus, Reason, Decision, DecisionKind, DynamicRunState, RunStatus,
}
use ai_agents_carrier.Dynamic.Record.{in_flight, last, open_decisions, log}
use ai_agents_carrier.Dynamic.Dag.{requeue, change_last, cancel_attempt, is_live_question, join}

-- `status in ("failed", "skipped", "cancelled", "waiting", "running")`
abbrev pub is_stuck : JobStatus → Bool
is_stuck JobStatus.pending = false
is_stuck JobStatus.finished = false
is_stuck JobStatus.removed = false
is_stuck _ = true

-- `job.last.status = "cancelled"`, if it was running
unfoldable pub without_flight : Job → Job
unfolding change_last
without_flight job = elim (last job) [
  | none ↦ job
  | some a ↦
      if in_flight a then record job { attempts = change_last cancel_attempt job.attempts } else job
]

unfoldable pub retried : Job → Job
unfolding without_flight
retried job = if is_stuck job.status then requeue Reason.retry (without_flight job) else job

-- the approved escalation that grants the job one retry more
unfoldable pub grant : Job → List Decision
grant job =
    if is_stuck job.status
    then record {
      kind = DecisionKind.escalation;
      proposal = record { summary = ""; actions = [] };
      situations = [];
      question = none;
      job_id = some (some job.spec.id);
      resolved = true;
      approved = some true;
      reason = some "manual retry";
    }
      ∷ []
    else []

unfoldable pub superseded : Decision → Decision
superseded d = if d.resolved then d else record d {
  resolved = true;
  approved = some false;
  reason = some "superseded by a manual retry";
}

unfoldable pub reset_for_retry : DynamicRunState → DynamicRunState
unfolding retried grant superseded log
reset_for_retry state = log "manual_retry" none (record state {
  jobs = map retried state.jobs;
  decisions = map superseded state.decisions ++ join grant state.jobs;
  situations = filter (λ s. not (is_live_question s.about)) state.situations;
  status = if is_empty state.jobs then RunStatus.planning else RunStatus.running;
  finished = false;
  error = none;
})

open_ones : List Decision → List Decision
open_ones decisions = filter (λ d. not d.resolved) decisions

retried-stuck : (job : Job) → not (is_stuck (retried job).status) ≡ true
unfolding retried
retried-stuck job = elim (Bool-cases (is_stuck job.status)) [
  | inl t ↦ rw t refl
  | inr f ↦ rw f (rw f refl)
]

all-retried : (jobs : List Job) → all (λ j. not (is_stuck j.status)) (map retried jobs) ≡ true
all-retried [] = refl
all-retried (j ∷ jobs) = rw (retried-stuck j) (all-retried jobs)

granted-open : (jobs : List Job) → is_empty (open_ones (join grant jobs)) ≡ true
unfolding open_ones grant
granted-open [] = refl
granted-open (j ∷ jobs) = elim (Bool-cases (is_stuck j.status)) [
  | inl t ↦ rw t (granted-open jobs)
  | inr f ↦ rw f (granted-open jobs)
]

superseded-open :
    (decisions more : List Decision)
    → is_empty (open_ones more) ≡ true
    → is_empty (open_ones (map superseded decisions ++ more)) ≡ true
unfolding open_ones superseded
superseded-open [] more h = h
superseded-open (d ∷ decisions) more h = elim (Bool-cases d.resolved) [
  | inl t ↦ rw t (superseded-open decisions more h)
  | inr f ↦ rw f (superseded-open decisions more h)
]

-- After a manual retry every job is pending, finished or removed, and no decision waits for a human.
pub reset_for_retry_lem :
    (state : DynamicRunState)
    → (all (λ j. not (is_stuck j.status)) (reset_for_retry state).jobs ≡ true)
      × (is_empty (open_decisions (reset_for_retry state)) ≡ true)
unfolding reset_for_retry open_ones log
reset_for_retry_lem state = (
  all-retried state.jobs,
  superseded-open state.decisions (join grant state.jobs) (granted-open state.jobs),
)
