-- ===== src/Dynamic/Reports.antt =====
-- The report of an attempt counts once: `_ingest` of app/infrastructure/orchestration/dynamic/engine.py.
use ai_agents_carrier.Base.{
  String, ℕ, ◌≡◌, refl, inl, inr, Bool, true, false, ◌&&◌, Option, none, some, List, [], ◌∷◌, find?,
  find?-some, ◌==◌, str_eq, is_empty, arith, Bool-cases, Option-cases,
}
use ai_agents_carrier.Dynamic.Model.{
  Job, JobAttempt, JobStatus, AttemptStatus, validation, Source, NoteText, Reason,
}
use ai_agents_carrier.Dynamic.Record.{in_flight, is_running, log, note, same_category}
use ai_agents_carrier.Dynamic.Dag.{JobDag, change_job, on_job, situation, requeue, set_status}
use ai_agents_carrier.Dynamic.Events.{
  AttemptResult, Outcome, finished, failed, needs_input, Report, result, live_question, lost, Event,
  find_attempt, change_attempt, with_attempt, settle, conclude, conclude_failed, conclude_finished,
  record_result, lose, lose_job, take_report, take_attempt, take_job, take_result, is_lost_result,
  asks_help, verdict_failed, retries_left, ingest,
}

-- whether a job is found that has the attempt in flight
abbrev flying_attempt : Option JobAttempt → Bool
flying_attempt none = false
flying_attempt (some a) = in_flight a

abbrev flying_job : ℕ → Option Job → Bool
flying_job n none = false
flying_job n (some job) = flying_attempt (find_attempt n job)

abbrev flying : String → ℕ → List Job → Bool
flying id n jobs = flying_job n (find? (λ j. str_eq j.spec.id id) jobs)

-- a change that keeps the id of a job, and that leaves the attempt at rest
flying-change :
    (id : String) (n : ℕ) (change : Job → Job) (jobs : List Job)
    → ((job : Job) → (change job).spec ≡ job.spec)
    → ((job : Job) → flying_job n (some job) ≡ false → flying_job n (some (change job)) ≡ false)
    → flying id n jobs ≡ false
    → flying id n (change_job id change jobs) ≡ false
unfolding change_job
flying-change id n change [] same rests h = refl
flying-change id n change (j ∷ jobs) same rests h = elim (Bool-cases (str_eq j.spec.id id)) [
  | inl t ↦ rw t (rw (same j) (rw t (rests j (rw t at h))))
  | inr f ↦ rw f (rw f (flying-change id n change jobs same rests (rw f at h)))
]

-- a change after which the attempt is at rest
flying-settled :
    (id : String) (n : ℕ) (change : Job → Job) (jobs : List Job)
    → ((job : Job) → (change job).spec ≡ job.spec)
    → ((job : Job) → flying_job n (some (change job)) ≡ false)
    → flying id n (change_job id change jobs) ≡ false
unfolding change_job
flying-settled id n change [] same rests = refl
flying-settled id n change (j ∷ jobs) same rests = elim (Bool-cases (str_eq j.spec.id id)) [
  | inl t ↦ rw t (rw (same j) (rw t (rests j)))
  | inr f ↦ rw f (rw f (flying-settled id n change jobs same rests))
]

attempt-settled :
    (n : ℕ) (change : JobAttempt → JobAttempt) (attempts : List JobAttempt)
    → ((a : JobAttempt) → (change a).n ≡ a.n)
    → ((a : JobAttempt) → in_flight (change a) ≡ false)
    → flying_attempt (find? (λ a. a.n == n) (change_attempt n change attempts)) ≡ false
unfolding change_attempt
attempt-settled n change [] same rests = refl
attempt-settled n change (a ∷ attempts) same rests = elim (Bool-cases (a.n == n)) [
  | inl t ↦ rw t (rw (same a) (rw t (rests a)))
  | inr f ↦ rw f (rw f (attempt-settled n change attempts same rests))
]

-- ─── what follows from a result ───

status-kept :
    (id : String) (n : ℕ) (s : JobStatus) (jobs : List Job)
    → flying id n jobs ≡ false
    → flying id n (change_job id (set_status s) jobs) ≡ false
status-kept id n s jobs h = flying-change id n (set_status s) jobs (λ j. refl) (λ j r. r) h

requeue-kept :
    (id : String) (n : ℕ) (r : Reason) (jobs : List Job)
    → flying id n jobs ≡ false
    → flying id n (change_job id (requeue r) jobs) ≡ false
requeue-kept id n r jobs h = flying-change id n (requeue r) jobs (λ j. refl) (λ j r. r) h

module _ (id : String) (job : Job) (n : ℕ) (r : AttemptResult) (dag : JobDag)
    (h : flying id n dag.state.jobs ≡ false) where
  finished-kept : flying id n (conclude_finished id job n r dag).state.jobs ≡ false
  unfolding conclude_finished on_job situation log
  finished-kept =
      let s = status-kept id n JobStatus.finished dag.state.jobs h in
      elim (Bool-cases (is_empty r.unread_messages)) [
        | inr u ↦ rw u (requeue-kept id n Reason.message _ s)
        | inl u ↦ elim (Bool-cases (asks_help r.output)) [
          | inl a ↦ rw (u, a) (status-kept id n JobStatus.waiting _ s)
          | inr a ↦
              elim (Bool-cases
                (same_category job.spec.category validation && verdict_failed r.output)) [
                  | inl v ↦ rw (u, a, v) s
                  | inr v ↦ rw (u, a, v) s
                ]
        ]
      ]

  failed-kept : flying id n (conclude_failed id job n r dag).state.jobs ≡ false
  unfolding conclude_failed on_job situation log note
  failed-kept = elim (Bool-cases (retries_left dag job)) [
    | inr w ↦ rw w (status-kept id n JobStatus.waiting dag.state.jobs h)
    | inl w ↦ rw w (
        flying-change id n
          (λ j. note Source.system (NoteText.failed_with r.error) (requeue Reason.retry j))
          dag.state.jobs (λ j. refl) (λ j r. r) h)
  ]

  conclude-kept : (o : Outcome) → flying id n (conclude id job n r o dag).state.jobs ≡ false
  unfolding conclude on_job situation log
  conclude-kept needs_input = status-kept id n JobStatus.waiting dag.state.jobs h
  conclude-kept failed = failed-kept
  conclude-kept finished = finished-kept

settle-rests : (r : AttemptResult) (a : JobAttempt) → in_flight (settle r a) ≡ false
settle-rests r a = ground arith

lose-rests : (n : ℕ) (job : Job) → flying_job n (some (lose_job n job)) ≡ false
lose-rests n job =
    let e =
      attempt-settled n (λ a. record a { status = AttemptStatus.cancelled }) job.attempts
        (λ a. refl) (λ a. refl) in
    elim (Bool-cases (is_running job.status)) [ inl t ↦ rw t e | inr f ↦ rw f e ]

lose-spec : (n : ℕ) (job : Job) → (lose_job n job).spec ≡ job.spec
lose-spec n job = elim (Bool-cases (is_running job.status)) [
  | inl t ↦ rw t refl
  | inr f ↦ rw f refl
]

lose-settles : (id : String) (n : ℕ) (dag : JobDag) → flying id n (lose id n dag).state.jobs ≡ false
unfolding lose on_job log
lose-settles id n dag = flying-settled id n (lose_job n) dag.state.jobs (lose-spec n) (lose-rests n)

record_result-settles :
    (id : String) (job : Job) (n : ℕ) (r : AttemptResult) (dag : JobDag)
    → flying id n (record_result id job n r dag).state.jobs ≡ false
unfolding record_result on_job
record_result-settles id job n r dag =
    let e =
      flying-settled id n (with_attempt n (settle r)) dag.state.jobs (λ j. refl)
        (λ j. attempt-settled n (settle r) j.attempts (λ a. refl) (settle-rests r)) in
    elim (Bool-cases (is_running job.status)) [
      | inr f ↦ rw f e
      | inl t ↦ rw t (conclude-kept id job n r _ e r.status)
    ]

-- ─── reports that end an attempt ───

-- a result, or that the attempt was lost
abbrev pub ends : Report → Bool
ends (live_question child text) = false
ends _ = true

number-found : (n : ℕ) (job : Job) {a : JobAttempt} → find_attempt n job ≡ some a → a.n ≡ n
number-found n job {a} h =
    let e = (find?-some (λ x. x.n == n) job.attempts h).1 in ground (arith, e)

lost-settles :
    (id : String) (n : ℕ) (job : Job) (a : JobAttempt) (r : AttemptResult) (dag : JobDag)
    → a.n ≡ n
    → flying id n (take_result id job a r dag).state.jobs ≡ false
lost-settles id n job a r dag e = elim (Bool-cases (is_lost_result r)) [
  | inl t ↦ rw (t, e) (lose-settles id n dag)
  | inr f ↦ rw (f, e) (record_result-settles id job n r dag)
]

take_report-settles :
    (id : String) (n : ℕ) (job : Job) (a : JobAttempt) (report : Report) (dag : JobDag)
    → ends report ≡ true
    → find? (λ j. str_eq j.spec.id id) dag.state.jobs ≡ some job
    → find_attempt n job ≡ some a
    → flying id n (take_report id job a report dag).state.jobs ≡ false
unfolding take_report
take_report-settles id n job a (live_question child text) dag w h k = cc
take_report-settles id n job a lost dag w h k = elim (Bool-cases (in_flight a)) [
  | inl t ↦ rw (t, number-found n job k) (lose-settles id n dag)
  | inr f ↦ rw f (rw h (rw k f))
]
take_report-settles id n job a (result r) dag w h k = elim (Bool-cases (in_flight a)) [
  | inl t ↦ rw t (lost-settles id n job a r dag (number-found n job k))
  | inr f ↦ rw f (rw h (rw k f))
]

ingest-settles :
    (event : Event) (dag : JobDag)
    → ends event.report ≡ true
    → flying event.job_id event.attempt (ingest event dag).state.jobs ≡ false
unfolding ingest take_job take_attempt
ingest-settles event dag w =
    elim (Option-cases (find? (λ j. str_eq j.spec.id event.job_id) dag.state.jobs)) [
      | inl none_found ↦ rw none_found (rw none_found refl)
      | inr (job, h) ↦ elim (Option-cases (find_attempt event.attempt job)) [
        | inl k ↦ rw (h, k) (rw h (rw k refl))
        | inr (a, k) ↦
            rw (h, k) (take_report-settles event.job_id event.attempt job a event.report dag w h k)
      ]
    ]

take_report-ignored :
    (id : String) (job : Job) (a : JobAttempt) (report : Report) (dag : JobDag)
    → in_flight a ≡ false
    → take_report id job a report dag ≡ dag
unfolding take_report
take_report-ignored id job a (live_question child text) dag f = ground (arith, f)
take_report-ignored id job a lost dag f = rw f refl
take_report-ignored id job a (result r) dag f = rw f refl

-- the report of an attempt that is not in flight changes nothing
ingest-ignored :
    (event : Event) (dag : JobDag)
    → flying event.job_id event.attempt dag.state.jobs ≡ false
    → ingest event dag ≡ dag
unfolding ingest take_job take_attempt
ingest-ignored event dag w =
    elim (Option-cases (find? (λ j. str_eq j.spec.id event.job_id) dag.state.jobs)) [
      | inl none_found ↦ rw none_found refl
      | inr (job, h) ↦ elim (Option-cases (find_attempt event.attempt job)) [
        | inl k ↦ rw (h, k) refl
        | inr (a, k) ↦
            rw (h, k) (take_report-ignored event.job_id job a event.report dag (rw (h, k) at w))
      ]
    ]

-- Once a report has said how an attempt of a job ended, by its result or because it was lost, every
-- later report of the same attempt, whatever it says, changes nothing.
pub ingest-once :
    (event again : Event) (dag : JobDag)
    → ends event.report ≡ true
    → again.job_id ≡ event.job_id
    → again.attempt ≡ event.attempt
    → ingest again (ingest event dag) ≡ ingest event dag
ingest-once event again dag w j n =
    ingest-ignored again (ingest event dag) (rw (j, n) (ingest-settles event dag w))
