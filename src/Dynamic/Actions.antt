-- ===== src/Dynamic/Actions.antt =====
-- The actions of the meta-agent, as `_apply` of app/infrastructure/orchestration/dynamic/engine.py
-- carries them out. `none` stands for the `ValueError` that an action raises. The ids of jobs that a
-- log entry lists are left out, as its detail is.
use ai_agents_carrier.Base.{
  String, true, false, not, ◌&&◌, ◌||◌, Option, none, some, List, [], ◌∷◌, ◌++◌, map, filter,
  contains, is_empty, is_set, if◌then◌else◌,
}
use ai_agents_carrier.Base.Options.{◌>>=◌}
use ai_agents_carrier.Dynamic.Model.{
  JobSpec, Job, JobAttempt, JobStatus, Reason, Source, NoteText, Change, MetaAction, ActionKind,
  DecisionKind, DynamicRunState, Failure,
}
use ai_agents_carrier.Dynamic.Record.{
  is_running, is_waiting, is_pending, is_finished, is_at_rest, active, active_jobs, last, note, log,
}
use ai_agents_carrier.Dynamic.Record
use ai_agents_carrier.Dynamic.Dispatcher.{validate_jobs}
use ai_agents_carrier.Dynamic.Dag.{
  JobDag, Live, on_job, on_state, record_event, set_status, requeue, forget_live, live_of,
  drop_live_questions, fail, stop, stopped, cancelled, reset, dependents, join,
}

-- `_get`
abbrev pub get : Option String → JobDag → Option Job
get none dag = Record.job dag.state ""
get (some id) dag = Record.job dag.state id

abbrev pub new_job : JobSpec → Job
new_job spec = record {
  spec = spec;
  status = JobStatus.pending;
  attempts = [];
  notes = [];
  pending_reason = none;
  pending_answers = none;
}

unfoldable pub add_job : JobSpec → DynamicRunState → DynamicRunState
unfolding log
add_job spec state =
    log "job_added" (some spec.id) (record state { jobs = state.jobs ++ (new_job spec ∷ []) })

unfoldable pub add_each : List JobSpec → DynamicRunState → DynamicRunState
unfolding add_job
add_each [] state = state
add_each (spec ∷ specs) state = add_each specs (add_job spec state)

unfoldable pub do_add_jobs : MetaAction → JobDag → Option JobDag
unfolding validate_jobs add_each
do_add_jobs a dag =
    if is_empty (validate_jobs a.jobs dag.config dag.state.jobs)
    then some (on_state (add_each a.jobs) dag)
    else none

abbrev pub change_spec : Change → JobSpec → Option JobSpec
change_spec (Change.prompt v) spec = some (record spec { prompt = v })
change_spec (Change.title v) spec = some (record spec { title = v })
change_spec (Change.agent_id v) spec = some (record spec { agent_id = v })
change_spec (Change.depends_on v) spec = some (record spec { depends_on = v })
change_spec (Change.owns v) spec = some (record spec { owns = v })
change_spec (Change.datasources v) spec = some (record spec { datasources = v })
change_spec (Change.unknown key) spec = none
change_spec (Change.malformed key) spec = none

unfoldable pub change_specs : List Change → JobSpec → Option JobSpec
change_specs [] spec = some spec
change_specs (c ∷ changes) spec = change_spec c spec >>= change_specs changes

abbrev reason_or : Option Reason → Reason → Reason
reason_or none r = r
reason_or (some s) r = s

-- `job.pending_reason or "rewind"`
abbrev pub updated : JobSpec → Job → Job
updated spec job =
    let changed = record job { spec = spec } in
    if is_at_rest job.status
    then requeue (reason_or job.pending_reason Reason.rewind) changed
    else changed

unfoldable pub do_update_job : MetaAction → JobDag → Option JobDag
unfolding change_specs on_job log
do_update_job a dag = do
  job ← get a.job_id dag
  spec ← change_specs a.changes job.spec
  some (record_event "job_updated" (some job.spec.id) (on_job job.spec.id (updated spec) dag))

-- ─── rewind and remove ───

-- `dep` is looked at as it is now
unfoldable pub redo : String → String → String → JobDag → JobDag
unfolding reset on_job note
redo jid text dep dag = elim (Record.job dag.state dep) [
  | none ↦ dag
  | some job ↦
      if is_at_rest job.status || is_running job.status
      then on_job dep (note Source.system (NoteText.redone jid text))
          (reset Reason.upstream_changed job dag)
      else dag
]

unfoldable pub redo_each : String → List String → String → List Job → JobDag → JobDag
unfolding redo
redo_each jid targets text [] dag = dag
redo_each jid targets text (dep ∷ deps) dag =
    if contains targets dep.spec.id
    then redo_each jid targets text deps dag
    else redo_each jid targets text deps (redo jid text dep.spec.id dag)

-- `a.text or "Do this part again."`
abbrev what_to_do : String → String
what_to_do text = if is_set (some text) then text else "Do this part again."

unfoldable pub redo_after : List String → String → String → JobDag → JobDag
unfolding redo_each dependents
redo_after targets text jid dag = redo_each jid targets text (dependents dag jid) dag

unfoldable pub rewind_one : List String → String → String → JobDag → Option JobDag
unfolding reset on_job note redo_after
rewind_one targets text jid dag = do
  target ← get (some jid) dag
  some (
      redo_after targets text jid (
        on_job jid (note Source.meta (NoteText.plain (what_to_do text)))
          (reset Reason.rewind target dag)))

unfoldable pub for_each : (String → JobDag → Option JobDag) → List String → JobDag → Option JobDag
for_each act [] dag = some dag
for_each act (id ∷ ids) dag = act id dag >>= for_each act ids

unfoldable pub do_rewind : MetaAction → JobDag → Option JobDag
unfolding for_each rewind_one log
do_rewind a dag = for_each (rewind_one a.job_ids a.text) a.job_ids dag >>= λ done.
    some (record_event "rewind" none done)

abbrev pub take_out : NoteText → Job → Job
take_out why job = note Source.meta why (set_status JobStatus.removed job)

unfoldable pub remove_one : String → String → JobDag → Option JobDag
unfolding stop on_job note
remove_one text jid dag = do
  job ← get (some jid) dag
  some (on_job jid (take_out (NoteText.removed_for text)) (stop job dag))

unfoldable pub do_remove : MetaAction → JobDag → Option JobDag
unfolding for_each remove_one log
do_remove a dag =
    for_each (remove_one a.text) a.job_ids dag >>= λ done. some (record_event "removed" none done)

-- ─── answers and messages ───

unfoldable pub deliver : String → Live → String → JobDag → JobDag
unfolding forget_live drop_live_questions
deliver id l text dag =
    record (on_state (λ s. record s { situations = drop_live_questions id s.situations }) dag) {
      live = forget_live id dag.live;
      deliveries =
          dag.deliveries
          ++ (record {
            job_id = id;
            attempt = l.attempt;
            child_run_id = l.child_run_id;
            text = text;
          }
              ∷ []);
    }

abbrev questions_of : Option JobAttempt → List String
questions_of none = []
questions_of (some a) = a.questions

-- the answers to keep for the next attempt, where the human gave none by question
abbrev answers_to : List String → String → List (String × String)
answers_to [] text = ("answer", text) ∷ []
answers_to (q ∷ questions) text = map (λ x. (x, text)) (q ∷ questions)

abbrev pub keep_answers : Option (List (String × String)) → String → Job → Job
keep_answers given text job = elim given [
  | some answers ↦ requeue Reason.answer (record job { pending_answers = some answers })
  | none ↦
      requeue Reason.answer
        (record job { pending_answers = some (answers_to (questions_of (last job)) text) })
]

-- `given` is no empty dict
unfoldable pub give_answer :
    Job → String → Source → Option (List (String × String)) → JobDag → JobDag
unfolding on_job note deliver
give_answer job text source given dag =
    let id = job.spec.id in
    let told = on_job id (note source (NoteText.answered text)) dag in
    let kept =
      if is_waiting job.status || is_pending job.status
      then on_job id (keep_answers given text) told
      else told in
    elim (live_of dag id) [
      | none ↦ kept
      | some l ↦ if is_running job.status then deliver id l text told else kept
    ]

unfoldable pub do_answer : MetaAction → JobDag → Option JobDag
unfolding give_answer
do_answer a dag = get a.job_id dag >>= λ job. some (give_answer job a.text Source.meta none dag)

abbrev send : Job → JobAttempt → MetaAction → JobDag → JobDag
send job attempt a dag = record dag {
  messages =
      dag.messages
      ++ (record {
        job_id = job.spec.id;
        attempt = attempt.n;
        text = a.text;
        interrupt = a.interrupt;
      }
          ∷ []);
}

-- what a running agent is told, without a restart
unfoldable pub tell : Job → MetaAction → JobDag → JobDag
unfolding deliver
tell job a dag = elim (live_of dag job.spec.id) [
  | some l ↦ deliver job.spec.id l a.text dag
  | none ↦ elim (last job) [ none ↦ dag | some attempt ↦ send job attempt a dag ]
]

-- what follows from a message, once it is in the job's notes; `job` is the job before
unfoldable pub pass_on : Job → MetaAction → JobDag → JobDag
unfolding on_job reset tell
pass_on job a dag =
    if is_running job.status
    then (if a.restart then reset Reason.restart job dag else tell job a dag)
    else (if is_waiting job.status then on_job job.spec.id (requeue Reason.message) dag else dag)

unfoldable pub do_message : MetaAction → JobDag → Option JobDag
unfolding on_job note pass_on log
do_message a dag = get a.job_id dag >>= λ job. some (
    record_event "message" (some job.spec.id)
      (pass_on job a (on_job job.spec.id (note Source.meta (NoteText.plain a.text)) dag)))

unfoldable pub do_ask_human : MetaAction → JobDag → Option JobDag
unfolding log
do_ask_human a dag = some (
    on_state
      (λ s. log "ask_human" a.job_id (record s {
        decisions =
            s.decisions
            ++ (record {
              kind = DecisionKind.question;
              proposal = record { summary = ""; actions = [] };
              situations = [];
              question = some a.text;
              job_id = some a.job_id;
              resolved = false;
              approved = none;
              reason = none;
            }
                ∷ []);
      }))
      dag)

-- ─── the end ───

-- the loop of `_do_finish` on one job
unfoldable pub dropped : Job → Job
unfolding stopped note
dropped job =
    if active job && not (is_finished job.status)
    then take_out NoteText.dropped (stopped job)
    else job

unfoldable pub do_finish : MetaAction → JobDag → Option JobDag
unfolding dropped cancelled log
do_finish a dag =
    let dropping = filter (λ j. active j && not (is_finished j.status)) dag.state.jobs in
    let dropping_ids = map (λ j. j.spec.id) dropping in
    some (
      on_state
        (λ s. log "finish" none (record s {
          jobs = map dropped s.jobs;
          finished = true;
          summary = if is_set (some a.text) then some a.text else none;
        }))
        (record dag {
          cancels = dag.cancels ++ join cancelled dropping;
          live = filter (λ l. not (contains dropping_ids l.job_id)) dag.live;
        }))

unfoldable pub act : MetaAction → ActionKind → JobDag → Option JobDag
unfolding do_add_jobs do_update_job do_rewind do_remove do_answer do_message do_ask_human do_finish
    fail
act a ActionKind.add_jobs dag = do_add_jobs a dag
act a ActionKind.update_job dag = do_update_job a dag
act a ActionKind.rewind dag = do_rewind a dag
act a ActionKind.remove dag = do_remove a dag
act a ActionKind.answer dag = do_answer a dag
act a ActionKind.message dag = do_message a dag
act a ActionKind.ask_human dag = do_ask_human a dag
act a ActionKind.finish dag = do_finish a dag
act a ActionKind.fail dag = some (fail (Failure.given a.text) dag)

unfoldable pub act_each : List MetaAction → JobDag → Option JobDag
unfolding act
act_each [] dag = some dag
act_each (a ∷ actions) dag = act a a.kind dag >>= act_each actions
