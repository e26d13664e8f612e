-- ===== src/Dynamic/Caps.antt =====
-- What `_launch_ready` of app/infrastructure/orchestration/dynamic/engine.py starts: no more than the
-- limit, and only jobs that are ready.
use ai_agents_carrier.Base.{
  String, ℕ, suc, ◌≤◌, ◌≡◌, refl, ap, ◌⊎◌, inl, inr, true, false, List, [], ◌∷◌, ◌++◌, map, Memᴰ,
  length, filter, leb, arith, Bool-cases, mem-filter_from,
}
use ai_agents_carrier.Dynamic.Model.{Job}
use ai_agents_carrier.Dynamic.Record.{running, is_running, log}
use ai_agents_carrier.Dynamic.Dag.{JobDag, Launch, change_job, on_job}
use ai_agents_carrier.Dynamic.Launching.{
  is_ready, ready, cap, started, launch, tally, launch_each, launch_ready,
}

busy_jobs : List Job → ℕ
busy_jobs jobs = length (filter (λ j. is_running j.status) jobs)

busy-change :
    (id : String) (jobs : List Job) → busy_jobs (change_job id started jobs) ≤ suc (busy_jobs jobs)
unfolding busy_jobs change_job
busy-change id [] = omega arith
busy-change id (j ∷ jobs) = ground (arith, busy-change id jobs)

busy-launch :
    (job : Job) (dag : JobDag)
    → busy_jobs (launch job dag).state.jobs ≤ suc (busy_jobs dag.state.jobs)
unfolding launch on_job log
busy-launch job dag = busy-change job.spec.id dag.state.jobs

below : (a b : ℕ) → leb a b ≡ false → suc b ≤ a
below a b h = ground (arith, h)

launch_each-cap :
    (busy : List String) (jobs : List Job) (dag : JobDag)
    → busy_jobs dag.state.jobs ≤ length busy
    → length busy ≤ dag.config.limits.max_parallel
    → busy_jobs (launch_each busy jobs dag).state.jobs ≤ dag.config.limits.max_parallel
unfolding launch_each launch on_job log
launch_each-cap busy [] dag h m = omega (arith, h, m)
launch_each-cap busy (job ∷ jobs) dag h m =
    elim (Bool-cases (leb dag.config.limits.max_parallel (length busy))) [
      | inl t ↦ rw t (omega (arith, h, m))
      | inr f ↦
          elim (Bool-cases
            (leb (cap dag.config job.spec.agent_id) (tally job.spec.agent_id busy))) [
              | inl c ↦ rw (f, c) (launch_each-cap busy jobs dag h m)
              | inr c ↦
                  rw (f, c)
                    (launch_each-cap (job.spec.agent_id ∷ busy) jobs (launch job dag)
                      (omega (arith, busy-launch job dag, h))
                      (below dag.config.limits.max_parallel (length busy) f))
            ]
    ]

length-agents : (jobs : List Job) → length (map (λ j. j.spec.agent_id) jobs) ≡ length jobs
length-agents [] = refl
length-agents (j ∷ jobs) = rw (length-agents jobs) refl

-- A DAG that runs no more jobs than `max_parallel` allows runs no more once `_launch_ready` has started
-- what it starts.
pub launch_ready-cap :
    (dag : JobDag)
    → length (running dag.state) ≤ dag.config.limits.max_parallel
    → length (running (launch_ready dag).state) ≤ dag.config.limits.max_parallel
unfolding launch_ready busy_jobs
launch_ready-cap dag h =
    let e = length-agents (running dag.state) in
    launch_each-cap (map (λ j. j.spec.agent_id) (running dag.state)) (ready dag.state) dag
      (omega (arith, e)) (omega (arith, e, h))

-- a launch that was made before, or one of a job of the list
IsLaunchOf : List Job → List Launch → Launch → Type 0
IsLaunchOf jobs before l = Memᴰ l before ⊎ ((job : Job) × Memᴰ job jobs × (l.job ≡ started job))

mem-append : {A : Type 0} (xs ys : List A) {a : A} → Memᴰ a (xs ++ ys) → Memᴰ a xs ⊎ Memᴰ a ys
mem-append [] ys m = inr m
mem-append (x ∷ xs) ys (Memᴰ.head e) = inl (Memᴰ.head e)
mem-append (x ∷ xs) ys (Memᴰ.tail m) = elim (mem-append xs ys m) [
  | inl n ↦ inl (Memᴰ.tail n)
  | inr n ↦ inr n
]

launch-made :
    (job : Job) (jobs : List Job) (dag : JobDag) (l : Launch)
    → Memᴰ l (launch job dag).launches
    → IsLaunchOf (job ∷ jobs) dag.launches l
unfolding launch IsLaunchOf
launch-made job jobs dag l m = elim (mem-append dag.launches _ m) [
  | inl n ↦ inl n
  | inr (Memᴰ.head e) ↦ inr (job, Memᴰ.head refl, ap (λ x. x.job) e)
  | inr (Memᴰ.tail n) ↦ elim n [ ]
]

later-launch :
    (job : Job) (jobs : List Job) (before : List Launch) (l : Launch)
    → IsLaunchOf jobs before l
    → IsLaunchOf (job ∷ jobs) before l
unfolding IsLaunchOf
later-launch job jobs before l (inl m) = inl m
later-launch job jobs before l (inr (j, m, e)) = inr (j, Memᴰ.tail m, e)

made-next :
    (job : Job) (jobs : List Job) (dag : JobDag) (l : Launch)
    → IsLaunchOf jobs (launch job dag).launches l
    → IsLaunchOf (job ∷ jobs) dag.launches l
unfolding IsLaunchOf
made-next job jobs dag l (inl m) = launch-made job jobs dag l m
made-next job jobs dag l (inr (j, m, e)) = inr (j, Memᴰ.tail m, e)

launch_each-made :
    (busy : List String) (jobs : List Job) (dag : JobDag) (l : Launch)
    → Memᴰ l (launch_each busy jobs dag).launches
    → IsLaunchOf jobs dag.launches l
unfolding launch_each IsLaunchOf
launch_each-made busy [] dag l m = inl m
launch_each-made busy (job ∷ jobs) dag l m =
    elim (Bool-cases (leb dag.config.limits.max_parallel (length busy))) [
      | inl t ↦ inl (rw t at m)
      | inr f ↦
          elim (Bool-cases
            (leb (cap dag.config job.spec.agent_id) (tally job.spec.agent_id busy))) [
              | inl c ↦
                  later-launch job jobs dag.launches l
                    (launch_each-made busy jobs dag l (rw (f, c) at m))
              | inr c ↦ made-next job jobs dag l (
                  launch_each-made (job.spec.agent_id ∷ busy) jobs (launch job dag) l
                    (rw (f, c) at m))
            ]
    ]

-- What `_launch_ready` starts beyond what was started before is an attempt of a job of the DAG that was
-- pending, and of which every dependency was a job of the DAG that was finished or skipped.
pub launch_ready-ready :
    (dag : JobDag) (l : Launch)
    → Memᴰ l (launch_ready dag).launches
    → Memᴰ l dag.launches
      ⊎ ((job : Job) × Memᴰ job dag.state.jobs
          × (is_ready dag.state job ≡ true)
          × (l.job ≡ started job))
unfolding launch_ready IsLaunchOf
launch_ready-ready dag l m =
    elim (launch_each-made (map (λ j. j.spec.agent_id) (running dag.state)) (ready dag.state) dag l
      m) [
        | inl n ↦ inl n
        | inr (job, n, e) ↦
            let r = mem-filter_from (is_ready dag.state) dag.state.jobs n in inr (job, r.0, r.1, e)
      ]
