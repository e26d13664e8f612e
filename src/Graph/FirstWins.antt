-- ===== src/Graph/FirstWins.antt =====
-- The fan-in `proceed_or` of app/infrastructure/orchestration/yaml_graph.py over the arrivals of a run.
use ai_agents_carrier.Base.{
  String, ℕ, suc, Bool, true, false, not, ◌&&◌, Option, some, List, [], ◌∷◌, ◌≡◌, refl, sym, subst,
  inl, inr, ◌∙◌, ap, any, opt_eq, is_set, Bool-cases, if◌then◌else◌,
}
use ai_agents_carrier.Graph.Model.{Latch, State, latch_of, apply_update}
use ai_agents_carrier.Graph.Guards.{Step, raised, returned, plain}
use ai_agents_carrier.Graph.Joins.{
  next_latch, proceed_or_node, proceed_or_router, end_of_run, to_step,
}
use text.Mathlib.TextPositions.{eq_refl}

-- The state in which the router of a `proceed_or` step decides: other nodes have changed the state since
-- the last arrival, but never its latch, which only this step writes.
abbrev pub arrived : Step → State → State
arrived step state = elim (proceed_or_node step state) [
  | raised e ↦ state
  | returned output ↦ apply_update (plain output) state
]

-- whether another step's failure is on record when a branch arrives
abbrev pub fails : Step → Option String → Bool
fails step failed = is_set failed && not (opt_eq failed (some step.id))

-- Each arrival is the sentinel that the state holds then.
unfoldable pub passages : Step → String → List (Option String) → State → ℕ
unfolding proceed_or_node apply_update proceed_or_router
passages step dest [] state = 0
passages step dest (failed ∷ arrivals) state =
    let later = arrived step (record state { failed_step = failed }) in
    let rest = passages step dest arrivals later in
    elim (proceed_or_router step.id dest later) [ to_step d ↦ suc rest | end_of_run ↦ rest ]

-- the same, on the latch alone
unfoldable passes : Step → List (Option String) → Latch → ℕ
unfolding next_latch
passes step [] latch = 0
passes step (failed ∷ arrivals) latch =
    let rest = passes step arrivals (next_latch step.id failed latch) in
    if (next_latch step.id failed latch).last_won then suc rest else rest

latch-arrived :
    (step : Step) (failed : Option String) (state : State)
    → latch_of step.id (arrived step (record state { failed_step = failed })).latches
      ≡ next_latch step.id failed (latch_of step.id state.latches)
unfolding proceed_or_node apply_update latch_of
latch-arrived step failed state = rw (eq_refl step.id) refl

router-passes :
    (dest : String) (won : Bool) {a b : ℕ}
    → a ≡ b
    → (elim (if won then to_step dest else end_of_run) [ to_step d ↦ suc a | end_of_run ↦ a ])
      ≡ (if won then suc b else b)
router-passes dest true h = ap suc h
router-passes dest false h = h

passages-passes :
    (step : Step) (dest : String) (arrivals : List (Option String)) (state : State)
    → passages step dest arrivals state ≡ passes step arrivals (latch_of step.id state.latches)
unfolding passages passes proceed_or_router
passages-passes step dest [] state = refl
passages-passes step dest (failed ∷ arrivals) state =
    let later = arrived step (record state { failed_step = failed }) in
    let next = latch-arrived step failed state in
    let ih =
      subst (λ l. passages step dest arrivals later ≡ passes step arrivals l) next
        (passages-passes step dest arrivals later) in
    subst
      (λ l.
        (elim (if l.last_won then to_step dest else end_of_run) [
          | to_step d ↦ suc (passages step dest arrivals later)
          | end_of_run ↦ passages step dest arrivals later
        ])
        ≡ passes step (failed ∷ arrivals) (latch_of step.id state.latches))
      (sym next)
      (router-passes dest (next_latch step.id failed (latch_of step.id state.latches)).last_won ih)

-- how often the steps after it are due to run: once, if a branch arrives while no failure is on record
unfoldable owed : Step → List (Option String) → Bool → ℕ
owed step arrivals won =
    if won then 0 else (if any (λ failed. not (fails step failed)) arrivals then 1 else 0)

one_if_not : (b : Bool) → (if not b then suc 0 else 0) ≡ (if b then 0 else 1)
one_if_not true = refl
one_if_not false = refl

passes-owed :
    (step : Step) (arrivals : List (Option String)) (latch : Latch)
    → passes step arrivals latch ≡ owed step arrivals latch.won
unfolding passes owed next_latch
passes-owed step [] latch = elim (Bool-cases latch.won) [ inl t ↦ rw t refl | inr f ↦ rw f refl ]
passes-owed step (failed ∷ arrivals) latch = elim (Bool-cases (fails step failed)) [
  | inl t ↦ rw t (
      passes-owed step arrivals
        record { arrivals = suc latch.arrivals; won = latch.won; last_won = false })
  | inr f ↦
      let none_left =
        passes-owed step arrivals
          record { arrivals = suc latch.arrivals; won = true; last_won = not latch.won } in
      rw f (rw none_left (one_if_not latch.won))
]

-- The steps after a `proceed_or` step are run once if, among the branches that arrive, one does so while no
-- other step's failure is on record, and never if there is none, in whatever order the branches arrive
-- and whatever the other nodes do to the rest of the state.
pub passages_once :
    (step : Step) (dest : String) (arrivals : List (Option String)) (state : State)
    → (latch_of step.id state.latches).won ≡ false
    → passages step dest arrivals state
      ≡ (if any (λ failed. not (fails step failed)) arrivals then 1 else 0)
unfolding owed
passages_once step dest arrivals state h =
    passages-passes step dest arrivals state
    ∙ passes-owed step arrivals (latch_of step.id state.latches)
    ∙ rw h refl
