-- ===== src/Graph/Branches.antt =====
-- Two nodes of one superstep of LangGraph: both see the same state, and their updates are merged one after
-- the other, by the reducers of app/infrastructure/orchestration/yaml_graph.py.
use ai_agents_carrier.Base.{
  String, ℕ, ◌<◌, true, false, Option, none, some, [], ◌∷◌, ◌++◌, ◌≡◌, refl, inl, inr, str_eq,
  arith, Bool-cases,
}
use ai_agents_carrier.Graph.Model.{
  Counts, State, Output, Update, is_skipped, count_of, or_empty, merge_dicts, apply_update,
}
use ai_agents_carrier.Graph.Guards.{Step, returned, loop_guarded, counted}
use ai_agents_carrier.Graph.Counting.{left_alone, one_more, counted-IsCounting}
use ai_agents_carrier.Graph.Merging.{count_in}

count_of-append :
    (id : String) (counts rest : Counts)
    → 0 < count_of id counts
    → count_of id (counts ++ rest) ≡ count_of id counts
unfolding count_of
count_of-append id [] rest h = absurd (omega (arith, h))
count_of-append id (entry ∷ counts) rest h = elim (Bool-cases (str_eq entry.0 id)) [
  | inl t ↦ rw t refl
  | inr f ↦ rw f (count_of-append id counts rest (rw f at h))
]

-- writing the counts of a state over any others restores the counts that it holds
overwritten :
    (id own : String) (n : ℕ) (state : State) (later : Option Counts)
    → str_eq own id ≡ false
    → 0 < count_in id state
    → count_of id (or_empty (merge_dicts later (some ((own, n) ∷ or_empty state.visit_counts))))
      ≡ count_in id state
unfolding count_of merge_dicts
overwritten id own n state none other h = rw other refl
overwritten id own n state (some later) other h =
    rw other (count_of-append id (or_empty state.visit_counts) later h)

-- When a guarded node does work that counts, merging its update sets the count of every other step that was
-- counted before back to what the node saw: a visit of another branch of the same superstep, whose
-- update was merged earlier, is lost, and the limit on the loops of its step does not see it.
pub earlier_branch_uncounted :
    (max_iterations : ℕ) (id : String) (step : Step) (state : State) (output : Output)
    (earlier update : Update)
    → loop_guarded step ≡ true
    → str_eq step.id id ≡ false
    → 0 < count_in id state
    → is_skipped output ≡ false
    → counted max_iterations step state output ≡ returned update
    → count_in id (apply_update update (apply_update earlier state)) ≡ count_in id state
unfolding apply_update
earlier_branch_uncounted max_iterations id step state output earlier update guarded other before
      busy h =
    elim (counted-IsCounting max_iterations step state output guarded h) [
      | left_alone e idle ↦ cc (rw (guarded, busy) at idle)
      | one_more counting work ↦
          rw counting.counts
            (overwritten id step.id _ state (apply_update earlier state).visit_counts other before)
    ]
