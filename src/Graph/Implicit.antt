-- ===== src/Graph/Implicit.antt =====
-- The edges that `implicit_edges` of app/application/step_normalization.py reports, against what a reader of the
-- list sees: a step that states no edge goes on to the step that is written after it.
use ai_agents_carrier.Base.{
  String, true, false, List, [], ◌∷◌, ◌≡◌, refl, sym, subst, inl, inr, ◌∙◌, ap, map, any, contains,
  truthy, and_parts, false_of_not, one_value, any_of_mem, mem-filter_to, mem-filter_from, Memᴰ,
}
use text.Mathlib.TextPositions.{eq_refl}
use ai_agents_carrier.Graph.Guards.{Step}
use ai_agents_carrier.Graph.SameExits.{all_named, normalized-same}
use ai_agents_carrier.Graph.SameGraph.{ids-normalize_edges}
use ai_agents_carrier.Graph.Building.{id_of}
use ai_agents_carrier.Graph.Arriving.{ids-Known}
use ai_agents_carrier.Graph.Normalizing.{
  normalize_edges, edges_from, step_ids, same_edge, declared_edges, implicit_edges,
}
use ai_agents_carrier.Graph.Falling.{FallsThrough, normalized-from, normalized-to}

step_ids-named : (steps : List Step) → all_named steps ≡ true → step_ids steps ≡ map id_of steps
step_ids-named [] n = refl
step_ids-named (step ∷ steps) n =
    let named = and_parts (truthy step.id) n in
    rw named.0 (ap (λ is. step.id ∷ is) (step_ids-named steps named.1))

all_named-normalize_edges :
    (steps : List Step) → all_named (normalize_edges steps) ≡ all_named steps
unfolding normalize_edges
all_named-normalize_edges [] = refl
all_named-normalize_edges (step ∷ steps) =
    rw ((normalized-same step steps).0) (rw (all_named-normalize_edges steps) refl)

-- the edges stated, once they are written out
declared-normalize_edges :
    (steps : List Step)
    → all_named steps ≡ true
    → declared_edges (normalize_edges steps) ≡ edges_from (map id_of steps) (normalize_edges steps)
unfolding declared_edges
declared-normalize_edges steps n =
    ap (λ is. edges_from is (normalize_edges steps))
      (step_ids-named (normalize_edges steps) (all_named-normalize_edges steps ∙ n)
        ∙ ids-normalize_edges steps)

same_edge_refl : (e : String × String) → same_edge e e ≡ true
same_edge_refl e = rw (eq_refl e.0) (eq_refl e.1)

-- The implicit edges of a list of steps are exactly those that lead from a step that states no edge to the step
-- written after it, other than edges that the list states as well, where no step's id is an empty text
-- or the marker "END".
pub implicit_edges_iff :
    (steps : List Step) (e : String × String)
    → all_named steps ≡ true
    → contains (map id_of steps) "END" ≡ false
    → (Memᴰ e (implicit_edges steps)
        → FallsThrough e steps × (any (same_edge e) (declared_edges steps) ≡ false))
      × (FallsThrough e steps × (any (same_edge e) (declared_edges steps) ≡ false)
          → Memᴰ e (implicit_edges steps))
unfolding implicit_edges declared_edges
implicit_edges_iff steps e n no_end = (
  λ m.
      let (stated, fresh) = mem-filter_from _ (declared_edges (normalize_edges steps)) m in
      let unstated : any (same_edge e) (declared_edges steps) ≡ false =
        false_of_not (any (same_edge e) (declared_edges steps)) fresh in
      (
        elim (normalized-from (map id_of steps) steps no_end n (ids-Known steps)
            (subst (Memᴰ e) (declared-normalize_edges steps n) stated)) [
              | inr new ↦ new
              | inl old ↦ absurd (
                  one_value
                    (any_of_mem (same_edge e) (declared_edges steps) (stated_before old)
                      (same_edge_refl e))
                    unstated)
            ],
        unstated,
      ),
  λ h.
      mem-filter_to _ (declared_edges (normalize_edges steps))
        (subst (Memᴰ e) (sym (declared-normalize_edges steps n))
          (normalized-to (map id_of steps) steps n (ids-Known steps) h.0))
        (rw h.1 refl),
)
  where
    stated_before : Memᴰ e (edges_from (map id_of steps) steps) → Memᴰ e (declared_edges steps)
    stated_before m = subst (λ is. Memᴰ e (edges_from is steps)) (sym (step_ids-named steps n)) m
