-- ===== src/Graph/SameGraph.antt =====
-- What app/application/step_normalization.py writes out is what the graph builder of
-- app/infrastructure/orchestration/yaml_graph.py does with the shorthand.
use ai_agents_carrier.Base.{
  String, true, false, List, [], ◌∷◌, ◌≡◌, refl, ◌∙◌, ap, map, all, contains, truthy, and_parts,
}
use ai_agents_carrier.Graph.Guards.{Step}
use ai_agents_carrier.Graph.Joins.{to_step}
use ai_agents_carrier.Graph.Building.{node_types, following, exits_from, id_of, build}
use ai_agents_carrier.Graph.Closed.{Known}
use ai_agents_carrier.Graph.Normalizing.{normalized, normalize_edges}
use ai_agents_carrier.Graph.Arriving.{ids-Known}
use ai_agents_carrier.Graph.SameExits.{all_named, normalized-same, exit-later, exit-normalized}

module _ (ids : List String) (no_end : contains ids "END" ≡ false) where
  exits-normalize_edges :
      (steps : List Step)
      → all_named steps ≡ true
      → Known ids steps
      → exits_from ids (normalize_edges steps) ≡ exits_from ids steps
  unfolding exits_from normalize_edges
  exits-normalize_edges [] n k = refl
  exits-normalize_edges (step ∷ later) n k =
      let same =
        exit-later ids (normalized step later) later
        ∙ exit-normalized ids no_end step later n (and_parts (contains ids step.id) k).1 in
      let rest =
        exits-normalize_edges later (and_parts (truthy step.id) n).1
          (and_parts (contains ids step.id) k).1 in
      rw same (rw rest (rw ((normalized-same step later).0) refl))

pub ids-normalize_edges : (steps : List Step) → map id_of (normalize_edges steps) ≡ map id_of steps
unfolding normalize_edges
ids-normalize_edges [] = refl
ids-normalize_edges (step ∷ later) =
    rw ((normalized-same step later).0) (rw (ids-normalize_edges later) refl)

types-normalize_edges :
    (steps : List Step)
    → all (λ step. contains node_types step.type) (normalize_edges steps)
      ≡ all (λ step. contains node_types step.type) steps
unfolding normalize_edges
types-normalize_edges [] = refl
types-normalize_edges (step ∷ later) =
    rw ((normalized-same step later).1) (rw (types-normalize_edges later) refl)

following-normalize_edges :
    (steps : List Step) → following (normalize_edges steps) ≡ following steps
unfolding normalize_edges
following-normalize_edges [] = refl
following-normalize_edges (step ∷ later) = ap to_step (normalized-same step later).0

-- Writing out the edges of a list of steps does not change the graph that is built of it, the refusals of
-- the builder included, where no step's id is an empty text or the marker "END".
pub build-normalize_edges :
    (steps : List Step)
    → all_named steps ≡ true
    → contains (map id_of steps) "END" ≡ false
    → build (normalize_edges steps) ≡ build steps
unfolding build
build-normalize_edges steps n e = rw (ids-normalize_edges steps) (
    rw (types-normalize_edges steps) (
      rw (following-normalize_edges steps)
        (rw (exits-normalize_edges (map id_of steps) e steps n (ids-Known steps)) refl)))
