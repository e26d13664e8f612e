-- ===== src/Graph/Falling.antt =====
-- Where a step goes that states no edge, and what app/application/step_normalization.py writes out for it.
use ai_agents_carrier.Base.{
  String, true, false, not, some, List, [], ◌∷◌, ◌++◌, ◌≡◌, refl, sym, subst, ◌⊎◌, inl, inr, ◌∙◌,
  ap, contains, is_empty, is_set, truthy, Bool-cases, and_parts, or_true, Memᴰ,
}
use ai_agents_carrier.Graph.Guards.{Step, Route}
use ai_agents_carrier.Graph.SameExits.{all_named, destination-cons}
use ai_agents_carrier.Graph.Closed.{Known}
use ai_agents_carrier.Graph.Normalizing.{
  is_parallel, declares_an_edge, destination, normalized, normalize_edges, edge_to, routes_to,
  targets_to, edges_of, edges_from,
}

-- an edge from a step that states none to the step after it
pub data FallsThrough (edge : String × String) : List Step → Type 0 where
  here :
      {step next : Step} {later : List Step}
      → declares_an_edge step ≡ false
      → edge ≡ (step.id, next.id)
      → FallsThrough edge (step ∷ next ∷ later)
  there :
      {step : Step} {later : List Step} → FallsThrough edge later → FallsThrough edge (step ∷ later)

mem-append : {A : Type 0} (xs ys : List A) {a : A} → Memᴰ a (xs ++ ys) → Memᴰ a xs ⊎ Memᴰ a ys
mem-append [] ys m = inr m
mem-append (x ∷ xs) ys (Memᴰ.head e) = inl (Memᴰ.head e)
mem-append (x ∷ xs) ys (Memᴰ.tail m) = elim (mem-append xs ys m) [
  | inl n ↦ inl (Memᴰ.tail n)
  | inr n ↦ inr n
]

mem-append_left : {A : Type 0} (xs ys : List A) {a : A} → Memᴰ a xs → Memᴰ a (xs ++ ys)
mem-append_left [] ys m = elim m [ ]
mem-append_left (x ∷ xs) ys (Memᴰ.head e) = Memᴰ.head e
mem-append_left (x ∷ xs) ys (Memᴰ.tail m) = Memᴰ.tail (mem-append_left xs ys m)

mem-append_right : {A : Type 0} (xs ys : List A) {a : A} → Memᴰ a ys → Memᴰ a (xs ++ ys)
mem-append_right [] ys m = m
mem-append_right (x ∷ xs) ys m = Memᴰ.tail (mem-append_right xs ys m)

one_edge :
    (ids : List String) (id dest : String)
    → edge_to ids id (some dest) ++ [] ≡ edge_to ids id (some dest)
one_edge ids id dest = elim (Bool-cases (contains ids dest)) [
  | inl t ↦ rw t refl
  | inr f ↦ rw f refl
]

routes_to-empty :
    (ids : List String) (id : String) (routes : List Route)
    → is_empty routes ≡ true
    → routes_to ids id routes ≡ []
unfolding routes_to
routes_to-empty ids id [] h = refl
routes_to-empty ids id (route ∷ routes) h = cc

no_routes :
    (step : Step)
    → is_parallel step ≡ false
    → declares_an_edge step ≡ false
    → is_empty step.routes ≡ true
unfolding declares_an_edge
no_routes step p d = elim (Bool-cases (is_empty step.routes)) [
  | inl e ↦ e
  | inr e ↦ cc (rw (or_true (is_set step.next)) at (rw e at (rw p at d)))
]

-- the one edge of a step that is written out
written-edges :
    (ids : List String) (step : Step) (later : List Step)
    → truthy step.id ≡ true
    → declares_an_edge step ≡ false
    → edges_of ids (normalized step later) ≡ edge_to ids step.id (some (destination later))
unfolding normalized edges_of targets_to
written-edges ids step later t d = elim (Bool-cases (is_parallel step)) [
  | inl p ↦ rw t (rw d (rw p (rw t (rw p (one_edge ids step.id (destination later))))))
  | inr p ↦ rw t (
      rw d (
        rw p
          (rw t (rw p (rw (routes_to-empty ids step.id step.routes (no_routes step p d)) refl)))))
]

kept-edges :
    (ids : List String) (step : Step) (later : List Step)
    → declares_an_edge step ≡ true
    → edges_of ids (normalized step later) ≡ edges_of ids step
unfolding normalized
kept-edges ids step later d = rw d (rw (or_true (not (truthy step.id))) refl)

edge_to-known :
    (ids : List String) (id dest : String)
    → contains ids dest ≡ true
    → edge_to ids id (some dest) ≡ (id, dest) ∷ []
edge_to-known ids id dest k = rw k refl

-- where a step goes that states no edge
written-FallsThrough :
    (ids : List String) (step : Step) (later : List Step) {e : String × String}
    → contains ids "END" ≡ false
    → all_named later ≡ true
    → Known ids later
    → declares_an_edge step ≡ false
    → Memᴰ e (edge_to ids step.id (some (destination later)))
    → FallsThrough e (step ∷ later)
unfolding destination
written-FallsThrough ids step [] no_end n k d m = elim (rw no_end at m) [ ]
written-FallsThrough ids step (next ∷ later) {e} no_end n k d m =
    let named = (and_parts (truthy next.id) n).0 in
    let to_next : Memᴰ e (edge_to ids step.id (some next.id)) =
      subst (λ i. Memᴰ e (edge_to ids step.id (some i))) (destination-cons next later named) m in
    here d (
      only (
        subst (Memᴰ e) (edge_to-known ids step.id next.id (and_parts (contains ids next.id) k).0)
          to_next))
  where
    only : Memᴰ e ((step.id, next.id) ∷ []) → e ≡ (step.id, next.id)
    only (Memᴰ.head q) = q
    only (Memᴰ.tail q) = elim q [ ]

pub normalized-from :
    (ids : List String) (steps : List Step) {e : String × String}
    → contains ids "END" ≡ false
    → all_named steps ≡ true
    → Known ids steps
    → Memᴰ e (edges_from ids (normalize_edges steps))
    → Memᴰ e (edges_from ids steps) ⊎ FallsThrough e steps
unfolding edges_from normalize_edges
normalized-from ids [] no_end n k m = inl m
normalized-from ids (step ∷ later) {e} no_end n k m =
    let named = and_parts (truthy step.id) n in
    let known = and_parts (contains ids step.id) k in
    elim (mem-append (edges_of ids (normalized step later)) (edges_from ids (normalize_edges later))
      m) [
        | inr q ↦ elim (normalized-from ids later no_end named.1 known.1 q) [
          | inl old ↦ inl (mem-append_right (edges_of ids step) (edges_from ids later) old)
          | inr new ↦ inr (there new)
        ]
        | inl q ↦ elim (Bool-cases (declares_an_edge step)) [
          | inl d ↦ inl (
              mem-append_left (edges_of ids step) (edges_from ids later)
                (subst (Memᴰ e) (kept-edges ids step later d) q))
          | inr d ↦ inr (
              written-FallsThrough ids step later no_end named.1 known.1 d
                (subst (Memᴰ e) (written-edges ids step later named.0 d) q))
        ]
      ]

pub normalized-to :
    (ids : List String) (steps : List Step) {e : String × String}
    → all_named steps ≡ true
    → Known ids steps
    → FallsThrough e steps
    → Memᴰ e (edges_from ids (normalize_edges steps))
unfolding edges_from normalize_edges
normalized-to ids [] n k f = elim f [ ]
normalized-to ids (step ∷ []) n k (there f) = elim f [ ]
normalized-to ids (step ∷ next ∷ later) {e} n k (here d q) =
    let named = and_parts (truthy step.id) n in
    let known = and_parts (contains ids step.id) k in
    let to_next : edges_of ids (normalized step (next ∷ later)) ≡ (step.id, next.id) ∷ [] =
      written-edges ids step (next ∷ later) named.0 d
      ∙ ap (λ i. edge_to ids step.id (some i))
          (destination-cons next later (and_parts (truthy next.id) named.1).0)
      ∙ edge_to-known ids step.id next.id (and_parts (contains ids next.id) known.1).0 in
    mem-append_left (edges_of ids (normalized step (next ∷ later)))
      (edges_from ids (normalize_edges (next ∷ later))) (subst (Memᴰ e) (sym to_next) (Memᴰ.head q))
normalized-to ids (step ∷ next ∷ later) n k (there f) =
    mem-append_right (edges_of ids (normalized step (next ∷ later)))
      (edges_from ids (normalize_edges (next ∷ later)))
      (normalized-to ids (next ∷ later) (and_parts (truthy step.id) n).1
        (and_parts (contains ids step.id) k).1 f)
