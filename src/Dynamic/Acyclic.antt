-- ===== src/Dynamic/Acyclic.antt =====
-- `has_cycle` of app/infrastructure/orchestration/dynamic/dispatcher.py against the paths of a graph.
use Prim.Native.String.{String}
use ai_agents_carrier.Base.{
  ℕ, suc, ◌≤◌, ◌<◌, Bool, true, false, ◌||◌, some, List, [], ◌∷◌, ◌≡◌, refl, subst, inl, inr,
  length, all, all-mem, contains, str_eq, eq_iff, arith, Bool-cases, Option-cases, and_parts,
  or_true, if◌then◌else◌,
}
use ai_agents_carrier.Dynamic.Dispatcher.{Graph, neighbours, visit_roots, no_colours, has_cycle}
use ai_agents_carrier.Dynamic.Visiting.{
  IsEdge, Reaches, edge, further, is_past, settled, ordered, roots-done, names_in,
}

left_of_or : (a b : Bool) → (a || b) ≡ true → b ≡ false → a ≡ true
left_of_or true b h f = refl
left_of_or false b h f = cc

-- how far from the end of the list a name stands last
rank : String → List String → ℕ
rank a [] = 0
rank a (x ∷ xs) =
    let later = rank a xs in
    if contains xs a then later else (if str_eq x a then suc (length xs) else 0)

rank-length : (a : String) (xs : List String) → rank a xs ≤ length xs
unfolding rank
rank-length a [] = omega arith
rank-length a (x ∷ xs) = ground (arith, rank-length a xs)

edge-past :
    (graph : Graph) (done : List String) (a b : String)
    → IsEdge graph a b
    → settled graph done a ≡ true
    → contains done b ≡ true
unfolding settled
edge-past graph done a b e h =
    let past : all (is_past graph done) e.deps ≡ true = rw e.from at h in
    let p : is_past graph done b ≡ true = all-mem (is_past graph done) e.deps past e.to in
    rw (e.is_node, is_past) at p

edge-rank :
    (graph : Graph) (a b : String) (done : List String)
    → IsEdge graph a b
    → ordered graph done ≡ true
    → contains done a ≡ true
    → (contains done b ≡ true) × (rank b done < rank a done)
unfolding ordered rank
edge-rank graph a b [] e h c = cc
edge-rank graph a b (x ∷ done) e h c =
    let o = and_parts (settled graph done x) h in
    elim (Bool-cases (contains done a)) [
      | inl t ↦
          let r = edge-rank graph a b done e o.1 t in
          (rw r.0 (or_true (str_eq x b)), rw (t, r.0) r.1)
      | inr f ↦
          let same : str_eq x a ≡ true = left_of_or (str_eq x a) (contains done a) c f in
          let in_done : contains done b ≡ true =
            edge-past graph done a b e
              (subst (λ i. settled graph done i ≡ true) ((eq_iff x a).0 same) o.0) in
          (
            rw in_done (or_true (str_eq x b)),
            rw (f, same, in_done) (omega (arith, rank-length b done)),
          )
    ]

Reaches-rank :
    (graph : Graph) (a b : String) (done : List String)
    → Reaches graph a b
    → ordered graph done ≡ true
    → contains done a ≡ true
    → rank b done < rank a done
Reaches-rank graph a b done (edge e) o c = (edge-rank graph a b done e o c).1
Reaches-rank graph a b done (further {b = m} e r) o c =
    let one = edge-rank graph a m done e o c in
    omega (arith, one.1, Reaches-rank graph m b done r o one.0)

node-in_names :
    (graph : Graph) (done : List String) (a : String) {deps : List String}
    → neighbours graph a ≡ some deps
    → names_in done graph ≡ true
    → contains done a ≡ true
unfolding names_in
node-in_names [] done a h n = cc
node-in_names (node ∷ graph) done a {deps} h n =
    let k = and_parts (contains done node.0) n in
    elim (Bool-cases (str_eq node.0 a)) [
      | inl t ↦ subst (λ i. contains done i ≡ true) ((eq_iff node.0 a).0 t) k.0
      | inr f ↦ node-in_names graph done a {deps = deps} (rw f at h) k.1
    ]

start_node :
    (graph : Graph) (a b : String)
    → Reaches graph a b
    → (deps : List String) × (neighbours graph a ≡ some deps)
start_node graph a b (edge e) = (e.deps, e.from)
start_node graph a b (further e r) = (e.deps, e.from)

-- A graph in which `has_cycle` finds no cycle has none: no path of one edge or more leads from a node back
-- to it.
pub has_cycle_sound : (graph : Graph) (a : String) → has_cycle graph ≡ false → ¬ Reaches graph a a
unfolding has_cycle ordered
has_cycle_sound graph a h = λ r. elim (Option-cases (visit_roots graph graph no_colours)) [
  | inl n ↦ cc (rw (n, has_cycle) at h)
  | inr last ↦
      let v = roots-done graph graph no_colours {after = last.0} (λ x h. cc) last.1 in
      let start = start_node graph a a r in
      let known = node-in_names graph last.0.done a start.1 v.1 in
      let loop = Reaches-rank graph a a last.0.done r (v.0.in_order refl) known in
      omega (arith, loop)
]
