-- ===== src/Dynamic/Cyclic.antt =====
-- Where `has_cycle` of app/infrastructure/orchestration/dynamic/dispatcher.py says that there is a cycle, there
-- is one: the nodes that are open lead to the node that is visited, and there is fuel for all of them.
use Prim.Native.String.{String}
use ai_agents_carrier.Base.{
  ℕ, zero, suc, ◌≤◌, ◌<◌, Bool, true, false, ◌||◌, Option, none, some, List, [], ◌∷◌, ◌≡◌, refl,
  sym, subst, ◌⊎◌, ◌↔◌, inl, inr, ap, length, contains, str_eq, eq_iff, Memᴰ, arith, Bool-cases,
  Option-cases, or_true, if◌then◌else◌,
}
use ai_agents_carrier.Dynamic.Dispatcher.{
  Graph, neighbours, Colours, follow, follow_each, deps_of, visit, visit_roots, no_colours,
  has_cycle,
}
use ai_agents_carrier.Dynamic.Visiting.{
  IsEdge, Reaches, edge, further, Grows, Visits, follow-Grows, visit-Visits, Resting, rests,
}
use ai_agents_carrier.Dynamic.Acyclic.{has_cycle_sound}

and_then :
    (graph : Graph) (a b c : String) → Reaches graph a b → IsEdge graph b c → Reaches graph a c
and_then graph a b c (edge e) last = further e (edge last)
and_then graph a b c (further {b = m} e r) last = further e (and_then graph m b c r last)

-- a cycle of the graph
abbrev pub HasLoop : Graph → Type 0
HasLoop graph = (a : String) × Reaches graph a a

-- each open node that is not done is the node that is visited, or leads to it
abbrev Leads : Graph → Colours → String → Type 0
Leads graph colours node =
    (x : String)
    → contains colours.visiting x ≡ true
    → contains colours.done x ≡ false
    → (x ≡ node) ⊎ Reaches graph x node

-- ─── the nodes that can still be opened ───

unopened : List String → Graph → ℕ
unopened visiting [] = 0
unopened visiting (node ∷ graph) =
    let later = unopened visiting graph in if contains visiting node.0 then later else suc later

unopened-length : (visiting : List String) (graph : Graph) → unopened visiting graph ≤ length graph
unfolding unopened
unopened-length visiting [] = omega arith
unopened-length visiting (node ∷ graph) = ground (arith, unopened-length visiting graph)

unopened_fewer :
    (before after : List String) (graph : Graph)
    → ((x : String) → contains before x ≡ true → contains after x ≡ true)
    → unopened after graph ≤ unopened before graph
unfolding unopened
unopened_fewer before after [] h = omega arith
unopened_fewer before after (node ∷ graph) h =
    let later = unopened_fewer before after graph h in
    elim (Bool-cases (contains before node.0)) [
      | inl t ↦ rw t (rw (h node.0 t) later)
      | inr f ↦ elim (Bool-cases (contains after node.0)) [
        | inl t ↦ rw f (rw t (omega (arith, later)))
        | inr g ↦ rw f (rw g (omega (arith, later)))
      ]
    ]

unopened_opened :
    (visiting : List String) (graph : Graph) (node : String) {deps : List String}
    → neighbours graph node ≡ some deps
    → contains visiting node ≡ false
    → unopened (node ∷ visiting) graph < unopened visiting graph
unfolding unopened
unopened_opened visiting [] node h f = cc
unopened_opened visiting (n ∷ graph) node {deps} h f = elim (Bool-cases (str_eq n.0 node)) [
  | inl t ↦
      let e : n.0 ≡ node = (eq_iff n.0 node).0 t in
      let s : str_eq node n.0 ≡ true = (eq_iff node n.0).1 (sym e) in
      let free : contains visiting n.0 ≡ false =
        subst (λ i. contains visiting i ≡ false) (sym e) f in
      let fewer =
        unopened_fewer visiting (node ∷ visiting) graph (λ x h. rw h (or_true (str_eq node x))) in
      rw (s, free) (omega (arith, fewer))
  | inr g ↦
      let later = unopened_opened visiting graph node {deps = deps} (rw g at h) f in
      elim (Bool-cases (contains visiting n.0)) [
        | inl t ↦ rw t (rw (or_true (str_eq node n.0)) later)
        | inr e ↦ elim (Bool-cases (str_eq node n.0)) [
          | inl t ↦ rw (e, t) (omega (arith, later))
          | inr k ↦ rw (e, k) (omega (arith, later))
        ]
      ]
]

-- ─── one visit ───

leads-later :
    (graph : Graph) (before after : Colours) (node : String)
    → Grows graph before after
    → Leads graph before node
    → Leads graph after node
leads-later graph before after node g leads = λ x is_open left.
    elim (Bool-cases (contains before.done x)) [
      | inl t ↦ cc (rw (g.keeps x t) at left)
      | inr f ↦ elim (Bool-cases (contains before.visiting x)) [
        | inl t ↦ leads x t f
        | inr e ↦ cc (rw left at (rw e at (g.closes x is_open)))
      ]
    ]

-- a node that is opened, when the visit of it finds a cycle
record Visited (graph : Graph) (bound : ℕ) (node : String) (before : Colours) : Type 0 where
  leads : Leads graph before node
  closed : contains before.visiting node ≡ false
  deps : List String
  is_node : neighbours graph node ≡ some deps
  room : unopened before.visiting graph < bound

module _ (graph : Graph) (v : String → Colours → Option Colours) (bound : ℕ)
    (visits : (node : String) (before after : Colours)
      → v node before ≡ some after
      → Visits graph node before after)
    (loops : (node : String) (before : Colours)
      → Visited graph bound node before
      → v node before ≡ none
      → HasLoop graph)
    (node : String) (deps : List String) (from : neighbours graph node ≡ some deps) where
  follow-HasLoop :
      (next : String) (colours : Colours)
      → Leads graph colours node
      → Memᴰ next deps
      → unopened colours.visiting graph < bound
      → follow graph v next colours ≡ none
      → HasLoop graph
  follow-HasLoop next colours leads m room h = elim (Option-cases (neighbours graph next)) [
    | inl n ↦ cc (rw (n, follow) at h)
    | inr t ↦
        let e : IsEdge graph node next = record {
          deps = deps;
          from = from;
          to = m;
          target = t.0;
          is_node = t.1;
        } in
        elim (Bool-cases (contains colours.done next)) [
          | inl d ↦ cc (rw d at (rw (t.1, follow) at h))
          | inr f ↦ elim (Bool-cases (contains colours.visiting next)) [
            | inl o ↦ elim (leads next o f) [
              | inl same ↦ (node, edge (subst (IsEdge graph node) same e))
              | inr r ↦ (next, and_then graph next node next r e)
            ]
            | inr c ↦
                loops next colours
                  record {
                    leads = λ x o d. elim (leads x o d) [
                      | inl same ↦ inr (edge (subst (λ i. IsEdge graph i next) (sym same) e))
                      | inr r ↦ inr (and_then graph x node next r e)
                    ];
                    closed = c;
                    deps = t.0;
                    is_node = t.1;
                    room = room;
                  }
                  (rw (f, c) at (rw (t.1, follow) at h))
          ]
        ]
  ]

  follow_each-HasLoop :
      (nodes : List String) (colours : Colours)
      → ((x : String) → Memᴰ x nodes → Memᴰ x deps)
      → Leads graph colours node
      → unopened colours.visiting graph < bound
      → follow_each graph v nodes colours ≡ none
      → HasLoop graph
  follow_each-HasLoop [] colours within leads room h = cc
  follow_each-HasLoop (next ∷ nodes) colours within leads room h =
      elim (Option-cases (follow graph v next colours)) [
        | inl n ↦ follow-HasLoop next colours leads (within next (Memᴰ.head refl)) room n
        | inr one ↦
            let g = (follow-Grows graph v visits next colours one.1).0 in
            let fewer = unopened_fewer colours.visiting one.0.visiting graph g.keeps_open in
            follow_each-HasLoop nodes one.0 (λ x m. within x (Memᴰ.tail m))
              (leads-later graph colours one.0 node g leads) (omega (arith, fewer, room))
              (rw (one.1, follow_each) at h)
      ]

visit-HasLoop :
    (fuel : ℕ) (graph : Graph) (node : String) (before : Colours)
    → Visited graph fuel node before
    → visit fuel graph node before ≡ none
    → HasLoop graph
unfolding visit
visit-HasLoop zero graph node before w h = absurd (omega (arith, w.room))
visit-HasLoop (suc fuel) graph node before w h =
    let opened = record before { visiting = node ∷ before.visiting } in
    let fewer = unopened_opened before.visiting graph node {deps = w.deps} w.is_node w.closed in
    elim (Option-cases
      (follow_each graph (visit fuel graph) (deps_of (neighbours graph node)) opened)) [
        | inr later ↦ cc (rw (later.1, visit) at h)
        | inl n ↦
            follow_each-HasLoop graph (visit fuel graph) fuel (visit-Visits fuel graph)
              (visit-HasLoop fuel graph) node w.deps w.is_node w.deps opened (λ x m. m)
              (λ x o d. elim (Bool-cases (str_eq node x)) [
                | inl t ↦ inl (sym ((eq_iff node x).0 t))
                | inr f ↦ w.leads x (rw f at o) d
              ])
              (omega (arith, fewer, w.room)) (rw w.is_node at n)
      ]

-- ─── all roots ───

node_known :
    (graph : Graph) (node : String × List String)
    → Memᴰ node graph
    → (deps : List String) × (neighbours graph node.0 ≡ some deps)
node_known [] node m = elim m [ ]
node_known (n ∷ graph) node (Memᴰ.head e) =
    let t : str_eq n.0 node.0 ≡ true = (eq_iff n.0 node.0).1 (ap (λ x. x.0) (sym e)) in
    (n.1, rw (t, neighbours) refl)
node_known (n ∷ graph) node (Memᴰ.tail m) = elim (Bool-cases (str_eq n.0 node.0)) [
  | inl t ↦ (n.1, rw (t, neighbours) refl)
  | inr f ↦ let r = node_known graph node m in (r.0, rw (f, neighbours) r.1)
]

parts_of_or : (a b : Bool) → (a || b) ≡ false → (a ≡ false) × (b ≡ false)
parts_of_or true b h = cc
parts_of_or false b h = (refl, h)

roots-HasLoop :
    (graph : Graph) (nodes : List (String × List String)) (before : Colours)
    → ((n : String × List String) → Memᴰ n nodes → Memᴰ n graph)
    → Resting before
    → visit_roots graph nodes before ≡ none
    → HasLoop graph
unfolding visit_roots
roots-HasLoop graph [] before within rest h = cc
roots-HasLoop graph (node ∷ nodes) before within rest h =
    elim (Bool-cases (contains before.done node.0 || contains before.visiting node.0)) [
      | inl t ↦
          roots-HasLoop graph nodes before (λ n m. within n (Memᴰ.tail m)) rest
            (rw (t, visit_roots) at h)
      | inr f ↦ elim (Option-cases (visit (suc (length graph)) graph node.0 before)) [
        | inr one ↦
            let v = visit-Visits (suc (length graph)) graph node.0 before one.0 one.1 in
            roots-HasLoop graph nodes one.0 (λ n m. within n (Memᴰ.tail m))
              (rests graph rest v.grows) (rw one.1 at (rw (f, visit_roots) at h))
        | inl n ↦
            let known = node_known graph node (within node (Memᴰ.head refl)) in
            visit-HasLoop (suc (length graph)) graph node.0 before
              record {
                leads = λ x o d. cc (rw (rest x o) at d);
                closed =
                    (parts_of_or (contains before.done node.0) (contains before.visiting node.0)
                      f).1;
                deps = known.0;
                is_node = known.1;
                room = omega (arith, unopened-length before.visiting graph);
              }
              n
      ]
    ]

-- `has_cycle` says that there is a cycle exactly when a path of one edge or more leads from some node back to
-- it; in particular it has the fuel that it needs.
pub has_cycle_iff : (graph : Graph) → (has_cycle graph ≡ true) ↔ HasLoop graph
unfolding has_cycle
has_cycle_iff graph = (
  λ h. elim (Option-cases (visit_roots graph graph no_colours)) [
    | inl n ↦ roots-HasLoop graph graph no_colours (λ n m. m) (λ x h. cc) n
    | inr last ↦ cc (rw (last.1, has_cycle) at h)
  ],
  λ loop. elim (Bool-cases (has_cycle graph)) [
    | inl t ↦ t
    | inr f ↦ absurd (has_cycle_sound graph loop.0 f loop.1)
  ],
)
