-- ===== src/Dynamic/Visiting.antt =====
-- What a visit of `has_cycle` in app/infrastructure/orchestration/dynamic/dispatcher.py does to the nodes that
-- are open and done, and the paths of a graph.
use Prim.Native.String.{String}
use ai_agents_carrier.Base.{
  ℕ, zero, suc, Bool, true, false, ◌&&◌, ◌||◌, Option, none, some, List, [], ◌∷◌, ◌≡◌, refl, subst,
  inl, inr, length, all, contains, str_eq, Memᴰ, Bool-cases, Option-cases, or_true, eq_of_some,
}
use ai_agents_carrier.Dynamic.Dispatcher.{
  Graph, neighbours, Colours, follow, follow_each, deps_of, visit, visit_roots,
}
use text.Mathlib.TextPositions.{eq_refl}

-- an edge between two nodes of the graph
pub record IsEdge (graph : Graph) (a b : String) : Type 0 where
  pub deps : List String
  pub from : neighbours graph a ≡ some deps
  pub to : Memᴰ b deps
  pub target : List String
  pub is_node : neighbours graph b ≡ some target

-- a path of one edge or more
pub data Reaches (graph : Graph) : String → String → Type 0 where
  edge : {a b : String} → IsEdge graph a b → Reaches graph a b
  further : {a b c : String} → IsEdge graph a b → Reaches graph b c → Reaches graph a c

-- ─── what is done is in order ───

-- a name that is no node, or that is done
abbrev pub is_past : Graph → List String → String → Bool
is_past graph done b = elim (neighbours graph b) [ none ↦ true | some _ ↦ contains done b ]

unfoldable pub settled : Graph → List String → String → Bool
settled graph done node = all (is_past graph done) (deps_of (neighbours graph node))

-- each node that is done comes after its successors
unfoldable pub ordered : Graph → List String → Bool
unfolding settled
ordered graph [] = true
ordered graph (node ∷ done) = settled graph done node && ordered graph done

-- what a visit that finds no cycle does to the colours
pub record Grows (graph : Graph) (before after : Colours) : Type 0 where
  pub keeps : (x : String) → contains before.done x ≡ true → contains after.done x ≡ true
  pub keeps_open :
      (x : String) → contains before.visiting x ≡ true → contains after.visiting x ≡ true
  pub closes :
      (x : String)
      → contains after.visiting x ≡ true
      → (contains before.visiting x || contains after.done x) ≡ true
  pub in_order : ordered graph before.done ≡ true → ordered graph after.done ≡ true

or_left : (a b : Bool) → a ≡ true → (a || b) ≡ true
or_left a b h = rw h refl

pub stays : (graph : Graph) (colours : Colours) → Grows graph colours colours
stays graph colours = record {
  keeps = λ x h. h;
  keeps_open = λ x h. h;
  closes = λ x h. or_left (contains colours.visiting x) (contains colours.done x) h;
  in_order = λ h. h;
}

-- the nodes still open after two visits
closed_after : (a n d : Bool) → ((n || a) || d) ≡ true → (a || (n || d)) ≡ true
closed_after true n d h = refl
closed_after false true d h = refl
closed_after false false d h = h

closes_twice : (a b c d : Bool) → (a || b) ≡ true → (b ≡ true → d ≡ true) → (a || d) ≡ true
closes_twice true b c d h k = refl
closes_twice false b c d h k = k h

pub then-Grows :
    (graph : Graph) {a b c : Colours} → Grows graph a b → Grows graph b c → Grows graph a c
then-Grows graph {a} {b} {c} first second = record {
  keeps = λ x h. second.keeps x (first.keeps x h);
  keeps_open = λ x h. second.keeps_open x (first.keeps_open x h);
  closes = λ x h. elim (Bool-cases (contains b.visiting x)) [
    | inl t ↦
        closes_twice (contains a.visiting x) (contains b.done x) (contains c.visiting x)
          (contains c.done x) (first.closes x t) (second.keeps x)
    | inr f ↦
        let g : contains c.done x ≡ true = rw f at (second.closes x h) in
        rw g (or_true (contains a.visiting x))
  ];
  in_order = λ h. second.in_order (first.in_order h);
}

pub past-keeps :
    (graph : Graph) {before after : Colours} (b : String)
    → Grows graph before after
    → is_past graph before.done b ≡ true
    → is_past graph after.done b ≡ true
past-keeps graph {before} {after} b g h = elim (Option-cases (neighbours graph b)) [
  | inl n ↦ rw (n, is_past) refl
  | inr t ↦ rw (t.1, is_past) (g.keeps b (rw (t.1, is_past) at h))
]

-- a successful visit of a node from some colours
pub record Visits (graph : Graph) (node : String) (before after : Colours) : Type 0 where
  pub grows : Grows graph before after
  pub is_done : contains after.done node ≡ true

module _ (graph : Graph) (v : String → Colours → Option Colours)
    (visits : (node : String) (before after : Colours)
      → v node before ≡ some after
      → Visits graph node before after) where
  pub follow-Grows :
      (next : String) (colours : Colours) {later : Colours}
      → follow graph v next colours ≡ some later
      → Grows graph colours later × (is_past graph later.done next ≡ true)
  follow-Grows next colours {later} h = elim (Option-cases (neighbours graph next)) [
    | inl n ↦
        let e : colours ≡ later = eq_of_some (rw (n, follow) at h) in
        (subst (Grows graph colours) e (stays graph colours), rw (n, is_past) refl)
    | inr t ↦ elim (Bool-cases (contains colours.done next)) [
      | inl d ↦
          let e : colours ≡ later = eq_of_some (rw d at (rw (t.1, follow) at h)) in
          (
            subst (Grows graph colours) e (stays graph colours),
            rw (t.1, is_past) (subst (λ c. contains c.done next ≡ true) e d),
          )
      | inr f ↦ elim (Bool-cases (contains colours.visiting next)) [
        | inl o ↦ cc (rw (f, o) at (rw (t.1, follow) at h))
        | inr e ↦
            let r = visits next colours later (rw (f, e) at (rw (t.1, follow) at h)) in
            (r.grows, rw (t.1, is_past) r.is_done)
      ]
    ]
  ]

  pub follow_each-Grows :
      (nodes : List String) (colours : Colours) {later : Colours}
      → follow_each graph v nodes colours ≡ some later
      → Grows graph colours later × (all (is_past graph later.done) nodes ≡ true)
  follow_each-Grows [] colours {later} h =
      (subst (Grows graph colours) (eq_of_some h) (stays graph colours), refl)
  follow_each-Grows (next ∷ nodes) colours {later} h =
      elim (Option-cases (follow graph v next colours)) [
        | inl n ↦ cc (rw (n, follow_each) at h)
        | inr one ↦
            let a = follow-Grows next colours one.1 in
            let b = follow_each-Grows nodes one.0 (rw (one.1, follow_each) at h) in
            (then-Grows graph a.0 b.0, rw (past-keeps graph next b.0 a.1) b.1)
      ]

closed_node :
    (graph : Graph) (node : String) (before after : Colours)
    → Grows graph (record before { visiting = node ∷ before.visiting }) after
    → all (is_past graph after.done) (deps_of (neighbours graph node)) ≡ true
    → Visits graph node before (record after { done = node ∷ after.done })
unfolding ordered settled
closed_node graph node before after g past = record {
  grows = record {
    keeps = λ x h. rw (g.keeps x h) (or_true (str_eq node x));
    keeps_open = λ x h. g.keeps_open x (rw h (or_true (str_eq node x)));
    closes = λ x h.
        closed_after (contains before.visiting x) (str_eq node x) (contains after.done x)
          (g.closes x h);
    in_order = λ h. rw past (g.in_order h);
  };
  is_done = rw (eq_refl node) refl;
}

pub visit-Visits :
    (fuel : ℕ) (graph : Graph) (node : String) (before after : Colours)
    → visit fuel graph node before ≡ some after
    → Visits graph node before after
unfolding visit
visit-Visits zero graph node before after h = cc
visit-Visits (suc fuel) graph node before after h =
    let opened = record before { visiting = node ∷ before.visiting } in
    elim (Option-cases
      (follow_each graph (visit fuel graph) (deps_of (neighbours graph node)) opened)) [
        | inl n ↦ cc (rw (n, visit) at h)
        | inr later ↦
            let r =
              follow_each-Grows graph (visit fuel graph) (visit-Visits fuel graph)
                (deps_of (neighbours graph node)) opened later.1 in
            subst (Visits graph node before) (eq_of_some (rw (later.1, visit) at h))
              (closed_node graph node before later.0 r.0 r.1)
      ]

-- ─── all roots ───

-- between two roots, what was opened is done
abbrev pub Resting : Colours → Type 0
Resting colours = (x : String) → contains colours.visiting x ≡ true → contains colours.done x ≡ true

pub rests :
    (graph : Graph) {before after : Colours}
    → Resting before
    → Grows graph before after
    → Resting after
rests graph {before} {after} rest g = λ x h. elim (Bool-cases (contains before.visiting x)) [
  | inl t ↦ g.keeps x (rest x t)
  | inr f ↦ rw f at (g.closes x h)
]

rests_at :
    (colours : Colours) (node : String)
    → Resting colours
    → (contains colours.done node || contains colours.visiting node) ≡ true
    → contains colours.done node ≡ true
rests_at colours node rest h = elim (Bool-cases (contains colours.done node)) [
  | inl t ↦ t
  | inr f ↦ rest node (rw f at h)
]

unfoldable pub names_in : List String → Graph → Bool
names_in done nodes = all (λ node. contains done node.0) nodes

pub roots-done :
    (graph : Graph) (nodes : List (String × List String)) (before : Colours) {after : Colours}
    → Resting before
    → visit_roots graph nodes before ≡ some after
    → Grows graph before after × (names_in after.done nodes ≡ true)
unfolding visit_roots names_in
roots-done graph [] before rest h =
    (subst (Grows graph before) (eq_of_some h) (stays graph before), refl)
roots-done graph (node ∷ nodes) before {after} rest h =
    elim (Bool-cases (contains before.done node.0 || contains before.visiting node.0)) [
      | inl t ↦
          let r = roots-done graph nodes before {after = after} rest (rw (t, visit_roots) at h) in
          (r.0, rw (r.0.keeps node.0 (rests_at before node.0 rest t)) r.1)
      | inr f ↦ elim (Option-cases (visit (suc (length graph)) graph node.0 before)) [
        | inl n ↦ cc (rw n at (rw (f, visit_roots) at h))
        | inr one ↦
            let v = visit-Visits (suc (length graph)) graph node.0 before one.0 one.1 in
            let r =
              roots-done graph nodes one.0 {after = after} (rests graph rest v.grows)
                (rw one.1 at (rw (f, visit_roots) at h)) in
            (then-Grows graph v.grows r.0, rw (r.0.keeps node.0 v.is_done) r.1)
      ]
    ]
