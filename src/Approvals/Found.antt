-- ===== src/Approvals/Found.antt =====
-- What the lookups of app/infrastructure/persistence/approval_backend.py find, and what `put` keeps, where the
-- ids of the cases are distinct, as the keys of a dict are.
use ai_agents_carrier.Base.{
  String, ℕ, Bool, true, false, not, ◌&&◌, none, some, List, [], ◌∷◌, ◌≡◌, refl, sym, subst, ◌⊎◌,
  inl, inr, all, filter, find?, contains, are_distinct, str_eq, truthy, eq_iff, leb, Bool-cases,
  and_parts, or_true, one_value, false_of_not, eq_of_some, mem-filter_from, Memᴰ,
}
use text.Mathlib.TextPositions.{eq_refl}
use ai_agents_carrier.Approvals.Case.{ApprovalCase, is_pending}
use ai_agents_carrier.Approvals.Backend.{
  Backend, put, get, claimable, claim_for_decision, insert_newest, newest_first, first, is_open_for,
  find_pending_for_run,
}
use ai_agents_carrier.Approvals.Deciding.{close_as, abandon, find_open_case}

abbrev pub ids : List ApprovalCase → List String
ids [] = []
ids (case ∷ cases) = case.id ∷ ids cases

mem-cons_map :
    {x c : ApprovalCase} {xs ys : List ApprovalCase}
    → (Memᴰ c xs → Memᴰ c ys)
    → Memᴰ c (x ∷ xs)
    → Memᴰ c (x ∷ ys)
mem-cons_map later (Memᴰ.head e) = Memᴰ.head e
mem-cons_map later (Memᴰ.tail m) = Memᴰ.tail (later m)

mem_swap :
    {x y c : ApprovalCase} {xs : List ApprovalCase} → Memᴰ c (x ∷ y ∷ xs) → Memᴰ c (y ∷ x ∷ xs)
mem_swap (Memᴰ.head e) = Memᴰ.tail (Memᴰ.head e)
mem_swap (Memᴰ.tail (Memᴰ.head e)) = Memᴰ.head e
mem_swap (Memᴰ.tail (Memᴰ.tail m)) = Memᴰ.tail (Memᴰ.tail m)

first-insert_newest :
    (key : ApprovalCase → ℕ) (case : ApprovalCase) (cases : List ApprovalCase)
    → first (insert_newest key case cases) ≡ none
    → ⊥
unfolding insert_newest
first-insert_newest key case [] h = cc
first-insert_newest key case (x ∷ cases) h = elim (Bool-cases (leb (key x) (key case))) [
  | inl t ↦ cc (rw t at h)
  | inr f ↦ cc (rw f at h)
]

module _ (key : ApprovalCase → ℕ) where
  mem-insert_newest :
      (case : ApprovalCase) (cases : List ApprovalCase) {c : ApprovalCase}
      → Memᴰ c (insert_newest key case cases)
      → Memᴰ c (case ∷ cases)
  unfolding insert_newest
  mem-insert_newest case [] m = m
  mem-insert_newest case (x ∷ cases) m = elim (Bool-cases (leb (key x) (key case))) [
    | inl t ↦ rw t at m
    | inr f ↦ mem_swap (mem-cons_map (mem-insert_newest case cases) (rw f at m))
  ]

  mem-newest_first :
      (cases : List ApprovalCase) {c : ApprovalCase}
      → Memᴰ c (newest_first key cases)
      → Memᴰ c cases
  unfolding newest_first
  mem-newest_first [] m = m
  mem-newest_first (x ∷ cases) m =
      mem-cons_map (mem-newest_first cases) (mem-insert_newest x (newest_first key cases) m)

  first-mem : (cases : List ApprovalCase) {c : ApprovalCase} → first cases ≡ some c → Memᴰ c cases
  first-mem [] h = cc
  first-mem (x ∷ cases) h = Memᴰ.head (sym (eq_of_some h))

  none-first :
      (p : ApprovalCase → Bool) (cases : List ApprovalCase)
      → first (newest_first key (filter p cases)) ≡ none
      → all (λ c. not (p c)) cases ≡ true
  unfolding newest_first
  none-first p [] h = refl
  none-first p (x ∷ cases) h = elim (Bool-cases (p x)) [
    | inl t ↦ absurd (first-insert_newest key x (newest_first key (filter p cases)) (rw t at h))
    | inr f ↦ rw f (none-first p cases (rw f at h))
  ]

pub find_open-none :
    (run_id : String) (backend : Backend)
    → truthy run_id ≡ true
    → find_open_case run_id none backend ≡ none
    → all (λ c. not (is_open_for run_id none c)) backend.cases ≡ true
unfolding find_open_case find_pending_for_run
find_open-none run_id backend set h =
    none-first (λ c. c.created_at) (is_open_for run_id none) backend.cases (rw set at h)

pub find_open-some :
    (run_id : String) (backend : Backend) {case : ApprovalCase}
    → truthy run_id ≡ true
    → find_open_case run_id none backend ≡ some case
    → Memᴰ case backend.cases × (is_open_for run_id none case ≡ true)
unfolding find_open_case find_pending_for_run
find_open-some run_id backend set h =
    mem-filter_from (is_open_for run_id none) backend.cases
      (mem-newest_first (λ c. c.created_at) _ (first-mem (λ c. c.created_at) _ (rw set at h)))

pub open-parts :
    (run_id : String) (case : ApprovalCase)
    → is_open_for run_id none case ≡ true
    → (str_eq case.run_id run_id ≡ true) × (is_pending case ≡ true)
open-parts run_id case h =
    and_parts (str_eq case.run_id run_id)
      ((and_parts (str_eq case.run_id run_id && is_pending case) h).0)

-- ─── distinct ids ───

contains-ids :
    (cases : List ApprovalCase) {c : ApprovalCase} → Memᴰ c cases → contains (ids cases) c.id ≡ true
contains-ids [] m = elim m [ ]
contains-ids (x ∷ cases) {c} (Memᴰ.head e) = rw e (rw (eq_refl x.id) refl)
contains-ids (x ∷ cases) {c} (Memᴰ.tail m) = rw (contains-ids cases m) (or_true (str_eq x.id c.id))

pub str_eq-flip : (a b : String) → str_eq a b ≡ false → str_eq b a ≡ false
str_eq-flip a b h = elim (Bool-cases (str_eq b a)) [
  | inr f ↦ f
  | inl t ↦ absurd (one_value ((eq_iff a b).1 (sym ((eq_iff b a).0 t))) h)
]

-- a case after another has another id
apart :
    (x : ApprovalCase) (cases : List ApprovalCase) {c : ApprovalCase}
    → contains (ids cases) x.id ≡ false
    → Memᴰ c cases
    → str_eq c.id x.id ≡ false
apart x cases {c} fresh m = elim (Bool-cases (str_eq c.id x.id)) [
  | inr f ↦ f
  | inl t ↦ absurd (
      one_value (contains-ids cases m)
        (subst (λ i. contains (ids cases) i ≡ false) (sym ((eq_iff c.id x.id).0 t)) fresh))
]

-- the head's id is not among the others', which are distinct too
distinct-parts :
    (x : ApprovalCase) (cases : List ApprovalCase)
    → are_distinct (ids (x ∷ cases)) ≡ true
    → (contains (ids cases) x.id ≡ false) × (are_distinct (ids cases) ≡ true)
distinct-parts x cases d =
    let both = and_parts (not (contains (ids cases) x.id)) d in
    (false_of_not (contains (ids cases) x.id) both.0, both.1)

pub find-mem :
    (cases : List ApprovalCase) {c : ApprovalCase}
    → are_distinct (ids cases) ≡ true
    → Memᴰ c cases
    → find? (λ x. str_eq x.id c.id) cases ≡ some c
find-mem [] d m = elim m [ ]
find-mem (x ∷ cases) {c} d (Memᴰ.head e) = rw e (rw (eq_refl x.id) refl)
find-mem (x ∷ cases) {c} d (Memᴰ.tail m) =
    let both = distinct-parts x cases d in
    let other : str_eq x.id c.id ≡ false = str_eq-flip c.id x.id (apart x cases both.0 m) in
    rw other (find-mem cases both.1 m)

-- what `put` of a case under a stored id leaves: the case, and those of other ids
pub mem-put :
    (case : ApprovalCase) (cases : List ApprovalCase) {c : ApprovalCase}
    → are_distinct (ids cases) ≡ true
    → Memᴰ c (put case cases)
    → (c ≡ case) ⊎ (Memᴰ c cases × (str_eq c.id case.id ≡ false))
unfolding put
mem-put case [] d (Memᴰ.head e) = inl e
mem-put case [] d (Memᴰ.tail m) = elim m [ ]
mem-put case (x ∷ cases) {c} d m =
    let both = distinct-parts x cases d in
    elim (Bool-cases (str_eq x.id case.id)) [
      | inl t ↦ replaced ((eq_iff x.id case.id).0 t) both.0 (rw t at m)
      | inr f ↦ passed f (λ n. mem-put case cases both.1 n) (rw f at m)
    ]
  where
    replaced :
        x.id ≡ case.id
        → contains (ids cases) x.id ≡ false
        → Memᴰ c (case ∷ cases)
        → (c ≡ case) ⊎ (Memᴰ c (x ∷ cases) × (str_eq c.id case.id ≡ false))
    replaced same fresh (Memᴰ.head e) = inl e
    replaced same fresh (Memᴰ.tail n) =
        inr (Memᴰ.tail n, subst (λ i. str_eq c.id i ≡ false) same (apart x cases fresh n))

    passed :
        str_eq x.id case.id ≡ false
        → (Memᴰ c (put case cases) → (c ≡ case) ⊎ (Memᴰ c cases × (str_eq c.id case.id ≡ false)))
        → Memᴰ c (x ∷ put case cases)
        → (c ≡ case) ⊎ (Memᴰ c (x ∷ cases) × (str_eq c.id case.id ≡ false))
    passed f later (Memᴰ.head e) =
        inr (Memᴰ.head e, subst (λ y. str_eq y.id case.id ≡ false) (sym e) f)
    passed f later (Memᴰ.tail n) = elim (later n) [
      | inl e ↦ inl e
      | inr r ↦ inr (Memᴰ.tail r.0, r.1)
    ]

pub mem-put_other :
    (case : ApprovalCase) (cases : List ApprovalCase) {c : ApprovalCase}
    → str_eq c.id case.id ≡ false
    → Memᴰ c cases
    → Memᴰ c (put case cases)
unfolding put
mem-put_other case [] other m = elim m [ ]
mem-put_other case (x ∷ cases) {c} other (Memᴰ.head e) =
    let f : str_eq x.id case.id ≡ false = subst (λ y. str_eq y.id case.id ≡ false) e other in
    rw f (Memᴰ.head e)
mem-put_other case (x ∷ cases) {c} other (Memᴰ.tail m) = elim (Bool-cases (str_eq x.id case.id)) [
  | inl t ↦ rw t (Memᴰ.tail m)
  | inr f ↦ rw f (Memᴰ.tail (mem-put_other case cases other m))
]

-- a stored case that is pending and cannot be closed is claimed
pub abandon-refused :
    (now : ℕ) (reason : String) (backend : Backend) {case : ApprovalCase}
    → get case.id backend ≡ some case
    → is_pending case ≡ true
    → abandon now reason case.id backend ≡ none
    → contains backend.claimed case.id ≡ true
unfolding abandon close_as claim_for_decision claimable
abandon-refused now reason backend {case} found open_case h =
    elim (Bool-cases (contains backend.claimed case.id)) [
      | inl t ↦ t
      | inr f ↦ cc (rw (open_case, f) at (rw (found, abandon, close_as, claim_for_decision) at h))
    ]
