-- ===== src/Approvals/Hiding.antt =====
-- The filters that app/application/visibility.py puts on a listing of the approvals, against its test of one case.
use ai_agents_carrier.Base.{
  String, ℕ, length, Bool, true, false, not, ◌&&◌, Option, none, some, List, [], ◌∷◌, ◌≡◌, refl,
  sym, subst, inl, inr, ◌∙◌, ap, map, filter, contains, are_distinct, truthy, str_eq, eq_iff,
  Bool-cases, Option-cases, and_parts, false_of_not,
}
use ai_agents_carrier.Auth.Principal.{Subject}
use ai_agents_carrier.Visibility.Model.{Resource}
use ai_agents_carrier.Visibility.Predicates.{can_see}
use ai_agents_carrier.Visibility.Guard.{Store, Platform, get}
use ai_agents_carrier.Approvals.Case.{ApprovalCase}
use ai_agents_carrier.Approvals.Backend.{Backend, newest_first, take}
use ai_agents_carrier.Approvals.Listing.{
  Query, matches, is_excluded, not_excluded, drop, list_cases, of_operation, count, hidden_ids,
  unless_empty, approval_exclusions, sees_found, workflow_visible, source_hidden,
  approval_case_visible,
}

abbrev pub ids : Store → List String
ids store = map (λ r. r.id) store

-- An `_id` of the database is unique, and no definition has an empty one.
abbrev pub is_keyed : Option Store → Bool
is_keyed none = true
is_keyed (some store) = are_distinct (ids store) && not (contains (ids store) "")

excluded-unless_empty :
    (xs : List String) (id : String) → is_excluded (unless_empty xs) id ≡ contains xs id
excluded-unless_empty [] id = refl
excluded-unless_empty (x ∷ xs) id = refl

empty_of_not_truthy : (id : String) → truthy id ≡ false → id ≡ ""
empty_of_not_truthy String.[] h = refl
empty_of_not_truthy (String.◌∷◌ c s) h = cc

filtered_out :
    (p : Resource → Bool) (store : Store) (id : String)
    → contains (ids store) id ≡ false
    → contains (ids (filter p store)) id ≡ false
filtered_out p [] id h = refl
filtered_out p (r ∷ store) id h = elim (Bool-cases (str_eq r.id id)) [
  | inl t ↦ cc (rw t at h)
  | inr f ↦
      let later = filtered_out p store id (rw f at h) in
      elim (Bool-cases (p r)) [ inl t ↦ rw t (rw f later) | inr g ↦ rw g later ]
]

-- An id is hidden where the resource that it is the id of is.
hidden-found :
    (who : Option Subject) (store : Store) (id : String)
    → are_distinct (ids store) ≡ true
    → not (contains (ids (filter (λ r. not (can_see who r)) store)) id)
      ≡ sees_found who (get store id)
unfolding get
hidden-found who [] id d = refl
hidden-found who (r ∷ store) id d = elim (Bool-cases (str_eq r.id id)) [
  | inl t ↦
      let absent : contains (ids store) id ≡ false =
        subst (λ i. contains (ids store) i ≡ false) ((eq_iff r.id id).0 t)
          (false_of_not (contains (ids store) r.id)
            (and_parts (not (contains (ids store) r.id)) d).0) in
      elim (Bool-cases (can_see who r)) [
        | inl v ↦ rw t (rw v (rw (filtered_out (λ s. not (can_see who s)) store id absent) refl))
        | inr v ↦ rw t (rw v (rw t refl))
      ]
  | inr f ↦
      let later = hidden-found who store id (and_parts (not (contains (ids store) r.id)) d).1 in
      elim (Bool-cases (can_see who r)) [
        | inl v ↦ rw f (rw v later)
        | inr v ↦ rw f (rw v (rw f later))
      ]
]

absent-get : (store : Store) (id : String) → contains (ids store) id ≡ false → get store id ≡ none
unfolding get
absent-get [] id h = refl
absent-get (r ∷ store) id h = elim (Bool-cases (str_eq r.id id)) [
  | inl t ↦ cc (rw t at h)
  | inr f ↦ rw f (absent-get store id (rw f at h))
]

sees-found :
    (subject : Subject) (store : Store) (id : String)
    → is_keyed (some store) ≡ true
    → workflow_visible (some store) (some subject) id ≡ sees_found (some subject) (get store id)
unfolding workflow_visible
sees-found subject store id k = elim (Bool-cases (truthy id)) [
  | inl t ↦ rw t refl
  | inr f ↦
      let named =
        false_of_not (contains (ids store) "") (and_parts (are_distinct (ids store)) k).1 in
      let gone : get store id ≡ none =
        absent-get store id
          (subst (λ i. contains (ids store) i ≡ false) (sym (empty_of_not_truthy id f)) named) in
      rw f (rw gone refl)
]

not_excluded-workflow :
    (who : Option Subject) (store : Option Store) (id : String)
    → is_keyed store ≡ true
    → not (is_excluded (unless_empty (hidden_ids store who)) id) ≡ workflow_visible store who id
unfolding hidden_ids workflow_visible
not_excluded-workflow who none id k = refl
not_excluded-workflow none (some store) id k = refl
not_excluded-workflow (some subject) (some store) id k =
    ap not (excluded-unless_empty (hidden_ids (some store) (some subject)) id)
    ∙ hidden-found (some subject) store id (and_parts (are_distinct (ids store)) k).0
    ∙ sym (sees-found subject store id k)

source_hidden-visible :
    (subject : Subject) (store : Option Store) (id : String)
    → not (source_hidden store (some subject) id) ≡ workflow_visible store (some subject) id
unfolding source_hidden workflow_visible
source_hidden-visible subject none id = refl
source_hidden-visible subject (some store) id = elim (Bool-cases (truthy id)) [
  | inl t ↦ elim (Option-cases (get store id)) [
    | inl n ↦ rw t (rw n refl)
    | inr r ↦ elim (Bool-cases (can_see (some subject) r.0)) [
      | inl v ↦ rw t (rw r.1 (rw v refl))
      | inr v ↦ rw t (rw r.1 (rw v refl))
    ]
  ]
  | inr f ↦ rw f refl
]

unbound : (store : Option Store) (id : String) → workflow_visible store none id ≡ true
unfolding workflow_visible
unbound none id = refl
unbound (some store) id = refl

both_visible :
    (p : Platform) (who : Option Subject) (case : ApprovalCase)
    → (workflow_visible p.workflows who case.workflow_id
        && workflow_visible p.datasources who case.datasource_id)
      ≡ approval_case_visible p who case
unfolding approval_case_visible
both_visible p none case =
    rw (unbound p.workflows case.workflow_id) (unbound p.datasources case.datasource_id)
both_visible p (some subject) case =
    rw (source_hidden-visible subject p.datasources case.datasource_id)
      (elim (Bool-cases (workflow_visible p.workflows (some subject) case.workflow_id)) [
        | inl t ↦ rw t refl
        | inr f ↦ rw f refl
      ])

not_excluded-visible :
    (p : Platform) (who : Option Subject) (case : ApprovalCase)
    → is_keyed p.workflows ≡ true
    → is_keyed p.datasources ≡ true
    → not_excluded (approval_exclusions p who) case ≡ approval_case_visible p who case
unfolding not_excluded approval_exclusions approval_case_visible
not_excluded-visible p who case w d =
    let workflows = not_excluded-workflow who p.workflows case.workflow_id w in
    let sources = not_excluded-workflow who p.datasources case.datasource_id d in
    rw workflows (rw sources (both_visible p who case))

filter-same {ℓ} :
    {A : Type ℓ} (f g : A → Bool) (xs : List A) → ((x : A) → f x ≡ g x) → filter f xs ≡ filter g xs
filter-same f g [] h = refl
filter-same f g (x ∷ xs) h = rw (h x) (rw (filter-same f g xs h) refl)

-- The page of a listing of the approvals, and its count, are those of the cases that match and that the
-- caller may open, where the ids in the stores of workflows and data sources are distinct and no empty texts.
pub list_cases-exclusions :
    (p : Platform) (who : Option Subject) (query : Query) (limit offset : ℕ) (backend : Backend)
    → is_keyed p.workflows ≡ true
    → is_keyed p.datasources ≡ true
    → (list_cases query (approval_exclusions p who) limit offset backend
        ≡ take limit (
            drop offset (
              newest_first
                (λ c. c.created_at)
                (filter (λ c. matches query c && approval_case_visible p who c) backend.cases))))
      × (count query (approval_exclusions p who) backend
          ≡ length (
              filter
                (λ c. matches query c && (of_operation query c && approval_case_visible p who c))
                backend.cases))
unfolding list_cases count
list_cases-exclusions p who query limit offset backend w d = (
  ap (λ cases. take limit (drop offset (newest_first (λ c. c.created_at) cases)))
      (filter-same _ _ backend.cases
        (λ c. ap (λ b. matches query c && b) (not_excluded-visible p who c w d))),
  ap length (
      filter-same _ _ backend.cases (λ c.
        ap (λ b. matches query c && (of_operation query c && b))
          (not_excluded-visible p who c w d))),
)
