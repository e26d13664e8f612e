-- ===== src/Visibility/Sources.antt =====
-- `WorkflowSources` of app/application/visibility.py: the resources of one kind that a run of a workflow finds.
use ai_agents_carrier.Base.{
  String, Bool, true, false, not, ◌&&◌, ◌||◌, Option, none, some, List, [], ◌≡◌, refl, subst, inl,
  inr, ◌⊎◌, ◌∙◌, filter, truthy, str_eq, is_set, Bool-cases, eq_of_some, or_true, Option-cases,
  mem-filter_to, Memᴰ, find?-some, is_empty, if◌then◌else◌,
}
use ai_agents_carrier.Auth.Principal.{Subject}
use ai_agents_carrier.Visibility.Model.{
  Access, read, read_write, workflow, Resource, ok, private, same_visibility,
}
use ai_agents_carrier.Visibility.Predicates.{
  can_see, workflow_grant, user_grant, grants_of, grant_access, best, present,
}
use ai_agents_carrier.Visibility.References.{Reference, references, same_reference}
use ai_agents_carrier.Visibility.Guard.{
  Store, Platform, resolve, get, stored, check_references, out_of_sight,
}
use ai_agents_carrier.Visibility.Scoped.{get_visible}
use ai_agents_carrier.Visibility.Sight.{sees_by_scope, subject_sees-eq}
use ai_agents_carrier.Visibility.Checks.{lookup, check_references_sound}

-- what a grant to the workflow opens
abbrev opened : Option String → Option Resource → Option Resource
opened workflow_id none = none
opened workflow_id (some raw) = if present (workflow_grant raw workflow_id) then some raw else none

-- `get`
unfoldable pub get_source : Option Subject → Store → Option String → String → Option Resource
unfolding get_visible get
get_source who store workflow_id id = elim (get_visible who store id) [
  | some source ↦ some source
  | none ↦ if is_set workflow_id then opened workflow_id (get store id) else none
]

-- `granted`
unfoldable pub granted : Option Subject → Store → Option String → List Resource
unfolding can_see
granted who store workflow_id =
    if is_set workflow_id
    then filter (λ s. present (workflow_grant s workflow_id) && not (can_see who s)) store
    else []

-- a workflow finds what the caller sees, and what is granted to it
get_source-found :
    (who : Option Subject) (store : Store) (wid id : String) (target : Resource)
    → truthy wid ≡ true
    → get store id ≡ some target
    → (can_see who target || present (workflow_grant target (some wid))) ≡ true
    → get_source who store (some wid) id ≡ some target
unfolding get_source get_visible
get_source-found who store wid id target w found h = elim (Bool-cases (can_see who target)) [
  | inl v ↦ rw (found, get_source, get_visible) (rw v refl)
  | inr v ↦
      let g : present (workflow_grant target (some wid)) ≡ true = rw v at h in
      rw (found, get_source, get_visible) (rw v (rw w (rw found (rw g refl))))
]

nothing : {a : Resource} → none ≡ some a → ⊥
nothing h = cc

-- What a workflow finds its caller sees, or it is among those granted that the caller does not see.
get_source-origin :
    (who : Option Subject) (store : Store) (workflow_id : Option String) (id : String)
    {source : Resource}
    → get_source who store workflow_id id ≡ some source
    → (can_see who source ≡ true) ⊎ Memᴰ source (granted who store workflow_id)
unfolding granted get get_source get_visible
get_source-origin who store workflow_id id {source} h = elim (Option-cases (get store id)) [
  | inl n ↦
      let behind : (if is_set workflow_id then opened workflow_id (get store id) else none)
          ≡ some source =
        rw (n, get_source, get_visible) at h in
      elim (Bool-cases (is_set workflow_id)) [
        | inl s ↦ absurd (nothing (rw n at (rw s at behind)))
        | inr u ↦ absurd (nothing (rw u at behind))
      ]
  | inr (raw, e) ↦ elim (Bool-cases (can_see who raw)) [
    | inl v ↦
        let same : raw ≡ source = eq_of_some (rw (v) at (rw (e, get_source, get_visible) at h)) in
        inl (subst (λ r. can_see who r ≡ true) same v)
    | inr v ↦
        let behind : (if is_set workflow_id then opened workflow_id (get store id) else none)
            ≡ some source =
          rw v at (rw (e, get_source, get_visible) at h) in
        elim (Bool-cases (is_set workflow_id)) [
          | inr u ↦ absurd (nothing (rw u at behind))
          | inl s ↦ elim (Bool-cases (present (workflow_grant raw workflow_id))) [
            | inr g ↦ absurd (nothing (rw g at (rw e at (rw s at behind))))
            | inl g ↦
                let same : raw ≡ source = eq_of_some (rw g at (rw e at (rw s at behind))) in
                let stored_raw = (find?-some (λ r. str_eq r.id id) store e).0 in
                inr (
                  subst (λ r. Memᴰ r (granted who store workflow_id)) same
                    (rw s (mem-filter_to _ store stored_raw (rw g (rw v refl)))))
          ]
        ]
  ]
]

present-best : (a b : Option Access) → present (best a b) ≡ (present a || present b)
present-best none b = refl
present-best (some a) none = refl
present-best (some read) (some b) = refl
present-best (some read_write) (some b) = refl

present-best-true :
    (a b : Option Access) → present (best a b) ≡ true → (present a || present b) ≡ true
present-best-true a b h = rw (present-best a b) at h

-- a grant that opens a resource to a workflow is one to the workflow or one to its owner
grant_access-cases :
    (r target : Resource)
    → present (grant_access r workflow target) ≡ true
    → (present (workflow_grant target (some r.id)) ≡ true)
      ⊎ (present (user_grant target r.owner_id) ≡ true)
unfolding grant_access
grant_access-cases r target h = elim (Bool-cases (present (workflow_grant target (some r.id)))) [
  | inl t ↦ inl t
  | inr f ↦ inr (elim (Bool-cases (is_empty (grants_of target))) [
    | inl e ↦ cc (rw e at h)
    | inr e ↦ elim (Bool-cases (same_visibility r.visibility private)) [
      | inl v ↦ rw f at (
          present-best-true (workflow_grant target (some r.id)) (user_grant target r.owner_id)
            (rw (e, v) at h))
      | inr v ↦
          cc (rw f at (present-best-true (workflow_grant target (some r.id)) none (rw (e, v) at h)))
    ]
  ])
]

granted_sees : (b : Bool) {g : Bool} → g ≡ true → (b || g) ≡ true
granted_sees true h = refl
granted_sees false h = h

-- what is not out of sight of an owner is seen, or granted to the workflow
reaches :
    (who : Option Subject) (r : Resource) (ref : Reference) (target : Resource)
    → ((subject : Subject) → who ≡ some subject → r.owner_id ≡ subject.id)
    → out_of_sight who workflow r [] ref target ≡ false
    → (can_see who target || present (workflow_grant target (some r.id))) ≡ true
unfolding out_of_sight can_see
reaches none r ref target own h = refl
reaches (some subject) r ref target own h = elim (Bool-cases (can_see (some subject) target)) [
  | inl v ↦ rw v refl
  | inr v ↦ elim (Bool-cases (present (grant_access r workflow target))) [
    | inr g ↦ cc (rw (v, g) at h)
    | inl g ↦ elim (grant_access-cases r target g) [
      | inl w ↦ rw w (or_true (can_see (some subject) target))
      | inr u ↦
          let given : present (user_grant target subject.id) ≡ true = rw (own subject refl) at u in
          let seen : can_see (some subject) target ≡ true =
            subject_sees-eq subject target ∙ granted_sees (sees_by_scope subject target) given in
          rw seen refl
    ]
  ]
]

-- A new workflow that passes the check for its owner finds, when its owner runs it, every stored resource
-- that it refers to, itself aside: no reference that the check lets in is out of the reach of the run.
pub new_workflow-finds :
    (p : Platform) (who : Option Subject) (r : Resource) (refs : List Reference) (ref : Reference)
    (target : Resource)
    → check_references p who workflow r none ≡ ok tt
    → ((subject : Subject) → who ≡ some subject → r.owner_id ≡ subject.id)
    → truthy r.id ≡ true
    → references r ≡ some refs
    → Memᴰ ref refs
    → same_reference ref (workflow, r.id) ≡ false
    → lookup p ref.0 ref.1 ≡ some target
    → get_source who (stored (resolve p ref.0)) (some r.id) ref.1 ≡ some target
unfolding lookup
new_workflow-finds p who r refs ref target h own named e m other found =
    let sight =
      (check_references_sound p who workflow r none refs [] ref target h e refl m other found).1 in
    get_source-found who (stored (resolve p ref.0)) r.id ref.1 target named found
      (reaches who r ref target own sight)
