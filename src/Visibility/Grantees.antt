-- ===== src/Visibility/Grantees.antt =====
-- Who grants what to whom, and what a grant of app/application/grants.py leaves alone.
use ai_agents_carrier.Base.{
  String, Bool, true, false, not, ◌&&◌, Option, none, some, List, [], ◌∷◌, ◌++◌, ◌≡◌, refl, sym,
  subst, inl, inr, ◌∙◌, filter, find?, find?-some, str_eq, opt_eq, eq_iff, strip, Bool-cases,
  and_parts,
}
use ai_agents_carrier.Auth.Principal.{Subject}
use ai_agents_carrier.Teams.Directory.{Directory, get_user}
use ai_agents_carrier.Visibility.Model.{
  Access, GranteeType, user, ResourceGrant, Kind, workflow, same_kind, Resource, grant_invalid,
  grant_conflict, same_grantee, ok, raise_if, lift_option, >>=-eq-ok, raise_if-ok,
}
use ai_agents_carrier.Visibility.Predicates.{is_public, grants_of, can_change_visibility}
use ai_agents_carrier.Visibility.Guard.{Platform, resolve, get, stored, scope_violation}
use ai_agents_carrier.Visibility.Scoped.{upsert}
use ai_agents_carrier.Visibility.Saving.{get-upsert, resolve-with_store}
use ai_agents_carrier.Visibility.Sharing.{
  edits_too_much, in_its_team, covered, known_user, check_user_grantee, check_workflow_grantee,
  check_grantee, is_for, with_grant, grant,
}
use ai_agents_carrier.Visibility.Granted.{lift_option-ok, grant-IsGranted}

-- Whether a grantee stands outside what the resource is open to already: a user who is not its owner nor in
-- its team, and known where there is a directory; a workflow that is stored, that the scope rules keep
-- from the resource, and that is granted the use of an agent or a workflow only.
unfoldable pub outside : Platform → Kind → Resource → GranteeType → String → Access → Bool
unfolding get_user get scope_violation
outside p kind r user id access = not (opt_eq r.owner_id (some id)) && (elim p.directory [
  | none ↦ true
  | some directory ↦ elim (get_user directory id) [ none ↦ false | some u ↦ not (in_its_team r u) ]
])
outside p kind r GranteeType.workflow id access =
    not (edits_too_much kind access)
    && (elim (get (stored p.workflows) id) [ none ↦ false | some w ↦ not (covered p w r) ])

known_user-outside :
    (r : Resource) (directory : Option Directory) (id : String) {name : Option String}
    → known_user r directory id ≡ ok name
    → (elim directory [
      | none ↦ true
      | some d ↦ elim (get_user d id) [ none ↦ false | some u ↦ not (in_its_team r u) ]
    ])
      ≡ true
unfolding known_user
known_user-outside r none id h = refl
known_user-outside r (some d) id h =
    let a = >>=-eq-ok (lift_option (get_user d id) grant_invalid) _ h in
    let b = >>=-eq-ok (raise_if (in_its_team r a.0) grant_conflict) _ a.2 in
    rw (lift_option-ok (get_user d id) grant_invalid a.1) (rw (raise_if-ok _ _ b.1) refl)

check_grantee-outside :
    (p : Platform) (who : Option Subject) (kind : Kind) (r : Resource) (type : GranteeType)
    (id : String) (access : Access) {name : Option String}
    → check_grantee p who kind r type id access ≡ ok name
    → outside p kind r type id access ≡ true
unfolding check_grantee check_user_grantee check_workflow_grantee outside
check_grantee-outside p who kind r user id access h =
    let a = >>=-eq-ok (raise_if (opt_eq r.owner_id (some id)) grant_conflict) _ h in
    rw (raise_if-ok _ _ a.1) (known_user-outside r p.directory id a.2)
check_grantee-outside p who kind r GranteeType.workflow id access h =
    let a = >>=-eq-ok (raise_if (edits_too_much kind access) grant_invalid) _ h in
    let b = >>=-eq-ok (raise_if (same_kind kind workflow && str_eq id r.id) grant_conflict) _ a.2 in
    let c = >>=-eq-ok (lift_option (get (stored p.workflows) id) grant_invalid) _ b.2 in
    let d = >>=-eq-ok (raise_if (covered p c.0 r) grant_conflict) _ c.2 in
    rw (raise_if-ok _ _ a.1) (
      rw (lift_option-ok (get (stored p.workflows) id) grant_invalid c.1)
        (rw (raise_if-ok _ _ d.1) refl))

find-filter_other :
    (p q : ResourceGrant → Bool) (g : ResourceGrant) (grants : List ResourceGrant)
    → ((x : ResourceGrant) → q x ≡ true → p x ≡ false)
    → p g ≡ false
    → find? p (filter (λ x. not (q x)) grants ++ (g ∷ [])) ≡ find? p grants
find-filter_other p q g [] apart h = rw h refl
find-filter_other p q g (x ∷ grants) apart h = elim (Bool-cases (q x)) [
  | inl t ↦ rw t (rw (apart x t) (find-filter_other p q g grants apart h))
  | inr f ↦ elim (Bool-cases (p x)) [
    | inl t ↦ rw f (rw t refl)
    | inr e ↦ rw f (rw e (find-filter_other p q g grants apart h))
  ]
]

eq_of_same_grantee : (a b : GranteeType) → same_grantee a b ≡ true → a ≡ b
eq_of_same_grantee user user h = refl
eq_of_same_grantee user GranteeType.workflow h = cc
eq_of_same_grantee GranteeType.workflow user h = cc
eq_of_same_grantee GranteeType.workflow GranteeType.workflow h = refl

-- a grant to the grantee of another is no grant to a third
is_for-apart :
    (type : GranteeType) (id : String) (g x : ResourceGrant)
    → is_for type id g ≡ false
    → is_for g.grantee_type g.grantee_id x ≡ true
    → is_for type id x ≡ false
is_for-apart type id g x other same =
    let s = and_parts (same_grantee x.grantee_type g.grantee_type) same in
    let t : x.grantee_type ≡ g.grantee_type =
      eq_of_same_grantee x.grantee_type g.grantee_type s.0 in
    let i : x.grantee_id ≡ g.grantee_id = (eq_iff x.grantee_id g.grantee_id).0 s.1 in
    subst (λ a. (same_grantee a type && str_eq x.grantee_id id) ≡ false) (sym t)
      (subst (λ b. (same_grantee g.grantee_type type && str_eq b id) ≡ false) (sym i) other)

-- What a grant that succeeds says of the resource it opens, and of everything else.
pub record IsFair (p : Platform) (who : Option Subject) (kind : Kind) (id : String)
    (type : GranteeType) (asked : String) (access : Access) (done : Platform × ResourceGrant)
    (other_id : String) (other : GranteeType × String) : Type 0 where
  pub resource : Resource
  pub is_resource : get (stored (resolve p kind)) id ≡ some resource
  pub may_change : can_change_visibility who resource ≡ true
  pub not_public : is_public resource.visibility ≡ false
  pub is_outside : outside p kind resource type (strip asked) access ≡ true
  pub grants : List ResourceGrant
  pub saved : get (stored (resolve done.0 kind)) id ≡ some (record resource { grants = grants })
  pub other_grantee :
      find? (is_for other.0 other.1) grants ≡ find? (is_for other.0 other.1) (grants_of resource)
  pub other_resource :
      get (stored (resolve done.0 kind)) other_id ≡ get (stored (resolve p kind)) other_id

-- A grant that succeeds was made by a caller who may change who sees the resource, which is not public, to a
-- grantee who stands outside what it is open to. It changes nothing of the resource but its grants, leaves
-- those of every other grantee, and leaves every other resource of the kind as it is.
pub grant-IsFair :
    (p : Platform) (who : Option Subject) (kind : Kind) (id : String) (type : GranteeType)
    (asked : String) (access : Access) (fresh : String) (done : Platform × ResourceGrant)
    (other_id : String) (other : GranteeType × String)
    → grant p who kind id type asked access fresh ≡ ok done
    → str_eq id other_id ≡ false
    → is_for other.0 other.1 done.1 ≡ false
    → IsFair p who kind id type asked access done other_id other
unfolding get
grant-IsFair p who kind id type asked access fresh done other_id other h apart third =
    let g = grant-IsGranted p who kind id type asked access fresh h in
    let r = g.resource in
    let s = g.shared in
    let grants = with_grant done.1 (grants_of r) in
    let saved = record r { grants = grants } in
    let named : r.id ≡ id =
      (eq_iff r.id id).0 (find?-some (λ x. str_eq x.id id) s.store s.found).1 in
    let after : resolve done.0 kind ≡ some (upsert saved s.store) =
      rw g.saved (resolve-with_store p kind (upsert saved) s.store s.is_store) in
    record {
      resource = r;
      is_resource = rw s.is_store s.found;
      may_change = s.may_share;
      not_public = g.not_public;
      is_outside = check_grantee-outside p who kind r type (strip asked) access g.checked;
      grants = grants;
      saved = rw after (get-upsert saved s.store id ∙ rw ((eq_iff r.id id).1 named) refl);
      other_grantee =
          find-filter_other (is_for other.0 other.1) (is_for done.1.grantee_type done.1.grantee_id)
            done.1 (grants_of r) (λ x same. is_for-apart other.0 other.1 done.1 x third same) third;
      other_resource = rw after (
          rw s.is_store (
            get-upsert saved s.store other_id
            ∙ rw (subst (λ i. str_eq i other_id ≡ false) (sym named) apart) refl));
    }
