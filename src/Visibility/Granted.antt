-- ===== src/Visibility/Granted.antt =====
-- What a grant of app/application/grants.py leaves, and what taking it back leaves.
use ai_agents_carrier.Base.{
  String, Bool, true, false, not, ◌||◌, Option, none, some, List, [], ◌∷◌, ◌++◌, ◌≡◌, refl, subst,
  inl, inr, ◌∙◌, all, all-mem, filter, find?, find?-some, str_eq, truthy, strip, Bool-cases,
  true_of_not, or_true,
}
use ai_agents_carrier.Auth.Principal.{Subject}
use ai_agents_carrier.Visibility.Model.{
  Access, GranteeType, user, ResourceGrant, Kind, agent, datasource, script, workflow, same_kind,
  same_grantee, Resource, has_grants, Error, not_owner, resource_not_found, grant_invalid,
  grant_conflict, ok, raise_if, lift_option, >>=-eq-ok, raise_if-ok,
}
use ai_agents_carrier.Visibility.Predicates.{
  team_of_resource, is_public, grants_of, can_see, can_manage, can_edit, can_change_visibility,
  in_team,
}
use ai_agents_carrier.Visibility.Guard.{Store, Platform, resolve, get, stored}
use ai_agents_carrier.Visibility.Scoped.{upsert}
use ai_agents_carrier.Visibility.Sight.{change_needs_sight}
use ai_agents_carrier.Visibility.Saving.{get-upsert, resolve-with_store}
use ai_agents_carrier.Visibility.Sharing.{
  is_script, backend, visible, shareable, resource_to_share, list_grants, check_grantee, is_for,
  with_grant, save, grant, revoke, find_grant,
}
use text.Mathlib.TextPositions.{eq_refl}

ok_inj {ℓ} : {A : Type ℓ} {a b : A} → ok a ≡ ok b → a ≡ b
ok_inj h = cc

pub lift_option-ok {ℓ} :
    {A : Type ℓ} (o : Option A) (e : Error) {a : A} → lift_option o e ≡ ok a → o ≡ some a
lift_option-ok none e h = cc
lift_option-ok (some a) e h = cc

-- a backend holds resources of its own kind
unfoldable pub holds_kind : Platform → Kind → Bool
holds_kind p kind = all (λ r. same_kind r.kind kind) (stored (resolve p kind))

-- what a caller who may share a resource has found
pub record IsShared (p : Platform) (who : Option Subject) (kind : Kind) (id : String) (r : Resource)
    : Type 0 where
  pub store : Store
  pub no_script : is_script kind ≡ false
  pub is_store : resolve p kind ≡ some store
  pub found : get store id ≡ some r
  pub may_share : can_change_visibility who r ≡ true
  pub writable : r.readonly ≡ false

visible-ok :
    (who : Option Subject) (o : Option Resource) {r : Resource} → visible who o ≡ ok r → o ≡ some r
unfolding visible
visible-ok who none h = cc
visible-ok who (some x) h = elim (Bool-cases (can_see who x)) [
  | inl t ↦ cc (rw t at h)
  | inr f ↦ cc (rw f at h)
]

resource_to_share-IsShared :
    (p : Platform) (who : Option Subject) (kind : Kind) (id : String) {r : Resource}
    → resource_to_share p who kind id ≡ ok r
    → IsShared p who kind id r
unfolding resource_to_share backend shareable
resource_to_share-IsShared p who kind id {r} h = elim (Bool-cases (is_script kind)) [
  | inl t ↦ cc (rw t at h)
  | inr f ↦
      let a = >>=-eq-ok (lift_option (resolve p kind) resource_not_found) _ (rw f at h) in
      let b = >>=-eq-ok (visible who (get a.0 id)) _ a.2 in
      let c = >>=-eq-ok (raise_if (not (can_change_visibility who b.0)) not_owner) _ b.2 in
      let d = >>=-eq-ok (raise_if b.0.readonly grant_invalid) _ c.2 in
      subst (IsShared p who kind id) (ok_inj d.2) record {
        store = a.0;
        no_script = f;
        is_store = lift_option-ok (resolve p kind) resource_not_found a.1;
        found = visible-ok who (get a.0 id) b.1;
        may_share = true_of_not _ (raise_if-ok _ _ c.1);
        writable = raise_if-ok _ _ d.1;
      }
]

share-found :
    (p : Platform) (who : Option Subject) (kind : Kind) (id : String) (r : Resource)
    → IsShared p who kind id r
    → resource_to_share p who kind id ≡ ok r
unfolding resource_to_share backend visible shareable
share-found p who kind id r s =
    let seen : can_see who r ≡ true =
      change_needs_sight who r (rw s.may_share (or_true (can_manage who r || can_edit who r))) in
    rw s.no_script (rw s.is_store (rw s.found (rw seen (rw s.may_share (rw s.writable refl)))))

can_change-grants :
    (who : Option Subject) (r : Resource) (grants : List ResourceGrant)
    → can_change_visibility who (record r { grants = grants }) ≡ can_change_visibility who r
unfolding can_change_visibility can_manage in_team team_of_resource
can_change-grants none r grants = refl
can_change-grants (some s) r grants = refl

-- changed grants leave it to the same callers to share the resource
save-IsShared :
    (p : Platform) (who : Option Subject) (kind : Kind) (id : String) (r : Resource)
    (grants : List ResourceGrant)
    → IsShared p who kind id r
    → IsShared (save p kind r grants) who kind id (record r { grants = grants })
unfolding get
save-IsShared p who kind id r grants s =
    let saved = record r { grants = grants } in
    let named : str_eq r.id id ≡ true = (find?-some (λ x. str_eq x.id id) s.store s.found).1 in
    record {
      store = upsert saved s.store;
      no_script = s.no_script;
      is_store = resolve-with_store p kind (upsert saved) s.store s.is_store;
      found = get-upsert saved s.store id ∙ rw named refl;
      may_share = can_change-grants who r grants ∙ s.may_share;
      writable = s.writable;
    }

-- ─── granting ───

pub record IsGranted (p : Platform) (who : Option Subject) (kind : Kind) (id : String)
    (type : GranteeType) (asked : String) (access : Access) (done : Platform × ResourceGrant)
    : Type 0 where
  pub resource : Resource
  pub shared : IsShared p who kind id resource
  pub named : truthy (strip asked) ≡ true
  pub not_public : is_public resource.visibility ≡ false
  pub name : Option String
  pub checked : check_grantee p who kind resource type (strip asked) access ≡ ok name
  pub for_grantee : is_for type (strip asked) done.1 ≡ true
  pub grantee_type : done.1.grantee_type ≡ type
  pub grantee_id : done.1.grantee_id ≡ strip asked
  pub access_granted : done.1.access ≡ access
  pub saved : done.0 ≡ save p kind resource (with_grant done.1 (grants_of resource))

same_grantee_refl : (type : GranteeType) → same_grantee type type ≡ true
same_grantee_refl user = refl
same_grantee_refl GranteeType.workflow = refl

pub grant-IsGranted :
    (p : Platform) (who : Option Subject) (kind : Kind) (id : String) (type : GranteeType)
    (asked : String) (access : Access) (fresh : String) {done : Platform × ResourceGrant}
    → grant p who kind id type asked access fresh ≡ ok done
    → IsGranted p who kind id type asked access done
unfolding grant
grant-IsGranted p who kind id type asked access fresh {done} h =
    let a = >>=-eq-ok (resource_to_share p who kind id) _ h in
    let r = a.0 in
    let b = >>=-eq-ok (raise_if (not (truthy (strip asked))) grant_invalid) _ a.2 in
    let c = >>=-eq-ok (raise_if (is_public r.visibility) grant_conflict) _ b.2 in
    let d = >>=-eq-ok (check_grantee p who kind r type (strip asked) access) _ c.2 in
    subst (IsGranted p who kind id type asked access) (ok_inj d.2) record {
      resource = r;
      shared = resource_to_share-IsShared p who kind id a.1;
      named = true_of_not _ (raise_if-ok _ _ b.1);
      not_public = raise_if-ok _ _ c.1;
      name = d.0;
      checked = d.1;
      for_grantee = rw (same_grantee_refl type) (eq_refl (strip asked));
      grantee_type = refl;
      grantee_id = refl;
      access_granted = refl;
      saved = refl;
    }

-- ─── the grants of one grantee ───

find-filter_out :
    (p : ResourceGrant → Bool) (g : ResourceGrant) (grants : List ResourceGrant)
    → p g ≡ true
    → find? p (filter (λ x. not (p x)) grants ++ (g ∷ [])) ≡ some g
find-filter_out p g [] h = rw h refl
find-filter_out p g (x ∷ grants) h = elim (Bool-cases (p x)) [
  | inl t ↦ rw t (find-filter_out p g grants h)
  | inr f ↦ rw f (rw f (find-filter_out p g grants h))
]

has_grants_of :
    (kind other : Kind)
    → same_kind kind other ≡ true
    → is_script other ≡ false
    → has_grants kind ≡ true
has_grants_of agent other h f = refl
has_grants_of datasource other h f = refl
has_grants_of workflow other h f = refl
has_grants_of script script h f = cc
has_grants_of script agent h f = cc
has_grants_of script datasource h f = cc
has_grants_of script workflow h f = cc

own_kind :
    (p : Platform) (who : Option Subject) (kind : Kind) (id : String) (r : Resource)
    → holds_kind p kind ≡ true
    → IsShared p who kind id r
    → same_kind r.kind kind ≡ true
unfolding holds_kind get
own_kind p who kind id r held s =
    let kept : all (λ x. same_kind x.kind kind) s.store ≡ true = rw s.is_store at held in
    all-mem (λ x. same_kind x.kind kind) s.store kept
      (find?-some (λ x. str_eq x.id id) s.store s.found).0

-- of a resource that they may share, a caller lists the grants
list_grants-share :
    (p : Platform) (who : Option Subject) (kind : Kind) (id : String) (r : Resource)
    → same_kind r.kind kind ≡ true
    → IsShared p who kind id r
    → list_grants p who kind id ≡ ok r.grants
unfolding list_grants
list_grants-share p who kind id r own s =
    rw (share-found p who kind id r s) (rw (has_grants_of r.kind kind own s.no_script) refl)

find-with_grant :
    (g : ResourceGrant) (type : GranteeType) (grantee_id : String) (grants : List ResourceGrant)
    → g.grantee_type ≡ type
    → g.grantee_id ≡ grantee_id
    → find? (is_for type grantee_id) (with_grant g grants) ≡ some g
find-with_grant g type grantee_id grants e i =
    subst (λ t. find? (is_for t grantee_id) (with_grant g grants) ≡ some g) e
      (subst (λ j. find? (is_for g.grantee_type j) (with_grant g grants) ≡ some g) i
        (find-filter_out (is_for g.grantee_type g.grantee_id) g grants
          (rw (same_grantee_refl g.grantee_type) (eq_refl g.grantee_id))))

-- A grant that is made is found afterwards by the caller who made it, with the grantee and the access that
-- were asked for, in place of any that the grantee had.
pub find_grant-grant :
    (p : Platform) (who : Option Subject) (kind : Kind) (id : String) (type : GranteeType)
    (asked : String) (access : Access) (fresh : String) (done : Platform × ResourceGrant)
    → holds_kind p kind ≡ true
    → grant p who kind id type asked access fresh ≡ ok done
    → (find_grant done.0 who kind id type (strip asked) ≡ ok (some done.1))
      × (done.1.access ≡ access)
unfolding find_grant
find_grant-grant p who kind id type asked access fresh done held h =
    let g = grant-IsGranted p who kind id type asked access fresh h in
    let grants = with_grant done.1 (grants_of g.resource) in
    let e =
      list_grants-share (save p kind g.resource grants) who kind id
        (record g.resource { grants = grants }) (own_kind p who kind id g.resource held g.shared)
        (save-IsShared p who kind id g.resource grants g.shared) in
    (
      rw g.saved (
          rw e (
            rw
              (find-with_grant done.1 type (strip asked) (grants_of g.resource) g.grantee_type
                g.grantee_id)
              refl)),
      g.access_granted,
    )

-- ─── taking it back ───

find-mem :
    (p : ResourceGrant → Bool) (xs : List ResourceGrant) (g : ResourceGrant)
    → p g ≡ true
    → (x : ResourceGrant) × (find? p (xs ++ (g ∷ [])) ≡ some x)
find-mem p [] g h = (g, rw h refl)
find-mem p (x ∷ xs) g h = elim (Bool-cases (p x)) [
  | inl t ↦ (x, rw t refl)
  | inr f ↦ let r = find-mem p xs g h in (r.0, rw f r.1)
]

find-gone :
    (p q : ResourceGrant → Bool) (g : ResourceGrant) (grants : List ResourceGrant)
    → q g ≡ false
    → find? p (filter q (filter (λ x. not (p x)) grants ++ (g ∷ []))) ≡ none
find-gone p q g [] h = rw h refl
find-gone p q g (x ∷ grants) h = elim (Bool-cases (p x)) [
  | inl t ↦ rw t (find-gone p q g grants h)
  | inr f ↦ elim (Bool-cases (q x)) [
    | inl t ↦ rw f (rw t (rw f (find-gone p q g grants h)))
    | inr e ↦ rw f (rw e (find-gone p q g grants h))
  ]
]

find-revoked :
    (g : ResourceGrant) (type : GranteeType) (grantee_id : String) (grants : List ResourceGrant)
    → g.grantee_type ≡ type
    → g.grantee_id ≡ grantee_id
    → find? (is_for type grantee_id) (filter (λ x. not (str_eq x.id g.id)) (with_grant g grants))
      ≡ none
find-revoked g type grantee_id grants e i =
    let kept = filter (λ x. not (str_eq x.id g.id)) (with_grant g grants) in
    subst (λ t. find? (is_for t grantee_id) kept ≡ none) e
      (subst (λ j. find? (is_for g.grantee_type j) kept ≡ none) i
        (find-gone (is_for g.grantee_type g.grantee_id) (λ x. not (str_eq x.id g.id)) g grants
          (rw (eq_refl g.id) refl)))

revoke-share :
    (p : Platform) (who : Option Subject) (kind : Kind) (id : String) (r : Resource)
    (grant_id : String) {gone : ResourceGrant}
    → same_kind r.kind kind ≡ true
    → IsShared p who kind id r
    → find? (λ g. str_eq g.id grant_id) r.grants ≡ some gone
    → revoke p who kind id grant_id
      ≡ ok (save p kind r (filter (λ g. not (str_eq g.id grant_id)) r.grants), gone)
unfolding revoke
revoke-share p who kind id r grant_id own s h =
    rw (share-found p who kind id r s) (rw (has_grants_of r.kind kind own s.no_script) (rw h refl))

none_found :
    (p : Platform) (who : Option Subject) (kind : Kind) (id : String) (type : GranteeType)
    (grantee_id : String) (grants : List ResourceGrant)
    → list_grants p who kind id ≡ ok grants
    → find? (is_for type grantee_id) grants ≡ none
    → find_grant p who kind id type grantee_id ≡ ok none
unfolding find_grant
none_found p who kind id type grantee_id grants e h = rw e (rw h refl)

-- A grant that is made can be taken back at once by the caller who made it, and then the grantee has none,
-- not even the one that it replaced.
pub revoke-grant :
    (p : Platform) (who : Option Subject) (kind : Kind) (id : String) (type : GranteeType)
    (asked : String) (access : Access) (fresh : String) (done : Platform × ResourceGrant)
    → holds_kind p kind ≡ true
    → grant p who kind id type asked access fresh ≡ ok done
    → (gone : Platform × ResourceGrant) × (revoke done.0 who kind id done.1.id ≡ ok gone)
      × (find_grant gone.0 who kind id type (strip asked) ≡ ok none)
revoke-grant p who kind id type asked access fresh done held h =
    let g = grant-IsGranted p who kind id type asked access fresh h in
    let grants = with_grant done.1 (grants_of g.resource) in
    let r = record g.resource { grants = grants } in
    let shared = save-IsShared p who kind id g.resource grants g.shared in
    let own = own_kind p who kind id g.resource held g.shared in
    let left = filter (λ x. not (str_eq x.id done.1.id)) grants in
    let found =
      find-mem (λ x. str_eq x.id done.1.id)
        (filter (λ x. not (is_for done.1.grantee_type done.1.grantee_id x)) (grants_of g.resource))
        done.1 (eq_refl done.1.id) in
    let p1 = save p kind g.resource grants in
    (
      (save p1 kind r left, found.0),
      rw g.saved (revoke-share p1 who kind id r done.1.id own shared found.1),
      none_found (save p1 kind r left) who kind id type (strip asked) left
          (list_grants-share (save p1 kind r left) who kind id (record r { grants = left }) own
            (save-IsShared p1 who kind id r left shared))
          (find-revoked done.1 type (strip asked) (grants_of g.resource) g.grantee_type
            g.grantee_id),
    )
