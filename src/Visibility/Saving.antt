-- ===== src/Visibility/Saving.antt =====
-- What a save through `VisibilityScopedBackend` keeps of the stored resource, and what it demands.
use ai_agents_carrier.Base.{
  String, ◌≡◌, refl, sym, ◌∙◌, subst, ◌⊎◌, inl, inr, Bool, true, false, not, ◌&&◌, Option, none,
  some, [], ◌∷◌, arith, str_eq, eq_iff, opt_eq, Bool-cases, if◌then◌else◌,
}
use ai_agents_carrier.Auth.Principal.{Subject}
use ai_agents_carrier.Visibility.Model.{
  Kind, agent, datasource, script, workflow, Resource, ok, err, ◌>>=◌, >>=-eq-ok, raise_if,
  raise_if-ok, resource_not_found, not_owner, id_taken, same_visibility,
}
use ai_agents_carrier.Visibility.Predicates.{
  team_of_resource, grants_of, can_see, can_edit, can_change_visibility,
}
use ai_agents_carrier.Visibility.Guard.{Store, Platform, resolve, get, stored}
use ai_agents_carrier.Visibility.Scoped.{
  upsert, with_store, get_visible, stamp, team_for, may_rescope, check_save, finish_save, prepare,
  check_editable, creatable, create, updatable, only_scope_changed, update, delete,
}

-- ─── the store ───

pub get-upsert :
    (r : Resource) (store : Store) (id : String)
    → get (upsert r store) id ≡ (if str_eq r.id id then some r else get store id)
unfolding get upsert
get-upsert r [] id = refl
get-upsert r (x ∷ store) id =
    ground (arith, get-upsert r store id, eq_iff x.id r.id, eq_iff x.id id, eq_iff r.id id)

pub resolve-with_store :
    (p : Platform) (kind : Kind) (f : Store → Store) (store : Store)
    → resolve p kind ≡ some store
    → resolve (with_store p kind f) kind ≡ some (f store)
resolve-with_store p agent f store h = ground arith
resolve-with_store p datasource f store h = ground arith
resolve-with_store p script f store h = ground arith
resolve-with_store p workflow f store h = ground arith

-- ─── one save ───

ok_inj {ℓ} : {A : Type ℓ} {a b : A} → ok a ≡ ok b → a ≡ b
ok_inj h = cc

not-false : (b : Bool) → not b ≡ false → b ≡ true
not-false b h = ground arith

-- What a preparation that succeeds has found.
pub record IsPrepared (p : Platform) (who : Option Subject) (kind : Kind) (r : Resource)
    (existing : Option Resource) (saved : Resource) : Type 0 where
  pub chosen : Option String
  pub chosen_ok : team_for p who (stamp who r existing) existing ≡ ok chosen
  pub saved_eq : saved ≡ record (stamp who r existing) { team_id = chosen }
  pub may : may_rescope who saved existing ≡ true
  pub checked : check_save p who kind saved existing ≡ ok tt

finish_save-IsPrepared :
    (p : Platform) (who : Option Subject) (kind : Kind) (r : Resource) (existing : Option Resource)
    (saved : Resource) (t : Option String)
    → team_for p who (stamp who r existing) existing ≡ ok t
    → finish_save p who kind existing (record (stamp who r existing) { team_id = t }) ≡ ok saved
    → IsPrepared p who kind r existing saved
unfolding finish_save
finish_save-IsPrepared p who kind r existing saved t found h =
    let made : Resource = record (stamp who r existing) { team_id = t } in
    let (a, e₁, h₁) =
      >>=-eq-ok (raise_if (not (may_rescope who made existing)) not_owner)
        (λ a. check_save p who kind made existing >>= λ b. ok made) h in
    let (b, e₂, h₂) = >>=-eq-ok (check_save p who kind made existing) (λ b. ok made) h₁ in
    let same : made ≡ saved = ok_inj h₂ in
    let may : may_rescope who made existing ≡ true =
      not-false (may_rescope who made existing)
        (raise_if-ok (not (may_rescope who made existing)) not_owner e₁) in
    subst (IsPrepared p who kind r existing) same
      (record { chosen = t; chosen_ok = found; saved_eq = refl; may = may; checked = e₂ })

prepare-IsPrepared :
    (p : Platform) (who : Option Subject) (kind : Kind) (r : Resource) (existing : Option Resource)
    (saved : Resource)
    → prepare p who kind r existing ≡ ok saved
    → IsPrepared p who kind r existing saved
unfolding prepare
prepare-IsPrepared p who kind r existing saved h =
    let stamped = stamp who r existing in
    let (t, found, rest) =
      >>=-eq-ok (team_for p who stamped existing)
        (λ t. finish_save p who kind existing (record stamped { team_id = t })) h in
    finish_save-IsPrepared p who kind r existing saved t found rest

-- What an update that succeeds has found and written.
pub record IsUpdated (p : Platform) (who : Option Subject) (kind : Kind) (id : String)
    (r : Resource) (p' : Platform) : Type 0 where
  pub saved : Resource
  pub allowed : updatable who r (get (stored (resolve p kind)) id) ≡ ok tt
  pub prepared : IsPrepared p who kind r (get (stored (resolve p kind)) id) saved
  pub written : p' ≡ with_store p kind (upsert (record saved { id = id }))

update-IsUpdated :
    (p : Platform) (who : Option Subject) (kind : Kind) (id : String) (r : Resource) (p' : Platform)
    → update p who kind id r ≡ ok p'
    → IsUpdated p who kind id r p'
unfolding update
update-IsUpdated p who kind id r p' h =
    let existing = get (stored (resolve p kind)) id in
    let write = λ (saved : Resource). ok (with_store p kind (upsert (record saved { id = id }))) in
    let (a, e₁, h₁) =
      >>=-eq-ok (updatable who r existing) (λ a. prepare p who kind r existing >>= write) h in
    let (saved, e₂, h₂) = >>=-eq-ok (prepare p who kind r existing) write h₁ in
    record {
      saved = saved;
      allowed = e₁;
      prepared = prepare-IsPrepared p who kind r existing saved e₂;
      written = sym (ok_inj h₂);
    }

-- the same of a creation
pub record IsCreated (p : Platform) (who : Option Subject) (kind : Kind) (r : Resource)
    (p' : Platform) : Type 0 where
  pub saved : Resource
  pub allowed : creatable who (get (stored (resolve p kind)) r.id) ≡ ok tt
  pub prepared : IsPrepared p who kind r (get (stored (resolve p kind)) r.id) saved
  pub written : p' ≡ with_store p kind (upsert saved)

create-IsCreated :
    (p : Platform) (who : Option Subject) (kind : Kind) (r : Resource) (p' : Platform)
    → create p who kind r ≡ ok p'
    → IsCreated p who kind r p'
unfolding create
create-IsCreated p who kind r p' h =
    let existing = get (stored (resolve p kind)) r.id in
    let write = λ (saved : Resource). ok (with_store p kind (upsert saved)) in
    let (a, e₁, h₁) =
      >>=-eq-ok (creatable who existing) (λ a. prepare p who kind r existing >>= write) h in
    let (saved, e₂, h₂) = >>=-eq-ok (prepare p who kind r existing) write h₁ in
    record {
      saved = saved;
      allowed = e₁;
      prepared = prepare-IsPrepared p who kind r existing saved e₂;
      written = sym (ok_inj h₂);
    }

-- What a save over a stored resource leaves as it was: the grants, and the owner where there is one.
pub record KeepsOwnership (existing saved : Resource) : Type 0 where
  pub grants : saved.kind ≡ existing.kind → grants_of saved ≡ grants_of existing
  pub owner : (o : String) → existing.owner_id ≡ some o → saved.owner_id ≡ some o

stamp-KeepsOwnership :
    (who : Option Subject) (r existing : Resource)
    → KeepsOwnership existing (stamp who r (some existing))
unfolding stamp
stamp-KeepsOwnership who r existing = record {
  grants = λ h. ground arith;
  owner = λ o h. ground arith;
}

-- What an update that succeeds does to the stored resource `existing`, which becomes `saved`.
pub record IsRightful (who : Option Subject) (r existing saved : Resource) : Type 0 where
  -- the caller saw it, and may edit it or only re-scopes it
  pub seen : can_see who existing ≡ true
  pub rights :
      (can_edit who existing ≡ true)
      ⊎ ((can_change_visibility who existing ≡ true) × (only_scope_changed existing r ≡ true))
  pub keeps : KeepsOwnership existing saved
  -- who can see it changes only by the hand of those who may change that
  pub scope :
      ((same_visibility saved.visibility existing.visibility
          && opt_eq saved.team_id (team_of_resource existing))
        ≡ true)
      ⊎ (can_change_visibility who existing ≡ true)

may_rescope-scope :
    (who : Option Subject) (saved existing : Resource)
    → may_rescope who saved (some existing) ≡ true
    → ((same_visibility saved.visibility existing.visibility
          && opt_eq saved.team_id (team_of_resource existing))
        ≡ true)
      ⊎ (can_change_visibility who existing ≡ true)
may_rescope-scope who saved existing may = elim (Bool-cases (can_change_visibility who existing)) [
  | inl t ↦ inr t
  | inr f ↦ inl (ground arith)
]

editable-rights :
    (who : Option Subject) (r existing : Resource)
    → check_editable who existing ≡ ok tt
    → (can_see who existing ≡ true) × (can_edit who existing ≡ true)
unfolding check_editable
editable-rights who r existing h = ground arith

updatable-rights :
    (who : Option Subject) (r existing : Resource)
    → updatable who r (some existing) ≡ ok tt
    → (can_see who existing ≡ true)
      × ((can_edit who existing ≡ true)
          ⊎ ((can_change_visibility who existing ≡ true) × (only_scope_changed existing r ≡ true)))
updatable-rights who r existing h =
    elim (Bool-cases (
      can_see who existing
      && not (can_edit who existing)
      && can_change_visibility who existing
      && only_scope_changed existing r)) [
        | inl t ↦ ground arith
        | inr f ↦
            let (seen, edits) = editable-rights who r existing (rw f at h) in (seen, inl edits)
      ]

prepared-IsRightful :
    (p : Platform) (who : Option Subject) (kind : Kind) (r existing saved : Resource)
    → updatable who r (some existing) ≡ ok tt
    → IsPrepared p who kind r (some existing) saved
    → IsRightful who r existing saved
prepared-IsRightful p who kind r existing saved allowed done =
    let (seen, rights) = updatable-rights who r existing allowed in
    let stamped = stamp-KeepsOwnership who r existing in
    record {
      seen = seen;
      rights = rights;
      keeps =
          subst (KeepsOwnership existing) (sym done.saved_eq)
            (record { grants = stamped.grants; owner = stamped.owner });
      scope = may_rescope-scope who saved existing done.may;
    }

-- An update that succeeds over a stored resource is made by a caller who sees it, and who may edit it
-- or only changes its scope and may do that; it keeps the grants and the owner; a change of visibility
-- or of team is made by one who may change who sees it; and no other resource of the store changes.
pub update-IsRightful :
    (p : Platform) (who : Option Subject) (kind : Kind) (id : String) (r : Resource) (p' : Platform)
    (store : Store) (existing : Resource)
    → resolve p kind ≡ some store
    → get store id ≡ some existing
    → update p who kind id r ≡ ok p'
    → (saved : Resource) × (get (stored (resolve p' kind)) id ≡ some saved)
      × IsRightful who r existing saved
      × ((other : String)
          → get (stored (resolve p' kind)) other
            ≡ (if str_eq id other then some saved else get store other))
update-IsRightful p who kind id r p' store existing has found h =
    let done = update-IsUpdated p who kind id r p' h in
    let at_id : get (stored (resolve p kind)) id ≡ some existing = rw has found in
    let final : Resource = record done.saved { id = id } in
    let now : resolve p' kind ≡ some (upsert final store) =
      rw done.written (resolve-with_store p kind (upsert final) store has) in
    let rightful =
      prepared-IsRightful p who kind r existing done.saved (rw at_id at done.allowed)
        (rw at_id at done.prepared) in
    (
      final,
      rw now (get-upsert final store id ∙ ground (arith, eq_iff id id)),
      record {
        seen = rightful.seen;
        rights = rightful.rights;
        keeps = record { grants = rightful.keeps.grants; owner = rightful.keeps.owner };
        scope = rightful.scope;
      },
      λ other. rw now (get-upsert final store other),
    )

-- To a caller who cannot see a stored resource it does not exist: a read finds nothing, an update and a
-- deletion say that it was not found, and a creation under its id is refused without replacing it.
pub hidden-refused :
    (p : Platform) (who : Option Subject) (kind : Kind) (r existing : Resource) (store : Store)
    → resolve p kind ≡ some store
    → get store r.id ≡ some existing
    → can_see who existing ≡ false
    → (get_visible who store r.id ≡ none)
      × (update p who kind r.id r ≡ err resource_not_found)
      × (delete p who kind r.id ≡ err resource_not_found)
      × (create p who kind r ≡ err id_taken)
unfolding get_visible update delete create check_editable
hidden-refused p who kind r existing store has found hidden =
    let at_id : get (stored (resolve p kind)) r.id ≡ some existing = rw has found in
    (ground arith, rw at_id (rw hidden), rw at_id (rw hidden), rw at_id (rw hidden))
