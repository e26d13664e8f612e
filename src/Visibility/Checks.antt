-- ===== src/Visibility/Checks.antt =====
-- What it means that the checks of `ReferenceGuard` pass.
use ai_agents_carrier.Base.{
  String, ◌≡◌, refl, true, false, Option, none, some, List, [], ◌∷◌, Memᴰ, arith, eq_iff, any,
  any_of_mem,
}
use ai_agents_carrier.Auth.Principal.{Subject}
use ai_agents_carrier.Visibility.Model.{
  Kind, agent, datasource, script, workflow, Resource, Violation, ok, ◌>>=◌, >>=-eq-ok, raise_if,
  raise_if-ok, Error, reference_not_found, reference_violates, still_referenced, malformed,
  lift_option,
}
use ai_agents_carrier.Visibility.References.{Reference, same_reference, references}
use ai_agents_carrier.Visibility.Guard.{
  Platform, resolve, get, stored, violation, refuse, out_of_sight, check_calls, check_target,
  check_reference, check_each, kept_references, check_references, blocks, blocks_any,
}

-- the stored resource of a kind and an id
unfoldable pub lookup : Platform → Kind → String → Option Resource
lookup p kind id = get (stored (resolve p kind)) id

pub same_reference_refl : (kind : Kind) (id : String) → same_reference (kind, id) (kind, id) ≡ true
same_reference_refl agent id = ground (arith, eq_iff id id)
same_reference_refl datasource id = ground (arith, eq_iff id id)
same_reference_refl script id = ground (arith, eq_iff id id)
same_reference_refl workflow id = ground (arith, eq_iff id id)

lift_option-ok {ℓ} :
    {A : Type ℓ} (o : Option A) {a : A} → lift_option o malformed ≡ ok a → o ≡ some a
lift_option-ok none h = cc
lift_option-ok (some b) h = cc

refuse-none :
    (o : Option Violation) (e : Violation → Error) {t : Unit {0}} → refuse o e ≡ ok t → o ≡ none
refuse-none none e h = refl
refuse-none (some v) e h = cc

module _ (p : Platform) (who : Option Subject) (kind : Kind) (r : Resource)
    (kept : List Reference) where
  check_target-violation :
      (ref : Reference) (target : Resource)
      → check_target p who kind r kept ref target ≡ ok tt
      → (violation p r kind target ≡ none) × (out_of_sight who kind r kept ref target ≡ false)
  unfolding check_target
  check_target-violation ref target h =
      let rest = refuse (violation p r kind target) reference_violates in
      let calls = check_calls p kind r ref target in
      let (a, e₁, h₁) =
        >>=-eq-ok
          (raise_if (out_of_sight who kind r kept ref target) (reference_not_found ref.0 ref.1))
          (λ a. rest >>= λ b. calls) h in
      let (b, e₂, h₂) = >>=-eq-ok rest (λ b. calls) h₁ in
      (
        refuse-none _ reference_violates e₂,
        raise_if-ok (out_of_sight who kind r kept ref target) (reference_not_found ref.0 ref.1) e₁,
      )

  check_each-mem :
      (refs : List Reference) {ref : Reference}
      → check_each p who kind r kept refs ≡ ok tt
      → Memᴰ ref refs
      → check_reference p who kind r kept ref ≡ ok tt
  unfolding check_each
  check_each-mem [] h m = elim m [ ]
  check_each-mem (x ∷ refs) {ref} h (Memᴰ.head e) =
      let later = check_each p who kind r kept refs in
      let (a, e₁, h₁) = >>=-eq-ok (check_reference p who kind r kept x) (λ a. later) h in rw e e₁
  check_each-mem (x ∷ refs) h (Memᴰ.tail m) =
      let later = check_each p who kind r kept refs in
      let (a, e₁, h₁) = >>=-eq-ok (check_reference p who kind r kept x) (λ a. later) h in
      check_each-mem refs h₁ m

  check_reference-target :
      (ref : Reference) (target : Resource)
      → check_reference p who kind r kept ref ≡ ok tt
      → same_reference ref (kind, r.id) ≡ false
      → lookup p ref.0 ref.1 ≡ some target
      → check_target p who kind r kept ref target ≡ ok tt
  unfolding check_reference lookup
  check_reference-target ref target h other found = rw found at (rw other at h)

-- References that pass the check: every resource that one of them finds, other than the referrer
-- itself, may be used by the referrer, by scope or by a grant; and the caller sees it, or a grant opens
-- it to the referrer, or the stored version used it already.
pub check_references_sound :
    (p : Platform) (who : Option Subject) (kind : Kind) (r : Resource) (existing : Option Resource)
    (refs kept : List Reference) (ref : Reference) (target : Resource)
    → check_references p who kind r existing ≡ ok tt
    → references r ≡ some refs
    → kept_references existing ≡ some kept
    → Memᴰ ref refs
    → same_reference ref (kind, r.id) ≡ false
    → lookup p ref.0 ref.1 ≡ some target
    → (violation p r kind target ≡ none) × (out_of_sight who kind r kept ref target ≡ false)
unfolding check_references
check_references_sound p who kind r existing refs kept ref target h e k m other found =
    let all : check_each p who kind r kept refs ≡ ok tt = rw (k, e) at h in
    check_target-violation p who kind r kept ref target (
      check_reference-target p who kind r kept ref target
        (check_each-mem p who kind r kept refs all m) other found)

-- the references of a stored version that a passing check has read
pub check_references-kept :
    (p : Platform) (who : Option Subject) (kind : Kind) (r : Resource) (existing : Option Resource)
    → check_references p who kind r existing ≡ ok tt
    → (kept : List Reference) × (kept_references existing ≡ some kept)
unfolding check_references
check_references-kept p who kind r existing h =
    let (kept, e, rest) =
      >>=-eq-ok (lift_option (kept_references existing) malformed)
        (λ kept. lift_option (references r) malformed >>= λ refs. check_each p who kind r kept refs)
        h in
    (kept, lift_option-ok (kept_references existing) e)

module _ (p : Platform) (kind : Kind) (r : Resource) (referrer_kind : Kind) where
  pub blocks-violation :
      (referrer : Resource) (refs : List Reference)
      → blocks p kind r referrer_kind referrer ≡ ok tt
      → same_reference (kind, r.id) (referrer_kind, referrer.id) ≡ false
      → references referrer ≡ some refs
      → Memᴰ (kind, r.id) refs
      → violation p referrer referrer_kind r ≡ none
  unfolding blocks
  blocks-violation referrer refs h other e m =
      let named : any (same_reference (kind, r.id)) refs ≡ true =
        any_of_mem (same_reference (kind, r.id)) refs m (same_reference_refl kind r.id) in
      refuse-none _ (λ problem. still_referenced) (rw named at (rw e at (rw other at h)))

  pub blocks_any-mem :
      (referrers : List Resource) {referrer : Resource}
      → blocks_any p kind r referrer_kind referrers ≡ ok tt
      → Memᴰ referrer referrers
      → blocks p kind r referrer_kind referrer ≡ ok tt
  unfolding blocks_any
  blocks_any-mem [] h m = elim m [ ]
  blocks_any-mem (x ∷ referrers) h (Memᴰ.head e) =
      let later = blocks_any p kind r referrer_kind referrers in
      let (a, e₁, h₁) = >>=-eq-ok (blocks p kind r referrer_kind x) (λ a. later) h in rw e e₁
  blocks_any-mem (x ∷ referrers) h (Memᴰ.tail m) =
      let later = blocks_any p kind r referrer_kind referrers in
      let (a, e₁, h₁) = >>=-eq-ok (blocks p kind r referrer_kind x) (λ a. later) h in
      blocks_any-mem referrers h₁ m
