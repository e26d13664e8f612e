-- ===== src/Approvals/Remaining.antt =====
-- How many cases of a backend can still be claimed, which each case that
-- app/application/approval_service.py closes makes fewer.
use ai_agents_carrier.Base.{
  String, ℕ, suc, ◌≤◌, ◌<◌, true, false, some, List, [], ◌∷◌, ◌≡◌, refl, sym, subst, inl, inr, ◌∙◌,
  ap, length, find?, contains, str_eq, eq_iff, arith, Bool-cases, if◌then◌else◌,
}
use ai_agents_carrier.Approvals.Case.{ApprovalCase}
use ai_agents_carrier.Approvals.Backend.{Backend, put, get}
use ai_agents_carrier.Approvals.Deciding.{close_as}
use ai_agents_carrier.Approvals.Once.{close_as-IsClosing}
use ai_agents_carrier.Approvals.Stays.{get-id}
use ai_agents_carrier.Approvals.Found.{ids}
use text.Mathlib.TextPositions.{eq_refl}

-- the cases left to claim
unfoldable pub free : List String → List String → ℕ
free claimed [] = 0
free claimed (id ∷ rest) =
    let later = free claimed rest in if contains claimed id then later else suc later

pub free-ids :
    (claimed : List String) (cases : List ApprovalCase) → free claimed (ids cases) ≤ length cases
unfolding free
free-ids claimed [] = omega arith
free-ids claimed (case ∷ cases) = ground (arith, free-ids claimed cases)

free_fewer : (id : String) (claimed xs : List String) → free (id ∷ claimed) xs ≤ free claimed xs
unfolding free
free_fewer id claimed [] = omega arith
free_fewer id claimed (x ∷ xs) = ground (arith, free_fewer id claimed xs)

free_claimed :
    (id : String) (claimed xs : List String)
    → contains xs id ≡ true
    → contains claimed id ≡ false
    → free (id ∷ claimed) xs < free claimed xs
unfolding free
free_claimed id claimed [] h f = cc
free_claimed id claimed (x ∷ xs) h f = elim (Bool-cases (str_eq x id)) [
  | inl t ↦
      let e : x ≡ id = (eq_iff x id).0 t in
      rw e (rw (eq_refl id) (rw f (omega (arith, free_fewer id claimed xs))))
  | inr g ↦ ground (arith, free_claimed id claimed xs (rw g at h) f)
]

pub ids-put :
    (case : ApprovalCase) (cases : List ApprovalCase) {old : ApprovalCase}
    → find? (λ c. str_eq c.id case.id) cases ≡ some old
    → (ids (put case cases) ≡ ids cases) × (contains (ids cases) case.id ≡ true)
unfolding put
ids-put case [] h = cc
ids-put case (c ∷ cases) {old} h = elim (Bool-cases (str_eq c.id case.id)) [
  | inl t ↦ (rw t (ap (λ i. i ∷ ids cases) (sym ((eq_iff c.id case.id).0 t))), rw t refl)
  | inr f ↦
      let r = ids-put case cases {old = old} (rw f at h) in
      (rw f (ap (λ rest. c.id ∷ rest) r.0), rw f r.1)
]

-- how many cases of a backend can still be claimed
unfoldable pub left : Backend → ℕ
left backend = free backend.claimed (ids backend.cases)

pub close_as-left :
    (write : ApprovalCase → ApprovalCase) (id : String) (backend : Backend)
    {done : ApprovalCase × Backend}
    → ((c : ApprovalCase) → (write c).id ≡ c.id)
    → close_as write id backend ≡ some done
    → left done.1 < left backend
unfolding left get
close_as-left write id backend {done} same h =
    let closing = close_as-IsClosing write id backend h in
    let named : (write closing.case).id ≡ id =
      same closing.case ∙ get-id id backend closing.found in
    let p =
      ids-put (write closing.case) backend.cases
        (subst (λ i. get i backend ≡ some closing.case) (sym named) closing.found) in
    rw closing.cases (
      rw closing.claimed (
        rw p.0 (
          free_claimed id backend.claimed (ids backend.cases)
            (subst (λ i. contains (ids backend.cases) i ≡ true) named p.1) closing.unclaimed)))
