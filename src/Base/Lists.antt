-- ===== src/Base/Lists.antt =====
-- Lists measured by native numbers and tested by Boolean functions, under the library's names.
use Prim.Native.Nat.{ℕ, suc, ◌+◌, ◌≤◌}
use mathlib.Core.Path.{◌≡◌, refl, sym, subst}
use mathlib.Core.Bool.{Bool, true, false, ◌&&◌, ◌||◌}
use mathlib.Core.Logic.{inl, inr}
use mathlib.Core.Option.{Option, none, some}
use mathlib.Core.List.{List, [], ◌∷◌, ◌++◌, Memᴰ}
use native.Mathlib.Omega.{arith}
use ai_agents_carrier.Base.Tests.{if◌then◌else◌, Bool-cases, and_parts}

module _ {ℓ} {A : Type ℓ} where
  abbrev pub length : List A → ℕ
  length [] = 0
  length (x ∷ xs) = suc (length xs)

  abbrev pub any : (A → Bool) → List A → Bool
  any p [] = false
  any p (x ∷ xs) = p x || any p xs

  abbrev pub all : (A → Bool) → List A → Bool
  all p [] = true
  all p (x ∷ xs) = p x && all p xs

  abbrev pub filter : (A → Bool) → List A → List A
  filter p [] = []
  filter p (x ∷ xs) = let rest = filter p xs in if p x then x ∷ rest else rest

  abbrev pub count : (A → Bool) → List A → ℕ
  count p [] = 0
  count p (x ∷ xs) = let rest = count p xs in if p x then suc rest else rest

  -- the first element that passes, as Python's `next((x for x in xs if p(x)), None)`
  abbrev pub find? : (A → Bool) → List A → Option A
  find? p [] = none
  find? p (x ∷ xs) = let rest = find? p xs in if p x then some x else rest

  abbrev pub last? : List A → Option A
  last? [] = none
  last? (x ∷ []) = some x
  last? (x ∷ y ∷ xs) = last? (y ∷ xs)

  abbrev pub is_empty : List A → Bool
  is_empty [] = true
  is_empty (x ∷ xs) = false

abbrev pub All {ℓ κ} : {A : Type ℓ} → (A → Type κ) → List A → Type κ
All P [] = Unit
All P (x ∷ xs) = P x × All P xs

module _ {ℓ} {A : Type ℓ} where
  pub eq_of_some : {a b : A} → some a ≡ some b → a ≡ b
  eq_of_some h = cc

  pub All-mem {κ} : (P : A → Type κ) (xs : List A) {a : A} → All P xs → Memᴰ a xs → P a
  All-mem P [] h m = elim m [ ]
  All-mem P (x ∷ xs) h (Memᴰ.head e) = subst P (sym e) h.0
  All-mem P (x ∷ xs) h (Memᴰ.tail m) = All-mem P xs h.1 m

  pub mem-filter_to :
      (p : A → Bool) (xs : List A) {a : A} → Memᴰ a xs → p a ≡ true → Memᴰ a (filter p xs)
  mem-filter_to p [] m h = elim m [ ]
  mem-filter_to p (x ∷ xs) (Memᴰ.head e) h =
      let t : p x ≡ true = subst (λ y. p y ≡ true) e h in rw t (Memᴰ.head e)
  mem-filter_to p (x ∷ xs) (Memᴰ.tail m) h = elim (Bool-cases (p x)) [
    | inl t ↦ rw t (Memᴰ.tail (mem-filter_to p xs m h))
    | inr f ↦ rw f (mem-filter_to p xs m h)
  ]

  mem-filter_kept :
      (p : A → Bool) (x : A) (xs : List A) {a : A}
      → p x ≡ true
      → (Memᴰ a (filter p xs) → Memᴰ a xs × (p a ≡ true))
      → Memᴰ a (x ∷ filter p xs)
      → Memᴰ a (x ∷ xs) × (p a ≡ true)
  mem-filter_kept p x xs t later (Memᴰ.head e) = (Memᴰ.head e, subst (λ y. p y ≡ true) (sym e) t)
  mem-filter_kept p x xs t later (Memᴰ.tail n) = let r = later n in (Memᴰ.tail r.0, r.1)

  pub mem-filter_from :
      (p : A → Bool) (xs : List A) {a : A} → Memᴰ a (filter p xs) → Memᴰ a xs × (p a ≡ true)
  mem-filter_from p [] m = elim m [ ]
  mem-filter_from p (x ∷ xs) {a} m = elim (Bool-cases (p x)) [
    | inl t ↦ mem-filter_kept p x xs t (mem-filter_from p xs {a = a}) (rw t at m)
    | inr f ↦ let r = mem-filter_from p xs {a = a} (rw f at m) in (Memᴰ.tail r.0, r.1)
  ]

  pub any-mem : (p : A → Bool) (xs : List A) → any p xs ≡ true → (a : A) × Memᴰ a xs × (p a ≡ true)
  any-mem p [] h = cc
  any-mem p (x ∷ xs) h = elim (Bool-cases (p x)) [
    | inl t ↦ (x, Memᴰ.head refl, t)
    | inr f ↦ let r = any-mem p xs (rw f at h) in (r.0, Memᴰ.tail r.1, r.2)
  ]

  pub any_of_mem : (p : A → Bool) (xs : List A) {a : A} → Memᴰ a xs → p a ≡ true → any p xs ≡ true
  any_of_mem p [] m h = elim m [ ]
  any_of_mem p (x ∷ xs) (Memᴰ.head e) h = rw (subst (λ y. p y ≡ true) e h)
  any_of_mem p (x ∷ xs) (Memᴰ.tail m) h = ground (arith, any_of_mem p xs m h)

  pub find?-some :
      (p : A → Bool) (xs : List A) {a : A} → find? p xs ≡ some a → Memᴰ a xs × (p a ≡ true)
  find?-some p [] h = cc
  find?-some p (x ∷ xs) {a} h = elim (Bool-cases (p x)) [
    | inl t ↦
        let e : a ≡ x = sym (eq_of_some (rw t at h)) in
        (Memᴰ.head e, subst (λ y. p y ≡ true) (sym e) t)
    | inr f ↦ let r = find?-some p xs {a = a} (rw f at h) in (Memᴰ.tail r.0, r.1)
  ]

  pub length-filter : (p : A → Bool) (xs : List A) → length (filter p xs) ≤ length xs
  length-filter p [] = omega arith
  length-filter p (x ∷ xs) = ground (arith, length-filter p xs)

  pub length-append : (xs ys : List A) → length (xs ++ ys) ≡ length xs + length ys
  length-append [] ys = omega arith
  length-append (x ∷ xs) ys = omega (arith, length-append xs ys)

  pub any-append : (p : A → Bool) (xs ys : List A) → any p (xs ++ ys) ≡ (any p xs || any p ys)
  any-append p [] ys = refl
  any-append p (x ∷ xs) ys = ground (arith, any-append p xs ys)

  pub all-append : (p : A → Bool) (xs ys : List A) → all p (xs ++ ys) ≡ (all p xs && all p ys)
  all-append p [] ys = refl
  all-append p (x ∷ xs) ys = ground (arith, all-append p xs ys)

  pub all-mem : (p : A → Bool) (xs : List A) {a : A} → all p xs ≡ true → Memᴰ a xs → p a ≡ true
  all-mem p [] h m = elim m [ ]
  all-mem p (x ∷ xs) h (Memᴰ.head e) = subst (λ y. p y ≡ true) (sym e) (and_parts (p x) h).0
  all-mem p (x ∷ xs) h (Memᴰ.tail m) = all-mem p xs (and_parts (p x) h).1 m
