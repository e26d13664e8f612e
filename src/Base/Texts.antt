-- ===== src/Base/Texts.antt =====
-- Texts and optional texts, as the program compares them, and the methods of Python's `str` that it
-- uses. White space is what `str.isspace` accepts.
use Prim.Native.Char.{Char, code}
use Prim.Native.String
use Prim.Native.String.{String}
use mathlib.Core.Path.{◌≡◌, refl, sym}
use mathlib.Core.Logic.{inl, inr}
use mathlib.Core.Bool.{Bool, true, false, not, ◌&&◌, ◌||◌}
use mathlib.Core.Option.{Option, none, some}
use mathlib.Core.List.{List, [], ◌∷◌, Memᴰ}
use native.Mathlib.Omega.{arith}
use text.Mathlib.Text.{◌==◌ as str_eq_text}
use text.Mathlib.TextEquality.{eq_iff}
use text.Mathlib.TextPositions.{eq_refl}
use ai_agents_carrier.Base.Tests.{leb, ◌==◌, if◌then◌else◌, Bool-cases}

abbrev pub str_eq : String → String → Bool
str_eq a b = str_eq_text a b

-- `a == b` where either may be `None`
abbrev pub opt_eq : Option String → Option String → Bool
opt_eq none none = true
opt_eq (some a) (some b) = str_eq a b
opt_eq _ _ = false

-- the truth value of a text, and of an optional one: `None` and `""` are false
abbrev pub truthy : String → Bool
truthy String.[] = false
truthy (String.◌∷◌ c s) = true

abbrev pub is_set : Option String → Bool
is_set none = false
is_set (some a) = truthy a

-- `a or b` on optional texts
abbrev pub or_else : Option String → Option String → Option String
or_else a b = if is_set a then a else b

-- `a in xs`
abbrev pub contains : List String → String → Bool
contains [] a = false
contains (x ∷ xs) a = str_eq x a || contains xs a

-- no element stands twice
abbrev pub are_distinct : List String → Bool
are_distinct [] = true
are_distinct (x ∷ xs) = not (contains xs x) && are_distinct xs

-- `a & b` read as a truth value: the sets share an element
abbrev pub meets : List String → List String → Bool
meets [] ys = false
meets (x ∷ xs) ys = contains ys x || meets xs ys

unfoldable pub is_space : Char → Bool
is_space ch =
    let c = code ch in
    leb 9 c && leb c 13
    || leb 28 c && leb c 32
    || c == 133
    || c == 160
    || c == 5760
    || leb 8192 c && leb c 8202
    || c == 8232
    || c == 8233
    || c == 8239
    || c == 8287
    || c == 12288

unfoldable pub lstrip : String → String
lstrip String.[] = String.[]
lstrip (String.◌∷◌ c s) = let rest = lstrip s in if is_space c then rest else String.◌∷◌ c s

-- `c ∷ s`, or nothing where that would be white space alone
abbrev keep_last : Char → String → String
keep_last c String.[] = if is_space c then String.[] else String.◌∷◌ c String.[]
keep_last c (String.◌∷◌ d s) = String.◌∷◌ c (String.◌∷◌ d s)

unfoldable pub rstrip : String → String
rstrip String.[] = String.[]
rstrip (String.◌∷◌ c s) = keep_last c (rstrip s)

unfoldable pub strip : String → String
unfolding lstrip rstrip
strip s = lstrip (rstrip s)

-- `s.split()`: the runs of characters that are no white space; `word` is the run being read
split_from : String → String → List String
split_from word String.[] = if truthy word then word ∷ [] else []
split_from word (String.◌∷◌ c s) =
    let next = split_from String.[] s in
    let longer = split_from (String.◌++◌ word (String.◌∷◌ c String.[])) s in
    if is_space c then (if truthy word then word ∷ next else next) else longer

unfoldable pub split : String → List String
unfolding split_from is_space
split s = split_from String.[] s

unfoldable pub ends_with : String → String → Bool
ends_with String.[] t = str_eq String.[] t
ends_with (String.◌∷◌ c s) t = str_eq (String.◌∷◌ c s) t || ends_with s t

keep_last-rstrip : (c : Char) (s : String) → rstrip s ≡ s → rstrip (keep_last c s) ≡ keep_last c s
unfolding rstrip
keep_last-rstrip c String.[] h = elim (Bool-cases (is_space c)) [
  | inl t ↦ rw t
  | inr f ↦ rw f (rw f)
]
keep_last-rstrip c (String.◌∷◌ d s) h = rw h

rstrip_idem : (s : String) → rstrip (rstrip s) ≡ rstrip s
unfolding rstrip
rstrip_idem String.[] = refl
rstrip_idem (String.◌∷◌ c s) = keep_last-rstrip c (rstrip s) (rstrip_idem s)

keep_last-inj : (c : Char) (r s : String) → keep_last c r ≡ String.◌∷◌ c s → r ≡ s
keep_last-inj c String.[] s h = elim (Bool-cases (is_space c)) [
  | inl t ↦ cc (rw t at h)
  | inr f ↦ cc (rw f at h)
]
keep_last-inj c (String.◌∷◌ d r) s h = cc

rstrip-lstrip : (s : String) → rstrip s ≡ s → rstrip (lstrip s) ≡ lstrip s
unfolding rstrip lstrip
rstrip-lstrip String.[] h = refl
rstrip-lstrip (String.◌∷◌ c s) h = elim (Bool-cases (is_space c)) [
  | inl t ↦ rw t (rstrip-lstrip s (keep_last-inj c (rstrip s) s h))
  | inr f ↦ rw f h
]

lstrip_idem : (s : String) → lstrip (lstrip s) ≡ lstrip s
unfolding lstrip
lstrip_idem String.[] = refl
lstrip_idem (String.◌∷◌ c s) = elim (Bool-cases (is_space c)) [
  | inl t ↦ rw t (lstrip_idem s)
  | inr f ↦ rw f (rw f)
]

pub strip_idem : (s : String) → strip (strip s) ≡ strip s
unfolding strip
strip_idem s = rw (rstrip-lstrip (rstrip s) (rstrip_idem s)) (lstrip_idem (rstrip s))

pub opt_eq_refl : (a : Option String) → opt_eq a a ≡ true
opt_eq_refl none = refl
opt_eq_refl (some a) = eq_refl a

pub eq_of_opt_eq : (a b : Option String) → opt_eq a b ≡ true → a ≡ b
eq_of_opt_eq none none h = refl
eq_of_opt_eq none (some b) h = cc
eq_of_opt_eq (some a) none h = cc
eq_of_opt_eq (some a) (some b) h = ground (arith, eq_iff a b)

-- an element of a list, as a member
pub contains_of_mem : (xs : List String) {a : String} → Memᴰ a xs → contains xs a ≡ true
contains_of_mem [] m = elim m [ ]
contains_of_mem (x ∷ xs) {a} (Memᴰ.head e) = ground (arith, eq_iff x a)
contains_of_mem (x ∷ xs) {a} (Memᴰ.tail m) = ground (arith, contains_of_mem xs m)

pub mem_of_contains : (xs : List String) (a : String) → contains xs a ≡ true → Memᴰ a xs
mem_of_contains [] a h = cc
mem_of_contains (x ∷ xs) a h = elim (Bool-cases (str_eq x a)) [
  | inl t ↦ Memᴰ.head (sym ((eq_iff x a).0 t))
  | inr f ↦ Memᴰ.tail (mem_of_contains xs a (rw f at h))
]

-- two sets meet exactly when they share an element
pub meets_of_mem : (xs ys : List String) {a : String} → Memᴰ a xs → Memᴰ a ys → meets xs ys ≡ true
meets_of_mem [] ys m n = elim m [ ]
meets_of_mem (x ∷ xs) ys {a} (Memᴰ.head e) n =
    let c : contains ys x ≡ true = rw (← e) (contains_of_mem ys n) in ground arith
meets_of_mem (x ∷ xs) ys (Memᴰ.tail m) n = ground (arith, meets_of_mem xs ys m n)

pub mem_of_meets : (xs ys : List String) → meets xs ys ≡ true → (a : String) × Memᴰ a xs × Memᴰ a ys
mem_of_meets [] ys h = cc
mem_of_meets (x ∷ xs) ys h = elim (Bool-cases (contains ys x)) [
  | inl t ↦ (x, Memᴰ.head refl, mem_of_contains ys x t)
  | inr f ↦ let r = mem_of_meets xs ys (rw f at h) in (r.0, Memᴰ.tail r.1, r.2)
]
