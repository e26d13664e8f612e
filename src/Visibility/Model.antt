-- ===== src/Visibility/Model.antt =====
-- The owned resources of app/domain/models/ownership.py, and what each of the four kinds adds to them.
-- `body` holds every field that is not named here, as `model_dump` gives it. The two Booleans say
-- whether `visibility` and `team_id` are in `model_fields_set`. Timestamps are left out.
use ai_agents_carrier.Base.{String, ◌≡◌, refl, Bool, true, false, Option, none, some, List}
use ai_agents_carrier.Base.Json.{Fields}

pub data Visibility : Type 0 where
  public team private : Visibility

pub data Access : Type 0 where
  read read_write : Access

pub data GranteeType : Type 0 where
  user workflow : GranteeType

pub record ResourceGrant : Type 0 where
  pub id : String
  pub grantee_type : GranteeType
  pub grantee_id : String
  pub grantee_name : Option String
  pub access : Access
  pub granted_by : Option String
  pub granted_by_name : Option String

pub data Kind : Type 0 where
  agent datasource script workflow : Kind

pub record Resource : Type 0 where
  pub id : String
  pub name : String
  pub kind : Kind
  pub readonly : Bool
  pub visibility : Visibility
  pub visibility_set : Bool
  pub owner_id : Option String
  pub owner_name : Option String
  pub team_id : Option String
  pub team_id_set : Bool
  pub grants : List ResourceGrant
  pub body : Fields

-- the class attributes `team_editable` and `grant_edits`, and whether the class has `grants`
abbrev pub team_editable : Kind → Bool
team_editable workflow = true
team_editable _ = false

abbrev pub grant_edits : Kind → Bool
grant_edits agent = true
grant_edits workflow = true
grant_edits _ = false

abbrev pub has_grants : Kind → Bool
has_grants script = false
has_grants _ = true

abbrev pub same_kind : Kind → Kind → Bool
same_kind agent agent = true
same_kind datasource datasource = true
same_kind script script = true
same_kind workflow workflow = true
same_kind _ _ = false

abbrev pub same_visibility : Visibility → Visibility → Bool
same_visibility public public = true
same_visibility team team = true
same_visibility private private = true
same_visibility _ _ = false

abbrev pub same_grantee : GranteeType → GranteeType → Bool
same_grantee user user = true
same_grantee workflow workflow = true
same_grantee _ _ = false

-- The exceptions of visibility.py, teams.py and grants.py; the texts of their messages are left out.
pub data Violation : Type 0 where
  too_narrow other_team owner_not_in_team private_to_other : Violation

pub data Error : Type 0 where
  resource_not_found not_owner id_taken still_referenced : Error
  reference_not_found : Kind → String → Error
  reference_violates : Violation → Error
  operation_not_granted : Error
  team_required team_not_found not_in_team : Error
  grant_invalid grant_conflict : Error
  team_conflict team_invalid : Error
  -- a Python error in the walk over a stored definition, such as a TypeError
  malformed : Error

-- what an operation gives, or the error that it raises
pub data Result {ℓ} (Value : Type ℓ) : Type ℓ where
  err : Error → Result Value
  ok : Value → Result Value

-- `if test: raise error`
abbrev pub raise_if : Bool → Error → Result (Unit {0})
raise_if true e = err e
raise_if false e = ok tt

abbrev pub lift_option {ℓ} : {A : Type ℓ} → Option A → Error → Result A
lift_option none e = err e
lift_option (some a) e = ok a

-- one operation after another, until one raises
infixl 5 ◌>>=◌
abbrev pub ◌>>=◌ {ℓ κ} :
    {X : Type ℓ} {Y : Type κ} (first : Result X) (next : X → Result Y) → Result Y
err raised >>= next = err raised
ok value >>= next = next value

-- the same where the first gives nothing that the second needs
infixl 5 ◌>>◌
abbrev pub ◌>>◌ {κ} : {Y : Type κ} (check : Result (Unit {0})) (then_do : Result Y) → Result Y
check >> then_do = check >>= λ done. then_do

-- Inversion of steps that succeed.
pub >>=-eq-ok {ℓ κ} :
    {X : Type ℓ} {Y : Type κ} (first : Result X) (next : X → Result Y) {out : Y}
    → (first >>= next) ≡ ok out
    → (value : X) × (first ≡ ok value) × (next value ≡ ok out)
>>=-eq-ok (err raised) next done = cc
>>=-eq-ok (ok value) next done = (value, refl, done)

pub raise_if-ok : (b : Bool) (e : Error) {t : Unit {0}} → raise_if b e ≡ ok t → b ≡ false
raise_if-ok true e h = cc
raise_if-ok false e h = refl
