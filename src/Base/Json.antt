-- ===== src/Base/Json.antt =====
-- The values that the program reads from YAML and JSON. A value that is no text carries what Python's
-- `str` makes of it, which the program uses where it expects an id. A dict's keys are distinct, so
-- the first entry of a key is the only one.
use ai_agents_carrier.Base.Texts.{str_eq, truthy}
use ai_agents_carrier.Base.Tests.{if◌then◌else◌}
use Prim.Native.String.{String}
use mathlib.Core.Bool.{Bool, true, false}
use mathlib.Core.List.{List, [], ◌∷◌}

mutual
  pub data Json : Type 0 where
    null : Json
    bool : Bool → Json
    -- whether it is not 0, and its text
    num : Bool → String → Json
    string : String → Json
    arr : String → Items → Json
    obj : String → Fields → Json

  pub data Items : Type 0 where
    nil : Items
    cons : Json → Items → Items

  pub data Fields : Type 0 where
    end : Fields
    field : String → Json → Fields → Fields

-- `d.get(key)`
unfoldable pub get : String → Fields → Json
get key end = null
get key (field k v fs) = let later = get key fs in if str_eq k key then v else later

abbrev pub truth : Json → Bool
truth null = false
truth (bool b) = b
truth (num nonzero _) = nonzero
truth (string s) = truthy s
truth (arr _ nil) = false
truth (arr _ (cons _ _)) = true
truth (obj _ end) = false
truth (obj _ (field _ _ _)) = true

-- `str(v)`
unfoldable pub to_text : Json → String
to_text null = "None"
to_text (bool true) = "True"
to_text (bool false) = "False"
to_text (num _ s) = s
to_text (string s) = s
to_text (arr s _) = s
to_text (obj s _) = s

-- `v == "…"`
abbrev pub is_text : Json → String → Bool
is_text (string s) t = str_eq s t
is_text _ t = false

abbrev pub is_dict : Json → Bool
is_dict (obj _ _) = true
is_dict _ = false

abbrev pub is_false : Json → Bool
is_false (bool false) = true
is_false _ = false

abbrev pub elements : Items → List Json
elements nil = []
elements (cons v vs) = v ∷ elements vs

abbrev pub values : Fields → List Json
values end = []
values (field k v fs) = v ∷ values fs

abbrev pub or_json : Json → Json → Json
or_json a b = if truth a then a else b
