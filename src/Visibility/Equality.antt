-- ===== src/Visibility/Equality.antt =====
-- Equality of stored values, as Python's `==` has it of dicts and lists: the order of a dict's keys
-- does not matter. Two numbers are equal if they are written alike.
use Prim.Native.String.{String}
use ai_agents_carrier.Base.{ℕ, Bool, true, false, ◌&&◌, ◌||◌, str_eq, ◌==◌}
use ai_agents_carrier.Base.Json.{
  Json, null, bool, num, string, arr, obj, Items, nil, cons, Fields, end, field, get,
}

abbrev size : Fields → ℕ
size end = 0
size (field k v fields) = ℕ.suc (size fields)

abbrev has_key : String → Fields → Bool
has_key key end = false
has_key key (field k v fields) = str_eq k key || has_key key fields

abbrev same_bool : Bool → Bool → Bool
same_bool true b = b
same_bool false true = false
same_bool false false = true

unfoldable mutual
  unfolding get

  pub json_eq : Json → Json → Bool
  json_eq null null = true
  json_eq (bool a) (bool b) = same_bool a b
  json_eq (num _ a) (num _ b) = str_eq a b
  json_eq (string a) (string b) = str_eq a b
  json_eq (arr _ a) (arr _ b) = items_eq a b
  json_eq (obj _ a) (obj _ b) = size a == size b && fields_in a b
  json_eq _ _ = false

  items_eq : Items → Items → Bool
  items_eq nil nil = true
  items_eq (cons a as_) (cons b bs) = json_eq a b && items_eq as_ bs
  items_eq _ _ = false

  fields_in : Fields → Fields → Bool
  fields_in end b = true
  fields_in (field k v fields) b = has_key k b && json_eq v (get k b) && fields_in fields b
