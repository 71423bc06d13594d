-- ===== src/Json.antt =====
-- serde_json::Value, and the accessors that the program calls on one. The parser of serde_json is not
-- code of the program: who reads JSON takes it as a parameter.
use glasir_control.Prelude.{
  ℕ, Bool, true, false, Option, none, some, List, [], ◌∷◌, map, if◌then◌else◌, ◌==◌, nat_eq,
  Bool_eq, list_eq, pair_eq,
}
use glasir_control.Text.{Text}
use glasir_control.Rights.Parse.{fields}

mutual
  pub data Value : Type 0 where
    null_value : Value
    bool_value : Bool → Value
    -- A number that is a u64, and any other one.
    number_value : ℕ → Value
    other_number : Value
    string_value : Text → Value
    array_value : Elements → Value
    object_value : Fields → Value

  pub data Elements : Type 0 where
    no_elements : Elements
    element : Value → Elements → Elements

  -- The keys of an object are distinct.
  pub data Fields : Type 0 where
    no_fields : Fields
    field : Text → Value → Fields → Fields

-- Map::get
unfoldable pub get_field : Fields → Text → Option Value
get_field no_fields key = none
get_field (field k v more) key = if k == key then some v else get_field more key

-- Value::get, with the name of a field
unfoldable pub get_value : Value → Text → Option Value
unfolding get_field
get_value (object_value fields) key = get_field fields key
get_value _ key = none

abbrev pub or_null : Option Value → Value
or_null none = null_value
or_null (some v) = v

-- `value["key"]`: a missing field is null.
unfoldable pub index : Value → Text → Value
unfolding get_value
index v key = or_null (get_value v key)

abbrev pub as_str : Value → Option Text
as_str (string_value s) = some s
as_str _ = none

abbrev pub as_u64 : Value → Option ℕ
as_u64 (number_value n) = some n
as_u64 _ = none

abbrev pub as_object : Value → Option Fields
as_object (object_value fields) = some fields
as_object _ = none

abbrev pub elements_of : Elements → List Value
elements_of no_elements = []
elements_of (element v more) = v ∷ elements_of more

-- `as_array().into_iter().flatten()`: no array has no elements.
abbrev pub items_of : Value → List Value
items_of (array_value vs) = elements_of vs
items_of _ = []

abbrev pub is_object : Value → Bool
is_object (object_value _) = true
is_object _ = false

-- `json!({…})` and `json!([…])`
abbrev pub object_of : List (Text × Value) → Value
object_of kvs = object_value (fields_from kvs)
  where
    fields_from : List (Text × Value) → Fields
    fields_from [] = no_fields
    fields_from ((k, v) ∷ more) = field k v (fields_from more)

abbrev pub array_of : List Value → Value
array_of vs = array_value (elements_from vs)
  where
    elements_from : List Value → Elements
    elements_from [] = no_elements
    elements_from (v ∷ more) = element v (elements_from more)

abbrev pub string_or_null : Option Text → Value
string_or_null none = null_value
string_or_null (some s) = string_value s

abbrev pub number_or_null : Option ℕ → Value
number_or_null none = null_value
number_or_null (some n) = number_value n

abbrev pub strings : List Text → Value
strings ts = array_of (map string_value ts)
