-- ===== src/Tools/Schema.antt =====
-- The validator of tool arguments, src/hey_robot/tool_schema.py. The checks of one value raise or
-- return nothing, so each is an optional error. What Python knows of a number beyond its value, and
-- its `in`, are parameters: `contains item container`, `none` where it raises TypeError.
pub mod Idempotence
use xbotics_hey_robot.Prelude.{
  ℕ, String, Bool, true, false, not, ◌&&◌, ◌||◌, Option, none, some, List, [], ◌∷◌, if◌then◌else◌,
  ◌==◌, keep, length, is_some,
}
use xbotics_hey_robot.Prelude.Int.{ℤ, pos, ltb_ℤ}
use xbotics_hey_robot.Prelude.Result.{Result, ok, raise}
use xbotics_hey_robot.Prelude.Text.{characters, sort_texts}
use xbotics_hey_robot.Prelude.Value.{
  Value, Fields, null, boolean, number, string, array, dict, end, entry, get, get_or_null, put,
  keys, items,
}

pub record Python : Type 0 where
  pub is_int : ℤ → Bool
  pub count : ℕ → ℤ
  pub contains : Value → Value → Option Bool

pub data SchemaError : Type 0 where
  not_object type_error missing_other : SchemaError
  unexpected : List String → SchemaError
  missing : String → SchemaError
  wrong_type : String → String → SchemaError
  not_among : String → SchemaError
  too_short too_small too_large : String → ℤ → SchemaError

unfoldable pub has_key : Fields → String → Bool
unfolding get
has_key d k = is_some (get d k)

-- `schema.get("type") not in {None, "object"}`; a list or dictionary has no hash.
abbrev pub kind_error : Value → Option SchemaError
kind_error null = none
kind_error (string t) = if t == "object" then none else some not_object
kind_error (array vs) = some type_error
kind_error (dict d) = some type_error
kind_error v = some not_object

-- The loop that fills in defaults, over the rest of the properties.
unfoldable pub with_defaults : Fields → Fields → Fields
unfolding has_key put
with_defaults end resolved = resolved
with_defaults (entry name definition rest) resolved = with_defaults rest (
    if has_key resolved name then resolved else elim definition [
      | dict d ↦ elim (get d "default") [ some v ↦ put resolved name v | none ↦ resolved ]
      | _ ↦ resolved
    ])

abbrev pub is_false : Value → Bool
is_false (boolean false) = true
is_false v = false

unfoldable pub unknown_names : Fields → Fields → List String
unfolding has_key keys
unknown_names properties resolved = keep (λ k. not (has_key properties k)) (keys resolved)

abbrev pub unexpected_error : List String → Option SchemaError
unexpected_error [] = none
unexpected_error (k ∷ ks) = some (unexpected (sort_texts (k ∷ ks)))

unfoldable pub unknown_error : Fields → Fields → Fields → Option SchemaError
unfolding unknown_names
unknown_error schema properties resolved =
    if is_false (get_or_null schema "additionalProperties")
    then unexpected_error (unknown_names properties resolved)
    else none

unfoldable pub missing_error : Fields → List Value → Option SchemaError
unfolding has_key
missing_error resolved [] = none
missing_error resolved (string k ∷ ks) =
    let rest = missing_error resolved ks in if has_key resolved k then rest else some (missing k)
missing_error resolved (array vs ∷ ks) = some type_error
missing_error resolved (dict d ∷ ks) = some type_error
missing_error resolved (v ∷ ks) = some missing_other

unfoldable pub required_error : Fields → Fields → Option SchemaError
unfolding missing_error
required_error schema resolved = elim (get_or_null schema "required") [
  | array vs ↦ missing_error resolved (items vs)
  | _ ↦ none
]

-- The first error.
abbrev pub first_error : Option SchemaError → Option SchemaError → Option SchemaError
first_error none later = later
first_error (some e) later = some e

abbrev pub is_string : Value → Bool
is_string (string s) = true
is_string v = false

abbrev pub is_boolean : Value → Bool
is_boolean (boolean b) = true
is_boolean v = false

abbrev pub is_dict : Value → Bool
is_dict (dict d) = true
is_dict v = false

abbrev pub is_array : Value → Bool
is_array (array vs) = true
is_array v = false

abbrev pub is_number : Value → Bool
is_number (number z) = true
is_number v = false

module _ (py : Python) where
  abbrev pub is_integer : Value → Bool
  is_integer (number z) = py.is_int z
  is_integer v = false

  -- The test of a type that the table knows; any other type holds of every value.
  abbrev pub has_type : String → Value → Bool
  has_type t v =
      if t == "string"
      then is_string v
      else if t == "number"
      then is_number v
      else if t == "integer"
      then is_integer v
      else if t == "boolean"
      then is_boolean v
      else if t == "object"
      then is_dict v
      else if t == "array"
      then is_array v
      else true

  abbrev pub check_type : String → Value → Value → Option SchemaError
  check_type name v (string t) = if has_type t v then none else some (wrong_type name t)
  check_type name v (array vs) = some type_error
  check_type name v (dict d) = some type_error
  check_type name v other = none

  abbrev pub check_among : String → Value → Option Value → Option SchemaError
  check_among name v none = none
  check_among name v (some allowed) = elim (py.contains v allowed) [
    | none ↦ some type_error
    | some found ↦ if found then none else some (not_among name)
  ]

  -- A number, as Python compares it: a Boolean is one.
  abbrev pub as_number : Value → Option ℤ
  as_number (number z) = some z
  as_number (boolean b) = some (if b then py.count 1 else py.count 0)
  as_number v = none

  -- `isinstance(min_length, int)`
  abbrev pub as_int : Value → Option ℤ
  as_int (number z) = if py.is_int z then some z else none
  as_int (boolean b) = some (if b then py.count 1 else py.count 0)
  as_int v = none

  abbrev pub check_length : String → Value → Option ℤ → Option SchemaError
  check_length name (string s) (some least) =
      if ltb_ℤ (py.count (length (characters s))) least then some (too_short name least) else none
  check_length name v least = none

  abbrev pub check_least : String → ℤ → Option ℤ → Option SchemaError
  check_least name z none = none
  check_least name z (some least) = if ltb_ℤ z least then some (too_small name least) else none

  abbrev pub check_most : String → ℤ → Option ℤ → Option SchemaError
  check_most name z none = none
  check_most name z (some most) = if ltb_ℤ most z then some (too_large name most) else none

  abbrev pub check_range : String → Value → Option ℤ → Option ℤ → Option SchemaError
  check_range name (number z) least most =
      first_error (check_least name z least) (check_most name z most)
  check_range name v least most = none

  -- `_validate_value`
  unfoldable pub value_error : String → Value → Fields → Option SchemaError
  unfolding characters
  value_error name v d = first_error (check_type name v (get_or_null d "type")) (
      first_error (check_among name v (get d "enum")) (
        first_error (check_length name v (as_int (get_or_null d "minLength"))) (
          check_range name v (as_number (get_or_null d "minimum"))
            (as_number (get_or_null d "maximum")))))

  unfoldable pub values_error : Fields → Fields → Option SchemaError
  unfolding value_error
  values_error properties end = none
  values_error properties (entry name v rest) =
      first_error (elim (get_or_null properties name) [ dict d ↦ value_error name v d | _ ↦ none ])
        (values_error properties rest)

  abbrev pub or_raise : Option SchemaError → Fields → Result SchemaError Fields
  or_raise none d = ok d
  or_raise (some e) d = raise e

  unfoldable pub resolved_error : Fields → Fields → Fields → Option SchemaError
  resolved_error schema properties resolved =
      first_error (required_error schema resolved) (values_error properties resolved)

  unfoldable pub validate_object : Fields → Fields → Fields → Result SchemaError Fields
  unfolding with_defaults unknown_error resolved_error
  validate_object schema properties arguments = elim (unknown_error schema properties arguments) [
    | some e ↦ raise e
    | none ↦
        let resolved = with_defaults properties arguments in
        or_raise (resolved_error schema properties resolved) resolved
  ]

  unfoldable pub validate_arguments : Fields → Fields → Result SchemaError Fields
  unfolding validate_object
  validate_arguments schema arguments = elim (kind_error (get_or_null schema "type")) [
    | some e ↦ raise e
    | none ↦ elim (get schema "properties") [
      | none ↦ validate_object schema end arguments
      | some (dict properties) ↦ validate_object schema properties arguments
      | some v ↦ ok arguments
    ]
  ]
