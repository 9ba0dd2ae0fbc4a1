-- ===== src/Arguments.antt =====
-- internal/agentruntime/domain/input_schema.go: the arguments of a tool against its input schema. Values
-- are trees of maps, slices and scalars.
pub mod Asked
pub mod Allowed
pub mod Conform
use flowanything.Common.{
  ℕ, String, Bool, true, false, not, ◌||◌, Option, none, some, List, [], ◌∷◌, ◌==◌, if◌then◌else◌,
  concat, trim_space,
}
use flowanything.Platform.{AppError, new, invalid_argument}
use flowanything.Workflow.Values.{
  Tree, null, bool, scalar, text, list, dict, Trees, nil, cons, Fields, empty, entry, get_field,
  as_dict, or_empty,
}

-- fmt.Sprint, and math.Trunc(x) == x for the bits of a float of a type
pub record Lexis : Type 0 where
  pub sprint : Tree → String
  pub is_whole : String → ℕ → Bool

-- anySlice
abbrev pub any_slice : Option Tree → Trees
any_slice (some (list ts)) = ts
any_slice _ = nil

unfoldable pub is_one_of : List String → String → Bool
is_one_of [] s = false
is_one_of (x ∷ xs) s = let rest = is_one_of xs s in x == s || rest

abbrev pub integer_types : List String
integer_types =
    "int" ∷ "int8" ∷ "int16" ∷ "int32" ∷ "int64" ∷ "uint" ∷ "uint8" ∷ "uint16" ∷ "uint32" ∷ "uint64"
    ∷ []

abbrev pub float_types : List String
float_types = "float32" ∷ "float64" ∷ []

-- isInteger
unfoldable pub is_integer : Lexis → Tree → Bool
unfolding is_one_of
is_integer x (scalar type bits) =
    if is_one_of integer_types type
    then true
    else if is_one_of float_types type
    then x.is_whole type bits
    else false
is_integer x _ = false

-- numericValue, its second result
unfoldable pub is_numeric : Tree → Bool
unfolding is_one_of
is_numeric (scalar type bits) = is_one_of integer_types type || is_one_of float_types type
is_numeric _ = false

abbrev pub is_text : Tree → Bool
is_text (text _) = true
is_text _ = false

abbrev pub is_bool : Tree → Bool
is_bool (bool _) = true
is_bool _ = false

abbrev pub is_dict : Tree → Bool
is_dict (dict _) = true
is_dict _ = false

abbrev pub is_list : Tree → Bool
is_list (list _) = true
is_list _ = false

-- matchesType
unfoldable pub matches_type : Lexis → Tree → String → Bool
unfolding is_integer is_numeric
matches_type x value expected =
    if expected == "string"
    then is_text value
    else if expected == "integer"
    then is_integer x value
    else if expected == "number"
    then is_numeric value
    else if expected == "boolean"
    then is_bool value
    else if expected == "object"
    then is_dict value
    else if expected == "array"
    then is_list value
    else true

-- The loop of matchesEnum.
unfoldable pub in_enum : Lexis → Tree → Trees → Bool
in_enum x value nil = false
in_enum x value (cons item items) =
    let rest = in_enum x value items in x.sprint item == x.sprint value || rest

-- stringSlice
unfoldable pub string_slice : Lexis → Trees → List String
string_slice x nil = []
string_slice x (cons item items) =
    let rest = string_slice x items in
    if trim_space (x.sprint item) == "" then rest else trim_space (x.sprint item) ∷ rest

-- A value that is not missing and not nil.
abbrev pub present : Option Tree → Option Tree
present (some null) = none
present value = value

abbrev pub or_null : Option Tree → Tree
or_null (some t) = t
or_null none = null

abbrev pub invalid : String → String → Option AppError
invalid name what = some (new invalid_argument (concat "tool argument " (concat name what)))

-- The loop over the required fields; the messages quote the names.
unfoldable pub validate_required : Fields → List String → Option AppError
validate_required args [] = none
validate_required args (field ∷ fields) =
    let rest = validate_required args fields in
    elim (present (get_field field args)) as (λ _. Option AppError) [
      | none ↦ invalid field " is required"
      | some _ ↦ rest
    ]

-- if enumValues := property["enum"]; enumValues != nil
abbrev pub enum_allows : Lexis → Tree → Option Tree → Bool
enum_allows x value none = true
enum_allows x value (some values) = in_enum x value (any_slice (some values))

-- validateValue
unfoldable pub validate_value : Lexis → String → Tree → Fields → Option AppError
unfolding matches_type in_enum
validate_value x name value property =
    let expected = trim_space (x.sprint (or_null (get_field "type" property))) in
    if not (expected == "")
    then (if matches_type x value expected
        then (if enum_allows x value (present (get_field "enum" property))
            then none
            else invalid name " must be one of the allowed values")
        else invalid name (concat " must be " expected))
    else if enum_allows x value (present (get_field "enum" property))
    then none
    else invalid name " must be one of the allowed values"

-- An argument that is there, against its property.
abbrev pub validate_present : Lexis → String → Option Tree → Tree → Option AppError
validate_present x name none property = none
validate_present x name (some value) property =
    validate_value x name value (or_empty (as_dict (some property)))

abbrev pub or_else : Option AppError → Option AppError → Option AppError
or_else none next = next
or_else (some e) next = some e

-- The loop over the properties.
unfoldable pub validate_properties : Lexis → Fields → Fields → Option AppError
unfolding validate_value
validate_properties x args empty = none
validate_properties x args (entry name property fs) =
    or_else (validate_present x name (present (get_field name args)) property)
      (validate_properties x args fs)

-- ValidateInputSchema; a schema without fields has no requirements.
unfoldable pub validate_input_schema : Lexis → Fields → Fields → Option AppError
unfolding validate_required validate_properties string_slice
validate_input_schema x args empty = none
validate_input_schema x args (entry key value fs) =
    let schema = entry key value fs in
    or_else (validate_required args (string_slice x (any_slice (get_field "required" schema))))
      (validate_properties x args (or_empty (as_dict (get_field "properties" schema))))
