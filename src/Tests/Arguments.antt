-- ===== src/Tests/Arguments.antt =====
-- A required argument of type string with an enum, and one of type array.
use flowanything.Common.{String, false, ◌≡◌, ◌↔◌, refl, none, trim_space, concat}
use flowanything.Workflow.Values.{
  Tree, text, list, dict, nil, cons, Fields, empty, entry, get_field,
}
use flowanything.Arguments.{Lexis, invalid, validate_input_schema}
use flowanything.Arguments.Conform.{Conforms, validate_input_schema_iff}

abbrev sprint : Tree → String
sprint (text s) = s
sprint _ = "<nil>"

abbrev plain : Lexis
plain = record { sprint = sprint; is_whole = λ type bits. false }

-- A city of two, and a list of days.
abbrev properties : Fields
properties =
    entry "city"
      (dict (
        entry "type" (text "string")
          (entry "enum" (list (cons (text "Oslo") (cons (text "Rome") nil))) empty)))
      (entry "days" (dict (entry "type" (text "array") empty)) empty)

abbrev schema : Fields
schema =
    entry "required" (list (cons (text "city") nil)) (entry "properties" (dict properties) empty)

abbrev trip : Tree → Tree → Fields
trip city days = entry "city" city (entry "days" days empty)

validate_input_schema_iff_example :
    (validate_input_schema plain (trip (text "Oslo") (list nil)) schema ≡ none)
    ↔ Conforms plain (trip (text "Oslo") (list nil)) schema
validate_input_schema_iff_example =
    validate_input_schema_iff plain (trip (text "Oslo") (list nil)) schema

accepted : validate_input_schema plain (trip (text "Oslo") (list nil)) schema ≡ none
unfolding validate_input_schema get_field trim_space
accepted = refl

-- A text is no list.
refused_type :
    validate_input_schema plain (trip (text "Oslo") (text "Monday")) schema
    ≡ invalid "days" (concat " must be " "array")
unfolding validate_input_schema get_field trim_space
refused_type = refl

refused_value :
    validate_input_schema plain (trip (text "Bonn") (list nil)) schema
    ≡ invalid "city" " must be one of the allowed values"
unfolding validate_input_schema get_field trim_space
refused_value = refl
