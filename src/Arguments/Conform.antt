-- ===== src/Arguments/Conform.antt =====
-- internal/agentruntime/domain/input_schema.go: the arguments that ValidateInputSchema accepts.
use flowanything.Common.{
  String, ◌≡◌, ◌≢◌, refl, sym, subst, inl, inr, ◌↔◌, Bool-cases, Option, none, some, Option-cases,
  some-eq, List, [], ◌∷◌, ◌==◌, eq_iff, All, arith, trim_space,
}
use flowanything.Platform.{AppError}
use flowanything.Workflow.Values.{
  Tree, null, bool, scalar, text, list, dict, Trees, nil, cons, Fields, empty, entry, get_field,
  as_dict, or_empty,
}
use flowanything.Arguments.Asked.{HasType, matches_type_iff}
use flowanything.Arguments.Allowed.{IsAllowed, enum_allows_iff, list-items}
use flowanything.Arguments.{
  Lexis, any_slice, string_slice, present, or_null, validate_required, validate_value,
  validate_present, or_else, validate_properties, validate_input_schema,
}

-- A field is there and is not nil.
abbrev pub IsPresent : Fields → String → Type 0
IsPresent args field = (value : Tree) × (get_field field args ≡ some value) × (value ≢ null)

-- A value has the type that a property names, where it names one, and is allowed by its enum.
abbrev pub Fits : Lexis → Tree → Fields → Type 0
Fits x value property =
    (trim_space (x.sprint (or_null (get_field "type" property))) ≢ ""
      → HasType x value (trim_space (x.sprint (or_null (get_field "type" property)))))
    × IsAllowed x value (get_field "enum" property)

-- Each property that an argument is there for.
abbrev pub FitsAll : Lexis → Fields → Fields → Type 0
FitsAll x args empty = Unit
FitsAll x args (entry name property fs) =
    ((value : Tree)
      → get_field name args ≡ some value
      → value ≢ null
      → Fits x value (or_empty (as_dict (some property))))
    × FitsAll x args fs

-- Each item of a list, where it does not print as a blank text, names a field that is there.
abbrev pub AreThere : Lexis → Fields → Trees → Type 0
AreThere x args nil = Unit
AreThere x args (cons item items) =
    (trim_space (x.sprint item) ≢ "" → IsPresent args (trim_space (x.sprint item)))
    × AreThere x args items

present_iff :
    (o : Option Tree) (value : Tree)
    → (present o ≡ some value) ↔ ((o ≡ some value) × (value ≢ null))
present_iff none value = ((λ e. absurd (cc)), (λ p. absurd (let e = p.0 in cc)))
present_iff (some null) value = ((λ e. absurd (cc)), (λ p. elim (p.1 (sym (some-eq p.0))) [ ]))
present_iff (some (text s)) value = ((λ e. (e, λ n. absurd (cc))), (λ p. p.0))
present_iff (some (bool b)) value = ((λ e. (e, λ n. absurd (cc))), (λ p. p.0))
present_iff (some (scalar t b)) value = ((λ e. (e, λ n. absurd (cc))), (λ p. p.0))
present_iff (some (list ts)) value = ((λ e. (e, λ n. absurd (cc))), (λ p. p.0))
present_iff (some (dict fs)) value = ((λ e. (e, λ n. absurd (cc))), (λ p. p.0))

string_slice_iff :
    (x : Lexis) (args : Fields) (items : Trees)
    → All (IsPresent args) (string_slice x items) ↔ AreThere x args items
unfolding string_slice
string_slice_iff x args nil = ((λ h. tt), (λ h. tt))
string_slice_iff x args (cons item items) =
    let rest = string_slice_iff x args items in
    let name = trim_space (x.sprint item) in
    elim (Bool-cases (name == "")) [
      | inl e ↦ (
        (λ h. ((λ ne. elim (ne ((eq_iff name "").0 e)) [ ]), rest.0 (rw e at h))),
        (λ p. rw e (rest.1 p.1)),
      )
      | inr e ↦ (
        (λ h.
            let both : IsPresent args name × All (IsPresent args) (string_slice x items) =
              rw e at h in
            ((λ ne. both.0), rest.0 both.1)),
        (λ p. rw e (p.0 (λ q. absurd (ground (arith, e, q, eq_iff name ""))), rest.1 p.1)),
      )
    ]

or_else_iff : (a b : Option AppError) → (or_else a b ≡ none) ↔ ((a ≡ none) × (b ≡ none))
or_else_iff none b = ((λ e. (refl, e)), (λ p. p.1))
or_else_iff (some e) b = ((λ h. absurd (cc)), (λ p. absurd (let h = p.0 in cc)))

validate_required_iff :
    (args : Fields) (fields : List String)
    → (validate_required args fields ≡ none) ↔ All (IsPresent args) fields
unfolding validate_required
validate_required_iff args [] = ((λ h. tt), (λ p. refl))
validate_required_iff args (field ∷ fields) =
    let rest = validate_required_iff args fields in
    elim (Option-cases (present (get_field field args))) [
      | inl e ↦ (
        (λ h. absurd (ground (arith, h, e))),
        (λ p. let f = (present_iff (get_field field args) p.0.0).1 (p.0.1, p.0.2) in absurd (cc)),
      )
      | inr (value, e) ↦ (
        (λ h.
            let (there, ne) = (present_iff (get_field field args) value).0 e in
            ((value, there, ne), rest.0 (ground (arith, h, e)))),
        (λ p. let r = rest.1 p.1 in ground (arith, e, r)),
      )
    ]

validate_value_iff :
    (x : Lexis) (name : String) (value : Tree) (property : Fields)
    → (validate_value x name value property ≡ none) ↔ Fits x value property
unfolding validate_value
validate_value_iff x name value property =
    let expected = trim_space (x.sprint (or_null (get_field "type" property))) in
    let typed = matches_type_iff x value expected in
    let allowed = enum_allows_iff x value (get_field "enum" property) in
    (
      (λ h. (
        (λ ne. typed.0 (ground (arith, h, ne, eq_iff expected ""))),
        allowed.0 (ground (arith, h)),
      )),
      (λ p.
          let a = allowed.1 p.1 in
          elim (Bool-cases (expected == "")) [
            | inl e ↦ ground (arith, a, e)
            | inr e ↦
                let t = typed.1 (p.0 (λ q. absurd (ground (arith, e, q, eq_iff expected "")))) in
                ground (arith, a, e, t)
          ]),
    )

validate_present_iff :
    (x : Lexis) (name : String) (argument : Option Tree) (property : Tree)
    → (validate_present x name argument property ≡ none)
      ↔ ((value : Tree) → argument ≡ some value → Fits x value (or_empty (as_dict (some property))))
validate_present_iff x name none property = ((λ h value e. absurd (cc)), (λ p. refl))
validate_present_iff x name (some value) property =
    let fits = validate_value_iff x name value (or_empty (as_dict (some property))) in
    (
      (λ h other e.
          subst (λ (v : Tree). Fits x v (or_empty (as_dict (some property)))) (some-eq e)
            (fits.0 h)),
      (λ p. fits.1 (p value refl)),
    )

validate_properties_iff :
    (x : Lexis) (args fs : Fields) → (validate_properties x args fs ≡ none) ↔ FitsAll x args fs
unfolding validate_properties
validate_properties_iff x args empty = ((λ h. tt), (λ p. refl))
validate_properties_iff x args (entry name property fs) =
    let argument = get_field name args in
    let both =
      or_else_iff (validate_present x name (present argument) property)
        (validate_properties x args fs) in
    let first = validate_present_iff x name (present argument) property in
    let rest = validate_properties_iff x args fs in
    (
      (λ h. (
        (λ value e ne. first.0 (both.0 h).0 value ((present_iff argument value).1 (e, ne))),
        rest.0 (both.0 h).1,
      )),
      (λ p. both.1 (
        first.1
            (λ value e. let (there, ne) = (present_iff argument value).0 e in p.0 value there ne),
        rest.1 p.1,
      )),
    )

-- What a schema asks of the arguments; one without fields asks for nothing.
abbrev pub Conforms : Lexis → Fields → Fields → Type 0
Conforms x args empty = Unit
Conforms x args (entry key value fs) =
    ((items : Trees)
      → get_field "required" (entry key value fs) ≡ some (list items)
      → AreThere x args items)
    × ((properties : Fields)
        → get_field "properties" (entry key value fs) ≡ some (dict properties)
        → FitsAll x args properties)

-- Only a list has items.
any_slice_iff :
    (P : Trees → Type 0) (o : Option Tree)
    → P nil
    → P (any_slice o) ↔ ((items : Trees) → o ≡ some (list items) → P items)
any_slice_iff P none p = ((λ h items e. absurd (cc)), (λ h. p))
any_slice_iff P (some (list ts)) p = ((λ h items e. subst P (list-items e) h), (λ h. h ts refl))
any_slice_iff P (some null) p = ((λ h items e. absurd (cc)), (λ h. p))
any_slice_iff P (some (text s)) p = ((λ h items e. absurd (cc)), (λ h. p))
any_slice_iff P (some (bool b)) p = ((λ h items e. absurd (cc)), (λ h. p))
any_slice_iff P (some (scalar t b)) p = ((λ h items e. absurd (cc)), (λ h. p))
any_slice_iff P (some (dict fs)) p = ((λ h items e. absurd (cc)), (λ h. p))

dict-fields : {fs gs : Fields} → some (dict fs) ≡ some (dict gs) → fs ≡ gs
dict-fields e = cc

-- Only a map has properties.
as_dict_iff :
    (P : Fields → Type 0) (o : Option Tree)
    → P empty
    → P (or_empty (as_dict o)) ↔ ((fs : Fields) → o ≡ some (dict fs) → P fs)
as_dict_iff P none p = ((λ h items e. absurd (cc)), (λ h. p))
as_dict_iff P (some (dict fs)) p = ((λ h items e. subst P (dict-fields e) h), (λ h. h fs refl))
as_dict_iff P (some null) p = ((λ h items e. absurd (cc)), (λ h. p))
as_dict_iff P (some (text s)) p = ((λ h items e. absurd (cc)), (λ h. p))
as_dict_iff P (some (bool b)) p = ((λ h items e. absurd (cc)), (λ h. p))
as_dict_iff P (some (scalar t b)) p = ((λ h items e. absurd (cc)), (λ h. p))
as_dict_iff P (some (list ts)) p = ((λ h items e. absurd (cc)), (λ h. p))

-- ValidateInputSchema accepts arguments exactly if, where the schema lists required fields, all that it
-- names are there and not nil, and, where it has properties, each field that is there, not nil and
-- described by one of them has the property's type, where the property names one of the six types, and
-- prints as one of the values of its enum, where there is an enum that is not nil. A text, a boolean, a
-- map or a slice is a value of this kind, a number one of Go's integer or float types, an integer one of
-- Go's integer types or a whole float.
pub validate_input_schema_iff :
    (x : Lexis) (args schema : Fields)
    → (validate_input_schema x args schema ≡ none) ↔ Conforms x args schema
unfolding validate_input_schema
validate_input_schema_iff x args empty = ((λ h. tt), (λ p. refl))
validate_input_schema_iff x args (entry key value fs) =
    let schema = entry key value fs in
    let items = any_slice (get_field "required" schema) in
    let properties = or_empty (as_dict (get_field "properties" schema)) in
    let both =
      or_else_iff (validate_required args (string_slice x items))
        (validate_properties x args properties) in
    let required = validate_required_iff args (string_slice x items) in
    let there = string_slice_iff x args items in
    let listed = any_slice_iff (AreThere x args) (get_field "required" schema) tt in
    let described = validate_properties_iff x args properties in
    let fits = as_dict_iff (FitsAll x args) (get_field "properties" schema) tt in
    (
      (λ h. (listed.0 (there.0 (required.0 (both.0 h).0)), fits.0 (described.0 (both.0 h).1))),
      (λ p. both.1 (required.1 (there.1 (listed.1 p.0)), described.1 (fits.1 p.1))),
    )
