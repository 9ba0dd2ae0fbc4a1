-- ===== src/Arguments/Asked.antt =====
-- internal/agentruntime/domain/input_schema.go: the types of values, told without the tests of the code, and
-- what those tests have to do with them.
use flowanything.Common.{
  ℕ, String, ◌≡◌, refl, sym, subst, ◌⊎◌, inl, inr, ◌↔◌, Bool, true, Bool-cases, List, [], ◌∷◌, ◌==◌,
  eq_iff, In, if-case, if-cases, arith,
}
use flowanything.Workflow.Values.{Tree, null, bool, scalar, text, list, dict, Trees, Fields}
use flowanything.Arguments.{
  Lexis, is_one_of, integer_types, float_types, is_integer, is_numeric, is_text, is_bool, is_dict,
  is_list, matches_type,
}

abbrev pub IsText : Tree → Type 0
IsText value = (s : String) × (value ≡ text s)

abbrev pub IsBool : Tree → Type 0
IsBool value = (b : Bool) × (value ≡ bool b)

abbrev pub IsObject : Tree → Type 0
IsObject value = (fs : Fields) × (value ≡ dict fs)

abbrev pub IsArray : Tree → Type 0
IsArray value = (ts : Trees) × (value ≡ list ts)

-- A number of an integer type or of a float type.
abbrev pub IsNumber : Tree → Type 0
IsNumber value =
    (type : String) × (bits : ℕ) × (value ≡ scalar type bits)
    × (In type integer_types ⊎ In type float_types)

-- A number of an integer type, or a whole one of a float type.
abbrev pub IsInteger : Lexis → Tree → Type 0
IsInteger x value =
    (type : String) × (bits : ℕ) × (value ≡ scalar type bits)
    × (In type integer_types ⊎ (In type float_types × (x.is_whole type bits ≡ true)))

-- The value is of the type with the name; other names say nothing.
abbrev pub HasType : Lexis → Tree → String → Type 0
HasType x value name =
    (name ≡ "string" → IsText value)
    × (name ≡ "integer" → IsInteger x value)
    × (name ≡ "number" → IsNumber value)
    × (name ≡ "boolean" → IsBool value)
    × (name ≡ "object" → IsObject value)
    × (name ≡ "array" → IsArray value)

is_text_iff : (value : Tree) → (is_text value ≡ true) ↔ IsText value
is_text_iff (text s) = ((λ h. (s, refl)), (λ p. refl))
is_text_iff null = ((λ h. absurd (cc)), (λ (s, e). absurd (cc)))
is_text_iff (bool b) = ((λ h. absurd (cc)), (λ (s, e). absurd (cc)))
is_text_iff (scalar type bits) = ((λ h. absurd (cc)), (λ (s, e). absurd (cc)))
is_text_iff (list ts) = ((λ h. absurd (cc)), (λ (s, e). absurd (cc)))
is_text_iff (dict fs) = ((λ h. absurd (cc)), (λ (s, e). absurd (cc)))

is_bool_iff : (value : Tree) → (is_bool value ≡ true) ↔ IsBool value
is_bool_iff (bool b) = ((λ h. (b, refl)), (λ p. refl))
is_bool_iff null = ((λ h. absurd (cc)), (λ (s, e). absurd (cc)))
is_bool_iff (text t) = ((λ h. absurd (cc)), (λ (s, e). absurd (cc)))
is_bool_iff (scalar type bits) = ((λ h. absurd (cc)), (λ (s, e). absurd (cc)))
is_bool_iff (list ts) = ((λ h. absurd (cc)), (λ (s, e). absurd (cc)))
is_bool_iff (dict fs) = ((λ h. absurd (cc)), (λ (s, e). absurd (cc)))

is_dict_iff : (value : Tree) → (is_dict value ≡ true) ↔ IsObject value
is_dict_iff (dict fs) = ((λ h. (fs, refl)), (λ p. refl))
is_dict_iff null = ((λ h. absurd (cc)), (λ (s, e). absurd (cc)))
is_dict_iff (text t) = ((λ h. absurd (cc)), (λ (s, e). absurd (cc)))
is_dict_iff (scalar type bits) = ((λ h. absurd (cc)), (λ (s, e). absurd (cc)))
is_dict_iff (list ts) = ((λ h. absurd (cc)), (λ (s, e). absurd (cc)))
is_dict_iff (bool b) = ((λ h. absurd (cc)), (λ (s, e). absurd (cc)))

is_list_iff : (value : Tree) → (is_list value ≡ true) ↔ IsArray value
is_list_iff (list ts) = ((λ h. (ts, refl)), (λ p. refl))
is_list_iff null = ((λ h. absurd (cc)), (λ (s, e). absurd (cc)))
is_list_iff (text t) = ((λ h. absurd (cc)), (λ (s, e). absurd (cc)))
is_list_iff (scalar type bits) = ((λ h. absurd (cc)), (λ (s, e). absurd (cc)))
is_list_iff (dict fs) = ((λ h. absurd (cc)), (λ (s, e). absurd (cc)))
is_list_iff (bool b) = ((λ h. absurd (cc)), (λ (s, e). absurd (cc)))

is_one_of-In : (xs : List String) (s : String) → is_one_of xs s ≡ true → In s xs
unfolding is_one_of
is_one_of-In [] s h = absurd (ground arith)
is_one_of-In (y ∷ xs) s h = elim (Bool-cases (y == s)) [
  | inl e ↦ inl (sym ((eq_iff y s).0 e))
  | inr e ↦ inr (is_one_of-In xs s (rw e at h))
]

In-is_one_of : (xs : List String) (s : String) → In s xs → is_one_of xs s ≡ true
unfolding is_one_of
In-is_one_of [] s m = elim m [ ]
In-is_one_of (y ∷ xs) s (inl e) = ground (arith, eq_iff y s, sym e)
In-is_one_of (y ∷ xs) s (inr m) = ground (arith, In-is_one_of xs s m)

-- What a tree says of the type and bits of a number.
abbrev Meant : Lexis → Tree → Type 0
Meant x (scalar type bits) =
    In type integer_types ⊎ (In type float_types × (x.is_whole type bits ≡ true))
Meant x _ = Unit

scalar-type : {t u : String} {b c : ℕ} → scalar t b ≡ scalar u c → t ≡ u
scalar-type e = cc

is_numeric_iff : (value : Tree) → (is_numeric value ≡ true) ↔ IsNumber value
unfolding is_numeric
is_numeric_iff (scalar type bits) = (
  (λ h. elim (Bool-cases (is_one_of integer_types type)) [
    | inl e ↦ (type, bits, refl, inl (is_one_of-In integer_types type e))
    | inr e ↦ (type, bits, refl, inr (is_one_of-In float_types type (rw e at h)))
  ]),
  (λ (t, b, same, m).
      let at_ = scalar-type same in
      elim (subst (λ (s : String). In s integer_types ⊎ In s float_types) (sym at_) m) [
        | inl i ↦ let e = In-is_one_of integer_types type i in ground (arith, e)
        | inr f ↦ let e = In-is_one_of float_types type f in ground (arith, e)
      ]),
)
is_numeric_iff null = ((λ h. absurd (cc)), (λ (t, b, e, m). absurd (cc)))
is_numeric_iff (text s) = ((λ h. absurd (cc)), (λ (t, b, e, m). absurd (cc)))
is_numeric_iff (bool c) = ((λ h. absurd (cc)), (λ (t, b, e, m). absurd (cc)))
is_numeric_iff (list ts) = ((λ h. absurd (cc)), (λ (t, b, e, m). absurd (cc)))
is_numeric_iff (dict fs) = ((λ h. absurd (cc)), (λ (t, b, e, m). absurd (cc)))

is_integer_iff : (x : Lexis) (value : Tree) → (is_integer x value ≡ true) ↔ IsInteger x value
unfolding is_integer
is_integer_iff x (scalar type bits) = (
  (λ h. elim (Bool-cases (is_one_of integer_types type)) [
    | inl e ↦ (type, bits, refl, inl (is_one_of-In integer_types type e))
    | inr e ↦ elim (Bool-cases (is_one_of float_types type)) [
      | inl f ↦ (type, bits, refl, inr (is_one_of-In float_types type f, rw (e, f) at h))
      | inr f ↦ absurd (let refused = rw (e, f) at h in cc)
    ]
  ]),
  (λ (t, b, same, m).
      let number : In type integer_types ⊎ (In type float_types × (x.is_whole type bits ≡ true)) =
        subst (λ (v : Tree). Meant x v) (sym same) m in
      elim number [
        | inl i ↦ rw (In-is_one_of integer_types type i) refl
        | inr (f, whole) ↦
            if-case (λ (c : Bool). c ≡ true) (is_one_of integer_types type) refl
              (rw (In-is_one_of float_types type f) whole)
      ]),
)
is_integer_iff x null = ((λ h. absurd (cc)), (λ (t, b, e, m). absurd (cc)))
is_integer_iff x (text s) = ((λ h. absurd (cc)), (λ (t, b, e, m). absurd (cc)))
is_integer_iff x (bool c) = ((λ h. absurd (cc)), (λ (t, b, e, m). absurd (cc)))
is_integer_iff x (list ts) = ((λ h. absurd (cc)), (λ (t, b, e, m). absurd (cc)))
is_integer_iff x (dict fs) = ((λ h. absurd (cc)), (λ (t, b, e, m). absurd (cc)))

-- Where the name is known, the test is the one for this name.
named :
    (x : Lexis) (value : Tree) (name known : String)
    → name ≡ known
    → matches_type x value name ≡ true
    → matches_type x value known ≡ true
named x value name known e h = subst (λ (n : String). matches_type x value n ≡ true) e h

pub matches_type_iff :
    (x : Lexis) (value : Tree) (name : String)
    → (matches_type x value name ≡ true) ↔ HasType x value name
unfolding matches_type
matches_type_iff x value name = (
  (λ h. (
    (λ e. (is_text_iff value).0 (named x value name "string" e h)),
    (λ e. (is_integer_iff x value).0 (named x value name "integer" e h)),
    (λ e. (is_numeric_iff value).0 (named x value name "number" e h)),
    (λ e. (is_bool_iff value).0 (named x value name "boolean" e h)),
    (λ e. (is_dict_iff value).0 (named x value name "object" e h)),
    (λ e. (is_list_iff value).0 (named x value name "array" e h)),
  )),
  (λ (s, i, n, b, o, a).
      let P = λ (c : Bool). c ≡ true in
      if-cases P (name == "string") (λ e. (is_text_iff value).1 (s ((eq_iff name "string").0 e)))
        (λ s'.
          if-cases P (name == "integer")
            (λ e. (is_integer_iff x value).1 (i ((eq_iff name "integer").0 e)))
            (λ i'.
              if-cases P (name == "number")
                (λ e. (is_numeric_iff value).1 (n ((eq_iff name "number").0 e)))
                (λ n'.
                  if-cases P (name == "boolean")
                    (λ e. (is_bool_iff value).1 (b ((eq_iff name "boolean").0 e)))
                    (λ b'.
                      if-cases P (name == "object")
                        (λ e. (is_dict_iff value).1 (o ((eq_iff name "object").0 e)))
                        (λ o'.
                          if-cases P (name == "array")
                            (λ e. (is_list_iff value).1 (a ((eq_iff name "array").0 e)))
                            (λ a'. refl))))))),
)
