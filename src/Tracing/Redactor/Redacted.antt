-- ===== src/Tracing/Redactor/Redacted.antt =====
-- core/trace/redactor.go: what RedactMap leaves, and what it keeps.
use flowanything.Common.{
  String, ◌≡◌, refl, sym, ap, ◌∙◌, Bool, true, false, List, [], ◌∷◌, if-case, if◌then◌else◌,
}
use flowanything.Workflow.Values.{
  Tree, null, bool, scalar, text, list, dict, Trees, nil, cons, Fields, empty, entry,
}
use flowanything.Tracing.Redactor.{
  FieldRedactor, is_sensitive, replacement_of, redact_value, redact_list, redact_map,
}

-- Under a sensitive key, at any depth, stands the replacement.
abbrev mutual
  pub IsClean : FieldRedactor → Tree → Type 0
  IsClean r null = Unit
  IsClean r (bool b) = Unit
  IsClean r (scalar type bits) = Unit
  IsClean r (text s) = Unit
  IsClean r (list ts) = AreClean r ts
  IsClean r (dict fs) = IsCleanMap r fs

  pub AreClean : FieldRedactor → Trees → Type 0
  AreClean r nil = Unit
  AreClean r (cons t ts) = IsClean r t × AreClean r ts

  pub IsCleanMap : FieldRedactor → Fields → Type 0
  IsCleanMap r empty = Unit
  IsCleanMap r (entry key value fs) =
      (is_sensitive r key ≡ true → value ≡ text (replacement_of r))
      × IsClean r value
      × IsCleanMap r fs

-- The keys of a map, in order.
abbrev pub names : Fields → List String
names empty = []
names (entry key value fs) = key ∷ names fs

names-redact_map : (r : FieldRedactor) (fs : Fields) → names (redact_map r fs) ≡ names fs
unfolding redact_map
names-redact_map r empty = refl
names-redact_map r (entry key value fs) =
    ap (λ (ks : List String). key ∷ ks) (names-redact_map r fs)

-- A value under a key: the replacement, or a value that is clean.
replaced :
    (r : FieldRedactor) (b : Bool) (t : Tree)
    → b ≡ true
    → (if b then text (replacement_of r) else t) ≡ text (replacement_of r)
replaced r b t e = rw e refl

-- Redaction gives clean values.
mutual
  unfolding redact_value

  redact_value-IsClean : (r : FieldRedactor) (t : Tree) → IsClean r (redact_value r t)
  redact_value-IsClean r null = tt
  redact_value-IsClean r (bool b) = tt
  redact_value-IsClean r (scalar type bits) = tt
  redact_value-IsClean r (text s) = tt
  redact_value-IsClean r (list ts) = redact_list-AreClean r ts
  redact_value-IsClean r (dict fs) = redact_map-IsCleanMap r fs

  redact_list-AreClean : (r : FieldRedactor) (ts : Trees) → AreClean r (redact_list r ts)
  redact_list-AreClean r nil = tt
  redact_list-AreClean r (cons t ts) = (redact_value-IsClean r t, redact_list-AreClean r ts)

  redact_map-IsCleanMap : (r : FieldRedactor) (fs : Fields) → IsCleanMap r (redact_map r fs)
  redact_map-IsCleanMap r empty = tt
  redact_map-IsCleanMap r (entry key value fs) = (
    (λ e. replaced r (is_sensitive r key) (redact_value r value) e),
    if-case (IsClean r) (is_sensitive r key) tt (redact_value-IsClean r value),
    redact_map-IsCleanMap r fs,
  )

-- What is clean is left as it is.
kept_under :
    (r : FieldRedactor) (b : Bool) (t u : Tree)
    → (b ≡ true → t ≡ text (replacement_of r))
    → u ≡ t
    → (if b then text (replacement_of r) else u) ≡ t
kept_under r true t u clean same = sym (clean refl)
kept_under r false t u clean same = same

mutual
  unfolding redact_value

  redact_value-clean : (r : FieldRedactor) (t : Tree) → IsClean r t → redact_value r t ≡ t
  redact_value-clean r null clean = refl
  redact_value-clean r (bool b) clean = refl
  redact_value-clean r (scalar type bits) clean = refl
  redact_value-clean r (text s) clean = refl
  redact_value-clean r (list ts) clean = ap list (redact_list-clean r ts clean)
  redact_value-clean r (dict fs) clean = ap dict (redact_map-clean r fs clean)

  redact_list-clean : (r : FieldRedactor) (ts : Trees) → AreClean r ts → redact_list r ts ≡ ts
  redact_list-clean r nil clean = refl
  redact_list-clean r (cons t ts) (first, rest) =
      ap (λ (u : Tree). cons u (redact_list r ts)) (redact_value-clean r t first)
      ∙ ap (λ (us : Trees). cons t us) (redact_list-clean r ts rest)

  redact_map-clean : (r : FieldRedactor) (fs : Fields) → IsCleanMap r fs → redact_map r fs ≡ fs
  redact_map-clean r empty clean = refl
  redact_map-clean r (entry key value fs) (here, inside, rest) =
      ap (λ (u : Tree). entry key u (redact_map r fs))
        (kept_under r (is_sensitive r key) value (redact_value r value) here
          (redact_value-clean r value inside))
      ∙ ap (λ (us : Fields). entry key value us) (redact_map-clean r fs rest)

-- RedactMap keeps the keys of a map; under each sensitive key, at every depth of maps and slices, its
-- result holds the replacement; it changes no map of which this is true already, and so nothing when it
-- is applied again.
pub redact_map-Redacts :
    (r : FieldRedactor) (fs : Fields)
    → (names (redact_map r fs) ≡ names fs)
      × IsCleanMap r (redact_map r fs)
      × (IsCleanMap r fs → redact_map r fs ≡ fs)
      × (redact_map r (redact_map r fs) ≡ redact_map r fs)
redact_map-Redacts r fs = (
  names-redact_map r fs,
  redact_map-IsCleanMap r fs,
  redact_map-clean r fs,
  redact_map-clean r (redact_map r fs) (redact_map-IsCleanMap r fs),
)
