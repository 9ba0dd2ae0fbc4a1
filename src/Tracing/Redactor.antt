-- ===== src/Tracing/Redactor.antt =====
-- core/trace/redactor.go: sensitive fields are replaced, at every depth.
pub mod Redacted
use flowanything.Common.{
  String, Bool, true, false, ◌||◌, List, [], ◌∷◌, ◌==◌, if◌then◌else◌, contains_text,
}
use flowanything.Workflow.Values.{
  Tree, null, bool, scalar, text, list, dict, Trees, nil, cons, Fields, empty, entry,
}

-- FieldRedactor, with strings.ToLower
pub record FieldRedactor : Type 0 where
  pub sensitive_keys : List String
  pub replacement : String
  pub to_lower : String → String

-- NewDefaultRedactor
abbrev pub new_default_redactor : (String → String) → FieldRedactor
new_default_redactor to_lower = record {
  sensitive_keys =
      "api_key" ∷ "apikey" ∷ "authorization" ∷ "token" ∷ "secret" ∷ "password" ∷ "refresh_token"
      ∷ [];
  replacement = "[redacted]";
  to_lower = to_lower;
}

-- The loop of isSensitive, for a key in lower case.
unfoldable pub names_any : (String → String) → String → List String → Bool
names_any to_lower key [] = false
names_any to_lower key (candidate ∷ candidates) =
    let rest = names_any to_lower key candidates in contains_text key (to_lower candidate) || rest

-- isSensitive
unfoldable pub is_sensitive : FieldRedactor → String → Bool
unfolding names_any
is_sensitive r key = names_any r.to_lower (r.to_lower key) r.sensitive_keys

-- replacement := r.Replacement
abbrev pub replacement_of : FieldRedactor → String
replacement_of r = if r.replacement == "" then "[redacted]" else r.replacement

-- redactValue, its loop over a slice, and RedactMap
unfoldable mutual
  unfolding is_sensitive

  pub redact_value : FieldRedactor → Tree → Tree
  redact_value r null = null
  redact_value r (bool b) = bool b
  redact_value r (scalar type bits) = scalar type bits
  redact_value r (text s) = text s
  redact_value r (list ts) = list (redact_list r ts)
  redact_value r (dict fs) = dict (redact_map r fs)

  pub redact_list : FieldRedactor → Trees → Trees
  redact_list r nil = nil
  redact_list r (cons t ts) = cons (redact_value r t) (redact_list r ts)

  pub redact_map : FieldRedactor → Fields → Fields
  redact_map r empty = empty
  redact_map r (entry key value fs) =
      entry key (if is_sensitive r key then text (replacement_of r) else redact_value r value)
        (redact_map r fs)
