-- ===== src/Arguments/Allowed.antt =====
-- internal/agentruntime/domain/input_schema.go: the values that the enum of a property allows.
use flowanything.Common.{
  ◌≡◌, ◌≢◌, refl, sym, subst, ◌⊎◌, inl, inr, ◌↔◌, true, false, Bool-cases, Option, none, some,
  some-eq, ◌==◌, eq_iff, arith,
}
use flowanything.Workflow.Values.{Tree, null, bool, scalar, text, list, dict, Trees, nil, cons}
use flowanything.Arguments.{Lexis, in_enum, enum_allows, present}

-- One of the items prints as the value does.
abbrev pub IsAmong : Lexis → Tree → Trees → Type 0
IsAmong x value nil = ⊥
IsAmong x value (cons item items) = (x.sprint item ≡ x.sprint value) ⊎ IsAmong x value items

-- There is no enum or it is nil, or it is a list and the value is among its items.
abbrev pub IsAllowed : Lexis → Tree → Option Tree → Type 0
IsAllowed x value allowed =
    (allowed ≡ none)
    ⊎ ((allowed ≡ some null)
        ⊎ ((items : Trees) × (allowed ≡ some (list items)) × IsAmong x value items))

in_enum_iff :
    (x : Lexis) (value : Tree) (items : Trees)
    → (in_enum x value items ≡ true) ↔ IsAmong x value items
unfolding in_enum
in_enum_iff x value nil = ((λ h. absurd (ground arith)), (λ m. elim m [ ]))
in_enum_iff x value (cons item items) =
    let rest = in_enum_iff x value items in
    (
      (λ h. elim (Bool-cases (x.sprint item == x.sprint value)) [
        | inl e ↦ inl ((eq_iff (x.sprint item) (x.sprint value)).0 e)
        | inr e ↦ inr (rest.0 (rw e at h))
      ]),
      (λ m. elim m [
        | inl e ↦ ground (arith, (eq_iff (x.sprint item) (x.sprint value)).1 e)
        | inr later ↦ ground (arith, rest.1 later)
      ]),
    )

pub list-items : {ts us : Trees} → some (list ts) ≡ some (list us) → ts ≡ us
list-items e = cc

-- An enum that is there, not nil and no list allows nothing.
no_list-IsAllowed :
    (x : Lexis) (value allowed : Tree)
    → enum_allows x value (present (some allowed)) ≡ false
    → allowed ≢ null
    → ((ts : Trees) → allowed ≢ list ts)
    → (enum_allows x value (present (some allowed)) ≡ true) ↔ IsAllowed x value (some allowed)
no_list-IsAllowed x value allowed refused there no_list = (
  (λ h. absurd (cc)),
  (λ p. elim p [
    | inl e ↦ absurd (cc)
    | inr (inl e) ↦ elim (there (some-eq e)) [ ]
    | inr (inr (ts, e, m)) ↦ elim (no_list ts (some-eq e)) [ ]
  ]),
)

enum_present_iff :
    (x : Lexis) (value allowed : Tree)
    → (enum_allows x value (present (some allowed)) ≡ true) ↔ IsAllowed x value (some allowed)
unfolding in_enum
enum_present_iff x value null = ((λ h. inr (inl refl)), (λ p. refl))
enum_present_iff x value (list items) =
    let among = in_enum_iff x value items in
    (
      (λ h. inr (inr (items, refl, among.0 h))),
      (λ p. elim p [
        | inl e ↦ absurd (cc)
        | inr (inl e) ↦ absurd (cc)
        | inr (inr (ts, e, m)) ↦ among.1 (subst (IsAmong x value) (sym (list-items e)) m)
      ]),
    )
enum_present_iff x value (text s) = no_list-IsAllowed x value (text s) refl (λ e. cc) (λ ts e. cc)
enum_present_iff x value (bool b) = no_list-IsAllowed x value (bool b) refl (λ e. cc) (λ ts e. cc)
enum_present_iff x value (scalar t n) =
    no_list-IsAllowed x value (scalar t n) refl (λ e. cc) (λ ts e. cc)
enum_present_iff x value (dict fs) = no_list-IsAllowed x value (dict fs) refl (λ e. cc) (λ ts e. cc)

pub enum_allows_iff :
    (x : Lexis) (value : Tree) (allowed : Option Tree)
    → (enum_allows x value (present allowed) ≡ true) ↔ IsAllowed x value allowed
enum_allows_iff x value none = ((λ h. inl refl), (λ p. refl))
enum_allows_iff x value (some allowed) = enum_present_iff x value allowed
