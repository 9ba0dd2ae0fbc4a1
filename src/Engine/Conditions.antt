-- ===== src/Engine/Conditions.antt =====
-- core/flowengine/control_nodes.go: the rules of condition nodes, and comparison of values.
use Prim.Native.Nat.{Ordering}
use Prim.Native.String.{compare}
use flowanything.Common.{
  ℕ, suc, zero, String, Bool, true, false, not, ◌&&◌, ◌||◌, Option, none, some, List, [], ◌∷◌, ◌==◌,
  eqb, length, if◌then◌else◌, Outcome, ok, err, contains_text,
}
use flowanything.Common.Assoc.{lookup}
use flowanything.Engine.Values.{
  Value, Values, null, bool, num, json_number, str, dict, list, strs, bools, wait, nil, cons,
  Entries, Error, not_comparable,
}
use flowanything.Engine.Heap.{Heap, entries}
use flowanything.Engine.Spec.{ValueSource, ContextWrite}

pub record ConditionRule : Type 0 where
  pub left : ValueSource
  pub operator : String
  pub right : ValueSource
  pub negate : Bool

pub record ConditionBranch : Type 0 where
  pub name : String
  pub mode : String
  pub rules : List ConditionRule
  pub next_node_ids : List String
  pub output : Option ℕ
  pub context_writes : List ContextWrite

pub record ConditionConfig : Type 0 where
  pub branches : List ConditionBranch
  pub default_next_node_ids : List String
  pub default_output : Option ℕ
  pub default_writes : List ContextWrite

-- What is not code of this repository: float64 as `F`, with the conversion of a Go number of a named
-- type, strconv.ParseFloat and the comparisons; reflect.DeepEqual on two numbers of one type;
-- fmt.Sprint; the JSON decoding of a condition node's configuration, which makes new maps. `depth` is
-- how deep reflect.DeepEqual looks: what is nested deeper counts as equal, as a pair of maps that it
-- meets again does in Go.
pub record Host (F : Type 0) : Type 0 where
  pub of_num : String → ℕ → Option F
  pub parse_float : String → Option F
  pub equal : F → F → Bool
  pub less : F → F → Bool
  pub less_eq : F → F → Bool
  pub same_num : String → ℕ → ℕ → Bool
  pub sprint : Value → Heap → String
  pub decode_condition : ℕ → Heap → Outcome Error ConditionConfig × Heap
  pub depth : ℕ

-- Go's order of strings is by bytes, which for UTF-8 is that of code points.
unfoldable pub string_less : String → String → Bool
string_less a b = elim (compare a b) [ Ordering.lt ↦ true | _ ↦ false ]

unfoldable pub string_less_eq : String → String → Bool
string_less_eq a b = elim (compare a b) [ Ordering.gt ↦ false | _ ↦ true ]

-- The loops of reflect.DeepEqual, for the comparison of two elements.
equal_values : (Value → Value → Bool) → Values → Values → Bool
equal_values eq nil nil = true
equal_values eq (cons x xs) (cons y ys) = let rest = equal_values eq xs ys in eq x y && rest
equal_values eq nil (cons y ys) = false
equal_values eq (cons x xs) nil = false

equal_found : (Value → Value → Bool) → Value → Option Value → Bool
equal_found eq v none = false
equal_found eq v (some w) = eq v w

equal_entries : (Value → Value → Bool) → Entries → Entries → Bool
unfolding equal_found
equal_entries eq [] other = true
equal_entries eq (e ∷ es) other =
    let rest = equal_entries eq es other in equal_found eq e.1 (lookup e.0 other) && rest

equal_strings : List String → List String → Bool
equal_strings [] [] = true
equal_strings (x ∷ xs) (y ∷ ys) = let rest = equal_strings xs ys in x == y && rest
equal_strings [] (y ∷ ys) = false
equal_strings (x ∷ xs) [] = false

equal_flags : Bool → Option Bool → Bool
equal_flags true (some true) = true
equal_flags false (some false) = true
equal_flags _ _ = false

equal_bools : List (String × Bool) → List (String × Bool) → Bool
unfolding equal_flags
equal_bools [] other = true
equal_bools (e ∷ es) other =
    let rest = equal_bools es other in equal_flags e.1 (lookup e.0 other) && rest

equal_maps : (Value → Value → Bool) → Option ℕ → Option ℕ → Heap → Bool
unfolding equal_entries entries
equal_maps eq none none h = true
equal_maps eq (some a) (some b) h =
    eqb a b
    || (eqb (length (h.cell a)) (length (h.cell b)) && equal_entries eq (h.cell a) (h.cell b))
equal_maps eq none (some b) h = false
equal_maps eq (some a) none h = false

module _ {F : Type 0} (host : Host F) where
  -- reflect.DeepEqual
  unfoldable pub deep_equal : ℕ → Heap → Value → Value → Bool
  unfolding equal_values equal_maps equal_strings equal_bools equal_flags
  deep_equal zero h v w = true
  deep_equal (suc n) h null null = true
  deep_equal (suc n) h (bool a) (bool b) = equal_flags a (some b)
  deep_equal (suc n) h (num s a) (num t b) = s == t && host.same_num s a b
  deep_equal (suc n) h (json_number a) (json_number b) = a == b
  deep_equal (suc n) h (str a) (str b) = a == b
  deep_equal (suc n) h (dict a) (dict b) = equal_maps (deep_equal n h) a b h
  deep_equal (suc n) h (list a) (list b) = equal_values (deep_equal n h) a b
  deep_equal (suc n) h (strs a) (strs b) = equal_strings a b
  deep_equal (suc n) h (bools a) (bools b) = eqb (length a) (length b) && equal_bools a b
  deep_equal (suc n) h (wait a b) (wait c d) = a == c && b == d
  deep_equal (suc n) h _ _ = false

  -- numberValue
  unfoldable pub number_value : Value → Option F
  number_value (num t bits) = host.of_num t bits
  number_value (json_number s) = host.parse_float s
  number_value (str s) = host.parse_float s
  number_value _ = none

  -- valuesEqual, by what numberValue gives
  unfoldable pub values_equal_by : Option F → Option F → Heap → Value → Value → Bool
  unfolding deep_equal
  values_equal_by (some x) (some y) h v w = host.equal x y
  values_equal_by (some x) none h v w = deep_equal host.depth h v w
  values_equal_by none y h v w = deep_equal host.depth h v w

  unfoldable pub values_equal : Heap → Value → Value → Bool
  unfolding values_equal_by number_value
  values_equal h v w = values_equal_by (number_value v) (number_value w) h v w

  -- The two `switch`es of compareOrdered.
  unfoldable pub by_order : {A : Type 0} → (A → A → Bool) → (A → A → Bool) → A → A → String → Bool
  by_order less less_eq a b op =
      if op == "gt"
      then less b a
      else if op == "gte"
      then less_eq b a
      else if op == "lt"
      then less a b
      else less_eq a b

  unfoldable pub compare_strings : Value → Value → String → Outcome Error Bool
  unfolding by_order string_less string_less_eq
  compare_strings (str a) (str b) op = ok (by_order string_less string_less_eq a b op)
  compare_strings _ _ op = err (not_comparable op)

  unfoldable pub compare_by : Option F → Option F → Value → Value → String → Outcome Error Bool
  unfolding by_order compare_strings
  compare_by (some x) (some y) v w op = ok (by_order host.less host.less_eq x y op)
  compare_by (some x) none v w op = compare_strings v w op
  compare_by none y v w op = compare_strings v w op

  -- compareOrdered, for one of the four operators
  unfoldable pub compare_ordered : Value → Value → String → Outcome Error Bool
  unfolding compare_by number_value
  compare_ordered v w op = compare_by (number_value v) (number_value w) v w op

  any_value : Heap → Values → Value → Bool
  unfolding values_equal
  any_value h nil v = false
  any_value h (cons x xs) v = let rest = any_value h xs v in values_equal h x v || rest

  any_string : Heap → List String → Value → Bool
  unfolding values_equal
  any_string h [] v = false
  any_string h (x ∷ xs) v = let rest = any_string h xs v in values_equal h (str x) v || rest

  -- containsValue
  unfoldable pub contains_value : Heap → Value → Value → Bool
  unfolding any_value any_string contains_text
  contains_value h (str s) v = contains_text s (host.sprint v h)
  contains_value h (list vs) v = any_value h vs v
  contains_value h (strs ss) v = any_string h ss v
  contains_value h _ v = false

  -- isEmptyValue
  unfoldable pub is_empty_value : Heap → Value → Bool
  unfolding entries
  is_empty_value h null = true
  is_empty_value h (str s) = s == ""
  is_empty_value h (list nil) = true
  is_empty_value h (dict d) = eqb (length (entries d h)) 0
  is_empty_value h (strs ss) = eqb (length ss) 0
  is_empty_value h (bools bs) = eqb (length bs) 0
  is_empty_value h (bool b) = not b
  is_empty_value h _ = false
