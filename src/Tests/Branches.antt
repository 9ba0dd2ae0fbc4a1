-- ===== src/Tests/Branches.antt =====
-- Condition branches, with natural numbers in place of floating-point numbers.
use flowanything.Common.{
  ℕ, String, true, false, ◌≡◌, refl, ◌↔◌, inr, none, some, [], ◌∷◌, ltb, leb, eqb, ok, err,
}
use flowanything.Engine.Values.{num, condition_config_required}
use flowanything.Engine.Context.{DataContext}
use flowanything.Engine.Spec.{ValueSource}
use flowanything.Engine.Conditions.{ConditionRule, ConditionBranch, Host}
use flowanything.Engine.Control.{evaluate_condition_branch}
use flowanything.Engine.Control.Branches.{Matches, evaluate_condition_branch-Matches}
use flowanything.Tests.Samples.{empty_heap}

abbrev counting : Host ℕ
counting = record {
  of_num = λ type bits. some bits;
  parse_float = λ s. none;
  equal = eqb;
  less = ltb;
  less_eq = leb;
  same_num = λ type a b. eqb a b;
  sprint = λ v h. "";
  decode_condition = λ d h. (err condition_config_required, h);
  depth = 5;
}

abbrev constant : ℕ → ValueSource
constant n = record { type = "const"; path = ""; value = num "int" n }

abbrev compare_to : String → ℕ → ℕ → ConditionRule
compare_to op a b = record { left = constant a; operator = op; right = constant b; negate = false }

abbrev no_context : DataContext
no_context = record { flow_input = none; flow_output = none; variables = none; node_context = none }

abbrev branch : String → ConditionBranch
branch mode = record {
  name = "big";
  mode = mode;
  rules = compare_to "lt" 1 2 ∷ compare_to "gt" 1 2 ∷ [];
  next_node_ids = "z" ∷ [];
  output = none;
  context_writes = [];
}

one_fails : evaluate_condition_branch counting no_context (branch "") empty_heap ≡ ok false
unfolding evaluate_condition_branch
one_fails = refl

one_holds : evaluate_condition_branch counting no_context (branch "any") empty_heap ≡ ok true
unfolding evaluate_condition_branch
one_holds = refl

evaluate_condition_branch-Matches_example :
    evaluate_condition_branch counting no_context (branch "any") empty_heap ≡ ok true
    ↔ Matches counting no_context empty_heap (branch "any")
evaluate_condition_branch-Matches_example =
    evaluate_condition_branch-Matches counting no_context empty_heap (branch "any") (inr refl)
