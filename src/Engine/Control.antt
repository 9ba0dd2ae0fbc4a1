-- ===== src/Engine/Control.antt =====
-- core/flowengine/control_nodes.go: branches of condition nodes, and the control node executors.
pub mod Branches
use flowanything.Common.{
  ℕ, suc, zero, ◌+◌, String, Bool, true, false, not, ◌&&◌, ◌||◌, Option, none, some, List, [], ◌∷◌,
  ◌==◌, eqb, length, if◌then◌else◌, Outcome, ok, err, panic, ◌>>=◌, map_err,
}
use flowanything.Common.Assoc.{insert}
use flowanything.Engine.Values.{
  Value, null, bool, str, Entries, Error, condition_config_required, condition_branch_required,
  branch_name_required, branch_mode_unknown, rule_operator_required, operator_unknown,
  evaluate_branch, apply_branch, apply_default, control_unsupported, wait_needs_stateful,
  registry_nil,
}
use flowanything.Engine.Heap.{Heap, alloc, entries}
use flowanything.Engine.Context.{DataContext, read}
use flowanything.Engine.Spec.{ValueSource, NodeSpec, NodeRequest, NodeResult, ContextWrite}
use flowanything.Engine.Mapping.{resolve_value, apply_context_writes}
use flowanything.Engine.Registry.{NodeExecutor, Registry, new_registry, register}
use flowanything.Engine.Conditions.{
  ConditionRule, ConditionBranch, ConditionConfig, Host, values_equal, compare_ordered,
  contains_value, is_empty_value,
}

-- The source's type, with the default for an empty one.
unfoldable pub source_type : ValueSource → String
source_type s = if s.type == "" then (if s.path == "" then "const" else "context") else s.type

-- A value, or nil, and whether it was found
abbrev pub Resolved : Type 0
Resolved = Value × Bool

abbrev pub or_nil : Option Value → Resolved
or_nil none = (null, false)
or_nil (some v) = (v, true)

-- resolveConditionValue
unfoldable pub resolve_condition_value : DataContext → ValueSource → Heap → Outcome Error Resolved
unfolding source_type read resolve_value
resolve_condition_value c s h =
    if source_type s == "const"
    then ok (s.value, true)
    else if source_type s == "context"
    then ok (or_nil (read c s.path h))
    else resolve_value c none (record s { type = source_type s }) h >>= λ (v : Value). ok (v, true)

module _ {F : Type 0} (host : Host F) where
  -- The second `switch` of evaluateConditionRule.
  unfoldable pub compare_values : String → Value → Value → Heap → Outcome Error Bool
  unfolding values_equal compare_ordered contains_value
  compare_values op left right h =
      if op == "eq"
      then ok (values_equal host h left right)
      else if op == "neq"
      then ok (not (values_equal host h left right))
      else if op == "gt" || op == "gte" || op == "lt" || op == "lte"
      then compare_ordered host left right op
      else if op == "contains"
      then ok (contains_value host h left right)
      else if op == "in"
      then ok (contains_value host h right left)
      else err (operator_unknown op)

  -- evaluateConditionRule after its left side
  unfoldable pub evaluate_with : DataContext → ConditionRule → Heap → Resolved → Outcome Error Bool
  unfolding compare_values is_empty_value resolve_condition_value
  evaluate_with c r h (left, found) =
      if r.operator == "exists"
      then ok found
      else if r.operator == "not_exists"
      then ok (not found)
      else if r.operator == "empty"
      then ok (is_empty_value host h left)
      else if r.operator == "not_empty"
      then ok (not (is_empty_value host h left))
      else if found
      then (resolve_condition_value c r.right h >>= λ (right : Resolved).
          compare_values r.operator left right.0 h)
      else ok false

  -- evaluateConditionRule
  unfoldable pub evaluate_condition_rule : DataContext → ConditionRule → Heap → Outcome Error Bool
  unfolding evaluate_with resolve_condition_value
  evaluate_condition_rule c r h =
      resolve_condition_value c r.left h >>= λ (left : Resolved). evaluate_with c r h left

  abbrev pub mode_of : ConditionBranch → String
  mode_of b = if b.mode == "" then "all" else b.mode

  -- The matched rule, negated if the rule says so
  abbrev pub negated : ConditionRule → Bool → Bool
  negated r matched = if r.negate then not matched else matched

  -- The loop of evaluateConditionBranch
  unfoldable pub evaluate_rules :
      DataContext → String → List ConditionRule → Bool → Heap → Outcome Error Bool
  unfolding evaluate_condition_rule
  evaluate_rules c mode [] matched_any h = ok matched_any
  evaluate_rules c mode (r ∷ rs) matched_any h = evaluate_condition_rule c r h >>= λ (found : Bool).
      let matched = negated r found in
      let rest = evaluate_rules c mode rs (matched_any || matched) h in
      if mode == "any" && matched
      then ok true
      else if mode == "all" && not matched
      then ok false
      else rest

  -- evaluateConditionBranch, for its mode; a branch without rules matches
  unfoldable pub evaluate_in : DataContext → String → List ConditionRule → Heap → Outcome Error Bool
  unfolding evaluate_rules
  evaluate_in c mode [] h = ok true
  evaluate_in c mode (r ∷ rs) h = evaluate_rules c mode (r ∷ rs) false h

  -- evaluateConditionBranch
  unfoldable pub evaluate_condition_branch :
      DataContext → ConditionBranch → Heap → Outcome Error Bool
  unfolding evaluate_in
  evaluate_condition_branch c b h = evaluate_in c (mode_of b) b.rules h

  -- for key, value := range extra { output[key] = value }
  unfoldable pub put_all : Entries → Entries → Entries
  put_all [] out = out
  put_all (e ∷ es) out = put_all es (insert e.0 e.1 out)

  -- conditionOutput, as the entries of its new map
  unfoldable pub condition_output : Bool → String → Option ℕ → Heap → Entries
  unfolding put_all entries
  condition_output matched name extra h =
      put_all (entries extra h) (("matched", bool matched) ∷ ("branch", str name) ∷ [])

  -- The end of Execute for a branch, or for none: the writes, and the result.
  written_result :
      (Error → Error) → Option ℕ → List String → Outcome Error (Unit {0}) → Outcome Error NodeResult
  written_result wrap output nexts (ok _) =
      ok (record { output = output; next_node_ids = some nexts })
  written_result wrap output nexts (err e) = err (wrap e)
  written_result wrap output nexts panic = panic

  unfoldable pub take_branch :
      (Error → Error)
      → DataContext
      → Entries
      → List ContextWrite
      → List String
      → Heap
      → Outcome Error NodeResult × Heap
  unfolding written_result apply_context_writes
  take_branch wrap c output writes nexts h =
      let out = some h.next in
      let (written, h') = apply_context_writes c out writes (alloc output h) in
      (written_result wrap out nexts written, h')

  -- The loop over the branches.
  unfoldable pub execute_branches :
      DataContext → ConditionConfig → List ConditionBranch → Heap → Outcome Error NodeResult × Heap
  unfolding evaluate_condition_branch take_branch condition_output
  execute_branches c config [] h =
      take_branch apply_default c (condition_output false "" config.default_output h)
        config.default_writes config.default_next_node_ids h
  execute_branches c config (b ∷ bs) h = elim (evaluate_condition_branch c b h) [
    | ok true ↦
        take_branch (apply_branch b.name) c (condition_output true b.name b.output h)
          b.context_writes b.next_node_ids h
    | ok false ↦ execute_branches c config bs h
    | err e ↦ (err (evaluate_branch b.name e), h)
    | panic ↦ (panic, h)
  ]

  -- decodeConditionConfig
  unfoldable pub decode_condition_config : Option ℕ → Heap → Outcome Error ConditionConfig × Heap
  decode_condition_config none h = (err condition_config_required, h)
  decode_condition_config (some d) h = host.decode_condition d h

  execute_config :
      DataContext → Outcome Error ConditionConfig × Heap → Outcome Error NodeResult × Heap
  unfolding execute_branches
  execute_config c (ok config, h) = execute_branches c config config.branches h
  execute_config c (err e, h) = (err e, h)
  execute_config c (panic, h) = (panic, h)

  -- ConditionNodeExecutor.Execute
  unfoldable pub execute_condition : NodeRequest → Heap → Outcome Error NodeResult × Heap
  unfolding execute_config decode_condition_config
  execute_condition request h =
      execute_config request.context (decode_condition_config request.node.config h)

  unfoldable pub validate_rules : String → ℕ → List ConditionRule → Option Error
  validate_rules name i [] = none
  validate_rules name i (r ∷ rs) =
      let rest = validate_rules name (suc i) rs in
      if r.operator == "" then some (rule_operator_required name i) else rest

  -- The check of one branch, with its index.
  unfoldable pub validate_branch : ℕ → ConditionBranch → Option Error
  unfolding validate_rules
  validate_branch i b =
      if b.name == ""
      then some (branch_name_required i)
      else if mode_of b == "all" || mode_of b == "any"
      then validate_rules b.name 0 b.rules
      else some (branch_mode_unknown b.name b.mode)

  unfoldable pub validate_branches : ℕ → List ConditionBranch → Option Error
  unfolding validate_branch
  validate_branches i [] = none
  validate_branches i (b ∷ bs) =
      let rest = validate_branches (suc i) bs in
      elim (validate_branch i b) [ some e ↦ some e | none ↦ rest ]

  validate_config : Outcome Error ConditionConfig → Option Error
  unfolding validate_branches
  validate_config (ok config) =
      if eqb (length config.branches) 0 && eqb (length config.default_next_node_ids) 0
      then some condition_branch_required
      else validate_branches 0 config.branches
  validate_config (err e) = some e
  validate_config panic = none

  -- ConditionNodeExecutor.Validate
  unfoldable pub validate_condition : NodeSpec → Heap → Option Error
  unfolding validate_config decode_condition_config
  validate_condition node h = validate_config (decode_condition_config node.config h).0

  -- ConditionNodeExecutor
  abbrev pub condition_node_executor : NodeExecutor
  condition_node_executor = record {
    type = "control.condition";
    validate = validate_condition;
    execute = execute_condition;
  }

-- ControlNodeExecutor.Validate
unfoldable pub validate_control : String → Option Error
validate_control type =
    if type == "control.start"
      || type == "control.noop"
      || type == "control.end"
      || type == "control.wait"
      || type == "control.parallel"
      || type == "control.join"
    then none
    else some (control_unsupported type)

-- ControlNodeExecutor.Execute
unfoldable pub execute_control : String → NodeRequest → Heap → Outcome Error NodeResult × Heap
execute_control type request h =
    let output : Entries =
      ("node_id", str request.node.id) ∷ ("node_type", str request.node.type) ∷ [] in
    let h' = alloc output h in
    if type == "control.end"
    then (ok (record { output = some h.next; next_node_ids = some [] }), h')
    else if type == "control.wait"
    then (err wait_needs_stateful, h')
    else (ok (record { output = some h.next; next_node_ids = none }), h')

-- ControlNodeExecutor
abbrev pub control_node_executor : String → NodeExecutor
control_node_executor type = record {
  type = type;
  validate = λ node h. validate_control type;
  execute = execute_control type;
}

-- The loop of RegisterControlNodes.
unfoldable pub register_all : List NodeExecutor → Registry → Outcome Error Registry
unfolding register
register_all [] r = ok r
register_all (e ∷ es) r = register (some e) r >>= λ (r' : Registry). register_all es r'

module _ {F : Type 0} (host : Host F) where
  abbrev pub control_nodes : List NodeExecutor
  control_nodes =
      control_node_executor "control.start"
      ∷ control_node_executor "control.noop"
      ∷ control_node_executor "control.end"
      ∷ control_node_executor "control.wait"
      ∷ control_node_executor "control.parallel"
      ∷ control_node_executor "control.join"
      ∷ condition_node_executor host
      ∷ []

  -- RegisterControlNodes
  unfoldable pub register_control_nodes : Option Registry → Outcome Error Registry
  unfolding register_all
  register_control_nodes none = err registry_nil
  register_control_nodes (some r) = register_all control_nodes r

  -- NewDefaultRegistry, where an error would be dropped
  unfoldable pub registry_or : Registry → Outcome Error Registry → Registry
  registry_or r (ok r') = r'
  registry_or r (err e) = r
  registry_or r panic = r

  unfoldable pub new_default_registry : Registry
  unfolding registry_or register_control_nodes
  new_default_registry = registry_or new_registry (register_control_nodes (some new_registry))
