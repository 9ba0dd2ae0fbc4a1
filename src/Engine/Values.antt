-- ===== src/Engine/Values.antt =====
-- The Go values that flow through a run, and the errors of core/flowengine.
use flowanything.Common.{ℕ, String, Bool, Option, none, some, List}

-- A value of type `any`. A `map[string]any` is a reference to the heap of Engine/Heap.antt (`none`
-- is the nil map); slices are never written in place by the engine, so they are plain lists.
mutual
  pub data Value : Type 0 where
    null : Value
    bool : Bool → Value
    -- A Go number: the name of its type and its bit pattern.
    num : String → ℕ → Value
    json_number : String → Value
    str : String → Value
    dict : Option ℕ → Value
    list : Values → Value
    strs : List String → Value
    bools : List (String × Bool) → Value
    -- A `WaitCondition`: event type and event key.
    wait : String → String → Value

  pub data Values : Type 0 where
    nil : Values
    cons : Value → Values → Values

abbrev pub Entries : Type 0
Entries = List (String × Value)

-- The errors of core/flowengine, one constructor for each message.
pub data Error : Type 0 where
  write_without_field : String → Error
  input_read_only : Error
  unknown_root : String → Error
  namespace_required namespace_path_required : Error
  input_field_required write_target_required : Error
  resolve_input : String → Error → Error
  resolve_write : String → Error → Error
  context_path_missing output_path_missing : String → Error
  unknown_source : String → Error
  registry_required : Error
  flow_id_required node_id_required : Error
  duplicate_node node_type_missing node_missing : String → Error
  invalid_node : String → Error → Error
  unknown_edge : String → String → Error
  no_source_node : Error
  too_many_executions : ℕ → Error
  executor_nil executor_type_required : Error
  wait_without_condition : Error
  instance_id_required : Error
  instance_exists instance_missing waiting_node_missing : String → Error
  instance_over : String → String → Error
  event_unmatched : String → String → Error
  condition_config_required condition_branch_required : Error
  branch_name_required : ℕ → Error
  branch_mode_unknown : String → String → Error
  rule_operator_required : String → ℕ → Error
  operator_unknown not_comparable : String → Error
  evaluate_branch apply_branch : String → Error → Error
  apply_default : Error → Error
  control_unsupported : String → Error
  wait_needs_stateful registry_nil : Error
  -- An error that a node executor made.
  custom : String → Error

-- asMap, ok := value.(map[string]any)
unfoldable pub as_dict : Option Value → Option (Option ℕ)
as_dict (some (dict d)) = some d
as_dict _ = none
