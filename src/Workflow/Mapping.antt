-- ===== src/Workflow/Mapping.antt =====
-- internal/flowengine/mapping.go: the input of a node, and what its output writes.
use flowanything.Common.{
  String, Bool, false, not, ◌||◌, Option, none, some, List, [], ◌∷◌, ◌==◌, if◌then◌else◌, concat,
  trim_space, trim_prefix, split_on, starts,
}
use flowanything.Workflow.Values.{
  Tree, null, text, dict, Fields, empty, entry, get_field, set_field, as_dict,
}
use flowanything.Workflow.Types.{Node, NodeResult}
use flowanything.Workflow.Context.{Lexis, RunContext, read, read_parts}

-- mapConfig
unfoldable pub map_config : Fields → String → Option Fields
map_config config key = as_dict (get_field key config)

abbrev pub trimmed_text : Option Tree → String
trimmed_text (some (text s)) = trim_space s
trimmed_text _ = ""

-- stringFromConfig
unfoldable pub string_from_config : Fields → String → String
string_from_config config key = trimmed_text (get_field key config)

-- firstNonEmptyConfig
unfoldable pub first_non_empty_config : Fields → List String → String
unfolding string_from_config
first_non_empty_config config [] = ""
first_non_empty_config config (key ∷ keys) =
    let rest = first_non_empty_config config keys in
    if string_from_config config key == "" then rest else string_from_config config key

-- readJSONLikePath; `none` as root is the nil map.
unfoldable pub read_json_like_path : Option Fields → String → Option Tree
unfolding read_parts
read_json_like_path none path = none
read_json_like_path (some root) path =
    if trim_space path == "" then some (dict root) else read_parts (dict root) (split_on 46 path)

abbrev pub or_null : Option Tree → Tree
or_null none = null
or_null (some t) = t

-- ◌ == "connector_operation" || ◌ == "tool"
abbrev pub is_call : String → Bool
is_call type = type == "connector_operation" || type == "tool"

module _ (x : Lexis) where
  -- A text without its spaces that starts with "$".
  evaluate_path : String → RunContext → Option Fields → Option Fields → Tree
  unfolding read read_json_like_path
  evaluate_path path c raw output =
      if starts path "$."
      then or_null (read_json_like_path raw (trim_prefix path "$."))
      else if starts path "$output."
      then or_null (read_json_like_path output (trim_prefix path "$output."))
      else or_null (read x path c)

  -- evaluateConfigValue; the error that it returns is nil on every path.
  unfoldable pub evaluate_config_value : Tree → RunContext → Option Fields → Option Fields → Tree
  unfolding evaluate_path
  evaluate_config_value (text s) c raw output =
      if trim_space s == ""
      then text ""
      else if starts (trim_space s) "$"
      then evaluate_path (trim_space s) c raw output
      else text s
  evaluate_config_value source c raw output = source

  -- The loop over a mapping, into a map.
  unfoldable pub evaluate_mapping :
      Fields → RunContext → Option Fields → Option Fields → Fields → Fields
  unfolding evaluate_config_value
  evaluate_mapping empty c raw output target = target
  evaluate_mapping (entry name source fs) c raw output target =
      evaluate_mapping fs c raw output
        (set_field name (evaluate_config_value source c raw output) target)

  -- buildNodeInput
  unfoldable pub build_node_input : Node → RunContext → Fields
  unfolding map_config evaluate_mapping
  build_node_input node c = elim (map_config node.config "input_mapping") [
    | some mapping ↦ evaluate_mapping mapping c none none empty
    | none ↦ elim (map_config node.config "input_mappings") [
      | some mapping ↦ evaluate_mapping mapping c none none empty
      | none ↦ c.input
    ]
  ]

  -- The fields of a response that stand beside its data.
  add_missing : List String → Fields → Fields → Fields
  add_missing [] raw output = output
  add_missing (key ∷ keys) raw output = elim (get_field key output) [
    | some _ ↦ add_missing keys raw output
    | none ↦ elim (get_field key raw) [
      | some value ↦ add_missing keys raw (set_field key value output)
      | none ↦ add_missing keys raw output
    ]
  ]

  add_data : Tree → Fields → Fields
  add_data value payload = elim (get_field "data" payload) [
    | some _ ↦ payload
    | none ↦ set_field "data" value payload
  ]

  payload_of : Tree → Fields → Fields
  unfolding add_data add_missing
  payload_of (dict payload) raw =
      add_missing
        ("request_id" ∷ "call_id" ∷ "tool_id" ∷ "success" ∷ "error_code" ∷ "error_reason"
          ∷ "started_at" ∷ "finished_at" ∷ [])
        raw (add_data (dict payload) payload)
  payload_of value raw = entry "value" value empty

  -- outputForMappings
  unfoldable pub output_for_mappings : Node → Fields → Fields
  unfolding payload_of
  output_for_mappings node raw =
      if is_call node.type
      then elim (get_field "data" raw) [ none ↦ raw | some value ↦ payload_of value raw ]
      else raw

  -- supportsOutputMapping
  abbrev pub supports_output_mapping : String → Bool
  supports_output_mapping type = not (type == "agent")

  mapped_output : Option Fields → RunContext → Fields → Fields
  unfolding evaluate_mapping
  mapped_output none c raw = raw
  mapped_output (some empty) c raw = raw
  mapped_output (some (entry name source fs)) c raw =
      evaluate_mapping (entry name source fs) c (some raw) none empty

  -- The output of applyOutputMappings; an agent's is not mapped again.
  output_after : Node → RunContext → Fields → Fields
  unfolding mapped_output map_config
  output_after node c raw =
      if supports_output_mapping node.type
      then mapped_output (map_config node.config "output_mapping") c raw
      else raw

  writes_of : Node → RunContext → Fields → Fields → String → Fields → Fields
  unfolding evaluate_mapping map_config
  writes_of node c raw output key writes = elim (map_config node.config key) [
    | none ↦ writes
    | some mapping ↦ evaluate_mapping mapping c (some raw) (some output) writes
  ]

  -- The `switch` and the last resort for the alias of a response.
  abbrev pub or_alias : String → String → String
  or_alias alias other = if alias == "" then other else alias

  response_alias : Node → String
  unfolding string_from_config first_non_empty_config
  response_alias node =
      or_alias
        (or_alias (string_from_config node.config "response_alias") (
          if node.type == "connector_operation"
          then first_non_empty_config node.config ("connector_operation_id" ∷ "operation_id" ∷ [])
          else first_non_empty_config node.config ("tool_id" ∷ [])))
        node.id

  -- automaticResponseWrites
  unfoldable pub automatic_response_writes : Node → Fields → Fields
  unfolding response_alias
  automatic_response_writes node raw =
      if is_call node.type
      then entry
          (concat "responses." (
            concat (if node.type == "connector_operation" then "connector" else "tool")
              (concat "." (response_alias node))))
          (dict raw) empty
      else empty

  -- applyOutputMappings; it fails only where evaluateConfigValue does, which is never.
  unfoldable pub apply_output_mappings : Node → RunContext → Fields → NodeResult
  unfolding output_for_mappings output_after writes_of automatic_response_writes
  apply_output_mappings node c raw =
      let mapping_output = output_for_mappings node raw in
      let output = output_after node c mapping_output in
      record {
        output = output;
        context_writes =
            writes_of node c mapping_output output "context_writes"
              (writes_of node c mapping_output output "write_context" empty);
        response_writes = automatic_response_writes node mapping_output;
        next_node_ids = none;
        stop = false;
      }
