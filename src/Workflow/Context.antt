-- ===== src/Workflow/Context.antt =====
-- internal/flowengine/context.go: the run context, its paths, reads and writes.
pub mod Protected
use flowanything.Common.{
  ℕ, String, Bool, true, false, ◌||◌, Option, none, some, List, [], ◌∷◌, ◌==◌, if◌then◌else◌,
  concat, trim_space, trim_prefix, split_on,
}
use flowanything.Workflow.Values.{
  Tree, null, text, dict, Fields, empty, entry, get_field, set_field, has_fields, as_dict, or_empty,
}
use flowanything.Workflow.Types.{NodeResult}

-- RunContext; Vars is written and copied, and never read.
pub record RunContext : Type 0 where
  pub input : Fields
  pub ctx : Fields
  pub vars : Fields
  pub last : Fields

-- normalizePath, and strings.Split(path, ".")
unfoldable pub normalize_path : String → String
normalize_path path = trim_prefix (trim_prefix (trim_space path) "$") "."

unfoldable pub path_parts : String → List String
unfolding normalize_path
path_parts path = split_on 46 (normalize_path path)

-- domainMap
unfoldable pub domain_map : Fields → String → Fields
domain_map root key = or_empty (as_dict (get_field key root))

-- readParts
unfoldable pub read_parts : Tree → List String → Option Tree
read_parts current [] = some current
read_parts current (part ∷ parts) =
    let below : Option Tree → Option Tree =
      λ next. elim next [ none ↦ none | some t ↦ read_parts t parts ] in
    if part == ""
    then below (some current)
    else elim (as_dict (some current)) [ none ↦ none | some fs ↦ below (get_field part fs) ]

-- writeParts; the maps that are missing on the way are made.
unfoldable pub write_parts : Fields → List String → Tree → Fields
unfolding domain_map
write_parts root [] value = root
write_parts root (part ∷ []) value = if part == "" then root else set_field part value root
write_parts root (part ∷ next ∷ parts) value =
    let below = λ (fs : Fields). write_parts fs (next ∷ parts) value in
    if part == "" then below root else set_field part (dict (below (domain_map root part))) root

-- ensureDomainMap, and a write below the map
unfoldable pub write_domain : String → List String → Tree → Fields → Fields
unfolding write_parts domain_map
write_domain key parts value ctx =
    set_field key (dict (write_parts (domain_map ctx key) parts value)) ctx

-- The names of the `switch` statements.
pub data Domain : Type 0 where
  flow_input context flow_output responses connector_response tool_response variables last : Domain
  bare : Domain

-- strings.ToLower(part) is one of these names.
unfoldable pub domain_of : String → Domain
domain_of name =
    if name == "input" || name == "flow_input"
    then flow_input
    else if name == "ctx" || name == "context"
    then context
    else if name == "flow_output" || name == "output"
    then flow_output
    else if name == "responses" || name == "response"
    then responses
    else if name == "connector_response" || name == "connector_responses"
    then connector_response
    else if name == "tool_response" || name == "tool_responses"
    then tool_response
    else if name == "vars" || name == "variables" || name == "runtime"
    then variables
    else if name == "last"
    then last
    else bare

-- The `switch` of Read.
unfoldable pub read_root : Domain → RunContext → Option Fields
unfolding domain_map
read_root flow_input c = some c.input
read_root context c = some c.ctx
read_root flow_output c = some (domain_map c.ctx "flow_output")
read_root responses c = some (domain_map c.ctx "responses")
read_root connector_response c = some (domain_map (domain_map c.ctx "responses") "connector")
read_root tool_response c = some (domain_map (domain_map c.ctx "responses") "tool")
read_root variables c = some (domain_map c.ctx "variables")
read_root last c = some c.last
read_root bare c = none

-- Why a write is refused.
pub data WriteError : Type 0 where
  input_read_only responses_read_only : WriteError
  field_required : String → WriteError

-- What a write does: a refusal, or the new ctx.
pub data Write : Type 0 where
  refused : WriteError → Write
  written : Fields → Write

-- The `switch` on the second part of a path below ctx.
unfoldable pub write_context : Domain → String → List String → Tree → Fields → Write
unfolding write_domain write_parts
write_context flow_input part parts value ctx = refused input_read_only
write_context responses part parts value ctx = refused responses_read_only
write_context connector_response part parts value ctx = refused responses_read_only
write_context tool_response part parts value ctx = refused responses_read_only
write_context flow_output part parts value ctx =
    written (write_domain "flow_output" parts value ctx)
write_context variables part parts value ctx = written (write_domain "variables" parts value ctx)
write_context context part parts value ctx = written (write_parts ctx (part ∷ parts) value)
write_context last part parts value ctx = written (write_parts ctx (part ∷ parts) value)
write_context bare part parts value ctx = written (write_parts ctx (part ∷ parts) value)

-- A write below one of the maps that need a field.
abbrev pub write_field : String → String → List String → Tree → Fields → Write
write_field path key [] value ctx = refused (field_required path)
write_field path key (part ∷ parts) value ctx = written (write_domain key (part ∷ parts) value ctx)

-- What the run context uses of the standard library: strings.ToLower, fmt.Sprint and reflect.DeepEqual.
pub record Lexis : Type 0 where
  pub to_lower : String → String
  pub sprint : Tree → String
  pub deep_equal : Tree → Tree → Bool

module _ (x : Lexis) where
  -- Read
  unfoldable pub read : String → RunContext → Option Tree
  unfolding path_parts read_root read_parts domain_of
  read path c = elim (path_parts path) [
    | [] ↦ none
    | first ∷ parts ↦
        if first == "" then none else elim (read_root (domain_of (x.to_lower first)) c) [
          | none ↦ none
          | some root ↦ read_parts (dict root) parts
        ]
  ]

  write_under_context : String → List String → Tree → Fields → Write
  unfolding write_context domain_of
  write_under_context path [] value ctx = refused (field_required path)
  write_under_context path (part ∷ parts) value ctx =
      write_context (domain_of (x.to_lower part)) part parts value ctx

  -- The `switch` of Write; `first ∷ parts` are the parts of the path.
  unfoldable pub write_root : Domain → String → String → List String → Tree → Fields → Write
  unfolding write_under_context write_domain write_parts
  write_root flow_input path first parts value ctx = refused input_read_only
  write_root responses path first parts value ctx = refused responses_read_only
  write_root connector_response path first parts value ctx = refused responses_read_only
  write_root tool_response path first parts value ctx = refused responses_read_only
  write_root flow_output path first parts value ctx = write_field path "flow_output" parts value ctx
  write_root variables path first parts value ctx = write_field path "variables" parts value ctx
  write_root context path first parts value ctx = write_under_context path parts value ctx
  write_root last path first parts value ctx = written (write_parts ctx (first ∷ parts) value)
  write_root bare path first parts value ctx = written (write_parts ctx (first ∷ parts) value)

  write_from : String → List String → Tree → Fields → Write
  unfolding write_root domain_of
  write_from path [] value ctx = written ctx
  write_from path (first ∷ parts) value ctx =
      write_root (domain_of (x.to_lower first)) path first parts value ctx

  -- Write
  unfoldable pub write : String → Tree → Fields → Write
  unfolding write_from normalize_path path_parts
  write path value ctx =
      if normalize_path path == ""
      then written ctx
      else write_from (normalize_path path) (path_parts path) value ctx

  -- writeSystem: the responses are written below at least two names.
  unfoldable pub write_system : String → Tree → Fields → Write
  unfolding write path_parts normalize_path write_domain
  write_system path value ctx = elim (path_parts path) [
    | first ∷ domain ∷ alias ∷ parts ↦
        if x.to_lower first == "responses"
        then written (write_domain "responses" (domain ∷ alias ∷ parts) value ctx)
        else write (normalize_path path) value ctx
    | _ ↦ write (normalize_path path) value ctx
  ]

  -- `_ = next.Write(path, value)`: a refused write changes nothing.
  abbrev pub kept : Fields → Write → Fields
  kept ctx (refused e) = ctx
  kept ctx (written next) = next

  unfoldable pub write_all : Fields → Fields → Fields
  unfolding write
  write_all empty ctx = ctx
  write_all (entry path value writes) ctx = write_all writes (kept ctx (write path value ctx))

  unfoldable pub write_all_system : Fields → Fields → Fields
  unfolding write_system
  write_all_system empty ctx = ctx
  write_all_system (entry path value writes) ctx =
      write_all_system writes (kept ctx (write_system path value ctx))

  -- WithNodeResult
  unfoldable pub with_node_result : String → NodeResult → RunContext → RunContext
  unfolding write_all write_all_system
  with_node_result node_id result c = record c {
    ctx = write_all_system result.response_writes (write_all result.context_writes c.ctx);
    last = entry "node_id" (text node_id) (entry "output" (dict result.output) empty);
  }

-- A map that stays, or a new one in its place.
abbrev pub ensure_dict : String → Fields → Fields
ensure_dict key fs = set_field key (dict (domain_map fs key)) fs

-- normalizeInitialContext
unfoldable pub normalize_initial_context : Fields → Fields → Fields
unfolding domain_map
normalize_initial_context input initial =
    let ctx = ensure_dict "flow_output" (set_field "flow_input" (dict input) initial) in
    let responses = ensure_dict "tool" (ensure_dict "connector" (domain_map ctx "responses")) in
    ensure_dict "variables" (set_field "responses" (dict responses) ctx)

-- NewRunContext
unfoldable pub new_run_context : Fields → Fields → RunContext
unfolding normalize_initial_context
new_run_context input initial = record {
  input = input;
  ctx = normalize_initial_context input initial;
  vars = empty;
  last = empty;
}

-- Output
unfoldable pub output_of : RunContext → Fields
unfolding domain_map
output_of c =
    if has_fields (domain_map c.ctx "flow_output") then domain_map c.ctx "flow_output" else c.ctx
