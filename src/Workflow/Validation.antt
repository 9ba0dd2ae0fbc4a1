-- ===== src/Workflow/Validation.antt =====
-- internal/flowengine/validation.go: validation of a workflow, and the search for a cycle.
pub mod Cycles
pub mod Acyclic
pub mod Accepted
use flowanything.Common.{
  ℕ, zero, suc, ◌+◌, String, Bool, true, false, not, ◌||◌, Option, none, some, List, [], ◌∷◌, ◌++◌,
  ◌==◌, length, if◌then◌else◌, concat, trim_space,
}
use flowanything.Common.Assoc.{lookup}
use flowanything.Platform.{AppError, new, invalid_argument, is_empty}
use flowanything.Workflow.Types.{Spec, Graph, Node, Edge}

-- m[key], for a map to true.
unfoldable pub has : List String → String → Bool
has [] id = false
has (x ∷ xs) id = let rest = has xs id in x == id || rest

-- What a visit ends with: a cycle, or the visited nodes, the last one first. `unfinished` means that
-- the fuel ran out.
pub data Visit : Type 0 where
  cyclic unfinished : Visit
  visited : List String → Visit

abbrev pub and_then : Visit → (List String → Visit) → Visit
and_then cyclic next = cyclic
and_then unfinished next = unfinished
and_then (visited seen) next = next seen

-- The loop over the edges of a node; `go` is the recursive call.
unfoldable pub over_edges :
    (String → List String → Visit) → String → List Edge → List String → Visit
over_edges go id [] seen = visited seen
over_edges go id (e ∷ es) seen =
    let rest = λ (later : List String). over_edges go id es later in
    if e.from_node_id == id then and_then (go e.to_node_id seen) rest else rest seen

-- visit; `visiting` are the nodes whose visit has begun and not ended.
unfoldable pub visit : ℕ → List Edge → List String → String → List String → Visit
unfolding over_edges has
visit zero edges visiting id seen = unfinished
visit (suc fuel) edges visiting id seen =
    let below = over_edges (visit fuel edges (id ∷ visiting)) id edges seen in
    if has visiting id
    then cyclic
    else if has seen id
    then visited seen
    else and_then below (λ later. visited (id ∷ later))

-- The loop of hasCycle over the nodes.
unfoldable pub visit_all : ℕ → List Edge → List (String × Node) → List String → Visit
unfolding visit
visit_all fuel edges [] seen = visited seen
visit_all fuel edges ((id, node) ∷ nodes) seen =
    and_then (visit fuel edges [] id seen) (λ later. visit_all fuel edges nodes later)

abbrev pub is_cyclic : Visit → Bool
is_cyclic cyclic = true
is_cyclic unfinished = true
is_cyclic (visited seen) = false

unfoldable pub search : Graph → Visit
unfolding visit_all
search g = visit_all (suc (length g.nodes + length g.edges)) g.edges g.nodes []

-- hasCycle, with fuel for each node and edge
unfoldable pub has_cycle : Graph → Bool
unfolding search
has_cycle g = is_cyclic (search g)

abbrev pub invalid : String → Option AppError
invalid message = some (new invalid_argument message)

-- An error, or what comes next.
abbrev pub or_else : Option AppError → Option AppError → Option AppError
or_else none next = next
or_else (some e) next = some e

-- The loop of ValidateGraph over the nodes.
unfoldable pub validate_node : String → Node → Option AppError
unfolding is_empty
validate_node id node =
    if is_empty node.id
    then invalid "node id is required"
    else if id == node.id
    then (if node.type == "" then invalid "node type is required" else none)
    else invalid "node map key must match node id"

unfoldable pub validate_nodes : List (String × Node) → Option AppError
unfolding validate_node
validate_nodes [] = none
validate_nodes ((id, node) ∷ nodes) = or_else (validate_node id node) (validate_nodes nodes)

-- The loop of ValidateGraph over the edges.
abbrev pub is_node : List (String × Node) → String → Bool
is_node nodes id = elim (lookup id nodes) [ none ↦ false | some _ ↦ true ]

unfoldable pub validate_edge : List (String × Node) → Edge → Option AppError
unfolding is_empty
validate_edge nodes e =
    if is_empty e.from_node_id || is_empty e.to_node_id
    then invalid "edge endpoints are required"
    else if is_node nodes e.from_node_id
    then (if is_node nodes e.to_node_id then none else invalid "edge to_node_id does not exist")
    else invalid "edge from_node_id does not exist"

unfoldable pub validate_edges : List (String × Node) → List Edge → Option AppError
unfolding validate_edge
validate_edges nodes [] = none
validate_edges nodes (e ∷ es) = or_else (validate_edge nodes e) (validate_edges nodes es)

abbrev pub acyclic_or_error : Bool → Option AppError
acyclic_or_error true = invalid "workflow graph must be acyclic"
acyclic_or_error false = none

-- ValidateGraph
unfoldable pub validate_graph : Graph → Option AppError
unfolding is_empty validate_nodes validate_edges has_cycle
validate_graph g =
    if is_empty g.entry_node_id then invalid "entry_node_id is required" else elim g.nodes [
      | [] ↦ invalid "at least one node is required"
      | _ ∷ _ ↦
          if is_node g.nodes g.entry_node_id
          then or_else (validate_nodes g.nodes)
              (or_else (validate_edges g.nodes g.edges) (acyclic_or_error (has_cycle g)))
          else invalid "entry node does not exist"
    ]

-- The `allowed` map of validateProfileNodeTypes.
unfoldable pub allowed_types : String → List String
allowed_types profile =
    "start"
    ∷ "end"
    ∷ "join"
    ∷ "transform"
    ∷ "condition"
    ∷ (if profile == "tool_workflow"
        then "connector_operation" ∷ []
        else if profile == "agent_workflow"
        then "tool" ∷ "skill" ∷ "agent" ∷ []
        else [])

unfoldable pub validate_types : String → List (String × Node) → Option AppError
unfolding has allowed_types
validate_types profile [] = none
validate_types profile ((id, node) ∷ nodes) =
    or_else
      (if has (allowed_types profile) node.type
        then none
        else invalid
            (concat "node type " (concat node.type (concat " is not allowed in " profile))))
      (validate_types profile nodes)

-- The `switch` statements on the status and the profile.
unfoldable pub is_status : String → Bool
unfolding has
is_status status = has ("" ∷ "draft" ∷ "enabled" ∷ "disabled" ∷ []) status

unfoldable pub is_profile : String → Bool
unfolding has
is_profile profile = has ("tool_workflow" ∷ "agent_workflow" ∷ []) profile

-- ValidateSpec
unfoldable pub validate_spec : Spec → Option AppError
unfolding is_empty is_status is_profile validate_graph validate_types
validate_spec spec =
    if is_empty spec.tenant_id
    then invalid "tenant_id is required"
    else if is_empty spec.id
    then invalid "workflow_id is required"
    else if trim_space spec.name == ""
    then invalid "workflow name is required"
    else if is_status spec.status
    then (if is_profile spec.profile
        then or_else (validate_graph spec.graph) (validate_types spec.profile spec.graph.nodes)
        else invalid "unsupported workflow profile")
    else invalid "unsupported workflow status"
