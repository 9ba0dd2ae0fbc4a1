-- ===== src/Workflow/Routing.antt =====
-- internal/flowengine/executor.go and validation.go: which nodes come after a node.
pub mod Targets
use flowanything.Common.{
  String, Bool, true, false, not, ◌&&◌, ◌||◌, Option, none, some, List, [], ◌∷◌, ◌==◌,
  if◌then◌else◌, concat, trim_space,
}
use flowanything.Platform.{Answer, fine, fails, AppError, new, invalid_argument}
use flowanything.Workflow.Values.{Tree, null, bool, text}
use flowanything.Workflow.Types.{EdgeCondition, Edge, Graph, NodeResult}
use flowanything.Workflow.Context.{Lexis, RunContext, read}
use flowanything.Workflow.Validation.{has}

-- truthy
unfoldable pub truthy : Tree → Bool
truthy (bool b) = b
truthy (text s) = not (trim_space s == "")
truthy null = false
truthy _ = true

abbrev pub bool_eq : Bool → Bool → Bool
bool_eq true b = b
bool_eq false b = not b

abbrev pub is_null : Tree → Bool
is_null null = true
is_null _ = false

is_some : Option Tree → Bool
is_some none = false
is_some (some _) = true

value_matches : Lexis → Tree → Option Tree → Bool
unfolding truthy
value_matches x equals none = false
value_matches x equals (some value) =
    if is_null equals
    then truthy value
    else x.deep_equal value equals || x.sprint value == x.sprint equals

condition_matches : Lexis → EdgeCondition → Option Tree → Bool
unfolding value_matches is_some
condition_matches x condition value = elim condition.exists [
  | some wanted ↦ bool_eq (is_some value) wanted
  | none ↦ value_matches x condition.equals value
]

-- edgeMatches
unfoldable pub edge_matches : Lexis → Option EdgeCondition → RunContext → Bool
unfolding condition_matches read
edge_matches x none c = true
edge_matches x (some condition) c = condition_matches x condition (read x condition.path c)

-- outgoingTargets
unfoldable pub outgoing_targets : String → List Edge → List String
outgoing_targets id [] = []
outgoing_targets id (e ∷ es) =
    let rest = outgoing_targets id es in if e.from_node_id == id then e.to_node_id ∷ rest else rest

-- The loop of nextNodes over the nodes that a result names; the message quotes the node.
unfoldable pub allowed_nodes : List String → List String → Answer (List String)
unfolding has
allowed_nodes targets [] = fine []
allowed_nodes targets (id ∷ ids) =
    let rest = elim (allowed_nodes targets ids) as (λ _. Answer (List String)) [
      | fine next ↦ fine (id ∷ next)
      | fails e ↦ fails e
    ] in
    if has targets id
    then rest
    else fails (
        new invalid_argument (
          concat "workflow node selected next node "
            (concat id " that is not connected by an outgoing edge")))

-- The loop of nextNodes over the edges.
unfoldable pub matching_targets : Lexis → String → RunContext → List Edge → List String
unfolding edge_matches
matching_targets x id c [] = []
matching_targets x id c (e ∷ es) =
    let rest = matching_targets x id c es in
    if e.from_node_id == id && edge_matches x e.condition c then e.to_node_id ∷ rest else rest

next_after : Lexis → Graph → String → Option (List String) → RunContext → Answer (List String)
unfolding allowed_nodes outgoing_targets matching_targets
next_after x g id (some ids) c = allowed_nodes (outgoing_targets id g.edges) ids
next_after x g id none c = fine (matching_targets x id c g.edges)

-- nextNodes
unfoldable pub next_nodes : Lexis → Graph → String → NodeResult → RunContext → Answer (List String)
unfolding next_after
next_nodes x g id result c =
    if result.stop then fine [] else next_after x g id result.next_node_ids c
