-- ===== src/Engine/Graph.antt =====
-- The maps that executor.go builds over the nodes and edges of a flow.
pub mod Index
use flowanything.Common.{
  String, Bool, true, false, not, ◌||◌, Option, none, some, List, [], ◌∷◌, ◌++◌, ◌==◌,
  if◌then◌else◌,
}
use flowanything.Common.Assoc.{lookup, insert}
use flowanything.Engine.Spec.{NodeSpec, EdgeSpec}

-- seen[id], for a set that is a list of its members.
unfoldable pub contains : List String → String → Bool
contains [] id = false
contains (x ∷ xs) id = let rest = contains xs id in x == id || rest

-- indexNodes: with two nodes of one id, the later one counts.
index_from : List (String × NodeSpec) → List NodeSpec → List (String × NodeSpec)
index_from out [] = out
index_from out (n ∷ ns) = index_from (insert n.id n out) ns

unfoldable pub index_nodes : List NodeSpec → List (String × NodeSpec)
unfolding index_from
index_nodes nodes = index_from [] nodes

-- out[from], where a missing key gives nil
abbrev pub targets : Option (List String) → List String
targets none = []
targets (some ts) = ts

-- out[k] = append(out[k], v)
unfoldable pub append_at :
    String → String → List (String × List String) → List (String × List String)
append_at k v out = insert k (targets (lookup k out) ++ v ∷ []) out

outgoing_from : List (String × List String) → List EdgeSpec → List (String × List String)
unfolding append_at
outgoing_from out [] = out
outgoing_from out (e ∷ es) = outgoing_from (append_at e.source e.target out) es

-- outgoingEdges
unfoldable pub outgoing_edges : List EdgeSpec → List (String × List String)
unfolding outgoing_from
outgoing_edges edges = outgoing_from [] edges

incoming_ids : List String → List EdgeSpec → List String
incoming_ids seen [] = seen
incoming_ids seen (e ∷ es) = incoming_ids (e.target ∷ seen) es

without_incoming : List String → List NodeSpec → List String
unfolding contains
without_incoming has_incoming [] = []
without_incoming has_incoming (n ∷ ns) =
    let rest = without_incoming has_incoming ns in
    if contains has_incoming n.id then rest else n.id ∷ rest

-- sourceNodes
unfoldable pub source_nodes : List NodeSpec → List EdgeSpec → List String
unfolding incoming_ids without_incoming
source_nodes nodes edges = without_incoming (incoming_ids [] edges) nodes
