-- ===== src/Engine/Context.antt =====
-- core/flowengine/context.go: `DataContext`, the context that all nodes of a run share.
pub mod Access
pub mod Sharing
pub mod Fresh
use flowanything.Common.{
  ℕ, ◌+◌, String, Bool, true, false, ◌||◌, Option, none, some, List, [], ◌∷◌, ◌==◌, if◌then◌else◌,
  Outcome, ok, err, panic, ◌>>=◌,
}
use flowanything.Common.Assoc.{lookup}
use flowanything.Engine.Values.{
  Value, dict, Entries, Error, write_without_field, input_read_only, unknown_root,
  namespace_required, namespace_path_required,
}
use flowanything.Engine.Heap.{
  Heap, alloc, entries, set_key, read_parts, descend, write_parts, clone_map,
}
use flowanything.Engine.Paths.{split_path, split_field}

-- The four maps; the struct itself is written once, by `NewDataContext`.
pub record DataContext : Type 0 where
  pub flow_input : Option ℕ
  pub flow_output : Option ℕ
  pub variables : Option ℕ
  pub node_context : Option ℕ

-- NewDataContext: the caller's map is copied one level deep.
unfoldable pub new_data_context : Option ℕ → Heap → DataContext × Heap
unfolding clone_map
new_data_context input h = (
  record {
    flow_input = some h.next;
    flow_output = some (h.next + 1);
    variables = some (h.next + 2);
    node_context = some (h.next + 3);
  },
  alloc [] (alloc [] (alloc [] (clone_map input h))),
)

-- The roots of a path, under all their spellings.
pub data Root : Type 0 where
  input output vars nodes : Root

unfoldable pub root_of : String → Option Root
root_of r =
    if r == "flow_input" || r == "input"
    then some input
    else if r == "flow_output" || r == "output"
    then some output
    else if r == "variables" || r == "vars"
    then some vars
    else if r == "node_context" || r == "node_contexts" || r == "nodes"
    then some nodes
    else none

unfoldable pub root_map : DataContext → Root → Option ℕ
root_map c input = c.flow_input
root_map c output = c.flow_output
root_map c vars = c.variables
root_map c nodes = c.node_context

-- Read, after `splitPath`.
unfoldable pub read_at : DataContext → String × List String → Heap → Option Value
unfolding root_of root_map
read_at c (root, parts) h = elim (root_of root) [
  | none ↦ none
  | some r ↦ read_parts (dict (root_map c r)) parts h
]

-- Read
unfoldable pub read : DataContext → String → Heap → Option Value
unfolding read_at
read c path h = read_at c (split_path path) h

-- The `switch` of Write, for a path with a field name.
unfoldable pub write_root :
    DataContext → String → Option Root → List String → Value → Heap → Outcome Error Heap
unfolding root_map
write_root c root none parts v h = err (unknown_root root)
write_root c root (some input) parts v h = err input_read_only
write_root c root (some r) parts v h = write_parts (root_map c r) parts v h

-- Write, after `splitPath`; the path as it was given stands in the error.
unfoldable pub write_at :
    DataContext → String → String × List String → Value → Heap → Outcome Error Heap
unfolding write_root root_of
write_at c path (root, []) v h = err (write_without_field path)
write_at c path (root, p ∷ ps) v h = write_root c root (root_of root) (p ∷ ps) v h

-- Write
unfoldable pub write : DataContext → String → Value → Heap → Outcome Error Heap
unfolding write_at
write c path v h = write_at c path (split_path path) v h

-- ReadNodeContext
unfoldable pub read_node_context : DataContext → String → String → Heap → Option Value
unfolding entries
read_node_context c namespace path h =
    if namespace == "" then none else elim (lookup namespace (entries c.node_context h)) [
      | none ↦ none
      | some v ↦ read_parts v (split_field path) h
    ]

-- WriteNodeContext
unfoldable pub write_node_context :
    DataContext → String → String → Value → Heap → Outcome Error Heap
unfolding descend
write_node_context c namespace path v h =
    if namespace == ""
    then err namespace_required
    else if path == ""
    then err namespace_path_required
    else descend c.node_context namespace h >>= λ (found : Option ℕ × Heap).
        write_parts found.0 (split_field path) v found.1
