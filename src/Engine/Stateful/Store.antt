-- ===== src/Engine/Stateful/Store.antt =====
-- core/flowengine/store.go: InstanceStore, and MemoryInstanceStore with its deep copies.
use flowanything.Common.{
  ℕ, suc, zero, String, Option, none, some, List, [], ◌∷◌, ◌==◌, if◌then◌else◌, Outcome, ok, err,
  panic, ◌>>=◌,
}
use flowanything.Common.Assoc.{lookup, insert}
use flowanything.Engine.Values.{
  Value, Values, nil, cons, dict, list, Entries, Error, instance_id_required, instance_exists,
  instance_missing,
}
use flowanything.Engine.Heap.{Heap, alloc, entries}
use flowanything.Engine.Context.{DataContext}
use flowanything.Engine.Instance.{ExecutionToken, NodeState, FlowInstance}

-- InstanceStore over the stored state `S`. A call may make new maps. AppendEvent is the list of events
-- of Engine/Stateful/Base.antt.
pub record InstanceStore (S : Type 0) : Type 0 where
  pub create : FlowInstance → S → Heap → Outcome Error S × Heap
  pub get : String → S → Heap → Outcome Error FlowInstance × Heap
  pub save : FlowInstance → S → Heap → Outcome Error S × Heap

-- A copy and the heap with its maps; a recursion deeper than the stack ends the program.
abbrev pub Copied {ℓ} : Type ℓ → Type ℓ
Copied A = Outcome Error (A × Heap)

-- The loops of cloneMapRecursive and cloneAny, for the copy of one value.
unfoldable pub clone_entries : (Value → Heap → Copied Value) → Entries → Heap → Copied Entries
clone_entries clone [] h = ok ([], h)
clone_entries clone (e ∷ es) h = clone e.1 h >>= λ (v : Value × Heap).
    clone_entries clone es v.1 >>= λ (vs : Entries × Heap). ok ((e.0, v.0) ∷ vs.0, vs.1)

unfoldable pub clone_values : (Value → Heap → Copied Value) → Values → Heap → Copied Values
clone_values clone nil h = ok (nil, h)
clone_values clone (cons x xs) h = clone x h >>= λ (v : Value × Heap).
    clone_values clone xs v.1 >>= λ (vs : Values × Heap). ok (cons v.0 vs.0, vs.1)

-- cloneAny, for a stack of the given depth.
unfoldable pub clone_any : ℕ → Value → Heap → Copied Value
unfolding clone_entries clone_values entries
clone_any zero v h = panic
clone_any (suc depth) (dict d) h =
    clone_entries (clone_any depth) (entries d h) h >>= λ (copy : Entries × Heap).
    ok (dict (some copy.1.next), alloc copy.0 copy.1)
clone_any (suc depth) (list vs) h =
    clone_values (clone_any depth) vs h >>= λ (copy : Values × Heap). ok (list copy.0, copy.1)
clone_any (suc depth) v h = ok (v, h)

-- cloneMapRecursive, called from outside; the copy of the nil map is an empty map.
unfoldable pub clone_map_recursive : ℕ → Option ℕ → Heap → Copied (Option ℕ)
unfolding clone_entries clone_any entries
clone_map_recursive depth d h =
    clone_entries (clone_any depth) (entries d h) h >>= λ (copy : Entries × Heap).
    ok (some copy.1.next, alloc copy.0 copy.1)

-- cloneDataContext
unfoldable pub clone_data_context : ℕ → DataContext → Heap → Copied DataContext
unfolding clone_map_recursive
clone_data_context depth c h =
    clone_map_recursive depth c.flow_input h >>= λ (input : Option ℕ × Heap).
    clone_map_recursive depth c.flow_output input.1 >>= λ (output : Option ℕ × Heap).
    clone_map_recursive depth c.variables output.1 >>= λ (vars : Option ℕ × Heap).
    clone_map_recursive depth c.node_context vars.1 >>= λ (nodes : Option ℕ × Heap). ok (
      record {
        flow_input = input.0;
        flow_output = output.0;
        variables = vars.0;
        node_context = nodes.0;
      },
      nodes.1,
    )

unfoldable pub clone_tokens : ℕ → List ExecutionToken → Heap → Copied (List ExecutionToken)
unfolding clone_map_recursive
clone_tokens depth [] h = ok ([], h)
clone_tokens depth (t ∷ ts) h =
    clone_map_recursive depth t.payload h >>= λ (payload : Option ℕ × Heap).
    clone_tokens depth ts payload.1 >>= λ (rest : List ExecutionToken × Heap).
    ok (record t { payload = payload.0 } ∷ rest.0, rest.1)

abbrev pub NodeStates : Type 0
NodeStates = List (String × NodeState)

unfoldable pub clone_node_states : ℕ → NodeStates → Heap → Copied NodeStates
unfolding clone_map_recursive
clone_node_states depth [] h = ok ([], h)
clone_node_states depth (s ∷ ss) h =
    clone_map_recursive depth s.1.input h >>= λ (input : Option ℕ × Heap).
    clone_map_recursive depth s.1.output input.1 >>= λ (output : Option ℕ × Heap).
    clone_node_states depth ss output.1 >>= λ (rest : NodeStates × Heap).
    ok ((s.0, record (s.1) { input = input.0; output = output.0 }) ∷ rest.0, rest.1)

-- cloneFlowInstance; join states hold no map of values.
unfoldable pub clone_flow_instance : ℕ → FlowInstance → Heap → Copied FlowInstance
unfolding clone_data_context clone_tokens clone_node_states
clone_flow_instance depth x h =
    clone_data_context depth x.context h >>= λ (context : DataContext × Heap).
    clone_tokens depth x.tokens context.1 >>= λ (tokens : List ExecutionToken × Heap).
    clone_node_states depth x.node_states tokens.1 >>= λ (states : NodeStates × Heap).
    ok (record x { context = context.0; tokens = tokens.0; node_states = states.0 }, states.1)

-- The field `instances` of MemoryInstanceStore.
abbrev pub Instances : Type 0
Instances = List (String × FlowInstance)

-- s.instances[instance.InstanceID] = cloneFlowInstance(instance)
unfoldable pub put_copy :
    Instances → Heap → String → Copied FlowInstance → Outcome Error Instances × Heap
put_copy s h id (ok copy) = (ok (insert id copy.0 s), copy.1)
put_copy s h id (err e) = (err e, h)
put_copy s h id panic = (panic, h)

unfoldable pub create_instance :
    ℕ → FlowInstance → Instances → Heap → Outcome Error Instances × Heap
unfolding put_copy clone_flow_instance
create_instance depth x s h =
    if x.instance_id == "" then (err instance_id_required, h) else elim (lookup x.instance_id s) [
      | some _ ↦ (err (instance_exists x.instance_id), h)
      | none ↦ put_copy s h x.instance_id (clone_flow_instance depth x h)
    ]

-- What Get returns: the copy, and the heap it was made in.
unfoldable pub get_copy : Heap → Copied FlowInstance → Outcome Error FlowInstance × Heap
get_copy h (ok copy) = (ok copy.0, copy.1)
get_copy h (err e) = (err e, h)
get_copy h panic = (panic, h)

unfoldable pub get_instance : ℕ → String → Instances → Heap → Outcome Error FlowInstance × Heap
unfolding get_copy clone_flow_instance
get_instance depth id s h = elim (lookup id s) [
  | none ↦ (err (instance_missing id), h)
  | some x ↦ get_copy h (clone_flow_instance depth x h)
]

unfoldable pub save_instance : ℕ → FlowInstance → Instances → Heap → Outcome Error Instances × Heap
unfolding put_copy clone_flow_instance
save_instance depth x s h =
    if x.instance_id == ""
    then (err instance_id_required, h)
    else put_copy s h x.instance_id (clone_flow_instance depth x h)

-- MemoryInstanceStore
abbrev pub memory_instance_store : ℕ → InstanceStore Instances
memory_instance_store depth = record {
  create = create_instance depth;
  get = get_instance depth;
  save = save_instance depth;
}
