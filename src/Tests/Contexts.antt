-- ===== src/Tests/Contexts.antt =====
-- The context at fixed heaps.
use flowanything.Common.{eq_iff, ◌≡◌, refl, none, some, [], ◌∷◌, arith, ok}
use flowanything.Common.Assoc.{lookup}
use flowanything.Engine.Values.{str, dict}
use flowanything.Engine.Heap.{Heap, alloc, read_parts, write_parts}
use flowanything.Engine.Paths.{split_path}
use flowanything.Engine.Context.{
  DataContext, root_of, read_at, read, write_at, write, new_data_context,
}
use flowanything.Engine.Context.Access.{IsRooted, IsSound, read-write_context, read_input-write}
use flowanything.Engine.Context.Fresh.{
  alloc-IsSound, new_data_context-IsSound, new_data_context-IsApart, read-new_data_context,
}
use flowanything.Engine.Context.Sharing.{input_written_through}
use flowanything.Tests.Samples.{empty_heap}

abbrev fresh : DataContext × Heap
fresh = new_data_context none empty_heap

-- A caller's map with one text, in a heap of its own.
abbrev caller_heap : Heap
caller_heap = alloc (("q", str "hi") ∷ []) empty_heap

empty_heap-IsSound : IsSound empty_heap
unfolding lookup
empty_heap-IsSound = record {
  closed = λ a k b e. absurd (ground arith);
  acyclic = λ a k b e r. ground arith;
}

fresh-IsSound : IsRooted fresh.0 fresh.1 × IsSound fresh.1
fresh-IsSound = new_data_context-IsSound none empty_heap empty_heap-IsSound

fresh_write : (h' : Heap) × (write fresh.0 "$.variables.user.name" (str "ann") fresh.1 ≡ ok h')
unfolding write split_path new_data_context lookup write_parts
fresh_write = (_, refl)

read-write_context_example : read fresh.0 "$.variables.user.name" fresh_write.0 ≡ some (str "ann")
read-write_context_example =
    read-write_context fresh.0 "$.variables.user.name" (str "ann") fresh.1 fresh-IsSound.0
      fresh-IsSound.1 fresh_write.1

caller_heap-IsSound : IsSound caller_heap
unfolding lookup
caller_heap-IsSound =
    alloc-IsSound (("q", str "hi") ∷ []) empty_heap (λ k b e. absurd (ground (arith, eq_iff "q" k)))
      empty_heap-IsSound

abbrev asked : DataContext × Heap
asked = new_data_context (some 0) caller_heap

asked-IsSound : IsRooted asked.0 asked.1 × IsSound asked.1
asked-IsSound = new_data_context-IsSound (some 0) caller_heap caller_heap-IsSound

asked_write : (h' : Heap) × (write asked.0 "$.flow_output.a" (str "x") asked.1 ≡ ok h')
unfolding write split_path new_data_context lookup write_parts
asked_write = (_, refl)

read_input-write_example :
    read_at asked.0 ("input", "q" ∷ []) asked_write.0 ≡ read_at asked.0 ("input", "q" ∷ []) asked.1
unfolding root_of
read_input-write_example =
    read_input-write asked.0 "$.flow_output.a" (str "x") asked.1 ("input", "q" ∷ []) asked-IsSound.0
      asked-IsSound.1 (new_data_context-IsApart (some 0) caller_heap caller_heap-IsSound.closed)
      refl asked_write.1

new_data_context-IsSound_example :
    IsRooted (new_data_context (some 0) caller_heap).0 (new_data_context (some 0) caller_heap).1
    × IsSound (new_data_context (some 0) caller_heap).1
new_data_context-IsSound_example = new_data_context-IsSound (some 0) caller_heap caller_heap-IsSound

read-new_data_context_example :
    read_at asked.0 ("flow_input", "q" ∷ []) asked.1
    ≡ read_parts (dict (some 0)) ("q" ∷ []) caller_heap
unfolding root_of
read-new_data_context_example =
    read-new_data_context (some 0) caller_heap caller_heap-IsSound.closed 0 "q" [] "flow_input" refl
      (omega arith) refl

-- Map 0 stands under `cfg` of the flow input, map 1, and of the variables, map 2.
abbrev shared_heap : Heap
shared_heap =
    alloc (("cfg", dict (some 0)) ∷ []) (alloc (("cfg", dict (some 0)) ∷ []) (alloc [] empty_heap))

abbrev sharing : DataContext
sharing = record {
  flow_input = some 1;
  flow_output = some 3;
  variables = some 2;
  node_context = some 4;
}

input_written_through_example :
    (h' : Heap) × (write_at sharing "$.variables.cfg.k"
        ("variables", "cfg" ∷ "k" ∷ [])
        (str "x")
        shared_heap
      ≡ ok h')
    × (read_at sharing ("flow_input", "cfg" ∷ "k" ∷ []) h' ≡ some (str "x"))
unfolding lookup
input_written_through_example =
    input_written_through sharing shared_heap 1 2 0 "cfg" "cfg" "k" "$.variables.cfg.k" (str "x")
      refl refl (omega arith) refl refl
