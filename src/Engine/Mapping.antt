-- ===== src/Engine/Mapping.antt =====
-- core/flowengine/mapping.go: input mappings and context writes.
use flowanything.Common.{
  ℕ, ◌||◌, Option, none, some, List, [], ◌∷◌, ◌==◌, if◌then◌else◌, Outcome, ok, err, panic, ◌>>=◌,
  map_err,
}
use flowanything.Engine.Values.{
  Value, dict, Error, context_path_missing, output_path_missing, unknown_source,
  input_field_required, write_target_required, resolve_input, resolve_write,
}
use flowanything.Engine.Heap.{Heap, alloc, read_parts, write_parts}
use flowanything.Engine.Paths.{split_field}
use flowanything.Engine.Context.{DataContext, read, write}
use flowanything.Engine.Spec.{ValueSource, FieldBinding, ContextWrite}

-- value, ok := …; if !ok { return nil, e }
abbrev pub or_error : Error → Option Value → Outcome Error Value
or_error e none = err e
or_error e (some v) = ok v

-- ResolveValue
unfoldable pub resolve_value : DataContext → Option ℕ → ValueSource → Heap → Outcome Error Value
resolve_value c node_output s h =
    if s.type == "const"
    then ok s.value
    else if s.type == "context"
    then or_error (context_path_missing s.path) (read c s.path h)
    else if s.type == "node_output"
    then (if s.path == "" || s.path == "$"
        then ok (dict node_output)
        else or_error (output_path_missing s.path)
            (read_parts (dict node_output) (split_field s.path) h))
    else err (unknown_source s.type)

-- One round of the loop of BuildNodeInput, for the map `input`.
unfoldable pub bind_field : DataContext → Option ℕ → FieldBinding → Heap → Outcome Error Heap
bind_field c input b h =
    if b.enabled
    then (if b.field == ""
        then err input_field_required
        else map_err (resolve_input b.field) (resolve_value c none b.source h) >>= λ (v : Value).
            write_parts input (split_field b.field) v h)
    else ok h

-- A loop that stops at its first error; the heap is the one that is left behind.
unfoldable pub bind_fields :
    DataContext → Option ℕ → List FieldBinding → Heap → Outcome Error (Unit {0}) × Heap
unfolding bind_field
bind_fields c input [] h = (ok tt, h)
bind_fields c input (b ∷ bs) h = elim (bind_field c input b h) [
  | ok h' ↦ bind_fields c input bs h'
  | err e ↦ (err e, h)
  | panic ↦ (panic, h)
]

-- BuildNodeInput: the reference of the new map, what came of the loop, and the heap.
unfoldable pub build_node_input :
    DataContext → List FieldBinding → Heap → Option ℕ × Outcome Error (Unit {0}) × Heap
unfolding bind_fields
build_node_input c bs h =
    let (done, h') = bind_fields c (some h.next) bs (alloc [] h) in (some h.next, done, h')

-- One round of the loop of ApplyContextWrites.
unfoldable pub apply_write : DataContext → Option ℕ → ContextWrite → Heap → Outcome Error Heap
apply_write c node_output w h =
    if w.enabled
    then (if w.target == ""
        then err write_target_required
        else map_err (resolve_write w.target) (resolve_value c node_output w.source h)
          >>= λ (v : Value). write c w.target v h)
    else ok h

-- ApplyContextWrites: the writes before the first error stay.
unfoldable pub apply_context_writes :
    DataContext → Option ℕ → List ContextWrite → Heap → Outcome Error (Unit {0}) × Heap
unfolding apply_write
apply_context_writes c node_output [] h = (ok tt, h)
apply_context_writes c node_output (w ∷ ws) h = elim (apply_write c node_output w h) [
  | ok h' ↦ apply_context_writes c node_output ws h'
  | err e ↦ (err e, h)
  | panic ↦ (panic, h)
]
