-- ===== src/Engine/Context/Sharing.antt =====
-- core/flowengine/context.go: Write where two paths hold the same map.
use flowanything.Common.{ℕ, String, ◌≡◌, ◌≢◌, some, [], ◌∷◌, arith, eqb_iff, ok}
use flowanything.Common.Assoc.{insert, lookup-insert_self}
use flowanything.Engine.Values.{Value}
use flowanything.Engine.Heap.{Heap, update, read_parts, write_parts}
use flowanything.Engine.Heap.Reach.{Holds}
use flowanything.Engine.Context.{DataContext, root_of, root_map, read_at, write_root, write_at}

-- Where the flow input holds a map, not itself, under `j`, and the variables hold the same map under
-- `k`: a write to a field below `k` of the variables succeeds, and is read back below `j` of the flow
-- input.
pub input_written_through :
    (c : DataContext) (h : Heap) (i a b : ℕ) (j k x path : String) (v : Value)
    → c.flow_input ≡ some i
    → c.variables ≡ some a
    → i ≢ b
    → Holds h i j b
    → Holds h a k b
    → (h' : Heap) × (write_at c path ("variables", k ∷ x ∷ []) v h ≡ ok h')
      × (read_at c ("flow_input", j ∷ x ∷ []) h' ≡ some v)
unfolding write_at write_root root_of root_map read_at read_parts write_parts
input_written_through c h i a b j k x path v ci cv ne hi hv = (
  record h { cell = update h.cell b (insert x v (h.cell b)) },
  ground arith,
  ground (arith, eqb_iff b i, eqb_iff b b, lookup-insert_self x v (h.cell b)),
)
