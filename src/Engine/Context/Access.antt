-- ===== src/Engine/Context/Access.antt =====
-- core/flowengine/context.go: lemmas on Read and Write.
use flowanything.Common.{
  ℕ, ◌<◌, String, ◌≡◌, ◌≢◌, refl, sym, ◌∙◌, Option, none, some, List, [], ◌∷◌, arith, ok,
}
use flowanything.Common.Assoc.{lookup}
use flowanything.Engine.Values.{Value, dict}
use flowanything.Engine.Heap.{Heap, read_parts, write_parts}
use flowanything.Engine.Heap.Reach.{Holds, Reach, here, step, IsClosed, IsAcyclic, Reach-IsClosed}
use flowanything.Engine.Heap.Frame.{write_frame}
use flowanything.Engine.Heap.ReadBack.{read-write}
use flowanything.Engine.Heap.Invariants.{IsLeaf}
use flowanything.Engine.Paths.{split_path}
use flowanything.Engine.Context.{
  DataContext, Root, input, output, vars, nodes, root_of, root_map, read_at, read, write_root,
  write_at, write,
}

-- Each of the four maps is in use.
abbrev pub IsRooted : DataContext → Heap → Type 0
IsRooted c h = (r : Root) → (a : ℕ) × (root_map c r ≡ some a) × (a < h.next)

-- A heap of a run: no dangling references and no map inside itself.
pub record IsSound (h : Heap) : Type 0 where
  pub closed : IsClosed h
  pub acyclic : IsAcyclic h

-- What a write that returns has done: the nested write below one of the other three roots.
pub record Wrote (c : DataContext) (path : String) (v : Value) (h h' : Heap) : Type 0 where
  pub root : Root
  pub field : String
  pub fields : List String
  pub not_input : root ≢ input
  pub resolved : root_of (split_path path).0 ≡ some root
  pub parts : (split_path path).1 ≡ field ∷ fields
  pub written : write_parts (root_map c root) (field ∷ fields) v h ≡ ok h'

write_root-ok :
    (c : DataContext) (name : String) (o : Option Root) (ps : List String) (v : Value) (h : Heap)
    {h' : Heap}
    → write_root c name o ps v h ≡ ok h'
    → (r : Root) × (r ≢ input) × (o ≡ some r) × (write_parts (root_map c r) ps v h ≡ ok h')
unfolding write_root
write_root-ok c name none ps v h e = absurd (ground arith)
write_root-ok c name (some input) ps v h e = absurd (ground arith)
write_root-ok c name (some output) ps v h e = (output, ground arith, refl, e)
write_root-ok c name (some vars) ps v h e = (vars, ground arith, refl, e)
write_root-ok c name (some nodes) ps v h e = (nodes, ground arith, refl, e)

pub write-Wrote :
    (c : DataContext) (path : String) (v : Value) (h : Heap) {h' : Heap}
    → write c path v h ≡ ok h'
    → Wrote c path v h h'
unfolding write write_at
write-Wrote c path v h {h'} e = go (split_path path).1 refl e
  where
    go :
        (ps : List String)
        → (split_path path).1 ≡ ps
        → write_at c path ((split_path path).0, ps) v h ≡ ok h'
        → Wrote c path v h h'
    go [] eq e = absurd (ground arith)
    go (p ∷ ps) eq e =
        let (r, guarded, found, done) =
          write_root-ok c (split_path path).0 (root_of (split_path path).0) (p ∷ ps) v h e in
        record {
          root = r;
          field = p;
          fields = ps;
          not_input = guarded;
          resolved = found;
          parts = eq;
          written = done;
        }

pub read_at-some :
    (c : DataContext) (t : String × List String) (h : Heap) (r : Root)
    → root_of t.0 ≡ some r
    → read_at c t h ≡ read_parts (dict (root_map c r)) t.1 h
unfolding read_at
read_at-some c t h r e = ground arith

-- In a heap without cyclic maps and dangling references, for a context whose four maps are in use: a
-- value that Write has stored without an error is what Read returns for the same path.
pub read-write_context :
    (c : DataContext) (path : String) (v : Value) (h : Heap) {h' : Heap}
    → IsRooted c h
    → IsSound h
    → write c path v h ≡ ok h'
    → read c path h' ≡ some v
unfolding read
read-write_context c path v h {h'} rooted sound e =
    let w = write-Wrote c path v h e in
    let (a, root, used) = rooted w.root in
    read_at-some c (split_path path) h' w.root w.resolved
    ∙ rw (w.parts, root)
        (read-write w.field w.fields a v h (rw root at w.written) sound.closed sound.acyclic used)

-- A value that is no map in use reads the same in every heap.
read_parts-leaf :
    (v : Value) (ps : List String) (h h' : Heap) → IsLeaf v → read_parts v ps h' ≡ read_parts v ps h
unfolding read_parts lookup
read_parts-leaf v [] h h' leaf = refl
read_parts-leaf (dict none) (p ∷ ps) h h' leaf = refl
read_parts-leaf (dict (some b)) (p ∷ ps) h h' leaf = absurd (leaf b refl)
read_parts-leaf v (p ∷ ps) h h' leaf = refl

-- A read is not changed where none of the maps that it can get to has changed.
pub read_parts_frame :
    (ps : List String) (a : ℕ) (h h' : Heap)
    → ((b : ℕ) → Reach h a b → h'.cell b ≡ h.cell b)
    → read_parts (dict (some a)) ps h' ≡ read_parts (dict (some a)) ps h
unfolding read_parts
read_parts_frame [] a h h' same = refl
read_parts_frame (p ∷ ps) a h h' same =
    go (lookup p (h.cell a)) refl
      (λ b holds. read_parts_frame ps b h h' (λ d r. same d (step p b holds r)))
  where
    go :
        (o : Option Value)
        → lookup p (h.cell a) ≡ o
        → ((b : ℕ)
            → Holds h a p b
            → read_parts (dict (some b)) ps h' ≡ read_parts (dict (some b)) ps h)
        → read_parts (dict (some a)) (p ∷ ps) h' ≡ read_parts (dict (some a)) (p ∷ ps) h
    go (some (dict (some b))) e rec = ground (arith, same a here, rec b e)
    go none e rec = ground (arith, same a here)
    go (some v) e rec = ground (arith, same a here, read_parts-leaf v ps h h' (λ b bad. cc))

-- No map that the flow input reaches is reached from one of the other roots.
abbrev pub IsApart : DataContext → Heap → Type 0
IsApart c h =
    (r : Root) (a i b : ℕ)
    → r ≢ input
    → root_map c r ≡ some a
    → c.flow_input ≡ some i
    → Reach h i b
    → ¬ (Reach h a b)

-- In such a heap, for such a context, where no map below the flow input is also below another root: a
-- Write that returns no error does not change what is read under the flow input, under both spellings
-- of its root.
pub read_input-write :
    (c : DataContext) (path : String) (v : Value) (h : Heap) {h' : Heap} (t : String × List String)
    → IsRooted c h
    → IsSound h
    → IsApart c h
    → root_of t.0 ≡ some input
    → write c path v h ≡ ok h'
    → read_at c t h' ≡ read_at c t h
unfolding root_map
read_input-write c path v h {h'} t rooted sound apart asked e =
    let w = write-Wrote c path v h e in
    let (a, root, used) = rooted w.root in
    let (i, input_map, input_used) = rooted input in
    read_at-some c t h' input asked
    ∙ rw input_map (
        read_parts_frame t.1 i h h' (λ b r.
          write_frame (w.field ∷ w.fields) a v h (rw root at w.written) sound.closed used b
            (Reach-IsClosed sound.closed input_used r)
            (apart w.root a i b w.not_input root input_map r)))
    ∙ sym (read_at-some c t h input asked)
