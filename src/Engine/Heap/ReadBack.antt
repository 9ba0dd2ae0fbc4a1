-- ===== src/Engine/Heap/ReadBack.antt =====
-- Lemmas on readParts after writeParts (core/flowengine/context.go).
use flowanything.Common.{
  ℕ, ◌<◌, String, ◌≡◌, sym, ◌∙◌, inl, inr, Option, none, some, List, [], ◌∷◌, arith, eqb_iff, ok,
}
use flowanything.Common.Assoc.{lookup, lookup-insert_self}
use flowanything.Engine.Values.{Value, dict}
use flowanything.Engine.Heap.{Heap, read_parts, write_parts}
use flowanything.Engine.Heap.Reach.{IsClosed, IsAcyclic}
use flowanything.Engine.Heap.Descend.{
  grown, descend-cases, grown-cell_self, grown-Holds, grown-IsClosed, grown-Reach_new,
  grown-Reach_old,
}
use flowanything.Engine.Heap.Frame.{write_parts-nil, write-existing, write-fresh, write_frame}

-- A new empty map makes no cycle.
pub grown-IsAcyclic :
    (a : ℕ) (p : String) (h : Heap)
    → a < h.next
    → IsClosed h
    → IsAcyclic h
    → IsAcyclic (grown a p h)
grown-IsAcyclic a p h used closed acyclic c k b holds = elim (grown-Holds a p h used c k b holds) [
  | inl new ↦ rw (new.0, new.1) (grown-Reach_new a p h used a (omega arith))
  | inr old ↦ λ r. acyclic c k b old.1 (grown-Reach_old a p h used r old.0)
]

-- The first step of a read.
read_step :
    (a : ℕ) (p : String) (ps : List String) (h : Heap) (d : Option ℕ)
    → lookup p (h.cell a) ≡ some (dict d)
    → read_parts (dict (some a)) (p ∷ ps) h ≡ read_parts (dict d) ps h
unfolding read_parts
read_step a p ps h d e = ground arith

-- In a heap without cycles, a value that was written along a path is read back along it.
pub read-write :
    (p : String) (ps : List String) (a : ℕ) (v : Value) (h : Heap) {h' : Heap}
    → write_parts (some a) (p ∷ ps) v h ≡ ok h'
    → IsClosed h
    → IsAcyclic h
    → a < h.next
    → read_parts (dict (some a)) (p ∷ ps) h' ≡ some v
unfolding write_parts read_parts
read-write p [] a v h e closed acyclic used =
    ground (arith, lookup-insert_self p v (h.cell a), eqb_iff a a)
read-write p (q ∷ ps) a v h {h'} e closed acyclic used = elim (descend-cases a p h) [
  | inl (none, _, found) ↦
      absurd (write_parts-nil q ps v h (sym (write-existing a p q ps v h none found) ∙ e))
  | inl (some c, holds, found) ↦
      let e' = sym (write-existing a p q ps v h (some c) found) ∙ e in
      let same =
        write_frame (q ∷ ps) c v h e' closed (closed a p c holds) a used (acyclic a p c holds) in
      read_step a p (q ∷ ps) h' (some c) (rw same holds)
      ∙ read-write q ps c v h e' closed acyclic (closed a p c holds)
  | inr (_, found) ↦
      let e' = sym (write-fresh a p q ps v h found) ∙ e in
      let closed' = grown-IsClosed a p h used closed in
      let same =
        write_frame (q ∷ ps) h.next v (grown a p h) e' closed' (omega arith) a (omega arith)
          (grown-Reach_new a p h used a (omega arith)) in
      read_step a p (q ∷ ps) h' (some h.next) (
        rw (same, grown-cell_self a p h used)
          (lookup-insert_self p (dict (some h.next)) (h.cell a)))
      ∙ read-write q ps h.next v (grown a p h) e' closed'
          (grown-IsAcyclic a p h used closed acyclic) (omega arith)
]
