-- ===== src/Engine/Heap/Frame.antt =====
-- Lemmas on the maps that writeParts does not write (core/flowengine/context.go).
use flowanything.Common.{
  ℕ, ◌≤◌, ◌<◌, String, ◌≡◌, ◌≢◌, refl, sym, subst, ◌∙◌, inl, inr, Option, none, some, List, [], ◌∷◌,
  arith, eqb_iff, ok,
}
use flowanything.Common.Assoc.{lookup}
use flowanything.Engine.Values.{Value}
use flowanything.Engine.Heap.{Heap, set_key, descend, write_parts}
use flowanything.Engine.Heap.Reach.{Reach, here, step, IsClosed}
use flowanything.Engine.Heap.Descend.{
  grown, descend-cases, grown-cell_ne, grown-IsClosed, grown-Reach_new,
}

-- A nested write into the nil map never returns.
pub write_parts-nil :
    (p : String) (ps : List String) (v : Value) (h : Heap) {h' : Heap}
    → write_parts none (p ∷ ps) v h ≢ ok h'
unfolding write_parts lookup
write_parts-nil p [] v h e = cc
write_parts-nil p (q ∷ ps) v h e = cc

-- One step of a nested write, in the heap as it was.
pub write-existing :
    (a : ℕ) (p q : String) (ps : List String) (v : Value) (h : Heap) (d : Option ℕ)
    → descend (some a) p h ≡ ok (d, h)
    → write_parts (some a) (p ∷ q ∷ ps) v h ≡ write_parts d (q ∷ ps) v h
unfolding write_parts
write-existing a p q ps v h d e = rw e refl

pub write-fresh :
    (a : ℕ) (p q : String) (ps : List String) (v : Value) (h : Heap)
    → descend (some a) p h ≡ ok (some h.next, grown a p h)
    → write_parts (some a) (p ∷ q ∷ ps) v h ≡ write_parts (some h.next) (q ∷ ps) v (grown a p h)
unfolding write_parts
write-fresh a p q ps v h e = rw e refl

-- The cells in use stay in use.
pub write-next :
    (ps : List String) (a : ℕ) (v : Value) (h : Heap) {h' : Heap}
    → write_parts (some a) ps v h ≡ ok h'
    → h.next ≤ h'.next
unfolding write_parts
write-next [] a v h e = ground arith
write-next (p ∷ []) a v h e = ground arith
write-next (p ∷ q ∷ ps) a v h e = elim (descend-cases a p h) [
  | inl (none, _, found) ↦
      absurd (write_parts-nil q ps v h (sym (write-existing a p q ps v h none found) ∙ e))
  | inl (some c, _, found) ↦
      write-next (q ∷ ps) c v h (sym (write-existing a p q ps v h (some c) found) ∙ e)
  | inr (_, found) ↦
      let later =
        write-next (q ∷ ps) h.next v (grown a p h) (sym (write-fresh a p q ps v h found) ∙ e) in
      omega arith
]

pub Reach-ne : {h : Heap} {a b : ℕ} → ¬ (Reach h a b) → b ≢ a
Reach-ne {h} {a} apart same = apart (subst (λ x. Reach h a x) (sym same) here)

-- A nested write changes no map in use that the written map does not reach.
pub write_frame :
    (ps : List String) (a : ℕ) (v : Value) (h : Heap) {h' : Heap}
    → write_parts (some a) ps v h ≡ ok h'
    → IsClosed h
    → a < h.next
    → (b : ℕ) → b < h.next
    → ¬ (Reach h a b)
    → h'.cell b ≡ h.cell b
unfolding write_parts set_key
write_frame [] a v h e closed used b lt apart = ground arith
write_frame (p ∷ []) a v h e closed used b lt apart =
    let ne = Reach-ne apart in ground (arith, eqb_iff a b)
write_frame (p ∷ q ∷ ps) a v h {h'} e closed used b lt apart = elim (descend-cases a p h) [
  | inl (none, holds, found) ↦
      absurd (write_parts-nil q ps v h (sym (write-existing a p q ps v h none found) ∙ e))
  | inl (some c, holds, found) ↦
      write_frame (q ∷ ps) c v h (sym (write-existing a p q ps v h (some c) found) ∙ e) closed
        (closed a p c holds) b lt (λ r. apart (step p c holds r))
  | inr (_, found) ↦
      write_frame (q ∷ ps) h.next v (grown a p h) (sym (write-fresh a p q ps v h found) ∙ e)
        (grown-IsClosed a p h used closed) (omega arith) b (omega arith)
        (grown-Reach_new a p h used b (omega arith))
      ∙ grown-cell_ne a p h used b (Reach-ne apart) (omega arith)
]
