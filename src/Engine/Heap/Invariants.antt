-- ===== src/Engine/Heap/Invariants.antt =====
-- Lemmas on well-formed heaps under writeParts (core/flowengine/context.go).
use flowanything.Common.{
  ℕ, ◌<◌, String, ◌≡◌, ◌≢◌, sym, subst, ok-injective, ◌∙◌, ◌⊎◌, inl, inr, none, some, List, [], ◌∷◌,
  arith, eqb_iff, eq_iff, ok,
}
use flowanything.Common.Assoc.{insert, lookup-insert}
use flowanything.Engine.Values.{Value, dict}
use flowanything.Engine.Heap.{Heap, update, write_parts}
use flowanything.Engine.Heap.Reach.{Holds, Reach, here, step, IsClosed, IsAcyclic}
use flowanything.Engine.Heap.Descend.{grown, descend-cases, grown-IsClosed}
use flowanything.Engine.Heap.Frame.{write_parts-nil, write-existing, write-fresh}
use flowanything.Engine.Heap.ReadBack.{grown-IsAcyclic}

-- Map `a` with one key set.
abbrev pub stored : ℕ → String → Value → Heap → Heap
stored a k v h = record h { cell = update h.cell a (insert k v (h.cell a)) }

-- The links after one key was set: a link to the new value, and old links.
pub stored-Holds :
    (a : ℕ) (k : String) (v : Value) (h : Heap) (c : ℕ) (j : String) (b : ℕ)
    → Holds (stored a k v h) c j b
    → ((c ≡ a) × (v ≡ dict (some b))) ⊎ Holds h c j b
stored-Holds a k v h c j b holds =
    ground (arith, eqb_iff a c, eq_iff k j, lookup-insert k j v (h.cell a))

-- A value that is a map in use, or no map.
abbrev pub InUse : Value → Heap → Type 0
InUse v h = (b : ℕ) → v ≡ dict (some b) → b < h.next

-- A value that is no map.
abbrev pub IsLeaf : Value → Type 0
IsLeaf v = (b : ℕ) → v ≢ dict (some b)

-- An invariant of heaps that one assignment keeps and a new empty map keeps is kept by nested writes.
module _ (P : Heap → Type 0) (v : Value)
    (keeps_store : (a : ℕ) (k : String) (h : Heap) → P h → P (stored a k v h))
    (keeps_grow : (a : ℕ) (k : String) (h : Heap) → a < h.next → P h → P (grown a k h))
    (closed : (h : Heap) → P h → IsClosed h) where
  pub write-keeps :
      (ps : List String) (a : ℕ) (h : Heap) {h' : Heap}
      → write_parts (some a) ps v h ≡ ok h'
      → a < h.next
      → P h
      → P h'
  unfolding write_parts
  write-keeps [] a h e used inv = subst P (ok-injective e) inv
  write-keeps (p ∷ []) a h e used inv = subst P (ok-injective e) (keeps_store a p h inv)
  write-keeps (p ∷ q ∷ ps) a h {h'} e used inv = elim (descend-cases a p h) [
    | inl (none, _, found) ↦
        absurd (write_parts-nil q ps v h (sym (write-existing a p q ps v h none found) ∙ e))
    | inl (some c, holds, found) ↦
        write-keeps (q ∷ ps) c h (sym (write-existing a p q ps v h (some c) found) ∙ e)
          (closed h inv a p c holds) inv
    | inr (_, found) ↦
        write-keeps (q ∷ ps) h.next (grown a p h) (sym (write-fresh a p q ps v h found) ∙ e)
          (omega arith) (keeps_grow a p h used inv)
  ]

-- A nested write of a map in use, or of no map, keeps the heap closed.
pub write-IsClosed :
    (ps : List String) (a : ℕ) (v : Value) (h : Heap) {h' : Heap}
    → write_parts (some a) ps v h ≡ ok h'
    → a < h.next
    → IsClosed h
    → InUse v h
    → IsClosed h'
write-IsClosed ps a v h e used closed live =
    (write-keeps (λ g. IsClosed g × InUse v g) v
      (λ b k g inv. (stored-IsClosed b k g inv.0 inv.1, inv.1))
      (λ b k g lt inv. (grown-IsClosed b k g lt inv.0, λ d e. let l = inv.1 d e in omega arith))
      (λ g inv. inv.0) ps a h e used (closed, live)).0
  where
    stored-IsClosed :
        (b : ℕ) (k : String) (g : Heap) → IsClosed g → InUse v g → IsClosed (stored b k v g)
    stored-IsClosed b k g closed live c j d holds = elim (stored-Holds b k v g c j d holds) [
      | inl new ↦ live d new.1
      | inr old ↦ closed c j d old
    ]

-- With one key set to no map, a map reaches what it reached before at most.
stored-Reach :
    (a : ℕ) (k : String) (v : Value) (h : Heap)
    → IsLeaf v
    → {x y : ℕ} → Reach (stored a k v h) x y
    → Reach h x y
stored-Reach a k v h leaf here = here
stored-Reach a k v h leaf (step {a = x} j b holds r) = elim (stored-Holds a k v h x j b holds) [
  | inl new ↦ absurd (leaf b new.1)
  | inr old ↦ step j b old (stored-Reach a k v h leaf r)
]

-- A nested write of a value that is no map makes no cycle.
pub write-IsAcyclic :
    (ps : List String) (a : ℕ) (v : Value) (h : Heap) {h' : Heap}
    → write_parts (some a) ps v h ≡ ok h'
    → a < h.next
    → IsClosed h
    → IsAcyclic h
    → IsLeaf v
    → IsClosed h' × IsAcyclic h'
write-IsAcyclic ps a v h e used closed acyclic leaf =
    write-keeps (λ g. IsClosed g × IsAcyclic g) v
      (λ b k g inv. (
        (λ c j d holds. elim (stored-Holds b k v g c j d holds) [
          | inl new ↦ absurd (leaf d new.1)
          | inr old ↦ inv.0 c j d old
        ]),
        (λ c j d holds r. elim (stored-Holds b k v g c j d holds) [
          | inl new ↦ leaf d new.1
          | inr old ↦ inv.1 c j d old (stored-Reach b k v g leaf r)
        ]),
      ))
      (λ b k g lt inv. (grown-IsClosed b k g lt inv.0, grown-IsAcyclic b k g lt inv.0 inv.1))
      (λ g inv. inv.0) ps a h e used (closed, acyclic)
