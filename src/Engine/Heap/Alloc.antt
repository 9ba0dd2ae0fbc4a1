-- ===== src/Engine/Heap/Alloc.antt =====
-- Lemmas on a new map in the heap (core/flowengine/context.go, cloneMap).
use flowanything.Common.{
  ℕ, ◌<◌, String, ◌≡◌, ◌≢◌, ◌⊎◌, inl, inr, some, [], arith, eqb_iff, eq-cases,
}
use flowanything.Common.Assoc.{lookup}
use flowanything.Engine.Values.{dict, Entries}
use flowanything.Engine.Heap.{Heap, alloc}
use flowanything.Engine.Heap.Reach.{Holds, Reach, here, step, IsClosed, IsAcyclic}

-- Every map in the entries is in use.
abbrev pub EntriesInUse : Entries → Heap → Type 0
EntriesInUse m h = (k : String) (b : ℕ) → lookup k m ≡ some (dict (some b)) → b < h.next

module _ (m : Entries) (h : Heap) where
  pub alloc-cell_new : (alloc m h).cell h.next ≡ m
  alloc-cell_new = ground (arith, eqb_iff h.next h.next)

  pub alloc-cell_old : (b : ℕ) → b ≢ h.next → (alloc m h).cell b ≡ h.cell b
  alloc-cell_old b ne = ground (arith, eqb_iff h.next b)

  alloc-Holds :
      (c : ℕ) (k : String) (b : ℕ)
      → Holds (alloc m h) c k b
      → (lookup k m ≡ some (dict (some b))) × (c ≡ h.next) ⊎ (Holds h c k b × (c ≢ h.next))
  alloc-Holds c k b holds = elim (eq-cases c h.next) [
    | inl same ↦ let at_new = rw same at holds in inl (rw (← alloc-cell_new) at_new, same)
    | inr ne ↦ inr (rw (← alloc-cell_old c ne) holds, ne)
  ]

  pub alloc-IsClosed : EntriesInUse m h → IsClosed h → IsClosed (alloc m h)
  alloc-IsClosed live closed c k b holds = elim (alloc-Holds c k b holds) [
    | inl new ↦ let below = live k b new.0 in omega arith
    | inr old ↦ let below = closed c k b old.0 in omega arith
  ]

  -- What an old map reaches, it reached before.
  pub alloc-Reach :
      IsClosed h → {x c : ℕ} → Reach (alloc m h) x c → x < h.next → Reach h x c × (c < h.next)
  alloc-Reach closed here lt = (here, lt)
  alloc-Reach closed (step {a = x} k b holds r) lt = elim (alloc-Holds x k b holds) [
    | inl new ↦ absurd (omega (arith, new.1))
    | inr old ↦
        let (r', lt') = alloc-Reach closed r (closed x k b old.0) in (step k b old.0 r', lt')
  ]

  pub alloc-IsAcyclic : EntriesInUse m h → IsClosed h → IsAcyclic h → IsAcyclic (alloc m h)
  alloc-IsAcyclic live closed acyclic c k b holds r = elim (alloc-Holds c k b holds) [
    | inl new ↦ let (_, lt) = alloc-Reach closed r (live k b new.0) in omega (arith, new.1)
    | inr old ↦ acyclic c k b old.0 (alloc-Reach closed r (closed c k b old.0)).0
  ]

-- A new empty map reaches itself alone.
pub alloc-Reach_empty : (h : Heap) {x c : ℕ} → Reach (alloc [] h) x c → x ≡ h.next → c ≡ h.next
unfolding lookup
alloc-Reach_empty h here same = same
alloc-Reach_empty h (step {a = x} k b holds r) same = elim (alloc-Holds [] h x k b holds) [
  | inl new ↦ absurd (ground arith)
  | inr old ↦ absurd (old.1 same)
]
