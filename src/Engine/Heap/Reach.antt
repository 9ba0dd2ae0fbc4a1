-- ===== src/Engine/Heap/Reach.antt =====
-- Which maps a nested path of core/flowengine/context.go can get to from a map.
use flowanything.Common.{ℕ, ◌<◌, String, ◌≡◌, some}
use flowanything.Common.Assoc.{lookup}
use flowanything.Engine.Values.{dict}
use flowanything.Engine.Heap.{Heap}

-- Map `a` holds map `b` under the key `k`.
abbrev pub Holds : Heap → ℕ → String → ℕ → Type 0
Holds h a k b = lookup k (h.cell a) ≡ some (dict (some b))

-- Some path leads from map `a` to map `b`.
pub data Reach (h : Heap) : ℕ → ℕ → Type 0 where
  here : {a : ℕ} → Reach h a a
  step : {a c : ℕ} (k : String) (b : ℕ) → Holds h a k b → Reach h b c → Reach h a c

-- Every map that a map holds is in use.
abbrev pub IsClosed : Heap → Type 0
IsClosed h = (a : ℕ) (k : String) (b : ℕ) → Holds h a k b → b < h.next

-- No map is inside itself.
abbrev pub IsAcyclic : Heap → Type 0
IsAcyclic h = (a : ℕ) (k : String) (b : ℕ) → Holds h a k b → ¬ (Reach h b a)

-- In a closed heap, what a map in use reaches is in use.
pub Reach-IsClosed : {h : Heap} {a b : ℕ} → IsClosed h → a < h.next → Reach h a b → b < h.next
Reach-IsClosed closed used here = used
Reach-IsClosed {a} closed used (step k c holds r) = Reach-IsClosed closed (closed a k c holds) r
