-- ===== src/Engine/Heap.antt =====
-- core/flowengine/context.go: the maps of a run. Go maps are shared by reference, so they live in a heap
-- of numbered cells.
pub mod Reach
pub mod Descend
pub mod Frame
pub mod ReadBack
pub mod Invariants
pub mod Alloc
use flowanything.Common.{
  ℕ, suc, ◌+◌, String, Bool, Option, none, some, List, [], ◌∷◌, eqb, if◌then◌else◌, Outcome, ok,
  err, panic, ◌>>=◌,
}
use flowanything.Common.Assoc.{lookup, insert}
use flowanything.Engine.Values.{Value, dict, Entries, Error, as_dict}

-- `cell a` is the map with number `a`, in use if `a < next`. `outside` is what node executors read
-- from the outside world and consume; the engine itself never touches it.
pub record Heap : Type 0 where
  pub next : ℕ
  pub cell : ℕ → Entries
  pub outside : List ℕ

abbrev pub update : (ℕ → Entries) → ℕ → Entries → ℕ → Entries
update f a m b = if eqb a b then m else f b

-- map[string]any{…}
abbrev pub alloc : Entries → Heap → Heap
alloc m h = record h { next = h.next + 1; cell = update h.cell h.next m }

-- The entries of a map; the nil map has none.
unfoldable pub entries : Option ℕ → Heap → Entries
entries none h = []
entries (some a) h = h.cell a

-- m[k] = v, which panics on the nil map.
unfoldable pub set_key : Option ℕ → String → Value → Heap → Outcome Error Heap
set_key none k v h = panic
set_key (some a) k v h = ok (record h { cell = update h.cell a (insert k v (h.cell a)) })

-- One step of `readParts`: a value that is no map, and a missing key, stop the walk.
unfoldable pub read_key : Value → String → Heap → Option Value
unfolding entries
read_key (dict d) k h = lookup k (entries d h)
read_key _ k h = none

-- readParts
unfoldable pub read_parts : Value → List String → Heap → Option Value
unfolding read_key
read_parts v [] h = some v
read_parts v (p ∷ ps) h = elim (read_key v p h) [ none ↦ none | some w ↦ read_parts w ps h ]

-- The map under a key: the one that is there, or a new one that is put there.
abbrev pub Found : Type 0
Found = Option ℕ × Heap

found_or_new : Option ℕ → String → Heap → Option (Option ℕ) → Outcome Error Found
unfolding set_key
found_or_new t p h (some next) = ok (next, h)
found_or_new t p h none = do
  h' ← set_key t p (dict (some h.next)) (alloc [] h)
  ok (some h.next, h')

unfoldable pub descend : Option ℕ → String → Heap → Outcome Error Found
unfolding found_or_new entries as_dict
descend t p h = found_or_new t p h (as_dict (lookup p (entries t h)))

-- writeParts; with no part at all it does nothing.
unfoldable pub write_parts : Option ℕ → List String → Value → Heap → Outcome Error Heap
unfolding descend set_key
write_parts t [] v h = ok h
write_parts t (p ∷ []) v h = set_key t p v h
write_parts t (p ∷ q ∷ ps) v h =
    descend t p h >>= λ (found : Found). write_parts found.0 (q ∷ ps) v found.1

-- cloneMap: a new map with the same entries, so nested maps are shared.
unfoldable pub clone_map : Option ℕ → Heap → Heap
unfolding entries
clone_map d h = alloc (entries d h) h
