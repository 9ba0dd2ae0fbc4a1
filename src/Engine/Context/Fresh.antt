-- ===== src/Engine/Context/Fresh.antt =====
-- core/flowengine/context.go: lemmas on NewDataContext.
use flowanything.Common.{
  ℕ, ◌+◌, ◌≤◌, ◌<◌, String, ◌≡◌, ◌≢◌, refl, sym, subst, ◌∙◌, Option, none, some, List, [], ◌∷◌,
  arith, some-eq,
}
use flowanything.Common.Assoc.{lookup}
use flowanything.Engine.Values.{dict, Entries}
use flowanything.Engine.Heap.{Heap, alloc, entries, read_parts}
use flowanything.Engine.Heap.Reach.{Reach, IsClosed, Reach-IsClosed}
use flowanything.Engine.Heap.Alloc.{
  EntriesInUse, alloc-cell_new, alloc-cell_old, alloc-IsClosed, alloc-IsAcyclic, alloc-Reach,
  alloc-Reach_empty,
}
use flowanything.Engine.Context.{
  Root, input, output, vars, nodes, root_of, root_map, read_at, new_data_context,
}
use flowanything.Engine.Context.Access.{IsRooted, IsSound, IsApart, read_at-some, read_parts_frame}

pub alloc-IsSound : (m : Entries) (h : Heap) → EntriesInUse m h → IsSound h → IsSound (alloc m h)
alloc-IsSound m h live sound = record {
  closed = alloc-IsClosed m h live sound.closed;
  acyclic = alloc-IsAcyclic m h live sound.closed sound.acyclic;
}

nothing_in_use : (h : Heap) → EntriesInUse [] h
unfolding lookup
nothing_in_use h k b e = absurd (ground arith)

entries_in_use : (d : Option ℕ) (h : Heap) → IsClosed h → EntriesInUse (entries d h) h
unfolding entries lookup
entries_in_use none h closed k b e = absurd (ground arith)
entries_in_use (some a) h closed k b e = closed a k b e

-- In a heap without cyclic maps and dangling references the new context has its four maps in use, and
-- the heap is again without both.
pub new_data_context-IsSound :
    (caller : Option ℕ) (h : Heap)
    → IsSound h
    → IsRooted (new_data_context caller h).0 (new_data_context caller h).1
      × IsSound (new_data_context caller h).1
unfolding new_data_context root_map
new_data_context-IsSound caller h sound =
    let h1 = alloc (entries caller h) h in
    let s1 = alloc-IsSound (entries caller h) h (entries_in_use caller h sound.closed) sound in
    let h2 = alloc [] h1 in
    let s2 = alloc-IsSound [] h1 (nothing_in_use h1) s1 in
    let s3 = alloc-IsSound [] h2 (nothing_in_use h2) s2 in
    let s4 = alloc-IsSound [] (alloc [] h2) (nothing_in_use (alloc [] h2)) s3 in (roots, s4)
  where
    roots : IsRooted (new_data_context caller h).0 (new_data_context caller h).1
    roots input = (h.next, refl, omega arith)
    roots output = (h.next + 1, refl, omega arith)
    roots vars = (h.next + 2, refl, omega arith)
    roots nodes = (h.next + 3, refl, omega arith)

-- Two maps with the same entries read the same below them.
read_parts_alike :
    (x a : ℕ) (p : String) (t : List String) (h : Heap)
    → h.cell x ≡ h.cell a
    → read_parts (dict (some x)) (p ∷ t) h ≡ read_parts (dict (some a)) (p ∷ t) h
unfolding read_parts
read_parts_alike x a p t h same = rw (same, read_parts) refl

-- The heap of a new context, one map at a time.
module _ (caller : Option ℕ) (h : Heap) (closed : IsClosed h) where
  abbrev one : Heap
  one = alloc (entries caller h) h

  abbrev two : Heap
  two = alloc [] one

  abbrev three : Heap
  three = alloc [] two

  one-IsClosed : IsClosed one
  one-IsClosed = alloc-IsClosed (entries caller h) h (entries_in_use caller h closed) closed

  two-IsClosed : IsClosed two
  two-IsClosed = alloc-IsClosed [] one (nothing_in_use one) one-IsClosed

  three-IsClosed : IsClosed three
  three-IsClosed = alloc-IsClosed [] two (nothing_in_use two) two-IsClosed

  -- What the flow input reaches is older than the three empty maps.
  input-Reach : {b : ℕ} → Reach (alloc [] three) h.next b → Reach one h.next b × (b < one.next)
  input-Reach r =
      let (r3, _) = alloc-Reach [] three three-IsClosed r (omega arith) in
      let (r2, _) = alloc-Reach [] two two-IsClosed r3 (omega arith) in
      alloc-Reach [] one one-IsClosed r2 (omega arith)

  -- The three empty maps reach themselves alone.
  empty-Reach :
      (r : Root) (b : ℕ)
      → r ≢ input
      → (a : ℕ) → root_map (new_data_context caller h).0 r ≡ some a
      → Reach (alloc [] three) a b
      → one.next ≤ b
  unfolding new_data_context root_map
  empty-Reach input b ne a e r = absurd (ne refl)
  empty-Reach output b ne a e r =
      let same : h.next + 1 ≡ a = some-eq e in
      let (r3, _) = alloc-Reach [] three three-IsClosed r (omega arith) in
      let (r2, _) = alloc-Reach [] two two-IsClosed r3 (omega arith) in
      let last = alloc-Reach_empty one r2 (omega arith) in omega arith
  empty-Reach vars b ne a e r =
      let same : h.next + 2 ≡ a = some-eq e in
      let (r3, _) = alloc-Reach [] three three-IsClosed r (omega arith) in
      let last = alloc-Reach_empty two r3 (omega arith) in omega arith
  empty-Reach nodes b ne a e r =
      let same : h.next + 3 ≡ a = some-eq e in
      let last = alloc-Reach_empty three r (omega arith) in omega arith

  -- In a new context the flow input shares no map with the other roots.
  pub new_data_context-IsApart : IsApart (new_data_context caller h).0 (new_data_context caller h).1
  unfolding new_data_context
  new_data_context-IsApart r a i b ne root asked reached also =
      let old =
        (input-Reach (subst (λ x. Reach (alloc [] three) x b) (sym (some-eq asked)) reached)).1 in
      let young = empty-Reach r b ne a root also in omega arith

  -- The maps that were in use are as they were.
  new_data_context-cell : (b : ℕ) → b < h.next → (new_data_context caller h).1.cell b ≡ h.cell b
  unfolding new_data_context
  new_data_context-cell b lt =
      alloc-cell_old [] three b (omega arith)
      ∙ alloc-cell_old [] two b (omega arith)
      ∙ alloc-cell_old [] one b (omega arith)
      ∙ alloc-cell_old (entries caller h) h b (omega arith)

  new_cell : (new_data_context caller h).1.cell h.next ≡ entries caller h
  unfolding new_data_context
  new_cell =
      alloc-cell_old [] three h.next (omega arith)
      ∙ alloc-cell_old [] two h.next (omega arith)
      ∙ alloc-cell_old [] one h.next (omega arith)
      ∙ alloc-cell_new (entries caller h) h

  -- In a heap without dangling references, for a caller's map that is in use: a path below the flow
  -- input of a new context reads what the caller's map holds under it.
  pub read-new_data_context :
      (a : ℕ) (p : String) (t : List String) (root : String)
      → caller ≡ some a
      → a < h.next
      → root_of root ≡ some input
      → read_at (new_data_context caller h).0 (root, p ∷ t) (new_data_context caller h).1
        ≡ read_parts (dict caller) (p ∷ t) h
  unfolding new_data_context root_map entries
  read-new_data_context a p t root given used asked =
      let c = (new_data_context caller h).0 in
      let h' = (new_data_context caller h).1 in
      let copied : h'.cell h.next ≡ h'.cell a =
        new_cell ∙ rw given refl ∙ sym (new_data_context-cell a used) in
      read_at-some c (root, p ∷ t) h' input asked
      ∙ read_parts_alike h.next a p t h' copied
      ∙ read_parts_frame (p ∷ t) a h h'
          (λ b r. new_data_context-cell b (Reach-IsClosed closed used r))
      ∙ rw given refl
