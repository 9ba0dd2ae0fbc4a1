-- ===== src/Knowledge/Chunker/Cover.antt =====
-- internal/knowledge/domain/chunker.go: the loop of ChunkDocument, its fuel and its chunks.
use Prim.Native.Char.{Char}
use flowanything.Common.{
  ℕ, suc, zero, ◌+◌, ◌-◌, ◌≤◌, ◌<◌, String, ◌≡◌, refl, sym, ap, ◌∙◌, ◌⊎◌, inl, inr, Bool-cases,
  some, List, [], ◌∷◌, ◌++◌, ltb, leb, eqb, length, drop, drop-zero, drop-drop, drop-take,
  length-take_le, All, concat, arith, append-nil, leb-false,
}
use flowanything.Knowledge.Types.{Document, Chunk}
use flowanything.Knowledge.Chunker.{
  runes, text_of, default_chunk_size, default_chunk_overlap, new_chunk, slice, window_end,
  next_start, chunks_from, chunk_runes, chunk_document,
}

-- []rune(string(r)) is r.
runes-text_of : (cs : List Char) → runes (text_of cs) ≡ cs
unfolding runes text_of
runes-text_of [] = refl
runes-text_of (c ∷ cs) = ap (λ (ds : List Char). c ∷ ds) (runes-text_of cs)

-- The texts of the chunks put together, each after the first without the overlap with the one before.
abbrev pub tails : List Chunk → List Char
tails [] = []
tails (c ∷ cs) = drop default_chunk_overlap (runes c.text) ++ tails cs

abbrev pub joined : List Chunk → List Char
joined [] = []
joined (c ∷ cs) = runes c.text ++ tails cs

-- The chunks of a document carry its ids, and are numbered in order from an index on.
abbrev pub Numbered : (ℕ → String) → Document → ℕ → List Chunk → Type 0
Numbered decimal d index [] = Unit
Numbered decimal d index (c ∷ cs) =
    (c.id ≡ concat (concat d.id "_chunk_") (decimal index))
    × (c.doc_id ≡ d.id)
    × (c.kb_id ≡ d.kb_id)
    × Numbered decimal d (suc index) cs

abbrev pub IsShort : Chunk → Type 0
IsShort c = length (runes c.text) ≤ default_chunk_size

slice-overlap :
    {A : Type 0} (start end k : ℕ) (text : List A)
    → start + k ≤ end
    → drop k (slice start end text) ++ drop end text ≡ drop (start + k) text
slice-overlap {A} start end k text h =
    let whole : start + (end - start) ≡ end = omega arith in
    let rest : drop (end - start) (drop start text) ≡ drop end text =
      drop-drop (end - start) start text ∙ ap (λ (m : ℕ). drop m text) whole in
    ap (λ (ys : List A). drop k (slice start end text) ++ ys) (sym rest)
    ∙ drop-take k (end - start) (drop start text) (omega arith)
    ∙ drop-drop k start text

slice-cut :
    {A : Type 0} (start end : ℕ) (text : List A)
    → start ≤ end
    → slice start end text ++ drop end text ≡ drop start text
slice-cut {A} start end text h =
    let same : start + 0 ≡ start = omega arith in
    ap (λ (ys : List A). ys ++ drop end text) (sym (drop-zero (slice start end text)))
    ∙ slice-overlap start end 0 text (omega arith)
    ∙ ap (λ (m : ℕ). drop m text) same

drop-none : {A : Type 0} (xs : List A) → drop (length xs) xs ≡ []
drop-none [] = refl
drop-none (x ∷ xs) = drop-none xs

module _ (decimal : ℕ → String) (d : Document) (text : List Char) where
  -- The chunks from a start on that are numbered from an index on.
  record Cut (start index : ℕ) (cs : List Chunk) : Type 0 where
    covers : tails cs ≡ drop (start + default_chunk_overlap) text
    sized : All IsShort cs
    numbered : Numbered decimal d index cs

  slice-IsShort :
      (start end : ℕ)
      → end ≤ start + default_chunk_size
      → length (runes (text_of (slice start end text))) ≤ default_chunk_size
  slice-IsShort start end h =
      rw (runes-text_of (slice start end text))
        (omega (arith, length-take_le (end - start) (drop start text)))

  -- The chunk from start to end in front of what follows from its overlap on.
  tails-slice :
      (start end : ℕ) (rest : List Char)
      → start + default_chunk_overlap ≤ end
      → rest ≡ drop end text
      → drop default_chunk_overlap (runes (text_of (slice start end text))) ++ rest
        ≡ drop (start + default_chunk_overlap) text
  tails-slice start end rest h e =
      rw (runes-text_of (slice start end text), e)
        (slice-overlap start end default_chunk_overlap text h)

  Cut-last :
      (start index : ℕ)
      → length text ≤ start + default_chunk_size
      → start + default_chunk_overlap ≤ length text
      → Cut start index (new_chunk decimal d index (slice start (length text) text) ∷ [])
  unfolding new_chunk
  Cut-last start index e h = record {
    covers = tails-slice start (length text) [] h (sym (drop-none text));
    sized = (slice-IsShort start (length text) e, tt);
    numbered = (refl, refl, refl, tt);
  }

  Cut-more :
      (start index end next : ℕ) (cs : List Chunk)
      → end ≡ start + default_chunk_size
      → next + default_chunk_overlap ≡ end
      → Cut next (suc index) cs
      → Cut start index (new_chunk decimal d index (slice start end text) ∷ cs)
  unfolding new_chunk
  Cut-more start index end next cs e over c = record {
    covers =
        tails-slice start end (tails cs) (omega arith)
          (c.covers ∙ ap (λ (m : ℕ). drop m text) over);
    sized = (slice-IsShort start end (omega arith), c.sized);
    numbered = (refl, refl, refl, c.numbered);
  }

  -- The two ways that a window ends.
  window_end-cases :
      (start : ℕ)
      → start + default_chunk_overlap ≤ length text
      → ((window_end (length text) start ≡ length text)
          × (length text ≤ start + default_chunk_size))
        ⊎ ((window_end (length text) start ≡ start + default_chunk_size)
            × (start + default_chunk_size < length text)
            × (next_start (window_end (length text) start) ≡ start + 680))
  window_end-cases start h = elim (Bool-cases (ltb (length text) (start + default_chunk_size))) [
    | inl past ↦ inl (ground arith, ground arith)
    | inr within ↦ elim (Bool-cases (eqb (length text) (start + default_chunk_size))) [
      | inl exact ↦ inl (ground arith, ground arith)
      | inr less ↦ inr (ground arith, ground arith, ground arith)
    ]
  ]

  chunks_from-Cut :
      (fuel start index : ℕ)
      → length text - start < fuel
      → start + default_chunk_overlap ≤ length text
      → (cs : List Chunk) × (chunks_from fuel decimal d text start index ≡ some cs)
        × Cut start index cs
  unfolding chunks_from
  chunks_from-Cut zero start index h room = absurd (omega arith)
  chunks_from-Cut (suc fuel) start index h room = elim (window_end-cases start room) [
    | inl (last, size) ↦ (
      new_chunk decimal d index (slice start (length text) text) ∷ [],
      rw last (ground arith),
      Cut-last start index size room,
    )
    | inr (full, less, next) ↦
        let (cs, runs, cut) =
          chunks_from-Cut fuel (start + 680) (suc index) (omega arith) (omega arith) in
        (
          new_chunk decimal d index (slice start (start + default_chunk_size) text) ∷ cs,
          rw (next, full, runs) (ground arith),
          Cut-more start index (start + default_chunk_size) (start + 680) cs refl (omega arith) cut,
        )
  ]

-- A text that is longer than one chunk.
long-IsCut :
    (fuel : ℕ) (decimal : ℕ → String) (d : Document) (text : List Char)
    → length text < suc fuel
    → default_chunk_size < length text
    → (cs : List Chunk) × (chunks_from (suc fuel) decimal d text 0 0 ≡ some cs)
      × (joined cs ≡ text)
      × All IsShort cs
      × Numbered decimal d 0 cs
unfolding chunks_from new_chunk
long-IsCut fuel decimal d text enough long =
    let end : window_end (length text) 0 ≡ 800 = ground arith in
    let next : next_start 800 ≡ 680 = ground arith in
    let (cs, runs, cut) = chunks_from-Cut decimal d text fuel 680 1 (omega arith) (omega arith) in
    (
      new_chunk decimal d 0 (slice 0 800 text) ∷ cs,
      rw (end, next, runs) (ground arith),
      rw (runes-text_of (slice 0 800 text), cut.covers)
          (slice-cut 0 800 text (omega arith) ∙ drop-zero text),
      (slice-IsShort decimal d text 0 800 (omega arith), cut.sized),
      (refl, refl, refl, cut.numbered),
    )

chunk_runes-IsCut :
    (fuel : ℕ) (decimal : ℕ → String) (d : Document) (text : List Char)
    → length text < fuel
    → (cs : List Chunk) × (chunk_runes fuel decimal d text ≡ some cs)
      × (joined cs ≡ text)
      × All IsShort cs
      × Numbered decimal d 0 cs
unfolding chunk_runes new_chunk
chunk_runes-IsCut fuel decimal d [] enough = ([], refl, refl, tt, tt)
chunk_runes-IsCut zero decimal d (c ∷ cs) enough = absurd (omega arith)
chunk_runes-IsCut (suc fuel) decimal d (c ∷ cs) enough =
    elim (Bool-cases (leb (length (c ∷ cs)) default_chunk_size)) [
      | inl short ↦ (
        new_chunk decimal d 0 (c ∷ cs) ∷ [],
        rw short refl,
        append-nil _ ∙ runes-text_of (c ∷ cs),
        (rw (runes-text_of (c ∷ cs)) (ground arith), tt),
        (refl, refl, refl, tt),
      )
      | inr long ↦ rw long (long-IsCut fuel decimal d (c ∷ cs) enough (leb-false long))
    ]

-- ChunkDocument ends within as many rounds as the text has characters. Its chunks have at most 800
-- characters each, carry the ids of the document and are numbered from 0 in order; put together, each
-- after the first without its 120 characters of overlap, they are the text of the document.
pub chunk_document-IsCut :
    (fuel : ℕ) (decimal : ℕ → String) (d : Document)
    → length (runes d.text) < fuel
    → (cs : List Chunk) × (chunk_document fuel decimal d ≡ some cs)
      × (joined cs ≡ runes d.text)
      × All IsShort cs
      × Numbered decimal d 0 cs
unfolding chunk_document
chunk_document-IsCut fuel decimal d enough = chunk_runes-IsCut fuel decimal d (runes d.text) enough
