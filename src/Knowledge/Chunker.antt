-- ===== src/Knowledge/Chunker.antt =====
-- internal/knowledge/domain/chunker.go: a document is cut into chunks that overlap.
pub mod Cover
use Prim.Native.Char.{Char}
use Prim.Native.String
use flowanything.Common.{
  ℕ, suc, zero, ◌+◌, ◌-◌, String, Option, none, some, List, [], ◌∷◌, ltb, leb, eqb, length, take,
  drop, if◌then◌else◌, concat,
}
use flowanything.Common.Assoc.{insert}
use flowanything.Engine.Values.{Entries, str, num}
use flowanything.Knowledge.Types.{Document, Chunk}

-- []rune(text), and string(runes)
unfoldable pub runes : String → List Char
runes String.[] = []
runes (String.◌∷◌ c s) = c ∷ runes s

unfoldable pub text_of : List Char → String
text_of [] = String.[]
text_of (c ∷ cs) = String.◌∷◌ c (text_of cs)

abbrev pub default_chunk_size : ℕ
default_chunk_size = 800

abbrev pub default_chunk_overlap : ℕ
default_chunk_overlap = 120

-- newChunk with copyMetadata; `decimal` is the %d of fmt.Sprintf.
unfoldable pub new_chunk : (ℕ → String) → Document → ℕ → List Char → Chunk
new_chunk decimal d index text = record {
  id = concat (concat d.id "_chunk_") (decimal index);
  doc_id = d.id;
  kb_id = d.kb_id;
  text = text_of text;
  score = 0;
  metadata = insert "chunk_index" (num "int" index) (insert "title" (str d.title) d.metadata);
}

-- text[start:end]
abbrev pub slice : {A : Type 0} → ℕ → ℕ → List A → List A
slice start end text = take (end - start) (drop start text)

-- end := start + chunkSize, at most the length
abbrev pub window_end : ℕ → ℕ → ℕ
window_end n start = if ltb n (start + default_chunk_size) then n else start + default_chunk_size

-- start = end - overlap, or end where that is negative
abbrev pub next_start : ℕ → ℕ
next_start end = if ltb end default_chunk_overlap then end else end - default_chunk_overlap

-- append, where the rest of the loop ends
abbrev pub in_front : {A : Type 0} → A → Option (List A) → Option (List A)
in_front x none = none
in_front x (some xs) = some (x ∷ xs)

-- The loop of ChunkDocument on fuel; `none` means that the fuel ran out.
unfoldable pub chunks_from : ℕ → (ℕ → String) → Document → List Char → ℕ → ℕ → Option (List Chunk)
unfolding new_chunk
chunks_from zero decimal d text start index = none
chunks_from (suc fuel) decimal d text start index =
    let end = window_end (length text) start in
    let chunk = new_chunk decimal d index (slice start end text) in
    let rest = chunks_from fuel decimal d text (next_start end) (suc index) in
    if ltb start (length text)
    then (if eqb end (length text) then some (chunk ∷ []) else in_front chunk rest)
    else some []

-- ChunkDocument; a text within one chunk is not cut.
unfoldable pub chunk_runes : ℕ → (ℕ → String) → Document → List Char → Option (List Chunk)
unfolding chunks_from new_chunk
chunk_runes fuel decimal d [] = some []
chunk_runes fuel decimal d (c ∷ cs) =
    if leb (length (c ∷ cs)) default_chunk_size
    then some (new_chunk decimal d 0 (c ∷ cs) ∷ [])
    else chunks_from fuel decimal d (c ∷ cs) 0 0

unfoldable pub chunk_document : ℕ → (ℕ → String) → Document → Option (List Chunk)
unfolding chunk_runes runes
chunk_document fuel decimal d = chunk_runes fuel decimal d (runes d.text)
