-- ===== src/Tests/Bases.antt =====
-- Knowledge bases in the memory store, with a test for characters in place of the Unicode tables.
use Prim.Native.Char.{code}
use flowanything.Common.{
  ℕ, String, Bool, ◌≡◌, ◌≢◌, refl, some, List, [], ◌∷◌, All, In, inl, length, eqb, ltb, ok,
  if◌then◌else◌, arith, sort_stable, starts, trim_space, contains_text,
}
use flowanything.Common.Assoc.{lookup, insert}
use flowanything.Platform.{is_empty}
use flowanything.Knowledge.Types.{unset, Base, Query, Document, Chunk, top}
use flowanything.Knowledge.Chunker.{runes, new_chunk, chunk_document}
use flowanything.Knowledge.Chunker.Cover.{joined, Numbered, IsShort, chunk_document-IsCut}
use flowanything.Knowledge.Query.{validate_document, validate_knowledge_base}
use flowanything.Knowledge.Memory.{
  MemoryStore, new_memory_store, knowledge_bucket_key, candidate_chunks, index_document,
  search_chunks, is_disabled, base_or_zero,
}
use flowanything.Knowledge.Memory.Score.{Lexis, lexical_score}
use flowanything.Knowledge.Memory.Ranking.{IsRanked, search_chunks-IsRanked}
use flowanything.Knowledge.Memory.Indexing.{IsReplaced, bucket, chunks_of, index_document-Replaces}
use flowanything.Knowledge.Memory.Tenants.{candidate_chunks-crosses_tenants}
use flowanything.Knowledge.Service.{
  memory_service, new_document, index_result, index_knowledge, new_base, create_knowledge_base,
  knowledge_base,
}
use flowanything.Knowledge.Service.Storing.{
  index_knowledge-stores_text, create_knowledge_base-knowledge_base,
}

abbrev plain : Lexis
plain = record { to_lower = λ s. s; is_separator = λ c. eqb (code c) 32; sprint = λ v. "" }

abbrev digit : ℕ → String
digit n = if eqb n 0 then "0" else "1"

-- An order of titles.
abbrev ltb_text : String → String → Bool
ltb_text a b = ltb (length (runes a)) (length (runes b))

abbrev manual : Document
manual = record {
  id = "d1";
  tenant_id = "acme";
  kb_id = "kb";
  title = "Manual";
  text = "press the red button";
  metadata = [];
  version = "v1";
}

abbrev red : Query
red = record {
  id = "q";
  tenant_id = "acme";
  kb_ids = [];
  text = "red";
  top_k = top 1;
  filters = [];
  trace_id = "";
}

abbrev other_chunk : Chunk
other_chunk = record {
  id = "c";
  doc_id = "d";
  kb_id = "kb";
  text = "red";
  score = 0;
  metadata = [];
}

abbrev indexed : MemoryStore
indexed =
    index_document 7 manual (new_chunk digit manual 0 (runes manual.text) ∷ []) new_memory_store

-- A hit with the term twice: in the text, as a whole and as a term.
found :
    (search_chunks plain red indexed).chunks
    ≡ record (new_chunk digit manual 0 (runes manual.text)) { score = 11 } ∷ []
unfolding search_chunks index_document new_chunk runes sort_stable insert starts lookup trim_space
    lexical_score contains_text
found = refl

chunk_document-IsCut_example :
    (cs : List Chunk) × (chunk_document 30 digit manual ≡ some cs)
    × (joined cs ≡ runes manual.text)
    × All IsShort cs
    × Numbered digit manual 0 cs
unfolding runes
chunk_document-IsCut_example = chunk_document-IsCut 30 digit manual (omega arith)

search_chunks-IsRanked_example :
    IsRanked plain red (candidate_chunks red indexed) (search_chunks plain red indexed).chunks
search_chunks-IsRanked_example = search_chunks-IsRanked plain red indexed

index_document-Replaces_example :
    let cs = new_chunk digit manual 0 (runes manual.text) ∷ [] in
    IsReplaced manual cs
      (bucket "acme" "kb" indexed)
      (bucket "acme" "kb" (index_document 8 manual cs indexed))
    × ((key : String)
        → key ≢ knowledge_bucket_key "acme" "kb"
        → lookup key (index_document 8 manual cs indexed).chunks ≡ lookup key indexed.chunks)
    × ((base_or_zero (
          lookup
            (knowledge_bucket_key "acme" "kb")
            (index_document 8 manual cs indexed).knowledge_bases)).chunk_count
        ≡ length (bucket "acme" "kb" (index_document 8 manual cs indexed)))
unfolding new_chunk
index_document-Replaces_example =
    index_document-Replaces 8 manual (new_chunk digit manual 0 (runes manual.text) ∷ []) indexed
      (refl, tt)

-- The bucket of the tenant acme/eu.
abbrev neighbour : MemoryStore
neighbour = record new_memory_store {
  chunks = (knowledge_bucket_key "acme/eu" "kb", other_chunk ∷ []) ∷ [];
}

candidate_chunks-crosses_tenants_example : In other_chunk (candidate_chunks red neighbour)
unfolding knowledge_bucket_key is_disabled lookup
candidate_chunks-crosses_tenants_example =
    candidate_chunks-crosses_tenants red neighbour "eu" "kb" other_chunk (other_chunk ∷ []) refl
      (inl refl) refl (inl refl)

index_knowledge-stores_text_example :
    let v = memory_service plain ltb_text "f" 7 digit in
    let d = new_document v manual in
    (cs : List Chunk) × ((index_knowledge v manual indexed).0 ≡ ok (index_result v d cs))
    × (chunks_of d.id (bucket d.tenant_id d.kb_id (index_knowledge v manual indexed).1) ≡ cs)
    × (joined cs ≡ runes d.text)
    × All IsShort cs
unfolding validate_document new_document is_empty trim_space
index_knowledge-stores_text_example =
    index_knowledge-stores_text plain ltb_text "f" 7 digit manual indexed refl

abbrev handbook : Base
handbook = record {
  id = "";
  tenant_id = "acme";
  name = " Handbook ";
  description = "";
  status = unset;
  embedding_model = "";
  document_count = 3;
  chunk_count = 0;
  metadata = [];
  version = "";
  updated_at = 0;
}

create_knowledge_base-knowledge_base_example :
    let v = memory_service plain ltb_text "f" 7 digit in
    let made = new_base v handbook in
    let old =
      base_or_zero (lookup (knowledge_bucket_key made.tenant_id made.id) indexed.knowledge_bases) in
    ((create_knowledge_base v handbook indexed).0 ≡ ok made)
    × (knowledge_base v made.tenant_id made.id (create_knowledge_base v handbook indexed).1
        ≡ ok (record made { document_count = old.document_count; chunk_count = old.chunk_count }))
unfolding validate_knowledge_base new_base is_empty trim_space
create_knowledge_base-knowledge_base_example =
    create_knowledge_base-knowledge_base plain ltb_text "f" 7 digit handbook indexed refl refl
