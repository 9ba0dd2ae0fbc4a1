-- ===== src/Knowledge/Memory/Indexing.antt =====
-- internal/knowledge/infrastructure/memory_store.go: what IndexDocument does to the chunks of a base.
use flowanything.Common.{
  String, ◌≡◌, ◌≢◌, refl, ap, ◌∙◌, List, [], ◌∷◌, ◌++◌, append-nil, ◌==◌, eq_iff, All,
  if◌then◌else◌, length, ℕ, arith,
}
use flowanything.Common.Assoc.{lookup, lookup-insert, lookup-insert_self}
use flowanything.Knowledge.Types.{Document, Chunk}
use flowanything.Knowledge.Memory.{
  MemoryStore, knowledge_bucket_key, chunks_or_nil, base_or_zero, without_document, index_document,
  upsert_knowledge_base_stats,
}

-- The chunks of one document, in order.
abbrev pub chunks_of : String → List Chunk → List Chunk
chunks_of id [] = []
chunks_of id (c ∷ cs) = let rest = chunks_of id cs in if c.doc_id == id then c ∷ rest else rest

-- The chunks of a bucket.
abbrev pub bucket : String → String → MemoryStore → List Chunk
bucket tenant_id kb_id s = chunks_or_nil (lookup (knowledge_bucket_key tenant_id kb_id) s.chunks)

chunks_of-append :
    (id : String) (xs ys : List Chunk)
    → chunks_of id (xs ++ ys) ≡ chunks_of id xs ++ chunks_of id ys
chunks_of-append id [] ys = refl
chunks_of-append id (x ∷ xs) ys = ground (arith, chunks_of-append id xs ys)

chunks_of-without_self :
    (id : String) (cs : List Chunk) → chunks_of id (without_document id cs) ≡ []
unfolding without_document
chunks_of-without_self id [] = refl
chunks_of-without_self id (c ∷ cs) = ground (arith, chunks_of-without_self id cs)

chunks_of-without_other :
    (id other : String) (cs : List Chunk)
    → other ≢ id
    → chunks_of other (without_document id cs) ≡ chunks_of other cs
unfolding without_document
chunks_of-without_other id other [] ne = refl
chunks_of-without_other id other (c ∷ cs) ne =
    ground
      (arith, chunks_of-without_other id other cs ne, eq_iff c.doc_id id, eq_iff c.doc_id other)

chunks_of-own :
    (id : String) (cs : List Chunk) → All (λ (c : Chunk). c.doc_id ≡ id) cs → chunks_of id cs ≡ cs
chunks_of-own id [] all = refl
chunks_of-own id (c ∷ cs) (e, all) = ground (arith, chunks_of-own id cs all, eq_iff c.doc_id id)

chunks_of-foreign :
    (id other : String) (cs : List Chunk)
    → other ≢ id
    → All (λ (c : Chunk). c.doc_id ≡ id) cs
    → chunks_of other cs ≡ []
chunks_of-foreign id other [] ne all = refl
chunks_of-foreign id other (c ∷ cs) ne (e, all) =
    ground (arith, chunks_of-foreign id other cs ne all, eq_iff c.doc_id other)

-- What a bucket holds after a document was indexed.
pub record IsReplaced (d : Document) (cs old new : List Chunk) : Type 0 where
  pub own : chunks_of d.id new ≡ cs
  pub others : (id : String) → id ≢ d.id → chunks_of id new ≡ chunks_of id old

replaced :
    (d : Document) (cs old : List Chunk)
    → All (λ (c : Chunk). c.doc_id ≡ d.id) cs
    → IsReplaced d cs old (without_document d.id old ++ cs)
replaced d cs old all = record {
  own =
      chunks_of-append d.id (without_document d.id old) cs
      ∙ ap (λ (xs : List Chunk). xs ++ chunks_of d.id cs) (chunks_of-without_self d.id old)
      ∙ chunks_of-own d.id cs all;
  others = λ id ne.
      chunks_of-append id (without_document d.id old) cs
      ∙ ap (λ (xs : List Chunk). xs ++ chunks_of id cs) (chunks_of-without_other d.id id old ne)
      ∙ ap (λ (xs : List Chunk). chunks_of id old ++ xs) (chunks_of-foreign d.id id cs ne all)
      ∙ append-nil (chunks_of id old);
}

-- IndexDocument, for chunks that carry the id of their document: the chunks of the document are replaced
-- by these, those of the other documents of the knowledge base stay in their order, other buckets stay as
-- they are, and the chunk count of the knowledge base is the number of chunks in its bucket.
pub index_document-Replaces :
    (now : ℕ) (d : Document) (cs : List Chunk) (s : MemoryStore)
    → All (λ (c : Chunk). c.doc_id ≡ d.id) cs
    → IsReplaced d cs
        (bucket d.tenant_id d.kb_id s)
        (bucket d.tenant_id d.kb_id (index_document now d cs s))
      × ((key : String)
          → key ≢ knowledge_bucket_key d.tenant_id d.kb_id
          → lookup key (index_document now d cs s).chunks ≡ lookup key s.chunks)
      × ((base_or_zero (
            lookup
              (knowledge_bucket_key d.tenant_id d.kb_id)
              (index_document now d cs s).knowledge_bases)).chunk_count
          ≡ length (bucket d.tenant_id d.kb_id (index_document now d cs s)))
unfolding index_document upsert_knowledge_base_stats
index_document-Replaces now d cs s all =
    let key = knowledge_bucket_key d.tenant_id d.kb_id in
    (
      rw (lookup-insert_self key _ s.chunks) (replaced d cs (bucket d.tenant_id d.kb_id s) all),
      (λ k ne. lookup-insert key k _ s.chunks ∙ ground (arith, eq_iff key k)),
      rw (lookup-insert_self key _ s.chunks, lookup-insert_self key _ s.knowledge_bases) refl,
    )
