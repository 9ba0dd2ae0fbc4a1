-- ===== src/Knowledge/Service/Storing.antt =====
-- internal/knowledge/application/service.go over the memory store: what a call stores, another reads.
use flowanything.Common.{
  ℕ, suc, String, Bool, ◌≡◌, refl, sym, ap, ◌∙◌, false, inl, inr, none, some, List, length, eqb,
  All, Outcome, ok, arith, Bool-cases,
}
use flowanything.Common.Assoc.{lookup, lookup-insert_self}
use flowanything.Platform.{AppError, is_empty}
use flowanything.Knowledge.Types.{Base, Document, Chunk}
use flowanything.Knowledge.Chunker.{runes}
use flowanything.Knowledge.Chunker.Cover.{joined, Numbered, IsShort, chunk_document-IsCut}
use flowanything.Knowledge.Query.{validate_document, validate_knowledge_base}
use flowanything.Knowledge.Memory.{
  MemoryStore, knowledge_bucket_key, base_or_zero, save_knowledge_base, get_knowledge_base,
}
use flowanything.Knowledge.Memory.Indexing.{bucket, chunks_of, index_document-Replaces}
use flowanything.Knowledge.Memory.Score.{Lexis}
use flowanything.Knowledge.Service.{
  Service, memory_service, index_knowledge, new_document, all_chunks, index_result,
  create_knowledge_base, knowledge_base, new_base, id_or,
}

Numbered-doc_id :
    (decimal : ℕ → String) (d : Document) (index : ℕ) (cs : List Chunk)
    → Numbered decimal d index cs
    → All (λ (c : Chunk). c.doc_id ≡ d.id) cs
Numbered-doc_id decimal d index List.[] numbered = tt
Numbered-doc_id decimal d index (List.◌∷◌ c cs) (i, e, k, numbered) =
    (e, Numbered-doc_id decimal d (suc index) cs numbered)

-- IndexDocument of the service over the memory store, for a document that passes the validation: it
-- returns the number of the chunks and the chunks, the store then holds these as the chunks of the
-- document and no others, and they join to the text of the document.
pub index_knowledge-stores_text :
    (x : Lexis) (before : String → String → Bool) (fresh : String) (now : ℕ) (decimal : ℕ → String)
    (d : Document) (s : MemoryStore)
    → validate_document (new_document (memory_service x before fresh now decimal) d) ≡ none
    → let v = memory_service x before fresh now decimal in
      let d' = new_document v d in
      (cs : List Chunk) × ((index_knowledge v d s).0 ≡ ok (index_result v d' cs))
      × (chunks_of d'.id (bucket d'.tenant_id d'.kb_id (index_knowledge v d s).1) ≡ cs)
      × (joined cs ≡ runes d'.text)
      × All IsShort cs
unfolding index_knowledge all_chunks
index_knowledge-stores_text x before fresh now decimal d s valid =
    let v : Service MemoryStore = memory_service x before fresh now decimal in
    let d' = new_document v d in
    let (cs, runs, covers, short, numbered) =
      chunk_document-IsCut (suc (length (runes d'.text))) decimal d' (omega arith) in
    let replaced = index_document-Replaces now d' cs s (Numbered-doc_id decimal d' 0 cs numbered) in
    (cs, rw (valid, runs) refl, rw (valid, runs) replaced.0.own, covers, short)

validate_knowledge_base-tenant :
    (b : Base) → validate_knowledge_base b ≡ none → is_empty b.tenant_id ≡ false
unfolding validate_knowledge_base
validate_knowledge_base-tenant b valid = ground arith

id_or-not_empty : (fresh id : String) → is_empty fresh ≡ false → is_empty (id_or fresh id) ≡ false
id_or-not_empty fresh id e = ground arith

get_knowledge_base-found :
    (tenant_id id : String) (b : Base) (s : MemoryStore)
    → lookup (knowledge_bucket_key tenant_id id) s.knowledge_bases ≡ some b
    → get_knowledge_base tenant_id id s ≡ ok b
unfolding get_knowledge_base
get_knowledge_base-found tenant_id id b s found = ground (arith, found)

-- GetKnowledgeBase of the store after SaveKnowledgeBase, at the time of the base.
get_knowledge_base-save_knowledge_base :
    (now : ℕ) (b : Base) (s : MemoryStore)
    → b.updated_at ≡ now
    → let old = base_or_zero (lookup (knowledge_bucket_key b.tenant_id b.id) s.knowledge_bases) in
      get_knowledge_base b.tenant_id b.id (save_knowledge_base now b s)
      ≡ ok (record b { document_count = old.document_count; chunk_count = old.chunk_count })
unfolding save_knowledge_base
get_knowledge_base-save_knowledge_base now b s same =
    let stored = lookup-insert_self (knowledge_bucket_key b.tenant_id b.id) _ s.knowledge_bases in
    get_knowledge_base-found b.tenant_id b.id _ _ stored ∙ elim (Bool-cases (eqb b.updated_at 0)) [
      | inl e ↦ rw e (let z : now ≡ b.updated_at = sym same in rw z refl)
      | inr e ↦ rw e refl
    ]

knowledge_base-get_knowledge_base :
    (x : Lexis) (before : String → String → Bool) (fresh : String) (now : ℕ) (decimal : ℕ → String)
    (tenant_id id : String) (s : MemoryStore)
    → is_empty tenant_id ≡ false
    → is_empty id ≡ false
    → knowledge_base (memory_service x before fresh now decimal) tenant_id id s
      ≡ get_knowledge_base tenant_id id s
unfolding knowledge_base
knowledge_base-get_knowledge_base x before fresh now decimal tenant_id id s tenant named =
    rw (tenant, named) refl

create_knowledge_base-save_knowledge_base :
    (x : Lexis) (before : String → String → Bool) (fresh : String) (now : ℕ) (decimal : ℕ → String)
    (b : Base) (s : MemoryStore)
    → validate_knowledge_base (new_base (memory_service x before fresh now decimal) b) ≡ none
    → let v = memory_service x before fresh now decimal in
      create_knowledge_base v b s ≡ (ok (new_base v b), save_knowledge_base now (new_base v b) s)
unfolding create_knowledge_base
create_knowledge_base-save_knowledge_base x before fresh now decimal b s valid = rw valid refl

-- CreateKnowledgeBase of the service over the memory store, for a base that passes the validation, then
-- GetKnowledgeBase: the call returns the base that it made, and the store returns the same base, except
-- that the counts are those the store had for this key.
pub create_knowledge_base-knowledge_base :
    (x : Lexis) (before : String → String → Bool) (fresh : String) (now : ℕ) (decimal : ℕ → String)
    (b : Base) (s : MemoryStore)
    → is_empty fresh ≡ false
    → validate_knowledge_base (new_base (memory_service x before fresh now decimal) b) ≡ none
    → let v = memory_service x before fresh now decimal in
      let made = new_base v b in
      let old =
        base_or_zero (lookup (knowledge_bucket_key made.tenant_id made.id) s.knowledge_bases) in
      ((create_knowledge_base v b s).0 ≡ ok made)
      × (knowledge_base v made.tenant_id made.id (create_knowledge_base v b s).1
          ≡ ok (record made { document_count = old.document_count; chunk_count = old.chunk_count }))
unfolding new_base
create_knowledge_base-knowledge_base x before fresh now decimal b s named valid =
    let v : Service MemoryStore = memory_service x before fresh now decimal in
    let made = new_base v b in
    let tenant = validate_knowledge_base-tenant made valid in
    let id = id_or-not_empty fresh b.id named in
    let created = create_knowledge_base-save_knowledge_base x before fresh now decimal b s valid in
    (
      ap (λ (r : Outcome AppError Base × MemoryStore). r.0) created,
      ap (λ (r : Outcome AppError Base × MemoryStore). knowledge_base v made.tenant_id made.id r.1)
            created
          ∙ knowledge_base-get_knowledge_base x before fresh now decimal made.tenant_id made.id _
              tenant id
          ∙ get_knowledge_base-save_knowledge_base now made s refl,
    )
