-- ===== src/Knowledge/Service.antt =====
-- internal/knowledge/application/service.go, over the ports of internal/knowledge/ports.
pub mod Storing
use flowanything.Common.{
  ℕ, suc, String, Bool, ◌||◌, Option, none, some, List, [], ◌==◌, eqb, length, trim_space,
  if◌then◌else◌, Outcome, ok, err, panic,
}
use flowanything.Platform.{AppError, new, invalid_argument, unavailable, is_empty}
use flowanything.Knowledge.Types.{
  BaseStatus, unset, draft, enabled, disabled, TopK, negative, top, Base, Query, Document, Chunk,
  SearchResult, IndexResult,
}
use flowanything.Knowledge.Chunker.{runes, chunk_document}
use flowanything.Knowledge.Query.{validate_knowledge_base, validate_query, validate_document}
use flowanything.Knowledge.Memory.{
  MemoryStore, save_knowledge_base, get_knowledge_base, list_knowledge_bases, list_documents,
  index_document, search_chunks,
}
use flowanything.Knowledge.Memory.Score.{Lexis}

-- KnowledgeBaseRepository, DocumentIndexer and Retriever over the stored state `S`.
pub record BaseRepository (S : Type 0) : Type 0 where
  pub save_base : Base → S → Outcome AppError S
  pub get_base : String → String → S → Outcome AppError Base
  pub bases_of : String → S → Outcome AppError (List Base)
  pub documents_of : String → String → S → Outcome AppError (List Document)

pub record DocumentIndexer (S : Type 0) : Type 0 where
  pub index : Document → List Chunk → S → Outcome AppError S

pub record Retriever (S : Type 0) : Type 0 where
  pub search : Query → S → Outcome AppError SearchResult

-- Service, with its ports that may be nil; `fresh` is what id.New gives, `now` the time, and `decimal`
-- the %d of fmt.Sprintf.
pub record Service (S : Type 0) : Type 0 where
  pub bases : Option (BaseRepository S)
  pub indexer : Option (DocumentIndexer S)
  pub retriever : Option (Retriever S)
  pub fresh : String
  pub now : ℕ
  pub decimal : ℕ → String

abbrev pub id_or : String → String → String
id_or fresh id = if is_empty id then fresh else id

abbrev pub text_or : String → String → String
text_or default text = if text == "" then default else text

abbrev pub status_or : BaseStatus → BaseStatus → BaseStatus
status_or default unset = default
status_or default s = s

abbrev pub required : {A : Type 0} → String → Outcome AppError A
required message = err (new invalid_argument message)

abbrev pub unconfigured : {A : Type 0} → String → Outcome AppError A
unconfigured message = err (new unavailable message)

module _ {S : Type 0} (v : Service S) where
  -- A store call that returns its state, followed by the value.
  abbrev pub stored : {A : Type 0} → A → S → Outcome AppError S → Outcome AppError A × S
  stored a s (ok s') = (ok a, s')
  stored a s (err e) = (err e, s)
  stored a s panic = (panic, s)

  save_valid : Base → BaseRepository S → S → Outcome AppError Base × S
  save_valid b repository s = stored b s (repository.save_base b s)

  save_checked : Base → Option AppError → Option (BaseRepository S) → S → Outcome AppError Base × S
  unfolding save_valid
  save_checked b (some e) repository s = (err e, s)
  save_checked b none none s = (unconfigured "knowledge base repository is not configured", s)
  save_checked b none (some repository) s = save_valid b repository s

  -- CreateKnowledgeBase, before the validation
  unfoldable pub new_base : Base → Base
  unfolding is_empty
  new_base b = record b {
    id = id_or v.fresh b.id;
    version = text_or "v1" b.version;
    status = status_or draft b.status;
    name = trim_space b.name;
    description = trim_space b.description;
    updated_at = v.now;
  }

  -- CreateKnowledgeBase
  unfoldable pub create_knowledge_base : Base → S → Outcome AppError Base × S
  unfolding new_base save_checked
  create_knowledge_base b s =
      save_checked (new_base b) (validate_knowledge_base (new_base b)) v.bases s

  -- What UpdateKnowledgeBase saves, for the base that is there.
  unfoldable pub merged_base : Base → Base → Base
  merged_base b current = record b {
    version = text_or current.version b.version;
    status = status_or current.status b.status;
    document_count = current.document_count;
    chunk_count = current.chunk_count;
    updated_at = v.now;
  }

  update_found : Base → BaseRepository S → Outcome AppError Base → S → Outcome AppError Base × S
  unfolding merged_base save_checked
  update_found b repository (ok current) s =
      save_checked (merged_base b current) (validate_knowledge_base (merged_base b current))
        (some repository) s
  update_found b repository (err e) s = (err e, s)
  update_found b repository panic s = (panic, s)

  -- UpdateKnowledgeBase
  unfoldable pub update_knowledge_base : Base → S → Outcome AppError Base × S
  unfolding update_found is_empty
  update_knowledge_base b s =
      if is_empty b.tenant_id
      then (required "tenant_id is required", s)
      else if is_empty b.id
      then (required "kb_id is required", s)
      else elim v.bases [
        | none ↦ (unconfigured "knowledge base repository is not configured", s)
        | some repository ↦ update_found b repository (repository.get_base b.tenant_id b.id s) s
      ]

  -- status != Enabled && status != Disabled
  abbrev pub is_switch : BaseStatus → Bool
  is_switch enabled = Bool.true
  is_switch disabled = Bool.true
  is_switch _ = Bool.false

  set_found : BaseStatus → BaseRepository S → Outcome AppError Base → S → Outcome AppError Base × S
  unfolding save_valid
  set_found status repository (ok b) s =
      save_valid (record b { status = status; updated_at = v.now }) repository s
  set_found status repository (err e) s = (err e, s)
  set_found status repository panic s = (panic, s)

  -- SetKnowledgeBaseStatus
  unfoldable pub set_knowledge_base_status :
      String → String → BaseStatus → S → Outcome AppError Base × S
  unfolding set_found is_empty
  set_knowledge_base_status tenant_id kb_id status s =
      if is_empty tenant_id
      then (required "tenant_id is required", s)
      else if is_empty kb_id
      then (required "kb_id is required", s)
      else if is_switch status
      then elim v.bases [
        | none ↦ (unconfigured "knowledge base repository is not configured", s)
        | some repository ↦ set_found status repository (repository.get_base tenant_id kb_id s) s
      ]
      else (required "unsupported knowledge base status transition", s)

  -- ListKnowledgeBases
  unfoldable pub knowledge_bases : String → S → Outcome AppError (List Base)
  unfolding is_empty
  knowledge_bases tenant_id s =
      if is_empty tenant_id
      then required "tenant_id is required"
      else elim v.bases [ none ↦ ok [] | some repository ↦ repository.bases_of tenant_id s ]

  -- GetKnowledgeBase
  unfoldable pub knowledge_base : String → String → S → Outcome AppError Base
  unfolding is_empty
  knowledge_base tenant_id kb_id s =
      if is_empty tenant_id
      then required "tenant_id is required"
      else if is_empty kb_id
      then required "kb_id is required"
      else elim v.bases [
        | none ↦ unconfigured "knowledge base repository is not configured"
        | some repository ↦ repository.get_base tenant_id kb_id s
      ]

  -- ListDocuments
  unfoldable pub documents : String → String → S → Outcome AppError (List Document)
  unfolding is_empty
  documents tenant_id kb_id s =
      if is_empty tenant_id
      then required "tenant_id is required"
      else if is_empty kb_id
      then required "kb_id is required"
      else elim v.bases [
        | none ↦ ok []
        | some repository ↦ repository.documents_of tenant_id kb_id s
      ]

  -- The document that IndexDocument works on.
  unfoldable pub new_document : Document → Document
  unfolding is_empty
  new_document d = record d { id = id_or v.fresh d.id; version = text_or "v1" d.version }

  abbrev pub chunks_or_none : Option (List Chunk) → List Chunk
  chunks_or_none none = []
  chunks_or_none (some cs) = cs

  -- domain.ChunkDocument, with fuel for each character
  unfoldable pub all_chunks : Document → List Chunk
  unfolding chunk_document runes
  all_chunks d = chunks_or_none (chunk_document (suc (length (runes d.text))) v.decimal d)

  abbrev pub index_result : Document → List Chunk → IndexResult
  index_result d cs = record {
    document_id = d.id;
    kb_id = d.kb_id;
    chunk_count = length cs;
    chunks = cs;
  }

  index_valid :
      Document → Option AppError → Option (DocumentIndexer S) → S → Outcome AppError IndexResult × S
  unfolding all_chunks
  index_valid d (some e) indexer s = (err e, s)
  index_valid d none none s = (unconfigured "knowledge indexer is not configured", s)
  index_valid d none (some indexer) s =
      stored (index_result d (all_chunks d)) s (indexer.index d (all_chunks d) s)

  -- IndexDocument
  unfoldable pub index_knowledge : Document → S → Outcome AppError IndexResult × S
  unfolding new_document index_valid
  index_knowledge d s =
      index_valid (new_document d) (validate_document (new_document d)) v.indexer s

  -- if query.TopK == 0
  abbrev pub top_or_five : TopK → TopK
  top_or_five (top n) = if eqb n 0 then top 5 else top n
  top_or_five (negative n) = negative n

  unfoldable pub new_query : Query → Query
  unfolding is_empty
  new_query q = record q { id = id_or v.fresh q.id; top_k = top_or_five q.top_k }

  search_valid : Query → Option AppError → Option (Retriever S) → S → Outcome AppError SearchResult
  search_valid q (some e) retriever s = err e
  search_valid q none none s = unconfigured "knowledge retriever is not configured"
  search_valid q none (some retriever) s = retriever.search q s

  -- Search
  unfoldable pub search_knowledge : Query → S → Outcome AppError SearchResult
  unfolding new_query search_valid
  search_knowledge q s = search_valid (new_query q) (validate_query (new_query q)) v.retriever s

-- A service over the memory store.
abbrev pub memory_bases : ℕ → (String → String → Bool) → BaseRepository MemoryStore
memory_bases now before = record {
  save_base = λ b s. ok (save_knowledge_base now b s);
  get_base = get_knowledge_base;
  bases_of = λ tenant_id s. ok (list_knowledge_bases tenant_id s);
  documents_of = λ tenant_id kb_id s. ok (list_documents before tenant_id kb_id s);
}

abbrev pub memory_service :
    Lexis → (String → String → Bool) → String → ℕ → (ℕ → String) → Service MemoryStore
memory_service x before fresh now decimal = record {
  bases = some (memory_bases now before);
  indexer = some (record { index = λ d cs s. ok (index_document now d cs s) });
  retriever = some (record { search = λ q s. ok (search_chunks x q s) });
  fresh = fresh;
  now = now;
  decimal = decimal;
}
