-- ===== src/Knowledge/Memory.antt =====
-- internal/knowledge/infrastructure/memory_store.go: the store of knowledge bases, and its search.
pub mod Score
pub mod Ranking
pub mod Indexing
pub mod Tenants
use flowanything.Common.{
  ℕ, suc, ◌+◌, String, Bool, true, false, not, ◌&&◌, ◌||◌, Option, none, some, List, [], ◌∷◌, ◌++◌,
  ◌==◌, ltb, eqb, length, take, concat, starts, trim_prefix, trim_space, if◌then◌else◌, Outcome, ok,
  err, sort_stable,
}
use flowanything.Common.Assoc.{lookup, insert}
use flowanything.Engine.Values.{Value, null, str, Entries}
use flowanything.Platform.{AppError, new, not_found, is_empty}
use flowanything.Knowledge.Types.{
  BaseStatus, unset, enabled, disabled, TopK, negative, top, Base, Query, Document, Chunk,
  SearchResult,
}
use flowanything.Knowledge.Memory.Score.{Lexis, lexical_score, to_string}

-- MemoryStore
pub record MemoryStore : Type 0 where
  pub knowledge_bases : List (String × Base)
  pub documents : List (String × Document)
  pub chunks : List (String × List Chunk)

-- NewMemoryStore
abbrev pub new_memory_store : MemoryStore
new_memory_store = record { knowledge_bases = []; documents = []; chunks = [] }

-- knowledgeBucketKey, documentKey
unfoldable pub knowledge_bucket_key : String → String → String
knowledge_bucket_key tenant_id kb_id = concat (concat tenant_id "/") kb_id

unfoldable pub document_key : String → String → String → String
unfolding knowledge_bucket_key
document_key tenant_id kb_id doc_id =
    concat (concat (knowledge_bucket_key tenant_id kb_id) "/") doc_id

-- The zero value of a missing key.
abbrev pub base_or_zero : Option Base → Base
base_or_zero (some b) = b
base_or_zero none = record {
  id = "";
  tenant_id = "";
  name = "";
  description = "";
  status = unset;
  embedding_model = "";
  document_count = 0;
  chunk_count = 0;
  metadata = [];
  version = "";
  updated_at = 0;
}

abbrev pub chunks_or_nil : Option (List Chunk) → List Chunk
chunks_or_nil (some cs) = cs
chunks_or_nil none = []

-- SaveKnowledgeBase at a time
unfoldable pub save_knowledge_base : ℕ → Base → MemoryStore → MemoryStore
unfolding knowledge_bucket_key
save_knowledge_base now b s =
    let key = knowledge_bucket_key b.tenant_id b.id in
    let current = base_or_zero (lookup key s.knowledge_bases) in
    let saved = record b {
      updated_at = if eqb b.updated_at 0 then now else b.updated_at;
      document_count = current.document_count;
      chunk_count = current.chunk_count;
    } in
    record s { knowledge_bases = insert key saved s.knowledge_bases }

-- GetKnowledgeBase
unfoldable pub get_knowledge_base : String → String → MemoryStore → Outcome AppError Base
unfolding knowledge_bucket_key
get_knowledge_base tenant_id kb_id s =
    elim (lookup (knowledge_bucket_key tenant_id kb_id) s.knowledge_bases) [
      | some b ↦ ok b
      | none ↦ err (new not_found "knowledge base not found")
    ]

-- The values of the keys with a prefix.
unfoldable pub with_prefix : {A : Type 0} → String → List (String × A) → List A
with_prefix prefix [] = []
with_prefix prefix ((key, a) ∷ es) =
    let rest = with_prefix prefix es in if starts key prefix then a ∷ rest else rest

-- ListKnowledgeBases: the last change first
unfoldable pub list_knowledge_bases : String → MemoryStore → List Base
unfolding with_prefix
list_knowledge_bases tenant_id s =
    sort_stable (λ (a b : Base). ltb b.updated_at a.updated_at)
      (with_prefix (concat tenant_id "/") s.knowledge_bases)

-- ListDocuments, by an order of titles
unfoldable pub list_documents :
    (String → String → Bool) → String → String → MemoryStore → List Document
unfolding with_prefix knowledge_bucket_key
list_documents before tenant_id kb_id s =
    sort_stable (λ (a b : Document). before a.title b.title)
      (with_prefix (concat (knowledge_bucket_key tenant_id kb_id) "/") s.documents)

-- The loop of IndexDocument over the chunks that are there.
unfoldable pub without_document : String → List Chunk → List Chunk
without_document doc_id [] = []
without_document doc_id (c ∷ cs) =
    let rest = without_document doc_id cs in if c.doc_id == doc_id then rest else c ∷ rest

has_id : List String → String → Bool
has_id [] id = false
has_id (x ∷ xs) id = let rest = has_id xs id in x == id || rest

-- documentIDs
document_ids : String → List (String × Document) → List String
unfolding has_id
document_ids prefix [] = []
document_ids prefix ((key, d) ∷ es) =
    let rest = document_ids prefix es in
    let id = trim_prefix key prefix in
    if starts key prefix then (if has_id rest id then rest else id ∷ rest) else rest

-- The base that upsertKnowledgeBaseStatsLocked starts from.
unfoldable pub base_of : Document → Base → Base
unfolding is_empty
base_of d b =
    if is_empty b.id
    then record b {
      id = d.kb_id;
      tenant_id = d.tenant_id;
      name = d.kb_id;
      status = enabled;
      version = "v1";
    }
    else b

abbrev pub status_or_enabled : BaseStatus → BaseStatus
status_or_enabled unset = enabled
status_or_enabled s = s

-- upsertKnowledgeBaseStatsLocked at a time
unfoldable pub upsert_knowledge_base_stats : ℕ → Document → List Chunk → MemoryStore → MemoryStore
unfolding base_of document_ids knowledge_bucket_key
upsert_knowledge_base_stats now d bucket s =
    let key = knowledge_bucket_key d.tenant_id d.kb_id in
    let b = base_of d (base_or_zero (lookup key s.knowledge_bases)) in
    let counted = record b {
      status = status_or_enabled b.status;
      document_count = length (document_ids (concat key "/") s.documents);
      chunk_count = length bucket;
      updated_at = now;
    } in
    record s { knowledge_bases = insert key counted s.knowledge_bases }

-- IndexDocument at a time
unfoldable pub index_document : ℕ → Document → List Chunk → MemoryStore → MemoryStore
unfolding without_document document_key knowledge_bucket_key upsert_knowledge_base_stats
index_document now d cs s =
    let bucket = knowledge_bucket_key d.tenant_id d.kb_id in
    let filtered = without_document d.id (chunks_or_nil (lookup bucket s.chunks)) ++ cs in
    upsert_knowledge_base_stats now d filtered (record s {
      documents = insert (document_key d.tenant_id d.kb_id d.id) d s.documents;
      chunks = insert bucket filtered s.chunks;
    })

-- base, ok := …; ok && base.Status == BaseStatusDisabled
unfoldable pub is_disabled : Option Base → Bool
is_disabled none = false
is_disabled (some b) = elim b.status [ disabled ↦ true | _ ↦ false ]

-- The loop of candidateChunks over all buckets of the tenant.
unfoldable pub tenant_chunks :
    String → List (String × Base) → List (String × List Chunk) → List Chunk
unfolding is_disabled
tenant_chunks prefix bases [] = []
tenant_chunks prefix bases ((key, cs) ∷ es) =
    let rest = tenant_chunks prefix bases es in
    if starts key prefix && not (is_disabled (lookup key bases)) then cs ++ rest else rest

-- The loop of candidateChunks over the knowledge bases that the query names.
unfoldable pub named_chunks : String → List String → MemoryStore → List Chunk
unfolding is_disabled knowledge_bucket_key
named_chunks tenant_id [] s = []
named_chunks tenant_id (kb ∷ kbs) s =
    let rest = named_chunks tenant_id kbs s in
    let key = knowledge_bucket_key tenant_id kb in
    if is_disabled (lookup key s.knowledge_bases)
    then rest
    else chunks_or_nil (lookup key s.chunks) ++ rest

-- candidateChunks
unfoldable pub candidate_chunks : Query → MemoryStore → List Chunk
unfolding tenant_chunks named_chunks
candidate_chunks q s =
    if eqb (length q.kb_ids) 0
    then tenant_chunks (concat q.tenant_id "/") s.knowledge_bases s.chunks
    else named_chunks q.tenant_id q.kb_ids s

abbrev pub is_nil : Value → Bool
is_nil null = true
is_nil _ = false

-- metadataMatches
unfoldable pub metadata_matches : (Value → String) → Entries → Entries → Bool
metadata_matches sprint metadata [] = true
metadata_matches sprint metadata ((key, expected) ∷ filters) =
    let rest = metadata_matches sprint metadata filters in
    if is_nil expected then rest else elim (lookup key metadata) [
      | none ↦ false
      | some actual ↦
          if trim_space (to_string sprint actual) == trim_space (to_string sprint expected)
          then rest
          else false
    ]

-- The loop of Search over the candidates.
unfoldable pub score_chunks : Lexis → Query → List Chunk → List Chunk
unfolding metadata_matches
score_chunks x q [] = []
score_chunks x q (c ∷ cs) =
    let rest = score_chunks x q cs in
    let score = lexical_score x q.text c.text c.metadata in
    if metadata_matches x.sprint c.metadata q.filters && ltb 0 score
    then record c { score = score } ∷ rest
    else rest

-- scored[:query.TopK], where there are more
unfoldable pub limit_chunks : TopK → List Chunk → List Chunk
limit_chunks (negative n) cs = cs
limit_chunks (top n) cs = if ltb 0 n && ltb n (length cs) then take n cs else cs

abbrev pub better : Chunk → Chunk → Bool
better a b = ltb b.score a.score

-- Search
unfoldable pub search_chunks : Lexis → Query → MemoryStore → SearchResult
unfolding score_chunks limit_chunks candidate_chunks
search_chunks x q s = record {
  query_id = q.id;
  chunks = limit_chunks q.top_k (sort_stable better (score_chunks x q (candidate_chunks q s)));
}
