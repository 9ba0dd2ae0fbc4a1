-- ===== src/Knowledge/Types.antt =====
-- internal/platform/contracts/knowledge: the records of the knowledge service. `Score` stands for
-- float64; time stamps are numbers.
use flowanything.Common.{ℕ, String, List}
use flowanything.Engine.Values.{Entries}

-- An empty status is `unset`, any other text `other`.
pub data BaseStatus : Type 0 where
  unset draft enabled disabled : BaseStatus
  other : String → BaseStatus

pub record Base : Type 0 where
  pub id : String
  pub tenant_id : String
  pub name : String
  pub description : String
  pub status : BaseStatus
  pub embedding_model : String
  pub document_count : ℕ
  pub chunk_count : ℕ
  pub metadata : Entries
  pub version : String
  pub updated_at : ℕ

-- `top_k` of a Go int: `negative` keeps the sign that ℕ has not.
pub data TopK : Type 0 where
  negative : ℕ → TopK
  top : ℕ → TopK

pub record Query : Type 0 where
  pub id : String
  pub tenant_id : String
  pub kb_ids : List String
  pub text : String
  pub top_k : TopK
  pub filters : Entries
  pub trace_id : String

pub record Document : Type 0 where
  pub id : String
  pub tenant_id : String
  pub kb_id : String
  pub title : String
  pub text : String
  pub metadata : Entries
  pub version : String

pub record Chunk : Type 0 where
  pub id : String
  pub doc_id : String
  pub kb_id : String
  pub text : String
  pub score : ℕ
  pub metadata : Entries

pub record SearchResult : Type 0 where
  pub query_id : String
  pub chunks : List Chunk

pub record IndexResult : Type 0 where
  pub document_id : String
  pub kb_id : String
  pub chunk_count : ℕ
  pub chunks : List Chunk
