-- ===== src/Knowledge.antt =====
-- internal/knowledge: knowledge bases, their documents, and the search in them.
pub mod Types
pub mod Chunker
pub mod Query
pub mod Memory
pub mod Service
