-- ===== src/Tracing.antt =====
-- core/trace: spans, their redaction and their store.
pub mod Redactor
pub mod Spans
pub mod Collector
