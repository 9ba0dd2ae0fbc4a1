-- ===== src/Tests/Spans.antt =====
-- Spans in an empty store.
use flowanything.Common.{
  String, false, ◌≡◌, ◌≢◌, refl, ◌⊎◌, none, some, [], ◌∷◌, ◌==◌, eq_iff, contains_text,
}
use flowanything.Common.Assoc.{lookup}
use flowanything.Engine.Event.{flow_waiting, node_completed}
use flowanything.Workflow.Values.{text, dict, Fields, empty, entry, get_field}
use flowanything.Tracing.Redactor.{FieldRedactor, new_default_redactor, is_sensitive, redact_map}
use flowanything.Tracing.Redactor.Redacted.{names, IsCleanMap, redact_map-Redacts}
use flowanything.Tracing.Spans.{Span, Store, upsert_span}
use flowanything.Tracing.Spans.Combined.{HasMaps, IsStored}
use flowanything.Tracing.Spans.Merged.{span_of, upsert_span-Merges}
use flowanything.Tracing.Collector.{ObservedEvent, span_at, on_flow_event}
use flowanything.Tracing.Collector.Kept.{IsCleanStore, on_flow_event-IsCleanStore}

abbrev same_case : FieldRedactor
same_case = new_default_redactor (λ s. s)

abbrev request : Fields
request = entry "user" (dict (entry "auth_token" (text "t") (entry "name" (text "n") empty))) empty

-- The token of a nested map is replaced.
token_redacted :
    redact_map same_case request
    ≡ entry "user"
        (dict (entry "auth_token" (text "[redacted]") (entry "name" (text "n") empty)))
        empty
unfolding redact_map is_sensitive contains_text
token_redacted = refl

redact_map-Redacts_example :
    (names (redact_map same_case request) ≡ names request)
    × IsCleanMap same_case (redact_map same_case request)
    × (IsCleanMap same_case request → redact_map same_case request ≡ request)
    × (redact_map same_case (redact_map same_case request) ≡ redact_map same_case request)
redact_map-Redacts_example = redact_map-Redacts same_case request

named : (s : String) → (s == "") ≡ false → s ≢ ""
named s h e = let f = (eq_iff s "").1 e in absurd (cc)

abbrev node : Span
node = span_at "t" "s"

-- A store with this span, and a later one of the same ids.
abbrev seen : Store
seen = ("t", ("s", node) ∷ []) ∷ []

abbrev ended : Span
ended = record node {
  status = "ok";
  finished_at = 9;
  output = request;
  events = record { name = "end"; attributes = empty; timestamp = 9 } ∷ [];
}

ended-HasMaps : HasMaps ended
unfolding get_field
ended-HasMaps = (tt, tt, (refl, tt))

upsert_span-Merges_example :
    ((upsert_span ended seen).0 ≡ none)
    × ((stored : Span) × (span_of "t" "s" (upsert_span ended seen).1 ≡ some stored)
        × IsStored (span_of "t" "s" seen) ended stored)
    × ((trace_id span_id : String)
        → (trace_id ≢ "t") ⊎ (span_id ≢ "s")
        → span_of trace_id span_id (upsert_span ended seen).1 ≡ span_of trace_id span_id seen)
upsert_span-Merges_example =
    upsert_span-Merges ended seen (named "t" refl) (named "s" refl) ended-HasMaps

seen_there : span_of "t" "s" seen ≡ some node
unfolding lookup
seen_there = refl

abbrev waiting : ObservedEvent
waiting = record {
  type = flow_waiting;
  trace = record { trace_id = "t"; span_id = "s"; parent_span_id = ""; correlation_id = "" };
  run_id = "r";
  flow_id = "f";
  node_id = "";
  node_type = "";
  source_node_id = "";
  target_node_id = "";
  input = empty;
  output = empty;
  payload = request;
  error = "";
  timestamp = 7;
}

nothing-IsCleanStore : IsCleanStore same_case []
unfolding lookup
nothing-IsCleanStore trace_id span_id span e = absurd (cc)

on_flow_event-IsCleanStore_example :
    IsCleanStore same_case (
      on_flow_event same_case 9 none
        (record waiting { type = node_completed; output = request })
        [])
on_flow_event-IsCleanStore_example =
    on_flow_event-IsCleanStore same_case 9 none
      (record waiting { type = node_completed; output = request }) [] nothing-IsCleanStore
