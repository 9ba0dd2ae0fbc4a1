-- ===== src/Tracing/Collector.antt =====
-- core/trace/collector.go: OnFlowEvent turns the events of the flow engine into spans.
pub mod Kept
use flowanything.Common.{
  ℕ, String, Bool, Option, none, some, List, [], ◌∷◌, ◌==◌, eqb, if◌then◌else◌, concat,
}
use flowanything.Engine.Event.{
  EventType, flow_started, flow_waiting, flow_resumed, flow_completed, flow_failed, node_scheduled,
  node_started, node_waiting, node_completed, node_failed, next_node_selected,
}
use flowanything.Engine.Trace.{TraceContext, first_non_empty, flow_span_id, node_span_id}
use flowanything.Workflow.Values.{Tree, text, Fields, empty, entry}
use flowanything.Tracing.Redactor.{FieldRedactor, redact_map}
use flowanything.Tracing.Spans.{Span, SpanEvent, merge_map, Store, upsert_span}

-- flowengine.FlowEvent as the collector reads it, with its maps as trees and its time stamp.
pub record ObservedEvent : Type 0 where
  pub type : EventType
  pub trace : TraceContext
  pub run_id : String
  pub flow_id : String
  pub node_id : String
  pub node_type : String
  pub source_node_id : String
  pub target_node_id : String
  pub input : Fields
  pub output : Fields
  pub payload : Fields
  pub error : String
  pub timestamp : ℕ

-- The text of an event type.
unfoldable pub type_name : EventType → String
type_name flow_started = "flow.started"
type_name flow_waiting = "flow.waiting"
type_name flow_resumed = "flow.resumed"
type_name flow_completed = "flow.completed"
type_name flow_failed = "flow.failed"
type_name node_scheduled = "node.scheduled"
type_name node_started = "node.started"
type_name node_waiting = "node.waiting"
type_name node_completed = "node.completed"
type_name node_failed = "node.failed"
type_name next_node_selected = "node.next_selected"

-- Span{TraceID: …, SpanID: …}
abbrev pub span_at : String → String → Span
span_at trace_id span_id = record {
  trace_id = trace_id;
  span_id = span_id;
  parent_span_id = "";
  name = "";
  kind = "";
  status = "";
  started_at = 0;
  finished_at = 0;
  attributes = empty;
  events = [];
  links = [];
  input = empty;
  output = empty;
  error = "";
}

-- spanEvent, as the only event of a span
abbrev pub noted : ObservedEvent → Fields → ℕ → List SpanEvent
noted e attributes time =
    record { name = type_name e.type; attributes = attributes; timestamp = time } ∷ []

-- The span of the flow, and that of the node of an event.
abbrev pub flow_span : ObservedEvent → String
flow_span e = first_non_empty (e.trace.span_id ∷ flow_span_id e.run_id ∷ [])

abbrev pub node_span : ObservedEvent → String → String
node_span e id = first_non_empty (e.trace.span_id ∷ node_span_id e.run_id id ∷ [])

-- The span under which a scheduled or a selected node is noted.
abbrev pub source_span : ObservedEvent → String
source_span e =
    if e.source_node_id == ""
    then first_non_empty (e.trace.span_id ∷ flow_span e ∷ [])
    else node_span e e.source_node_id

-- The `switch` of OnFlowEvent: the span that is upserted.
unfoldable pub span_of_event : FieldRedactor → ObservedEvent → String → ℕ → Span
unfolding redact_map merge_map type_name first_non_empty flow_span_id node_span_id
span_of_event r e trace_id time = elim e.type [
  | flow_started ↦ record (span_at trace_id (flow_span e)) {
    parent_span_id = e.trace.parent_span_id;
    name = concat "Flow " e.flow_id;
    kind = "FLOW";
    status = "running";
    started_at = time;
    input = redact_map r e.input;
    attributes = entry "flow_id" (text e.flow_id) (entry "run_id" (text e.run_id) empty);
  }
  | flow_waiting ↦ record (span_at trace_id (flow_span e)) {
    status = "waiting";
    events = noted e e.payload time;
  }
  | flow_resumed ↦ record (span_at trace_id (flow_span e)) {
    status = "running";
    events = noted e e.payload time;
  }
  | flow_completed ↦ record (span_at trace_id (flow_span e)) {
    status = "ok";
    finished_at = time;
    output = redact_map r e.output;
  }
  | flow_failed ↦ record (span_at trace_id (flow_span e)) {
    status = "error";
    finished_at = time;
    error = e.error;
  }
  | node_started ↦ record (span_at trace_id (node_span e e.node_id)) {
    parent_span_id = first_non_empty (e.trace.parent_span_id ∷ flow_span_id e.run_id ∷ []);
    name = concat "Node " e.node_id;
    kind = "NODE";
    status = "running";
    started_at = time;
    input = redact_map r e.input;
    attributes =
        merge_map (entry "node_id" (text e.node_id) (entry "node_type" (text e.node_type) empty))
          (redact_map r e.payload);
  }
  | node_waiting ↦ record (span_at trace_id (node_span e e.node_id)) {
    status = "waiting";
    events = noted e e.payload time;
  }
  | node_completed ↦ record (span_at trace_id (node_span e e.node_id)) {
    status = "ok";
    finished_at = time;
    output = redact_map r e.output;
  }
  | node_failed ↦ record (span_at trace_id (node_span e e.node_id)) {
    status = "error";
    finished_at = time;
    error = e.error;
    output = redact_map r e.output;
  }
  | _ ↦ record (span_at trace_id (source_span e)) {
    events =
        noted e
          (entry "node_id" (text e.node_id) (
            entry "source_node_id" (text e.source_node_id)
              (entry "target_node_id" (text e.target_node_id) empty)))
          time;
  }
]

abbrev pub trace_id_of : Option TraceContext → String
trace_id_of none = ""
trace_id_of (some t) = t.trace_id

-- OnFlowEvent with the trace context of its caller, at a time; what UpsertSpan returns is not looked at.
unfoldable pub on_flow_event :
    FieldRedactor → ℕ → Option TraceContext → ObservedEvent → Store → Store
unfolding span_of_event upsert_span
on_flow_event r now caller e store =
    let trace_id = first_non_empty (e.trace.trace_id ∷ trace_id_of caller ∷ e.run_id ∷ []) in
    let time = if eqb e.timestamp 0 then now else e.timestamp in
    if trace_id == "" then store else (upsert_span (span_of_event r e trace_id time) store).1
