-- ===== src/Engine/Event.antt =====
-- core/flowengine/event.go, and the trace context that executor.go gives each event.
use flowanything.Common.{ℕ, String, Option, none, [], ◌==◌, if◌then◌else◌}
use flowanything.Engine.Values.{Entries, Error}
use flowanything.Engine.Trace.{TraceContext, no_trace, node_span_id}

pub data EventType : Type 0 where
  flow_started flow_waiting flow_resumed flow_completed flow_failed : EventType
  node_scheduled node_started node_waiting node_completed node_failed : EventType
  next_node_selected : EventType

-- Time stamps are not modelled.
pub record FlowEvent : Type 0 where
  pub type : EventType
  pub trace : TraceContext
  pub run_id : String
  pub flow_id : String
  pub node_id : String
  pub node_type : String
  pub source_node_id : String
  pub target_node_id : String
  pub input : Option ℕ
  pub output : Option ℕ
  pub payload : Entries
  pub error : Option Error

-- An event with the fields that a composite literal leaves out.
abbrev pub event_of : EventType → FlowEvent
event_of t = record {
  type = t;
  trace = no_trace;
  run_id = "";
  flow_id = "";
  node_id = "";
  node_type = "";
  source_node_id = "";
  target_node_id = "";
  input = none;
  output = none;
  payload = [];
  error = none;
}

-- What the `switch` of normalizeFlowEventTraceContext looks at: the node that an event is about.
pub data Scope : Type 0 where
  of_node : String → Scope
  of_flow : Scope

unfoldable pub scope_of : FlowEvent → Scope
scope_of e = elim e.type [
  | node_scheduled ↦ of_node e.node_id
  | node_started ↦ of_node e.node_id
  | node_waiting ↦ of_node e.node_id
  | node_completed ↦ of_node e.node_id
  | node_failed ↦ of_node e.node_id
  | next_node_selected ↦ of_node e.source_node_id
  | _ ↦ of_flow
]

in_scope : Scope → String → TraceContext → TraceContext → TraceContext
in_scope (of_node id) run_id t flow =
    if id == ""
    then flow
    else record t { span_id = node_span_id run_id id; parent_span_id = flow.span_id }
in_scope of_flow run_id t flow = record t {
  span_id = flow.span_id;
  parent_span_id = flow.parent_span_id;
}

-- normalizeFlowEventTraceContext
unfoldable pub normalize_trace : FlowEvent → TraceContext → TraceContext
unfolding in_scope scope_of
normalize_trace e flow =
    let t = record (e.trace) {
      trace_id = if e.trace.trace_id == "" then flow.trace_id else e.trace.trace_id;
      correlation_id =
          if e.trace.correlation_id == "" then flow.correlation_id else e.trace.correlation_id;
    } in
    if t.span_id == "" then in_scope (scope_of e) e.run_id t flow else t
