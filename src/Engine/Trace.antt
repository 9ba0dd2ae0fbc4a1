-- ===== src/Engine/Trace.antt =====
-- core/runtimecontext/trace.go: the trace identity that the engine passes on with every event.
use flowanything.Common.{String, Option, none, some, List, [], ◌∷◌, ◌==◌, if◌then◌else◌, concat}

pub record TraceContext : Type 0 where
  pub trace_id : String
  pub span_id : String
  pub parent_span_id : String
  pub correlation_id : String

abbrev pub no_trace : TraceContext
no_trace = record { trace_id = ""; span_id = ""; parent_span_id = ""; correlation_id = "" }

-- The trace context of a call, or the zero value: TraceContextFrom without its flag.
abbrev pub trace_or_zero : Option TraceContext → TraceContext
trace_or_zero none = no_trace
trace_or_zero (some t) = t

-- firstNonEmpty
unfoldable pub first_non_empty : List String → String
first_non_empty [] = ""
first_non_empty (v ∷ vs) = let rest = first_non_empty vs in if v == "" then rest else v

-- TraceIDFrom
unfoldable pub trace_id_from : Option TraceContext → List String → String
unfolding first_non_empty
trace_id_from none fallbacks = first_non_empty fallbacks
trace_id_from (some t) fallbacks =
    if t.trace_id == "" then first_non_empty fallbacks else t.trace_id

-- ChildTraceContext
unfoldable pub child_trace_context : TraceContext → String → TraceContext
child_trace_context parent span_id = record {
  trace_id = parent.trace_id;
  span_id = span_id;
  parent_span_id = parent.span_id;
  correlation_id = parent.correlation_id;
}

-- RootTraceContext
unfoldable pub root_trace_context : String → String → TraceContext → TraceContext
unfolding first_non_empty
root_trace_context trace_id span_id parent = record {
  trace_id = first_non_empty (trace_id ∷ parent.trace_id ∷ []);
  span_id = span_id;
  parent_span_id = parent.span_id;
  correlation_id = parent.correlation_id;
}

-- FlowSpanID
unfoldable pub flow_span_id : String → String
flow_span_id run_id = concat "flow:" run_id

-- NodeSpanID
unfoldable pub node_span_id : String → String → String
unfolding flow_span_id
node_span_id run_id node_id = concat (concat (flow_span_id run_id) ":node:") node_id
