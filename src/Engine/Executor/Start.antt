-- ===== src/Engine/Executor/Start.antt =====
-- Execute before its loop: validation of the flow, the new context and the first queue.
use mathlib.Core.Option
use flowanything.Common.{
  ℕ, ◌*◌, String, ◌&&◌, Option, none, some, List, [], ◌∷◌, ◌==◌, length, eqb, if◌then◌else◌,
}
use flowanything.Engine.Values.{
  Error, registry_required, flow_id_required, node_id_required, duplicate_node, node_type_missing,
  invalid_node, unknown_edge, no_source_node,
}
use flowanything.Engine.Heap.{Heap, clone_map}
use flowanything.Engine.Context.{DataContext, new_data_context}
use flowanything.Engine.Spec.{NodeSpec, EdgeSpec, FlowSpec}
use flowanything.Engine.Registry.{Registry, get}
use flowanything.Engine.Graph.{contains, source_nodes}
use flowanything.Engine.Trace.{
  TraceContext, trace_or_zero, trace_id_from, root_trace_context, flow_span_id,
}
use flowanything.Engine.Event.{FlowEvent, event_of, flow_started, flow_failed}
use flowanything.Engine.Executor.{Env, RunState, Verdict, failed, emit, loop}

-- The check of one node, against the ids before it.
unfoldable pub validate_node : Registry → List String → NodeSpec → Heap → Option Error
unfolding contains get
validate_node registry seen node h =
    if node.id == ""
    then some node_id_required
    else if contains seen node.id
    then some (duplicate_node node.id)
    else elim (get node.type registry) [
      | none ↦ some (node_type_missing node.type)
      | some executor ↦ elim (executor.validate node h) [
        | none ↦ none
        | some e ↦ some (invalid_node node.id e)
      ]
    ]

-- The loop over the nodes: the ids that were seen, or the first error.
unfoldable pub validate_nodes : Registry → List String → List NodeSpec → Heap → Option Error
unfolding validate_node
validate_nodes registry seen [] h = none
validate_nodes registry seen (n ∷ ns) h = elim (validate_node registry seen n h) [
  | some e ↦ some e
  | none ↦ validate_nodes registry (n.id ∷ seen) ns h
]

abbrev pub ids : List NodeSpec → List String
ids [] = []
ids (n ∷ ns) = n.id ∷ ids ns

-- The loop over the edges.
unfoldable pub validate_edges : List String → List EdgeSpec → Option Error
unfolding contains
validate_edges seen [] = none
validate_edges seen (e ∷ es) =
    let rest = validate_edges seen es in
    if contains seen e.source && contains seen e.target
    then rest
    else some (unknown_edge e.source e.target)

-- validate
unfoldable pub validate : Registry → FlowSpec → Heap → Option Error
unfolding validate_nodes validate_edges
validate registry spec h =
    if spec.id == ""
    then some flow_id_required
    else elim (validate_nodes registry [] spec.nodes h) [
      | some e ↦ some e
      | none ↦ validate_edges (ids spec.nodes) spec.edges
    ]

-- RunResult and error. A call that returns early gives the zero RunResult: no context, no events.
pub record RunResult : Type 0 where
  pub run_id : String
  pub context : Option DataContext
  pub node_order : List String
  pub events : List FlowEvent
  pub heap : Heap
  pub verdict : Verdict

unfoldable pub rejected : Error → Heap → RunResult
rejected e h = record {
  run_id = "";
  context = none;
  node_order = [];
  events = [];
  heap = h;
  verdict = failed e;
}

-- maxExecutions
unfoldable pub max_executions : FlowSpec → ℕ
max_executions spec =
    if eqb spec.max_node_executions 0 then length spec.nodes * 2 else spec.max_node_executions

-- The Env and the first state, with the flow.started event.
unfoldable pub start_env : Registry → FlowSpec → String → Option TraceContext → DataContext → Env
unfolding max_executions root_trace_context trace_id_from flow_span_id
start_env registry spec run_id parent c = record {
  spec = spec;
  registry = registry;
  run_id = run_id;
  trace =
      root_trace_context (trace_id_from parent (run_id ∷ [])) (flow_span_id run_id)
        (trace_or_zero parent);
  context = c;
  max_executions = max_executions spec;
}

abbrev pub first_state : Env → Option ℕ → Heap → RunState
first_state env input h = record {
  heap = clone_map input h;
  queue = source_nodes env.spec.nodes env.spec.edges;
  executed = [];
  node_order = [];
  events = [];
}

abbrev pub flow_start : ℕ → FlowEvent
flow_start input = record (event_of flow_started) { input = some input }

unfoldable pub start_state : Env → Option ℕ → Heap → RunState
unfolding emit clone_map source_nodes
start_state env input h = emit env (flow_start h.next) (first_state env input h)

abbrev pub no_source : FlowEvent
no_source = record (event_of flow_failed) { error = some no_source_node }

-- `return RunResult{…}, err` after the start.
unfoldable pub report : Env → RunState × Verdict → RunResult
report env (s, v) = record {
  run_id = env.run_id;
  context = some env.context;
  node_order = s.node_order;
  events = s.events;
  heap = s.heap;
  verdict = v;
}

-- The run after the queue has been made; it fails at once where the queue is empty.
unfoldable pub run_from : ℕ → Env → RunState → List String → Option (RunState × Verdict)
unfolding loop emit
run_from fuel env s [] = some (emit env no_source s, failed no_source_node)
run_from fuel env s (_ ∷ _) = loop fuel env s

unfoldable pub run_queue : ℕ → Env → RunState → Option (RunState × Verdict)
unfolding run_from
run_queue fuel env s = run_from fuel env s s.queue

-- What follows the validation.
unfoldable pub run_valid :
    ℕ
    → Registry
    → FlowSpec
    → String
    → Option TraceContext
    → Option ℕ
    → Heap
    → Option Error
    → Option RunResult
unfolding rejected start_env start_state run_queue report new_data_context
run_valid fuel registry spec run_id parent input h (some e) = some (rejected e h)
run_valid fuel registry spec run_id parent input h none =
    let (c, h') = new_data_context input h in
    let env = start_env registry spec run_id parent c in
    Option.map (report env) (run_queue fuel env (start_state env input h'))

-- Execute, on fuel for its loop. `run_id` is what `runIDFn` returns, `parent` the trace context of the
-- call; a nil registry is `none`.
unfoldable pub execute :
    ℕ
    → Option Registry
    → FlowSpec
    → String
    → Option TraceContext
    → Option ℕ
    → Heap
    → Option RunResult
unfolding validate run_valid rejected
execute fuel none spec run_id parent input h = some (rejected registry_required h)
execute fuel (some registry) spec run_id parent input h =
    run_valid fuel registry spec run_id parent input h (validate registry spec h)
