-- ===== src/Engine/Executor.antt =====
-- core/flowengine/executor.go: validation of a flow, and one run of it from its source nodes.
pub mod Start
pub mod Stats
pub mod Round
pub mod Termination
pub mod Order
pub mod Report
pub mod Total
pub mod Validation
use flowanything.Common.{
  ℕ, ◌+◌, ◌*◌, String, Bool, true, false, ◌||◌, not, Option, none, some, List, [], ◌∷◌, ◌++◌, ◌==◌,
  length, leb, if◌then◌else◌, Outcome, ok, err, panic, ◌>>=◌,
}
use flowanything.Common.Assoc.{lookup}
use flowanything.Engine.Values.{
  Entries, str, Error, node_missing, node_type_missing, too_many_executions,
}
use flowanything.Engine.Heap.{Heap, alloc, clone_map}
use flowanything.Engine.Context.{DataContext}
use flowanything.Engine.Spec.{NodeSpec, FlowSpec, NodeRequest, NodeResult}
use flowanything.Engine.Mapping.{build_node_input, apply_context_writes}
use flowanything.Engine.Registry.{NodeExecutor, Registry, get}
use flowanything.Engine.Graph.{contains, index_nodes, targets, outgoing_edges}
use flowanything.Engine.Trace.{TraceContext}
use flowanything.Engine.Event.{
  FlowEvent, event_of, normalize_trace, flow_completed, flow_failed, node_scheduled, node_started,
  node_completed, node_failed, next_node_selected,
}

-- What one run of Execute fixes before its loop.
pub record Env : Type 0 where
  pub spec : FlowSpec
  pub registry : Registry
  pub run_id : String
  pub trace : TraceContext
  pub context : DataContext
  pub max_executions : ℕ

-- The variables of the loop, and the maps behind them. `executed` lists the keys that are set.
pub record RunState : Type 0 where
  pub heap : Heap
  pub queue : List String
  pub executed : List String
  pub node_order : List String
  pub events : List FlowEvent

-- How Execute ends: without an error, with one, or by a panic that it does not recover.
pub data Verdict : Type 0 where
  completed : Verdict
  failed : Error → Verdict
  crashed : Verdict

pub data Next : Type 0 where
  continue : RunState → Next
  halt : RunState → Verdict → Next

-- The emitter of eventEmitter; the hooks are given each event in this order.
unfoldable pub emit : Env → FlowEvent → RunState → RunState
unfolding normalize_trace
emit env e s =
    let named = record e { run_id = env.run_id; flow_id = env.spec.id } in
    record s { events = s.events ++ record named { trace = normalize_trace named env.trace } ∷ [] }

abbrev pub failure : String → String → Error → FlowEvent
failure id type e = record (event_of flow_failed) { node_id = id; node_type = type; error = some e }

-- The error exits: a flow.failed event, after the events before it.
unfoldable pub fail_flow : Env → String → String → Error → RunState → Next
unfolding emit
fail_flow env id type e s = halt (emit env (failure id type e) s) (failed e)

-- An event about a node.
abbrev pub about : FlowEvent → NodeSpec → FlowEvent
about e node = record e { node_id = node.id; node_type = node.type }

abbrev pub node_name : NodeSpec → Entries
node_name node = ("node_name", str node.name) ∷ []

unfoldable pub fail_node : Env → NodeSpec → FlowEvent → Error → RunState → Next
unfolding fail_flow emit
fail_node env node event e s =
    fail_flow env node.id node.type e (emit env (about (record event { error = some e }) node) s)

abbrev pub selected : String → String → FlowEvent
selected id next = record (event_of next_node_selected) {
  source_node_id = id;
  target_node_id = next;
}

-- One event for each node that comes next.
unfoldable pub select_next : Env → String → List String → RunState → RunState
unfolding emit
select_next env id [] s = s
select_next env id (next ∷ nexts) s = select_next env id nexts (emit env (selected id next) s)

-- nextIDs, with the static edges where the node executor gives none
abbrev pub next_ids : Env → String → NodeResult → List String
next_ids env id r = elim r.next_node_ids [
  | some ids ↦ ids
  | none ↦ targets (lookup id (outgoing_edges env.spec.edges))
]

abbrev pub completion : NodeSpec → Option ℕ → Option ℕ → FlowEvent
completion node input output = record (about (event_of node_completed) node) {
  input = input;
  output = output;
  payload = node_name node;
}

-- The node is done: the end of the loop's body.
unfoldable pub finish_node :
    Env → String → NodeSpec → Option ℕ → Option ℕ → List String → RunState → Next
unfolding emit select_next
finish_node env id node input output nexts s =
    let marked = record s { executed = id ∷ s.executed; node_order = s.node_order ++ id ∷ [] } in
    let after = select_next env node.id nexts (emit env (completion node input output) marked) in
    continue (record after { queue = after.queue ++ nexts })

-- result.Output, with a new map in place of nil
abbrev pub output_map : Option ℕ → Heap → Option ℕ × Heap
output_map none h = (some h.next, alloc [] h)
output_map (some o) h = (some o, h)

-- What follows ApplyContextWrites, by what came of it.
unfoldable pub after_writes :
    Env
    → String
    → NodeSpec
    → Option ℕ
    → Option ℕ
    → List String
    → Outcome Error (Unit {0})
    → RunState
    → Next
unfolding finish_node fail_node
after_writes env id node input output nexts (ok _) s = finish_node env id node input output nexts s
after_writes env id node input output nexts (err e) s =
    fail_node env node (record (event_of node_failed) { input = input; output = output }) e s
after_writes env id node input output nexts panic s = halt s crashed

unfoldable pub use_result : Env → String → NodeSpec → Option ℕ → NodeResult → RunState → Next
unfolding after_writes apply_context_writes
use_result env id node input r s =
    let (output, h) = output_map r.output s.heap in
    let (written, h') = apply_context_writes env.context output node.output_writes h in
    after_writes env id node input output (next_ids env id r) written (record s { heap = h' })

-- What follows executor.Execute.
unfoldable pub after_execute :
    Env → String → NodeSpec → Option ℕ → Outcome Error NodeResult → RunState → Next
unfolding use_result fail_node
after_execute env id node input (ok r) s = use_result env id node input r s
after_execute env id node input (err e) s =
    fail_node env node (record (event_of node_failed) { input = input; payload = node_name node }) e
      s
after_execute env id node input panic s = halt s crashed

abbrev pub start_event : NodeSpec → Option ℕ → FlowEvent
start_event node input = record (about (event_of node_started) node) {
  input = input;
  payload = node_name node;
}

unfoldable pub run_node : Env → String → NodeSpec → NodeExecutor → Option ℕ → RunState → Next
unfolding after_execute emit
run_node env id node executor input s =
    let started = emit env (start_event node input) s in
    let request : NodeRequest = record {
      run_id = env.run_id;
      flow = env.spec;
      node = node;
      input = input;
      context = env.context;
    } in
    let (result, h) = executor.execute request started.heap in
    after_execute env id node input result (record started { heap = h })

-- What follows BuildNodeInput.
unfoldable pub after_build :
    Env → String → NodeSpec → NodeExecutor → Option ℕ → Outcome Error (Unit {0}) → RunState → Next
unfolding run_node fail_node
after_build env id node executor input (ok _) s = run_node env id node executor input s
after_build env id node executor input (err e) s = fail_node env node (event_of node_failed) e s
after_build env id node executor input panic s = halt s crashed

unfoldable pub prepare_node : Env → String → NodeSpec → NodeExecutor → RunState → Next
unfolding after_build build_node_input
prepare_node env id node executor s =
    let (input, built, h) = build_node_input env.context node.input_mappings s.heap in
    after_build env id node executor input built (record s { heap = h })

-- What follows the look-up of the node, and of its executor.
unfoldable pub after_executor : Env → String → NodeSpec → Option NodeExecutor → RunState → Next
unfolding prepare_node fail_flow
after_executor env id node none s = fail_flow env node.id node.type (node_type_missing node.type) s
after_executor env id node (some executor) s = prepare_node env id node executor s

unfoldable pub after_lookup : Env → String → Option NodeSpec → RunState → Next
unfolding after_executor fail_flow get
after_lookup env id none s = fail_flow env id "" (node_missing id) s
after_lookup env id (some node) s = after_executor env id node (get node.type env.registry) s

-- The loop's body for a node that has not been executed.
unfoldable pub visit : Env → String → RunState → Next
unfolding after_lookup emit index_nodes
visit env id s =
    after_lookup env id (lookup id (index_nodes env.spec.nodes))
      (emit env (record (event_of node_scheduled) { node_id = id }) s)

abbrev pub flow_end : ℕ → FlowEvent
flow_end output = record (event_of flow_completed) { output = some output }

-- After the loop: the flow is completed.
unfoldable pub complete_flow : Env → RunState → Next
unfolding emit clone_map
complete_flow env s =
    let s' = record s { heap = clone_map env.context.flow_output s.heap } in
    halt (emit env (flow_end s.heap.next) s') completed

-- One round of the loop, for the queue that is given.
unfoldable pub round : Env → List String → RunState → Next
unfolding visit complete_flow fail_flow
round env [] s = complete_flow env s
round env (id ∷ rest) s =
    if leb env.max_executions (length s.node_order)
    then fail_flow env "" "" (too_many_executions env.max_executions) s
    else if contains s.executed id
    then continue (record s { queue = rest })
    else visit env id (record s { queue = rest })

-- The loop, on fuel; `none` means that the fuel ran out.
unfoldable pub loop : ℕ → Env → RunState → Option (RunState × Verdict)
unfolding round
loop ℕ.zero env s = none
loop (ℕ.suc fuel) env s = elim (round env s.queue s) [
  | continue s' ↦ loop fuel env s'
  | halt s' v ↦ some (s', v)
]
