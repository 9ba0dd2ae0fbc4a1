-- ===== src/Engine/Stateful/Token.antt =====
-- core/flowengine/stateful_executor.go: executeReadyToken and what it calls.
use flowanything.Common.{
  ℕ, suc, String, true, false, ◌&&◌, ◌||◌, Option, none, some, List, [], ◌∷◌, map, ◌==◌, length,
  leb, if◌then◌else◌, Outcome, ok, err, panic, ◌>>=◌,
}
use flowanything.Common.Assoc.{lookup, insert}
use flowanything.Engine.Values.{
  Value, bool, bools, strs, wait, Entries, Error, wait_without_condition, node_missing,
  node_type_missing,
}
use flowanything.Engine.Heap.{Heap, alloc}
use flowanything.Engine.Context.{DataContext}
use flowanything.Engine.Spec.{NodeSpec, NodeRequest, NodeResult}
use flowanything.Engine.Mapping.{resolve_value, build_node_input, apply_context_writes}
use flowanything.Engine.Registry.{NodeExecutor, get}
use flowanything.Engine.Graph.{contains, targets, index_nodes, outgoing_edges}
use flowanything.Engine.Event.{
  event_of, node_scheduled, node_started, node_waiting, node_completed, node_failed,
}
use flowanything.Engine.Executor.{about, output_map}
use flowanything.Engine.Instance.{
  TokenStatus, NodeStatus, WaitCondition, ExecutionToken, JoinState, FlowInstance,
}
use flowanything.Engine.Stateful.Base.{
  WaitConfig, Env, Work, emit, edit, edit_token, set_status, edit_node_state, append_next_tokens,
  incoming_edges, join_arrived_all,
}

-- What a method returns: its error or nothing, and what it has changed.
abbrev pub Result : Type 0
Result = Outcome Error (Unit {0}) × Work

-- outgoing[id]
abbrev pub successors : Env → String → List String
successors env id = targets (lookup id (outgoing_edges env.spec.edges))

-- completeNode
unfoldable pub complete_node : Env → ℕ → NodeSpec → Option ℕ → Option ℕ → List String → Work → Work
unfolding edit_node_state emit append_next_tokens
complete_node env i node input output nexts w =
    let w1 = edit_token i (set_status TokenStatus.consumed) w in
    let w2 =
      edit_node_state node.id
        (λ s. record s { status = NodeStatus.completed; input = input; output = output }) w1 in
    let event = record (about (event_of node_completed) node) { input = input; output = output } in
    append_next_tokens env node.id nexts (emit env event w2)

-- failNode
unfoldable pub fail_node : Env → ℕ → NodeSpec → Option ℕ → Option ℕ → Error → Work → Result
unfolding edit_node_state emit
fail_node env i node input output e w =
    let w1 = edit_token i (set_status TokenStatus.consumed) w in
    let w2 =
      edit_node_state node.id
        (λ s. record s {
          status = NodeStatus.failed;
          input = input;
          output = output;
          error = some e;
        })
        w1 in
    let event = record (about (event_of node_failed) node) {
      input = input;
      output = output;
      error = some e;
    } in
    (err e, emit env event w2)

-- decodeWaitConfig, after the JSON decoding.
unfoldable pub key_of_source : Env → DataContext → WaitConfig → Heap → Outcome Error WaitConfig
key_of_source env c config h = elim config.event_key_source [
  | none ↦ ok config
  | some source ↦ resolve_value c none source h >>= λ (v : Value).
      ok (record config { event_key = env.sprint v h })
]

unfoldable pub require_condition : WaitConfig → Outcome Error WaitConfig
require_condition config =
    if config.event_type == "" && config.event_key == ""
    then err wait_without_condition
    else ok config

unfoldable pub decode_wait_config : Env → Option ℕ → DataContext → Heap → Outcome Error WaitConfig
unfolding key_of_source require_condition
decode_wait_config env config c h = do
  decoded ← env.decode_wait config h
  resolved ← key_of_source env c decoded h
  require_condition resolved

abbrev pub condition_of : WaitConfig → WaitCondition
condition_of config = record { type = config.event_type; event_key = config.event_key }

abbrev pub wait_on : WaitConfig → ExecutionToken → ExecutionToken
wait_on config t = record t { status = TokenStatus.waiting; waiting_for = condition_of config ∷ [] }

-- blockOnWaitNode, after decodeWaitConfig.
unfoldable pub block_on : Env → ℕ → NodeSpec → Option ℕ → Outcome Error WaitConfig → Work → Result
unfolding fail_node edit_node_state emit
block_on env i node input (ok config) w =
    let w1 = edit_token i (wait_on config) w in
    let w2 =
      edit_node_state node.id
        (λ s. record s {
          status = NodeStatus.waiting;
          input = input;
          waiting_for = condition_of config ∷ [];
        })
        w1 in
    let event = record (about (event_of node_waiting) node) {
      input = input;
      payload = ("waiting_for", wait config.event_type config.event_key) ∷ [];
    } in
    (ok tt, emit env event w2)
block_on env i node input (err e) w = fail_node env i node input none e w
block_on env i node input panic w = (panic, w)

unfoldable pub block_on_wait_node : Env → ℕ → NodeSpec → Option ℕ → Work → Result
unfolding block_on decode_wait_config
block_on_wait_node env i node input w =
    block_on env i node input (decode_wait_config env node.config w.current.context w.heap) w

-- cloneBoolMap(state.ArrivedNodes), as a value
abbrev pub arrived_value : JoinState → Value
arrived_value j = bools (map (λ (id : String). (id, true)) j.arrived_nodes)

abbrev pub set_join : String → JoinState → Work → Work
set_join id j = edit λ (x : FlowInstance). record x { join_states = insert id j x.join_states }

-- instance.JoinStates[id], or a new state with the nodes that are expected
unfoldable pub join_state : String → List String → Option JoinState → JoinState
join_state id incoming none = record {
  node_id = id;
  expected_nodes = incoming;
  arrived_nodes = [];
  completed = false;
}
join_state id incoming (some j) =
    if j.node_id == ""
    then record { node_id = id; expected_nodes = incoming; arrived_nodes = []; completed = false }
    else j

-- state.ArrivedNodes[token.SourceNodeID] = true, for a token with a source
unfoldable pub arrive : String → JoinState → JoinState
arrive source j =
    if source == "" || contains j.arrived_nodes source
    then j
    else record j { arrived_nodes = source ∷ j.arrived_nodes }

-- The end of executeJoinNode, where a node that is expected has not arrived.
unfoldable pub wait_for_others : Env → NodeSpec → Option ℕ → JoinState → Work → Work
unfolding edit_node_state emit
wait_for_others env node input j w =
    let progress : Entries =
      ("arrived", arrived_value j) ∷ ("expected", strs j.expected_nodes) ∷ [] in
    let w1 = record w { heap = alloc progress w.heap } in
    let w2 =
      edit_node_state node.id
        (λ s. record s { status = NodeStatus.waiting; input = input; output = some w.heap.next })
        w1 in
    emit env (record (about (event_of node_waiting) node) { input = input; payload = progress }) w2

-- The end of executeJoinNode, where all have arrived.
unfoldable pub release_join : Env → NodeSpec → Option ℕ → JoinState → Work → Work
unfolding edit_node_state emit append_next_tokens
release_join env node input j w =
    let w1 = set_join node.id (record j { completed = true }) w in
    let output : Entries = ("joined", bool true) ∷ ("arrived", arrived_value j) ∷ [] in
    let w2 = record w1 { heap = alloc output w1.heap } in
    let w3 =
      edit_node_state node.id
        (λ s. record s { status = NodeStatus.completed; input = input; output = some w1.heap.next })
        w2 in
    let event = record (about (event_of node_completed) node) {
      input = input;
      output = some w1.heap.next;
    } in
    append_next_tokens env node.id (successors env node.id) (emit env event w3)

-- executeJoinNode at a node with several incoming edges, from the join state on.
unfoldable pub join_with : Env → ℕ → NodeSpec → Option ℕ → String → JoinState → Work → Work
unfolding arrive wait_for_others release_join join_arrived_all
join_with env i node input source j w =
    let w1 = edit_token i (set_status TokenStatus.consumed) w in
    if j.completed
    then set_join node.id j w1
    else (let j' = arrive source j in
        let w2 = set_join node.id j' w1 in
        if join_arrived_all j'
        then release_join env node input j' w2
        else wait_for_others env node input j' w2)

-- executeJoinNode
unfoldable pub execute_join_node : Env → ℕ → ExecutionToken → NodeSpec → Option ℕ → Work → Work
unfolding complete_node join_with join_state incoming_edges
execute_join_node env i token node input w =
    let incoming = targets (lookup node.id (incoming_edges env.spec.edges)) in
    if leb (length incoming) 1
    then complete_node env i node input (some w.heap.next) (successors env node.id)
        (record w { heap = alloc (("joined", bool true) ∷ []) w.heap })
    else join_with env i node input token.source_node_id
        (join_state node.id incoming (lookup node.id w.current.join_states)) w

-- After ApplyContextWrites.
unfoldable pub after_writes :
    Env
    → ℕ
    → NodeSpec
    → Option ℕ
    → Option ℕ
    → List String
    → Outcome Error (Unit {0})
    → Work
    → Result
unfolding complete_node fail_node
after_writes env i node input output nexts (ok _) w =
    (ok tt, complete_node env i node input output nexts w)
after_writes env i node input output nexts (err e) w = fail_node env i node input output e w
after_writes env i node input output nexts panic w = (panic, w)

-- nextIDs
abbrev pub next_ids : Env → NodeSpec → NodeResult → List String
next_ids env node r = elim r.next_node_ids [ some ids ↦ ids | none ↦ successors env node.id ]

-- After executor.Execute.
unfoldable pub after_execute :
    Env → ℕ → NodeSpec → Option ℕ → Outcome Error NodeResult → Work → Result
unfolding after_writes fail_node apply_context_writes
after_execute env i node input (ok r) w =
    let (output, h) = output_map r.output w.heap in
    let (written, h') = apply_context_writes w.current.context output node.output_writes h in
    after_writes env i node input output (next_ids env node r) written (record w { heap = h' })
after_execute env i node input (err e) w = fail_node env i node input none e w
after_execute env i node input panic w = (panic, w)

-- The node executor of a node that neither waits nor joins.
unfoldable pub run_executor : Env → ℕ → NodeSpec → NodeExecutor → Option ℕ → Work → Result
unfolding after_execute
run_executor env i node executor input w =
    let request : NodeRequest = record {
      run_id = w.current.instance_id;
      flow = env.spec;
      node = node;
      input = input;
      context = w.current.context;
    } in
    let (result, h) = executor.execute request w.heap in
    after_execute env i node input result (record w { heap = h })

-- The choice by node type.
unfoldable pub dispatch :
    Env → ℕ → ExecutionToken → NodeSpec → NodeExecutor → Option ℕ → Work → Result
unfolding block_on_wait_node execute_join_node run_executor
dispatch env i token node executor input w =
    if node.type == "control.wait"
    then block_on_wait_node env i node input w
    else if node.type == "control.join"
    then (ok tt, execute_join_node env i token node input w)
    else run_executor env i node executor input w

-- The node state and the two events before the node runs.
unfoldable pub mark_running : Env → NodeSpec → Option ℕ → Work → Work
unfolding edit_node_state emit
mark_running env node input w =
    let w1 =
      edit_node_state node.id
        (λ s. record s { status = NodeStatus.running; attempts = suc s.attempts; input = input })
        w in
    emit env (record (about (event_of node_started) node) { input = input })
      (emit env (about (event_of node_scheduled) node) w1)

-- After BuildNodeInput.
unfoldable pub after_build :
    Env
    → ℕ
    → ExecutionToken
    → NodeSpec
    → NodeExecutor
    → Option ℕ
    → Outcome Error (Unit {0})
    → Work
    → Result
unfolding dispatch mark_running
after_build env i token node executor input (ok _) w =
    dispatch env i token node executor input (mark_running env node input w)
after_build env i token node executor input (err e) w = (err e, w)
after_build env i token node executor input panic w = (panic, w)

unfoldable pub start_token :
    Env → ℕ → ExecutionToken → NodeSpec → Option NodeExecutor → Work → Result
unfolding after_build build_node_input
start_token env i token node none w = (err (node_type_missing node.type), w)
start_token env i token node (some executor) w =
    let w1 = edit_token i (set_status TokenStatus.running) w in
    let (input, built, h) = build_node_input w1.current.context node.input_mappings w1.heap in
    after_build env i token node executor input built (record w1 { heap = h })

unfoldable pub find_executor : Env → ℕ → ExecutionToken → Option NodeSpec → Work → Result
unfolding start_token get
find_executor env i token none w = (err (node_missing token.node_id), w)
find_executor env i token (some node) w =
    start_token env i token node (get node.type env.registry) w

-- executeReadyToken for the token that stands at the index.
unfoldable pub execute_ready_token : Env → ℕ → ExecutionToken → Work → Result
unfolding find_executor index_nodes
execute_ready_token env i token w =
    find_executor env i token (lookup token.node_id (index_nodes env.spec.nodes)) w
