-- ===== src/Engine/Stateful/Base.antt =====
-- core/flowengine/stateful_executor.go: the state that its methods share, and the small helpers.
use flowanything.Common.{
  ℕ, suc, zero, String, Bool, true, false, ◌&&◌, ◌||◌, Option, none, some, List, [], ◌∷◌, ◌++◌,
  ◌==◌, if◌then◌else◌, Outcome,
}
use flowanything.Common.Assoc.{lookup, insert}
use flowanything.Engine.Values.{Value, Error}
use flowanything.Engine.Heap.{Heap, alloc}
use flowanything.Engine.Spec.{EdgeSpec, FlowSpec, ValueSource}
use flowanything.Engine.Registry.{Registry}
use flowanything.Engine.Graph.{contains, append_at}
use flowanything.Engine.Trace.{
  TraceContext, trace_or_zero, trace_id_from, root_trace_context, flow_span_id,
}
use flowanything.Engine.Event.{FlowEvent, normalize_trace}
use flowanything.Engine.Executor.{selected}
use flowanything.Engine.Instance.{
  InstanceStatus, TokenStatus, WaitCondition, ExecutionToken, NodeState, no_node_state, JoinState,
  FlowInstance, ExternalEvent,
}

-- WaitConfig, without its time-out.
pub record WaitConfig : Type 0 where
  pub event_type : String
  pub event_key : String
  pub event_key_source : Option ValueSource

-- What a run does not change. `decode_wait` is the JSON decoding of a wait node's configuration,
-- `sprint` is fmt.Sprint, and `token_id` gives what the n-th call of tokenIDFn returns.
pub record Env : Type 0 where
  pub spec : FlowSpec
  pub registry : Registry
  pub trace : TraceContext
  pub decode_wait : Option ℕ → Heap → Outcome Error WaitConfig
  pub sprint : Value → Heap → String
  pub token_id : ℕ → String

-- What a run changes: the maps, the instance, the events that the hooks and AppendEvent are given, and
-- the number of tokens made.
pub record Work : Type 0 where
  pub heap : Heap
  pub current : FlowInstance
  pub events : List FlowEvent
  pub made : ℕ

-- rootFlowTraceContext
unfoldable pub root_flow_trace : Option TraceContext → String → TraceContext
unfolding root_trace_context trace_id_from flow_span_id
root_flow_trace parent id =
    if (trace_or_zero parent).span_id == flow_span_id id
    then trace_or_zero parent
    else root_trace_context (trace_id_from parent (id ∷ [])) (flow_span_id id)
        (trace_or_zero parent)

-- emit
unfoldable pub emit : Env → FlowEvent → Work → Work
unfolding normalize_trace
emit env e w =
    let named = record e { run_id = w.current.instance_id; flow_id = env.spec.id } in
    record w { events = w.events ++ record named { trace = normalize_trace named env.trace } ∷ [] }

-- A change of the instance.
abbrev pub edit : (FlowInstance → FlowInstance) → Work → Work
edit f w = record w { current = f w.current }

-- instance.Tokens[i]
unfoldable pub token_at : ℕ → List ExecutionToken → Option ExecutionToken
token_at i [] = none
token_at zero (t ∷ ts) = some t
token_at (suc i) (t ∷ ts) = token_at i ts

-- A write through &instance.Tokens[i].
unfoldable pub update_at :
    ℕ → (ExecutionToken → ExecutionToken) → List ExecutionToken → List ExecutionToken
update_at i f [] = []
update_at zero f (t ∷ ts) = f t ∷ ts
update_at (suc i) f (t ∷ ts) = t ∷ update_at i f ts

abbrev pub edit_token : ℕ → (ExecutionToken → ExecutionToken) → Work → Work
edit_token i f = edit λ (x : FlowInstance). record x { tokens = update_at i f x.tokens }

abbrev pub set_status : TokenStatus → ExecutionToken → ExecutionToken
set_status s t = record t { status = s }

-- instance.NodeStates[id], changed; a missing state is the zero state.
abbrev pub node_state_or_zero : Option NodeState → NodeState
node_state_or_zero none = no_node_state
node_state_or_zero (some s) = s

unfoldable pub edit_node_state : String → (NodeState → NodeState) → Work → Work
edit_node_state id f = edit λ (x : FlowInstance).
    let state = record (f (node_state_or_zero (lookup id x.node_states))) { node_id = id } in
    record x { node_states = insert id state x.node_states }

-- newToken, with its payload in a new map
unfoldable pub new_token : Env → String → String → Work → ExecutionToken
new_token env node_id source_node_id w = record {
  token_id = env.token_id w.made;
  node_id = node_id;
  source_node_id = source_node_id;
  status = TokenStatus.ready;
  payload = some w.heap.next;
  waiting_for = [];
}

-- instance.Tokens = append(instance.Tokens, e.newToken(…))
unfoldable pub add_token : Env → String → String → Work → Work
unfolding new_token
add_token env node_id source_node_id w =
    let token = new_token env node_id source_node_id w in
    record w {
      current = record (w.current) { tokens = w.current.tokens ++ token ∷ [] };
      heap = alloc [] w.heap;
      made = suc w.made;
    }

-- appendNextTokens
unfoldable pub append_next_tokens : Env → String → List String → Work → Work
unfolding add_token emit
append_next_tokens env source [] w = w
append_next_tokens env source (next ∷ nexts) w =
    append_next_tokens env source nexts
      (emit env (selected source next) (add_token env next source w))

-- firstReadyTokenIndex; `none` is -1
abbrev pub is_ready : TokenStatus → Bool
is_ready TokenStatus.ready = true
is_ready _ = false

abbrev pub shift : Option ℕ → Option ℕ
shift none = none
shift (some i) = some (suc i)

unfoldable pub first_ready_token_index : List ExecutionToken → Option ℕ
first_ready_token_index [] = none
first_ready_token_index (t ∷ ts) =
    let later = shift (first_ready_token_index ts) in if is_ready t.status then some 0 else later

-- hasWaitingToken
abbrev pub is_waiting : TokenStatus → Bool
is_waiting TokenStatus.waiting = true
is_waiting _ = false

unfoldable pub has_waiting_token : List ExecutionToken → Bool
has_waiting_token [] = false
has_waiting_token (t ∷ ts) = let later = has_waiting_token ts in is_waiting t.status || later

-- isTerminalInstance
unfoldable pub is_terminal : InstanceStatus → Bool
is_terminal InstanceStatus.completed = true
is_terminal InstanceStatus.failed = true
is_terminal InstanceStatus.cancelled = true
is_terminal _ = false

-- waitConditionsMatch
unfoldable pub condition_matches : WaitCondition → ExternalEvent → Bool
condition_matches c e =
    (c.type == "" || c.type == e.type) && (c.event_key == "" || c.event_key == e.key)

unfoldable pub wait_conditions_match : List WaitCondition → ExternalEvent → Bool
unfolding condition_matches
wait_conditions_match [] e = false
wait_conditions_match (c ∷ cs) e =
    let later = wait_conditions_match cs e in condition_matches c e || later

-- incomingEdges
unfoldable pub incoming_from :
    List (String × List String) → List EdgeSpec → List (String × List String)
unfolding append_at
incoming_from out [] = out
incoming_from out (e ∷ es) = incoming_from (append_at e.target e.source out) es

unfoldable pub incoming_edges : List EdgeSpec → List (String × List String)
unfolding incoming_from
incoming_edges edges = incoming_from [] edges

unfoldable pub all_arrived : List String → List String → Bool
unfolding contains
all_arrived arrived [] = true
all_arrived arrived (n ∷ ns) = let rest = all_arrived arrived ns in contains arrived n && rest

-- joinArrivedAll
unfoldable pub join_arrived_all : JoinState → Bool
unfolding all_arrived
join_arrived_all s = all_arrived s.arrived_nodes s.expected_nodes
