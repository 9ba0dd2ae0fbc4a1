-- ===== src/Workflow/Executor.antt =====
-- internal/flowengine/executor.go and registry.go: a run of a workflow, in rounds of nodes that are
-- ready. The goroutines of a round get the same run context, so they are run one after the other.
use flowanything.Common.{ℕ, String, true, false, Option, none, some, List, [], ◌∷◌}
use flowanything.Common.Assoc.{lookup, insert}
use flowanything.Platform.{Answer, fine, fails, AppError, new, invalid_argument}
use flowanything.Workflow.Values.{Fields, empty, entry, set_field}
use flowanything.Workflow.Types.{Node, Graph, running, succeeded, failed, Run, NodeRun, NodeResult}
use flowanything.Workflow.Context.{Lexis, RunContext}
use flowanything.Workflow.Mapping.{
  build_node_input, apply_output_mappings, map_config, evaluate_mapping,
}
use flowanything.Workflow.Store.{RunStore}
use flowanything.Workflow.Routing.{next_nodes}
use flowanything.Workflow.State.{ExecutionState, schedule_all, complete}

-- NodeExecutionRequest
pub record NodeExecutionRequest : Type 0 where
  pub run : Run
  pub graph : Graph
  pub node : Node
  pub context : RunContext
  pub input : Fields

-- NodeExecutor.ExecuteNode: a result and an error, or none, over the state `S` of the world.
abbrev pub NodeExecutor : Type 0 → Type 0
NodeExecutor S = NodeExecutionRequest → S → (NodeResult × Option AppError) × S

-- Executor, with what it uses of the world: id.New, the clock, and the order in which a map is ranged
-- over and in which the goroutines of a round run.
pub record Executor (S : Type 0) : Type 0 where
  pub store : Option (RunStore S)
  pub registry : List (String × NodeExecutor S)
  pub lexis : Lexis
  pub new_id : S → String × S
  pub now : S → ℕ
  pub arrange : S → List String → List String

abbrev pub no_result : NodeResult
no_result = record {
  output = empty;
  context_writes = empty;
  response_writes = empty;
  next_node_ids = none;
  stop = false;
}

-- NoopNodeExecutor
unfoldable pub noop_node_executor : {S : Type 0} → NodeExecutor S
noop_node_executor request s = ((no_result, none), s)

end_output : Lexis → NodeExecutionRequest → Option Fields → Fields
unfolding evaluate_mapping
end_output x request (some (entry name source fs)) =
    evaluate_mapping x (entry name source fs) request.context none none empty
end_output x request _ = request.context.ctx

-- EndNodeExecutor
unfoldable pub end_node_executor : {S : Type 0} → Lexis → NodeExecutor S
unfolding end_output map_config
end_node_executor x request s = (
  (
    record no_result {
      output = end_output x request (map_config request.node.config "output_mapping");
      stop = true;
    },
    none,
  ),
  s,
)

-- NewNodeRegistry, and Register
unfoldable pub new_node_registry : {S : Type 0} → Lexis → List (String × NodeExecutor S)
unfolding noop_node_executor end_node_executor
new_node_registry x =
    ("start", noop_node_executor) ∷ ("join", noop_node_executor) ∷ ("end", end_node_executor x) ∷ []

unfoldable pub register :
    {S : Type 0}
    → String
    → NodeExecutor S
    → List (String × NodeExecutor S)
    → List (String × NodeExecutor S)
register type executor registry = insert type executor registry

-- ExecutorFor
unfoldable pub executor_for : {S : Type 0} → Executor S → String → Answer (NodeExecutor S)
executor_for e type = elim (lookup type e.registry) [
  | some executor ↦ fine executor
  | none ↦ fails (new invalid_argument "workflow node executor is not registered")
]

-- The loop over the writes that a node executor returns itself.
unfoldable pub put_fields : Fields → Fields → Fields
put_fields empty target = target
put_fields (entry key value fs) target = put_fields fs (set_field key value target)

-- What executeNode returns for a node that gave no error.
unfoldable pub merged_result : Lexis → Node → RunContext → NodeResult → NodeResult
unfolding put_fields apply_output_mappings
merged_result x node c raw =
    let mapped = apply_output_mappings x node c raw.output in
    record mapped {
      next_node_ids = raw.next_node_ids;
      stop = raw.stop;
      context_writes = put_fields raw.context_writes mapped.context_writes;
      response_writes = put_fields raw.response_writes mapped.response_writes;
    }

-- The node run before the node is executed.
unfoldable pub started_node_run : String → ℕ → Run → Node → RunContext → Fields → NodeRun
started_node_run id now run node c input = record {
  id = id;
  tenant_id = run.tenant_id;
  run_id = run.id;
  workflow_id = run.workflow_id;
  node_id = node.id;
  node_type = node.type;
  node_name = node.name;
  status = running;
  input = input;
  output = empty;
  context = c.ctx;
  error = none;
  started_at = now;
  finished_at = none;
}

-- The node run after it; a failed node keeps the output that it has.
unfoldable pub finished_node_run : NodeRun → ℕ → Option AppError → NodeResult → NodeRun
finished_node_run r now none result = record r {
  status = succeeded;
  output = result.output;
  finished_at = some now;
}
finished_node_run r now (some e) result = record r {
  status = failed;
  error = some e;
  output = result.output;
  finished_at = some now;
}

-- The first of two errors.
abbrev pub first_error : Option AppError → Option AppError → Option AppError
first_error (some e) later = some e
first_error none later = later

abbrev pub result_or_error : Option AppError → NodeResult → Answer NodeResult
result_or_error none result = fine result
result_or_error (some e) result = fails e

-- spec.Graph.Nodes[nodeID], with the zero node for a missing key.
abbrev pub node_or_zero : Option Node → Node
node_or_zero (some node) = node
node_or_zero none = record { id = ""; type = ""; name = ""; config = empty; timeout_millis = 0 }

module _ {S : Type 0} (e : Executor S) where
  -- The rest of executeNode, after the node executor has returned.
  after_node :
      RunStore S
      → NodeRun
      → Node
      → RunContext
      → (NodeResult × Option AppError) × S
      → Answer NodeResult × S
  unfolding finished_node_run merged_result
  after_node store r node c ((raw, none), s) =
      let result = merged_result e.lexis node c raw in
      let (recorded, s') = store.record_node_run (finished_node_run r (e.now s) none result) s in
      (result_or_error recorded result, s')
  after_node store r node c ((raw, some failure), s) =
      let (recorded, s') =
        store.record_node_run (finished_node_run r (e.now s) (some failure) raw) s in
      (fails failure, s')

  -- executeNode between its first record of the node run and the last one.
  run_node :
      RunStore S
      → NodeExecutor S
      → NodeRun
      → NodeExecutionRequest
      → Option AppError × S
      → Answer NodeResult × S
  unfolding after_node
  run_node store executor r request (some failure, s) = (fails failure, s)
  run_node store executor r request (none, s) =
      after_node store r request.node request.context (executor request s)

  begin_node :
      RunStore S → NodeExecutor S → Run → Graph → Node → RunContext → S → Answer NodeResult × S
  unfolding run_node started_node_run build_node_input
  begin_node store executor run g node c s =
      let input = build_node_input e.lexis node c in
      let (id, s') = e.new_id s in
      let r = started_node_run id (e.now s') run node c input in
      run_node store executor r
        (record { run = run; graph = g; node = node; context = c; input = input })
        (store.record_node_run r s')

  -- executeNode
  unfoldable pub execute_node :
      RunStore S → Run → Graph → Node → RunContext → S → Answer NodeResult × S
  unfolding begin_node executor_for
  execute_node store run g node c s = elim (executor_for e node.type) [
    | fine executor ↦ begin_node store executor run g node c s
    | fails failure ↦ (fails failure, s)
  ]

  -- The goroutines of a round, with what each sends.
  unfoldable pub run_all :
      RunStore S
      → Run
      → Graph
      → RunContext
      → List String
      → S
      → List (String × Answer NodeResult) × S
  unfolding execute_node
  run_all store run g c [] s = ([], s)
  run_all store run g c (id ∷ ids) s =
      let (result, s') = execute_node store run g (node_or_zero (lookup id g.nodes)) c s in
      let (rest, s'') = run_all store run g c ids s' in ((id, result) ∷ rest, s'')

  unfoldable pub schedule_next :
      Answer (List String) → ExecutionState → Option AppError × ExecutionState
  unfolding schedule_all
  schedule_next (fine ids) st = schedule_all ids st
  schedule_next (fails failure) st = (some failure, st)

  -- One round of the loop over the results.
  unfoldable pub finish_node :
      String → NodeResult → ExecutionState → Option AppError × ExecutionState
  unfolding schedule_next complete next_nodes
  finish_node id result st =
      let st' = complete e.lexis id result st in
      schedule_next (next_nodes e.lexis st'.graph id result st'.context) st'
