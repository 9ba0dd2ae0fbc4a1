-- ===== src/Tests/Workflows.antt =====
-- A workflow of two nodes in the memory store.
use flowanything.Common.{
  String, true, false, ◌≡◌, ◌≢◌, refl, ◌↔◌, inl, inr, Option, none, some, List, [], ◌∷◌, ◌==◌,
  if◌then◌else◌, concat, ok, arith, eq_iff, map, trim_space, trim_prefix, split_on,
}
use flowanything.Common.Assoc.{lookup}
use flowanything.Platform.{fine}
use flowanything.Workflow.Values.{null, text, Fields, empty, entry, get_field, set_field}
use flowanything.Workflow.Types.{Node, Edge, Graph, Spec, running, Run, NodeRun}
use flowanything.Workflow.Context.{
  Lexis, RunContext, written, write, path_parts, normalize_path, domain_of,
}
use flowanything.Workflow.Context.Protected.{
  LowersNames, write-keeps_protected, write-past_protection,
}
use flowanything.Workflow.Store.{
  MemoryRunStore, new_memory_run_store, memory_run_store, run_key, save_run, get_run,
  list_node_runs, record_node_run_in,
}
use flowanything.Workflow.Store.Recorded.{
  find_run, run_ids, list_node_runs-record, get_run-crosses_tenants,
}
use flowanything.Workflow.Validation.{validate_graph, has_cycle}
use flowanything.Workflow.Validation.Cycles.{HasCycle}
use flowanything.Workflow.Validation.Acyclic.{has_cycle_iff}
use flowanything.Workflow.Validation.Accepted.{IsGraph, validate_graph_iff}
use flowanything.Workflow.State.{ExecutionState, new_execution_state}
use flowanything.Workflow.Routing.{next_nodes}
use flowanything.Workflow.Routing.Targets.{Each, HasEdge, next_nodes-HasEdge}
use flowanything.Workflow.Executor.{Executor, new_node_registry, no_result}
use flowanything.Workflow.Run.{Halt, execute_graph, zero_run}
use flowanything.Workflow.Run.Ends.{IsOrder}
use flowanything.Workflow.Run.Rounds.{Ends}
use flowanything.Workflow.Run.Whole.{entered, execute_graph-Ends}

-- Texts in lower case, in which equal trees are those of the same text.
abbrev lower : Lexis
lower = record { to_lower = λ s. s; sprint = λ t. ""; deep_equal = λ a b. false }

abbrev node_of : String → String → Node
node_of id type = record { id = id; type = type; name = id; config = empty; timeout_millis = 0 }

abbrev edge_of : String → String → Edge
edge_of from to = record {
  id = concat from to;
  from_node_id = from;
  to_node_id = to;
  type = "default";
  condition = none;
}

abbrev line : Graph
line = record {
  entry_node_id = "a";
  nodes = ("a", node_of "a" "start") ∷ ("b", node_of "b" "end") ∷ [];
  edges = edge_of "a" "b" ∷ [];
}

abbrev spec : Spec
spec = record {
  id = "w";
  tenant_id = "acme";
  name = "line";
  status = "draft";
  profile = "tool_workflow";
  graph = line;
  policy = record { max_steps = 2; max_parallelism = 0 };
  version = "v1";
}

abbrev engine : Executor MemoryRunStore
engine = record {
  store = some memory_run_store;
  registry = new_node_registry lower;
  lexis = lower;
  new_id = λ s. ("n", s);
  now = λ s. 7;
  arrange = λ s ids. ids;
}

engine-IsOrder : IsOrder engine
engine-IsOrder = record { members = λ s ids a. ((λ m. m), (λ m. m)); size = λ s ids. refl }

abbrev context : RunContext
context = record { input = empty; ctx = empty; vars = empty; last = empty }

execute_graph-Ends_example : Ends line 2 4 (entered line context) (
    execute_graph engine 3 memory_run_store zero_run spec
      (new_execution_state line context)
      new_memory_run_store)
unfolding validate_graph trim_space lookup
execute_graph-Ends_example =
    execute_graph-Ends engine 3 memory_run_store zero_run spec context new_memory_run_store
      engine-IsOrder refl (omega arith)

validate_graph_iff_example : (validate_graph line ≡ none) ↔ IsGraph line
validate_graph_iff_example = validate_graph_iff line

has_cycle_iff_example : (has_cycle line ≡ true) ↔ HasCycle (edge_of "a" "b" ∷ [])
has_cycle_iff_example =
    has_cycle_iff line (λ e m. elim m [ inl same ↦ rw same (inl refl) | inr n ↦ elim n [ ] ])

next_nodes-HasEdge_example :
    Each (HasEdge line.edges "a") (next_nodes lower line "a" no_result context)
    × (no_result.stop ≡ true → next_nodes lower line "a" no_result context ≡ fine [])
next_nodes-HasEdge_example = next_nodes-HasEdge lower line "a" no_result context

abbrev node_run : NodeRun
node_run = record {
  id = "n";
  tenant_id = "acme";
  run_id = "r";
  workflow_id = "w";
  node_id = "a";
  node_type = "start";
  node_name = "a";
  status = running;
  input = empty;
  output = empty;
  context = empty;
  error = none;
  started_at = 7;
  finished_at = none;
}

list_node_runs-record_example :
    ((id : String)
      → find_run id (list_node_runs "acme" "r" (record_node_run_in node_run new_memory_run_store))
        ≡ (if "n" == id
            then some node_run
            else find_run id (list_node_runs "acme" "r" new_memory_run_store)))
    × ((old : NodeRun)
        → find_run "n" (list_node_runs "acme" "r" new_memory_run_store) ≡ some old
        → run_ids (list_node_runs "acme" "r" (record_node_run_in node_run new_memory_run_store))
          ≡ run_ids (list_node_runs "acme" "r" new_memory_run_store))
    × ((key : String)
        → run_key "acme" "r" ≢ key
        → lookup key (record_node_run_in node_run new_memory_run_store).node_runs
          ≡ lookup key new_memory_run_store.node_runs)
    × ((record_node_run_in node_run new_memory_run_store).runs ≡ new_memory_run_store.runs)
list_node_runs-record_example = list_node_runs-record node_run new_memory_run_store

abbrev foreign_run : Run
foreign_run = record zero_run { id = "r"; tenant_id = "acme:eu" }

get_run-crosses_tenants_example :
    get_run "acme" "eu:r" (save_run foreign_run new_memory_run_store) ≡ ok foreign_run
get_run-crosses_tenants_example =
    get_run-crosses_tenants "acme" "eu" "r" foreign_run new_memory_run_store refl refl

lower-LowersNames : LowersNames lower
lower-LowersNames = record { input = refl; responses_ = refl }

abbrev inputs : Fields
inputs = entry "flow_input" (text "x") empty

write-keeps_protected_example :
    get_field "flow_input" (set_field "y" null inputs) ≡ get_field "flow_input" inputs
unfolding path_parts write normalize_path split_on trim_prefix trim_space
write-keeps_protected_example =
    write-keeps_protected lower "$.y" null inputs (set_field "y" null inputs) "flow_input"
      lower-LowersNames (inl refl) ((λ e. absurd (let h = (eq_iff "y" "").1 e in cc)), tt) refl

write-past_protection_example :
    write lower "$..flow_input" null inputs ≡ written (set_field "flow_input" null inputs)
unfolding path_parts normalize_path split_on trim_prefix trim_space domain_of
write-past_protection_example =
    write-past_protection lower "$..flow_input" "flow_input" null inputs refl refl refl refl

-- Two branches from s to the join j, one longer than the other by two nodes.
abbrev uneven : Graph
uneven = record {
  entry_node_id = "s";
  nodes = map (λ (id : String). (id, node_of id "join")) ("s" ∷ "a" ∷ "b" ∷ "d" ∷ "c" ∷ "j" ∷ []);
  edges =
      edge_of "s" "a"
      ∷ edge_of "a" "b"
      ∷ edge_of "b" "d"
      ∷ edge_of "d" "j"
      ∷ edge_of "s" "c"
      ∷ edge_of "c" "j"
      ∷ [];
}

abbrev completed_nodes : Option ((Halt × ExecutionState) × MemoryRunStore) → List String
completed_nodes none = []
completed_nodes (some ((halt, st), s)) = st.completed

-- The completed nodes, the last one first: the join is executed before the node d that leads to it.
join_runs_early :
    completed_nodes (
      execute_graph engine 9 memory_run_store zero_run
        (record spec { graph = uneven; policy = record { max_steps = 9; max_parallelism = 4 } })
        (new_execution_state uneven context)
        new_memory_run_store)
    ≡ "d" ∷ "j" ∷ "b" ∷ "a" ∷ "c" ∷ "s" ∷ []
unfolding execute_graph trim_space lookup new_node_registry
join_runs_early = refl
