-- ===== src/Workflow/State.antt =====
-- internal/flowengine/state.go: which nodes of a run are scheduled, started and completed. A map to true
-- is the list of its keys, each once.
pub mod Sets
pub mod Progress
use flowanything.Common.{
  String, Bool, true, false, not, ◌&&◌, ◌||◌, Option, none, some, List, [], ◌∷◌, ◌==◌,
  if◌then◌else◌,
}
use flowanything.Platform.{Answer, fine, fails, AppError, new, invalid_argument, is_empty}
use flowanything.Workflow.Types.{Graph, Edge, NodeResult}
use flowanything.Workflow.Context.{Lexis, RunContext, with_node_result}
use flowanything.Workflow.Validation.{has, is_node}

-- executionState
pub record ExecutionState : Type 0 where
  pub graph : Graph
  pub context : RunContext
  pub scheduled : List String
  pub started : List String
  pub completed : List String

-- newExecutionState
abbrev pub new_execution_state : Graph → RunContext → ExecutionState
new_execution_state graph context = record {
  graph = graph;
  context = context;
  scheduled = [];
  started = [];
  completed = [];
}

-- m[key] = true
unfoldable pub add : List String → String → List String
unfolding has
add ids id = if has ids id then ids else id ∷ ids

-- schedule
unfoldable pub schedule : String → ExecutionState → Answer ExecutionState
unfolding add is_empty
schedule id s =
    if is_empty id
    then fine s
    else if is_node s.graph.nodes id
    then fine (record s { scheduled = add s.scheduled id })
    else fails (new invalid_argument "next workflow node does not exist")

-- markStarted
unfoldable pub mark_started : String → ExecutionState → ExecutionState
unfolding add
mark_started id s = record s { started = add s.started id }

-- complete
unfoldable pub complete : Lexis → String → NodeResult → ExecutionState → ExecutionState
unfolding add with_node_result
complete x id result s = record s {
  completed = add s.completed id;
  context = with_node_result x id result s.context;
}

-- hasPendingScheduledUpstream
unfoldable pub has_pending_upstream : String → ExecutionState → List Edge → Bool
unfolding has
has_pending_upstream id s [] = false
has_pending_upstream id s (e ∷ es) =
    let rest = has_pending_upstream id s es in
    if e.to_node_id == id
    then (has s.scheduled e.from_node_id && not (has s.completed e.from_node_id)) || rest
    else rest

unfoldable pub is_ready : ExecutionState → String → Bool
unfolding has has_pending_upstream
is_ready s id =
    not (has s.started id || has s.completed id) && not (has_pending_upstream id s s.graph.edges)

-- readyNodes, for the scheduled nodes in the order in which the map is ranged over
unfoldable pub ready_nodes : ExecutionState → List String → List String
unfolding is_ready
ready_nodes s [] = []
ready_nodes s (id ∷ ids) = let rest = ready_nodes s ids in if is_ready s id then id ∷ rest else rest

-- The loop of executeReadyNodes before the goroutines.
unfoldable pub mark_all_started : List String → ExecutionState → ExecutionState
unfolding mark_started
mark_all_started [] st = st
mark_all_started (id ∷ ids) st = mark_all_started ids (mark_started id st)

-- schedule for each next node, up to an error
unfoldable pub schedule_all : List String → ExecutionState → Option AppError × ExecutionState
unfolding schedule
schedule_all [] st = (none, st)
schedule_all (id ∷ ids) st = elim (schedule id st) [
  | fine st' ↦ schedule_all ids st'
  | fails failure ↦ (some failure, st)
]
