-- ===== src/Workflow/Types.antt =====
-- internal/platform/contracts/workflow: the records of a workflow and of its runs. Types and statuses
-- are texts, as in the source; a limit of a policy that is not positive is 0.
use flowanything.Common.{ℕ, String, Bool, Option, List}
use flowanything.Platform.{AppError}
use flowanything.Workflow.Values.{Tree, Fields}

pub record EdgeCondition : Type 0 where
  pub path : String
  pub equals : Tree
  pub exists : Option Bool

pub record Edge : Type 0 where
  pub id : String
  pub from_node_id : String
  pub to_node_id : String
  pub type : String
  pub condition : Option EdgeCondition

pub record Node : Type 0 where
  pub id : String
  pub type : String
  pub name : String
  pub config : Fields
  pub timeout_millis : ℕ

pub record Graph : Type 0 where
  pub entry_node_id : String
  pub nodes : List (String × Node)
  pub edges : List Edge

pub record ExecutionPolicy : Type 0 where
  pub max_steps : ℕ
  pub max_parallelism : ℕ

pub record Spec : Type 0 where
  pub id : String
  pub tenant_id : String
  pub name : String
  pub status : String
  pub profile : String
  pub graph : Graph
  pub policy : ExecutionPolicy
  pub version : String

-- RunStatus and NodeRunStatus
pub data RunStatus : Type 0 where
  running succeeded failed : RunStatus

-- Run; times are numbers, and an error is kept itself, not its text.
pub record Run : Type 0 where
  pub id : String
  pub tenant_id : String
  pub workflow_id : String
  pub version : String
  pub status : RunStatus
  pub input : Fields
  pub context : Fields
  pub output : Fields
  pub error : Option AppError
  pub trace_id : String
  pub started_at : ℕ
  pub finished_at : Option ℕ

pub record NodeRun : Type 0 where
  pub id : String
  pub tenant_id : String
  pub run_id : String
  pub workflow_id : String
  pub node_id : String
  pub node_type : String
  pub node_name : String
  pub status : RunStatus
  pub input : Fields
  pub output : Fields
  pub context : Fields
  pub error : Option AppError
  pub started_at : ℕ
  pub finished_at : Option ℕ

-- NodeResult (internal/flowengine/mapping.go); no list of next nodes is not an empty list.
pub record NodeResult : Type 0 where
  pub output : Fields
  pub context_writes : Fields
  pub response_writes : Fields
  pub next_node_ids : Option (List String)
  pub stop : Bool
