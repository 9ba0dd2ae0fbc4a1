-- ===== src/Engine/Instance.antt =====
-- core/flowengine/instance.go: the durable state of one flow execution. Time stamps are not modelled.
use flowanything.Common.{ℕ, String, Bool, false, Option, none, List, []}
use flowanything.Engine.Values.{Error}
use flowanything.Engine.Context.{DataContext}

pub data InstanceStatus : Type 0 where
  created running waiting completed failed cancelled : InstanceStatus

-- The text of a status.
abbrev pub status_text : InstanceStatus → String
status_text InstanceStatus.created = "created"
status_text InstanceStatus.running = "running"
status_text InstanceStatus.waiting = "waiting"
status_text InstanceStatus.completed = "completed"
status_text InstanceStatus.failed = "failed"
status_text InstanceStatus.cancelled = "cancelled"

pub data TokenStatus : Type 0 where
  ready running consumed waiting cancelled : TokenStatus

-- `unset` is the empty text of a state that was never written.
pub data NodeStatus : Type 0 where
  unset pending running waiting completed failed skipped : NodeStatus

pub record WaitCondition : Type 0 where
  pub type : String
  pub event_key : String

pub record ExecutionToken : Type 0 where
  pub token_id : String
  pub node_id : String
  pub source_node_id : String
  pub status : TokenStatus
  pub payload : Option ℕ
  pub waiting_for : List WaitCondition

pub record NodeState : Type 0 where
  pub node_id : String
  pub status : NodeStatus
  pub attempts : ℕ
  pub input : Option ℕ
  pub output : Option ℕ
  pub waiting_for : List WaitCondition
  pub error : Option Error

abbrev pub no_node_state : NodeState
no_node_state = record {
  node_id = "";
  status = NodeStatus.unset;
  attempts = 0;
  input = none;
  output = none;
  waiting_for = [];
  error = none;
}

-- `arrived_nodes` lists the keys that are set.
pub record JoinState : Type 0 where
  pub node_id : String
  pub expected_nodes : List String
  pub arrived_nodes : List String
  pub completed : Bool

abbrev pub no_join_state : JoinState
no_join_state = record { node_id = ""; expected_nodes = []; arrived_nodes = []; completed = false }

pub record FlowInstance : Type 0 where
  pub instance_id : String
  pub flow_id : String
  pub flow_version : String
  pub status : InstanceStatus
  pub context : DataContext
  pub tokens : List ExecutionToken
  pub node_states : List (String × NodeState)
  pub join_states : List (String × JoinState)
  pub last_error : Option Error
  pub version : ℕ

pub record ExternalEvent : Type 0 where
  pub type : String
  pub key : String
  pub payload : Option ℕ
