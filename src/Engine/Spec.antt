-- ===== src/Engine/Spec.antt =====
-- core/flowengine/types.go: the definition of a flow, and what a node executor is given and returns.
use flowanything.Common.{ℕ, String, Bool, Option, List}
use flowanything.Engine.Values.{Value}
use flowanything.Engine.Context.{DataContext}

-- Where a mapping value comes from: `type` is "context", "const" or "node_output".
pub record ValueSource : Type 0 where
  pub type : String
  pub path : String
  pub value : Value

pub record FieldBinding : Type 0 where
  pub field : String
  pub source : ValueSource
  pub enabled : Bool

pub record ContextWrite : Type 0 where
  pub target : String
  pub source : ValueSource
  pub enabled : Bool

pub record RetryPolicy : Type 0 where
  pub max_attempts : ℕ
  pub backoff : ℕ

pub record NodeSpec : Type 0 where
  pub id : String
  pub type : String
  pub name : String
  pub config : Option ℕ
  pub input_mappings : List FieldBinding
  pub output_writes : List ContextWrite
  pub timeout : ℕ
  pub retry_policy : RetryPolicy

pub record EdgeSpec : Type 0 where
  pub source : String
  pub target : String

-- The context schema is documentation for authors; the engine does not read it. A limit that is not
-- positive is 0 here.
pub record FlowSpec : Type 0 where
  pub id : String
  pub name : String
  pub version : String
  pub nodes : List NodeSpec
  pub edges : List EdgeSpec
  pub max_node_executions : ℕ

pub record NodeRequest : Type 0 where
  pub run_id : String
  pub flow : FlowSpec
  pub node : NodeSpec
  pub input : Option ℕ
  pub context : DataContext

-- `next_node_ids` is `none` for "use the static edges"; an empty list stops here.
pub record NodeResult : Type 0 where
  pub output : Option ℕ
  pub next_node_ids : Option (List String)
