-- ===== src/Tests/Samples.antt =====
-- Small flows, executors and heaps for the tests.
use flowanything.Common.{ℕ, String, true, none, List, [], ◌∷◌, ok}
use flowanything.Engine.Values.{str}
use flowanything.Engine.Heap.{Heap}
use flowanything.Engine.Spec.{ValueSource, ContextWrite, NodeSpec, EdgeSpec, FlowSpec}
use flowanything.Engine.Registry.{NodeExecutor, Registry}

abbrev pub empty_heap : Heap
empty_heap = record { next = 0; cell = λ a. []; outside = [] }

-- A node executor that accepts every node, makes no output and follows the static edges.
abbrev pub task : NodeExecutor
task = record {
  type = "task";
  validate = λ n h. none;
  execute = λ request h. (ok (record { output = none; next_node_ids = none }), h);
}

abbrev pub registry : Registry
registry = ("task", task) ∷ []

abbrev pub from_const : String → ValueSource
from_const text = record { type = "const"; path = ""; value = str text }

abbrev pub task_node : String → List ContextWrite → NodeSpec
task_node id writes = record {
  id = id;
  type = "task";
  name = id;
  config = none;
  input_mappings = record { field = "step"; source = from_const id; enabled = true } ∷ [];
  output_writes = writes;
  timeout = 0;
  retry_policy = record { max_attempts = 0; backoff = 0 };
}

abbrev pub note : String → ContextWrite
note target = record { target = target; source = from_const "seen"; enabled = true }

abbrev pub edge : String → String → EdgeSpec
edge a b = record { source = a; target = b }

-- Two ways from `a` to `d`, with a limit on the executions.
abbrev pub diamond : ℕ → FlowSpec
diamond limit = record {
  id = "diamond";
  name = "";
  version = "v1";
  nodes =
      task_node "a" (note "$.variables.start" ∷ [])
      ∷ task_node "b" []
      ∷ task_node "c" []
      ∷ task_node "d" (note "$.flow_output.end" ∷ [])
      ∷ [];
  edges = edge "a" "b" ∷ edge "a" "c" ∷ edge "b" "d" ∷ edge "c" "d" ∷ [];
  max_node_executions = limit;
}
