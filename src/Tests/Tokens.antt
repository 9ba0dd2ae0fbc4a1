-- ===== src/Tests/Tokens.antt =====
-- Instances of the stateful executor: a flow whose join gets one of two branches only.
use flowanything.Common.{true, false, String, ◌≡◌, refl, Option, none, some, [], ◌∷◌, ok, err}
use flowanything.Common.Assoc.{lookup, insert}
use flowanything.Engine.Values.{wait_without_condition}
use flowanything.Engine.Heap.{write_parts}
use flowanything.Engine.Paths.{split_field}
use flowanything.Engine.Spec.{FlowSpec}
use flowanything.Engine.Mapping.{resolve_value}
use flowanything.Engine.Registry.{NodeExecutor, Registry}
use flowanything.Engine.Graph.{outgoing_edges}
use flowanything.Engine.Trace.{no_trace}
use flowanything.Engine.Instance.{InstanceStatus, TokenStatus, ExecutionToken, FlowInstance}
use flowanything.Engine.Stateful.Store.{
  Instances, memory_instance_store, clone_any, create_instance, get_instance, save_instance,
}
use flowanything.Engine.Stateful.Base.{Env, Work, update_at, incoming_edges}
use flowanything.Engine.Stateful.Token.{execute_ready_token}
use flowanything.Engine.Stateful.Run.{Finish, Step, continue, halt, step, start, ends}
use flowanything.Engine.Stateful.Arrived.{HasFairJoins}
use flowanything.Engine.Stateful.Settle.{IsSettled, KeepsJoins, step-IsSettled, step-KeepsJoins}
use flowanything.Engine.Instance.{ExternalEvent}
use flowanything.Engine.Stateful.Resume.{Matched, resume_tokens}
use flowanything.Engine.Stateful.Resumed.{ResumedBy, resume_tokens-Resumed}
use flowanything.Tests.Samples.{empty_heap, task, task_node, edge}

-- A node executor that goes to `j` alone, whatever the edges say.
abbrev to_join : NodeExecutor
to_join = record {
  type = "pick";
  validate = λ n h. none;
  execute = λ request h. (ok (record { output = none; next_node_ids = some ("j" ∷ []) }), h);
}

abbrev join_executor : NodeExecutor
join_executor = record {
  type = "control.join";
  validate = λ n h. none;
  execute = λ request h. (ok (record { output = none; next_node_ids = none }), h);
}

abbrev executors : Registry
executors = ("task", task) ∷ ("pick", to_join) ∷ ("control.join", join_executor) ∷ []

-- `a` picks `j`; its edge to `b`, and so the edge from `b` to `j`, is never taken.
abbrev half_join : FlowSpec
half_join = record {
  id = "half";
  name = "";
  version = "v1";
  nodes =
      record (task_node "a" []) { type = "pick" }
      ∷ task_node "b" []
      ∷ record (task_node "j" []) { type = "control.join" }
      ∷ task_node "z" []
      ∷ [];
  edges = edge "a" "b" ∷ edge "a" "j" ∷ edge "b" "j" ∷ edge "j" "z" ∷ [];
  max_node_executions = 0;
}

abbrev half_env : Env
half_env = record {
  spec = half_join;
  registry = executors;
  trace = no_trace;
  decode_wait = λ config h. err wait_without_condition;
  sprint = λ v h. "";
  token_id = λ n. "t";
}

abbrev no_instance : FlowInstance
no_instance = record {
  instance_id = "i1";
  flow_id = "";
  flow_version = "";
  status = InstanceStatus.created;
  context = record { flow_input = none; flow_output = none; variables = none; node_context = none };
  tokens = [];
  node_states = [];
  join_states = [];
  last_error = none;
  version = 0;
}

abbrev no_work : Work
no_work = record { heap = empty_heap; current = no_instance; events = []; made = 0 }

-- The instance that a run leaves, or the empty one.
instance_of : Option (Finish Instances) → FlowInstance
instance_of none = no_instance
instance_of (some f) = f.work.current

half_run : FlowInstance
unfolding start instance_of lookup insert resolve_value write_parts outgoing_edges incoming_edges
    clone_any execute_ready_token create_instance get_instance save_instance split_field update_at
half_run = instance_of (start (memory_instance_store 9) 9 half_env "i1" none no_work [])

-- The join still waits for `b`, and `z` has not run; the instance is completed all the same.
half_run_completes : half_run.status ≡ InstanceStatus.completed
unfolding half_run
half_run_completes = refl

half_run_leaves_z : lookup "z" half_run.node_states ≡ none
unfolding half_run lookup
half_run_leaves_z = refl

token : String → TokenStatus → ExecutionToken
token id status = record {
  token_id = "t";
  node_id = id;
  source_node_id = "";
  status = status;
  payload = none;
  waiting_for = [];
}

-- An instance with a token at `a`, in the given state.
at_a : TokenStatus → Work
unfolding token
at_a status = record {
  heap = empty_heap;
  current = record no_instance { tokens = token "a" status ∷ [] };
  events = [];
  made = 0;
}

finish_of : Step Instances → Finish Instances
finish_of (halt f) = f
finish_of (continue w s) = ends (err wait_without_condition) w s

waiting_end : Finish Instances
unfolding finish_of step at_a lookup insert save_instance clone_any
waiting_end = finish_of (step (memory_instance_store 9) half_env (at_a TokenStatus.waiting) [])

step-IsSettled_example :
    IsSettled waiting_end.work.current × (waiting_end.returned ≡ some waiting_end.work.current)
unfolding waiting_end
step-IsSettled_example =
    step-IsSettled (memory_instance_store 9) half_env (at_a TokenStatus.waiting) [] waiting_end refl
      refl

-- An instance with a token at the join `j` that has come from `a`.
at_j : Work
unfolding token
at_j = record {
  heap = empty_heap;
  current = record no_instance {
    tokens = record (token "j" TokenStatus.ready) { source_node_id = "a" } ∷ [];
  };
  events = [];
  made = 0;
}

no_joins : HasFairJoins half_env at_j
unfolding at_j lookup
no_joins id j found = absurd (cc)

step-KeepsJoins_example :
    KeepsJoins (memory_instance_store 9) half_env (step (memory_instance_store 9) half_env at_j [])
step-KeepsJoins_example = step-KeepsJoins (memory_instance_store 9) half_env at_j [] no_joins

-- One token at `b` that waits for an event, and one that does not.
two_waiting : Work
unfolding token
two_waiting = record {
  heap = empty_heap;
  current = record no_instance {
    tokens =
        record (token "b" TokenStatus.waiting) {
          waiting_for = record { type = "go"; event_key = "" } ∷ [];
        }
        ∷ token "a" TokenStatus.waiting
        ∷ [];
  };
  events = [];
  made = 0;
}

abbrev go_event : ExternalEvent
go_event = record { type = "go"; key = "k"; payload = none }

resumed : Matched
unfolding two_waiting resume_tokens lookup insert outgoing_edges update_at
resumed = resume_tokens half_env go_event 0 two_waiting.current.tokens false two_waiting

resumed_matches : resumed.0 ≡ ok true
unfolding resumed
resumed_matches = refl

resume_tokens-Resumed_example :
    ResumedBy half_env go_event [] two_waiting.current.tokens []
      (resume_tokens half_env go_event 0 two_waiting.current.tokens false two_waiting)
resume_tokens-Resumed_example = resume_tokens-Resumed half_env go_event two_waiting
