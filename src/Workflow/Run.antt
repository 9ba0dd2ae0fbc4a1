-- ===== src/Workflow/Run.antt =====
-- internal/flowengine/executor.go: the rounds of a run, and Execute.
pub mod Steps
pub mod Ends
pub mod Rounds
pub mod Live
pub mod Whole
use flowanything.Common.{
  ℕ, zero, suc, String, Bool, true, false, Option, none, some, List, [], ◌∷◌, eqb, ltb, leb, length,
  take, if◌then◌else◌, map,
}
use flowanything.Platform.{
  Answer, fine, fails, AppError, new, invalid_argument, conflict, unavailable,
}
use flowanything.Workflow.Values.{Fields, empty}
use flowanything.Workflow.Types.{Graph, Spec, running, succeeded, failed, Run, NodeResult}
use flowanything.Workflow.Context.{new_run_context, output_of}
use flowanything.Workflow.Store.{RunStore}
use flowanything.Workflow.Validation.{validate_spec}
use flowanything.Workflow.State.{
  ExecutionState, new_execution_state, schedule, mark_all_started, ready_nodes,
}
use flowanything.Workflow.Executor.{Executor, run_all, finish_node, first_error}

-- The first error that the goroutines of a round sent, or all their results.
unfoldable pub all_results : List (String × Answer NodeResult) → Answer (List (String × NodeResult))
all_results [] = fine []
all_results ((id, fails e) ∷ sent) = fails e
all_results ((id, fine result) ∷ sent) = elim (all_results sent) [
  | fine results ↦ fine ((id, result) ∷ results)
  | fails e ↦ fails e
]

-- Why executeGraph ends: all is done, one of its own two errors, or the error of a round.
pub data Halt : Type 0 where
  finished exceeded stuck : Halt
  broken : AppError → Halt

unfoldable pub halt_error : Halt → Option AppError
halt_error finished = none
halt_error exceeded = some (new invalid_argument "workflow exceeded max steps")
halt_error stuck = some (new conflict "workflow cannot progress because no scheduled node is ready")
halt_error (broken e) = some e

-- The defaults of executeGraph for a limit that is not positive.
abbrev pub or_default : ℕ → ℕ → ℕ
or_default default n = if eqb n 0 then default else n

abbrev pub max_steps : Spec → ℕ
max_steps spec = or_default 64 spec.policy.max_steps

abbrev pub max_parallelism : Spec → ℕ
max_parallelism spec = or_default 4 spec.policy.max_parallelism

-- The run that Execute creates.
unfoldable pub new_run : String → ℕ → Spec → Fields → Fields → String → Run
new_run id now spec input initial trace_id = record {
  id = id;
  tenant_id = spec.tenant_id;
  workflow_id = spec.id;
  version = spec.version;
  status = running;
  input = input;
  context = initial;
  output = empty;
  error = none;
  trace_id = trace_id;
  started_at = now;
  finished_at = none;
}

-- The run that Execute updates.
unfoldable pub ended_run : Run → ℕ → Option AppError → ExecutionState → Run
unfolding output_of
ended_run run now none st = record run {
  finished_at = some now;
  context = st.context.ctx;
  status = succeeded;
  output = output_of st.context;
}
ended_run run now (some failure) st = record run {
  finished_at = some now;
  context = st.context.ctx;
  status = failed;
  error = some failure;
}

abbrev pub zero_run : Run
zero_run = record {
  id = "";
  tenant_id = "";
  workflow_id = "";
  version = "";
  status = running;
  input = empty;
  context = empty;
  output = empty;
  error = none;
  trace_id = "";
  started_at = 0;
  finished_at = none;
}

-- After a round: the error of the round, or the next one.
unfoldable pub after_round :
    {S : Type 0}
    → (ExecutionState → S → Option ((Halt × ExecutionState) × S))
    → (Option AppError × ExecutionState) × S
    → Option ((Halt × ExecutionState) × S)
after_round next ((none, st), s) = next st s
after_round next ((some failure, st), s) = some ((broken failure, st), s)

-- A round for the nodes that are ready, if there are any.
unfoldable pub or_stuck :
    {S : Type 0}
    → ExecutionState
    → S
    → (List String → Option ((Halt × ExecutionState) × S))
    → List String
    → Option ((Halt × ExecutionState) × S)
or_stuck st s go [] = some ((stuck, st), s)
or_stuck st s go (id ∷ ids) = go (id ∷ ids)

module _ {S : Type 0} (e : Executor S) where
  -- The loop of executeReadyNodes over the results.
  unfoldable pub finish_all :
      List (String × NodeResult) → ExecutionState → Option AppError × ExecutionState
  unfolding finish_node
  finish_all [] st = (none, st)
  finish_all ((id, result) ∷ results) st =
      let (error, st') = finish_node e id result st in
      elim error as (λ _. Option AppError × ExecutionState) [
        | none ↦ finish_all results st'
        | some failure ↦ (some failure, st')
      ]

  finish_round :
      Answer (List (String × NodeResult)) → ExecutionState → Option AppError × ExecutionState
  unfolding finish_all
  finish_round (fails failure) st = (some failure, st)
  finish_round (fine results) st = finish_all results st

  -- executeReadyNodes
  unfoldable pub execute_ready_nodes :
      RunStore S → Run → List String → ExecutionState → S → (Option AppError × ExecutionState) × S
  unfolding finish_round all_results run_all mark_all_started
  execute_ready_nodes store run ids st s =
      let (sent, s') = run_all e store run st.graph st.context (e.arrange s ids) s in
      (finish_round (all_results sent) (mark_all_started ids st), s')

  -- ready[:maxParallelism], where there are more
  unfoldable pub next_round : ℕ → ExecutionState → S → List String
  unfolding ready_nodes
  next_round parallelism st s = take parallelism (ready_nodes st (e.arrange s st.scheduled))

  -- The loop of executeGraph on fuel; `none` means that the fuel ran out.
  unfoldable pub rounds :
      ℕ → ℕ → ℕ → RunStore S → Run → ExecutionState → S → Option ((Halt × ExecutionState) × S)
  unfolding execute_ready_nodes next_round after_round or_stuck
  rounds zero steps parallelism store run st s = none
  rounds (suc fuel) steps parallelism store run st s =
      let next =
        λ (st' : ExecutionState) (s' : S). rounds fuel steps parallelism store run st' s' in
      if ltb (length st.completed) (length st.scheduled)
      then (if leb steps (length st.completed)
          then some ((exceeded, st), s)
          else or_stuck st s (λ ids. after_round next (execute_ready_nodes store run ids st s))
              (next_round parallelism st s))
      else some ((finished, st), s)

  -- executeGraph, after the entry node was scheduled
  unfoldable pub enter :
      ℕ
      → RunStore S
      → Run
      → Spec
      → ExecutionState
      → Answer ExecutionState
      → S
      → Option ((Halt × ExecutionState) × S)
  unfolding rounds
  enter fuel store run spec st (fine st') s =
      rounds fuel (max_steps spec) (max_parallelism spec) store run st' s
  enter fuel store run spec st (fails failure) s = some ((broken failure, st), s)

  -- executeGraph
  unfoldable pub execute_graph :
      ℕ → RunStore S → Run → Spec → ExecutionState → S → Option ((Halt × ExecutionState) × S)
  unfolding enter schedule
  execute_graph fuel store run spec st s =
      enter fuel store run spec st (schedule spec.graph.entry_node_id st) s

  end_run :
      RunStore S → Run → Option ((Halt × ExecutionState) × S) → Option ((Run × Option AppError) × S)
  unfolding ended_run halt_error
  end_run store run none = none
  end_run store run (some ((halt, st), s)) =
      let ended = ended_run run (e.now s) (halt_error halt) st in
      let (updated, s') = store.update_run ended s in
      some ((ended, first_error (halt_error halt) updated), s')

  run_created :
      ℕ
      → RunStore S
      → Run
      → Spec
      → Fields
      → Fields
      → Option AppError × S
      → Option ((Run × Option AppError) × S)
  unfolding end_run execute_graph new_run_context
  run_created fuel store run spec input initial (some failure, s) =
      some ((zero_run, some failure), s)
  run_created fuel store run spec input initial (none, s) = end_run store run (
      execute_graph fuel store run spec
        (new_execution_state spec.graph (new_run_context input initial)) s)

  run_valid :
      ℕ
      → Option (RunStore S)
      → Spec
      → Fields
      → Fields
      → String
      → S
      → Option ((Run × Option AppError) × S)
  unfolding run_created new_run
  run_valid fuel none spec input initial trace_id s =
      some ((zero_run, some (new unavailable "workflow run store is not configured")), s)
  run_valid fuel (some store) spec input initial trace_id s =
      let (id, s') = e.new_id s in
      let run = new_run id (e.now s') spec input initial trace_id in
      run_created fuel store run spec input initial (store.create_run run s')

  -- Execute
  unfoldable pub execute :
      ℕ → Spec → Fields → Fields → String → S → Option ((Run × Option AppError) × S)
  unfolding run_valid validate_spec
  execute fuel spec input initial trace_id s = elim (validate_spec spec) [
    | some failure ↦ some ((zero_run, some failure), s)
    | none ↦ run_valid fuel e.store spec input initial trace_id s
  ]
