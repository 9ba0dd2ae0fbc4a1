-- ===== src/Workflow/Run/Whole.antt =====
-- internal/flowengine/executor.go: executeGraph from its start.
use flowanything.Common.{
  ℕ, ◌<◌, ◌≡◌, refl, sym, subst, inl, inr, false, Bool-cases, none, [], ◌∷◌, length, arith,
}
use flowanything.Platform.{Answer, fine}
use flowanything.Workflow.Types.{Graph, Run, Spec}
use flowanything.Workflow.Context.{RunContext}
use flowanything.Workflow.Store.{RunStore}
use flowanything.Workflow.Validation.{has_cycle, validate_graph}
use flowanything.Workflow.Validation.Acyclic.{length-keys, has_cycle_iff}
use flowanything.Workflow.Validation.Accepted.{
  IsGraph, validate_graph_iff, edges-StartsAtNodes, In-is_node,
}
use flowanything.Workflow.State.{ExecutionState, new_execution_state, add, schedule}
use flowanything.Workflow.State.Sets.{IsRun}
use flowanything.Workflow.Executor.{Executor}
use flowanything.Workflow.Run.Ends.{IsOrder}
use flowanything.Workflow.Run.Rounds.{Ends}
use flowanything.Workflow.Run.Live.{rounds-Ends}
use flowanything.Workflow.Run.{or_default, max_steps, max_parallelism, enter, execute_graph}

IsGraph-no_cycle : (g : Graph) → IsGraph g → has_cycle g ≡ false
IsGraph-no_cycle g is_graph = elim (Bool-cases (has_cycle g)) [
  | inr e ↦ e
  | inl e ↦
      elim (is_graph.acyclic ((has_cycle_iff g (edges-StartsAtNodes g is_graph.edges)).0 e)) [ ]
]

or_default-positive : (n m : ℕ) → 0 < n → 0 < or_default n m
or_default-positive n m h = ground (arith, h)

-- The state with the entry node scheduled.
abbrev pub entered : Graph → RunContext → ExecutionState
entered g c = record (new_execution_state g c) { scheduled = g.entry_node_id ∷ [] }

schedule-entered :
    (g : Graph) (c : RunContext)
    → IsGraph g
    → schedule g.entry_node_id (new_execution_state g c) ≡ fine (entered g c)
unfolding schedule add
schedule-entered g c is_graph =
    rw (is_graph.entry_named, In-is_node g.nodes g.entry_node_id is_graph.entry_there) refl

entered-IsRun : (g : Graph) (c : RunContext) → IsGraph g → IsRun g (entered g c)
entered-IsRun g c is_graph = record {
  same = refl;
  known = λ a m. elim m [ inl e ↦ rw e is_graph.entry_there | inr n ↦ elim n [ ] ];
  reached = λ a m. elim m [ inl e ↦ inl e | inr n ↦ elim n [ ] ];
  ran = λ a m. elim m [ ];
  once_scheduled = ((λ m. m), tt);
  once = tt;
}

-- executeGraph, on a graph that ValidateGraph accepts, over any node executors and store and for any
-- order in which maps are ranged over and goroutines run: it ends within one round for each node and one
-- more, and never fails for want of a ready node. From the state in which only the entry node is scheduled
-- it goes through rounds, each begun while fewer nodes than the limit of steps are completed and for at
-- most as many nodes as may run in parallel, all scheduled and not completed, so that the last round may
-- go past the limit of steps, but the completed nodes stay fewer than both limits together. Only nodes that
-- can be reached from the entry node are completed, each of them was scheduled; without an error all
-- scheduled nodes are completed; and it fails for the number of steps only where at least so many nodes
-- are completed.
pub execute_graph-Ends :
    {S : Type 0} (e : Executor S) (fuel : ℕ) (store : RunStore S) (run : Run) (spec : Spec)
    (c : RunContext) (s : S)
    → IsOrder e
    → validate_graph spec.graph ≡ none
    → length spec.graph.nodes < fuel
    → Ends spec.graph
        (max_steps spec)
        (max_parallelism spec)
        (entered spec.graph c)
        (execute_graph e fuel store run spec (new_execution_state spec.graph c) s)
unfolding execute_graph enter
execute_graph-Ends e fuel store run spec c s order valid enough =
    let is_graph = (validate_graph_iff spec.graph).0 valid in
    let steps = or_default-positive 64 spec.policy.max_steps (omega arith) in
    let parallel = or_default-positive 4 spec.policy.max_parallelism (omega arith) in
    let st = new_execution_state spec.graph c in
    subst
      (λ (entry : Answer ExecutionState).
        Ends spec.graph (max_steps spec) (max_parallelism spec) (entered spec.graph c)
          (enter e fuel store run spec st entry s))
      (sym (schedule-entered spec.graph c is_graph))
      (rounds-Ends e spec.graph (max_steps spec) (max_parallelism spec) fuel store run
        (entered spec.graph c) s order (IsGraph-no_cycle spec.graph is_graph) parallel
        (entered-IsRun spec.graph c is_graph) (λ a m. elim m [ ]) (omega (arith, steps, parallel))
        (omega (arith, enough, length-keys spec.graph.nodes)))
