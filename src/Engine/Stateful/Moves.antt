-- ===== src/Engine/Stateful/Moves.antt =====
-- core/flowengine/stateful_executor.go: the tokens under executeReadyToken.
use flowanything.Common.{
  ℕ, String, ◌≡◌, ◌≢◌, refl, sym, ◌∙◌, ◌⊎◌, inl, inr, false, Option, none, some, List, Outcome, ok,
  err, panic, if-cases, ◌==◌, eq_iff,
}
use flowanything.Common.Assoc.{lookup}
use flowanything.Engine.Values.{Error}
use flowanything.Engine.Heap.{Heap}
use flowanything.Engine.Spec.{NodeSpec, NodeResult}
use flowanything.Engine.Registry.{NodeExecutor, get}
use flowanything.Engine.Graph.{index_nodes}
use flowanything.Engine.Graph.Index.{index_nodes-id, targets_of, outgoing_edges-targets_of}
use flowanything.Engine.Mapping.{build_node_input, apply_context_writes}
use flowanything.Engine.Executor.{output_map}
use flowanything.Engine.Instance.{TokenStatus, ExecutionToken}
use flowanything.Engine.Stateful.Base.{
  Env, Work, WaitConfig, emit, edit_token, edit_node_state, set_status,
}
use flowanything.Engine.Stateful.Token.{
  Result, fail_node, block_on, wait_on, block_on_wait_node, after_writes, next_ids, after_execute,
  run_executor, dispatch, mark_running, after_build, start_token, find_executor,
  execute_ready_token,
}
use flowanything.Engine.Stateful.Next.{Ran, IsLeft, ExecutedFor, Executed, ExecutedFor-Executed}
use flowanything.Engine.Stateful.Frame.{
  tokens, Changed-after, Moved-after, Changed-only, Keeps-set_status, update_at-id,
}
use flowanything.Engine.Stateful.JoinMoves.{complete_node-Moved, execute_join_node-Consumed}

fail_node-Executed :
    (env : Env) (i : ℕ) (node : NodeSpec) (input output : Option ℕ) (e : Error) (w : Work)
    → ExecutedFor env node i w (fail_node env i node input output e w)
unfolding fail_node edit_node_state emit
fail_node-Executed env i node input output e w = (
  set_status TokenStatus.consumed,
  Changed-only node.id refl (Keeps-set_status TokenStatus.consumed),
)

panic-Executed : (source : String) (i : ℕ) (w : Work) → IsLeft source i w w
panic-Executed source i w =
    ((λ t. t), Changed-only source (sym (update_at-id i (tokens w))) (λ t. (refl, refl, refl)))

block_on-Executed :
    (env : Env) (i : ℕ) (node : NodeSpec) (input : Option ℕ) (config : Outcome Error WaitConfig)
    (w : Work)
    → node.type ≡ "control.wait"
    → ExecutedFor env node i w (block_on env i node input config w)
unfolding block_on edit_node_state emit
block_on-Executed env i node input (ok config) w waits = inr (
  waits,
  record {
    change = wait_on config;
    becomes = λ t. refl;
    changed = Changed-only node.id refl (λ t. (refl, refl, refl));
  },
)
block_on-Executed env i node input (err e) w waits = fail_node-Executed env i node input none e w
block_on-Executed env i node input panic w waits = panic-Executed node.id i w

-- The executor of a node that neither waits nor joins has given a result; a token is passed on by it, if
-- its writes succeed.
after_writes-Executed :
    (env : Env) (i : ℕ) (node : NodeSpec) (input output : Option ℕ) (nexts : List String)
    (written : Outcome Error (Unit {0})) (w : Work)
    → node.type ≢ "control.wait"
    → node.type ≢ "control.join"
    → Ran env node w.current.instance_id w.current.context nexts
    → ExecutedFor env node i w (after_writes env i node input output nexts written w)
unfolding after_writes
after_writes-Executed env i node input output nexts (ok _) w runs alone ran =
    inl (runs, (nexts, inr (alone, ran), complete_node-Moved env i node input output nexts w))
after_writes-Executed env i node input output nexts (err e) w runs alone ran =
    fail_node-Executed env i node input output e w
after_writes-Executed env i node input output nexts panic w runs alone ran =
    panic-Executed node.id i w

next_ids-cases :
    (env : Env) (node : NodeSpec) (r : NodeResult)
    → (r.next_node_ids ≡ some (next_ids env node r))
      ⊎ ((r.next_node_ids ≡ none) × (next_ids env node r ≡ targets_of node.id env.spec.edges))
next_ids-cases env node r =
    elim r.next_node_ids
      as (λ o.
        (o ≡ some (next_ids env node (record r { next_node_ids = o })))
        ⊎ ((o ≡ none)
            × (next_ids env node (record r { next_node_ids = o })
                ≡ targets_of node.id env.spec.edges))) [
                  | some ids ↦ inl refl
                  | none ↦ inr (refl, outgoing_edges-targets_of env.spec.edges node.id)
                ]

after_execute-Executed :
    (env : Env) (i : ℕ) (node : NodeSpec) (executor : NodeExecutor) (input : Option ℕ)
    (result : Outcome Error NodeResult) (before : Heap) (w : Work)
    → node.type ≢ "control.wait"
    → node.type ≢ "control.join"
    → get node.type env.registry ≡ some executor
    → executor.execute
        (record {
          run_id = w.current.instance_id;
          flow = env.spec;
          node = node;
          input = input;
          context = w.current.context;
        })
        before
      ≡ (result, w.heap)
    → ExecutedFor env node i w (after_execute env i node input result w)
unfolding after_execute
after_execute-Executed env i node executor input (ok r) before w runs alone registered gave =
    let (output, h) = output_map r.output w.heap in
    let (written, h') = apply_context_writes w.current.context output node.output_writes h in
    after_writes-Executed env i node input output (next_ids env node r) written
      (record w { heap = h' }) runs alone
      (record {
        executor = executor;
        input = input;
        before = before;
        after = w.heap;
        result = r;
        registered = registered;
        gave = gave;
        next = next_ids-cases env node r;
      })
after_execute-Executed env i node executor input (err e) before w runs alone registered gave =
    fail_node-Executed env i node input none e w
after_execute-Executed env i node executor input panic before w runs alone registered gave =
    panic-Executed node.id i w

run_executor-Executed :
    (env : Env) (i : ℕ) (node : NodeSpec) (executor : NodeExecutor) (input : Option ℕ) (w : Work)
    → node.type ≢ "control.wait"
    → node.type ≢ "control.join"
    → get node.type env.registry ≡ some executor
    → ExecutedFor env node i w (run_executor env i node executor input w)
unfolding run_executor
run_executor-Executed env i node executor input w runs alone registered =
    after_execute-Executed env i node executor input _ w.heap _ runs alone registered refl

-- A text that is not the given one.
differs : (a b : String) → (a == b) ≡ false → a ≢ b
differs a b e p = let f = (eq_iff a b).1 p in cc

join_is_no_wait : (s : String) → s ≡ "control.join" → s ≢ "control.wait"
join_is_no_wait s e p = let f = (eq_iff "control.join" "control.wait").1 (sym e ∙ p) in absurd (cc)

dispatch-Executed :
    (env : Env) (i : ℕ) (t : ExecutionToken) (node : NodeSpec) (executor : NodeExecutor)
    (input : Option ℕ) (w : Work)
    → get node.type env.registry ≡ some executor
    → ExecutedFor env node i w (dispatch env i t node executor input w)
unfolding dispatch block_on_wait_node
dispatch-Executed env i t node executor input w registered =
    if-cases (ExecutedFor env node i w) (node.type == "control.wait")
      (λ waits. block_on-Executed env i node input _ w ((eq_iff node.type "control.wait").0 waits))
      (λ runs.
        if-cases (ExecutedFor env node i w) (node.type == "control.join")
          (λ joins.
            let (nexts, next, moved) = execute_join_node-Consumed env i t node input w in
            inl (
              differs node.type "control.wait" runs,
              (nexts, inl ((eq_iff node.type "control.join").0 joins, next), moved),
            ))
          (λ alone.
            run_executor-Executed env i node executor input w
              (differs node.type "control.wait" runs) (differs node.type "control.join" alone)
              registered))

-- What a token that was set running has become.
Executed-after :
    (env : Env) (node : NodeSpec) (i : ℕ) (w : Work) (r : Result)
    → ExecutedFor env node i (edit_token i (set_status TokenStatus.running) w) r
    → ExecutedFor env node i w r
Executed-after env node i w (ok _, w') (inl (runs, (nexts, next, m))) =
    inl
      (runs, (nexts, next, Moved-after (tokens w) _ refl (Keeps-set_status TokenStatus.running) m))
Executed-after env node i w (ok _, w') (inr (waits, m)) =
    inr (waits, Moved-after (tokens w) _ refl (Keeps-set_status TokenStatus.running) m)
Executed-after env node i w (err _, w') (f, c) =
    (_, Changed-after (tokens w) _ refl (Keeps-set_status TokenStatus.running) c)
Executed-after env node i w (panic, w') (f, c) =
    (_, Changed-after (tokens w) _ refl (Keeps-set_status TokenStatus.running) c)

after_build-Executed :
    (env : Env) (i : ℕ) (t : ExecutionToken) (node : NodeSpec) (executor : NodeExecutor)
    (input : Option ℕ) (built : Outcome Error (Unit {0})) (w : Work)
    → get node.type env.registry ≡ some executor
    → ExecutedFor env node i w (after_build env i t node executor input built w)
unfolding after_build mark_running edit_node_state emit
after_build-Executed env i t node executor input (ok _) w registered =
    dispatch-Executed env i t node executor input (mark_running env node input w) registered
after_build-Executed env i t node executor input (err e) w registered = panic-Executed node.id i w
after_build-Executed env i t node executor input panic w registered = panic-Executed node.id i w

start_token-Executed :
    (env : Env) (i : ℕ) (t : ExecutionToken) (node : NodeSpec) (executor : Option NodeExecutor)
    (w : Work)
    → get node.type env.registry ≡ executor
    → ExecutedFor env node i w (start_token env i t node executor w)
unfolding start_token
start_token-Executed env i t node none w registered = panic-Executed node.id i w
start_token-Executed env i t node (some executor) w registered =
    let w1 = edit_token i (set_status TokenStatus.running) w in
    let (input, built, h) = build_node_input w1.current.context node.input_mappings w1.heap in
    Executed-after env node i w _
      (after_build-Executed env i t node executor input built (record w1 { heap = h }) registered)

find_executor-Executed :
    (env : Env) (i : ℕ) (t : ExecutionToken) (found : Option NodeSpec) (w : Work)
    → lookup t.node_id (index_nodes env.spec.nodes) ≡ found
    → Executed env t.node_id i w (find_executor env i t found w)
unfolding find_executor
find_executor-Executed env i t none w missing = panic-Executed t.node_id i w
find_executor-Executed env i t (some node) w found =
    ExecutedFor-Executed env t.node_id node i w
      (start_token env i t node (get node.type env.registry) w) found
      (index_nodes-id env.spec.nodes t.node_id node found)
      (start_token-Executed env i t node (get node.type env.registry) w refl)

pub execute_ready_token-Executed :
    (env : Env) (i : ℕ) (t : ExecutionToken) (w : Work)
    → Executed env t.node_id i w (execute_ready_token env i t w)
unfolding execute_ready_token
execute_ready_token-Executed env i t w =
    find_executor-Executed env i t (lookup t.node_id (index_nodes env.spec.nodes)) w refl
