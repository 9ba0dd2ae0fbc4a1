-- ===== src/Engine/Stateful/Joins.antt =====
-- core/flowengine/stateful_executor.go: the join states under executeReadyToken.
use flowanything.Common.{
  ℕ, String, In, Bool-cases, inl, inr, ◌≡◌, refl, sym, subst, ap, ◌∙◌, true, false, Option, none,
  some, List, [], ◌∷◌, ◌==◌, Outcome, ok, err, panic, if-case, if-cases, leb, length, some-eq,
  eq_iff,
}
use flowanything.Common.Assoc.{lookup, insert, lookup-insert}
use flowanything.Engine.Values.{Error, bool}
use flowanything.Engine.Heap.{alloc}
use flowanything.Engine.Spec.{NodeSpec, NodeResult}
use flowanything.Engine.Registry.{NodeExecutor, get}
use flowanything.Engine.Graph.{index_nodes, targets, contains}
use flowanything.Engine.Mapping.{build_node_input, apply_context_writes}
use flowanything.Engine.Executor.{output_map, selected}
use flowanything.Engine.Instance.{TokenStatus, ExecutionToken, JoinState}
use flowanything.Engine.Stateful.Base.{
  WaitConfig, Env, Work, emit, edit_token, set_status, edit_node_state, add_token,
  append_next_tokens, incoming_edges, join_arrived_all, all_arrived,
}
use flowanything.Engine.Stateful.Next.{sources_of, incoming_edges-sources_of}
use flowanything.Engine.Graph.Index.{contains-In}
use flowanything.Engine.Stateful.Token.{
  Result, successors, complete_node, fail_node, block_on, decode_wait_config, block_on_wait_node,
  join_state, arrive, wait_for_others, release_join, join_with, execute_join_node, after_writes,
  next_ids, after_execute, run_executor, dispatch, mark_running, after_build, start_token,
  find_executor, execute_ready_token, set_join,
}

-- All that were expected have arrived.
all_arrived-In :
    (arrived expected : List String) (n : String)
    → all_arrived arrived expected ≡ true
    → In n expected
    → In n arrived
unfolding all_arrived
all_arrived-In arrived [] n h m = elim m [ ]
all_arrived-In arrived (x ∷ xs) n h m = elim (Bool-cases (contains arrived x)) [
  | inr e ↦ absurd (let refused = rw e at h in cc)
  | inl e ↦ elim m [
    | inl same ↦ subst (λ (y : String). In y arrived) (sym same) (contains-In arrived x e)
    | inr later ↦ all_arrived-In arrived xs n (rw e at h) later
  ]
]

-- `Arrives id n` stands for: a token from the node `n` has come to the join `id`.
module _ (Arrives : String → String → Type 0) where
  -- The state of a join expects all the nodes with an edge to it, is completed only if all of them are among
  -- those that have arrived, and holds only such as really have.
  abbrev pub IsFair : Env → String → JoinState → Type 0
  IsFair env id j =
      (j.node_id ≡ id)
      × (j.expected_nodes ≡ sources_of id env.spec.edges)
      × (j.completed ≡ true
          → (n : String) → In n (sources_of id env.spec.edges)
          → In n j.arrived_nodes)
      × ((n : String) → In n j.arrived_nodes → Arrives id n)

  abbrev pub JoinsAreFair : Env → Work → Type 0
  JoinsAreFair env w =
      (id : String) (j : JoinState) → lookup id w.current.join_states ≡ some j → IsFair env id j

  IsFair-insert :
      (env : Env) (id : String) (j : JoinState) (joins : List (String × JoinState))
      → IsFair env id j
      → ((k : String) (i : JoinState) → lookup k joins ≡ some i → IsFair env k i)
      → (k : String) (i : JoinState) → lookup k (insert id j joins) ≡ some i
      → IsFair env k i
  IsFair-insert env id j joins fair all k i found =
      if-cases (λ (o : Option JoinState). o ≡ some i → IsFair env k i) (id == k)
        (λ same e.
          subst (IsFair env k) (some-eq e)
            (subst (λ (x : String). IsFair env x j) ((eq_iff id k).0 same) fair))
        (λ other e. all k i e) (sym (lookup-insert id k j joins) ∙ found)

  set_join-JoinsAreFair :
      (env : Env) (id : String) (j : JoinState) (w : Work)
      → IsFair env id j
      → JoinsAreFair env w
      → JoinsAreFair env (set_join id j w)
  set_join-JoinsAreFair env id j w fair all = IsFair-insert env id j w.current.join_states fair all

  append_next_tokens-joins :
      (env : Env) (source : String) (nexts : List String) (w : Work)
      → (append_next_tokens env source nexts w).current.join_states ≡ w.current.join_states
  unfolding append_next_tokens add_token emit
  append_next_tokens-joins env source [] w = refl
  append_next_tokens-joins env source (n ∷ ns) w =
      append_next_tokens-joins env source ns
        (emit env (selected source n) (add_token env n source w))

  arrive-IsFair :
      (env : Env) (id source : String) (j : JoinState)
      → Arrives id source
      → j.completed ≡ false
      → IsFair env id j
      → IsFair env id (arrive source j) × ((arrive source j).completed ≡ false)
  unfolding arrive
  arrive-IsFair env id source j comes unfinished (named, expects, all, came) =
      if-case (λ (i : JoinState). IsFair env id i × (i.completed ≡ false)) _
        ((named, expects, all, came), unfinished)
        (
          (
            named,
            expects,
            (λ e. absurd (cc)),
            (λ n m. elim m [
              | inl same ↦ subst (Arrives id) (sym same) comes
              | inr old ↦ came n old
            ]),
          ),
          unfinished,
        )

  join_state-IsFair :
      (env : Env) (id : String) (incoming : List String) (found : Option JoinState)
      → incoming ≡ sources_of id env.spec.edges
      → ((j : JoinState) → found ≡ some j → IsFair env id j)
      → IsFair env id (join_state id incoming found)
  unfolding join_state
  join_state-IsFair env id incoming none expects fair =
      (refl, expects, (λ e. absurd (cc)), (λ n m. elim m [ ]))
  join_state-IsFair env id incoming (some j) expects fair =
      if-case (IsFair env id) (j.node_id == "")
        (refl, expects, (λ e. absurd (cc)), (λ n m. elim m [ ])) (fair j refl)

  -- Only the tokens and events differ: the join states are those of before.
  same-JoinsAreFair :
      (env : Env) (w w' : Work)
      → w'.current.join_states ≡ w.current.join_states
      → JoinsAreFair env w
      → JoinsAreFair env w'
  same-JoinsAreFair env w w' same all id j found =
      all id j (ap (λ (joins : List (String × JoinState)). lookup id joins) (sym same) ∙ found)

  complete_node-JoinsAreFair :
      (env : Env) (i : ℕ) (node : NodeSpec) (input output : Option ℕ) (nexts : List String)
      (w : Work)
      → JoinsAreFair env w
      → JoinsAreFair env (complete_node env i node input output nexts w)
  unfolding complete_node edit_node_state emit
  complete_node-JoinsAreFair env i node input output nexts w =
      same-JoinsAreFair env w (complete_node env i node input output nexts w)
        (append_next_tokens-joins env node.id nexts _)

  release_join-JoinsAreFair :
      (env : Env) (node : NodeSpec) (input : Option ℕ) (j : JoinState) (w : Work)
      → IsFair env node.id j
      → join_arrived_all j ≡ true
      → JoinsAreFair env w
      → JoinsAreFair env (release_join env node input j w)
  unfolding release_join edit_node_state emit join_arrived_all
  release_join-JoinsAreFair env node input j w (named, expects, all, came) arrived fair =
      let j' = record j { completed = true } in
      same-JoinsAreFair env (set_join node.id j' w) (release_join env node input j w)
        (append_next_tokens-joins env node.id (successors env node.id) _)
        (set_join-JoinsAreFair env node.id j' w
          (
            named,
            expects,
            (λ e n m.
                all_arrived-In j.arrived_nodes j.expected_nodes n arrived
                  (subst (In n) (sym expects) m)),
            came,
          )
          fair)

  join_with-JoinsAreFair :
      (env : Env) (i : ℕ) (node : NodeSpec) (input : Option ℕ) (source : String) (j : JoinState)
      (w : Work)
      → Arrives node.id source
      → IsFair env node.id j
      → JoinsAreFair env w
      → JoinsAreFair env (join_with env i node input source j w)
  unfolding join_with wait_for_others edit_node_state emit
  join_with-JoinsAreFair env i node input source j w comes fair all =
      if-cases (JoinsAreFair env) j.completed
        (λ done. set_join-JoinsAreFair env node.id j w fair all)
        (λ unfinished.
          let j' = arrive source j in
          let fair' = (arrive-IsFair env node.id source j comes unfinished fair).0 in
          let all' = set_join-JoinsAreFair env node.id j' w fair' all in
          if-cases (JoinsAreFair env) (join_arrived_all j')
            (λ arrived. release_join-JoinsAreFair env node input j' _ fair' arrived all')
            (λ missing. all'))

  execute_join_node-JoinsAreFair :
      (env : Env) (i : ℕ) (t : ExecutionToken) (node : NodeSpec) (input : Option ℕ) (w : Work)
      → Arrives node.id t.source_node_id
      → JoinsAreFair env w
      → JoinsAreFair env (execute_join_node env i t node input w)
  unfolding execute_join_node
  execute_join_node-JoinsAreFair env i t node input w comes all =
      let incoming = targets (lookup node.id (incoming_edges env.spec.edges)) in
      let joined = record w { heap = alloc (("joined", bool true) ∷ []) w.heap } in
      let found = lookup node.id w.current.join_states in
      if-case (JoinsAreFair env) (leb (length incoming) 1)
        (complete_node-JoinsAreFair env i node input (some w.heap.next) (successors env node.id)
          joined all)
        (join_with-JoinsAreFair env i node input t.source_node_id
          (join_state node.id incoming found) w comes
          (join_state-IsFair env node.id incoming found
            (incoming_edges-sources_of env.spec.edges node.id) (λ j there. all node.id j there))
          all)

  after_writes-JoinsAreFair :
      (env : Env) (i : ℕ) (node : NodeSpec) (input output : Option ℕ) (nexts : List String)
      (written : Outcome Error (Unit {0})) (w : Work)
      → JoinsAreFair env w
      → JoinsAreFair env (after_writes env i node input output nexts written w).1
  unfolding after_writes fail_node edit_node_state emit
  after_writes-JoinsAreFair env i node input output nexts (ok _) w all =
      complete_node-JoinsAreFair env i node input output nexts w all
  after_writes-JoinsAreFair env i node input output nexts (err e) w all = all
  after_writes-JoinsAreFair env i node input output nexts panic w all = all

  after_execute-JoinsAreFair :
      (env : Env) (i : ℕ) (node : NodeSpec) (input : Option ℕ) (result : Outcome Error NodeResult)
      (w : Work)
      → JoinsAreFair env w
      → JoinsAreFair env (after_execute env i node input result w).1
  unfolding after_execute fail_node edit_node_state emit
  after_execute-JoinsAreFair env i node input (ok r) w all =
      let (output, h) = output_map r.output w.heap in
      let (written, h') = apply_context_writes w.current.context output node.output_writes h in
      after_writes-JoinsAreFair env i node input output (next_ids env node r) written
        (record w { heap = h' }) all
  after_execute-JoinsAreFair env i node input (err e) w all = all
  after_execute-JoinsAreFair env i node input panic w all = all

  block_on-JoinsAreFair :
      (env : Env) (i : ℕ) (node : NodeSpec) (input : Option ℕ) (config : Outcome Error WaitConfig)
      (w : Work)
      → JoinsAreFair env w
      → JoinsAreFair env (block_on env i node input config w).1
  unfolding block_on fail_node edit_node_state emit
  block_on-JoinsAreFair env i node input (ok config) w all = all
  block_on-JoinsAreFair env i node input (err e) w all = all
  block_on-JoinsAreFair env i node input panic w all = all

  -- What is known of a call that ends without an error: at a join, the token has arrived.
  abbrev pub Comes : NodeSpec → String → Result → Type 0
  Comes node source r = node.type ≡ "control.join" → r.0 ≡ ok tt → Arrives node.id source

  abbrev pub KeepsFair : Env → NodeSpec → String → Result → Type 0
  KeepsFair env node source r = Comes node source r → JoinsAreFair env r.1

  dispatch-KeepsFair :
      (env : Env) (i : ℕ) (t : ExecutionToken) (node : NodeSpec) (executor : NodeExecutor)
      (input : Option ℕ) (w : Work)
      → JoinsAreFair env w
      → KeepsFair env node t.source_node_id (dispatch env i t node executor input w)
  unfolding dispatch block_on_wait_node run_executor
  dispatch-KeepsFair env i t node executor input w all =
      let P = KeepsFair env node t.source_node_id in
      let config = decode_wait_config env node.config w.current.context w.heap in
      if-case P (node.type == "control.wait")
        (λ comes. block_on-JoinsAreFair env i node input config w all)
        (if-cases P (node.type == "control.join")
          (λ joins comes.
            execute_join_node-JoinsAreFair env i t node input w
              (comes ((eq_iff node.type "control.join").0 joins) refl) all)
          (λ other comes. after_execute-JoinsAreFair env i node input _ _ all))

  after_build-KeepsFair :
      (env : Env) (i : ℕ) (t : ExecutionToken) (node : NodeSpec) (executor : NodeExecutor)
      (input : Option ℕ) (built : Outcome Error (Unit {0})) (w : Work)
      → JoinsAreFair env w
      → KeepsFair env node t.source_node_id (after_build env i t node executor input built w)
  unfolding after_build mark_running edit_node_state emit
  after_build-KeepsFair env i t node executor input (ok _) w all =
      dispatch-KeepsFair env i t node executor input (mark_running env node input w) all
  after_build-KeepsFair env i t node executor input (err e) w all = λ comes. all
  after_build-KeepsFair env i t node executor input panic w all = λ comes. all

  start_token-KeepsFair :
      (env : Env) (i : ℕ) (t : ExecutionToken) (node : NodeSpec) (executor : Option NodeExecutor)
      (w : Work)
      → JoinsAreFair env w
      → KeepsFair env node t.source_node_id (start_token env i t node executor w)
  unfolding start_token
  start_token-KeepsFair env i t node none w all = λ comes. all
  start_token-KeepsFair env i t node (some executor) w all =
      let w1 = edit_token i (set_status TokenStatus.running) w in
      let (input, built, h) = build_node_input w1.current.context node.input_mappings w1.heap in
      after_build-KeepsFair env i t node executor input built (record w1 { heap = h }) all

  find_executor-JoinsAreFair :
      (env : Env) (i : ℕ) (t : ExecutionToken) (found : Option NodeSpec) (w : Work)
      → ((node : NodeSpec)
          → found ≡ some node
          → Comes node t.source_node_id (find_executor env i t found w))
      → JoinsAreFair env w
      → JoinsAreFair env (find_executor env i t found w).1
  unfolding find_executor
  find_executor-JoinsAreFair env i t none w comes all = all
  find_executor-JoinsAreFair env i t (some node) w comes all =
      start_token-KeepsFair env i t node (get node.type env.registry) w all (comes node refl)

  pub execute_ready_token-JoinsAreFair :
      (env : Env) (i : ℕ) (t : ExecutionToken) (w : Work)
      → ((node : NodeSpec)
          → lookup t.node_id (index_nodes env.spec.nodes) ≡ some node
          → Comes node t.source_node_id (execute_ready_token env i t w))
      → JoinsAreFair env w
      → JoinsAreFair env (execute_ready_token env i t w).1
  unfolding execute_ready_token
  execute_ready_token-JoinsAreFair env i t w comes all =
      find_executor-JoinsAreFair env i t (lookup t.node_id (index_nodes env.spec.nodes)) w comes all
