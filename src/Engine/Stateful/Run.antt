-- ===== src/Engine/Stateful/Run.antt =====
-- core/flowengine/stateful_executor.go: Start and RunUntilBlocked over an InstanceStore.
use flowanything.Common.{
  ℕ, suc, zero, String, Option, none, some, List, [], ◌∷◌, if◌then◌else◌, Outcome, ok, err, panic,
}
use flowanything.Engine.Values.{Error, no_source_node}
use flowanything.Engine.Heap.{Heap, clone_map}
use flowanything.Engine.Context.{DataContext, new_data_context}
use flowanything.Engine.Graph.{source_nodes}
use flowanything.Engine.Event.{event_of, flow_started, flow_waiting, flow_completed, flow_failed}
use flowanything.Engine.Executor.Start.{validate}
use flowanything.Engine.Instance.{InstanceStatus, ExecutionToken, FlowInstance}
use flowanything.Engine.Stateful.Store.{InstanceStore}
use flowanything.Engine.Stateful.Base.{
  Env, Work, root_flow_trace, emit, edit, token_at, add_token, first_ready_token_index,
  has_waiting_token, is_terminal,
}
use flowanything.Engine.Stateful.Token.{execute_ready_token}

-- How a call ends: the instance that it returns (`none` is the zero value), its error, and what it has
-- changed.
pub record Finish (S : Type 0) : Type 0 where
  pub returned : Option FlowInstance
  pub outcome : Outcome Error (Unit {0})
  pub work : Work
  pub store : S

pub data Step (S : Type 0) : Type 0 where
  continue : Work → S → Step S
  halt : Finish S → Step S

-- An end that returns the instance as it is.
abbrev pub ends : {S : Type 0} → Outcome Error (Unit {0}) → Work → S → Finish S
ends o w s = record { returned = some w.current; outcome = o; work = w; store = s }

-- An end that returns the zero value.
abbrev pub aborts : {S : Type 0} → Outcome Error (Unit {0}) → Work → S → Finish S
aborts o w s = record { returned = none; outcome = o; work = w; store = s }

abbrev pub set_instance_status : InstanceStatus → Work → Work
set_instance_status status = edit λ (x : FlowInstance). record x { status = status }

abbrev pub next_version : Work → Work
next_version = edit λ (x : FlowInstance). record x { version = suc x.version }

abbrev pub mark_failed : Error → Work → Work
mark_failed e =
    edit λ (x : FlowInstance). record x { status = InstanceStatus.failed; last_error = some e }

-- The trace of the run, in place of the caller's.
abbrev pub within : Env → String → Env
within env id = record env { trace = root_flow_trace (some env.trace) id }

-- finalizeBlockedInstance
unfoldable pub finalize_blocked_instance : Env → Work → Work
unfolding emit has_waiting_token clone_map
finalize_blocked_instance env w =
    if has_waiting_token w.current.tokens
    then emit env (event_of flow_waiting) (set_instance_status InstanceStatus.waiting w)
    else emit env (record (event_of flow_completed) { output = some w.heap.next })
        (set_instance_status InstanceStatus.completed
          (record w { heap = clone_map w.current.context.flow_output w.heap }))

-- The tokens of the source nodes.
unfoldable pub add_source_tokens : Env → List String → Work → Work
unfolding add_token
add_source_tokens env [] w = w
add_source_tokens env (id ∷ ids) w = add_source_tokens env ids (add_token env id "" w)

-- The instance of Start, before its tokens.
abbrev pub new_instance : Env → String → DataContext → FlowInstance
new_instance env id c = record {
  instance_id = id;
  flow_id = env.spec.id;
  flow_version = env.spec.version;
  status = InstanceStatus.created;
  context = c;
  tokens = [];
  node_states = [];
  join_states = [];
  last_error = none;
  version = 0;
}

module _ {S : Type 0} (store : InstanceStore S) where
  -- No token is ready: the instance is final for now, and is saved.
  unfoldable pub after_final_save : S → Work → Outcome Error S × Heap → Finish S
  after_final_save s w (ok s', h) = ends (ok tt) (record w { heap = h }) s'
  after_final_save s w (err e, h) = ends (err e) (record w { heap = h }) s
  after_final_save s w (panic, h) = aborts panic (record w { heap = h }) s

  unfoldable pub settle : Env → Work → S → Finish S
  unfolding finalize_blocked_instance after_final_save
  settle env w s =
      let final = finalize_blocked_instance env w in
      after_final_save s final (store.save final.current s final.heap)

  -- The instance fails; an error of Save is dropped.
  unfoldable pub after_failed_save : Env → Error → S → Work → Outcome Error S × Heap → Finish S
  unfolding emit
  after_failed_save env e s w (panic, h) = aborts panic (record w { heap = h }) s
  after_failed_save env e s w (ok s', h) =
      ends (err e)
        (emit env (record (event_of flow_failed) { error = some e }) (record w { heap = h })) s'
  after_failed_save env e s w (err _, h) =
      ends (err e)
        (emit env (record (event_of flow_failed) { error = some e }) (record w { heap = h })) s

  unfoldable pub fail_instance : Env → Error → Work → S → Finish S
  unfolding after_failed_save
  fail_instance env e w s =
      let failed = mark_failed e w in
      after_failed_save env e s failed (store.save failed.current s failed.heap)

  unfoldable pub after_save : S → Work → Outcome Error S × Heap → Step S
  after_save s w (ok s', h) = continue (record w { heap = h }) s'
  after_save s w (err e, h) = halt (aborts (err e) (record w { heap = h }) s)
  after_save s w (panic, h) = halt (aborts panic (record w { heap = h }) s)

  -- What follows executeReadyToken.
  unfoldable pub after_token : Env → S → Outcome Error (Unit {0}) × Work → Step S
  unfolding fail_instance after_save
  after_token env s (ok _, w) =
      let w' = next_version w in after_save s w' (store.save w'.current s w'.heap)
  after_token env s (err e, w) = halt (fail_instance env e w s)
  after_token env s (panic, w) = halt (aborts panic w s)

  -- One round of the loop; the token at the index is what `&instance.Tokens[index]` points to.
  unfoldable pub step_token : Env → ℕ → Work → S → Option ExecutionToken → Step S
  unfolding after_token execute_ready_token
  step_token env i w s none = halt (aborts panic w s)
  step_token env i w s (some t) = after_token env s (execute_ready_token env i t w)

  unfoldable pub step_at : Env → Work → S → Option ℕ → Step S
  unfolding settle step_token token_at
  step_at env w s none = halt (settle env w s)
  step_at env w s (some i) = step_token env i w s (token_at i w.current.tokens)

  unfoldable pub step : Env → Work → S → Step S
  unfolding step_at first_ready_token_index
  step env w s = step_at env w s (first_ready_token_index w.current.tokens)

  -- The loop of RunUntilBlocked, on fuel; `none` means that the fuel ran out.
  unfoldable pub advance : ℕ → Env → Work → S → Option (Finish S)
  unfolding step
  advance zero env w s = none
  advance (suc fuel) env w s = elim (step env w s) [
    | continue w' s' ↦ advance fuel env w' s'
    | halt f ↦ some f
  ]

  -- RunUntilBlocked after Get.
  unfoldable pub run_instance :
      ℕ → Env → Work → S → Outcome Error FlowInstance × Heap → Option (Finish S)
  unfolding advance is_terminal
  run_instance fuel env w s (err e, h) = some (aborts (err e) (record w { heap = h }) s)
  run_instance fuel env w s (panic, h) = some (aborts panic (record w { heap = h }) s)
  run_instance fuel env w s (ok x, h) =
      let w' = record w { heap = h; current = x } in
      if is_terminal x.status
      then some (ends (ok tt) w' s)
      else advance fuel (within env x.instance_id) (set_instance_status InstanceStatus.running w') s

  -- RunUntilBlocked
  unfoldable pub run_until_blocked : ℕ → Env → String → Work → S → Option (Finish S)
  unfolding run_instance validate
  run_until_blocked fuel env id w s = elim (validate env.registry env.spec w.heap) [
    | some e ↦ some (aborts (err e) w s)
    | none ↦ run_instance fuel env w s (store.get id s w.heap)
  ]

  -- Start after Create.
  unfoldable pub after_create :
      ℕ → Env → Option ℕ → Work → S → Outcome Error S × Heap → Option (Finish S)
  unfolding run_until_blocked emit clone_map
  after_create fuel env input w s (err e, h) = some (aborts (err e) (record w { heap = h }) s)
  after_create fuel env input w s (panic, h) = some (aborts panic (record w { heap = h }) s)
  after_create fuel env input w s (ok s', h) =
      let env' = within env w.current.instance_id in
      let started = record (event_of flow_started) { input = some h.next } in
      run_until_blocked fuel env' w.current.instance_id
        (emit env' started (record w { heap = clone_map input h })) s'

  unfoldable pub start_at : ℕ → Env → String → Option ℕ → List String → Work → S → Option (Finish S)
  unfolding after_create add_source_tokens new_data_context
  start_at fuel env id input [] w s = some (aborts (err no_source_node) w s)
  start_at fuel env id input (n ∷ ns) w s =
      let (c, h) = new_data_context input w.heap in
      let w1 = record w { heap = h; current = new_instance env id c } in
      let w2 = add_source_tokens env (n ∷ ns) w1 in
      after_create fuel env input w2 s (store.create w2.current s w2.heap)

  -- Start, for the id that instanceIDFn gives.
  unfoldable pub start : ℕ → Env → String → Option ℕ → Work → S → Option (Finish S)
  unfolding start_at validate source_nodes
  start fuel env id input w s = elim (validate env.registry env.spec w.heap) [
    | some e ↦ some (aborts (err e) w s)
    | none ↦ start_at fuel env id input (source_nodes env.spec.nodes env.spec.edges) w s
  ]
