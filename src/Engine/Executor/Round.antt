-- ===== src/Engine/Executor/Round.antt =====
-- core/flowengine/executor.go: the cases of one round of the loop of Execute.
use flowanything.Common.{
  ℕ, ◌<◌, String, ◌≡◌, refl, ap, ◌∙◌, ◌⊎◌, inl, inr, true, false, Option, none, some, List, [], ◌∷◌,
  ◌++◌, length, leb, Outcome, ok, err, panic, Bool-cases, leb-false,
}
use flowanything.Common.Assoc.{lookup}
use flowanything.Engine.Values.{Error, node_missing, node_type_missing, too_many_executions}
use flowanything.Engine.Heap.{clone_map}
use flowanything.Engine.Spec.{NodeSpec, NodeResult}
use flowanything.Engine.Registry.{NodeExecutor, get}
use flowanything.Engine.Graph.{contains, index_nodes}
use flowanything.Engine.Event.{
  EventType, FlowEvent, event_of, flow_completed, flow_failed, node_failed, node_scheduled,
}
use flowanything.Engine.Graph.Index.{index_nodes-id}
use flowanything.Engine.Executor.{
  Env, RunState, Verdict, completed, failed, crashed, Next, continue, halt, emit, fail_flow,
  fail_node, about, finish_node, after_writes, use_result, after_execute, run_node, after_build,
  prepare_node, after_executor, after_lookup, visit, complete_flow, round, failure, completion,
  start_event, node_name, next_ids, flow_end,
}
use flowanything.Engine.Executor.Stats.{
  Stats, stats, stats-emit_quiet, stats-emit_end, stats-emit_done, stats-select_next, advance,
  one_more_end,
}

-- The last of the events has this type and this error.
abbrev pub LastOf : EventType → Option Error → List FlowEvent → Type 0
LastOf t e events =
    (es : List FlowEvent) × (last : FlowEvent) × (events ≡ es ++ last ∷ [])
    × (last.type ≡ t)
    × (last.error ≡ e)

abbrev pub LastEvent : EventType → Option Error → RunState → Type 0
LastEvent t e s = LastOf t e s.events

pub emit-LastEvent :
    (env : Env) (e : FlowEvent) (s : RunState) → LastEvent e.type e.error (emit env e s)
unfolding emit
emit-LastEvent env e s = (s.events, _, refl, refl, refl)

-- How a run that was at `st` has ended: one more end of a flow is logged and it is the last event,
-- unless a node panicked.
abbrev pub Ended : Stats → RunState → Verdict → Type 0
Ended st s completed = (stats s ≡ one_more_end st) × LastEvent flow_completed none s
Ended st s (failed e) = (stats s ≡ one_more_end st) × LastEvent flow_failed (some e) s
Ended st s crashed = stats s ≡ st

-- A round of the loop: a node that is done is skipped, a node that is not done is visited within the
-- limit, or the run ends.
abbrev pub Skipped : List String → RunState → RunState → Type 0
Skipped q s s' =
    (id : String) × (rest : List String) × (q ≡ id ∷ rest)
    × (contains s.executed id ≡ true)
    × (s' ≡ record s { queue = rest })

abbrev pub Advanced : Env → List String → RunState → RunState → Type 0
Advanced env q s s' =
    (id : String) × (rest : List String) × (nexts : List String) × (q ≡ id ∷ rest)
    × (contains s.executed id ≡ false)
    × (length s.node_order < env.max_executions)
    × (stats s' ≡ advance id nexts (record (stats s) { queue = rest }))

abbrev pub Rounded : Env → List String → RunState → Next → Type 0
Rounded env q s (continue s') = Skipped q s s' ⊎ Advanced env q s s'
Rounded env q s (halt s' v) = (left : List String) × Ended (record (stats s) { queue = left }) s' v

-- A visit of a node from `st`: the node is done, or the run has ended.
abbrev pub Visited : String → Stats → Next → Type 0
Visited id st (continue s) = (nexts : List String) × (stats s ≡ advance id nexts st)
Visited id st (halt s v) = Ended st s v

module _ (env : Env) where
  fail_flow-Ended :
      (id type : String) (e : Error) (s : RunState) (st : Stats)
      → stats s ≡ st
      → Ended st (emit env (failure id type e) s) (failed e)
  fail_flow-Ended id type e s st same = (
    stats-emit_end env (failure id type e) s refl refl ∙ ap one_more_end same,
    emit-LastEvent env (failure id type e) s,
  )

  fail_node-Visited :
      (id : String) (node : NodeSpec) (event : FlowEvent) (e : Error) (s : RunState) (st : Stats)
      → stats s ≡ st
      → event.type ≡ node_failed
      → Visited id st (fail_node env node event e s)
  unfolding fail_node fail_flow
  fail_node-Visited id node event e s st same t =
      let full = about (record event { error = some e }) node in
      fail_flow-Ended node.id node.type e (emit env full s) st
        (stats-emit_quiet env full s (rw t refl) (rw t refl) ∙ same)

  finish_node-Visited :
      (id : String) (node : NodeSpec) (input output : Option ℕ) (nexts : List String) (s : RunState)
      (st : Stats)
      → stats s ≡ st
      → node.id ≡ id
      → Visited id st (finish_node env id node input output nexts s)
  unfolding finish_node
  finish_node-Visited id node input output nexts s st same named =
      let marked = record s { executed = id ∷ s.executed; node_order = s.node_order ++ id ∷ [] } in
      let event = completion node input output in
      let after =
        stats-select_next env node.id nexts (emit env event marked)
        ∙ stats-emit_done env event marked {id = id} (rw named refl) refl in
      (
        nexts,
        ap (λ (t : Stats). record t { queue = t.queue ++ nexts }) after
            ∙ ap (λ (t : Stats). advance id nexts t) same,
      )

  after_writes-Visited :
      (id : String) (node : NodeSpec) (input output : Option ℕ) (nexts : List String)
      (written : Outcome Error (Unit {0})) (s : RunState) (st : Stats)
      → stats s ≡ st
      → node.id ≡ id
      → Visited id st (after_writes env id node input output nexts written s)
  unfolding after_writes
  after_writes-Visited id node input output nexts (ok _) s st same named =
      finish_node-Visited id node input output nexts s st same named
  after_writes-Visited id node input output nexts (err e) s st same named =
      fail_node-Visited id node (record (event_of node_failed) { input = input; output = output }) e
        s st same refl
  after_writes-Visited id node input output nexts panic s st same named = same

  after_execute-Visited :
      (id : String) (node : NodeSpec) (input : Option ℕ) (result : Outcome Error NodeResult)
      (s : RunState) (st : Stats)
      → stats s ≡ st
      → node.id ≡ id
      → Visited id st (after_execute env id node input result s)
  unfolding after_execute use_result
  after_execute-Visited id node input (ok r) s st same named =
      after_writes-Visited id node input _ (next_ids env id r) _ _ st same named
  after_execute-Visited id node input (err e) s st same named =
      fail_node-Visited id node
        (record (event_of node_failed) { input = input; payload = node_name node }) e s st same refl
  after_execute-Visited id node input panic s st same named = same

  run_node-Visited :
      (id : String) (node : NodeSpec) (executor : NodeExecutor) (input : Option ℕ) (s : RunState)
      (st : Stats)
      → stats s ≡ st
      → node.id ≡ id
      → Visited id st (run_node env id node executor input s)
  unfolding run_node
  run_node-Visited id node executor input s st same named =
      after_execute-Visited id node input _ _ st
        (stats-emit_quiet env (start_event node input) s refl refl ∙ same) named

  prepare_node-Visited :
      (id : String) (node : NodeSpec) (executor : NodeExecutor) (s : RunState) (st : Stats)
      → stats s ≡ st
      → node.id ≡ id
      → Visited id st (prepare_node env id node executor s)
  unfolding prepare_node
  prepare_node-Visited id node executor s st same named =
      after_build-Visited id node executor _ _ _ st same named
    where
      after_build-Visited :
          (id : String) (node : NodeSpec) (executor : NodeExecutor) (input : Option ℕ)
          (built : Outcome Error (Unit {0})) (s : RunState) (st : Stats)
          → stats s ≡ st
          → node.id ≡ id
          → Visited id st (after_build env id node executor input built s)
      after_build-Visited id node executor input (ok _) s st same named =
          run_node-Visited id node executor input s st same named
      after_build-Visited id node executor input (err e) s st same named =
          fail_node-Visited id node (event_of node_failed) e s st same refl
      after_build-Visited id node executor input panic s st same named = same

  after_lookup-Visited :
      (id : String) (o : Option NodeSpec) (s : RunState) (st : Stats)
      → stats s ≡ st
      → ((node : NodeSpec) → o ≡ some node → node.id ≡ id)
      → Visited id st (after_lookup env id o s)
  unfolding after_lookup fail_flow
  after_lookup-Visited id none s st same named = fail_flow-Ended id "" (node_missing id) s st same
  after_lookup-Visited id (some node) s st same named = go (get node.type env.registry)
    where
      go : (o : Option NodeExecutor) → Visited id st (after_executor env id node o s)
      go none = fail_flow-Ended node.id node.type (node_type_missing node.type) s st same
      go (some executor) = prepare_node-Visited id node executor s st same (named node refl)

  -- A visit marks the node, logs its completion once and queues its successors, or ends the run with
  -- one logged end.
  pub visit-Visited : (id : String) (s : RunState) → Visited id (stats s) (visit env id s)
  unfolding visit
  visit-Visited id s =
      after_lookup-Visited id (lookup id (index_nodes env.spec.nodes))
        (emit env (record (event_of node_scheduled) { node_id = id }) s) (stats s)
        (stats-emit_quiet env (record (event_of node_scheduled) { node_id = id }) s refl refl)
        (index_nodes-id env.spec.nodes id)

  from_visit :
      (id : String) (rest : List String) (s : RunState) (n : Next)
      → contains s.executed id ≡ false
      → length s.node_order < env.max_executions
      → Visited id (record (stats s) { queue = rest }) n
      → Rounded env (id ∷ rest) s n
  from_visit id rest s (continue s') fresh room (nexts, same) =
      inr (id, rest, nexts, refl, fresh, room, same)
  from_visit id rest s (halt s' v) fresh room ended = (rest, ended)

  pub round-Rounded : (q : List String) (s : RunState) → Rounded env q s (round env q s)
  unfolding round complete_flow fail_flow
  round-Rounded [] s =
      let s' = record s { heap = clone_map env.context.flow_output s.heap } in
      (
        s.queue,
        (
          stats-emit_end env (flow_end s.heap.next) s' refl refl,
          emit-LastEvent env (flow_end s.heap.next) s',
        ),
      )
  round-Rounded (id ∷ rest) s = elim (Bool-cases (leb env.max_executions (length s.node_order))) [
    | inl full ↦
        rw full
          (s.queue, fail_flow-Ended "" "" (too_many_executions env.max_executions) s (stats s) refl)
    | inr room ↦ elim (Bool-cases (contains s.executed id)) [
      | inl done ↦ rw (room, done) (inl (id, rest, refl, done, refl))
      | inr fresh ↦
          rw (room, fresh)
            (from_visit id rest s (visit env id (record s { queue = rest })) fresh (leb-false room)
              (visit-Visited id (record s { queue = rest })))
    ]
  ]
