-- ===== src/Engine/Executor/Stats.antt =====
-- core/flowengine/executor.go: the parts of a run's state that its lemmas look at.
use flowanything.Common.{
  ℕ, suc, ◌+◌, String, ◌≡◌, refl, sym, ap, ◌∙◌, List, [], ◌∷◌, ◌++◌, arith, append_assoc,
  append-nil,
}
use flowanything.Engine.Event.{
  EventType, FlowEvent, normalize_trace, flow_completed, flow_failed, node_completed,
}
use flowanything.Engine.Executor.{Env, RunState, emit, select_next, selected}

-- The nodes of the node.completed events, in order.
abbrev pub completed_by : EventType → String → List String
completed_by node_completed id = id ∷ []
completed_by _ id = []

unfoldable pub completed_ids : List FlowEvent → List String
completed_ids [] = []
completed_ids (e ∷ es) = completed_by e.type e.node_id ++ completed_ids es

-- How many events end a flow.
abbrev pub end_of : EventType → ℕ
end_of flow_completed = 1
end_of flow_failed = 1
end_of _ = 0

unfoldable pub ends : List FlowEvent → ℕ
ends [] = 0
ends (e ∷ es) = end_of e.type + ends es

completed_ids-append :
    (es fs : List FlowEvent) → completed_ids (es ++ fs) ≡ completed_ids es ++ completed_ids fs
unfolding completed_ids
completed_ids-append [] fs = refl
completed_ids-append (e ∷ es) fs =
    rw (completed_ids-append es fs)
      (sym (append_assoc (completed_by e.type e.node_id) (completed_ids es) (completed_ids fs)))

ends-append : (es fs : List FlowEvent) → ends (es ++ fs) ≡ ends es + ends fs
unfolding ends
ends-append [] fs = omega arith
ends-append (e ∷ es) fs = omega (arith, ends-append es fs)

completed_ids-one : (e : FlowEvent) → completed_ids (e ∷ []) ≡ completed_by e.type e.node_id
unfolding completed_ids
completed_ids-one e = append-nil (completed_by e.type e.node_id)

ends-one : (e : FlowEvent) → ends (e ∷ []) ≡ end_of e.type
unfolding ends
ends-one e = omega arith

pub record Stats : Type 0 where
  pub queue : List String
  pub executed : List String
  pub order : List String
  pub done : List String
  pub ended : ℕ

abbrev pub stats : RunState → Stats
stats s = record {
  queue = s.queue;
  executed = s.executed;
  order = s.node_order;
  done = completed_ids s.events;
  ended = ends s.events;
}

-- What an event of a type adds to the two counts.
abbrev pub log : EventType → String → Stats → Stats
log t id st = record st { done = st.done ++ completed_by t id; ended = st.ended + end_of t }

pub stats-emit :
    (env : Env) (e : FlowEvent) (s : RunState)
    → stats (emit env e s) ≡ log e.type e.node_id (stats s)
unfolding emit
stats-emit env e s =
    let named = record e { run_id = env.run_id; flow_id = env.spec.id } in
    let full = record named { trace = normalize_trace named env.trace } in
    let done =
      completed_ids-append s.events (full ∷ [])
      ∙ ap (λ (l : List String). completed_ids s.events ++ l) (completed_ids-one full) in
    let ended =
      ends-append s.events (full ∷ []) ∙ ap (λ (n : ℕ). ends s.events + n) (ends-one full) in
    λ i. record {
      queue = s.queue;
      executed = s.executed;
      order = s.node_order;
      done = done i;
      ended = ended i;
    }

-- One more event that ends the flow.
abbrev pub one_more_end : Stats → Stats
one_more_end st = record st { ended = suc st.ended }

pub stats-emit_end :
    (env : Env) (e : FlowEvent) (s : RunState)
    → completed_by e.type e.node_id ≡ []
    → end_of e.type ≡ 1
    → stats (emit env e s) ≡ one_more_end (stats s)
stats-emit_end env e s none_done one_ended =
    let done : completed_ids s.events ++ completed_by e.type e.node_id ≡ completed_ids s.events =
      rw none_done (append-nil (completed_ids s.events)) in
    let ended : ends s.events + end_of e.type ≡ suc (ends s.events) = omega arith in
    stats-emit env e s ∙ λ i. record (stats s) { done = done i; ended = ended i }

pub stats-emit_done :
    (env : Env) (e : FlowEvent) (s : RunState) {id : String}
    → completed_by e.type e.node_id ≡ id ∷ []
    → end_of e.type ≡ 0
    → stats (emit env e s) ≡ record (stats s) { done = completed_ids s.events ++ id ∷ [] }
stats-emit_done env e s {id} one_done none_ended =
    let done : completed_ids s.events ++ completed_by e.type e.node_id
        ≡ completed_ids s.events ++ id ∷ [] =
      rw one_done refl in
    let ended : ends s.events + end_of e.type ≡ ends s.events = omega arith in
    stats-emit env e s ∙ λ i. record (stats s) { done = done i; ended = ended i }

-- An event of the other types adds nothing.
pub stats-emit_quiet :
    (env : Env) (e : FlowEvent) (s : RunState)
    → completed_by e.type e.node_id ≡ []
    → end_of e.type ≡ 0
    → stats (emit env e s) ≡ stats s
stats-emit_quiet env e s none_done none_ended =
    let done : completed_ids s.events ++ completed_by e.type e.node_id ≡ completed_ids s.events =
      rw none_done (append-nil (completed_ids s.events)) in
    let ended : ends s.events + end_of e.type ≡ ends s.events = omega arith in
    stats-emit env e s ∙ λ i. record (stats s) { done = done i; ended = ended i }

-- A list of next nodes only adds quiet events.
pub stats-select_next :
    (env : Env) (id : String) (nexts : List String) (s : RunState)
    → stats (select_next env id nexts s) ≡ stats s
unfolding select_next
stats-select_next env id [] s = refl
stats-select_next env id (n ∷ ns) s =
    stats-select_next env id ns _ ∙ stats-emit_quiet env (selected id n) s refl refl

-- A node is done: it is marked, and its successors join the queue.
abbrev pub advance : String → List String → Stats → Stats
advance id nexts st = record {
  queue = st.queue ++ nexts;
  executed = id ∷ st.executed;
  order = st.order ++ id ∷ [];
  done = st.done ++ id ∷ [];
  ended = st.ended;
}
