-- ===== src/Engine/Stateful/Resume.antt =====
-- core/flowengine/stateful_executor.go: Resume.
use flowanything.Common.{
  ℕ, suc, String, Bool, true, false, Option, none, some, List, [], ◌∷◌, if◌then◌else◌, Outcome, ok,
  err, panic,
}
use flowanything.Common.Assoc.{lookup}
use flowanything.Engine.Values.{
  dict, str, bool, Entries, Error, instance_over, waiting_node_missing, event_unmatched,
}
use flowanything.Engine.Heap.{Heap, alloc}
use flowanything.Engine.Spec.{NodeSpec}
use flowanything.Engine.Mapping.{apply_context_writes}
use flowanything.Engine.Graph.{index_nodes}
use flowanything.Engine.Event.{event_of, flow_resumed, node_completed}
use flowanything.Engine.Executor.{about}
use flowanything.Engine.Instance.{
  InstanceStatus, status_text, TokenStatus, NodeStatus, ExecutionToken, FlowInstance, ExternalEvent,
}
use flowanything.Engine.Stateful.Store.{InstanceStore}
use flowanything.Engine.Stateful.Base.{
  Env, Work, emit, edit_token, set_status, edit_node_state, append_next_tokens, is_terminal,
  is_waiting, wait_conditions_match,
}
use flowanything.Engine.Stateful.Token.{successors}
use flowanything.Engine.Stateful.Run.{
  Finish, ends, aborts, set_instance_status, next_version, within, run_until_blocked,
}

-- The map that a resumed wait node gives as its output, and the data of the flow.resumed event.
abbrev pub event_entries : ExternalEvent → Entries
event_entries e =
    ("event_type", str e.type) ∷ ("event_key", str e.key) ∷ ("payload", dict e.payload) ∷ []

-- The test of the loop of Resume.
unfoldable pub is_matched : ExternalEvent → ExecutionToken → Bool
unfolding wait_conditions_match
is_matched e t = if is_waiting t.status then wait_conditions_match t.waiting_for e else false

-- What is left to do for a token after ApplyContextWrites.
unfoldable pub release_token : Env → ℕ → NodeSpec → Option ℕ → Work → Work
unfolding edit_node_state emit append_next_tokens
release_token env i node output w =
    let w1 = edit_token i (set_status TokenStatus.consumed) w in
    let w2 =
      edit_node_state node.id
        (λ s. record s { status = NodeStatus.completed; output = output; waiting_for = [] }) w1 in
    let event = record (about (event_of node_completed) node) {
      output = output;
      payload = ("resumed", bool true) ∷ [];
    } in
    append_next_tokens env node.id (successors env node.id) (emit env event w2)

unfoldable pub after_resume_writes :
    Env
    → ℕ
    → NodeSpec
    → Option ℕ
    → Outcome Error (Unit {0})
    → Work
    → Outcome Error (Unit {0}) × Work
unfolding release_token
after_resume_writes env i node output (ok _) w = (ok tt, release_token env i node output w)
after_resume_writes env i node output (err e) w = (err e, w)
after_resume_writes env i node output panic w = (panic, w)

-- The loop's body for a token that waits for the event.
unfoldable pub resume_token :
    Env
    → ExternalEvent
    → ℕ
    → ExecutionToken
    → Option NodeSpec
    → Work
    → Outcome Error (Unit {0}) × Work
unfolding after_resume_writes apply_context_writes
resume_token env e i t none w = (err (waiting_node_missing t.node_id), w)
resume_token env e i t (some node) w =
    let h = alloc (event_entries e) w.heap in
    let output = some w.heap.next in
    let (written, h') = apply_context_writes w.current.context output node.output_writes h in
    after_resume_writes env i node output written (record w { heap = h' })

-- What the loop has found: whether a token matched, and the first error.
abbrev pub Matched : Type 0
Matched = Outcome Error Bool × Work

-- One round of the loop: whether the token waits for the event, what is known so far, what comes of
-- resuming the token, and the rest of the loop.
unfoldable pub resume_one :
    Bool → Bool → Work → Outcome Error (Unit {0}) × Work → (Bool → Work → Matched) → Matched
resume_one false matched w r rest = rest matched w
resume_one true matched w (ok _, w') rest = rest true w'
resume_one true matched w (err x, w') rest = (err x, w')
resume_one true matched w (panic, w') rest = (panic, w')

-- The loop of Resume over the tokens that are there at its start; it stops at its first error.
unfoldable pub resume_tokens : Env → ExternalEvent → ℕ → List ExecutionToken → Bool → Work → Matched
unfolding resume_one resume_token is_matched index_nodes
resume_tokens env e i [] matched w = (ok matched, w)
resume_tokens env e i (t ∷ ts) matched w =
    resume_one (is_matched e t) matched w
      (resume_token env e i t (lookup t.node_id (index_nodes env.spec.nodes)) w)
      (λ m w'. resume_tokens env e (suc i) ts m w')

module _ {S : Type 0} (store : InstanceStore S) where
  after_resume_save : ℕ → Env → String → Work → S → Outcome Error S × Heap → Option (Finish S)
  unfolding run_until_blocked
  after_resume_save fuel env id w s (ok s', h) =
      run_until_blocked store fuel env id (record w { heap = h }) s'
  after_resume_save fuel env id w s (err e, h) = some (aborts (err e) (record w { heap = h }) s)
  after_resume_save fuel env id w s (panic, h) = some (aborts panic (record w { heap = h }) s)

  -- After the loop over the tokens.
  unfoldable pub after_match : ℕ → Env → String → ExternalEvent → S → Matched → Option (Finish S)
  unfolding after_resume_save
  after_match fuel env id e s (ok false, w) = some (ends (err (event_unmatched e.type e.key)) w s)
  after_match fuel env id e s (ok true, w) =
      let w' = next_version (set_instance_status InstanceStatus.running w) in
      after_resume_save fuel env id w' s (store.save w'.current s w'.heap)
  after_match fuel env id e s (err x, w) = some (ends (err x) w s)
  after_match fuel env id e s (panic, w) = some (aborts panic w s)

  -- Resume after Get.
  unfoldable pub resume_instance :
      ℕ
      → Env
      → String
      → ExternalEvent
      → Work
      → S
      → Outcome Error FlowInstance × Heap
      → Option (Finish S)
  unfolding after_match resume_tokens emit is_terminal
  resume_instance fuel env id e w s (err x, h) = some (aborts (err x) (record w { heap = h }) s)
  resume_instance fuel env id e w s (panic, h) = some (aborts panic (record w { heap = h }) s)
  resume_instance fuel env id e w s (ok x, h) =
      let w' = record w { heap = h; current = x } in
      if is_terminal x.status
      then some (ends (err (instance_over id (status_text x.status))) w' s)
      else (let env' = within env x.instance_id in
          let resumed = record (event_of flow_resumed) { payload = event_entries e } in
          after_match fuel env' id e s
            (resume_tokens env' e 0 x.tokens false (emit env' resumed w')))

  -- Resume
  unfoldable pub resume : ℕ → Env → String → ExternalEvent → Work → S → Option (Finish S)
  unfolding resume_instance
  resume fuel env id e w s = resume_instance fuel env id e w s (store.get id s w.heap)
