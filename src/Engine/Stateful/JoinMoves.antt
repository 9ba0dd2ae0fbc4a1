-- ===== src/Engine/Stateful/JoinMoves.antt =====
-- core/flowengine/stateful_executor.go: the tokens under completeNode and executeJoinNode.
use flowanything.Common.{
  ℕ, ◌<◌, String, ◌≡◌, refl, ap, ◌∙◌, subst, Bool-cases, ◌||◌, inl, inr, true, false, Option, none,
  some, List, [], ◌∷◌, if-case, if-cases, leb, leb-false, length, ◌==◌,
}
use flowanything.Common.Assoc.{lookup, lookup-insert_self}
use flowanything.Engine.Values.{bool}
use flowanything.Engine.Heap.{alloc}
use flowanything.Engine.Spec.{NodeSpec}
use flowanything.Engine.Graph.{targets, contains}
use flowanything.Engine.Graph.Index.{outgoing_edges-targets_of}
use flowanything.Engine.Instance.{TokenStatus, ExecutionToken, JoinState}
use flowanything.Engine.Stateful.Base.{
  Env, Work, emit, edit_token, update_at, edit_node_state, set_status, join_arrived_all,
  incoming_edges,
}
use flowanything.Engine.Stateful.Token.{
  complete_node, join_state, join_with, arrive, wait_for_others, release_join, execute_join_node,
  successors, set_join,
}
use flowanything.Engine.Stateful.Next.{sources_of, incoming_edges-sources_of, IsHeld, IsJoinNext}
use flowanything.Engine.Stateful.Frame.{
  tokens, Moved, Changed-only, Changed-append, Keeps-set_status,
}

pub complete_node-Moved :
    (env : Env) (i : ℕ) (node : NodeSpec) (input output : Option ℕ) (nexts : List String) (w : Work)
    → Moved node.id i TokenStatus.consumed nexts
        (tokens w)
        (tokens (complete_node env i node input output nexts w))
unfolding complete_node edit_node_state emit
complete_node-Moved env i node input output nexts w = record {
  change = set_status TokenStatus.consumed;
  becomes = λ t. refl;
  changed = Changed-append env node.id nexts _ refl (Keeps-set_status TokenStatus.consumed);
}

wait_for_others-tokens :
    (env : Env) (node : NodeSpec) (input : Option ℕ) (j : JoinState) (w : Work)
    → tokens (wait_for_others env node input j w) ≡ tokens w
unfolding wait_for_others edit_node_state emit
wait_for_others-tokens env node input j w = refl

-- The executed token of a join is consumed.
abbrev Consumed : Env → NodeSpec → ℕ → Work → Work → Type 0
Consumed env node i w w' =
    (nexts : List String) × IsJoinNext env node w w' nexts
    × Moved node.id i TokenStatus.consumed nexts (tokens w) (tokens w')

consumed-only :
    {i : ℕ} (env : Env) (node : NodeSpec) (w w' : Work)
    → 1 < length (sources_of node.id env.spec.edges)
    → IsHeld node.id w w'
    → tokens w' ≡ update_at i (set_status TokenStatus.consumed) (tokens w)
    → Consumed env node i w w'
consumed-only env node w w' several held same = (
  [],
  inr (refl, several, held),
  record {
    change = set_status TokenStatus.consumed;
    becomes = λ t. refl;
    changed = Changed-only node.id same (Keeps-set_status TokenStatus.consumed);
  },
)

release_join-Consumed :
    {i : ℕ} (w : Work) (env : Env) (node : NodeSpec) (input : Option ℕ) (j : JoinState) (w1 : Work)
    → tokens w1 ≡ update_at i (set_status TokenStatus.consumed) (tokens w)
    → Consumed env node i w (release_join env node input j w1)
unfolding release_join edit_node_state emit
release_join-Consumed w env node input j w1 same = (
  successors env node.id,
  inl (outgoing_edges-targets_of env.spec.edges node.id),
  record {
    change = set_status TokenStatus.consumed;
    becomes = λ t. refl;
    changed =
        Changed-append env node.id (successors env node.id) _ same
          (Keeps-set_status TokenStatus.consumed);
  },
)

wait_for_others-joins :
    (env : Env) (node : NodeSpec) (input : Option ℕ) (j : JoinState) (w : Work)
    → (wait_for_others env node input j w).current.join_states ≡ w.current.join_states
unfolding wait_for_others edit_node_state emit
wait_for_others-joins env node input j w = refl

arrive-unfinished :
    (source : String) (j : JoinState) → j.completed ≡ false → (arrive source j).completed ≡ false
unfolding arrive
arrive-unfinished source j h =
    if-case (λ (k : JoinState). k.completed ≡ false)
      (source == "" || contains j.arrived_nodes source) h h

-- A completed join state was there before.
join_state-completed :
    (id : String) (incoming : List String) (found : Option JoinState)
    → (join_state id incoming found).completed ≡ true
    → (j : JoinState) × (found ≡ some j) × (j.completed ≡ true)
unfolding join_state
join_state-completed id incoming none h = absurd (cc)
join_state-completed id incoming (some j) h = elim (Bool-cases (j.node_id == "")) [
  | inl e ↦ absurd (let fresh = rw e at h in cc)
  | inr e ↦ (j, refl, rw e at h)
]

join_with-Consumed :
    (env : Env) (i : ℕ) (node : NodeSpec) (input : Option ℕ) (source : String) (j : JoinState)
    (w : Work)
    → 1 < length (sources_of node.id env.spec.edges)
    → (j.completed ≡ true
        → (k : JoinState) × (lookup node.id w.current.join_states ≡ some k) × (k.completed ≡ true))
    → Consumed env node i w (join_with env i node input source j w)
unfolding join_with
join_with-Consumed env i node input source j w several before =
    let P = λ (w' : Work). Consumed env node i w w' in
    let w1 = edit_token i (set_status TokenStatus.consumed) w in
    let j' = arrive source j in
    let w2 = set_join node.id j' w1 in
    if-cases P j.completed
      (λ done. consumed-only env node w (set_join node.id j w1) several (inl (before done)) refl)
      (λ open_.
        if-case P (join_arrived_all j') (release_join-Consumed w env node input j' w2 refl) (
          consumed-only env node w (wait_for_others env node input j' w2) several
            (inr (
              j',
              ap (λ (joins : List (String × JoinState)). lookup node.id joins)
                    (wait_for_others-joins env node input j' w2)
                  ∙ lookup-insert_self node.id j' w.current.join_states,
              arrive-unfinished source j open_,
            ))
            (wait_for_others-tokens env node input j' w2)))

pub execute_join_node-Consumed :
    (env : Env) (i : ℕ) (t : ExecutionToken) (node : NodeSpec) (input : Option ℕ) (w : Work)
    → Consumed env node i w (execute_join_node env i t node input w)
unfolding execute_join_node
execute_join_node-Consumed env i t node input w =
    let incoming = targets (lookup node.id (incoming_edges env.spec.edges)) in
    let nexts = successors env node.id in
    let joined = record w { heap = alloc (("joined", bool true) ∷ []) w.heap } in
    if-cases (Consumed env node i w) (leb (length incoming) 1)
      (λ single. (
        nexts,
        inl (outgoing_edges-targets_of env.spec.edges node.id),
        complete_node-Moved env i node input (some w.heap.next) nexts joined,
      ))
      (λ several.
        join_with-Consumed env i node input t.source_node_id
          (join_state node.id incoming (lookup node.id w.current.join_states)) w
          (subst (λ (ids : List String). 1 < length ids)
            (incoming_edges-sources_of env.spec.edges node.id) (leb-false several))
          (join_state-completed node.id incoming (lookup node.id w.current.join_states)))
