-- ===== src/Engine/Stateful/Next.antt =====
-- core/flowengine/stateful_executor.go: what may come next after a token, told by the edges of the flow
-- and the results of node executors.
use flowanything.Common.{
  ℕ, ◌<◌, String, ◌≡◌, ◌≢◌, refl, sym, ◌∙◌, subst, ◌⊎◌, inl, inr, Bool-cases, Option, none, some,
  List, [], ◌∷◌, ◌++◌, true, false, Outcome, ok, err, panic, length, ◌==◌, eq_iff, if◌then◌else◌,
  append_assoc, append-nil,
}
use flowanything.Common.Assoc.{lookup, lookup-insert}
use flowanything.Engine.Values.{Error}
use flowanything.Engine.Heap.{Heap}
use flowanything.Engine.Context.{DataContext}
use flowanything.Engine.Spec.{NodeSpec, EdgeSpec, NodeResult}
use flowanything.Engine.Registry.{NodeExecutor, get}
use flowanything.Engine.Graph.{index_nodes, targets, append_at}
use flowanything.Engine.Graph.Index.{targets_of}
use flowanything.Engine.Instance.{TokenStatus, ExecutionToken, JoinState}
use flowanything.Engine.Stateful.Base.{Env, Work, incoming_from, incoming_edges}
use flowanything.Engine.Stateful.Token.{Result}
use flowanything.Engine.Stateful.Frame.{tokens, Changed, Moved}

-- incomingEdges, without the map: the sources of the edges to a node, in their order.
abbrev pub sources_of : String → List EdgeSpec → List String
sources_of id [] = []
sources_of id (e ∷ es) =
    let rest = sources_of id es in if e.target == id then e.source ∷ rest else rest

incoming_from-sources_of :
    (es : List EdgeSpec) (out : List (String × List String)) (id : String)
    → targets (lookup id (incoming_from out es)) ≡ targets (lookup id out) ++ sources_of id es
unfolding incoming_from append_at
incoming_from-sources_of [] out id = sym (append-nil _)
incoming_from-sources_of (e ∷ es) out id =
    incoming_from-sources_of es (append_at e.target e.source out) id
    ∙ elim (Bool-cases (e.target == id)) [
      | inl same ↦
          rw (lookup-insert, same, (eq_iff e.target id).0 same)
            (append_assoc _ (e.source ∷ []) (sources_of id es))
      | inr other ↦ rw (lookup-insert, other) refl
    ]

pub incoming_edges-sources_of :
    (es : List EdgeSpec) (id : String) → targets (lookup id (incoming_edges es)) ≡ sources_of id es
unfolding incoming_edges lookup
incoming_edges-sources_of es id = incoming_from-sources_of es [] id

-- The executor of the node's type has run for the node, with the instance's id and context, and has
-- named the nodes that come next, or else they are the targets of the edges from the node.
pub record Ran (env : Env) (node : NodeSpec) (run_id : String) (context : DataContext)
    (nexts : List String) : Type 0 where
  pub executor : NodeExecutor
  pub input : Option ℕ
  pub before : Heap
  pub after : Heap
  pub result : NodeResult
  pub registered : get node.type env.registry ≡ some executor
  pub gave :
      executor.execute
        (record { run_id = run_id; flow = env.spec; node = node; input = input; context = context })
        before
      ≡ (ok result, after)
  pub next :
      (result.next_node_ids ≡ some nexts)
      ⊎ ((result.next_node_ids ≡ none) × (nexts ≡ targets_of node.id env.spec.edges))

-- The state of a join was completed before, or is not completed after.
abbrev pub IsHeld : String → Work → Work → Type 0
IsHeld id w w' =
    ((j : JoinState) × (lookup id w.current.join_states ≡ some j) × (j.completed ≡ true))
    ⊎ ((j : JoinState) × (lookup id w'.current.join_states ≡ some j) × (j.completed ≡ false))

-- After a join the targets of the edges from it come next, or nothing, where several edges lead to it and
-- it is held.
abbrev pub IsJoinNext : Env → NodeSpec → Work → Work → List String → Type 0
IsJoinNext env node w w' nexts =
    (nexts ≡ targets_of node.id env.spec.edges)
    ⊎ ((nexts ≡ []) × (1 < length (sources_of node.id env.spec.edges)) × IsHeld node.id w w')

-- What comes next after a consumed token: after any node but a join what its executor asks for.
abbrev pub IsNext : Env → NodeSpec → Work → Work → List String → Type 0
IsNext env node w w' nexts =
    ((node.type ≡ "control.join") × IsJoinNext env node w w' nexts)
    ⊎ ((node.type ≢ "control.join") × Ran env node w.current.instance_id w.current.context nexts)

-- The token at `i` of a node that does not wait is consumed, and tokens for what comes next follow.
abbrev pub IsPassedOn : Env → NodeSpec → ℕ → Work → Work → Type 0
IsPassedOn env node i w w' =
    (node.type ≢ "control.wait")
    × ((nexts : List String) × IsNext env node w w' nexts
        × Moved node.id i TokenStatus.consumed nexts (tokens w) (tokens w'))

-- The token at `i` of a wait node waits.
abbrev pub IsBlocked : NodeSpec → ℕ → Work → Work → Type 0
IsBlocked node i w w' =
    (node.type ≡ "control.wait") × Moved node.id i TokenStatus.waiting [] (tokens w) (tokens w')

-- The token at `i` may have changed, and no other.
abbrev pub IsLeft : String → ℕ → Work → Work → Type 0
IsLeft source i w w' =
    (f : ExecutionToken → ExecutionToken) × Changed source i f [] (tokens w) (tokens w')

-- What the token at `i` for the node has become, by what the call returns.
abbrev pub OutcomeOf : Env → NodeSpec → ℕ → Work → Outcome Error (Unit {0}) → Work → Type 0
OutcomeOf env node i w (ok _) w' = IsPassedOn env node i w w' ⊎ IsBlocked node i w w'
OutcomeOf env node i w (err _) w' = IsLeft node.id i w w'
OutcomeOf env node i w panic w' = IsLeft node.id i w w'

abbrev pub ExecutedFor : Env → NodeSpec → ℕ → Work → Result → Type 0
ExecutedFor env node i w (r, w') = OutcomeOf env node i w r w'

-- The same for the id of a node that may be missing.
abbrev pub Executed : Env → String → ℕ → Work → Result → Type 0
Executed env id i w (ok _, w') =
    (node : NodeSpec) × (lookup id (index_nodes env.spec.nodes) ≡ some node)
    × (IsPassedOn env node i w w' ⊎ IsBlocked node i w w')
Executed env id i w (err _, w') = IsLeft id i w w'
Executed env id i w (panic, w') = IsLeft id i w w'

pub ExecutedFor-Executed :
    (env : Env) (id : String) (node : NodeSpec) (i : ℕ) (w : Work) (r : Result)
    → lookup id (index_nodes env.spec.nodes) ≡ some node
    → node.id ≡ id
    → ExecutedFor env node i w r
    → Executed env id i w r
ExecutedFor-Executed env id node i w (ok _, w') found named p = (node, found, p)
ExecutedFor-Executed env id node i w (err _, w') found named p =
    subst (λ (s : String). IsLeft s i w w') named p
ExecutedFor-Executed env id node i w (panic, w') found named p =
    subst (λ (s : String). IsLeft s i w w') named p
