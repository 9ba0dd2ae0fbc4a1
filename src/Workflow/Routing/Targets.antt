-- ===== src/Workflow/Routing/Targets.antt =====
-- internal/flowengine/executor.go: nextNodes follows edges only.
use flowanything.Common.{
  String, ◌≡◌, refl, sym, subst, inl, inr, true, ◌&&◌, Option, none, some, List, [], ◌∷◌, ◌==◌,
  eq_iff, In, if-cases, arith,
}
use flowanything.Platform.{Answer, fine, fails}
use flowanything.Workflow.Types.{Edge, Graph, NodeResult}
use flowanything.Workflow.Context.{Lexis, RunContext}
use flowanything.Workflow.Validation.{has}
use flowanything.Workflow.Validation.Cycles.{has-In}
use flowanything.Workflow.Routing.{
  edge_matches, outgoing_targets, allowed_nodes, matching_targets, next_after, next_nodes,
}

-- An edge from a node to another.
pub record Leads (es : List Edge) (id next : String) (e : Edge) : Type 0 where
  pub there : In e es
  pub source : e.from_node_id ≡ id
  pub target : e.to_node_id ≡ next

abbrev pub HasEdge : List Edge → String → String → Type 0
HasEdge es id next = (e : Edge) × Leads es id next e

more :
    (d : Edge) (es : List Edge) (id next : String) → HasEdge es id next → HasEdge (d ∷ es) id next
more d es id next (e, l) = (e, record { there = inr l.there; source = l.source; target = l.target })

here :
    (e : Edge) (es : List Edge) (id next : String)
    → (e.from_node_id == id) ≡ true
    → next ≡ e.to_node_id
    → HasEdge (e ∷ es) id next
here e es id next h t =
    (e, record { there = inl refl; source = (eq_iff e.from_node_id id).0 h; target = sym t })

outgoing_targets-HasEdge :
    (id : String) (es : List Edge) (a : String) → In a (outgoing_targets id es) → HasEdge es id a
unfolding outgoing_targets
outgoing_targets-HasEdge id [] a m = elim m [ ]
outgoing_targets-HasEdge id (e ∷ es) a m =
    if-cases (λ (xs : List String). In a xs → HasEdge (e ∷ es) id a) (e.from_node_id == id)
      (λ h n. elim n [
        | inl same ↦ here e es id a h same
        | inr later ↦ more e es id a (outgoing_targets-HasEdge id es a later)
      ])
      (λ h n. more e es id a (outgoing_targets-HasEdge id es a n)) m

matching_targets-HasEdge :
    (x : Lexis) (id : String) (c : RunContext) (es : List Edge) (a : String)
    → In a (matching_targets x id c es)
    → HasEdge es id a
unfolding matching_targets
matching_targets-HasEdge x id c [] a m = elim m [ ]
matching_targets-HasEdge x id c (e ∷ es) a m =
    if-cases (λ (xs : List String). In a xs → HasEdge (e ∷ es) id a)
      ((e.from_node_id == id) && edge_matches x e.condition c)
      (λ h n. elim n [
        | inl same ↦ here e es id a (ground (arith, h)) same
        | inr later ↦ more e es id a (matching_targets-HasEdge x id c es a later)
      ])
      (λ h n. more e es id a (matching_targets-HasEdge x id c es a n)) m

-- What holds of the nodes of an answer.
abbrev pub Each : (String → Type 0) → Answer (List String) → Type 0
Each P (fine ids) = (a : String) → In a ids → P a
Each P (fails e) = Unit

allowed_nodes-Each :
    (P : String → Type 0) (targets ids : List String)
    → ((a : String) → In a targets → P a)
    → Each P (allowed_nodes targets ids)
unfolding allowed_nodes
allowed_nodes-Each P targets [] all = λ a m. elim m [ ]
allowed_nodes-Each P targets (id ∷ ids) all =
    if-cases (Each P) (has targets id)
      (λ h.
        elim (allowed_nodes targets ids)
            as (λ r.
              Each P r
              → Each P (elim r as (λ _. Answer (List String)) [
                | fine next ↦ fine (id ∷ next)
                | fails e ↦ fails e
              ])) [
                | fine next ↦ λ rest a m. elim m [
                  | inl same ↦ subst P (sym same) (all id (has-In targets id h))
                  | inr later ↦ rest a later
                ]
                | fails e ↦ λ rest. tt
              ]
          (allowed_nodes-Each P targets ids all))
      (λ h. tt)

next_after-Each :
    (x : Lexis) (g : Graph) (id : String) (ids : Option (List String)) (c : RunContext)
    → Each (HasEdge g.edges id) (next_after x g id ids c)
unfolding next_after
next_after-Each x g id (some ids) c =
    allowed_nodes-Each (HasEdge g.edges id) (outgoing_targets id g.edges) ids
      (outgoing_targets-HasEdge id g.edges)
next_after-Each x g id none c = matching_targets-HasEdge x id c g.edges

-- Each node that nextNodes returns is the target of an edge from the node, whatever the node executor
-- has asked for; a node that asks to stop has none after it.
pub next_nodes-HasEdge :
    (x : Lexis) (g : Graph) (id : String) (result : NodeResult) (c : RunContext)
    → Each (HasEdge g.edges id) (next_nodes x g id result c)
      × (result.stop ≡ true → next_nodes x g id result c ≡ fine [])
unfolding next_nodes
next_nodes-HasEdge x g id result c = (
  if-cases (Each (HasEdge g.edges id)) result.stop (λ h a m. elim m [ ])
      (λ h. next_after-Each x g id result.next_node_ids c),
  (λ h. rw h refl),
)
