-- ===== src/Engine/Graph/Index.antt =====
-- core/flowengine/executor.go: lemmas on indexNodes, outgoingEdges and sourceNodes.
use flowanything.Common.{
  String, ◌≡◌, refl, sym, ◌∙◌, ◌⊎◌, inl, inr, true, false, some, List, [], ◌∷◌, ◌++◌, arith, ◌==◌,
  eq_iff, In, Bool-cases, if◌then◌else◌, ◌↔◌, append_assoc, append-nil,
}
use flowanything.Common.Assoc.{lookup, insert, lookup-insert}
use flowanything.Engine.Spec.{NodeSpec, EdgeSpec}
use flowanything.Engine.Graph.{
  contains, index_from, index_nodes, targets, append_at, outgoing_from, outgoing_edges,
  incoming_ids, without_incoming, source_nodes,
}

-- Every entry of the node index stands under its own id.
index_from-id :
    (ns : List NodeSpec) (out : List (String × NodeSpec))
    → ((id : String) (n : NodeSpec) → lookup id out ≡ some n → n.id ≡ id)
    → (id : String) (n : NodeSpec) → lookup id (index_from out ns) ≡ some n
    → n.id ≡ id
unfolding index_from
index_from-id [] out own id n e = own id n e
index_from-id (m ∷ ms) out own id n e =
    index_from-id ms (insert m.id m out)
      (λ k x f.
        let g = sym (lookup-insert m.id k m out) ∙ f in ground (arith, eq_iff m.id k, own k x, g))
      id n e

pub index_nodes-id :
    (ns : List NodeSpec) (id : String) (n : NodeSpec)
    → lookup id (index_nodes ns) ≡ some n
    → n.id ≡ id
unfolding index_nodes lookup
index_nodes-id ns id n e = index_from-id ns [] (λ k x f. absurd (ground arith)) id n e

pub contains-In : (xs : List String) (id : String) → contains xs id ≡ true → In id xs
unfolding contains
contains-In [] id e = absurd (ground arith)
contains-In (x ∷ xs) id e = elim (Bool-cases (x == id)) [
  | inl same ↦ inl (sym ((eq_iff x id).0 same))
  | inr other ↦ inr (contains-In xs id (rw other at e))
]

pub In-contains : (xs : List String) (id : String) → In id xs → contains xs id ≡ true
unfolding contains
In-contains (x ∷ xs) id (inl same) = ground (arith, eq_iff x id, sym same)
In-contains (x ∷ xs) id (inr m) = ground (arith, In-contains xs id m)
In-contains [] id m = elim m [ ]

-- outgoingEdges, without the map: the targets of a node's edges, in their order.
abbrev pub targets_of : String → List EdgeSpec → List String
targets_of id [] = []
targets_of id (e ∷ es) =
    let rest = targets_of id es in if e.source == id then e.target ∷ rest else rest

outgoing_from-targets :
    (es : List EdgeSpec) (out : List (String × List String)) (id : String)
    → targets (lookup id (outgoing_from out es)) ≡ targets (lookup id out) ++ targets_of id es
unfolding outgoing_from append_at
outgoing_from-targets [] out id = sym (append-nil _)
outgoing_from-targets (e ∷ es) out id =
    outgoing_from-targets es (append_at e.source e.target out) id
    ∙ elim (Bool-cases (e.source == id)) [
      | inl same ↦
          rw (lookup-insert, same, (eq_iff e.source id).0 same)
            (append_assoc _ (e.target ∷ []) (targets_of id es))
      | inr other ↦ rw (lookup-insert, other) refl
    ]

-- The static successors of a node are the targets of the edges from it, in the order of the edges.
pub outgoing_edges-targets_of :
    (es : List EdgeSpec) (id : String) → targets (lookup id (outgoing_edges es)) ≡ targets_of id es
unfolding outgoing_edges lookup
outgoing_edges-targets_of es id = outgoing_from-targets es [] id

-- Some edge leads to the node.
abbrev pub IsTarget : String → List EdgeSpec → Type 0
IsTarget id [] = ⊥
IsTarget id (e ∷ es) = (id ≡ e.target) ⊎ IsTarget id es

incoming_ids-In :
    (es : List EdgeSpec) (seen : List String) (id : String)
    → In id (incoming_ids seen es)
    → In id seen ⊎ IsTarget id es
unfolding incoming_ids
incoming_ids-In [] seen id m = inl m
incoming_ids-In (e ∷ es) seen id m = elim (incoming_ids-In es (e.target ∷ seen) id m) [
  | inl (inl same) ↦ inr (inl same)
  | inl (inr old) ↦ inl old
  | inr later ↦ inr (inr later)
]

In-incoming_ids :
    (es : List EdgeSpec) (seen : List String) (id : String)
    → In id seen ⊎ IsTarget id es
    → In id (incoming_ids seen es)
unfolding incoming_ids
In-incoming_ids [] seen id (inl m) = m
In-incoming_ids [] seen id (inr m) = elim m [ ]
In-incoming_ids (e ∷ es) seen id (inl m) = In-incoming_ids es (e.target ∷ seen) id (inl (inr m))
In-incoming_ids (e ∷ es) seen id (inr (inl same)) =
    In-incoming_ids es (e.target ∷ seen) id (inl (inl same))
In-incoming_ids (e ∷ es) seen id (inr (inr m)) = In-incoming_ids es (e.target ∷ seen) id (inr m)

-- The id of one of the nodes.
abbrev pub IsNode : String → List NodeSpec → Type 0
IsNode id [] = ⊥
IsNode id (n ∷ ns) = (id ≡ n.id) ⊎ IsNode id ns

without_incoming-In :
    (targets : List String) (ns : List NodeSpec) (id : String)
    → In id (without_incoming targets ns)
    → IsNode id ns × (contains targets id ≡ false)
unfolding without_incoming
without_incoming-In targets [] id m = elim m [ ]
without_incoming-In targets (n ∷ ns) id m = elim (Bool-cases (contains targets n.id)) [
  | inl seen ↦
      let (node, free) = without_incoming-In targets ns id (rw seen at m) in (inr node, free)
  | inr free ↦ elim (rw free at m) [
    | inl same ↦ (inl same, rw same free)
    | inr later ↦ let (node, free') = without_incoming-In targets ns id later in (inr node, free')
  ]
]

In-without_incoming :
    (targets : List String) (ns : List NodeSpec) (id : String)
    → IsNode id ns
    → contains targets id ≡ false
    → In id (without_incoming targets ns)
unfolding without_incoming
In-without_incoming targets [] id m free = elim m [ ]
In-without_incoming targets (n ∷ ns) id (inl same) free = rw (← same, free) (inl refl)
In-without_incoming targets (n ∷ ns) id (inr m) free = elim (Bool-cases (contains targets n.id)) [
  | inl seen ↦ rw seen (In-without_incoming targets ns id m free)
  | inr other ↦ rw other (inr (In-without_incoming targets ns id m free))
]

-- The first queue of a run holds exactly the nodes to which no edge leads.
pub source_nodes-In :
    (ns : List NodeSpec) (es : List EdgeSpec) (id : String)
    → In id (source_nodes ns es) ↔ (IsNode id ns × (¬ (IsTarget id es)))
unfolding source_nodes
source_nodes-In ns es id = (
  (λ m.
      let (node, free) = without_incoming-In (incoming_ids [] es) ns id m in
      (
        node,
        λ led.
            let seen = In-contains (incoming_ids [] es) id (In-incoming_ids es [] id (inr led)) in
            cc,
      )),
  (λ both.
      In-without_incoming (incoming_ids [] es) ns id both.0
        (elim (Bool-cases (contains (incoming_ids [] es) id)) [
          | inl seen ↦ elim (incoming_ids-In es [] id (contains-In (incoming_ids [] es) id seen)) [
            | inl out ↦ absurd out
            | inr led ↦ absurd (both.1 led)
          ]
          | inr free ↦ free
        ])),
)
