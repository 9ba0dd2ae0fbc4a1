-- ===== src/Workflow/Validation/Accepted.antt =====
-- internal/flowengine/validation.go: the graphs that ValidateGraph accepts.
use flowanything.Common.{
  String, ◌≡◌, ◌≢◌, refl, sym, inl, inr, ◌↔◌, true, false, Bool-cases, Option, none, some, List, [],
  ◌∷◌, ◌==◌, eq_iff, In, All, All-In, arith,
}
use flowanything.Common.Assoc.{lookup}
use flowanything.Platform.{AppError, is_empty}
use flowanything.Workflow.Types.{Graph, Node, Edge}
use flowanything.Workflow.Validation.{
  is_node, or_else, acyclic_or_error, has_cycle, validate_node, validate_nodes, validate_edge,
  validate_edges, validate_graph,
}
use flowanything.Workflow.Validation.Cycles.{HasCycle}
use flowanything.Workflow.Validation.Acyclic.{keys, StartsAtNodes, has_cycle_iff}

pub is_node-In :
    (nodes : List (String × Node)) (id : String) → is_node nodes id ≡ true → In id (keys nodes)
unfolding lookup
is_node-In [] id h = absurd (cc)
is_node-In ((key, node) ∷ nodes) id h = elim (Bool-cases (key == id)) [
  | inl e ↦ inl (sym ((eq_iff key id).0 e))
  | inr e ↦ inr (is_node-In nodes id (ground (arith, h, e)))
]

pub In-is_node :
    (nodes : List (String × Node)) (id : String) → In id (keys nodes) → is_node nodes id ≡ true
unfolding lookup
In-is_node [] id m = elim m [ ]
In-is_node ((key, node) ∷ nodes) id (inl e) = ground (arith, eq_iff key id, e)
In-is_node ((key, node) ∷ nodes) id (inr m) = ground (arith, In-is_node nodes id m)

-- A node stands under its own id, and has an id and a type.
abbrev pub IsNode : String × Node → Type 0
IsNode (id, node) = (is_empty node.id ≡ false) × (id ≡ node.id) × (node.type ≢ "")

-- An edge leads from a node to a node.
abbrev pub IsEdge : List (String × Node) → Edge → Type 0
IsEdge nodes e =
    (is_empty e.from_node_id ≡ false)
    × (is_empty e.to_node_id ≡ false)
    × In e.from_node_id (keys nodes)
    × In e.to_node_id (keys nodes)

-- A graph with an entry node, nodes and edges as above, and no cycle.
pub record IsGraph (g : Graph) : Type 0 where
  pub entry_named : is_empty g.entry_node_id ≡ false
  pub entry_there : In g.entry_node_id (keys g.nodes)
  pub nodes : All IsNode g.nodes
  pub edges : All (IsEdge g.nodes) g.edges
  pub acyclic : ¬ (HasCycle g.edges)

or_else_iff : (a b : Option AppError) → (or_else a b ≡ none) ↔ ((a ≡ none) × (b ≡ none))
or_else_iff none b = ((λ e. (refl, e)), (λ p. p.1))
or_else_iff (some e) b = ((λ h. absurd (cc)), (λ p. absurd (let h = p.0 in cc)))

validate_node_iff : (id : String) (node : Node) → (validate_node id node ≡ none) ↔ IsNode (id, node)
unfolding validate_node
validate_node_iff id node = (
  (λ h. (
    ground (arith, h),
    ground (arith, h, eq_iff id node.id),
    (λ e. ground (arith, h, e, eq_iff node.type "")),
  )),
  (λ p.
      let named = p.0 in
      let same = (eq_iff id node.id).1 p.1 in
      let typed = p.2 in
      elim (Bool-cases (node.type == "")) [
        | inl e ↦ elim (typed ((eq_iff node.type "").0 e)) [ ]
        | inr e ↦ rw (named, same, e) refl
      ]),
)

validate_nodes_iff :
    (nodes : List (String × Node)) → (validate_nodes nodes ≡ none) ↔ All IsNode nodes
unfolding validate_nodes
validate_nodes_iff [] = ((λ h. tt), (λ p. refl))
validate_nodes_iff ((id, node) ∷ nodes) =
    let both = or_else_iff (validate_node id node) (validate_nodes nodes) in
    let first = validate_node_iff id node in
    let rest = validate_nodes_iff nodes in
    ((λ h. (first.0 (both.0 h).0, rest.0 (both.0 h).1)), (λ p. both.1 (first.1 p.0, rest.1 p.1)))

validate_edge_iff :
    (nodes : List (String × Node)) (e : Edge) → (validate_edge nodes e ≡ none) ↔ IsEdge nodes e
unfolding validate_edge
validate_edge_iff nodes e = (
  (λ h. (
    ground (arith, h),
    ground (arith, h),
    is_node-In nodes e.from_node_id (ground (arith, h)),
    is_node-In nodes e.to_node_id (ground (arith, h)),
  )),
  (λ p.
      let a = p.0 in
      let b = p.1 in
      let c = In-is_node nodes e.from_node_id p.2 in
      let d = In-is_node nodes e.to_node_id p.3 in rw (a, b, c, d) refl),
)

validate_edges_iff :
    (nodes : List (String × Node)) (es : List Edge)
    → (validate_edges nodes es ≡ none) ↔ All (IsEdge nodes) es
unfolding validate_edges
validate_edges_iff nodes [] = ((λ h. tt), (λ p. refl))
validate_edges_iff nodes (e ∷ es) =
    let both = or_else_iff (validate_edge nodes e) (validate_edges nodes es) in
    let first = validate_edge_iff nodes e in
    let rest = validate_edges_iff nodes es in
    ((λ h. (first.0 (both.0 h).0, rest.0 (both.0 h).1)), (λ p. both.1 (first.1 p.0, rest.1 p.1)))

pub edges-StartsAtNodes : (g : Graph) → All (IsEdge g.nodes) g.edges → StartsAtNodes g
edges-StartsAtNodes g edges e m = (All-In (IsEdge g.nodes) e g.edges edges m).2

acyclic_iff :
    (g : Graph) → StartsAtNodes g → (acyclic_or_error (has_cycle g) ≡ none) ↔ (¬ (HasCycle g.edges))
acyclic_iff g starts = elim (Bool-cases (has_cycle g)) [
  | inl e ↦
      ((λ h. absurd (ground (arith, h, e))), (λ c. elim (c ((has_cycle_iff g starts).0 e)) [ ]))
  | inr e ↦ ((λ h c. let f = (has_cycle_iff g starts).1 c in absurd (cc)), (λ c. rw e refl))
]

-- The last three checks of ValidateGraph.
checks_iff :
    (g : Graph)
    → (or_else
          (validate_nodes g.nodes)
          (or_else (validate_edges g.nodes g.edges) (acyclic_or_error (has_cycle g)))
        ≡ none)
      ↔ (All IsNode g.nodes × All (IsEdge g.nodes) g.edges × (¬ (HasCycle g.edges)))
checks_iff g =
    let outer =
      or_else_iff (validate_nodes g.nodes)
        (or_else (validate_edges g.nodes g.edges) (acyclic_or_error (has_cycle g))) in
    let inner = or_else_iff (validate_edges g.nodes g.edges) (acyclic_or_error (has_cycle g)) in
    let nodes = validate_nodes_iff g.nodes in
    let edges = validate_edges_iff g.nodes g.edges in
    (
      (λ h.
          let rest = inner.0 (outer.0 h).1 in
          let fits = edges.0 rest.0 in
          (nodes.0 (outer.0 h).0, fits, (acyclic_iff g (edges-StartsAtNodes g fits)).0 rest.1)),
      (λ p.
          outer.1 (
            nodes.1 p.0,
            inner.1 (edges.1 p.1, (acyclic_iff g (edges-StartsAtNodes g p.1)).1 p.2),
          )),
    )

graph_checks :
    (g : Graph)
    → (validate_graph g ≡ none) ↔ (
        (is_empty g.entry_node_id ≡ false)
        × (is_node g.nodes g.entry_node_id ≡ true)
        × (or_else
              (validate_nodes g.nodes)
              (or_else (validate_edges g.nodes g.edges) (acyclic_or_error (has_cycle g)))
            ≡ none))
unfolding validate_graph lookup
graph_checks g = (
  (λ h. (ground (arith, h), ground (arith, h), ground (arith, h))),
  (λ p. let a = p.0 in let b = p.1 in let c = p.2 in ground (arith, a, b, c)),
)

-- ValidateGraph accepts a graph exactly if its entry is one of its nodes, all nodes stand under their own
-- id and have a type, all edges lead from a node to a node, and there is no cycle.
pub validate_graph_iff : (g : Graph) → (validate_graph g ≡ none) ↔ IsGraph g
validate_graph_iff g =
    let top = graph_checks g in
    let rest = checks_iff g in
    (
      (λ h.
          let p = top.0 h in
          let q = rest.0 p.2 in
          record {
            entry_named = p.0;
            entry_there = is_node-In g.nodes g.entry_node_id p.1;
            nodes = q.0;
            edges = q.1;
            acyclic = q.2;
          }),
      (λ q. top.1 (
        q.entry_named,
        In-is_node g.nodes g.entry_node_id q.entry_there,
        rest.1 (q.nodes, q.edges, q.acyclic),
      )),
    )
