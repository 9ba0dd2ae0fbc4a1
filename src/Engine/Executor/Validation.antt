-- ===== src/Engine/Executor/Validation.antt =====
-- core/flowengine/executor.go: `validate` beside a description that does not run it.
use flowanything.Common.{
  String, ◌≡◌, ◌≢◌, refl, inl, inr, ◌↔◌, false, Option, none, some, List, [], ◌∷◌, arith, eq_iff,
  In, All, Distinct,
}
use flowanything.Engine.Heap.{Heap}
use flowanything.Engine.Spec.{NodeSpec, EdgeSpec, FlowSpec}
use flowanything.Engine.Registry.{NodeExecutor, Registry, get}
use flowanything.Engine.Graph.{contains}
use flowanything.Engine.Graph.Index.{contains-In, In-contains}
use flowanything.Engine.Executor.Start.{
  ids, validate_node, validate_nodes, validate_edges, validate,
}

-- A node with an id whose type has an executor that accepts it.
abbrev pub IsAccepted : Registry → Heap → NodeSpec → Type 0
IsAccepted registry h n =
    (n.id ≢ "")
    × ((executor : NodeExecutor) × (get n.type registry ≡ some executor)
        × (executor.validate n h ≡ none))

-- Both ends of an edge are nodes.
abbrev pub IsInternal : List String → EdgeSpec → Type 0
IsInternal nodes e = In e.source nodes × In e.target nodes

pub record IsValid (registry : Registry) (spec : FlowSpec) (h : Heap) : Type 0 where
  pub named : spec.id ≢ ""
  pub accepted : All (IsAccepted registry h) spec.nodes
  pub distinct : Distinct (ids spec.nodes)
  pub internal : All (IsInternal (ids spec.nodes)) spec.edges

module _ (registry : Registry) (h : Heap) where
  validate_node-none :
      (seen : List String) (n : NodeSpec)
      → validate_node registry seen n h ≡ none
      → (contains seen n.id ≡ false) × IsAccepted registry h n
  unfolding validate_node
  validate_node-none seen n e =
      let (fresh, named) : (contains seen n.id ≡ false) × (n.id ≢ "") =
        (ground arith, ground (arith, eq_iff n.id "")) in
      (fresh, (named, go (get n.type registry) refl e))
    where
      go :
          (o : Option NodeExecutor)
          → get n.type registry ≡ o
          → validate_node registry seen n h ≡ none
          → (executor : NodeExecutor) × (get n.type registry ≡ some executor)
            × (executor.validate n h ≡ none)
      go none found e = absurd (ground arith)
      go (some executor) found e = (executor, found, ground arith)

  none-validate_node :
      (seen : List String) (n : NodeSpec)
      → contains seen n.id ≡ false
      → IsAccepted registry h n
      → validate_node registry seen n h ≡ none
  unfolding validate_node
  none-validate_node seen n fresh (named, (executor, found, accepts)) =
      ground (arith, eq_iff n.id "")

  -- Ids that were not seen before.
  abbrev Unseen : List String → List NodeSpec → Type 0
  Unseen seen [] = Unit
  Unseen seen (n ∷ ns) = (contains seen n.id ≡ false) × Unseen seen ns

  Unseen-nil : (ns : List NodeSpec) → Unseen [] ns
  unfolding contains
  Unseen-nil [] = tt
  Unseen-nil (n ∷ ns) = (refl, Unseen-nil ns)

  Unseen-cons :
      (id : String) (seen : List String) (ns : List NodeSpec)
      → Unseen (id ∷ seen) ns ↔ (Unseen seen ns × (¬ (In id (ids ns))))
  unfolding contains
  Unseen-cons id seen [] = (λ u. (tt, λ m. m), λ b. tt)
  Unseen-cons id seen (n ∷ ns) =
      let (to, from) = Unseen-cons id seen ns in
      (
        (λ u.
            let (later, out) = to u.1 in
            (
              (ground arith, later),
              λ m. elim m [ inl same ↦ ground (arith, eq_iff id n.id) | inr r ↦ out r ],
            )),
        (λ b. (ground (arith, eq_iff id n.id, b.1), from (b.0.1, λ m. b.1 (inr m)))),
      )

  validate_nodes-none :
      (seen : List String) (ns : List NodeSpec)
      → validate_nodes registry seen ns h ≡ none
      → All (IsAccepted registry h) ns × Distinct (ids ns) × Unseen seen ns
  unfolding validate_nodes
  validate_nodes-none seen [] e = (tt, tt, tt)
  validate_nodes-none seen (n ∷ ns) e =
      let good : validate_node registry seen n h ≡ none = ground arith in
      let rest : validate_nodes registry (n.id ∷ seen) ns h ≡ none = ground arith in
      let (accepted, distinct, unseen) = validate_nodes-none (n.id ∷ seen) ns rest in
      let (later, out) = (Unseen-cons n.id seen ns).0 unseen in
      let (fresh, this) = validate_node-none seen n good in
      ((this, accepted), (out, distinct), (fresh, later))

  none-validate_nodes :
      (seen : List String) (ns : List NodeSpec)
      → All (IsAccepted registry h) ns × Distinct (ids ns) × Unseen seen ns
      → validate_nodes registry seen ns h ≡ none
  unfolding validate_nodes
  none-validate_nodes seen [] b = refl
  none-validate_nodes seen (n ∷ ns) (accepted, distinct, unseen) =
      let rest =
        none-validate_nodes (n.id ∷ seen) ns
          (accepted.1, distinct.1, (Unseen-cons n.id seen ns).1 (unseen.1, distinct.0)) in
      ground (arith, none-validate_node seen n unseen.0 accepted.0)

validate_edges-none :
    (nodes : List String) (es : List EdgeSpec)
    → validate_edges nodes es ≡ none ↔ All (IsInternal nodes) es
unfolding validate_edges
validate_edges-none nodes [] = (λ e. tt, λ a. refl)
validate_edges-none nodes (e ∷ es) =
    let (to, from) = validate_edges-none nodes es in
    (
      (λ ok. (
        (contains-In nodes e.source (ground arith), contains-In nodes e.target (ground arith)),
        to (ground arith),
      )),
      (λ all.
          let l = In-contains nodes e.source all.0.0 in
          let r = In-contains nodes e.target all.0.1 in let rest = from all.1 in ground arith),
    )

-- `validate` accepts a flow exactly if it has an id, its nodes have different non-empty ids and
-- registered executors that accept them, and its edges run between its nodes.
pub validate_iff :
    (registry : Registry) (spec : FlowSpec) (h : Heap)
    → validate registry spec h ≡ none ↔ IsValid registry spec h
unfolding validate
validate_iff registry spec h = (
  (λ e.
      let named : spec.id ≢ "" = ground (arith, eq_iff spec.id "") in
      let nodes : validate_nodes registry [] spec.nodes h ≡ none =
        ground (arith, eq_iff spec.id "") in
      let edges : validate_edges (ids spec.nodes) spec.edges ≡ none =
        ground (arith, eq_iff spec.id "") in
      let (accepted, distinct, _) = validate_nodes-none registry h [] spec.nodes nodes in
      record {
        named = named;
        accepted = accepted;
        distinct = distinct;
        internal = (validate_edges-none (ids spec.nodes) spec.edges).0 edges;
      }),
  (λ v.
      let nodes =
        none-validate_nodes registry h [] spec.nodes
          (v.accepted, v.distinct, Unseen-nil registry h spec.nodes) in
      let edges = (validate_edges-none (ids spec.nodes) spec.edges).1 v.internal in
      let named = v.named in ground (arith, eq_iff spec.id "")),
)
