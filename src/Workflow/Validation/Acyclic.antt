-- ===== src/Workflow/Validation/Acyclic.antt =====
-- internal/flowengine/validation.go: what hasCycle decides, and the rank of the nodes of a graph that it
-- accepts.
use flowanything.Common.{
  ℕ, suc, ◌+◌, ◌≤◌, ◌<◌, String, ◌≡◌, refl, sym, ap, subst, inl, inr, ◌↔◌, true, false, Bool-cases,
  List, [], ◌∷◌, ◌++◌, ◌==◌, eq_iff, length, length-append, In, In-append_left, In-append_right,
  if◌then◌else◌, arith,
}
use flowanything.Workflow.Types.{Graph, Node, Edge}
use flowanything.Workflow.Validation.{
  has, Visit, cyclic, unfinished, visited, visit, visit_all, search, has_cycle, is_cyclic,
}
use flowanything.Workflow.Validation.Cycles.{
  has-In, In-has, absent_of_test, Reaches, step, trans, HasCycle, at, IsOrdered, Sound,
  and_then-Sound, visit-Sound,
}

-- The keys of a map.
abbrev pub keys : {A : Type 0} → List (String × A) → List String
keys [] = []
keys ((key, a) ∷ es) = key ∷ keys es

pub length-keys : {A : Type 0} (es : List (String × A)) → length (keys es) ≡ length es
length-keys [] = refl
length-keys ((key, a) ∷ es) = ap suc (length-keys es)

abbrev targets : List Edge → List String
targets [] = []
targets (e ∷ es) = e.to_node_id ∷ targets es

length-targets : (es : List Edge) → length (targets es) ≡ length es
length-targets [] = refl
length-targets (e ∷ es) = ap suc (length-targets es)

In-targets : (e : Edge) (es : List Edge) → In e es → In e.to_node_id (targets es)
In-targets e [] m = elim m [ ]
In-targets e (x ∷ es) (inl same) = inl (ap (λ (d : Edge). d.to_node_id) same)
In-targets e (x ∷ es) (inr m) = inr (In-targets e es m)

-- All of these nodes are there.
abbrev Covers : List String → List String → Type 0
Covers ids later = (a : String) → In a ids → In a later

visit_all-Sound :
    (edges : List Edge) (all : List String)
    → ((e : Edge) → In e edges → In e.to_node_id all)
    → (fuel : ℕ) (nodes : List (String × Node)) (seen : List String) → length all < fuel
    → ((a : String) → In a (keys nodes) → In a all)
    → IsOrdered edges seen
    → Sound edges seen (Covers (keys nodes)) (visit_all fuel edges nodes seen)
unfolding visit_all
visit_all-Sound edges all closed fuel [] seen enough inside ordered =
    (ordered, (λ a m. m), (λ a m. elim m [ ]))
visit_all-Sound edges all closed fuel ((id, node) ∷ nodes) seen enough inside ordered =
    and_then-Sound edges seen (In id) (Covers (keys nodes)) (Covers (id ∷ keys nodes))
      (visit fuel edges [] id seen) _
      (visit-Sound edges all closed fuel [] id seen (omega arith) tt (λ a m. elim m [ ])
        (λ a m. elim m [ ]) (inside id (inl refl)) ordered)
      (λ later o here.
        visit_all-Sound edges all closed fuel nodes later enough (λ a m. inside a (inr m)) o)
      (λ later last kept here covers a m. elim m [
        | inl same ↦ subst (λ (x : String). In x last) (sym same) (kept id here)
        | inr other ↦ covers a other
      ])

search-Sound : (g : Graph) → Sound g.edges [] (Covers (keys g.nodes)) (search g)
unfolding search
search-Sound g =
    let all = keys g.nodes ++ targets g.edges in
    let size : length all ≡ length g.nodes + length g.edges = omega (
      arith,
      length-append {0} (keys g.nodes) (targets g.edges),
      length-keys g.nodes,
      length-targets g.edges,
    ) in
    visit_all-Sound g.edges all
      (λ e m.
        In-append_right e.to_node_id (keys g.nodes) (targets g.edges) (In-targets e g.edges m))
      (suc (length g.nodes + length g.edges)) g.nodes [] (omega (arith, size))
      (λ a m. In-append_left a (keys g.nodes) (targets g.edges) m) tt

-- The place of a node from the end, at its last occurrence.
abbrev pub rank : List String → String → ℕ
rank [] id = 0
rank (v ∷ vs) id =
    let rest = rank vs id in if has vs id then rest else if v == id then suc (length vs) else 0

pub rank_le : (vs : List String) (id : String) → rank vs id ≤ length vs
rank_le [] id = omega arith
rank_le (v ∷ vs) id = ground (arith, rank_le vs id)

-- Along an edge the rank falls.
pub rank-falls :
    (edges : List Edge) (vs : List String) (e : Edge)
    → IsOrdered edges vs
    → In e edges
    → In e.from_node_id vs
    → In e.to_node_id vs × (rank vs e.to_node_id < rank vs e.from_node_id)
rank-falls edges [] e ordered m from = elim from [ ]
rank-falls edges (v ∷ vs) e (below, ordered) m from = elim (Bool-cases (has vs e.from_node_id)) [
  | inl h ↦
      let (there, less) = rank-falls edges vs e ordered m (has-In vs e.from_node_id h) in
      (inr there, ground (arith, less, h, In-has vs e.to_node_id there))
  | inr h ↦ elim from [
    | inl same ↦
        let there = below e m same in
        (
          inr there,
          ground (
            arith,
            h,
            In-has vs e.to_node_id there,
            eq_iff v e.from_node_id,
            same,
            rank_le vs e.to_node_id,
          ),
        )
    | inr later ↦ elim (absent_of_test vs e.from_node_id h later) [ ]
  ]
]

rank-falls_far :
    {edges : List Edge} {a b : String} (vs : List String)
    → IsOrdered edges vs
    → ((e : Edge) → In e edges → In e.from_node_id vs)
    → Reaches edges a b
    → rank vs b < rank vs a
rank-falls_far {edges} {a} {b} vs ordered from (step e m source target) =
    subst (λ (x : String). rank vs b < rank vs x) source
      (subst (λ (y : String). rank vs y < rank vs e.from_node_id) target
        (rank-falls edges vs e ordered m (from e m)).1)
rank-falls_far vs ordered from (trans r q) =
    let h = rank-falls_far vs ordered from r in
    let k = rank-falls_far vs ordered from q in omega (arith, h, k)

no_cycle :
    (edges : List Edge) (vs : List String)
    → IsOrdered edges vs
    → ((e : Edge) → In e edges → In e.from_node_id vs)
    → ¬ (HasCycle edges)
no_cycle edges vs ordered from (at r) =
    let h = rank-falls_far vs ordered from r in absurd (omega (arith, h))

-- The edges of a graph start at its nodes.
abbrev pub StartsAtNodes : Graph → Type 0
StartsAtNodes g = (e : Edge) → In e g.edges → In e.from_node_id (keys g.nodes)

decided :
    (g : Graph) (v : Visit)
    → StartsAtNodes g
    → Sound g.edges [] (Covers (keys g.nodes)) v
    → (is_cyclic v ≡ true) ↔ HasCycle g.edges
decided g cyclic starts sound = ((λ e. sound), (λ c. refl))
decided g unfinished starts sound = elim sound [ ]
decided g (visited later) starts (ordered, more, covers) = (
  (λ e. absurd (cc)),
  (λ c. elim (no_cycle g.edges later ordered (λ e m. covers e.from_node_id (starts e m)) c) [ ]),
)

-- hasCycle, for a graph whose edges start at its nodes, answers that there is a cycle exactly if some
-- node reaches itself along one edge or more.
pub has_cycle_iff : (g : Graph) → StartsAtNodes g → (has_cycle g ≡ true) ↔ HasCycle g.edges
unfolding has_cycle
has_cycle_iff g starts = decided g (search g) starts (search-Sound g)

ranked :
    (g : Graph) (v : Visit)
    → Sound g.edges [] (Covers (keys g.nodes)) v
    → is_cyclic v ≡ false
    → (vs : List String) × IsOrdered g.edges vs × Covers (keys g.nodes) vs
ranked g cyclic sound h = absurd (cc)
ranked g unfinished sound h = elim sound [ ]
ranked g (visited later) (ordered, more, covers) h = (later, ordered, covers)

-- A graph that hasCycle accepts has an order of its nodes.
pub has_cycle-order :
    (g : Graph)
    → has_cycle g ≡ false
    → (vs : List String) × IsOrdered g.edges vs × Covers (keys g.nodes) vs
unfolding has_cycle
has_cycle-order g h = ranked g (search g) (search-Sound g) h
