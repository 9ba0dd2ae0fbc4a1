-- ===== src/Workflow/State/Progress.antt =====
-- internal/flowengine/state.go: readyNodes between two rounds.
use flowanything.Common.{
  ℕ, zero, suc, ◌+◌, ◌<◌, String, ◌≡◌, refl, sym, subst, inl, inr, true, false, not, ◌&&◌,
  Bool-cases, List, [], ◌∷◌, ◌==◌, eq_iff, length, In, if-cases, arith,
}
use flowanything.Workflow.Types.{Graph, Edge}
use flowanything.Workflow.Validation.{has, has_cycle}
use flowanything.Workflow.Validation.Cycles.{has-In, absent_of_test, IsOrdered}
use flowanything.Workflow.Validation.Acyclic.{keys, rank, rank_le, rank-falls, has_cycle-order}
use flowanything.Workflow.State.{ExecutionState, has_pending_upstream, is_ready, ready_nodes}
use flowanything.Workflow.State.Sets.{IsRun, IsIdle, missing_of_longer}

-- An edge from a scheduled node that is not completed.
record IsPending (id : String) (st : ExecutionState) (e : Edge) : Type 0 where
  target : e.to_node_id ≡ id
  scheduled : In e.from_node_id st.scheduled
  open_ : has st.completed e.from_node_id ≡ false

has_pending_upstream-IsPending :
    (id : String) (st : ExecutionState) (es : List Edge)
    → has_pending_upstream id st es ≡ true
    → (e : Edge) × In e es × IsPending id st e
unfolding has_pending_upstream
has_pending_upstream-IsPending id st [] h = absurd (cc)
has_pending_upstream-IsPending id st (e ∷ es) h =
    elim (Bool-cases (
      (e.to_node_id == id)
      && (has st.scheduled e.from_node_id && not (has st.completed e.from_node_id)))) [
        | inl here ↦ (
          e,
          inl refl,
          record {
            target = (eq_iff e.to_node_id id).0 (ground (arith, here));
            scheduled = has-In st.scheduled e.from_node_id (ground (arith, here));
            open_ = ground (arith, here);
          },
        )
        | inr other ↦
            let (d, m, p) = has_pending_upstream-IsPending id st es (ground (arith, h, other)) in
            (d, inr m, p)
      ]

In-ready_nodes :
    (st : ExecutionState) (ids : List String) (id : String)
    → In id ids
    → is_ready st id ≡ true
    → In id (ready_nodes st ids)
unfolding ready_nodes
In-ready_nodes st [] id m ready = elim m [ ]
In-ready_nodes st (x ∷ xs) id (inl e) ready =
    rw (sym e) (if-cases (In id) (is_ready st id) (λ h. inl refl) (λ h. absurd (cc)))
In-ready_nodes st (x ∷ xs) id (inr m) ready =
    let rest = In-ready_nodes st xs id m ready in
    if-cases (In id) (is_ready st x) (λ h. inr rest) (λ h. rest)

-- A node that is ready is neither started nor completed, and is one of those that were looked at.
pub ready_nodes-In :
    (st : ExecutionState) (ids : List String) (id : String)
    → In id (ready_nodes st ids)
    → In id ids × (has st.completed id ≡ false)
unfolding ready_nodes is_ready
ready_nodes-In st [] id m = elim m [ ]
ready_nodes-In st (x ∷ xs) id m0 =
    if-cases (λ (ys : List String). In id ys → In id (x ∷ xs) × (has st.completed id ≡ false))
      (is_ready st x)
      (λ h m. elim m [
        | inl e ↦ (inl e, rw e (ground (arith, h)))
        | inr r ↦ let (n, f) = ready_nodes-In st xs id r in (inr n, f)
      ])
      (λ h r. let (n, f) = ready_nodes-In st xs id r in (inr n, f)) m0

module _ (g : Graph) (st : ExecutionState) (run : IsRun g st) (order : List String) where
  -- From a scheduled node that is not completed, up the edges as long as one is pending.
  climb :
      IsOrdered g.edges order
      → ((a : String) → In a (keys g.nodes) → In a order)
      → (n : ℕ) (a : String) → In a st.scheduled
      → has st.completed a ≡ false
      → length order < rank order a + n
      → (b : String) × In b st.scheduled
        × (has st.completed b ≡ false)
        × (has_pending_upstream b st g.edges ≡ false)
  climb ordered covers zero a m open_ enough = absurd (omega (arith, enough, rank_le order a))
  climb ordered covers (suc n) a m open_ enough =
      elim (Bool-cases (has_pending_upstream a st g.edges)) [
        | inr free ↦ (a, m, open_, free)
        | inl pending ↦
            let (e, here, p) = has_pending_upstream-IsPending a st g.edges pending in
            let (there, falls) =
              rank-falls g.edges order e ordered here
                (covers e.from_node_id (run.known e.from_node_id p.scheduled)) in
            let less =
              subst (λ (x : String). rank order x < rank order e.from_node_id) p.target falls in
            climb ordered covers n e.from_node_id p.scheduled p.open_ (omega (arith, enough, less))
      ]

not_started :
    (st : ExecutionState) (id : String)
    → IsIdle st
    → has st.completed id ≡ false
    → has st.started id ≡ false
not_started st id idle open_ = elim (Bool-cases (has st.started id)) [
  | inr e ↦ e
  | inl e ↦ elim (absent_of_test st.completed id open_ (idle id (has-In st.started id e))) [ ]
]

-- Between two rounds, in a graph without cycles, some node is ready as long as a scheduled node is not
-- completed.
pub ready_nodes-Progress :
    (g : Graph) (st : ExecutionState) (ids : List String)
    → has_cycle g ≡ false
    → IsRun g st
    → IsIdle st
    → ((a : String) → In a st.scheduled → In a ids)
    → length st.completed < length st.scheduled
    → (b : String) × In b (ready_nodes st ids)
unfolding is_ready
ready_nodes-Progress g st ids acyclic run idle every more =
    let (order, ordered, covers) = has_cycle-order g acyclic in
    let (a, m, open_) = missing_of_longer st.scheduled st.completed run.once_scheduled more in
    let (b, scheduled, waits, free) =
      climb g st run order ordered covers (suc (length order)) a m open_ (omega arith) in
    let fresh = not_started st b idle waits in
    let free_here =
      subst (λ (h : Graph). has_pending_upstream b st h.edges ≡ false) (sym run.same) free in
    (b, In-ready_nodes st ids b (every b scheduled) (rw (fresh, waits, free_here) refl))
