-- ===== src/Workflow/Run/Steps.antt =====
-- internal/flowengine/executor.go: what the steps of a round do to the scheduled, started and completed
-- nodes.
use flowanything.Common.{
  ◌+◌, ◌≤◌, String, ◌≡◌, refl, sym, ap, ◌∙◌, subst, inl, inr, true, Option, none, some, List, [],
  ◌∷◌, length, In, if-cases, arith,
}
use flowanything.Platform.{Answer, fine, fails, AppError, is_empty}
use flowanything.Workflow.Types.{Graph, Edge, NodeResult}
use flowanything.Workflow.Context.{RunContext}
use flowanything.Workflow.Validation.{is_node}
use flowanything.Workflow.Validation.Acyclic.{keys}
use flowanything.Workflow.Validation.Accepted.{is_node-In}
use flowanything.Workflow.State.{ExecutionState, add, schedule, schedule_all, complete}
use flowanything.Workflow.State.Sets.{
  IsReached, IsRun, In-add, In-add_self, add-In, add-Distinct, length-add_le,
}
use flowanything.Workflow.Executor.{Executor, schedule_next, finish_node}
use flowanything.Workflow.Routing.{next_nodes}
use flowanything.Workflow.Routing.Targets.{Each, HasEdge, next_nodes-HasEdge}
use flowanything.Workflow.Validation.Cycles.{step, trans}
use flowanything.Workflow.Run.{finish_all}

-- More nodes may be scheduled; nothing is started or completed.
pub record Grows (g : Graph) (st next : ExecutionState) : Type 0 where
  pub run : IsRun g next
  pub started : next.started ≡ st.started
  pub completed : next.completed ≡ st.completed
  pub more : (a : String) → In a st.scheduled → In a next.scheduled

grown : {g : Graph} (st : ExecutionState) → IsRun g st → Grows g st st
grown st run = record { run = run; started = refl; completed = refl; more = λ a m. m }

abbrev IsFine : {A : Type 0} → (A → Type 0) → Answer A → Type 0
IsFine P (fine a) = P a
IsFine P (fails e) = Unit

module _ (g : Graph) where
  scheduled-IsRun :
      (id : String) (st : ExecutionState)
      → IsRun g st
      → IsReached g id
      → is_node st.graph.nodes id ≡ true
      → IsRun g (record st { scheduled = add st.scheduled id })
  scheduled-IsRun id st run reached node = record {
    same = run.same;
    known = λ a m. elim (add-In st.scheduled id a m) [
      | inl e ↦
          rw e
            (is_node-In g.nodes id (subst (λ (h : Graph). is_node h.nodes id ≡ true) run.same node))
      | inr old ↦ run.known a old
    ];
    reached = λ a m. elim (add-In st.scheduled id a m) [
      | inl e ↦ subst (IsReached g) (sym e) reached
      | inr old ↦ run.reached a old
    ];
    ran = λ a m. In-add st.scheduled id a (run.ran a m);
    once_scheduled = add-Distinct st.scheduled id run.once_scheduled;
    once = run.once;
  }

  schedule-Grows :
      (id : String) (st : ExecutionState)
      → IsRun g st
      → IsReached g id
      → IsFine (Grows g st) (schedule id st)
  unfolding schedule
  schedule-Grows id st run reached =
      if-cases (IsFine (Grows g st)) (is_empty id) (λ h. grown st run)
        (λ h.
          if-cases (IsFine (Grows g st)) (is_node st.graph.nodes id)
            (λ node. record {
              run = scheduled-IsRun id st run reached node;
              started = refl;
              completed = refl;
              more = λ a m. In-add st.scheduled id a m;
            })
            (λ node. tt))

  further : (st next last : ExecutionState) → Grows g st next → Grows g next last → Grows g st last
  further st next last a b = record {
    run = b.run;
    started = b.started ∙ a.started;
    completed = b.completed ∙ a.completed;
    more = λ x m. b.more x (a.more x m);
  }

  pub schedule_all-Grows :
      (ids : List String) (st : ExecutionState)
      → IsRun g st
      → ((a : String) → In a ids → IsReached g a)
      → Grows g st (schedule_all ids st).1
  unfolding schedule_all
  schedule_all-Grows [] st run all = grown st run
  schedule_all-Grows (id ∷ ids) st run all =
      elim (schedule id st)
          as (λ r.
            IsFine (Grows g st) r
            → Grows g st
                (elim r as (λ _. Option AppError × ExecutionState) [
                  | fine next ↦ schedule_all ids next
                  | fails e ↦ (some e, st)
                ]).1) [
                  | fine next ↦ λ a.
                      further st next (schedule_all ids next).1 a
                        (schedule_all-Grows ids next a.run (λ b m. all b (inr m)))
                  | fails e ↦ λ u. grown st run
                ]
        (schedule-Grows id st run (all id (inl refl)))

  complete-IsRun :
      (id : String) (st : ExecutionState) (c : RunContext)
      → IsRun g st
      → In id st.scheduled
      → IsRun g (record st { completed = add st.completed id; context = c })
  complete-IsRun id st c run m = record {
    same = run.same;
    known = run.known;
    reached = run.reached;
    ran = λ a n. elim (add-In st.completed id a n) [ inl e ↦ rw e m | inr old ↦ run.ran a old ];
    once_scheduled = run.once_scheduled;
    once = add-Distinct st.completed id run.once;
  }

  -- One node more is completed, and more nodes may be scheduled.
  pub record Finishes (id : String) (st next : ExecutionState) : Type 0 where
    pub run : IsRun g next
    pub started : next.started ≡ st.started
    pub completed : next.completed ≡ add st.completed id
    pub more : (a : String) → In a st.scheduled → In a next.scheduled

  schedule_next-Grows :
      {S : Type 0} (e : Executor S) (ids : Answer (List String)) (st : ExecutionState)
      → IsRun g st
      → Each (IsReached g) ids
      → Grows g st (schedule_next e ids st).1
  unfolding schedule_next
  schedule_next-Grows e (fine ids) st run all = schedule_all-Grows ids st run all
  schedule_next-Grows e (fails failure) st run all = grown st run

  -- What an edge leads to from a node that can be reached.
  HasEdge-IsReached : (id a : String) → IsReached g id → HasEdge g.edges id a → IsReached g a
  HasEdge-IsReached id a (inl entry) (e, l) = inr (step e l.there (l.source ∙ entry) l.target)
  HasEdge-IsReached id a (inr way) (e, l) = inr (trans way (step e l.there l.source l.target))

  Each-IsReached :
      (id : String) (edges : List Edge) (ids : Answer (List String))
      → edges ≡ g.edges
      → IsReached g id
      → Each (HasEdge edges id) ids
      → Each (IsReached g) ids
  Each-IsReached id edges (fine ids) same reached all = λ a m.
      HasEdge-IsReached id a reached (subst (λ (es : List Edge). HasEdge es id a) same (all a m))
  Each-IsReached id edges (fails e) same reached all = tt

  pub finish_node-Finishes :
      {S : Type 0} (e : Executor S) (id : String) (result : NodeResult) (st : ExecutionState)
      → IsRun g st
      → In id st.scheduled
      → Finishes id st (finish_node e id result st).1
  unfolding finish_node complete
  finish_node-Finishes e id result st run m =
      let done = complete e.lexis id result st in
      let grows =
        schedule_next-Grows e (next_nodes e.lexis done.graph id result done.context) done
          (complete-IsRun id st done.context run m)
          (Each-IsReached id st.graph.edges (next_nodes e.lexis done.graph id result done.context)
            (ap (λ (h : Graph). h.edges) run.same) (run.reached id m)
            (next_nodes-HasEdge e.lexis done.graph id result done.context).0) in
      record {
        run = grows.run;
        started = grows.started;
        completed = grows.completed;
        more = grows.more;
      }

  -- What the loop over some results gives, when it ends or at its first error.
  pub record IsFinished (st : ExecutionState) (results : List (String × NodeResult))
      (r : Option AppError × ExecutionState) : Type 0 where
    pub run : IsRun g r.1
    pub started : r.1.started ≡ st.started
    pub bound : length r.1.completed ≤ length st.completed + length results
    pub kept : (a : String) → In a st.completed → In a r.1.completed
    pub done : r.0 ≡ none → (a : String) → In a (keys results) → In a r.1.completed

  -- The first result, and then the others.
  after_first :
      (id : String) (result : NodeResult) (results : List (String × NodeResult))
      (st next : ExecutionState) (r : Option AppError × ExecutionState)
      → Finishes id st next
      → IsFinished next results r
      → IsFinished st ((id, result) ∷ results) r
  after_first id result results st next r first rest = record {
    run = rest.run;
    started = rest.started ∙ first.started;
    bound = omega (arith, rest.bound, ap length first.completed, length-add_le st.completed id);
    kept = λ a m. rest.kept a (subst (In a) (sym first.completed) (In-add st.completed id a m));
    done = λ fine_ a m. elim m [
      | inl e ↦
          rw e (rest.kept id (subst (In id) (sym first.completed) (In-add_self st.completed id)))
      | inr later ↦ rest.done fine_ a later
    ];
  }

  after_error :
      (id : String) (result : NodeResult) (results : List (String × NodeResult))
      (st next : ExecutionState) (failure : AppError)
      → Finishes id st next
      → IsFinished st ((id, result) ∷ results) (some failure, next)
  after_error id result results st next failure first = record {
    run = first.run;
    started = first.started;
    bound = omega (arith, ap length first.completed, length-add_le st.completed id);
    kept = λ a m. subst (In a) (sym first.completed) (In-add st.completed id a m);
    done = λ fine_. absurd (cc);
  }

  pub finish_all-IsFinished :
      {S : Type 0} (e : Executor S) (results : List (String × NodeResult)) (st : ExecutionState)
      → IsRun g st
      → ((a : String) → In a (keys results) → In a st.scheduled)
      → IsFinished st results (finish_all e results st)
  unfolding finish_all
  finish_all-IsFinished e [] st run inside = record {
    run = run;
    started = refl;
    bound = omega arith;
    kept = λ a m. m;
    done = λ f a m. elim m [ ];
  }
  finish_all-IsFinished e ((id, result) ∷ results) st run inside =
      let first = finish_node-Finishes e id result st run (inside id (inl refl)) in
      let next = (finish_node e id result st).1 in
      elim (finish_node e id result st).0
        as (λ r.
          IsFinished st ((id, result) ∷ results)
            (elim r as (λ _. Option AppError × ExecutionState) [
              | none ↦ finish_all e results next
              | some failure ↦ (some failure, next)
            ])) [
              | none ↦ after_first id result results st next (finish_all e results next) first (
                  finish_all-IsFinished e results next first.run
                    (λ a m. first.more a (inside a (inr m))))
              | some failure ↦ after_error id result results st next failure first
            ]
