-- ===== src/Workflow/Run/Ends.antt =====
-- internal/flowengine/executor.go: how the loop of executeGraph ends.
use flowanything.Common.{
  suc, ◌+◌, ◌≤◌, String, ◌≡◌, refl, sym, ap, subst, ◌⊎◌, inl, inr, ◌↔◌, Option, none, List, [], ◌∷◌,
  length, In, arith,
}
use flowanything.Platform.{Answer, fine, fails, AppError}
use flowanything.Workflow.Types.{Graph, Run, NodeResult}
use flowanything.Workflow.Context.{RunContext}
use flowanything.Workflow.Store.{RunStore}
use flowanything.Workflow.Validation.Acyclic.{keys}
use flowanything.Workflow.State.{ExecutionState, mark_started, mark_all_started}
use flowanything.Workflow.State.Sets.{IsRun, IsIdle, add-In}
use flowanything.Workflow.Executor.{Executor, run_all}
use flowanything.Workflow.Run.Steps.{finish_all-IsFinished}
use flowanything.Workflow.Run.{all_results, finish_all, finish_round, execute_ready_nodes}

-- The order of ranging and of running changes nothing but the order.
pub record IsOrder {S : Type 0} (e : Executor S) : Type 0 where
  pub members : (s : S) (ids : List String) (a : String) → In a (e.arrange s ids) ↔ In a ids
  pub size : (s : S) (ids : List String) → length (e.arrange s ids) ≡ length ids

-- Some nodes are marked as started, and nothing else.
record Marks (g : Graph) (ids : List String) (st next : ExecutionState) : Type 0 where
  run : IsRun g next
  scheduled : next.scheduled ≡ st.scheduled
  completed : next.completed ≡ st.completed
  started : (a : String) → In a next.started → In a st.started ⊎ In a ids

mark_all_started-Marks :
    (g : Graph) (ids : List String) (st : ExecutionState)
    → IsRun g st
    → Marks g ids st (mark_all_started ids st)
unfolding mark_all_started mark_started
mark_all_started-Marks g [] st run = record {
  run = run;
  scheduled = refl;
  completed = refl;
  started = λ a m. inl m;
}
mark_all_started-Marks g (id ∷ ids) st run =
    let one : IsRun g (mark_started id st) = record {
      same = run.same;
      known = run.known;
      reached = run.reached;
      ran = run.ran;
      once_scheduled = run.once_scheduled;
      once = run.once;
    } in
    let rest = mark_all_started-Marks g ids (mark_started id st) one in
    record {
      run = rest.run;
      scheduled = rest.scheduled;
      completed = rest.completed;
      started = λ a m. elim (rest.started a m) [
        | inr later ↦ inr (inr later)
        | inl here ↦ elim (add-In st.started id a here) [ inl e ↦ inr (inl e) | inr old ↦ inl old ]
      ];
    }

-- Each goroutine sends one message, for its node.
run_all-keys :
    {S : Type 0} (e : Executor S) (store : RunStore S) (run : Run) (g : Graph) (c : RunContext)
    (ids : List String) (s : S)
    → keys (run_all e store run g c ids s).0 ≡ ids
unfolding run_all
run_all-keys e store run g c [] s = refl
run_all-keys e store run g c (id ∷ ids) s =
    ap (λ (xs : List String). id ∷ xs) (run_all-keys e store run g c ids _)

abbrev HasKeys : List String → Answer (List (String × NodeResult)) → Type 0
HasKeys ids (fine results) = keys results ≡ ids
HasKeys ids (fails e) = Unit

all_results-keys :
    (sent : List (String × Answer NodeResult)) → HasKeys (keys sent) (all_results sent)
unfolding all_results
all_results-keys [] = refl
all_results-keys ((id, fails e) ∷ sent) = tt
all_results-keys ((id, fine result) ∷ sent) =
    elim (all_results sent)
        as (λ r.
          HasKeys (keys sent) r
          → HasKeys (id ∷ keys sent) (elim r as (λ _. Answer (List (String × NodeResult))) [
            | fine results ↦ fine ((id, result) ∷ results)
            | fails e ↦ fails e
          ])) [ fine results ↦ λ k. ap (λ (xs : List String). id ∷ xs) k | fails e ↦ λ k. tt ]
      (all_results-keys sent)

-- What a round gives for the nodes `ids`: between the rounds again, where it gives no error.
pub record IsRound (g : Graph) (ids : List String) (st : ExecutionState)
    (r : Option AppError × ExecutionState) : Type 0 where
  pub run : IsRun g r.1
  pub bound : length r.1.completed ≤ length st.completed + length ids
  pub kept : (a : String) → In a st.completed → In a r.1.completed
  pub done : r.0 ≡ none → (a : String) → In a ids → In a r.1.completed
  pub idle : r.0 ≡ none → IsIdle r.1

length-keys_of :
    {A : Type 0} (ids : List String) (es : List (String × A))
    → keys es ≡ ids
    → length es ≡ length ids
length-keys_of ids [] e = ap length e
length-keys_of [] ((key, a) ∷ es) e = absurd (cc)
length-keys_of (id ∷ ids) ((key, a) ∷ es) e = ap suc (length-keys_of ids es (cc))

finish_round-IsRound :
    {S : Type 0} (e : Executor S) (g : Graph) (ids order : List String) (st : ExecutionState)
    (sent : Answer (List (String × NodeResult)))
    → IsRun g st
    → IsIdle st
    → ((a : String) → In a ids → In a st.scheduled)
    → ((a : String) → In a order ↔ In a ids)
    → length order ≡ length ids
    → HasKeys order sent
    → IsRound g ids st (finish_round e sent (mark_all_started ids st))
unfolding finish_round
finish_round-IsRound e g ids order st (fails failure) run idle inside members size k =
    let marks = mark_all_started-Marks g ids st run in
    record {
      run = marks.run;
      bound = omega (arith, ap length marks.completed);
      kept = λ a m. subst (In a) (sym marks.completed) m;
      done = λ f. absurd (cc);
      idle = λ f. absurd (cc);
    }
finish_round-IsRound e g ids order st (fine results) run idle inside members size k =
    let marks = mark_all_started-Marks g ids st run in
    let marked = mark_all_started ids st in
    let fin =
      finish_all-IsFinished g e results marked marks.run
        (λ a m. subst (In a) (sym marks.scheduled) (inside a ((members a).0 (subst (In a) k m)))) in
    let done : (finish_all e results marked).0 ≡ none
        → (a : String) → In a ids
        → In a (finish_all e results marked).1.completed =
      λ f a m. fin.done f a (subst (In a) (sym k) ((members a).1 m)) in
    let kept : (a : String) → In a st.completed → In a (finish_all e results marked).1.completed =
      λ a m. fin.kept a (subst (In a) (sym marks.completed) m) in
    record {
      run = fin.run;
      bound =
          omega (arith, fin.bound, ap length marks.completed, length-keys_of order results k, size);
      kept = kept;
      done = done;
      idle = λ f a m. elim (marks.started a (subst (In a) fin.started m)) [
        | inl old ↦ kept a (idle a old)
        | inr new ↦ done f a new
      ];
    }

pub execute_ready_nodes-IsRound :
    {S : Type 0} (e : Executor S) (store : RunStore S) (run : Run) (g : Graph) (ids : List String)
    (st : ExecutionState) (s : S)
    → IsOrder e
    → IsRun g st
    → IsIdle st
    → ((a : String) → In a ids → In a st.scheduled)
    → IsRound g ids st (execute_ready_nodes e store run ids st s).0
unfolding execute_ready_nodes
execute_ready_nodes-IsRound e store run g ids st s order is_run idle inside =
    let sent = (run_all e store run st.graph st.context (e.arrange s ids) s).0 in
    finish_round-IsRound e g ids (e.arrange s ids) st (all_results sent) is_run idle inside
      (order.members s ids) (order.size s ids)
      (subst (λ (ks : List String). HasKeys ks (all_results sent))
        (run_all-keys e store run st.graph st.context (e.arrange s ids) s) (all_results-keys sent))
