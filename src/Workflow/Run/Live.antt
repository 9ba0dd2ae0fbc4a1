-- ===== src/Workflow/Run/Live.antt =====
-- internal/flowengine/executor.go: executeGraph on a graph that the validation accepts.
use flowanything.Common.{
  ℕ, zero, suc, ◌+◌, ◌≤◌, ◌<◌, String, ◌≡◌, refl, inl, inr, false, Option, none, some, List, [],
  ◌∷◌, length, take, length-take_le, In, length-Distinct, if-cases, arith, ltb, leb, ltb→lt, leb→le,
  leb-false,
}
use flowanything.Platform.{AppError}
use flowanything.Workflow.Types.{Graph, Run}
use flowanything.Workflow.Store.{RunStore}
use flowanything.Workflow.Validation.{has, has_cycle}
use flowanything.Workflow.Validation.Cycles.{In-has}
use flowanything.Workflow.Validation.Acyclic.{keys}
use flowanything.Workflow.State.{ExecutionState, ready_nodes}
use flowanything.Workflow.State.Sets.{IsRun, IsIdle, missing, length-grows}
use flowanything.Workflow.State.Progress.{ready_nodes-In, ready_nodes-Progress}
use flowanything.Workflow.Executor.{Executor}
use flowanything.Workflow.Run.Ends.{IsOrder, IsRound, execute_ready_nodes-IsRound}
use flowanything.Workflow.Run.Rounds.{Rounds, no_more, round, Ends, Ends-more}
use flowanything.Workflow.Run.{Halt, execute_ready_nodes, next_round, after_round, or_stuck, rounds}

In-take : {A : Type 0} (n : ℕ) (xs : List A) (a : A) → In a (take n xs) → In a xs
In-take n [] a m = m
In-take zero (x ∷ xs) a m = elim m [ ]
In-take (suc n) (x ∷ xs) a (inl e) = inl e
In-take (suc n) (x ∷ xs) a (inr m) = inr (In-take n xs a m)

first-take :
    {A : Type 0} (n : ℕ) (xs : List A) (a : A) → 0 < n → In a xs → (b : A) × In b (take n xs)
first-take n [] a some_ m = elim m [ ]
first-take zero (x ∷ xs) a some_ m = absurd (omega (arith, some_))
first-take (suc n) (x ∷ xs) a some_ m = (x, inl refl)

-- The nodes of the next round.
record IsNext (parallelism : ℕ) (st : ExecutionState) (ids : List String) : Type 0 where
  first : (a : String) × In a ids
  scheduled : (a : String) → In a ids → In a st.scheduled
  open_ : (a : String) → In a ids → has st.completed a ≡ false
  size : length ids ≤ parallelism

module _ {S : Type 0} (e : Executor S) (g : Graph) (steps parallelism : ℕ) where
  next_round-IsNext :
      (st : ExecutionState) (s : S)
      → IsOrder e
      → has_cycle g ≡ false
      → 0 < parallelism
      → IsRun g st
      → IsIdle st
      → length st.completed < length st.scheduled
      → IsNext parallelism st (next_round e parallelism st s)
  unfolding next_round
  next_round-IsNext st s order acyclic some_ run idle more =
      let range = e.arrange s st.scheduled in
      let ready = ready_nodes st range in
      let (b, m) =
        ready_nodes-Progress g st range acyclic run idle
          (λ a n. (order.members s st.scheduled a).1 n) more in
      record {
        first = first-take parallelism ready b some_ m;
        scheduled = λ a n.
            (order.members s st.scheduled a).0
              (ready_nodes-In st range a (In-take parallelism ready a n)).0;
        open_ = λ a n. (ready_nodes-In st range a (In-take parallelism ready a n)).1;
        size = length-take_le parallelism ready;
      }

  all_done :
      (st : ExecutionState)
      → IsRun g st
      → ltb (length st.completed) (length st.scheduled) ≡ false
      → (a : String) → In a st.scheduled
      → In a st.completed
  all_done st run h a m = elim (missing st.scheduled st.completed) [
    | inr all ↦ all a m
    | inl (b, n, out) ↦
        let less = length-grows st.completed st.scheduled b run.once out n run.ran in
        absurd (ground (arith, less, h))
  ]

  -- A round completes at least one node more, and at most so many as run in parallel.
  round_grows :
      (ids : List String) (st : ExecutionState) (r : Option AppError × ExecutionState)
      → IsRun g st
      → IsNext parallelism st ids
      → IsRound g ids st r
      → r.0 ≡ none
      → length st.completed < length r.1.completed
  round_grows ids st r run next taken fine_ =
      let (a, m) = next.first in
      length-grows st.completed r.1.completed a run.once (next.open_ a m) (taken.done fine_ a m)
        taken.kept

  -- One round, before others.
  one_more :
      (ids : List String) (st : ExecutionState) (r : Option AppError × ExecutionState)
      → IsNext parallelism st ids
      → length st.completed < steps
      → IsRound g ids st r
      → (last : ExecutionState) → Rounds steps parallelism r.1 last
      → Rounds steps parallelism st last
  one_more ids st r next below taken last rest =
      round st r.1 ids below next.size
        (λ a m. (
          next.scheduled a m,
          λ n. let seen = In-has st.completed a n in let unseen = next.open_ a m in cc,
        ))
        taken.kept taken.bound rest

  after_round-Ends :
      (next : ExecutionState → S → Option ((Halt × ExecutionState) × S)) (ids : List String)
      (st : ExecutionState) (r : (Option AppError × ExecutionState) × S)
      → IsRun g st
      → IsNext parallelism st ids
      → length st.completed < steps
      → IsRound g ids st r.0
      → ((st' : ExecutionState) (s' : S)
          → IsRun g st'
          → IsIdle st'
          → length st'.completed < steps + parallelism
          → length st.completed < length st'.completed
          → Ends g steps parallelism st' (next st' s'))
      → Ends g steps parallelism st (after_round next r)
  unfolding after_round
  after_round-Ends next ids st ((none, st'), s') run is_next below taken rest =
      Ends-more g steps parallelism st st' (next st' s')
        (one_more ids st (none, st') is_next below taken)
        (rest st' s' taken.run (taken.idle refl) (omega (arith, below, taken.bound, is_next.size))
          (round_grows ids st (none, st') run is_next taken refl))
  after_round-Ends next ids st ((some failure, st'), s') run is_next below taken rest = record {
    run = taken.run;
    rounds_of = one_more ids st (some failure, st') is_next below taken st' (no_more st');
    progress = λ h. absurd (cc);
    bound = omega (arith, below, taken.bound, is_next.size);
    done = λ h. absurd (cc);
    limit = λ h. absurd (cc);
  }

  or_stuck-Ends :
      (go : List String → Option ((Halt × ExecutionState) × S)) (st : ExecutionState) (s : S)
      (ids : List String)
      → IsNext parallelism st ids
      → Ends g steps parallelism st (go ids)
      → Ends g steps parallelism st (or_stuck st s go ids)
  unfolding or_stuck
  or_stuck-Ends go st s [] next ends = let (a, m) = next.first in elim m [ ]
  or_stuck-Ends go st s (id ∷ ids) next ends = ends

  pub rounds-Ends :
      (fuel : ℕ) (store : RunStore S) (run : Run) (st : ExecutionState) (s : S)
      → IsOrder e
      → has_cycle g ≡ false
      → 0 < parallelism
      → IsRun g st
      → IsIdle st
      → length st.completed < steps + parallelism
      → length (keys g.nodes) < length st.completed + fuel
      → Ends g steps parallelism st (rounds e fuel steps parallelism store run st s)
  unfolding rounds
  rounds-Ends zero store run st s order acyclic some_ is_run idle within enough = absurd (
      omega (
        arith,
        enough,
        length-Distinct st.completed (keys g.nodes) is_run.once
            (λ a m. is_run.known a (is_run.ran a m)),
      ))
  rounds-Ends (suc fuel) store run st s order acyclic some_ is_run idle within enough =
      let P : Option ((Halt × ExecutionState) × S) → Type 0 = λ o. Ends g steps parallelism st o in
      if-cases P (ltb (length st.completed) (length st.scheduled))
        (λ more.
          if-cases P (leb steps (length st.completed))
            (λ over. record {
              run = is_run;
              rounds_of = no_more st;
              progress = λ h. absurd (cc);
              bound = within;
              done = λ h. absurd (cc);
              limit = λ h. leb→le steps (length st.completed) over;
            })
            (λ under.
              let below = leb-false under in
              let next =
                next_round-IsNext st s order acyclic some_ is_run idle
                  (ltb→lt (length st.completed) (length st.scheduled) more) in
              let ids = next_round e parallelism st s in
              or_stuck-Ends
                (λ xs.
                  after_round (λ st' s'. rounds e fuel steps parallelism store run st' s')
                    (execute_ready_nodes e store run xs st s))
                st s ids next
                (after_round-Ends (λ st' s'. rounds e fuel steps parallelism store run st' s') ids
                  st (execute_ready_nodes e store run ids st s) is_run next below
                  (execute_ready_nodes-IsRound e store run g ids st s order is_run idle
                    next.scheduled)
                  (λ st' s' run' idle' within' grows.
                    rounds-Ends fuel store run st' s' order acyclic some_ run' idle' within'
                      (omega (arith, enough, grows))))))
        (λ last. record {
          run = is_run;
          rounds_of = no_more st;
          progress = λ h. absurd (cc);
          bound = within;
          done = λ h. all_done st is_run last;
          limit = λ h. absurd (cc);
        })
