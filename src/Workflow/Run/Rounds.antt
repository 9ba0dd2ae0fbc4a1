-- ===== src/Workflow/Run/Rounds.antt =====
-- internal/flowengine/executor.go: the rounds that executeGraph goes through.
use flowanything.Common.{ℕ, ◌+◌, ◌≤◌, ◌<◌, String, ◌≡◌, ◌≢◌, Option, none, some, List, length, In}
use flowanything.Workflow.Types.{Graph}
use flowanything.Workflow.State.{ExecutionState}
use flowanything.Workflow.State.Sets.{IsRun}
use flowanything.Workflow.Run.{Halt, finished, exceeded, stuck}

-- From one state to another by rounds. Each begins while fewer nodes than the limit of steps are completed,
-- is for as many nodes as may run in parallel at most, all of them scheduled and not completed yet, and
-- completes no more nodes than these, forgetting none.
pub data Rounds (steps parallelism : ℕ) : ExecutionState → ExecutionState → Type 0 where
  no_more : (st : ExecutionState) → Rounds steps parallelism st st
  round :
      (st mid : ExecutionState) {last : ExecutionState} (ids : List String)
      → length st.completed < steps
      → length ids ≤ parallelism
      → ((a : String) → In a ids → In a st.scheduled × (¬ (In a st.completed)))
      → ((a : String) → In a st.completed → In a mid.completed)
      → length mid.completed ≤ length st.completed + length ids
      → Rounds steps parallelism mid last
      → Rounds steps parallelism st last

-- How a run ends: after such rounds; never for want of a ready node; with all scheduled nodes completed,
-- where it is finished; and at the limit, where it is exceeded.
pub record IsEnd (g : Graph) (steps parallelism : ℕ) (start : ExecutionState) (halt : Halt)
    (st : ExecutionState) : Type 0 where
  pub run : IsRun g st
  pub rounds_of : Rounds steps parallelism start st
  pub progress : halt ≢ stuck
  pub bound : length st.completed < steps + parallelism
  pub done : halt ≡ finished → (a : String) → In a st.scheduled → In a st.completed
  pub limit : halt ≡ exceeded → steps ≤ length st.completed

abbrev pub Ends :
    {S : Type 0} → Graph → ℕ → ℕ → ExecutionState → Option ((Halt × ExecutionState) × S) → Type 0
Ends g steps parallelism start none = ⊥
Ends g steps parallelism start (some ((halt, st), s)) = IsEnd g steps parallelism start halt st

-- What ends after more rounds ends.
pub Ends-more :
    {S : Type 0} (g : Graph) (steps parallelism : ℕ) (start mid : ExecutionState)
    (o : Option ((Halt × ExecutionState) × S))
    → ((last : ExecutionState)
        → Rounds steps parallelism mid last
        → Rounds steps parallelism start last)
    → Ends g steps parallelism mid o
    → Ends g steps parallelism start o
Ends-more g steps parallelism start mid none more ends = ends
Ends-more g steps parallelism start mid (some ((halt, st), s)) more ends = record {
  run = ends.run;
  rounds_of = more st ends.rounds_of;
  progress = ends.progress;
  bound = ends.bound;
  done = ends.done;
  limit = ends.limit;
}
