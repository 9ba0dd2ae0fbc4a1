-- ===== src/Workflow/Store.antt =====
-- internal/flowengine/store.go: RunStore, and the runs kept in memory.
pub mod Recorded
pub mod History
use flowanything.Common.{
  ℕ, String, Bool, true, false, not, ◌&&◌, ◌||◌, Option, none, some, List, [], ◌∷◌, ◌==◌, ltb,
  length, take, if◌then◌else◌, concat, Outcome, ok, err, sort_stable,
}
use flowanything.Common.Assoc.{lookup, insert}
use flowanything.Platform.{AppError, new, not_found, is_empty}
use flowanything.Workflow.Types.{Run, NodeRun}

-- The operations of RunStore that a run calls: those that change the store `S` return it.
pub record RunStore (S : Type 0) : Type 0 where
  pub create_run : Run → S → Option AppError × S
  pub update_run : Run → S → Option AppError × S
  pub record_node_run : NodeRun → S → Option AppError × S

-- MemoryRunStore
pub record MemoryRunStore : Type 0 where
  pub runs : List (String × Run)
  pub node_runs : List (String × List NodeRun)

abbrev pub new_memory_run_store : MemoryRunStore
new_memory_run_store = record { runs = []; node_runs = [] }

-- runKey
unfoldable pub run_key : String → String → String
run_key tenant_id run_id = concat tenant_id (concat ":" run_id)

-- CreateRun and UpdateRun, which have the same body
unfoldable pub save_run : Run → MemoryRunStore → MemoryRunStore
unfolding run_key
save_run run s = record s { runs = insert (run_key run.tenant_id run.id) run s.runs }

-- GetRun
unfoldable pub get_run : String → String → MemoryRunStore → Outcome AppError Run
unfolding run_key
get_run tenant_id run_id s = elim (lookup (run_key tenant_id run_id) s.runs) [
  | some run ↦ ok run
  | none ↦ err (new not_found "workflow run not found")
]

-- The loop of ListRuns.
unfoldable pub runs_of : String → String → List (String × Run) → List Run
unfolding is_empty
runs_of tenant_id workflow_id [] = []
runs_of tenant_id workflow_id ((key, run) ∷ es) =
    let rest = runs_of tenant_id workflow_id es in
    if run.tenant_id == tenant_id && (is_empty workflow_id || run.workflow_id == workflow_id)
    then run ∷ rest
    else rest

-- ListRuns: the last start first, at most `limit` where that is not 0
unfoldable pub list_runs : String → String → ℕ → MemoryRunStore → List Run
unfolding runs_of
list_runs tenant_id workflow_id limit s =
    let sorted =
      sort_stable (λ (a b : Run). ltb b.started_at a.started_at)
        (runs_of tenant_id workflow_id s.runs) in
    if ltb 0 limit && ltb limit (length sorted) then take limit sorted else sorted

-- The loop of RecordNodeRun: in the place of the run with the same id, or at the end.
unfoldable pub put_node_run : NodeRun → List NodeRun → List NodeRun
put_node_run run [] = run ∷ []
put_node_run run (old ∷ runs) =
    let rest = put_node_run run runs in if old.id == run.id then run ∷ runs else old ∷ rest

abbrev pub runs_or_nil : Option (List NodeRun) → List NodeRun
runs_or_nil (some runs) = runs
runs_or_nil none = []

-- ListNodeRuns
unfoldable pub list_node_runs : String → String → MemoryRunStore → List NodeRun
unfolding run_key
list_node_runs tenant_id run_id s = runs_or_nil (lookup (run_key tenant_id run_id) s.node_runs)

-- RecordNodeRun
unfoldable pub record_node_run_in : NodeRun → MemoryRunStore → MemoryRunStore
unfolding put_node_run run_key
record_node_run_in run s =
    let key = run_key run.tenant_id run.run_id in
    record s {
      node_runs = insert key (put_node_run run (runs_or_nil (lookup key s.node_runs))) s.node_runs;
    }

abbrev pub memory_run_store : RunStore MemoryRunStore
memory_run_store = record {
  create_run = λ run s. (none, save_run run s);
  update_run = λ run s. (none, save_run run s);
  record_node_run = λ run s. (none, record_node_run_in run s);
}
