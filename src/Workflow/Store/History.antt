-- ===== src/Workflow/Store/History.antt =====
-- internal/flowengine/store.go: the runs of the memory store, as the history of its writes says.
use flowanything.Common.{
  ℕ, ◌≤◌, ◌<◌, String, ◌≡◌, refl, ap, ◌∙◌, false, ◌&&◌, ◌||◌, Option, none, some, List, [], ◌∷◌,
  ◌==◌, eq_iff, ltb, length, length-take_le, All, All-take, if-cases, if-case, if◌then◌else◌, arith,
  Outcome, ok, err, sort_stable, sort_stable-All, IsDescending, sort_stable-IsDescending,
  take-IsDescending,
}
use flowanything.Common.Assoc.{lookup, lookup-insert}
use flowanything.Platform.{AppError, new, not_found, is_empty}
use flowanything.Workflow.Types.{Run}
use flowanything.Workflow.Store.{MemoryRunStore, run_key, save_run, get_run, runs_of, list_runs}

-- The writes of CreateRun and UpdateRun, one after the other.
abbrev pub save_all : List Run → MemoryRunStore → MemoryRunStore
save_all [] s = s
save_all (run ∷ runs) s = save_all runs (save_run run s)

-- What a history of writes says of a key: the last run that was written under it.
abbrev pub last_written : String → List Run → Option Run → Option Run
last_written key [] old = old
last_written key (run ∷ runs) old =
    last_written key runs (if run_key run.tenant_id run.id == key then some run else old)

abbrev pub found_or_missing : Option Run → Outcome AppError Run
found_or_missing (some run) = ok run
found_or_missing none = err (new not_found "workflow run not found")

lookup-save_run :
    (key : String) (run : Run) (s : MemoryRunStore)
    → lookup key (save_run run s).runs
      ≡ (if run_key run.tenant_id run.id == key then some run else lookup key s.runs)
unfolding save_run
lookup-save_run key run s = lookup-insert (run_key run.tenant_id run.id) key run s.runs

lookup-save_all :
    (key : String) (runs : List Run) (s : MemoryRunStore)
    → lookup key (save_all runs s).runs ≡ last_written key runs (lookup key s.runs)
lookup-save_all key [] s = refl
lookup-save_all key (run ∷ runs) s =
    lookup-save_all key runs (save_run run s)
    ∙ ap (λ (o : Option Run). last_written key runs o) (lookup-save_run key run s)

get_run-found_or_missing :
    (tenant_id run_id : String) (s : MemoryRunStore)
    → get_run tenant_id run_id s ≡ found_or_missing (lookup (run_key tenant_id run_id) s.runs)
unfolding get_run
get_run-found_or_missing tenant_id run_id s = ground arith

-- After any writes, GetRun returns the last run that was written under the key, or the one that was there
-- before, or the error that there is none.
pub get_run-last_written :
    (tenant_id run_id : String) (runs : List Run) (s : MemoryRunStore)
    → get_run tenant_id run_id (save_all runs s)
      ≡ found_or_missing
          (last_written (run_key tenant_id run_id) runs (lookup (run_key tenant_id run_id) s.runs))
get_run-last_written tenant_id run_id runs s =
    get_run-found_or_missing tenant_id run_id (save_all runs s)
    ∙ ap found_or_missing (lookup-save_all (run_key tenant_id run_id) runs s)

-- A run of a tenant and, where one is named, of a workflow.
abbrev pub IsOf : String → String → Run → Type 0
IsOf tenant_id workflow_id run =
    (run.tenant_id ≡ tenant_id) × (is_empty workflow_id ≡ false → run.workflow_id ≡ workflow_id)

runs_of-IsOf :
    (tenant_id workflow_id : String) (es : List (String × Run))
    → All (IsOf tenant_id workflow_id) (runs_of tenant_id workflow_id es)
unfolding runs_of
runs_of-IsOf tenant_id workflow_id [] = tt
runs_of-IsOf tenant_id workflow_id ((key, run) ∷ es) =
    let rest = runs_of-IsOf tenant_id workflow_id es in
    if-cases (All (IsOf tenant_id workflow_id))
      ((run.tenant_id == tenant_id) && (is_empty workflow_id || run.workflow_id == workflow_id))
      (λ h. (
        (
          (eq_iff run.tenant_id tenant_id).0 (ground (arith, h)),
          (λ e. (eq_iff run.workflow_id workflow_id).0 (ground (arith, h, e))),
        ),
        rest,
      ))
      (λ h. rest)

abbrev pub start_of : Run → ℕ
start_of run = run.started_at

-- ListRuns returns runs of the tenant and, where one is named, of the workflow only; the last start comes
-- first; and there are at most as many as a limit that is positive.
pub list_runs-IsListing :
    (tenant_id workflow_id : String) (limit : ℕ) (s : MemoryRunStore)
    → All (IsOf tenant_id workflow_id) (list_runs tenant_id workflow_id limit s)
      × IsDescending start_of (list_runs tenant_id workflow_id limit s)
      × (0 < limit → length (list_runs tenant_id workflow_id limit s) ≤ limit)
unfolding list_runs
list_runs-IsListing tenant_id workflow_id limit s =
    let before = λ (a : Run) (b : Run). ltb b.started_at a.started_at in
    let found = runs_of tenant_id workflow_id s.runs in
    let all =
      sort_stable-All before (IsOf tenant_id workflow_id) found
        (runs_of-IsOf tenant_id workflow_id s.runs) in
    let order = sort_stable-IsDescending start_of found in
    let sorted = sort_stable before found in
    (
      if-case (All (IsOf tenant_id workflow_id)) (ltb 0 limit && ltb limit (length sorted))
          (All-take (IsOf tenant_id workflow_id) limit sorted all) all,
      if-case (IsDescending start_of) (ltb 0 limit && ltb limit (length sorted))
          (take-IsDescending start_of limit sorted order) order,
      (λ positive.
          if-cases (λ (rs : List Run). length rs ≤ limit) (ltb 0 limit && ltb limit (length sorted))
            (λ h. length-take_le limit sorted) (λ h. ground (arith, h, positive))),
    )
