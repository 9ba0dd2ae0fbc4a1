-- ===== src/Tests/Histories.antt =====
-- Two writes of one run to an empty store.
use flowanything.Common.{◌≤◌, ◌<◌, ◌≡◌, refl, some, List, [], ◌∷◌, All, IsDescending, length, ok}
use flowanything.Common.Assoc.{lookup, insert}
use flowanything.Workflow.Types.{Run, succeeded}
use flowanything.Workflow.Run.{zero_run}
use flowanything.Workflow.Store.{new_memory_run_store, run_key, save_run, get_run, list_runs}
use flowanything.Workflow.Store.History.{
  save_all, last_written, found_or_missing, IsOf, start_of, get_run-last_written,
  list_runs-IsListing,
}

abbrev begun : Run
begun = record zero_run { id = "r"; tenant_id = "acme"; started_at = 3 }

abbrev ended : Run
ended = record begun { status = succeeded; finished_at = some 5 }

abbrev history : List Run
history = begun ∷ ended ∷ []

get_run-last_written_example :
    get_run "acme" "r" (save_all history new_memory_run_store)
    ≡ found_or_missing (
        last_written
          (run_key "acme" "r")
          history
          (lookup (run_key "acme" "r") new_memory_run_store.runs))
get_run-last_written_example = get_run-last_written "acme" "r" history new_memory_run_store

-- It is the second one.
last_is_ended : get_run "acme" "r" (save_all history new_memory_run_store) ≡ ok ended
unfolding get_run run_key lookup save_run insert
last_is_ended = refl

list_runs-IsListing_example :
    All (IsOf "acme" "") (list_runs "acme" "" 1 (save_all history new_memory_run_store))
    × IsDescending start_of (list_runs "acme" "" 1 (save_all history new_memory_run_store))
    × (0 < 1 → length (list_runs "acme" "" 1 (save_all history new_memory_run_store)) ≤ 1)
list_runs-IsListing_example =
    list_runs-IsListing "acme" "" 1 (save_all history new_memory_run_store)
