-- ===== src/Tests/Runs.antt =====
-- Runs of the executor.
use flowanything.Common.{ℕ, ◌≡◌, refl, ◌↔◌, Option, none, some, [], ◌∷◌, In}
use flowanything.Common.Assoc.{lookup, insert}
use flowanything.Engine.Values.{too_many_executions}
use flowanything.Engine.Heap.{write_parts}
use flowanything.Engine.Paths.{split_path, split_field}
use flowanything.Engine.Context.{write}
use flowanything.Engine.Mapping.{resolve_value}
use flowanything.Engine.Graph.{targets, outgoing_edges, source_nodes}
use flowanything.Engine.Graph.Index.{
  IsTarget, IsNode, targets_of, outgoing_edges-targets_of, source_nodes-In,
}
use flowanything.Engine.Executor.{completed, failed}
use flowanything.Engine.Executor.Start.{RunResult, rejected, validate, max_executions, execute}
use flowanything.Engine.Executor.Report.{Reported, EventsEnd, execute-Reported, execute-EventsEnd}
use flowanything.Engine.Executor.Total.{Returns, execute-Returns}
use flowanything.Engine.Executor.Validation.{IsValid, validate_iff}
use flowanything.Tests.Samples.{empty_heap, registry, diamond}

abbrev result_of : Option RunResult → RunResult
result_of none = rejected (too_many_executions 0) empty_heap
result_of (some r) = r

run_diamond : ℕ → RunResult
unfolding execute lookup insert resolve_value write_parts split_field write split_path
    outgoing_edges
run_diamond limit = result_of (execute 9 (some registry) (diamond limit) "r1" none none empty_heap)

-- All four nodes are done, `d` once.
diamond_order : (run_diamond 0).node_order ≡ "a" ∷ "b" ∷ "c" ∷ "d" ∷ []
unfolding run_diamond
diamond_order = refl

diamond_completes : (run_diamond 0).verdict ≡ completed
unfolding run_diamond
diamond_completes = refl

-- With a limit of exactly the four executions that are needed, the second entry of `d` in the queue
-- makes the run fail after all four nodes are done.
diamond_at_limit :
    ((run_diamond 4).node_order ≡ "a" ∷ "b" ∷ "c" ∷ "d" ∷ [])
    × ((run_diamond 4).verdict ≡ failed (too_many_executions 4))
unfolding run_diamond
diamond_at_limit = (refl, refl)

diamond_valid : validate registry (diamond 0) empty_heap ≡ none
unfolding validate lookup
diamond_valid = refl

diamond_runs :
    execute 9 (some registry) (diamond 0) "r1" none none empty_heap ≡ some (run_diamond 0)
unfolding run_diamond
diamond_runs = refl

execute-Reported_example : Reported (max_executions (diamond 0)) (run_diamond 0)
execute-Reported_example =
    execute-Reported 9 registry (diamond 0) "r1" none none empty_heap diamond_valid diamond_runs

execute-EventsEnd_example : EventsEnd (run_diamond 0).verdict (run_diamond 0).events
execute-EventsEnd_example =
    execute-EventsEnd 9 registry (diamond 0) "r1" none none empty_heap diamond_valid diamond_runs

execute-Returns_example :
    Returns (λ fuel. execute fuel (some registry) (diamond 0) "r1" none none empty_heap)
execute-Returns_example = execute-Returns registry (diamond 0) "r1" none none empty_heap

validate_iff_example :
    validate registry (diamond 0) empty_heap ≡ none ↔ IsValid registry (diamond 0) empty_heap
validate_iff_example = validate_iff registry (diamond 0) empty_heap

outgoing_edges-targets_of_example :
    targets (lookup "a" (outgoing_edges (diamond 0).edges)) ≡ targets_of "a" (diamond 0).edges
outgoing_edges-targets_of_example = outgoing_edges-targets_of (diamond 0).edges "a"

source_nodes-In_example :
    In "a" (source_nodes (diamond 0).nodes (diamond 0).edges)
    ↔ (IsNode "a" (diamond 0).nodes × (¬ (IsTarget "a" (diamond 0).edges)))
source_nodes-In_example = source_nodes-In (diamond 0).nodes (diamond 0).edges "a"
