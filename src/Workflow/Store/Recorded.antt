-- ===== src/Workflow/Store/Recorded.antt =====
-- internal/flowengine/store.go: what the memory store keeps of runs and node runs.
use text.Mathlib.TextLemmas.{append_assoc as text_assoc}
use flowanything.Common.{
  String, ◌≡◌, ◌≢◌, refl, sym, ap, ◌∙◌, subst, inl, inr, Bool-cases, Option, none, some, List, [],
  ◌∷◌, ◌==◌, eq_iff, if◌then◌else◌, arith, concat, ok,
}
use flowanything.Common.Assoc.{lookup, lookup-insert, lookup-insert_self}
use flowanything.Workflow.Types.{Run, NodeRun}
use flowanything.Workflow.Store.{
  MemoryRunStore, run_key, save_run, get_run, put_node_run, runs_or_nil, list_node_runs,
  record_node_run_in,
}

-- The node run with an id.
abbrev pub find_run : String → List NodeRun → Option NodeRun
find_run id [] = none
find_run id (r ∷ rs) = let rest = find_run id rs in if r.id == id then some r else rest

-- The ids of node runs, in order.
abbrev pub run_ids : List NodeRun → List String
run_ids [] = []
run_ids (r ∷ rs) = r.id ∷ run_ids rs

find_run-put_node_run :
    (r : NodeRun) (rs : List NodeRun) (id : String)
    → find_run id (put_node_run r rs) ≡ (if r.id == id then some r else find_run id rs)
unfolding put_node_run
find_run-put_node_run r [] id = refl
find_run-put_node_run r (old ∷ rs) id =
    ground
      (arith, find_run-put_node_run r rs id, eq_iff old.id r.id, eq_iff old.id id, eq_iff r.id id)

-- A node run that is there is replaced in its place.
run_ids-put_node_run :
    (r old : NodeRun) (rs : List NodeRun)
    → find_run r.id rs ≡ some old
    → run_ids (put_node_run r rs) ≡ run_ids rs
unfolding put_node_run
run_ids-put_node_run r old [] found = absurd (cc)
run_ids-put_node_run r old (x ∷ rs) found = elim (Bool-cases (x.id == r.id)) [
  | inl e ↦ rw e (ap (λ (id : String). id ∷ run_ids rs) (sym ((eq_iff x.id r.id).0 e)))
  | inr e ↦ rw e (
      ap (λ (ids : List String). x.id ∷ ids)
        (run_ids-put_node_run r old rs (ground (arith, found, e))))
]

list_node_runs-record_node_run_in :
    (r : NodeRun) (s : MemoryRunStore)
    → list_node_runs r.tenant_id r.run_id (record_node_run_in r s)
      ≡ put_node_run r (list_node_runs r.tenant_id r.run_id s)
unfolding list_node_runs record_node_run_in
list_node_runs-record_node_run_in r s =
    ap runs_or_nil (lookup-insert_self (run_key r.tenant_id r.run_id) _ s.node_runs)

-- RecordNodeRun, then ListNodeRuns: the node run is found by its id, every other one as before; a node
-- run that was recorded before keeps its place, and no place is added; the node runs under other keys and
-- the runs stay as they are.
pub list_node_runs-record :
    (r : NodeRun) (s : MemoryRunStore)
    → ((id : String)
        → find_run id (list_node_runs r.tenant_id r.run_id (record_node_run_in r s))
          ≡ (if r.id == id then some r else find_run id (list_node_runs r.tenant_id r.run_id s)))
      × ((old : NodeRun)
          → find_run r.id (list_node_runs r.tenant_id r.run_id s) ≡ some old
          → run_ids (list_node_runs r.tenant_id r.run_id (record_node_run_in r s))
            ≡ run_ids (list_node_runs r.tenant_id r.run_id s))
      × ((key : String)
          → run_key r.tenant_id r.run_id ≢ key
          → lookup key (record_node_run_in r s).node_runs ≡ lookup key s.node_runs)
      × ((record_node_run_in r s).runs ≡ s.runs)
unfolding record_node_run_in
list_node_runs-record r s =
    let listed = list_node_runs-record_node_run_in r s in
    let rs = list_node_runs r.tenant_id r.run_id s in
    (
      (λ id. ap (λ (xs : List NodeRun). find_run id xs) listed ∙ find_run-put_node_run r rs id),
      (λ old found. ap run_ids listed ∙ run_ids-put_node_run r old rs found),
      (λ key ne.
          lookup-insert (run_key r.tenant_id r.run_id) key _ s.node_runs
          ∙ ground (arith, eq_iff (run_key r.tenant_id r.run_id) key, ne)),
      refl,
    )

get_run-found :
    (tenant_id run_id : String) (run : Run) (s : MemoryRunStore)
    → lookup (run_key tenant_id run_id) s.runs ≡ some run
    → get_run tenant_id run_id s ≡ ok run
unfolding get_run
get_run-found tenant_id run_id run s found = ground (arith, found)

-- A run that is saved for the tenant t:u is returned to the tenant t, for the run id u:r.
pub get_run-crosses_tenants :
    (t u r : String) (run : Run) (s : MemoryRunStore)
    → run.tenant_id ≡ concat t (concat ":" u)
    → run.id ≡ r
    → get_run t (concat u (concat ":" r)) (save_run run s) ≡ ok run
unfolding save_run run_key
get_run-crosses_tenants t u r run s tenant id =
    let same : run_key run.tenant_id run.id ≡ run_key t (concat u (concat ":" r)) =
      ap (λ (a : String). run_key a run.id) tenant
      ∙ ap (λ (a : String). run_key (concat t (concat ":" u)) a) id
      ∙ text_assoc t (concat ":" u) (concat ":" r)
      ∙ ap (λ (a : String). concat t a) (text_assoc ":" u (concat ":" r)) in
    get_run-found t (concat u (concat ":" r)) run (save_run run s) (
      subst (λ (k : String). lookup k (save_run run s).runs ≡ some run) same
        (lookup-insert_self (run_key run.tenant_id run.id) run s.runs))
