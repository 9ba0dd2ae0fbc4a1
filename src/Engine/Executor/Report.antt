-- ===== src/Engine/Executor/Report.antt =====
-- core/flowengine/executor.go: the result and the events of Execute.
use mathlib.Core.Option
use flowanything.Common.{
  ℕ, suc, ◌≤◌, String, ◌≡◌, refl, sym, ap, subst, ◌∙◌, Option, none, some, some-eq, List, [], ◌∷◌,
  arith, length, Distinct,
}
use flowanything.Engine.Heap.{Heap}
use flowanything.Engine.Spec.{FlowSpec}
use flowanything.Engine.Context.{new_data_context}
use flowanything.Engine.Registry.{Registry}
use flowanything.Engine.Trace.{TraceContext}
use flowanything.Engine.Event.{FlowEvent, flow_completed, flow_failed}
use flowanything.Engine.Executor.{Env, RunState, Verdict, completed, failed, crashed}
use flowanything.Engine.Executor.Start.{
  RunResult, validate, max_executions, start_env, start_state, first_state, flow_start, no_source,
  run_from, run_queue, run_valid, report, execute,
}
use flowanything.Engine.Executor.Stats.{
  Stats, stats, completed_ids, ends, stats-emit_quiet, stats-emit_end,
}
use flowanything.Engine.Executor.Round.{emit-LastEvent, LastOf}
use flowanything.Engine.Executor.Order.{RunInv, EndsWell, loop-EndsWell}

-- A run starts with nothing done and nothing ended.
start_state-RunInv :
    (env : Env) (input : Option ℕ) (h : Heap)
    → RunInv env.max_executions (stats (start_state env input h))
unfolding start_state completed_ids ends
start_state-RunInv env input h =
    let st = stats (first_state env input h) in
    subst (RunInv env.max_executions)
      (sym (stats-emit_quiet env (flow_start h.next) (first_state env input h) refl refl))
      (record {
        distinct = tt;
        tracked = λ id m. absurd m;
        logged = refl;
        bounded = omega arith;
        running = refl;
      })

run_queue-EndsWell :
    (fuel : ℕ) (env : Env) (s : RunState) {done : RunState × Verdict}
    → run_queue fuel env s ≡ some done
    → RunInv env.max_executions (stats s)
    → EndsWell env.max_executions done
unfolding run_queue
run_queue-EndsWell fuel env s {done} e inv = go s.queue e
  where
    go : (q : List String) → run_from fuel env s q ≡ some done → EndsWell env.max_executions done
    go [] e =
        subst (EndsWell env.max_executions) (some-eq e)
          (stats s, inv, (stats-emit_end env no_source s refl refl, emit-LastEvent env no_source s))
    go (x ∷ q) e = loop-EndsWell fuel env s e inv

-- What a finished run reports, whatever its verdict.
pub record Reported (max : ℕ) (r : RunResult) : Type 0 where
  pub distinct : Distinct r.node_order
  pub logged : completed_ids r.events ≡ r.node_order
  pub bounded : length r.node_order ≤ max

-- How the events of a run end, by its verdict.
abbrev pub EventsEnd : Verdict → List FlowEvent → Type 0
EventsEnd completed events = (ends events ≡ 1) × LastOf flow_completed none events
EventsEnd (failed e) events = (ends events ≡ 1) × LastOf flow_failed (some e) events
EventsEnd crashed events = ends events ≡ 0

reported :
    (max : ℕ) (st : Stats) (env : Env) (s : RunState) (v : Verdict)
    → RunInv max st
    → s.node_order ≡ st.order
    → completed_ids s.events ≡ st.done
    → Reported max (report env (s, v))
unfolding report
reported max st env s v inv order done = record {
  distinct = subst Distinct (sym order) inv.distinct;
  logged = done ∙ inv.logged ∙ sym order;
  bounded =
      let short = inv.bounded in let len = ap (λ (l : List String). length l) order in omega arith;
}

EndsWell-report :
    (env : Env) (done : RunState × Verdict)
    → EndsWell env.max_executions done
    → Reported env.max_executions (report env done)
      × EventsEnd (report env done).verdict (report env done).events
unfolding report
EndsWell-report env (s, completed) (st, inv, (same, last)) =
    let ended : ends s.events ≡ suc st.ended = ap (λ (t : Stats). t.ended) same in
    let before = inv.running in
    (
      reported env.max_executions st env s completed inv (ap (λ (t : Stats). t.order) same)
          (ap (λ (t : Stats). t.done) same),
      (omega arith, last),
    )
EndsWell-report env (s, failed e) (st, inv, (same, last)) =
    let ended : ends s.events ≡ suc st.ended = ap (λ (t : Stats). t.ended) same in
    let before = inv.running in
    (
      reported env.max_executions st env s (failed e) inv (ap (λ (t : Stats). t.order) same)
          (ap (λ (t : Stats). t.done) same),
      (omega arith, last),
    )
EndsWell-report env (s, crashed) (st, inv, same) = (
  reported env.max_executions st env s crashed inv (ap (λ (t : Stats). t.order) same)
      (ap (λ (t : Stats). t.done) same),
  ap (λ (t : Stats). t.ended) same ∙ inv.running,
)

run_queue-report :
    (fuel : ℕ) (env : Env) (s : RunState) {r : RunResult}
    → Option.map (report env) (run_queue fuel env s) ≡ some r
    → RunInv env.max_executions (stats s)
    → Reported env.max_executions r × EventsEnd r.verdict r.events
run_queue-report fuel env s {r} e inv = go (run_queue fuel env s) refl e
  where
    go :
        (o : Option (RunState × Verdict))
        → run_queue fuel env s ≡ o
        → Option.map (report env) o ≡ some r
        → Reported env.max_executions r × EventsEnd r.verdict r.events
    go none q e = absurd (ground arith)
    go (some done) q e =
        subst (λ (t : RunResult). Reported env.max_executions t × EventsEnd t.verdict t.events)
          (some-eq e) (EndsWell-report env done (run_queue-EndsWell fuel env s q inv))

module _ (fuel : ℕ) (registry : Registry) (spec : FlowSpec) (run_id : String)
    (parent : Option TraceContext) (input : Option ℕ) (h : Heap) {r : RunResult}
    (valid : validate registry spec h ≡ none)
    (ran : execute fuel (some registry) spec run_id parent input h ≡ some r) where
  both : Reported (max_executions spec) r × EventsEnd r.verdict r.events
  unfolding execute run_valid start_env
  both =
      let (c, h') = new_data_context input h in
      let env = start_env registry spec run_id parent c in
      run_queue-report fuel env (start_state env input h') (rw valid at ran)
        (start_state-RunInv env input h')

  -- A run of a valid flow that has finished has executed no node twice, has executed them in the order
  -- of its node.completed events, and has not executed more of them than the limit.
  pub execute-Reported : Reported (max_executions spec) r
  execute-Reported = both.0

  -- A run of a valid flow that has finished has logged exactly one end of the flow, as its last
  -- event: flow.completed if it returns no error, flow.failed with the returned error if it returns
  -- one; it has logged no end if a node panicked.
  pub execute-EventsEnd : EventsEnd r.verdict r.events
  execute-EventsEnd = both.1
