-- ===== src/Engine/Executor/Total.antt =====
-- core/flowengine/executor.go: the fuel of Execute.
use mathlib.Core.Option
use flowanything.Common.{ℕ, ◌+◌, String, ◌≡◌, refl, Option, none, some, List, [], ◌∷◌}
use flowanything.Engine.Values.{Error}
use flowanything.Engine.Heap.{Heap}
use flowanything.Engine.Context.{new_data_context}
use flowanything.Engine.Spec.{FlowSpec}
use flowanything.Engine.Registry.{Registry}
use flowanything.Engine.Trace.{TraceContext}
use flowanything.Engine.Executor.{Env, RunState}
use flowanything.Engine.Executor.Start.{
  rejected, validate, start_env, start_state, run_from, run_queue, run_valid, report, execute,
}
use flowanything.Engine.Executor.Termination.{loop-Ends, loop_more_fuel}

-- A computation on fuel that gives a result, the same with more fuel.
abbrev pub Returns {ℓ} : {A : Type ℓ} → (ℕ → Option A) → Type ℓ
Returns {A} f = (fuel : ℕ) × (r : A) × ((more : ℕ) → f (fuel + more) ≡ some r)

run_from-Returns :
    (env : Env) (s : RunState) (q : List String) → Returns (λ fuel. run_from fuel env s q)
unfolding run_from
run_from-Returns env s [] = (0, _, λ more. refl)
run_from-Returns env s (x ∷ q) =
    let (fuel, done, ran) = loop-Ends env s in
    (fuel, done, λ more. loop_more_fuel fuel more env s ran)

map-Returns :
    {A B : Type 0} (g : A → B) (f : ℕ → Option A)
    → Returns f
    → Returns (λ fuel. Option.map g (f fuel))
map-Returns g f (fuel, r, ran) = (fuel, g r, λ more. rw (ran more) refl)

module _ (registry : Registry) (spec : FlowSpec) (run_id : String) (parent : Option TraceContext)
    (input : Option ℕ) (h : Heap) where
  run_valid-Returns :
      (e : Option Error) → Returns (λ fuel. run_valid fuel registry spec run_id parent input h e)
  unfolding run_valid run_queue
  run_valid-Returns (some e) = (0, rejected e h, λ more. refl)
  run_valid-Returns none =
      let (c, h') = new_data_context input h in
      let env = start_env registry spec run_id parent c in
      let s = start_state env input h' in
      map-Returns (report env) (λ fuel. run_from fuel env s s.queue)
        (run_from-Returns env s s.queue)

  -- Execute returns, on every flow: whatever successors the nodes name, some amount of fuel gives a
  -- result, and every larger amount gives the same one.
  pub execute-Returns : Returns (λ fuel. execute fuel (some registry) spec run_id parent input h)
  unfolding execute
  execute-Returns = run_valid-Returns (validate registry spec h)
