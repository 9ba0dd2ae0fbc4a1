-- ===== src/Engine/Executor/Termination.antt =====
-- core/flowengine/executor.go: the fuel of the loop of Execute.
use flowanything.Common.{
  ℕ, suc, zero, ◌+◌, ◌-◌, ◌≤◌, ◌<◌, String, ◌≡◌, ◌≢◌, refl, sym, subst, ap, ◌∙◌, ◌⊎◌, inl, inr,
  some, List, [], ◌∷◌, arith, length, length-append,
}
use native.Mathlib.Nat.{suc-add}
use flowanything.Engine.Executor.{Env, RunState, Verdict, Next, continue, halt, round, loop}
use flowanything.Engine.Executor.Stats.{Stats}
use flowanything.Engine.Executor.Round.{Skipped, Advanced, Rounded, round-Rounded}

-- Some fuel is enough for the loop from `s`.
abbrev pub Ends : Env → RunState → Type 0
Ends env s = (fuel : ℕ) × (done : RunState × Verdict) × (loop fuel env s ≡ some done)

pub loop-continue :
    (fuel : ℕ) (env : Env) (s : RunState) {s' : RunState}
    → round env s.queue s ≡ continue s'
    → loop (suc fuel) env s ≡ loop fuel env s'
unfolding loop
loop-continue fuel env s e = rw (e, loop) refl

pub loop-halt :
    (fuel : ℕ) (env : Env) (s : RunState) {s' : RunState} {v : Verdict}
    → round env s.queue s ≡ halt s' v
    → loop (suc fuel) env s ≡ some (s', v)
unfolding loop
loop-halt fuel env s e = rw (e, loop) refl

-- A round that goes on has skipped a node or advanced.
pub continue-cases :
    (env : Env) (s : RunState) {s' : RunState}
    → round env s.queue s ≡ continue s'
    → Skipped s.queue s s' ⊎ Advanced env s.queue s s'
continue-cases env s e = subst (Rounded env s.queue s) e (round-Rounded env s.queue s)

Ends-round :
    (env : Env) (s : RunState)
    → ((s' : RunState) → round env s.queue s ≡ continue s' → Ends env s')
    → Ends env s
Ends-round env s later = go (round env s.queue s) refl
  where
    go : (n : Next) → round env s.queue s ≡ n → Ends env s
    go (halt s' v) e = (1, (s', v), loop-halt 0 env s e)
    go (continue s') e =
        let (fuel, done, runs) = later s' e in (suc fuel, done, loop-continue fuel env s e ∙ runs)

-- After an advance one execution less is left.
Advanced-room :
    (env : Env) (q : List String) (s s' : RunState) {left : ℕ}
    → Advanced env q s s'
    → env.max_executions - length s.node_order ≤ left
    → (left ≢ 0) × (env.max_executions - length s'.node_order < left)
Advanced-room env q s s' (id, rest, nexts, _, _, room, same) bound =
    let grown = ap (λ (t : Stats). length t.order) same in
    let longer = length-append s.node_order (id ∷ []) in (omega arith, omega arith)

nil-ne-cons : {x : String} {xs : List String} → [] ≢ x ∷ xs
nil-ne-cons e = cc

Skipped-queue :
    (q : List String) (s s' : RunState) {x : String} {rest : List String}
    → Skipped q s s'
    → q ≡ x ∷ rest
    → s'.queue ≡ rest
Skipped-queue q s s' (id, left, queue, _, next) e = ground arith

Skipped-room :
    (q : List String) (s s' : RunState) (max : ℕ) {left : ℕ}
    → Skipped q s s'
    → max - length s.node_order ≤ left
    → max - length s'.node_order ≤ left
Skipped-room q s s' max (id, rest, _, _, next) room =
    let order = ap (λ (t : RunState). length t.node_order) next in omega arith

-- By induction on the executions that are left, and then on the queue.
Ends-within :
    (env : Env) (left : ℕ) (q : List String) (s : RunState)
    → s.queue ≡ q
    → env.max_executions - length s.node_order ≤ left
    → Ends env s
Ends-within env zero [] s same room = Ends-round env s (λ s' e. elim (continue-cases env s e) [
  | inl (id, rest, queue, _, _) ↦ absurd (nil-ne-cons (sym same ∙ queue))
  | inr more ↦ absurd ((Advanced-room env s.queue s s' more room).0 refl)
])
Ends-within env zero (x ∷ q) s same room = Ends-round env s (λ s' e. elim (continue-cases env s e) [
  | inl skip ↦
      Ends-within env zero q s' (Skipped-queue s.queue s s' skip same)
        (Skipped-room s.queue s s' env.max_executions skip room)
  | inr more ↦ absurd ((Advanced-room env s.queue s s' more room).0 refl)
])
Ends-within env (suc left) [] s same room = Ends-round env s (λ s' e.
    elim (continue-cases env s e) [
      | inl (id, rest, queue, _, _) ↦ absurd (nil-ne-cons (sym same ∙ queue))
      | inr more ↦
          let fewer = (Advanced-room env s.queue s s' more room).1 in
          Ends-within env left s'.queue s' refl (omega arith)
    ])
Ends-within env (suc left) (x ∷ q) s same room = Ends-round env s (λ s' e.
    elim (continue-cases env s e) [
      | inl skip ↦
          Ends-within env (suc left) q s' (Skipped-queue s.queue s s' skip same)
            (Skipped-room s.queue s s' env.max_executions skip room)
      | inr more ↦
          let fewer = (Advanced-room env s.queue s s' more room).1 in
          Ends-within env left s'.queue s' refl (omega arith)
    ])

-- Every run of the loop ends: some fuel is enough, whatever the nodes do and however many successors
-- they name.
pub loop-Ends : (env : Env) (s : RunState) → Ends env s
loop-Ends env s = Ends-within env env.max_executions s.queue s refl (omega arith)

-- With more fuel the loop ends in the same way.
pub loop_more_fuel :
    (fuel more : ℕ) (env : Env) (s : RunState) {done : RunState × Verdict}
    → loop fuel env s ≡ some done
    → loop (fuel + more) env s ≡ some done
unfolding loop
loop_more_fuel zero more env s e = absurd (ground arith)
loop_more_fuel (suc fuel) more env s {done} e =
    rw suc-add (go (round env s.queue s) refl (λ s' f. loop_more_fuel fuel more env s' f))
  where
    go :
        (n : Next)
        → round env s.queue s ≡ n
        → ((s' : RunState) → loop fuel env s' ≡ some done → loop (fuel + more) env s' ≡ some done)
        → loop (suc (fuel + more)) env s ≡ some done
    go (halt s' v) f rec = loop-halt (fuel + more) env s f ∙ sym (loop-halt fuel env s f) ∙ e
    go (continue s') f rec =
        loop-continue (fuel + more) env s f ∙ rec s' (sym (loop-continue fuel env s f) ∙ e)
