-- ===== src/Engine/Executor/Order.antt =====
-- core/flowengine/executor.go: an invariant of the loop of Execute.
use flowanything.Common.{
  ℕ, suc, zero, ◌≤◌, ◌<◌, String, ◌≡◌, refl, sym, ap, subst, ◌∙◌, inl, inr, true, false, some,
  some-eq, List, [], ◌∷◌, ◌++◌, arith, ◌==◌, eq_iff, length, length-append, In, In-append, Distinct,
  Distinct-append_one, Bool-cases,
}
use flowanything.Engine.Graph.{contains}
use flowanything.Engine.Executor.{Env, RunState, Verdict, Next, continue, halt, round, loop}
use flowanything.Engine.Executor.Stats.{Stats, stats, advance}
use flowanything.Engine.Executor.Round.{Rounded, round-Rounded, Ended}
use flowanything.Engine.Executor.Termination.{loop-continue, loop-halt, continue-cases}

-- Between two rounds.
pub record RunInv (max : ℕ) (st : Stats) : Type 0 where
  pub distinct : Distinct st.order
  pub tracked : (id : String) → In id st.order → contains st.executed id ≡ true
  pub logged : st.done ≡ st.order
  pub bounded : length st.order ≤ max
  pub running : st.ended ≡ 0

pub advance-RunInv :
    (max : ℕ) (id : String) (nexts : List String) (st : Stats)
    → RunInv max st
    → contains st.executed id ≡ false
    → length st.order < max
    → RunInv max (advance id nexts st)
unfolding contains
advance-RunInv max id nexts st inv fresh room = record {
  distinct = Distinct-append_one st.order id (λ m. let seen = inv.tracked id m in cc) inv.distinct;
  tracked = λ j m. elim (In-append j st.order (id ∷ []) m) [
    | inl old ↦ ground (arith, inv.tracked j old, Bool-cases (id == j))
    | inr (inl same) ↦ ground (arith, eq_iff id j, sym same)
    | inr (inr out) ↦ absurd out
  ];
  logged = ap (λ (l : List String). l ++ id ∷ []) inv.logged;
  bounded = let longer = length-append st.order (id ∷ []) in omega arith;
  running = inv.running;
}

-- The state in which a run has ended, and the counts just before its last event.
abbrev pub EndsWell : ℕ → RunState × Verdict → Type 0
EndsWell max (s, v) = (st : Stats) × RunInv max st × Ended st s v

requeue-RunInv :
    (max : ℕ) (q : List String) (st : Stats) → RunInv max st → RunInv max (record st { queue = q })
requeue-RunInv max q st inv = record {
  distinct = inv.distinct;
  tracked = inv.tracked;
  logged = inv.logged;
  bounded = inv.bounded;
  running = inv.running;
}

continue-RunInv :
    (env : Env) (s s' : RunState)
    → round env s.queue s ≡ continue s'
    → RunInv env.max_executions (stats s)
    → RunInv env.max_executions (stats s')
continue-RunInv env s s' e inv = elim (continue-cases env s e) [
  | inl (id, rest, _, _, next) ↦
      subst (λ (t : RunState). RunInv env.max_executions (stats t)) (sym next)
        (requeue-RunInv _ rest (stats s) inv)
  | inr (id, rest, nexts, _, fresh, room, same) ↦ subst (RunInv env.max_executions) (sym same) (
      advance-RunInv env.max_executions id nexts (record (stats s) { queue = rest })
        (requeue-RunInv _ rest (stats s) inv) fresh room)
]

pub loop-EndsWell :
    (fuel : ℕ) (env : Env) (s : RunState) {done : RunState × Verdict}
    → loop fuel env s ≡ some done
    → RunInv env.max_executions (stats s)
    → EndsWell env.max_executions done
unfolding loop
loop-EndsWell zero env s e inv = absurd (ground arith)
loop-EndsWell (suc fuel) env s {done} e inv =
    go (round env s.queue s) refl (λ s' f i. loop-EndsWell fuel env s' f i)
  where
    go :
        (n : Next)
        → round env s.queue s ≡ n
        → ((s' : RunState)
            → loop fuel env s' ≡ some done
            → RunInv env.max_executions (stats s')
            → EndsWell env.max_executions done)
        → EndsWell env.max_executions done
    go (halt s' v) f rec =
        let (left, ended) = subst (Rounded env s.queue s) f (round-Rounded env s.queue s) in
        subst (EndsWell env.max_executions) (some-eq (sym (loop-halt fuel env s f) ∙ e))
          (record (stats s) { queue = left }, requeue-RunInv _ left (stats s) inv, ended)
    go (continue s') f rec =
        rec s' (sym (loop-continue fuel env s f) ∙ e) (continue-RunInv env s s' f inv)
