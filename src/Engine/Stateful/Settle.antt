-- ===== src/Engine/Stateful/Settle.antt =====
-- core/flowengine/stateful_executor.go: one round of RunUntilBlocked.
use flowanything.Common.{
  ℕ, ◌≡◌, ◌≢◌, refl, subst, ap, ◌⊎◌, inl, inr, true, false, Bool-cases, Option, none, some, List,
  [], ◌∷◌, In, All, Outcome, ok, err, panic, if-case, if-cases, arith,
}
use flowanything.Engine.Heap.{Heap}
use flowanything.Engine.Values.{Error}
use flowanything.Engine.Instance.{InstanceStatus, TokenStatus, ExecutionToken, FlowInstance}
use flowanything.Engine.Stateful.Store.{InstanceStore}
use flowanything.Engine.Stateful.Base.{
  Env, Work, emit, is_ready, is_waiting, shift, token_at, first_ready_token_index,
  has_waiting_token,
}
use flowanything.Engine.Stateful.Token.{Result, execute_ready_token}
use flowanything.Engine.Stateful.Arrived.{
  HasFairJoins, execute_ready_token-HasFairJoins, first_ready_token_index-ready,
}
use flowanything.Engine.Stateful.Run.{
  Finish, Step, continue, halt, finalize_blocked_instance, after_final_save, settle,
  after_failed_save, fail_instance, after_save, after_token, step_token, step_at, step,
  next_version, mark_failed,
}

abbrev pub NoneIs : TokenStatus → List ExecutionToken → Type 0
NoneIs status = All (λ t. t.status ≢ status)

abbrev pub SomeIs : TokenStatus → List ExecutionToken → Type 0
SomeIs status ts = (t : ExecutionToken) × In t ts × (t.status ≡ status)

-- Nothing is left to run: the instance waits for an event if a token waits, and is completed if none
-- does.
abbrev pub IsSettled : FlowInstance → Type 0
IsSettled x =
    NoneIs TokenStatus.ready x.tokens
    × ((SomeIs TokenStatus.waiting x.tokens × (x.status ≡ InstanceStatus.waiting))
        ⊎ (NoneIs TokenStatus.waiting x.tokens × (x.status ≡ InstanceStatus.completed)))

is_ready-false : (s : TokenStatus) → is_ready s ≡ false → s ≢ TokenStatus.ready
is_ready-false s e same = absurd (cc (e, ap is_ready same))

is_waiting-true : (s : TokenStatus) → is_waiting s ≡ true → s ≡ TokenStatus.waiting
is_waiting-true TokenStatus.waiting e = refl
is_waiting-true TokenStatus.ready e = absurd (cc)
is_waiting-true TokenStatus.running e = absurd (cc)
is_waiting-true TokenStatus.consumed e = absurd (cc)
is_waiting-true TokenStatus.cancelled e = absurd (cc)

is_waiting-false : (s : TokenStatus) → is_waiting s ≡ false → s ≢ TokenStatus.waiting
is_waiting-false s e same = absurd (cc (e, ap is_waiting same))

shift-none : (o : Option ℕ) → shift o ≡ none → o ≡ none
shift-none none e = refl
shift-none (some i) e = absurd (cc)

first_ready_token_index-none :
    (ts : List ExecutionToken) → first_ready_token_index ts ≡ none → NoneIs TokenStatus.ready ts
unfolding first_ready_token_index
first_ready_token_index-none [] e = tt
first_ready_token_index-none (t ∷ ts) e = elim (Bool-cases (is_ready t.status)) [
  | inl now ↦ absurd (ground arith)
  | inr later ↦
      let rest = shift-none (first_ready_token_index ts) (ground arith) in
      (is_ready-false t.status later, first_ready_token_index-none ts rest)
]

has_waiting_token-cases :
    (ts : List ExecutionToken)
    → (SomeIs TokenStatus.waiting ts × (has_waiting_token ts ≡ true))
      ⊎ (NoneIs TokenStatus.waiting ts × (has_waiting_token ts ≡ false))
unfolding has_waiting_token
has_waiting_token-cases [] = inr (tt, refl)
has_waiting_token-cases (t ∷ ts) = elim (Bool-cases (is_waiting t.status)) [
  | inl now ↦ inl ((t, inl refl, is_waiting-true t.status now), ground arith)
  | inr later ↦ elim (has_waiting_token-cases ts) [
    | inl ((u, there, waits), e) ↦ inl ((u, inr there, waits), ground arith)
    | inr (none_is, e) ↦ inr ((is_waiting-false t.status later, none_is), ground arith)
  ]
]

finalize_blocked_instance-IsSettled :
    (env : Env) (w : Work)
    → NoneIs TokenStatus.ready w.current.tokens
    → IsSettled (finalize_blocked_instance env w).current
unfolding finalize_blocked_instance emit
finalize_blocked_instance-IsSettled env w idle =
    if-cases (λ (x : Work). IsSettled x.current) (has_waiting_token w.current.tokens)
      (λ waits. elim (has_waiting_token-cases w.current.tokens) [
        | inl (some_is, _) ↦ (idle, inl (some_is, refl))
        | inr (_, idles) ↦ absurd (cc)
      ])
      (λ none_waits. elim (has_waiting_token-cases w.current.tokens) [
        | inl (_, waits) ↦ absurd (cc)
        | inr (none_is, _) ↦ (idle, inr (none_is, refl))
      ])

-- What is claimed of one round: it halts without an error only in a settled instance.
module _ {S : Type 0} (store : InstanceStore S) where
  abbrev pub EndsSettled : Step S → Type 0
  EndsSettled (continue w s) = Unit
  EndsSettled (halt f) =
      f.outcome ≡ ok tt → IsSettled f.work.current × (f.returned ≡ some f.work.current)

  abbrev pub KeepsJoins : Env → Step S → Type 0
  KeepsJoins env (continue w s) = HasFairJoins env w
  KeepsJoins env (halt f) = HasFairJoins env f.work

  after_final_save-EndsSettled :
      (s : S) (w : Work) (saved : Outcome Error S × Heap)
      → IsSettled w.current
      → EndsSettled (halt (after_final_save store s w saved))
  unfolding after_final_save
  after_final_save-EndsSettled s w (ok s', h) done e = (done, refl)
  after_final_save-EndsSettled s w (err x, h) done e = (done, refl)
  after_final_save-EndsSettled s w (panic, h) done e = absurd (cc)

  fail_instance-EndsSettled :
      (env : Env) (x : Error) (s : S) (w : Work) (saved : Outcome Error S × Heap)
      → EndsSettled (halt (after_failed_save store env x s w saved))
  unfolding after_failed_save
  fail_instance-EndsSettled env x s w (ok s', h) e = absurd (cc)
  fail_instance-EndsSettled env x s w (err y, h) e = absurd (cc)
  fail_instance-EndsSettled env x s w (panic, h) e = absurd (cc)

  after_save-EndsSettled :
      (s : S) (w : Work) (saved : Outcome Error S × Heap) → EndsSettled (after_save store s w saved)
  unfolding after_save
  after_save-EndsSettled s w (ok s', h) = tt
  after_save-EndsSettled s w (err x, h) = λ e. absurd (cc)
  after_save-EndsSettled s w (panic, h) = λ e. absurd (cc)

  after_token-EndsSettled :
      (env : Env) (s : S) (r : Result) → EndsSettled (after_token store env s r)
  unfolding after_token fail_instance
  after_token-EndsSettled env s (ok _, w) = after_save-EndsSettled s (next_version w) _
  after_token-EndsSettled env s (err x, w) = fail_instance-EndsSettled env x s (mark_failed x w) _
  after_token-EndsSettled env s (panic, w) = λ e. absurd (cc)

  step_token-EndsSettled :
      (env : Env) (i : ℕ) (w : Work) (s : S) (found : Option ExecutionToken)
      → EndsSettled (step_token store env i w s found)
  unfolding step_token
  step_token-EndsSettled env i w s none = λ e. absurd (cc)
  step_token-EndsSettled env i w s (some t) =
      after_token-EndsSettled env s (execute_ready_token env i t w)

  step_at-EndsSettled :
      (env : Env) (w : Work) (s : S) (index : Option ℕ)
      → first_ready_token_index w.current.tokens ≡ index
      → EndsSettled (step_at store env w s index)
  unfolding step_at settle
  step_at-EndsSettled env w s none idle =
      let final = finalize_blocked_instance env w in
      after_final_save-EndsSettled s final (store.save final.current s final.heap) (
        finalize_blocked_instance-IsSettled env w
          (first_ready_token_index-none w.current.tokens idle))
  step_at-EndsSettled env w s (some i) found =
      step_token-EndsSettled env i w s (token_at i w.current.tokens)

  -- A round of RunUntilBlocked that ends the loop without an error returns an instance in which no token
  -- is ready, and whose status is waiting if a token waits and completed if none does.
  pub step-IsSettled :
      (env : Env) (w : Work) (s : S) (f : Finish S)
      → step store env w s ≡ halt f
      → f.outcome ≡ ok tt
      → IsSettled f.work.current × (f.returned ≡ some f.work.current)
  unfolding step
  step-IsSettled env w s f e =
      subst EndsSettled e
        (step_at-EndsSettled env w s (first_ready_token_index w.current.tokens) refl)

  settle-KeepsJoins :
      (env : Env) (w : Work) (s : S)
      → HasFairJoins env w
      → KeepsJoins env (halt (settle store env w s))
  unfolding settle finalize_blocked_instance after_final_save emit
  settle-KeepsJoins env w s all =
      let final = finalize_blocked_instance env w in
      saved final (store.save final.current s final.heap)
        (if-case (HasFairJoins env) (has_waiting_token w.current.tokens) all all)
    where
      saved :
          (w' : Work) (r : Outcome Error S × Heap)
          → HasFairJoins env w'
          → HasFairJoins env (after_final_save store s w' r).work
      saved w' (ok s', h) fair = fair
      saved w' (err x, h) fair = fair
      saved w' (panic, h) fair = fair

  fail_instance-KeepsJoins :
      (env : Env) (x : Error) (w : Work) (s : S) (r : Outcome Error S × Heap)
      → HasFairJoins env w
      → HasFairJoins env (after_failed_save store env x s w r).work
  unfolding after_failed_save emit
  fail_instance-KeepsJoins env x w s (ok s', h) fair = fair
  fail_instance-KeepsJoins env x w s (err y, h) fair = fair
  fail_instance-KeepsJoins env x w s (panic, h) fair = fair

  after_save-KeepsJoins :
      (env : Env) (w : Work) (s : S) (r : Outcome Error S × Heap)
      → HasFairJoins env w
      → KeepsJoins env (after_save store s w r)
  unfolding after_save
  after_save-KeepsJoins env w s (ok s', h) fair = fair
  after_save-KeepsJoins env w s (err x, h) fair = fair
  after_save-KeepsJoins env w s (panic, h) fair = fair

  after_token-KeepsJoins :
      (env : Env) (s : S) (r : Result)
      → HasFairJoins env r.1
      → KeepsJoins env (after_token store env s r)
  unfolding after_token fail_instance
  after_token-KeepsJoins env s (ok _, w) fair = after_save-KeepsJoins env (next_version w) s _ fair
  after_token-KeepsJoins env s (err x, w) fair =
      fail_instance-KeepsJoins env x (mark_failed x w) s _ fair
  after_token-KeepsJoins env s (panic, w) fair = fair

  step_token-KeepsJoins :
      (env : Env) (i : ℕ) (w : Work) (s : S) (found : Option ExecutionToken)
      → token_at i w.current.tokens ≡ found
      → ((t : ExecutionToken) → found ≡ some t → t.status ≡ TokenStatus.ready)
      → HasFairJoins env w
      → KeepsJoins env (step_token store env i w s found)
  unfolding step_token
  step_token-KeepsJoins env i w s none there ready all = all
  step_token-KeepsJoins env i w s (some t) there ready all =
      after_token-KeepsJoins env s (execute_ready_token env i t w)
        (execute_ready_token-HasFairJoins env i t w there (ready t refl) all)

  step_at-KeepsJoins :
      (env : Env) (w : Work) (s : S) (index : Option ℕ)
      → first_ready_token_index w.current.tokens ≡ index
      → HasFairJoins env w
      → KeepsJoins env (step_at store env w s index)
  unfolding step_at
  step_at-KeepsJoins env w s none e all = settle-KeepsJoins env w s all
  step_at-KeepsJoins env w s (some i) e all =
      step_token-KeepsJoins env i w s (token_at i w.current.tokens) refl
        (λ t found. first_ready_token_index-ready w.current.tokens i t e found) all

  -- A round of RunUntilBlocked, however it ends, keeps that the state of each join stands under the join's
  -- id and expects the sources of the edges to it, in their order; that it is completed only if all of them
  -- are among those that have arrived; and that each node that has arrived has sent a token, which the
  -- instance holds as a consumed one of the join.
  pub step-KeepsJoins :
      (env : Env) (w : Work) (s : S) → HasFairJoins env w → KeepsJoins env (step store env w s)
  unfolding step
  step-KeepsJoins env w s =
      step_at-KeepsJoins env w s (first_ready_token_index w.current.tokens) refl
