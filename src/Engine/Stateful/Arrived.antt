-- ===== src/Engine/Stateful/Arrived.antt =====
-- core/flowengine/stateful_executor.go: executeReadyToken, the join states and the tokens that have come to
-- the joins.
use flowanything.Common.{
  ℕ, suc, zero, String, ◌≡◌, ◌≢◌, refl, sym, ap, ◌∙◌, subst, inl, inr, true, Bool-cases, Option,
  none, some, some-eq, List, [], ◌∷◌, In, In-append_left, ok, err, panic, eq_iff,
}
use flowanything.Common.Assoc.{lookup}
use flowanything.Engine.Spec.{NodeSpec}
use flowanything.Engine.Graph.{index_nodes}
use flowanything.Engine.Graph.Index.{index_nodes-id}
use flowanything.Engine.Instance.{TokenStatus, ExecutionToken}
use flowanything.Engine.Stateful.Base.{
  Env, Work, is_ready, shift, token_at, first_ready_token_index, update_at,
}
use flowanything.Engine.Stateful.Token.{Result, execute_ready_token}
use flowanything.Engine.Stateful.Frame.{tokens, Changed, Moved}
use flowanything.Engine.Stateful.Next.{Executed}
use flowanything.Engine.Stateful.Moves.{execute_ready_token-Executed}
use flowanything.Engine.Stateful.Joins.{JoinsAreFair, Comes, execute_ready_token-JoinsAreFair}

-- Among the tokens is a consumed one at the node `id` that came from the node `n`.
abbrev pub HasArrived : List ExecutionToken → String → String → Type 0
HasArrived ts id n =
    (t : ExecutionToken) × In t ts
    × (t.node_id ≡ id)
    × (t.source_node_id ≡ n)
    × (t.status ≡ TokenStatus.consumed)

-- The join states are fair, and what they hold as arrived has come by a token of the instance.
abbrev pub HasFairJoins : Env → Work → Type 0
HasFairJoins env w = JoinsAreFair (HasArrived (tokens w)) env w

In-update_other :
    (f : ExecutionToken → ExecutionToken) (i : ℕ) (ts : List ExecutionToken) (t u : ExecutionToken)
    → token_at i ts ≡ some t
    → u ≢ t
    → In u ts
    → In u (update_at i f ts)
unfolding token_at update_at
In-update_other f i [] t u found other m = elim m [ ]
In-update_other f zero (v ∷ ts) t u found other (inl same) = elim (other (same ∙ some-eq found)) [ ]
In-update_other f zero (v ∷ ts) t u found other (inr m) = inr m
In-update_other f (suc i) (v ∷ ts) t u found other (inl same) = inl same
In-update_other f (suc i) (v ∷ ts) t u found other (inr m) =
    inr (In-update_other f i ts t u found other m)

In-update_at :
    (f : ExecutionToken → ExecutionToken) (i : ℕ) (ts : List ExecutionToken) (t : ExecutionToken)
    → token_at i ts ≡ some t
    → In (f t) (update_at i f ts)
unfolding token_at update_at
In-update_at f zero [] t found = absurd (cc)
In-update_at f (suc i) [] t found = absurd (cc)
In-update_at f zero (v ∷ ts) t found = inl (ap f (sym (some-eq found)))
In-update_at f (suc i) (v ∷ ts) t found = inr (In-update_at f i ts t found)

-- A token that was consumed stays so while another one changes.
HasArrived-Changed :
    {source : String} {i : ℕ} {f : ExecutionToken → ExecutionToken} {nexts : List String}
    {ts ts' : List ExecutionToken} (t : ExecutionToken) (id n : String)
    → Changed source i f nexts ts ts'
    → token_at i ts ≡ some t
    → t.status ≡ TokenStatus.ready
    → HasArrived ts id n
    → HasArrived ts' id n
HasArrived-Changed {i} {f} {ts} t id n c found ready (u, m, at_node, from_node, consumed) =
    let other : u ≢ t =
      λ same. let status = ap (λ (x : ExecutionToken). x.status) same in absurd (cc) in
    (
      u,
      subst (In u) (sym c.same)
          (In-append_left u (update_at i f ts) c.new (In-update_other f i ts t u found other m)),
      at_node,
      from_node,
      consumed,
    )

HasArrived-Moved :
    {source : String} {i : ℕ} {nexts : List String} {ts ts' : List ExecutionToken}
    (t : ExecutionToken)
    → Moved source i TokenStatus.consumed nexts ts ts'
    → token_at i ts ≡ some t
    → HasArrived ts' t.node_id t.source_node_id
HasArrived-Moved {i} {ts} t m found =
    let (same_id, same_node, same_source) = m.changed.keeps t in
    (
      m.change t,
      subst (In (m.change t)) (sym m.changed.same) (
          In-append_left (m.change t) (update_at i m.change ts) m.changed.new
            (In-update_at m.change i ts t found)),
      same_node,
      same_source,
      m.becomes t,
    )

Executed-HasArrived :
    (env : Env) (i : ℕ) (t : ExecutionToken) (w : Work) (r : Result) (id n : String)
    → Executed env t.node_id i w r
    → token_at i (tokens w) ≡ some t
    → t.status ≡ TokenStatus.ready
    → HasArrived (tokens w) id n
    → HasArrived (tokens r.1) id n
Executed-HasArrived env i t w (ok _, w') id n (node, there, inl (runs, (nexts, next, m))) =
    HasArrived-Changed t id n m.changed
Executed-HasArrived env i t w (ok _, w') id n (node, there, inr (waits, m)) =
    HasArrived-Changed t id n m.changed
Executed-HasArrived env i t w (err _, w') id n (f, c) = HasArrived-Changed t id n c
Executed-HasArrived env i t w (panic, w') id n (f, c) = HasArrived-Changed t id n c

-- The token of a join that ends without an error is consumed, and so has arrived.
Executed-Comes :
    (env : Env) (i : ℕ) (t : ExecutionToken) (w : Work) (node : NodeSpec) (r : Result)
    → lookup t.node_id (index_nodes env.spec.nodes) ≡ some node
    → token_at i (tokens w) ≡ some t
    → Executed env t.node_id i w r
    → Comes (HasArrived (tokens r.1)) node t.source_node_id r
Executed-Comes env i t w node (ok _, w') named found (other, there, inl (runs, (nexts, next, m)))
      joins e =
    subst (λ (id : String). HasArrived (tokens w') id t.source_node_id)
      (sym (index_nodes-id env.spec.nodes t.node_id node named)) (HasArrived-Moved t m found)
Executed-Comes env i t w node (ok _, w') named found (other, there, inr (waits, m)) joins e =
    let same : other ≡ node = some-eq (sym there ∙ named) in
    let type_same = ap (λ (x : NodeSpec). x.type) same in
    let literal = (eq_iff "control.wait" "control.join").1 (sym waits ∙ type_same ∙ joins) in
    absurd (cc)
Executed-Comes env i t w node (err x, w') named found p joins e = absurd (cc)
Executed-Comes env i t w node (panic, w') named found p joins e = absurd (cc)

-- More has arrived.
JoinsAreFair-more :
    (before after : String → String → Type 0) (env : Env) (w : Work)
    → ((id n : String) → before id n → after id n)
    → JoinsAreFair before env w
    → JoinsAreFair after env w
JoinsAreFair-more before after env w more all id j found =
    let (named, expects, done, came) = all id j found in
    (named, expects, done, λ n m. more id n (came n m))

pub execute_ready_token-HasFairJoins :
    (env : Env) (i : ℕ) (t : ExecutionToken) (w : Work)
    → token_at i (tokens w) ≡ some t
    → t.status ≡ TokenStatus.ready
    → HasFairJoins env w
    → HasFairJoins env (execute_ready_token env i t w).1
execute_ready_token-HasFairJoins env i t w found ready all =
    let r = execute_ready_token env i t w in
    let executed = execute_ready_token-Executed env i t w in
    let after = HasArrived (tokens r.1) in
    execute_ready_token-JoinsAreFair after env i t w
      (λ node named. Executed-Comes env i t w node r named found executed)
      (JoinsAreFair-more (HasArrived (tokens w)) after env w
        (λ id n. Executed-HasArrived env i t w r id n executed found ready) all)

shift-some : (o : Option ℕ) (i : ℕ) → shift o ≡ some i → (j : ℕ) × (o ≡ some j) × (i ≡ suc j)
shift-some none i e = absurd (cc)
shift-some (some j) i e = (j, refl, sym (some-eq e))

is_ready-true : (s : TokenStatus) → is_ready s ≡ true → s ≡ TokenStatus.ready
is_ready-true TokenStatus.ready e = refl
is_ready-true TokenStatus.running e = absurd (cc)
is_ready-true TokenStatus.waiting e = absurd (cc)
is_ready-true TokenStatus.consumed e = absurd (cc)
is_ready-true TokenStatus.cancelled e = absurd (cc)

-- The token at the index that firstReadyTokenIndex returns is ready.
pub first_ready_token_index-ready :
    (ts : List ExecutionToken) (i : ℕ) (t : ExecutionToken)
    → first_ready_token_index ts ≡ some i
    → token_at i ts ≡ some t
    → t.status ≡ TokenStatus.ready
unfolding first_ready_token_index token_at
first_ready_token_index-ready [] i t e found = absurd (cc)
first_ready_token_index-ready (u ∷ ts) i t e found = elim (Bool-cases (is_ready u.status)) [
  | inl now ↦
      let first : 0 ≡ i = some-eq (rw now at e) in
      let here : some u ≡ some t =
        subst (λ (k : ℕ). token_at k (u ∷ ts) ≡ some t) (sym first) found in
      subst (λ (v : ExecutionToken). v.status ≡ TokenStatus.ready) (some-eq here)
        (is_ready-true u.status now)
  | inr later ↦
      let (j, there, next) = shift-some (first_ready_token_index ts) i (rw later at e) in
      first_ready_token_index-ready ts j t there
        (subst (λ (k : ℕ). token_at k (u ∷ ts) ≡ some t) next found)
]
