-- ===== src/Engine/Stateful/Frame.antt =====
-- core/flowengine/stateful_executor.go: changes of the tokens of an instance.
use flowanything.Common.{
  ℕ, suc, zero, String, ◌≡◌, refl, sym, ap, ◌∙◌, List, [], ◌∷◌, ◌++◌, append_assoc, append-nil,
}
use flowanything.Engine.Executor.{selected}
use flowanything.Engine.Instance.{TokenStatus, ExecutionToken}
use flowanything.Engine.Stateful.Base.{
  Env, Work, emit, update_at, set_status, new_token, add_token, append_next_tokens,
}

abbrev pub tokens : Work → List ExecutionToken
tokens w = w.current.tokens

-- The shape of a token that appendNextTokens makes.
abbrev pub Fresh : String → String → ExecutionToken → Type 0
Fresh source node t =
    (t.source_node_id ≡ source) × (t.node_id ≡ node) × (t.status ≡ TokenStatus.ready)

-- One fresh token for each name, in order.
abbrev pub FreshFor : String → List String → List ExecutionToken → Type 0
FreshFor source [] ts = ts ≡ []
FreshFor source (n ∷ ns) ts =
    (t : ExecutionToken) × (rest : List ExecutionToken) × (ts ≡ t ∷ rest)
    × Fresh source n t
    × FreshFor source ns rest

pub append_next_tokens-Fresh :
    (env : Env) (source : String) (nexts : List String) (w : Work)
    → (new : List ExecutionToken) × (tokens (append_next_tokens env source nexts w)
        ≡ tokens w ++ new)
      × FreshFor source nexts new
unfolding append_next_tokens add_token new_token emit
append_next_tokens-Fresh env source [] w = ([], sym (append-nil (tokens w)), refl)
append_next_tokens-Fresh env source (n ∷ ns) w =
    let t = new_token env n source w in
    let w1 = emit env (selected source n) (add_token env n source w) in
    let (new, same, fresh) = append_next_tokens-Fresh env source ns w1 in
    (
      t ∷ new,
      same ∙ append_assoc (tokens w) (t ∷ []) new,
      (t, new, refl, (refl, refl, refl), fresh),
    )

pub update_at-twice :
    (f g : ExecutionToken → ExecutionToken) (i : ℕ) (ts : List ExecutionToken)
    → update_at i f (update_at i g ts) ≡ update_at i (λ t. f (g t)) ts
unfolding update_at
update_at-twice f g zero [] = refl
update_at-twice f g (suc i) [] = refl
update_at-twice f g zero (t ∷ ts) = refl
update_at-twice f g (suc i) (t ∷ ts) = ap (λ r. t ∷ r) (update_at-twice f g i ts)

pub update_at-id : (i : ℕ) (ts : List ExecutionToken) → update_at i (λ t. t) ts ≡ ts
unfolding update_at
update_at-id zero [] = refl
update_at-id (suc i) [] = refl
update_at-id zero (t ∷ ts) = refl
update_at-id (suc i) (t ∷ ts) = ap (λ r. t ∷ r) (update_at-id i ts)

-- A change of a token that keeps its names.
abbrev pub Keeps : (ExecutionToken → ExecutionToken) → Type 0
Keeps f =
    (t : ExecutionToken)
    → ((f t).token_id ≡ t.token_id)
      × ((f t).node_id ≡ t.node_id)
      × ((f t).source_node_id ≡ t.source_node_id)

-- The token at `i` has changed by `f`, and there is a fresh token for each of `nexts` behind the others.
pub record Changed (source : String) (i : ℕ) (f : ExecutionToken → ExecutionToken)
    (nexts : List String) (ts ts' : List ExecutionToken) : Type 0 where
  pub new : List ExecutionToken
  pub same : ts' ≡ update_at i f ts ++ new
  pub fresh : FreshFor source nexts new
  pub keeps : Keeps f

-- The token at `i` has the given status now.
pub record Moved (source : String) (i : ℕ) (status : TokenStatus) (nexts : List String)
    (ts ts' : List ExecutionToken) : Type 0 where
  pub change : ExecutionToken → ExecutionToken
  pub becomes : (t : ExecutionToken) → (change t).status ≡ status
  pub changed : Changed source i change nexts ts ts'

pub Changed-after :
    {source : String} {i : ℕ} {f : ExecutionToken → ExecutionToken} {nexts : List String}
    {ts1 ts' : List ExecutionToken} (ts : List ExecutionToken) (g : ExecutionToken → ExecutionToken)
    → ts1 ≡ update_at i g ts
    → Keeps g
    → Changed source i f nexts ts1 ts'
    → Changed source i (λ t. f (g t)) nexts ts ts'
Changed-after {i} {f} ts g first kg c = record {
  new = c.new;
  same =
      c.same
      ∙ ap (λ (us : List ExecutionToken). update_at i f us ++ c.new) first
      ∙ ap (λ (us : List ExecutionToken). us ++ c.new) (update_at-twice f g i ts);
  fresh = c.fresh;
  keeps = λ t. let (a, b, d) = c.keeps (g t) in let (a', b', d') = kg t in (a ∙ a', b ∙ b', d ∙ d');
}

pub Moved-after :
    {source : String} {i : ℕ} {status : TokenStatus} {nexts : List String}
    {ts1 ts' : List ExecutionToken} (ts : List ExecutionToken) (g : ExecutionToken → ExecutionToken)
    → ts1 ≡ update_at i g ts
    → Keeps g
    → Moved source i status nexts ts1 ts'
    → Moved source i status nexts ts ts'
Moved-after ts g first kg m = record {
  change = λ t. m.change (g t);
  becomes = λ t. m.becomes (g t);
  changed = Changed-after ts g first kg m.changed;
}

-- A change of one token, without new ones.
pub Changed-only :
    {i : ℕ} {f : ExecutionToken → ExecutionToken} {ts ts' : List ExecutionToken} (source : String)
    → ts' ≡ update_at i f ts
    → Keeps f
    → Changed source i f [] ts ts'
Changed-only source same kf = record {
  new = [];
  same = same ∙ sym (append-nil _);
  fresh = refl;
  keeps = kf;
}

-- A change of one token, and then tokens for the nodes that come next.
pub Changed-append :
    {i : ℕ} {f : ExecutionToken → ExecutionToken} {ts : List ExecutionToken} (env : Env)
    (source : String) (nexts : List String) (w1 : Work)
    → tokens w1 ≡ update_at i f ts
    → Keeps f
    → Changed source i f nexts ts (tokens (append_next_tokens env source nexts w1))
Changed-append env source nexts w1 same kf =
    let (new, after, fresh) = append_next_tokens-Fresh env source nexts w1 in
    record {
      new = new;
      same = after ∙ ap (λ (us : List ExecutionToken). us ++ new) same;
      fresh = fresh;
      keeps = kf;
    }

pub Keeps-set_status : (status : TokenStatus) → Keeps (set_status status)
Keeps-set_status status t = (refl, refl, refl)
