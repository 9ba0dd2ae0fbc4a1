-- ===== src/Engine/Stateful/Resumed.antt =====
-- core/flowengine/stateful_executor.go: the tokens under the loop of Resume.
use flowanything.Common.{
  ℕ, suc, String, ◌≡◌, refl, sym, subst, ap, ◌∙◌, Bool, true, false, Option, none, some, List, [],
  ◌∷◌, ◌++◌, append_assoc, append-nil, length, length-append, Outcome, ok, err, panic, arith,
}
use flowanything.Common.Assoc.{lookup}
use flowanything.Engine.Values.{Error}
use flowanything.Engine.Heap.{alloc}
use flowanything.Engine.Spec.{NodeSpec}
use flowanything.Engine.Graph.{index_nodes}
use flowanything.Engine.Graph.Index.{index_nodes-id, targets_of, outgoing_edges-targets_of}
use flowanything.Engine.Mapping.{apply_context_writes}
use flowanything.Engine.Instance.{TokenStatus, ExecutionToken, ExternalEvent}
use flowanything.Engine.Stateful.Base.{Env, Work, emit, update_at, set_status, edit_node_state}
use flowanything.Engine.Stateful.Token.{successors}
use flowanything.Engine.Stateful.Frame.{tokens, Changed, FreshFor, Changed-append, Keeps-set_status}
use flowanything.Engine.Stateful.Resume.{
  Matched, event_entries, is_matched, release_token, after_resume_writes, resume_token,
  resume_tokens, resume_one,
}
use flowanything.Engine.Stateful.Waits.{WaitsFor, is_matched_iff}

-- What becomes of the tokens: the ones that are there at the start, what they are at the end, and the
-- tokens that are added. A token that does not wait for the event stays as it is; one that does is
-- consumed, and adds one ready token for each target of the edges from its node, in their order.
pub data Resumes (env : Env) (e : ExternalEvent)
    : List ExecutionToken → List ExecutionToken → List ExecutionToken → Type 0 where
  nothing : Resumes env e [] [] []
  passed :
      (t : ExecutionToken) {ts us new : List ExecutionToken}
      → ¬ (WaitsFor e t)
      → Resumes env e ts us new
      → Resumes env e (t ∷ ts) (t ∷ us) new
  released :
      (t : ExecutionToken) {ts us : List ExecutionToken} (now later : List ExecutionToken)
      → WaitsFor e t
      → FreshFor t.node_id (targets_of t.node_id env.spec.edges) now
      → Resumes env e ts us later
      → Resumes env e (t ∷ ts) (set_status TokenStatus.consumed t ∷ us) (now ++ later)

update_at-append :
    (pre rest : List ExecutionToken) (t : ExecutionToken) (f : ExecutionToken → ExecutionToken)
    → update_at (length pre) f (pre ++ t ∷ rest) ≡ pre ++ f t ∷ rest
unfolding update_at
update_at-append [] rest t f = refl
update_at-append (p ∷ pre) rest t f =
    ap (λ (ts : List ExecutionToken). p ∷ ts) (update_at-append pre rest t f)

-- The token at `i` is consumed, and tokens for the targets of its node follow.
abbrev Released : Env → String → ℕ → Work → Work → Type 0
Released env id i w w' =
    (new : List ExecutionToken) × (tokens w'
      ≡ update_at i (set_status TokenStatus.consumed) (tokens w) ++ new)
    × FreshFor id (targets_of id env.spec.edges) new

release_token-Released :
    (env : Env) (i : ℕ) (node : NodeSpec) (output : Option ℕ) (w : Work)
    → Released env node.id i w (release_token env i node output w)
unfolding release_token edit_node_state emit
release_token-Released env i node output w =
    let nexts = successors env node.id in
    let c : Changed node.id i (set_status TokenStatus.consumed) nexts (tokens w)
        (tokens (release_token env i node output w)) =
      Changed-append env node.id nexts _ refl (Keeps-set_status TokenStatus.consumed) in
    (
      c.new,
      c.same,
      subst (λ (ids : List String). FreshFor node.id ids c.new)
          (outgoing_edges-targets_of env.spec.edges node.id) c.fresh,
    )

abbrev IfOk : Env → String → ℕ → Work → Outcome Error (Unit {0}) → Work → Type 0
IfOk env id i w (ok _) w' = Released env id i w w'
IfOk env id i w (err _) w' = Unit
IfOk env id i w panic w' = Unit

after_resume_writes-IfOk :
    (env : Env) (i : ℕ) (node : NodeSpec) (output : Option ℕ) (written : Outcome Error (Unit {0}))
    (w : Work)
    → IfOk env node.id i w
        (after_resume_writes env i node output written w).0
        (after_resume_writes env i node output written w).1
unfolding after_resume_writes
after_resume_writes-IfOk env i node output (ok _) w = release_token-Released env i node output w
after_resume_writes-IfOk env i node output (err e) w = tt
after_resume_writes-IfOk env i node output panic w = tt

resume_token-IfOk :
    (env : Env) (e : ExternalEvent) (i : ℕ) (t : ExecutionToken) (found : Option NodeSpec)
    (w : Work)
    → ((node : NodeSpec) → found ≡ some node → node.id ≡ t.node_id)
    → IfOk env t.node_id i w (resume_token env e i t found w).0 (resume_token env e i t found w).1
unfolding resume_token
resume_token-IfOk env e i t none w named = tt
resume_token-IfOk env e i t (some node) w named =
    let h = alloc (event_entries e) w.heap in
    let (written, h') =
      apply_context_writes w.current.context (some w.heap.next) node.output_writes h in
    let r = after_resume_writes env i node (some w.heap.next) written (record w { heap = h' }) in
    subst (λ (id : String). IfOk env id i w r.0 r.1) (named node refl)
      (after_resume_writes-IfOk env i node (some w.heap.next) written (record w { heap = h' }))

-- What the loop leaves, from a state with the tokens `pre`, the tokens `ts` to come and `extra` ones.
abbrev pub Resumed :
    Env
    → ExternalEvent
    → List ExecutionToken
    → List ExecutionToken
    → List ExecutionToken
    → Outcome Error Bool
    → Work
    → Type 0
Resumed env e pre ts extra (ok _) w =
    (us : List ExecutionToken) × (new : List ExecutionToken) × (tokens w
      ≡ pre ++ (us ++ (extra ++ new)))
    × Resumes env e ts us new
Resumed env e pre ts extra (err _) w = Unit
Resumed env e pre ts extra panic w = Unit

-- A token that stays as it is.
Resumed-pass :
    (env : Env) (e : ExternalEvent) (pre ts extra : List ExecutionToken) (t : ExecutionToken)
    (r : Outcome Error Bool) (w : Work)
    → ¬ (WaitsFor e t)
    → Resumed env e (pre ++ t ∷ []) ts extra r w
    → Resumed env e pre (t ∷ ts) extra r w
Resumed-pass env e pre ts extra t (ok m) w idle (us, new, same, rest) =
    (t ∷ us, new, same ∙ append_assoc pre (t ∷ []) (us ++ (extra ++ new)), passed t idle rest)
Resumed-pass env e pre ts extra t (err x) w idle p = tt
Resumed-pass env e pre ts extra t panic w idle p = tt

-- A token that is consumed, with the tokens `now` that it adds.
Resumed-release :
    (env : Env) (e : ExternalEvent) (pre ts extra now : List ExecutionToken) (t : ExecutionToken)
    (r : Outcome Error Bool) (w : Work)
    → WaitsFor e t
    → FreshFor t.node_id (targets_of t.node_id env.spec.edges) now
    → Resumed env e (pre ++ set_status TokenStatus.consumed t ∷ []) ts (extra ++ now) r w
    → Resumed env e pre (t ∷ ts) extra r w
Resumed-release env e pre ts extra now t (ok m) w waits fresh (us, new, same, rest) =
    let t' = set_status TokenStatus.consumed t in
    (
      t' ∷ us,
      now ++ new,
      same
          ∙ append_assoc pre (t' ∷ []) (us ++ ((extra ++ now) ++ new))
          ∙ ap (λ (ts' : List ExecutionToken). pre ++ t' ∷ (us ++ ts'))
              (append_assoc extra now new),
      released t now new waits fresh rest,
    )
Resumed-release env e pre ts extra now t (err x) w waits fresh p = tt
Resumed-release env e pre ts extra now t panic w waits fresh p = tt

-- The tokens after the first of those to come was consumed.
released-tokens :
    (pre ts extra now : List ExecutionToken) (t : ExecutionToken) (i : ℕ) (w w' : Work)
    → i ≡ length pre
    → tokens w ≡ pre ++ (t ∷ ts ++ extra)
    → tokens w' ≡ update_at i (set_status TokenStatus.consumed) (tokens w) ++ now
    → tokens w' ≡ (pre ++ set_status TokenStatus.consumed t ∷ []) ++ (ts ++ (extra ++ now))
released-tokens pre ts extra now t i w w' at_ same changed =
    let mark = set_status TokenStatus.consumed in
    changed
    ∙ ap (λ (us : List ExecutionToken). update_at i mark us ++ now) same
    ∙ ap (λ (k : ℕ). update_at k mark (pre ++ t ∷ (ts ++ extra)) ++ now) at_
    ∙ ap (λ (us : List ExecutionToken). us ++ now) (update_at-append pre (ts ++ extra) t mark)
    ∙ append_assoc pre (mark t ∷ (ts ++ extra)) now
    ∙ ap (λ (us : List ExecutionToken). pre ++ mark t ∷ us) (append_assoc ts extra now)
    ∙ sym (append_assoc pre (mark t ∷ []) (ts ++ (extra ++ now)))

abbrev pub ResumedBy :
    Env
    → ExternalEvent
    → List ExecutionToken
    → List ExecutionToken
    → List ExecutionToken
    → Matched
    → Type 0
ResumedBy env e pre ts extra (r, w) = Resumed env e pre ts extra r w

resume_one-ResumedBy :
    (env : Env) (e : ExternalEvent) (pre ts extra : List ExecutionToken) (t : ExecutionToken)
    (i : ℕ) (hit m : Bool) (w : Work) (r : Outcome Error (Unit {0}) × Work)
    (rest : Bool → Work → Matched)
    → is_matched e t ≡ hit
    → i ≡ length pre
    → tokens w ≡ pre ++ (t ∷ ts ++ extra)
    → IfOk env t.node_id i w r.0 r.1
    → ((t' : ExecutionToken) (extra' : List ExecutionToken) (k : Bool) (u : Work)
        → tokens u ≡ (pre ++ t' ∷ []) ++ (ts ++ extra')
        → ResumedBy env e (pre ++ t' ∷ []) ts extra' (rest k u))
    → ResumedBy env e pre (t ∷ ts) extra (resume_one hit m w r rest)
unfolding resume_one
resume_one-ResumedBy env e pre ts extra t i false m w r rest miss at_ same step later =
    Resumed-pass env e pre ts extra t (rest m w).0 (rest m w).1
      (λ waits. let hit = (is_matched_iff e t).1 waits in absurd (cc))
      (later t extra m w (same ∙ sym (append_assoc pre (t ∷ []) (ts ++ extra))))
resume_one-ResumedBy env e pre ts extra t i true m w (ok _, w') rest hit at_ same step later =
    let (now, changed, fresh) = step in
    Resumed-release env e pre ts extra now t (rest true w').0 (rest true w').1
      ((is_matched_iff e t).0 hit) fresh
      (later (set_status TokenStatus.consumed t) (extra ++ now) true w'
        (released-tokens pre ts extra now t i w w' at_ same changed))
resume_one-ResumedBy env e pre ts extra t i true m w (err x, w') rest hit at_ same step later = tt
resume_one-ResumedBy env e pre ts extra t i true m w (panic, w') rest hit at_ same step later = tt

next_index :
    (i : ℕ) (pre : List ExecutionToken) (t : ExecutionToken)
    → i ≡ length pre
    → suc i ≡ length (pre ++ t ∷ [])
next_index i pre t at_ = omega (arith, at_, length-append pre (t ∷ []))

resume_tokens-ResumedBy :
    (env : Env) (e : ExternalEvent) (ts pre extra : List ExecutionToken) (i : ℕ) (m : Bool)
    (w : Work)
    → i ≡ length pre
    → tokens w ≡ pre ++ (ts ++ extra)
    → ResumedBy env e pre ts extra (resume_tokens env e i ts m w)
unfolding resume_tokens
resume_tokens-ResumedBy env e [] pre extra i m w at_ same =
    ([], [], same ∙ ap (λ (us : List ExecutionToken). pre ++ us) (sym (append-nil extra)), nothing)
resume_tokens-ResumedBy env e (t ∷ ts) pre extra i m w at_ same =
    let found = lookup t.node_id (index_nodes env.spec.nodes) in
    resume_one-ResumedBy env e pre ts extra t i (is_matched e t) m w
      (resume_token env e i t found w) (λ k u. resume_tokens env e (suc i) ts k u) refl at_ same
      (resume_token-IfOk env e i t found w
        (λ node there. index_nodes-id env.spec.nodes t.node_id node there))
      (λ t' extra' k u.
        resume_tokens-ResumedBy env e ts (pre ++ t' ∷ []) extra' (suc i) k u
          (next_index i pre t' at_))

-- The loop of Resume, when it ends without an error, leaves every token that does not wait for the event
-- as it was and consumes every token that does, where a token waits for the event if it waits and one of
-- its conditions has no type or the event's and no key or the event's. Behind the tokens that were there
-- it has added, for each consumed one in order, one ready token for each target of the edges from its
-- node, in their order, with the node as the source, and no others.
pub resume_tokens-Resumed :
    (env : Env) (e : ExternalEvent) (w : Work)
    → ResumedBy env e [] (tokens w) [] (resume_tokens env e 0 (tokens w) false w)
resume_tokens-Resumed env e w =
    resume_tokens-ResumedBy env e (tokens w) [] [] 0 false w refl (sym (append-nil (tokens w)))
