-- ===== src/Knowledge/Memory/Tenants.antt =====
-- internal/knowledge/infrastructure/memory_store.go: the prefixes that keep tenants apart.
use Prim.Native.String.append
use text.Mathlib.TextLemmas.{append_assoc as text_assoc}
use flowanything.Common.{
  String, ◌≡◌, refl, ap, ◌∙◌, true, false, not, ◌&&◌, inl, inr, List, [], ◌∷◌, In, In-append_left,
  In-append_right, if-case, concat, starts, arith,
}
use flowanything.Common.Assoc.{lookup}
use flowanything.Knowledge.Types.{Base, Query, Chunk}
use flowanything.Knowledge.Memory.{
  MemoryStore, knowledge_bucket_key, is_disabled, tenant_chunks, candidate_chunks,
}

starts_empty : (s : String) → starts s "" ≡ true
unfolding starts
starts_empty String.[] = refl
starts_empty (String.◌∷◌ c s) = refl

starts-concat : (p s : String) → starts (concat p s) p ≡ true
unfolding starts
starts-concat String.[] s = starts_empty (concat "" s)
starts-concat (String.◌∷◌ c p) s =
    ap (λ (t : String). starts t (String.◌∷◌ c p)) (append.cons c p s)
    ∙ ground (arith, starts-concat p s)

-- A bucket of the tenant t/u stands under the prefix of the tenant t.
starts-knowledge_bucket_key :
    (t u kb : String)
    → starts (knowledge_bucket_key (concat (concat t "/") u) kb) (concat t "/") ≡ true
unfolding knowledge_bucket_key
starts-knowledge_bucket_key t u kb =
    ap (λ (k : String). starts k (concat t "/"))
      (text_assoc (concat (concat t "/") u) "/" kb ∙ text_assoc (concat t "/") u (concat "/" kb))
    ∙ starts-concat (concat t "/") (concat u (concat "/" kb))

-- The loop over all buckets takes every bucket under the prefix that is not of a disabled base.
In-tenant_chunks :
    (prefix : String) (bases : List (String × Base)) (es : List (String × List Chunk))
    (key : String) (cs : List Chunk) (c : Chunk)
    → In (key, cs) es
    → starts key prefix ≡ true
    → is_disabled (lookup key bases) ≡ false
    → In c cs
    → In c (tenant_chunks prefix bases es)
unfolding tenant_chunks
In-tenant_chunks prefix bases [] key cs c there under enabled m = elim there [ ]
In-tenant_chunks prefix bases ((k, ds) ∷ es) key cs c (inl same) under enabled m =
    let key_same : key ≡ k = ap (λ (e : String × List Chunk). e.0) same in
    let chunks_same : cs ≡ ds = ap (λ (e : String × List Chunk). e.1) same in
    rw (← key_same, under, enabled, ← chunks_same) (In-append_left c cs _ m)
In-tenant_chunks prefix bases ((k, ds) ∷ es) key cs c (inr later) under enabled m =
    let rest = In-tenant_chunks prefix bases es key cs c later under enabled m in
    if-case (In c) (starts k prefix && not (is_disabled (lookup k bases)))
      (In-append_right c ds (tenant_chunks prefix bases es) rest) rest

-- A query without knowledge bases, for a tenant t, has among its candidates every chunk of every enabled
-- knowledge base of the tenant t/u, whatever u is and wherever its bucket stands among the others.
pub candidate_chunks-crosses_tenants :
    (q : Query) (s : MemoryStore) (u kb : String) (c : Chunk) (cs : List Chunk)
    → q.kb_ids ≡ []
    → In (knowledge_bucket_key (concat (concat q.tenant_id "/") u) kb, cs) s.chunks
    → is_disabled
        (lookup (knowledge_bucket_key (concat (concat q.tenant_id "/") u) kb) s.knowledge_bases)
      ≡ false
    → In c cs
    → In c (candidate_chunks q s)
unfolding candidate_chunks
candidate_chunks-crosses_tenants q s u kb c cs every stored enabled m =
    let key = knowledge_bucket_key (concat (concat q.tenant_id "/") u) kb in
    rw every (
      In-tenant_chunks (concat q.tenant_id "/") s.knowledge_bases s.chunks key cs c stored
        (starts-knowledge_bucket_key q.tenant_id u kb) enabled m)
