-- ===== src/Knowledge/Memory/Ranking.antt =====
-- internal/knowledge/infrastructure/memory_store.go: the chunks that Search returns.
use flowanything.Common.{
  ℕ, ◌≤◌, ◌<◌, ◌≡◌, refl, ◌⊎◌, inl, inr, Bool, true, ◌&&◌, List, [], ◌∷◌, ltb, length, take,
  length-take_le, All, In, if-cases, if-case, sort_stable, sort_stable-All, In-sort_stable,
  IsDescending, sort_stable-IsDescending, take-IsDescending, take-keeps_largest, All-take, subst,
  ap, ◌∙◌, arith,
}
use flowanything.Knowledge.Types.{TopK, negative, top, Query, Chunk}
use flowanything.Knowledge.Memory.Score.{Lexis, lexical_score}
use flowanything.Knowledge.Memory.{
  MemoryStore, metadata_matches, score_chunks, limit_chunks, better, candidate_chunks,
  search_chunks,
}

abbrev pub score_of : Chunk → ℕ
score_of c = c.score

module _ (x : Lexis) (q : Query) where
  -- A candidate with its score, that the filters of the query let pass.
  abbrev pub IsHit : List Chunk → Chunk → Type 0
  IsHit candidates r =
      (c : Chunk) × In c candidates
      × (metadata_matches x.sprint c.metadata q.filters ≡ true)
      × (r ≡ record c { score = lexical_score x q.text c.text c.metadata })
      × (0 < r.score)

  IsHit-more : (c : Chunk) (cs rs : List Chunk) → All (IsHit cs) rs → All (IsHit (c ∷ cs)) rs
  IsHit-more c cs [] all = tt
  IsHit-more c cs (r ∷ rs) ((d, m, hit, same, up), all) =
      ((d, inr m, hit, same, up), IsHit-more c cs rs all)

  score_chunks-IsHit : (cs : List Chunk) → All (IsHit cs) (score_chunks x q cs)
  unfolding score_chunks
  score_chunks-IsHit [] = tt
  score_chunks-IsHit (c ∷ cs) =
      let later = IsHit-more c cs (score_chunks x q cs) (score_chunks-IsHit cs) in
      let score = lexical_score x q.text c.text c.metadata in
      if-cases (All (IsHit (c ∷ cs)))
        (metadata_matches x.sprint c.metadata q.filters && ltb 0 score)
        (λ h. ((c, inl refl, ground arith, refl, ground arith), later)) (λ h. later)

  abbrev rescored : Chunk → Chunk
  rescored c = record c { score = lexical_score x q.text c.text c.metadata }

  abbrev passes : Chunk → Bool
  passes c =
      metadata_matches x.sprint c.metadata q.filters
      && ltb 0 (lexical_score x q.text c.text c.metadata)

  passes-true :
      (r c : Chunk)
      → metadata_matches x.sprint c.metadata q.filters ≡ true
      → r ≡ rescored c
      → 0 < r.score
      → passes c ≡ true
  passes-true r c matches same positive = let score = ap score_of same in ground arith

  In-score_chunks : (r : Chunk) (cs : List Chunk) → IsHit cs r → In r (score_chunks x q cs)
  unfolding score_chunks
  In-score_chunks r (c ∷ cs) (d, inl e, matches, same, positive) =
      let ok_c = subst (λ (k : Chunk). passes k ≡ true) e (passes-true r d matches same positive) in
      if-cases (In r) (passes c) (λ h. inl (same ∙ ap rescored e)) (λ h. absurd (cc))
  In-score_chunks r (c ∷ cs) (d, inr m, matches, same, positive) =
      let later = In-score_chunks r cs (d, m, matches, same, positive) in
      if-case (In r) (passes c) (inr later) later
  In-score_chunks r [] (d, m, matches, same, positive) = elim m [ ]

-- The number of chunks that the query allows, where it gives one.
abbrev pub IsWithin : TopK → List Chunk → Type 0
IsWithin (negative n) cs = Unit
IsWithin (top n) cs = 0 < n → length cs ≤ n

limit_chunks-IsWithin : (k : TopK) (cs : List Chunk) → IsWithin k (limit_chunks k cs)
unfolding limit_chunks
limit_chunks-IsWithin (negative n) cs = tt
limit_chunks-IsWithin (top n) cs = λ h.
    if-cases (λ (rs : List Chunk). length rs ≤ n) (ltb 0 n && ltb n (length cs))
      (λ e. length-take_le n cs) (λ e. ground arith)

-- limit_chunks is a prefix: what holds of all prefixes holds of it.
limit_chunks-prefix :
    (P : List Chunk → Type 0) (k : TopK) (cs : List Chunk)
    → P cs
    → ((n : ℕ) → P (take n cs))
    → P (limit_chunks k cs)
unfolding limit_chunks
limit_chunks-prefix P (negative n) cs whole cut = whole
limit_chunks-prefix P (top n) cs whole cut = if-case P (ltb 0 n && ltb n (length cs)) (cut n) whole

-- What Search promises of the chunks that it returns, for the candidates of the query.
pub record IsRanked (x : Lexis) (q : Query) (candidates rs : List Chunk) : Type 0 where
  pub hits : All (IsHit x q candidates) rs
  pub best_first : IsDescending score_of rs
  pub within : IsWithin q.top_k rs
  pub best :
      (r : Chunk) → IsHit x q candidates r → In r rs ⊎ All (λ (y : Chunk). r.score ≤ y.score) rs

-- Search returns hits only: candidates that pass the filters, with their positive scores; the best come
-- first; there are at most as many as a positive top_k allows; and a hit that is left out is not better
-- than any that is returned.
pub search_chunks-IsRanked :
    (x : Lexis) (q : Query) (s : MemoryStore)
    → IsRanked x q (candidate_chunks q s) (search_chunks x q s).chunks
unfolding search_chunks
search_chunks-IsRanked x q s =
    let candidates = candidate_chunks q s in
    let scored = score_chunks x q candidates in
    let sorted = sort_stable better scored in
    let hits =
      sort_stable-All better (IsHit x q candidates) scored (score_chunks-IsHit x q candidates) in
    let order = sort_stable-IsDescending score_of scored in
    record {
      hits =
          limit_chunks-prefix (All (IsHit x q candidates)) q.top_k sorted hits
            (λ n. All-take (IsHit x q candidates) n sorted hits);
      best_first =
          limit_chunks-prefix (IsDescending score_of) q.top_k sorted order
            (λ n. take-IsDescending score_of n sorted order);
      within = limit_chunks-IsWithin q.top_k sorted;
      best = λ r hit.
          let there = In-sort_stable better r scored (In-score_chunks x q r candidates hit) in
          limit_chunks-prefix
            (λ (rs : List Chunk). In r rs ⊎ All (λ (y : Chunk). r.score ≤ y.score) rs) q.top_k
            sorted (inl there) (λ n. take-keeps_largest score_of n sorted r order there);
    }
