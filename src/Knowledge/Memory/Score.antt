-- ===== src/Knowledge/Memory/Score.antt =====
-- internal/knowledge/infrastructure/memory_store.go: the lexical score of a chunk. Scores are whole
-- numbers, as the sums of float64 in the source are.
use Prim.Native.Char.{Char, code}
use flowanything.Common.{
  ℕ, suc, zero, ◌+◌, ◌-◌, String, Bool, true, false, ◌&&◌, Option, some, List, [], ◌∷◌, ◌++◌, ◌==◌,
  eqb, leb, ltb, length, trim_space, contains_text, if◌then◌else◌,
}
use flowanything.Common.Assoc.{lookup}
use flowanything.Engine.Values.{Value, str, Entries}
use flowanything.Knowledge.Chunker.{runes, text_of}

-- What the score uses of the standard library's Unicode tables and of fmt: strings.ToLower, the
-- characters at which queryTerms splits, and fmt.Sprint.
pub record Lexis : Type 0 where
  pub to_lower : String → String
  pub is_separator : Char → Bool
  pub sprint : Value → String

-- toString
unfoldable pub to_string : (Value → String) → Value → String
to_string sprint (str s) = s
to_string sprint v = sprint v

begins : List Char → List Char → Bool
begins s [] = true
begins [] (p ∷ ps) = false
begins (c ∷ s) (p ∷ ps) = let rest = begins s ps in eqb (code c) (code p) && rest

-- strings.Count, for a part that is not empty: what is found is skipped.
count_from : ℕ → List Char → List Char → ℕ
unfolding begins
count_from skip [] part = 0
count_from (suc skip) (c ∷ s) part = count_from skip s part
count_from zero (c ∷ s) part =
    let found = count_from (length part - 1) s part in
    let missed = count_from 0 s part in if begins (c ∷ s) part then suc found else missed

-- []string of the runs between separators: strings.FieldsFunc
end_field : List Char → List String → List String
end_field [] fields = fields
end_field (c ∷ cs) fields = text_of (c ∷ cs) ∷ fields

-- The run that a text starts with, and the fields behind it.
fields_from : (Char → Bool) → List Char → List Char × List String
unfolding end_field
fields_from sep [] = ([], [])
fields_from sep (c ∷ s) =
    let (run, fields) = fields_from sep s in
    if sep c then ([], end_field run fields) else (c ∷ run, fields)

unfoldable pub fields_func : (Char → Bool) → String → List String
unfolding fields_from end_field runes text_of
fields_func sep s = let (run, fields) = fields_from sep (runes s) in end_field run fields

-- The pairs of neighbours: string(runes[i:i+2])
unfoldable pub pairs : List Char → List String
unfolding text_of
pairs [] = []
pairs (a ∷ []) = []
pairs (a ∷ b ∷ s) = text_of (a ∷ b ∷ []) ∷ pairs (b ∷ s)

-- The loop of queryTerms.
unfoldable pub expand_terms : List String → List String
unfolding pairs runes
expand_terms [] = []
expand_terms (t ∷ ts) =
    let rest = expand_terms ts in
    if t == ""
    then rest
    else t ∷ ((if ltb 4 (length (runes t)) then pairs (runes t) else []) ++ rest)

abbrev pub or_pairs : String → List String → List String
or_pairs query (t ∷ ts) = t ∷ ts
or_pairs query [] = if leb (length (runes query)) 2 then query ∷ [] else pairs (runes query)

-- queryTerms
unfoldable pub query_terms : (Char → Bool) → String → List String
unfolding expand_terms fields_func runes pairs
query_terms sep query = or_pairs query (expand_terms (fields_func sep query))

-- title, _ := metadata["title"].(string)
unfoldable pub title_of : Option Value → String
title_of (some (str s)) = s
title_of _ = ""

-- The loop of lexicalScore over the terms.
unfoldable pub term_scores : Lexis → String → String → List String → ℕ
unfolding count_from runes
term_scores x text title [] = 0
term_scores x text title (t ∷ ts) =
    let rest = term_scores x text title ts in
    if t == ""
    then rest
    else count_from 0 (runes text) (runes t)
      + (if contains_text (x.to_lower title) t then 2 else 0)
      + rest

-- lexicalScore
unfoldable pub lexical_score : Lexis → String → String → Entries → ℕ
unfolding term_scores query_terms title_of
lexical_score x query text metadata =
    let q = x.to_lower (trim_space query) in
    let t = x.to_lower text in
    (if contains_text t q then 10 else 0)
    + term_scores x t (title_of (lookup "title" metadata)) (query_terms x.is_separator q)
