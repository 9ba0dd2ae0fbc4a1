-- ===== src/Workflow/Context/Protected.antt =====
-- internal/flowengine/context.go: the parts of ctx that Write does not change, and how a path gets there.
use flowanything.Common.{
  String, ◌≡◌, ◌≢◌, refl, ap, ◌∙◌, subst, ◌⊎◌, inl, inr, false, List, [], ◌∷◌, ◌==◌, eq_iff,
  if-cases, arith, All,
}
use flowanything.Workflow.Values.{Tree, Fields, get_field, set_field}
use flowanything.Workflow.Values.Maps.{get_field-set_field}
use flowanything.Workflow.Context.{
  Lexis, Domain, flow_input, context, flow_output, responses, connector_response, tool_response,
  variables, last, bare, domain_of, write_parts, write_domain, Write, refused, written,
  write_context, write_root, write_field, write_under_context, write_from, write, path_parts,
  normalize_path,
}

get_field-set_other :
    (key other : String) (value : Tree) (fs : Fields)
    → key ≢ other
    → get_field other (set_field key value fs) ≡ get_field other fs
get_field-set_other key other value fs ne =
    get_field-set_field key other value fs ∙ ground (arith, eq_iff key other, ne)

-- A write below a part changes no other part.
write_parts-other :
    (root : Fields) (part : String) (parts : List String) (value : Tree) (other : String)
    → part ≢ ""
    → part ≢ other
    → get_field other (write_parts root (part ∷ parts) value) ≡ get_field other root
unfolding write_parts
write_parts-other root part [] value other named ne =
    if-cases (λ (fs : Fields). get_field other fs ≡ get_field other root) (part == "") (λ h. refl)
      (λ h. get_field-set_other part other value root ne)
write_parts-other root part (next ∷ parts) value other named ne =
    if-cases (λ (fs : Fields). get_field other fs ≡ get_field other root) (part == "")
      (λ h. elim (named ((eq_iff part "").0 h)) [ ]) (λ h. get_field-set_other part other _ root ne)

-- What a write keeps, unless it is refused.
abbrev Keeps : String → Fields → Write → Type 0
Keeps other ctx (refused e) = Unit
Keeps other ctx (written next) = get_field other next ≡ get_field other ctx

-- A name is none of those that are refused, flow_output or variables.
abbrev IsPlain : Domain → Type 0
IsPlain context = Unit
IsPlain last = Unit
IsPlain bare = Unit
IsPlain _ = ⊥

-- strings.ToLower leaves the names of the protected maps alone.
pub record LowersNames (x : Lexis) : Type 0 where
  pub input : x.to_lower "flow_input" ≡ "flow_input"
  pub responses_ : x.to_lower "responses" ≡ "responses"

-- The protected maps.
abbrev pub IsProtected : String → Type 0
IsProtected key = (key ≡ "flow_input") ⊎ (key ≡ "responses")

not_protected :
    (key other : String)
    → (key == "flow_input") ≡ false
    → (key == "responses") ≡ false
    → IsProtected other
    → key ≢ other
not_protected key other a b (inl p) e = let h = (eq_iff key "flow_input").1 (e ∙ p) in absurd (cc)
not_protected key other a b (inr p) e = let h = (eq_iff key "responses").1 (e ∙ p) in absurd (cc)

module _ (x : Lexis) (lowers : LowersNames x) where
  plain-other :
      (part other : String)
      → IsProtected other
      → IsPlain (domain_of (x.to_lower part))
      → part ≢ other
  unfolding domain_of
  plain-other part other (inl p) plain e =
      elim (subst (λ (s : String). IsPlain (domain_of s))
        (ap (λ (s : String). x.to_lower s) (e ∙ p) ∙ lowers.input) plain) [ ]
  plain-other part other (inr p) plain e =
      elim (subst (λ (s : String). IsPlain (domain_of s))
        (ap (λ (s : String). x.to_lower s) (e ∙ p) ∙ lowers.responses_) plain) [ ]

  write_domain-Keeps :
      (key : String) (parts : List String) (value : Tree) (ctx : Fields) (other : String)
      → key ≢ other
      → get_field other (write_domain key parts value ctx) ≡ get_field other ctx
  unfolding write_domain
  write_domain-Keeps key parts value ctx other ne = get_field-set_other key other _ ctx ne

  write_context-Keeps :
      (d : Domain) (part : String) (parts : List String) (value : Tree) (ctx : Fields)
      (other : String)
      → IsProtected other
      → part ≢ ""
      → (IsPlain d → part ≢ other)
      → Keeps other ctx (write_context d part parts value ctx)
  unfolding write_context
  write_context-Keeps flow_input part parts value ctx other p named plain = tt
  write_context-Keeps responses part parts value ctx other p named plain = tt
  write_context-Keeps connector_response part parts value ctx other p named plain = tt
  write_context-Keeps tool_response part parts value ctx other p named plain = tt
  write_context-Keeps flow_output part parts value ctx other p named plain =
      write_domain-Keeps "flow_output" parts value ctx other
        (not_protected "flow_output" other refl refl p)
  write_context-Keeps variables part parts value ctx other p named plain =
      write_domain-Keeps "variables" parts value ctx other
        (not_protected "variables" other refl refl p)
  write_context-Keeps context part parts value ctx other p named plain =
      write_parts-other ctx part parts value other named (plain tt)
  write_context-Keeps last part parts value ctx other p named plain =
      write_parts-other ctx part parts value other named (plain tt)
  write_context-Keeps bare part parts value ctx other p named plain =
      write_parts-other ctx part parts value other named (plain tt)

  write_field-Keeps :
      (path key : String) (parts : List String) (value : Tree) (ctx : Fields) (other : String)
      → key ≢ other
      → Keeps other ctx (write_field path key parts value ctx)
  write_field-Keeps path key [] value ctx other ne = tt
  write_field-Keeps path key (part ∷ parts) value ctx other ne =
      write_domain-Keeps key (part ∷ parts) value ctx other ne

  write_under_context-Keeps :
      (path : String) (parts : List String) (value : Tree) (ctx : Fields) (other : String)
      → IsProtected other
      → All (λ (s : String). s ≢ "") parts
      → Keeps other ctx (write_under_context x path parts value ctx)
  unfolding write_under_context
  write_under_context-Keeps path [] value ctx other p named = tt
  write_under_context-Keeps path (part ∷ parts) value ctx other p named =
      write_context-Keeps (domain_of (x.to_lower part)) part parts value ctx other p named.0
        (plain-other part other p)

  write_root-Keeps :
      (d : Domain) (path first : String) (parts : List String) (value : Tree) (ctx : Fields)
      (other : String)
      → IsProtected other
      → All (λ (s : String). s ≢ "") (first ∷ parts)
      → (IsPlain d → first ≢ other)
      → Keeps other ctx (write_root x d path first parts value ctx)
  unfolding write_root
  write_root-Keeps flow_input path first parts value ctx other p named plain = tt
  write_root-Keeps responses path first parts value ctx other p named plain = tt
  write_root-Keeps connector_response path first parts value ctx other p named plain = tt
  write_root-Keeps tool_response path first parts value ctx other p named plain = tt
  write_root-Keeps flow_output path first parts value ctx other p named plain =
      write_field-Keeps path "flow_output" parts value ctx other
        (not_protected "flow_output" other refl refl p)
  write_root-Keeps variables path first parts value ctx other p named plain =
      write_field-Keeps path "variables" parts value ctx other
        (not_protected "variables" other refl refl p)
  write_root-Keeps context path first parts value ctx other p named plain =
      write_under_context-Keeps path parts value ctx other p named.1
  write_root-Keeps last path first parts value ctx other p named plain =
      write_parts-other ctx first parts value other named.0 (plain tt)
  write_root-Keeps bare path first parts value ctx other p named plain =
      write_parts-other ctx first parts value other named.0 (plain tt)

  write_from-Keeps :
      (path : String) (parts : List String) (value : Tree) (ctx : Fields) (other : String)
      → IsProtected other
      → All (λ (s : String). s ≢ "") parts
      → Keeps other ctx (write_from x path parts value ctx)
  unfolding write_from
  write_from-Keeps path [] value ctx other p named = refl
  write_from-Keeps path (first ∷ parts) value ctx other p named =
      write_root-Keeps (domain_of (x.to_lower first)) path first parts value ctx other p named
        (plain-other first other p)

-- What a write gives, for a result that is known.
kept_by :
    (other : String) (ctx next : Fields) (w : Write)
    → w ≡ written next
    → Keeps other ctx w
    → get_field other next ≡ get_field other ctx
kept_by other ctx next w e k = subst (Keeps other ctx) e k

-- Write, by a path without empty parts, changes neither the flow input nor the responses that ctx holds,
-- where strings.ToLower leaves these two names as they are.
pub write-keeps_protected :
    (x : Lexis) (path : String) (value : Tree) (ctx next : Fields) (key : String)
    → LowersNames x
    → IsProtected key
    → All (λ (s : String). s ≢ "") (path_parts path)
    → write x path value ctx ≡ written next
    → get_field key next ≡ get_field key ctx
unfolding write
write-keeps_protected x path value ctx next key lowers p named e =
    kept_by key ctx next (write x path value ctx) e (
      if-cases (Keeps key ctx) (normalize_path path == "") (λ h. refl)
        (λ h.
          write_from-Keeps x lowers (normalize_path path) (path_parts path) value ctx key p named))

-- A path of an empty part and a key, whatever the key is, sets this key of ctx, "flow_input" and
-- "responses" too.
pub write-past_protection :
    (x : Lexis) (path key : String) (value : Tree) (ctx : Fields)
    → (normalize_path path == "") ≡ false
    → path_parts path ≡ "" ∷ key ∷ []
    → (key == "") ≡ false
    → domain_of (x.to_lower "") ≡ bare
    → write x path value ctx ≡ written (set_field key value ctx)
unfolding write write_from write_root write_parts
write-past_protection x path key value ctx named parts key_named plain =
    rw (named, parts, plain, key_named) refl
