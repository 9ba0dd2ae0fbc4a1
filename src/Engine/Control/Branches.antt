-- ===== src/Engine/Control/Branches.antt =====
-- core/flowengine/control_nodes.go: lemmas on evaluateConditionBranch.
use flowanything.Common.{
  ◌≡◌, ◌≢◌, refl, ◌⊎◌, inl, inr, ◌↔◌, Bool, true, false, not, ◌&&◌, ◌||◌, List, [], ◌∷◌, ◌==◌, All,
  Outcome, ok, err, panic, if◌then◌else◌, ◌>>=◌, subst, sym, ap, ◌∙◌, String,
}
use flowanything.Engine.Values.{Error}
use flowanything.Engine.Heap.{Heap}
use flowanything.Engine.Context.{DataContext}
use flowanything.Engine.Conditions.{ConditionRule, ConditionBranch, Host}
use flowanything.Engine.Control.{
  evaluate_condition_rule, negated, evaluate_rules, evaluate_in, evaluate_condition_branch, mode_of,
}

all-ne-any : ◌≢◌ {A = String} "all" "any"
all-ne-any e = absurd (cc (ap (λ (s : String). s == "any") e))

module _ {F : Type 0} (host : Host F) (c : DataContext) (h : Heap) where
  -- What a rule says, its negation counted.
  abbrev pub verdict : ConditionRule → Outcome Error Bool
  verdict r = evaluate_condition_rule host c r h >>= λ (found : Bool). ok (negated host r found)

  abbrev pub Holds : ConditionRule → Type 0
  Holds r = verdict r ≡ ok true

  -- Some rule holds, and the rules before it were evaluated without an error.
  abbrev pub HoldsFirst : List ConditionRule → Type 0
  HoldsFirst [] = ⊥
  HoldsFirst (r ∷ rs) = Holds r ⊎ ((verdict r ≡ ok false) × HoldsFirst rs)

  -- One round of the loop, in either mode.
  round_all : Bool → Outcome Error Bool → Outcome Error Bool
  round_all matched rest =
      if "all" == "any" && matched
      then ok true
      else if "all" == "all" && not matched
      then ok false
      else rest

  round_any : Bool → Outcome Error Bool → Outcome Error Bool
  round_any matched rest =
      if "any" == "any" && matched
      then ok true
      else if "any" == "all" && not matched
      then ok false
      else rest

  round_all-true :
      (any matched : Bool) (rest : Bool → Outcome Error Bool)
      → round_all matched (rest (any || matched)) ≡ ok true
        ↔ (◌≡◌ {A = Outcome Error Bool} (ok matched) (ok true) × (rest true ≡ ok true))
  unfolding round_all
  round_all-true true true rest = ((λ e. (refl, e)), (λ p. p.1))
  round_all-true false true rest = ((λ e. (refl, e)), (λ p. p.1))
  round_all-true any false rest = ((λ e. absurd (cc)), (λ p. absurd (cc)))

  round_any-true :
      (matched : Bool) (rest : Bool → Outcome Error Bool)
      → round_any matched (rest (false || matched)) ≡ ok true ↔ (
          ◌≡◌ {A = Outcome Error Bool} (ok matched) (ok true)
          ⊎ (◌≡◌ {A = Outcome Error Bool} (ok matched) (ok false) × (rest false ≡ ok true)))
  unfolding round_any
  round_any-true true rest = ((λ e. inl refl), (λ p. refl))
  round_any-true false rest =
      ((λ e. inr (refl, e)), (λ p. elim p [ inl e ↦ absurd (cc) | inr q ↦ q.1 ]))

  -- A round for what the evaluation of its rule gives.
  found_all-true :
      (r : ConditionRule) (any : Bool) (found : Outcome Error Bool)
      (rest : Bool → Outcome Error Bool)
      → (found >>= λ (f : Bool). round_all (negated host r f) (rest (any || negated host r f)))
          ≡ ok true
        ↔ (((found >>= λ (f : Bool). ok (negated host r f)) ≡ ok true) × (rest true ≡ ok true))
  found_all-true r any (ok f) rest = round_all-true any (negated host r f) rest
  found_all-true r any (err e) rest = ((λ x. absurd (cc)), (λ p. absurd (cc)))
  found_all-true r any panic rest = ((λ x. absurd (cc)), (λ p. absurd (cc)))

  found_any-true :
      (r : ConditionRule) (found : Outcome Error Bool) (rest : Bool → Outcome Error Bool)
      → (found >>= λ (f : Bool). round_any (negated host r f) (rest (false || negated host r f)))
          ≡ ok true
        ↔ (((found >>= λ (f : Bool). ok (negated host r f)) ≡ ok true)
            ⊎ (((found >>= λ (f : Bool). ok (negated host r f)) ≡ ok false)
                × (rest false ≡ ok true)))
  found_any-true r (ok f) rest = round_any-true (negated host r f) rest
  found_any-true r (err e) rest =
      ((λ x. absurd (cc)), (λ p. elim p [ inl e ↦ absurd (cc) | inr q ↦ absurd (cc) ]))
  found_any-true r panic rest =
      ((λ x. absurd (cc)), (λ p. elim p [ inl e ↦ absurd (cc) | inr q ↦ absurd (cc) ]))

  evaluate_rules-All :
      (rs : List ConditionRule) → evaluate_rules host c "all" rs true h ≡ ok true ↔ All Holds rs
  unfolding evaluate_rules round_all
  evaluate_rules-All [] = ((λ e. tt), (λ p. refl))
  evaluate_rules-All (r ∷ rs) =
      let (onto, back) =
        found_all-true r true (evaluate_condition_rule host c r h)
          (λ any. evaluate_rules host c "all" rs any h) in
      let (later, before) = evaluate_rules-All rs in
      ((λ e. let (now, then_) = onto e in (now, later then_)), (λ p. back (p.0, before p.1)))

  evaluate_rules-any :
      (rs : List ConditionRule) → evaluate_rules host c "any" rs false h ≡ ok true ↔ HoldsFirst rs
  unfolding evaluate_rules round_any
  evaluate_rules-any [] = ((λ e. absurd (cc)), (λ p. absurd p))
  evaluate_rules-any (r ∷ rs) =
      let (onto, back) =
        found_any-true r (evaluate_condition_rule host c r h)
          (λ any. evaluate_rules host c "any" rs any h) in
      let (later, before) = evaluate_rules-any rs in
      (
        (λ e. elim (onto e) [ inl now ↦ inl now | inr (no_, rest) ↦ inr (no_, later rest) ]),
        (λ p. elim p [
          | inl now ↦ back (inl now)
          | inr (no_, rest) ↦ back (inr (no_, before rest))
        ]),
      )

  first_rule-All :
      (r : ConditionRule) (rs : List ConditionRule)
      → evaluate_rules host c "all" (r ∷ rs) false h ≡ ok true ↔ All Holds (r ∷ rs)
  unfolding evaluate_rules round_all
  first_rule-All r rs =
      let (onto, back) =
        found_all-true r false (evaluate_condition_rule host c r h)
          (λ any. evaluate_rules host c "all" rs any h) in
      let (later, before) = evaluate_rules-All rs in
      ((λ e. let (now, then_) = onto e in (now, later then_)), (λ p. back (p.0, before p.1)))

  evaluate_in-All :
      (rs : List ConditionRule) → evaluate_in host c "all" rs h ≡ ok true ↔ All Holds rs
  unfolding evaluate_in
  evaluate_in-All [] = ((λ e. tt), (λ p. refl))
  evaluate_in-All (r ∷ rs) = first_rule-All r rs

  evaluate_in-any :
      (rs : List ConditionRule)
      → evaluate_in host c "any" rs h ≡ ok true ↔ ((rs ≡ []) ⊎ HoldsFirst rs)
  unfolding evaluate_in
  evaluate_in-any [] = ((λ e. inl refl), (λ p. refl))
  evaluate_in-any (r ∷ rs) = (
    (λ e. inr ((evaluate_rules-any (r ∷ rs)).0 e)),
    (λ p. elim p [
      | inl none_left ↦ absurd (cc)
      | inr first ↦ (evaluate_rules-any (r ∷ rs)).1 first
    ]),
  )

  -- The rules of a branch, read by its mode.
  abbrev pub Matches : ConditionBranch → Type 0
  Matches b =
      (mode_of host b ≡ "all" → All Holds b.rules)
      × (mode_of host b ≡ "any" → (b.rules ≡ []) ⊎ HoldsFirst b.rules)

  -- A branch in one of the two modes that Validate accepts matches exactly if, in mode all, all its rules
  -- hold, and, in mode any, it has no rule or one holds and those before it do not and give no error.
  pub evaluate_condition_branch-Matches :
      (b : ConditionBranch)
      → (mode_of host b ≡ "all") ⊎ (mode_of host b ≡ "any")
      → evaluate_condition_branch host c b h ≡ ok true ↔ Matches b
  unfolding evaluate_condition_branch
  evaluate_condition_branch-Matches b (inl is_all) =
      let (onto, back) =
        subst (λ (m : String). evaluate_in host c m b.rules h ≡ ok true ↔ All Holds b.rules)
          (sym is_all) (evaluate_in-All b.rules) in
      (
        (λ e. ((λ m. onto e), (λ m. absurd (all-ne-any (sym is_all ∙ m))))),
        (λ p. back (p.0 is_all)),
      )
  evaluate_condition_branch-Matches b (inr is_any) =
      let (onto, back) =
        subst
          (λ (m : String).
            evaluate_in host c m b.rules h ≡ ok true ↔ ((b.rules ≡ []) ⊎ HoldsFirst b.rules))
          (sym is_any) (evaluate_in-any b.rules) in
      (
        (λ e. ((λ m. absurd (all-ne-any (sym m ∙ is_any))), (λ m. onto e))),
        (λ p. back (p.1 is_any)),
      )
