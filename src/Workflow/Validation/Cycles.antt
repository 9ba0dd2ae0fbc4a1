-- ===== src/Workflow/Validation/Cycles.antt =====
-- internal/flowengine/validation.go: hasCycle finds a cycle exactly where there is one.
use flowanything.Common.{
  ℕ, zero, suc, ◌+◌, ◌<◌, String, ◌≡◌, refl, sym, ap, ◌∙◌, subst, inl, inr, true, false, Bool-cases,
  List, [], ◌∷◌, ◌==◌, eq_iff, length, In, Distinct, length-Distinct, if-cases, arith,
}
use flowanything.Workflow.Types.{Edge}
use flowanything.Workflow.Validation.{
  has, Visit, cyclic, unfinished, visited, and_then, over_edges, visit,
}

pub has-In : (xs : List String) (id : String) → has xs id ≡ true → In id xs
unfolding has
has-In [] id h = cc
has-In (x ∷ xs) id h = elim (Bool-cases (x == id)) [
  | inl e ↦ inl (sym ((eq_iff x id).0 e))
  | inr e ↦ inr (has-In xs id (ground (arith, h, e)))
]

pub In-has : (xs : List String) (id : String) → In id xs → has xs id ≡ true
unfolding has
In-has [] id m = elim m [ ]
In-has (x ∷ xs) id (inl e) = ground (arith, eq_iff x id, e)
In-has (x ∷ xs) id (inr m) = ground (arith, In-has xs id m)

pub absent_of_test : (xs : List String) (id : String) → has xs id ≡ false → ¬ (In id xs)
absent_of_test xs id h m = let e = In-has xs id m in absurd (cc)

pub test_false : (a b : String) → (a == b) ≡ false → ¬ (a ≡ b)
test_false a b h e = absurd (ground (arith, eq_iff a b))

-- A way along edges, of one edge or more.
pub data Reaches (edges : List Edge) : String → String → Type 0 where
  step :
      {a b : String} (e : Edge)
      → In e edges
      → e.from_node_id ≡ a
      → e.to_node_id ≡ b
      → Reaches edges a b
  trans : {a b c : String} → Reaches edges a b → Reaches edges b c → Reaches edges a c

pub data HasCycle (edges : List Edge) : Type 0 where
  at : {a : String} → Reaches edges a a → HasCycle edges

-- An order in which no edge leads from a node to one before it: the targets of the edges of each node
-- stand behind it.
abbrev pub IsOrdered : List Edge → List String → Type 0
IsOrdered edges [] = Unit
IsOrdered edges (v ∷ vs) =
    ((e : Edge) → In e edges → e.from_node_id ≡ v → In e.to_node_id vs) × IsOrdered edges vs

-- What a part of the search that starts with `seen` gives: a cycle of the graph, or more visited nodes in
-- such an order, for which P holds.
abbrev pub Sound : List Edge → List String → (List String → Type 0) → Visit → Type 0
Sound edges seen P cyclic = HasCycle edges
Sound edges seen P unfinished = ⊥
Sound edges seen P (visited later) =
    IsOrdered edges later × ((a : String) → In a seen → In a later) × P later

module _ (edges : List Edge) where
  Sound-widen :
      (seen later : List String) (P Q : List String → Type 0) (v : Visit)
      → ((a : String) → In a seen → In a later)
      → ((last : List String) → ((a : String) → In a later → In a last) → P last → Q last)
      → Sound edges later P v
      → Sound edges seen Q v
  Sound-widen seen later P Q cyclic more weaker sound = sound
  Sound-widen seen later P Q unfinished more weaker sound = sound
  Sound-widen seen later P Q (visited last) more weaker (ordered, kept, p) =
      (ordered, (λ a m. kept a (more a m)), weaker last kept p)

  -- A part of the search, and then another; the first one's P stays true for more nodes.
  pub and_then-Sound :
      (seen : List String) (P Q R : List String → Type 0) (v : Visit) (next : List String → Visit)
      → Sound edges seen P v
      → ((later : List String) → IsOrdered edges later → P later → Sound edges later Q (next later))
      → ((later last : List String)
          → ((a : String) → In a later → In a last)
          → P later
          → Q last
          → R last)
      → Sound edges seen R (and_then v next)
  and_then-Sound seen P Q R cyclic next sound after both = sound
  and_then-Sound seen P Q R unfinished next sound after both = sound
  and_then-Sound seen P Q R (visited later) next (ordered, more, p) after both =
      Sound-widen seen later Q R (next later) more (λ last kept q. both later last kept p q)
        (after later ordered p)

  abbrev Targets : String → List Edge → List String → Type 0
  Targets id es later = (e : Edge) → In e es → e.from_node_id ≡ id → In e.to_node_id later

  over_edges-Sound :
      (go : String → List String → Visit) (id : String) (es : List Edge) (seen : List String)
      → ((e : Edge) → In e es → In e edges)
      → ((e : Edge) (later : List String)
          → In e edges
          → e.from_node_id ≡ id
          → IsOrdered edges later
          → Sound edges later (In e.to_node_id) (go e.to_node_id later))
      → IsOrdered edges seen
      → Sound edges seen (Targets id es) (over_edges go id es seen)
  unfolding over_edges
  over_edges-Sound go id [] seen inside below ordered =
      (ordered, (λ a m. m), (λ e m from. elim m [ ]))
  over_edges-Sound go id (e ∷ es) seen inside below ordered =
      let rest : (later : List String)
          → IsOrdered edges later
          → Sound edges later (Targets id es) (over_edges go id es later) =
        λ later o. over_edges-Sound go id es later (λ d m. inside d (inr m)) below o in
      if-cases (Sound edges seen (Targets id (e ∷ es))) (e.from_node_id == id)
        (λ h.
          and_then-Sound seen (In e.to_node_id) (Targets id es) (Targets id (e ∷ es))
            (go e.to_node_id seen) _
            (below e seen (inside e (inl refl)) ((eq_iff e.from_node_id id).0 h) ordered)
            (λ later o there. rest later o)
            (λ later last kept there targets d m from. elim m [
              | inl same ↦
                  kept d.to_node_id (subst (λ (x : Edge). In x.to_node_id later) (sym same) there)
              | inr other ↦ targets d other from
            ]))
        (λ h.
          Sound-widen seen seen (Targets id es) (Targets id (e ∷ es)) (over_edges go id es seen)
            (λ a m. m)
            (λ last kept targets d m from. elim m [
              | inl same ↦
                  elim (test_false e.from_node_id id h
                    (ap (λ (x : Edge). x.from_node_id) (sym same) ∙ from)) [ ]
              | inr other ↦ targets d other from
            ])
            (rest seen ordered))

  pub visit-Sound :
      (all : List String)
      → ((e : Edge) → In e edges → In e.to_node_id all)
      → (fuel : ℕ) (visiting : List String) (id : String) (seen : List String)
      → length all < length visiting + fuel
      → Distinct visiting
      → ((a : String) → In a visiting → In a all)
      → ((a : String) → In a visiting → Reaches edges a id)
      → In id all
      → IsOrdered edges seen
      → Sound edges seen (In id) (visit fuel edges visiting id seen)
  unfolding visit
  visit-Sound all closed zero visiting id seen enough distinct inside reach there ordered =
      absurd (omega (arith, length-Distinct visiting all distinct inside))
  visit-Sound all closed (suc fuel) visiting id seen enough distinct inside reach there ordered =
      if-cases (Sound edges seen (In id)) (has visiting id)
        (λ h. at (reach id (has-In visiting id h)))
        (λ h.
          if-cases (Sound edges seen (In id)) (has seen id)
            (λ g. (ordered, (λ a m. m), has-In seen id g))
            (λ g.
              and_then-Sound seen (Targets id edges) (In id) (In id)
                (over_edges (visit fuel edges (id ∷ visiting)) id edges seen) _
                (over_edges-Sound (visit fuel edges (id ∷ visiting)) id edges seen (λ e m. m)
                  (λ e later m from o.
                    visit-Sound all closed fuel (id ∷ visiting) e.to_node_id later (omega arith)
                      ((λ m. absent_of_test visiting id h m), distinct)
                      (λ a n. elim n [
                        | inl same ↦ subst (λ (x : String). In x all) (sym same) there
                        | inr old ↦ inside a old
                      ])
                      (λ a n. elim n [
                        | inl same ↦ step e m (from ∙ sym same) refl
                        | inr old ↦ trans (reach a old) (step e m from refl)
                      ])
                      (closed e m) o)
                  ordered)
                (λ later o targets. ((targets, o), (λ a m. inr m), inl refl))
                (λ later last kept targets here. here)))
