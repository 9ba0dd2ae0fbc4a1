-- ===== src/Engine/Heap/Descend.antt =====
-- Lemmas on one step of writeParts (core/flowengine/context.go).
use flowanything.Common.{
  ℕ, ◌<◌, String, ◌≡◌, ◌≢◌, refl, sym, ◌∙◌, ◌⊎◌, inl, inr, Option, none, some, [], arith, eqb_iff,
  eq-cases, ok, eq_iff,
}
use flowanything.Common.Assoc.{lookup, insert, lookup-insert}
use flowanything.Engine.Values.{Value, dict, as_dict}
use flowanything.Engine.Heap.{Heap, update, alloc, descend}
use flowanything.Engine.Heap.Reach.{Holds, Reach, here, step, IsClosed}

-- The heap after a new map was put under the key `p` of map `a`.
abbrev pub grown : ℕ → String → Heap → Heap
grown a p h =
    let h1 = alloc [] h in
    record h1 { cell = update h1.cell a (insert p (dict (some h.next)) (h1.cell a)) }

-- The two ways in which `descend` finds the next map.
abbrev pub Existing : ℕ → String → Heap → Type 0
Existing a p h =
    (d : Option ℕ) × (lookup p (h.cell a) ≡ some (dict d)) × (descend (some a) p h ≡ ok (d, h))

abbrev pub Fresh : ℕ → String → Heap → Type 0
Fresh a p h =
    (as_dict (lookup p (h.cell a)) ≡ none) × (descend (some a) p h ≡ ok (some h.next, grown a p h))

pub descend-cases : (a : ℕ) (p : String) (h : Heap) → Existing a p h ⊎ Fresh a p h
unfolding descend
descend-cases a p h = go (lookup p (h.cell a)) refl
  where
    go : (o : Option Value) → lookup p (h.cell a) ≡ o → Existing a p h ⊎ Fresh a p h
    go (some (dict d)) e = inl (d, e, rw e refl)
    go none e = inr (rw e refl, rw e refl)
    go (some _) e = inr (rw e refl, rw e refl)

module _ (a : ℕ) (p : String) (h : Heap) (used : a < h.next) where
  pub grown-cell_new : (grown a p h).cell h.next ≡ []
  grown-cell_new = ground (arith, eqb_iff a h.next, eqb_iff h.next h.next)

  pub grown-cell_self : (grown a p h).cell a ≡ insert p (dict (some h.next)) (h.cell a)
  grown-cell_self = ground (arith, eqb_iff a h.next, eqb_iff h.next a)

  pub grown-cell_ne : (b : ℕ) → b ≢ a → b ≢ h.next → (grown a p h).cell b ≡ h.cell b
  grown-cell_ne b ne new = ground (arith, eqb_iff a b, eqb_iff h.next b)

  grown-Holds_self :
      (k : String) (b : ℕ) → Holds (grown a p h) a k b → ((k ≡ p) × (b ≡ h.next)) ⊎ Holds h a k b
  grown-Holds_self k b holds =
      let same =
        sym (lookup-insert p k (dict (some h.next)) (h.cell a)) ∙ (rw grown-cell_self at holds) in
      ground (arith, eq_iff p k, same)

  grown-Holds_new : (k : String) (b : ℕ) → ¬ (Holds (grown a p h) h.next k b)
  unfolding lookup
  grown-Holds_new k b holds = let bad = rw grown-cell_new at holds in cc bad

  -- The links of the grown heap: the new one, and old ones.
  pub grown-Holds :
      (c : ℕ) (k : String) (b : ℕ)
      → Holds (grown a p h) c k b
      → ((c ≡ a) × (b ≡ h.next)) ⊎ ((c ≢ h.next) × Holds h c k b)
  grown-Holds c k b holds = elim (eq-cases c a) [
    | inl same ↦ elim (grown-Holds_self k b (rw same at holds)) [
      | inl new ↦ inl (same, new.1)
      | inr old ↦ inr (omega arith, rw same old)
    ]
    | inr other ↦ elim (eq-cases c h.next) [
      | inl new ↦ absurd (grown-Holds_new k b (rw new at holds))
      | inr ne ↦ inr (ne, rw (← grown-cell_ne c other ne) holds)
    ]
  ]

  pub grown-IsClosed : IsClosed h → IsClosed (grown a p h)
  grown-IsClosed closed c k b holds = elim (grown-Holds c k b holds) [
    | inl new ↦ omega arith
    | inr old ↦ let below = closed c k b old.1 in omega arith
  ]

  -- The new map is empty, so nothing else is reached from it.
  pub grown-Reach_new : (b : ℕ) → b ≢ h.next → ¬ (Reach (grown a p h) h.next b)
  grown-Reach_new b ne r = leave r refl ne
    where
      leave : {x : ℕ} → Reach (grown a p h) x b → x ≡ h.next → ¬ (b ≢ h.next)
      leave here e out = out e
      leave (step k c holds r) e out = grown-Holds_new k c (rw e at holds)

  -- What an old map reaches in the grown heap without ending at the new map, it reached before.
  pub grown-Reach_old : {x c : ℕ} → Reach (grown a p h) x c → c ≢ h.next → Reach h x c
  grown-Reach_old here ne = here
  grown-Reach_old (step {a = x} k b holds r) ne = elim (grown-Holds x k b holds) [
    | inl new ↦ absurd (grown-Reach_new _ ne (rw new.1 at r))
    | inr old ↦ step k b old.1 (grown-Reach_old r ne)
  ]
