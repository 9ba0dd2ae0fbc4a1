-- ===== src/Common/Finite.antt =====
-- Lists without repetition inside other lists.
use Prim.Native.Nat.{◌≤◌}
use mathlib.Core.Path.{◌≡◌, refl, sym, ap, subst}
use mathlib.Core.Logic.{◌⊎◌, inl, inr}
use mathlib.Core.List.{List, [], ◌∷◌, ◌++◌}
use native.Mathlib.Omega.{arith}
use flowanything.Common.Lists.{
  All, length, length-append, In, Distinct, In-append, In-append_left, In-append_right,
}

module _ {A : Type 0} where
  In-split : (a : A) (ys : List A) → In a ys → (us vs : List A) × (ys ≡ us ++ a ∷ vs)
  In-split a [] m = elim m [ ]
  In-split a (y ∷ ys) (inl e) = ([], ys, ap (λ (x : A). x ∷ ys) (sym e))
  In-split a (y ∷ ys) (inr m) =
      let (us, vs, e) = In-split a ys m in (y ∷ us, vs, ap (λ (zs : List A). y ∷ zs) e)

  In-drop_middle : (a b : A) (us vs : List A) → In b (us ++ a ∷ vs) → (b ≡ a) ⊎ In b (us ++ vs)
  In-drop_middle a b us vs m = elim (In-append b us (a ∷ vs) m) [
    | inl l ↦ inr (In-append_left b us vs l)
    | inr (inl e) ↦ inl e
    | inr (inr r) ↦ inr (In-append_right b us vs r)
  ]

  -- A list without repetition is not longer than a list that has its elements.
  pub length-Distinct :
      (xs ys : List A) → Distinct xs → ((a : A) → In a xs → In a ys) → length xs ≤ length ys
  length-Distinct [] ys d inside = omega arith
  length-Distinct (x ∷ xs) ys (fresh, d) inside =
      let (us, vs, e) = In-split x ys (inside x (inl refl)) in
      let rest = length-Distinct xs (us ++ vs) d (λ a m.
        elim (In-drop_middle x a us vs (subst (In a) e (inside a (inr m)))) [
          | inl same ↦ elim (fresh (subst (λ (b : A). In b xs) same m)) [ ]
          | inr kept ↦ kept
        ]) in
      omega (arith, rest, ap length e, length-append {0} us (x ∷ vs), length-append {0} us vs)

  pub In-All {ℓ} : (P : A → Type ℓ) (xs : List A) → ((a : A) → In a xs → P a) → All P xs
  In-All P [] h = tt
  In-All P (x ∷ xs) h = (h x (inl refl), In-All P xs (λ a m. h a (inr m)))

  pub All-In {ℓ} : (P : A → Type ℓ) (a : A) (xs : List A) → All P xs → In a xs → P a
  All-In P a (x ∷ xs) (p, all) (inl e) = subst P (sym e) p
  All-In P a (x ∷ xs) (p, all) (inr m) = All-In P a xs all m
  All-In P a [] all m = elim m [ ]
