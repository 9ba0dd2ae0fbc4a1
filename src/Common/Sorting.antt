-- ===== src/Common/Sorting.antt =====
-- sort.SliceStable, and the lists that it gives.
use Prim.Native.Nat.{ℕ, zero, suc, ◌≤◌}
use mathlib.Core.Path.{◌≡◌}
use mathlib.Core.Logic.{◌⊎◌, inl, inr}
use mathlib.Core.Bool.{Bool}
use mathlib.Core.List.{List, [], ◌∷◌}
use native.Mathlib.Omega.{arith}
use flowanything.Common.Tests.{if◌then◌else◌, if-case, if-cases, ltb}
use flowanything.Common.Finite.{All-In}
use flowanything.Common.Lists.{All, In, take}

-- An element goes behind all that are not after it: `before a b` is less(a, b).
pub insert_stable : {A : Type 0} → (A → A → Bool) → A → List A → List A
insert_stable before x [] = x ∷ []
insert_stable before x (y ∷ ys) =
    let rest = insert_stable before x ys in if before y x then y ∷ rest else x ∷ y ∷ ys

-- sort.SliceStable(xs, less)
unfoldable pub sort_stable : {A : Type 0} → (A → A → Bool) → List A → List A
unfolding insert_stable
sort_stable before [] = []
sort_stable before (x ∷ xs) = insert_stable before x (sort_stable before xs)

module _ {A : Type 0} (before : A → A → Bool) where
  pub insert_stable-All {ℓ} :
      (P : A → Type ℓ) (x : A) (ys : List A) → P x → All P ys → All P (insert_stable before x ys)
  unfolding insert_stable
  insert_stable-All P x [] p all = (p, tt)
  insert_stable-All P x (y ∷ ys) p (q, all) =
      if-case (All P) (before y x) (q, insert_stable-All P x ys p all) (p, (q, all))

  pub sort_stable-All {ℓ} :
      (P : A → Type ℓ) (xs : List A) → All P xs → All P (sort_stable before xs)
  unfolding sort_stable
  sort_stable-All P [] all = tt
  sort_stable-All P (x ∷ xs) (p, all) =
      insert_stable-All P x (sort_stable before xs) p (sort_stable-All P xs all)

  pub In-insert_stable :
      (a x : A) (ys : List A) → (a ≡ x) ⊎ In a ys → In a (insert_stable before x ys)
  unfolding insert_stable
  In-insert_stable a x [] m = m
  In-insert_stable a x (y ∷ ys) m =
      if-case (In a) (before y x)
        (elim m [
          | inl e ↦ inr (In-insert_stable a x ys (inl e))
          | inr (inl e) ↦ inl e
          | inr (inr n) ↦ inr (In-insert_stable a x ys (inr n))
        ])
        m

  pub In-sort_stable : (a : A) (xs : List A) → In a xs → In a (sort_stable before xs)
  unfolding sort_stable
  In-sort_stable a (x ∷ xs) (inl e) = In-insert_stable a x _ (inl e)
  In-sort_stable a (x ∷ xs) (inr m) = In-insert_stable a x _ (inr (In-sort_stable a xs m))
  In-sort_stable a [] m = elim m [ ]

pub All-take {ℓ κ} :
    {A : Type ℓ} (P : A → Type κ) (n : ℕ) (xs : List A) → All P xs → All P (take n xs)
All-take P n [] all = tt
All-take P zero (x ∷ xs) all = tt
All-take P (suc n) (x ∷ xs) (p, all) = (p, All-take P n xs all)

-- The largest key first.
abbrev pub IsDescending : {A : Type 0} → (A → ℕ) → List A → Type 0
IsDescending key [] = Unit
IsDescending key (x ∷ xs) = All (λ y. key y ≤ key x) xs × IsDescending key xs

module _ {A : Type 0} (key : A → ℕ) where
  abbrev pub larger : A → A → Bool
  larger a b = ltb (key b) (key a)

  All-below :
      (x y : A) (ys : List A)
      → key y ≤ key x
      → All (λ z. key z ≤ key y) ys
      → All (λ z. key z ≤ key x) ys
  All-below x y [] h all = tt
  All-below x y (z ∷ zs) h (p, all) = (omega arith, All-below x y zs h all)

  insert_stable-IsDescending :
      (x : A) (ys : List A) → IsDescending key ys → IsDescending key (insert_stable larger x ys)
  unfolding insert_stable
  insert_stable-IsDescending x [] sorted = (tt, tt)
  insert_stable-IsDescending x (y ∷ ys) (below, sorted) =
      if-cases (IsDescending key) (larger y x)
        (λ h. (
          insert_stable-All larger (λ z. key z ≤ key y) x ys (ground arith) below,
          insert_stable-IsDescending x ys sorted,
        ))
        (λ h.
          let le : key y ≤ key x = ground arith in
          ((le, All-below x y ys le below), (below, sorted)))

  pub sort_stable-IsDescending : (xs : List A) → IsDescending key (sort_stable larger xs)
  unfolding sort_stable
  sort_stable-IsDescending [] = tt
  sort_stable-IsDescending (x ∷ xs) = insert_stable-IsDescending x _ (sort_stable-IsDescending xs)

  pub take-IsDescending : (n : ℕ) (xs : List A) → IsDescending key xs → IsDescending key (take n xs)
  take-IsDescending n [] sorted = tt
  take-IsDescending zero (x ∷ xs) sorted = tt
  take-IsDescending (suc n) (x ∷ xs) (below, sorted) =
      (All-take (λ y. key y ≤ key x) n xs below, take-IsDescending n xs sorted)

  -- What is cut off a sorted list is not larger than what is kept.
  pub take-keeps_largest :
      (n : ℕ) (xs : List A) (a : A)
      → IsDescending key xs
      → In a xs
      → In a (take n xs) ⊎ All (λ y. key a ≤ key y) (take n xs)
  take-keeps_largest n [] a sorted m = elim m [ ]
  take-keeps_largest zero (x ∷ xs) a sorted m = inr tt
  take-keeps_largest (suc n) (x ∷ xs) a sorted (inl e) = inl (inl e)
  take-keeps_largest (suc n) (x ∷ xs) a (below, sorted) (inr m) =
      elim (take-keeps_largest n xs a sorted m) [
        | inl kept ↦ inl (inr kept)
        | inr all ↦ inr (All-In (λ y. key y ≤ key x) a xs below m, all)
      ]
