-- ===== src/Common/Lists.antt =====
-- Lists measured by native numbers, and membership by recursion, which the tactics open.
use Prim.Native.Nat.{ℕ, zero, suc, ◌+◌, ◌-◌, ◌≤◌}
use mathlib.Core.Path.{◌≡◌, refl, sym, ap}
use mathlib.Core.Logic.{◌⊎◌, inl, inr}
use mathlib.Core.List.{List, [], ◌∷◌, ◌++◌}
use native.Mathlib.Omega.{arith}

module _ {ℓ} {A : Type ℓ} where
  abbrev pub length : List A → ℕ
  length [] = 0
  length (x ∷ xs) = suc (length xs)

  pub length-append : (xs ys : List A) → length (xs ++ ys) ≡ length xs + length ys
  length-append [] ys = omega arith
  length-append (x ∷ xs) ys = omega (arith, length-append xs ys)

  abbrev pub All {κ} : (A → Type κ) → List A → Type κ
  All P [] = Unit
  All P (x ∷ xs) = P x × All P xs

  pub All-append {κ} : (P : A → Type κ) (xs ys : List A) → All P xs → All P ys → All P (xs ++ ys)
  All-append P [] ys p q = q
  All-append P (x ∷ xs) ys (a, p) q = (a, All-append P xs ys p q)

module _ {A : Type 0} where
  -- Membership, taken apart by recursion on the list.
  abbrev pub In : A → List A → Type 0
  In a [] = ⊥
  In a (x ∷ xs) = (a ≡ x) ⊎ In a xs

  -- No element twice.
  abbrev pub Distinct : List A → Type 0
  Distinct [] = Unit
  Distinct (x ∷ xs) = (¬ (In x xs)) × Distinct xs

  pub In-append_left : (a : A) (xs ys : List A) → In a xs → In a (xs ++ ys)
  In-append_left a (x ∷ xs) ys (inl e) = inl e
  In-append_left a (x ∷ xs) ys (inr m) = inr (In-append_left a xs ys m)
  In-append_left a [] ys m = elim m [ ]

  pub In-append_right : (a : A) (xs ys : List A) → In a ys → In a (xs ++ ys)
  In-append_right a [] ys m = m
  In-append_right a (x ∷ xs) ys m = inr (In-append_right a xs ys m)

  pub In-append : (a : A) (xs ys : List A) → In a (xs ++ ys) → In a xs ⊎ In a ys
  In-append a [] ys m = inr m
  In-append a (x ∷ xs) ys (inl e) = inl (inl e)
  In-append a (x ∷ xs) ys (inr m) = elim (In-append a xs ys m) [
    | inl l ↦ inl (inr l)
    | inr r ↦ inr r
  ]

  -- A new element at the end keeps a list distinct.
  pub Distinct-append_one :
      (xs : List A) (a : A) → ¬ (In a xs) → Distinct xs → Distinct (xs ++ a ∷ [])
  Distinct-append_one [] a out d = ((λ m. m), tt)
  Distinct-append_one (x ∷ xs) a out (fresh, d) = (
    (λ m. elim (In-append x xs (a ∷ []) m) [
      | inl l ↦ fresh l
      | inr (inl e) ↦ out (inl (sym e))
      | inr (inr r) ↦ r
    ]),
    Distinct-append_one xs a (λ m. out (inr m)) d,
  )

module _ {ℓ} {A : Type ℓ} where
  abbrev pub take : ℕ → List A → List A
  take n [] = []
  take zero (x ∷ xs) = []
  take (suc n) (x ∷ xs) = x ∷ take n xs

  abbrev pub drop : ℕ → List A → List A
  drop n [] = []
  drop zero (x ∷ xs) = x ∷ xs
  drop (suc n) (x ∷ xs) = drop n xs

  pub take-all : (n : ℕ) (xs : List A) → length xs ≤ n → take n xs ≡ xs
  take-all n [] h = refl
  take-all zero (x ∷ xs) h = absurd (omega arith)
  take-all (suc n) (x ∷ xs) h = ap (λ (ys : List A). x ∷ ys) (take-all n xs (omega arith))

  pub drop-zero : (xs : List A) → drop 0 xs ≡ xs
  drop-zero [] = refl
  drop-zero (x ∷ xs) = refl

  pub take-drop : (n : ℕ) (xs : List A) → take n xs ++ drop n xs ≡ xs
  take-drop n [] = refl
  take-drop zero (x ∷ xs) = refl
  take-drop (suc n) (x ∷ xs) = ap (λ (ys : List A). x ∷ ys) (take-drop n xs)

  pub length-take : (n : ℕ) (xs : List A) → n ≤ length xs → length (take n xs) ≡ n
  length-take zero [] h = refl
  length-take (suc n) [] h = absurd (omega arith)
  length-take zero (x ∷ xs) h = refl
  length-take (suc n) (x ∷ xs) h = ap suc (length-take n xs (omega arith))

  pub length-take_le : (n : ℕ) (xs : List A) → length (take n xs) ≤ n
  length-take_le n [] = omega arith
  length-take_le zero (x ∷ xs) = omega arith
  length-take_le (suc n) (x ∷ xs) = omega (arith, length-take_le n xs)

  pub length-drop : (n : ℕ) (xs : List A) → length (drop n xs) ≡ length xs - n
  length-drop n [] = omega arith
  length-drop zero (x ∷ xs) = omega arith
  length-drop (suc n) (x ∷ xs) = omega (arith, length-drop n xs)

  pub drop-drop : (m n : ℕ) (xs : List A) → drop m (drop n xs) ≡ drop (n + m) xs
  drop-drop m zero xs = let e : 0 + m ≡ m = omega arith in rw (drop-zero xs, e) refl
  drop-drop m (suc n) [] = refl
  drop-drop m (suc n) (x ∷ xs) =
      let e : suc n + m ≡ suc (n + m) = omega arith in rw e (drop-drop m n xs)

  -- What is left of a prefix, in front of the rest.
  pub drop-take : (m n : ℕ) (xs : List A) → m ≤ n → drop m (take n xs) ++ drop n xs ≡ drop m xs
  drop-take m n [] h = refl
  drop-take zero zero (x ∷ xs) h = refl
  drop-take zero (suc n) (x ∷ xs) h = ap (λ (ys : List A). x ∷ ys) (take-drop n xs)
  drop-take (suc m) zero (x ∷ xs) h = absurd (omega arith)
  drop-take (suc m) (suc n) (x ∷ xs) h = drop-take m n xs (omega arith)
