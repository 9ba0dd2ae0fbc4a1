-- ===== src/Workflow/State/Sets.antt =====
-- internal/flowengine/state.go: maps to true as lists, and what every step of a run keeps of them.
use flowanything.Common.{
  suc, ◌≤◌, ◌<◌, String, ◌≡◌, refl, sym, subst, ◌⊎◌, inl, inr, false, Bool-cases, List, [], ◌∷◌,
  length, In, Distinct, length-Distinct, if-cases, arith,
}
use flowanything.Workflow.Types.{Graph}
use flowanything.Workflow.Validation.{has}
use flowanything.Workflow.Validation.Cycles.{has-In, absent_of_test, Reaches}
use flowanything.Workflow.Validation.Acyclic.{keys}
use flowanything.Workflow.State.{ExecutionState, add}

pub In-add : (ids : List String) (id a : String) → In a ids → In a (add ids id)
unfolding add
In-add ids id a m = if-cases (In a) (has ids id) (λ h. m) (λ h. inr m)

pub In-add_self : (ids : List String) (id : String) → In id (add ids id)
unfolding add
In-add_self ids id = if-cases (In id) (has ids id) (λ h. has-In ids id h) (λ h. inl refl)

pub add-In : (ids : List String) (id a : String) → In a (add ids id) → (a ≡ id) ⊎ In a ids
unfolding add
add-In ids id a =
    if-cases (λ (xs : List String). In a xs → (a ≡ id) ⊎ In a ids) (has ids id) (λ h m. inr m)
      (λ h m. m)

pub add-Distinct : (ids : List String) (id : String) → Distinct ids → Distinct (add ids id)
unfolding add
add-Distinct ids id d = if-cases Distinct (has ids id) (λ h. d) (λ h. (absent_of_test ids id h, d))

pub length-add_le : (ids : List String) (id : String) → length (add ids id) ≤ suc (length ids)
unfolding add
length-add_le ids id =
    if-cases (λ (xs : List String). length xs ≤ suc (length ids)) (has ids id) (λ h. omega arith)
      (λ h. omega arith)

-- Some element of a list is missing in another, or all are there.
pub missing :
    (xs ys : List String)
    → ((a : String) × In a xs × (has ys a ≡ false)) ⊎ ((a : String) → In a xs → In a ys)
missing [] ys = inr (λ a m. elim m [ ])
missing (x ∷ xs) ys = elim (Bool-cases (has ys x)) [
  | inr e ↦ inl (x, inl refl, e)
  | inl e ↦ elim (missing xs ys) [
    | inl (a, m, f) ↦ inl (a, inr m, f)
    | inr all ↦ inr (λ a m. elim m [
      | inl same ↦ subst (λ (b : String). In b ys) (sym same) (has-In ys x e)
      | inr later ↦ all a later
    ])
  ]
]

-- A longer list without repetition has an element that the shorter one misses.
pub missing_of_longer :
    (xs ys : List String)
    → Distinct xs
    → length ys < length xs
    → (a : String) × In a xs × (has ys a ≡ false)
missing_of_longer xs ys d h = elim (missing xs ys) [
  | inl found ↦ found
  | inr all ↦ absurd (omega (arith, h, length-Distinct xs ys d all))
]

-- A list that has a new element besides those of another, which has none twice, is longer.
pub length-grows :
    (xs ys : List String) (a : String)
    → Distinct xs
    → has xs a ≡ false
    → In a ys
    → ((b : String) → In b xs → In b ys)
    → length xs < length ys
length-grows xs ys a d out m more =
    let longer =
      length-Distinct (a ∷ xs) ys (absent_of_test xs a out, d)
        (λ b n. elim n [
          | inl same ↦ subst (λ (c : String). In c ys) (sym same) m
          | inr old ↦ more b old
        ]) in
    omega (arith, longer)

-- The entry node, and what can be reached from it.
abbrev pub IsReached : Graph → String → Type 0
IsReached g a = (a ≡ g.entry_node_id) ⊎ Reaches g.edges g.entry_node_id a

-- What every step of a run keeps: the scheduled nodes are nodes of the graph that can be reached from its
-- entry, only scheduled nodes are completed, and no node stands twice in either.
pub record IsRun (g : Graph) (st : ExecutionState) : Type 0 where
  pub same : st.graph ≡ g
  pub known : (a : String) → In a st.scheduled → In a (keys g.nodes)
  pub reached : (a : String) → In a st.scheduled → IsReached g a
  pub ran : (a : String) → In a st.completed → In a st.scheduled
  pub once_scheduled : Distinct st.scheduled
  pub once : Distinct st.completed

-- Between two rounds no started node is unfinished.
abbrev pub IsIdle : ExecutionState → Type 0
IsIdle st = (a : String) → In a st.started → In a st.completed
