-- ===== src/Base/Rows.antt =====
-- A table is the list of its rows, the last row written first. What the queries of a `where` clause
-- select and change is stated with these functions.
use Prim.Native.Nat.{ℕ, suc}
use mathlib.Core.Path.{◌≡◌, subst}
use mathlib.Core.Logic.{◌⊎◌, inl, inr}
use mathlib.Core.Bool.{Bool, true}
use mathlib.Core.Option.{Option, none, some}
use mathlib.Core.List.{List, [], ◌∷◌}
use native.Mathlib.Omega.{arith}
use jimpitan.Base.Tests.{if◌then◌else◌}
use jimpitan.Base.Int.{ℤ, pos, ◌+ℤ◌}

module _ {A : Type 0} where
  abbrev pub length : List A → ℕ
  length [] = 0
  length (_ ∷ xs) = suc (length xs)

  -- The rows that a clause selects.
  abbrev pub select : (A → Bool) → List A → List A
  select p [] = []
  select p (x ∷ xs) = let rest = select p xs in if p x then x ∷ rest else rest

  -- The table after an update of the rows that a clause selects.
  abbrev pub set_where : (A → Bool) → (A → A) → List A → List A
  set_where p f [] = []
  set_where p f (x ∷ xs) = (if p x then f x else x) ∷ set_where p f xs

  -- A row of the table that satisfies a clause.
  abbrev pub Has : (A → Bool) → A → List A → Type 0
  Has p r [] = ⊥
  Has p r (x ∷ xs) = ((x ≡ r) × (p x ≡ true)) ⊎ Has p r xs

  -- The property of every row that a clause selects.
  abbrev pub All : (A → Type 0) → List A → Type 0
  All P [] = Unit
  All P (x ∷ xs) = P x × All P xs

  pub All-mem : (P : A → Type 0) (p : A → Bool) (r : A) (xs : List A) → All P xs → Has p r xs → P r
  All-mem P p r [] h m = absurd m
  All-mem P p r (x ∷ xs) h (inl e) = rw (← e.0) (h.0)
  All-mem P p r (x ∷ xs) h (inr m) = All-mem P p r xs h.1 m

  -- An update keeps a property of all rows that the changed row has.
  pub All-set_where :
      (P : A → Type 0) (p : A → Bool) (f : A → A)
      → ((x : A) → P x → p x ≡ true → P (f x))
      → (xs : List A) → All P xs
      → All P (set_where p f xs)
  All-set_where P p f step [] h = tt
  All-set_where P p f step (x ∷ xs) h =
      (ground (arith, step x h.0), All-set_where P p f step xs h.1)

  -- The first row that a clause selects, for running the model.
  abbrev pub first : (A → Bool) → List A → Option A
  first p [] = none
  first p (x ∷ xs) = let rest = first p xs in if p x then some x else rest

  -- The sum of a column.
  abbrev pub sum_of : (A → ℤ) → List A → ℤ
  sum_of f [] = pos 0
  sum_of f (x ∷ xs) = f x +ℤ sum_of f xs

  pub Has-holds : (p : A → Bool) (r : A) (rows : List A) → Has p r rows → p r ≡ true
  Has-holds p r [] m = absurd m
  Has-holds p r (x ∷ xs) (inl m) = subst (λ y. p y ≡ true) (m.0) (m.1)
  Has-holds p r (x ∷ xs) (inr m) = Has-holds p r xs m

  pub All-weaken :
      (P Q : A → Type 0) → ((x : A) → P x → Q x) → (rows : List A) → All P rows → All Q rows
  All-weaken P Q step [] h = tt
  All-weaken P Q step (x ∷ xs) h = (step x h.0, All-weaken P Q step xs h.1)
