-- ===== src/Base/Kept.antt =====
-- Tables of which no row is lost: each row stands in the later table as a row that it is related to.
use mathlib.Core.Logic.{◌⊎◌, inl, inr}
use mathlib.Core.Path.{◌≡◌}
use mathlib.Core.Bool.{Bool, true}
use mathlib.Core.List.{List, [], ◌∷◌}
use jimpitan.Base.Tests.{Bool-cases, if◌then◌else◌}
use jimpitan.Base.Rows.{All, All-weaken, set_where}

module _ {A : Type 0} where
  -- A property of some row.
  abbrev pub Some : (A → Type 0) → List A → Type 0
  Some P [] = ⊥
  Some P (x ∷ xs) = P x ⊎ Some P xs

  abbrev pub Kept : (A → A → Type 0) → List A → List A → Type 0
  Kept R rows later = All (λ r. Some (R r) later) rows

  pub Some-weaken :
      (P Q : A → Type 0) → ((x : A) → P x → Q x) → (xs : List A) → Some P xs → Some Q xs
  Some-weaken P Q step [] h = h
  Some-weaken P Q step (x ∷ xs) (inl h) = inl (step x h)
  Some-weaken P Q step (x ∷ xs) (inr h) = inr (Some-weaken P Q step xs h)

  -- Some row has the property and all rows have what leads from it to the conclusion.
  pub Some-All :
      (P Q : A → Type 0) (C : Type 0)
      → ((x : A) → P x → Q x → C)
      → (xs : List A) → Some P xs
      → All Q xs
      → C
  Some-All P Q C step [] h all = absurd h
  Some-All P Q C step (x ∷ xs) (inl h) all = step x h all.0
  Some-All P Q C step (x ∷ xs) (inr h) all = Some-All P Q C step xs h all.1

  module _ (R : A → A → Type 0) (same : (x : A) → R x x) where
    pub Kept-create : (r : A) (rows later : List A) → Kept R rows later → Kept R rows (r ∷ later)
    Kept-create r rows later h =
        All-weaken (λ x. Some (R x) later) (λ x. Some (R x) (r ∷ later)) (λ x k. inr k) rows h

    pub Kept-refl : (rows : List A) → Kept R rows rows
    Kept-refl [] = tt
    Kept-refl (x ∷ xs) = (inl (same x), Kept-create x xs xs (Kept-refl xs))

    changed :
        (p : A → Bool) (f : A → A)
        → ((x : A) → p x ≡ true → R x (f x))
        → (x : A) → R x (if p x then f x else x)
    changed p f step x = elim (Bool-cases (p x)) [
      | inl holds ↦ rw holds (step x holds)
      | inr fails ↦ rw fails (same x)
    ]

    pub Kept-set_where :
        (p : A → Bool) (f : A → A)
        → ((x : A) → p x ≡ true → R x (f x))
        → (rows : List A) → Kept R rows (set_where p f rows)
    Kept-set_where p f step [] = tt
    Kept-set_where p f step (x ∷ xs) = (
      inl (changed p f step x),
      Kept-create (if p x then f x else x) xs (set_where p f xs) (Kept-set_where p f step xs),
    )

  pub Kept-trans :
      (R : A → A → Type 0)
      → ((x y z : A) → R x y → R y z → R x z)
      → (xs ys zs : List A) → Kept R xs ys
      → Kept R ys zs
      → Kept R xs zs
  Kept-trans R join xs ys zs h k =
      All-weaken (λ x. Some (R x) ys) (λ x. Some (R x) zs)
        (λ x some.
          Some-All (R x) (λ y. Some (R y) zs) (Some (R x) zs)
            (λ y a b. Some-weaken (R y) (R x) (λ z c. join x y z a c) zs b) ys some k)
        xs h
