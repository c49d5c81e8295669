-- ===== src/Base/Keys.antt =====
-- Tables whose rows have distinct keys.
use Prim.Native.String.{String}
use mathlib.Core.Path.{◌≡◌, sym, ◌∙◌, ap}
use mathlib.Core.Logic.{inl, inr}
use mathlib.Core.Bool.{Bool, false}
use mathlib.Core.List.{List, [], ◌∷◌}
use native.Mathlib.Omega.{arith}
use text.Mathlib.Text.{◌==◌}
use text.Mathlib.TextEquality.{eq_iff}
use jimpitan.Base.Tests.{Bool-cases}
use jimpitan.Base.Rows.{set_where, Has, All}

module _ {A : Type 0} where
  abbrev pub Distinct : (A → String) → List A → Type 0
  Distinct key [] = Unit
  Distinct key (x ∷ rows) = All (λ y. (key y == key x) ≡ false) rows × Distinct key rows

  other_keys :
      (key : A → String) (p : A → Bool) (f : A → A) (k : String)
      → ((x : A) → key (f x) ≡ key x)
      → (rows : List A) → All (λ y. (key y == k) ≡ false) rows
      → All (λ y. (key y == k) ≡ false) (set_where p f rows)
  other_keys key p f k same [] h = tt
  other_keys key p f k same (x ∷ xs) h = (ground (arith, same x), other_keys key p f k same xs h.1)

  -- An update that leaves the keys alone keeps them distinct.
  pub set_where-Distinct :
      (key : A → String) (p : A → Bool) (f : A → A)
      → ((x : A) → key (f x) ≡ key x)
      → (rows : List A) → Distinct key rows
      → Distinct key (set_where p f rows)
  set_where-Distinct key p f same [] h = tt
  set_where-Distinct key p f same (x ∷ xs) h = elim (Bool-cases (p x)) [
    | inl e ↦
        rw (e, same x)
          (other_keys key p f (key x) same xs h.0, set_where-Distinct key p f same xs h.1)
    | inr e ↦ rw e (other_keys key p f (key x) same xs h.0, set_where-Distinct key p f same xs h.1)
  ]

  key_differs :
      (key : A → String) (q : A → Bool) (x b : A) (rows : List A)
      → All (λ y. (key y == key x) ≡ false) rows
      → Has q b rows
      → key x ≡ key b
      → ⊥
  key_differs key q x b [] h m e = m
  key_differs key q x b (y ∷ ys) h (inl m) e =
      ground (arith, eq_iff (key y) (key x), ap key (m.0), e)
  key_differs key q x b (y ∷ ys) h (inr m) e = key_differs key q x b ys h.1 m e

  -- Two rows of the table with one key are one row.
  pub Distinct-same :
      (key : A → String) (p q : A → Bool) (a b : A) (rows : List A)
      → Distinct key rows
      → Has p a rows
      → Has q b rows
      → key a ≡ key b
      → a ≡ b
  Distinct-same key p q a b [] d ma mb e = absurd ma
  Distinct-same key p q a b (x ∷ xs) d (inl ma) (inl mb) e = sym (ma.0) ∙ mb.0
  Distinct-same key p q a b (x ∷ xs) d (inl ma) (inr mb) e =
      absurd (key_differs key q x b xs d.0 mb (ap key (ma.0) ∙ e))
  Distinct-same key p q a b (x ∷ xs) d (inr ma) (inl mb) e =
      absurd (key_differs key p x a xs d.0 ma (ap key (mb.0) ∙ sym e))
  Distinct-same key p q a b (x ∷ xs) d (inr ma) (inr mb) e =
      Distinct-same key p q a b xs d.1 ma mb e
