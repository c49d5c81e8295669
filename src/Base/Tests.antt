-- ===== src/Base/Tests.antt =====
-- Boolean tests on numbers and optional texts, the conditional, and case splits that keep the
-- equation.
use Prim.Native.Nat.{ℕ, compare, Ordering}
use Prim.Native.String.{String}
use mathlib.Core.Path.{◌≡◌, refl}
use mathlib.Core.Logic.{◌⊎◌, inl, inr}
use mathlib.Core.Bool.{Bool, true, false}
use mathlib.Core.Option.{Option, none, some}
use text.Mathlib.Text.{◌==◌}

abbrev pub ltb : ℕ → ℕ → Bool
ltb a b = elim (compare a b) [ Ordering.lt ↦ true | _ ↦ false ]

abbrev pub leb : ℕ → ℕ → Bool
leb a b = elim (compare a b) [ Ordering.gt ↦ false | _ ↦ true ]

infix 1 if◌then◌else◌
abbrev pub if◌then◌else◌ {ℓ} : {A : Type ℓ} → Bool → A → A → A
if true then x else _ = x
if false then _ else y = y

pub Bool-cases : (b : Bool) → (b ≡ true) ⊎ (b ≡ false)
Bool-cases true = inl refl
Bool-cases false = inr refl

pub Option-cases {ℓ} : {A : Type ℓ} (o : Option A) → (o ≡ none) ⊎ ((a : A) × (o ≡ some a))
Option-cases none = inl refl
Option-cases (some a) = inr (a, refl)

abbrev pub is_none {ℓ} : {A : Type ℓ} → Option A → Bool
is_none none = true
is_none (some _) = false

-- The value of `o ?? d`.
abbrev pub otherwise {ℓ} : {A : Type ℓ} → Option A → A → A
otherwise none d = d
otherwise (some a) _ = a

-- The value of `o ?? p` where `p` may be missing too.
abbrev pub or_else {ℓ} : {A : Type ℓ} → Option A → Option A → Option A
or_else none p = p
or_else (some a) _ = some a

-- JavaScript's `===` between texts that may be missing.
abbrev pub same_text : Option String → Option String → Bool
same_text none none = true
same_text none (some _) = false
same_text (some _) none = false
same_text (some a) (some b) = a == b

-- JavaScript's truth of a text: a missing text and the empty one are false.
abbrev pub given : Option String → Option String
given none = none
given (some t) = if t == "" then none else some t
