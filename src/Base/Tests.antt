-- ===== src/Base/Tests.antt =====
-- Boolean tests on native numbers and on keys, and the conditional.
use Prim.Native.Nat.{ℕ, compare, Ordering}
use mathlib.Core.Path.{◌≡◌, refl}
use mathlib.Core.Logic.{◌↔◌, ◌⊎◌, ◌≢◌, inl, inr}
use mathlib.Core.Bool.{Bool, true, false}
use mathlib.Core.Option.{Option, none, some}
use mathlib.Core.List.{List}
use native.Mathlib.Omega.{arith}
use native.Mathlib.Decide.{ℕ_discrete}

abbrev pub ltb : ℕ → ℕ → Bool
ltb a b = elim (compare a b) [ Ordering.lt ↦ true | _ ↦ false ]

abbrev pub leb : ℕ → ℕ → Bool
leb a b = elim (compare a b) [ Ordering.gt ↦ false | _ ↦ true ]

infix 50 ◌==◌
abbrev pub ◌==◌ : ℕ → ℕ → Bool
a == b = elim (compare a b) [ Ordering.eq ↦ true | _ ↦ false ]

infix 1 if◌then◌else◌
abbrev pub if◌then◌else◌ {ℓ} : {A : Type ℓ} → Bool → A → A → A
if true then x else y = x
if false then x else y = y

-- What holds of both branches holds of the conditional.
pub if-both {ℓ κ} :
    {A : Type ℓ} (P : A → Type κ) (c : Bool) {x y : A} → P x → P y → P (if c then x else y)
if-both P true p q = p
if-both P false p q = q

-- The same, where the branch taken may read its test.
pub if-taken {ℓ κ} :
    {A : Type ℓ} (P : A → Type κ) (c : Bool) {x y : A}
    → (c ≡ true → P x)
    → (c ≡ false → P y)
    → P (if c then x else y)
if-taken P true p q = p refl
if-taken P false p q = q refl

-- A type whose values can be compared: `Eq` of the source.
pub record Key {ℓ} (A : Type ℓ) : Type ℓ where
  pub dec : Discrete A

-- `==` of the source at a type other than the numbers.
abbrev pub same {ℓ} : {A : Type ℓ} ⦃k : Key A⦄ → A → A → Bool
same ⦃k⦄ a b = elim (k.dec a b) [ yes _ ↦ true | no _ ↦ false ]

pub same_iff {ℓ} : {A : Type ℓ} ⦃k : Key A⦄ (a b : A) → (same a b ≡ true) ↔ (a ≡ b)
same_iff ⦃k⦄ a b = ground arith

pub same_refl {ℓ} : {A : Type ℓ} ⦃k : Key A⦄ (a : A) → same a a ≡ true
same_refl ⦃k⦄ a = ground arith

pub same_ne {ℓ} : {A : Type ℓ} ⦃k : Key A⦄ (a b : A) → a ≢ b → same a b ≡ false
same_ne ⦃k⦄ a b h = ground arith

unfoldable pub text_discrete : Discrete (List ℕ)
text_discrete = hlevel ℕ_discrete

-- To split on a computed value and keep the equation.
pub Bool-cases : (b : Bool) → (b ≡ true) ⊎ (b ≡ false)
Bool-cases true = inl refl
Bool-cases false = inr refl

pub Option-cases {ℓ} : {A : Type ℓ} (o : Option A) → (o ≡ none) ⊎ ((a : A) × (o ≡ some a))
Option-cases none = inl refl
Option-cases (some a) = inr (a, refl)
