-- ===== src/Base/Order.antt =====
-- The order of texts, byte by byte, as `str::cmp` has it.
use Prim.Native.Nat.{ℕ}
use mathlib.Core.Path.{◌≡◌, refl}
use mathlib.Core.Logic.{◌⊎◌, inl, inr}
use mathlib.Core.Bool.{Bool, true, false}
use mathlib.Core.List.{List, [], ◌∷◌}
use native.Mathlib.Omega.{arith}
use orlando.Base.Tests.{ltb, ◌==◌, if◌then◌else◌}

unfoldable pub before : List ℕ → List ℕ → Bool
before xs [] = false
before [] (y ∷ ys) = true
before (x ∷ xs) (y ∷ ys) = if ltb x y then true else if x == y then before xs ys else false

pub before_irreflexive : (xs : List ℕ) → before xs xs ≡ false
unfolding before
before_irreflexive [] = refl
before_irreflexive (x ∷ xs) = ground (arith, before_irreflexive xs)

pub before_trans :
    (xs ys zs : List ℕ) → before xs ys ≡ true → before ys zs ≡ true → before xs zs ≡ true
unfolding before
before_trans xs [] zs a b = absurd (ground arith)
before_trans [] (y ∷ ys) [] a b = b
before_trans [] (y ∷ ys) (z ∷ zs) a b = refl
before_trans (x ∷ xs) (y ∷ ys) [] a b = b
before_trans (x ∷ xs) (y ∷ ys) (z ∷ zs) a b = ground (arith, before_trans xs ys zs)

pub before_total : (xs ys : List ℕ) → (xs ≡ ys) ⊎ (before xs ys ≡ true) ⊎ (before ys xs ≡ true)
unfolding before
before_total [] [] = inl refl
before_total [] (y ∷ ys) = inr (inl refl)
before_total (x ∷ xs) [] = inr (inr refl)
before_total (x ∷ xs) (y ∷ ys) = ground (arith, before_total xs ys)
