-- ===== src/Base/Map.antt =====
-- Association lists for the source's hash maps: at most one entry is read or left for a key.
use mathlib.Core.Path.{◌≡◌, refl}
use mathlib.Core.List.{List, [], ◌∷◌}
use mathlib.Core.Option.{Option, none, some}
use Prim.Native.Nat.{suc}
use native.Mathlib.Omega.{arith}
use orlando.Base.Tests.{Key, same, if◌then◌else◌}
use orlando.Base.Lists.{length}

module _ {ℓ κ} {K : Type ℓ} {V : Type κ} ⦃k : Key K⦄ where
  unfoldable pub lookup : K → List (K × V) → Option V
  lookup j [] = none
  lookup j ((i, v) ∷ m) = if same i j then some v else lookup j m

  unfoldable pub insert : K → V → List (K × V) → List (K × V)
  insert j v [] = (j, v) ∷ []
  insert j v ((i, w) ∷ m) = if same i j then (j, v) ∷ m else (i, w) ∷ insert j v m

  unfoldable pub remove : K → List (K × V) → List (K × V)
  remove j [] = []
  remove j ((i, w) ∷ m) = if same i j then remove j m else (i, w) ∷ remove j m

  pub lookup-insert :
      (i j : K) (v : V) (m : List (K × V))
      → lookup j (insert i v m) ≡ (if same i j then some v else lookup j m)
  unfolding lookup insert
  lookup-insert i j v [] = refl
  lookup-insert i j v ((h, w) ∷ m) = ground (arith, lookup-insert i j v m)

  pub lookup-remove :
      (i j : K) (m : List (K × V)) → lookup j (remove i m) ≡ (if same i j then none else lookup j m)
  unfolding lookup remove
  lookup-remove i j [] = ground arith
  lookup-remove i j ((h, w) ∷ m) = ground (arith, lookup-remove i j m)

  -- A new key adds one entry, a known one none.
  pub length-insert :
      (j : K) (v : V) (m : List (K × V))
      → length (insert j v m) ≡ (elim (lookup j m) [ none ↦ suc (length m) | some _ ↦ length m ])
  unfolding lookup insert
  length-insert j v [] = refl
  length-insert j v ((i, w) ∷ m) = ground (arith, length-insert j v m)

  -- No key stands twice, as in the source's maps.
  abbrev pub Distinct : List (K × V) → Type κ
  Distinct [] = Unit
  Distinct ((i, v) ∷ m) = (lookup i m ≡ none) × Distinct m

  pub insert-Distinct : (j : K) (v : V) (m : List (K × V)) → Distinct m → Distinct (insert j v m)
  unfolding lookup insert
  insert-Distinct j v [] d = (refl, tt)
  insert-Distinct j v ((i, w) ∷ m) d =
      ground (arith, insert-Distinct j v m d.1, lookup-insert j i v m)

  pub remove-Distinct : (j : K) (m : List (K × V)) → Distinct m → Distinct (remove j m)
  unfolding lookup remove
  remove-Distinct j [] d = tt
  remove-Distinct j ((i, w) ∷ m) d = ground (arith, remove-Distinct j m d.1, lookup-remove j i m)
