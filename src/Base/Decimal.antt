-- ===== src/Base/Decimal.antt =====
-- The decimal text of a number, as `format!` and `to_string` write it.
use Prim.Native.Nat.{ℕ, zero, suc, ◌+◌, ◌-◌, ◌*◌, ◌/◌, ◌%◌, ◌<◌, ◌≤◌}
use mathlib.Core.Path.{◌≡◌, refl, ap, sym, ◌∙◌}
use mathlib.Core.List.{List, [], ◌∷◌, ◌++◌}
use native.Mathlib.Omega.{arith}
use mathlib.Core.Bool.{false}
use orlando.Base.Tests.{ltb, ◌==◌, if◌then◌else◌, if-taken}
use orlando.Base.Lists.{All, All-weaken, append-All}

show_fuel : ℕ → ℕ → List ℕ
show_fuel zero n = []
show_fuel (suc f) n =
    let rest = show_fuel f (n / 10) in
    if ltb n 10 then (48 + n) ∷ [] else rest ++ (48 + n % 10) ∷ []

-- A number has fewer digits than its value plus one, so the fuel is enough.
unfoldable pub show : ℕ → List ℕ
unfolding show_fuel
show n = show_fuel (suc n) n

read_from : ℕ → List ℕ → ℕ
read_from acc [] = acc
read_from acc (c ∷ cs) = read_from (acc * 10 + (c - 48)) cs

read_from-append :
    (acc : ℕ) (xs : List ℕ) (c : ℕ)
    → read_from acc (xs ++ c ∷ []) ≡ read_from acc xs * 10 + (c - 48)
unfolding read_from
read_from-append acc [] c = refl
read_from-append acc (x ∷ xs) c = read_from-append (acc * 10 + (x - 48)) xs c

read-show_fuel : (f n : ℕ) → n < f → read_from 0 (show_fuel f n) ≡ n
unfolding show_fuel read_from
read-show_fuel zero n h = elim h [ ]
read-show_fuel (suc f) n h =
    ground
      (arith, read_from-append 0 (show_fuel f (n / 10)) (48 + n % 10), read-show_fuel f (n / 10))

-- The number that a text of digits stands for.
unfoldable pub read : List ℕ → ℕ
unfolding read_from
read t = read_from 0 t

pub read-show : (n : ℕ) → read (show n) ≡ n
unfolding read show
read-show n = read-show_fuel (suc n) n (omega arith)

pub show-injective : (a b : ℕ) → show a ≡ show b → a ≡ b
unfolding show
show-injective a b e =
    sym (read-show_fuel (suc a) a (omega arith))
    ∙ ap (read_from 0) e
    ∙ read-show_fuel (suc b) b (omega arith)

-- A byte of a decimal text.
abbrev IsDigit : ℕ → Type 0
IsDigit d = (48 ≤ d) × (d ≤ 57)

show_fuel-IsDigit : (f n : ℕ) → All IsDigit (show_fuel f n)
unfolding show_fuel
show_fuel-IsDigit zero n = tt
show_fuel-IsDigit (suc f) n =
    if-taken (All IsDigit) (ltb n 10) (λ small. ((omega arith, ground (arith, small)), tt))
      (λ large.
        append-All IsDigit (show_fuel f (n / 10)) ((48 + n % 10) ∷ [])
          (show_fuel-IsDigit f (n / 10)) ((omega arith, omega arith), tt))

show-IsDigit : (n : ℕ) → All IsDigit (show n)
unfolding show
show-IsDigit n = show_fuel-IsDigit (suc n) n

-- The text of a number is ASCII.
pub show_ascii : (n : ℕ) → All (λ d. d < 128) (show n)
show_ascii n = All-weaken IsDigit (λ d. d < 128) (show n) (λ d h. omega (arith, h)) (show-IsDigit n)

-- The text of a number has no colon.
pub show_plain : (n : ℕ) → All (λ d. (d == 0x3a) ≡ false) (show n)
show_plain n =
    All-weaken IsDigit (λ d. (d == 0x3a) ≡ false) (show n) (λ d h. ground (arith, h))
      (show-IsDigit n)

show_runs : show 1024 ≡ 49 ∷ 48 ∷ 50 ∷ 52 ∷ []
unfolding show
show_runs = refl
