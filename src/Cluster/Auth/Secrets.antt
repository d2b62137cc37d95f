-- ===== src/Cluster/Auth/Secrets.antt =====
-- crates/orlando-cluster/src/auth.rs: which requests the shared secret lets through.
use Prim.Native.Nat.{bit_xor, bit_or, bit_xor-bitwise, bit_or-bitwise, digits, differ}
use orlando.Base.{
  ℕ, zero, suc, ◌/◌, ◌%◌, ◌≤◌, max, ◌≡◌, ◌↔◌, refl, sym, ap, ◌∙◌, true, [], ◌∷◌, Option, none, some,
  ok, length, arith,
}
use orlando.Core.Ids.{Text}
use orlando.Persistence.Store.{Bytes}
use orlando.Cluster.Auth.{diff_from, constant_time_eq, checked, authenticate}

differ-zero : (a b : ℕ) → differ a b ≡ 0 → a ≡ b
differ-zero zero b h = sym h
differ-zero (suc a) zero h = h
differ-zero (suc a) (suc b) h = ap suc (differ-zero a b h)

differ-same : (a : ℕ) → differ a a ≡ 0
differ-same zero = refl
differ-same (suc a) = differ-same a

xor_digits : ℕ → ℕ → ℕ → ℕ
xor_digits = digits (λ b. b) differ

xor_digits-zero : (n a b : ℕ) → a ≤ n → xor_digits n a b ≡ 0 → a ≡ b
unfolding xor_digits
xor_digits-zero zero a b l h = omega (arith, l, h)
xor_digits-zero (suc n) zero b l h = sym h
xor_digits-zero (suc n) (suc a) b l h =
    let low = differ-zero (suc a % 2) (b % 2) (omega (arith, h)) in
    let high = xor_digits-zero n (suc a / 2) (b / 2) (omega (arith, l)) (omega (arith, h)) in
    omega (arith, low, high)

xor_digits-same : (n a : ℕ) → a ≤ n → xor_digits n a a ≡ 0
unfolding xor_digits
xor_digits-same zero a l = omega (arith, l)
xor_digits-same (suc n) zero l = refl
xor_digits-same (suc n) (suc a) l =
    omega (arith, differ-same (suc a % 2), xor_digits-same n (suc a / 2) (omega (arith, l)))

max-zero : (a b : ℕ) → max a b ≡ 0 → (a ≡ 0) × (b ≡ 0)
max-zero a b h = (omega (arith, h), omega (arith, h))

or_digits : ℕ → ℕ → ℕ → ℕ
or_digits = digits (λ b. b) max

or_digits-zero : (n a b : ℕ) → a ≤ n → or_digits n a b ≡ 0 → (a ≡ 0) × (b ≡ 0)
unfolding or_digits
or_digits-zero zero a b l h = (omega (arith, l), h)
or_digits-zero (suc n) zero b l h = (refl, h)
or_digits-zero (suc n) (suc a) b l h =
    let low = max-zero (suc a % 2) (b % 2) (omega (arith, h)) in
    let high = or_digits-zero n (suc a / 2) (b / 2) (omega (arith, l)) (omega (arith, h)) in
    (omega (arith, low.0, high.0), omega (arith, low.1, high.1))

bit_xor_digits : (a b : ℕ) → bit_xor a b ≡ xor_digits a a b
unfolding xor_digits
bit_xor_digits a b = λ i. bit_xor-bitwise a b i

bit_or_digits : (a b : ℕ) → bit_or a b ≡ or_digits a a b
unfolding or_digits
bit_or_digits a b = λ i. bit_or-bitwise a b i

bit_xor-zero : (a b : ℕ) → bit_xor a b ≡ 0 → a ≡ b
bit_xor-zero a b h = xor_digits-zero a a b (omega arith) (sym (bit_xor_digits a b) ∙ h)

bit_xor-same : (a : ℕ) → bit_xor a a ≡ 0
bit_xor-same a = bit_xor_digits a a ∙ xor_digits-same a a (omega arith)

bit_or-zero : (a b : ℕ) → bit_or a b ≡ 0 → (a ≡ 0) × (b ≡ 0)
bit_or-zero a b h = or_digits-zero a a b (omega arith) (sym (bit_or_digits a b) ∙ h)

bit_or-none : bit_or 0 0 ≡ 0
unfolding or_digits
bit_or-none = bit_or_digits 0 0

diff_from-zero :
    (d : ℕ) (a b : Bytes) → length a ≡ length b → diff_from d a b ≡ 0 → (d ≡ 0) × (a ≡ b)
unfolding diff_from
diff_from-zero d [] [] l h = (h, refl)
diff_from-zero d [] (y ∷ b) l h = absurd (omega (arith, l))
diff_from-zero d (x ∷ a) [] l h = absurd (omega (arith, l))
diff_from-zero d (x ∷ a) (y ∷ b) l h =
    let (zeros, rest) = diff_from-zero (bit_or d (bit_xor x y)) a b (omega (arith, l)) h in
    let (first, differs) = bit_or-zero d (bit_xor x y) zeros in
    let here = bit_xor-zero x y differs in (first, cc)

diff_from-same : (a : Bytes) → diff_from 0 a a ≡ 0
unfolding diff_from
diff_from-same [] = refl
diff_from-same (x ∷ a) =
    ap (λ d. diff_from d a a) (ap (bit_or 0) (bit_xor-same x) ∙ bit_or-none) ∙ diff_from-same a

-- The comparison that takes the same time for every text of one length is equality.
pub constant_time_eq_iff : (a b : Bytes) → (constant_time_eq a b ≡ true) ↔ (a ≡ b)
unfolding constant_time_eq
constant_time_eq_iff a b = (
  λ h. (diff_from-zero 0 a b (ground (arith, h)) (ground (arith, h))).1,
  λ e. rw e (ground (arith, diff_from-same b)),
)

checked_iff :
    (secret : Text) (o : Option Text)
    → (checked secret o ≡ ok tt) ↔ ((text : Text) × (o ≡ some text) × (text ≡ secret))
unfolding checked
checked_iff secret none = (λ h. absurd (ground arith), λ e. absurd (ground arith))
checked_iff secret (some text) = (
  λ h. (text, refl, (constant_time_eq_iff text secret).0 (ground (arith, h))),
  λ e. ground (arith, (constant_time_eq_iff text secret).1, e),
)

-- A request passes exactly if it carries a header whose text is the secret: one without a header, as
-- it is sent where no token is attached, does not pass whatever the secret is.
pub authenticate_iff :
    (to_str : Bytes → Option Text) (secret : Text) (header : Option Bytes)
    → (authenticate to_str secret header ≡ ok tt)
      ↔ ((v : Bytes) × (header ≡ some v) × (to_str v ≡ some secret))
unfolding authenticate
authenticate_iff to_str secret none = (λ h. absurd (ground arith), λ e. absurd (ground arith))
authenticate_iff to_str secret (some v) = (
  λ h.
      let (text, given, same_text) = (checked_iff secret (to_str v)).0 h in
      (v, refl, given ∙ ap some same_text),
  λ e. (checked_iff secret (to_str v)).1 (secret, ground (arith, e), refl),
)
