-- ===== src/Cluster/Auth.antt =====
-- crates/orlando-cluster/src/auth.rs: the check of the shared secret, and connection_pool.rs: the
-- header that an authorized request carries. What the HTTP library makes of a header's value is an
-- argument. The texts of gRPC statuses are left out.
pub mod Secrets
use Prim.Native.Nat.{bit_xor, bit_or}
use mathlib.Core.Option
use orlando.Base.{
  ℕ, Bool, true, false, not, List, [], ◌∷◌, Option, none, some, ◌==◌, if◌then◌else◌, Result, ok,
  err, length,
}
use orlando.Core.Ids.{Text}
use orlando.Persistence.Store.{Bytes}

-- The gRPC codes that the services answer with.
pub data Status : Type 0 where
  resource_exhausted invalid_argument unauthenticated unavailable internal failed_precondition :
      Status

-- The loop of `constant_time_eq`.
unfoldable pub diff_from : ℕ → Bytes → Bytes → ℕ
diff_from diff (x ∷ a) (y ∷ b) = diff_from (bit_or diff (bit_xor x y)) a b
diff_from diff [] b = diff
diff_from diff (x ∷ a) [] = diff

unfoldable pub constant_time_eq : Bytes → Bytes → Bool
unfolding diff_from
constant_time_eq a b = if not (length a == length b) then false else diff_from 0 a b == 0

checked : Text → Option Text → Result Status (Unit {0})
unfolding constant_time_eq
checked expected none = err unauthenticated
checked expected (some value) =
    if constant_time_eq value expected then ok tt else err unauthenticated

-- `SharedSecretAuth::authenticate`, from the request's `authorization` header.
unfoldable pub authenticate : (Bytes → Option Text) → Text → Option Bytes → Result Status (Unit {0})
unfolding checked
authenticate to_str expected none = err unauthenticated
authenticate to_str expected (some value) = checked expected (to_str value)

-- `authorized_request`: the header that the pool's token gives.
unfoldable pub authorized_request : (Text → Option Bytes) → Option Text → Option Bytes
authorized_request parse none = none
authorized_request parse (some token) = parse token
