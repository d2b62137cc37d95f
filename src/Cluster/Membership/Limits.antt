-- ===== src/Cluster/Membership/Limits.antt =====
-- crates/orlando-cluster/src/membership.rs: how many joins the rate limiter lets through.
use orlando.Base.{ℕ, suc, ◌+◌, ◌-◌, ◌*◌, ◌/◌, ◌≤◌, ◌<◌, List, [], ◌∷◌, ok, err, arith, All, ◌≡◌}
use orlando.Cluster.Membership.{RateLimiter, check}

-- How many of the checks made at the given times are let through.
unfoldable pub admitted : List ℕ → RateLimiter → ℕ
admitted [] l = 0
admitted (now ∷ times) l =
    let (l', r) = check now l in
    let later = admitted times l' in elim r [ ok _ ↦ suc later | err _ ↦ later ]

-- The time lies in the second that begins at the given one.
abbrev pub Within : ℕ → ℕ → Type 0
Within start now = (start ≤ now) × (now < start + 1000000000)

-- In the second of the limiter's own window, only what is left of the count passes.
admitted-window :
    (times : List ℕ) (l : RateLimiter)
    → All (λ now. now < l.start + 1000000000) times
    → l.count ≤ l.max_per_second
    → admitted times l + l.count ≤ l.max_per_second
unfolding admitted check
admitted-window [] l h c = omega (arith, c)
admitted-window (now ∷ times) l (p, h) c =
    let same_window : (now - l.start) / 1000000000 ≡ 0 = omega (arith, p) in
    ground (
      arith,
      same_window,
      admitted-window times (record l { count = l.count + 1 }) h,
      admitted-window times l h,
    )

later_window :
    (start now : ℕ) (times : List ℕ)
    → start ≤ now
    → All (Within start) times
    → All (λ t. t < now + 1000000000) times
later_window start now [] h a = tt
later_window start now (t ∷ times) h (p, a) =
    (omega (arith, h, p.1), later_window start now times h a)

two_windows :
    (start : ℕ) (times : List ℕ) (l : RateLimiter)
    → All (Within start) times
    → l.count ≤ l.max_per_second
    → 1 ≤ l.max_per_second
    → admitted times l + l.count ≤ 2 * l.max_per_second
unfolding admitted check
two_windows start [] l h c m = omega (arith, c)
two_windows start (now ∷ times) l (p, h) c m = ground (
  arith,
  admitted-window times (record l { start = now; count = 1 }) (later_window start now times p.0 h)
      m,
  two_windows start times (record l { count = l.count + 1 }) h,
  two_windows start times l h c m,
)

-- A limiter for at least one call per second lets at most twice its number through in any second,
-- whatever it had let through before: its window may end within the second, and then it counts anew.
pub admitted-Within :
    (start : ℕ) (times : List ℕ) (l : RateLimiter)
    → All (Within start) times
    → l.count ≤ l.max_per_second
    → 1 ≤ l.max_per_second
    → admitted times l ≤ 2 * l.max_per_second
admitted-Within start times l h c m = omega (arith, two_windows start times l h c m)
