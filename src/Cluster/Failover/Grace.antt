-- ===== src/Cluster/Failover/Grace.antt =====
-- When a failover may begin: what the checks of a peer have seen.
use orlando.Base.{ℕ, ◌-◌, ◌≤◌, ◌≢◌, List, [], ◌∷◌, leb, if-taken, arith, Result, ok, err}
use orlando.Core.Ids.{Text, GrainId}
use orlando.Cluster.Ownership.{GrainOwnership, DirectoryError, CrossClusterDirectory}
use orlando.Cluster.Failover.{
  PeerStatus, healthy, unreachable, unknown, FailoverPhase, monitoring, primary_unreachable,
  promoting, promoted, swept, check_peer,
}

-- What the checks saw, the last one first: the peer was unreachable at `t` and never healthy since.
pub data Down (t : ℕ) : List (ℕ × PeerStatus) → Type 0 where
  at : {h : List (ℕ × PeerStatus)} → Down t ((t, unreachable) ∷ h)
  since :
      {n : ℕ} {s : PeerStatus} {h : List (ℕ × PeerStatus)}
      → s ≢ healthy
      → Down t h
      → Down t ((n, s) ∷ h)

-- The peer was unreachable at two checks that the grace period lies between, and never healthy since
-- the first.
pub data Overdue (grace : ℕ) : List (ℕ × PeerStatus) → Type 0 where
  at :
      {t n : ℕ} {h : List (ℕ × PeerStatus)}
      → Down t h
      → grace ≤ n - t
      → Overdue grace ((n, unreachable) ∷ h)
  since :
      {n : ℕ} {s : PeerStatus} {h : List (ℕ × PeerStatus)}
      → s ≢ healthy
      → Overdue grace h
      → Overdue grace ((n, s) ∷ h)

pub IsJustified : ℕ → FailoverPhase → List (ℕ × PeerStatus) → Type 0
IsJustified grace monitoring h = Unit
IsJustified grace (primary_unreachable t) h = Down t h
IsJustified grace promoting h = Overdue grace h
IsJustified grace (promoted epoch) h = Overdue grace h

module _ {S : Type 0} (dir : CrossClusterDirectory S) (local_cluster peer : Text) (grace : ℕ) where
  -- The checks of one peer from the manager's start, the last one first.
  unfoldable pub watch : List (ℕ × PeerStatus) → S → S × FailoverPhase
  watch [] d = (d, monitoring)
  watch ((now, status) ∷ h) d =
      let (d', phase) = watch h d in check_peer dir local_cluster now grace peer status phase d'

  unreachable_ne : unreachable ≢ healthy
  unreachable_ne = λ e. absurd (ground arith)

  unknown_ne : unknown ≢ healthy
  unknown_ne = λ e. absurd (ground arith)

  not_healthy :
      (now : ℕ) (phase : FailoverPhase) (s : PeerStatus) (h : List (ℕ × PeerStatus))
      → s ≢ healthy
      → IsJustified grace phase h
      → IsJustified grace phase ((now, s) ∷ h)
  unfolding IsJustified
  not_healthy now monitoring s h ne j = tt
  not_healthy now (primary_unreachable t) s h ne j = since ne j
  not_healthy now promoting s h ne j = since ne j
  not_healthy now (promoted epoch) s h ne j = since ne j

  swept-IsJustified :
      (now : ℕ) (h : List (ℕ × PeerStatus)) (d : S)
      (r : Result DirectoryError (List (GrainId × GrainOwnership)))
      → Overdue grace h
      → IsJustified grace (swept dir local_cluster r d).1 h
  unfolding swept IsJustified
  swept-IsJustified now h d (ok gs) j = j
  swept-IsJustified now h d (err e) j = j

  check_peer-IsJustified :
      (now : ℕ) (s : PeerStatus) (phase : FailoverPhase) (h : List (ℕ × PeerStatus)) (d : S)
      → IsJustified grace phase h
      → IsJustified grace (check_peer dir local_cluster now grace peer s phase d).1 ((now, s) ∷ h)
  unfolding check_peer IsJustified
  check_peer-IsJustified now healthy phase h d j = tt
  check_peer-IsJustified now unknown phase h d j = not_healthy now phase unknown h unknown_ne j
  check_peer-IsJustified now unreachable monitoring h d j = at
  check_peer-IsJustified now unreachable (primary_unreachable t) h d j =
      let P : S × FailoverPhase → Type 0 = λ r. IsJustified grace r.1 ((now, unreachable) ∷ h) in
      if-taken P (leb grace (now - t)) (λ c. at j (ground arith)) (λ c. since unreachable_ne j)
  check_peer-IsJustified now unreachable promoting h d j =
      swept-IsJustified now ((now, unreachable) ∷ h) d (dir.list_owned_by peer d)
        (since unreachable_ne j)
  check_peer-IsJustified now unreachable (promoted epoch) h d j = since unreachable_ne j

  -- Whatever the directory does, the manager comes to promote a peer's grains only after two checks
  -- that saw the peer unreachable, the grace period or more apart, and no check since the first saw it
  -- healthy; it waits only while no check since the first unreachable one saw it healthy.
  pub watch-IsJustified : (h : List (ℕ × PeerStatus)) (d : S) → IsJustified grace (watch h d).1 h
  unfolding watch IsJustified
  watch-IsJustified [] d = tt
  watch-IsJustified ((now, s) ∷ h) d =
      let (d', phase) = watch h d in check_peer-IsJustified now s phase h d' (watch-IsJustified h d)
