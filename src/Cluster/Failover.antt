-- ===== src/Cluster/Failover.antt =====
-- crates/orlando-cluster/src/failover.rs: what the failover manager does at each health check, and
-- multi_cluster.rs: the status of a peer. The directory is any implementation of the trait; the
-- statuses of the peers and the clock are arguments.
pub mod Grace
pub mod Sweep
use mathlib.Core.Option
use orlando.Base.{
  ℕ, ◌+◌, ◌-◌, ◌%◌, ◌^◌, max, Bool, true, false, List, [], ◌∷◌, Option, none, some, leb,
  if◌then◌else◌, same, lookup, insert, Result, ok, err,
}
use orlando.Core.Ids.{Text, GrainId, text_key}
use orlando.Cluster.Ownership.{GrainOwnership, DirectoryError, CrossClusterDirectory}

pub data PeerStatus : Type 0 where
  healthy unreachable unknown : PeerStatus

pub data FailoverPhase : Type 0 where
  monitoring : FailoverPhase
  primary_unreachable : (since : ℕ) → FailoverPhase
  promoting : FailoverPhase
  promoted : (epoch : ℕ) → FailoverPhase

module _ {S : Type 0} (dir : CrossClusterDirectory S) (local_cluster : Text) where
  -- The grain is claimed under the epoch that follows its owner's, a u64.
  unfoldable pub promote_grain :
      GrainId → GrainOwnership → S → S × Result DirectoryError GrainOwnership
  promote_grain id current d = dir.register id local_cluster ((current.epoch + 1) % 2 ^ 64) d

  -- The highest epoch that this cluster won.
  won : Result DirectoryError GrainOwnership → ℕ → ℕ
  won (ok o) top = if same o.cluster_id local_cluster then max top o.epoch else top
  won (err e) top = top

  -- The loop over the grains of a failed cluster: it goes on past every failure.
  unfoldable pub sweep : List (GrainId × GrainOwnership) → ℕ → S → S × ℕ
  unfolding promote_grain won
  sweep [] top d = (d, top)
  sweep ((id, o) ∷ gs) top d = let (d', r) = promote_grain id o d in sweep gs (won r top) d'

  swept : Result DirectoryError (List (GrainId × GrainOwnership)) → S → S × FailoverPhase
  unfolding sweep
  swept (err e) d = (d, promoting)
  swept (ok gs) d = let (d', top) = sweep gs 0 d in (d', promoted top)

  -- One peer at one check.
  unfoldable pub check_peer : ℕ → ℕ → Text → PeerStatus → FailoverPhase → S → S × FailoverPhase
  unfolding swept
  check_peer now grace peer healthy phase d = (d, monitoring)
  check_peer now grace peer unknown phase d = (d, phase)
  check_peer now grace peer unreachable monitoring d = (d, primary_unreachable now)
  check_peer now grace peer unreachable (primary_unreachable since) d =
      if leb grace (now - since) then (d, promoting) else (d, primary_unreachable since)
  check_peer now grace peer unreachable promoting d = swept (dir.list_owned_by peer d) d
  check_peer now grace peer unreachable (promoted epoch) d = (d, promoted epoch)

  known_phase : Option FailoverPhase → FailoverPhase
  known_phase none = monitoring
  known_phase (some phase) = phase

  -- One check of all the peers, in the order of the statuses.
  unfoldable pub check_peers :
      ℕ
      → ℕ
      → List (Text × PeerStatus)
      → List (Text × FailoverPhase)
      → S
      → S × List (Text × FailoverPhase)
  unfolding check_peer known_phase
  check_peers now grace [] phases d = (d, phases)
  check_peers now grace ((peer, status) ∷ ps) phases d =
      let (d', phase) = check_peer now grace peer status (known_phase (lookup peer phases)) d in
      check_peers now grace ps (insert peer phase phases) d'
