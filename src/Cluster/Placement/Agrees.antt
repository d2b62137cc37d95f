-- ===== src/Cluster/Placement/Agrees.antt =====
-- crates/orlando-cluster/src/cluster_silo.rs and transport.rs: the silo that a reference names and the
-- silo to which its transport passes a call.
use orlando.Base.{ℕ, Bool, ◌≡◌, refl, Option, none, some, if◌then◌else◌, same}
use orlando.Core.Ids.{Text, text_key, GrainId, format_id}
use orlando.Cluster.Ring
use orlando.Cluster.Ring.{SiloAddress, HashRing}
use orlando.Cluster.Transport.{TransportService, InvokeRequest, other_silo, find_owner}
use orlando.Runtime.Directory.{GrainDirectory}
use orlando.Cluster.Placement.{
  PlacementStrategy, strategy_for, away, local_activate, ref_to, get_ref,
}

-- A reference names the silo that the strategy places the grain on, and the transport of that silo
-- keeps the call exactly if the ring gives the grain to that silo: under the strategy of the ring a
-- call makes no hop, and under another one the named silo passes the call on to the owner that the
-- ring names. Both silos have the same ring, which is not empty.
pub get_ref-find_owner :
    {W : Type 0}
    → (is_closed : ℕ → Bool) (local_addr : SiloAddress) (id : GrainId) (pick : ℕ → ℕ)
      (placement : PlacementStrategy) (hint : Option Text) (d : GrainDirectory)
      (s : TransportService W) (req : InvokeRequest) (t owner : SiloAddress)
    → strategy_for pick placement hint id.type_name id.key local_addr.silo_id s.ring ≡ some t
    → Ring.get (format_id id.type_name id.key) s.ring ≡ some owner
    → s.local_silo_id ≡ t.silo_id
    → req.grain_type ≡ id.type_name
    → req.grain_key ≡ id.key
    → (get_ref is_closed local_addr id pick placement hint s.ring d ≡ (
        if same t.silo_id local_addr.silo_id
        then local_activate is_closed local_addr id d
        else (d, away (Ring.endpoint t))))
      × (find_owner s req
          ≡ (if same owner.silo_id t.silo_id then none else some (Ring.endpoint owner)))
unfolding get_ref ref_to find_owner other_silo
get_ref-find_owner is_closed local_addr id pick placement hint d s req t owner placed owned at gt
      gk =
    (rw placed refl, rw (gt, gk, owned, at) refl)
