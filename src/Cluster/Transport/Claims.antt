-- ===== src/Cluster/Transport/Claims.antt =====
-- crates/orlando-cluster/src/transport.rs: what the calls that reach a cluster make it claim.
use orlando.Base.{ℕ, ◌≡◌, ◌⊎◌, List, [], ◌∷◌, Option, none, some, Result, ok}
use orlando.Core.Ids.{Text, text_key}
use orlando.Cluster.Auth.{Status}
use orlando.Cluster.Registry.{MessageRegistry, grain_type_str, allowed_for}
use orlando.Cluster.Ownership.{
  InMemoryCrossClusterDirectory, lookup_owner, register, memory_directory,
}
use orlando.Cluster.Transport.{
  InvokeRequest, ClusterGatewayService, CrossCluster, check_cross_cluster,
}
use orlando.Cluster.Transport.Residency.{Contains}

-- The cluster may claim a grain with these restrictions.
Permits : Text → Option (List Text) → Type 0
Permits local_cluster_id none = Unit
Permits local_cluster_id (some allowed) = Contains local_cluster_id allowed

-- This cluster, over the in-memory directory at the time `now`.
unfoldable pub with_memory_directory :
    ℕ
    → Text
    → List (Text × Text)
    → (Text → Option (ClusterGatewayService InMemoryCrossClusterDirectory))
    → CrossCluster InMemoryCrossClusterDirectory
with_memory_directory now local_cluster_id peers gateways = record {
  lookup_owner = λ id d. (d, ok (lookup_owner id d));
  register = (memory_directory now).register;
  local_cluster_id = local_cluster_id;
  peer_endpoints = peers;
  gateways = gateways;
}

module _ (m : MessageRegistry InMemoryCrossClusterDirectory) (local_cluster_id : Text)
    (peers : List (Text × Text))
    (gateways : Text → Option (ClusterGatewayService InMemoryCrossClusterDirectory)) where
  -- The check of one call at the time `now`.
  unfoldable pub checked_at :
      ℕ
      → InvokeRequest
      → InMemoryCrossClusterDirectory
      → InMemoryCrossClusterDirectory × Result Status (Option Text)
  unfolding with_memory_directory
  checked_at now req d =
      check_cross_cluster (with_memory_directory now local_cluster_id peers gateways) m req d

  -- The directory after the calls, each with its time.
  unfoldable pub after_calls :
      List (ℕ × InvokeRequest) → InMemoryCrossClusterDirectory → InMemoryCrossClusterDirectory
  after_calls [] d = d
  after_calls ((now, req) ∷ rest) d = after_calls rest (checked_at now req d).0

  -- The directory stays, or the grain is registered for this cluster, which its type permits.
  Effect :
      ℕ → InvokeRequest → InMemoryCrossClusterDirectory → InMemoryCrossClusterDirectory → Type 0
  Effect now req d d' =
      (d' ≡ d)
      ⊎ ((name : Text) × (grain_type_str req.grain_type m ≡ some name)
          × Permits local_cluster_id (allowed_for req.grain_type m)
          × (d'
              ≡ (register now (record { type_name = name; key = req.grain_key }) local_cluster_id 1
                  d).0))
