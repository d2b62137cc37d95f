-- ===== src/Cluster/Transport.antt =====
-- crates/orlando-cluster/src/transport.rs: where a silo sends a call that it is asked to serve: to the
-- silo that the ring names, to the cluster that owns the grain, to the silo on which the grain is
-- active, or to its own registry; and cluster_gateway.rs, which serves the calls of other clusters.
-- What the network libraries and std do (the parse of a number, a lookup over all silos, what stands
-- behind the endpoint of another cluster) are arguments.
pub mod Network
pub mod Residency
pub mod Claims
use mathlib.Core.Option
use orlando.Base.{
  ℕ, zero, suc, ◌+◌, ◌*◌, Bool, true, false, not, List, [], ◌∷◌, Option, none, some, ltb, leb,
  if◌then◌else◌, same, any, lookup, insert, length, show, Result, ok, err,
}
use orlando.Core.Ids.{Text, text_key, GrainId, format_id}
use orlando.Persistence.Store.{Bytes}
use orlando.Cluster.Ring
use orlando.Cluster.Ring.{SiloAddress, HashRing}
use orlando.Cluster.Auth.{Status, invalid_argument, internal, unavailable, failed_precondition}
use orlando.Cluster.Ownership.{GrainOwnership, DirectoryError}
use orlando.Cluster.Registry.{
  MessageRegistry, Context, Encoding, ClusterError, from_proto, to_proto, grain_type_str,
  allowed_for, dispatch,
}

abbrev pub max_hops : ℕ
max_hops = 3

-- "__orlando_hop_count"
unfoldable pub hop_count_key : Text
hop_count_key =
    0x5f ∷ 0x5f ∷ 0x6f ∷ 0x72 ∷ 0x6c ∷ 0x61 ∷ 0x6e ∷ 0x64 ∷ 0x6f ∷ 0x5f ∷ 0x68 ∷ 0x6f ∷ 0x70 ∷ 0x5f
    ∷ 0x63 ∷ 0x6f ∷ 0x75 ∷ 0x6e ∷ 0x74 ∷ []

abbrev pub max_payload_size : ℕ
max_payload_size = 64 * 1024 * 1024

pub record InvokeRequest : Type 0 where
  pub grain_type : Text
  pub grain_key : Text
  pub message_type : Text
  pub payload : Bytes
  pub encoding : ℕ
  pub request_context : Context
  pub message_version : ℕ

pub record InvokeResponse : Type 0 where
  pub payload : Bytes
  pub error : Text
  pub encoding : ℕ

-- The directory of the clusters, this cluster and the gateways of the others.
-- cluster_gateway.rs; `error_text` is how an error of the registry is written.
pub record ClusterGatewayService (W : Type 0) : Type 0 where
  pub registry : MessageRegistry W
  pub error_text : ClusterError → Text

pub record CrossCluster (W : Type 0) : Type 0 where
  pub lookup_owner : GrainId → W → W × Result DirectoryError (Option GrainOwnership)
  pub register : GrainId → Text → ℕ → W → W × Result DirectoryError GrainOwnership
  pub local_cluster_id : Text
  pub peer_endpoints : List (Text × Text)
  pub gateways : Text → Option (ClusterGatewayService W)  -- what a connection reaches, if anything

pub record TransportService (W : Type 0) : Type 0 where
  pub registry : MessageRegistry W
  pub ring : HashRing
  pub local_silo_id : Text
  pub authenticate : InvokeRequest → Result Status (Unit {0})
  pub cross_cluster : Option (CrossCluster W)
  pub is_active : GrainId → W → Bool  -- `get_sender` finds an open mailbox
  pub elsewhere : Text → Text → W → Option Text  -- `lookup_grain_cluster_wide`
  pub error_text : ClusterError → Text

parsed : (Text → Option ℕ) → Option Text → ℕ
parsed parse none = 0
parsed parse (some v) = Option.get_or (parse v) 0

unfoldable pub hop_count : (Text → Option ℕ) → InvokeRequest → ℕ
unfolding parsed hop_count_key
hop_count parse req = parsed parse (lookup hop_count_key req.request_context)

-- The request with one hop more.
unfoldable pub forwarded : (Text → Option ℕ) → InvokeRequest → InvokeRequest
unfolding hop_count
forwarded parse req = record req {
  request_context = insert hop_count_key (show (hop_count parse req + 1)) req.request_context;
}

unfoldable pub other_silo : Text → Option SiloAddress → Option Text
other_silo local_silo_id none = none
other_silo local_silo_id (some target) =
    if same target.silo_id local_silo_id then none else some (Ring.endpoint target)

unfoldable pub find_owner : {W : Type 0} → TransportService W → InvokeRequest → Option Text
unfolding other_silo
find_owner s req =
    other_silo s.local_silo_id (Ring.get (format_id req.grain_type req.grain_key) s.ring)

-- The first of the clusters that has a gateway.
first_peer : List Text → List (Text × Text) → Option Text
first_peer [] peers = none
first_peer (c ∷ cs) peers = elim (lookup c peers) [
  | some endpoint ↦ some endpoint
  | none ↦ first_peer cs peers
]

module _ {W : Type 0} (c : CrossCluster W) (id : GrainId) where
  -- The grain has no owner: `none` of the clusters it may live in is a restriction.
  unowned : Option (List Text) → W → W × Result Status (Option Text)
  unfolding first_peer
  unowned none w = let (w', _) = c.register id c.local_cluster_id 1 w in (w', ok none)
  unowned (some allowed) w =
      if any (λ a. same a c.local_cluster_id) allowed
      then (let (w', _) = c.register id c.local_cluster_id 1 w in (w', ok none))
      else elim (first_peer allowed c.peer_endpoints) [
        | some endpoint ↦ (w, ok (some endpoint))
        | none ↦ (w, err failed_precondition)
      ]

  with_owner :
      Option (List Text)
      → Result DirectoryError (Option GrainOwnership)
      → W
      → W × Result Status (Option Text)
  unfolding unowned
  with_owner allowed (ok none) w = unowned allowed w
  with_owner allowed (ok (some o)) w =
      if same o.cluster_id c.local_cluster_id
      then (w, ok none)
      else (w, ok (lookup o.cluster_id c.peer_endpoints))
  with_owner allowed (err e) w = (w, ok none)

of_type :
    {W : Type 0}
    → CrossCluster W
    → MessageRegistry W
    → InvokeRequest
    → Option Text
    → W
    → W × Result Status (Option Text)
unfolding with_owner
of_type c m req none w = (w, ok none)
of_type c m req (some type_name) w =
    let id : GrainId = record { type_name = type_name; key = req.grain_key } in
    let (w', r) = c.lookup_owner id w in with_owner c id (allowed_for req.grain_type m) r w'

-- The gateway that the call is forwarded to, if it is not for this cluster.
unfoldable pub check_cross_cluster :
    {W : Type 0}
    → CrossCluster W
    → MessageRegistry W
    → InvokeRequest
    → W
    → W × Result Status (Option Text)
unfolding of_type
check_cross_cluster c m req w = of_type c m req (grain_type_str req.grain_type m) w

-- The answer of the silo's own registry: an error of the call is an answer, not a status.
unfoldable pub response :
    (ClusterError → Text) → Encoding → Result ClusterError (Bytes × Encoding) → InvokeResponse
response error_text encoding (ok (payload, enc)) = record {
  payload = payload;
  error = [];
  encoding = to_proto enc;
}
response error_text encoding (err e) = record {
  payload = [];
  error = error_text e;
  encoding = to_proto encoding;
}

module _ {W : Type 0} (error_text : ClusterError → Text) where
  unfoldable pub dispatch_here :
      MessageRegistry W → InvokeRequest → W → W × Result Status InvokeResponse
  unfolding response
  dispatch_here m req w =
      let encoding = from_proto req.encoding in
      let (w', r) =
        dispatch req.grain_key req.payload encoding req.request_context req.grain_type
          req.message_type req.message_version m w in
      (w', ok (response error_text encoding r))

  -- `ClusterGatewayService::forward_invoke`
  unfoldable pub forward_invoke :
      MessageRegistry W → InvokeRequest → W → W × Result Status InvokeResponse
  forward_invoke m req w =
      if ltb max_payload_size (length req.payload)
      then (w, err invalid_argument)
      else dispatch_here m req w

-- What a call of another cluster's gateway comes back as.
from_gateway : {W : Type 0} → W × Result Status InvokeResponse → W × Result Status InvokeResponse
from_gateway (w, ok r) = (w, ok r)
from_gateway (w, err e) = (w, err internal)

-- The gateway serves the call itself, with the same fields, and does not count it as a hop.
unfoldable pub forward_to_cluster :
    {W : Type 0} → CrossCluster W → Text → InvokeRequest → W → W × Result Status InvokeResponse
unfolding from_gateway forward_invoke
forward_to_cluster c endpoint req w = elim (c.gateways endpoint) [
  | none ↦ (w, err unavailable)
  | some g ↦ from_gateway (forward_invoke g.error_text g.registry req w)
]
