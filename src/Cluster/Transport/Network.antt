-- ===== src/Cluster/Transport/Network.antt =====
-- crates/orlando-cluster/src/transport.rs: `invoke` on a silo among others, each of which serves what
-- is forwarded to it. The world holds what the silos keep. `none` means that the fuel, which counts
-- the silos that a call may pass through, is used up.
pub mod Hops
pub mod Here
use mathlib.Core.Option
use orlando.Base.{
  ℕ, zero, suc, Bool, true, false, not, ◌&&◌, List, [], ◌∷◌, Option, none, some, ltb, leb,
  if◌then◌else◌, length, Result, ok, err,
}
use orlando.Core.Ids.{Text, GrainId}
use orlando.Cluster.Auth.{Status, invalid_argument, internal, unavailable}
use orlando.Cluster.Registry.{grain_type_str}
use orlando.Cluster.Transport.{
  max_hops, max_payload_size, InvokeRequest, InvokeResponse, CrossCluster, TransportService,
  hop_count, forwarded, find_owner, check_cross_cluster, dispatch_here, forward_to_cluster,
}

abbrev pub Answer : Type 0 → Type 0
Answer W = Option (W × Result Status InvokeResponse)

-- The silo that stands behind an endpoint, if any answers there.
abbrev pub Silos : Type 0 → Type 0
Silos W = Text → Option (TransportService W)

-- `map_err(|e| Status::internal(..))` on the answer of another silo.
relayed : {W : Type 0} → Answer W → Answer W
relayed none = none
relayed (some (w, ok r)) = some (w, ok r)
relayed (some (w, err e)) = some (w, err internal)

-- The grain is active on this silo.
active_here : {W : Type 0} → TransportService W → InvokeRequest → W → Bool
active_here s req w = elim (grain_type_str req.grain_type s.registry) [
  | none ↦ false
  | some type_name ↦ s.is_active (record { type_name = type_name; key = req.grain_key }) w
]

module _ {W : Type 0} (parse : Text → Option ℕ) (silos : Silos W) where
  -- The call goes on to the silo behind the endpoint.
  handed :
      (TransportService W → InvokeRequest → W → Answer W)
      → Option (TransportService W)
      → InvokeRequest
      → W
      → Answer W
  unfolding relayed
  handed next none req w = some (w, err unavailable)
  handed next (some s) req w = relayed (next s (forwarded parse req) w)

  -- The same, unless it has made its hops.
  hop : (TransportService W → InvokeRequest → W → Answer W) → Text → InvokeRequest → W → Answer W
  unfolding handed
  hop next endpoint req w =
      let onward = handed next (silos endpoint) req w in
      if leb max_hops (hop_count parse req) then some (w, err internal) else onward

  found_at :
      (TransportService W → InvokeRequest → W → Answer W)
      → TransportService W
      → Option Text
      → InvokeRequest
      → W
      → Answer W
  unfolding hop
  found_at next s (some endpoint) req w = hop next endpoint req w
  found_at next s none req w = some (dispatch_here s.error_text s.registry req w)

  -- The grain is for this cluster, and for this silo as far as the ring knows.
  settle :
      (TransportService W → InvokeRequest → W → Answer W)
      → TransportService W
      → InvokeRequest
      → W
      → Answer W
  unfolding found_at active_here
  settle next s req w =
      found_at next s
        (if active_here s req w then none else s.elsewhere req.grain_type req.grain_key w) req w

  checked :
      (TransportService W → InvokeRequest → W → Answer W)
      → TransportService W
      → CrossCluster W
      → InvokeRequest
      → W × Result Status (Option Text)
      → Answer W
  unfolding settle forward_to_cluster
  checked next s c req (w, err e) = some (w, err e)
  checked next s c req (w, ok none) = settle next s req w
  checked next s c req (w, ok (some endpoint)) = some (forward_to_cluster c endpoint req w)

  across :
      (TransportService W → InvokeRequest → W → Answer W)
      → TransportService W
      → Option (CrossCluster W)
      → InvokeRequest
      → W
      → Answer W
  unfolding checked settle
  across next s none req w = settle next s req w
  across next s (some c) req w = checked next s c req (check_cross_cluster c s.registry req w)

  routed :
      (TransportService W → InvokeRequest → W → Answer W)
      → TransportService W
      → Option Text
      → InvokeRequest
      → W
      → Answer W
  unfolding hop across
  routed next s (some endpoint) req w = hop next endpoint req w
  routed next s none req w = across next s s.cross_cluster req w

  admitted :
      (TransportService W → InvokeRequest → W → Answer W)
      → TransportService W
      → Result Status (Unit {0})
      → InvokeRequest
      → W
      → Answer W
  unfolding routed
  admitted next s (err e) req w = some (w, err e)
  admitted next s (ok _) req w =
      if ltb max_payload_size (length req.payload)
      then some (w, err invalid_argument)
      else routed next s (find_owner s req) req w

  unfoldable pub invoke : ℕ → TransportService W → InvokeRequest → W → Answer W
  unfolding admitted
  invoke zero s req w = none
  invoke (suc fuel) s req w = admitted (invoke fuel) s (s.authenticate req) req w
