-- ===== src/Cluster/Transport/Network/Here.antt =====
-- crates/orlando-cluster/src/transport.rs: a call that the silo it reaches serves itself.
use orlando.Base.{
  ℕ, suc, false, ◌≡◌, refl, Option, none, some, ltb, if◌then◌else◌, length, ok, arith,
}
use orlando.Core.Ids.{Text}
use orlando.Cluster.Transport.{
  max_payload_size, InvokeRequest, TransportService, find_owner, dispatch_here,
}
use orlando.Cluster.Transport.Network.{
  Silos, found_at, active_here, settle, across, routed, admitted, invoke,
}

module _ {W : Type 0} (parse : Text → Option ℕ) (silos : Silos W) (s : TransportService W)
    (req : InvokeRequest) (w : W) where
  -- The silo lets the request in, the ring gives the grain to no other one, there are no other
  -- clusters, and the grain is not found active elsewhere.
  pub record IsServed : Type 0 where
    pub let_in : s.authenticate req ≡ ok tt
    pub fits : ltb max_payload_size (length req.payload) ≡ false
    pub mine : find_owner s req ≡ none
    pub alone : s.cross_cluster ≡ none
    pub nowhere : s.elsewhere req.grain_type req.grain_key w ≡ none

  pub invoke-here :
      (fuel : ℕ)
      → IsServed
      → invoke parse silos (suc fuel) s req w ≡ some (dispatch_here s.error_text s.registry req w)
  unfolding invoke admitted routed across settle found_at
  invoke-here fuel h =
      let idle : (if active_here s req w then none else s.elsewhere req.grain_type req.grain_key w)
          ≡ none =
        ground (arith, h.nowhere) in
      rw (h.let_in, h.fits, h.mine, h.alone, idle) refl
