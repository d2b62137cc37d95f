-- ===== src/Cluster/Client/Empties.antt =====
-- What a client makes of an empty member list.
use orlando.Base.{ℕ, ◌≡◌, refl, List, [], ◌∷◌, none, Bool, ok, err}
use orlando.Core.Ids.{Text}
use orlando.Persistence.Store.{Bytes}
use orlando.Cluster.Ring
use orlando.Cluster.Ring.{SiloAddress, endpoint, members}
use orlando.Cluster.MembershipTable.{add_each}
use orlando.Cluster.Connections
use orlando.Cluster.Connections.{ConnectionPool}
use orlando.Cluster.Client.{
  ClientError, OrlandoClient, Network, fetch, ring_of, connect, connected, refreshed, refresh_from,
  refresh_membership, at_target, attempts_from, invoke, no_silo_available, connection, no_reachable,
  no_members,
}

module _ {C W : Type 0} (n : Network C W) where
  refresh-ring_of :
      (c : OrlandoClient C) (s : SiloAddress) (rest : List SiloAddress) (w w' : W)
      (p : ConnectionPool C)
      → members c.ring ≡ s ∷ rest
      → fetch n (endpoint s) c.pool w ≡ (p, w', ok [])
      → refresh_membership n c w ≡ (record c { pool = p; ring = ring_of [] }, w', ok tt)
  unfolding refresh_membership refresh_from refreshed
  refresh-ring_of c s rest w w' p e h = rw (e, h) refl

  invoke_lost :
      (c : OrlandoClient C) (grain_type grain_key message_type : Text) (payload : Bytes)
      (encoding : ℕ) (w : W)
      → c.ring ≡ ring_of []
      → invoke n grain_type grain_key message_type payload encoding c w
        ≡ (c, w, err no_silo_available)
  unfolding invoke attempts_from at_target ring_of add_each Ring.new Ring.get Ring.owner_at
  invoke_lost c grain_type grain_key message_type payload encoding w e = rw e refl

  refresh_lost :
      (c : OrlandoClient C) (w : W)
      → c.ring ≡ ring_of []
      → refresh_membership n c w ≡ (c, w, err (connection no_reachable))
  unfolding refresh_membership refresh_from ring_of add_each Ring.new members Ring.members_from
  refresh_lost c w e = rw e refl

  -- An empty member list is refused when a client connects. A refresh takes it, with success, and from
  -- then on every call of a grain finds no silo and every refresh finds nobody to ask, at any time and
  -- without a call of the network.
  pub refresh_empty_lasts :
      (has_tls : Bool) (address : Text) (c : OrlandoClient C) (s : SiloAddress)
      (rest : List SiloAddress) (w w1 w2 w3 : W) (p p' : ConnectionPool C)
      (grain_type grain_key message_type : Text) (payload : Bytes) (encoding : ℕ)
      → fetch n address (Connections.new has_tls none) w ≡ (p', w1, ok [])
      → members c.ring ≡ s ∷ rest
      → fetch n (endpoint s) c.pool w ≡ (p, w2, ok [])
      → let c' = (refresh_membership n c w).0 in
        ((e : ClientError) × (connect n has_tls address w ≡ (w1, err e)))
        × (refresh_membership n c w ≡ (c', w2, ok tt))
        × (invoke n grain_type grain_key message_type payload encoding c' w3
            ≡ (c', w3, err no_silo_available))
        × (e : ClientError) × (refresh_membership n c' w3 ≡ (c', w3, err e))
  unfolding connect connected
  refresh_empty_lasts has_tls address c s rest w w1 w2 w3 p p' grain_type grain_key message_type
        payload encoding g e h =
      rw (refresh-ring_of c s rest w w2 p e h) (
        (connection no_members, rw g refl),
        refl,
        invoke_lost _ grain_type grain_key message_type payload encoding w3 refl,
        _,
        refresh_lost _ w3 refl,
      )
