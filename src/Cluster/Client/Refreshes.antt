-- ===== src/Cluster/Client/Refreshes.antt =====
-- What a client's ring is after it has asked a silo for the members.
use orlando.Base.{
  ℕ, Bool, true, false, ◌≡◌, refl, ap, ◌∙◌, List, [], ◌∷◌, map, none, some, is_empty, ok, err, All,
}
use orlando.Core.Ids.{Text, text_key, format_id}
use orlando.Persistence.Store.{Bytes}
use orlando.Cluster.Ring
use orlando.Cluster.Ring.{SiloAddress, HashRing, endpoint, members}
use orlando.Cluster.Ring.Canonical.{Apart, add_each-members, members-is_empty, members-All}
use orlando.Cluster.MembershipTable.{add_each}
use orlando.Cluster.Swim.Wire.{ProtoSiloAddress, to_proto_addr}
use orlando.Cluster.Swim.Addresses.{HasPort, from_proto-to_proto}
use orlando.Cluster.Transport.{InvokeResponse}
use orlando.Cluster.Connections
use orlando.Cluster.Connections.{ConnectionPool, get_transport, get_membership}
use orlando.Cluster.Client.{
  OrlandoClient, Network, fetch, ring_of, connect, connected, refreshed, refresh_from,
  refresh_membership, retried, answered, called, at_target, attempts_from, invoke, request,
}

map-is_empty :
    {A B : Type 0} (f : A → B) (xs : List A) → is_empty xs ≡ false → is_empty (map f xs) ≡ false
map-is_empty f [] h = absurd (cc)
map-is_empty f (x ∷ xs) h = refl

-- The silos of a cluster, and the ring that a silo makes of them.
module _ (m : SiloAddress) (ms : List SiloAddress)
    (apart : All (λ s. All (λ t. Apart 150 s t) (m ∷ ms)) (m ∷ ms))
    (ports : All HasPort (m ∷ ms)) where
  abbrev pub silos_ring : HashRing
  silos_ring = add_each (m ∷ ms) (Ring.new 150)

  -- What the membership service answers.
  abbrev pub member_list : List ProtoSiloAddress
  member_list = map to_proto_addr (members silos_ring)

  ring_of-member_list : ring_of member_list ≡ silos_ring
  unfolding ring_of
  ring_of-member_list =
      ap (λ l. add_each l (Ring.new 150))
        (from_proto-to_proto (members silos_ring) (members-All 150 HasPort (m ∷ ms) ports))
      ∙ add_each-members 150 (m ∷ ms) apart

  list-is_empty : is_empty member_list ≡ false
  list-is_empty = map-is_empty to_proto_addr (members silos_ring) (members-is_empty 149 m ms)

  module _ {C W : Type 0} (n : Network C W) where
    -- In a cluster whose rings give each silo 150 virtual nodes, the number that the client always takes,
    -- where no two silos have a virtual node at the same key and ports have 16 bits: a client that
    -- connects to a silo which answers with the members of its ring has that very ring, and so the
    -- silo's owner of each grain.
    pub connect-agrees :
        (has_tls : Bool) (address : Text) (w w' : W) (p : ConnectionPool C)
        → fetch n address (Connections.new has_tls none) w ≡ (p, w', ok member_list)
        → (c : OrlandoClient C) × (connect n has_tls address w ≡ (w', ok c))
          × (c.ring ≡ silos_ring)
          × ((grain_key : Text) → Ring.get grain_key c.ring ≡ Ring.get grain_key silos_ring)
    unfolding connect connected
    connect-agrees has_tls address w w' p h =
        let c : OrlandoClient C = record {
          pool = p;
          ring = ring_of member_list;
          request_timeout = 30000000000;
        } in
        (
          c,
          rw (h, list-is_empty) refl,
          ring_of-member_list,
          λ grain_key. ap (Ring.get grain_key) ring_of-member_list,
        )

    refreshed_ring : OrlandoClient C → ConnectionPool C → OrlandoClient C
    refreshed_ring c p = record { pool = p; ring = silos_ring; request_timeout = c.request_timeout }

    refresh-agrees :
        (c : OrlandoClient C) (s : SiloAddress) (rest : List SiloAddress) (w w' : W)
        (p : ConnectionPool C)
        → members c.ring ≡ s ∷ rest
        → fetch n (endpoint s) c.pool w ≡ (p, w', ok member_list)
        → refresh_membership n c w ≡ (refreshed_ring c p, w', ok tt)
    unfolding refresh_membership refresh_from refreshed refreshed_ring
    refresh-agrees c s rest w w' p e h =
        rw (e, h)
          (λ i. (
            record { pool = p; ring = ring_of-member_list i; request_timeout = c.request_timeout },
            w',
            ok tt,
          ))

    -- When the owner that a client knows cannot be reached, and the first silo that it asks answers with
    -- the members of its ring, the call goes on to the owner on that ring, and what that one answers
    -- without an error is the result; the client keeps the new ring.
    pub invoke-new_owner :
        (c : OrlandoClient C) (grain_type grain_key message_type : Text) (payload : Bytes)
        (encoding : ℕ) (old owner s : SiloAddress) (rest : List SiloAddress)
        (p1 p2 p3 : ConnectionPool C) (w w1 w2 w3 w4 : W) (reason : Text) (conn : C)
        (r : InvokeResponse)
        → Ring.get (format_id grain_type grain_key) c.ring ≡ some old
        → get_transport n.dial (endpoint old) c.pool w ≡ (p1, w1, err reason)
        → members c.ring ≡ s ∷ rest
        → fetch n (endpoint s) p1 w1 ≡ (p2, w2, ok member_list)
        → Ring.get (format_id grain_type grain_key) silos_ring ≡ some owner
        → get_transport n.dial (endpoint owner) p2 w2 ≡ (p3, w3, ok conn)
        → n.invoke conn c.request_timeout none
            (request n grain_type grain_key message_type payload encoding)
            w3
          ≡ (w4, ok r)
        → is_empty r.error ≡ true
        → invoke n grain_type grain_key message_type payload encoding c w ≡ (
          record { pool = p3; ring = silos_ring; request_timeout = c.request_timeout },
          w4,
          ok r.payload,
        )
    unfolding invoke attempts_from at_target called retried answered request refreshed_ring
    invoke-new_owner c grain_type grain_key message_type payload encoding old owner s rest p1 p2 p3
          w w1 w2 w3 w4 reason conn r known gone e h owns there answer fine =
        let c1 : OrlandoClient C = record c { pool = p1 } in
        let fresh = refresh-agrees c1 s rest w1 w2 p2 e h in
        rw (known, gone, fresh, owns, there, answer, fine) refl
