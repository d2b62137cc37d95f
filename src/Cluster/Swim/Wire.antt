-- ===== src/Cluster/Swim/Wire.antt =====
-- crates/orlando-cluster/src/swim.rs: how gossip travels, as the entries of a gRPC message, and the
-- direct ping that carries it. The numbers of the update types are those of proto/orlando.proto; an
-- `update_type` is the bit pattern of an i32, a port a u32 on the wire and a u16 in an address.
use orlando.Base.{
  ℕ, ◌<◌, ◌%◌, ◌^◌, Bool, true, false, List, [], ◌∷◌, map, Option, none, some, ◌≡◌, refl, ◌==◌,
  if◌then◌else◌, is_empty, All, arith,
}
use orlando.Core.Ids.{Text}
use orlando.Cluster.Ring.{SiloAddress}
use orlando.Cluster.Swim.{
  GossipUpdate, alive_update, dead_update, suspect_update, join_update, SwimState, Shared,
  apply_gossip,
}

pub record ProtoSiloAddress : Type 0 where
  pub host : Text
  pub port : ℕ
  pub silo_id : Text

pub record GossipEntry : Type 0 where
  pub update_type : ℕ
  pub silo : Option ProtoSiloAddress
  pub incarnation : ℕ
  pub reported_by : Text

unfoldable pub to_proto_addr : SiloAddress → ProtoSiloAddress
to_proto_addr s = record { host = s.host; port = s.port; silo_id = s.silo_id }

unfoldable pub from_proto_addr : ProtoSiloAddress → SiloAddress
from_proto_addr p = record { host = p.host; port = p.port % 2 ^ 16; silo_id = p.silo_id }

unfoldable pub entry : GossipUpdate → GossipEntry
unfolding to_proto_addr
entry (alive_update addr inc) = record {
  update_type = 0;
  silo = some (to_proto_addr addr);
  incarnation = inc;
  reported_by = [];
}
entry (suspect_update addr inc by) = record {
  update_type = 1;
  silo = some (to_proto_addr addr);
  incarnation = inc;
  reported_by = by;
}
entry (dead_update addr inc) = record {
  update_type = 2;
  silo = some (to_proto_addr addr);
  incarnation = inc;
  reported_by = [];
}
entry (join_update addr) = record {
  update_type = 3;
  silo = some (to_proto_addr addr);
  incarnation = 0;
  reported_by = [];
}

unfoldable pub gossip_to_proto : List GossipUpdate → List GossipEntry
unfolding entry
gossip_to_proto us = map entry us

-- `UpdateType::try_from(update_type)` and the match on it.
update_of : SiloAddress → GossipEntry → Option GossipUpdate
update_of addr e =
    if e.update_type == 0
    then some (alive_update addr e.incarnation)
    else if e.update_type == 1
    then some (suspect_update addr e.incarnation e.reported_by)
    else if e.update_type == 2
    then some (dead_update addr e.incarnation)
    else if e.update_type == 3
    then some (join_update addr)
    else none

decoded : GossipEntry → Option GossipUpdate
unfolding update_of from_proto_addr
decoded e = elim e.silo [ none ↦ none | some p ↦ update_of (from_proto_addr p) e ]

and_rest : Option GossipUpdate → List GossipUpdate → List GossipUpdate
and_rest none us = us
and_rest (some u) us = u ∷ us

-- An entry without an address or of an unknown type is left out.
unfoldable pub proto_to_gossip : List GossipEntry → List GossipUpdate
unfolding decoded and_rest
proto_to_gossip [] = []
proto_to_gossip (e ∷ es) = and_rest (decoded e) (proto_to_gossip es)

-- `if !incoming.is_empty()`
unfoldable pub receive : ℕ → List GossipEntry → SwimState → Shared → SwimState × Shared
unfolding proto_to_gossip
receive now es s w =
    let incoming = proto_to_gossip es in
    if is_empty incoming then (s, w) else apply_gossip now incoming s w

-- `direct_ping`, from what the call gave: no connection, a failure and a timeout give nothing.
unfoldable pub direct_ping :
    ℕ → Option (List GossipEntry) → SwimState → Shared → Bool × SwimState × Shared
unfolding receive
direct_ping now none s w = (false, s, w)
direct_ping now (some gossip) s w = let (s', w') = receive now gossip s w in (true, s', w')

-- The address has a port that a u16 holds.
unfoldable pub HasPort : GossipUpdate → Type 0
HasPort (alive_update addr inc) = addr.port < 2 ^ 16
HasPort (suspect_update addr inc by) = addr.port < 2 ^ 16
HasPort (dead_update addr inc) = addr.port < 2 ^ 16
HasPort (join_update addr) = addr.port < 2 ^ 16

from_proto_addr-to_proto_addr :
    (s : SiloAddress) → s.port < 2 ^ 16 → from_proto_addr (to_proto_addr s) ≡ s
unfolding from_proto_addr to_proto_addr
from_proto_addr-to_proto_addr s h =
    let e : s.port % 2 ^ 16 ≡ s.port = omega (arith, h) in ground (arith, e)

decoded-entry : (u : GossipUpdate) → HasPort u → decoded (entry u) ≡ some u
unfolding decoded entry update_of HasPort
decoded-entry (alive_update addr inc) h = ground (arith, from_proto_addr-to_proto_addr addr h)
decoded-entry (suspect_update addr inc by) h = ground (arith, from_proto_addr-to_proto_addr addr h)
decoded-entry (dead_update addr inc) h = ground (arith, from_proto_addr-to_proto_addr addr h)
decoded-entry (join_update addr) h = ground (arith, from_proto_addr-to_proto_addr addr h)

-- Updates about addresses whose ports are u16 arrive as they were sent, all of them and in order.
pub proto_to_gossip-gossip_to_proto :
    (us : List GossipUpdate) → All HasPort us → proto_to_gossip (gossip_to_proto us) ≡ us
unfolding proto_to_gossip gossip_to_proto and_rest
proto_to_gossip-gossip_to_proto [] h = refl
proto_to_gossip-gossip_to_proto (u ∷ us) (p, h) =
    ground (arith, decoded-entry u p, proto_to_gossip-gossip_to_proto us h)
