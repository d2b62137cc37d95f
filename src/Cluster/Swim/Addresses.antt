-- ===== src/Cluster/Swim/Addresses.antt =====
-- Silo addresses on the wire.
use orlando.Base.{◌<◌, ◌%◌, ◌^◌, ◌≡◌, refl, List, [], ◌∷◌, map, arith, All}
use orlando.Cluster.Ring.{SiloAddress}
use orlando.Cluster.Swim.Wire.{to_proto_addr, from_proto_addr}

-- A port is a `u16`.
abbrev pub HasPort : SiloAddress → Type 0
HasPort s = s.port < 65536

-- The addresses of a member list come out as they went in.
pub from_proto-to_proto :
    (ms : List SiloAddress) → All HasPort ms → map from_proto_addr (map to_proto_addr ms) ≡ ms
unfolding from_proto_addr to_proto_addr
from_proto-to_proto [] h = refl
from_proto-to_proto (m ∷ ms) (p, h) =
    let same_port : m.port % 2 ^ 16 ≡ m.port = omega (arith, p) in
    λ i.
      record { host = m.host; port = same_port i; silo_id = m.silo_id } ∷ from_proto-to_proto ms h i
