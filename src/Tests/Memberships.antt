-- ===== src/Tests/Memberships.antt =====
-- The properties of the membership table and of the membership service at concrete inputs.
use orlando.Base.{ℕ, ◌≡◌, refl, List, [], ◌∷◌, some, arith, lookup, ok, ℕ_discrete, text_discrete}
use orlando.Core.Ids.{Text, text_key}
use orlando.Cluster.Ring
use orlando.Cluster.Ring.{SiloAddress, SiloAddress-discrete}
use orlando.Cluster.Swim
use orlando.Cluster.Swim.{SwimState, Shared, join_update, GossipUpdate}
use orlando.Cluster.Swim.Table.{IsSane, new-IsSane}
use orlando.Cluster.Swim.Wire.{
  to_proto_addr, proto_to_gossip, gossip_to_proto, proto_to_gossip-gossip_to_proto, HasPort,
}
use orlando.Cluster.MembershipTable.{MemberEntry, Inner, active}
use orlando.Cluster.MembershipTable.Compares.{views, Follows, views-Follows}
use orlando.Cluster.MembershipTable.Views.{IsTable, IsKeyed}
use orlando.Cluster.Membership.{Service, new_limiter, check}
use orlando.Cluster.Membership.Limits.{admitted}
use orlando.Cluster.Membership.Keeps.{
  Call, join_call, notify_leave_call, ping_call, serve_all, serve_all-IsSane, IsForeign, IsOther,
}

abbrev silo : ℕ → SiloAddress
silo n = record { host = 0x68 ∷ []; port = 5000; silo_id = n ∷ [] }

abbrev row : ℕ → MemberEntry
row n = record { addr = silo n; status = active; generation = 1; suspectors = []; i_am_alive = 7 }

abbrev empty : Inner
empty = record { version = 0; members = [] }

views-Follows_example : Follows 0 (views ((row 1, 0) ∷ (row 2, 0) ∷ (row 2, 1) ∷ []) empty)
views-Follows_example =
    views-Follows ((row 1, 0) ∷ (row 2, 0) ∷ (row 2, 1) ∷ []) empty (omega arith)

abbrev one_way : Inner
one_way = record {
  version = 2;
  members = ((silo 1).silo_id, row 1) ∷ ((silo 2).silo_id, row 2) ∷ [];
}

abbrev other_way : Inner
other_way = record {
  version = 2;
  members = ((silo 2).silo_id, row 2) ∷ ((silo 1).silo_id, row 1) ∷ [];
}

one_way-IsTable : IsTable one_way
unfolding IsTable IsKeyed lookup text_discrete ℕ_discrete
one_way-IsTable = ((refl, (refl, tt)), (refl, (refl, tt)))

other_way-IsTable : IsTable other_way
unfolding IsTable IsKeyed lookup text_discrete ℕ_discrete
other_way-IsTable = ((refl, (refl, tt)), (refl, (refl, tt)))

same_rows : (j : Text) → lookup j one_way.members ≡ lookup j other_way.members
unfolding lookup
same_rows j = ground arith

proto_to_gossip-gossip_to_proto_example :
    proto_to_gossip (gossip_to_proto (join_update (silo 1) ∷ [])) ≡ join_update (silo 1) ∷ []
unfolding HasPort
proto_to_gossip-gossip_to_proto_example =
    proto_to_gossip-gossip_to_proto (join_update (silo 1) ∷ []) (omega arith, tt)

abbrev second : ℕ
second = 1000000000

-- Ten checks at the end of one window and ten at the start of the next, in less than a second.
abbrev burst : List ℕ
burst =
    900000000 ∷ 900000000 ∷ 900000000 ∷ 900000000 ∷ 900000000 ∷ 900000000 ∷ 900000000 ∷ 900000000
    ∷ 900000000 ∷ 900000000 ∷ second ∷ second ∷ second ∷ second ∷ second ∷ second ∷ second ∷ second
    ∷ second ∷ second ∷ second ∷ []

-- The limiter for ten lets twenty of them through.
burst-admitted : admitted burst (new_limiter 0 10) ≡ 20
unfolding admitted check new_limiter
burst-admitted = refl

abbrev service : ℕ → Service
service n = record {
  local_addr = silo n;
  swim = Swim.new (silo n);
  shared = record { ring = Ring.new 1; closed = []; changes = [] };
  limiter = new_limiter 0 10;
  gossip_fanout = 6;
}

abbrev calls : List Call
calls =
    join_call (ok tt) 5 (some (to_proto_addr (silo 3)))
    ∷ notify_leave_call (ok tt) (some (to_proto_addr (silo 3)))
    ∷ ping_call (ok tt) 9 []
    ∷ []

serve_all-IsSane_example : IsSane (serve_all calls (service 1)).swim
unfolding IsForeign IsOther to_proto_addr Swim.new
serve_all-IsSane_example =
    serve_all-IsSane calls (service 1) ((λ e. ground (arith, e)), (tt, (tt, tt)))
      (new-IsSane (silo 1))
