-- ===== src/Cluster/Membership/Spreads.antt =====
-- crates/orlando-cluster/src/membership.rs and swim.rs: a protocol period's direct ping from one silo
-- to another, and how a join that one silo has served reaches the other.
use orlando.Base.{ℕ, List, Option, none, some, Result, ok, err}
use orlando.Core.Ids.{Text, text_key}
use orlando.Cluster.Swim.{drain_gossip}
use orlando.Cluster.Swim.Wire.{GossipEntry, gossip_to_proto, direct_ping}
use orlando.Cluster.Auth.{Status}
use orlando.Cluster.Membership.{Service, ping}

answer : Result Status (Text × List GossipEntry) → Option (List GossipEntry)
answer (ok (_, gossip)) = some gossip
answer (err _) = none

-- The target's address is known: the gossip that waits is drained, sent and answered.
unfoldable pub round : ℕ → Result Status Unit → Service → Service → Service × Service
unfolding answer
round now auth a b =
    let (s, us) = drain_gossip a.gossip_fanout a.swim in
    let (b', r) = ping auth now (gossip_to_proto us) b in
    let (_, s', w') = direct_ping now (answer r) s a.shared in
    (record a { swim = s'; shared = w' }, b')
