-- ===== src/Cluster/Swim.antt =====
-- crates/orlando-cluster/src/swim.rs: the member table of one silo and the gossip that changes it. The
-- clock is an argument. The ring, the connections that are closed and the membership changes that are
-- broadcast are part of the state that an operation hands on. An incarnation is a u64.
pub mod Table
pub mod Refutes
pub mod Expiry
pub mod Joins
pub mod Wire
pub mod Addresses
use mathlib.Core.Option
use orlando.Base.{
  ℕ, zero, suc, ◌+◌, ◌-◌, ◌%◌, ◌^◌, Bool, true, false, not, ◌&&◌, ◌||◌, List, [], ◌∷◌, ◌++◌, map,
  Option, none, some, ltb, leb, if◌then◌else◌, same, is_empty, length, take, drop, lookup, insert,
  remove, min,
}
use orlando.Core.Ids.{Text, text_key}
use orlando.Cluster.Ring
use orlando.Cluster.Ring.{SiloAddress, HashRing}

abbrev pub max_pending_gossip : ℕ
max_pending_gossip = 1024

pub data MemberStatus : Type 0 where
  alive : MemberStatus
  suspect : (since : ℕ) (reported_by : Text) → MemberStatus

pub record SwimMember : Type 0 where
  pub addr : SiloAddress
  pub status : MemberStatus
  pub incarnation : ℕ

pub data GossipUpdate : Type 0 where
  alive_update dead_update : (addr : SiloAddress) (incarnation : ℕ) → GossipUpdate
  suspect_update : (addr : SiloAddress) (incarnation : ℕ) (reported_by : Text) → GossipUpdate
  join_update : (addr : SiloAddress) → GossipUpdate

pub data MembershipChange : Type 0 where
  silo_joined silo_left : SiloAddress → MembershipChange

pub record SwimState : Type 0 where
  pub members : List (Text × SwimMember)
  pub local_incarnation : ℕ
  pub local_addr : SiloAddress
  pub pending_gossip : List GossipUpdate

-- What a silo shares with its other tasks.
pub record Shared : Type 0 where
  pub ring : HashRing
  pub closed : List Text  -- endpoints that the pool has dropped
  pub changes : List MembershipChange

unfoldable pub new : SiloAddress → SwimState
new local_addr = record {
  members = [];
  local_incarnation = 0;
  local_addr = local_addr;
  pending_gossip = [];
}

unfoldable pub drain_gossip : ℕ → SwimState → SwimState × List GossipUpdate
drain_gossip n s =
    let count = min n (length s.pending_gossip) in
    (record s { pending_gossip = drop count s.pending_gossip }, take count s.pending_gossip)

unfoldable pub enqueue_gossip : GossipUpdate → SwimState → SwimState
enqueue_gossip u s = record s {
  pending_gossip =
      (if leb max_pending_gossip (length s.pending_gossip)
        then drop 1 s.pending_gossip
        else s.pending_gossip)
      ++ u ∷ [];
}

is_alive : MemberStatus → Bool
is_alive alive = true
is_alive (suspect since by) = false

-- The state of the loop over the updates of one message.
pub record Batch : Type 0 where
  pub state : SwimState
  pub ring_adds : List SiloAddress
  pub ring_removes : List SiloAddress
  pub dropped : List Text
  pub announced : List MembershipChange

set_member : Text → SwimMember → Batch → Batch
set_member id m b = record b { state = record b.state { members = insert id m b.state.members } }

on_alive : SiloAddress → ℕ → Option SwimMember → Batch → Batch
unfolding set_member
on_alive addr inc none b = b
on_alive addr inc (some m) b =
    if ltb m.incarnation inc
    then set_member addr.silo_id (record m { incarnation = inc; status = alive }) b
    else b

on_suspect : ℕ → SiloAddress → ℕ → Text → Option SwimMember → Batch → Batch
unfolding set_member is_alive
on_suspect now addr inc by none b = b
on_suspect now addr inc by (some m) b =
    if leb m.incarnation inc && is_alive m.status
    then set_member addr.silo_id (record m { status = suspect now by; incarnation = inc }) b
    else b

-- A suspicion about this silo itself is refuted under a higher incarnation.
refute : ℕ → Batch → Batch
unfolding enqueue_gossip
refute inc b =
    let s = record b.state { local_incarnation = (inc + 1) % 2 ^ 64 } in
    record b { state = enqueue_gossip (alive_update s.local_addr s.local_incarnation) s }

on_dead : SiloAddress → ℕ → Option SwimMember → Batch → Batch
on_dead addr inc none b = b
on_dead addr inc (some m) b =
    if leb m.incarnation inc
    then record b {
      state = record b.state { members = remove addr.silo_id b.state.members };
      ring_removes = b.ring_removes ++ addr ∷ [];
      dropped = b.dropped ++ Ring.endpoint addr ∷ [];
      announced = b.announced ++ silo_left addr ∷ [];
    }
    else b

on_join : SiloAddress → Option SwimMember → Batch → Batch
unfolding set_member
on_join addr (some m) b = b
on_join addr none b =
    let b' = set_member addr.silo_id (record { addr = addr; status = alive; incarnation = 0 }) b in
    record b' {
      ring_adds = b.ring_adds ++ addr ∷ [];
      announced = b.announced ++ silo_joined addr ∷ [];
    }

-- One round of the loop of `apply_gossip`.
unfoldable pub apply_update : ℕ → GossipUpdate → Batch → Batch
unfolding on_alive on_suspect refute on_dead on_join
apply_update now (alive_update addr inc) b =
    if same addr.silo_id b.state.local_addr.silo_id
    then b
    else on_alive addr inc (lookup addr.silo_id b.state.members) b
apply_update now (suspect_update addr inc by) b =
    if same addr.silo_id b.state.local_addr.silo_id
    then (if leb b.state.local_incarnation inc then refute inc b else b)
    else on_suspect now addr inc by (lookup addr.silo_id b.state.members) b
apply_update now (dead_update addr inc) b =
    if same addr.silo_id b.state.local_addr.silo_id
    then b
    else on_dead addr inc (lookup addr.silo_id b.state.members) b
apply_update now (join_update addr) b =
    if same addr.silo_id b.state.local_addr.silo_id
    then b
    else on_join addr (lookup addr.silo_id b.state.members) b

unfoldable pub apply_all : ℕ → List GossipUpdate → Batch → Batch
apply_all now [] b = b
apply_all now (u ∷ us) b = apply_all now us (apply_update now u b)

unfoldable pub remove_all : List SiloAddress → HashRing → HashRing
remove_all [] r = r
remove_all (a ∷ rest) r = remove_all rest (Ring.remove a r)

unfoldable pub add_all : List SiloAddress → HashRing → HashRing
add_all [] r = r
add_all (a ∷ rest) r = add_all rest (Ring.add a r)

-- The ring is changed once, after the loop: the removals, then the additions.
unfoldable pub apply_gossip : ℕ → List GossipUpdate → SwimState → Shared → SwimState × Shared
unfolding apply_all remove_all add_all
apply_gossip now us s w =
    let b =
      apply_all now us
        (record { state = s; ring_adds = []; ring_removes = []; dropped = []; announced = [] }) in
    (
      b.state,
      record w {
        ring = add_all b.ring_adds (remove_all b.ring_removes w.ring);
        closed = w.closed ++ b.dropped;
        changes = w.changes ++ b.announced;
      },
    )

suspected : ℕ → Text → Option SwimMember → SwimState → SwimState
unfolding is_alive enqueue_gossip
suspected now id none s = s
suspected now id (some m) s =
    let by = s.local_addr.silo_id in
    if is_alive m.status
    then enqueue_gossip (suspect_update m.addr m.incarnation by)
        (record s { members = insert id (record m { status = suspect now by }) s.members })
    else s

unfoldable pub suspect_member : ℕ → Text → SwimState → SwimState
unfolding suspected
suspect_member now id s = suspected now id (lookup id s.members) s

declared : Text → Option SwimMember → SwimState → Shared → SwimState × Shared
unfolding enqueue_gossip
declared id none s w = (s, w)
declared id (some m) s w = (
  enqueue_gossip (dead_update m.addr m.incarnation) (record s { members = remove id s.members }),
  record {
    ring = Ring.remove m.addr w.ring;
    closed = w.closed ++ Ring.endpoint m.addr ∷ [];
    changes = w.changes ++ silo_left m.addr ∷ [];
  },
)

unfoldable pub declare_dead : Text → SwimState → Shared → SwimState × Shared
unfolding declared
declare_dead id s w = declared id (lookup id s.members) s w

answered : Text → Option SwimMember → SwimState → SwimState
answered id none s = s
answered id (some m) s = record s { members = insert id (record m { status = alive }) s.members }

-- A probe that was answered, directly or through a peer.
unfoldable pub mark_alive : Text → SwimState → SwimState
unfolding answered
mark_alive id s = answered id (lookup id s.members) s

timed_out : ℕ → ℕ → MemberStatus → Bool
timed_out now timeout alive = false
timed_out now timeout (suspect since by) = ltb timeout (now - since)

unfoldable pub expired : ℕ → ℕ → List (Text × SwimMember) → List Text
unfolding timed_out
expired now timeout [] = []
expired now timeout ((id, m) ∷ ms) =
    let rest = expired now timeout ms in if timed_out now timeout m.status then id ∷ rest else rest

unfoldable pub declare_all : List Text → SwimState → Shared → SwimState × Shared
declare_all [] s w = (s, w)
declare_all (id ∷ ids) s w = let (s', w') = declare_dead id s w in declare_all ids s' w'

unfoldable pub expire_suspects : ℕ → ℕ → SwimState → Shared → SwimState × Shared
unfolding expired declare_all
expire_suspects now timeout s w = declare_all (expired now timeout s.members) s w

-- The end of a protocol period, from what the direct probe and the peers' probes of the target gave.
unfoldable pub after_probe : ℕ → ℕ → Text → Bool → Bool → SwimState → Shared → SwimState × Shared
unfolding mark_alive suspect_member expire_suspects
after_probe now timeout target direct_ok indirect_ok s w =
    let s' =
      if direct_ok || indirect_ok then mark_alive target s else suspect_member now target s in
    expire_suspects now timeout s' w
