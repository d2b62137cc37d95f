-- ===== src/Cluster/Membership.antt =====
-- crates/orlando-cluster/src/membership.rs: the membership service of a silo, one function per call
-- of the service, over the member table, the ring and the rate limiter. What authentication says of a
-- request and what a ping of a third silo gives are arguments; times are in nanoseconds.
pub mod Limits
pub mod Keeps
pub mod Spreads
use mathlib.Core.Option
use orlando.Base.{
  ℕ, ◌+◌, ◌-◌, ◌/◌, Bool, true, false, not, ◌&&◌, List, [], ◌∷◌, ◌++◌, map, Option, none, some, ltb,
  leb, if◌then◌else◌, same, any, Result, ok, err, lookup, insert, remove,
}
use orlando.Core.Ids.{Text, text_key, GrainId}
use orlando.Cluster.Ring
use orlando.Cluster.Ring.{SiloAddress, HashRing}
use orlando.Cluster.Swim.{
  alive, SwimMember, SwimState, Shared, MembershipChange, silo_joined, silo_left, GossipUpdate,
  join_update, enqueue_gossip, drain_gossip,
}
use orlando.Cluster.Auth.{Status, resource_exhausted, invalid_argument}
use orlando.Cluster.Swim.Wire.{
  ProtoSiloAddress, GossipEntry, to_proto_addr, from_proto_addr, gossip_to_proto, receive,
}

pub record RateLimiter : Type 0 where
  pub start : ℕ
  pub count : ℕ
  pub max_per_second : ℕ

unfoldable pub new_limiter : ℕ → ℕ → RateLimiter
new_limiter now max_per_second = record { start = now; count = 0; max_per_second = max_per_second }

unfoldable pub check : ℕ → RateLimiter → RateLimiter × Result Status Unit
check now l =
    if leb 1 ((now - l.start) / 1000000000)
    then (record l { start = now; count = 1 }, ok tt)
    else if ltb l.count l.max_per_second
    then (record l { count = l.count + 1 }, ok tt)
    else (l, err resource_exhausted)

-- The part of the service that its calls change.
pub record Service : Type 0 where
  pub local_addr : SiloAddress
  pub swim : SwimState
  pub shared : Shared
  pub limiter : RateLimiter
  pub gossip_fanout : ℕ

unfoldable pub max_joins : ℕ
max_joins = 10

unfoldable pub new : ℕ → SiloAddress → SwimState → Shared → ℕ → Service
unfolding new_limiter max_joins
new now local_addr swim shared gossip_fanout = record {
  local_addr = local_addr;
  swim = swim;
  shared = shared;
  limiter = new_limiter now max_joins;
  gossip_fanout = gossip_fanout;
}

new_member : SiloAddress → SwimMember
new_member silo = record { addr = silo; status = alive; incarnation = 0 }

announce : MembershipChange → Shared → Shared
announce c w = record w { changes = w.changes ++ c ∷ [] }

-- Whether the ring has a silo with the id.
unfoldable pub in_ring : Text → HashRing → Bool
in_ring silo_id r = any (λ (m : SiloAddress). same m.silo_id silo_id) (Ring.members r)

-- What `join` does to the member table, by whether the joiner was known.
unfoldable pub joined : SiloAddress → Option SwimMember → SwimState → SwimState
unfolding new_member
joined silo (some m) s = s
joined silo none s =
    enqueue_gossip (join_update silo)
      (record s { members = insert silo.silo_id (new_member silo) s.members })

-- `join` once the request is let through.
unfoldable pub join_silo : SiloAddress → Service → Service × List ProtoSiloAddress
unfolding joined announce
join_silo silo v =
    let ring = Ring.add silo v.shared.ring in
    (
      record v {
        swim = joined silo (lookup silo.silo_id v.swim.members) v.swim;
        shared = announce (silo_joined silo) (record v.shared { ring = ring });
      },
      map to_proto_addr (Ring.members ring),
    )

joiner_given : Option ProtoSiloAddress → Service → Service × Result Status (List ProtoSiloAddress)
unfolding join_silo
joiner_given none v = (v, err invalid_argument)
joiner_given (some p) v = let (v', ms) = join_silo (from_proto_addr p) v in (v', ok ms)

limited_by :
    {A : Type 0}
    → Result Status Unit
    → Service
    → (Service → Service × Result Status A)
    → Service × Result Status A
limited_by (ok _) v next = next v
limited_by (err e) v next = (v, err e)

-- `self.join_limiter.check()?`, and what comes after it.
limited :
    {A : Type 0} → ℕ → Service → (Service → Service × Result Status A) → Service × Result Status A
unfolding limited_by
limited now v next =
    let (l, r) = check now v.limiter in limited_by r (record v { limiter = l }) next

-- `auth.authenticate(request.metadata())?`, and what comes after it.
guarded :
    {A : Type 0}
    → Result Status Unit
    → Service
    → (Service → Service × Result Status A)
    → Service × Result Status A
guarded (ok _) v next = next v
guarded (err e) v next = (v, err e)

unfoldable pub join :
    Result Status Unit
    → ℕ
    → Option ProtoSiloAddress
    → Service
    → Service × Result Status (List ProtoSiloAddress)
unfolding guarded limited joiner_given
join auth now joiner v = guarded auth v (λ v. limited now v (joiner_given joiner))

-- `notify_join` once the request is let through: a silo that the ring has is not touched.
unfoldable pub learn_silo : SiloAddress → Service → Service
unfolding in_ring new_member announce
learn_silo silo v = if in_ring silo.silo_id v.shared.ring then v else record v {
  swim = record v.swim { members = insert silo.silo_id (new_member silo) v.swim.members };
  shared = announce (silo_joined silo) (record v.shared { ring = Ring.add silo v.shared.ring });
}

silo_given :
    (SiloAddress → Service → Service)
    → Option ProtoSiloAddress
    → Service
    → Service × Result Status Unit
silo_given act none v = (v, err invalid_argument)
silo_given act (some p) v = (act (from_proto_addr p) v, ok tt)

unfoldable pub notify_join :
    Result Status Unit → ℕ → Option ProtoSiloAddress → Service → Service × Result Status Unit
unfolding guarded limited silo_given learn_silo
notify_join auth now silo v = guarded auth v (λ v. limited now v (silo_given learn_silo silo))

-- `notify_leave` once the request is let through.
unfoldable pub drop_silo : SiloAddress → Service → Service
unfolding in_ring announce
drop_silo silo v = if not (in_ring silo.silo_id v.shared.ring) then v else record v {
  swim = record v.swim { members = remove silo.silo_id v.swim.members };
  shared = announce (silo_left silo) (record v.shared { ring = Ring.remove silo v.shared.ring });
}

unfoldable pub notify_leave :
    Result Status Unit → Option ProtoSiloAddress → Service → Service × Result Status Unit
unfolding guarded silo_given drop_silo
notify_leave auth silo v = guarded auth v (silo_given drop_silo silo)

-- The incoming gossip of a call.
unfoldable pub take_in : ℕ → List GossipEntry → Service → Service
unfolding receive
take_in now gossip v =
    let (s, w) = receive now gossip v.swim v.shared in record v { swim = s; shared = w }

-- The gossip that an answer carries.
unfoldable pub give_out : Service → Service × List GossipEntry
unfolding gossip_to_proto
give_out v =
    let (s, us) = drain_gossip v.gossip_fanout v.swim in (record v { swim = s }, gossip_to_proto us)

ponged : Service → Service × Result Status (Text × List GossipEntry)
unfolding give_out
ponged v = let (v', es) = give_out v in (v', ok (v.local_addr.silo_id, es))

unfoldable pub ping :
    Result Status Unit
    → ℕ
    → List GossipEntry
    → Service
    → Service × Result Status (Text × List GossipEntry)
unfolding guarded take_in ponged
ping auth now gossip v = guarded auth v (λ v. ponged (take_in now gossip v))

-- `ping_req` after the gossip, where `answers` is what `try_ping_target` gives.
asked :
    (SiloAddress → Bool)
    → Option ProtoSiloAddress
    → Service
    → Service × Result Status (Bool × List GossipEntry)
unfolding give_out
asked answers none v = (v, err invalid_argument)
asked answers (some p) v =
    let target_alive = answers (from_proto_addr p) in
    let (v', es) = give_out v in (v', ok (target_alive, es))

unfoldable pub ping_req :
    Result Status Unit
    → (SiloAddress → Bool)
    → ℕ
    → Option ProtoSiloAddress
    → List GossipEntry
    → Service
    → Service × Result Status (Bool × List GossipEntry)
unfolding guarded take_in asked
ping_req auth answers now target gossip v =
    guarded auth v (λ v. asked answers target (take_in now gossip v))

unfoldable pub get_members :
    Result Status Unit → Service → Service × Result Status (List ProtoSiloAddress)
unfolding guarded
get_members auth v = guarded auth v (λ v. (v, ok (map to_proto_addr (Ring.members v.shared.ring))))

-- The grain of a known type has a mailbox, and it is open: `get_sender` gives whether it is closed.
active_here : (GrainId → Option Bool) → Option Text → Text → Bool
active_here get_sender none key = false
active_here get_sender (some type_name) key =
    elim (get_sender (record { type_name = type_name; key = key })) [
      | none ↦ false
      | some is_closed ↦ not is_closed
    ]

located : Bool → Service → Bool × Text × Text
located active v =
    if active then (true, v.local_addr.silo_id, Ring.endpoint v.local_addr) else (false, [], [])

unfoldable pub lookup_grain :
    Result Status Unit
    → (Text → Option Text)
    → (GrainId → Option Bool)
    → Text
    → Text
    → Service
    → Service × Result Status (Bool × Text × Text)
unfolding guarded active_here located
lookup_grain auth grain_type_str get_sender grain_type key v =
    guarded auth v
      (λ v. (v, ok (located (active_here get_sender (grain_type_str grain_type) key) v)))
