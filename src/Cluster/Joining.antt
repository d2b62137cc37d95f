-- ===== src/Cluster/Joining.antt =====
-- crates/orlando-cluster/src/cluster_silo.rs: how a silo joins a cluster, through one seed or through
-- those that a membership provider names; and discovery.rs: the provider of a fixed list of seeds. What
-- a peer answers is a parameter; each request is sent with the authorization header given here. Of std,
-- the parse of a port is a parameter.
pub mod Admitted
pub mod Seeds
use mathlib.Core.Option
use orlando.Base.{
  ℕ, ◌==◌, not, ◌||◌, Bool, true, false, List, [], ◌∷◌, ◌++◌, map, Option, none, some,
  if◌then◌else◌, same, insert, Result, ok, err,
}
use orlando.Core.Ids.{Text, text_key}
use orlando.Persistence.Store.{Bytes}
use orlando.Cluster.Ring
use orlando.Cluster.Ring.{SiloAddress, HashRing, endpoint, colon}
use orlando.Cluster.MembershipTable.{add_each}
use orlando.Cluster.Swim.{alive, SwimMember, SwimState, Shared, MembershipChange, silo_joined}
use orlando.Cluster.Swim.Wire.{ProtoSiloAddress, to_proto_addr, from_proto_addr}
use orlando.Cluster.Connections.{ConnectionPool, Dial, get_membership}

-- The part of a silo that joining changes.
pub record Joiner (C : Type 0) : Type 0 where
  pub local_addr : SiloAddress
  pub pool : ConnectionPool C
  pub swim : SwimState
  pub shared : Shared

pub record Peers (C W : Type 0) : Type 0 where
  pub dial : Dial C W
  pub join : C → Option Bytes → ProtoSiloAddress → W → W × Result Text (List ProtoSiloAddress)
  pub notify_join : C → Option Bytes → ProtoSiloAddress → W → W

-- The ring and the announcements; the local silo is among the members of the answer.
unfoldable pub learn_ring : List SiloAddress → Shared → Shared
learn_ring members sh = record sh {
  ring = add_each members sh.ring;
  changes = sh.changes ++ map silo_joined members;
}

unfoldable pub learn_members : Text → List SiloAddress → SwimState → SwimState
learn_members local_id [] s = s
learn_members local_id (m ∷ ms) s =
    let known = record s {
      members = insert m.silo_id (record { addr = m; status = alive; incarnation = 0 }) s.members;
    } in
    learn_members local_id ms (if same m.silo_id local_id then s else known)

module _ {C W : Type 0} (n : Peers C W) where
  notified : ProtoSiloAddress → ConnectionPool C × W × Result Text C → ConnectionPool C × W
  notified self (p, w, ok c) = (p, n.notify_join c none self w)
  notified self (p, w, err e) = (p, w)

  -- The calls of `notify_join`, to every member but itself and the seed.
  unfoldable pub announce_to :
      ProtoSiloAddress
      → Text
      → Text
      → List SiloAddress
      → ConnectionPool C
      → W
      → ConnectionPool C × W
  unfolding notified
  announce_to self local_id seed [] p w = (p, w)
  announce_to self local_id seed (m ∷ ms) p w =
      let (p', w') = notified self (get_membership n.dial (endpoint m) p w) in
      let skip = same m.silo_id local_id || same (endpoint m) seed in
      announce_to self local_id seed ms (if skip then p else p') (if skip then w else w')

  admitted :
      Text
      → Joiner C
      → W × Result Text (List ProtoSiloAddress)
      → Joiner C × W × Result Text (Unit {0})
  unfolding announce_to learn_ring learn_members
  admitted seed j (w, err e) = (j, w, err e)
  admitted seed j (w, ok answer) =
      let members = map from_proto_addr answer in
      let (p, w') =
        announce_to (to_proto_addr j.local_addr) j.local_addr.silo_id seed members j.pool w in
      (
        record j {
          pool = p;
          swim = learn_members j.local_addr.silo_id members j.swim;
          shared = learn_ring members j.shared;
        },
        w',
        ok tt,
      )

  -- The request goes out as it is, without the pool's token.
  reached :
      Text → Joiner C → ConnectionPool C × W × Result Text C → Joiner C × W × Result Text (Unit {0})
  unfolding admitted
  reached seed j (p, w, err e) = (record j { pool = p }, w, err e)
  reached seed j (p, w, ok c) =
      admitted seed (record j { pool = p }) (n.join c none (to_proto_addr j.local_addr) w)

  unfoldable pub join_cluster : Text → Joiner C → W → Joiner C × W × Result Text (Unit {0})
  unfolding reached
  join_cluster seed j w = reached seed j (get_membership n.dial seed j.pool w)

  or_next :
      (Joiner C → W → Joiner C × W × Result Text (Unit {0}))
      → Joiner C × W × Result Text (Unit {0})
      → Joiner C × W × Result Text (Unit {0})
  or_next next (j, w, ok _) = (j, w, ok tt)
  or_next next (j, w, err e) = next j w

  -- `discover_and_join` over the members that the provider gave; the text of the error is left out.
  unfoldable pub discover_and_join :
      List SiloAddress → Joiner C → W → Joiner C × W × Result Text (Unit {0})
  unfolding join_cluster or_next
  discover_and_join [] j w = (j, w, err [])
  discover_and_join (m ∷ ms) j w =
      let rest = discover_and_join ms j w in
      let tried = or_next (discover_and_join ms) (join_cluster (endpoint m) j w) in
      if same (endpoint m) (endpoint j.local_addr) then rest else tried

-- `rsplit_once(':')`
unfoldable pub rsplit_colon : Text → Option (Text × Text)
rsplit_colon [] = none
rsplit_colon (x ∷ t) = elim (rsplit_colon t) [
  | some (before, after) ↦ some (x ∷ before, after)
  | none ↦ if x == colon then some ([], t) else none
]

seed_of : (Text → Option ℕ) → Text → Option (Text × Text) → Option SiloAddress
seed_of parse s none = none
seed_of parse s (some (host, port_str)) =
    Option.map (λ port. record { host = host; port = port; silo_id = s }) (parse port_str)

kept : Option SiloAddress → List SiloAddress → List SiloAddress
kept none rest = rest
kept (some s) rest = s ∷ rest

-- `StaticSeedProvider`: an address that cannot be read is left out.
unfoldable pub static_seeds : (Text → Option ℕ) → List Text → List SiloAddress
unfolding rsplit_colon seed_of kept
static_seeds parse [] = []
static_seeds parse (s ∷ r) = kept (seed_of parse s (rsplit_colon s)) (static_seeds parse r)
