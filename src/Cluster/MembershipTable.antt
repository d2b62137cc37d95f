-- ===== src/Cluster/MembershipTable.antt =====
-- crates/orlando-cluster/src/membership_table.rs: the membership table with one version, its views
-- and the in-memory table. A `HashMap` is the list of its entries in the order in which it happens
-- to give them; the clock is an argument. The version is a u64.
pub mod Compares
pub mod Views
pub mod Heartbeats
use mathlib.Core.Option
use orlando.Base.{
  ℕ, ◌+◌, ◌%◌, ◌^◌, Bool, true, false, List, [], ◌∷◌, map, Option, none, some, ◌==◌, if◌then◌else◌,
  same, keep, Result, ok, err, lookup, insert, before,
}
use orlando.Core.Ids.{Text, text_key}
use orlando.Cluster.Ring
use orlando.Cluster.Ring.{SiloAddress, HashRing}

pub data MembershipStatus : Type 0 where
  joining_status active suspect dead : MembershipStatus

pub record MemberEntry : Type 0 where
  pub addr : SiloAddress
  pub status : MembershipStatus
  pub generation : ℕ
  pub suspectors : List Text
  pub i_am_alive : ℕ

-- `MemberEntry::joining`
unfoldable pub joining : SiloAddress → ℕ → ℕ → MemberEntry
joining addr generation now = record {
  addr = addr;
  status = joining_status;
  generation = generation;
  suspectors = [];
  i_am_alive = now;
}

pub record MembershipView : Type 0 where
  pub version : ℕ
  pub members : List MemberEntry

unfoldable pub is_active : MembershipStatus → Bool
is_active active = true
is_active _ = false

unfoldable pub active_silos : MembershipView → List SiloAddress
unfolding is_active
active_silos v = map (λ m. m.addr) (keep (λ m. is_active m.status) v.members)

-- `iter().find(..)` by silo id
unfoldable pub find : Text → List MemberEntry → Option MemberEntry
find silo_id [] = none
find silo_id (m ∷ ms) = if same m.addr.silo_id silo_id then some m else find silo_id ms

unfoldable pub member : Text → MembershipView → Option MemberEntry
unfolding find
member silo_id v = find silo_id v.members

-- The loop of `build_ring`.
unfoldable pub add_each : List SiloAddress → HashRing → HashRing
add_each [] ring = ring
add_each (silo ∷ silos) ring = add_each silos (Ring.add silo ring)

unfoldable pub build_ring : ℕ → MembershipView → HashRing
unfolding active_silos add_each
build_ring virtual_nodes v = add_each (active_silos v) (Ring.new virtual_nodes)

pub data MembershipError : Type 0 where
  version_conflict : (expected actual : ℕ) → MembershipError
  not_found backend : Text → MembershipError

-- What stands behind the mutex of the in-memory table.
pub record Inner : Type 0 where
  pub version : ℕ
  pub members : List (Text × MemberEntry)

unfoldable pub new : Inner
new = record { version = 0; members = [] }

-- One step of the sort by silo id, and the sort.
unfoldable pub place : MemberEntry → List MemberEntry → List MemberEntry
place e [] = e ∷ []
place e (m ∷ ms) = if before m.addr.silo_id e.addr.silo_id then m ∷ place e ms else e ∷ m ∷ ms

unfoldable pub sort_by_id : List MemberEntry → List MemberEntry
unfolding place
sort_by_id [] = []
sort_by_id (e ∷ es) = place e (sort_by_id es)

-- `values().cloned().collect()`
unfoldable pub values : List (Text × MemberEntry) → List MemberEntry
values [] = []
values ((i, e) ∷ m) = e ∷ values m

unfoldable pub snapshot : Inner → MembershipView
unfolding sort_by_id values
snapshot t = record { version = t.version; members = sort_by_id (values t.members) }

unfoldable pub read_all : Inner → Result MembershipError MembershipView
unfolding snapshot
read_all t = ok (snapshot t)

-- The insert-or-replace and the version that it is stamped with.
unfoldable pub stamped : MemberEntry → Inner → Inner
stamped entry t = record {
  version = (t.version + 1) % 2 ^ 64;
  members = insert entry.addr.silo_id entry t.members;
}

unfoldable pub try_update : MemberEntry → ℕ → Inner → Inner × Result MembershipError MembershipView
unfolding stamped snapshot
try_update entry expected t =
    if t.version == expected
    then (stamped entry t, ok (snapshot (stamped entry t)))
    else (t, err (version_conflict expected t.version))

unfoldable pub touched : ℕ → Text → Option MemberEntry → Inner → Inner × Result MembershipError Unit
touched now silo_id none t = (t, err (not_found silo_id))
touched now silo_id (some e) t =
    (record t { members = insert silo_id (record e { i_am_alive = now }) t.members }, ok tt)

unfoldable pub update_i_am_alive : ℕ → Text → Inner → Inner × Result MembershipError Unit
unfolding touched
update_i_am_alive now silo_id t = touched now silo_id (lookup silo_id t.members) t
