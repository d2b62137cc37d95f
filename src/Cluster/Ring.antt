-- ===== src/Cluster/Ring.antt =====
-- crates/orlando-cluster/src/hash_ring.rs: the consistent-hash ring. A `BTreeMap` is the list of its
-- entries in the order of their keys.
pub mod Placement
pub mod Departure
pub mod Ordered
pub mod Owners
pub mod Canonical
use Prim.Native.Nat.{bit_xor}
use mathlib.Core.Option
use orlando.Base.{
  ℕ, zero, suc, ◌+◌, ◌*◌, ◌%◌, ◌^◌, Bool, true, false, List, [], ◌∷◌, ◌++◌, map, Option, none, some,
  ltb, leb, ◌==◌, ℕ_discrete, if◌then◌else◌, Key, same, any, is_empty, show,
}
use orlando.Core.Ids.{Text, text_key}

pub record SiloAddress : Type 0 where
  pub host : Text
  pub port : ℕ
  pub silo_id : Text

unfoldable pub SiloAddress-discrete : Discrete SiloAddress
SiloAddress-discrete = hlevel ℕ_discrete

instance abbrev pub silo_key : Key SiloAddress
silo_key = record { dec = SiloAddress-discrete }

abbrev pub colon : ℕ
colon = 0x3a

-- `format!("{}:{}", host, port)`
unfoldable pub endpoint : SiloAddress → Text
endpoint s = s.host ++ colon ∷ show s.port

pub record HashRing : Type 0 where
  pub ring : List (ℕ × SiloAddress)
  pub virtual_nodes : ℕ

unfoldable pub new : ℕ → HashRing
new virtual_nodes = record { ring = []; virtual_nodes = virtual_nodes }

-- FNV-1a on 64 bits.
unfoldable pub hash_from : ℕ → Text → ℕ
hash_from hash [] = hash
hash_from hash (byte ∷ key) = hash_from (bit_xor hash byte * 0x100000001b3 % 2 ^ 64) key

unfoldable pub hash_key : Text → ℕ
unfolding hash_from
hash_key key = hash_from 0xcbf29ce484222325 key

-- Where the i-th virtual node of a silo stands.
unfoldable pub node_key : Text → ℕ → ℕ
node_key silo_id i = hash_key (silo_id ++ colon ∷ show i)

-- `BTreeMap::insert`
unfoldable pub insert : ℕ → SiloAddress → List (ℕ × SiloAddress) → List (ℕ × SiloAddress)
insert k s [] = (k, s) ∷ []
insert k s ((j, v) ∷ r) =
    if ltb k j then (k, s) ∷ (j, v) ∷ r else if k == j then (k, s) ∷ r else (j, v) ∷ insert k s r

-- `BTreeMap::remove`
unfoldable pub remove_key : ℕ → List (ℕ × SiloAddress) → List (ℕ × SiloAddress)
remove_key k [] = []
remove_key k ((j, v) ∷ r) = if j == k then remove_key k r else (j, v) ∷ remove_key k r

-- The loops of `add` and `remove`, over the last `n` virtual nodes, from the i-th on.
unfoldable pub add_nodes : SiloAddress → ℕ → ℕ → List (ℕ × SiloAddress) → List (ℕ × SiloAddress)
add_nodes s i zero r = r
add_nodes s i (suc n) r = add_nodes s (suc i) n (insert (node_key s.silo_id i) s r)

unfoldable pub remove_nodes : SiloAddress → ℕ → ℕ → List (ℕ × SiloAddress) → List (ℕ × SiloAddress)
remove_nodes s i zero r = r
remove_nodes s i (suc n) r = remove_nodes s (suc i) n (remove_key (node_key s.silo_id i) r)

unfoldable pub add : SiloAddress → HashRing → HashRing
unfolding add_nodes
add s h = record h { ring = add_nodes s 0 h.virtual_nodes h.ring }

unfoldable pub remove : SiloAddress → HashRing → HashRing
unfolding remove_nodes
remove s h = record h { ring = remove_nodes s 0 h.virtual_nodes h.ring }

-- `range(key..).next()`
unfoldable pub first_from : ℕ → List (ℕ × SiloAddress) → Option SiloAddress
first_from h [] = none
first_from h ((j, v) ∷ r) = if leb h j then some v else first_from h r

-- `iter().next()`
unfoldable pub first : List (ℕ × SiloAddress) → Option SiloAddress
first [] = none
first ((j, v) ∷ r) = some v

or_else : Option SiloAddress → Option SiloAddress → Option SiloAddress
or_else (some v) o = some v
or_else none o = o

-- The owner of a point of the ring.
unfoldable pub owner_at : ℕ → List (ℕ × SiloAddress) → Option SiloAddress
unfolding first_from first or_else
owner_at h r = if is_empty r then none else or_else (first_from h r) (first r)

unfoldable pub get : Text → HashRing → Option SiloAddress
unfolding owner_at
get grain_key h = owner_at (hash_key grain_key) h.ring

-- The silos in ring order, each silo id once.
unfoldable pub members_from : List Text → List (ℕ × SiloAddress) → List SiloAddress
members_from seen [] = []
members_from seen ((_, s) ∷ r) =
    let rest = members_from (s.silo_id ∷ seen) r in
    if any (λ i. same i s.silo_id) seen then members_from seen r else s ∷ rest

unfoldable pub members : HashRing → List SiloAddress
unfolding members_from
members h = members_from [] h.ring
