-- ===== src/Cluster/Ownership.antt =====
-- crates/orlando-cluster/src/cross_cluster_directory.rs: which cluster owns a grain. The trait is a
-- record of operations over a state; the in-memory directory is the implementation. A lock that a
-- panic poisoned is not modelled.
pub mod Fencing
pub mod Entries
use mathlib.Core.Option
use orlando.Base.{
  ℕ, Bool, true, false, ◌&&◌, not, List, [], ◌∷◌, Option, none, some, map, leb, if◌then◌else◌, same,
  keep, lookup, insert, remove, Result, ok, err,
}
use orlando.Core.Ids.{Text, GrainId, format_id, text_key}

pub record GrainOwnership : Type 0 where
  pub cluster_id : Text
  pub epoch : ℕ
  pub registered_at : ℕ

pub data DirectoryError : Type 0 where
  unavailable backend : Text → DirectoryError
  stale_epoch : (current requested : ℕ) → DirectoryError

-- The operations that a failover uses.
pub record CrossClusterDirectory (S : Type 0) : Type 0 where
  pub register : GrainId → Text → ℕ → S → S × Result DirectoryError GrainOwnership
  pub list_owned_by : Text → S → Result DirectoryError (List (GrainId × GrainOwnership))

pub record InMemoryCrossClusterDirectory : Type 0 where
  pub entries : List (Text × (GrainId × GrainOwnership))

unfoldable pub new : InMemoryCrossClusterDirectory
new = record { entries = [] }

-- `key` of the source.
unfoldable pub key_of : GrainId → Text
key_of id = format_id id.type_name id.key

second : Option (GrainId × GrainOwnership) → Option GrainOwnership
second none = none
second (some (id, o)) = some o

-- `lookup` of the source.
unfoldable pub lookup_owner : GrainId → InMemoryCrossClusterDirectory → Option GrainOwnership
unfolding second
lookup_owner id d = second (lookup (key_of id) d.entries)

claim :
    GrainId
    → GrainOwnership
    → InMemoryCrossClusterDirectory
    → InMemoryCrossClusterDirectory × GrainOwnership
claim id o d = (record { entries = insert (key_of id) (id, o) d.entries }, o)

-- The owner is the first cluster that registers, until one registers with a higher epoch.
registered :
    ℕ
    → GrainId
    → Text
    → ℕ
    → Option (GrainId × GrainOwnership)
    → InMemoryCrossClusterDirectory
    → InMemoryCrossClusterDirectory × GrainOwnership
unfolding claim
registered now id cluster epoch none d =
    claim id (record { cluster_id = cluster; epoch = epoch; registered_at = now }) d
registered now id cluster epoch (some (_, existing)) d =
    if not (same existing.cluster_id cluster) && leb epoch existing.epoch
    then (d, existing)
    else if same existing.cluster_id cluster && leb epoch existing.epoch
    then (d, existing)
    else claim id (record { cluster_id = cluster; epoch = epoch; registered_at = now }) d

unfoldable pub register :
    ℕ
    → GrainId
    → Text
    → ℕ
    → InMemoryCrossClusterDirectory
    → InMemoryCrossClusterDirectory × GrainOwnership
unfolding registered
register now id cluster epoch d = registered now id cluster epoch (lookup (key_of id) d.entries) d

released :
    GrainId
    → Text
    → Option (GrainId × GrainOwnership)
    → InMemoryCrossClusterDirectory
    → InMemoryCrossClusterDirectory
released id cluster none d = d
released id cluster (some (_, existing)) d =
    if same existing.cluster_id cluster
    then record { entries = remove (key_of id) d.entries }
    else d

-- Only the owner can release a grain.
unfoldable pub deregister :
    GrainId → Text → InMemoryCrossClusterDirectory → InMemoryCrossClusterDirectory
unfolding released
deregister id cluster d = released id cluster (lookup (key_of id) d.entries) d

unfoldable pub owned_in :
    Text → List (Text × (GrainId × GrainOwnership)) → List (GrainId × GrainOwnership)
owned_in cluster [] = []
owned_in cluster ((_, (id, o)) ∷ es) =
    let rest = owned_in cluster es in if same o.cluster_id cluster then (id, o) ∷ rest else rest

unfoldable pub list_owned_by :
    Text → InMemoryCrossClusterDirectory → List (GrainId × GrainOwnership)
unfolding owned_in
list_owned_by cluster d = owned_in cluster d.entries

-- The in-memory directory at the time `now`.
unfoldable pub memory_directory : ℕ → CrossClusterDirectory InMemoryCrossClusterDirectory
memory_directory now = record {
  register = λ id cluster epoch d. let (d', o) = register now id cluster epoch d in (d', ok o);
  list_owned_by = λ cluster d. ok (list_owned_by cluster d);
}
