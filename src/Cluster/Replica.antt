-- ===== src/Cluster/Replica.antt =====
-- crates/orlando-cluster/src/store_wrapper.rs: the replicas that a secondary cluster holds, and
-- replication_consumer.rs: how the consumer of one grain follows the log. The time of a read is an
-- argument.
pub mod Follows
pub mod Delivers
use mathlib.Core.Option
use orlando.Base.{
  ℕ, zero, suc, ◌+◌, leb, Bool, true, false, List, [], ◌∷◌, Option, none, some, last?, any, lookup,
  insert, remove, if◌then◌else◌, Result, ok, err,
}
use orlando.Core.Ids.{Text, text_key, format_id}
use orlando.Persistence.Store.{Bytes}
use orlando.Persistence.Replication
use orlando.Persistence.Replication.{
  ReplicationEntryType, full_state, delta, ReplicationEntry, ReplicationError,
  InMemoryReplicationLog,
}

pub record ReplicaEntry : Type 0 where
  pub payload : Bytes
  pub sequence : ℕ
  pub timestamp_millis : ℕ

pub record ReplicaStore : Type 0 where
  pub entries : List (Text × ReplicaEntry)

unfoldable pub update : Text → Text → ReplicaEntry → ReplicaStore → ReplicaStore
update grain_type grain_key e st = record {
  entries = insert (format_id grain_type grain_key) e st.entries;
}

unfoldable pub get : Text → Text → ReplicaStore → Option ReplicaEntry
get grain_type grain_key st = lookup (format_id grain_type grain_key) st.entries

not_older : ℕ → ℕ → Option ReplicaEntry → Bool
not_older now max_staleness_millis none = false
not_older now max_staleness_millis (some e) = leb now (e.timestamp_millis + max_staleness_millis)

-- `is_fresh`, for a limit that is not negative.
unfoldable pub is_fresh : ℕ → Text → Text → ℕ → ReplicaStore → Bool
unfolding not_older get
is_fresh now grain_type grain_key max_staleness_millis st =
    not_older now max_staleness_millis (get grain_type grain_key st)

unfoldable pub remove_replica : Text → Text → ReplicaStore → ReplicaStore
remove_replica grain_type grain_key st = record {
  entries = remove (format_id grain_type grain_key) st.entries;
}

-- What the loop of a consumer keeps, with the store that it writes to.
pub record Consumer : Type 0 where
  pub last_sequence : ℕ
  pub replicas : ReplicaStore

unfoldable pub is_delta : ReplicationEntry → Bool
is_delta e = elim e.entry_type [ full_state ↦ false | delta ↦ true ]

unfoldable pub replica_of : ReplicationEntry → ReplicaEntry
replica_of e = record {
  payload = e.payload;
  sequence = e.sequence;
  timestamp_millis = e.timestamp_millis;
}

-- A batch with a delta is passed over; of the others the last entry is applied.
applied : Text → Text → Bool → Option ReplicationEntry → Consumer → Consumer
unfolding update replica_of
applied grain_type grain_key skips none c = c
applied grain_type grain_key true (some e) c = record c { last_sequence = e.sequence }
applied grain_type grain_key false (some e) c = record {
  last_sequence = e.sequence;
  replicas = update grain_type grain_key (replica_of e) c.replicas;
}

polled : Text → Text → Result ReplicationError (List ReplicationEntry) → Consumer → Consumer
unfolding applied is_delta
polled grain_type grain_key (err e) c = c
polled grain_type grain_key (ok es) c = applied grain_type grain_key (any is_delta es) (last? es) c

abbrev pub batch_limit : ℕ
batch_limit = 100

-- One round of the loop, on the in-memory log.
unfoldable pub poll : Text → Text → InMemoryReplicationLog → Consumer → Consumer
unfolding polled
poll grain_type grain_key l c =
    polled grain_type grain_key
      (ok (Replication.read_from grain_type grain_key c.last_sequence batch_limit l)) c

unfoldable pub polls : ℕ → Text → Text → InMemoryReplicationLog → Consumer → Consumer
unfolding poll
polls zero grain_type grain_key l c = c
polls (suc n) grain_type grain_key l c =
    polls n grain_type grain_key l (poll grain_type grain_key l c)
