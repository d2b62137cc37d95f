-- ===== src/Persistence/Replication.antt =====
-- crates/orlando-persistence/src/replication_log.rs: the in-memory log of state changes that secondary
-- clusters read; crates/orlando-core/src/replication.rs: its entries. A lock that a panic poisoned is
-- not modelled.
pub mod Ascent
use mathlib.Core.Option
use orlando.Base.{
  ℕ, ◌+◌, ◌-◌, ◌%◌, ◌^◌, Bool, true, false, List, [], ◌∷◌, ◌++◌, Option, none, some, ltb, leb,
  last?, keep, take, length, lookup, insert, if◌then◌else◌, Result, ok, err,
}
use orlando.Core.Ids.{Text, text_key, format_id}
use orlando.Persistence.Store.{Bytes}

pub data ReplicationEntryType : Type 0 where
  full_state delta : ReplicationEntryType

pub record ReplicationEntry : Type 0 where
  pub grain_type : Text
  pub grain_key : Text
  pub sequence : ℕ
  pub timestamp_millis : ℕ
  pub source_cluster : Text
  pub entry_type : ReplicationEntryType
  pub payload : Bytes

pub data ReplicationError : Type 0 where
  unavailable serialization deserialization backend : Text → ReplicationError
  sequence_conflict : (expected actual : ℕ) → ReplicationError

pub record InMemoryReplicationLog : Type 0 where
  pub entries : List (Text × List ReplicationEntry)

unfoldable pub new : InMemoryReplicationLog
new = record { entries = [] }

or_empty : Option (List ReplicationEntry) → List ReplicationEntry
or_empty none = []
or_empty (some es) = es

-- The log of one grain.
unfoldable pub log_of : Text → Text → InMemoryReplicationLog → List ReplicationEntry
unfolding or_empty
log_of grain_type grain_key l = or_empty (lookup (format_id grain_type grain_key) l.entries)

-- The sequence number must be above the last one.
unfoldable pub clash : ReplicationEntry → Option ReplicationEntry → Option ReplicationError
clash e none = none
clash e (some last) =
    if leb e.sequence last.sequence
    then some (sequence_conflict ((last.sequence + 1) % 2 ^ 64) e.sequence)
    else none

-- The entry of the map is made whether the number is accepted or not.
pushed :
    Option ReplicationError
    → ReplicationEntry
    → List ReplicationEntry
    → InMemoryReplicationLog
    → InMemoryReplicationLog × Result ReplicationError ℕ
pushed (some conflict) e log l =
    (record { entries = insert (format_id e.grain_type e.grain_key) log l.entries }, err conflict)
pushed none e log l = (
  record { entries = insert (format_id e.grain_type e.grain_key) (log ++ e ∷ []) l.entries },
  ok e.sequence,
)

unfoldable pub append :
    ReplicationEntry → InMemoryReplicationLog → InMemoryReplicationLog × Result ReplicationError ℕ
unfolding log_of clash pushed
append e l = let log = log_of e.grain_type e.grain_key l in pushed (clash e (last? log)) e log l

unfoldable pub read_from : Text → Text → ℕ → ℕ → InMemoryReplicationLog → List ReplicationEntry
unfolding log_of
read_from grain_type grain_key after limit l =
    take limit (keep (λ e. ltb after e.sequence) (log_of grain_type grain_key l))

unfoldable pub sequence_of : Option ReplicationEntry → ℕ
sequence_of none = 0
sequence_of (some e) = e.sequence

unfoldable pub latest_sequence : Text → Text → InMemoryReplicationLog → ℕ
unfolding log_of sequence_of
latest_sequence grain_type grain_key l = sequence_of (last? (log_of grain_type grain_key l))

cut :
    Text → ℕ → Option (List ReplicationEntry) → InMemoryReplicationLog → InMemoryReplicationLog × ℕ
cut at before none l = (l, 0)
cut at before (some log) l =
    let left = keep (λ e. leb before e.sequence) log in
    (record { entries = insert at left l.entries }, length log - length left)

unfoldable pub truncate : Text → Text → ℕ → InMemoryReplicationLog → InMemoryReplicationLog × ℕ
unfolding cut
truncate grain_type grain_key before l =
    let at = format_id grain_type grain_key in cut at before (lookup at l.entries) l
