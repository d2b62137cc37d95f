-- ===== src/Persistence/Sink.antt =====
-- crates/orlando-persistence/src/replication_sink.rs: the sink that a persistent mailbox hands its
-- states to, and crates/orlando-cluster/src/replication_producer.rs: the pump from the channel into
-- the log. The channel is the async runtime's: whether it took an entry is an argument of a send, and
-- it gives the entries that it took in their order.
pub mod Arrives
use mathlib.Core.Option
use orlando.Base.{ℕ, ◌+◌, ◌%◌, ◌^◌, Bool, true, false, List, [], ◌∷◌, ◌++◌, if◌then◌else◌, Result}
use orlando.Core.Ids.{Text}
use orlando.Persistence.Store.{Bytes}
use orlando.Persistence.Replication.{
  ReplicationEntry, full_state, ReplicationError, InMemoryReplicationLog, append,
}

pub record ReplicationSink : Type 0 where
  pub grain_type : Text
  pub grain_key : Text
  pub source_cluster : Text
  pub next_sequence : ℕ

unfoldable pub new : Text → Text → Text → ℕ → ReplicationSink
new grain_type grain_key source_cluster start_sequence = record {
  grain_type = grain_type;
  grain_key = grain_key;
  source_cluster = source_cluster;
  next_sequence = start_sequence;
}

-- The entry that a send makes.
unfoldable pub entry_of : ℕ → Bytes → ReplicationSink → ReplicationEntry
entry_of now payload s = record {
  grain_type = s.grain_type;
  grain_key = s.grain_key;
  sequence = s.next_sequence;
  timestamp_millis = now;
  source_cluster = s.source_cluster;
  entry_type = full_state;
  payload = payload;
}

-- `send`: the number is used up whether the channel takes the entry or not.
unfoldable pub send : ℕ → Bytes → Bool → ReplicationSink → ReplicationSink × List ReplicationEntry
unfolding entry_of
send now payload taken s = (
  record s { next_sequence = (s.next_sequence + 1) % 2 ^ 64 },
  if taken then entry_of now payload s ∷ [] else [],
)

-- One call of the sink: when it came, what it handed over, and whether the channel took it.
pub record Sending : Type 0 where
  pub now : ℕ
  pub payload : Bytes
  pub taken : Bool

-- What the channel took of a sequence of sends.
unfoldable pub sends : List Sending → ReplicationSink → List ReplicationEntry
sends [] s = []
sends (c ∷ cs) s = let (s', es) = send c.now c.payload c.taken s in es ++ sends cs s'

-- The loop of the pump on the in-memory log; a refused entry is left out.
unfoldable pub pump : List ReplicationEntry → InMemoryReplicationLog → InMemoryReplicationLog
pump [] l = l
pump (e ∷ es) l = pump es (append e l).0
