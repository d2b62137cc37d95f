-- ===== src/Tests/Replicas.antt =====
-- The properties of the replication log and of its consumer at concrete inputs.
use orlando.Base.{
  ℕ, ◌+◌, ◌≡◌, refl, true, false, List, [], ◌∷◌, some, arith, lookup, insert, text_discrete,
  ℕ_discrete,
}
use orlando.Core.Ids.{Text, format_id}
use orlando.Persistence.Replication
use orlando.Persistence.Replication.{
  full_state, ReplicationEntry, InMemoryReplicationLog, log_of, append, clash, latest_sequence,
  sequence_of,
}
use orlando.Persistence.Replication.Ascent.{IsAscending}
use orlando.Cluster.Replica.{Consumer, get, is_delta, replica_of, polls}
use orlando.Cluster.Replica.Delivers.{polls-sends}
use orlando.Persistence.Sink.{ReplicationSink, Sending, sends, send, entry_of, pump}

abbrev cart : Text
cart = 0x43 ∷ []

abbrev one : Text
one = 0x31 ∷ []

abbrev entry_at : ℕ → ReplicationEntry
entry_at n = record {
  grain_type = cart;
  grain_key = one;
  sequence = n;
  timestamp_millis = n + 1000;
  source_cluster = 0x45 ∷ [];
  entry_type = full_state;
  payload = n ∷ [];
}

abbrev one_entry : InMemoryReplicationLog
one_entry = (append (entry_at 3) Replication.new).0

one_entry-IsAscending : IsAscending 0 (log_of cart one one_entry)
unfolding append Replication.new log_of clash lookup insert format_id text_discrete ℕ_discrete
one_entry-IsAscending = (omega arith, tt)

abbrev started : Consumer
started = record { last_sequence = 0; replicas = record { entries = [] } }

abbrev sink : ReplicationSink
sink = record { grain_type = cart; grain_key = one; source_cluster = 0x45 ∷ []; next_sequence = 4 }

-- Of three sends the second is dropped.
abbrev three_sends : List Sending
three_sends =
    record { now = 1; payload = 7 ∷ []; taken = true }
    ∷ record { now = 2; payload = 8 ∷ []; taken = false }
    ∷ record { now = 3; payload = 9 ∷ []; taken = true }
    ∷ []

polls-sends_example :
    get cart one (polls 1 cart one (pump (sends three_sends sink) one_entry) started).replicas
    ≡ some (replica_of (entry_of 3 (9 ∷ []) (record sink { next_sequence = 6 })))
unfolding append Replication.new log_of clash lookup insert format_id text_discrete ℕ_discrete
    latest_sequence sequence_of is_delta sends send entry_of
polls-sends_example =
    polls-sends three_sends sink one_entry started 1
      (entry_of 3 (9 ∷ []) (record sink { next_sequence = 6 })) (omega arith) (omega arith)
      one_entry-IsAscending refl (omega arith) (omega arith) refl
