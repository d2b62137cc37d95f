-- ===== src/Tests/Journals.antt =====
-- The properties of the event journal at concrete inputs.
use orlando.Base.{ℕ, ◌+◌, ◌≡◌, refl, [], ◌∷◌, Option, none, some, arith, lookup}
use orlando.Core.Ids.{GrainId}
use orlando.Persistence.Store.{Bytes}
use orlando.Persistence.Journal.{
  InMemoryJournalStore, new, append, load_events, load_snapshot, save_snapshot, replay, load_memory,
  journal_of,
}
use orlando.Persistence.Journaled.{JournaledState, Handlers, memory_journal, encode_events, ask}
use orlando.Persistence.Journaled.Durable.{IsLossless, Synced, load_memory-Synced, ask-Synced}

abbrev account : GrainId
account = record { type_name = 0x41 ∷ []; key = 0x31 ∷ [] }

abbrev first_byte : Bytes → Option ℕ
first_byte [] = none
first_byte (b ∷ bs) = some b

-- A counter: a message is an event, and the reply is the sum.
abbrev counter : Handlers ℕ ℕ ℕ ℕ
counter = record {
  grain = record {
    default_state = 0;
    apply = λ s e. s + e;
    decode_state = first_byte;
    decode_event = first_byte;
  };
  handle = λ s m. (s + m, m ∷ []);
  encode_state = λ s. some (s ∷ []);
  encode_event = λ e. some (e ∷ []);
}

counter-IsLossless : IsLossless counter account
counter-IsLossless = record {
  state_encodes = λ s. (s ∷ [], refl, refl);
  event_encodes = λ e. (e ∷ [], refl, refl);
}

abbrev awake : JournaledState ℕ
awake = record { state = 0; sequence = 0; events_since_snapshot = 0; snapshot_interval = 1 }

new-Synced : Synced counter account awake new
unfolding new load_events load_snapshot journal_of replay lookup
new-Synced = record { numbered = tt; current = refl; counted = refl; fits = tt }

ask-Synced_example :
    Synced counter account
      (ask counter memory_journal account 5 awake new).0
      (ask counter memory_journal account 5 awake new).1
unfolding new load_events journal_of encode_events lookup
ask-Synced_example =
    ask-Synced counter account 5 awake new counter-IsLossless (omega arith) new-Synced

load_memory-Synced_example :
    (load_memory counter.grain account (ask counter memory_journal account 5 awake new).1).0
    ≡ (ask counter memory_journal account 5 awake new).0.state
load_memory-Synced_example =
    load_memory-Synced counter account (ask counter memory_journal account 5 awake new).0
      (ask counter memory_journal account 5 awake new).1 ask-Synced_example

-- Two events, and a snapshot after the first.
stored : InMemoryJournalStore
stored = save_snapshot account 1 (7 ∷ []) (append account ((7 ∷ []) ∷ (2 ∷ []) ∷ []) new).0
