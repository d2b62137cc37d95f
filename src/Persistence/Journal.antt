-- ===== src/Persistence/Journal.antt =====
-- crates/orlando-persistence/src/memory_journal_store.rs: the in-memory journal of events;
-- journaled_mailbox.rs: how an activation rebuilds its state from it. A sequence number
-- is a u64.
pub mod Reads
pub mod Replay
use mathlib.Core.Option
use orlando.Base.{
  ℕ, zero, suc, ◌+◌, ◌%◌, ◌^◌, List, [], ◌∷◌, ◌++◌, Option, none, some, ltb, last?, keep, lookup,
  insert, Result, ok, err,
}
use orlando.Core.Ids.{GrainId, grain_id_key}
use orlando.Persistence.Store.{Bytes, PersistenceError}

pub record JournalEntry : Type 0 where
  pub sequence : ℕ
  pub event_bytes : Bytes

pub record GrainJournal : Type 0 where
  pub events : List JournalEntry
  pub snapshot : Option (ℕ × Bytes)

pub record InMemoryJournalStore : Type 0 where
  pub journals : List (GrainId × GrainJournal)

unfoldable pub new : InMemoryJournalStore
new = record { journals = [] }

-- `entry(id).or_insert_with(..)`
unfoldable pub journal_of : GrainId → InMemoryJournalStore → GrainJournal
journal_of id st = Option.get_or (lookup id st.journals) (record { events = []; snapshot = none })

unfoldable pub last_sequence : Option JournalEntry → ℕ
last_sequence none = 0
last_sequence (some e) = e.sequence

-- The loop of `append`: the entries that it pushes, and the last sequence number.
unfoldable pub number_from : ℕ → List Bytes → List JournalEntry × ℕ
number_from seq [] = ([], seq)
number_from seq (b ∷ bs) =
    let next = (seq + 1) % 2 ^ 64 in
    let (entries, final) = number_from next bs in
    (record { sequence = next; event_bytes = b } ∷ entries, final)

unfoldable pub append : GrainId → List Bytes → InMemoryJournalStore → InMemoryJournalStore × ℕ
unfolding journal_of last_sequence number_from
append id bs st =
    let journal = journal_of id st in
    let (entries, seq) = number_from (last_sequence (last? journal.events)) bs in
    (
      record st {
        journals = insert id (record journal { events = journal.events ++ entries }) st.journals;
      },
      seq,
    )

unfoldable pub load_events : GrainId → InMemoryJournalStore → List JournalEntry
unfolding journal_of
load_events id st = (journal_of id st).events

unfoldable pub load_events_after : GrainId → ℕ → InMemoryJournalStore → List JournalEntry
unfolding journal_of
load_events_after id after st = keep (λ e. ltb after e.sequence) (journal_of id st).events

unfoldable pub save_snapshot : GrainId → ℕ → Bytes → InMemoryJournalStore → InMemoryJournalStore
unfolding journal_of
save_snapshot id sequence bytes st = record st {
  journals =
      insert id (record (journal_of id st) { snapshot = some (sequence, bytes) }) st.journals;
}

unfoldable pub load_snapshot : GrainId → InMemoryJournalStore → Option (ℕ × Bytes)
unfolding journal_of
load_snapshot id st = (journal_of id st).snapshot

-- A journaled grain: its state, what an event does to it, and the decoders, which may fail.
pub record JournaledGrain (S E : Type 0) : Type 0 where
  pub default_state : S
  pub apply : S → E → S
  pub decode_state : Bytes → Option S
  pub decode_event : Bytes → Option E

module _ {S E : Type 0} (g : JournaledGrain S E) where
  from_snapshot : Result PersistenceError (Option (ℕ × Bytes)) → S × ℕ
  from_snapshot (ok none) = (g.default_state, 0)
  from_snapshot (ok (some (seq, bytes))) = elim (g.decode_state bytes) [
    | some s ↦ (s, seq)
    | none ↦ (g.default_state, 0)
  ]
  from_snapshot (err _) = (g.default_state, 0)

  -- An event that cannot be decoded is skipped.
  unfoldable pub replay : List JournalEntry → S → ℕ → S × ℕ
  replay [] s seq = (s, seq)
  replay (e ∷ es) s seq = elim (g.decode_event e.event_bytes) [
    | some ev ↦ replay es (g.apply s ev) e.sequence
    | none ↦ replay es s seq
  ]

  or_no_events : Result PersistenceError (List JournalEntry) → List JournalEntry
  or_no_events (ok es) = es
  or_no_events (err _) = []

  -- Over what the journal store answers to the two reads.
  unfoldable pub load_state :
      Result PersistenceError (Option (ℕ × Bytes))
      → (ℕ → Result PersistenceError (List JournalEntry))
      → S × ℕ
  unfolding from_snapshot replay or_no_events
  load_state snapshot events_after =
      let (s, seq) = from_snapshot snapshot in replay (or_no_events (events_after seq)) s seq

  -- The same on the in-memory journal, which never fails.
  unfoldable pub load_memory : GrainId → InMemoryJournalStore → S × ℕ
  unfolding load_state
  load_memory id st =
      load_state (ok (load_snapshot id st)) (λ seq. ok (load_events_after id seq st))
