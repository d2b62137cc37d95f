-- ===== src/Persistence/Journal/Reads.antt =====
-- What is read from the in-memory journal after a write.
use orlando.Base.{ℕ, ◌≡◌, List, ◌++◌, some, last?, lookup-insert, arith}
use orlando.Core.Ids.{GrainId, grain_id_key}
use orlando.Persistence.Store.{Bytes}
use orlando.Persistence.Journal.{
  GrainJournal, InMemoryJournalStore, journal_of, last_sequence, number_from, append, load_events,
  load_snapshot, save_snapshot,
}

append_journal : GrainId → List Bytes → InMemoryJournalStore → GrainJournal
append_journal id bs st = record (journal_of id st) {
  events =
      (journal_of id st).events
      ++ (number_from (last_sequence (last? (journal_of id st).events)) bs).0;
}

pub load_events-append :
    (id : GrainId) (bs : List Bytes) (st : InMemoryJournalStore)
    → load_events id (append id bs st).0
      ≡ load_events id st ++ (number_from (last_sequence (last? (load_events id st))) bs).0
unfolding append load_events append_journal
load_events-append id bs st =
    ground (arith, lookup-insert id id (append_journal id bs st) st.journals)

pub load_snapshot-append :
    (id : GrainId) (bs : List Bytes) (st : InMemoryJournalStore)
    → load_snapshot id (append id bs st).0 ≡ load_snapshot id st
unfolding append load_snapshot append_journal
load_snapshot-append id bs st =
    ground (arith, lookup-insert id id (append_journal id bs st) st.journals)

module _ (id : GrainId) (n : ℕ) (bytes : Bytes) (st : InMemoryJournalStore) where
  with_snapshot : GrainJournal
  with_snapshot = record (journal_of id st) { snapshot = some (n, bytes) }

  pub load_events-save_snapshot : load_events id (save_snapshot id n bytes st) ≡ load_events id st
  unfolding save_snapshot load_events with_snapshot
  load_events-save_snapshot = ground (arith, lookup-insert id id with_snapshot st.journals)

  pub load_snapshot-save_snapshot : load_snapshot id (save_snapshot id n bytes st) ≡ some (n, bytes)
  unfolding save_snapshot load_snapshot with_snapshot
  load_snapshot-save_snapshot = ground (arith, lookup-insert id id with_snapshot st.journals)
