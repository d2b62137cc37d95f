-- ===== src/Persistence/Journaled.antt =====
-- crates/orlando-persistence/src/persistent_silo.rs: how a journaled grain answers one message
-- (`JournaledGrainRef::ask`, the part that runs in the mailbox); journal_store.rs: the interface of a
-- journal. What `encode_to_vec` of the bincode crate makes of a state or an event is an argument.

pub mod Durable
use mathlib.Core.Option
use orlando.Base.{
  ℕ, zero, suc, ◌+◌, ◌%◌, ◌^◌, Bool, true, false, ◌&&◌, List, [], ◌∷◌, ◌++◌, Option, none, some,
  ltb, leb, if◌then◌else◌, is_empty, length, Result, ok, err,
}
use orlando.Core.Ids.{GrainId, grain_id_key}
use orlando.Persistence.Store.{Bytes, PersistenceError}
use orlando.Persistence.Journal
use orlando.Persistence.Journal.{JournalEntry, InMemoryJournalStore, JournaledGrain}

-- The trait `JournalStore`.
pub record JournalStore (W : Type 0) : Type 0 where
  pub append : GrainId → List Bytes → W → W × Result PersistenceError ℕ
  pub load_events : GrainId → W → W × Result PersistenceError (List JournalEntry)
  pub load_events_after : GrainId → ℕ → W → W × Result PersistenceError (List JournalEntry)
  pub save_snapshot : GrainId → ℕ → Bytes → W → W × Result PersistenceError (Unit {0})
  pub load_snapshot : GrainId → W → W × Result PersistenceError (Option (ℕ × Bytes))

append_memory :
    GrainId → List Bytes → InMemoryJournalStore → InMemoryJournalStore × Result PersistenceError ℕ
append_memory id bs st = let (st', seq) = Journal.append id bs st in (st', ok seq)

-- The in-memory journal as such a store.
unfoldable pub memory_journal : JournalStore InMemoryJournalStore
unfolding append_memory
memory_journal = record {
  append = append_memory;
  load_events = λ id st. (st, ok (Journal.load_events id st));
  load_events_after = λ id after st. (st, ok (Journal.load_events_after id after st));
  save_snapshot = λ id seq bytes st. (Journal.save_snapshot id seq bytes st, ok tt);
  load_snapshot = λ id st. (st, ok (Journal.load_snapshot id st));
}

pub record JournaledState (S : Type 0) : Type 0 where
  pub state : S
  pub sequence : ℕ
  pub events_since_snapshot : ℕ
  pub snapshot_interval : ℕ

-- What an activation is, for messages `M` with replies `R`.
pub record Handlers (S E M R : Type 0) : Type 0 where
  pub grain : JournaledGrain S E
  pub handle : S → M → R × List E
  pub encode_state : S → Option Bytes
  pub encode_event : E → Option Bytes

module _ {S E M R : Type 0} (h : Handlers S E M R) where
  -- An event that cannot be serialized is skipped.
  unfoldable pub encode_events : List E → List Bytes
  encode_events [] = []
  encode_events (e ∷ es) = elim (h.encode_event e) [
    | some b ↦ b ∷ encode_events es
    | none ↦ encode_events es
  ]

  unfoldable pub apply_all : List E → S → S
  apply_all [] s = s
  apply_all (e ∷ es) s = apply_all es (h.grain.apply s e)

  module _ {W : Type 0} (store : JournalStore W) (id : GrainId) where
    -- A failure of the journal is logged, and the state is left as it is.
    noted : ℕ → JournaledState S → W × Result PersistenceError ℕ → JournaledState S × W
    noted n j (w, ok seq) = (
      record j { sequence = seq; events_since_snapshot = (j.events_since_snapshot + n) % 2 ^ 64 },
      w,
    )
    noted n j (w, err _) = (j, w)

    persist : List Bytes → JournaledState S → W → JournaledState S × W
    unfolding noted
    persist bs j w = if is_empty bs then (j, w) else noted (length bs) j (store.append id bs w)

    settled : JournaledState S → W × Result PersistenceError (Unit {0}) → JournaledState S × W
    settled j (w, ok _) = (record j { events_since_snapshot = 0 }, w)
    settled j (w, err _) = (j, w)

    snapshot_if_due : JournaledState S → W → JournaledState S × W
    unfolding settled
    snapshot_if_due j w =
        if ltb 0 j.snapshot_interval && leb j.snapshot_interval j.events_since_snapshot
        then elim (h.encode_state j.state) [
          | some bytes ↦ settled j (store.save_snapshot id j.sequence bytes w)
          | none ↦ (j, w)
        ]
        else (j, w)

    after_events : List E → JournaledState S → W → JournaledState S × W
    unfolding encode_events apply_all persist snapshot_if_due
    after_events events j w =
        if is_empty events
        then (j, w)
        else (let (j', w') = persist (encode_events events) j w in
            snapshot_if_due (record j' { state = apply_all events j'.state }) w')

    -- The handler reads the state; its events are written, then applied, and the reply is sent.
    unfoldable pub ask : M → JournaledState S → W → JournaledState S × W × R
    unfolding after_events
    ask m j w =
        let (reply, events) = h.handle j.state m in
        let (j', w') = after_events events j w in (j', w', reply)

    -- The snapshot that a graceful end writes after `on_deactivate`.
    unfoldable pub final_snapshot : JournaledState S → W → W
    final_snapshot j w = elim (h.encode_state j.state) [
      | some bytes ↦ (store.save_snapshot id j.sequence bytes w).0
      | none ↦ w
    ]
