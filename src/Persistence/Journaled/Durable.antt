-- ===== src/Persistence/Journaled/Durable.antt =====
-- What survives of a journaled grain when its silo stops at any point between two messages.
use orlando.Base.{
  ℕ, zero, suc, ◌+◌, ◌%◌, ◌^◌, ◌<◌, ◌≤◌, ◌≡◌, refl, ap, subst, sym, ◌∙◌, inl, inr, false, List, [],
  ◌∷◌, ◌++◌, Option, none, some, arith, length, length-append, take, last?, is_empty, Option-cases,
  Bool-cases, ltb, leb, ◌&&◌,
}
use orlando.Core.Ids.{GrainId, grain_id_key}
use orlando.Persistence.Store.{Bytes}
use orlando.Persistence.Journal
use orlando.Persistence.Journal.{
  JournalEntry, InMemoryJournalStore, JournaledGrain, load_events, load_snapshot, replay,
  load_memory, number_from, last_sequence,
}
use orlando.Persistence.Journal.Replay.{
  IsNumbered, load_memory-snapshot, load_memory_fresh, append-IsNumbered, replay-append,
}
use orlando.Persistence.Journal.Reads.{
  load_events-append, load_snapshot-append, load_events-save_snapshot, load_snapshot-save_snapshot,
}
use orlando.Persistence.Journaled.{
  memory_journal, JournaledState, Handlers, encode_events, apply_all, persist, snapshot_if_due,
  after_events, ask, noted, settled,
}

module _ {S E M R : Type 0} (h : Handlers S E M R) (id : GrainId) where
  -- What is encoded can be decoded.
  pub record IsLossless : Type 0 where
    pub state_encodes :
        (s : S) → (b : Bytes) × (h.encode_state s ≡ some b) × (h.grain.decode_state b ≡ some s)
    pub event_encodes :
        (e : E) → (b : Bytes) × (h.encode_event e ≡ some b) × (h.grain.decode_event b ≡ some e)

  abbrev pub rebuilt : InMemoryJournalStore → S
  rebuilt st = (replay h.grain (load_events id st) h.grain.default_state 0).0

  -- A snapshot holds the state after a first part of the events.
  abbrev pub SnapshotFits : InMemoryJournalStore → Option (ℕ × Bytes) → Type 0
  SnapshotFits st none = Unit
  SnapshotFits st (some (n, bytes)) =
      (n ≤ length (load_events id st))
      × (h.grain.decode_state bytes
          ≡ some (replay h.grain (take n (load_events id st)) h.grain.default_state 0).0)

  -- The activation and its journal agree.
  pub record Synced (j : JournaledState S) (st : InMemoryJournalStore) : Type 0 where
    pub numbered : IsNumbered 0 (load_events id st)
    pub current : j.state ≡ rebuilt st
    pub counted : j.sequence ≡ length (load_events id st)
    pub fits : SnapshotFits st (load_snapshot id st)

  -- An activation that agrees with its journal and stops is rebuilt with the state that it had.
  pub load_memory-Synced :
      (j : JournaledState S) (st : InMemoryJournalStore)
      → Synced j st
      → (load_memory h.grain id st).0 ≡ j.state
  load_memory-Synced j st y = elim (Option-cases (load_snapshot id st)) [
    | inl e ↦ load_memory_fresh h.grain id st y.numbered e ∙ sym y.current
    | inr ((n, bytes), e) ↦
        let fits : SnapshotFits st (some (n, bytes)) = subst (SnapshotFits st) e y.fits in
        load_memory-snapshot h.grain id st n bytes y.numbered e fits.1 ∙ sym y.current
  ]

  replay_encoded :
      (l : IsLossless) (es : List E) (seq q : ℕ) (s : S)
      → (replay h.grain (number_from seq (encode_events h es)).0 s q).0 ≡ apply_all h es s
  unfolding encode_events apply_all replay number_from
  replay_encoded l [] seq q s = refl
  replay_encoded l (e ∷ es) seq q s =
      let (b, encoded, decoded) = l.event_encodes e in
      ground
        (arith, replay_encoded l es ((seq + 1) % 2 ^ 64) ((seq + 1) % 2 ^ 64) (h.grain.apply s e))

  is_empty-encode_events :
      (l : IsLossless) (es : List E) → is_empty (encode_events h es) ≡ is_empty es
  unfolding encode_events
  is_empty-encode_events l [] = refl
  is_empty-encode_events l (e ∷ es) = let (b, encoded, decoded) = l.event_encodes e in ground arith

  take-append : (n : ℕ) (es fs : List JournalEntry) → n ≤ length es → take n (es ++ fs) ≡ take n es
  take-append zero es fs k = refl
  take-append (suc n) [] fs k = absurd (omega arith)
  take-append (suc n) (e ∷ es) fs k = ap (◌∷◌ e) (take-append n es fs (omega arith))

  take-length : (n : ℕ) (es : List JournalEntry) → n ≡ length es → take n es ≡ es
  take-length zero [] k = refl
  take-length zero (e ∷ es) k = absurd (omega arith)
  take-length (suc n) [] k = absurd (omega arith)
  take-length (suc n) (e ∷ es) k = ap (◌∷◌ e) (take-length n es (omega arith))

  -- The state after the events are written and applied, before a snapshot is considered.
  written :
      List E → JournaledState S → InMemoryJournalStore → JournaledState S × InMemoryJournalStore
  written es j st =
      let (j', st') = persist h memory_journal id (encode_events h es) j st in
      (record j' { state = apply_all h es j'.state }, st')

  SnapshotFits-append :
      (bs : List Bytes) (st : InMemoryJournalStore) (o : Option (ℕ × Bytes))
      → SnapshotFits st o
      → SnapshotFits (Journal.append id bs st).0 o
  SnapshotFits-append bs st none k = tt
  SnapshotFits-append bs st (some (n, bytes)) k = rw (load_events-append id bs st) (
    omega (arith, k.0, length-append (load_events id st) added),
    rw (take-append n (load_events id st) added k.0) k.1,
  )
    where
      added : List JournalEntry
      added = (number_from (last_sequence (last? (load_events id st))) bs).0

  appended-Synced :
      (l : IsLossless) (es : List E) (j : JournaledState S) (st : InMemoryJournalStore)
      → Synced j st
      → length (load_events id st) + length (encode_events h es) < 2 ^ 64
      → let (st', seq) = Journal.append id (encode_events h es) st in
        Synced
          (record j {
            state = apply_all h es j.state;
            sequence = seq;
            events_since_snapshot =
                (j.events_since_snapshot + length (encode_events h es)) % 2 ^ 64;
          })
          st'
  appended-Synced l es j st y room =
      let bs = encode_events h es in
      let before = load_events id st in
      let first = last_sequence (last? before) in
      let added = (number_from first bs).0 in
      let known = replay h.grain before h.grain.default_state 0 in
      record {
        numbered = (append-IsNumbered id bs st y.numbered room).0;
        current =
            rw (rebuilt, load_events-append id bs st, y.current)
              (sym (
                ap (λ p. p.0) (replay-append h.grain before added h.grain.default_state 0)
                ∙ replay_encoded l es first known.1 known.0));
        counted = (append-IsNumbered id bs st y.numbered room).1;
        fits =
            rw (load_snapshot-append id bs st)
              (SnapshotFits-append bs st (load_snapshot id st) y.fits);
      }

  written-Synced :
      (l : IsLossless) (es : List E) (j : JournaledState S) (st : InMemoryJournalStore)
      → is_empty es ≡ false
      → Synced j st
      → length (load_events id st) + length (encode_events h es) < 2 ^ 64
      → Synced (written es j st).0 (written es j st).1
  unfolding written persist noted memory_journal
  written-Synced l es j st k y room =
      rw (is_empty-encode_events l es ∙ k) (appended-Synced l es j st y room)

  snapshot-Synced :
      (j : JournaledState S) (st : InMemoryJournalStore) (b : Bytes)
      → h.grain.decode_state b ≡ some j.state
      → Synced j st
      → Synced (record j { events_since_snapshot = 0 }) (Journal.save_snapshot id j.sequence b st)
  snapshot-Synced j st b d y = record {
    numbered = rw (load_events-save_snapshot id j.sequence b st) y.numbered;
    current = rw (rebuilt, load_events-save_snapshot id j.sequence b st) y.current;
    counted = rw (load_events-save_snapshot id j.sequence b st) y.counted;
    fits =
        rw
          (
            load_snapshot-save_snapshot id j.sequence b st,
            load_events-save_snapshot id j.sequence b st,
          )
          (
            omega arith,
            d
                ∙ ap some (
                    y.current
                    ∙ ap (λ l. (replay h.grain l h.grain.default_state 0).0)
                        (sym (take-length j.sequence (load_events id st) y.counted))),
          );
  }

  snapshot_if_due-Synced :
      (l : IsLossless) (j : JournaledState S) (st : InMemoryJournalStore)
      → Synced j st
      → Synced
          (snapshot_if_due h memory_journal id j st).0
          (snapshot_if_due h memory_journal id j st).1
  unfolding snapshot_if_due settled memory_journal
  snapshot_if_due-Synced l j st y =
      let (b, encoded, decoded) = l.state_encodes j.state in
      elim (Bool-cases
        (ltb 0 j.snapshot_interval && leb j.snapshot_interval j.events_since_snapshot)) [
          | inl due ↦ rw (due, encoded) (snapshot-Synced j st b decoded y)
          | inr early ↦ rw early y
        ]

  -- Every answered message keeps the activation and its journal in agreement, if states and events can
  -- be encoded and decoded and the journal holds fewer than 2^64 events after it.
  pub ask-Synced :
      (m : M) (j : JournaledState S) (st : InMemoryJournalStore)
      → IsLossless
      → length (load_events id st) + length (encode_events h (h.handle j.state m).1) < 2 ^ 64
      → Synced j st
      → Synced (ask h memory_journal id m j st).0 (ask h memory_journal id m j st).1
  unfolding ask written
  ask-Synced m j st l room y = elim (Bool-cases (is_empty (h.handle j.state m).1)) [
    | inl quiet ↦ rw (quiet, ask, after_events) y
    | inr busy ↦
        rw (busy, ask, after_events)
          (snapshot_if_due-Synced l _ _ (written-Synced l (h.handle j.state m).1 j st busy y room))
  ]
