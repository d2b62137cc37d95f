-- ===== src/Persistence/Journal/Replay.antt =====
-- What an activation rebuilds from a journal.
use orlando.Base.{
  ℕ, zero, suc, ◌+◌, ◌%◌, ◌^◌, ◌≤◌, ◌<◌, ◌≡◌, refl, ap, subst, sym, ◌∙◌, inl, inr, List, [], ◌∷◌,
  ◌++◌, none, some, ltb, last?, keep, take, drop, length, arith, take-append-drop, length-append,
  Option-cases,
}
use orlando.Core.Ids.{GrainId, grain_id_key}
use orlando.Persistence.Store.{Bytes}
use orlando.Persistence.Journal.Reads.{load_events-append}
use orlando.Persistence.Journal.{
  JournalEntry, InMemoryJournalStore, last_sequence, number_from, append, load_events,
  load_events_after, load_snapshot, JournaledGrain, from_snapshot, replay, load_memory,
}

-- The entries are numbered one by one after `from`.
abbrev pub IsNumbered : ℕ → List JournalEntry → Type 0
IsNumbered from [] = Unit
IsNumbered from (e ∷ es) = (e.sequence ≡ from + 1) × IsNumbered (from + 1) es

next_sequence : (from n : ℕ) → from + suc n < 2 ^ 64 → (from + 1) % 2 ^ 64 ≡ from + 1
next_sequence from n h = omega arith

number_from-IsNumbered :
    (from : ℕ) (bs : List Bytes)
    → from + length bs < 2 ^ 64
    → IsNumbered from (number_from from bs).0
unfolding number_from
number_from-IsNumbered from [] h = tt
number_from-IsNumbered from (b ∷ bs) h =
    let e = next_sequence from (length bs) h in
    (e, rw e (number_from-IsNumbered (from + 1) bs (omega arith)))

IsNumbered-append :
    (from mid : ℕ) (es fs : List JournalEntry)
    → IsNumbered from es
    → mid ≡ from + length es
    → IsNumbered mid fs
    → IsNumbered from (es ++ fs)
IsNumbered-append from mid [] fs h e k = subst (λ n. IsNumbered n fs) (omega arith) k
IsNumbered-append from mid (x ∷ es) fs h e k =
    (h.0, IsNumbered-append (from + 1) mid es fs h.1 (omega arith) k)

last_sequence-IsNumbered :
    (from : ℕ) (e : JournalEntry) (es : List JournalEntry)
    → IsNumbered from (e ∷ es)
    → last_sequence (last? (e ∷ es)) ≡ from + length (e ∷ es)
unfolding last_sequence
last_sequence-IsNumbered from e [] h = omega arith
last_sequence-IsNumbered from e (f ∷ es) h =
    omega (arith, last_sequence-IsNumbered (from + 1) f es h.1)

last_sequence-length :
    (es : List JournalEntry) → IsNumbered 0 es → last_sequence (last? es) ≡ length es
unfolding last_sequence
last_sequence-length [] h = refl
last_sequence-length (e ∷ es) h = omega (arith, last_sequence-IsNumbered 0 e es h)

number_from_last :
    (from : ℕ) (bs : List Bytes)
    → from + length bs < 2 ^ 64
    → (number_from from bs).1 ≡ from + length (number_from from bs).0
unfolding number_from
number_from_last from [] h = omega arith
number_from_last from (b ∷ bs) h =
    let e = next_sequence from (length bs) h in
    rw e (omega (arith, number_from_last (from + 1) bs (omega arith)))

append_last :
    (id : GrainId) (bs : List Bytes) (st : InMemoryJournalStore)
    → (append id bs st).1 ≡ (number_from (last_sequence (last? (load_events id st))) bs).1
unfolding append load_events
append_last id bs st = refl

-- Appending keeps a journal numbered 1, 2, 3, ..., and returns the number of its last event, as long
-- as the journal holds fewer than 2^64 events.
pub append-IsNumbered :
    (id : GrainId) (bs : List Bytes) (st : InMemoryJournalStore)
    → IsNumbered 0 (load_events id st)
    → length (load_events id st) + length bs < 2 ^ 64
    → IsNumbered 0 (load_events id (append id bs st).0)
      × ((append id bs st).1 ≡ length (load_events id (append id bs st).0))
append-IsNumbered id bs st h room =
    let es = load_events id st in
    let seq = last_sequence (last? es) in
    let fits : seq + length bs < 2 ^ 64 = omega (arith, last_sequence-length es h, room) in
    rw (load_events-append id bs st, append_last id bs st)
      (
        IsNumbered-append 0 seq es (number_from seq bs).0 h
            (omega (arith, last_sequence-length es h)) (number_from-IsNumbered seq bs fits),
        omega (
          arith,
          last_sequence-length es h,
          number_from_last seq bs fits,
          length-append es (number_from seq bs).0,
        ),
      )

keep_all :
    (n from : ℕ) (es : List JournalEntry)
    → IsNumbered from es
    → n ≤ from
    → keep (λ e. ltb n e.sequence) es ≡ es
keep_all n from [] h k = refl
keep_all n from (e ∷ es) h k = ground (arith, keep_all n (from + 1) es h.1)

keep-IsNumbered :
    (n from to : ℕ) (es : List JournalEntry)
    → IsNumbered from es
    → to ≡ from + n
    → keep (λ e. ltb to e.sequence) es ≡ drop n es
keep-IsNumbered zero from to es h k = keep_all to from es h (omega arith)
keep-IsNumbered (suc n) from to [] h k = refl
keep-IsNumbered (suc n) from to (e ∷ es) h k =
    ground (arith, keep-IsNumbered n (from + 1) to es h.1)

module _ {S E : Type 0} (g : JournaledGrain S E) where
  pub replay-append :
      (es fs : List JournalEntry) (s : S) (seq : ℕ)
      → replay g (es ++ fs) s seq ≡ replay g fs (replay g es s seq).0 (replay g es s seq).1
  unfolding replay
  replay-append [] fs s seq = refl
  replay-append (e ∷ es) fs s seq = elim (Option-cases (g.decode_event e.event_bytes)) [
    | inl none_decoded ↦ ground (arith, replay-append es fs s seq)
    | inr (ev, decoded) ↦ ground (arith, replay-append es fs (g.apply s ev) e.sequence)
  ]

  replay_state :
      (es : List JournalEntry) (s : S) (p q : ℕ) → (replay g es s p).0 ≡ (replay g es s q).0
  unfolding replay
  replay_state [] s p q = refl
  replay_state (e ∷ es) s p q = elim (Option-cases (g.decode_event e.event_bytes)) [
    | inl none_decoded ↦ ground (arith, replay_state es s p q)
    | inr (ev, decoded) ↦ ground arith
  ]

  events_after :
      (id : GrainId) (st : InMemoryJournalStore) (n : ℕ)
      → IsNumbered 0 (load_events id st)
      → load_events_after id n st ≡ drop n (load_events id st)
  unfolding load_events_after load_events
  events_after id st n h = keep-IsNumbered n 0 n (load_events id st) h (omega arith)

  -- A snapshot is an optimisation only: where it holds the state after the first `n` events, the
  -- rebuilt state is that of a replay of all events from the default, decodable or not. The events
  -- are numbered from 1.
  pub load_memory-snapshot :
      (id : GrainId) (st : InMemoryJournalStore) (n : ℕ) (bytes : Bytes)
      → IsNumbered 0 (load_events id st)
      → load_snapshot id st ≡ some (n, bytes)
      → g.decode_state bytes ≡ some (replay g (take n (load_events id st)) g.default_state 0).0
      → (load_memory g id st).0 ≡ (replay g (load_events id st) g.default_state 0).0
  unfolding load_memory
  load_memory-snapshot id st n bytes v h d =
      let es = load_events id st in
      let before = replay g (take n es) g.default_state 0 in
      rw (h, from_snapshot, d, events_after id st n v)
        (replay_state (drop n es) before.0 n before.1
          ∙ sym (ap (λ p. p.0) (replay-append (take n es) (drop n es) g.default_state 0))
          ∙ ap (λ l. (replay g l g.default_state 0).0) (take-append-drop n es))

  -- Without a snapshot every event is replayed from the default.
  pub load_memory_fresh :
      (id : GrainId) (st : InMemoryJournalStore)
      → IsNumbered 0 (load_events id st)
      → load_snapshot id st ≡ none
      → (load_memory g id st).0 ≡ (replay g (load_events id st) g.default_state 0).0
  unfolding load_memory
  load_memory_fresh id st v h = rw (h, from_snapshot, events_after id st 0 v) refl
