-- ===== src/Persistence/Sink/Arrives.antt =====
-- crates/orlando-persistence/src/replication_sink.rs and crates/orlando-cluster/src/replication_producer.rs:
-- what the sink hands over arrives in the log.
use orlando.Base.{
  ◌+◌, ◌<◌, ◌%◌, ◌^◌, ◌≡◌, refl, sym, ap, ◌∙◌, List, [], ◌∷◌, ◌++◌, if-taken, last?, last?-append,
  length, arith,
}
use orlando.Core.Ids.{Text}
use orlando.Persistence.Replication.{
  ReplicationEntry, InMemoryReplicationLog, append, log_of, latest_sequence, sequence_of,
}
use orlando.Persistence.Replication.Ascent.{IsAscending, append-grows, append-IsAscending}
use orlando.Persistence.Sink.{ReplicationSink, Sending, entry_of, send, sends, pump}

append_assoc {ℓ} : {A : Type ℓ} → (xs ys zs : List A) → (xs ++ ys) ++ zs ≡ xs ++ (ys ++ zs)
append_assoc [] ys zs = refl
append_assoc (x ∷ xs) ys zs = ap (◌∷◌ x) (append_assoc xs ys zs)

append_nil {ℓ} : {A : Type ℓ} → (xs : List A) → xs ++ [] ≡ xs
append_nil [] = refl
append_nil (x ∷ xs) = ap (◌∷◌ x) (append_nil xs)

latest-append :
    (e : ReplicationEntry) (l : InMemoryReplicationLog)
    → latest_sequence e.grain_type e.grain_key l < e.sequence
    → latest_sequence e.grain_type e.grain_key (append e l).0 ≡ e.sequence
unfolding latest_sequence sequence_of
latest-append e l h =
    ap (λ es. sequence_of (last? es)) (append-grows e l h)
    ∙ ap sequence_of (last?-append (log_of e.grain_type e.grain_key l) e)

-- The log of the grain holds what it held and then the entries, in the order of their numbers.
abbrev Arrived :
    Text → Text → List ReplicationEntry → InMemoryReplicationLog → InMemoryReplicationLog → Type 0
Arrived grain_type grain_key es l l' =
    (log_of grain_type grain_key l' ≡ log_of grain_type grain_key l ++ es)
    × IsAscending 0 (log_of grain_type grain_key l')

-- Nothing that the channel took is refused: where the sink starts above the log's last number, as it
-- is meant to, and its counter does not wrap, every entry that the channel took stands in the log of
-- the grain behind what was there, in order, and the numbers of the log rise.
pub pump-sends :
    (cs : List Sending) (s : ReplicationSink) (l : InMemoryReplicationLog)
    → latest_sequence s.grain_type s.grain_key l < s.next_sequence
    → s.next_sequence + length cs < 2 ^ 64
    → IsAscending 0 (log_of s.grain_type s.grain_key l)
    → (log_of s.grain_type s.grain_key (pump (sends cs s) l)
        ≡ log_of s.grain_type s.grain_key l ++ sends cs s)
      × IsAscending 0 (log_of s.grain_type s.grain_key (pump (sends cs s) l))
unfolding pump sends send entry_of
pump-sends [] s l h b a = (sym (append_nil _), a)
pump-sends (c ∷ cs) s l h b a =
    let e : ReplicationEntry = entry_of c.now c.payload s in
    let s' : ReplicationSink = (send c.now c.payload c.taken s).0 in
    let next : (s.next_sequence + 1) % 2 ^ 64 ≡ s.next_sequence + 1 = omega (arith, b) in
    if-taken
      (λ (es : List ReplicationEntry).
        Arrived s.grain_type s.grain_key (es ++ sends cs s') l (pump (es ++ sends cs s') l))
      c.taken
      (λ _.
        let (grown, up) =
          pump-sends cs s' (append e l).0 (omega (arith, latest-append e l h, next))
            (omega (arith, next, b)) (append-IsAscending e l (omega (arith, h)) a).0 in
        (
          grown
              ∙ ap (λ es. es ++ sends cs s') (append-grows e l h)
              ∙ append_assoc (log_of s.grain_type s.grain_key l) (e ∷ []) (sends cs s'),
          up,
        ))
      (λ _. pump-sends cs s' l (omega (arith, h, next)) (omega (arith, next, b)) a)
