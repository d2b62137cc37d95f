-- ===== src/Cluster/Replica/Delivers.antt =====
-- The way of a state from the sink of a primary cluster over the log to a replica.
use orlando.Base.{
  ℕ, ◌+◌, ◌*◌, ◌≤◌, ◌<◌, ◌%◌, ◌^◌, ◌≡◌, refl, Bool, true, false, List, [], ◌∷◌, ◌++◌, some, ltb,
  last?, any, keep, length, length-append, arith,
}
use orlando.Core.Ids.{text_key}
use orlando.Persistence.Replication.{
  ReplicationEntry, InMemoryReplicationLog, log_of, latest_sequence,
}
use orlando.Persistence.Replication.Ascent.{IsAscending, last_or, last?-cons}
use orlando.Persistence.Sink.{ReplicationSink, Sending, entry_of, send, sends, pump}
use orlando.Persistence.Sink.Arrives.{pump-sends}
use orlando.Cluster.Replica.{get, Consumer, is_delta, replica_of, batch_limit, polls}
use orlando.Cluster.Replica.Follows.{last_append, pending, polls-last}

keep-last :
    (p : ReplicationEntry → Bool) (es : List ReplicationEntry) (e : ReplicationEntry)
    → last? es ≡ some e
    → p e ≡ true
    → last? (keep p es) ≡ some e
unfolding last_or
keep-last p [] e h q = h
keep-last p (x ∷ []) e h q = ground (arith, h, q)
keep-last p (x ∷ y ∷ es) e h q =
    ground (arith, keep-last p (y ∷ es) e h q, last?-cons x (keep p (y ∷ es)))

length-keep :
    (p : ReplicationEntry → Bool) (es : List ReplicationEntry) → length (keep p es) ≤ length es
length-keep p [] = omega arith
length-keep p (x ∷ es) = ground (arith, length-keep p es)

any-append :
    (p : ReplicationEntry → Bool) (xs ys : List ReplicationEntry)
    → any p xs ≡ false
    → any p ys ≡ false
    → any p (xs ++ ys) ≡ false
any-append p [] ys h k = k
any-append p (x ∷ xs) ys h k = ground (arith, any-append p xs ys, h, k)

-- The sink sends whole states only.
sends-no_delta : (cs : List Sending) (s : ReplicationSink) → any is_delta (sends cs s) ≡ false
unfolding sends send entry_of is_delta
sends-no_delta [] s = refl
sends-no_delta (c ∷ cs) s = ground (arith, sends-no_delta cs (send c.now c.payload c.taken s).0)

sends-above :
    (cs : List Sending) (s : ReplicationSink) (e : ReplicationEntry)
    → s.next_sequence + length cs < 2 ^ 64
    → last? (sends cs s) ≡ some e
    → s.next_sequence ≤ e.sequence
unfolding sends send entry_of last_or
sends-above [] s e b h = absurd (ground arith)
sends-above (c ∷ cs) s e b h =
    let s' : ReplicationSink = (send c.now c.payload c.taken s).0 in
    let next : (s.next_sequence + 1) % 2 ^ 64 ≡ s.next_sequence + 1 = omega (arith, b) in
    ground (
      arith,
      next,
      last?-cons (entry_of c.now c.payload s) (sends cs s'),
      sends-above cs s' e (omega (arith, next, b)),
    )

-- A state that the channel took last reaches the replica: where the sink starts above the log's last
-- number without wrapping, the log held whole states in order, and the consumer had read no more than
-- it held, enough rounds after the pump (as many as the log has batches) leave that state under its
-- number in the replica, whatever the channel dropped before or after it.
pub polls-sends :
    (cs : List Sending) (s : ReplicationSink) (l : InMemoryReplicationLog) (c : Consumer) (n : ℕ)
    (e : ReplicationEntry)
    → latest_sequence s.grain_type s.grain_key l < s.next_sequence
    → s.next_sequence + length cs < 2 ^ 64
    → IsAscending 0 (log_of s.grain_type s.grain_key l)
    → any is_delta (log_of s.grain_type s.grain_key l) ≡ false
    → c.last_sequence ≤ latest_sequence s.grain_type s.grain_key l
    → length (log_of s.grain_type s.grain_key l) + length (sends cs s) ≤ batch_limit * n
    → last? (sends cs s) ≡ some e
    → get s.grain_type s.grain_key
        (polls n s.grain_type s.grain_key (pump (sends cs s) l) c).replicas
      ≡ some (replica_of e)
unfolding pending
polls-sends cs s l c n e h b a nd r few found =
    let old = log_of s.grain_type s.grain_key l in
    let (grown, up) = pump-sends cs s l h b a in
    let whole : any is_delta (old ++ sends cs s) ≡ false =
      any-append is_delta old (sends cs s) nd (sends-no_delta cs s) in
    let above : s.next_sequence ≤ e.sequence = sends-above cs s e b found in
    let unread : last?
          (keep (λ (x : ReplicationEntry). ltb c.last_sequence x.sequence) (old ++ sends cs s))
        ≡ some e =
      keep-last (λ (x : ReplicationEntry). ltb c.last_sequence x.sequence) (old ++ sends cs s) e
        (last_append old (sends cs s) e found) (ground (arith, above, h, r)) in
    let short : length
          (keep (λ (x : ReplicationEntry). ltb c.last_sequence x.sequence) (old ++ sends cs s))
        ≤ batch_limit * n =
      omega (
        arith,
        length-keep (λ (x : ReplicationEntry). ltb c.last_sequence x.sequence) (old ++ sends cs s),
        length-append old (sends cs s),
        few,
      ) in
    (polls-last s.grain_type s.grain_key (pump (sends cs s) l) n c e up (rw grown whole)
      (rw grown short) (rw grown unread)).0
