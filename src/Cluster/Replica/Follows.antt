-- ===== src/Cluster/Replica/Follows.antt =====
-- A replica catches up with the log.
use orlando.Base.{
  ℕ, zero, suc, ◌*◌, ◌≤◌, ◌<◌, ◌≡◌, refl, sym, ◌∙◌, ap, subst, inl, inr, false, List, [], ◌∷◌, ◌++◌,
  none, some, ltb, last?, any, keep, take, drop, length, length-drop, take-append-drop,
  lookup-insert, same_refl, arith, Option-cases,
}
use orlando.Core.Ids.{Text, text_key}
use orlando.Persistence.Replication.{ReplicationEntry, InMemoryReplicationLog, log_of, read_from}
use orlando.Persistence.Replication.Ascent.{
  IsAscending, keep_above-IsAscending, keep-keep, last_or, last?-cons, last?-IsAscending,
  keep_after_take,
}
use orlando.Cluster.Replica.{
  update, get, Consumer, is_delta, replica_of, applied, polled, batch_limit, poll, polls,
}

pub last_append :
    (xs ys : List ReplicationEntry) (e : ReplicationEntry)
    → last? ys ≡ some e
    → last? (xs ++ ys) ≡ some e
unfolding last_or
last_append [] ys e h = h
last_append (x ∷ xs) ys e h = ground (arith, last?-cons x (xs ++ ys), last_append xs ys e h)

last_length :
    (xs : List ReplicationEntry) (e : ReplicationEntry) → last? xs ≡ some e → 0 < length xs
last_length [] e h = absurd (ground arith)
last_length (x ∷ xs) e h = omega arith

some_injective : {x y : ReplicationEntry} → some x ≡ some y → x ≡ y
some_injective h = cc

last_whole : (k : ℕ) (xs : List ReplicationEntry) → drop k xs ≡ [] → last? (take k xs) ≡ last? xs
last_whole zero [] h = refl
last_whole zero (x ∷ xs) h = absurd (ground arith)
last_whole (suc k) [] h = refl
last_whole (suc k) (x ∷ xs) h =
    last?-cons x (take k xs) ∙ ap (last_or x) (last_whole k xs h) ∙ sym (last?-cons x xs)

last_none : (xs : List ReplicationEntry) → last? xs ≡ none → xs ≡ []
unfolding last_or
last_none [] h = refl
last_none (x ∷ xs) h = absurd (ground (arith, last?-cons x xs))

last_take :
    (k : ℕ) (xs : List ReplicationEntry) (e : ReplicationEntry)
    → last? xs ≡ some e
    → (b : ReplicationEntry) × (last? (take (suc k) xs) ≡ some b)
last_take k [] e h = absurd (ground arith)
last_take k (x ∷ xs) e h = elim (Option-cases (last? (take (suc k) (x ∷ xs)))) [
  | inl gone ↦ absurd (ground (arith, last_none (take (suc k) (x ∷ xs)) gone))
  | inr found ↦ found
]

any-take :
    (k : ℕ) (xs : List ReplicationEntry)
    → any is_delta xs ≡ false
    → any is_delta (take k xs) ≡ false
any-take zero xs h = refl
any-take (suc k) [] h = refl
any-take (suc k) (x ∷ xs) h = ground (arith, any-take k xs)

any-keep :
    (n : ℕ) (xs : List ReplicationEntry)
    → any is_delta xs ≡ false
    → any is_delta (keep (λ e. ltb n e.sequence) xs) ≡ false
any-keep n [] h = refl
any-keep n (x ∷ xs) h = ground (arith, any-keep n xs)

module _ (grain_type grain_key : Text) (l : InMemoryReplicationLog) where
  abbrev log : List ReplicationEntry
  log = log_of grain_type grain_key l

  -- The entries that the consumer has not read.
  unfoldable pub pending : Consumer → List ReplicationEntry
  pending c = keep (λ e. ltb c.last_sequence e.sequence) log

  poll_idle : (c : Consumer) → pending c ≡ [] → poll grain_type grain_key l c ≡ c
  unfolding poll polled applied read_from pending
  poll_idle c h = rw h refl

  poll_busy :
      (c : Consumer) (e : ReplicationEntry)
      → any is_delta (take batch_limit (pending c)) ≡ false
      → last? (take batch_limit (pending c)) ≡ some e
      → poll grain_type grain_key l c ≡ record {
        last_sequence = e.sequence;
        replicas = update grain_type grain_key (replica_of e) c.replicas;
      }
  unfolding poll polled applied read_from pending
  poll_busy c e nd h = rw (nd, h)

  pending-poll :
      (c : Consumer) (e : ReplicationEntry)
      → IsAscending 0 log
      → last? (take batch_limit (pending c)) ≡ some e
      → keep (λ x. ltb e.sequence x.sequence) log ≡ drop batch_limit (pending c)
  unfolding pending
  pending-poll c e a h =
      let up = keep_above-IsAscending c.last_sequence 0 log a in
      let later = last?-IsAscending c.last_sequence batch_limit (pending c) e up h in
      sym (keep-keep c.last_sequence e.sequence log (omega (arith, later)))
      ∙ keep_after_take c.last_sequence batch_limit (pending c) e up h

  polls_idle : (n : ℕ) (c : Consumer) → pending c ≡ [] → polls n grain_type grain_key l c ≡ c
  unfolding polls
  polls_idle zero c h = refl
  polls_idle (suc n) c h = ap (polls n grain_type grain_key l) (poll_idle c h) ∙ polls_idle n c h

  -- The consumer has read the entry, and the replica holds it.
  Holds : ReplicationEntry → Consumer → Type 0
  Holds e c =
      (get grain_type grain_key c.replicas ≡ some (replica_of e)) × (c.last_sequence ≡ e.sequence)

  updated : Consumer → ReplicationEntry → Consumer
  updated c e = record {
    last_sequence = e.sequence;
    replicas = update grain_type grain_key (replica_of e) c.replicas;
  }

  updated-Holds : (c : Consumer) (e : ReplicationEntry) → Holds e (updated c e)
  unfolding Holds updated get update
  updated-Holds c e = (rw (lookup-insert, same_refl), refl)

  no_delta :
      (c : Consumer)
      → any is_delta log ≡ false
      → any is_delta (take batch_limit (pending c)) ≡ false
  unfolding pending
  no_delta c nd = any-take batch_limit (pending c) (any-keep c.last_sequence log nd)

  poll-updated :
      (c : Consumer) (b : ReplicationEntry)
      → any is_delta log ≡ false
      → last? (take batch_limit (pending c)) ≡ some b
      → poll grain_type grain_key l c ≡ updated c b
  unfolding updated
  poll-updated c b nd found = poll_busy c b (no_delta c nd) found

  pending-updated :
      (c : Consumer) (b : ReplicationEntry)
      → IsAscending 0 log
      → last? (take batch_limit (pending c)) ≡ some b
      → pending (updated c b) ≡ drop batch_limit (pending c)
  unfolding pending updated
  pending-updated c b a found = pending-poll c b a found

  -- `n` rounds are enough for `batch_limit * n` entries.
  polls-Holds :
      (n : ℕ) (c : Consumer) (e : ReplicationEntry)
      → IsAscending 0 log
      → any is_delta log ≡ false
      → length (pending c) ≤ batch_limit * n
      → last? (pending c) ≡ some e
      → Holds e (polls n grain_type grain_key l c)
  unfolding polls
  polls-Holds zero c e a nd few h = absurd (omega (arith, last_length (pending c) e h, few))
  polls-Holds (suc n) c e a nd few h =
      let p = pending c in
      let (b, found) = last_take 99 p e h in
      let rest = pending-updated c b a found in
      let step = ap (polls n grain_type grain_key l) (poll-updated c b nd found) in
      elim (Option-cases (last? (drop batch_limit p))) [
        | inl done ↦
            let none_left = last_none (drop batch_limit p) done in
            let whole = last_whole batch_limit p none_left in
            let is_last : some b ≡ some e = sym found ∙ whole ∙ h in
            subst (Holds e) (sym (step ∙ polls_idle n (updated c b) (rest ∙ none_left)))
              (subst (λ x. Holds x (updated c b)) (some_injective is_last) (updated-Holds c b))
        | inr (e', more) ↦
            let same_last =
              sym (last_append (take batch_limit p) (drop batch_limit p) e' more)
              ∙ ap last? (take-append-drop batch_limit p)
              ∙ h in
            subst (Holds e) (sym step) (
              polls-Holds n (updated c b) e a nd
                (omega (arith, ap length rest, length-drop batch_limit p, few))
                (ap last? rest ∙ more ∙ same_last))
      ]

  -- A replica catches up: where the log is in order and holds no delta, `n` rounds bring a consumer
  -- that has at most `batch_limit * n` entries to read, and at least one, to the log's last entry, and
  -- the store then holds that entry's state under its sequence number.
  pub polls-last :
      (n : ℕ) (c : Consumer) (e : ReplicationEntry)
      → IsAscending 0 (log_of grain_type grain_key l)
      → any is_delta (log_of grain_type grain_key l) ≡ false
      → length (pending c) ≤ batch_limit * n
      → last? (pending c) ≡ some e
      → (get grain_type grain_key (polls n grain_type grain_key l c).replicas ≡ some (replica_of e))
        × ((polls n grain_type grain_key l c).last_sequence ≡ e.sequence)
  unfolding Holds
  polls-last n c e a nd few h = polls-Holds n c e a nd few h
