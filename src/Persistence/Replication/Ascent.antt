-- ===== src/Persistence/Replication/Ascent.antt =====
-- The logs are in the order of their sequence numbers.
use orlando.Base.{
  ℕ, zero, suc, ◌≤◌, ◌<◌, ◌≡◌, ◌≢◌, ◌⊎◌, refl, sym, subst, true, List, [], ◌∷◌, ◌++◌, Option, none,
  some, ltb, last?, keep, take, drop, insert, lookup-insert, same_refl, Result, ok, arith,
  Option-cases, Bool-cases, inl, inr,
}
use orlando.Core.Ids.{Text, text_key, format_id}
use orlando.Persistence.Replication.{
  ReplicationEntry, InMemoryReplicationLog, or_empty, log_of, ReplicationError, clash, pushed,
  append, latest_sequence, sequence_of,
}

-- The sequence numbers rise from above `n` on.
abbrev pub IsAscending : ℕ → List ReplicationEntry → Type 0
IsAscending n [] = Unit
IsAscending n (e ∷ es) = (n < e.sequence) × IsAscending e.sequence es

IsAscending-lower :
    (m n : ℕ) (es : List ReplicationEntry) → m ≤ n → IsAscending n es → IsAscending m es
IsAscending-lower m n [] h a = tt
IsAscending-lower m n (e ∷ es) h a = (omega (arith, a.0), a.1)

pub keep-IsAscending :
    (m n : ℕ) (es : List ReplicationEntry)
    → IsAscending n es
    → IsAscending n (keep (λ e. ltb m e.sequence) es)
keep-IsAscending m n [] a = tt
keep-IsAscending m n (e ∷ es) a = elim (Bool-cases (ltb m e.sequence)) [
  | inl c ↦ rw c (a.0, keep-IsAscending m e.sequence es a.1)
  | inr c ↦
      rw c (
        IsAscending-lower n e.sequence _ (omega (arith, a.0))
          (keep-IsAscending m e.sequence es a.1))
]

-- What is kept above a bound rises from the bound on.
pub keep_above-IsAscending :
    (m n : ℕ) (es : List ReplicationEntry)
    → IsAscending n es
    → IsAscending m (keep (λ e. ltb m e.sequence) es)
keep_above-IsAscending m n [] a = tt
keep_above-IsAscending m n (e ∷ es) a = elim (Bool-cases (ltb m e.sequence)) [
  | inl c ↦ rw c (omega (arith, above m e.sequence c), keep-IsAscending m e.sequence es a.1)
  | inr c ↦ rw c (keep_above-IsAscending m e.sequence es a.1)
]
  where
    above : (a b : ℕ) → ltb a b ≡ true → a < b
    above a b h = ground (arith, h)

-- A higher bound keeps of what a lower bound kept what it keeps of all.
pub keep-keep :
    (m n : ℕ) (es : List ReplicationEntry)
    → m ≤ n
    → keep (λ e. ltb n e.sequence) (keep (λ e. ltb m e.sequence) es)
      ≡ keep (λ e. ltb n e.sequence) es
keep-keep m n [] h = refl
keep-keep m n (e ∷ es) h = ground (arith, keep-keep m n es h)

keep_all_above :
    (n : ℕ) (es : List ReplicationEntry) → IsAscending n es → keep (λ e. ltb n e.sequence) es ≡ es
keep_all_above n [] a = refl
keep_all_above n (e ∷ es) a =
    ground (arith, keep_all_above n es (IsAscending-lower n e.sequence es (omega (arith, a.0)) a.1))

unfoldable pub last_or : ReplicationEntry → Option ReplicationEntry → Option ReplicationEntry
last_or x none = some x
last_or x (some y) = some y

pub last?-cons :
    (x : ReplicationEntry) (ys : List ReplicationEntry) → last? (x ∷ ys) ≡ last_or x (last? ys)
unfolding last_or
last?-cons x [] = refl
last?-cons x (y ∷ ys) = ground (arith, last?-cons y ys)

pub last?-IsAscending :
    (n k : ℕ) (es : List ReplicationEntry) (e : ReplicationEntry)
    → IsAscending n es
    → last? (take k es) ≡ some e
    → n < e.sequence
unfolding last_or
last?-IsAscending n zero es e a h = absurd (ground arith)
last?-IsAscending n (suc k) [] e a h = absurd (ground arith)
last?-IsAscending n (suc k) (x ∷ es) e a h =
    ground (arith, last?-cons x (take k es), last?-IsAscending x.sequence k es e a.1)

drop_untaken : (k : ℕ) (es : List ReplicationEntry) → last? (take k es) ≡ none → drop k es ≡ es
unfolding last_or
drop_untaken zero es h = refl
drop_untaken (suc k) [] h = refl
drop_untaken (suc k) (x ∷ es) h = absurd (ground (arith, last?-cons x (take k es)))

-- The entries above the last one of a first part are those after it.
pub keep_after_take :
    (n k : ℕ) (es : List ReplicationEntry) (e : ReplicationEntry)
    → IsAscending n es
    → last? (take k es) ≡ some e
    → keep (λ x. ltb e.sequence x.sequence) es ≡ drop k es
unfolding last_or
keep_after_take n zero es e a h = absurd (ground arith)
keep_after_take n (suc k) [] e a h = refl
keep_after_take n (suc k) (x ∷ es) e a h = elim (Option-cases (last? (take k es))) [
  | inl none_after ↦
      let same_sequence : e.sequence ≡ x.sequence =
        ground (arith, last?-cons x (take k es), none_after, h) in
      ground (arith, same_sequence, drop_untaken k es none_after, keep_all_above x.sequence es a.1)
  | inr (y, after) ↦
      let here : last? (take k es) ≡ some e = ground (arith, last?-cons x (take k es), after, h) in
      ground (
        arith,
        keep_after_take x.sequence k es e a.1 here,
        last?-IsAscending x.sequence k es e a.1 here,
      )
]

IsAscending-append_cons :
    (n : ℕ) (x : ReplicationEntry) (es : List ReplicationEntry) (e : ReplicationEntry)
    → IsAscending n (x ∷ es)
    → clash e (last? (x ∷ es)) ≡ none
    → IsAscending n ((x ∷ es) ++ e ∷ [])
unfolding clash
IsAscending-append_cons n x [] e a c = (a.0, (ground arith, tt))
IsAscending-append_cons n x (y ∷ es) e a c = (a.0, IsAscending-append_cons x.sequence y es e a.1 c)

IsAscending-append :
    (es : List ReplicationEntry) (e : ReplicationEntry)
    → 0 < e.sequence
    → IsAscending 0 es
    → clash e (last? es) ≡ none
    → IsAscending 0 (es ++ e ∷ [])
IsAscending-append [] e p a c = (p, tt)
IsAscending-append (x ∷ es) e p a c = IsAscending-append_cons 0 x es e a c

log_of-put :
    (grain_type grain_key : Text) (log : List ReplicationEntry) (l : InMemoryReplicationLog)
    → log_of grain_type grain_key
        (record { entries = insert (format_id grain_type grain_key) log l.entries })
      ≡ log
unfolding log_of or_empty
log_of-put grain_type grain_key log l = rw (lookup-insert, same_refl)

-- What an append leaves: the log with the entry at its end, or a refusal and the log as it was.
module _ (e : ReplicationEntry) (l : InMemoryReplicationLog) where
  old : List ReplicationEntry
  old = log_of e.grain_type e.grain_key l

  Appended : InMemoryReplicationLog × Result ReplicationError ℕ → Type 0
  Appended (l', r) =
      ((r ≡ ok e.sequence)
        × (log_of e.grain_type e.grain_key l' ≡ old ++ e ∷ [])
        × (clash e (last? old) ≡ none))
      ⊎ ((r ≢ ok e.sequence) × (log_of e.grain_type e.grain_key l' ≡ old))

  pushed-Appended :
      (o : Option ReplicationError) → clash e (last? old) ≡ o → Appended (pushed o e old l)
  unfolding Appended pushed
  pushed-Appended none c = inl (refl, log_of-put e.grain_type e.grain_key _ l, c)
  pushed-Appended (some conflict) c =
      inr (λ h. absurd (ground arith), log_of-put e.grain_type e.grain_key _ l)

  append-Appended : Appended (append e l)
  unfolding append old
  append-Appended = pushed-Appended (clash e (last? old)) refl

clash-above :
    (e : ReplicationEntry) (o : Option ReplicationEntry)
    → sequence_of o < e.sequence
    → clash e o ≡ none
unfolding clash sequence_of
clash-above e none h = refl
clash-above e (some last) h = ground (arith, h)

-- An entry above the last number is accepted and comes last.
pub append-grows :
    (e : ReplicationEntry) (l : InMemoryReplicationLog)
    → latest_sequence e.grain_type e.grain_key l < e.sequence
    → log_of e.grain_type e.grain_key (append e l).0 ≡ log_of e.grain_type e.grain_key l ++ e ∷ []
unfolding append pushed latest_sequence
append-grows e l h =
    let fits : clash e (last? (log_of e.grain_type e.grain_key l)) ≡ none =
      clash-above e (last? (log_of e.grain_type e.grain_key l)) h in
    rw fits (log_of-put e.grain_type e.grain_key _ l)

-- No append, accepted or refused, brings the log of a grain out of the order of its sequence numbers:
-- an accepted entry comes last, and a refused one leaves the log as it was. The entry's own number is
-- above 0.
pub append-IsAscending :
    (e : ReplicationEntry) (l : InMemoryReplicationLog)
    → 0 < e.sequence
    → IsAscending 0 (log_of e.grain_type e.grain_key l)
    → IsAscending 0 (log_of e.grain_type e.grain_key (append e l).0)
      × (((append e l).1 ≡ ok e.sequence)
            × (log_of e.grain_type e.grain_key (append e l).0
                ≡ log_of e.grain_type e.grain_key l ++ e ∷ [])
          ⊎ ((append e l).1 ≢ ok e.sequence)
            × (log_of e.grain_type e.grain_key (append e l).0 ≡ log_of e.grain_type e.grain_key l))
unfolding Appended old
append-IsAscending e l p a = elim (append-Appended e l) [
  | inl (accepted, grown, free) ↦
      (subst (IsAscending 0) (sym grown) (IsAscending-append _ e p a free), inl (accepted, grown))
  | inr (refused, kept) ↦ (subst (IsAscending 0) (sym kept) a, inr (refused, kept))
]
