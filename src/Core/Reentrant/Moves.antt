-- ===== src/Core/Reentrant/Moves.antt =====
-- The steps of the reentrant loop as a relation, and what every schedule keeps.
use orlando.Base.{
  ℕ, zero, suc, ◌<◌, ◌≡◌, refl, subst, inl, inr, List, [], ◌∷◌, ◌++◌, Option, none, some, ltb,
  length, arith, Bool-cases, Option-cases,
}
use orlando.Core.Reentrant.{
  max_concurrent, Job, waiting, leftover, finished, Loop, Work, Choice, receive, handle_at,
  complete_at, join_at, split_at, spawned, handled_by, completed, received, handle_job,
  complete_job, join_job, step, run,
}

pub split_at_join :
    {A : Type 0} (i : ℕ) (xs : List A) {p : List A × A × List A}
    → split_at i xs ≡ some p
    → xs ≡ p.0 ++ p.1 ∷ p.2
unfolding split_at
split_at_join i [] h = cc
split_at_join zero (x ∷ xs) h = ground (arith, h)
split_at_join (suc i) (x ∷ xs) h = elim (Option-cases (split_at i xs)) [
  | inl e ↦ absurd (cc)
  | inr (q, e) ↦ let ih = split_at_join i xs e in ground (arith, h, e, ih)
]

module _ {S M B W : Type 0} (w : Work S M B W) where
  -- What one step can be.
  pub data Step (l : Loop S M B W) : Loop S M B W → Type 0 where
    receives :
        (m : M) (ms : List M)
        → l.inbox ≡ m ∷ ms
        → length l.jobs < max_concurrent
        → Step l (spawned w m ms l)
    handles :
        (before : List (Job M B)) (m : M) (after : List (Job M B))
        → l.jobs ≡ before ++ waiting m ∷ after
        → Step l (handled_by w before m after l)
    completes :
        (before : List (Job M B)) (b : B) (after : List (Job M B))
        → l.jobs ≡ before ++ leftover b ∷ after
        → Step l (completed w before b after l)
    joins :
        (before after : List (Job M B))
        → l.jobs ≡ before ++ finished ∷ after
        → Step l (record l { jobs = before ++ after })

  module _ (l : Loop S M B W) {l' : Loop S M B W} where
    received-Step : (ms : List M) → l.inbox ≡ ms → received w ms l ≡ some l' → Step l l'
    unfolding received
    received-Step [] e h = absurd (cc)
    received-Step (m ∷ ms) e h = elim (Bool-cases (ltb (length l.jobs) max_concurrent)) [
      | inl t ↦ let g = rw t at h in subst (Step l) (cc) (receives m ms e (ground (arith, t)))
      | inr t ↦ let g = rw t at h in absurd (cc)
    ]

    handle_job-Step :
        (o : Option (List (Job M B) × Job M B × List (Job M B)))
        → ((p : List (Job M B) × Job M B × List (Job M B)) → o ≡ some p → l.jobs ≡ p.0 ++ p.1 ∷ p.2)
        → handle_job w o l ≡ some l'
        → Step l l'
    unfolding handle_job
    handle_job-Step none j h = absurd (cc)
    handle_job-Step (some (before, waiting m, after)) j h =
        subst (Step l) (cc) (handles before m after (j _ refl))
    handle_job-Step (some (before, leftover b, after)) j h = absurd (cc)
    handle_job-Step (some (before, finished, after)) j h = absurd (cc)

    complete_job-Step :
        (o : Option (List (Job M B) × Job M B × List (Job M B)))
        → ((p : List (Job M B) × Job M B × List (Job M B)) → o ≡ some p → l.jobs ≡ p.0 ++ p.1 ∷ p.2)
        → complete_job w o l ≡ some l'
        → Step l l'
    unfolding complete_job
    complete_job-Step none j h = absurd (cc)
    complete_job-Step (some (before, waiting m, after)) j h = absurd (cc)
    complete_job-Step (some (before, leftover b, after)) j h =
        subst (Step l) (cc) (completes before b after (j _ refl))
    complete_job-Step (some (before, finished, after)) j h = absurd (cc)

    join_job-Step :
        (o : Option (List (Job M B) × Job M B × List (Job M B)))
        → ((p : List (Job M B) × Job M B × List (Job M B)) → o ≡ some p → l.jobs ≡ p.0 ++ p.1 ∷ p.2)
        → join_job w o l ≡ some l'
        → Step l l'
    unfolding join_job
    join_job-Step none j h = absurd (cc)
    join_job-Step (some (before, waiting m, after)) j h = absurd (cc)
    join_job-Step (some (before, leftover b, after)) j h = absurd (cc)
    join_job-Step (some (before, finished, after)) j h =
        subst (Step l) (cc) (joins before after (j _ refl))

    -- The executable step makes only these.
    pub step-Step : (c : Choice) → step w c l ≡ some l' → Step l l'
    unfolding step
    step-Step receive h = received-Step l.inbox refl h
    step-Step (handle_at i) h = handle_job-Step (split_at i l.jobs) (λ p. split_at_join i l.jobs) h
    step-Step (complete_at i) h =
        complete_job-Step (split_at i l.jobs) (λ p. split_at_join i l.jobs) h
    step-Step (join_at i) h = join_job-Step (split_at i l.jobs) (λ p. split_at_join i l.jobs) h

  -- What every step keeps holds after every schedule.
  pub run_keeps :
      (P : Loop S M B W → Type 0)
      → ((l l' : Loop S M B W) → Step l l' → P l → P l')
      → (cs : List Choice) (l : Loop S M B W) {l' : Loop S M B W} → run w cs l ≡ some l'
      → P l
      → P l'
  unfolding run
  run_keeps P keeps [] l h p = subst P (cc) p
  run_keeps P keeps (c ∷ cs) l h p = elim (Option-cases (step w c l)) [
    | inl e ↦ let g = rw (e, run) at h in absurd (cc)
    | inr (l', e) ↦ run_keeps P keeps cs l' (rw (e, run) at h) (keeps l l' (step-Step l c e) p)
  ]
