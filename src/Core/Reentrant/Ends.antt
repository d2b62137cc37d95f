-- ===== src/Core/Reentrant/Ends.antt =====
-- The reentrant loop ends: no schedule goes on for ever, and none gets stuck with work left.
use orlando.Base.{
  ℕ, ◌+◌, ◌*◌, ◌≤◌, ◌<◌, ◌≡◌, refl, true, false, List, [], ◌∷◌, ◌++◌, none, some, length, arith,
  ◌⊎◌, inl, inr, Option-cases, Bool-cases,
}
use orlando.Core.Mailbox.{Outcome, returned, panicked}
use orlando.Core.Reentrant.{
  Job, waiting, leftover, finished, Loop, Work, Choice, receive, handle_at, complete_at, join_at,
  after_handler, left_by, spawned, handled_by, completed, run, begin, at_rest, step, received,
  handle_job, complete_job, join_job, split_at,
}
use orlando.Core.Reentrant.Moves.{Step, receives, handles, completes, joins, step-Step}

-- The steps that a task has before it.
weight : {M B : Type 0} → Job M B → ℕ
weight (waiting m) = 3
weight (leftover b) = 2
weight finished = 1

weights : {M B : Type 0} → List (Job M B) → ℕ
weights [] = 0
weights (j ∷ js) = weight j + weights js

weights-append :
    {M B : Type 0} (xs ys : List (Job M B)) → weights (xs ++ ys) ≡ weights xs + weights ys
unfolding weights
weights-append [] ys = omega arith
weights-append (x ∷ xs) ys = omega (arith, weights-append xs ys)

module _ {S M B W : Type 0} (w : Work S M B W) where
  after_handler-weight : (r : S × Outcome) → weight (after_handler {B = B} w r) ≤ 2
  unfolding after_handler left_by weight
  after_handler-weight (s, returned) = elim (w.leave s) as (λ o. weight (left_by w o) ≤ 2) [
    | none ↦ omega arith
    | some b ↦ omega arith
  ]
  after_handler-weight (s, panicked) = omega arith

  -- An upper bound of the steps that the loop can still make.
  size : Loop S M B W → ℕ
  size l = 4 * length l.inbox + weights l.jobs

  Step-shrinks : (l l' : Loop S M B W) → Step w l l' → size l' < size l
  unfolding spawned handled_by completed size weights weight
  Step-shrinks l l' (receives m ms e lt) =
      rw e (omega (arith, weights-append l.jobs (waiting m ∷ [])))
  Step-shrinks l l' (handles before m after e) =
      let r = w.handle m l.state in
      let ap_ = weights-append before (waiting m ∷ after) in
      let aq = weights-append before (after_handler w r ∷ after) in
      rw e (omega (arith, ap_, aq, after_handler-weight r))
  Step-shrinks l l' (completes before b after e) = rw e (
      omega (
        arith,
        weights-append before (leftover b ∷ after),
        weights-append before (finished ∷ after),
      ))
  Step-shrinks l l' (joins before after e) =
      rw e (omega (arith, weights-append before (finished ∷ after), weights-append before after))

  run-size :
      (cs : List Choice) (l : Loop S M B W) {l' : Loop S M B W}
      → run w cs l ≡ some l'
      → length cs + size l' ≤ size l
  unfolding run
  run-size [] l {l'} h = let e : l ≡ l' = cc in rw e (omega arith)
  run-size (c ∷ cs) l {l'} h = elim (Option-cases (step w c l)) [
    | inl e ↦ let g = rw (e, run) at h in absurd (cc)
    | inr (k, e) ↦
        omega (arith, run-size cs k (rw (e, run) at h), Step-shrinks l k (step-Step w l c e))
  ]

  -- A loop with work left can move: its first task, or the loop itself when it has none.
  step-moves :
      (l : Loop S M B W) (js : List (Job M B)) (ms : List M)
      → l.jobs ≡ js
      → l.inbox ≡ ms
      → at_rest w l ≡ false
      → (c : Choice) × (l' : Loop S M B W) × (step w c l ≡ some l')
  unfolding step handle_job complete_job join_job split_at received at_rest
  step-moves l (waiting m ∷ js) ms e f h = (handle_at 0, handled_by w [] m js l, rw e refl)
  step-moves l (leftover b ∷ js) ms e f h = (complete_at 0, completed w [] b js l, rw e refl)
  step-moves l (finished ∷ js) ms e f h = (join_at 0, record l { jobs = [] ++ js }, rw e refl)
  step-moves l [] [] e f h = absurd (ground (arith, e, f, h))
  step-moves l [] (m ∷ ms) e f h = (receive, spawned w m ms l, rw (f, e) refl)

  -- Every schedule of the loop is over after at most four steps for each message, and where it stops
  -- for good (the runtime can make no choice) no message and no task is left.
  pub run_ends :
      (cs : List Choice) (inbox : List M) (s : S) (world : W) {l : Loop S M B W}
      → run w cs (begin w inbox s world) ≡ some l
      → (length cs ≤ 4 * length inbox)
        × ((at_rest w l ≡ true) ⊎ (c : Choice) × (l' : Loop S M B W) × (step w c l ≡ some l'))
  unfolding begin size weights
  run_ends cs inbox s world {l} h = (
    omega (arith, run-size cs (begin w inbox s world) h),
    elim (Bool-cases (at_rest w l)) [
      | inl e ↦ inl e
      | inr e ↦ inr (step-moves l l.jobs l.inbox refl refl e)
    ],
  )
