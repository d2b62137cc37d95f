-- ===== src/Core/Reentrant/Keeps.antt =====
-- What every schedule of the reentrant loop keeps: its bound on the tasks, and the messages.
use mathlib.Core.List.{Perm, perm_middle, append_assoc, append-nil}
use mathlib.Core.List.Perm
use orlando.Base.{
  ◌≤◌, ◌≡◌, refl, sym, ap, true, List, [], ◌∷◌, ◌++◌, none, some, length, length-append, arith,
}
use orlando.Core.Mailbox.{Outcome, returned, panicked}
use orlando.Core.Reentrant.{
  max_concurrent, Job, waiting, leftover, finished, Loop, Work, Choice, after_handler, left_by,
  spawned, handled_by, completed, run, begin, at_rest,
}
use orlando.Core.Reentrant.Moves.{Step, receives, handles, completes, joins, run_keeps}

-- The messages whose handlers have not had the lock.
unfoldable pub pending : {M B : Type 0} → List (Job M B) → List M
pending [] = []
pending (waiting m ∷ js) = m ∷ pending js
pending (leftover b ∷ js) = pending js
pending (finished ∷ js) = pending js

pending-append :
    {M B : Type 0} (xs ys : List (Job M B)) → pending (xs ++ ys) ≡ pending xs ++ pending ys
unfolding pending
pending-append [] ys = refl
pending-append (waiting m ∷ xs) ys = ap (◌∷◌ m) (pending-append xs ys)
pending-append (leftover b ∷ xs) ys = pending-append xs ys
pending-append (finished ∷ xs) ys = pending-append xs ys

handled-perm :
    {M : Type 0} (h p q r : List M) (m : M)
    → Perm (h ++ m ∷ [] ++ (p ++ q ++ r)) (h ++ (p ++ m ∷ q ++ r))
handled-perm h p q r m = simp append_assoc (Perm.append_left h (Perm.symm (perm_middle p (q ++ r))))

module _ {S M B W : Type 0} (w : Work S M B W) where
  -- The state after the handlers of these messages, each with the lock for its whole run.
  unfoldable pub served : List M → S → S
  served [] s = s
  served (m ∷ ms) s = served ms (w.handle m s).0

  pub served-append :
      (ms : List M) (m : M) (s : S) → served (ms ++ m ∷ []) s ≡ (w.handle m (served ms s)).0
  unfolding served
  served-append [] m s = refl
  served-append (x ∷ ms) m s = served-append ms m (w.handle x s).0

  after_handler-pending :
      (r : S × Outcome) (js : List (Job M B)) → pending (after_handler w r ∷ js) ≡ pending js
  unfolding after_handler left_by pending
  after_handler-pending (s, returned) js =
      elim (w.leave s) as (λ o. pending (left_by w o ∷ js) ≡ pending js) [
        | none ↦ refl
        | some b ↦ refl
      ]
  after_handler-pending (s, panicked) js = refl

  Step-capped :
      (l l' : Loop S M B W)
      → Step w l l'
      → length l.jobs ≤ max_concurrent
      → length l'.jobs ≤ max_concurrent
  unfolding spawned handled_by completed
  Step-capped l l' (receives m ms e lt) h = omega (arith, lt, length-append l.jobs (waiting m ∷ []))
  Step-capped l l' (handles before m after e) h =
      let e' : length l.jobs ≡ length (before ++ waiting m ∷ after) = ap length e in
      omega (
        arith,
        h,
        e',
        length-append before (waiting m ∷ after),
        length-append before (after_handler w (w.handle m l.state) ∷ after),
      )
  Step-capped l l' (completes before b after e) h =
      let e' : length l.jobs ≡ length (before ++ leftover b ∷ after) = ap length e in
      omega (
        arith,
        h,
        e',
        length-append before (leftover b ∷ after),
        length-append before (finished ∷ after),
      )
  Step-capped l l' (joins before after e) h =
      let e' : length l.jobs ≡ length (before ++ finished ∷ after) = ap length e in
      omega (arith, h, e', length-append before (finished ∷ after), length-append before after)

  -- Every message of the loop, the handled ones first.
  abbrev all_messages : Loop S M B W → List M
  all_messages l = l.handled ++ (pending l.jobs ++ l.inbox)

  Step-messages : (l l' : Loop S M B W) → Step w l l' → Perm (all_messages l') (all_messages l)
  unfolding spawned handled_by completed pending
  Step-messages l l' (receives m ms e lt) =
      rw (e, pending-append l.jobs (waiting m ∷ []), append_assoc) Perm.rfl
  Step-messages l l' (handles before m after e) =
      rw
        (
          e,
          pending-append before,
          pending-append before,
          after_handler-pending (w.handle m l.state) after,
        )
        (handled-perm l.handled (pending before) (pending after) l.inbox m)
  Step-messages l l' (completes before b after e) =
      rw (e, pending-append before, pending-append before) Perm.rfl
  Step-messages l l' (joins before after e) =
      rw (e, pending-append before, pending-append before) Perm.rfl

  pub Step-served :
      (s : S) (l l' : Loop S M B W)
      → Step w l l'
      → l.state ≡ served l.handled s
      → l'.state ≡ served l'.handled s
  unfolding spawned handled_by completed
  Step-served s l l' (receives m ms e lt) h = h
  Step-served s l l' (handles before m after e) h = rw (served-append l.handled m s, sym h) refl
  Step-served s l l' (completes before b after e) h = h
  Step-served s l l' (joins before after e) h = h

  at_rest-empty : (l : Loop S M B W) → at_rest w l ≡ true → (l.inbox ≡ []) × (l.jobs ≡ [])
  unfolding at_rest
  at_rest-empty l h = ground arith

  -- Whatever the schedule, no more than `MAX_CONCURRENT` tasks are in the set.
  pub run_capped :
      (cs : List Choice) (inbox : List M) (s : S) (world : W) {l : Loop S M B W}
      → run w cs (begin w inbox s world) ≡ some l
      → length l.jobs ≤ max_concurrent
  unfolding begin
  run_capped cs inbox s world h =
      run_keeps w (λ l. length l.jobs ≤ max_concurrent) Step-capped cs (begin w inbox s world) h
        (omega arith)

  -- Whatever the schedule, a loop that has come to rest has handled each message exactly once, and its
  -- state is the one that the handlers make one after the other, in the order of the lock.
  pub run_serial :
      (cs : List Choice) (inbox : List M) (s : S) (world : W) {l : Loop S M B W}
      → run w cs (begin w inbox s world) ≡ some l
      → at_rest w l ≡ true
      → Perm l.handled inbox × (l.state ≡ served l.handled s)
  unfolding begin served pending
  run_serial cs inbox s world {l} h rest =
      let (e, f) = at_rest-empty l rest in
      let p : Perm (all_messages l) inbox =
        run_keeps w (λ l'. Perm (all_messages l') inbox)
          (λ l l' st p. Perm.trans (Step-messages l l' st) p) cs (begin w inbox s world) h
          Perm.rfl in
      let q : Perm (l.handled ++ []) inbox = rw (e, f) at p in
      (
        rw append-nil at q,
        run_keeps w (λ l'. l'.state ≡ served l'.handled s) (Step-served s) cs
            (begin w inbox s world) h refl,
      )
