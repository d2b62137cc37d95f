-- ===== src/Core/Reentrant.antt =====
-- crates/orlando-core/src/reentrant_mailbox.rs: the mailbox of a reentrant grain, whose handlers run as
-- tasks of their own and take turns at the lock on the state. A schedule of the async runtime is a list
-- of choices. What a task does once it has let go of the lock (nothing here, the write of the state in
-- a persistent grain) is a parameter of the loop, so that both loops are this one.
pub mod Moves
pub mod Keeps
pub mod Ends
pub mod Lives
pub mod Overtakes
use mathlib.Core.Option
use orlando.Base.{
  ℕ, zero, suc, ◌+◌, Bool, true, false, ◌&&◌, List, [], ◌∷◌, ◌++◌, map, Option, none, some, ltb,
  if◌then◌else◌, length, is_empty,
}
use orlando.Core.Lifecycle.{idle, next, is_idle, channel_closed, idle_timeout}
use orlando.Core.Mailbox
use orlando.Core.Mailbox.{
  Outcome, returned, panicked, Grain, Task, Effect, handler, start, teardown,
}

-- `MAX_CONCURRENT`
abbrev pub max_concurrent : ℕ
max_concurrent = 256

-- A spawned task: it waits for the lock, or has let go of it with something left to do, or has ended
-- and waits to be joined.
pub data Job (M B : Type 0) : Type 0 where
  waiting : M → Job M B
  leftover : B → Job M B
  finished : Job M B

-- `handled` is the order in which the handlers had the lock.
pub record Loop (S M B W : Type 0) : Type 0 where
  pub state : S
  pub inbox : List M
  pub jobs : List (Job M B)
  pub world : W
  pub handled : List M

-- What a task runs: the handler under the lock, what it leaves to do, and that done.
pub record Work (S M B W : Type 0) : Type 0 where
  pub handle : M → S → S × Outcome
  pub leave : S → Option B
  pub complete : B → W → W

-- What the runtime does next: the loop receives a message and spawns its task, or the task at a place
-- gets the lock and runs its handler, or does what is left, or is joined.
pub data Choice : Type 0 where
  receive : Choice
  handle_at complete_at join_at : ℕ → Choice

unfoldable pub split_at : {A : Type 0} → ℕ → List A → Option (List A × A × List A)
split_at i [] = none
split_at zero (x ∷ xs) = some ([], x, xs)
split_at (suc i) (x ∷ xs) = Option.map (λ p. (x ∷ p.0, p.1, p.2)) (split_at i xs)

module _ {S M B W : Type 0} (w : Work S M B W) where
  left_by : Option B → Job M B
  left_by none = finished
  left_by (some b) = leftover b

  -- A panic ends the task; the state stays as the handler left it.
  unfoldable pub after_handler : S × Outcome → Job M B
  unfolding left_by
  after_handler (s, returned) = left_by (w.leave s)
  after_handler (s, panicked) = finished

  unfoldable pub spawned : M → List M → Loop S M B W → Loop S M B W
  spawned m ms l = record l { inbox = ms; jobs = l.jobs ++ waiting m ∷ [] }

  unfoldable pub handled_by : List (Job M B) → M → List (Job M B) → Loop S M B W → Loop S M B W
  unfolding after_handler
  handled_by before m after l = record l {
    state = (w.handle m l.state).0;
    jobs = before ++ after_handler (w.handle m l.state) ∷ after;
    handled = l.handled ++ m ∷ [];
  }

  unfoldable pub completed : List (Job M B) → B → List (Job M B) → Loop S M B W → Loop S M B W
  completed before b after l = record l {
    jobs = before ++ finished ∷ after;
    world = w.complete b l.world;
  }

  received : List M → Loop S M B W → Option (Loop S M B W)
  unfolding spawned
  received [] l = none
  received (m ∷ ms) l = if ltb (length l.jobs) max_concurrent then some (spawned m ms l) else none

  handle_job :
      Option (List (Job M B) × Job M B × List (Job M B)) → Loop S M B W → Option (Loop S M B W)
  unfolding handled_by
  handle_job none l = none
  handle_job (some (before, waiting m, after)) l = some (handled_by before m after l)
  handle_job (some (before, leftover b, after)) l = none
  handle_job (some (before, finished, after)) l = none

  complete_job :
      Option (List (Job M B) × Job M B × List (Job M B)) → Loop S M B W → Option (Loop S M B W)
  unfolding completed
  complete_job none l = none
  complete_job (some (before, waiting m, after)) l = none
  complete_job (some (before, leftover b, after)) l = some (completed before b after l)
  complete_job (some (before, finished, after)) l = none

  join_job :
      Option (List (Job M B) × Job M B × List (Job M B)) → Loop S M B W → Option (Loop S M B W)
  join_job none l = none
  join_job (some (before, waiting m, after)) l = none
  join_job (some (before, leftover b, after)) l = none
  join_job (some (before, finished, after)) l = some (record l { jobs = before ++ after })

  -- `none`: the runtime cannot do that now.
  unfoldable pub step : Choice → Loop S M B W → Option (Loop S M B W)
  unfolding received handle_job complete_job join_job split_at
  step receive l = received l.inbox l
  step (handle_at i) l = handle_job (split_at i l.jobs) l
  step (complete_at i) l = complete_job (split_at i l.jobs) l
  step (join_at i) l = join_job (split_at i l.jobs) l

  unfoldable pub run : List Choice → Loop S M B W → Option (Loop S M B W)
  unfolding step
  run [] l = some l
  run (c ∷ cs) l = elim (step c l) [ none ↦ none | some l' ↦ run cs l' ]

  unfoldable pub begin : List M → S → W → Loop S M B W
  begin inbox s world = record { state = s; inbox = inbox; jobs = []; world = world; handled = [] }

  -- No message is left and every task is joined: the loop is over.
  unfoldable pub at_rest : Loop S M B W → Bool
  at_rest l = is_empty l.inbox && is_empty l.jobs

module _ {S M : Type 0} (g : Grain S M) where
  -- A grain whose handlers leave nothing to do.
  unfoldable pub volatile : Work S M (Unit {0}) (Unit {0})
  volatile = record { handle = g.handle; leave = λ s. none; complete = λ b world. world }

  -- The loop has seen a closed mailbox or an idle timeout, and its tasks are drained.
  left : Bool → Task S M → Loop S M (Unit {0}) (Unit {0}) → Task S M
  left timed_out t l = record {
    fsm = next t.fsm (if timed_out then idle_timeout else channel_closed);
    state = l.state;
    log = t.log ++ map handler l.handled;
  }

  ended : Bool → Task S M → Option (Loop S M (Unit {0}) (Unit {0})) → Option (Task S M)
  unfolding left at_rest
  ended timed_out t none = none
  ended timed_out t (some l) =
      if at_rest volatile l then some (teardown g (left timed_out t l)) else none

  -- The whole task for one schedule; `none`: it still waits, or the schedule cannot be.
  unfoldable pub run_reentrant_mailbox : List Choice → List M → Bool → Option (Task S M)
  unfolding ended volatile begin run
  run_reentrant_mailbox cs inbox timed_out =
      let over =
        ended timed_out (start g) (run volatile cs (begin volatile inbox (start g).state tt)) in
      if is_idle (start g).fsm then over else some (teardown g (start g))
