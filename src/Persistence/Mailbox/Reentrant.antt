-- ===== src/Persistence/Mailbox/Reentrant.antt =====
-- crates/orlando-persistence/src/persistent_mailbox.rs: the concurrent loop of a persistent grain that
-- is reentrant, as the loop of Core/Reentrant whose tasks serialize the state under the lock and write
-- it after they have let go of it; and the whole task with that loop. A task's write and the send to
-- the sink that follows it are one step.
pub mod Snapshots
pub mod Stale
pub mod Finals
use mathlib.Core.Option
use orlando.Base.{
  ℕ, Bool, true, false, ◌||◌, List, [], ◌∷◌, ◌++◌, Option, none, some, if◌then◌else◌, Result, ok,
  err,
}
use orlando.Core.Ids.{GrainId}
use orlando.Core.Lifecycle.{activating, idle}
use orlando.Core.Mailbox.{Outcome, returned, panicked, Grain}
use orlando.Core.Reentrant
use orlando.Core.Reentrant.{Loop, Work, Choice, begin, at_rest}
use orlando.Persistence.Store.{Bytes, PersistenceError, StateStore}
use orlando.Persistence.Mailbox.{
  PersistenceStrategy, write_on_deactivate, write_through, write_back, Serializer, Effect,
  before_load, after_load, activate_hook, stored, store_failed, Task, sent, load_or_default,
  after_loop, closing,
}

-- Write-back counts as write-on-deactivate here.
unfoldable pub is_write_through : PersistenceStrategy → Bool
is_write_through write_on_deactivate = false
is_write_through write_through = true
is_write_through (write_back interval) = false

-- What the tasks share besides the state: the store, and what they have written and sent.
pub record Desk (M W : Type 0) : Type 0 where
  pub world : W
  pub log : List (Effect M)

module _ {S M W : Type 0} (g : Grain S M) (ser : Serializer S) (store : StateStore W) (id : GrainId)
    (strategy : PersistenceStrategy) (sink : Bool) where
  -- `save_bytes`
  unfoldable pub snapshot : S → Option Bytes
  unfolding is_write_through
  snapshot s = if is_write_through strategy || sink then ser.serialize s else none

  -- A failed write is logged, and no more.
  flushed_bytes : Bytes → Desk M W → W × Result PersistenceError (Unit {0}) → Desk M W
  flushed_bytes b d (w, ok _) = record { world = w; log = d.log ++ stored b ∷ [] }
  flushed_bytes b d (w, err _) = record { world = w; log = d.log ++ store_failed ∷ [] }

  unfoldable pub flush_bytes : Bytes → Desk M W → Desk M W
  unfolding flushed_bytes is_write_through
  flush_bytes b d =
      if is_write_through strategy then flushed_bytes b d (store.save id b d.world) else d

  unfoldable pub write_snapshot : Bytes → Desk M W → Desk M W
  unfolding flush_bytes sent
  write_snapshot b d =
      let d' = flush_bytes b d in record d' { log = d'.log ++ sent (if sink then some b else none) }

  unfoldable pub persistent : Work S M Bytes (Desk M W)
  unfolding snapshot write_snapshot
  persistent = record { handle = g.handle; leave = snapshot; complete = write_snapshot }

  rested : Task S M W → Option (Loop S M Bytes (Desk M W)) → Option (Task S M W)
  unfolding at_rest persistent
  rested t none = none
  rested t (some l) =
      if at_rest persistent l
      then some (record t { state = l.state; world = l.world.world; log = t.log ++ l.world.log })
      else none

  -- The loop to its end, for one schedule; `none`: it still waits, or the schedule cannot be.
  unfoldable pub reentrant_loop : List Choice → List M → Task S M W → Option (Task S M W)
  unfolding rested persistent begin Reentrant.run
  reentrant_loop cs inbox t = rested t (
      Reentrant.run persistent cs
        (begin persistent inbox t.state (record { world = t.world; log = [] })))

  activated_reentrant : List Choice → List M → S × Outcome → Task S M W → Option (Task S M W × Bool)
  unfolding after_loop reentrant_loop
  activated_reentrant cs inbox (s, returned) t =
      Option.map (after_loop g ser store id strategy sink) (
        reentrant_loop cs inbox
          (record t { fsm = idle; state = s; log = t.log ++ activate_hook ∷ [] }))
  activated_reentrant cs inbox (s, panicked) t =
      some (record t { state = s; log = t.log ++ activate_hook ∷ [] }, true)

  -- The final state, and whether the activation faulted.
  unfoldable pub run_lifecycle_reentrant :
      List Choice → List M → Task S M W → Option (Task S M W × Bool)
  unfolding activated_reentrant
  run_lifecycle_reentrant cs inbox t = activated_reentrant cs inbox (g.on_activate t.state) t

  -- The whole task.
  unfoldable pub run_reentrant : List Choice → List M → W → ℕ → Option (Task S M W × Bool)
  unfolding load_or_default run_lifecycle_reentrant closing
  run_reentrant cs inbox w now =
      let (s, w', waits) = load_or_default g ser store id w in
      Option.map (closing g ser store id strategy sink) (
        run_lifecycle_reentrant cs inbox (record {
          fsm = activating;
          state = s;
          last_save = now;
          world = w';
          log = before_load ∷ waits ++ after_load ∷ [];
        }))
