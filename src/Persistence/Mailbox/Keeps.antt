-- ===== src/Persistence/Mailbox/Keeps.antt =====
-- What an activation's own writes leave alone, its loop leaves alone.
use mathlib.Core.Option
use orlando.Base.{
  ℕ, Bool, ◌≡◌, refl, sym, subst, List, [], ◌∷◌, ◌++◌, Option, none, some, Result, ok, err, if-both,
}
use orlando.Core.Ids.{GrainId}
use orlando.Core.Lifecycle.{idle, is_idle, is_faulted}
use orlando.Core.Mailbox.{Outcome, returned, panicked, Grain}
use orlando.Persistence.Store.{Bytes, PersistenceError, StateStore}
use orlando.Persistence.Mailbox.{
  PersistenceStrategy, Serializer, Wakeup, message, no_senders, elapsed, Effect, before_save,
  activate_hook, Task, PersistPlan, skip, serialize_failed, write, note, flushed, prepare_persist,
  persist, handled, turn, sequential_loop, after_loop, activated, run_lifecycle, saved, save_from,
  save_with_retry,
}

module _ (M : Type 0) {W : Type 0} (store : StateStore W) (id : GrainId) (P : W → Type 0)
    (keeps : (b : Bytes) (w : W) → P w → P (store.save id b w).0) where
  saved-Keeps :
      (attempt : ℕ) (b : Bytes) (again : W → W × Bool × List (Effect M))
      (r : W × Result PersistenceError (Unit {0}))
      → P r.0
      → ((w : W) → P w → P (again w).0)
      → P (saved store id attempt b again r).0
  unfolding saved
  saved-Keeps attempt b again (w, ok _) p h = p
  saved-Keeps attempt b again (w, err _) p h = h w p

  save_from-Keeps :
      (attempts : List ℕ) (b : Bytes) (w : W) → P w → P (save_from {M = M} store id attempts b w).0
  unfolding save_from
  save_from-Keeps [] b w p = p
  save_from-Keeps (attempt ∷ rest) b w p =
      saved-Keeps attempt b (save_from store id rest b) (store.save id b w) (keeps b w p)
        (λ w. save_from-Keeps rest b w)

  pub save_with_retry-Keeps : (b : Bytes) (w : W) → P w → P (save_with_retry {M = M} store id b w).0
  unfolding save_with_retry
  save_with_retry-Keeps b w p = save_from-Keeps (1 ∷ 2 ∷ 3 ∷ []) b w p

module _ {S M W : Type 0} (g : Grain S M) (ser : Serializer S) (store : StateStore W) (id : GrainId)
    (strategy : PersistenceStrategy) (sink : Bool) (P : W → Type 0)
    (keeps : (b : Bytes) (w : W) → P w → P (store.save id b w).0) where
  flushed-world :
      (b : Bytes) (t : Task S M W) (r : W × Result PersistenceError (Unit {0}))
      → (flushed sink b t r).0.world ≡ r.0
  unfolding flushed
  flushed-world b t (w, ok _) = refl
  flushed-world b t (w, err _) = refl

  persist-Keeps :
      (plan : PersistPlan) (t : Task S M W)
      → P t.world
      → P (persist g ser store id strategy sink plan t).world
  unfolding persist
  persist-Keeps skip t p = p
  persist-Keeps serialize_failed t p = p
  persist-Keeps (write b) t p =
      subst P (sym (flushed-world b (note (before_save ∷ []) t) (store.save id b t.world)))
        (keeps b t.world p)

  handled-Keeps :
      (m : M) (now : ℕ) (r : S × Outcome) (t : Task S M W)
      → P t.world
      → P (handled g ser store id strategy sink m now r t).world
  unfolding handled
  handled-Keeps m now (s, returned) t p =
      persist-Keeps (prepare_persist strategy sink now t.last_save (ser.serialize s)).0 _ p
  handled-Keeps m now (s, panicked) t p = p

  pub turn-Keeps :
      (a : Wakeup M) (t : Task S M W) → P t.world → P (turn g ser store id strategy sink a t).world
  unfolding turn
  turn-Keeps (message m now) t p = handled-Keeps m now (g.handle m t.state) t p
  turn-Keeps no_senders t p = p
  turn-Keeps elapsed t p = p

  -- What holds when the task has left its loop, if it has.
  abbrev AtEnd : Option (Task S M W) → Type 0
  AtEnd none = Unit
  AtEnd (some t) = P t.world

  -- The same of the lifecycle's end.
  abbrev pub AfterEnd : Option (Task S M W × Bool) → Type 0
  AfterEnd none = Unit
  AfterEnd (some (t, faulted)) = P t.world

  sequential_loop-Keeps :
      (ws : List (Wakeup M)) (t : Task S M W)
      → P t.world
      → AtEnd (sequential_loop g ser store id strategy sink ws t)
  unfolding sequential_loop
  sequential_loop-Keeps [] t p = if-both AtEnd (is_idle t.fsm) tt p
  sequential_loop-Keeps (a ∷ ws) t p =
      if-both AtEnd (is_idle t.fsm)
        (sequential_loop-Keeps ws (turn g ser store id strategy sink a t) (turn-Keeps a t p)) p

  after_loop-Keeps :
      (o : Option (Task S M W))
      → AtEnd o
      → AfterEnd (Option.map (after_loop g ser store id strategy sink) o)
  unfolding after_loop
  after_loop-Keeps none p = tt
  after_loop-Keeps (some t) p =
      if-both (λ (r : Task S M W × Bool). P r.0.world) (is_faulted t.fsm) p p

  activated-Keeps :
      (ws : List (Wakeup M)) (r : S × Outcome) (t : Task S M W)
      → P t.world
      → AfterEnd (activated g ser store id strategy sink ws r t)
  unfolding activated
  activated-Keeps ws (s, returned) t p = after_loop-Keeps _ (
      sequential_loop-Keeps ws
        (record t { fsm = idle; state = s; log = t.log ++ activate_hook ∷ [] }) p)
  activated-Keeps ws (s, panicked) t p = p

  pub run_lifecycle-Keeps :
      (ws : List (Wakeup M)) (t : Task S M W)
      → P t.world
      → AfterEnd (run_lifecycle g ser store id strategy sink ws t)
  unfolding run_lifecycle
  run_lifecycle-Keeps ws t p = activated-Keeps ws (g.on_activate t.state) t p
