-- ===== src/Persistence/Mailbox/Lifecycles.antt =====
-- How the lifecycle of a persistent activation ends, from any task that begins it.
use mathlib.Core.Option
use orlando.Base.{
  ℕ, Bool, true, false, ◌≡◌, refl, ap, subst, sym, ◌∙◌, inl, inr, List, [], ◌∷◌, ◌++◌, some, arith,
}
use orlando.Core.Ids.{GrainId}
use orlando.Core.Lifecycle.{idle, is_faulted}
use orlando.Core.Mailbox.{returned, panicked, Grain}
use orlando.Persistence.Store.{StateStore}
use orlando.Persistence.Mailbox.{
  PersistenceStrategy, write_through, Serializer, Wakeup, message, activate_hook, Task, turn,
  sequential_loop, after_loop, run_lifecycle,
}
use orlando.Persistence.Mailbox.Steps.{
  IsReliable, IsLossless, Stored, Serves, arrivals, is_stop, loop_step, loop-Left, turn_stop,
  turn_panicked, turn_returned, turn-Stored, loop-Served, loop-Stored,
}

module _ {S M W : Type 0} (g : Grain S M) (ser : Serializer S) (store : StateStore W) (id : GrainId)
    (reliable : IsReliable store) (lossless : IsLossless ser) (sink : Bool) (t : Task S M W)
    (wakes : (g.on_activate t.state).1 ≡ returned) where
  -- The task when its loop begins.
  begun : Task S M W
  begun = record t {
    fsm = idle;
    state = (g.on_activate t.state).0;
    log = t.log ++ activate_hook ∷ [];
  }

  run_lifecycle-begun :
      (strategy : PersistenceStrategy) (ws : List (Wakeup M))
      → run_lifecycle g ser store id strategy sink ws t
        ≡ Option.map
            (after_loop g ser store id strategy sink)
            (sequential_loop g ser store id strategy sink ws begun)
  unfolding run_lifecycle begun
  run_lifecycle-begun strategy ws = ground (arith, wakes)

  -- Served messages and a stop: the lifecycle ends without a fault in what `on_deactivate` makes.
  pub run_lifecycle_graceful :
      (strategy : PersistenceStrategy) (ms : List (M × ℕ)) (s : S) (stop : Wakeup M)
      (rest : List (Wakeup M))
      → Serves g ser store id ms (g.on_activate t.state).0 s
      → is_stop stop ≡ true
      → (t' : Task S M W) × (run_lifecycle g ser store id strategy sink
            (arrivals g ser store id ms ++ stop ∷ rest)
            t
          ≡ some (t', false))
        × (t'.state ≡ (g.on_deactivate s).0)
  unfolding begun after_loop is_faulted
  run_lifecycle_graceful strategy ms s stop rest h e =
      let (t1, served) =
        loop-Served g ser store id reliable lossless sink strategy ms (stop ∷ rest) begun s refl
          h in
      let t2 = turn g ser store id strategy sink stop t1 in
      let (f, came) = turn_stop g ser store id strategy sink stop t1 served.waits e in
      let path =
        served.ran
        ∙ loop_step g ser store id strategy sink stop rest t1 served.waits
        ∙ loop-Left g ser store id strategy sink rest t2 (inr f) in
      (
        (after_loop g ser store id strategy sink t2).0,
        run_lifecycle-begun strategy (arrivals g ser store id ms ++ stop ∷ rest)
            ∙ ap (Option.map (after_loop g ser store id strategy sink)) path
            ∙ ground (arith, f),
        ground (arith, f, came, served.came),
      )

  -- At least one message served under write-through, and then one that panics: the lifecycle faults,
  -- and the store holds the state that the last served message left.
  pub run_lifecycle_panicked :
      (m p : M) (at_m at_p : ℕ) (ms : List (M × ℕ)) (s : S) (rest : List (Wakeup M))
      → Serves g ser store id ((m, at_m) ∷ ms) (g.on_activate t.state).0 s
      → (g.handle p s).1 ≡ panicked
      → (t' : Task S M W) × (run_lifecycle g ser store id write_through sink
            (arrivals g ser store id ((m, at_m) ∷ ms) ++ message p at_p ∷ rest)
            t
          ≡ some (t', true))
        × Stored g ser store id s t'.world
  unfolding begun after_loop is_faulted
  run_lifecycle_panicked m p at_m at_p ms s rest h e =
      let (i1, came1) =
        turn_returned g ser store id reliable lossless sink write_through m at_m begun refl h.0 in
      let t1 = turn g ser store id write_through sink (message m at_m) begun in
      let k1 = turn-Stored g ser store id reliable lossless sink m at_m begun refl h.0 in
      let (t2, served, kept) =
        loop-Stored g ser store id reliable lossless sink ms (message p at_p ∷ rest) t1 s i1
          (subst (λ x. Serves g ser store id ms x s) (sym came1) h.1)
          (subst (λ x. Stored g ser store id x t1.world) (sym came1) k1) in
      let t3 = turn g ser store id write_through sink (message p at_p) t2 in
      let (f, same_world) =
        turn_panicked g ser store id write_through sink p at_p t2 served.waits
          (subst (λ x. (g.handle p x).1 ≡ panicked) (sym served.came) e) in
      let step = loop_step g ser store id write_through sink in
      let path =
        step (message m at_m) (arrivals g ser store id ms ++ message p at_p ∷ rest) begun refl
        ∙ served.ran
        ∙ step (message p at_p) rest t2 served.waits
        ∙ loop-Left g ser store id write_through sink rest t3 (inl f) in
      (
        t3,
        run_lifecycle-begun write_through
              (arrivals g ser store id ((m, at_m) ∷ ms) ++ message p at_p ∷ rest)
            ∙ ap (Option.map (after_loop g ser store id write_through sink)) path
            ∙ ground (arith, f),
        subst (Stored g ser store id s) (sym same_world) kept,
      )
