-- ===== src/Core/Mailbox/Runs.antt =====
-- What a mailbox task has done when it ends.
use mathlib.Core.List.{append_assoc, append-nil}
use orlando.Base.{
  Bool, true, false, ◌≡◌, refl, ◌⊎◌, inl, inr, List, [], ◌∷◌, ◌++◌, map, some, any, arith, ◌∙◌,
  Bool-cases,
}
use orlando.Core.Lifecycle.{ActivationState, idle, draining, faulted, closed, next, is_idle}
use orlando.Core.Mailbox.{
  returned, panicked, Grain, Wakeup, message, no_senders, elapsed, Effect, activate_hook, handler,
  deactivate_hook, entry_removed, Task, start, turn, loop, finish, teardown, run_mailbox,
}

-- The wake-ups that end the loop whatever the handlers do.
abbrev pub is_stop : {M : Type 0} → Wakeup M → Bool
is_stop (message m) = false
is_stop no_senders = true
is_stop elapsed = true

module _ {S M : Type 0} (g : Grain S M) where
  -- The messages `ms` are handled from `s` to `t`, and no handler panics.
  abbrev pub Serves : List M → S → S → Type 0
  Serves [] s t = s ≡ t
  Serves (m ∷ ms) s t = ((g.handle m s).1 ≡ returned) × Serves ms (g.handle m s).0 t

  -- Messages that are served leave the task idle, with their handlers run in order.
  loop-Serves :
      (ms : List M) (rest : List (Wakeup M)) (s t : S) (log : List (Effect M))
      → Serves ms s t
      → loop g (map message ms ++ rest) (record { fsm = idle; state = s; log = log })
        ≡ loop g rest (record { fsm = idle; state = t; log = log ++ map handler ms })
  unfolding loop turn is_idle next
  loop-Serves [] rest s t log h = rw (h, append-nil) refl
  loop-Serves (m ∷ ms) rest s t log h =
      rw h.0
        (loop-Serves ms rest (g.handle m s).0 t (log ++ handler m ∷ []) h.1 ∙ simp append_assoc)

  -- The task is idle after its activation hook, with the state that the hook left.
  pub start_returned :
      (g.on_activate g.default_state).1 ≡ returned
      → start g
        ≡ record { fsm = idle; state = (g.on_activate g.default_state).0; log = activate_hook ∷ [] }
  unfolding start next
  start_returned h = rw h refl

  -- The machine of a task that has left its loop.
  abbrev Left : ActivationState → Type 0
  Left f = (f ≡ draining) ⊎ (f ≡ faulted)

  Settled : ActivationState → Type 0
  Settled f = (f ≡ idle) ⊎ Left f

  turn-Settled : (w : Wakeup M) (x : Task S M) → x.fsm ≡ idle → Settled (turn g w x).fsm
  unfolding turn next Settled
  turn-Settled (message m) x h = ground arith
  turn-Settled no_senders x h = ground arith
  turn-Settled elapsed x h = ground arith

  turn_stop :
      (w : Wakeup M) (x : Task S M) → x.fsm ≡ idle → is_stop w ≡ true → Left (turn g w x).fsm
  unfolding turn next
  turn_stop (message m) x h e = cc
  turn_stop no_senders x h e = ground arith
  turn_stop elapsed x h e = ground arith

  loop-Left : (ws : List (Wakeup M)) (x : Task S M) → Left x.fsm → loop g ws x ≡ some x
  unfolding loop is_idle
  loop-Left [] x h = ground arith
  loop-Left (w ∷ ws) x h = ground arith

  loop_step :
      (w : Wakeup M) (ws : List (Wakeup M)) (x : Task S M)
      → x.fsm ≡ idle
      → loop g (w ∷ ws) x ≡ loop g ws (turn g w x)
  unfolding loop is_idle
  loop_step w ws x h = ground arith

  module _ (ms : List M) (rest : List (Wakeup M)) (t : S) where
    abbrev served : Task S M
    served = record { fsm = idle; state = t; log = activate_hook ∷ map handler ms }

    run_mailbox_stopped :
        (w : Wakeup M)
        → (g.on_activate g.default_state).1 ≡ returned
        → Serves ms (g.on_activate g.default_state).0 t
        → Left (turn g w served).fsm
        → run_mailbox g (map message ms ++ w ∷ rest) ≡ some (teardown g (turn g w served))
    unfolding run_mailbox
    run_mailbox_stopped w a h left =
        rw
          (
            start_returned a,
            loop-Serves ms _ _ t _ h,
            loop_step w rest served refl,
            loop-Left rest (turn g w served) left,
          )
          refl

    -- When the activation hook and the handlers of `ms` return and a stop follows, the task has run
    -- them in order, then `on_deactivate` on the state they left, then removed its directory entry,
    -- and its machine is closed.
    pub run_mailbox_graceful :
        (w : Wakeup M)
        → (g.on_activate g.default_state).1 ≡ returned
        → Serves ms (g.on_activate g.default_state).0 t
        → is_stop w ≡ true
        → run_mailbox g (map message ms ++ w ∷ rest)
          ≡ some (record {
            fsm = closed;
            state = (g.on_deactivate t).0;
            log = activate_hook ∷ (map handler ms ++ deactivate_hook ∷ entry_removed ∷ []);
          })
    unfolding turn next teardown
    run_mailbox_graceful (message m) a h e = cc
    run_mailbox_graceful no_senders a h e =
        run_mailbox_stopped no_senders a h (inl refl) ∙ simp append_assoc
    run_mailbox_graceful elapsed a h e =
        run_mailbox_stopped elapsed a h (inl refl) ∙ simp append_assoc

    -- When a handler panics, what it left of the state is discarded: `on_deactivate` does not run, no
    -- later message is handled, and the directory entry is removed all the same.
    pub run_mailbox_panicked :
        (m : M)
        → (g.on_activate g.default_state).1 ≡ returned
        → Serves ms (g.on_activate g.default_state).0 t
        → (g.handle m t).1 ≡ panicked
        → run_mailbox g (map message ms ++ message m ∷ rest)
          ≡ some (record {
            fsm = closed;
            state = (g.handle m t).0;
            log = activate_hook ∷ (map handler ms ++ handler m ∷ entry_removed ∷ []);
          })
    unfolding turn next teardown
    run_mailbox_panicked m a h e =
        run_mailbox_stopped (message m) a h (inr (rw e)) ∙ rw e (simp append_assoc)

  loop_ends :
      (ws : List (Wakeup M)) (x : Task S M)
      → Settled x.fsm
      → any is_stop ws ≡ true
      → (y : Task S M) × (loop g ws x ≡ some y) × Left y.fsm
  unfolding Settled
  loop_ends ws x (inr left) e = (x, loop-Left ws x left, left)
  loop_ends [] x (inl h) e = cc
  loop_ends (w ∷ ws) x (inl h) e = elim (Bool-cases (is_stop w)) [
    | inl stop ↦
        let left = turn_stop w x h stop in
        (turn g w x, loop_step w ws x h ∙ loop-Left ws (turn g w x) left, left)
    | inr go ↦
        let (y, ran, left) = loop_ends ws (turn g w x) (turn-Settled w x h) (rw go at e) in
        (y, loop_step w ws x h ∙ ran, left)
  ]

  start-Settled : Settled (start g).fsm
  unfolding start next Settled
  start-Settled = ground arith

  -- Whatever its hooks and handlers do, a task whose mailbox is closed or times out ends, with its
  -- machine closed and the removal of its directory entry as the last thing it did.
  pub run_mailbox_ends :
      (ws : List (Wakeup M))
      → any is_stop ws ≡ true
      → (y : Task S M) × (before : List (Effect M)) × (run_mailbox g ws ≡ some y)
        × (y.fsm ≡ closed)
        × (y.log ≡ before ++ entry_removed ∷ [])
  unfolding run_mailbox teardown next
  run_mailbox_ends ws e =
      let (x, ran, left) = loop_ends ws (start g) start-Settled e in
      (teardown g x, (finish g x.fsm x).log, rw ran refl, ground arith, refl)
