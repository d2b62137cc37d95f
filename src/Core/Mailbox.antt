-- ===== src/Core/Mailbox.antt =====
-- crates/orlando-core/src/mailbox.rs: the loop that owns one activation.
pub mod Runs
use orlando.Base.{
  Bool, true, false, ◌≡◌, refl, List, [], ◌∷◌, ◌++◌, Option, none, some, if◌then◌else◌,
}
use mathlib.Core.Option
use orlando.Core.Lifecycle.{
  ActivationState, activating, idle, draining, faulted, next, is_idle, activate_succeeded,
  activate_failed, message_received, handler_completed, handler_panicked, channel_closed,
  idle_timeout, drain_complete, deactivate_complete, ActivationEvent,
}

-- What `catch_panic` reports of a future that was driven to its end.
pub data Outcome : Type 0 where
  returned panicked : Outcome

-- A grain type: its state, and its hooks and handlers as functions that may panic half-way.
pub record Grain (S M : Type 0) : Type 0 where
  pub default_state : S
  pub on_activate : S → S × Outcome
  pub handle : M → S → S × Outcome
  pub on_deactivate : S → S × Outcome

-- What `timeout(idle_timeout, rx.recv())` gives.
pub data Wakeup (M : Type 0) : Type 0 where
  message : M → Wakeup M
  no_senders : Wakeup M
  elapsed : Wakeup M

-- What the task does, in order.
pub data Effect (M : Type 0) : Type 0 where
  activate_hook : Effect M
  handler : M → Effect M
  deactivate_hook : Effect M
  entry_removed : Effect M

pub record Task (S M : Type 0) : Type 0 where
  pub fsm : ActivationState
  pub state : S
  pub log : List (Effect M)

module _ {S M : Type 0} (g : Grain S M) where
  activate_event : Outcome → ActivationEvent
  activate_event returned = activate_succeeded
  activate_event panicked = activate_failed

  handler_event : Outcome → ActivationEvent
  handler_event returned = handler_completed
  handler_event panicked = handler_panicked

  -- Up to the loop.
  unfoldable pub start : Task S M
  unfolding activate_event
  start =
      let (s, outcome) = g.on_activate g.default_state in
      record { fsm = next activating (activate_event outcome); state = s; log = activate_hook ∷ [] }

  -- The body of the loop.
  unfoldable pub turn : Wakeup M → Task S M → Task S M
  unfolding handler_event
  turn (message m) t =
      let (s, outcome) = g.handle m t.state in
      record {
        fsm = next (next t.fsm message_received) (handler_event outcome);
        state = s;
        log = t.log ++ handler m ∷ [];
      }
  turn no_senders t = record t { fsm = next t.fsm channel_closed }
  turn elapsed t = record t { fsm = next t.fsm idle_timeout }

  -- `none`: the task still waits for its mailbox.
  unfoldable pub loop : List (Wakeup M) → Task S M → Option (Task S M)
  loop [] t = if is_idle t.fsm then none else some t
  loop (w ∷ ws) t = let rest = loop ws (turn w t) in if is_idle t.fsm then rest else some t

  unfoldable pub finish : ActivationState → Task S M → Task S M
  finish draining t = record t {
    fsm = next (next t.fsm drain_complete) deactivate_complete;
    state = (g.on_deactivate t.state).0;
    log = t.log ++ deactivate_hook ∷ [];
  }
  finish faulted t = record t { fsm = next t.fsm deactivate_complete }
  finish _ t = t

  unfoldable pub teardown : Task S M → Task S M
  unfolding finish
  teardown t = let t' = finish t.fsm t in record t' { log = t'.log ++ entry_removed ∷ [] }

  -- The whole task, over what wakes it up.
  unfoldable pub run_mailbox : List (Wakeup M) → Option (Task S M)
  run_mailbox ws = Option.map teardown (loop ws start)
