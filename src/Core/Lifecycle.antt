-- ===== src/Core/Lifecycle.antt =====
-- crates/orlando-core/src/activation_state.rs: the state machine of a grain activation.
use orlando.Base.{Bool, true, false, ◌≡◌, ◌⊎◌, List, [], ◌∷◌, arith}

pub data ActivationState : Type 0 where
  activating idle processing persisting draining deactivating faulted closed : ActivationState

pub data ActivationEvent : Type 0 where
  activate_succeeded activate_failed message_received handler_completed : ActivationEvent
  persist_started handler_panicked persist_succeeded persist_failed : ActivationEvent
  channel_closed idle_timeout drain_complete deactivate_complete : ActivationEvent

unfoldable pub next : ActivationState → ActivationEvent → ActivationState
next activating activate_succeeded = idle
next activating activate_failed = faulted
next idle message_received = processing
next idle channel_closed = draining
next idle idle_timeout = draining
next processing handler_completed = idle
next processing persist_started = persisting
next processing handler_panicked = faulted
next persisting persist_succeeded = idle
next persisting persist_failed = faulted
next draining drain_complete = deactivating
next deactivating deactivate_complete = closed
next faulted deactivate_complete = closed
next state _ = state

unfoldable pub is_terminal : ActivationState → Bool
is_terminal closed = true
is_terminal _ = false

-- `fsm == ActivationState::Idle`
unfoldable pub is_idle : ActivationState → Bool
is_idle idle = true
is_idle _ = false

-- `fsm == ActivationState::Faulted`
unfoldable pub is_faulted : ActivationState → Bool
is_faulted faulted = true
is_faulted _ = false

-- A history of events.
unfoldable pub run : ActivationState → List ActivationEvent → ActivationState
run s [] = s
run s (e ∷ es) = run (next s e) es

-- The states in which a graceful end can still follow, and those of a discarded activation.
abbrev pub IsDiscarded : ActivationState → Type 0
IsDiscarded s = (s ≡ faulted) ⊎ (s ≡ closed)

next-IsDiscarded :
    (s : ActivationState) (e : ActivationEvent) → IsDiscarded s → IsDiscarded (next s e)
unfolding next
next-IsDiscarded s e h = ground arith

-- After a fault no history of events runs `on_deactivate` or handles a message: the activation stays
-- faulted or is closed.
pub run_faulted :
    (es : List ActivationEvent) (s : ActivationState) → IsDiscarded s → IsDiscarded (run s es)
unfolding run
run_faulted [] s h = h
run_faulted (e ∷ es) s h = run_faulted es (next s e) (next-IsDiscarded s e h)
