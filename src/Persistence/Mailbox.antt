-- ===== src/Persistence/Mailbox.antt =====
-- crates/orlando-persistence/src/persistent_mailbox.rs: the task of one persistent activation (the
-- sequential loop; `Reentrant` is the concurrent one). The store is any implementation of the trait, the serializer and the grain's handlers are arguments, and the clock
-- comes with each message. `Effect` lists what the task does, in order.
pub mod Steps
pub mod Recovers
pub mod Lifecycles
pub mod Keeps
pub mod Memory
pub mod Reentrant
use mathlib.Core.Option
use orlando.Base.{
  ℕ, zero, suc, ◌+◌, ◌-◌, ◌*◌, Bool, true, false, not, List, [], ◌∷◌, ◌++◌, Option, none, some, ltb,
  if◌then◌else◌, Result, ok, err,
}
use orlando.Core.Ids.{GrainId}
use orlando.Core.Lifecycle.{
  ActivationState, activating, idle, next, is_idle, is_faulted, message_received, handler_completed,
  handler_panicked, persist_started, persist_succeeded, persist_failed, channel_closed,
  idle_timeout,
}
use orlando.Core.Mailbox.{Outcome, returned, panicked, Grain}
use orlando.Persistence.Store.{Bytes, PersistenceError, deserialization, StateStore}

pub data PersistenceStrategy : Type 0 where
  write_on_deactivate write_through : PersistenceStrategy
  write_back : (interval : ℕ) → PersistenceStrategy

pub record Serializer (S : Type 0) : Type 0 where
  pub serialize : S → Option Bytes
  pub deserialize : Bytes → Option S

-- A message with the time at which its handler ended, a closed channel, or an idle timeout.
pub data Wakeup (M : Type 0) : Type 0 where
  message : M → (now : ℕ) → Wakeup M
  no_senders elapsed : Wakeup M

pub data Effect (M : Type 0) : Type 0 where
  before_load after_load activate_hook deactivate_hook entry_removed : Effect M
  before_save after_save store_failed : Effect M
  replied : M → Effect M  -- the handler ran to its end and its reply was sent
  handler_failed : M → Effect M
  stored replicated : Bytes → Effect M
  slept : (millis : ℕ) → Effect M

pub record Task (S M W : Type 0) : Type 0 where
  pub fsm : ActivationState
  pub state : S
  pub last_save : ℕ
  pub world : W
  pub log : List (Effect M)

pub data PersistPlan : Type 0 where
  skip serialize_failed : PersistPlan
  write : Bytes → PersistPlan

or_failed : Option Bytes → PersistPlan
or_failed none = serialize_failed
or_failed (some b) = write b

-- The plan, the new time of the last save, and what is replicated at once.
unfoldable pub prepare_persist :
    PersistenceStrategy → Bool → ℕ → ℕ → Option Bytes → PersistPlan × ℕ × Option Bytes
unfolding or_failed
prepare_persist write_through sink now last bytes = (or_failed bytes, last, none)
prepare_persist (write_back interval) sink now last bytes =
    if ltb (now - last) interval then (skip, last, none) else (or_failed bytes, now, none)
prepare_persist write_on_deactivate sink now last bytes = (skip, last, if sink then bytes else none)

sent : {M : Type 0} → Option Bytes → List (Effect M)
sent none = []
sent (some b) = replicated b ∷ []

module _ {S M W : Type 0} where
  abbrev pub note : List (Effect M) → Task S M W → Task S M W
  note es t = record t { log = t.log ++ es }

  -- The log of a flush, with the replication that follows a successful one.
  flushed : Bool → Bytes → Task S M W → W × Result PersistenceError (Unit {0}) → Task S M W × Bool
  unfolding sent
  flushed sink b t (w, ok _) = (
    record t {
      world = w;
      log = t.log ++ stored b ∷ after_save ∷ sent (if sink then some b else none);
    },
    true,
  )
  flushed sink b t (w, err _) = (record t { world = w; log = t.log ++ store_failed ∷ [] }, false)

module _ {S M W : Type 0} (g : Grain S M) (ser : Serializer S) (store : StateStore W)
    (id : GrainId) where
  -- `load_state`: what the store holds, decoded.
  decoded : Result PersistenceError (Option Bytes) → Result PersistenceError (Option S)
  decoded (ok none) = ok none
  decoded (ok (some b)) = elim (ser.deserialize b) [
    | some s ↦ ok (some s)
    | none ↦ err deserialization
  ]
  decoded (err e) = err e

  loaded :
      ℕ
      → (W → S × W × List (Effect M))
      → W
      → Result PersistenceError (Option S)
      → S × W × List (Effect M)
  loaded attempt again w (ok (some s)) = (s, w, [])
  loaded attempt again w (ok none) = (g.default_state, w, [])
  loaded attempt again w (err _) =
      let (s, w', waits) = again w in
      (s, w', (if ltb attempt 3 then slept (100 * attempt) ∷ [] else []) ++ waits)

  load_from : List ℕ → W → S × W × List (Effect M)
  unfolding decoded loaded
  load_from [] w = (g.default_state, w, [])
  load_from (attempt ∷ rest) w =
      let (w', answer) = store.load id w in loaded attempt (load_from rest) w' (decoded answer)

  -- Three attempts, then the default.
  unfoldable pub load_or_default : W → S × W × List (Effect M)
  unfolding load_from
  load_or_default = load_from (1 ∷ 2 ∷ 3 ∷ [])

module _ {M W : Type 0} (store : StateStore W) (id : GrainId) where
  -- The store, whether a write succeeded, and the waits and failures on the way.
  saved :
      ℕ
      → Bytes
      → (W → W × Bool × List (Effect M))
      → W × Result PersistenceError (Unit {0})
      → W × Bool × List (Effect M)
  saved attempt b again (w, ok _) = (w, true, stored b ∷ [])
  saved attempt b again (w, err _) =
      let (w', done, waits) = again w in
      (
        w',
        done,
        store_failed ∷ ((if ltb attempt 3 then slept (100 * attempt) ∷ [] else []) ++ waits),
      )

  save_from : List ℕ → Bytes → W → W × Bool × List (Effect M)
  unfolding saved
  save_from [] b w = (w, false, [])
  save_from (attempt ∷ rest) b w = saved attempt b (save_from rest b) (store.save id b w)

  -- Three attempts.
  unfoldable pub save_with_retry : Bytes → W → W × Bool × List (Effect M)
  unfolding save_from
  save_with_retry = save_from (1 ∷ 2 ∷ 3 ∷ [])

module _ {S M W : Type 0} (g : Grain S M) (ser : Serializer S) (store : StateStore W) (id : GrainId)
    (strategy : PersistenceStrategy) (sink : Bool) where
  -- One durable write, and the transitions that follow.
  persist : PersistPlan → Task S M W → Task S M W
  unfolding flushed
  persist skip t = record t { fsm = next t.fsm handler_completed }
  persist serialize_failed t = record t { fsm = next (next t.fsm persist_started) persist_failed }
  persist (write b) t =
      let (t', done) = flushed sink b (note (before_save ∷ []) t) (store.save id b t.world) in
      record t' {
        fsm =
            next (next t.fsm persist_started) (if done then persist_succeeded else persist_failed);
      }

  handled : M → ℕ → S × Outcome → Task S M W → Task S M W
  unfolding prepare_persist persist sent
  handled m now (s, returned) t =
      let (plan, last, shipped) = prepare_persist strategy sink now t.last_save (ser.serialize s) in
      persist plan (record t {
        fsm = next t.fsm message_received;
        state = s;
        last_save = last;
        log = t.log ++ replied m ∷ sent shipped;
      })
  handled m now (s, panicked) t = record t {
    fsm = next (next t.fsm message_received) handler_panicked;
    state = s;
    log = t.log ++ handler_failed m ∷ [];
  }

  -- The body of `sequential_loop`.
  unfoldable pub turn : Wakeup M → Task S M W → Task S M W
  unfolding handled
  turn (message m now) t = handled m now (g.handle m t.state) t
  turn no_senders t = record t { fsm = next t.fsm channel_closed }
  turn elapsed t = record t { fsm = next t.fsm idle_timeout }

  -- `none`: the task still waits for its mailbox.
  unfoldable pub sequential_loop : List (Wakeup M) → Task S M W → Option (Task S M W)
  sequential_loop [] t = if is_idle t.fsm then none else some t
  sequential_loop (w ∷ ws) t =
      let rest = sequential_loop ws (turn w t) in if is_idle t.fsm then rest else some t

  after_loop : Task S M W → Task S M W × Bool
  after_loop t =
      if is_faulted t.fsm
      then (t, true)
      else (note (deactivate_hook ∷ []) (record t { state = (g.on_deactivate t.state).0 }), false)

  activated : List (Wakeup M) → S × Outcome → Task S M W → Option (Task S M W × Bool)
  unfolding after_loop sequential_loop
  activated ws (s, returned) t =
      Option.map after_loop
        (sequential_loop ws (record t { fsm = idle; state = s; log = t.log ++ activate_hook ∷ [] }))
  activated ws (s, panicked) t =
      some (record t { state = s; log = t.log ++ activate_hook ∷ [] }, true)

  -- The final state, and whether the activation faulted.
  unfoldable pub run_lifecycle : List (Wakeup M) → Task S M W → Option (Task S M W × Bool)
  unfolding activated
  run_lifecycle ws t = activated ws (g.on_activate t.state) t

  -- The save of a graceful end.
  final_save : Task S M W → Option Bytes → Task S M W
  unfolding save_with_retry sent
  final_save t none = note (before_save ∷ []) t
  final_save t (some b) =
      let (w, done, log) = save_with_retry store id b t.world in
      record t {
        world = w;
        log =
            t.log
            ++ before_save ∷ log
            ++ (if done then after_save ∷ sent (if sink then some b else none) else []);
      }

  unfoldable pub closing : Task S M W × Bool → Task S M W × Bool
  unfolding final_save
  closing (t, true) = (note (entry_removed ∷ []) t, true)
  closing (t, false) = (note (entry_removed ∷ []) (final_save t (ser.serialize t.state)), false)

  -- The whole task, from the store that it finds and the time at which its loop begins.
  unfoldable pub run : W → ℕ → List (Wakeup M) → Option (Task S M W × Bool)
  unfolding load_or_default run_lifecycle closing
  run w now ws =
      let (s, w', waits) = load_or_default g ser store id w in
      Option.map closing (
        run_lifecycle ws (record {
          fsm = activating;
          state = s;
          last_save = now;
          world = w';
          log = before_load ∷ waits ++ after_load ∷ [];
        }))
