-- ===== src/Persistence/Mailbox/Recovers.antt =====
-- What a persistent activation leaves in its store when its task ends.
use mathlib.Core.Option
use orlando.Base.{
  ℕ, Bool, true, false, ◌≡◌, refl, ap, subst, ◌∙◌, List, [], ◌∷◌, ◌++◌, some, ok, arith,
}
use orlando.Core.Ids.{GrainId}
use orlando.Core.Lifecycle.{activating}
use orlando.Core.Mailbox.{returned, panicked, Grain}
use orlando.Persistence.Store.{Bytes, StateStore}
use orlando.Persistence.Mailbox.{
  PersistenceStrategy, write_through, Serializer, Wakeup, message, Task, load_or_default,
  save_with_retry, closing, run, before_load, after_load,
}
use orlando.Persistence.Mailbox.Lifecycles.{run_lifecycle_graceful, run_lifecycle_panicked}
use orlando.Persistence.Mailbox.Steps.{
  IsReliable, IsLossless, Stored, load_or_default-Stored, Serves, arrivals, is_stop,
}

module _ {S M W : Type 0} (g : Grain S M) (ser : Serializer S) (store : StateStore W) (id : GrainId)
    (reliable : IsReliable store) (lossless : IsLossless ser) (sink : Bool) (w : W) (now : ℕ) where
  -- What the activation loads, and what its hook makes of it.
  abbrev pub awake : S
  awake = (g.on_activate (load_or_default {M = M} g ser store id w).0).0

  abbrev pub Wakes : Type 0
  Wakes = (g.on_activate (load_or_default {M = M} g ser store id w).0).1 ≡ returned

  -- The task once it has loaded its state.
  unfoldable pub loaded_task : Task S M W
  loaded_task =
      let (s, w', waits) = load_or_default {M = M} g ser store id w in
      record {
        fsm = activating;
        state = s;
        last_save = now;
        world = w';
        log = before_load ∷ waits ++ after_load ∷ [];
      }

  saved_once :
      (b : Bytes) (v v' : W)
      → store.save id b v ≡ (v', ok tt)
      → (save_with_retry {M = M} store id b v).0 ≡ v'
  unfolding save_with_retry
  saved_once b v v' h = ground arith

  pub closing_graceful :
      (strategy : PersistenceStrategy) (t : Task S M W)
      → (t' : Task S M W) × (closing g ser store id strategy sink (t, false) ≡ (t', false))
        × Stored g ser store id t.state t'.world
  unfolding closing
  closing_graceful strategy t =
      let (b, encoded, decoded) = lossless.encodes t.state in
      let (w', written, read) = reliable.saves id b t.world in
      let t' = (closing g ser store id strategy sink (t, false)).0 in
      let stored : t'.world ≡ w' = ground (arith, encoded, saved_once b t.world w' written) in
      (t', refl, (b, decoded, rw stored read))

  -- After a panic the next activation starts from the state that the last message handled before it
  -- had left: under write-through nothing that was answered is lost, and nothing of the panicking
  -- message is kept. At least one message was handled before, the store works and the serializer is
  -- lossless.
  pub run_panicked_recovers :
      (m p : M) (at_m at_p : ℕ) (ms : List (M × ℕ)) (s : S) (rest : List (Wakeup M))
      → Wakes
      → Serves g ser store id ((m, at_m) ∷ ms) awake s
      → (g.handle p s).1 ≡ panicked
      → (t : Task S M W) × (run g ser store id write_through sink w now
            (arrivals g ser store id ((m, at_m) ∷ ms) ++ message p at_p ∷ rest)
          ≡ some (t, true))
        × (load_or_default {M = M} g ser store id t.world ≡ (s, t.world, []))
  unfolding run loaded_task closing
  run_panicked_recovers m p at_m at_p ms s rest a h e =
      let (t, ran, kept) =
        run_lifecycle_panicked g ser store id reliable lossless sink loaded_task a m p at_m at_p ms
          s rest h e in
      (
        (closing g ser store id write_through sink (t, true)).0,
        ap (Option.map (closing g ser store id write_through sink)) ran,
        load_or_default-Stored g ser store id s t.world kept,
      )

  -- A graceful end, by a closed channel or an idle timeout, under any strategy: the next activation
  -- starts from the state that `on_deactivate` left. The store works and the serializer is lossless.
  pub run_graceful_recovers :
      (strategy : PersistenceStrategy) (ms : List (M × ℕ)) (s : S) (stop : Wakeup M)
      (rest : List (Wakeup M))
      → Wakes
      → Serves g ser store id ms awake s
      → is_stop stop ≡ true
      → (t : Task S M W) × (run g ser store id strategy sink w now
            (arrivals g ser store id ms ++ stop ∷ rest)
          ≡ some (t, false))
        × (load_or_default {M = M} g ser store id t.world ≡ ((g.on_deactivate s).0, t.world, []))
  unfolding run loaded_task
  run_graceful_recovers strategy ms s stop rest a h e =
      let (t, ran, came) =
        run_lifecycle_graceful g ser store id reliable lossless sink loaded_task a strategy ms s
          stop rest h e in
      let (t', closed, kept) = closing_graceful strategy t in
      (
        t',
        ap (Option.map (closing g ser store id strategy sink)) ran ∙ ap some closed,
        load_or_default-Stored g ser store id (g.on_deactivate s).0 t'.world
            (subst (λ x. Stored g ser store id x t'.world) came kept),
      )
