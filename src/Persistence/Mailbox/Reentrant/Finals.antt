-- ===== src/Persistence/Mailbox/Reentrant/Finals.antt =====
-- What a reentrant persistent activation leaves in the store when it ends.
use mathlib.Core.List.{Perm}
use mathlib.Core.Option
use orlando.Base.{
  ℕ, Bool, true, false, ◌≡◌, refl, sym, ap, ◌∙◌, subst, inl, inr, List, [], ◌∷◌, ◌++◌, Option, none,
  some, Bool-cases,
}
use orlando.Core.Ids.{GrainId}
use orlando.Core.Lifecycle.{idle, is_faulted}
use orlando.Core.Mailbox.{returned, Grain}
use orlando.Core.Reentrant.{Loop, Choice, at_rest}
use orlando.Core.Reentrant.Keeps.{served, run_serial}
use orlando.Persistence.Store.{Bytes, StateStore}
use orlando.Persistence.Mailbox.{
  PersistenceStrategy, Serializer, activate_hook, deactivate_hook, Task, load_or_default,
  after_loop, closing, note,
}
use orlando.Persistence.Mailbox.Steps.{IsReliable, IsLossless, Stored}
use orlando.Persistence.Mailbox.Recovers.{closing_graceful, loaded_task}
use orlando.Persistence.Mailbox.Reentrant.{
  Desk, persistent, rested, reentrant_loop, activated_reentrant, run_lifecycle_reentrant,
  run_reentrant,
}

module _ {S M W : Type 0} (g : Grain S M) (ser : Serializer S) (store : StateStore W) (id : GrainId)
    (strategy : PersistenceStrategy) (sink : Bool) where
  rested_lem :
      (t : Task S M W) (o : Option (Loop S M Bytes (Desk M W))) {t' : Task S M W}
      → rested g ser store id strategy sink t o ≡ some t'
      → (l : Loop S M Bytes (Desk M W)) × (o ≡ some l)
        × (at_rest (persistent g ser store id strategy sink) l ≡ true)
        × (t'.state ≡ l.state)
        × (t'.fsm ≡ t.fsm)
  unfolding rested
  rested_lem t none h = absurd (cc)
  rested_lem t (some l) h =
      elim (Bool-cases (at_rest (persistent g ser store id strategy sink) l)) [
        | inl e ↦ let q = rw e at h in (l, refl, e, cc, cc)
        | inr e ↦ let q = rw e at h in absurd (cc)
      ]

  reentrant_loop-served :
      (cs : List Choice) (inbox : List M) (t : Task S M W) {t' : Task S M W}
      → reentrant_loop g ser store id strategy sink cs inbox t ≡ some t'
      → (ms : List M) × Perm ms inbox
        × (t'.state ≡ served (persistent g ser store id strategy sink) ms t.state)
        × (t'.fsm ≡ t.fsm)
  unfolding reentrant_loop
  reentrant_loop-served cs inbox t h =
      let (l, ran, rest, e, f) = rested_lem t _ h in
      let (p, q) =
        run_serial (persistent g ser store id strategy sink) cs inbox t.state _ ran rest in
      (l.handled, p, e ∙ q, f)

  module _ (reliable : IsReliable store) (lossless : IsLossless ser) where
    closed_reentrant :
        (o : Option (Task S M W)) {r : Task S M W × Bool}
        → Option.map
            (closing g ser store id strategy sink)
            (Option.map (after_loop g ser store id strategy sink) o)
          ≡ some r
        → (t : Task S M W) × (o ≡ some t)
          × (is_faulted t.fsm ≡ false
              → (r.1 ≡ false) × Stored g ser store id (g.on_deactivate t.state).0 r.0.world)
    unfolding after_loop
    closed_reentrant none h = absurd (cc)
    closed_reentrant (some t) {r} h = (
      t,
      refl,
      λ quiet.
          let t1 : Task S M W =
            note (deactivate_hook ∷ []) (record t { state = (g.on_deactivate t.state).0 }) in
          let (t2, closed, kept) =
            closing_graceful g ser store id reliable lossless sink t.world 0 strategy t1 in
          let h' : some (closing g ser store id strategy sink (t1, false)) ≡ some r =
            rw quiet at h in
          let e : r ≡ (t2, false) = cc in
          (
            ap (λ (x : Task S M W × Bool). x.1) e,
            subst (λ (x : Task S M W × Bool). Stored g ser store id t1.state x.0.world) (sym e)
                kept,
          ),
    )

    -- On a store that works and with a lossless serializer, a reentrant activation whose hook returns
    -- ends without a fault whatever its handlers do, and the store holds what `on_deactivate` makes of
    -- the state that the handlers left, each run exactly once in some order, panicking ones included.
    pub run_reentrant-final :
        (cs : List Choice) (inbox : List M) (w : W) (now : ℕ) {r : Task S M W × Bool}
        → (g.on_activate (load_or_default {M = M} g ser store id w).0).1 ≡ returned
        → run_reentrant g ser store id strategy sink cs inbox w now ≡ some r
        → (r.1 ≡ false)
          × (ms : List M) × Perm ms inbox
          × Stored g ser store id
              (g.on_deactivate (
                served
                  (persistent g ser store id strategy sink)
                  ms
                  (g.on_activate (load_or_default {M = M} g ser store id w).0).0)).0
              r.0.world
    unfolding run_reentrant run_lifecycle_reentrant activated_reentrant is_faulted loaded_task
    run_reentrant-final cs inbox w now a h =
        let x = loaded_task g ser store id reliable lossless sink w now in
        let y : Task S M W = record x {
          fsm = idle;
          state = (g.on_activate x.state).0;
          log = x.log ++ activate_hook ∷ [];
        } in
        let (t, looped, kept) =
          closed_reentrant (reentrant_loop g ser store id strategy sink cs inbox y) (rw a at h) in
        let (ms, p, e, f) = reentrant_loop-served cs inbox y looped in
        let (quiet, stored) = kept (rw f refl) in (quiet, ms, p, rw e at stored)
