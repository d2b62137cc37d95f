-- ===== src/Core/Reentrant/Lives.antt =====
-- What the task of a reentrant grain has done when it ends.
use mathlib.Core.List.{Perm, append_assoc}
use orlando.Base.{
  inl, inr, ◌≡◌, refl, ◌∙◌, Bool, true, false, List, [], ◌∷◌, ◌++◌, Option, none, some, Bool-cases,
  map,
}
use orlando.Core.Lifecycle.{idle, closed, next, is_idle}
use orlando.Core.Mailbox.{
  returned, Grain, Task, activate_hook, handler, deactivate_hook, entry_removed, teardown, finish,
}
use orlando.Core.Mailbox.Runs.{start_returned}
use orlando.Core.Reentrant.{Loop, Choice, at_rest, volatile, left, ended, run_reentrant_mailbox}
use orlando.Core.Reentrant.Keeps.{served, run_serial}

module _ {S M : Type 0} (g : Grain S M) where
  -- The state that the activation hook leaves.
  abbrev activated : S
  activated = (g.on_activate g.default_state).0

  abbrev begun : Task S M
  begun = record { fsm = idle; state = activated; log = activate_hook ∷ [] }

  ended_rested :
      (timed_out : Bool) (t : Task S M) (o : Option (Loop S M (Unit {0}) (Unit {0})))
      {t' : Task S M}
      → ended g timed_out t o ≡ some t'
      → (l : Loop S M (Unit {0}) (Unit {0})) × (o ≡ some l)
        × (at_rest (volatile g) l ≡ true)
        × (t' ≡ teardown g (left g timed_out t l))
  unfolding ended
  ended_rested timed_out t none h = absurd (cc)
  ended_rested timed_out t (some l) h = elim (Bool-cases (at_rest (volatile g) l)) [
    | inl e ↦ let q = rw e at h in (l, refl, e, cc)
    | inr e ↦ let q = rw e at h in absurd (cc)
  ]

  teardown-left :
      (timed_out : Bool) (l : Loop S M (Unit {0}) (Unit {0}))
      → teardown g (left g timed_out begun l) ≡ record {
        fsm = closed;
        state = (g.on_deactivate l.state).0;
        log = activate_hook ∷ (map handler l.handled ++ deactivate_hook ∷ entry_removed ∷ []);
      }
  unfolding teardown finish left next
  teardown-left true l = simp append_assoc
  teardown-left false l = simp append_assoc

  -- When the activation hook returns, then whatever the schedule and whichever handlers panic, a task
  -- that ends has run each message's handler exactly once, in some order, on the state that the one
  -- before it left (a panicking one too), then `on_deactivate` on the last, and then removed its entry.
  pub run_reentrant_mailbox-served :
      (cs : List Choice) (inbox : List M) (timed_out : Bool) {t : Task S M}
      → (g.on_activate g.default_state).1 ≡ returned
      → run_reentrant_mailbox g cs inbox timed_out ≡ some t
      → (ms : List M) × Perm ms inbox
        × (t ≡ record {
          fsm = closed;
          state = (g.on_deactivate (served (volatile g) ms (g.on_activate g.default_state).0)).0;
          log = activate_hook ∷ (map handler ms ++ deactivate_hook ∷ entry_removed ∷ []);
        })
  unfolding run_reentrant_mailbox is_idle
  run_reentrant_mailbox-served cs inbox timed_out {t} a h =
      let h' = rw (start_returned g a) at h in
      let (l, ran, rest, e) = ended_rested timed_out begun _ h' in
      let (p, q) = run_serial (volatile g) cs inbox activated tt ran rest in
      (l.handled, p, e ∙ teardown-left timed_out l ∙ rw q refl)
