-- ===== src/Persistence/Mailbox/Steps.antt =====
-- The turns of a persistent activation on a store that works.
use orlando.Base.{
  ℕ, Bool, true, false, ◌≡◌, ◌≢◌, refl, subst, sym, ◌∙◌, ◌⊎◌, List, [], ◌∷◌, ◌++◌, Option, some, ok,
  arith,
}
use orlando.Core.Ids.{GrainId}
use orlando.Core.Lifecycle.{idle, faulted, draining, next, is_idle}
use orlando.Core.Mailbox.{returned, panicked, Grain}
use orlando.Persistence.Store.{Bytes, StateStore}
use orlando.Persistence.Mailbox.{
  PersistenceStrategy, write_through, Serializer, Wakeup, message, no_senders, elapsed, Task, turn,
  sequential_loop, decoded, load_or_default,
}

-- A store whose writes go through and are read back.
pub record IsReliable {W : Type 0} (store : StateStore W) : Type 0 where
  pub saves :
      (id : GrainId) (b : Bytes) (w : W)
      → (w' : W) × (store.save id b w ≡ (w', ok tt)) × (store.load id w' ≡ (w', ok (some b)))

-- A write of the one store leaves what the other holds under another key; the two may be one.
pub record IsApartFrom {W : Type 0} (store other : StateStore W) : Type 0 where
  pub keeps :
      (i j : GrainId) (b : Bytes) (o : Option Bytes) (w : W)
      → i ≢ j
      → other.load j w ≡ (w, ok o)
      → other.load j (store.save i b w).0 ≡ ((store.save i b w).0, ok o)

-- What is serialized can be read back.
pub record IsLossless {S : Type 0} (ser : Serializer S) : Type 0 where
  pub encodes : (s : S) → (b : Bytes) × (ser.serialize s ≡ some b) × (ser.deserialize b ≡ some s)

-- The wake-ups that end the loop gracefully.
abbrev pub is_stop : {M : Type 0} → Wakeup M → Bool
is_stop (message m now) = false
is_stop no_senders = true
is_stop elapsed = true

module _ {S M W : Type 0} (g : Grain S M) (ser : Serializer S) (store : StateStore W)
    (id : GrainId) where
  -- The store holds the state.
  abbrev pub Stored : S → W → Type 0
  Stored s w = (b : Bytes) × (ser.deserialize b ≡ some s) × (store.load id w ≡ (w, ok (some b)))

  -- A new activation on such a store starts from that state, at once and without a write.
  pub load_or_default-Stored :
      (s : S) (w : W) → Stored s w → load_or_default {M = M} g ser store id w ≡ (s, w, [])
  unfolding load_or_default
  load_or_default-Stored s w (b, d, l) = ground arith

  -- The messages `ms`, with their times, are handled from `s` to `t` with no panic.
  abbrev pub Serves : List (M × ℕ) → S → S → Type 0
  Serves [] s t = s ≡ t
  Serves ((m, now) ∷ ms) s t = ((g.handle m s).1 ≡ returned) × Serves ms (g.handle m s).0 t

  abbrev pub arrivals : List (M × ℕ) → List (Wakeup M)
  arrivals [] = []
  arrivals ((m, now) ∷ ms) = message m now ∷ arrivals ms

  module _ (strategy : PersistenceStrategy) (sink : Bool) where
    pub loop_step :
        (a : Wakeup M) (ws : List (Wakeup M)) (t : Task S M W)
        → t.fsm ≡ idle
        → sequential_loop g ser store id strategy sink (a ∷ ws) t
          ≡ sequential_loop g ser store id strategy sink ws (turn g ser store id strategy sink a t)
    unfolding sequential_loop is_idle
    loop_step a ws t h = ground arith

    pub loop-Left :
        (ws : List (Wakeup M)) (t : Task S M W)
        → (t.fsm ≡ faulted) ⊎ (t.fsm ≡ draining)
        → sequential_loop g ser store id strategy sink ws t ≡ some t
    unfolding sequential_loop is_idle
    loop-Left [] t h = ground arith
    loop-Left (a ∷ ws) t h = ground arith

    pub turn_stop :
        (stop : Wakeup M) (t : Task S M W)
        → t.fsm ≡ idle
        → is_stop stop ≡ true
        → let t' = turn g ser store id strategy sink stop t in
          (t'.fsm ≡ draining) × (t'.state ≡ t.state)
    unfolding turn next
    turn_stop (message m at) t h e = cc
    turn_stop no_senders t h e = (rw h, refl)
    turn_stop elapsed t h e = (rw h, refl)

    pub turn_panicked :
        (m : M) (now : ℕ) (t : Task S M W)
        → t.fsm ≡ idle
        → (g.handle m t.state).1 ≡ panicked
        → let t' = turn g ser store id strategy sink (message m now) t in
          (t'.fsm ≡ faulted) × (t'.world ≡ t.world)
    unfolding turn next
    turn_panicked m now t i h = (ground arith, ground arith)

  module _ (reliable : IsReliable store) (lossless : IsLossless ser) (sink : Bool) where
    -- On such a store a handler that returns leaves the activation idle, under any strategy.
    pub turn_returned :
        (strategy : PersistenceStrategy) (m : M) (now : ℕ) (t : Task S M W)
        → t.fsm ≡ idle
        → (g.handle m t.state).1 ≡ returned
        → let t' = turn g ser store id strategy sink (message m now) t in
          (t'.fsm ≡ idle) × (t'.state ≡ (g.handle m t.state).0)
    unfolding turn next
    turn_returned strategy m now t i h =
        let (b, encoded, decoded) = lossless.encodes (g.handle m t.state).0 in
        let (w', written, read) = reliable.saves id b t.world in (ground arith, ground arith)

    pub turn-Stored :
        (m : M) (now : ℕ) (t : Task S M W)
        → t.fsm ≡ idle
        → (g.handle m t.state).1 ≡ returned
        → Stored
            (g.handle m t.state).0
            (turn g ser store id write_through sink (message m now) t).world
    unfolding turn next
    turn-Stored m now t i h =
        let (b, encoded, decoded) = lossless.encodes (g.handle m t.state).0 in
        let (w', written, read) = reliable.saves id b t.world in
        let stored : (turn g ser store id write_through sink (message m now) t).world ≡ w' =
          ground arith in
        (b, decoded, rw stored read)

    -- A task in its loop that has come to the state `s`.
    pub record Served (strategy : PersistenceStrategy) (ws rest : List (Wakeup M)) (t : Task S M W)
        (s : S) (t' : Task S M W) : Type 0 where
      pub ran :
          sequential_loop g ser store id strategy sink ws t
          ≡ sequential_loop g ser store id strategy sink rest t'
      pub waits : t'.fsm ≡ idle
      pub came : t'.state ≡ s

    pub loop-Served :
        (strategy : PersistenceStrategy) (ms : List (M × ℕ)) (rest : List (Wakeup M))
        (t : Task S M W) (s : S)
        → t.fsm ≡ idle
        → Serves ms t.state s
        → (t' : Task S M W) × Served strategy (arrivals ms ++ rest) rest t s t'
    loop-Served strategy [] rest t s i h = (t, record { ran = refl; waits = i; came = h })
    loop-Served strategy ((m, now) ∷ ms) rest t s i h =
        let (i1, came1) = turn_returned strategy m now t i h.0 in
        let t1 = turn g ser store id strategy sink (message m now) t in
        let (t', more) =
          loop-Served strategy ms rest t1 s i1 (subst (λ x. Serves ms x s) (sym came1) h.1) in
        (
          t',
          record {
            ran = loop_step strategy sink (message m now) (arrivals ms ++ rest) t i ∙ more.ran;
            waits = more.waits;
            came = more.came;
          },
        )

    pub loop-Stored :
        (ms : List (M × ℕ)) (rest : List (Wakeup M)) (t : Task S M W) (s : S)
        → t.fsm ≡ idle
        → Serves ms t.state s
        → Stored t.state t.world
        → (t' : Task S M W) × Served write_through (arrivals ms ++ rest) rest t s t'
          × Stored s t'.world
    loop-Stored [] rest t s i h k =
        (t, record { ran = refl; waits = i; came = h }, subst (λ x. Stored x t.world) h k)
    loop-Stored ((m, now) ∷ ms) rest t s i h k =
        let (i1, came1) = turn_returned write_through m now t i h.0 in
        let t1 = turn g ser store id write_through sink (message m now) t in
        let k1 = subst (λ x. Stored x t1.world) (sym came1) (turn-Stored m now t i h.0) in
        let (t', more, k') =
          loop-Stored ms rest t1 s i1 (subst (λ x. Serves ms x s) (sym came1) h.1) k1 in
        (
          t',
          record {
            ran = loop_step write_through sink (message m now) (arrivals ms ++ rest) t i ∙ more.ran;
            waits = more.waits;
            came = more.came;
          },
          k',
        )
