-- ===== src/Persistence/Transaction/Rollback.antt =====
-- What a transactional grain keeps of the handlers that failed, and what it keeps of their
-- checkpoints.
use orlando.Base.{◌≡◌, refl, sym, subst, List, [], ◌∷◌, Option, none, some, Result, ok, err, arith}
use orlando.Core.Ids.{GrainId}
use orlando.Persistence.Store.{PersistenceError, StateStore}
use orlando.Persistence.Mailbox.Steps.{IsReliable, IsLossless}
use orlando.Persistence.Silo.{bincode, Codec}
use orlando.Persistence.Transaction.{save_state, read_state, replied, transact, transact_all}

-- A handler that leaves the store alone: what it makes of a state, and whether it succeeds.
unfoldable pub storeless :
    {S M R W : Type 0}
    → (M → S → S × Result PersistenceError R)
    → M
    → S
    → W
    → S × W × Result PersistenceError R
storeless pure m s w = let (s', r) = pure m s in (s', w, r)

module _ {S M R : Type 0} (pure : M → S → S × Result PersistenceError R) where
  -- The messages whose handlers succeed, in the states in which they are served.
  unfoldable pub committed : List M → S → List M
  committed [] s = []
  committed (m ∷ ms) s =
      let (s', r) = pure m s in
      let kept = committed ms s' in
      let dropped = committed ms s in elim r [ ok _ ↦ m ∷ kept | err _ ↦ dropped ]

  module _ {W : Type 0} where
    -- The state and the store that the messages leave.
    abbrev pub left_by : List M → S → W → S × W
    left_by ms s w = (
      (transact_all (storeless {W = W} pure) ms s w).0,
      (transact_all (storeless {W = W} pure) ms s w).1,
    )

    left_by-step :
        (m : M) (ms : List M) (s : S) (w : W) (p : S × Result PersistenceError R)
        → pure m s ≡ p
        → left_by ms p.0 w ≡ left_by (committed ms p.0) p.0 w
        → left_by ms s w ≡ left_by (committed ms s) s w
        → left_by (m ∷ ms) s w ≡ left_by (committed (m ∷ ms) s) s w
    unfolding transact_all transact replied storeless committed
    left_by-step m ms s w (s', ok r) h kept dropped = ground (arith, h, kept, dropped)
    left_by-step m ms s w (s', err e) h kept dropped = ground (arith, h, kept, dropped)

    -- A message whose handler fails leaves no trace: where the handlers leave the store alone, the
    -- messages of a mailbox lead to the state and the store that the successful ones among them lead
    -- to when they come alone.
    pub transact_all-committed :
        (ms : List M) (s : S) (w : W) → left_by ms s w ≡ left_by (committed ms s) s w
    unfolding transact_all committed
    transact_all-committed [] s w = refl
    transact_all-committed (m ∷ ms) s w =
        left_by-step m ms s w (pure m s) refl (transact_all-committed ms (pure m s).0 w)
          (transact_all-committed ms s w)

-- A handler that may make a checkpoint: what it makes of a state, the checkpoint, and whether it
-- succeeds.
module _ {S M R : Type 0} (pure : M → S → S × Option S × Result PersistenceError R) where
  -- The state that the messages whose handlers succeed lead to.
  unfoldable pub kept : List M → S → S
  kept [] s = s
  kept (m ∷ ms) s =
      let (s', point, r) = pure m s in
      let done = kept ms s' in let undone = kept ms s in elim r [ ok _ ↦ done | err _ ↦ undone ]

  or_point : Option S → Option S → Option S
  or_point none point = point
  or_point (some q) point = some q

  -- The last checkpoint that any of the messages made, also one whose handler failed.
  unfoldable pub last_point : List M → S → Option S
  unfolding or_point
  last_point [] s = none
  last_point (m ∷ ms) s =
      let (s', point, r) = pure m s in
      let done = last_point ms s' in
      let undone = last_point ms s in or_point (elim r [ ok _ ↦ done | err _ ↦ undone ]) point

  module _ {W : Type 0} (codec : Codec S) (store : StateStore W) (id : GrainId) where
    saved : Option S → W → W
    saved none w = w
    saved (some point) w = (save_state codec store id point w).0

    unfoldable pub checkpointing : M → S → W → S × W × Result PersistenceError R
    unfolding saved
    checkpointing m s w = let (s', point, r) = pure m s in (s', saved point w, r)

    -- The store is as it was, or gives the checkpoint back.
    unfoldable pub Stores : Option S → W → W → Type 0
    Stores none w w' = w' ≡ w
    Stores (some point) w w' = (read_state codec store id w').1 ≡ ok (some point)

    module _ (reliable : IsReliable store) (lossless : IsLossless (codec bincode)) where
      saved-Stores : (o : Option S) (w : W) → Stores o w (saved o w)
      unfolding saved Stores save_state read_state
      saved-Stores none w = refl
      saved-Stores (some point) w =
          let (b, encoded, decoded) = lossless.encodes point in
          let (w', written, read) = reliable.saves id b w in
          ground (arith, encoded, written, read, decoded)

      later-Stores :
          (later point : Option S) (w w' : W)
          → Stores later (saved point w) w'
          → Stores (or_point later point) w w'
      unfolding Stores or_point
      later-Stores none point w w' h = subst (Stores point w) (sym h) (saved-Stores point w)
      later-Stores (some q) point w w' h = h

      -- What the messages leave in memory and in the store.
      Leaves : List M → S → W → Type 0
      Leaves ms s w =
          ((transact_all checkpointing ms s w).0 ≡ kept ms s)
          × Stores (last_point ms s) w (transact_all checkpointing ms s w).1

      Leaves-step :
          (m : M) (ms : List M) (s : S) (w : W) (p : S × Option S × Result PersistenceError R)
          → pure m s ≡ p
          → Leaves ms p.0 (saved p.1 w)
          → Leaves ms s (saved p.1 w)
          → Leaves (m ∷ ms) s w
      unfolding Leaves transact_all transact replied kept last_point checkpointing
      Leaves-step m ms s w (s', point, ok r) e (state, stored) _ =
          let last : or_point (last_point ms s') point ≡ last_point (m ∷ ms) s =
            ground (arith, e) in
          let left : (transact_all checkpointing ms s' (saved point w)).1
              ≡ (transact_all checkpointing (m ∷ ms) s w).1 =
            ground (arith, e) in
          (
            ground (arith, e, state),
            subst (λ w'. Stores (last_point (m ∷ ms) s) w w') left
                (subst (λ o. Stores o w (transact_all checkpointing ms s' (saved point w)).1) last
                  (later-Stores (last_point ms s') point w _ stored)),
          )
      Leaves-step m ms s w (s', point, err r) e _ (state, stored) =
          let last : or_point (last_point ms s) point ≡ last_point (m ∷ ms) s = ground (arith, e) in
          let left : (transact_all checkpointing ms s (saved point w)).1
              ≡ (transact_all checkpointing (m ∷ ms) s w).1 =
            ground (arith, e) in
          (
            ground (arith, e, state),
            subst (λ w'. Stores (last_point (m ∷ ms) s) w w') left
                (subst (λ o. Stores o w (transact_all checkpointing ms s (saved point w)).1) last
                  (later-Stores (last_point ms s) point w _ stored)),
          )

      leaves : (ms : List M) (s : S) (w : W) → Leaves ms s w
      unfolding Leaves transact_all kept last_point Stores
      leaves [] s w = (refl, refl)
      leaves (m ∷ ms) s w =
          Leaves-step m ms s w (pure m s) refl (leaves ms (pure m s).0 (saved (pure m s).1 w))
            (leaves ms s (saved (pure m s).1 w))

      -- A failed handler's state is taken back, its checkpoint is not: where a handler may save one
      -- checkpoint and does nothing else to the store, the messages of a mailbox leave in memory the
      -- state that the successful ones lead to, and in the store, read as the handlers read it, the
      -- last checkpoint that any of them saved, failed ones included; where none saved one, the store
      -- is as it was. The store works, and bincode reads what it wrote.
      pub transact_all-checkpoints :
          (ms : List M) (s : S) (w : W)
          → ((transact_all checkpointing ms s w).0 ≡ kept ms s)
            × Stores (last_point ms s) w (transact_all checkpointing ms s w).1
      unfolding Leaves
      transact_all-checkpoints ms s w = leaves ms s w
