-- ===== src/Persistence/Mailbox/Reentrant/Stale.antt =====
-- A schedule in which an older state is written over a newer one.
use orlando.Base.{Bool, true, ◌≡◌, refl, List, [], ◌∷◌, some}
use orlando.Core.Ids.{GrainId, grain_id_key}
use orlando.Core.Mailbox.{Outcome, returned, panicked, Grain}
use orlando.Core.Reentrant.{Loop, Work, Choice, begin, at_rest, run, after_handler, leftover}
use orlando.Core.Reentrant.Overtakes.{overtaking, run-overtaking}
use orlando.Persistence.Store.{Bytes, InMemoryStateStore, memory_store, load}
use orlando.Persistence.Mailbox.{write_through, Serializer}
use orlando.Persistence.Mailbox.Memory.{load-save}
use orlando.Persistence.Mailbox.Reentrant.{
  Desk, persistent, is_write_through, snapshot, flush_bytes, write_snapshot, flushed_bytes,
}

module _ {S M : Type 0} (g : Grain S M) (ser : Serializer S) (id : GrainId) (sink : Bool) where
  abbrev writer : Work S M Bytes (Desk M InMemoryStateStore)
  writer = persistent g ser memory_store id write_through sink

  leaves :
      (r : S × Outcome) (b : Bytes)
      → r.1 ≡ returned
      → ser.serialize r.0 ≡ some b
      → after_handler writer r ≡ leftover b
  unfolding after_handler persistent snapshot is_write_through
  leaves (s, returned) b h e = rw e refl
  leaves (s, panicked) b h e = absurd (cc)

  write_snapshot-load :
      (b : Bytes) (d : Desk M InMemoryStateStore)
      → load id (write_snapshot g ser memory_store id write_through sink b d).world ≡ some b
  unfolding write_snapshot flush_bytes flushed_bytes is_write_through memory_store
  write_snapshot-load b d = load-save id b d.world

  -- Under write-through, of two messages whose handlers return there is always a schedule in which the
  -- loop comes to rest with both handled in turn, and the store holds the state after the first only.
  pub overtaking_stale :
      (m n : M) (s : S) (st : InMemoryStateStore) (b c : Bytes)
      → (g.handle m s).1 ≡ returned
      → (g.handle n (g.handle m s).0).1 ≡ returned
      → ser.serialize (g.handle m s).0 ≡ some b
      → ser.serialize (g.handle n (g.handle m s).0).0 ≡ some c
      → (cs : List Choice) × (l : Loop S M Bytes (Desk M InMemoryStateStore)) × (run writer cs
            (begin writer (m ∷ n ∷ []) s (record { world = st; log = [] }))
          ≡ some l)
        × (at_rest writer l ≡ true)
        × (l.state ≡ (g.handle n (g.handle m s).0).0)
        × (load id l.world.world ≡ some b)
  unfolding at_rest persistent
  overtaking_stale m n s st b c h k e f = (
    overtaking,
    _,
    run-overtaking writer m n s _ b c (leaves (g.handle m s) b h e)
        (leaves (g.handle n (g.handle m s).0) c k f),
    refl,
    refl,
    write_snapshot-load b _,
  )
