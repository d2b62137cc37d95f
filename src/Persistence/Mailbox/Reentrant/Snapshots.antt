-- ===== src/Persistence/Mailbox/Reentrant/Snapshots.antt =====
-- Every write of the concurrent loop is of a state that the grain had.
use mathlib.Core.List.{append_assoc, append-nil}
use orlando.Base.{
  Bool, ◌||◌, ◌≡◌, refl, ◌∙◌, subst, ◌⊎◌, inl, inr, List, [], ◌∷◌, ◌++◌, Option, none, some, All,
  append-All, All-split, Bool-cases,
}
use orlando.Core.Ids.{GrainId}
use orlando.Core.Mailbox.{Outcome, returned, panicked, Grain}
use orlando.Core.Reentrant.{
  Loop, Work, Job, waiting, leftover, finished, Choice, begin, run, spawned, handled_by, completed,
  after_handler,
}
use orlando.Core.Reentrant.Moves.{Step, receives, handles, completes, joins, run_keeps}
use orlando.Core.Reentrant.Keeps.{served, Step-served}
use orlando.Persistence.Store.{Bytes, InMemoryStateStore, memory_store, load}
use orlando.Persistence.Mailbox.{PersistenceStrategy, Serializer}
use orlando.Persistence.Mailbox.Memory.{load-save}
use orlando.Persistence.Mailbox.Reentrant.{
  Desk, persistent, is_write_through, snapshot, flush_bytes, write_snapshot,
}

module _ {S M : Type 0} (g : Grain S M) (ser : Serializer S) (id : GrainId)
    (strategy : PersistenceStrategy) (sink : Bool) where
  abbrev writer : Work S M Bytes (Desk M InMemoryStateStore)
  writer = persistent g ser memory_store id strategy sink

  -- The bytes of the state that the first of these handlers left.
  pub IsSnapshot : S → List M → Bytes → Type 0
  IsSnapshot s ms b =
      (pre : List M) × (post : List M) × (ms ≡ pre ++ post)
      × (ser.serialize (served writer pre s) ≡ some b)

  IsSnapshot-append :
      (s : S) (ms : List M) (m : M) (b : Bytes) → IsSnapshot s ms b → IsSnapshot s (ms ++ m ∷ []) b
  unfolding IsSnapshot
  IsSnapshot-append s ms m b (pre, post, e, h) = (pre, post ++ m ∷ [], rw (e, append_assoc) refl, h)

  -- A task with something left has a snapshot.
  Job-Is : S → List M → Job M Bytes → Type 0
  Job-Is s ms (waiting m) = Unit
  Job-Is s ms (leftover b) = IsSnapshot s ms b
  Job-Is s ms finished = Unit

  Job-append :
      (s : S) (ms : List M) (m : M) (js : List (Job M Bytes))
      → All (Job-Is s ms) js
      → All (Job-Is s (ms ++ m ∷ [])) js
  unfolding Job-Is
  Job-append s ms m [] h = tt
  Job-append s ms m (waiting x ∷ js) (j, h) = (tt, Job-append s ms m js h)
  Job-append s ms m (leftover b ∷ js) (j, h) =
      (IsSnapshot-append s ms m b j, Job-append s ms m js h)
  Job-append s ms m (finished ∷ js) (j, h) = (tt, Job-append s ms m js h)

  snapshot-serialize :
      (x : S) (b : Bytes)
      → snapshot g ser memory_store id strategy sink x ≡ some b
      → ser.serialize x ≡ some b
  unfolding snapshot
  snapshot-serialize x b h = elim (Bool-cases (is_write_through strategy || sink)) [
    | inl e ↦ rw e at h
    | inr e ↦ let q = rw e at h in absurd (cc)
  ]

  returned-Is :
      (s : S) (ms : List M) (x : S) (o : Option Bytes)
      → x ≡ served writer ms s
      → snapshot g ser memory_store id strategy sink x ≡ o
      → Job-Is s ms (after_handler writer (x, returned))
  unfolding after_handler Job-Is IsSnapshot persistent
  returned-Is s ms x none e h = rw h tt
  returned-Is s ms x (some b) e h = rw h (
    ms,
    [],
    rw append-nil refl,
    subst (λ y. ser.serialize y ≡ some b) e (snapshot-serialize x b h),
  )

  after_handler-Is :
      (s : S) (ms : List M) (r : S × Outcome)
      → r.0 ≡ served writer ms s
      → Job-Is s ms (after_handler writer r)
  unfolding after_handler Job-Is persistent
  after_handler-Is s ms (x, returned) e = returned-Is s ms x _ e refl
  after_handler-Is s ms (x, panicked) e = tt

  write_snapshot-load :
      (b : Bytes) (d : Desk M InMemoryStateStore)
      → (load id (write_snapshot g ser memory_store id strategy sink b d).world ≡ load id d.world)
        ⊎ (load id (write_snapshot g ser memory_store id strategy sink b d).world ≡ some b)
  unfolding write_snapshot flush_bytes memory_store
  write_snapshot-load b d = elim (Bool-cases (is_write_through strategy)) [
    | inl e ↦ inr (rw (e, flush_bytes) (load-save id b d.world))
    | inr e ↦ inl (rw (e, flush_bytes) refl)
  ]

  -- The store holds what it held at first, or a snapshot.
  Holds : S → InMemoryStateStore → Loop S M Bytes (Desk M InMemoryStateStore) → Type 0
  Holds s st l =
      (load id l.world.world ≡ load id st)
      ⊎ (b : Bytes) × (load id l.world.world ≡ some b) × IsSnapshot s l.handled b

  record Keeps (s : S) (st : InMemoryStateStore) (l : Loop S M Bytes (Desk M InMemoryStateStore))
      : Type 0 where
    state_kept : l.state ≡ served writer l.handled s
    jobs_kept : All (Job-Is s l.handled) l.jobs
    store_kept : Holds s st l

  Step-Keeps :
      (s : S) (st : InMemoryStateStore) (l l' : Loop S M Bytes (Desk M InMemoryStateStore))
      → Step writer l l'
      → Keeps s st l
      → Keeps s st l'
  unfolding spawned handled_by completed Holds Job-Is persistent
  Step-Keeps s st l l' (receives m ms e lt) k = record {
    state_kept = k.state_kept;
    jobs_kept = append-All _ l.jobs (waiting m ∷ []) k.jobs_kept (tt, tt);
    store_kept = k.store_kept;
  }
  Step-Keeps s st l l' (handles before m after e) k =
      let (front, _, back) =
        All-split (Job-Is s l.handled) before (waiting m) after (rw e at k.jobs_kept) in
      let served_now = Step-served writer s l l' (handles before m after e) k.state_kept in
      record {
        state_kept = served_now;
        jobs_kept = append-All _ before _ (Job-append s l.handled m before front) (
          after_handler-Is s (l.handled ++ m ∷ []) (g.handle m l.state) served_now,
          Job-append s l.handled m after back,
        );
        store_kept = elim k.store_kept [
          | inl h ↦ inl h
          | inr (b, h, i) ↦ inr (b, h, IsSnapshot-append s l.handled m b i)
        ];
      }
  Step-Keeps s st l l' (completes before b after e) k =
      let (front, mine, back) =
        All-split (Job-Is s l.handled) before (leftover b) after (rw e at k.jobs_kept) in
      record {
        state_kept = k.state_kept;
        jobs_kept = append-All _ before _ front (tt, back);
        store_kept = elim (write_snapshot-load b l.world) [
          | inl same_store ↦ elim k.store_kept [
            | inl h ↦ inl (same_store ∙ h)
            | inr (c, h, i) ↦ inr (c, same_store ∙ h, i)
          ]
          | inr wrote ↦ inr (b, wrote, mine)
        ];
      }
  Step-Keeps s st l l' (joins before after e) k =
      let (front, mine, back) =
        All-split (Job-Is s l.handled) before finished after (rw e at k.jobs_kept) in
      record {
        state_kept = k.state_kept;
        jobs_kept = append-All _ before after front back;
        store_kept = k.store_kept;
      }

  -- Whatever the schedule and the strategy, at any moment the in-memory store holds under the grain's
  -- id what it held when the loop began, or the serialized state that some first part of the handled
  -- messages left.
  pub run-IsSnapshot :
      (cs : List Choice) (inbox : List M) (s : S) (st : InMemoryStateStore)
      {l : Loop S M Bytes (Desk M InMemoryStateStore)}
      → run writer cs (begin writer inbox s (record { world = st; log = [] })) ≡ some l
      → (load id l.world.world ≡ load id st)
        ⊎ (b : Bytes) × (load id l.world.world ≡ some b) × IsSnapshot s l.handled b
  unfolding begin Holds served
  run-IsSnapshot cs inbox s st h =
      let k =
        run_keeps writer (Keeps s st) (Step-Keeps s st) cs (begin writer inbox s _) h
          (record { state_kept = refl; jobs_kept = tt; store_kept = inl refl }) in
      k.store_kept
