-- ===== src/Persistence/Versioned.antt =====
-- crates/orlando-persistence/src/versioned_grain.rs and the versioned part of persistent_mailbox.rs:
-- the version that stands beside a grain's state, the chain of migrations on load, and the task of a
-- versioned grain (its sequential loop). The migrations and the encoding of the version number are
-- arguments.
pub mod Recovers
use mathlib.Core.Option
use orlando.Base.{
  ℕ, zero, suc, ◌+◌, ◌-◌, Bool, true, false, List, [], ◌∷◌, ◌++◌, Option, none, some, ltb,
  if◌then◌else◌, Result, ok, err,
}
use orlando.Core.Ids.{Text, GrainId, slash}
use orlando.Core.Lifecycle.{activating}
use orlando.Core.Mailbox.{Grain}
use orlando.Persistence.Store.{Bytes, PersistenceError, serialization, deserialization, StateStore}
use orlando.Persistence.Mailbox.{
  PersistenceStrategy, Serializer, Wakeup, Effect, before_load, after_load, before_save, after_save,
  entry_removed, store_failed, stored, Task, note, run_lifecycle, save_with_retry,
}

-- What the trait adds to a persistent grain; versions are u32.
pub record VersionedGrain : Type 0 where
  pub state_version : ℕ
  pub migrate : ℕ → Bytes → Result PersistenceError Bytes

-- `migrate_state`, from what decodes the old type and encodes the new one.
unfoldable pub migrate_state {ℓ κ} :
    {A : Type ℓ} {B : Type κ}
    → (Bytes → Option A)
    → (B → Option Bytes)
    → (A → B)
    → Bytes
    → Result PersistenceError Bytes
migrate_state decode encode transform bytes = elim (decode bytes) [
  | none ↦ err deserialization
  | some old ↦ elim (encode (transform old)) [ none ↦ err serialization | some new ↦ ok new ]
]

-- The bytes `/__v`.
abbrev pub version_suffix : Text
version_suffix = slash ∷ 0x5f ∷ 0x5f ∷ 0x76 ∷ []

unfoldable pub version_grain_id : GrainId → GrainId
version_grain_id id = record { type_name = id.type_name; key = id.key ++ version_suffix }

-- The loop over `from..from + n`.
unfoldable pub migrated :
    (ℕ → Bytes → Result PersistenceError Bytes)
    → (n from : ℕ) → Bytes
    → Result PersistenceError Bytes
migrated migrate zero from bytes = ok bytes
migrated migrate (suc n) from bytes = elim (migrate from bytes) [
  | ok next ↦ migrated migrate n (suc from) next
  | err e ↦ err e
]

module _ {S : Type 0} (v : VersionedGrain) (ser : Serializer S) where
  -- `serializer.deserialize(&state_bytes)?`
  read_back : Result PersistenceError Bytes → Result PersistenceError (Option S)
  read_back (ok b) = elim (ser.deserialize b) [ none ↦ err deserialization | some s ↦ ok (some s) ]
  read_back (err e) = err e

  -- What the load gives from the version that is stored and the bytes.
  unfoldable pub upgraded :
      ℕ → Result PersistenceError (Option Bytes) → Result PersistenceError (Option S)
  unfolding migrated read_back
  upgraded from (ok none) = ok none
  upgraded from (ok (some b)) =
      if ltb v.state_version from
      then err deserialization
      else read_back (migrated v.migrate (v.state_version - from) from b)
  upgraded from (err e) = err e

-- The version that the store holds: 0 where it holds none.
unfoldable pub stored_version :
    Serializer ℕ → Result PersistenceError (Option Bytes) → Result PersistenceError ℕ
stored_version version (ok none) = ok 0
stored_version version (ok (some b)) = elim (version.deserialize b) [
  | none ↦ err deserialization
  | some n ↦ ok n
]
stored_version version (err e) = err e

module _ {S W : Type 0} (v : VersionedGrain) (ser : Serializer S) (version : Serializer ℕ)
    (store : StateStore W) (id : GrainId) where
  load_at : W → Result PersistenceError ℕ → W × Result PersistenceError (Option S)
  unfolding upgraded
  load_at w (ok from) = let (w', r) = store.load id w in (w', upgraded v ser from r)
  load_at w (err e) = (w, err e)

  unfoldable pub load_versioned_state : W → W × Result PersistenceError (Option S)
  unfolding stored_version load_at version_grain_id
  load_versioned_state w =
      let (w', r) = store.load (version_grain_id id) w in load_at w' (stored_version version r)

-- A failed load starts from the default state.
or_default : {S : Type 0} → S → Result PersistenceError (Option S) → S
or_default default_state (ok (some s)) = s
or_default default_state (ok none) = default_state
or_default default_state (err e) = default_state

module _ {S M W : Type 0} (v : VersionedGrain) (g : Grain S M) (ser : Serializer S)
    (version : Serializer ℕ) (store : StateStore W) (id : GrainId) where
  -- The task once it has loaded its state.
  unfoldable pub loaded_task : W → ℕ → Task S M W
  unfolding load_versioned_state or_default
  loaded_task w now =
      let (w', r) = load_versioned_state v ser version store id w in
      record {
        fsm = activating;
        state = or_default g.default_state r;
        last_save = now;
        world = w';
        log = before_load ∷ after_load ∷ [];
      }

module _ {S M W : Type 0} (v : VersionedGrain) (g : Grain S M) (ser : Serializer S)
    (version : Serializer ℕ) (store : StateStore W) (id : GrainId)
    (strategy : PersistenceStrategy) where
  -- The version metadata, written once the state is.
  save_version : Option Bytes → Task S M W → Task S M W
  unfolding version_grain_id
  save_version none t = t
  save_version (some b) t =
      let (w, r) = store.save (version_grain_id id) b t.world in
      elim r [
        | ok _ ↦ record t { world = w; log = t.log ++ stored b ∷ [] }
        | err _ ↦ record t { world = w; log = t.log ++ store_failed ∷ [] }
      ]

  save_versioned : Option Bytes → Task S M W → Task S M W
  unfolding save_version save_with_retry
  save_versioned none t = note (before_save ∷ []) t
  save_versioned (some b) t =
      let (w, done, log) = save_with_retry store id b t.world in
      let t' = record t {
        world = w;
        log = t.log ++ before_save ∷ log ++ (if done then after_save ∷ [] else []);
      } in
      if done then save_version (version.serialize v.state_version) t' else t'

  closing_versioned : Task S M W × Bool → Task S M W × Bool
  unfolding save_versioned
  closing_versioned (t, true) = (note (entry_removed ∷ []) t, true)
  closing_versioned (t, false) =
      (note (entry_removed ∷ []) (save_versioned (ser.serialize t.state) t), false)

  -- The whole task; a versioned grain has no replication sink.
  unfoldable pub run_versioned : W → ℕ → List (Wakeup M) → Option (Task S M W × Bool)
  unfolding run_lifecycle closing_versioned loaded_task
  run_versioned w now ws =
      Option.map closing_versioned (
        run_lifecycle g ser store id strategy false ws (loaded_task v g ser version store id w now))
