-- ===== src/Tests/Grains.antt =====
-- The properties of versioned grains, of transactions and of facets at concrete inputs.
use orlando.Base.{
  ℕ, ◌+◌, ◌==◌, ◌≡◌, refl, true, [], ◌∷◌, ◌++◌, Option, none, some, Result, ok, err, if◌then◌else◌,
  lookup,
}
use orlando.Core.Ids.{GrainId, grain_id_key}
use orlando.Core.Mailbox.{returned, panicked, Grain}
use orlando.Persistence.Store.{
  Bytes, PersistenceError, io, InMemoryStateStore, new, load, memory_store,
}
use orlando.Persistence.Mailbox.{write_through, Serializer, message, Task}
use orlando.Persistence.Mailbox.Steps.{IsLossless, arrivals}
use orlando.Persistence.Mailbox.Memory.{memory_store-IsReliable, memory_store-IsApartFrom}
use orlando.Persistence.Versioned.{
  VersionedGrain, load_versioned_state, upgraded, run_versioned, loaded_task, stored_version,
}
use orlando.Persistence.Versioned.Recovers.{run_versioned_remigrates}
use orlando.Persistence.Silo.{bincode, json, Codec}
use orlando.Persistence.Transaction.{read_state, transact_all}
use orlando.Persistence.Transaction.Rollback.{
  committed, left_by, transact_all-committed, kept, last_point, checkpointing, Stores,
  transact_all-checkpoints,
}
use orlando.Persistence.Facet.{FacetContext}

abbrev cart : GrainId
cart = record { type_name = 0x43 ∷ []; key = 0x31 ∷ [] }

abbrev counter : Grain ℕ ℕ
counter = record {
  default_state = 0;
  on_activate = λ s. (s, returned);
  handle = λ m s. if m == 13 then (s, panicked) else (s + m, returned);
  on_deactivate = λ s. (s + 100, returned);
}

abbrev first_byte : Bytes → Option ℕ
first_byte [] = none
first_byte (b ∷ bs) = some b

abbrev one_byte : Serializer ℕ
one_byte = record { serialize = λ s. some (s ∷ []); deserialize = first_byte }

one_byte-IsLossless : IsLossless one_byte
one_byte-IsLossless = record { encodes = λ s. (s ∷ [], refl, refl) }

-- A migration that doubles the first byte.
abbrev doubled : Bytes → Bytes
doubled [] = []
doubled (b ∷ bs) = (b + b) ∷ bs

abbrev version_of : ℕ → VersionedGrain
version_of n = record { state_version = n; migrate = λ from bytes. ok (doubled bytes) }

-- A new grain counts to 2, panics, and is loaded as 4.
run_versioned_remigrates_example :
    (t : Task ℕ ℕ InMemoryStateStore) × (b : Bytes) × (run_versioned
        (version_of 1)
        counter
        one_byte
        one_byte
        memory_store
        cart
        write_through
        new
        0
        (arrivals counter one_byte memory_store cart ((2, 1) ∷ []) ++ message 13 5 ∷ [])
      ≡ some (t, true))
    × (one_byte.deserialize b ≡ some 2)
    × (load_versioned_state (version_of 1) one_byte one_byte memory_store cart t.world
        ≡ (t.world, upgraded (version_of 1) one_byte 0 (ok (some b))))
unfolding new load lookup memory_store loaded_task load_versioned_state stored_version
run_versioned_remigrates_example =
    run_versioned_remigrates (version_of 1) counter one_byte one_byte memory_store cart
      memory_store-IsReliable memory_store-IsApartFrom one_byte-IsLossless new 0 0 none 2 13 1 5 []
      2 [] refl refl refl (refl, refl) refl

-- Adds, and fails on 13 once the state is changed.
abbrev adds : ℕ → ℕ → ℕ × Result PersistenceError ℕ
adds m s = if m == 13 then (s + 13, err io) else (s + m, ok s)

transact_all-committed_example :
    left_by adds (2 ∷ 13 ∷ 3 ∷ []) 0 new ≡ left_by adds (committed adds (2 ∷ 13 ∷ 3 ∷ []) 0) 0 new
transact_all-committed_example = transact_all-committed adds (2 ∷ 13 ∷ 3 ∷ []) 0 new

-- Bincode is one byte; JSON reads no single byte.
abbrev second_byte : Bytes → Option ℕ
second_byte [] = none
second_byte (b ∷ bs) = first_byte bs

abbrev codec : Codec ℕ
codec bincode = one_byte
codec json = record { serialize = λ s. some (0 ∷ s ∷ []); deserialize = second_byte }

-- Adds, checkpoints what it adds to, and fails on 13.
abbrev pointed : ℕ → ℕ → ℕ × Option ℕ × Result PersistenceError ℕ
pointed m s = (s + m, some (s + m), if m == 13 then err io else ok s)

-- The failed message's state 15 stays in the store, while the grain has 2.
transact_all-checkpoints_example :
    ((transact_all (checkpointing pointed codec memory_store cart) (2 ∷ 13 ∷ []) 0 new).0 ≡ 2)
    × ((read_state codec memory_store cart
          (transact_all (checkpointing pointed codec memory_store cart) (2 ∷ 13 ∷ []) 0 new).1).1
        ≡ ok (some 15))
unfolding kept last_point Stores
transact_all-checkpoints_example =
    transact_all-checkpoints pointed codec memory_store cart memory_store-IsReliable
      one_byte-IsLossless (2 ∷ 13 ∷ []) 0 new

abbrev facets : FacetContext InMemoryStateStore
facets = record {
  grain_id = cart;
  facets =
      (1 ∷ [], record { name = 1 ∷ []; store = memory_store; serializer = bincode })
      ∷ (2 ∷ [], record { name = 2 ∷ []; store = memory_store; serializer = json })
      ∷ [];
}
