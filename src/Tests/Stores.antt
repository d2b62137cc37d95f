-- ===== src/Tests/Stores.antt =====
-- The properties of the in-memory store and of the persistent mailbox at concrete inputs.
use orlando.Base.{
  ℕ, ◌+◌, ◌==◌, ◌≡◌, refl, true, List, [], ◌∷◌, ◌++◌, Option, none, some, ok, err, arith,
  if◌then◌else◌, lookup, insert, show, ℕ_discrete,
}
use orlando.Core.Ids.{GrainId, GrainId-discrete, grain_id_key}
use orlando.Core.Mailbox.{returned, panicked, Grain}
use orlando.Persistence.Store.{
  Bytes, etag_mismatch, InMemoryStateStore, new, bump, next_etag, load, save, load_with_etag,
  save_with_etag, memory_store,
}
use orlando.Persistence.Store.Etags.{
  IsValid, HasRoom, new-IsValid, save-IsValid, save_with_etag-excludes,
}
use orlando.Persistence.Mailbox.{
  write_through, Serializer, message, no_senders, Task, run, load_or_default,
}
use orlando.Persistence.Mailbox.Steps.{IsLossless, arrivals}
use orlando.Persistence.Mailbox.Memory.{memory_store-IsReliable}
use orlando.Persistence.Mailbox.Recovers.{run_panicked_recovers}

abbrev cart : GrainId
cart = record { type_name = 0x43 ∷ []; key = 0x31 ∷ [] }

-- One entry, under the etag "1".
abbrev one_entry : InMemoryStateStore
one_entry = save cart (7 ∷ []) new

abbrev etag_one : List ℕ
etag_one = show 1

one_entry-IsValid : IsValid one_entry
unfolding new
one_entry-IsValid = save-IsValid new cart (7 ∷ []) new-IsValid (omega arith)

one_entry-HasRoom : HasRoom one_entry
unfolding new save bump
one_entry-HasRoom = omega arith

one_entry_etag : load_with_etag cart one_entry ≡ some (7 ∷ [], etag_one)
unfolding new save bump load_with_etag next_etag lookup insert GrainId-discrete ℕ_discrete
one_entry_etag = refl

save_with_etag-excludes_example :
    let won = save_with_etag cart (8 ∷ []) (some etag_one) one_entry in
    let lost = save_with_etag cart (9 ∷ []) (some etag_one) won.0 in
    (won.1 ≡ ok (next_etag one_entry))
    × (lost.1 ≡ err (etag_mismatch (some etag_one) (some (next_etag one_entry))))
    × (load cart lost.0 ≡ some (8 ∷ []))
save_with_etag-excludes_example =
    save_with_etag-excludes one_entry cart (7 ∷ []) (8 ∷ []) (9 ∷ []) etag_one one_entry-IsValid
      one_entry-HasRoom one_entry_etag

-- A counter that panics on 13.
abbrev counter : Grain ℕ ℕ
counter = record {
  default_state = 0;
  on_activate = λ s. (s, returned);
  handle = λ m s. if m == 13 then (s, panicked) else (s + m, returned);
  on_deactivate = λ s. (s + 100, returned);
}

abbrev first_byte : Bytes → Option ℕ
first_byte [] = none
first_byte (b ∷ bs) = some b

abbrev one_byte : Serializer ℕ
one_byte = record { serialize = λ s. some (s ∷ []); deserialize = first_byte }

one_byte-IsLossless : IsLossless one_byte
one_byte-IsLossless = record { encodes = λ s. (s ∷ [], refl, refl) }

run_panicked_recovers_example :
    (t : Task ℕ ℕ InMemoryStateStore) × (run counter one_byte memory_store cart write_through true
        new 0
        (arrivals counter one_byte memory_store cart ((2, 1) ∷ (3, 4) ∷ [])
          ++ message 13 5 ∷ no_senders ∷ [])
      ≡ some (t, true))
    × (load_or_default {M = ℕ} counter one_byte memory_store cart t.world ≡ (5, t.world, []))
unfolding new load lookup memory_store load_or_default
run_panicked_recovers_example =
    run_panicked_recovers counter one_byte memory_store cart memory_store-IsReliable
      one_byte-IsLossless true new 0 2 13 1 5 ((3, 4) ∷ []) 5 (no_senders ∷ []) refl
      (refl, (refl, refl)) refl
