-- ===== src/Persistence/Mailbox/Memory.antt =====
-- The in-memory store keeps what the persistent mailbox asks of a store.
use orlando.Base.{◌≡◌, refl, ap, some, ok, lookup-insert, same_refl, ◌≢◌, arith}
use orlando.Core.Ids.{GrainId, grain_id_key}
use orlando.Persistence.Store.{Bytes, InMemoryStateStore, bump, next_etag, load, save, memory_store}
use orlando.Persistence.Mailbox.Steps.{IsReliable, IsApartFrom}

pub load-save :
    (id : GrainId) (bytes : Bytes) (st : InMemoryStateStore)
    → load id (save id bytes st) ≡ some bytes
unfolding load save bump
load-save id bytes st = rw (lookup-insert, same_refl)

pub memory_store-IsReliable : IsReliable memory_store
unfolding memory_store
memory_store-IsReliable = record {
  saves = λ id b w. (save id b w, refl, ap (λ o. (save id b w, ok o)) (load-save id b w));
}

load-save_other :
    (i j : GrainId) (b : Bytes) (st : InMemoryStateStore) → i ≢ j → load j (save i b st) ≡ load j st
unfolding load save bump
load-save_other i j b st ne = ground (arith, ne, lookup-insert i j (b, next_etag st) st.entries)

pub memory_store-IsApartFrom : IsApartFrom memory_store memory_store
unfolding memory_store
memory_store-IsApartFrom = record {
  keeps = λ i j b o w ne h. ground (arith, h, load-save_other i j b w ne);
}
