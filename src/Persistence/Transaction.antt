-- ===== src/Persistence/Transaction.antt =====
-- crates/orlando-persistence/src/transaction.rs: the store access of a transactional handler;
-- persistent_silo.rs: the message of a transactional grain (`TransactionalGrainRef::ask`), and
-- multi_transaction.rs: what a coordinator answers. The store is any implementation of the trait; a
-- handler is a function of the state, the message and the store.
pub mod Rollback
use mathlib.Core.Option
use orlando.Base.{ℕ, List, [], ◌∷◌, Option, none, some, Result, ok, err}
use orlando.Core.Ids.{Text, GrainId}
use orlando.Persistence.Store.{
  Bytes, ETag, PersistenceError, serialization, deserialization, StateStore,
}
use orlando.Persistence.Silo.{Codec, bincode}

-- `serialize_state` is bincode, whatever the format is with which the mailbox reads the grain's store.
module _ {S W : Type 0} (codec : Codec S) (store : StateStore W) (id : GrainId) where
  saved_bytes : Option Bytes → W → W × Result PersistenceError (Unit {0})
  saved_bytes none w = (w, err serialization)
  saved_bytes (some b) w = store.save id b w

  -- `save_state`
  unfoldable pub save_state : S → W → W × Result PersistenceError (Unit {0})
  unfolding saved_bytes
  save_state s w = saved_bytes ((codec bincode).serialize s) w

  read_bytes : Result PersistenceError (Option Bytes) → Result PersistenceError (Option S)
  read_bytes (ok none) = ok none
  read_bytes (ok (some b)) = elim ((codec bincode).deserialize b) [
    | none ↦ err deserialization
    | some s ↦ ok (some s)
  ]
  read_bytes (err e) = err e

  -- `read_state`
  unfoldable pub read_state : W → W × Result PersistenceError (Option S)
  unfolding read_bytes
  read_state w = let (w', r) = store.load id w in (w', read_bytes r)

  saved_tagged : Option Bytes → Option ETag → W → W × Result PersistenceError ETag
  saved_tagged none expected w = (w, err serialization)
  saved_tagged (some b) expected w = store.save_with_etag id b expected w

  -- `save_with_etag`
  unfoldable pub save_tagged : S → Option ETag → W → W × Result PersistenceError ETag
  unfolding saved_tagged
  save_tagged s expected w = saved_tagged ((codec bincode).serialize s) expected w

tag_of : Result PersistenceError (Option (Bytes × ETag)) → Result PersistenceError (Option ETag)
tag_of (ok none) = ok none
tag_of (ok (some (_, etag))) = ok (some etag)
tag_of (err e) = err e

module _ {W : Type 0} (store : StateStore W) (id : GrainId) where
  unfoldable pub clear_state : W → W × Result PersistenceError (Unit {0})
  clear_state w = store.delete id w

  unfoldable pub load_etag : W → W × Result PersistenceError (Option ETag)
  unfolding tag_of
  load_etag w = let (w', r) = store.load_with_etag id w in (w', tag_of r)

module _ {S M R W : Type 0} (handle : M → S → W → S × W × Result PersistenceError R) where
  replied : S → S × W × Result PersistenceError R → S × W × Result PersistenceError R
  replied snapshot (s, w, ok r) = (s, w, ok r)
  replied snapshot (s, w, err e) = (snapshot, w, err e)

  -- One message: the state goes back to its snapshot when the handler fails.
  unfoldable pub transact : M → S → W → S × W × Result PersistenceError R
  unfolding replied
  transact m s w = replied s (handle m s w)

  -- The messages of a mailbox one after the other, with their replies.
  unfoldable pub transact_all : List M → S → W → S × W × List (Result PersistenceError R)
  transact_all [] s w = (s, w, [])
  transact_all (m ∷ ms) s w =
      let (s', w', r) = transact m s w in
      let (s'', w'', rs) = transact_all ms s' w' in (s'', w'', r ∷ rs)

pub data TransactionError (E : Type 0) : Type 0 where
  aborted : (tx_id : Text) → E → TransactionError E
  timed_out : (tx_id : Text) (timeout : ℕ) → TransactionError E

-- `execute`, from what the closure gave within the timeout, if anything.
unfoldable pub execute :
    {E T : Type 0} → Text → ℕ → Option (Result E T) → Result (TransactionError E) T
execute tx_id timeout (some (ok value)) = ok value
execute tx_id timeout (some (err e)) = err (aborted tx_id e)
execute tx_id timeout none = err (timed_out tx_id timeout)
