-- ===== src/Persistence/Store.antt =====
-- crates/orlando-persistence/src/store.rs: the interface of a state store; memory_store.rs: its
-- in-memory implementation.
pub mod Etags
use mathlib.Core.Option
use orlando.Base.{
  ℕ, suc, ◌+◌, ◌%◌, ◌^◌, List, [], ◌∷◌, Option, none, some, Key, same, if◌then◌else◌, lookup,
  insert, remove, Result, ok, err, show,
}
use orlando.Core.Ids.{Text, text_key, GrainId, grain_id_key}

abbrev pub Bytes : Type 0
Bytes = List ℕ

abbrev pub ETag : Type 0
ETag = Text

-- The causes that a backend reports are not kept.
pub data PersistenceError : Type 0 where
  serialization deserialization io sqlite postgres migration : PersistenceError
  etag_mismatch : (expected actual : Option ETag) → PersistenceError

-- The trait `StateStore`: each operation hands back the store as it leaves it.
pub record StateStore (W : Type 0) : Type 0 where
  pub load : GrainId → W → W × Result PersistenceError (Option Bytes)
  pub save : GrainId → Bytes → W → W × Result PersistenceError (Unit {0})
  pub delete : GrainId → W → W × Result PersistenceError (Unit {0})
  pub load_with_etag : GrainId → W → W × Result PersistenceError (Option (Bytes × ETag))
  pub save_with_etag : GrainId → Bytes → Option ETag → W → W × Result PersistenceError ETag

pub record InMemoryStateStore : Type 0 where
  pub entries : List (GrainId × (Bytes × ETag))
  pub version : ℕ

unfoldable pub new : InMemoryStateStore
new = record { entries = []; version = 1 }

-- `version.fetch_add(1)` on an `AtomicU64` wraps around.
unfoldable pub bump : InMemoryStateStore → InMemoryStateStore
bump st = record st { version = (st.version + 1) % 2 ^ 64 }

unfoldable pub next_etag : InMemoryStateStore → ETag
next_etag st = show st.version

unfoldable pub load : GrainId → InMemoryStateStore → Option Bytes
load id st = Option.map (λ e. e.0) (lookup id st.entries)

unfoldable pub save : GrainId → Bytes → InMemoryStateStore → InMemoryStateStore
unfolding next_etag bump
save id bytes st =
    let st' = bump st in record st' { entries = insert id (bytes, next_etag st) st.entries }

unfoldable pub delete : GrainId → InMemoryStateStore → InMemoryStateStore
delete id st = record st { entries = remove id st.entries }

unfoldable pub load_with_etag : GrainId → InMemoryStateStore → Option (Bytes × ETag)
load_with_etag id st = lookup id st.entries

-- The `match` on the expected and the stored etag.
unfoldable pub conflict : Option ETag → Option (Bytes × ETag) → Option PersistenceError
conflict none none = none
conflict none (some (_, actual)) = some (etag_mismatch none (some actual))
conflict (some expected) none = some (etag_mismatch (some expected) none)
conflict (some expected) (some (_, actual)) =
    if same expected actual then none else some (etag_mismatch (some expected) (some actual))

-- The etag is drawn before the test, so a refused write uses one up.
unfoldable pub save_with_etag :
    GrainId
    → Bytes
    → Option ETag
    → InMemoryStateStore
    → InMemoryStateStore × Result PersistenceError ETag
unfolding conflict next_etag bump
save_with_etag id bytes expected st = elim (conflict expected (lookup id st.entries)) [
  | some e ↦ (bump st, err e)
  | none ↦
      let st' = bump st in
      (record st' { entries = insert id (bytes, next_etag st) st.entries }, ok (next_etag st))
]

-- The in-memory store as an implementation of the trait.
unfoldable pub memory_store : StateStore InMemoryStateStore
memory_store = record {
  load = λ id st. (st, ok (load id st));
  save = λ id bytes st. (save id bytes st, ok tt);
  delete = λ id st. (delete id st, ok tt);
  load_with_etag = λ id st. (st, ok (load_with_etag id st));
  save_with_etag = save_with_etag;
}
