-- ===== src/Persistence/FileStore.antt =====
-- crates/orlando-persistence/src/file_store.rs: the store that keeps each state in a file and its etag
-- in a second one. The file system and the paths are the standard library's and a parameter.
pub mod Reads
pub mod Restarts
use mathlib.Core.Option
use orlando.Base.{
  ℕ, ◌+◌, ◌%◌, ◌^◌, ◌==◌, ◌&&◌, Bool, true, false, List, [], ◌∷◌, ◌++◌, Option, none, some,
  if◌then◌else◌, Result, ok, err, show,
}
use orlando.Core.Ids.{Text, GrainId}
use orlando.Persistence.Store.{Bytes, ETag, PersistenceError, io, StateStore, conflict}

-- A read or a removal says `none` where nothing is found; other failures keep no cause.
-- `read_to_string` fails on bytes that are not UTF-8.
pub record FileSystem (P W : Type 0) : Type 0 where
  pub join : P → Text → P
  pub parent : P → Option P
  pub create_dir_all : P → W → W × Bool
  pub read : P → W → W × Result (Unit {0}) (Option Bytes)
  pub read_to_string : P → W → W × Result (Unit {0}) (Option Text)
  pub write : P → Bytes → W → W × Bool
  pub remove_file : P → W → W × Result (Unit {0}) (Option (Unit {0}))

-- The directory of the store and the counter of its etags, which each process begins at 1.
pub record FileStateStore (P : Type 0) : Type 0 where
  pub base_dir : P
  pub version : ℕ

unfoldable pub new : {P : Type 0} → P → FileStateStore P
new base_dir = record { base_dir = base_dir; version = 1 }

-- `replace("::", "__")`
unfoldable pub sanitized : Text → Text
sanitized [] = []
sanitized (x ∷ []) = x ∷ []
sanitized (x ∷ y ∷ t) =
    let rest = 0x5f ∷ 0x5f ∷ sanitized t in
    let shorter = x ∷ sanitized (y ∷ t) in if (x == 0x3a) && (y == 0x3a) then rest else shorter

module _ {P W : Type 0} (fs : FileSystem P W) where
  -- ".bin" and ".etag"
  unfoldable pub path_for : P → GrainId → P
  unfolding sanitized
  path_for base id =
      fs.join (fs.join base (sanitized id.type_name)) (id.key ++ 0x2e ∷ 0x62 ∷ 0x69 ∷ 0x6e ∷ [])

  unfoldable pub etag_path_for : P → GrainId → P
  unfolding sanitized
  etag_path_for base id =
      fs.join (fs.join base (sanitized id.type_name))
        (id.key ++ 0x2e ∷ 0x65 ∷ 0x74 ∷ 0x61 ∷ 0x67 ∷ [])

  unfoldable pub next_etag : FileStateStore P → FileStateStore P × ETag
  next_etag s = (record s { version = (s.version + 1) % 2 ^ 64 }, show s.version)

  as_io : {A : Type 0} → Result (Unit {0}) A → Result PersistenceError A
  as_io (ok a) = ok a
  as_io (err e) = err io

  unfoldable pub read_file : P → W → W × Result PersistenceError (Option Bytes)
  unfolding as_io
  read_file path w = let (w', r) = fs.read path w in (w', as_io r)

  made : Option P → W → W × Bool
  made none w = (w, true)
  made (some dir) w = fs.create_dir_all dir w

  written : P → Bytes → W × Bool → W × Bool
  written path bytes (w, true) = fs.write path bytes w
  written path bytes (w, false) = (w, false)

  -- The directory is made and the file written.
  unfoldable pub write_file : P → Bytes → W → W × Bool
  unfolding made written
  write_file path bytes w = written path bytes (made (fs.parent path) w)

  abbrev pub State : Type 0
  State = FileStateStore P × W

  unfoldable pub read_etag : GrainId → State → W × Result PersistenceError (Option ETag)
  unfolding as_io
  read_etag id (s, w) =
      let (w', r) = fs.read_to_string (etag_path_for s.base_dir id) w in (w', as_io r)

  etag_written : FileStateStore P → ETag → W × Bool → State × Result PersistenceError ETag
  etag_written s etag (w, true) = ((s, w), ok etag)
  etag_written s etag (w, false) = ((s, w), err io)

  -- A new etag is drawn and written.
  unfoldable pub renew_etag : GrainId → State → State × Result PersistenceError ETag
  unfolding next_etag etag_written write_file
  renew_etag id (s, w) =
      let (s', etag) = next_etag s in
      etag_written s' etag (write_file (etag_path_for s.base_dir id) etag w)

  unfoldable pub load : GrainId → State → State × Result PersistenceError (Option Bytes)
  unfolding read_file
  load id (s, w) = let (w', r) = read_file (path_for s.base_dir id) w in ((s, w'), r)

  data_written : GrainId → FileStateStore P → W × Bool → State × Result PersistenceError ETag
  unfolding renew_etag
  data_written id s (w, true) = renew_etag id (s, w)
  data_written id s (w, false) = ((s, w), err io)

  -- The state, then a new etag.
  unfoldable pub store_new : GrainId → Bytes → State → State × Result PersistenceError ETag
  unfolding data_written write_file
  store_new id bytes (s, w) = data_written id s (write_file (path_for s.base_dir id) bytes w)

  without_etag : State × Result PersistenceError ETag → State × Result PersistenceError (Unit {0})
  without_etag (st, ok etag) = (st, ok tt)
  without_etag (st, err e) = (st, err e)

  unfoldable pub save : GrainId → Bytes → State → State × Result PersistenceError (Unit {0})
  unfolding store_new without_etag
  save id bytes st = without_etag (store_new id bytes st)

  removed :
      {A : Type 0}
      → FileStateStore P
      → W × Result (Unit {0}) A
      → State × Result PersistenceError (Unit {0})
  removed s (w, ok _) = ((s, w), ok tt)
  removed s (w, err e) = ((s, w), err io)

  and_etag :
      GrainId
      → State × Result PersistenceError (Unit {0})
      → State × Result PersistenceError (Unit {0})
  unfolding removed
  and_etag id ((s, w), ok _) = removed s (fs.remove_file (etag_path_for s.base_dir id) w)
  and_etag id (st, err e) = (st, err e)

  unfoldable pub delete : GrainId → State → State × Result PersistenceError (Unit {0})
  unfolding removed and_etag
  delete id (s, w) = and_etag id (removed s (fs.remove_file (path_for s.base_dir id) w))

  with_etag :
      Bytes
      → State × Result PersistenceError ETag
      → State × Result PersistenceError (Option (Bytes × ETag))
  with_etag bytes (st, ok etag) = (st, ok (some (bytes, etag)))
  with_etag bytes (st, err e) = (st, err e)

  -- Data without an etag gets one.
  found_etag :
      GrainId
      → Bytes
      → FileStateStore P
      → W × Result PersistenceError (Option ETag)
      → State × Result PersistenceError (Option (Bytes × ETag))
  unfolding with_etag renew_etag
  found_etag id bytes s (w, ok (some etag)) = ((s, w), ok (some (bytes, etag)))
  found_etag id bytes s (w, ok none) = with_etag bytes (renew_etag id (s, w))
  found_etag id bytes s (w, err e) = ((s, w), err e)

  found :
      GrainId
      → FileStateStore P
      → W × Result PersistenceError (Option Bytes)
      → State × Result PersistenceError (Option (Bytes × ETag))
  unfolding found_etag read_etag
  found id s (w, ok none) = ((s, w), ok none)
  found id s (w, ok (some bytes)) = found_etag id bytes s (read_etag id (s, w))
  found id s (w, err e) = ((s, w), err e)

  unfoldable pub load_with_etag :
      GrainId → State → State × Result PersistenceError (Option (Bytes × ETag))
  unfolding found read_file
  load_with_etag id (s, w) = found id s (read_file (path_for s.base_dir id) w)

  -- The `match` on the expected and the stored etag, as in the in-memory store; of what is stored only
  -- the etag is looked at.
  checked :
      GrainId
      → Bytes
      → Option ETag
      → FileStateStore P
      → W × Result PersistenceError (Option ETag)
      → State × Result PersistenceError ETag
  unfolding store_new
  checked id bytes expected s (w, err e) = ((s, w), err e)
  checked id bytes expected s (w, ok current) =
      elim (conflict expected (Option.map (λ etag. ([], etag)) current)) [
        | some e ↦ ((s, w), err e)
        | none ↦ store_new id bytes (s, w)
      ]

  unfoldable pub save_with_etag :
      GrainId → Bytes → Option ETag → State → State × Result PersistenceError ETag
  unfolding checked read_etag
  save_with_etag id bytes expected (s, w) = checked id bytes expected s (read_etag id (s, w))

  -- The file store as an implementation of the trait.
  unfoldable pub file_store : StateStore (FileStateStore P × W)
  file_store = record {
    load = load;
    save = save;
    delete = delete;
    load_with_etag = load_with_etag;
    save_with_etag = save_with_etag;
  }
