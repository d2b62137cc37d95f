-- ===== src/Persistence/FileStore/Reads.antt =====
-- What the file store reads back, on a file system that works.
use orlando.Base.{
  ◌+◌, ◌%◌, ◌^◌, Bool, true, false, ◌≡◌, ◌≢◌, refl, ap, ◌∙◌, Option, none, some, Result, ok, err,
  show, All, ◌<◌,
}
use orlando.Core.Ids.{Text, GrainId}
use orlando.Persistence.Store.{Bytes, ETag, PersistenceError}
use orlando.Persistence.Mailbox.Steps.{IsReliable}
use orlando.Persistence.FileStore.{
  FileSystem, FileStateStore, path_for, etag_path_for, next_etag, read_file, as_io, made, written,
  write_file, renew_etag, etag_written, data_written, store_new, save, without_etag, load,
  load_with_etag, found, found_etag, read_etag, file_store,
}

-- `contents` says what is in a file: a read gives it, as a text too where it is ASCII, a write sets it
-- and leaves other files alone, and a new directory leaves them all alone.
pub record IsWorking {P W : Type 0} (fs : FileSystem P W) (contents : P → W → Option Bytes)
    : Type 0 where
  pub reads : (p : P) (w : W) → fs.read p w ≡ (w, ok (contents p w))
  pub reads_text :
      (p : P) (w : W) (t : Text)
      → contents p w ≡ some t
      → All (λ c. c < 128) t
      → fs.read_to_string p w ≡ (w, ok (some t))
  pub makes : (p : P) (w : W) → (fs.create_dir_all p w).1 ≡ true
  pub makes_keeps : (p q : P) (w : W) → contents q (fs.create_dir_all p w).0 ≡ contents q w
  pub writes : (p : P) (b : Bytes) (w : W) → (fs.write p b w).1 ≡ true
  pub reads_back : (p : P) (b : Bytes) (w : W) → contents p (fs.write p b w).0 ≡ some b
  pub writes_keep :
      (p q : P) (b : Bytes) (w : W) → q ≢ p → contents q (fs.write p b w).0 ≡ contents q w

-- The two files of a grain are two.
abbrev pub HasTwoFiles : {P W : Type 0} → FileSystem P W → Type 0
HasTwoFiles {P} fs = (base : P) (id : GrainId) → path_for fs base id ≢ etag_path_for fs base id

module _ {P W : Type 0} (fs : FileSystem P W) (contents : P → W → Option Bytes)
    (works : IsWorking fs contents) where
  written_lem :
      (p : P) (b : Bytes) (r : W × Bool) (w : W)
      → r.1 ≡ true
      → ((q : P) → contents q r.0 ≡ contents q w)
      → ((written fs p b r).1 ≡ true)
        × (contents p (written fs p b r).0 ≡ some b)
        × ((q : P) → q ≢ p → contents q (written fs p b r).0 ≡ contents q w)
  unfolding written
  written_lem p b (w', true) w e h =
      (works.writes p b w', works.reads_back p b w', λ q ne. works.writes_keep p q b w' ne ∙ h q)
  written_lem p b (w', false) w e h = absurd (cc)

  pub write_file_lem :
      (p : P) (b : Bytes) (w : W)
      → ((write_file fs p b w).1 ≡ true)
        × (contents p (write_file fs p b w).0 ≡ some b)
        × ((q : P) → q ≢ p → contents q (write_file fs p b w).0 ≡ contents q w)
  unfolding write_file
  write_file_lem p b w =
      written_lem p b (made fs (fs.parent p) w) w (made_true (fs.parent p) w)
        (λ q. made_keeps (fs.parent p) q w)
    where
      made_true : (o : Option P) (w : W) → (made fs o w).1 ≡ true
      made_true none w = refl
      made_true (some d) w = works.makes d w

      made_keeps : (o : Option P) (q : P) (w : W) → contents q (made fs o w).0 ≡ contents q w
      made_keeps none q w = refl
      made_keeps (some d) q w = works.makes_keeps d q w

  module _ (two : HasTwoFiles fs) where
    -- What a write of state leaves: the bytes, under the next etag of this process.
    pub record Stored (id : GrainId) (b : Bytes) (s : FileStateStore P)
        (t : (FileStateStore P × W) × Result PersistenceError ETag) : Type 0 where
      pub answers : t.1 ≡ ok (show s.version)
      pub counts : t.0.0 ≡ record s { version = (s.version + 1) % 2 ^ 64 }
      pub keeps_state : contents (path_for fs s.base_dir id) t.0.1 ≡ some b
      pub keeps_etag : contents (etag_path_for fs s.base_dir id) t.0.1 ≡ some (show s.version)

    etag_written-Stored :
        (id : GrainId) (b : Bytes) (s : FileStateStore P) (r : W × Bool)
        → r.1 ≡ true
        → contents (path_for fs s.base_dir id) r.0 ≡ some b
        → contents (etag_path_for fs s.base_dir id) r.0 ≡ some (show s.version)
        → Stored id b s (etag_written fs (next_etag fs s).0 (next_etag fs s).1 r)
    unfolding etag_written next_etag
    etag_written-Stored id b s (w, true) e h k = record {
      answers = refl;
      counts = refl;
      keeps_state = h;
      keeps_etag = k;
    }
    etag_written-Stored id b s (w, false) e h k = absurd (cc)

    data_written-Stored :
        (id : GrainId) (b : Bytes) (s : FileStateStore P) (r : W × Bool)
        → r.1 ≡ true
        → contents (path_for fs s.base_dir id) r.0 ≡ some b
        → Stored id b s (data_written fs id s r)
    unfolding data_written renew_etag
    data_written-Stored id b s (w, true) e h =
        let (done, back, others) =
          write_file_lem (etag_path_for fs s.base_dir id) (show s.version) w in
        etag_written-Stored id b s _ done
          (others (path_for fs s.base_dir id) (two s.base_dir id) ∙ h) back
    data_written-Stored id b s (w, false) e h = absurd (cc)

    pub store_new-Stored :
        (id : GrainId) (b : Bytes) (s : FileStateStore P) (w : W)
        → Stored id b s (store_new fs id b (s, w))
    unfolding store_new
    store_new-Stored id b s w =
        let (done, back, _) = write_file_lem (path_for fs s.base_dir id) b w in
        data_written-Stored id b s _ done back

    load_lem :
        (id : GrainId) (s : FileStateStore P) (w : W)
        → load fs id (s, w) ≡ ((s, w), ok (contents (path_for fs s.base_dir id) w))
    unfolding load read_file as_io
    load_lem id s w = rw (works.reads (path_for fs s.base_dir id) w) refl

    pub load_with_etag_lem :
        (id : GrainId) (b : Bytes) (etag : ETag) (s : FileStateStore P) (w : W)
        → contents (path_for fs s.base_dir id) w ≡ some b
        → contents (etag_path_for fs s.base_dir id) w ≡ some etag
        → All (λ c. c < 128) etag
        → load_with_etag fs id (s, w) ≡ ((s, w), ok (some (b, etag)))
    unfolding load_with_etag found found_etag read_etag read_file as_io
    load_with_etag_lem id b etag s w h k ascii =
        rw
          (
            works.reads (path_for fs s.base_dir id) w,
            h,
            works.reads_text (etag_path_for fs s.base_dir id) w etag k ascii,
          )
          refl

    save-load :
        (id : GrainId) (b : Bytes) (s : FileStateStore P)
        (t : (FileStateStore P × W) × Result PersistenceError ETag)
        → Stored id b s t
        → (without_etag fs t ≡ (t.0, ok tt)) × (load fs id t.0 ≡ (t.0, ok (some b)))
    unfolding without_etag
    save-load id b s ((s', w), ok etag) k =
        let same_base : s'.base_dir ≡ s.base_dir =
          ap (λ (x : FileStateStore P). x.base_dir) k.counts in
        let there : contents (path_for fs s'.base_dir id) w ≡ some b = rw same_base k.keeps_state in
        (refl, load_lem id s' w ∙ rw there refl)
    save-load id b s ((s', w), err e) k = let no = k.answers in absurd (cc)

    -- On a file system that works, and where the two files of a grain are two, every save goes through
    -- and a load gives what was saved last: what the persistent mailbox asks of a store.
    pub file_store-IsReliable : IsReliable (file_store fs)
    unfolding file_store save
    file_store-IsReliable = record {
      saves = λ id b st.
          let t = store_new fs id b st in
          let (wrote, reads) = save-load id b st.0 t (store_new-Stored id b st.0 st.1) in
          (t.0, wrote, reads);
    }
