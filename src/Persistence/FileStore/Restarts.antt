-- ===== src/Persistence/FileStore/Restarts.antt =====
-- What a restart of the process does to the etags.
use orlando.Base.{
  ◌≡◌, refl, ap, ◌∙◌, [], Option, none, some, Result, ok, show, same_refl, All, ◌<◌, show_ascii,
}
use orlando.Core.Ids.{GrainId, text_key}
use orlando.Persistence.Store.{Bytes, ETag, PersistenceError, conflict}
use orlando.Persistence.FileStore.{
  FileSystem, FileStateStore, new, path_for, etag_path_for, store_new, load_with_etag,
  save_with_etag, checked, read_etag, read_file, as_io,
}
use orlando.Persistence.FileStore.Reads.{
  IsWorking, HasTwoFiles, Stored, store_new-Stored, load_with_etag_lem,
}

conflict_same : (etag : ETag) → conflict (some etag) (some ([], etag)) ≡ none
unfolding conflict
conflict_same etag = rw (same_refl etag) refl

module _ {P W : Type 0} (fs : FileSystem P W) (contents : P → W → Option Bytes)
    (works : IsWorking fs contents) (two : HasTwoFiles fs) where
  checked_current :
      (id : GrainId) (b : Bytes) (etag : ETag) (s : FileStateStore P) (w : W)
      → checked fs id b (some etag) s (w, ok (some etag)) ≡ store_new fs id b (s, w)
  unfolding checked store_new
  checked_current id b etag s w = rw (checked, conflict_same etag) refl

  save_with_etag_current :
      (id : GrainId) (b : Bytes) (etag : ETag) (s : FileStateStore P) (w : W)
      → contents (etag_path_for fs s.base_dir id) w ≡ some etag
      → All (λ c. c < 128) etag
      → save_with_etag fs id b (some etag) (s, w) ≡ store_new fs id b (s, w)
  unfolding save_with_etag read_etag read_file as_io
  save_with_etag_current id b etag s w h ascii =
      rw (works.reads_text (etag_path_for fs s.base_dir id) w etag h ascii)
        (checked_current id b etag s w)

  load-Stored :
      (id : GrainId) (b : Bytes) (s : FileStateStore P)
      (t : (FileStateStore P × W) × Result PersistenceError ETag)
      → Stored fs contents works two id b s t
      → load_with_etag fs id t.0 ≡ (t.0, ok (some (b, show s.version)))
  load-Stored id b s ((s', w), r) k =
      let same_base : s'.base_dir ≡ s.base_dir =
        ap (λ (x : FileStateStore P). x.base_dir) k.counts in
      let data_there : contents (path_for fs s'.base_dir id) w ≡ some b =
        rw same_base k.keeps_state in
      let etag_there : contents (etag_path_for fs s'.base_dir id) w ≡ some (show s.version) =
        rw same_base k.keeps_etag in
      load_with_etag_lem fs contents works two id b (show s.version) s' w data_there etag_there
        (show_ascii s.version)

  save-Stored :
      (id : GrainId) (b mine : Bytes) (s : FileStateStore P)
      (t : (FileStateStore P × W) × Result PersistenceError ETag)
      → Stored fs contents works two id b s t
      → save_with_etag fs id mine (some (show s.version)) t.0 ≡ store_new fs id mine t.0
  save-Stored id b mine s ((s', w), r) k =
      let same_base : s'.base_dir ≡ s.base_dir =
        ap (λ (x : FileStateStore P). x.base_dir) k.counts in
      let etag_there : contents (etag_path_for fs s'.base_dir id) w ≡ some (show s.version) =
        rw same_base k.keeps_etag in
      save_with_etag_current id mine (show s.version) s' w etag_there (show_ascii s.version)

  -- A process that has just started saves a state, and a reader takes it with its etag. The process is
  -- started again and saves another state: it gets the same etag, so that the reader's conditional save,
  -- made from the state that is gone, is accepted and replaces the newer one.
  pub save_with_etag_after_restart :
      (base : P) (id : GrainId) (old newer mine : Bytes) (w : W)
      → let t1 = store_new fs id old (new base, w) in
        let t2 = store_new fs id newer (new base, t1.0.1) in
        let t3 = save_with_etag fs id mine (some (show 1)) t2.0 in
        (load_with_etag fs id t1.0 ≡ (t1.0, ok (some (old, show 1))))
        × (load_with_etag fs id t2.0 ≡ (t2.0, ok (some (newer, show 1))))
        × (t3.1 ≡ ok (show 2))
        × (load_with_etag fs id t3.0 ≡ (t3.0, ok (some (mine, show 2))))
  unfolding new
  save_with_etag_after_restart base id old newer mine w =
      let k1 = store_new-Stored fs contents works two id old (new base) w in
      let t1 = store_new fs id old (new base, w) in
      let k2 = store_new-Stored fs contents works two id newer (new base) t1.0.1 in
      let t2 = store_new fs id newer (new base, t1.0.1) in
      let k3 = store_new-Stored fs contents works two id mine t2.0.0 t2.0.1 in
      let second : t2.0.0.version ≡ 2 = ap (λ (x : FileStateStore P). x.version) k2.counts in
      let again = save-Stored id newer mine (new base) t2 k2 in
      (
        load-Stored id old (new base) t1 k1,
        load-Stored id newer (new base) t2 k2,
        rw again (k3.answers ∙ ap (λ v. ok (show v)) second),
        rw again (
            load-Stored id mine t2.0.0 _ k3
            ∙ ap (λ v. ((store_new fs id mine t2.0).0, ok (some (mine, show v)))) second),
      )
