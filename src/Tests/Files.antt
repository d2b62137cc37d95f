-- ===== src/Tests/Files.antt =====
-- The properties of the file store, of the streams and of the rebalancer at concrete inputs.
use orlando.Base.{
  ℕ, ltb, ◌<◌, All, Bool, Option, Result, err, ◌==◌, ◌≡◌, refl, sym, inl, inr, true, false, List,
  [], ◌∷◌, ◌++◌, none, some, ok, arith, if◌then◌else◌, lookup, insert, remove, show, lookup-insert,
  same_refl, same_ne,
}
use orlando.Core.Ids.{Text, text_key, GrainId, grain_id_key}
use orlando.Core.Observers.{Senders, StreamItem, StreamProducer, send_all}
use orlando.Core.Observers.Ordering.{Takes, numbered, send_all-numbered}
use orlando.Persistence.Store.{Bytes}
use orlando.Persistence.Mailbox.Steps.{IsReliable}
use orlando.Persistence.FileStore.{
  FileSystem, new, sanitized, path_for, etag_path_for, store_new, load_with_etag, save_with_etag,
  file_store,
}
use orlando.Persistence.FileStore.Reads.{IsWorking, HasTwoFiles, file_store-IsReliable}
use orlando.Persistence.FileStore.Restarts.{save_with_etag_after_restart}
use orlando.Cluster.Ring
use orlando.Cluster.Ring.{SiloAddress, HashRing}
use orlando.Cluster.Rebalancer.{has_moved, rebalance}
use orlando.Cluster.Rebalancer.Settles.{lookup-rebalance}
use orlando.Runtime.Directory
use orlando.Runtime.Directory.{GrainDirectory, get_or_insert}

abbrev cart : GrainId
cart = record { type_name = 0x43 ∷ []; key = 0x31 ∷ [] }

-- These files hold ASCII texts only; other bytes are not read as a text.
is_ascii : Text → Bool
is_ascii [] = true
is_ascii (c ∷ t) = if ltb c 128 then is_ascii t else false

abbrev utf8 : Option Bytes → Result (Unit {0}) (Option Text)
utf8 none = ok none
utf8 (some b) = if is_ascii b then ok (some b) else err tt

ascii_only : (t : Text) → All (λ c. c < 128) t → is_ascii t ≡ true
unfolding is_ascii
ascii_only [] h = refl
ascii_only (c ∷ t) (small, h) = ground (arith, small, ascii_only t h)

-- The files by their paths; directories are always there.
abbrev files : FileSystem Text (List (Text × Bytes))
files = record {
  join = λ p t. p ++ (0x2f ∷ t);
  parent = λ p. some [];
  create_dir_all = λ p w. (w, true);
  read = λ p w. (w, ok (lookup p w));
  read_to_string = λ p w. (w, utf8 (lookup p w));
  write = λ p b w. (insert p b w, true);
  remove_file = λ p w. (remove p w, ok (some tt));
}

files-IsWorking : IsWorking files (λ p w. lookup p w)
files-IsWorking = record {
  reads = λ p w. refl;
  reads_text = λ p w t h ascii. rw (h, ascii_only t ascii) refl;
  makes = λ p w. refl;
  makes_keeps = λ p q w. refl;
  writes = λ p b w. refl;
  reads_back = λ p b w. rw (lookup-insert, same_refl) refl;
  writes_keep = λ p q b w ne. rw (lookup-insert, same_ne p q (λ e. ne (sym e))) refl;
}

append_cancel : (xs : Text) {ys zs : Text} → xs ++ ys ≡ xs ++ zs → ys ≡ zs
append_cancel [] e = e
append_cancel (x ∷ xs) e = append_cancel xs (cc)

files-HasTwoFiles : HasTwoFiles files
unfolding path_for etag_path_for
files-HasTwoFiles base id e =
    let names = append_cancel (base ++ (0x2f ∷ sanitized id.type_name)) e in
    let ends = append_cancel (0x2f ∷ id.key) names in absurd (ground (arith, ends))

file_store-IsReliable_example : IsReliable (file_store files)
file_store-IsReliable_example =
    file_store-IsReliable files (λ p w. lookup p w) files-IsWorking files-HasTwoFiles

save_with_etag_after_restart_example :
    let t1 = store_new files cart (1 ∷ []) (new (0x64 ∷ []), []) in
    let t2 = store_new files cart (2 ∷ []) (new (0x64 ∷ []), t1.0.1) in
    let t3 = save_with_etag files cart (3 ∷ []) (some (show 1)) t2.0 in
    (load_with_etag files cart t1.0 ≡ (t1.0, ok (some (1 ∷ [], show 1))))
    × (load_with_etag files cart t2.0 ≡ (t2.0, ok (some (2 ∷ [], show 1))))
    × (t3.1 ≡ ok (show 2))
    × (load_with_etag files cart t3.0 ≡ (t3.0, ok (some (3 ∷ [], show 2))))
save_with_etag_after_restart_example =
    save_with_etag_after_restart files (λ p w. lookup p w) files-IsWorking files-HasTwoFiles
      (0x64 ∷ []) cart (1 ∷ []) (2 ∷ []) (3 ∷ []) []

-- The consumer 1 takes everything; the consumer 9 is closed. The world is the mailbox of the first.
abbrev consumers : Senders ℕ (StreamItem ℕ) (List (StreamItem ℕ))
consumers = record {
  is_closed = λ h w. h == 9;
  try_send = λ h m w. if h == 1 then w ++ m ∷ [] else w;
}

consumers-Takes : Takes consumers (λ w. w) 1
consumers-Takes = record {
  is_open = λ w. refl;
  takes = λ m w. refl;
  alone = λ k m w ne. ground (arith, ne);
}

abbrev producer : StreamProducer ℕ
producer = record {
  name = 0x73 ∷ [];
  observers = record {
    subscribers = (record { id = 0; sender = 9 }) ∷ (record { id = 1; sender = 1 }) ∷ [];
    next_id = 2;
  };
  sequence = 5;
}

send_all-numbered_example :
    (send_all consumers (7 ∷ 8 ∷ []) producer []).1 ≡ [] ++ numbered (0x73 ∷ []) 5 (7 ∷ 8 ∷ [])
send_all-numbered_example =
    send_all-numbered consumers (λ w. w) 1 consumers-Takes (7 ∷ 8 ∷ []) producer []
      (inr ((λ e. absurd (omega (arith, e))), inl (refl, tt)))

abbrev other : SiloAddress
other = record { host = 0x68 ∷ []; port = 5000; silo_id = 1 ∷ [] }

abbrev active : GrainDirectory
active = (get_or_insert (λ c. false) cart Directory.new).0

-- The ring has another silo alone.
lookup-rebalance_example :
    lookup cart (rebalance (Ring.add other (Ring.new 2)) (2 ∷ []) active).0.activations ≡ (
      if has_moved (Ring.add other (Ring.new 2)) (2 ∷ []) cart
      then none
      else lookup cart active.activations)
lookup-rebalance_example = lookup-rebalance (Ring.add other (Ring.new 2)) (2 ∷ []) cart active
