-- ===== src/Persistence/Store/Etags.antt =====
-- Optimistic concurrency: what a conditional write lets through.
use mathlib.Core.Option
use orlando.Base.{
  ℕ, ◌+◌, ◌%◌, ◌^◌, ◌<◌, ◌≡◌, ◌≢◌, sym, ◌∙◌, inl, inr, Option, some, same, if◌then◌else◌, lookup,
  insert, lookup-insert, lookup-remove, ok, err, show, show-injective, arith, Option-cases,
  Bool-cases, ◌↔◌,
}
use orlando.Core.Ids.{text_key, GrainId, grain_id_key}
use orlando.Persistence.Store.{
  Bytes, ETag, etag_mismatch, InMemoryStateStore, new, bump, next_etag, load, save, delete,
  load_with_etag, conflict, save_with_etag,
}

-- Every stored etag was drawn from the counter before it came to where it stands. The counter has
-- not wrapped.
pub record IsValid (st : InMemoryStateStore) : Type 0 where
  pub drawn :
      (id : GrainId) (b : Bytes) (e : ETag)
      → lookup id st.entries ≡ some (b, e)
      → (v : ℕ) × (e ≡ show v) × (v < st.version)

abbrev pub HasRoom : InMemoryStateStore → Type 0
HasRoom st = st.version + 1 < 2 ^ 64

pub new-IsValid : IsValid new
unfolding new lookup
new-IsValid = record { drawn = λ id b e h. absurd (ground arith) }

module _ (st : InMemoryStateStore) where
  later_version : HasRoom st → (st.version + 1) % 2 ^ 64 ≡ st.version + 1
  later_version r = omega arith

  drawn-insert :
      (id : GrainId) (bytes : Bytes)
      → IsValid st
      → HasRoom st
      → IsValid (record {
        entries = insert id (bytes, show st.version) st.entries;
        version = (st.version + 1) % 2 ^ 64;
      })
  drawn-insert id bytes v r = record {
    drawn = λ j b e h. elim (Bool-cases (same id j)) [
      | inl hit ↦ (
        st.version,
        ground (arith, lookup-insert id j (bytes, show st.version) st.entries),
        omega (arith, later_version r),
      )
      | inr miss ↦
          let (n, drawn, below) =
            v.drawn j b e
              (ground (arith, lookup-insert id j (bytes, show st.version) st.entries)) in
          (n, drawn, omega (arith, later_version r))
    ];
  }

  pub save-IsValid :
      (id : GrainId) (bytes : Bytes) → IsValid st → HasRoom st → IsValid (save id bytes st)
  unfolding save
  save-IsValid id bytes v r = drawn-insert id bytes v r

  pub delete-IsValid : (id : GrainId) → IsValid st → IsValid (delete id st)
  unfolding delete
  delete-IsValid id v = record {
    drawn = λ j b e h. v.drawn j b e (ground (arith, lookup-remove id j st.entries));
  }

  pub save_with_etag-IsValid :
      (id : GrainId) (bytes : Bytes) (expected : Option ETag)
      → IsValid st
      → HasRoom st
      → IsValid (save_with_etag id bytes expected st).0
  unfolding save_with_etag
  save_with_etag-IsValid id bytes expected v r =
      elim (Option-cases (conflict expected (lookup id st.entries))) [
        | inl clear ↦ rw (clear, save_with_etag) (drawn-insert id bytes v r)
        | inr (e, refused) ↦
            rw (refused, save_with_etag)
              (record {
                drawn = λ j b f h.
                    let (n, drawn, below) = v.drawn j b f h in
                    (n, drawn, omega (arith, later_version r));
              })
      ]

  stale :
      (id : GrainId) (b : Bytes) (e : ETag)
      → IsValid st
      → load_with_etag id st ≡ some (b, e)
      → e ≢ show st.version
  unfolding load_with_etag
  stale id b e v h eq =
      let (n, drawn, below) = v.drawn id b e h in
      absurd (omega (arith, show-injective n st.version (sym drawn ∙ eq)))

  -- A conditional write goes through exactly when the etag that the caller expects is the one stored,
  -- or when the caller expects no entry and there is none.
  pub save_with_etag-ok_iff :
      (id : GrainId) (bytes : Bytes) (expected : Option ETag)
      → ((save_with_etag id bytes expected st).1 ≡ ok (next_etag st))
        ↔ (expected ≡ Option.map (λ e. e.1) (load_with_etag id st))
  unfolding save_with_etag load_with_etag conflict
  save_with_etag-ok_iff id bytes expected = (λ h. ground arith, λ h. ground arith)

  -- A write that goes through is what is loaded next, under the etag that it returned; one that is
  -- refused leaves every entry as it was.
  pub load-save_with_etag :
      (id j : GrainId) (bytes : Bytes) (expected : Option ETag)
      → load_with_etag j (save_with_etag id bytes expected st).0
        ≡ (elim (save_with_etag id bytes expected st).1 [
          | ok e ↦ (if same id j then some (bytes, e) else load_with_etag j st)
          | err _ ↦ load_with_etag j st
        ])
  unfolding save_with_etag load_with_etag bump
  load-save_with_etag id j bytes expected =
      ground (arith, lookup-insert id j (bytes, next_etag st) st.entries)

  -- Of two writers that read the same etag the first to write wins, and the second is told of the
  -- conflict, while the value of the first stays. The stored etags were drawn from the counter, which
  -- has room below 2^64.
  pub save_with_etag-excludes :
      (id : GrainId) (old first second : Bytes) (e : ETag)
      → IsValid st
      → HasRoom st
      → load_with_etag id st ≡ some (old, e)
      → let won = save_with_etag id first (some e) st in
        let lost = save_with_etag id second (some e) won.0 in
        (won.1 ≡ ok (next_etag st))
        × (lost.1 ≡ err (etag_mismatch (some e) (some (next_etag st))))
        × (load id lost.0 ≡ some first)
  unfolding save_with_etag load_with_etag load bump conflict next_etag
  save_with_etag-excludes id old first second e v r h =
      let other = stale id old e v h in
      let found = lookup-insert id id (first, show st.version) st.entries in
      (ground arith, ground (arith, other, found), ground (arith, other, found))

  -- An unconditional write between the read and the conditional write makes the latter fail, and its
  -- value stays. The stored etags were drawn from the counter, which has room below 2^64.
  pub save_with_etag-after_save :
      (id : GrainId) (old between bytes : Bytes) (e : ETag)
      → IsValid st
      → HasRoom st
      → load_with_etag id st ≡ some (old, e)
      → let lost = save_with_etag id bytes (some e) (save id between st) in
        (lost.1 ≡ err (etag_mismatch (some e) (some (next_etag st))))
        × (load id lost.0 ≡ some between)
  unfolding save_with_etag save load_with_etag load bump conflict next_etag
  save_with_etag-after_save id old between bytes e v r h =
      let other = stale id old e v h in
      let found = lookup-insert id id (between, show st.version) st.entries in
      (ground (arith, other, found), ground (arith, other, found))
