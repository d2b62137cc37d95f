-- ===== src/Persistence/Facet/Separate.antt =====
-- crates/orlando-persistence/src/facet.rs: the facets of a grain do not touch each other.
use orlando.Base.{◌≡◌, ◌≢◌, ap, [], ◌∷◌, ◌++◌, some, ok, arith}
use orlando.Core.Ids.{Text, GrainId}
use orlando.Persistence.Store.{Bytes}
use orlando.Persistence.Mailbox.Steps.{IsReliable, IsApartFrom, IsLossless}
use orlando.Persistence.Silo.{Codec}
use orlando.Persistence.Facet.{
  ResolvedFacet, FacetContext, facet_infix, facet_grain_id, resolve, load, save,
}

append-cancel : (xs : Text) {ys zs : Text} → xs ++ ys ≡ xs ++ zs → ys ≡ zs
append-cancel [] h = h
append-cancel (x ∷ xs) h = append-cancel xs (cc)

-- Two facets of a grain have different keys.
facet_grain_id-injective :
    (id : GrainId) (a b : Text) → facet_grain_id id a ≡ facet_grain_id id b → a ≡ b
unfolding facet_grain_id
facet_grain_id-injective id a b h = append-cancel facet_infix {ys = a} {zs = b} (
    append-cancel id.key {ys = facet_infix ++ a} {zs = facet_infix ++ b}
      (ap (λ (i : GrainId). i.key) h))

module _ {S T W : Type 0} (codec : Codec S) (other_codec : Codec T) (ctx : FacetContext W) where
  -- A facet that is saved is read back, and every other facet of the grain that held a state still
  -- holds it, whichever stores the two stand on. The store of the saved facet works and leaves other
  -- keys of both stores alone, its format reads what it wrote, and both names are known.
  pub load-save_facet :
      (name other : Text) (f h : ResolvedFacet W) (s : S) (t : T) (b : Bytes) (w : W)
      → resolve ctx name ≡ ok f
      → resolve ctx other ≡ ok h
      → name ≢ other
      → IsReliable f.store
      → IsLossless (codec f.serializer)
      → IsApartFrom f.store h.store
      → h.store.load (facet_grain_id ctx.grain_id other) w ≡ (w, ok (some b))
      → (other_codec h.serializer).deserialize b ≡ some t
      → ((load codec ctx name (save codec ctx name s w).0).1 ≡ ok (some s))
        × ((load other_codec ctx other (save codec ctx name s w).0).1 ≡ ok (some t))
  unfolding load save
  load-save_facet name other f h s t b w e1 e2 ne reliable lossless apart held reads =
      let (sb, encoded, back) = lossless.encodes s in
      let here = facet_grain_id ctx.grain_id name in
      let there = facet_grain_id ctx.grain_id other in
      let (w', written, read) = reliable.saves here sb w in
      let keys_differ : here ≢ there =
        λ q. ne (facet_grain_id-injective ctx.grain_id name other q) in
      let kept = apart.keeps here there sb (some b) w keys_differ held in
      (
        ground (arith, e1, encoded, written, read, back),
        ground (arith, e1, e2, encoded, written, kept, reads),
      )
