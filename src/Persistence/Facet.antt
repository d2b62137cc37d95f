-- ===== src/Persistence/Facet.antt =====
-- crates/orlando-persistence/src/facet.rs: the named states of a grain beside its own, each on its
-- store. The stores of a silo are one world, and a facet names the one that it stands on.
pub mod Separate
use mathlib.Core.Option
use orlando.Base.{ℕ, List, [], ◌∷◌, ◌++◌, Option, none, some, Result, ok, err, lookup, map}
use orlando.Core.Ids.{Text, text_key, GrainId, slash}
use orlando.Persistence.Store.{Bytes, PersistenceError, serialization, deserialization, StateStore}
use orlando.Persistence.Silo.{SerializerFormat, Codec}

pub record ResolvedFacet (W : Type 0) : Type 0 where
  pub name : Text
  pub store : StateStore W
  pub serializer : SerializerFormat

pub record FacetContext (W : Type 0) : Type 0 where
  pub grain_id : GrainId
  pub facets : List (Text × ResolvedFacet W)

-- The bytes `/__facet/`.
abbrev pub facet_infix : Text
facet_infix = slash ∷ 0x5f ∷ 0x5f ∷ 0x66 ∷ 0x61 ∷ 0x63 ∷ 0x65 ∷ 0x74 ∷ slash ∷ []

unfoldable pub facet_grain_id : GrainId → Text → GrainId
facet_grain_id id name = record { type_name = id.type_name; key = id.key ++ (facet_infix ++ name) }

module _ {W : Type 0} (ctx : FacetContext W) where
  unfoldable pub resolve : Text → Result PersistenceError (ResolvedFacet W)
  resolve name = elim (lookup name ctx.facets) [ none ↦ err deserialization | some f ↦ ok f ]

  clear_from :
      Text → Result PersistenceError (ResolvedFacet W) → W → W × Result PersistenceError (Unit {0})
  unfolding facet_grain_id
  clear_from name (err e) w = (w, err e)
  clear_from name (ok f) w = f.store.delete (facet_grain_id ctx.grain_id name) w

  unfoldable pub clear : Text → W → W × Result PersistenceError (Unit {0})
  unfolding resolve clear_from
  clear name w = clear_from name (resolve name) w

  unfoldable pub facet_names : List Text
  facet_names = map (λ e. e.0) ctx.facets

module _ {S W : Type 0} (codec : Codec S) (ctx : FacetContext W) where
  decoded :
      ResolvedFacet W → Result PersistenceError (Option Bytes) → Result PersistenceError (Option S)
  decoded f (ok none) = ok none
  decoded f (ok (some b)) = elim ((codec f.serializer).deserialize b) [
    | none ↦ err deserialization
    | some s ↦ ok (some s)
  ]
  decoded f (err e) = err e

  load_from :
      Text → Result PersistenceError (ResolvedFacet W) → W → W × Result PersistenceError (Option S)
  unfolding facet_grain_id decoded
  load_from name (err e) w = (w, err e)
  load_from name (ok f) w =
      let (w', r) = f.store.load (facet_grain_id ctx.grain_id name) w in (w', decoded f r)

  unfoldable pub load : Text → W → W × Result PersistenceError (Option S)
  unfolding resolve load_from
  load name w = load_from name (resolve ctx name) w

  save_bytes : Text → ResolvedFacet W → Option Bytes → W → W × Result PersistenceError (Unit {0})
  unfolding facet_grain_id
  save_bytes name f none w = (w, err serialization)
  save_bytes name f (some b) w = f.store.save (facet_grain_id ctx.grain_id name) b w

  save_to :
      Text
      → Result PersistenceError (ResolvedFacet W)
      → S
      → W
      → W × Result PersistenceError (Unit {0})
  unfolding save_bytes
  save_to name (err e) s w = (w, err e)
  save_to name (ok f) s w = save_bytes name f ((codec f.serializer).serialize s) w

  unfoldable pub save : Text → S → W → W × Result PersistenceError (Unit {0})
  unfolding resolve save_to
  save name s w = save_to name (resolve ctx name) s w
