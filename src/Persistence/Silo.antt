-- ===== src/Persistence/Silo.antt =====
-- crates/orlando-persistence/src/serializer.rs: the formats of stored states, and persistent_silo.rs:
-- the stores of a silo by name and the strategy of each kind of grain. What bincode and serde_json make
-- of a value is an argument.
use orlando.Base.{List, [], ◌∷◌, Option, none, some, lookup, insert}
use orlando.Core.Ids.{Text, text_key}
use orlando.Persistence.Store.{StateStore}
use orlando.Persistence.Mailbox.{
  PersistenceStrategy, write_through, write_on_deactivate, Serializer,
}

pub data SerializerFormat : Type 0 where
  bincode json : SerializerFormat

-- What the two formats are for the type of a state.
abbrev pub Codec : Type 0 → Type 0
Codec S = SerializerFormat → Serializer S

pub record StoreEntry (W : Type 0) : Type 0 where
  pub store : StateStore W
  pub serializer : SerializerFormat

abbrev pub Stores : Type 0 → Type 0
Stores W = List (Text × StoreEntry W)

-- The bytes `default`.
abbrev pub default_name : Text
default_name = 0x64 ∷ 0x65 ∷ 0x66 ∷ 0x61 ∷ 0x75 ∷ 0x6c ∷ 0x74 ∷ []

unfoldable pub named_store_with_serializer :
    {W : Type 0} → Text → StateStore W → SerializerFormat → Stores W → Stores W
named_store_with_serializer name store serializer stores =
    insert name (record { store = store; serializer = serializer }) stores

unfoldable pub named_store : {W : Type 0} → Text → StateStore W → Stores W → Stores W
unfolding named_store_with_serializer
named_store name store stores = named_store_with_serializer name store bincode stores

unfoldable pub default_store : {W : Type 0} → StateStore W → Stores W → Stores W
unfolding named_store
default_store store stores = named_store default_name store stores

or_else : {A : Type 0} → Option A → Option A → Option A
or_else (some a) o = some a
or_else none o = o

-- `entry_for`, by the provider that the grain's type names; `none` where the source panics.
unfoldable pub entry_for : {W : Type 0} → Text → Stores W → Option (StoreEntry W)
unfolding or_else
entry_for provider stores = or_else (lookup provider stores) (lookup default_name stores)

-- The strategies of the references that are asked for without one.
abbrev pub default_strategy : PersistenceStrategy
default_strategy = write_through

abbrev pub transactional_strategy : PersistenceStrategy
transactional_strategy = write_on_deactivate
