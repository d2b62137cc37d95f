-- ===== src/Cluster/Registry.antt =====
-- crates/orlando-cluster/src/message_registry.rs: which grains and messages a silo can be asked for
-- from afar, and network_message.rs: the encodings of a payload. A registered handler (decode, activate,
-- ask, encode) is a function of the key, the payload, the encoding, the context and the silo's world.
pub mod Dispatches
pub mod Handlers
use mathlib.Core.Option
use orlando.Base.{
  ℕ, Bool, true, false, not, ◌&&◌, List, [], ◌∷◌, ◌++◌, Option, none, some, ltb, ◌==◌,
  if◌then◌else◌, Key, same, lookup, insert, Result, ok, err, ℕ_discrete,
}
use orlando.Core.Ids.{Text, text_key}
use orlando.Persistence.Store.{Bytes}
use orlando.Cluster.Ring.{colon}

pub data Encoding : Type 0 where
  bincode protobuf : Encoding

-- The wire's number is the bit pattern of an i32; every number but 1 is bincode.
unfoldable pub from_proto : ℕ → Encoding
from_proto n = if n == 1 then protobuf else bincode

unfoldable pub to_proto : Encoding → ℕ
to_proto bincode = 0
to_proto protobuf = 1

-- `ClusterError`
pub data ClusterError : Type 0 where
  no_silo_available : ClusterError
  transport serialization deserialization unknown_grain_type unknown_message_type handler_error :
      Text → ClusterError
  unsupported_encoding : (message_type reason : Text) → ClusterError
  unsupported_message_version : (message_type : Text) (version supported : ℕ) → ClusterError

abbrev pub Context : Type 0
Context = List (Text × Text)

abbrev pub Handler : Type 0 → Type 0
Handler W = Text → Bytes → Encoding → Context → W → W × Result ClusterError (Bytes × Encoding)

-- A grain type and a message type.
pub record Pair : Type 0 where
  pub grain_type : Text
  pub message_type : Text

unfoldable pub Pair-discrete : Discrete Pair
Pair-discrete = hlevel ℕ_discrete

instance abbrev pub pair_key : Key Pair
pair_key = record { dec = Pair-discrete }

-- Two of the maps take a name to the same name in static memory.
pub record MessageRegistry (W : Type 0) : Type 0 where
  pub handlers : List (Pair × Handler W)
  pub grain_types : List (Text × Text)
  pub message_types : List (Text × Text)
  pub grain_rust_types : List (Text × Text)
  pub message_versions : List (Text × ℕ)
  pub allowed_clusters : List (Text × List Text)

unfoldable pub new : {W : Type 0} → MessageRegistry W
new = record {
  handlers = [];
  grain_types = [];
  message_types = [];
  grain_rust_types = [];
  message_versions = [];
  allowed_clusters = [];
}

-- What the traits say of a grain and a message.
pub record Registration (W : Type 0) : Type 0 where
  pub grain_type : Text
  pub message_type : Text
  pub rust_type : Text
  pub version : ℕ
  pub allowed : Option (List Text)
  pub handler : Handler W

unfoldable pub pair_of : {W : Type 0} → Registration W → Pair
pair_of r = record { grain_type = r.grain_type; message_type = r.message_type }

-- Another Rust type has the grain's name.
unfoldable pub collides : {W : Type 0} → Registration W → MessageRegistry W → Bool
collides r m = elim (lookup r.grain_type m.grain_rust_types) [
  | none ↦ false
  | some existing ↦ not (same existing r.rust_type)
]

with_allowed : Text → Option (List Text) → List (Text × List Text) → List (Text × List Text)
with_allowed grain_type none m = m
with_allowed grain_type (some clusters) m = insert grain_type clusters m

unfoldable pub added : {W : Type 0} → Registration W → MessageRegistry W → MessageRegistry W
unfolding pair_of with_allowed
added r m = record {
  handlers = insert (pair_of r) r.handler m.handlers;
  grain_types = insert r.grain_type r.grain_type m.grain_types;
  message_types = insert r.message_type r.message_type m.message_types;
  grain_rust_types = insert r.grain_type r.rust_type m.grain_rust_types;
  message_versions = insert r.message_type r.version m.message_versions;
  allowed_clusters = with_allowed r.grain_type r.allowed m.allowed_clusters;
}

-- `none` where the source panics on a collision of names.
unfoldable pub register :
    {W : Type 0} → Registration W → MessageRegistry W → Option (MessageRegistry W)
unfolding collides added
register r m = if collides r m then none else some (added r m)

unfoldable pub grain_type_str : {W : Type 0} → Text → MessageRegistry W → Option Text
grain_type_str grain_type m = lookup grain_type m.grain_types

unfoldable pub allowed_for : {W : Type 0} → Text → MessageRegistry W → Option (List Text)
allowed_for grain_type m = lookup grain_type m.allowed_clusters

-- The message is newer than what the silo supports.
too_new : Text → ℕ → Option ℕ → Option ClusterError
too_new message_type version none = none
too_new message_type version (some supported) =
    if ltb supported version
    then some (unsupported_message_version message_type version supported)
    else none

module _ {W : Type 0} (key : Text) (payload : Bytes) (encoding : Encoding) (context : Context) where
  run_handler : Text → Option (Handler W) → W → W × Result ClusterError (Bytes × Encoding)
  run_handler name none w = (w, err (unknown_message_type name))
  run_handler name (some h) w = h key payload encoding context w

  versioned :
      Option ClusterError
      → Text
      → Option (Handler W)
      → W
      → W × Result ClusterError (Bytes × Encoding)
  unfolding run_handler
  versioned (some e) name h w = (w, err e)
  versioned none name h w = run_handler name h w

  of_message :
      Text
      → Text
      → ℕ
      → Text
      → Option Text
      → MessageRegistry W
      → W
      → W × Result ClusterError (Bytes × Encoding)
  unfolding versioned too_new
  of_message grain_type message_type version type_name none m w =
      (w, err (unknown_message_type message_type))
  of_message grain_type message_type version type_name (some msg_name) m w =
      versioned (too_new message_type version (lookup message_type m.message_versions))
        (grain_type ++ (colon ∷ colon ∷ message_type))
        (lookup (record { grain_type = type_name; message_type = msg_name }) m.handlers) w

  of_grain :
      Text
      → Text
      → ℕ
      → Option Text
      → MessageRegistry W
      → W
      → W × Result ClusterError (Bytes × Encoding)
  unfolding of_message
  of_grain grain_type message_type version none m w = (w, err (unknown_grain_type grain_type))
  of_grain grain_type message_type version (some type_name) m w =
      of_message grain_type message_type version type_name (lookup message_type m.message_types) m w

  unfoldable pub dispatch :
      Text → Text → ℕ → MessageRegistry W → W → W × Result ClusterError (Bytes × Encoding)
  unfolding of_grain
  dispatch grain_type message_type version m w =
      of_grain grain_type message_type version (lookup grain_type m.grain_types) m w
