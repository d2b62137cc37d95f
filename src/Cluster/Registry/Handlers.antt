-- ===== src/Cluster/Registry/Handlers.antt =====
-- crates/orlando-cluster/src/message_registry.rs: the handler that a registration makes: decode the
-- message, activate the grain, ask it and encode what it answers. What bincode and protobuf make of a
-- value, and the mailbox that the activator gives, are arguments.
use orlando.Base.{ℕ, Option, none, some, Result, ok, err}
use orlando.Core.Ids.{Text, GrainId}
use orlando.Core.GrainRef
use orlando.Core.GrainRef.{GrainError, Mailbox, ask}
use orlando.Persistence.Store.{Bytes}
use orlando.Cluster.Registry.{
  Encoding, bincode, protobuf, ClusterError, serialization, deserialization, unsupported_encoding,
  handler_error, Context, Handler,
}

-- What the trait and its codecs give for one message type.
pub record NetworkMessage (M R : Type 0) : Type 0 where
  pub message_type_name : Text
  pub message_version : ℕ
  pub decode : Bytes → Result Text M
  pub decode_proto : Bytes → Option M
  pub encode_result : R → Result Text Bytes
  pub encode_result_proto : R → Option Bytes
  pub unsupported : Text  -- the reason in the error
  pub encode : M → Result Text Bytes
  pub decode_result : Bytes → Result Text R

-- A silo that can activate the grain: its mailbox, as an envelope with the message finds it, after the
-- activation has changed the world.
pub record Activator (M R W : Type 0) : Type 0 where
  pub get_or_insert : GrainId → W → W
  pub mailbox : GrainId → M → Mailbox R W

module _ {M R W : Type 0} (n : NetworkMessage M R) (a : Activator M R W)
    (error_text : GrainError → Text) (grain_type : Text) where
  unfoldable pub decoded : Bytes → Encoding → Result ClusterError M
  decoded payload bincode = elim (n.decode payload) [
    | ok m ↦ ok m
    | err e ↦ err (deserialization e)
  ]
  decoded payload protobuf = elim (n.decode_proto payload) [
    | some m ↦ ok m
    | none ↦ err (unsupported_encoding n.message_type_name n.unsupported)
  ]

  unfoldable pub encoded : R → Encoding → Result ClusterError (Bytes × Encoding)
  encoded r bincode = elim (n.encode_result r) [
    | ok b ↦ ok (b, bincode)
    | err e ↦ err (serialization e)
  ]
  encoded r protobuf = elim (n.encode_result_proto r) [
    | some b ↦ ok (b, protobuf)
    | none ↦ err (unsupported_encoding n.message_type_name n.unsupported)
  ]

  unfoldable pub replied :
      Encoding → W × Result GrainError R → W × Result ClusterError (Bytes × Encoding)
  unfolding encoded
  replied encoding (w, ok r) = (w, encoded r encoding)
  replied encoding (w, err e) = (w, err (handler_error (error_text e)))

  -- The grain is asked through a reference without its key.
  unfoldable pub asked : GrainId → M → Context → W → W × Result GrainError R
  asked id m context w =
      ask (GrainRef.new grain_type) (a.mailbox id m) (record { values = context })
        (a.get_or_insert id w)

  unfoldable pub called :
      Text
      → Encoding
      → Context
      → Result ClusterError M
      → W
      → W × Result ClusterError (Bytes × Encoding)
  unfolding replied asked
  called key encoding context (err e) w = (w, err e)
  called key encoding context (ok m) w =
      replied encoding (asked (record { type_name = grain_type; key = key }) m context w)

  unfoldable pub handler_of : Handler W
  unfolding decoded called
  handler_of key payload encoding context w =
      called key encoding context (decoded payload encoding) w
