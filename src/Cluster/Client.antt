-- ===== src/Cluster/Client.antt =====
-- crates/orlando-client/src/lib.rs: the client of a cluster outside of it. What the network library
-- makes of a connection is a parameter; each call carries the authorization header of its request,
-- and a call of a grain the deadline too.
pub mod Refreshes
pub mod Attempts
pub mod Empties
use orlando.Base.{
  ℕ, ◌==◌, not, Bool, true, false, List, [], ◌∷◌, ◌++◌, map, Option, none, some, if◌then◌else◌,
  is_empty, Result, ok, err,
}
use orlando.Core.Ids.{Text, format_id}
use orlando.Persistence.Store.{Bytes}
use orlando.Cluster.Ring
use orlando.Cluster.Ring.{SiloAddress, HashRing, endpoint, members}
use orlando.Cluster.MembershipTable.{add_each}
use orlando.Cluster.Swim.Wire.{ProtoSiloAddress, from_proto_addr}
use orlando.Cluster.Registry.{Encoding, bincode, protobuf, to_proto}
use orlando.Cluster.Registry.Handlers.{NetworkMessage}
use orlando.Cluster.Transport.{InvokeRequest, InvokeResponse}
use orlando.Cluster.Connections
use orlando.Cluster.Connections.{ConnectionPool, Dial, get_membership, get_transport, forget}

pub data ClientError : Type 0 where
  connection transport grain_error serialization deserialization : Text → ClientError
  no_silo_available : ClientError

-- `request_timeout` is in nanoseconds.
pub record OrlandoClient (C : Type 0) : Type 0 where
  pub pool : ConnectionPool C
  pub ring : HashRing
  pub request_timeout : ℕ

pub record Network (C W : Type 0) : Type 0 where
  pub dial : Dial C W
  pub get_members : C → Option Bytes → W → W × Result Text (List ProtoSiloAddress)
  pub invoke : C → (timeout : ℕ) → Option Bytes → InvokeRequest → W → W × Result Text InvokeResponse

-- "cluster returned no members"
no_members : Text
no_members =
    0x63 ∷ 0x6c ∷ 0x75 ∷ 0x73 ∷ 0x74 ∷ 0x65 ∷ 0x72 ∷ 0x20 ∷ 0x72 ∷ 0x65 ∷ 0x74 ∷ 0x75 ∷ 0x72 ∷ 0x6e
    ∷ 0x65 ∷ 0x64 ∷ 0x20 ∷ 0x6e ∷ 0x6f ∷ 0x20 ∷ 0x6d ∷ 0x65 ∷ 0x6d ∷ 0x62 ∷ 0x65 ∷ 0x72 ∷ 0x73 ∷ []

-- "no reachable silos for membership refresh"
no_reachable : Text
no_reachable =
    0x6e ∷ 0x6f ∷ 0x20 ∷ 0x72 ∷ 0x65 ∷ 0x61 ∷ 0x63 ∷ 0x68 ∷ 0x61 ∷ 0x62 ∷ 0x6c ∷ 0x65 ∷ 0x20 ∷ 0x73
    ∷ 0x69 ∷ 0x6c ∷ 0x6f ∷ 0x73 ∷ 0x20 ∷ 0x66 ∷ 0x6f ∷ 0x72 ∷ 0x20 ∷ 0x6d ∷ 0x65 ∷ 0x6d ∷ 0x62
    ∷ 0x65 ∷ 0x72 ∷ 0x73 ∷ 0x68 ∷ 0x69 ∷ 0x70 ∷ 0x20 ∷ 0x72 ∷ 0x65 ∷ 0x66 ∷ 0x72 ∷ 0x65 ∷ 0x73
    ∷ 0x68 ∷ []

unfoldable pub with_request_timeout : {C : Type 0} → ℕ → OrlandoClient C → OrlandoClient C
with_request_timeout timeout c = record c { request_timeout = timeout }

-- The ring of an answered member list.
unfoldable pub ring_of : List ProtoSiloAddress → HashRing
ring_of ms = add_each (map from_proto_addr ms) (Ring.new 150)

module _ {C W : Type 0} (n : Network C W) where
  as_connection : {A : Type 0} → Result Text A → Result ClientError A
  as_connection (ok a) = ok a
  as_connection (err e) = err (connection e)

  asked :
      ConnectionPool C × W × Result Text C
      → ConnectionPool C × W × Result ClientError (List ProtoSiloAddress)
  unfolding as_connection
  asked (p, w, err e) = (p, w, err (connection e))
  asked (p, w, ok c) = let (w', r) = n.get_members c none w in (p, w', as_connection r)

  -- `get_membership` and the call of `get_members`, whose requests carry no header.
  unfoldable pub fetch :
      Text
      → ConnectionPool C
      → W
      → ConnectionPool C × W × Result ClientError (List ProtoSiloAddress)
  unfolding asked
  fetch address p w = asked (get_membership n.dial address p w)

  connected :
      ConnectionPool C × W × Result ClientError (List ProtoSiloAddress)
      → W × Result ClientError (OrlandoClient C)
  unfolding no_members
  connected (p, w, err e) = (w, err e)
  connected (p, w, ok ms) =
      if is_empty ms
      then (w, err (connection no_members))
      else (w, ok (record { pool = p; ring = ring_of ms; request_timeout = 30000000000 }))

  -- `connect` and `connect_tls`
  unfoldable pub connect : Bool → Text → W → W × Result ClientError (OrlandoClient C)
  unfolding fetch connected
  connect has_tls address w = connected (fetch address (Connections.new has_tls none) w)

  refreshed :
      OrlandoClient C
      → (OrlandoClient C → W → OrlandoClient C × W × Result ClientError (Unit {0}))
      → ConnectionPool C × W × Result ClientError (List ProtoSiloAddress)
      → OrlandoClient C × W × Result ClientError (Unit {0})
  refreshed c next (p, w, ok ms) = (record c { pool = p; ring = ring_of ms }, w, ok tt)
  refreshed c next (p, w, err e) = next (record c { pool = p }) w

  -- The loop of `refresh_membership`.
  unfoldable pub refresh_from :
      List SiloAddress → OrlandoClient C → W → OrlandoClient C × W × Result ClientError (Unit {0})
  unfolding refreshed no_reachable fetch
  refresh_from [] c w = (c, w, err (connection no_reachable))
  refresh_from (m ∷ ms) c w = refreshed c (refresh_from ms) (fetch (endpoint m) c.pool w)

  unfoldable pub refresh_membership :
      OrlandoClient C → W → OrlandoClient C × W × Result ClientError (Unit {0})
  unfolding refresh_from
  refresh_membership c w = refresh_from (members c.ring) c w

  -- What one call of a grain hands back.
  abbrev pub Answer : Type 0
  Answer = OrlandoClient C × W × Result ClientError Bytes

  -- After a failure: on the first attempt the membership is refreshed and the next is made.
  retried : ℕ → (OrlandoClient C → W → Answer) → ClientError → OrlandoClient C → W → Answer
  unfolding refresh_membership
  retried attempt next e c w =
      if attempt == 0
      then (let (c', w', _) = refresh_membership c w in next c' w')
      else (c, w, err e)

  -- An error that the grain answers with is not retried.
  answered :
      ℕ
      → (OrlandoClient C → W → Answer)
      → Text
      → OrlandoClient C
      → W × Result Text InvokeResponse
      → Answer
  unfolding retried
  answered attempt next address c (w, ok r) =
      (c, w, if not (is_empty r.error) then err (grain_error r.error) else ok r.payload)
  answered attempt next address c (w, err e) =
      let c' = record c { pool = if attempt == 0 then forget address c.pool else c.pool } in
      retried attempt next (transport e) c' w

  called :
      InvokeRequest
      → ℕ
      → (OrlandoClient C → W → Answer)
      → Text
      → OrlandoClient C
      → ConnectionPool C × W × Result Text C
      → Answer
  unfolding retried answered
  called req attempt next address c (p, w, err e) =
      retried attempt next (connection e) (record c { pool = p }) w
  called req attempt next address c (p, w, ok conn) =
      answered attempt next address (record c { pool = p })
        (n.invoke conn c.request_timeout none req w)

  at_target :
      InvokeRequest
      → ℕ
      → (OrlandoClient C → W → Answer)
      → Option SiloAddress
      → OrlandoClient C
      → W
      → Answer
  unfolding called
  at_target req attempt next none c w = (c, w, err no_silo_available)
  at_target req attempt next (some target) c w =
      called req attempt next (endpoint target) c (get_transport n.dial (endpoint target) c.pool w)

  -- The loop over the attempts; each looks the owner up in the ring of its time.
  unfoldable pub attempts_from : InvokeRequest → List ℕ → OrlandoClient C → W → Answer
  unfolding at_target
  attempts_from req [] c w = (c, w, err no_silo_available)
  attempts_from req (attempt ∷ rest) c w =
      at_target req attempt (attempts_from req rest)
        (Ring.get (format_id req.grain_type req.grain_key) c.ring) c w

  unfoldable pub request : (grain_type grain_key message_type : Text) → Bytes → ℕ → InvokeRequest
  request grain_type grain_key message_type payload encoding = record {
    grain_type = grain_type;
    grain_key = grain_key;
    message_type = message_type;
    payload = payload;
    encoding = encoding;
    request_context = [];
    message_version = 0;
  }

  unfoldable pub invoke :
      (grain_type grain_key message_type : Text) → Bytes → ℕ → OrlandoClient C → W → Answer
  unfolding attempts_from request
  invoke grain_type grain_key message_type payload encoding =
      attempts_from (request grain_type grain_key message_type payload encoding) (0 ∷ 1 ∷ [])

  -- `GrainHandle::ask_proto`
  unfoldable pub ask_proto :
      (grain_type grain_key message_type : Text) → Bytes → OrlandoClient C → W → Answer
  unfolding invoke
  ask_proto grain_type grain_key message_type payload =
      invoke grain_type grain_key message_type payload (to_proto protobuf)

module _ {C W M R : Type 0} (n : Network C W) (message : NetworkMessage M R) where
  read_result : Result Text R → Result ClientError R
  read_result (ok r) = ok r
  read_result (err e) = err (deserialization e)

  read_answer :
      OrlandoClient C × W × Result ClientError Bytes → OrlandoClient C × W × Result ClientError R
  unfolding read_result
  read_answer (c, w, ok payload) = (c, w, read_result (message.decode_result payload))
  read_answer (c, w, err e) = (c, w, err e)

  encoded :
      (grain_type grain_key : Text)
      → Result Text Bytes
      → OrlandoClient C
      → W
      → OrlandoClient C × W × Result ClientError R
  unfolding invoke read_answer
  encoded grain_type grain_key (err e) c w = (c, w, err (serialization e))
  encoded grain_type grain_key (ok payload) c w =
      read_answer
        (invoke n grain_type grain_key message.message_type_name payload (to_proto bincode) c w)

  -- `GrainHandle::ask`
  unfoldable pub ask :
      (grain_type grain_key : Text)
      → M
      → OrlandoClient C
      → W
      → OrlandoClient C × W × Result ClientError R
  unfolding encoded
  ask grain_type grain_key msg = encoded grain_type grain_key (message.encode msg)
