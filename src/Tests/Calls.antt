-- ===== src/Tests/Calls.antt =====
-- The properties of calls, within a silo and between silos, at concrete inputs.
use orlando.Base.{
  ℕ, zero, suc, ◌+◌, ◌-◌, ◌≢◌, refl, false, [], ◌∷◌, Option, none, some, ok, arith, show,
}
use orlando.Core.Ids.{Text, text_key, GrainId}
use orlando.Core.CallChain
use orlando.Core.CallChain.{comma, with_call_chain_entry}
use orlando.Core.GrainRef
use orlando.Core.GrainRef.{Mailbox, enqueued, replied, admitted}
use orlando.Cluster.Ring
use orlando.Cluster.Registry
use orlando.Cluster.Registry.{
  Registration, MessageRegistry, bincode, unsupported_message_version, register, added, dispatch,
  collides,
}
use orlando.Cluster.Transport.{InvokeRequest, TransportService, max_hops}
use orlando.Cluster.Ownership
use orlando.Cluster.Ownership.{InMemoryCrossClusterDirectory}
use orlando.Cluster.Transport.{ClusterGatewayService}
use orlando.Cluster.Transport.Network.{invoke}
use orlando.Cluster.Transport.Network.Hops.{ReadsHops, invoke_ends}

abbrev cart : GrainId
cart = record { type_name = 0x43 ∷ []; key = 0x31 ∷ [] }

-- A mailbox that answers with the number of the calls it has had.
abbrev counting : Mailbox ℕ ℕ
counting = record {
  send = λ w. (w + 1, enqueued);
  try_send = λ w. (w + 1, enqueued);
  receive = λ w. (w, replied w);
  ask_timeout = 30;
}

-- The handler of `wish`, which the one of `cart` has called.
abbrev wish : GrainId
wish = record { type_name = 0x57 ∷ []; key = 0x32 ∷ [] }

abbrev secret : Text
secret = 0x73 ∷ 0x33 ∷ []

-- Answers with the payload it got, and counts.
abbrev adding : Registration ℕ
adding = record {
  grain_type = 0x43 ∷ [];
  message_type = 0x41 ∷ [];
  rust_type = 0x72 ∷ [];
  version = 2;
  allowed = some ((0x65 ∷ []) ∷ []);
  handler = λ key payload encoding context w. (w + 1, ok (payload, encoding));
}

abbrev registry : MessageRegistry ℕ
registry = added adding Registry.new

abbrev request : InvokeRequest
request = record {
  grain_type = 0x43 ∷ [];
  grain_key = 0x31 ∷ [];
  message_type = 0x41 ∷ [];
  payload = 7 ∷ [];
  encoding = 0;
  request_context = [];
  message_version = 1;
}

-- The grain may live in `e` alone.
abbrev housed : MessageRegistry InMemoryCrossClusterDirectory
housed =
    added
      (record {
        grain_type = 0x43 ∷ [];
        rust_type = 0x52 ∷ [];
        message_type = 0x41 ∷ [];
        version = 2;
        allowed = some ((0x65 ∷ []) ∷ []);
        handler = λ key payload encoding context d. (d, ok (payload, encoding));
      })
      Registry.new

abbrev gateways : Text → Option (ClusterGatewayService InMemoryCrossClusterDirectory)
gateways endpoint = none

-- Reads a text of one digit.
abbrev digit : Text → Option ℕ
digit [] = none
digit (c ∷ []) = some (c - 48)
digit (c ∷ d ∷ cs) = none

digit-ReadsHops : ReadsHops digit
unfolding ReadsHops show
digit-ReadsHops zero h = refl
digit-ReadsHops (suc zero) h = refl
digit-ReadsHops (suc (suc zero)) h = refl
digit-ReadsHops (suc (suc (suc zero))) h = refl
digit-ReadsHops (suc (suc (suc (suc n)))) h = absurd (omega (arith, h))

-- A silo that believes that every grain is active at the same endpoint, which is its own.
abbrev believer : TransportService ℕ
believer = record {
  registry = registry;
  ring = Ring.new 1;
  local_silo_id = 1 ∷ [];
  authenticate = λ req. ok tt;
  cross_cluster = none;
  is_active = λ id w. false;
  elsewhere = λ grain_type key w. some (9 ∷ []);
  error_text = λ e. [];
}

invoke_ends_example :
    invoke digit (λ endpoint. some believer) (suc max_hops) believer request 0 ≢ none
invoke_ends_example =
    invoke_ends digit digit-ReadsHops (λ endpoint. some believer) believer request 0
