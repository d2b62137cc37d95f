-- ===== src/Tests/Remotes.antt =====
-- The properties of remote calls at concrete inputs.
use orlando.Base.{
  ℕ, ◌+◌, ◌≤◌, ◌<◌, ◌≡◌, ◌⊎◌, refl, true, [], ◌∷◌, none, some, Result, ok, err, arith, All, lookup,
}
use orlando.Core.Ids.{Text}
use orlando.Core.CallChain
use orlando.Core.GrainRef.{Mailbox, enqueued, replied}
use orlando.Persistence.Store.{Bytes}
use orlando.Cluster.Ring
use orlando.Cluster.Registry
use orlando.Cluster.Registry.{MessageRegistry, ClusterError, register, added, collides}
use orlando.Cluster.Registry.Handlers.{NetworkMessage, Activator, asked}
use orlando.Cluster.Transport.{TransportService, find_owner}
use orlando.Cluster.Transport.Network.Here.{IsServed}
use orlando.Cluster.Remote.{default_policy, Calls, remote, remote_invoke, request_of, ask_cluster}
use orlando.Cluster.Remote.Retries.{nth_call, FailsAt, pauses, ask_cluster-pauses}
use orlando.Cluster.Remote.Transparent.{
  call_of, IsFaithful, registration, carried, remote_invoke-asked,
}

abbrev first_byte : Bytes → Result Text ℕ
first_byte [] = err []
first_byte (b ∷ bs) = ok b

abbrev add_message : NetworkMessage ℕ ℕ
add_message = record {
  message_type_name = 0x41 ∷ [];
  message_version = 2;
  decode = first_byte;
  decode_proto = λ bytes. none;
  encode_result = λ r. ok (r ∷ []);
  encode_result_proto = λ r. none;
  unsupported = [];
  encode = λ m. ok (m ∷ []);
  decode_result = first_byte;
}

add_message-IsFaithful : IsFaithful add_message
unfolding IsFaithful
add_message-IsFaithful = λ v. (v ∷ [], refl, refl)

-- The world is the grain's number; it answers with the sum.
abbrev adder : ℕ → Mailbox ℕ ℕ
adder m = record {
  send = λ w. (w + m, enqueued);
  try_send = λ w. (w + m, enqueued);
  receive = λ w. (w, replied w);
  ask_timeout = 30;
}

abbrev activator : Activator ℕ ℕ ℕ
activator = record { get_or_insert = λ id w. w; mailbox = λ id m. adder m }

abbrev any_text : {A : Type 0} → A → Text
any_text e = 0x65 ∷ []

abbrev registry : MessageRegistry ℕ
registry =
    added (registration add_message activator any_text (0x43 ∷ []) (0x72 ∷ []) none) Registry.new

abbrev silo : TransportService ℕ
silo = record {
  registry = registry;
  ring = Ring.new 1;
  local_silo_id = 1 ∷ [];
  authenticate = λ req. ok tt;
  cross_cluster = none;
  is_active = λ id w. true;
  elsewhere = λ grain_type key w. none;
  error_text = any_text;
}

abbrev calls : Calls ℕ
calls = call_of any_text [] (λ t. none) (λ endpoint. some silo)

silo-IsServed :
    IsServed
      (λ t. none)
      (λ endpoint. some silo)
      silo
      (request_of add_message calls CallChain.new (9 ∷ []) (0x43 ∷ []) (0x31 ∷ []) (5 ∷ []))
      7
unfolding request_of find_owner Ring.get Ring.new
silo-IsServed = record {
  let_in = refl;
  fits = ground arith;
  mine = refl;
  alone = refl;
  nowhere = refl;
}

remote_invoke-asked_example :
    remote_invoke add_message calls CallChain.new (9 ∷ []) (0x43 ∷ []) (0x31 ∷ []) (5 ∷ []) 7
    ≡ carried add_message activator any_text (0x43 ∷ []) any_text (
        asked add_message activator any_text
          (0x43 ∷ [])
          (record { type_name = 0x43 ∷ []; key = 0x31 ∷ [] })
          5
          []
          7)
unfolding register collides Registry.new lookup CallChain.new
remote_invoke-asked_example =
    remote_invoke-asked add_message activator any_text (0x43 ∷ []) silo Registry.new (0x72 ∷ [])
      none (0x31 ∷ []) 5 (5 ∷ []) CallChain.new refl refl (λ t. none) (λ endpoint. some silo)
      any_text [] (9 ∷ []) 7 refl silo-IsServed add_message-IsFaithful (λ e. refl)

-- A peer whose connection always fails, with the number of the attempts.
abbrev down : Calls ℕ
down endpoint req w = (w + 1, err (0x64 ∷ []))

ask_cluster-pauses_example :
    (k : ℕ) × (k ≤ default_policy.max_retries)
    × ((i : ℕ)
        → i < k
        → FailsAt
            (remote_invoke add_message down CallChain.new (9 ∷ []) (0x43 ∷ []) (0x31 ∷ []) (5 ∷ []))
            i
            0)
    × (ask_cluster default_policy add_message down
          (0x43 ∷ [])
          adder
          CallChain.new
          (remote (9 ∷ []) (0x43 ∷ []) (0x31 ∷ []))
          5
          0
        ≡ (
          (nth_call
              (remote_invoke add_message down CallChain.new
                (9 ∷ [])
                (0x43 ∷ [])
                (0x31 ∷ [])
                (5 ∷ []))
              k
              0).0,
          (nth_call
              (remote_invoke add_message down CallChain.new
                (9 ∷ [])
                (0x43 ∷ [])
                (0x31 ∷ [])
                (5 ∷ []))
              k
              0).1,
          pauses default_policy k 0,
        ))
    × ((k ≡ default_policy.max_retries)
        ⊎ ((r : ℕ) × ((nth_call
                (remote_invoke add_message down CallChain.new
                  (9 ∷ [])
                  (0x43 ∷ [])
                  (0x31 ∷ [])
                  (5 ∷ []))
                k
                0).1
              ≡ ok r)))
    × All (λ d. d ≤ default_policy.max_delay) (pauses default_policy k 0)
ask_cluster-pauses_example =
    ask_cluster-pauses default_policy add_message down (0x43 ∷ []) adder CallChain.new (9 ∷ [])
      (0x43 ∷ []) (0x31 ∷ []) 5 (5 ∷ []) 0 refl
