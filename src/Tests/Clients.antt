-- ===== src/Tests/Clients.antt =====
-- The properties of the client, of joining, of the file store and of the streams at concrete inputs.
use orlando.Base.{
  ℕ, ◌+◌, ◌≤◌, ◌≡◌, refl, sym, ap, true, false, List, [], ◌∷◌, map, none, some, ok, err, arith,
  lookup, insert, show, read, read-show, ℕ_discrete, text_discrete, All, Result,
}
use orlando.Core.Ids.{Text, text_key}
use orlando.Cluster.Ring
use orlando.Cluster.Ring.{SiloAddress, HashRing, endpoint, members}
use orlando.Cluster.Ring.Owners.{is_node}
use orlando.Cluster.Ring.Canonical.{Apart, is_apart, is_apart-Apart}
use orlando.Cluster.MembershipTable.{add_each}
use orlando.Cluster.Auth
use orlando.Cluster.Auth.{authenticate, unauthenticated}
use orlando.Cluster.Swim
use orlando.Cluster.Swim.{Shared}
use orlando.Cluster.Swim.Wire.{ProtoSiloAddress}
use orlando.Cluster.Swim.Addresses.{HasPort}
use orlando.Cluster.Membership
use orlando.Cluster.Membership.{Service, join_silo}
use orlando.Cluster.Connections
use orlando.Cluster.Connections.{ConnectionPool, get_membership}
use orlando.Cluster.Client.{
  ClientError, OrlandoClient, Network, connect, invoke, fetch, refresh_membership,
  no_silo_available,
}
use orlando.Cluster.Client.Attempts.{Counts, invoke-at_most_twice}
use orlando.Cluster.Client.Refreshes.{silos_ring, member_list, connect-agrees}
use orlando.Cluster.Client.Empties.{refresh_empty_lasts}
use orlando.Cluster.Joining.{Joiner, Peers, join_cluster, discover_and_join, static_seeds}
use orlando.Cluster.Joining.Admitted.{
  join_cluster-agrees, Refused, IsSecured, discover_and_join-Refused,
}
use orlando.Cluster.Joining.Seeds.{as_seed, static_seeds-endpoint}

abbrev silo : ℕ → SiloAddress
silo n = record { host = 0x68 ∷ []; port = 5000; silo_id = n ∷ [] }

-- One silo is apart from itself.
alone : (s : SiloAddress) → All (λ s. All (λ t. Apart 150 s t) (s ∷ [])) (s ∷ [])
alone s = ((λ j h k. refl, tt), tt)

one_port : All HasPort (silo 1 ∷ [])
one_port = (omega arith, tt)

abbrev one_member : List ProtoSiloAddress
one_member = member_list (silo 1) [] (alone (silo 1)) one_port

-- A network whose silos answer with the one member, or with none, and echo each call; the world counts
-- the calls.
abbrev answering : List ProtoSiloAddress → Network (Unit {0}) ℕ
answering ms = record {
  dial = λ address w. (w, ok tt);
  get_members = λ c header w. (w, ok ms);
  invoke = λ c timeout header req w.
      (w + 1, ok (record { payload = req.payload; error = []; encoding = 0 }));
}

-- "a:1"
abbrev address : Text
address = 0x61 ∷ 0x3a ∷ 0x31 ∷ []

abbrev dialled_one : Text → ConnectionPool (Unit {0})
dialled_one a = record {
  transports = [];
  memberships = (a, tt) ∷ [];
  gateways = [];
  has_tls = false;
  auth_token = none;
}

connect-agrees_example :
    (c : OrlandoClient (Unit {0})) × (connect (answering one_member) false address 0 ≡ (0, ok c))
    × (c.ring ≡ silos_ring (silo 1) [] (alone (silo 1)) one_port)
    × ((grain_key : Text)
        → Ring.get grain_key c.ring
          ≡ Ring.get grain_key (silos_ring (silo 1) [] (alone (silo 1)) one_port))
unfolding fetch get_membership lookup Connections.new Connections.connect_channel insert
connect-agrees_example =
    connect-agrees (silo 1) [] (alone (silo 1)) one_port (answering one_member) false address 0 0
      (dialled_one address) refl

answering-Counts : Counts (answering one_member) (λ w. w)
answering-Counts = record { dials = λ a w. refl; asks = λ c h w. refl; calls = λ c t h r w. refl }

-- A client that knows the silo 1 on a ring of two virtual nodes.
abbrev client : OrlandoClient (Unit {0})
client = record {
  pool = Connections.new false none;
  ring = Ring.add (silo 1) (Ring.new 2);
  request_timeout = 30;
}

invoke-at_most_twice_example :
    (invoke (answering one_member) (0x67 ∷ []) (0x31 ∷ []) (0x6d ∷ []) (1 ∷ []) 0 client 5).1
    ≤ 5 + 2
invoke-at_most_twice_example =
    invoke-at_most_twice (answering one_member) (λ w. w) answering-Counts (0x67 ∷ []) (0x31 ∷ [])
      (0x6d ∷ []) (1 ∷ []) 0 client 5

refresh_empty_lasts_example :
    let c' = (refresh_membership (answering []) client 0).0 in
    ((e : ClientError) × (connect (answering []) false address 0 ≡ (0, err e)))
    × (refresh_membership (answering []) client 0 ≡ (c', 0, ok tt))
    × (invoke (answering []) (0x67 ∷ []) (0x31 ∷ []) (0x6d ∷ []) (1 ∷ []) 0 c' 7
        ≡ (c', 7, err no_silo_available))
    × (e : ClientError) × (refresh_membership (answering []) c' 7 ≡ (c', 7, err e))
unfolding fetch get_membership members Ring.add Ring.new Ring.insert Ring.node_key Ring.hash_key
    show Connections.new endpoint text_discrete ℕ_discrete lookup Connections.connect_channel insert
refresh_empty_lasts_example =
    refresh_empty_lasts (answering []) false address client (silo 1) [] 0 0 0 7
      (dialled_one (endpoint (silo 1))) (dialled_one address) (0x67 ∷ []) (0x31 ∷ []) (0x6d ∷ [])
      (1 ∷ []) 0 refl refl refl

silos-Apart : is_apart 150 (silo 1) (silo 2) 0 150 ≡ true
unfolding is_apart is_node Ring.node_key Ring.hash_key show
silos-Apart = refl

two_apart : All (λ s. All (λ t. Apart 150 s t) (silo 1 ∷ silo 2 ∷ [])) (silo 1 ∷ silo 2 ∷ [])
two_apart =
    let a = is_apart-Apart 150 (silo 1) (silo 2) silos-Apart in
    (((λ j h k. refl), (a, tt)), (((λ j h k. sym (a j k h)), ((λ j h k. refl), tt)), tt))

abbrev quiet : HashRing → Shared
quiet ring = record { ring = ring; closed = []; changes = [] }

abbrev seed_service : Service
seed_service =
    Membership.new 0 (silo 1) (Swim.new (silo 1)) (quiet (add_each (silo 1 ∷ []) (Ring.new 150))) 3

abbrev newcomer : Joiner (Unit {0})
newcomer = record {
  local_addr = silo 2;
  pool = Connections.new false none;
  swim = Swim.new (silo 2);
  shared = quiet (Ring.add (silo 2) (Ring.new 150));
}

-- The seed lets everybody in.
abbrev open_seed : Peers (Unit {0}) ℕ
open_seed = record {
  dial = λ a w. (w, ok tt);
  join = λ c h p w. (w, ok (join_silo (silo 2) seed_service).1);
  notify_join = λ c h p w. w + 1;
}

join_cluster-agrees_example :
    ((join_cluster open_seed address newcomer 0).2 ≡ ok tt)
    × ((join_cluster open_seed address newcomer 0).0.shared.ring
        ≡ (join_silo (silo 2) seed_service).0.shared.ring)
unfolding get_membership lookup Connections.new Connections.connect_channel insert Membership.new
join_cluster-agrees_example =
    join_cluster-agrees open_seed 150 (silo 1 ∷ []) address newcomer seed_service
      (dialled_one address) tt 0 0 0 two_apart (omega arith, (omega arith, tt)) refl refl refl refl

-- Peers that let in who shows the secret 7.
abbrev admits : Result Auth.Status (Unit {0}) → Result Text (List ProtoSiloAddress)
admits (ok _) = ok []
admits (err _) = err []

abbrev secured_peers : Peers (Unit {0}) ℕ
secured_peers = record {
  dial = λ a w. (w, ok tt);
  join = λ c h p w. (w, admits (authenticate some (7 ∷ []) h));
  notify_join = λ c h p w. w;
}

secured_peers-IsSecured : IsSecured secured_peers some (7 ∷ [])
secured_peers-IsSecured c h p w refused = ([], ap admits refused)

discover_and_join-Refused_example :
    Refused secured_peers newcomer
      (discover_and_join secured_peers (silo 1 ∷ silo 3 ∷ []) newcomer 0)
discover_and_join-Refused_example =
    discover_and_join-Refused secured_peers some (7 ∷ []) secured_peers-IsSecured
      (silo 1 ∷ silo 3 ∷ []) newcomer 0

static_seeds-endpoint_example :
    static_seeds (λ t. some (read t)) (map endpoint (silo 1 ∷ silo 2 ∷ []))
    ≡ map as_seed (silo 1 ∷ silo 2 ∷ [])
static_seeds-endpoint_example =
    static_seeds-endpoint (λ t. some (read t)) (silo 1 ∷ silo 2 ∷ []) (λ n h. ap some (read-show n))
      (omega arith, (omega arith, tt))
