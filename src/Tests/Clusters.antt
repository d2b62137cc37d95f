-- ===== src/Tests/Clusters.antt =====
-- The properties of the hash ring and of the member table at concrete inputs.
use orlando.Base.{
  ℕ, zero, suc, ◌≡◌, refl, List, [], ◌∷◌, none, some, arith, lookup, ℕ_discrete, text_discrete,
  show,
}
use orlando.Core.Ids.{text_key}
use orlando.Cluster.Ring
use orlando.Cluster.Ring.{SiloAddress, HashRing}
use orlando.Cluster.Ring.Placement.{IsPlaced}
use orlando.Cluster.Ring.Departure.{get-remove_other, OwnsNodes}
use orlando.Cluster.Swim
use orlando.Cluster.Swim.{
  alive, suspect, SwimMember, GossipUpdate, alive_update, dead_update, suspect_update, join_update,
  SwimState, Shared, drain_gossip, apply_gossip, after_probe, expire_suspects,
}
use orlando.Cluster.Swim.Table.{IsSane}
use orlando.Cluster.Swim.Refutes.{Supersedes, Spares, apply_gossip-Supersedes}
use orlando.Cluster.Swim.Expiry.{apply_gossip-join_dead}

abbrev silo : ℕ → SiloAddress
silo n = record { host = 0x68 ∷ []; port = 5000; silo_id = n ∷ [] }

abbrev ring_of_one : HashRing
ring_of_one = Ring.add (silo 1) (Ring.new 2)

new-IsPlaced : (n : ℕ) → IsPlaced (Ring.new n)
unfolding Ring.new
new-IsPlaced n = tt

abbrev ring_of_two : HashRing
ring_of_two = Ring.add (silo 2) ring_of_one

ring_of_two-OwnsNodes : OwnsNodes (silo 1) ring_of_two
unfolding Ring.add Ring.new Ring.insert Ring.node_key Ring.hash_key show
ring_of_two-OwnsNodes zero lt =
    (λ e. ground arith, (λ e. ground arith, (λ e. ground arith, (λ e. ground arith, tt))))
ring_of_two-OwnsNodes (suc zero) lt =
    (λ e. ground arith, (λ e. ground arith, (λ e. ground arith, (λ e. ground arith, tt))))
ring_of_two-OwnsNodes (suc (suc i)) lt = absurd (omega arith)

-- The grain "aaa" is placed on the second silo.
get-remove_other_example :
    Ring.get (0x61 ∷ 0x61 ∷ 0x61 ∷ []) (Ring.remove (silo 1) ring_of_two) ≡ some (silo 2)
unfolding Ring.get Ring.add Ring.new Ring.insert Ring.node_key Ring.hash_key show
get-remove_other_example =
    get-remove_other (silo 1) (silo 2) ring_of_two (0x61 ∷ 0x61 ∷ 0x61 ∷ []) ring_of_two-OwnsNodes
      (λ e. absurd (ground arith)) refl

abbrev local_state : SwimState
local_state = Swim.new (silo 0)

abbrev calm : Shared
calm = record { ring = ring_of_one; closed = []; changes = [] }

abbrev member : SwimMember
member = record { addr = silo 1; status = suspect 3 (2 ∷ []); incarnation = 4 }

abbrev table : SwimState
table = record local_state { members = (1 ∷ [], member) ∷ [] }

abbrev news : List GossipUpdate
news = join_update (silo 2) ∷ alive_update (silo 1) 5 ∷ suspect_update (silo 0) 7 (1 ∷ []) ∷ []

table-IsSane : IsSane table
unfolding Swim.new lookup text_discrete ℕ_discrete
table-IsSane = record { bounded = omega arith; no_self = refl; distinct = (refl, tt) }

apply_gossip-Supersedes_example :
    (m' : SwimMember) × (lookup (1 ∷ []) (apply_gossip 9 news table calm).0.members ≡ some m')
    × Supersedes member m'
unfolding lookup Spares text_discrete ℕ_discrete
apply_gossip-Supersedes_example =
    apply_gossip-Supersedes 9 news (1 ∷ []) member table calm (tt, (tt, (tt, tt))) refl

apply_gossip-join_dead_example :
    let (s', w') = apply_gossip 9 (join_update (silo 3) ∷ dead_update (silo 3) 0 ∷ []) table calm in
    (lookup (3 ∷ []) s'.members ≡ none)
    × (w'.ring ≡ Ring.add (silo 3) (Ring.remove (silo 3) calm.ring))
unfolding Swim.new lookup text_discrete ℕ_discrete
apply_gossip-join_dead_example =
    apply_gossip-join_dead 9 (silo 3) 0 table calm (λ e. absurd (ground arith)) refl
