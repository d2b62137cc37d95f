-- ===== src/Cluster/Rebalancer.antt =====
-- crates/orlando-cluster/src/rebalancer.rs: the activations that leave a silo when the members of the
-- cluster change. The grace period in which a task may end is not part of the directory.
pub mod Settles
use mathlib.Core.Option
use orlando.Base.{
  ℕ, Bool, true, false, not, List, [], ◌∷◌, Option, none, some, if◌then◌else◌, same, keep, is_empty,
}
use orlando.Core.Ids.{Text, text_key, GrainId, format_id}
use orlando.Cluster.Ring
use orlando.Cluster.Ring.{SiloAddress, HashRing}
use orlando.Runtime.Directory.{GrainDirectory, Activation, take_activation, grain_ids}

elsewhere : Text → Option SiloAddress → Bool
elsewhere local_silo_id none = false
elsewhere local_silo_id (some target) = not (same target.silo_id local_silo_id)

-- The ring gives the grain to another silo.
unfoldable pub has_moved : HashRing → Text → GrainId → Bool
unfolding elsewhere
has_moved ring local_silo_id id =
    elsewhere local_silo_id (Ring.get (format_id id.type_name id.key) ring)

and_taken : Option Activation → List Activation → List Activation
and_taken none rest = rest
and_taken (some a) rest = a ∷ rest

-- The loop over the grains to remove: the activations whose senders are dropped, in order.
unfoldable pub take_all : List GrainId → GrainDirectory → GrainDirectory × List Activation
unfolding and_taken
take_all [] d = (d, [])
take_all (id ∷ ids) d =
    let (d', a) = take_activation id d in
    let (d'', rest) = take_all ids d' in (d'', and_taken a rest)

unfoldable pub rebalance : HashRing → Text → GrainDirectory → GrainDirectory × List Activation
unfolding has_moved take_all
rebalance ring local_silo_id d = take_all (keep (has_moved ring local_silo_id) (grain_ids d)) d

-- What the loop of the rebalancer receives, with the ring at that time: both a change and a lag are
-- answered by a rebalance.
pub data Received : Type 0 where
  changed lagged : HashRing → Received

unfoldable pub run : Text → List Received → GrainDirectory → GrainDirectory
unfolding rebalance
run local_silo_id [] d = d
run local_silo_id (changed ring ∷ rs) d = run local_silo_id rs (rebalance ring local_silo_id d).0
run local_silo_id (lagged ring ∷ rs) d = run local_silo_id rs (rebalance ring local_silo_id d).0
