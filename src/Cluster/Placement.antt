-- ===== src/Cluster/Placement.antt =====
-- crates/orlando-cluster/src/placement.rs: which silo a grain is placed on, and cluster_silo.rs: the
-- reference that a silo gives for a grain (`get_ref`), with the activation of a grain at home. The
-- random number is an argument: `pick n` is drawn below n.
pub mod Agrees
use mathlib.Core.Option
use orlando.Base.{
  ℕ, zero, suc, Bool, true, false, List, [], ◌∷◌, Option, none, some, if◌then◌else◌, same, length,
}
use orlando.Core.Ids.{Text, text_key, GrainId, format_id}
use orlando.Cluster.Ring
use orlando.Cluster.Ring.{SiloAddress, HashRing}
use orlando.Runtime.Directory.{GrainDirectory, Sender, get_or_insert}

-- The trait: grain type, grain key, local silo id and ring.
abbrev pub PlacementStrategy : Type 0
PlacementStrategy = Text → Text → Text → HashRing → Option SiloAddress

unfoldable pub hash_based : PlacementStrategy
hash_based grain_type grain_key local_silo_id ring = Ring.get (format_id grain_type grain_key) ring

-- `into_iter().find(..)` by silo id
unfoldable pub find_silo : Text → List SiloAddress → Option SiloAddress
find_silo silo_id [] = none
find_silo silo_id (s ∷ ss) = if same s.silo_id silo_id then some s else find_silo silo_id ss

unfoldable pub prefer_local : PlacementStrategy
unfolding find_silo
prefer_local grain_type grain_key local_silo_id ring = find_silo local_silo_id (Ring.members ring)

unfoldable pub nth : ℕ → List SiloAddress → Option SiloAddress
nth i [] = none
nth zero (s ∷ ss) = some s
nth (suc i) (s ∷ ss) = nth i ss

unfoldable pub random : (ℕ → ℕ) → PlacementStrategy
unfolding nth
random pick grain_type grain_key local_silo_id ring =
    nth (pick (length (Ring.members ring))) (Ring.members ring)

-- The bytes `prefer_local` and `random`.
abbrev pub prefer_local_hint : Text
prefer_local_hint =
    0x70 ∷ 0x72 ∷ 0x65 ∷ 0x66 ∷ 0x65 ∷ 0x72 ∷ 0x5f ∷ 0x6c ∷ 0x6f ∷ 0x63 ∷ 0x61 ∷ 0x6c ∷ []

abbrev pub random_hint : Text
random_hint = 0x72 ∷ 0x61 ∷ 0x6e ∷ 0x64 ∷ 0x6f ∷ 0x6d ∷ []

-- The hint of a grain, or the silo's own strategy: for no hint, for `hash` and for an unknown one.
unfoldable pub strategy_for : (ℕ → ℕ) → PlacementStrategy → Option Text → PlacementStrategy
strategy_for pick placement none = placement
strategy_for pick placement (some hint) =
    if same hint prefer_local_hint
    then prefer_local
    else if same hint random_hint
    then random pick
    else placement

-- What a reference holds: the sender of a mailbox at home, or where the calls go.
pub data Located : Type 0 where
  at_home : Sender → Located
  away : (endpoint : Text) → Located

module _ (is_closed : ℕ → Bool) (local_addr : SiloAddress) (id : GrainId) where
  -- `local_activate`
  unfoldable pub local_activate : GrainDirectory → GrainDirectory × Located
  local_activate d = let (d', s) = get_or_insert is_closed id d in (d', at_home s)

  unfoldable pub ref_to : Option SiloAddress → GrainDirectory → GrainDirectory × Located
  unfolding local_activate
  ref_to none d = local_activate d
  ref_to (some t) d =
      if same t.silo_id local_addr.silo_id then local_activate d else (d, away (Ring.endpoint t))

  unfoldable pub get_ref :
      (ℕ → ℕ)
      → PlacementStrategy
      → Option Text
      → HashRing
      → GrainDirectory
      → GrainDirectory × Located
  unfolding ref_to strategy_for
  get_ref pick placement hint ring d =
      ref_to (strategy_for pick placement hint id.type_name id.key local_addr.silo_id ring) d
