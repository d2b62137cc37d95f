-- ===== src/Tests/Directories.antt =====
-- The properties of the activation directory and of the ownership directory at concrete inputs.
use orlando.Base.{
  ℕ, ◌≡◌, ◌≢◌, refl, [], ◌∷◌, some, arith, lookup, insert, ℕ_discrete, text_discrete,
}
use orlando.Core.Ids.{Text, text_key, GrainId, grain_id_key, format_id}
use orlando.Cluster.Ownership.{
  GrainOwnership, InMemoryCrossClusterDirectory, key_of, lookup_owner, register, deregister,
  memory_directory, list_owned_by,
}
use orlando.Cluster.Ownership
use orlando.Cluster.Ownership.Fencing.{register-register}
use orlando.Cluster.Ownership.Entries.{IsKeyed, new-IsKeyed, register-IsKeyed}
use orlando.Cluster.Failover.{healthy, unreachable, promoted}
use orlando.Cluster.Failover.Grace.{IsJustified, watch, watch-IsJustified}
use orlando.Cluster.Failover.Sweep.{HasRoom, check_peer-takes_over}

abbrev cart : GrainId
cart = record { type_name = 0x43 ∷ []; key = 0x31 ∷ [] }

abbrev order : GrainId
order = record { type_name = 0x4f ∷ []; key = 0x31 ∷ [] }

abbrev east : Text
east = 0x45 ∷ []

abbrev west : Text
west = 0x57 ∷ []

-- The grain is owned by `east` under the epoch 4.
abbrev owned : InMemoryCrossClusterDirectory
owned = (register 9 cart east 4 Ownership.new).0

abbrev owner : GrainOwnership
owner = record { cluster_id = east; epoch = 4; registered_at = 9 }

owned-owner : lookup_owner cart owned ≡ some owner
unfolding register Ownership.new lookup_owner key_of format_id lookup insert text_discrete
    ℕ_discrete
owned-owner = refl

owned-IsKeyed : IsKeyed owned
owned-IsKeyed = register-IsKeyed 9 4 cart east Ownership.new new-IsKeyed

register-register_example :
    let (d', o) = register 10 cart west 5 owned in (register 11 cart east 5 d').1 ≡ o
register-register_example = register-register 10 11 cart west east 5 5 owned (omega arith)

watch-IsJustified_example :
    IsJustified 30
      (watch
        (memory_directory 9)
        west
        east
        30
        ((40, unreachable) ∷ (5, unreachable) ∷ (0, healthy) ∷ [])
        owned).1
      ((40, unreachable) ∷ (5, unreachable) ∷ (0, healthy) ∷ [])
watch-IsJustified_example =
    watch-IsJustified (memory_directory 9) west east 30
      ((40, unreachable) ∷ (5, unreachable) ∷ (0, healthy) ∷ []) owned

check_peer-takes_over_example :
    let (d', phase) =
      watch
        (memory_directory 45)
        west
        east
        30
        ((45, unreachable) ∷ (40, unreachable) ∷ (5, unreachable) ∷ [])
        owned in
    ((epoch : ℕ) × (phase ≡ promoted epoch))
    × ((id : GrainId) (o : GrainOwnership) → lookup_owner id d' ≡ some o → o.cluster_id ≢ east)
unfolding register Ownership.new list_owned_by key_of format_id lookup insert HasRoom text_discrete
    ℕ_discrete
check_peer-takes_over_example =
    check_peer-takes_over 45 west east (λ e. absurd (ground arith)) 30 5 40 owned owned-IsKeyed
      (omega arith, tt) (omega arith)
