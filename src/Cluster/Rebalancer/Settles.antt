-- ===== src/Cluster/Rebalancer/Settles.antt =====
-- crates/orlando-cluster/src/rebalancer.rs: which activations a rebalance leaves.
use orlando.Base.{
  Bool, true, false, ◌≡◌, refl, ap, ◌∙◌, inl, inr, List, [], ◌∷◌, ◌++◌, map, none, some,
  if◌then◌else◌, same, same_iff, Option-cases, keep, any, lookup, lookup-remove, arith, Bool-cases,
}
use orlando.Core.Ids.{Text, GrainId, grain_id_key}
use orlando.Cluster.Ring.{HashRing}
use orlando.Runtime.Directory.{GrainDirectory, Activation, take_activation, add_ids, grain_ids}
use orlando.Cluster.Rebalancer.{has_moved, take_all, rebalance}

-- The id is one of the list.
abbrev holds : GrainId → List GrainId → Bool
holds id ids = any (λ j. same j id) ids

any-append :
    (id : GrainId) (xs ys : List GrainId)
    → holds id (xs ++ ys) ≡ (if holds id xs then true else holds id ys)
any-append id [] ys = refl
any-append id (x ∷ xs) ys = ground (arith, any-append id xs ys)

holds-add_ids :
    (id : GrainId) (seen ids : List GrainId)
    → holds id (add_ids seen ids) ≡ (if holds id seen then true else holds id ids)
unfolding add_ids
holds-add_ids id seen [] = ground arith
holds-add_ids id seen (i ∷ is) = ground (
  arith,
  holds-add_ids id seen is,
  holds-add_ids id (seen ++ i ∷ []) is,
  any-append id seen (i ∷ []),
)

holds-keep :
    (p : GrainId → Bool) (id : GrainId) (ids : List GrainId)
    → holds id (keep p ids) ≡ (if p id then holds id ids else false)
holds-keep p id [] = ground arith
holds-keep p id (i ∷ is) = elim (Bool-cases (same i id)) [
  | inl s ↦
      let e : p i ≡ p id = ap p ((same_iff i id).0 s) in ground (arith, e, s, holds-keep p id is)
  | inr s ↦ ground (arith, s, holds-keep p id is)
]

holds-map :
    (id : GrainId) (m : List (GrainId × Activation))
    → holds id (map (λ e. e.0) m) ≡ (elim (lookup id m) [ none ↦ false | some _ ↦ true ])
unfolding lookup
holds-map id [] = refl
holds-map id ((i, a) ∷ m) = ground (arith, holds-map id m)

lookup-take_activation :
    (id j : GrainId) (d : GrainDirectory)
    → lookup j (take_activation id d).0.activations
      ≡ (if same id j then none else lookup j d.activations)
unfolding take_activation
lookup-take_activation id j d = elim (Option-cases (lookup id d.activations)) [
  | inr (a, found) ↦ ground (arith, found, lookup-remove id j d.activations)
  | inl gone ↦ elim (Bool-cases (same id j)) [
    | inr s ↦ ground (arith, gone, s)
    | inl s ↦
        let e : lookup id d.activations ≡ lookup j d.activations =
          ap (λ k. lookup k d.activations) ((same_iff id j).0 s) in
        ground (arith, gone, s, e)
  ]
]

lookup-take_all :
    (j : GrainId) (ids : List GrainId) (d : GrainDirectory)
    → lookup j (take_all ids d).0.activations
      ≡ (if holds j ids then none else lookup j d.activations)
unfolding take_all
lookup-take_all j [] d = refl
lookup-take_all j (i ∷ is) d =
    ground (arith, lookup-take_all j is (take_activation i d).0, lookup-take_activation i j d)

holds-grain_ids :
    (id : GrainId) (d : GrainDirectory) (a : Activation)
    → lookup id d.activations ≡ some a
    → holds id (grain_ids d) ≡ true
unfolding grain_ids
holds-grain_ids id d a found =
    let active : List GrainId = map (λ e. e.0) d.activations in
    let pools : List GrainId = map (λ e. e.0) d.worker_pools in
    let known : holds id active ≡ true = holds-map id d.activations ∙ ground (arith, found) in
    holds-add_ids id active pools ∙ ground (arith, known)

-- A rebalance takes the activations of the grains that the ring gives to other silos, and leaves every
-- other one as it was.
pub lookup-rebalance :
    (ring : HashRing) (local_silo_id : Text) (id : GrainId) (d : GrainDirectory)
    → lookup id (rebalance ring local_silo_id d).0.activations
      ≡ (if has_moved ring local_silo_id id then none else lookup id d.activations)
unfolding rebalance
lookup-rebalance ring local_silo_id id d =
    let moved : List GrainId = keep (has_moved ring local_silo_id) (grain_ids d) in
    elim (Option-cases (lookup id d.activations)) [
      | inl gone ↦ ground (arith, gone, lookup-take_all id moved d)
      | inr (a, found) ↦ ground (
        arith,
        found,
        lookup-take_all id moved d,
        holds-keep (has_moved ring local_silo_id) id (grain_ids d),
        holds-grain_ids id d a found,
      )
    ]
