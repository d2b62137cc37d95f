-- ===== src/Cluster/Transport/Residency.antt =====
-- crates/orlando-cluster/src/transport.rs: a grain that is restricted to certain clusters.
use orlando.Base.{
  true, false, ◌≡◌, ◌⊎◌, inl, inr, refl, List, [], ◌∷◌, none, some, any, same, lookup, ok, err,
  arith, Option-cases,
}
use orlando.Core.Ids.{Text, text_key}
use orlando.Cluster.Auth.{failed_precondition}
use orlando.Cluster.Registry.{MessageRegistry, grain_type_str, allowed_for}
use orlando.Cluster.Transport.{
  InvokeRequest, CrossCluster, first_peer, unowned, with_owner, of_type, check_cross_cluster,
}

-- The cluster is one of the list.
abbrev pub Contains : Text → List Text → Type 0
Contains c cs = any (λ a. same a c) cs ≡ true

-- The gateway is that of a cluster of the list.
pub IsPeerOf : List Text → List (Text × Text) → Text → Type 0
IsPeerOf allowed peers endpoint = (c : Text) × Contains c allowed × (lookup c peers ≡ some endpoint)

first_peer-IsPeerOf :
    (allowed : List Text) (peers : List (Text × Text)) (endpoint : Text)
    → first_peer allowed peers ≡ some endpoint
    → IsPeerOf allowed peers endpoint
unfolding first_peer IsPeerOf
first_peer-IsPeerOf [] peers endpoint h = absurd (ground arith)
first_peer-IsPeerOf (c ∷ cs) peers endpoint h = elim (Option-cases (lookup c peers)) [
  | inl gone ↦
      let (d, inside, at) = first_peer-IsPeerOf cs peers endpoint (ground (arith, h, gone)) in
      (d, ground (arith, inside), at)
  | inr (e, found) ↦ (c, ground arith, ground (arith, h, found))
]

module _ {W : Type 0} (c : CrossCluster W) (m : MessageRegistry W) (req : InvokeRequest)
    (allowed : List Text) where
  -- The call of a grain that no cluster owns and that may not live in this one.
  pub check_cross_cluster-restricted :
      (type_name : Text) (w w' : W)
      → grain_type_str req.grain_type m ≡ some type_name
      → allowed_for req.grain_type m ≡ some allowed
      → any (λ a. same a c.local_cluster_id) allowed ≡ false
      → c.lookup_owner (record { type_name = type_name; key = req.grain_key }) w ≡ (w', ok none)
      → ((endpoint : Text) × (check_cross_cluster c m req w ≡ (w', ok (some endpoint)))
          × IsPeerOf allowed c.peer_endpoints endpoint)
        ⊎ (check_cross_cluster c m req w ≡ (w', err failed_precondition))
  unfolding check_cross_cluster of_type with_owner unowned
  check_cross_cluster-restricted type_name w w' t r n l =
      elim (Option-cases (first_peer allowed c.peer_endpoints)) [
        | inl gone ↦ inr (rw (t, l, r, n, gone) refl)
        | inr (endpoint, found) ↦ inl (
          endpoint,
          rw (t, l, r, n, found) refl,
          first_peer-IsPeerOf allowed c.peer_endpoints endpoint found,
        )
      ]
