-- ===== src/Cluster/Ownership/Entries.antt =====
-- What the entries of the in-memory directory are, and what a registration does to them.
use mathlib.Core.List.{Memᴰ}
use mathlib.Core.List.Memᴰ
use orlando.Base.{
  ℕ, ◌≤◌, ◌<◌, Bool, true, false, not, ◌&&◌, ◌≡◌, ◌≢◌, ◌⊎◌, inl, inr, refl, subst, ap, ◌∙◌, List,
  [], ◌∷◌, Option, none, some, leb, if◌then◌else◌, if-taken, arith, same, lookup, lookup-insert,
  same_ne,
}
use orlando.Core.Ids.{Text, GrainId, text_key}
use orlando.Cluster.Ownership.{
  GrainOwnership, InMemoryCrossClusterDirectory, new, key_of, second, lookup_owner, claim,
  registered, register, owned_in, list_owned_by,
}

-- An entry stands under its grain's key.
pub IsKeyed : InMemoryCrossClusterDirectory → Type 0
IsKeyed d =
    (k : Text) (id : GrainId) (o : GrainOwnership)
    → lookup k d.entries ≡ some (id, o)
    → k ≡ key_of id

module _ (failed : Text) where
  -- Every entry of the failed cluster is among the grains to promote.
  pub Covers : List (GrainId × GrainOwnership) → InMemoryCrossClusterDirectory → Type 0
  Covers gs d =
      (k : Text) (id : GrainId) (o : GrainOwnership)
      → lookup k d.entries ≡ some (id, o)
      → o.cluster_id ≡ failed
      → Memᴰ (id, o) gs

  found :
      (b : Bool) (v w : GrainId × GrainOwnership) (r : Option (GrainId × GrainOwnership))
      → (if b then some v else r) ≡ some w
      → (w ≡ v) ⊎ (r ≡ some w)
  found true v w r e = inl (ground arith)
  found false v w r e = inr e

  pub owned_in-Covers :
      (es : List (Text × (GrainId × GrainOwnership))) (k : Text) (id : GrainId) (o : GrainOwnership)
      → lookup k es ≡ some (id, o)
      → o.cluster_id ≡ failed
      → Memᴰ (id, o) (owned_in failed es)
  unfolding owned_in lookup
  owned_in-Covers [] k id o e c = absurd (ground arith)
  owned_in-Covers ((j, (i, p)) ∷ es) k id o e c =
      let rest : lookup k es ≡ some (id, o) → Memᴰ (id, o) (owned_in failed es) =
        λ h. owned_in-Covers es k id o h c in
      let P : List (GrainId × GrainOwnership) → Type 0 = λ gs. Memᴰ (id, o) gs in
      elim (found (same j k) (i, p) (id, o) (lookup k es) e) [
        | inl h ↦
            if-taken P (same p.cluster_id failed) (λ _. Memᴰ.head h)
              (λ q. absurd (ground (arith, h)))
        | inr h ↦ if-taken P (same p.cluster_id failed) (λ _. Memᴰ.tail (rest h)) (λ _. rest h)
      ]

module _ (now epoch : ℕ) (id : GrainId) (local_cluster : Text)
    (d : InMemoryCrossClusterDirectory) where
  -- What a registration does to the entries.
  pub Change : InMemoryCrossClusterDirectory → Type 0
  Change d' =
      ((d' ≡ d)
        × ((i : GrainId) × (o : GrainOwnership) × (lookup (key_of id) d.entries ≡ some (i, o))
            × (epoch ≤ o.epoch)))
      ⊎ (d'
          ≡ (claim id (record { cluster_id = local_cluster; epoch = epoch; registered_at = now })
              d).0)

  registered-Change :
      (x : Option (GrainId × GrainOwnership))
      → lookup (key_of id) d.entries ≡ x
      → Change (registered now id local_cluster epoch x d).0
  unfolding Change registered
  registered-Change none e = inr refl
  registered-Change (some (i, old)) e =
      let P : InMemoryCrossClusterDirectory × GrainOwnership → Type 0 = λ r. Change r.0 in
      if-taken P (not (same old.cluster_id local_cluster) && leb epoch old.epoch)
        (λ c. inl (refl, (i, old, e, ground arith)))
        (λ c.
          if-taken P (same old.cluster_id local_cluster && leb epoch old.epoch)
            (λ c'. inl (refl, (i, old, e, ground arith))) (λ c'. inr refl))

lookup-claim_other :
    (id : GrainId) (o : GrainOwnership) (k : Text) (d : InMemoryCrossClusterDirectory) (i : GrainId)
    (p : GrainOwnership)
    → lookup k (claim id o d).0.entries ≡ some (i, p)
    → ((k ≡ key_of id) × (id ≡ i) × (o ≡ p))
      ⊎ ((k ≢ key_of id) × (lookup k d.entries ≡ some (i, p)))
unfolding claim
lookup-claim_other id o k d i p e = ground (arith, lookup-insert (key_of id) k (id, o) d.entries)

register-Change :
    (now epoch : ℕ) (id : GrainId) (cluster : Text) (d : InMemoryCrossClusterDirectory)
    → Change now epoch id cluster d (register now id cluster epoch d).0
unfolding register
register-Change now epoch id cluster d =
    registered-Change now epoch id cluster d (lookup (key_of id) d.entries) refl

-- A registration leaves the owners of other grains as they were.
pub lookup_owner-register :
    (now epoch : ℕ) (id other : GrainId) (cluster : Text) (d : InMemoryCrossClusterDirectory)
    → key_of id ≢ key_of other
    → lookup_owner other (register now id cluster epoch d).0 ≡ lookup_owner other d
unfolding Change claim lookup_owner
lookup_owner-register now epoch id other cluster d ne =
    elim (register-Change now epoch id cluster d) [
      | inl (same_d, _) ↦ ap (lookup_owner other) same_d
      | inr claimed ↦
          ap (lookup_owner other) claimed
          ∙ rw (lookup-insert, same_ne (key_of id) (key_of other) ne) refl
    ]

pub new-IsKeyed : IsKeyed new
unfolding IsKeyed new lookup
new-IsKeyed k id o e = absurd (ground arith)

pub register-IsKeyed :
    (now epoch : ℕ) (id : GrainId) (cluster : Text) (d : InMemoryCrossClusterDirectory)
    → IsKeyed d
    → IsKeyed (register now id cluster epoch d).0
unfolding IsKeyed Change
register-IsKeyed now epoch id cluster d v k i o e = elim (register-Change now epoch id cluster d) [
  | inl (same_d, _) ↦ v k i o (subst (λ x. lookup k x.entries ≡ some (i, o)) same_d e)
  | inr claimed ↦
      elim (lookup-claim_other id _ k d i o
        (subst (λ x. lookup k x.entries ≡ some (i, o)) claimed e)) [
          | inl (at, own, _) ↦ at ∙ ap key_of own
          | inr (_, old) ↦ v k i o old
        ]
]

later : {A : Type 0} {x y : A} {ys : List A} → Memᴰ x (y ∷ ys) → x ≢ y → Memᴰ x ys
later (Memᴰ.head e) ne = absurd (ne e)
later (Memᴰ.tail m) ne = m

-- A claim under a higher epoch than its owner's takes a grain away from the failed cluster.
pub register-Covers :
    (now epoch : ℕ) (id : GrainId) (cluster failed : Text) (o : GrainOwnership)
    (gs : List (GrainId × GrainOwnership)) (d : InMemoryCrossClusterDirectory)
    → IsKeyed d
    → cluster ≢ failed
    → o.epoch < epoch
    → Covers failed ((id, o) ∷ gs) d
    → Covers failed gs (register now id cluster epoch d).0
unfolding Covers Change IsKeyed
register-Covers now epoch id cluster failed o gs d v ne lt cover k i p e c =
    elim (register-Change now epoch id cluster d) [
      | inl (same_d, (x, q, stood, higher)) ↦
          let e' = subst (λ x. lookup k x.entries ≡ some (i, p)) same_d e in
          later (cover k i p e' c) (λ h.
            let at : k ≡ key_of id = v k i p e' ∙ ap (λ x. key_of x.0) h in
            let e'' = subst (λ y. lookup y d.entries ≡ some (i, p)) at e' in
            let same_epoch = ap (λ (x : GrainId × GrainOwnership). x.1.epoch) h in
            absurd (ground (arith, e'', stood, higher, same_epoch, lt)))
      | inr claimed ↦
          elim (lookup-claim_other id _ k d i p
            (subst (λ x. lookup k x.entries ≡ some (i, p)) claimed e)) [
              | inl (_, _, own) ↦ absurd (ne (ap (λ x. x.cluster_id) own ∙ c))
              | inr (far, old) ↦
                  later (cover k i p old c) (λ h. far (v k i p old ∙ ap (λ x. key_of x.0) h))
            ]
    ]

module _ (failed : Text) (d : InMemoryCrossClusterDirectory) where
  pub list_owned_by-Covers : Covers failed (list_owned_by failed d) d
  unfolding Covers list_owned_by
  list_owned_by-Covers = owned_in-Covers failed d.entries

  unnamed :
      (id : GrainId) (o : GrainOwnership) (x : Option (GrainId × GrainOwnership))
      → lookup (key_of id) d.entries ≡ x
      → Covers failed [] d
      → second x ≡ some o
      → o.cluster_id ≢ failed
  unfolding Covers second
  unnamed id o none e c h = absurd (ground arith)
  unnamed id o (some (i, p)) e c h = λ q. Memᴰ.not-nil (c (key_of id) i p e (ground arith))

  pub lookup_owner-Covers :
      Covers failed [] d
      → (id : GrainId) (o : GrainOwnership) → lookup_owner id d ≡ some o
      → o.cluster_id ≢ failed
  unfolding lookup_owner
  lookup_owner-Covers c id o h = unnamed id o (lookup (key_of id) d.entries) refl c h
