-- ===== src/Cluster/Ownership/Fencing.antt =====
-- What a registration promises: one owner at a time, and an epoch that fences older owners off.
use orlando.Base.{
  ℕ, ◌&&◌, not, ◌≡◌, ◌≢◌, ◌⊎◌, ◌≤◌, ◌<◌, inl, inr, refl, sym, subst, ap, Option, none, some, leb,
  same, same_refl, same_ne, lookup, lookup-insert, lookup-remove, arith, if-both, if-taken,
}
use orlando.Core.Ids.{Text, GrainId, text_key}
use orlando.Cluster.Ownership.{
  GrainOwnership, InMemoryCrossClusterDirectory, key_of, second, lookup_owner, claim, registered,
  register, released, deregister,
}

-- What a registration may give, by what stood there before.
pub data Registered (cluster : Text) (epoch : ℕ) (o : GrainOwnership)
    : Option GrainOwnership → Type 0 where
  first_writer : o.cluster_id ≡ cluster → o.epoch ≡ epoch → Registered cluster epoch o none
  refused : epoch ≤ o.epoch → Registered cluster epoch o (some o)
  promoted :
      (old : GrainOwnership)
      → old.epoch < epoch
      → o.cluster_id ≡ cluster
      → o.epoch ≡ epoch
      → Registered cluster epoch o (some old)

module _ (now : ℕ) (id : GrainId) (cluster : Text) (epoch : ℕ)
    (d : InMemoryCrossClusterDirectory) where
  lookup-claim : (o : GrainOwnership) → lookup_owner id (claim id o d).0 ≡ some o
  unfolding lookup_owner second claim
  lookup-claim o = rw (lookup-insert, same_refl)

  Promise : InMemoryCrossClusterDirectory × GrainOwnership → Type 0
  Promise r = (lookup_owner id r.0 ≡ some r.1) × Registered cluster epoch r.1 (lookup_owner id d)

  stood :
      {o : GrainOwnership} (x : Option (GrainId × GrainOwnership))
      → lookup (key_of id) d.entries ≡ x
      → Registered cluster epoch o (second x)
      → Registered cluster epoch o (lookup_owner id d)
  unfolding lookup_owner
  stood {o} x e r = subst (λ y. Registered cluster epoch o (second y)) (sym e) r

  kept :
      (i : GrainId) (old : GrainOwnership)
      → lookup (key_of id) d.entries ≡ some (i, old)
      → epoch ≤ old.epoch
      → Promise (d, old)
  unfolding Promise lookup_owner second
  kept i old e h = (ap second e, stood (some (i, old)) e (refused h))

  registered-Promise :
      (o : Option (GrainId × GrainOwnership))
      → lookup (key_of id) d.entries ≡ o
      → Promise (registered now id cluster epoch o d)
  unfolding Promise registered claim second
  registered-Promise none e = (lookup-claim _, stood none e (first_writer refl refl))
  registered-Promise (some (i, old)) e =
      if-taken Promise (not (same old.cluster_id cluster) && leb epoch old.epoch)
        (λ c. kept i old e (ground arith))
        (λ c.
          if-taken Promise (same old.cluster_id cluster && leb epoch old.epoch)
            (λ c'. kept i old e (ground arith))
            (λ c'.
              (lookup-claim _, stood (some (i, old)) e (promoted old (ground arith) refl refl))))

-- `register` answers with the owner that the directory then names: the caller where nobody or an
-- older epoch stood there, or else the owner that stood there, whose epoch is no lower.
pub register-Registered :
    (now : ℕ) (id : GrainId) (cluster : Text) (epoch : ℕ) (d : InMemoryCrossClusterDirectory)
    → (lookup_owner id (register now id cluster epoch d).0
        ≡ some (register now id cluster epoch d).1)
      × Registered cluster epoch (register now id cluster epoch d).1 (lookup_owner id d)
unfolding register Promise
register-Registered now id cluster epoch d =
    registered-Promise now id cluster epoch d (lookup (key_of id) d.entries) refl

registered_known :
    (now : ℕ) (id : GrainId) (cluster : Text) (epoch : ℕ) (d : InMemoryCrossClusterDirectory)
    (old : GrainOwnership) (x : Option (GrainId × GrainOwnership))
    → second x ≡ some old
    → epoch ≤ old.epoch
    → (registered now id cluster epoch x d).1 ≡ old
unfolding registered second
registered_known now id cluster epoch d old none e h = absurd (ground arith)
registered_known now id cluster epoch d old (some (i, o)) e h = ground arith

-- No owner stands for a grain under a lower epoch than it registered with.
Registered-epoch :
    (cluster : Text) (epoch : ℕ) (o : GrainOwnership) (x : Option GrainOwnership)
    → Registered cluster epoch o x
    → epoch ≤ o.epoch
Registered-epoch cluster epoch o none (first_writer e f) = omega (arith, f)
Registered-epoch cluster epoch o (some _) (refused h) = h
Registered-epoch cluster epoch o (some _) (promoted old h e f) = omega (arith, f)

-- Of two registrations the second gets the first one's answer if its epoch is no higher, whichever
-- clusters they come from: two clusters that race never both own a grain.
pub register-register :
    (t u : ℕ) (id : GrainId) (a b : Text) (m n : ℕ) (d : InMemoryCrossClusterDirectory)
    → n ≤ m
    → let (d', o) = register t id a m d in (register u id b n d').1 ≡ o
unfolding register lookup_owner
register-register t u id a b m n d h =
    let (named, r) = register-Registered t id a m d in
    let (d', o) = register t id a m d in
    let le = Registered-epoch a m o (lookup_owner id d) r in
    registered_known u id b n d' o (lookup (key_of id) d'.entries) named (omega (arith, le, h))

module _ (id other : GrainId) (d : InMemoryCrossClusterDirectory)
    (ne : key_of id ≢ key_of other) where
  Unmoved : InMemoryCrossClusterDirectory → Type 0
  Unmoved d' = lookup_owner other d' ≡ lookup_owner other d

  claim-Unmoved : (o : GrainOwnership) → Unmoved (claim id o d).0
  unfolding Unmoved claim lookup_owner
  claim-Unmoved o = rw (lookup-insert, same_ne (key_of id) (key_of other) ne)

  registered-Unmoved :
      (now : ℕ) (cluster : Text) (epoch : ℕ) (x : Option (GrainId × GrainOwnership))
      → Unmoved (registered now id cluster epoch x d).0
  unfolding Unmoved registered
  registered-Unmoved now cluster epoch none = claim-Unmoved _
  registered-Unmoved now cluster epoch (some (i, old)) =
      let P : InMemoryCrossClusterDirectory × GrainOwnership → Type 0 = λ r. Unmoved r.0 in
      if-both P (not (same old.cluster_id cluster) && leb epoch old.epoch) refl
        (if-both P (same old.cluster_id cluster && leb epoch old.epoch) refl (claim-Unmoved _))

  released-Unmoved :
      (cluster : Text) (x : Option (GrainId × GrainOwnership)) → Unmoved (released id cluster x d)
  unfolding Unmoved released lookup_owner
  released-Unmoved cluster none = refl
  released-Unmoved cluster (some (i, old)) =
      if-both Unmoved (same old.cluster_id cluster)
        (rw (lookup-remove, same_ne (key_of id) (key_of other) ne)) refl

-- A registration or a release of one grain leaves the owner of another, whose key differs.
pub lookup_owner_other :
    (now : ℕ) (id other : GrainId) (cluster : Text) (epoch : ℕ) (d : InMemoryCrossClusterDirectory)
    → key_of id ≢ key_of other
    → (lookup_owner other (register now id cluster epoch d).0 ≡ lookup_owner other d)
      × (lookup_owner other (deregister id cluster d) ≡ lookup_owner other d)
unfolding register deregister Unmoved
lookup_owner_other now id other cluster epoch d ne = (
  registered-Unmoved id other d ne now cluster epoch (lookup (key_of id) d.entries),
  released-Unmoved id other d ne cluster (lookup (key_of id) d.entries),
)

-- What a release by `cluster` may leave of a grain that `o` owned.
Left :
    GrainId
    → Text
    → GrainOwnership
    → InMemoryCrossClusterDirectory
    → InMemoryCrossClusterDirectory
    → Type 0
Left id cluster o d d' =
    ((o.cluster_id ≡ cluster) × (lookup_owner id d' ≡ none)) ⊎ ((o.cluster_id ≢ cluster) × (d' ≡ d))

released-Left :
    (id : GrainId) (cluster : Text) (o : GrainOwnership) (d : InMemoryCrossClusterDirectory)
    (x : Option (GrainId × GrainOwnership))
    → second x ≡ some o
    → Left id cluster o d (released id cluster x d)
unfolding Left released second lookup_owner
released-Left id cluster o d none h = absurd (ground arith)
released-Left id cluster o d (some (i, old)) h =
    ground (arith, lookup-remove (key_of id) (key_of id) d.entries)

-- A release by the owner leaves the grain without an owner, and one by any other cluster changes
-- nothing.
pub deregister-lookup_owner :
    (id : GrainId) (cluster : Text) (o : GrainOwnership) (d : InMemoryCrossClusterDirectory)
    → lookup_owner id d ≡ some o
    → ((o.cluster_id ≡ cluster) × (lookup_owner id (deregister id cluster d) ≡ none))
      ⊎ ((o.cluster_id ≢ cluster) × (deregister id cluster d ≡ d))
unfolding deregister lookup_owner Left
deregister-lookup_owner id cluster o d h =
    released-Left id cluster o d (lookup (key_of id) d.entries) h

unowned :
    (cluster : Text) (epoch : ℕ) (o : GrainOwnership) (x : Option GrainOwnership)
    → Registered cluster epoch o x
    → x ≡ none
    → (o.cluster_id ≡ cluster) × (o.epoch ≡ epoch)
unowned cluster epoch o none (first_writer e f) h = (e, f)
unowned cluster epoch o (some _) r h = absurd (ground arith)

-- A release forgets the epoch: after the owner has released a grain, any cluster gets it under any
-- epoch, a lower one than the owner's too.
pub register-deregister :
    (now : ℕ) (id : GrainId) (cluster : Text) (epoch : ℕ) (o : GrainOwnership)
    (d : InMemoryCrossClusterDirectory)
    → lookup_owner id d ≡ some o
    → let (d', o') = register now id cluster epoch (deregister id o.cluster_id d) in
      (lookup_owner id d' ≡ some o') × (o'.cluster_id ≡ cluster) × (o'.epoch ≡ epoch)
register-deregister now id cluster epoch o d h =
    let d1 = deregister id o.cluster_id d in
    let (named, r) = register-Registered now id cluster epoch d1 in
    elim (deregister-lookup_owner id o.cluster_id o d h) [
      | inl (_, gone) ↦ let (by, at) = unowned cluster epoch _ _ r gone in (named, by, at)
      | inr (ne, _) ↦ absurd (ne refl)
    ]
