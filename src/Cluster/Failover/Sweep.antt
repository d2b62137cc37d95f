-- ===== src/Cluster/Failover/Sweep.antt =====
-- What a promotion sweep leaves in the in-memory directory.
use orlando.Base.{
  ℕ, ◌+◌, ◌-◌, ◌%◌, ◌^◌, ◌≤◌, ◌<◌, ◌≡◌, ◌≢◌, refl, List, [], ◌∷◌, some, leb, if-taken, arith, ok,
  All,
}
use orlando.Core.Ids.{Text, GrainId, text_key}
use orlando.Cluster.Ownership.{
  GrainOwnership, InMemoryCrossClusterDirectory, lookup_owner, register, list_owned_by,
  memory_directory,
}
use orlando.Cluster.Failover.{
  unreachable, FailoverPhase, promoted, promote_grain, sweep, swept, check_peer,
}
use orlando.Cluster.Failover.Grace.{watch}
use orlando.Cluster.Ownership.Entries.{
  IsKeyed, Covers, list_owned_by-Covers, lookup_owner-Covers, register-IsKeyed, register-Covers,
}

-- The epoch after an owner's is one too, a u64.
unfoldable pub HasRoom : GrainId × GrainOwnership → Type 0
HasRoom (id, o) = o.epoch + 1 < 2 ^ 64

module _ (now : ℕ) (local_cluster failed : Text) (ne : local_cluster ≢ failed) where
  sweep-Covers :
      (gs : List (GrainId × GrainOwnership)) (top : ℕ) (d : InMemoryCrossClusterDirectory)
      → IsKeyed d
      → All HasRoom gs
      → Covers failed gs d
      → Covers failed [] (sweep (memory_directory now) local_cluster gs top d).0
  unfolding sweep promote_grain memory_directory HasRoom
  sweep-Covers [] top d v room c = c
  sweep-Covers ((id, o) ∷ gs) top d v room c =
      let epoch = (o.epoch + 1) % 2 ^ 64 in
      sweep-Covers gs _ (register now id local_cluster epoch d).0
        (register-IsKeyed now epoch id local_cluster d v) room.1
        (register-Covers now epoch id local_cluster failed o gs d v ne (omega (arith, room.0)) c)

  TakenOver : InMemoryCrossClusterDirectory × FailoverPhase → Type 0
  TakenOver (d', phase) =
      ((epoch : ℕ) × (phase ≡ promoted epoch))
      × ((id : GrainId) (o : GrainOwnership) → lookup_owner id d' ≡ some o → o.cluster_id ≢ failed)

  swept-TakenOver :
      (d : InMemoryCrossClusterDirectory)
      → IsKeyed d
      → All HasRoom (list_owned_by failed d)
      → TakenOver (swept (memory_directory now) local_cluster (ok (list_owned_by failed d)) d)
  unfolding TakenOver swept
  swept-TakenOver d v room =
      let gs = list_owned_by failed d in
      let (d', top) = sweep (memory_directory now) local_cluster gs 0 d in
      (
        (top, refl),
        lookup_owner-Covers failed d' (sweep-Covers gs 0 d v room (list_owned_by-Covers failed d)),
      )

  -- Three checks that see the failed cluster unreachable, the second one the grace period or more after
  -- the first, promote all its grains: then no grain is its own any more. The in-memory directory holds every entry
  -- under its grain's key, the two clusters differ, and the epochs leave room below 2^64.
  pub check_peer-takes_over :
      (grace t u : ℕ) (d : InMemoryCrossClusterDirectory)
      → IsKeyed d
      → All HasRoom (list_owned_by failed d)
      → grace ≤ u - t
      → let (d', phase) =
          watch
            (memory_directory now)
            local_cluster
            failed
            grace
            ((now, unreachable) ∷ (u, unreachable) ∷ (t, unreachable) ∷ [])
            d in
        ((epoch : ℕ) × (phase ≡ promoted epoch))
        × ((id : GrainId) (o : GrainOwnership)
            → lookup_owner id d' ≡ some o
            → o.cluster_id ≢ failed)
  unfolding watch check_peer memory_directory TakenOver
  check_peer-takes_over grace t u d v room late =
      let P : InMemoryCrossClusterDirectory × FailoverPhase → Type 0 = λ (d', phase).
        TakenOver
          (check_peer (memory_directory now) local_cluster now grace failed unreachable phase d') in
      if-taken P (leb grace (u - t)) (λ _. swept-TakenOver d v room)
        (λ q. absurd (ground (arith, late)))
