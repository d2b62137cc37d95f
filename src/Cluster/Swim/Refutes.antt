-- ===== src/Cluster/Swim/Refutes.antt =====
-- Which news about a member the table takes, and how a silo refutes a suspicion about itself.
use orlando.Base.{
  ℕ, ◌+◌, ◌%◌, ◌^◌, ◌≤◌, ◌<◌, true, false, ◌&&◌, ◌≡◌, ◌≢◌, refl, subst, inl, ◌⊎◌, List, [], ◌∷◌,
  Option, none, some, ltb, leb, same, All, last?, last?-append, lookup, insert, lookup-insert,
  lookup-remove, arith, drop, if-both, if-taken,
}
use orlando.Core.Ids.{Text, text_key}
use orlando.Cluster.Ring.{SiloAddress}
use orlando.Cluster.Swim.{
  SwimMember, GossipUpdate, alive_update, dead_update, suspect_update, join_update, SwimState,
  Shared, enqueue_gossip, Batch, set_member, on_alive, on_suspect, refute, on_dead, on_join,
  apply_update, apply_all, apply_gossip, is_alive,
}

-- What may stand for a member after news of it: itself, a higher incarnation, or a suspicion of an
-- alive member.
pub Supersedes : SwimMember → SwimMember → Type 0
Supersedes m m' =
    (m ≡ m')
    ⊎ (m.incarnation < m'.incarnation)
    ⊎ (m.incarnation ≤ m'.incarnation) × (is_alive m.status ≡ true) × (is_alive m'.status ≡ false)

-- The update is no death of the member.
unfoldable pub Spares : Text → GossipUpdate → Type 0
Spares id (alive_update addr inc) = Unit
Spares id (suspect_update addr inc by) = Unit
Spares id (dead_update addr inc) = addr.silo_id ≢ id
Spares id (join_update addr) = Unit

Supersedes-trans : (a b c : SwimMember) → Supersedes a b → Supersedes b c → Supersedes a c
unfolding Supersedes
Supersedes-trans a b c h k = ground arith

Later : Text → SwimMember → Batch → Type 0
Later id m b = (m' : SwimMember) × (lookup id b.state.members ≡ some m') × Supersedes m m'

stays : (id : Text) (m : SwimMember) (b : Batch) → lookup id b.state.members ≡ some m → Later id m b
unfolding Later Supersedes
stays id m b h = (m, h, inl refl)

module _ (id : Text) (m n : SwimMember) (addr : SiloAddress) (b : Batch)
    (h : lookup id b.state.members ≡ some m)
    (e : lookup addr.silo_id b.state.members ≡ some n) where
  set-Later : (x : SwimMember) → Supersedes n x → Later id m (set_member addr.silo_id x b)
  unfolding Later Supersedes set_member
  set-Later x k = ground (arith, lookup-insert addr.silo_id id x b.state.members)

module _ (now : ℕ) (id : Text) (m : SwimMember) (addr : SiloAddress) (inc : ℕ) (b : Batch)
    (h : lookup id b.state.members ≡ some m) where
  on_alive-Later :
      (o : Option SwimMember)
      → lookup addr.silo_id b.state.members ≡ o
      → Later id m (on_alive addr inc o b)
  unfolding on_alive Supersedes
  on_alive-Later none e = stays id m b h
  on_alive-Later (some n) e =
      if-taken (Later id m) (ltb n.incarnation inc)
        (λ c. set-Later id m n addr b h e _ (ground arith)) (λ _. stays id m b h)

  on_suspect-Later :
      (by : Text) (o : Option SwimMember)
      → lookup addr.silo_id b.state.members ≡ o
      → Later id m (on_suspect now addr inc by o b)
  unfolding on_suspect Supersedes is_alive
  on_suspect-Later by none e = stays id m b h
  on_suspect-Later by (some n) e =
      if-taken (Later id m) (leb n.incarnation inc && is_alive n.status)
        (λ c. set-Later id m n addr b h e _ (ground arith)) (λ _. stays id m b h)

  on_dead-Later : addr.silo_id ≢ id → (o : Option SwimMember) → Later id m (on_dead addr inc o b)
  unfolding on_dead Later Supersedes
  on_dead-Later ne none = stays id m b h
  on_dead-Later ne (some n) =
      if-both (Later id m) (leb n.incarnation inc)
        (m, ground (arith, lookup-remove addr.silo_id id b.state.members), inl refl)
        (stays id m b h)

  joined_other :
      lookup addr.silo_id b.state.members ≡ none
      → (x : SwimMember) → lookup id (insert addr.silo_id x b.state.members) ≡ some m
  joined_other e x = ground (arith, lookup-insert addr.silo_id id x b.state.members)

  on_join-Later :
      (o : Option SwimMember)
      → lookup addr.silo_id b.state.members ≡ o
      → Later id m (on_join addr o b)
  unfolding on_join Later Supersedes set_member
  on_join-Later none e = (m, joined_other e _, inl refl)
  on_join-Later (some n) e = stays id m b h

apply_update-Later :
    (now : ℕ) (u : GossipUpdate) (id : Text) (m : SwimMember) (b : Batch)
    → Spares id u
    → lookup id b.state.members ≡ some m
    → Later id m (apply_update now u b)
unfolding apply_update refute enqueue_gossip Spares Later Supersedes
apply_update-Later now (alive_update addr inc) id m b sp h =
    if-both (Later id m) (same addr.silo_id b.state.local_addr.silo_id) (stays id m b h)
      (on_alive-Later now id m addr inc b h (lookup addr.silo_id b.state.members) refl)
apply_update-Later now (suspect_update addr inc by) id m b sp h =
    if-both (Later id m) (same addr.silo_id b.state.local_addr.silo_id)
      (if-both (Later id m) (leb b.state.local_incarnation inc) (m, h, inl refl) (stays id m b h))
      (on_suspect-Later now id m addr inc b h by (lookup addr.silo_id b.state.members) refl)
apply_update-Later now (dead_update addr inc) id m b sp h =
    if-both (Later id m) (same addr.silo_id b.state.local_addr.silo_id) (stays id m b h)
      (on_dead-Later now id m addr inc b h sp (lookup addr.silo_id b.state.members))
apply_update-Later now (join_update addr) id m b sp h =
    if-both (Later id m) (same addr.silo_id b.state.local_addr.silo_id) (stays id m b h)
      (on_join-Later now id m addr 0 b h (lookup addr.silo_id b.state.members) refl)

apply_all-Later :
    (now : ℕ) (us : List GossipUpdate) (id : Text) (m : SwimMember) (b : Batch)
    → All (Spares id) us
    → lookup id b.state.members ≡ some m
    → Later id m (apply_all now us b)
unfolding apply_all Later
apply_all-Later now [] id m b sp h = stays id m b h
apply_all-Later now (u ∷ us) id m b sp h =
    let (m1, h1, k1) = apply_update-Later now u id m b sp.0 h in
    let (m2, h2, k2) = apply_all-Later now us id m1 (apply_update now u b) sp.1 h1 in
    (m2, h2, Supersedes-trans m m1 m2 k1 k2)

-- A member whose death a message does not report is still a member after it, and what stands for it
-- then is what stood there before, or has a higher incarnation, or is a suspicion of an alive member
-- under no lower incarnation.
pub apply_gossip-Supersedes :
    (now : ℕ) (us : List GossipUpdate) (id : Text) (m : SwimMember) (s : SwimState) (w : Shared)
    → All (Spares id) us
    → lookup id s.members ≡ some m
    → (m' : SwimMember) × (lookup id (apply_gossip now us s w).0.members ≡ some m')
      × Supersedes m m'
unfolding apply_gossip Later
apply_gossip-Supersedes now us id m s w sp h = apply_all-Later now us id m _ sp h

-- The incarnation of a suspicion leaves room for a higher one.
unfoldable pub Fits : GossipUpdate → Type 0
Fits (alive_update addr inc) = Unit
Fits (suspect_update addr inc by) = inc + 1 < 2 ^ 64
Fits (dead_update addr inc) = Unit
Fits (join_update addr) = Unit

-- A suspicion about the silo `id` is older than the incarnation `n`.
pub IsOutbid : Text → ℕ → GossipUpdate → Type 0
IsOutbid id n (alive_update addr inc) = Unit
IsOutbid id n (suspect_update addr inc by) = addr.silo_id ≡ id → inc < n
IsOutbid id n (dead_update addr inc) = Unit
IsOutbid id n (join_update addr) = Unit

IsOutbid-mono : (id : Text) (n k : ℕ) (u : GossipUpdate) → n ≤ k → IsOutbid id n u → IsOutbid id k u
unfolding IsOutbid
IsOutbid-mono id n k (alive_update addr inc) h v = tt
IsOutbid-mono id n k (suspect_update addr inc by) h v = λ e. omega (arith, v e)
IsOutbid-mono id n k (dead_update addr inc) h v = tt
IsOutbid-mono id n k (join_update addr) h v = tt

Outbids : GossipUpdate → Batch → Batch → Type 0
Outbids u b b' =
    (b.state.local_incarnation ≤ b'.state.local_incarnation)
    × (b'.state.local_addr ≡ b.state.local_addr)
    × IsOutbid b.state.local_addr.silo_id b'.state.local_incarnation u

apply_update-Outbids :
    (now : ℕ) (u : GossipUpdate) (b : Batch) → Fits u → Outbids u b (apply_update now u b)
unfolding apply_update Outbids IsOutbid on_alive on_suspect on_dead on_join set_member refute
    enqueue_gossip Fits
apply_update-Outbids now (alive_update addr inc) b f = ground arith
apply_update-Outbids now (suspect_update addr inc by) b f = ground arith
apply_update-Outbids now (dead_update addr inc) b f = ground arith
apply_update-Outbids now (join_update addr) b f = ground arith

apply_all-Outbids :
    (now : ℕ) (us : List GossipUpdate) (b : Batch)
    → All Fits us
    → (b.state.local_incarnation ≤ (apply_all now us b).state.local_incarnation)
      × All (IsOutbid b.state.local_addr.silo_id (apply_all now us b).state.local_incarnation) us
unfolding apply_all Outbids
apply_all-Outbids now [] b f = (omega arith, tt)
apply_all-Outbids now (u ∷ us) b f =
    let (le, same_addr, beats) = apply_update-Outbids now u b f.0 in
    let (le', rest) = apply_all-Outbids now us (apply_update now u b) f.1 in
    let n = (apply_all now us (apply_update now u b)).state.local_incarnation in
    (
      omega (arith, le, le'),
      (
        IsOutbid-mono b.state.local_addr.silo_id _ n u le' beats,
        subst (λ a. All (IsOutbid a.silo_id n) us) same_addr rest,
      ),
    )

-- A silo refutes every suspicion about itself in a message: its incarnation never goes back and ends
-- above each of them, if the incarnations that the message names leave room below 2^64.
pub apply_gossip-IsOutbid :
    (now : ℕ) (us : List GossipUpdate) (s : SwimState) (w : Shared)
    → All Fits us
    → (s.local_incarnation ≤ (apply_gossip now us s w).0.local_incarnation)
      × All (IsOutbid s.local_addr.silo_id (apply_gossip now us s w).0.local_incarnation) us
unfolding apply_gossip
apply_gossip-IsOutbid now us s w f = apply_all-Outbids now us _ f

-- A suspicion about the silo itself that is not outdated puts the refutation at the queue's end: the
-- silo's own address under the new incarnation.
pub apply_gossip-refutes :
    (now : ℕ) (addr : SiloAddress) (inc : ℕ) (by : Text) (s : SwimState) (w : Shared)
    → addr.silo_id ≡ s.local_addr.silo_id
    → s.local_incarnation ≤ inc
    → last? (apply_gossip now (suspect_update addr inc by ∷ []) s w).0.pending_gossip
      ≡ some (alive_update s.local_addr ((inc + 1) % 2 ^ 64))
unfolding apply_gossip apply_all apply_update refute enqueue_gossip
apply_gossip-refutes now addr inc by s w e h = ground (
  arith,
  last?-append s.pending_gossip (alive_update s.local_addr ((inc + 1) % 2 ^ 64)),
  last?-append (drop 1 s.pending_gossip) (alive_update s.local_addr ((inc + 1) % 2 ^ 64)),
)
