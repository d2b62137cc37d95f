-- ===== src/Cluster/Swim/Table.antt =====
-- What holds of the member table after any gossip.
use orlando.Base.{
  ℕ, ◌≤◌, Bool, ◌&&◌, ◌||◌, ◌≡◌, ◌≢◌, refl, ◌∙◌, List, [], ◌∷◌, ◌++◌, Option, none, some, ltb, leb,
  if◌then◌else◌, length, length-append, length-drop, length-take, take-append-drop, drop, min,
  lookup, insert, remove, lookup-insert, lookup-remove, Distinct, insert-Distinct, remove-Distinct,
  arith, if-both,
}
use orlando.Core.Ids.{Text, text_key}
use orlando.Cluster.Ring.{SiloAddress}
use orlando.Cluster.Swim.{
  max_pending_gossip, SwimMember, GossipUpdate, alive_update, dead_update, suspect_update,
  join_update, SwimState, Shared, new, drain_gossip, enqueue_gossip, Batch, set_member, on_alive,
  on_suspect, refute, on_dead, on_join, apply_update, apply_all, apply_gossip, answered,
  suspect_member, declare_dead, mark_alive, expired, declare_all, expire_suspects, is_alive,
  after_probe, declared, suspected,
}

pub record IsSane (s : SwimState) : Type 0 where
  pub bounded : length s.pending_gossip ≤ max_pending_gossip
  pub no_self : lookup s.local_addr.silo_id s.members ≡ none
  pub distinct : Distinct s.members

-- A full queue drops its oldest entry, so it never holds more than `max_pending_gossip`.
pub enqueue_gossip-bounded :
    (u : GossipUpdate) (s : SwimState)
    → length s.pending_gossip ≤ max_pending_gossip
    → length (enqueue_gossip u s).pending_gossip ≤ max_pending_gossip
unfolding enqueue_gossip
enqueue_gossip-bounded u s h = ground (
  arith,
  length-append s.pending_gossip (u ∷ []),
  length-append (drop 1 s.pending_gossip) (u ∷ []),
  length-drop 1 s.pending_gossip,
)

-- Draining hands out at most `n` updates, the oldest ones in order, and keeps the others.
pub drain_gossip-append :
    (n : ℕ) (s : SwimState)
    → ((drain_gossip n s).1 ++ (drain_gossip n s).0.pending_gossip ≡ s.pending_gossip)
      × (length (drain_gossip n s).1 ≤ n)
unfolding drain_gossip
drain_gossip-append n s = (
  take-append-drop (min n (length s.pending_gossip)) s.pending_gossip,
  omega (arith, length-take (min n (length s.pending_gossip)) s.pending_gossip),
)

set-IsSane :
    (id : Text) (m : SwimMember) (b : Batch)
    → id ≢ b.state.local_addr.silo_id
    → IsSane b.state
    → IsSane (set_member id m b).state
unfolding set_member
set-IsSane id m b ne v = record {
  bounded = v.bounded;
  no_self =
      ground (arith, v.no_self, lookup-insert id b.state.local_addr.silo_id m b.state.members);
  distinct = insert-Distinct id m b.state.members v.distinct;
}

pub remove-IsSane :
    (id : Text) (s : SwimState) → IsSane s → IsSane (record s { members = remove id s.members })
remove-IsSane id s v = record {
  bounded = v.bounded;
  no_self = ground (arith, v.no_self, lookup-remove id s.local_addr.silo_id s.members);
  distinct = remove-Distinct id s.members v.distinct;
}

pub insert-IsSane :
    (id : Text) (m : SwimMember) (s : SwimState)
    → id ≢ s.local_addr.silo_id
    → IsSane s
    → IsSane (record s { members = insert id m s.members })
unfolding set_member
insert-IsSane id m s ne v =
    set-IsSane id m
      (record { state = s; ring_adds = []; ring_removes = []; dropped = []; announced = [] }) ne v

pub drain_gossip-IsSane : (n : ℕ) (s : SwimState) → IsSane s → IsSane (drain_gossip n s).0
unfolding drain_gossip
drain_gossip-IsSane n s v = record {
  bounded =
      omega (arith, v.bounded, length-drop (min n (length s.pending_gossip)) s.pending_gossip);
  no_self = v.no_self;
  distinct = v.distinct;
}

Keeps : Batch → Batch → Type 0
Keeps b b' = IsSane b'.state × (b'.state.local_addr ≡ b.state.local_addr)

module _ (now : ℕ) (addr : SiloAddress) (inc : ℕ) (b : Batch)
    (ne : addr.silo_id ≢ b.state.local_addr.silo_id) (v : IsSane b.state) where
  on_alive-Keeps : (o : Option SwimMember) → Keeps b (on_alive addr inc o b)
  unfolding Keeps on_alive set_member
  on_alive-Keeps none = (v, refl)
  on_alive-Keeps (some m) =
      if-both (Keeps b) (ltb m.incarnation inc) (set-IsSane addr.silo_id _ b ne v, refl) (v, refl)

  on_suspect-Keeps : (by : Text) (o : Option SwimMember) → Keeps b (on_suspect now addr inc by o b)
  unfolding Keeps on_suspect set_member
  on_suspect-Keeps by none = (v, refl)
  on_suspect-Keeps by (some m) =
      if-both (Keeps b) (leb m.incarnation inc && is_alive m.status)
        (set-IsSane addr.silo_id _ b ne v, refl) (v, refl)

  on_dead-Keeps : (o : Option SwimMember) → Keeps b (on_dead addr inc o b)
  unfolding Keeps on_dead
  on_dead-Keeps none = (v, refl)
  on_dead-Keeps (some m) = ground (arith, remove-IsSane addr.silo_id b.state v)

  on_join-Keeps : (o : Option SwimMember) → Keeps b (on_join addr o b)
  unfolding Keeps on_join set_member
  on_join-Keeps none = (set-IsSane addr.silo_id _ b ne v, refl)
  on_join-Keeps (some m) = (v, refl)

refute-Keeps : (inc : ℕ) (b : Batch) → IsSane b.state → Keeps b (refute inc b)
unfolding Keeps refute enqueue_gossip
refute-Keeps inc b v = (
  record {
    bounded = enqueue_gossip-bounded _ b.state v.bounded;
    no_self = v.no_self;
    distinct = v.distinct;
  },
  refl,
)

-- No update, whatever it says, makes the silo a member of its own table, a member stand twice or the
-- queue outgrow its bound, and the silo keeps its address.
pub apply_update-IsSane :
    (now : ℕ) (u : GossipUpdate) (b : Batch)
    → IsSane b.state
    → IsSane (apply_update now u b).state
      × ((apply_update now u b).state.local_addr ≡ b.state.local_addr)
unfolding apply_update Keeps
apply_update-IsSane now (alive_update addr inc) b v = ground (
  arith,
  λ (ne : addr.silo_id ≢ b.state.local_addr.silo_id).
      on_alive-Keeps now addr inc b ne v (lookup addr.silo_id b.state.members),
)
apply_update-IsSane now (suspect_update addr inc by) b v = ground (
  arith,
  refute-Keeps inc b v,
  λ (ne : addr.silo_id ≢ b.state.local_addr.silo_id).
      on_suspect-Keeps now addr inc b ne v by (lookup addr.silo_id b.state.members),
)
apply_update-IsSane now (dead_update addr inc) b v = ground (
  arith,
  λ (ne : addr.silo_id ≢ b.state.local_addr.silo_id).
      on_dead-Keeps now addr inc b ne v (lookup addr.silo_id b.state.members),
)
apply_update-IsSane now (join_update addr) b v = ground (
  arith,
  λ (ne : addr.silo_id ≢ b.state.local_addr.silo_id).
      on_join-Keeps now addr 0 b ne v (lookup addr.silo_id b.state.members),
)

pub apply_all-IsSane :
    (now : ℕ) (us : List GossipUpdate) (b : Batch)
    → IsSane b.state
    → IsSane (apply_all now us b).state
      × ((apply_all now us b).state.local_addr ≡ b.state.local_addr)
unfolding apply_all
apply_all-IsSane now [] b v = (v, refl)
apply_all-IsSane now (u ∷ us) b v =
    let (v1, e1) = apply_update-IsSane now u b v in
    let (v2, e2) = apply_all-IsSane now us (apply_update now u b) v1 in (v2, e2 ∙ e1)

-- Whatever a message says, `apply_gossip` leaves the silo out of its own table, no member there twice
-- and the queue within its bound, where that held before; and the silo keeps its address.
pub apply_gossip-IsSane :
    (now : ℕ) (us : List GossipUpdate) (s : SwimState) (w : Shared)
    → IsSane s
    → IsSane (apply_gossip now us s w).0 × ((apply_gossip now us s w).0.local_addr ≡ s.local_addr)
unfolding apply_gossip
apply_gossip-IsSane now us s w v = apply_all-IsSane now us _ v

pub new-IsSane : (a : SiloAddress) → IsSane (new a)
unfolding new lookup
new-IsSane a = record { bounded = omega arith; no_self = refl; distinct = tt }

pub enqueue-IsSane : (u : GossipUpdate) (s : SwimState) → IsSane s → IsSane (enqueue_gossip u s)
unfolding enqueue_gossip
enqueue-IsSane u s v = record {
  bounded = enqueue_gossip-bounded u s v.bounded;
  no_self = v.no_self;
  distinct = v.distinct;
}

-- A known member has not the silo's own id.
known_ne :
    (id : Text) (m : SwimMember) (s : SwimState)
    → IsSane s
    → lookup id s.members ≡ some m
    → id ≢ s.local_addr.silo_id
known_ne id m s v h = ground (arith, v.no_self)

module _ (id : Text) (m : SwimMember) (s : SwimState) (v : IsSane s)
    (h : lookup id s.members ≡ some m) where
  update-IsSane : (m' : SwimMember) → IsSane (record s { members = insert id m' s.members })
  update-IsSane m' = insert-IsSane id m' s (known_ne id m s v h) v

answered-IsSane :
    (id : Text) (o : Option SwimMember) (s : SwimState)
    → IsSane s
    → lookup id s.members ≡ o
    → IsSane (answered id o s)
unfolding answered
answered-IsSane id none s v h = v
answered-IsSane id (some m) s v h = update-IsSane id m s v h _

suspected-IsSane :
    (now : ℕ) (id : Text) (o : Option SwimMember) (s : SwimState)
    → IsSane s
    → lookup id s.members ≡ o
    → IsSane (suspected now id o s)
unfolding suspected
suspected-IsSane now id none s v h = v
suspected-IsSane now id (some m) s v h =
    if-both IsSane (is_alive m.status) (enqueue-IsSane _ _ (update-IsSane id m s v h _)) v

declared-IsSane :
    (id : Text) (o : Option SwimMember) (s : SwimState) (w : Shared)
    → IsSane s
    → IsSane (declared id o s w).0
unfolding declared
declared-IsSane id none s w v = v
declared-IsSane id (some m) s w v = enqueue-IsSane _ _ (remove-IsSane id s v)

declare_all-IsSane :
    (ids : List Text) (s : SwimState) (w : Shared) → IsSane s → IsSane (declare_all ids s w).0
unfolding declare_all declare_dead
declare_all-IsSane [] s w v = v
declare_all-IsSane (id ∷ ids) s w v =
    declare_all-IsSane ids _ _ (declared-IsSane id (lookup id s.members) s w v)

-- The end of a protocol period, whatever the probes gave, leaves the silo out of its own table, no
-- member there twice and the queue within its bound, where that held before.
pub after_probe-IsSane :
    (now timeout : ℕ) (target : Text) (direct_ok indirect_ok : Bool) (s : SwimState) (w : Shared)
    → IsSane s
    → IsSane (after_probe now timeout target direct_ok indirect_ok s w).0
unfolding after_probe expire_suspects mark_alive suspect_member
after_probe-IsSane now timeout target direct_ok indirect_ok s w v =
    let s' =
      if direct_ok || indirect_ok then mark_alive target s else suspect_member now target s in
    declare_all-IsSane (expired now timeout s'.members) s' w (
      if-both IsSane (direct_ok || indirect_ok)
        (answered-IsSane target (lookup target s.members) s v refl)
        (suspected-IsSane now target (lookup target s.members) s v refl))
