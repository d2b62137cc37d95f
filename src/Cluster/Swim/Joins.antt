-- ===== src/Cluster/Swim/Joins.antt =====
-- crates/orlando-cluster/src/swim.rs: what a join does to the table that hears of it.
use orlando.Base.{
  ℕ, ◌≡◌, ◌≢◌, refl, List, [], ◌∷◌, ◌++◌, Option, none, some, lookup, lookup-insert, arith, ◌∙◌,
  inl, inr, Option-cases,
}
use orlando.Core.Ids.{text_key}
use orlando.Cluster.Ring.{SiloAddress}
use orlando.Cluster.Swim.{
  alive, SwimMember, SwimState, Shared, GossipUpdate, alive_update, suspect_update, dead_update,
  join_update, Batch, on_alive, on_suspect, refute, enqueue_gossip, on_dead, on_join, set_member,
  apply_update, apply_all, apply_gossip,
}

apply_all-append :
    (now : ℕ) (us : List GossipUpdate) (u : GossipUpdate) (b : Batch)
    → apply_all now (us ++ u ∷ []) b ≡ apply_update now u (apply_all now us b)
unfolding apply_all
apply_all-append now [] u b = refl
apply_all-append now (w ∷ us) u b = apply_all-append now us u (apply_update now w b)

on_join-known :
    (silo : SiloAddress) (o : Option SwimMember) (b : Batch)
    → lookup silo.silo_id b.state.members ≡ o
    → lookup silo.silo_id (on_join silo o b).state.members ≢ none
unfolding on_join set_member
on_join-known silo none b h = ground (
  arith,
  lookup-insert silo.silo_id silo.silo_id (record { addr = silo; status = alive; incarnation = 0 })
      b.state.members,
)
on_join-known silo (some m) b h = ground (arith, h)

apply_update-join :
    (now : ℕ) (silo : SiloAddress) (b : Batch)
    → silo.silo_id ≢ b.state.local_addr.silo_id
    → lookup silo.silo_id (apply_update now (join_update silo) b).state.members ≢ none
unfolding apply_update
apply_update-join now silo b ne =
    ground (arith, ne, on_join-known silo (lookup silo.silo_id b.state.members) b refl)

-- Whatever an update says, the silo keeps its address.
apply_update-local :
    (now : ℕ) (u : GossipUpdate) (b : Batch)
    → (apply_update now u b).state.local_addr ≡ b.state.local_addr
unfolding apply_update on_alive on_suspect refute enqueue_gossip on_dead on_join set_member
apply_update-local now (alive_update addr inc) b =
    elim (Option-cases (lookup addr.silo_id b.state.members)) [
      | inl gone ↦ ground (arith, gone)
      | inr (m, found) ↦ ground (arith, found)
    ]
apply_update-local now (suspect_update addr inc by) b =
    elim (Option-cases (lookup addr.silo_id b.state.members)) [
      | inl gone ↦ ground (arith, gone)
      | inr (m, found) ↦ ground (arith, found)
    ]
apply_update-local now (dead_update addr inc) b =
    elim (Option-cases (lookup addr.silo_id b.state.members)) [
      | inl gone ↦ ground (arith, gone)
      | inr (m, found) ↦ ground (arith, found)
    ]
apply_update-local now (join_update addr) b =
    elim (Option-cases (lookup addr.silo_id b.state.members)) [
      | inl gone ↦ ground (arith, gone)
      | inr (m, found) ↦ ground (arith, found)
    ]

apply_all-local :
    (now : ℕ) (us : List GossipUpdate) (b : Batch)
    → (apply_all now us b).state.local_addr ≡ b.state.local_addr
unfolding apply_all
apply_all-local now [] b = refl
apply_all-local now (u ∷ us) b =
    apply_all-local now us (apply_update now u b) ∙ apply_update-local now u b

-- A message whose last word is that another silo joined leaves that silo a member.
pub apply_gossip-join :
    (now : ℕ) (us : List GossipUpdate) (silo : SiloAddress) (s : SwimState) (w : Shared)
    → silo.silo_id ≢ s.local_addr.silo_id
    → lookup silo.silo_id (apply_gossip now (us ++ join_update silo ∷ []) s w).0.members ≢ none
unfolding apply_gossip
apply_gossip-join now us silo s w ne =
    let b : Batch = record {
      state = s;
      ring_adds = [];
      ring_removes = [];
      dropped = [];
      announced = [];
    } in
    let heard = apply_all now us b in
    ground (
      arith,
      apply_all-append now us (join_update silo) b,
      apply_all-local now us b,
      apply_update-join now silo heard,
      ne,
    )
