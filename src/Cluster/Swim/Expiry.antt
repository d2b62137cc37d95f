-- ===== src/Cluster/Swim/Expiry.antt =====
-- Which members leave: suspects that were not cleared in time, and what a death in a message leaves.
use orlando.Base.{
  ℕ, Bool, false, ◌≡◌, ◌≢◌, refl, sym, ap, ◌∙◌, List, [], ◌∷◌, ◌++◌, Option, none, some, leb,
  if◌then◌else◌, same, lookup, lookup-insert, lookup-remove, same_refl, same_ne, Distinct, arith,
  any, if-taken,
}
use orlando.Core.Ids.{Text, text_key}
use orlando.Cluster.Ring
use orlando.Cluster.Ring.{SiloAddress, HashRing}
use orlando.Cluster.Swim.{
  alive, SwimMember, dead_update, join_update, SwimState, Shared, enqueue_gossip, Batch, set_member,
  on_dead, on_join, apply_update, apply_all, apply_gossip, timed_out, expired, declared,
  declare_dead, declare_all, expire_suspects, remove_all, add_all,
}

-- The member table without the suspects whose time is over.
pub settled : ℕ → ℕ → Option SwimMember → Option SwimMember
unfolding timed_out
settled now timeout none = none
settled now timeout (some m) = if timed_out now timeout m.status then none else some m

listed : Text → List Text → Bool
listed id ids = any (λ i. same i id) ids

unlisted-expired :
    (now timeout : ℕ) (id : Text) (ms : List (Text × SwimMember))
    → lookup id ms ≡ none
    → listed id (expired now timeout ms) ≡ false
unfolding listed expired lookup
unlisted-expired now timeout id [] d = refl
unlisted-expired now timeout id ((j, m) ∷ ms) d = ground (arith, unlisted-expired now timeout id ms)

listed-expired :
    (now timeout : ℕ) (id : Text) (ms : List (Text × SwimMember))
    → Distinct ms
    → settled now timeout (lookup id ms)
      ≡ (if listed id (expired now timeout ms) then none else lookup id ms)
unfolding listed expired settled lookup
listed-expired now timeout id [] d = refl
listed-expired now timeout id ((j, m) ∷ ms) d =
    ground (arith, unlisted-expired now timeout j ms, listed-expired now timeout id ms d.1)

lookup-declared :
    (id i : Text) (o : Option SwimMember) (s : SwimState) (w : Shared)
    → lookup i s.members ≡ o
    → lookup id (declared i o s w).0.members ≡ (if same i id then none else lookup id s.members)
unfolding declared enqueue_gossip
lookup-declared id i none s w h = ground arith
lookup-declared id i (some m) s w h = lookup-remove i id s.members

lookup-declare_all :
    (id : Text) (ids : List Text) (s : SwimState) (w : Shared)
    → lookup id (declare_all ids s w).0.members
      ≡ (if listed id ids then none else lookup id s.members)
unfolding listed declare_all declare_dead
lookup-declare_all id [] s w = refl
lookup-declare_all id (i ∷ ids) s w =
    let (s', w') = declare_dead i s w in
    ground
      (arith, lookup-declare_all id ids s' w', lookup-declared id i (lookup i s.members) s w refl)

-- After `expire_suspects` exactly the members are left that are alive or were suspected no longer than
-- the timeout ago, each as it stood. No id stands twice in the table.
pub expire_suspects-settled :
    (now timeout : ℕ) (id : Text) (s : SwimState) (w : Shared)
    → Distinct s.members
    → lookup id (expire_suspects now timeout s w).0.members
      ≡ settled now timeout (lookup id s.members)
unfolding expire_suspects
expire_suspects-settled now timeout id s w d =
    lookup-declare_all id (expired now timeout s.members) s w
    ∙ sym (listed-expired now timeout id s.members d)

module _ (now : ℕ) (a : SiloAddress) (b : Batch) (ne : a.silo_id ≢ b.state.local_addr.silo_id)
    (h : lookup a.silo_id b.state.members ≡ none) where
  newcomer : SwimMember
  newcomer = record { addr = a; status = alive; incarnation = 0 }

  apply_update-join : apply_update now (join_update a) b ≡ on_join a none b
  unfolding apply_update
  apply_update-join = rw (same_ne a.silo_id b.state.local_addr.silo_id ne, h)

  apply_update-dead :
      (inc : ℕ)
      → apply_update now (dead_update a inc) (on_join a none b)
        ≡ on_dead a inc (some newcomer) (on_join a none b)
  unfolding apply_update on_join set_member newcomer
  apply_update-dead inc =
      rw (same_ne a.silo_id b.state.local_addr.silo_id ne, lookup-insert, same_refl)

  apply_all-join_dead :
      (inc : ℕ)
      → apply_all now (join_update a ∷ dead_update a inc ∷ []) b
        ≡ on_dead a inc (some newcomer) (on_join a none b)
  unfolding apply_all
  apply_all-join_dead inc =
      ap (apply_update now (dead_update a inc)) apply_update-join ∙ apply_update-dead inc

  -- What is left of a silo that joined and died.
  IsGone : Batch → Type 0
  IsGone b' =
      (lookup a.silo_id b'.state.members ≡ none)
      × (b'.ring_adds ≡ b.ring_adds ++ a ∷ [])
      × (b'.ring_removes ≡ b.ring_removes ++ a ∷ [])

  on_dead-IsGone : (inc : ℕ) → IsGone (on_dead a inc (some newcomer) (on_join a none b))
  unfolding IsGone on_dead on_join set_member newcomer
  on_dead-IsGone inc =
      if-taken IsGone (leb 0 inc) (λ _. (rw (lookup-remove, same_refl), refl, refl))
        (λ c. absurd (ground arith))

-- A message that lets an unknown silo other than this one join and then reports its death leaves no member of that name, but the
-- ring still gets the silo: the removals are made before the additions.
pub apply_gossip-join_dead :
    (now : ℕ) (a : SiloAddress) (inc : ℕ) (s : SwimState) (w : Shared)
    → a.silo_id ≢ s.local_addr.silo_id
    → lookup a.silo_id s.members ≡ none
    → let (s', w') = apply_gossip now (join_update a ∷ dead_update a inc ∷ []) s w in
      (lookup a.silo_id s'.members ≡ none) × (w'.ring ≡ Ring.add a (Ring.remove a w.ring))
unfolding apply_gossip IsGone remove_all add_all
apply_gossip-join_dead now a inc s w ne h =
    let b : Batch = record {
      state = s;
      ring_adds = [];
      ring_removes = [];
      dropped = [];
      announced = [];
    } in
    let b' = on_dead a inc (some (newcomer now a b ne h)) (on_join a none b) in
    let e = apply_all-join_dead now a b ne h inc in
    let (left, adds, removes) = on_dead-IsGone now a b ne h inc in
    (
      ap (λ x. lookup a.silo_id x.state.members) e ∙ left,
      ap (λ x. add_all x.ring_adds (remove_all x.ring_removes w.ring)) e
          ∙ ap (λ xs. add_all xs (remove_all b'.ring_removes w.ring)) adds
          ∙ ap (λ xs. Ring.add a (remove_all xs w.ring)) removes,
    )
