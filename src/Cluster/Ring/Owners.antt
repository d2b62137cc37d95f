-- ===== src/Cluster/Ring/Owners.antt =====
-- crates/orlando-cluster/src/hash_ring.rs: which silo stands at a key after silos were added.
use orlando.Base.{
  ℕ, zero, suc, ◌≡◌, refl, sym, ap, ◌∙◌, ◌⊎◌, inl, inr, Bool, true, false, ◌||◌, List, [], ◌∷◌,
  Option, some, ◌==◌, if◌then◌else◌, same, any, arith, Bool-cases, same_iff, if-both, All,
}
use orlando.Core.Ids.{Text, text_key}
use orlando.Cluster.MembershipTable.{add_each}
use orlando.Cluster.Ring.{SiloAddress, HashRing, node_key, insert, add_nodes, add, members_from}
use orlando.Cluster.Ring.Placement.{All-insert}
use orlando.Cluster.Ring.Ordered.{at_key, Sorted, at_key-insert, insert-Sorted}

-- Whether one of the silo's `n` virtual nodes, from the i-th on, stands at the key.
unfoldable pub is_node : SiloAddress → ℕ → ℕ → ℕ → Bool
is_node s j i zero = false
is_node s j i (suc n) = (node_key s.silo_id i == j) || is_node s j (suc i) n

at_key-add_nodes :
    (s : SiloAddress) (j i n : ℕ) (r : List (ℕ × SiloAddress))
    → at_key j (add_nodes s i n r) ≡ (if is_node s j i n then some s else at_key j r)
unfolding add_nodes is_node
at_key-add_nodes s j i zero r = refl
at_key-add_nodes s j i (suc n) r = ground (
  arith,
  at_key-add_nodes s j (suc i) n (insert (node_key s.silo_id i) s r),
  at_key-insert (node_key s.silo_id i) s j r,
)

add_nodes-Sorted :
    (s : SiloAddress) (i n : ℕ) (r : List (ℕ × SiloAddress)) → Sorted r → Sorted (add_nodes s i n r)
unfolding add_nodes
add_nodes-Sorted s i zero r h = h
add_nodes-Sorted s i (suc n) r h = add_nodes-Sorted s (suc i) n _ (insert-Sorted _ s r h)

add_nodes-All :
    (P : SiloAddress → Type 0) (s : SiloAddress) (i n : ℕ) (r : List (ℕ × SiloAddress))
    → P s
    → All (λ (e : ℕ × SiloAddress). P e.1) r
    → All (λ (e : ℕ × SiloAddress). P e.1) (add_nodes s i n r)
unfolding add_nodes
add_nodes-All P s i zero r p h = h
add_nodes-All P s i (suc n) r p h =
    add_nodes-All P s (suc i) n _ p (All-insert (λ (e : ℕ × SiloAddress). P e.1) _ s r p h)

pub is_node-same_id :
    (s t : SiloAddress) (j i n : ℕ) → s.silo_id ≡ t.silo_id → is_node s j i n ≡ is_node t j i n
unfolding is_node
is_node-same_id s t j i zero e = refl
is_node-same_id s t j i (suc n) e = rw (e, is_node-same_id s t j (suc i) n e) refl

-- The silo that stands at the key once these have been added in turn.
module _ (n j : ℕ) where
  unfoldable pub owner_of : List SiloAddress → Option SiloAddress → Option SiloAddress
  owner_of [] o = o
  owner_of (m ∷ ms) o = owner_of ms (if is_node m j 0 n then some m else o)

  abbrev pub Misses : SiloAddress → Type 0
  Misses m = is_node m j 0 n ≡ false

  pub owner_of-cases :
      (P : SiloAddress → Type 0) (ms : List SiloAddress) (o : Option SiloAddress)
      → All P ms
      → ((owner_of ms o ≡ o) × All Misses ms)
        ⊎ (m : SiloAddress) × P m × (is_node m j 0 n ≡ true) × (owner_of ms o ≡ some m)
  unfolding owner_of
  owner_of-cases P [] o h = inl (refl, tt)
  owner_of-cases P (m ∷ ms) o (p, h) = elim (Bool-cases (is_node m j 0 n)) [
    | inl hit ↦ elim (owner_of-cases P ms (some m) h) [
      | inl (e, miss) ↦ inr (m, p, hit, rw hit e)
      | inr (t, q, hit_t, e) ↦ inr (t, q, hit_t, rw hit e)
    ]
    | inr missed ↦ elim (owner_of-cases P ms o h) [
      | inl (e, miss) ↦ inl (rw missed e, (missed, miss))
      | inr (t, q, hit_t, e) ↦ inr (t, q, hit_t, rw missed e)
    ]
  ]

  -- Where a ring has a silo at the key, its id is that of one of the members.
  pub members_from-at_key :
      (P : SiloAddress → Type 0) (seen : List Text) (r : List (ℕ × SiloAddress)) (m : SiloAddress)
      → at_key j r ≡ some m
      → All P (members_from seen r)
      → (any (λ i. same i m.silo_id) seen ≡ true)
        ⊎ (t : SiloAddress) × P t × (t.silo_id ≡ m.silo_id)
  unfolding members_from at_key
  members_from-at_key P seen [] m e h = absurd (cc)
  members_from-at_key P seen ((k, s) ∷ r) m e h =
      elim (Bool-cases (any (λ i. same i s.silo_id) seen)) [
        | inl old ↦
            let rest : All P (members_from seen r) = rw old at h in
            elim (Bool-cases (k == j)) [
              | inl here ↦ let f : s ≡ m = ground (arith, here, e) in inl (rw (sym f) old)
              | inr past ↦ members_from-at_key P seen r m (ground (arith, past, e)) rest
            ]
        | inr fresh ↦
            let rest : P s × All P (members_from (s.silo_id ∷ seen) r) = rw fresh at h in
            elim (Bool-cases (k == j)) [
              | inl here ↦
                  let f : s ≡ m = ground (arith, here, e) in
                  inr (s, rest.0, ap (λ (x : SiloAddress). x.silo_id) f)
              | inr past ↦ elim (Bool-cases (same s.silo_id m.silo_id)) [
                | inl hit ↦ inr (s, rest.0, (same_iff s.silo_id m.silo_id).0 hit)
                | inr missed ↦
                    elim (members_from-at_key P (s.silo_id ∷ seen) r m (ground (arith, past, e))
                      rest.1) [ inl old ↦ inl (rw missed at old) | inr t ↦ inr t ]
              ]
            ]
      ]

  pub members_from-All :
      (P : SiloAddress → Type 0) (seen : List Text) (r : List (ℕ × SiloAddress))
      → All (λ (e : ℕ × SiloAddress). P e.1) r
      → All P (members_from seen r)
  unfolding members_from
  members_from-All P seen [] h = tt
  members_from-All P seen ((k, s) ∷ r) (p, h) =
      if-both (All P) (any (λ i. same i s.silo_id) seen) (members_from-All P seen r h)
        (p, members_from-All P (s.silo_id ∷ seen) r h)

pub at_key-add_each :
    (j : ℕ) (ms : List SiloAddress) (h : HashRing)
    → at_key j (add_each ms h).ring ≡ owner_of h.virtual_nodes j ms (at_key j h.ring)
unfolding add_each owner_of add
at_key-add_each j [] h = refl
at_key-add_each j (m ∷ ms) h =
    at_key-add_each j ms (add m h)
    ∙ ap (owner_of h.virtual_nodes j ms) (at_key-add_nodes m j 0 h.virtual_nodes h.ring)

pub add_each-Sorted :
    (ms : List SiloAddress) (h : HashRing) → Sorted h.ring → Sorted (add_each ms h).ring
unfolding add_each add
add_each-Sorted [] h o = o
add_each-Sorted (m ∷ ms) h o =
    add_each-Sorted ms (add m h) (add_nodes-Sorted m 0 h.virtual_nodes h.ring o)

pub add_each-All :
    (P : SiloAddress → Type 0) (ms : List SiloAddress) (h : HashRing)
    → All P ms
    → All (λ (e : ℕ × SiloAddress). P e.1) h.ring
    → All (λ (e : ℕ × SiloAddress). P e.1) (add_each ms h).ring
unfolding add_each add
add_each-All P [] h p o = o
add_each-All P (m ∷ ms) h (p, ps) o =
    add_each-All P ms (add m h) ps (add_nodes-All P m 0 h.virtual_nodes h.ring p o)

pub add_each-virtual_nodes :
    (ms : List SiloAddress) (h : HashRing) → (add_each ms h).virtual_nodes ≡ h.virtual_nodes
unfolding add_each add
add_each-virtual_nodes [] h = refl
add_each-virtual_nodes (m ∷ ms) h = add_each-virtual_nodes ms (add m h)
