-- ===== src/Cluster/Ring/Canonical.antt =====
-- A ring is determined by the silos in it: built again from the list of its members, it is the same.
use orlando.Base.{
  not, ◌&&◌, ℕ, zero, suc, ◌≡◌, refl, sym, ap, ◌∙◌, subst, inl, inr, Bool, true, false, List, [],
  ◌∷◌, none, some, ◌==◌, is_empty, arith, Bool-cases, All, All-weaken, Among, All-Among, Among-self,
}
use orlando.Core.Ids.{text_key}
use orlando.Cluster.MembershipTable.{add_each}
use orlando.Cluster.Ring.{SiloAddress, HashRing, new, node_key, add, members}
use orlando.Cluster.Ring.Ordered.{at_key, Sorted-ext}
use orlando.Cluster.Ring.Owners.{
  is_node, owner_of, owner_of-cases, members_from-at_key, Misses, at_key-add_each, add_each-Sorted,
  add_each-virtual_nodes, members_from-All, add_each-All, is_node-same_id,
}

-- Two lists of silos that give each key the same owner give the same ring.
ring-ext :
    (xs ys : List SiloAddress) (n : ℕ)
    → ((j : ℕ) → owner_of n j xs none ≡ owner_of n j ys none)
    → add_each xs (new n) ≡ add_each ys (new n)
unfolding new at_key
ring-ext xs ys n same_owner =
    let h = add_each xs (new n) in
    let h' = add_each ys (new n) in
    let same_ring : h.ring ≡ h'.ring =
      Sorted-ext h.ring h'.ring (add_each-Sorted xs (new n) tt) (add_each-Sorted ys (new n) tt)
        (λ j. at_key-add_each j xs (new n) ∙ same_owner j ∙ sym (at_key-add_each j ys (new n))) in
    let same_nodes : h.virtual_nodes ≡ h'.virtual_nodes =
      add_each-virtual_nodes xs (new n) ∙ sym (add_each-virtual_nodes ys (new n)) in
    λ i. record { ring = same_ring i; virtual_nodes = same_nodes i }

-- No two of these silos have a virtual node at the same key.
abbrev pub Apart : ℕ → SiloAddress → SiloAddress → Type 0
Apart n s t = (j : ℕ) → is_node s j 0 n ≡ true → is_node t j 0 n ≡ true → s ≡ t

module _ (n : ℕ) (ms : List SiloAddress) (apart : All (λ s. All (λ t. Apart n s t) ms) ms) where
  abbrev whole : HashRing
  whole = add_each ms (new n)

  members-Among : All (λ m. Among m ms) (members whole)
  unfolding members new
  members-Among =
      members_from-All n 0 (λ m. Among m ms) [] whole.ring
        (add_each-All _ ms (new n) (Among-self ms) tt)

  owner_of-members : (j : ℕ) → owner_of n j (members whole) none ≡ owner_of n j ms none
  unfolding members new at_key
  owner_of-members j =
      elim (owner_of-cases n j (λ m. Among m ms) (members whole) none members-Among) [
        | inl (e, miss) ↦ elim (owner_of-cases n j (λ s. All (λ t. Apart n s t) ms) ms none apart) [
          | inl (f, _) ↦ e ∙ sym f
          | inr (m, _, hit, f) ↦
              elim (members_from-at_key n j (Misses n j) [] whole.ring m
                (at_key-add_each j ms (new n) ∙ f) miss) [
                  | inl seen ↦ absurd (cc)
                  | inr (t, missed, same_id) ↦
                      let e : is_node t j 0 n ≡ is_node m j 0 n =
                        is_node-same_id t m j 0 n same_id in
                      absurd (cc)
                ]
        ]
        | inr (m, among, hit, e) ↦
            elim (owner_of-cases n j (Apart n m) ms none (All-Among _ m ms apart among)) [
              | inl (_, miss) ↦ let no_hit = All-Among (Misses n j) m ms miss among in absurd (cc)
              | inr (t, agree, hit_t, f) ↦ e ∙ ap some (agree j hit hit_t) ∙ sym f
            ]
      ]

  -- The ring of such silos, built again from the list of its members, is the same ring.
  pub add_each-members : add_each (members whole) (new n) ≡ whole
  add_each-members = ring-ext (members whole) ms n owner_of-members

Among-is_empty : (t : SiloAddress) (xs : List SiloAddress) → Among t xs → is_empty xs ≡ false
Among-is_empty t [] a = elim a [ ]
Among-is_empty t (x ∷ xs) a = refl

-- A ring to which a silo was added has members.
pub members-is_empty :
    (n : ℕ) (m : SiloAddress) (ms : List SiloAddress)
    → is_empty (members (add_each (m ∷ ms) (new (suc n)))) ≡ false
unfolding members new at_key is_node
members-is_empty n m ms =
    let h = add_each (m ∷ ms) (new (suc n)) in
    let j = node_key m.silo_id 0 in
    elim (owner_of-cases (suc n) j (λ t. Among t (m ∷ ms)) (m ∷ ms) none (Among-self (m ∷ ms))) [
      | inl (_, miss) ↦ absurd (ground (arith, miss.0))
      | inr (t, _, _, e) ↦
          elim (members_from-at_key (suc n) j (λ u. is_empty (members h) ≡ false) [] h.ring t
            (at_key-add_each j (m ∷ ms) (new (suc n)) ∙ e)
            (All-weaken _ _ (members h) (λ u a. Among-is_empty u (members h) a)
              (Among-self (members h)))) [
                | inl seen ↦ absurd (cc)
                | inr (u, some_member, _) ↦ some_member
              ]
    ]

-- What holds of the silos that were added holds of the members.
pub members-All :
    (n : ℕ) (P : SiloAddress → Type 0) (ms : List SiloAddress)
    → All P ms
    → All P (members (add_each ms (new n)))
unfolding members new
members-All n P ms h = members_from-All n 0 P [] _ (add_each-All P ms (new n) h tt)

module _ (n : ℕ) (ms : List SiloAddress) (apart : All (λ s. All (λ t. Apart n s t) ms) ms) where
  owner_of_hit :
      (s : SiloAddress) (j : ℕ)
      → Among s ms
      → is_node s j 0 n ≡ true
      → owner_of n j ms none ≡ some s
  owner_of_hit s j among hit =
      elim (owner_of-cases n j (Apart n s) ms none (All-Among _ s ms apart among)) [
        | inl (_, miss) ↦ let no_hit = All-Among (Misses n j) s ms miss among in absurd (cc)
        | inr (t, agree, hit_t, e) ↦ e ∙ ap some (sym (agree j hit hit_t))
      ]

  owner_of-first :
      (s : SiloAddress)
      → Among s ms
      → (j : ℕ) → owner_of n j (s ∷ members (whole n ms apart)) none ≡ owner_of n j ms none
  unfolding owner_of
  owner_of-first s among j = elim (Bool-cases (is_node s j 0 n)) [
    | inr missed ↦ rw (owner_of, missed) (owner_of-members n ms apart j)
    | inl hit ↦
        let own = owner_of_hit s j among hit in
        elim (owner_of-cases n j (λ m. Among m ms) (members (whole n ms apart)) (some s)
          (members-Among n ms apart)) [
            | inl (e, miss) ↦ rw (owner_of, hit) (e ∙ sym own)
            | inr (m, among_m, hit_m, e) ↦
                rw (owner_of, hit) (e ∙ sym (owner_of_hit m j among_m hit_m))
          ]
  ]

  -- A ring that one of the silos begins, with the members added to it, is the ring of them all.
  pub add_each-members_of :
      (s : SiloAddress)
      → Among s ms
      → add_each (members (whole n ms apart)) (add s (new n)) ≡ whole n ms apart
  unfolding add_each
  add_each-members_of s among =
      ring-ext (s ∷ members (whole n ms apart)) ms n (owner_of-first s among)

-- A test for it: none of the virtual nodes of the one stands at one of the other's.
unfoldable pub is_apart : ℕ → SiloAddress → SiloAddress → ℕ → ℕ → Bool
unfolding is_node
is_apart total s t i zero = true
is_apart total s t i (suc n) =
    not (is_node t (node_key s.silo_id i) 0 total) && is_apart total s t (suc i) n

is_apart-is_node :
    (total : ℕ) (s t : SiloAddress) (i n j : ℕ)
    → is_apart total s t i n ≡ true
    → is_node s j i n ≡ true
    → is_node t j 0 total ≡ false
unfolding is_apart is_node
is_apart-is_node total s t i zero j a h = absurd (cc)
is_apart-is_node total s t i (suc n) j a h = elim (Bool-cases (node_key s.silo_id i == j)) [
  | inl here ↦
      let e : node_key s.silo_id i ≡ j = ground (arith, here) in
      subst (λ k. is_node t k 0 total ≡ false) e (ground (arith, a))
  | inr past ↦ is_apart-is_node total s t (suc i) n j (ground (arith, a)) (ground (arith, past, h))
]

pub is_apart-Apart : (n : ℕ) (s t : SiloAddress) → is_apart n s t 0 n ≡ true → Apart n s t
is_apart-Apart n s t a j h k = let miss = is_apart-is_node n s t 0 n j a h in absurd (cc)
