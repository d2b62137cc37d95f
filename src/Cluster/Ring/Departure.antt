-- ===== src/Cluster/Ring/Departure.antt =====
-- What a silo that leaves takes from the ring.
use orlando.Base.{
  ℕ, zero, suc, ◌+◌, ◌≤◌, ◌<◌, ◌≡◌, ◌≢◌, inl, inr, ◌⊎◌, List, [], ◌∷◌, none, some, leb, arith, All,
  ◌∙◌, subst, ap, dec_lt, Bool-cases, Option-cases,
}
use orlando.Core.Ids.{Text, text_key}
use orlando.Cluster.Ring.{
  SiloAddress, HashRing, node_key, remove_key, remove_nodes, remove, first_from, first, owner_at,
  get, hash_key,
}
use orlando.Cluster.Ring.Placement.{AtNode, IsPlaced, All-remove_key}

-- What is left to remove: an entry of the silo stands at its i-th virtual node or a later one.
abbrev LeftOver : Text → ℕ → ℕ → ℕ × SiloAddress → Type 0
LeftOver id total i (k, v) = v.silo_id ≡ id → (j : ℕ) × (i ≤ j) × (j < total) × (k ≡ node_key id j)

remove_nodes-LeftOver :
    (total : ℕ) (s : SiloAddress) (i n : ℕ) (r : List (ℕ × SiloAddress))
    → All (LeftOver s.silo_id total i) r
    → All (LeftOver s.silo_id total (i + n)) (remove_nodes s i n r)
unfolding remove_nodes
remove_nodes-LeftOver total s i zero r a =
    let e : i ≡ i + 0 = omega arith in subst (λ m. All (LeftOver s.silo_id total m) r) e a
remove_nodes-LeftOver total s i (suc n) r a =
    let e : suc i + n ≡ i + suc n = omega arith in
    subst (λ m. All (LeftOver s.silo_id total m) (remove_nodes s i (suc n) r)) e
      (remove_nodes-LeftOver total s (suc i) n (remove_key (node_key s.silo_id i) r) (
        All-remove_key (LeftOver s.silo_id total i) (LeftOver s.silo_id total (suc i))
          (node_key s.silo_id i) r
          (λ k v ne left own.
            let (j, above, below, at) = left own in (j, later i j k ne above at, below, at))
          a))
  where
    later : (i j k : ℕ) → k ≢ node_key s.silo_id i → i ≤ j → k ≡ node_key s.silo_id j → suc i ≤ j
    later i j k ne above at = elim (dec_lt i j) [
      | yes p ↦ p
      | no p ↦ absurd (ne (at ∙ ap (node_key s.silo_id) (omega arith)))
    ]

All-left :
    (id : Text) (total from : ℕ) (r : List (ℕ × SiloAddress))
    → total ≤ from
    → All (LeftOver id total from) r
    → All (λ e. e.1.silo_id ≢ id) r
All-left id total from [] h a = tt
All-left id total from ((k, v) ∷ r) h a = (
  (λ own. let (j, above, below, at) = a.0 own in absurd (omega arith)),
  All-left id total from r h a.1,
)

All-LeftOver :
    (id : Text) (total : ℕ) (r : List (ℕ × SiloAddress))
    → All (AtNode total) r
    → All (LeftOver id total 0) r
All-LeftOver id total [] a = tt
All-LeftOver id total ((k, v) ∷ r) a =
    let (i, below, at) = a.0 in
    ((λ own. (i, omega arith, below, at ∙ ap (λ t. node_key t i) own)), All-LeftOver id total r a.1)

module _ (P : ℕ × SiloAddress → Type 0) where
  first_from-All :
      (h : ℕ) (v : SiloAddress) (r : List (ℕ × SiloAddress))
      → All P r
      → first_from h r ≡ some v
      → (k : ℕ) × P (k, v)
  unfolding first_from
  first_from-All h v [] a e = absurd (ground arith)
  first_from-All h v ((j, u) ∷ r) a e = elim (Bool-cases (leb h j)) [
    | inl hit ↦ (j, subst (λ x. P (j, x)) (ground arith) a.0)
    | inr miss ↦ first_from-All h v r a.1 (ground arith)
  ]

  owner_at-All :
      (h : ℕ) (v : SiloAddress) (r : List (ℕ × SiloAddress))
      → All P r
      → owner_at h r ≡ some v
      → (k : ℕ) × P (k, v)
  unfolding owner_at
  owner_at-All h v [] a e = absurd (ground arith)
  owner_at-All h v ((j, u) ∷ r) a e = elim (Option-cases (first_from h ((j, u) ∷ r))) [
    | inl past ↦ (j, subst (λ x. P (j, x)) (ground arith) a.0)
    | inr (x, found) ↦ first_from-All h v ((j, u) ∷ r) a (ground arith)
  ]

-- Once a silo is removed no grain is placed on it, on a ring whose entries all stand at virtual nodes
-- of their silos.
pub get-remove :
    (s v : SiloAddress) (h : HashRing) (grain_key : Text)
    → IsPlaced h
    → get grain_key (remove s h) ≡ some v
    → v.silo_id ≢ s.silo_id
unfolding get remove
get-remove s v h grain_key a e =
    let gone =
      All-left s.silo_id h.virtual_nodes (0 + h.virtual_nodes)
        (remove_nodes s 0 h.virtual_nodes h.ring) (omega arith)
        (remove_nodes-LeftOver h.virtual_nodes s 0 h.virtual_nodes h.ring
          (All-LeftOver s.silo_id h.virtual_nodes h.ring a)) in
    (owner_at-All (λ x. x.1.silo_id ≢ s.silo_id) (hash_key grain_key) v _ gone e).1

-- No virtual node of the silo is held by another one.
abbrev pub OwnsNodes : SiloAddress → HashRing → Type 0
OwnsNodes s h =
    (i : ℕ)
    → i < h.virtual_nodes
    → All (λ e. e.0 ≡ node_key s.silo_id i → e.1.silo_id ≡ s.silo_id) h.ring

abbrev Owns : SiloAddress → ℕ → ℕ × SiloAddress → Type 0
Owns s k e = e.0 ≡ k → e.1.silo_id ≡ s.silo_id

first_from-remove_key :
    (s v : SiloAddress) (h k : ℕ) (r : List (ℕ × SiloAddress))
    → All (Owns s k) r
    → v.silo_id ≢ s.silo_id
    → (first_from h r ≡ some v → first_from h (remove_key k r) ≡ some v)
      × (first_from h r ≡ none → first_from h (remove_key k r) ≡ none)
      × (first r ≡ some v → first (remove_key k r) ≡ some v)
unfolding first_from first remove_key
first_from-remove_key s v h k [] a ne = (λ e. e, λ e. e, λ e. e)
first_from-remove_key s v h k ((j, u) ∷ r) a ne =
    let (hit, miss, front) = first_from-remove_key s v h k r a.1 ne in
    (λ e. ground arith, λ e. ground arith, λ e. ground arith)

owner_at_by_cases :
    (h : ℕ) (v : SiloAddress) (r : List (ℕ × SiloAddress))
    → (first_from h r ≡ some v) ⊎ ((first_from h r ≡ none) × (first r ≡ some v))
    → owner_at h r ≡ some v
unfolding owner_at first first_from
owner_at_by_cases h v [] c = ground arith
owner_at_by_cases h v ((j, u) ∷ r) c = ground arith

owner_at_cases :
    (h : ℕ) (v : SiloAddress) (r : List (ℕ × SiloAddress))
    → owner_at h r ≡ some v
    → (first_from h r ≡ some v) ⊎ ((first_from h r ≡ none) × (first r ≡ some v))
unfolding owner_at first first_from
owner_at_cases h v [] c = ground arith
owner_at_cases h v ((j, u) ∷ r) c = ground arith

owner_at-remove_key :
    (s v : SiloAddress) (h k : ℕ) (r : List (ℕ × SiloAddress))
    → All (Owns s k) r
    → v.silo_id ≢ s.silo_id
    → owner_at h r ≡ some v
    → owner_at h (remove_key k r) ≡ some v
owner_at-remove_key s v h k r a ne e =
    let (hit, miss, front) = first_from-remove_key s v h k r a ne in
    owner_at_by_cases h v (remove_key k r)
      (elim (owner_at_cases h v r e) [ inl c ↦ inl (hit c) | inr c ↦ inr (miss c.0, front c.1) ])

owner_at-remove_nodes :
    (s v : SiloAddress) (h i n : ℕ) (r : List (ℕ × SiloAddress))
    → ((j : ℕ) → j < i + n → All (Owns s (node_key s.silo_id j)) r)
    → v.silo_id ≢ s.silo_id
    → owner_at h r ≡ some v
    → owner_at h (remove_nodes s i n r) ≡ some v
unfolding remove_nodes
owner_at-remove_nodes s v h i zero r a ne e = e
owner_at-remove_nodes s v h i (suc n) r a ne e =
    let k = node_key s.silo_id i in
    owner_at-remove_nodes s v h (suc i) n (remove_key k r)
      (λ j lt.
        All-remove_key (Owns s (node_key s.silo_id j)) (Owns s (node_key s.silo_id j)) k r
          (λ x u miss own. own) (a j (omega (arith, lt))))
      ne (owner_at-remove_key s v h k r (a i (omega arith)) ne e)

-- A silo that leaves gives up only its own grains: every grain placed on another silo stays there, if
-- no virtual node of the leaving silo is held by another one.
pub get-remove_other :
    (s v : SiloAddress) (h : HashRing) (grain_key : Text)
    → OwnsNodes s h
    → v.silo_id ≢ s.silo_id
    → get grain_key h ≡ some v
    → get grain_key (remove s h) ≡ some v
unfolding get remove
get-remove_other s v h grain_key a ne e =
    owner_at-remove_nodes s v (hash_key grain_key) 0 h.virtual_nodes h.ring
      (λ j lt. a j (omega (arith, lt))) ne e
