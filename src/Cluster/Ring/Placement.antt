-- ===== src/Cluster/Ring/Placement.antt =====
-- Where a grain goes when silos come and leave.
use orlando.Base.{
  ℕ, zero, suc, ◌+◌, ◌≤◌, ◌<◌, ◌≡◌, ◌≢◌, refl, inl, inr, ◌⊎◌, List, [], ◌∷◌, some, ◌==◌, arith, All,
  Bool-cases,
}
use orlando.Core.Ids.{Text, text_key}
use orlando.Cluster.Ring.{
  SiloAddress, HashRing, node_key, insert, remove_key, add_nodes, add, first_from, first, owner_at,
  get, hash_key,
}

first_from-insert :
    (h k : ℕ) (s : SiloAddress) (r : List (ℕ × SiloAddress))
    → (first_from h (insert k s r) ≡ first_from h r) ⊎ (first_from h (insert k s r) ≡ some s)
unfolding first_from insert
first_from-insert h k s [] = ground arith
first_from-insert h k s ((j, v) ∷ r) = ground (arith, first_from-insert h k s r)

first-insert :
    (k : ℕ) (s : SiloAddress) (r : List (ℕ × SiloAddress))
    → (first (insert k s r) ≡ first r) ⊎ (first (insert k s r) ≡ some s)
unfolding first insert
first-insert k s [] = inr refl
first-insert k s ((j, v) ∷ r) = ground arith

owner_at-insert :
    (h k : ℕ) (s : SiloAddress) (r : List (ℕ × SiloAddress))
    → (owner_at h (insert k s r) ≡ owner_at h r) ⊎ (owner_at h (insert k s r) ≡ some s)
unfolding owner_at insert
owner_at-insert h k s [] = inr (ground arith)
owner_at-insert h k s ((j, v) ∷ r) =
    ground (arith, first_from-insert h k s ((j, v) ∷ r), first-insert k s ((j, v) ∷ r))

owner_at-add_nodes :
    (h : ℕ) (s : SiloAddress) (i n : ℕ) (r : List (ℕ × SiloAddress))
    → (owner_at h (add_nodes s i n r) ≡ owner_at h r) ⊎ (owner_at h (add_nodes s i n r) ≡ some s)
unfolding add_nodes
owner_at-add_nodes h s i zero r = inl refl
owner_at-add_nodes h s i (suc n) r = ground (
  arith,
  owner_at-add_nodes h s (suc i) n (insert (node_key s.silo_id i) s r),
  owner_at-insert h (node_key s.silo_id i) s r,
)

-- A silo that joins takes grains over only to itself: every other grain keeps its owner.
pub get-add :
    (s : SiloAddress) (h : HashRing) (grain_key : Text)
    → (get grain_key (add s h) ≡ get grain_key h) ⊎ (get grain_key (add s h) ≡ some s)
unfolding get add
get-add s h grain_key = owner_at-add_nodes (hash_key grain_key) s 0 h.virtual_nodes h.ring

-- Every entry stands at a virtual node of its silo.
abbrev pub AtNode : ℕ → ℕ × SiloAddress → Type 0
AtNode n (k, v) = (i : ℕ) × (i < n) × (k ≡ node_key v.silo_id i)

abbrev pub IsPlaced : HashRing → Type 0
IsPlaced h = All (AtNode h.virtual_nodes) h.ring

module _ (P : ℕ × SiloAddress → Type 0) where
  pub All-insert :
      (k : ℕ) (s : SiloAddress) (r : List (ℕ × SiloAddress))
      → P (k, s)
      → All P r
      → All P (insert k s r)
  unfolding insert
  All-insert k s [] p a = (p, tt)
  All-insert k s ((j, v) ∷ r) p a = ground (arith, All-insert k s r p a.1)

  pub All-remove_key :
      (Q : ℕ × SiloAddress → Type 0) (k : ℕ) (r : List (ℕ × SiloAddress))
      → ((j : ℕ) (v : SiloAddress) → j ≢ k → P (j, v) → Q (j, v))
      → All P r
      → All Q (remove_key k r)
  unfolding remove_key
  All-remove_key Q k [] f a = tt
  All-remove_key Q k ((j, v) ∷ r) f a = elim (Bool-cases (j == k)) [
    | inl hit ↦ rw hit (All-remove_key Q k r f a.1)
    | inr miss ↦ rw miss (f j v (ground arith) a.0, All-remove_key Q k r f a.1)
  ]

add_nodes-IsPlaced :
    (total : ℕ) (s : SiloAddress) (i n : ℕ) (r : List (ℕ × SiloAddress))
    → i + n ≤ total
    → All (AtNode total) r
    → All (AtNode total) (add_nodes s i n r)
unfolding add_nodes
add_nodes-IsPlaced total s i zero r h a = a
add_nodes-IsPlaced total s i (suc n) r h a =
    add_nodes-IsPlaced total s (suc i) n (insert (node_key s.silo_id i) s r) (omega arith)
      (All-insert (AtNode total) (node_key s.silo_id i) s r (i, omega arith, refl) a)

-- If every entry of a ring stands at a virtual node of its silo, this holds after a silo is added.
pub add-IsPlaced : (s : SiloAddress) (h : HashRing) → IsPlaced h → IsPlaced (add s h)
unfolding add
add-IsPlaced s h a = add_nodes-IsPlaced h.virtual_nodes s 0 h.virtual_nodes h.ring (omega arith) a
