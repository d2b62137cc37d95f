-- ===== src/Cluster/Ring/Ordered.antt =====
-- The ring as a sorted list: one silo at a key, and no two lists for the same silos at the same keys.
use orlando.Base.{
  ℕ, ◌≤◌, ◌<◌, ◌≡◌, refl, sym, ◌∙◌, inl, inr, List, [], ◌∷◌, Option, none, some, ltb, ◌==◌,
  if◌then◌else◌, arith, Bool-cases, if-taken, All, All-weaken,
}
use orlando.Core.Ids.{text_key}
use orlando.Cluster.Ring.{SiloAddress, insert}
use orlando.Cluster.Ring.Placement.{All-insert}

-- The silo that stands at a key.
unfoldable pub at_key : ℕ → List (ℕ × SiloAddress) → Option SiloAddress
at_key k [] = none
at_key k ((j, v) ∷ r) = if j == k then some v else at_key k r

abbrev pub Sorted : List (ℕ × SiloAddress) → Type 0
Sorted [] = Unit
Sorted ((k, v) ∷ r) = All (λ (e : ℕ × SiloAddress). k < e.0) r × Sorted r

pub at_key-insert :
    (k : ℕ) (s : SiloAddress) (j : ℕ) (r : List (ℕ × SiloAddress))
    → at_key j (insert k s r) ≡ (if k == j then some s else at_key j r)
unfolding at_key insert
at_key-insert k s j [] = refl
at_key-insert k s j ((i, v) ∷ r) = ground (arith, at_key-insert k s j r)

pub insert-Sorted :
    (k : ℕ) (s : SiloAddress) (r : List (ℕ × SiloAddress)) → Sorted r → Sorted (insert k s r)
unfolding insert
insert-Sorted k s [] h = (tt, tt)
insert-Sorted k s ((j, v) ∷ r) (b, h) =
    if-taken Sorted (ltb k j)
      (λ lt. ((ground (arith, lt), All-weaken _ _ r (λ e m. ground (arith, lt, m)) b), (b, h)))
      (λ ge.
        if-taken Sorted (k == j) (λ here. (All-weaken _ _ r (λ e m. ground (arith, here, m)) b, h))
          (λ past.
            (All-insert (λ e. j < e.0) k s r (ground (arith, ge, past)) b, insert-Sorted k s r h)))

below-at_key :
    (k j : ℕ) (r : List (ℕ × SiloAddress))
    → j ≤ k
    → All (λ (e : ℕ × SiloAddress). k < e.0) r
    → at_key j r ≡ none
unfolding at_key
below-at_key k j [] le h = refl
below-at_key k j ((i, v) ∷ r) le (b, h) = ground (arith, b, le, below-at_key k j r le h)

heads_le :
    (k k' : ℕ) (v : SiloAddress) (r r' : List (ℕ × SiloAddress)) (v' : SiloAddress)
    → All (λ (e : ℕ × SiloAddress). k' < e.0) r'
    → at_key k ((k, v) ∷ r) ≡ at_key k ((k', v') ∷ r')
    → k' ≤ k
unfolding at_key
heads_le k k' v r r' v' b' e = elim (Bool-cases (ltb k k')) [
  | inl lt ↦
      let none_there = below-at_key k' k r' (ground (arith, lt)) b' in
      absurd (ground (arith, lt, none_there, e))
  | inr ge ↦ ground (arith, ge)
]

-- Two sorted lists that have the same silo at each key are the same.
pub Sorted-ext :
    (r r' : List (ℕ × SiloAddress))
    → Sorted r
    → Sorted r'
    → ((j : ℕ) → at_key j r ≡ at_key j r')
    → r ≡ r'
unfolding at_key
Sorted-ext [] [] h h' e = refl
Sorted-ext [] ((k, v) ∷ r') h h' e = absurd (ground (arith, e k))
Sorted-ext ((k, v) ∷ r) [] h h' e = absurd (ground (arith, e k))
Sorted-ext ((k, v) ∷ r) ((k', v') ∷ r') (b, h) (b', h') e =
    let down = heads_le k k' v r r' v' b' (e k) in
    let up = heads_le k' k v' r' r v b (sym (e k')) in
    let same_key : k ≡ k' = omega (arith, down, up) in
    let same_silo : v ≡ v' = ground (arith, same_key, e k) in
    let tails : (j : ℕ) → at_key j r ≡ at_key j r' = λ j. elim (Bool-cases (k == j)) [
      | inl here ↦
          below-at_key k j r (ground (arith, here)) b
          ∙ sym (below-at_key k' j r' (ground (arith, here, same_key)) b')
      | inr past ↦ ground (arith, past, same_key, e j)
    ] in
    let rest = Sorted-ext r r' h h' tails in rw (same_key, same_silo, rest) refl
