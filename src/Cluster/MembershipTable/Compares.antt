-- ===== src/Cluster/MembershipTable/Compares.antt =====
-- crates/orlando-cluster/src/membership_table.rs: the compare-and-swap on the version.
use orlando.Base.{
  ℕ, suc, ◌+◌, ◌%◌, ◌^◌, ◌<◌, List, [], ◌∷◌, ◌≡◌, subst, ◌==◌, if-taken, Result, ok, err, arith,
  length,
}
use orlando.Core.Ids.{text_key}
use orlando.Cluster.MembershipTable.{
  MemberEntry, MembershipView, MembershipError, version_conflict, Inner, stamped, snapshot,
  try_update,
}

-- The views that a sequence of attempts, each with the version its writer expects, gave back.
unfoldable pub views : List (MemberEntry × ℕ) → Inner → List MembershipView
views [] t = []
views ((e, expected) ∷ rest) t =
    let (t', r) = try_update e expected t in
    let later = views rest t' in elim r [ ok v ↦ v ∷ later | err _ ↦ later ]

-- The views' versions are the numbers that follow the given one, without a gap.
unfoldable pub Follows : ℕ → List MembershipView → Type 0
Follows n [] = Unit
Follows n (v ∷ vs) = (v.version ≡ suc n) × Follows (suc n) vs

-- Of two writers that expect one version, only the first is heard: after an update that went through,
-- an update of any row with the version that the first one expected fails with the conflict and
-- leaves the table as it is.
pub try_update-excludes :
    (e f : MemberEntry) (expected : ℕ) (t : Inner) (v : MembershipView)
    → (try_update e expected t).1 ≡ ok v
    → try_update f expected (try_update e expected t).0
      ≡ ((try_update e expected t).0, err (version_conflict expected v.version))
unfolding try_update stamped snapshot
try_update-excludes e f expected t v h = ground arith

-- While the version stays below the bound of a u64, the views that any sequence of attempts gives
-- back carry consecutive versions, from the one after the table's: no version is given twice and
-- none is skipped.
pub views-Follows :
    (attempts : List (MemberEntry × ℕ)) (t : Inner)
    → t.version + length attempts < 2 ^ 64
    → Follows t.version (views attempts t)
unfolding views Follows try_update stamped snapshot
views-Follows [] t h = tt
views-Follows ((e, expected) ∷ rest) t h =
    if-taken
      (λ (r : Inner × Result MembershipError MembershipView).
        Follows t.version (elim r.1 [ ok v ↦ v ∷ views rest r.0 | err _ ↦ views rest r.0 ]))
      (t.version == expected)
      (λ _.
        let e1 : (t.version + 1) % 2 ^ 64 ≡ suc t.version = omega (arith, h) in
        (
          e1,
          subst (λ n. Follows n (views rest (stamped e t))) e1
              (views-Follows rest (stamped e t) (omega (arith, h, e1))),
        ))
      (λ _. views-Follows rest t (omega (arith, h)))
