-- ===== src/Cluster/MembershipTable/Views.antt =====
-- crates/orlando-cluster/src/membership_table.rs: what a view shows of the table. The order in which
-- the map gives its entries, and the heartbeats, do not reach the ring.
use orlando.Base.{
  ℕ, true, false, List, [], ◌∷◌, none, some, ◌≡◌, refl, sym, ap, ◌∙◌, inl, inr, ◌==◌, if◌then◌else◌,
  if-taken, if-both, Bool-cases, same, Result, ok, lookup, insert, before, before_irreflexive,
  before_trans, before_total, arith, All, Distinct, insert-Distinct, lookup-insert,
}
use orlando.Core.Ids.{Text, text_key}
use orlando.Cluster.MembershipTable.{
  MemberEntry, MembershipView, MembershipError, Inner, find, member, place, sort_by_id, values,
  snapshot, stamped, try_update, read_all,
}

-- Each row stands under its silo id.
unfoldable pub IsKeyed : List (Text × MemberEntry) → Type 0
IsKeyed [] = Unit
IsKeyed ((i, e) ∷ m) = (i ≡ e.addr.silo_id) × IsKeyed m

-- Each row stands under its silo id, and no id has two rows.
unfoldable pub IsTable : Inner → Type 0
IsTable t = IsKeyed t.members × Distinct t.members

insert-IsKeyed :
    (j : Text) (e : MemberEntry) (m : List (Text × MemberEntry))
    → j ≡ e.addr.silo_id
    → IsKeyed m
    → IsKeyed (insert j e m)
unfolding IsKeyed insert
insert-IsKeyed j e [] h k = (h, tt)
insert-IsKeyed j e ((i, w) ∷ m) h k =
    if-both IsKeyed (same i j) (h, k.1) (k.0, insert-IsKeyed j e m h k.1)

find-values :
    (j : Text) (m : List (Text × MemberEntry)) → IsKeyed m → find j (values m) ≡ lookup j m
unfolding find values lookup IsKeyed
find-values j [] k = refl
find-values j ((i, e) ∷ m) (h, k) = ground (arith, find-values j m k)

find-place :
    (j : Text) (e : MemberEntry) (ms : List MemberEntry)
    → find j (place e ms) ≡ (if same e.addr.silo_id j then some e else find j ms)
unfolding find place
find-place j e [] = refl
find-place j e (m ∷ ms) = ground (arith, find-place j e ms, before_irreflexive e.addr.silo_id)

find-sort_by_id : (j : Text) (ms : List MemberEntry) → find j (sort_by_id ms) ≡ find j ms
unfolding find sort_by_id
find-sort_by_id j [] = refl
find-sort_by_id j (m ∷ ms) = ground (arith, find-place j m (sort_by_id ms), find-sort_by_id j ms)

-- The row has the greater id.
abbrev IsAfter : Text → MemberEntry → Type 0
IsAfter i m = before i m.addr.silo_id ≡ true

-- The rows stand in the strict order of their ids.
unfoldable pub IsSorted : List MemberEntry → Type 0
IsSorted [] = Unit
IsSorted (m ∷ ms) = All (IsAfter m.addr.silo_id) ms × IsSorted ms

place-All :
    (P : MemberEntry → Type 0) (e : MemberEntry) (ms : List MemberEntry)
    → P e
    → All P ms
    → All P (place e ms)
unfolding place
place-All P e [] p h = (p, tt)
place-All P e (m ∷ ms) p (q, h) =
    if-both (All P) (before m.addr.silo_id e.addr.silo_id) (q, place-All P e ms p h) (p, (q, h))

All-IsAfter :
    (i j : Text) (ms : List MemberEntry)
    → before i j ≡ true
    → All (IsAfter j) ms
    → All (IsAfter i) ms
All-IsAfter i j [] b h = tt
All-IsAfter i j (m ∷ ms) b (q, h) = (before_trans i j m.addr.silo_id b q, All-IsAfter i j ms b h)

find-after : (i : Text) (ms : List MemberEntry) → All (IsAfter i) ms → find i ms ≡ none
unfolding find
find-after i [] h = refl
find-after i (m ∷ ms) (q, h) = ground (arith, find-after i ms h, before_irreflexive i)

place-IsSorted :
    (e : MemberEntry) (ms : List MemberEntry)
    → find e.addr.silo_id ms ≡ none
    → IsSorted ms
    → IsSorted (place e ms)
unfolding place IsSorted find
place-IsSorted e [] n s = (tt, tt)
place-IsSorted e (m ∷ ms) n (a, s) =
    if-taken IsSorted (before m.addr.silo_id e.addr.silo_id)
      (λ b.
        (place-All (IsAfter m.addr.silo_id) e ms b a, place-IsSorted e ms (ground (arith, n)) s))
      (λ b.
        let c : before e.addr.silo_id m.addr.silo_id ≡ true =
          ground (arith, before_total e.addr.silo_id m.addr.silo_id, n, b) in
        ((c, All-IsAfter e.addr.silo_id m.addr.silo_id ms c a), (a, s)))

-- The first row of a list that finds the row m does not come after it.
head-not_after :
    (m n : MemberEntry) (ns : List MemberEntry)
    → All (IsAfter n.addr.silo_id) ns
    → find m.addr.silo_id (n ∷ ns) ≡ some m
    → before m.addr.silo_id n.addr.silo_id ≡ false
unfolding find
head-not_after m n ns b h = elim (Bool-cases (before m.addr.silo_id n.addr.silo_id)) [
  | inl c ↦
      let after : find m.addr.silo_id ns ≡ none =
        find-after m.addr.silo_id ns (All-IsAfter m.addr.silo_id n.addr.silo_id ns c b) in
      absurd (ground (arith, h, c, after, before_irreflexive m.addr.silo_id))
  | inr c ↦ c
]

-- Two sorted lists that find the same rows begin with the same row.
head-same :
    (m n : MemberEntry) (ms ns : List MemberEntry)
    → All (IsAfter m.addr.silo_id) ms
    → All (IsAfter n.addr.silo_id) ns
    → ((j : Text) → find j (m ∷ ms) ≡ find j (n ∷ ns))
    → m ≡ n
unfolding find
head-same m n ms ns a b h =
    let c : before m.addr.silo_id n.addr.silo_id ≡ false =
      head-not_after m n ns b (ground (arith, h m.addr.silo_id)) in
    let d : before n.addr.silo_id m.addr.silo_id ≡ false =
      head-not_after n m ms a (ground (arith, h n.addr.silo_id)) in
    ground (arith, before_total m.addr.silo_id n.addr.silo_id, c, d, h m.addr.silo_id)

-- Sorted lists that find the same rows are the same.
sorted_ext :
    (ms ns : List MemberEntry)
    → IsSorted ms
    → IsSorted ns
    → ((j : Text) → find j ms ≡ find j ns)
    → ms ≡ ns
unfolding IsSorted find
sorted_ext [] [] s t h = refl
sorted_ext [] (n ∷ ns) s t h = absurd (ground (arith, h n.addr.silo_id))
sorted_ext (m ∷ ms) [] s t h = absurd (ground (arith, h m.addr.silo_id))
sorted_ext (m ∷ ms) (n ∷ ns) (a, s) (b, t) h =
    let e : m ≡ n = head-same m n ms ns a b h in
    let rest : (j : Text) → find j ms ≡ find j ns = λ j. elim (text_key.dec m.addr.silo_id j) [
      | yes q ↦ ground (arith, q, e, find-after m.addr.silo_id ms a, find-after n.addr.silo_id ns b)
      | no q ↦ ground (arith, q, e, h j)
    ] in
    ground (arith, e, sorted_ext ms ns s t rest)

-- No id has two rows.
IsSingle : List MemberEntry → Type 0
IsSingle [] = Unit
IsSingle (m ∷ ms) = (find m.addr.silo_id ms ≡ none) × IsSingle ms

values-IsSingle : (m : List (Text × MemberEntry)) → IsKeyed m → Distinct m → IsSingle (values m)
unfolding IsKeyed IsSingle values
values-IsSingle [] k d = tt
values-IsSingle ((i, e) ∷ m) (h, k) (n, d) =
    (ground (arith, find-values i m k), values-IsSingle m k d)

sort_by_id-IsSorted : (ms : List MemberEntry) → IsSingle ms → IsSorted (sort_by_id ms)
unfolding IsSingle sort_by_id IsSorted
sort_by_id-IsSorted [] d = tt
sort_by_id-IsSorted (m ∷ ms) (n, d) =
    place-IsSorted m (sort_by_id ms) (find-sort_by_id m.addr.silo_id ms ∙ n)
      (sort_by_id-IsSorted ms d)

-- Which row a view shows for an id is which row the table has.
member-snapshot : (j : Text) (t : Inner) → IsTable t → member j (snapshot t) ≡ lookup j t.members
unfolding member snapshot IsTable
member-snapshot j t (k, d) = find-sort_by_id j (values t.members) ∙ find-values j t.members k

-- Two tables at one version that have the same row for every silo id give the same view, in
-- whatever order their maps hold the rows.
pub snapshot_ext :
    (t u : Inner)
    → IsTable t
    → IsTable u
    → t.version ≡ u.version
    → ((j : Text) → lookup j t.members ≡ lookup j u.members)
    → snapshot t ≡ snapshot u
unfolding snapshot IsTable find member
snapshot_ext t u (k, d) (l, c) e h =
    let same_members : sort_by_id (values t.members) ≡ sort_by_id (values u.members) =
      sorted_ext (sort_by_id (values t.members)) (sort_by_id (values u.members))
        (sort_by_id-IsSorted (values t.members) (values-IsSingle t.members k d))
        (sort_by_id-IsSorted (values u.members) (values-IsSingle u.members l c))
        (λ j. member-snapshot j t (k, d) ∙ h j ∙ sym (member-snapshot j u (l, c))) in
    ground (arith, e, same_members)

stamped-IsTable : (e : MemberEntry) (t : Inner) → IsTable t → IsTable (stamped e t)
unfolding stamped IsTable
stamped-IsTable e t (k, d) =
    (insert-IsKeyed e.addr.silo_id e t.members refl k, insert-Distinct e.addr.silo_id e t.members d)

member-stamped :
    (e : MemberEntry) (t : Inner) (j : Text)
    → IsTable t
    → member j (snapshot (stamped e t))
      ≡ (if same e.addr.silo_id j then some e else member j (snapshot t))
unfolding stamped
member-stamped e t j h = ground (
  arith,
  member-snapshot j (stamped e t) (stamped-IsTable e t h),
  member-snapshot j t h,
  lookup-insert e.addr.silo_id j e t.members,
)

pub try_update-IsTable :
    (e : MemberEntry) (expected : ℕ) (t : Inner) → IsTable t → IsTable (try_update e expected t).0
unfolding try_update
try_update-IsTable e expected t h =
    if-both (λ (r : Inner × Result MembershipError MembershipView). IsTable r.0)
      (t.version == expected) (stamped-IsTable e t h) h

-- A writer that expects the version it has read is heard, whatever the row: its view shows the new
-- row under its silo id and every other row as it was.
pub try_update-read_all :
    (e : MemberEntry) (t : Inner) (v : MembershipView) (j : Text)
    → IsTable t
    → read_all t ≡ ok v
    → (w : MembershipView) × ((try_update e v.version t).1 ≡ ok w)
      × (member j w ≡ (if same e.addr.silo_id j then some e else member j v))
unfolding try_update read_all snapshot
try_update-read_all e t v j h r =
    let q : snapshot t ≡ v = ground (arith, r) in
    let same_version : t.version ≡ v.version = ap (λ (x : MembershipView). x.version) q in
    (
      snapshot (stamped e t),
      ground (arith, same_version),
      ground (arith, member-stamped e t j h, q),
    )
