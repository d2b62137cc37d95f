-- ===== src/Cluster/MembershipTable/Heartbeats.antt =====
-- crates/orlando-cluster/src/membership_table.rs: the heartbeats, which are no part of the agreed view.
use orlando.Base.{
  ℕ, List, [], ◌∷◌, map, Option, none, some, ◌≡◌, refl, sym, ap, ◌∙◌, keep, lookup, insert, arith,
}
use orlando.Core.Ids.{Text, text_key}
use orlando.Cluster.Ring
use orlando.Cluster.Ring.{SiloAddress, HashRing}
use orlando.Cluster.MembershipTable.{
  MemberEntry, Inner, is_active, active_silos, add_each, build_ring, place, sort_by_id, values,
  snapshot, touched, update_i_am_alive,
}

-- The row without its heartbeat.
abbrev bare : MemberEntry → MemberEntry
bare m = record m { i_am_alive = 0 }

place-bare :
    (e : MemberEntry) (ms : List MemberEntry) → map bare (place e ms) ≡ place (bare e) (map bare ms)
unfolding place
place-bare e [] = refl
place-bare e (m ∷ ms) = ground (arith, place-bare e ms)

sort_by_id-bare : (ms : List MemberEntry) → map bare (sort_by_id ms) ≡ sort_by_id (map bare ms)
unfolding sort_by_id
sort_by_id-bare [] = refl
sort_by_id-bare (m ∷ ms) = place-bare m (sort_by_id ms) ∙ ap (place (bare m)) (sort_by_id-bare ms)

keep-bare :
    (ms : List MemberEntry)
    → map (λ m. m.addr) (keep (λ m. is_active m.status) ms)
      ≡ map (λ m. m.addr) (keep (λ m. is_active m.status) (map bare ms))
keep-bare [] = refl
keep-bare (m ∷ ms) = ground (arith, keep-bare ms)

values-insert :
    (now : ℕ) (j : Text) (e : MemberEntry) (m : List (Text × MemberEntry))
    → lookup j m ≡ some e
    → map bare (values (insert j (record e { i_am_alive = now }) m)) ≡ map bare (values m)
unfolding lookup insert values
values-insert now j e [] h = absurd (ground arith)
values-insert now j e ((i, w) ∷ m) h = ground (arith, h, values-insert now j e m)

touched-build_ring :
    (n now : ℕ) (j : Text) (o : Option MemberEntry) (t : Inner)
    → lookup j t.members ≡ o
    → build_ring n (snapshot (touched now j o t).0) ≡ build_ring n (snapshot t)
unfolding touched build_ring snapshot active_silos
touched-build_ring n now j none t h = refl
touched-build_ring n now j (some e) t h =
    ap (λ silos. add_each silos (Ring.new n))
      (keep-bare (sort_by_id (values (insert j (record e { i_am_alive = now }) t.members)))
        ∙ ap (λ ms. map (λ m. m.addr) (keep (λ m. is_active m.status) ms))
            (sort_by_id-bare (values (insert j (record e { i_am_alive = now }) t.members))
              ∙ ap sort_by_id (values-insert now j e t.members h)
              ∙ sym (sort_by_id-bare (values t.members)))
        ∙ sym (keep-bare (sort_by_id (values t.members))))

-- A heartbeat of any silo, known or not, leaves the ring of the view as it was.
pub update_i_am_alive-build_ring :
    (n now : ℕ) (j : Text) (t : Inner)
    → build_ring n (snapshot (update_i_am_alive now j t).0) ≡ build_ring n (snapshot t)
unfolding update_i_am_alive
update_i_am_alive-build_ring n now j t = touched-build_ring n now j (lookup j t.members) t refl
