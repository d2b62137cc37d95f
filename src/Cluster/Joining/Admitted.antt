-- ===== src/Cluster/Joining/Admitted.antt =====
-- What a silo knows when it has joined, and when it cannot.
use orlando.Base.{
  ℕ, ◌≡◌, refl, sym, ap, ◌∙◌, inl, inr, List, [], ◌∷◌, ◌++◌, Option, none, if-both, same, Result,
  ok, err, All, Among,
}
use orlando.Core.Ids.{Text, text_key}
use orlando.Persistence.Store.{Bytes}
use orlando.Cluster.Auth.{unauthenticated, authenticate}
use orlando.Cluster.Ring
use orlando.Cluster.Ring.{SiloAddress, HashRing, endpoint, members}
use orlando.Cluster.Ring.Canonical.{Apart, add_each-members_of, members-All}
use orlando.Cluster.MembershipTable.{add_each}
use orlando.Cluster.Swim.Wire.{ProtoSiloAddress, to_proto_addr}
use orlando.Cluster.Swim.Addresses.{HasPort, from_proto-to_proto}
use orlando.Cluster.Membership.{Service, join_silo}
use orlando.Cluster.Connections.{ConnectionPool, get_membership}
use orlando.Cluster.Joining.{
  Joiner, Peers, join_cluster, discover_and_join, reached, admitted, or_next, learn_ring,
}

add_each-append :
    (ms : List SiloAddress) (s : SiloAddress) (h : HashRing)
    → add_each (ms ++ s ∷ []) h ≡ Ring.add s (add_each ms h)
unfolding add_each
add_each-append [] s h = refl
add_each-append (m ∷ ms) s h = add_each-append ms s (Ring.add m h)

Among-last : {A : Type 0} (ms : List A) (s : A) → Among s (ms ++ s ∷ [])
Among-last [] s = inl refl
Among-last (m ∷ ms) s = inr (Among-last ms s)

module _ {C W : Type 0} (n : Peers C W) where
  -- A silo whose ring has itself alone joins through a seed, whose ring is that of the silos `ms` and
  -- which lets it in: the call succeeds, and both have the same ring. The two rings give each silo the
  -- same number of virtual nodes, whatever it is; no two of the silos, the joining one included, have a
  -- virtual node at the same key, and ports have 16 bits.
  pub join_cluster-agrees :
      (nodes : ℕ) (ms : List SiloAddress) (seed : Text) (j : Joiner C) (v : Service)
      (p : ConnectionPool C) (c : C) (w w1 w2 : W)
      → All (λ s. All (λ t. Apart nodes s t) (ms ++ j.local_addr ∷ [])) (ms ++ j.local_addr ∷ [])
      → All HasPort (ms ++ j.local_addr ∷ [])
      → v.shared.ring ≡ add_each ms (Ring.new nodes)
      → j.shared.ring ≡ Ring.add j.local_addr (Ring.new nodes)
      → get_membership n.dial seed j.pool w ≡ (p, w1, ok c)
      → n.join c none (to_proto_addr j.local_addr) w1 ≡ (w2, ok (join_silo j.local_addr v).1)
      → ((join_cluster n seed j w).2 ≡ ok tt)
        × ((join_cluster n seed j w).0.shared.ring ≡ (join_silo j.local_addr v).0.shared.ring)
  unfolding join_cluster reached admitted learn_ring join_silo
  join_cluster-agrees nodes ms seed j v p c w w1 w2 apart ports at_seed at_joiner got answer =
      let all = ms ++ j.local_addr ∷ [] in
      let theirs : Ring.add j.local_addr v.shared.ring ≡ add_each all (Ring.new nodes) =
        ap (Ring.add j.local_addr) at_seed
        ∙ sym (add_each-append ms j.local_addr (Ring.new nodes)) in
      let back =
        from_proto-to_proto (members (add_each all (Ring.new nodes)))
          (members-All nodes HasPort all ports) in
      let ours = add_each-members_of nodes all apart j.local_addr (Among-last ms j.local_addr) in
      rw (got, answer) (refl, rw (at_joiner, theirs, back) ours)

  -- What a peer that checks a secret answers to a request without the right header.
  abbrev pub IsSecured : (Bytes → Option Text) → Text → Type 0
  IsSecured to_str secret =
      (c : C) (header : Option Bytes) (p : ProtoSiloAddress) (w : W)
      → authenticate to_str secret header ≡ err unauthenticated
      → (e : Text) × ((n.join c header p w).1 ≡ err e)

  -- Nothing has come of an attempt: an error, and the silo knows no more than before.
  abbrev pub Refused : Joiner C → Joiner C × W × Result Text (Unit {0}) → Type 0
  Refused j r =
      ((e : Text) × (r.2 ≡ err e))
      × (r.0.shared ≡ j.shared)
      × (r.0.swim ≡ j.swim)
      × (r.0.local_addr ≡ j.local_addr)

  module _ (to_str : Bytes → Option Text) (secret : Text) (secured : IsSecured to_str secret) where
    admitted-Refused :
        (seed : Text) (j : Joiner C) (r : W × Result Text (List ProtoSiloAddress))
        → (e : Text) × (r.1 ≡ err e)
        → Refused j (admitted n seed j r)
    unfolding admitted
    admitted-Refused seed j (w, ok a) (e, h) = absurd (cc)
    admitted-Refused seed j (w, err e) h = ((e, refl), refl, refl, refl)

    reached-Refused :
        (seed : Text) (j : Joiner C) (r : ConnectionPool C × W × Result Text C)
        → Refused j (reached n seed j r)
    unfolding reached authenticate
    reached-Refused seed j (p, w, err e) = ((e, refl), refl, refl, refl)
    reached-Refused seed j (p, w, ok c) =
        admitted-Refused seed (record j { pool = p }) (n.join c none (to_proto_addr j.local_addr) w)
          (secured c none (to_proto_addr j.local_addr) w refl)

    join_cluster-Refused :
        (seed : Text) (j : Joiner C) (w : W) → Refused j (join_cluster n seed j w)
    unfolding join_cluster
    join_cluster-Refused seed j w = reached-Refused seed j (get_membership n.dial seed j.pool w)

    or_next-Refused :
        (j : Joiner C) (next : Joiner C → W → Joiner C × W × Result Text (Unit {0}))
        (r : Joiner C × W × Result Text (Unit {0}))
        → ((j' : Joiner C) (w' : W) → Refused j' (next j' w'))
        → Refused j r
        → Refused j (or_next n next r)
    unfolding or_next
    or_next-Refused j next (j', w, ok a) h ((e, f), k, l, m) = absurd (cc)
    or_next-Refused j next (j', w, err e) h (f, g, k, l) =
        let (a, b, c, d) = h j' w in (a, b ∙ g, c ∙ k, d ∙ l)

    -- Where every peer refuses a request without the shared secret, no silo ever joins, whatever its
    -- own token and whichever seeds it is given: the attempt ends in an error, and its ring, its members
    -- and its address are as before.
    pub discover_and_join-Refused :
        (ms : List SiloAddress) (j : Joiner C) (w : W) → Refused j (discover_and_join n ms j w)
    unfolding discover_and_join
    discover_and_join-Refused [] j w = (([], refl), refl, refl, refl)
    discover_and_join-Refused (m ∷ ms) j w =
        if-both (Refused j) (same (endpoint m) (endpoint j.local_addr))
          (discover_and_join-Refused ms j w)
          (or_next-Refused j (discover_and_join n ms) (join_cluster n (endpoint m) j w)
            (discover_and_join-Refused ms) (join_cluster-Refused (endpoint m) j w))
