-- ===== src/Cluster/Membership/Keeps.antt =====
-- crates/orlando-cluster/src/membership.rs: what every call of the service keeps of the member table.
use orlando.Base.{
  ℕ, Bool, not, ◌≡◌, ◌≢◌, refl, sym, subst, All, ◌∙◌, List, [], ◌∷◌, Option, none, some, if-both,
  Result, ok, err, lookup, arith, is_empty,
}
use orlando.Core.Ids.{Text, text_key}
use orlando.Cluster.Ring.{SiloAddress}
use orlando.Cluster.Swim.{SwimMember, SwimState, Shared, enqueue_gossip, drain_gossip}
use orlando.Cluster.Swim.Table.{
  IsSane, insert-IsSane, remove-IsSane, enqueue-IsSane, drain_gossip-IsSane, apply_gossip-IsSane,
}
use orlando.Cluster.Swim.Wire.{
  ProtoSiloAddress, GossipEntry, from_proto_addr, proto_to_gossip, receive,
}
use orlando.Cluster.Auth.{Status}
use orlando.Cluster.Membership.{
  Service, joined, join_silo, joiner_given, limited_by, limited, guarded, join, learn_silo,
  silo_given, notify_join, drop_silo, notify_leave, take_in, give_out, ponged, ping, asked,
  ping_req, in_ring, check,
}

-- A call of the service: what authentication said of it, when it came, and what it says.
pub data Call : Type 0 where
  join_call notify_join_call :
      (auth : Result Status Unit) (now : ℕ) (silo : Option ProtoSiloAddress) → Call
  notify_leave_call : (auth : Result Status Unit) (silo : Option ProtoSiloAddress) → Call
  ping_call : (auth : Result Status Unit) (now : ℕ) (gossip : List GossipEntry) → Call
  ping_req_call :
      (auth : Result Status Unit) (answers : SiloAddress → Bool) (now : ℕ)
      (target : Option ProtoSiloAddress) (gossip : List GossipEntry)
      → Call

unfoldable pub serve : Call → Service → Service
serve (join_call auth now silo) v = (join auth now silo v).0
serve (notify_join_call auth now silo) v = (notify_join auth now silo v).0
serve (notify_leave_call auth silo) v = (notify_leave auth silo v).0
serve (ping_call auth now gossip) v = (ping auth now gossip v).0
serve (ping_req_call auth answers now target gossip) v =
    (ping_req auth answers now target gossip v).0

-- The silo that is said to have joined is not the one with the id.
unfoldable pub IsOther : Text → Option ProtoSiloAddress → Type 0
IsOther id none = Unit
IsOther id (some p) = p.silo_id ≢ id

-- The call does not say that the silo itself has joined.
unfoldable pub IsForeign : Text → Call → Type 0
unfolding IsOther
IsForeign id (join_call auth now silo) = IsOther id silo
IsForeign id (notify_join_call auth now silo) = IsOther id silo
IsForeign id (notify_leave_call auth silo) = Unit
IsForeign id (ping_call auth now gossip) = Unit
IsForeign id (ping_req_call auth answers now target gossip) = Unit

-- The table is sane, and the silo's address is the one it had.
unfoldable pub IsKept : SiloAddress → Service → Type 0
IsKept addr v = IsSane v.swim × (v.swim.local_addr ≡ addr)

module _ (addr : SiloAddress) where
  guarded-IsKept :
      {A : Type 0}
      → (auth : Result Status Unit) (v : Service) (next : Service → Service × Result Status A)
      → IsKept addr v
      → ((u : Service) → IsKept addr u → IsKept addr (next u).0)
      → IsKept addr (guarded auth v next).0
  unfolding guarded
  guarded-IsKept (ok _) v next k h = h v k
  guarded-IsKept (err e) v next k h = k

  limited_by-IsKept :
      {A : Type 0}
      → (r : Result Status Unit) (v : Service) (next : Service → Service × Result Status A)
      → IsKept addr v
      → ((u : Service) → IsKept addr u → IsKept addr (next u).0)
      → IsKept addr (limited_by r v next).0
  unfolding limited_by
  limited_by-IsKept (ok _) v next k h = h v k
  limited_by-IsKept (err e) v next k h = k

  limited-IsKept :
      {A : Type 0}
      → (now : ℕ) (v : Service) (next : Service → Service × Result Status A) → IsKept addr v
      → ((u : Service) → IsKept addr u → IsKept addr (next u).0)
      → IsKept addr (limited now v next).0
  unfolding limited IsKept
  limited-IsKept now v next k h =
      limited_by-IsKept (check now v.limiter).1 (record v { limiter = (check now v.limiter).0 })
        next k h

  joined-IsSane :
      (silo : SiloAddress) (o : Option SwimMember) (s : SwimState)
      → silo.silo_id ≢ s.local_addr.silo_id
      → IsSane s
      → IsSane (joined silo o s)
  unfolding joined
  joined-IsSane silo none s ne k = enqueue-IsSane _ _ (insert-IsSane silo.silo_id _ s ne k)
  joined-IsSane silo (some m) s ne k = k

  joined-local_addr :
      (silo : SiloAddress) (o : Option SwimMember) (s : SwimState)
      → (joined silo o s).local_addr ≡ s.local_addr
  unfolding joined enqueue_gossip
  joined-local_addr silo none s = refl
  joined-local_addr silo (some m) s = refl

  joiner_given-IsKept :
      (silo : Option ProtoSiloAddress) (v : Service)
      → IsOther addr.silo_id silo
      → IsKept addr v
      → IsKept addr (joiner_given silo v).0
  unfolding joiner_given join_silo IsKept IsOther from_proto_addr
  joiner_given-IsKept none v h k = k
  joiner_given-IsKept (some p) v h (k, e) =
      let silo = from_proto_addr p in
      let o = lookup silo.silo_id v.swim.members in
      (joined-IsSane silo o v.swim (ground (arith, e, h)) k, joined-local_addr silo o v.swim ∙ e)

  learn_silo-IsKept :
      (silo : SiloAddress) (v : Service)
      → silo.silo_id ≢ addr.silo_id
      → IsKept addr v
      → IsKept addr (learn_silo silo v)
  unfolding learn_silo IsKept
  learn_silo-IsKept silo v ne (k, e) =
      if-both (IsKept addr) (in_ring silo.silo_id v.shared.ring) (k, e)
        (insert-IsSane silo.silo_id _ v.swim (ground (arith, e, ne)) k, e)

  drop_silo-IsKept :
      (silo : SiloAddress) (v : Service) → IsKept addr v → IsKept addr (drop_silo silo v)
  unfolding drop_silo IsKept
  drop_silo-IsKept silo v (k, e) =
      if-both (IsKept addr) (not (in_ring silo.silo_id v.shared.ring)) (k, e)
        (remove-IsSane silo.silo_id v.swim k, e)

  take_in-IsKept :
      (now : ℕ) (gossip : List GossipEntry) (v : Service)
      → IsKept addr v
      → IsKept addr (take_in now gossip v)
  unfolding take_in receive IsKept
  take_in-IsKept now gossip v (k, e) =
      let us = proto_to_gossip gossip in
      let (k1, e1) = apply_gossip-IsSane now us v.swim v.shared k in
      if-both (λ (r : SwimState × Shared). IsKept addr (record v { swim = r.0; shared = r.1 }))
        (is_empty us) (k, e) (k1, e1 ∙ e)

  give_out-IsKept : (v : Service) → IsKept addr v → IsKept addr (give_out v).0
  unfolding give_out IsKept drain_gossip
  give_out-IsKept v (k, e) = (drain_gossip-IsSane v.gossip_fanout v.swim k, e)

  asked-IsKept :
      (answers : SiloAddress → Bool) (target : Option ProtoSiloAddress) (v : Service)
      → IsKept addr v
      → IsKept addr (asked answers target v).0
  unfolding asked
  asked-IsKept answers none v k = k
  asked-IsKept answers (some p) v k = give_out-IsKept v k

  serve-IsKept :
      (c : Call) (v : Service) → IsForeign addr.silo_id c → IsKept addr v → IsKept addr (serve c v)
  unfolding serve IsForeign join notify_join notify_leave ping ping_req ponged silo_given IsOther
      from_proto_addr
  serve-IsKept (join_call auth now silo) v f k =
      guarded-IsKept auth v _ k
        (λ u k. limited-IsKept now u _ k (λ t k. joiner_given-IsKept silo t f k))
  serve-IsKept (notify_join_call auth now none) v f k =
      guarded-IsKept auth v _ k (λ u k. limited-IsKept now u _ k (λ t k. k))
  serve-IsKept (notify_join_call auth now (some p)) v f k =
      guarded-IsKept auth v _ k
        (λ u k. limited-IsKept now u _ k (λ t k. learn_silo-IsKept (from_proto_addr p) t f k))
  serve-IsKept (notify_leave_call auth none) v f k = guarded-IsKept auth v _ k (λ u k. k)
  serve-IsKept (notify_leave_call auth (some p)) v f k =
      guarded-IsKept auth v _ k (λ u k. drop_silo-IsKept (from_proto_addr p) u k)
  serve-IsKept (ping_call auth now gossip) v f k =
      guarded-IsKept auth v _ k (λ u k. give_out-IsKept _ (take_in-IsKept now gossip u k))
  serve-IsKept (ping_req_call auth answers now target gossip) v f k =
      guarded-IsKept auth v _ k
        (λ u k. asked-IsKept answers target _ (take_in-IsKept now gossip u k))

unfoldable pub serve_all : List Call → Service → Service
serve_all [] v = v
serve_all (c ∷ cs) v = serve_all cs (serve c v)

-- Whatever calls a silo serves, let through or refused, none of which says that the silo itself has
-- joined, its table stays sane: the silo is no member of its own table, no member stands there
-- twice, and the gossip that waits stays within its bound.
pub serve_all-IsSane :
    (cs : List Call) (v : Service)
    → All (IsForeign v.swim.local_addr.silo_id) cs
    → IsSane v.swim
    → IsSane (serve_all cs v).swim
unfolding serve_all IsKept
serve_all-IsSane [] v h k = k
serve_all-IsSane (c ∷ cs) v (f, h) k =
    let (k1, e) = serve-IsKept v.swim.local_addr c v f (k, refl) in
    serve_all-IsSane cs (serve c v)
      (subst (λ (a : SiloAddress). All (IsForeign a.silo_id) cs) (sym e) h) k1
