-- ===== src/Cluster/Connections/Caches.antt =====
-- When the pool dials, and when it does not.
use orlando.Base.{
  ◌≡◌, ◌≢◌, refl, ap, ◌∙◌, Option, none, some, lookup, insert, lookup-insert, lookup-remove,
  same_refl, same_ne, Result, ok, err,
}
use orlando.Core.Ids.{Text, text_key}
use orlando.Cluster.Connections.{
  ConnectionPool, Dial, connect_channel, dialled, cached, get_transport, get_membership, forget,
}

module _ {C W : Type 0} (dial : Dial C W) (endpoint : Text) where
  -- The pool with this connection for calls.
  abbrev pub kept : C → ConnectionPool C → ConnectionPool C
  kept c p = record p { transports = insert endpoint c p.transports }

  get_transport_dials :
      (p : ConnectionPool C) (w w1 : W) (c : C)
      → lookup endpoint p.transports ≡ none
      → connect_channel dial endpoint p w ≡ (w1, ok c)
      → get_transport dial endpoint p w ≡ (kept c p, w1, ok c)
  unfolding get_transport cached dialled
  get_transport_dials p w w1 c h k = rw (h, k) refl

  get_transport_cached :
      (p : ConnectionPool C) (w : W) (c : C)
      → lookup endpoint p.transports ≡ some c
      → get_transport dial endpoint p w ≡ (p, w, ok c)
  unfolding get_transport cached
  get_transport_cached p w c h = rw h refl

  -- A call with no connection dials once: the next one for the address uses the connection that it got
  -- and leaves the network alone, until the address is forgotten; then the next call dials afresh, and
  -- the connections to other addresses are as they were.
  pub get_transport-forget :
      (other : Text) (p : ConnectionPool C) (w w1 w2 w3 : W) (c c' : C)
      → lookup endpoint p.transports ≡ none
      → connect_channel dial endpoint p w ≡ (w1, ok c)
      → connect_channel dial endpoint p w2 ≡ (w3, ok c')
      → endpoint ≢ other
      → let p1 = (get_transport dial endpoint p w).0 in
        (get_transport dial endpoint p w ≡ (p1, w1, ok c))
        × (get_transport dial endpoint p1 w2 ≡ (p1, w2, ok c))
        × ((get_transport dial endpoint (forget endpoint p1) w2).1 ≡ w3)
        × (lookup other (forget endpoint p1).transports ≡ lookup other p.transports)
  unfolding forget connect_channel
  get_transport-forget other p w w1 w2 w3 c c' h k k' ne = rw (get_transport_dials p w w1 c h k) (
    refl,
    get_transport_cached (kept c p) w2 c (rw (lookup-insert, same_refl) refl),
    ap (λ (r : ConnectionPool C × W × Result Text C). r.1)
        (get_transport_dials (forget endpoint (kept c p)) w2 w3 c'
          (rw (lookup-remove, same_refl) refl) k'),
    rw (lookup-remove, lookup-insert, same_ne endpoint other ne) refl,
  )

-- What dialling leaves alone, the pool leaves alone.
module _ {C W A : Type 0} (dial : Dial C W) (f : W → A)
    (dials : (address : Text) (w : W) → f (dial address w).0 ≡ f w) where
  dialled_keeps :
      (keep : C → ConnectionPool C) (p : ConnectionPool C) (r : W × Result Text C)
      → f (dialled dial keep p r).1 ≡ f r.0
  unfolding dialled
  dialled_keeps keep p (w, ok c) = refl
  dialled_keeps keep p (w, err e) = refl

  cached_keeps :
      (o : Option C) (keep : C → ConnectionPool C) (address : Text) (p : ConnectionPool C) (w : W)
      → f (cached dial o keep address p w).1 ≡ f w
  unfolding cached connect_channel
  cached_keeps (some c) keep address p w = refl
  cached_keeps none keep address p w =
      dialled_keeps keep p (connect_channel dial address p w) ∙ dials _ w

  pub get_transport_keeps :
      (address : Text) (p : ConnectionPool C) (w : W) → f (get_transport dial address p w).1 ≡ f w
  unfolding get_transport
  get_transport_keeps address p w = cached_keeps (lookup address p.transports) _ address p w

  pub get_membership_keeps :
      (address : Text) (p : ConnectionPool C) (w : W) → f (get_membership dial address p w).1 ≡ f w
  unfolding get_membership
  get_membership_keeps address p w = cached_keeps (lookup address p.memberships) _ address p w
