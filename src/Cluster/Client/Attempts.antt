-- ===== src/Cluster/Client/Attempts.antt =====
-- How often a client's call goes out.
use orlando.Base.{
  ℕ, suc, ◌+◌, ◌≤◌, ◌==◌, ◌≡◌, refl, ◌∙◌, List, [], ◌∷◌, Option, none, some, Result, ok, err, arith,
  if-both, length,
}
use orlando.Core.Ids.{Text, text_key}
use orlando.Persistence.Store.{Bytes}
use orlando.Cluster.Ring.{SiloAddress, endpoint, members}
use orlando.Cluster.Swim.Wire.{ProtoSiloAddress}
use orlando.Cluster.Transport.{InvokeRequest, InvokeResponse}
use orlando.Cluster.Connections.{ConnectionPool, get_membership, get_transport}
use orlando.Cluster.Connections.Caches.{get_transport_keeps, get_membership_keeps}
use orlando.Cluster.Client.{
  ClientError, OrlandoClient, Network, asked, fetch, refreshed, refresh_from, refresh_membership,
  retried, answered, called, at_target, attempts_from, invoke, connection, transport,
}

-- A count of the calls of grains that the network has been given: nothing else moves it.
pub record Counts {C W : Type 0} (n : Network C W) (sent : W → ℕ) : Type 0 where
  pub dials : (address : Text) (w : W) → sent (n.dial address w).0 ≡ sent w
  pub asks : (c : C) (header : Option Bytes) (w : W) → sent (n.get_members c header w).0 ≡ sent w
  pub calls :
      (c : C) (timeout : ℕ) (header : Option Bytes) (req : InvokeRequest) (w : W)
      → sent (n.invoke c timeout header req w).0 ≡ sent w + 1

module _ {C W : Type 0} (n : Network C W) (sent : W → ℕ) (k : Counts n sent) where
  asked-sent : (r : ConnectionPool C × W × Result Text C) → sent (asked n r).1 ≡ sent r.1
  unfolding asked
  asked-sent (p, w, err e) = refl
  asked-sent (p, w, ok c) = k.asks c none w

  fetch-sent :
      (address : Text) (p : ConnectionPool C) (w : W) → sent (fetch n address p w).1 ≡ sent w
  unfolding fetch
  fetch-sent address p w =
      asked-sent (get_membership n.dial address p w)
      ∙ get_membership_keeps n.dial sent k.dials address p w

  refreshed-sent :
      (c : OrlandoClient C)
      (next : OrlandoClient C → W → OrlandoClient C × W × Result ClientError (Unit {0}))
      (r : ConnectionPool C × W × Result ClientError (List ProtoSiloAddress))
      → ((c' : OrlandoClient C) (w' : W) → sent (next c' w').1 ≡ sent w')
      → sent (refreshed n c next r).1 ≡ sent r.1
  unfolding refreshed
  refreshed-sent c next (p, w, ok ms) h = refl
  refreshed-sent c next (p, w, err e) h = h _ w

  refresh_from-sent :
      (ms : List SiloAddress) (c : OrlandoClient C) (w : W)
      → sent (refresh_from n ms c w).1 ≡ sent w
  unfolding refresh_from
  refresh_from-sent [] c w = refl
  refresh_from-sent (m ∷ ms) c w =
      refreshed-sent c (refresh_from n ms) (fetch n (endpoint m) c.pool w) (refresh_from-sent ms)
      ∙ fetch-sent (endpoint m) c.pool w

  -- An attempt after which at most `more` calls go out sends at most one besides.
  module _ (req : InvokeRequest) (attempt more : ℕ)
      (next : OrlandoClient C → W → OrlandoClient C × W × Result ClientError Bytes)
      (h : (c : OrlandoClient C) (w : W) → sent (next c w).1 ≤ sent w + more) where
    retried-sent :
        (e : ClientError) (c : OrlandoClient C) (w : W)
        → sent (retried n attempt next e c w).1 ≤ sent w + more
    unfolding retried refresh_membership
    retried-sent e c w =
        if-both (λ (r : OrlandoClient C × W × Result ClientError Bytes). sent r.1 ≤ sent w + more)
          (attempt == 0)
          (omega (
            arith,
            h (refresh_membership n c w).0 (refresh_membership n c w).1,
            refresh_from-sent (members c.ring) c w,
          ))
          (omega arith)

    answered-sent :
        (address : Text) (c : OrlandoClient C) (r : W × Result Text InvokeResponse)
        → sent (answered n attempt next address c r).1 ≤ sent r.0 + more
    unfolding answered
    answered-sent address c (w, ok r) = omega arith
    answered-sent address c (w, err e) = retried-sent (transport e) _ w

    called-sent :
        (address : Text) (c : OrlandoClient C) (r : ConnectionPool C × W × Result Text C)
        → sent (called n req attempt next address c r).1 ≤ sent r.1 + suc more
    unfolding called
    called-sent address c (p, w, err e) =
        omega (arith, retried-sent (connection e) (record c { pool = p }) w)
    called-sent address c (p, w, ok conn) = omega (
      arith,
      answered-sent address (record c { pool = p }) (n.invoke conn c.request_timeout none req w),
      k.calls conn c.request_timeout none req w,
    )

    at_target-sent :
        (o : Option SiloAddress) (c : OrlandoClient C) (w : W)
        → sent (at_target n req attempt next o c w).1 ≤ sent w + suc more
    unfolding at_target
    at_target-sent none c w = omega arith
    at_target-sent (some t) c w = omega (
      arith,
      called-sent (endpoint t) c (get_transport n.dial (endpoint t) c.pool w),
      get_transport_keeps n.dial sent k.dials (endpoint t) c.pool w,
    )

  attempts_from-sent :
      (req : InvokeRequest) (attempts : List ℕ) (c : OrlandoClient C) (w : W)
      → sent (attempts_from n req attempts c w).1 ≤ sent w + length attempts
  unfolding attempts_from
  attempts_from-sent req [] c w = omega arith
  attempts_from-sent req (attempt ∷ rest) c w =
      at_target-sent req attempt (length rest) (attempts_from n req rest)
        (attempts_from-sent req rest) _ c w

  -- A client's call of a grain goes out at most twice, whatever the network does and however often the
  -- membership is fetched in between.
  pub invoke-at_most_twice :
      (grain_type grain_key message_type : Text) (payload : Bytes) (encoding : ℕ)
      (c : OrlandoClient C) (w : W)
      → sent (invoke n grain_type grain_key message_type payload encoding c w).1 ≤ sent w + 2
  unfolding invoke
  invoke-at_most_twice grain_type grain_key message_type payload encoding c w =
      attempts_from-sent _ (0 ∷ 1 ∷ []) c w
