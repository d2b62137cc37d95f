-- ===== src/Cluster/Transport/Network/Hops.antt =====
-- crates/orlando-cluster/src/transport.rs: a call does not travel for ever.
use orlando.Base.{
  ℕ, zero, suc, ◌+◌, ◌≤◌, ◌<◌, ◌≡◌, ◌≢◌, Option, none, some, ltb, leb, if◌then◌else◌, if-both,
  if-taken, lookup-insert, show, length, Result, ok, err, arith,
}
use orlando.Core.Ids.{Text, text_key}
use orlando.Cluster.Auth.{Status}
use orlando.Cluster.Transport.{
  max_hops, max_payload_size, InvokeRequest, InvokeResponse, CrossCluster, TransportService, parsed,
  hop_count_key, hop_count, forwarded, find_owner, check_cross_cluster,
}
use orlando.Cluster.Transport.Network.{
  Answer, Silos, relayed, handed, hop, found_at, active_here, settle, checked, across, routed,
  admitted, invoke,
}

-- std reads back the decimal text of the numbers up to the bound on hops.
unfoldable pub ReadsHops : (Text → Option ℕ) → Type 0
ReadsHops parse = (n : ℕ) → n ≤ max_hops → parse (show n) ≡ some n

-- There is an answer.
IsAnswered : {W : Type 0} → Answer W → Type 0
IsAnswered a = a ≢ none

given : {W : Type 0} → (r : W × Result Status InvokeResponse) → IsAnswered (some r)
unfolding IsAnswered
given r = λ e. ground (arith, e)

relayed-IsAnswered : {W : Type 0} → (a : Answer W) → IsAnswered a → IsAnswered (relayed a)
unfolding IsAnswered relayed
relayed-IsAnswered none h = h
relayed-IsAnswered (some (w, ok r)) h = λ e. ground (arith, e)
relayed-IsAnswered (some (w, err e)) h = λ e. ground (arith, e)

module _ {W : Type 0} (parse : Text → Option ℕ) (reads : ReadsHops parse) (silos : Silos W) where
  hop_count-forwarded :
      (req : InvokeRequest)
      → hop_count parse req < max_hops
      → hop_count parse (forwarded parse req) ≡ suc (hop_count parse req)
  unfolding hop_count forwarded parsed ReadsHops
  hop_count-forwarded req h = ground (
    arith,
    h,
    reads (suc (hop_count parse req)),
    lookup-insert hop_count_key hop_count_key (show (hop_count parse req + 1)) req.request_context,
  )

  -- What a call needs of the silos that it is handed to.
  Serves : (TransportService W → InvokeRequest → W → Answer W) → InvokeRequest → Type 0
  Serves next req =
      hop_count parse req < max_hops
      → (s : TransportService W) (w : W) → IsAnswered (next s (forwarded parse req) w)

  module _ (next : TransportService W → InvokeRequest → W → Answer W) (req : InvokeRequest)
      (serves : Serves next req) where
    handed-IsAnswered :
        (o : Option (TransportService W)) (w : W)
        → hop_count parse req < max_hops
        → IsAnswered (handed parse silos next o req w)
    unfolding handed Serves IsAnswered
    handed-IsAnswered none w h = λ e. ground (arith, e)
    handed-IsAnswered (some s) w h =
        relayed-IsAnswered (next s (forwarded parse req) w) (serves h s w)

    hop-IsAnswered : (endpoint : Text) (w : W) → IsAnswered (hop parse silos next endpoint req w)
    unfolding hop
    hop-IsAnswered endpoint w =
        if-taken IsAnswered (leb max_hops (hop_count parse req)) (λ _. given _)
          (λ c. handed-IsAnswered (silos endpoint) w (ground (arith, c)))

    found_at-IsAnswered :
        (s : TransportService W) (o : Option Text) (w : W)
        → IsAnswered (found_at parse silos next s o req w)
    unfolding found_at
    found_at-IsAnswered s (some endpoint) w = hop-IsAnswered endpoint w
    found_at-IsAnswered s none w = given _

    settle-IsAnswered :
        (s : TransportService W) (w : W) → IsAnswered (settle parse silos next s req w)
    unfolding settle
    settle-IsAnswered s w =
        found_at-IsAnswered s
          (if active_here s req w then none else s.elsewhere req.grain_type req.grain_key w) w

    checked-IsAnswered :
        (s : TransportService W) (c : CrossCluster W) (r : W × Result Status (Option Text))
        → IsAnswered (checked parse silos next s c req r)
    unfolding checked
    checked-IsAnswered s c (w, err e) = given _
    checked-IsAnswered s c (w, ok none) = settle-IsAnswered s w
    checked-IsAnswered s c (w, ok (some endpoint)) = given _

    across-IsAnswered :
        (s : TransportService W) (o : Option (CrossCluster W)) (w : W)
        → IsAnswered (across parse silos next s o req w)
    unfolding across
    across-IsAnswered s none w = settle-IsAnswered s w
    across-IsAnswered s (some c) w = checked-IsAnswered s c (check_cross_cluster c s.registry req w)

    routed-IsAnswered :
        (s : TransportService W) (o : Option Text) (w : W)
        → IsAnswered (routed parse silos next s o req w)
    unfolding routed
    routed-IsAnswered s (some endpoint) w = hop-IsAnswered endpoint w
    routed-IsAnswered s none w = across-IsAnswered s s.cross_cluster w

    admitted-IsAnswered :
        (s : TransportService W) (r : Result Status (Unit {0})) (w : W)
        → IsAnswered (admitted parse silos next s r req w)
    unfolding admitted
    admitted-IsAnswered s (err e) w = given _
    admitted-IsAnswered s (ok _) w =
        if-both IsAnswered (ltb max_payload_size (length req.payload)) (given _)
          (routed-IsAnswered s (find_owner s req) w)

  -- A silo and one more for each hop that the call may still make are enough.
  invoke-IsAnswered :
      (fuel : ℕ) (s : TransportService W) (req : InvokeRequest) (w : W)
      → max_hops ≤ hop_count parse req + fuel
      → IsAnswered (invoke parse silos (suc fuel) s req w)
  unfolding invoke Serves
  invoke-IsAnswered zero s req w h =
      admitted-IsAnswered (invoke parse silos zero) req (λ l. absurd (omega (arith, h, l))) s
        (s.authenticate req) w
  invoke-IsAnswered (suc fuel) s req w h =
      admitted-IsAnswered (invoke parse silos (suc fuel)) req
        (λ l t v.
          invoke-IsAnswered fuel t (forwarded parse req) v
            (omega (arith, h, hop_count-forwarded req l)))
        s (s.authenticate req) w

  -- Every call is answered, after at most three hops: whatever the silos believe of the ring and of
  -- the grains that are active elsewhere, and however stale or circular that is, a call that a silo
  -- serves passes through at most four silos, and the gateway of another cluster, which serves what it
  -- is sent, and then has an answer or a status. std reads back the numbers that a hop writes.
  pub invoke_ends :
      (s : TransportService W) (req : InvokeRequest) (w : W)
      → invoke parse silos (suc max_hops) s req w ≢ none
  unfolding IsAnswered
  invoke_ends s req w = invoke-IsAnswered max_hops s req w (omega arith)
