-- ===== src/Cluster/Remote/Transparent.antt =====
-- crates/orlando-cluster/src/cluster_grain_ref.rs over transport.rs and message_registry.rs: a call that
-- crosses the network is the call of the grain.
use orlando.Base.{
  ℕ, suc, false, ◌≡◌, refl, ap, ◌∙◌, List, Option, none, some, is_empty, Result, ok, err, arith,
}
use orlando.Core.Ids.{Text}
use orlando.Core.CallChain.{RequestContext}
use orlando.Core.GrainRef.{GrainError, remote_call_failed}
use orlando.Persistence.Store.{Bytes}
use orlando.Cluster.Auth.{Status}
use orlando.Cluster.Registry.{
  Encoding, Registration, MessageRegistry, ClusterError, handler_error, bincode, register, dispatch,
  from_proto,
}
use orlando.Cluster.Registry.Dispatches.{dispatch-register}
use orlando.Cluster.Registry.Handlers.{
  NetworkMessage, Activator, decoded, encoded, replied, asked, called, handler_of,
}
use orlando.Cluster.Transport.{
  max_hops, InvokeRequest, InvokeResponse, TransportService, response, dispatch_here,
}
use orlando.Cluster.Transport.Network.{Answer, Silos, invoke}
use orlando.Cluster.Transport.Network.Here.{IsServed, invoke-here}
use orlando.Cluster.Remote.{Calls, request_of, answered, read_result, remote_invoke}

module _ {W : Type 0} (status_text : Status → Text) (lost : Text) where
  -- What the caller sees of the answer of a silo.
  seen : W → Answer W → W × Result Text InvokeResponse
  seen w none = (w, err lost)
  seen w (some (w', ok r)) = (w', ok r)
  seen w (some (w', err e)) = (w', err (status_text e))

  reached :
      (Text → Option ℕ)
      → Silos W
      → Option (TransportService W)
      → InvokeRequest
      → W
      → W × Result Text InvokeResponse
  unfolding seen
  reached parse silos none req w = (w, err lost)
  reached parse silos (some s) req w = seen w (invoke parse silos (suc max_hops) s req w)

  -- The calls of the silos that stand behind the endpoints.
  pub call_of : (Text → Option ℕ) → Silos W → Calls W
  unfolding reached
  call_of parse silos endpoint req w = reached parse silos (silos endpoint) req w

-- The results of a message come back as they were sent.
unfoldable pub IsFaithful : {M R : Type 0} → NetworkMessage M R → Type 0
IsFaithful {R = R} n =
    (v : R) → (b : Bytes) × (n.encode_result v ≡ ok b) × (n.decode_result b ≡ ok v)

module _ {M R W : Type 0} (n : NetworkMessage M R) (a : Activator M R W)
    (error_text : GrainError → Text) (grain_type : Text) where
  -- The registration that the source makes of a grain and a message.
  unfoldable pub registration : Text → Option (List Text) → Registration W
  registration rust_type allowed = record {
    grain_type = grain_type;
    message_type = n.message_type_name;
    rust_type = rust_type;
    version = n.message_version;
    allowed = allowed;
    handler = handler_of n a error_text grain_type;
  }

  -- The result of a grain as a caller far away gets it: an error is a text.
  unfoldable pub carried : (ClusterError → Text) → W × Result GrainError R → W × Result GrainError R
  carried cluster_text (w, ok r) = (w, ok r)
  carried cluster_text (w, err e) =
      (w, err (remote_call_failed (cluster_text (handler_error (error_text e)))))

module _ {M R W : Type 0} (n : NetworkMessage M R) (a : Activator M R W)
    (error_text : GrainError → Text) (grain_type : Text) (call : Calls W) (ctx : RequestContext)
    (endpoint key : Text) (cluster_text : ClusterError → Text) where
  -- What the registry makes of the grain's result, read by the caller.
  answered-replied :
      IsFaithful n
      → ((e : ClusterError) → is_empty (cluster_text e) ≡ false)
      → (r : W × Result GrainError R)
      → answered n call ctx endpoint grain_type key (
        (replied n a error_text grain_type bincode r).0,
        ok (response cluster_text bincode (replied n a error_text grain_type bincode r).1),
      )
        ≡ carried n a error_text grain_type cluster_text r
  unfolding answered replied encoded response carried IsFaithful read_result
  answered-replied faithful spoken (w, ok v) =
      let (b, sent, back) = faithful v in ground (arith, sent, back)
  answered-replied faithful spoken (w, err e) =
      ground (arith, spoken (handler_error (error_text e)))

module _ {M R W : Type 0} (n : NetworkMessage M R) (a : Activator M R W)
    (error_text : GrainError → Text) (grain_type : Text) (s : TransportService W)
    (m : MessageRegistry W) (rust_type : Text) (allowed : Option (List Text)) (key : Text) (msg : M)
    (payload : Bytes) (ctx : RequestContext)
    (reg : register (registration n a error_text grain_type rust_type allowed) m ≡ some s.registry)
    (reads : n.decode payload ≡ ok msg) where
  handled :
      (w : W)
      → handler_of n a error_text grain_type key payload bincode ctx.values w
        ≡ replied n a error_text grain_type bincode (
            asked n a error_text grain_type
              (record { type_name = grain_type; key = key })
              msg
              ctx.values
              w)
  unfolding handler_of decoded called
  handled w =
      let d : decoded n a error_text grain_type payload bincode ≡ ok msg = ground (arith, reads) in
      ap (λ x. called n a error_text grain_type key bincode ctx.values x w) d

  -- The silo serves the message by asking the grain.
  served :
      (w : W)
      → dispatch key payload bincode ctx.values grain_type n.message_type_name n.message_version
          s.registry w
        ≡ replied n a error_text grain_type bincode (
            asked n a error_text grain_type
              (record { type_name = grain_type; key = key })
              msg
              ctx.values
              w)
  unfolding registration
  served w =
      dispatch-register key payload bincode ctx.values
        (registration n a error_text grain_type rust_type allowed) m s.registry w n.message_version
        reg
      ∙ ground arith
      ∙ handled w

  -- A call that another silo serves is the call of the grain: the world and the result that the caller
  -- gets are those of asking the grain where it lives, with the caller's request context, where an
  -- error has become a text. The message is registered there in the caller's version, the silo lets
  -- the request in and has no reason to pass it on, and what is encoded can be read back.
  pub remote_invoke-asked :
      (parse : Text → Option ℕ) (silos : Silos W) (status_text : Status → Text)
      (lost endpoint : Text) (w : W)
      → silos endpoint ≡ some s
      → IsServed parse silos s
          (request_of n (call_of status_text lost parse silos) ctx endpoint grain_type key payload)
          w
      → IsFaithful n
      → ((e : ClusterError) → is_empty (s.error_text e) ≡ false)
      → remote_invoke n (call_of status_text lost parse silos) ctx endpoint grain_type key payload w
        ≡ carried n a error_text grain_type s.error_text (
            asked n a error_text grain_type
              (record { type_name = grain_type; key = key })
              msg
              ctx.values
              w)
  unfolding remote_invoke call_of reached seen dispatch_here request_of from_proto
  remote_invoke-asked parse silos status_text lost endpoint w at h faithful spoken =
      let call : Calls W = call_of status_text lost parse silos in
      let here =
        invoke-here parse silos s (request_of n call ctx endpoint grain_type key payload) w max_hops
          h in
      let r : W × Result ClusterError (Bytes × Encoding) =
        replied n a error_text grain_type bincode (
          asked n a error_text grain_type (record { type_name = grain_type; key = key }) msg
            ctx.values w) in
      let got : call endpoint (request_of n call ctx endpoint grain_type key payload) w
          ≡ (r.0, ok (response s.error_text bincode r.1)) =
        rw (at, here, served w) refl in
      ap (answered n call ctx endpoint grain_type key) got
      ∙ answered-replied n a error_text grain_type call ctx endpoint key s.error_text faithful
          spoken
          (asked n a error_text grain_type (record { type_name = grain_type; key = key }) msg
            ctx.values w)
