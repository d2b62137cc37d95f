-- ===== src/Cluster/Remote.antt =====
-- crates/orlando-cluster/src/retry.rs and cluster_grain_ref.rs: a call of a grain that lives on
-- another silo, its retries, and the reads from a replica. Durations are in nanoseconds. A call of the
-- peer (the connection and the request) is a function of the world that gives the answer or the text
-- of what went wrong.
pub mod Retries
pub mod Transparent
use mathlib.Core.Option
use orlando.Base.{
  ℕ, zero, suc, ◌+◌, ◌*◌, ◌^◌, ◌/◌, not, Bool, true, false, ◌&&◌, List, [], ◌∷◌, Option, none, some,
  ltb, leb, is_empty, if◌then◌else◌, Result, ok, err,
}
use orlando.Core.Ids.{Text, GrainId}
use orlando.Core.CallChain.{RequestContext}
use orlando.Core.GrainRef
use orlando.Core.GrainRef.{
  GrainError, mailbox_closed, reply_type_mismatch, mailbox_full, silo_overloaded,
  remote_call_failed, handler_failed, deadlock_detected, timed_out, Mailbox, ask, tell,
}
use orlando.Persistence.Store.{Bytes}
use orlando.Cluster.Registry.Handlers.{NetworkMessage}
use orlando.Cluster.Transport.{InvokeRequest, InvokeResponse}
use orlando.Cluster.Replica
use orlando.Cluster.Replica.{ReplicaStore, ReplicaEntry, is_fresh}

pub record RetryPolicy : Type 0 where
  pub max_retries : ℕ
  pub base_delay : ℕ
  pub max_delay : ℕ

unfoldable pub default_policy : RetryPolicy
default_policy = record { max_retries = 2; base_delay = 100000000; max_delay = 2000000000 }

unfoldable pub with_retries : ℕ → RetryPolicy
unfolding default_policy
with_retries max_retries = record default_policy { max_retries = max_retries }

-- `RetryPolicy::none`
unfoldable pub no_retries : RetryPolicy
unfolding with_retries
no_retries = with_retries 0

unfoldable pub is_retryable : GrainError → Bool
is_retryable (remote_call_failed e) = true
is_retryable (timed_out t) = true
is_retryable mailbox_closed = true
is_retryable reply_type_mismatch = false
is_retryable mailbox_full = false
is_retryable silo_overloaded = false
is_retryable (handler_failed e) = false
is_retryable (deadlock_detected e) = false

smaller : ℕ → ℕ → ℕ
smaller a b = if leb a b then a else b

-- The product is cut off at the limit, so that of the source's saturation nothing is left.
unfoldable pub delay_for_attempt : RetryPolicy → ℕ → ℕ
unfolding smaller
delay_for_attempt p attempt = smaller (p.base_delay * 2 ^ smaller attempt 10) p.max_delay

pub data RefInner : Type 0 where
  local : RefInner
  remote : (endpoint grain_type grain_key : Text) → RefInner

-- What reaches a peer.
abbrev pub Calls : Type 0 → Type 0
Calls W = Text → InvokeRequest → W → W × Result Text InvokeResponse

module _ {M R W : Type 0} (n : NetworkMessage M R) (call : Calls W) (ctx : RequestContext)
    (endpoint grain_type grain_key : Text) where
  unfoldable pub request_of : Bytes → InvokeRequest
  request_of payload = record {
    grain_type = grain_type;
    grain_key = grain_key;
    message_type = n.message_type_name;
    payload = payload;
    encoding = 0;
    request_context = ctx.values;
    message_version = n.message_version;
  }

  read_result : Result Text R → Result GrainError R
  read_result (ok r) = ok r
  read_result (err e) = err (remote_call_failed e)

  unfoldable pub answered : W × Result Text InvokeResponse → W × Result GrainError R
  unfolding read_result
  answered (w, err e) = (w, err (remote_call_failed e))
  answered (w, ok r) =
      if not (is_empty r.error)
      then (w, err (remote_call_failed r.error))
      else (w, read_result (n.decode_result r.payload))

  unfoldable pub remote_invoke : Bytes → W → W × Result GrainError R
  unfolding request_of answered
  remote_invoke payload w = answered (call endpoint (request_of payload) w)

-- What a remote ask leaves: the world, the result, and the sleeps between its calls.
abbrev pub Asked : Type 0 → Type 0 → Type 0
Asked W R = W × Result GrainError R × List ℕ

slept : {W R : Type 0} → ℕ → Asked W R → Asked W R
slept d (w, r, delays) = (w, r, d ∷ delays)

module _ {R W : Type 0} (p : RetryPolicy) (invoke : W → W × Result GrainError R) where
  -- After a call that may be repeated: `next` makes the rest of them, after the sleep.
  again : ℕ → (W → Asked W R) → W × Result GrainError R → Asked W R
  unfolding slept
  again attempt next (w, ok r) = (w, ok r, [])
  again attempt next (w, err e) =
      if is_retryable e then slept (delay_for_attempt p attempt) (next w) else (w, err e, [])

  last_try : W × Result GrainError R → Asked W R
  last_try (w, r) = (w, r, [])

  -- The loop from the attempt with so many more to go; the last one returns whatever it gets, so the
  -- statement behind the loop is not reached.
  unfoldable pub tries : (left attempt : ℕ) → W → Asked W R
  unfolding again last_try
  tries zero attempt w = last_try (invoke w)
  tries (suc left) attempt w = again attempt (tries left (suc attempt)) (invoke w)

module _ {M R W : Type 0} (p : RetryPolicy) (n : NetworkMessage M R) (call : Calls W)
    (grain_name : Text) (mailbox : M → Mailbox R W) (ctx : RequestContext) where
  remote_ask : Text → Text → Text → Result Text Bytes → W → Asked W R
  unfolding remote_invoke tries
  remote_ask endpoint grain_type grain_key (err e) w = (w, err (remote_call_failed e), [])
  remote_ask endpoint grain_type grain_key (ok payload) w =
      tries p (remote_invoke n call ctx endpoint grain_type grain_key payload) p.max_retries 0 w

  unfoldable pub ask_cluster : RefInner → M → W → Asked W R
  unfolding remote_ask
  ask_cluster local msg w =
      let (w', r) = ask (GrainRef.new grain_name) (mailbox msg) ctx w in (w', r, [])
  ask_cluster (remote endpoint grain_type grain_key) msg w =
      remote_ask endpoint grain_type grain_key (n.encode msg) w

  -- A replica's bytes are read as the result itself.
  of_replica : Option ReplicaEntry → Option R
  of_replica none = none
  of_replica (some e) = elim (n.decode_result e.payload) [ ok r ↦ some r | err _ ↦ none ]

  unfoldable pub from_replica : ℕ → ℕ → Option ReplicaStore → RefInner → Option R
  unfolding of_replica
  from_replica now max_staleness (some st) (remote endpoint grain_type grain_key) =
      let entry = of_replica (Replica.get grain_type grain_key st) in
      if ltb 0 (max_staleness / 1000000)
        && is_fresh now grain_type grain_key (max_staleness / 1000000) st
      then entry
      else none
  from_replica now max_staleness none inner = none
  from_replica now max_staleness (some st) local = none

  unfoldable pub read_only_ask : ℕ → ℕ → Option ReplicaStore → RefInner → M → W → Asked W R
  unfolding from_replica ask_cluster
  read_only_ask now max_staleness store inner msg w =
      let asked = ask_cluster inner msg w in
      elim (from_replica now max_staleness store inner) [ some r ↦ (w, ok r, []) | none ↦ asked ]
