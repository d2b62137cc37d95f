-- ===== src/Cluster/Remote/Retries.antt =====
-- crates/orlando-cluster/src/cluster_grain_ref.rs and retry.rs: how often a remote call is made, and
-- with which pauses.
use orlando.Base.{
  ℕ, zero, suc, ◌≤◌, ◌<◌, ◌≡◌, refl, ap, is_empty, ◌⊎◌, inl, inr, true, false, Bool-cases, List, [],
  ◌∷◌, Result, ok, err, arith, All,
}
use orlando.Core.GrainRef.{GrainError, Mailbox}
use orlando.Core.Ids.{Text}
use orlando.Core.CallChain.{RequestContext}
use orlando.Persistence.Store.{Bytes}
use orlando.Cluster.Registry.Handlers.{NetworkMessage}
use orlando.Cluster.Transport.{InvokeResponse}
use orlando.Cluster.Remote.{
  Calls, remote, request_of, answered, read_result, remote_invoke, remote_ask, ask_cluster,
  RetryPolicy, is_retryable, delay_for_attempt, Asked, slept, again, last_try, tries, smaller,
}

module _ {R W : Type 0} (invoke : W → W × Result GrainError R) where
  -- The call number n of calls that are made one after the other.
  unfoldable pub nth_call : ℕ → W → W × Result GrainError R
  nth_call zero w = invoke w
  nth_call (suc n) w = nth_call n (invoke w).0

  -- The call fails with an error that may be transient.
  unfoldable pub FailsAt : ℕ → W → Type 0
  FailsAt n w = (e : GrainError) × ((nth_call n w).1 ≡ err e) × (is_retryable e ≡ true)

  -- The call is one that another may follow, up to the last of `left` more.
  IsFinal : ℕ → ℕ → W → Type 0
  IsFinal left n w =
      (n ≡ left)
      ⊎ ((r : R) × ((nth_call n w).1 ≡ ok r))
      ⊎ ((e : GrainError) × ((nth_call n w).1 ≡ err e) × (is_retryable e ≡ false))

-- The pauses before the repetitions from one attempt on.
unfoldable pub pauses : RetryPolicy → (n attempt : ℕ) → List ℕ
pauses p zero attempt = []
pauses p (suc n) attempt = delay_for_attempt p attempt ∷ pauses p n (suc attempt)

pauses-All : (p : RetryPolicy) (n attempt : ℕ) → All (λ d. d ≤ p.max_delay) (pauses p n attempt)
unfolding pauses delay_for_attempt smaller
pauses-All p zero attempt = tt
pauses-All p (suc n) attempt = (ground arith, pauses-All p n (suc attempt))

module _ {R W : Type 0} (p : RetryPolicy) (invoke : W → W × Result GrainError R) where
  -- What the tries leave: the last of n + 1 calls, each but the last of which may be followed.
  Stopped : (left attempt : ℕ) → W → Asked W R → Type 0
  Stopped left attempt w out =
      (n : ℕ) × (n ≤ left)
      × ((k : ℕ) → k < n → FailsAt invoke k w)
      × (out ≡ ((nth_call invoke n w).0, (nth_call invoke n w).1, pauses p n attempt))
      × IsFinal invoke left n w

  fails_first :
      (n : ℕ) (w w' : W) (e : GrainError)
      → invoke w ≡ (w', err e)
      → is_retryable e ≡ true
      → ((k : ℕ) → k < n → FailsAt invoke k w')
      → (k : ℕ) → k < suc n
      → FailsAt invoke k w
  unfolding FailsAt nth_call
  fails_first n w w' e i t f zero h = (e, ground (arith, i), t)
  fails_first n w w' e i t f (suc k) h =
      let (e', at, t') = f k (omega (arith, h)) in (e', ground (arith, i, at), t')

  IsFinal-suc :
      (left n : ℕ) (w w' : W) (e : GrainError)
      → invoke w ≡ (w', err e)
      → IsFinal invoke left n w'
      → IsFinal invoke (suc left) (suc n) w
  unfolding IsFinal nth_call
  IsFinal-suc left n w w' e i (inl q) = inl (ap suc q)
  IsFinal-suc left n w w' e i (inr (inl (r, q))) = inr (inl (r, ground (arith, i, q)))
  IsFinal-suc left n w w' e i (inr (inr (e', q, t))) = inr (inr (e', ground (arith, i, q), t))

  again-Stopped :
      (left attempt : ℕ) (w : W)
      → ((w' : W) → Stopped left (suc attempt) w' (tries p invoke left (suc attempt) w'))
      → (r : W × Result GrainError R) → invoke w ≡ r
      → Stopped (suc left) attempt w (again p invoke attempt (tries p invoke left (suc attempt)) r)
  unfolding Stopped again IsFinal nth_call pauses slept
  again-Stopped left attempt w rest (w', ok v) i = (
    0,
    omega arith,
    λ k h. absurd (omega (arith, h)),
    ground (arith, i),
    inr (inl (v, ground (arith, i))),
  )
  again-Stopped left attempt w rest (w', err e) i =
      let (n, most, failed, left_by, final) = rest w' in
      elim (Bool-cases (is_retryable e)) [
        | inl t ↦ (
          suc n,
          omega (arith, most),
          fails_first n w w' e i t failed,
          ground (arith, i, t, left_by),
          IsFinal-suc left n w w' e i final,
        )
        | inr f ↦ (
          0,
          omega arith,
          λ k h. absurd (omega (arith, h)),
          ground (arith, i, f),
          inr (inr (e, ground (arith, i), f)),
        )
      ]

  last_try-Stopped : (attempt : ℕ) (w : W) → Stopped zero attempt w (last_try p invoke (invoke w))
  unfolding Stopped last_try nth_call pauses IsFinal
  last_try-Stopped attempt w = (0, omega arith, λ k h. absurd (omega (arith, h)), refl, inl refl)

  tries-Stopped :
      (left attempt : ℕ) (w : W) → Stopped left attempt w (tries p invoke left attempt w)
  unfolding tries
  tries-Stopped zero attempt w = last_try-Stopped attempt w
  tries-Stopped (suc left) attempt w =
      again-Stopped left attempt w (tries-Stopped left (suc attempt)) (invoke w) refl

-- What a remote call fails with may be transient, as far as the retries are concerned.
read_result-retryable :
    {M R W : Type 0}
    → (n : NetworkMessage M R) (call : Calls W) (ctx : RequestContext)
      (endpoint grain_type grain_key : Text) (r : Result Text R) (e : GrainError)
    → read_result n call ctx endpoint grain_type grain_key r ≡ err e
    → is_retryable e ≡ true
unfolding read_result is_retryable
read_result-retryable n call ctx endpoint grain_type grain_key (ok r) e h =
    absurd (ground (arith, h))
read_result-retryable n call ctx endpoint grain_type grain_key (err t) e h = ground (arith, h)

answered-retryable :
    {M R W : Type 0}
    → (n : NetworkMessage M R) (call : Calls W) (ctx : RequestContext)
      (endpoint grain_type grain_key : Text) (a : W × Result Text InvokeResponse) (e : GrainError)
    → (answered n call ctx endpoint grain_type grain_key a).1 ≡ err e
    → is_retryable e ≡ true
unfolding answered is_retryable
answered-retryable n call ctx endpoint grain_type grain_key (w, err t) e h = ground (arith, h)
answered-retryable n call ctx endpoint grain_type grain_key (w, ok r) e h =
    elim (Bool-cases (is_empty r.error)) [
      | inl c ↦
          read_result-retryable n call ctx endpoint grain_type grain_key (n.decode_result r.payload)
            e (ground (arith, h, c))
      | inr c ↦ ground (arith, h, c)
    ]

remote_invoke-retryable :
    {M R W : Type 0}
    → (n : NetworkMessage M R) (call : Calls W) (ctx : RequestContext)
      (endpoint grain_type grain_key : Text) (payload : Bytes) (k : ℕ) (w : W) (e : GrainError)
    → (nth_call (remote_invoke n call ctx endpoint grain_type grain_key payload) k w).1 ≡ err e
    → is_retryable e ≡ true
unfolding nth_call remote_invoke
remote_invoke-retryable n call ctx endpoint grain_type grain_key payload zero w e h =
    answered-retryable n call ctx endpoint grain_type grain_key
      (call endpoint (request_of n call ctx endpoint grain_type grain_key payload) w) e h
remote_invoke-retryable n call ctx endpoint grain_type grain_key payload (suc k) w e h =
    remote_invoke-retryable n call ctx endpoint grain_type grain_key payload k
      (remote_invoke n call ctx endpoint grain_type grain_key payload w).0 e h

module _ {M R W : Type 0} (p : RetryPolicy) (n : NetworkMessage M R) (call : Calls W)
    (grain_name : Text) (mailbox : M → Mailbox R W) (ctx : RequestContext)
    (endpoint grain_type grain_key : Text) (msg : M) (payload : Bytes) where
  ends :
      (k : ℕ) (w : W)
      → IsFinal (remote_invoke n call ctx endpoint grain_type grain_key payload) p.max_retries k w
      → (k ≡ p.max_retries)
        ⊎ ((r : R) × ((nth_call
                (remote_invoke n call ctx endpoint grain_type grain_key payload)
                k
                w).1
              ≡ ok r))
  unfolding IsFinal
  ends k w (inl q) = inl q
  ends k w (inr (inl q)) = inr q
  ends k w (inr (inr (e, q, f))) = absurd (
      ground (
        arith,
        f,
        remote_invoke-retryable n call ctx endpoint grain_type grain_key payload k w e q,
      ))

  -- A remote ask makes one call and at most `max_retries` more, and gives what the last of them gave.
  -- All before the last failed, the last succeeded unless the retries are used up, and the pauses
  -- between them are those of the policy, none longer than `max_delay`. The peer's failures are
  -- repeated whatever they are: that of the grain's handler comes back as any other.
  pub ask_cluster-pauses :
      (w : W)
      → n.encode msg ≡ ok payload
      → let invoke : W → W × Result GrainError R =
          remote_invoke n call ctx endpoint grain_type grain_key payload in
        (k : ℕ) × (k ≤ p.max_retries)
        × ((i : ℕ) → i < k → FailsAt invoke i w)
        × (ask_cluster p n call grain_name mailbox ctx (remote endpoint grain_type grain_key) msg w
            ≡ ((nth_call invoke k w).0, (nth_call invoke k w).1, pauses p k 0))
        × ((k ≡ p.max_retries) ⊎ ((r : R) × ((nth_call invoke k w).1 ≡ ok r)))
        × All (λ d. d ≤ p.max_delay) (pauses p k 0)
  unfolding ask_cluster remote_ask Stopped IsFinal
  ask_cluster-pauses w h =
      let invoke : W → W × Result GrainError R =
        remote_invoke n call ctx endpoint grain_type grain_key payload in
      let (k, most, failed, left_by, final) = tries-Stopped p invoke p.max_retries 0 w in
      (k, most, failed, rw h left_by, ends k w final, pauses-All p k 0)
