-- ===== src/Runtime/Directory/Bounds.antt =====
-- One activation for each grain, within the silo's limit.
use orlando.Base.{
  ℕ, ◌≤◌, ◌<◌, Bool, true, false, ◌≡◌, ◌≢◌, inl, inr, ◌⊎◌, none, some, length, lookup, insert, max,
  arith, lookup-insert, Bool-cases, Option-cases, length-insert,
}
use orlando.Core.Ids.{GrainId, grain_id_key}
use orlando.Runtime.Directory.{
  GrainDirectory, channel, get_sender, fresh, get_or_insert, get_or_insert_pool, drain,
}

module _ (is_closed : ℕ → Bool) (id : GrainId) (d : GrainDirectory) where
  -- A limited silo never holds more activations than its limit, or than it already held.
  pub activation_count-get_or_insert :
      0 < d.max_activations
      → length (get_or_insert is_closed id d).0.activations
        ≤ max d.max_activations (length d.activations)
  unfolding get_or_insert
  activation_count-get_or_insert h = ground (arith, length-insert id (fresh id d) d.activations)

  -- While the silo is not draining and below its limit, and the channel that an activation would get
  -- is open, the caller is handed an open channel, which is the one of the grain's entry afterwards,
  -- and asked again the directory hands out the same channel.
  pub get_or_insert_stable :
      d.draining ≡ false
      → (d.max_activations ≡ 0) ⊎ (length d.activations < d.max_activations)
      → is_closed d.next_channel ≡ false
      → (s : ℕ) × ((get_or_insert is_closed id d).1 ≡ channel s)
        × (get_sender id (get_or_insert is_closed id d).0 ≡ some s)
        × (is_closed s ≡ false)
        × ((get_or_insert is_closed id (get_or_insert is_closed id d).0).1 ≡ channel s)
  unfolding get_or_insert get_sender
  get_or_insert_stable a b c = elim (Option-cases (lookup id d.activations)) [
    | inl e ↦ (
      d.next_channel,
      ground arith,
      ground (arith, lookup-insert id id (fresh id d) d.activations),
      c,
      ground (
        arith,
        lookup-insert id id (fresh id d) d.activations,
        length-insert id (fresh id d) d.activations,
      ),
    )
    | inr (x, e) ↦ elim (Bool-cases (is_closed x.sender)) [
      | inl gone ↦ (
        d.next_channel,
        ground arith,
        ground (arith, lookup-insert id id (fresh id d) d.activations),
        c,
        ground (
          arith,
          lookup-insert id id (fresh id d) d.activations,
          length-insert id (fresh id d) d.activations,
        ),
      )
      | inr live ↦ (x.sender, ground arith, ground arith, live, ground arith)
    ]
  ]

  -- A draining silo makes no activation: its directory is left as it is.
  pub get_or_insert_draining : d.draining ≡ true → (get_or_insert is_closed id d).0 ≡ d
  unfolding get_or_insert
  get_or_insert_draining h = ground arith

  -- The drain does not hold for worker pools: on a silo that has drained, a first call of a stateless
  -- worker makes a pool of the asked size.
  pub get_or_insert_pool-drain :
      (pool_size : ℕ)
      → lookup id (get_or_insert_pool is_closed id pool_size (drain d)).0.worker_pools ≢ none
  unfolding get_or_insert_pool drain lookup insert
  get_or_insert_pool-drain pool_size = ground arith
