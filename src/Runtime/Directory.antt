-- ===== src/Runtime/Directory.antt =====
-- crates/orlando-runtime/src/directory.rs: the registry of live activations and worker pools. A mailbox
-- channel is a number; which channels have lost their receiver is an argument, `is_closed`. Channels
-- and tasks that a factory makes take the next number, and so do cancellation tokens. A hash map's
-- entries stand in the order of their insertion.
pub mod Bounds
use mathlib.Core.Option
use orlando.Base.{
  ℕ, zero, suc, ◌+◌, ◌-◌, Bool, true, false, not, ◌&&◌, List, [], ◌∷◌, ◌++◌, map, Option, none,
  some, ltb, leb, if◌then◌else◌, same, length, any, lookup, insert, remove,
}
use orlando.Core.Ids.{GrainId, grain_id_key}

pub record Activation : Type 0 where
  pub grain_id : GrainId
  pub sender : ℕ
  pub task : ℕ
  pub cancellation : ℕ

pub record WorkerPool : Type 0 where
  pub pool_id : GrainId
  pub senders : List ℕ
  pub tasks : List ℕ

-- `next_channel` numbers what the factories make; `gauge` is the metric of active activations.
pub record GrainDirectory : Type 0 where
  pub activations : List (GrainId × Activation)
  pub worker_pools : List (GrainId × WorkerPool)
  pub draining : Bool
  pub max_activations : ℕ
  pub next_channel : ℕ
  pub increments : ℕ
  pub decrements : ℕ
  pub cancelled : List ℕ

-- What a caller is handed: a channel, or one whose receiver was dropped at once.
pub data Sender : Type 0 where
  channel : ℕ → Sender
  closed_channel : Sender

unfoldable pub new : GrainDirectory
new = record {
  activations = [];
  worker_pools = [];
  draining = false;
  max_activations = 0;
  next_channel = 0;
  increments = 0;
  decrements = 0;
  cancelled = [];
}

unfoldable pub set_max_activations : ℕ → GrainDirectory → GrainDirectory
set_max_activations limit d = record d { max_activations = limit }

unfoldable pub activation_count : GrainDirectory → ℕ
activation_count d = length d.activations

unfoldable pub get_sender : GrainId → GrainDirectory → Option ℕ
get_sender id d = Option.map (λ a. a.sender) (lookup id d.activations)

-- The activation is entered under a new cancellation token, and the gauge is left alone.
unfoldable pub register : GrainId → ℕ → ℕ → GrainDirectory → GrainDirectory
register id sender task d = record d {
  activations =
      insert id
        (record { grain_id = id; sender = sender; task = task; cancellation = d.next_channel })
        d.activations;
  next_channel = suc d.next_channel;
}

-- The inherent `remove`, which hands the activation back.
unfoldable pub take_activation : GrainId → GrainDirectory → GrainDirectory × Option Activation
take_activation id d = elim (lookup id d.activations) [
  | none ↦ (d, none)
  | some a ↦
      (record d { activations = remove id d.activations; decrements = suc d.decrements }, some a)
]

-- The `remove` of `GrainActivator`, which also drops a pool whose workers are all gone.
unfoldable pub remove_entry : (ℕ → Bool) → GrainId → GrainDirectory → GrainDirectory
unfolding take_activation
remove_entry is_closed id d =
    let d' = (take_activation id d).0 in
    elim (lookup id d'.worker_pools) [
      | none ↦ d'
      | some pool ↦
          if any (λ s. not (is_closed s)) pool.senders
          then d'
          else record d' { worker_pools = remove id d'.worker_pools }
    ]

-- The activation that a factory makes for `id`.
unfoldable pub fresh : GrainId → GrainDirectory → Activation
fresh id d = record {
  grain_id = id;
  sender = d.next_channel;
  task = d.next_channel;
  cancellation = d.next_channel;
}

-- The sender of a live entry, or else a channel that is already closed.
existing : (ℕ → Bool) → Option ℕ → Sender
existing is_closed none = closed_channel
existing is_closed (some s) = if is_closed s then closed_channel else channel s

-- The `match entry` at the end of `get_or_insert`.
enter : (ℕ → Bool) → GrainId → Option Activation → GrainDirectory → GrainDirectory × Sender
unfolding fresh
enter is_closed id none d =
    let a = fresh id d in
    (
      record d {
        activations = insert id a d.activations;
        next_channel = suc d.next_channel;
        increments = suc d.increments;
      },
      channel a.sender,
    )
enter is_closed id (some old) d =
    let a = fresh id d in
    if is_closed old.sender
    then (
      record d { activations = insert id a d.activations; next_channel = suc d.next_channel },
      channel a.sender,
    )
    else (d, channel old.sender)

unfoldable pub get_or_insert : (ℕ → Bool) → GrainId → GrainDirectory → GrainDirectory × Sender
unfolding existing enter get_sender
get_or_insert is_closed id d =
    if d.draining
    then (d, existing is_closed (get_sender id d))
    else if ltb 0 d.max_activations && leb d.max_activations (length d.activations)
    then (d, existing is_closed (get_sender id d))
    else enter is_closed id (lookup id d.activations) d

-- `n` channels, from `c` on.
unfoldable pub channels : ℕ → ℕ → List ℕ
channels c zero = []
channels c (suc n) = c ∷ channels (suc c) n

new_pool : GrainId → ℕ → GrainDirectory → GrainDirectory × List ℕ
unfolding channels
new_pool id pool_size d =
    let senders = channels d.next_channel pool_size in
    (
      record d {
        worker_pools =
            insert id (record { pool_id = id; senders = senders; tasks = senders }) d.worker_pools;
        next_channel = d.next_channel + pool_size;
      },
      senders,
    )

unfoldable pub get_or_insert_pool :
    (ℕ → Bool) → GrainId → ℕ → GrainDirectory → GrainDirectory × List ℕ
unfolding new_pool
get_or_insert_pool is_closed id pool_size d = elim (lookup id d.worker_pools) [
  | none ↦ new_pool id pool_size d
  | some pool ↦
      if any (λ s. not (is_closed s)) pool.senders
      then (d, pool.senders)
      else new_pool id pool_size d
]

-- The set of ids with an activation or a pool.
unfoldable pub add_ids : List GrainId → List GrainId → List GrainId
add_ids seen [] = seen
add_ids seen (i ∷ is) = add_ids (if any (λ j. same j i) seen then seen else seen ++ i ∷ []) is

unfoldable pub grain_ids : GrainDirectory → List GrainId
unfolding add_ids
grain_ids d = add_ids (map (λ e. e.0) d.activations) (map (λ e. e.0) d.worker_pools)

tokens : List (GrainId × Activation) → List ℕ
tokens [] = []
tokens ((_, a) ∷ m) = a.cancellation ∷ tokens m

-- Every token is cancelled before the entries and the pools are dropped; what the tasks do in their
-- grace period is not part of the directory.
unfoldable pub drain : GrainDirectory → GrainDirectory
unfolding tokens
drain d = record d {
  draining = true;
  cancelled = d.cancelled ++ tokens d.activations;
  activations = [];
  decrements = d.decrements + length d.activations;
  worker_pools = [];
}
