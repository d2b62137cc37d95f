-- ===== src/Core/GrainRef.antt =====
-- crates/orlando-core/src/error.rs, filter.rs, grain_ref.rs and envelope.rs: a call of a grain through a
-- reference, with its filters. What the mailbox's channel and the wait for the reply give are functions
-- of the world, which the filters' hooks also change.
pub mod Cycles
use mathlib.Core.Option
use orlando.Base.{
  ℕ, Bool, true, false, List, [], ◌∷◌, ◌++◌, Option, none, some, is_empty, if◌then◌else◌, Result,
  ok, err,
}
use orlando.Core.Ids.{Text, GrainId}
use orlando.Core.CallChain.{RequestContext, call_chain_key, get, entry, is_in_call_chain}

pub data GrainError : Type 0 where
  mailbox_closed reply_type_mismatch mailbox_full silo_overloaded : GrainError
  remote_call_failed handler_failed deadlock_detected : Text → GrainError
  timed_out : (millis : ℕ) → GrainError

-- What a send of an envelope gives: `try_send` also refuses where the mailbox is full.
pub data Sent : Type 0 where
  enqueued closed full : Sent

-- What the wait for a reply gives: the reply, one of another type, a dropped sender, or nothing in time.
pub data Reply (R : Type 0) : Type 0 where
  replied : R → Reply R
  other_type dropped nothing : Reply R

-- `recv_ask_response`
unfoldable pub recv_ask_response : {R : Type 0} → ℕ → Reply R → Result GrainError R
recv_ask_response timeout (replied r) = ok r
recv_ask_response timeout other_type = err reply_type_mismatch
recv_ask_response timeout dropped = err mailbox_closed
recv_ask_response timeout nothing = err (timed_out timeout)

pub record Filter (W : Type 0) : Type 0 where
  pub on_before : W → W × Result Text (Unit {0})
  pub on_after : Bool → W → W

module _ {W : Type 0} where
  next_before :
      (W → W × Result Text (Unit {0})) → W × Result Text (Unit {0}) → W × Result Text (Unit {0})
  next_before rest (w, ok _) = rest w
  next_before rest (w, err e) = (w, err e)

  -- Each hook in order, up to the first that refuses.
  unfoldable pub run_before : List (Filter W) → W → W × Result Text (Unit {0})
  unfolding next_before
  run_before [] w = (w, ok tt)
  run_before (f ∷ fs) w = next_before (run_before fs) (f.on_before w)

  unfoldable pub run_after : List (Filter W) → Bool → W → W
  run_after [] result_ok w = w
  run_after (f ∷ fs) result_ok w = run_after fs result_ok (f.on_after result_ok w)

pub record GrainRef (W : Type 0) : Type 0 where
  pub grain_id : GrainId
  pub filters : List (Filter W)

-- `GrainRef::new`: the key is empty, and there are no filters.
unfoldable pub new : {W : Type 0} → Text → GrainRef W
new grain_type_name = record {
  grain_id = record { type_name = grain_type_name; key = [] };
  filters = [];
}

unfoldable pub with_id : {W : Type 0} → GrainId → List (Filter W) → GrainRef W
with_id grain_id filters = record { grain_id = grain_id; filters = filters }

unfoldable pub is_ok : {R : Type 0} → Result GrainError R → Bool
is_ok (ok _) = true
is_ok (err _) = false

-- The grain's mailbox and the time that an ask waits for its reply.
pub record Mailbox (R W : Type 0) : Type 0 where
  pub send : W → W × Sent
  pub try_send : W → W × Sent
  pub receive : W → W × Reply R
  pub ask_timeout : ℕ

-- The bytes `unknown`.
abbrev unknown : Text
unknown = 0x75 ∷ 0x6e ∷ 0x6b ∷ 0x6e ∷ 0x6f ∷ 0x77 ∷ 0x6e ∷ []

-- The bytes ` -> `.
abbrev arrow : Text
arrow = 0x20 ∷ 0x2d ∷ 0x3e ∷ 0x20 ∷ []

module _ {R W : Type 0} (r : GrainRef W) (mb : Mailbox R W) where
  received : W × Reply R → W × Result GrainError R
  unfolding recv_ask_response run_after is_ok
  received (w, reply) =
      let result = recv_ask_response mb.ask_timeout reply in
      (run_after r.filters (is_ok result) w, result)

  after_send : W × Sent → W × Result GrainError R
  unfolding received run_after
  after_send (w, enqueued) = received (mb.receive w)
  after_send (w, closed) = (run_after r.filters false w, err mailbox_closed)
  after_send (w, full) = (run_after r.filters false w, err mailbox_full)

  unfoldable pub admitted : (W → W × Sent) → W × Result Text (Unit {0}) → W × Result GrainError R
  unfolding after_send
  admitted send (w, ok _) = after_send (send w)
  admitted send (w, err e) = (w, err (handler_failed e))

  -- The message of the error: the chain that the ask would close, an arrow and the grain.
  cycle : RequestContext → Text
  cycle ctx = Option.get_or (get call_chain_key ctx) unknown ++ (arrow ++ entry r.grain_id)

  unfoldable pub ask : RequestContext → W → W × Result GrainError R
  unfolding run_before admitted cycle
  ask ctx w =
      let passed = admitted mb.send (run_before r.filters w) in
      if is_in_call_chain r.grain_id ctx then (w, err (deadlock_detected (cycle ctx))) else passed

  -- No check of the chain.
  unfoldable pub try_ask : W → W × Result GrainError R
  unfolding run_before admitted
  try_ask w = admitted mb.try_send (run_before r.filters w)

  told : W × Sent → W × Result GrainError (Unit {0})
  told (w, enqueued) = (w, ok tt)
  told (w, closed) = (w, err mailbox_closed)
  told (w, full) = (w, err mailbox_closed)

  tell_admitted : W × Result Text (Unit {0}) → W × Result GrainError (Unit {0})
  unfolding told
  tell_admitted (w, ok _) = told (mb.send w)
  tell_admitted (w, err e) = (w, err (handler_failed e))

  unfoldable pub tell : W → W × Result GrainError (Unit {0})
  unfolding run_before tell_admitted
  tell w = tell_admitted (run_before r.filters w)
