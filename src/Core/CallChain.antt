-- ===== src/Core/CallChain.antt =====
-- crates/orlando-core/src/request_context.rs: the request context, and the call chain kept in it by
-- which circular calls are detected.
pub mod Detects
use mathlib.Core.Option
use orlando.Base.{
  ℕ, Bool, true, false, List, [], ◌∷◌, ◌++◌, Option, none, some, Key, same, ◌==◌, if◌then◌else◌,
  any, is_empty, lookup, insert,
}
use orlando.Core.Ids.{Text, text_key, GrainId, format_id}

pub record RequestContext : Type 0 where
  pub values : List (Text × Text)

abbrev pub comma : ℕ
comma = 0x2c

-- "__orlando_call_chain"
unfoldable pub call_chain_key : Text
call_chain_key =
    0x5f ∷ 0x5f ∷ 0x6f ∷ 0x72 ∷ 0x6c ∷ 0x61 ∷ 0x6e ∷ 0x64 ∷ 0x6f ∷ 0x5f ∷ 0x63 ∷ 0x61 ∷ 0x6c ∷ 0x6c
    ∷ 0x5f ∷ 0x63 ∷ 0x68 ∷ 0x61 ∷ 0x69 ∷ 0x6e ∷ []

unfoldable pub new : RequestContext
new = record { values = [] }

unfoldable pub get : Text → RequestContext → Option Text
get key ctx = lookup key ctx.values

-- `with(key, value)`
unfoldable pub with_value : Text → Text → RequestContext → RequestContext
with_value key value ctx = record { values = insert key value ctx.values }

cons_head : ℕ → List Text → List Text
cons_head c [] = (c ∷ []) ∷ []
cons_head c (p ∷ ps) = (c ∷ p) ∷ ps

-- `chain.split(',')`: a text with n commas has n + 1 parts.
unfoldable pub split : Text → List Text
unfolding cons_head
split [] = [] ∷ []
split (c ∷ cs) = if c == comma then [] ∷ split cs else cons_head c (split cs)

unfoldable pub entry : GrainId → Text
entry id = format_id id.type_name id.key

unfoldable pub with_call_chain_entry : GrainId → RequestContext → RequestContext
with_call_chain_entry id ctx =
    let chain = Option.get_or (get call_chain_key ctx) [] in
    with_value call_chain_key (if is_empty chain then entry id else chain ++ comma ∷ entry id) ctx

unfoldable pub in_chain : Text → Option Text → Bool
in_chain e none = false
in_chain e (some chain) = any (λ p. same p e) (split chain)

unfoldable pub is_in_call_chain : GrainId → RequestContext → Bool
unfolding in_chain
is_in_call_chain id ctx = in_chain (entry id) (get call_chain_key ctx)
