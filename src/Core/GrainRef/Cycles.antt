-- ===== src/Core/GrainRef/Cycles.antt =====
-- crates/orlando-core/src/grain_ref.rs: which circular calls an ask refuses.
use orlando.Base.{Bool, false, ◌≡◌, ◌≢◌, List, [], ◌∷◌, same, any}
use orlando.Core.Ids.{text_key, GrainId, contains, slash}
use orlando.Core.CallChain
use orlando.Core.CallChain.{RequestContext, comma, call_chain_key, entry, with_call_chain_entry}
use orlando.Core.GrainRef
use orlando.Core.GrainRef.{GrainRef, GrainError, admitted, run_before}

-- The context of a handler that was reached through these grains, the outermost first.
unfoldable pub entered : List GrainId → RequestContext → RequestContext
entered [] ctx = ctx
entered (id ∷ ids) ctx = entered ids (with_call_chain_entry id ctx)

-- The text of the id has no comma, its type's name no `/`, and its key is not empty.
abbrev pub IsTraceable : GrainId → Type 0
IsTraceable id =
    (contains comma (entry id) ≡ false) × (contains slash id.type_name ≡ false) × (id.key ≢ [])

-- Whether the text of the id is that of one of the list.
stands_in : GrainId → List GrainId → Bool
stands_in other ids = any (λ j. same (entry j) (entry other)) ids
