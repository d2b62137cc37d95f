-- ===== src/Tests/Mailboxes.antt =====
-- The properties of the mailbox, of the call chain and of the grain ids at concrete inputs.
use orlando.Base.{ℕ, ◌+◌, ◌==◌, [], ◌∷◌, if◌then◌else◌}
use orlando.Core.Ids.{text_key, GrainId}
use orlando.Core.Mailbox.{returned, panicked, Grain}

-- A counter that panics on 13.
abbrev counter : Grain ℕ ℕ
counter = record {
  default_state = 0;
  on_activate = λ s. (s, returned);
  handle = λ m s. if m == 13 then (s, panicked) else (s + m, returned);
  on_deactivate = λ s. (s + 100, returned);
}

abbrev cart : GrainId
cart = record { type_name = 0x43 ∷ []; key = 0x31 ∷ [] }

abbrev order : GrainId
order = record { type_name = 0x4f ∷ []; key = 0x31 ∷ [] }
