-- ===== src/Core/Ids.antt =====
-- crates/orlando-core/src/grain_id.rs: the identity of a grain, and its text form `type/key`, which
-- the call chain, the ring and the directories use as a key. A text is the list of its bytes.
use orlando.Base.{
  ℕ, Bool, true, false, ◌≡◌, refl, List, [], ◌∷◌, ◌++◌, arith, Key, text_discrete, ◌==◌,
  if◌then◌else◌, ℕ_discrete,
}

abbrev pub Text : Type 0
Text = List ℕ

instance abbrev pub text_key : Key Text
text_key = record { dec = text_discrete }

pub record GrainId : Type 0 where
  pub type_name : Text
  pub key : Text

unfoldable pub GrainId-discrete : Discrete GrainId
GrainId-discrete = hlevel ℕ_discrete

instance abbrev pub grain_id_key : Key GrainId
grain_id_key = record { dec = GrainId-discrete }

-- The byte `/`.
abbrev pub slash : ℕ
slash = 0x2f

-- `format!("{}/{}", type_name, key)`
unfoldable pub format_id : Text → Text → Text
format_id type_name key = type_name ++ slash ∷ key

-- The text holds the byte.
unfoldable pub contains : ℕ → Text → Bool
contains c [] = false
contains c (x ∷ xs) = if x == c then true else contains c xs

-- Two ids whose type names hold no `/` have one text form only if they are equal.
pub format_id-injective :
    (s t k l : Text)
    → contains slash s ≡ false
    → contains slash t ≡ false
    → format_id s k ≡ format_id t l
    → (s ≡ t) × (k ≡ l)
unfolding format_id contains
format_id-injective [] [] k l a b e = (refl, cc)
format_id-injective [] (y ∷ t) k l a b e = absurd (ground arith)
format_id-injective (x ∷ s) [] k l a b e = absurd (ground arith)
format_id-injective (x ∷ s) (y ∷ t) k l a b e = ground (arith, format_id-injective s t k l)
