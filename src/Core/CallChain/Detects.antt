-- ===== src/Core/CallChain/Detects.antt =====
-- Which circular calls the chain detects.
use mathlib.Core.Option
use orlando.Base.{
  ℕ, true, false, ◌≡◌, refl, ◌∙◌, inl, inr, List, [], ◌∷◌, ◌++◌, Option, none, some, same, ◌==◌,
  if◌then◌else◌, any, All, is_empty, lookup-insert, arith, ◌||◌, Bool-cases, Option-cases,
  same_refl,
}
use orlando.Core.Ids.{Text, text_key, GrainId, format_id, contains, slash}
use orlando.Core.CallChain.{
  RequestContext, comma, call_chain_key, get, with_value, cons_head, split, entry,
  with_call_chain_entry, in_chain, is_in_call_chain,
}

split_one : (e : Text) → contains comma e ≡ false → split e ≡ e ∷ []
unfolding split contains
split_one [] h = refl
split_one (c ∷ e) h = ground (arith, split_one e)

cons_head-append :
    (c : ℕ) (ps qs : List Text) (p : Text)
    → cons_head c ((p ∷ ps) ++ qs) ≡ cons_head c (p ∷ ps) ++ qs
unfolding cons_head
cons_head-append c ps qs p = refl

split-ne-nil : (s : Text) → (p : Text) × (ps : List Text) × (split s ≡ p ∷ ps)
unfolding split
split-ne-nil [] = ([], [], refl)
split-ne-nil (c ∷ s) =
    let (p, ps, e) = split-ne-nil s in
    elim (Bool-cases (c == comma)) [ inl h ↦ ([], split s, rw h) | inr h ↦ (c ∷ p, ps, rw (h, e)) ]

-- A comma between two texts splits them.
split-append : (s e : Text) → split (s ++ comma ∷ e) ≡ split s ++ split e
unfolding split
split-append [] e = refl
split-append (c ∷ s) e = let (p, ps, q) = split-ne-nil s in ground (arith, split-append s e, q)

any-append :
    (e : Text) (ps qs : List Text)
    → any (λ p. same p e) (ps ++ qs) ≡ any (λ p. same p e) ps || any (λ p. same p e) qs
any-append e [] qs = refl
any-append e (p ∷ ps) qs = ground (arith, any-append e ps qs)

-- A part of a text has no comma in it.
split-All : (s : Text) → All (λ p. contains comma p ≡ false) (split s)
unfolding split contains cons_head
split-All [] = (refl, tt)
split-All (c ∷ s) =
    let (p, ps, q) = split-ne-nil s in
    let h : All (λ p. contains comma p ≡ false) (p ∷ ps) = rw q at (split-All s) in
    elim (Bool-cases (c == comma)) [
      | inl e ↦ rw e (refl, split-All s)
      | inr e ↦ rw (e, q) (rw e h.0, h.1)
    ]

any-comma :
    (e : Text) (ps : List Text)
    → contains comma e ≡ true
    → All (λ p. contains comma p ≡ false) ps
    → any (λ p. same p e) ps ≡ false
any-comma e [] h a = refl
any-comma e (p ∷ ps) h a = ground (arith, any-comma e ps h a.1)

get-with_value :
    (i j v : Text) (ctx : RequestContext)
    → get j (with_value i v ctx) ≡ (if same i j then some v else get j ctx)
unfolding get with_value
get-with_value i j v ctx = lookup-insert i j v ctx.values

ne-nil-append : (t k : Text) → same [] (t ++ slash ∷ k) ≡ false
ne-nil-append [] k = ground arith
ne-nil-append (c ∷ t) k = ground arith

entry-ne-nil : (id : GrainId) → same [] (entry id) ≡ false
unfolding entry format_id
entry-ne-nil id = ne-nil-append id.type_name id.key

-- The chain that `with_call_chain_entry` writes, over the one that it reads.
in_chain_extended :
    (e f : Text) (chain : Option Text)
    → contains comma e ≡ false
    → same [] f ≡ false
    → in_chain f (
        some (if is_empty (Option.get_or chain []) then e else Option.get_or chain [] ++ comma ∷ e))
      ≡ in_chain f chain || same e f
unfolding in_chain
in_chain_extended e f none h n = rw (split_one e h) (ground arith)
in_chain_extended e f (some []) h n = unfold split in rw (split_one e h) (ground arith)
in_chain_extended e f (some (c ∷ cs)) h n =
    rw (split-append (c ∷ cs) e, split_one e h)
      (any-append f (split (c ∷ cs)) (e ∷ []) ∙ ground arith)

-- A handler of `id` sees exactly the grains that its caller saw, and `id`: a grain is in the extended
-- chain if it was in the chain or its text form is that of `id`. The text form of `id` has no comma.
pub is_in_call_chain-with_entry :
    (id other : GrainId) (ctx : RequestContext)
    → contains comma (entry id) ≡ false
    → is_in_call_chain other (with_call_chain_entry id ctx)
      ≡ is_in_call_chain other ctx || same (entry id) (entry other)
unfolding is_in_call_chain with_call_chain_entry
is_in_call_chain-with_entry id other ctx h =
    rw (get-with_value, same_refl)
      (in_chain_extended (entry id) (entry other) _ h (entry-ne-nil other))

-- A grain whose type name or key holds a comma is in no chain: a circular call through it is not
-- detected.
pub is_in_call_chain-comma :
    (id : GrainId) (ctx : RequestContext)
    → contains comma (entry id) ≡ true
    → is_in_call_chain id ctx ≡ false
unfolding is_in_call_chain
is_in_call_chain-comma id ctx h = elim (Option-cases (get call_chain_key ctx)) [
  | inl e ↦ rw (e, in_chain)
  | inr (chain, e) ↦ rw (e, in_chain) (any-comma (entry id) (split chain) h (split-All chain))
]
