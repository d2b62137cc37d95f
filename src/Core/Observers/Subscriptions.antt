-- ===== src/Core/Observers/Subscriptions.antt =====
-- Subscriptions and their ids.
use mathlib.Core.List.{append-nil}
use orlando.Base.{
  ℕ, ◌+◌, ◌%◌, ◌<◌, true, ◌≡◌, refl, ◌∙◌, List, [], ◌∷◌, ◌++◌, length-append, All, append-All,
  All-weaken, arith,
}
use orlando.Core.Observers.{Subscriber, ObserverSet, subscribe, without, unsubscribe}

module _ {H : Type 0} where
  -- The ids in use were given out before.
  abbrev pub Issued : ObserverSet H → Type 0
  Issued o = All (λ (s : Subscriber H). s.id < o.next_id) o.subscribers

  without-append :
      (id : ℕ) (xs ys : List (Subscriber H))
      → without id (xs ++ ys) ≡ without id xs ++ without id ys
  unfolding without
  without-append id [] ys = refl
  without-append id (x ∷ xs) ys = ground (arith, without-append id xs ys)

  without_unused :
      (id : ℕ) (xs : List (Subscriber H))
      → All (λ (s : Subscriber H). s.id < id) xs
      → without id xs ≡ xs
  unfolding without
  without_unused id [] h = refl
  without_unused id (x ∷ xs) (p, h) = ground (arith, p, without_unused id xs h)

  without_own :
      (id : ℕ) (sender : H) (xs : List (Subscriber H))
      → xs ++ without id ((record { id = id; sender = sender }) ∷ []) ≡ xs
  unfolding without
  without_own id sender xs = ground (arith, append-nil xs)

  -- Where fewer than 2 ^ 64 - 1 ids were given out, a new subscription keeps the ids in order, and to end
  -- it at once takes away that subscriber and no other.
  pub unsubscribe-subscribe :
      (sender : H) (o : ObserverSet H)
      → o.next_id + 1 < 18446744073709551616
      → Issued o
      → let (o', id) = subscribe sender o in
        Issued o' × (unsubscribe id o' ≡ (record o' { subscribers = o.subscribers }, true))
  unfolding subscribe unsubscribe
  unsubscribe-subscribe sender o room h =
      let next : (o.next_id + 1) % 18446744073709551616 ≡ o.next_id + 1 = omega (arith, room) in
      let mine : Subscriber H = record { id = o.next_id; sender = sender } in
      let kept : without o.next_id (o.subscribers ++ mine ∷ []) ≡ o.subscribers =
        without-append o.next_id o.subscribers (mine ∷ [])
        ∙ rw (without_unused o.next_id o.subscribers h)
            (without_own o.next_id sender o.subscribers) in
      (
        append-All _ o.subscribers (mine ∷ [])
            (All-weaken _ _ o.subscribers (λ s lt. omega (arith, next, lt)) h)
            (omega (arith, next), tt),
        rw kept (ground (arith, length-append o.subscribers (mine ∷ []))),
      )
