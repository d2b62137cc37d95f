-- ===== src/Core/Observers/Ordering.antt =====
-- What a stream delivers to one of its consumers.
use mathlib.Core.List.{append_assoc, append-nil}
use orlando.Base.{
  ℕ, ◌+◌, ◌%◌, ◌^◌, false, ◌≡◌, ◌≢◌, refl, sym, ap, ◌∙◌, ◌⊎◌, inl, inr, List, [], ◌∷◌, ◌++◌,
  Bool-cases, All,
}
use orlando.Core.Ids.{Text}
use orlando.Core.Observers.{
  Subscriber, Senders, StreamItem, StreamProducer, notify_each, notify, send, send_all,
}

-- A mailbox stays open and takes what it is offered, and an offer to another one does not reach it.
pub record Takes {H N W : Type 0} (ch : Senders H N W) (inbox : W → List N) (h : H) : Type 0 where
  pub is_open : (w : W) → ch.is_closed h w ≡ false
  pub takes : (m : N) (w : W) → inbox (ch.try_send h m w) ≡ inbox w ++ m ∷ []
  pub alone : (k : H) (m : N) (w : W) → k ≢ h → inbox (ch.try_send k m w) ≡ inbox w

-- The sender is one subscriber's and no other's.
abbrev pub Once : {H : Type 0} → H → List (Subscriber H) → Type 0
Once h [] = ⊥
Once h (s ∷ r) = ((s.sender ≡ h) × All (λ t. t.sender ≢ h) r) ⊎ ((s.sender ≢ h) × Once h r)

module _ {H N W : Type 0} (ch : Senders H N W) (inbox : W → List N) (h : H) (t : Takes ch inbox h)
    (m : N) where
  notify_each_others :
      (xs : List (Subscriber H)) (w : W)
      → All (λ s. s.sender ≢ h) xs
      → (inbox (notify_each ch m xs w).1 ≡ inbox w)
        × All (λ s. s.sender ≢ h) (notify_each ch m xs w).0
  unfolding notify_each
  notify_each_others [] w a = (refl, tt)
  notify_each_others (x ∷ xs) w (ne, a) = elim (Bool-cases (ch.is_closed x.sender w)) [
    | inl shut ↦ rw shut (notify_each_others xs w a)
    | inr free ↦
        let (e, b) = notify_each_others xs (ch.try_send x.sender m w) a in
        rw free (e ∙ t.alone x.sender m w ne, (ne, b))
  ]

  notify_each-Once :
      (xs : List (Subscriber H)) (w : W)
      → Once h xs
      → (inbox (notify_each ch m xs w).1 ≡ inbox w ++ m ∷ []) × Once h (notify_each ch m xs w).0
  unfolding notify_each
  notify_each-Once [] w o = elim o [ ]
  notify_each-Once (x ∷ xs) w (inl (e, a)) =
      let free : ch.is_closed x.sender w ≡ false = rw e (t.is_open w) in
      let (same_inbox, b) = notify_each_others xs (ch.try_send x.sender m w) a in
      rw free (same_inbox ∙ rw e (t.takes m w), inl (e, b))
  notify_each-Once (x ∷ xs) w (inr (ne, o)) = elim (Bool-cases (ch.is_closed x.sender w)) [
    | inl shut ↦ rw shut (notify_each-Once xs w o)
    | inr free ↦
        let (e, b) = notify_each-Once xs (ch.try_send x.sender m w) o in
        rw free (e ∙ ap (λ l. l ++ m ∷ []) (t.alone x.sender m w ne), inr (ne, b))
  ]

-- The items of a stream with their numbers.
abbrev pub numbered : {T : Type 0} → Text → ℕ → List T → List (StreamItem T)
numbered name k [] = []
numbered name k (x ∷ xs) =
    (record { stream_name = name; item = x; sequence = k }) ∷ numbered name ((k + 1) % 2 ^ 64) xs

module _ {H T W : Type 0} (ch : Senders H (StreamItem T) W) (inbox : W → List (StreamItem T))
    (h : H) (t : Takes ch inbox h) where
  -- A consumer that is subscribed once, whose mailbox stays open and takes what it is offered, gets all
  -- the items of a stream, each once and in the order of the sends, with consecutive numbers, whatever
  -- the mailboxes of the other consumers do.
  pub send_all-numbered :
      (items : List T) (p : StreamProducer H) (w : W)
      → Once h p.observers.subscribers
      → inbox (send_all ch items p w).1 ≡ inbox w ++ numbered p.name p.sequence items
  unfolding send_all send notify
  send_all-numbered [] p w o = sym (append-nil (inbox w))
  send_all-numbered (x ∷ xs) p w o =
      let msg : StreamItem T = record { stream_name = p.name; item = x; sequence = p.sequence } in
      let (e, o') = notify_each-Once ch inbox h t msg p.observers.subscribers w o in
      send_all-numbered xs (send ch x p w).0 (send ch x p w).1 o' ∙ rw e (simp append_assoc)
