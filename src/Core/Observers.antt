-- ===== src/Core/Observers.antt =====
-- crates/orlando-core/src/observer.rs and stream.rs: the observers of a grain, and the streams built on
-- them. A sender is the async runtime's: whether its mailbox is closed, and what an offer makes of it
-- (a full mailbox drops it), are parameters. An envelope is the message that it carries.
pub mod Subscriptions
pub mod Ordering
use orlando.Base.{
  ℕ, ◌+◌, ◌%◌, ◌^◌, ◌==◌, ltb, not, Bool, true, false, List, [], ◌∷◌, ◌++◌, if◌then◌else◌, length,
}
use orlando.Core.Ids.{Text}

pub record Subscriber (H : Type 0) : Type 0 where
  pub id : ℕ
  pub sender : H

pub record ObserverSet (H : Type 0) : Type 0 where
  pub subscribers : List (Subscriber H)
  pub next_id : ℕ

unfoldable pub new : {H : Type 0} → ObserverSet H
new = record { subscribers = []; next_id = 0 }

-- The set and the new subscription's id.
unfoldable pub subscribe : {H : Type 0} → H → ObserverSet H → ObserverSet H × ℕ
subscribe sender o = (
  record {
    subscribers = o.subscribers ++ (record { id = o.next_id; sender = sender }) ∷ [];
    next_id = (o.next_id + 1) % 2 ^ 64;
  },
  o.next_id,
)

-- `retain(|s| s.id != *id)`
unfoldable pub without : {H : Type 0} → ℕ → List (Subscriber H) → List (Subscriber H)
without id [] = []
without id (s ∷ r) = if s.id == id then without id r else s ∷ without id r

-- Whether a subscriber was removed.
unfoldable pub unsubscribe : {H : Type 0} → ℕ → ObserverSet H → ObserverSet H × Bool
unfolding without
unsubscribe id o =
    let kept = without id o.subscribers in
    (record o { subscribers = kept }, ltb (length kept) (length o.subscribers))

-- The mailboxes behind the senders.
pub record Senders (H N W : Type 0) : Type 0 where
  pub is_closed : H → W → Bool
  pub try_send : H → N → W → W

pub record StreamItem (T : Type 0) : Type 0 where
  pub stream_name : Text
  pub item : T
  pub sequence : ℕ

pub record StreamProducer (H : Type 0) : Type 0 where
  pub name : Text
  pub observers : ObserverSet H
  pub sequence : ℕ

unfoldable pub new_producer : {H : Type 0} → Text → StreamProducer H
unfolding new
new_producer name = record { name = name; observers = new; sequence = 0 }

module _ {H N W : Type 0} (ch : Senders H N W) where
  -- The `retain` of `notify`: the subscribers that stay, and the world after the offers.
  unfoldable pub notify_each : N → List (Subscriber H) → W → List (Subscriber H) × W
  notify_each msg [] w = ([], w)
  notify_each msg (s ∷ r) w =
      let pruned = notify_each msg r w in
      let (kept, w') = notify_each msg r (ch.try_send s.sender msg w) in
      if ch.is_closed s.sender w then pruned else (s ∷ kept, w')

  unfoldable pub notify : N → ObserverSet H → W → ObserverSet H × W
  unfolding notify_each
  notify msg o w =
      let (kept, w') = notify_each msg o.subscribers w in (record o { subscribers = kept }, w')

module _ {H T W : Type 0} (ch : Senders H (StreamItem T) W) where
  -- `StreamProducer::send`
  unfoldable pub send : T → StreamProducer H → W → StreamProducer H × W
  unfolding notify
  send item p w =
      let msg : StreamItem T = record {
        stream_name = p.name;
        item = item;
        sequence = p.sequence;
      } in
      let (o, w') = notify ch msg p.observers w in
      (record p { observers = o; sequence = (p.sequence + 1) % 2 ^ 64 }, w')

  -- Several items in turn.
  unfoldable pub send_all : List T → StreamProducer H → W → StreamProducer H × W
  unfolding send
  send_all [] p w = (p, w)
  send_all (item ∷ items) p w = let (p', w') = send item p w in send_all items p' w'
