-- ===== src/Blackboard/Subscriptions.antt =====
-- blackboard/subscriptions.py: the queues of the subscribers. A queue is known by its identity, a
-- number that `subscribe` hands out; `asyncio.Queue` has no bound here, so a `put` never waits.
pub mod Delivery
use newbro.Prelude.{
  ℕ, zero, suc, ◌+◌, ◌<◌, ◌≤◌, List, [], ◌∷◌, ◌++◌, ◌≡◌, refl, Bool, true, false, ◌||◌, Option,
  none, some, eqb, if◌then◌else◌, arith, append_assoc, append-nil, All, any,
}
use newbro.Blackboard.Events.{BlackboardWriteEvent}

pub record Queue : Type 0 where
  pub identity : ℕ
  pub items : List BlackboardWriteEvent

pub record SubscriptionManager : Type 0 where
  pub queues : List Queue
  pub next_identity : ℕ

pub subscribe : SubscriptionManager → SubscriptionManager × ℕ
subscribe m = (
  record m {
    queues = m.queues ++ record { identity = m.next_identity; items = [] } ∷ [];
    next_identity = suc m.next_identity;
  },
  m.next_identity,
)

-- `list.remove`: the first queue that is this one
remove : ℕ → List Queue → List Queue
remove q [] = []
remove q (x ∷ xs) = if eqb x.identity q then xs else x ∷ remove q xs

pub unsubscribe : SubscriptionManager → ℕ → SubscriptionManager
unfolding remove any
unsubscribe m q =
    if any (λ x. eqb x.identity q) m.queues then record m { queues = remove q m.queues } else m

put_all : BlackboardWriteEvent → List Queue → List Queue
put_all e [] = []
put_all e (x ∷ xs) = record x { items = x.items ++ e ∷ [] } ∷ put_all e xs

unfoldable pub publish : SubscriptionManager → BlackboardWriteEvent → SubscriptionManager
unfolding put_all
publish m e = record m { queues = put_all e m.queues }

-- What stands in the queue of a subscriber.
find : ℕ → List Queue → Option (List BlackboardWriteEvent)
find q [] = none
find q (x ∷ xs) = if eqb x.identity q then some x.items else find q xs

pub pending : SubscriptionManager → ℕ → Option (List BlackboardWriteEvent)
unfolding find
pending m q = find q m.queues

pub publish_all : SubscriptionManager → List BlackboardWriteEvent → SubscriptionManager
publish_all m [] = m
publish_all m (e ∷ es) = publish_all (publish m e) es

-- Identities are handed out once.
abbrev pub IsFresh : SubscriptionManager → Type 0
IsFresh m = All (λ x. x.identity < m.next_identity) m.queues
