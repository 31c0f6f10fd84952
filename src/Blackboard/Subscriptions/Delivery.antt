-- ===== src/Blackboard/Subscriptions/Delivery.antt =====
-- blackboard/subscriptions.py: who receives what.
use newbro.Prelude.{
  ℕ, ◌<◌, ◌≢◌, List, [], ◌∷◌, ◌++◌, ◌≡◌, refl, none, some, arith, append_assoc, append-nil, All,
  eqb, any, true, false,
}
use newbro.Blackboard.Events.{BlackboardWriteEvent}
use newbro.Blackboard.Subscriptions.{
  Queue, SubscriptionManager, subscribe, unsubscribe, publish, pending, publish_all, put_all, find,
  remove, IsFresh,
}

find-put_all :
    (e : BlackboardWriteEvent) (q : ℕ) (xs : List Queue) (items : List BlackboardWriteEvent)
    → find q xs ≡ some items
    → find q (put_all e xs) ≡ some (items ++ e ∷ [])
unfolding find put_all
find-put_all e q [] items h = cc
find-put_all e q (x ∷ xs) items h = ground (arith, find-put_all e q xs items)

-- One event goes to the end of the queue.
pub pending-publish :
    (m : SubscriptionManager) (e : BlackboardWriteEvent) (q : ℕ) (items : List BlackboardWriteEvent)
    → pending m q ≡ some items
    → pending (publish m e) q ≡ some (items ++ e ∷ [])
unfolding pending publish
pending-publish m e q items h = find-put_all e q m.queues items h

pub pending-publish_all :
    (m : SubscriptionManager) (es : List BlackboardWriteEvent) (q : ℕ)
    (items : List BlackboardWriteEvent)
    → pending m q ≡ some items
    → pending (publish_all m es) q ≡ some (items ++ es)
unfolding publish_all
pending-publish_all m [] q items h = rw append-nil h
pending-publish_all m (e ∷ es) q items h =
    rw (← append_assoc items (e ∷ []) es)
      (pending-publish_all (publish m e) es q (items ++ e ∷ []) (pending-publish m e q items h))

find_new :
    (n : ℕ) (xs : List Queue)
    → All (λ x. x.identity < n) xs
    → find n (xs ++ record { identity = n; items = [] } ∷ []) ≡ some []
unfolding find
find_new n [] h = ground arith
find_new n (x ∷ xs) h = ground (arith, find_new n xs h.1)

find_old :
    (n q : ℕ) (xs : List Queue)
    → q < n
    → find q (xs ++ record { identity = n; items = [] } ∷ []) ≡ find q xs
unfolding find
find_old n q [] h = ground arith
find_old n q (x ∷ xs) h = ground (arith, find_old n q xs h)

-- A subscription starts empty and leaves every earlier queue as it was; from then on its queue
-- holds the events that are published, all of them, in their order.
pub subscribe_sees_all :
    (m : SubscriptionManager) (es : List BlackboardWriteEvent)
    → IsFresh m
    → (pending (publish_all (subscribe m).0 es) (subscribe m).1 ≡ some es)
      × ((q : ℕ) → q < m.next_identity → pending (subscribe m).0 q ≡ pending m q)
unfolding pending subscribe
subscribe_sees_all m es h = (
  pending-publish_all (subscribe m).0 es (subscribe m).1 [] (find_new m.next_identity m.queues h),
  λ q below. find_old m.next_identity q m.queues below,
)

-- No later queue is this one.
abbrev pub Unique : List Queue → Type 0
Unique [] = Unit
Unique (x ∷ xs) = All (λ y. y.identity ≢ x.identity) xs × Unique xs

find_absent : (q : ℕ) (xs : List Queue) → All (λ y. y.identity ≢ q) xs → find q xs ≡ none
unfolding find
find_absent q [] h = refl
find_absent q (x ∷ xs) h = ground (arith, find_absent q xs h.1)

find-remove :
    (q : ℕ) (xs : List Queue)
    → Unique xs
    → (any (λ x. eqb x.identity q) xs ≡ true)
    → find q (remove q xs) ≡ none
unfolding find remove any
find-remove q [] u a = refl
find-remove q (x ∷ xs) u a = ground (arith, find-remove q xs u.1, find_absent x.identity xs u.0)

find_not_any : (q : ℕ) (xs : List Queue) → any (λ x. eqb x.identity q) xs ≡ false → find q xs ≡ none
unfolding find any
find_not_any q [] a = refl
find_not_any q (x ∷ xs) a = ground (arith, find_not_any q xs)

find-remove_ne : (q r : ℕ) (xs : List Queue) → q ≢ r → find r (remove q xs) ≡ find r xs
unfolding find remove
find-remove_ne q r [] h = refl
find-remove_ne q r (x ∷ xs) h = ground (arith, find-remove_ne q r xs h)

-- Where the queues are distinct, unsubscribing one of them ends its deliveries and touches no other
-- subscriber; of a queue that is not subscribed it does nothing to anybody.
pub unsubscribe_lem :
    (m : SubscriptionManager) (q : ℕ)
    → Unique m.queues
    → (pending (unsubscribe m q) q ≡ none)
      × ((r : ℕ) → q ≢ r → pending (unsubscribe m q) r ≡ pending m r)
unfolding pending unsubscribe
unsubscribe_lem m q u = (
  ground (arith, find-remove q m.queues u, find_not_any q m.queues),
  λ r ne. ground (arith, find-remove_ne q r m.queues ne),
)
