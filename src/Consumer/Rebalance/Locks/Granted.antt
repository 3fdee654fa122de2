-- ===== src/Consumer/Rebalance/Locks/Granted.antt =====
-- What lockAll and unlockAll do to each queue.
use test.Prelude.{ℕ, ◌≡◌, ◌↔◌, sym, ap, ◌∙◌, Bytes, some, if◌then◌else◌}
use test.SortedMap.{lookup, IsOrdered}
use test.SortedMap.Keys.{bytes_order}
use test.Message.MessageQueue.{MessageQueue, message_queue_order}
use test.Consumer.Offset.Remote.{QueueSet, is_found}
use test.Consumer.ProcessQueue.{ProcessQueue}
use test.Consumer.Rebalance.{QueueTable}
use test.Consumer.Rebalance.Locks.{
  LockApi, Objects, lock_broker, unlock_broker, for_brokers, lock_all, unlock_all,
  build_process_queue_table_by_broker_name,
}
use test.Consumer.Rebalance.Locks.ByBroker.{build-OfBroker, build-IsOrdered, build-Has}
use test.Consumer.Rebalance.Locks.Marks.{NoAlias, OnlyAsked, some_eq}
use test.Consumer.Rebalance.Locks.Turns.{
  lock_effect, unlock_effect, effect_on, effect_by, for_brokers-at, lock_broker-at,
  unlock_broker-at,
}

-- The set has the queues of the table that are on the broker.
abbrev pub BrokerQueues : QueueTable → Bytes → QueueSet → Type 0
BrokerQueues table name mqs =
    (n : MessageQueue)
    → (lookup n mqs ≡ some tt) ↔ ((n.broker_name ≡ name) × ((b : ℕ) × (lookup n table ≡ some b)))

module _ (table : QueueTable) (o : IsOrdered table) (mq : MessageQueue) (a : ℕ)
    (t : lookup mq table ≡ some a) where
  abbrev asked_of : QueueSet
  asked_of = (build-Has table mq a t).0

  asked_of-BrokerQueues : BrokerQueues table mq.broker_name asked_of
  asked_of-BrokerQueues n = (
    build-OfBroker table o mq.broker_name asked_of n (build-Has table mq a t).1,
    λ h.
        let has = build-Has table n h.1.0 h.1.1 in
        let same : has.0 ≡ asked_of = some_eq has.0 asked_of (
          sym has.1
          ∙ ap (λ k. lookup k (build_process_queue_table_by_broker_name table)) h.0
          ∙ (build-Has table mq a t).1) in
        ap (lookup n) (sym same) ∙ has.2,
  )

  all-at :
      (turn : Bytes → QueueSet → Objects → Objects)
      (effect : Bytes → QueueSet → ProcessQueue → ProcessQueue) (objects : Objects)
      → ((name : Bytes) (mqs : QueueSet) (objs : Objects)
          → turn name mqs objs a ≡ effect_on mq (effect name mqs) mqs (objs a))
      → for_brokers turn (build_process_queue_table_by_broker_name table) objects a
        ≡ effect mq.broker_name asked_of (objects a)
  all-at turn effect objects h =
      for_brokers-at mq a turn effect h (build_process_queue_table_by_broker_name table) objects
        (build-IsOrdered table) (λ name mqs i j. (build-OfBroker table o name mqs mq i j).0)
      ∙ ap (λ x. effect_by mq (effect mq.broker_name) x (objects a)) (build-Has table mq a t).1
      ∙ ap (λ x. if is_found x then effect mq.broker_name asked_of (objects a) else objects a)
          (build-Has table mq a t).2

-- lockAll asks the broker of each queue of the table, at its master's address, to lock the queues of the
-- table that it has. A queue that the broker then has locked is locked from now; one that it has not
-- is unlocked; and where no master is known or the request fails, the queue stays as it was. The
-- table's objects are distinct, and a broker locks only queues that it was asked to lock.
pub lock_all-effect :
    (api : LockApi) (now : ℕ) (table : QueueTable) (objects : Objects) (mq : MessageQueue) (a : ℕ)
    → OnlyAsked api
    → IsOrdered table
    → NoAlias table
    → lookup mq table ≡ some a
    → (mqs : QueueSet) × BrokerQueues table mq.broker_name mqs
      × (lock_all api now table objects a ≡ lock_effect api now mq mq.broker_name mqs (objects a))
unfolding lock_all
lock_all-effect api now table objects mq a asked o na t = (
  asked_of table o mq a t,
  asked_of-BrokerQueues table o mq a t,
  all-at table o mq a t (lock_broker api now table) (lock_effect api now mq) objects
      (λ name mqs objs. lock_broker-at api now table na mq a t name mqs objs asked),
)

-- unlockAll unlocks each queue of the table whose broker has a known master and takes the request, which names
-- the queues of the table that are on this broker; the other queues stay as they were. The table's
-- objects are distinct.
pub unlock_all-effect :
    (api : LockApi) (now : ℕ) (table : QueueTable) (objects : Objects) (mq : MessageQueue) (a : ℕ)
    → IsOrdered table
    → NoAlias table
    → lookup mq table ≡ some a
    → (mqs : QueueSet) × BrokerQueues table mq.broker_name mqs
      × (unlock_all api now table objects a ≡ unlock_effect api mq.broker_name mqs (objects a))
unfolding unlock_all
unlock_all-effect api now table objects mq a o na t = (
  asked_of table o mq a t,
  asked_of-BrokerQueues table o mq a t,
  all-at table o mq a t (unlock_broker api now table) (unlock_effect api) objects
      (λ name mqs objs. unlock_broker-at api now table na mq a t name mqs objs),
)
