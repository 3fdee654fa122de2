-- ===== src/Consumer/Rebalance/Locks.antt =====
-- src/consumer/RebalanceImpl.cpp: the locks of queues at their brokers, for orderly consumption. A
-- `ProcessQueue*` is an address, whose object is in a function from addresses. What the client factory and the
-- brokers answer is `LockApi`; each broker is asked once in a call.
pub mod ByBroker
pub mod Marks
pub mod Turns
pub mod Granted
mod Tests
use test.Prelude.{
  ℕ, ◌≡◌, ◌==◌, Bytes, Bool, true, false, Option, none, some, List, [], ◌∷◌, if◌then◌else◌,
}
use test.SortedMap.{Map, lookup, insert}
use test.SortedMap.Keys.{same_bytes, bytes_order}
use test.Message.MessageQueue.{MessageQueue, message_queue_order}
use test.Consumer.Offset.Remote.{QueueSet, is_found}
use test.Consumer.ProcessQueue.{ProcessQueue}
use test.Consumer.Rebalance.{QueueTable}

-- The address of the broker's master, which is empty if none is known; the queues that the broker has
-- locked, `none` for an exception; and whether it took a request to unlock queues.
pub record LockApi : Type 0 where
  pub find_broker_address : Bytes → Bytes
  pub lock_batch_mq : Bytes → QueueSet → Option QueueSet
  pub unlock_batch_mq : Bytes → QueueSet → Bool

abbrev pub Objects : Type 0
Objects = ℕ → ProcessQueue

abbrev pub update : ℕ → ProcessQueue → Objects → Objects
update a q objects b = if b == a then q else objects b

-- The queue of a set of one.
abbrev pub only : MessageQueue → QueueSet
only mq = (mq, tt) ∷ []

-- The set with the queue, by what the result has for the broker.
abbrev pub with_queue : MessageQueue → Option QueueSet → QueueSet
with_queue mq none = only mq
with_queue mq (some mqs) = insert mq tt mqs

-- buildProcessQueueTableByBrokerName
unfoldable pub build_loop : QueueTable → Map Bytes QueueSet → Map Bytes QueueSet
build_loop [] result = result
build_loop ((mq, pq) ∷ table) result =
    build_loop table (insert mq.broker_name (with_queue mq (lookup mq.broker_name result)) result)

abbrev pub build_process_queue_table_by_broker_name : QueueTable → Map Bytes QueueSet
build_process_queue_table_by_broker_name table = build_loop table []

-- setLocked and setLastLockTimestamp on the object of a queue, if the table has one.
unfoldable pub set_locked : Bool → ℕ → MessageQueue → QueueTable → Objects → Objects
set_locked locked now mq table objects = elim (lookup mq table) [
  | none ↦ objects
  | some a ↦
      let q = objects a in
      if locked
      then update a (record q { locked = true; last_lock_timestamp = now }) objects
      else update a (record q { locked = false }) objects
]

-- The loop over the queues that were locked.
unfoldable pub lock_found : ℕ → QueueSet → QueueTable → Objects → Objects
lock_found now [] table objects = objects
lock_found now ((mq, _) ∷ mqs) table objects =
    lock_found now mqs table (set_locked true now mq table objects)

-- The loop over the queues asked for, that unlocks those which are not in the set of the locked ones.
unfoldable pub unlock_others : ℕ → QueueSet → QueueSet → QueueTable → Objects → Objects
unlock_others now locked [] table objects = objects
unlock_others now locked ((mq, _) ∷ mqs) table objects =
    unlock_others now locked mqs table
      (if is_found (lookup mq locked) then objects else set_locked false now mq table objects)

-- The loop of lockAll and of unlockAll over the brokers.
unfoldable pub for_brokers :
    (Bytes → QueueSet → Objects → Objects) → Map Bytes QueueSet → Objects → Objects
for_brokers turn [] objects = objects
for_brokers turn ((broker_name, mqs) ∷ broker_mqs) objects =
    for_brokers turn broker_mqs (turn broker_name mqs objects)

module _ (api : LockApi) (now : ℕ) (table : QueueTable) where
  open api use {find_broker_address, lock_batch_mq, unlock_batch_mq}

  abbrev pub after_lock : QueueSet → Option QueueSet → Objects → Objects
  after_lock mqs none objects = objects
  after_lock mqs (some ok) objects =
      unlock_others now ok mqs table (lock_found now ok table objects)

  -- The turn of one broker in lockAll.
  unfoldable pub lock_broker : Bytes → QueueSet → Objects → Objects
  lock_broker broker_name [] objects = objects
  lock_broker broker_name (e ∷ mqs) objects =
      let addr = find_broker_address broker_name in
      if same_bytes addr []
      then objects
      else after_lock (e ∷ mqs) (lock_batch_mq addr (e ∷ mqs)) objects

  unfoldable pub lock_all : Objects → Objects
  lock_all objects =
      for_brokers lock_broker (build_process_queue_table_by_broker_name table) objects

  -- The turn of one broker in unlockAll.
  unfoldable pub unlock_broker : Bytes → QueueSet → Objects → Objects
  unlock_broker broker_name [] objects = objects
  unlock_broker broker_name (e ∷ mqs) objects =
      let addr = find_broker_address broker_name in
      if same_bytes addr []
      then objects
      else if unlock_batch_mq addr (e ∷ mqs)
      then unlock_others now [] (e ∷ mqs) table objects
      else objects

  unfoldable pub unlock_all : Objects → Objects
  unlock_all objects =
      for_brokers unlock_broker (build_process_queue_table_by_broker_name table) objects

  -- RebalanceImpl::lock: whether the queue was locked.
  abbrev pub lock_answer : MessageQueue → Option QueueSet → Objects → Bool × Objects
  lock_answer mq none objects = (false, objects)
  lock_answer mq (some ok) objects = (is_found (lookup mq ok), lock_found now ok table objects)

  unfoldable pub lock : MessageQueue → Objects → Bool × Objects
  lock mq objects =
      let addr = find_broker_address mq.broker_name in
      if same_bytes addr []
      then (false, objects)
      else lock_answer mq (lock_batch_mq addr (only mq)) objects

-- RebalanceImpl::unlock: the request that is sent, with the broker's address.
unfoldable pub unlock : LockApi → MessageQueue → Option (Bytes × QueueSet)
unlock api mq =
    let addr = api.find_broker_address mq.broker_name in
    if same_bytes addr [] then none else some (addr, only mq)

-- ConsumeMessageOrderlyService's lockMQPeriodically and lockOneMQ, by m_stoped.
abbrev pub lock_mq_periodically : Bool → LockApi → ℕ → QueueTable → Objects → Objects
lock_mq_periodically stoped api now table objects =
    if stoped then objects else lock_all api now table objects

abbrev pub lock_one_mq : Bool → LockApi → ℕ → QueueTable → MessageQueue → Objects → Bool × Objects
lock_one_mq stoped api now table mq objects =
    if stoped then (false, objects) else lock api now table mq objects
