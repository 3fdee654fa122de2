-- ===== src/Consumer/Rebalance/Locks/ByBroker.antt =====
-- The queues of the table by their brokers.
use test.Prelude.{
  ℕ, ◌≡◌, ◌⊎◌, refl, sym, ap, ◌∙◌, arith, Bytes, Option, none, some, [], ◌∷◌, Bool-cases, subst,
  inl, inr,
}
use test.SortedMap.{Map, lookup, insert, IsOrdered}
use test.SortedMap.Keys.{same_bytes, same_bytes_iff, bytes_order}
use test.SortedMap.Laws.{
  lookup-insert, lookup-insert_self, lookup-insert_ne, found-inserted, found-entry, lookup-rest,
  found-other, lookup-first_entry, IsOrdered-insert,
}
use test.Message.MessageQueue.{MessageQueue, message_queue_order}
use test.Consumer.Offset.Remote.{QueueSet}
use test.Consumer.Rebalance.{QueueTable}
use test.Consumer.Rebalance.Locks.{with_queue, build_loop, build_process_queue_table_by_broker_name}

-- The result has each queue of the table in the set of its broker, ...
abbrev pub Has : Map Bytes QueueSet → MessageQueue → Type 0
Has result mq =
    (mqs : QueueSet) × (lookup mq.broker_name result ≡ some mqs) × (lookup mq mqs ≡ some tt)

-- ... and in a set only queues of its broker that are in the table.
abbrev pub OfBroker : QueueTable → Map Bytes QueueSet → Type 0
OfBroker table result =
    (name : Bytes) (mqs : QueueSet) (mq : MessageQueue)
    → lookup name result ≡ some mqs
    → lookup mq mqs ≡ some tt
    → (mq.broker_name ≡ name) × ((a : ℕ) × (lookup mq table ≡ some a))

abbrev added : MessageQueue → Map Bytes QueueSet → Map Bytes QueueSet
added mq result = insert mq.broker_name (with_queue mq (lookup mq.broker_name result)) result

with_queue_self : (mq : MessageQueue) (o : Option QueueSet) → lookup mq (with_queue mq o) ≡ some tt
with_queue_self mq none = lookup-first_entry mq tt []
with_queue_self mq (some mqs) = lookup-insert_self mq tt mqs

with_queue_old :
    (mq n : MessageQueue) (mqs : QueueSet)
    → lookup n mqs ≡ some tt
    → lookup n (with_queue mq (some mqs)) ≡ some tt
with_queue_old mq n mqs h = ground (arith, lookup-insert mq n tt mqs, h)

with_queue-found :
    (mq n : MessageQueue) (o : Option QueueSet)
    → lookup n (with_queue mq o) ≡ some tt
    → (n ≡ mq) ⊎ ((mqs : QueueSet) × (o ≡ some mqs) × (lookup n mqs ≡ some tt))
unfolding lookup
with_queue-found mq n none h = elim (found-entry mq n tt tt [] h) [
  | inl e ↦ inl e.0
  | inr e ↦ absurd (cc e)
]
with_queue-found mq n (some mqs) h = elim (found-inserted mq n tt tt mqs h) [
  | inl e ↦ inl e.0
  | inr e ↦ inr (mqs, refl, e.1)
]

OfBroker-added :
    (whole : QueueTable) (mq : MessageQueue) (a : ℕ) (result : Map Bytes QueueSet)
    → lookup mq whole ≡ some a
    → OfBroker whole result
    → OfBroker whole (added mq result)
OfBroker-added whole mq a result t h name mqs n e f =
    elim (found-inserted mq.broker_name name (with_queue mq (lookup mq.broker_name result)) mqs
      result e) [
        | inl i ↦
            elim (with_queue-found mq n (lookup mq.broker_name result)
              (ap (lookup n) (sym i.1) ∙ f)) [
                | inl j ↦ (ap (λ q. q.broker_name) j ∙ sym i.0, (a, ap (λ q. lookup q whole) j ∙ t))
                | inr j ↦ let u = h mq.broker_name j.0 n j.1 j.2 in (u.0 ∙ sym i.0, u.1)
              ]
        | inr i ↦ h name mqs n i.1 f
      ]

Has-self : (mq : MessageQueue) (result : Map Bytes QueueSet) → Has (added mq result) mq
Has-self mq result = (
  with_queue mq (lookup mq.broker_name result),
  lookup-insert_self mq.broker_name (with_queue mq (lookup mq.broker_name result)) result,
  with_queue_self mq (lookup mq.broker_name result),
)

Has-added :
    (mq n : MessageQueue) (result : Map Bytes QueueSet) → Has result n → Has (added mq result) n
Has-added mq n result h = elim (Bool-cases (same_bytes n.broker_name mq.broker_name)) [
  | inl e ↦
      let same : n.broker_name ≡ mq.broker_name =
        (same_bytes_iff n.broker_name mq.broker_name).0 e in
      let there : lookup mq.broker_name result ≡ some h.0 =
        ap (λ b. lookup b result) (sym same) ∙ h.1 in
      (
        with_queue mq (some h.0),
        ap (λ b. lookup b (added mq result)) same
            ∙ lookup-insert_self mq.broker_name (with_queue mq (lookup mq.broker_name result))
                result
            ∙ ap (λ o. some (with_queue mq o)) there,
        with_queue_old mq n h.0 h.2,
      )
  | inr e ↦ (
    h.0,
    lookup-insert_ne mq.broker_name n.broker_name (with_queue mq (lookup mq.broker_name result))
          result (λ i. ground (arith, e, (same_bytes_iff n.broker_name mq.broker_name).1 i))
        ∙ h.1,
    h.2,
  )
]

OfBroker-build_loop :
    (whole table : QueueTable) (result : Map Bytes QueueSet)
    → IsOrdered table
    → ((n : MessageQueue) (a : ℕ) → lookup n table ≡ some a → lookup n whole ≡ some a)
    → OfBroker whole result
    → OfBroker whole (build_loop table result)
unfolding build_loop
OfBroker-build_loop whole [] result o t h = h
OfBroker-build_loop whole ((mq, pq) ∷ table) result o t h =
    OfBroker-build_loop whole table (added mq result) o.1
      (λ n a e. t n a (lookup-rest mq n pq table (found-other mq n pq a table o e) ∙ e))
      (OfBroker-added whole mq pq result (t mq pq (lookup-first_entry mq pq table)) h)

IsOrdered-build_loop :
    (table : QueueTable) (result : Map Bytes QueueSet)
    → IsOrdered result
    → IsOrdered (build_loop table result)
unfolding build_loop
IsOrdered-build_loop [] result h = h
IsOrdered-build_loop ((mq, pq) ∷ table) result h =
    IsOrdered-build_loop table (added mq result)
      (IsOrdered-insert mq.broker_name (with_queue mq (lookup mq.broker_name result)) result h)

Has-build_loop :
    (table : QueueTable) (n : MessageQueue) (result : Map Bytes QueueSet)
    → Has result n
    → Has (build_loop table result) n
unfolding build_loop
Has-build_loop [] n result h = h
Has-build_loop ((mq, pq) ∷ table) n result h =
    Has-build_loop table n (added mq result) (Has-added mq n result h)

Has-found :
    (table : QueueTable) (n : MessageQueue) (a : ℕ) (result : Map Bytes QueueSet)
    → lookup n table ≡ some a
    → Has (build_loop table result) n
unfolding build_loop lookup
Has-found [] n a result h = absurd (cc h)
Has-found ((mq, pq) ∷ table) n a result h = elim (found-entry mq n pq a table h) [
  | inl e ↦
      Has-build_loop table n (added mq result)
        (subst (Has (added mq result)) (sym e.0) (Has-self mq result))
  | inr e ↦ Has-found table n a (added mq result) e
]

pub build-OfBroker :
    (table : QueueTable)
    → IsOrdered table
    → OfBroker table (build_process_queue_table_by_broker_name table)
unfolding lookup
build-OfBroker table o =
    OfBroker-build_loop table table [] o (λ n a e. e) (λ name mqs mq h. absurd (cc h))

pub build-IsOrdered :
    (table : QueueTable) → IsOrdered (build_process_queue_table_by_broker_name table)
build-IsOrdered table = IsOrdered-build_loop table [] tt

pub build-Has :
    (table : QueueTable) (n : MessageQueue) (a : ℕ)
    → lookup n table ≡ some a
    → Has (build_process_queue_table_by_broker_name table) n
build-Has table n a h = Has-found table n a [] h
