-- ===== src/Consumer/Rebalance/Locks/Turns.antt =====
-- What the turn of one broker in lockAll and unlockAll, and the loop over the brokers, do to one queue.
use test.Prelude.{
  ℕ, ◌≡◌, ◌≢◌, sym, ap, ◌∙◌, arith, Bytes, Option, none, some, [], ◌∷◌, if◌then◌else◌, Option-cases,
  Bool-cases, inl, inr,
}
use test.SortedMap.{Map, lookup, IsOrdered}
use test.SortedMap.Keys.{same_bytes, same_bytes_iff, bytes_order}
use test.SortedMap.Laws.{lookup-rest, found-other, lookup-first_entry, lookup-Above}
use test.Message.MessageQueue.{MessageQueue, message_queue_order}
use test.Consumer.Offset.Remote.{QueueSet, is_found}
use test.Consumer.ProcessQueue.{ProcessQueue}
use test.Consumer.Rebalance.{QueueTable}
use test.Consumer.Rebalance.Locks.{
  LockApi, Objects, lock_found, after_lock, lock_broker, unlock_broker, for_brokers,
}
use test.Consumer.Rebalance.Locks.Marks.{
  NoAlias, OnlyAsked, with_lock, without_lock, lookup-nil, none_found, lock_found-at,
  unlock_others-at,
}

-- What becomes of a queue's object, by the answer of the broker to the request for its queues.
abbrev pub lock_answered : ℕ → MessageQueue → Option QueueSet → ProcessQueue → ProcessQueue
lock_answered now mq none q = q
lock_answered now mq (some ok) q =
    if is_found (lookup mq ok) then with_lock now q else without_lock q

abbrev pub lock_effect : LockApi → ℕ → MessageQueue → Bytes → QueueSet → ProcessQueue → ProcessQueue
lock_effect api now mq broker_name mqs q =
    let addr = api.find_broker_address broker_name in
    if same_bytes addr [] then q else lock_answered now mq (api.lock_batch_mq addr mqs) q

abbrev pub unlock_effect : LockApi → Bytes → QueueSet → ProcessQueue → ProcessQueue
unlock_effect api broker_name mqs q =
    let addr = api.find_broker_address broker_name in
    if same_bytes addr [] then q else if api.unlock_batch_mq addr mqs then without_lock q else q

-- The effect on one queue of the turn of one broker.
abbrev pub effect_on :
    MessageQueue → (ProcessQueue → ProcessQueue) → QueueSet → ProcessQueue → ProcessQueue
effect_on mq effect mqs q = if is_found (lookup mq mqs) then effect q else q

abbrev pub effect_by :
    MessageQueue
    → (QueueSet → ProcessQueue → ProcessQueue)
    → Option QueueSet
    → ProcessQueue
    → ProcessQueue
effect_by mq effect none q = q
effect_by mq effect (some mqs) q = effect_on mq (effect mqs) mqs q

abbrev pub Named : MessageQueue → Map Bytes QueueSet → Type 0
Named mq broker_mqs =
    (name : Bytes) (mqs : QueueSet)
    → lookup name broker_mqs ≡ some mqs
    → lookup mq mqs ≡ some tt
    → mq.broker_name ≡ name

module _ (mq : MessageQueue) (a : ℕ) (turn : Bytes → QueueSet → Objects → Objects)
    (effect : Bytes → QueueSet → ProcessQueue → ProcessQueue)
    (turn-at : (name : Bytes) (mqs : QueueSet) (objects : Objects)
      → turn name mqs objects a ≡ effect_on mq (effect name mqs) mqs (objects a)) where
  pub for_brokers-at :
      (broker_mqs : Map Bytes QueueSet) (objects : Objects)
      → IsOrdered broker_mqs
      → Named mq broker_mqs
      → for_brokers turn broker_mqs objects a
        ≡ effect_by mq (effect mq.broker_name) (lookup mq.broker_name broker_mqs) (objects a)
  unfolding for_brokers
  for_brokers-at [] objects o n =
      ap (λ x. effect_by mq (effect mq.broker_name) x (objects a)) (sym (none_found mq.broker_name))
  for_brokers-at ((name, mqs) ∷ broker_mqs) objects o n =
      elim (Bool-cases (same_bytes mq.broker_name name)) [
        | inl e ↦
            let same : mq.broker_name ≡ name = (same_bytes_iff mq.broker_name name).0 e in
            let gone : lookup mq.broker_name broker_mqs ≡ none =
              ap (λ k. lookup k broker_mqs) same ∙ lookup-Above name broker_mqs o.0 in
            let here : lookup mq.broker_name ((name, mqs) ∷ broker_mqs) ≡ some mqs =
              ap (λ k. lookup k ((name, mqs) ∷ broker_mqs)) same
              ∙ lookup-first_entry name mqs broker_mqs in
            for_brokers-at broker_mqs (turn name mqs objects) o.1 rest_named
            ∙ ap (λ x. effect_by mq (effect mq.broker_name) x (turn name mqs objects a)) gone
            ∙ turn-at name mqs objects
            ∙ ap (λ k. effect_on mq (effect k mqs) mqs (objects a)) (sym same)
            ∙ ap (λ x. effect_by mq (effect mq.broker_name) x (objects a)) (sym here)
        | inr e ↦
            let other : mq.broker_name ≢ name =
              λ i. ground (arith, e, (same_bytes_iff mq.broker_name name).1 i) in
            for_brokers-at broker_mqs (turn name mqs objects) o.1 rest_named
            ∙ ap (effect_by mq (effect mq.broker_name) (lookup mq.broker_name broker_mqs))
                (turn-at name mqs objects ∙ untouched other)
            ∙ ap (λ x. effect_by mq (effect mq.broker_name) x (objects a))
                (sym (lookup-rest name mq.broker_name mqs broker_mqs other))
      ]
    where
      rest_named : Named mq broker_mqs
      rest_named k s h =
          n k s (lookup-rest name k mqs broker_mqs (found-other name k mqs s broker_mqs o h) ∙ h)

      untouched : mq.broker_name ≢ name → effect_on mq (effect name mqs) mqs (objects a) ≡ objects a
      untouched other = elim (Option-cases (lookup mq mqs)) [
        | inl i ↦ ground (arith, i)
        | inr i ↦ absurd (other (n name mqs (lookup-first_entry name mqs broker_mqs) i.1))
      ]

module _ (api : LockApi) (now : ℕ) (table : QueueTable) (na : NoAlias table) (mq : MessageQueue)
    (a : ℕ) (t : lookup mq table ≡ some a) where
  after_lock-at :
      (addr : Bytes) (mqs : QueueSet) (objects : Objects)
      → OnlyAsked api
      → after_lock api now table mqs (api.lock_batch_mq addr mqs) objects a
        ≡ effect_on mq (lock_answered now mq (api.lock_batch_mq addr mqs)) mqs (objects a)
  after_lock-at addr mqs objects asked = elim (Option-cases (api.lock_batch_mq addr mqs)) [
    | inl e ↦ ground (arith, e)
    | inr e ↦ elim (Option-cases (lookup mq mqs)) [
      | inl i ↦ ground (
        arith,
        e.1,
        i,
        asked addr mqs e.0 mq e.1 i,
        unlock_others-at table na mq a t now e.0 mqs (lock_found now e.0 table objects),
        lock_found-at table na mq a t now e.0 objects,
      )
      | inr i ↦ ground (
        arith,
        e.1,
        i.1,
        unlock_others-at table na mq a t now e.0 mqs (lock_found now e.0 table objects),
        lock_found-at table na mq a t now e.0 objects,
      )
    ]
  ]

  pub lock_broker-at :
      (name : Bytes) (mqs : QueueSet) (objects : Objects)
      → OnlyAsked api
      → lock_broker api now table name mqs objects a
        ≡ effect_on mq (lock_effect api now mq name mqs) mqs (objects a)
  unfolding lock_broker
  lock_broker-at name [] objects asked = ground (arith, lookup-nil mq)
  lock_broker-at name (e ∷ mqs) objects asked =
      ground (arith, after_lock-at (api.find_broker_address name) (e ∷ mqs) objects asked)

  pub unlock_broker-at :
      (name : Bytes) (mqs : QueueSet) (objects : Objects)
      → unlock_broker api now table name mqs objects a
        ≡ effect_on mq (unlock_effect api name mqs) mqs (objects a)
  unfolding unlock_broker
  unlock_broker-at name [] objects = ground (arith, lookup-nil mq)
  unlock_broker-at name (e ∷ mqs) objects =
      ground (arith, lookup-nil mq, unlock_others-at table na mq a t now [] (e ∷ mqs) objects)
