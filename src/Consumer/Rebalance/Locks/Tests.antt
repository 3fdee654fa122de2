-- ===== src/Consumer/Rebalance/Locks/Tests.antt =====
-- Two queues of a broker, of which it locks the one.
use test.Prelude.{ℕ, ◌≡◌, ◌⊎◌, inl, inr, subst, refl, sym, ◌∙◌, arith, true, none, some, [], ◌∷◌}
use test.Prelude.Int.{pos}
use test.SortedMap.{lookup, IsOrdered}
use test.SortedMap.Keys.{cmp_bytes}
use test.SortedMap.Laws.{found-entry}
use test.Message.MessageQueue.{MessageQueue, compare_to, message_queue_order}
use test.Consumer.Offset.Remote.{QueueSet}
use test.Consumer.ProcessQueue.{new_process_queue}
use test.Consumer.Rebalance.{QueueTable}
use test.Consumer.Rebalance.Locks.{LockApi, Objects, lock_all, unlock_all}
use test.Consumer.Rebalance.Locks.Marks.{some_eq, NoAlias, OnlyAsked}
use test.Consumer.Rebalance.Locks.Turns.{lock_effect, unlock_effect}
use test.Consumer.Rebalance.Locks.Granted.{BrokerQueues, lock_all-effect, unlock_all-effect}

abbrev queue : ℕ → MessageQueue
queue n = record { topic = 116 ∷ []; broker_name = 98 ∷ []; queue_id = pos n }

abbrev table : QueueTable
table = (queue 1, 5) ∷ (queue 2, 6) ∷ []

abbrev keep_first : QueueSet → QueueSet
keep_first [] = []
keep_first (e ∷ mqs) = e ∷ []

abbrev api : LockApi
api = record {
  find_broker_address = λ name. 120 ∷ [];
  lock_batch_mq = λ addr mqs. some (keep_first mqs);
  unlock_batch_mq = λ addr mqs. true;
}

abbrev objects : Objects
objects a = new_process_queue a

api-OnlyAsked : OnlyAsked api
unfolding lookup
api-OnlyAsked addr [] ok mq h n = subst (λ o. lookup mq o ≡ none) (some_eq [] ok h) refl
api-OnlyAsked addr ((k, u) ∷ mqs) ok mq h n =
    subst (λ o. lookup mq o ≡ none) (some_eq ((k, u) ∷ []) ok h) (ground (arith, n))

table-IsOrdered : IsOrdered table
unfolding compare_to cmp_bytes
table-IsOrdered = ((refl, tt), (tt, tt))

in_table :
    (m : MessageQueue) (a : ℕ)
    → lookup m table ≡ some a
    → ((m ≡ queue 1) × (a ≡ 5)) ⊎ ((m ≡ queue 2) × (a ≡ 6))
unfolding lookup
in_table m a h = elim (found-entry (queue 1) m 5 a ((queue 2, 6) ∷ []) h) [
  | inl e ↦ inl e
  | inr e ↦ elim (found-entry (queue 2) m 6 a [] e) [ inl i ↦ inr i | inr i ↦ absurd (cc i) ]
]

table-NoAlias : NoAlias table
table-NoAlias m n a h k = elim (in_table m a h) [
  | inl e ↦ elim (in_table n a k) [
    | inl i ↦ e.0 ∙ sym i.0
    | inr i ↦ absurd (omega (arith, e.1, i.1))
  ]
  | inr e ↦ elim (in_table n a k) [
    | inl i ↦ absurd (omega (arith, e.1, i.1))
    | inr i ↦ e.0 ∙ sym i.0
  ]
]

lock_all-effect_example :
    (mqs : QueueSet) × BrokerQueues table (98 ∷ []) mqs
    × (lock_all api 100 table objects 5 ≡ lock_effect api 100 (queue 1) (98 ∷ []) mqs (objects 5))
unfolding lookup compare_to cmp_bytes
lock_all-effect_example =
    lock_all-effect api 100 table objects (queue 1) 5 api-OnlyAsked table-IsOrdered table-NoAlias
      refl

unlock_all-effect_example :
    (mqs : QueueSet) × BrokerQueues table (98 ∷ []) mqs
    × (unlock_all api 100 table objects 6 ≡ unlock_effect api (98 ∷ []) mqs (objects 6))
unfolding lookup compare_to cmp_bytes
unlock_all-effect_example =
    unlock_all-effect api 100 table objects (queue 2) 6 table-IsOrdered table-NoAlias refl
