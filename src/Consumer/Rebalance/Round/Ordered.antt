-- ===== src/Consumer/Rebalance/Round/Ordered.antt =====
-- The update of the table of queues keeps it in order.
use test.Prelude.{ℕ, suc, arith, Bytes, Option, none, some, [], ◌∷◌}
use test.SortedMap.{lookup, IsOrdered}
use test.SortedMap.Laws.{IsOrdered-insert}
use test.Message.MessageQueue.{MessageQueue, message_queue_order}
use test.Consumer.Offset.Remote.{QueueSet}
use test.Consumer.Rebalance.{
  OffsetStore, Factory, Rebalance, QueueTable, visit, remove_loop, add_queue, add_loop,
  update_process_queue_table_in_rebalance,
}
use test.Consumer.Rebalance.Table.{remove_loop-Above}

module _ {S : Type 0} (store : OffsetStore S) (f : Factory) where
  remove_loop-IsOrdered :
      (topic : Bytes) (mq_set : QueueSet) (t : QueueTable) (s : Rebalance S)
      → IsOrdered t
      → IsOrdered (remove_loop store f topic mq_set t s).1.0
  unfolding remove_loop
  remove_loop-IsOrdered topic mq_set [] s h = tt
  remove_loop-IsOrdered topic mq_set ((mq, pq) ∷ t) s h =
      let v = visit store f topic mq_set mq pq s in
      ground (
        arith,
        remove_loop-IsOrdered topic mq_set t v.1 h.1,
        remove_loop-Above store f topic mq_set mq t v.1 h.0,
      )

  add_queue-IsOrdered :
      (found : Option ℕ) (mq : MessageQueue) (t : QueueTable) (s : Rebalance S)
      → IsOrdered t
      → IsOrdered (add_queue store f found mq t s).1.0
  add_queue-IsOrdered none mq t s h = ground (arith, IsOrdered-insert mq (suc s.allocated) t h)
  add_queue-IsOrdered (some pq) mq t s h = h

  add_loop-IsOrdered :
      (mqs : QueueSet) (t : QueueTable) (s : Rebalance S)
      → IsOrdered t
      → IsOrdered (add_loop store f mqs t s).1.0
  unfolding add_loop
  add_loop-IsOrdered [] t s h = h
  add_loop-IsOrdered ((mq, u) ∷ mqs) t s h =
      add_loop-IsOrdered mqs _ _ (add_queue-IsOrdered (lookup mq t) mq t s h)

  pub update-IsOrdered :
      (topic : Bytes) (mq_set : QueueSet) (table : QueueTable) (s : Rebalance S)
      → IsOrdered table
      → IsOrdered (update_process_queue_table_in_rebalance store f topic mq_set table s).1.1.0
  unfolding update_process_queue_table_in_rebalance
  update-IsOrdered topic mq_set table s h =
      add_loop-IsOrdered mq_set _ _ (remove_loop-IsOrdered topic mq_set table s h)
