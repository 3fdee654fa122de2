-- ===== src/Consumer/Rebalance/Tests.antt =====
-- The rebalancing at a concrete table, with the remote store behind the offset store.
use test.Prelude.{ℕ, ◌≡◌, refl, [], ◌∷◌, true, none, some, arith, ◌⊎◌}
use test.Prelude.Int.{pos, ◌≤ℤ◌}
use test.SortedMap.{lookup}
use test.SortedMap.Keys.{cmp_bytes, same_bytes}
use test.Message.MessageQueue.{MessageQueue, message_queue_order, compare_to}
use test.Consumer.Offset.Remote.{
  OffsetTable, QueueSet, Brokers, returns, is_found, read_offset, read_from_broker,
  fetch_consume_offset_from_broker,
}
use test.Consumer.Rebalance.{
  OffsetStore, Factory, Rebalance, QueueTable, consume_from_last_offset, remote_store,
  compute_pull_from_where, update_process_queue_table_in_rebalance, is_droped,
}
use test.Prelude.{Bytes, List, none}
use test.SortedMap.{Map}
use test.SortedMap.Keys.{bytes_order}
use test.Consumer.Concurrently.{clustering}
use test.Consumer.Allocate.{
  Allocation, allocate_averagely, index_from, average_size, start_index, range_size, picks,
}
use test.Consumer.Rebalance.Round.{do_rebalance}
use test.Consumer.Rebalance.Round.Allocated.{do_rebalance-unallocated}
use test.Consumer.Rebalance.Topic.{Outcome, sorted}
use test.Consumer.Rebalance.Table.{update-unallocated, update-droped}
use test.Consumer.Rebalance.Start.{AllStarted, update-AllStarted, update-present}

abbrev queue : ℕ → MessageQueue
queue n = record { topic = 116 ∷ []; broker_name = 98 ∷ []; queue_id = pos n }

abbrev brokers : Brokers
brokers = record {
  address = λ mq. 97 ∷ [];
  address_after_update = λ mq. 97 ∷ [];
  query_consumer_offset = λ address group mq. returns (pos 5);
  update_consumer_offset_oneway = λ address mq offset. returns tt;
}

abbrev factory : Factory
factory = record {
  find_master = λ topic name. 97 ∷ [];
  max_offset = λ mq. some (pos 100);
  search_offset = λ mq. none;
  consume_from_where = consume_from_last_offset;
  consume_orderly = true;
}

abbrev store : OffsetStore OffsetTable
store = remote_store brokers []

abbrev initial : Rebalance OffsetTable
initial = record {
  broker_master = [];
  down_broker_name = [];
  offset_store = [];
  droped = [];
  unlocked = [];
  allocated = 12;
}

-- The consumer has the queues 0 and 1, and is to have 1 and 2.
abbrev table : QueueTable
table = (queue 0, 11) ∷ (queue 1, 12) ∷ []

abbrev allocated_set : QueueSet
allocated_set = (queue 1, tt) ∷ (queue 2, tt) ∷ []

update-unallocated_example :
    lookup
      (queue 0)
      (update_process_queue_table_in_rebalance store factory
        (116 ∷ [])
        allocated_set
        table
        initial).1.1.0
    ≡ none
unfolding compare_to cmp_bytes same_bytes lookup
update-unallocated_example =
    update-unallocated store factory (116 ∷ []) allocated_set table initial (queue 0)
      ((refl, tt), (tt, tt)) refl

update-droped_example :
    let r =
      update_process_queue_table_in_rebalance store factory
        (116 ∷ [])
        allocated_set
        table
        initial in
    (lookup (queue 0) r.1.1.0 ≡ some 11) ⊎ (is_droped 11 r.1.1.1.droped ≡ true)
unfolding compare_to cmp_bytes lookup
update-droped_example =
    update-droped store factory (116 ∷ []) allocated_set table initial (queue 0) 11 refl (λ e. cc)

update-AllStarted_example :
    let r =
      update_process_queue_table_in_rebalance store factory
        (116 ∷ [])
        allocated_set
        table
        initial in
    AllStarted store factory r.1.0 r.1.1.0
update-AllStarted_example = update-AllStarted store factory (116 ∷ []) allocated_set table initial

starts_at_5 :
    (s' : Rebalance OffsetTable) → pos 0 ≤ℤ (compute_pull_from_where store factory (queue 2) s').0
unfolding compute_pull_from_where read_offset read_from_broker fetch_consume_offset_from_broker
starts_at_5 s' = omega arith

update-present_example :
    is_found (
      lookup
        (queue 2)
        (update_process_queue_table_in_rebalance store factory
          (116 ∷ [])
          allocated_set
          table
          initial).1.1.0)
    ≡ true
unfolding compare_to cmp_bytes lookup
update-present_example =
    update-present store factory (116 ∷ []) allocated_set table initial (queue 2) refl starts_at_5

-- The consumer "b" of a group with "a" gets the second queue of two.
abbrev second_of : List MessageQueue → List Bytes → Allocation MessageQueue
second_of = allocate_averagely (98 ∷ [])

abbrev infos : Map Bytes QueueSet
infos = (116 ∷ [], allocated_set) ∷ []

abbrev group : Bytes → List Bytes
group topic = (98 ∷ []) ∷ (97 ∷ []) ∷ []

abbrev subscriptions : Map Bytes (Unit {0})
subscriptions = (116 ∷ [], tt) ∷ []

do_rebalance-unallocated_example :
    (out : Outcome store factory) × (do_rebalance store factory clustering second_of group infos
        subscriptions table initial
      ≡ some out)
    × (lookup (queue 1) out.1.0 ≡ none)
unfolding compare_to cmp_bytes same_bytes lookup sorted allocate_averagely index_from average_size
    start_index range_size picks
do_rebalance-unallocated_example =
    do_rebalance-unallocated store factory second_of group infos (queue 1) subscriptions table
      initial ((refl, tt), (tt, tt))
      (
        (
          allocated_set,
          98 ∷ [],
          (97 ∷ []) ∷ [],
          queue 2 ∷ [],
          refl,
          refl,
          refl,
          ((λ e. ground arith), tt),
        ),
        tt,
      )
