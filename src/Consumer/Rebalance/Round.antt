-- ===== src/Consumer/Rebalance/Round.antt =====
-- RebalanceImpl: the subscriptions, and doRebalance, a round over all topics that are subscribed to. `V` is
-- SubscriptionData; `consumers` is what findConsumerIdList gives for a topic.
pub mod Ordered
pub mod Allocated
use test.Prelude.{◌≡◌, Bytes, Option, none, some, List, [], ◌∷◌, ◌++◌}
use test.Prelude.Options.{◌>>=◌}
use test.SortedMap.{Map, lookup, insert, erase}
use test.SortedMap.Keys.{bytes_order}
use test.Message.MessageQueue.{MessageQueue}
use test.Consumer.Allocate.{Allocation}
use test.Consumer.Concurrently.{MessageModel}
use test.Consumer.Offset.Remote.{QueueSet}
use test.Consumer.Rebalance.{
  OffsetStore, Factory, Rebalance, QueueTable, PullRequest, truncate_message_queue_not_my_topic,
}
use test.Consumer.Rebalance.Topic.{Outcome, rebalance_by_topic}

module _ {V : Type 0} where
  unfoldable pub subscribe : Bytes → V → Map Bytes V → Map Bytes V
  subscribe topic sub_data table = insert topic sub_data table

  unfoldable pub unsubscribe : Bytes → Map Bytes V → Map Bytes V
  unsubscribe topic table = erase topic table

  -- hasSubscribe: the data if there is a subscription.
  unfoldable pub has_subscribe : Bytes → Map Bytes V → Option V
  has_subscribe topic table = lookup topic table

module _ {S V : Type 0} (store : OffsetStore S) (f : Factory) (model : MessageModel)
    (allocate : List MessageQueue → List Bytes → Allocation MessageQueue)
    (consumers : Bytes → List Bytes) (infos : Map Bytes QueueSet) where
  -- The loop of doRebalance: the requests dispatched, the table and the rest of the state.
  unfoldable pub rebalance_topics :
      Map Bytes V → QueueTable → Rebalance S → Option (Outcome store f)
  rebalance_topics [] table s = some ([], (table, s))
  rebalance_topics ((topic, _) ∷ subs) table s = do
    o ← rebalance_by_topic store f model allocate (consumers topic) infos topic table s
    rest ← rebalance_topics subs o.1.0 o.1.1
    some (o.0 ++ rest.0, rest.1)

  -- doRebalance
  unfoldable pub do_rebalance : Map Bytes V → QueueTable → Rebalance S → Option (Outcome store f)
  do_rebalance sub_table table s = do
    o ← rebalance_topics sub_table table (record s { down_broker_name = [] })
    let t = truncate_message_queue_not_my_topic sub_table o.1.0
    some (o.0, (t.0, record o.1.1 { droped = o.1.1.droped ++ t.1 }))
