-- ===== src/Consumer/Rebalance/Topic.antt =====
-- RebalanceImpl::rebalanceByTopic: from the consumers of the group to the update of the table.
use test.Prelude.{
  ◌≡◌, ◌≢◌, refl, ap, ◌∙◌, Bytes, Option, none, some, List, [], ◌∷◌, Ordering, if◌then◌else◌,
}
use test.SortedMap.{Map, lookup, insert, IsOrdered}
use test.SortedMap.Keys.{cmp_bytes, same_bytes, bytes_order}
use test.SortedMap.Laws.{lookup-insert_ne}
use test.Message.MessageQueue.{MessageQueue, message_queue_order}
use test.Consumer.Allocate.{Allocation, allocated, null, throws}
use test.Consumer.Concurrently.{MessageModel, broadcasting, clustering}
use test.Consumer.Offset.Remote.{QueueSet}
use test.Consumer.Rebalance.{
  OffsetStore, Factory, Rebalance, QueueTable, PullRequest, update_process_queue_table_in_rebalance,
}
use test.Consumer.Rebalance.Table.{update-unallocated}

-- cidAll.sort()
abbrev pub insert_sorted : Bytes → List Bytes → List Bytes
insert_sorted c [] = c ∷ []
insert_sorted c (d ∷ ds) =
    let rest = insert_sorted c ds in
    elim (cmp_bytes c d) [ Ordering.gt ↦ d ∷ rest | _ ↦ c ∷ d ∷ ds ]

unfoldable pub sorted : List Bytes → List Bytes
sorted [] = []
sorted (c ∷ cs) = insert_sorted c (sorted cs)

-- allocateResultSet
unfoldable pub set_of : List MessageQueue → QueueSet → QueueSet
set_of [] set = set
set_of (mq ∷ mqs) set = set_of mqs (insert mq tt set)

abbrev pub keys : QueueSet → List MessageQueue
keys [] = []
keys ((mq, _) ∷ set) = mq ∷ keys set

module _ {S : Type 0} (store : OffsetStore S) (f : Factory) where
  abbrev pub Outcome : Type 0
  Outcome = List PullRequest × (QueueTable × Rebalance S)

  -- By the strategy's answer. After an exception the source reads an uninitialised pointer: `none`.
  abbrev pub by_allocation :
      Allocation MessageQueue → Bytes → QueueTable → Rebalance S → Option Outcome
  by_allocation (allocated mqs) topic table s =
      some (update_process_queue_table_in_rebalance store f topic (set_of mqs []) table s).1
  by_allocation null topic table s =
      some (update_process_queue_table_in_rebalance store f topic [] table s).1
  by_allocation (throws e) topic table s = none

  -- The clustering case, by the topic's queues and the consumers of the group.
  abbrev pub by_consumers :
      (List MessageQueue → List Bytes → Allocation MessageQueue)
      → Option QueueSet
      → List Bytes
      → Bytes
      → QueueTable
      → Rebalance S
      → Option Outcome
  by_consumers allocate none cid_all topic table s = some ([], (table, s))
  by_consumers allocate (some mq_set) [] topic table s = some ([], (table, s))
  by_consumers allocate (some mq_set) (c ∷ cs) topic table s =
      by_allocation (allocate (keys mq_set) (sorted (c ∷ cs))) topic table s

  abbrev pub by_broadcast : Option QueueSet → Bytes → QueueTable → Rebalance S → Outcome
  by_broadcast none topic table s = ([], (table, s))
  by_broadcast (some mq_set) topic table s =
      (update_process_queue_table_in_rebalance store f topic mq_set table s).1

  -- rebalanceByTopic; `allocate` is the strategy for this client, `cid_all` what findConsumerIdList
  -- gives.
  unfoldable pub rebalance_by_topic :
      MessageModel
      → (List MessageQueue → List Bytes → Allocation MessageQueue)
      → List Bytes
      → Map Bytes QueueSet
      → Bytes
      → QueueTable
      → Rebalance S
      → Option Outcome
  rebalance_by_topic broadcasting allocate cid_all infos topic table s =
      some (by_broadcast (lookup topic infos) topic table s)
  rebalance_by_topic clustering allocate cid_all infos topic table s =
      by_consumers allocate (lookup topic infos) cid_all topic table s

-- The queue is none of the list.
abbrev pub Outside : MessageQueue → List MessageQueue → Type 0
Outside j [] = Unit {0}
Outside j (mq ∷ mqs) = (j ≢ mq) × Outside j mqs

lookup-set_of :
    (j : MessageQueue) (mqs : List MessageQueue) (set : QueueSet)
    → Outside j mqs
    → lookup j set ≡ none
    → lookup j (set_of mqs set) ≡ none
unfolding set_of
lookup-set_of j [] set o h = h
lookup-set_of j (mq ∷ mqs) set o h =
    lookup-set_of j mqs (insert mq tt set) o.1 (lookup-insert_ne mq j tt set o.0 ∙ h)

lookup-none : (j : MessageQueue) → lookup {V = Unit {0}} j [] ≡ none
unfolding lookup
lookup-none j = refl

module _ {S : Type 0} (store : OffsetStore S) (f : Factory) where
  -- A consumer of a group whose strategy allocates it some queues of a topic keeps no other queue of
  -- the topic, and its queues of other topics, those allocated aside, stay as they are.
  pub rebalance_by_topic-allocated :
      (allocate : List MessageQueue → List Bytes → Allocation MessageQueue) (c : Bytes)
      (cs : List Bytes) (infos : Map Bytes QueueSet) (topic : Bytes) (mq_set : QueueSet)
      (table : QueueTable) (s : Rebalance S) (mqs : List MessageQueue) (j : MessageQueue)
      → lookup topic infos ≡ some mq_set
      → allocate (keys mq_set) (sorted (c ∷ cs)) ≡ allocated mqs
      → IsOrdered table
      → Outside j mqs
      → (out : Outcome store f) × (rebalance_by_topic store f clustering allocate
            (c ∷ cs)
            infos
            topic
            table
            s
          ≡ some out)
        × (lookup j out.1.0 ≡ (if same_bytes j.topic topic then none else lookup j table))
  unfolding rebalance_by_topic
  rebalance_by_topic-allocated allocate c cs infos topic mq_set table s mqs j e a h o = (
    _,
    ap (λ found. by_consumers store f allocate found (c ∷ cs) topic table s) e
        ∙ ap (λ x. by_allocation store f x topic table s) a,
    update-unallocated store f topic (set_of mqs []) table s j h
        (lookup-set_of j mqs [] o (lookup-none j)),
  )
