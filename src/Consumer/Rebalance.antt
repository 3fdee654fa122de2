-- ===== src/Consumer/Rebalance.antt =====
-- src/consumer/RebalanceImpl.cpp and RebalancePushImpl.cpp: which queues a push consumer pulls from.
-- A `ProcessQueue*` is an address, 0 for NULL; the addresses that `new` has given and on which
-- setDroped(true) has been called are in the state, like the calls that leave the component. What the
-- client factory answers (the master of a broker, offsets of the broker) is `Factory`; the offset store
-- behind its virtual functions is `OffsetStore`. Logging is left out.
pub mod Table
pub mod Start
pub mod Topic
pub mod Round
pub mod Locks
mod Tests
use test.Prelude.{
  ℕ, suc, ◌+◌, ◌≡◌, Bytes, Bool, true, false, ◌&&◌, not, Option, none, some, List, [], ◌∷◌, ◌++◌,
  ◌==◌, if◌then◌else◌,
}
use test.Prelude.Int.{ℤ, pos, minus_one, ltb_ℤ, eqb_ℤ}
use test.SortedMap.{Map, lookup, insert, erase}
use test.SortedMap.Keys.{same_bytes, bytes_order}
use test.Message.MessageQueue.{MessageQueue, message_queue_order}
use test.Common.MixAll.{retry_group_topic_prefix}
use test.Consumer.Offset.Remote.{
  Brokers, OffsetTable, read_offset, remove_offset, QueueSet, ReadOffsetType, read_from_store,
  is_found,
}

pub data ConsumeFromWhere : Type 0 where
  consume_from_last_offset consume_from_first_offset consume_from_timestamp : ConsumeFromWhere

-- The virtual functions of OffsetStore that the rebalancing calls, on the store's state.
pub record OffsetStore (S : Type 0) : Type 0 where
  pub read_offset : MessageQueue → ReadOffsetType → S → ℤ × S
  pub persist : MessageQueue → S → S
  pub remove_offset : MessageQueue → S → S

-- RemoteBrokerOffsetStore behind the interface; the requests to the brokers are its `Brokers`.
abbrev pub remote_store : Brokers → Bytes → OffsetStore OffsetTable
remote_store b group = record {
  read_offset = read_offset b group;
  persist = λ mq table. table;
  remove_offset = remove_offset;
}

-- MQClientException is `none`.
pub record Factory : Type 0 where
  pub find_master : Bytes → Bytes → Bytes
  pub max_offset : MessageQueue → Option ℤ
  pub search_offset : MessageQueue → Option ℤ
  pub consume_from_where : ConsumeFromWhere
  pub consume_orderly : Bool

pub record PullRequest : Type 0 where
  pub message_queue : MessageQueue
  pub process_queue : ℕ
  pub next_offset : ℤ

abbrev pub QueueTable : Type 0
QueueTable = Map MessageQueue ℕ

-- What the functions change beside the table of queues.
pub record Rebalance (S : Type 0) : Type 0 where
  pub broker_master : Map Bytes Bytes
  pub down_broker_name : List Bytes
  pub offset_store : S
  pub droped : List ℕ
  pub unlocked : List MessageQueue
  pub allocated : ℕ

-- topic.find(prefix) == 0
abbrev pub starts_with : Bytes → Bytes → Bool
starts_with text [] = true
starts_with [] (p ∷ prefix) = false
starts_with (c ∷ text) (p ∷ prefix) = let rest = starts_with text prefix in (c == p) && rest

abbrev pub or_minus_one : Option ℤ → ℤ
or_minus_one none = minus_one
or_minus_one (some offset) = offset

-- The loop over m_downBrokerName.
abbrev pub contains : Bytes → List Bytes → Bool
contains name [] = false
contains name (n ∷ names) =
    let rest = contains name names in if same_bytes name n then true else rest

-- A broker whose master is another than the one noted for it is down.
abbrev pub note_down : Bytes → Bytes → Bytes → List Bytes → List Bytes
note_down noted master name down =
    if same_bytes noted master then down else if contains name down then down else down ++ name ∷ []

-- By the note on the broker's master: the names of the brokers that are down, and whether this one is.
abbrev pub down_after : Option Bytes → Bytes → Bytes → List Bytes → List Bytes × Bool
down_after none master name down = (down, false)
down_after (some noted) master name down =
    let down' = note_down noted master name down in (down', contains name down')

abbrev pub with_request : Option PullRequest → List PullRequest → List PullRequest
with_request none requests = requests
with_request (some request) requests = request ∷ requests

abbrev pub is_nonempty : List PullRequest → Bool
is_nonempty [] = false
is_nonempty (_ ∷ _) = true

-- pq->isDroped(), by the addresses that have been dropped.
abbrev pub is_droped : ℕ → List ℕ → Bool
is_droped pq [] = false
is_droped pq (p ∷ ps) = let rest = is_droped pq ps in if pq == p then true else rest

module _ {S : Type 0} (store : OffsetStore S) (f : Factory) where
  open store use {read_offset, persist, remove_offset}
  open f use {find_master, max_offset, search_offset}

  -- removeUnnecessaryMessageQueue; unlock(mq, true) is a request to the broker.
  unfoldable pub remove_unnecessary_message_queue : MessageQueue → Rebalance S → Rebalance S
  remove_unnecessary_message_queue mq s = record s {
    offset_store = remove_offset mq (persist mq s.offset_store);
    unlocked = if f.consume_orderly then s.unlocked ++ mq ∷ [] else s.unlocked;
  }

  abbrev pub drop_queue : MessageQueue → ℕ → Rebalance S → Rebalance S
  drop_queue mq pq s =
      if pq == 0
      then s
      else remove_unnecessary_message_queue mq (record s { droped = s.droped ++ pq ∷ [] })

  -- The first offset of a queue without a stored one.
  abbrev pub first_offset : ConsumeFromWhere → MessageQueue → ℤ
  first_offset consume_from_last_offset mq =
      if starts_with mq.topic retry_group_topic_prefix then pos 0 else or_minus_one (max_offset mq)
  first_offset consume_from_first_offset mq = pos 0
  first_offset consume_from_timestamp mq =
      if starts_with mq.topic retry_group_topic_prefix
      then or_minus_one (max_offset mq)
      else or_minus_one (search_offset mq)

  -- computePullFromWhere
  unfoldable pub compute_pull_from_where : MessageQueue → Rebalance S → ℤ × Rebalance S
  compute_pull_from_where mq s =
      let r = read_offset mq read_from_store s.offset_store in
      (
        if not (ltb_ℤ r.0 (pos 0))
            then r.0
            else if eqb_ℤ r.0 minus_one
            then first_offset f.consume_from_where mq
            else minus_one,
        record s { offset_store = r.1 },
      )

  -- The first loop of updateProcessQueueTableInRebalance: whether it changed the table, the table and
  -- the rest of the state. `visit` is the turn of one entry, whose outcome is whether it stays.
  abbrev pub visit_mine : MessageQueue → ℕ → Rebalance S → Bool × Rebalance S
  visit_mine mq pq s =
      let d =
        down_after (lookup mq.broker_name s.broker_master) (find_master mq.topic mq.broker_name)
          mq.broker_name s.down_broker_name in
      let s' : Rebalance S = record s { down_broker_name = d.0 } in
      if d.1 then (false, drop_queue mq pq s') else (true, s')

  unfoldable pub visit : Bytes → QueueSet → MessageQueue → ℕ → Rebalance S → Bool × Rebalance S
  visit topic mq_set mq pq s =
      if same_bytes mq.topic topic
      then if is_found (lookup mq mq_set) then visit_mine mq pq s else (false, drop_queue mq pq s)
      else (true, s)

  unfoldable pub remove_loop :
      Bytes → QueueSet → QueueTable → Rebalance S → Bool × (QueueTable × Rebalance S)
  remove_loop topic mq_set [] s = (false, ([], s))
  remove_loop topic mq_set ((mq, pq) ∷ table) s =
      let v = visit topic mq_set mq pq s in
      let rest = remove_loop topic mq_set table v.1 in
      if v.0 then (rest.0, ((mq, pq) ∷ rest.1.0, rest.1.1)) else (true, rest.1)

  -- A queue that has just got its request: what is noted of its broker.
  abbrev pub note_master : MessageQueue → Rebalance S → Rebalance S
  note_master mq s =
      let master = find_master mq.topic mq.broker_name in
      if same_bytes master []
      then s
      else record s { broker_master = insert mq.broker_name master s.broker_master }

  -- The turn of a queue in the second loop, by what the table has for it. `new` gives an address that
  -- is not NULL and that it has not given before.
  abbrev pub add_queue :
      Option ℕ
      → MessageQueue
      → QueueTable
      → Rebalance S
      → Option PullRequest × (QueueTable × Rebalance S)
  add_queue (some pq) mq table s = (none, (table, s))
  add_queue none mq table s =
      let pq = suc s.allocated in
      let c = compute_pull_from_where mq (record s { allocated = pq }) in
      if ltb_ℤ c.0 (pos 0) then (none, (table, c.1)) else (
        some (record { message_queue = mq; process_queue = pq; next_offset = c.0 }),
        (insert mq pq table, note_master mq c.1),
      )

  unfoldable pub add_loop :
      QueueSet → QueueTable → Rebalance S → List PullRequest × (QueueTable × Rebalance S)
  add_loop [] table s = ([], (table, s))
  add_loop ((mq, _) ∷ mqs) table s =
      let a = add_queue (lookup mq table) mq table s in
      let rest = add_loop mqs a.1.0 a.1.1 in (with_request a.0 rest.0, rest.1)

  -- updateProcessQueueTableInRebalance: whether something changed, the requests dispatched, the table
  -- and the rest of the state.
  unfoldable pub update_process_queue_table_in_rebalance :
      Bytes
      → QueueSet
      → QueueTable
      → Rebalance S
      → Bool × (List PullRequest × (QueueTable × Rebalance S))
  update_process_queue_table_in_rebalance topic mq_set table s =
      let r = remove_loop topic mq_set table s in
      let a = add_loop mq_set r.1.0 r.1.1 in (if r.0 then true else is_nonempty a.0, a)

  -- removeProcessQueue, for a table without NULL, which the code here would dereference
  abbrev pub remove_found :
      Option ℕ → MessageQueue → QueueTable → Rebalance S → QueueTable × Rebalance S
  remove_found none mq table s = (table, s)
  remove_found (some pq) mq table s = (
    erase mq table,
    remove_unnecessary_message_queue mq (record s { droped = s.droped ++ pq ∷ [] }),
  )

  unfoldable pub remove_process_queue :
      MessageQueue → QueueTable → Rebalance S → QueueTable × Rebalance S
  remove_process_queue mq table s = remove_found (lookup mq table) mq table s

-- truncateMessageQueueNotMyTopic: the table, and the process queues dropped. `V` is SubscriptionData.
unfoldable pub truncate_message_queue_not_my_topic :
    {V : Type 0} → Map Bytes V → QueueTable → QueueTable × List ℕ
truncate_message_queue_not_my_topic sub_table [] = ([], [])
truncate_message_queue_not_my_topic sub_table ((mq, pq) ∷ table) =
    let rest = truncate_message_queue_not_my_topic sub_table table in
    if is_found (lookup mq.topic sub_table)
    then ((mq, pq) ∷ rest.0, rest.1)
    else (rest.0, if pq == 0 then rest.1 else pq ∷ rest.1)
