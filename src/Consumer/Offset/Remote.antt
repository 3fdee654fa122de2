-- ===== src/Consumer/Offset/Remote.antt =====
-- src/consumer/RemoteBrokerOffsetStore.cpp: the offsets of a consumer group that its brokers keep. The
-- store has no lock; the model assumes that its methods are called by one thread at a time, so an AtomicLong of the table is a number, and
-- compareAndIncreaseOnly meets no other writer. Logging and the count of the persists, which only
-- decides what is logged, are left out.
pub mod Memory
pub mod Persist
use test.Prelude.{ℕ, Bytes, Bool, true, false, Option, none, some, List, [], ◌∷◌, if◌then◌else◌}
use test.Prelude.Int.{ℤ, pos, negsuc, minus_one}
use test.SortedMap.{Map, lookup, insert, erase}
use test.Message.MessageQueue.{MessageQueue, message_queue_order}
use test.Common.MixAll.{compare_and_increase_only}

pub data ReadOffsetType : Type 0 where
  read_from_memory read_from_store memory_first_then_store : ReadOffsetType

-- How a call ends: with a value, an MQBrokerException or another MQException.
pub data Outcome {ℓ} (A : Type ℓ) : Type ℓ where
  returns : A → Outcome A
  throws_broker throws_client : Outcome A

-- What the store asks of the client factory and its API: findBrokerAddressInAdmin before and after
-- updateTopicRouteInfoFromNameServer, the query of an offset at an address (with the consumer group)
-- and the oneway request that updates one.
pub record Brokers : Type 0 where
  pub address : MessageQueue → Bytes
  pub address_after_update : MessageQueue → Bytes
  pub query_consumer_offset : Bytes → Bytes → MessageQueue → Outcome ℤ
  pub update_consumer_offset_oneway : Bytes → MessageQueue → ℤ → Outcome (Unit {0})

abbrev pub OffsetTable : Type 0
OffsetTable = Map MessageQueue ℤ

-- updateOffset: a queue that the table lacks gets the offset, and then the same code runs as for one
-- that it has.
abbrev pub update_found : Option ℤ → MessageQueue → ℤ → Bool → OffsetTable → OffsetTable
update_found none mq offset increase_only table = table
update_found (some current) mq offset increase_only table =
    if increase_only
    then insert mq (compare_and_increase_only current offset []).1 table
    else insert mq offset table

abbrev pub or_inserted : Option ℤ → MessageQueue → ℤ → OffsetTable → OffsetTable
or_inserted none mq offset table = insert mq offset table
or_inserted (some _) mq offset table = table

unfoldable pub update_offset : MessageQueue → ℤ → Bool → OffsetTable → OffsetTable
update_offset mq offset increase_only table =
    let present = or_inserted (lookup mq table) mq offset table in
    update_found (lookup mq present) mq offset increase_only present

abbrev is_empty_text : Bytes → Bool
is_empty_text [] = true
is_empty_text (_ ∷ _) = false

-- The broker's address, asked for again after an update of the route if it is empty.
unfoldable pub find_address : Brokers → MessageQueue → Bytes
find_address b mq = if is_empty_text (b.address mq) then b.address_after_update mq else b.address mq

-- fetchConsumeOffsetFromBroker; "The broker[..] not exist" is an MQClientException.
unfoldable pub fetch_consume_offset_from_broker : Brokers → Bytes → MessageQueue → Outcome ℤ
unfolding find_address
fetch_consume_offset_from_broker b group mq =
    let address = find_address b mq in
    if is_empty_text address then throws_client else b.query_consumer_offset address group mq

-- updateConsumeOffsetToBroker
unfoldable pub update_consume_offset_to_broker : Brokers → MessageQueue → ℤ → Outcome (Unit {0})
unfolding find_address
update_consume_offset_to_broker b mq offset =
    let address = find_address b mq in
    if is_empty_text address
    then throws_client
    else b.update_consumer_offset_oneway address mq offset

-- ReadOffsetByGroup: an MQBrokerException is -1, any other goes on to the caller.
abbrev pub broker_minus_one : Outcome ℤ → Outcome ℤ
broker_minus_one throws_broker = returns minus_one
broker_minus_one other = other

unfoldable pub read_offset_by_group : Brokers → Bytes → MessageQueue → Outcome ℤ
unfolding find_address
read_offset_by_group b group mq =
    let address = find_address b mq in
    if is_empty_text address
    then throws_client
    else broker_minus_one (b.query_consumer_offset address group mq)

abbrev pub stored : Outcome ℤ → MessageQueue → OffsetTable → ℤ × OffsetTable
stored (returns offset) mq table = (offset, update_offset mq offset false table)
stored throws_broker mq table = (minus_one, table)
stored throws_client mq table = (negsuc 1, table)

unfoldable pub read_from_broker : Brokers → Bytes → MessageQueue → OffsetTable → ℤ × OffsetTable
unfolding fetch_consume_offset_from_broker
read_from_broker b group mq table = stored (fetch_consume_offset_from_broker b group mq) mq table

-- readOffset: its result and the table afterwards.
abbrev pub read_found :
    Option ℤ → Brokers → Bytes → MessageQueue → ReadOffsetType → OffsetTable → ℤ × OffsetTable
read_found found b group mq read_from_store table = read_from_broker b group mq table
read_found (some offset) b group mq read_from_memory table = (offset, table)
read_found (some offset) b group mq memory_first_then_store table = (offset, table)
read_found none b group mq read_from_memory table = (minus_one, table)
read_found none b group mq memory_first_then_store table = read_from_broker b group mq table

unfoldable pub read_offset :
    Brokers → Bytes → MessageQueue → ReadOffsetType → OffsetTable → ℤ × OffsetTable
read_offset b group mq type table = read_found (lookup mq table) b group mq type table

-- removeOffset
unfoldable pub remove_offset : MessageQueue → OffsetTable → OffsetTable
remove_offset mq table = erase mq table

-- A set of queues is a map to `Unit`.
abbrev pub QueueSet : Type 0
QueueSet = Map MessageQueue (Unit {0})

abbrev pub is_found {ℓ} : {A : Type ℓ} → Option A → Bool
is_found none = false
is_found (some _) = true

-- An update that reached the broker: it threw nothing.
abbrev pub sent_if :
    Outcome (Unit {0}) → MessageQueue → ℤ → List (MessageQueue × ℤ) → List (MessageQueue × ℤ)
sent_if (returns _) mq offset rest = (mq, offset) ∷ rest
sent_if throws_broker mq offset rest = rest
sent_if throws_client mq offset rest = rest

-- The loop of persistAll over the table: what was sent, and the queues that are not used.
unfoldable pub persist_loop :
    Brokers → QueueSet → OffsetTable → List (MessageQueue × ℤ) × List MessageQueue
persist_loop b mqs [] = ([], [])
persist_loop b mqs ((mq, offset) ∷ table) =
    let rest = persist_loop b mqs table in
    if is_found (lookup mq mqs)
    then (sent_if (update_consume_offset_to_broker b mq offset) mq offset rest.0, rest.1)
    else (rest.0, mq ∷ rest.1)

unfoldable pub erase_unused : List MessageQueue → OffsetTable → OffsetTable
erase_unused [] table = table
erase_unused (mq ∷ mqs) table = erase_unused mqs (erase mq table)

-- persistAll: the updates that were sent, and the table afterwards.
unfoldable pub persist_all :
    Brokers → QueueSet → OffsetTable → List (MessageQueue × ℤ) × OffsetTable
unfolding persist_loop erase_unused
persist_all b [] table = ([], table)
persist_all b (q ∷ mqs) table =
    let done = persist_loop b (q ∷ mqs) table in (done.0, erase_unused done.1 table)

abbrev pub sent_found : Option ℤ → Brokers → MessageQueue → List (MessageQueue × ℤ)
sent_found none b mq = []
sent_found (some offset) b mq = sent_if (update_consume_offset_to_broker b mq offset) mq offset []

-- persist
unfoldable pub persist : Brokers → MessageQueue → OffsetTable → List (MessageQueue × ℤ)
persist b mq table = sent_found (lookup mq table) b mq
