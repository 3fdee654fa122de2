-- ===== src/Consumer/Concurrently.antt =====
-- src/consumer/ConsumeMessageConcurrentlyService.cpp: the consumption of messages in batches, by
-- several threads. What the broker makes of a message that is sent back is a parameter, and so is what
-- the listener returns. Hooks, the consumption times and logging are left out. The messages of the
-- process queue are pointers to those of the requests, but what they point to is read there by nobody
-- in this mode: what is written to a message (its `reconsumeTimes` and topic) is changed in the request only.
pub mod Safe
pub mod Kept
pub mod Batches
mod Tests
use test.Prelude.{
  ℕ, zero, suc, ◌-◌, ◌≡◌, Bytes, Bool, true, false, ◌&&◌, not, Option, none, some, List, [], ◌∷◌,
  ◌++◌, ◌==◌, length, take, drop, if◌then◌else◌,
}
use test.Prelude.Int.{ℤ, pos, minus_one, ltb_ℤ, ◌+ℤ◌, ◌-ℤ◌, pos_part}
use test.SortedMap.{lookup}
use test.SortedMap.Keys.{same_bytes, bytes_order}
use test.Message.MessageExt.{MessageExt}
use test.Message.MessageQueue.{MessageQueue, message_queue_order}
use test.Common.MixAll.{get_retry_topic}
use test.Consumer.Offset.Remote.{OffsetTable, update_offset}
use test.Consumer.ProcessQueue.{ProcessQueue, remove_message}

pub data ConsumeConcurrentlyStatus : Type 0 where
  consume_success reconsume_later : ConsumeConcurrentlyStatus

pub data MessageModel : Type 0 where
  broadcasting clustering : MessageModel

-- What the service changes: the queue, the offset store's table (whose update is the same in both
-- stores), the lists handed to submitConsumeRequestLater, and the counts of messages.
pub record Service : Type 0 where
  pub process_queue : ProcessQueue
  pub offset_table : OffsetTable
  pub submitted_later : List (List MessageExt)
  pub consume_msg_ok_total : ℤ
  pub consume_msg_failed_total : ℤ

-- submitConsumeRequest: the messages of each request. Each has one at least if the batch size is not 0,
-- so that there are no more requests than messages.
unfoldable pub batches : ℕ → ℕ → List MessageExt → List (List MessageExt)
batches zero batch_size msgs = []
batches (suc fuel) batch_size [] = []
batches (suc fuel) batch_size (msg ∷ msgs) =
    take batch_size (msg ∷ msgs) ∷ batches fuel batch_size (drop batch_size (msg ∷ msgs))

unfoldable pub submit_consume_request : ℕ → List MessageExt → List (List MessageExt)
submit_consume_request batch_size msgs = batches (length msgs) batch_size msgs

-- The `ackIndex` by which processConsumeResult goes.
abbrev pub effective_ack_index : ConsumeConcurrentlyStatus → ℤ → ℕ → ℤ
effective_ack_index consume_success ack_index msgs_size =
    if ltb_ℤ ack_index (pos msgs_size) then ack_index else pos msgs_size -ℤ pos 1
effective_ack_index reconsume_later ack_index msgs_size = minus_one

abbrev pub counted : ConsumeConcurrentlyStatus → ℤ → ℕ → Service → Service
counted consume_success ack_index msgs_size s =
    let ok = effective_ack_index consume_success ack_index msgs_size +ℤ pos 1 in
    record s {
      consume_msg_ok_total = s.consume_msg_ok_total +ℤ ok;
      consume_msg_failed_total = s.consume_msg_failed_total +ℤ (pos msgs_size -ℤ ok);
    }
counted reconsume_later ack_index msgs_size s = record s {
  consume_msg_failed_total = s.consume_msg_failed_total +ℤ pos msgs_size;
}

-- The messages after those that are acknowledged: the `for` over them stops at the end of the list.
abbrev pub unacknowledged : ConsumeConcurrentlyStatus → ℤ → List MessageExt → List MessageExt
unacknowledged status ack_index msgs =
    drop (pos_part (effective_ack_index status ack_index (length msgs) +ℤ pos 1)) msgs

-- The messages that the broker does not take back, each consumed once more. The source counts in the
-- object, to which the process queue's tree points, too; the message in the tree keeps its old count here.
unfoldable pub msg_back_failed : (MessageExt → Bool) → List MessageExt → List MessageExt
msg_back_failed send_message_back [] = []
msg_back_failed send_message_back (msg ∷ msgs) =
    let rest = msg_back_failed send_message_back msgs in
    if send_message_back msg
    then rest
    else record msg { reconsume_times = msg.reconsume_times +ℤ pos 1 } ∷ rest

-- *it == *itFailed for one of the list
unfoldable pub is_among : ℕ → List MessageExt → Bool
is_among address [] = false
is_among address (msg ∷ msgs) =
    let rest = is_among address msgs in if address == msg.address then true else rest

unfoldable pub without : List MessageExt → List MessageExt → List MessageExt
without failed [] = []
without failed (msg ∷ msgs) =
    let rest = without failed msgs in if is_among msg.address failed then rest else msg ∷ rest

-- By the messages that failed to go back: those of the request that are left, and the state.
abbrev pub after_back : List MessageExt → List MessageExt → Service → List MessageExt × Service
after_back [] msgs s = (msgs, s)
after_back (f ∷ failed) msgs s = (
  without (f ∷ failed) msgs,
  record s { submitted_later = s.submitted_later ++ (f ∷ failed) ∷ [] },
)

abbrev pub sent_back :
    MessageModel
    → (MessageExt → Bool)
    → List MessageExt
    → List MessageExt
    → Service
    → List MessageExt × Service
sent_back broadcasting send_message_back rest msgs s = (msgs, s)
sent_back clustering send_message_back rest msgs s =
    after_back (msg_back_failed send_message_back rest) msgs s

-- removeMessage, and updateOffset with its result.
unfoldable pub remove_and_update : MessageQueue → List MessageExt → Service → Service
remove_and_update mq msgs s =
    let r = remove_message msgs s.process_queue in
    record s {
      process_queue = r.1;
      offset_table =
          if ltb_ℤ r.0 (pos 0) then s.offset_table else update_offset mq r.0 true s.offset_table;
    }

-- processConsumeResult
unfoldable pub process_consume_result :
    MessageModel
    → (MessageExt → Bool)
    → ConsumeConcurrentlyStatus
    → ℤ
    → MessageQueue
    → List MessageExt
    → Service
    → Service
process_consume_result model send_message_back status ack_index mq [] s = s
process_consume_result model send_message_back status ack_index mq (msg ∷ msgs) s =
    let b =
      sent_back model send_message_back (unacknowledged status ack_index (msg ∷ msgs)) (msg ∷ msgs)
        (counted status ack_index (length (msg ∷ msgs)) s) in
    remove_and_update mq b.0 b.1

-- "RETRY_TOPIC"
abbrev pub property_retry_topic : Bytes
property_retry_topic =
    b'R' ∷ b'E' ∷ b'T' ∷ b'R' ∷ b'Y' ∷ b'_' ∷ b'T' ∷ b'O' ∷ b'P' ∷ b'I' ∷ b'C' ∷ []

abbrev pub or_empty : Option Bytes → Bytes
or_empty none = []
or_empty (some text) = text

abbrev pub with_topic : Bytes → Bytes → MessageExt → MessageExt
with_topic [] group_topic msg = msg
with_topic (c ∷ retry_topic) group_topic msg =
    if same_bytes group_topic msg.topic then record msg { topic = c ∷ retry_topic } else msg

-- resetRetryTopic
unfoldable pub reset_retry_topic : Bytes → List MessageExt → List MessageExt
reset_retry_topic consumer_group [] = []
reset_retry_topic consumer_group (msg ∷ msgs) =
    with_topic (or_empty (lookup property_retry_topic msg.properties))
      (get_retry_topic consumer_group) msg
    ∷ reset_retry_topic consumer_group msgs

-- Do: an exception of the listener, `none`, counts as RECONSUME_LATER with the context's default
-- ackIndex; the listener gets the messages with their topics reset.
abbrev pub listened : Option (ConsumeConcurrentlyStatus × ℤ) → ConsumeConcurrentlyStatus × ℤ
listened none = (reconsume_later, minus_one)
listened (some answer) = answer

unfoldable pub do_request :
    MessageModel
    → (MessageExt → Bool)
    → (List MessageExt → Option (ConsumeConcurrentlyStatus × ℤ))
    → Bytes
    → MessageQueue
    → List MessageExt
    → Service
    → Service
do_request model send_message_back consume_message consumer_group mq msgs s =
    if s.process_queue.droped
    then record s { process_queue = (remove_message msgs s.process_queue).1 }
    else let shown = reset_retry_topic consumer_group msgs in
      let answer = listened (consume_message shown) in
      process_consume_result model send_message_back answer.0 answer.1 mq shown s
