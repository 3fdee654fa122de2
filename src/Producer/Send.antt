-- ===== src/Producer/Send.antt =====
-- src/producer/TopicPublishInfo.h and DefaultMQProducerImpl.cpp: the choice of a queue for a message,
-- and the loop that sends it. What sendKernelImpl does in a try, the update of the topic's route that
-- another component makes, and the clock are parameters, one of each for every try. Checks before the
-- loop and logging are left out. The counter of a topic is an `int` whose absolute value exists.
pub mod Choice
pub mod Retry
mod Tests
use test.Prelude.{
  ℕ, zero, suc, ◌+◌, ◌%◌, ◌<◌, ◌≡◌, Bytes, Bool, true, false, not, Option, none, some, List, [],
  ◌∷◌, length, get_elem?, ◌==◌, ◌||◌, ltb, if◌then◌else◌,
}
use test.Prelude.Int.{ℤ, pos, negsuc, ◌+ℤ◌}
use test.SortedMap.{Map, lookup, insert}
use test.SortedMap.Keys.{same_bytes, bytes_order}
use test.Message.MessageQueue.{MessageQueue}

-- The counter of the source is 32 bits wide and wraps; here it has no bound.
pub record TopicPublishInfo : Type 0 where
  pub message_queue_list : List MessageQueue
  pub send_which_queue : ℤ

-- abs
abbrev pub abs : ℤ → ℕ
abs (pos n) = n
abs (negsuc n) = suc n

abbrev pub next_of : TopicPublishInfo → TopicPublishInfo
next_of info = record info { send_which_queue = info.send_which_queue +ℤ pos 1 }

-- The loop over the queues of other brokers, with the rounds that are left.
abbrev pub another_broker : Option MessageQueue → Bytes → Option MessageQueue → Option MessageQueue
another_broker none last rest = rest
another_broker (some mq) last rest = if same_bytes mq.broker_name last then rest else some mq

unfoldable pub select_loop : ℕ → ℤ → Bytes → List MessageQueue → Option MessageQueue
select_loop zero index last queues = none
select_loop (suc n) index last queues =
    another_broker (get_elem? queues (abs index % length queues)) last
      (select_loop n (index +ℤ pos 1) last queues)

-- selectOneMessageQueue; NULL is `none`.
unfoldable pub select_one_message_queue :
    Bytes → TopicPublishInfo → Option MessageQueue × TopicPublishInfo
select_one_message_queue (c ∷ last) info = (
  select_loop (length info.message_queue_list) info.send_which_queue (c ∷ last)
      info.message_queue_list,
  next_of info,
)
select_one_message_queue [] info =
    if ltb 0 (length info.message_queue_list)
    then (
      get_elem? info.message_queue_list
          (abs info.send_which_queue % length info.message_queue_list),
      next_of info,
    )
    else (none, info)

abbrev pub PublishTable : Type 0
PublishTable = Map Bytes TopicPublishInfo

-- TopicPublishInfo::ok
abbrev pub is_ok : Option TopicPublishInfo → Bool
is_ok none = false
is_ok (some info) = ltb 0 (length info.message_queue_list)

abbrev pub no_info : TopicPublishInfo
no_info = record { message_queue_list = []; send_which_queue = pos 0 }

-- The selection from an entry of the table, which is changed there.
abbrev pub select_from :
    Option TopicPublishInfo → Bytes → Bytes → PublishTable → Option MessageQueue × PublishTable
select_from none topic last table = (none, table)
select_from (some info) topic last table =
    let s = select_one_message_queue last info in (s.0, insert topic s.1 table)

-- tryToFindTopicPublishMq, with updateTopicRouteInfoFromNameServer for the topic, and then for the
-- default topic, as changes of the table; the queue without a topic is `none`. The last step reads the
-- entry without a test: the first has put one in, and the updates remove none.
unfoldable pub try_to_find_topic_publish_mq :
    (PublishTable → PublishTable)
    → (PublishTable → PublishTable)
    → Bytes
    → Bytes
    → PublishTable
    → Option MessageQueue × PublishTable
try_to_find_topic_publish_mq update update_default topic last table =
    let updated = update (insert topic no_info table) in
    let defaulted = update_default updated in
    if is_ok (lookup topic table)
    then select_from (lookup topic table) topic last table
    else if is_ok (lookup topic updated)
    then select_from (lookup topic updated) topic last updated
    else select_from (lookup topic defaulted) topic last defaulted

pub data CommunicationMode : Type 0 where
  sync async oneway : CommunicationMode

pub data SendStatus : Type 0 where
  send_ok flush_disk_timeout flush_slave_timeout slave_not_available : SendStatus

-- How sendKernelImpl ends: with a result, or one of the exceptions, the broker's with its code.
pub data Kernel : Type 0 where
  sends : SendStatus → Kernel
  remoting_exception client_exception interrupted_exception : Kernel
  broker_exception : ℕ → Kernel

-- How sendDefaultImpl ends.
pub data SendEnd : Type 0 where
  returns : SendStatus → SendEnd
  rethrows_broker : ℕ → SendEnd
  rethrows_interrupted retry_many_times no_name_server no_route_info : SendEnd

pub record Try : Type 0 where
  pub update : PublishTable → PublishTable
  pub update_default : PublishTable → PublishTable
  pub send : MessageQueue → Kernel
  pub end_timestamp : ℕ

pub record Sender : Type 0 where
  pub topic : Bytes
  pub mode : CommunicationMode
  pub retry_another_broker_when_not_store_ok : Bool
  pub send_msg_timeout : ℕ
  pub begin_timestamp : ℕ
  pub name_server_address_list : List Bytes

-- TOPIC_NOT_EXIST, SERVICE_NOT_AVAILABLE, SYSTEM_ERROR and NO_PERMISSION
abbrev pub is_retried : ℕ → Bool
is_retried code = (code == 17) || (code == 14) || (code == 1) || (code == 16)

-- What follows a try: the next round, or an end.
pub data Next : Type 0 where
  continues : Next
  ends : SendEnd → Next

unfoldable pub after_try : Sender → Kernel → Next
after_try s (sends send_ok) = ends (returns send_ok)
after_try s (sends status) = elim s.mode [
  | CommunicationMode.sync ↦
      if s.retry_another_broker_when_not_store_ok then continues else ends (returns status)
  | _ ↦ ends (returns status)
]
after_try s remoting_exception = continues
after_try s client_exception = continues
after_try s interrupted_exception = ends rethrows_interrupted
after_try s (broker_exception code) =
    if is_retried code then continues else ends (rethrows_broker code)

-- What follows the loop where it has not been left by a return or a throw; `left` rounds are left.
abbrev pub after_loop : ℕ → List Bytes → SendEnd
after_loop zero ns = retry_many_times
after_loop (suc left) [] = no_name_server
after_loop (suc left) (n ∷ ns) = no_route_info

-- The loop: the queues tried, and the end. `n` rounds are left of three.
abbrev pub with_queue : MessageQueue → List MessageQueue × SendEnd → List MessageQueue × SendEnd
with_queue mq r = (mq ∷ r.0, r.1)

abbrev pub by_next : Next → MessageQueue → List MessageQueue × SendEnd → List MessageQueue × SendEnd
by_next (ends e) mq rest = (mq ∷ [], e)
by_next continues mq rest = with_queue mq rest

abbrev pub tried :
    Sender
    → Try
    → Option MessageQueue
    → SendEnd
    → (MessageQueue → List MessageQueue × SendEnd)
    → List MessageQueue × SendEnd
tried s t none stopped rest = ([], stopped)
tried s t (some mq) stopped rest = by_next (after_try s (t.send mq)) mq (rest mq)

unfoldable pub send_loop :
    ℕ → Sender → (ℕ → Try) → ℕ → Bytes → PublishTable → List MessageQueue × SendEnd
send_loop zero s tries now last table = ([], retry_many_times)
send_loop (suc n) s tries now last table =
    let t = tries n in
    let found = try_to_find_topic_publish_mq t.update t.update_default s.topic last table in
    let stopped = after_loop (suc n) s.name_server_address_list in
    let rest : MessageQueue → List MessageQueue × SendEnd =
      λ mq. send_loop n s tries t.end_timestamp mq.broker_name found.1 in
    if ltb now (s.begin_timestamp + s.send_msg_timeout)
    then tried s t found.0 stopped rest
    else ([], stopped)

-- sendDefaultImpl
unfoldable pub send_default_impl : Sender → (ℕ → Try) → PublishTable → List MessageQueue × SendEnd
send_default_impl s tries table = send_loop 3 s tries s.begin_timestamp [] table
