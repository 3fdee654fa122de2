-- ===== src/Producer/Send/Tests.antt =====
-- A send at two brokers, of which the first does not answer, and the choice of queues.
use test.Prelude.{
  List, ◌++◌, ◌+◌, length, ℕ, zero, suc, ◌≡◌, refl, [], ◌∷◌, true, none, length, ◌≤◌,
}
use test.Prelude.Int.{pos, negsuc, ◌+ℤ◌}
use test.SortedMap.{lookup, insert}
use test.SortedMap.Keys.{bytes_order, cmp_bytes, same_bytes}
use test.Message.MessageQueue.{MessageQueue}
use test.Producer.Send.{
  TopicPublishInfo, PublishTable, Sender, Try, send_ok, sync, Kernel, returns,
  select_one_message_queue, select_loop, send_default_impl, send_loop, try_to_find_topic_publish_mq,
  after_try,
}
use test.Producer.Send.Retry.{Alternate, send_default_impl-Alternate, send_default_impl-Ended}

abbrev queue_on : ℕ → ℕ → MessageQueue
queue_on broker n = record { topic = 116 ∷ []; broker_name = broker ∷ []; queue_id = pos n }

abbrev info : TopicPublishInfo
info = record {
  message_queue_list = queue_on 97 0 ∷ queue_on 97 1 ∷ queue_on 98 0 ∷ [];
  send_which_queue = pos 0;
}

abbrev table : PublishTable
table = (116 ∷ [], info) ∷ []

abbrev sender : Sender
sender = record {
  topic = 116 ∷ [];
  mode = sync;
  retry_another_broker_when_not_store_ok = true;
  send_msg_timeout = 3000;
  begin_timestamp = 10;
  name_server_address_list = (99 ∷ []) ∷ [];
}

abbrev first_fails : ℕ → Kernel
first_fails zero = Kernel.sends send_ok
first_fails (suc zero) = Kernel.sends send_ok
first_fails (suc (suc n)) = Kernel.remoting_exception

abbrev attempts : ℕ → Try
attempts n = record {
  update = λ t. t;
  update_default = λ t. t;
  send = λ mq. first_fails n;
  end_timestamp = 20;
}

sent_second :
    send_default_impl sender attempts table ≡ (queue_on 97 0 ∷ queue_on 98 0 ∷ [], returns send_ok)
unfolding send_default_impl send_loop try_to_find_topic_publish_mq select_one_message_queue
    select_loop after_try lookup insert cmp_bytes same_bytes ◌+ℤ◌
sent_second = refl

send_default_impl-Alternate_example :
    Alternate [] (send_default_impl sender attempts table).0
    × (length (send_default_impl sender attempts table).0 ≤ 3)
send_default_impl-Alternate_example = send_default_impl-Alternate sender attempts table

send_default_impl-Ended_example :
    (send_ok ≡ send_ok)
    × (before : List MessageQueue) × (mq : MessageQueue) × (k : ℕ) × ((send_default_impl sender
          attempts table).0
        ≡ before ++ mq ∷ [])
    × (k + length (send_default_impl sender attempts table).0 ≡ 3)
    × ((attempts k).send mq ≡ Kernel.sends send_ok)
send_default_impl-Ended_example =
    (send_default_impl-Ended sender attempts refl refl table).1 send_ok (ap_of sent_second)
  where
    ap_of :
        send_default_impl sender attempts table
          ≡ (queue_on 97 0 ∷ queue_on 98 0 ∷ [], returns send_ok)
        → (send_default_impl sender attempts table).1 ≡ returns send_ok
    ap_of e = rw e refl

-- With a counter that is about to pass 0 from below, the only queue of the other broker is missed.
missed : (select_one_message_queue (97 ∷ []) (record info { send_which_queue = negsuc 0 })).0 ≡ none
unfolding select_one_message_queue select_loop same_bytes ◌+ℤ◌
missed = refl
