-- ===== src/Consumer/Concurrently/Tests.antt =====
-- Consumption at a concrete queue: messages at the offsets 4, 5 and 6, of which the first is
-- acknowledged and the broker takes back the last.
use test.Prelude.{◌≡◌, refl, [], ◌∷◌, Bool, true, false, some, arith, ◌⊎◌, ◌==◌}
use test.Common.MixAll.{compare_and_increase_only}
use test.Prelude.Int.{ℤ, pos, ◌+ℤ◌, ◌≤ℤ◌}
use test.SortedMap.{lookup, insert, erase}
use test.SortedMap.Keys.{ℤ_order, cmp_bytes}
use test.Message.MessageExt.{MessageExt, message_at}
use test.Message.MessageQueue.{MessageQueue, message_queue_order, compare_to}
use test.Consumer.Offset.Remote.{update_offset}
use test.Consumer.ProcessQueue.{
  ProcessQueue, remove_message, remove_from, erase_all, removal_result,
}
use test.Consumer.Concurrently.{
  Service, clustering, consume_success, process_consume_result, submit_consume_request, is_among,
  msg_back_failed, remove_and_update, without,
}
use test.Consumer.Concurrently.Safe.{NoneBelow, process_consume_result-safe}
use test.Consumer.Concurrently.Kept.{process_consume_result-kept}
use test.Consumer.Concurrently.Batches.{joined, submit_consume_request-joined}

abbrev queue : MessageQueue
queue = record { topic = 116 ∷ []; broker_name = 98 ∷ []; queue_id = pos 0 }

abbrev first_message : MessageExt
first_message = message_at 40 (pos 4)

abbrev lost_message : MessageExt
lost_message = message_at 41 (pos 5)

abbrev last_message : MessageExt
last_message = message_at 42 (pos 6)

abbrev send : MessageExt → Bool
send msg = msg.address == 42

abbrev held : ProcessQueue
held = record {
  msg_tree_map = (pos 4, first_message) ∷ (pos 5, lost_message) ∷ (pos 6, last_message) ∷ [];
  queue_offset_max = pos 6;
  msg_count = pos 3;
  droped = false;
  locked = false;
  last_lock_timestamp = 0;
  consuming = true;
  msg_tree_map_temp = [];
}

abbrev service : Service
service = record {
  process_queue = held;
  offset_table = (queue, pos 4) ∷ [];
  submitted_later = [];
  consume_msg_ok_total = pos 0;
  consume_msg_failed_total = pos 0;
}

held_top : (j : ℤ) (w : MessageExt) → lookup j held.msg_tree_map ≡ some w → j ≤ℤ pos 6
unfolding lookup
held_top j w e = ground arith

recorded :
    lookup queue
      (process_consume_result clustering send consume_success
        (pos 0)
        queue
        (first_message ∷ lost_message ∷ last_message ∷ [])
        service).offset_table
    ≡ some (pos 5)
unfolding process_consume_result remove_and_update remove_message remove_from erase_all
    removal_result without is_among msg_back_failed update_offset lookup insert compare_to cmp_bytes
    ◌+ℤ◌ erase compare_and_increase_only
recorded = refl

process_consume_result-safe_example :
    (lookup queue service.offset_table ≡ some (pos 5))
    ⊎ NoneBelow
        (pos 5)
        (process_consume_result clustering send consume_success
          (pos 0)
          queue
          (first_message ∷ lost_message ∷ last_message ∷ [])
          service).process_queue
process_consume_result-safe_example =
    process_consume_result-safe clustering send consume_success (pos 0) queue
      (first_message ∷ lost_message ∷ last_message ∷ []) service (pos 5)
      ((refl, (refl, tt)), ((refl, tt), (tt, tt))) held_top recorded

process_consume_result-kept_example :
    lookup
      (pos 5)
      (process_consume_result clustering send consume_success
        (pos 0)
        queue
        (first_message ∷ lost_message ∷ last_message ∷ [])
        service).process_queue.msg_tree_map
    ≡ lookup (pos 5) held.msg_tree_map
unfolding ◌+ℤ◌
process_consume_result-kept_example =
    (process_consume_result-kept send consume_success (pos 0) queue lost_message
      (first_message ∷ []) (last_message ∷ []) service refl (omega arith)
      (((λ e. ground arith), ((λ e. ground arith), tt)), (((λ e. ground arith), tt), (tt, tt)))).0

submit_consume_request-joined_example :
    joined (submit_consume_request 2 (first_message ∷ lost_message ∷ last_message ∷ []))
    ≡ first_message ∷ lost_message ∷ last_message ∷ []
submit_consume_request-joined_example =
    (submit_consume_request-joined 2 (first_message ∷ lost_message ∷ last_message ∷ [])
      (omega arith)).0
