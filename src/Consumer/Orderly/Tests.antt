-- ===== src/Consumer/Orderly/Tests.antt =====
-- Rounds at a concrete queue, and the delays of submitConsumeRequestLater.
use test.Prelude.{◌≡◌, refl, [], ◌∷◌, true, false, none, some, arith}
use test.Prelude.Int.{pos, negsuc}
use test.SortedMap.{insert}
use test.Message.MessageExt.{message_at}
use test.Message.MessageQueue.{MessageQueue}
use test.Consumer.Concurrently.{clustering}
use test.Consumer.ProcessQueue.{
  ProcessQueue, take_messags, take_loop, rollback, is_lock_expired, restore,
}
use test.Consumer.Orderly.{
  OrderlyService, Round, success_status, clamped, do_orderly, consume_round, process_orderly_result,
}
use test.Consumer.Orderly.Rounds.{do_orderly-ends, consume_round-suspend}

abbrev queue : MessageQueue
queue = record { topic = 116 ∷ []; broker_name = 98 ∷ []; queue_id = pos 0 }

abbrev held : ProcessQueue
held = record {
  msg_tree_map = (pos 4, message_at 40 (pos 4)) ∷ (pos 5, message_at 41 (pos 5)) ∷ [];
  queue_offset_max = pos 5;
  msg_count = pos 2;
  droped = false;
  locked = true;
  last_lock_timestamp = 1000;
  consuming = true;
  msg_tree_map_temp = [];
}

abbrev service : OrderlyService
service = record {
  process_queue = held;
  offset_table = [];
  timers = [];
  consume_msg_ok_total = pos 0;
  consume_msg_failed_total = pos 0;
  deleted = [];
}

abbrev failing : Round
failing = record {
  now = 2000;
  consume_message =
      λ msgs. (none, record { auto_commit = true; suspend_current_queue_time_millis = pos 0 });
}

too_short : clamped (negsuc 4) ≡ pos 10
unfolding clamped
too_short = refl

too_long : clamped (pos 90000) ≡ pos 30000
unfolding clamped
too_long = refl

consume_round-suspend_example :
    (consume_round clustering (pos 1) 1500 queue failing service).1.process_queue.msg_tree_map
    ≡ held.msg_tree_map
consume_round-suspend_example =
    (consume_round-suspend clustering (pos 1) 1500 queue failing service ((refl, tt), (tt, tt))
      (refl, (refl, tt)) refl (λ msgs. refl)).1

do_orderly-ends_example :
    (s' : OrderlyService) × (do_orderly 3 clustering (pos 1) 1500 queue (λ n. failing) service
      ≡ some s')
do_orderly-ends_example =
    do_orderly-ends 3 clustering (pos 1) 1500 queue (λ n. failing) service (omega arith)

-- A listener that says SUCCESS without the automatic commit.
abbrev uncommitted : Round
uncommitted = record {
  now = 2000;
  consume_message = λ msgs. (
    some success_status,
    record { auto_commit = false; suspend_current_queue_time_millis = pos 0 },
  );
}

-- Its messages are deleted, and a rollback puts them back all the same.
deleted_and_restored :
    let s' = (consume_round clustering (pos 2) 1500 queue uncommitted service).1 in
    (s'.deleted ≡ message_at 40 (pos 4) ∷ message_at 41 (pos 5) ∷ [])
    × ((rollback s'.process_queue).msg_tree_map ≡ held.msg_tree_map)
unfolding consume_round process_orderly_result take_messags take_loop insert rollback
    is_lock_expired restore
deleted_and_restored = (refl, refl)
