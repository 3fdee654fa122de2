-- ===== src/Consumer/Pull/Tests.antt =====
-- A request whose pull is started, one that is lost, and one that is answered.
use test.Prelude.{◌≡◌, ◌⊎◌, inr, refl, arith, Bool, true, false, none, some, [], ◌∷◌}
use test.Prelude.Int.{ℤ, pos}
use test.SortedMap.{lookup, is_empty}
use test.SortedMap.Keys.{cmp_bytes}
use test.Consumer.Concurrently.{clustering}
use test.Consumer.ProcessQueue.{ProcessQueue, new_process_queue, get_max_span}
use test.Consumer.Rebalance.{PullRequest}
use test.Consumer.Pull.{
  SubscriptionData, PushConsumer, PullStore, Network, Pulling, pull_message, commit_value,
}
use test.Consumer.Pull.Cases.{Scheduled, Started, Deleted, Untouched, MayPull}
use test.Consumer.Pull.Kept.{pull_message-placed}
use test.Consumer.Pull.Lost.{pull_message-lost}
use test.Consumer.Pull.Callback.{PullStatus, PullResult, on_success}
use test.Consumer.Pull.Callback.Forwarded.{Forwarded, on_success-Forwarded}

abbrev subscription : SubscriptionData
subscription = record { sub_version = pos 1; tags_set = [] }

abbrev config : PushConsumer
config = record {
  consumer_group = 103 ∷ [];
  running = true;
  pause = false;
  consume_orderly = false;
  message_model = clustering;
  pull_threshold_for_queue = pos 1000;
  consume_concurrently_max_span = pos 2000;
  pull_batch_size = pos 32;
  pull_interval = pos 0;
  subscription_inner = (116 ∷ [], subscription) ∷ [];
}

-- A store that is one offset.
abbrev store : PullStore ℤ
store = record { read_from_memory = λ mq s. (s, s); update_offset = λ mq offset increase s. offset }

abbrev net : Bool → Network
net up = record {
  find_broker = λ name id. some (120 ∷ [], false);
  find_broker_updated = λ name id. none;
  connected = λ addr. up;
}

abbrev request : PullRequest
request = record {
  message_queue = record { topic = 116 ∷ []; broker_name = 98 ∷ []; queue_id = pos 0 };
  process_queue = 1;
  next_offset = pos 5;
}

abbrev initial : Pulling ℤ
initial = record {
  offset_store = pos 5;
  pull_from_which_node_table = [];
  flow_control_times1 = 0;
  flow_control_times2 = 0;
  route_updates = [];
  pull_request_queue = [];
  later = [];
  tasks = [];
  sent = [];
  deleted = [];
}

abbrev queue : ProcessQueue
queue = new_process_queue 0

queue-MayPull : MayPull config queue
unfolding new_process_queue get_max_span
queue-MayPull = (refl, refl, refl, ground arith, inr (ground arith))

pull_message-placed_example :
    let t = pull_message config store (net true) queue request initial in
    (Scheduled request initial t
      ⊎ ((Started request initial t × MayPull config queue)
          ⊎ (Deleted request initial t
              × (queue.droped ≡ true)
              × (is_empty queue.msg_tree_map ≡ true))))
    × Untouched initial t
pull_message-placed_example =
    pull_message-placed config store (net true) (λ addr. refl) queue request initial

pull_message-lost_example :
    pull_message config store (net false) queue request initial
    ≡ (commit_value config store (net false) config.message_model request.message_queue initial).1
unfolding lookup cmp_bytes
pull_message-lost_example =
    pull_message-lost config store (net false) queue (120 ∷ []) false request subscription initial
      queue-MayPull refl refl refl

abbrev answer : PullResult
answer = record {
  pull_status = PullStatus.no_new_msg;
  next_begin_offset = pos 6;
  min_offset = pos 0;
  max_offset = pos 6;
  suggest_which_broker_id = pos 0;
  messages = [];
}

on_success-Forwarded_example :
    let o = on_success (λ n. []) config store subscription answer request queue initial in
    Forwarded config answer.pull_status (record request { next_offset = pos 6 }) initial o.pulling
    × (o.pulling.sent ≡ [])
    × (o.pulling.deleted ≡ [])
on_success-Forwarded_example =
    on_success-Forwarded (λ n. []) config store subscription answer request queue initial
