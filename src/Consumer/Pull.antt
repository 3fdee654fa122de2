-- ===== src/Consumer/Pull.antt =====
-- src/consumer/DefaultMQPushConsumerImpl.cpp (pullMessage and the callback of a pull), PullAPIWrapper.cpp and
-- PullMessageService.cpp: the way of a pull request. A request is in one place at a time, so its object is the
-- value of its fields. There is no project group prefix. A pull is `sent` when invokeAsync has started its
-- request, whose callback has the pull request; the broker's answer is an argument of the callback.
pub mod Cases
pub mod Kept
pub mod Lost
pub mod Callback
mod Tests
use test.Prelude.{
  ℕ, suc, ◌+◌, ◌≡◌, Bytes, Bool, true, false, not, ◌&&◌, Option, none, some, List, [], ◌∷◌, ◌++◌,
  ◌==◌, if◌then◌else◌,
}
use test.Prelude.Int.{ℤ, pos, ltb_ℤ, eqb_ℤ}
use test.SortedMap.{Map, lookup, insert, is_empty}
use test.SortedMap.Keys.{bytes_order, same_bytes}
use test.Message.MessageExt.{MessageExt}
use test.Message.MessageQueue.{MessageQueue, message_queue_order}
use test.Common.PullSysFlag.{build_sys_flag, clear_commit_offset_flag}
use test.Consumer.Concurrently.{MessageModel, broadcasting, clustering}
use test.Consumer.ProcessQueue.{ProcessQueue, put_message, get_max_span}
use test.Consumer.Rebalance.{PullRequest, contains}

pub record SubscriptionData : Type 0 where
  pub sub_version : ℤ
  pub tags_set : List Bytes

-- The consumer's settings and what it knows; `running` is m_serviceState == RUNNING.
pub record PushConsumer : Type 0 where
  pub consumer_group : Bytes
  pub running : Bool
  pub pause : Bool
  pub consume_orderly : Bool
  pub message_model : MessageModel
  pub pull_threshold_for_queue : ℤ
  pub consume_concurrently_max_span : ℤ
  pub pull_batch_size : ℤ
  pub pull_interval : ℤ
  pub subscription_inner : Map Bytes SubscriptionData

-- The virtual functions of OffsetStore that are called here.
pub record PullStore (S : Type 0) : Type 0 where
  pub read_from_memory : MessageQueue → S → ℤ × S
  pub update_offset : MessageQueue → ℤ → Bool → S → S

-- findBrokerAddressInSubscribe by the broker's name and an id: an address that is not empty, and whether it is a
-- slave's, before and after updateTopicRouteInfoFromNameServer; and whether there is a connection to an address.
pub record Network : Type 0 where
  pub find_broker : Bytes → ℤ → Option (Bytes × Bool)
  pub find_broker_updated : Bytes → ℤ → Option (Bytes × Bool)
  pub connected : Bytes → Bool

pub record PullMessageRequestHeader : Type 0 where
  pub consumer_group : Bytes
  pub topic : Bytes
  pub queue_id : ℤ
  pub queue_offset : ℤ
  pub max_msg_nums : ℤ
  pub sys_flag : ℕ
  pub commit_offset : ℤ
  pub suspend_timeout_millis : ℤ
  pub subscription : Bytes
  pub sub_version : ℤ

-- A pull that is under way: the address, what is asked for, and the request and the subscription of its callback.
pub record Pull : Type 0 where
  pub addr : Bytes
  pub header : PullMessageRequestHeader
  pub request : PullRequest
  pub subscription_data : SubscriptionData

-- What the functions change: the store, which broker id to pull a queue from, the counters, the topics whose
-- routes were asked for, m_pullRequestQueue, the timers with a request and a delay, and the
-- requests under way and deleted.
pub record Pulling (S : Type 0) : Type 0 where
  pub offset_store : S
  pub pull_from_which_node_table : Map MessageQueue ℤ
  pub flow_control_times1 : ℕ
  pub flow_control_times2 : ℕ
  pub route_updates : List Bytes
  pub pull_request_queue : List PullRequest
  pub later : List (PullRequest × ℤ)
  pub tasks : List (PullRequest × ℤ)
  pub sent : List Pull
  pub deleted : List PullRequest

abbrev pub pull_time_delay_mills_when_exception : ℤ
pull_time_delay_mills_when_exception = pos 3000

abbrev pub pull_time_delay_mills_when_flow_control : ℤ
pull_time_delay_mills_when_flow_control = pos 100

abbrev pub pull_time_delay_mills_when_suspend : ℤ
pull_time_delay_mills_when_suspend = pos 1000

abbrev pub broker_suspend_max_time_millis : ℤ
broker_suspend_max_time_millis = pos 15000

module _ {S : Type 0} where
  abbrev pub execute_pull_request_later : PullRequest → ℤ → Pulling S → Pulling S
  execute_pull_request_later r delay s = record s { later = s.later ++ (r, delay) ∷ [] }

  abbrev pub execute_pull_request_immediately : PullRequest → Pulling S → Pulling S
  execute_pull_request_immediately r s = record s {
    pull_request_queue = s.pull_request_queue ++ r ∷ [];
  }

  abbrev pub execute_task_later : PullRequest → ℤ → Pulling S → Pulling S
  execute_task_later r delay s = record s { tasks = s.tasks ++ (r, delay) ∷ [] }

  -- MixAll::MASTER_ID is 0.
  unfoldable pub recalculate_pull_from_which_node : MessageQueue → Pulling S → ℤ
  recalculate_pull_from_which_node mq s = elim (lookup mq s.pull_from_which_node_table) [
    | none ↦ pos 0
    | some id ↦ id
  ]

  unfoldable pub update_pull_from_which_node : MessageQueue → ℤ → Pulling S → Pulling S
  update_pull_from_which_node mq id s = record s {
    pull_from_which_node_table = insert mq id s.pull_from_which_node_table;
  }

module _ {S : Type 0} (config : PushConsumer) (store : PullStore S) (net : Network) where
  open store use {read_from_memory, update_offset}
  open net use {find_broker, find_broker_updated, connected}

  -- The request of pullKernelImpl.
  abbrev pub pull_of : Bytes → Bool → PullRequest → SubscriptionData → ℕ → ℤ → Pull
  pull_of addr slave r data' sys_flag commit = record {
    addr = addr;
    header = record {
      consumer_group = config.consumer_group;
      topic = r.message_queue.topic;
      queue_id = r.message_queue.queue_id;
      queue_offset = r.next_offset;
      max_msg_nums = config.pull_batch_size;
      sys_flag = if slave then clear_commit_offset_flag sys_flag else sys_flag;
      commit_offset = commit;
      suspend_timeout_millis = broker_suspend_max_time_millis;
      subscription = [];
      sub_version = data'.sub_version;
    };
    request = r;
    subscription_data = data';
  }

  -- The second part of pullKernelImpl, MQClientAPIImpl::pullMessage and pullMessageAsync, which ignores what
  -- invokeAsync returns; `false` is the exception.
  unfoldable pub pull_from :
      Option (Bytes × Bool) → PullRequest → SubscriptionData → ℕ → ℤ → Pulling S → Bool × Pulling S
  pull_from none r data' sys_flag commit s = (false, s)
  pull_from (some (addr, slave)) r data' sys_flag commit s =
      let pull = pull_of addr slave r data' sys_flag commit in
      (true, if connected addr then record s { sent = s.sent ++ pull ∷ [] } else s)

  -- pullKernelImpl, by what is found for the broker at first.
  abbrev pub pull_found :
      Option (Bytes × Bool) → PullRequest → SubscriptionData → ℕ → ℤ → Pulling S → Bool × Pulling S
  pull_found (some found) r data' sys_flag commit s =
      pull_from (some found) r data' sys_flag commit s
  pull_found none r data' sys_flag commit s =
      let mq = r.message_queue in
      pull_from (find_broker_updated mq.broker_name (recalculate_pull_from_which_node mq s)) r data'
        sys_flag commit (record s { route_updates = s.route_updates ++ mq.topic ∷ [] })

  unfoldable pub pull_kernel_impl :
      PullRequest → SubscriptionData → ℕ → ℤ → Pulling S → Bool × Pulling S
  pull_kernel_impl r data' sys_flag commit s =
      let mq = r.message_queue in
      pull_found (find_broker mq.broker_name (recalculate_pull_from_which_node mq s)) r data'
        sys_flag commit s

  -- The offset to be committed, and the store.
  unfoldable pub commit_value : MessageModel → MessageQueue → Pulling S → ℤ × Pulling S
  commit_value broadcasting mq s = (pos 0, s)
  commit_value clustering mq s =
      let r = read_from_memory mq s.offset_store in (r.0, record s { offset_store = r.1 })

  -- An exception of pullKernelImpl is caught.
  abbrev pub unless_thrown : PullRequest → Bool × Pulling S → Pulling S
  unless_thrown r (returned, s) =
      if returned then s else execute_pull_request_later r pull_time_delay_mills_when_exception s

  -- The end of pullMessage, for a topic that is subscribed to.
  unfoldable pub pull_subscribed : PullRequest → SubscriptionData → Pulling S → Pulling S
  pull_subscribed r data' s =
      let c = commit_value config.message_model r.message_queue s in
      unless_thrown r
        (pull_kernel_impl r data' (build_sys_flag (ltb_ℤ (pos 0) c.0) true false) c.0 c.1)

  unfoldable pub pull_unless_unsubscribed :
      Option SubscriptionData → PullRequest → Pulling S → Pulling S
  pull_unless_unsubscribed none r s =
      execute_pull_request_later r pull_time_delay_mills_when_exception s
  pull_unless_unsubscribed (some data') r s = pull_subscribed r data' s

  -- DefaultMQPushConsumerImpl::pullMessage, with the object of the request's process queue.
  unfoldable pub pull_message : ProcessQueue → PullRequest → Pulling S → Pulling S
  pull_message pq r s =
      if pq.droped
      then if is_empty pq.msg_tree_map
        then record s { deleted = s.deleted ++ r ∷ [] }
        else execute_pull_request_later r pull_time_delay_mills_when_exception s
      else if not config.running
      then execute_pull_request_later r pull_time_delay_mills_when_exception s
      else if config.pause
      then execute_pull_request_later r pull_time_delay_mills_when_suspend s
      else if ltb_ℤ config.pull_threshold_for_queue pq.msg_count
      then execute_pull_request_later r pull_time_delay_mills_when_flow_control
          (record s { flow_control_times1 = suc s.flow_control_times1 })
      else if not config.consume_orderly
          && ltb_ℤ config.consume_concurrently_max_span (get_max_span pq)
      then execute_pull_request_later r pull_time_delay_mills_when_flow_control
          (record s { flow_control_times2 = suc s.flow_control_times2 })
      else pull_unless_unsubscribed (lookup r.message_queue.topic config.subscription_inner) r s
