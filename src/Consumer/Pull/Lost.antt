-- ===== src/Consumer/Pull/Lost.antt =====
-- What pullMessage does without a connection to the broker.
use test.Prelude.{◌≡◌, inl, inr, refl, ◌∙◌, arith, Bytes, Bool, true, false, not, ◌&&◌, some}
use test.Prelude.Int.{pos, ltb_ℤ}
use test.SortedMap.{lookup}
use test.SortedMap.Keys.{bytes_order}
use test.Message.MessageQueue.{message_queue_order}
use test.Common.PullSysFlag.{build_sys_flag}
use test.Consumer.Concurrently.{MessageModel, broadcasting, clustering}
use test.Consumer.ProcessQueue.{ProcessQueue, get_max_span}
use test.Consumer.Rebalance.{PullRequest}
use test.Consumer.Pull.{
  unless_thrown, SubscriptionData, PushConsumer, PullStore, Network, Pulling, pull_from,
  pull_kernel_impl, commit_value, pull_subscribed, pull_unless_unsubscribed, pull_message,
  recalculate_pull_from_which_node,
}
use test.Consumer.Pull.Cases.{MayPull}

module _ {S : Type 0} (config : PushConsumer) (store : PullStore S) (net : Network) where
  lost :
      (addr : Bytes) (slave : Bool) (r : PullRequest) (data' : SubscriptionData) (m : MessageModel)
      (s : Pulling S)
      → net.find_broker r.message_queue.broker_name
          (recalculate_pull_from_which_node r.message_queue s)
        ≡ some (addr, slave)
      → net.connected addr ≡ false
      → let c = commit_value config store net m r.message_queue s in
        unless_thrown config store net r (
          pull_kernel_impl config store net r data'
            (build_sys_flag (ltb_ℤ (pos 0) c.0) true false)
            c.0
            c.1)
        ≡ c.1
  unfolding pull_kernel_impl pull_from commit_value recalculate_pull_from_which_node
  lost addr slave r data' broadcasting s f d = rw f (rw d refl)
  lost addr slave r data' clustering s f d = rw f (rw d refl)

  -- When the consumer may pull, the topic is subscribed to and the broker is found, but there is no
  -- connection to it, then pullMessage changes nothing but the store that it reads the offset from: no pull
  -- is started with the request, and it is neither put off nor deleted.
  pub pull_message-lost :
      (pq : ProcessQueue) (addr : Bytes) (slave : Bool) (r : PullRequest) (data' : SubscriptionData)
      (s : Pulling S)
      → MayPull config pq
      → lookup r.message_queue.topic config.subscription_inner ≡ some data'
      → net.find_broker r.message_queue.broker_name
          (recalculate_pull_from_which_node r.message_queue s)
        ≡ some (addr, slave)
      → net.connected addr ≡ false
      → pull_message config store net pq r s
        ≡ (commit_value config store net config.message_model r.message_queue s).1
  unfolding pull_message pull_unless_unsubscribed pull_subscribed
  pull_message-lost pq addr slave r data' s m k f d =
      reached ∙ lost addr slave r data' config.message_model s f d
    where
      narrow :
          (not config.consume_orderly
            && ltb_ℤ config.consume_concurrently_max_span (get_max_span pq))
          ≡ false
      narrow = elim m.4 [ inl e ↦ ground (arith, e) | inr e ↦ ground (arith, e) ]

      few : ltb_ℤ config.pull_threshold_for_queue pq.msg_count ≡ false
      few = ground (arith, m.3)

      reached :
          pull_message config store net pq r s
          ≡ unless_thrown config store net r (
              pull_kernel_impl config store net r data'
                (build_sys_flag
                  (ltb_ℤ
                    (pos 0)
                    (commit_value config store net config.message_model r.message_queue s).0)
                  true
                  false)
                (commit_value config store net config.message_model r.message_queue s).0
                (commit_value config store net config.message_model r.message_queue s).1)
      reached = ground (arith, m.0, m.1, m.2, few, narrow, k)
