-- ===== src/Consumer/Pull/Kept.antt =====
-- What pullMessage does with the request that it is given.
use test.Prelude.{
  suc, ◌≡◌, ◌⊎◌, inl, inr, refl, sym, ap, subst, arith, Bytes, Bool, true, false, not, ◌&&◌, Option,
  none, some, [], ◌∷◌, ◌++◌, Bool-cases,
}
use test.Prelude.Int.{ℤ, ltb_ℤ, ◌≤ℤ◌}
use test.SortedMap.{lookup, is_empty}
use test.SortedMap.Keys.{bytes_order}
use test.Message.MessageQueue.{message_queue_order}
use test.Consumer.ProcessQueue.{ProcessQueue, get_max_span}
use test.Consumer.Rebalance.{PullRequest}
use test.Consumer.Pull.{
  execute_pull_request_later, pull_time_delay_mills_when_exception,
  pull_time_delay_mills_when_suspend, pull_time_delay_mills_when_flow_control, SubscriptionData,
  PushConsumer, PullStore, Network, Pulling, pull_subscribed, pull_unless_unsubscribed,
  pull_message,
}
use test.Consumer.Pull.Cases.{Scheduled, Started, Deleted, Untouched, MayPull, pull_subscribed-Goes}

module _ {S : Type 0} (config : PushConsumer) (store : PullStore S) (net : Network)
    (up : (addr : Bytes) → net.connected addr ≡ true) where
  abbrev Placed : PushConsumer → ProcessQueue → PullRequest → Pulling S → Pulling S → Type 0
  Placed cfg pq r s t =
      (Scheduled r s t
        ⊎ ((Started r s t × MayPull cfg pq)
            ⊎ (Deleted r s t × (pq.droped ≡ true) × (is_empty pq.msg_tree_map ≡ true))))
      × Untouched s t

  put_off :
      (pq : ProcessQueue) (r : PullRequest) (delay : ℤ) (s t : Pulling S)
      → t.later ≡ s.later
      → t.sent ≡ s.sent
      → t.deleted ≡ s.deleted
      → Untouched s t
      → Placed config pq r s (execute_pull_request_later r delay t)
  put_off pq r delay s t l e d u = (inl (delay, ap (λ x. x ++ (r, delay) ∷ []) l, e, d), u)

  subscribed-Placed :
      (pq : ProcessQueue) (found : Option SubscriptionData) (r : PullRequest) (s : Pulling S)
      → MayPull config pq
      → Placed config pq r s (pull_unless_unsubscribed config store net found r s)
  unfolding pull_unless_unsubscribed pull_subscribed
  subscribed-Placed pq none r s m =
      put_off pq r pull_time_delay_mills_when_exception s s refl refl refl (refl, refl)
  subscribed-Placed pq (some data') r s m =
      let g = pull_subscribed-Goes config store net up config.message_model r data' s in
      elim g.0 [ inl e ↦ (inl e, g.1) | inr e ↦ (inr (inl (e, m)), g.1) ]

  -- pullMessage keeps every request, where there is a connection to each broker: it is put off for a time;
  -- or a pull is started with it, from its offset, and then the consumer may pull now; or it is deleted,
  -- and then its queue has been dropped and holds no message.
  pub pull_message-placed :
      (pq : ProcessQueue) (r : PullRequest) (s : Pulling S)
      → let t = pull_message config store net pq r s in
        (Scheduled r s t
          ⊎ ((Started r s t × MayPull config pq)
              ⊎ (Deleted r s t × (pq.droped ≡ true) × (is_empty pq.msg_tree_map ≡ true))))
        × Untouched s t
  unfolding pull_message
  pull_message-placed pq r s = elim (Bool-cases pq.droped) [
    | inl d ↦ elim (Bool-cases (is_empty pq.msg_tree_map)) [
      | inl e ↦
          placed (record s { deleted = s.deleted ++ r ∷ [] }) (ground (arith, d, e))
            (inr (inr ((refl, refl, refl), d, e)), (refl, refl))
      | inr e ↦
          later pull_time_delay_mills_when_exception s (ground (arith, d, e)) refl refl refl
            (refl, refl)
    ]
    | inr d ↦ elim (Bool-cases config.running) [
      | inr n ↦
          later pull_time_delay_mills_when_exception s (ground (arith, d, n)) refl refl refl
            (refl, refl)
      | inl n ↦ elim (Bool-cases config.pause) [
        | inl p ↦
            later pull_time_delay_mills_when_suspend s (ground (arith, d, n, p)) refl refl refl
              (refl, refl)
        | inr p ↦ elim (Bool-cases (ltb_ℤ config.pull_threshold_for_queue pq.msg_count)) [
          | inl l ↦
              later pull_time_delay_mills_when_flow_control
                (record s { flow_control_times1 = suc s.flow_control_times1 })
                (ground (arith, d, n, p, l)) refl refl refl (refl, refl)
          | inr l ↦ elim (Bool-cases too_wide) [
            | inl w ↦
                later pull_time_delay_mills_when_flow_control
                  (record s { flow_control_times2 = suc s.flow_control_times2 })
                  (ground (arith, d, n, p, l, w)) refl refl refl (refl, refl)
            | inr w ↦
                placed (pull_unless_unsubscribed config store net found r s)
                  (ground (arith, d, n, p, l, w))
                  (subscribed-Placed pq found r s (d, n, p, ground (arith, l), span w))
          ]
        ]
      ]
    ]
  ]
    where
      found : Option SubscriptionData
      found = lookup r.message_queue.topic config.subscription_inner

      too_wide : Bool
      too_wide =
          not config.consume_orderly && ltb_ℤ config.consume_concurrently_max_span (get_max_span pq)

      span :
          too_wide ≡ false
          → (config.consume_orderly ≡ true)
            ⊎ (get_max_span pq ≤ℤ config.consume_concurrently_max_span)
      span w = elim (Bool-cases config.consume_orderly) [
        | inl e ↦ inl e
        | inr e ↦ inr (ground (arith, w, e))
      ]

      placed :
          (t : Pulling S)
          → pull_message config store net pq r s ≡ t
          → Placed config pq r s t
          → Placed config pq r s (pull_message config store net pq r s)
      placed t e h = subst (Placed config pq r s) (sym e) h

      later :
          (delay : ℤ) (t : Pulling S)
          → pull_message config store net pq r s ≡ execute_pull_request_later r delay t
          → t.later ≡ s.later
          → t.sent ≡ s.sent
          → t.deleted ≡ s.deleted
          → Untouched s t
          → Placed config pq r s (pull_message config store net pq r s)
      later delay t e l x d u =
          placed (execute_pull_request_later r delay t) e (put_off pq r delay s t l x d u)
