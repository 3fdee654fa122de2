-- ===== src/Consumer/Pull/Callback/Forwarded.antt =====
-- What the callback of a pull does with the request.
use test.Prelude.{
  ◌≡◌, ◌≢◌, ◌⊎◌, inl, inr, refl, arith, Bytes, true, false, List, [], ◌∷◌, ◌++◌, Bool-cases,
}
use test.Prelude.Int.{ℤ, pos, ltb_ℤ, eqb_ℤ}
use test.SortedMap.Keys.{bytes_order}
use test.Message.MessageExt.{MessageExt}
use test.Message.MessageQueue.{message_queue_order}
use test.Consumer.ProcessQueue.{ProcessQueue}
use test.Consumer.Rebalance.{PullRequest}
use test.Consumer.Pull.{
  SubscriptionData, PushConsumer, PullStore, Pulling, update_pull_from_which_node,
}
use test.Consumer.Pull.Callback.{
  PullStatus, PullResult, msg_found_list, correct_tags_offset, by_status, on_success,
}

-- Where the request goes, and what it goes with.
abbrev pub Forwarded :
    {S : Type 0} → PushConsumer → PullStatus → PullRequest → Pulling S → Pulling S → Type 0
Forwarded config status r s t =
    ((t.pull_request_queue ≡ s.pull_request_queue ++ r ∷ [])
      × (t.later ≡ s.later)
      × (t.tasks ≡ s.tasks)
      × (status ≢ PullStatus.offset_illegal)
      × (status ≡ PullStatus.found → ltb_ℤ (pos 0) config.pull_interval ≡ false))
    ⊎ (((t.pull_request_queue ≡ s.pull_request_queue)
          × (t.later ≡ s.later ++ (r, config.pull_interval) ∷ [])
          × (t.tasks ≡ s.tasks)
          × (ltb_ℤ (pos 0) config.pull_interval ≡ true)
          × (status ≡ PullStatus.found))
        ⊎ ((t.pull_request_queue ≡ s.pull_request_queue)
            × (t.later ≡ s.later)
            × (t.tasks ≡ s.tasks ++ (r, pos 10000) ∷ [])
            × (status ≡ PullStatus.offset_illegal)))

module _ (sprintf_lld : ℤ → Bytes) {S : Type 0} (config : PushConsumer) (store : PullStore S) where
  by_status-Forwarded :
      (status : PullStatus) (msgs : List MessageExt) (r : PullRequest) (pq : ProcessQueue)
      (s : Pulling S)
      → let o = by_status sprintf_lld config store status msgs r pq s in
        Forwarded config status r s o.pulling
        × (o.pulling.sent ≡ s.sent)
        × (o.pulling.deleted ≡ s.deleted)
  unfolding correct_tags_offset
  by_status-Forwarded PullStatus.found msgs r pq s =
      elim (Bool-cases (ltb_ℤ (pos 0) config.pull_interval)) [
        | inl e ↦ (
          inr (inl (ground (arith, e), ground (arith, e), ground (arith, e), e, refl)),
          ground (arith, e),
          ground (arith, e),
        )
        | inr e ↦ (
          inl (ground (arith, e), ground (arith, e), ground (arith, e), (λ i. cc i), (λ f. e)),
          ground (arith, e),
          ground (arith, e),
        )
      ]
  by_status-Forwarded PullStatus.no_new_msg msgs r pq s =
      elim (Bool-cases (eqb_ℤ pq.msg_count (pos 0))) [
        | inl e ↦ (
          inl (
            ground (arith, e),
            ground (arith, e),
            ground (arith, e),
            (λ i. cc i),
            (λ i. absurd (cc i)),
          ),
          ground (arith, e),
          ground (arith, e),
        )
        | inr e ↦ (
          inl (
            ground (arith, e),
            ground (arith, e),
            ground (arith, e),
            (λ i. cc i),
            (λ i. absurd (cc i)),
          ),
          ground (arith, e),
          ground (arith, e),
        )
      ]
  by_status-Forwarded PullStatus.no_matched_msg msgs r pq s =
      elim (Bool-cases (eqb_ℤ pq.msg_count (pos 0))) [
        | inl e ↦ (
          inl (
            ground (arith, e),
            ground (arith, e),
            ground (arith, e),
            (λ i. cc i),
            (λ i. absurd (cc i)),
          ),
          ground (arith, e),
          ground (arith, e),
        )
        | inr e ↦ (
          inl (
            ground (arith, e),
            ground (arith, e),
            ground (arith, e),
            (λ i. cc i),
            (λ i. absurd (cc i)),
          ),
          ground (arith, e),
          ground (arith, e),
        )
      ]
  by_status-Forwarded PullStatus.offset_illegal msgs r pq s =
      (inr (inr (refl, refl, refl, refl)), refl, refl)

  -- onSuccess hands the request on exactly once, with the broker's next offset: to the queue of requests, or,
  -- exactly for messages found and a positive pull interval, to the timer with this interval, or, for an illegal offset, to
  -- the task that removes the queue after ten seconds. It starts no pull and deletes no request.
  pub on_success-Forwarded :
      (data' : SubscriptionData) (result : PullResult) (r : PullRequest) (pq : ProcessQueue)
      (s : Pulling S)
      → let o = on_success sprintf_lld config store data' result r pq s in
        Forwarded config result.pull_status
          (record r { next_offset = result.next_begin_offset })
          s
          o.pulling
        × (o.pulling.sent ≡ s.sent)
        × (o.pulling.deleted ≡ s.deleted)
  unfolding on_success update_pull_from_which_node
  on_success-Forwarded data' result r pq s =
      by_status-Forwarded result.pull_status (msg_found_list sprintf_lld data' result)
        (record r { next_offset = result.next_begin_offset }) pq
        (update_pull_from_which_node r.message_queue result.suggest_which_broker_id s)
