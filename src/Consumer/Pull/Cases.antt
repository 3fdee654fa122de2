-- ===== src/Consumer/Pull/Cases.antt =====
-- What pullKernelImpl and the end of pullMessage do with a pull request.
use test.Prelude.{
  ℕ, ◌≡◌, ◌⊎◌, inl, inr, refl, sym, ap, subst, Bytes, Bool, true, false, Option, none, some, List,
  [], ◌∷◌, ◌++◌, if◌then◌else◌,
}
use test.Prelude.Int.{ℤ, pos, ltb_ℤ, ◌≤ℤ◌}
use test.SortedMap.Keys.{bytes_order}
use test.Message.MessageQueue.{message_queue_order}
use test.Common.PullSysFlag.{build_sys_flag}
use test.Consumer.Concurrently.{MessageModel, broadcasting, clustering}
use test.Consumer.ProcessQueue.{ProcessQueue, get_max_span}
use test.Consumer.Rebalance.{PullRequest}
use test.Consumer.Pull.{
  pull_of, pull_found, unless_thrown, pull_time_delay_mills_when_exception, SubscriptionData,
  PushConsumer, PullStore, Network, Pull, Pulling, pull_from, pull_kernel_impl, commit_value,
  recalculate_pull_from_which_node,
}

module _ {S : Type 0} where
  -- The places of a request other than those that the case names are as they were.
  abbrev pub Scheduled : PullRequest → Pulling S → Pulling S → Type 0
  Scheduled r s t =
      (delay : ℤ) × (t.later ≡ s.later ++ (r, delay) ∷ [])
      × (t.sent ≡ s.sent)
      × (t.deleted ≡ s.deleted)

  abbrev pub Started : PullRequest → Pulling S → Pulling S → Type 0
  Started r s t =
      (p : Pull) × (p.request ≡ r)
      × (p.header.queue_offset ≡ r.next_offset)
      × (t.sent ≡ s.sent ++ p ∷ [])
      × (t.later ≡ s.later)
      × (t.deleted ≡ s.deleted)

  abbrev pub Deleted : PullRequest → Pulling S → Pulling S → Type 0
  Deleted r s t = (t.deleted ≡ s.deleted ++ r ∷ []) × (t.sent ≡ s.sent) × (t.later ≡ s.later)

  abbrev pub Untouched : Pulling S → Pulling S → Type 0
  Untouched s t = (t.pull_request_queue ≡ s.pull_request_queue) × (t.tasks ≡ s.tasks)

-- The consumer may pull now: it runs, is not paused, and the queue, which has not been dropped, holds
-- neither too many messages nor, unless consumption is orderly, messages that lie too far apart.
abbrev pub MayPull : PushConsumer → ProcessQueue → Type 0
MayPull config pq =
    (pq.droped ≡ false)
    × (config.running ≡ true)
    × (config.pause ≡ false)
    × (pq.msg_count ≤ℤ config.pull_threshold_for_queue)
    × ((config.consume_orderly ≡ true) ⊎ (get_max_span pq ≤ℤ config.consume_concurrently_max_span))

-- A pull is started from `s`.
abbrev pub Sends : {S : Type 0} → PullRequest → Pulling S → Bool × Pulling S → Type 0
Sends r s p =
    (q : Pull) × (q.request ≡ r)
    × (q.header.queue_offset ≡ r.next_offset)
    × (p ≡ (true, record s { sent = s.sent ++ q ∷ [] }))

module _ {S : Type 0} (config : PushConsumer) (store : PullStore S) (net : Network)
    (up : (addr : Bytes) → net.connected addr ≡ true) where
  pull_from_cases :
      (found : Option (Bytes × Bool)) (r : PullRequest) (data' : SubscriptionData) (flag : ℕ)
      (commit : ℤ) (s : Pulling S)
      → let p = pull_from config store net found r data' flag commit s in
        (p ≡ (false, s)) ⊎ Sends r s p
  unfolding pull_from
  pull_from_cases none r data' flag commit s = inl refl
  pull_from_cases (some (addr, slave)) r data' flag commit s =
      let q = pull_of config store net addr slave r data' flag commit in
      inr (
        q,
        refl,
        refl,
        ap (λ b. (true, if b then record s { sent = s.sent ++ q ∷ [] } else s)) (up addr),
      )

  abbrev pub Ends : PullRequest → Pulling S → Bool × Pulling S → Type 0
  Ends r s p =
      (u : List Bytes) × ((p ≡ (false, record s { route_updates = u }))
        ⊎ Sends r (record s { route_updates = u }) p)

  pull_found-Ends :
      (found : Option (Bytes × Bool)) (r : PullRequest) (data' : SubscriptionData) (flag : ℕ)
      (commit : ℤ) (s : Pulling S)
      → Ends r s (pull_found config store net found r data' flag commit s)
  pull_found-Ends (some f) r data' flag commit s =
      (s.route_updates, pull_from_cases (some f) r data' flag commit s)
  pull_found-Ends none r data' flag commit s = (
    s.route_updates ++ r.message_queue.topic ∷ [],
    pull_from_cases
        (net.find_broker_updated r.message_queue.broker_name
          (recalculate_pull_from_which_node r.message_queue s))
        r data' flag commit
        (record s { route_updates = s.route_updates ++ r.message_queue.topic ∷ [] }),
  )

  abbrev pub Goes : PullRequest → Pulling S → Pulling S → Type 0
  Goes r s t = (Scheduled r s t ⊎ Started r s t) × Untouched s t

  -- From a state that differs only in its store.
  unless_thrown-Goes :
      (r : PullRequest) (s : Pulling S) (o : S) (p : Bool × Pulling S)
      → Ends r (record s { offset_store = o }) p
      → Goes r s (unless_thrown config store net r p)
  unless_thrown-Goes r s o p k = elim k.1 [
    | inl e ↦
        subst (λ q. Goes r s (unless_thrown config store net r q)) (sym e)
          (inl (pull_time_delay_mills_when_exception, refl, refl, refl), (refl, refl))
    | inr e ↦
        subst (λ q. Goes r s (unless_thrown config store net r q)) (sym e.3)
          (inr (e.0, e.1, e.2, refl, refl, refl), (refl, refl))
  ]

  pub pull_subscribed-Goes :
      (m : MessageModel) (r : PullRequest) (data' : SubscriptionData) (s : Pulling S)
      → let c = commit_value config store net m r.message_queue s in
        Goes r s (
          unless_thrown config store net r (
            pull_kernel_impl config store net r data'
              (build_sys_flag (ltb_ℤ (pos 0) c.0) true false)
              c.0
              c.1))
  unfolding pull_kernel_impl commit_value
  pull_subscribed-Goes broadcasting r data' s = unless_thrown-Goes r s s.offset_store _ (
      pull_found-Ends
        (net.find_broker r.message_queue.broker_name
          (recalculate_pull_from_which_node r.message_queue s))
        r data' _ _ s)
  pull_subscribed-Goes clustering r data' s =
      let c = store.read_from_memory r.message_queue s.offset_store in
      let s' : Pulling S = record s { offset_store = c.1 } in
      unless_thrown-Goes r s c.1 _ (
        pull_found-Ends
          (net.find_broker r.message_queue.broker_name
            (recalculate_pull_from_which_node r.message_queue s'))
          r data' _ _ s')
