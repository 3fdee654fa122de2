-- ===== src/Consumer/Rebalance/Start.antt =====
-- Where the pulling of a queue starts, and the requests that an update of the table dispatches.
use test.Prelude.{
  ℕ, suc, ◌≡◌, ◌⊎◌, inl, inr, refl, sym, subst, arith, Bytes, true, Option, none, some, List, [],
  ◌∷◌,
}
use test.Prelude.Int.{pos, ◌≤ℤ◌}
use test.SortedMap.{lookup}
use test.SortedMap.Laws.{lookup-insert_self}
use test.Message.MessageQueue.{MessageQueue, message_queue_order, eq_of_compare_to}
use test.Consumer.Offset.Remote.{QueueSet, is_found}
use test.Consumer.Rebalance.{
  OffsetStore, Factory, Rebalance, QueueTable, PullRequest, add_queue, add_loop, with_request,
  compute_pull_from_where, update_process_queue_table_in_rebalance,
}
use test.Consumer.Rebalance.Table.{add_loop-keeps}

module _ {S : Type 0} (store : OffsetStore S) (f : Factory) where
  -- The requests that have an offset and whose process queue the table has for their queue.
  abbrev pub AllStarted : List PullRequest → QueueTable → Type 0
  AllStarted [] table = Unit {0}
  AllStarted (r ∷ rs) table =
      ((pos 0 ≤ℤ r.next_offset) × (lookup r.message_queue table ≡ some r.process_queue))
      × AllStarted rs table

  requests-of :
      (found : Option ℕ) (mq : MessageQueue) (mqs : QueueSet) (t : QueueTable) (s : Rebalance S)
      → let a = add_queue store f found mq t s in
        let rest = add_loop store f mqs a.1.0 a.1.1 in
        AllStarted rest.0 rest.1.0 → AllStarted (with_request a.0 rest.0) rest.1.0
  requests-of (some pq) mq mqs t s h = h
  requests-of none mq mqs t s h = ground (
    arith,
    add_loop-keeps store f mqs mq (suc s.allocated) (add_queue store f none mq t s).1.0
        (add_queue store f none mq t s).1.1,
    lookup-insert_self mq (suc s.allocated) t,
  )

  add_loop-AllStarted :
      (mqs : QueueSet) (t : QueueTable) (s : Rebalance S)
      → AllStarted (add_loop store f mqs t s).0 (add_loop store f mqs t s).1.0
  unfolding add_loop
  add_loop-AllStarted [] t s = tt
  add_loop-AllStarted ((mq, u) ∷ mqs) t s =
      requests-of (lookup mq t) mq mqs t s (add_loop-AllStarted mqs _ _)

  -- Every pull request that an update dispatches has an offset that is not negative, and the table has
  -- its process queue for its message queue.
  pub update-AllStarted :
      (topic : Bytes) (mq_set : QueueSet) (table : QueueTable) (s : Rebalance S)
      → let r = update_process_queue_table_in_rebalance store f topic mq_set table s in
        AllStarted r.1.0 r.1.1.0
  unfolding update_process_queue_table_in_rebalance
  update-AllStarted topic mq_set table s = add_loop-AllStarted mq_set _ _

  add_queue-present :
      (found : Option ℕ) (mq : MessageQueue) (t : QueueTable) (s : Rebalance S)
      → lookup mq t ≡ found
      → ((s' : Rebalance S) → pos 0 ≤ℤ (compute_pull_from_where store f mq s').0)
      → is_found (lookup mq (add_queue store f found mq t s).1.0) ≡ true
  add_queue-present (some pq) mq t s e h = rw e refl
  add_queue-present none mq t s e h = ground (
    arith,
    h (record s { allocated = suc s.allocated }),
    lookup-insert_self mq (suc s.allocated) t,
  )

  keeps_found :
      (found : Option ℕ) (mqs : QueueSet) (j : MessageQueue) (t : QueueTable) (s : Rebalance S)
      → lookup j t ≡ found
      → is_found found ≡ true
      → is_found (lookup j (add_loop store f mqs t s).1.0) ≡ true
  keeps_found none mqs j t s e m = cc
  keeps_found (some p) mqs j t s e m = rw (add_loop-keeps store f mqs j p t s e) refl

  in_cons :
      (j mq : MessageQueue) (u : Unit {0}) (mqs : QueueSet)
      → is_found (lookup j ((mq, u) ∷ mqs)) ≡ true
      → (mq ≡ j) ⊎ (is_found (lookup j mqs) ≡ true)
  unfolding lookup
  in_cons j mq u mqs m = ground (arith, eq_of_compare_to j mq)

  add_loop-present :
      (mqs : QueueSet) (j : MessageQueue) (t : QueueTable) (s : Rebalance S)
      → is_found (lookup j mqs) ≡ true
      → ((s' : Rebalance S) → pos 0 ≤ℤ (compute_pull_from_where store f j s').0)
      → is_found (lookup j (add_loop store f mqs t s).1.0) ≡ true
  unfolding add_loop
  add_loop-present [] j t s m h = absurd (unfold lookup in cc m)
  add_loop-present ((mq, u) ∷ mqs) j t s m h = elim (in_cons j mq u mqs m) [
    | inl here ↦ keeps_found _ mqs j _ _ refl (
        subst (λ k. is_found (lookup k (add_queue store f (lookup mq t) mq t s).1.0) ≡ true) here
          (add_queue-present (lookup mq t) mq t s refl (
            subst (λ k. (s' : Rebalance S) → pos 0 ≤ℤ (compute_pull_from_where store f k s').0)
              (sym here) h)))
    | inr later ↦ add_loop-present mqs j _ _ later h
  ]

  -- Every queue that is allocated to this consumer, and for which a starting offset can be computed in
  -- every state, is in the table after the update.
  pub update-present :
      (topic : Bytes) (mq_set : QueueSet) (table : QueueTable) (s : Rebalance S) (j : MessageQueue)
      → is_found (lookup j mq_set) ≡ true
      → ((s' : Rebalance S) → pos 0 ≤ℤ (compute_pull_from_where store f j s').0)
      → is_found
          (lookup j (update_process_queue_table_in_rebalance store f topic mq_set table s).1.1.0)
        ≡ true
  unfolding update_process_queue_table_in_rebalance
  update-present topic mq_set table s j m h = add_loop-present mq_set j _ _ m h
