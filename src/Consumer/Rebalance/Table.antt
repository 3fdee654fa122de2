-- ===== src/Consumer/Rebalance/Table.antt =====
-- What the update of the process queue table leaves in it, and which process queues it drops.
use test.Prelude.{
  ℕ, suc, ◌≡◌, ◌≢◌, ◌⊎◌, inl, inr, refl, sym, ◌∙◌, subst, arith, Bytes, true, false, not, Option,
  none, some, List, [], ◌∷◌, ◌++◌, if◌then◌else◌,
}
use test.SortedMap.{lookup, IsOrdered, Above}
use test.SortedMap.Keys.{same_bytes}
use test.SortedMap.Laws.{lookup-insert, lookup-insert_ne, lookup-Above}
use test.Message.MessageQueue.{MessageQueue, message_queue_order, eq_of_compare_to, compare_to_self}
use test.Consumer.Offset.Remote.{QueueSet}
use test.Consumer.Rebalance.{
  OffsetStore, Factory, Rebalance, QueueTable, visit, remove_loop, add_queue, add_loop,
  compute_pull_from_where, update_process_queue_table_in_rebalance,
  remove_unnecessary_message_queue, is_droped,
}

is_droped-append : (p : ℕ) (a b : List ℕ) → is_droped p a ≡ true → is_droped p (a ++ b) ≡ true
is_droped-append p [] b h = cc
is_droped-append p (x ∷ a) b h = ground (arith, is_droped-append p a b)

is_droped-last : (p : ℕ) (a : List ℕ) → is_droped p (a ++ p ∷ []) ≡ true
is_droped-last p [] = ground arith
is_droped-last p (x ∷ a) = ground (arith, is_droped-last p a)

module _ {S : Type 0} (store : OffsetStore S) (f : Factory) where
  visit-unwanted :
      (topic : Bytes) (mq_set : QueueSet) (mq : MessageQueue) (pq : ℕ) (s : Rebalance S)
      → lookup mq mq_set ≡ none
      → (visit store f topic mq_set mq pq s).0 ≡ not (same_bytes mq.topic topic)
  unfolding visit
  visit-unwanted topic mq_set mq pq s h = ground arith

  pub remove_loop-Above :
      (topic : Bytes) (mq_set : QueueSet) (k : MessageQueue) (t : QueueTable) (s : Rebalance S)
      → Above k t
      → Above k (remove_loop store f topic mq_set t s).1.0
  unfolding remove_loop
  remove_loop-Above topic mq_set k [] s h = tt
  remove_loop-Above topic mq_set k ((mq, pq) ∷ t) s h =
      ground (arith, remove_loop-Above topic mq_set k t (visit store f topic mq_set mq pq s).1 h.1)

  remove_loop-unwanted :
      (topic : Bytes) (mq_set : QueueSet) (j : MessageQueue) (t : QueueTable) (s : Rebalance S)
      → IsOrdered t
      → lookup j mq_set ≡ none
      → lookup j (remove_loop store f topic mq_set t s).1.0
        ≡ (if same_bytes j.topic topic then none else lookup j t)
  unfolding remove_loop lookup
  remove_loop-unwanted topic mq_set j [] s h e = ground arith
  remove_loop-unwanted topic mq_set j ((mq, pq) ∷ t) s h e = ground (
    arith,
    remove_loop-unwanted topic mq_set j t (visit store f topic mq_set mq pq s).1 h.1 e,
    visit-unwanted topic mq_set j pq s e,
    eq_of_compare_to j mq,
    lookup-Above mq _
        (remove_loop-Above topic mq_set mq t (visit store f topic mq_set mq pq s).1 h.0),
    lookup-Above mq t h.0,
  )

  visit-droped :
      (topic : Bytes) (mq_set : QueueSet) (mq : MessageQueue) (pq p : ℕ) (s : Rebalance S)
      → is_droped p s.droped ≡ true
      → is_droped p (visit store f topic mq_set mq pq s).1.droped ≡ true
  unfolding visit remove_unnecessary_message_queue
  visit-droped topic mq_set mq pq p s h = ground (arith, is_droped-append p s.droped (pq ∷ []) h)

  visit-left :
      (topic : Bytes) (mq_set : QueueSet) (mq : MessageQueue) (pq : ℕ) (s : Rebalance S)
      → (visit store f topic mq_set mq pq s).0 ≡ false
      → pq ≢ 0
      → is_droped pq (visit store f topic mq_set mq pq s).1.droped ≡ true
  unfolding visit remove_unnecessary_message_queue
  visit-left topic mq_set mq pq s h n = ground (arith, is_droped-last pq s.droped)

  remove_loop-droped :
      (topic : Bytes) (mq_set : QueueSet) (p : ℕ) (t : QueueTable) (s : Rebalance S)
      → is_droped p s.droped ≡ true
      → is_droped p (remove_loop store f topic mq_set t s).1.1.droped ≡ true
  unfolding remove_loop
  remove_loop-droped topic mq_set p [] s h = h
  remove_loop-droped topic mq_set p ((mq, pq) ∷ t) s h = ground (
    arith,
    remove_loop-droped topic mq_set p t (visit store f topic mq_set mq pq s).1
        (visit-droped topic mq_set mq pq p s h),
  )

  remove_loop-left :
      (topic : Bytes) (mq_set : QueueSet) (j : MessageQueue) (p : ℕ) (t : QueueTable)
      (s : Rebalance S)
      → lookup j t ≡ some p
      → p ≢ 0
      → (lookup j (remove_loop store f topic mq_set t s).1.0 ≡ some p)
        ⊎ (is_droped p (remove_loop store f topic mq_set t s).1.1.droped ≡ true)
  unfolding remove_loop lookup
  remove_loop-left topic mq_set j p [] s e n = cc
  remove_loop-left topic mq_set j p ((mq, pq) ∷ t) s e n = ground (
    arith,
    remove_loop-left topic mq_set j p t (visit store f topic mq_set mq pq s).1,
    visit-left topic mq_set mq pq s,
    remove_loop-droped topic mq_set p t (visit store f topic mq_set mq pq s).1,
    eq_of_compare_to j mq,
  )

  add_queue-other :
      (found : Option ℕ) (j mq : MessageQueue) (t : QueueTable) (s : Rebalance S)
      → j ≢ mq
      → lookup j (add_queue store f found mq t s).1.0 ≡ lookup j t
  add_queue-other none j mq t s h = ground (arith, lookup-insert_ne mq j (suc s.allocated) t h)
  add_queue-other (some pq) j mq t s h = refl

  add_queue-droped :
      (found : Option ℕ) (mq : MessageQueue) (t : QueueTable) (s : Rebalance S)
      → (add_queue store f found mq t s).1.1.droped ≡ s.droped
  unfolding compute_pull_from_where
  add_queue-droped none mq t s = ground arith
  add_queue-droped (some pq) mq t s = refl

  add_loop-droped :
      (mqs : QueueSet) (t : QueueTable) (s : Rebalance S)
      → (add_loop store f mqs t s).1.1.droped ≡ s.droped
  unfolding add_loop
  add_loop-droped [] t s = refl
  add_loop-droped ((mq, u) ∷ mqs) t s =
      add_loop-droped mqs _ _ ∙ add_queue-droped (lookup mq t) mq t s

  not_in_cons :
      (j mq : MessageQueue) (u : Unit {0}) (mqs : QueueSet)
      → lookup j ((mq, u) ∷ mqs) ≡ none
      → (j ≢ mq) × (lookup j mqs ≡ none)
  unfolding lookup
  not_in_cons j mq u mqs e = ground (arith, compare_to_self mq)

  add_loop-unwanted :
      (mqs : QueueSet) (j : MessageQueue) (t : QueueTable) (s : Rebalance S)
      → lookup j mqs ≡ none
      → lookup j (add_loop store f mqs t s).1.0 ≡ lookup j t
  unfolding add_loop
  add_loop-unwanted [] j t s e = refl
  add_loop-unwanted ((mq, u) ∷ mqs) j t s e =
      let out = not_in_cons j mq u mqs e in
      add_loop-unwanted mqs j _ _ out.1 ∙ add_queue-other (lookup mq t) j mq t s out.0

  add_queue-keeps :
      (found : Option ℕ) (j mq : MessageQueue) (p : ℕ) (t : QueueTable) (s : Rebalance S)
      → lookup mq t ≡ found
      → lookup j t ≡ some p
      → lookup j (add_queue store f found mq t s).1.0 ≡ some p
  add_queue-keeps none j mq p t s a e =
      ground (arith, lookup-insert mq j (suc s.allocated) t, eq_of_compare_to j mq)
  add_queue-keeps (some pq) j mq p t s a e = e

  pub add_loop-keeps :
      (mqs : QueueSet) (j : MessageQueue) (p : ℕ) (t : QueueTable) (s : Rebalance S)
      → lookup j t ≡ some p
      → lookup j (add_loop store f mqs t s).1.0 ≡ some p
  unfolding add_loop
  add_loop-keeps [] j p t s e = e
  add_loop-keeps ((mq, u) ∷ mqs) j p t s e =
      add_loop-keeps mqs j p _ _ (add_queue-keeps (lookup mq t) j mq p t s refl e)

  -- A queue that is not allocated to this consumer: after the update the table has it no longer if it
  -- is of the topic, and has the same process queue for it as before if it is of another topic.
  pub update-unallocated :
      (topic : Bytes) (mq_set : QueueSet) (table : QueueTable) (s : Rebalance S) (j : MessageQueue)
      → IsOrdered table
      → lookup j mq_set ≡ none
      → lookup j (update_process_queue_table_in_rebalance store f topic mq_set table s).1.1.0
        ≡ (if same_bytes j.topic topic then none else lookup j table)
  unfolding update_process_queue_table_in_rebalance
  update-unallocated topic mq_set table s j h e =
      add_loop-unwanted mq_set j _ _ e ∙ remove_loop-unwanted topic mq_set j table s h e

  -- No process queue is lost: a process queue of the table, not NULL, either stays there for its queue
  -- or has been dropped, so that its consumers stop.
  pub update-droped :
      (topic : Bytes) (mq_set : QueueSet) (table : QueueTable) (s : Rebalance S) (j : MessageQueue)
      (pq : ℕ)
      → lookup j table ≡ some pq
      → pq ≢ 0
      → let r = update_process_queue_table_in_rebalance store f topic mq_set table s in
        (lookup j r.1.1.0 ≡ some pq) ⊎ (is_droped pq r.1.1.1.droped ≡ true)
  unfolding update_process_queue_table_in_rebalance
  update-droped topic mq_set table s j pq e n =
      elim (remove_loop-left topic mq_set j pq table s e n) [
        | inl stays ↦ inl (add_loop-keeps mq_set j pq _ _ stays)
        | inr gone ↦
            inr (subst (λ l. is_droped pq l ≡ true) (sym (add_loop-droped mq_set _ _)) gone)
      ]
