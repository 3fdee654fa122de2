-- ===== src/Consumer/Rebalance/Round/Allocated.antt =====
-- After a round the table has only queues that are allocated to this consumer.
use test.Prelude.{
  ℕ, ◌≡◌, ◌≢◌, refl, sym, ap, subst, ◌∙◌, arith, Bytes, none, some, List, [], ◌∷◌, ◌++◌, Bool-cases,
  inl, inr, if◌then◌else◌,
}
use test.Prelude.Options.{◌>>=◌}
use test.SortedMap.{Map, lookup, IsOrdered}
use test.SortedMap.Keys.{same_bytes, same_bytes_iff, bytes_order}
use test.SortedMap.Laws.{lookup-rest, lookup-first_entry}
use test.Message.MessageQueue.{MessageQueue, same_queue, same_queue_iff, message_queue_order}
use test.Consumer.Allocate.{Allocation, allocated}
use test.Consumer.Concurrently.{clustering}
use test.Consumer.Offset.Remote.{QueueSet, is_found}
use test.Consumer.Rebalance.{
  OffsetStore, Factory, Rebalance, QueueTable, truncate_message_queue_not_my_topic,
  update_process_queue_table_in_rebalance,
}
use test.Consumer.Rebalance.Topic.{
  Outcome, rebalance_by_topic, by_consumers, by_allocation, keys, sorted, set_of, Outside,
  rebalance_by_topic-allocated,
}
use test.Consumer.Rebalance.Round.{rebalance_topics, do_rebalance}
use test.Consumer.Rebalance.Round.Ordered.{update-IsOrdered}

no_topic : {V : Type 0} → (name : Bytes) → lookup {V = V} name [] ≡ none
unfolding lookup
no_topic name = refl

lookup-nil : (j : MessageQueue) → lookup {V = ℕ} j [] ≡ none
unfolding lookup
lookup-nil j = refl

truncate-lookup :
    {V : Type 0}
    → (sub_table : Map Bytes V) (table : QueueTable) (j : MessageQueue)
    → lookup j (truncate_message_queue_not_my_topic sub_table table).0
      ≡ (if is_found (lookup j.topic sub_table) then lookup j table else none)
unfolding truncate_message_queue_not_my_topic
truncate-lookup sub_table [] j = ground (arith, lookup-nil j)
truncate-lookup sub_table ((mq, pq) ∷ table) j = elim (Bool-cases (same_queue j mq)) [
  | inl e ↦
      let same : j ≡ mq = (same_queue_iff j mq).0 e in
      elim (Bool-cases (is_found (lookup mq.topic sub_table))) [
        | inl i ↦
            ground (
              arith,
              i,
              first same rest.0,
              first same table,
              ap (λ q. lookup q.topic sub_table) same,
            )
        | inr i ↦
            ground
              (arith, i, truncate-lookup sub_table table j, ap (λ q. lookup q.topic sub_table) same)
      ]
  | inr e ↦
      let other : j ≢ mq = λ i. ground (arith, e, (same_queue_iff j mq).1 i) in
      elim (Bool-cases (is_found (lookup mq.topic sub_table))) [
        | inl i ↦ ground (
          arith,
          i,
          truncate-lookup sub_table table j,
          lookup-rest mq j pq rest.0 other,
          lookup-rest mq j pq table other,
        )
        | inr i ↦
            ground (arith, i, truncate-lookup sub_table table j, lookup-rest mq j pq table other)
      ]
]
  where
    rest : QueueTable × List ℕ
    rest = truncate_message_queue_not_my_topic sub_table table

    first : j ≡ mq → (t : QueueTable) → lookup j ((mq, pq) ∷ t) ≡ some pq
    first e t = ap (λ q. lookup q ((mq, pq) ∷ t)) e ∙ lookup-first_entry mq pq t

-- The strategy allocates some queues of the topic to this consumer, and `j` is none of them.
abbrev pub Unallocated :
    (List MessageQueue → List Bytes → Allocation MessageQueue)
    → (Bytes → List Bytes)
    → Map Bytes QueueSet
    → MessageQueue
    → Bytes
    → Type 0
Unallocated allocate consumers infos j topic =
    (mq_set : QueueSet) × (c : Bytes) × (cs : List Bytes) × (mqs : List MessageQueue) × (lookup
        topic infos
      ≡ some mq_set)
    × (consumers topic ≡ c ∷ cs)
    × (allocate (keys mq_set) (sorted (c ∷ cs)) ≡ allocated mqs)
    × Outside j mqs

abbrev pub AllUnallocated :
    {V : Type 0}
    → (List MessageQueue → List Bytes → Allocation MessageQueue)
    → (Bytes → List Bytes)
    → Map Bytes QueueSet
    → MessageQueue
    → Map Bytes V
    → Type 0
AllUnallocated allocate consumers infos j [] = Unit {0}
AllUnallocated allocate consumers infos j ((topic, _) ∷ subs) =
    Unallocated allocate consumers infos j topic × AllUnallocated allocate consumers infos j subs

module _ {S : Type 0} (store : OffsetStore S) (f : Factory)
    (allocate : List MessageQueue → List Bytes → Allocation MessageQueue)
    (consumers : Bytes → List Bytes) (infos : Map Bytes QueueSet) (j : MessageQueue) where
  one_topic :
      (topic : Bytes) (table : QueueTable) (s : Rebalance S)
      → IsOrdered table
      → Unallocated allocate consumers infos j topic
      → (out : Outcome store f) × (rebalance_by_topic store f clustering allocate
            (consumers topic)
            infos
            topic
            table
            s
          ≡ some out)
        × (lookup j out.1.0 ≡ (if same_bytes j.topic topic then none else lookup j table))
        × IsOrdered out.1.0
  unfolding rebalance_by_topic
  one_topic topic table s o (mq_set, c, cs, mqs, e, k, a, u) =
      let r =
        rebalance_by_topic-allocated store f allocate c cs infos topic mq_set table s mqs j e a o
          u in
      (
        r.0,
        ap (λ l. rebalance_by_topic store f clustering allocate l infos topic table s) k ∙ r.1,
        r.2,
        subst (λ (x : Outcome store f). IsOrdered x.1.0)
            (some_eq
              (update_process_queue_table_in_rebalance store f topic (set_of mqs []) table s).1 r.0
              (sym (
                  ap (λ found. by_consumers store f allocate found (c ∷ cs) topic table s) e
                  ∙ ap (λ x. by_allocation store f x topic table s) a)
                ∙ r.1))
            (update-IsOrdered store f topic (set_of mqs []) table s o),
      )
    where
      some_eq : (x y : Outcome store f) → some x ≡ some y → x ≡ y
      some_eq x y i = cc i

  all_topics :
      {V : Type 0}
      → (subs : Map Bytes V) (table : QueueTable) (s : Rebalance S) → IsOrdered table
      → AllUnallocated allocate consumers infos j subs
      → (out : Outcome store f) × (rebalance_topics store f clustering allocate consumers infos subs
            table s
          ≡ some out)
        × (lookup j out.1.0 ≡ (if is_found (lookup j.topic subs) then none else lookup j table))
  unfolding rebalance_topics
  all_topics {V} [] table s o u = (([], (table, s)), refl, ground (arith, no_topic {V = V} j.topic))
  all_topics ((topic, v) ∷ subs) table s o (u, us) =
      let r = one_topic topic table s o u in
      let q = all_topics subs r.0.1.0 r.0.1.1 r.3 us in
      (
        (r.0.0 ++ q.0.0, q.0.1),
        ap
              (λ z. z >>= λ x.
                rebalance_topics store f clustering allocate consumers infos subs x.1.0 x.1.1
                >>= λ y. some (x.0 ++ y.0, y.1))
              r.1
            ∙ ap (λ z. z >>= λ y. some (r.0.0 ++ y.0, y.1)) q.1,
        elim (Bool-cases (same_bytes j.topic topic)) [
          | inl e ↦
              let here : lookup j.topic ((topic, v) ∷ subs) ≡ some v =
                ap (λ t. lookup t ((topic, v) ∷ subs)) ((same_bytes_iff j.topic topic).0 e)
                ∙ lookup-first_entry topic v subs in
              ground (arith, e, here, r.2, q.2)
          | inr e ↦
              let other : j.topic ≢ topic =
                λ i. ground (arith, e, (same_bytes_iff j.topic topic).1 i) in
              ground (arith, e, lookup-rest topic j.topic v subs other, r.2, q.2)
        ],
      )

  -- After a round of doRebalance in the clustering model the consumer has no queue but those that the
  -- strategy allocates to it, of the topics that are subscribed to: a queue that is in none of these
  -- allocations is not in the table. The table is in order, and for each topic subscribed to the
  -- queues and the consumers of the group are known and the strategy gives an allocation.
  pub do_rebalance-unallocated :
      {V : Type 0}
      → (sub_table : Map Bytes V) (table : QueueTable) (s : Rebalance S) → IsOrdered table
      → AllUnallocated allocate consumers infos j sub_table
      → (out : Outcome store f) × (do_rebalance store f clustering allocate consumers infos
            sub_table table s
          ≡ some out)
        × (lookup j out.1.0 ≡ none)
  unfolding do_rebalance
  do_rebalance-unallocated sub_table table s o u =
      let r = all_topics sub_table table (record s { down_broker_name = [] }) o u in
      let t = truncate_message_queue_not_my_topic sub_table r.0.1.0 in
      (
        (r.0.0, (t.0, record r.0.1.1 { droped = r.0.1.1.droped ++ t.1 })),
        ap
            (λ z. z >>= λ x.
              let y = truncate_message_queue_not_my_topic sub_table x.1.0 in
              some (x.0, (y.0, record x.1.1 { droped = x.1.1.droped ++ y.1 })))
            r.1,
        ground (arith, r.2, truncate-lookup sub_table r.0.1.0 j),
      )
