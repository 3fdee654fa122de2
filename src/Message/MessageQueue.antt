-- ===== src/Message/MessageQueue.antt =====
-- src/message/MessageQueue.cpp: a queue of a topic on a broker, and the order of queues, by which
-- they are the keys of the client's maps and the elements of its sets. The texts hold no NUL byte, so
-- `strcmp` compares them whole; queue ids are far from the ends of `int`, so their difference has the
-- sign of the comparison.
use test.Prelude.{◌≡◌, ◌↔◌, Bytes, Bool, true, false, arith, Ordering, if◌then◌else◌, not}
use test.Prelude.Int.{ℤ, eqb_ℤ, eq_of_parts}
use test.SortedMap.Ordered.{Order}
use test.SortedMap.Keys.{
  cmp_ℤ, cmp_bytes, then_by, same_bytes, same_bytes_iff, cmp_self_ℤ, cmp_self_bytes, eq_of_cmp_ℤ,
  eq_of_cmp_bytes, cmp_flip_ℤ, cmp_flip_bytes, cmp_trans_ℤ, cmp_trans_bytes,
}

pub record MessageQueue : Type 0 where
  pub topic : Bytes
  pub broker_name : Bytes
  pub queue_id : ℤ

-- The sign of compareTo; operator< is `compare_to a b ≡ Ordering.lt`.
unfoldable pub compare_to : MessageQueue → MessageQueue → Ordering
compare_to a b =
    then_by (cmp_bytes a.topic b.topic)
      (then_by (cmp_bytes a.broker_name b.broker_name) (cmp_ℤ a.queue_id b.queue_id))

-- operator==
unfoldable pub same_queue : MessageQueue → MessageQueue → Bool
same_queue a b =
    if not (same_bytes a.broker_name b.broker_name)
    then false
    else if not (eqb_ℤ a.queue_id b.queue_id)
    then false
    else if not (same_bytes a.topic b.topic)
    then false
    else true

-- The two equalities of queues, `==` and being neither before nor after, are one.
pub same_queue_iff : (a b : MessageQueue) → (same_queue a b ≡ true) ↔ (a ≡ b)
unfolding same_queue
same_queue_iff a b = (
  (λ h. ground (
    arith,
    same_bytes_iff a.topic b.topic,
    same_bytes_iff a.broker_name b.broker_name,
    eq_of_parts a.queue_id b.queue_id,
  )),
  λ e. ground (arith, same_bytes_iff a.topic a.topic, same_bytes_iff a.broker_name a.broker_name),
)

pub compare_to_self : (a : MessageQueue) → compare_to a a ≡ Ordering.eq
unfolding compare_to
compare_to_self a =
    ground (arith, cmp_self_bytes a.topic, cmp_self_bytes a.broker_name, cmp_self_ℤ a.queue_id)

pub eq_of_compare_to : (a b : MessageQueue) → compare_to a b ≡ Ordering.eq → a ≡ b
unfolding compare_to
eq_of_compare_to a b h = ground (
  arith,
  eq_of_cmp_bytes a.topic b.topic,
  eq_of_cmp_bytes a.broker_name b.broker_name,
  eq_of_cmp_ℤ a.queue_id b.queue_id,
)

pub compare_to-flip :
    (a b : MessageQueue) → compare_to a b ≡ Ordering.gt → compare_to b a ≡ Ordering.lt
unfolding compare_to
compare_to-flip a b h = ground (
  arith,
  cmp_flip_bytes a.topic b.topic,
  eq_of_cmp_bytes a.topic b.topic,
  cmp_self_bytes a.topic,
  cmp_flip_bytes a.broker_name b.broker_name,
  eq_of_cmp_bytes a.broker_name b.broker_name,
  cmp_self_bytes a.broker_name,
  cmp_flip_ℤ a.queue_id b.queue_id,
)

pub compare_to_trans :
    (a b c : MessageQueue)
    → compare_to a b ≡ Ordering.lt
    → compare_to b c ≡ Ordering.lt
    → compare_to a c ≡ Ordering.lt
unfolding compare_to
compare_to_trans a b c h k = ground (
  arith,
  cmp_trans_bytes a.topic b.topic c.topic,
  eq_of_cmp_bytes a.topic b.topic,
  eq_of_cmp_bytes b.topic c.topic,
  cmp_trans_bytes a.broker_name b.broker_name c.broker_name,
  eq_of_cmp_bytes a.broker_name b.broker_name,
  eq_of_cmp_bytes b.broker_name c.broker_name,
  cmp_trans_ℤ a.queue_id b.queue_id c.queue_id,
)

instance abbrev pub message_queue_order : Order MessageQueue
message_queue_order = record {
  cmp = compare_to;
  cmp_self = compare_to_self;
  eq_of_cmp = eq_of_compare_to;
  cmp_flip = compare_to-flip;
  cmp_trans = compare_to_trans;
}
