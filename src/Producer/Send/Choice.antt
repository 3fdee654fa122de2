-- ===== src/Producer/Send/Choice.antt =====
-- Which queue selectOneMessageQueue chooses.
use test.Prelude.{
  ℕ, zero, suc, ◌≡◌, ◌≢◌, ◌⊎◌, inl, inr, refl, sym, ap, ◌∙◌, arith, Bytes, Bool, true, false,
  Option, none, some, List, [], ◌∷◌, length, get_elem?, if◌then◌else◌, Bool-cases,
}
use test.Prelude.Int.{ℤ, pos, ◌+ℤ◌}
use test.SortedMap.Keys.{same_bytes, same_bytes_iff}
use test.Message.MessageQueue.{MessageQueue}
use test.SortedMap.{lookup, insert}
use test.SortedMap.Keys.{bytes_order}
use test.Producer.Send.{
  PublishTable, select_from, is_ok, no_info, try_to_find_topic_publish_mq, TopicPublishInfo,
  another_broker, select_loop, select_one_message_queue,
}

another_broker_sound :
    (found rest : Option MessageQueue) (last : Bytes) (mq : MessageQueue)
    → another_broker found last rest ≡ some mq
    → ((found ≡ some mq) × (mq.broker_name ≢ last)) ⊎ (rest ≡ some mq)
another_broker_sound none rest last mq e = inr e
another_broker_sound (some q) rest last mq e = elim (Bool-cases (same_bytes q.broker_name last)) [
  | inl same ↦ inr (sym (ap (λ b. if b then rest else some q) same) ∙ e)
  | inr other ↦
      let eq : some q ≡ some mq = sym (ap (λ b. if b then rest else some q) other) ∙ e in
      inl (eq, λ s. differs other (cc (eq, s)))
]
  where
    differs : same_bytes q.broker_name last ≡ false → q.broker_name ≡ last → ⊥
    differs h s = ground (arith, same_bytes_iff q.broker_name last)

-- A queue that is chosen after a try with a broker is one of the topic's, on another broker.
pub select_loop_sound :
    (n : ℕ) (index : ℤ) (last : Bytes) (queues : List MessageQueue) (mq : MessageQueue)
    → select_loop n index last queues ≡ some mq
    → ((i : ℕ) × (get_elem? queues i ≡ some mq)) × (mq.broker_name ≢ last)
unfolding select_loop
select_loop_sound zero index last queues mq e = cc
select_loop_sound (suc n) index last queues mq e =
    elim (another_broker_sound _ (select_loop n (index +ℤ pos 1) last queues) last mq e) [
      | inl here ↦ ((_, here.0), here.1)
      | inr later ↦ select_loop_sound n (index +ℤ pos 1) last queues mq later
    ]

select_sound :
    (last : Bytes) (info : TopicPublishInfo) (mq : MessageQueue)
    → (select_one_message_queue last info).0 ≡ some mq
    → (last ≡ []) ⊎ (mq.broker_name ≢ last)
unfolding select_one_message_queue
select_sound [] info mq e = inl refl
select_sound (c ∷ last) info mq e =
    inr
      (select_loop_sound (length info.message_queue_list) info.send_which_queue (c ∷ last)
        info.message_queue_list mq e).1

select_from_sound :
    (found : Option TopicPublishInfo) (topic last : Bytes) (table : PublishTable)
    (mq : MessageQueue)
    → (select_from found topic last table).0 ≡ some mq
    → (last ≡ []) ⊎ (mq.broker_name ≢ last)
select_from_sound none topic last table mq e = cc
select_from_sound (some info) topic last table mq e = select_sound last info mq e

-- The queue that is found for a try is not on the broker of the try before, if there was one.
pub try_to_find_sound :
    (u d : PublishTable → PublishTable) (topic last : Bytes) (table : PublishTable)
    (mq : MessageQueue)
    → (try_to_find_topic_publish_mq u d topic last table).0 ≡ some mq
    → (last ≡ []) ⊎ (mq.broker_name ≢ last)
unfolding try_to_find_topic_publish_mq
try_to_find_sound u d topic last table mq e =
    let new = u (insert topic no_info table) in
    by_tests (select_from (lookup topic table) topic last table)
      (select_from (lookup topic new) topic last new)
      (select_from (lookup topic (d new)) topic last (d new))
      (select_from_sound (lookup topic table) topic last table mq)
      (select_from_sound (lookup topic new) topic last new mq)
      (select_from_sound (lookup topic (d new)) topic last (d new) mq) (is_ok (lookup topic table))
      (is_ok (lookup topic new)) e
  where
    Sound : Option MessageQueue × PublishTable → Type 0
    Sound r = r.0 ≡ some mq → (last ≡ []) ⊎ (mq.broker_name ≢ last)

    by_tests :
        (x y z : Option MessageQueue × PublishTable)
        → Sound x
        → Sound y
        → Sound z
        → (a b : Bool) → Sound (if a then x else if b then y else z)
    by_tests x y z p q r true b = p
    by_tests x y z p q r false true = q
    by_tests x y z p q r false false = r
