-- ===== src/Consumer/Concurrently/Safe.antt =====
-- Which offset processConsumeResult records for its queue.
use test.Prelude.{
  ℕ, ◌≡◌, ◌⊎◌, inl, inr, refl, sym, ap, ◌∙◌, subst, arith, Bool, true, false, Option, none, some,
  List, [], ◌∷◌, if◌then◌else◌, length,
}
use test.Prelude.Int.{ℤ, pos, minus_one, ltb_ℤ, ◌≤ℤ◌}
use test.SortedMap.{lookup, IsOrdered}
use test.SortedMap.Keys.{ℤ_order}
use test.Message.MessageExt.{MessageExt}
use test.Message.MessageQueue.{MessageQueue, message_queue_order, compare_to_self}
use test.Consumer.Offset.Remote.{OffsetTable, update_offset}
use test.Consumer.Offset.Remote.Memory.{updated, at_queue, lookup-update_offset}
use test.Consumer.ProcessQueue.{ProcessQueue, remove_message}
use test.Consumer.ProcessQueue.Commits.{remove_message-safe}
use test.Consumer.Concurrently.{
  Service, MessageModel, ConsumeConcurrentlyStatus, process_consume_result, remove_and_update,
  sent_back, after_back, msg_back_failed, unacknowledged, counted,
}

-- No message of the queue lies below the offset.
abbrev pub NoneBelow : ℤ → ProcessQueue → Type 0
NoneBelow o q = (j : ℤ) (w : MessageExt) → lookup j q.msg_tree_map ≡ some w → o ≤ℤ j

raised :
    (found : Option ℤ) (o r : ℤ) → some (updated found r true) ≡ some o → (found ≡ some o) ⊎ (r ≡ o)
raised none o r e = ground arith
raised (some c) o r e = ground arith

recorded_by :
    (mq : MessageQueue) (r o : ℤ) (t : OffsetTable)
    → lookup mq (update_offset mq r true t) ≡ some o
    → (lookup mq t ≡ some o) ⊎ (r ≡ o)
recorded_by mq r o t e = raised (lookup mq t) o r (
    ap (λ c. at_queue c (some (updated (lookup mq t) r true)) (lookup mq t))
      (sym (compare_to_self mq))
    ∙ sym (lookup-update_offset mq mq r true t)
    ∙ e)

pub remove_and_update-safe :
    (mq : MessageQueue) (msgs : List MessageExt) (s : Service) (o : ℤ)
    → IsOrdered s.process_queue.msg_tree_map
    → ((j : ℤ) (w : MessageExt)
        → lookup j s.process_queue.msg_tree_map ≡ some w
        → j ≤ℤ s.process_queue.queue_offset_max)
    → lookup mq (remove_and_update mq msgs s).offset_table ≡ some o
    → (lookup mq s.offset_table ≡ some o) ⊎ NoneBelow o (remove_and_update mq msgs s).process_queue
unfolding remove_and_update
remove_and_update-safe mq msgs s o h top e =
    by_result (ltb_ℤ (remove_message msgs s.process_queue).0 (pos 0)) refl e
  where
    low : (r : ℤ) → ltb_ℤ r (pos 0) ≡ false → r ≡ minus_one → ⊥
    low r l e = ground arith

    by_result :
        (b : Bool)
        → ltb_ℤ (remove_message msgs s.process_queue).0 (pos 0) ≡ b
        → lookup mq (
            if b
            then s.offset_table
            else update_offset mq (remove_message msgs s.process_queue).0 true s.offset_table)
          ≡ some o
        → (lookup mq s.offset_table ≡ some o) ⊎ NoneBelow o (remove_message msgs s.process_queue).1
    by_result true l e = inl e
    by_result false l e = elim (recorded_by mq _ o s.offset_table e) [
      | inl before ↦ inl before
      | inr now ↦ elim (remove_message-safe s.process_queue msgs h top) [
        | inl nothing ↦ absurd (low _ l nothing)
        | inr safe ↦
            inr (subst (λ x. NoneBelow x (remove_message msgs s.process_queue).1) now safe.1)
      ]
    ]

-- The queue and the table are as before the counts and the sending back.
abbrev Untouched : Service → Service → Type 0
Untouched s s' = (s'.process_queue ≡ s.process_queue) × (s'.offset_table ≡ s.offset_table)

after_back-Untouched :
    (failed msgs : List MessageExt) (s : Service) → Untouched s (after_back failed msgs s).1
after_back-Untouched [] msgs s = (refl, refl)
after_back-Untouched (f ∷ failed) msgs s = (refl, refl)

sent_back-Untouched :
    (model : MessageModel) (send : MessageExt → Bool) (rest msgs : List MessageExt) (s : Service)
    → Untouched s (sent_back model send rest msgs s).1
sent_back-Untouched MessageModel.broadcasting send rest msgs s = (refl, refl)
sent_back-Untouched MessageModel.clustering send rest msgs s =
    after_back-Untouched (msg_back_failed send rest) msgs s

counted-Untouched :
    (status : ConsumeConcurrentlyStatus) (ack : ℤ) (n : ℕ) (s : Service)
    → Untouched s (counted status ack n s)
counted-Untouched ConsumeConcurrentlyStatus.consume_success ack n s = (refl, refl)
counted-Untouched ConsumeConcurrentlyStatus.reconsume_later ack n s = (refl, refl)

pub before_removal :
    (model : MessageModel) (send : MessageExt → Bool) (status : ConsumeConcurrentlyStatus) (ack : ℤ)
    (n : ℕ) (rest msgs : List MessageExt) (s : Service)
    → let s' = (sent_back model send rest msgs (counted status ack n s)).1 in
      (s'.process_queue ≡ s.process_queue) × (s'.offset_table ≡ s.offset_table)
before_removal model send status ack n rest msgs s =
    let c = counted-Untouched status ack n s in
    let b = sent_back-Untouched model send rest msgs (counted status ack n s) in
    (b.0 ∙ c.0, b.1 ∙ c.1)

-- An offset that processConsumeResult records for its queue, other than the one that was recorded,
-- passes no message that is still in the process queue: the queue is ordered and has no offset above
-- `m_queueOffsetMax`.
pub process_consume_result-safe :
    (model : MessageModel) (send : MessageExt → Bool) (status : ConsumeConcurrentlyStatus) (ack : ℤ)
    (mq : MessageQueue) (msgs : List MessageExt) (s : Service) (o : ℤ)
    → IsOrdered s.process_queue.msg_tree_map
    → ((j : ℤ) (w : MessageExt)
        → lookup j s.process_queue.msg_tree_map ≡ some w
        → j ≤ℤ s.process_queue.queue_offset_max)
    → let s' = process_consume_result model send status ack mq msgs s in
      lookup mq s'.offset_table ≡ some o
      → (lookup mq s.offset_table ≡ some o) ⊎ NoneBelow o s'.process_queue
unfolding process_consume_result
process_consume_result-safe model send status ack mq [] s o h top e = inl e
process_consume_result-safe model send status ack mq (msg ∷ msgs) s o h top e =
    let b =
      before_removal model send status ack (length (msg ∷ msgs))
        (unacknowledged status ack (msg ∷ msgs)) (msg ∷ msgs) s in
    elim (remove_and_update-safe mq _ _ o (subst (λ q. IsOrdered q.msg_tree_map) (sym b.0) h)
      (subst
        (λ q. (j : ℤ) (w : MessageExt) → lookup j q.msg_tree_map ≡ some w → j ≤ℤ q.queue_offset_max)
        (sym b.0) top)
      e) [ inl before ↦ inl (ap (lookup mq) (sym b.1) ∙ before) | inr safe ↦ inr safe ]
