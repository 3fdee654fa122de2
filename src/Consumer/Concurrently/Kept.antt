-- ===== src/Consumer/Concurrently/Kept.antt =====
-- What becomes of a message that is neither acknowledged nor taken back by the broker.
use test.Prelude.{
  ℕ, zero, suc, ◌≤◌, ◌≡◌, ◌≢◌, refl, sym, ap, ◌∙◌, arith, Bool, true, false, List, [], ◌∷◌, ◌++◌,
  length, drop,
}
use test.Prelude.Int.{ℤ, pos, ◌+ℤ◌, pos_part}
use test.SortedMap.{Map, lookup, erase}
use test.SortedMap.Keys.{ℤ_order}
use test.SortedMap.Laws.{lookup-erase_ne}
use test.Message.MessageExt.{MessageExt}
use test.Message.MessageQueue.{MessageQueue}
use test.Consumer.ProcessQueue.{ProcessQueue, remove_message, remove_from, erase_all}
use test.Consumer.Concurrently.{
  Service, MessageModel, ConsumeConcurrentlyStatus, process_consume_result, remove_and_update,
  sent_back, after_back, msg_back_failed, unacknowledged, counted, is_among, without,
  effective_ack_index,
}
use test.Consumer.Concurrently.Safe.{before_removal}

-- No message of the list has the offset; the offsets of the list are distinct.
abbrev pub NotAt : ℤ → List MessageExt → Type 0
NotAt o [] = Unit {0}
NotAt o (x ∷ xs) = (x.queue_offset ≢ o) × NotAt o xs

abbrev pub Apart : List MessageExt → Type 0
Apart [] = Unit {0}
Apart (x ∷ xs) = NotAt x.queue_offset xs × Apart xs

erase_all-NotAt :
    (o : ℤ) (xs : List MessageExt) (t : Map ℤ MessageExt)
    → NotAt o xs
    → lookup o (erase_all xs t) ≡ lookup o t
unfolding erase_all
erase_all-NotAt o [] t h = refl
erase_all-NotAt o (x ∷ xs) t h =
    erase_all-NotAt o xs (erase x.queue_offset t) h.1
    ∙ lookup-erase_ne x.queue_offset o t (λ e. h.0 (sym e))

without-NotAt : (o : ℤ) (failed xs : List MessageExt) → NotAt o xs → NotAt o (without failed xs)
unfolding without
without-NotAt o failed [] h = tt
without-NotAt o failed (x ∷ xs) h = ground (arith, without-NotAt o failed xs h.1)

NotAt-middle :
    (m x : MessageExt) (before after : List MessageExt)
    → NotAt x.queue_offset (before ++ m ∷ after)
    → x.queue_offset ≢ m.queue_offset
NotAt-middle m x [] after h = λ e. h.0 (sym e)
NotAt-middle m x (b ∷ before) after h = NotAt-middle m x before after h.1

-- Without a message that is among the failed, the rest of a list of distinct offsets is not at its.
without-spares :
    (m : MessageExt) (failed before after : List MessageExt)
    → is_among m.address failed ≡ true
    → Apart (before ++ m ∷ after)
    → NotAt m.queue_offset (without failed (before ++ m ∷ after))
unfolding without
without-spares m failed [] after a h = ground (arith, without-NotAt m.queue_offset failed after h.0)
without-spares m failed (b ∷ before) after a h =
    ground (arith, without-spares m failed before after a h.1, NotAt-middle m b before after h.0)

failed_here :
    (send : MessageExt → Bool) (m : MessageExt) (before after : List MessageExt)
    → send m ≡ false
    → is_among m.address (msg_back_failed send (before ++ m ∷ after)) ≡ true
unfolding is_among msg_back_failed
failed_here send m [] after e = ground arith
failed_here send m (b ∷ before) after e = ground (arith, failed_here send m before after e)

failed_later :
    (send : MessageExt → Bool) (m : MessageExt) (n : ℕ) (before after : List MessageExt)
    → send m ≡ false
    → n ≤ length before
    → is_among m.address (msg_back_failed send (drop n (before ++ m ∷ after))) ≡ true
failed_later send m zero before after e h = failed_here send m before after e
failed_later send m (suc n) [] after e h = absurd (omega (arith, h))
failed_later send m (suc n) (b ∷ before) after e h =
    failed_later send m n before after e (omega (arith, h))

remove_from-NotAt :
    (o : ℤ) (t : Map ℤ MessageExt) (xs : List MessageExt) (q : ProcessQueue)
    → q.msg_tree_map ≡ t
    → NotAt o xs
    → lookup o (remove_from t xs q).1.msg_tree_map ≡ lookup o t
unfolding remove_from
remove_from-NotAt o [] xs q e h = ap (lookup o) e
remove_from-NotAt o (x ∷ t) xs q e h = erase_all-NotAt o xs (x ∷ t) h

-- The lists submitted later after the sending back, and what is left of the request.
left_of :
    (m : MessageExt) (failed before after : List MessageExt) (s : Service)
    → is_among m.address failed ≡ true
    → Apart (before ++ m ∷ after)
    → let b = after_back failed (before ++ m ∷ after) s in
      NotAt m.queue_offset b.0 × (b.1.submitted_later ≡ s.submitted_later ++ failed ∷ [])
unfolding is_among
left_of m [] before after s a h = absurd (cc a)
left_of m (f ∷ failed) before after s a h = (without-spares m (f ∷ failed) before after a h, refl)

counted-submitted_later :
    (status : ConsumeConcurrentlyStatus) (ack : ℤ) (n : ℕ) (s : Service)
    → (counted status ack n s).submitted_later ≡ s.submitted_later
counted-submitted_later ConsumeConcurrentlyStatus.consume_success ack n s = refl
counted-submitted_later ConsumeConcurrentlyStatus.reconsume_later ack n s = refl

removed :
    (m : MessageExt) (mq : MessageQueue) (xs : List MessageExt) (s' s : Service)
    → s'.process_queue ≡ s.process_queue
    → NotAt m.queue_offset xs
    → lookup m.queue_offset (remove_and_update mq xs s').process_queue.msg_tree_map
      ≡ lookup m.queue_offset s.process_queue.msg_tree_map
unfolding remove_and_update remove_message
removed m mq xs s' s e h =
    remove_from-NotAt m.queue_offset s'.process_queue.msg_tree_map xs s'.process_queue refl h
    ∙ ap (λ q. lookup m.queue_offset q.msg_tree_map) e

abbrev pub acknowledged_count : ConsumeConcurrentlyStatus → ℤ → List MessageExt → ℕ
acknowledged_count status ack msgs =
    pos_part (effective_ack_index status ack (length msgs) +ℤ pos 1)

module _ (send : MessageExt → Bool) (status : ConsumeConcurrentlyStatus) (ack : ℤ)
    (mq : MessageQueue) (m : MessageExt) where
  -- What processConsumeResult does to the queue and to the lists submitted later.
  abbrev Kept : List MessageExt → Service → Service → Type 0
  Kept msgs s s' =
      (lookup m.queue_offset s'.process_queue.msg_tree_map
        ≡ lookup m.queue_offset s.process_queue.msg_tree_map)
      × (s'.submitted_later
          ≡ s.submitted_later ++ msg_back_failed send (unacknowledged status ack msgs) ∷ [])

  body-Kept :
      (before after : List MessageExt) (s : Service)
      → is_among m.address (msg_back_failed send (unacknowledged status ack (before ++ m ∷ after)))
        ≡ true
      → Apart (before ++ m ∷ after)
      → let msgs = before ++ m ∷ after in
        let b =
          sent_back MessageModel.clustering send
            (unacknowledged status ack msgs)
            msgs
            (counted status ack (length msgs) s) in
        Kept msgs s (remove_and_update mq b.0 b.1)
  unfolding remove_and_update
  body-Kept before after s among apart =
      let msgs = before ++ m ∷ after in
      let rest = unacknowledged status ack msgs in
      let s' = counted status ack (length msgs) s in
      let l = left_of m (msg_back_failed send rest) before after s' among apart in
      let b = sent_back MessageModel.clustering send rest msgs s' in
      (
        removed m mq b.0 b.1 s
            (before_removal MessageModel.clustering send status ack (length msgs) rest msgs s).0
            l.0,
        l.1
            ∙ ap (λ later. later ++ msg_back_failed send rest ∷ [])
                (counted-submitted_later status ack (length msgs) s),
      )

  -- In the clustering mode, a message after the acknowledged ones that the broker does not take back
  -- stays in the process queue, so that the offset recorded cannot pass it, and is among the messages
  -- that are submitted again later; the offsets of the request's messages are distinct.
  pub process_consume_result-kept :
      (before after : List MessageExt) (s : Service)
      → let msgs = before ++ m ∷ after in
        send m ≡ false
        → acknowledged_count status ack msgs ≤ length before
        → Apart msgs
        → let s' = process_consume_result MessageModel.clustering send status ack mq msgs s in
          let failed = msg_back_failed send (unacknowledged status ack msgs) in
          (lookup m.queue_offset s'.process_queue.msg_tree_map
            ≡ lookup m.queue_offset s.process_queue.msg_tree_map)
          × (s'.submitted_later ≡ s.submitted_later ++ failed ∷ [])
          × (is_among m.address failed ≡ true)
  unfolding process_consume_result
  process_consume_result-kept [] after s e n apart =
      let among = failed_later send m _ [] after e n in
      let k = body-Kept [] after s among apart in (k.0, k.1, among)
  process_consume_result-kept (b ∷ before) after s e n apart =
      let among = failed_later send m _ (b ∷ before) after e n in
      let k = body-Kept (b ∷ before) after s among apart in (k.0, k.1, among)
