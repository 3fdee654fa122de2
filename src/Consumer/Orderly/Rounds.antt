-- ===== src/Consumer/Orderly/Rounds.antt =====
-- What the rounds of ConsumeOrderlyRequest::Do do to the process queue, and that they end.
use test.Prelude.{
  ℕ, zero, suc, ltb, ◌+◌, ◌≤◌, ◌<◌, ◌≡◌, inl, inr, refl, sym, ap, ◌∙◌, arith, Bool, true, false,
  not, ◌&&◌, Option, some, List, [], ◌∷◌, ◌++◌, if◌then◌else◌, length, Bool-cases,
}
use test.Prelude.Int.{ℤ, pos, pos_part}
use test.SortedMap.{Map, size, insert, IsOrdered}
use test.SortedMap.Keys.{ℤ_order}
use test.Message.MessageExt.{MessageExt}
use test.Message.MessageQueue.{MessageQueue}
use test.Consumer.Concurrently.{MessageModel}
use test.Consumer.ProcessQueue.{
  is_lock_expired, take_loop, take_messags, make_message_to_cosume_again,
}
use test.Consumer.ProcessQueue.Moves.{IsKeyed}
use test.Consumer.ProcessQueue.Commits.{commit-tree, make_message_to_cosume_again-take_messags}
use test.Consumer.Orderly.{
  ConsumeOrderlyStatus, ConsumeOrderlyContext, success_status, rollback_status, commit_status,
  suspend_current_queue_a_moment, OrderlyService, Round, process_orderly_result, consume_taken,
  consume_round, consume_rounds, do_orderly, status_or_suspend, committed, is_clustering,
  max_time_consume_continuously, try_lock_later_and_reconsume, Timer, try_lock_and_reconsume_after,
  submit_consume_request_after, clamped, submit_consume_request_later, delete_messages,
}

take_loop-size :
    (n : ℕ) (tree temp : Map ℤ MessageExt)
    → size (take_loop n tree temp).tree + length (take_loop n tree temp).result ≡ size tree
unfolding take_loop
take_loop-size zero tree temp = omega arith
take_loop-size (suc n) [] temp = refl
take_loop-size (suc n) ((k, m) ∷ tree) temp = omega (arith, take_loop-size n tree (insert k m temp))

committed-tree :
    (mq : MessageQueue) (n : ℕ) (s : OrderlyService)
    → (committed mq n s).1.process_queue.msg_tree_map ≡ s.process_queue.msg_tree_map
committed-tree mq n s = commit-tree s.process_queue

-- A result that lets the loop go on leaves the tree alone.
goes_on-tree :
    (msgs : List MessageExt) (status : ConsumeOrderlyStatus) (c : ConsumeOrderlyContext)
    (mq : MessageQueue) (s : OrderlyService)
    → (process_orderly_result msgs status c mq s).0 ≡ true
    → (process_orderly_result msgs status c mq s).1.process_queue.msg_tree_map
      ≡ s.process_queue.msg_tree_map
unfolding process_orderly_result
goes_on-tree msgs success_status c mq s h = ground (arith, committed-tree mq (length msgs) s)
goes_on-tree msgs rollback_status c mq s h = ground (arith, committed-tree mq (length msgs) s)
goes_on-tree msgs commit_status c mq s h = committed-tree mq (length msgs) s
goes_on-tree msgs suspend_current_queue_a_moment c mq s h = absurd (cc h)

deleting :
    (msgs : List MessageExt) (r : Bool × OrderlyService)
    → ((delete_messages msgs r).0 ≡ r.0)
      × ((delete_messages msgs r).1.process_queue ≡ r.1.process_queue)
deleting msgs (true, s) = (refl, refl)
deleting msgs (false, s) = (refl, refl)

taken-shrinks :
    (round : Round) (mq : MessageQueue) (msgs : List MessageExt) (s : OrderlyService)
    → (consume_taken round mq msgs s).0 ≡ true
    → (1 ≤ length msgs)
      × ((consume_taken round mq msgs s).1.process_queue.msg_tree_map
          ≡ s.process_queue.msg_tree_map)
taken-shrinks round mq [] s h = absurd (cc h)
taken-shrinks round mq (msg ∷ msgs) s h =
    let answer = round.consume_message (msg ∷ msgs) in
    let r = process_orderly_result (msg ∷ msgs) (status_or_suspend answer.0) answer.1 mq s in
    let d = deleting (msg ∷ msgs) r in
    (
      omega arith,
      ap (λ q. q.msg_tree_map) d.1
          ∙ goes_on-tree (msg ∷ msgs) (status_or_suspend answer.0) answer.1 mq s (sym d.0 ∙ h),
    )

round-shrinks :
    (model : MessageModel) (batch : ℤ) (begin : ℕ) (mq : MessageQueue) (round : Round)
    (s : OrderlyService)
    → (consume_round model batch begin mq round s).0 ≡ true
    → size (consume_round model batch begin mq round s).1.process_queue.msg_tree_map
      < size s.process_queue.msg_tree_map
unfolding consume_round take_messags
round-shrinks model batch begin mq round s h =
    let q = s.process_queue in
    let t = take_loop (pos_part batch) q.msg_tree_map q.msg_tree_map_temp in
    ground (
      arith,
      taken-shrinks round mq t.result (record s { process_queue = (take_messags batch q).1 }),
      take_loop-size (pos_part batch) q.msg_tree_map q.msg_tree_map_temp,
    )

rounds-end :
    (fuel : ℕ) (model : MessageModel) (batch : ℤ) (begin : ℕ) (mq : MessageQueue)
    (rounds : ℕ → Round) (s : OrderlyService)
    → size s.process_queue.msg_tree_map < fuel
    → (s' : OrderlyService) × (consume_rounds fuel model batch begin mq rounds s ≡ some s')
unfolding consume_rounds
rounds-end zero model batch begin mq rounds s h = absurd (omega (arith, h))
rounds-end (suc fuel) model batch begin mq rounds s h =
    let r = consume_round model batch begin mq (rounds fuel) s in
    elim (Bool-cases r.0) [
      | inl on ↦
          let shrinks = round-shrinks model batch begin mq (rounds fuel) s on in
          let rest = rounds-end fuel model batch begin mq rounds r.1 (omega (arith, shrinks, h)) in
          (
            rest.0,
            ap (λ b. if b then consume_rounds fuel model batch begin mq rounds r.1 else some r.1) on
                ∙ rest.1,
          )
      | inr off ↦ (
        r.1,
        ap (λ b. if b then consume_rounds fuel model batch begin mq rounds r.1 else some r.1) off,
      )
    ]

-- However the listener answers and the clock runs, Do ends: every round that lets it go on has taken a
-- message from the tree, so that one round more than the tree has messages is enough, while no other
-- thread puts messages in.
pub do_orderly-ends :
    (fuel : ℕ) (model : MessageModel) (batch : ℤ) (now : ℕ) (mq : MessageQueue) (rounds : ℕ → Round)
    (s : OrderlyService)
    → size s.process_queue.msg_tree_map < fuel
    → (s' : OrderlyService) × (do_orderly fuel model batch now mq rounds s ≡ some s')
unfolding do_orderly
do_orderly-ends fuel model batch now mq rounds s h =
    let r = rounds-end fuel model batch now mq rounds s h in
    ended (try_lock_later_and_reconsume (pos 10) s) _ r.0 r.1
  where
    ended :
        (other : OrderlyService) {rest : Option OrderlyService} (b : Bool) (s' : OrderlyService)
        → rest ≡ some s'
        → (s'' : OrderlyService) × ((if b then rest else some other) ≡ some s'')
    ended other true s' e = (s', e)
    ended other false s' e = (other, refl)

-- What a round does that is not to go on.
abbrev pub GivesBack : OrderlyService → Bool × OrderlyService → Type 0
GivesBack s r =
    (r.0 ≡ false)
    × (r.1.process_queue.msg_tree_map ≡ s.process_queue.msg_tree_map)
    × (r.1.process_queue.msg_tree_map_temp ≡ [])
    × (r.1.offset_table ≡ s.offset_table)
    × (r.1.deleted ≡ s.deleted)

consume_taken-suspend :
    (round : Round) (mq : MessageQueue) (msgs : List MessageExt) (s s₀ : OrderlyService)
    → status_or_suspend (round.consume_message msgs).0 ≡ suspend_current_queue_a_moment
    → ((make_message_to_cosume_again msgs s.process_queue).msg_tree_map
        ≡ s₀.process_queue.msg_tree_map)
      × ((make_message_to_cosume_again msgs s.process_queue).msg_tree_map_temp ≡ [])
    → (s.offset_table ≡ s₀.offset_table) × (s.deleted ≡ s₀.deleted)
    → GivesBack s₀ (consume_taken round mq msgs s)
unfolding process_orderly_result submit_consume_request_later make_message_to_cosume_again
consume_taken-suspend round mq [] s s₀ h back kept = (refl, back.0, back.1, kept.0, kept.1)
consume_taken-suspend round mq (msg ∷ msgs) s s₀ h back kept =
    rw h (refl, back.0, back.1, kept.0, kept.1)

-- A round whose listener suspends the queue, or throws, gives everything back: the loop stops, the tree
-- is as before, no message is out, no offset is recorded and nothing is deleted. The queue is
-- ordered by the offsets of its messages and no earlier batch is out.
pub consume_round-suspend :
    (model : MessageModel) (batch : ℤ) (begin : ℕ) (mq : MessageQueue) (round : Round)
    (s : OrderlyService)
    → IsOrdered s.process_queue.msg_tree_map
    → IsKeyed s.process_queue.msg_tree_map
    → s.process_queue.msg_tree_map_temp ≡ []
    → ((msgs : List MessageExt)
        → status_or_suspend (round.consume_message msgs).0 ≡ suspend_current_queue_a_moment)
    → GivesBack s (consume_round model batch begin mq round s)
unfolding consume_round submit_consume_request_later
consume_round-suspend model batch begin mq round s h k e l =
    let q = s.process_queue in
    let t = take_messags batch q in
    let back = make_message_to_cosume_again-take_messags q batch h k e in
    by_guards (s.timers ++ try_lock_and_reconsume_after (pos 10) ∷ [])
      (s.timers ++ submit_consume_request_after (clamped (pos 10)) ∷ [])
      (consume_taken round mq t.0 (record s { process_queue = t.1 })) q.droped
      (is_clustering model && not q.locked) (is_clustering model && is_lock_expired round.now q)
      (ltb (begin + max_time_consume_continuously) round.now)
      (consume_taken-suspend round mq t.0 (record s { process_queue = t.1 }) s (l t.0)
        (back.0, back.1) (refl, refl))
  where
    by_guards :
        (p p' : List Timer) (r : Bool × OrderlyService) (a b c d : Bool)
        → GivesBack s r
        → GivesBack s (
            if a
            then (false, s)
            else if b
            then (false, record s { timers = p })
            else if c
            then (false, record s { timers = p })
            else if d
            then (false, record s { timers = p' })
            else r)
    by_guards p p' r true b c d g = (refl, refl, e, refl, refl)
    by_guards p p' r false true c d g = (refl, refl, e, refl, refl)
    by_guards p p' r false false true d g = (refl, refl, e, refl, refl)
    by_guards p p' r false false false true g = (refl, refl, e, refl, refl)
    by_guards p p' r false false false false g = g
