-- ===== src/Consumer/Orderly.antt =====
-- src/consumer/ConsumeMessageOrderlyService.cpp: the consumption of a queue in order, by one thread at
-- a time (the request holds the queue's lock). The listener's answers and the clock are parameters, one
-- of each for every round of the loop. Hooks, the consumption times and logging are left out. `delete`
-- of a message is noted in `deleted`.
pub mod Rounds
mod Tests
use test.Prelude.{
  ℕ, zero, suc, ◌+◌, ◌≡◌, Bool, true, false, ◌&&◌, ◌||◌, not, Option, none, some, List, [], ◌∷◌,
  ◌++◌, length, ltb, if◌then◌else◌,
}
use test.Prelude.Int.{ℤ, pos, minus_one, ltb_ℤ, ◌+ℤ◌}
use test.Message.MessageExt.{MessageExt}
use test.Message.MessageQueue.{MessageQueue, message_queue_order}
use test.Consumer.Offset.Remote.{OffsetTable, update_offset}
use test.Consumer.Concurrently.{MessageModel, broadcasting, clustering}
use test.Consumer.ProcessQueue.{
  ProcessQueue, take_messags, commit, rollback, make_message_to_cosume_again, is_lock_expired,
}

pub data ConsumeOrderlyStatus : Type 0 where
  success_status rollback_status commit_status suspend_current_queue_a_moment : ConsumeOrderlyStatus

pub record ConsumeOrderlyContext : Type 0 where
  pub auto_commit : Bool
  pub suspend_current_queue_time_millis : ℤ

-- The timers that the service registers, with their delays.
pub data Timer : Type 0 where
  submit_consume_request_after try_lock_and_reconsume_after : ℤ → Timer

pub record OrderlyService : Type 0 where
  pub process_queue : ProcessQueue
  pub offset_table : OffsetTable
  pub timers : List Timer
  pub consume_msg_ok_total : ℤ
  pub consume_msg_failed_total : ℤ
  pub deleted : List MessageExt

abbrev pub max_time_consume_continuously : ℕ
max_time_consume_continuously = 60000

-- The delay of submitConsumeRequestLater.
unfoldable pub clamped : ℤ → ℤ
clamped suspend_time_millis =
    if ltb_ℤ suspend_time_millis (pos 10)
    then pos 10
    else if ltb_ℤ (pos 30000) suspend_time_millis
    then pos 30000
    else suspend_time_millis

unfoldable pub submit_consume_request_later : ℤ → OrderlyService → OrderlyService
submit_consume_request_later suspend_time_millis s = record s {
  timers = s.timers ++ submit_consume_request_after (clamped suspend_time_millis) ∷ [];
}

abbrev pub try_lock_later_and_reconsume : ℤ → OrderlyService → OrderlyService
try_lock_later_and_reconsume delay_mills s = record s {
  timers = s.timers ++ try_lock_and_reconsume_after delay_mills ∷ [];
}

-- The timer of tryLockLaterAndReconsume, by whether lockOneMQ has got the lock.
unfoldable pub on_time_out : Bool → OrderlyService → OrderlyService
on_time_out lock_ok s =
    if lock_ok
    then submit_consume_request_later (pos 10) s
    else submit_consume_request_later (pos 3000) s

-- The counts of messages.
abbrev pub count_ok : ℕ → OrderlyService → OrderlyService
count_ok n s = record s { consume_msg_ok_total = s.consume_msg_ok_total +ℤ pos n }

abbrev pub count_failed : ℕ → OrderlyService → OrderlyService
count_failed n s = record s { consume_msg_failed_total = s.consume_msg_failed_total +ℤ pos n }

-- The last step of processConsumeResult: updateOffset with the offset that a commit has given.
abbrev pub committed : MessageQueue → ℕ → OrderlyService → Bool × OrderlyService
committed mq n s =
    let c = commit s.process_queue in
    (
      true,
      count_ok n (record s {
        process_queue = c.1;
        offset_table =
            if ltb_ℤ c.0 (pos 0) then s.offset_table else update_offset mq c.0 false s.offset_table;
      }),
    )

abbrev pub suspended : List MessageExt → ℤ → OrderlyService → Bool × OrderlyService
suspended msgs millis s = (
  false,
  count_failed (length msgs) (
      submit_consume_request_later millis
        (record s { process_queue = make_message_to_cosume_again msgs s.process_queue })),
)

abbrev pub rolled_back : List MessageExt → ℤ → OrderlyService → Bool × OrderlyService
rolled_back msgs millis s = (
  false,
  count_failed (length msgs)
      (submit_consume_request_later millis (record s { process_queue = rollback s.process_queue })),
)

-- processConsumeResult: whether to go on, and the state.
unfoldable pub process_orderly_result :
    List MessageExt
    → ConsumeOrderlyStatus
    → ConsumeOrderlyContext
    → MessageQueue
    → OrderlyService
    → Bool × OrderlyService
process_orderly_result msgs success_status context mq s =
    if context.auto_commit then committed mq (length msgs) s else (true, count_ok (length msgs) s)
process_orderly_result msgs commit_status context mq s = committed mq (length msgs) s
process_orderly_result msgs rollback_status context mq s =
    if context.auto_commit
    then committed mq (length msgs) s
    else rolled_back msgs context.suspend_current_queue_time_millis s
process_orderly_result msgs suspend_current_queue_a_moment context mq s =
    suspended msgs context.suspend_current_queue_time_millis s

-- The time of a round, and what the listener makes of the messages: the status, if it throws nothing,
-- and the context as it leaves it.
pub record Round : Type 0 where
  pub now : ℕ
  pub consume_message : List MessageExt → Option ConsumeOrderlyStatus × ConsumeOrderlyContext

abbrev pub status_or_suspend : Option ConsumeOrderlyStatus → ConsumeOrderlyStatus
status_or_suspend none = suspend_current_queue_a_moment
status_or_suspend (some status) = status

-- The messages of a round that goes on are deleted.
abbrev pub delete_messages : List MessageExt → Bool × OrderlyService → Bool × OrderlyService
delete_messages msgs (true, s) = (true, record s { deleted = s.deleted ++ msgs })
delete_messages msgs (false, s) = (false, s)

abbrev pub consume_taken :
    Round → MessageQueue → List MessageExt → OrderlyService → Bool × OrderlyService
consume_taken round mq [] s = (false, s)
consume_taken round mq (msg ∷ msgs) s =
    let answer = round.consume_message (msg ∷ msgs) in
    delete_messages (msg ∷ msgs)
      (process_orderly_result (msg ∷ msgs) (status_or_suspend answer.0) answer.1 mq s)

abbrev pub is_clustering : MessageModel → Bool
is_clustering broadcasting = false
is_clustering clustering = true

-- A round of the loop of Do: whether to go on, and the state.
unfoldable pub consume_round :
    MessageModel → ℤ → ℕ → MessageQueue → Round → OrderlyService → Bool × OrderlyService
consume_round model batch begin_time mq round s =
    let q = s.process_queue in
    let t = take_messags batch q in
    if q.droped
    then (false, s)
    else if is_clustering model && not q.locked
    then (false, try_lock_later_and_reconsume (pos 10) s)
    else if is_clustering model && is_lock_expired round.now q
    then (false, try_lock_later_and_reconsume (pos 10) s)
    else if ltb (begin_time + max_time_consume_continuously) round.now
    then (false, submit_consume_request_later (pos 10) s)
    else consume_taken round mq t.0 (record s { process_queue = t.1 })

-- The loop: `none` if it has not ended when the fuel has.
unfoldable pub consume_rounds :
    ℕ → MessageModel → ℤ → ℕ → MessageQueue → (ℕ → Round) → OrderlyService → Option OrderlyService
consume_rounds zero model batch begin_time mq rounds s = none
consume_rounds (suc fuel) model batch begin_time mq rounds s =
    let r = consume_round model batch begin_time mq (rounds fuel) s in
    let rest = consume_rounds fuel model batch begin_time mq rounds r.1 in
    if r.0 then rest else some r.1

-- Do, begun at the given time.
unfoldable pub do_orderly :
    ℕ → MessageModel → ℤ → ℕ → MessageQueue → (ℕ → Round) → OrderlyService → Option OrderlyService
do_orderly fuel model batch now mq rounds s =
    let rest = consume_rounds fuel model batch now mq rounds s in
    if not (is_clustering model)
      || (s.process_queue.locked && not (is_lock_expired now s.process_queue))
    then rest
    else some (try_lock_later_and_reconsume (pos 10) s)
