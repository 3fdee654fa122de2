-- ===== src/Consumer/ProcessQueue/Tests.antt =====
-- ProcessQueue: tests, and the theorems at concrete queues.
use test.Prelude.{false, ℕ, ◌≡◌, refl, ◌⊎◌, true, some, List, [], ◌∷◌, arith}
use test.Prelude.Int.{ℤ, pos, minus_one, ◌+ℤ◌, ◌-ℤ◌, ◌≤ℤ◌}
use test.SortedMap.{lookup, insert, is_empty, erase, first, IsOrdered}
use test.SortedMap.Keys.{ℤ_order}
use test.Message.MessageExt.{MessageExt, message_at}
use test.Consumer.ProcessQueue.{
  ProcessQueue, new_process_queue, put_message, put_all, last_offset, take_messags, take_locked,
  after_unlock, take_loop, commit, rollback, make_message_to_cosume_again, remove_message,
  remove_from, removal_result, erase_all,
}
use test.Consumer.ProcessQueue.Valid.{
  Call, puts, takes, unlocked, commits, makes_again, run, apply, IsValid, run-new_process_queue,
}
use test.Consumer.ProcessQueue.Wakeup.{put_message-unattended}
use test.Consumer.ProcessQueue.Commits.{
  rollback-take_messags, make_message_to_cosume_again-take_messags, commit-take_messags,
  remove_message-safe,
}

abbrev at_offset : ℕ → MessageExt
at_offset n = message_at n (pos n)

abbrev batch : List MessageExt
batch = at_offset 5 ∷ at_offset 6 ∷ at_offset 7 ∷ []

-- Three messages wait, and their consume task was asked for.
filled : ProcessQueue
unfolding new_process_queue put_message put_all insert last_offset ◌+ℤ◌
filled = (put_message batch (new_process_queue 0)).1

abbrev calls : List Call
calls =
    puts batch
    ∷ takes (pos 2)
    ∷ unlocked (at_offset 5 ∷ at_offset 6 ∷ [])
    ∷ makes_again (at_offset 6 ∷ [])
    ∷ commits
    ∷ []

run-new_process_queue_example : IsValid (run calls (new_process_queue 0))
unfolding run apply new_process_queue put_message put_all insert take_loop lookup
run-new_process_queue_example =
    run-new_process_queue 0 calls
      ((refl, refl, (refl, refl, (refl, refl, tt))), (tt, (tt, ((refl, tt), (tt, tt)))))

-- A consume task is at work, and no message waits.
abbrev idle : ProcessQueue
idle = record {
  msg_tree_map = [];
  queue_offset_max = pos 7;
  msg_count = pos 0;
  droped = false;
  locked = false;
  last_lock_timestamp = 0;
  consuming = true;
  msg_tree_map_temp = [];
}

put_message-unattended_example :
    let t = take_locked (pos 1) idle in
    let between = after_unlock t.0 (put_message batch t.1).1 in
    (((put_message batch t.1).0 ≡ false)
      × (is_empty between.msg_tree_map ≡ false)
      × (between.consuming ≡ false))
    × ((put_message batch (after_unlock t.0 t.1)).0 ≡ true)
unfolding take_loop
put_message-unattended_example = put_message-unattended (pos 1) batch idle refl refl (λ e. cc e)

two_taken : (take_messags (pos 2) filled).0 ≡ at_offset 5 ∷ at_offset 6 ∷ []
unfolding filled take_messags take_loop
two_taken = refl

rollback-take_messags_example :
    (rollback (take_messags (pos 2) filled).1).msg_tree_map ≡ filled.msg_tree_map
unfolding filled
rollback-take_messags_example = (rollback-take_messags filled (pos 2) filled-IsOrdered refl).0
  where
    filled-IsOrdered : IsOrdered filled.msg_tree_map
    filled-IsOrdered = ((refl, (refl, tt)), ((refl, tt), (tt, tt)))

make_message_to_cosume_again-take_messags_example :
    (make_message_to_cosume_again
      (at_offset 5 ∷ at_offset 6 ∷ [])
      (take_messags (pos 2) filled).1).msg_tree_map
    ≡ filled.msg_tree_map
unfolding filled take_messags take_loop
make_message_to_cosume_again-take_messags_example =
    (make_message_to_cosume_again-take_messags filled (pos 2)
      ((refl, (refl, tt)), ((refl, tt), (tt, tt))) (refl, (refl, (refl, tt))) refl).0

commit-take_messags_example : (commit (take_messags (pos 2) filled).1).0 ≡ pos 7
unfolding filled take_messags take_loop last_offset ◌+ℤ◌
commit-take_messags_example =
    (commit-take_messags filled (pos 2) ((refl, (refl, tt)), ((refl, tt), (tt, tt)))
      (refl, (refl, (refl, tt))) refl).0

-- The message at offset 5 goes, and 6 may be committed.
one_removed : (remove_message (at_offset 5 ∷ []) filled).0 ≡ pos 6
unfolding filled remove_message remove_from removal_result erase_all erase ◌+ℤ◌ ◌-ℤ◌
one_removed = refl

top_offset :
    (j : ℤ) (w : MessageExt) → lookup j filled.msg_tree_map ≡ some w → j ≤ℤ filled.queue_offset_max
unfolding filled lookup
top_offset j w e = ground arith

remove_message-safe_example :
    let r = remove_message (at_offset 5 ∷ []) filled in
    (r.0 ≡ minus_one)
    ⊎ (((j : ℤ) (w : MessageExt) → first filled.msg_tree_map ≡ some (j, w) → j +ℤ pos 1 ≤ℤ r.0)
        × ((j : ℤ) (w : MessageExt) → lookup j r.1.msg_tree_map ≡ some w → r.0 ≤ℤ j))
unfolding filled
remove_message-safe_example =
    remove_message-safe filled (at_offset 5 ∷ []) ((refl, (refl, tt)), ((refl, tt), (tt, tt)))
      top_offset
