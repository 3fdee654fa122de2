-- ===== src/Consumer/ProcessQueue/Valid.antt =====
-- ProcessQueue's invariant, and that every call keeps it.
use test.Prelude.{
  ℕ, ◌+◌, ◌≡◌, refl, ap, ◌∙◌, Bool, Option, none, some, List, [], ◌∷◌, arith, length,
}
use test.Prelude.Int.{ℤ, pos, pos_part, pos-add, pos-sub}
use test.SortedMap.{Map, size, last}
use test.SortedMap.Keys.{ℤ_order}
use test.Message.MessageExt.{MessageExt}
use test.Consumer.ProcessQueue.{
  ProcessQueue, new_process_queue, put_message, remove_message, remove_from, take_locked,
  after_unlock, commit, commit_at, rollback, make_message_to_cosume_again,
}
use test.Consumer.ProcessQueue.Sound.{
  Sound, Fresh, Held, put_all-Sound, size-put_all, erase_all-Sound, size-erase_all, take_loop-Sound,
  size-take_loop, restore-Sound, size-restore, Sound-back, size-back, Sound-clear, Sound-empty,
}

-- The counter is the number of the messages that wait or are out.
pub record IsValid (q : ProcessQueue) : Type 0 where
  pub sound : Sound q.msg_tree_map q.msg_tree_map_temp
  pub counted : q.msg_count ≡ pos (size q.msg_tree_map + size q.msg_tree_map_temp)

-- The steps of the methods that change the queue, with their arguments: a method is one step, but takeMessags
-- is two, `takes` and, with what it has taken, `unlocked`, between which any others may come.
pub data Call : Type 0 where
  puts removes makes_again : List MessageExt → Call
  takes : ℤ → Call
  unlocked : List MessageExt → Call
  commits rolls_back : Call
  sets_droped sets_locked : Bool → Call
  sets_last_lock_timestamp : ℕ → Call

unfoldable pub apply : Call → ProcessQueue → ProcessQueue
apply (puts msgs) q = (put_message msgs q).1
apply (removes msgs) q = (remove_message msgs q).1
apply (makes_again msgs) q = make_message_to_cosume_again msgs q
apply (takes batch) q = (take_locked batch q).1
apply (unlocked result) q = after_unlock result q
apply commits q = (commit q).1
apply rolls_back q = rollback q
apply (sets_droped b) q = record q { droped = b }
apply (sets_locked b) q = record q { locked = b }
apply (sets_last_lock_timestamp t) q = record q { last_lock_timestamp = t }

-- What the callers keep to: only new offsets are put, and only messages that are there are removed
-- or made ready again.
abbrev pub Allowed : Call → ProcessQueue → Type 0
Allowed (puts msgs) q = Fresh msgs q.msg_tree_map q.msg_tree_map_temp
Allowed (removes msgs) q = Held msgs q.msg_tree_map
Allowed (makes_again msgs) q = Held msgs q.msg_tree_map_temp
Allowed _ q = Unit {0}

unfoldable pub run : List Call → ProcessQueue → ProcessQueue
run [] q = q
run (c ∷ cs) q = run cs (apply c q)

abbrev pub AllAllowed : List Call → ProcessQueue → Type 0
AllAllowed [] q = Unit {0}
AllAllowed (c ∷ cs) q = Allowed c q × AllAllowed cs (apply c q)

put_message-IsValid :
    (msgs : List MessageExt) (q : ProcessQueue)
    → Fresh msgs q.msg_tree_map q.msg_tree_map_temp
    → IsValid q
    → IsValid (put_message msgs q).1
unfolding put_message
put_message-IsValid msgs q f v = record {
  sound = put_all-Sound msgs _ _ f v.sound;
  counted = rw v.counted (
      pos-add _ (length msgs)
      ∙ ap pos (omega (arith, size-put_all msgs q.msg_tree_map q.msg_tree_map_temp f)));
}

remove_from-IsValid :
    (m : Map ℤ MessageExt) (msgs : List MessageExt) (q : ProcessQueue)
    → m ≡ q.msg_tree_map
    → Held msgs m
    → IsValid q
    → IsValid (remove_from m msgs q).1
unfolding remove_from
remove_from-IsValid [] msgs q e h v = v
remove_from-IsValid (entry ∷ m) msgs q e h v = record {
  sound = erase_all-Sound msgs _ _ (rw e v.sound);
  counted = rw v.counted (
      pos-sub _ (length msgs) _
        (omega (arith, size-erase_all msgs (entry ∷ m) h, ap (size {V = MessageExt}) e)));
}

take_locked-IsValid : (batch : ℤ) (q : ProcessQueue) → IsValid q → IsValid (take_locked batch q).1
take_locked-IsValid batch q v = record {
  sound = take_loop-Sound (pos_part batch) _ _ v.sound;
  counted = v.counted ∙ ap pos (omega (arith, size-take_loop (pos_part batch) _ _ v.sound));
}

rollback-IsValid : (q : ProcessQueue) → IsValid q → IsValid (rollback q)
unfolding rollback
rollback-IsValid q v = record {
  sound = restore-Sound _ _ v.sound;
  counted = v.counted ∙ ap pos (omega (arith, size-restore _ _ v.sound));
}

commit_at-IsValid :
    (o : Option (ℤ × MessageExt)) (q : ProcessQueue) → IsValid q → IsValid (commit_at o q).1
commit_at-IsValid none q v = v
commit_at-IsValid (some (k, m)) q v = record {
  sound = Sound-clear _ _ v.sound;
  counted =
      rw v.counted (pos-sub (size q.msg_tree_map + 0) (size q.msg_tree_map_temp) _ (omega arith));
}

commit-IsValid : (q : ProcessQueue) → IsValid q → IsValid (commit q).1
unfolding commit
commit-IsValid q v = commit_at-IsValid (last q.msg_tree_map_temp) q v

make_message_to_cosume_again-IsValid :
    (msgs : List MessageExt) (q : ProcessQueue)
    → Held msgs q.msg_tree_map_temp
    → IsValid q
    → IsValid (make_message_to_cosume_again msgs q)
unfolding make_message_to_cosume_again
make_message_to_cosume_again-IsValid [] q h v = v
make_message_to_cosume_again-IsValid (m ∷ msgs) q h v =
    make_message_to_cosume_again-IsValid msgs _ h.1 (record {
      sound = Sound-back m _ _ v.sound;
      counted = v.counted ∙ ap pos (omega (arith, size-back m _ _ v.sound h.0));
    })

pub apply-IsValid : (c : Call) (q : ProcessQueue) → Allowed c q → IsValid q → IsValid (apply c q)
unfolding apply
apply-IsValid (puts msgs) q a v = put_message-IsValid msgs q a v
apply-IsValid (removes msgs) q a v =
    unfold remove_message in remove_from-IsValid q.msg_tree_map msgs q refl a v
apply-IsValid (makes_again msgs) q a v = make_message_to_cosume_again-IsValid msgs q a v
apply-IsValid (takes batch) q a v = take_locked-IsValid batch q v
apply-IsValid (unlocked result) q a v = record { sound = v.sound; counted = v.counted }
apply-IsValid commits q a v = commit-IsValid q v
apply-IsValid rolls_back q a v = rollback-IsValid q v
apply-IsValid (sets_droped b) q a v = record { sound = v.sound; counted = v.counted }
apply-IsValid (sets_locked b) q a v = record { sound = v.sound; counted = v.counted }
apply-IsValid (sets_last_lock_timestamp t) q a v = record { sound = v.sound; counted = v.counted }

pub run-IsValid :
    (cs : List Call) (q : ProcessQueue) → AllAllowed cs q → IsValid q → IsValid (run cs q)
unfolding run
run-IsValid [] q a v = v
run-IsValid (c ∷ cs) q a v = run-IsValid cs (apply c q) a.1 (apply-IsValid c q a.0 v)

new_process_queue-IsValid : (now : ℕ) → IsValid (new_process_queue now)
unfolding new_process_queue
new_process_queue-IsValid now = record { sound = Sound-empty; counted = refl }

-- From a new queue, after any calls in any order, also between the two steps of a takeMessags, that put only offsets which the queue does not hold
-- and remove or make ready only messages which are there: both maps are ordered and keyed by the
-- offsets of their messages, no offset is in both, and the counter is the number of the messages in
-- the two.
pub run-new_process_queue :
    (now : ℕ) (cs : List Call)
    → AllAllowed cs (new_process_queue now)
    → IsValid (run cs (new_process_queue now))
run-new_process_queue now cs a = run-IsValid cs _ a (new_process_queue-IsValid now)
