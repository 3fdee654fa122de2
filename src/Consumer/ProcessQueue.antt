-- ===== src/Consumer/ProcessQueue.antt =====
-- src/consumer/ProcessQueue.{h,cpp}: the messages of one queue that were pulled and are not yet
-- consumed. Each method that works on the maps locks the queue's mutex for that, so its work on them is one
-- step; takeMessags writes `m_consuming` after it has unlocked, which is a step of its own. The `catch`
-- clauses are not modelled: nothing in the bodies throws but an allocation. `long long` and the
-- counter are integers: offsets and counts are far from the ends of 64 bits.
pub mod Moves
pub mod Sound
pub mod Valid
pub mod Removals
pub mod Commits
pub mod Wakeup
mod Tests
use test.Prelude.{
  ℕ, zero, suc, ◌+◌, ◌-◌, ◌%◌, ◌^◌, Bool, true, false, not, ◌&&◌, Option, none, some, List, [], ◌∷◌,
  length, ltb, if◌then◌else◌,
}
use test.Prelude.Int.{ℤ, pos, minus_one, ◌+ℤ◌, ◌-ℤ◌, eqb_ℤ, pos_part}
use test.SortedMap.{Map, insert, erase, size, first, last, is_empty}
use test.SortedMap.Keys.{ℤ_order}
use test.Message.MessageExt.{MessageExt}

pub record ProcessQueue : Type 0 where
  pub msg_tree_map : Map ℤ MessageExt
  pub queue_offset_max : ℤ
  pub msg_count : ℤ
  pub droped : Bool
  pub locked : Bool
  pub last_lock_timestamp : ℕ
  pub consuming : Bool
  pub msg_tree_map_temp : Map ℤ MessageExt

abbrev pub rebalance_lock_max_live_time : ℕ
rebalance_lock_max_live_time = 30000

-- The constructor, at the given time.
unfoldable pub new_process_queue : ℕ → ProcessQueue
new_process_queue now = record {
  msg_tree_map = [];
  queue_offset_max = pos 0;
  msg_count = pos 0;
  droped = false;
  locked = false;
  last_lock_timestamp = now;
  consuming = false;
  msg_tree_map_temp = [];
}

-- isLockExpired: the difference is an `unsigned long long`, and wraps.
unfoldable pub is_lock_expired : ℕ → ProcessQueue → Bool
is_lock_expired now q =
    ltb rebalance_lock_max_live_time ((now + 2 ^ 64 - q.last_lock_timestamp) % 2 ^ 64)

-- m[msg->getQueueOffset()] = msg, for each message of the list.
unfoldable pub put_all : List MessageExt → Map ℤ MessageExt → Map ℤ MessageExt
put_all [] m = m
put_all (msg ∷ msgs) m = put_all msgs (insert msg.queue_offset msg m)

-- The offset of the last message of the list; the given one if there is none.
unfoldable pub last_offset : ℤ → List MessageExt → ℤ
last_offset d [] = d
last_offset d (msg ∷ msgs) = last_offset msg.queue_offset msgs

-- putMessage, with its result `dispathToConsume`.
unfoldable pub put_message : List MessageExt → ProcessQueue → Bool × ProcessQueue
put_message msgs q =
    let tree = put_all msgs q.msg_tree_map in
    let dispatch = not (is_empty tree) && not q.consuming in
    (
      dispatch,
      record q {
        msg_tree_map = tree;
        queue_offset_max = last_offset q.queue_offset_max msgs;
        msg_count = q.msg_count +ℤ pos (length msgs);
        consuming = if dispatch then true else q.consuming;
      },
    )

abbrev pub span_of : Option (ℤ × MessageExt) → Option (ℤ × MessageExt) → ℤ
span_of (some (lo, _)) (some (hi, _)) = hi -ℤ lo
span_of (some _) none = pos 0
span_of none _ = pos 0

-- getMaxSpan
unfoldable pub get_max_span : ProcessQueue → ℤ
get_max_span q = span_of (first q.msg_tree_map) (last q.msg_tree_map)

-- m.erase(msg->getQueueOffset()), for each message of the list.
unfoldable pub erase_all : List MessageExt → Map ℤ MessageExt → Map ℤ MessageExt
erase_all [] m = m
erase_all (msg ∷ msgs) m = erase_all msgs (erase msg.queue_offset m)

-- The second half of removeMessage: `origin` is the first key before the erasures, `none` (-1 in the
-- source) if there was none, and `result` what the first half has left.
unfoldable pub removal_result : ℤ → ℤ → Map ℤ MessageExt → ℤ
removal_result origin result [] = result
removal_result origin result ((k, _) ∷ m) = if eqb_ℤ origin k then minus_one else k

-- removeMessage. Where the map is empty the erasures are skipped, and so is the count.
unfoldable pub remove_from : Map ℤ MessageExt → List MessageExt → ProcessQueue → ℤ × ProcessQueue
remove_from [] msgs q = (minus_one, q)
remove_from ((origin, m) ∷ rest) msgs q =
    let tree = erase_all msgs ((origin, m) ∷ rest) in
    (
      removal_result origin (q.queue_offset_max +ℤ pos 1) tree,
      record q { msg_tree_map = tree; msg_count = q.msg_count -ℤ pos (length msgs) },
    )

unfoldable pub remove_message : List MessageExt → ProcessQueue → ℤ × ProcessQueue
unfolding remove_from
remove_message msgs q = remove_from q.msg_tree_map msgs q

-- m_msgTreeMap[it->first] = it->second, for each entry of the temporary map.
unfoldable pub restore : Map ℤ MessageExt → Map ℤ MessageExt → Map ℤ MessageExt
restore [] tree = tree
restore ((k, m) ∷ temp) tree = restore temp (insert k m tree)

unfoldable pub rollback : ProcessQueue → ProcessQueue
rollback q = record q {
  msg_tree_map = restore q.msg_tree_map_temp q.msg_tree_map;
  msg_tree_map_temp = [];
}

abbrev pub commit_at : Option (ℤ × MessageExt) → ProcessQueue → ℤ × ProcessQueue
commit_at none q = (minus_one, q)
commit_at (some (offset, _)) q = (
  offset +ℤ pos 1,
  record q { msg_count = q.msg_count -ℤ pos (size q.msg_tree_map_temp); msg_tree_map_temp = [] },
)

unfoldable pub commit : ProcessQueue → ℤ × ProcessQueue
commit q = commit_at (last q.msg_tree_map_temp) q

unfoldable pub make_message_to_cosume_again : List MessageExt → ProcessQueue → ProcessQueue
make_message_to_cosume_again [] q = q
make_message_to_cosume_again (msg ∷ msgs) q = make_message_to_cosume_again msgs (record q {
  msg_tree_map_temp = erase msg.queue_offset q.msg_tree_map_temp;
  msg_tree_map = insert msg.queue_offset msg q.msg_tree_map;
})

-- What the loop of takeMessags has taken, and the two maps after it.
pub record Taken : Type 0 where
  pub result : List MessageExt
  pub tree : Map ℤ MessageExt
  pub temp : Map ℤ MessageExt

-- The loop, with the rounds that are left.
unfoldable pub take_loop : ℕ → Map ℤ MessageExt → Map ℤ MessageExt → Taken
take_loop zero tree temp = record { result = []; tree = tree; temp = temp }
take_loop (suc n) [] temp = record { result = []; tree = []; temp = temp }
take_loop (suc n) ((k, m) ∷ tree) temp =
    let rest = take_loop n tree (insert k m temp) in record rest { result = m ∷ rest.result }

abbrev pub consuming_after : List MessageExt → Bool → Bool
consuming_after [] c = false
consuming_after (_ ∷ _) c = c

-- What takeMessags does under the lock; a batch size below 1 takes nothing.
abbrev pub take_locked : ℤ → ProcessQueue → List MessageExt × ProcessQueue
take_locked batch q =
    let t = take_loop (pos_part batch) q.msg_tree_map q.msg_tree_map_temp in
    (t.result, record q { msg_tree_map = t.tree; msg_tree_map_temp = t.temp })

-- What takeMessags does after it has unlocked.
abbrev pub after_unlock : List MessageExt → ProcessQueue → ProcessQueue
after_unlock result q = record q { consuming = consuming_after result q.consuming }

-- takeMessags where no other thread comes between its two steps.
unfoldable pub take_messags : ℤ → ProcessQueue → List MessageExt × ProcessQueue
take_messags batch q = let t = take_locked batch q in (t.0, after_unlock t.0 t.1)
