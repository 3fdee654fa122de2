-- ===== src/Consumer/ProcessQueue/Wakeup.antt =====
-- ProcessQueue: a putMessage that comes between the two steps of a takeMessags which finds nothing.
use test.Prelude.{◌≡◌, ◌≢◌, refl, true, false, List, [], ◌∷◌, arith}
use test.Prelude.Int.{ℤ}
use test.SortedMap.{Map, insert, is_empty}
use test.SortedMap.Keys.{ℤ_order}
use test.Message.MessageExt.{MessageExt}
use test.Consumer.ProcessQueue.{ProcessQueue, put_message, put_all, take_locked, after_unlock}

is_empty-insert : (k : ℤ) (v : MessageExt) (m : Map ℤ MessageExt) → is_empty (insert k v m) ≡ false
unfolding insert
is_empty-insert k v [] = refl
is_empty-insert k v (e ∷ m) = ground arith

is_empty-put_all :
    (msgs : List MessageExt) (m : Map ℤ MessageExt)
    → is_empty m ≡ false
    → is_empty (put_all msgs m) ≡ false
unfolding put_all
is_empty-put_all [] m h = h
is_empty-put_all (msg ∷ msgs) m h =
    is_empty-put_all msgs (insert msg.queue_offset msg m) (is_empty-insert msg.queue_offset msg m)

put_some :
    (msgs : List MessageExt) (m : Map ℤ MessageExt) → msgs ≢ [] → is_empty (put_all msgs m) ≡ false
unfolding put_all
put_some [] m h = absurd (h refl)
put_some (msg ∷ msgs) m h =
    is_empty-put_all msgs (insert msg.queue_offset msg m) (is_empty-insert msg.queue_offset msg m)

-- A consume task is at work and its takeMessags finds nothing. If a putMessage of some messages comes
-- after takeMessags has unlocked and before it clears `m_consuming`, it asks for no consume task, and
-- afterwards messages wait while `m_consuming` is false. If it comes after `m_consuming` has been cleared, it asks
-- for a task.
pub put_message-unattended :
    (batch : ℤ) (msgs : List MessageExt) (q : ProcessQueue)
    → q.consuming ≡ true
    → (take_locked batch q).0 ≡ []
    → msgs ≢ []
    → let t = take_locked batch q in
      let p = put_message msgs t.1 in
      let between = after_unlock t.0 p.1 in
      ((p.0 ≡ false) × (is_empty between.msg_tree_map ≡ false) × (between.consuming ≡ false))
      × ((put_message msgs (after_unlock t.0 t.1)).0 ≡ true)
unfolding put_message
put_message-unattended batch msgs q c e h = (
  (ground (arith, c, e, some_tree), some_tree, ground (arith, c, e, some_tree)),
  ground (arith, c, e, some_tree),
)
  where
    some_tree : is_empty (put_all msgs (take_locked batch q).1.msg_tree_map) ≡ false
    some_tree = put_some msgs (take_locked batch q).1.msg_tree_map h
