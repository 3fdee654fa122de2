-- ===== src/Consumer/ProcessQueue/Commits.antt =====
-- ProcessQueue: what a batch that was taken leaves behind when it is committed, rolled back or made
-- ready again, and which offset a removal lets the consumer commit.
use test.Prelude.{
  ℕ, zero, suc, ◌≡◌, refl, ap, ◌∙◌, ◌⊎◌, inl, inr, Option, none, some, List, [], ◌∷◌, ◌++◌, arith,
  take, drop, take-append-drop, Ordering,
}
use test.Prelude.Int.{ℤ, pos, negsuc, minus_one, ◌+ℤ◌, ◌≤ℤ◌, pos_part}
use test.SortedMap.{Map, lookup, last, first, IsOrdered}
use test.SortedMap.Keys.{ℤ_order, cmp_ℤ}
use test.SortedMap.Laws.{found-Above}
use test.SortedMap.Splits.{Above-append_right}
use test.Message.MessageExt.{MessageExt}
use test.Consumer.ProcessQueue.{
  ProcessQueue, put_all, erase_all, restore, take_messags, commit, commit_at, rollback,
  make_message_to_cosume_again, last_offset, remove_message,
}
use test.Consumer.ProcessQueue.Moves.{
  messages, IsKeyed, take_loop-result, take_loop-tree, take_loop-temp, restore-between,
  put_all-messages, erase_all-messages,
}
use test.Consumer.ProcessQueue.Removals.{remove_from-IsSafe}

-- The two maps while a batch of the queue's messages is out.
taken_temp :
    (q : ProcessQueue) (batch : ℤ)
    → IsOrdered q.msg_tree_map
    → q.msg_tree_map_temp ≡ []
    → (take_messags batch q).1.msg_tree_map_temp ≡ take (pos_part batch) q.msg_tree_map
unfolding take_messags
taken_temp q batch h e = rw e (take_loop-temp (pos_part batch) q.msg_tree_map [] h)

taken_tree :
    (q : ProcessQueue) (batch : ℤ)
    → (take_messags batch q).1.msg_tree_map ≡ drop (pos_part batch) q.msg_tree_map
unfolding take_messags
taken_tree q batch = take_loop-tree (pos_part batch) q.msg_tree_map q.msg_tree_map_temp

taken_result :
    (q : ProcessQueue) (batch : ℤ)
    → (take_messags batch q).0 ≡ messages (take (pos_part batch) q.msg_tree_map)
unfolding take_messags
taken_result q batch = take_loop-result (pos_part batch) q.msg_tree_map q.msg_tree_map_temp

put_back :
    (n : ℕ) (tree : Map ℤ MessageExt) → IsOrdered tree → restore (take n tree) (drop n tree) ≡ tree
put_back n tree h =
    restore-between (take n tree) [] (drop n tree) (rw (take-append-drop n tree) h)
    ∙ take-append-drop n tree

-- A batch that is taken and rolled back leaves the queue's messages and their count as they were,
-- whatever the batch size, if no earlier batch was out.
pub rollback-take_messags :
    (q : ProcessQueue) (batch : ℤ)
    → IsOrdered q.msg_tree_map
    → q.msg_tree_map_temp ≡ []
    → let back = rollback (take_messags batch q).1 in
      (back.msg_tree_map ≡ q.msg_tree_map)
      × (back.msg_tree_map_temp ≡ [])
      × (back.msg_count ≡ q.msg_count)
unfolding rollback
rollback-take_messags q batch h e = (
  rw (taken_temp q batch h e, taken_tree q batch) (put_back (pos_part batch) q.msg_tree_map h),
  refl,
  unfold take_messags in refl,
)

again_tree :
    (msgs : List MessageExt) (q : ProcessQueue)
    → (make_message_to_cosume_again msgs q).msg_tree_map ≡ put_all msgs q.msg_tree_map
unfolding make_message_to_cosume_again put_all
again_tree [] q = refl
again_tree (m ∷ msgs) q = again_tree msgs _

again_temp :
    (msgs : List MessageExt) (q : ProcessQueue)
    → (make_message_to_cosume_again msgs q).msg_tree_map_temp ≡ erase_all msgs q.msg_tree_map_temp
unfolding make_message_to_cosume_again erase_all
again_temp [] q = refl
again_temp (m ∷ msgs) q = again_temp msgs _

take-IsKeyed : (n : ℕ) (es : Map ℤ MessageExt) → IsKeyed es → IsKeyed (take n es)
take-IsKeyed zero es h = tt
take-IsKeyed (suc n) [] h = tt
take-IsKeyed (suc n) ((k, m) ∷ es) h = (h.0, take-IsKeyed n es h.1)

again-msg_count :
    (msgs : List MessageExt) (q : ProcessQueue)
    → (make_message_to_cosume_again msgs q).msg_count ≡ q.msg_count
unfolding make_message_to_cosume_again
again-msg_count [] q = refl
again-msg_count (m ∷ msgs) q = again-msg_count msgs _

taken-msg_count : (q : ProcessQueue) (batch : ℤ) → (take_messags batch q).1.msg_count ≡ q.msg_count
unfolding take_messags
taken-msg_count q batch = refl

-- A batch that is taken and made ready to be consumed again, message by message, leaves the queue's
-- messages and their count as they were and nothing out, whatever the batch size, if each message
-- stands under its offset and no earlier batch was out.
pub make_message_to_cosume_again-take_messags :
    (q : ProcessQueue) (batch : ℤ)
    → IsOrdered q.msg_tree_map
    → IsKeyed q.msg_tree_map
    → q.msg_tree_map_temp ≡ []
    → let back = make_message_to_cosume_again (take_messags batch q).0 (take_messags batch q).1 in
      (back.msg_tree_map ≡ q.msg_tree_map)
      × (back.msg_tree_map_temp ≡ [])
      × (back.msg_count ≡ q.msg_count)
make_message_to_cosume_again-take_messags q batch h k e = (
  again_tree (take_messags batch q).0 (take_messags batch q).1
      ∙ rw (taken_result q batch, taken_tree q batch)
          (put_all-messages _ _ (take-IsKeyed (pos_part batch) q.msg_tree_map k)
            ∙ put_back (pos_part batch) q.msg_tree_map h),
  again_temp (take_messags batch q).0 (take_messags batch q).1
      ∙ rw (taken_result q batch, taken_temp q batch h e)
          (erase_all-messages _ (take-IsKeyed (pos_part batch) q.msg_tree_map k)),
  again-msg_count (take_messags batch q).0 (take_messags batch q).1 ∙ taken-msg_count q batch,
)

abbrev key_or : ℤ → Option (ℤ × MessageExt) → ℤ
key_or d none = d
key_or d (some (k, _)) = k

key_or-last :
    (d : ℤ) (es : Map ℤ MessageExt) → IsKeyed es → key_or d (last es) ≡ last_offset d (messages es)
unfolding last last_offset
key_or-last d [] h = refl
key_or-last d ((k, m) ∷ es) h = ground (arith, key_or-last m.queue_offset es h.1, h.0)

commit_at-key_or :
    (o : Option (ℤ × MessageExt)) (q : ProcessQueue)
    → (commit_at o q).0 ≡ key_or (negsuc 1) o +ℤ pos 1
unfolding ◌+ℤ◌
commit_at-key_or none q = refl
commit_at-key_or (some (k, m)) q = refl

-- What follows the last of the entries `es` lies above it.
above_last :
    (es rest : Map ℤ MessageExt) (k j : ℤ) (m w : MessageExt)
    → IsOrdered (es ++ rest)
    → last es ≡ some (k, m)
    → lookup j rest ≡ some w
    → cmp_ℤ k j ≡ Ordering.lt
unfolding last
above_last [] rest k j m w h e f = cc
above_last ((i, v) ∷ es) rest k j m w h e f = ground (
  arith,
  above_last es rest k j m w h.1,
  found-Above i j w rest (Above-append_right i es rest h.0) f,
)

last-none : (m : Map ℤ MessageExt) → last m ≡ none → m ≡ []
unfolding last
last-none [] h = refl
last-none (e ∷ m) h = absurd (ground arith)

-- After a commit nothing is out.
pub commit-temp : (q : ProcessQueue) → (commit q).1.msg_tree_map_temp ≡ []
unfolding commit
commit-temp q = ground (arith, last-none q.msg_tree_map_temp)

pub commit-tree : (q : ProcessQueue) → (commit q).1.msg_tree_map ≡ q.msg_tree_map
unfolding commit
commit-tree q = ground arith

passes :
    (o : Option (ℤ × MessageExt)) (q : ProcessQueue) (j : ℤ)
    → ((k : ℤ) (m : MessageExt) → o ≡ some (k, m) → cmp_ℤ k j ≡ Ordering.lt)
    → ((commit_at o q).0 ≡ minus_one) ⊎ ((commit_at o q).0 ≤ℤ j)
unfolding ◌+ℤ◌
passes none q j h = inl refl
passes (some (k, m)) q j h = inr (ground (arith, h k m refl))

-- A batch that is taken and then committed: the offset that the commit returns is one more than that
-- of the last message taken (-1 if none was taken, which is one more than -2), nothing stays out, and
-- no message that is still in the queue lies below that offset; if no earlier batch was out.
pub commit-take_messags :
    (q : ProcessQueue) (batch : ℤ)
    → IsOrdered q.msg_tree_map
    → IsKeyed q.msg_tree_map
    → q.msg_tree_map_temp ≡ []
    → let t = take_messags batch q in
      let c = commit t.1 in
      (c.0 ≡ last_offset (negsuc 1) t.0 +ℤ pos 1)
      × (c.1.msg_tree_map_temp ≡ [])
      × ((j : ℤ) (w : MessageExt)
          → lookup j c.1.msg_tree_map ≡ some w
          → (c.0 ≡ minus_one) ⊎ (c.0 ≤ℤ j))
unfolding commit
commit-take_messags q batch h k e = (
  commit_at-key_or (last temp) t.1
      ∙ ap (λ o. o +ℤ pos 1)
          (rw (taken_temp q batch h e, taken_result q batch)
            (key_or-last (negsuc 1) (take n q.msg_tree_map) (take-IsKeyed n q.msg_tree_map k))),
  commit-temp t.1,
  λ j w f. passes (last temp) t.1 j λ i m g.
      above_last (take n q.msg_tree_map) (drop n q.msg_tree_map) i j m w
        (rw (take-append-drop n q.msg_tree_map) h) (rw (taken_temp q batch h e) at g)
        (rw (commit-tree t.1, taken_tree q batch) at f),
)
  where
    n : ℕ
    n = pos_part batch

    t : List MessageExt × ProcessQueue
    t = take_messags batch q

    temp : Map ℤ MessageExt
    temp = t.1.msg_tree_map_temp

-- The offset that a removal from an ordered queue lets the consumer commit, unless it is -1: it is
-- past the offset that was the first of the queue, and no message that is still there lies below it;
-- if no offset in the queue is above `m_queueOffsetMax`.
pub remove_message-safe :
    (q : ProcessQueue) (msgs : List MessageExt)
    → IsOrdered q.msg_tree_map
    → ((j : ℤ) (w : MessageExt) → lookup j q.msg_tree_map ≡ some w → j ≤ℤ q.queue_offset_max)
    → let r = remove_message msgs q in
      (r.0 ≡ minus_one)
      ⊎ (((j : ℤ) (w : MessageExt) → first q.msg_tree_map ≡ some (j, w) → j +ℤ pos 1 ≤ℤ r.0)
          × ((j : ℤ) (w : MessageExt) → lookup j r.1.msg_tree_map ≡ some w → r.0 ≤ℤ j))
unfolding remove_message
remove_message-safe q msgs h top = remove_from-IsSafe q.msg_tree_map msgs q h top
