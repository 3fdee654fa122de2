-- ===== src/Consumer/ProcessQueue/Moves.antt =====
-- The loops of ProcessQueue over its two maps: what they do to order and size.
use test.Prelude.{
  ℕ, zero, suc, ◌≡◌, refl, ap, sym, ◌∙◌, List, [], ◌∷◌, ◌++◌, arith, take, drop, append_assoc,
  append-nil, subst,
}
use test.Prelude.Int.{ℤ}
use test.SortedMap.{Map, insert, erase, IsOrdered}
use test.SortedMap.Keys.{ℤ_order}
use test.SortedMap.Splits.{
  insert-between, insert-last, Below-middle, Above-of-Below, Above-append_right,
}
use test.Message.MessageExt.{MessageExt}
use test.Consumer.ProcessQueue.{put_all, erase_all, restore, take_loop}

-- The second part of an entry.
abbrev pub messages : Map ℤ MessageExt → List MessageExt
messages [] = []
messages ((_, m) ∷ es) = m ∷ messages es

pub take_loop-result :
    (n : ℕ) (tree temp : Map ℤ MessageExt) → (take_loop n tree temp).result ≡ messages (take n tree)
unfolding take_loop
take_loop-result zero tree temp = refl
take_loop-result (suc n) [] temp = refl
take_loop-result (suc n) ((k, m) ∷ tree) temp =
    ap (◌∷◌ m) (take_loop-result n tree (insert k m temp))

pub take_loop-tree :
    (n : ℕ) (tree temp : Map ℤ MessageExt) → (take_loop n tree temp).tree ≡ drop n tree
unfolding take_loop
take_loop-tree zero tree temp = refl
take_loop-tree (suc n) [] temp = refl
take_loop-tree (suc n) ((k, m) ∷ tree) temp = take_loop-tree n tree (insert k m temp)

-- What is taken goes to the end of the temporary map, if that lies below the tree.
pub take_loop-temp :
    (n : ℕ) (tree temp : Map ℤ MessageExt)
    → IsOrdered (temp ++ tree)
    → (take_loop n tree temp).temp ≡ temp ++ take n tree
unfolding take_loop
take_loop-temp zero tree temp h = sym (append-nil temp)
take_loop-temp (suc n) [] temp h = sym (append-nil temp)
take_loop-temp (suc n) ((k, m) ∷ tree) temp h =
    rw (insert-last k m temp (Below-middle k m temp tree h)) (
      take_loop-temp n tree (temp ++ (k, m) ∷ [])
        (subst (λ t. IsOrdered t) (sym (append_assoc temp ((k, m) ∷ []) tree)) h)
      ∙ append_assoc temp ((k, m) ∷ []) (take n tree))

-- Entries put back between what lies below them and what lies above them.
pub restore-between :
    (es below above : Map ℤ MessageExt)
    → IsOrdered (below ++ (es ++ above))
    → restore es (below ++ above) ≡ below ++ (es ++ above)
unfolding restore
restore-between [] below above h = refl
restore-between ((k, m) ∷ es) below above h =
    rw
      (insert-between k m below above (Below-middle k m below (es ++ above) h)
        (Above-append_right k es above (Above-of-Below k m below (es ++ above) h)))
      (rw (sym (append_assoc below ((k, m) ∷ []) above)) (
        restore-between es (below ++ (k, m) ∷ []) above
          (subst (λ t. IsOrdered t) (sym (append_assoc below ((k, m) ∷ []) (es ++ above))) h)
        ∙ append_assoc below ((k, m) ∷ []) (es ++ above)))

-- A loop of `insert` over the messages is one over the entries that they are keyed by.
abbrev pub IsKeyed : Map ℤ MessageExt → Type 0
IsKeyed [] = Unit {0}
IsKeyed ((k, m) ∷ es) = (k ≡ m.queue_offset) × IsKeyed es

pub put_all-messages :
    (es tree : Map ℤ MessageExt) → IsKeyed es → put_all (messages es) tree ≡ restore es tree
unfolding put_all restore
put_all-messages [] tree h = refl
put_all-messages ((k, m) ∷ es) tree h =
    put_all-messages es (insert m.queue_offset m tree) h.1
    ∙ ap (λ t. restore es (insert t m tree)) (sym h.0)

erase-first :
    (k : ℤ) (m : MessageExt) (es : Map ℤ MessageExt)
    → k ≡ m.queue_offset
    → erase m.queue_offset ((k, m) ∷ es) ≡ es
unfolding erase
erase-first k m es e = ground arith

-- Erasing all messages of an ordered map leaves nothing.
pub erase_all-messages : (es : Map ℤ MessageExt) → IsKeyed es → erase_all (messages es) es ≡ []
unfolding erase_all
erase_all-messages [] h = refl
erase_all-messages ((k, m) ∷ es) h =
    ap (erase_all (messages es)) (erase-first k m es h.0) ∙ erase_all-messages es h.1
