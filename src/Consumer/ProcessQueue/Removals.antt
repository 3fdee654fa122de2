-- ===== src/Consumer/ProcessQueue/Removals.antt =====
-- What is left of a queue when some messages are removed, and the offset that this gives.
use test.Prelude.{◌≡◌, refl, ◌⊎◌, inl, inr, some, List, [], ◌∷◌, arith, Bool-cases}
use test.Prelude.Int.{ℤ, pos, minus_one, ◌+ℤ◌, ◌≤ℤ◌, eqb_ℤ, +ℤ_parts}
use test.SortedMap.{Map, lookup, erase, first, IsOrdered}
use test.SortedMap.Keys.{ℤ_order}
use test.SortedMap.Laws.{found-least, lookup-first_entry, found-erase, IsOrdered-erase}
use test.Message.MessageExt.{MessageExt}
use test.Consumer.ProcessQueue.{ProcessQueue, erase_all, remove_from, removal_result}

erase_all-IsOrdered :
    (msgs : List MessageExt) (m : Map ℤ MessageExt) → IsOrdered m → IsOrdered (erase_all msgs m)
unfolding erase_all
erase_all-IsOrdered [] m h = h
erase_all-IsOrdered (x ∷ msgs) m h =
    erase_all-IsOrdered msgs (erase x.queue_offset m) (IsOrdered-erase x.queue_offset m h)

found-erase_all :
    (msgs : List MessageExt) (m : Map ℤ MessageExt) (j : ℤ) (w : MessageExt)
    → IsOrdered m
    → lookup j (erase_all msgs m) ≡ some w
    → lookup j m ≡ some w
unfolding erase_all
found-erase_all [] m j w h e = e
found-erase_all (x ∷ msgs) m j w h e =
    found-erase x.queue_offset j w m h
      (found-erase_all msgs (erase x.queue_offset m) j w (IsOrdered-erase x.queue_offset m h) e)

-- The result for what is left, `tree`, when the first offset was `origin`.
removal_result-safe :
    (origin top : ℤ) (tree : Map ℤ MessageExt)
    → IsOrdered tree
    → origin ≤ℤ top
    → ((k : ℤ) (w : MessageExt) → lookup k tree ≡ some w → origin ≤ℤ k)
    → let r = removal_result origin (top +ℤ pos 1) tree in
      (r ≡ minus_one)
      ⊎ ((origin +ℤ pos 1 ≤ℤ r) × ((j : ℤ) (w : MessageExt) → lookup j tree ≡ some w → r ≤ℤ j))
unfolding removal_result lookup
removal_result-safe origin top [] h u low =
    inr (ground (arith, +ℤ_parts origin (pos 1), +ℤ_parts top (pos 1)), λ j w f. absurd (cc))
removal_result-safe origin top ((k, w) ∷ tree) h u low = elim (Bool-cases (eqb_ℤ origin k)) [
  | inl same ↦ inl (rw same)
  | inr moved ↦ rw moved (
      inr (
        ground (arith, +ℤ_parts origin (pos 1), low k w (lookup-first_entry k w tree)),
        λ j v f. ground (arith, found-least k j w v tree h f),
      ))
]

least_of_first :
    (k j : ℤ) (w v : MessageExt) (tree : Map ℤ MessageExt)
    → IsOrdered ((k, w) ∷ tree)
    → lookup j ((k, w) ∷ tree) ≡ some v
    → k ≤ℤ j
least_of_first k j w v tree h f = ground (arith, found-least k j w v tree h f)

abbrev pub IsSafe : Map ℤ MessageExt → ℤ × ProcessQueue → Type 0
IsSafe before r =
    (r.0 ≡ minus_one)
    ⊎ (((j : ℤ) (w : MessageExt) → first before ≡ some (j, w) → j +ℤ pos 1 ≤ℤ r.0)
        × ((j : ℤ) (w : MessageExt) → lookup j r.1.msg_tree_map ≡ some w → r.0 ≤ℤ j))

past_first :
    (origin j r : ℤ) (m w : MessageExt) (rest : Map ℤ MessageExt)
    → origin +ℤ pos 1 ≤ℤ r
    → first ((origin, m) ∷ rest) ≡ some (j, w)
    → j +ℤ pos 1 ≤ℤ r
past_first origin j r m w rest h e = ground (arith, +ℤ_parts origin (pos 1), +ℤ_parts j (pos 1))

pub remove_from-IsSafe :
    (m : Map ℤ MessageExt) (msgs : List MessageExt) (q : ProcessQueue)
    → IsOrdered m
    → ((j : ℤ) (w : MessageExt) → lookup j m ≡ some w → j ≤ℤ q.queue_offset_max)
    → IsSafe m (remove_from m msgs q)
unfolding remove_from
remove_from-IsSafe [] msgs q h top = inl refl
remove_from-IsSafe ((origin, m) ∷ rest) msgs q h top =
    elim (removal_result-safe origin q.queue_offset_max (erase_all msgs ((origin, m) ∷ rest))
      (erase_all-IsOrdered msgs ((origin, m) ∷ rest) h)
      (top origin m (lookup-first_entry origin m rest))
      (λ k w f.
        least_of_first origin k m w rest h (found-erase_all msgs ((origin, m) ∷ rest) k w h f))) [
          | inl none_due ↦ inl none_due
          | inr (past, low) ↦ inr ((λ j w e. past_first origin j _ m w rest past e), low)
        ]
