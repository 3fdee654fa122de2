-- ===== src/Consumer/Offset/Remote/Persist.antt =====
-- What persistAll sends to the brokers, and what it keeps.
use test.Prelude.{
  ◌≡◌, inl, inr, refl, ap, sym, ◌∙◌, none, some, List, [], ◌∷◌, arith, Ordering, if◌then◌else◌,
  Bool-cases,
}
use test.Prelude.Int.{ℤ}
use test.SortedMap.{lookup, erase, Above, IsOrdered}
use test.Message.MessageQueue.{
  MessageQueue, message_queue_order, compare_to, eq_of_compare_to, compare_to_self,
}
use test.Consumer.Offset.Remote.Memory.{at_queue}
use test.Consumer.Offset.Remote.{
  OffsetTable, Brokers, returns, QueueSet, is_found, persist_loop, persist_all, erase_unused,
  update_consume_offset_to_broker,
}

-- The entries of the table whose queues are in the set.
abbrev pub kept : QueueSet → OffsetTable → OffsetTable
kept mqs [] = []
kept mqs ((mq, offset) ∷ t) =
    if is_found (lookup mq mqs) then (mq, offset) ∷ kept mqs t else kept mqs t

module _ (b : Brokers) (mqs : QueueSet) where
  AllAbove : MessageQueue → List MessageQueue → Type 0
  AllAbove mq [] = Unit {0}
  AllAbove mq (j ∷ js) = (compare_to mq j ≡ Ordering.lt) × AllAbove mq js

  unused-AllAbove :
      (mq : MessageQueue) (t : OffsetTable) → Above mq t → AllAbove mq (persist_loop b mqs t).1
  unfolding persist_loop AllAbove
  unused-AllAbove mq [] a = tt
  unused-AllAbove mq ((j, o) ∷ t) a = ground (arith, unused-AllAbove mq t a.1)

  erase-skip :
      (u mq : MessageQueue) (o : ℤ) (t : OffsetTable)
      → compare_to mq u ≡ Ordering.lt
      → erase u ((mq, o) ∷ t) ≡ (mq, o) ∷ erase u t
  unfolding erase
  erase-skip u mq o t h = ground (arith, eq_of_compare_to u mq, compare_to_self mq)

  erase-first_queue : (mq : MessageQueue) (o : ℤ) (t : OffsetTable) → erase mq ((mq, o) ∷ t) ≡ t
  unfolding erase
  erase-first_queue mq o t = ground (arith, compare_to_self mq)

  erase_unused-skip :
      (us : List MessageQueue) (mq : MessageQueue) (o : ℤ) (t : OffsetTable)
      → AllAbove mq us
      → erase_unused us ((mq, o) ∷ t) ≡ (mq, o) ∷ erase_unused us t
  unfolding erase_unused AllAbove
  erase_unused-skip [] mq o t a = refl
  erase_unused-skip (u ∷ us) mq o t a =
      ap (erase_unused us) (erase-skip u mq o t a.0) ∙ erase_unused-skip us mq o (erase u t) a.1

  erase_unused-kept :
      (t : OffsetTable) → IsOrdered t → erase_unused (persist_loop b mqs t).1 t ≡ kept mqs t
  unfolding persist_loop erase_unused
  erase_unused-kept [] h = refl
  erase_unused-kept ((mq, o) ∷ t) h = elim (Bool-cases (is_found (lookup mq mqs))) [
    | inl used ↦ rw used (
        erase_unused-skip (persist_loop b mqs t).1 mq o t (unused-AllAbove mq t h.0)
        ∙ ap (◌∷◌ (mq, o)) (erase_unused-kept t h.1))
    | inr unused ↦ rw unused (
        ap (erase_unused (persist_loop b mqs t).1) (erase-first_queue mq o t)
        ∙ erase_unused-kept t h.1)
  ]

  sent-kept :
      (t : OffsetTable)
      → ((mq : MessageQueue) (o : ℤ) → update_consume_offset_to_broker b mq o ≡ returns tt)
      → (persist_loop b mqs t).0 ≡ kept mqs t
  unfolding persist_loop
  sent-kept [] r = refl
  sent-kept ((mq, o) ∷ t) r = elim (Bool-cases (is_found (lookup mq mqs))) [
    | inl used ↦ rw (used, r mq o) (ap (◌∷◌ (mq, o)) (sent-kept t r))
    | inr unused ↦ rw unused (sent-kept t r)
  ]

  lookup-cons :
      (mq j : MessageQueue) (o : ℤ) (t : OffsetTable)
      → lookup j ((mq, o) ∷ t) ≡ at_queue (compare_to j mq) (some o) (lookup j t)
  unfolding lookup
  lookup-cons mq j o t = ground arith

  lookup-kept :
      (t : OffsetTable) (j : MessageQueue)
      → lookup j (kept mqs t) ≡ (if is_found (lookup j mqs) then lookup j t else none)
  lookup-kept [] j = ground (arith, lookup-none j)
    where
      lookup-none : (j : MessageQueue) → lookup {V = ℤ} j [] ≡ none
      lookup-none j = unfold lookup in refl
  lookup-kept ((mq, o) ∷ t) j = ground (
    arith,
    lookup-kept t j,
    lookup-cons mq j o t,
    lookup-cons mq j o (kept mqs t),
    eq_of_compare_to j mq,
  )

-- persistAll with queues in its set drops from the table exactly the queues that are not in the set,
-- whatever becomes of its requests; and if every request is sent, the offsets that the brokers get are
-- those of the table that it leaves, in that order. The table's keys ascend, as in every `std::map`.
pub persist_all-kept :
    (b : Brokers) (q : MessageQueue × Unit {0}) (rest : QueueSet) (t : OffsetTable)
    → IsOrdered t
    → let mqs = q ∷ rest in
      let r = persist_all b mqs t in
      ((j : MessageQueue) → lookup j r.1 ≡ (if is_found (lookup j mqs) then lookup j t else none))
      × (((mq : MessageQueue) (o : ℤ) → update_consume_offset_to_broker b mq o ≡ returns tt)
          → r.0 ≡ r.1)
unfolding persist_all
persist_all-kept b q rest t h = (
  (λ j. rw (erase_unused-kept b (q ∷ rest) t h) (lookup-kept b (q ∷ rest) t j)),
  λ r. sent-kept b (q ∷ rest) t r ∙ sym (erase_unused-kept b (q ∷ rest) t h),
)
