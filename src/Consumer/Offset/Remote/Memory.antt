-- ===== src/Consumer/Offset/Remote/Memory.antt =====
-- The remote store's table: what updates and reads do to it.
use test.Prelude.{
  ◌≡◌, refl, ap, ◌∙◌, Bytes, Bool, true, false, Option, none, some, List, [], ◌∷◌, arith, Ordering,
}
use test.Prelude.Int.{ℤ, ◌≤ℤ◌, minus_one, negsuc}
use test.SortedMap.{lookup, insert}
use test.SortedMap.Laws.{lookup-insert, lookup-insert_self}
use test.Message.MessageQueue.{MessageQueue, message_queue_order, compare_to, compare_to_self}
use test.Common.MixAll.{compare_and_increase_only-alone, larger}
use test.Consumer.Offset.Remote.{
  OffsetTable, Brokers, Outcome, returns, throws_broker, throws_client, update_offset, update_found,
  or_inserted, read_offset, read_from_broker, stored, fetch_consume_offset_from_broker,
  read_from_memory, read_from_store,
}

-- What the table holds for a queue after an update.
abbrev pub updated : Option ℤ → ℤ → Bool → ℤ
updated none offset increase_only = offset
updated (some current) offset true = larger current offset
updated (some current) offset false = offset

-- By the comparison of two queues: the one value if they are the same, the other if not.
abbrev pub at_queue {ℓ} : {A : Type ℓ} → Ordering → A → A → A
at_queue Ordering.eq a b = a
at_queue Ordering.lt a b = b
at_queue Ordering.gt a b = b

module _ (mq j : MessageQueue) (offset : ℤ) (increase_only : Bool) where
  inserted :
      (v : ℤ) (t : OffsetTable)
      → lookup j (insert mq v t) ≡ at_queue (compare_to j mq) (some v) (lookup j t)
  inserted v t = ground (arith, lookup-insert mq j v t)

  update_found-lookup :
      (inc : Bool) (c : ℤ) (t : OffsetTable)
      → lookup j (update_found (some c) mq offset inc t)
        ≡ at_queue (compare_to j mq) (some (updated (some c) offset inc)) (lookup j t)
  update_found-lookup true c t =
      rw (compare_and_increase_only-alone c offset) (inserted (larger c offset) t)
  update_found-lookup false c t = inserted offset t

  updated_self : (inc : Bool) → updated (some offset) offset inc ≡ offset
  updated_self true = ground arith
  updated_self false = refl

  update_by :
      (found : Option ℤ) (t : OffsetTable)
      → lookup mq t ≡ found
      → let present = or_inserted found mq offset t in
        lookup j (update_found (lookup mq present) mq offset increase_only present)
        ≡ at_queue (compare_to j mq) (some (updated found offset increase_only)) (lookup j t)
  update_by none t e = rw (lookup-insert_self mq offset t) (
      update_found-lookup increase_only offset (insert mq offset t)
      ∙ ground (arith, updated_self increase_only, inserted offset t))
  update_by (some c) t e = rw e (update_found-lookup increase_only c t)

  -- An update binds its queue to the new offset, or, where it may only increase it, to the larger of
  -- the two; a queue that the table lacks gets the new offset; all other queues keep what they have.
  pub lookup-update_offset :
      (table : OffsetTable)
      → lookup j (update_offset mq offset increase_only table)
        ≡ at_queue
            (compare_to j mq)
            (some (updated (lookup mq table) offset increase_only))
            (lookup j table)
  unfolding update_offset
  lookup-update_offset table = update_by (lookup mq table) table refl

updated_set : (found : Option ℤ) (offset : ℤ) → updated found offset false ≡ offset
updated_set none offset = refl
updated_set (some c) offset = refl

set-found :
    (mq : MessageQueue) (offset : ℤ) (t : OffsetTable)
    → lookup mq (update_offset mq offset false t) ≡ some offset
set-found mq offset t =
    lookup-update_offset mq mq offset false t
    ∙ rw (compare_to_self mq) (ap some (updated_set (lookup mq t) offset))

remembered :
    (f : Outcome ℤ) (mq : MessageQueue) (t : OffsetTable)
    → (f ≡ throws_broker → stored f mq t ≡ (minus_one, t))
      × (f ≡ throws_client → stored f mq t ≡ (negsuc 1, t))
      × ((o : ℤ) → f ≡ returns o → ((stored f mq t).0 ≡ o) × (lookup mq (stored f mq t).1 ≡ some o))
remembered (returns v) mq t = ((λ e. cc), (λ e. cc), λ o e. (cc, set-found mq v t ∙ cc))
remembered throws_broker mq t = ((λ e. refl), (λ e. cc), λ o e. absurd (cc))
remembered throws_client mq t = ((λ e. cc), (λ e. refl), λ o e. absurd (cc))

-- A read from the store gives -1 after an MQBrokerException and -2 after another MQException, and
-- leaves the table alone; otherwise it gives the broker's offset, and every later read from memory
-- gives it too, with no change of the table, whatever the brokers then say.
pub read_offset-read_from_store :
    (b : Brokers) (group : Bytes) (mq : MessageQueue) (t : OffsetTable)
    → let r = read_offset b group mq read_from_store t in
      let f = fetch_consume_offset_from_broker b group mq in
      (f ≡ throws_broker → r ≡ (minus_one, t))
      × (f ≡ throws_client → r ≡ (negsuc 1, t))
      × ((o : ℤ)
          → f ≡ returns o
          → (r.0 ≡ o)
            × ((later : Brokers) → read_offset later group mq read_from_memory r.1 ≡ (o, r.1)))
unfolding read_offset read_from_broker
read_offset-read_from_store b group mq t =
    let known = remembered (fetch_consume_offset_from_broker b group mq) mq t in
    (known.0, known.1, λ o e. ((known.2 o e).0, λ later. rw (known.2 o e).1 refl))

-- Updates that may only increase the offset of one queue, one after the other.
pub raise_all : MessageQueue → List ℤ → OffsetTable → OffsetTable
raise_all mq [] t = t
raise_all mq (offset ∷ offsets) t = raise_all mq offsets (update_offset mq offset true t)

abbrev pub AtMost : ℤ → List ℤ → Type 0
AtMost top [] = Unit {0}
AtMost top (offset ∷ offsets) = (offset ≤ℤ top) × AtMost top offsets

raised :
    (mq : MessageQueue) (offset c : ℤ) (t : OffsetTable)
    → lookup mq t ≡ some c
    → lookup mq (update_offset mq offset true t) ≡ some (larger c offset)
raised mq offset c t e =
    lookup-update_offset mq mq offset true t ∙ rw (compare_to_self mq) (rw e refl)

-- Updates that may only increase an offset, in any order, leave it at least as large as it was and as
-- each of theirs: what has been consumed is never given up again.
pub raise_all-least :
    (mq : MessageQueue) (offsets : List ℤ) (c : ℤ) (t : OffsetTable)
    → lookup mq t ≡ some c
    → (top : ℤ) × (lookup mq (raise_all mq offsets t) ≡ some top) × (c ≤ℤ top) × AtMost top offsets
unfolding raise_all
raise_all-least mq [] c t e = (c, e, omega arith, tt)
raise_all-least mq (o ∷ os) c t e =
    let (top, found, low, all) =
      raise_all-least mq os (larger c o) (update_offset mq o true t) (raised mq o c t e) in
    (top, found, larger_left c o top low, (larger_right c o top low, all))
  where
    larger_left : (c o top : ℤ) → larger c o ≤ℤ top → c ≤ℤ top
    larger_left c o top h = ground arith

    larger_right : (c o top : ℤ) → larger c o ≤ℤ top → o ≤ℤ top
    larger_right c o top h = ground arith
