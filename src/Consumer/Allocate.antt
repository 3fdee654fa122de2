-- ===== src/Consumer/Allocate.antt =====
-- src/consumer/AllocateMessageQueueStrategyInner.h: which queues of a topic a consumer of a group
-- takes. `int` holds the sizes and their products: a group and a topic have far below 2^31 members.
pub mod Slice
pub mod Bounds
pub mod Partition
mod Tests
use test.Prelude.{
  ℕ, zero, suc, ◌+◌, ◌-◌, ◌*◌, ◌/◌, ◌%◌, min, Bytes, Bool, true, false, ◌&&◌, Option, none, some,
  List, [], ◌∷◌, length, get_elem?, ltb, leb, ◌==◌, if◌then◌else◌,
}
use test.SortedMap.Keys.{same_bytes}

-- The messages of the MQClientException that are thrown, and `std::out_of_range` of `at`.
pub data Error : Type 0 where
  current_cid_is_empty mq_all_is_empty cid_all_is_empty out_of_range : Error

-- What `allocate` gives back: an exception, the null pointer or a vector.
pub data Allocation {ℓ} (A : Type ℓ) : Type ℓ where
  throws : Error → Allocation A
  null : Allocation A
  allocated : List A → Allocation A

-- The position of a consumer id in the list, from `i` on; `none` is -1.
unfoldable pub index_from : ℕ → Bytes → List Bytes → Option ℕ
index_from i cid [] = none
index_from i cid (c ∷ cs) = if same_bytes c cid then some i else index_from (i + 1) cid cs

abbrev pub is_nil {ℓ} : {A : Type ℓ} → List A → Bool
is_nil [] = true
is_nil (_ ∷ _) = false

-- For `mq_size` queues, `cid_size` consumers and the consumer at `index`.
unfoldable pub average_size : ℕ → ℕ → ℕ → ℕ
average_size mq_size cid_size index =
    let rest = mq_size % cid_size in
    if leb mq_size cid_size
    then 1
    else if ltb 0 rest && ltb index rest
    then mq_size / cid_size + 1
    else mq_size / cid_size

unfoldable pub start_index : ℕ → ℕ → ℕ → ℕ
start_index mq_size cid_size index =
    let rest = mq_size % cid_size in
    let average = average_size mq_size cid_size index in
    if ltb 0 rest && ltb index rest then index * average else index * average + rest

-- The source's `range` may be negative, and its loop then makes no round: `-` stops at 0.
unfoldable pub range_size : ℕ → ℕ → ℕ → ℕ
range_size mq_size cid_size index =
    min (average_size mq_size cid_size index) (mq_size - start_index mq_size cid_size index)

module _ {ℓ} {A : Type ℓ} where
  -- The loop over mqAll.at(p % mqAllSize), with the rounds left; `none` if `at` throws.
  unfoldable pub picks : ℕ → ℕ → List A → Option (List A)
  picks zero p mq_all = some []
  picks (suc r) p mq_all =
      let rest = picks r (p + 1) mq_all in
      elim (get_elem? mq_all (p % length mq_all)) [
        | none ↦ none
        | some mq ↦ elim rest [ none ↦ none | some mqs ↦ some (mq ∷ mqs) ]
      ]

  abbrev pub or_throw : Option (List A) → Allocation A
  or_throw none = throws out_of_range
  or_throw (some mqs) = allocated mqs

  abbrev pub allocate_at : Option ℕ → List A → List Bytes → Allocation A
  allocate_at none mq_all cid_all = null
  allocate_at (some index) mq_all cid_all = or_throw (
      picks (range_size (length mq_all) (length cid_all) index)
        (start_index (length mq_all) (length cid_all) index) mq_all)

  -- AllocateMessageQueueAveragely::allocate
  unfoldable pub allocate_averagely : Bytes → List A → List Bytes → Allocation A
  allocate_averagely current_cid mq_all cid_all =
      if is_nil current_cid
      then throws current_cid_is_empty
      else if is_nil mq_all
      then throws mq_all_is_empty
      else if is_nil cid_all
      then throws cid_all_is_empty
      else allocate_at (index_from 0 current_cid cid_all) mq_all cid_all

  -- The strategies by configuration and by machine room are not implemented: they return NULL.
  unfoldable pub allocate_by_config : Bytes → List A → List Bytes → Allocation A
  allocate_by_config current_cid mq_all cid_all = null

  unfoldable pub allocate_by_machine_room : Bytes → List A → List Bytes → Allocation A
  allocate_by_machine_room current_cid mq_all cid_all = null
