-- ===== src/Consumer/Allocate/Tests.antt =====
-- The allocation at concrete groups.
use test.Prelude.{ℕ, ◌≡◌, refl, List, [], ◌∷◌, Bytes, arith}
use test.SortedMap.Keys.{same_bytes}
use test.Consumer.Allocate.{
  allocate_averagely, allocated, null, throws, cid_all_is_empty, index_from, average_size,
  start_index, range_size, picks,
}
use test.Consumer.Allocate.Partition.{all_shares, allocate_averagely-partition}

abbrev group : List Bytes
group = (97 ∷ []) ∷ (98 ∷ []) ∷ (99 ∷ []) ∷ []

abbrev queues : List ℕ
queues = 0 ∷ 1 ∷ 2 ∷ 3 ∷ 4 ∷ []

second_share : allocate_averagely (98 ∷ []) queues group ≡ allocated (2 ∷ 3 ∷ [])
unfolding allocate_averagely index_from average_size start_index range_size picks same_bytes
second_share = refl

a_stranger : allocate_averagely (100 ∷ []) queues group ≡ null
unfolding allocate_averagely index_from same_bytes
a_stranger = refl

no_group : allocate_averagely (97 ∷ []) queues [] ≡ throws cid_all_is_empty
unfolding allocate_averagely
no_group = refl

allocate_averagely-partition_example : all_shares group queues group ≡ queues
allocate_averagely-partition_example =
    (allocate_averagely-partition queues group (λ e. cc) (λ e. cc)
      ((λ e. cc), ((λ e. cc), ((λ e. cc), tt)))
      ((ground arith, (ground arith, tt)), ((ground arith, tt), (tt, tt)))).0
