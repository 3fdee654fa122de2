-- ===== src/Common/MixAll.antt =====
-- src/common/MixAll.cpp: compareAndIncreaseOnly on an AtomicLong that other threads also write, and
-- getRetryTopic. The list gives the value that the AtomicLong has at each CompareAndSet of the loop,
-- as other threads have left it; when the list is at its end they have stopped, and the value is the
-- one that was read.
use test.Prelude.{◌≡◌, Bytes, Bool, true, false, List, [], ◌∷◌, ◌++◌, arith, if◌then◌else◌}
use test.Prelude.Int.{ℤ, ltb_ℤ, eqb_ℤ, ◌≤ℤ◌}

-- "%RETRY%"
abbrev pub retry_group_topic_prefix : Bytes
retry_group_topic_prefix = b'%' ∷ b'R' ∷ b'E' ∷ b'T' ∷ b'R' ∷ b'Y' ∷ b'%' ∷ []

abbrev pub get_retry_topic : Bytes → Bytes
get_retry_topic consumer_group = retry_group_topic_prefix ++ consumer_group

-- The result, and the AtomicLong's value at the return.
unfoldable pub compare_and_increase_only : ℤ → ℤ → List ℤ → Bool × ℤ
compare_and_increase_only current value [] =
    if ltb_ℤ current value then (true, value) else (false, current)
compare_and_increase_only current value (seen ∷ later) =
    let again = compare_and_increase_only seen value later in
    if ltb_ℤ current value
    then (if eqb_ℤ seen current then (true, value) else again)
    else (false, current)

-- With the AtomicLong left alone by the others: the larger of the two.
abbrev pub larger : ℤ → ℤ → ℤ
larger a b = if ltb_ℤ a b then b else a

-- Whatever other threads write between a read and a CompareAndSet, the loop returns, the value that it
-- leaves is at least the one given, and it is the given one if the result is true.
pub compare_and_increase_only-reaches :
    (current value : ℤ) (others : List ℤ)
    → let r = compare_and_increase_only current value others in
      (value ≤ℤ r.1) × (r.0 ≡ true → r.1 ≡ value)
unfolding compare_and_increase_only
compare_and_increase_only-reaches current value [] = ground arith
compare_and_increase_only-reaches current value (seen ∷ later) =
    ground (arith, compare_and_increase_only-reaches seen value later)

pub compare_and_increase_only-alone :
    (current value : ℤ) → (compare_and_increase_only current value []).1 ≡ larger current value
unfolding compare_and_increase_only
compare_and_increase_only-alone current value = ground arith
