-- ===== src/Consumer/Allocate/Partition.antt =====
-- The shares of all consumers of a group, in order, are the queues of the topic.
use test.Prelude.{
  ℕ, ◌+◌, ◌/◌, ◌≤◌, ◌<◌, ◌≡◌, ◌≢◌, inl, inr, refl, ap, sym, ◌∙◌, subst, Bytes, false, some, List,
  [], ◌∷◌, ◌++◌, append_assoc, append-nil, arith, length, length-append, length-take, length-drop,
  take, drop,
}
use test.SortedMap.Keys.{same_bytes_iff}
use test.Consumer.Allocate.{
  Allocation, throws, null, allocated, index_from, range_size, start_index, picks,
  allocate_averagely, is_nil,
}
use test.Consumer.Allocate.Slice.{picks-slice, drop-split, drop_above}
use test.Consumer.Allocate.Bounds.{bound, shares_meet, range_size-bounds, bound-zero, bound-cids}

-- The queues that a consumer gets.
abbrev pub share {ℓ} : {A : Type ℓ} → Allocation A → List A
share (allocated mqs) = mqs
share null = []
share (throws e) = []

-- The consumer ids differ from each other.
abbrev pub Differs : Bytes → List Bytes → Type 0
Differs c [] = Unit {0}
Differs c (d ∷ ds) = (c ≢ d) × Differs c ds

abbrev pub Distinct : List Bytes → Type 0
Distinct [] = Unit {0}
Distinct (c ∷ cs) = Differs c cs × Distinct cs

abbrev pub NonEmpty : List Bytes → Type 0
NonEmpty [] = Unit {0}
NonEmpty (c ∷ cs) = (c ≢ []) × NonEmpty cs

abbrev Avoid : List Bytes → List Bytes → Type 0
Avoid [] cs = Unit {0}
Avoid (p ∷ pre) cs = Differs p cs × Avoid pre cs

Avoid-next :
    (pre : List Bytes) (c : Bytes) (cs : List Bytes)
    → Avoid pre (c ∷ cs)
    → Differs c cs
    → Avoid (pre ++ c ∷ []) cs
Avoid-next [] c cs a d = (d, tt)
Avoid-next (p ∷ pre) c cs a d = (a.0.1, Avoid-next pre c cs a.1 d)

-- A consumer id is found where it stands.
index_from-append :
    (i : ℕ) (pre : List Bytes) (c : Bytes) (cs : List Bytes)
    → Avoid pre (c ∷ cs)
    → index_from i c (pre ++ c ∷ cs) ≡ some (i + length pre)
unfolding index_from
index_from-append i [] c cs a = ground (arith, same_bytes_iff c c)
index_from-append i (p ∷ pre) c cs a =
    ground (arith, same_bytes_iff p c, index_from-append (i + 1) pre c cs a.1)

is_nil-false {ℓ} : {A : Type ℓ} (xs : List A) → xs ≢ [] → is_nil xs ≡ false
is_nil-false [] h = absurd (h refl)
is_nil-false (x ∷ xs) h = refl

length-pos {ℓ} : {A : Type ℓ} (xs : List A) → xs ≢ [] → 0 < length xs
length-pos [] h = absurd (h refl)
length-pos (x ∷ xs) h = omega arith

is_nil-append {ℓ} : {A : Type ℓ} (xs : List A) (y : A) (ys : List A) → is_nil (xs ++ y ∷ ys) ≡ false
is_nil-append [] y ys = refl
is_nil-append (x ∷ xs) y ys = refl

module _ {ℓ} {A : Type ℓ} where
  -- The queues of the consumer at a position.
  abbrev slice : List A → ℕ → ℕ → List A
  slice xs cids i = take (range_size (length xs) cids i) (drop (start_index (length xs) cids i) xs)

  slice-meets :
      (xs : List A) (cids i : ℕ)
      → i < cids
      → (picks (range_size (length xs) cids i) (start_index (length xs) cids i) xs
          ≡ some (slice xs cids i))
        × (slice xs cids i ++ drop (bound (length xs) cids (i + 1)) xs
            ≡ drop (bound (length xs) cids i) xs)
  slice-meets xs cids i h = elim (shares_meet (length xs) cids i h) [
    | inl (empty, same) ↦ (rw empty (unfold picks in refl), rw (empty, same) refl)
    | inr (begins, ends, fits) ↦
        (picks-slice _ _ xs fits, rw (← begins) (drop-split _ _ _ xs (sym ends)))
  ]

  -- A consumer of the group gets its slice.
  allocate_here :
      (pre : List Bytes) (c : Bytes) (cs : List Bytes) (xs : List A)
      → xs ≢ []
      → c ≢ []
      → Avoid pre (c ∷ cs)
      → allocate_averagely c xs (pre ++ c ∷ cs)
        ≡ allocated (slice xs (length (pre ++ c ∷ cs)) (length pre))
  unfolding allocate_averagely
  allocate_here pre c cs xs h k a =
      rw (is_nil-false c k, is_nil-false xs h, is_nil-append pre c cs, found)
        (rw (slice-meets xs (length (pre ++ c ∷ cs)) (length pre) inside).0)
    where
      found : index_from 0 c (pre ++ c ∷ cs) ≡ some (length pre)
      found = index_from-append 0 pre c cs a ∙ ap some (omega arith)

      inside : length pre < length (pre ++ c ∷ cs)
      inside = omega (arith, length-append pre (c ∷ cs))

  abbrev pub all_shares : List Bytes → List A → List Bytes → List A
  all_shares [] xs cids = []
  all_shares (c ∷ cs) xs cids = share (allocate_averagely c xs cids) ++ all_shares cs xs cids

  -- Each share has as many queues as the quotient, or one more.
  abbrev pub Balanced : List Bytes → List A → List Bytes → Type 0
  Balanced [] xs cids = Unit {0}
  Balanced (c ∷ cs) xs cids =
      (length xs / length cids ≤ length (share (allocate_averagely c xs cids)))
      × (length (share (allocate_averagely c xs cids)) ≤ length xs / length cids + 1)
      × Balanced cs xs cids

  length-slice :
      (xs : List A) (cids i : ℕ)
      → i < cids
      → length (slice xs cids i) ≡ range_size (length xs) cids i
  length-slice xs cids i h = omega (
    arith,
    length-take (range_size (length xs) cids i) (drop (start_index (length xs) cids i) xs),
    length-drop (start_index (length xs) cids i) xs,
    shares_meet (length xs) cids i h,
  )

  module _ (all : List Bytes) (xs : List A) (some_mqs : xs ≢ []) where
    allocate_in :
        (pre cs : List Bytes) (c : Bytes)
        → pre ++ c ∷ cs ≡ all
        → c ≢ []
        → Avoid pre (c ∷ cs)
        → (length pre < length all)
          × (allocate_averagely c xs all ≡ allocated (slice xs (length all) (length pre)))
    allocate_in pre cs c e k a = (
      omega (arith, ap (length {A = Bytes}) e, length-append pre (c ∷ cs)),
      subst (λ t. allocate_averagely c xs t ≡ allocated (slice xs (length t) (length pre))) e
          (allocate_here pre c cs xs some_mqs k a),
    )

    at_end : (pre : List Bytes) → pre ++ [] ≡ all → length all ≡ length pre
    at_end pre e = sym (ap length e) ∙ ap length (append-nil pre)

    next_prefix :
        (pre cs : List Bytes) (c : Bytes) → pre ++ c ∷ cs ≡ all → (pre ++ c ∷ []) ++ cs ≡ all
    next_prefix pre cs c e = append_assoc pre (c ∷ []) cs ∙ e

    shares_from :
        (pre cs : List Bytes)
        → pre ++ cs ≡ all
        → 0 < length all
        → NonEmpty cs
        → Distinct cs
        → Avoid pre cs
        → (all_shares cs xs all ≡ drop (bound (length xs) (length all) (length pre)) xs)
          × Balanced cs xs all
    shares_from pre [] e p k d a = (
      sym (
          drop_above _ xs (
            subst (λ (t : ℕ). length xs ≤ bound (length xs) (length all) t) (at_end pre e)
              (omega (arith, bound-cids (length xs) (length all) p)))),
      tt,
    )
    shares_from pre (c ∷ cs) e p k d a =
        let (inside, mine) = allocate_in pre cs c e k.0 a in
        let rest =
          shares_from (pre ++ c ∷ []) cs (next_prefix pre cs c e) p k.1 d.1
            (Avoid-next pre c cs a d.0) in
        (
          rw (mine, rest.0, length-append pre (c ∷ []))
              (slice-meets xs (length all) (length pre) inside).1,
          rw (mine, length-slice xs (length all) (length pre) inside)
              (
                (range_size-bounds (length xs) (length all) (length pre) inside).0,
                (range_size-bounds (length xs) (length all) (length pre) inside).1,
                rest.1,
              ),
        )

  -- All queues of a topic go to the consumers of the group, each queue to one consumer, in the order
  -- of the queues and of the consumers, and each consumer gets as many queues as the quotient of the
  -- two numbers, or one more; if there are queues and consumers, and the consumer ids are not empty
  -- and differ from each other.
  pub allocate_averagely-partition :
      (xs : List A) (cids : List Bytes)
      → xs ≢ []
      → cids ≢ []
      → NonEmpty cids
      → Distinct cids
      → (all_shares cids xs cids ≡ xs) × Balanced cids xs cids
  allocate_averagely-partition xs cids h n k d =
      let (parts, even) = shares_from cids xs h [] cids refl (length-pos cids n) k d tt in
      (parts ∙ ap (λ (t : ℕ). drop t xs) (bound-zero (length xs) (length cids)), even)
