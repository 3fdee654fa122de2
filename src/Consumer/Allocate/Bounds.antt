-- ===== src/Consumer/Allocate/Bounds.antt =====
-- The arithmetic of the shares: each begins where the one before it ends.
use test.Prelude.{ℕ, ◌+◌, ◌*◌, ◌/◌, ◌%◌, ◌≤◌, ◌<◌, ◌≡◌, ◌⊎◌, min, arith, leb, if◌then◌else◌}
use native.Mathlib.Nat.{div-add-mod, mod-lt, mod-eq_of_lt, mod_self, div_self}
use native.Mathlib.Decide.{dec_lt}
use test.Consumer.Allocate.{average_size, start_index, range_size}

-- Where the share of the consumer at `i` begins.
abbrev pub bound : ℕ → ℕ → ℕ → ℕ
bound mqs cids i = if leb mqs cids then min mqs i else i * (mqs / cids) + min i (mqs % cids)

-- With q and m for the quotient and the remainder.
room : (i n q : ℕ) → i < n → i * q + q ≤ n * q
room i n q h = grind arith

rest_small : (mqs cids : ℕ) → mqs < cids → mqs % cids ≡ mqs
rest_small mqs cids h = mod-eq_of_lt h

rest_equal : (mqs cids : ℕ) → mqs ≡ cids → mqs % cids ≡ 0
rest_equal mqs cids h = rw h (mod_self cids)

rest_lt : (mqs cids i : ℕ) → i < cids → mqs % cids < cids
rest_lt mqs cids i h = mod-lt mqs (omega arith)

module _ (mqs cids i : ℕ) where
  average_few : mqs ≤ cids → average_size mqs cids i ≡ 1
  unfolding average_size
  average_few h = ground arith

  average_large : cids < mqs → i < mqs % cids → average_size mqs cids i ≡ mqs / cids + 1
  unfolding average_size
  average_large h k = ground arith

  average_small : cids < mqs → mqs % cids ≤ i → average_size mqs cids i ≡ mqs / cids
  unfolding average_size
  average_small h k = ground arith

  start_low :
      (a : ℕ) → average_size mqs cids i ≡ a → i < mqs % cids → start_index mqs cids i ≡ i * a
  unfolding start_index
  start_low a e h = rw e (ground arith)

  start_high :
      (a : ℕ)
      → average_size mqs cids i ≡ a
      → mqs % cids ≤ i
      → start_index mqs cids i ≡ i * a + mqs % cids
  unfolding start_index
  start_high a e h = rw e (ground arith)

  -- The share is empty at the end of the queues, or it reaches from one bound to the next.
  abbrev pub Meets : Type 0
  Meets =
      ((range_size mqs cids i ≡ 0) × (bound mqs cids i ≡ bound mqs cids (i + 1)))
      ⊎ ((start_index mqs cids i ≡ bound mqs cids i)
          × (start_index mqs cids i + range_size mqs cids i ≡ bound mqs cids (i + 1))
          × (start_index mqs cids i + range_size mqs cids i ≤ mqs))

  meets_few : mqs ≤ cids → i < cids → Meets
  unfolding range_size
  meets_few h k = elim (dec_lt i (mqs % cids)) [
    | yes low ↦ ground (
      arith,
      average_few h,
      start_low 1 (average_few h) low,
      rest_small mqs cids,
      rest_equal mqs cids,
    )
    | no high ↦ ground (
      arith,
      average_few h,
      start_high 1 (average_few h) (omega arith),
      rest_small mqs cids,
      rest_equal mqs cids,
    )
  ]

  meets_many : cids < mqs → i < cids → Meets
  unfolding range_size
  meets_many h k = elim (dec_lt i (mqs % cids)) [
    | yes low ↦ ground (
      arith,
      average_large h low,
      start_low _ (average_large h low) low,
      room i cids (mqs / cids) k,
      div-add-mod mqs cids,
    )
    | no high ↦ ground (
      arith,
      average_small h (omega arith),
      start_high _ (average_small h (omega arith)) (omega arith),
      room i cids (mqs / cids) k,
      div-add-mod mqs cids,
    )
  ]

  pub shares_meet : i < cids → Meets
  shares_meet k = elim (dec_lt cids mqs) [
    | yes many ↦ meets_many many k
    | no few ↦ meets_few (omega arith) k
  ]

pub bound-zero : (mqs cids : ℕ) → bound mqs cids 0 ≡ 0
bound-zero mqs cids = ground arith

pub bound-cids : (mqs cids : ℕ) → 0 < cids → bound mqs cids cids ≡ mqs
bound-cids mqs cids h = ground (arith, div-add-mod mqs cids, rest_lt mqs cids 0 h)

le-mul : (n q : ℕ) → 0 < q → n ≤ n * q
le-mul n q h = grind arith

quotient_few : (mqs cids : ℕ) → mqs < cids → mqs / cids ≡ 0
quotient_few mqs cids h =
    ground (arith, div-add-mod mqs cids, rest_small mqs cids h, le-mul cids (mqs / cids))

quotient_equal : (mqs cids : ℕ) → mqs ≡ cids → 0 < cids → mqs / cids ≡ 1
quotient_equal mqs cids e h = rw e (div_self h)

module _ (mqs cids i : ℕ) (k : i < cids) where
  -- From one bound to the next it is the quotient, or one more.
  bound-next :
      (bound mqs cids i + mqs / cids ≤ bound mqs cids (i + 1))
      × (bound mqs cids (i + 1) ≤ bound mqs cids i + mqs / cids + 1)
  bound-next = ground (arith, quotient_few mqs cids, quotient_equal mqs cids, dec_lt mqs cids)

  -- A share has as many queues as the quotient, or one more.
  pub range_size-bounds :
      (mqs / cids ≤ range_size mqs cids i) × (range_size mqs cids i ≤ mqs / cids + 1)
  range_size-bounds = (
    omega (arith, shares_meet mqs cids i k, bound-next.0),
    omega (arith, shares_meet mqs cids i k, bound-next.1),
  )
