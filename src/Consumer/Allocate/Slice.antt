-- ===== src/Consumer/Allocate/Slice.antt =====
-- The loop of the allocation takes a slice of the queues.
use test.Prelude.{
  ℕ, zero, suc, ◌+◌, ◌%◌, ◌≤◌, ◌<◌, ◌≡◌, refl, ap, sym, ◌∙◌, some, List, [], ◌∷◌, ◌++◌, arith,
  length, take, drop, get_elem?, take-append-drop,
}
use native.Mathlib.Nat.{mod-eq_of_lt}
use native.Mathlib.Numerals.{add-one}
use test.Consumer.Allocate.{picks}

module _ {ℓ} {A : Type ℓ} where
  drop-nil : (n : ℕ) → drop {A = A} n [] ≡ []
  drop-nil zero = refl
  drop-nil (suc n) = refl

  drop-drop : (n m k : ℕ) (xs : List A) → k ≡ n + m → drop m (drop n xs) ≡ drop k xs
  drop-drop zero m k xs e = ap (λ (t : ℕ). drop t xs) (omega arith)
  drop-drop (suc n) m zero xs e = absurd (omega arith)
  drop-drop (suc n) m (suc k) [] e = drop-nil m
  drop-drop (suc n) m (suc k) (x ∷ xs) e = drop-drop n m k xs (omega arith)

  -- A slice and what follows it.
  pub drop-split :
      (n m k : ℕ) (xs : List A) → k ≡ n + m → take m (drop n xs) ++ drop k xs ≡ drop n xs
  drop-split n m k xs e =
      ap (◌++◌ (take m (drop n xs))) (sym (drop-drop n m k xs e)) ∙ take-append-drop m (drop n xs)

  pub drop_above : (n : ℕ) (xs : List A) → length xs ≤ n → drop n xs ≡ []
  drop_above zero [] h = refl
  drop_above zero (x ∷ xs) h = absurd (omega arith)
  drop_above (suc n) [] h = refl
  drop_above (suc n) (x ∷ xs) h = drop_above n xs (omega arith)

  -- The element at a position within the list stands first in what is left from there.
  nth_cons :
      (p : ℕ) (xs : List A)
      → p < length xs
      → (x : A) × (get_elem? xs p ≡ some x) × (drop p xs ≡ x ∷ drop (suc p) xs)
  nth_cons p [] h = absurd (omega arith)
  nth_cons zero (x ∷ xs) h = (x, refl, refl)
  nth_cons (suc p) (x ∷ xs) h = nth_cons p xs (omega arith)

  pub picks-slice :
      (r p : ℕ) (xs : List A) → p + r ≤ length xs → picks r p xs ≡ some (take r (drop p xs))
  unfolding picks
  picks-slice zero p xs h = refl
  picks-slice (suc r) p xs h =
      let (x, got, rest) = nth_cons p xs (omega arith) in
      rw (got_at x got, picks) (rw (picks-slice r (p + 1) xs (omega arith), rest, add-one))
    where
      got_at : (x : A) → get_elem? xs p ≡ some x → get_elem? xs (p % length xs) ≡ some x
      got_at x got = rw (mod-eq_of_lt {n = p} {m = length xs} (omega arith)) got
