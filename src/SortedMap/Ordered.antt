-- ===== src/SortedMap/Ordered.antt =====
-- The order of a map's keys, `operator<` in the source.
use test.Prelude.{◌≡◌, Ordering}

-- A strict total order as a three-way comparison: `a < b` is `cmp a b ≡ Ordering.lt`.
pub record Order {ℓ} (K : Type ℓ) : Type ℓ where
  pub cmp : K → K → Ordering
  pub cmp_self : (a : K) → cmp a a ≡ Ordering.eq
  pub eq_of_cmp : (a b : K) → cmp a b ≡ Ordering.eq → a ≡ b
  pub cmp_flip : (a b : K) → cmp a b ≡ Ordering.gt → cmp b a ≡ Ordering.lt
  pub cmp_trans :
      (a b c : K) → cmp a b ≡ Ordering.lt → cmp b c ≡ Ordering.lt → cmp a c ≡ Ordering.lt
