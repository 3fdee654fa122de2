-- ===== src/SortedMap/Keys.antt =====
-- The orders of the keys that the client uses: `long long`, and `std::string` by its bytes.
use test.Prelude.{◌≡◌, ◌↔◌, Bytes, Bool, true, false, refl, [], ◌∷◌, Ordering, arith, ◌+◌}
use Prim.Native.Nat.{compare}
use test.Prelude.Int.{ℤ, pos_part, neg_part, eq_of_parts}
use test.SortedMap.Ordered.{Order}

-- a < b on `long long`.
abbrev pub cmp_ℤ : ℤ → ℤ → Ordering
cmp_ℤ a b = compare (pos_part a + neg_part b) (pos_part b + neg_part a)

pub eq_of_cmp_ℤ : (a b : ℤ) → cmp_ℤ a b ≡ Ordering.eq → a ≡ b
eq_of_cmp_ℤ a b h = eq_of_parts a b (ground arith)

pub cmp_self_ℤ : (a : ℤ) → cmp_ℤ a a ≡ Ordering.eq
cmp_self_ℤ a = ground arith

pub cmp_flip_ℤ : (a b : ℤ) → cmp_ℤ a b ≡ Ordering.gt → cmp_ℤ b a ≡ Ordering.lt
cmp_flip_ℤ a b h = ground arith

pub cmp_trans_ℤ :
    (a b c : ℤ) → cmp_ℤ a b ≡ Ordering.lt → cmp_ℤ b c ≡ Ordering.lt → cmp_ℤ a c ≡ Ordering.lt
cmp_trans_ℤ a b c h k = ground arith

instance abbrev pub ℤ_order : Order ℤ
ℤ_order = record {
  cmp = cmp_ℤ;
  cmp_self = cmp_self_ℤ;
  eq_of_cmp = eq_of_cmp_ℤ;
  cmp_flip = cmp_flip_ℤ;
  cmp_trans = cmp_trans_ℤ;
}

-- First by one comparison, then by the other.
abbrev pub then_by : Ordering → Ordering → Ordering
then_by Ordering.lt d = Ordering.lt
then_by Ordering.eq d = d
then_by Ordering.gt d = Ordering.gt

-- `std::string::compare`, and `strcmp` of texts with no NUL byte: by the first byte that differs.
unfoldable pub cmp_bytes : Bytes → Bytes → Ordering
cmp_bytes [] [] = Ordering.eq
cmp_bytes [] (y ∷ ys) = Ordering.lt
cmp_bytes (x ∷ xs) [] = Ordering.gt
cmp_bytes (x ∷ xs) (y ∷ ys) = then_by (compare x y) (cmp_bytes xs ys)

pub cmp_self_bytes : (a : Bytes) → cmp_bytes a a ≡ Ordering.eq
unfolding cmp_bytes
cmp_self_bytes [] = refl
cmp_self_bytes (x ∷ xs) = ground (arith, cmp_self_bytes xs)

pub eq_of_cmp_bytes : (a b : Bytes) → cmp_bytes a b ≡ Ordering.eq → a ≡ b
unfolding cmp_bytes
eq_of_cmp_bytes [] [] h = refl
eq_of_cmp_bytes [] (y ∷ ys) h = cc
eq_of_cmp_bytes (x ∷ xs) [] h = cc
eq_of_cmp_bytes (x ∷ xs) (y ∷ ys) h = ground (arith, eq_of_cmp_bytes xs ys)

pub cmp_flip_bytes : (a b : Bytes) → cmp_bytes a b ≡ Ordering.gt → cmp_bytes b a ≡ Ordering.lt
unfolding cmp_bytes
cmp_flip_bytes [] [] h = cc
cmp_flip_bytes [] (y ∷ ys) h = cc
cmp_flip_bytes (x ∷ xs) [] h = refl
cmp_flip_bytes (x ∷ xs) (y ∷ ys) h = ground (arith, cmp_flip_bytes xs ys)

pub cmp_trans_bytes :
    (a b c : Bytes)
    → cmp_bytes a b ≡ Ordering.lt
    → cmp_bytes b c ≡ Ordering.lt
    → cmp_bytes a c ≡ Ordering.lt
unfolding cmp_bytes
cmp_trans_bytes [] [] c h k = cc
cmp_trans_bytes [] (y ∷ ys) [] h k = cc
cmp_trans_bytes [] (y ∷ ys) (z ∷ zs) h k = refl
cmp_trans_bytes (x ∷ xs) [] c h k = cc
cmp_trans_bytes (x ∷ xs) (y ∷ ys) [] h k = cc
cmp_trans_bytes (x ∷ xs) (y ∷ ys) (z ∷ zs) h k = ground (arith, cmp_trans_bytes xs ys zs)

instance abbrev pub bytes_order : Order Bytes
bytes_order = record {
  cmp = cmp_bytes;
  cmp_self = cmp_self_bytes;
  eq_of_cmp = eq_of_cmp_bytes;
  cmp_flip = cmp_flip_bytes;
  cmp_trans = cmp_trans_bytes;
}

-- a == b on `std::string`.
unfoldable pub same_bytes : Bytes → Bytes → Bool
unfolding cmp_bytes
same_bytes a b = elim (cmp_bytes a b) [ Ordering.eq ↦ true | _ ↦ false ]

pub same_bytes_iff : (a b : Bytes) → (same_bytes a b ≡ true) ↔ (a ≡ b)
unfolding same_bytes
same_bytes_iff a b =
    (λ h. ground (arith, eq_of_cmp_bytes a b), λ e. ground (arith, cmp_self_bytes a))
