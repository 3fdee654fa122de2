-- ===== src/Prelude/Words.antt =====
-- Machine integers of 32 and 64 bits, signed by two's complement, and their bytes with the most
-- significant first, as `htonl` and its like leave them.
use test.Prelude.{
  ℕ, ◌+◌, ◌-◌, ◌*◌, ◌/◌, ◌%◌, ◌^◌, ◌<◌, ◌≡◌, ap, ◌∙◌, Bytes, [], ◌∷◌, arith, ltb, if◌then◌else◌,
}
use test.Prelude.Int.{ℤ, pos, negsuc, ◌≤ℤ◌}

-- The low 32 bits, and the `int` that has these bits.
abbrev pub low_word : ℤ → ℕ
low_word (pos n) = n % 2 ^ 32
low_word (negsuc n) = 2 ^ 32 - 1 - n % 2 ^ 32

abbrev pub int_of_word : ℕ → ℤ
int_of_word w = if ltb w (2 ^ 31) then pos w else negsuc (2 ^ 32 - 1 - w)

-- The same of 64 bits.
abbrev pub low_long : ℤ → ℕ
low_long (pos n) = n % 2 ^ 64
low_long (negsuc n) = 2 ^ 64 - 1 - n % 2 ^ 64

abbrev pub long_of_word : ℕ → ℤ
long_of_word w = if ltb w (2 ^ 63) then pos w else negsuc (2 ^ 64 - 1 - w)

-- And of 16.
abbrev pub short_of_word : ℕ → ℤ
short_of_word w = if ltb w (2 ^ 15) then pos w else negsuc (2 ^ 16 - 1 - w)

abbrev pub IsInt : ℤ → Type 0
IsInt z = (negsuc (2 ^ 31 - 1) ≤ℤ z) × (z ≤ℤ pos (2 ^ 31 - 1))

abbrev pub IsLong : ℤ → Type 0
IsLong z = (negsuc (2 ^ 63 - 1) ≤ℤ z) × (z ≤ℤ pos (2 ^ 63 - 1))

-- Numbers as bytes.
abbrev pub bytes_2 : ℕ → Bytes
bytes_2 n = n / 2 ^ 8 % 2 ^ 8 ∷ n % 2 ^ 8 ∷ []

abbrev pub bytes_4 : ℕ → Bytes
bytes_4 n = n / 2 ^ 24 % 2 ^ 8 ∷ n / 2 ^ 16 % 2 ^ 8 ∷ n / 2 ^ 8 % 2 ^ 8 ∷ n % 2 ^ 8 ∷ []

abbrev pub bytes_8 : ℕ → Bytes
bytes_8 n =
    n / 2 ^ 56 % 2 ^ 8
    ∷ n / 2 ^ 48 % 2 ^ 8
    ∷ n / 2 ^ 40 % 2 ^ 8
    ∷ n / 2 ^ 32 % 2 ^ 8
    ∷ n / 2 ^ 24 % 2 ^ 8
    ∷ n / 2 ^ 16 % 2 ^ 8
    ∷ n / 2 ^ 8 % 2 ^ 8
    ∷ n % 2 ^ 8
    ∷ []

-- The number of some bytes, after `high`.
abbrev pub number_after : ℕ → Bytes → ℕ
number_after high [] = high
number_after high (b ∷ bytes) = number_after (high * 2 ^ 8 + b) bytes

abbrev pub number_of : Bytes → ℕ
number_of bytes = number_after 0 bytes

pub number_of-bytes_2 : (n : ℕ) → n < 2 ^ 16 → number_of (bytes_2 n) ≡ n
number_of-bytes_2 n h = omega arith

pub number_of-bytes_4 : (n : ℕ) → n < 2 ^ 32 → number_of (bytes_4 n) ≡ n
number_of-bytes_4 n h = omega arith

pub number_of-bytes_8 : (n : ℕ) → n < 2 ^ 64 → number_of (bytes_8 n) ≡ n
number_of-bytes_8 n h = omega arith

pub int_of_word-low_word : (z : ℤ) → IsInt z → int_of_word (low_word z) ≡ z
int_of_word-low_word z h = ground arith

pub long_of_word-low_long : (z : ℤ) → IsLong z → long_of_word (low_long z) ≡ z
long_of_word-low_long z h = ground arith

pub int_of_word-bytes_4 : (z : ℤ) → IsInt z → int_of_word (number_of (bytes_4 (low_word z))) ≡ z
int_of_word-bytes_4 z h =
    ap int_of_word (number_of-bytes_4 (low_word z) (ground arith)) ∙ int_of_word-low_word z h

pub long_of_word-bytes_8 : (z : ℤ) → IsLong z → long_of_word (number_of (bytes_8 (low_long z))) ≡ z
long_of_word-bytes_8 z h =
    ap long_of_word (number_of-bytes_8 (low_long z) (ground arith)) ∙ long_of_word-low_long z h
