-- ===== src/Message/MessageId/Tests.antt =====
-- An id that does not come back, with a reader of hexadecimal digits.
use test.Prelude.{
  ℕ, ◌+◌, ◌-◌, ◌*◌, ◌/◌, ◌%◌, ◌^◌, ◌<◌, ◌≡◌, refl, ap, ◌∙◌, arith, Bytes, some, [], ◌∷◌, ltb,
  if◌then◌else◌,
}
use test.Prelude.Int.{pos}
use test.Prelude.Words.{bytes_8, number_of, number_after, number_of-bytes_8, low_long, long_of_word}
use test.Message.MessageId.{
  hex_digit, hex_of, AllBytes, HexReader, reversed, create_message_id, decode_message_id,
}
use test.Message.MessageId.Swapped.{decode_message_id-create_message_id}

abbrev digit_of : ℕ → ℕ
digit_of c = if ltb c 58 then c - 48 else c - 55

abbrev read_hex : ℕ → Bytes → ℕ
read_hex high [] = high
read_hex high (c ∷ text) = read_hex (high * 16 + digit_of c) text

digit_of-hex_digit : (d : ℕ) → d < 16 → digit_of (hex_digit d) ≡ d
digit_of-hex_digit d h = ground arith

byte_read :
    (high b : ℕ)
    → b < 256
    → (high * 16 + digit_of (hex_digit (b / 16))) * 16 + digit_of (hex_digit (b % 16))
      ≡ high * 2 ^ 8 + b
byte_read high b h =
    omega
      (arith, digit_of-hex_digit (b / 16) (omega arith), digit_of-hex_digit (b % 16) (omega arith))

read_hex-hex_of :
    (high : ℕ) (l : Bytes) → AllBytes l → read_hex high (hex_of l) ≡ number_after high l
read_hex-hex_of high [] h = refl
read_hex-hex_of high (b ∷ l) h =
    ap (λ n. read_hex n (hex_of l)) (byte_read high b h.0)
    ∙ read_hex-hex_of (high * 2 ^ 8 + b) l h.1

AllBytes-bytes_8 : (n : ℕ) → AllBytes (bytes_8 n)
AllBytes-bytes_8 n = (
  omega arith,
  (
    omega arith,
    (omega arith, (omega arith, (omega arith, (omega arith, (omega arith, (omega arith, tt)))))),
  ),
)

abbrev hex_reader : HexReader
hex_reader = record {
  strtoul = read_hex 0;
  strtoul-hex = λ a b c d h. read_hex-hex_of 0 (a ∷ b ∷ c ∷ d ∷ []) h;
  strtoull-hex = λ n h. read_hex-hex_of 0 (bytes_8 n) (AllBytes-bytes_8 n) ∙ number_of-bytes_8 n h;
}

decode_message_id-create_message_id_example :
    decode_message_id hex_reader
      (create_message_id (record { ip = 10 ∷ 0 ∷ 0 ∷ 1 ∷ []; port = 10911 }) (pos 258))
    ≡ some (
      record { ip = 1 ∷ 0 ∷ 0 ∷ 10 ∷ []; port = 0 },
      long_of_word (number_of (reversed (bytes_8 (low_long (pos 258))) [])),
    )
decode_message_id-create_message_id_example =
    decode_message_id-create_message_id hex_reader 10 0 0 1 10911 (pos 258)
      (omega arith, (omega arith, (omega arith, (omega arith, tt)))) (omega arith)
