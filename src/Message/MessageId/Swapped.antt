-- ===== src/Message/MessageId/Swapped.antt =====
-- What decodeMessageId makes of an id.
use test.Prelude.{ℕ, ◌/◌, ◌%◌, ◌^◌, ◌<◌, ◌≡◌, ap, ◌∙◌, arith, Option, some, [], ◌∷◌}
use test.Prelude.Int.{ℤ}
use test.Prelude.Words.{bytes_4, bytes_8, number_of, low_long, long_of_word, number_of-bytes_4}
use test.Message.MessageExt.{Address}
use test.Message.MessageId.{
  hex_of, AllBytes, HexReader, reversed, create_message_id, decode_message_id,
}

bytes_4-number_of :
    (a b c d : ℕ)
    → AllBytes (a ∷ b ∷ c ∷ d ∷ [])
    → bytes_4 (number_of (a ∷ b ∷ c ∷ d ∷ [])) ≡ a ∷ b ∷ c ∷ d ∷ []
bytes_4-number_of a b c d h = ground arith

low_long-lt : (z : ℤ) → low_long z < 2 ^ 64
low_long-lt z = ground arith

swapped_port : (p : ℕ) → p < 2 ^ 16 → number_of (reversed (bytes_4 p) []) % 2 ^ 16 ≡ 0
swapped_port p h = omega arith

port_read : (h : HexReader) (p : ℕ) → p < 2 ^ 16 → h.strtoul (hex_of (bytes_4 p)) ≡ p
port_read h p l =
    h.strtoul-hex (p / 2 ^ 24 % 2 ^ 8) (p / 2 ^ 16 % 2 ^ 8) (p / 2 ^ 8 % 2 ^ 8) (p % 2 ^ 8)
      (omega arith, (omega arith, (omega arith, (omega arith, tt))))
    ∙ number_of-bytes_4 p (omega (arith, l))

-- On a machine that stores the least significant byte first, decodeMessageId does not give back what
-- createMessageId was given: the four bytes of the address come out in the reverse order, the port is
-- always 0, and the eight bytes of the offset are reversed.
pub decode_message_id-create_message_id :
    (h : HexReader) (a b c d port : ℕ) (offset : ℤ)
    → AllBytes (a ∷ b ∷ c ∷ d ∷ [])
    → port < 2 ^ 16
    → let addr : Address = record { ip = a ∷ b ∷ c ∷ d ∷ []; port = port } in
      decode_message_id h (create_message_id addr offset)
      ≡ some (
        record { ip = d ∷ c ∷ b ∷ a ∷ []; port = 0 },
        long_of_word (number_of (reversed (bytes_8 (low_long offset)) [])),
      )
unfolding decode_message_id create_message_id
decode_message_id-create_message_id h a b c d port offset bytes small =
    ap (λ ip. decoded ip (h.strtoul (hex_of (bytes_4 port))) (h.strtoul (hex_of (bytes_8 w))))
      (h.strtoul-hex a b c d bytes)
    ∙ ap (λ p. decoded ip p (h.strtoul (hex_of (bytes_8 w)))) (port_read h port small)
    ∙ ap (decoded ip port) (h.strtoull-hex w (low_long-lt offset))
    ∙ ap
        (λ l. some (
          record { ip = reversed l []; port = number_of (reversed (bytes_4 port) []) % 2 ^ 16 },
          long_of_word (number_of (reversed (bytes_8 w) [])),
        ))
        (bytes_4-number_of a b c d bytes)
    ∙ ap
        (λ p. some (
          record { ip = d ∷ c ∷ b ∷ a ∷ []; port = p },
          long_of_word (number_of (reversed (bytes_8 w) [])),
        ))
        (swapped_port port small)
  where
    w : ℕ
    w = low_long offset

    ip : ℕ
    ip = number_of (a ∷ b ∷ c ∷ d ∷ [])

    decoded : ℕ → ℕ → ℕ → Option (Address × ℤ)
    decoded i p o = some (
      record { ip = reversed (bytes_4 i) []; port = number_of (reversed (bytes_4 p) []) % 2 ^ 16 },
      long_of_word (number_of (reversed (bytes_8 o) [])),
    )
