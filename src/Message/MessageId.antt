-- ===== src/Message/MessageId.antt =====
-- src/message/MessageDecoder.cpp: createMessageId and decodeMessageId, on a machine that stores the
-- least significant byte first. strtoul and strtoull are a parameter.
pub mod Swapped
mod Tests
use test.Prelude.{
  ℕ, zero, suc, ◌+◌, ◌-◌, ◌/◌, ◌%◌, ◌^◌, ◌<◌, ◌≡◌, Bytes, Bool, Option, none, some, List, [], ◌∷◌,
  ◌++◌, length, take, drop, ltb, if◌then◌else◌,
}
use test.Prelude.Int.{ℤ}
use test.Prelude.Words.{bytes_4, bytes_8, number_of, low_long, long_of_word}
use test.Message.MessageExt.{Address}

-- sprintf's "%02X"
abbrev pub hex_digit : ℕ → ℕ
hex_digit d = if ltb d 10 then 48 + d else 55 + d

abbrev pub hex_of : Bytes → Bytes
hex_of [] = []
hex_of (b ∷ bytes) = hex_digit (b / 16) ∷ hex_digit (b % 16) ∷ hex_of bytes

abbrev pub AllBytes : Bytes → Type 0
AllBytes [] = Unit {0}
AllBytes (b ∷ bytes) = (b < 256) × AllBytes bytes

-- strtoul and strtoull to the base 16: eight and sixteen digits are read as their number.
pub record HexReader : Type 0 where
  pub strtoul : Bytes → ℕ
  pub strtoul-hex :
      (a b c d : ℕ)
      → AllBytes (a ∷ b ∷ c ∷ d ∷ [])
      → strtoul (hex_of (a ∷ b ∷ c ∷ d ∷ [])) ≡ number_of (a ∷ b ∷ c ∷ d ∷ [])
  pub strtoull-hex : (n : ℕ) → n < 2 ^ 64 → strtoul (hex_of (bytes_8 n)) ≡ n

abbrev pub reversed : Bytes → Bytes → Bytes
reversed [] acc = acc
reversed (b ∷ bytes) acc = reversed bytes (b ∷ acc)

-- createMessageId: the address's bytes as they stand in memory, the port and the offset with the most
-- significant byte first.
unfoldable pub create_message_id : Address → ℤ → Bytes
create_message_id addr offset = hex_of (addr.ip ++ (bytes_4 addr.port ++ bytes_8 (low_long offset)))

-- decodeMessageId; `none` is the std::out_of_range of substr. The number of the address is stored as it
-- is, and ntohl and n2hll turn round the bytes of the port's and of the offset's.
unfoldable pub decode_message_id : HexReader → Bytes → Option (Address × ℤ)
decode_message_id h msg_id =
    let ip = h.strtoul (take 8 msg_id) in
    let port = h.strtoul (take 8 (drop 8 msg_id)) in
    let offset = h.strtoul (drop 16 msg_id) in
    if ltb (length msg_id) 16
    then none
    else some (
      record {
        ip = reversed (bytes_4 ip) [];
        port = number_of (reversed (bytes_4 port) []) % 2 ^ 16;
      },
      long_of_word (number_of (reversed (bytes_8 offset) [])),
    )
