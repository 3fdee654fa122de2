-- ===== src/Message/Decoder.antt =====
-- src/message/MessageDecoder.cpp: decode and decodes, which read messages in the form in which a broker
-- stores them. No length is checked by them: a read that leaves the buffer is `outside`, and an
-- exception that decode catches makes it return NULL, `null`. zlib is a parameter, by decompress.
pub mod Encode
pub mod Header
pub mod Parts
pub mod Single
pub mod RoundTrip
mod Tests
use test.Prelude.{
  ℕ, zero, suc, ◌+◌, ◌-◌, ◌%◌, ◌≡◌, Bytes, Bool, true, false, ◌==◌, Option, none, some, List, [],
  ◌∷◌, length, take, drop, ltb, leb, if◌then◌else◌,
}
use test.Prelude.Int.{ℤ, pos, negsuc, ◌+ℤ◌, ltb_ℤ, pos_part}
use test.Prelude.Words.{number_of, low_word, int_of_word, long_of_word, short_of_word}
use test.Message.MessageExt.{Address, MessageExt, no_address}
use test.Message.MessageId.{create_message_id}
use test.Message.Properties.{string_to_message_properties}

pub data Decoding {ℓ} (A : Type ℓ) : Type ℓ where
  value : A → Decoding A
  null outside : Decoding A

infixl 55 ◌>>=◌
abbrev pub ◌>>=◌ {ℓ κ} : {A : Type ℓ} {B : Type κ} → Decoding A → (A → Decoding B) → Decoding B
value a >>= f = f a
null >>= f = null
outside >>= f = outside

-- Some bytes at a place, which counts from `pData`.
abbrev pub Reader : Type 0
Reader = ℕ → ℤ → Decoding Bytes

abbrev pub read_from : Bytes → ℕ → ℤ → Decoding Bytes
read_from buf n (negsuc k) = outside
read_from buf n (pos k) = if leb (k + n) (length buf) then value (take n (drop k buf)) else outside

-- The reader for `pData` at a place in the buffer.
unfoldable pub reader_at : Bytes → ℤ → Reader
reader_at buf place n p = read_from buf n (place +ℤ p)

abbrev pub int_at : Reader → ℕ → Decoding ℤ
int_at r p = r 4 (pos p) >>= λ b. value (int_of_word (number_of b))

abbrev pub long_at : Reader → ℕ → Decoding ℤ
long_at r p = r 8 (pos p) >>= λ b. value (long_of_word (number_of b))

-- The four bytes of the address as they are, and the low half of the port's number.
abbrev pub host_at : Reader → ℕ → Decoding Address
host_at r p = r 4 (pos p) >>= λ ip.
    r 4 (pos (p + 4)) >>= λ b. value (record { ip = ip; port = number_of b % 65536 })

-- The fixed part of a message, and the length of its body; `address` is the object's.
unfoldable pub decode_header : Reader → ℕ → Decoding (MessageExt × ℤ)
decode_header r address = do
  store_size ← int_at r 0
  body_crc ← int_at r 8
  queue_id ← int_at r 12
  flag ← int_at r 16
  queue_offset ← long_at r 20
  physic_offset ← long_at r 28
  sys_flag ← int_at r 36
  born_time_stamp ← long_at r 40
  born_host ← host_at r 48
  store_timestamp ← long_at r 56
  store_host ← host_at r 64
  reconsume_times ← int_at r 72
  prepared_transaction_offset ← long_at r 76
  body_len ← int_at r 84
  value (
    record {
      address = address;
      store_size = store_size;
      body_crc = body_crc;
      queue_id = queue_id;
      flag = flag;
      queue_offset = queue_offset;
      commit_log_offset = physic_offset;
      sys_flag = sys_flag;
      born_timestamp = born_time_stamp;
      born_host = born_host;
      store_timestamp = store_timestamp;
      store_host = store_host;
      reconsume_times = reconsume_times;
      prepared_transaction_offset = prepared_transaction_offset;
      body = [];
      topic = [];
      properties = [];
      msg_id = [];
    },
    body_len,
  )

-- sysFlag & CompressedFlag
abbrev pub is_compressed : ℤ → Bool
is_compressed sys_flag = low_word sys_flag % 2 == 1

-- The body set: decompressed where that works.
abbrev pub or_as_is : Option Bytes → Bytes → Bytes
or_as_is none body = body
or_as_is (some out) body = out

unfoldable pub decode_body : (Bytes → Option Bytes) → Bool → Reader → ℤ → ℤ → Decoding Bytes
decode_body decompress read_body r sys_flag (negsuc n) = value []
decode_body decompress read_body r sys_flag (pos zero) = value []
decode_body decompress read_body r sys_flag (pos (suc n)) =
    if read_body
    then (r (suc n) (pos 88) >>= λ body.
        value (if is_compressed sys_flag then or_as_is (decompress body) body else body))
    else value []

-- A `char`, which has a sign.
abbrev pub char_of_byte : ℕ → ℤ
char_of_byte b = if ltb b 128 then pos b else negsuc (255 - b)

-- A std::string of characters that end in a NUL.
abbrev pub until_nul : Bytes → Bytes
until_nul [] = []
until_nul (zero ∷ bytes) = []
until_nul (suc c ∷ bytes) = suc c ∷ until_nul bytes

-- The topic of some length: `new` throws for a negative number of bytes, and memcpy of -1 bytes leaves
-- the buffer.
unfoldable pub decode_topic : Reader → ℤ → ℤ → Decoding Bytes
decode_topic r (negsuc zero) place = outside
decode_topic r (negsuc (suc n)) place = null
decode_topic r (pos n) place = r n place >>= λ bytes. value (until_nul bytes)

unfoldable pub decode_properties : Reader → ℤ → ℤ → Decoding (List (Bytes × Bytes))
decode_properties r (negsuc n) place = value []
decode_properties r (pos zero) place = value []
decode_properties r (pos (suc n)) place =
    r (suc n) place >>= λ bytes. value (string_to_message_properties [] (until_nul bytes))

-- The part after the header, and the `offset` that decode sets, at the message's end.
unfoldable pub decode_rest :
    (Bytes → Option Bytes) → Bool → Reader → MessageExt → ℤ → Decoding (MessageExt × ℤ)
decode_rest decompress read_body r msg body_len = do
  let topic_place = pos 88 +ℤ body_len
  body ← decode_body decompress read_body r msg.sys_flag body_len
  topic_byte ← r 1 topic_place
  let topic_len = char_of_byte (number_of topic_byte)
  topic ← decode_topic r topic_len (topic_place +ℤ pos 1)
  let properties_place = topic_place +ℤ pos 1 +ℤ topic_len
  length_bytes ← r 2 properties_place
  let properties_length = short_of_word (number_of length_bytes)
  properties ← decode_properties r properties_length (properties_place +ℤ pos 2)
  value (
    record msg {
      body = body;
      topic = topic;
      properties = properties;
      msg_id = create_message_id msg.store_host msg.commit_log_offset;
    },
    properties_place +ℤ pos 2 +ℤ properties_length,
  )

unfoldable pub decode : (Bytes → Option Bytes) → Bool → Reader → ℕ → Decoding (MessageExt × ℤ)
decode decompress read_body r address =
    decode_header r address >>= λ h. decode_rest decompress read_body r h.0 h.1

-- decodes, from a place in the buffer: it ignores its `readBody`. Of a NULL the list is gone on with at
-- a place that nothing has set: `null`. `address` is the next object's.
pub data Decodes : Type 0 where
  decoded : List MessageExt → Decodes
  unset_place leaves_buffer out_of_fuel : Decodes

abbrev pub with_decoded : MessageExt → Decodes → Decodes
with_decoded msg (decoded msgs) = decoded (msg ∷ msgs)
with_decoded msg unset_place = unset_place
with_decoded msg leaves_buffer = leaves_buffer
with_decoded msg out_of_fuel = out_of_fuel

abbrev pub after_message : Decoding (MessageExt × ℤ) → ℤ → (ℤ → Decodes) → Decodes
after_message (value (msg, size)) place rest = with_decoded msg (rest (place +ℤ size))
after_message null place rest = unset_place
after_message outside place rest = leaves_buffer

unfoldable pub decodes_from : ℕ → (Bytes → Option Bytes) → Bytes → ℤ → ℕ → Decodes
decodes_from zero decompress buf place address = out_of_fuel
decodes_from (suc fuel) decompress buf place address =
    let next =
      after_message (decode decompress true (reader_at buf place) address) place
        (λ p. decodes_from fuel decompress buf p (suc address)) in
    if ltb_ℤ place (pos (length buf)) then next else decoded []

unfoldable pub decodes : ℕ → (Bytes → Option Bytes) → Bytes → ℕ → Decodes
decodes fuel decompress buf address = decodes_from fuel decompress buf (pos 0) address
