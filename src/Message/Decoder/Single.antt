-- ===== src/Message/Decoder/Single.antt =====
-- One stored message is read back.
use test.Prelude.{
  ℕ, ◌+◌, ◌≡◌, refl, sym, ap, ◌∙◌, subst, arith, Bytes, true, Option, [], ◌∷◌, ◌++◌, length,
  append_assoc, append-nil, length-append,
}
use test.Prelude.Int.{pos}
use test.Prelude.Words.{bytes_2}
use test.Message.MessageExt.{MessageExt}
use test.Message.Properties.{message_properties_to_string}
use test.Message.Properties.RoundTrip.{string_to_message_properties-message_properties_to_string}
use test.Message.Decoder.{value, ◌>>=◌, Reader, decode_rest, decode}
use test.Message.Decoder.Encode.{header_with, tail_bytes, encode, HasParts, IsStorable}
use test.Message.Decoder.Header.{Reads, header_of, decode_header-header_with}
use test.Message.Decoder.Parts.{
  read_middle, decode_rest-reads, decode_body-plain, decode_topic-NoNul, decode_properties-text,
}

module _ (decompress : Bytes → Option Bytes) (r : Reader) (m : MessageExt) (magic address : ℕ)
    (a b c d e f g h : ℕ) where
  abbrev text : Bytes
  text = message_properties_to_string m.properties

  abbrev head : Bytes
  head = header_with (a ∷ b ∷ c ∷ d ∷ []) (e ∷ f ∷ g ∷ h ∷ []) m magic (length m.body) []

  abbrev stored : Bytes
  stored =
      header_with (a ∷ b ∷ c ∷ d ∷ []) (e ∷ f ∷ g ∷ h ∷ []) m magic (length m.body) (tail_bytes m)

  stored-length : length stored ≡ 88 + length m.body + 1 + length m.topic + 2 + length text
  stored-length = omega (
    arith,
    length-append m.body (length m.topic ∷ (m.topic ++ (bytes_2 (length text) ++ text))),
    length-append m.topic (bytes_2 (length text) ++ text),
  )

  rest_read :
      Reads r stored
      → HasParts m
      → decode_rest decompress true r (header_of m address) (pos (length m.body))
        ≡ value (record m { address = address }, pos (length stored))
  rest_read reads parts =
      decode_rest-reads decompress r (header_of m address) (length m.body) (length m.topic)
        (length text) m.body m.topic m.properties
        (decode_body-plain decompress r m.sys_flag m.body parts.0
          (read_middle r stored reads head m.body after_body 88 (length m.body) refl refl refl))
        (read_middle r stored reads (head ++ m.body) (length m.topic ∷ []) after_byte
          (88 + length m.body) 1 at_byte (length-append head m.body) refl)
        (decode_topic-NoNul r m.topic _ parts.3 (
          read_middle r stored reads pre_topic m.topic after_topic (88 + length m.body + 1)
            (length m.topic) at_topic pre_topic-length refl))
        (read_middle r stored reads (pre_topic ++ m.topic) (bytes_2 (length text)) text
          (88 + length m.body + 1 + length m.topic) 2 at_length
          (omega (arith, length-append pre_topic m.topic, pre_topic-length)) refl)
        (decode_properties-text r text _ m.properties parts.5
          (read_middle r stored reads ((pre_topic ++ m.topic) ++ bytes_2 (length text)) text []
            (88 + length m.body + 1 + length m.topic + 2) (length text) at_text
            (omega (
              arith,
              length-append (pre_topic ++ m.topic) (bytes_2 (length text)),
              length-append pre_topic m.topic,
              pre_topic-length,
            ))
            refl)
          (string_to_message_properties-message_properties_to_string m.properties parts.6 parts.7))
        parts.2 parts.4
      ∙ ap
          (λ i. value (
            record m { address = address; msg_id = i },
            pos (88 + length m.body + 1 + length m.topic + 2 + length text),
          ))
          (sym parts.8)
      ∙ ap (λ k. value (record m { address = address }, pos k)) (sym stored-length)
    where
      after_topic : Bytes
      after_topic = bytes_2 (length text) ++ text

      after_byte : Bytes
      after_byte = m.topic ++ after_topic

      after_body : Bytes
      after_body = length m.topic ∷ after_byte

      pre_topic : Bytes
      pre_topic = (head ++ m.body) ++ length m.topic ∷ []

      pre_topic-length : length pre_topic ≡ 88 + length m.body + 1
      pre_topic-length =
          omega
            (arith, length-append (head ++ m.body) (length m.topic ∷ []), length-append head m.body)

      at_byte : stored ≡ (head ++ m.body) ++ after_body
      at_byte = sym (append_assoc head m.body after_body)

      at_topic : stored ≡ pre_topic ++ after_byte
      at_topic = at_byte ∙ sym (append_assoc (head ++ m.body) (length m.topic ∷ []) after_byte)

      at_length : stored ≡ (pre_topic ++ m.topic) ++ after_topic
      at_length = at_topic ∙ sym (append_assoc pre_topic m.topic after_topic)

      at_text : stored ≡ ((pre_topic ++ m.topic) ++ bytes_2 (length text)) ++ (text ++ [])
      at_text =
          at_length
          ∙ sym (append_assoc (pre_topic ++ m.topic) (bytes_2 (length text)) text)
          ∙ ap (λ l. ((pre_topic ++ m.topic) ++ bytes_2 (length text)) ++ l) (sym (append-nil text))

-- A message as a broker stores it is decoded as it was, into the new object, and decode sets its
-- `offset` to the message's length; from any place at which the message can be read.
pub decode-encode :
    (decompress : Bytes → Option Bytes) (r : Reader) (m : MessageExt) (magic address : ℕ)
    → IsStorable m
    → Reads r (encode magic m)
    → decode decompress true r address
      ≡ value (record m { address = address }, pos (length (encode magic m)))
unfolding decode encode
decode-encode decompress r m magic address (fields, parts) reads =
    let (a, b, c, d, born, born_port) = fields.8 in
    let (e, f, g, h, store, store_port) = fields.10 in
    let at : encode magic m ≡ stored decompress r m magic address a b c d e f g h =
      ap (λ ip. header_with ip m.store_host.ip m magic (length m.body) (tail_bytes m)) born
      ∙ ap (λ ip. header_with (a ∷ b ∷ c ∷ d ∷ []) ip m magic (length m.body) (tail_bytes m))
          store in
    let there = subst (Reads r) at reads in
    ap (λ v. v >>= λ k. decode_rest decompress true r k.0 k.1)
      (decode_header-header_with r m magic (length m.body) address (tail_bytes m) a b c d e f g h
        there fields born store born_port store_port parts.1)
    ∙ rest_read decompress r m magic address a b c d e f g h there parts
    ∙ ap (λ x. value (record m { address = address }, pos (length x))) (sym at)
