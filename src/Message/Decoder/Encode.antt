-- ===== src/Message/Decoder/Encode.antt =====
-- The form in which a broker stores a message, as a description that is independent of the decoder.
use test.Prelude.{ℕ, ◌<◌, ◌≡◌, ◌≢◌, ◌^◌, Bytes, false, [], ◌∷◌, ◌++◌, length}
use test.Prelude.Words.{bytes_2, bytes_4, bytes_8, low_word, low_long, IsInt, IsLong}
use test.SortedMap.{IsOrdered}
use test.SortedMap.Keys.{bytes_order}
use test.Message.MessageExt.{Address, MessageExt}
use test.Message.MessageId.{create_message_id}
use test.Message.Properties.{message_properties_to_string}
use test.Message.Properties.RoundTrip.{AllFree}
use test.Message.Decoder.{is_compressed}

-- What stands before the body, with the addresses of the hosts, the magic code and the length of the
-- body.
abbrev pub header_with : Bytes → Bytes → MessageExt → ℕ → ℕ → Bytes → Bytes
header_with born_ip store_ip m magic body_len rest =
    bytes_4 (low_word m.store_size)
    ++ (bytes_4 magic
        ++ (bytes_4 (low_word m.body_crc)
            ++ (bytes_4 (low_word m.queue_id)
                ++ (bytes_4 (low_word m.flag)
                    ++ (bytes_8 (low_long m.queue_offset)
                        ++ (bytes_8 (low_long m.commit_log_offset)
                            ++ (bytes_4 (low_word m.sys_flag)
                                ++ (bytes_8 (low_long m.born_timestamp)
                                    ++ (born_ip
                                        ++ (bytes_4 m.born_host.port
                                            ++ (bytes_8 (low_long m.store_timestamp)
                                                ++ (store_ip
                                                    ++ (bytes_4 m.store_host.port
                                                        ++ (bytes_4 (low_word m.reconsume_times)
                                                            ++ (bytes_8
                                                            (low_long m.prepared_transaction_offset)
                                                            ++ (bytes_4 body_len
                                                            ++ rest))))))))))))))))

abbrev pub header_bytes : MessageExt → ℕ → ℕ → Bytes → Bytes
header_bytes m = header_with m.born_host.ip m.store_host.ip m

abbrev pub tail_bytes : MessageExt → Bytes
tail_bytes m =
    let text = message_properties_to_string m.properties in
    m.body ++ (length m.topic ∷ (m.topic ++ (bytes_2 (length text) ++ text)))

unfoldable pub encode : ℕ → MessageExt → Bytes
encode magic m = header_bytes m magic (length m.body) (tail_bytes m)

-- No byte of the text is NUL.
abbrev pub NoNul : Bytes → Type 0
NoNul [] = Unit {0}
NoNul (c ∷ text) = (c ≢ 0) × NoNul text

-- An address of four bytes.
abbrev pub IsHost : Address → Type 0
IsHost host =
    (a : ℕ) × (b : ℕ) × (c : ℕ) × (d : ℕ) × (host.ip ≡ a ∷ b ∷ c ∷ d ∷ []) × (host.port < 65536)

-- The numbers of the header lie in the ranges of their fields.
abbrev pub HasFields : MessageExt → Type 0
HasFields m =
    IsInt m.store_size
    × IsInt m.body_crc
    × IsInt m.queue_id
    × IsInt m.flag
    × IsLong m.queue_offset
    × IsLong m.commit_log_offset
    × IsInt m.sys_flag
    × IsLong m.born_timestamp
    × IsHost m.born_host
    × IsLong m.store_timestamp
    × IsHost m.store_host
    × IsInt m.reconsume_times
    × IsLong m.prepared_transaction_offset

-- The body is not compressed and below 2^31 bytes, the topic below 128; the properties are text that can be
-- read back, below 2^15 bytes; and the id is the one of the place where the message is stored.
abbrev pub HasParts : MessageExt → Type 0
HasParts m =
    let text = message_properties_to_string m.properties in
    (is_compressed m.sys_flag ≡ false)
    × (length m.body < 2 ^ 31)
    × (length m.topic < 128)
    × NoNul m.topic
    × (length text < 2 ^ 15)
    × NoNul text
    × IsOrdered m.properties
    × AllFree m.properties
    × (m.msg_id ≡ create_message_id m.store_host m.commit_log_offset)

abbrev pub IsStorable : MessageExt → Type 0
IsStorable m = HasFields m × HasParts m
