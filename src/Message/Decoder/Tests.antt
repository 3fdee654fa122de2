-- ===== src/Message/Decoder/Tests.antt =====
-- Two messages that are read back.
use test.Prelude.{◌≡◌, refl, arith, none, [], ◌∷◌}
use test.Prelude.Int.{pos, negsuc}
use test.Message.MessageExt.{Address, MessageExt, message_at}
use test.Message.MessageId.{create_message_id}
use test.Message.Properties.{message_properties_to_string}
use test.Message.Decoder.{decodes, decoded}
use test.Message.Decoder.Encode.{IsHost, IsStorable}
use test.Message.Decoder.RoundTrip.{encode_all, placed, decodes-encode_all}

abbrev broker_host : Address
broker_host = record { ip = 10 ∷ 0 ∷ 0 ∷ 1 ∷ []; port = 10911 }

broker_host-IsHost : IsHost broker_host
broker_host-IsHost = (10, 0, 0, 1, refl, omega arith)

abbrev first : MessageExt
first = record (message_at 0 (pos 3)) {
  born_host = broker_host;
  store_host = broker_host;
  body = 104 ∷ 105 ∷ [];
  topic = 84 ∷ [];
  properties = (65 ∷ [], 66 ∷ []) ∷ [];
  msg_id = create_message_id broker_host (pos 0);
}

abbrev second : MessageExt
second = record (message_at 0 (pos 4)) {
  born_host = broker_host;
  store_host = broker_host;
  queue_id = negsuc 0;
  topic = 84 ∷ [];
  msg_id = create_message_id broker_host (pos 0);
}

first-IsStorable : IsStorable first
unfolding create_message_id message_properties_to_string
first-IsStorable = (
  (
    ground arith,
    ground arith,
    ground arith,
    ground arith,
    ground arith,
    ground arith,
    ground arith,
    ground arith,
    broker_host-IsHost,
    ground arith,
    broker_host-IsHost,
    ground arith,
    ground arith,
  ),
  (
    refl,
    omega arith,
    omega arith,
    ground arith,
    omega arith,
    ground arith,
    ground arith,
    ground arith,
    refl,
  ),
)

second-IsStorable : IsStorable second
unfolding create_message_id message_properties_to_string
second-IsStorable = (
  (
    ground arith,
    ground arith,
    ground arith,
    ground arith,
    ground arith,
    ground arith,
    ground arith,
    ground arith,
    broker_host-IsHost,
    ground arith,
    broker_host-IsHost,
    ground arith,
    ground arith,
  ),
  (
    refl,
    omega arith,
    omega arith,
    ground arith,
    omega arith,
    ground arith,
    ground arith,
    ground arith,
    refl,
  ),
)

decodes-encode_all_example :
    decodes 3 (λ body. none) (encode_all 7 (first ∷ second ∷ [])) 20
    ≡ decoded (placed 20 (first ∷ second ∷ []))
decodes-encode_all_example =
    decodes-encode_all (λ body. none) 7 (first ∷ second ∷ []) 3 20
      (first-IsStorable, (second-IsStorable, tt)) (omega arith)
