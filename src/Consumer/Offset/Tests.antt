-- ===== src/Consumer/Offset/Tests.antt =====
-- The offset stores at concrete tables.
use test.Prelude.{ℕ, zero, suc, ap, ◌∙◌, ◌≡◌, refl, List, [], ◌∷◌, Bytes, true, none, some}
use test.Prelude.Int.{ℤ, pos, negsuc, ◌≤ℤ◌}
use test.SortedMap.{lookup}
use test.Message.MessageQueue.{MessageQueue, message_queue_order, compare_to}
use test.SortedMap.Keys.{cmp_bytes}
use test.Consumer.Offset.Remote.{
  update_consume_offset_to_broker, fetch_consume_offset_from_broker, OffsetTable, Brokers, returns,
  read_from_store, read_offset, persist_all,
}
use test.Consumer.Offset.Remote.Memory.{
  read_offset-read_from_store, raise_all, raise_all-least, AtMost,
}
use test.Consumer.Offset.Remote.Persist.{persist_all-kept}
use test.Consumer.Offset.Local.{
  Json, OffsetPair, LocalFileOffsetStore, to_int, local_read_offset, local_persist_all,
}
use test.Consumer.Offset.Local.Stored.{local_read_offset-local_persist_all}

abbrev queue : ℕ → MessageQueue
queue n = record { topic = 116 ∷ []; broker_name = 98 ∷ []; queue_id = pos n }

abbrev table : OffsetTable
table = (queue 0, pos 7) ∷ (queue 1, pos 9) ∷ []

-- A broker at address "a" that has offset 5 for every queue and takes every update.
abbrev brokers : Brokers
brokers = record {
  address = λ mq. [];
  address_after_update = λ mq. 97 ∷ [];
  query_consumer_offset = λ address group mq. returns (pos 5);
  update_consumer_offset_oneway = λ address mq offset. returns tt;
}

read_offset-read_from_store_example :
    (read_offset brokers [] (queue 0) read_from_store table).0 ≡ pos 5
unfolding fetch_consume_offset_from_broker
read_offset-read_from_store_example =
    ((read_offset-read_from_store brokers [] (queue 0) table).2 (pos 5) refl).0

raise_all-least_example :
    (top : ℤ) × (lookup (queue 0) (raise_all (queue 0) (pos 3 ∷ pos 11 ∷ []) table) ≡ some top)
    × (pos 7 ≤ℤ top)
    × AtMost top (pos 3 ∷ pos 11 ∷ [])
unfolding lookup compare_to cmp_bytes
raise_all-least_example = raise_all-least (queue 0) (pos 3 ∷ pos 11 ∷ []) (pos 7) table refl

persist_all-kept_example :
    (persist_all brokers ((queue 1, tt) ∷ []) table).0
    ≡ (persist_all brokers ((queue 1, tt) ∷ []) table).1
unfolding compare_to cmp_bytes update_consume_offset_to_broker
persist_all-kept_example =
    (persist_all-kept brokers (queue 1, tt) [] table ((refl, tt), (tt, tt))).1 (λ mq o. refl)

-- A text format in the place of JSON: each text is its bytes, one more, and a 0; a number is a text of
-- its sign and its size; a pair is four texts.
abbrev put_text : Bytes → Bytes → Bytes
put_text [] rest = 0 ∷ rest
put_text (b ∷ bs) rest = suc b ∷ put_text bs rest

abbrev on_first : ℕ → List Bytes → List Bytes
on_first b [] = []
on_first b (t ∷ ts) = (b ∷ t) ∷ ts

abbrev texts : Bytes → List Bytes
texts [] = []
texts (zero ∷ rest) = [] ∷ texts rest
texts (suc b ∷ rest) = on_first b (texts rest)

texts-put_text : (t rest : Bytes) → texts (put_text t rest) ≡ t ∷ texts rest
texts-put_text [] rest = refl
texts-put_text (b ∷ bs) rest = ap (on_first b) (texts-put_text bs rest)

abbrev number_text : ℤ → Bytes
number_text (pos n) = 0 ∷ n ∷ []
number_text (negsuc n) = 1 ∷ n ∷ []

abbrev text_number : Bytes → ℤ
text_number (zero ∷ n ∷ t) = pos n
text_number (suc s ∷ n ∷ t) = negsuc n
text_number t = pos 0

text_number-number_text : (z : ℤ) → text_number (number_text z) ≡ z
text_number-number_text (pos n) = refl
text_number-number_text (negsuc n) = refl

abbrev write_pairs : List OffsetPair → Bytes
write_pairs [] = []
write_pairs (p ∷ ps) =
    let rest = write_pairs ps in
    put_text p.message_queue.topic (
      put_text p.message_queue.broker_name
        (put_text (number_text p.message_queue.queue_id) (put_text (number_text p.offset) rest)))

abbrev pairs_from : List Bytes → List OffsetPair
pairs_from (t ∷ b ∷ q ∷ o ∷ rest) =
    record {
      message_queue = record { topic = t; broker_name = b; queue_id = text_number q };
      offset = text_number o;
    }
    ∷ pairs_from rest
pairs_from ts = []

pairs-write_pairs : (ps : List OffsetPair) → pairs_from (texts (write_pairs ps)) ≡ ps
pairs-write_pairs [] = refl
pairs-write_pairs (p ∷ ps) =
    ap pairs_from (
      texts-put_text p.message_queue.topic _
      ∙ ap (λ ts. p.message_queue.topic ∷ ts)
          (texts-put_text p.message_queue.broker_name _
            ∙ ap (λ ts. p.message_queue.broker_name ∷ ts)
                (texts-put_text (number_text p.message_queue.queue_id) _
                  ∙ ap (λ ts. number_text p.message_queue.queue_id ∷ ts)
                      (texts-put_text (number_text p.offset) _))))
    ∙ again (text_number-number_text p.message_queue.queue_id) (text_number-number_text p.offset)
        (pairs-write_pairs ps)
  where
    again :
        {q q' o o' : ℤ} {rest rest' : List OffsetPair}
        → q ≡ q'
        → o ≡ o'
        → rest ≡ rest'
        → record {
          message_queue = record {
            topic = p.message_queue.topic;
            broker_name = p.message_queue.broker_name;
            queue_id = q;
          };
          offset = o;
        }
            ∷ rest
          ≡ record {
            message_queue = record {
              topic = p.message_queue.topic;
              broker_name = p.message_queue.broker_name;
              queue_id = q';
            };
            offset = o';
          }
            ∷ rest'
    again e f g = rw (e, f, g) refl

abbrev format : Json
format = record {
  write = write_pairs;
  parse = λ content. some (pairs_from (texts content));
  parse-write = λ ps. ap some (pairs-write_pairs ps);
}

abbrev local_store : LocalFileOffsetStore
local_store = record { offset_table = table; serialize_wrapper = []; file = none }

local_read_offset-local_persist_all_example :
    (local_read_offset format
      (queue 1)
      read_from_store
      (local_persist_all format true ((queue 1, tt) ∷ []) local_store)).0
    ≡ to_int (pos 9)
unfolding lookup compare_to cmp_bytes
local_read_offset-local_persist_all_example =
    (local_read_offset-local_persist_all format (queue 1, tt) [] local_store (queue 1) (pos 9) refl
      refl).0
