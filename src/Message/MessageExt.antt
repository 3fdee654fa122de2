-- ===== src/Message/MessageExt.antt =====
-- include/MessageExt.h and include/Message.h: a message as the consumer holds it. The lists and maps
-- of the source hold pointers to messages; `address` tells two objects apart. The fields are those
-- that MessageDecoder::decode sets, or that the client reads.
use test.Prelude.{ℕ, Bytes, []}
use test.Prelude.Int.{ℤ, pos}
use test.SortedMap.{Map}

-- A `sockaddr_in`: the four bytes of `s_addr`, as they stand in memory, and the port.
pub record Address : Type 0 where
  pub ip : Bytes
  pub port : ℕ

pub record MessageExt : Type 0 where
  pub address : ℕ
  pub store_size : ℤ
  pub body_crc : ℤ
  pub queue_id : ℤ
  pub flag : ℤ
  pub queue_offset : ℤ
  pub commit_log_offset : ℤ
  pub sys_flag : ℤ
  pub born_timestamp : ℤ
  pub born_host : Address
  pub store_timestamp : ℤ
  pub store_host : Address
  pub reconsume_times : ℤ
  pub prepared_transaction_offset : ℤ
  pub body : Bytes
  pub topic : Bytes
  pub properties : Map Bytes Bytes
  pub msg_id : Bytes

abbrev pub no_address : Address
no_address = record { ip = []; port = 0 }

-- A message of which only the place and the offset in its queue matter.
abbrev pub message_at : ℕ → ℤ → MessageExt
message_at a offset = record {
  address = a;
  store_size = pos 0;
  body_crc = pos 0;
  queue_id = pos 0;
  flag = pos 0;
  queue_offset = offset;
  commit_log_offset = pos 0;
  sys_flag = pos 0;
  born_timestamp = pos 0;
  born_host = no_address;
  store_timestamp = pos 0;
  store_host = no_address;
  reconsume_times = pos 0;
  prepared_transaction_offset = pos 0;
  body = [];
  topic = [];
  properties = [];
  msg_id = [];
}
