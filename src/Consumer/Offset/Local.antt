-- ===== src/Consumer/Offset/Local.antt =====
-- src/consumer/LocalFileOffsetStore.cpp and OffsetSerializeWrapper.cpp: the offsets of a consumer that
-- keeps them in a file. Logging is left out, and so is the path, a constant of the store. jsoncpp and
-- the file system are parameters.
pub mod Stored
use test.Prelude.{
  ℕ, ◌+◌, ◌-◌, ◌%◌, ◌^◌, ◌≡◌, Bytes, Bool, true, false, Option, none, some, List, [], ◌∷◌, ltb,
  if◌then◌else◌,
}
use test.Prelude.Int.{ℤ, pos, negsuc, minus_one}
use test.Prelude.Words.{low_word, int_of_word}
use test.SortedMap.{Map, lookup, insert}
use test.Message.MessageQueue.{MessageQueue, message_queue_order}
use test.Common.MixAll.{compare_and_increase_only}
use test.Consumer.Offset.Remote.{
  OffsetTable, QueueSet, ReadOffsetType, read_from_memory, read_from_store, memory_first_then_store,
}

-- The cast of a `long` to `int`.
unfoldable pub to_int : ℤ → ℤ
to_int z = int_of_word (low_word z)

-- An element of the JSON array, with the members broker, topic, queueId and offset.
pub record OffsetPair : Type 0 where
  pub message_queue : MessageQueue
  pub offset : ℤ

-- jsoncpp's writer and reader of such arrays: what is written is read back.
pub record Json : Type 0 where
  pub write : List OffsetPair → Bytes
  pub parse : Bytes → Option (List OffsetPair)
  pub parse-write : (pairs : List OffsetPair) → parse (write pairs) ≡ some pairs

pub record LocalFileOffsetStore : Type 0 where
  pub offset_table : OffsetTable
  pub serialize_wrapper : OffsetTable
  pub file : Option Bytes

-- OffsetSerializeWrapper::Encode: the offset is cast to `int`.
unfoldable pub pairs_of : OffsetTable → List OffsetPair
pairs_of [] = []
pairs_of ((mq, offset) ∷ t) = record { message_queue = mq; offset = to_int offset } ∷ pairs_of t

-- m.insert(std::make_pair(mq, offset)), which keeps an entry that is there.
abbrev pub insert_new : Option ℤ → MessageQueue → ℤ → OffsetTable → OffsetTable
insert_new none mq offset t = insert mq offset t
insert_new (some _) mq offset t = t

-- The loop of OffsetSerializeWrapper::Decode.
unfoldable pub add_pairs : List OffsetPair → OffsetTable → OffsetTable
add_pairs [] t = t
add_pairs (p ∷ ps) t =
    add_pairs ps (insert_new (lookup p.message_queue t) p.message_queue p.offset t)

-- updateOffset
abbrev pub local_update_found : Option ℤ → MessageQueue → ℤ → Bool → OffsetTable → OffsetTable
local_update_found none mq offset increase_only t = insert mq offset t
local_update_found (some old) mq offset increase_only t =
    if increase_only
    then insert mq (compare_and_increase_only old offset []).1 t
    else insert mq offset t

unfoldable pub local_update_offset : MessageQueue → ℤ → Bool → OffsetTable → OffsetTable
local_update_offset mq offset increase_only t =
    local_update_found (lookup mq t) mq offset increase_only t

-- The loop of persistAll over the queues.
abbrev pub add_found : Option ℤ → MessageQueue → OffsetTable → OffsetTable
add_found none mq wrapper = wrapper
add_found (some offset) mq wrapper = insert mq offset wrapper

unfoldable pub add_offsets : QueueSet → OffsetTable → OffsetTable → OffsetTable
add_offsets [] t wrapper = wrapper
add_offsets ((mq, _) ∷ mqs) t wrapper = add_offsets mqs t (add_found (lookup mq t) mq wrapper)

module _ (json : Json) where
  open json use {write, parse}

  -- OffsetSerializeWrapper::Decode: its result, and the wrapper's table afterwards.
  abbrev pub decoded : Option (List OffsetPair) → OffsetTable → Bool × OffsetTable
  decoded none wrapper = (false, wrapper)
  decoded (some pairs) wrapper = (true, add_pairs pairs [])

  -- readOffsetFromLocal: a file that cannot be read is no error, and leaves the wrapper as it is.
  abbrev pub read_file : Option Bytes → OffsetTable → Bool × OffsetTable
  read_file none wrapper = (true, wrapper)
  read_file (some content) wrapper = decoded (parse content) wrapper

  -- load
  unfoldable pub load : LocalFileOffsetStore → LocalFileOffsetStore
  load s =
      let read = read_file s.file s.serialize_wrapper in
      record s { serialize_wrapper = read.1; offset_table = read.1 }

  abbrev pub found_in_store :
      Option ℤ → MessageQueue → LocalFileOffsetStore → ℤ × LocalFileOffsetStore
  found_in_store none mq s = (minus_one, s)
  found_in_store (some offset) mq s =
      (offset, record s { offset_table = local_update_offset mq offset false s.offset_table })

  unfoldable pub read_local_file : MessageQueue → LocalFileOffsetStore → ℤ × LocalFileOffsetStore
  read_local_file mq s =
      let read = read_file s.file s.serialize_wrapper in
      let s' : LocalFileOffsetStore = record s { serialize_wrapper = read.1 } in
      if read.0 then found_in_store (lookup mq read.1) mq s' else (minus_one, s')

  -- readOffset
  abbrev pub local_read_found :
      Option ℤ → MessageQueue → ReadOffsetType → LocalFileOffsetStore → ℤ × LocalFileOffsetStore
  local_read_found found mq read_from_store s = read_local_file mq s
  local_read_found (some offset) mq read_from_memory s = (offset, s)
  local_read_found (some offset) mq memory_first_then_store s = (offset, s)
  local_read_found none mq read_from_memory s = (minus_one, s)
  local_read_found none mq memory_first_then_store s = read_local_file mq s

  unfoldable pub local_read_offset :
      MessageQueue → ReadOffsetType → LocalFileOffsetStore → ℤ × LocalFileOffsetStore
  local_read_offset mq type s = local_read_found (lookup mq s.offset_table) mq type s

  -- persistAll; SafeWriteFile leaves the old file where it fails, and its result is not read.
  unfoldable pub local_persist_all : Bool → QueueSet → LocalFileOffsetStore → LocalFileOffsetStore
  local_persist_all written [] s = s
  local_persist_all written (q ∷ mqs) s =
      let wrapper = add_offsets (q ∷ mqs) s.offset_table [] in
      record s {
        serialize_wrapper = wrapper;
        file = if written then some (write (pairs_of wrapper)) else s.file;
      }
