-- ===== src/Transport/TcpTransport.antt =====
-- src/transport/TcpTransport.cpp: how the bytes that a connection receives are cut into messages. A
-- message is its length in four bytes, most significant first, and that many bytes. The buffer is the
-- bytes received, whose number is m_recvBufUsed; realloc always succeeds, and cuts off what is past its new
-- size. Sending and connecting are left out.
pub mod Frames
pub mod Spins
pub mod Cuts
pub mod Chunks
mod Tests
use test.Prelude.{
  ℕ, zero, suc, ◌+◌, ◌*◌, ◌%◌, ◌^◌, ◌-◌, ◌≤◌, ◌<◌, ◌≡◌, Bytes, Bool, true, false, Option, none,
  some, List, [], ◌∷◌, ◌++◌, length, take, drop, ltb, leb, max, ◌==◌, if◌then◌else◌,
}
use test.Prelude.Int.{ℤ, pos, negsuc}
use test.Prelude.Words.{int_of_word}

abbrev pub default_shrink_count : ℕ
default_shrink_count = 32

pub record TcpTransport : Type 0 where
  pub recv_buf : Bytes
  pub recv_buf_size : ℕ
  pub shrink_max : ℕ
  pub shrink_check_cnt : ℕ

-- The constructor, with the configured buffer size and count of checks, or 16 KB and 32.
abbrev pub configured : Option ℕ → ℕ → ℕ
configured none default = default
configured (some value) default = value

unfoldable pub new_transport : Option ℕ → Option ℕ → TcpTransport
new_transport buffer_size check_max = record {
  recv_buf = [];
  recv_buf_size = configured buffer_size 16384;
  shrink_max = 16384;
  shrink_check_cnt = configured check_max default_shrink_count;
}

-- GetMsgSize: ntohl(len) + 4 is unsigned, and its low 32 bits are taken as an `int`.
unfoldable pub get_msg_size : Bytes → ℤ
get_msg_size (a ∷ b ∷ c ∷ d ∷ rest) =
    int_of_word ((a * 2 ^ 24 + b * 2 ^ 16 + c * 2 ^ 8 + d + 4) % 2 ^ 32)
get_msg_size buf = pos 0

-- ResizeBuf, where the bytes received fit
abbrev pub resize_buf : ℕ → TcpTransport → TcpTransport
resize_buf size t = record t { recv_buf_size = size }

-- TryShrink, with a length that is not negative
unfoldable pub try_shrink : ℕ → TcpTransport → TcpTransport
try_shrink msg_len t =
    let top = if ltb t.shrink_max msg_len then msg_len else t.shrink_max in
    if t.shrink_check_cnt == 0
    then record t {
      shrink_max = top;
      shrink_check_cnt = default_shrink_count;
      recv_buf_size = if ltb top t.recv_buf_size then top else t.recv_buf_size;
    }
    else record t { shrink_max = top; shrink_check_cnt = t.shrink_check_cnt - 1 }

-- How ProcessData ends: with the messages cut off and the state, or with the std::length_error of an
-- assign of a negative length; or the buffer has been shrunk below the bytes that it holds, and what
-- the source reads then is no longer allocated; or the fuel does not suffice.
pub data Processed : Type 0 where
  processed : List Bytes → TcpTransport → Processed
  throws_length_error loses_bytes out_of_fuel : Processed

abbrev pub with_message : Bytes → Processed → Processed
with_message data' (processed messages t) = processed (data' ∷ messages) t
with_message data' throws_length_error = throws_length_error
with_message data' loses_bytes = loses_bytes
with_message data' out_of_fuel = out_of_fuel

-- A round of the loop with the length of the first message; `rest` is the loop after a message is cut.
abbrev pub cut_message : ℤ → TcpTransport → (TcpTransport → Processed) → Processed
cut_message (negsuc n) t rest = throws_length_error
cut_message (pos n) t rest =
    let shrunk = try_shrink n t in
    if ltb t.recv_buf_size n
    then processed [] (record t { recv_buf_size = n; shrink_check_cnt = default_shrink_count })
    else if ltb shrunk.recv_buf_size (length t.recv_buf)
    then loses_bytes
    else if leb n (length t.recv_buf)
    then with_message (take n t.recv_buf) (rest (record shrunk { recv_buf = drop n t.recv_buf }))
    else processed [] shrunk

-- ProcessData
unfoldable pub process_data : ℕ → TcpTransport → Processed
process_data zero t = out_of_fuel
process_data (suc fuel) t =
    let cut = cut_message (get_msg_size t.recv_buf) t (process_data fuel) in
    if ltb 4 (length t.recv_buf) then cut else processed [] t

-- How many bytes RecvMsg receives where the socket would give `count`: as many as the buffer has room for.
abbrev pub received_size : ℕ → TcpTransport → ℕ
received_size count t =
    let free = t.recv_buf_size - length t.recv_buf in if ltb free count then free else count

-- RecvData: RecvMsg of the first bytes of what the peer sends, and ProcessData.
unfoldable pub recv_data : ℕ → ℕ → Bytes → TcpTransport → Processed
recv_data fuel count stream t =
    process_data fuel (record t { recv_buf = t.recv_buf ++ take (received_size count t) stream })
