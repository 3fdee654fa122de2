-- ===== src/Transport/TcpTransport/Tests.antt =====
-- The cutting of concrete bytes.
use test.Prelude.{ℕ, ◌≡◌, refl, List, [], ◌∷◌, Bytes, arith, inl, map}
use test.Transport.TcpTransport.{
  TcpTransport, process_data, try_shrink, processed, out_of_fuel, loses_bytes, get_msg_size,
}
use test.Transport.TcpTransport.Frames.{frame, frames_of}
use test.Transport.TcpTransport.Chunks.{recv_all, recv_all-frames, AllPositive}
use test.Transport.TcpTransport.Spins.{process_data-spins}

-- Two messages and two bytes of a third.
abbrev payloads : List Bytes
payloads = (7 ∷ []) ∷ (8 ∷ 9 ∷ []) ∷ []

abbrev received : TcpTransport
received = record {
  recv_buf = frames_of payloads (0 ∷ 0 ∷ []);
  recv_buf_size = 16384;
  shrink_max = 16384;
  shrink_check_cnt = 32;
}

abbrev hostile : TcpTransport
hostile = record received { recv_buf = 255 ∷ 255 ∷ 255 ∷ 252 ∷ 1 ∷ [] }

process_data-spins_example : process_data 100 hostile ≡ out_of_fuel
process_data-spins_example =
    process_data-spins 100 hostile (1 ∷ []) refl (omega arith) (omega arith) (omega arith)

-- A buffer of a configured size above m_shrinkMax is shrunk below the bytes that it holds.
shrunk_below_used :
    process_data 3 (record {
      recv_buf = 0 ∷ 0 ∷ 0 ∷ 2 ∷ 1 ∷ 1 ∷ 0 ∷ 0 ∷ 0 ∷ 2 ∷ 1 ∷ 1 ∷ [];
      recv_buf_size = 20;
      shrink_max = 6;
      shrink_check_cnt = 0;
    })
    ≡ loses_bytes
unfolding process_data get_msg_size try_shrink
shrunk_below_used = refl

-- The same bytes, of which the socket gives three at most at a time.
abbrev counts : List ℕ
counts = 3 ∷ 3 ∷ 3 ∷ 3 ∷ 3 ∷ 3 ∷ 3 ∷ 3 ∷ 3 ∷ 3 ∷ 3 ∷ 3 ∷ 3 ∷ []

abbrev empty : TcpTransport
empty = record received { recv_buf = [] }

recv_all-frames_example :
    let r = recv_all 3 counts (frames_of payloads (0 ∷ 0 ∷ [])) empty in
    (t' : TcpTransport) × (r.0 ≡ processed (map frame payloads) t')
    × (r.1 ≡ [])
    × (t'.recv_buf ≡ 0 ∷ 0 ∷ [])
recv_all-frames_example =
    recv_all-frames counts payloads (frames_of payloads (0 ∷ 0 ∷ [])) (0 ∷ 0 ∷ []) 3 empty refl
      (inl (omega arith)) ((omega arith, omega arith), ((omega arith, omega arith), tt))
      (refl, omega arith, omega arith) (inl (omega arith)) (omega arith) positive (omega arith)
  where
    positive : AllPositive counts
    positive = (
      omega arith,
      (
        omega arith,
        (
          omega arith,
          (
            omega arith,
            (
              omega arith,
              (
                omega arith,
                (
                  omega arith,
                  (
                    omega arith,
                    (omega arith, (omega arith, (omega arith, (omega arith, (omega arith, tt))))),
                  ),
                ),
              ),
            ),
          ),
        ),
      ),
    )
