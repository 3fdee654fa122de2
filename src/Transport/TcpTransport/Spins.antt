-- ===== src/Transport/TcpTransport/Spins.antt =====
-- A length field for which ProcessData does not end.
use test.Prelude.{
  ℕ, zero, suc, ◌≤◌, ◌≡◌, refl, ap, ◌∙◌, arith, true, false, length, ltb, leb, [], ◌∷◌, Bytes,
}
use test.Prelude.Int.{pos}
use test.Transport.TcpTransport.{
  TcpTransport, get_msg_size, try_shrink, out_of_fuel, with_message, cut_message, process_data,
}

try_shrink-zero :
    (t : TcpTransport)
    → t.recv_buf_size ≤ t.shrink_max
    → let t' = try_shrink 0 t in
      (t'.recv_buf_size ≡ t.recv_buf_size) × (t'.shrink_max ≡ t.shrink_max)
unfolding try_shrink
try_shrink-zero t h = (ground arith, ground arith)

-- A message of the size 0 is cut off, and nothing has changed but the count of checks.
empty_round :
    (fuel : ℕ) (t : TcpTransport)
    → length t.recv_buf ≤ t.recv_buf_size
    → t.recv_buf_size ≤ t.shrink_max
    → cut_message (pos 0) t (process_data fuel)
      ≡ with_message [] (process_data fuel (record (try_shrink 0 t) { recv_buf = t.recv_buf }))
empty_round fuel t held h = rw roomy (rw kept (rw whole refl))
  where
    roomy : ltb t.recv_buf_size 0 ≡ false
    roomy = ground arith

    kept : ltb (try_shrink 0 t).recv_buf_size (length t.recv_buf) ≡ false
    kept = rw (try_shrink-zero t h).0 (ground arith)

    whole : leb 0 (length t.recv_buf) ≡ true
    whole = ground arith

spins :
    (fuel : ℕ) (t : TcpTransport)
    → get_msg_size t.recv_buf ≡ pos 0
    → 5 ≤ length t.recv_buf
    → length t.recv_buf ≤ t.recv_buf_size
    → t.recv_buf_size ≤ t.shrink_max
    → process_data fuel t ≡ out_of_fuel
unfolding process_data
spins zero t e h held k = refl
spins (suc fuel) t e h held k =
    let s = try_shrink-zero t k in
    rw long (
      rw e (
        empty_round fuel t held k
        ∙ ap (with_message []) (
            spins fuel (record (try_shrink 0 t) { recv_buf = t.recv_buf }) e h
              (omega (arith, s.0, held)) (omega (arith, s.0, s.1, k)))))
  where
    long : ltb 4 (length t.recv_buf) ≡ true
    long = ground arith

-- The size that wraps: four more than 2^32 - 4.
size_of_maximum : (rest : Bytes) → get_msg_size (255 ∷ 255 ∷ 255 ∷ 252 ∷ rest) ≡ pos 0
unfolding get_msg_size
size_of_maximum rest = refl

-- When a buffer that is not larger than m_shrinkMax holds a length field of 2^32 - 4 and one more byte,
-- ProcessData cuts off empty messages for ever, whatever the fuel.
pub process_data-spins :
    (fuel : ℕ) (t : TcpTransport) (rest : Bytes)
    → t.recv_buf ≡ 255 ∷ 255 ∷ 255 ∷ 252 ∷ rest
    → 1 ≤ length rest
    → length t.recv_buf ≤ t.recv_buf_size
    → t.recv_buf_size ≤ t.shrink_max
    → process_data fuel t ≡ out_of_fuel
process_data-spins fuel t rest e h held k =
    spins fuel t (ap get_msg_size e ∙ size_of_maximum rest) (omega (arith, ap length e)) held k
