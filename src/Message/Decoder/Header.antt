-- ===== src/Message/Decoder/Header.antt =====
-- The fixed part of a message is read back.
use test.Prelude.{
  ℕ, ◌+◌, ◌%◌, ◌^◌, ◌<◌, ◌≤◌, ◌≡◌, refl, sym, ap, ◌∙◌, arith, Bytes, [], ◌∷◌, length, take, drop,
}
use test.Prelude.Int.{ℤ, pos}
use test.Prelude.Words.{
  bytes_4, bytes_8, number_of, low_word, low_long, int_of_word, long_of_word, IsInt, IsLong,
  int_of_word-bytes_4, long_of_word-bytes_8,
}
use test.Message.MessageExt.{Address, MessageExt}
use test.Message.Decoder.{value, ◌>>=◌, Reader, int_at, long_at, host_at, decode_header}
use test.Message.Decoder.Encode.{header_with, HasFields}

-- A reader that reads what stands in `x` as the reader of `x` does.
abbrev pub Reads : Reader → Bytes → Type 0
Reads r x = (n k : ℕ) → k + n ≤ length x → r n (pos k) ≡ value (take n (drop k x))

-- Four or eight bytes that stand at a place.
module _ (r : Reader) (x : Bytes) (h : Reads r x) (p : ℕ) where
  pub int_at-bytes_4 :
      (z : ℤ)
      → IsInt z
      → p + 4 ≤ length x
      → take 4 (drop p x) ≡ bytes_4 (low_word z)
      → int_at r p ≡ value z
  int_at-bytes_4 z i l e =
      ap (λ d. d >>= λ b. value (int_of_word (number_of b))) (h 4 p l ∙ ap value e)
      ∙ ap value (int_of_word-bytes_4 z i)

  pub long_at-bytes_8 :
      (z : ℤ)
      → IsLong z
      → p + 8 ≤ length x
      → take 8 (drop p x) ≡ bytes_8 (low_long z)
      → long_at r p ≡ value z
  long_at-bytes_8 z i l e =
      ap (λ d. d >>= λ b. value (long_of_word (number_of b))) (h 8 p l ∙ ap value e)
      ∙ ap value (long_of_word-bytes_8 z i)

  port_small : (n : ℕ) → n < 65536 → number_of (bytes_4 n) % 65536 ≡ n
  port_small n l = omega arith

  pub host_at-host_bytes :
      (host : Address) (a b c d : ℕ)
      → host.ip ≡ a ∷ b ∷ c ∷ d ∷ []
      → host.port < 65536
      → p + 8 ≤ length x
      → take 4 (drop p x) ≡ a ∷ b ∷ c ∷ d ∷ []
      → take 4 (drop (p + 4) x) ≡ bytes_4 host.port
      → host_at r p ≡ value host
  host_at-host_bytes host a b c d ip port l e f =
      ap
        (λ d. d >>= λ ip.
          r 4 (pos (p + 4)) >>= λ b. value (record { ip = ip; port = number_of b % 65536 }))
        (h 4 p (omega (arith, l)) ∙ ap value (e ∙ sym ip))
      ∙ ap (λ d. d >>= λ b. value (record { ip = host.ip; port = number_of b % 65536 }))
          (h 4 (p + 4) (omega (arith, l)) ∙ ap value f)
      ∙ ap (λ q. value (record { ip = host.ip; port = q })) (port_small host.port port)

-- The message of the header alone.
abbrev pub header_of : MessageExt → ℕ → MessageExt
header_of m address = record m {
  address = address;
  body = [];
  topic = [];
  properties = [];
  msg_id = [];
}

body_len_read : (n : ℕ) → n < 2 ^ 31 → int_of_word (number_of (bytes_4 n)) ≡ pos n
body_len_read n h = ground arith

module _ (r : Reader) (m : MessageExt) (magic n address : ℕ) (rest : Bytes)
    (a b c d e f g h : ℕ) where
  abbrev x : Bytes
  x = header_with (a ∷ b ∷ c ∷ d ∷ []) (e ∷ f ∷ g ∷ h ∷ []) m magic n rest

  long_enough : (k : ℕ) → k ≤ 88 → k ≤ length x
  long_enough k l = omega (arith, l)

  pub decode_header-header_with :
      Reads r x
      → HasFields m
      → m.born_host.ip ≡ a ∷ b ∷ c ∷ d ∷ []
      → m.store_host.ip ≡ e ∷ f ∷ g ∷ h ∷ []
      → m.born_host.port < 65536
      → m.store_host.port < 65536
      → n < 2 ^ 31
      → decode_header r address ≡ value (header_of m address, pos n)
  unfolding decode_header
  decode_header-header_with reads fields born store born_port store_port small =
      rw
        (
          int_at-bytes_4 r x reads 0 m.store_size fields.0 (long_enough 4 (omega arith)) refl,
          int_at-bytes_4 r x reads 8 m.body_crc fields.1 (long_enough 12 (omega arith)) refl,
          int_at-bytes_4 r x reads 12 m.queue_id fields.2 (long_enough 16 (omega arith)) refl,
          int_at-bytes_4 r x reads 16 m.flag fields.3 (long_enough 20 (omega arith)) refl,
          long_at-bytes_8 r x reads 20 m.queue_offset fields.4 (long_enough 28 (omega arith)) refl,
          long_at-bytes_8 r x reads 28 m.commit_log_offset fields.5 (long_enough 36 (omega arith))
              refl,
          int_at-bytes_4 r x reads 36 m.sys_flag fields.6 (long_enough 40 (omega arith)) refl,
          long_at-bytes_8 r x reads 40 m.born_timestamp fields.7 (long_enough 48 (omega arith))
              refl,
          host_at-host_bytes r x reads 48 m.born_host a b c d born born_port
              (long_enough 56 (omega arith)) refl refl,
          long_at-bytes_8 r x reads 56 m.store_timestamp fields.9 (long_enough 64 (omega arith))
              refl,
          host_at-host_bytes r x reads 64 m.store_host e f g h store store_port
              (long_enough 72 (omega arith)) refl refl,
          int_at-bytes_4 r x reads 72 m.reconsume_times fields.11 (long_enough 76 (omega arith))
              refl,
          long_at-bytes_8 r x reads 76 m.prepared_transaction_offset fields.12
              (long_enough 84 (omega arith)) refl,
          reads 4 84 (long_enough 88 (omega arith)),
          body_len_read n small,
        )
        refl
