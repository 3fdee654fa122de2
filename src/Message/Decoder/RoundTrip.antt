-- ===== src/Message/Decoder/RoundTrip.antt =====
-- A buffer of stored messages is read back as the messages.
use test.Prelude.{
  ℕ, zero, suc, ◌+◌, ◌<◌, ◌≤◌, ◌≡◌, refl, sym, ap, ◌∙◌, arith, Bytes, true, false, Option, List, [],
  ◌∷◌, ◌++◌, length, take, drop, append_assoc, length-append, leb, if◌then◌else◌,
}
use test.Prelude.Int.{ℤ, pos, pos-add, ltb_ℤ}
use test.Message.MessageExt.{MessageExt}
use test.Message.Decoder.{
  Decoding, value, read_from, reader_at, decode, Decodes, decoded, with_decoded, after_message,
  decodes_from, decodes,
}
use test.Message.Decoder.Encode.{encode, IsStorable}
use test.Message.Decoder.Header.{Reads}
use test.Message.Decoder.Single.{decode-encode}

unfoldable pub encode_all : ℕ → List MessageExt → Bytes
encode_all magic [] = []
encode_all magic (m ∷ ms) = encode magic m ++ encode_all magic ms

abbrev pub AllStorable : List MessageExt → Type 0
AllStorable [] = Unit {0}
AllStorable (m ∷ ms) = IsStorable m × AllStorable ms

-- The messages in new objects, one after the other.
abbrev pub placed : ℕ → List MessageExt → List MessageExt
placed address [] = []
placed address (m ∷ ms) = record m { address = address } ∷ placed (suc address) ms

take-inside :
    (n k : ℕ) (x post : Bytes) → k + n ≤ length x → take n (drop k (x ++ post)) ≡ take n (drop k x)
take-inside zero zero x post h = refl
take-inside (suc n) zero [] post h = absurd (omega (arith, h))
take-inside (suc n) zero (c ∷ x) post h =
    ap (λ l. c ∷ l) (take-inside n zero x post (omega (arith, h)))
take-inside n (suc k) [] post h = absurd (omega (arith, h))
take-inside n (suc k) (c ∷ x) post h = take-inside n k x post (omega (arith, h))

drop-after : (k : ℕ) (pre y : Bytes) → drop (length pre + k) (pre ++ y) ≡ drop k y
drop-after k [] y = ap (λ (j : ℕ). drop j y) start
  where
    start : length {A = ℕ} [] + k ≡ k
    start = omega arith
drop-after k (c ∷ pre) y = ap (λ (j : ℕ). drop j (c ∷ (pre ++ y))) start ∙ drop-after k pre y
  where
    start : length (c ∷ pre) + k ≡ suc (length pre + k)
    start = omega arith

reader_at-Reads : (pre x post : Bytes) → Reads (reader_at (pre ++ (x ++ post)) (pos (length pre))) x
unfolding reader_at
reader_at-Reads pre x post n k h =
    ap (read_from (pre ++ (x ++ post)) n) (pos-add (length pre) k)
    ∙ ap
        (λ b.
          if b
          then value (take n (drop (length pre + k) (pre ++ (x ++ post))))
          else Decoding.outside)
        inside
    ∙ ap value (ap (take n) (drop-after k pre (x ++ post)) ∙ take-inside n k x post h)
  where
    inside : leb (length pre + k + n) (length (pre ++ (x ++ post))) ≡ true
    inside = ground (arith, length-append pre (x ++ post), length-append x post)

encode-length : (magic : ℕ) (m : MessageExt) → 1 ≤ length (encode magic m)
unfolding encode
encode-length magic m = omega arith

decodes_from-encode_all :
    (decompress : Bytes → Option Bytes) (magic : ℕ) (ms : List MessageExt) (fuel : ℕ) (pre : Bytes)
    (address : ℕ)
    → AllStorable ms
    → length ms < fuel
    → decodes_from fuel decompress (pre ++ encode_all magic ms) (pos (length pre)) address
      ≡ decoded (placed address ms)
unfolding decodes_from encode_all
decodes_from-encode_all decompress magic ms zero pre address s f = absurd (omega (arith, f))
decodes_from-encode_all decompress magic [] (suc fuel) pre address s f =
    ap
      (λ b.
        if b
        then after_message
            (decode decompress true (reader_at (pre ++ []) (pos (length pre))) address)
            (pos (length pre)) (λ p. decodes_from fuel decompress (pre ++ []) p (suc address))
        else decoded [])
      over
  where
    over : ltb_ℤ (pos (length pre)) (pos (length (pre ++ []))) ≡ false
    over = ground (arith, length-append pre [])
decodes_from-encode_all decompress magic (m ∷ ms) (suc fuel) pre address s f =
    ap
      (λ b.
        if b
        then after_message (decode decompress true (reader_at buf (pos (length pre))) address)
            (pos (length pre)) later
        else decoded [])
      more
    ∙ ap (λ d. after_message d (pos (length pre)) later)
        (decode-encode decompress (reader_at buf (pos (length pre))) m magic address s.0
          (reader_at-Reads pre x (encode_all magic ms)))
    ∙ ap (λ k. with_decoded (record m { address = address }) (later k))
        (pos-add (length pre) (length x) ∙ ap pos (sym (length-append pre x)))
    ∙ ap
        (λ b.
          with_decoded (record m { address = address })
            (decodes_from fuel decompress b (pos (length (pre ++ x))) (suc address)))
        (sym (append_assoc pre x (encode_all magic ms)))
    ∙ ap (with_decoded (record m { address = address })) (
        decodes_from-encode_all decompress magic ms fuel (pre ++ x) (suc address) s.1
          (omega (arith, f)))
  where
    x : Bytes
    x = encode magic m

    buf : Bytes
    buf = pre ++ (x ++ encode_all magic ms)

    later : ℤ → Decodes
    later p = decodes_from fuel decompress buf p (suc address)

    more : ltb_ℤ (pos (length pre)) (pos (length buf)) ≡ true
    more = ground (
      arith,
      length-append pre (x ++ encode_all magic ms),
      length-append x (encode_all magic ms),
      encode-length magic m,
    )

-- The messages that a broker has stored one after the other are decoded as they were, in order and each
-- into a new object; one round more than there are messages is enough. Each has numbers in the
-- ranges of their fields, hosts of four bytes, a body that is not compressed, a topic of less than 128
-- bytes and properties that can be read back.
pub decodes-encode_all :
    (decompress : Bytes → Option Bytes) (magic : ℕ) (ms : List MessageExt) (fuel address : ℕ)
    → AllStorable ms
    → length ms < fuel
    → decodes fuel decompress (encode_all magic ms) address ≡ decoded (placed address ms)
unfolding decodes
decodes-encode_all decompress magic ms fuel address s f =
    decodes_from-encode_all decompress magic ms fuel [] address s f
