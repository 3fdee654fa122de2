-- ===== src/Message/Decoder/Parts.antt =====
-- The parts of a stored message are read back one by one.
use test.Prelude.{
  ℕ, zero, suc, ◌+◌, ◌^◌, ◌<◌, ◌≤◌, ◌≡◌, refl, sym, ap, ◌∙◌, subst, arith, Bytes, true, false,
  Option, List, [], ◌∷◌, ◌++◌, length, take, drop, length-append,
}
use test.Prelude.Int.{ℤ, pos, pos-add}
use test.Prelude.Words.{bytes_2, number_of, short_of_word}
use test.Message.MessageExt.{MessageExt}
use test.Message.MessageId.{create_message_id}
use test.Message.Properties.{put_properties, split, string_to_message_properties}
use test.Message.Decoder.{
  value, Reader, until_nul, char_of_byte, is_compressed, decode_body, decode_topic,
  decode_properties, decode_rest,
}
use test.Message.Decoder.Encode.{NoNul}
use test.Message.Decoder.Header.{Reads}

take-whole : (b post : Bytes) → take (length b) (b ++ post) ≡ b
take-whole [] post = refl
take-whole (c ∷ b) post = ap (λ l. c ∷ l) (take-whole b post)

drop-whole : (a b : Bytes) → drop (length a) (a ++ b) ≡ b
drop-whole [] b = refl
drop-whole (c ∷ a) b = drop-whole a b

until_nul-NoNul : (text : Bytes) → NoNul text → until_nul text ≡ text
until_nul-NoNul [] h = refl
until_nul-NoNul (zero ∷ text) h = absurd (h.0 refl)
until_nul-NoNul (suc c ∷ text) h = ap (λ l. suc c ∷ l) (until_nul-NoNul text h.1)

module _ (r : Reader) (x : Bytes) (reads : Reads r x) where
  pub read_middle :
      (pre mid post : Bytes) (k n : ℕ)
      → x ≡ pre ++ (mid ++ post)
      → length pre ≡ k
      → length mid ≡ n
      → r n (pos k) ≡ value mid
  read_middle pre mid post k n e lk ln =
      reads n k (subst (λ y. k + n ≤ length y) (sym e) fits) ∙ ap value (slice lk ln)
    where
      fits : k + n ≤ length (pre ++ (mid ++ post))
      fits = omega (arith, length-append pre (mid ++ post), length-append mid post, lk, ln)

      here : take (length mid) (drop (length pre) x) ≡ mid
      here =
          ap (λ y. take (length mid) (drop (length pre) y)) e
          ∙ ap (take (length mid)) (drop-whole pre (mid ++ post))
          ∙ take-whole mid post

      slice : length pre ≡ k → length mid ≡ n → take n (drop k x) ≡ mid
      slice p q =
          subst (λ j. take n (drop j x) ≡ mid) p
            (subst (λ j. take j (drop (length pre) x) ≡ mid) q here)

-- The rest of a message, from what is read at its places.
pub decode_rest-reads :
    (decompress : Bytes → Option Bytes) (r : Reader) (m : MessageExt) (n t p : ℕ)
    (body topic : Bytes) (properties : List (Bytes × Bytes))
    → decode_body decompress true r m.sys_flag (pos n) ≡ value body
    → r 1 (pos (88 + n)) ≡ value (t ∷ [])
    → decode_topic r (pos t) (pos (88 + n + 1)) ≡ value topic
    → r 2 (pos (88 + n + 1 + t)) ≡ value (bytes_2 p)
    → decode_properties r (pos p) (pos (88 + n + 1 + t + 2)) ≡ value properties
    → t < 128
    → p < 2 ^ 15
    → decode_rest decompress true r m (pos n)
      ≡ value (
        record m {
          body = body;
          topic = topic;
          properties = properties;
          msg_id = create_message_id m.store_host m.commit_log_offset;
        },
        pos (88 + n + 1 + t + 2 + p),
      )
unfolding decode_rest
decode_rest-reads decompress r m n t p body topic properties read_body read_byte read_topic
      read_length read_text small short =
    rw
      (
        read_body,
        pos-add 88 n,
        read_byte,
        length_of_byte,
        pos-add (88 + n) 1,
        read_topic,
        pos-add (88 + n + 1) t,
        read_length,
        length_of_bytes,
        pos-add (88 + n + 1 + t) 2,
        read_text,
        pos-add (88 + n + 1 + t + 2) p,
      )
      refl
  where
    length_of_byte : char_of_byte (number_of (t ∷ [])) ≡ pos t
    length_of_byte = ground arith

    length_of_bytes : short_of_word (number_of (bytes_2 p)) ≡ pos p
    length_of_bytes = ground arith

pub decode_body-plain :
    (decompress : Bytes → Option Bytes) (r : Reader) (flag : ℤ) (body : Bytes)
    → is_compressed flag ≡ false
    → r (length body) (pos 88) ≡ value body
    → decode_body decompress true r flag (pos (length body)) ≡ value body
unfolding decode_body
decode_body-plain decompress r flag [] plain read = refl
decode_body-plain decompress r flag (c ∷ body) plain read = rw (read, plain) refl

pub decode_topic-NoNul :
    (r : Reader) (topic : Bytes) (place : ℤ)
    → NoNul topic
    → r (length topic) place ≡ value topic
    → decode_topic r (pos (length topic)) place ≡ value topic
unfolding decode_topic
decode_topic-NoNul r topic place h read = rw (read, until_nul-NoNul topic h) refl

pub decode_properties-text :
    (r : Reader) (text : Bytes) (place : ℤ) (properties : List (Bytes × Bytes))
    → NoNul text
    → r (length text) place ≡ value text
    → string_to_message_properties [] text ≡ properties
    → decode_properties r (pos (length text)) place ≡ value properties
unfolding decode_properties
decode_properties-text r [] place properties h read e = ap value (empty ∙ e)
  where
    empty : [] ≡ string_to_message_properties [] []
    empty = unfold string_to_message_properties put_properties split in refl
decode_properties-text r (c ∷ text) place properties h read e =
    rw (read, until_nul-NoNul (c ∷ text) h) (ap value e)
