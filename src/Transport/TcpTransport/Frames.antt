-- ===== src/Transport/TcpTransport/Frames.antt =====
-- That ProcessData cuts off exactly the messages that have come.
use test.Prelude.{
  ℕ, zero, suc, ◌+◌, ◌*◌, ◌/◌, ◌%◌, ◌^◌, ◌-◌, ◌≤◌, ◌<◌, ◌≡◌, refl, sym, ap, ◌∙◌, subst, arith,
  Bytes, Bool, true, false, List, [], ◌∷◌, ◌++◌, length, take, drop, ltb, leb, if◌then◌else◌,
  length-append, map,
}
use test.Prelude.{◌⊎◌, inl, inr}
use test.Prelude.Int.{pos}
use test.Prelude.Words.{int_of_word}
use test.Transport.TcpTransport.{
  TcpTransport, get_msg_size, try_shrink, Processed, processed, with_message, cut_message,
  process_data,
}

-- A payload with its length in front.
abbrev pub frame : Bytes → Bytes
frame payload =
    let n = length payload in
    n / 2 ^ 24 ∷ n / 2 ^ 16 % 2 ^ 8 ∷ n / 2 ^ 8 % 2 ^ 8 ∷ n % 2 ^ 8 ∷ payload

size_of_word :
    (n : ℕ)
    → n < 2 ^ 31 - 4
    → int_of_word (
        (n / 2 ^ 24 * 2 ^ 24
          + n / 2 ^ 16 % 2 ^ 8 * 2 ^ 16
          + n / 2 ^ 8 % 2 ^ 8 * 2 ^ 8
          + n % 2 ^ 8
          + 4)
        % 2 ^ 32)
      ≡ pos (4 + n)
size_of_word n h = ground arith

pub get_msg_size-frame :
    (payload rest : Bytes)
    → length payload < 2 ^ 31 - 4
    → get_msg_size (frame payload ++ rest) ≡ pos (4 + length payload)
unfolding get_msg_size
get_msg_size-frame payload rest h = size_of_word (length payload) h

take-prefix : (a b : Bytes) → take (length a) (a ++ b) ≡ a
take-prefix [] b = refl
take-prefix (x ∷ a) b = ap (λ l. x ∷ l) (take-prefix a b)

drop-prefix : (a b : Bytes) → drop (length a) (a ++ b) ≡ b
drop-prefix [] b = refl
drop-prefix (x ∷ a) b = drop-prefix a b

-- The bytes of the messages with these payloads, and some more.
abbrev pub frames_of : List Bytes → Bytes → Bytes
frames_of [] rest = rest
frames_of (payload ∷ payloads) rest = frame payload ++ frames_of payloads rest

-- The payloads are not empty, and their messages are no longer than `top`.
abbrev pub AllFit : ℕ → List Bytes → Type 0
AllFit top [] = Unit {0}
AllFit top (payload ∷ payloads) =
    ((1 ≤ length payload) × (4 + length payload ≤ top)) × AllFit top payloads

-- Bytes that are not yet a message: too few for a length and a byte, or fewer than their length says,
-- which is `top` at most.
abbrev pub IsIncomplete : ℕ → Bytes → Type 0
IsIncomplete top rest =
    (length rest ≤ 4) ⊎ ((n : ℕ) × (get_msg_size rest ≡ pos n) × (length rest < n) × (n ≤ top))

-- The buffer has the size of m_shrinkMax.
abbrev pub IsTight : TcpTransport → Type 0
IsTight t = (t.recv_buf_size ≡ t.shrink_max) × (4 < t.shrink_max) × (t.shrink_max < 2 ^ 31)

-- The messages are cut off, the rest is left, and the buffer has not been resized.
abbrev pub CutsOff : List Bytes → Bytes → TcpTransport → Processed → Type 0
CutsOff payloads rest t p =
    (t' : TcpTransport) × (p ≡ processed (map frame payloads) t')
    × (t'.recv_buf ≡ rest)
    × (t'.shrink_max ≡ t.shrink_max)
    × (t'.recv_buf_size ≡ t.recv_buf_size)

try_shrink-tight :
    (n : ℕ) (t : TcpTransport)
    → n ≤ t.shrink_max
    → t.recv_buf_size ≡ t.shrink_max
    → let t' = try_shrink n t in
      (t'.recv_buf ≡ t.recv_buf)
      × (t'.shrink_max ≡ t.shrink_max)
      × (t'.recv_buf_size ≡ t.recv_buf_size)
unfolding try_shrink
try_shrink-tight n t h r = (ground arith, ground arith, ground arith)

-- A round with a message that the buffer has room for.
small_round :
    (n : ℕ) (t : TcpTransport) (rest : TcpTransport → Processed)
    → n ≤ t.shrink_max
    → t.recv_buf_size ≡ t.shrink_max
    → length t.recv_buf ≤ t.recv_buf_size
    → cut_message (pos n) t rest ≡ (
        if leb n (length t.recv_buf)
        then with_message
            (take n t.recv_buf)
            (rest (record (try_shrink n t) { recv_buf = drop n t.recv_buf }))
        else processed [] (try_shrink n t))
small_round n t rest h e held = rw roomy (rw kept refl)
  where
    roomy : ltb t.recv_buf_size n ≡ false
    roomy = ground arith

    kept : ltb (try_shrink n t).recv_buf_size (length t.recv_buf) ≡ false
    kept = rw (try_shrink-tight n t h e).2 (ground arith)

incomplete_round :
    (n : ℕ) (t : TcpTransport) (rest : TcpTransport → Processed)
    → length t.recv_buf < n
    → n ≤ t.shrink_max
    → t.recv_buf_size ≡ t.shrink_max
    → CutsOff [] t.recv_buf t (cut_message (pos n) t rest)
incomplete_round n t rest short h e =
    let s = try_shrink-tight n t h e in
    (try_shrink n t, small_round n t rest h e (omega arith) ∙ rw not_whole refl, s.0, s.1, s.2)
  where
    not_whole : leb n (length t.recv_buf) ≡ false
    not_whole = ground arith

nothing_yet :
    (fuel : ℕ) (t : TcpTransport)
    → IsIncomplete t.shrink_max t.recv_buf
    → t.recv_buf_size ≡ t.shrink_max
    → CutsOff [] t.recv_buf t (process_data (suc fuel) t)
unfolding process_data
nothing_yet fuel t (inl few) room = (
  t,
  ap
      (λ b.
        if b then cut_message (get_msg_size t.recv_buf) t (process_data fuel) else processed [] t)
      no,
  refl,
  refl,
  refl,
)
  where
    no : ltb 4 (length t.recv_buf) ≡ false
    no = ground arith
nothing_yet fuel t (inr (n, size, short, fits)) room = by_test (ltb 4 (length t.recv_buf))
  where
    by_test :
        (b : Bool)
        → CutsOff [] t.recv_buf t (
            if b
            then cut_message (get_msg_size t.recv_buf) t (process_data fuel)
            else processed [] t)
    by_test false = (t, refl, refl, refl, refl)
    by_test true =
        subst (λ z. CutsOff [] t.recv_buf t (cut_message z t (process_data fuel))) (sym size)
          (incomplete_round n t (process_data fuel) short fits room)

-- A round with a whole message at the front of the buffer.
whole_round :
    (payload more : Bytes) (t : TcpTransport) (rest : TcpTransport → Processed)
    → t.recv_buf ≡ frame payload ++ more
    → 4 + length payload ≤ t.shrink_max
    → t.recv_buf_size ≡ t.shrink_max
    → length t.recv_buf ≤ t.recv_buf_size
    → cut_message (pos (4 + length payload)) t rest
      ≡ with_message
          (frame payload)
          (rest (record (try_shrink (4 + length payload) t) { recv_buf = more }))
whole_round payload more t rest e fits tight held =
    small_round n t rest fits tight held
    ∙ ap
        (λ b.
          if b
          then with_message (take n t.recv_buf)
              (rest (record (try_shrink n t) { recv_buf = drop n t.recv_buf }))
          else processed [] (try_shrink n t))
        whole
    ∙ ap
        (λ buf.
          with_message (take n buf) (rest (record (try_shrink n t) { recv_buf = drop n buf })))
        e
    ∙ ap
        (λ m.
          with_message m
            (rest (record (try_shrink n t) { recv_buf = drop n (frame payload ++ more) })))
        front
    ∙ ap (λ d. with_message (frame payload) (rest (record (try_shrink n t) { recv_buf = d }))) back
  where
    n : ℕ
    n = 4 + length payload

    whole : leb n (length t.recv_buf) ≡ true
    whole = rw e (ground (arith, length-append payload more))

    size : length (frame payload) ≡ n
    size = omega arith

    front : take n (frame payload ++ more) ≡ frame payload
    front =
        subst (λ k. take k (frame payload ++ more) ≡ frame payload) size
          (take-prefix (frame payload) more)

    back : drop n (frame payload ++ more) ≡ more
    back =
        subst (λ k. drop k (frame payload ++ more) ≡ more) size (drop-prefix (frame payload) more)

-- What a message in front adds to what a later round cuts off.
one_more :
    (payload : Bytes) (payloads : List Bytes) (rest : Bytes) (t t₁ : TcpTransport) (p : Processed)
    → t₁.shrink_max ≡ t.shrink_max
    → t₁.recv_buf_size ≡ t.recv_buf_size
    → CutsOff payloads rest t₁ p
    → CutsOff (payload ∷ payloads) rest t (with_message (frame payload) p)
one_more payload payloads rest t t₁ p e g c =
    (c.0, ap (with_message (frame payload)) c.1, c.2, c.3 ∙ e, c.4 ∙ g)

-- One more round than there are messages cuts off exactly the messages that the buffer holds, in
-- order, and leaves the bytes of the one that is not yet whole. The messages are not empty and no
-- longer than `m_shrinkMax` (16 KB or more), which is the size of the buffer.
pub process_data-frames :
    (payloads : List Bytes) (rest : Bytes) (fuel : ℕ) (t : TcpTransport)
    → t.recv_buf ≡ frames_of payloads rest
    → length t.recv_buf ≤ t.recv_buf_size
    → AllFit t.shrink_max payloads
    → IsTight t
    → IsIncomplete t.shrink_max rest
    → length payloads < fuel
    → CutsOff payloads rest t (process_data fuel t)
unfolding process_data
process_data-frames payloads rest zero t e held a r i f = absurd (omega (arith, f))
process_data-frames [] rest (suc fuel) t e held a r i f =
    subst (λ b. CutsOff [] b t (process_data (suc fuel) t)) e
      (nothing_yet fuel t (subst (λ b. IsIncomplete t.shrink_max b) (sym e) i) r.0)
process_data-frames (payload ∷ payloads) rest (suc fuel) t e held a r i f =
    let more = frames_of payloads rest in
    let n = 4 + length payload in
    let t₁ : TcpTransport = record (try_shrink n t) { recv_buf = more } in
    let s = try_shrink-tight n t a.0.1 r.0 in
    let later =
      process_data-frames payloads rest fuel t₁ refl
        (omega (arith, s.2, held, ap length e, length-append payload more))
        (subst (λ k. AllFit k payloads) (sym s.1) a.1)
        (s.2 ∙ r.0 ∙ sym s.1, omega (arith, s.1, r.1), omega (arith, s.1, r.2))
        (subst (λ k. IsIncomplete k rest) (sym s.1) i) (omega (arith, f)) in
    subst (CutsOff (payload ∷ payloads) rest t) (sym first_round)
      (one_more payload payloads rest t t₁ _ s.1 s.2 later)
  where
    long : ltb 4 (length t.recv_buf) ≡ true
    long = rw e (ground (arith, a.0.0, length-append payload (frames_of payloads rest)))

    size : get_msg_size t.recv_buf ≡ pos (4 + length payload)
    size =
        ap get_msg_size e
        ∙ get_msg_size-frame payload (frames_of payloads rest) (omega (arith, a.0.1, r.2))

    first_round :
        process_data (suc fuel) t
        ≡ with_message (frame payload) (
            process_data fuel
              (record (try_shrink (4 + length payload) t) { recv_buf = frames_of payloads rest }))
    first_round =
        ap
          (λ b.
            if b
            then cut_message (get_msg_size t.recv_buf) t (process_data fuel)
            else processed [] t)
          long
        ∙ ap (λ z. cut_message z t (process_data fuel)) size
        ∙ whole_round payload (frames_of payloads rest) t (process_data fuel) e a.0.1 r.0 held
