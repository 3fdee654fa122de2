-- ===== src/Transport/TcpTransport/Chunks.antt =====
-- The bytes come in pieces, whose ends need not be the ends of messages.
use test.Prelude.{
  ℕ, ◌+◌, ◌-◌, ◌^◌, ◌<◌, ◌≤◌, ◌≡◌, refl, sym, ap, ◌∙◌, subst, arith, Bytes, List, [], ◌∷◌, ◌++◌,
  length, length-append, map, append_assoc, append-nil, take, drop, take-append-drop, length-take,
}
use test.Prelude.{inl, inr}
use test.Prelude.Int.{pos}
use test.Transport.TcpTransport.{
  TcpTransport, get_msg_size, Processed, processed, throws_length_error, loses_bytes, out_of_fuel,
  with_message, process_data, recv_data, received_size,
}
use test.Transport.TcpTransport.Frames.{
  frame, frames_of, get_msg_size-frame, AllFit, IsIncomplete, IsTight, CutsOff, process_data-frames,
}
use test.Transport.TcpTransport.Cuts.{CutAt, cut_at, AllFit-append_left, AllFit-append_right}

abbrev with_messages : List Bytes → Processed → Processed
with_messages [] p = p
with_messages (m ∷ ms) p = with_message m (with_messages ms p)

abbrev after : Processed → Bytes → (TcpTransport → Processed × Bytes) → Processed × Bytes
after (processed ms t) stream later = let r = later t in (with_messages ms r.0, r.1)
after throws_length_error stream later = (throws_length_error, stream)
after loses_bytes stream later = (loses_bytes, stream)
after out_of_fuel stream later = (out_of_fuel, stream)

-- RecvData time after time, with the count that the socket gives each time: all the messages, the state
-- at the end and what of the stream has not been received.
unfoldable pub recv_all : ℕ → List ℕ → Bytes → TcpTransport → Processed × Bytes
recv_all fuel [] stream t = (processed [] t, stream)
recv_all fuel (count ∷ counts) stream t =
    let left = drop (received_size count t) stream in
    after (recv_data fuel count stream t) left (recv_all fuel counts left)

abbrev pub AllPositive : List ℕ → Type 0
AllPositive [] = Unit {0}
AllPositive (count ∷ counts) = (1 ≤ count) × AllPositive counts

with_messages-processed :
    (ms ns : List Bytes) (t : TcpTransport)
    → with_messages ms (processed ns t) ≡ processed (ms ++ ns) t
with_messages-processed [] ns t = refl
with_messages-processed (m ∷ ms) ns t = ap (with_message m) (with_messages-processed ms ns t)

map-append : (a b : List Bytes) → map frame (a ++ b) ≡ map frame a ++ map frame b
map-append [] b = refl
map-append (p ∷ a) b = ap (λ l. frame p ∷ l) (map-append a b)

nothing_left :
    (buf : Bytes) (payloads : List Bytes) (rest : Bytes) (top : ℕ)
    → top < 2 ^ 31
    → AllFit top payloads
    → IsIncomplete top buf
    → buf ≡ frames_of payloads rest
    → payloads ≡ []
nothing_left buf [] rest top b a i e = refl
nothing_left buf (p ∷ ps) rest top b a (inl few) e =
    absurd (omega (arith, few, ap length e, a.0, length-append p (frames_of ps rest)))
nothing_left buf (p ∷ ps) rest top b a (inr (n, size, short, l)) e =
    absurd (ground (arith, size_eq, short, ap length e, length-append p (frames_of ps rest)))
  where
    size_eq : pos n ≡ pos (4 + length p)
    size_eq =
        sym size
        ∙ ap get_msg_size e
        ∙ get_msg_size-frame p (frames_of ps rest) (omega (arith, a.0, b))

-- Whole messages have been cut off, and the rest of the stream is in the buffer and in the socket.
abbrev pub Receives :
    ℕ → List Bytes → Bytes → List ℕ → Bytes → TcpTransport → Processed × Bytes → Type 0
Receives top payloads rest counts stream t r =
    (done : List Bytes) × (left : List Bytes) × (t' : TcpTransport) × (payloads ≡ done ++ left)
    × (r.0 ≡ processed (map frame done) t')
    × (t'.recv_buf ++ r.1 ≡ frames_of left rest)
    × IsIncomplete top t'.recv_buf
    × (length r.1 ≤ length stream - length counts)

room_left : (top : ℕ) (buf : Bytes) → 4 < top → IsIncomplete top buf → length buf < top
room_left top buf h (inl few) = omega (arith, few, h)
room_left top buf h (inr (n, size, short, l)) = omega (arith, short, l)

length-drop_lem : (n : ℕ) (l : Bytes) → length (drop n l) ≡ length l - n
length-drop_lem n l =
    omega (
      arith,
      ap length (take-append-drop n l),
      length-append (take n l) (drop n l),
      length-take n l,
    )

recv_all-Receives :
    (counts : List ℕ) (payloads : List Bytes) (stream rest : Bytes) (fuel : ℕ) (t : TcpTransport)
    → t.recv_buf ++ stream ≡ frames_of payloads rest
    → IsIncomplete t.shrink_max t.recv_buf
    → AllFit t.shrink_max payloads
    → IsTight t
    → IsIncomplete t.shrink_max rest
    → length payloads < fuel
    → AllPositive counts
    → Receives t.shrink_max payloads rest counts stream t (recv_all fuel counts stream t)
unfolding recv_all recv_data
recv_all-Receives [] payloads stream rest fuel t e b a r i f c =
    ([], payloads, t, refl, refl, e, b, omega arith)
recv_all-Receives (count ∷ counts) payloads stream rest fuel t e b a r i f c =
    let q =
      recv_all-Receives counts cut.1 left rest fuel p.0 (ap (λ l. l ++ left) p.2 ∙ cut.5)
        (subst (λ k. IsIncomplete k p.0.recv_buf) (sym p.3)
          (subst (λ l. IsIncomplete top l) (sym p.2) cut.6))
        (subst (λ k. AllFit k cut.1) (sym p.3) (AllFit-append_right top cut.0 cut.1 fit))
        (p.4 ∙ r.0 ∙ sym p.3, omega (arith, p.3, r.1), omega (arith, p.3, r.2))
        (subst (λ k. IsIncomplete k rest) (sym p.3) i) (omega (arith, f, total)) c.1 in
    (
      cut.0 ++ q.0,
      q.1,
      q.2,
      cut.3 ∙ ap (λ l. cut.0 ++ l) q.3 ∙ sym (append_assoc cut.0 q.0 q.1),
      ap (λ z. (after z left (recv_all fuel counts left)).0) p.1
          ∙ ap (with_messages (map frame cut.0)) q.4
          ∙ with_messages-processed (map frame cut.0) (map frame q.0) q.2
          ∙ ap (λ l. processed l q.2) (sym (map-append cut.0 q.0)),
      ap (λ z. q.2.recv_buf ++ (after z left (recv_all fuel counts left)).1) p.1 ∙ q.5,
      subst (λ k. IsIncomplete k q.2.recv_buf) p.3 q.6,
      omega (
        arith,
        ap (λ z. length (after z left (recv_all fuel counts left)).1) p.1,
        q.7,
        length-drop_lem n stream,
        some_received,
      ),
    )
  where
    top : ℕ
    top = t.shrink_max

    n : ℕ
    n = received_size count t

    left : Bytes
    left = drop n stream

    some_received : 1 ≤ n
    some_received = ground (arith, c.0, r.0, room_left t.shrink_max t.recv_buf r.1 b)

    t₁ : TcpTransport
    t₁ = record t { recv_buf = t.recv_buf ++ take n stream }

    held : length t₁.recv_buf ≤ t.recv_buf_size
    held = ground (
      arith,
      length-append t.recv_buf (take n stream),
      length-take n stream,
      r.0,
      room_left t.shrink_max t.recv_buf r.1 b,
    )

    cut : CutAt top t₁.recv_buf left payloads rest
    cut = cut_at top t₁.recv_buf left payloads rest r.2 a i (
        append_assoc t.recv_buf (take n stream) left
        ∙ ap (λ l. t.recv_buf ++ l) (take-append-drop n stream)
        ∙ e)

    fit : AllFit top (cut.0 ++ cut.1)
    fit = subst (AllFit top) cut.3 a

    total : length payloads ≡ length cut.0 + length cut.1
    total = ap length cut.3 ∙ length-append cut.0 cut.1

    p : CutsOff cut.0 cut.2 t₁ (process_data fuel t₁)
    p =
        process_data-frames cut.0 cut.2 fuel t₁ cut.4 held (AllFit-append_left top cut.0 cut.1 fit)
          r cut.6 (omega (arith, f, total))

-- A peer sends some messages and a part of one more, and RecvData is called as often as there are bytes,
-- or more often. Whatever the count is that the socket gives each time, but not 0, the messages that are cut
-- off are these, in order, nothing is left in the socket, and the bytes of the part are left in the buffer.
-- The buffer holds no whole message before and has the size of m_shrinkMax, the messages, also the last, are
-- not empty and no longer than that, and each call of ProcessData has one more round than there are messages.
pub recv_all-frames :
    (counts : List ℕ) (payloads : List Bytes) (stream rest : Bytes) (fuel : ℕ) (t : TcpTransport)
    → t.recv_buf ++ stream ≡ frames_of payloads rest
    → IsIncomplete t.shrink_max t.recv_buf
    → AllFit t.shrink_max payloads
    → IsTight t
    → IsIncomplete t.shrink_max rest
    → length payloads < fuel
    → AllPositive counts
    → length stream ≤ length counts
    → let r = recv_all fuel counts stream t in
      (t' : TcpTransport) × (r.0 ≡ processed (map frame payloads) t')
      × (r.1 ≡ [])
      × (t'.recv_buf ≡ rest)
recv_all-frames counts payloads stream rest fuel t e b a r i f c enough =
    let g = recv_all-Receives counts payloads stream rest fuel t e b a r i f c in
    let empty = no_bytes (recv_all fuel counts stream t).1 (omega (arith, g.7, enough)) in
    let held : g.2.recv_buf ≡ frames_of g.1 rest =
      sym (append-nil g.2.recv_buf) ∙ ap (λ l. g.2.recv_buf ++ l) (sym empty) ∙ g.5 in
    let none =
      nothing_left g.2.recv_buf g.1 rest t.shrink_max r.2
        (AllFit-append_right t.shrink_max g.0 g.1 (subst (AllFit t.shrink_max) g.3 a)) g.6 held in
    (
      g.2,
      g.4
          ∙ ap (λ l. processed (map frame l) g.2)
              (sym (append-nil g.0) ∙ ap (λ l. g.0 ++ l) (sym none) ∙ sym g.3),
      empty,
      held ∙ ap (λ l. frames_of l rest) none,
    )
  where
    no_bytes : (l : Bytes) → length l ≤ 0 → l ≡ []
    no_bytes [] h = refl
    no_bytes (x ∷ l) h = absurd (omega (arith, h))
