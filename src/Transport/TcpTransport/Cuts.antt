-- ===== src/Transport/TcpTransport/Cuts.antt =====
-- Where a piece of the bytes received ends within a stream of messages.
use test.Prelude.{
  ℕ, ◌+◌, ◌^◌, ◌-◌, ◌≤◌, ◌<◌, ◌≡◌, refl, sym, ap, ◌∙◌, arith, Bytes, List, [], ◌∷◌, ◌++◌, length,
  ltb, length-append,
}
use test.Prelude.{inl, inr, Bool-cases}
use test.Prelude.Int.{pos}
use test.Transport.TcpTransport.{get_msg_size}
use test.Transport.TcpTransport.Frames.{frame, frames_of, get_msg_size-frame, AllFit, IsIncomplete}

-- A front part that is as long as `a` starts with it.
cancel :
    (a b x y : Bytes)
    → x ++ y ≡ a ++ b
    → length a ≤ length x
    → (z : Bytes) × (x ≡ a ++ z) × (z ++ y ≡ b)
cancel [] b x y e h = (x, refl, e)
cancel (c ∷ a) b [] y e h = absurd (omega (arith, h))
cancel (c ∷ a) b (d ∷ x) y e h =
    let r = cancel a b x y (tail_eq e) (omega (arith, h)) in (r.0, cc (head_eq e, r.1), r.2)
  where
    tail_eq : d ∷ (x ++ y) ≡ c ∷ (a ++ b) → x ++ y ≡ a ++ b
    tail_eq i = cc i

    head_eq : d ∷ (x ++ y) ≡ c ∷ (a ++ b) → d ≡ c
    head_eq i = cc i

size_of_front : (x y : Bytes) → 4 < length x → get_msg_size (x ++ y) ≡ get_msg_size x
unfolding get_msg_size
size_of_front (a ∷ b ∷ c ∷ d ∷ x) y h = refl
size_of_front [] y h = absurd (omega (arith, h))
size_of_front (a ∷ []) y h = absurd (omega (arith, h))
size_of_front (a ∷ b ∷ []) y h = absurd (omega (arith, h))
size_of_front (a ∷ b ∷ c ∷ []) y h = absurd (omega (arith, h))

-- A front part of bytes whose length field is greater than their number is not a message.
short-IsIncomplete :
    (top : ℕ) (x y : Bytes) (n : ℕ)
    → get_msg_size (x ++ y) ≡ pos n
    → length x < n
    → n ≤ top
    → IsIncomplete top x
short-IsIncomplete top x y n size short l = elim (Bool-cases (ltb 4 (length x))) [
  | inl e ↦ inr (n, sym (size_of_front x y (ground (arith, e))) ∙ size, short, l)
  | inr e ↦ inl (ground (arith, e))
]

front-IsIncomplete :
    (top : ℕ) (x y rest : Bytes) → x ++ y ≡ rest → IsIncomplete top rest → IsIncomplete top x
front-IsIncomplete top x y rest e (inl few) =
    inl (omega (arith, ap length e, length-append x y, few))
front-IsIncomplete top x y rest e (inr (n, size, short, l)) =
    short-IsIncomplete top x y n (ap get_msg_size e ∙ size)
      (omega (arith, ap length e, length-append x y, short)) l

frame-IsIncomplete :
    (top : ℕ) (x y payload more : Bytes)
    → x ++ y ≡ frame payload ++ more
    → length payload < 2 ^ 31 - 4
    → length x < 4 + length payload
    → 4 + length payload ≤ top
    → IsIncomplete top x
frame-IsIncomplete top x y payload more e l h fits =
    short-IsIncomplete top x y (4 + length payload)
      (ap get_msg_size e ∙ get_msg_size-frame payload more l) h fits

-- What has come of a stream of messages: some of them whole, and a part of the next that is not.
abbrev pub CutAt : ℕ → Bytes → Bytes → List Bytes → Bytes → Type 0
CutAt top x y payloads rest =
    (done : List Bytes) × (left : List Bytes) × (part : Bytes) × (payloads ≡ done ++ left)
    × (x ≡ frames_of done part)
    × (part ++ y ≡ frames_of left rest)
    × IsIncomplete top part

pub AllFit-append_left : (top : ℕ) (a b : List Bytes) → AllFit top (a ++ b) → AllFit top a
AllFit-append_left top [] b h = tt
AllFit-append_left top (p ∷ a) b h = (h.0, AllFit-append_left top a b h.1)

pub AllFit-append_right : (top : ℕ) (a b : List Bytes) → AllFit top (a ++ b) → AllFit top b
AllFit-append_right top [] b h = h
AllFit-append_right top (p ∷ a) b h = AllFit-append_right top a b h.1

pub cut_at :
    (top : ℕ) (x y : Bytes) (payloads : List Bytes) (rest : Bytes)
    → top < 2 ^ 31
    → AllFit top payloads
    → IsIncomplete top rest
    → x ++ y ≡ frames_of payloads rest
    → CutAt top x y payloads rest
cut_at top x y [] rest t a i e = ([], [], x, refl, refl, e, front-IsIncomplete top x y rest e i)
cut_at top x y (payload ∷ payloads) rest t a i e =
    elim (Bool-cases (ltb (length x) (4 + length payload))) [
      | inl short ↦ (
        [],
        payload ∷ payloads,
        x,
        refl,
        refl,
        e,
        frame-IsIncomplete top x y payload (frames_of payloads rest) e (omega (arith, a.0, t))
            (ground (arith, short)) a.0.1,
      )
      | inr whole ↦
          let c = cancel (frame payload) (frames_of payloads rest) x y e (ground (arith, whole)) in
          let r = cut_at top c.0 y payloads rest t a.1 i c.2 in
          (
            payload ∷ r.0,
            r.1,
            r.2,
            ap (λ l. payload ∷ l) r.3,
            c.1 ∙ ap (λ l. frame payload ++ l) r.4,
            r.5,
            r.6,
          )
    ]
