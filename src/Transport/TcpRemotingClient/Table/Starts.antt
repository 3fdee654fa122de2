-- ===== src/Transport/TcpRemotingClient/Table/Starts.antt =====
-- The first state, and the start of a request.
use test.Prelude.{
  ℕ, suc, ◌≡◌, refl, sym, ap, ◌∙◌, subst, arith, Bool, Option, none, some, List, [], ◌∷◌,
  Option-cases, inl, inr,
}
use test.Prelude.Int.{ℤ}
use test.SortedMap.{Map, lookup, insert}
use test.SortedMap.Keys.{ℤ_order}
use test.SortedMap.Laws.{IsOrdered-insert, lookup-insert_self, lookup-insert_ne, found-inserted}
use test.Transport.TcpRemotingClient.{
  RemotingCommand, ResponseFuture, Client, store, new_future, begin,
}
use test.Transport.TcpRemotingClient.Table.{Sound, Unused, new_client}
use test.Transport.TcpRemotingClient.Table.Settled.{found-stored}

pub Sound-new_client : (processors : Map ℤ ℕ) → Sound [] (new_client processors)
unfolding lookup
Sound-new_client processors = record {
  table_IsOrdered = tt;
  entry = λ number a h. cc h;
  below = λ a f h. cc h;
  listed = λ a k f h. cc h;
  held = λ a cmd h. cc h;
  quiet = λ a h. refl;
  alone = λ a b f g h. cc h;
  answered = λ a. ground arith;
  begun_below = λ a h. refl;
  begun_once = λ a. omega arith;
}

-- The number is in no entry, either.
unlisted :
    (begun : List ℕ) (c : Client) (number : ℤ)
    → Sound begun c
    → Unused number c
    → lookup number c.response_table ≡ none
unlisted begun c number s u = elim (Option-cases (lookup number c.response_table)) [
  | inl e ↦ e
  | inr e ↦ let w = s.entry number e.0 e.1 in absurd (u e.0 w.0 w.1 w.2)
]

abbrev pub begun_after : Option ℕ → ℕ → List ℕ → List ℕ
begun_after none a begun = begun
begun_after (some k) a begun = a ∷ begun

pub Sound-begin :
    (begun : List ℕ) (c : Client) (request : RemotingCommand) (timeout : ℤ) (k : Option ℕ)
    (block : Bool) (now : ℤ)
    → Sound begun c
    → Unused request.opaque c
    → Sound (begun_after k c.next begun) (begin request timeout k block now c)
unfolding begin
Sound-begin begun c request timeout k block now s u =
    subst
      (λ t.
        Sound (begun_after k c.next begun)
          (record c { objects = objects; next = suc c.next; response_table = t }))
      (ground (arith, unlisted begun c request.opaque s u))
      (record {
        table_IsOrdered = IsOrdered-insert request.opaque c.next c.response_table s.table_IsOrdered;
        entry = λ number b h.
            elim (found-inserted request.opaque number c.next b c.response_table h) [
              | inl e ↦ (
                f,
                ground (arith, e.1),
                sym e.0,
                refl,
                refl,
                ap c.work e.1 ∙ s.quiet c.next (omega arith),
              )
              | inr e ↦
                  let w = s.entry number b e.1 in
                  (w.0, ground (arith, w.1, s.below b w.0 w.1), w.2, w.3, w.4, w.5)
            ];
        held = λ b cmd h.
            let x = s.held b cmd h in (x.0, ground (arith, x.1, s.below b x.0 x.1), x.2, x.3);
        quiet = λ b h. s.quiet b (omega (arith, h));
        below = λ b g h. ground (arith, h, s.below b g);
        listed = λ b j g h e. elim (found-stored c.next b f g c.objects h) [
          | inl i ↦ inl (
              ap (λ x. lookup x.opaque (insert request.opaque c.next c.response_table)) i.1
              ∙ lookup-insert_self request.opaque c.next c.response_table
              ∙ ap some (sym i.0))
          | inr i ↦ elim (s.listed b j g i.1 e) [
            | inl v ↦
                inl
                  (lookup-insert_ne request.opaque g.opaque c.next c.response_table (u b g i.1) ∙ v)
            | inr v ↦ inr v
          ]
        ];
        alone = λ b e x y h l m. elim (found-stored c.next b f x c.objects h) [
          | inl i ↦ elim (found-stored c.next e f y c.objects l) [
            | inl j ↦ i.0 ∙ sym j.0
            | inr j ↦ absurd (u e y j.1 (sym m ∙ ap (λ z. z.opaque) i.1))
          ]
          | inr i ↦ elim (found-stored c.next e f y c.objects l) [
            | inl j ↦ absurd (u b x i.1 (m ∙ ap (λ z. z.opaque) j.1))
            | inr j ↦ s.alone b e x y i.1 j.1 m
          ]
        ];
        answered = λ b. elim (Option-cases k) [
          | inl i ↦ ground (arith, s.answered b, free, i)
          | inr i ↦ ground (arith, s.answered b, s.begun_below c.next, free, i.1)
        ];
        begun_below = λ b h. elim (Option-cases k) [
          | inl i ↦ ground (arith, s.begun_below b, h, i)
          | inr i ↦ ground (arith, s.begun_below b, h, i.1)
        ];
        begun_once = λ b. elim (Option-cases k) [
          | inl i ↦ ground (arith, s.begun_once b, i)
          | inr i ↦ ground (arith, s.begun_below b, s.begun_once b, i.1)
        ];
      })
  where
    f : ResponseFuture
    f = new_future request timeout k block now

    objects : ℕ → Option ResponseFuture
    objects = store c.next (some f) c.objects

    free : c.objects c.next ≡ none
    free = elim (Option-cases (c.objects c.next)) [
      | inl e ↦ e
      | inr e ↦ absurd (omega (arith, s.below c.next e.0 e.1))
    ]
