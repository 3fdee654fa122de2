-- ===== src/Transport/TcpRemotingClient/Table/Expiry.antt =====
-- What HandleTimerEvent does to the table.
use test.Prelude.{
  ℕ, ◌≡◌, ◌≢◌, refl, sym, ap, ◌∙◌, arith, false, none, some, List, [], ◌∷◌, Bool-cases, inl, inr,
}
use test.Prelude.Int.{ℤ}
use test.SortedMap.{Map, lookup, IsOrdered}
use test.SortedMap.Keys.{ℤ_order}
use test.SortedMap.Laws.{
  lookup-erase_self, lookup-erase_ne, found-erased, lookup-rest, found-entry, found-other,
  lookup-first_entry,
}
use test.Transport.TcpRemotingClient.{ResponseFuture, Client, expire, is_timeout}
use test.Transport.TcpRemotingClient.Table.{Sound, Waits}
use test.Transport.TcpRemotingClient.Table.Settled.{settled, Kept}

-- The entries are those of the table.
abbrev Listed : Map ℤ ℕ → Client → Type 0
Listed entries c =
    (number : ℤ) (a : ℕ) → lookup number entries ≡ some a → lookup number c.response_table ≡ some a

-- What is in the table afterwards was there before, with the same object; and of the entries visited
-- none that has timed out.
abbrev pub Swept : ℤ → Map ℤ ℕ → Client → Client → Type 0
Swept now entries c d =
    ((number : ℤ) (a : ℕ)
      → lookup number d.response_table ≡ some a
      → (lookup number c.response_table ≡ some a) × (d.objects a ≡ c.objects a))
    × ((number : ℤ) (a : ℕ) (f : ResponseFuture)
        → lookup number entries ≡ some a
        → lookup number d.response_table ≡ some a
        → d.objects a ≡ some f
        → is_timeout now f ≡ false)

some_eq : (f g : ResponseFuture) → some f ≡ some g → f ≡ g
some_eq f g e = cc e

pub expire-Swept :
    (now : ℤ) (entries : Map ℤ ℕ) (begun : List ℕ) (c : Client)
    → Sound begun c
    → IsOrdered entries
    → Listed entries c
    → (d : Client) × (expire now entries c ≡ some d)
      × Sound begun d
      × Swept now entries c d
      × Kept c d
      × (d.work ≡ c.work)
unfolding expire lookup
expire-Swept now [] begun c s o l =
    (c, refl, s, ((λ n a h. (h, refl)), λ n a f h. cc h), (λ b g e. (g, e, refl)), refl)
expire-Swept now ((number, a) ∷ entries) begun c s o l = elim (Bool-cases (is_timeout now w.0)) [
  | inl t ↦
      let x = settled begun c number a none s listed in
      let gone : lookup number x.0.response_table ≡ none =
        ap (lookup number) x.3 ∙ lookup-erase_self number c.response_table s.table_IsOrdered in
      let y = expire-Swept now entries begun x.0 x.2 o.1 (λ n b h.
        ap (lookup n) x.3
        ∙ lookup-erase_ne number n c.response_table (found-other number n a b entries o h)
        ∙ inside n b h) in
      (
        y.0,
        ground (arith, w.1, t, x.1, y.1),
        y.2,
        (
          (λ n b h.
              let k = y.3.0 n b h in
              let e =
                found-erased number n b c.response_table s.table_IsOrdered
                  (ap (lookup n) (sym x.3) ∙ k.0) in
              (e.1, k.1 ∙ x.4 b (apart n b e.1 e.0))),
          λ n b f h k g. elim (found-entry number n a b entries h) [
            | inl i ↦ absurd (ground (arith, gone, i.0, (y.3.0 n b k).0))
            | inr i ↦ y.3.1 n b f i k g
          ],
        ),
        (λ b g e. let u = y.4 b g e in let v = x.5 b u.0 u.1 in (v.0, v.1, u.2 ∙ v.2)),
        y.5 ∙ x.6,
      )
  | inr t ↦
      let y = expire-Swept now entries begun c s o.1 inside in
      (
        y.0,
        ground (arith, w.1, t, y.1),
        y.2,
        (
          y.3.0,
          λ n b f h k g. elim (found-entry number n a b entries h) [
            | inl i ↦
                let same : some f ≡ some w.0 = sym g ∙ (y.3.0 n b k).1 ∙ ap c.objects i.1 ∙ w.1 in
                ground (arith, same, t)
            | inr i ↦ y.3.1 n b f i k g
          ],
        ),
        y.4,
        y.5,
      )
]
  where
    listed : lookup number c.response_table ≡ some a
    listed = l number a (lookup-first_entry number a entries)

    w : Waits c number a
    w = s.entry number a listed

    inside : Listed entries c
    inside n b h = l n b (lookup-rest number n a entries (found-other number n a b entries o h) ∙ h)

    apart : (n : ℤ) (b : ℕ) → lookup n c.response_table ≡ some b → n ≢ number → b ≢ a
    apart n b h e i =
        let v = s.entry n b h in
        e (sym v.2 ∙ ap (λ z. z.opaque) (some_eq v.0 w.0 (sym v.1 ∙ ap c.objects i ∙ w.1)) ∙ w.2)
