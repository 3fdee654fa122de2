-- ===== src/Transport/TcpRemotingClient/Table/Steps.antt =====
-- What a thread does after the start of its request keeps what holds of the table.
use test.Prelude.{
  ℕ, ◌≡◌, refl, sym, ap, ◌∙◌, subst, arith, Bool, false, ◌==◌, Option, none, some, List, [],
  append-nil, Bool-cases, Option-cases, inl, inr,
}
use test.SortedMap.{lookup, erase}
use test.SortedMap.Keys.{ℤ_order}
use test.SortedMap.Laws.{erase-absent}
use test.Transport.TcpRemotingClient.{
  RemotingCommand, ResponseFuture, Client, store, set_send_request_ok, sync_failed, sync_done,
  delete, Work,
}
use test.Transport.TcpRemotingClient.Table.{Sound}
use test.Transport.TcpRemotingClient.Table.Settled.{found-stored, Sound-Gone, Leaves-idle}

Sound-stored :
    (begun : List ℕ) (c : Client) (a : ℕ) (f g : ResponseFuture)
    → Sound begun c
    → c.objects a ≡ some f
    → g.opaque ≡ f.opaque
    → g.callback ≡ f.callback
    → g.exec ≡ f.exec
    → g.response ≡ f.response
    → Sound begun (record c { objects = store a (some g) c.objects })
Sound-stored begun c a f g s o q k x r = record {
  table_IsOrdered = s.table_IsOrdered;
  entry = λ number b h.
      let w = s.entry number b h in
      elim (Bool-cases (b == a)) [
        | inl e ↦
            let same : w.0 ≡ f = ground (arith, w.1, o, e) in
            (
              g,
              ground (arith, e),
              ground (arith, q, same, w.2),
              ground (arith, x, same, w.3),
              ground (arith, r, same, w.4),
              w.5,
            )
        | inr e ↦ (w.0, ground (arith, w.1, e), w.2, w.3, w.4, w.5)
      ];
  held = λ b cmd h.
      let w = s.held b cmd h in
      elim (Bool-cases (b == a)) [
        | inl e ↦
            let same : w.0 ≡ f = ground (arith, w.1, o, e) in
            (g, ground (arith, e), ground (arith, x, same, w.2), ground (arith, r, same, w.3))
        | inr e ↦ (w.0, ground (arith, w.1, e), w.2, w.3)
      ];
  quiet = s.quiet;
  below = λ b e h. ground (arith, s.below b e, s.below a f o, h);
  listed = λ b j y h e. elim (found-stored a b g y c.objects h) [
    | inl i ↦ elim (s.listed a j f o (sym k ∙ sym (ap (λ z. z.callback) i.1) ∙ e)) [
      | inl u ↦
          inl (
            ap (λ n. lookup n c.response_table) (ap (λ z. z.opaque) i.1 ∙ q)
            ∙ u
            ∙ ap some (sym i.0))
      | inr u ↦ inr (u.0, ap c.work i.0 ∙ u.1)
    ]
    | inr i ↦ s.listed b j y i.1 e
  ];
  alone = λ b e y z h l m.
      let u = before b y h in
      let v = before e z l in s.alone b e u.0 v.0 u.1 v.1 (u.2 ∙ m ∙ sym v.2);
  answered = λ b. ground (arith, s.answered b, o, k);
  begun_below = s.begun_below;
  begun_once = s.begun_once;
}
  where
    before :
        (b : ℕ) (y : ResponseFuture)
        → store a (some g) c.objects b ≡ some y
        → (z : ResponseFuture) × (c.objects b ≡ some z) × (z.opaque ≡ y.opaque)
    before b y h = elim (found-stored a b g y c.objects h) [
      | inl i ↦ (f, ap c.objects i.0 ∙ o, sym (ap (λ z. z.opaque) i.1 ∙ q))
      | inr i ↦ (y, i.1, refl)
    ]

pub Sound-sent :
    (begun : List ℕ) (c d : Client) (a : ℕ) (ok : Bool)
    → Sound begun c
    → set_send_request_ok a ok c ≡ some d
    → Sound begun d
unfolding set_send_request_ok
Sound-sent begun c d a ok s h = elim (Option-cases (c.objects a)) [
  | inl e ↦ absurd (ground (arith, h, e))
  | inr e ↦
      subst (Sound begun) (ground (arith, h, e.1))
        (Sound-stored begun c a e.0 (record e.0 { send_request_ok = ok }) s e.1 refl refl refl refl)
]

pub Sound-sync_failed :
    (begun : List ℕ) (c d : Client) (a : ℕ) (f : ResponseFuture)
    → Sound begun c
    → c.objects a ≡ some f
    → f.callback ≡ none
    → c.work a ≡ Work.idle
    → sync_failed a f.opaque c ≡ some d
    → Sound begun d
unfolding set_send_request_ok sync_failed
Sound-sync_failed begun c d a f s o k free h = subst (Sound begun) (ground (arith, h, o)) (
    Sound-Gone begun c e f.opaque a f [] s o refl (λ b. ground (arith, k))
      ((λ b. ground arith), refl, refl, sym (append-nil c.completed), Leaves-idle a c.work free))
  where
    e : Client
    e = record c {
      objects = store a none (store a (some (record f { send_request_ok = false })) c.objects);
      response_table = erase f.opaque c.response_table;
    }

pub Sound-sync_done :
    (begun : List ℕ) (c d : Client) (a : ℕ) (f : ResponseFuture) (r : Option RemotingCommand)
    → Sound begun c
    → c.objects a ≡ some f
    → f.callback ≡ none
    → sync_done a c ≡ some (d, r)
    → Sound begun d
unfolding sync_done
Sound-sync_done begun c d a f r s o k h = elim (Option-cases f.response) [
  | inl e ↦ subst (Sound begun) (ground (arith, h, o, e)) s
  | inr e ↦ subst (Sound begun) (ground (arith, h, o, e.1)) (
      Sound-Gone begun c (delete a c) f.opaque a f [] s o refl (λ b. ground (arith, k))
        (
          (λ b. refl),
          refl,
          sym (erase-absent f.opaque c.response_table (unlisted_now e.0 e.1)),
          sym (append-nil c.completed),
          ((λ b n. refl), λ cmd v. not_held cmd v e.0 e.1),
        ))
]
  where
    not_held :
        (cmd : Option RemotingCommand)
        → c.work a ≡ Work.took cmd
        → (x : RemotingCommand) → f.response ≡ some x
        → ⊥
    not_held cmd v x e = let l = s.held a cmd v in absurd (ground (arith, l.1, o, l.3, e))

    unlisted_now :
        (x : RemotingCommand) → f.response ≡ some x → lookup f.opaque c.response_table ≡ none
    unlisted_now x e = elim (Option-cases (lookup f.opaque c.response_table)) [
      | inl i ↦ i
      | inr i ↦
          let w = s.entry f.opaque i.0 i.1 in
          let same : i.0 ≡ a = s.alone i.0 a w.0 f w.1 o w.2 in
          absurd (ground (arith, w.1, o, same, w.4, e))
    ]
