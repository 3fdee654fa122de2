-- ===== src/Transport/TcpRemotingClient/Table/Settled.antt =====
-- A request whose entry has been taken out of the table.
use test.Prelude.{
  ℕ, ◌⊎◌, suc, ◌+◌, ◌≡◌, ◌≢◌, ◌≤◌, refl, sym, ap, ◌∙◌, subst, arith, ◌==◌, Option, none, some, List,
  [], ◌∷◌, ◌++◌, if◌then◌else◌, Bool-cases, Option-cases, inl, inr,
}
use test.Prelude.Int.{ℤ}
use test.SortedMap.{lookup, erase, IsOrdered}
use test.SortedMap.Keys.{ℤ_order}
use test.SortedMap.Laws.{IsOrdered-erase, lookup-erase_ne, found-erased}
use test.Transport.TcpRemotingClient.{
  RemotingCommand, ResponseFuture, Completion, Client, store, put_response, finish, Work, set_work,
}
use test.Transport.TcpRemotingClient.Table.{Sound, Waits, calls, pending_object}

calls-append : (a : ℕ) (l m : List Completion) → calls a (l ++ m) ≡ calls a l + calls a m
calls-append a [] m = ground arith
calls-append a (b ∷ l) m = ground (arith, calls-append a l m)

-- What lives after an object has been stored.
pub found-stored :
    (a b : ℕ) (f g : ResponseFuture) (objects : ℕ → Option ResponseFuture)
    → store a (some f) objects b ≡ some g
    → ((b ≡ a) × (g ≡ f)) ⊎ ((b ≢ a) × (objects b ≡ some g))
found-stored a b f g objects h = elim (Bool-cases (b == a)) [
  | inl e ↦ inl (ground (arith, e), ground (arith, h, e))
  | inr e ↦ inr (ground (arith, e), ground (arith, h, e))
]

-- What threads have to do with other objects stays, and this one is not to be completed.
abbrev pub Leaves : ℕ → (ℕ → Work) → (ℕ → Work) → Type 0
Leaves a work work' =
    ((b : ℕ) → b ≢ a → work' b ≡ work b) × ((r : Option RemotingCommand) → work' a ≢ Work.took r)

pub Leaves-set :
    (a : ℕ) (w : Work) (work : ℕ → Work)
    → ((r : Option RemotingCommand) → w ≢ Work.took r)
    → Leaves a work (set_work a w work)
Leaves-set a w work h = ((λ b n. ground (arith, n)), λ cmd e. h cmd (ground (arith, e)))

pub Leaves-idle : (a : ℕ) (work : ℕ → Work) → work a ≡ Work.idle → Leaves a work work
Leaves-idle a work h = ((λ b n. refl), λ cmd e. absurd (cc (h, e)))

-- The state after an object has left the state for good, with the calls of operationComplete made.
abbrev pub Gone : ℕ → List Completion → Client → ℤ → Client → Type 0
Gone a made c opaque d =
    ((b : ℕ) → d.objects b ≡ (if b == a then none else c.objects b))
    × (d.next ≡ c.next)
    × (d.response_table ≡ erase opaque c.response_table)
    × (d.completed ≡ c.completed ++ made)
    × Leaves a c.work d.work

-- An object goes, and if it has a callback, that has been called once.
pub Sound-Gone :
    (begun : List ℕ) (c d : Client) (opaque : ℤ) (a : ℕ) (f : ResponseFuture)
    (made : List Completion)
    → Sound begun c
    → c.objects a ≡ some f
    → f.opaque ≡ opaque
    → ((b : ℕ) → calls b made ≡ (if b == a then pending_object (some f) else 0))
    → Gone a made c opaque d
    → Sound begun d
Sound-Gone begun c d opaque a f made s o q cb g = record {
  table_IsOrdered =
      subst (λ t. IsOrdered t) (sym g.2)
        (IsOrdered-erase opaque c.response_table s.table_IsOrdered);
  entry = λ number b h.
      let found = found-erased opaque number b c.response_table s.table_IsOrdered (cc (h, g.2)) in
      let w = s.entry number b found.1 in
      let apart : b ≢ a = λ e. found.0 (cc (ap c.objects e, o, w.1, w.2, q)) in
      (w.0, still b apart ∙ w.1, w.2, w.3, w.4, g.4.0 b apart ∙ w.5);
  held = λ b cmd h.
      let apart : b ≢ a = λ i. g.4.1 cmd (ap d.work (sym i) ∙ h) in
      let x = s.held b cmd (sym (g.4.0 b apart) ∙ h) in (x.0, still b apart ∙ x.1, x.2, x.3);
  quiet = λ b h.
      let l : c.next ≤ b = ground (arith, g.1, h) in
      g.4.0 b (λ i. absurd (omega (arith, ap (λ z. z) i, s.below a f o, l))) ∙ s.quiet b l;
  below = λ b e h. ground (arith, g.0 b, g.1, h, s.below b e);
  listed = λ b j l h e.
      let apart : b ≢ a = λ i. ground (arith, g.0 b, h, i) in
      let old : c.objects b ≡ some l = sym (still b apart) ∙ h in
      elim (s.listed b j l old e) [
        | inl u ↦ inl (
            ap (lookup l.opaque) g.2
            ∙ lookup-erase_ne opaque l.opaque c.response_table
                (λ i. apart (s.alone b a l f old o (i ∙ sym q)))
            ∙ u)
        | inr u ↦ inr (u.0, g.4.0 b apart ∙ u.1)
      ];
  alone = λ b e x y h l. s.alone b e x y (ground (arith, g.0 b, h)) (ground (arith, g.0 e, l));
  answered =
      λ b. ground (arith, s.answered b, g.0 b, g.3, calls-append b c.completed made, o, cb b);
  begun_below = λ b h. s.begun_below b (ground (arith, g.1, h));
  begun_once = s.begun_once;
}
  where
    still : (b : ℕ) → b ≢ a → d.objects b ≡ c.objects b
    still b h = ground (arith, g.0 b, h)

-- An object without a callback stays, and only its entry goes.
pub Sound-kept :
    (begun : List ℕ) (c : Client) (opaque : ℤ) (a : ℕ) (f g : ResponseFuture) (work' : ℕ → Work)
    → Sound begun c
    → c.objects a ≡ some f
    → f.opaque ≡ opaque
    → f.callback ≡ none
    → g.opaque ≡ opaque
    → g.callback ≡ none
    → Leaves a c.work work'
    → Sound begun (record c {
      objects = store a (some g) c.objects;
      response_table = erase opaque c.response_table;
      work = work';
    })
Sound-kept begun c opaque a f g work' s o q cb r cg v = record {
  table_IsOrdered = IsOrdered-erase opaque c.response_table s.table_IsOrdered;
  entry = λ number b h.
      let found = found-erased opaque number b c.response_table s.table_IsOrdered h in
      let w = s.entry number b found.1 in
      let apart : b ≢ a = λ e. found.0 (cc (ap c.objects e, o, w.1, w.2, q)) in
      (w.0, still b apart ∙ w.1, w.2, w.3, w.4, v.0 b apart ∙ w.5);
  held = λ b cmd h.
      let apart : b ≢ a = λ i. v.1 cmd (ap work' (sym i) ∙ h) in
      let x = s.held b cmd (sym (v.0 b apart) ∙ h) in (x.0, still b apart ∙ x.1, x.2, x.3);
  quiet = λ b h. v.0 b (λ i. absurd (omega (arith, ap (λ z. z) i, s.below a f o, h))) ∙ s.quiet b h;
  below = λ b e h. ground (arith, s.below b e, s.below a f o, h);
  listed = λ b j l h e.
      let apart : b ≢ a = λ i. ground (arith, h, i, cg, e) in
      let old : c.objects b ≡ some l = sym (still b apart) ∙ h in
      elim (s.listed b j l old e) [
        | inl u ↦ inl (
            lookup-erase_ne opaque l.opaque c.response_table
              (λ i. apart (s.alone b a l f old o (i ∙ sym q)))
            ∙ u)
        | inr u ↦ inr (u.0, v.0 b apart ∙ u.1)
      ];
  alone = λ b e x y h l m.
      let u = before b x h in
      let v = before e y l in s.alone b e u.0 v.0 u.1 v.1 (u.2 ∙ m ∙ sym v.2);
  answered = λ b. ground (arith, s.answered b, o, cb, cg);
  begun_below = s.begun_below;
  begun_once = s.begun_once;
}
  where
    still : (b : ℕ) → b ≢ a → store a (some g) c.objects b ≡ c.objects b
    still b h = ground (arith, h)

    before :
        (b : ℕ) (x : ResponseFuture)
        → store a (some g) c.objects b ≡ some x
        → (y : ResponseFuture) × (c.objects b ≡ some y) × (y.opaque ≡ x.opaque)
    before b x h = elim (Bool-cases (b == a)) [
      | inl e ↦ (f, ground (arith, o, e), ground (arith, h, e, q, r))
      | inr e ↦ (x, ground (arith, h, e), refl)
    ]

-- Every object that lives afterwards lived before, with the same callback.
abbrev pub Kept : Client → Client → Type 0
Kept c d =
    (b : ℕ) (g : ResponseFuture)
    → d.objects b ≡ some g
    → (f : ResponseFuture) × (c.objects b ≡ some f) × (g.callback ≡ f.callback)

-- What goes out of the table is answered: the step is made, and the table is sound again.
pub settled :
    (begun : List ℕ) (c : Client) (opaque : ℤ) (a : ℕ) (r : Option RemotingCommand)
    → Sound begun c
    → lookup opaque c.response_table ≡ some a
    → (d : Client) × (finish a r (record c { response_table = erase opaque c.response_table })
        ≡ some d)
      × Sound begun d
      × (d.response_table ≡ erase opaque c.response_table)
      × ((b : ℕ) → b ≢ a → d.objects b ≡ c.objects b)
      × Kept c d
      × (d.work ≡ c.work)
unfolding finish
settled begun c opaque a r s e = elim (Option-cases w.0.callback) [
  | inl cb ↦ (
    record c {
      objects = store a (some g) c.objects;
      response_table = erase opaque c.response_table;
    },
    ground (arith, w.1, cb),
    Sound-kept begun c opaque a w.0 g c.work s w.1 w.2 cb (ground (arith, w.2)) (ground (arith, cb))
        (Leaves-idle a c.work w.5),
    refl,
    (λ b h. ground (arith, h)),
    (λ b h e. elim (found-stored a b g h c.objects e) [
      | inl i ↦ (w.0, ground (arith, w.1, i.0), ap (λ z. z.callback) i.1 ∙ same_callback)
      | inr i ↦ (h, i.1, refl)
    ]),
    refl,
  )
  | inr cb ↦ (
    called cb.0,
    ground (arith, w.1, cb.1, w.3),
    Sound-Gone begun c (called cb.0) opaque a w.0 (made cb.0) s w.1 w.2 (λ b. ground (arith, cb.1))
        ((λ b. ground arith), refl, refl, refl, Leaves-idle a c.work w.5),
    refl,
    (λ b h. ground (arith, h)),
    (λ b h e. (h, ground (arith, e), refl)),
    refl,
  )
]
  where
    w : Waits c opaque a
    w = s.entry opaque a e

    g : ResponseFuture
    g = put_response r w.0

    same_callback : g.callback ≡ w.0.callback
    same_callback = ground arith

    made : ℕ → List Completion
    made k = record { object = a; callback = k; response = r } ∷ []

    called : ℕ → Client
    called k = record c {
      objects =
          store a none
            (store a (some (record g { exec = suc g.exec })) (store a (some g) c.objects));
      response_table = erase opaque c.response_table;
      completed = c.completed ++ made k;
    }
