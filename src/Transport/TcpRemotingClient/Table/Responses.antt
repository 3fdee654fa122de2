-- ===== src/Transport/TcpRemotingClient/Table/Responses.antt =====
-- What becomes of a response: the entry of its request goes, and a pool thread does the rest.
use test.Prelude.{
  ℕ, suc, ◌≡◌, ◌≢◌, refl, sym, ap, ◌∙◌, subst, arith, ◌==◌, none, some, List, [], ◌∷◌, ◌++◌,
  Bool-cases, Option-cases, inl, inr,
}
use test.Prelude.{Option}
use test.Prelude.Int.{ℤ}
use test.SortedMap.{lookup, erase}
use test.SortedMap.Keys.{ℤ_order}
use test.SortedMap.Laws.{erase-absent, IsOrdered-erase, lookup-erase_ne, found-erased}
use test.Transport.TcpRemotingClient.{
  RemotingCommand, ResponseFuture, Completion, Client, store, process_data, Work, set_work,
  process_response_command, notify_waiter, notify, put_response,
}
use test.Transport.TcpRemotingClient.Table.{Sound, Waits}
use test.Transport.TcpRemotingClient.Table.Settled.{Sound-Gone, Sound-kept, Leaves-set}

-- The entry goes, and a thread is to complete the object.
abbrev pub taken : ℕ → ℤ → Option RemotingCommand → Client → Client
taken a opaque r c = record c {
  response_table = erase opaque c.response_table;
  work = set_work a (Work.took r) c.work;
}

pub Sound-taken :
    (begun : List ℕ) (c : Client) (a : ℕ) (opaque : ℤ) (r : Option RemotingCommand)
    → Sound begun c
    → lookup opaque c.response_table ≡ some a
    → Sound begun (taken a opaque r c)
Sound-taken begun c a opaque r s e = record {
  table_IsOrdered = IsOrdered-erase opaque c.response_table s.table_IsOrdered;
  entry = λ number b h.
      let found = found-erased opaque number b c.response_table s.table_IsOrdered h in
      let v = s.entry number b found.1 in
      let apart : b ≢ a = λ i.
        let same : v.0 ≡ w.0 = some_eq v.0 w.0 (sym v.1 ∙ ap c.objects i ∙ w.1) in
        found.0 (sym v.2 ∙ ap (λ z. z.opaque) same ∙ w.2) in
      (v.0, v.1, v.2, v.3, v.4, ground (arith, apart, v.5));
  held = λ b other h. elim (Bool-cases (b == a)) [
    | inl i ↦ (w.0, ground (arith, w.1, i), w.3, w.4)
    | inr i ↦ s.held b other (ground (arith, h, i))
  ];
  quiet = λ b h. ground (arith, s.quiet b h, s.below a w.0 w.1, h);
  below = s.below;
  listed = λ b k f o q. elim (Bool-cases (b == a)) [
    | inl i ↦ inr (r, ground (arith, i))
    | inr i ↦ elim (s.listed b k f o q) [
      | inl u ↦ inl (
          lookup-erase_ne opaque f.opaque c.response_table
            (λ j. ground (arith, i, s.alone b a f w.0 o w.1 (j ∙ sym w.2)))
          ∙ u)
      | inr u ↦ inr (u.0, ground (arith, i, u.1))
    ]
  ];
  alone = s.alone;
  answered = s.answered;
  begun_below = s.begun_below;
  begun_once = s.begun_once;
}
  where
    w : Waits c opaque a
    w = s.entry opaque a e

    some_eq : (f g : ResponseFuture) → some f ≡ some g → f ≡ g
    some_eq f g i = cc i

pub process_data-defined :
    (begun : List ℕ) (c : Client) (cmd : RemotingCommand)
    → Sound begun c
    → (d : Client) × (process_data cmd c ≡ some d) × Sound begun d
unfolding process_data
process_data-defined begun c cmd s = elim (Bool-cases cmd.is_response) [
  | inl t ↦ elim (Option-cases (lookup cmd.opaque c.response_table)) [
    | inl e ↦ (c, ground (arith, t, e), s)
    | inr e ↦
        let w = s.entry cmd.opaque e.0 e.1 in
        (
          taken e.0 cmd.opaque (some cmd) c,
          ground (arith, t, e.1, w.1),
          Sound-taken begun c e.0 cmd.opaque (some cmd) s e.1,
        )
  ]
  | inr t ↦ elim (Option-cases (lookup cmd.code c.processor_table)) [
    | inl e ↦ (c, ground (arith, t, e), s)
    | inr e ↦ (after_request e.0, ground (arith, t, e.1), Sound-after_request e.0)
  ]
]
  where
    after_request : ℕ → Client
    after_request p = record c { processed = c.processed ++ (p, cmd) ∷ [] }

    Sound-after_request : (p : ℕ) → Sound begun (after_request p)
    Sound-after_request p = record {
      table_IsOrdered = s.table_IsOrdered;
      entry = s.entry;
      held = s.held;
      quiet = s.quiet;
      below = s.below;
      listed = s.listed;
      alone = s.alone;
      answered = s.answered;
      begun_below = s.begun_below;
      begun_once = s.begun_once;
    }

-- An object that a thread works on is not in the table.
pub unlisted :
    (begun : List ℕ) (c : Client) (a : ℕ) (f : ResponseFuture)
    → Sound begun c
    → c.objects a ≡ some f
    → c.work a ≢ Work.idle
    → lookup f.opaque c.response_table ≡ none
unlisted begun c a f s o h = elim (Option-cases (lookup f.opaque c.response_table)) [
  | inl i ↦ i
  | inr i ↦
      let v = s.entry f.opaque i.0 i.1 in
      absurd (h (ap c.work (sym (s.alone i.0 a v.0 f v.1 o v.2)) ∙ v.5))
]

-- An object without a callback, and not in the table, changes.
Sound-changed :
    (begun : List ℕ) (c : Client) (a : ℕ) (f g : ResponseFuture) (w : Work)
    → Sound begun c
    → c.objects a ≡ some f
    → c.work a ≢ Work.idle
    → f.callback ≡ none
    → g.callback ≡ none
    → g.opaque ≡ f.opaque
    → ((r : Option RemotingCommand) → w ≢ Work.took r)
    → Sound begun (record c { objects = store a (some g) c.objects; work = set_work a w c.work })
Sound-changed begun c a f g w s o h cb cg q t =
    subst
      (λ table. Sound begun (record c {
        objects = store a (some g) c.objects;
        response_table = table;
        work = set_work a w c.work;
      }))
      (erase-absent f.opaque c.response_table (unlisted begun c a f s o h))
      (Sound-kept begun c f.opaque a f g (set_work a w c.work) s o refl cb q cg
        (Leaves-set a w c.work t))

-- A pool thread that has a response to do with it touches no deleted object.
pub process_response_command-defined :
    (begun : List ℕ) (c : Client) (a : ℕ) (cmd : RemotingCommand)
    → Sound begun c
    → c.work a ≡ Work.took (some cmd)
    → (d : Client) × (process_response_command a cmd c ≡ some d)
      × Sound begun d
      × ((f : ResponseFuture) (k : ℕ)
          → c.objects a ≡ some f
          → f.callback ≡ some k
          → d.objects a ≡ none)
unfolding process_response_command
process_response_command-defined begun c a cmd s h = elim (Option-cases f.callback) [
  | inl k ↦ (
    waits,
    ground (arith, v.1, k),
    Sound-changed begun c a f (record f { response = some cmd }) Work.notifies s v.1 busy k k refl
        (λ i e. cc e),
    λ y j o e. absurd (ground (arith, o, e, v.1, k)),
  )
  | inr k ↦ (
    called k.0,
    ground (arith, v.1, k.1, v.2),
    Sound-Gone begun c (called k.0) f.opaque a f (made k.0) s v.1 refl (λ b. ground (arith, k.1))
        (
          (λ b. ground arith),
          refl,
          sym (erase-absent f.opaque c.response_table (unlisted begun c a f s v.1 busy)),
          refl,
          Leaves-set a Work.idle c.work (λ i e. cc e),
        ),
    λ y j o e. ground arith,
  )
]
  where
    v : (f : ResponseFuture) × (c.objects a ≡ some f) × (f.exec ≡ 0) × (f.response ≡ none)
    v = s.held a (some cmd) h

    f : ResponseFuture
    f = v.0

    g : ResponseFuture
    g = put_response (some cmd) v.0

    busy : c.work a ≢ Work.idle
    busy e = cc (e, h)

    waits : Client
    waits = record c {
      objects = store a (some (record f { response = some cmd })) c.objects;
      work = set_work a Work.notifies c.work;
    }

    made : ℕ → List Completion
    made k = record { object = a; callback = k; response = some cmd } ∷ []

    called : ℕ → Client
    called k = record c {
      objects =
          store a none
            (store a (some (record g { exec = suc g.exec })) (store a (some g) c.objects));
      completed = c.completed ++ made k;
      work = set_work a Work.idle c.work;
    }

pub Sound-notify_waiter :
    (begun : List ℕ) (c d : Client) (a : ℕ)
    → Sound begun c
    → c.work a ≡ Work.notifies
    → notify_waiter a c ≡ some d
    → Sound begun d
unfolding notify_waiter
Sound-notify_waiter begun c d a s h e = elim (Option-cases (c.objects a)) [
  | inl o ↦ absurd (ground (arith, e, o))
  | inr o ↦ subst (Sound begun) (ground (arith, e, o.1)) (
      Sound-changed begun c a o.0 (notify o.0) Work.idle s o.1 busy (no_callback o.0 o.1)
        (notified o.0 (no_callback o.0 o.1)) (ground arith) (λ i j. cc j))
]
  where
    busy : c.work a ≢ Work.idle
    busy i = cc (i, h)

    notified : (f : ResponseFuture) → f.callback ≡ none → (notify f).callback ≡ none
    notified f k = ground (arith, k)

    no_callback : (f : ResponseFuture) → c.objects a ≡ some f → f.callback ≡ none
    no_callback f o = elim (Option-cases f.callback) [
      | inl k ↦ k
      | inr k ↦ elim (s.listed a k.0 f o k.1) [
        | inl u ↦ absurd (cc (sym u ∙ unlisted begun c a f s o busy))
        | inr u ↦ absurd (cc (u.1, h))
      ]
    ]
