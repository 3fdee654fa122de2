-- ===== src/Transport/TcpRemotingClient/Table/Failures.antt =====
-- A request of invokeAsyncImpl that could not be sent: its entry goes, and the sender does the rest.
use test.Prelude.{
  ℕ, suc, ◌≡◌, refl, sym, ap, ◌∙◌, subst, arith, false, none, some, List, [], ◌∷◌, ◌++◌,
  Option-cases, inl, inr, append-nil,
}
use test.SortedMap.{lookup, erase}
use test.SortedMap.Keys.{ℤ_order}
use test.SortedMap.Laws.{erase-absent}
use test.Transport.TcpRemotingClient.{
  ResponseFuture, Completion, Client, store, set_send_request_ok, async_unlisted, async_finished,
  Work, set_work,
}
use test.Transport.TcpRemotingClient.Table.{Sound}
use test.Transport.TcpRemotingClient.Table.Settled.{Sound-Gone, Leaves, Leaves-set}
use test.Transport.TcpRemotingClient.Table.Steps.{Sound-sent}
use test.Transport.TcpRemotingClient.Table.Responses.{Sound-taken, unlisted}

pub Sound-async_unlisted :
    (begun : List ℕ) (c d : Client) (a k : ℕ) (f : ResponseFuture)
    → Sound begun c
    → c.objects a ≡ some f
    → f.callback ≡ some k
    → async_unlisted a f.opaque c ≡ some d
    → Sound begun d
unfolding set_send_request_ok async_unlisted
Sound-async_unlisted begun c d a k f s o q h =
    subst (Sound begun) (ground (arith, h, o, in_table)) (
      Sound-taken begun e a f.opaque none
        (Sound-sent begun c e a false s (unfold set_send_request_ok in ground (arith, o))) in_table)
  where
    e : Client
    e = record c { objects = store a (some (record f { send_request_ok = false })) c.objects }

    in_table : lookup f.opaque c.response_table ≡ some a
    in_table = elim (Option-cases (lookup f.opaque c.response_table)) [
      | inl i ↦ absurd (ground (arith, h, o, i))
      | inr i ↦ let v = s.entry f.opaque i.0 i.1 in i.1 ∙ ap some (s.alone i.0 a v.0 f v.1 o v.2)
    ]

pub Sound-async_finished :
    (begun : List ℕ) (c d : Client) (a : ℕ)
    → Sound begun c
    → c.work a ≡ Work.took none
    → async_finished a c ≡ some d
    → Sound begun d
unfolding async_finished
Sound-async_finished begun c d a s h e = elim (Option-cases f.callback) [
  | inl k ↦ subst (Sound begun) (ground (arith, e, v.1, k)) (
      Sound-Gone begun c silent f.opaque a f [] s v.1 refl (λ b. ground (arith, k))
        ((λ b. refl), refl, still, sym (append-nil c.completed), left))
  | inr k ↦ subst (Sound begun) (ground (arith, e, v.1, k.1, v.2)) (
      Sound-Gone begun c (called k.0) f.opaque a f (made k.0) s v.1 refl (λ b. ground (arith, k.1))
        ((λ b. ground arith), refl, still, refl, left))
]
  where
    v : (f : ResponseFuture) × (c.objects a ≡ some f) × (f.exec ≡ 0) × (f.response ≡ none)
    v = s.held a none h

    f : ResponseFuture
    f = v.0

    still : c.response_table ≡ erase f.opaque c.response_table
    still =
        sym (erase-absent f.opaque c.response_table (unlisted begun c a f s v.1 (λ i. cc (i, h))))

    left : Leaves a c.work (set_work a Work.idle c.work)
    left = Leaves-set a Work.idle c.work (λ r i. cc i)

    silent : Client
    silent = record c { objects = store a none c.objects; work = set_work a Work.idle c.work }

    made : ℕ → List Completion
    made k = record { object = a; callback = k; response = f.response } ∷ []

    called : ℕ → Client
    called k = record c {
      objects = store a none (store a (some (record f { exec = suc f.exec })) c.objects);
      completed = c.completed ++ made k;
      work = set_work a Work.idle c.work;
    }
