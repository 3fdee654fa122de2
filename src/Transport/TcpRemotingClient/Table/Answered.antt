-- ===== src/Transport/TcpRemotingClient/Table/Answered.antt =====
-- What becomes of every request that invokeAsyncImpl has started.
use test.Prelude.{
  ℕ, ◌⊎◌, ◌≤◌, ◌≡◌, sym, ap, ◌∙◌, subst, arith, true, false, ◌==◌, none, some, List, [], ◌∷◌,
  Bool-cases, Option-cases, inl, inr,
}
use mathlib.Core.List.{Mem, not-mem-nil, mem_of_ne_of_mem}
use test.Prelude.Int.{ℤ, pos, ◌+ℤ◌, ltb_ℤ}
use test.SortedMap.{lookup}
use test.SortedMap.Keys.{ℤ_order}
use test.Transport.TcpRemotingClient.{
  RemotingCommand, ResponseFuture, Client, expire, handle_timer_event, process_data, is_timeout,
  set_send_request_ok, async_failed, async_unlisted, Work, process_response_command,
}
use test.Transport.TcpRemotingClient.Table.{Sound, Run, calls, times, IsHeld}
use test.Transport.TcpRemotingClient.Table.Settled.{Kept}
use test.Transport.TcpRemotingClient.Table.Expiry.{expire-Swept, Swept}
use test.Transport.TcpRemotingClient.Table.Responses.{
  process_data-defined, process_response_command-defined, Sound-notify_waiter,
}
use test.Transport.TcpRemotingClient.Table.Failures.{Sound-async_unlisted, Sound-async_finished}
use test.Transport.TcpRemotingClient.Table.Starts.{Sound-new_client, Sound-begin}
use test.Transport.TcpRemotingClient.Table.Steps.{Sound-sent, Sound-sync_failed, Sound-sync_done}

some_eq : (c d : Client) → some c ≡ some d → c ≡ d
some_eq c d e = cc e

Run-Sound : (begun : List ℕ) (c : Client) → Run begun c → Sound begun c
Run-Sound begun c (Run.start processors) = Sound-new_client processors
Run-Sound begun c (Run.async_began l b request timeout k now r u) =
    Sound-begin l b request timeout (some k) false now (Run-Sound l b r) u
Run-Sound begun c (Run.sync_began l b request timeout now r u) =
    Sound-begin l b request timeout none true now (Run-Sound l b r) u
Run-Sound begun c (Run.sent l b d a r h) = Sound-sent l b d a true (Run-Sound l b r) h
Run-Sound begun c (Run.sync_fails l b d a f r o k free h) =
    Sound-sync_failed l b d a f (Run-Sound l b r) o k free h
Run-Sound begun c (Run.async_fails l b d a k f r o q h) =
    Sound-async_unlisted l b d a k f (Run-Sound l b r) o q h
Run-Sound begun c (Run.async_ends l b d a r w h) =
    Sound-async_finished l b d a (Run-Sound l b r) w h
Run-Sound begun c (Run.sync_returns l b d a f x r o k h) =
    Sound-sync_done l b d a f x (Run-Sound l b r) o k h
Run-Sound begun c (Run.time_passes l b d now r h) =
    let s = Run-Sound l b r in
    let x = expire-Swept now b.response_table l b s s.table_IsOrdered (λ n a e. e) in
    subst (Sound l) (some_eq x.0 d (sym x.1 ∙ h)) x.2
Run-Sound begun c (Run.received l b d cmd r h) =
    let x = process_data-defined l b cmd (Run-Sound l b r) in
    subst (Sound l) (some_eq x.0 d (sym x.1 ∙ h)) x.2
Run-Sound begun c (Run.responds l b d a cmd r w h) =
    let x = process_response_command-defined l b a cmd (Run-Sound l b r) w in
    subst (Sound l) (some_eq x.0 d (sym x.1 ∙ h)) x.2
Run-Sound begun c (Run.wakes l b d a r w h) = Sound-notify_waiter l b d a (Run-Sound l b r) w h

-- The object lives, and it is in the table or a thread is still to complete it.
abbrev pub Pending : ℕ → Client → Type 0
Pending a c =
    (f : ResponseFuture) × (c.objects a ≡ some f)
    × ((lookup f.opaque c.response_table ≡ some a) ⊎ IsHeld c a)

times-Mem : (a : ℕ) (l : List ℕ) → Mem a l → 1 ≤ times a l
times-Mem a [] m = absurd (not-mem-nil m)
times-Mem a (b ∷ l) m = elim (Bool-cases (b == a)) [
  | inl e ↦ ground (arith, e)
  | inr e ↦ ground (arith, e, times-Mem a l (mem_of_ne_of_mem (ground (arith, e)) m))
]

Sound-answered :
    (begun : List ℕ) (c : Client) (a : ℕ)
    → Sound begun c
    → Mem a begun
    → (calls a c.completed ≡ 1) ⊎ ((calls a c.completed ≡ 0) × Pending a c)
Sound-answered begun c a s m = elim (Option-cases (c.objects a)) [
  | inl e ↦ inl (ground (arith, s.answered a, once, e))
  | inr e ↦ elim (Option-cases e.0.callback) [
    | inl k ↦ inl (ground (arith, s.answered a, once, e.1, k))
    | inr k ↦
        inr (ground (arith, s.answered a, once, e.1, k.1), (e.0, e.1, s.listed a k.0 e.0 e.1 k.1))
  ]
]
  where
    once : times a begun ≡ 1
    once = omega (arith, times-Mem a begun m, s.begun_once a)

-- In every state that steps of threads lead to, a request started by invokeAsyncImpl has either been
-- answered, and operationComplete has been called once for it; or it has not, and its object is in the
-- table of requests or a thread has taken it out and is still to complete it. This holds in whatever order
-- responses come, threads go on, time passes and sending fails, as long as each request starts with a number
-- that no object has, no response comes to a synchronous request that could not be sent, and no step touches
-- a deleted object.
pub Run-answered :
    (begun : List ℕ) (c : Client) (a : ℕ)
    → Run begun c
    → Mem a begun
    → (calls a c.completed ≡ 1) ⊎ ((calls a c.completed ≡ 0) × Pending a c)
Run-answered begun c a r m = Sound-answered begun c a (Run-Sound begun c r) m

-- In such a state, when a pool thread has the response to a request started by invokeAsyncImpl, it touches no
-- deleted object in processResponseCommand, and afterwards operationComplete has been called once for the
-- request.
pub process_response_command-answered :
    (begun : List ℕ) (c : Client) (a k : ℕ) (f : ResponseFuture) (cmd : RemotingCommand)
    → Run begun c
    → Mem a begun
    → c.objects a ≡ some f
    → f.callback ≡ some k
    → c.work a ≡ Work.took (some cmd)
    → (d : Client) × (process_response_command a cmd c ≡ some d) × (calls a d.completed ≡ 1)
process_response_command-answered begun c a k f cmd r m o q h =
    let x = process_response_command-defined begun c a cmd (Run-Sound begun c r) h in
    let gone : x.0.objects a ≡ none = x.3 f k o q in
    (x.0, x.1, ground (arith, x.2.answered a, x.2.begun_once a, times-Mem a begun m, gone))

-- In such a state no object that has been deleted is touched when HandleTimerEvent runs, when a message
-- arrives, or when a pool thread sets a response that it has, whatever the time and the message are.
pub Run-defined :
    (begun : List ℕ) (c : Client) (tm last now : ℤ) (cmd : RemotingCommand)
    → Run begun c
    → ((r : Client × ℤ) × (handle_timer_event tm last now c ≡ some r))
      × ((d : Client) × (process_data cmd c ≡ some d))
      × ((a : ℕ) (response : RemotingCommand)
          → c.work a ≡ Work.took (some response)
          → (d : Client) × (process_response_command a response c ≡ some d))
unfolding handle_timer_event
Run-defined begun c tm last now cmd r = (
  elim (Bool-cases (ltb_ℤ tm (last +ℤ pos 10))) [
    | inl t ↦ ((c, last), ground (arith, t))
    | inr t ↦ ((x.0, tm), ground (arith, t, x.1))
  ],
  (y.0, y.1),
  λ a response h. let z = process_response_command-defined begun c a response s h in (z.0, z.1),
)
  where
    s : Sound begun c
    s = Run-Sound begun c r

    x :
        (d : Client) × (expire now c.response_table c ≡ some d)
        × Sound begun d
        × Swept now c.response_table c d
        × Kept c d
        × (d.work ≡ c.work)
    x = expire-Swept now c.response_table begun c s s.table_IsOrdered (λ n a e. e)

    y : (d : Client) × (process_data cmd c ≡ some d) × Sound begun d
    y = process_data-defined begun c cmd s

-- A run of HandleTimerEvent that is not held back.
swept :
    (begun : List ℕ) (c d : Client) (tm last now after : ℤ)
    → Run begun c
    → ltb_ℤ tm (last +ℤ pos 10) ≡ false
    → handle_timer_event tm last now c ≡ some (d, after)
    → Sound begun d × Swept now c.response_table c d × Kept c d × (d.work ≡ c.work)
unfolding handle_timer_event
swept begun c d tm last now after r t h =
    subst (λ e. Sound begun e × Swept now c.response_table c e × Kept c e × (e.work ≡ c.work))
      (ground (arith, x.1, h, t)) (x.2, x.3, x.4, x.5)
  where
    s : Sound begun c
    s = Run-Sound begun c r

    x :
        (e : Client) × (expire now c.response_table c ≡ some e)
        × Sound begun e
        × Swept now c.response_table c e
        × Kept c e
        × (e.work ≡ c.work)
    x = expire-Swept now c.response_table begun c s s.table_IsOrdered (λ n b e. e)

-- After a run of HandleTimerEvent, 10 units of time or more after the last, every request started by
-- invokeAsyncImpl has been answered once, or it has not been answered, and its time is not up or a thread
-- that has taken it out of the table is still to complete it.
pub handle_timer_event-answered :
    (begun : List ℕ) (c d : Client) (tm last now after : ℤ) (a : ℕ)
    → Run begun c
    → Mem a begun
    → ltb_ℤ tm (last +ℤ pos 10) ≡ false
    → handle_timer_event tm last now c ≡ some (d, after)
    → (calls a d.completed ≡ 1)
      ⊎ ((calls a d.completed ≡ 0)
          × ((f : ResponseFuture) × (d.objects a ≡ some f)
              × ((is_timeout now f ≡ false) ⊎ IsHeld d a)))
handle_timer_event-answered begun c d tm last now after a r m t h =
    elim (Sound-answered begun d a x.0 m) [
      | inl e ↦ inl e
      | inr e ↦ inr (e.0, (e.1.0, e.1.1, in_time e.1.0 e.1.1 e.1.2))
    ]
  where
    x : Sound begun d × Swept now c.response_table c d × Kept c d × (d.work ≡ c.work)
    x = swept begun c d tm last now after r t h

    in_time :
        (f : ResponseFuture)
        → d.objects a ≡ some f
        → (lookup f.opaque d.response_table ≡ some a) ⊎ IsHeld d a
        → (is_timeout now f ≡ false) ⊎ IsHeld d a
    in_time f o (inl l) = inl (x.1.1 f.opaque a f (x.1.0 f.opaque a l).0 l o)
    in_time f o (inr l) = inr l

-- When the time of a request that invokeAsyncImpl has started is up while SendCmd still runs, and no response to it
-- has come, what invokeAsyncImpl does next, whether SendCmd succeeds or fails, touches an object that HandleTimerEvent has
-- deleted.
pub async_failed-after_timeout :
    (begun : List ℕ) (c d : Client) (tm last now after : ℤ) (a k : ℕ) (f : ResponseFuture)
    → Run begun c
    → c.objects a ≡ some f
    → f.callback ≡ some k
    → c.work a ≡ Work.idle
    → is_timeout now f ≡ true
    → ltb_ℤ tm (last +ℤ pos 10) ≡ false
    → handle_timer_event tm last now c ≡ some (d, after)
    → (set_send_request_ok a true d ≡ none) × (async_failed a f.opaque d ≡ none)
unfolding set_send_request_ok async_failed async_unlisted
async_failed-after_timeout begun c d tm last now after a k f r o q idle l t h =
    (ground (arith, freed), ground (arith, freed))
  where
    x : Sound begun d × Swept now c.response_table c d × Kept c d × (d.work ≡ c.work)
    x = swept begun c d tm last now after r t h

    freed : d.objects a ≡ none
    freed = elim (Option-cases (d.objects a)) [
      | inl e ↦ e
      | inr e ↦
          let u = x.2 a e.0 e.1 in
          elim (x.0.listed a k e.0 e.1 (ground (arith, u.1, u.2, o, q))) [
            | inl in_table ↦
                let v = x.1.0 e.0.opaque a in_table in
                absurd (ground (arith, l, o, v.1, e.1, x.1.1 e.0.opaque a e.0 v.0 in_table e.1))
            | inr j ↦ absurd (cc (j.1, ap (λ z. z a) x.3, idle))
          ]
    ]
