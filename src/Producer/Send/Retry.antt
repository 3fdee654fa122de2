-- ===== src/Producer/Send/Retry.antt =====
-- The tries of a send: which queues they go to, how many they are and how they end.
use test.Prelude.{
  ℕ, zero, suc, ◌+◌, ◌≤◌, ◌≡◌, ◌≢◌, ◌⊎◌, refl, ap, ◌∙◌, arith, Bytes, Bool, true, false, Option,
  none, some, List, [], ◌∷◌, ◌++◌, length, ltb, if◌then◌else◌,
}
use test.Message.MessageQueue.{MessageQueue}
use test.Producer.Send.{
  PublishTable, Sender, Try, SendEnd, SendStatus, send_ok, sync, Next, continues, ends, returns,
  Kernel, after_try, after_loop, tried, by_next, with_queue, try_to_find_topic_publish_mq,
  send_loop, send_default_impl,
}
use test.Producer.Send.Choice.{try_to_find_sound}

-- Each queue is on another broker than the one before it, a broker without a name left aside.
abbrev pub Alternate : Bytes → List MessageQueue → Type 0
Alternate last [] = Unit {0}
Alternate last (mq ∷ mqs) = ((last ≡ []) ⊎ (mq.broker_name ≢ last)) × Alternate mq.broker_name mqs

-- What holds of all results of a try holds of it.
try_cases {ℓ} :
    (P : List MessageQueue × SendEnd → Type ℓ) (s : Sender) (t : Try) (found : Option MessageQueue)
    (stopped : SendEnd) (rest : MessageQueue → List MessageQueue × SendEnd)
    → P ([], stopped)
    → ((mq : MessageQueue) (e : SendEnd)
        → found ≡ some mq
        → after_try s (t.send mq) ≡ ends e
        → P (mq ∷ [], e))
    → ((mq : MessageQueue) → found ≡ some mq → P (with_queue mq (rest mq)))
    → P (tried s t found stopped rest)
try_cases P s t none stopped rest p q r = p
try_cases P s t (some mq) stopped rest p q r = by_what (after_try s (t.send mq)) refl
  where
    by_what : (n : Next) → after_try s (t.send mq) ≡ n → P (by_next n mq (rest mq))
    by_what (ends e) h = q mq e refl h
    by_what continues h = r mq refl

module _ (s : Sender) (tries : ℕ → Try) where
  abbrev Fair : ℕ → Bytes → List MessageQueue × SendEnd → Type 0
  Fair n last r = Alternate last r.0 × (length r.0 ≤ n)

  send_loop-Fair :
      (n : ℕ) (now : ℕ) (last : Bytes) (table : PublishTable)
      → Fair n last (send_loop n s tries now last table)
  unfolding send_loop
  send_loop-Fair zero now last table = (tt, omega arith)
  send_loop-Fair (suc n) now last table =
      timed (tried s (tries n) found.0 stopped rest)
        (ltb now (s.begin_timestamp + s.send_msg_timeout))
        (try_cases (Fair (suc n) last) s (tries n) found.0 stopped rest (tt, omega arith)
          (λ mq e h k. ((sound mq h, tt), omega arith))
          λ mq h.
            let r = send_loop-Fair n (tries n).end_timestamp mq.broker_name found.1 in
            ((sound mq h, r.0), omega (arith, r.1)))
    where
      found : Option MessageQueue × PublishTable
      found =
          try_to_find_topic_publish_mq (tries n).update (tries n).update_default s.topic last table

      stopped : SendEnd
      stopped = after_loop (suc n) s.name_server_address_list

      rest : MessageQueue → List MessageQueue × SendEnd
      rest mq = send_loop n s tries (tries n).end_timestamp mq.broker_name found.1

      sound : (mq : MessageQueue) → found.0 ≡ some mq → (last ≡ []) ⊎ (mq.broker_name ≢ last)
      sound mq h =
          try_to_find_sound (tries n).update (tries n).update_default s.topic last table mq h

      timed :
          (r : List MessageQueue × SendEnd) (b : Bool)
          → Fair (suc n) last r
          → Fair (suc n) last (if b then r else ([], stopped))
      timed r true f = f
      timed r false f = (tt, omega arith)

  -- A send tries three queues at most, and each retry goes to another broker than the try before it.
  pub send_default_impl-Alternate :
      (table : PublishTable)
      → let queues = (send_default_impl s tries table).0 in
        Alternate [] queues × (length queues ≤ 3)
  unfolding send_default_impl
  send_default_impl-Alternate table = send_loop-Fair 3 s.begin_timestamp [] table

status_of :
    (s : Sender) (k : Kernel) (status : SendStatus)
    → s.mode ≡ sync
    → s.retry_another_broker_when_not_store_ok ≡ true
    → after_try s k ≡ ends (returns status)
    → (k ≡ Kernel.sends send_ok) × (status ≡ send_ok)
unfolding after_try
status_of s k status m r e = ground arith

never_many : (s : Sender) (k : Kernel) → after_try s k ≡ ends SendEnd.retry_many_times → ⊥
unfolding after_try
never_many s k e = ground arith

stopped_otherwise :
    (n : ℕ) (ns : List Bytes)
    → (after_loop (suc n) ns ≢ SendEnd.retry_many_times)
      × ((status : SendStatus) → after_loop (suc n) ns ≢ returns status)
stopped_otherwise n [] = ((λ e. cc), λ status e. cc)
stopped_otherwise n (a ∷ ns) = ((λ e. cc), λ status e. cc)

module _ (s : Sender) (tries : ℕ → Try) (m : s.mode ≡ sync)
    (r : s.retry_another_broker_when_not_store_ok ≡ true) where
  -- How a loop of `n` rounds may end.
  abbrev pub Ended : ℕ → List MessageQueue × SendEnd → Type 0
  Ended n e =
      (e.1 ≡ SendEnd.retry_many_times → length e.0 ≡ n)
      × ((status : SendStatus)
          → e.1 ≡ returns status
          → (status ≡ send_ok)
            × (before : List MessageQueue) × (mq : MessageQueue) × (k : ℕ) × (e.0
                ≡ before ++ mq ∷ [])
            × (k + length e.0 ≡ n)
            × ((tries k).send mq ≡ Kernel.sends send_ok))

  stopped-Ended : (n : ℕ) → Ended (suc n) ([], after_loop (suc n) s.name_server_address_list)
  stopped-Ended n =
      let o = stopped_otherwise n s.name_server_address_list in
      ((λ e. absurd (o.0 e)), λ status e. absurd (o.1 status e))

  ends-Ended :
      (n : ℕ) (mq : MessageQueue) (e : SendEnd)
      → after_try s ((tries n).send mq) ≡ ends e
      → Ended (suc n) (mq ∷ [], e)
  ends-Ended n mq e h = (
    (λ f. absurd (never_many s ((tries n).send mq) (h ∙ ap ends f))),
    λ status f.
        let o = status_of s ((tries n).send mq) status m r (h ∙ ap ends f) in
        (o.1, [], mq, n, refl, omega arith, o.0),
  )

  rest-Ended :
      (n : ℕ) (mq : MessageQueue) (e : List MessageQueue × SendEnd)
      → Ended n e
      → Ended (suc n) (with_queue mq e)
  rest-Ended n mq e o = (
    (λ f. ap suc (o.0 f)),
    λ status f.
        let p = o.1 status f in
        (p.0, mq ∷ p.1, p.2, p.3, ap (λ l. mq ∷ l) p.4, omega (arith, p.5), p.6),
  )

  send_loop-Ended :
      (n : ℕ) (now : ℕ) (last : Bytes) (table : PublishTable)
      → Ended n (send_loop n s tries now last table)
  unfolding send_loop
  send_loop-Ended zero now last table = ((λ e. refl), λ status e. absurd (cc e))
  send_loop-Ended (suc n) now last table =
      timed (tried s (tries n) found.0 stopped rest)
        (ltb now (s.begin_timestamp + s.send_msg_timeout))
        (try_cases (Ended (suc n)) s (tries n) found.0 stopped rest (stopped-Ended n)
          (λ mq e h k. ends-Ended n mq e k)
          λ mq h.
            rest-Ended n mq (rest mq)
              (send_loop-Ended n (tries n).end_timestamp mq.broker_name found.1))
    where
      found : Option MessageQueue × PublishTable
      found =
          try_to_find_topic_publish_mq (tries n).update (tries n).update_default s.topic last table

      stopped : SendEnd
      stopped = after_loop (suc n) s.name_server_address_list

      rest : MessageQueue → List MessageQueue × SendEnd
      rest mq = send_loop n s tries (tries n).end_timestamp mq.broker_name found.1

      timed :
          (x : List MessageQueue × SendEnd) (b : Bool)
          → Ended (suc n) x
          → Ended (suc n) (if b then x else ([], stopped))
      timed x true f = f
      timed x false f = stopped-Ended n

  -- A synchronous send that retries when the message is not stored well returns no other status than
  -- SEND_OK, which the broker of the last queue tried has given in this try (the tries are numbered down from
  -- 2); it fails with "Retry many times" only after three tries.
  pub send_default_impl-Ended :
      (table : PublishTable)
      → let o = send_default_impl s tries table in
        (o.1 ≡ SendEnd.retry_many_times → length o.0 ≡ 3)
        × ((status : SendStatus)
            → o.1 ≡ returns status
            → (status ≡ send_ok)
              × (before : List MessageQueue) × (mq : MessageQueue) × (k : ℕ) × (o.0
                  ≡ before ++ mq ∷ [])
              × (k + length o.0 ≡ 3)
              × ((tries k).send mq ≡ Kernel.sends send_ok))
  unfolding send_default_impl
  send_default_impl-Ended table = send_loop-Ended 3 s.begin_timestamp [] table
