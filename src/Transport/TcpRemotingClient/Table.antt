-- ===== src/Transport/TcpRemotingClient/Table.antt =====
-- What holds of the table of requests while threads start requests, receive responses and let requests time out.
pub mod Settled
pub mod Starts
pub mod Steps
pub mod Responses
pub mod Failures
pub mod Expiry
pub mod Answered
use test.Prelude.{
  ℕ, zero, suc, ◌+◌, ◌≤◌, ◌<◌, ◌≡◌, ◌≢◌, ◌⊎◌, Bool, true, false, ◌==◌, Option, none, some, List, [],
  ◌∷◌, if◌then◌else◌,
}
use test.Prelude.Int.{ℤ}
use test.SortedMap.{Map, lookup, IsOrdered}
use test.SortedMap.Keys.{ℤ_order}
use test.Transport.TcpRemotingClient.{
  RemotingCommand, ResponseFuture, Completion, Client, begin, set_send_request_ok, sync_failed,
  async_unlisted, async_finished, sync_done, expire, process_data, process_response_command,
  notify_waiter, Work,
}

-- No object that lives has the number `opaque`.
abbrev pub Unused : ℤ → Client → Type 0
Unused opaque c = (b : ℕ) (g : ResponseFuture) → c.objects b ≡ some g → g.opaque ≢ opaque

abbrev pub new_client : Map ℤ ℕ → Client
new_client processors = record {
  objects = λ a. none;
  next = 0;
  response_table = [];
  processor_table = processors;
  completed = [];
  processed = [];
  work = λ a. Work.idle;
}

-- The states that steps of threads, in any order, lead to, with the objects of the requests that
-- invokeAsyncImpl has started. A request starts with a number that no object has; the thread that
-- started one says what became of SendCmd, or takes the response; no response comes to a synchronous request that
-- could not be sent; and a thread does what it has still to do with an object, at any time.
pub data Run : List ℕ → Client → Type 0 where
  start : (processors : Map ℤ ℕ) → Run [] (new_client processors)
  async_began :
      (begun : List ℕ) (c : Client) (request : RemotingCommand) (timeout : ℤ) (k : ℕ) (now : ℤ)
      → Run begun c
      → Unused request.opaque c
      → Run (c.next ∷ begun) (begin request timeout (some k) false now c)
  sync_began :
      (begun : List ℕ) (c : Client) (request : RemotingCommand) (timeout now : ℤ)
      → Run begun c
      → Unused request.opaque c
      → Run begun (begin request timeout none true now c)
  sent :
      (begun : List ℕ) (c d : Client) (a : ℕ)
      → Run begun c
      → set_send_request_ok a true c ≡ some d
      → Run begun d
  sync_fails :
      (begun : List ℕ) (c d : Client) (a : ℕ) (f : ResponseFuture)
      → Run begun c
      → c.objects a ≡ some f
      → f.callback ≡ none
      → c.work a ≡ Work.idle
      → sync_failed a f.opaque c ≡ some d
      → Run begun d
  async_fails :
      (begun : List ℕ) (c d : Client) (a k : ℕ) (f : ResponseFuture)
      → Run begun c
      → c.objects a ≡ some f
      → f.callback ≡ some k
      → async_unlisted a f.opaque c ≡ some d
      → Run begun d
  async_ends :
      (begun : List ℕ) (c d : Client) (a : ℕ)
      → Run begun c
      → c.work a ≡ Work.took none
      → async_finished a c ≡ some d
      → Run begun d
  sync_returns :
      (begun : List ℕ) (c d : Client) (a : ℕ) (f : ResponseFuture) (r : Option RemotingCommand)
      → Run begun c
      → c.objects a ≡ some f
      → f.callback ≡ none
      → sync_done a c ≡ some (d, r)
      → Run begun d
  time_passes :
      (begun : List ℕ) (c d : Client) (now : ℤ)
      → Run begun c
      → expire now c.response_table c ≡ some d
      → Run begun d
  received :
      (begun : List ℕ) (c d : Client) (cmd : RemotingCommand)
      → Run begun c
      → process_data cmd c ≡ some d
      → Run begun d
  responds :
      (begun : List ℕ) (c d : Client) (a : ℕ) (cmd : RemotingCommand)
      → Run begun c
      → c.work a ≡ Work.took (some cmd)
      → process_response_command a cmd c ≡ some d
      → Run begun d
  wakes :
      (begun : List ℕ) (c d : Client) (a : ℕ)
      → Run begun c
      → c.work a ≡ Work.notifies
      → notify_waiter a c ≡ some d
      → Run begun d

abbrev pub times : ℕ → List ℕ → ℕ
times a [] = 0
times a (b ∷ l) = if b == a then suc (times a l) else times a l

-- How often operationComplete has been called for an object.
abbrev pub calls : ℕ → List Completion → ℕ
calls a [] = 0
calls a (e ∷ l) = if e.object == a then suc (calls a l) else calls a l

-- 1 for an object with a callback that lives.
abbrev pub pending_object : Option ResponseFuture → ℕ
pending_object none = 0
pending_object (some f) = elim f.callback [ none ↦ 0 | some k ↦ 1 ]

abbrev pub pending : ℕ → Client → ℕ
pending a c = pending_object (c.objects a)

abbrev pub Waits : Client → ℤ → ℕ → Type 0
Waits c opaque a =
    (f : ResponseFuture) × (c.objects a ≡ some f)
    × (f.opaque ≡ opaque)
    × (f.exec ≡ 0)
    × (f.response ≡ none)
    × (c.work a ≡ Work.idle)

-- A thread has taken the object out of the table and is still to complete it.
abbrev pub IsHeld : Client → ℕ → Type 0
IsHeld c a = (r : Option RemotingCommand) × (c.work a ≡ Work.took r)

-- What every step keeps.
pub record Sound (begun : List ℕ) (c : Client) : Type 0 where
  pub table_IsOrdered : IsOrdered c.response_table
  pub entry : (opaque : ℤ) (a : ℕ) → lookup opaque c.response_table ≡ some a → Waits c opaque a
  pub below : (a : ℕ) (f : ResponseFuture) → c.objects a ≡ some f → a < c.next
  pub listed :
      (a k : ℕ) (f : ResponseFuture)
      → c.objects a ≡ some f
      → f.callback ≡ some k
      → (lookup f.opaque c.response_table ≡ some a) ⊎ IsHeld c a
  pub held :
      (a : ℕ) (r : Option RemotingCommand)
      → c.work a ≡ Work.took r
      → (f : ResponseFuture) × (c.objects a ≡ some f) × (f.exec ≡ 0) × (f.response ≡ none)
  pub quiet : (a : ℕ) → c.next ≤ a → c.work a ≡ Work.idle
  pub alone :
      (a b : ℕ) (f g : ResponseFuture)
      → c.objects a ≡ some f
      → c.objects b ≡ some g
      → f.opaque ≡ g.opaque
      → a ≡ b
  pub answered : (a : ℕ) → calls a c.completed + pending a c ≡ times a begun
  pub begun_below : (a : ℕ) → c.next ≤ a → times a begun ≡ 0
  pub begun_once : (a : ℕ) → times a begun ≤ 1
