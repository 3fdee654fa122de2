-- ===== src/Transport/TcpRemotingClient/Tests.antt =====
-- One request: it starts, waits, and its time is up.
use test.Prelude.{ℕ, ◌≡◌, ◌⊎◌, refl, true, false, none, some, [], ◌∷◌}
use mathlib.Core.List.{mem-cons_self}
use test.Prelude.Int.{ℤ, pos, ◌-ℤ◌, ◌+ℤ◌}
use test.SortedMap.{lookup, insert, erase}
use test.SortedMap.Keys.{ℤ_order}
use test.Transport.TcpRemotingClient.{
  RemotingCommand, ResponseFuture, Client, store, new_future, begin, finish, expire,
  handle_timer_event, process_data, is_timeout, set_send_request_ok, async_failed, Work, set_work,
  process_response_command,
}
use test.Transport.TcpRemotingClient.Table.{Run, new_client, calls, IsHeld}
use test.Transport.TcpRemotingClient.Table.Answered.{
  Pending, Run-answered, process_response_command-answered, Run-defined,
  handle_timer_event-answered, async_failed-after_timeout,
}

abbrev request : RemotingCommand
request = record { opaque = pos 1; code = pos 11; is_response = false; body = [] }

abbrev waiting : Client
waiting = begin request (pos 100) (some 7) false (pos 0) (new_client [])

waiting-Run : Run (0 ∷ []) waiting
waiting-Run =
    Run.async_began [] (new_client []) request (pos 100) 7 (pos 0) (Run.start []) (λ b g h. cc h)

Run-answered_example :
    (calls 0 waiting.completed ≡ 1) ⊎ ((calls 0 waiting.completed ≡ 0) × Pending 0 waiting)
Run-answered_example = Run-answered (0 ∷ []) waiting 0 waiting-Run mem-cons_self

abbrev answer : RemotingCommand
answer = record { opaque = pos 1; code = pos 0; is_response = true; body = [] }

Run-defined_example :
    ((r : Client × ℤ) × (handle_timer_event (pos 1000) (pos 0) (pos 101) waiting ≡ some r))
    × ((d : Client) × (process_data answer waiting ≡ some d))
    × ((a : ℕ) (response : RemotingCommand)
        → waiting.work a ≡ Work.took (some response)
        → (d : Client) × (process_response_command a response waiting ≡ some d))
Run-defined_example = Run-defined (0 ∷ []) waiting (pos 1000) (pos 0) (pos 101) answer waiting-Run

abbrev future : ResponseFuture
future = new_future request (pos 100) (some 7) false (pos 0)

abbrev expired : Client
expired = record {
  objects =
      store 0 none
        (store 0 (some (record future { exec = 1 })) (store 0 (some future) waiting.objects));
  next = 1;
  response_table = [];
  processor_table = [];
  completed = record { object = 0; callback = 7; response = none } ∷ [];
  processed = [];
  work = λ a. Work.idle;
}

expires : handle_timer_event (pos 1000) (pos 0) (pos 101) waiting ≡ some (expired, pos 1000)
unfolding handle_timer_event expire finish begin lookup insert erase ◌-ℤ◌ ◌+ℤ◌
expires = refl

handle_timer_event-answered_example :
    (calls 0 expired.completed ≡ 1)
    ⊎ ((calls 0 expired.completed ≡ 0)
        × ((f : ResponseFuture) × (expired.objects 0 ≡ some f)
            × ((is_timeout (pos 101) f ≡ false) ⊎ IsHeld expired 0)))
unfolding ◌+ℤ◌
handle_timer_event-answered_example =
    handle_timer_event-answered (0 ∷ []) waiting expired (pos 1000) (pos 0) (pos 101) (pos 1000) 0
      waiting-Run mem-cons_self refl expires

async_failed-after_timeout_example :
    (set_send_request_ok 0 true expired ≡ none) × (async_failed 0 (pos 1) expired ≡ none)
unfolding begin ◌-ℤ◌ ◌+ℤ◌
async_failed-after_timeout_example =
    async_failed-after_timeout (0 ∷ []) waiting expired (pos 1000) (pos 0) (pos 101) (pos 1000) 0 7
      future waiting-Run refl refl refl refl refl expires

-- The answer to the request has come, and a pool thread has it.
abbrev answered : Client
answered = record waiting {
  response_table = [];
  work = set_work 0 (Work.took (some answer)) (new_client []).work;
}

answered-Run : Run (0 ∷ []) answered
unfolding process_data begin lookup insert erase
answered-Run = Run.received (0 ∷ []) waiting answered answer waiting-Run refl

process_response_command-answered_example :
    (d : Client) × (process_response_command 0 answer answered ≡ some d) × (calls 0 d.completed ≡ 1)
unfolding begin
process_response_command-answered_example =
    process_response_command-answered (0 ∷ []) answered 0 7 future answer answered-Run mem-cons_self
      refl refl refl

abbrev waiting_sync : Client
waiting_sync = begin request (pos 100) none true (pos 0) (new_client [])

abbrev answered_sync : Client
answered_sync = record waiting_sync {
  response_table = [];
  work = set_work 0 (Work.took (some answer)) (new_client []).work;
}
