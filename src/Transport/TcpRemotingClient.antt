-- ===== src/Transport/TcpRemotingClient.antt =====
-- src/transport/TcpRemotingClient.cpp and src/transport/ResponseFuture.cpp: the table of the requests that wait
-- for a response. A step of a thread is an operation on the state, and `none` is an access to an object that has
-- been deleted, or `erase` of `end()`. What the source does under m_mutexResp is one step, and what a thread
-- does after it has unlocked is another; a pool thread sets a response in one step and notifies the waiter in
-- the next. Sockets are not part of the state: whether SendCmd succeeds is an argument, by the operation that
-- is called.
pub mod Table
mod Tests
use test.Prelude.{
  ℕ, zero, suc, ◌+◌, ◌≡◌, Bool, true, false, Bytes, ◌==◌, Option, none, some, List, [], ◌∷◌, ◌++◌,
  if◌then◌else◌,
}
use test.Prelude.Int.{ℤ, pos, ◌+ℤ◌, ◌-ℤ◌, ltb_ℤ}
use test.Prelude.Options.{◌>>=◌}
use test.SortedMap.{Map, lookup, insert, erase}
use test.SortedMap.Keys.{ℤ_order}

-- A RemotingCommand that has been decoded.
pub record RemotingCommand : Type 0 where
  pub opaque : ℤ
  pub code : ℤ
  pub is_response : Bool
  pub body : Bytes

-- An InvokeCallback is a number. `block` is whether there is a monitor.
pub record ResponseFuture : Type 0 where
  pub request_code : ℤ
  pub opaque : ℤ
  pub timeout_millis : ℤ
  pub callback : Option ℕ
  pub block : Bool
  pub begin_timestamp : ℤ
  pub response : Option RemotingCommand
  pub send_request_ok : Bool
  pub notified : Bool
  pub exec : ℕ

-- A call of operationComplete: the object, its callback and what getResponseCommand gives to it.
pub record Completion : Type 0 where
  pub object : ℕ
  pub callback : ℕ
  pub response : Option RemotingCommand

-- What a thread has still to do with an object that it has taken out of the table: nothing, or to complete it
-- with a response, or with none where SendCmd has failed, or, in putResponse, to lock its monitor and to
-- notify.
pub data Work : Type 0 where
  idle : Work
  took : Option RemotingCommand → Work
  notifies : Work

-- The objects that live, by their addresses; the next address; m_responseTable; m_processorTable; the calls
-- made so far of operationComplete and of processRequest; and the work of the threads, by the object.
pub record Client : Type 0 where
  pub objects : ℕ → Option ResponseFuture
  pub next : ℕ
  pub response_table : Map ℤ ℕ
  pub processor_table : Map ℤ ℕ
  pub completed : List Completion
  pub processed : List (ℕ × RemotingCommand)
  pub work : ℕ → Work

abbrev pub store :
    ℕ → Option ResponseFuture → (ℕ → Option ResponseFuture) → ℕ → Option ResponseFuture
store a f objects b = if b == a then f else objects b

abbrev pub set_work : ℕ → Work → (ℕ → Work) → ℕ → Work
set_work a w work b = if b == a then w else work b

-- The constructor of ResponseFuture.
abbrev pub new_future : RemotingCommand → ℤ → Option ℕ → Bool → ℤ → ResponseFuture
new_future request timeout callback block now = record {
  request_code = request.code;
  opaque = request.opaque;
  timeout_millis = timeout;
  callback = callback;
  block = block;
  begin_timestamp = now;
  response = none;
  send_request_ok = false;
  notified = false;
  exec = 0;
}

abbrev pub is_timeout : ℤ → ResponseFuture → Bool
is_timeout now f = ltb_ℤ f.timeout_millis (now -ℤ f.begin_timestamp)

-- The part of putResponse under the monitor's lock.
abbrev pub notify : ResponseFuture → ResponseFuture
notify f = if f.block then record f { notified = true } else f

-- putResponse in one step: for an object with a callback, on which no thread waits, or for NULL, which a
-- waiter cannot tell from what was there.
abbrev pub put_response : Option RemotingCommand → ResponseFuture → ResponseFuture
put_response r f = notify (record f { response = r })

-- executeInvokeCallback
abbrev pub execute_invoke_callback : ℕ → ResponseFuture → Client → Client
execute_invoke_callback a f c = elim f.callback [
  | none ↦ c
  | some k ↦ record c {
    objects = store a (some (record f { exec = suc f.exec })) c.objects;
    completed =
        if f.exec == 0
        then c.completed ++ record { object = a; callback = k; response = f.response } ∷ []
        else c.completed;
  }
]

abbrev pub delete : ℕ → Client → Client
delete a c = record c { objects = store a none c.objects }

-- What HandleTimerEvent does with an object that has left the table.
unfoldable pub finish : ℕ → Option RemotingCommand → Client → Option Client
finish a r c = elim (c.objects a) [
  | none ↦ none
  | some f ↦
      let g = put_response r f in
      let d = record c { objects = store a (some g) c.objects } in
      elim g.callback [ none ↦ some d | some k ↦ some (delete a (execute_invoke_callback a g d)) ]
]

-- The loop of HandleTimerEvent, with the entries that are still to be visited.
unfoldable pub expire : ℤ → Map ℤ ℕ → Client → Option Client
expire now [] c = some c
expire now ((opaque, a) ∷ entries) c = elim (c.objects a) [
  | none ↦ none
  | some f ↦ elim (is_timeout now f) [
    | true ↦ do
      d ← finish a none (record c { response_table = erase opaque c.response_table })
      expire now entries d
    | false ↦ expire now entries c
  ]
]

-- HandleTimerEvent; the second number is the static s_LastTimer.
unfoldable pub handle_timer_event : ℤ → ℤ → ℤ → Client → Option (Client × ℤ)
handle_timer_event tm last now c =
    if ltb_ℤ tm (last +ℤ pos 10)
    then some (c, last)
    else do d ← expire now c.response_table c; some (d, tm)

abbrev pub process_request_command : RemotingCommand → Client → Client
process_request_command cmd c = elim (lookup cmd.code c.processor_table) [
  | none ↦ c
  | some p ↦ record c { processed = c.processed ++ (p, cmd) ∷ [] }
]

-- ProcessData, from the command that CreateRemotingCommand makes of the data, until m_mutexResp is unlocked:
-- a request is processed, and the response to one that waits is left to do.
unfoldable pub process_data : RemotingCommand → Client → Option Client
process_data cmd c = elim cmd.is_response [
  | false ↦ some (process_request_command cmd c)
  | true ↦ elim (lookup cmd.opaque c.response_table) [
    | none ↦ some c
    | some a ↦ elim (c.objects a) [
      | none ↦ none
      | some f ↦ some (record c {
        response_table = erase cmd.opaque c.response_table;
        work = set_work a (Work.took (some cmd)) c.work;
      })
    ]
  ]
]

-- processResponseCommand; without a callback, until putResponse locks the monitor.
unfoldable pub process_response_command : ℕ → RemotingCommand → Client → Option Client
process_response_command a cmd c = elim (c.objects a) [
  | none ↦ none
  | some f ↦ elim f.callback [
    | none ↦ some (record c {
      objects = store a (some (record f { response = some cmd })) c.objects;
      work = set_work a Work.notifies c.work;
    })
    | some k ↦
        let g = put_response (some cmd) f in
        let d = record c {
          objects = store a (some g) c.objects;
          work = set_work a Work.idle c.work;
        } in
        some (delete a (execute_invoke_callback a g d))
  ]
]

-- The rest of putResponse.
unfoldable pub notify_waiter : ℕ → Client → Option Client
notify_waiter a c = elim (c.objects a) [
  | none ↦ none
  | some f ↦ some (record c {
    objects = store a (some (notify f)) c.objects;
    work = set_work a Work.idle c.work;
  })
]

-- How invokeSyncImpl (with no callback, and block) and invokeAsyncImpl (the reverse) start. `insert` of a
-- std::map leaves an entry that there is.
unfoldable pub begin : RemotingCommand → ℤ → Option ℕ → Bool → ℤ → Client → Client
begin request timeout callback block now c = record c {
  objects = store c.next (some (new_future request timeout callback block now)) c.objects;
  next = suc c.next;
  response_table = elim (lookup request.opaque c.response_table) [
    | none ↦ insert request.opaque c.next c.response_table
    | some a ↦ c.response_table
  ];
}

-- setSendRequestOK
unfoldable pub set_send_request_ok : ℕ → Bool → Client → Option Client
set_send_request_ok a ok c = do
  f ← c.objects a
  some (record c { objects = store a (some (record f { send_request_ok = ok })) c.objects })

-- invokeSyncImpl after SendCmd has failed.
unfoldable pub sync_failed : ℕ → ℤ → Client → Option Client
sync_failed a opaque c = do
  d ← set_send_request_ok a false c
  some (delete a (record d { response_table = erase opaque d.response_table }))

-- invokeAsyncImpl after SendCmd has failed, until m_mutexResp is unlocked.
unfoldable pub async_unlisted : ℕ → ℤ → Client → Option Client
async_unlisted a opaque c = do
  d ← set_send_request_ok a false c
  _ ← lookup opaque d.response_table
  some (record d {
    response_table = erase opaque d.response_table;
    work = set_work a (Work.took none) d.work;
  })

-- The rest of it.
unfoldable pub async_finished : ℕ → Client → Option Client
async_finished a c = do
  f ← c.objects a
  some (delete a (execute_invoke_callback a f (record c { work = set_work a Work.idle c.work })))

-- Both, where no other thread comes between.
unfoldable pub async_failed : ℕ → ℤ → Client → Option Client
async_failed a opaque c = do d ← async_unlisted a opaque c; async_finished a d

-- invokeSyncImpl after SendCmd has succeeded, when waitResponse returns.
unfoldable pub sync_done : ℕ → Client → Option (Client × Option RemotingCommand)
sync_done a c = elim (c.objects a) [
  | none ↦ none
  | some f ↦ elim f.response [ none ↦ some (c, none) | some r ↦ some (delete a c, some r) ]
]
