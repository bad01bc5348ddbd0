-- ===== src/Client.antt =====
-- What happens to a client from its start until it is closed, as a step relation: the loop's
-- callbacks, and the threads that call `ssn_send` and `ssn_connect`. Besides the loop's state it
-- follows what libuv and the callers hold.
pub mod Sound
pub mod Serves
pub mod Early
pub mod Closing
use Prim.Native.String.{String}
use udpboardcast.Base.{
  ℕ, ◌+◌, ◌^◌, ◌<◌, ◌≡◌, Bool, true, false, ◌&&◌, List, [], Option, none, some, ◌==◌, if◌then◌else◌,
}
use udpboardcast.ClientLoop.{
  Ptr, put, is_rw, Task, TimerData, ClientLoop, ok, cl_conn_find, cl_conn_find2,
}
use udpboardcast.ClientLoop.Tasks.{write_cb, timer_cb}
use udpboardcast.ClientLoop.Connect.{connect_cb}
use udpboardcast.ClientLoop.Read.{Nread, read_cb, close_cb, timer_close_cb}
use udpboardcast.ClientLoop.Async.{UvResults, async_cb}
use udpboardcast.Interface.{submitted, ssn_send, ssn_connect}
use udpboardcast.Interface.Startup.{ssn_startup_client}

-- The loop; the counter of task ids; which tasks are on their way to the loop, each with a
-- `uv_async_t`; which are in a `uv_write_t`; and for which task id a connection is in a
-- `uv_connect_t`.
pub record Client : Type 0 where
  pub loop : ClientLoop
  pub counter : ℕ
  pub mail : Ptr → Bool
  pub writing : Ptr → Bool
  pub connecting : Ptr → Option ℕ

abbrev pub mark : (Ptr → Bool) → Ptr → Bool → Ptr → Bool
mark m p b q = if q == p then b else m q

-- The client once `ssn_startup_client` has returned.
abbrev blank : ClientLoop
blank = record {
  running = false;
  inited = false;
  conn_table = [];
  task_table = [];
  timer_table = [];
  tasks = λ p. none;
  conns = λ c. none;
  timers = λ q. none;
  next_ptr = 0;
  next_conn_id = 0;
  events = [];
}

unfoldable pub started : Client
unfolding ssn_startup_client
started = record {
  loop = ssn_startup_client blank;
  counter = 0;
  mail = λ p. false;
  writing = λ p. false;
  connecting = λ c. none;
}

-- Whether `async_cb` leaves a write of the request `t` with libuv: `_do_write` is called and
-- returns 0.
unfoldable pub write_begun : Task → UvResults → ClientLoop → Bool
unfolding cl_conn_find
write_begun t uv s =
    is_rw t.task_type && elim (cl_conn_find t.conn_id s) [ none ↦ false | some _ ↦ uv.written == 0 ]

-- Whether it leaves a connection request: `uv_tcp_connect` is called and returns 0.
unfoldable pub connect_begun : Task → UvResults → ClientLoop → Bool
unfolding cl_conn_find2
connect_begun t uv s = elim (is_rw t.task_type) [
  | true ↦ false
  | false ↦ elim (cl_conn_find2 t.ip s) [
    | some _ ↦ false
    | none ↦ uv.inited == 0 && uv.connected == 0
  ]
]

-- The client after `async_cb` has taken the task `t` at `p` from the state `s` to `s'`.
abbrev pub taken : Ptr → Task → UvResults → Client → ClientLoop → Client
taken p t uv k s' = record k {
  loop = s';
  mail = mark k.mail p false;
  writing = if write_begun t uv k.loop then mark k.writing p true else k.writing;
  connecting =
      if connect_begun t uv k.loop
      then put k.connecting k.loop.next_ptr (some t.task_id)
      else k.connecting;
}

-- One step that does not fault, in the order that `reads` names.
pub data Step : Client → Client → Type 0 where
  -- A caller hands over its task, which lies at an unused address of its stack. The ids of the
  -- tasks have not run out.
  sends :
      {k : Client} {s' : ClientLoop} {n : ℕ} (p : Ptr) (stale conn_id : ℕ)
      (indata : Option (List ℕ)) (given : Bool) (timeout : ℕ)
      → k.loop.tasks p ≡ none
      → k.counter + 1 < 2 ^ 64
      → ssn_send p stale k.counter conn_id indata given timeout k.loop ≡ submitted n s'
      → Step k (record k { loop = s'; counter = n; mail = mark k.mail p true })
  connects :
      {k : Client} {s' : ClientLoop} {n : ℕ} (p : Ptr) (stale : ℕ) (ip : Option String)
      (timeout : ℕ)
      → k.loop.tasks p ≡ none
      → k.counter + 1 < 2 ^ 64
      → ssn_connect p stale k.counter ip timeout k.loop ≡ submitted n s'
      → Step k (record k { loop = s'; counter = n; mail = mark k.mail p true })
  -- A call whose task has been woken returns.
  returns :
      {k : Client} (p : Ptr) (t : Task)
      → k.loop.tasks p ≡ some t
      → t.notified ≡ 1
      → Step k (record k { loop = record (k.loop) { tasks = put k.loop.tasks p none } })
  takes :
      {k : Client} {s' : ClientLoop} (p : Ptr) (t : Task) (uv : UvResults)
      → k.mail p ≡ true
      → k.loop.tasks p ≡ some t
      → async_cb p uv k.loop ≡ ok s'
      → Step k (taken p t uv k s')
  writes :
      {k : Client} {s' : ClientLoop} (p : Ptr) (status : ℕ)
      → k.writing p ≡ true
      → write_cb p status k.loop ≡ ok s'
      → Step k (record k { loop = s'; writing = mark k.writing p false })
  joins :
      {k : Client} {s' : ClientLoop} (c : Ptr) (id status : ℕ)
      → k.connecting c ≡ some id
      → connect_cb id c status k.loop ≡ ok s'
      → Step k (record k { loop = s'; connecting = put k.connecting c none })
  -- No answer comes to a request before `write_cb` for its write. libuv documents no such order:
  -- Client/Early says what happens otherwise.
  reads :
      {k : Client} {s' : ClientLoop} (c : Ptr) (nread : Nread)
      → ((p : Ptr) → k.writing p ≡ true → s'.tasks p ≡ k.loop.tasks p)
      → read_cb c nread k.loop ≡ ok s'
      → Step k (record k { loop = s' })
  times_out :
      {k : Client} {s' : ClientLoop} (q : Ptr) (td : TimerData)
      → k.loop.timers q ≡ some td
      → td.closing ≡ false
      → timer_cb q k.loop ≡ ok s'
      → Step k (record k { loop = s' })
  -- libuv ends a connection request before it calls `close_cb`.
  closes :
      {k : Client} {s' : ClientLoop} (c : Ptr)
      → k.connecting c ≡ none
      → close_cb c k.loop ≡ ok s'
      → Step k (record k { loop = s' })
  timer_closes :
      {k : Client} {s' : ClientLoop} (q : Ptr) (td : TimerData)
      → k.loop.timers q ≡ some td
      → td.closing ≡ true
      → timer_close_cb q k.loop ≡ ok s'
      → Step k (record k { loop = s' })

pub data Runs : Client → Client → Type 0 where
  stop : {k : Client} → Runs k k
  step : {k k' k'' : Client} → Runs k k' → Step k' k'' → Runs k k''
