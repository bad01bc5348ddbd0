-- ===== src/ClientLoop/Connect.antt =====
-- Connecting: `_do_connect` and `connect_cb` of Communication/core/comm_core.cpp.
use udpboardcast.Base.{ℕ, ◌+◌, true, false, none, some, ltb, ◌==◌, if◌then◌else◌}
use udpboardcast.Stream.{fresh_tcp}
use udpboardcast.GenId.{invalid_connid, apply_conn_id}
use udpboardcast.Errors.{err_conn_already_exist}
use udpboardcast.ClientLoop.{
  Ptr, Conn, Task, conn_changed, ClientLoop, Outcome, ok, fault, ◌>>=◌, with_task, with_conn,
  set_conn, set_err, close_conn, cl_task_find, cl_task_del, cl_conn_add, cl_conn_find2, report,
}
use udpboardcast.ClientLoop.Tasks.{finish_task, drop_timer, start_timer}

-- A new connection object for the address of the task, after `init_tcp_conn`.
abbrev pub fresh_conn : Task → Conn
fresh_conn t = record {
  conn_id = invalid_connid;
  ip = t.ip;
  tcp = fresh_tcp;
  reading = false;
  closing = false;
}

unfoldable pub new_conn : Task → ClientLoop → ClientLoop
unfolding set_conn
new_conn t s = set_conn s.next_ptr (fresh_conn t) (record s { next_ptr = s.next_ptr + 1 })

-- `_do_connect` returned 0, or -1 with `task->err` set, or broke memory.
pub data Started : Type 0 where
  started refused : ClientLoop → Started
  broken : Started

abbrev pub refused_at : Outcome → Started
refused_at (ok s) = refused s
refused_at fault = broken

-- `task->err = e; ... return -1;`
unfoldable pub refuse : Ptr → ℕ → Outcome → Started
refuse p e o = refused_at (o >>= set_err p e)

-- `if (ct->timeout > 0) { ... }`: the timer closes the handle if it runs out.
unfoldable pub await_connect : Task → Ptr → ClientLoop → ClientLoop
unfolding start_timer
await_connect t c s = if ltb 0 t.timeout then start_timer t.task_id (some c) s else s

-- What follows the search for the address. `init_tcp_conn` returned `inited` and `uv_tcp_connect`
-- returned `connected`. A connection object whose `init_tcp_conn` fails is deleted at once.
unfoldable pub ask_connect : Ptr → Task → (inited connected : ℕ) → ClientLoop → Started
ask_connect p t inited connected s =
    if inited == 0
    then if connected == 0
      then started (await_connect t s.next_ptr (new_conn t s))
      else refuse p connected (close_conn s.next_ptr (new_conn t s))
    else refuse p inited (ok s)

-- `_do_connect`.
unfoldable pub do_connect : Ptr → Task → (inited connected : ℕ) → ClientLoop → Started
do_connect p t inited connected s = elim (cl_conn_find2 t.ip s) [
  | some _ ↦ refuse p err_conn_already_exist (ok s)
  | none ↦ ask_connect p t inited connected s
]

-- The new connection enters the table under a new id, and is read from then on.
unfoldable pub establish : Ptr → ClientLoop → Outcome
establish c s =
    let (id, counter) = apply_conn_id s.next_conn_id in
    with_conn c s λ x.
      cl_conn_add id c
        (set_conn c (record x { conn_id = id }) (record s { next_conn_id = counter }))
      >>= λ s.
          with_conn c s λ x.
            ok (set_conn c (record x { reading = true }) (report (conn_changed id x.ip true) s))

-- `connect_cb` for the request with `taskId = id` and the connection at `c`. A task that has timed
-- out is gone from the table, and its timer has closed the handle.
unfoldable pub connect_cb : (id : ℕ) → (c : Ptr) → (status : ℕ) → ClientLoop → Outcome
connect_cb id c status s = elim (cl_task_find id s) [
  | none ↦ ok s
  | some p ↦ with_task p (cl_task_del id s) λ t.
      drop_timer t.task_id (cl_task_del id s)
      >>= (λ s.
          if status == 0
          then establish c s >>= set_err p 0
          else close_conn c s >>= set_err p status)
      >>= finish_task p
]
