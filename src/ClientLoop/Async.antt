-- ===== src/ClientLoop/Async.antt =====
-- The tasks that callers hand to the client loop: `async_cb` and `_client_shutdown` of
-- Communication/core/comm_core.cpp.
use udpboardcast.Base.{ℕ, false, ◌&&◌, List, [], ◌∷◌, none, some, ◌==◌, if◌then◌else◌}
use udpboardcast.Table.{values}
use udpboardcast.Errors.{err_not_ready, err_conn_not_exist, err_shutdown}
use udpboardcast.ClientLoop.{
  Ptr, rw_type, push_type, resp_type, connect_type, close_type, Task, ClientLoop, Outcome, ok,
  fault, ◌>>=◌, with_task, with_conn, with_timer, set_conn, close_conn, close_timer, close_target,
  cl_task_add, cl_conn_find,
}
use udpboardcast.ClientLoop.Tasks.{finish_task, fail_task}
use udpboardcast.ClientLoop.Connect.{Started, started, refused, broken, do_connect}

-- What libuv answers to the calls that one task makes: `init_tcp_conn`, `uv_tcp_connect` and
-- `uv_write` return these, 0 for success.
pub record UvResults : Type 0 where
  pub inited : ℕ
  pub connected : ℕ
  pub written : ℕ

-- A loop of the shutdown over the values of a table.
unfoldable pub for_each : (Ptr → ClientLoop → Outcome) → List Ptr → ClientLoop → Outcome
for_each body [] s = ok s
for_each body (p ∷ ps) s = body p s >>= for_each body ps

unfoldable pub stop_conn : Ptr → ClientLoop → Outcome
stop_conn c s = with_conn c s λ x. close_conn c (set_conn c (record x { reading = false }) s)

unfoldable pub stop_timer : Ptr → ClientLoop → Outcome
stop_timer q s = with_timer q s λ td. close_timer q s >>= close_target td.target

unfoldable pub shut_task : Ptr → ClientLoop → Outcome
shut_task p s = fail_task p err_shutdown s

-- `_client_shutdown`, and the last line of `_do_shutdown`. The tables are copied before each loop.
unfoldable pub client_shutdown : ClientLoop → Outcome
client_shutdown s =
    for_each stop_conn (values s.conn_table) (record s { running = false })
    >>= (λ s. for_each stop_timer (values s.timer_table) s)
    >>= (λ s. ok (record s { timer_table = []; conn_table = [] }))
    >>= (λ s. for_each shut_task (values s.task_table) s)
    >>= (λ s. ok (record s { task_table = [] }))

-- The case `RW`: the request waits in the table, unless there is no such connection or the write
-- fails at once.
unfoldable pub send_request : Ptr → Task → UvResults → ClientLoop → Outcome
send_request p t uv s = elim (cl_conn_find t.conn_id s) [
  | none ↦ fail_task p err_conn_not_exist s
  | some c ↦ if uv.written == 0 then ok s else fail_task p uv.written s
]

-- A task whose connection could not be asked for has failed.
abbrev pub connect_started : Ptr → Started → Outcome
connect_started p (started s) = ok s
connect_started p (refused s) = finish_task p s
connect_started p broken = fault

-- The case `CONNECT`.
unfoldable pub start_connect : Ptr → Task → UvResults → ClientLoop → Outcome
start_connect p t uv s = connect_started p (do_connect p t uv.inited uv.connected s)

-- The `switch` of `async_cb` on the client loop. `PUSH` and `RESP` tasks are handed to the server
-- loop only.
unfoldable pub run_task : Ptr → UvResults → Task → ClientLoop → Outcome
run_task p uv t s = elim t.task_type [
  | rw_type ↦ send_request p t uv (cl_task_add t.task_id p s)
  | connect_type ↦ start_connect p t uv (cl_task_add t.task_id p s)
  | close_type ↦ client_shutdown s >>= finish_task p
  | push_type ↦ fault
  | resp_type ↦ fault
]

-- `async_cb` on the client loop for the task at `p`.
unfoldable pub async_cb : Ptr → UvResults → ClientLoop → Outcome
async_cb p uv s =
    if s.running && s.inited
    then with_task p s (λ t. run_task p uv t s)
    else fail_task p err_not_ready s
