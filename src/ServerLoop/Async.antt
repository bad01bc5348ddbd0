-- ===== src/ServerLoop/Async.antt =====
-- The tasks handed to the server loop: `_do_write`, `write_cb`, `_do_push`, `async_cb` and
-- `_server_shutdown` of Communication/core/comm_core.cpp.
use udpboardcast.Base.{
  ℕ, ◌+◌, ◌-◌, Bool, true, false, ◌&&◌, List, [], ◌∷◌, Option, none, some, ◌==◌, if◌then◌else◌,
}
use udpboardcast.Table.{values}
use udpboardcast.Proto.{CommPkg, pkg_type_common, pkg_type_push, proto_build_package}
use udpboardcast.Errors.{err_not_ready, err_conn_not_exist}
use udpboardcast.ClientLoop.{
  Ptr, rw_type, push_type, resp_type, connect_type, close_type, TaskType, Task,
}
use udpboardcast.ServerLoop.{
  ServerLoop, Outcome, ok, fault, hangs, ◌>>=◌, with_task, with_conn, set_conn, close_conn,
  sl_conn_find, remove, finish_task, fail_task,
}
use udpboardcast.ServerLoop.Requests.{svr_work_cb, svr_work_end}

-- The package that `_do_write` builds; `none` is its `assert(0)`.
unfoldable pub task_pkg : TaskType → ℕ → List ℕ → Option CommPkg
unfolding proto_build_package
task_pkg rw_type id indata = some (proto_build_package indata pkg_type_common id)
task_pkg push_type id indata = some (proto_build_package indata pkg_type_push id)
task_pkg resp_type id indata = some (proto_build_package indata pkg_type_common id)
task_pkg connect_type id indata = none
task_pkg close_type id indata = none

-- `_do_write` for a package that was built: `uv_write` returns `ret`, and takes it if that is 0.
unfoldable pub uv_write : Ptr → CommPkg → ℕ → ServerLoop → ServerLoop
uv_write c pkg ret s = if ret == 0 then record s { sent = (c, pkg) ∷ s.sent } else s

-- The case `RESP` with its connection. A write that was taken ends in `write_cb`.
unfoldable pub respond : Ptr → Task → Ptr → ℕ → ServerLoop → Outcome
unfolding task_pkg uv_write with_conn fail_task
respond p t c ret s = with_conn c s λ _. elim (task_pkg t.task_type t.task_id t.indata) [
  | none ↦ fault
  | some pkg ↦
      if ret == 0
      then ok (record (uv_write c pkg ret s) { writing = p ∷ s.writing })
      else fail_task p ret s
]

unfoldable pub send_response : Ptr → Task → ℕ → ServerLoop → Outcome
unfolding respond sl_conn_find fail_task
send_response p t ret s = elim (sl_conn_find t.conn_id s) [
  | none ↦ fail_task p err_conn_not_exist s
  | some c ↦ respond p t c ret s
]

-- The case `RESP` of `write_cb`, for the request whose `data` is the task at `p`.
unfoldable pub resp_written : Ptr → ℕ → ServerLoop → Outcome
unfolding remove fail_task
resp_written p status s = fail_task p status (record s { writing = remove p s.writing })

-- The case `PUSH` of `write_cb`: the task of one push is freed.
unfoldable pub push_written : ServerLoop → ServerLoop
push_written s = record s { pushes = s.pushes - 1 }

-- One round of `_do_push`, with `uv_write` returning `rets c`. The task of one push is freed at once
-- if it fails; its `taskId` is not initialised and is `stale`.
unfoldable pub push_to : List ℕ → ℕ → (Ptr → ℕ) → Ptr → ServerLoop → Outcome
unfolding task_pkg uv_write with_conn
push_to indata stale rets c s = with_conn c s λ _. elim (task_pkg push_type stale indata) [
  | none ↦ fault
  | some pkg ↦
      if rets c == 0 then ok (record (uv_write c pkg 0 s) { pushes = s.pushes + 1 }) else ok s
]

unfoldable pub push_each : List ℕ → ℕ → (Ptr → ℕ) → List Ptr → ServerLoop → Outcome
unfolding push_to
push_each indata stale rets [] s = ok s
push_each indata stale rets (c ∷ cs) s =
    push_to indata stale rets c s >>= push_each indata stale rets cs

-- The case `PUSH`: `_do_push`, `task->err = 0`, `_sl_finish_task`.
unfoldable pub do_push : Ptr → Task → ℕ → (Ptr → ℕ) → ServerLoop → Outcome
unfolding push_each fail_task
do_push p t stale rets s = push_each t.indata stale rets (values s.conn_table) s >>= fail_task p 0

-- `uv_read_stop` and `_safe_uv_close` in the two loops of `_server_shutdown`.
unfoldable pub stop_reading : Ptr → ServerLoop → Outcome
unfolding with_conn set_conn
stop_reading c s = with_conn c s λ x. ok (set_conn c (record x { reading = false }) s)

unfoldable pub for_each : (Ptr → ServerLoop → Outcome) → List Ptr → ServerLoop → Outcome
for_each body [] s = ok s
for_each body (p ∷ ps) s = body p s >>= for_each body ps

-- `easy_queue_clear` with `queue_free_func`: it calls the `after_proc` of each job that waits,
-- which is null for those of `_server_handler_req`.
unfoldable pub clear_queue : ServerLoop → Outcome
clear_queue s = elim s.queue [ [] ↦ ok s | _ ∷ _ ↦ fault ]

-- A thread of the pool waits for the tasks of responses only.
abbrev pub is_resp : TaskType → Bool
is_resp rw_type = false
is_resp push_type = false
is_resp resp_type = true
is_resp connect_type = false
is_resp close_type = false

-- `uv_thread_join` of the thread that waits for its task at `p`, if one does. The thread goes on
-- after a post on `notify`; while the loop's thread is here, no other posts.
unfoldable pub join_waiting : Ptr → ServerLoop → Outcome
unfolding with_task svr_work_end
join_waiting p s = with_task p s λ t.
    if is_resp t.task_type then if t.notified == 0 then hangs else ok (svr_work_end p s) else ok s

-- `uv_thread_join` of the thread that runs the callback for the task at `p`.
unfoldable pub join_working : Option (List ℕ → List ℕ) → Ptr → ServerLoop → Outcome
unfolding svr_work_cb join_waiting
join_working cb p s = svr_work_cb cb p s >>= join_waiting p

-- `uv_thread_join` of the idle threads: they end, unless one comes to its wait after the broadcast.
unfoldable pub join_idle : ServerLoop → Outcome
join_idle s = if s.dozing then hangs else ok s

-- The jobs that wait are cleared, and the threads end one by one, in whatever they are doing.
unfoldable pub join_busy : Option (List ℕ → List ℕ) → ServerLoop → Outcome
unfolding clear_queue for_each join_working join_waiting
join_busy cb s =
    clear_queue s
    >>= for_each (join_working cb) s.working
    >>= for_each join_waiting s.mail
    >>= for_each join_waiting s.writing

-- `threadpool_uninit`.
unfoldable pub threadpool_uninit : Option (List ℕ → List ℕ) → ServerLoop → Outcome
unfolding join_busy join_idle
threadpool_uninit cb s = join_busy cb s >>= join_idle

-- `_server_shutdown`, and the last line of `_do_shutdown`.
unfoldable pub server_shutdown : Option (List ℕ → List ℕ) → ServerLoop → Outcome
unfolding for_each stop_reading threadpool_uninit close_conn
server_shutdown cb s =
    for_each stop_reading (values s.conn_table)
      (record s { running = false; listen_closing = true })
    >>= threadpool_uninit cb
    >>= for_each close_conn (values s.conn_table)
    >>= λ s. ok (record s { conn_table = [] })

-- What libuv answers to the writes of one task, and what is uninitialised in a push.
pub record UvResults : Type 0 where
  pub written : ℕ
  pub push_written : Ptr → ℕ
  pub stale : ℕ

-- The `switch` of `async_cb`. An `RW` or a `CONNECT` task belongs to the client loop.
unfoldable pub run_task : Option (List ℕ → List ℕ) → Ptr → UvResults → ServerLoop → Task → Outcome
unfolding send_response do_push server_shutdown fail_task finish_task
run_task cb p uv s t = elim t.task_type [
  | rw_type ↦ fault
  | push_type ↦ do_push p t uv.stale uv.push_written s
  | resp_type ↦ send_response p t uv.written s
  | connect_type ↦ fault
  | close_type ↦ server_shutdown cb s >>= finish_task p
]

-- `async_cb` on the server loop for a task of `mail`.
unfoldable pub async_cb : Option (List ℕ → List ℕ) → Ptr → UvResults → ServerLoop → Outcome
unfolding with_task run_task fail_task remove
async_cb cb p uv s =
    let s' : ServerLoop = record s { mail = remove p s.mail } in
    if s.running && s.inited
    then with_task p s' (run_task cb p uv s')
    else fail_task p err_not_ready s'
