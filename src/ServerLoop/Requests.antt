-- ===== src/ServerLoop/Requests.antt =====
-- A request on the server: `_server_handler_req`, the server's half of `_read_content_process`, and
-- `svr_work_cb` of Communication/core/comm_core.cpp.
use udpboardcast.Base.{
  ℕ, zero, suc, ◌+◌, Bool, List, [], ◌∷◌, Option, none, some, ◌==◌, if◌then◌else◌, drop,
}
use udpboardcast.Proto.{CommPkg, pkg_type_alive, pkg_type_common}
use udpboardcast.Stream.{received, out_of_bounds, never_returns, receive}
use udpboardcast.ThreadPool.{push_work}
use udpboardcast.ClientLoop.{Ptr, resp_type, Task, put}
use udpboardcast.ServerLoop.{
  ServerLoop, Outcome, ok, fault, hangs, ◌>>=◌, with_task, with_conn, set_task, set_conn,
  sl_conn_find, sl_create_async, remove,
}

-- `new resp_task_t`, filled in; `stale` is what its uninitialised `err` holds.
unfoldable pub resp_task : ℕ → ℕ → ℕ → List ℕ → Task
resp_task stale conn_id task_id content = record {
  task_type = resp_type;
  task_id = task_id;
  timeout = 0;
  conn_id = conn_id;
  ip = "";
  indata = content;
  outdata = [];
  err = stale;
  notified = 0;
}

-- `while (err == -1) threadpool_push_work(...)`, on fuel: `err` is not assigned in the loop.
-- `pops k` is how many jobs the pool's threads take before the round with `k` rounds left.
unfoldable pub retry_push : ℕ → (ℕ → ℕ) → Bool → Ptr → List Ptr → Option (List Ptr)
unfolding push_work
retry_push zero pops pushed p queue = none
retry_push (suc fuel) pops pushed p queue =
    let again = retry_push fuel pops pushed p (push_work p (drop (pops fuel) queue)).1 in
    if pushed then some queue else again

-- The queue after so many rounds of that loop.
unfoldable pub retried : ℕ → (ℕ → ℕ) → Ptr → List Ptr → List Ptr
unfolding push_work
retried zero pops p queue = queue
retried (suc rounds) pops p queue = retried rounds pops p (push_work p (drop (pops rounds) queue)).1

-- `_server_handler_req`. A push that was refused enters the loop of `retry_push`, which does not end:
-- `hangs` stands for it, and `retried` for what it does to the queue.
unfoldable pub server_handler_req : ℕ → ℕ → ℕ → List ℕ → ServerLoop → Outcome
unfolding push_work resp_task set_task
server_handler_req stale conn_id task_id content s =
    let p = s.next_ptr in
    let (pushed, queue) = push_work p s.queue in
    let s' : ServerLoop = record s {
      tasks = put s.tasks p (some (resp_task stale conn_id task_id content));
      next_ptr = p + 1;
      queue = queue;
    } in
    if pushed then ok s' else hangs

-- One package of `taskList`. The last branch is `assert(0)`.
unfoldable pub handle_pkg : ℕ → ℕ → CommPkg → ServerLoop → Outcome
unfolding server_handler_req
handle_pkg stale conn_id pkg s =
    if pkg.pkg_type == pkg_type_common
    then server_handler_req stale conn_id pkg.task_id pkg.payload s
    else if pkg.pkg_type == pkg_type_alive
    then ok s
    else fault

unfoldable pub handle_pkgs : ℕ → ℕ → List CommPkg → ServerLoop → Outcome
unfolding handle_pkg
handle_pkgs stale conn_id [] s = ok s
handle_pkgs stale conn_id (pkg ∷ pkgs) s =
    handle_pkg stale conn_id pkg s >>= handle_pkgs stale conn_id pkgs

-- The packages are handled if the connection is still in the table.
unfoldable pub handle_known : ℕ → ℕ → List CommPkg → ServerLoop → Outcome
unfolding handle_pkgs sl_conn_find
handle_known stale conn_id pkgs s = elim (sl_conn_find conn_id s) [
  | none ↦ ok s
  | some _ ↦ handle_pkgs stale conn_id pkgs s
]

-- `_read_content_process` on the server loop.
unfoldable pub read_content : ℕ → Ptr → List ℕ → ServerLoop → Outcome
unfolding with_conn set_conn handle_known
read_content stale c content s = with_conn c s λ x. elim (receive x.tcp content) [
  | received pkgs tcp ↦ handle_known stale x.conn_id pkgs (set_conn c (record x { tcp = tcp }) s)
  | out_of_bounds ↦ fault
  | never_returns ↦ hangs
]

-- `easy_queue_pop` by a thread of the pool, which then runs `svr_work_cb`.
unfoldable pub take_job : ServerLoop → ServerLoop
take_job s = elim s.queue [
  | [] ↦ s
  | p ∷ queue ↦ record s { queue = queue; working = p ∷ s.working }
]

-- What the user's callback leaves in the buffer; without a callback the data stays as it is.
abbrev pub worked : Option (List ℕ → List ℕ) → List ℕ → List ℕ
worked none content = content
worked (some work) content = work content

-- `svr_work_cb` up to its wait, once the callback has returned. The handle is used untested.
unfoldable pub svr_work_cb : Option (List ℕ → List ℕ) → Ptr → ServerLoop → Outcome
unfolding with_task set_task sl_create_async remove
svr_work_cb cb p s = with_task p s λ t.
    if sl_create_async s
    then ok (record s {
      tasks = put s.tasks p (some (record t { indata = worked cb t.indata }));
      working = remove p s.working;
      mail = p ∷ s.mail;
    })
    else fault

-- `svr_work_cb` after its wait: `delete task`.
unfoldable pub svr_work_end : Ptr → ServerLoop → ServerLoop
svr_work_end p s = record s { tasks = put s.tasks p none }
