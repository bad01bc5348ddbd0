-- ===== src/Interface/Startup.antt =====
-- The start and the end of the client: `init_client_loop`, `start_client_loop` and
-- `uninit_client_loop` of Communication/core/comm_res.cpp, with `ssn_startup_client` and
-- `ssn_shutdown_client` of Communication/comm.cpp.
use udpboardcast.Base.{ℕ, true, false, [], ◌==◌, if◌then◌else◌}
use udpboardcast.Errors.{err_not_ready}
use udpboardcast.ClientLoop.{Ptr, close_type, Task, ClientLoop, set_task}
use udpboardcast.Interface.{Call, returned, submitted, cl_create_async}

unfoldable pub init_client_loop : ClientLoop → ClientLoop
init_client_loop s = record s { inited = true; running = false }

unfoldable pub start_client_loop : ClientLoop → ClientLoop
start_client_loop s = record s { running = true }

unfoldable pub ssn_startup_client : ClientLoop → ClientLoop
unfolding init_client_loop start_client_loop
ssn_startup_client s = start_client_loop (init_client_loop s)

-- `uninit_client_loop` with `stop_client_loop`, once the loop's thread has ended.
unfoldable pub uninit_client_loop : ClientLoop → ClientLoop
uninit_client_loop s = record s { running = false; inited = false }

-- The caller's `close_task_t`; `stale` is what its uninitialised `err` holds.
unfoldable pub close_task : ℕ → Task
close_task stale = record {
  task_type = close_type;
  task_id = 0;
  timeout = 0;
  conn_id = 0;
  ip = "";
  indata = [];
  outdata = [];
  err = stale;
  notified = 0;
}

-- `async_close_client` up to its wait, with the task at `p` on the caller's stack.
unfoldable pub async_close_client : Ptr → ℕ → ℕ → ClientLoop → Call
unfolding cl_create_async close_task set_task
async_close_client p stale counter s =
    if cl_create_async s
    then submitted counter (set_task p (close_task stale) s)
    else returned err_not_ready

-- `ssn_shutdown_client` from the wait of `async_close_client` on.
unfoldable pub ssn_shutdown_client : Task → ClientLoop → ℕ × ClientLoop
unfolding uninit_client_loop
ssn_shutdown_client t s = if t.err == 0 then (0, uninit_client_loop s) else (t.err, s)
