-- ===== src/ServerLoop/Calls.antt =====
-- The server's half of the public interface: `ssn_push` and `ssn_shutdown_server` of
-- Communication/comm.cpp, with Communication/async/async_task.cpp. A call runs on the caller's
-- thread up to the wait for its task, and again from there to its return.
use udpboardcast.Base.{ℕ, ◌+◌, List, [], ◌∷◌, Option, none, some, if◌then◌else◌}
use udpboardcast.Errors.{err_param, err_not_ready}
use udpboardcast.ClientLoop.{Ptr, TaskType, push_type, close_type, Task, put}
use udpboardcast.ServerLoop.{ServerLoop, sl_create_async}

-- A call has returned a code, or it waits for the task at the address.
pub data Call : Type 0 where
  returned : ℕ → Call
  submitted : Ptr → ServerLoop → Call

-- The caller's `push_task_t` or `close_task_t`; `stale` is what its uninitialised `err` holds.
unfoldable pub caller_task : TaskType → ℕ → List ℕ → Task
caller_task kind stale indata = record {
  task_type = kind;
  task_id = 0;
  timeout = 0;
  conn_id = 0;
  ip = "";
  indata = indata;
  outdata = [];
  err = stale;
  notified = 0;
}

-- `uv_async_send` for a task on the caller's stack.
unfoldable pub send_async : Task → ServerLoop → ServerLoop
send_async t s =
    let p = s.next_ptr in
    record s { tasks = put s.tasks p (some t); mail = p ∷ s.mail; next_ptr = p + 1 }

-- `async_push` up to its wait.
unfoldable pub async_push : ℕ → List ℕ → ServerLoop → Call
unfolding sl_create_async caller_task send_async
async_push stale indata s =
    if sl_create_async s
    then submitted s.next_ptr (send_async (caller_task push_type stale indata) s)
    else returned err_not_ready

-- `ssn_push`: `none` is a null pointer.
unfoldable pub ssn_push : ℕ → Option (List ℕ) → ServerLoop → Call
unfolding async_push
ssn_push stale none s = returned err_param
ssn_push stale (some []) s = returned err_param
ssn_push stale (some (b ∷ bs)) s = async_push stale (b ∷ bs) s

-- `async_close_server` up to its wait.
unfoldable pub async_close_server : ℕ → ServerLoop → Call
unfolding sl_create_async caller_task send_async
async_close_server stale s =
    if sl_create_async s
    then submitted s.next_ptr (send_async (caller_task close_type stale []) s)
    else returned err_not_ready

-- `async_push` and `async_close_server` from their wait on: the code, and the task is gone.
unfoldable pub call_returns : Ptr → Task → ServerLoop → ℕ × ServerLoop
call_returns p t s = (t.err, record s { tasks = put s.tasks p none })
