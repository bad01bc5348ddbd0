-- ===== src/Interface.antt =====
-- The client's half of the public interface: Communication/comm.cpp and
-- Communication/async/async_task.cpp. A call runs on the caller's thread up to the wait for its
-- task, and again from there to its return.
pub mod Calls
pub mod Returns
pub mod Startup
pub mod Shutdown
use Prim.Native.String.{String}
use udpboardcast.Base.{
  ℕ, Bool, true, false, ◌&&◌, List, [], ◌∷◌, Option, none, some, ◌==◌, if◌then◌else◌,
}
use udpboardcast.Table.{find}
use udpboardcast.GenId.{apply_task_id}
use udpboardcast.Errors.{err_param, err_not_ready, err_conn_not_exist, err_conn_already_exist}
use udpboardcast.ClientLoop.{Ptr, rw_type, connect_type, Task, ClientLoop, set_task, cl_conn_find2}

-- A call has returned a code, or it waits for the task that it has handed to the loop; with the
-- counter of task ids and the state in which the loop gets the task.
pub data Call : Type 0 where
  returned : ℕ → Call
  submitted : ℕ → ClientLoop → Call

unfoldable pub cl_conn_valid : ℕ → ClientLoop → Bool
cl_conn_valid id s = elim (find id s.conn_table) [ none ↦ false | some _ ↦ true ]

-- Whether `cl_create_async` returns a handle.
unfoldable pub cl_create_async : ClientLoop → Bool
cl_create_async s = s.inited && s.running

-- The caller's `rw_task_t`; `stale` is what its uninitialised `err` holds.
unfoldable pub rw_task : ℕ → ℕ → ℕ → List ℕ → ℕ → Task
rw_task stale id conn_id indata timeout = record {
  task_type = rw_type;
  task_id = id;
  timeout = timeout;
  conn_id = conn_id;
  ip = "";
  indata = indata;
  outdata = [];
  err = stale;
  notified = 0;
}

-- The caller's `conn_task_t`.
unfoldable pub conn_task : ℕ → ℕ → String → ℕ → Task
conn_task stale id ip timeout = record {
  task_type = connect_type;
  task_id = id;
  timeout = timeout;
  conn_id = 0;
  ip = ip;
  indata = [];
  outdata = [];
  err = stale;
  notified = 0;
}

-- `async_send` up to its wait, with the task at `p` on the caller's stack.
unfoldable pub async_send : Ptr → ℕ → ℕ → ℕ → List ℕ → ℕ → ClientLoop → Call
unfolding cl_conn_valid cl_create_async rw_task set_task apply_task_id
async_send p stale counter conn_id indata timeout s =
    let (id, counter') = apply_task_id counter in
    if cl_conn_valid conn_id s
    then if cl_create_async s
      then submitted counter' (set_task p (rw_task stale id conn_id indata timeout) s)
      else returned err_not_ready
    else returned err_conn_not_exist

-- `async_send` from its wait on: the code and `*outdata`.
unfoldable pub async_send_result : Task → ℕ × Option (List ℕ)
async_send_result t = if t.err == 0 then (0, some t.outdata) else (t.err, none)

-- `ssn_send`: `none` is a null pointer, `given` that neither `outdata` nor `outlen` is one.
unfoldable pub ssn_send : Ptr → ℕ → ℕ → ℕ → Option (List ℕ) → Bool → ℕ → ClientLoop → Call
unfolding async_send
ssn_send p stale counter conn_id none given timeout s = returned err_param
ssn_send p stale counter conn_id (some []) given timeout s = returned err_param
ssn_send p stale counter conn_id (some (b ∷ bs)) given timeout s =
    if given then async_send p stale counter conn_id (b ∷ bs) timeout s else returned err_param

unfoldable pub ssn_connect_is_exist : String → ClientLoop → Bool
unfolding cl_conn_find2
ssn_connect_is_exist ip s = elim (cl_conn_find2 ip s) [ none ↦ false | some _ ↦ true ]

-- `async_conn` up to its wait.
unfoldable pub async_conn : Ptr → ℕ → ℕ → String → ℕ → ClientLoop → Call
unfolding cl_create_async conn_task set_task apply_task_id
async_conn p stale counter ip timeout s =
    let (id, counter') = apply_task_id counter in
    if cl_create_async s
    then submitted counter' (set_task p (conn_task stale id ip timeout) s)
    else returned err_not_ready

unfoldable pub ssn_connect : Ptr → ℕ → ℕ → Option String → ℕ → ClientLoop → Call
unfolding ssn_connect_is_exist async_conn
ssn_connect p stale counter none timeout s = returned err_param
ssn_connect p stale counter (some ip) timeout s =
    if ssn_connect_is_exist ip s
    then returned err_conn_already_exist
    else async_conn p stale counter ip timeout s
