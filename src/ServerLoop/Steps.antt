-- ===== src/ServerLoop/Steps.antt =====
-- What happens to a server from its start until it is closed, as a step relation, and what holds in
-- every state that it reaches.
use udpboardcast.Base.{ℕ, ◌≤◌, ◌≡◌, Bool, true, false, List, [], Option, none, some}
use udpboardcast.ClientLoop.{Ptr, push_type, resp_type, Task}
use udpboardcast.ClientLoop.Read.{Nread}
use udpboardcast.ServerLoop.{ServerLoop, ok}
use udpboardcast.ServerLoop.Requests.{take_job, svr_work_cb, svr_work_end}
use udpboardcast.ServerLoop.Async.{UvResults, resp_written, push_written, async_cb}
use udpboardcast.ServerLoop.Listen.{Accepting, listen_cb, read_cb, close_cb}
use udpboardcast.ServerLoop.Calls.{submitted, ssn_push, call_returns}
use udpboardcast.ServerLoop.Life.{count}

-- The server once `start_server_loop` has returned 0.
abbrev pub started : ServerLoop
started = record {
  running = true;
  inited = true;
  listen_closing = false;
  conn_table = [];
  conns = λ c. none;
  tasks = λ p. none;
  queue = [];
  working = [];
  mail = [];
  writing = [];
  pushes = 0;
  sent = [];
  next_ptr = 0;
  next_conn_id = 0;
  dozing = false;
}

-- One step that neither faults nor blocks the loop, as `server_handler_req` does for ever when a
-- request comes while more than 64 jobs wait, and pushes its task again meanwhile: the loop's callbacks, the threads of the pool, and the
-- callers of `ssn_push`.
pub data Step (cb : Option (List ℕ → List ℕ)) : ServerLoop → ServerLoop → Type 0 where
  accepts : {s s' : ServerLoop} (a : Accepting) → listen_cb a s ≡ ok s' → Step cb s s'
  reads :
      {s s' : ServerLoop} (stale c : ℕ) (nread : Nread)
      → read_cb stale c nread s ≡ ok s'
      → Step cb s s'
  closes : {s s' : ServerLoop} (c : ℕ) → close_cb c s ≡ ok s' → Step cb s s'
  takes : {s : ServerLoop} → Step cb s (take_job s)
  works :
      {s s' : ServerLoop} (p : Ptr)
      → 1 ≤ count p s.working
      → svr_work_cb cb p s ≡ ok s'
      → Step cb s s'
  works_end :
      {s : ServerLoop} (p : Ptr) (t : Task)
      → s.tasks p ≡ some t
      → t.notified ≡ 1
      → Step cb s (svr_work_end p s)
  pushes :
      {s s' : ServerLoop} (stale : ℕ) (indata : Option (List ℕ)) (p : Ptr)
      → ssn_push stale indata s ≡ submitted p s'
      → Step cb s s'
  push_ends :
      {s : ServerLoop} (p : Ptr) (t : Task)
      → s.tasks p ≡ some t
      → t.notified ≡ 1
      → Step cb s (call_returns p t s).1
  responds :
      {s s' : ServerLoop} (p : Ptr) (t : Task) (uv : UvResults)
      → s.tasks p ≡ some t
      → t.task_type ≡ resp_type
      → 1 ≤ count p s.mail
      → async_cb cb p uv s ≡ ok s'
      → Step cb s s'
  sends_push :
      {s s' : ServerLoop} (p : Ptr) (t : Task) (uv : UvResults)
      → s.tasks p ≡ some t
      → t.task_type ≡ push_type
      → 1 ≤ count p s.mail
      → async_cb cb p uv s ≡ ok s'
      → Step cb s s'
  written :
      {s s' : ServerLoop} (p : Ptr) (t : Task) (status : ℕ)
      → s.tasks p ≡ some t
      → 1 ≤ count p s.writing
      → resp_written p status s ≡ ok s'
      → Step cb s s'
  push_is_written : {s : ServerLoop} → Step cb s (push_written s)
  -- An idle thread of the pool goes on between its test of `exit_sem` and its wait.
  idles : {s : ServerLoop} (b : Bool) → Step cb s (record s { dozing = b })

pub data Steps (cb : Option (List ℕ → List ℕ)) : ServerLoop → ServerLoop → Type 0 where
  stop : {s : ServerLoop} → Steps cb s s
  step : {s s' s'' : ServerLoop} → Steps cb s s' → Step cb s' s'' → Steps cb s s''
