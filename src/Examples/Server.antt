-- ===== src/Examples/Server.antt =====
-- A server with a task in each place, and the theorems about its handlers there.
use udpboardcast.Base.{
  ◌≤◌, length, ℕ, zero, suc, ◌≡◌, refl, ◌⊎◌, true, false, some, none, [], ◌∷◌, arith, ◌==◌,
  if◌then◌else◌, List, Option,
}
use udpboardcast.Table.{find, values}
use udpboardcast.Stream.{fresh_tcp}
use udpboardcast.ThreadPool.{push_work}
use udpboardcast.ClientLoop.{Ptr, TaskType, push_type, resp_type, close_type, Task, Conn}
use udpboardcast.ServerLoop.{ServerLoop, hangs, fault, sl_create_async, remove}
use udpboardcast.ServerLoop.Requests.{retry_push, retried, server_handler_req, svr_work_cb}
use udpboardcast.ServerLoop.Async.{UvResults, resp_written, async_cb}
use udpboardcast.ServerLoop.Life.{count, Life, Woken}
use udpboardcast.ServerLoop.Changes.{Live}
use udpboardcast.ServerLoop.Responses.{Responds, Known, async_cb-Responds, resp_written-Woken}
use udpboardcast.ServerLoop.Full.{server_handler_req-full}
use udpboardcast.ServerLoop.Accepted.{Queued, server_handler_req-Queued, Mailed, svr_work_cb-Mailed}
use udpboardcast.ServerLoop.Push.{Pushes, async_cb-Pushes}
use udpboardcast.ServerLoop.Closing.{async_cb-InFlight}

abbrev task_of : TaskType → Task
task_of kind = record {
  task_type = kind;
  task_id = 7;
  timeout = 0;
  conn_id = 1;
  ip = "";
  indata = 104 ∷ [];
  outdata = [];
  err = 0;
  notified = 0;
}

abbrev pub client_conn : Conn
client_conn = record {
  conn_id = 1;
  ip = "10.0.0.2";
  tcp = fresh_tcp;
  reading = true;
  closing = false;
}

-- One connection, at 200. The tasks of responses at 100 to 103 wait, are worked on, are on the way
-- to the loop and are written; a push at 104 and the task that closes the server, at 105, are on
-- the way as well.
abbrev busy : ServerLoop
busy = record {
  running = true;
  inited = true;
  listen_closing = false;
  conn_table = (1, 200) ∷ [];
  conns = λ a. if a == 200 then some client_conn else none;
  tasks = λ a.
      if a == 100
      then some (task_of resp_type)
      else if a == 101
      then some (task_of resp_type)
      else if a == 102
      then some (task_of resp_type)
      else if a == 103
      then some (task_of resp_type)
      else if a == 104
      then some (task_of push_type)
      else if a == 105
      then some (task_of close_type)
      else none;
  queue = 100 ∷ [];
  working = 101 ∷ [];
  mail = 102 ∷ 104 ∷ 105 ∷ [];
  writing = 103 ∷ [];
  pushes = 0;
  sent = [];
  next_ptr = 300;
  next_conn_id = 2;
  dozing = false;
}

busy-Life : Life busy
busy-Life = record { one = λ p. ground arith; fresh = λ p new. ground arith }

busy-Known : Known busy
unfolding find
busy-Known id c there = (client_conn, ground arith)

busy-Live : Live busy (values busy.conn_table)
busy-Live = ((client_conn, refl), tt)

-- Only the task that closes the server is left.
abbrev pub quiet : ServerLoop
quiet = record busy {
  tasks = λ a. if a == 105 then some (task_of close_type) else none;
  queue = [];
  working = [];
  mail = 105 ∷ [];
  writing = [];
}

abbrev pub all_sent : UvResults
all_sent = record { written = 0; push_written = λ c. 0; stale = 9 }

abbrev pub echo : Option (List ℕ → List ℕ)
echo = some λ d. d

async_cb-Responds_example :
    Responds 102 (task_of resp_type) 0 busy (async_cb echo 102 all_sent busy)
async_cb-Responds_example =
    async_cb-Responds echo 102 (task_of resp_type) all_sent busy busy-Life busy-Known refl refl refl
      refl (ground arith)

resp_written-Woken_example :
    Woken 103 (task_of resp_type) (record busy { writing = [] }) (resp_written 103 0 busy)
unfolding remove
resp_written-Woken_example =
    resp_written-Woken 103 (task_of resp_type) 0 busy busy-Life refl (ground arith)

server_handler_req-Queued_example :
    Queued 0 1 8 (105 ∷ []) busy (server_handler_req 0 1 8 (105 ∷ []) busy)
server_handler_req-Queued_example =
    server_handler_req-Queued 0 1 8 (105 ∷ []) busy busy-Life (ground arith)

svr_work_cb-Mailed_example : Mailed echo 101 (task_of resp_type) busy (svr_work_cb echo 101 busy)
unfolding sl_create_async
svr_work_cb-Mailed_example =
    svr_work_cb-Mailed echo 101 (task_of resp_type) busy busy-Life refl (ground arith) refl

async_cb-Pushes_example :
    Pushes 104 (task_of push_type) all_sent busy (async_cb echo 104 all_sent busy)
async_cb-Pushes_example =
    async_cb-Pushes echo 104 (task_of push_type) all_sent busy busy-Life busy-Live refl refl refl
      refl (ground arith)

async_cb-InFlight_example :
    (async_cb echo 105 all_sent busy ≡ fault) ⊎ (async_cb echo 105 all_sent busy ≡ hangs)
async_cb-InFlight_example =
    async_cb-InFlight echo 105 100 (task_of close_type) (task_of resp_type) all_sent busy busy-Life
      busy-Live refl refl refl refl (ground arith) refl refl refl

abbrev jobs : ℕ → List Ptr
jobs zero = []
jobs (suc k) = k ∷ jobs k

abbrev crowded : ServerLoop
crowded = record quiet { queue = jobs 65 }

server_handler_req-full_example :
    (server_handler_req 0 1 8 (105 ∷ []) crowded ≡ hangs)
    × ((fuel : ℕ) (pops : ℕ → ℕ)
        → retry_push fuel pops (push_work 300 (jobs 65)).0 300 (jobs 65) ≡ none)
    × (length (jobs 65) ≡ 65 → 2 ≤ count 300 (retried 2 (λ k. 1) 300 (jobs 65)))
server_handler_req-full_example = server_handler_req-full 0 1 8 (105 ∷ []) crowded (ground arith)
