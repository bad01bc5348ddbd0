-- ===== src/Examples/Loop.antt =====
-- A client loop with one connection, and the theorems about its handlers there.

use udpboardcast.Base.{
  ℕ, ◌≡◌, refl, ◌⊎◌, inl, true, false, some, none, [], ◌∷◌, arith, ◌==◌, if◌then◌else◌, List,
}
use udpboardcast.Table.{Table, find}
use udpboardcast.Proto.{CommPkg, pkg_type_common, proto_build_package}
use udpboardcast.Stream.{fresh_tcp}
use udpboardcast.Errors.{err_param}
use udpboardcast.ClientLoop.{
  Ptr, rw_type, connect_type, Task, Conn, TimerData, ClientLoop, ok, ◌>>=◌,
}
use udpboardcast.ClientLoop.Tasks.{timer_cb}
use udpboardcast.ClientLoop.Read.{failed, requests_on, read_cb, close_cb, handle_pkg}
use udpboardcast.ClientLoop.Async.{async_cb}
use udpboardcast.ClientLoop.Invariant.{Inv}
use udpboardcast.ClientLoop.Timeout.{TimesOut, timer_cb-TimesOut}
use udpboardcast.ClientLoop.Answer.{Answered, handle_pkg-Answered}
use udpboardcast.ClientLoop.Submit.{Accepts, submit_error, async_cb-Accepts}
use udpboardcast.Interface.{returned, rw_task, ssn_send, async_send_result}
use udpboardcast.Interface.Calls.{is_given, send_error, Answers, ssn_send-Answers}
use udpboardcast.Interface.Returns.{async_send_result-handle_pkg}
use udpboardcast.GenId.{apply_conn_id}
use udpboardcast.ClientLoop.Connect.{connect_cb}
use udpboardcast.ClientLoop.Connected.{Connected, connect_cb-Connected}
use udpboardcast.ClientLoop.Lost.{LostOnce, read_cb-close_cb}

abbrev pub request : Task
request = record {
  task_type = rw_type;
  task_id = 7;
  timeout = 500;
  conn_id = 1;
  ip = "";
  indata = 104 ∷ [];
  outdata = [];
  err = 0;
  notified = 0;
}

abbrev pub server_conn : Conn
server_conn = record {
  conn_id = 1;
  ip = "10.0.0.1";
  tcp = fresh_tcp;
  reading = true;
  closing = false;
}

abbrev pub request_timer : TimerData
request_timer = record { task_id = 7; target = none; closing = false }

-- The request, at 100, is in memory, and in the table if `listed` has it. The connection is at
-- 200, the timer at 300.
abbrev loop_with : Table Ptr → ClientLoop
loop_with listed = record {
  running = true;
  inited = true;
  conn_table = (1, 200) ∷ [];
  task_table = listed;
  timer_table = (7, 300) ∷ [];
  tasks = λ a. if a == 100 then some request else none;
  conns = λ a. if a == 200 then some server_conn else none;
  timers = λ a. if a == 300 then some request_timer else none;
  next_ptr = 400;
  next_conn_id = 2;
  events = [];
}

abbrev pub waiting_loop : ClientLoop
waiting_loop = loop_with ((7, 100) ∷ [])

abbrev idle_loop : ClientLoop
idle_loop = loop_with []

idle_loop-Inv : Inv idle_loop
unfolding find
idle_loop-Inv = record {
  waiting = λ id p there. cc;
  once = λ p t there. ground arith;
  ticking = λ id q there. record { timer = request_timer; at = ground arith };
}

pub waiting_loop-Inv : Inv waiting_loop
unfolding find
waiting_loop-Inv = record {
  waiting = λ id p there. record {
    task = request;
    at = ground arith;
    own_id = ground arith;
    asleep = refl;
  };
  once = idle_loop-Inv.once;
  ticking = idle_loop-Inv.ticking;
}

abbrev reply : CommPkg
unfolding proto_build_package
reply = proto_build_package (111 ∷ 107 ∷ []) pkg_type_common 7

handle_pkg-Answered_example :
    Answered 100
      (record request { err = 0; outdata = 111 ∷ 107 ∷ [] })
      waiting_loop
      (handle_pkg 1 reply waiting_loop)
unfolding find reply
handle_pkg-Answered_example =
    handle_pkg-Answered 1 reply 100 request waiting_loop waiting_loop-Inv refl refl refl refl

timer_cb-TimesOut_example : TimesOut 300 request_timer waiting_loop (timer_cb 300 waiting_loop)
timer_cb-TimesOut_example =
    timer_cb-TimesOut 300 request_timer waiting_loop waiting_loop-Inv refl (λ c e. cc)

-- UV_ETIMEDOUT is -110.
abbrev timed_out : ℕ
timed_out = 4294967186

async_cb-Accepts_example :
    Accepts 100 request
      (submit_error request (record { inited = 0; connected = 0; written = 0 }) idle_loop)
      idle_loop
      (async_cb 100 (record { inited = 0; connected = 0; written = 0 }) idle_loop)
async_cb-Accepts_example =
    async_cb-Accepts 100 request (record { inited = 0; connected = 0; written = 0 }) idle_loop
      idle_loop-Inv refl refl refl refl (inl refl)

read_cb-close_cb_example :
    LostOnce 200 server_conn idle_loop (read_cb 200 (failed 4294967192) idle_loop >>= close_cb 200)
unfolding requests_on
read_cb-close_cb_example = read_cb-close_cb 200 server_conn 4294967192 idle_loop refl refl

-- Nothing lies at 101.
ssn_send-Answers_example :
    ((is_given (some (104 ∷ [])) true ≡ false)
      × (ssn_send 101 0 8 1 (some (104 ∷ [])) true 500 waiting_loop ≡ returned err_param))
    ⊎ ((is_given (some (104 ∷ [])) true ≡ true)
        × (bytes : List ℕ) × (some (104 ∷ []) ≡ some bytes)
        × Answers
            (send_error 1 waiting_loop)
            101
            (rw_task 0 8 1 bytes 500)
            (record { inited = 0; connected = 0; written = 0 })
            waiting_loop
            (ssn_send 101 0 8 1 (some (104 ∷ [])) true 500 waiting_loop))
ssn_send-Answers_example =
    ssn_send-Answers 101 0 8 1 (some (104 ∷ [])) true 500
      (record { inited = 0; connected = 0; written = 0 }) waiting_loop waiting_loop-Inv refl

async_send_result-handle_pkg_example :
    (s' : ClientLoop) × (t' : Task) × (handle_pkg 1 reply waiting_loop ≡ ok s')
    × (s'.tasks 100 ≡ some t')
    × (t'.notified ≡ 1)
    × (async_send_result t' ≡ (0, some (111 ∷ 107 ∷ [])))
unfolding find reply
async_send_result-handle_pkg_example =
    async_send_result-handle_pkg 1 reply 100 request waiting_loop waiting_loop-Inv refl refl refl
      refl

abbrev conn_request : Task
conn_request = record request { task_type = connect_type; ip = "10.0.0.9" }

-- The loop waits for a connection, at 250.
abbrev connecting : ClientLoop
connecting = record waiting_loop {
  tasks = λ a. if a == 100 then some conn_request else none;
  conns = λ a.
      if a == 250
      then some (record server_conn { conn_id = 0; ip = "10.0.0.9"; reading = false })
      else waiting_loop.conns a;
}

connecting-Inv : Inv connecting
unfolding find
connecting-Inv = record {
  waiting = λ id p there. record {
    task = conn_request;
    at = ground arith;
    own_id = ground arith;
    asleep = refl;
  };
  once = λ p t there. ground arith;
  ticking = λ id q there. record { timer = request_timer; at = ground arith };
}

connect_cb-Connected_example :
    Connected 250 100
      (record server_conn { conn_id = 0; ip = "10.0.0.9"; reading = false })
      conn_request
      0
      connecting
      (connect_cb 7 250 0 connecting)
unfolding find apply_conn_id
connect_cb-Connected_example =
    connect_cb-Connected 7 250 100
      (record server_conn { conn_id = 0; ip = "10.0.0.9"; reading = false }) conn_request 0
      connecting connecting-Inv refl refl refl refl
