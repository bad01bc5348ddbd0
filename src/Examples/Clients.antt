-- ===== src/Examples/Clients.antt =====
-- A run of a client: it connects, and sends a request, which is being written.

use udpboardcast.Base.{ℕ, ◌≡◌, refl, [], ◌∷◌, some, none, true, arith}
use udpboardcast.Table.{find, insert, erase}
use udpboardcast.GenId.{apply_conn_id}
use udpboardcast.ClientLoop.{
  put, ◌>>=◌, Task, ClientLoop, ok, fault, with_task, with_conn, with_timer, set_task, set_conn,
  set_err, cl_task_add, cl_task_find, cl_task_del, cl_timer_find, cl_conn_add, cl_conn_find,
  cl_conn_find2, report,
}
use udpboardcast.ClientLoop.Tasks.{drop_timer, finish_task, start_timer, post, write_cb}
use udpboardcast.ClientLoop.Connect.{
  new_conn, await_connect, ask_connect, do_connect, establish, connect_cb,
}
use udpboardcast.ClientLoop.Async.{UvResults, async_cb, run_task, start_connect, send_request}
use udpboardcast.Proto.{CommPkg, pkg_type_common, proto_build_package}
use udpboardcast.ClientLoop.Read.{handle_pkg}
use udpboardcast.ClientLoop.Closing.{EndsLoop}
use udpboardcast.Interface.{submitted, ssn_send, ssn_connect, rw_task, conn_task}
use udpboardcast.Client.Serves.{write, Runs-Serves}
use udpboardcast.Client.Early.{returned_from, Runs-AnsweredEarly}
use udpboardcast.Client.Closing.{closing, WokenTwice, Runs-EndsLoop, Runs-WokenTwice}
use udpboardcast.Interface.Startup.{close_task}
use udpboardcast.Client.{
  Client, mark, started, taken, write_begun, connect_begun, Runs, connects, takes, joins, sends,
  stop, step,
}
use udpboardcast.Client.Sound.{Sound}
use udpboardcast.Client.Sound.Reach.{Runs-Sound}

abbrev works : UvResults
works = record { inited = 0; connected = 0; written = 0 }

asks :
    (s : ClientLoop) × (n : ℕ) × (ssn_connect 100 0 0 (some "10.0.0.9") 5 started.loop
      ≡ submitted n s)
unfolding started ssn_connect
asks = (_, _, refl)

abbrev calling : Client
calling = record started { loop = asks.0; counter = asks.1; mail = mark started.mail 100 true }

connects_now : (s : ClientLoop) × (async_cb 100 works calling.loop ≡ ok s)
unfolding asks started ssn_connect async_cb run_task with_task set_task start_connect do_connect
    ask_connect cl_task_add cl_conn_find2 await_connect new_conn start_timer insert set_conn
connects_now = (_, refl)

abbrev trying : Client
trying = taken 100 (conn_task 0 0 "10.0.0.9" 5) works calling connects_now.0

joins_now : (s : ClientLoop) × (connect_cb 0 0 0 trying.loop ≡ ok s)
unfolding connects_now asks started ssn_connect async_cb run_task with_task set_task start_connect
    do_connect ask_connect cl_task_add cl_conn_find2 await_connect new_conn start_timer insert
    set_conn find erase connect_cb establish set_err finish_task drop_timer cl_task_find cl_task_del
    cl_timer_find cl_conn_add with_conn report apply_conn_id post write_begun connect_begun
    with_timer
joins_now = (_, refl)

abbrev connected : Client
connected = record trying { loop = joins_now.0; connecting = put trying.connecting 0 none }

sends_now :
    (s : ClientLoop) × (n : ℕ) × (ssn_send 200 0 1 1 (some (104 ∷ [])) true 0 connected.loop
      ≡ submitted n s)
unfolding joins_now connects_now asks started ssn_connect async_cb run_task with_task set_task
    start_connect do_connect ask_connect cl_task_add cl_conn_find2 await_connect new_conn
    start_timer insert set_conn find erase connect_cb establish set_err finish_task drop_timer
    cl_task_find cl_task_del cl_timer_find cl_conn_add with_conn report apply_conn_id post
    write_begun connect_begun with_timer ssn_send
sends_now = (_, _, refl)

abbrev sending : Client
sending = record connected {
  loop = sends_now.0;
  counter = sends_now.1;
  mail = mark connected.mail 200 true;
}

writes_now : (s : ClientLoop) × (async_cb 200 works sending.loop ≡ ok s)
unfolding sends_now joins_now connects_now asks started ssn_connect async_cb run_task with_task
    set_task start_connect do_connect ask_connect cl_task_add cl_conn_find2 await_connect new_conn
    start_timer insert set_conn find erase connect_cb establish set_err finish_task drop_timer
    cl_task_find cl_task_del cl_timer_find cl_conn_add with_conn report apply_conn_id post
    write_begun connect_begun with_timer ssn_send send_request cl_conn_find
writes_now = (_, refl)

abbrev writing : Client
writing = taken 200 (rw_task 0 1 1 (104 ∷ []) 0) works sending writes_now.0

run : Runs started writing
unfolding writes_now sends_now joins_now connects_now asks started ssn_connect async_cb run_task
    with_task set_task start_connect do_connect ask_connect cl_task_add cl_conn_find2 await_connect
    new_conn start_timer insert set_conn find erase connect_cb establish set_err finish_task
    drop_timer cl_task_find cl_task_del cl_timer_find cl_conn_add with_conn report apply_conn_id
    post write_begun connect_begun with_timer ssn_send send_request cl_conn_find rw_task conn_task
run =
    step
      (step
        (step
          (step (step stop (connects 100 0 (some "10.0.0.9") 5 refl (omega arith) asks.2))
            (takes 100 (conn_task 0 0 "10.0.0.9" 5) works refl refl connects_now.1))
          (joins 0 0 0 refl joins_now.1))
        (sends 200 0 1 (some (104 ∷ [])) true 0 refl (omega arith) sends_now.2))
      (takes 200 (rw_task 0 1 1 (104 ∷ []) 0) works refl refl writes_now.1)

Runs-Sound_example : Sound writing
Runs-Sound_example = Runs-Sound writing run

-- The write of the request is reported.
Runs-Serves_example : (s : ClientLoop) × (write_cb 200 0 writing.loop ≡ ok s)
unfolding writes_now sends_now joins_now connects_now asks started ssn_connect async_cb run_task
    with_task set_task start_connect do_connect ask_connect cl_task_add cl_conn_find2 await_connect
    new_conn start_timer insert set_conn find erase connect_cb establish set_err finish_task
    drop_timer cl_task_find cl_task_del cl_timer_find cl_conn_add with_conn report apply_conn_id
    post write_begun connect_begun with_timer ssn_send send_request cl_conn_find rw_task conn_task
Runs-Serves_example = Runs-Serves writing (write_cb 200 0 writing.loop) run (write 200 0 refl)

-- The server answers a request that it has read, before libuv calls `write_cb`.
abbrev early : CommPkg
unfolding proto_build_package
early = proto_build_package (111 ∷ 107 ∷ []) pkg_type_common 1

Runs-AnsweredEarly_example :
    (s : ClientLoop) × (u : Task) × (handle_pkg 1 early writing.loop ≡ ok s)
    × (s.tasks 200 ≡ some u)
    × (u.notified ≡ 1)
    × (write_cb 200 0 (returned_from 200 s) ≡ fault)
unfolding writes_now sends_now joins_now connects_now asks started ssn_connect async_cb run_task
    with_task set_task start_connect do_connect ask_connect cl_task_add cl_conn_find2 await_connect
    new_conn start_timer insert set_conn find erase connect_cb establish set_err finish_task
    drop_timer cl_task_find cl_task_del cl_timer_find cl_conn_add with_conn report apply_conn_id
    post write_begun connect_begun with_timer ssn_send send_request cl_conn_find rw_task conn_task
    proto_build_package
Runs-AnsweredEarly_example =
    Runs-AnsweredEarly writing 200 (rw_task 0 1 1 (104 ∷ []) 0) 1 0 early run refl refl refl refl

Runs-EndsLoop_example :
    EndsLoop 300 (close_task 5) (closing 300 5 writing) (async_cb 300 works (closing 300 5 writing))
unfolding writes_now sends_now joins_now connects_now asks started ssn_connect async_cb run_task
    with_task set_task start_connect do_connect ask_connect cl_task_add cl_conn_find2 await_connect
    new_conn start_timer insert set_conn find erase connect_cb establish set_err finish_task
    drop_timer cl_task_find cl_task_del cl_timer_find cl_conn_add with_conn report apply_conn_id
    post write_begun connect_begun with_timer ssn_send send_request cl_conn_find rw_task conn_task
Runs-EndsLoop_example = Runs-EndsLoop writing 300 5 works run refl

-- libuv reports the write as cancelled.
Runs-WokenTwice_example :
    WokenTwice 200 (async_cb 300 works (closing 300 5 writing) >>= write_cb 200 4294967171)
unfolding writes_now sends_now joins_now connects_now asks started ssn_connect async_cb run_task
    with_task set_task start_connect do_connect ask_connect cl_task_add cl_conn_find2 await_connect
    new_conn start_timer insert set_conn find erase connect_cb establish set_err finish_task
    drop_timer cl_task_find cl_task_del cl_timer_find cl_conn_add with_conn report apply_conn_id
    post write_begun connect_begun with_timer ssn_send send_request cl_conn_find rw_task conn_task
Runs-WokenTwice_example =
    Runs-WokenTwice writing 300 5 works 200 4294967171 run refl refl (omega arith)
