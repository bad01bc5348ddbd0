-- ===== src/Client/Sound/Branches.antt =====
-- What `async_cb` and the loop over packages give on each of their branches.
use udpboardcast.Base.{
  ℕ, ◌≡◌, refl, ◌∙◌, inl, inr, true, false, none, some, ◌==◌, if◌then◌else◌, arith, ◌⊎◌,
}
use udpboardcast.Table.{find}
use udpboardcast.Errors.{err_conn_not_exist, err_conn_already_exist}
use udpboardcast.ClientLoop.{
  Ptr, rw_type, connect_type, Task, ClientLoop, ok, cl_conn_find, cl_conn_find2, close_conn,
  push_type, resp_type, close_type, is_rw, TaskType, push_message, fault, report,
}
use udpboardcast.ClientLoop.Tasks.{fail_task, drop_timer}
use udpboardcast.ClientLoop.Connect.{
  Started, new_conn, await_connect, refuse, ask_connect, do_connect,
}
use udpboardcast.ClientLoop.Async.{UvResults, send_request}
use udpboardcast.ClientLoop.Invariant.{with_task_lem}
use udpboardcast.Proto.{CommPkg, pkg_type_common, pkg_type_push}
use udpboardcast.ClientLoop.Read.{answer, handle_pkg}

pub send_absent :
    (p : Ptr) (t : Task) (uv : UvResults) (s : ClientLoop)
    → cl_conn_find t.conn_id s ≡ none
    → send_request p t uv s ≡ fail_task p err_conn_not_exist s
unfolding send_request
send_absent p t uv s absent = rw (absent, send_request) refl

pub send_known :
    (p : Ptr) (t : Task) (uv : UvResults) (c : Ptr) (s : ClientLoop)
    → cl_conn_find t.conn_id s ≡ some c
    → send_request p t uv s ≡ (if uv.written == 0 then ok s else fail_task p uv.written s)
unfolding send_request
send_known p t uv c s known = rw (known, send_request) refl

pub ask_good :
    (p : Ptr) (t : Task) (uv : UvResults) (s : ClientLoop)
    → (uv.inited == 0) ≡ true
    → (uv.connected == 0) ≡ true
    → ask_connect p t uv.inited uv.connected s
      ≡ Started.started (await_connect t s.next_ptr (new_conn t s))
unfolding ask_connect
ask_good p t uv s ready good = rw (ready, good) refl

pub ask_bad :
    (p : Ptr) (t : Task) (uv : UvResults) (s : ClientLoop)
    → (uv.inited == 0) ≡ true
    → (uv.connected == 0) ≡ false
    → ask_connect p t uv.inited uv.connected s
      ≡ refuse p uv.connected (close_conn s.next_ptr (new_conn t s))
unfolding ask_connect
ask_bad p t uv s ready bad = rw (ready, bad) refl

pub ask_failed :
    (p : Ptr) (t : Task) (uv : UvResults) (s : ClientLoop)
    → (uv.inited == 0) ≡ false
    → ask_connect p t uv.inited uv.connected s ≡ refuse p uv.inited (ok s)
unfolding ask_connect
ask_failed p t uv s failed = rw failed refl

pub do_connect_absent :
    (p : Ptr) (t : Task) (uv : UvResults) (s : ClientLoop)
    → cl_conn_find2 t.ip s ≡ none
    → do_connect p t uv.inited uv.connected s ≡ ask_connect p t uv.inited uv.connected s
unfolding do_connect
do_connect_absent p t uv s absent = rw (absent, do_connect) refl

pub do_connect_known :
    (p : Ptr) (t : Task) (uv : UvResults) (c : Ptr) (s : ClientLoop)
    → cl_conn_find2 t.ip s ≡ some c
    → do_connect p t uv.inited uv.connected s ≡ refuse p err_conn_already_exist (ok s)
unfolding do_connect
do_connect_known p t uv c s known = rw (known, do_connect) refl

pub undropped : (id : ℕ) (s : ClientLoop) → find id s.timer_table ≡ none → drop_timer id s ≡ ok s
unfolding drop_timer
undropped id s absent = ground (arith, absent)

pub TaskType-cases : (a : TaskType) → (a ≡ rw_type) ⊎ (is_rw a ≡ false)
TaskType-cases rw_type = inl refl
TaskType-cases push_type = inr refl
TaskType-cases resp_type = inr refl
TaskType-cases connect_type = inr refl
TaskType-cases close_type = inr refl

pub answer_other :
    (pkg : CommPkg) (p : Ptr) (t : Task) (s : ClientLoop)
    → s.tasks p ≡ some t
    → is_rw t.task_type ≡ false
    → answer pkg p s ≡ fault
unfolding answer
answer_other pkg p t s at other = with_task_lem p s _ at ∙ rw other refl

pub push_lem :
    (conn : ℕ) (pkg : CommPkg) (s : ClientLoop)
    → (pkg.pkg_type == pkg_type_common) ≡ false
    → (pkg.pkg_type == pkg_type_push) ≡ true
    → handle_pkg conn pkg s ≡ ok (report (push_message conn pkg.payload) s)
unfolding handle_pkg
push_lem conn pkg s uncommon push = rw (uncommon, push) refl

pub odd_lem :
    (conn : ℕ) (pkg : CommPkg) (s : ClientLoop)
    → (pkg.pkg_type == pkg_type_common) ≡ false
    → (pkg.pkg_type == pkg_type_push) ≡ false
    → handle_pkg conn pkg s ≡ fault
unfolding handle_pkg
odd_lem conn pkg s uncommon neither = rw (uncommon, neither) refl
