-- ===== src/ClientLoop/Read.antt =====
-- What arrives on a connection: the client's half of `_read_content_process`, `read_cb` and
-- `close_cb` of Communication/core/comm_core.cpp.
use udpboardcast.Base.{ℕ, Bool, false, ◌&&◌, List, [], ◌∷◌, Option, none, some, ◌==◌, if◌then◌else◌}
use udpboardcast.Table.{Table}
use udpboardcast.Proto.{CommPkg, pkg_type_common, pkg_type_push}
use udpboardcast.Stream.{received, out_of_bounds, never_returns, receive}
use udpboardcast.ClientLoop.{
  Ptr, is_rw, Task, conn_changed, push_message, ClientLoop, Outcome, ok, fault, ◌>>=◌, with_task,
  with_conn, with_timer, put, set_task, set_conn, close_conn, cl_task_find, cl_task_del,
  cl_conn_find, cl_conn_del, report,
}
use udpboardcast.ClientLoop.Tasks.{finish_task, drop_timer}

-- The answer to the task at `p`. The cast to `rw_task_t*` holds for a request only.
unfoldable pub answer : CommPkg → Ptr → ClientLoop → Outcome
answer pkg p s = with_task p s λ t.
    if is_rw t.task_type
    then finish_task p (set_task p (record t { err = 0; outdata = pkg.payload }) s)
    else fault

unfoldable pub answer_task : CommPkg → Option Ptr → ClientLoop → Outcome
answer_task pkg none s = ok s
answer_task pkg (some p) s = answer pkg p s

-- One package of `taskList`, from the connection with the id `conn`. The last branch is
-- `assert(0)`.
unfoldable pub handle_pkg : (conn : ℕ) → CommPkg → ClientLoop → Outcome
handle_pkg conn pkg s =
    if pkg.pkg_type == pkg_type_common
    then drop_timer pkg.task_id (cl_task_del pkg.task_id s)
      >>= answer_task pkg (cl_task_find pkg.task_id s)
    else if pkg.pkg_type == pkg_type_push
    then ok (report (push_message conn pkg.payload) s)
    else fault

unfoldable pub handle_pkgs : (conn : ℕ) → List CommPkg → ClientLoop → Outcome
handle_pkgs conn [] s = ok s
handle_pkgs conn (pkg ∷ pkgs) s = handle_pkg conn pkg s >>= handle_pkgs conn pkgs

-- `_read_content_process` on the client loop. A loop that never ends gives no state either.
unfoldable pub read_content : Ptr → List ℕ → ClientLoop → Outcome
read_content c content s = with_conn c s λ x. elim (receive x.tcp content) [
  | received pkgs tcp ↦ handle_pkgs x.conn_id pkgs (set_conn c (record x { tcp = tcp }) s)
  | out_of_bounds ↦ fault
  | never_returns ↦ fault
]

-- Whether the task at `p` is a request on the connection with the id `conn`.
unfoldable pub is_request_on : (conn : ℕ) → (Ptr → Option Task) → Ptr → Bool
is_request_on conn tasks p = elim (tasks p) [
  | none ↦ false
  | some t ↦ is_rw t.task_type && t.conn_id == conn
]

-- `cl_task_del_by_connId`: the requests on a connection, and the other entries of the table.
unfoldable pub requests_on : (conn : ℕ) → (Ptr → Option Task) → Table Ptr → List Ptr
requests_on conn tasks [] = []
requests_on conn tasks ((_, p) ∷ m) =
    let rest = requests_on conn tasks m in if is_request_on conn tasks p then p ∷ rest else rest

unfoldable pub others_than : (conn : ℕ) → (Ptr → Option Task) → Table Ptr → Table Ptr
others_than conn tasks [] = []
others_than conn tasks ((id, p) ∷ m) =
    let rest = others_than conn tasks m in
    if is_request_on conn tasks p then rest else (id, p) ∷ rest

-- The loop over the tasks of a lost connection: `_cl_finish_task((abs_task_t*)&(*it))` is given
-- the address of the vector's element, where no task is.
unfoldable pub finish_lost : List Ptr → ClientLoop → Outcome
finish_lost [] s = ok s
finish_lost (p ∷ ps) s = fault

-- The case `nread < 0` of `read_cb` on the client loop.
unfoldable pub lose_conn : Ptr → ClientLoop → Outcome
lose_conn c s = with_conn c s λ x.
    close_conn c (set_conn c (record x { reading = false }) s) >>= λ s.
    let s' = report (conn_changed x.conn_id x.ip false) (cl_conn_del x.conn_id s) in
    finish_lost (requests_on x.conn_id s'.tasks s'.task_table)
      (record s' { task_table = others_than x.conn_id s'.tasks s'.task_table })

-- What a read of the socket gave: nothing, an error, or bytes.
pub data Nread : Type 0 where
  nothing : Nread
  failed : ℕ → Nread
  bytes : List ℕ → Nread

unfoldable pub read_cb : Ptr → Nread → ClientLoop → Outcome
read_cb c nothing s = ok s
read_cb c (failed err) s = lose_conn c s
read_cb c (bytes content) s = read_content c content s

-- `close_cb` for the handle of the connection at `c`, which is deleted. If the connection is still
-- in the table, it leaves it and the user is told.
unfoldable pub close_cb : Ptr → ClientLoop → Outcome
close_cb c s = with_conn c s λ x.
    let gone = record s { conns = λ a. if a == c then none else s.conns a } in
    elim (cl_conn_find x.conn_id s) [
      | none ↦ ok gone
      | some _ ↦ ok (report (conn_changed x.conn_id x.ip false) (cl_conn_del x.conn_id gone))
    ]

-- `close_cb` for the handle of the timer at `q`, which is deleted.
unfoldable pub timer_close_cb : Ptr → ClientLoop → Outcome
timer_close_cb q s = with_timer q s λ td. ok (record s { timers = put s.timers q none })
