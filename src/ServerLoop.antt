-- ===== src/ServerLoop.antt =====
-- The server loop: its state, with the objects behind its pointers, and the tables of
-- Communication/core/comm_res.cpp (`sl_*`). The handlers of core/comm_core.cpp are in the children.
pub mod Requests
pub mod Async
pub mod Listen
pub mod Life
pub mod Responses
pub mod Full
pub mod Accepted
pub mod Push
pub mod Changes
pub mod PoolEnd
pub mod Shutdown
pub mod Closing
pub mod Rows
pub mod Calls
pub mod Steps
pub mod Startup
pub mod Sound
use udpboardcast.Base.{
  ℕ, ◌+◌, Bool, true, false, ◌&&◌, List, [], ◌∷◌, ◌++◌, Option, none, some, ◌==◌, if◌then◌else◌,
}
use udpboardcast.Table.{Table, find, insert, erase}
use udpboardcast.Proto.{CommPkg}
use udpboardcast.ClientLoop.{Ptr, TaskType, Task, Conn, put}

-- `server_loop_t`, the objects behind its pointers, and what is under way: `queue` is the pool's,
-- `working` the jobs whose callback runs on a thread of the pool, `mail` the tasks handed to the
-- loop by `uv_async_send`, `writing` the tasks of the responses that libuv writes. `pushes` counts
-- the tasks that `_do_push` has allocated and `write_cb` has not yet freed, and `sent` is what
-- `uv_write` took, with the connection, newest first. `dozing` is whether an idle thread of the pool
-- has found no unit in `exit_sem` and has yet to look at the queue and to wait, after the broadcast
-- if the pool ends now (`drowsy` in ThreadPool/Lost). A `resp_task_t` keeps its `data` in `indata`.
pub record ServerLoop : Type 0 where
  pub running : Bool
  pub inited : Bool
  pub listen_closing : Bool
  pub conn_table : Table Ptr
  pub conns : Ptr → Option Conn
  pub tasks : Ptr → Option Task
  pub queue : List Ptr
  pub working : List Ptr
  pub mail : List Ptr
  pub writing : List Ptr
  pub pushes : ℕ
  pub sent : List (Ptr × CommPkg)
  pub next_ptr : Ptr
  pub next_conn_id : ℕ
  pub dozing : Bool

-- A handler ends in a new state, touches memory that it must not, or never returns.
pub data Outcome : Type 0 where
  ok : ServerLoop → Outcome
  fault : Outcome
  hangs : Outcome

infixl 5 ◌>>=◌
abbrev pub ◌>>=◌ : Outcome → (ServerLoop → Outcome) → Outcome
ok s >>= f = f s
fault >>= f = fault
hangs >>= f = hangs

-- `*p` for a task, handed to what follows.
unfoldable pub with_task : Ptr → ServerLoop → (Task → Outcome) → Outcome
with_task p s f = elim (s.tasks p) [ none ↦ fault | some t ↦ f t ]

unfoldable pub with_conn : Ptr → ServerLoop → (Conn → Outcome) → Outcome
with_conn c s f = elim (s.conns c) [ none ↦ fault | some x ↦ f x ]

unfoldable pub set_task : Ptr → Task → ServerLoop → ServerLoop
set_task p t s = record s { tasks = put s.tasks p (some t) }

unfoldable pub set_conn : Ptr → Conn → ServerLoop → ServerLoop
set_conn c x s = record s { conns = put s.conns c (some x) }

-- `_safe_uv_close` on the handle of a connection.
unfoldable pub close_conn : Ptr → ServerLoop → Outcome
unfolding with_conn set_conn
close_conn c s = with_conn c s λ x. ok (set_conn c (record x { closing = true }) s)

unfoldable pub sl_conn_find : ℕ → ServerLoop → Option Ptr
sl_conn_find id s = find id s.conn_table

unfoldable pub sl_conn_del : ℕ → ServerLoop → ServerLoop
sl_conn_del id s = record s { conn_table = erase id s.conn_table }

-- `sl_conn_add`: an id that is taken is refused, and nothing changes.
unfoldable pub sl_conn_add : ℕ → Ptr → ServerLoop → Outcome
unfolding with_conn set_conn
sl_conn_add id c s = elim (find id s.conn_table) [
  | some _ ↦ ok s
  | none ↦ with_conn c s λ x.
      ok (
        set_conn c (record x { conn_id = id }) (record s { conn_table = insert id c s.conn_table }))
]

-- Whether `sl_create_async` returns a handle.
unfoldable pub sl_create_async : ServerLoop → Bool
sl_create_async s = s.inited && s.running

-- The first entry of `p` taken out of a list.
unfoldable pub remove : Ptr → List Ptr → List Ptr
remove p [] = []
remove p (q ∷ qs) = let rest = remove p qs in if p == q then qs else q ∷ rest

-- `_sl_finish_task`, but for `errmsg`: one post on `notify`.
unfoldable pub finish_task : Ptr → ServerLoop → Outcome
unfolding with_task set_task
finish_task p s = with_task p s λ t. ok (set_task p (record t { notified = t.notified + 1 }) s)

-- `task->err = e; _sl_finish_task(task);`
unfoldable pub fail_task : Ptr → ℕ → ServerLoop → Outcome
unfolding with_task set_task finish_task
fail_task p e s = with_task p s λ t. finish_task p (set_task p (record t { err = e }) s)
