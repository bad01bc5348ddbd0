-- ===== src/ClientLoop.antt =====
-- The client loop: its state, the tables of Communication/core/comm_res.cpp (`cl_*`), and the
-- memory that the pointers in them lead to. The handlers of core/comm_core.cpp are in the children.
pub mod Tasks
pub mod Connect
pub mod Read
pub mod Async
pub mod Invariant
pub mod Clock
pub mod Links
pub mod Finish
pub mod Conclude
pub mod Written
pub mod Timeout
pub mod Submit
pub mod Answer
pub mod Lost
pub mod Connected
pub mod Shutdown
pub mod Keeps
pub mod Handles
pub mod Closing
use Prim.Native.String.{String}
use text.Mathlib.Text.{◌==◌ as str_eq}
use udpboardcast.Base.{
  ℕ, ◌+◌, Bool, true, false, ◌&&◌, List, [], ◌∷◌, ◌++◌, Option, none, some, ◌==◌, if◌then◌else◌,
}
use udpboardcast.Table.{Table, find, insert, erase}
use udpboardcast.Stream.{CommTcp, fresh_tcp}

abbrev pub Ptr : Type 0
Ptr = ℕ

-- `async_task_type`.
pub data TaskType : Type 0 where
  rw_type push_type resp_type connect_type close_type : TaskType

abbrev pub is_rw : TaskType → Bool
is_rw rw_type = true
is_rw push_type = false
is_rw resp_type = false
is_rw connect_type = false
is_rw close_type = false

-- `abs_task_t` with the fields of `rw_task_t` and `conn_task_t`. `err` is a `uint32_t`; `notified`
-- counts the posts on the semaphore `notify`, for each of which one waiting caller goes on.
pub record Task : Type 0 where
  pub task_type : TaskType
  pub task_id : ℕ
  pub timeout : ℕ
  pub conn_id : ℕ
  pub ip : String
  pub indata : List ℕ
  pub outdata : List ℕ
  pub err : ℕ
  pub notified : ℕ

-- `tcp_conn_t`, with the state of its handle.
pub record Conn : Type 0 where
  pub conn_id : ℕ
  pub ip : String
  pub tcp : CommTcp
  pub reading : Bool
  pub closing : Bool

-- `timer_data_t`: `target` is `data`, the handle that a timeout closes.
pub record TimerData : Type 0 where
  pub task_id : ℕ
  pub target : Option Ptr
  pub closing : Bool

-- A call of the user's `conn_cb` or `pushmsg_cb`.
pub data Event : Type 0 where
  conn_changed : ℕ → String → Bool → Event
  push_message : ℕ → List ℕ → Event

-- `client_loop_t`, the objects behind its pointers, the next address that `new` returns, the
-- counter of `g_ConnIdForClt`, and the calls of the user's callbacks so far, newest first.
pub record ClientLoop : Type 0 where
  pub running : Bool
  pub inited : Bool
  pub conn_table : Table Ptr
  pub task_table : Table Ptr
  pub timer_table : Table Ptr
  pub tasks : Ptr → Option Task
  pub conns : Ptr → Option Conn
  pub timers : Ptr → Option TimerData
  pub next_ptr : Ptr
  pub next_conn_id : ℕ
  pub events : List Event

-- A handler ends in a new state, or reads or writes memory that it must not, or fails an assert.
pub data Outcome : Type 0 where
  ok : ClientLoop → Outcome
  fault : Outcome

infixl 5 ◌>>=◌
abbrev pub ◌>>=◌ : Outcome → (ClientLoop → Outcome) → Outcome
ok s >>= f = f s
fault >>= f = fault

abbrev pub put {ℓ} : {A : Type ℓ} → (Ptr → Option A) → Ptr → Option A → Ptr → Option A
put m p a q = if q == p then a else m q

-- `*p` for a task, handed to what follows.
unfoldable pub with_task : Ptr → ClientLoop → (Task → Outcome) → Outcome
with_task p s f = elim (s.tasks p) [ none ↦ fault | some t ↦ f t ]

unfoldable pub with_conn : Ptr → ClientLoop → (Conn → Outcome) → Outcome
with_conn c s f = elim (s.conns c) [ none ↦ fault | some t ↦ f t ]

unfoldable pub with_timer : Ptr → ClientLoop → (TimerData → Outcome) → Outcome
with_timer q s f = elim (s.timers q) [ none ↦ fault | some t ↦ f t ]

unfoldable pub set_task : Ptr → Task → ClientLoop → ClientLoop
set_task p t s = record s { tasks = put s.tasks p (some t) }

unfoldable pub set_conn : Ptr → Conn → ClientLoop → ClientLoop
set_conn c x s = record s { conns = put s.conns c (some x) }

unfoldable pub set_timer : Ptr → TimerData → ClientLoop → ClientLoop
set_timer q td s = record s { timers = put s.timers q (some td) }

-- `task->err = e`.
unfoldable pub set_err : Ptr → ℕ → ClientLoop → Outcome
unfolding with_task set_task
set_err p e s = with_task p s λ t. ok (set_task p (record t { err = e }) s)

-- `_safe_uv_close` on a connection's handle and on a timer's: a handle is closed at most once.
unfoldable pub close_conn : Ptr → ClientLoop → Outcome
unfolding with_conn set_conn
close_conn c s = with_conn c s λ x. ok (set_conn c (record x { closing = true }) s)

unfoldable pub close_timer : Ptr → ClientLoop → Outcome
unfolding with_timer set_timer
close_timer q s = with_timer q s λ td. ok (set_timer q (record td { closing = true }) s)

unfoldable pub close_target : Option Ptr → ClientLoop → Outcome
unfolding close_conn
close_target none s = ok s
close_target (some c) s = close_conn c s

-- `cl_task_add`, and the table left by `cl_task_del`; what the latter returns is `find` before it.
unfoldable pub cl_task_add : ℕ → Ptr → ClientLoop → ClientLoop
cl_task_add id p s = record s { task_table = insert id p s.task_table }

unfoldable pub cl_task_find : ℕ → ClientLoop → Option Ptr
cl_task_find id s = find id s.task_table

unfoldable pub cl_task_del : ℕ → ClientLoop → ClientLoop
cl_task_del id s = record s { task_table = erase id s.task_table }

unfoldable pub cl_timer_add : ℕ → Ptr → ClientLoop → ClientLoop
cl_timer_add id q s = record s { timer_table = insert id q s.timer_table }

unfoldable pub cl_timer_find : ℕ → ClientLoop → Option Ptr
cl_timer_find id s = find id s.timer_table

unfoldable pub cl_timer_del : ℕ → ClientLoop → ClientLoop
cl_timer_del id s = record s { timer_table = erase id s.timer_table }

unfoldable pub cl_conn_find : ℕ → ClientLoop → Option Ptr
cl_conn_find id s = find id s.conn_table

unfoldable pub cl_conn_del : ℕ → ClientLoop → ClientLoop
cl_conn_del id s = record s { conn_table = erase id s.conn_table }

-- `cl_conn_add`: an id that is taken is refused (`err = -1`), and nothing changes.
unfoldable pub cl_conn_add : ℕ → Ptr → ClientLoop → Outcome
unfolding with_conn set_conn
cl_conn_add id c s = elim (find id s.conn_table) [
  | some _ ↦ ok s
  | none ↦ with_conn c s λ x.
      ok (
        set_conn c (record x { conn_id = id }) (record s { conn_table = insert id c s.conn_table }))
]

-- Whether the connection at `c` has the address `ip`.
unfoldable pub has_ip : String → (Ptr → Option Conn) → Ptr → Bool
has_ip ip conns c = elim (conns c) [ none ↦ false | some x ↦ str_eq x.ip ip ]

-- `cl_conn_find2`: the first connection of the table with that address.
unfoldable pub find_ip : String → (Ptr → Option Conn) → Table Ptr → Option Ptr
find_ip ip conns [] = none
find_ip ip conns ((_, c) ∷ m) = if has_ip ip conns c then some c else find_ip ip conns m

unfoldable pub cl_conn_find2 : String → ClientLoop → Option Ptr
unfolding find_ip has_ip
cl_conn_find2 ip s = find_ip ip s.conns s.conn_table

-- The user's callback.
unfoldable pub report : Event → ClientLoop → ClientLoop
report e s = record s { events = e ∷ s.events }
