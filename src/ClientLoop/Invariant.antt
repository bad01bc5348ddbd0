-- ===== src/ClientLoop/Invariant.antt =====
-- What holds of the client loop between two callbacks.
use udpboardcast.Base.{ℕ, ◌≤◌, ◌≡◌, refl, ◌==◌, false, Option, some, true, ==_refl}
use udpboardcast.Table.{find}
use udpboardcast.ClientLoop.{
  close_conn, set_conn, ok, Conn, Outcome, with_task, with_conn, Ptr, put, Task, TimerData,
  ClientLoop,
}

-- A task that waits in the table: it lies where the table says, under its own id, and its caller
-- has not been woken.
pub record Waits (tasks : Ptr → Option Task) (id : ℕ) (p : Ptr) : Type 0 where
  pub task : Task
  pub at : tasks p ≡ some task
  pub own_id : task.task_id ≡ id
  pub asleep : task.notified ≡ 0

-- A timer of the table lies where the table says.
pub record Ticks (timers : Ptr → Option TimerData) (q : Ptr) : Type 0 where
  pub timer : TimerData
  pub at : timers q ≡ some timer

pub record Inv (s : ClientLoop) : Type 0 where
  pub waiting : (id p : ℕ) → find id s.task_table ≡ some p → Waits s.tasks id p
  pub once : (p : ℕ) (t : Task) → s.tasks p ≡ some t → t.notified ≤ 1
  pub ticking : (id q : ℕ) → find id s.timer_table ≡ some q → Ticks s.timers q

-- The parts of the state that the end of a task does not touch.
pub record SameRest (s s' : ClientLoop) : Type 0 where
  pub running : s'.running ≡ s.running
  pub inited : s'.inited ≡ s.inited
  pub conn_table : s'.conn_table ≡ s.conn_table
  pub conns : s'.conns ≡ s.conns
  pub next_ptr : s'.next_ptr ≡ s.next_ptr
  pub events : s'.events ≡ s.events
  pub next_conn_id : s'.next_conn_id ≡ s.next_conn_id

-- For states that agree on those parts by computation.
pub untouched : {s : ClientLoop} → SameRest s s
untouched = record {
  running = refl;
  inited = refl;
  conn_table = refl;
  conns = refl;
  next_ptr = refl;
  events = refl;
  next_conn_id = refl;
}

pub put_self {ℓ} : {A : Type ℓ} (m : Ptr → Option A) (p : Ptr) (a : A) → put m p (some a) p ≡ some a
put_self m p a = rw (==_refl p)

pub put_other {ℓ} :
    {A : Type ℓ} (m : Ptr → Option A) (p : Ptr) (a : Option A) (q : Ptr)
    → (q == p) ≡ false
    → put m p a q ≡ m q
put_other m p a q other = rw other

-- A read through a pointer that leads to an object.
pub with_task_lem :
    (p : Ptr) (s : ClientLoop) (f : Task → Outcome) {t : Task}
    → s.tasks p ≡ some t
    → with_task p s f ≡ f t
unfolding with_task
with_task_lem p s f at = rw (at, with_task)

pub with_conn_lem :
    (c : Ptr) (s : ClientLoop) (f : Conn → Outcome) {x : Conn}
    → s.conns c ≡ some x
    → with_conn c s f ≡ f x
unfolding with_conn
with_conn_lem c s f at = rw (at, with_conn)

pub close_conn_lem :
    (c : Ptr) (x : Conn) (s : ClientLoop)
    → s.conns c ≡ some x
    → close_conn c s ≡ ok (set_conn c (record x { closing = true }) s)
unfolding close_conn
close_conn_lem c x s at = with_conn_lem c s _ at
