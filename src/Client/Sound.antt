-- ===== src/Client/Sound.antt =====
-- The invariant of a client that has not been closed.
pub mod Over
pub mod Rules
pub mod Parts
pub mod Branches
pub mod Takes
pub mod Writes
pub mod Timers
pub mod Settles
pub mod Joins
pub mod Packages
pub mod Reads
pub mod Calls
pub mod Reach
use udpboardcast.Base.{
  ℕ, ◌+◌, ◌^◌, ◌≤◌, ◌<◌, ◌≡◌, ◌≢◌, ◌⊎◌, Bool, true, false, Option, none, some, ◌==◌, if◌then◌else◌,
  inl, inr, Option-cases, arith,
}
use udpboardcast.Table.{Table, find, IsMap}
use udpboardcast.ClientLoop.{Ptr, rw_type, connect_type, Task, Conn, TimerData, ClientLoop}
use udpboardcast.ClientLoop.Invariant.{Inv, Waits}
use udpboardcast.ClientLoop.Keeps.{Present}
use udpboardcast.ClientLoop.Links.{Links}
use udpboardcast.Client.{Client}

abbrev pub bit : Bool → ℕ
bit true = 1
bit false = 0

-- 1 if the table leads from `id` to `p`.
abbrev pub listed : Ptr → ℕ → Table Ptr → ℕ
listed p id m = elim (find id m) [ none ↦ 0 | some q ↦ if q == p then 1 else 0 ]

-- Each task is on its way to the loop, or waits in the table under its id, or has been woken once.
pub record Placed (tasks : Ptr → Option Task) (m : Table Ptr) (mail : Ptr → Bool) (counter : ℕ)
    : Type 0 where
  pub one :
      (p : Ptr) (t : Task) → tasks p ≡ some t → bit (mail p) + listed p t.task_id m + t.notified ≡ 1
  pub mailed :
      (p : Ptr)
      → mail p ≡ true
      → (t : Task) × (tasks p ≡ some t) × ((t.task_type ≡ rw_type) ⊎ (t.task_type ≡ connect_type))
  pub own : (id p : ℕ) → find id m ≡ some p → (t : Task) × (tasks p ≡ some t) × (t.task_id ≡ id)
  pub ids :
      (p q : Ptr) (t u : Task) → tasks p ≡ some t → tasks q ≡ some u → t.task_id ≡ u.task_id → p ≡ q
  pub below : (p : Ptr) (t : Task) → tasks p ≡ some t → t.task_id < counter
  pub keys : IsMap m

-- The timers that run are those of the table; each belongs to a task that waits, and the handle
-- that it would close is that of the connection being made for the task.
pub record Timed (timers : Ptr → Option TimerData) (tm m : Table Ptr) (connecting : Ptr → Option ℕ)
    (n : Ptr) : Type 0 where
  pub armed :
      (id q : ℕ)
      → find id tm ≡ some q
      → (td : TimerData) × (timers q ≡ some td) × (td.closing ≡ false) × (td.task_id ≡ id)
  pub live :
      (q : Ptr) (td : TimerData)
      → timers q ≡ some td
      → td.closing ≡ false
      → (find td.task_id tm ≡ some q)
        × ((p : Ptr) × (find td.task_id m ≡ some p))
        × ((c : Ptr) → td.target ≡ some c → connecting c ≡ some td.task_id)
  pub keys : IsMap tm
  pub fresh : (q : Ptr) → n ≤ q → timers q ≡ none

-- A connection that is being made is in memory, and not yet in the table.
abbrev pub Asked : (Ptr → Option ℕ) → (Ptr → Option Conn) → Table Ptr → Type 0
Asked connecting conns m =
    (c : Ptr) (id : ℕ) → connecting c ≡ some id → Present conns c × ((j : ℕ) → find j m ≢ some c)

-- The id of a connection that is being made was given out, to a task that asked for it.
abbrev pub Attempts : (Ptr → Option ℕ) → (Ptr → Option Task) → ℕ → Type 0
Attempts connecting tasks counter =
    (c : Ptr) (id : ℕ)
    → connecting c ≡ some id
    → (id < counter)
      × ((p : Ptr) (t : Task) → tasks p ≡ some t → t.task_id ≡ id → t.task_type ≡ connect_type)

-- A write in flight is that of a request that waits and has no timer yet.
abbrev pub Written : (Ptr → Bool) → (Ptr → Option Task) → Table Ptr → Table Ptr → Type 0
Written writing tasks m tm =
    (p : Ptr)
    → writing p ≡ true
    → (t : Task) × (tasks p ≡ some t)
      × (t.task_type ≡ rw_type)
      × (find t.task_id m ≡ some p)
      × (find t.task_id tm ≡ none)

-- The ids of connections are `uint16_t`, and not 0; `i` is their counter.
abbrev pub Numbered : Table Ptr → ℕ → Type 0
Numbered m i = (i < 2 ^ 16) × ((j c : ℕ) → find j m ≡ some c → (1 ≤ j) × (j < 2 ^ 16))

pub record Sound (k : Client) : Type 0 where
  pub running : k.loop.running ≡ true
  pub inited : k.loop.inited ≡ true
  pub placed : Placed k.loop.tasks k.loop.task_table k.mail k.counter
  pub timed : Timed k.loop.timers k.loop.timer_table k.loop.task_table k.connecting k.loop.next_ptr
  pub links : Links k.loop.conn_table k.loop.conns k.loop.next_ptr
  pub asked : Asked k.connecting k.loop.conns k.loop.conn_table
  pub attempts : Attempts k.connecting k.loop.tasks k.counter
  pub numbered : Numbered k.loop.conn_table k.loop.next_conn_id
  pub small : k.counter < 2 ^ 64
  pub written : Written k.writing k.loop.tasks k.loop.task_table k.loop.timer_table

-- A task that the table leads to is asleep and not on its way.
pub listed-asleep :
    {tasks : Ptr → Option Task} {m : Table Ptr} {mail : Ptr → Bool} {counter : ℕ} (id p : ℕ)
    (t : Task)
    → Placed tasks m mail counter
    → find id m ≡ some p
    → tasks p ≡ some t
    → (t.task_id ≡ id) × (t.notified ≡ 0) × (mail p ≡ false)
listed-asleep id p t v there at =
    let (u, at', own) = v.own id p there in
    let same : t.task_id ≡ id = ground (arith, at, at', own) in
    (same, ground (arith, v.one p t at, there, same), ground (arith, v.one p t at, there, same))

-- A task on its way is asleep, and the table has nothing under its id.
pub mailed-absent :
    {tasks : Ptr → Option Task} {m : Table Ptr} {mail : Ptr → Bool} {counter : ℕ} (p : Ptr)
    (t : Task)
    → Placed tasks m mail counter
    → mail p ≡ true
    → tasks p ≡ some t
    → (t.notified ≡ 0) × (find t.task_id m ≡ none)
mailed-absent {m} p t v there at = (
  ground (arith, v.one p t at, there),
  elim (Option-cases (find t.task_id m)) [
    | inl absent ↦ absent
    | inr (q, listed) ↦
        let (u, at', own) = v.own t.task_id q listed in
        let same : q ≡ p = v.ids q p u t at' at own in
        absurd (ground (arith, v.one p t at, there, listed, same))
  ],
)

-- The invariant of the loop alone.
pub Sound-Inv : (k : Client) → Sound k → Inv k.loop
Sound-Inv k v = record {
  waiting = λ id p there.
      let (t, at, own) = v.placed.own id p there in
      record {
        task = t;
        at = at;
        own_id = own;
        asleep = (listed-asleep id p t v.placed there at).1;
      };
  once = λ p t at. omega (arith, v.placed.one p t at);
  ticking =
      λ id q there. let (td, at, _, _) = v.timed.armed id q there in record { timer = td; at = at };
}
