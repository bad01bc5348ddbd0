-- ===== src/Client/Closing.antt =====
-- A client is closed, whatever it has done before.
use udpboardcast.Base.{
  ℕ, ◌≡◌, ◌≢◌, refl, ap, ◌∙◌, true, false, [], ◌∷◌, none, some, All, ◌==◌, arith,
}
use udpboardcast.Table.{Table, values}
use udpboardcast.Table.Entries.{All-From, All-find}
use udpboardcast.Errors.{err_shutdown}
use udpboardcast.ClientLoop.{Ptr, rw_type, Task, ClientLoop, Outcome, ok, ◌>>=◌, set_task}
use udpboardcast.ClientLoop.Tasks.{finish_task, fail_task, rw_written, write_cb}
use udpboardcast.ClientLoop.Async.{UvResults, async_cb}
use udpboardcast.ClientLoop.Invariant.{put_self}
use udpboardcast.ClientLoop.Finish.{Timed, woken, finish_task-Ends}
use udpboardcast.ClientLoop.Conclude.{set_err_lem}
use udpboardcast.ClientLoop.Keeps.{Present}
use udpboardcast.ClientLoop.Handles.{Armed}
use udpboardcast.ClientLoop.Shutdown.{Shut}
use udpboardcast.ClientLoop.Closing.{EndsLoop, async_cb-EndsLoop}
use udpboardcast.ClientLoop.Written.{write_cb_lem}
use udpboardcast.Interface.Startup.{close_task}
use udpboardcast.Interface.Calls.{Inv-new_task}
use udpboardcast.Client.{Client, started, Runs}
use udpboardcast.Client.Sound.{Sound, Sound-Inv}
use udpboardcast.Client.Sound.Reach.{Runs-Sound}

All-values : (P : Ptr → Type 0) (m : Table Ptr) → All (λ e. P e.1) m → All P (values m)
All-values P [] h = tt
All-values P (e ∷ m) h = (h.0, All-values P m h.1)

-- The connections and the timers of the tables are in memory.
present : (k : Client) → Sound k → All (Present k.loop.conns) (values k.loop.conn_table)
present k v = All-values (Present k.loop.conns) k.loop.conn_table (
    All-From (λ id c. Present k.loop.conns c) 0 k.loop.conn_table v.links.keys
      (λ id c there. let (x, at, _) = v.links.rows id c there in (x, at)))

armed : (k : Client) → Sound k → All (Armed k.loop) (values k.loop.timer_table)
armed k v = All-values (Armed k.loop) k.loop.timer_table (
    All-From (λ id q. Armed k.loop q) 0 k.loop.timer_table v.timed.keys
      (λ id q there.
        let (td, at, runs, _) = v.timed.armed id q there in
        let (_, _, aimed) = v.timed.live q td at runs in
        (td, at, λ c e. (v.asked c td.task_id (aimed c e)).0)))

-- The client once a caller has handed over the task that closes it.
abbrev pub closing : Ptr → ℕ → Client → ClientLoop
closing p stale k = set_task p (close_task stale) k.loop

close-EndsLoop :
    (k : Client) (p : Ptr) (stale : ℕ) (uv : UvResults)
    → Sound k
    → k.loop.tasks p ≡ none
    → EndsLoop p (close_task stale) (closing p stale k) (async_cb p uv (closing p stale k))
unfolding close_task set_task
close-EndsLoop k p stale uv v free =
    let i = Sound-Inv k v in
    async_cb-EndsLoop p (close_task stale) uv (closing p stale k)
      (Inv-new_task p (close_task stale) k.loop i free refl) v.placed.keys (present k v) (armed k v)
      v.running v.inited (put_self k.loop.tasks p (close_task stale)) refl refl
      (λ id there. let w = i.waiting id p there in cc (w.at, free))

-- From every state that a client reaches, as long as no answer came to a request before the callback
-- for its write, the task that closes it comes to its end without a fault:
-- the caller of each task of the table is woken once with the shutdown error, and then the one that
-- closes; each connection of the table is closed and no longer read, and the loop is stopped with an
-- empty table.
pub Runs-EndsLoop :
    (k : Client) (p : Ptr) (stale : ℕ) (uv : UvResults)
    → Runs started k
    → k.loop.tasks p ≡ none
    → EndsLoop p (close_task stale) (closing p stale k) (async_cb p uv (closing p stale k))
Runs-EndsLoop k p stale uv run free = close-EndsLoop k p stale uv (Runs-Sound k run) free

-- A task that has been woken a second time.
pub record WokenTwice (q : Ptr) (r : Outcome) : Type 0 where
  pub next : ClientLoop
  pub result : r ≡ ok next
  pub task : Task
  pub at : next.tasks q ≡ some task
  pub twice : task.notified ≡ 2

-- A request that has been woken, whose write then fails.
late_write :
    (q : Ptr) (t : Task) (status : ℕ) (s : ClientLoop)
    → Timed s
    → s.tasks q ≡ some t
    → t.task_type ≡ rw_type
    → t.notified ≡ 1
    → status ≢ 0
    → WokenTwice q (write_cb q status s)
unfolding fail_task rw_written set_task
late_write q t status s timed at kind awake bad =
    let t' : Task = record t { err = status } in
    let e = finish_task-Ends q t' (set_task q t' s) timed (put_self s.tasks q t') in
    let fails : (status == 0) ≡ false = ground (arith, bad) in
    record {
      next = e.next;
      result =
          write_cb_lem q t status s at kind
          ∙ rw fails refl
          ∙ ap (λ r. r >>= finish_task q) (set_err_lem q t status s at)
          ∙ e.result;
      task = woken t';
      at = ap (λ m. m q) e.tasks ∙ put_self (set_task q t' s).tasks q (woken t');
      twice = omega (arith, awake);
    }

-- If a client to which no answer came before the callback for the write of its request is closed
-- while a request is being written, its caller is woken once by the shutdown;
-- libuv then ends the write with an error, and `write_cb` wakes the same task again, which lies on
-- the stack of a call that may have returned.
pub Runs-WokenTwice :
    (k : Client) (p : Ptr) (stale : ℕ) (uv : UvResults) (q : Ptr) (status : ℕ)
    → Runs started k
    → k.loop.tasks p ≡ none
    → k.writing q ≡ true
    → status ≢ 0
    → WokenTwice q (async_cb p uv (closing p stale k) >>= write_cb q status)
unfolding set_task
Runs-WokenTwice k p stale uv q status run free on bad =
    let v = Runs-Sound k run in
    let e = close-EndsLoop k p stale uv v free in
    let (t, at, kind, there, _) = v.written q on in
    let (u, was, asleep, after) =
      All-find (Shut (closing p stale k) e.next) t.task_id q k.loop.task_table there e.shut in
    let same : some u ≡ some t = ground (arith, was, at, free) in
    let w =
      late_write q (woken (record u { err = err_shutdown })) status e.next e.inv.ticking after
        (ground (arith, same, kind)) (omega (arith, asleep)) bad in
    record {
      next = w.next;
      result = ap (λ r. r >>= write_cb q status) e.result ∙ w.result;
      task = w.task;
      at = w.at;
      twice = w.twice;
    }
