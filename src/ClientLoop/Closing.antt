-- ===== src/ClientLoop/Closing.antt =====
-- The task that closes the client, when the loop takes it: `async_cb` with a `CLOSE` task.
use udpboardcast.Base.{
  subst, ℕ, ◌≡◌, ◌≢◌, refl, sym, ap, ◌∙◌, true, false, [], ◌∷◌, Option, some, All, ◌==◌, arith,
}
use udpboardcast.Table.{Table, find, values, IsMap}
use udpboardcast.Table.Entries.{All-From}
use udpboardcast.ClientLoop.{
  Ptr, close_type, Task, Conn, TimerData, ClientLoop, Outcome, ok, fault, ◌>>=◌, with_task,
}
use udpboardcast.ClientLoop.Tasks.{finish_task}
use udpboardcast.ClientLoop.Async.{
  UvResults, for_each, stop_conn, stop_timer, shut_task, client_shutdown, run_task, async_cb,
}
use udpboardcast.ClientLoop.Invariant.{Inv, Waits}
use udpboardcast.ClientLoop.Finish.{woken}
use udpboardcast.ClientLoop.Conclude.{finish_task-Concludes}
use udpboardcast.ClientLoop.Shutdown.{Shut, shut_task-ShutsDown}
use udpboardcast.ClientLoop.Keeps.{Ended, Present, Keeps-Ended}
use udpboardcast.ClientLoop.Handles.{
  Armed, Armed-after, stop_conn-StopsConns, stop_timer-StopsTimers,
}

-- The task at `p` ends after those of the table.
Shut-after :
    (m : Table Ptr) (p : Ptr) (s s' s'' : ClientLoop)
    → ((q : Ptr) → (q == p) ≡ false → s''.tasks q ≡ s'.tasks q)
    → All (λ e. (p == e.1) ≡ false) m
    → All (Shut s s') m
    → All (Shut s s'') m
Shut-after [] p s s' s'' same far all = tt
Shut-after ((j, q) ∷ m) p s s' s'' same (other, far) ((t, at, asleep, after), all) =
    ((t, at, asleep, same q (ground (arith, other)) ∙ after), Shut-after m p s s' s'' same far all)

-- The handles are closed and the tables of connections and timers cleared.
record Handles (s : ClientLoop) (r : Outcome) : Type 0 where
  conns : Ptr → Option Conn
  timers : Ptr → Option TimerData
  result : r ≡ ok (record s { conns = conns; timers = timers; timer_table = []; conn_table = [] })
  ended : All (Ended conns) (values s.conn_table)

abbrev close_handles : ClientLoop → Outcome
close_handles s =
    for_each stop_conn (values s.conn_table) s
    >>= (λ s. for_each stop_timer (values s.timer_table) s)
    >>= (λ s. ok (record s { timer_table = []; conn_table = [] }))

close_handles-Handles :
    (s : ClientLoop)
    → All (Present s.conns) (values s.conn_table)
    → All (Armed s) (values s.timer_table)
    → Handles s (close_handles s)
close_handles-Handles s present armed =
    let a = stop_conn-StopsConns (values s.conn_table) s present in
    let s1 : ClientLoop = record s { conns = a.conns } in
    let b =
      stop_timer-StopsTimers (values s.timer_table) s1
        (Armed-after (values s.timer_table) s s1 a.keeps (λ q td there. (td, there, refl)) armed) in
    record {
      conns = b.conns;
      timers = b.timers;
      result =
          ap
            (λ r.
              r
              >>= (λ s. for_each stop_timer (values s.timer_table) s)
              >>= (λ s. ok (record s { timer_table = []; conn_table = [] })))
            a.result
          ∙ ap (λ r. r >>= (λ s. ok (record s { timer_table = []; conn_table = [] }))) b.result;
      ended = Keeps-Ended a.conns b.conns (values s.conn_table) b.keeps a.ended;
    }

abbrev end_tasks : ClientLoop → Outcome
end_tasks s =
    for_each shut_task (values s.task_table) s >>= (λ s. ok (record s { task_table = [] }))

-- The tasks of the table and then the one at `p` have ended.
record Tasks (p : Ptr) (t : Task) (s : ClientLoop) (r : Outcome) : Type 0 where
  next : ClientLoop
  result : r ≡ ok next
  inv : Inv next
  stopped : next.running ≡ s.running
  table : next.conn_table ≡ s.conn_table
  conns : next.conns ≡ s.conns
  shut : All (Shut s next) s.task_table
  caller : next.tasks p ≡ some (woken t)

end_tasks-Tasks :
    (p : Ptr) (t : Task) (s : ClientLoop)
    → Inv s
    → IsMap s.task_table
    → s.tasks p ≡ some t
    → t.notified ≡ 0
    → ((id : ℕ) → find id s.task_table ≢ some p)
    → Tasks p t s (end_tasks s >>= finish_task p)
unfolding find
end_tasks-Tasks p t s v order at asleep unlisted =
    let c =
      shut_task-ShutsDown s.task_table 0 s order v
        (All-From (Waits s.tasks) 0 s.task_table order v.waiting) in
    let far : All (λ e. (p == e.1) ≡ false) s.task_table =
      All-From (λ id q. (p == q) ≡ false) 0 s.task_table order
        (λ id q there. ground (arith, there, unlisted id)) in
    let s5 : ClientLoop = record (c.next) { task_table = [] } in
    let v5 : Inv s5 = record {
      waiting = λ id q there. cc;
      once = c.inv.once;
      ticking = c.inv.ticking;
    } in
    let k = finish_task-Concludes p t s5 v5 (c.others p far ∙ at) asleep in
    record {
      next = k.next;
      result =
          ap (λ r. r >>= (λ s. ok (record s { task_table = [] })) >>= finish_task p) c.result
          ∙ k.result;
      inv = k.inv;
      stopped = k.rest.running ∙ c.rest.running;
      table = k.rest.conn_table ∙ c.rest.conn_table;
      conns = k.rest.conns ∙ c.rest.conns;
      shut = Shut-after s.task_table p s c.next k.next k.others far c.shut;
      caller = k.settled.at;
    }

bind_assoc : (r : Outcome) (f g : ClientLoop → Outcome) → (r >>= f >>= g) ≡ (r >>= λ s. f s >>= g)
bind_assoc (ok s) f g = refl
bind_assoc fault f g = refl

split_lem :
    (s : ClientLoop)
    → client_shutdown s ≡ (close_handles (record s { running = false }) >>= end_tasks)
unfolding client_shutdown
split_lem s =
    bind_assoc (close_handles (record s { running = false }))
      (λ s. for_each shut_task (values s.task_table) s) (λ s. ok (record s { task_table = [] }))

-- Where the shutdown of the client ends.
pub record EndsLoop (p : Ptr) (t : Task) (s : ClientLoop) (r : Outcome) : Type 0 where
  pub next : ClientLoop
  pub result : r ≡ ok next
  pub inv : Inv next
  pub stopped : next.running ≡ false
  pub table : next.conn_table ≡ []
  pub ended : All (Ended next.conns) (values s.conn_table)
  pub shut : All (Shut s next) s.task_table
  pub caller : next.tasks p ≡ some (woken t)

close_lem :
    (p : Ptr) (t : Task) (uv : UvResults) (s : ClientLoop)
    → s.running ≡ true
    → s.inited ≡ true
    → s.tasks p ≡ some t
    → t.task_type ≡ close_type
    → async_cb p uv s ≡ (client_shutdown s >>= finish_task p)
unfolding async_cb run_task with_task
close_lem p t uv s running ready at kind = ground (arith, running, ready, at, kind)

-- Closing the client comes to its end without a fault: the caller of each task of the table is woken
-- once with the shutdown error, and then the one that closes; each connection of the table is closed
-- and no longer read, and the loop is stopped with an empty table.
pub async_cb-EndsLoop :
    (p : Ptr) (t : Task) (uv : UvResults) (s : ClientLoop)
    → Inv s
    → IsMap s.task_table
    → All (Present s.conns) (values s.conn_table)
    → All (Armed s) (values s.timer_table)
    → s.running ≡ true
    → s.inited ≡ true
    → s.tasks p ≡ some t
    → t.task_type ≡ close_type
    → t.notified ≡ 0
    → ((id : ℕ) → find id s.task_table ≢ some p)
    → EndsLoop p t s (async_cb p uv s)
unfolding find
async_cb-EndsLoop p t uv s v order present armed running ready at kind asleep unlisted =
    let h = close_handles-Handles (record s { running = false }) present armed in
    let s3 : ClientLoop = record s {
      running = false;
      conns = h.conns;
      timers = h.timers;
      timer_table = [];
      conn_table = [];
    } in
    let v3 : Inv s3 = record { waiting = v.waiting; once = v.once; ticking = λ id q there. cc } in
    let k = end_tasks-Tasks p t s3 v3 order at asleep unlisted in
    record {
      next = k.next;
      result =
          close_lem p t uv s running ready at kind
          ∙ ap (λ r. r >>= finish_task p) (split_lem s)
          ∙ ap (λ r. r >>= end_tasks >>= finish_task p) h.result
          ∙ k.result;
      inv = k.inv;
      stopped = k.stopped;
      table = k.table;
      ended = subst (λ m. All (Ended m) (values s.conn_table)) (sym k.conns) h.ended;
      shut = k.shut;
      caller = k.caller;
    }
