-- ===== src/ClientLoop/Submit.antt =====
-- `async_cb` on a task that a caller has just handed over: it waits, or has failed.
use udpboardcast.Base.{
  ℕ, ◌<◌, ◌≡◌, ◌≢◌, refl, ap, subst, ◌∙◌, ◌⊎◌, inl, inr, true, false, Option, none, some, arith,
  ltb, ◌==◌, if◌then◌else◌, Bool-cases, Option-cases,
}
use udpboardcast.Table.{find, insert, erase}
use udpboardcast.Table.Laws.{find-insert, find-erase, find-insert_self}
use udpboardcast.Errors.{err_conn_not_exist, err_conn_already_exist}
use udpboardcast.ClientLoop.{
  Ptr, Task, TimerData, is_rw, rw_type, connect_type, ClientLoop, Outcome, ok, fault, set_err,
  ◌>>=◌, cl_task_add, cl_conn_find, cl_conn_find2, close_conn, set_conn,
}
use udpboardcast.ClientLoop.Tasks.{finish_task, fail_task, start_timer}
use udpboardcast.ClientLoop.Connect.{
  refused_at, ask_connect, do_connect, refuse, fresh_conn, new_conn, await_connect,
}
use udpboardcast.ClientLoop.Async.{
  UvResults, send_request, connect_started, start_connect, run_task, async_cb,
}
use udpboardcast.ClientLoop.Invariant.{Inv, with_task_lem, close_conn_lem, put_self}
use udpboardcast.ClientLoop.Finish.{Settled}
use udpboardcast.ClientLoop.Conclude.{
  Inv-SameTasks, fail_task-Concludes, start_timer-Inv, cl_task_add-Inv,
}

-- The timer of a task runs.
pub record Timed (id : ℕ) (s : ClientLoop) : Type 0 where
  pub timer : Ptr
  pub about : TimerData
  pub listed : find id s.timer_table ≡ some timer
  pub at : s.timers timer ≡ some about
  pub own_id : about.task_id ≡ id
  pub runs : about.closing ≡ false

-- The task at `p` waits in the table for an answer or a connection, as it was; for a connection with
-- a timeout, its timer runs.
pub record Pending (p : Ptr) (t : Task) (s : ClientLoop) : Type 0 where
  pub listed : find t.task_id s.task_table ≡ some p
  pub at : s.tasks p ≡ some t
  pub timed : t.task_type ≡ connect_type → 0 < t.timeout → Timed t.task_id s

-- What stands in the way of a request: its connection is unknown, or `uv_write` fails. 0 is nothing.
unfoldable pub request_error : Task → UvResults → ClientLoop → ℕ
request_error t uv s = elim (find t.conn_id s.conn_table) [
  | none ↦ err_conn_not_exist
  | some _ ↦ uv.written
]

-- What stands in the way of a connection: there is one to that ip, `uv_tcp_init` fails, or
-- `uv_tcp_connect` does.
unfoldable pub connect_error : Task → UvResults → ClientLoop → ℕ
unfolding cl_conn_find2
connect_error t uv s = elim (cl_conn_find2 t.ip s) [
  | none ↦ if uv.inited == 0 then uv.connected else uv.inited
  | some _ ↦ err_conn_already_exist
]

-- It has failed: its caller has been woken, once, with this error.
pub record Failed (p : Ptr) (t : Task) (error : ℕ) (s : ClientLoop) : Type 0 where
  pub is_error : error ≢ 0
  pub settled : Settled p (record t { err = error }) s

-- What `async_cb` owes to the task and to the others, with what stands in the way of the task.
pub record Accepts (p : Ptr) (t : Task) (error : ℕ) (s : ClientLoop) (r : Outcome) : Type 0 where
  pub next : ClientLoop
  pub result : r ≡ ok next
  pub inv : Inv next
  pub fate : ((error ≡ 0) × Pending p t next) ⊎ Failed p t error next
  pub others : (id : ℕ) → id ≢ t.task_id → find id next.task_table ≡ find id s.task_table

start_timer-Timed :
    (id : ℕ) (target : Option Ptr) (s : ClientLoop) → Timed id (start_timer id target s)
unfolding start_timer
start_timer-Timed id target s = record {
  timer = s.next_ptr;
  about = record { task_id = id; target = target; closing = false };
  listed = find-insert_self id s.next_ptr s.timer_table;
  at = put_self s.timers s.next_ptr _;
  own_id = refl;
  runs = refl;
}

refused_at-finish :
    (p : Ptr) (o : Outcome) → connect_started p (refused_at o) ≡ (o >>= finish_task p)
refused_at-finish p (ok s) = refl
refused_at-finish p fault = refl

pub refuse-fail :
    (p : Ptr) (e : ℕ) (s : ClientLoop) → connect_started p (refuse p e (ok s)) ≡ fail_task p e s
unfolding refuse fail_task
refuse-fail p e s = refused_at-finish p (set_err p e s)

-- The table with the new task, as the parts of `async_cb` find it.
module _ (p : Ptr) (t : Task) (s : ClientLoop) (v : Inv s) (at : s.tasks p ≡ some t)
    (asleep : t.notified ≡ 0) where
  listed_others :
      (id : ℕ) → id ≢ t.task_id → find id (insert t.task_id p s.task_table) ≡ find id s.task_table
  listed_others id other = ground (arith, find-insert id t.task_id p s.task_table)

  unlisted_others :
      (id : ℕ)
      → id ≢ t.task_id
      → find id (erase t.task_id (insert t.task_id p s.task_table)) ≡ find id s.task_table
  unlisted_others id other = ground (
    arith,
    find-erase id t.task_id (insert t.task_id p s.task_table),
    find-insert id t.task_id p s.task_table,
  )

  added-Inv : Inv (cl_task_add t.task_id p s)
  added-Inv = cl_task_add-Inv p t s v at asleep

  -- A failure from a state that differs from the one with the new task in its connections only.
  fail-Accepts :
      (e error : ℕ) (s' : ClientLoop)
      → error ≡ e
      → e ≢ 0
      → Inv s'
      → s'.tasks p ≡ some t
      → s'.task_table ≡ insert t.task_id p s.task_table
      → Accepts p t error s (fail_task p e s')
  fail-Accepts e error s' cause wrong v' at' same =
      let c = fail_task-Concludes p t e s' v' at' asleep in
      record {
        next = c.next;
        result = c.result;
        inv = c.inv;
        fate = inr (rw cause (record { is_error = wrong; settled = c.settled }));
        others = λ id other. rw (c.table, same) (unlisted_others id other);
      }

  pending-Accepts :
      (error : ℕ) (s' : ClientLoop)
      → error ≡ 0
      → Inv s'
      → s'.tasks p ≡ some t
      → s'.task_table ≡ insert t.task_id p s.task_table
      → (t.task_type ≡ connect_type → 0 < t.timeout → Timed t.task_id s')
      → Accepts p t error s (ok s')
  pending-Accepts error s' nothing v' at' same timed = record {
    next = s';
    result = refl;
    inv = v';
    fate = inl (
      nothing,
      record {
        listed = rw same (find-insert_self t.task_id p s.task_table);
        at = at';
        timed = timed;
      },
    );
    others = λ id other. rw same (listed_others id other);
  }

  send_request-Accepts :
      t.task_type ≡ rw_type
      → (uv : UvResults)
      → Accepts p t (request_error t uv s) s (send_request p t uv (cl_task_add t.task_id p s))
  unfolding send_request request_error cl_conn_find cl_task_add
  send_request-Accepts request uv = elim (Option-cases (find t.conn_id s.conn_table)) [
    | inl absent ↦
        rw (absent, send_request)
          (fail-Accepts err_conn_not_exist _ _ (ground (arith, absent)) (omega arith) added-Inv
            (unfold cl_task_add in at) (unfold cl_task_add in refl))
    | inr (c, there) ↦
        rw (there, send_request)
          (elim (Bool-cases (uv.written == 0)) [
            | inl sent ↦ rw sent (
                pending-Accepts _ _ (ground (arith, there, sent)) added-Inv
                  (unfold cl_task_add in at) (unfold cl_task_add in refl)
                  (λ other limited. cc (request, other)))
            | inr failed ↦ rw failed (
                fail-Accepts uv.written _ _ (ground (arith, there)) (ground (arith, failed))
                  added-Inv (unfold cl_task_add in at) (unfold cl_task_add in refl))
          ])
  ]

  -- A connection that is asked for: the new objects lie beside the task.
  new_conn-Inv : Inv (new_conn t (cl_task_add t.task_id p s))
  unfolding new_conn
  new_conn-Inv = record {
    waiting = added-Inv.waiting;
    once = added-Inv.once;
    ticking = added-Inv.ticking;
  }

  await_connect-Accepts :
      (c error : ℕ)
      → error ≡ 0
      → Accepts p t error s (ok (await_connect t c (new_conn t (cl_task_add t.task_id p s))))
  unfolding await_connect
  await_connect-Accepts c error nothing = elim (Bool-cases (ltb 0 t.timeout)) [
    | inl limited ↦ rw limited (
        pending-Accepts error _ nothing (start_timer-Inv t.task_id (some c) _ new_conn-Inv)
          (unfold start_timer new_conn cl_task_add in at)
          (unfold start_timer new_conn cl_task_add in refl)
          (λ kind long. start_timer-Timed t.task_id (some c) _))
    | inr endless ↦ rw endless (
        pending-Accepts error _ nothing new_conn-Inv (unfold new_conn cl_task_add in at)
          (unfold new_conn cl_task_add in refl)
          (λ kind long. absurd (ground (arith, endless, long))))
  ]

  -- The handle of a connection that could not be asked for is closed before the task fails.
  pub close_new :
      (s' : ClientLoop)
      → (n : ClientLoop) × (close_conn s'.next_ptr (new_conn t s') ≡ ok n)
        × (n.tasks ≡ s'.tasks)
        × (n.task_table ≡ s'.task_table)
        × (n.timer_table ≡ s'.timer_table)
        × (n.timers ≡ s'.timers)
  unfolding new_conn set_conn
  close_new s' = (
    set_conn s'.next_ptr (record (fresh_conn t) { closing = true }) (new_conn t s'),
    close_conn_lem s'.next_ptr (fresh_conn t) (new_conn t s') (put_self s'.conns s'.next_ptr _),
    refl,
    refl,
    refl,
    refl,
  )

  ask_connect-Accepts :
      (uv : UvResults)
      → Accepts p t
          (if uv.inited == 0 then uv.connected else uv.inited)
          s
          (connect_started p (ask_connect p t uv.inited uv.connected (cl_task_add t.task_id p s)))
  unfolding ask_connect
  ask_connect-Accepts uv = elim (Bool-cases (uv.inited == 0)) [
    | inl made ↦ rw made (elim (Bool-cases (uv.connected == 0)) [
      | inl asked ↦ rw asked (await_connect-Accepts _ _ (ground (arith, asked)))
      | inr failed ↦
          let (n, closed, tasks, task_table, timer_table, timers) =
            close_new (cl_task_add t.task_id p s) in
          rw (failed, closed, refuse-fail)
            (fail-Accepts uv.connected _ n refl (ground (arith, failed))
              (Inv-SameTasks
                (record { tasks = tasks; task_table = task_table; timer_table = timer_table })
                (λ q k. rw timers k) added-Inv)
              (ap (λ m. m p) tasks ∙ unfold cl_task_add in at)
              (task_table ∙ unfold cl_task_add in refl))
    ])
    | inr failed ↦
        rw (failed, refuse-fail)
          (fail-Accepts uv.inited _ _ refl (ground (arith, failed)) added-Inv
            (unfold cl_task_add in at) (unfold cl_task_add in refl))
  ]

  start_connect-Accepts :
      (uv : UvResults)
      → Accepts p t (connect_error t uv s) s (start_connect p t uv (cl_task_add t.task_id p s))
  unfolding start_connect do_connect connect_error cl_task_add cl_conn_find2
  start_connect-Accepts uv = elim (Option-cases (cl_conn_find2 t.ip s)) [
    | inl absent ↦ rw (absent, do_connect, connect_error) (ask_connect-Accepts uv)
    | inr (c, there) ↦
        rw (there, do_connect)
          (rw refuse-fail (
            fail-Accepts err_conn_already_exist _ _ (ground (arith, there)) (omega arith) added-Inv
              (unfold cl_task_add in at) (unfold cl_task_add in refl)))
  ]

pub async_cb_lem :
    (p : Ptr) (t : Task) (uv : UvResults) (s : ClientLoop)
    → s.running ≡ true
    → s.inited ≡ true
    → s.tasks p ≡ some t
    → async_cb p uv s ≡ run_task p uv t s
unfolding async_cb
async_cb_lem p t uv s running ready at = simp (running, ready) (with_task_lem p s _ at)

pub run_request :
    (p : Ptr) (t : Task) (uv : UvResults) (s : ClientLoop)
    → t.task_type ≡ rw_type
    → run_task p uv t s ≡ send_request p t uv (cl_task_add t.task_id p s)
unfolding run_task
run_request p t uv s request = ground (arith, request)

pub run_connect :
    (p : Ptr) (t : Task) (uv : UvResults) (s : ClientLoop)
    → t.task_type ≡ connect_type
    → run_task p uv t s ≡ start_connect p t uv (cl_task_add t.task_id p s)
unfolding run_task
run_connect p t uv s connecting = ground (arith, connecting)

-- What stands in the way of a task that a caller hands over.
unfoldable pub submit_error : Task → UvResults → ClientLoop → ℕ
unfolding request_error connect_error
submit_error t uv s = if is_rw t.task_type then request_error t uv s else connect_error t uv s

-- A request or a connection task that a caller hands to a running loop waits in the table exactly if
-- nothing stands in its way, a connection with a timeout with its timer running. Otherwise its caller has been woken once with the error: for a request
-- ERR_CONN_NOT_EXIST if its connection is unknown, else what `uv_write` returns; for a connection
-- ERR_CONN_ALREADY_EXIST if there is one to that ip, else what `uv_tcp_init` or `uv_tcp_connect`
-- returns. `async_cb` does not fault, keeps the invariant, and leaves every other task where it was.
pub async_cb-Accepts :
    (p : Ptr) (t : Task) (uv : UvResults) (s : ClientLoop)
    → Inv s
    → s.running ≡ true
    → s.inited ≡ true
    → s.tasks p ≡ some t
    → t.notified ≡ 0
    → (t.task_type ≡ rw_type) ⊎ (t.task_type ≡ connect_type)
    → Accepts p t (submit_error t uv s) s (async_cb p uv s)
unfolding submit_error
async_cb-Accepts p t uv s v running ready at asleep kind =
    rw (async_cb_lem p t uv s running ready at) (elim kind [
      | inl request ↦
          let same : request_error t uv s ≡ submit_error t uv s = ground (arith, request) in
          rw (run_request p t uv s request) (
            subst (λ e. Accepts p t e s (send_request p t uv (cl_task_add t.task_id p s))) same
              (send_request-Accepts p t s v at asleep request uv))
      | inr connecting ↦
          let same : connect_error t uv s ≡ submit_error t uv s = ground (arith, connecting) in
          rw (run_connect p t uv s connecting) (
            subst (λ e. Accepts p t e s (start_connect p t uv (cl_task_add t.task_id p s))) same
              (start_connect-Accepts p t s v at asleep uv))
    ])
