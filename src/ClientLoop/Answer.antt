-- ===== src/ClientLoop/Answer.antt =====
-- A package of the server on the client loop: `_read_content_process` with a task that waits for
-- the answer, with none, and with a pushed message.
use udpboardcast.Base.{ℕ, ◌≡◌, refl, ap, ◌∙◌, false, some, none, ◌==◌, arith}
use udpboardcast.Table.{find, erase}
use udpboardcast.Table.Laws.{find-erase, find_of_erase}
use udpboardcast.Proto.{CommPkg, pkg_type_common}
use udpboardcast.ClientLoop.{
  Ptr, Task, rw_type, ClientLoop, Outcome, ok, ◌>>=◌, set_task, cl_task_find, cl_task_del,
}
use udpboardcast.ClientLoop.Tasks.{drop_timer, finish_task}
use udpboardcast.ClientLoop.Read.{answer, answer_task, handle_pkg}
use udpboardcast.ClientLoop.Invariant.{Inv, SameRest, with_task_lem}
use udpboardcast.ClientLoop.Finish.{Settled, Drops, drop_timer-Drops}
use udpboardcast.ClientLoop.Conclude.{set_task-Concludes}

-- The loop after `cl_task_del` and the end of the timer.
pub dropped :
    (id : ℕ) (s : ClientLoop) → Inv s → Drops id (record s { task_table = erase id s.task_table })
dropped id s v = drop_timer-Drops id _ v.ticking

pub dropped-Inv : (id : ℕ) (s : ClientLoop) (v : Inv s) → Inv (dropped id s v).next
dropped-Inv id s v =
    let d = dropped id s v in
    record {
      waiting = λ j p there.
          rw d.tasks (v.waiting j p (find_of_erase s.task_table (rw d.task_table at there)).1);
      once = λ p t there. v.once p t (rw d.tasks at there);
      ticking = d.timed;
    }

abbrev pub answered : CommPkg → Task → Task
answered pkg t = record t { err = 0; outdata = pkg.payload }

-- The answer has arrived: the caller at `p` is woken, once, with `err = 0` and the payload, its
-- task and timer have left the tables, and all other tasks and timers are as they were.
pub record Answered (p : Ptr) (t : Task) (s : ClientLoop) (r : Outcome) : Type 0 where
  pub next : ClientLoop
  pub result : r ≡ ok next
  pub inv : Inv next
  pub settled : Settled p t next
  pub others : (q : Ptr) → (q == p) ≡ false → next.tasks q ≡ s.tasks q
  pub waiting : (j : ℕ) → (j == t.task_id) ≡ false → find j next.task_table ≡ find j s.task_table
  pub timers : (j : ℕ) → (j == t.task_id) ≡ false → find j next.timer_table ≡ find j s.timer_table
  pub rest : SameRest s next

pub handle_pkg_common :
    (conn : ℕ) (pkg : CommPkg) (s : ClientLoop)
    → pkg.pkg_type ≡ pkg_type_common
    → handle_pkg conn pkg s ≡ (
        drop_timer pkg.task_id (record s { task_table = erase pkg.task_id s.task_table })
        >>= answer_task pkg (find pkg.task_id s.task_table))
unfolding handle_pkg cl_task_del cl_task_find
handle_pkg_common conn pkg s common = ground (arith, common)

pub answer_lem :
    (pkg : CommPkg) (p : Ptr) (t : Task) (s : ClientLoop)
    → s.tasks p ≡ some t
    → t.task_type ≡ rw_type
    → answer pkg p s ≡ finish_task p (set_task p (answered pkg t) s)
unfolding answer
answer_lem pkg p t s at request = with_task_lem p s _ at ∙ rw request

-- A package that answers a request which waits: the request's caller is woken with success and the
-- payload, and the request and its timer leave the tables; no other task, no other entry of the two
-- tables and no connection changes.
pub handle_pkg-Answered :
    (conn : ℕ) (pkg : CommPkg) (p : Ptr) (t : Task) (s : ClientLoop)
    → Inv s
    → pkg.pkg_type ≡ pkg_type_common
    → find pkg.task_id s.task_table ≡ some p
    → s.tasks p ≡ some t
    → t.task_type ≡ rw_type
    → Answered p (record t { err = 0; outdata = pkg.payload }) s (handle_pkg conn pkg s)
handle_pkg-Answered conn pkg p t s v common there at request =
    let d = dropped pkg.task_id s v in
    let held : d.next.tasks p ≡ some t = ap (λ m. m p) d.tasks ∙ at in
    let w = v.waiting pkg.task_id p there in
    let asleep : t.notified ≡ 0 = ground (arith, w.asleep, w.at, at) in
    let own : pkg.task_id ≡ t.task_id = ground (arith, w.own_id, w.at, at) in
    let c =
      set_task-Concludes p t (answered pkg t) d.next (dropped-Inv pkg.task_id s v) held refl refl
        asleep in
    record {
      next = c.next;
      result =
          handle_pkg_common conn pkg s common
          ∙ ap (λ r. r >>= answer_task pkg (find pkg.task_id s.task_table)) d.result
          ∙ ap (λ o. answer_task pkg o d.next) there
          ∙ unfold answer_task in (answer_lem pkg p t d.next held request ∙ c.result);
      inv = c.inv;
      settled = c.settled;
      others = λ q other. c.others q other ∙ ap (λ m. m q) d.tasks;
      waiting = λ j other. ground (
        arith,
        ap (find j) c.table,
        ap (find j) d.task_table,
        find-erase j t.task_id d.next.task_table,
        find-erase j pkg.task_id s.task_table,
        other,
        own,
      );
      timers = λ j other. ground (arith, c.clock.finds j, d.clock.finds j, other, own);
      rest = record {
        running = c.rest.running ∙ d.rest.running;
        inited = c.rest.inited ∙ d.rest.inited;
        conn_table = c.rest.conn_table ∙ d.rest.conn_table;
        conns = c.rest.conns ∙ d.rest.conns;
        next_ptr = c.rest.next_ptr ∙ d.rest.next_ptr;
        events = c.rest.events ∙ d.rest.events;
        next_conn_id = c.rest.next_conn_id ∙ d.rest.next_conn_id;
      };
    }

-- Nobody waits for the package: no task changes.
pub record Ignored (s : ClientLoop) (r : Outcome) : Type 0 where
  pub next : ClientLoop
  pub result : r ≡ ok next
  pub inv : Inv next
  pub tasks : next.tasks ≡ s.tasks
  pub rest : SameRest s next

-- An answer whose request has ended (a late answer after a timeout, or a second one) wakes nobody
-- and faults nowhere.
pub handle_pkg-Ignored :
    (conn : ℕ) (pkg : CommPkg) (s : ClientLoop)
    → Inv s
    → pkg.pkg_type ≡ pkg_type_common
    → find pkg.task_id s.task_table ≡ none
    → Ignored s (handle_pkg conn pkg s)
handle_pkg-Ignored conn pkg s v common absent =
    let d = dropped pkg.task_id s v in
    record {
      next = d.next;
      result =
          handle_pkg_common conn pkg s common
          ∙ ap (λ r. r >>= answer_task pkg (find pkg.task_id s.task_table)) d.result
          ∙ ap (λ o. answer_task pkg o d.next) absent
          ∙ unfold answer_task in refl;
      inv = dropped-Inv pkg.task_id s v;
      tasks = d.tasks;
      rest = record {
        running = d.rest.running;
        inited = d.rest.inited;
        conn_table = d.rest.conn_table;
        conns = d.rest.conns;
        next_ptr = d.rest.next_ptr;
        events = d.rest.events;
        next_conn_id = d.rest.next_conn_id;
      };
    }
