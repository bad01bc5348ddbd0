-- ===== src/ClientLoop/Conclude.antt =====
-- Handlers that end a task: the rules by which the proofs about them go.
use udpboardcast.Base.{
  ℕ, ◌≤◌, ◌≡◌, refl, sym, ap, ◌∙◌, inl, inr, Option, some, none, arith, ◌==◌, Bool-cases, false,
}
use udpboardcast.Table.{find, erase}
use udpboardcast.Table.Laws.{find-erase_self, find_of_insert}
use udpboardcast.ClientLoop.{
  Ptr, Task, ClientLoop, Outcome, ok, put, set_task, set_err, cl_task_add,
}
use udpboardcast.ClientLoop.Tasks.{finish_task, fail_task, start_timer}
use udpboardcast.ClientLoop.Clock.{Stops}
use udpboardcast.ClientLoop.Invariant.{put_other, Inv, Waits, Ticks, SameRest, put_self}
use udpboardcast.ClientLoop.Finish.{Settled, finish_task-Ends, Ends-Inv, Ticks-put, woken}

-- The outcome `r` of a handler in the state `s`: it returns, and the task `t` at `p` has ended.
pub record Concludes (p : Ptr) (t : Task) (s : ClientLoop) (r : Outcome) : Type 0 where
  pub next : ClientLoop
  pub result : r ≡ ok next
  pub inv : Inv next
  pub settled : Settled p t next
  pub table : next.task_table ≡ erase t.task_id s.task_table
  pub timers : find t.task_id s.timer_table ≡ none → next.timers ≡ s.timers
  pub clock : Stops t.task_id s.timer_table next.timer_table s.timers next.timers
  pub rest : SameRest s next
  pub others : (q : Ptr) → (q == p) ≡ false → next.tasks q ≡ s.tasks q

pub finish_task-Concludes :
    (p : Ptr) (t : Task) (s : ClientLoop)
    → Inv s
    → s.tasks p ≡ some t
    → t.notified ≡ 0
    → Concludes p t s (finish_task p s)
finish_task-Concludes p t s v at asleep =
    let e = finish_task-Ends p t s v.ticking at in
    record {
      others = λ q other. ap (λ m. m q) e.tasks ∙ put_other s.tasks p _ q other;
      next = e.next;
      result = e.result;
      inv = Ends-Inv e v at asleep;
      settled = record {
        at = ap (λ m. m p) e.tasks ∙ put_self s.tasks p (woken t);
        woken_once = asleep;
        forgotten = rw e.task_table (find-erase_self t.task_id s.task_table);
        stopped = e.stopped;
      };
      table = e.task_table;
      timers = e.timers;
      clock = e.clock;
      rest = e.rest;
    }

-- A write to the task's other fields keeps the invariant.
pub Inv-set_task :
    (p : Ptr) (t t' : Task) (s : ClientLoop)
    → Inv s
    → s.tasks p ≡ some t
    → t'.task_id ≡ t.task_id
    → t'.notified ≡ t.notified
    → Inv (set_task p t' s)
unfolding set_task
Inv-set_task p t t' s v at same_id same_posts = record {
  waiting = λ id q there. rewritten id q (v.waiting id q there);
  once = λ q u there. still_once q u there;
  ticking = v.ticking;
}
  where
    rewritten : (id q : ℕ) → Waits s.tasks id q → Waits (put s.tasks p (some t')) id q
    rewritten id q w = elim (Bool-cases (q == p)) [
      | inl same ↦ record {
        task = t';
        at = rw same;
        own_id = ground (arith, same, at, w.at, w.own_id);
        asleep = ground (arith, same, at, w.at, w.asleep);
      }
      | inr other ↦ record {
        task = w.task;
        at = rw other w.at;
        own_id = w.own_id;
        asleep = w.asleep;
      }
    ]

    still_once : (q : ℕ) (u : Task) → put s.tasks p (some t') q ≡ some u → u.notified ≤ 1
    still_once q u there = elim (Bool-cases (q == p)) [
      | inl same ↦ ground (arith, same, there, v.once p t at)
      | inr other ↦ v.once q u (ground (arith, other, there))
    ]

-- A handler that writes to a waiting task and then ends it.
pub set_task-Concludes :
    (p : Ptr) (t t' : Task) (s : ClientLoop)
    → Inv s
    → s.tasks p ≡ some t
    → t'.task_id ≡ t.task_id
    → t'.notified ≡ t.notified
    → t.notified ≡ 0
    → Concludes p t' s (finish_task p (set_task p t' s))
unfolding set_task
set_task-Concludes p t t' s v at same_id same_posts asleep =
    let c =
      finish_task-Concludes p t' (set_task p t' s) (Inv-set_task p t t' s v at same_id same_posts)
        (put_self s.tasks p t') (same_posts ∙ asleep) in
    record {
      others = λ q other. c.others q other ∙ put_other s.tasks p (some t') q other;
      next = c.next;
      result = c.result;
      inv = c.inv;
      settled = c.settled;
      table = c.table;
      timers = c.timers;
      clock = c.clock;
      rest = record {
        running = c.rest.running;
        inited = c.rest.inited;
        conn_table = c.rest.conn_table;
        conns = c.rest.conns;
        next_ptr = c.rest.next_ptr;
        events = c.rest.events;
        next_conn_id = c.rest.next_conn_id;
      };
    }

pub set_err_lem :
    (p : Ptr) (t : Task) (e : ℕ) (s : ClientLoop)
    → s.tasks p ≡ some t
    → set_err p e s ≡ ok (set_task p (record t { err = e }) s)
unfolding set_err
set_err_lem p t e s at = ground arith

pub fail_task-Concludes :
    (p : Ptr) (t : Task) (e : ℕ) (s : ClientLoop)
    → Inv s
    → s.tasks p ≡ some t
    → t.notified ≡ 0
    → Concludes p (record t { err = e }) s (fail_task p e s)
unfolding fail_task
fail_task-Concludes p t e s v at asleep =
    rw (set_err_lem p t e s at)
      (set_task-Concludes p t (record t { err = e }) s v at refl refl asleep)

-- A new timer enters the table.
pub start_timer-Inv :
    (id : ℕ) (target : Option Ptr) (s : ClientLoop) → Inv s → Inv (start_timer id target s)
unfolding start_timer
start_timer-Inv id target s v = record {
  waiting = v.waiting;
  once = v.once;
  ticking = λ id' q there. elim (find_of_insert s.timer_table there) [
    | inl (_, same) ↦ record {
      timer = record { task_id = id; target = target; closing = false };
      at = rw same (put_self s.timers s.next_ptr _);
    }
    | inr (_, old) ↦ Ticks-put s.timers s.next_ptr q _ (v.ticking id' q old)
  ];
}

-- A task enters the table under its own id.
pub cl_task_add-Inv :
    (p : Ptr) (t : Task) (s : ClientLoop)
    → Inv s
    → s.tasks p ≡ some t
    → t.notified ≡ 0
    → Inv (cl_task_add t.task_id p s)
unfolding cl_task_add
cl_task_add-Inv p t s v at asleep = record {
  waiting = λ id q there. elim (find_of_insert s.task_table there) [
    | inl (same_id, same) ↦ record {
      task = t;
      at = rw same at;
      own_id = sym same_id;
      asleep = asleep;
    }
    | inr (_, old) ↦ v.waiting id q old
  ];
  once = v.once;
  ticking = v.ticking;
}

-- What these statements read of a state.
pub record SameTasks (s s' : ClientLoop) : Type 0 where
  pub tasks : s'.tasks ≡ s.tasks
  pub task_table : s'.task_table ≡ s.task_table
  pub timer_table : s'.timer_table ≡ s.timer_table

pub Settled-SameTasks :
    {p : Ptr} {t : Task} {s s' : ClientLoop} → SameTasks s s' → Settled p t s → Settled p t s'
Settled-SameTasks same c = record {
  at = rw same.tasks c.at;
  woken_once = c.woken_once;
  forgotten = rw same.task_table c.forgotten;
  stopped = rw same.timer_table c.stopped;
}

pub Inv-SameTasks :
    {s s' : ClientLoop}
    → SameTasks s s'
    → ((q : Ptr) → Ticks s.timers q → Ticks s'.timers q)
    → Inv s
    → Inv s'
Inv-SameTasks same ticks v = record {
  waiting = λ id p there. rw same.tasks (v.waiting id p (rw same.task_table at there));
  once = λ p t there. v.once p t (rw same.tasks at there);
  ticking = λ id q there. ticks q (v.ticking id q (rw same.timer_table at there));
}
