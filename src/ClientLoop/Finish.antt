-- ===== src/ClientLoop/Finish.antt =====
-- What `_cl_finish_task` does to the state: it wakes its task, and forgets it.
use udpboardcast.Base.{
  ap, sym, ◌∙◌, ℕ, ◌+◌, ◌≤◌, ◌≡◌, ◌≢◌, refl, inl, inr, none, some, arith, ◌==◌, Option-cases,
  Bool-cases, Option, true,
}
use udpboardcast.Table.{find, erase}
use udpboardcast.Table.Laws.{find-erase_self, find_of_erase}
use udpboardcast.ClientLoop.{Ptr, Task, TimerData, ClientLoop, ok, put}
use udpboardcast.ClientLoop.Tasks.{drop_timer, finish_task}
use udpboardcast.ClientLoop.Clock.{Stops, Stops-none, Stops-erase}
use udpboardcast.ClientLoop.Invariant.{Inv, Waits, Ticks, SameRest, untouched}

-- The timers of the table lie in memory.
abbrev pub Timed : ClientLoop → Type 0
Timed s = (id q : ℕ) → find id s.timer_table ≡ some q → Ticks s.timers q

abbrev pub woken : Task → Task
woken t = record t { notified = t.notified + 1 }

pub record Drops (id : ℕ) (s : ClientLoop) : Type 0 where
  pub next : ClientLoop
  pub result : drop_timer id s ≡ ok next
  pub tasks : next.tasks ≡ s.tasks
  pub task_table : next.task_table ≡ s.task_table
  pub rest : SameRest s next
  pub stopped : find id next.timer_table ≡ none
  pub timers : find id s.timer_table ≡ none → next.timers ≡ s.timers
  pub timed : Timed next
  pub clock : Stops id s.timer_table next.timer_table s.timers next.timers

pub Ticks-put :
    (m : Ptr → Option TimerData) (q q' : Ptr) (td : TimerData)
    → Ticks m q'
    → Ticks (put m q (some td)) q'
Ticks-put m q q' td t = elim (Bool-cases (q' == q)) [
  | inl same ↦ record { timer = td; at = rw same }
  | inr other ↦ record { timer = t.timer; at = rw other t.at }
]

drop_timer-found :
    (id : ℕ) (s : ClientLoop) (q : Ptr) → Timed s → find id s.timer_table ≡ some q → Drops id s
unfolding drop_timer
drop_timer-found id s q timed there =
    let here = timed id q there in
    let next : ClientLoop = record s {
      timers = put s.timers q (some (record (here.timer) { closing = true }));
      timer_table = erase id s.timer_table;
    } in
    record {
      next = next;
      result = ground (arith, there, here.at);
      tasks = refl;
      task_table = refl;
      rest = record {
        running = refl;
        inited = refl;
        conn_table = refl;
        conns = refl;
        next_ptr = refl;
        events = refl;
        next_conn_id = refl;
      };
      stopped = find-erase_self id s.timer_table;
      timers = λ absent. cc (absent, there);
      timed =
          λ id' q' e. Ticks-put s.timers q q' _ (timed id' q' (find_of_erase s.timer_table e).1);
      clock = Stops-erase id q here.timer s.timer_table s.timers there here.at;
    }

pub drop_timer-Drops : (id : ℕ) (s : ClientLoop) → Timed s → Drops id s
unfolding drop_timer
drop_timer-Drops id s timed = elim (Option-cases (find id s.timer_table)) [
  | inl absent ↦ record {
    next = s;
    result = ground (arith, absent);
    tasks = refl;
    task_table = refl;
    rest = untouched;
    stopped = absent;
    timers = λ _. refl;
    timed = timed;
    clock = Stops-none id s.timer_table s.timers absent;
  }
  | inr (q, there) ↦ drop_timer-found id s q timed there
]

pub record Ends (p : Ptr) (t : Task) (s : ClientLoop) : Type 0 where
  pub next : ClientLoop
  pub result : finish_task p s ≡ ok next
  pub tasks : next.tasks ≡ put s.tasks p (some (woken t))
  pub task_table : next.task_table ≡ erase t.task_id s.task_table
  pub rest : SameRest s next
  pub stopped : find t.task_id next.timer_table ≡ none
  pub timers : find t.task_id s.timer_table ≡ none → next.timers ≡ s.timers
  pub timed : Timed next
  pub clock : Stops t.task_id s.timer_table next.timer_table s.timers next.timers

pub finish_task-Ends :
    (p : Ptr) (t : Task) (s : ClientLoop) → Timed s → s.tasks p ≡ some t → Ends p t s
unfolding finish_task
finish_task-Ends p t s timed at =
    let dropped =
      drop_timer-Drops t.task_id (record s { task_table = erase t.task_id s.task_table }) timed in
    let kept : dropped.next.tasks p ≡ some t = ap (λ m. m p) dropped.tasks ∙ at in
    record {
      next = record (dropped.next) { tasks = put dropped.next.tasks p (some (woken t)) };
      result = ground (arith, at, dropped.result, kept);
      tasks = ap (λ m. put m p (some (woken t))) dropped.tasks;
      task_table = dropped.task_table;
      rest = record {
        running = dropped.rest.running;
        inited = dropped.rest.inited;
        conn_table = dropped.rest.conn_table;
        conns = dropped.rest.conns;
        next_ptr = dropped.rest.next_ptr;
        events = dropped.rest.events;
        next_conn_id = dropped.rest.next_conn_id;
      };
      stopped = dropped.stopped;
      timers = dropped.timers;
      timed = dropped.timed;
      clock = dropped.clock;
    }

-- The entry of the table under the id of the task at `p`, if any, is that task's.
abbrev pub Owns : Ptr → Task → ClientLoop → Type 0
Owns p t s = (q : Ptr) → find t.task_id s.task_table ≡ some q → q ≡ p

-- The task at `p` has ended: its caller has been woken once, and the loop has forgotten it.
pub record Settled (p : Ptr) (t : Task) (s : ClientLoop) : Type 0 where
  pub at : s.tasks p ≡ some (woken t)
  pub woken_once : t.notified ≡ 0
  pub forgotten : find t.task_id s.task_table ≡ none
  pub stopped : find t.task_id s.timer_table ≡ none

Waits-Ends :
    {p : Ptr} {t : Task} {s : ClientLoop} (e : Ends p t s)
    → s.tasks p ≡ some t
    → (id q : ℕ) → id ≢ t.task_id
    → Waits s.tasks id q
    → Waits e.next.tasks id q
Waits-Ends {p} {t} {s} e at id q other w = record {
  task = w.task;
  at = ap (λ m. m q) e.tasks ∙ spared;
  own_id = w.own_id;
  asleep = w.asleep;
}
  where
    spared : put s.tasks p (some (woken t)) q ≡ some w.task
    spared = ground (arith, at, w.at, w.own_id, ap (λ (m : Option Task). m) at)

put_once :
    (m : Ptr → Option Task) (p : Ptr) (t : Task)
    → t.notified ≡ 0
    → (q : Ptr) (u : Task) → ((q : Ptr) (u : Task) → m q ≡ some u → u.notified ≤ 1)
    → put m p (some (woken t)) q ≡ some u
    → u.notified ≤ 1
put_once m p t asleep q u once there = elim (Bool-cases (q == p)) [
  | inl same ↦ ground (arith, same, there)
  | inr other ↦ once q u (ground (arith, other, there))
]

pub Ends-Inv :
    {p : Ptr} {t : Task} {s : ClientLoop} (e : Ends p t s)
    → Inv s
    → s.tasks p ≡ some t
    → t.notified ≡ 0
    → Inv e.next
Ends-Inv {p} {t} {s} e v at asleep = record {
  waiting = λ id q there.
      let (other, was) = find_of_erase s.task_table (rw e.task_table at there) in
      Waits-Ends e at id q other (v.waiting id q was);
  once = λ q u there. put_once s.tasks p t asleep q u v.once (sym (ap (λ m. m q) e.tasks) ∙ there);
  ticking = e.timed;
}
