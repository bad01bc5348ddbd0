-- ===== src/ClientLoop/Timeout.antt =====
-- `timer_cb`: a timer that runs out.
use udpboardcast.Base.{
  ℕ, ◌≡◌, refl, sym, subst, ap, ◌∙◌, inl, inr, true, Option, some, none, arith, Option-cases,
}
use udpboardcast.Table.{Table, find}
use udpboardcast.Table.Laws.{find-erase_self, find_of_erase}
use udpboardcast.Errors.{err_timeout}
use udpboardcast.ClientLoop.{
  Ptr, Task, Conn, TimerData, ClientLoop, Outcome, ok, ◌>>=◌, put, close_timer, close_target,
  cl_task_find, cl_task_del, cl_timer_del,
}
use udpboardcast.ClientLoop.Tasks.{time_out, timer_cb}
use udpboardcast.ClientLoop.Invariant.{Inv, put_self}
use udpboardcast.ClientLoop.Keeps.{Present, Present-put}
use udpboardcast.ClientLoop.Links.{Links, Links-put}
use udpboardcast.ClientLoop.Finish.{Settled, Ticks-put}
use udpboardcast.ClientLoop.Conclude.{
  SameTasks, Settled-SameTasks, Inv-SameTasks, fail_task-Concludes,
}

-- The loop without its entries under `id`.
unfoldable pub forget : ℕ → ClientLoop → ClientLoop
unfolding cl_task_del cl_timer_del
forget id s = cl_task_del id (cl_timer_del id s)

pub forget-Inv : (id : ℕ) (s : ClientLoop) → Inv s → Inv (forget id s)
unfolding forget cl_task_del cl_timer_del
forget-Inv id s v = record {
  waiting = λ j p there. v.waiting j p (find_of_erase s.task_table there).1;
  once = v.once;
  ticking = λ j q there. v.ticking j q (find_of_erase s.timer_table there).1;
}

-- The middle of `timer_cb`: the task of the timer.
record TaskOver (id : ℕ) (s : ClientLoop) (r : Outcome) : Type 0 where
  next : ClientLoop
  result : r ≡ ok next
  inv : Inv next
  timers : next.timers ≡ s.timers
  conns : next.conns ≡ s.conns
  forgotten : find id next.task_table ≡ none
  stopped : find id next.timer_table ≡ none
  ended :
      (p : Ptr) (t : Task)
      → find id s.task_table ≡ some p
      → s.tasks p ≡ some t
      → Settled p (record t { err = err_timeout }) next

time_out-none :
    (id : ℕ) (s : ClientLoop)
    → Inv s
    → find id s.task_table ≡ none
    → TaskOver id s (time_out none (forget id s))
unfolding time_out forget cl_task_del cl_timer_del
time_out-none id s v absent = record {
  next = forget id s;
  result = refl;
  inv = forget-Inv id s v;
  timers = refl;
  conns = refl;
  forgotten = find-erase_self id s.task_table;
  stopped = find-erase_self id s.timer_table;
  ended = λ p t there _. cc (absent, there);
}

time_out-some :
    (id : ℕ) (p : Ptr) (s : ClientLoop)
    → Inv s
    → find id s.task_table ≡ some p
    → TaskOver id s (time_out (some p) (forget id s))
unfolding time_out forget cl_task_del cl_timer_del
time_out-some id p s v there =
    let w = v.waiting id p there in
    let c =
      fail_task-Concludes p w.task err_timeout (forget id s) (forget-Inv id s v) w.at w.asleep in
    record {
      next = c.next;
      result = c.result;
      inv = c.inv;
      timers = c.timers (rw w.own_id (find-erase_self id s.timer_table));
      conns = c.rest.conns;
      forgotten = ap (λ j. find j c.next.task_table) (sym w.own_id) ∙ c.settled.forgotten;
      stopped = ap (λ j. find j c.next.timer_table) (sym w.own_id) ∙ c.settled.stopped;
      ended = λ p' t' there' at'.
          let same : p ≡ p' = cc (there, there') in
          let same_task : w.task ≡ t' = cc (w.at, at', same) in
          subst (λ a. Settled a (record t' { err = err_timeout }) c.next) same
            (subst (λ u. Settled p (record u { err = err_timeout }) c.next) same_task c.settled);
    }

time_out-TaskOver :
    (id : ℕ) (s : ClientLoop)
    → Inv s
    → TaskOver id s (time_out (find id s.task_table) (forget id s))
time_out-TaskOver id s v = elim (Option-cases (find id s.task_table)) [
  | inl absent ↦ rw absent (time_out-none id s v absent)
  | inr (p, there) ↦ rw there (time_out-some id p s v there)
]

-- The end of `timer_cb`: the handles of the connection and of the timer.
pub record Closes (q : Ptr) (td : TimerData) (o : Option Ptr) (s : ClientLoop) (r : Outcome)
    : Type 0 where
  pub next : ClientLoop
  pub result : r ≡ ok next
  pub same : SameTasks s next
  pub timers : next.timers ≡ put s.timers q (some (record td { closing = true }))
  pub rest : next ≡ record s { timers = next.timers; conns = next.conns }
  pub kept : (d : Ptr) → Present s.conns d → Present next.conns d
  pub links : (m : Table Ptr) (n : Ptr) → Links m s.conns n → Links m next.conns n
  pub target :
      (c : Ptr) (x : Conn)
      → o ≡ some c
      → s.conns c ≡ some x
      → next.conns c ≡ some (record x { closing = true })

pub close-Closes :
    (q : Ptr) (td : TimerData) (o : Option Ptr) (s : ClientLoop)
    → s.timers q ≡ some td
    → ((c : Ptr) → o ≡ some c → (x : Conn) × (s.conns c ≡ some x))
    → Closes q td o s (close_target o s >>= close_timer q)
unfolding close_target close_timer
close-Closes q td none s at live = record {
  next = record s { timers = put s.timers q (some (record td { closing = true })) };
  result = ground (arith, at);
  same = record { tasks = refl; task_table = refl; timer_table = refl };
  timers = refl;
  rest = refl;
  kept = λ d here. here;
  links = λ m n r. r;
  target = λ c x e _. cc;
}
close-Closes q td (some c) s at live =
    let (x, there) = live c refl in
    record {
      next = record s {
        timers = put s.timers q (some (record td { closing = true }));
        conns = put s.conns c (some (record x { closing = true }));
      };
      result = ground (arith, at, there);
      same = record { tasks = refl; task_table = refl; timer_table = refl };
      timers = refl;
      rest = refl;
      kept = λ d here. Present-put s.conns c (record x { closing = true }) d here;
      links = λ m n r. Links-put m s.conns n c x (record x { closing = true }) there refl r;
      target = λ c' x' e there'. ground (arith, e, there, there');
    }

-- What a timeout leaves: no trace of the id in either table, the handles closed, and the caller of
-- a task that still waited woken with `err_timeout`.
pub record TimesOut (q : Ptr) (td : TimerData) (s : ClientLoop) (r : Outcome) : Type 0 where
  pub next : ClientLoop
  pub result : r ≡ ok next
  pub inv : Inv next
  pub timer : next.timers q ≡ some (record td { closing = true })
  pub target :
      (c : Ptr) (x : Conn)
      → td.target ≡ some c
      → s.conns c ≡ some x
      → next.conns c ≡ some (record x { closing = true })
  pub forgotten : find td.task_id next.task_table ≡ none
  pub stopped : find td.task_id next.timer_table ≡ none
  pub ended :
      (p : Ptr) (t : Task)
      → find td.task_id s.task_table ≡ some p
      → s.tasks p ≡ some t
      → Settled p (record t { err = err_timeout }) next

pub timer_cb_lem :
    (q : Ptr) (td : TimerData) (s : ClientLoop)
    → s.timers q ≡ some td
    → timer_cb q s ≡ (
        time_out (find td.task_id s.task_table) (forget td.task_id s)
        >>= close_target td.target
        >>= close_timer q)
unfolding timer_cb forget cl_task_find cl_task_del cl_timer_del
timer_cb_lem q td s at = ground (arith, at)

-- A timer that runs out wakes the caller of its task with `err_timeout`, if the task still waits,
-- closes its own handle and the connection's that waits for it, and leaves nothing in the tables,
-- provided that this connection has not been deleted.
pub timer_cb-TimesOut :
    (q : Ptr) (td : TimerData) (s : ClientLoop)
    → Inv s
    → s.timers q ≡ some td
    → ((c : Ptr) → td.target ≡ some c → (x : Conn) × (s.conns c ≡ some x))
    → TimesOut q td s (timer_cb q s)
timer_cb-TimesOut q td s v at live =
    let over = time_out-TaskOver td.task_id s v in
    let closes =
      close-Closes q td td.target over.next (ap (λ m. m q) over.timers ∙ at)
        (λ c e. ((live c e).0, ap (λ m. m c) over.conns ∙ (live c e).1)) in
    record {
      next = closes.next;
      result =
          timer_cb_lem q td s at
          ∙ ap (λ r. r >>= close_target td.target >>= close_timer q) over.result
          ∙ closes.result;
      inv =
          Inv-SameTasks closes.same (λ q' t. rw closes.timers (Ticks-put over.next.timers q q' _ t))
            over.inv;
      timer = ap (λ m. m q) closes.timers ∙ put_self over.next.timers q _;
      target = λ c x e there. closes.target c x e (ap (λ m. m c) over.conns ∙ there);
      forgotten = rw closes.same.task_table over.forgotten;
      stopped = rw closes.same.timer_table over.stopped;
      ended = λ p t there held. Settled-SameTasks closes.same (over.ended p t there held);
    }
