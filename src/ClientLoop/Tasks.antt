-- ===== src/ClientLoop/Tasks.antt =====
-- The end of a task on the client loop: `_cl_finish_task`, `write_cb` and `timer_cb` of
-- Communication/core/comm_core.cpp.
use udpboardcast.Base.{ℕ, ◌+◌, false, Option, none, some, ltb, ◌==◌, if◌then◌else◌}
use udpboardcast.Errors.{err_timeout}
use udpboardcast.ClientLoop.{
  Ptr, rw_type, push_type, resp_type, connect_type, close_type, Task, ClientLoop, Outcome, ok,
  fault, ◌>>=◌, with_task, with_timer, set_task, set_timer, set_err, close_timer, close_target,
  cl_task_find, cl_task_del, cl_timer_add, cl_timer_find, cl_timer_del,
}

-- Closes the timer of the task, if it has one.
unfoldable pub drop_timer : ℕ → ClientLoop → Outcome
unfolding close_timer cl_timer_find cl_timer_del
drop_timer id s = elim (cl_timer_find id s) [
  | none ↦ ok s
  | some q ↦ close_timer q s >>= λ s. ok (cl_timer_del id s)
]

-- `uv_sem_post(&task->notify)`.
unfoldable pub post : Ptr → ClientLoop → Outcome
unfolding with_task set_task
post p s = with_task p s λ t. ok (set_task p (record t { notified = t.notified + 1 }) s)

-- `_cl_finish_task`, but for `errmsg` (`Errors.finish_errmsg`), which no code reads.
unfoldable pub finish_task : Ptr → ClientLoop → Outcome
unfolding with_task post cl_task_del
finish_task p s = with_task p s λ t. drop_timer t.task_id (cl_task_del t.task_id s) >>= post p

-- `task->err = e; _cl_finish_task(task);`
unfoldable pub fail_task : Ptr → ℕ → ClientLoop → Outcome
fail_task p e s = set_err p e s >>= finish_task p

-- `new timer_data_t` with its timer started, entered in the timer table.
unfoldable pub start_timer : ℕ → Option Ptr → ClientLoop → ClientLoop
unfolding set_timer cl_timer_add
start_timer id target s = cl_timer_add id s.next_ptr (
    set_timer s.next_ptr (record { task_id = id; target = target; closing = false })
      (record s { next_ptr = s.next_ptr + 1 }))

-- The case `RW` of `write_cb`. The timer of a request runs from the end of its write.
unfoldable pub rw_written : Ptr → Task → ℕ → ClientLoop → Outcome
unfolding start_timer
rw_written p t status s =
    if status == 0
    then if ltb 0 t.timeout then ok (start_timer t.task_id none s) else ok s
    else fail_task p status s

-- `write_cb` for the request whose `data` is the task at `p`. The client writes nothing but `RW`
-- tasks; a `PUSH` or `RESP` task belongs to the server loop.
unfoldable pub write_cb : Ptr → ℕ → ClientLoop → Outcome
unfolding with_task
write_cb p status s = with_task p s λ t. elim t.task_type [
  | rw_type ↦ rw_written p t status s
  | push_type ↦ fault
  | resp_type ↦ fault
  | connect_type ↦ fault
  | close_type ↦ fault
]

-- The task of a timer that has run out.
unfoldable pub time_out : Option Ptr → ClientLoop → Outcome
time_out none s = ok s
time_out (some p) s = fail_task p err_timeout s

-- `timer_cb` for the timer at `q`.
unfoldable pub timer_cb : Ptr → ClientLoop → Outcome
unfolding with_timer cl_task_find cl_task_del cl_timer_del
timer_cb q s = with_timer q s λ td.
    let s' = cl_timer_del td.task_id s in
    time_out (cl_task_find td.task_id s') (cl_task_del td.task_id s')
    >>= close_target td.target
    >>= close_timer q
