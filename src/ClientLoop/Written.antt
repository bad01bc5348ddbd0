-- ===== src/ClientLoop/Written.antt =====
-- `write_cb` on a request that waits for its answer.
use udpboardcast.Base.{
  ℕ, ◌<◌, ◌≡◌, ◌≢◌, refl, ◌⊎◌, inl, inr, some, none, arith, ltb, ◌==◌, Bool-cases,
}
use udpboardcast.Table.{find}
use udpboardcast.Table.Laws.{find-insert_self}
use udpboardcast.ClientLoop.{Ptr, Task, rw_type, ClientLoop, Outcome, ok}
use udpboardcast.ClientLoop.Tasks.{start_timer, rw_written, write_cb}
use udpboardcast.ClientLoop.Invariant.{Inv}
use udpboardcast.ClientLoop.Conclude.{Concludes, fail_task-Concludes, start_timer-Inv}

-- After a write that went well the request goes on waiting, under a timer if it has a timeout.
pub record GoesOn (t : Task) (s : ClientLoop) (r : Outcome) : Type 0 where
  pub next : ClientLoop
  pub result : r ≡ ok next
  pub inv : Inv next
  pub tasks : next.tasks ≡ s.tasks
  pub table : next.task_table ≡ s.task_table
  pub timed : 0 < t.timeout → find t.task_id next.timer_table ≡ some s.next_ptr

written-GoesOn : (p : Ptr) (t : Task) (s : ClientLoop) → Inv s → GoesOn t s (rw_written p t 0 s)
unfolding rw_written
written-GoesOn p t s v = elim (Bool-cases (ltb 0 t.timeout)) [
  | inl limited ↦ record {
    next = start_timer t.task_id none s;
    result = rw limited;
    inv = start_timer-Inv t.task_id none s v;
    tasks = refl;
    table = refl;
    timed = λ h. find-insert_self t.task_id s.next_ptr s.timer_table;
  }
  | inr endless ↦ record {
    next = s;
    result = rw endless;
    inv = v;
    tasks = refl;
    table = refl;
    timed = λ h. ground (arith, endless, h);
  }
]

pub write_cb_lem :
    (p : Ptr) (t : Task) (status : ℕ) (s : ClientLoop)
    → s.tasks p ≡ some t
    → t.task_type ≡ rw_type
    → write_cb p status s ≡ rw_written p t status s
unfolding write_cb
write_cb_lem p t status s at request = ground (arith, at, request)

written_cases :
    (p : Ptr) (t : Task) (status : ℕ) (s : ClientLoop)
    → Inv s
    → s.tasks p ≡ some t
    → t.notified ≡ 0
    → ((status ≡ 0) × GoesOn t s (rw_written p t status s))
      ⊎ ((status ≢ 0) × Concludes p (record t { err = status }) s (rw_written p t status s))
written_cases p t status s v at asleep = elim (Bool-cases (status == 0)) [
  | inl done ↦ let e : status ≡ 0 = ground arith in rw e (inl (refl, written-GoesOn p t s v))
  | inr failed ↦
      inr (
        ground arith,
        unfold rw_written in rw failed (fail_task-Concludes p t status s v at asleep),
      )
]

-- The end of a request's write: with status 0 the request goes on waiting, with its timer started
-- if it has a timeout; with any other status its caller is woken with that error. Neither faults,
-- and both keep the invariant, if the caller of the request has not been woken before.
pub write_cb-request :
    (p : Ptr) (t : Task) (status : ℕ) (s : ClientLoop)
    → Inv s
    → s.tasks p ≡ some t
    → t.task_type ≡ rw_type
    → t.notified ≡ 0
    → ((status ≡ 0) × GoesOn t s (write_cb p status s))
      ⊎ ((status ≢ 0) × Concludes p (record t { err = status }) s (write_cb p status s))
write_cb-request p t status s v at request asleep =
    rw (write_cb_lem p t status s at request) (written_cases p t status s v at asleep)
