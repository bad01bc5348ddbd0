-- ===== src/ThreadPool/Lost.antt =====
-- The end of a pool while a thread is between `uv_sem_trywait` and `uv_cond_wait`.
use udpboardcast.Base.{
  ℕ, ◌≤◌, ◌≡◌, inl, inr, refl, ap, ◌∙◌, false, List, [], ◌∷◌, none, some, ◌==◌, Bool-cases, arith,
}
use udpboardcast.ThreadPool.{pop_work}
use udpboardcast.ThreadPool.Threads.{
  Job, At, checks, posts, pops, waits, works, reports, ended, joining, Pool, threadpool_init,
  thread_func, Step, Steps, push, runs, wakes, uninit, sem_post, cancels, joins, stop, next,
}
use udpboardcast.ThreadPool.Sums.{sum, sum-swap}
use udpboardcast.ThreadPool.Moves.{Next, ends_as, thread_func-Moves}
use udpboardcast.ThreadPool.Account.{Accounts, cleared}
use udpboardcast.ThreadPool.Runs.{Step-Accounts, Steps-Accounts}
use udpboardcast.ThreadPool.Once.{sum-ended}

-- 1 for a thread that has found no unit in `exit_sem` and takes no job before it looks again,
-- if the queue is empty.
unfoldable pub drowsy : At → ℕ
drowsy checks = 0
drowsy posts = 0
drowsy pops = 1
drowsy waits = 1
drowsy (works j) = 0
drowsy (reports j) = 0
drowsy ended = 0

finds_none :
    (queue : List Job) (s : Pool)
    → queue ≡ []
    → Next
        (λ b s'. 1 ≤ drowsy b)
        (elim (pop_work queue) [
          | none ↦ some (waits, s)
          | some (j, rest) ↦ some (works j, record s { queue = rest })
        ])
unfolding pop_work drowsy
finds_none [] s e = omega arith
finds_none (j ∷ queue) s e = cc e

-- With an empty queue such a thread stays one.
thread_func-drowsy :
    (a : At) (s : Pool) → s.queue ≡ [] → Next (λ b s'. drowsy a ≤ drowsy b) (thread_func a s)
unfolding thread_func pop_work drowsy
thread_func-drowsy checks s e = elim (Bool-cases (s.exit_sem == 0)) [
  | inl h ↦ rw h (omega arith)
  | inr h ↦ rw h (omega arith)
]
thread_func-drowsy posts s e = omega arith
thread_func-drowsy pops s e = finds_none s.queue s e
thread_func-drowsy waits s e = tt
thread_func-drowsy (works j) s e = omega arith
thread_func-drowsy (reports j) s e = omega arith
thread_func-drowsy ended s e = tt

-- The caller of `threadpool_uninit` waits for a thread that nobody wakes.
pub record Hangs (s : Pool) : Type 0 where
  pub stage : s.stage ≡ joining
  pub asleep : 1 ≤ sum drowsy s.threads

Step-Hangs : (n : ℕ) (s t : Pool) → Step false s t → Accounts n s → Hangs s → Hangs t
unfolding drowsy cleared
Step-Hangs n s t (push j _ open_yet) v h = cc (open_yet, h.stage)
Step-Hangs n s t (runs xs ys a b _ s' split e) v h =
    let (_, m) = ends_as _ a b s s' (thread_func-Moves a s) e in
    let empty = v.emptied (ap cleared h.stage) in
    let more = ends_as _ a b s s' (thread_func-drowsy a s empty) e in
    record {
      stage = m.stage ∙ h.stage;
      asleep = omega (arith, sum-swap drowsy xs ys a b, more, h.asleep, ap (sum drowsy) split);
    }
Step-Hangs n s t (wakes xs ys _ allowed split) v h = cc allowed
Step-Hangs n s t (uninit _ open_yet) v h = cc (open_yet, h.stage)
Step-Hangs n s t (sem_post k _ left) v h = cc (left, h.stage)
Step-Hangs n s t (cancels _ _ posted e) v h = cc (posted, h.stage)
Step-Hangs n s t (joins _ waiting all) v h =
    absurd (omega (arith, h.asleep, sum-ended drowsy s.threads refl all))

Steps-Hangs : (n : ℕ) (s t : Pool) → Steps false s t → Accounts n s → Hangs s → Hangs t
Steps-Hangs n s t (stop _) v h = h
Steps-Hangs n s t (next _ u _ one rest) v h =
    Steps-Hangs n u t rest (Step-Accounts n false s u one v) (Step-Hangs n s u one v h)

-- If a thread has found no unit in `exit_sem`, and has not taken a job since, when
-- `threadpool_uninit` has cleared the queue and joins the threads, then `threadpool_uninit` never
-- returns, unless `uv_cond_wait` returns without a broadcast.
pub Steps-Lost :
    (n : ℕ) (s t : Pool)
    → Steps false (threadpool_init n) s
    → s.stage ≡ joining
    → 1 ≤ sum drowsy s.threads
    → Steps false s t
    → t.stage ≡ joining
Steps-Lost n s t run waiting asleep later =
    (Steps-Hangs n s t later (Steps-Accounts n false s run)
      (record { stage = waiting; asleep = asleep })).stage
