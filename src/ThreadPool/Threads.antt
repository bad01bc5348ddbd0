-- ===== src/ThreadPool/Threads.antt =====
-- third/threadpool/threadpool.c: the threads of the pool, step by step, with the queue, the
-- semaphore `exit_sem` and the condition `cond`, from `threadpool_init` to `threadpool_uninit`.
use udpboardcast.Base.{
  ℕ, zero, suc, ◌+◌, ◌-◌, ◌≡◌, Bool, true, false, List, [], ◌∷◌, ◌++◌, map, Option, none, some,
  length, ◌==◌, if◌then◌else◌,
}
use udpboardcast.ThreadPool.{push_work, pop_work}

-- `thread_param_t`: whether `proc` and `after_proc` are not null.
pub record Job : Type 0 where
  pub param : ℕ
  pub proc : Bool
  pub after_proc : Bool

-- Where a thread is in `thread_func`: before `uv_sem_trywait`, before `uv_sem_post`, before
-- `easy_queue_pop`, in `uv_cond_wait`, before `proc`, before `after_proc`, or behind the loop.
pub data At : Type 0 where
  checks : At
  posts : At
  pops : At
  waits : At
  works : Job → At
  reports : Job → At
  ended : At

-- Where the caller of `threadpool_uninit` is: not in it, with so many posts left, in
-- `uv_thread_join`, or behind it.
pub data Stage : Type 0 where
  running : Stage
  posting : ℕ → Stage
  joining : Stage
  gone : Stage

-- `threadpool_t`, with what has happened so far, newest first: the jobs for which
-- `threadpool_push_work` returned 0, the calls of `proc`, the calls of `after_proc`, and the jobs
-- that `easy_queue_clear` handed to `queue_free_func`.
pub record Pool : Type 0 where
  pub exit_sem : ℕ
  pub queue : List Job
  pub threads : List At
  pub stage : Stage
  pub pushed : List Job
  pub procs : List Job
  pub afters : List Job
  pub cancelled : List Job

-- The loop of `uv_thread_create`.
unfoldable pub created : ℕ → List At
created zero = []
created (suc n) = checks ∷ created n

unfoldable pub threadpool_init : ℕ → Pool
unfolding created
threadpool_init threadnum = record {
  exit_sem = 0;
  queue = [];
  threads = created threadnum;
  stage = running;
  pushed = [];
  procs = [];
  afters = [];
  cancelled = [];
}

-- A thread that `uv_cond_wait` returns to goes on with the loop.
unfoldable pub wake : At → At
wake waits = checks
wake checks = checks
wake posts = posts
wake pops = pops
wake (works j) = works j
wake (reports j) = reports j
wake ended = ended

unfoldable pub cond_broadcast : List At → List At
unfolding wake
cond_broadcast = map wake

-- What a thread does next in `thread_func`; `none` is a thread that does nothing more by itself.
-- The queue is read and the wait begun under one lock of the mutex.
unfoldable pub thread_func : At → Pool → Option (At × Pool)
unfolding pop_work
thread_func checks s =
    if s.exit_sem == 0 then some (pops, s) else some (posts, record s { exit_sem = s.exit_sem - 1 })
thread_func posts s = some (ended, record s { exit_sem = s.exit_sem + 1 })
thread_func pops s = elim (pop_work s.queue) [
  | none ↦ some (waits, s)
  | some (j, queue) ↦ some (works j, record s { queue = queue })
]
thread_func waits s = none
thread_func (works j) s = some (reports j, if j.proc then record s { procs = j ∷ s.procs } else s)
thread_func (reports j) s =
    some (checks, if j.after_proc then record s { afters = j ∷ s.afters } else s)
thread_func ended s = none

-- `threadpool_push_work`: true for 0, false for -1.
unfoldable pub threadpool_push_work : Job → Pool → Bool × Pool
unfolding push_work cond_broadcast
threadpool_push_work j s =
    let (taken, queue) = push_work j s.queue in
    if taken
    then (
      true,
      record s { queue = queue; threads = cond_broadcast s.threads; pushed = j ∷ s.pushed },
    )
    else (false, s)

-- `queue_free_func`: `after_proc` is called without a test, and `none` is a call of null.
unfoldable pub queue_free_func : Job → Pool → Option Pool
queue_free_func j s =
    if j.after_proc
    then some (record s { afters = j ∷ s.afters; cancelled = j ∷ s.cancelled })
    else none

-- `easy_queue_clear` over the jobs that wait, the last first.
unfoldable pub cancel_each : List Job → Pool → Option Pool
unfolding queue_free_func
cancel_each [] s = some s
cancel_each (j ∷ js) s = elim (cancel_each js s) [ none ↦ none | some s' ↦ queue_free_func j s' ]

-- The locked part of `_threadpool_cancel_all`.
unfoldable pub cancel_all : Pool → Option Pool
unfolding cancel_each cond_broadcast
cancel_all s = elim (cancel_each s.queue (record s { threads = cond_broadcast s.threads })) [
  | none ↦ none
  | some s' ↦ some (record s' { queue = []; stage = joining })
]

unfoldable pub is_ended : At → Bool
is_ended ended = true
is_ended checks = false
is_ended posts = false
is_ended pops = false
is_ended waits = false
is_ended (works j) = false
is_ended (reports j) = false

-- The loop of `uv_thread_join` returns.
unfoldable pub all_ended : List At → Bool
unfolding is_ended
all_ended [] = true
all_ended (a ∷ ys) = let rest = all_ended ys in if is_ended a then rest else false

-- What happens to a pool next. `spurious` is whether `uv_cond_wait` may return without a
-- broadcast. Nobody pushes to a pool that is being destroyed.
pub data Step (spurious : Bool) : Pool → Pool → Type 0 where
  push : (j : Job) (s : Pool) → s.stage ≡ running → Step spurious s (threadpool_push_work j s).1
  runs :
      (xs ys : List At) (a b : At) (s s' : Pool)
      → s.threads ≡ xs ++ a ∷ ys
      → thread_func a s ≡ some (b, s')
      → Step spurious s (record s' { threads = xs ++ b ∷ ys })
  wakes :
      (xs ys : List At) (s : Pool)
      → spurious ≡ true
      → s.threads ≡ xs ++ waits ∷ ys
      → Step spurious s (record s { threads = xs ++ checks ∷ ys })
  uninit :
      (s : Pool)
      → s.stage ≡ running
      → Step spurious s (record s { stage = posting (length s.threads) })
  sem_post :
      (k : ℕ) (s : Pool)
      → s.stage ≡ posting (suc k)
      → Step spurious s (record s { exit_sem = s.exit_sem + 1; stage = posting k })
  cancels : (s s' : Pool) → s.stage ≡ posting 0 → cancel_all s ≡ some s' → Step spurious s s'
  joins :
      (s : Pool)
      → s.stage ≡ joining
      → all_ended s.threads ≡ true
      → Step spurious s (record s { stage = gone })

pub data Steps (spurious : Bool) : Pool → Pool → Type 0 where
  stop : (s : Pool) → Steps spurious s s
  next : (s t u : Pool) → Step spurious s t → Steps spurious t u → Steps spurious s u
