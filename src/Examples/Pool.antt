-- ===== src/Examples/Pool.antt =====
-- Runs of a pool of threads.
use udpboardcast.Base.{◌+◌, ◌≤◌, ◌≡◌, refl, true, false, [], ◌∷◌, arith}
use udpboardcast.ThreadPool.{push_work, pop_work}
use udpboardcast.ThreadPool.Threads.{
  Job, At, checks, posts, pops, waits, works, reports, ended, running, joining, gone, Pool, created,
  threadpool_init, wake, cond_broadcast, thread_func, threadpool_push_work, cancel_each, cancel_all,
  is_ended, all_ended, Steps, push, runs, uninit, sem_post, cancels, joins, stop, next,
}
use udpboardcast.ThreadPool.Sums.{sum}
use udpboardcast.ThreadPool.Once.{proc_of, after_of, Steps-Once}
use udpboardcast.ThreadPool.Awake.{sleeping, Steps-Awake}
use udpboardcast.ThreadPool.Lost.{drowsy, Steps-Lost}
use udpboardcast.ThreadPool.Ends.{Returns, Steps-Returns}

abbrev job : Job
job = record { param = 7; proc = true; after_proc = true }

-- One thread has run one job, and the pool is gone.
abbrev pool_gone : Pool
pool_gone = record {
  exit_sem = 1;
  queue = [];
  threads = ended ∷ [];
  stage = gone;
  pushed = job ∷ [];
  procs = job ∷ [];
  afters = job ∷ [];
  cancelled = [];
}

run_to_gone : Steps false (threadpool_init 1) pool_gone
unfolding threadpool_init created threadpool_push_work push_work cond_broadcast wake thread_func
    pop_work cancel_all cancel_each is_ended all_ended
run_to_gone = next _ _ _ (push job _ refl) (
    next _ _ _ (runs [] [] checks pops _ _ refl refl) (
      next _ _ _ (runs [] [] pops (works job) _ _ refl refl) (
        next _ _ _ (runs [] [] (works job) (reports job) _ _ refl refl) (
          next _ _ _ (runs [] [] (reports job) checks _ _ refl refl) (
            next _ _ _ (uninit _ refl) (
              next _ _ _ (sem_post 0 _ refl) (
                next _ _ _ (cancels _ _ refl refl) (
                  next _ _ _ (runs [] [] checks posts _ _ refl refl) (
                    next _ _ _ (runs [] [] posts ended _ _ refl refl)
                      (next _ _ _ (joins _ refl refl) (stop _)))))))))))

Steps-Once_example :
    (sum (proc_of 7) pool_gone.procs + sum (proc_of 7) pool_gone.cancelled
      ≤ sum (proc_of 7) pool_gone.pushed)
    × (sum (after_of 7) pool_gone.afters ≤ sum (after_of 7) pool_gone.pushed)
    × (pool_gone.stage ≡ gone
        → (sum (proc_of 7) pool_gone.procs + sum (proc_of 7) pool_gone.cancelled
            ≡ sum (proc_of 7) pool_gone.pushed)
          × (sum (after_of 7) pool_gone.afters ≡ sum (after_of 7) pool_gone.pushed))
Steps-Once_example = Steps-Once 1 false pool_gone 7 run_to_gone

-- Of two threads one sleeps, until a job is pushed.
abbrev woken_up : Pool
woken_up = record {
  exit_sem = 0;
  queue = job ∷ [];
  threads = checks ∷ checks ∷ [];
  stage = running;
  pushed = job ∷ [];
  procs = [];
  afters = [];
  cancelled = [];
}

run_to_job : Steps false (threadpool_init 2) woken_up
unfolding threadpool_init created threadpool_push_work push_work cond_broadcast wake thread_func
    pop_work
run_to_job = next _ _ _ (runs (checks ∷ []) [] checks pops _ _ refl refl) (
    next _ _ _ (runs (checks ∷ []) [] pops waits _ _ refl refl)
      (next _ _ _ (push job _ refl) (stop _)))

Steps-Awake_example : sum sleeping woken_up.threads ≡ 0
Steps-Awake_example = Steps-Awake 2 false woken_up job [] run_to_job refl

-- The only thread of an idle pool, at `a`, when the pool is joined.
abbrev joined : At → Pool
joined a = record {
  exit_sem = 1;
  queue = [];
  threads = a ∷ [];
  stage = joining;
  pushed = [];
  procs = [];
  afters = [];
  cancelled = [];
}

run_to_pops : Steps false (threadpool_init 1) (joined pops)
unfolding threadpool_init created cond_broadcast wake thread_func cancel_all cancel_each
run_to_pops = next _ _ _ (runs [] [] checks pops _ _ refl refl) (
    next _ _ _ (uninit _ refl)
      (next _ _ _ (sem_post 0 _ refl) (next _ _ _ (cancels _ _ refl refl) (stop _))))

pops_to_waits : Steps false (joined pops) (joined waits)
unfolding thread_func pop_work
pops_to_waits = next _ _ _ (runs [] [] pops waits _ _ refl refl) (stop _)

Steps-Lost_example : (joined waits).stage ≡ joining
unfolding sum drowsy
Steps-Lost_example =
    Steps-Lost 1 (joined pops) (joined waits) run_to_pops refl (omega arith) pops_to_waits

run_to_checks : Steps false (threadpool_init 1) (joined checks)
unfolding threadpool_init created cond_broadcast wake thread_func pop_work cancel_all cancel_each
run_to_checks = next _ _ _ (runs [] [] checks pops _ _ refl refl) (
    next _ _ _ (runs [] [] pops waits _ _ refl refl) (
      next _ _ _ (uninit _ refl)
        (next _ _ _ (sem_post 0 _ refl) (next _ _ _ (cancels _ _ refl refl) (stop _)))))

Steps-Returns_example : Returns false (joined checks)
unfolding sum drowsy
Steps-Returns_example = Steps-Returns 1 false (joined checks) run_to_checks refl refl
