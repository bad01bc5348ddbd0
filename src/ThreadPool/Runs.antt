-- ===== src/ThreadPool/Runs.antt =====
-- The account of the jobs in every state that a pool reaches.
use udpboardcast.Base.{ℕ, ◌≡◌, refl, ap, subst, Bool, List, ◌∷◌, ◌++◌, arith}
use udpboardcast.ThreadPool.Threads.{
  At, checks, waits, Pool, threadpool_init, is_ended, Step, Steps, push, runs, wakes, uninit,
  sem_post, cancels, joins, stop, next,
}
use udpboardcast.ThreadPool.Sums.{working, holding, owing}
use udpboardcast.ThreadPool.Moves.{ends_as, rests, thread_func-Moves}
use udpboardcast.ThreadPool.Account.{
  Accounts, due, cleared, threadpool_init-Accounts, push-Accounts, Moves-Accounts,
}
use udpboardcast.ThreadPool.Cancel.{Left, cancel_all-Accounts}

waits_active :
    (n : ℕ) (xs ys : List At) (s : Pool)
    → s.threads ≡ xs ++ waits ∷ ys
    → Accounts n s
    → Accounts n (record s { threads = xs ++ checks ∷ ys })
unfolding working holding owing is_ended
waits_active n xs ys s split v =
    Moves-Accounts n xs ys waits checks s s split refl
      (rests waits checks s s.exit_sem (λ w. refl) (λ w. refl) refl) v

pub Step-Accounts :
    (n : ℕ) (spurious : Bool) (s t : Pool) → Step spurious s t → Accounts n s → Accounts n t
unfolding due cleared
Step-Accounts n spurious s t (push j _ open_yet) v = push-Accounts n j s open_yet v
Step-Accounts n spurious s t (runs xs ys a b _ s' split e) v =
    let (active, m) = ends_as _ a b s s' (thread_func-Moves a s) e in
    Moves-Accounts n xs ys a b s s' split active m v
Step-Accounts n spurious s t (wakes xs ys _ allowed split) v = waits_active n xs ys s split v
Step-Accounts n spurious s t (uninit _ open_yet) v = record {
  num = v.num;
  procs = v.procs;
  afters = v.afters;
  units = omega (arith, v.units, v.num, ap (due n) open_yet);
  emptied = λ e. cc;
  over = λ e. cc;
}
Step-Accounts n spurious s t (sem_post k _ left) v = record {
  num = v.num;
  procs = v.procs;
  afters = v.afters;
  units = omega (arith, v.units, ap (due n) left);
  emptied = λ e. cc;
  over = λ e. cc;
}
Step-Accounts n spurious s t (cancels _ _ posted e) v =
    subst (Left (Accounts n)) e (cancel_all-Accounts n s posted v)
Step-Accounts n spurious s t (joins _ waiting all) v = record {
  num = v.num;
  procs = v.procs;
  afters = v.afters;
  units = omega (arith, v.units, ap (due n) waiting);
  emptied = λ e. v.emptied (ap cleared waiting);
  over = λ e. all;
}

pub Steps-keeps :
    (n : ℕ) (spurious : Bool) (s t : Pool) → Steps spurious s t → Accounts n s → Accounts n t
Steps-keeps n spurious s t (stop _) v = v
Steps-keeps n spurious s t (next _ u _ one rest) v =
    Steps-keeps n spurious u t rest (Step-Accounts n spurious s u one v)

pub Steps-Accounts :
    (n : ℕ) (spurious : Bool) (s : Pool) → Steps spurious (threadpool_init n) s → Accounts n s
Steps-Accounts n spurious s run =
    Steps-keeps n spurious (threadpool_init n) s run (threadpool_init-Accounts n)
