-- ===== src/ThreadPool/Once.antt =====
-- How often the callbacks of a job are called.
use udpboardcast.Base.{
  ℕ, ◌+◌, ◌≤◌, ◌≡◌, refl, ap, Bool, true, false, List, [], ◌∷◌, ◌==◌, if◌then◌else◌, arith,
}
use udpboardcast.ThreadPool.Threads.{
  Job, At, checks, posts, pops, waits, works, reports, ended, gone, Pool, threadpool_init, is_ended,
  all_ended, Steps,
}
use udpboardcast.ThreadPool.Sums.{sum, working, holding}
use udpboardcast.ThreadPool.Account.{cleared}
use udpboardcast.ThreadPool.Runs.{Steps-Accounts}

-- 1 for a job with this parameter and a `proc`.
unfoldable pub proc_of : ℕ → Job → ℕ
proc_of param j = if j.proc then if j.param == param then 1 else 0 else 0

-- 1 for a job with this parameter and an `after_proc`.
unfoldable pub after_of : ℕ → Job → ℕ
after_of param j = if j.after_proc then if j.param == param then 1 else 0 else 0

no_proc : (param : ℕ) (j : Job) → j.proc ≡ false → proc_of param j ≡ 0
unfolding proc_of
no_proc param j absent = rw absent refl

no_after : (param : ℕ) (j : Job) → j.after_proc ≡ false → after_of param j ≡ 0
unfolding after_of
no_after param j absent = rw absent refl

-- Threads that have ended hold nothing.
pub sum-ended : (f : At → ℕ) (ts : List At) → f ended ≡ 0 → all_ended ts ≡ true → sum f ts ≡ 0
unfolding sum all_ended is_ended
sum-ended f [] none_at all = refl
sum-ended f (ended ∷ ts) none_at all = omega (arith, none_at, sum-ended f ts none_at all)
sum-ended f (checks ∷ ts) none_at all = cc all
sum-ended f (posts ∷ ts) none_at all = cc all
sum-ended f (pops ∷ ts) none_at all = cc all
sum-ended f (waits ∷ ts) none_at all = cc all
sum-ended f (works j ∷ ts) none_at all = cc all
sum-ended f (reports j ∷ ts) none_at all = cc all

-- In every state of a pool, the jobs with a parameter had `proc` called, or were cancelled, at most
-- as often as they were accepted, and `after_proc` called at most as often; once
-- `threadpool_uninit` has returned, each job that was accepted was run or cancelled, and its
-- `after_proc` was called, exactly once.
pub Steps-Once :
    (n : ℕ) (spurious : Bool) (s : Pool) (param : ℕ)
    → Steps spurious (threadpool_init n) s
    → (sum (proc_of param) s.procs + sum (proc_of param) s.cancelled ≤ sum (proc_of param) s.pushed)
      × (sum (after_of param) s.afters ≤ sum (after_of param) s.pushed)
      × (s.stage ≡ gone
          → (sum (proc_of param) s.procs + sum (proc_of param) s.cancelled
              ≡ sum (proc_of param) s.pushed)
            × (sum (after_of param) s.afters ≡ sum (after_of param) s.pushed))
unfolding sum working holding cleared
Steps-Once n spurious s param run =
    let v = Steps-Accounts n spurious s run in
    let procs = v.procs (proc_of param) (no_proc param) in
    let afters = v.afters (after_of param) (no_after param) in
    (
      omega (arith, procs),
      omega (arith, afters),
      λ over.
          let empty = v.emptied (ap cleared over) in
          let all = v.over over in
          (
            omega (
              arith,
              procs,
              ap (sum (proc_of param)) empty,
              sum-ended (working (proc_of param)) s.threads refl all,
            ),
            omega (
              arith,
              afters,
              ap (sum (after_of param)) empty,
              sum-ended (holding (after_of param)) s.threads refl all,
            ),
          ),
    )
