-- ===== src/ThreadPool/Cancel.antt =====
-- The jobs of a pool when its queue is cleared: `_threadpool_cancel_all`.
use udpboardcast.Base.{
  ℕ, ◌+◌, ◌≡◌, refl, ap, ◌∙◌, inl, inr, List, [], ◌∷◌, Option, none, some, length, Bool-cases,
  arith,
}
use udpboardcast.ThreadPool.Threads.{
  Job, posting, joining, Pool, cond_broadcast, queue_free_func, cancel_each, cancel_all,
}
use udpboardcast.ThreadPool.Sums.{
  sum, working, holding, owing, sum-cond_broadcast, length-cond_broadcast,
}
use udpboardcast.ThreadPool.Account.{Accounts, due}

-- The jobs that wait are handed to `queue_free_func`.
record Frees (js : List Job) (s s' : Pool) : Type 0 where
  exit_sem : s'.exit_sem ≡ s.exit_sem
  threads : s'.threads ≡ s.threads
  pushed : s'.pushed ≡ s.pushed
  procs : s'.procs ≡ s.procs
  afters : (w : Job → ℕ) → sum w s'.afters ≡ sum w js + sum w s.afters
  cancelled : (w : Job → ℕ) → sum w s'.cancelled ≡ sum w js + sum w s.cancelled

-- A property of the pool that is left, if there is one.
abbrev pub Left : (Pool → Type 0) → Option Pool → Type 0
Left P none = Unit
Left P (some s) = P s

cancels_one :
    (j : Job) (js : List Job) (s : Pool) (r : Option Pool)
    → Left (Frees js s) r
    → Left (Frees (j ∷ js) s) (elim r [ none ↦ none | some s' ↦ queue_free_func j s' ])
unfolding queue_free_func sum
cancels_one j js s none h = tt
cancels_one j js s (some s') h = elim (Bool-cases j.after_proc) [
  | inl there ↦ rw there record {
    exit_sem = h.exit_sem;
    threads = h.threads;
    pushed = h.pushed;
    procs = h.procs;
    afters = λ w. omega (arith, h.afters w);
    cancelled = λ w. omega (arith, h.cancelled w);
  }
  | inr absent ↦ rw absent tt
]

cancel_each-Frees : (js : List Job) (s : Pool) → Left (Frees js s) (cancel_each js s)
unfolding cancel_each sum
cancel_each-Frees [] s = record {
  exit_sem = refl;
  threads = refl;
  pushed = refl;
  procs = refl;
  afters = λ w. omega arith;
  cancelled = λ w. omega arith;
}
cancel_each-Frees (j ∷ js) s = cancels_one j js s (cancel_each js s) (cancel_each-Frees js s)

joins_all :
    (n : ℕ) (s : Pool) (r : Option Pool)
    → s.stage ≡ posting 0
    → Accounts n s
    → Left (Frees s.queue (record s { threads = cond_broadcast s.threads })) r
    → Left
        (Accounts n)
        (elim r [ none ↦ none | some s' ↦ some (record s' { queue = []; stage = joining }) ])
unfolding sum working holding owing due
joins_all n s none posted v f = tt
joins_all n s (some s') posted v f = record {
  num = ap length f.threads ∙ length-cond_broadcast s.threads ∙ v.num;
  procs = λ w none_for. omega (
    arith,
    v.procs w none_for,
    f.cancelled w,
    ap (sum (working w)) f.threads,
    sum-cond_broadcast (working w) s.threads refl,
    ap (sum w) f.procs,
    ap (sum w) f.pushed,
  );
  afters = λ w none_for. omega (
    arith,
    v.afters w none_for,
    f.afters w,
    ap (sum (holding w)) f.threads,
    sum-cond_broadcast (holding w) s.threads refl,
    ap (sum w) f.pushed,
  );
  units = omega (
    arith,
    v.units,
    f.exit_sem,
    ap (sum owing) f.threads,
    sum-cond_broadcast owing s.threads refl,
    ap (due n) posted,
  );
  emptied = λ e. refl;
  over = λ e. cc;
}

pub cancel_all-Accounts :
    (n : ℕ) (s : Pool) → s.stage ≡ posting 0 → Accounts n s → Left (Accounts n) (cancel_all s)
unfolding cancel_all
cancel_all-Accounts n s posted v =
    joins_all n s _ posted v
      (cancel_each-Frees s.queue (record s { threads = cond_broadcast s.threads }))
