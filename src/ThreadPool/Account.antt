-- ===== src/ThreadPool/Account.antt =====
-- Where the jobs of a pool and the units of its semaphore are, in every state.
use udpboardcast.Base.{
  ℕ, ◌+◌, ◌≡◌, refl, sym, ap, ◌∙◌, inl, inr, Bool, true, false, List, [], ◌∷◌, ◌++◌, length,
  Bool-cases, ltb, arith,
}
use udpboardcast.ThreadPool.{push_work}
use udpboardcast.ThreadPool.Threads.{
  Job, At, Stage, running, posting, joining, gone, Pool, threadpool_init, threadpool_push_work,
  is_ended, all_ended,
}
use udpboardcast.ThreadPool.Sums.{
  sum, working, holding, owing, sum-append, sum-swap, length-swap, sum-cond_broadcast,
  length-cond_broadcast, length-created, sum-created,
}
use udpboardcast.ThreadPool.Moves.{Moves}

-- The posts that are still to come, for `n` threads.
unfoldable pub due : ℕ → Stage → ℕ
due n running = n
due n (posting k) = k
due n joining = 0
due n gone = 0

-- The queue has been cleared.
unfoldable pub cleared : Stage → Bool
cleared running = false
cleared (posting k) = false
cleared joining = true
cleared gone = true

-- Each job is in one place, for any weight of jobs that is 0 for those without the callback; the
-- units of the semaphore are there, or a thread owes them, or they are still to be posted.
pub record Accounts (n : ℕ) (s : Pool) : Type 0 where
  pub num : length s.threads ≡ n
  pub procs :
      (w : Job → ℕ)
      → ((j : Job) → j.proc ≡ false → w j ≡ 0)
      → sum w s.pushed
        ≡ sum w s.queue + sum (working w) s.threads + sum w s.procs + sum w s.cancelled
  pub afters :
      (w : Job → ℕ)
      → ((j : Job) → j.after_proc ≡ false → w j ≡ 0)
      → sum w s.pushed ≡ sum w s.queue + sum (holding w) s.threads + sum w s.afters
  pub units : s.exit_sem + sum owing s.threads + due n s.stage ≡ n
  pub emptied : cleared s.stage ≡ true → s.queue ≡ []
  pub over : s.stage ≡ gone → all_ended s.threads ≡ true

pub threadpool_init-Accounts : (n : ℕ) → Accounts n (threadpool_init n)
unfolding threadpool_init sum working holding owing due cleared
threadpool_init-Accounts n = record {
  num = length-created n;
  procs = λ w none_for. omega (arith, sum-created (working w) n refl);
  afters = λ w none_for. omega (arith, sum-created (holding w) n refl);
  units = omega (arith, sum-created owing n refl);
  emptied = λ e. refl;
  over = λ e. cc;
}

pub push-Accounts :
    (n : ℕ) (j : Job) (s : Pool)
    → s.stage ≡ running
    → Accounts n s
    → Accounts n (threadpool_push_work j s).1
unfolding threadpool_push_work push_work sum working holding owing cleared
push-Accounts n j s open_yet v = elim (Bool-cases (ltb 64 (length s.queue))) [
  | inl full ↦ rw full v
  | inr room ↦ rw room record {
    num = length-cond_broadcast s.threads ∙ v.num;
    procs = λ w none_for. omega (
      arith,
      v.procs w none_for,
      sum-append w s.queue (j ∷ []),
      sum-cond_broadcast (working w) s.threads refl,
    );
    afters = λ w none_for. omega (
      arith,
      v.afters w none_for,
      sum-append w s.queue (j ∷ []),
      sum-cond_broadcast (holding w) s.threads refl,
    );
    units = omega (arith, v.units, sum-cond_broadcast owing s.threads refl);
    emptied = λ e. cc (e, open_yet);
    over = λ e. cc (e, open_yet);
  }
]

ended_each : (xs ys : List At) (a : At) → all_ended (xs ++ a ∷ ys) ≡ true → is_ended a ≡ true
unfolding all_ended
ended_each [] ys a h = ground (arith, h)
ended_each (x ∷ xs) ys a h = ended_each xs ys a (ground (arith, h))

pub Moves-Accounts :
    (n : ℕ) (xs ys : List At) (a b : At) (s s' : Pool)
    → s.threads ≡ xs ++ a ∷ ys
    → is_ended a ≡ false
    → Moves a b s s'
    → Accounts n s
    → Accounts n (record s' { threads = xs ++ b ∷ ys })
Moves-Accounts n xs ys a b s s' split active m v = record {
  num = length-swap xs ys a b ∙ ap length (sym split) ∙ v.num;
  procs = λ w none_for. omega (
    arith,
    v.procs w none_for,
    m.procs w none_for,
    sum-swap (working w) xs ys a b,
    ap (sum (working w)) split,
    ap (sum w) m.pushed,
    ap (sum w) m.cancelled,
  );
  afters = λ w none_for. omega (
    arith,
    v.afters w none_for,
    m.afters w none_for,
    sum-swap (holding w) xs ys a b,
    ap (sum (holding w)) split,
    ap (sum w) m.pushed,
  );
  units =
      omega (
        arith,
        v.units,
        m.units,
        sum-swap owing xs ys a b,
        ap (sum owing) split,
        ap (due n) m.stage,
      );
  emptied = λ e. m.emptied (v.emptied (ap cleared (sym m.stage) ∙ e));
  over = λ e.
      let all = ap all_ended (sym split) ∙ v.over (sym m.stage ∙ e) in
      cc (active, ended_each xs ys a all);
}
