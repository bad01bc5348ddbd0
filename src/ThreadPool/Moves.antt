-- ===== src/ThreadPool/Moves.antt =====
-- What a step of `thread_func` does with the jobs and the semaphore.
use udpboardcast.Base.{
  ℕ, ◌+◌, ◌-◌, ◌≡◌, refl, subst, ap, inl, inr, Bool, true, false, List, [], ◌∷◌, Option, none, some,
  ◌==◌, if◌then◌else◌, Bool-cases, arith,
}
use udpboardcast.ThreadPool.{pop_work}
use udpboardcast.ThreadPool.Threads.{
  Job, At, checks, posts, pops, waits, works, reports, ended, Pool, thread_func, is_ended,
}
use udpboardcast.ThreadPool.Sums.{sum, working, holding, owing}

-- A property of what a thread does next, if it does something.
abbrev pub Next : (At → Pool → Type 0) → Option (At × Pool) → Type 0
Next P none = Unit
Next P (some (b, s)) = P b s

-- A thread moves from `a` to `b`.
pub record Moves (a b : At) (s s' : Pool) : Type 0 where
  pub pushed : s'.pushed ≡ s.pushed
  pub cancelled : s'.cancelled ≡ s.cancelled
  pub stage : s'.stage ≡ s.stage
  pub procs :
      (w : Job → ℕ)
      → ((j : Job) → j.proc ≡ false → w j ≡ 0)
      → sum w s'.queue + working w b + sum w s'.procs ≡ sum w s.queue + working w a + sum w s.procs
  pub afters :
      (w : Job → ℕ)
      → ((j : Job) → j.after_proc ≡ false → w j ≡ 0)
      → sum w s'.queue + holding w b + sum w s'.afters
        ≡ sum w s.queue + holding w a + sum w s.afters
  pub units : s'.exit_sem + owing b ≡ s.exit_sem + owing a
  pub emptied : s.queue ≡ [] → s'.queue ≡ []

-- Only the semaphore changes, and no job is held.
pub rests :
    (a b : At) (s : Pool) (units : ℕ)
    → ((w : Job → ℕ) → working w b ≡ working w a)
    → ((w : Job → ℕ) → holding w b ≡ holding w a)
    → units + owing b ≡ s.exit_sem + owing a
    → Moves a b s (record s { exit_sem = units })
rests a b s units work hold same = record {
  pushed = refl;
  cancelled = refl;
  stage = refl;
  procs = λ w h. omega (arith, work w);
  afters = λ w h. omega (arith, hold w);
  units = same;
  emptied = λ e. e;
}

takes :
    (j : Job) (queue : List Job) (s : Pool)
    → s.queue ≡ j ∷ queue
    → Moves pops (works j) s (record s { queue = queue })
unfolding sum working holding owing
takes j queue s e = record {
  pushed = refl;
  cancelled = refl;
  stage = refl;
  procs = λ w h. omega (arith, ap (sum w) e);
  afters = λ w h. omega (arith, ap (sum w) e);
  units = refl;
  emptied = λ none_left. cc (e, none_left);
}

calls_proc :
    (j : Job) (s : Pool) (there : Bool)
    → j.proc ≡ there
    → Moves (works j) (reports j) s (if there then record s { procs = j ∷ s.procs } else s)
unfolding sum working holding owing
calls_proc j s true e = record {
  pushed = refl;
  cancelled = refl;
  stage = refl;
  procs = λ w h. omega arith;
  afters = λ w h. refl;
  units = refl;
  emptied = λ none_left. none_left;
}
calls_proc j s false e = record {
  pushed = refl;
  cancelled = refl;
  stage = refl;
  procs = λ w h. omega (arith, h j e);
  afters = λ w h. refl;
  units = refl;
  emptied = λ none_left. none_left;
}

calls_after :
    (j : Job) (s : Pool) (there : Bool)
    → j.after_proc ≡ there
    → Moves (reports j) checks s (if there then record s { afters = j ∷ s.afters } else s)
unfolding sum working holding owing
calls_after j s true e = record {
  pushed = refl;
  cancelled = refl;
  stage = refl;
  procs = λ w h. refl;
  afters = λ w h. omega arith;
  units = refl;
  emptied = λ none_left. none_left;
}
calls_after j s false e = record {
  pushed = refl;
  cancelled = refl;
  stage = refl;
  procs = λ w h. refl;
  afters = λ w h. omega (arith, h j e);
  units = refl;
  emptied = λ none_left. none_left;
}

pops_queue :
    (queue : List Job) (s : Pool)
    → s.queue ≡ queue
    → Next
        (λ b s'. (false ≡ false) × Moves pops b s s')
        (elim (pop_work queue) [
          | none ↦ some (waits, s)
          | some (j, rest) ↦ some (works j, record s { queue = rest })
        ])
unfolding pop_work working holding owing
pops_queue [] s e = (refl, rests pops waits s s.exit_sem (λ w. refl) (λ w. refl) refl)
pops_queue (j ∷ queue) s e = (refl, takes j queue s e)

pub thread_func-Moves :
    (a : At) (s : Pool) → Next (λ b s'. (is_ended a ≡ false) × Moves a b s s') (thread_func a s)
unfolding thread_func pop_work working holding owing is_ended
thread_func-Moves checks s = elim (Bool-cases (s.exit_sem == 0)) [
  | inl e ↦ rw e (refl, rests checks pops s s.exit_sem (λ w. refl) (λ w. refl) refl)
  | inr e ↦
      rw e (refl, rests checks posts s (s.exit_sem - 1) (λ w. refl) (λ w. refl) (ground (arith, e)))
]
thread_func-Moves posts s =
    (refl, rests posts ended s (s.exit_sem + 1) (λ w. refl) (λ w. refl) (omega arith))
thread_func-Moves pops s = pops_queue s.queue s refl
thread_func-Moves waits s = tt
thread_func-Moves (works j) s = (refl, calls_proc j s j.proc refl)
thread_func-Moves (reports j) s = (refl, calls_after j s j.after_proc refl)
thread_func-Moves ended s = tt

pub ends_as :
    (P : At → Pool → Type 0) (a b : At) (s s' : Pool)
    → Next P (thread_func a s)
    → thread_func a s ≡ some (b, s')
    → P b s'
ends_as P a b s s' h e = subst (Next P) e h
