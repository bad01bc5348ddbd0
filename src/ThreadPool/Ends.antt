-- ===== src/ThreadPool/Ends.antt =====
-- The end of a pool when every thread comes to the test of `exit_sem` again.
use udpboardcast.Base.{
  ℕ, ◌+◌, ◌-◌, ◌≤◌, ◌≡◌, refl, sym, ap, ◌∙◌, Bool, true, false, List, [], ◌∷◌, ◌++◌, append_assoc,
  append-nil, some, length, length-append, ◌==◌, if◌then◌else◌, arith,
}
use udpboardcast.ThreadPool.Threads.{
  Job, At, checks, posts, pops, waits, works, reports, ended, joining, gone, Pool, threadpool_init,
  thread_func, is_ended, all_ended, Step, Steps, runs, joins, stop, next,
}
use udpboardcast.ThreadPool.Sums.{sum, owing, sum-append}
use udpboardcast.ThreadPool.Moves.{thread_func-Moves}
use udpboardcast.ThreadPool.Account.{Accounts, due}
use udpboardcast.ThreadPool.Runs.{Step-Accounts, Steps-Accounts, Steps-keeps}
use udpboardcast.ThreadPool.Lost.{drowsy}

pub Steps-append :
    (spurious : Bool) (s t u : Pool) → Steps spurious s t → Steps spurious t u → Steps spurious s u
Steps-append spurious s t u (stop _) more = more
Steps-append spurious s t u (next _ v _ one rest) more =
    next s v u one (Steps-append spurious v t u rest more)

-- The thread between `xs` and `ys` reaches `b`.
record Reaches (spurious : Bool) (xs ys : List At) (b : At) (s : Pool) : Type 0 where
  last : Pool
  run : Steps spurious s last
  threads : last.threads ≡ xs ++ b ∷ ys
  stage : last.stage ≡ joining

sum-owing-length : (ts : List At) → sum owing ts ≤ length ts
unfolding sum owing
sum-owing-length [] = omega arith
sum-owing-length (checks ∷ ts) = omega (arith, sum-owing-length ts)
sum-owing-length (posts ∷ ts) = omega (arith, sum-owing-length ts)
sum-owing-length (pops ∷ ts) = omega (arith, sum-owing-length ts)
sum-owing-length (waits ∷ ts) = omega (arith, sum-owing-length ts)
sum-owing-length (works j ∷ ts) = omega (arith, sum-owing-length ts)
sum-owing-length (reports j ∷ ts) = omega (arith, sum-owing-length ts)
sum-owing-length (ended ∷ ts) = omega (arith, sum-owing-length ts)

module _ (spurious : Bool) (xs ys : List At) where
  -- One step of the thread, and then the rest.
  first_to :
      (a b c : At) (s s' : Pool)
      → s.threads ≡ xs ++ a ∷ ys
      → thread_func a s ≡ some (b, s')
      → Reaches spurious xs ys c (record s' { threads = xs ++ b ∷ ys })
      → Reaches spurious xs ys c s
  first_to a b c s s' split e r = record {
    last = r.last;
    run = next s _ r.last (runs xs ys a b s s' split e) r.run;
    threads = r.threads;
    stage = r.stage;
  }

  from_posts :
      (s : Pool) → s.threads ≡ xs ++ posts ∷ ys → s.stage ≡ joining → Reaches spurious xs ys ended s
  unfolding thread_func
  from_posts s split waiting =
      first_to posts ended ended s (record s { exit_sem = s.exit_sem + 1 }) split refl
        record { last = _; run = stop _; threads = refl; stage = waiting }

  -- A thread that looks finds a unit.
  unit_left :
      (n : ℕ) (s : Pool)
      → Accounts n s
      → s.threads ≡ xs ++ checks ∷ ys
      → s.stage ≡ joining
      → (s.exit_sem == 0) ≡ false
  unfolding sum owing due
  unit_left n s v split waiting =
      let some_left : 1 ≤ s.exit_sem = omega (
        arith,
        v.units,
        ap (due n) waiting,
        ap (sum owing) split,
        sum-append owing xs (checks ∷ ys),
        sum-owing-length xs,
        sum-owing-length ys,
        v.num,
        ap length split,
        length-append xs (checks ∷ ys),
      ) in
      ground (arith, some_left)

  from_checks :
      (n : ℕ) (s : Pool)
      → Accounts n s
      → s.threads ≡ xs ++ checks ∷ ys
      → s.stage ≡ joining
      → Reaches spurious xs ys ended s
  unfolding thread_func
  from_checks n s v split waiting =
      let s' : Pool = record s { exit_sem = s.exit_sem - 1 } in
      first_to checks posts ended s s' split (rw (unit_left n s v split waiting) refl)
        (from_posts (record s' { threads = xs ++ posts ∷ ys }) refl waiting)

  from_reports :
      (n : ℕ) (j : Job) (s : Pool)
      → Accounts n s
      → s.threads ≡ xs ++ reports j ∷ ys
      → s.stage ≡ joining
      → Reaches spurious xs ys ended s
  unfolding thread_func
  from_reports n j s v split waiting =
      let s' : Pool = if j.after_proc then record s { afters = j ∷ s.afters } else s in
      let (_, m) = thread_func-Moves (reports j) s in
      let one : Step spurious s _ = runs xs ys (reports j) checks s s' split refl in
      first_to (reports j) checks ended s s' split refl
        (from_checks n _ (Step-Accounts n spurious s _ one v) refl (m.stage ∙ waiting))

  from_works :
      (n : ℕ) (j : Job) (s : Pool)
      → Accounts n s
      → s.threads ≡ xs ++ works j ∷ ys
      → s.stage ≡ joining
      → Reaches spurious xs ys ended s
  unfolding thread_func
  from_works n j s v split waiting =
      let s' : Pool = if j.proc then record s { procs = j ∷ s.procs } else s in
      let (_, m) = thread_func-Moves (works j) s in
      let one : Step spurious s _ = runs xs ys (works j) (reports j) s s' split refl in
      first_to (works j) (reports j) ended s s' split refl
        (from_reports n j _ (Step-Accounts n spurious s _ one v) refl (m.stage ∙ waiting))

  -- Wherever the thread is that is not between the test and the wait, it ends.
  comes_to_end :
      (n : ℕ) (a : At) (s : Pool)
      → Accounts n s
      → s.threads ≡ xs ++ a ∷ ys
      → s.stage ≡ joining
      → drowsy a ≡ 0
      → Reaches spurious xs ys ended s
  unfolding drowsy
  comes_to_end n checks s v split waiting alert = from_checks n s v split waiting
  comes_to_end n posts s v split waiting alert = from_posts s split waiting
  comes_to_end n pops s v split waiting alert = absurd (omega (arith, alert))
  comes_to_end n waits s v split waiting alert = absurd (omega (arith, alert))
  comes_to_end n (works j) s v split waiting alert = from_works n j s v split waiting
  comes_to_end n (reports j) s v split waiting alert = from_reports n j s v split waiting
  comes_to_end n ended s v split waiting alert = record {
    last = s;
    run = stop s;
    threads = split;
    stage = waiting;
  }

all_ended-append : (xs : List At) → all_ended xs ≡ true → all_ended (xs ++ ended ∷ []) ≡ true
unfolding all_ended is_ended
all_ended-append [] all = refl
all_ended-append (x ∷ xs) all = ground (arith, all, all_ended-append xs)

-- The pool is gone.
pub record Returns (spurious : Bool) (s : Pool) : Type 0 where
  pub last : Pool
  pub run : Steps spurious s last
  pub stage : last.stage ≡ gone

each_ends :
    (n : ℕ) (spurious : Bool) (xs ys : List At) (s : Pool)
    → Accounts n s
    → all_ended xs ≡ true
    → s.threads ≡ xs ++ ys
    → s.stage ≡ joining
    → sum drowsy ys ≡ 0
    → Returns spurious s
unfolding sum
each_ends n spurious xs [] s v all split waiting alert =
    let done = ap all_ended (split ∙ append-nil xs) ∙ all in
    record { last = _; run = next s _ _ (joins s waiting done) (stop _); stage = refl }
each_ends n spurious xs (a ∷ ys) s v all split waiting alert =
    let r = comes_to_end spurious xs ys n a s v split waiting (omega (arith, alert)) in
    let rest =
      each_ends n spurious (xs ++ ended ∷ []) ys r.last (Steps-keeps n spurious s r.last r.run v)
        (all_ended-append xs all) (r.threads ∙ sym (append_assoc xs (ended ∷ []) ys)) r.stage
        (omega (arith, alert)) in
    record {
      last = rest.last;
      run = Steps-append spurious s r.last rest.last r.run rest.run;
      stage = rest.stage;
    }

-- If no thread is between a test of `exit_sem` that failed and the end of the wait when
-- `threadpool_uninit` has cleared the queue and joins the threads, then every thread can come to
-- its end, and `threadpool_uninit` returns.
pub Steps-Returns :
    (n : ℕ) (spurious : Bool) (s : Pool)
    → Steps spurious (threadpool_init n) s
    → s.stage ≡ joining
    → sum drowsy s.threads ≡ 0
    → Returns spurious s
unfolding all_ended
Steps-Returns n spurious s run waiting alert =
    each_ends n spurious [] s.threads s (Steps-Accounts n spurious s run) refl refl waiting alert
