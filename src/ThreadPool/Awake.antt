-- ===== src/ThreadPool/Awake.antt =====
-- A thread of the pool sleeps only while no job waits.
use udpboardcast.Base.{
  ℕ, ◌≡◌, ◌⊎◌, inl, inr, refl, ap, subst, Bool, List, [], ◌∷◌, ◌++◌, Option, none, some, length,
  ltb, ◌==◌, Bool-cases, arith,
}
use udpboardcast.ThreadPool.{push_work, pop_work}
use udpboardcast.ThreadPool.Threads.{
  Job, At, checks, posts, pops, waits, works, reports, ended, Pool, threadpool_init, wake,
  cond_broadcast, thread_func, threadpool_push_work, cancel_all, joining, Step, Steps, push, runs,
  wakes, uninit, sem_post, cancels, joins, stop, next,
}
use udpboardcast.ThreadPool.Sums.{sum, sum-swap}
use udpboardcast.ThreadPool.Moves.{Next, ends_as, thread_func-Moves}
use udpboardcast.ThreadPool.Cancel.{Left}

-- 1 for a thread in `uv_cond_wait`.
unfoldable pub sleeping : At → ℕ
sleeping checks = 0
sleeping posts = 0
sleeping pops = 0
sleeping waits = 1
sleeping (works j) = 0
sleeping (reports j) = 0
sleeping ended = 0

abbrev Alert : Pool → Type 0
Alert s = (s.queue ≡ []) ⊎ (sum sleeping s.threads ≡ 0)

all_woken : (ts : List At) → sum sleeping (cond_broadcast ts) ≡ 0
unfolding sum cond_broadcast wake sleeping
all_woken [] = refl
all_woken (checks ∷ ts) = omega (arith, all_woken ts)
all_woken (posts ∷ ts) = omega (arith, all_woken ts)
all_woken (pops ∷ ts) = omega (arith, all_woken ts)
all_woken (waits ∷ ts) = omega (arith, all_woken ts)
all_woken (works j ∷ ts) = omega (arith, all_woken ts)
all_woken (reports j ∷ ts) = omega (arith, all_woken ts)
all_woken (ended ∷ ts) = omega (arith, all_woken ts)

push-Alert : (j : Job) (s : Pool) → Alert s → Alert (threadpool_push_work j s).1
unfolding threadpool_push_work push_work
push-Alert j s a = elim (Bool-cases (ltb 64 (length s.queue))) [
  | inl full ↦ rw full a
  | inr room ↦ rw room (inr (all_woken s.threads))
]

-- A thread begins to wait on an empty queue only.
dozes :
    (queue : List Job) (s : Pool)
    → s.queue ≡ queue
    → Next
        (λ b s'. (sleeping b ≡ 0) ⊎ (s.queue ≡ []))
        (elim (pop_work queue) [
          | none ↦ some (waits, s)
          | some (j, rest) ↦ some (works j, record s { queue = rest })
        ])
unfolding pop_work sleeping
dozes [] s e = inr e
dozes (j ∷ queue) s e = inl refl

thread_func-sleeping :
    (a : At) (s : Pool) → Next (λ b s'. (sleeping b ≡ 0) ⊎ (s.queue ≡ [])) (thread_func a s)
unfolding thread_func sleeping
thread_func-sleeping checks s = elim (Bool-cases (s.exit_sem == 0)) [
  | inl e ↦ rw e (inl refl)
  | inr e ↦ rw e (inl refl)
]
thread_func-sleeping posts s = inl refl
thread_func-sleeping pops s = dozes s.queue s refl
thread_func-sleeping waits s = tt
thread_func-sleeping (works j) s = inl refl
thread_func-sleeping (reports j) s = inl refl
thread_func-sleeping ended s = tt

swap-Alert :
    (xs ys : List At) (a b : At) (s s' : Pool)
    → s.threads ≡ xs ++ a ∷ ys
    → (s.queue ≡ [] → s'.queue ≡ [])
    → (sleeping b ≡ 0) ⊎ (s.queue ≡ [])
    → Alert s
    → Alert (record s' { threads = xs ++ b ∷ ys })
swap-Alert xs ys a b s s' split emptied awake (inl empty) = inl (emptied empty)
swap-Alert xs ys a b s s' split emptied (inr empty) (inr nobody) = inl (emptied empty)
swap-Alert xs ys a b s s' split emptied (inl awake) (inr nobody) =
    inr (omega (arith, sum-swap sleeping xs ys a b, awake, nobody, ap (sum sleeping) split))

cancels-Alert :
    (r : Option Pool)
    → Left Alert
        (elim r [ none ↦ none | some s' ↦ some (record s' { queue = []; stage = joining }) ])
cancels-Alert none = tt
cancels-Alert (some s') = inl refl

Step-Alert : (spurious : Bool) (s t : Pool) → Step spurious s t → Alert s → Alert t
unfolding cancel_all sleeping
Step-Alert spurious s t (push j _ open_yet) v = push-Alert j s v
Step-Alert spurious s t (runs xs ys a b _ s' split e) v =
    let (_, m) = ends_as _ a b s s' (thread_func-Moves a s) e in
    swap-Alert xs ys a b s s' split m.emptied (ends_as _ a b s s' (thread_func-sleeping a s) e) v
Step-Alert spurious s t (wakes xs ys _ allowed split) v =
    swap-Alert xs ys waits checks s s split (λ e. e) (inl refl) v
Step-Alert spurious s t (uninit _ open_yet) v = v
Step-Alert spurious s t (sem_post k _ left) v = v
Step-Alert spurious s t (cancels _ _ posted e) v = subst (Left Alert) e (cancels-Alert _)
Step-Alert spurious s t (joins _ waiting all) v = v

Steps-keeps_Alert : (spurious : Bool) (s t : Pool) → Steps spurious s t → Alert s → Alert t
Steps-keeps_Alert spurious s t (stop _) v = v
Steps-keeps_Alert spurious s t (next _ u _ one rest) v =
    Steps-keeps_Alert spurious u t rest (Step-Alert spurious s u one v)

-- In every state of a pool in which a job waits, no thread sleeps in `uv_cond_wait`: the broadcast
-- of a push is never lost.
pub Steps-Awake :
    (n : ℕ) (spurious : Bool) (s : Pool) (j : Job) (queue : List Job)
    → Steps spurious (threadpool_init n) s
    → s.queue ≡ j ∷ queue
    → sum sleeping s.threads ≡ 0
unfolding threadpool_init
Steps-Awake n spurious s j queue run there =
    elim (Steps-keeps_Alert spurious (threadpool_init n) s run (inl refl)) [
      | inl empty ↦ cc (there, empty)
      | inr nobody ↦ nobody
    ]
