-- ===== src/ThreadPool.antt =====
-- third/threadpool/threadpool.c: the queue of work and the threads' loop. The queue of
-- third/queue/Gqueue.c is the list of what it holds, from its head.
pub mod Threads
pub mod Sums
pub mod Moves
pub mod Account
pub mod Cancel
pub mod Runs
pub mod Once
pub mod Awake
pub mod Lost
pub mod Ends
use udpboardcast.Base.{
  ◌≤◌, ◌<◌, lt→ltb, ◌≡◌, Bool, true, false, List, [], ◌∷◌, ◌++◌, Option, none, some, length, ltb,
  if◌then◌else◌, length-append, arith,
}

-- `threadpool_push_work`: true for 0, false for -1.
unfoldable pub push_work {ℓ} : {A : Type ℓ} → A → List A → Bool × List A
push_work w queue = if ltb 64 (length queue) then (false, queue) else (true, queue ++ w ∷ [])

-- `easy_queue_pop` in `thread_func`: the work that a thread runs next, and the queue.
unfoldable pub pop_work {ℓ} : {A : Type ℓ} → List A → Option (A × List A)
pop_work [] = none
pop_work (w ∷ queue) = some (w, queue)

pub length-push_work {ℓ} :
    {A : Type ℓ} (w : A) (queue : List A) → length queue ≤ 65 → length (push_work w queue).1 ≤ 65
unfolding push_work
length-push_work w queue h = ground (arith, length-append queue (w ∷ []))

-- A queue with more than 64 items takes no more.
pub push_work-full {ℓ} :
    {A : Type ℓ} (w : A) (queue : List A) → 64 < length queue → push_work w queue ≡ (false, queue)
unfolding push_work
push_work-full w queue h = rw (lt→ltb 64 (length queue) h, push_work)
